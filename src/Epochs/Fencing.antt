-- ===== src/Epochs/Fencing.antt =====
-- A job is published only for the latest generation of its head, and only after the reset of it.
use extra_codeowners.Prelude.{
  ℕ, ◌+◌, ◌*◌, ◌≤◌, ◌<◌, Bool, true, false, List, [], ◌∷◌, ◌≡◌, refl, sym, ◌⊎◌, subst, arith, ◌==◌,
  nat_eq, list_eq, if◌then◌else◌, Option, none, some, inl, inr, beq_self,
}
use extra_codeowners.Text.{Str}
use extra_codeowners.Budget.{second}
use extra_codeowners.Leases.{Circuits}
use extra_codeowners.Epochs.{
  WorkClass, Epoch, Claim, is_pending, advance_epoch, touch_epoch, is_claimable, claim_epoch,
  is_current, is_held_by, is_unexpired, renew_epoch, complete_epoch, fail_epoch, defer_epoch,
  prune_epoch, is_publishable,
}

-- a transaction on the row; the claim that a worker hands in is any claim, however old
pub data Event : Type 0 where
  advance : ℕ → Bool → WorkClass → Event
  touch : ℕ → Event
  claim : ℕ → ℕ → Circuits → Option WorkClass → Str → ℕ → Event
  renew : ℕ → Claim → ℕ → Event
  complete : ℕ → Claim → Event
  fail : ℕ → Claim → ℕ → Event
  defer : ℕ → Claim → ℕ → Event
  prune : ℕ → Bool → Event

-- an UPDATE finds no row to change
unfoldable pub update_row : (Epoch → Epoch) → Option Epoch → Option Epoch
update_row f none = none
update_row f (some epoch) = some (f epoch)

unfoldable pub prune_row : ℕ → Bool → Option Epoch → Option Epoch
prune_row older_than referenced none = none
prune_row older_than referenced (some epoch) = prune_epoch older_than referenced epoch

unfoldable pub step : Event → Option Epoch → Option Epoch
unfolding update_row prune_row
step (advance now foreground requested) row = some (advance_epoch now foreground requested row)
step (touch now) row = touch_epoch now row
step (claim now installation_id circuits asked owner seconds) row =
    update_row (λ e. (claim_epoch now installation_id circuits asked owner seconds e).0) row
step (renew now c seconds) row = update_row (renew_epoch now c seconds) row
step (complete now c) row = update_row (complete_epoch now c) row
step (fail now c delay) row = update_row (fail_epoch now c delay) row
step (defer now c delay) row = update_row (defer_epoch now c delay) row
step (prune older_than referenced) row = prune_row older_than referenced row

unfoldable pub steps : List Event → Option Epoch → Option Epoch
unfolding step
steps [] row = row
steps (event ∷ events) row = steps events (step event row)

-- the two CHECK constraints on the generations
unfoldable pub IsSound : Option Epoch → Type 0
IsSound none = Unit
IsSound (some epoch) = (1 ≤ epoch.generation) × (epoch.invalidated_generation ≤ epoch.generation)

prune_epoch-cases :
    (t : ℕ) (r : Bool) (e : Epoch) → (prune_epoch t r e ≡ none) ⊎ (prune_epoch t r e ≡ some e)
unfolding prune_epoch
prune_epoch-cases t r e = by_test _
  where
    by_test :
        (b : Bool) → ((if b then none else some e) ≡ none) ⊎ ((if b then none else some e) ≡ some e)
    by_test true = inl refl
    by_test false = inr refl

step-IsSound : (event : Event) (row : Option Epoch) → IsSound row → IsSound (step event row)
unfolding step IsSound update_row advance_epoch
step-IsSound (advance now f w) none s = (omega arith, omega arith)
step-IsSound (advance now f w) (some e) s = (omega (arith, s.0), omega (arith, s.1))
step-IsSound (touch now) none s = unfold touch_epoch in tt
step-IsSound (touch now) (some e) s = unfold touch_epoch in s
step-IsSound (claim now i cs w o n) none s = tt
step-IsSound (claim now i cs w o n) (some e) s = unfold claim_epoch in (ground arith, ground arith)
step-IsSound (renew now c n) none s = tt
step-IsSound (renew now c n) (some e) s = unfold renew_epoch in (ground arith, ground arith)
step-IsSound (complete now c) none s = tt
step-IsSound (complete now c) (some e) s =
    unfold complete_epoch is_current in (ground arith, ground arith)
step-IsSound (fail now c d) none s = tt
step-IsSound (fail now c d) (some e) s = unfold fail_epoch in (ground arith, ground arith)
step-IsSound (defer now c d) none s = tt
step-IsSound (defer now c d) (some e) s = unfold defer_epoch in (ground arith, ground arith)
step-IsSound (prune t r) none s = unfold prune_row in tt
step-IsSound (prune t r) (some e) s =
    unfold prune_row in
    elim (prune_epoch-cases t r e) [
      | inl gone ↦ subst IsSound (sym gone) (unfold IsSound in tt)
      | inr kept ↦ subst IsSound (sym kept) s
    ]

-- Whatever transactions run, with whatever claims, the generation of a row stays positive and its
-- invalidated generation at most its generation, as the two constraints of the table say.
pub steps-IsSound :
    (events : List Event) (row : Option Epoch) → IsSound row → IsSound (steps events row)
unfolding steps
steps-IsSound [] row s = s
steps-IsSound (event ∷ events) row s =
    steps-IsSound events (step event row) (step-IsSound event row s)

-- the row is there, with a generation behind `bound`
unfoldable pub IsPast : ℕ → Option Epoch → Type 0
IsPast bound none = ⊥
IsPast bound (some epoch) = bound < epoch.generation

-- each pruning found a job that names the head
unfoldable pub AllReferenced : List Event → Type 0
AllReferenced [] = Unit
AllReferenced (prune older_than referenced ∷ events) = (referenced ≡ true) × AllReferenced events
AllReferenced (event ∷ events) = AllReferenced events

IsPast-update :
    (bound : ℕ) (f : Epoch → Epoch) (row : Option Epoch)
    → ((e : Epoch) → (f e).generation ≡ e.generation)
    → IsPast bound row
    → IsPast bound (update_row f row)
unfolding IsPast update_row
IsPast-update bound f none same past = absurd past
IsPast-update bound f (some e) same past = omega (arith, same e, past)

steps-IsPast :
    (bound : ℕ) (events : List Event) (row : Option Epoch)
    → AllReferenced events
    → IsPast bound row
    → IsPast bound (steps events row)
unfolding steps step AllReferenced
steps-IsPast bound [] row referenced past = past
steps-IsPast bound (advance now f w ∷ events) none referenced past = absurd (unfold IsPast in past)
steps-IsPast bound (touch now ∷ events) none referenced past = absurd (unfold IsPast in past)
steps-IsPast bound (prune t r ∷ events) none referenced past = absurd (unfold IsPast in past)
steps-IsPast bound (advance now f w ∷ events) (some e) referenced past =
    steps-IsPast bound events _ referenced
      (unfold IsPast advance_epoch in let h : bound < e.generation = past in omega (arith, h))
steps-IsPast bound (touch now ∷ events) (some e) referenced past =
    steps-IsPast bound events _ referenced (unfold IsPast touch_epoch in past)
steps-IsPast bound (claim now i cs w o n ∷ events) row referenced past =
    steps-IsPast bound events _ referenced (
      IsPast-update bound (λ e. (claim_epoch now i cs w o n e).0) row
        (λ e. unfold claim_epoch in ground arith) past)
steps-IsPast bound (renew now c n ∷ events) row referenced past =
    steps-IsPast bound events _ referenced
      (IsPast-update bound (renew_epoch now c n) row (λ e. unfold renew_epoch in ground arith) past)
steps-IsPast bound (complete now c ∷ events) row referenced past =
    steps-IsPast bound events _ referenced (
      IsPast-update bound (complete_epoch now c) row (λ e. unfold complete_epoch in ground arith)
        past)
steps-IsPast bound (fail now c d ∷ events) row referenced past =
    steps-IsPast bound events _ referenced
      (IsPast-update bound (fail_epoch now c d) row (λ e. unfold fail_epoch in ground arith) past)
steps-IsPast bound (defer now c d ∷ events) row referenced past =
    steps-IsPast bound events _ referenced
      (IsPast-update bound (defer_epoch now c d) row (λ e. unfold defer_epoch in ground arith) past)
steps-IsPast bound (prune t r ∷ events) (some e) (held, referenced) past =
    let kept : prune_epoch t r e ≡ some e = unfold prune_epoch in rw held (ground arith) in
    steps-IsPast bound events _ referenced
      (unfold prune_row in subst (IsPast bound) (sym kept) past)

-- After a trigger advances the epoch of a head, a job that was bound to a generation of before is
-- never publishable again, whatever transactions follow and with whatever claims, as long as each
-- pruning sees that some job still names the head.
pub advance_fences :
    (now : ℕ) (foreground : Bool) (requested : WorkClass) (epoch : Epoch) (bound : ℕ)
    (events : List Event)
    → bound ≤ epoch.generation
    → AllReferenced events
    → is_publishable bound
        (steps events (some (advance_epoch now foreground requested (some epoch))))
      ≡ false
advance_fences now foreground requested epoch bound events old referenced =
    never (steps events (some (advance_epoch now foreground requested (some epoch))))
      (steps-IsPast bound events _ referenced (unfold IsPast advance_epoch in omega (arith, old)))
  where
    never : (row : Option Epoch) → IsPast bound row → is_publishable bound row ≡ false
    never none past = absurd (unfold IsPast in past)
    never (some e) past =
        unfold is_publishable in
        let h : bound < e.generation = unfold IsPast in past in ground arith

-- The worker that claims a pending row and completes it before its lease ends makes the row's
-- generation publishable.
claim_then_complete :
    (now later installation_id : ℕ) (circuits : Circuits) (asked : Option WorkClass) (owner : Str)
    (lease_seconds : ℕ) (epoch : Epoch)
    → is_claimable now installation_id circuits asked epoch ≡ true
    → later ≤ now + lease_seconds * second
    → let (row, claimed) =
        claim_epoch now installation_id circuits asked owner lease_seconds epoch in
      (c : Claim) × (claimed ≡ some c)
      × (is_publishable epoch.generation (some (complete_epoch later c row)) ≡ true)
unfolding claim_epoch
claim_then_complete now later installation_id circuits asked owner lease_seconds epoch claimable
      early =
    let pending : is_pending epoch ≡ true = unfold is_claimable in ground arith in
    rw claimable (
      record { generation = epoch.generation; attempts = epoch.attempts + 1; lease_owner = owner },
      refl,
      (unfold complete_epoch is_current is_pending is_held_by is_unexpired is_publishable in
          let self : (owner == owner) ≡ true = beq_self owner in ground arith),
    )
