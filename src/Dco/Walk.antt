-- ===== src/Dco/Walk.antt =====
-- The walk over the parents ends, and finds the ancestors of the commit it starts from.
use extra_codeowners.Prelude.{
  ℕ, zero, suc, ◌+◌, ◌≤◌, Bool, true, false, not, ◌&&◌, ◌||◌, List, [], ◌∷◌, ◌≡◌, refl, ◌∙◌, ◌↔◌,
  ◌⊎◌, inl, inr, ◌==◌, nat_eq, list_eq, if◌then◌else◌, some, contains, Dict, lookup, length, ok,
  arith, Option-cases, any, list_beq_iff,
}
use extra_codeowners.Text.{Str}
use extra_codeowners.Dco.{CommitEvidence}
use extra_codeowners.Dco.Order.{is_some, Search, visit_parent, visit_parents, walk}

abbrev pub Known : Dict Str CommitEvidence → Str → Type 0
Known by_sha sha = is_some (lookup sha by_sha) ≡ true

-- v is a parent of u, and both are among the commits
abbrev pub Edge : Dict Str CommitEvidence → Str → Str → Type 0
Edge by_sha u v =
    (c : CommitEvidence) × (lookup u by_sha ≡ some c)
    × (contains c.parents v ≡ true)
    × Known by_sha v

-- what a walk along E leads to from `head`
pub data Ancestor (E : Str → Str → Type 0) (head : Str) : Str → Type 0 where
  here : Ancestor E head head
  step : {u v : Str} → Ancestor E head u → E u v → Ancestor E head v

pub Ancestor-map :
    (E F : Str → Str → Type 0) {head v : Str}
    → ((u w : Str) → E u w → F u w)
    → Ancestor E head v
    → Ancestor F head v
Ancestor-map E F f here = here
Ancestor-map E F f (step {u} {v} p e) = step (Ancestor-map E F f p) (f u v e)

module _ (by_sha : Dict Str CommitEvidence) where
  abbrev known : Str → Bool
  known sha = is_some (lookup sha by_sha)

  reachable-visit_parent :
      (s : Search) (p v : Str)
      → contains (visit_parent by_sha s p).reachable v
        ≡ (contains s.reachable v || (p == v && known v))
  unfolding visit_parent contains any
  reachable-visit_parent s p v = ground (arith, list_beq_iff p v)

  pending-visit_parent :
      (s : Search) (p v : Str)
      → contains (visit_parent by_sha s p).pending v
        ≡ (contains s.pending v || (p == v && (known v && not (contains s.reachable v))))
  unfolding visit_parent contains any
  pending-visit_parent s p v = ground (arith, list_beq_iff p v)

  reachable-visit_parents :
      (s : Search) (ps : List Str) (v : Str)
      → contains (visit_parents by_sha s ps).reachable v
        ≡ (contains s.reachable v || (contains ps v && known v))
  unfolding visit_parents contains any
  reachable-visit_parents s [] v = ground arith
  reachable-visit_parents s (p ∷ ps) v =
      ground (
        arith,
        reachable-visit_parents (visit_parent by_sha s p) ps v,
        reachable-visit_parent s p v,
      )

  pending-visit_parents :
      (s : Search) (ps : List Str) (v : Str)
      → contains (visit_parents by_sha s ps).pending v
        ≡ (contains s.pending v || (contains ps v && (known v && not (contains s.reachable v))))
  unfolding visit_parents contains any
  pending-visit_parents s [] v = ground arith
  pending-visit_parents s (p ∷ ps) v = ground (
    arith,
    pending-visit_parents (visit_parent by_sha s p) ps v,
    reachable-visit_parent s p v,
    pending-visit_parent s p v,
  )

-- the commits that the walk has not met
unfoldable pub unmet : Dict Str CommitEvidence → List Str → ℕ
unfolding contains any
unmet [] r = 0
unmet ((k, c) ∷ d) r = let rest = unmet d r in if contains r k then rest else suc rest

unmet-cons_le : (d : Dict Str CommitEvidence) (p : Str) (r : List Str) → unmet d (p ∷ r) ≤ unmet d r
unfolding unmet contains any
unmet-cons_le [] p r = omega arith
unmet-cons_le ((k, c) ∷ d) p r = ground (arith, unmet-cons_le d p r)

pub unmet-cons_lt :
    (d : Dict Str CommitEvidence) (p : Str) (r : List Str)
    → Known d p
    → contains r p ≡ false
    → suc (unmet d (p ∷ r)) ≤ unmet d r
unfolding unmet contains any lookup is_some
unmet-cons_lt [] p r k n = ground arith
unmet-cons_lt ((j, c) ∷ d) p r k n =
    ground (arith, unmet-cons_le d p r, unmet-cons_lt d p r, list_beq_iff j p, list_beq_iff p j)

pub unmet-le : (d : Dict Str CommitEvidence) (r : List Str) → unmet d r ≤ length d
unfolding unmet
unmet-le [] r = omega arith
unmet-le ((k, c) ∷ d) r = ground (arith, unmet-le d r)

work-visit_parents :
    (d : Dict Str CommitEvidence) (s : Search) (ps : List Str)
    → unmet d (visit_parents d s ps).reachable + length (visit_parents d s ps).pending
      ≤ unmet d s.reachable + length s.pending
unfolding visit_parents visit_parent
work-visit_parents d s [] = omega arith
work-visit_parents d s (p ∷ ps) =
    ground (arith, work-visit_parents d (visit_parent d s p) ps, unmet-cons_lt d p s.reachable)

-- What holds whenever the outer loop tests its condition.
pub record Inv (d : Dict Str CommitEvidence) (head : Str) (r pending : List Str) : Type 0 where
  pub start : contains r head ≡ true
  pub sound : (v : Str) → contains r v ≡ true → Ancestor (Edge d) head v
  pub queued : (v : Str) → contains pending v ≡ true → (contains r v ≡ true) × Known d v
  pub closed :
      (u v : Str)
      → contains r u ≡ true
      → Edge d u v
      → (contains pending u ≡ true) ⊎ (contains r v ≡ true)

contains-head : (x : Str) (xs : List Str) → contains (x ∷ xs) x ≡ true
unfolding contains any
contains-head x xs = ground (arith, list_beq_iff x x)

contains-cons : (v x : Str) (xs : List Str) → contains (x ∷ xs) v ≡ (x == v || contains xs v)
unfolding contains any
contains-cons v x xs = refl

true_of_or : (a b : Bool) → (a || b) ≡ true → (a ≡ true) ⊎ (b ≡ true)
true_of_or a b h = ground arith

pub true_of_and : (a b : Bool) → (a && b) ≡ true → (a ≡ true) × (b ≡ true)
true_of_and a b h = ground arith

-- the parents of the commit that a SHA names
is_parent :
    (d : Dict Str CommitEvidence) (sha u v : Str) (c : CommitEvidence)
    → lookup sha d ≡ some c
    → Edge d u v
    → (sha == u) ≡ true
    → contains c.parents v ≡ true
is_parent d sha u v c found (c', found', parent, _) e =
    let same : sha ≡ u = (list_beq_iff sha u).0 e in
    let one : c ≡ c' = ground (arith, same, found, found') in rw one parent

walk-found :
    (d : Dict Str CommitEvidence) (fuel : ℕ) (r pending : List Str) (sha : Str) (c : CommitEvidence)
    → lookup sha d ≡ some c
    → let s = visit_parents d (record { reachable = r; pending = pending }) c.parents in
      walk d (suc fuel) r (sha ∷ pending) ≡ walk d fuel s.reachable s.pending
unfolding walk
walk-found d fuel r pending sha c found = ground arith

module _ (d : Dict Str CommitEvidence) (head : Str) where
  Inv-visit_parents :
      (r pending : List Str) (sha : Str) (c : CommitEvidence)
      → lookup sha d ≡ some c
      → Inv d head r (sha ∷ pending)
      → let s = visit_parents d (record { reachable = r; pending = pending }) c.parents in
        Inv d head s.reachable s.pending
  Inv-visit_parents r pending sha c found h =
      let before : Search = record { reachable = r; pending = pending } in
      let flags = λ (v : Str). reachable-visit_parents d before c.parents v in
      let queue = λ (v : Str). pending-visit_parents d before c.parents v in
      let sha_queued = h.queued sha (contains-head sha pending) in
      record {
        start = ground (arith, flags head, h.start);
        sound = λ v m.
            elim (true_of_or (contains r v) (contains c.parents v && is_some (lookup v d))
              (ground (arith, flags v))) [
                | inl old ↦ h.sound v old
                | inr new ↦
                    let (parent, is_known) = true_of_and _ _ new in
                    step (h.sound sha sha_queued.0) (c, found, parent, is_known)
              ];
        queued = λ v m. ground (arith, flags v, queue v, h.queued v, contains-cons v sha pending);
        closed = λ u v m e. ground (
          arith,
          flags u,
          flags v,
          queue u,
          h.closed u v,
          contains-cons u sha pending,
          is_parent d sha u v c found e,
          e,
        );
      }

  -- with nothing pending the set is closed under parents
  complete :
      (r : List Str) → Inv d head r [] → {v : Str} → Ancestor (Edge d) head v → contains r v ≡ true
  unfolding contains any
  complete r h here = h.start
  complete r h (step {u} {v} p edge) = ground (arith, h.closed u v (complete r h p) edge)

  pub walk-Reaches :
      (fuel : ℕ) (r pending : List Str)
      → Inv d head r pending
      → unmet d r + length pending ≤ fuel
      → (t : List Str) × (walk d fuel r pending ≡ ok t)
        × ((v : Str) → (contains t v ≡ true) ↔ Ancestor (Edge d) head v)
  unfolding walk
  walk-Reaches fuel r [] h n = (r, refl, λ v. (h.sound v, complete r h))
  walk-Reaches zero r (sha ∷ pending) h n = absurd (omega arith)
  walk-Reaches (suc fuel) r (sha ∷ pending) h n = elim (Option-cases (lookup sha d)) [
    | inl none_there ↦ absurd (ground (arith, h.queued sha (contains-head sha pending)))
    | inr (c, found) ↦
        let s = visit_parents d (record { reachable = r; pending = pending }) c.parents in
        let work = work-visit_parents d (record { reachable = r; pending = pending }) c.parents in
        let (t, ends, says) =
          walk-Reaches fuel s.reachable s.pending (Inv-visit_parents r pending sha c found h)
            (omega arith) in
        (t, walk-found d fuel r pending sha c found ∙ ends, says)
  ]
