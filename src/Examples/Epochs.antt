-- ===== src/Examples/Epochs.antt =====
-- The epoch of a head commit at concrete times.
use extra_codeowners.Prelude.{
  ℕ, ◌+◌, ◌*◌, ◌≤◌, Bool, true, false, List, [], ◌∷◌, ◌≡◌, refl, arith, Option, none, some,
}
use extra_codeowners.Text.{Str, text}
use extra_codeowners.Epochs.{
  recovery, interactive, Epoch, Claim, advance_epoch, is_claimable, is_publishable,
}
use extra_codeowners.Epochs.Fencing.{
  Event, steps, IsSound, steps-IsSound, AllReferenced, advance_fences,
}

abbrev worker : Str
worker = text "w"

-- generation 2, whose reset is not done yet
abbrev waiting : Epoch
waiting = record {
  generation = 2;
  invalidated_generation = 1;
  work_class = recovery;
  changed_at = 10;
  available_at = 10;
  attempts = 0;
  lease_owner = none;
  lease_until = none;
}

-- the claim of a worker that has been away since generation 2
abbrev old_claim : Claim
old_claim = record { generation = 2; attempts = 1; lease_owner = worker }

abbrev events : List Event
events =
    Event.claim 30 7 [] none worker 60 ∷ Event.complete 40 old_claim ∷ Event.prune 100 true ∷ []

waiting-IsSound : IsSound (some waiting)
unfolding IsSound
waiting-IsSound = (omega arith, omega arith)

steps-IsSound_example : IsSound (steps events (some waiting))
steps-IsSound_example = steps-IsSound events (some waiting) waiting-IsSound

events-AllReferenced : AllReferenced events
unfolding AllReferenced
events-AllReferenced = (refl, tt)

advance_fences_example :
    is_publishable 2 (steps events (some (advance_epoch 20 false interactive (some waiting))))
    ≡ false
advance_fences_example =
    advance_fences 20 false interactive waiting 2 events (omega arith) events-AllReferenced

waiting-is_claimable : is_claimable 20 7 [] none waiting ≡ true
unfolding is_claimable extra_codeowners.Leases.provider_is_backpressured
    extra_codeowners.Prelude.lookup
waiting-is_claimable = refl
