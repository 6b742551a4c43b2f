-- ===== src/Epochs.antt =====
-- The shared-head epochs of database.py: one row for each head commit of a repository, which fences
-- the published check of that commit. A transaction is a function of the row with the given key,
-- or `none` where the table has no such row; it leaves all other rows alone. Instants are
-- microseconds. The text of the last error is left out.
pub mod Fencing
use extra_codeowners.Prelude.{
  ℕ, zero, suc, ◌+◌, ◌-◌, ◌*◌, max, min, Bool, true, false, not, ◌&&◌, ◌||◌, List, [], ◌∷◌, ltb,
  leb, ◌==◌, nat_eq, list_eq, if◌then◌else◌, Option, none, some,
}
use extra_codeowners.Text.{Str}
use extra_codeowners.Budget.{second}
use extra_codeowners.Leases.{Circuits, provider_is_backpressured}

pub data WorkClass : Type 0 where
  interactive recovery : WorkClass

unfoldable pub is_interactive : WorkClass → Bool
is_interactive interactive = true
is_interactive recovery = false

-- SharedHeadEpoch
pub record Epoch : Type 0 where
  pub generation : ℕ
  pub invalidated_generation : ℕ
  pub work_class : WorkClass
  pub changed_at : ℕ
  pub available_at : ℕ
  pub attempts : ℕ
  pub lease_owner : Option Str
  pub lease_until : Option ℕ

-- ClaimedSharedHeadInvalidation, without the key that it shares with the row
pub record Claim : Type 0 where
  pub generation : ℕ
  pub attempts : ℕ
  pub lease_owner : Str

-- invalidated_generation < generation
unfoldable pub is_pending : Epoch → Bool
is_pending epoch = ltb epoch.invalidated_generation epoch.generation

unfoldable pub advanced_class : Bool → WorkClass → Epoch → WorkClass
unfolding is_pending is_interactive
advanced_class foreground_waiting requested epoch =
    if foreground_waiting || is_interactive epoch.work_class && is_pending epoch
    then interactive
    else requested

-- the row that `_advance_shared_head_epoch_in_session` updates or inserts; whether a foreground job
-- waits is read from the table of jobs
unfoldable pub advance_epoch : ℕ → Bool → WorkClass → Option Epoch → Epoch
unfolding advanced_class
advance_epoch now foreground_waiting requested none = record {
  generation = 1;
  invalidated_generation = 0;
  work_class = if foreground_waiting then interactive else requested;
  changed_at = now;
  available_at = now;
  attempts = 0;
  lease_owner = none;
  lease_until = none;
}
advance_epoch now foreground_waiting requested (some epoch) = record epoch {
  generation = epoch.generation + 1;
  work_class = advanced_class foreground_waiting requested epoch;
  changed_at = now;
  available_at = now;
  attempts = 0;
  lease_owner = none;
  lease_until = none;
}

unfoldable pub touch_epoch : ℕ → Option Epoch → Option Epoch
touch_epoch now none = none
touch_epoch now (some epoch) = some (record epoch { changed_at = now })

-- `_shared_head_generation_in_session`
unfoldable pub generation_of : Option Epoch → ℕ
generation_of none = 0
generation_of (some epoch) = epoch.generation

-- lease_until IS NULL OR lease_until < now
unfoldable pub is_released : ℕ → Option ℕ → Bool
is_released now none = true
is_released now (some until) = ltb until now

unfoldable pub is_in_class : Option WorkClass → WorkClass → Bool
unfolding is_interactive
is_in_class none work_class = true
is_in_class (some asked) work_class =
    is_interactive asked && is_interactive work_class
    || not (is_interactive asked) && not (is_interactive work_class)

-- the conditions of a candidate of `claim_shared_head_invalidation`
unfoldable pub is_claimable : ℕ → ℕ → Circuits → Option WorkClass → Epoch → Bool
unfolding is_pending is_released is_in_class
is_claimable now installation_id circuits asked epoch =
    is_pending epoch
    && leb epoch.available_at now
    && is_released now epoch.lease_until
    && not (provider_is_backpressured now (some installation_id) circuits)
    && is_in_class asked epoch.work_class

-- the transaction on the row, when it is the candidate that the query picks
unfoldable pub claim_epoch :
    ℕ → ℕ → Circuits → Option WorkClass → Str → ℕ → Epoch → Epoch × Option Claim
unfolding is_claimable
claim_epoch now installation_id circuits asked owner lease_seconds epoch =
    if is_claimable now installation_id circuits asked epoch
    then (
      record epoch {
        lease_owner = some owner;
        lease_until = some (now + lease_seconds * second);
        attempts = epoch.attempts + 1;
      },
      some (record {
        generation = epoch.generation;
        attempts = epoch.attempts + 1;
        lease_owner = owner;
      }),
    )
    else (epoch, none)

unfoldable pub is_held_by : Str → Option Str → Bool
is_held_by owner none = false
is_held_by owner (some holder) = holder == owner

-- lease_until >= now
unfoldable pub is_unexpired : ℕ → Option ℕ → Bool
is_unexpired now none = false
is_unexpired now (some until) = leb now until

-- `is_current_shared_head_invalidation`, and the WHERE clause of the four updates below
unfoldable pub is_current : ℕ → Claim → Epoch → Bool
unfolding is_held_by is_unexpired
is_current now claim epoch =
    epoch.generation == claim.generation
    && ltb epoch.invalidated_generation claim.generation
    && is_held_by claim.lease_owner epoch.lease_owner
    && is_unexpired now epoch.lease_until

unfoldable pub renew_epoch : ℕ → Claim → ℕ → Epoch → Epoch
unfolding is_current
renew_epoch now claim lease_seconds epoch =
    if is_current now claim epoch
    then record epoch { lease_until = some (now + lease_seconds * second) }
    else epoch

unfoldable pub complete_epoch : ℕ → Claim → Epoch → Epoch
unfolding is_current
complete_epoch now claim epoch =
    if is_current now claim epoch
    then record epoch {
      invalidated_generation = claim.generation;
      lease_owner = none;
      lease_until = none;
    }
    else epoch

-- 2 ** n
unfoldable pub power_of_two : ℕ → ℕ
power_of_two zero = 1
power_of_two (suc n) = 2 * power_of_two n

unfoldable pub fail_epoch : ℕ → Claim → ℕ → Epoch → Epoch
unfolding is_current power_of_two
fail_epoch now claim max_delay_seconds epoch =
    let delay = max 1 (min max_delay_seconds (power_of_two (min claim.attempts 30))) in
    if is_current now claim epoch
    then record epoch {
      available_at = now + delay * second;
      lease_owner = none;
      lease_until = none;
    }
    else epoch

unfoldable pub defer_epoch : ℕ → Claim → ℕ → Epoch → Epoch
unfolding is_current
defer_epoch now claim delay_seconds epoch =
    let delay = max 1 (min delay_seconds 86400) in
    if is_current now claim epoch
    then record epoch {
      attempts = epoch.attempts - 1;
      available_at = now + delay * second;
      lease_owner = none;
      lease_until = none;
    }
    else epoch

unfoldable pub has_no_lease : Epoch → Bool
has_no_lease epoch = elim epoch.lease_owner [
  | some owner ↦ false
  | none ↦ elim epoch.lease_until [ some until ↦ false | none ↦ true ]
]

-- `prune_shared_head_epochs` on one row; whether a job names the head is read from their table
unfoldable pub prune_epoch : ℕ → Bool → Epoch → Option Epoch
unfolding has_no_lease
prune_epoch older_than referenced epoch =
    if ltb epoch.changed_at older_than
      && epoch.invalidated_generation == epoch.generation
      && has_no_lease epoch
      && not referenced
    then none
    else some epoch

-- `shared_head_generation_is_publishable`, for a job that names this head
unfoldable pub is_publishable : ℕ → Option Epoch → Bool
is_publishable bound none = bound == 0
is_publishable bound (some epoch) =
    epoch.generation == bound && epoch.invalidated_generation == bound

-- `shared_head_invalidation_is_pending`
unfoldable pub is_invalidation_pending : ℕ → Option Epoch → Bool
is_invalidation_pending generation none = false
is_invalidation_pending generation (some epoch) =
    epoch.generation == generation && ltb epoch.invalidated_generation generation
