-- ===== src/Leases.antt =====
-- The named leases of database.py, and the provider's rate-limit circuit: rows that replicas share.
-- A transaction is a function of the table. Instants are microseconds.
pub mod Exclusion
use extra_codeowners.Prelude.{
  ℕ, zero, suc, ◌+◌, ◌*◌, max, min, Bool, true, false, not, ◌&&◌, ◌||◌, List, [], ◌∷◌, ltb, leb,
  ◌==◌, nat_eq, list_eq, if◌then◌else◌, Option, none, some, Dict, lookup, assign, any,
}
use extra_codeowners.Text.{Str, text, Unicode}
use extra_codeowners.Budget.{Row, Table, locked_row, second}

pub record ServiceLease : Type 0 where
  pub owner : Str
  pub lease_until : ℕ

abbrev pub Leases : Type 0
Leases = Dict Str ServiceLease

-- WHERE owner = ... OR lease_until <= now
unfoldable pub is_free : ℕ → Str → ServiceLease → Bool
is_free now owner lease = lease.owner == owner || leb lease.lease_until now

-- One attempt: the time, and the lease that a first-time contender commits between the attempt's
-- reads and its insert, if there is one.
pub record Attempt : Type 0 where
  pub now : ℕ
  pub rival : Option ServiceLease

-- the insert, which the primary key refuses when a rival came first
unfoldable pub insert_lease :
    Str → ServiceLease → Option ServiceLease → Leases → Leases × Option Bool
insert_lease name mine none leases = (assign name mine leases, some true)
insert_lease name mine (some theirs) leases = (assign name theirs leases, none)

-- One transaction: UPDATE, SELECT, INSERT; `none` is the IntegrityError. A rival that inserts its row
-- between the UPDATE and the SELECT, which would make the answer no, is left out.
unfoldable pub attempt_lease :
    Str → Str → ℕ → Attempt → Option ServiceLease → Leases → Leases × Option Bool
unfolding is_free insert_lease
attempt_lease name owner lease_seconds attempt (some lease) leases =
    if is_free attempt.now owner lease
    then (
      assign name (record { owner = owner; lease_until = attempt.now + lease_seconds * second })
          leases,
      some true,
    )
    else (leases, some false)
attempt_lease name owner lease_seconds attempt none leases =
    insert_lease name (record { owner = owner; lease_until = attempt.now + lease_seconds * second })
      attempt.rival leases

-- an answer ends the loop, and an IntegrityError goes on
unfoldable pub or_again : Leases → Option Bool → Leases × Bool → Leases × Bool
or_again leases (some answer) again = (leases, answer)
or_again leases none again = again

-- the loop over the attempts, three in the source
unfoldable pub acquire_from : Str → Str → ℕ → List Attempt → Leases → Leases × Bool
unfolding attempt_lease or_again
acquire_from name owner lease_seconds [] leases = (leases, false)
acquire_from name owner lease_seconds (attempt ∷ attempts) leases =
    let (leases', outcome) =
      attempt_lease name owner lease_seconds attempt (lookup name leases) leases in
    let again = acquire_from name owner lease_seconds attempts leases' in
    or_again leases' outcome again

unfoldable pub acquire_service_lease :
    Str → Str → ℕ → Attempt → Attempt → Attempt → Leases → Leases × Bool
unfolding acquire_from
acquire_service_lease name owner lease_seconds first second' third leases =
    acquire_from name owner lease_seconds (first ∷ second' ∷ third ∷ []) leases

unfoldable pub remove_lease : Str → Leases → Leases
remove_lease name [] = []
remove_lease name ((k, lease) ∷ leases) =
    let rest = remove_lease name leases in if k == name then rest else (k, lease) ∷ rest

unfoldable pub release_found : Str → Str → Option ServiceLease → Leases → Leases × Bool
unfolding remove_lease
release_found name owner none leases = (leases, false)
release_found name owner (some lease) leases =
    if lease.owner == owner then (remove_lease name leases, true) else (leases, false)

unfoldable pub release_service_lease : Str → Str → Leases → Leases × Bool
unfolding release_found
release_service_lease name owner leases = release_found name owner (lookup name leases) leases

-- ServiceLease.owner == owner and ServiceLease.lease_until > now
unfoldable pub holds : ℕ → Str → Option ServiceLease → Bool
holds now owner none = false
holds now owner (some lease) = lease.owner == owner && ltb now lease.lease_until

-- the lease of the worker that discovers open pull requests
unfoldable pub reconciler_lease : Str
reconciler_lease = text "open-pr-reconciler"

abbrev pub Advance : Type 0
Advance = Row → Row

-- `advance_pull`, `advance_repository`: the row changes only for the holder of the lease
unfoldable pub advance : ℕ → ℕ → ℕ → Str → Advance → Leases → Table → Option Table
unfolding holds locked_row
advance inserted_at now installation_id owner change leases table =
    if installation_id == 0
    then none
    else (let row = locked_row inserted_at installation_id table in
        some (
          assign installation_id
            (if holds now owner (lookup reconciler_lease leases) then change row else row) table))

unfoldable pub advance_pull : Unicode → ℕ → ℕ → ℕ → Str → ℕ → Str → Leases → Table → Option Table
unfolding advance
advance_pull u inserted_at now installation_id full_name number owner =
    advance inserted_at now installation_id owner (λ row. record row {
      pull_cursor_repository = u.lower full_name;
      pull_cursor_number = number;
    })

unfoldable pub advance_repository : Unicode → ℕ → ℕ → ℕ → Str → Str → Leases → Table → Option Table
unfolding advance
advance_repository u inserted_at now installation_id full_name owner =
    advance inserted_at now installation_id owner (λ row. record row {
      repository_cursor = u.lower full_name;
      pull_cursor_repository = [];
      pull_cursor_number = 0;
    })

-- ProviderBackpressure; the text of the reason is left out
pub record Circuit : Type 0 where
  pub blocked_until : ℕ
  pub updated_at : ℕ

abbrev pub Circuits : Type 0
Circuits = Dict ℕ Circuit

unfoldable pub extend : ℕ → ℕ → Option Circuit → Circuit
extend now blocked_until none = record { blocked_until = blocked_until; updated_at = now }
extend now blocked_until (some row) = record {
  blocked_until = max row.blocked_until blocked_until;
  updated_at = now;
}

abbrev pub scope_of : Option ℕ → ℕ
scope_of none = 0
scope_of (some installation_id) = installation_id

-- `record_provider_backpressure`, for a positive installation or the whole App, where no other
-- replica inserts the same row at the same time
unfoldable pub record_provider_backpressure : ℕ → Option ℕ → ℕ → Circuits → Circuits
unfolding extend
record_provider_backpressure now installation_id delay_seconds circuits =
    let key = scope_of installation_id in
    let delay = max 1 (min delay_seconds 86400) in
    assign key (extend now (now + delay * second) (lookup key circuits)) circuits

unfoldable pub is_blocked : ℕ → Option Circuit → Bool
is_blocked now none = false
is_blocked now (some row) = ltb now row.blocked_until

-- `provider_is_backpressured`
unfoldable pub provider_is_backpressured : ℕ → Option ℕ → Circuits → Bool
unfolding is_blocked
provider_is_backpressured now none circuits = is_blocked now (lookup 0 circuits)
provider_is_backpressured now (some installation_id) circuits =
    is_blocked now (lookup 0 circuits) || is_blocked now (lookup installation_id circuits)

-- `clear_pull_cursor`
unfoldable pub clear_pull_cursor : Unicode → ℕ → ℕ → ℕ → Str → Leases → Table → Option Table
unfolding advance_pull
clear_pull_cursor u inserted_at now installation_id owner =
    advance_pull u inserted_at now installation_id [] 0 owner
