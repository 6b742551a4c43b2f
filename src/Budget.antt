-- ===== src/Budget.antt =====
-- api_budget.py: the REST quota of an installation, shared by direct and recovery requests. One
-- row of the table `installation_api_budgets` for each installation; a transaction is a function of
-- the table and of the clock readings that it takes. Instants are microseconds.
pub mod Account
pub mod Bounds
pub mod Window
pub mod Headers
pub mod Decimal
pub mod Reported
use extra_codeowners.Prelude.{
  ℕ, suc, ◌+◌, ◌-◌, ◌*◌, ◌/◌, max, min, Bool, true, false, not, ◌&&◌, ◌||◌, List, [], ◌∷◌, ltb, leb,
  ◌==◌, nat_eq, list_eq, if◌then◌else◌, Option, none, some, Dict, lookup, assign, any,
}
use extra_codeowners.Text.{Str}

-- InstallationApiBudget
pub record Row : Type 0 where
  pub request_limit : ℕ
  pub remaining : ℕ
  pub reset_at : ℕ
  pub probe_after : ℕ
  pub repository_cursor : Str
  pub accounting_revision : ℕ
  pub pull_cursor_repository : Str
  pub pull_cursor_number : ℕ

pub record CoreQuota : Type 0 where
  pub limit : ℕ
  pub remaining : ℕ
  pub reset_at : ℕ

pub record BudgetReceipt : Type 0 where
  pub installation_id : ℕ
  pub reset_at : ℕ
  pub revision : ℕ

abbrev pub Table : Type 0
Table = Dict ℕ Row

abbrev pub second : ℕ
second = 1000000

-- math.ceil(a / b) for 0 < b, and math.ceil of a difference of instants in seconds
abbrev pub ceil_div : ℕ → ℕ → ℕ
ceil_div a b = (a + b - 1) / b

-- the row that `_locked_row` inserts
unfoldable pub new_row : ℕ → Row
new_row now = record {
  request_limit = 0;
  remaining = 0;
  reset_at = now;
  probe_after = now;
  repository_cursor = [];
  accounting_revision = 0;
  pull_cursor_repository = [];
  pull_cursor_number = 0;
}

unfoldable pub row_or_new : ℕ → Option Row → Row
unfolding new_row
row_or_new now none = new_row now
row_or_new now (some row) = row

-- `_locked_row`, for a positive installation: insert or do nothing, then read
unfoldable pub locked_row : ℕ → ℕ → Table → Row
unfolding row_or_new
locked_row now installation_id table = row_or_new now (lookup installation_id table)

-- What `admit` does: it returns a receipt or none, or raises.
pub data Admission : Type 0 where
  admitted : Option BudgetReceipt → Admission
  deferred exhausted : ℕ → Admission
  invalid : Admission

-- math.ceil(row.request_limit * self.reserve_percent / 100)
unfoldable pub reserve_of : ℕ → Row → ℕ
reserve_of reserve_percent row = ceil_div (row.request_limit * reserve_percent) 100

-- max(1, delay) of the exception
unfoldable pub refusal : Bool → ℕ → Admission
refusal is_exhausted delay =
    if is_exhausted then exhausted (max 1 delay) else deferred (max 1 delay)

-- row.remaining = max(0, row.remaining - 1); row.accounting_revision += 1
unfoldable pub debit : Row → Row
debit row = record row {
  remaining = row.remaining - 1;
  accounting_revision = row.accounting_revision + 1;
}

-- the branch for a window that is still open
unfoldable pub admit_open : ℕ → ℕ → ℕ → Bool → Row → Row × Admission
unfolding reserve_of refusal debit
admit_open reserve_percent installation_id now recovery row =
    if row.remaining == 0 || recovery && leb row.remaining (reserve_of reserve_percent row)
    then (row, refusal (row.remaining == 0) (ceil_div (row.reset_at - now) second + 1))
    else (
      debit row,
      admitted (
          some (record {
            installation_id = installation_id;
            reset_at = row.reset_at;
            revision = row.accounting_revision + 1;
          })),
    )

-- the branch for a recovery request outside a window: one probe a minute
unfoldable pub admit_probe : ℕ → Row → Row × Admission
unfolding refusal
admit_probe now row =
    if ltb now row.probe_after
    then (row, refusal false (ceil_div (row.probe_after - now) second))
    else (record row { probe_after = now + 60 * second }, admitted none)

-- the body of the transaction of `admit`
unfoldable pub admit_row : ℕ → ℕ → ℕ → Bool → Row → Row × Admission
unfolding admit_open admit_probe
admit_row reserve_percent installation_id now recovery row =
    if ltb now row.reset_at && ltb 0 row.request_limit
    then admit_open reserve_percent installation_id now recovery row
    else if recovery
    then admit_probe now row
    else (row, admitted none)

unfoldable pub admit : ℕ → ℕ → ℕ → ℕ → Bool → Table → Table × Admission
unfolding admit_row locked_row
admit reserve_percent inserted_at now installation_id recovery table =
    if installation_id == 0
    then (table, invalid)
    else (let (row, outcome) =
          admit_row reserve_percent installation_id now recovery
            (locked_row inserted_at installation_id table) in
        (assign installation_id row table, outcome))

-- the condition of the refund
unfoldable pub is_refundable : ℕ → ℕ → CoreQuota → Option BudgetReceipt → Row → Bool
is_refundable installation_id now quota none row = false
is_refundable installation_id now quota (some receipt) row =
    receipt.installation_id == installation_id
    && receipt.reset_at == row.reset_at
    && ltb now row.reset_at
    && receipt.revision == row.accounting_revision
    && leb (row.remaining + 1) quota.remaining
    && ltb row.remaining row.request_limit

unfoldable pub refund : Bool → Row → Row
refund refundable row = if refundable then record row { remaining = row.remaining + 1 } else row

-- the quota that was observed, into a closed window or an open one
unfoldable pub absorb : ℕ → CoreQuota → Row → Row
absorb now quota row =
    if row.request_limit == 0 || leb row.reset_at now
    then record row {
      request_limit = quota.limit;
      remaining = quota.remaining;
      reset_at = quota.reset_at;
    }
    else record row {
      remaining = min row.remaining quota.remaining;
      request_limit = max row.request_limit quota.limit;
      reset_at = if quota.remaining == 0 then quota.reset_at else row.reset_at;
    }

-- the body of the transaction of `observe`; it reads the clock twice
unfoldable pub observe_row : ℕ → ℕ → ℕ → CoreQuota → Option BudgetReceipt → Row → Row
unfolding is_refundable refund absorb
observe_row installation_id now now' quota receipt row =
    if ltb quota.reset_at row.reset_at
    then row
    else (let credited = refund (is_refundable installation_id now quota receipt row) row in
        let absorbed = absorb now' quota credited in
        record absorbed { accounting_revision = absorbed.accounting_revision + 1 })

-- `observe`; an installation that is not positive raises
unfoldable pub observe : ℕ → ℕ → ℕ → ℕ → CoreQuota → Option BudgetReceipt → Table → Option Table
unfolding observe_row locked_row
observe inserted_at now now' installation_id quota receipt table =
    if installation_id == 0
    then none
    else some (
        assign installation_id
          (observe_row installation_id now now' quota receipt
            (locked_row inserted_at installation_id table))
          table)
