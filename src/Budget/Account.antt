-- ===== src/Budget/Account.antt =====
-- What one transaction does to the account of an installation.
use extra_codeowners.Prelude.{ℕ, ◌≤◌, Bool, arith, nat_eq, Option, none, some}
use extra_codeowners.Budget.{Row, CoreQuota, BudgetReceipt, admit_row, observe_row}

-- the balance never passes the limit
pub record IsValid (row : Row) : Type 0 where
  pub within : row.remaining ≤ row.request_limit

-- A request keeps the balance within the limit.
pub admit_row-IsValid :
    (percent installation now : ℕ) (recovery : Bool) (row : Row)
    → IsValid row
    → IsValid (admit_row percent installation now recovery row).0
unfolding admit_row
admit_row-IsValid percent installation now recovery row v = ground arith

-- A response whose own balance is within its limit keeps the balance within the limit.
pub observe_row-IsValid :
    (installation now now' : ℕ) (quota : CoreQuota) (receipt : Option BudgetReceipt) (row : Row)
    → quota.remaining ≤ quota.limit
    → IsValid row
    → IsValid (observe_row installation now now' quota receipt row)
unfolding observe_row
observe_row-IsValid installation now now' quota none row q v = ground arith
observe_row-IsValid installation now now' quota (some receipt) row q v = ground arith
