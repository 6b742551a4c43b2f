-- ===== src/Budget/Window.antt =====
-- Refunds and late responses: a receipt is good once, and only for the latest debit.
use extra_codeowners.Prelude.{
  ℕ, ◌+◌, ◌≤◌, ◌<◌, Bool, false, List, [], ◌∷◌, ◌≡◌, ◌⊎◌, arith, nat_eq, Option, none, some,
}
use extra_codeowners.Budget.{Row, CoreQuota, BudgetReceipt, admit_row, observe_row, is_refundable}

-- a transaction on the account of one installation
pub data Event : Type 0 where
  request : ℕ → Bool → Event
  response : ℕ → ℕ → CoreQuota → Option BudgetReceipt → Event

unfoldable pub apply : ℕ → ℕ → Row → Event → Row
apply percent installation row (request now recovery) =
    (admit_row percent installation now recovery row).0
apply percent installation row (response now now' quota receipt) =
    observe_row installation now now' quota receipt row

unfoldable pub apply_all : ℕ → ℕ → Row → List Event → Row
unfolding apply
apply_all percent installation row [] = row
apply_all percent installation row (e ∷ events) =
    apply_all percent installation (apply percent installation row e) events

revision-apply :
    (percent installation : ℕ) (row : Row) (e : Event)
    → row.accounting_revision ≤ (apply percent installation row e).accounting_revision
unfolding apply admit_row observe_row
revision-apply percent installation row (request now recovery) = ground arith
revision-apply percent installation row (response now now' quota none) = ground arith
revision-apply percent installation row (response now now' quota (some receipt)) = ground arith

revision-apply_all :
    (percent installation : ℕ) (row : Row) (events : List Event)
    → row.accounting_revision ≤ (apply_all percent installation row events).accounting_revision
unfolding apply_all
revision-apply_all percent installation row [] = omega arith
revision-apply_all percent installation row (e ∷ events) = omega (
  arith,
  revision-apply percent installation row e,
  revision-apply_all percent installation (apply percent installation row e) events,
)

-- a receipt of an older revision refunds nothing
old_receipt :
    (installation now : ℕ) (quota : CoreQuota) (receipt : BudgetReceipt) (row : Row)
    → receipt.revision < row.accounting_revision
    → is_refundable installation now quota (some receipt) row ≡ false
unfolding is_refundable
old_receipt installation now quota receipt row older = ground arith

observe_row-revision :
    (installation now now' : ℕ) (quota : CoreQuota) (receipt : Option BudgetReceipt) (row : Row)
    → row.reset_at ≤ quota.reset_at
    → (observe_row installation now now' quota receipt row).accounting_revision
      ≡ row.accounting_revision + 1
unfolding observe_row
observe_row-revision installation now now' quota none row current = ground arith
observe_row-revision installation now now' quota (some receipt) row current = ground arith

-- After a response that is not older than the window, with or without a receipt, and after any
-- further transactions, no receipt for the revision before it is refunded: a receipt is good once,
-- and for the latest debit.
pub refund_at_most_once :
    (percent installation now now' : ℕ) (quota : CoreQuota) (used : Option BudgetReceipt)
    (row : Row) (events : List Event) (later : ℕ) (quota' : CoreQuota) (receipt : BudgetReceipt)
    → row.reset_at ≤ quota.reset_at
    → receipt.revision ≤ row.accounting_revision
    → is_refundable installation later quota'
        (some receipt)
        (apply_all percent installation (observe_row installation now now' quota used row) events)
      ≡ false
refund_at_most_once percent installation now now' quota used row events later quota' receipt current
      issued =
    old_receipt installation later quota' receipt
      (apply_all percent installation (observe_row installation now now' quota used row) events)
      (omega (
        arith,
        observe_row-revision installation now now' quota used row current,
        revision-apply_all percent installation (observe_row installation now now' quota used row)
            events,
      ))

-- In a window that is open at both readings of the clock, a response never raises the balance by
-- more than the one request that it refunds, never above what the response reports, and not at all
-- without a refundable receipt; and the deadline moves only when the response reports zero.
observe_row-open :
    (installation now now' : ℕ) (quota : CoreQuota) (receipt : Option BudgetReceipt) (row : Row)
    → 0 < row.request_limit
    → now < row.reset_at
    → now' < row.reset_at
    → row.reset_at ≤ quota.reset_at
    → let row' = observe_row installation now now' quota receipt row in
      (row'.remaining ≤ row.remaining + 1)
      × (row'.remaining ≤ quota.remaining)
      × (is_refundable installation now quota receipt row ≡ false → row'.remaining ≤ row.remaining)
      × ((row'.reset_at ≡ row.reset_at) ⊎ (quota.remaining ≡ 0))
unfolding observe_row
observe_row-open installation now now' quota none row limited open' open'' current = ground arith
observe_row-open installation now now' quota (some receipt) row limited open' open'' current =
    (ground arith, ground arith, ground arith, ground arith)
