-- ===== src/Examples/Accounts.antt =====
-- The accounts of api_budget.py at concrete balances.
use extra_codeowners.Prelude.{
  ℕ, ◌+◌, ◌≤◌, Bool, true, false, List, [], ◌∷◌, ◌≡◌, ◌↔◌, ◌⊎◌, refl, arith, some,
}
use extra_codeowners.Budget.{Row, CoreQuota, BudgetReceipt, reserve_of, is_refundable, observe_row}
use extra_codeowners.Budget.Bounds.{
  Request, spend, AllBefore, AllRecovery, spend_conserves, spend_keeps_reserve,
}
use extra_codeowners.Prelude
use extra_codeowners.Prelude.{Dict, list_eq, nat_eq, none}
use extra_codeowners.Text.{Str, text}
use extra_codeowners.Budget.Account.{IsValid}
use extra_codeowners.Budget.Reported.{Reports, from_headers_iff}
use extra_codeowners.Budget.Headers.{from_headers, AllFromHeaders, apply_all-IsValid}
use extra_codeowners.Budget.Window.{Event, response, request, apply_all, refund_at_most_once}

-- sixty requests left of a hundred
abbrev row : Row
row = record {
  request_limit = 100;
  remaining = 60;
  reset_at = 1000;
  probe_after = 0;
  repository_cursor = [];
  accounting_revision = 4;
  pull_cursor_repository = [];
  pull_cursor_number = 0;
}

abbrev request_at : ℕ → Bool → Request
request_at now recovery = record { now = now; recovery = recovery }

abbrev mixed : List Request
mixed = request_at 10 false ∷ request_at 20 true ∷ []

abbrev recoveries : List Request
recoveries = request_at 10 true ∷ request_at 20 true ∷ []

spend_conserves_example :
    (spend 20 7 row mixed).granted + (spend 20 7 row mixed).row.remaining ≡ row.remaining
spend_conserves_example =
    spend_conserves 20 7 row mixed (omega arith)
      (unfold AllBefore in (omega arith, (omega arith, tt)))

spend_keeps_reserve_example : reserve_of 20 row ≤ (spend 20 7 row recoveries).row.remaining
spend_keeps_reserve_example =
    spend_keeps_reserve 20 7 row recoveries (omega arith)
      (unfold AllBefore in (omega arith, (omega arith, tt)))
      (unfold AllRecovery in (refl, (refl, tt))) (unfold reserve_of in omega arith)

-- a response that was served from a cache reports the balance of before
abbrev quota : CoreQuota
quota = record { limit = 100; remaining = 61; reset_at = 1000 }

abbrev receipt : BudgetReceipt
receipt = record { installation_id = 7; reset_at = 1000; revision = 4 }

refund_at_most_once_example :
    is_refundable 7 40 quota
      (some receipt)
      (apply_all 20 7 (observe_row 7 30 31 quota (some receipt) row) (request 35 false ∷ []))
    ≡ false
refund_at_most_once_example =
    refund_at_most_once 20 7 30 31 quota (some receipt) row (request 35 false ∷ []) 40 quota receipt
      (omega arith) (omega arith)

refund_of_one : (observe_row 7 30 31 quota (some receipt) row).remaining ≡ 61
unfolding observe_row
refund_of_one = refl

-- what a response of the API says at 0
abbrev headers : Dict Str Str
headers =
    (text "x-ratelimit-resource", text "core")
    ∷ (text "x-ratelimit-limit", text "100")
    ∷ (text "x-ratelimit-remaining", text "59")
    ∷ (text "x-ratelimit-reset", text "60")
    ∷ []

abbrev reported : CoreQuota
reported = record { limit = 100; remaining = 59; reset_at = 60000000 }

headers-reported : from_headers 0 headers ≡ some reported
unfolding text from_headers Prelude.list_beq Prelude.lookup Prelude.all
headers-reported = refl

from_headers_iff_example : (from_headers 0 headers ≡ some reported) ↔ Reports 0 headers reported
from_headers_iff_example = from_headers_iff 0 headers reported

abbrev traffic : List Event
traffic = request 30 false ∷ response 40 41 reported none ∷ request 50 true ∷ []

traffic-AllFromHeaders : AllFromHeaders traffic
unfolding AllFromHeaders
traffic-AllFromHeaders = ((0, headers, headers-reported), tt)

apply_all-IsValid_example : IsValid (apply_all 20 7 row traffic)
apply_all-IsValid_example =
    apply_all-IsValid 20 7 row traffic traffic-AllFromHeaders (record { within = omega arith })
