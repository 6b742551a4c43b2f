-- ===== src/Budget/Headers.antt =====
-- `CoreQuota.from_headers` of api_budget.py: the quota that a response reports.
use extra_codeowners.Prelude.{
  ℕ, ◌+◌, ◌-◌, ◌*◌, ◌≤◌, ◌<◌, Bool, true, false, ◌&&◌, List, [], ◌∷◌, ◌≡◌, arith, ltb, leb, ◌==◌,
  nat_eq, list_eq, if◌then◌else◌, Option, none, some, Dict, lookup, all, length,
}
use extra_codeowners.Text.{Str, text}
use extra_codeowners.Budget.{CoreQuota, Row, second, admit_row, observe_row}
use extra_codeowners.Budget.Account.{IsValid, admit_row-IsValid, observe_row-IsValid}
use extra_codeowners.Budget.Window.{Event, request, response, apply, apply_all}

-- headers.get(name, "")
unfoldable pub header_or_empty : Option Str → Str
header_or_empty none = []
header_or_empty (some value) = value

-- [0-9]{1,12}
unfoldable pub is_count : Str → Bool
is_count value =
    leb 1 (length value) && leb (length value) 12 && all (λ c. leb 48 c && leb c 57) value

-- int(value) of a text of digits
unfoldable pub count_from : ℕ → Str → ℕ
count_from n [] = n
count_from n (c ∷ s) = count_from (n * 10 + (c - 48)) s

-- The two checks of the numbers; the clock reading is in microseconds, the deadline in seconds.
unfoldable pub checked_quota : ℕ → ℕ → ℕ → ℕ → Option CoreQuota
checked_quota now limit remaining reset =
    if leb remaining limit
      && leb limit 1000000000
      && ltb 0 limit
      && (ltb now (reset * second) && leb (reset * second) (now + 86400 * second))
    then some (record { limit = limit; remaining = remaining; reset_at = reset * second })
    else none

unfoldable pub quota_of : ℕ → Str → Str → Str → Option CoreQuota
unfolding is_count count_from checked_quota
quota_of now limit remaining reset =
    if is_count limit && is_count remaining && is_count reset
    then checked_quota now (count_from 0 limit) (count_from 0 remaining) (count_from 0 reset)
    else none

unfoldable pub from_headers : ℕ → Dict Str Str → Option CoreQuota
unfolding quota_of header_or_empty
from_headers now headers =
    if header_or_empty (lookup (text "x-ratelimit-resource") headers) == text "core"
    then quota_of now (header_or_empty (lookup (text "x-ratelimit-limit") headers))
        (header_or_empty (lookup (text "x-ratelimit-remaining") headers))
        (header_or_empty (lookup (text "x-ratelimit-reset") headers))
    else none

-- a quota that can be trusted at an instant
pub record IsPlausible (now : ℕ) (quota : CoreQuota) : Type 0 where
  pub within : quota.remaining ≤ quota.limit
  pub positive : 0 < quota.limit
  pub bounded : quota.limit ≤ 1000000000
  pub ahead : now < quota.reset_at
  pub near : quota.reset_at ≤ now + 86400 * second

checked_quota-IsPlausible :
    (now limit remaining reset : ℕ) {quota : CoreQuota}
    → checked_quota now limit remaining reset ≡ some quota
    → IsPlausible now quota
unfolding checked_quota
checked_quota-IsPlausible now limit remaining reset h = record {
  within = ground arith;
  positive = ground arith;
  bounded = ground arith;
  ahead = ground arith;
  near = ground arith;
}

-- A quota that `from_headers` returns, whatever the headers, has a positive limit of at most a
-- billion, a balance of at most the limit, and a deadline ahead by at most a day.
pub from_headers-IsPlausible :
    (now : ℕ) (headers : Dict Str Str) (quota : CoreQuota)
    → from_headers now headers ≡ some quota
    → IsPlausible now quota
unfolding from_headers quota_of
from_headers-IsPlausible now headers quota h =
    by_resource (header_or_empty (lookup (text "x-ratelimit-resource") headers) == text "core")
      (header_or_empty (lookup (text "x-ratelimit-limit") headers))
      (header_or_empty (lookup (text "x-ratelimit-remaining") headers))
      (header_or_empty (lookup (text "x-ratelimit-reset") headers)) h
  where
    by_counts :
        (counts : Bool) (limit remaining reset : ℕ)
        → (if counts then checked_quota now limit remaining reset else none) ≡ some quota
        → IsPlausible now quota
    by_counts true limit remaining reset e = checked_quota-IsPlausible now limit remaining reset e
    by_counts false limit remaining reset e = cc

    by_resource :
        (is_core : Bool) (limit remaining reset : Str)
        → (if is_core then quota_of now limit remaining reset else none) ≡ some quota
        → IsPlausible now quota
    by_resource true limit remaining reset e =
        by_counts (is_count limit && is_count remaining && is_count reset) (count_from 0 limit)
          (count_from 0 remaining) (count_from 0 reset) e
    by_resource false limit remaining reset e = cc

-- every response reports a quota that some headers gave, at some instant
unfoldable pub AllFromHeaders : List Event → Type 0
AllFromHeaders [] = Unit
AllFromHeaders (request now recovery ∷ events) = AllFromHeaders events
AllFromHeaders (response now now' quota receipt ∷ events) =
    ((read_at : ℕ) × (headers : Dict Str Str) × (from_headers read_at headers ≡ some quota))
    × AllFromHeaders events

-- Requests and responses, with quotas read from whatever headers, keep the balance of an account
-- within its limit.
pub apply_all-IsValid :
    (percent installation : ℕ) (row : Row) (events : List Event)
    → AllFromHeaders events
    → IsValid row
    → IsValid (apply_all percent installation row events)
unfolding apply_all apply AllFromHeaders
apply_all-IsValid percent installation row [] read valid = valid
apply_all-IsValid percent installation row (request now recovery ∷ events) read valid =
    apply_all-IsValid percent installation (admit_row percent installation now recovery row).0
      events read (admit_row-IsValid percent installation now recovery row valid)
apply_all-IsValid percent installation row (response now now' quota receipt ∷ events)
      ((t, hs, e), read) valid =
    let plausible = from_headers-IsPlausible t hs quota e in
    apply_all-IsValid percent installation (observe_row installation now now' quota receipt row)
      events read
      (observe_row-IsValid installation now now' quota receipt row plausible.within valid)
