-- ===== src/Budget/Reported.antt =====
-- Which headers `CoreQuota.from_headers` of api_budget.py accepts, and what it reads from them.
use extra_codeowners.Prelude.{
  ℕ, ◌*◌, ◌≤◌, true, ◌&&◌, [], ◌∷◌, leb, ◌==◌, nat_eq, list_eq, list_beq_iff, Dict, lookup, all,
  length, ◌≡◌, ◌↔◌, refl, sym, ap, ◌∙◌, subst, Memᴰ, Option, none, some, arith, inl, inr,
}
use mathlib.Core.List.Memᴰ
use extra_codeowners.Text.{Str, text}
use extra_codeowners.Budget.{CoreQuota, second}
use extra_codeowners.Budget.Headers.{
  header_or_empty, is_count, count_from, checked_quota, quota_of, from_headers, IsPlausible,
  from_headers-IsPlausible,
}
use extra_codeowners.Budget.Decimal.{place_value, count_from-place_value}

-- one to twelve digits that stand for a number
pub record IsNumeral (value : Str) (n : ℕ) : Type 0 where
  pub short : (1 ≤ length value) × (length value ≤ 12)
  pub digits : (c : ℕ) → Memᴰ c value → (48 ≤ c) × (c ≤ 57)
  pub spells : n ≡ place_value value

-- the header is there, and is a numeral
abbrev pub Gives : Dict Str Str → Str → ℕ → Type 0
Gives headers name n = (value : Str) × (lookup name headers ≡ some value) × IsNumeral value n

-- The headers are of the resource "core", and give the numbers of the quota, with its deadline in
-- seconds; and the quota can be trusted at the instant.
pub record Reports (now : ℕ) (headers : Dict Str Str) (quota : CoreQuota) : Type 0 where
  pub resource : lookup (text "x-ratelimit-resource") headers ≡ some (text "core")
  pub limit : Gives headers (text "x-ratelimit-limit") quota.limit
  pub remaining : Gives headers (text "x-ratelimit-remaining") quota.remaining
  pub reset :
      (seconds : ℕ) × Gives headers (text "x-ratelimit-reset") seconds
      × (quota.reset_at ≡ seconds * second)
  pub plausible : IsPlausible now quota

all_digits :
    (value : Str)
    → (all (λ c. leb 48 c && leb c 57) value ≡ true)
      ↔ ((c : ℕ) → Memᴰ c value → (48 ≤ c) × (c ≤ 57))
unfolding all
all_digits [] = (λ h c m. absurd (Memᴰ.not-nil m), λ h. refl)
all_digits (x ∷ s) =
    let (to, from) = all_digits s in
    (
      λ h c m. elim (Memᴰ.cases_cons m) [
        | inl here ↦ (ground (arith, here), ground (arith, here))
        | inr there ↦ to (ground arith) c there
      ],
      λ h.
          let (low, high) = h x (Memᴰ.head refl) in
          let rest = from (λ c m. h c (Memᴰ.tail m)) in ground (arith, low, high, rest),
    )

is_count-IsNumeral : (value : Str) → is_count value ≡ true → IsNumeral value (count_from 0 value)
unfolding is_count
is_count-IsNumeral value h = record {
  short = (ground arith, ground arith);
  digits = (all_digits value).0 (ground arith);
  spells = omega (arith, count_from-place_value 0 value);
}

IsNumeral-is_count :
    (value : Str) (n : ℕ) → IsNumeral value n → (is_count value ≡ true) × (count_from 0 value ≡ n)
unfolding is_count
IsNumeral-is_count value n numeral =
    let digits = (all_digits value).1 numeral.digits in
    let (low, high) = numeral.short in
    (
      ground (arith, digits, low, high),
      omega (arith, numeral.spells, count_from-place_value 0 value),
    )

-- a header that is a count is there
given :
    (headers : Dict Str Str) (name : Str)
    → is_count (header_or_empty (lookup name headers)) ≡ true
    → Gives headers name (count_from 0 (header_or_empty (lookup name headers)))
given headers name h = of_header (lookup name headers) refl h
  where
    of_header :
        (o : Option Str)
        → lookup name headers ≡ o
        → is_count (header_or_empty o) ≡ true
        → (value : Str) × (lookup name headers ≡ some value)
          × IsNumeral value (count_from 0 (header_or_empty o))
    of_header none e h = absurd (unfold header_or_empty is_count in cc)
    of_header (some value) e h = (
      value,
      e,
      (unfold header_or_empty in is_count-IsNumeral value (unfold header_or_empty in h)),
    )

is_core : (o : Option Str) → (header_or_empty o == text "core") ≡ true → o ≡ some (text "core")
unfolding header_or_empty
is_core none h = absurd (unfold text in cc ((list_beq_iff [] (text "core")).0 h))
is_core (some value) h = ap some ((list_beq_iff value (text "core")).0 h)

checked_quota-some :
    (now limit remaining reset : ℕ) (quota : CoreQuota)
    → checked_quota now limit remaining reset ≡ some quota
    → (quota.limit ≡ limit) × (quota.remaining ≡ remaining) × (quota.reset_at ≡ reset * second)
unfolding checked_quota
checked_quota-some now limit remaining reset quota h = (ground arith, ground arith, ground arith)

checked_quota-accepts :
    (now reset : ℕ) (quota : CoreQuota)
    → quota.reset_at ≡ reset * second
    → IsPlausible now quota
    → checked_quota now quota.limit quota.remaining reset ≡ some quota
unfolding checked_quota
checked_quota-accepts now reset quota e p =
    let within = p.within in
    let positive = p.positive in
    let bounded = p.bounded in let ahead = p.ahead in let near = p.near in ground arith

quota_of-some :
    (now : ℕ) (limit remaining reset : Str) (quota : CoreQuota)
    → quota_of now limit remaining reset ≡ some quota
    → (is_count limit ≡ true)
      × (is_count remaining ≡ true)
      × (is_count reset ≡ true)
      × (checked_quota now (count_from 0 limit) (count_from 0 remaining) (count_from 0 reset)
          ≡ some quota)
unfolding quota_of
quota_of-some now limit remaining reset quota h =
    (ground arith, ground arith, ground arith, ground arith)

-- `from_headers` returns a quota exactly when the headers are of the resource "core" and give it:
-- its limit, its balance and its deadline, in seconds, each as one to twelve decimal digits; and when
-- the balance is at most the limit, the limit is positive and at most a billion, and the deadline is
-- ahead by at most a day.
pub from_headers_iff :
    (now : ℕ) (headers : Dict Str Str) (quota : CoreQuota)
    → (from_headers now headers ≡ some quota) ↔ Reports now headers quota
unfolding from_headers
from_headers_iff now headers quota = (reads, accepts)
  where
    header : Str → Str
    header name = header_or_empty (lookup name headers)

    as_given :
        (name : Str) (n : ℕ)
        → is_count (header name) ≡ true
        → n ≡ count_from 0 (header name)
        → Gives headers name n
    as_given name n counts e = subst (Gives headers name) (sym e) (given headers name counts)

    reads : from_headers now headers ≡ some quota → Reports now headers quota
    reads h =
        let core : (header (text "x-ratelimit-resource") == text "core") ≡ true = ground arith in
        let of_core : quota_of now (header (text "x-ratelimit-limit"))
              (header (text "x-ratelimit-remaining")) (header (text "x-ratelimit-reset"))
            ≡ some quota =
          ground arith in
        let (l, r, t, checked) =
          quota_of-some now (header (text "x-ratelimit-limit"))
            (header (text "x-ratelimit-remaining")) (header (text "x-ratelimit-reset")) quota
            of_core in
        let (limit, remaining, reset) =
          checked_quota-some now (count_from 0 (header (text "x-ratelimit-limit")))
            (count_from 0 (header (text "x-ratelimit-remaining")))
            (count_from 0 (header (text "x-ratelimit-reset"))) quota checked in
        record {
          resource = is_core (lookup (text "x-ratelimit-resource") headers) core;
          limit = as_given (text "x-ratelimit-limit") quota.limit l limit;
          remaining = as_given (text "x-ratelimit-remaining") quota.remaining r remaining;
          reset = (
            count_from 0 (header (text "x-ratelimit-reset")),
            given headers (text "x-ratelimit-reset") t,
            reset,
          );
          plausible = from_headers-IsPlausible now headers quota h;
        }

    counted :
        (name : Str) (n : ℕ)
        → Gives headers name n
        → (is_count (header name) ≡ true) × (count_from 0 (header name) ≡ n)
    counted name n (value, there, numeral) =
        subst (λ o. (is_count (header_or_empty o) ≡ true) × (count_from 0 (header_or_empty o) ≡ n))
          (sym there) (unfold header_or_empty in IsNumeral-is_count value n numeral)

    accepts : Reports now headers quota → from_headers now headers ≡ some quota
    accepts p =
        let core : header (text "x-ratelimit-resource") ≡ text "core" =
          ap header_or_empty p.resource ∙ (unfold header_or_empty in refl) in
        let same = (list_beq_iff (header (text "x-ratelimit-resource")) (text "core")).1 core in
        let (l, limit) = counted (text "x-ratelimit-limit") quota.limit p.limit in
        let (r, remaining) = counted (text "x-ratelimit-remaining") quota.remaining p.remaining in
        let (seconds, gives, at) = p.reset in
        let (t, reset) = counted (text "x-ratelimit-reset") seconds gives in
        rw same (
          unfold quota_of in
          rw l (
            rw r (
              rw t (
                rw limit (
                  rw remaining
                    (rw reset (checked_quota-accepts now seconds quota at p.plausible)))))))
