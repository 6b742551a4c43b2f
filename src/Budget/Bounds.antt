-- ===== src/Budget/Bounds.antt =====
-- Requests of one open window: none is granted past the balance, and recovery keeps the reserve.
use extra_codeowners.Prelude.{
  ℕ, ◌+◌, ◌*◌, ◌≤◌, ◌<◌, Bool, true, false, List, [], ◌∷◌, ◌≡◌, sym, ap, subst, arith, nat_eq,
  if◌then◌else◌, some,
}
use extra_codeowners.Budget.{Row, ceil_div, Admission, admitted, reserve_of, admit_row}

-- one request: when it is made, and whether it is recovery
pub record Request : Type 0 where
  pub now : ℕ
  pub recovery : Bool

-- the request was granted a receipt
unfoldable pub is_granted : Admission → Bool
is_granted (admitted (some receipt)) = true
is_granted _ = false

pub record Spent : Type 0 where
  pub row : Row
  pub granted : ℕ

-- the requests one after the other, and how many were granted
unfoldable pub spend : ℕ → ℕ → Row → List Request → Spent
unfolding is_granted
spend percent installation row [] = record { row = row; granted = 0 }
spend percent installation row (r ∷ requests) =
    let (row', outcome) = admit_row percent installation r.now r.recovery row in
    let rest = spend percent installation row' requests in
    record rest { granted = (if is_granted outcome then 1 else 0) + rest.granted }

-- every request is made before the window ends
unfoldable pub AllBefore : ℕ → List Request → Type 0
AllBefore deadline [] = Unit
AllBefore deadline (r ∷ requests) = (r.now < deadline) × AllBefore deadline requests

-- what one request in an open window does
admit_row-spends :
    (percent installation now : ℕ) (recovery : Bool) (row : Row)
    → now < row.reset_at
    → 0 < row.request_limit
    → let (row', outcome) = admit_row percent installation now recovery row in
      (((if is_granted outcome then 1 else 0) + row'.remaining ≡ row.remaining)
        × (row'.reset_at ≡ row.reset_at)
        × (row'.request_limit ≡ row.request_limit))
unfolding admit_row is_granted
admit_row-spends percent installation now recovery row open' limited = ground arith

-- In an open window, whatever direct and recovery requests are made: those granted and the balance
-- that is left add up to the balance before, so no more are granted than it held.
pub spend_conserves :
    (percent installation : ℕ) (row : Row) (requests : List Request)
    → 0 < row.request_limit
    → AllBefore row.reset_at requests
    → (spend percent installation row requests).granted
        + (spend percent installation row requests).row.remaining
      ≡ row.remaining
unfolding spend AllBefore
spend_conserves percent installation row [] limited before = omega arith
spend_conserves percent installation row (r ∷ requests) limited (first, before) =
    let (spent, deadline, limit) =
      admit_row-spends percent installation r.now r.recovery row first limited in
    let row' = (admit_row percent installation r.now r.recovery row).0 in
    let ih =
      spend_conserves percent installation row' requests (omega (arith, limit))
        (subst (λ d. AllBefore d requests) (sym deadline) before) in
    omega (arith, ih, spent)

-- every request is recovery
unfoldable pub AllRecovery : List Request → Type 0
AllRecovery [] = Unit
AllRecovery (r ∷ requests) = (r.recovery ≡ true) × AllRecovery requests

-- the reserve is that of the limit, which a request leaves alone
reserve_of-eq :
    (percent : ℕ) (row row' : Row)
    → row'.request_limit ≡ row.request_limit
    → reserve_of percent row' ≡ reserve_of percent row
unfolding reserve_of
reserve_of-eq percent row row' same = ap (λ n. ceil_div (n * percent) 100) same

admit_row-reserve :
    (percent installation now : ℕ) (row : Row)
    → now < row.reset_at
    → 0 < row.request_limit
    → reserve_of percent row ≤ row.remaining
    → reserve_of percent row ≤ (admit_row percent installation now true row).0.remaining
unfolding admit_row
admit_row-reserve percent installation now row open' limited kept = ground arith

-- Recovery requests in an open window never take the balance below the reserve.
pub spend_keeps_reserve :
    (percent installation : ℕ) (row : Row) (requests : List Request)
    → 0 < row.request_limit
    → AllBefore row.reset_at requests
    → AllRecovery requests
    → reserve_of percent row ≤ row.remaining
    → reserve_of percent row ≤ (spend percent installation row requests).row.remaining
unfolding spend AllBefore AllRecovery
spend_keeps_reserve percent installation row [] limited before lanes kept = kept
spend_keeps_reserve percent installation row (r ∷ requests) limited (first, before) (lane, lanes)
      kept =
    let (spent, deadline, limit) =
      admit_row-spends percent installation r.now r.recovery row first limited in
    let row' = (admit_row percent installation r.now r.recovery row).0 in
    let same : reserve_of percent row' ≡ reserve_of percent row =
      reserve_of-eq percent row row' limit in
    let kept' : reserve_of percent row ≤ row'.remaining =
      subst (λ b. reserve_of percent row ≤ (admit_row percent installation r.now b row).0.remaining)
        (sym lane) (admit_row-reserve percent installation r.now row first limited kept) in
    let ih =
      spend_keeps_reserve percent installation row' requests (omega (arith, limit))
        (subst (λ d. AllBefore d requests) (sym deadline) before) lanes
        (omega (arith, same, kept')) in
    omega (arith, ih, same)
