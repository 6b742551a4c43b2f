-- ===== src/Budget/Decimal.antt =====
-- The number that a text of digits stands for.
use extra_codeowners.Prelude.{ℕ, ◌+◌, ◌-◌, ◌*◌, [], ◌∷◌, ◌≡◌, arith}
use extra_codeowners.Text.{Str}
use extra_codeowners.Budget.Headers.{count_from}

-- 10 ** n
unfoldable pub weight : Str → ℕ
weight [] = 1
weight (c ∷ s) = 10 * weight s

-- the sum of the digits, each times the power of ten of its place
unfoldable pub place_value : Str → ℕ
unfolding weight
place_value [] = 0
place_value (c ∷ s) = (c - 48) * weight s + place_value s

pub count_from-place_value : (n : ℕ) (s : Str) → count_from n s ≡ n * weight s + place_value s
unfolding count_from place_value weight
count_from-place_value n [] = omega arith
count_from-place_value n (c ∷ s) = grind (arith, count_from-place_value (n * 10 + (c - 48)) s)
