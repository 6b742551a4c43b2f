-- ===== src/Prelude/Sort.antt =====
-- sorted(): the stable sort of a list by a Boolean order, and the order of texts.
use Prim.Native.Nat.{ℕ}
use mathlib.Core.Path.{◌≡◌, refl, ap, ◌∙◌}
use mathlib.Core.Bool.{Bool, true, false, ◌&&◌, ◌||◌}
use mathlib.Core.List.{List, [], ◌∷◌}
use native.Mathlib.Omega.{arith}
use extra_codeowners.Prelude.Tests.{if◌then◌else◌, ltb, nat_beq}
use extra_codeowners.Prelude.Lists.{any, all, keep, length}

module _ {ℓ} {A : Type ℓ} (le : A → A → Bool) where
  unfoldable pub insert : A → List A → List A
  insert x [] = x ∷ []
  insert x (y ∷ ys) = if le x y then x ∷ y ∷ ys else y ∷ insert x ys

  unfoldable pub sort : List A → List A
  unfolding insert
  sort [] = []
  sort (x ∷ xs) = insert x (sort xs)

  pub any-insert : (p : A → Bool) (x : A) (xs : List A) → any p (insert x xs) ≡ (p x || any p xs)
  unfolding any insert
  any-insert p x [] = refl
  any-insert p x (y ∷ ys) = ground (arith, any-insert p x ys)

  -- A test of the whole list does not see the order.
  pub any-sort : (p : A → Bool) (xs : List A) → any p (sort xs) ≡ any p xs
  unfolding any sort
  any-sort p [] = refl
  any-sort p (x ∷ xs) = any-insert p x (sort xs) ∙ ap (λ b. p x || b) (any-sort p xs)

  all-insert : (p : A → Bool) (x : A) (xs : List A) → all p (insert x xs) ≡ (p x && all p xs)
  unfolding all insert
  all-insert p x [] = refl
  all-insert p x (y ∷ ys) = ground (arith, all-insert p x ys)

  pub all-sort : (p : A → Bool) (xs : List A) → all p (sort xs) ≡ all p xs
  unfolding all sort
  all-sort p [] = refl
  all-sort p (x ∷ xs) = all-insert p x (sort xs) ∙ ap (λ b. p x && b) (all-sort p xs)

  length-keep-insert :
      (p : A → Bool) (x : A) (xs : List A)
      → length (keep p (insert x xs)) ≡ length (keep p (x ∷ xs))
  unfolding keep insert
  length-keep-insert p x [] = refl
  length-keep-insert p x (y ∷ ys) = ground (arith, length-keep-insert p x ys)

  pub length-keep-sort :
      (p : A → Bool) (xs : List A) → length (keep p (sort xs)) ≡ length (keep p xs)
  unfolding keep sort
  length-keep-sort p [] = refl
  length-keep-sort p (x ∷ xs) =
      length-keep-insert p x (sort xs) ∙ ground (arith, length-keep-sort p xs)

-- The order of Python's texts: by code points.
unfoldable pub text_le : List ℕ → List ℕ → Bool
text_le [] ys = true
text_le (x ∷ xs) [] = false
text_le (x ∷ xs) (y ∷ ys) = ltb x y || nat_beq x y && text_le xs ys
