-- ===== src/Prelude/Lists.antt =====
-- Lists that stand for Python's tuples, lists and sets, and their tests.
use Prim.Native.Nat.{ℕ, suc}
use mathlib.Core.Path.{◌≡◌, refl, ap, ◌∙◌}
use mathlib.Core.Bool.{Bool, true, false, ◌&&◌, ◌||◌}
use mathlib.Core.List.{List, [], ◌∷◌, ◌++◌, map, Memᴰ}
use mathlib.Core.List.Memᴰ
use mathlib.Core.Logic.{◌↔◌, inl, inr}
use native.Mathlib.Omega.{arith}
use extra_codeowners.Prelude.Tests.{Equality, ◌==◌, if◌then◌else◌, eq_of_beq, Bool-cases}

module _ {ℓ} {A : Type ℓ} where
  abbrev pub length : List A → ℕ
  length [] = 0
  length (x ∷ xs) = suc (length xs)

  -- any(p(x) for x in xs), all(p(x) for x in xs)
  unfoldable pub any : (A → Bool) → List A → Bool
  any p [] = false
  any p (x ∷ xs) = p x || any p xs

  unfoldable pub all : (A → Bool) → List A → Bool
  all p [] = true
  all p (x ∷ xs) = p x && all p xs

  -- what `any` finds is there
  pub any-true :
      (p : A → Bool) (xs : List A) → (any p xs ≡ true) ↔ ((x : A) × Memᴰ x xs × (p x ≡ true))
  unfolding any
  any-true p [] = (λ h. ground arith, λ (x, m, e). absurd (Memᴰ.not-nil m))
  any-true p (x ∷ xs) =
      let ih = any-true p xs in
      (
        λ h. elim (Bool-cases (p x)) [
          | inl e ↦ (x, Memᴰ.head refl, e)
          | inr e ↦ let (y, m, f) = ih.0 (ground arith) in (y, Memᴰ.tail m, f)
        ],
        λ (y, m, f). elim (Memᴰ.cases_cons m) [
          | inl e ↦ ground (arith, f, e)
          | inr rest ↦ let found = ih.1 (y, rest, f) in ground arith
        ],
      )

  -- and what it does not find is not
  pub any-false :
      (p : A → Bool) (xs : List A) → (any p xs ≡ false) ↔ ((x : A) → Memᴰ x xs → p x ≡ false)
  unfolding any
  any-false p [] = (λ _ x m. absurd (Memᴰ.not-nil m), λ _. refl)
  any-false p (x ∷ xs) =
      let ih = any-false p xs in
      (
        λ h y m. elim (Memᴰ.cases_cons m) [
          | inl e ↦ ground arith
          | inr rest ↦ ih.0 (ground arith) y rest
        ],
        λ f. ground (arith, f x (Memᴰ.head refl), ih.1 (λ y m. f y (Memᴰ.tail m))),
      )

  -- [x for x in xs if p(x)]
  unfoldable pub keep : (A → Bool) → List A → List A
  keep p [] = []
  keep p (x ∷ xs) = let rest = keep p xs in if p x then x ∷ rest else rest

  pub any-append : (p : A → Bool) (xs ys : List A) → any p (xs ++ ys) ≡ (any p xs || any p ys)
  unfolding any
  any-append p [] ys = refl
  any-append p (x ∷ xs) ys = ground (arith, any-append p xs ys)

  pub all-append : (p : A → Bool) (xs ys : List A) → all p (xs ++ ys) ≡ (all p xs && all p ys)
  unfolding all
  all-append p [] ys = refl
  all-append p (x ∷ xs) ys = ground (arith, all-append p xs ys)

  pub any-keep : (p q : A → Bool) (xs : List A) → any p (keep q xs) ≡ any (λ x. q x && p x) xs
  unfolding any keep
  any-keep p q [] = refl
  any-keep p q (x ∷ xs) = ground (arith, any-keep p q xs)

  pub any-congr : (p q : A → Bool) (xs : List A) → ((x : A) → p x ≡ q x) → any p xs ≡ any q xs
  unfolding any
  any-congr p q [] h = refl
  any-congr p q (x ∷ xs) h = ground (arith, any-congr p q xs h, h x)

  pub all-congr : (p q : A → Bool) (xs : List A) → ((x : A) → p x ≡ q x) → all p xs ≡ all q xs
  unfolding all
  all-congr p q [] h = refl
  all-congr p q (x ∷ xs) h = ground (arith, all-congr p q xs h, h x)

  pub any-and_left :
      (b : Bool) (p : A → Bool) (xs : List A) → any (λ x. b && p x) xs ≡ (b && any p xs)
  unfolding any
  any-and_left true p [] = refl
  any-and_left false p [] = refl
  any-and_left true p (x ∷ xs) = ap (λ c. p x || c) (any-and_left true p xs)
  any-and_left false p (x ∷ xs) = any-and_left false p xs

module _ {ℓ κ} {A : Type ℓ} {B : Type κ} where
  pub length-map : (f : A → B) (xs : List A) → length (map f xs) ≡ length xs
  length-map f [] = refl
  length-map f (x ∷ xs) = ap suc (length-map f xs)

  pub any-map : (p : B → Bool) (f : A → B) (xs : List A) → any p (map f xs) ≡ any (λ x. p (f x)) xs
  unfolding any
  any-map p f [] = refl
  any-map p f (x ∷ xs) = ground (arith, any-map p f xs)

  pub all-map : (p : B → Bool) (f : A → B) (xs : List A) → all p (map f xs) ≡ all (λ x. p (f x)) xs
  unfolding all
  all-map p f [] = refl
  all-map p f (x ∷ xs) = ground (arith, all-map p f xs)

module _ {ℓ} {A : Type ℓ} ⦃e : Equality A⦄ where
  -- x in xs
  unfoldable pub contains : List A → A → Bool
  unfolding any
  contains xs x = any (λ y. y == x) xs

  -- bool(xs & ys)
  unfoldable pub intersects : List A → List A → Bool
  unfolding contains
  intersects xs ys = any (λ x. contains ys x) xs

  -- tuple(dict.fromkeys(xs)): the first of equal items stays
  unfoldable pub remove_all : A → List A → List A
  remove_all x [] = []
  remove_all x (y ∷ ys) = let rest = remove_all x ys in if y == x then rest else y ∷ rest

  unfoldable pub unique : List A → List A
  unfolding remove_all
  unique [] = []
  unique (x ∷ xs) = x ∷ remove_all x (unique xs)

  pub all-remove_all :
      (p : A → Bool) (x : A) (xs : List A) → (p x && all p (remove_all x xs)) ≡ (p x && all p xs)
  unfolding all remove_all
  all-remove_all p x [] = refl
  all-remove_all p x (y ∷ ys) = ground (arith, all-remove_all p x ys, eq_of_beq y x)

  pub all-unique : (p : A → Bool) (xs : List A) → all p (unique xs) ≡ all p xs
  unfolding all unique
  all-unique p [] = refl
  all-unique p (x ∷ xs) = all-remove_all p x (unique xs) ∙ ap (λ b. p x && b) (all-unique p xs)

  pub any-remove_all :
      (p : A → Bool) (x : A) (xs : List A) → (p x || any p (remove_all x xs)) ≡ (p x || any p xs)
  unfolding any remove_all
  any-remove_all p x [] = refl
  any-remove_all p x (y ∷ ys) = ground (arith, any-remove_all p x ys, eq_of_beq y x)

  pub any-unique : (p : A → Bool) (xs : List A) → any p (unique xs) ≡ any p xs
  unfolding any unique
  any-unique p [] = refl
  any-unique p (x ∷ xs) = any-remove_all p x (unique xs) ∙ ap (λ b. p x || b) (any-unique p xs)

  -- what holds of all items holds of one that is there
  pub all-contains :
      (p : A → Bool) (xs : List A) (x : A) → contains xs x ≡ true → all p xs ≡ true → p x ≡ true
  unfolding all contains any
  all-contains p [] x h a = ground arith
  all-contains p (y ∷ ys) x h a = ground (arith, all-contains p ys x, eq_of_beq y x)
