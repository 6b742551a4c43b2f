-- ===== src/Prelude/Tests.antt =====
-- Boolean tests, equality as an interface, and the result of code that may raise.
use Prim.Native.Nat.{ℕ, compare, Ordering}
use mathlib.Core.Path.{◌≡◌, refl, sym, subst}
use mathlib.Core.Logic.{◌↔◌, ◌⊎◌, inl, inr}
use mathlib.Core.Bool.{Bool, true, false, ◌&&◌}
use mathlib.Core.Option.{Option, none, some}
use mathlib.Core.List.{List, [], ◌∷◌}
use native.Mathlib.Omega.{arith}

abbrev pub ltb : ℕ → ℕ → Bool
ltb a b = elim (compare a b) [ Ordering.lt ↦ true | _ ↦ false ]

abbrev pub leb : ℕ → ℕ → Bool
leb a b = elim (compare a b) [ Ordering.gt ↦ false | _ ↦ true ]

abbrev pub nat_beq : ℕ → ℕ → Bool
nat_beq a b = elim (compare a b) [ Ordering.eq ↦ true | _ ↦ false ]

pub nat_beq_iff : (a b : ℕ) → (nat_beq a b ≡ true) ↔ (a ≡ b)
nat_beq_iff a b = ground arith

infix 1 if◌then◌else◌
abbrev pub if◌then◌else◌ {ℓ} : {A : Type ℓ} → Bool → A → A → A
if true then x else y = x
if false then x else y = y

-- To split on a computed value and keep the equation.
pub Bool-cases : (b : Bool) → (b ≡ true) ⊎ (b ≡ false)
Bool-cases true = inl refl
Bool-cases false = inr refl

pub Option-cases {ℓ} : {A : Type ℓ} (o : Option A) → (o ≡ none) ⊎ ((a : A) × (o ≡ some a))
Option-cases none = inl refl
Option-cases (some a) = inr (a, refl)

-- Two tests that hold together are one test.
pub Bool-ext : (a b : Bool) → (a ≡ true → b ≡ true) → (b ≡ true → a ≡ true) → a ≡ b
Bool-ext true true f g = refl
Bool-ext true false f g = sym (f refl)
Bool-ext false true f g = g refl
Bool-ext false false f g = refl

pub record Equality {ℓ} (A : Type ℓ) : Type ℓ where
  pub equals : A → A → Bool
  pub equals_iff : (a b : A) → (equals a b ≡ true) ↔ (a ≡ b)

infix 50 ◌==◌
abbrev pub ◌==◌ {ℓ} : {X : Type ℓ} ⦃same : Equality X⦄ → X → X → Bool
◌==◌ ⦃same⦄ = same.equals

module _ {ℓ} {A : Type ℓ} ⦃e : Equality A⦄ where
  pub eq_of_beq : (a b : A) → (a == b) ≡ true → a ≡ b
  eq_of_beq a b = (e.equals_iff a b).0

  pub beq_self : (a : A) → (a == a) ≡ true
  beq_self a = (e.equals_iff a a).1 refl

instance abbrev pub nat_eq : Equality ℕ
nat_eq = record { equals = nat_beq; equals_iff = nat_beq_iff }

module _ {ℓ} {A : Type ℓ} ⦃e : Equality A⦄ where
  unfoldable pub list_beq : List A → List A → Bool
  list_beq [] [] = true
  list_beq (x ∷ xs) (y ∷ ys) = x == y && list_beq xs ys
  list_beq _ _ = false

  pub list_beq_sound : (xs ys : List A) → list_beq xs ys ≡ true → xs ≡ ys
  unfolding list_beq
  list_beq_sound [] [] h = refl
  list_beq_sound [] (y ∷ ys) h = ground arith
  list_beq_sound (x ∷ xs) [] h = ground arith
  list_beq_sound (x ∷ xs) (y ∷ ys) h = ground (arith, list_beq_sound xs ys, eq_of_beq x y)

  pub list_beq_self : (xs : List A) → list_beq xs xs ≡ true
  unfolding list_beq
  list_beq_self [] = refl
  list_beq_self (x ∷ xs) = ground (arith, list_beq_self xs, beq_self x)

  pub list_beq_iff : (xs ys : List A) → (list_beq xs ys ≡ true) ↔ (xs ≡ ys)
  list_beq_iff xs ys =
      (list_beq_sound xs ys, λ p. subst (λ z. list_beq xs z ≡ true) p (list_beq_self xs))

  instance abbrev pub list_eq : Equality (List A)
  list_eq = record { equals = list_beq; equals_iff = list_beq_iff }

abbrev pub bool_beq : Bool → Bool → Bool
bool_beq true b = b
bool_beq false true = false
bool_beq false false = true

pub bool_beq_iff : (a b : Bool) → (bool_beq a b ≡ true) ↔ (a ≡ b)
bool_beq_iff true b = ground arith
bool_beq_iff false true = ground arith
bool_beq_iff false false = ground arith

instance abbrev pub bool_eq : Equality Bool
bool_eq = record { equals = bool_beq; equals_iff = bool_beq_iff }

module _ {ℓ} {A : Type ℓ} ⦃e : Equality A⦄ where
  abbrev pub option_beq : Option A → Option A → Bool
  option_beq none none = true
  option_beq (some a) (some b) = a == b
  option_beq _ _ = false

  pub option_beq_iff : (a b : Option A) → (option_beq a b ≡ true) ↔ (a ≡ b)
  option_beq_iff none none = ground arith
  option_beq_iff none (some b) = ground arith
  option_beq_iff (some a) none = ground arith
  option_beq_iff (some a) (some b) = ground (arith, e.equals_iff a b)

  instance abbrev pub option_eq : Equality (Option A)
  option_eq = record { equals = option_beq; equals_iff = option_beq_iff }
