-- ===== src/Prelude/Results.antt =====
-- Code that may raise: a value or the error that was raised.
use mathlib.Core.Path.{◌≡◌, refl}
use mathlib.Core.Logic.{◌⊎◌, inl, inr}
use mathlib.Core.Bool.{Bool, true, false}
use mathlib.Core.List.{List, [], ◌∷◌, map}
use native.Mathlib.Omega.{arith}

pub data Result {ℓ κ} (E : Type ℓ) (A : Type κ) : Type (ℓ ⊔ κ) where
  ok : A → Result E A
  err : E → Result E A

infixl 5 ◌>>=◌ ◌>>◌
abbrev pub ◌>>=◌ {ℓ κ μ} :
    {E : Type ℓ} {A : Type κ} {B : Type μ} → Result E A → (A → Result E B) → Result E B
ok a >>= f = f a
err e >>= f = err e

abbrev pub ◌>>◌ {ℓ κ} : {E : Type ℓ} {B : Type κ} → Result E (Unit {0}) → Result E B → Result E B
m >> k = m >>= λ _. k

-- if b: raise e
abbrev pub refuse {ℓ} : {E : Type ℓ} → Bool → E → Result E (Unit {0})
refuse true e = err e
refuse false e = ok tt

abbrev pub is_ok {ℓ κ} : {E : Type ℓ} {A : Type κ} → Result E A → Bool
is_ok (ok a) = true
is_ok (err e) = false

-- [f(x) for x in xs] where f may raise
unfoldable pub traverse {ℓ κ μ} :
    {E : Type ℓ} {A : Type κ} {B : Type μ} → (A → Result E B) → List A → Result E (List B)
traverse f [] = ok []
traverse f (x ∷ xs) = do y ← f x; ys ← traverse f xs; ok (y ∷ ys)

-- a loop whose body never raises is a `map`
pub traverse_pure {ℓ κ μ} :
    {E : Type ℓ} {A : Type κ} {B : Type μ} (f : A → Result E B) (g : A → B) (xs : List A)
    → ((x : A) → f x ≡ ok (g x))
    → traverse f xs ≡ ok (map g xs)
unfolding traverse
traverse_pure f g [] h = refl
traverse_pure f g (x ∷ xs) h = rw (h x, traverse_pure f g xs h)

pub Result-cases {ℓ κ} :
    {E : Type ℓ} {A : Type κ} (r : Result E A) → ((a : A) × (r ≡ ok a)) ⊎ ((e : E) × (r ≡ err e))
Result-cases (ok a) = inl (a, refl)
Result-cases (err e) = inr (e, refl)

pub refuse-inv {ℓ} : {E : Type ℓ} (b : Bool) (e : E) {a : Unit {0}} → refuse b e ≡ ok a → b ≡ false
refuse-inv true e h = cc
refuse-inv false e h = refl

-- inversion of a successful bind
pub bind-inv {ℓ κ μ} :
    {E : Type ℓ} {A : Type κ} {B : Type μ} (m : Result E A) (f : A → Result E B) {b : B}
    → (m >>= f) ≡ ok b
    → (a : A) × (m ≡ ok a) × (f a ≡ ok b)
bind-inv (ok a) f h = (a, refl, h)
bind-inv (err e) f h = cc

-- a loop that did not raise has a value for each item
pub traverse-cons {ℓ κ μ} :
    {E : Type ℓ} {A : Type κ} {B : Type μ} (f : A → Result E B) (x : A) (xs : List A) {ys : List B}
    → traverse f (x ∷ xs) ≡ ok ys
    → (y : B) × (rest : List B) × (f x ≡ ok y) × (traverse f xs ≡ ok rest) × (ys ≡ y ∷ rest)
unfolding traverse
traverse-cons f x xs h =
    let (y, e, h') = bind-inv (f x) _ h in
    let (rest, e', h'') = bind-inv (traverse f xs) _ h' in (y, rest, e, e', ground arith)
