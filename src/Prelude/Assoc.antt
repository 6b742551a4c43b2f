-- ===== src/Prelude/Assoc.antt =====
-- Python's dict, which keeps the order of insertion, as an association list.
use mathlib.Core.Path.{◌≡◌, refl}
use mathlib.Core.List.{List, [], ◌∷◌}
use mathlib.Core.Option.{Option, none, some}
use native.Mathlib.Omega.{arith}
use extra_codeowners.Prelude.Tests.{Equality, ◌==◌, if◌then◌else◌}

abbrev pub Dict {ℓ κ} : Type ℓ → Type κ → Type (ℓ ⊔ κ)
Dict K V = List (K × V)

module _ {ℓ κ} {K : Type ℓ} {V : Type κ} ⦃e : Equality K⦄ where
  -- d.get(k)
  unfoldable pub lookup : K → Dict K V → Option V
  lookup k [] = none
  lookup k ((j, v) ∷ d) = if j == k then some v else lookup k d

  -- d[k] = v: a key that is there keeps its place, a new one comes last
  unfoldable pub assign : K → V → Dict K V → Dict K V
  assign k v [] = (k, v) ∷ []
  assign k v ((j, w) ∷ d) = if j == k then (j, v) ∷ d else (j, w) ∷ assign k v d

  pub lookup-assign :
      (k j : K) (v : V) (d : Dict K V)
      → lookup j (assign k v d) ≡ (if k == j then some v else lookup j d)
  unfolding lookup assign
  lookup-assign k j v [] = refl
  lookup-assign k j v ((i, w) ∷ d) =
      ground (arith, e.equals_iff k j, e.equals_iff i k, e.equals_iff i j, lookup-assign k j v d)

module _ {ℓ κ} {K : Type ℓ} {V : Type κ} where
  -- d.values()
  unfoldable pub values : Dict K V → List V
  values [] = []
  values ((k, v) ∷ d) = v ∷ values d
