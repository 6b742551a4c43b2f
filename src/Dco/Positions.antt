-- ===== src/Dco/Positions.antt =====
-- The positions of the commits: a parent is late exactly when it stands in the rest of the list.
use extra_codeowners.Prelude.{
  ℕ, zero, suc, ◌+◌, Bool, true, false, List, [], ◌∷◌, ◌≡◌, refl, ◌↔◌, ◌==◌, nat_eq, list_eq,
  Option, none, some, contains, intersects, any, any-congr, Dict, lookup, assign, arith,
  lookup-assign, subst,
}
use extra_codeowners.Text.{Str}
use extra_codeowners.Dco.{CommitEvidence}
use extra_codeowners.Dco.Order.{commit_shas, positions_from, is_late, any_late}

abbrev pub drop : ℕ → List Str → List Str
drop zero xs = xs
drop (suc n) [] = []
drop (suc n) (x ∷ xs) = drop n xs

lookup-positions_from :
    (i : ℕ) (seen : Dict Str ℕ) (shas : List Str) (p : Str)
    → contains shas p ≡ false
    → lookup p (positions_from i seen shas) ≡ lookup p seen
unfolding positions_from contains any
lookup-positions_from i seen [] p h = refl
lookup-positions_from i seen (x ∷ xs) p h =
    ground (arith, lookup-positions_from (suc i) (assign x i seen) xs p, lookup-assign x p i seen)

is_late_mono : (i n : ℕ) (o : Option ℕ) → is_late i o ≡ false → is_late (i + n) o ≡ false
unfolding is_late
is_late_mono i n none h = refl
is_late_mono i n (some j) h = ground arith

is_late_anti : (i : ℕ) (o : Option ℕ) → is_late (suc i) o ≡ true → is_late i o ≡ true
unfolding is_late
is_late_anti i none h = h
is_late_anti i (some j) h = ground arith

is_late-assign :
    (i : ℕ) (seen : Dict Str ℕ) (x p : Str)
    → is_late i (lookup p seen) ≡ false
    → (is_late (suc i) (lookup p (assign x i seen)) ≡ false)
      × (is_late i (lookup p (assign x i seen)) ≡ (x == p))
unfolding is_late
is_late-assign i seen x p h = (
  ground (arith, lookup-assign x p i seen, is_late_mono i 1 (lookup p seen)),
  ground (arith, lookup-assign x p i seen),
)

-- the indices from `i` on are those of the list
pub is_late-positions_from :
    (i n : ℕ) (seen : Dict Str ℕ) (shas : List Str) (p : Str)
    → is_late i (lookup p seen) ≡ false
    → is_late (i + n) (lookup p (positions_from i seen shas)) ≡ contains (drop n shas) p
unfolding positions_from contains any
is_late-positions_from i zero seen [] p h = ground arith
is_late-positions_from i (suc n) seen [] p h =
    ground (arith, is_late_mono i (suc n) (lookup p seen))
is_late-positions_from i zero seen (x ∷ xs) p h = ground (
  arith,
  is_late-positions_from (suc i) zero (assign x i seen) xs p,
  is_late-assign i seen x p h,
  lookup-positions_from (suc i) (assign x i seen) xs p,
  is_late_anti i (lookup p (positions_from (suc i) (assign x i seen) xs)),
)
is_late-positions_from i (suc n) seen (x ∷ xs) p h =
    ground
      (arith, is_late-positions_from (suc i) n (assign x i seen) xs p, is_late-assign i seen x p h)

-- No parent of a commit stands at its place or behind it.
unfoldable pub ParentsFirst : List CommitEvidence → Type 0
ParentsFirst [] = Unit
ParentsFirst (c ∷ cs) = (intersects c.parents (commit_shas (c ∷ cs)) ≡ false) × ParentsFirst cs

cast : (f : ℕ → Bool) (m n : ℕ) {b : Bool} → m ≡ n → f m ≡ b → f n ≡ b
cast f m n {b} e h = subst (λ k. f k ≡ b) e h

any_late-ParentsFirst_from :
    (P : Dict Str ℕ) (k : ℕ) (commits : List CommitEvidence)
    → ((n : ℕ) (p : Str) → is_late (k + n) (lookup p P) ≡ contains (drop n (commit_shas commits)) p)
    → (any_late P k commits ≡ false) ↔ ParentsFirst commits
unfolding any_late ParentsFirst intersects
any_late-ParentsFirst_from P k [] h = (λ _. tt, λ _. refl)
any_late-ParentsFirst_from P k (c ∷ cs) h =
    let here =
      any-congr (λ p. is_late k (lookup p P)) (λ p. contains (commit_shas (c ∷ cs)) p) c.parents
        (λ p. cast (λ m. is_late m (lookup p P)) (k + 0) k (omega arith) (h 0 p)) in
    let rest = any_late-ParentsFirst_from P (suc k) cs (λ n p.
      cast (λ m. is_late m (lookup p P)) (k + suc n) (suc k + n) (omega arith) (h (suc n) p)) in
    (λ e. (ground arith, rest.0 (ground arith)), λ e. ground (arith, rest.1 e.1))

-- The positions of the commits' own SHAs, as the order check computes them.
pub any_late-ParentsFirst :
    (commits : List CommitEvidence)
    → (any_late (positions_from 0 [] (commit_shas commits)) 0 commits ≡ false)
      ↔ ParentsFirst commits
unfolding is_late lookup
any_late-ParentsFirst commits =
    any_late-ParentsFirst_from (positions_from 0 [] (commit_shas commits)) 0 commits
      (λ n p. is_late-positions_from 0 n [] (commit_shas commits) p refl)
