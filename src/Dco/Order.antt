-- ===== src/Dco/Order.antt =====
-- _commit_order_is_valid of dco.py: the order of the commits, and the walk from the head over the
-- parents. A set is the list of its elements, and the walk's stack has its top in front.
use extra_codeowners.Prelude.{
  ℕ, zero, suc, Bool, true, false, not, ◌&&◌, ◌||◌, List, [], ◌∷◌, leb, ◌==◌, nat_eq, list_eq,
  if◌then◌else◌, Option, none, some, any, all, contains, Dict, lookup, assign, map, length, Result,
  ok, err, ◌>>=◌,
}
use extra_codeowners.Text.{Str, text}
use extra_codeowners.Dco.{
  PullCommit, CommitEvidence, DcoError, value_error, index_error, key_error, out_of_fuel,
}

abbrev pub pull_shas : List PullCommit → List Str
pull_shas commits = map (λ c. c.sha) commits

abbrev pub commit_shas : List CommitEvidence → List Str
commit_shas commits = map (λ c. c.sha) commits

-- any(a != b for a, b in zip(xs, ys, strict=True)): at the first difference the loop ends
unfoldable pub any_differ : List Str → List Str → Result DcoError Bool
any_differ [] [] = ok false
any_differ (x ∷ xs) (y ∷ ys) = let rest = any_differ xs ys in if x == y then rest else ok true
any_differ _ _ = err (value_error (text "zip() arguments have different lengths"))

-- {sha: index for index, sha in enumerate(shas)}, from an index on
unfoldable pub positions_from : ℕ → Dict Str ℕ → List Str → Dict Str ℕ
unfolding assign
positions_from index seen [] = seen
positions_from index seen (sha ∷ shas) = positions_from (suc index) (assign sha index seen) shas

-- parent in positions and positions[parent] >= index
unfoldable pub is_late : ℕ → Option ℕ → Bool
is_late index none = false
is_late index (some position) = leb index position

-- the second loop: whether a parent stands at the place of its child or behind it
unfoldable pub any_late : Dict Str ℕ → ℕ → List CommitEvidence → Bool
unfolding any is_late lookup
any_late positions index [] = false
any_late positions index (commit ∷ commits) =
    let rest = any_late positions (suc index) commits in
    if any (λ parent. is_late index (lookup parent positions)) commit.parents then true else rest

-- {commit.sha: commit for commit in commits}
unfoldable pub by_sha_from : Dict Str CommitEvidence → List CommitEvidence → Dict Str CommitEvidence
unfolding assign
by_sha_from seen [] = seen
by_sha_from seen (commit ∷ commits) = by_sha_from (assign commit.sha commit seen) commits

unfoldable pub is_some {ℓ} : {A : Type ℓ} → Option A → Bool
is_some none = false
is_some (some a) = true

pub record Search : Type 0 where
  pub reachable : List Str
  pub pending : List Str

-- the body of the inner loop
unfoldable pub visit_parent : Dict Str CommitEvidence → Search → Str → Search
unfolding is_some contains lookup
visit_parent by_sha s parent =
    if is_some (lookup parent by_sha) && not (contains s.reachable parent)
    then record { reachable = parent ∷ s.reachable; pending = parent ∷ s.pending }
    else s

unfoldable pub visit_parents : Dict Str CommitEvidence → Search → List Str → Search
unfolding visit_parent
visit_parents by_sha s [] = s
visit_parents by_sha s (parent ∷ parents) =
    visit_parents by_sha (visit_parent by_sha s parent) parents

-- the outer loop, on fuel
unfoldable pub walk : Dict Str CommitEvidence → ℕ → List Str → List Str → Result DcoError (List Str)
unfolding visit_parents lookup
walk by_sha fuel reachable [] = ok reachable
walk by_sha zero reachable (sha ∷ pending) = err out_of_fuel
walk by_sha (suc fuel) reachable (sha ∷ pending) = elim (lookup sha by_sha) [
  | none ↦ err key_error
  | some commit ↦
      let s =
        visit_parents by_sha (record { reachable = reachable; pending = pending }) commit.parents in
      walk by_sha fuel s.reachable s.pending
]

-- equality of sets
unfoldable pub same_members : List Str → List Str → Bool
unfolding all contains
same_members xs ys = all (contains ys) xs && all (contains xs) ys

-- shas[-1]
unfoldable pub last : List Str → Result DcoError Str
last [] = err index_error
last (x ∷ []) = ok x
last (x ∷ y ∷ ys) = last (y ∷ ys)

-- The walk takes each commit at most once, and so has fuel enough.
unfoldable pub reaches_all : List Str → List CommitEvidence → Result DcoError Bool
unfolding by_sha_from walk same_members last
reaches_all ordered_shas commits = do
  head ← last ordered_shas
  reachable ← walk (by_sha_from [] commits) (length commits) (head ∷ []) (head ∷ [])
  ok (same_members reachable ordered_shas)

unfoldable pub commit_order_is_valid : List PullCommit → List CommitEvidence → Result DcoError Bool
unfolding any_differ positions_from any_late reaches_all
commit_order_is_valid pull_commits commits = do
  let ordered_shas = pull_shas pull_commits
  differ ← any_differ (commit_shas commits) ordered_shas
  if differ || any_late (positions_from 0 [] ordered_shas) 0 commits
      then ok false
      else reaches_all ordered_shas commits
