-- ===== src/Evaluator/Grouping.antt =====
-- The loop that groups the paths by owner set loses no path and adds none.
use extra_codeowners.Prelude.{
  Bool, false, ◌&&◌, ◌||◌, List, [], ◌∷◌, ◌++◌, ◌≡◌, refl, ◌∙◌, subst, arith, ◌==◌, list_eq, nat_eq,
  Option, none, some, inl, inr, Bool-cases, all, contains, intersects, sort, insert, text_le,
  any-sort, any-congr, all-append, all-contains, eq_of_beq, lookup, assign, Result, ok,
}
use extra_codeowners.Text.{Str}
use extra_codeowners.Models.Normalize.{ValueError}
use extra_codeowners.Models.Paths.{IsNormalized}
use extra_codeowners.Policy.Decision.{is_nil, owner_matches}
use extra_codeowners.Models.Evidence.{PullRequestReview}
use extra_codeowners.Policy.Coverage.{delegation_covers}
use extra_codeowners.Codeowners.Document.{CodeownersDocument, last_match, owners_of, owners_for}
use extra_codeowners.Evaluator.Judgement.{Context}
use extra_codeowners.Evaluator.Evaluate.{OwnerPaths, with_path, Grouped, group_path, group_paths}
use extra_codeowners.Evaluator.Coverage.{
  human_covers, author_covers, application_covers, is_covered, AllNormalized,
}

-- the last matching rule's owners, of a path that passed validation
unfoldable pub owners_at : CodeownersDocument → Str → List Str
owners_at document path = owners_of (last_match document.rules path none)

-- The requirement on one changed path: it has no owner, or it is covered.
unfoldable pub is_path_covered : Context → CodeownersDocument → Str → Bool
is_path_covered context document path =
    is_nil (owners_at document path) || is_covered context (owners_at document path) path

owners_for-eq :
    (document : CodeownersDocument) (path : Str)
    → IsNormalized path
    → owners_for document path ≡ ok (owners_at document path)
unfolding owners_for owners_at
owners_for-eq document path valid = rw valid refl

is_nil-sort : (owners : List Str) → is_nil (sort text_le owners) ≡ is_nil owners
unfolding is_nil sort
is_nil-sort [] = refl
is_nil-sort (x ∷ xs) = is_nil-insert (sort text_le xs)
  where
    is_nil-insert : (ys : List Str) → is_nil (insert text_le x ys) ≡ false
    is_nil-insert [] = refl
    is_nil-insert (y ∷ ys) = ground arith

intersects-sort_left : (xs ys : List Str) → intersects (sort text_le xs) ys ≡ intersects xs ys
unfolding intersects
intersects-sort_left xs ys = any-sort text_le (contains ys) xs

intersects-sort_right : (xs ys : List Str) → intersects xs (sort text_le ys) ≡ intersects xs ys
unfolding intersects contains
intersects-sort_right xs ys =
    any-congr (contains (sort text_le ys)) (contains ys) xs (λ x. any-sort text_le (λ y. y == x) ys)

-- coverage does not depend on the order of the owners
is_covered-sort :
    (context : Context) (owners : List Str) (path : Str)
    → is_covered context (sort text_le owners) path ≡ is_covered context owners path
unfolding is_covered human_covers author_covers application_covers delegation_covers owner_matches
is_covered-sort context owners path =
    rw
      (
        intersects-sort_right context.author_identities owners,
        any-congr (λ (a : PullRequestReview × List Str). intersects a.1 (sort text_le owners))
            (λ (a : PullRequestReview × List Str). intersects a.1 owners) context.human_approvals
            (λ a. intersects-sort_right a.1 owners),
        any-congr
            (delegation_covers context.approved_apps context.labels (sort text_le owners) path)
            (delegation_covers context.approved_apps context.labels owners path)
            context.policy.delegations
            (λ d. rw (intersects-sort_left owners d.rule.for_owners) refl),
      )
      refl

module _ (c : List Str → Str → Bool) where
  abbrev pub group_holds : List Str × List Str → Bool
  group_holds (owners, paths) = all (c owners) paths

  with_path-holds :
      (k : List Str) (w : List Str) (p : Str)
      → all (c k) (with_path (some w) p) ≡ (all (c k) w && c k p)
  unfolding with_path all
  with_path-holds k w p = ground (arith, all-append (c k) w (p ∷ []), all-contains (c k) w p)

  assign-holds :
      (k : List Str) (p : Str) (d : OwnerPaths)
      → all group_holds (assign k (with_path (lookup k d) p) d) ≡ (all group_holds d && c k p)
  unfolding all assign lookup with_path
  assign-holds k p [] = ground arith
  assign-holds k p ((j, w) ∷ d) =
      ground (arith, assign-holds k p d, eq_of_beq j k, with_path-holds k w p)

  group_path-holds :
      (owners : List Str) (path : Str) (g : Grouped)
      → all group_holds (group_path owners path g).owner_paths
        ≡ (all group_holds g.owner_paths && (is_nil owners || c owners path))
  unfolding group_path is_nil
  group_path-holds [] path g = ground arith
  group_path-holds (o ∷ owners) path g = assign-holds (o ∷ owners) path g.owner_paths

-- every path of every group passed validation
unfoldable pub GroupsNormalized : OwnerPaths → Type 0
GroupsNormalized [] = Unit
GroupsNormalized ((k, w) ∷ d) = AllNormalized w × GroupsNormalized d

AllNormalized-append :
    (w : List Str) (p : Str) → AllNormalized w → IsNormalized p → AllNormalized (w ++ p ∷ [])
unfolding AllNormalized
AllNormalized-append [] p h v = (v, tt)
AllNormalized-append (x ∷ w) p h v = (h.0, AllNormalized-append w p h.1 v)

with_path-AllNormalized :
    (o : Option (List Str)) (p : Str)
    → ((w : List Str) → o ≡ some w → AllNormalized w)
    → IsNormalized p
    → AllNormalized (with_path o p)
unfolding with_path AllNormalized
with_path-AllNormalized none p h v = (v, tt)
with_path-AllNormalized (some w) p h v = elim (Bool-cases (contains w p)) [
  | inl there ↦ rw there (h w refl)
  | inr new ↦ rw new (AllNormalized-append w p (h w refl) v)
]

lookup-AllNormalized :
    (k : List Str) (d : OwnerPaths) (w : List Str)
    → GroupsNormalized d
    → lookup k d ≡ some w
    → AllNormalized w
unfolding GroupsNormalized lookup
lookup-AllNormalized k [] w h e = cc
lookup-AllNormalized k ((j, x) ∷ d) w h e = elim (Bool-cases (j == k)) [
  | inl same ↦
      let e' : some x ≡ some w = rw same at e in
      let found : x ≡ w = ground arith in subst AllNormalized found h.0
  | inr other ↦ lookup-AllNormalized k d w h.1 (rw other at e)
]

assign-GroupsNormalized :
    (k w : List Str) (d : OwnerPaths)
    → AllNormalized w
    → GroupsNormalized d
    → GroupsNormalized (assign k w d)
unfolding GroupsNormalized assign
assign-GroupsNormalized k w [] v h = (v, tt)
assign-GroupsNormalized k w ((j, x) ∷ d) v h = elim (Bool-cases (j == k)) [
  | inl same ↦ rw same (v, h.1)
  | inr other ↦ rw other (h.0, assign-GroupsNormalized k w d v h.1)
]

group_path-GroupsNormalized :
    (owners : List Str) (path : Str) (g : Grouped)
    → IsNormalized path
    → GroupsNormalized g.owner_paths
    → GroupsNormalized (group_path owners path g).owner_paths
unfolding group_path
group_path-GroupsNormalized [] path g v h = h
group_path-GroupsNormalized (o ∷ owners) path g v h =
    assign-GroupsNormalized (o ∷ owners) _ g.owner_paths
      (with_path-AllNormalized (lookup (o ∷ owners) g.owner_paths) path
        (λ w e. lookup-AllNormalized (o ∷ owners) g.owner_paths w h e) v)
      h

module _ (context : Context) (document : CodeownersDocument) where
  -- the groups that the loop returns hold the requirement of every path, and nothing else
  abbrev pub GroupsHold : List Str → Grouped → Result ValueError Grouped → Type 0
  GroupsHold paths g result =
      (g' : Grouped) × (result ≡ ok g')
      × GroupsNormalized g'.owner_paths
      × (all (group_holds (is_covered context)) g'.owner_paths ≡ (
          all (group_holds (is_covered context)) g.owner_paths
          && all (is_path_covered context document) paths))

  step_holds :
      (path : Str) (g : Grouped)
      → all
          (group_holds (is_covered context))
          (group_path (sort text_le (owners_at document path)) path g).owner_paths
        ≡ (all (group_holds (is_covered context)) g.owner_paths
            && is_path_covered context document path)
  unfolding is_path_covered
  step_holds path g =
      group_path-holds (is_covered context) (sort text_le (owners_at document path)) path g
      ∙ rw
          (
            is_nil-sort (owners_at document path),
            is_covered-sort context (owners_at document path) path,
          )
          refl

  pub group_paths-GroupsHold :
      (paths : List Str) (g : Grouped)
      → AllNormalized paths
      → GroupsNormalized g.owner_paths
      → GroupsHold paths g (group_paths document paths g)
  unfolding group_paths AllNormalized all
  group_paths-GroupsHold [] g v h = (g, refl, h, ground arith)
  group_paths-GroupsHold (path ∷ paths) g v h =
      let next = group_path (sort text_le (owners_at document path)) path g in
      let (g', e, n, s) =
        group_paths-GroupsHold paths next v.1
          (group_path-GroupsNormalized (sort text_le (owners_at document path)) path g v.0 h) in
      (g', rw (owners_for-eq document path v.0) e, n, ground (arith, s, step_holds path g))
