-- ===== src/Models/Policies.antt =====
-- The policy models of models.py, and what their validators check of the typed values that
-- pydantic hands them. Validators run in the order of the fields; the first error is kept.
use extra_codeowners.Prelude.{
  ℕ, ◌+◌, Bool, false, not, ◌&&◌, ◌||◌, List, [], ◌∷◌, ◌++◌, ltb, ◌==◌, nat_eq, list_eq,
  if◌then◌else◌, length, contains, intersects, unique, Dict, Result, ok, refuse, traverse, ◌>>=◌,
  ◌>>◌,
}
use extra_codeowners.Text.{Str, text, strip, decimal, Unicode}
use extra_codeowners.Regex.{fullmatch}
use extra_codeowners.Models.Normalize.{
  ValueError, app_slug_regex, app_alias_regex, normalize_owner, normalize_pattern, normalize_label,
}

pub record EnrolledApplication : Type 0 where
  pub slug : Str
  pub app_id : ℕ
  pub bot_user_id : ℕ

pub record Guardrails : Type 0 where
  pub non_delegable_paths : List Str

-- `schema_version` is the integer 1 in every accepted policy, and is left out
pub record OrganizationPolicy : Type 0 where
  pub apps : Dict Str EnrolledApplication
  pub guardrails : Guardrails

pub record Delegation : Type 0 where
  pub app : Str
  pub paths : List Str
  pub for_owners : List Str
  pub required_labels : List Str
  pub forbidden_labels : List Str

pub record RepositoryPolicy : Type 0 where
  pub enabled : Bool
  pub allow_author_as_codeowner : Bool
  pub allow_delegation_for_policy_file : Bool
  pub delegations : List Delegation

-- Field(max_length=n), and StrictPositiveInt
unfoldable pub at_most {ℓ} : {A : Type ℓ} → ℕ → List A → Result ValueError (Unit {0})
at_most n xs = refuse (ltb n (length xs)) (text "too many items")

unfoldable pub positive : ℕ → Result ValueError (Unit {0})
positive n = refuse (n == 0) (text "input should be greater than 0")

unfoldable pub validate_slug : Unicode → Str → Result ValueError Str
validate_slug u value = do
  let slug = u.lower (strip value)
  refuse (not (fullmatch app_slug_regex slug))
      (text "GitHub App slug must contain lowercase letters, digits, and hyphens")
  ok slug

unfoldable pub validate_application :
    Unicode → EnrolledApplication → Result ValueError EnrolledApplication
unfolding validate_slug positive
validate_application u app = do
  slug ← validate_slug u app.slug
  positive app.app_id
  positive app.bot_user_id
  ok (record app { slug = slug })

unfoldable pub validate_guardrails : Guardrails → Result ValueError Guardrails
unfolding at_most
validate_guardrails guardrails = do
  at_most 100 guardrails.non_delegable_paths
  paths ← traverse normalize_pattern guardrails.non_delegable_paths
  ok (record { non_delegable_paths = paths })

-- `normalize_app_aliases`: `seen` is the keys of `normalized`
unfoldable pub normalize_app_aliases :
    Unicode
    → List Str
    → Dict Str EnrolledApplication
    → Result ValueError (Dict Str EnrolledApplication)
normalize_app_aliases u seen [] = ok []
normalize_app_aliases u seen ((raw_alias, app) ∷ rest) = do
  let alias = u.lower (strip raw_alias)
  refuse (not (fullmatch app_alias_regex alias))
      (text "invalid application alias " ++ u.repr raw_alias)
  refuse (contains seen alias) (text "duplicate application alias " ++ u.repr alias)
  normalized ← normalize_app_aliases u (alias ∷ seen) rest
  ok ((alias, app) ∷ normalized)

-- each value of `apps` is a model of its own
unfoldable pub validate_applications :
    Unicode → Dict Str EnrolledApplication → Result ValueError (Dict Str EnrolledApplication)
unfolding validate_application
validate_applications u [] = ok []
validate_applications u ((alias, raw) ∷ rest) = do
  app ← validate_application u raw
  apps ← validate_applications u rest
  ok ((alias, app) ∷ apps)

-- `identities_are_unique`: the three `seen` sets are those of the applications before
unfoldable pub identities_are_unique :
    Unicode
    → List ℕ
    → List ℕ
    → List Str
    → Dict Str EnrolledApplication
    → Result ValueError (Unit {0})
identities_are_unique u app_ids bot_ids slugs [] = ok tt
identities_are_unique u app_ids bot_ids slugs ((alias, app) ∷ rest) = do
  refuse (contains app_ids app.app_id) (
      text "duplicate GitHub App id "
      ++ (decimal app.app_id ++ (text " (at " ++ (u.repr alias ++ text ")"))))
  refuse (contains bot_ids app.bot_user_id) (
      text "duplicate GitHub bot user id "
      ++ (decimal app.bot_user_id ++ (text " (at " ++ (u.repr alias ++ text ")"))))
  refuse (contains slugs app.slug) (text "duplicate GitHub App slug " ++ u.repr app.slug)
  identities_are_unique u (app.app_id ∷ app_ids) (app.bot_user_id ∷ bot_ids) (app.slug ∷ slugs) rest

unfoldable pub validate_organization :
    Unicode → OrganizationPolicy → Result ValueError OrganizationPolicy
unfolding at_most
validate_organization u policy = do
  normalized ← normalize_app_aliases u [] policy.apps
  at_most 50 normalized
  apps ← validate_applications u normalized
  guardrails ← validate_guardrails policy.guardrails
  identities_are_unique u [] [] [] apps
  ok (record { apps = apps; guardrails = guardrails })

abbrev pub star : Str
star = b'*' ∷ []

unfoldable pub normalize_alias : Unicode → Str → Result ValueError Str
normalize_alias u value = do
  let alias = u.lower (strip value)
  refuse (not (fullmatch app_alias_regex alias))
      (text "delegation app must be a valid application alias")
  ok alias

unfoldable pub normalize_for_owner : Unicode → Str → Result ValueError Str
normalize_for_owner u raw_owner =
    let owner = strip raw_owner in if owner == star then ok star else normalize_owner u owner

-- len(set(xs)) != len(xs)
unfoldable pub has_duplicates : List Str → Bool
has_duplicates [] = false
has_duplicates (x ∷ xs) = contains xs x || has_duplicates xs

unfoldable pub validate_for_owners : List Str → Result ValueError (List Str)
unfolding has_duplicates
validate_for_owners value = do
  refuse (value == []) (text "for_owners must list owners or contain an explicit '*'")
  refuse (contains value star && not (length value == 1))
      (text "'*' cannot be combined with named CODEOWNERS")
  refuse (has_duplicates value) (text "for_owners contains duplicate entries")
  ok value

-- a set of labels; the order of a set is not part of it
unfoldable pub normalize_labels : Unicode → List Str → Result ValueError (List Str)
normalize_labels u value = do labels ← traverse (normalize_label u) value; ok (unique labels)

unfoldable pub validate_delegation : Unicode → Delegation → Result ValueError Delegation
unfolding at_most normalize_alias normalize_labels
validate_delegation u delegation = do
  app ← normalize_alias u delegation.app
  refuse (delegation.paths == []) (text "delegation paths must not be empty")
  at_most 100 delegation.paths
  paths ← traverse normalize_pattern delegation.paths
  raw_owners ← traverse (normalize_for_owner u) delegation.for_owners
  at_most 100 raw_owners
  for_owners ← validate_for_owners raw_owners
  required_labels ← normalize_labels u delegation.required_labels
  at_most 50 required_labels
  forbidden_labels ← normalize_labels u delegation.forbidden_labels
  at_most 50 forbidden_labels
  refuse (intersects required_labels forbidden_labels)
      (text "labels cannot be both required and forbidden")
  ok (record {
    app = app;
    paths = paths;
    for_owners = for_owners;
    required_labels = required_labels;
    forbidden_labels = forbidden_labels;
  })

-- sum(len(delegation.paths) for delegation in delegations)
unfoldable pub count_paths : List Delegation → ℕ
count_paths [] = 0
count_paths (d ∷ ds) = length d.paths + count_paths ds

unfoldable pub validate_repository : Unicode → RepositoryPolicy → Result ValueError RepositoryPolicy
unfolding at_most
validate_repository u policy = do
  at_most 100 policy.delegations
  delegations ← traverse (validate_delegation u) policy.delegations
  refuse (ltb 1000 (count_paths delegations))
      (text "repository policy may contain at most 1,000 delegation patterns")
  ok (record policy { delegations = delegations })
