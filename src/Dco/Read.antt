-- ===== src/Dco/Read.antt =====
-- The constructors from_github and from_graphql of dco.py, which read the models from the JSON of
-- GitHub's answers. Python's casefold is a parameter.
use extra_codeowners.Prelude.{
  ℕ, Bool, ◌++◌, ◌==◌, nat_eq, list_eq, if◌then◌else◌, Option, none, some, Result, ok, err, ◌>>=◌,
}
use extra_codeowners.Text.{Str, text, Unicode}
use extra_codeowners.Json.{Json, null, boolean, natural, negative, string, object, Fields, get}
use extra_codeowners.Models.Normalize.{ValueError}
use extra_codeowners.Dco.{
  RepositoryIdentity, GitHubActor, GitHubUserIdentity, PullState, opened, closed,
  PullRequestSnapshot, PullCommit, CommitVerification,
}
use extra_codeowners.Dco.Validate.{
  validate_repository_identity, validate_github_actor, validate_user, validate_pull,
  validate_pull_commit, validate_verification,
}

unfoldable pub mapping : Json → Str → Result ValueError Fields
mapping (object fields) name = ok fields
mapping _ name = err (name ++ text " must be an object")

unfoldable pub required : Fields → Str → Str → Result ValueError Json
unfolding get
required fields key name = elim (get key fields) [
  | none ↦ err (name ++ (text " omitted " ++ key))
  | some value ↦ ok value
]

-- The types of the fields, which the strict models check: str, int, bool, and `str | None`.
unfoldable pub as_text : Json → Result ValueError Str
as_text (string s) = ok s
as_text _ = err (text "Input should be a valid string")

unfoldable pub as_number : Json → Result ValueError ℕ
as_number (natural n) = ok n
as_number (negative n) = err (text "Input should be greater than 0")
as_number _ = err (text "Input should be a valid integer")

unfoldable pub as_bool : Json → Result ValueError Bool
as_bool (boolean b) = ok b
as_bool _ = err (text "Input should be a valid boolean")

unfoldable pub as_optional_text : Option Json → Result ValueError (Option Str)
as_optional_text none = ok none
as_optional_text (some null) = ok none
as_optional_text (some (string s)) = ok (some s)
as_optional_text (some _) = err (text "Input should be a valid string")

-- Literal["open", "closed"]
unfoldable pub as_state : Json → Result ValueError PullState
unfolding as_text
as_state value = do
  state ← as_text value
  if state == text "open"
      then ok opened
      else if state == text "closed"
      then ok closed
      else err (text "Input should be 'open' or 'closed'")

unfoldable pub actor_from_github : Unicode → Fields → Result ValueError GitHubActor
unfolding required as_text as_number validate_github_actor
actor_from_github u payload = do
  raw_login ← required payload (text "login") (text "actor")
  raw_id ← required payload (text "id") (text "actor")
  raw_type ← required payload (text "type") (text "actor")
  login ← as_text raw_login
  id ← as_number raw_id
  type ← as_text raw_type
  validate_github_actor u (record { login = login; id = id; type = type })

unfoldable pub user_from_graphql : Unicode → Fields → Result ValueError GitHubUserIdentity
unfolding required as_text as_number validate_user
user_from_graphql u payload = do
  raw_login ← required payload (text "login") (text "GraphQL user")
  raw_id ← required payload (text "databaseId") (text "GraphQL user")
  login ← as_text raw_login
  id ← as_number raw_id
  validate_user u (record { login = login; id = id })

-- RepositoryIdentity(id=..., full_name=...) of a payload
unfoldable pub repository_from_github :
    Unicode → Fields → Str → Result ValueError RepositoryIdentity
unfolding required as_text as_number validate_repository_identity
repository_from_github u payload name = do
  raw_id ← required payload (text "id") name
  raw_full_name ← required payload (text "full_name") name
  id ← as_number raw_id
  full_name ← as_text raw_full_name
  validate_repository_identity u (record { id = id; full_name = full_name })

-- PullRequestSnapshot.from_github
unfoldable pub pull_from_github :
    Unicode → Fields → RepositoryIdentity → Result ValueError PullRequestSnapshot
unfolding required mapping repository_from_github actor_from_github as_text as_number as_state
    validate_pull
pull_from_github u payload repository = do
  raw_base ← required payload (text "base") (text "pull request")
  base ← mapping raw_base (text "pull request base")
  raw_head ← required payload (text "head") (text "pull request")
  head ← mapping raw_head (text "pull request head")
  raw_base_repository ← required base (text "repo") (text "pull request base")
  base_fields ← mapping raw_base_repository (text "pull request base repository")
  raw_head_repository ← required head (text "repo") (text "pull request head")
  head_fields ← mapping raw_head_repository (text "pull request head repository")
  raw_author ← required payload (text "user") (text "pull request")
  author_fields ← mapping raw_author (text "pull request author")
  raw_number ← required payload (text "number") (text "pull request")
  raw_state ← required payload (text "state") (text "pull request")
  base_repository ← repository_from_github u base_fields (text "pull request base repository")
  raw_base_ref ← required base (text "ref") (text "pull request base")
  raw_base_sha ← required base (text "sha") (text "pull request base")
  head_repository ← repository_from_github u head_fields (text "pull request head repository")
  raw_head_ref ← required head (text "ref") (text "pull request head")
  raw_head_sha ← required head (text "sha") (text "pull request head")
  author ← actor_from_github u author_fields
  raw_count ← required payload (text "commits") (text "pull request")
  number ← as_number raw_number
  state ← as_state raw_state
  base_ref ← as_text raw_base_ref
  base_sha ← as_text raw_base_sha
  head_ref ← as_text raw_head_ref
  head_sha ← as_text raw_head_sha
  commit_count ← as_number raw_count
  validate_pull u (record {
    number = number;
    state = state;
    repository = repository;
    base_repository = base_repository;
    base_ref = base_ref;
    base_sha = base_sha;
    head_repository = head_repository;
    head_ref = head_ref;
    head_sha = head_sha;
    author = author;
    commit_count = commit_count;
  })

-- PullCommit.from_graphql
unfoldable pub pull_commit_from_graphql : Unicode → Fields → Result ValueError PullCommit
unfolding required mapping as_text validate_pull_commit
pull_commit_from_graphql u payload = do
  raw_commit ← required payload (text "commit") (text "pull-request commit node")
  commit ← mapping raw_commit (text "pull-request commit")
  raw_sha ← required commit (text "oid") (text "pull-request commit")
  raw_node_id ← required payload (text "id") (text "pull-request commit node")
  sha ← as_text raw_sha
  node_id ← as_text raw_node_id
  validate_pull_commit u (record { sha = sha; node_id = node_id })

-- None, or the user of an object
unfoldable pub optional_user :
    Unicode → Option Json → Str → Result ValueError (Option GitHubUserIdentity)
unfolding mapping user_from_graphql
optional_user u none name = ok none
optional_user u (some null) name = ok none
optional_user u (some value) name = do
  fields ← mapping value name
  user ← user_from_graphql u fields
  ok (some user)

-- CommitVerification.from_graphql
unfoldable pub verification_from_graphql : Unicode → Fields → Result ValueError CommitVerification
unfolding get required as_text as_bool as_optional_text optional_user validate_verification
verification_from_graphql u payload = do
  signer ← optional_user u (get (text "signer") payload) (text "signature signer")
  raw_valid ← required payload (text "isValid") (text "commit signature")
  raw_state ← required payload (text "state") (text "commit signature")
  raw_github ← required payload (text "wasSignedByGitHub") (text "commit signature")
  is_valid ← as_bool raw_valid
  state ← as_text raw_state
  verified_at ← as_optional_text (get (text "verifiedAt") payload)
  was_signed_by_github ← as_bool raw_github
  validate_verification u (record {
    is_valid = is_valid;
    state = state;
    verified_at = verified_at;
    was_signed_by_github = was_signed_by_github;
    signer = signer;
  })

unfoldable pub optional_verification :
    Unicode → Option Json → Result ValueError (Option CommitVerification)
unfolding mapping verification_from_graphql
optional_verification u none = ok none
optional_verification u (some null) = ok none
optional_verification u (some value) = do
  fields ← mapping value (text "commit signature")
  verification ← verification_from_graphql u fields
  ok (some verification)
