-- ===== src/Models/Evidence.antt =====
-- The evidence of one evaluation from models.py.
use extra_codeowners.Prelude.{
  ℕ, Bool, true, false, not, ◌||◌, List, [], ◌==◌, nat_eq, list_eq, Option, none, some, any,
  contains, Result, ok, refuse, traverse, ◌>>=◌, ◌>>◌, unique,
}
use extra_codeowners.Text.{Str, text, slash, strip, starts_with, split, Unicode}
use extra_codeowners.Regex.{fullmatch}
use extra_codeowners.Models.Normalize.{
  ValueError, app_slug_regex, is_dots, normalize_owner, normalize_repository_path, normalize_label,
}
use extra_codeowners.Models.Policies.{OrganizationPolicy, RepositoryPolicy, positive}

pub data ChangedFileStatus : Type 0 where
  added modified removed renamed copied changed unchanged : ChangedFileStatus

unfoldable pub is_renamed : ChangedFileStatus → Bool
is_renamed renamed = true
is_renamed _ = false

pub record ChangedFile : Type 0 where
  pub path : Str
  pub status : ChangedFileStatus
  pub previous_path : Option Str

unfoldable pub validate_optional_path : Option Str → Result ValueError (Option Str)
validate_optional_path none = ok none
validate_optional_path (some p) = do path ← normalize_repository_path p; ok (some path)

unfoldable pub rename_has_previous_path : Bool → Str → Option Str → Result ValueError (Unit {0})
rename_has_previous_path renamed? path none =
    refuse renamed?
      (text "renamed files require previous_path so both ownership rules are evaluated")
rename_has_previous_path renamed? path (some previous) = do
  refuse (not renamed?) (text "previous_path is only valid for renamed files")
  refuse (previous == path) (text "renamed file path and previous_path must differ")
  ok tt

unfoldable pub validate_changed_file : ChangedFile → Result ValueError ChangedFile
unfolding validate_optional_path rename_has_previous_path is_renamed
validate_changed_file file = do
  path ← normalize_repository_path file.path
  previous_path ← validate_optional_path file.previous_path
  rename_has_previous_path (is_renamed file.status) path previous_path
  ok (record file { path = path; previous_path = previous_path })

pub data ActorKind : Type 0 where
  human application : ActorKind

unfoldable pub kind_beq : ActorKind → ActorKind → Bool
kind_beq human human = true
kind_beq application application = true
kind_beq _ _ = false

-- `app_id` and `app_slug` are there for applications alone
pub record ReviewActor : Type 0 where
  pub kind : ActorKind
  pub login : Str
  pub user_id : ℕ
  pub app_id : Option ℕ
  pub app_slug : Option Str
  pub owner_aliases : List Str
  pub direct_owner_eligible : Bool

unfoldable pub validate_login : Unicode → Str → Result ValueError Str
validate_login u value = do
  let login = u.lower (strip value)
  refuse (login == []) (text "login must not be empty")
  ok login

unfoldable pub positive_id : Option ℕ → Result ValueError (Unit {0})
positive_id none = ok tt
positive_id (some n) = positive n

unfoldable pub normalize_app_slug : Unicode → Option Str → Result ValueError (Option Str)
normalize_app_slug u none = ok none
normalize_app_slug u (some value) = do
  let slug = u.lower (strip value)
  refuse (not (fullmatch app_slug_regex slug)) (text "invalid GitHub App slug on review actor")
  ok (some slug)

unfoldable pub normalize_owner_aliases : Unicode → List Str → Result ValueError (List Str)
normalize_owner_aliases u value = do owners ← traverse (normalize_owner u) value; ok (unique owners)

unfoldable pub has_value {ℓ} : {A : Type ℓ} → Option A → Bool
has_value none = false
has_value (some a) = true

unfoldable pub validate_kind_fields :
    ActorKind → Bool → Bool → List Str → Result ValueError (Unit {0})
validate_kind_fields application has_id has_slug owner_aliases = do
  refuse (not has_id || not has_slug) (text "application review actors require app_id and app_slug")
  refuse (not (owner_aliases == []))
      (text "application review actors cannot carry human owner aliases")
  ok tt
validate_kind_fields human has_id has_slug owner_aliases =
    refuse (has_id || has_slug) (text "human review actors cannot carry GitHub App identity fields")

unfoldable pub validate_actor : Unicode → ReviewActor → Result ValueError ReviewActor
unfolding validate_login validate_kind_fields has_value positive_id
validate_actor u actor = do
  login ← validate_login u actor.login
  positive actor.user_id
  positive_id actor.app_id
  app_slug ← normalize_app_slug u actor.app_slug
  owner_aliases ← normalize_owner_aliases u actor.owner_aliases
  validate_kind_fields actor.kind (has_value actor.app_id) (has_value app_slug) owner_aliases
  ok (record actor { login = login; app_slug = app_slug; owner_aliases = owner_aliases })

pub record PullRequestAuthor : Type 0 where
  pub login : Str
  pub user_id : ℕ
  pub owner_aliases : List Str
  pub direct_owner_eligible : Bool

unfoldable pub validate_author : Unicode → PullRequestAuthor → Result ValueError PullRequestAuthor
unfolding validate_login
validate_author u author = do
  login ← validate_login u author.login
  positive author.user_id
  owner_aliases ← normalize_owner_aliases u author.owner_aliases
  ok (record author { login = login; owner_aliases = owner_aliases })

pub data ReviewState : Type 0 where
  approved changes_requested commented dismissed pending : ReviewState

-- `submitted_at` is an instant: aware datetimes are compared as instants, here in microseconds
pub record PullRequestReview : Type 0 where
  pub review_id : ℕ
  pub actor : ReviewActor
  pub state : ReviewState
  pub commit_sha : Option Str
  pub submitted_at : ℕ

unfoldable pub validate_commit_sha : Unicode → Option Str → Result ValueError (Option Str)
validate_commit_sha u none = ok none
validate_commit_sha u (some value) = do
  let sha = u.lower (strip value)
  refuse (sha == []) (text "review commit_sha must not be blank")
  ok (some sha)

unfoldable pub validate_review : Unicode → PullRequestReview → Result ValueError PullRequestReview
validate_review u review = do
  positive review.review_id
  actor ← validate_actor u review.actor
  commit_sha ← validate_commit_sha u review.commit_sha
  ok (record review { actor = actor; commit_sha = commit_sha })

pub record EvaluationOptions : Type 0 where
  pub exact_head_reviews : Bool
  pub allow_insecure_changes : Bool
  pub repository_policy_path : Str

-- character in "*?[]!"
unfoldable pub is_pattern_char : ℕ → Bool
is_pattern_char c = c == b'*' || c == b'?' || c == b'[' || c == b']' || c == b'!'

unfoldable pub validate_options : EvaluationOptions → Result ValueError EvaluationOptions
unfolding is_pattern_char
validate_options options = do
  let path = strip options.repository_policy_path
  refuse
      (path == []
        || starts_with slash path
        || contains path 0x5c
        || any is_dots (split slash path)
        || any is_pattern_char path)
      (text "repository_policy_path must be a literal relative POSIX path")
  ok (record options { repository_policy_path = path })

pub record EvaluationInput : Type 0 where
  pub head_sha : Str
  pub codeowners_text : Str
  pub changed_files : List ChangedFile
  pub reviews : List PullRequestReview
  pub author : Option PullRequestAuthor
  pub labels : List Str
  pub organization_policy : OrganizationPolicy
  pub repository_policy : RepositoryPolicy
  pub options : EvaluationOptions

-- the head, the files, the reviews and the author are validated, and the labels normalised; the
-- policies and the options are models already
unfoldable pub validate_head_sha : Unicode → Str → Result ValueError Str
validate_head_sha u value = do
  let sha = u.lower (strip value)
  refuse (sha == []) (text "head_sha must not be empty")
  ok sha

unfoldable pub validate_optional_author :
    Unicode → Option PullRequestAuthor → Result ValueError (Option PullRequestAuthor)
validate_optional_author u none = ok none
validate_optional_author u (some raw) = do author ← validate_author u raw; ok (some author)

unfoldable pub validate_input : Unicode → EvaluationInput → Result ValueError EvaluationInput
unfolding validate_head_sha validate_optional_author
validate_input u input = do
  head_sha ← validate_head_sha u input.head_sha
  changed_files ← traverse validate_changed_file input.changed_files
  reviews ← traverse (validate_review u) input.reviews
  author ← validate_optional_author u input.author
  labels ← traverse (normalize_label u) input.labels
  ok (record input {
    head_sha = head_sha;
    changed_files = changed_files;
    reviews = reviews;
    author = author;
    labels = unique labels;
  })
