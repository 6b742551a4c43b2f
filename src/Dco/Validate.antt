-- ===== src/Dco/Validate.antt =====
-- The validators of the models of dco.py. A model is checked as a whole: the functions take the
-- arguments of its constructor as a record and return it or the message of the first validator
-- that fails.
use extra_codeowners.Prelude.{
  ℕ, Bool, true, false, not, ◌&&◌, ◌||◌, List, [], ◌∷◌, ◌++◌, ltb, leb, ◌==◌, nat_eq, list_eq,
  length, any, all, contains, unique, Option, none, some, Result, ok, ◌>>=◌, ◌>>◌, refuse,
}
use extra_codeowners.Text.{
  Str, text, slash, strip, split, decimal, utf8_length, is_surrogate, is_space, Unicode,
}
use extra_codeowners.Regex.{Regex, Class, among, exactly, one, many, seq, fullmatch}
use extra_codeowners.Models.Normalize.{ValueError, is_dots}
use extra_codeowners.Dco.{
  RepositoryIdentity, GitHubActor, GitHubUserIdentity, PullRequestSnapshot, PullCommit,
  PullCommitComparison, GitCommitIdentity, CommitVerification, CommitEvidence, DcoEvidenceInput,
  repository_eq,
}

-- a test that raises or does nothing
abbrev pub Validation : Type 0
Validation = Result ValueError (Unit {0})

abbrev pub max_pull_commits : ℕ
max_pull_commits = 250

abbrev pub max_commit_parents : ℕ
max_commit_parents = 64

-- [0-9a-f]
unfoldable pub is_hex : ℕ → Bool
is_hex c = leb b'0' c && leb c b'9' || leb b'a' c && leb c b'f'

-- _SHA_RE.fullmatch(s)
unfoldable pub is_sha : Str → Bool
unfolding all is_hex
is_sha s = length s == 40 && all is_hex s

unfoldable pub validate_sha : Str → Validation
unfolding is_sha
validate_sha value =
    refuse (not (is_sha value))
      (text "commit SHA must be exactly 40 lowercase hexadecimal characters")

unfoldable pub text_bytes : Str → Result ValueError ℕ
unfolding any is_surrogate utf8_length
text_bytes value = do
  refuse (any is_surrogate value) (text "text must be valid Unicode")
  ok (utf8_length value)

-- The two flags are forbid_controls, which is always set, and forbid_whitespace.
unfoldable pub validate_bounded_text : Unicode → Str → Str → ℕ → Bool → Validation
unfolding text_bytes any
validate_bounded_text u value field max_bytes forbid_whitespace = do
  refuse (value == []) (field ++ text " must not be empty")
  size ← text_bytes value
  refuse (ltb max_bytes size)
      (field ++ (text " exceeds the " ++ (decimal max_bytes ++ text "-byte limit")))
  refuse (any u.is_hidden value)
      (field ++ text " must not contain control or formatting characters")
  refuse (forbid_whitespace && any is_space value) (field ++ text " must not contain whitespace")

-- Field(gt=0), and StrictCommitCount
unfoldable pub validate_positive : ℕ → Validation
validate_positive n = refuse (n == 0) (text "Input should be greater than 0")

unfoldable pub validate_count : ℕ → Validation
unfolding validate_positive
validate_count n = do
  validate_positive n
  refuse (ltb max_pull_commits n) (text "Input should be less than or equal to 250")

-- Field(max_length=...)
unfoldable pub validate_length {ℓ} : {A : Type ℓ} → ℕ → List A → Validation
validate_length most xs = refuse (ltb most (length xs)) (text "Tuple should have fewer items")

-- [A-Za-z0-9_.-]
unfoldable pub is_name_char : ℕ → Bool
is_name_char c =
    leb b'A' c && leb c b'Z'
    || leb b'a' c && leb c b'z'
    || leb b'0' c && leb c b'9'
    || c == b'_'
    || c == b'.'
    || c == b'-'

abbrev pub name_char : Class
name_char = among is_name_char

-- _REPOSITORY_FULL_NAME_RE
unfoldable pub full_name_regex : Regex
full_name_regex =
    seq (one name_char)
      (seq (many name_char) (seq (one (exactly slash)) (seq (one name_char) (many name_char))))

unfoldable pub validate_full_name : Unicode → Str → Validation
unfolding validate_bounded_text full_name_regex is_name_char
validate_full_name u value = do
  validate_bounded_text u value (text "repository full_name") 512 true
  refuse (not (value == strip value) || not (fullmatch full_name_regex value))
      (text "repository full_name must be an exact owner/repository name")
  refuse (any is_dots (split slash value))
      (text "repository full_name must be an exact owner/repository name")

unfoldable pub validate_repository_identity :
    Unicode → RepositoryIdentity → Result ValueError RepositoryIdentity
unfolding validate_positive validate_full_name
validate_repository_identity u repository = do
  validate_positive repository.id
  validate_full_name u repository.full_name
  ok repository

unfoldable pub validate_github_actor : Unicode → GitHubActor → Result ValueError GitHubActor
unfolding validate_positive validate_bounded_text
validate_github_actor u actor = do
  validate_bounded_text u actor.login (text "actor login") 256 true
  validate_positive actor.id
  validate_bounded_text u actor.type (text "actor type") 64 true
  ok actor

unfoldable pub validate_user : Unicode → GitHubUserIdentity → Result ValueError GitHubUserIdentity
unfolding validate_positive validate_bounded_text
validate_user u user = do
  validate_bounded_text u user.login (text "user login") 256 true
  validate_positive user.id
  ok user

-- repository_identities_are_consistent
unfoldable pub validate_repositories : PullRequestSnapshot → Validation
validate_repositories pull = do
  refuse (not (pull.base_repository == pull.repository))
      (text "pull-request base repository must match the evaluated repository")
  refuse
      (pull.head_repository.id == pull.repository.id
        && not (pull.head_repository == pull.repository))
      (text "same-repository head identity is contradictory")
  refuse
      (not (pull.head_repository.id == pull.repository.id)
        && pull.head_repository.full_name == pull.repository.full_name)
      (text "fork head identity is contradictory")

-- The identities that the snapshot holds are validated where they are built.
unfoldable pub validate_pull : Unicode → PullRequestSnapshot → Result ValueError PullRequestSnapshot
unfolding validate_positive validate_bounded_text validate_sha validate_count validate_repositories
validate_pull u pull = do
  validate_positive pull.number
  validate_bounded_text u pull.base_ref (text "GitHub ref") 1024 true
  validate_sha pull.base_sha
  validate_bounded_text u pull.head_ref (text "GitHub ref") 1024 true
  validate_sha pull.head_sha
  validate_count pull.commit_count
  validate_repositories pull
  ok pull

unfoldable pub validate_pull_commit : Unicode → PullCommit → Result ValueError PullCommit
unfolding validate_sha validate_bounded_text
validate_pull_commit u commit = do
  validate_sha commit.sha
  validate_bounded_text u commit.node_id (text "pull-request commit node ID") 512 true
  ok commit

unfoldable pub validate_comparison : PullCommitComparison → Result ValueError PullCommitComparison
unfolding validate_positive validate_sha validate_count validate_length
validate_comparison comparison = do
  validate_positive comparison.pull_number
  validate_sha comparison.base_sha
  validate_sha comparison.head_sha
  validate_sha comparison.base_commit_sha
  validate_count comparison.total_commits
  validate_count comparison.ahead_by
  validate_length max_pull_commits comparison.commits
  ok comparison

-- one of the two fields
unfoldable pub validate_identity_text : Unicode → Str → Validation
unfolding validate_bounded_text contains
validate_identity_text u value = do
  validate_bounded_text u value (text "Git commit identity") 1024 false
  refuse (contains value b'<' || contains value b'>')
      (text "Git commit identity must not contain '<' or '>'")

unfoldable pub validate_identity : Unicode → GitCommitIdentity → Result ValueError GitCommitIdentity
unfolding validate_identity_text
validate_identity u identity = do
  validate_identity_text u identity.name
  validate_identity_text u identity.email
  ok identity

unfoldable pub validate_verified_at : Unicode → Option Str → Validation
unfolding validate_bounded_text
validate_verified_at u none = ok tt
validate_verified_at u (some []) = ok tt
validate_verified_at u (some (c ∷ s)) =
    validate_bounded_text u (c ∷ s) (text "verification timestamp") 128 true

unfoldable pub validate_verification :
    Unicode → CommitVerification → Result ValueError CommitVerification
unfolding validate_bounded_text validate_verified_at
validate_verification u verification = do
  validate_bounded_text u verification.state (text "signature state") 128 true
  validate_verified_at u verification.verified_at
  ok verification

unfoldable pub validate_parents : List Str → Validation
unfolding unique any is_sha validate_length
validate_parents parents = do
  validate_length max_commit_parents parents
  refuse (not (length (unique parents) == length parents)) (text "commit parents must be unique")
  refuse (any (λ parent. not (is_sha parent)) parents)
      (text "parent SHA must be exactly 40 lowercase hexadecimal characters")

unfoldable pub validate_commit : CommitEvidence → Result ValueError CommitEvidence
unfolding validate_sha validate_parents
validate_commit commit = do validate_sha commit.sha; validate_parents commit.parents; ok commit

unfoldable pub validate_evidence : DcoEvidenceInput → Result ValueError DcoEvidenceInput
unfolding validate_length
validate_evidence evidence = do validate_length max_pull_commits evidence.commits; ok evidence
