-- ===== src/Dco.antt =====
-- The evidence and the result of a Developer Certificate of Origin check, from dco.py. The records
-- hold the fields; the validators of the models are in `Dco.Validate`.
pub mod Validate
pub mod Order
pub mod Evaluate
pub mod Walk
pub mod Positions
pub mod Ordered
pub mod Failures
pub mod Correct
pub mod Exceptions
pub mod Named
pub mod Read
pub mod Message
use extra_codeowners.Prelude.{
  ℕ, Bool, true, false, ◌&&◌, List, ◌==◌, nat_eq, list_eq, list_beq_iff, Option, Equality, ◌≡◌, ◌↔◌,
  arith,
}
use extra_codeowners.Text.{Str}

pub record RepositoryIdentity : Type 0 where
  pub id : ℕ
  pub full_name : Str

pub record GitHubActor : Type 0 where
  pub login : Str
  pub id : ℕ
  pub type : Str

pub record GitHubUserIdentity : Type 0 where
  pub login : Str
  pub id : ℕ

pub data PullState : Type 0 where
  opened closed : PullState

pub record PullRequestSnapshot : Type 0 where
  pub number : ℕ
  pub state : PullState
  pub repository : RepositoryIdentity
  pub base_repository : RepositoryIdentity
  pub base_ref : Str
  pub base_sha : Str
  pub head_repository : RepositoryIdentity
  pub head_ref : Str
  pub head_sha : Str
  pub author : GitHubActor
  pub commit_count : ℕ

pub record PullCommit : Type 0 where
  pub sha : Str
  pub node_id : Str

pub record PullCommitComparison : Type 0 where
  pub repository : RepositoryIdentity
  pub pull_number : ℕ
  pub base_sha : Str
  pub head_sha : Str
  pub base_commit_sha : Str
  pub total_commits : ℕ
  pub ahead_by : ℕ
  pub commits : List PullCommit

pub record GitCommitIdentity : Type 0 where
  pub name : Str
  pub email : Str

pub record CommitVerification : Type 0 where
  pub is_valid : Bool
  pub state : Str
  pub verified_at : Option Str
  pub was_signed_by_github : Bool
  pub signer : Option GitHubUserIdentity

pub record CommitEvidence : Type 0 where
  pub sha : Str
  pub parents : List Str
  pub author : GitCommitIdentity
  pub committer : GitCommitIdentity
  pub author_signoff_present : Bool
  pub dependabot_signoff_present : Bool
  pub github_author : Option GitHubUserIdentity
  pub verification : Option CommitVerification

pub record DcoEvidenceInput : Type 0 where
  pub event : PullRequestSnapshot
  pub before : PullRequestSnapshot
  pub after : PullRequestSnapshot
  pub comparison : PullCommitComparison
  pub commits : List CommitEvidence

pub data DcoCommitOutcome : Type 0 where
  author_signoff official_dependabot missing_signoff : DcoCommitOutcome

pub data DcoFailure : Type 0 where
  pull_request_not_open pull_request_changed comparison_mismatch commit_count_mismatch : DcoFailure
  duplicate_commit head_mismatch commit_order_mismatch signoff_is_missing : DcoFailure

pub record DcoCommitResult : Type 0 where
  pub sha : Str
  pub outcome : DcoCommitOutcome

pub record DcoEvaluationResult : Type 0 where
  pub passed : Bool
  pub repository : RepositoryIdentity
  pub pull_number : ℕ
  pub base_sha : Str
  pub head_sha : Str
  pub failure : Option DcoFailure
  pub commits : List DcoCommitResult

-- What may be raised: a validator's message, an index or a key that is not there. The last one
-- stands for the model's loop that is given too little fuel.
pub data DcoError : Type 0 where
  value_error : Str → DcoError
  index_error key_error out_of_fuel : DcoError

-- The models compare by their fields.
abbrev pub repository_beq : RepositoryIdentity → RepositoryIdentity → Bool
repository_beq a b = a.id == b.id && a.full_name == b.full_name

pub repository_beq_iff : (a b : RepositoryIdentity) → (repository_beq a b ≡ true) ↔ (a ≡ b)
repository_beq_iff a b =
    let names = list_beq_iff a.full_name b.full_name in (λ h. ground arith, λ h. ground arith)

instance abbrev pub repository_eq : Equality RepositoryIdentity
repository_eq = record { equals = repository_beq; equals_iff = repository_beq_iff }

abbrev pub actor_beq : GitHubActor → GitHubActor → Bool
actor_beq a b = a.login == b.login && (a.id == b.id && a.type == b.type)

pub actor_beq_iff : (a b : GitHubActor) → (actor_beq a b ≡ true) ↔ (a ≡ b)
actor_beq_iff a b =
    let logins = list_beq_iff a.login b.login in
    let types = list_beq_iff a.type b.type in (λ h. ground arith, λ h. ground arith)

instance abbrev pub actor_eq : Equality GitHubActor
actor_eq = record { equals = actor_beq; equals_iff = actor_beq_iff }

abbrev pub user_beq : GitHubUserIdentity → GitHubUserIdentity → Bool
user_beq a b = a.login == b.login && a.id == b.id

pub user_beq_iff : (a b : GitHubUserIdentity) → (user_beq a b ≡ true) ↔ (a ≡ b)
user_beq_iff a b =
    let logins = list_beq_iff a.login b.login in (λ h. ground arith, λ h. ground arith)

instance abbrev pub user_eq : Equality GitHubUserIdentity
user_eq = record { equals = user_beq; equals_iff = user_beq_iff }

abbrev pub identity_beq : GitCommitIdentity → GitCommitIdentity → Bool
identity_beq a b = a.name == b.name && a.email == b.email

pub identity_beq_iff : (a b : GitCommitIdentity) → (identity_beq a b ≡ true) ↔ (a ≡ b)
identity_beq_iff a b =
    let names = list_beq_iff a.name b.name in
    let emails = list_beq_iff a.email b.email in (λ h. ground arith, λ h. ground arith)

instance abbrev pub identity_eq : Equality GitCommitIdentity
identity_eq = record { equals = identity_beq; equals_iff = identity_beq_iff }

abbrev pub state_beq : PullState → PullState → Bool
state_beq opened opened = true
state_beq closed closed = true
state_beq _ _ = false

pub state_beq_iff : (a b : PullState) → (state_beq a b ≡ true) ↔ (a ≡ b)
state_beq_iff opened opened = ground arith
state_beq_iff opened closed = ground arith
state_beq_iff closed opened = ground arith
state_beq_iff closed closed = ground arith

instance abbrev pub state_eq : Equality PullState
state_eq = record { equals = state_beq; equals_iff = state_beq_iff }

-- the fields before and behind the author, in two halves
abbrev pub place_beq : PullRequestSnapshot → PullRequestSnapshot → Bool
place_beq a b =
    a.number == b.number
    && (a.state == b.state
        && (a.repository == b.repository
            && (a.base_repository == b.base_repository && a.base_ref == b.base_ref)))

abbrev pub change_beq : PullRequestSnapshot → PullRequestSnapshot → Bool
change_beq a b =
    a.base_sha == b.base_sha
    && (a.head_repository == b.head_repository
        && (a.head_ref == b.head_ref
            && (a.head_sha == b.head_sha
                && (a.author == b.author && a.commit_count == b.commit_count))))

abbrev pub pull_beq : PullRequestSnapshot → PullRequestSnapshot → Bool
pull_beq a b = place_beq a b && change_beq a b

pub pull_beq_iff : (a b : PullRequestSnapshot) → (pull_beq a b ≡ true) ↔ (a ≡ b)
pull_beq_iff a b =
    let states = state_beq_iff a.state b.state in
    let repositories = repository_beq_iff a.repository b.repository in
    let bases = repository_beq_iff a.base_repository b.base_repository in
    let base_refs = list_beq_iff a.base_ref b.base_ref in
    let base_shas = list_beq_iff a.base_sha b.base_sha in
    let heads = repository_beq_iff a.head_repository b.head_repository in
    let head_refs = list_beq_iff a.head_ref b.head_ref in
    let head_shas = list_beq_iff a.head_sha b.head_sha in
    let authors = actor_beq_iff a.author b.author in (λ h. ground arith, λ h. ground arith)

instance abbrev pub pull_eq : Equality PullRequestSnapshot
pull_eq = record { equals = pull_beq; equals_iff = pull_beq_iff }
