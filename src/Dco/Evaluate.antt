-- ===== src/Dco/Evaluate.antt =====
-- evaluate_dco of dco.py and its helpers.
use extra_codeowners.Prelude.{
  ℕ, Bool, true, false, not, ◌&&◌, ◌||◌, List, [], ◌∷◌, ltb, ◌==◌, nat_eq, list_eq, option_eq,
  if◌then◌else◌, Option, none, some, any, length, unique, Result, ok, err, ◌>>=◌, ◌>>◌, refuse,
  traverse,
}
use extra_codeowners.Text.{Str, text, is_prefix}
use extra_codeowners.Dco.{
  opened, PullRequestSnapshot, PullCommit, PullCommitComparison, CommitVerification, CommitEvidence,
  DcoEvidenceInput, DcoCommitOutcome, author_signoff, official_dependabot, missing_signoff,
  DcoFailure, pull_request_not_open, pull_request_changed, comparison_mismatch,
  commit_count_mismatch, duplicate_commit, head_mismatch, commit_order_mismatch, signoff_is_missing,
  DcoCommitResult, DcoEvaluationResult, DcoError, value_error, repository_eq, user_eq, identity_eq,
  pull_eq, state_eq,
}
use extra_codeowners.Dco.Validate.{
  Validation, max_pull_commits, validate_sha, validate_positive, validate_length,
}
use extra_codeowners.Dco.Order.{pull_shas, last, commit_order_is_valid, is_some}

abbrev pub dependabot_login : Str
dependabot_login = text "dependabot[bot]"

abbrev pub dependabot_id : ℕ
dependabot_id = 49699333

abbrev pub dependabot_email : Str
dependabot_email = text "49699333+dependabot[bot]@users.noreply.github.com"

abbrev pub dependabot_committer_id : ℕ
dependabot_committer_id = 19864447

unfoldable pub is_missing : DcoCommitOutcome → Bool
is_missing author_signoff = false
is_missing official_dependabot = false
is_missing missing_signoff = true

-- a ValueError of a validator
unfoldable pub checked {ℓ} : {A : Type ℓ} → Result Str A → Result DcoError A
checked (ok a) = ok a
checked (err message) = err (value_error message)

-- DcoCommitResult(...)
unfoldable pub new_commit_result : Str → DcoCommitOutcome → Result DcoError DcoCommitResult
unfolding validate_sha checked
new_commit_result sha outcome = do
  checked (validate_sha sha)
  ok (record { sha = sha; outcome = outcome })

-- result_is_consistent
unfoldable pub validate_consistency : DcoEvaluationResult → Validation
unfolding is_some any is_missing
validate_consistency result = do
  refuse
      (result.passed && is_some result.failure || not result.passed && not (is_some result.failure))
      (text "a passing result cannot have a failure reason")
  refuse (result.passed && any (λ commit. is_missing commit.outcome) result.commits)
      (text "a passing result cannot contain a missing sign-off")

-- DcoEvaluationResult(...)
unfoldable pub new_evaluation_result : DcoEvaluationResult → Result DcoError DcoEvaluationResult
unfolding validate_positive validate_sha validate_length validate_consistency checked
new_evaluation_result result = do
  checked (validate_positive result.pull_number)
  checked (validate_sha result.base_sha)
  checked (validate_sha result.head_sha)
  checked (validate_length max_pull_commits result.commits)
  checked (validate_consistency result)
  ok result

-- the result that names the pull request of the event
unfoldable pub dco_result :
    PullRequestSnapshot → Option DcoFailure → List DcoCommitResult → DcoEvaluationResult
unfolding is_some
dco_result pull failure commits = record {
  passed = not (is_some failure);
  repository = pull.repository;
  pull_number = pull.number;
  base_sha = pull.base_sha;
  head_sha = pull.head_sha;
  failure = failure;
  commits = commits;
}

-- _failed
unfoldable pub failed :
    DcoEvidenceInput → DcoFailure → List DcoCommitResult → Result DcoError DcoEvaluationResult
unfolding new_evaluation_result dco_result
failed evidence failure commits =
    new_evaluation_result (dco_result evidence.event (some failure) commits)

unfoldable pub is_official_dependabot_pull : PullRequestSnapshot → Bool
unfolding is_prefix
is_official_dependabot_pull pull =
    pull.author.login == dependabot_login
    && pull.author.id == dependabot_id
    && pull.author.type == text "Bot"
    && pull.base_repository.id == pull.repository.id
    && pull.head_repository.id == pull.repository.id
    && is_prefix (text "dependabot/") pull.head_ref
    && pull.commit_count == 1

-- verified_at is not None and len(verified_at) > 0
unfoldable pub is_dated : Option Str → Bool
is_dated none = false
is_dated (some at) = ltb 0 (length at)

-- the part of the next test that reads the signature
unfoldable pub is_github_signature : CommitVerification → Bool
unfolding is_dated
is_github_signature verification =
    verification.is_valid
    && verification.state == text "VALID"
    && is_dated verification.verified_at
    && verification.was_signed_by_github
    && verification.signer
      == some (record { login = text "web-flow"; id = dependabot_committer_id })

unfoldable pub is_official_dependabot_commit : CommitEvidence → PullRequestSnapshot → Bool
unfolding is_github_signature
is_official_dependabot_commit commit pull = elim commit.verification [
  | none ↦ false
  | some verification ↦
      commit.sha == pull.head_sha
      && commit.parents == pull.base_sha ∷ []
      && commit.github_author == some (record { login = dependabot_login; id = dependabot_id })
      && commit.author == record { name = dependabot_login; email = dependabot_email }
      && commit.committer == record { name = text "GitHub"; email = text "noreply@github.com" }
      && is_github_signature verification
      && commit.dependabot_signoff_present
]

unfoldable pub outcome_of : Bool → PullRequestSnapshot → CommitEvidence → DcoCommitOutcome
unfolding is_official_dependabot_commit
outcome_of official_dependabot_pull pull commit =
    if commit.author_signoff_present
    then author_signoff
    else if official_dependabot_pull && is_official_dependabot_commit commit pull
    then official_dependabot
    else missing_signoff

unfoldable pub is_of_pull : PullCommitComparison → PullRequestSnapshot → Bool
is_of_pull comparison pull =
    comparison.repository == pull.repository
    && comparison.pull_number == pull.number
    && comparison.base_sha == pull.base_sha
    && comparison.head_sha == pull.head_sha
    && comparison.base_commit_sha == pull.base_sha

unfoldable pub has_count : DcoEvidenceInput → ℕ → Bool
has_count evidence expected_count =
    evidence.comparison.total_commits == expected_count
    && evidence.comparison.ahead_by == expected_count
    && length evidence.comparison.commits == expected_count
    && length evidence.commits == expected_count

-- the last two of the tests below
unfoldable pub head_failure :
    PullRequestSnapshot
    → List PullCommit
    → List CommitEvidence
    → Str
    → Result DcoError (Option DcoFailure)
unfolding commit_order_is_valid
head_failure pull pull_commits commits head =
    if not (head == pull.head_sha)
    then ok (some head_mismatch)
    else (commit_order_is_valid pull_commits commits >>= λ valid.
        ok (if valid then none else some commit_order_mismatch))

-- the tests before the commits, in the order of the source: the first that fails
unfoldable pub first_failure : DcoEvidenceInput → Result DcoError (Option DcoFailure)
unfolding is_of_pull has_count unique last head_failure
first_failure evidence =
    let pull = evidence.event in
    let ordered_shas = pull_shas evidence.comparison.commits in
    if not (pull.state == opened)
    then ok (some pull_request_not_open)
    else if not (evidence.before == pull) || not (evidence.after == pull)
    then ok (some pull_request_changed)
    else if not (is_of_pull evidence.comparison pull)
    then ok (some comparison_mismatch)
    else if not (has_count evidence pull.commit_count)
    then ok (some commit_count_mismatch)
    else if not (length (unique ordered_shas) == length ordered_shas)
    then ok (some duplicate_commit)
    else (last ordered_shas >>= head_failure pull evidence.comparison.commits evidence.commits)

-- the loop over the commits, and the two results behind it
unfoldable pub judge_commits : DcoEvidenceInput → Result DcoError DcoEvaluationResult
unfolding is_official_dependabot_pull outcome_of new_commit_result traverse any is_missing failed
    new_evaluation_result dco_result
judge_commits evidence = do
  let pull = evidence.event
  let official = is_official_dependabot_pull pull
  results ← traverse (λ c. new_commit_result c.sha (outcome_of official pull c)) evidence.commits
  if any (λ result. is_missing result.outcome) results
      then failed evidence signoff_is_missing results
      else new_evaluation_result (dco_result pull none results)

unfoldable pub or_fail : DcoEvidenceInput → Option DcoFailure → Result DcoError DcoEvaluationResult
unfolding failed judge_commits
or_fail evidence (some failure) = failed evidence failure []
or_fail evidence none = judge_commits evidence

unfoldable pub evaluate_dco : DcoEvidenceInput → Result DcoError DcoEvaluationResult
unfolding first_failure or_fail
evaluate_dco evidence = first_failure evidence >>= or_fail evidence
