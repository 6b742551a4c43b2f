-- ===== src/Examples/Dco.antt =====
-- dco.py at a pull request with two commits.
use extra_codeowners.Prelude.{
  ℕ, Bool, true, false, List, [], ◌∷◌, ◌≡◌, refl, ◌↔◌, ◌⊎◌, Option, none, some, Result, ok, err,
  any, length, traverse,
}
use extra_codeowners.Text.{Str, text}
use extra_codeowners.Json.{
  boolean, natural, string, array, object, no_items, item, Fields, no_fields, field,
}
use extra_codeowners.Examples.Parsing.{ascii}
use extra_codeowners.Dco.{
  RepositoryIdentity, GitHubActor, PullState, opened, PullRequestSnapshot, PullCommit,
  PullCommitComparison, GitCommitIdentity, CommitEvidence, DcoEvidenceInput, DcoEvaluationResult,
}
use extra_codeowners.Dco.Validate.{validate_commit}
use extra_codeowners.Dco.Order.{pull_shas, commit_shas, commit_order_is_valid}
use extra_codeowners.Dco.Evaluate.{evaluate_dco}
use extra_codeowners.Dco.Ordered.{InOrder, commit_order_is_valid-InOrder}
use extra_codeowners.Dco.Correct.{IsValidated, IsBoundTo, IsSigned, outcomes, evaluate_dco-IsSigned}
use extra_codeowners.Dco.Exceptions.{IsDependabots, unsigned-IsDependabots}
use extra_codeowners.Dco.Named.{Explains, evaluate_dco-Explains}
use extra_codeowners.Dco.Message.{
  IsMessage, commit_from_graphql, HasLine, commit_from_graphql-IsRead,
}
use mathlib.Core.List.Memᴰ

abbrev base_sha : Str
base_sha = text "bbbbbbbbbbbbbbbbbbbbbbbbbbbbbbbbbbbbbbbb"

abbrev first_sha : Str
first_sha = text "aaaaaaaaaaaaaaaaaaaaaaaaaaaaaaaaaaaaaaaa"

abbrev head_sha : Str
head_sha = text "cccccccccccccccccccccccccccccccccccccccc"

abbrev ours : RepositoryIdentity
ours = record { id = 7; full_name = text "o/r" }

abbrev pull : PullRequestSnapshot
pull = record {
  number = 3;
  state = opened;
  repository = ours;
  base_repository = ours;
  base_ref = text "main";
  base_sha = base_sha;
  head_repository = ours;
  head_ref = text "topic";
  head_sha = head_sha;
  author = record { login = text "ann"; id = 5; type = text "User" };
  commit_count = 2;
}

abbrev ann : GitCommitIdentity
ann = record { name = text "Ann"; email = text "a@x" }

abbrev commit : Str → Str → CommitEvidence
commit sha parent = record {
  sha = sha;
  parents = parent ∷ [];
  author = ann;
  committer = ann;
  author_signoff_present = true;
  dependabot_signoff_present = false;
  github_author = none;
  verification = none;
}

abbrev pull_commits : List PullCommit
pull_commits =
    record { sha = first_sha; node_id = text "n1" }
    ∷ record { sha = head_sha; node_id = text "n2" }
    ∷ []

abbrev commits : List CommitEvidence
commits = commit first_sha base_sha ∷ commit head_sha first_sha ∷ []

abbrev evidence : DcoEvidenceInput
evidence = record {
  event = pull;
  before = pull;
  after = pull;
  comparison = record {
    repository = ours;
    pull_number = 3;
    base_sha = base_sha;
    head_sha = head_sha;
    base_commit_sha = base_sha;
    total_commits = 2;
    ahead_by = 2;
    commits = pull_commits;
  };
  commits = commits;
}

evidence-IsValidated : IsValidated ascii evidence
unfolding extra_codeowners.Dco.Validate.validate_pull extra_codeowners.Prelude.list_beq text
    extra_codeowners.Text.is_space traverse validate_commit
    extra_codeowners.Dco.Validate.validate_evidence
evidence-IsValidated = record { event = refl; commits = refl; size = refl }

abbrev result : DcoEvaluationResult
result = record {
  passed = true;
  repository = ours;
  pull_number = 3;
  base_sha = base_sha;
  head_sha = head_sha;
  failure = none;
  commits = outcomes evidence;
}

evaluate_dco-evidence : evaluate_dco evidence ≡ ok result
unfolding evaluate_dco extra_codeowners.Prelude.list_beq text
evaluate_dco-evidence = refl

evaluate_dco-IsSigned_example :
    (r : DcoEvaluationResult) × (evaluate_dco evidence ≡ ok r)
    × IsBoundTo r pull
    × ((r.passed ≡ true) ↔ IsSigned evidence)
evaluate_dco-IsSigned_example = evaluate_dco-IsSigned ascii evidence evidence-IsValidated

unsigned-IsDependabots_example :
    ((commit first_sha base_sha).author_signoff_present ≡ true)
    ⊎ IsDependabots evidence (commit first_sha base_sha)
unsigned-IsDependabots_example =
    unsigned-IsDependabots ascii evidence result (commit first_sha base_sha) evidence-IsValidated
      evaluate_dco-evidence refl (Memᴰ.head refl)

evaluate_dco-Explains_example :
    (r : DcoEvaluationResult) × (evaluate_dco evidence ≡ ok r)
    × ((r.passed ≡ true) ↔ (r.failure ≡ none))
    × Explains evidence r
evaluate_dco-Explains_example = evaluate_dco-Explains ascii evidence evidence-IsValidated

commit_order_is_valid-InOrder_example :
    (b : Bool) × (commit_order_is_valid pull_commits commits ≡ ok b)
    × ((b ≡ true) ↔ InOrder pull_commits commits head_sha)
unfolding extra_codeowners.Prelude.contains extra_codeowners.Prelude.list_beq text
    extra_codeowners.Dco.Order.last
commit_order_is_valid-InOrder_example =
    commit_order_is_valid-InOrder pull_commits commits head_sha refl (refl, (refl, tt)) refl

abbrev author_payload : Fields
author_payload =
    field (text "name") (string (text "Ann")) (field (text "email") (string (text "a@x")) no_fields)

abbrev parents_payload : Fields
parents_payload = field (text "totalCount") (natural 1) (
    field (text "nodes")
      (array (item (object (field (text "oid") (string base_sha) no_fields)) no_items))
      (field (text "pageInfo") (object (field (text "hasNextPage") (boolean false) no_fields))
        no_fields))

abbrev payload : Fields
payload = field (text "author") (object author_payload) (
    field (text "committer") (object author_payload) (
      field (text "message") (string (text "x\n\nSigned-off-by: Ann <a@x>")) (
        field (text "parents") (object parents_payload)
          (field (text "oid") (string first_sha) no_fields))))

commit_from_graphql-payload :
    commit_from_graphql (λ s. s) ascii payload ≡ ok (commit first_sha base_sha)
unfolding commit_from_graphql extra_codeowners.Prelude.list_beq text
commit_from_graphql-payload = refl

commit_from_graphql-IsRead_example :
    (message : Str) × IsMessage payload message
    × (((commit first_sha base_sha).author_signoff_present ≡ true) ↔ HasLine (λ s. s) ann message)
    × (validate_commit (commit first_sha base_sha) ≡ ok (commit first_sha base_sha))
commit_from_graphql-IsRead_example =
    commit_from_graphql-IsRead (λ s. s) ascii payload (commit first_sha base_sha)
      commit_from_graphql-payload
