-- ===== src/Evaluator/Evaluate.antt =====
-- `evaluate` of evaluator.py.
use extra_codeowners.Prelude.{
  ℕ, suc, zero, Bool, true, false, not, List, [], ◌∷◌, ◌++◌, if◌then◌else◌, Option, none, some, map,
  length, keep, contains, list_eq, nat_eq, sort, text_le, Dict, lookup, assign, Result, ok, err,
  traverse, ◌>>=◌,
}
use extra_codeowners.Text.{Str, text, decimal, Unicode}
use extra_codeowners.Models.Normalize.{ValueError}
use extra_codeowners.Models.Evidence.{PullRequestAuthor, EvaluationInput}
use extra_codeowners.Models.Results.{
  EvaluationMessage, EvaluationResult, OwnerSetResult, success, failure, EvaluationConclusion,
}
use extra_codeowners.Codeowners.Document.{CodeownersDocument, owners_for}
use extra_codeowners.Codeowners.Parser.{
  CodeownersIssue, render, ParseFailure, parse_error, uncaught, parse_codeowners,
}
use extra_codeowners.Policy.Decision.{CompiledPolicy}
use extra_codeowners.Policy.Compile
use extra_codeowners.Policy.Compile.{PolicyIssue, PolicyFailure, compilation_error, compile_policy}
use extra_codeowners.Evaluator.Reviews.{
  evaluation_paths, current_approvals, approval_warnings, recognized_apps, app_warnings,
  human_owner_identities, human_approvals_by_owner,
}
use extra_codeowners.Evaluator.Judgement.{Context, judge}

unfoldable pub error_result : List EvaluationMessage → EvaluationResult
error_result messages = record {
  conclusion = failure;
  summary = text "Extra CODEOWNERS could not evaluate safely; approval is denied.";
  requirements = [];
  errors = messages;
  warnings = [];
  unowned_paths = [];
}

unfoldable pub disabled_result : EvaluationResult
disabled_result = record {
  conclusion = failure;
  summary = text "Repository policy is missing or disabled; approval is denied.";
  requirements = [];
  errors =
      record {
        code = text "repository_policy_disabled";
        message =
            text "repository policy is missing or enabled=false; remove the required "
            ++ text "check from the ruleset before disabling Extra CODEOWNERS";
      }
      ∷ [];
  warnings = [];
  unowned_paths = [];
}

unfoldable pub insecure_warning : Bool → List EvaluationMessage
insecure_warning false = []
insecure_warning true =
    record {
      code = text "insecure_changes_enabled";
      message =
          text "the runtime allow-insecure-changes escape hatch disabled built-in "
          ++ text "non-delegable paths; organization-added paths remain enforced";
    }
    ∷ []

unfoldable pub author_identities_of : Unicode → Bool → Option PullRequestAuthor → List Str
author_identities_of u allowed none = []
author_identities_of u allowed (some author) =
    if allowed
    then human_owner_identities u author.login author.owner_aliases author.direct_owner_eligible
    else []

-- read only where `author_identities` is not empty, so never without an author
unfoldable pub login_of : Option PullRequestAuthor → Str
login_of none = []
login_of (some author) = author.login

unfoldable pub context_of : Unicode → EvaluationInput → CompiledPolicy → Context
unfolding author_identities_of login_of
context_of u input policy =
    let approvals = current_approvals input in
    record {
      policy = policy;
      labels = input.labels;
      human_approvals = human_approvals_by_owner u approvals;
      author_login = login_of input.author;
      author_identities =
          author_identities_of u input.repository_policy.allow_author_as_codeowner input.author;
      approved_apps = recognized_apps input.organization_policy approvals;
    }

abbrev pub OwnerPaths : Type 0
OwnerPaths = Dict (List Str) (List Str)

-- paths = owner_paths.setdefault(owners, []); if path not in paths: paths.append(path)
unfoldable pub with_path : Option (List Str) → Str → List Str
with_path none path = path ∷ []
with_path (some paths) path = if contains paths path then paths else paths ++ path ∷ []

pub record Grouped : Type 0 where
  pub owner_paths : OwnerPaths
  pub unowned_paths : List Str

unfoldable pub group_path : List Str → Str → Grouped → Grouped
unfolding with_path
group_path [] path grouped = record grouped { unowned_paths = grouped.unowned_paths ++ path ∷ [] }
group_path (owner ∷ owners) path grouped = record grouped {
  owner_paths =
      assign (owner ∷ owners) (with_path (lookup (owner ∷ owners) grouped.owner_paths) path)
        grouped.owner_paths;
}

-- the loop over the paths
unfoldable pub group_paths : CodeownersDocument → List Str → Grouped → Result ValueError Grouped
unfolding group_path
group_paths document [] grouped = ok grouped
group_paths document (path ∷ paths) grouped = do
  owners ← owners_for document path
  group_paths document paths (group_path (sort text_le owners) path grouped)

unfoldable pub count_failed : List OwnerSetResult → ℕ
count_failed requirements = length (keep (λ requirement. not requirement.satisfied) requirements)

unfoldable pub conclude : ℕ → List OwnerSetResult → EvaluationConclusion × Str
conclude (suc failed) requirements = (
  failure,
  decimal (suc failed)
      ++ (text " of "
          ++ (decimal (length requirements)
              ++ text " distinct CODEOWNER requirements are unsatisfied.")),
)
conclude zero [] = (success, text "No changed path has a CODEOWNER requirement.")
conclude zero (r ∷ requirements) = (
  success,
  text "All "
      ++ (decimal (length (r ∷ requirements))
          ++ text " distinct CODEOWNER requirements are satisfied."),
)

unfoldable pub result_of :
    List OwnerSetResult → List EvaluationMessage → List Str → EvaluationResult
unfolding conclude count_failed
result_of requirements warnings unowned_paths =
    let (conclusion, summary) = conclude (count_failed requirements) requirements in
    record {
      conclusion = conclusion;
      summary = summary;
      requirements = requirements;
      errors = [];
      warnings = warnings;
      unowned_paths = unowned_paths;
    }

-- the warnings in the order in which they are gathered
unfoldable pub warnings_of : EvaluationInput → List EvaluationMessage
unfolding insecure_warning
warnings_of input =
    insecure_warning input.options.allow_insecure_changes
    ++ (approval_warnings input ++ app_warnings input.organization_policy (current_approvals input))

-- `evaluate` behind the two compilations
unfoldable pub evaluate_compiled :
    Unicode
    → EvaluationInput
    → CodeownersDocument
    → CompiledPolicy
    → Result ValueError EvaluationResult
unfolding context_of group_paths result_of warnings_of
evaluate_compiled u input document policy = do
  grouped ←
      group_paths document (evaluation_paths input)
        (record { owner_paths = []; unowned_paths = [] })
  requirements ← traverse (judge (context_of u input policy)) grouped.owner_paths
  ok (result_of requirements (warnings_of input) grouped.unowned_paths)

unfoldable pub parse_message : CodeownersIssue → EvaluationMessage
parse_message issue = record { code = issue.code; message = render issue }

unfoldable pub policy_message : PolicyIssue → EvaluationMessage
policy_message issue = record { code = issue.code; message = issue.message }

unfoldable pub evaluate_policy :
    Unicode
    → EvaluationInput
    → CodeownersDocument
    → Result PolicyFailure CompiledPolicy
    → Result ValueError EvaluationResult
unfolding error_result evaluate_compiled
evaluate_policy u input document (ok policy) = evaluate_compiled u input document policy
evaluate_policy u input document (err (compilation_error issues)) =
    ok (error_result (map policy_message issues))
evaluate_policy u input document (err (Compile.uncaught error)) = err error

unfoldable pub evaluate_document :
    Unicode
    → EvaluationInput
    → Result ParseFailure CodeownersDocument
    → Result ValueError EvaluationResult
unfolding evaluate_policy
evaluate_document u input (ok document) =
    evaluate_policy u input document
      (compile_policy u input.organization_policy input.repository_policy input.options)
evaluate_document u input (err (parse_error issues)) = ok (error_result (map parse_message issues))
evaluate_document u input (err (uncaught error)) = err error

unfoldable pub evaluate : Unicode → EvaluationInput → Result ValueError EvaluationResult
unfolding evaluate_document disabled_result
evaluate u input =
    if not input.repository_policy.enabled
    then ok disabled_result
    else evaluate_document u input (parse_codeowners u input.codeowners_text)
