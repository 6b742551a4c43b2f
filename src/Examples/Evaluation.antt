-- ===== src/Examples/Evaluation.antt =====
-- A pull request that an application approves.
use extra_codeowners.Prelude
use extra_codeowners.Prelude.{
  ℕ, Bool, true, false, not, all, any, contains, List, [], ◌∷◌, ◌++◌, ◌≡◌, ◌∙◌, list_eq, nat_eq,
  refl, arith, Option, none, some, Result, ok, err, is_ok, ◌⊎◌,
}
use extra_codeowners.Text
use extra_codeowners.Text.{Str, text, slash}
use extra_codeowners.Regex
use extra_codeowners.Models.Normalize
use extra_codeowners.Models.Normalize.{ValueError}
use extra_codeowners.Models.Paths.{IsNormalized}
use extra_codeowners.Models.Policies.{Delegation, RepositoryPolicy}
use extra_codeowners.Models.Evidence.{
  modified, PullRequestReview, approved, EvaluationOptions, EvaluationInput,
}
use extra_codeowners.Models.Results.{EvaluationResult, passed}
use extra_codeowners.Codeowners
use extra_codeowners.Codeowners.Document.{CodeownersDocument}
use extra_codeowners.Codeowners.Literal.{HasNoNewline}
use extra_codeowners.Codeowners.Parser.{ParseFailure, parse_codeowners}
use extra_codeowners.Policy.Decision.{CompiledPolicy, is_non_delegable}
use extra_codeowners.Policy.Compile.{PolicyFailure, compile_policy}
use extra_codeowners.Policy.Coverage.{delegation_covers, any-delegation_decisions}
use extra_codeowners.Policy.Decision.{DelegationDecision, delegation_decisions}
use extra_codeowners.Policy.Coalesce.{accepts}
use extra_codeowners.Policy.Enrollment.{Compiles, compile_policy-Compiles}
use extra_codeowners.Policy.Guardrails.{workflows, builtin_guardrail}
use extra_codeowners.Evaluator.Reviews.{all_paths}
use extra_codeowners.Evaluator.Judgement.{Context, judge}
use extra_codeowners.Evaluator.Evaluate.{context_of, evaluate}
use extra_codeowners.Evaluator.Coverage.{is_covered, AllNormalized}
use extra_codeowners.Evaluator.Judged.{ReturnsSatisfied, judge-satisfied}
use extra_codeowners.Evaluator.Grouping.{is_path_covered}
use extra_codeowners.Evaluator.Correct.{Decides, evaluate-Decides}
use extra_codeowners.Evaluator.Total.{evaluate-Returns, IsUnencodable}
use extra_codeowners.Evaluator.FailClosed.{IsReadable, passed-IsReadable}
use extra_codeowners.Examples.Parsing.{ascii, owners_file, bot_organization, bot}

abbrev changed : Str
changed = text "a/b"

abbrev delegation : Delegation
delegation = record {
  app = text "b";
  paths = text "/a/" ∷ [];
  for_owners = text "@x" ∷ [];
  required_labels = [];
  forbidden_labels = [];
}

abbrev repository : RepositoryPolicy
repository = record {
  enabled = true;
  allow_author_as_codeowner = false;
  allow_delegation_for_policy_file = false;
  delegations = delegation ∷ [];
}

abbrev options : EvaluationOptions
options = record {
  exact_head_reviews = true;
  allow_insecure_changes = false;
  repository_policy_path = text "p";
}

abbrev approval : PullRequestReview
approval = record {
  review_id = 1;
  actor = bot;
  state = approved;
  commit_sha = some (text "c");
  submitted_at = 10;
}

abbrev input : EvaluationInput
input = record {
  head_sha = text "c";
  codeowners_text = owners_file;
  changed_files = record { path = changed; status = modified; previous_path = none } ∷ [];
  reviews = approval ∷ [];
  author = none;
  labels = [];
  organization_policy = bot_organization;
  repository_policy = repository;
  options = options;
}

from_result {ℓ} : {E A : Type ℓ} → A → Result E A → A
from_result a (ok b) = b
from_result a (err e) = a

from_result-ok {ℓ} :
    {E A : Type ℓ} (a : A) (r : Result E A) → is_ok r ≡ true → r ≡ ok (from_result a r)
unfolding from_result
from_result-ok a (ok b) h = refl
from_result-ok a (err e) h = absurd (ground arith)

abbrev document : CodeownersDocument
document = from_result (record { rules = [] }) (parse_codeowners ascii owners_file)

abbrev nothing : CompiledPolicy
nothing = record {
  repository = repository;
  organization = bot_organization;
  delegations = [];
  non_delegable_patterns = [];
  non_delegable_regexes = [];
}

abbrev policy : CompiledPolicy
policy = from_result nothing (compile_policy ascii bot_organization repository options)

parses : is_ok (parse_codeowners ascii owners_file) ≡ true
unfolding text parse_codeowners Text.utf8_length Text.split_lines
    extra_codeowners.Codeowners.Parser.parse_line Prelude.list_beq Text.strip
    extra_codeowners.Codeowners.Pattern.validate_pattern Text.split Normalize.is_dots
    Normalize.normalize_owner Regex.fullmatch Normalize.owner_regex Regex.in_class
    extra_codeowners.Codeowners.Document.new_rule
parses = refl

parsed : parse_codeowners ascii owners_file ≡ ok document
parsed = from_result-ok (record { rules = [] }) (parse_codeowners ascii owners_file) parses

compiles : is_ok (compile_policy ascii bot_organization repository options) ≡ true
unfolding text compile_policy Prelude.lookup Prelude.list_beq
    extra_codeowners.Policy.Decision.is_nil extra_codeowners.Codeowners.Pattern.validate_pattern
    Text.split Normalize.is_dots extra_codeowners.Policy.Decision.new_delegation Prelude.traverse
    extra_codeowners.Codeowners.Pattern.compile_pattern
    extra_codeowners.Policy.Compile.builtin_non_delegable_paths
compiles = refl

compiled : compile_policy ascii bot_organization repository options ≡ ok policy
compiled =
    from_result-ok nothing (compile_policy ascii bot_organization repository options) compiles

changed-IsNormalized : IsNormalized changed
unfolding text Normalize.normalize_repository_path Prelude.list_beq Text.strip Text.starts_with
    Text.split
changed-IsNormalized = refl

input-AllNormalized : AllNormalized (all_paths input.changed_files)
unfolding all_paths AllNormalized
input-AllNormalized = (changed-IsNormalized, tt)

evaluate-Decides_example : Decides ascii input document policy
evaluate-Decides_example =
    evaluate-Decides ascii input document policy input-AllNormalized refl parsed compiled

-- what `evaluate` returned in that run
abbrev verdict : EvaluationResult
verdict = (evaluate-Decides ascii input document policy input-AllNormalized refl parsed compiled).0

changed_is_covered :
    all (is_path_covered (context_of ascii input policy) document) (all_paths input.changed_files)
    ≡ true
unfolding text all_paths from_result is_path_covered is_covered all
    extra_codeowners.Policy.Decision.is_nil extra_codeowners.Evaluator.Grouping.owners_at
    extra_codeowners.Codeowners.Document.owners_of extra_codeowners.Codeowners.Document.last_match
    parse_codeowners Text.utf8_length Text.split_lines extra_codeowners.Codeowners.Parser.parse_line
    Prelude.list_beq Text.strip extra_codeowners.Codeowners.Pattern.validate_pattern Text.split
    Normalize.is_dots Normalize.normalize_owner Regex.fullmatch Normalize.owner_regex
    extra_codeowners.Codeowners.Document.matches_normalized
    extra_codeowners.Codeowners.Document.new_rule extra_codeowners.Codeowners.Parser.add_line
    extra_codeowners.Codeowners.Parser.add_owner extra_codeowners.Codeowners.Parser.before_comment
    extra_codeowners.Codeowners.Parser.finish extra_codeowners.Codeowners.Parser.flush
    extra_codeowners.Codeowners.Parser.owner_code Prelude.sort Prelude.values Prelude.lookup
    Prelude.assign compile_policy extra_codeowners.Policy.Decision.new_delegation Prelude.traverse
    extra_codeowners.Policy.Compile.builtin_non_delegable_paths
    extra_codeowners.Evaluator.Reviews.recognized_apps Text.drop_while_end Text.ends_with
    Text.includes Text.is_space Text.remove_prefix Text.starts_with context_of
    extra_codeowners.Evaluator.Reviews.current_approvals
    extra_codeowners.Evaluator.Reviews.human_approvals_by_owner
    extra_codeowners.Evaluator.Reviews.latest_opinionated_reviews
    extra_codeowners.Codeowners.Parser.parse_lines extra_codeowners.Codeowners.Parser.parse_owners
    extra_codeowners.Codeowners.Parser.parse_rule
    extra_codeowners.Codeowners.Parser.parse_rule_owners
    extra_codeowners.Codeowners.Parser.parse_tokens extra_codeowners.Codeowners.Parser.split_line
    extra_codeowners.Codeowners.Parser.split_line_from extra_codeowners.Codeowners.Parser.too_large
    extra_codeowners.Codeowners.Pattern.body_of_value
    extra_codeowners.Codeowners.Pattern.compile_pattern
    extra_codeowners.Codeowners.Pattern.last_segment
    extra_codeowners.Codeowners.Pattern.regex_of_value
    extra_codeowners.Codeowners.Pattern.strip_slashes extra_codeowners.Codeowners.Pattern.translate
    extra_codeowners.Codeowners.Pattern.translate_char
    extra_codeowners.Evaluator.Coverage.application_covers
    extra_codeowners.Evaluator.Coverage.author_covers
    extra_codeowners.Evaluator.Coverage.human_covers extra_codeowners.Evaluator.Reviews.paths_of
    extra_codeowners.Policy.Coalesce.labels_allow delegation_covers
    extra_codeowners.Policy.Decision.any_match extra_codeowners.Policy.Decision.owner_matches any
    contains Prelude.intersects Prelude.remove_all Prelude.unique Regex.concat Regex.in_class
    Regex.match_many Regex.match_then Text.decimal
changed_is_covered = refl

verdict_passes : passed verdict ≡ true
verdict_passes =
    (evaluate-Decides ascii input document policy input-AllNormalized refl parsed compiled).2
    ∙ changed_is_covered

verdict-eq : evaluate ascii input ≡ ok verdict
verdict-eq =
    (evaluate-Decides ascii input document policy input-AllNormalized refl parsed compiled).1

passed-IsReadable_example : IsReadable ascii input
passed-IsReadable_example = passed-IsReadable ascii input verdict verdict_passes verdict-eq

abbrev workflow : Str
workflow = text ".github/workflows" ++ slash ∷ text "ci.yml"

workflow-IsNormalized : IsNormalized workflow
unfolding text Normalize.normalize_repository_path Prelude.list_beq Text.strip Text.starts_with
    Text.split
workflow-IsNormalized = refl

ci-HasNoNewline : HasNoNewline (text "ci.yml")
unfolding text contains
ci-HasNoNewline = refl

builtin_guardrail_example : is_non_delegable policy workflow ≡ ok true
builtin_guardrail_example =
    builtin_guardrail ascii bot_organization repository options policy (text "ci.yml") compiled refl
      workflows ci-HasNoNewline workflow-IsNormalized

any-delegation_decisions_example :
    (decisions : List DelegationDecision) × (delegation_decisions policy changed (text "@x" ∷ []) []
      ≡ ok decisions)
    × (any (accepts (contains (text "b" ∷ []))) decisions
        ≡ any (delegation_covers (text "b" ∷ []) [] (text "@x" ∷ []) changed) policy.delegations)
any-delegation_decisions_example =
    any-delegation_decisions (text "b" ∷ []) [] (text "@x" ∷ []) changed policy changed-IsNormalized

abbrev context : Context
context = context_of ascii input policy

changed-AllNormalized : AllNormalized (changed ∷ [])
unfolding AllNormalized
changed-AllNormalized = (changed-IsNormalized, tt)

judge-satisfied_example :
    ReturnsSatisfied
      (all (is_covered context (text "@x" ∷ [])) (changed ∷ []))
      (judge context (text "@x" ∷ [], changed ∷ []))
judge-satisfied_example =
    judge-satisfied context (text "@x" ∷ []) (changed ∷ []) changed-AllNormalized

compile_policy-Compiles_example :
    Compiles bot_organization repository.delegations policy.delegations
compile_policy-Compiles_example =
    compile_policy-Compiles ascii bot_organization repository options policy compiled

evaluate-Returns_example :
    ((r : EvaluationResult) × (evaluate ascii input ≡ ok r)) ⊎ IsUnencodable ascii input
evaluate-Returns_example = evaluate-Returns ascii input input-AllNormalized
