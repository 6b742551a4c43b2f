-- ===== src/Policy/Compile.antt =====
-- compile_policy of policy.py.
use extra_codeowners.Prelude.{
  ℕ, suc, List, [], ◌∷◌, ◌++◌, list_eq, nat_eq, if◌then◌else◌, Option, none, some, lookup, Result,
  ok, err, traverse, ◌>>=◌,
}
use extra_codeowners.Text.{Str, text, decimal, slash, Unicode}
use extra_codeowners.Models.Normalize.{ValueError}
use extra_codeowners.Models.Policies.{
  EnrolledApplication, OrganizationPolicy, Delegation, RepositoryPolicy,
}
use extra_codeowners.Models.Evidence.{EvaluationOptions}
use extra_codeowners.Codeowners.Pattern.{validate_pattern, compile_pattern}
use extra_codeowners.Policy.Decision.{CompiledDelegation, new_delegation, CompiledPolicy, is_nil}

unfoldable pub builtin_non_delegable_paths : List Str
builtin_non_delegable_paths =
    text "/CODEOWNERS"
    ∷ text "/.github/CODEOWNERS"
    ∷ text "/docs/CODEOWNERS"
    ∷ text "/stampbot.toml"
    ∷ text "/.github/workflows/**"
    ∷ text "/.github/actions/**"
    ∷ []

pub record PolicyIssue : Type 0 where
  pub code : Str
  pub message : Str

-- PolicyCompilationError, and a ValueError that `compile_policy` does not catch
pub data PolicyFailure : Type 0 where
  compilation_error : List PolicyIssue → PolicyFailure
  uncaught : ValueError → PolicyFailure

-- an issue for each pattern that `validate_pattern` refuses
unfoldable pub pattern_issue : (Str → ValueError → PolicyIssue) → Str → List PolicyIssue
pattern_issue issue pattern = elim (validate_pattern pattern) [
  | ok value ↦ []
  | err error ↦ issue pattern error ∷ []
]

unfoldable pub pattern_issues : (Str → ValueError → PolicyIssue) → List Str → List PolicyIssue
unfolding pattern_issue
pattern_issues issue [] = []
pattern_issues issue (pattern ∷ patterns) =
    pattern_issue issue pattern ++ pattern_issues issue patterns

unfoldable pub non_delegable_issue : Unicode → Str → ValueError → PolicyIssue
non_delegable_issue u pattern error = record {
  code = text "invalid_non_delegable_pattern";
  message = text "invalid non-delegable path " ++ (u.repr pattern ++ (text ": " ++ error));
}

unfoldable pub delegation_issue : Unicode → ℕ → Str → ValueError → PolicyIssue
delegation_issue u index pattern error = record {
  code = text "invalid_delegation_pattern";
  message =
      text "delegation "
      ++ (decimal index ++ (text " has invalid path " ++ (u.repr pattern ++ (text ": " ++ error))));
}

unfoldable pub unenrolled : Unicode → ℕ → Str → PolicyIssue
unenrolled u index alias = record {
  code = text "unenrolled_application";
  message =
      text "delegation "
      ++ (decimal index
          ++ (text " references application alias "
              ++ (u.repr alias ++ text ", which organization policy has not enrolled")));
}

-- what the loop over the delegations has gathered
pub record Compiled : Type 0 where
  pub delegations : List CompiledDelegation
  pub issues : List PolicyIssue

unfoldable pub add_delegation :
    Unicode → ℕ → Delegation → Option EnrolledApplication → Compiled → Result ValueError Compiled
unfolding pattern_issues
add_delegation u index delegation none compiled =
    ok (record compiled { issues = compiled.issues ++ unenrolled u index delegation.app ∷ [] })
add_delegation u index delegation (some application) compiled =
    let issues = pattern_issues (delegation_issue u index) delegation.paths in
    if is_nil issues
    then (do
      valid ← new_delegation delegation application
      ok (record compiled { delegations = compiled.delegations ++ valid ∷ [] }))
    else ok (record compiled { issues = compiled.issues ++ issues })

unfoldable pub compile_delegations :
    Unicode → OrganizationPolicy → ℕ → List Delegation → Compiled → Result ValueError Compiled
unfolding add_delegation
compile_delegations u organization index [] compiled = ok compiled
compile_delegations u organization index (delegation ∷ delegations) compiled = do
  compiled' ← add_delegation u index delegation (lookup delegation.app organization.apps) compiled
  compile_delegations u organization (suc index) delegations compiled'

-- the built-in paths that are in force
unfoldable pub builtins : RepositoryPolicy → EvaluationOptions → List Str
builtins repository runtime =
    if runtime.allow_insecure_changes
    then []
    else if repository.allow_delegation_for_policy_file
    then builtin_non_delegable_paths
    else builtin_non_delegable_paths ++ (slash ∷ runtime.repository_policy_path) ∷ []

unfoldable pub non_delegable_patterns_of :
    OrganizationPolicy → RepositoryPolicy → EvaluationOptions → List Str
unfolding builtins
non_delegable_patterns_of organization repository runtime =
    builtins repository runtime ++ organization.guardrails.non_delegable_paths

-- CompiledPolicy(...) and its __post_init__, once there is no issue
unfoldable pub new_policy :
    OrganizationPolicy
    → RepositoryPolicy
    → List Str
    → Result ValueError Compiled
    → Result PolicyFailure CompiledPolicy
new_policy organization repository patterns (err error) = err (uncaught error)
new_policy organization repository patterns (ok compiled) = elim compiled.issues [
  | i ∷ is ↦ err (compilation_error (i ∷ is))
  | [] ↦ elim (traverse compile_pattern patterns) [
    | err error ↦ err (uncaught error)
    | ok regexes ↦ ok (record {
      repository = repository;
      organization = organization;
      delegations = compiled.delegations;
      non_delegable_patterns = patterns;
      non_delegable_regexes = regexes;
    })
  ]
]

unfoldable pub compile_policy :
    Unicode
    → OrganizationPolicy
    → RepositoryPolicy
    → EvaluationOptions
    → Result PolicyFailure CompiledPolicy
unfolding new_policy compile_delegations non_delegable_patterns_of
compile_policy u organization repository runtime =
    let patterns = non_delegable_patterns_of organization repository runtime in
    let start : Compiled = record {
      delegations = [];
      issues = pattern_issues (non_delegable_issue u) patterns;
    } in
    new_policy organization repository patterns
      (compile_delegations u organization 1 repository.delegations start)
