-- ===== src/Evaluator/Total.antt =====
-- `evaluate` raises nothing: each error on its way becomes a result.
use extra_codeowners.Prelude.{
  ℕ, suc, Bool, true, false, not, List, [], ◌∷◌, ◌++◌, ◌≡◌, refl, ap, sym, ◌∙◌, arith, inl, inr,
  ◌⊎◌, Bool-cases, Option, none, some, lookup, list_eq, nat_eq, Result, ok, err, traverse,
  Result-cases, if◌then◌else◌, ltb, map, any,
}
use extra_codeowners.Text.{Str, Unicode, is_surrogate, utf8_length}
use extra_codeowners.Regex.{Regex}
use extra_codeowners.Models.Normalize.{ValueError}
use extra_codeowners.Models.Policies.{
  EnrolledApplication, OrganizationPolicy, Delegation, RepositoryPolicy,
}
use extra_codeowners.Models.Evidence.{EvaluationOptions, EvaluationInput}
use extra_codeowners.Models.Results.{EvaluationResult}
use extra_codeowners.Codeowners.Pattern.{validate_pattern, regex_of_value, compile_pattern}
use extra_codeowners.Codeowners.Document.{CodeownersDocument, CodeownersRule}
use extra_codeowners.Codeowners.Parser.{
  max_codeowners_bytes, CodeownersIssue, ParseFailure, parse_error, too_large, encode_error,
  parse_encodable, parse_codeowners,
}
use extra_codeowners.Codeowners.Reads.{outcome, parse_codeowners-Reads}
use extra_codeowners.Policy.Decision.{CompiledPolicy, new_delegation, is_nil}
use extra_codeowners.Policy.Compile.{
  PolicyIssue, PolicyFailure, compilation_error, Compiled, pattern_issue, pattern_issues,
  delegation_issue, add_delegation, compile_delegations, new_policy, non_delegable_patterns_of,
  non_delegable_issue, compile_policy,
}
use extra_codeowners.Policy.Enrollment.{compile_delegations-Compiles}
use extra_codeowners.Evaluator.Reviews.{all_paths}
use extra_codeowners.Evaluator.Coverage.{AllNormalized}
use extra_codeowners.Evaluator.Evaluate.{
  evaluate, evaluate_document, evaluate_policy, error_result, disabled_result, parse_message,
  policy_message,
}
use extra_codeowners.Evaluator.Correct.{evaluate-Decides}

pattern_issue-ok :
    (issue : Str → ValueError → PolicyIssue) (p : Str) {value : Str}
    → validate_pattern p ≡ ok value
    → pattern_issue issue p ≡ []
unfolding pattern_issue
pattern_issue-ok issue p e = ground (arith, e)

pattern_issue-err :
    (issue : Str → ValueError → PolicyIssue) (p : Str) {error : ValueError}
    → validate_pattern p ≡ err error
    → pattern_issue issue p ≡ issue p error ∷ []
unfolding pattern_issue
pattern_issue-err issue p e = ground (arith, e)

compile_pattern-ok :
    (p : Str) {value : Str}
    → validate_pattern p ≡ ok value
    → compile_pattern p ≡ ok (regex_of_value value)
unfolding compile_pattern
compile_pattern-ok p e = rw e refl

-- patterns without an issue have their expressions
compiled_patterns :
    (issue : Str → ValueError → PolicyIssue) (patterns : List Str)
    → is_nil (pattern_issues issue patterns) ≡ true
    → (regexes : List Regex) × (traverse compile_pattern patterns ≡ ok regexes)
unfolding pattern_issues traverse
compiled_patterns issue [] h = ([], refl)
compiled_patterns issue (p ∷ patterns) h = elim (Result-cases (validate_pattern p)) [
  | inl (value, e) ↦
      let later : is_nil (pattern_issues issue patterns) ≡ true =
        ap (λ i. is_nil (i ++ pattern_issues issue patterns)) (sym (pattern_issue-ok issue p e))
        ∙ h in
      let (regexes, es) = compiled_patterns issue patterns later in
      (regex_of_value value ∷ regexes, rw (compile_pattern-ok p e, es) refl)
  | inr (error, e) ↦
      let wrong : is_nil (issue p error ∷ pattern_issues issue patterns) ≡ true =
        ap (λ i. is_nil (i ++ pattern_issues issue patterns)) (sym (pattern_issue-err issue p e))
        ∙ h in
      let wrong' : false ≡ true = unfold is_nil in wrong in absurd cc
]

abbrev Returns : {A : Type 0} → Result ValueError A → Type 0
Returns {A} m = (a : A) × (m ≡ ok a)

add_delegation-Returns :
    (u : Unicode) (index : ℕ) (d : Delegation) (found : Option EnrolledApplication)
    (before : Compiled)
    → Returns (add_delegation u index d found before)
unfolding add_delegation new_delegation
add_delegation-Returns u index d none before = (_, refl)
add_delegation-Returns u index d (some a) before =
    elim (Bool-cases (is_nil (pattern_issues (delegation_issue u index) d.paths))) [
      | inl fine ↦
          let (regexes, e) = compiled_patterns (delegation_issue u index) d.paths fine in
          rw fine (rw e (_, refl))
      | inr bad ↦ rw bad (_, refl)
    ]

compile_delegations-Returns :
    (u : Unicode) (organization : OrganizationPolicy) (index : ℕ) (ds : List Delegation)
    (before : Compiled)
    → Returns (compile_delegations u organization index ds before)
unfolding compile_delegations
compile_delegations-Returns u organization index [] before = (before, refl)
compile_delegations-Returns u organization index (d ∷ ds) before =
    let (mid, e) = add_delegation-Returns u index d (lookup d.app organization.apps) before in
    rw e (compile_delegations-Returns u organization (suc index) ds mid)

-- the compiler returns a policy or its issues
abbrev IsCompiled : Result PolicyFailure CompiledPolicy → Type 0
IsCompiled m =
    ((policy : CompiledPolicy) × (m ≡ ok policy))
    ⊎ ((issues : List PolicyIssue) × (m ≡ err (compilation_error issues)))

new_policy-IsCompiled :
    (organization : OrganizationPolicy) (repository : RepositoryPolicy) (patterns : List Str)
    (c : Compiled)
    → (c.issues ≡ [] → (regexes : List Regex) × (traverse compile_pattern patterns ≡ ok regexes))
    → IsCompiled (new_policy organization repository patterns (ok c))
unfolding new_policy
new_policy-IsCompiled organization repository patterns c compiled = by_issues c.issues refl
  where
    by_issues :
        (issues : List PolicyIssue)
        → c.issues ≡ issues
        → IsCompiled (new_policy organization repository patterns (ok c))
    by_issues [] e = let (regexes, t) = compiled e in inl (rw (e, t) (_, refl))
    by_issues (i ∷ is) e = inr (rw e (_, refl))

compile_policy-IsCompiled :
    (u : Unicode) (organization : OrganizationPolicy) (repository : RepositoryPolicy)
    (options : EvaluationOptions)
    → IsCompiled (compile_policy u organization repository options)
unfolding compile_policy
compile_policy-IsCompiled u organization repository options =
    let patterns = non_delegable_patterns_of organization repository options in
    let start : Compiled = record {
      delegations = [];
      issues = pattern_issues (non_delegable_issue u) patterns;
    } in
    let (c, e) = compile_delegations-Returns u organization 1 repository.delegations start in
    let clean : c.issues ≡ []
        → (regexes : List Regex) × (traverse compile_pattern patterns ≡ ok regexes) =
      λ h.
        let before =
          (compile_delegations-Compiles u organization 1 repository.delegations start e h).0 in
        compiled_patterns (non_delegable_issue u) patterns (rw before (unfold is_nil in refl)) in
    rw e (new_policy-IsCompiled organization repository patterns c clean)

-- the parser returns a document or its issues
abbrev IsParsed : Result ParseFailure CodeownersDocument → Type 0
IsParsed m =
    ((document : CodeownersDocument) × (m ≡ ok document))
    ⊎ ((issues : List CodeownersIssue) × (m ≡ err (parse_error issues)))

parse_codeowners-IsParsed :
    (u : Unicode) (content : Str)
    → any is_surrogate content ≡ false
    → IsParsed (parse_codeowners u content)
parse_codeowners-IsParsed u content encodes =
    elim (Bool-cases (ltb max_codeowners_bytes (utf8_length content))) [
      | inl large ↦ inr (
        too_large (utf8_length content) ∷ [],
        unfold parse_codeowners parse_encodable in rw encodes (rw large refl),
      )
      | inr fits ↦
          let (rules, issues, reads, e) = parse_codeowners-Reads u content encodes fits in
          by_outcome rules issues e
    ]
  where
    by_outcome :
        (rules : List CodeownersRule) (issues : List CodeownersIssue)
        → parse_codeowners u content ≡ outcome u rules issues
        → IsParsed (parse_codeowners u content)
    by_outcome rules [] e = inl (_, e)
    by_outcome rules (issue ∷ issues) e = inr (_, e)

-- the text of an enabled policy's CODEOWNERS file has a lone surrogate, and its encoding raises
abbrev pub IsUnencodable : Unicode → EvaluationInput → Type 0
IsUnencodable u input =
    (input.repository_policy.enabled ≡ true)
    × (any is_surrogate input.codeowners_text ≡ true)
    × (evaluate u input ≡ err encode_error)

abbrev when_enabled : Unicode → EvaluationInput → Bool → Result ValueError EvaluationResult
when_enabled u input b =
    if not b
    then ok disabled_result
    else evaluate_document u input (parse_codeowners u input.codeowners_text)

evaluate_encodable :
    (u : Unicode) (input : EvaluationInput)
    → AllNormalized (all_paths input.changed_files)
    → input.repository_policy.enabled ≡ true
    → any is_surrogate input.codeowners_text ≡ false
    → (r : EvaluationResult) × (evaluate_document u input (parse_codeowners u input.codeowners_text)
        ≡ ok r)
unfolding evaluate evaluate_document evaluate_policy
evaluate_encodable u input valid enabled encodes =
    elim (parse_codeowners-IsParsed u input.codeowners_text encodes) [
      | inr (issues, parsed) ↦
          (error_result (map parse_message issues), ap (evaluate_document u input) parsed)
      | inl (document, parsed) ↦
          elim (compile_policy-IsCompiled u input.organization_policy input.repository_policy
            input.options) [
              | inr (issues, compiled) ↦ (
                error_result (map policy_message issues),
                ap (evaluate_document u input) parsed
                    ∙ ap (evaluate_policy u input document) compiled,
              )
              | inl (policy, compiled) ↦
                  let (r, e, s) =
                    evaluate-Decides u input document policy valid enabled parsed compiled in
                  (r, sym (ap (when_enabled u input) enabled) ∙ e)
            ]
    ]

-- For a pull request whose paths passed validation, `evaluate` returns a result, whatever the
-- CODEOWNERS text, the policies and the reviews are, with one exception: the text of the
-- CODEOWNERS file of an enabled policy has a lone surrogate, and the UnicodeEncodeError of its
-- encoding leaves `evaluate`.
pub evaluate-Returns :
    (u : Unicode) (input : EvaluationInput)
    → AllNormalized (all_paths input.changed_files)
    → ((r : EvaluationResult) × (evaluate u input ≡ ok r)) ⊎ IsUnencodable u input
unfolding evaluate
evaluate-Returns u input valid = elim (Bool-cases input.repository_policy.enabled) [
  | inr disabled ↦ inl (disabled_result, rw disabled refl)
  | inl enabled ↦ elim (Bool-cases (any is_surrogate input.codeowners_text)) [
    | inl lone ↦
        inr (enabled, lone, unfold evaluate_document parse_codeowners in rw enabled (rw lone refl))
    | inr encodes ↦
        let (r, e) = evaluate_encodable u input valid enabled encodes in
        inl (r, ap (when_enabled u input) enabled ∙ e)
  ]
]
