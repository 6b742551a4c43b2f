-- ===== src/Evaluator/FailClosed.antt =====
-- `evaluate` passes nothing that it could not read.
use extra_codeowners.Prelude.{true, ◌≡◌, refl, arith, Result, ok, err, Bool-cases, inl, inr}
use extra_codeowners.Text.{Unicode}
use extra_codeowners.Models.Evidence.{EvaluationInput}
use extra_codeowners.Models.Results.{EvaluationResult, passed}
use extra_codeowners.Codeowners.Document.{CodeownersDocument}
use extra_codeowners.Codeowners.Parser.{ParseFailure, parse_error, uncaught, parse_codeowners}
use extra_codeowners.Policy.Decision.{CompiledPolicy}
use extra_codeowners.Policy.Compile
use extra_codeowners.Policy.Compile.{PolicyFailure, compilation_error, compile_policy}
use extra_codeowners.Evaluator.Evaluate.{
  evaluate, evaluate_document, evaluate_policy, error_result, disabled_result,
}

-- the three things that `evaluate` needs before it looks at a path
abbrev pub IsReadable : Unicode → EvaluationInput → Type 0
IsReadable u input =
    (document : CodeownersDocument) × (policy : CompiledPolicy) × (input.repository_policy.enabled
      ≡ true)
    × (parse_codeowners u input.codeowners_text ≡ ok document)
    × (compile_policy u input.organization_policy input.repository_policy input.options ≡ ok policy)

module _ (u : Unicode) (input : EvaluationInput) (r : EvaluationResult)
    (success : passed r ≡ true) where
  policy_is_ok :
      (document : CodeownersDocument) (compiled : Result PolicyFailure CompiledPolicy)
      → evaluate_policy u input document compiled ≡ ok r
      → (policy : CompiledPolicy) × (compiled ≡ ok policy)
  unfolding evaluate_policy error_result passed
  policy_is_ok document (ok policy) e = (policy, refl)
  policy_is_ok document (err (compilation_error issues)) e = ground arith
  policy_is_ok document (err (Compile.uncaught error)) e = ground arith

  document_is_ok :
      (parsed : Result ParseFailure CodeownersDocument)
      → evaluate_document u input parsed ≡ ok r
      → (document : CodeownersDocument) × (policy : CompiledPolicy) × (parsed ≡ ok document)
        × (compile_policy u input.organization_policy input.repository_policy input.options
            ≡ ok policy)
  unfolding evaluate_document error_result passed
  document_is_ok (ok document) e =
      let (policy, c) = policy_is_ok document _ e in (document, policy, refl, c)
  document_is_ok (err (parse_error issues)) e = ground arith
  document_is_ok (err (uncaught error)) e = ground arith

  -- If `evaluate` returns a success, then the repository policy is enabled, the CODEOWNERS file
  -- parses, and the two policies compile together.
  pub passed-IsReadable : evaluate u input ≡ ok r → IsReadable u input
  unfolding evaluate disabled_result passed
  passed-IsReadable e = elim (Bool-cases input.repository_policy.enabled) [
    | inl enabled ↦
        let e' : evaluate_document u input (parse_codeowners u input.codeowners_text) ≡ ok r =
          ground (arith) in
        let (document, policy, p, c) = document_is_ok _ e' in (document, policy, enabled, p, c)
    | inr disabled ↦ absurd (ground arith)
  ]
