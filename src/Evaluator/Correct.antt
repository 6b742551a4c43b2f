-- ===== src/Evaluator/Correct.antt =====
-- `evaluate` passes a pull request exactly when every changed path is covered.
use extra_codeowners.Prelude.{
  ℕ, zero, suc, Bool, true, false, not, List, [], ◌∷◌, ◌≡◌, refl, ap, ◌∙◌, arith, list_eq, nat_eq,
  if◌then◌else◌, inl, inr, all, keep, ◌==◌, unique, remove_all, all-unique, Bool-cases, ok,
  traverse,
}
use extra_codeowners.Text.{Str, Unicode}
use extra_codeowners.Models.Evidence.{EvaluationInput}
use extra_codeowners.Models.Results.{
  EvaluationResult, EvaluationMessage, OwnerSetResult, is_success, passed,
}
use extra_codeowners.Codeowners.Document.{CodeownersDocument}
use extra_codeowners.Codeowners.Parser.{parse_codeowners}
use extra_codeowners.Policy.Decision.{CompiledPolicy}
use extra_codeowners.Policy.Compile.{compile_policy}
use extra_codeowners.Evaluator.Reviews.{all_paths, evaluation_paths}
use extra_codeowners.Evaluator.Judgement.{Context, judge}
use extra_codeowners.Evaluator.Evaluate.{
  context_of, OwnerPaths, Grouped, warnings_of, count_failed, conclude, result_of,
  evaluate_compiled, evaluate_policy, evaluate_document, disabled_result, evaluate,
}
use extra_codeowners.Evaluator.Coverage.{is_covered, AllNormalized}
use extra_codeowners.Evaluator.Judged.{judge-satisfied}
use extra_codeowners.Evaluator.Grouping.{
  is_path_covered, group_holds, GroupsNormalized, group_paths-GroupsHold,
}

is_zero : ℕ → Bool
is_zero zero = true
is_zero (suc n) = false

conclude-is_zero : (n : ℕ) (rs : List OwnerSetResult) → is_success (conclude n rs).0 ≡ is_zero n
unfolding is_success conclude is_zero
conclude-is_zero zero [] = refl
conclude-is_zero zero (r ∷ rs) = refl
conclude-is_zero (suc n) rs = refl

is_zero-count_failed :
    (rs : List OwnerSetResult) → is_zero (count_failed rs) ≡ all (λ r. r.satisfied) rs
unfolding is_zero count_failed keep all
is_zero-count_failed [] = refl
is_zero-count_failed (r ∷ rs) = ground (arith, is_zero-count_failed rs)

-- the result has no failed requirement exactly when all are satisfied
passed-result_of :
    (requirements : List OwnerSetResult) (warnings : List EvaluationMessage) (unowned : List Str)
    → passed (result_of requirements warnings unowned) ≡ all (λ r. r.satisfied) requirements
unfolding passed result_of
passed-result_of requirements warnings unowned =
    conclude-is_zero (count_failed requirements) requirements ∙ is_zero-count_failed requirements

-- the judgements of all groups return, and are satisfied together when the groups hold
judgements_hold :
    (context : Context) (groups : OwnerPaths)
    → GroupsNormalized groups
    → (rs : List OwnerSetResult) × (traverse (judge context) groups ≡ ok rs)
      × (all (λ r. r.satisfied) rs ≡ all (group_holds (is_covered context)) groups)
unfolding traverse all GroupsNormalized
judgements_hold context [] h = ([], refl, refl)
judgements_hold context ((owners, paths) ∷ groups) h =
    let (r, e, s) = judge-satisfied context owners paths h.0 in
    let (rs, es, ss) = judgements_hold context groups h.1 in
    (r ∷ rs, rw (e, es) refl, rw (s, ss) refl)

AllNormalized-remove_all :
    (p : Str) (paths : List Str) → AllNormalized paths → AllNormalized (remove_all p paths)
unfolding remove_all AllNormalized
AllNormalized-remove_all p [] h = tt
AllNormalized-remove_all p (q ∷ paths) h = elim (Bool-cases (q == p)) [
  | inl same ↦ rw same (AllNormalized-remove_all p paths h.1)
  | inr other ↦ rw other (h.0, AllNormalized-remove_all p paths h.1)
]

AllNormalized-unique : (paths : List Str) → AllNormalized paths → AllNormalized (unique paths)
unfolding unique AllNormalized
AllNormalized-unique [] h = tt
AllNormalized-unique (p ∷ paths) h =
    (h.0, AllNormalized-remove_all p (unique paths) (AllNormalized-unique paths h.1))

-- The verdict on a pull request whose two policies compiled: it is returned, and it is success
-- exactly when each changed path has no owner or is covered.
abbrev pub Decides : Unicode → EvaluationInput → CodeownersDocument → CompiledPolicy → Type 0
Decides u input document policy =
    (r : EvaluationResult) × (evaluate u input ≡ ok r)
    × (passed r
        ≡ all (is_path_covered (context_of u input policy) document)
            (all_paths input.changed_files))

evaluate_compiled-Decides :
    (u : Unicode) (input : EvaluationInput) (document : CodeownersDocument)
    (policy : CompiledPolicy)
    → AllNormalized (all_paths input.changed_files)
    → (r : EvaluationResult) × (evaluate_compiled u input document policy ≡ ok r)
      × (passed r
          ≡ all
              (is_path_covered (context_of u input policy) document)
              (all_paths input.changed_files))
unfolding evaluate_compiled evaluation_paths
evaluate_compiled-Decides u input document policy valid =
    let context = context_of u input policy in
    let paths = unique (all_paths input.changed_files) in
    let start : Grouped = record { owner_paths = []; unowned_paths = [] } in
    let (g, e, n, s) =
      group_paths-GroupsHold context document paths start
        (AllNormalized-unique (all_paths input.changed_files) valid)
        (unfold GroupsNormalized in tt) in
    let (rs, es, ss) = judgements_hold context g.owner_paths n in
    (
      result_of rs (warnings_of input) g.unowned_paths,
      rw (e, es) refl,
      passed-result_of rs (warnings_of input) g.unowned_paths
          ∙ ss
          ∙ s
          ∙ (unfold all in
              all-unique (is_path_covered context document) (all_paths input.changed_files)),
    )

-- For a pull request whose paths passed validation, under a policy that is enabled, with a
-- CODEOWNERS file that parses to `document` and policies that compile to `policy`: `evaluate`
-- returns a result, and the result is success exactly when each changed path, new or previous name,
-- has no owner in the last matching rule, or one of its owners is an approving person or the
-- author where the policy lets the author count, or it matches no non-delegable pattern and an
-- approving enrolled application has a delegation for the path, one of the owners and the labels.
pub evaluate-Decides :
    (u : Unicode) (input : EvaluationInput) (document : CodeownersDocument)
    (policy : CompiledPolicy)
    → AllNormalized (all_paths input.changed_files)
    → input.repository_policy.enabled ≡ true
    → parse_codeowners u input.codeowners_text ≡ ok document
    → compile_policy u input.organization_policy input.repository_policy input.options ≡ ok policy
    → Decides u input document policy
unfolding evaluate evaluate_document evaluate_policy
evaluate-Decides u input document policy valid enabled parsed compiled =
    let (r, e, s) = evaluate_compiled-Decides u input document policy valid in
    (
      r,
      ap
            (λ b.
              if not b
              then ok disabled_result
              else evaluate_document u input (parse_codeowners u input.codeowners_text))
            enabled
          ∙ ap (evaluate_document u input) parsed
          ∙ ap (evaluate_policy u input document) compiled
          ∙ e,
      s,
    )
