-- ===== src/Evaluator/Judged.antt =====
-- `judge` on one owner set: it returns, and is satisfied exactly when each path is covered.
use extra_codeowners.Prelude.{
  Bool, true, not, ◌||◌, List, [], ◌∷◌, ◌≡◌, refl, ap, sym, ◌∙◌, arith, list_eq, nat_eq, inl, inr,
  all, intersects, map, all-map, all-congr, Bool-cases, Result, ok, traverse, ◌>>=◌,
}
use extra_codeowners.Text.{Str, text}
use extra_codeowners.Models.Normalize.{ValueError}
use extra_codeowners.Models.Paths.{IsNormalized}
use extra_codeowners.Models.Evidence.{PullRequestReview}
use extra_codeowners.Models.Results.{PathEvidence, OwnerSetResult}
use extra_codeowners.Policy.Decision.{CompiledPolicy, any_match, is_nil}
use extra_codeowners.Policy.Coverage.{is_non_delegable-eq}
use extra_codeowners.Evaluator.Judgement.{
  Context, satisfying_humans, covered_path, human_result, author_result, is_path_satisfied,
  app_result, judge_path, judge_without_humans, judge_with, judge,
}
use extra_codeowners.Evaluator.Coverage.{
  human_covers, author_covers, application_covers, is_covered, satisfying_humans-eq, AllNormalized,
  path_evidence, judge_path-eq, path_evidence-satisfied,
}

traverse-normalized {ℓ} :
    {B : Type ℓ} (f : Str → Result ValueError B) (g : Str → B) (paths : List Str)
    → AllNormalized paths
    → ((path : Str) → IsNormalized path → f path ≡ ok (g path))
    → traverse f paths ≡ ok (map g paths)
unfolding traverse AllNormalized
traverse-normalized f g [] valid h = refl
traverse-normalized f g (path ∷ paths) valid h =
    rw (h path valid.0, traverse-normalized f g paths valid.1 h) refl

-- the judgement returns a result whose flag is `b`
abbrev pub ReturnsSatisfied : Bool → Result ValueError OwnerSetResult → Type 0
ReturnsSatisfied b result = (r : OwnerSetResult) × (result ≡ ok r) × (r.satisfied ≡ b)

all-true : (p : Str → Bool) (paths : List Str) → ((path : Str) → p path ≡ true) → all p paths ≡ true
unfolding all
all-true p [] h = refl
all-true p (path ∷ paths) h = rw (h path) (all-true p paths h)

returns_after {ℓ} :
    {A : Type ℓ} (b : Bool) (m : Result ValueError A) (f : A → Result ValueError OwnerSetResult)
    (a : A)
    → m ≡ ok a
    → ReturnsSatisfied b (f a)
    → ReturnsSatisfied b (m >>= f)
returns_after b m f a e (r, h, s) = (r, rw e h, s)

-- the evidence that `covered_path` returns for a path that passed validation
abbrev covered_evidence : CompiledPolicy → Str → Str → PathEvidence
covered_evidence policy explanation path = record {
  path = path;
  non_delegable = any_match policy.non_delegable_regexes path;
  eligible_apps = [];
  approved_apps = [];
  explanation = explanation;
}

module _ (context : Context) (owners paths : List Str) (valid : AllNormalized paths) where
  covered_paths :
      (explanation : Str)
      → traverse (covered_path context.policy explanation) paths
        ≡ ok (map (covered_evidence context.policy explanation) paths)
  unfolding covered_path
  covered_paths explanation =
      traverse-normalized (covered_path context.policy explanation)
        (covered_evidence context.policy explanation) paths valid
        (λ path normal. rw (is_non_delegable-eq path normal context.policy) refl)

  human_result-satisfied :
      (humans : List PullRequestReview)
      → ReturnsSatisfied true (human_result context owners paths humans)
  unfolding human_result
  human_result-satisfied humans =
      returns_after true _ _ _ (covered_paths (text "covered by the human CODEOWNER approval"))
        (_, refl, refl)

  author_result-satisfied : ReturnsSatisfied true (author_result context owners paths)
  unfolding author_result
  author_result-satisfied =
      returns_after true _ _ _
        (covered_paths (text "covered by eligible pull-request author evidence")) (_, refl, refl)

  satisfied-app_result :
      (evidence : List PathEvidence)
      → (app_result owners paths evidence).satisfied ≡ all is_path_satisfied evidence
  unfolding app_result
  satisfied-app_result evidence = ground arith

  applications_satisfied :
      (evidence : List PathEvidence)
      → traverse (judge_path context owners) paths ≡ ok evidence
      → all is_path_satisfied evidence ≡ all (application_covers context owners) paths
  applications_satisfied evidence e =
      let t =
        traverse-normalized (judge_path context owners) (path_evidence context owners) paths valid
          (judge_path-eq context owners) in
      let same : map (path_evidence context owners) paths ≡ evidence = cc (t, e) in
      ap (all is_path_satisfied) (sym same)
      ∙ all-map is_path_satisfied (path_evidence context owners) paths
      ∙ all-congr _ (application_covers context owners) paths
          (path_evidence-satisfied context owners)

  judge_without_humans-satisfied :
      ReturnsSatisfied
        (all (λ path. author_covers context owners || application_covers context owners path) paths)
        (judge_without_humans context owners paths)
  unfolding judge_without_humans author_covers
  judge_without_humans-satisfied = elim (Bool-cases (intersects context.author_identities owners)) [
    | inl yes' ↦
        let (r, e, s) = author_result-satisfied in
        (r, rw (yes', e) refl, s ∙ sym (all-true _ paths (λ path. rw yes' refl)))
    | inr no' ↦
        let t =
          traverse-normalized (judge_path context owners) (path_evidence context owners) paths valid
            (judge_path-eq context owners) in
        (
          app_result owners paths (map (path_evidence context owners) paths),
          rw (no', t) refl,
          satisfied-app_result _
              ∙ applications_satisfied _ t
              ∙ all-congr _ _ paths (λ path. rw no' refl),
        )
  ]

  judge_with-satisfied :
      (humans : List PullRequestReview)
      → not (is_nil humans) ≡ human_covers context owners
      → ReturnsSatisfied
          (all (is_covered context owners) paths)
          (judge_with context owners paths humans)
  unfolding judge_with is_covered is_nil
  judge_with-satisfied [] none' =
      let (r, e, s) = judge_without_humans-satisfied in
      (r, e, s ∙ all-congr _ _ paths (λ path. rw (← none') refl))
  judge_with-satisfied (review ∷ reviews) some' =
      let (r, e, s) = human_result-satisfied (review ∷ reviews) in
      (r, e, s ∙ sym (all-true _ paths (λ path. rw (← some') refl)))

  -- Where every path of an owner set passed validation, `judge` returns a result, and the result is
  -- satisfied exactly when a person, the author or an application covers each of the paths.
  pub judge-satisfied :
      ReturnsSatisfied (all (is_covered context owners) paths) (judge context (owners, paths))
  unfolding judge human_covers
  judge-satisfied =
      judge_with-satisfied (satisfying_humans context.human_approvals owners)
        (satisfying_humans-eq context.human_approvals owners)
