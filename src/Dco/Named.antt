-- ===== src/Dco/Named.antt =====
-- What a result names: each commit, and whether its sign-off is missing.
use extra_codeowners.Prelude.{
  ◌≤◌, Bool, true, false, List, [], ◌∷◌, ◌≡◌, refl, ◌∙◌, ◌↔◌, ◌⊎◌, ap, inl, inr, if◌then◌else◌,
  none, some, any, all, length, map, ok, arith, Bool-cases, Option-cases, nat_eq, list_eq,
}
use extra_codeowners.Text.{Unicode}
use extra_codeowners.Dco.{
  PullRequestSnapshot, CommitEvidence, DcoEvidenceInput, DcoFailure, DcoCommitResult,
  DcoEvaluationResult, signoff_is_missing,
}
use extra_codeowners.Dco.Validate.{is_sha}
use extra_codeowners.Dco.Order.{is_some}
use extra_codeowners.Dco.Evaluate.{
  is_missing, new_evaluation_result, dco_result, failed, is_official_dependabot_pull, outcome_of,
  judge_commits, or_fail, evaluate_dco,
}
use extra_codeowners.Dco.Failures.{IsReady, first_failure-Decides}
use extra_codeowners.Dco.Correct.{
  IsValidated, IsSignedOff, Facts, outcomes, judge_commits-eq, validate_pull-Facts, commits_valid,
  evidence_size, new_evaluation_result-ok, length-outcomes, is_missing-outcome_of,
}

-- the results stand for the commits, in their order, and are missing for those not signed off
unfoldable pub Names : PullRequestSnapshot → List DcoCommitResult → List CommitEvidence → Type 0
Names pull [] [] = Unit
Names pull [] (c ∷ cs) = ⊥
Names pull (r ∷ rs) [] = ⊥
Names pull (r ∷ rs) (c ∷ cs) =
    (r.sha ≡ c.sha) × ((is_missing r.outcome ≡ true) ↔ ¬ IsSignedOff pull c) × Names pull rs cs

-- The evidence is of one open pull request, and the result names its commits; or it is not, and the
-- result names another failure and no commit.
abbrev pub Explains : DcoEvidenceInput → DcoEvaluationResult → Type 0
Explains e r =
    (IsReady e
      × Names e.event r.commits e.commits
      × (r.failure
          ≡ (if any (λ c. is_missing c.outcome) r.commits then some signoff_is_missing else none)))
    ⊎ ((¬ IsReady e) × (r.commits ≡ []) × ((f : DcoFailure) × (r.failure ≡ some f)))

not_both : {b : Bool} → b ≡ true → b ≡ false → ⊥
not_both {b} h n = cc

missing_iff :
    (pull : PullRequestSnapshot) (c : CommitEvidence)
    → (is_missing (outcome_of (is_official_dependabot_pull pull) pull c) ≡ true)
      ↔ ¬ IsSignedOff pull c
missing_iff pull c =
    let (to, from) = is_missing-outcome_of pull c in
    (
      λ missing signed. not_both missing (from signed),
      λ unsigned.
          elim (Bool-cases (is_missing (outcome_of (is_official_dependabot_pull pull) pull c))) [
            | inl missing ↦ missing
            | inr there ↦ absurd (unsigned (to there))
          ],
    )

outcomes-Names :
    (pull : PullRequestSnapshot) (cs : List CommitEvidence)
    → Names pull
        (map
          (λ c. record {
            sha = c.sha;
            outcome = outcome_of (is_official_dependabot_pull pull) pull c;
          })
          cs)
        cs
unfolding Names
outcomes-Names pull [] = tt
outcomes-Names pull (c ∷ cs) = (refl, missing_iff pull c, outcomes-Names pull cs)

judge_commits-Explains :
    (e : DcoEvidenceInput)
    → Facts e.event
    → all (λ c. is_sha c.sha) e.commits ≡ true
    → length e.commits ≤ 250
    → IsReady e
    → (r : DcoEvaluationResult) × (judge_commits e ≡ ok r)
      × ((r.passed ≡ true) ↔ (r.failure ≡ none))
      × Explains e r
unfolding failed dco_result is_some
judge_commits-Explains e h shas n ready =
    elim (Bool-cases (any (λ (r : DcoCommitResult). is_missing r.outcome) (outcomes e))) [
      | inl missing ↦ (
        dco_result e.event (some signoff_is_missing) (outcomes e),
        rw (judge_commits-eq e shas, missing)
            (new_evaluation_result-ok e.event (some signoff_is_missing) (outcomes e) h
              (omega (arith, length-outcomes e, n)) (λ p. cc)),
        ((λ p. cc), (λ p. cc)),
        inl (ready, outcomes-Names e.event e.commits, rw missing refl),
      )
      | inr there ↦ (
        dco_result e.event none (outcomes e),
        judge_commits-eq e shas
            ∙ ap
                (λ b.
                  if b
                  then failed e signoff_is_missing (outcomes e)
                  else new_evaluation_result (dco_result e.event none (outcomes e)))
                there
            ∙ new_evaluation_result-ok e.event none (outcomes e) h
                (omega (arith, length-outcomes e, n)) (λ p. there),
        ((λ p. refl), (λ p. refl)),
        inl (ready, outcomes-Names e.event e.commits, rw there refl),
      )
    ]

-- For validated evidence the evaluation returns a result, which passes exactly when it has no
-- failure. Of one open, unchanged pull request the result names every commit, in order, as missing
-- its sign-off exactly when it is not signed off, and the failure is the missing sign-off exactly
-- when a commit is named so. Of other evidence the result names no commit, and has a failure.
pub evaluate_dco-Explains :
    (u : Unicode) (e : DcoEvidenceInput)
    → IsValidated u e
    → (r : DcoEvaluationResult) × (evaluate_dco e ≡ ok r)
      × ((r.passed ≡ true) ↔ (r.failure ≡ none))
      × Explains e r
unfolding evaluate_dco or_fail failed dco_result is_some
evaluate_dco-Explains u e v =
    let facts = validate_pull-Facts u e.event v.event in
    let (o, ends, says) = first_failure-Decides e facts.count in
    elim (Option-cases o) [
      | inl nothing ↦
          rw (ends, nothing)
            (judge_commits-Explains e facts (commits_valid e.commits v.commits)
              (evidence_size e v.size) (says.0 nothing))
      | inr (f, failure) ↦ (
        dco_result e.event (some f) [],
        rw (ends, failure)
            (new_evaluation_result-ok e.event (some f) [] facts (omega arith) (λ p. cc)),
        ((λ p. cc), (λ p. cc)),
        inr ((λ ready. ground (arith, says.1 ready, failure)), refl, (f, refl)),
      )
    ]
