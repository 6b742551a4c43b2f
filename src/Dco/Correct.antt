-- ===== src/Dco/Correct.antt =====
-- evaluate_dco returns a result for all validated evidence, and passes exactly what it should.
use extra_codeowners.Prelude.{
  ℕ, ◌≤◌, Bool, true, false, not, List, [], ◌∷◌, ◌≡◌, refl, sym, ◌∙◌, ◌↔◌, ◌⊎◌, ◌==◌, ap, inl, inr,
  nat_eq, list_eq, if◌then◌else◌, Option, none, some, any, all, any-map, length, map, Result, ok,
  arith, Bool-cases, Option-cases, any-false, length-map, Memᴰ, refuse-inv, bind-inv, traverse,
  traverse-cons,
}
use extra_codeowners.Text.{Unicode}
use extra_codeowners.Dco.{
  PullRequestSnapshot, CommitEvidence, DcoEvidenceInput, DcoFailure, DcoCommitResult,
  DcoEvaluationResult, DcoError, signoff_is_missing,
}
use extra_codeowners.Dco.Validate.{
  is_sha, validate_positive, validate_sha, validate_count, validate_length, validate_bounded_text,
  validate_pull, validate_commit, validate_evidence, max_pull_commits,
}
use extra_codeowners.Dco.Order.{is_some}
use extra_codeowners.Dco.Evaluate.{
  is_missing, checked, new_commit_result, validate_consistency, new_evaluation_result, dco_result,
  failed, is_official_dependabot_pull, is_official_dependabot_commit, outcome_of, judge_commits,
  or_fail, evaluate_dco,
}
use extra_codeowners.Dco.Failures.{IsReady, first_failure-Decides}

-- The models of the evidence were built by their constructors.
pub record IsValidated (u : Unicode) (e : DcoEvidenceInput) : Type 0 where
  pub event : validate_pull u e.event ≡ ok e.event
  pub commits : traverse validate_commit e.commits ≡ ok e.commits
  pub size : validate_evidence e ≡ ok e

clash : {b : Bool} → b ≡ true → b ≡ false → ⊥
clash {b} h n = cc

pub evidence_size : (e : DcoEvidenceInput) → validate_evidence e ≡ ok e → length e.commits ≤ 250
unfolding validate_evidence validate_length
evidence_size e h =
    let (_, size, _) = bind-inv (validate_length max_pull_commits e.commits) _ h in
    let b = refuse-inv _ _ size in ground arith

-- what the result's own validators ask of the pull request
pub record Facts (pull : PullRequestSnapshot) : Type 0 where
  pub number : validate_positive pull.number ≡ ok tt
  pub base : validate_sha pull.base_sha ≡ ok tt
  pub head : validate_sha pull.head_sha ≡ ok tt
  pub count : 1 ≤ pull.commit_count

pub validate_pull-Facts :
    (u : Unicode) (pull : PullRequestSnapshot) → validate_pull u pull ≡ ok pull → Facts pull
unfolding validate_pull
validate_pull-Facts u pull h =
    let (_, number, h1) = bind-inv (validate_positive pull.number) _ h in
    let (_, _, h2) = bind-inv (validate_bounded_text u pull.base_ref _ 1024 true) _ h1 in
    let (_, base, h3) = bind-inv (validate_sha pull.base_sha) _ h2 in
    let (_, _, h4) = bind-inv (validate_bounded_text u pull.head_ref _ 1024 true) _ h3 in
    let (_, head, h5) = bind-inv (validate_sha pull.head_sha) _ h4 in
    let (_, count, _) = bind-inv (validate_count pull.commit_count) _ h5 in
    record {
      number = number;
      base = base;
      head = head;
      count = count_positive pull.commit_count count;
    }
  where
    count_positive : (n : ℕ) {a : Unit {0}} → validate_count n ≡ ok a → 1 ≤ n
    count_positive n h =
        let (_, positive, _) = bind-inv (validate_positive n) _ (unfold validate_count in h) in
        let b = refuse-inv (n == 0) _ (unfold validate_positive in positive) in ground arith

validate_commit-sha : (c y : CommitEvidence) → validate_commit c ≡ ok y → is_sha c.sha ≡ true
unfolding validate_commit validate_sha
validate_commit-sha c y h =
    let (_, sha, _) = bind-inv (validate_sha c.sha) _ h in
    let b = refuse-inv (not (is_sha c.sha)) _ sha in ground arith

-- each commit's SHA was validated
pub commits_valid :
    (cs : List CommitEvidence)
    → traverse validate_commit cs ≡ ok cs
    → all (λ c. is_sha c.sha) cs ≡ true
unfolding all
commits_valid [] h = refl
commits_valid (c ∷ cs) h =
    let (y, rest, one, others, e) = traverse-cons validate_commit c cs h in
    ground (arith, commits_valid cs (ground arith), validate_commit-sha c y one)

-- the outcomes of the commits, in their order
abbrev pub outcomes : DcoEvidenceInput → List DcoCommitResult
outcomes e =
    let pull = e.event in
    map
      (λ c. record { sha = c.sha; outcome = outcome_of (is_official_dependabot_pull pull) pull c })
      e.commits

results-outcomes :
    (b : Bool) (pull : PullRequestSnapshot) (cs : List CommitEvidence)
    → all (λ c. is_sha c.sha) cs ≡ true
    → traverse (λ c. new_commit_result c.sha (outcome_of b pull c)) cs
      ≡ ok (map (λ c. record { sha = c.sha; outcome = outcome_of b pull c }) cs)
unfolding all traverse new_commit_result validate_sha checked
results-outcomes b pull [] h = refl
results-outcomes b pull (c ∷ cs) h = ground (arith, results-outcomes b pull cs)

pub new_evaluation_result-ok :
    (pull : PullRequestSnapshot) (f : Option DcoFailure) (rs : List DcoCommitResult)
    → Facts pull
    → length rs ≤ 250
    → (f ≡ none → any (λ r. is_missing r.outcome) rs ≡ false)
    → new_evaluation_result (dco_result pull f rs) ≡ ok (dco_result pull f rs)
unfolding new_evaluation_result dco_result checked validate_length validate_consistency is_some
new_evaluation_result-ok pull none rs h n m = ground (arith, h.number, h.base, h.head, m refl)
new_evaluation_result-ok pull (some f) rs h n m = ground (arith, h.number, h.base, h.head)

-- a commit of the list that nobody signed off, and no exception covers
abbrev pub IsSignedOff : PullRequestSnapshot → CommitEvidence → Type 0
IsSignedOff pull c =
    (c.author_signoff_present ≡ true)
    ⊎ ((is_official_dependabot_pull pull ≡ true) × (is_official_dependabot_commit c pull ≡ true))

pub is_missing-outcome_of :
    (pull : PullRequestSnapshot) (c : CommitEvidence)
    → (is_missing (outcome_of (is_official_dependabot_pull pull) pull c) ≡ false)
      ↔ IsSignedOff pull c
unfolding is_missing outcome_of
is_missing-outcome_of pull c = (λ h. ground arith, λ h. ground arith)

-- Every commit is signed off, and the evidence is of one open pull request.
pub record IsSigned (e : DcoEvidenceInput) : Type 0 where
  pub ready : IsReady e
  pub signed : (c : CommitEvidence) → Memᴰ c e.commits → IsSignedOff e.event c

-- what the result says of the pull request
abbrev pub IsBoundTo : DcoEvaluationResult → PullRequestSnapshot → Type 0
IsBoundTo r pull =
    (r.repository ≡ pull.repository)
    × (r.pull_number ≡ pull.number)
    × (r.base_sha ≡ pull.base_sha)
    × (r.head_sha ≡ pull.head_sha)

abbrev Judges : DcoEvidenceInput → Result DcoError DcoEvaluationResult → Type 0 → Type 0
Judges e m Q =
    (r : DcoEvaluationResult) × (m ≡ ok r) × IsBoundTo r e.event × ((r.passed ≡ true) ↔ Q)

failed-Judges :
    (e : DcoEvidenceInput) (f : DcoFailure) (rs : List DcoCommitResult) (Q : Type 0)
    → Facts e.event
    → length rs ≤ 250
    → ¬ Q
    → Judges e (failed e f rs) Q
unfolding failed dco_result is_some
failed-Judges e f rs Q h n refute = (
  dco_result e.event (some f) rs,
  new_evaluation_result-ok e.event (some f) rs h n (λ p. cc),
  (refl, refl, refl, refl),
  (λ p. cc, λ q. absurd (refute q)),
)

pub length-outcomes : (e : DcoEvidenceInput) → length (outcomes e) ≡ length e.commits
length-outcomes e = length-map _ e.commits

pub judge_commits-eq :
    (e : DcoEvidenceInput)
    → all (λ c. is_sha c.sha) e.commits ≡ true
    → judge_commits e ≡ (
        if any (λ (r : DcoCommitResult). is_missing r.outcome) (outcomes e)
        then failed e signoff_is_missing (outcomes e)
        else new_evaluation_result (dco_result e.event none (outcomes e)))
unfolding judge_commits
judge_commits-eq e shas =
    rw (results-outcomes (is_official_dependabot_pull e.event) e.event e.commits shas) refl

judge_commits-Judges :
    (e : DcoEvidenceInput)
    → Facts e.event
    → all (λ c. is_sha c.sha) e.commits ≡ true
    → length e.commits ≤ 250
    → Judges e (judge_commits e) ((c : CommitEvidence) → Memᴰ c e.commits → IsSignedOff e.event c)
unfolding dco_result is_some
judge_commits-Judges e h shas n =
    let pull = e.event in
    let official = is_official_dependabot_pull pull in
    let one = λ (c : CommitEvidence). is_missing-outcome_of pull c in
    let mapped =
      any-map (λ (r : DcoCommitResult). is_missing r.outcome)
        (λ (c : CommitEvidence). record { sha = c.sha; outcome = outcome_of official pull c })
        e.commits in
    let (to, from) =
      any-false (λ (c : CommitEvidence). is_missing (outcome_of official pull c)) e.commits in
    elim (Bool-cases (any (λ (r : DcoCommitResult). is_missing r.outcome) (outcomes e))) [
      | inl missing ↦
          rw (judge_commits-eq e shas, missing)
            (failed-Judges e signoff_is_missing (outcomes e) _ h (omega (arith, length-outcomes e))
              (λ f. clash missing (mapped ∙ from (λ c m. (one c).1 (f c m)))))
      | inr none_missing ↦
          let sound =
            new_evaluation_result-ok pull none (outcomes e) h (omega (arith, length-outcomes e))
              (λ _. none_missing) in
          (
            dco_result pull none (outcomes e),
            judge_commits-eq e shas
                ∙ ap
                    (λ b.
                      if b
                      then failed e signoff_is_missing (outcomes e)
                      else new_evaluation_result (dco_result pull none (outcomes e)))
                    none_missing
                ∙ sound,
            (refl, refl, refl, refl),
            (λ _ c m. (one c).0 (to (sym mapped ∙ none_missing) c m), λ _. refl),
          )
    ]

-- For evidence that was validated, the evaluation returns a result of the event's pull request and
-- head, and it passes exactly when the pull request is open and unchanged, the comparison and the
-- commits are its own, in order and all leading to the head, and every commit is signed off by its
-- author or is the single commit of the official Dependabot.
pub evaluate_dco-IsSigned :
    (u : Unicode) (e : DcoEvidenceInput)
    → IsValidated u e
    → (r : DcoEvaluationResult) × (evaluate_dco e ≡ ok r)
      × IsBoundTo r e.event
      × ((r.passed ≡ true) ↔ IsSigned e)
unfolding evaluate_dco or_fail
evaluate_dco-IsSigned u e v =
    let facts = validate_pull-Facts u e.event v.event in
    let (o, ends, says) = first_failure-Decides e facts.count in
    elim (Option-cases o) [
      | inl nothing ↦
          let (r, judged, bound, passes) =
            judge_commits-Judges e facts (commits_valid e.commits v.commits)
              (evidence_size e v.size) in
          (
            r,
            rw (ends, nothing) judged,
            bound,
            (λ p. record { ready = says.0 nothing; signed = passes.0 p }, λ s. passes.1 s.signed),
          )
      | inr (f, failure) ↦
          rw (ends, failure)
            (failed-Judges e f [] (IsSigned e) facts (omega arith)
              (λ s. ground (arith, says.1 s.ready)))
    ]
