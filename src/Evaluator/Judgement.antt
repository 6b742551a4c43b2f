-- ===== src/Evaluator/Judgement.antt =====
-- The judgement of one owner set: the body of the loop over `owner_paths` in `evaluate`.
use extra_codeowners.Prelude.{
  Bool, true, false, not, ◌&&◌, List, [], ◌∷◌, ◌++◌, if◌then◌else◌, keep, map, all, contains,
  list_eq, nat_eq, intersects, unique, sort, text_le, Result, ok, traverse, ◌>>=◌,
}
use extra_codeowners.Text.{Str, text, join}
use extra_codeowners.Models.Normalize.{ValueError}
use extra_codeowners.Models.Evidence.{PullRequestReview}
use extra_codeowners.Models.Results.{PathEvidence, OwnerSetResult}
use extra_codeowners.Policy.Decision.{
  DelegationDecision, CompiledPolicy, is_non_delegable, delegation_decisions, is_nil,
}

-- What the loop reads: the compiled policy and the evidence.
pub record Context : Type 0 where
  pub policy : CompiledPolicy
  pub labels : List Str
  pub human_approvals : List (PullRequestReview × List Str)
  pub author_login : Str
  pub author_identities : List Str
  pub approved_apps : List Str

-- the evidence of a path that a person covers
unfoldable pub covered_path : CompiledPolicy → Str → Str → Result ValueError PathEvidence
covered_path policy explanation path = do
  non_delegable ← is_non_delegable policy path
  ok (record {
    path = path;
    non_delegable = non_delegable;
    eligible_apps = [];
    approved_apps = [];
    explanation = explanation;
  })

unfoldable pub satisfying_humans :
    List (PullRequestReview × List Str) → List Str → List PullRequestReview
satisfying_humans [] owners = []
satisfying_humans ((review, identities) ∷ approvals) owners =
    let rest = satisfying_humans approvals owners in
    if intersects identities owners then review ∷ rest else rest

unfoldable pub human_result :
    Context → List Str → List Str → List PullRequestReview → Result ValueError OwnerSetResult
unfolding covered_path
human_result context owners paths humans = do
  evidence ←
      traverse (covered_path context.policy (text "covered by the human CODEOWNER approval")) paths
  ok (record {
    owners = owners;
    paths = paths;
    satisfied = true;
    satisfied_by = map (λ review. text "human:@" ++ review.actor.login) humans;
    explanation =
        text "approved by human CODEOWNER "
        ++ join (text ", ") (map (λ review. b'@' ∷ review.actor.login) humans);
    path_evidence = evidence;
  })

unfoldable pub author_result : Context → List Str → List Str → Result ValueError OwnerSetResult
unfolding covered_path
author_result context owners paths = do
  evidence ←
      traverse
        (covered_path context.policy (text "covered by eligible pull-request author evidence"))
        paths
  ok (record {
    owners = owners;
    paths = paths;
    satisfied = true;
    satisfied_by = (text "author:@" ++ context.author_login) ∷ [];
    explanation =
        text "pull request author @"
        ++ (context.author_login ++ text " is an eligible human CODEOWNER");
    path_evidence = evidence;
  })

unfoldable pub eligible_apps_of : List DelegationDecision → List Str
eligible_apps_of decisions =
    map (λ decision. decision.app_alias) (keep (λ decision. decision.eligible) decisions)

-- sorted(set(eligible_apps) & approved_apps)
unfoldable pub path_approvals_of : List Str → List Str → List Str
path_approvals_of eligible approved =
    sort text_le (unique (keep (λ alias. contains approved alias) eligible))

unfoldable pub blocked_text : DelegationDecision → Str
blocked_text decision = decision.app_alias ++ (text ": " ++ join (text ", ") decision.reasons)

unfoldable pub missing_explanation : List Str → List DelegationDecision → Str
unfolding blocked_text
missing_explanation (alias ∷ eligible) decisions =
    text "eligible application approval is missing: " ++ join (text ", ") (alias ∷ eligible)
missing_explanation [] (decision ∷ decisions) =
    text "delegation label conditions were not met: "
    ++ join (text "; ") (map blocked_text (decision ∷ decisions))
missing_explanation [] [] = text "no application delegation covers this path and owner set"

unfoldable pub path_explanation : List Str → List Str → List DelegationDecision → Str
unfolding missing_explanation
path_explanation (alias ∷ approvals) eligible decisions =
    text "covered by approved application " ++ join (text ", ") (alias ∷ approvals)
path_explanation [] eligible decisions = missing_explanation eligible decisions

-- the body of the loop over the paths; a path is satisfied by the applications in `approved_apps`
unfoldable pub delegable_evidence : Context → Str → List DelegationDecision → PathEvidence
unfolding eligible_apps_of path_approvals_of path_explanation
delegable_evidence context path decisions =
    let eligible = eligible_apps_of decisions in
    let approvals = path_approvals_of eligible context.approved_apps in
    record {
      path = path;
      non_delegable = false;
      eligible_apps = eligible;
      approved_apps = approvals;
      explanation = path_explanation approvals eligible decisions;
    }

unfoldable pub blocked_evidence : Str → PathEvidence
blocked_evidence path = record {
  path = path;
  non_delegable = true;
  eligible_apps = [];
  approved_apps = [];
  explanation = text "application delegation is disabled for this security-sensitive path";
}

unfoldable pub judge_path : Context → List Str → Str → Result ValueError PathEvidence
unfolding delegable_evidence blocked_evidence
judge_path context owners path = do
  non_delegable ← is_non_delegable context.policy path
  if non_delegable then ok (blocked_evidence path) else (do
    decisions ← delegation_decisions context.policy path owners context.labels
    ok (delegable_evidence context path decisions))

-- the path left `all_paths_satisfied` as it was
unfoldable pub is_path_satisfied : PathEvidence → Bool
unfolding is_nil
is_path_satisfied evidence = not evidence.non_delegable && not (is_nil evidence.approved_apps)

unfoldable pub approving_apps : List PathEvidence → List Str
approving_apps [] = []
approving_apps (evidence ∷ rest) = evidence.approved_apps ++ approving_apps rest

unfoldable pub app_result : List Str → List Str → List PathEvidence → OwnerSetResult
unfolding is_path_satisfied approving_apps
app_result owners paths evidence =
    if all is_path_satisfied evidence
    then record {
      owners = owners;
      paths = paths;
      satisfied = true;
      satisfied_by =
          map (λ alias. text "app:" ++ alias) (sort text_le (unique (approving_apps evidence)));
      explanation = text "all paths are covered by approved application delegation";
      path_evidence = evidence;
    }
    else record {
      owners = owners;
      paths = paths;
      satisfied = false;
      satisfied_by = [];
      explanation =
          text "requires an approval from a listed human CODEOWNER or an eligible "
          ++ text "application for every path";
      path_evidence = evidence;
    }

unfoldable pub judge_without_humans :
    Context → List Str → List Str → Result ValueError OwnerSetResult
unfolding author_result app_result judge_path
judge_without_humans context owners paths =
    if intersects context.author_identities owners then author_result context owners paths else (do
      evidence ← traverse (judge_path context owners) paths
      ok (app_result owners paths evidence))

unfoldable pub judge_with :
    Context → List Str → List Str → List PullRequestReview → Result ValueError OwnerSetResult
unfolding human_result judge_without_humans
judge_with context owners paths [] = judge_without_humans context owners paths
judge_with context owners paths (review ∷ reviews) =
    human_result context owners paths (review ∷ reviews)

unfoldable pub judge : Context → List Str × List Str → Result ValueError OwnerSetResult
unfolding judge_with
judge context (owners, paths) =
    judge_with context owners paths (satisfying_humans context.human_approvals owners)
