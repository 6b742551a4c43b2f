-- ===== src/Evaluator/Coverage.antt =====
-- What it takes to cover one path, said for each path by itself: a person, the author, or an
-- application by a delegation. `judge` agrees with it.
use extra_codeowners.Prelude.{
  Bool, true, not, ◌&&◌, ◌||◌, List, [], ◌∷◌, ◌≡◌, refl, ◌∙◌, arith, list_eq, nat_eq, if◌then◌else◌,
  any, contains, intersects, text_le, any-sort, any-unique, any-keep, any-map, any-congr, ok,
}
use extra_codeowners.Text.{Str}
use extra_codeowners.Models.Paths.{IsNormalized}
use extra_codeowners.Models.Evidence.{PullRequestReview}
use extra_codeowners.Models.Results.{PathEvidence}
use extra_codeowners.Policy.Decision.{DelegationDecision, any_match, is_nil}
use extra_codeowners.Policy.Coalesce.{accepts}
use extra_codeowners.Policy.Coverage.{
  delegation_covers, decisions_of, delegation_decisions-eq, is_non_delegable-eq, any-decisions_of,
}
use extra_codeowners.Evaluator.Judgement.{
  Context, satisfying_humans, eligible_apps_of, path_approvals_of, delegable_evidence,
  blocked_evidence, judge_path, is_path_satisfied,
}

unfoldable pub human_covers : Context → List Str → Bool
human_covers context owners =
    any (λ (approval : PullRequestReview × List Str). intersects approval.1 owners)
      context.human_approvals

unfoldable pub author_covers : Context → List Str → Bool
author_covers context owners = intersects context.author_identities owners

-- an approved application may stand in: the path is delegable and some delegation covers it
unfoldable pub application_covers : Context → List Str → Str → Bool
application_covers context owners path =
    not (any_match context.policy.non_delegable_regexes path)
    && any (delegation_covers context.approved_apps context.labels owners path)
        context.policy.delegations

unfoldable pub is_covered : Context → List Str → Str → Bool
is_covered context owners path =
    human_covers context owners
    || author_covers context owners
    || application_covers context owners path

not-is_nil {ℓ} : {A : Type ℓ} (xs : List A) → not (is_nil xs) ≡ any (λ x. true) xs
unfolding is_nil any
not-is_nil [] = refl
not-is_nil (x ∷ xs) = refl

-- some eligible application has approved
path_approvals-eq :
    (approved : List Str) (decisions : List DelegationDecision)
    → not (is_nil (path_approvals_of (eligible_apps_of decisions) approved))
      ≡ any (accepts (contains approved)) decisions
unfolding path_approvals_of eligible_apps_of
path_approvals-eq approved decisions =
    not-is_nil _
    ∙ any-sort text_le (λ x. true) _
    ∙ any-unique (λ x. true) _
    ∙ any-keep (λ x. true) (contains approved) _
    ∙ any-map _ (λ (d : DelegationDecision). d.app_alias) _
    ∙ any-keep _ (λ (d : DelegationDecision). d.eligible) decisions
    ∙ any-congr _ (accepts (contains approved)) decisions (λ d. ground arith)

pub satisfying_humans-eq :
    (approvals : List (PullRequestReview × List Str)) (owners : List Str)
    → not (is_nil (satisfying_humans approvals owners))
      ≡ any (λ (approval : PullRequestReview × List Str). intersects approval.1 owners) approvals
unfolding satisfying_humans is_nil any
satisfying_humans-eq [] owners = refl
satisfying_humans-eq ((r, ids) ∷ approvals) owners =
    ground (arith, satisfying_humans-eq approvals owners)

-- every path of the list passed validation
unfoldable pub AllNormalized : List Str → Type 0
AllNormalized [] = Unit
AllNormalized (path ∷ paths) = IsNormalized path × AllNormalized paths

module _ (context : Context) where
  -- what `judge_path` returns for a path that passed validation
  abbrev pub path_evidence : List Str → Str → PathEvidence
  path_evidence owners path =
      if any_match context.policy.non_delegable_regexes path
      then blocked_evidence path
      else delegable_evidence context path (decisions_of context.policy path owners context.labels)

  pub judge_path-eq :
      (owners : List Str) (path : Str)
      → IsNormalized path
      → judge_path context owners path ≡ ok (path_evidence owners path)
  unfolding judge_path
  judge_path-eq owners path valid =
      rw
        (
          is_non_delegable-eq path valid context.policy,
          delegation_decisions-eq path valid context.policy owners context.labels,
        )
        (ground arith)

  pub path_evidence-satisfied :
      (owners : List Str) (path : Str)
      → is_path_satisfied (path_evidence owners path) ≡ application_covers context owners path
  unfolding is_path_satisfied blocked_evidence delegable_evidence application_covers
  path_evidence-satisfied owners path = ground (
    arith,
    path_approvals-eq context.approved_apps
        (decisions_of context.policy path owners context.labels),
    any-decisions_of context.approved_apps context.labels owners path context.policy,
  )
