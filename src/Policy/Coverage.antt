-- ===== src/Policy/Coverage.antt =====
-- What the compiled policy decides about a path, in one test for each delegation.
use extra_codeowners.Prelude.{
  Bool, ◌&&◌, List, [], ◌≡◌, refl, ◌∙◌, arith, list_eq, nat_eq, if◌then◌else◌, none, some, any,
  contains, map, sort, any-congr, ok, traverse_pure,
}
use extra_codeowners.Text.{Str}
use extra_codeowners.Models.Paths.{IsNormalized}
use extra_codeowners.Policy.Decision.{
  DelegationDecision, CompiledDelegation, CompiledPolicy, any_match, owner_matches,
  applies_to_path_and_owners, label_decision, decide, somes, group_by_app, coalesce, alias_le,
  is_non_delegable, delegation_decisions,
}
use extra_codeowners.Policy.Coalesce.{
  labels_allow, eligible-label_decision, accepts, any-coalesced, any-somes_if,
}

-- the delegation names the path, one of the owners and the labels, and `approved` its application
unfoldable pub delegation_covers : List Str → List Str → List Str → Str → CompiledDelegation → Bool
delegation_covers approved labels owners path delegation =
    any_match delegation.path_patterns path
    && owner_matches delegation.rule owners
    && labels_allow delegation.rule labels
    && contains approved delegation.rule.app

unfoldable pub applies : Str → List Str → CompiledDelegation → Bool
applies path owners delegation =
    any_match delegation.path_patterns path && owner_matches delegation.rule owners

-- the decisions about a path that passed validation
unfoldable pub decisions_of : CompiledPolicy → Str → List Str → List Str → List DelegationDecision
decisions_of policy path owners labels = map coalesce (
    sort alias_le (
      group_by_app [] (
        somes (
          map
            (λ delegation.
              if applies path owners delegation
              then some (label_decision delegation.rule labels)
              else none)
            policy.delegations))))

module _ (path : Str) (valid : IsNormalized path) where
  decide-eq :
      (owners labels : List Str) (d : CompiledDelegation)
      → decide d path owners labels
        ≡ ok (if applies path owners d then some (label_decision d.rule labels) else none)
  unfolding decide applies_to_path_and_owners applies
  decide-eq owners labels d = rw valid refl

  pub delegation_decisions-eq :
      (policy : CompiledPolicy) (owners labels : List Str)
      → delegation_decisions policy path owners labels ≡ ok (decisions_of policy path owners labels)
  unfolding delegation_decisions decisions_of
  delegation_decisions-eq policy owners labels =
      rw
        (traverse_pure (λ d. decide d path owners labels) _ policy.delegations
          (decide-eq owners labels))
        refl

  pub is_non_delegable-eq :
      (policy : CompiledPolicy)
      → is_non_delegable policy path ≡ ok (any_match policy.non_delegable_regexes path)
  unfolding is_non_delegable
  is_non_delegable-eq policy = rw valid refl

module _ (approved labels owners : List Str) (path : Str) where
  applies_and_accepts :
      (d : CompiledDelegation)
      → (applies path owners d && accepts (contains approved) (label_decision d.rule labels))
        ≡ delegation_covers approved labels owners path d
  unfolding applies delegation_covers label_decision
  applies_and_accepts d = ground (arith, eligible-label_decision d.rule labels)

  -- Some decision about the path, after grouping by application and coalescing, is eligible and of an
  -- approved application exactly when some delegation of the policy names the path, one of the
  -- owners and the labels, and an approved application.
  pub any-decisions_of :
      (policy : CompiledPolicy)
      → any (accepts (contains approved)) (decisions_of policy path owners labels)
        ≡ any (delegation_covers approved labels owners path) policy.delegations
  unfolding decisions_of
  any-decisions_of policy =
      any-coalesced (contains approved) _
      ∙ any-somes_if (contains approved) (applies path owners)
          (λ (d : CompiledDelegation). label_decision d.rule labels) policy.delegations
      ∙ any-congr _ (delegation_covers approved labels owners path) policy.delegations
          applies_and_accepts

  -- For a validated path the decisions are returned, and some decision, after grouping by
  -- application and coalescing, is eligible and of an approved application exactly when some
  -- delegation of the policy names the path, one of the owners and the labels, and an approved
  -- application.
  pub any-delegation_decisions :
      (policy : CompiledPolicy)
      → IsNormalized path
      → (decisions : List DelegationDecision) × (delegation_decisions policy path owners labels
          ≡ ok decisions)
        × (any (accepts (contains approved)) decisions
            ≡ any (delegation_covers approved labels owners path) policy.delegations)
  any-delegation_decisions policy valid = (
    decisions_of policy path owners labels,
    delegation_decisions-eq path valid policy owners labels,
    any-decisions_of policy,
  )
