-- ===== src/Policy/Coalesce.antt =====
-- Which applications `delegation_decisions` finds eligible: grouping by alias, coalescing and
-- sorting lose none and add none.
use extra_codeowners.Prelude.{
  Bool, not, ◌&&◌, ◌||◌, List, [], ◌∷◌, ◌++◌, ◌≡◌, refl, ap, ◌∙◌, arith, list_eq, nat_eq,
  if◌then◌else◌, none, some, any, all, keep, contains, Dict, lookup, assign, map, sort, any-map,
  any-sort, any-append, any-congr, eq_of_beq,
}
use extra_codeowners.Text.{Str}
use extra_codeowners.Models.Policies.{Delegation}
use extra_codeowners.Policy.Decision.{
  DelegationDecision, is_nil, label_reason, missing_labels, forbidden_present, label_decision,
  somes, append_at, group_by_app, coalesce, alias_le,
}

-- every required label is there, and no forbidden one
unfoldable pub labels_allow : Delegation → List Str → Bool
labels_allow rule labels =
    all (λ label. contains labels label) rule.required_labels
    && not (any (λ label. contains labels label) rule.forbidden_labels)

is_nil-keep-not : (p : Str → Bool) (xs : List Str) → is_nil (keep (λ x. not (p x)) xs) ≡ all p xs
unfolding is_nil keep all
is_nil-keep-not p [] = refl
is_nil-keep-not p (x ∷ xs) = ground (arith, is_nil-keep-not p xs)

is_nil-keep : (p : Str → Bool) (xs : List Str) → is_nil (keep p xs) ≡ not (any p xs)
unfolding is_nil keep any
is_nil-keep p [] = refl
is_nil-keep p (x ∷ xs) = ground (arith, is_nil-keep p xs)

is_nil-label_reason :
    (m n : Str) (xs ys : List Str)
    → is_nil (label_reason m xs ++ label_reason n ys) ≡ (is_nil xs && is_nil ys)
unfolding is_nil label_reason
is_nil-label_reason m n [] [] = refl
is_nil-label_reason m n [] (y ∷ ys) = refl
is_nil-label_reason m n (x ∷ xs) ys = refl

-- a delegation is eligible exactly when its label conditions hold
pub eligible-label_decision :
    (rule : Delegation) (labels : List Str)
    → (label_decision rule labels).eligible ≡ labels_allow rule labels
unfolding label_decision labels_allow
eligible-label_decision rule labels =
    is_nil-label_reason _ _ (missing_labels rule labels) (forbidden_present rule labels)
    ∙ ap (λ b. b && is_nil (forbidden_present rule labels))
        (is_nil-keep-not (contains labels) rule.required_labels)
    ∙ ap (λ b. all (λ label. contains labels label) rule.required_labels && b)
        (is_nil-keep (contains labels) rule.forbidden_labels)

module _ (q : Str → Bool) where
  -- an eligible decision of an alias that `q` accepts
  abbrev pub accepts : DelegationDecision → Bool
  accepts decision = decision.eligible && q decision.app_alias

  abbrev group_accepts : Str × List DelegationDecision → Bool
  group_accepts (alias, decisions) = any (λ decision. decision.eligible) decisions && q alias

  accepts-coalesce :
      (group : Str × List DelegationDecision) → accepts (coalesce group) ≡ group_accepts group
  unfolding coalesce
  accepts-coalesce (alias, decisions) = ground arith

  any-assign :
      (d : DelegationDecision) (by_app : Dict Str (List DelegationDecision))
      → any group_accepts (assign d.app_alias (append_at (lookup d.app_alias by_app) d) by_app)
        ≡ (any group_accepts by_app || accepts d)
  unfolding any assign lookup append_at
  any-assign d [] = ground arith
  any-assign d ((j, w) ∷ by_app) = ground (
    arith,
    any-assign d by_app,
    eq_of_beq j d.app_alias,
    any-append (λ (x : DelegationDecision). x.eligible) w (d ∷ []),
  )

  any-group_by_app :
      (by_app : Dict Str (List DelegationDecision)) (decisions : List DelegationDecision)
      → any group_accepts (group_by_app by_app decisions)
        ≡ (any group_accepts by_app || any accepts decisions)
  unfolding group_by_app any
  any-group_by_app by_app [] = ground arith
  any-group_by_app by_app (d ∷ decisions) = ground (
    arith,
    any-assign d by_app,
    any-group_by_app (assign d.app_alias (append_at (lookup d.app_alias by_app) d) by_app)
        decisions,
  )

  pub any-coalesced :
      (decisions : List DelegationDecision)
      → any accepts (map coalesce (sort alias_le (group_by_app [] decisions)))
        ≡ any accepts decisions
  unfolding any
  any-coalesced decisions =
      any-map accepts coalesce (sort alias_le (group_by_app [] decisions))
      ∙ any-congr (λ group. accepts (coalesce group)) group_accepts _ accepts-coalesce
      ∙ any-sort alias_le group_accepts (group_by_app [] decisions)
      ∙ any-group_by_app [] decisions

  pub any-somes_if {ℓ} :
      {A : Type ℓ} (test : A → Bool) (f : A → DelegationDecision) (xs : List A)
      → any accepts (somes (map (λ x. if test x then some (f x) else none) xs))
        ≡ any (λ x. test x && accepts (f x)) xs
  unfolding any somes
  any-somes_if test f [] = refl
  any-somes_if test f (x ∷ xs) = ground (arith, any-somes_if test f xs)
