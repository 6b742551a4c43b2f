-- ===== src/Evaluator/Enrollment.antt =====
-- An organization policy that passed validation credits a review to at most one application.
use extra_codeowners.Prelude.{
  ℕ, ◌≤◌, true, false, List, [], ◌∷◌, ◌≡◌, refl, ap, ◌∙◌, subst, arith, ◌==◌, nat_eq, list_eq, none,
  some, inl, inr, Bool-cases, Option-cases, any, keep, length, contains, eq_of_beq, Dict, ok,
  bind-inv,
}
use extra_codeowners.Text.{Str, Unicode}
use extra_codeowners.Models.Policies.{
  EnrolledApplication, OrganizationPolicy, identities_are_unique, validate_organization,
  normalize_app_aliases, validate_applications, validate_guardrails, at_most,
}
use extra_codeowners.Models.Evidence.{ReviewActor}
use extra_codeowners.Evaluator.Reviews.{is_enrolled_as, is_some_equal}

-- the enrolled applications that the actor could be
abbrev pub enrolled_as : ReviewActor → Dict Str EnrolledApplication → Dict Str EnrolledApplication
enrolled_as actor apps =
    keep (λ (entry : Str × EnrolledApplication). is_enrolled_as actor entry.1) apps

module _ (u : Unicode) (actor : ReviewActor) where
  -- an application that was seen is not enrolled again
  none_again :
      (ids bots : List ℕ) (slugs : List Str) (apps : Dict Str EnrolledApplication) (i : ℕ)
      → actor.app_id ≡ some i
      → contains ids i ≡ true
      → identities_are_unique u ids bots slugs apps ≡ ok tt
      → length (enrolled_as actor apps) ≡ 0
  unfolding identities_are_unique keep
  none_again ids bots slugs [] i a seen h = refl
  none_again ids bots slugs ((alias, app) ∷ apps) i a seen h =
      let fresh : contains ids app.app_id ≡ false = ground arith in
      let rest : identities_are_unique u (app.app_id ∷ ids) (app.bot_user_id ∷ bots)
            (app.slug ∷ slugs) apps
          ≡ ok tt =
        ground arith in
      let ih =
        none_again (app.app_id ∷ ids) (app.bot_user_id ∷ bots) (app.slug ∷ slugs) apps i a
          (unfold contains any in ground (arith, seen)) rest in
      let other : is_enrolled_as actor app ≡ false = differs app fresh in rw other ih
    where
      differs :
          (app' : EnrolledApplication)
          → contains ids app'.app_id ≡ false
          → is_enrolled_as actor app' ≡ false
      differs app' fresh = elim (Bool-cases (app'.app_id == i)) [
        | inl same ↦
            let again : contains ids app'.app_id ≡ true =
              ap (contains ids) (eq_of_beq app'.app_id i same) ∙ seen in
            cc (again, fresh)
        | inr apart ↦ unfold is_enrolled_as is_some_equal in rw a (rw apart refl)
      ]

  no_app_id :
      (apps : Dict Str EnrolledApplication)
      → actor.app_id ≡ none
      → length (enrolled_as actor apps) ≡ 0
  unfolding keep
  no_app_id [] a = refl
  no_app_id ((alias, app) ∷ apps) a =
      let other : is_enrolled_as actor app ≡ false =
        unfold is_enrolled_as is_some_equal in rw a refl in
      rw other (no_app_id apps a)

  enrolled_app_id :
      (app : EnrolledApplication) (i : ℕ)
      → actor.app_id ≡ some i
      → is_enrolled_as actor app ≡ true
      → (app.app_id == i) ≡ true
  unfolding is_enrolled_as is_some_equal
  enrolled_app_id app i a h = ground arith

  at_most_one :
      (ids bots : List ℕ) (slugs : List Str) (apps : Dict Str EnrolledApplication) (i : ℕ)
      → actor.app_id ≡ some i
      → identities_are_unique u ids bots slugs apps ≡ ok tt
      → length (enrolled_as actor apps) ≤ 1
  unfolding identities_are_unique keep
  at_most_one ids bots slugs [] i a h = omega arith
  at_most_one ids bots slugs ((alias, app) ∷ apps) i a h =
      let rest : identities_are_unique u (app.app_id ∷ ids) (app.bot_user_id ∷ bots)
            (app.slug ∷ slugs) apps
          ≡ ok tt =
        ground arith in
      elim (Bool-cases (is_enrolled_as actor app)) [
        | inl enrolled ↦
            let seen : contains (app.app_id ∷ ids) i ≡ true =
              unfold contains any in rw (enrolled_app_id app i a enrolled) refl in
            rw enrolled (
              omega (
                arith,
                none_again (app.app_id ∷ ids) (app.bot_user_id ∷ bots) (app.slug ∷ slugs) apps i a
                    seen rest,
              ))
        | inr other ↦ rw other (
            at_most_one (app.app_id ∷ ids) (app.bot_user_id ∷ bots) (app.slug ∷ slugs) apps i a
              rest)
      ]

-- the last check of the validator was passed by the applications that it returned
validated_identities :
    (u : Unicode) (raw policy : OrganizationPolicy)
    → validate_organization u raw ≡ ok policy
    → identities_are_unique u [] [] [] policy.apps ≡ ok tt
unfolding validate_organization
validated_identities u raw policy h =
    let (normalized, e₁, h₁) = bind-inv (normalize_app_aliases u [] raw.apps) _ h in
    let (t, e₂, h₂) = bind-inv (at_most 50 normalized) _ h₁ in
    let (apps, e₃, h₃) = bind-inv (validate_applications u normalized) _ h₂ in
    let (guardrails, e₄, h₄) = bind-inv (validate_guardrails raw.guardrails) _ h₃ in
    let (t', e₅, h₅) = bind-inv (identities_are_unique u [] [] [] apps) _ h₄ in
    let same : apps ≡ policy.apps = ground arith in
    subst (λ a. identities_are_unique u [] [] [] a ≡ ok tt) same e₅

-- Of the applications of an organization policy that the validator returned, at most one has the
-- numeric id, the slug, the bot user and the login of a given review actor.
pub enrolled_at_most_once :
    (u : Unicode) (raw policy : OrganizationPolicy) (actor : ReviewActor)
    → validate_organization u raw ≡ ok policy
    → length (enrolled_as actor policy.apps) ≤ 1
enrolled_at_most_once u raw policy actor h = elim (Option-cases actor.app_id) [
  | inl none' ↦ omega (arith, no_app_id u actor policy.apps none')
  | inr (i, a) ↦ at_most_one u actor [] [] [] policy.apps i a (validated_identities u raw policy h)
]
