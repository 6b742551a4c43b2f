-- ===== src/Policy/Enrollment.antt =====
-- What `compile_policy` makes of the delegations of a repository: all of them, each with its
-- enrolled application.
use mathlib.Core.List.{append_assoc, append-nil}
use extra_codeowners.Prelude.{
  ℕ, suc, true, List, [], ◌∷◌, ◌++◌, ◌≡◌, refl, ap, sym, ◌∙◌, subst, arith, inl, inr, Bool-cases,
  Option-cases, none, some, lookup, list_eq, nat_eq, Result, ok, err, traverse, bind-inv,
}
use extra_codeowners.Text.{Str, Unicode}
use extra_codeowners.Regex.{Regex}
use extra_codeowners.Models.Normalize.{ValueError}
use extra_codeowners.Models.Policies.{
  EnrolledApplication, OrganizationPolicy, Delegation, RepositoryPolicy,
}
use extra_codeowners.Models.Evidence.{EvaluationOptions}
use extra_codeowners.Codeowners.Pattern.{compile_pattern}
use extra_codeowners.Policy.Decision.{CompiledDelegation, new_delegation, CompiledPolicy, is_nil}
use extra_codeowners.Policy.Compile.{
  Compiled, pattern_issues, delegation_issue, add_delegation, compile_delegations, unenrolled,
  new_policy, compile_policy,
}

abbrev compiled_delegation : Delegation → EnrolledApplication → List Regex → CompiledDelegation
compiled_delegation d a regexes = record { rule = d; application = a; path_patterns = regexes }

-- one compiled delegation for each delegation, in order: with the application that the organization
-- enrolled under its alias, and with an expression for each of its paths
pub data Compiles (organization : OrganizationPolicy)
    : List Delegation → List CompiledDelegation → Type 0 where
  no_delegation : Compiles organization [] []
  next_delegation :
      {d : Delegation} {application : EnrolledApplication} {regexes : List Regex}
      {ds : List Delegation} {cs : List CompiledDelegation}
      → lookup d.app organization.apps ≡ some application
      → traverse compile_pattern d.paths ≡ ok regexes
      → Compiles organization ds cs
      → Compiles organization (d ∷ ds) (compiled_delegation d application regexes ∷ cs)

-- what a step of the loop that found no issue has added
abbrev Added : OrganizationPolicy → Delegation → Compiled → Compiled → Type 0
Added organization d before after =
    (before.issues ≡ [])
    × (application : EnrolledApplication) × (regexes : List Regex) × (lookup d.app organization.apps
        ≡ some application)
    × (traverse compile_pattern d.paths ≡ ok regexes)
    × (after.delegations ≡ before.delegations ++ compiled_delegation d application regexes ∷ [])

not_nil {ℓ} : {A : Type ℓ} (xs : List A) (x : A) → xs ++ x ∷ [] ≡ [] → ⊥
not_nil [] x h = cc
not_nil (y ∷ xs) x h = cc

left_nil {ℓ} : {A : Type ℓ} (xs ys : List A) → xs ++ ys ≡ [] → xs ≡ []
left_nil [] ys h = refl
left_nil (x ∷ xs) ys h = absurd cc

right_nil {ℓ} : {A : Type ℓ} (xs ys : List A) → xs ++ ys ≡ [] → ys ≡ []
right_nil [] ys h = h
right_nil (x ∷ xs) ys h = absurd cc

module _ (u : Unicode) (organization : OrganizationPolicy) where
  add_none :
      (index : ℕ) (d : Delegation) (before : Compiled) {after : Compiled}
      → add_delegation u index d none before ≡ ok after
      → after.issues ≡ []
      → ⊥
  unfolding add_delegation
  add_none index d before {after} h clean =
      let same : before.issues ++ unenrolled u index d.app ∷ [] ≡ after.issues = ground arith in
      not_nil before.issues (unenrolled u index d.app) (same ∙ clean)

  add_some :
      (index : ℕ) (d : Delegation) (a : EnrolledApplication) (before : Compiled) {after : Compiled}
      → lookup d.app organization.apps ≡ some a
      → add_delegation u index d (some a) before ≡ ok after
      → after.issues ≡ []
      → Added organization d before after
  unfolding add_delegation new_delegation
  add_some index d a before {after} enrolled h clean =
      let found = pattern_issues (delegation_issue u index) d.paths in
      elim (Bool-cases (is_nil found)) [
        | inl fine ↦
            let h₁ = rw fine at h in
            let (valid, e₁, h₂) = bind-inv (new_delegation d a) _ h₁ in
            let (regexes, e₂, h₃) = bind-inv (traverse compile_pattern d.paths) _ e₁ in
            let issues : before.issues ≡ after.issues = ground arith in
            let delegations : before.delegations ++ valid ∷ [] ≡ after.delegations = ground arith in
            let made : compiled_delegation d a regexes ≡ valid = ground arith in
            (
              issues ∙ clean,
              a,
              regexes,
              enrolled,
              e₂,
              sym delegations ∙ ap (λ v. before.delegations ++ v ∷ []) (sym made),
            )
        | inr bad ↦
            let h₁ = rw bad at h in
            let issues : before.issues ++ found ≡ after.issues = ground arith in
            let none_found : found ≡ [] = right_nil before.issues found (issues ∙ clean) in
            let empty : is_nil found ≡ true = rw none_found (unfold is_nil in refl) in absurd cc
      ]

  add_delegation-Added :
      (index : ℕ) (d : Delegation) (before : Compiled) {after : Compiled}
      → add_delegation u index d (lookup d.app organization.apps) before ≡ ok after
      → after.issues ≡ []
      → Added organization d before after
  add_delegation-Added index d before {after} h clean =
      elim (Option-cases (lookup d.app organization.apps)) [
        | inl missing ↦ absurd (add_none index d before (rw missing at h) clean)
        | inr (a, enrolled) ↦ add_some index d a before enrolled (rw enrolled at h) clean
      ]

  pub compile_delegations-Compiles :
      (index : ℕ) (ds : List Delegation) (before : Compiled) {after : Compiled}
      → compile_delegations u organization index ds before ≡ ok after
      → after.issues ≡ []
      → (before.issues ≡ [])
        × (cs : List CompiledDelegation) × (after.delegations ≡ before.delegations ++ cs)
        × Compiles organization ds cs
  unfolding compile_delegations
  compile_delegations-Compiles index [] before {after} h clean =
      let issues : before.issues ≡ after.issues = ground arith in
      let delegations : before.delegations ≡ after.delegations = ground arith in
      (issues ∙ clean, [], sym delegations ∙ sym (append-nil before.delegations), no_delegation)
  compile_delegations-Compiles index (d ∷ ds) before {after} h clean =
      let (mid, e, h') =
        bind-inv (add_delegation u index d (lookup d.app organization.apps) before) _ h in
      let (clean', cs, delegations, compiles) =
        compile_delegations-Compiles (suc index) ds mid h' clean in
      let (clean'', a, regexes, enrolled, expressions, added) =
        add_delegation-Added index d before e clean' in
      (
        clean'',
        compiled_delegation d a regexes ∷ cs,
        delegations
            ∙ ap (λ xs. xs ++ cs) added
            ∙ append_assoc before.delegations (compiled_delegation d a regexes ∷ []) cs,
        next_delegation enrolled expressions compiles,
      )

  new_policy-clean :
      (repository : RepositoryPolicy) (patterns : List Str) (compiled : Result ValueError Compiled)
      {policy : CompiledPolicy}
      → new_policy organization repository patterns compiled ≡ ok policy
      → (c : Compiled) × (compiled ≡ ok c) × (c.issues ≡ []) × (c.delegations ≡ policy.delegations)
  unfolding new_policy
  new_policy-clean repository patterns (err e) h = cc
  new_policy-clean repository patterns (ok c) h = (c, refl, ground arith, ground arith)

  -- A policy that compiles has one compiled delegation for each delegation of the repository, in
  -- order and none left out: with the application that the organization enrolled under its alias,
  -- and with the expressions of all its paths.
  pub compile_policy-Compiles :
      (repository : RepositoryPolicy) (options : EvaluationOptions) (policy : CompiledPolicy)
      → compile_policy u organization repository options ≡ ok policy
      → Compiles organization repository.delegations policy.delegations
  unfolding compile_policy
  compile_policy-Compiles repository options policy h =
      let (c, e, clean, same) = new_policy-clean repository _ _ h in
      let (clean', cs, delegations, compiles) =
        compile_delegations-Compiles 1 repository.delegations _ e clean in
      subst (Compiles organization repository.delegations) (sym delegations ∙ same) compiles
