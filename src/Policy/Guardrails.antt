-- ===== src/Policy/Guardrails.antt =====
-- Which paths no application may cover, and whom a repository may delegate to.
use extra_codeowners.Prelude.{
  true, false, List, [], ◌∷◌, ◌++◌, ◌≡◌, refl, ap, ◌∙◌, arith, inl, inr, Bool-cases, any, contains,
  nat_eq, list_eq, ◌==◌, Result, ok, err, traverse, traverse-cons, any-append, eq_of_beq, list_beq,
}
use extra_codeowners.Text.{Str, text, split, slash, Unicode}
use extra_codeowners.Regex.{Regex, fullmatch}
use extra_codeowners.Models.Normalize.{ValueError, is_dots}
use extra_codeowners.Models.Paths.{IsNormalized}
use extra_codeowners.Models.Policies.{OrganizationPolicy, RepositoryPolicy}
use extra_codeowners.Models.Evidence.{EvaluationOptions}
use extra_codeowners.Codeowners.Pattern.{compile_pattern, regex_of_value}
use extra_codeowners.Codeowners.Literal.{IsPlain, HasNoNewline, below, directory_pattern_iff}
use extra_codeowners.Policy.Decision.{CompiledPolicy, any_match, is_non_delegable}
use extra_codeowners.Policy.Compile.{
  builtin_non_delegable_paths, Compiled, non_delegable_patterns_of, new_policy, compile_policy,
}
use extra_codeowners.Policy.Coverage.{is_non_delegable-eq}

-- what a compiled policy was built from
new_policy-inv :
    (organization : OrganizationPolicy) (repository : RepositoryPolicy) (patterns : List Str)
    (compiled : Result ValueError Compiled) {policy : CompiledPolicy}
    → new_policy organization repository patterns compiled ≡ ok policy
    → (c : Compiled) × (compiled ≡ ok c)
      × (c.delegations ≡ policy.delegations)
      × (traverse compile_pattern patterns ≡ ok policy.non_delegable_regexes)
unfolding new_policy
new_policy-inv organization repository patterns (err e) h = cc
new_policy-inv organization repository patterns (ok c) h = (c, refl, ground arith, ground arith)

module _ (u : Unicode) (organization : OrganizationPolicy) (repository : RepositoryPolicy)
    (options : EvaluationOptions) (policy : CompiledPolicy)
    (compiled : compile_policy u organization repository options ≡ ok policy) where
  compiled_regexes :
      traverse compile_pattern (non_delegable_patterns_of organization repository options)
      ≡ ok policy.non_delegable_regexes
  unfolding compile_policy
  compiled_regexes = let (c, e, d, t) = new_policy-inv organization repository _ _ compiled in t

-- a pattern of the list is in force
any_match-traverse :
    (patterns : List Str) {regexes : List Regex} (pattern path : Str) (regex : Regex)
    → traverse compile_pattern patterns ≡ ok regexes
    → contains patterns pattern ≡ true
    → compile_pattern pattern ≡ ok regex
    → fullmatch regex path ≡ true
    → any_match regexes path ≡ true
unfolding contains any any_match
any_match-traverse [] pattern path regex t m c h = cc
any_match-traverse (p ∷ patterns) pattern path regex t m c h =
    let (y, rest, e, t', shape) = traverse-cons compile_pattern p patterns t in
    elim (Bool-cases (p == pattern)) [
      | inl same ↦
          let chosen : y ≡ regex =
            ground (arith, ap compile_pattern (eq_of_beq p pattern same), e, c) in
          rw (shape, chosen) (rw h refl)
      | inr other ↦
          let later : contains patterns pattern ≡ true = rw other at m in
          let rest_matches = any_match-traverse patterns pattern path regex t' later c h in
          rw shape (ground (arith, rest_matches))
    ]

-- the directories that the built-in guardrails name by "/**"
pub data Guarded : Str → Type 0 where
  workflows : Guarded (text ".github/workflows")
  actions : Guarded (text ".github/actions")

Guarded-compile :
    {d : Str}
    → Guarded d
    → compile_pattern (slash ∷ d ++ below) ≡ ok (regex_of_value (slash ∷ d ++ below))
unfolding compile_pattern text any contains list_beq is_dots split
Guarded-compile workflows = refl
Guarded-compile actions = refl

Guarded-IsPlain : {d : Str} → Guarded d → IsPlain d
unfolding IsPlain text
Guarded-IsPlain workflows = ground arith
Guarded-IsPlain actions = ground arith

Guarded-builtin :
    {d : Str} → Guarded d → contains builtin_non_delegable_paths (slash ∷ d ++ below) ≡ true
unfolding builtin_non_delegable_paths text contains any list_beq
Guarded-builtin workflows = refl
Guarded-builtin actions = refl

contains-patterns :
    (organization : OrganizationPolicy) (repository : RepositoryPolicy)
    (options : EvaluationOptions) (pattern : Str)
    → options.allow_insecure_changes ≡ false
    → contains builtin_non_delegable_paths pattern ≡ true
    → contains (non_delegable_patterns_of organization repository options) pattern ≡ true
unfolding non_delegable_patterns_of contains
contains-patterns organization repository options pattern secure there =
    elim (Bool-cases repository.allow_delegation_for_policy_file) [
      | inl policy_file ↦
          rw
            (
              secure,
              policy_file,
              any-append (λ x. x == pattern) builtin_non_delegable_paths
                  organization.guardrails.non_delegable_paths,
              there,
            )
            refl
      | inr kept ↦
          rw
            (
              secure,
              kept,
              any-append (λ x. x == pattern)
                  (builtin_non_delegable_paths ++ (slash ∷ options.repository_policy_path) ∷ [])
                  organization.guardrails.non_delegable_paths,
              any-append (λ x. x == pattern) builtin_non_delegable_paths
                  ((slash ∷ options.repository_policy_path) ∷ []),
              there,
            )
            refl
    ]

-- Unless the operator allows insecure changes, every policy that compiles, whatever the
-- organization and the repository wrote, forbids applications on each path below
-- .github/workflows/ and .github/actions/ that has no newline in the rest of its name.
pub builtin_guardrail :
    (u : Unicode) (organization : OrganizationPolicy) (repository : RepositoryPolicy)
    (options : EvaluationOptions) (policy : CompiledPolicy) {d : Str} (rest : Str)
    → compile_policy u organization repository options ≡ ok policy
    → options.allow_insecure_changes ≡ false
    → Guarded d
    → HasNoNewline rest
    → IsNormalized (d ++ slash ∷ rest)
    → is_non_delegable policy (d ++ slash ∷ rest) ≡ ok true
builtin_guardrail u organization repository options policy {d} rest compiled secure guarded clean
      valid =
    is_non_delegable-eq (d ++ slash ∷ rest) valid policy
    ∙ ap ok (
        any_match-traverse (non_delegable_patterns_of organization repository options)
          (slash ∷ d ++ below) (d ++ slash ∷ rest) (regex_of_value (slash ∷ d ++ below))
          (compiled_regexes u organization repository options policy compiled)
          (contains-patterns organization repository options (slash ∷ d ++ below) secure
            (Guarded-builtin guarded))
          (Guarded-compile guarded)
          ((directory_pattern_iff d (d ++ slash ∷ rest) (Guarded-IsPlain guarded)).1
            (rest, refl, clean)))
