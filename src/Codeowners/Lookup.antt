-- ===== src/Codeowners/Lookup.antt =====
-- `rule_for` returns the last rule that matches.
use extra_codeowners.Prelude.{
  Bool, true, not, List, [], ◌∷◌, ◌++◌, ◌≡◌, ◌⊎◌, refl, ap, arith, inl, inr, Bool-cases, all,
  Option, none, some, ok, if◌then◌else◌,
}
use extra_codeowners.Text.{Str}
use extra_codeowners.Models.Paths.{IsNormalized}
use extra_codeowners.Codeowners.Document.{
  CodeownersRule, matches_normalized, CodeownersDocument, last_match, rule_for,
}

-- no rule matches
abbrev pub no_match : Str → List CodeownersRule → Bool
no_match path = all (λ rule. not (matches_normalized rule path))

-- the rule matches, and none of the rules behind it does
abbrev pub IsLastMatch : Str → List CodeownersRule → CodeownersRule → Type 0
IsLastMatch path rules rule =
    (before : List CodeownersRule) × (after : List CodeownersRule) × (rules
      ≡ before ++ rule ∷ after)
    × (matches_normalized rule path ≡ true)
    × (no_match path after ≡ true)

last_match-cases :
    (rules : List CodeownersRule) (path : Str) (matched : Option CodeownersRule)
    → ((no_match path rules ≡ true) × (last_match rules path matched ≡ matched))
      ⊎ ((rule : CodeownersRule) × IsLastMatch path rules rule
          × (last_match rules path matched ≡ some rule))
unfolding last_match all
last_match-cases [] path matched = inl (refl, refl)
last_match-cases (rule ∷ rules) path matched =
    elim (last_match-cases rules path
      (if matches_normalized rule path then some rule else matched)) [
        | inr (r, (before, after, e, m, n), l) ↦
            inr (r, (rule ∷ before, after, ap (λ rs. rule ∷ rs) e, m, n), l)
        | inl (n, l) ↦ elim (Bool-cases (matches_normalized rule path)) [
          | inl hit ↦ inr (rule, ([], rules, refl, hit, n), ground arith)
          | inr miss ↦ inl (ground arith, ground arith)
        ]
      ]

-- For a path that passed validation, `rule_for` returns either no rule, and then no rule matches,
-- or a rule that matches and stands behind every other match.
pub rule_for_last :
    (document : CodeownersDocument) (path : Str)
    → IsNormalized path
    → ((rule_for document path ≡ ok none) × (no_match path document.rules ≡ true))
      ⊎ ((rule : CodeownersRule) × (rule_for document path ≡ ok (some rule))
          × IsLastMatch path document.rules rule)
unfolding rule_for
rule_for_last document path valid = elim (last_match-cases document.rules path none) [
  | inl (n, l) ↦ inl (rw (valid, l) refl, n)
  | inr (rule, last, l) ↦ inr (rule, rw (valid, l) refl, last)
]
