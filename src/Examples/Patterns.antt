-- ===== src/Examples/Patterns.antt =====
-- Patterns of CODEOWNERS files at concrete paths.
use extra_codeowners.Prelude.{
  ℕ, Bool, true, false, List, [], ◌∷◌, ◌++◌, ◌≡◌, ◌⊎◌, ◌↔◌, refl, arith, Option, none, some, ok,
}
use extra_codeowners.Text
use extra_codeowners.Text.{Str, text, slash}
use extra_codeowners.Regex
use extra_codeowners.Regex.{Regex, Class, exactly, not_slash, one, many, seq, fullmatch}
use extra_codeowners.Regex.Matching.{Matches, fullmatch_iff}
use extra_codeowners.Models.Normalize
use extra_codeowners.Models.Paths.{IsNormalized}
use extra_codeowners.Codeowners.Pattern
use extra_codeowners.Codeowners.Pattern.{regex_of_value}
use extra_codeowners.Codeowners.Document.{CodeownersRule, CodeownersDocument, rule_for}
use extra_codeowners.Codeowners.Literal.{IsPlain, HasNoNewline, below, directory_pattern_iff}
use extra_codeowners.Codeowners.Lookup.{IsLastMatch, no_match, rule_for_last}

abbrev docs : Str
docs = text "docs"

abbrev readme : Str
readme = text "docs/a.md"

docs-IsPlain : IsPlain docs
unfolding IsPlain text
docs-IsPlain = (refl, refl, (refl, refl, (refl, refl, (refl, refl, tt))))

directory_pattern_iff_example :
    (fullmatch (regex_of_value (slash ∷ docs ++ below)) readme ≡ true)
    ↔ ((rest : Str) × (readme ≡ docs ++ slash ∷ rest) × HasNoNewline rest)
directory_pattern_iff_example = directory_pattern_iff docs readme docs-IsPlain

abbrev word : Regex
word = seq (one (exactly b'a')) (many not_slash)

fullmatch_iff_example : (fullmatch word (text "abc") ≡ true) ↔ Matches word (text "abc")
fullmatch_iff_example = fullmatch_iff word (text "abc")

readme_matches : fullmatch (regex_of_value (slash ∷ text "docs/*.md")) readme ≡ true
unfolding text fullmatch regex_of_value extra_codeowners.Prelude.contains Text.drop_while_end
    Text.remove_prefix Text.starts_with Regex.concat Pattern.translate Text.ends_with Regex.in_class
readme_matches = refl

abbrev rule_of : Str → Str → ℕ → CodeownersRule
rule_of pattern owner n = record {
  pattern = pattern;
  owners = owner ∷ [];
  line_number = n;
  regex = regex_of_value pattern;
}

abbrev two_rules : CodeownersDocument
two_rules = record {
  rules = rule_of (text "*") (text "@all") 1 ∷ rule_of docs (text "@writers") 2 ∷ [];
}

readme-IsNormalized : IsNormalized readme
unfolding text Normalize.normalize_repository_path extra_codeowners.Prelude.list_beq Text.strip
    Text.starts_with Text.split
readme-IsNormalized = refl

rule_for_last_example :
    ((rule_for two_rules readme ≡ ok none) × (no_match readme two_rules.rules ≡ true))
    ⊎ ((rule : CodeownersRule) × (rule_for two_rules readme ≡ ok (some rule))
        × IsLastMatch readme two_rules.rules rule)
rule_for_last_example = rule_for_last two_rules readme readme-IsNormalized

docs_rule_wins : rule_for two_rules readme ≡ ok (some (rule_of docs (text "@writers") 2))
unfolding text rule_for Normalize.normalize_repository_path extra_codeowners.Prelude.list_beq
    Text.strip Text.starts_with Text.split fullmatch regex_of_value Text.remove_prefix
    Regex.in_class Regex.concat Pattern.translate Text.ends_with
docs_rule_wins = refl
