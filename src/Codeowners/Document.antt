-- ===== src/Codeowners/Document.antt =====
-- CodeownersRule and CodeownersDocument of codeowners.py.
use extra_codeowners.Prelude.{
  ℕ, Bool, List, [], ◌∷◌, Option, none, some, if◌then◌else◌, Result, ok, ◌>>=◌,
}
use extra_codeowners.Text.{Str}
use extra_codeowners.Regex.{Regex, fullmatch}
use extra_codeowners.Models.Normalize.{ValueError, normalize_repository_path}
use extra_codeowners.Codeowners.Pattern.{compile_pattern}

pub record CodeownersRule : Type 0 where
  pub pattern : Str
  pub owners : List Str
  pub line_number : ℕ
  pub regex : Regex

-- the constructor and its __post_init__
unfoldable pub new_rule : Str → List Str → ℕ → Result ValueError CodeownersRule
unfolding compile_pattern
new_rule pattern owners line_number = do
  regex ← compile_pattern pattern
  ok (record { pattern = pattern; owners = owners; line_number = line_number; regex = regex })

unfoldable pub matches : CodeownersRule → Str → Result ValueError Bool
matches rule path = do
  normalized_path ← normalize_repository_path path
  ok (fullmatch rule.regex normalized_path)

unfoldable pub matches_normalized : CodeownersRule → Str → Bool
matches_normalized rule path = fullmatch rule.regex path

pub record CodeownersDocument : Type 0 where
  pub rules : List CodeownersRule

-- the loop of `rule_for`: a later match replaces an earlier one
unfoldable pub last_match :
    List CodeownersRule → Str → Option CodeownersRule → Option CodeownersRule
unfolding matches_normalized
last_match [] path matched = matched
last_match (rule ∷ rules) path matched =
    last_match rules path (if matches_normalized rule path then some rule else matched)

unfoldable pub rule_for : CodeownersDocument → Str → Result ValueError (Option CodeownersRule)
unfolding last_match
rule_for document path = do
  normalized_path ← normalize_repository_path path
  ok (last_match document.rules normalized_path none)

unfoldable pub owners_of : Option CodeownersRule → List Str
owners_of none = []
owners_of (some rule) = rule.owners

unfoldable pub owners_for : CodeownersDocument → Str → Result ValueError (List Str)
unfolding rule_for owners_of
owners_for document path = do rule ← rule_for document path; ok (owners_of rule)
