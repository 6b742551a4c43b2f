-- ===== src/Examples/Parsing.antt =====
-- CODEOWNERS files and organization policies at concrete texts.
use extra_codeowners.Prelude
use extra_codeowners.Prelude.{
  ℕ, Bool, true, false, List, [], ◌∷◌, ◌≡◌, ◌≤◌, refl, arith, Option, none, some, map, length, ok,
  ltb, leb, ◌+◌, ◌&&◌, if◌then◌else◌, any,
}
use extra_codeowners.Text
use extra_codeowners.Text.{Str, Unicode, text, join, utf8_length, is_surrogate, split_lines}
use extra_codeowners.Regex
use extra_codeowners.Models.Normalize
use extra_codeowners.Models.Policies.{OrganizationPolicy, validate_organization}
use extra_codeowners.Models.Evidence.{ReviewActor, application}
use extra_codeowners.Codeowners.Document.{CodeownersRule}
use extra_codeowners.Codeowners.Parser.{
  CodeownersIssue, split_line, parse_codeowners, max_codeowners_bytes,
}
use extra_codeowners.Codeowners.Reads.{Reads, outcome, parse_codeowners-Reads}
use extra_codeowners.Codeowners.Tokens.{escape, AreTokens, separator, split_line-written}
use extra_codeowners.Evaluator.Enrollment.{enrolled_as, enrolled_at_most_once}

-- the characters below 128
abbrev pub ascii : Unicode
ascii = record {
  lower = map (λ c. if leb 65 c && leb c 90 then c + 32 else c);
  repr = λ s. s;
  is_hidden = λ c. false;
}

abbrev pub owners_file : Str
owners_file = text "a @x"

owners_file_fits : ltb max_codeowners_bytes (utf8_length owners_file) ≡ false
unfolding text utf8_length
owners_file_fits = refl

owners_file-encodes : any is_surrogate owners_file ≡ false
unfolding text any is_surrogate
owners_file-encodes = refl

parse_codeowners-Reads_example :
    (rules : List CodeownersRule) × (issues : List CodeownersIssue) × Reads ascii 1
      (split_lines owners_file)
      rules
      issues
    × (parse_codeowners ascii owners_file ≡ outcome ascii rules issues)
parse_codeowners-Reads_example =
    parse_codeowners-Reads ascii owners_file owners_file-encodes owners_file_fits

-- a path with a space in it, and an owner
abbrev tokens : List Str
tokens = text "a b" ∷ text "@x" ∷ []

tokens-AreTokens : AreTokens tokens
unfolding text AreTokens extra_codeowners.Codeowners.Tokens.HasNoBackslash
tokens-AreTokens = ((refl, (refl, (refl, tt))), ((refl, (refl, tt)), tt))

split_line-written_example : split_line (join separator (map escape tokens)) ≡ tokens
split_line-written_example = split_line-written tokens tokens-AreTokens

abbrev pub bot_organization : OrganizationPolicy
bot_organization = record {
  apps = (text "b", record { slug = text "bot"; app_id = 5; bot_user_id = 6 }) ∷ [];
  guardrails = record { non_delegable_paths = [] };
}

abbrev pub bot : ReviewActor
bot = record {
  kind = application;
  login = text "bot[bot]";
  user_id = 6;
  app_id = some 5;
  app_slug = some (text "bot");
  owner_aliases = [];
  direct_owner_eligible = false;
}

bot_organization-validated : validate_organization ascii bot_organization ≡ ok bot_organization
unfolding text validate_organization extra_codeowners.Models.Policies.normalize_app_aliases
    Regex.fullmatch Normalize.app_alias_regex Text.strip Regex.in_class Prelude.contains
    extra_codeowners.Models.Policies.validate_applications Normalize.app_slug_regex
    extra_codeowners.Models.Policies.validate_guardrails Prelude.traverse
    extra_codeowners.Models.Policies.identities_are_unique
bot_organization-validated = refl

enrolled_at_most_once_example : length (enrolled_as bot bot_organization.apps) ≤ 1
enrolled_at_most_once_example =
    enrolled_at_most_once ascii bot_organization bot_organization bot bot_organization-validated
