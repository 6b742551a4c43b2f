-- ===== src/Codeowners/Parser.antt =====
-- _split_line and parse_codeowners of codeowners.py.
use mathlib.Core.List.{reverse}
use extra_codeowners.Prelude.{
  ℕ, suc, ◌*◌, ◌&&◌, ◌||◌, List, [], ◌∷◌, ◌++◌, Option, none, some, ltb, ◌==◌, nat_eq, list_eq, any,
  if◌then◌else◌, unique, Result, ok, err, ◌>>=◌,
}
use extra_codeowners.Text.{
  Str, text, strip, is_space, starts_with, includes, split_lines, decimal, is_surrogate,
  utf8_length, Unicode,
}
use extra_codeowners.Models.Normalize.{ValueError, normalize_owner}
use extra_codeowners.Codeowners.Pattern.{validate_pattern}
use extra_codeowners.Codeowners.Document.{CodeownersRule, new_rule, CodeownersDocument}

abbrev pub max_codeowners_bytes : ℕ
max_codeowners_bytes = 3 * 1024 * 1024

pub record CodeownersIssue : Type 0 where
  pub code : Str
  pub message : Str
  pub line_number : Option ℕ

unfoldable pub line_prefix : Option ℕ → Str
line_prefix none = []
line_prefix (some n) = text "line " ++ (decimal n ++ text ": ")

unfoldable pub render : CodeownersIssue → Str
unfolding line_prefix
render issue = line_prefix issue.line_number ++ issue.message

-- CodeownersParseError, and a ValueError that the parser does not catch
pub data ParseFailure : Type 0 where
  parse_error : List CodeownersIssue → ParseFailure
  uncaught : ValueError → ParseFailure

-- the token that is being read, if it has characters, in front of the tokens behind it
unfoldable pub flush : Str → List Str → List Str
flush [] tokens = tokens
flush (c ∷ current) tokens = reverse (c ∷ current) ∷ tokens

-- `current` is kept in reverse
unfoldable pub split_line_from : Str → Str → List Str
unfolding flush is_space
split_line_from current [] = flush current []
split_line_from current (c ∷ []) = if is_space c then flush current [] else flush (c ∷ current) []
split_line_from current (c ∷ d ∷ s) =
    let escaped = split_line_from (d ∷ current) s in
    let ended = flush current (split_line_from [] (d ∷ s)) in
    let more = split_line_from (c ∷ current) (d ∷ s) in
    if c == 0x5c && is_space d then escaped else if is_space c then ended else more

unfoldable pub split_line : Str → List Str
unfolding split_line_from
split_line line = split_line_from [] line

-- tokens[:comment_index]
unfoldable pub before_comment : List Str → List Str
unfolding starts_with
before_comment [] = []
before_comment (token ∷ tokens) =
    let rest = token ∷ before_comment tokens in if starts_with b'#' token then [] else rest

unfoldable pub owner_code : ValueError → Str
owner_code error =
    if includes (text "email CODEOWNER") error
    then text "email_owner_unsupported"
    else text "invalid_owner"

pub record Owners : Type 0 where
  pub owners : List Str
  pub issues : List CodeownersIssue

unfoldable pub add_owner : ℕ → Result ValueError Str → Owners → Owners
unfolding owner_code
add_owner n (ok owner) rest = record rest { owners = owner ∷ rest.owners }
add_owner n (err error) rest =
    let issue : CodeownersIssue = record {
      code = owner_code error;
      message = error;
      line_number = some n;
    } in
    record rest { issues = issue ∷ rest.issues }

-- the loop over `raw_owners`
unfoldable pub parse_owners : Unicode → ℕ → List Str → Owners
unfolding add_owner
parse_owners u n [] = record { owners = []; issues = [] }
parse_owners u n (raw ∷ raws) = add_owner n (normalize_owner u raw) (parse_owners u n raws)

-- What one line adds: nothing, its issues, or a rule.
pub data Line : Type 0 where
  skipped : Line
  refused : List CodeownersIssue → Line
  accepted : Str → List Str → Line

unfoldable pub parse_rule_owners : Str → Owners → Line
parse_rule_owners pattern found = elim found.issues [
  | [] ↦ accepted pattern (unique found.owners)
  | i ∷ is ↦ refused (i ∷ is)
]

unfoldable pub parse_rule : Unicode → ℕ → Result ValueError Str → List Str → Line
unfolding parse_rule_owners parse_owners
parse_rule u n (err error) raws =
    refused (record { code = text "invalid_pattern"; message = error; line_number = some n } ∷ [])
parse_rule u n (ok pattern) raws = parse_rule_owners pattern (parse_owners u n raws)

unfoldable pub parse_tokens : Unicode → ℕ → List Str → Line
unfolding parse_rule
parse_tokens u n [] = skipped
parse_tokens u n (pattern ∷ raws) = parse_rule u n (validate_pattern pattern) raws

unfoldable pub parse_line : Unicode → ℕ → Str → Line
unfolding parse_tokens before_comment split_line starts_with
parse_line u n raw_line =
    let stripped = strip raw_line in
    if stripped == [] || starts_with b'#' stripped
    then skipped
    else parse_tokens u n (before_comment (split_line stripped))

-- what the loop over the lines has gathered
pub record Parsed : Type 0 where
  pub rules : List CodeownersRule
  pub issues : List CodeownersIssue

unfoldable pub add_line : ℕ → Line → Parsed → Result ValueError Parsed
add_line n skipped parsed = ok parsed
add_line n (refused issues) parsed = ok (record parsed { issues = parsed.issues ++ issues })
add_line n (accepted pattern owners) parsed = do
  rule ← new_rule pattern owners n
  ok (record parsed { rules = parsed.rules ++ rule ∷ [] })

unfoldable pub parse_lines : Unicode → ℕ → List Str → Parsed → Result ValueError Parsed
unfolding add_line
parse_lines u n [] parsed = ok parsed
parse_lines u n (raw_line ∷ lines) parsed = do
  parsed' ← add_line n (parse_line u n raw_line) parsed
  parse_lines u (suc n) lines parsed'

unfoldable pub finish : Result ValueError Parsed → Result ParseFailure CodeownersDocument
finish (err error) = err (uncaught error)
finish (ok parsed) = elim parsed.issues [
  | [] ↦ ok (record { rules = parsed.rules })
  | i ∷ is ↦ err (parse_error (i ∷ is))
]

unfoldable pub too_large : ℕ → CodeownersIssue
too_large size = record {
  code = text "codeowners_too_large";
  message =
      text "CODEOWNERS is "
      ++ (decimal size
          ++ (text " bytes; GitHub ignores files larger than "
              ++ (decimal max_codeowners_bytes ++ text " bytes")));
  line_number = none;
}

-- the UnicodeEncodeError of content.encode, without the character and its position
abbrev pub encode_error : ValueError
encode_error = text "surrogates not allowed"

unfoldable pub parse_encodable : Unicode → Str → ℕ → Result ParseFailure CodeownersDocument
unfolding parse_lines finish
parse_encodable u content size =
    if ltb max_codeowners_bytes size
    then err (parse_error (too_large size ∷ []))
    else finish (parse_lines u 1 (split_lines content) (record { rules = []; issues = [] }))

-- the encoding of a lone surrogate raises an error that is no CodeownersParseError
unfoldable pub parse_codeowners : Unicode → Str → Result ParseFailure CodeownersDocument
unfolding any is_surrogate utf8_length parse_encodable
parse_codeowners u content =
    if any is_surrogate content
    then err (uncaught encode_error)
    else parse_encodable u content (utf8_length content)
