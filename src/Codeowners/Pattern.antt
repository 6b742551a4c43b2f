-- ===== src/Codeowners/Pattern.antt =====
-- validate_pattern, _pattern_regex and matches_pattern of codeowners.py.
use extra_codeowners.Prelude.{
  ℕ, Bool, not, ◌&&◌, ◌||◌, List, [], ◌∷◌, ◌++◌, ◌==◌, nat_eq, list_eq, if◌then◌else◌, any,
  contains, Result, ok, refuse, ◌>>=◌, ◌>>◌,
}
use extra_codeowners.Text.{
  Str, text, slash, strip, starts_with, ends_with, remove_prefix, drop_while_end, split,
}
use extra_codeowners.Regex.{
  Regex, exactly, dot, not_slash, one, many, seq, optional, concat, fullmatch,
}
use extra_codeowners.Models.Normalize.{ValueError, is_dots, normalize_repository_path}

-- value.rstrip("/")
unfoldable pub strip_slashes : Str → Str
strip_slashes = drop_while_end (λ c. c == slash)

unfoldable pub validate_pattern : Str → Result ValueError Str
unfolding strip contains strip_slashes remove_prefix starts_with
validate_pattern pattern = do
  let value = strip pattern
  refuse (value == []) (text "pattern must not be empty")
  refuse (starts_with b'!' value)
      (text "negated patterns ('!') are not supported by GitHub CODEOWNERS")
  refuse (contains value b'[' || contains value b']')
      (text "character ranges ('[...]') are not supported by GitHub CODEOWNERS")
  refuse (contains value 0x5c)
      (text "backslash escapes are not supported; use a POSIX path pattern")
  refuse (starts_with b'#' value) (text "a CODEOWNERS pattern cannot begin with '#'")
  let without_anchor = remove_prefix slash value
  refuse (without_anchor == []) (text "root-only '/' is not a file pattern")
  refuse (any is_dots (split slash (strip_slashes without_anchor)))
      (text "pattern must not contain empty, '.' or '..' path segments")
  ok value

-- the pieces "(?:.*/)?" and "(?:/.*)?"
abbrev pub any_directories : Regex
any_directories = optional (seq (many dot) (one (exactly slash)))

abbrev pub anything_below : Regex
anything_below = optional (seq (one (exactly slash)) (many dot))

unfoldable pub translate_char : ℕ → Regex
translate_char c = if c == b'?' then one not_slash else one (exactly c)

-- Where the loop stands: outside a run of stars, behind one star, or behind two or more.
pub data Stars : Type 0 where
  no_star one_star two_stars : Stars

unfoldable pub translate : Stars → Str → List Regex
unfolding translate_char
translate no_star [] = []
translate one_star [] = many not_slash ∷ []
translate two_stars [] = many dot ∷ []
translate no_star (c ∷ s) =
    let starred = translate one_star s in
    let plain = translate_char c ∷ translate no_star s in if c == b'*' then starred else plain
translate one_star (c ∷ s) =
    let starred = translate two_stars s in
    let plain = many not_slash ∷ translate_char c ∷ translate no_star s in
    if c == b'*' then starred else plain
translate two_stars (c ∷ s) =
    let starred = translate two_stars s in
    let directories = any_directories ∷ translate no_star s in
    let plain = many dot ∷ translate_char c ∷ translate no_star s in
    if c == b'*' then starred else if c == slash then directories else plain

-- pieces.rsplit("/", maxsplit=1)[-1]
unfoldable pub last_segment : Str → Str
last_segment [] = []
last_segment (c ∷ s) =
    let rest = last_segment s in if contains s slash then rest else if c == slash then s else c ∷ s

-- prefix and translated pieces, for a value that `validate_pattern` returned
unfoldable pub body_of_value : Str → Regex
unfolding strip_slashes
body_of_value value =
    let anchored = starts_with slash value || contains (strip_slashes value) slash in
    let relative = remove_prefix slash value in
    let whole = if ends_with slash relative then relative ++ (b'*' ∷ b'*' ∷ []) else relative in
    let body = concat (translate no_star whole) in
    if anchored then body else seq any_directories body

-- the expression with its suffix
unfoldable pub regex_of_value : Str → Regex
unfolding body_of_value last_segment strip_slashes
regex_of_value value =
    let final_segment = last_segment (strip_slashes (remove_prefix slash value)) in
    let literal_directory_candidate =
      not (contains final_segment b'*') && not (contains final_segment b'?') in
    if literal_directory_candidate
    then seq (body_of_value value) anything_below
    else body_of_value value

-- _pattern_regex and compile_pattern
unfoldable pub compile_pattern : Str → Result ValueError Regex
unfolding validate_pattern regex_of_value
compile_pattern pattern = do value ← validate_pattern pattern; ok (regex_of_value value)

unfoldable pub matches_pattern : Str → Str → Result ValueError Bool
unfolding compile_pattern
matches_pattern pattern path = do
  normalized_path ← normalize_repository_path path
  regex ← compile_pattern pattern
  ok (fullmatch regex normalized_path)
