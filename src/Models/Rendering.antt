-- ===== src/Models/Rendering.antt =====
-- `check_output` of models.py: the report of a result as Markdown, and the escaping of its texts.
use extra_codeowners.Prelude.{
  ℕ, zero, suc, ◌+◌, ◌-◌, ◌/◌, ◌%◌, Bool, ◌&&◌, ◌||◌, List, [], ◌∷◌, ◌++◌, ltb, leb, ◌==◌, nat_eq,
  if◌then◌else◌, length, map,
}
use extra_codeowners.Text.{Str, text, newline, join, Unicode}
use extra_codeowners.Models.Results.{
  EvaluationMessage, PathEvidence, OwnerSetResult, EvaluationResult,
}

-- a digit of {n:X}
unfoldable pub hex_digit : ℕ → ℕ
hex_digit d = if ltb d 10 then 48 + d else 55 + d

-- {n:X}, on fuel: a number has at most as many digits as its value and one
unfoldable pub hex_from : ℕ → ℕ → Str → Str
unfolding hex_digit
hex_from zero n digits = digits
hex_from (suc fuel) n digits =
    let digits' = hex_digit (n % 16) ∷ digits in
    let rest = hex_from fuel (n / 16) digits' in if ltb n 16 then digits' else rest

unfoldable pub zeros : ℕ → Str → Str
zeros zero digits = digits
zeros (suc n) digits = 48 ∷ zeros n digits

-- {n:04X}
unfoldable pub hex_padded : ℕ → Str
unfolding hex_from zeros
hex_padded n = let digits = hex_from (suc n) n [] in zeros (4 - length digits) digits

-- the body of the loop of `_visible_text`
unfoldable pub visible_char : Unicode → ℕ → Str
unfolding hex_padded
visible_char u c =
    if c == newline
    then 0x5c ∷ b'n' ∷ []
    else if c == 13
    then 0x5c ∷ b'r' ∷ []
    else if c == 9
    then 0x5c ∷ b't' ∷ []
    else if u.is_hidden c
    then text "<U+" ++ (hex_padded c ++ text ">")
    else c ∷ []

unfoldable pub visible_text : Unicode → Str → Str
unfolding visible_char
visible_text u [] = []
visible_text u (c ∷ s) = visible_char u c ++ visible_text u s

-- character in string.punctuation
unfoldable pub is_markdown_meta : ℕ → Bool
is_markdown_meta c =
    leb 33 c && leb c 47 || leb 58 c && leb c 64 || leb 91 c && leb c 96 || leb 123 c && leb c 126

unfoldable pub escape_meta : Str → Str
unfolding is_markdown_meta
escape_meta [] = []
escape_meta (c ∷ s) =
    let rest = escape_meta s in if is_markdown_meta c then 0x5c ∷ c ∷ rest else c ∷ rest

unfoldable pub markdown_text : Unicode → Str → Str
unfolding escape_meta visible_text
markdown_text u value = escape_meta (visible_text u value)

-- html.escape of one character, with quote=True
unfoldable pub html_char : ℕ → Str
html_char c =
    if c == b'&'
    then text "&amp;"
    else if c == b'<'
    then text "&lt;"
    else if c == b'>'
    then text "&gt;"
    else if c == 0x22
    then text "&quot;"
    else if c == 0x27
    then text "&#x27;"
    else c ∷ []

unfoldable pub html_escape : Str → Str
unfolding html_char
html_escape [] = []
html_escape (c ∷ s) = html_char c ++ html_escape s

unfoldable pub markdown_code : Unicode → Str → Str
unfolding html_escape visible_text
markdown_code u value = text "<code>" ++ (html_escape (visible_text u value) ++ text "</code>")

-- an entry of a list: an escaped name, a colon and an escaped text
unfoldable pub entry : Unicode → Str → Str → Str → Str
unfolding markdown_code markdown_text
entry u mark name value = mark ++ (markdown_code u name ++ (text ": " ++ markdown_text u value))

unfoldable pub message_line : Unicode → EvaluationMessage → Str
unfolding entry
message_line u item = entry u (text "- ") item.code item.message

unfoldable pub evidence_line : Unicode → PathEvidence → Str
unfolding entry
evidence_line u evidence = entry u (text "  - ") evidence.path evidence.explanation

unfoldable pub requirement_line : Unicode → OwnerSetResult → Str
unfolding markdown_code markdown_text
requirement_line u requirement =
    text "- "
    ++ ((if requirement.satisfied then 0x2705 else 0x274c)
        ∷ b' '
        ∷ (join (text ", ") (map (markdown_code u) requirement.owners)
            ++ (text ": " ++ markdown_text u requirement.explanation)))

-- the loop over the requirements
unfoldable pub requirement_lines : Unicode → List OwnerSetResult → List Str
unfolding requirement_line evidence_line
requirement_lines u [] = []
requirement_lines u (requirement ∷ requirements) =
    requirement_line u requirement
    ∷ (map (evidence_line u) requirement.path_evidence ++ requirement_lines u requirements)

unfoldable pub unowned_line : Unicode → Str → Str
unfolding markdown_code
unowned_line u path = text "- " ++ markdown_code u path

-- if items: lines.extend(["", title]), and the lines of the items, one at least for each
unfoldable pub section : Str → List Str → List Str
section title [] = []
section title (line ∷ lines) = [] ∷ title ∷ line ∷ lines

-- `lines` of `check_output`
unfoldable pub check_lines : Unicode → EvaluationResult → List Str
unfolding section message_line requirement_lines unowned_line markdown_text
check_lines u result =
    markdown_text u result.summary
    ∷ (section (text "### Errors") (map (message_line u) result.errors)
        ++ (section (text "### Warnings") (map (message_line u) result.warnings)
            ++ (section (text "### CODEOWNER requirements")
                  (requirement_lines u result.requirements)
                ++ section (text "### Unowned paths") (map (unowned_line u) result.unowned_paths))))

unfoldable pub check_output : Unicode → EvaluationResult → Str
unfolding check_lines
check_output u result = join (newline ∷ []) (check_lines u result)
