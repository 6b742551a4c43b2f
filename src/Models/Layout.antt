-- ===== src/Models/Layout.antt =====
-- The lines of the report of models.py: untrusted text forges none.
use extra_codeowners.Prelude.{
  all-append, Bool, true, false, List, [], ◌∷◌, ◌++◌, ◌≡◌, refl, ap, ◌∙◌, arith, ◌==◌, nat_eq,
  if◌then◌else◌, contains, any, map, all,
}
use extra_codeowners.Text.{Str, text, newline, split, push_char, join, Unicode}
use extra_codeowners.Models.Results.{EvaluationMessage, OwnerSetResult, EvaluationResult}
use extra_codeowners.Models.Rendering.{
  markdown_text, markdown_code, entry, message_line, evidence_line, requirement_line,
  requirement_lines, unowned_line, section, check_lines, check_output,
}
use extra_codeowners.Models.Escaping.{
  one_line, one_line-append, one_line-markdown_text, one_line-markdown_code,
}

one_line-entry :
    (u : Unicode) (mark name value : Str)
    → one_line mark ≡ true
    → one_line (entry u mark name value) ≡ true
unfolding entry
one_line-entry u mark name value h =
    one_line-append mark (markdown_code u name ++ (text ": " ++ markdown_text u value))
    ∙ rw
        (
          h,
          one_line-append (markdown_code u name) (text ": " ++ markdown_text u value),
          one_line-markdown_code u name,
          one_line-append (text ": ") (markdown_text u value),
          one_line-markdown_text u value,
        )
        (unfold text contains any in refl)

one_line-owners :
    (u : Unicode) (owners : List Str)
    → one_line (join (text ", ") (map (markdown_code u) owners)) ≡ true
unfolding join
one_line-owners u [] = unfold contains any in refl
one_line-owners u (owner ∷ []) = one_line-markdown_code u owner
one_line-owners u (owner ∷ next ∷ owners) =
    let rest = join (text ", ") (map (markdown_code u) (next ∷ owners)) in
    one_line-append (markdown_code u owner) (text ", " ++ rest)
    ∙ rw
        (
          one_line-markdown_code u owner,
          one_line-append (text ", ") rest,
          one_line-owners u (next ∷ owners),
        )
        (unfold text contains any in refl)

one_line-requirement_line :
    (u : Unicode) (requirement : OwnerSetResult) → one_line (requirement_line u requirement) ≡ true
unfolding requirement_line
one_line-requirement_line u requirement =
    let mark = if requirement.satisfied then 0x2705 else 0x274c in
    let owners = join (text ", ") (map (markdown_code u) requirement.owners) in
    let rest = owners ++ (text ": " ++ markdown_text u requirement.explanation) in
    one_line-append (text "- ") (mark ∷ b' ' ∷ rest)
    ∙ rw
        (
          one_line-append (mark ∷ b' ' ∷ []) rest,
          one_line-mark requirement.satisfied,
          one_line-append owners (text ": " ++ markdown_text u requirement.explanation),
          one_line-owners u requirement.owners,
          one_line-append (text ": ") (markdown_text u requirement.explanation),
          one_line-markdown_text u requirement.explanation,
        )
        (unfold text contains any in refl)
  where
    one_line-mark :
        (satisfied : Bool) → one_line ((if satisfied then 0x2705 else 0x274c) ∷ b' ' ∷ []) ≡ true
    one_line-mark true = unfold contains any in refl
    one_line-mark false = unfold contains any in refl

abbrev one_lines : List Str → Bool
one_lines = all one_line

one_lines-map {ℓ} :
    {A : Type ℓ} (f : A → Str) (xs : List A)
    → ((x : A) → one_line (f x) ≡ true)
    → one_lines (map f xs) ≡ true
unfolding all
one_lines-map f [] h = refl
one_lines-map f (x ∷ xs) h = rw (h x, one_lines-map f xs h) refl

one_lines-section :
    (title : Str) (lines : List Str)
    → one_line title ≡ true
    → one_lines lines ≡ true
    → one_lines (section title lines) ≡ true
unfolding section all
one_lines-section title [] t h = refl
one_lines-section title (line ∷ lines) t h = rw t (unfold contains any in h)

one_lines-requirement_lines :
    (u : Unicode) (requirements : List OwnerSetResult)
    → one_lines (requirement_lines u requirements) ≡ true
unfolding requirement_lines all
one_lines-requirement_lines u [] = refl
one_lines-requirement_lines u (r ∷ requirements) =
    rw
      (
        one_line-requirement_line u r,
        all-append one_line (map (evidence_line u) r.path_evidence)
            (requirement_lines u requirements),
        one_lines-map (evidence_line u) r.path_evidence (λ e.
            unfold evidence_line in
            one_line-entry u (text "  - ") e.path e.explanation (unfold text contains any in refl)),
        one_lines-requirement_lines u requirements,
      )
      refl

one_lines-check_lines :
    (u : Unicode) (result : EvaluationResult) → one_lines (check_lines u result) ≡ true
unfolding check_lines
one_lines-check_lines u result =
    let errors = section (text "### Errors") (map (message_line u) result.errors) in
    let warnings = section (text "### Warnings") (map (message_line u) result.warnings) in
    let requirements =
      section (text "### CODEOWNER requirements") (requirement_lines u result.requirements) in
    let unowned = section (text "### Unowned paths") (map (unowned_line u) result.unowned_paths) in
    unfold all in
    rw
      (
        one_line-markdown_text u result.summary,
        all-append one_line errors (warnings ++ (requirements ++ unowned)),
        one_lines-section (text "### Errors") (map (message_line u) result.errors)
            (unfold text contains any in refl) (messages result.errors),
        all-append one_line warnings (requirements ++ unowned),
        one_lines-section (text "### Warnings") (map (message_line u) result.warnings)
            (unfold text contains any in refl) (messages result.warnings),
        all-append one_line requirements unowned,
        one_lines-section (text "### CODEOWNER requirements")
            (requirement_lines u result.requirements) (unfold text contains any in refl)
            (one_lines-requirement_lines u result.requirements),
        one_lines-section (text "### Unowned paths") (map (unowned_line u) result.unowned_paths)
            (unfold text contains any in refl) (unowned_names result.unowned_paths),
      )
      refl
  where
    messages : (items : List EvaluationMessage) → one_lines (map (message_line u) items) ≡ true
    messages items = one_lines-map (message_line u) items (λ item.
        unfold message_line in
        one_line-entry u (text "- ") item.code item.message (unfold text contains any in refl))

    unowned_names : (paths : List Str) → one_lines (map (unowned_line u) paths) ≡ true
    unowned_names paths = one_lines-map (unowned_line u) paths (λ path.
        unfold unowned_line in
        one_line-append (text "- ") (markdown_code u path)
        ∙ rw (one_line-markdown_code u path) (unfold text contains any in refl))

split-line :
    (line rest : Str)
    → one_line line ≡ true
    → split newline (line ++ newline ∷ rest) ≡ line ∷ split newline rest
unfolding split push_char contains any
split-line [] rest h = refl
split-line (c ∷ line) rest h =
    let own : (c == newline) ≡ false = ground arith in
    let later : one_line line ≡ true = ground arith in rw (own, split-line line rest later) refl

split-last : (line : Str) → one_line line ≡ true → split newline line ≡ line ∷ []
unfolding split push_char contains any
split-last [] h = refl
split-last (c ∷ line) h =
    let own : (c == newline) ≡ false = ground arith in
    let later : one_line line ≡ true = ground arith in rw (own, split-last line later) refl

split-join :
    (line : Str) (lines : List Str)
    → one_lines (line ∷ lines) ≡ true
    → split newline (join (newline ∷ []) (line ∷ lines)) ≡ line ∷ lines
unfolding join all
split-join line [] h = split-last line (ground arith)
split-join line (next ∷ lines) h =
    let own : one_line line ≡ true = ground arith in
    let later : one_lines (next ∷ lines) ≡ true = ground arith in
    split-line line (join (newline ∷ []) (next ∷ lines)) own
    ∙ ap (λ ls. line ∷ ls) (split-join next lines later)

-- Whatever texts a result holds, the report that `check_output` renders, split at its newlines, is
-- the list of lines that the code put together: no text of the result starts a line of its own.
pub check_output_lines :
    (u : Unicode) (result : EvaluationResult)
    → split newline (check_output u result) ≡ check_lines u result
unfolding check_output check_lines
check_output_lines u result =
    split-join (markdown_text u result.summary) _ (one_lines-check_lines u result)
