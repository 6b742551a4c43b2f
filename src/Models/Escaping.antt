-- ===== src/Models/Escaping.antt =====
-- The escaping of untrusted text in the report of models.py.
use extra_codeowners.Prelude.{
  ℕ, length, zero, suc, ◌-◌, ◌/◌, ◌%◌, Bool, true, false, not, ◌&&◌, [], ◌∷◌, ◌++◌, ◌≡◌, refl, ◌∙◌,
  arith, ◌==◌, nat_eq, contains, any, inl, inr, Bool-cases,
}
use extra_codeowners.Text.{Str, text, newline, Unicode}
use extra_codeowners.Text.Laws.{contains-append}
use extra_codeowners.Models.Rendering.{
  hex_digit, hex_from, zeros, hex_padded, visible_char, visible_text, escape_meta, markdown_text,
  html_char, html_escape, markdown_code,
}

-- the text has no newline
abbrev pub one_line : Str → Bool
one_line s = not (contains s newline)

pub one_line-append : (s t : Str) → one_line (s ++ t) ≡ (one_line s && one_line t)
one_line-append s t = ground (arith, contains-append s t newline)

one_line-hex_from :
    (fuel n : ℕ) (digits : Str) → one_line digits ≡ true → one_line (hex_from fuel n digits) ≡ true
unfolding hex_from hex_digit contains any
one_line-hex_from zero n digits h = h
one_line-hex_from (suc fuel) n digits h =
    let digits' = hex_digit (n % 16) ∷ digits in
    let h' : one_line digits' ≡ true = ground arith in
    ground (arith, one_line-hex_from fuel (n / 16) digits' h')

one_line-zeros : (n : ℕ) (digits : Str) → one_line digits ≡ true → one_line (zeros n digits) ≡ true
unfolding zeros contains any
one_line-zeros zero digits h = h
one_line-zeros (suc n) digits h = ground (arith, one_line-zeros n digits h)

one_line-hex_padded : (n : ℕ) → one_line (hex_padded n) ≡ true
unfolding hex_padded
one_line-hex_padded n =
    let digits = one_line-hex_from (suc n) n [] (unfold contains any in refl) in
    one_line-zeros (4 - length (hex_from (suc n) n [])) (hex_from (suc n) n []) digits

one_line-code_point : (c : ℕ) → one_line (text "<U+" ++ (hex_padded c ++ text ">")) ≡ true
one_line-code_point c =
    one_line-append (text "<U+") (hex_padded c ++ text ">")
    ∙ rw (one_line-append (hex_padded c) (text ">"), one_line-hex_padded c)
        (unfold text contains any in refl)

one_line-char : (c : ℕ) → (c == newline) ≡ false → one_line (c ∷ []) ≡ true
unfolding contains any
one_line-char c h = rw h refl

one_line-visible_char : (u : Unicode) (c : ℕ) → one_line (visible_char u c) ≡ true
unfolding visible_char
one_line-visible_char u c = elim (Bool-cases (c == newline)) [
  | inl ended ↦ rw ended (unfold contains any in refl)
  | inr inside ↦ rw inside (elim (Bool-cases (c == 13)) [
    | inl is_return ↦ rw is_return (unfold contains any in refl)
    | inr no_return ↦ rw no_return (elim (Bool-cases (c == 9)) [
      | inl is_tab ↦ rw is_tab (unfold contains any in refl)
      | inr no_tab ↦ rw no_tab (elim (Bool-cases (u.is_hidden c)) [
        | inl hidden ↦ rw hidden (one_line-code_point c)
        | inr plain ↦ rw plain (one_line-char c inside)
      ])
    ])
  ])
]

one_line-visible_text : (u : Unicode) (s : Str) → one_line (visible_text u s) ≡ true
unfolding visible_text
one_line-visible_text u [] = unfold contains any in refl
one_line-visible_text u (c ∷ s) =
    one_line-append (visible_char u c) (visible_text u s)
    ∙ rw (one_line-visible_char u c, one_line-visible_text u s) refl

one_line-escape_meta : (s : Str) → one_line s ≡ true → one_line (escape_meta s) ≡ true
unfolding escape_meta contains any
one_line-escape_meta [] h = h
one_line-escape_meta (c ∷ s) h =
    let later : one_line s ≡ true = ground arith in ground (arith, one_line-escape_meta s later)

pub one_line-markdown_text : (u : Unicode) (s : Str) → one_line (markdown_text u s) ≡ true
unfolding markdown_text
one_line-markdown_text u s = one_line-escape_meta (visible_text u s) (one_line-visible_text u s)

-- what an escaped character brings in
lacks-html_char :
    (wanted c : ℕ)
    → contains (c ∷ []) wanted ≡ false
    → contains (text "&amp;&lt;&gt;&quot;&#x27;") wanted ≡ false
    → contains (html_char c) wanted ≡ false
unfolding html_char contains any text
lacks-html_char wanted c own escapes = ground arith

one_line-html_escape : (s : Str) → one_line s ≡ true → one_line (html_escape s) ≡ true
unfolding html_escape
one_line-html_escape [] h = h
one_line-html_escape (c ∷ s) h =
    let own : contains (c ∷ []) newline ≡ false = unfold contains any in ground arith in
    let later : one_line s ≡ true = unfold contains any in ground arith in
    let first : contains (html_char c) newline ≡ false =
      lacks-html_char newline c own (unfold text contains any in refl) in
    one_line-append (html_char c) (html_escape s) ∙ rw (first, one_line-html_escape s later) refl

no_open : (s : Str) → contains (html_escape s) b'<' ≡ false
unfolding html_escape
no_open [] = unfold contains any in refl
no_open (c ∷ s) =
    contains-append (html_char c) (html_escape s) b'<' ∙ ground (arith, own, no_open s)
  where
    own : contains (html_char c) b'<' ≡ false
    own = unfold html_char contains any text in ground arith

one_line-code_body : (u : Unicode) (s : Str) → one_line (html_escape (visible_text u s)) ≡ true
one_line-code_body u s = one_line-html_escape (visible_text u s) (one_line-visible_text u s)

pub one_line-markdown_code : (u : Unicode) (s : Str) → one_line (markdown_code u s) ≡ true
unfolding markdown_code
one_line-markdown_code u s =
    let body = html_escape (visible_text u s) in
    one_line-append (text "<code>") (body ++ text "</code>")
    ∙ rw (one_line-append body (text "</code>"), one_line-code_body u s)
        (unfold text contains any in refl)

-- Whatever the text, `_markdown_code` returns a code element whose body has no "<", so none that
-- ends the element, and no newline.
markdown_code_body :
    (u : Unicode) (value : Str)
    → (body : Str) × (markdown_code u value ≡ text "<code>" ++ (body ++ text "</code>"))
      × (contains body b'<' ≡ false)
      × (contains body newline ≡ false)
unfolding markdown_code
markdown_code_body u value =
    let body = html_escape (visible_text u value) in
    (body, refl, no_open (visible_text u value), ground (arith, one_line-code_body u value))
