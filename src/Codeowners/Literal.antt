-- ===== src/Codeowners/Literal.antt =====
-- Patterns of the form "/dir/**": what the guardrails of the policy are written in.
use extra_codeowners.Prelude.{
  Bool, true, false, not, List, [], ◌∷◌, ◌++◌, ◌≡◌, ◌↔◌, refl, ap, ◌∙◌, subst, arith, any, contains,
  nat_eq, ◌==◌, map, eq_of_beq, beq_self,
}
use extra_codeowners.Text.{Str, slash, newline, ends_with, starts_with, remove_prefix}
use extra_codeowners.Text.Laws.{contains-append, drop_while_end-snoc, ends_with-append}
use extra_codeowners.Regex.{
  Regex, exactly, dot, one, many, in_class, concat, match_many, match_then, is_empty, fullmatch,
}
use extra_codeowners.Codeowners.Pattern.{
  strip_slashes, translate, no_star, last_segment, regex_of_value,
}
use mathlib.Core.List.{append_assoc}

-- no wildcard in the text
unfoldable pub IsPlain : Str → Type 0
IsPlain [] = Unit
IsPlain (c ∷ s) = ((c == b'*') ≡ false) × ((c == b'?') ≡ false) × IsPlain s

abbrev pub HasNoNewline : Str → Type 0
HasNoNewline s = contains s newline ≡ false

abbrev literals : Str → List Regex
literals s = map (λ c. one (exactly c)) s

-- "/**"
abbrev pub below : Str
below = slash ∷ b'*' ∷ b'*' ∷ []

translate-plain :
    (d s : Str) → IsPlain d → translate no_star (d ++ s) ≡ literals d ++ translate no_star s
unfolding translate IsPlain
translate-plain [] s h = refl
translate-plain (c ∷ d) s (h, k, t) = rw (h, k, translate-plain d s t) refl

last_segment-append : (d t : Str) → contains t slash ≡ false → last_segment (d ++ slash ∷ t) ≡ t
unfolding last_segment contains any
last_segment-append [] t h = rw h refl
last_segment-append (c ∷ d) t h =
    let later : contains (d ++ slash ∷ t) slash ≡ true =
      contains-append d (slash ∷ t) slash ∙ ground arith in
    rw later (last_segment-append d t h)

strip_slashes-below : (d : Str) → strip_slashes (d ++ below) ≡ d ++ below
unfolding strip_slashes
strip_slashes-below d =
    let regroup : (d ++ (slash ∷ b'*' ∷ [])) ++ b'*' ∷ [] ≡ d ++ below =
      append_assoc d (slash ∷ b'*' ∷ []) (b'*' ∷ []) in
    subst (λ s. strip_slashes s ≡ s) regroup
      (drop_while_end-snoc (λ c. c == slash) (d ++ (slash ∷ b'*' ∷ [])) b'*' refl)

-- such a pattern becomes its characters, a slash, and ".*"
regex_of_value-below :
    (d : Str)
    → IsPlain d
    → regex_of_value (slash ∷ d ++ below)
      ≡ concat (literals d ++ (one (exactly slash) ∷ many dot ∷ []))
unfolding regex_of_value starts_with remove_prefix
regex_of_value-below d h =
    let segment : last_segment (strip_slashes (d ++ below)) ≡ b'*' ∷ b'*' ∷ [] =
      ap last_segment (strip_slashes-below d)
      ∙ last_segment-append d (b'*' ∷ b'*' ∷ []) (unfold contains any in refl) in
    let open_end : ends_with slash (d ++ below) ≡ false =
      ends_with-append slash slash d (b'*' ∷ b'*' ∷ []) ∙ (unfold ends_with in refl) in
    let pieces : translate no_star (d ++ below)
        ≡ literals d ++ (one (exactly slash) ∷ many dot ∷ []) =
      translate-plain d below h ∙ (unfold translate in refl) in
    rw (segment, open_end, pieces) (unfold contains any in refl)

abbrev accepts : List Regex → Str → Bool
accepts pieces s = match_then (concat pieces) is_empty s

-- literal pieces read their own characters
accepts-literals_sound :
    (d : Str) (pieces : List Regex) (s : Str)
    → accepts (literals d ++ pieces) s ≡ true
    → (t : Str) × (s ≡ d ++ t) × (accepts pieces t ≡ true)
unfolding match_then concat in_class
accepts-literals_sound [] pieces s h = (s, refl, h)
accepts-literals_sound (c ∷ d) pieces [] h = cc
accepts-literals_sound (c ∷ d) pieces (x ∷ s) h =
    let both : ((x == c) ≡ true) × (accepts (literals d ++ pieces) s ≡ true) = ground arith in
    let (t, e, a) = accepts-literals_sound d pieces s both.1 in (t, cc (e, eq_of_beq x c both.0), a)

accepts-literals_complete :
    (d : Str) (pieces : List Regex) (t : Str)
    → accepts pieces t ≡ true
    → accepts (literals d ++ pieces) (d ++ t) ≡ true
unfolding match_then concat in_class
accepts-literals_complete [] pieces t h = h
accepts-literals_complete (c ∷ d) pieces t h =
    rw (beq_self c, accepts-literals_complete d pieces t h) refl

-- ".*" at the end reads what has no newline
accepts-dots : (s : Str) → accepts (many dot ∷ []) s ≡ not (contains s newline)
unfolding match_then match_many concat in_class contains any
accepts-dots [] = refl
accepts-dots (x ∷ s) = ground (arith, accepts-dots s)

accepts-slash_dots :
    (s : Str)
    → accepts (one (exactly slash) ∷ many dot ∷ []) s ≡ true
    → (rest : Str) × (s ≡ slash ∷ rest) × HasNoNewline rest
accepts-slash_dots [] h = unfold match_then concat in cc
accepts-slash_dots (x ∷ s) h =
    let both : ((x == slash) ≡ true) × (accepts (many dot ∷ []) s ≡ true) =
      unfold match_then concat in_class in ground arith in
    let clean : HasNoNewline s = ground (arith, accepts-dots s) in
    (s, cc (eq_of_beq x slash both.0), clean)

-- For a directory `d` written without `*` and `?`, the pattern "/d/**" matches a path exactly when
-- the path is `d`, a slash, and any text that has no newline.
pub directory_pattern_iff :
    (d path : Str)
    → IsPlain d
    → (fullmatch (regex_of_value (slash ∷ d ++ below)) path ≡ true)
      ↔ ((rest : Str) × (path ≡ d ++ slash ∷ rest) × HasNoNewline rest)
unfolding fullmatch
directory_pattern_iff d path plain =
    let pieces = one (exactly slash) ∷ many dot ∷ [] in
    let shape = regex_of_value-below d plain in
    (
      (λ h.
          let (t, e, a) = accepts-literals_sound d pieces path (rw shape at h) in
          let (rest, e', clean) = accepts-slash_dots t a in (rest, rw (e, e') refl, clean)),
      (λ (rest, e, clean).
          rw (shape, e)
            (accepts-literals_complete d pieces (slash ∷ rest)
              (unfold match_then concat in_class in rw (accepts-dots rest, clean) refl))),
    )
