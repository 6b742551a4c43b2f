-- ===== src/Codeowners/Below.antt =====
-- A pattern that ends in a literal name reaches everything below a path that it matches.
use mathlib.Core.List.{append_assoc}
use extra_codeowners.Prelude.{
  Bool, true, not, ◌⊎◌, inl, inr, ◌&&◌, [], ◌∷◌, ◌++◌, ◌≡◌, refl, ap, ◌∙◌, subst, arith, nat_eq,
  contains, any,
}
use extra_codeowners.Text.{Str, slash, remove_prefix}
use extra_codeowners.Regex.{Regex, Class, exactly, dot, in_class, seq, optional, fullmatch}
use extra_codeowners.Regex.Matching.{
  AllIn, Matches, of_one, of_many, of_seq, of_skip, of_some, fullmatch_sound, fullmatch_complete,
}
use extra_codeowners.Codeowners.Pattern.{
  strip_slashes, last_segment, anything_below, body_of_value, regex_of_value,
}
use extra_codeowners.Codeowners.Literal.{HasNoNewline}
use extra_codeowners.Codeowners.Segments.{one-inv, many-inv, seq-inv}

-- no wildcard in the last segment: `literal_directory_candidate`
abbrev pub ends_literal : Str → Bool
ends_literal value =
    let segment = last_segment (strip_slashes (remove_prefix slash value)) in
    not (contains segment b'*') && not (contains segment b'?')

regex_of_value-literal :
    (value : Str)
    → ends_literal value ≡ true
    → regex_of_value value ≡ seq (body_of_value value) anything_below
unfolding regex_of_value
regex_of_value-literal value h = rw h refl

AllIn-append : {c : Class} {s t : Str} → AllIn c s → AllIn c t → AllIn c (s ++ t)
AllIn-append AllIn.nil b = b
AllIn-append (AllIn.cons i a) b = AllIn.cons i (AllIn-append a b)

AllIn-dot : (s : Str) → HasNoNewline s → AllIn dot s
unfolding contains any in_class
AllIn-dot [] h = AllIn.nil
AllIn-dot (x ∷ s) h =
    let read : in_class dot x ≡ true = ground arith in AllIn.cons read (AllIn-dot s (ground arith))

slash_is_slash : in_class (exactly slash) slash ≡ true
unfolding in_class
slash_is_slash = refl

slash_is_dot : in_class dot slash ≡ true
unfolding in_class
slash_is_dot = refl

optional-inv : {r : Regex} {s : Str} → Matches (optional r) s → (s ≡ []) ⊎ Matches r s
optional-inv of_skip = inl refl
optional-inv (of_some m) = inr m

-- a slash and any text with no newline
below_slash : (rest : Str) → HasNoNewline rest → Matches anything_below (slash ∷ rest)
below_slash rest clean =
    of_some (of_seq {s = slash ∷ []} (of_one slash_is_slash) (of_many (AllIn-dot rest clean)))

below-below :
    (v rest : Str)
    → Matches anything_below v
    → HasNoNewline rest
    → Matches anything_below (v ++ slash ∷ rest)
below-below v rest m clean = elim (optional-inv m) [
  | inl e ↦ rw e (below_slash rest clean)
  | inr m' ↦
      let (a, b, e, ma, mb) = seq-inv m' in
      let (x, ex, i) = one-inv ma in
      let more : AllIn dot (b ++ slash ∷ rest) =
        AllIn-append (many-inv mb) (AllIn.cons slash_is_dot (AllIn-dot rest clean)) in
      rw (e, ex) (of_some (of_seq {s = x ∷ []} (of_one i) (of_many more)))
]

-- If the last segment of a pattern has no wildcard and the pattern matches a path, then it matches
-- every path below it whose further part has no newline.
literal_pattern_below :
    (value path rest : Str)
    → ends_literal value ≡ true
    → HasNoNewline rest
    → fullmatch (regex_of_value value) path ≡ true
    → fullmatch (regex_of_value value) (path ++ slash ∷ rest) ≡ true
literal_pattern_below value path rest literal clean h =
    let shape = regex_of_value-literal value literal in
    let (u, v, e, mu, mv) =
      seq-inv (subst (λ t. Matches t path) shape (fullmatch_sound (regex_of_value value) path h)) in
    let regroup : path ++ slash ∷ rest ≡ u ++ (v ++ slash ∷ rest) =
      ap (λ s. s ++ slash ∷ rest) e ∙ append_assoc u v (slash ∷ rest) in
    rw (shape, regroup)
      (fullmatch_complete (seq (body_of_value value) anything_below) (u ++ (v ++ slash ∷ rest))
        (of_seq mu (below-below v rest mv clean)))
