-- ===== src/Codeowners/Segments.antt =====
-- How far a pattern reaches: wildcards stay inside a segment, a literal directory reaches all below.
use extra_codeowners.Prelude.{
  ℕ, ◌+◌, Bool, true, false, not, ◌&&◌, ◌||◌, [], ◌∷◌, ◌++◌, ◌≡◌, refl, subst, arith, if◌then◌else◌,
  ◌==◌, nat_eq, inl, inr, Bool-cases, contains,
}
use extra_codeowners.Text.{Str, slash, starts_with, ends_with, remove_prefix}
use extra_codeowners.Regex.{
  Regex, Class, exactly, not_slash, in_class, empty, one, many, seq, concat, fullmatch,
}
use extra_codeowners.Regex.Matching.{
  AllIn, Matches, of_empty, of_one, of_many, of_seq, fullmatch_sound,
}
use extra_codeowners.Codeowners.Pattern.{
  translate_char, Stars, no_star, one_star, translate, regex_of_value, last_segment, strip_slashes,
}

-- path.count("/")
unfoldable pub count_slashes : Str → ℕ
count_slashes [] = 0
count_slashes (c ∷ s) = (if c == slash then 1 else 0) + count_slashes s

count_slashes-append : (s t : Str) → count_slashes (s ++ t) ≡ count_slashes s + count_slashes t
unfolding count_slashes
count_slashes-append [] t = omega arith
count_slashes-append (c ∷ s) t = omega (arith, count_slashes-append s t)

-- no two stars in a row; the flag says that the character before was a star
unfoldable pub has_single_stars : Bool → Str → Bool
has_single_stars star [] = true
has_single_stars star (c ∷ s) = not (star && c == b'*') && has_single_stars (c == b'*') s

pub one-inv :
    {c : Class} {s : Str} → Matches (one c) s → (x : ℕ) × (s ≡ x ∷ []) × (in_class c x ≡ true)
one-inv (of_one {x = x} h) = (x, refl, h)

pub many-inv : {c : Class} {s : Str} → Matches (many c) s → AllIn c s
many-inv (of_many h) = h

pub seq-inv :
    {r t : Regex} {s : Str}
    → Matches (seq r t) s
    → (u : Str) × (v : Str) × (s ≡ u ++ v) × Matches r u × Matches t v
seq-inv (of_seq {s = s} {u = u} m n) = (s, u, refl, m, n)

empty-inv : {s : Str} → Matches empty s → s ≡ []
empty-inv of_empty = refl

translate_char-wild : (c : ℕ) → (c == b'?') ≡ true → translate_char c ≡ one not_slash
unfolding translate_char
translate_char-wild c h = rw h refl

translate_char-plain : (c : ℕ) → (c == b'?') ≡ false → translate_char c ≡ one (exactly c)
unfolding translate_char
translate_char-plain c h = rw h refl

-- the piece for an ordinary character reads as many slashes as the character is
count-translate_char :
    (c : ℕ) {s : Str}
    → Matches (translate_char c) s
    → count_slashes s ≡ (if c == slash then 1 else 0)
unfolding count_slashes in_class
count-translate_char c {s} m = elim (Bool-cases (c == b'?')) [
  | inl wild ↦
      let (x, e, i) = one-inv (subst (λ r. Matches r s) (translate_char-wild c wild) m) in
      rw e (ground arith)
  | inr plain ↦
      let (x, e, i) = one-inv (subst (λ r. Matches r s) (translate_char-plain c plain) m) in
      rw e (ground arith)
]

count-not_slash : {s : Str} → AllIn not_slash s → count_slashes s ≡ 0
unfolding count_slashes in_class
count-not_slash AllIn.nil = refl
count-not_slash (AllIn.cons i h) = ground (arith, count-not_slash h)

abbrev stars_of : Bool → Stars
stars_of true = one_star
stars_of false = no_star

-- a piece and then the rest
piece_and_rest :
    (c : ℕ) (rest : Regex) {s : Str} (n : ℕ)
    → ((v : Str) → Matches rest v → count_slashes v ≡ n)
    → Matches (seq (translate_char c) rest) s
    → count_slashes s ≡ (if c == slash then 1 else 0) + n
piece_and_rest c rest n h m =
    let (u, v, e, mu, mv) = seq-inv m in
    rw e (omega (arith, count_slashes-append u v, count-translate_char c mu, h v mv))

star_and_rest :
    (rest : Regex) {s : Str} (n : ℕ)
    → ((v : Str) → Matches rest v → count_slashes v ≡ n)
    → Matches (seq (many not_slash) rest) s
    → count_slashes s ≡ n
star_and_rest rest n h m =
    let (u, v, e, mu, mv) = seq-inv m in
    rw e (omega (arith, count_slashes-append u v, count-not_slash (many-inv mu), h v mv))

translate-first_star :
    (c : ℕ) (p : Str) → (c == b'*') ≡ true → translate no_star (c ∷ p) ≡ translate one_star p
unfolding translate
translate-first_star c p h = rw h refl

translate-plain_char :
    (c : ℕ) (p : Str)
    → (c == b'*') ≡ false
    → concat (translate no_star (c ∷ p)) ≡ seq (translate_char c) (concat (translate no_star p))
unfolding translate concat
translate-plain_char c p h = rw h refl

translate-after_star :
    (c : ℕ) (p : Str)
    → (c == b'*') ≡ false
    → concat (translate one_star (c ∷ p))
      ≡ seq (many not_slash) (seq (translate_char c) (concat (translate no_star p)))
unfolding translate concat
translate-after_star c p h = rw h refl

concat-one_star : concat (translate one_star []) ≡ seq (many not_slash) empty
unfolding translate concat
concat-one_star = refl

concat-no_star : concat (translate no_star []) ≡ empty
unfolding translate concat
concat-no_star = refl

count-empty : (s : Str) → Matches empty s → count_slashes s ≡ 0
unfolding count_slashes
count-empty s m = rw (empty-inv m) refl

abbrev In : Regex → Str → Type 0
In r s = Matches r s

count-translate :
    (star : Bool) (p s : Str)
    → has_single_stars star p ≡ true
    → Matches (concat (translate (stars_of star) p)) s
    → count_slashes s ≡ count_slashes p
unfolding has_single_stars count_slashes
count-translate false [] s single m = count-empty s (subst (λ r. In r s) concat-no_star m)
count-translate true [] s single m =
    star_and_rest empty 0 count-empty (subst (λ r. In r s) concat-one_star m)
count-translate false (c ∷ p) s single m = elim (Bool-cases (c == b'*')) [
  | inl wild ↦
      let ih =
        count-translate true p s (ground arith)
          (subst (λ r. In (concat r) s) (translate-first_star c p wild) m) in
      ground (arith, ih)
  | inr plain ↦
      let single' : has_single_stars false p ≡ true = ground arith in
      piece_and_rest c (concat (translate no_star p)) (count_slashes p)
        (λ v mv. count-translate false p v single' mv)
        (subst (λ r. In r s) (translate-plain_char c p plain) m)
]
count-translate true (c ∷ p) s single m = elim (Bool-cases (c == b'*')) [
  | inl wild ↦ absurd (ground arith)
  | inr plain ↦
      let single' : has_single_stars false p ≡ true = ground arith in
      star_and_rest (seq (translate_char c) (concat (translate no_star p))) _
        (λ v mv.
          piece_and_rest c (concat (translate no_star p)) (count_slashes p)
            (λ w mw. count-translate false p w single' mw) mv)
        (subst (λ r. In r s) (translate-after_star c p plain) m)
]

-- a wildcard in the last segment
abbrev pub ends_wild : Str → Bool
ends_wild p =
    contains (last_segment (strip_slashes p)) b'*' || contains (last_segment (strip_slashes p)) b'?'

regex_of_value-wild :
    (p : Str)
    → ends_wild p ≡ true
    → ends_with slash p ≡ false
    → regex_of_value (slash ∷ p) ≡ concat (translate no_star p)
unfolding regex_of_value starts_with remove_prefix
regex_of_value-wild p wild closed = rw closed (ground arith)

-- Of an anchored pattern "/p" with a wildcard in its last segment, no two stars in a row and no
-- slash at its end, each match has as many slashes as `p`: its wildcards stay inside a segment.
wildcards_keep_depth :
    (p path : Str)
    → ends_wild p ≡ true
    → ends_with slash p ≡ false
    → has_single_stars false p ≡ true
    → fullmatch (regex_of_value (slash ∷ p)) path ≡ true
    → count_slashes path ≡ count_slashes p
wildcards_keep_depth p path wild closed single h = count-translate false p path single (
    subst (λ r. In r path) (regex_of_value-wild p wild closed)
      (fullmatch_sound (regex_of_value (slash ∷ p)) path h))
