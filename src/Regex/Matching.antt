-- ===== src/Regex/Matching.antt =====
-- `fullmatch` decides the language of an expression.
use mathlib.Core.List.{append_assoc, append-nil}
use extra_codeowners.Prelude.{
  ℕ, Bool, true, [], ◌∷◌, ◌++◌, ◌≡◌, refl, ◌↔◌, inl, inr, ap, subst, arith, Bool-cases,
}
use extra_codeowners.Text.{Str}
use extra_codeowners.Regex.{
  Class, in_class, Regex, empty, one, many, seq, optional, match_many, match_then, is_empty,
  fullmatch,
}

-- every character of the text is in the class
pub data AllIn (c : Class) : Str → Type 0 where
  nil : AllIn c []
  cons : {x : ℕ} {s : Str} → in_class c x ≡ true → AllIn c s → AllIn c (x ∷ s)

-- The texts that an expression describes.
pub data Matches : Regex → Str → Type 0 where
  of_empty : Matches empty []
  of_one : {c : Class} {x : ℕ} → in_class c x ≡ true → Matches (one c) (x ∷ [])
  of_many : {c : Class} {s : Str} → AllIn c s → Matches (many c) s
  of_seq : {r t : Regex} {s u : Str} → Matches r s → Matches t u → Matches (seq r t) (s ++ u)
  of_skip : {r : Regex} → Matches (optional r) []
  of_some : {r : Regex} {s : Str} → Matches r s → Matches (optional r) s

-- the text has a first part in the language, and `next` accepts the rest
abbrev Splits : Regex → (Str → Bool) → Str → Type 0
Splits r next s = (u : Str) × (v : Str) × (s ≡ u ++ v) × Matches r u × (next v ≡ true)

match_many_complete :
    (c : Class) (next : Str → Bool) {u : Str} (v : Str)
    → AllIn c u
    → next v ≡ true
    → match_many c next (u ++ v) ≡ true
unfolding match_many
match_many_complete c next [] nil h = h
match_many_complete c next (x ∷ v) nil h = ground arith
match_many_complete c next v (cons {x = x} {s = s} i is) h =
    rw (i, match_many_complete c next v is h)

match_then_complete :
    {r : Regex} {u : Str} (next : Str → Bool) (v : Str)
    → Matches r u
    → next v ≡ true
    → match_then r next (u ++ v) ≡ true
unfolding match_then
match_then_complete next v of_empty h = h
match_then_complete next v (of_one i) h = rw (i, h)
match_then_complete next v (of_many a) h = match_many_complete _ next v a h
match_then_complete next v (of_seq {r = r} {t = t} {s = s} {u = u} m n) h =
    rw append_assoc
      (match_then_complete (match_then t next) (u ++ v) m (match_then_complete next v n h))
match_then_complete next v (of_skip {r = r}) h = rw h (ground arith)
match_then_complete next v (of_some m) h = rw (match_then_complete next v m h)

match_many_sound :
    (c : Class) (next : Str → Bool) (s : Str)
    → match_many c next s ≡ true
    → (u : Str) × (v : Str) × (s ≡ u ++ v) × AllIn c u × (next v ≡ true)
unfolding match_many
match_many_sound c next [] h = ([], [], refl, nil, h)
match_many_sound c next (x ∷ s) h = elim (Bool-cases (next (x ∷ s))) [
  | inl stop ↦ ([], x ∷ s, refl, nil, stop)
  | inr go ↦
      let both : (in_class c x ≡ true) × (match_many c next s ≡ true) = ground arith in
      let (u, v, e, a, n) = match_many_sound c next s both.1 in
      (x ∷ u, v, ap (λ t. x ∷ t) e, cons both.0 a, n)
]

match_then_sound :
    (r : Regex) (next : Str → Bool) (s : Str) → match_then r next s ≡ true → Splits r next s
unfolding match_then
match_then_sound empty next s h = ([], s, refl, of_empty, h)
match_then_sound (one c) next [] h = ground arith
match_then_sound (one c) next (x ∷ s) h =
    let both : (in_class c x ≡ true) × (next s ≡ true) = ground arith in
    (x ∷ [], s, refl, of_one both.0, both.1)
match_then_sound (many c) next s h =
    let (u, v, e, a, n) = match_many_sound c next s h in (u, v, e, of_many a, n)
match_then_sound (seq r t) next s h =
    let (u, v, e, m, n) = match_then_sound r (match_then t next) s h in
    let (u', v', e', m', n') = match_then_sound t next v n in
    (u ++ u', v', rw (e, e', append_assoc), of_seq m m', n')
match_then_sound (optional r) next s h = elim (Bool-cases (match_then r next s)) [
  | inl taken ↦ let (u, v, e, m, n) = match_then_sound r next s taken in (u, v, e, of_some m, n)
  | inr skipped ↦ ([], s, refl, of_skip, ground arith)
]

is_empty_sound : (s : Str) → is_empty s ≡ true → s ≡ []
is_empty_sound [] h = refl
is_empty_sound (x ∷ s) h = ground arith

pub fullmatch_sound : (r : Regex) (s : Str) → fullmatch r s ≡ true → Matches r s
unfolding fullmatch
fullmatch_sound r s h =
    let (u, v, e, m, n) = match_then_sound r is_empty s h in
    subst (Matches r) (rw (e, is_empty_sound v n, append-nil)) m

pub fullmatch_complete : (r : Regex) (s : Str) → Matches r s → fullmatch r s ≡ true
unfolding fullmatch
fullmatch_complete r s m = rw append-nil at (match_then_complete is_empty [] m refl)

-- The matcher accepts a text exactly when the text is in the language of the expression.
pub fullmatch_iff : (r : Regex) (s : Str) → (fullmatch r s ≡ true) ↔ Matches r s
fullmatch_iff r s = (fullmatch_sound r s, fullmatch_complete r s)
