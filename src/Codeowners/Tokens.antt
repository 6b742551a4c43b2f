-- ===== src/Codeowners/Tokens.antt =====
-- `_split_line` reads back what an escaping writer writes.
use mathlib.Core.List.{reverse, reverse-reverse, reverse-append, append_assoc, append-nil}
use extra_codeowners.Prelude.{
  ℕ, true, false, List, [], ◌∷◌, ◌++◌, ◌≡◌, refl, ap, sym, ◌∙◌, arith, if◌then◌else◌, ◌==◌, nat_eq,
  map, inl, inr, Bool-cases,
}
use extra_codeowners.Text.{Str, is_space, join}
use extra_codeowners.Codeowners.Parser.{flush, split_line_from, split_line}

-- a backslash in front of each whitespace character
unfoldable pub escape : Str → Str
escape [] = []
escape (c ∷ s) = let rest = escape s in if is_space c then 0x5c ∷ c ∷ rest else c ∷ rest

-- a token with a character, and no backslash
unfoldable pub HasNoBackslash : Str → Type 0
HasNoBackslash [] = Unit
HasNoBackslash (c ∷ s) = ((c == 0x5c) ≡ false) × HasNoBackslash s

unfoldable pub AreTokens : List Str → Type 0
AreTokens [] = Unit
AreTokens ([] ∷ tokens) = ⊥
AreTokens ((c ∷ s) ∷ tokens) = HasNoBackslash (c ∷ s) × AreTokens tokens

read_char :
    (current s : Str) (c : ℕ)
    → (c == 0x5c) ≡ false
    → is_space c ≡ false
    → split_line_from current (c ∷ s) ≡ split_line_from (c ∷ current) s
unfolding split_line_from
read_char current [] c b w = rw w refl
read_char current (d ∷ s) c b w = rw (b, w) refl

read_escaped :
    (current s : Str) (c : ℕ)
    → is_space c ≡ true
    → split_line_from current (0x5c ∷ c ∷ s) ≡ split_line_from (c ∷ current) s
unfolding split_line_from
read_escaped current s c w = rw w refl

read_token :
    (current t s : Str)
    → HasNoBackslash t
    → split_line_from current (escape t ++ s) ≡ split_line_from (reverse t ++ current) s
unfolding escape HasNoBackslash
read_token current [] s h = refl
read_token current (c ∷ t) s (b, h) =
    let moved : split_line_from (c ∷ current) (escape t ++ s)
        ≡ split_line_from (reverse (c ∷ t) ++ current) s =
      read_token (c ∷ current) t s h
      ∙ ap (λ x. split_line_from x s)
          (sym (append_assoc (reverse t) (c ∷ []) current)
            ∙ ap (λ x. x ++ current) (sym (reverse-append (c ∷ []) t))) in
    elim (Bool-cases (is_space c)) [
      | inl space ↦ rw space (read_escaped current (escape t ++ s) c space ∙ moved)
      | inr plain ↦ rw plain (read_char current (escape t ++ s) c b plain ∙ moved)
    ]

flush-token :
    (c : ℕ) (t : Str) (tokens : List Str) → flush (reverse (c ∷ t) ++ []) tokens ≡ (c ∷ t) ∷ tokens
flush-token c t tokens =
    ap (λ x. flush x tokens) (append-nil (reverse (c ∷ t)))
    ∙ flush_reversed (reverse (c ∷ t)) (reverse-reverse (c ∷ t))
  where
    flush_reversed : (s : Str) → reverse s ≡ c ∷ t → flush s tokens ≡ (c ∷ t) ∷ tokens
    flush_reversed [] e = absurd (ground arith)
    flush_reversed (x ∷ s) e = unfold flush in ap (λ y. y ∷ tokens) e

-- a space between two tokens ends the first
read_space :
    (current : Str) (d : ℕ) (s : Str)
    → split_line_from current (b' ' ∷ d ∷ s) ≡ flush current (split_line_from [] (d ∷ s))
unfolding split_line_from
read_space current d s = refl

-- what the writer puts between tokens
abbrev pub separator : Str
separator = b' ' ∷ []

-- an escaped token starts with some character
escape-cons : (c : ℕ) (t : Str) → (d : ℕ) × (s : Str) × (escape (c ∷ t) ≡ d ∷ s)
unfolding escape
escape-cons c t = elim (Bool-cases (is_space c)) [
  | inl space ↦ (0x5c, c ∷ escape t, rw space refl)
  | inr plain ↦ (c, escape t, rw plain refl)
]

read_first :
    (c : ℕ) (t s : Str) (d : ℕ)
    → HasNoBackslash (c ∷ t)
    → split_line_from [] (escape (c ∷ t) ++ (b' ' ∷ d ∷ s)) ≡ (c ∷ t) ∷ split_line_from [] (d ∷ s)
read_first c t s d h =
    read_token [] (c ∷ t) (b' ' ∷ d ∷ s) h
    ∙ read_space (reverse (c ∷ t) ++ []) d s
    ∙ flush-token c t (split_line_from [] (d ∷ s))

-- Tokens with at least one character and no backslash, escaped and joined by spaces, are what
-- `_split_line` returns.
pub split_line-written :
    (tokens : List Str)
    → AreTokens tokens
    → split_line (join separator (map escape tokens)) ≡ tokens
unfolding split_line join AreTokens
split_line-written [] h = unfold flush in refl
split_line-written ([] ∷ tokens) h = absurd h
split_line-written ((c ∷ t) ∷ []) h =
    ap (split_line_from []) (sym (append-nil (escape (c ∷ t))))
    ∙ read_token [] (c ∷ t) [] h.0
    ∙ unfold split_line_from in flush-token c t []
split_line-written ((c ∷ t) ∷ [] ∷ tokens) h = absurd h.1
split_line-written ((c ∷ t) ∷ (x ∷ y) ∷ tokens) h =
    let (d, s, e) = escape-cons x y in
    let later = split_line-written ((x ∷ y) ∷ tokens) h.1 in
    let tail : Str = join separator (map escape ((x ∷ y) ∷ tokens)) in
    let start : (d' : ℕ) × (s' : Str) × (tail ≡ d' ∷ s') = starts tokens d s e in
    rw start.2 (
      read_first c t start.1 start.0 h.0
      ∙ ap (λ l. (c ∷ t) ∷ l) (ap (split_line_from []) (sym start.2) ∙ later))
  where
    starts :
        (rest : List Str) (d : ℕ) (s : Str)
        → escape (x ∷ y) ≡ d ∷ s
        → (d' : ℕ) × (s' : Str) × (join separator (map escape ((x ∷ y) ∷ rest)) ≡ d' ∷ s')
    starts [] d s e = (d, s, e)
    starts (r ∷ rest) d s e =
        (d, s ++ (separator ++ join separator (map escape (r ∷ rest))), rw e refl)
