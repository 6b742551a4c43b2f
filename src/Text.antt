-- ===== src/Text.antt =====
-- Python's texts as lists of code points, and the methods of `str` that the program calls.
pub mod Laws
use Prim.Native.Char.{code}
use Prim.Native.String.{String}
use mathlib.Core.List.{reverse}
use extra_codeowners.Prelude.{
  ℕ, zero, suc, ◌+◌, ◌/◌, ◌%◌, Bool, true, false, not, ◌&&◌, ◌||◌, List, [], ◌∷◌, ◌++◌, Option,
  none, some, ltb, leb, ◌==◌, if◌then◌else◌, nat_eq,
}

abbrev pub Str : Type 0
Str = List ℕ

-- The code points of a literal.
unfoldable pub text : String → Str
text String.[] = []
text (String.◌∷◌ c s) = code c ∷ text s

abbrev pub slash : ℕ
slash = 0x2f

abbrev pub newline : ℕ
newline = 10

-- c.isspace() of one character
unfoldable pub is_space : ℕ → Bool
is_space c =
    leb 9 c && leb c 13
    || leb 28 c && leb c 32
    || c == 0x85
    || c == 0xa0
    || c == 0x1680
    || leb 0x2000 c && leb c 0x200a
    || c == 0x2028
    || c == 0x2029
    || c == 0x202f
    || c == 0x205f
    || c == 0x3000

unfoldable pub drop_while : (ℕ → Bool) → Str → Str
drop_while p [] = []
drop_while p (c ∷ s) = if p c then drop_while p s else c ∷ s

-- s.rstrip(chars)
unfoldable pub drop_while_end : (ℕ → Bool) → Str → Str
unfolding drop_while
drop_while_end p s = reverse (drop_while p (reverse s))

-- s.strip()
unfoldable pub strip : Str → Str
unfolding drop_while_end is_space
strip s = drop_while_end is_space (drop_while is_space s)

-- s.startswith(c), s.endswith(c) for a text of one character
unfoldable pub starts_with : ℕ → Str → Bool
starts_with c [] = false
starts_with c (x ∷ s) = x == c

unfoldable pub ends_with : ℕ → Str → Bool
ends_with c [] = false
ends_with c (x ∷ []) = x == c
ends_with c (x ∷ y ∷ s) = ends_with c (y ∷ s)

-- s.removeprefix(c)
unfoldable pub remove_prefix : ℕ → Str → Str
remove_prefix c [] = []
remove_prefix c (x ∷ s) = if x == c then s else x ∷ s

-- a character in front of the first piece
unfoldable pub push_char : ℕ → List Str → List Str
push_char c [] = (c ∷ []) ∷ []
push_char c (piece ∷ pieces) = (c ∷ piece) ∷ pieces

-- s.split(sep)
unfoldable pub split : ℕ → Str → List Str
unfolding push_char
split sep [] = [] ∷ []
split sep (c ∷ s) = let pieces = split sep s in if c == sep then [] ∷ pieces else push_char c pieces

-- sep.join(pieces)
unfoldable pub join : Str → List Str → Str
join sep [] = []
join sep (piece ∷ []) = piece
join sep (piece ∷ next ∷ pieces) = piece ++ (sep ++ join sep (next ∷ pieces))

-- prefix of, and `needle in s`
unfoldable pub is_prefix : Str → Str → Bool
is_prefix [] s = true
is_prefix (c ∷ needle) [] = false
is_prefix (c ∷ needle) (x ∷ s) = x == c && is_prefix needle s

unfoldable pub includes : Str → Str → Bool
unfolding is_prefix
includes needle [] = is_prefix needle []
includes needle (x ∷ s) = is_prefix needle (x ∷ s) || includes needle s

-- A line ends at one of these; "\r\n" is one end.
pub is_line_end : ℕ → Bool
is_line_end c =
    leb 10 c && leb c 13 || leb 28 c && leb c 30 || c == 0x85 || c == 0x2028 || c == 0x2029

-- s.splitlines(): the flag says that a "\r" was just read; the text behind the last end is a line
-- only if it is not empty
pub split_lines_from : Bool → Str → Str → List Str
unfolding is_line_end
split_lines_from cr [] [] = []
split_lines_from cr (c ∷ current) [] = reverse (c ∷ current) ∷ []
split_lines_from cr current (c ∷ s) =
    let skipped = split_lines_from false current s in
    let ended = reverse current ∷ split_lines_from (c == 13) [] s in
    let more = split_lines_from false (c ∷ current) s in
    if cr && c == 10 then skipped else if is_line_end c then ended else more

unfoldable pub split_lines : Str → List Str
unfolding split_lines_from
split_lines s = split_lines_from false [] s

-- str(n), on fuel: a number has at most as many digits as its value and one
pub decimal_from : ℕ → ℕ → Str → Str
decimal_from zero n digits = digits
decimal_from (suc fuel) n digits =
    let digits' = (48 + n % 10) ∷ digits in
    let rest = decimal_from fuel (n / 10) digits' in if ltb n 10 then digits' else rest

unfoldable pub decimal : ℕ → Str
unfolding decimal_from
decimal n = decimal_from (suc n) n []

-- len(s.encode("utf-8"))
-- a lone surrogate, which UTF-8 cannot encode
unfoldable pub is_surrogate : ℕ → Bool
is_surrogate c = leb 0xd800 c && leb c 0xdfff

unfoldable pub utf8_length : Str → ℕ
utf8_length [] = 0
utf8_length (c ∷ s) =
    (if ltb c 0x80 then 1 else if ltb c 0x800 then 2 else if ltb c 0x10000 then 3 else 4)
    + utf8_length s

-- What the program reads from the interpreter's Unicode character database.
pub record Unicode : Type 0 where
  pub lower : Str → Str  -- str.lower
  pub repr : Str → Str  -- repr of a str
  pub is_hidden : ℕ → Bool  -- the category is Cc, Cf, Zl or Zp
