-- ===== src/Regex.antt =====
-- The part of Python's `re` that codeowners.py and models.py use: classes of characters, greedy repetition,
-- sequence and option. `fullmatch` tries the alternatives as a backtracking matcher does.
pub mod Matching
use extra_codeowners.Prelude.{ℕ, Bool, true, false, not, ◌&&◌, ◌||◌, List, [], ◌∷◌, ◌==◌, nat_eq}
use extra_codeowners.Text.{Str, slash, newline}

-- an escaped character, `.` without DOTALL, `[^/]`, and any other set
pub data Class : Type 0 where
  exactly : ℕ → Class
  dot not_slash : Class
  among : (ℕ → Bool) → Class

unfoldable pub in_class : Class → ℕ → Bool
in_class (exactly c) x = x == c
in_class dot x = not (x == newline)
in_class not_slash x = not (x == slash)
in_class (among p) x = p x

pub data Regex : Type 0 where
  empty : Regex
  one many : Class → Regex
  seq : Regex → Regex → Regex
  optional : Regex → Regex

-- the concatenation of the pieces of a translated pattern
unfoldable pub concat : List Regex → Regex
concat [] = empty
concat (r ∷ rs) = seq r (concat rs)

unfoldable pub match_many : Class → (Str → Bool) → Str → Bool
match_many c next [] = next []
match_many c next (x ∷ s) = in_class c x && match_many c next s || next (x ∷ s)

pub match_one : Class → (Str → Bool) → Str → Bool
match_one c next [] = false
match_one c next (x ∷ s) = in_class c x && next s

-- `next` is what the rest of the expression says of the rest of the text
unfoldable pub match_then : Regex → (Str → Bool) → Str → Bool
unfolding match_one match_many
match_then empty next s = next s
match_then (one c) next s = match_one c next s
match_then (many c) next s = match_many c next s
match_then (seq r t) next s = match_then r (match_then t next) s
match_then (optional r) next s = match_then r next s || next s

abbrev pub is_empty : Str → Bool
is_empty [] = true
is_empty (x ∷ s) = false

-- pattern.fullmatch(s) is not None
unfoldable pub fullmatch : Regex → Str → Bool
unfolding match_then
fullmatch r s = match_then r is_empty s
