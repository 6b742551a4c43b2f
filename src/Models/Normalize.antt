-- ===== src/Models/Normalize.antt =====
-- The normalising functions of models.py. A `ValueError` is its message.
use extra_codeowners.Prelude.{
  ℕ, Bool, true, false, not, ◌&&◌, ◌||◌, [], ◌∷◌, ◌++◌, leb, ◌==◌, nat_eq, list_eq, any, contains,
  Result, ok, refuse, ◌>>◌,
}
use extra_codeowners.Text.{Str, text, slash, strip, starts_with, split, Unicode}
use extra_codeowners.Regex.{Regex, Class, among, exactly, one, many, seq, optional, fullmatch}

abbrev pub ValueError : Type 0
ValueError = Str

pub is_alnum : ℕ → Bool
is_alnum c = leb b'a' c && leb c b'z' || leb b'0' c && leb c b'9'

-- [a-z0-9] under IGNORECASE, which lets four characters outside ASCII through
pub is_alnum_any_case : ℕ → Bool
unfolding is_alnum
is_alnum_any_case c =
    is_alnum c || leb b'A' c && leb c b'Z' || c == 0x130 || c == 0x131 || c == 0x17f || c == 0x212a

pub owner_head : Class
owner_head = among is_alnum_any_case

pub owner_tail : Class
owner_tail = among (λ c. is_alnum_any_case c || c == b'_' || c == b'.' || c == b'-')

unfoldable pub owner_regex : Regex
unfolding owner_head owner_tail is_alnum_any_case
owner_regex = seq (one (exactly b'@')) (
    seq (one owner_head) (
      seq (many owner_tail)
        (optional (seq (one (exactly slash)) (seq (one owner_head) (many owner_tail))))))

unfoldable pub app_slug_regex : Regex
unfolding is_alnum
app_slug_regex =
    seq (one (among is_alnum))
      (optional (seq (many (among (λ c. is_alnum c || c == b'-'))) (one (among is_alnum))))

unfoldable pub app_alias_regex : Regex
unfolding is_alnum
app_alias_regex = seq (one (among is_alnum)) (
    optional
      (seq (many (among (λ c. is_alnum c || c == b'_' || c == b'-'))) (one (among is_alnum))))

unfoldable pub normalize_owner : Unicode → Str → Result ValueError Str
unfolding strip starts_with contains
normalize_owner u value = do
  let owner = u.lower (strip value)
  refuse (contains owner b'@' && not (starts_with b'@' owner)) (
      text "email CODEOWNER "
      ++ (u.repr value ++ text " is unsupported; use an @user or @org/team"))
  refuse (not (fullmatch owner_regex owner))
      (text "invalid CODEOWNER identity " ++ (u.repr value ++ text "; expected @user or @org/team"))
  ok owner

-- part in {"", ".", ".."}
unfoldable pub is_dots : Str → Bool
is_dots [] = true
is_dots (a ∷ []) = a == b'.'
is_dots (a ∷ b ∷ []) = a == b'.' && b == b'.'
is_dots (a ∷ b ∷ c ∷ s) = false

unfoldable pub normalize_repository_path : Str → Result ValueError Str
unfolding contains is_dots
normalize_repository_path path = do
  refuse (path == []) (text "repository path must not be empty")
  refuse (not (path == strip path))
      (text "repository paths with leading or trailing whitespace are unsupported")
  refuse (starts_with slash path || contains path 0x5c)
      (text "repository paths must be relative POSIX paths")
  refuse (any is_dots (split slash path))
      (text "repository paths must not contain empty, '.' or '..' segments")
  ok path

unfoldable pub normalize_pattern : Str → Result ValueError Str
unfolding strip contains
normalize_pattern value = do
  let pattern = strip value
  refuse (pattern == []) (text "path pattern must not be empty")
  refuse (contains pattern 0x5c) (text "path patterns must use POSIX '/' separators")
  ok pattern

unfoldable pub normalize_label : Unicode → Str → Result ValueError Str
unfolding strip
normalize_label u value = do
  let label = u.lower (strip value)
  refuse (label == []) (text "label must not be empty")
  ok label
