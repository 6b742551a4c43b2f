-- ===== src/Cache/Checks.antt =====
-- The tests of discovery_cache.py on keys and entries, and the size of an entry.
use extra_codeowners.Prelude.{
  ℕ, ◌+◌, Bool, not, ◌||◌, List, [], ◌∷◌, ltb, leb, ◌==◌, nat_eq, length, any, Result, ok, ◌>>=◌,
  ◌>>◌, refuse,
}
use extra_codeowners.Text.{Str, text, slash, starts_with, decimal, is_surrogate, utf8_length}
use extra_codeowners.Regex.{Regex, exactly, among, one, many, seq, optional, fullmatch}
use extra_codeowners.Models.Normalize.{ValueError}
use extra_codeowners.Cache.{CacheKey, CacheEntry, Limits}

-- _validate_key
unfoldable pub validate_key : CacheKey → Result ValueError (Unit {0})
unfolding starts_with any is_surrogate utf8_length
validate_key key = do
  refuse (key.installation_id == 0) (text "installation_id must be a positive integer")
  refuse (not (starts_with slash key.path)) (text "path must be an absolute request path")
  refuse (any is_surrogate key.path || any is_surrogate key.query)
      (text "cache key must be valid UTF-8")
  refuse (ltb 4096 (utf8_length key.path + utf8_length key.query)) (text "cache key is too large")

abbrev pub quote : ℕ
quote = 0x22

unfoldable pub is_etag_char : ℕ → Bool
is_etag_char c = not (c == quote || ltb c 0x20 || c == 0x7f)

-- _ETAG_RE
unfoldable pub etag_regex : Regex
unfolding is_etag_char
etag_regex =
    seq (optional (seq (one (exactly b'W')) (one (exactly slash))))
      (seq (one (exactly quote)) (seq (many (among is_etag_char)) (one (exactly quote))))

unfoldable pub is_not_ascii : Str → Bool
unfolding any
is_not_ascii s = any (leb 128) s

unfoldable pub has_control : Str → Bool
unfolding any
has_control s = any (λ c. ltb c 0x20 || c == 0x7f) s

-- the loop over the links: their bytes
unfoldable pub link_bytes : List Str → Result ValueError ℕ
unfolding is_not_ascii has_control
link_bytes [] = ok 0
link_bytes (link ∷ links) = do
  refuse (is_not_ascii link) (text "pagination links must contain ASCII only")
  refuse (has_control link) (text "pagination links must not contain control characters")
  rest ← link_bytes links
  ok (length link + rest)

-- _validate_entry
unfoldable pub validate_entry : CacheEntry → Result ValueError (Unit {0})
unfolding is_not_ascii fullmatch etag_regex link_bytes
validate_entry entry = do
  refuse (is_not_ascii entry.etag) (text "ETag must contain printable ASCII only")
  refuse (ltb 512 (length entry.etag) || not (fullmatch etag_regex entry.etag))
      (text "ETag must be one bounded quoted or weak quoted tag")
  refuse (ltb 128 (length entry.links)) (text "pagination links exceed their bound")
  total ← link_bytes entry.links
  refuse (ltb 16384 total) (text "pagination links exceed their byte bound")

unfoldable pub sum_lengths : List Str → ℕ
sum_lengths [] = 0
sum_lengths (link ∷ links) = length link + sum_lengths links

-- _entry_size
unfoldable pub entry_size : CacheKey → CacheEntry → ℕ
unfolding decimal utf8_length sum_lengths
entry_size key entry =
    (length (decimal key.installation_id) + utf8_length key.path + utf8_length key.query)
    + (length entry.body + length entry.etag + sum_lengths entry.links)

-- the test of the constructor, whose idle_ttl_seconds is finite here
unfoldable pub validate_limits : Limits → Result ValueError (Unit {0})
validate_limits limits = do
  refuse (limits.max_bytes == 0 || limits.max_entry_bytes == 0 || limits.max_entries == 0)
      (text "cache bounds must be positive")
  refuse (limits.idle_ttl == 0) (text "idle_ttl_seconds must be positive")
