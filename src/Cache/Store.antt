-- ===== src/Cache/Store.antt =====
-- The operations of the class DiscoveryCache.
use extra_codeowners.Prelude.{
  ℕ, ◌+◌, ◌-◌, true, false, not, ◌||◌, List, [], ◌∷◌, ◌++◌, ltb, leb, ◌==◌, if◌then◌else◌, length,
  Dict, lookup, assign, Option, none, some, Result, ok, err, ◌>>=◌, ◌>>◌,
}
use extra_codeowners.Text.{text}
use extra_codeowners.Models.Normalize.{ValueError}
use extra_codeowners.Cache.{
  Bytes, CacheKey, cache_key_eq, CacheEntry, StoredEntry, CacheLookupStatus, hit, absent, expired,
  CacheEvent, entry_expired, stored, rejected_metadata, rejected_size, rejected_encoding,
  evicted_bytes, evicted_entries, CacheError, value_error, key_error, Limits, DiscoveryCache,
  Decoded, Zlib,
}
use extra_codeowners.Cache.Checks.{validate_key, validate_entry, entry_size, validate_limits}

-- DiscoveryCache(...)
unfoldable pub new_cache : Limits → Result ValueError DiscoveryCache
unfolding validate_limits
new_cache limits = do
  validate_limits limits
  ok (record { limits = limits; entries = []; bytes = 0 })

-- the dict without a key
unfoldable pub without : CacheKey → Dict CacheKey StoredEntry → Dict CacheKey StoredEntry
without key [] = []
without key ((k, v) ∷ d) = if k == key then d else (k, v) ∷ without key d

-- _remove_validated
unfoldable pub remove_validated : CacheKey → DiscoveryCache → DiscoveryCache
unfolding lookup without
remove_validated key cache = elim (lookup key cache.entries) [
  | none ↦ cache
  | some entry ↦ record cache {
    entries = without key cache.entries;
    bytes = cache.bytes - entry.size;
  }
]

-- remove
unfoldable pub remove : CacheKey → DiscoveryCache → Result ValueError DiscoveryCache
unfolding validate_key remove_validated
remove key cache = do validate_key key; ok (remove_validated key cache)

-- What an operation leaves: the cache, the reports, and the answer.
pub record Outcome {ℓ} (A : Type ℓ) : Type ℓ where
  pub cache : DiscoveryCache
  pub events : List CacheEvent
  pub answer : A

-- the body of an entry that was compressed; none is the ValueError or the zlib.error
unfoldable pub checked_output : ℕ → Option Decoded → Option Bytes
checked_output limit none = none
checked_output limit (some decoded) =
    if ltb limit (length decoded.output)
      || not decoded.eof
      || decoded.has_unconsumed_tail
      || decoded.has_unused_data
    then none
    else some decoded.output

unfoldable pub body_of : Zlib → Limits → StoredEntry → Option Bytes
unfolding checked_output
body_of zlib limits item =
    if item.compressed
    then checked_output limits.max_entry_bytes
        (zlib.decompress item.entry.body (limits.max_entry_bytes + 1))
    else some item.entry.body

abbrev pub Found : Type 0
Found = Option CacheEntry × CacheLookupStatus

-- the part of lookup behind the test of the idle time
unfoldable pub use_entry :
    ℕ → CacheKey → StoredEntry → DiscoveryCache → Option Bytes → Outcome Found
unfolding remove_validated without
use_entry now key item cache none = record {
  cache = remove_validated key cache;
  events = rejected_encoding ∷ [];
  answer = (none, absent);
}
use_entry now key item cache (some body) = record {
  cache = record cache {
    entries = without key cache.entries ++ (key, record item { last_used = now }) ∷ [];
  };
  events = [];
  answer = (some (record item.entry { body = body }), hit);
}

unfoldable pub found_entry :
    Zlib → ℕ → CacheKey → DiscoveryCache → Option StoredEntry → Outcome Found
unfolding remove_validated use_entry body_of
found_entry zlib now key cache none = record { cache = cache; events = []; answer = (none, absent) }
found_entry zlib now key cache (some item) =
    if leb cache.limits.idle_ttl (now - item.last_used)
    then record {
      cache = remove_validated key cache;
      events = entry_expired ∷ [];
      answer = (none, expired);
    }
    else use_entry now key item cache (body_of zlib cache.limits item)

-- lookup
unfoldable pub look_up : Zlib → ℕ → CacheKey → DiscoveryCache → Result ValueError (Outcome Found)
unfolding validate_key lookup found_entry
look_up zlib now key cache = do
  validate_key key
  ok (found_entry zlib now key cache (lookup key cache.entries))

-- the entry as it is stored: compressed where that is asked for and shorter
unfoldable pub packed : ℕ → CacheEntry → ℕ → Option Bytes → StoredEntry
packed now entry size none = record {
  entry = entry;
  last_used = now;
  size = size;
  compressed = false;
}
packed now entry size (some encoded) =
    if ltb (length encoded) (length entry.body)
    then record {
      entry = record entry { body = encoded };
      last_used = now;
      size = size - (length entry.body - length encoded);
      compressed = true;
    }
    else record { entry = entry; last_used = now; size = size; compressed = false }

unfoldable pub encoded_body : Zlib → Limits → Bytes → Option Bytes
encoded_body zlib limits body = if limits.compress then zlib.compress body else none

-- the loop at the end of put; where popitem raises, what the loop removed and reported is left out
unfoldable pub evict :
    Limits
    → Dict CacheKey StoredEntry
    → ℕ
    → Result CacheError (Dict CacheKey StoredEntry × ℕ × List CacheEvent)
evict limits [] bytes = if ltb limits.max_bytes bytes then err key_error else ok ([], bytes, [])
evict limits ((k, v) ∷ d) bytes =
    let event = if ltb limits.max_bytes bytes then evicted_bytes else evicted_entries in
    let rest = evict limits d (bytes - v.size) in
    if ltb limits.max_entries (length ((k, v) ∷ d)) || ltb limits.max_bytes bytes
    then (do (entries, left, events) ← rest; ok (entries, left, event ∷ events))
    else ok ((k, v) ∷ d, bytes, [])

-- put, behind the tests: the entry is stored, and the oldest are evicted
unfoldable pub evicted :
    DiscoveryCache
    → Result CacheError (Dict CacheKey StoredEntry × ℕ × List CacheEvent)
    → Outcome (Result CacheError (Unit {0}))
evicted cache (err e) = record { cache = cache; events = stored ∷ []; answer = err e }
evicted cache (ok (entries, bytes, events)) = record {
  cache = record cache { entries = entries; bytes = bytes };
  events = stored ∷ events;
  answer = ok tt;
}

unfoldable pub store :
    CacheKey → StoredEntry → DiscoveryCache → Outcome (Result CacheError (Unit {0}))
unfolding assign evict evicted
store key item cache =
    let entries = assign key item cache.entries in
    let bytes = cache.bytes + item.size in
    evicted (record cache { entries = entries; bytes = bytes }) (evict cache.limits entries bytes)

-- the tests of put on the entry, when its key's old entry is removed
unfoldable pub put_entry :
    Zlib
    → ℕ
    → CacheKey
    → CacheEntry
    → DiscoveryCache
    → Result ValueError (Unit {0})
    → Outcome (Result CacheError (Unit {0}))
unfolding entry_size store packed encoded_body
put_entry zlib now key entry cache (err message) = record {
  cache = cache;
  events = rejected_metadata ∷ [];
  answer = err (value_error message);
}
put_entry zlib now key entry cache (ok checked) =
    let size = entry_size key entry in
    if ltb cache.limits.max_entry_bytes size || ltb cache.limits.max_bytes size
    then record {
      cache = cache;
      events = rejected_size ∷ [];
      answer = err (value_error (text "cache entry exceeds its configured size bound"));
    }
    else store key (packed now entry size (encoded_body zlib cache.limits entry.body)) cache

-- put: the test of the key comes before any change
unfoldable pub put :
    Zlib
    → ℕ
    → CacheKey
    → CacheEntry
    → DiscoveryCache
    → Result ValueError (Outcome (Result CacheError (Unit {0})))
unfolding validate_key remove_validated validate_entry put_entry
put zlib now key entry cache = do
  validate_key key
  ok (put_entry zlib now key entry (remove_validated key cache) (validate_entry entry))
