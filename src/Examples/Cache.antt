-- ===== src/Examples/Cache.antt =====
-- discovery_cache.py with room for one entry.
use extra_codeowners.Prelude.{
  ℕ, ◌≤◌, ◌<◌, ◌-◌, Bool, true, false, List, [], ◌∷◌, ◌++◌, ◌≡◌, refl, sym, subst, Option, none,
  some, Result, ok, arith, length,
}
use extra_codeowners.Text.{text}
use extra_codeowners.Cache.{
  Bytes, CacheKey, CacheEntry, StoredEntry, CacheError, Limits, DiscoveryCache, Decoded, Zlib, hit,
}
use extra_codeowners.Cache.Checks.{validate_key, validate_entry, entry_size}
use extra_codeowners.Cache.Store.{remove_validated, Outcome, Found, put, look_up}
use extra_codeowners.Cache.Entries.{Entries, total}
use extra_codeowners.Cache.Bounds.{IsValid}
use extra_codeowners.Cache.Calls.{look, store_at, discard, calls, calls-IsValid}
use extra_codeowners.Cache.Reuse.{IsLossless, put_then_look_up}

-- a codec that puts a mark in front
abbrev unmark : Bytes → ℕ → Option Decoded
unmark [] limit = none
unmark (mark ∷ body) limit =
    some
      (record { output = body; eof = true; has_unconsumed_tail = false; has_unused_data = false })

abbrev codec : Zlib
codec = record { compress = λ b. some (0 ∷ b); decompress = unmark }

codec-IsLossless : IsLossless codec
unfolding IsLossless
codec-IsLossless body encoded limit h n =
    let same : 0 ∷ body ≡ encoded = ground arith in
    subst
      (λ z.
        unmark z limit
        ≡ some (record {
          output = body;
          eof = true;
          has_unconsumed_tail = false;
          has_unused_data = false;
        }))
      same refl

abbrev limits : Limits
limits = record {
  max_bytes = 100;
  max_entry_bytes = 60;
  max_entries = 1;
  idle_ttl = 10;
  compress = true;
}

abbrev entry : CacheEntry
entry = record { body = 1 ∷ 2 ∷ []; etag = text "\"a\""; links = [] }

abbrev first : CacheKey
first = record { installation_id = 7; path = text "/x"; query = [] }

abbrev second : CacheKey
second = record { installation_id = 7; path = text "/y"; query = [] }

abbrev item : StoredEntry
item = record { entry = entry; last_used = 3; size = 8; compressed = false }

abbrev cache : DiscoveryCache
cache = record { limits = limits; entries = (first, item) ∷ []; bytes = 8 }

cache-IsValid : IsValid cache
unfolding total extra_codeowners.Prelude.lookup
cache-IsValid = record {
  counted = refl;
  few = omega arith;
  small = omega arith;
  unique = (refl, tt);
  one = omega arith;
}

calls-IsValid_example :
    IsValid (calls codec (store_at 4 second entry ∷ look 5 first ∷ discard second ∷ []) cache)
calls-IsValid_example =
    calls-IsValid codec (store_at 4 second entry ∷ look 5 first ∷ discard second ∷ []) cache
      cache-IsValid

key_fits : validate_key second ≡ ok tt
unfolding validate_key text
key_fits = refl

entry_fits : validate_entry entry ≡ ok tt
unfolding validate_entry text extra_codeowners.Regex.in_class
entry_fits = refl

size_fits : entry_size second entry ≡ 8
unfolding entry_size text
size_fits = refl

put_then_look_up_example :
    (o : Outcome (Result CacheError (Unit {0}))) × (l : Outcome Found) × (put codec 4 second entry
        cache
      ≡ ok o)
    × (o.answer ≡ ok tt)
    × (look_up codec 9 second o.cache ≡ ok l)
    × (l.answer ≡ (some entry, hit))
    × ((dropped : Entries) × (kept : Entries) × (stored : StoredEntry) × ((remove_validated second
            cache).entries
          ≡ dropped ++ kept)
        × (o.cache.entries ≡ kept ++ (second, stored) ∷ []))
put_then_look_up_example =
    put_then_look_up codec 4 9 second entry cache codec-IsLossless cache-IsValid key_fits entry_fits
      (omega (arith, size_fits)) (omega (arith, size_fits)) (omega arith)
