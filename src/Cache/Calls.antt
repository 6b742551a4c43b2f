-- ===== src/Cache/Calls.antt =====
-- Every operation keeps the limits and the count of bytes.
use extra_codeowners.Prelude.{
  ℕ, ◌-◌, ◌≤◌, ◌||◌, List, [], ◌∷◌, ltb, leb, lookup, Option, none, some, Result, ok, err, bind-inv,
  ◌≡◌, refl, subst, arith, Bool-cases, inl, inr,
}
use extra_codeowners.Models.Normalize.{ValueError}
use extra_codeowners.Cache.{
  Bytes, CacheKey, cache_key_eq, CacheEntry, StoredEntry, CacheError, DiscoveryCache, Zlib,
}
use extra_codeowners.Cache.Checks.{validate_key, validate_entry, entry_size}
use extra_codeowners.Cache.Store.{
  without, remove_validated, remove, Outcome, body_of, use_entry, found_entry, look_up, packed,
  encoded_body, put_entry, put, Found,
}
use extra_codeowners.Cache.Entries.{
  total, total-without, length-without_found, lookup-without, Unique-without, Unique-append,
  total-append, length-append,
}
use extra_codeowners.Cache.Bounds.{IsValid, remove_validated-IsValid, lookup-removed, store-Stores}

pub packed-size :
    (now : ℕ) (e : CacheEntry) (n : ℕ) (o : Option Bytes) → (packed now e n o).size ≤ n
unfolding packed
packed-size now e n none = omega arith
packed-size now e n (some z) = ground arith

put_entry-IsValid :
    (zlib : Zlib) (now : ℕ) (k : CacheKey) (e : CacheEntry) (c : DiscoveryCache)
    (r : Result ValueError (Unit {0}))
    → IsValid c
    → lookup k c.entries ≡ none
    → IsValid (put_entry zlib now k e c r).cache
unfolding put_entry
put_entry-IsValid zlib now k e c (err m) v new = v
put_entry-IsValid zlib now k e c (ok a) v new =
    elim (Bool-cases
      (ltb c.limits.max_entry_bytes (entry_size k e) || ltb c.limits.max_bytes (entry_size k e))) [
        | inl big ↦ rw big v
        | inr fits ↦
            let item = packed now e (entry_size k e) (encoded_body zlib c.limits e.body) in
            let size = packed-size now e (entry_size k e) (encoded_body zlib c.limits e.body) in
            rw fits (store-Stores k item c v new (ground (arith, fits, size))).1.valid
      ]

use_entry-IsValid :
    (now : ℕ) (k : CacheKey) (item : StoredEntry) (c : DiscoveryCache) (o : Option Bytes)
    → IsValid c
    → lookup k c.entries ≡ some item
    → IsValid (use_entry now k item c o).cache
unfolding use_entry
use_entry-IsValid now k item c none v found = remove_validated-IsValid k c v
use_entry-IsValid now k item c (some b) v found =
    let again = record item { last_used = now } in
    let rest = without k c.entries in
    record {
      counted = omega (
        arith,
        v.counted,
        total-without k item c.entries found,
        total-append rest ((k, again) ∷ []),
        one_total k again,
      );
      few = omega (
        arith,
        v.few,
        length-without_found k item c.entries found,
        length-append rest ((k, again) ∷ []),
      );
      small = v.small;
      unique =
          Unique-append k again rest (Unique-without k c.entries v.unique)
            (lookup-without k c.entries v.unique);
      one = v.one;
    }
  where
    one_total : (k : CacheKey) (item : StoredEntry) → total ((k, item) ∷ []) ≡ item.size
    one_total k item = unfold total in omega arith

found_entry-IsValid :
    (zlib : Zlib) (now : ℕ) (k : CacheKey) (c : DiscoveryCache) (o : Option StoredEntry)
    → IsValid c
    → lookup k c.entries ≡ o
    → IsValid (found_entry zlib now k c o).cache
unfolding found_entry
found_entry-IsValid zlib now k c none v found = v
found_entry-IsValid zlib now k c (some item) v found =
    elim (Bool-cases (leb c.limits.idle_ttl (now - item.last_used))) [
      | inl old ↦ rw old (remove_validated-IsValid k c v)
      | inr fresh ↦ rw fresh (use_entry-IsValid now k item c (body_of zlib c.limits item) v found)
    ]

-- a call at an instant
pub data Call : Type 0 where
  look : ℕ → CacheKey → Call
  store_at : ℕ → CacheKey → CacheEntry → Call
  discard : CacheKey → Call

-- the cache behind a call; one that raises on its key changes nothing
unfoldable pub call : Zlib → Call → DiscoveryCache → DiscoveryCache
call zlib (look now k) c = elim (look_up zlib now k c) [ ok o ↦ o.cache | err e ↦ c ]
call zlib (store_at now k e) c = elim (put zlib now k e c) [ ok o ↦ o.cache | err e ↦ c ]
call zlib (discard k) c = elim (remove k c) [ ok d ↦ d | err e ↦ c ]

unfoldable pub calls : Zlib → List Call → DiscoveryCache → DiscoveryCache
unfolding call
calls zlib [] c = c
calls zlib (x ∷ xs) c = calls zlib xs (call zlib x c)

after_outcome :
    {A : Type 0} (r : Result ValueError (Outcome A)) (c : DiscoveryCache)
    → ((o : Outcome A) → r ≡ ok o → IsValid o.cache)
    → IsValid c
    → IsValid (elim r [ ok o ↦ o.cache | err e ↦ c ])
after_outcome (ok o) c h v = h o refl
after_outcome (err e) c h v = v

look_up-IsValid :
    (zlib : Zlib) (now : ℕ) (k : CacheKey) (c : DiscoveryCache) (o : Outcome Found)
    → IsValid c
    → look_up zlib now k c ≡ ok o
    → IsValid o.cache
unfolding look_up
look_up-IsValid zlib now k c o v h =
    let (_, _, h1) = bind-inv (validate_key k) _ h in
    let same : found_entry zlib now k c (lookup k c.entries) ≡ o = ground arith in
    subst (λ x. IsValid x.cache) same (found_entry-IsValid zlib now k c (lookup k c.entries) v refl)

put-IsValid :
    (zlib : Zlib) (now : ℕ) (k : CacheKey) (e : CacheEntry) (c : DiscoveryCache)
    (o : Outcome (Result CacheError (Unit {0})))
    → IsValid c
    → put zlib now k e c ≡ ok o
    → IsValid o.cache
unfolding put
put-IsValid zlib now k e c o v h =
    let (_, _, h1) = bind-inv (validate_key k) _ h in
    let same : put_entry zlib now k e (remove_validated k c) (validate_entry e) ≡ o =
      ground arith in
    subst (λ x. IsValid x.cache) same
      (put_entry-IsValid zlib now k e (remove_validated k c) (validate_entry e)
        (remove_validated-IsValid k c v) (lookup-removed k c v))

after_removal :
    (r : Result ValueError DiscoveryCache) (c : DiscoveryCache)
    → ((d : DiscoveryCache) → r ≡ ok d → IsValid d)
    → IsValid c
    → IsValid (elim r [ ok d ↦ d | err e ↦ c ])
after_removal (ok d) c h v = h d refl
after_removal (err e) c h v = v

remove-IsValid : (k : CacheKey) (c d : DiscoveryCache) → IsValid c → remove k c ≡ ok d → IsValid d
unfolding remove
remove-IsValid k c d v h =
    let (_, _, h1) = bind-inv (validate_key k) _ h in
    let same : remove_validated k c ≡ d = ground arith in
    subst IsValid same (remove_validated-IsValid k c v)

call-IsValid : (zlib : Zlib) (x : Call) (c : DiscoveryCache) → IsValid c → IsValid (call zlib x c)
unfolding call
call-IsValid zlib (look now k) c v =
    after_outcome (look_up zlib now k c) c (λ o. look_up-IsValid zlib now k c o v) v
call-IsValid zlib (store_at now k e) c v =
    after_outcome (put zlib now k e c) c (λ o. put-IsValid zlib now k e c o v) v
call-IsValid zlib (discard k) c v = after_removal (remove k c) c (λ d. remove-IsValid k c d v) v

-- Whatever is called on a cache that counts its bytes and keeps its limits, it goes on counting
-- them and keeping the limits, and no key stands twice.
pub calls-IsValid :
    (zlib : Zlib) (xs : List Call) (c : DiscoveryCache) → IsValid c → IsValid (calls zlib xs c)
unfolding calls
calls-IsValid zlib [] c v = v
calls-IsValid zlib (x ∷ xs) c v = calls-IsValid zlib xs (call zlib x c) (call-IsValid zlib x c v)
