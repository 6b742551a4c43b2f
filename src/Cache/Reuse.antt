-- ===== src/Cache/Reuse.antt =====
-- What was put is found again.
use extra_codeowners.Prelude.{
  ℕ, ◌+◌, ◌-◌, ◌≤◌, ◌<◌, true, false, [], ◌∷◌, ◌++◌, ltb, leb, length, lookup, Option, none, some,
  Result, ok, ◌≡◌, refl, sym, ap, subst, ◌∙◌, arith, Bool-cases, inl, inr,
}
use extra_codeowners.Cache.{
  Bytes, CacheKey, cache_key_eq, CacheEntry, StoredEntry, CacheError, Limits, DiscoveryCache, Zlib,
  hit,
}
use extra_codeowners.Cache.Checks.{validate_key, validate_entry, entry_size}
use extra_codeowners.Cache.Store.{
  remove_validated, Outcome, checked_output, body_of, use_entry, found_entry, look_up, packed,
  encoded_body, store, put_entry, put, Found,
}
use extra_codeowners.Cache.Entries.{Entries, lookup-append}
use extra_codeowners.Cache.Bounds.{
  IsValid, remove_validated-IsValid, lookup-removed, limits-removed, store-Stores,
}
use extra_codeowners.Cache.Calls.{packed-size}

-- What zlib documents: a stream that was compressed is read back, whole, within a larger bound.
unfoldable pub IsLossless : Zlib → Type 0
IsLossless zlib =
    (body encoded : Bytes) (limit : ℕ)
    → zlib.compress body ≡ some encoded
    → length body < limit
    → zlib.decompress encoded limit
      ≡ some (record {
        output = body;
        eof = true;
        has_unconsumed_tail = false;
        has_unused_data = false;
      })

encoded_body-some :
    (zlib : Zlib) (limits : Limits) (b z : Bytes)
    → encoded_body zlib limits b ≡ some z
    → zlib.compress b ≡ some z
unfolding encoded_body
encoded_body-some zlib limits b z h = ground arith

body_of-packed :
    (zlib : Zlib) (limits : Limits) (now n : ℕ) (e : CacheEntry) (o : Option Bytes)
    → IsLossless zlib
    → length e.body ≤ limits.max_entry_bytes
    → ((z : Bytes) → o ≡ some z → zlib.compress e.body ≡ some z)
    → body_of zlib limits (packed now e n o) ≡ some e.body
unfolding packed body_of checked_output IsLossless
body_of-packed zlib limits now n e none lossless small h = refl
body_of-packed zlib limits now n e (some z) lossless small h =
    let back = lossless e.body z (limits.max_entry_bytes + 1) (h z refl) (omega arith) in
    elim (Bool-cases (ltb (length z) (length e.body))) [
      | inl shorter ↦ ground (arith, shorter, back)
      | inr longer ↦ ground (arith, longer)
    ]

packed-kept :
    (now n : ℕ) (e : CacheEntry) (o : Option Bytes)
    → ((packed now e n o).entry.etag ≡ e.etag)
      × ((packed now e n o).entry.links ≡ e.links)
      × ((packed now e n o).last_used ≡ now)
unfolding packed
packed-kept now n e none = (refl, refl, refl)
packed-kept now n e (some z) = (ground arith, ground arith, ground arith)

put-valid :
    (zlib : Zlib) (now : ℕ) (k : CacheKey) (e : CacheEntry) (c : DiscoveryCache)
    → validate_key k ≡ ok tt
    → validate_entry e ≡ ok tt
    → put zlib now k e c ≡ ok (put_entry zlib now k e (remove_validated k c) (ok tt))
unfolding put
put-valid zlib now k e c key entry = ground (arith, key, entry)

look_up-valid :
    (zlib : Zlib) (now : ℕ) (k : CacheKey) (c : DiscoveryCache) (o : Option StoredEntry)
    → validate_key k ≡ ok tt
    → lookup k c.entries ≡ o
    → look_up zlib now k c ≡ ok (found_entry zlib now k c o)
unfolding look_up
look_up-valid zlib now k c o key found = ground (arith, key, found)

body-size_le : (k : CacheKey) (e : CacheEntry) → length e.body ≤ entry_size k e
unfolding entry_size
body-size_le k e = omega arith

put_entry-fits :
    (zlib : Zlib) (now : ℕ) (k : CacheKey) (e : CacheEntry) (d : DiscoveryCache)
    → entry_size k e ≤ d.limits.max_entry_bytes
    → entry_size k e ≤ d.limits.max_bytes
    → put_entry zlib now k e d (ok tt)
      ≡ store k (packed now e (entry_size k e) (encoded_body zlib d.limits e.body)) d
unfolding put_entry
put_entry-fits zlib now k e d within bounded = ground arith

found_entry-hit :
    (zlib : Zlib) (later : ℕ) (k : CacheKey) (c : DiscoveryCache) (item : StoredEntry)
    (e : CacheEntry)
    → leb c.limits.idle_ttl (later - item.last_used) ≡ false
    → body_of zlib c.limits item ≡ some e.body
    → item.entry.etag ≡ e.etag
    → item.entry.links ≡ e.links
    → (found_entry zlib later k c (some item)).answer ≡ (some e, hit)
unfolding found_entry use_entry
found_entry-hit zlib later k c item e fresh body etag links = rw (fresh, body) (ground arith)

-- With a lossless zlib, an entry whose key and metadata are valid and whose size is within the
-- bounds is stored; a look-up of its key before the idle time is over is a hit that returns the
-- entry itself; and only the oldest entries made room for it, in their order.
pub put_then_look_up :
    (zlib : Zlib) (now later : ℕ) (k : CacheKey) (e : CacheEntry) (c : DiscoveryCache)
    → IsLossless zlib
    → IsValid c
    → validate_key k ≡ ok tt
    → validate_entry e ≡ ok tt
    → entry_size k e ≤ c.limits.max_entry_bytes
    → entry_size k e ≤ c.limits.max_bytes
    → later - now < c.limits.idle_ttl
    → (o : Outcome (Result CacheError (Unit {0}))) × (l : Outcome Found) × (put zlib now k e c
        ≡ ok o)
      × (o.answer ≡ ok tt)
      × (look_up zlib later k o.cache ≡ ok l)
      × (l.answer ≡ (some e, hit))
      × ((dropped : Entries) × (kept : Entries) × (item : StoredEntry) × ((remove_validated k
              c).entries
            ≡ dropped ++ kept)
          × (o.cache.entries ≡ kept ++ (k, item) ∷ []))
put_then_look_up zlib now later k e c lossless v key entry within bounded soon =
    let d = remove_validated k c in
    let item = packed now e (entry_size k e) (encoded_body zlib d.limits e.body) in
    let same = limits-removed k c in
    let within' : entry_size k e ≤ d.limits.max_entry_bytes = ground (arith, same) in
    let bounded' : entry_size k e ≤ d.limits.max_bytes = ground (arith, same) in
    let size = packed-size now e (entry_size k e) (encoded_body zlib d.limits e.body) in
    let (stored_it, stores) =
      store-Stores k item d (remove_validated-IsValid k c v) (lookup-removed k c v)
        (omega (arith, size)) in
    let after = (store k item d).cache in
    let found : lookup k after.entries ≡ some item =
      ap (lookup k) stores.newest_last ∙ lookup-append k item stores.kept stores.new_key in
    let (etag, links, last) =
      packed-kept now (entry_size k e) e (encoded_body zlib d.limits e.body) in
    let body =
      body_of-packed zlib d.limits now (entry_size k e) e (encoded_body zlib d.limits e.body)
        lossless (omega (arith, body-size_le k e))
        (λ z h. encoded_body-some zlib d.limits e.body z h) in
    let fresh : leb after.limits.idle_ttl (later - item.last_used) ≡ false =
      ground (arith, stores.limits, same, last) in
    let body' : body_of zlib after.limits item ≡ some e.body =
      subst (λ l. body_of zlib l item ≡ some e.body) (sym stores.limits) body in
    (
      store k item d,
      found_entry zlib later k after (some item),
      put-valid zlib now k e c key entry ∙ ap ok (put_entry-fits zlib now k e d within' bounded'),
      stored_it,
      look_up-valid zlib later k after (some item) key found,
      found_entry-hit zlib later k after item e fresh body' etag links,
      (stores.dropped, stores.kept, item, stores.oldest_first, stores.newest_last),
    )
