-- ===== src/Cache/Entries.antt =====
-- The dict of the cache: keys that stand once, and the sum of the sizes.
use extra_codeowners.Prelude.{
  ℕ, ◌+◌, ◌-◌, ◌≤◌, false, ◌||◌, List, [], ◌∷◌, ◌++◌, ltb, ◌==◌, if◌then◌else◌, length, Dict,
  lookup, assign, none, some, ok, ◌≡◌, refl, ap, arith, Bool-cases, inl, inr,
}
use extra_codeowners.Cache.{
  CacheKey, cache_key_eq, key_equals_iff, StoredEntry, CacheEvent, evicted_bytes, evicted_entries,
  Limits,
}
use extra_codeowners.Cache.Store.{without, evict}

abbrev pub Entries : Type 0
Entries = Dict CacheKey StoredEntry

-- the bytes of all entries
unfoldable pub total : Entries → ℕ
total [] = 0
total ((k, v) ∷ d) = v.size + total d

-- no key stands twice
abbrev pub Unique : Entries → Type 0
Unique [] = Unit
Unique ((k, v) ∷ d) = (lookup k d ≡ none) × Unique d

module _ (k : CacheKey) where
  pub total-without :
      (v : StoredEntry) (d : Entries) → lookup k d ≡ some v → total (without k d) + v.size ≡ total d
  unfolding total without lookup
  total-without v [] h = ground arith
  total-without v ((j, w) ∷ d) h = ground (arith, total-without v d, key_equals_iff j k)

  pub length-without : (d : Entries) → length (without k d) ≤ length d
  unfolding without
  length-without [] = omega arith
  length-without ((j, w) ∷ d) = ground (arith, length-without d)

  pub length-without_found :
      (v : StoredEntry) (d : Entries) → lookup k d ≡ some v → length (without k d) + 1 ≡ length d
  unfolding without lookup
  length-without_found v [] h = ground arith
  length-without_found v ((j, w) ∷ d) h = ground (arith, length-without_found v d)

  lookup-without_other :
      (j : CacheKey) (d : Entries) → lookup j d ≡ none → lookup j (without k d) ≡ none
  unfolding without lookup
  lookup-without_other j [] h = refl
  lookup-without_other j ((i, w) ∷ d) h = ground (arith, lookup-without_other j d)

  pub lookup-without : (d : Entries) → Unique d → lookup k (without k d) ≡ none
  unfolding without lookup
  lookup-without [] u = refl
  lookup-without ((j, w) ∷ d) u = ground (arith, lookup-without d u.1, key_equals_iff j k)

  pub Unique-without : (d : Entries) → Unique d → Unique (without k d)
  unfolding without
  Unique-without [] u = tt
  Unique-without ((j, w) ∷ d) u = elim (Bool-cases (j == k)) [
    | inl e ↦ rw e u.1
    | inr e ↦ rw e (lookup-without_other j d u.0, Unique-without d u.1)
  ]

  pub assign-new :
      (v : StoredEntry) (d : Entries) → lookup k d ≡ none → assign k v d ≡ d ++ (k, v) ∷ []
  unfolding assign lookup
  assign-new v [] h = refl
  assign-new v ((j, w) ∷ d) h = ground (arith, assign-new v d)

  lookup-append_other :
      (j : CacheKey) (v : StoredEntry) (d : Entries)
      → lookup j d ≡ none
      → (k == j) ≡ false
      → lookup j (d ++ (k, v) ∷ []) ≡ none
  unfolding lookup
  lookup-append_other j v [] h n = ground arith
  lookup-append_other j v ((i, w) ∷ d) h n = ground (arith, lookup-append_other j v d)

  pub lookup-append :
      (v : StoredEntry) (d : Entries) → lookup k d ≡ none → lookup k (d ++ (k, v) ∷ []) ≡ some v
  unfolding lookup
  lookup-append v [] h = ground (arith, key_equals_iff k k)
  lookup-append v ((i, w) ∷ d) h = ground (arith, lookup-append v d)

  pub Unique-append :
      (v : StoredEntry) (d : Entries) → Unique d → lookup k d ≡ none → Unique (d ++ (k, v) ∷ [])
  unfolding lookup
  Unique-append v [] u h = (refl, tt)
  Unique-append v ((i, w) ∷ d) u h = (
    ground (arith, lookup-append_other i v d u.0, key_equals_iff k i, key_equals_iff i k),
    Unique-append v d u.1 (ground arith),
  )

pub total-append : (xs ys : Entries) → total (xs ++ ys) ≡ total xs + total ys
unfolding total
total-append [] ys = omega arith
total-append ((k, v) ∷ xs) ys = omega (arith, total-append xs ys)

pub length-append : (xs ys : Entries) → length (xs ++ ys) ≡ length xs + length ys
length-append [] ys = omega arith
length-append (x ∷ xs) ys = omega (arith, length-append xs ys)

-- What the eviction leaves: within the limits, with the oldest entries dropped and the new one kept.
pub record Leaves (limits : Limits) (d : Entries) (k : CacheKey) (v : StoredEntry)
    (entries : Entries) (left : ℕ) : Type 0 where
  pub counted : left ≡ total entries
  pub few : length entries ≤ limits.max_entries
  pub small : left ≤ limits.max_bytes
  pub dropped : Entries
  pub kept : Entries
  pub oldest_first : d ≡ dropped ++ kept
  pub newest_last : entries ≡ kept ++ (k, v) ∷ []

pub evict-Leaves :
    (limits : Limits) (d : Entries) (k : CacheKey) (v : StoredEntry) (bytes : ℕ)
    → 1 ≤ limits.max_entries
    → v.size ≤ limits.max_bytes
    → bytes ≡ total (d ++ (k, v) ∷ [])
    → (entries : Entries) × (left : ℕ) × (events : List CacheEvent) × (evict limits
          (d ++ (k, v) ∷ [])
          bytes
        ≡ ok (entries, left, events))
      × Leaves limits d k v entries left
unfolding evict total
evict-Leaves limits [] k v bytes one fits sum = (
  (k, v) ∷ [],
  bytes,
  [],
  ground arith,
  record {
    counted = sum;
    few = one;
    small = omega arith;
    dropped = [];
    kept = [];
    oldest_first = refl;
    newest_last = refl;
  },
)
evict-Leaves limits ((j, w) ∷ d) k v bytes one fits sum =
    let (entries, left, events, ends, leaves) =
      evict-Leaves limits d k v (bytes - w.size) one fits (omega arith) in
    elim (Bool-cases
      (ltb limits.max_entries (length ((j, w) ∷ d ++ (k, v) ∷ [])) || ltb limits.max_bytes bytes)) [
        | inl over ↦ (
          entries,
          left,
          (if ltb limits.max_bytes bytes then evicted_bytes else evicted_entries) ∷ events,
          ground (arith, over, ends),
          record {
            counted = leaves.counted;
            few = leaves.few;
            small = leaves.small;
            dropped = (j, w) ∷ leaves.dropped;
            kept = leaves.kept;
            oldest_first = ap (λ x. (j, w) ∷ x) leaves.oldest_first;
            newest_last = leaves.newest_last;
          },
        )
        | inr fine ↦ (
          (j, w) ∷ d ++ (k, v) ∷ [],
          bytes,
          [],
          ground (arith, fine),
          record {
            counted = sum;
            few = ground arith;
            small = ground arith;
            dropped = [];
            kept = (j, w) ∷ d;
            oldest_first = refl;
            newest_last = refl;
          },
        )
      ]
