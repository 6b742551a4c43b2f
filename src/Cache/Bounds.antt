-- ===== src/Cache/Bounds.antt =====
-- The cache keeps its limits and its count of bytes.
use extra_codeowners.Prelude.{
  ◌+◌, ◌-◌, ◌≤◌, [], ◌∷◌, ◌++◌, length, lookup, Option, none, some, ok, ◌≡◌, refl, sym, subst,
  arith, Option-cases, inl, inr,
}
use extra_codeowners.Cache.{CacheKey, cache_key_eq, StoredEntry, DiscoveryCache}
use extra_codeowners.Cache.Store.{without, remove_validated, evicted, store}
use extra_codeowners.Cache.Entries.{
  Entries, total, Unique, total-without, length-without, lookup-without, Unique-without, assign-new,
  Unique-append, total-append, evict-Leaves,
}

pub record IsValid (c : DiscoveryCache) : Type 0 where
  pub counted : c.bytes ≡ total c.entries
  pub few : length c.entries ≤ c.limits.max_entries
  pub small : c.bytes ≤ c.limits.max_bytes
  pub unique : Unique c.entries
  pub one : 1 ≤ c.limits.max_entries

pub remove_validated-IsValid :
    (k : CacheKey) (c : DiscoveryCache) → IsValid c → IsValid (remove_validated k c)
unfolding remove_validated
remove_validated-IsValid k c v = by_entry (lookup k c.entries) refl
  where
    by_entry :
        (o : Option StoredEntry)
        → lookup k c.entries ≡ o
        → IsValid (elim o [
          | none ↦ c
          | some entry ↦ record c { entries = without k c.entries; bytes = c.bytes - entry.size }
        ])
    by_entry none e = v
    by_entry (some entry) e =
        let sum = total-without k entry c.entries e in
        record {
          counted = omega (arith, v.counted, sum);
          few = omega (arith, v.few, length-without k c.entries);
          small = omega (arith, v.small);
          unique = Unique-without k c.entries v.unique;
          one = v.one;
        }

pub lookup-removed :
    (k : CacheKey) (c : DiscoveryCache) → IsValid c → lookup k (remove_validated k c).entries ≡ none
unfolding remove_validated
lookup-removed k c v = by_entry (lookup k c.entries) refl
  where
    by_entry :
        (o : Option StoredEntry)
        → lookup k c.entries ≡ o
        → lookup k
            (elim o as (λ _. DiscoveryCache) [
              | none ↦ c
              | some entry ↦ record c {
                entries = without k c.entries;
                bytes = c.bytes - entry.size;
              }
            ]).entries
          ≡ none
    by_entry none e = e
    by_entry (some entry) e = lookup-without k c.entries v.unique

pub limits-removed : (k : CacheKey) (c : DiscoveryCache) → (remove_validated k c).limits ≡ c.limits
unfolding remove_validated
limits-removed k c = elim (Option-cases (lookup k c.entries)) [
  | inl e ↦ ground (arith, e)
  | inr (x, e) ↦ ground (arith, e)
]

-- what a stored entry leaves in the cache
pub record Stores (c : DiscoveryCache) (k : CacheKey) (item : StoredEntry) (after : DiscoveryCache)
    : Type 0 where
  pub valid : IsValid after
  pub limits : after.limits ≡ c.limits
  pub dropped : Entries
  pub kept : Entries
  pub oldest_first : c.entries ≡ dropped ++ kept
  pub newest_last : after.entries ≡ kept ++ (k, item) ∷ []
  pub new_key : lookup k kept ≡ none

Unique-tail : (xs ys : Entries) → Unique (xs ++ ys) → Unique ys
Unique-tail [] ys u = u
Unique-tail ((k, v) ∷ xs) ys u = Unique-tail xs ys u.1

lookup-tail : (k : CacheKey) (xs ys : Entries) → lookup k (xs ++ ys) ≡ none → lookup k ys ≡ none
unfolding lookup
lookup-tail k [] ys h = h
lookup-tail k ((j, v) ∷ xs) ys h = lookup-tail k xs ys (ground arith)

pub store-Stores :
    (k : CacheKey) (item : StoredEntry) (c : DiscoveryCache)
    → IsValid c
    → lookup k c.entries ≡ none
    → item.size ≤ c.limits.max_bytes
    → ((store k item c).answer ≡ ok tt) × Stores c k item (store k item c).cache
unfolding store evicted
store-Stores k item c v new fits =
    let placed = assign-new k item c.entries new in
    let sum : c.bytes + item.size ≡ total (c.entries ++ (k, item) ∷ []) =
      omega (arith, v.counted, total-append c.entries ((k, item) ∷ []), one_total k item) in
    let (entries, left, events, ends, leaves) =
      evict-Leaves c.limits c.entries k item (c.bytes + item.size) v.one fits sum in
    let unique =
      Unique-tail leaves.dropped leaves.kept (subst Unique leaves.oldest_first v.unique) in
    let absent =
      lookup-tail k leaves.dropped leaves.kept
        (subst (λ d. lookup k d ≡ none) leaves.oldest_first new) in
    rw (placed, ends)
      (
        refl,
        record {
          valid = record {
            counted = leaves.counted;
            few = leaves.few;
            small = leaves.small;
            unique =
                subst Unique (sym leaves.newest_last)
                  (Unique-append k item leaves.kept unique absent);
            one = v.one;
          };
          limits = refl;
          dropped = leaves.dropped;
          kept = leaves.kept;
          oldest_first = leaves.oldest_first;
          newest_last = leaves.newest_last;
          new_key = absent;
        },
      )
  where
    one_total : (k : CacheKey) (item : StoredEntry) → total ((k, item) ∷ []) ≡ item.size
    one_total k item = unfold total in omega arith
