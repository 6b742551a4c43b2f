-- ===== src/Cache.antt =====
-- discovery_cache.py: a bounded cache of response bodies that forgets the least recently used. An
-- operation is a function from the cache to the cache, what it reported to the observer, and its
-- answer. Instants are readings of the clock, zlib is a parameter.
pub mod Checks
pub mod Store
pub mod Entries
pub mod Bounds
pub mod Calls
pub mod Reuse
use extra_codeowners.Prelude.{
  ℕ, Bool, true, false, ◌&&◌, List, ◌==◌, nat_eq, list_eq, list_beq_iff, Equality, ◌≡◌, ◌↔◌, Dict,
  Option, arith,
}
use extra_codeowners.Text.{Str}

abbrev pub Bytes : Type 0
Bytes = List ℕ

pub record CacheKey : Type 0 where
  pub installation_id : ℕ
  pub path : Str
  pub query : Str

abbrev pub key_equals : CacheKey → CacheKey → Bool
key_equals a b = a.installation_id == b.installation_id && (a.path == b.path && a.query == b.query)

pub key_equals_iff : (a b : CacheKey) → (key_equals a b ≡ true) ↔ (a ≡ b)
key_equals_iff a b =
    let paths = list_beq_iff a.path b.path in
    let queries = list_beq_iff a.query b.query in (λ h. ground arith, λ h. ground arith)

instance abbrev pub cache_key_eq : Equality CacheKey
cache_key_eq = record { equals = key_equals; equals_iff = key_equals_iff }

pub record CacheEntry : Type 0 where
  pub body : Bytes
  pub etag : Str
  pub links : List Str

pub record StoredEntry : Type 0 where
  pub entry : CacheEntry
  pub last_used : ℕ
  pub size : ℕ
  pub compressed : Bool

pub data CacheLookupStatus : Type 0 where
  hit absent expired : CacheLookupStatus

pub data CacheEvent : Type 0 where
  entry_expired stored rejected_metadata rejected_size rejected_encoding : CacheEvent
  evicted_bytes evicted_entries : CacheEvent

-- a ValueError, or a popitem of the empty dict
pub data CacheError : Type 0 where
  value_error : Str → CacheError
  key_error : CacheError

pub record Limits : Type 0 where
  pub max_bytes : ℕ
  pub max_entry_bytes : ℕ
  pub max_entries : ℕ
  pub idle_ttl : ℕ
  pub compress : Bool

-- The entries stand in the order of their use, the least recent first.
pub record DiscoveryCache : Type 0 where
  pub limits : Limits
  pub entries : Dict CacheKey StoredEntry
  pub bytes : ℕ

-- What a decompressor leaves behind: the output, and whether the stream ended with nothing unread.
pub record Decoded : Type 0 where
  pub output : Bytes
  pub eof : Bool
  pub has_unconsumed_tail : Bool
  pub has_unused_data : Bool

-- zlib: a call may raise zlib.error
pub record Zlib : Type 0 where
  pub compress : Bytes → Option Bytes
  pub decompress : Bytes → ℕ → Option Decoded
