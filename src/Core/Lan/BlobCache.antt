-- ===== src/Core/Lan/BlobCache.antt =====
-- `BlobCache` of core/src/lan.rs: the ciphertexts that a device serves to its peers, oldest out
-- first. Sizes are far below the width of `usize`.
pub mod Caps
use clip_bridge.Core.Crypto.{Bytes}
use clip_bridge.Prelude.Assoc
use clip_bridge.Prelude.Assoc.{
  Assoc, IsMap, is_some, lookup-remove, lookup-insert, lookup-insert_self, remove-IsMap,
  insert-IsMap, All-remove, All-lookup, length-remove, remove_missing, length-remove_found,
}
use clip_bridge.Prelude.{
  ℕ, ◌+◌, ◌-◌, ◌*◌, ◌≤◌, ◌≡◌, inl, inr, refl, ap, ◌∙◌, Bool, true, false, ◌||◌, Option, none, some,
  List, [], ◌∷◌, ◌++◌, arith, ltb, if◌then◌else◌, ◌==◌, eq_iff, eq_symm, list_eq, nat_eq, option_eq,
  length, All, length-append, contains, Distinct, Text, Bool-cases, Option-cases, contains-append,
  Distinct-append_one,
}

abbrev pub blob_cache_max_bytes : ℕ
blob_cache_max_bytes = 64 * 1024 * 1024

abbrev pub blob_cache_max_entries : ℕ
blob_cache_max_entries = 32

pub record BlobCache : Type 0 where
  pub map : Assoc Text Bytes
  pub order : List Text
  pub bytes : ℕ

unfoldable pub new : BlobCache
new = record { map = []; order = []; bytes = 0 }

unfoldable pub get : Text → BlobCache → Option Bytes
get sha256_hex c = Assoc.lookup sha256_hex c.map

unfoldable pub over_caps : Assoc Text Bytes → ℕ → Bool
over_caps held bytes = ltb blob_cache_max_bytes bytes || ltb blob_cache_max_entries (length held)

-- What the removal of an entry takes off the count.
abbrev pub size_of : Option Bytes → ℕ
size_of none = 0
size_of (some v) = length v

-- The loop of `insert`, on the queue that is left.
unfoldable pub evict : Assoc Text Bytes → List Text → ℕ → BlobCache
evict held [] bytes = record { map = held; order = []; bytes = bytes }
evict held (old ∷ order) bytes =
    let gone = size_of (Assoc.lookup old held) in
    let rest = evict (Assoc.remove old held) order (bytes - gone) in
    if over_caps held bytes then rest else record { map = held; order = old ∷ order; bytes = bytes }

unfoldable pub insert : Text → Bytes → BlobCache → BlobCache
insert sha256_hex blob c =
    if is_some (Assoc.lookup sha256_hex c.map)
    then c
    else evict (Assoc.insert sha256_hex blob c.map) (c.order ++ sha256_hex ∷ [])
        (c.bytes + length blob)

unfoldable pub weigh : Assoc Text Bytes → List Text → ℕ
weigh held [] = 0
weigh held (k ∷ order) = size_of (Assoc.lookup k held) + weigh held order

-- The queue lists the entries of the map, each once, and the bytes are counted.
pub record IsCounted (held : Assoc Text Bytes) (order : List Text) (bytes : ℕ) : Type 0 where
  pub is_map : IsMap held
  pub distinct : Distinct order
  pub present : All (λ k. is_some (Assoc.lookup k held) ≡ true) order
  pub count : length held ≡ length order
  pub sum : bytes ≡ weigh held order

pub record IsValid (c : BlobCache) : Type 0 where
  pub counted : IsCounted c.map c.order c.bytes
  pub within_bytes : c.bytes ≤ blob_cache_max_bytes
  pub within_entries : length c.map ≤ blob_cache_max_entries
