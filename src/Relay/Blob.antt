-- ===== src/Relay/Blob.antt =====
-- relay/src/blob.rs: the in-memory blob store. The relay runs on one thread and no method awaits,
-- so each call is one step. The clock is read through arguments, in the order of the calls of
-- `Instant::now`; differences of instants stop at 0, as `duration_since` does.
pub mod Invariant
pub mod Eviction
pub mod Order
pub mod Put
pub mod Enough
pub mod Reads
mod Tests
use clip_bridge.Core.Crypto.{Bytes, sha256_hex}
use clip_bridge.Prelude.Assoc
use clip_bridge.Prelude.Assoc.{Assoc, is_some}
use clip_bridge.Prelude.{
  ℕ, zero, suc, ◌+◌, ◌-◌, ◌%◌, ◌^◌, ◌≡◌, refl, Bool, true, false, ◌&&◌, Option, none, some, List,
  [], ◌∷◌, map, arith, ltb, leb, if◌then◌else◌, Eq, ◌==◌, eq_iff, list_eq, nat_eq, length, retain,
  Text, ◌↔◌,
}

pub record BlobKey : Type 0 where
  pub group_id : Text
  pub sha256_hex : Text

unfoldable pub key_beq : BlobKey → BlobKey → Bool
key_beq a b = a.group_id == b.group_id && a.sha256_hex == b.sha256_hex

pub key_beq_iff : (a b : BlobKey) → (key_beq a b ≡ true) ↔ (a ≡ b)
unfolding key_beq
key_beq_iff a b = ground (arith, eq_iff a.group_id b.group_id, eq_iff a.sha256_hex b.sha256_hex)

instance abbrev pub key_eq : Eq BlobKey
key_eq = record { beq = key_beq; beq_iff = key_beq_iff }

pub record Entry : Type 0 where
  pub inserted_at : ℕ
  pub bytes : Bytes

pub record BlobStore : Type 0 where
  pub inner : Assoc BlobKey Entry
  pub total_bytes : ℕ
  pub budget_bytes : ℕ
  pub ttl : ℕ
  pub max_blob_bytes : ℕ

pub data PutError : Type 0 where
  too_large : ℕ → PutError
  hash_mismatch : PutError

pub data PutResult : Type 0 where
  ok : PutResult
  err : PutError → PutResult

-- `u64` arithmetic wraps.
abbrev pub u64_mod : ℕ
u64_mod = 2 ^ 64

unfoldable pub new : ℕ → ℕ → ℕ → BlobStore
new budget ttl max = record {
  inner = [];
  total_bytes = 0;
  budget_bytes = budget;
  ttl = ttl;
  max_blob_bytes = max;
}

unfoldable pub remove : BlobKey → BlobStore → BlobStore
remove k s = elim (Assoc.lookup k s.inner) [
  | none ↦ s
  | some e ↦ record s {
    inner = Assoc.remove k s.inner;
    total_bytes = (s.total_bytes + (u64_mod - length e.bytes % u64_mod)) % u64_mod;
  }
]

-- `now.duration_since(e.inserted_at) >= self.ttl`
abbrev pub is_expired : ℕ → ℕ → Entry → Bool
is_expired now ttl e = leb ttl (now - e.inserted_at)

abbrev pub entry_keys : Assoc BlobKey Entry → List BlobKey
entry_keys = map λ r. r.0

unfoldable pub expired_keys : ℕ → BlobStore → List BlobKey
expired_keys now s = entry_keys (retain (λ r. is_expired now s.ttl r.1) s.inner)

unfoldable pub remove_all : List BlobKey → BlobStore → BlobStore
remove_all [] s = s
remove_all (k ∷ ks) s = remove_all ks (remove k s)

-- `min_by_key(|e| e.inserted_at)`: the first entry of those with the least time.
unfoldable pub oldest : Assoc BlobKey Entry → Option (BlobKey × Entry)
oldest [] = none
oldest ((k, e) ∷ m) = elim (oldest m) [
  | none ↦ some (k, e)
  | some (j, d) ↦ if leb e.inserted_at d.inserted_at then some (k, e) else some (j, d)
]

-- `self.total_bytes.load(Relaxed) + incoming > self.budget_bytes`
unfoldable pub over_budget : ℕ → BlobStore → Bool
over_budget incoming s = ltb s.budget_bytes ((s.total_bytes + incoming) % u64_mod)

-- The `while` loop; each round drops an entry, so as much fuel as there are entries is enough.
unfoldable pub evict_loop : ℕ → ℕ → BlobStore → BlobStore
evict_loop zero incoming s = s
evict_loop (suc fuel) incoming s = elim (over_budget incoming s) [
  | false ↦ s
  | true ↦ elim (oldest s.inner) [ none ↦ s | some (k, e) ↦ evict_loop fuel incoming (remove k s) ]
]

unfoldable pub evict_until_room_for : ℕ → ℕ → BlobStore → BlobStore
evict_until_room_for now incoming s =
    let live = remove_all (expired_keys now s) s in evict_loop (length live.inner) incoming live

unfoldable pub get : ℕ → BlobKey → BlobStore → Option Bytes × BlobStore
get now k s = elim (Assoc.lookup k s.inner) [
  | none ↦ (none, s)
  | some e ↦ if is_expired now s.ttl e then (none, remove k s) else (some e.bytes, s)
]

module _ (digest : Bytes → Bytes) where
  unfoldable pub put : ℕ → ℕ → BlobKey → Bytes → BlobStore → PutResult × BlobStore
  put now inserted key body s =
      if ltb s.max_blob_bytes (length body)
      then (err (too_large s.max_blob_bytes), s)
      else if sha256_hex digest body == key.sha256_hex
      then (if is_some (Assoc.lookup key s.inner)
          then (ok, s)
          else let t = evict_until_room_for now (length body) s in
            let entry : Entry = record { inserted_at = inserted; bytes = body } in
            (
              ok,
              record t {
                inner = Assoc.insert key entry t.inner;
                total_bytes =
                    (if is_some (Assoc.lookup key t.inner)
                      then t.total_bytes
                      else (t.total_bytes + length body) % u64_mod);
              },
            ))
      else (err hash_mismatch, s)
