-- ===== src/Relay/Blob/Invariant.antt =====
-- The store's bookkeeping: one entry for each key, a byte count that is the entries' total, and
-- entries that hash to the key which they are stored under.
use clip_bridge.Core.Crypto.{Bytes, sha256_hex}
use clip_bridge.Prelude.Assoc
use clip_bridge.Prelude.Assoc.{
  Assoc, IsMap, lookup-remove, remove-IsMap, insert-IsMap, All-remove, is_some, remove_missing,
}
use clip_bridge.Prelude.{
  ℕ, ◌+◌, ◌≤◌, ◌<◌, ◌≡◌, refl, some, [], ◌∷◌, arith, list_eq, nat_eq, length, All, Option-cases,
  inl, inr,
}
use clip_bridge.Relay.Blob.{BlobKey, key_eq, key_beq_iff, Entry, BlobStore, u64_mod, new, remove}

abbrev pub size_of : Assoc BlobKey Entry → ℕ
size_of [] = 0
size_of ((k, e) ∷ m) = length e.bytes + size_of m

pub size_of-remove :
    (k : BlobKey) (e : Entry) (m : Assoc BlobKey Entry)
    → IsMap m
    → Assoc.lookup k m ≡ some e
    → size_of (Assoc.remove k m) + length e.bytes ≡ size_of m
unfolding Assoc.remove Assoc.lookup
size_of-remove k e [] d h = absurd (ground arith)
size_of-remove k e ((j, d) ∷ m) v h =
    ground (arith, size_of-remove k e m v.1, remove_missing k m, key_beq_iff j k)

module _ (digest : Bytes → Bytes) where
  abbrev pub IsHashed : BlobKey × Entry → Type 0
  IsHashed r = sha256_hex digest (r.1).bytes ≡ (r.0).sha256_hex

  pub record IsValid (s : BlobStore) : Type 0 where
    pub distinct : IsMap s.inner
    pub counted : s.total_bytes ≡ size_of s.inner
    pub hashed : All IsHashed s.inner
    pub wide : s.budget_bytes + s.max_blob_bytes + s.max_blob_bytes < u64_mod
    pub bounded : s.total_bytes ≤ s.budget_bytes + s.max_blob_bytes

  pub new-IsValid :
      (budget ttl max : ℕ) → budget + max + max < u64_mod → IsValid (new budget ttl max)
  unfolding new
  new-IsValid budget ttl max h = record {
    distinct = tt;
    counted = refl;
    hashed = tt;
    wide = h;
    bounded = omega arith;
  }

  pub remove-IsValid : (k : BlobKey) (s : BlobStore) → IsValid s → IsValid (remove k s)
  unfolding remove
  remove-IsValid k s v = elim (Option-cases (Assoc.lookup k s.inner)) [
    | inl e ↦ rw (e, remove) v
    | inr (d, e) ↦
        let size = size_of-remove k d s.inner v.distinct e in
        rw (e, remove)
          (record {
            distinct = remove-IsMap k s.inner v.distinct;
            counted = omega (arith, v.counted, size, v.wide, v.bounded);
            hashed = All-remove IsHashed k s.inner v.hashed;
            wide = v.wide;
            bounded = omega (arith, v.counted, size, v.wide, v.bounded);
          })
  ]
