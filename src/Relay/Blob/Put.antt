-- ===== src/Relay/Blob/Put.antt =====
-- `put`: it keeps the bookkeeping, and stays within the budget.
use clip_bridge.Core.Crypto.{Bytes, sha256_hex}
use native.Mathlib.Nat.{mod-eq_of_lt}
use clip_bridge.Prelude.Assoc
use clip_bridge.Prelude.Assoc.{
  Assoc, IsMap, is_some, lookup-remove, lookup-insert, lookup-insert_self, remove-IsMap,
  insert-IsMap, All-remove, All-lookup, length-remove, remove_missing, length-remove_found,
}
use clip_bridge.Prelude.{
  ℕ, ◌+◌, ◌%◌, ◌≤◌, ◌<◌, ◌≡◌, ◌≢◌, ◌⊎◌, inl, inr, refl, ap, ◌∙◌, true, false, none, arith, ltb,
  ◌==◌, eq_iff, list_eq, nat_eq, option_eq, length, Bool-cases, Option-cases, ltb→lt,
}
use clip_bridge.Relay.Blob.{
  BlobKey, key_eq, Entry, BlobStore, ok, err, too_large, hash_mismatch, u64_mod, remove,
  over_budget, evict_until_room_for, put,
}
use clip_bridge.Relay.Blob.Invariant.{IsValid, size_of, remove-IsValid, IsHashed}
use clip_bridge.Relay.Blob.Eviction.{evict_keeps, evict-ends, evict-IsWithin}

no_wrap : (a m : ℕ) → a < m → a % m ≡ a
no_wrap a m h = mod-eq_of_lt h

ltb→ge : (a b : ℕ) → ltb a b ≡ false → b ≤ a
ltb→ge a b h = ground arith

-- Removals and evictions leave the settings alone.
abbrev pub SameSettings : BlobStore → BlobStore → Type 0
SameSettings s t =
    (t.budget_bytes ≡ s.budget_bytes) × (t.ttl ≡ s.ttl) × (t.max_blob_bytes ≡ s.max_blob_bytes)

remove-SameSettings :
    (r : BlobStore) (k : BlobKey) (s : BlobStore) → SameSettings r s → SameSettings r (remove k s)
unfolding remove
remove-SameSettings r k s h = ground arith

pub evict-SameSettings :
    (now incoming : ℕ) (s : BlobStore) → SameSettings s (evict_until_room_for now incoming s)
evict-SameSettings now incoming s =
    evict_keeps (SameSettings s) (remove-SameSettings s) now incoming s (refl, refl, refl)

pub evict_missing :
    (now incoming : ℕ) (k : BlobKey) (s : BlobStore)
    → Assoc.lookup k s.inner ≡ none
    → Assoc.lookup k (evict_until_room_for now incoming s).inner ≡ none
evict_missing now incoming k s h =
    elim (Option-cases (Assoc.lookup k (evict_until_room_for now incoming s).inner)) [
      | inl e ↦ e
      | inr (d, e) ↦ absurd (ground (arith, h, evict-IsWithin now incoming s k d e))
    ]

pub room :
    (incoming : ℕ) (s t : BlobStore)
    → incoming ≤ s.max_blob_bytes
    → over_budget incoming t ≡ false
    → t.budget_bytes + t.max_blob_bytes + t.max_blob_bytes < u64_mod
    → t.total_bytes ≤ t.budget_bytes + t.max_blob_bytes
    → t.budget_bytes ≡ s.budget_bytes
    → t.max_blob_bytes ≡ s.max_blob_bytes
    → t.total_bytes + incoming ≤ s.budget_bytes
unfolding over_budget
room incoming s t h fits wide bounded budget most = omega (
  arith,
  no_wrap (t.total_bytes + incoming) u64_mod (omega arith),
  ltb→ge t.budget_bytes ((t.total_bytes + incoming) % u64_mod) fits,
)

module _ (digest : Bytes → Bytes) where
  pub evict-IsValid :
      (now incoming : ℕ) (s : BlobStore)
      → IsValid digest s
      → IsValid digest (evict_until_room_for now incoming s)
  evict-IsValid now incoming s v =
      evict_keeps (IsValid digest) (remove-IsValid digest) now incoming s v

  -- After the eviction the incoming bytes fit, or the store is empty.
  pub evict_room :
      (now incoming : ℕ) (s : BlobStore)
      → IsValid digest s
      → incoming ≤ s.max_blob_bytes
      → let t = evict_until_room_for now incoming s in
        (t.total_bytes + incoming ≤ s.budget_bytes) ⊎ (t.total_bytes ≡ 0)
  evict_room now incoming s v h =
      let t = evict_until_room_for now incoming s in
      let w = evict-IsValid now incoming s v in
      let same = evict-SameSettings now incoming s in
      elim (evict-ends now incoming s v.distinct) [
        | inl fits ↦ inl (room incoming s t h fits w.wide w.bounded same.0 same.2)
        | inr empty ↦ inr (w.counted ∙ ap size_of empty)
      ]

  no_overflow :
      (now incoming : ℕ) (s : BlobStore)
      → IsValid digest s
      → incoming ≤ s.max_blob_bytes
      → let t = evict_until_room_for now incoming s in
        (t.total_bytes + incoming) % u64_mod ≡ t.total_bytes + incoming
  no_overflow now incoming s v h = no_wrap _ _ (elim (evict_room now incoming s v h) [
    | inl fits ↦ omega (arith, v.wide)
    | inr empty ↦ omega (arith, v.wide)
  ])

  -- The store that `put` leaves once the body has passed both checks and the key is new.
  abbrev pub stored : ℕ → ℕ → BlobKey → Bytes → BlobStore → BlobStore
  stored now inserted key body s =
      let t = evict_until_room_for now (length body) s in
      record t {
        inner = Assoc.insert key (record { inserted_at = inserted; bytes = body }) t.inner;
        total_bytes = t.total_bytes + length body;
      }

  size_of-insert :
      (k : BlobKey) (e : Entry) (m : Assoc BlobKey Entry)
      → Assoc.lookup k m ≡ none
      → size_of (Assoc.insert k e m) ≡ size_of m + length e.bytes
  unfolding Assoc.insert
  size_of-insert k e m h = rw (remove_missing k m h) (omega arith)

  -- What `put` does, on its four branches.
  pub put_cases :
      (now inserted : ℕ) (key : BlobKey) (body : Bytes) (s : BlobStore)
      → IsValid digest s
      → ((s.max_blob_bytes < length body)
          × (put digest now inserted key body s ≡ (err (too_large s.max_blob_bytes), s)))
        ⊎ ((length body ≤ s.max_blob_bytes)
            × (sha256_hex digest body ≢ key.sha256_hex)
            × (put digest now inserted key body s ≡ (err hash_mismatch, s)))
        ⊎ ((length body ≤ s.max_blob_bytes)
            × (sha256_hex digest body ≡ key.sha256_hex)
            × (is_some (Assoc.lookup key s.inner) ≡ true)
            × (put digest now inserted key body s ≡ (ok, s)))
        ⊎ ((length body ≤ s.max_blob_bytes)
            × (sha256_hex digest body ≡ key.sha256_hex)
            × (Assoc.lookup key s.inner ≡ none)
            × (put digest now inserted key body s ≡ (ok, stored now inserted key body s)))
  unfolding put
  put_cases now inserted key body s v = elim (Bool-cases (ltb s.max_blob_bytes (length body))) [
    | inl big ↦ inl (ltb→lt _ _ big, ground (arith, big))
    | inr small ↦
        let fits = ltb→ge s.max_blob_bytes (length body) small in
        elim (Bool-cases (sha256_hex digest body == key.sha256_hex)) [
          | inr other ↦ inr (
              inl (
                fits,
                ground (arith, other, eq_iff (sha256_hex digest body) key.sha256_hex),
                ground (arith, small, other),
              ))
          | inl same ↦
              let hash = (eq_iff (sha256_hex digest body) key.sha256_hex).0 same in
              elim (Option-cases (Assoc.lookup key s.inner)) [
                | inr (e, there) ↦ inr (
                    inr
                      (inl (fits, hash, ground (arith, there), ground (arith, small, same, there))))
                | inl missing ↦ inr (
                    inr (
                      inr (
                        fits,
                        hash,
                        missing,
                        ground (
                          arith,
                          small,
                          same,
                          missing,
                          evict_missing now (length body) key s missing,
                          no_overflow now (length body) s v fits,
                        ),
                      )))
              ]
        ]
  ]

  stored-IsValid :
      (now inserted : ℕ) (key : BlobKey) (body : Bytes) (s : BlobStore)
      → IsValid digest s
      → length body ≤ s.max_blob_bytes
      → sha256_hex digest body ≡ key.sha256_hex
      → Assoc.lookup key s.inner ≡ none
      → IsValid digest (stored now inserted key body s)
  unfolding Assoc.insert
  stored-IsValid now inserted key body s v fits hash missing =
      let t = evict_until_room_for now (length body) s in
      let w = evict-IsValid now (length body) s v in
      let gone = evict_missing now (length body) key s missing in
      let same = evict-SameSettings now (length body) s in
      let entry : Entry = record { inserted_at = inserted; bytes = body } in
      record {
        distinct = insert-IsMap key entry t.inner w.distinct;
        counted = omega (arith, w.counted, size_of-insert key entry t.inner gone);
        hashed = (hash, All-remove (IsHashed digest) key t.inner w.hashed);
        wide = w.wide;
        bounded = elim (evict_room now (length body) s v fits) [
          | inl room ↦ omega (arith, same.0)
          | inr empty ↦ omega (arith, same.2)
        ];
      }

  -- A call of `put`, whichever way it ends, keeps the bookkeeping: one entry for each key, a byte
  -- count that is the entries' total and never wraps, entries that hash to their keys.
  pub put-IsValid :
      (now inserted : ℕ) (key : BlobKey) (body : Bytes) (s : BlobStore)
      → IsValid digest s
      → IsValid digest (put digest now inserted key body s).1
  put-IsValid now inserted key body s v = elim (put_cases now inserted key body s v) [
    | inl (_, e) ↦ rw e v
    | inr (inl (_, _, e)) ↦ rw e v
    | inr (inr (inl (_, _, _, e))) ↦ rw e v
    | inr (inr (inr (fits, hash, missing, e))) ↦
        rw e (stored-IsValid now inserted key body s v fits hash missing)
  ]

  -- A store within its budget stays within it across every `put` of a body no larger than the
  -- budget, and so does the sum of the sizes of the bodies that it holds.
  pub put-within_budget :
      (now inserted : ℕ) (key : BlobKey) (body : Bytes) (s : BlobStore)
      → IsValid digest s
      → s.total_bytes ≤ s.budget_bytes
      → length body ≤ s.budget_bytes
      → let t = (put digest now inserted key body s).1 in
        (t.total_bytes ≤ s.budget_bytes) × (size_of t.inner ≤ s.budget_bytes)
  put-within_budget now inserted key body s v within small =
      let w = put-IsValid now inserted key body s v in
      let total : (put digest now inserted key body s).1.total_bytes ≤ s.budget_bytes =
        elim (put_cases now inserted key body s v) [
          | inl (_, e) ↦ rw e within
          | inr (inl (_, _, e)) ↦ rw e within
          | inr (inr (inl (_, _, _, e))) ↦ rw e within
          | inr (inr (inr (fits, hash, missing, e))) ↦
              rw e (elim (evict_room now (length body) s v fits) [
                | inl room ↦ room
                | inr empty ↦ omega arith
              ])
        ] in
      (total, omega (arith, w.counted))
