-- ===== src/Relay/Blob/Reads.antt =====
-- `get`: what a reader is answered, after a `put` and in general.
use clip_bridge.Core.Crypto.{Bytes, sha256_hex}
use clip_bridge.Prelude.Assoc
use clip_bridge.Prelude.Assoc.{
  Assoc, IsMap, is_some, lookup-remove, lookup-insert, lookup-insert_self, remove-IsMap,
  insert-IsMap, All-remove, All-lookup, length-remove, remove_missing, length-remove_found,
}
use clip_bridge.Prelude.{
  ℕ, ◌+◌, ◌-◌, ◌≤◌, ◌<◌, ◌≡◌, inl, inr, refl, ◌∙◌, List, [], ◌∷◌, All, none, some, arith, ltb,
  if◌then◌else◌, eq_iff, list_eq, nat_eq, option_eq, length, Bool-cases, Option-cases,
}
use clip_bridge.Relay.Blob.{
  BlobKey, key_eq, Entry, BlobStore, ok, evict_until_room_for, put, get, is_expired, remove,
}
use clip_bridge.Relay.Blob.Invariant.{IsValid, remove-IsValid, IsHashed}
use clip_bridge.Relay.Blob.Put.{put_cases, evict-SameSettings}

get_found :
    (now : ℕ) (k : BlobKey) (s : BlobStore) (body : Bytes)
    → (get now k s).0 ≡ some body
    → (e : Entry) × (Assoc.lookup k s.inner ≡ some e)
      × (e.bytes ≡ body)
      × (now - e.inserted_at < s.ttl)
unfolding get
get_found now k s body h = elim (Option-cases (Assoc.lookup k s.inner)) [
  | inl missing ↦ absurd (ground (arith, missing))
  | inr (e, found) ↦ (e, found, ground (arith, found), ground (arith, found))
]

-- The store after a list of reads, each at its time.
unfoldable pub gets : List (ℕ × BlobKey) → BlobStore → BlobStore
gets [] s = s
gets ((t, k) ∷ reads) s = gets reads (get t k s).1

-- An earlier read of any key does not change what a read answers.
pub get-get :
    (t later : ℕ) (k key : BlobKey) (s : BlobStore)
    → t ≤ later
    → (get later key (get t k s).1).0 ≡ (get later key s).0
unfolding get remove
get-get t later k key s order = elim (Option-cases (Assoc.lookup k s.inner)) [
  | inl missing ↦ ground (arith, missing)
  | inr (e, found) ↦ elim (Bool-cases (is_expired t s.ttl e)) [
    | inr young ↦ ground (arith, found, young)
    | inl old ↦ ground (arith, found, old, order, lookup-remove k key s.inner, eq_iff k key)
  ]
]

pub get_after :
    (later : ℕ) (key : BlobKey) (reads : List (ℕ × BlobKey)) (s : BlobStore)
    → All (λ r. r.0 ≤ later) reads
    → (get later key (gets reads s)).0 ≡ (get later key s).0
unfolding gets
get_after later key [] s h = refl
get_after later key ((t, k) ∷ reads) s h =
    get_after later key reads (get t k s).1 h.1 ∙ get-get t later k key s h.0

module _ (digest : Bytes → Bytes) where
  -- A body that `get` returns hashes to the key that was asked for, and is younger than the
  -- time-to-live; the call leaves the store as it was.
  pub get_sound :
      (now : ℕ) (k : BlobKey) (s : BlobStore) (body : Bytes)
      → IsValid digest s
      → (get now k s).0 ≡ some body
      → (sha256_hex digest body ≡ k.sha256_hex)
        × ((e : Entry) × (Assoc.lookup k s.inner ≡ some e) × (now - e.inserted_at < s.ttl))
        × ((get now k s).1 ≡ s)
  unfolding get
  get_sound now k s body v h =
      let (e, found, same, young) = get_found now k s body h in
      (
        rw (← same) (All-lookup (IsHashed digest) k e s.inner v.hashed found),
        (e, found, young),
        ground (arith, found),
      )

  -- A `get` keeps the bookkeeping, also when it drops the entry that it finds expired.
  pub get-IsValid :
      (now : ℕ) (k : BlobKey) (s : BlobStore) → IsValid digest s → IsValid digest (get now k s).1
  unfolding get
  get-IsValid now k s v = elim (Option-cases (Assoc.lookup k s.inner)) [
    | inl missing ↦ rw (missing, get) v
    | inr (e, found) ↦ elim (Bool-cases (is_expired now s.ttl e)) [
      | inl old ↦ rw (found, get) (rw old (remove-IsValid digest k s v))
      | inr young ↦ rw (found, get) (rw young v)
    ]
  ]

  pub get-put :
      (now inserted later : ℕ) (key : BlobKey) (body : Bytes) (s : BlobStore)
      → IsValid digest s
      → Assoc.lookup key s.inner ≡ none
      → (put digest now inserted key body s).0 ≡ ok
      → (get later key (put digest now inserted key body s).1).0
        ≡ (if ltb (later - inserted) s.ttl then some body else none)
  unfolding get
  get-put now inserted later key body s v new h =
      elim (put_cases digest now inserted key body s v) [
        | inl (_, e) ↦ absurd (ground (arith, e))
        | inr (inl (_, _, e)) ↦ absurd (ground (arith, e))
        | inr (inr (inl (_, _, there, e))) ↦ absurd (ground (arith, there, new))
        | inr (inr (inr (fits, hash, missing, e))) ↦
            let t = evict_until_room_for now (length body) s in
            let entry : Entry = record { inserted_at = inserted; bytes = body } in
            rw e (
              ground (
                arith,
                lookup-insert_self key entry t.inner,
                (evict-SameSettings now (length body) s).1,
              ))
      ]

  -- After a successful `put` of a new key, and after any reads of any keys that follow it, `get`
  -- returns the body until the time-to-live is over, and nothing from then on; no read is later than
  -- that `get`, and no other `put` comes in between.
  pub get-gets :
      (now inserted later : ℕ) (reads : List (ℕ × BlobKey)) (key : BlobKey) (body : Bytes)
      (s : BlobStore)
      → IsValid digest s
      → Assoc.lookup key s.inner ≡ none
      → (put digest now inserted key body s).0 ≡ ok
      → All (λ r. r.0 ≤ later) reads
      → (get later key (gets reads (put digest now inserted key body s).1)).0
        ≡ (if ltb (later - inserted) s.ttl then some body else none)
  get-gets now inserted later reads key body s v new h before =
      get_after later key reads (put digest now inserted key body s).1 before
      ∙ get-put now inserted later key body s v new h

  -- A `put` whose key holds an entry that has run out reports success and stores nothing: the very
  -- next `get` finds no blob.
  pub put_expired :
      (now inserted later : ℕ) (key : BlobKey) (body : Bytes) (s : BlobStore) (e : Entry)
      → length body ≤ s.max_blob_bytes
      → sha256_hex digest body ≡ key.sha256_hex
      → Assoc.lookup key s.inner ≡ some e
      → e.inserted_at + s.ttl ≤ now
      → now ≤ later
      → (put digest now inserted key body s ≡ (ok, s)) × ((get later key s).0 ≡ none)
  unfolding put get
  put_expired now inserted later key body s e fits hash found old order =
      (ground (arith, eq_iff (sha256_hex digest body) key.sha256_hex), ground arith)
