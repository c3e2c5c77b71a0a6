-- ===== src/Relay/Blob/Eviction.antt =====
-- `evict_until_room_for`: what it keeps, that its loop ends by its test, and whom it drops.
use clip_bridge.Prelude.Assoc
use clip_bridge.Prelude.Assoc.{
  Assoc, IsMap, lookup-remove, remove-IsMap, length-remove, length-remove_found,
}
use clip_bridge.Prelude.{
  ℕ, zero, suc, ◌⊎◌, length, ap, false, ◌≤◌, ◌≡◌, refl, none, some, List, [], ◌∷◌, arith, eq_iff,
  Option-cases, Bool-cases, inl, inr,
}
use clip_bridge.Relay.Blob.{
  BlobKey, key_eq, Entry, BlobStore, remove, remove_all, evict_loop, oldest, over_budget,
  expired_keys, evict_until_room_for,
}

-- What every removal keeps, eviction keeps.
module _ {ℓ} (P : BlobStore → Type ℓ)
    (keep : (k : BlobKey) (s : BlobStore) → P s → P (remove k s)) where
  pub remove_all_keeps : (ks : List BlobKey) (s : BlobStore) → P s → P (remove_all ks s)
  unfolding remove_all
  remove_all_keeps [] s h = h
  remove_all_keeps (k ∷ ks) s h = remove_all_keeps ks (remove k s) (keep k s h)

  pub evict_loop_keeps : (fuel incoming : ℕ) (s : BlobStore) → P s → P (evict_loop fuel incoming s)
  unfolding evict_loop
  evict_loop_keeps zero incoming s h = h
  evict_loop_keeps (suc fuel) incoming s h = elim (Bool-cases (over_budget incoming s)) [
    | inl full ↦ elim (Option-cases (oldest s.inner)) [
      | inl e ↦ rw (full, e, evict_loop) h
      | inr (r, e) ↦
          rw (full, e, evict_loop) (evict_loop_keeps fuel incoming (remove r.0 s) (keep r.0 s h))
    ]
    | inr fits ↦ rw (fits, evict_loop) h
  ]

  pub evict_keeps :
      (now incoming : ℕ) (s : BlobStore) → P s → P (evict_until_room_for now incoming s)
  unfolding evict_until_room_for
  evict_keeps now incoming s h =
      evict_loop_keeps _ incoming _ (remove_all_keeps (expired_keys now s) s h)

-- The entry that the scan picks is in the map, and none there is older.
abbrev pub IsOldest : ℕ → Assoc BlobKey Entry → Type 0
IsOldest t [] = Unit
IsOldest t ((k, e) ∷ m) = (t ≤ e.inserted_at) × IsOldest t m

IsOldest-mono : (t u : ℕ) (m : Assoc BlobKey Entry) → t ≤ u → IsOldest u m → IsOldest t m
IsOldest-mono t u [] h o = tt
IsOldest-mono t u ((k, e) ∷ m) h o = (omega arith, IsOldest-mono t u m h o.1)

oldest-none : (m : Assoc BlobKey Entry) → oldest m ≡ none → m ≡ []
unfolding oldest
oldest-none [] h = refl
oldest-none ((k, e) ∷ m) h = absurd (ground arith)

pub oldest-IsOldest :
    (m : Assoc BlobKey Entry) (k : BlobKey) (e : Entry)
    → oldest m ≡ some (k, e)
    → IsOldest e.inserted_at m
unfolding oldest
oldest-IsOldest [] k e h = tt
oldest-IsOldest ((j, d) ∷ m) k e h = elim (Option-cases (oldest m)) [
  | inl n ↦ ground (arith, n, oldest-none m n)
  | inr ((i, c), n) ↦
      let rest = oldest-IsOldest m i c n in
      ground (arith, n, rest, IsOldest-mono d.inserted_at c.inserted_at m)
]

pub lookup-oldest :
    (m : Assoc BlobKey Entry) (k : BlobKey) (e : Entry)
    → IsMap m
    → oldest m ≡ some (k, e)
    → Assoc.lookup k m ≡ some e
unfolding oldest Assoc.lookup
lookup-oldest [] k e v h = absurd (ground arith)
lookup-oldest ((j, d) ∷ m) k e v h = elim (Option-cases (oldest m)) [
  | inl n ↦ ground (arith, n, eq_iff j k)
  | inr ((i, c), n) ↦ ground (arith, n, eq_iff j k, eq_iff j i, lookup-oldest m i c v.1 n)
]

-- The map that a removal leaves, whether or not the key was there.
pub inner-remove : (k : BlobKey) (s : BlobStore) → (remove k s).inner ≡ Assoc.remove k s.inner
unfolding remove
inner-remove k s = ground (arith, Assoc.remove_missing k s.inner)

pub budget-remove : (k : BlobKey) (s : BlobStore) → (remove k s).budget_bytes ≡ s.budget_bytes
unfolding remove
budget-remove k s = ground arith

pub inner-remove-IsMap : (k : BlobKey) (s : BlobStore) → IsMap s.inner → IsMap (remove k s).inner
inner-remove-IsMap k s h = rw (inner-remove k s) (remove-IsMap k s.inner h)

-- With fuel for every entry the loop ends by its own test or on the empty map.
pub evict_loop-ends :
    (fuel incoming : ℕ) (s : BlobStore)
    → IsMap s.inner
    → length s.inner ≤ fuel
    → (over_budget incoming (evict_loop fuel incoming s) ≡ false)
      ⊎ ((evict_loop fuel incoming s).inner ≡ [])
unfolding evict_loop
evict_loop-ends zero incoming s v h = inr (ground arith)
evict_loop-ends (suc fuel) incoming s v h = elim (Bool-cases (over_budget incoming s)) [
  | inl full ↦ elim (Option-cases (oldest s.inner)) [
    | inl e ↦ rw (full, e, evict_loop) (inr (oldest-none s.inner e))
    | inr ((k, d), e) ↦
        rw (full, e, evict_loop)
          (evict_loop-ends fuel incoming (remove k s) (inner-remove-IsMap k s v) (
            omega (
              arith,
              ap length (inner-remove k s),
              length-remove_found k d s.inner v (lookup-oldest s.inner k d v e),
            )))
  ]
  | inr fits ↦ rw (fits, evict_loop) (inl fits)
]

-- Eviction stops because the incoming bytes fit in the budget, or because nothing is left to evict;
-- the fuel, one round for each entry, is enough.
pub evict-ends :
    (now incoming : ℕ) (s : BlobStore)
    → IsMap s.inner
    → (over_budget incoming (evict_until_room_for now incoming s) ≡ false)
      ⊎ ((evict_until_room_for now incoming s).inner ≡ [])
unfolding evict_until_room_for
evict-ends now incoming s v =
    let live = remove_all (expired_keys now s) s in
    evict_loop-ends (length live.inner) incoming live
      (remove_all_keeps (λ t. IsMap t.inner) inner-remove-IsMap (expired_keys now s) s v)
      (omega arith)

-- Entries are only dropped: what is there afterwards was there before.
abbrev pub IsWithin : Assoc BlobKey Entry → Assoc BlobKey Entry → Type 0
IsWithin m n = (k : BlobKey) (e : Entry) → Assoc.lookup k m ≡ some e → Assoc.lookup k n ≡ some e

pub remove-IsWithin :
    (n : Assoc BlobKey Entry) (k : BlobKey) (s : BlobStore)
    → IsWithin s.inner n
    → IsWithin (remove k s).inner n
remove-IsWithin n k s h j e found =
    h j e (ground (arith, found, inner-remove k s, lookup-remove k j s.inner))

pub evict_loop-IsWithin :
    (fuel incoming : ℕ) (s : BlobStore) → IsWithin (evict_loop fuel incoming s).inner s.inner
evict_loop-IsWithin fuel incoming s =
    evict_loop_keeps (λ t. IsWithin t.inner s.inner) (remove-IsWithin s.inner) fuel incoming s
      (λ k e h. h)

pub evict-IsWithin :
    (now incoming : ℕ) (s : BlobStore)
    → IsWithin (evict_until_room_for now incoming s).inner s.inner
evict-IsWithin now incoming s =
    evict_keeps (λ t. IsWithin t.inner s.inner) (remove-IsWithin s.inner) now incoming s
      (λ k e h. h)
