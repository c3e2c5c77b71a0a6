-- ===== src/Core/Lan/BlobCache/Caps.antt =====
-- The cache of blobs keeps to its caps and keeps the newest blob.
use clip_bridge.Core.Crypto.{Bytes}
use clip_bridge.Prelude.Assoc
use clip_bridge.Prelude.Assoc.{
  Assoc, IsMap, is_some, lookup-remove, lookup-insert, lookup-insert_self, remove-IsMap,
  insert-IsMap, All-remove, All-lookup, length-remove, remove_missing, length-remove_found,
}
use clip_bridge.Prelude.{
  ℕ, ◌+◌, ◌-◌, ◌≤◌, ◌≡◌, inl, inr, refl, ap, ◌∙◌, true, false, none, some, List, [], ◌∷◌, ◌++◌,
  arith, ◌==◌, eq_iff, eq_symm, list_eq, nat_eq, option_eq, length, All, length-append, contains,
  Text, Bool-cases, Option-cases, contains-append, Distinct-append_one,
}
use clip_bridge.Core.Lan.BlobCache.{
  blob_cache_max_bytes, BlobCache, get, over_caps, evict, insert, weigh, IsCounted, IsValid,
}

module _ (old : Text) (held : Assoc Text Bytes) where
  lookup-other :
      (k : Text) → (k == old) ≡ false → Assoc.lookup k (Assoc.remove old held) ≡ Assoc.lookup k held
  lookup-other k ne = ground (arith, lookup-remove old k held, eq_symm k old)

  weigh-remove :
      (order : List Text)
      → contains order old ≡ false
      → weigh (Assoc.remove old held) order ≡ weigh held order
  unfolding weigh contains
  weigh-remove [] h = refl
  weigh-remove (k ∷ order) h =
      let ne : (k == old) ≡ false = ground arith in
      rw (lookup-other k ne, weigh-remove order (ground arith)) refl

  present-remove :
      (order : List Text)
      → contains order old ≡ false
      → All (λ k. is_some (Assoc.lookup k held) ≡ true) order
      → All (λ k. is_some (Assoc.lookup k (Assoc.remove old held)) ≡ true) order
  unfolding contains
  present-remove [] h all = tt
  present-remove (k ∷ order) h all =
      let ne : (k == old) ≡ false = ground arith in
      (rw (lookup-other k ne) all.0, present-remove order (ground arith) all.1)

evict_one :
    (old : Text) (order : List Text) (held : Assoc Text Bytes) (bytes : ℕ) (v : Bytes)
    → IsCounted held (old ∷ order) bytes
    → Assoc.lookup old held ≡ some v
    → IsCounted (Assoc.remove old held) order (bytes - length v)
unfolding weigh
evict_one old order held bytes v i found = record {
  is_map = remove-IsMap old held i.is_map;
  distinct = i.distinct.1;
  present = present-remove old held order i.distinct.0 i.present.1;
  count = omega (arith, length-remove_found old v held i.is_map found, i.count);
  sum = ground (arith, weigh-remove old held order i.distinct.0, i.sum, found);
}

found_first :
    (old : Text) (order : List Text) (held : Assoc Text Bytes) (bytes : ℕ)
    → IsCounted held (old ∷ order) bytes
    → (v : Bytes) × (Assoc.lookup old held ≡ some v)
found_first old order held bytes i = elim (Option-cases (Assoc.lookup old held)) [
  | inl missing ↦ absurd (ground (arith, missing, i.present))
  | inr found ↦ found
]

evict-within_caps :
    (order : List Text) (held : Assoc Text Bytes) (bytes : ℕ)
    → IsCounted held order bytes
    → IsValid (evict held order bytes)
unfolding evict over_caps weigh
evict-within_caps [] held bytes i = record {
  counted = i;
  within_bytes = omega (arith, i.sum);
  within_entries = omega (arith, i.count);
}
evict-within_caps (old ∷ order) held bytes i = elim (Bool-cases (over_caps held bytes)) [
  | inl over ↦
      let (v, found) = found_first old order held bytes i in
      rw (over, found)
        (evict-within_caps order (Assoc.remove old held) (bytes - length v)
          (evict_one old order held bytes v i found))
  | inr within ↦ rw within (record {
    counted = i;
    within_bytes = ground (arith, within);
    within_entries = ground (arith, within);
  })
]

absent :
    (k : Text) (held : Assoc Text Bytes) (order : List Text)
    → Assoc.lookup k held ≡ none
    → All (λ j. is_some (Assoc.lookup j held) ≡ true) order
    → contains order k ≡ false
unfolding contains
absent k held [] missing all = refl
absent k held (j ∷ order) missing all = elim (Bool-cases (j == k)) [
  | inl same ↦
      let here : Assoc.lookup j held ≡ none =
        ap (λ (i : Text). Assoc.lookup i held) ((eq_iff j k).0 same) ∙ missing in
      absurd (ground (arith, here, all.0))
  | inr other ↦ rw other (absent k held order missing all.1)
]

module _ (k : Text) (v : Bytes) (held : Assoc Text Bytes) where
  lookup_new-other :
      (j : Text) → (j == k) ≡ false → Assoc.lookup j (Assoc.insert k v held) ≡ Assoc.lookup j held
  lookup_new-other j ne = ground (arith, lookup-insert k j v held, eq_symm j k)

  weigh-insert :
      (order : List Text)
      → contains order k ≡ false
      → weigh (Assoc.insert k v held) (order ++ k ∷ []) ≡ weigh held order + length v
  unfolding weigh contains
  weigh-insert [] h = rw (lookup-insert_self k v held) (omega arith)
  weigh-insert (j ∷ order) h =
      let ne : (j == k) ≡ false = ground arith in
      rw (lookup_new-other j ne, weigh-insert order (ground arith)) (omega arith)

  present-insert :
      (order : List Text)
      → contains order k ≡ false
      → All (λ j. is_some (Assoc.lookup j held) ≡ true) order
      → All (λ j. is_some (Assoc.lookup j (Assoc.insert k v held)) ≡ true) (order ++ k ∷ [])
  unfolding contains
  present-insert [] h all = (rw (lookup-insert_self k v held) refl, tt)
  present-insert (j ∷ order) h all =
      let ne : (j == k) ≡ false = ground arith in
      (rw (lookup_new-other j ne) all.0, present-insert order (ground arith) all.1)

add_one :
    (k : Text) (v : Bytes) (c : BlobCache)
    → IsCounted c.map c.order c.bytes
    → Assoc.lookup k c.map ≡ none
    → IsCounted (Assoc.insert k v c.map) (c.order ++ k ∷ []) (c.bytes + length v)
unfolding Assoc.insert
add_one k v c i missing =
    let fresh = absent k c.map c.order missing i.present in
    record {
      is_map = insert-IsMap k v c.map i.is_map;
      distinct = Distinct-append_one c.order k i.distinct fresh;
      present = present-insert k v c.map c.order fresh i.present;
      count =
          rw (remove_missing k c.map missing)
            (omega (arith, i.count, length-append c.order (k ∷ [])));
      sum = omega (arith, weigh-insert k v c.map c.order fresh, i.sum);
    }

-- However blobs are inserted, the cache stays within both caps and its books are right.
pub insert-within_caps : (k : Text) (v : Bytes) (c : BlobCache) → IsValid c → IsValid (insert k v c)
unfolding insert
insert-within_caps k v c i = elim (Option-cases (Assoc.lookup k c.map)) [
  | inr (held, found) ↦ rw found i
  | inl missing ↦ rw missing (
      evict-within_caps (c.order ++ k ∷ []) (Assoc.insert k v c.map) (c.bytes + length v)
        (add_one k v c i.counted missing))
]

-- The newest entry outlives the others.
evict_newest :
    (order : List Text) (held : Assoc Text Bytes) (bytes : ℕ) (k : Text) (v : Bytes)
    → IsCounted held (order ++ k ∷ []) bytes
    → Assoc.lookup k held ≡ some v
    → length v ≤ blob_cache_max_bytes
    → Assoc.lookup k (evict held (order ++ k ∷ []) bytes).map ≡ some v
unfolding evict over_caps weigh contains
evict_newest [] held bytes k v i found fits =
    let within : over_caps held bytes ≡ false = ground (arith, i.sum, i.count, found) in
    rw within found
evict_newest (old ∷ order) held bytes k v i found fits = elim (Bool-cases (over_caps held bytes)) [
  | inr within ↦ rw within found
  | inl over ↦
      let (w, first) = found_first old (order ++ k ∷ []) held bytes i in
      let other : (k == old) ≡ false =
        ground (arith, i.distinct, contains-append order (k ∷ []) old) in
      rw (over, first)
        (evict_newest order (Assoc.remove old held) (bytes - length w) k v
          (evict_one old (order ++ k ∷ []) held bytes w i first)
          (lookup-other old held k other ∙ found) fits)
]

-- A blob that was inserted, no larger than the whole cache, is there to be served; a blob that
-- was there before keeps its bytes.
pub get-insert :
    (k : Text) (v : Bytes) (c : BlobCache)
    → IsValid c
    → length v ≤ blob_cache_max_bytes
    → get k (insert k v c) ≡ elim (get k c) [ none ↦ some v | some held ↦ some held ]
unfolding insert get
get-insert k v c i fits = elim (Option-cases (Assoc.lookup k c.map)) [
  | inr (held, found) ↦ rw (found, found) refl
  | inl missing ↦ rw missing (
      evict_newest c.order (Assoc.insert k v c.map) (c.bytes + length v) k v
        (add_one k v c i.counted missing) (lookup-insert_self k v c.map) fits)
]
