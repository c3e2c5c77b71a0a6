-- ===== src/Windows/History.antt =====
-- The image history of clients/windows/src/bridge.rs and the bytes kept for it: `store_history`.
use clip_bridge.Windows.Eviction.{ids, has_bytes, IsStore, evict-full, ids-append, stored-cases}
use clip_bridge.Core.Crypto.{Bytes}
use clip_bridge.Windows.{
  history_limit, ImageHistoryEntry, ImageStore, evict_images, store_history, image_bytes_for,
}
use clip_bridge.Prelude.Assoc
use clip_bridge.Prelude.Assoc.{
  Assoc, IsMap, is_some, lookup-remove, lookup-insert, lookup-insert_self, remove-IsMap,
  insert-IsMap, All-remove, All-remove_other, All-lookup, length-remove, remove_missing,
  length-remove_found,
}
use clip_bridge.Prelude.{
  suc, ◌≤◌, ◌≡◌, inl, inr, refl, sym, ap, subst, ◌∙◌, true, false, not, ◌&&◌, ◌||◌, none, some,
  List, [], ◌∷◌, ◌++◌, arith, ◌==◌, eq_iff, eq_refl, eq_symm, list_eq, nat_eq, option_eq, length,
  All, All-map, length-append, contains, Distinct, Text, contains-append,
}

has_bytes-insert :
    (k id : Text) (bytes : Bytes) (bs : Assoc Text Bytes)
    → has_bytes (Assoc.insert k bytes bs) id ≡ (k == id || has_bytes bs id)
unfolding has_bytes
has_bytes-insert k id bytes bs = ground (arith, lookup-insert k id bytes bs)

has_bytes-remove :
    (k id : Text) (bs : Assoc Text Bytes)
    → has_bytes (Assoc.remove k bs) id ≡ (not (k == id) && has_bytes bs id)
unfolding has_bytes
has_bytes-remove k id bs = ground (arith, lookup-remove k id bs)

contains-last :
    (xs : List Text) (k id : Text)
    → contains (xs ++ k ∷ []) id ≡ true
    → (id == k) ≡ false
    → contains xs id ≡ true
unfolding contains
contains-last xs k id h ne = ground (arith, contains-append xs (k ∷ []) id, h, ne, eq_symm id k)

Distinct-front :
    (xs : List Text) (k : Text) → Distinct (xs ++ k ∷ []) → Distinct xs × (contains xs k ≡ false)
unfolding contains
Distinct-front [] k d = (tt, refl)
Distinct-front (x ∷ xs) k d =
    let rest = Distinct-front xs k d.1 in
    let new = contains-append xs (k ∷ []) x in
    ((ground (arith, new, d.0), rest.0), ground (arith, new, d.0, rest.1, eq_symm x k))

All-front {κ} : (P : Text → Type κ) (xs : List Text) (k : Text) → All P (xs ++ k ∷ []) → All P xs
All-front P [] k all = tt
All-front P (x ∷ xs) k all = (all.0, All-front P xs k all.1)

-- What is kept for ids other than `k` is kept when the bytes of `k` go.
kept-others :
    (new k : Text) (bs : Assoc Text Bytes) (xs : List Text)
    → All (λ id. (new == id || has_bytes bs id) ≡ true) xs
    → contains xs k ≡ false
    → All (λ id. (new == id || has_bytes (Assoc.remove k bs) id) ≡ true) xs
unfolding contains
kept-others new k bs [] all h = tt
kept-others new k bs (x ∷ xs) all h = (
  ground (arith, has_bytes-remove k x bs, all.0, h, eq_symm x k),
  kept-others new k bs xs all.1 (ground (arith, h)),
)

kept-insert :
    (k : Text) (bytes : Bytes) (bs : Assoc Text Bytes) (xs : List Text)
    → All (λ id. (k == id || has_bytes bs id) ≡ true) xs
    → All (λ id. has_bytes (Assoc.insert k bytes bs) id ≡ true) xs
kept-insert k bytes bs xs all =
    All-map (λ id. (k == id || has_bytes bs id) ≡ true)
      (λ id. has_bytes (Assoc.insert k bytes bs) id ≡ true) xs
      (λ id h. has_bytes-insert k id bytes bs ∙ h) all

-- A store put together from a history and from the bytes that were there before the new ones.
rebuilt :
    (new : Text) (bytes : Bytes) (h : List ImageHistoryEntry) (bs : Assoc Text Bytes)
    (t : ImageStore)
    → t.image_history ≡ h
    → t.image_bytes ≡ Assoc.insert new bytes bs
    → length h ≤ history_limit
    → contains (ids h) new ≡ true
    → All (λ e. contains (ids h) e.0 ≡ true) bs
    → Distinct (ids h)
    → All (λ id. (new == id || has_bytes bs id) ≡ true) (ids h)
    → IsStore t
unfolding Assoc.insert
rebuilt new bytes h bs t history kept_bytes small there known distinct kept = record {
  limited = rw history small;
  no_leak =
      rw (history, kept_bytes) (there, All-remove (λ e. contains (ids h) e.0 ≡ true) new bs known);
  distinct = rw history distinct;
  kept = rw (history, kept_bytes) (kept-insert new bytes bs (ids h) kept);
}

newest_stays :
    {entry : ImageHistoryEntry} {older : List ImageHistoryEntry} (front : List ImageHistoryEntry)
    (last : ImageHistoryEntry)
    → front ++ last ∷ [] ≡ entry ∷ older
    → length front ≡ history_limit
    → contains (ids front) entry.id ≡ true
unfolding ids contains
newest_stays [] last whole full = absurd (omega (arith, full))
newest_stays {entry} (f ∷ front) last whole full =
    let same : f ≡ entry = ground (arith, whole) in
    let same_id : (f.id == entry.id) ≡ true = (eq_iff f.id entry.id).1 (ap (λ e. e.id) same) in
    ground (arith, same_id)

module _ (entry : ImageHistoryEntry) (bytes : Bytes) (s : ImageStore) (v : IsStore s)
    (new : contains (ids s.image_history) entry.id ≡ false) where
  all_known : All (λ e. contains (entry.id ∷ ids s.image_history) e.0 ≡ true) s.image_bytes
  unfolding contains
  all_known =
      All-map (λ e. contains (ids s.image_history) e.0 ≡ true)
        (λ e. contains (entry.id ∷ ids s.image_history) e.0 ≡ true) s.image_bytes
        (λ e h. ground (arith, h)) v.no_leak

  all_kept :
      All
        (λ id. (entry.id == id || has_bytes s.image_bytes id) ≡ true)
        (entry.id ∷ ids s.image_history)
  all_kept = (
    ground (arith, eq_refl entry.id),
    All-map (λ id. has_bytes s.image_bytes id ≡ true)
        (λ id. (entry.id == id || has_bytes s.image_bytes id) ≡ true) (ids s.image_history)
        (λ id h. ground (arith, h)) v.kept,
  )

  pushed-IsStore :
      (t : ImageStore)
      → suc (length s.image_history) ≤ history_limit
      → t.image_history ≡ entry ∷ s.image_history
      → t.image_bytes ≡ Assoc.insert entry.id bytes s.image_bytes
      → IsStore t
  unfolding contains ids
  pushed-IsStore t small history kept_bytes =
      rebuilt entry.id bytes (entry ∷ s.image_history) s.image_bytes t history kept_bytes small
        (ground (arith, eq_refl entry.id)) all_known (new, v.distinct) all_kept

  evicted-IsStore :
      (t : ImageStore) (front : List ImageHistoryEntry) (last : ImageHistoryEntry)
      → front ++ last ∷ [] ≡ entry ∷ s.image_history
      → length front ≡ history_limit
      → t.image_history ≡ front
      → t.image_bytes ≡ Assoc.insert entry.id bytes (Assoc.remove last.id s.image_bytes)
      → IsStore t
  unfolding ids
  evicted-IsStore t front last whole full history kept_bytes =
      let all_ids : ids front ++ last.id ∷ [] ≡ entry.id ∷ ids s.image_history =
        sym (ids-append front last) ∙ ap ids whole in
      let split =
        Distinct-front (ids front) last.id
          (subst (λ l. Distinct l) (sym all_ids) (new, v.distinct)) in
      rebuilt entry.id bytes front (Assoc.remove last.id s.image_bytes) t history kept_bytes
        (omega (arith, full)) (newest_stays front last whole full)
        (All-map
          (λ e. (contains (entry.id ∷ ids s.image_history) e.0 ≡ true) × ((e.0 == last.id) ≡ false))
          (λ e. contains (ids front) e.0 ≡ true) (Assoc.remove last.id s.image_bytes)
          (λ e h.
            contains-last (ids front) last.id e.0
              (subst (λ l. contains l e.0 ≡ true) (sym all_ids) h.0) h.1)
          (All-remove_other (λ e. contains (entry.id ∷ ids s.image_history) e.0 ≡ true) last.id
            s.image_bytes all_known))
        split.0
        (kept-others entry.id last.id s.image_bytes (ids front)
          (All-front (λ id. (entry.id == id || has_bytes s.image_bytes id) ≡ true) (ids front)
            last.id
            (subst (λ l. All (λ id. (entry.id == id || has_bytes s.image_bytes id) ≡ true) l)
              (sym all_ids) all_kept))
          split.1)

-- Storing an entry whose id is not in the history keeps the history within 24 entries of distinct
-- ids, with the bytes of exactly these entries, when it was so before; those of the new entry are
-- what is stored with it.
pub store_history-IsStore :
    (entry : ImageHistoryEntry) (bytes : Bytes) (s : ImageStore)
    → IsStore s
    → contains (ids s.image_history) entry.id ≡ false
    → IsStore (store_history entry bytes s)
      × (image_bytes_for entry.id (store_history entry bytes s) ≡ some bytes)
unfolding image_bytes_for
store_history-IsStore entry bytes s v new = elim (stored-cases entry bytes s v.limited) [
  | inl (small, history, kept) ↦ (
    pushed-IsStore entry bytes s v new (store_history entry bytes s) small history kept,
    rw kept (lookup-insert_self entry.id bytes s.image_bytes),
  )
  | inr (front, last, whole, full, history, kept) ↦ (
    evicted-IsStore entry bytes s v new (store_history entry bytes s) front last whole full history
        kept,
    rw kept (lookup-insert_self entry.id bytes (Assoc.remove last.id s.image_bytes)),
  )
]

-- When the history is full and the id of its oldest entry is also that of a younger one, storing an
-- entry of another id drops the bytes of the id although an entry in the history still has it.
pub store_history-drops_shared :
    (entry last : ImageHistoryEntry) (bytes : Bytes) (front : List ImageHistoryEntry)
    (s : ImageStore)
    → s.image_history ≡ front ++ last ∷ []
    → length s.image_history ≡ history_limit
    → contains (ids front) last.id ≡ true
    → (entry.id == last.id) ≡ false
    → (contains (ids (store_history entry bytes s).image_history) last.id ≡ true)
      × (image_bytes_for last.id (store_history entry bytes s) ≡ none)
unfolding store_history image_bytes_for ids contains
store_history-drops_shared entry last bytes front s history full shared other =
    let len : suc (length front) ≡ history_limit =
      omega (arith, full, ap (λ h. length h) history, length-append front (last ∷ [])) in
    let goes : evict_images (suc (length s.image_history)) (entry ∷ s.image_history) s.image_bytes
        ≡ (entry ∷ front, Assoc.remove last.id s.image_bytes) =
      subst
        (λ h.
          evict_images (suc (length s.image_history)) (entry ∷ h) s.image_bytes
          ≡ (entry ∷ front, Assoc.remove last.id s.image_bytes))
        (sym history)
        (evict-full (length s.image_history) (entry ∷ front) last s.image_bytes len) in
    (
      rw goes (ground (arith, shared)),
      rw goes (
          ground (
            arith,
            lookup-insert entry.id last.id bytes (Assoc.remove last.id s.image_bytes),
            lookup-remove last.id last.id s.image_bytes,
            eq_refl last.id,
            other,
          )),
    )
