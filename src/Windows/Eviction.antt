-- ===== src/Windows/Eviction.antt =====
-- What `store_history` of clients/windows/src/bridge.rs evicts, and the ids of a history.
use clip_bridge.Core.Crypto.{Bytes}
use clip_bridge.Windows.{
  history_limit, ImageHistoryEntry, ImageStore, pop_back, evict_images, store_history,
}
use clip_bridge.Prelude.Assoc
use clip_bridge.Prelude.Assoc.{
  Assoc, IsMap, is_some, lookup-remove, lookup-insert, lookup-insert_self, remove-IsMap,
  insert-IsMap, All-remove, All-remove_other, All-lookup, length-remove, remove_missing,
  length-remove_found,
}
use clip_bridge.Prelude.{
  ℕ, zero, suc, ◌≤◌, ◌≡◌, ◌⊎◌, inl, inr, refl, ap, subst, Bool, true, some, List, [], ◌∷◌, ◌++◌,
  map, arith, ltb, leb, list_eq, nat_eq, option_eq, length, All, length-append, contains, Distinct,
  Text, Bool-cases, leb→le, leb→gt,
}

unfoldable pub ids : List ImageHistoryEntry → List Text
ids h = map (λ e. e.id) h

-- Whether the bytes of an id are kept.
unfoldable pub has_bytes : Assoc Text Bytes → Text → Bool
has_bytes bs id = is_some (Assoc.lookup id bs)

-- The history is within its limit, has no id twice and the bytes of every id, and bytes are kept
-- only for ids in it.
pub record IsStore (s : ImageStore) : Type 0 where
  pub limited : length s.image_history ≤ history_limit
  pub no_leak : All (λ e. contains (ids s.image_history) e.0 ≡ true) s.image_bytes
  pub distinct : Distinct (ids s.image_history)
  pub kept : All (λ id. has_bytes s.image_bytes id ≡ true) (ids s.image_history)

pop_back-append {ℓ} : {A : Type ℓ} (xs : List A) (x : A) → pop_back (xs ++ x ∷ []) ≡ some (xs, x)
unfolding pop_back
pop_back-append [] x = refl
pop_back-append (y ∷ xs) x = rw (pop_back-append xs x) refl

snoc-view {ℓ} :
    {A : Type ℓ} (x : A) (xs : List A)
    → (front : List A) × (last : A) × (front ++ last ∷ [] ≡ x ∷ xs)
snoc-view x [] = ([], x, refl)
snoc-view x (y ∷ ys) =
    let (front, last, whole) = snoc-view y ys in (x ∷ front, last, ap (λ (l : List _). x ∷ l) whole)

evict-fits :
    (fuel : ℕ) (h : List ImageHistoryEntry) (bs : Assoc Text Bytes)
    → length h ≤ history_limit
    → evict_images fuel h bs ≡ (h, bs)
unfolding evict_images
evict-fits zero h bs fits = refl
evict-fits (suc fuel) h bs fits = ground (arith, fits)

pub evict-full :
    (fuel : ℕ) (front : List ImageHistoryEntry) (last : ImageHistoryEntry) (bs : Assoc Text Bytes)
    → length front ≡ history_limit
    → evict_images (suc fuel) (front ++ last ∷ []) bs ≡ (front, Assoc.remove last.id bs)
unfolding evict_images
evict-full fuel front last bs full =
    let over : ltb history_limit (length (front ++ last ∷ [])) ≡ true =
      ground (arith, length-append front (last ∷ []), full) in
    rw (pop_back-append front last, over)
      (evict-fits fuel front (Assoc.remove last.id bs) (omega (arith, full)))

pub ids-append :
    (h : List ImageHistoryEntry) (e : ImageHistoryEntry) → ids (h ++ e ∷ []) ≡ ids h ++ e.id ∷ []
unfolding ids
ids-append [] e = refl
ids-append (x ∷ h) e = ap (λ (l : List Text). x.id ∷ l) (ids-append h e)

-- The two things that storing does to a history within its limit.
pub stored-cases :
    (entry : ImageHistoryEntry) (bytes : Bytes) (s : ImageStore)
    → length s.image_history ≤ history_limit
    → ((suc (length s.image_history) ≤ history_limit)
        × ((store_history entry bytes s).image_history ≡ entry ∷ s.image_history)
        × ((store_history entry bytes s).image_bytes ≡ Assoc.insert entry.id bytes s.image_bytes))
      ⊎ ((front : List ImageHistoryEntry) × (last : ImageHistoryEntry) × (front ++ last ∷ []
            ≡ entry ∷ s.image_history)
          × (length front ≡ history_limit)
          × ((store_history entry bytes s).image_history ≡ front)
          × ((store_history entry bytes s).image_bytes
              ≡ Assoc.insert entry.id bytes (Assoc.remove last.id s.image_bytes)))
unfolding store_history
stored-cases entry bytes s fits =
    elim (Bool-cases (leb (suc (length s.image_history)) history_limit)) [
      | inl small ↦
          let none_goes =
            evict-fits (suc (length s.image_history)) (entry ∷ s.image_history) s.image_bytes
              (leb→le _ _ small) in
          inl (
            leb→le _ _ small,
            ap (λ r. r.0) none_goes,
            ap (λ r. Assoc.insert entry.id bytes r.1) none_goes,
          )
      | inr big ↦
          let (front, last, whole) = snoc-view entry s.image_history in
          let full : length front ≡ history_limit = omega (
            arith,
            ap (λ l. length l) whole,
            length-append front (last ∷ []),
            leb→gt _ _ big,
            fits,
          ) in
          let one_goes =
            subst
              (λ h.
                evict_images (suc (length s.image_history)) h s.image_bytes
                ≡ (front, Assoc.remove last.id s.image_bytes))
              whole (evict-full (length s.image_history) front last s.image_bytes full) in
          inr (
            front,
            last,
            whole,
            full,
            ap (λ r. r.0) one_goes,
            ap (λ r. Assoc.insert entry.id bytes r.1) one_goes,
          )
    ]
