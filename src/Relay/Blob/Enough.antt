-- ===== src/Relay/Blob/Enough.antt =====
-- `evict_until_room_for` of relay/src/blob.rs evicts enough, and no more than it has to.
use clip_bridge.Core.Crypto.{Bytes}
use native.Mathlib.Nat.{mod-le}
use clip_bridge.Prelude.{
  ℕ, zero, suc, ◌+◌, ◌≤◌, ◌<◌, ◌≡◌, ◌⊎◌, inl, inr, refl, ◌∙◌, true, some, [], arith, ltb→lt, length,
  Bool-cases, Option-cases,
}
use clip_bridge.Relay.Blob.{
  BlobKey, key_eq, Entry, BlobStore, u64_mod, remove, remove_all, expired_keys, oldest, over_budget,
  evict_loop, evict_until_room_for,
}
use clip_bridge.Relay.Blob.Invariant.{IsValid, remove-IsValid}
use clip_bridge.Relay.Blob.Eviction.{
  IsWithin, remove-IsWithin, budget-remove, remove_all_keeps, evict-ends,
}
use clip_bridge.Relay.Blob.Put.{room, evict-IsValid, evict-SameSettings}

over_budget-lt :
    (incoming : ℕ) (s : BlobStore)
    → over_budget incoming s ≡ true
    → s.budget_bytes < s.total_bytes + incoming
unfolding over_budget
over_budget-lt incoming s h = omega (arith, ltb→lt _ _ h, mod-le (s.total_bytes + incoming) u64_mod)

module _ (digest : Bytes → Bytes) where
  -- The last entry to go was the oldest one of a store in which the incoming bytes had no room: one
  -- in order, with no entry that `live` has not.
  abbrev pub IsNeeded : ℕ → ℕ → BlobStore → BlobStore → Type 0
  IsNeeded budget incoming live t =
      (u : BlobStore) × (k : BlobKey) × (e : Entry) × (t ≡ remove k u)
      × (oldest u.inner ≡ some (k, e))
      × (budget < u.total_bytes + incoming)
      × IsValid digest u
      × IsWithin u.inner live.inner

  evict_loop-IsNeeded :
      (fuel budget incoming : ℕ) (live s : BlobStore)
      → IsValid digest s
      → IsWithin s.inner live.inner
      → s.budget_bytes ≡ budget
      → (evict_loop fuel incoming s ≡ s)
        ⊎ IsNeeded budget incoming live (evict_loop fuel incoming s)
  unfolding evict_loop
  evict_loop-IsNeeded zero budget incoming live s v w b = inl refl
  evict_loop-IsNeeded (suc fuel) budget incoming live s v w b =
      elim (Bool-cases (over_budget incoming s)) [
        | inr fits ↦ inl (rw (fits, evict_loop) refl)
        | inl full ↦ elim (Option-cases (oldest s.inner)) [
          | inl empty ↦ inl (rw (full, empty, evict_loop) refl)
          | inr ((k, e), found) ↦
              let rest =
                evict_loop-IsNeeded fuel budget incoming live (remove k s)
                  (remove-IsValid digest k s v) (remove-IsWithin live.inner k s w)
                  (budget-remove k s ∙ b) in
              rw (full, found, evict_loop)
                (inr (elim rest [
                  | inr more ↦ more
                  | inl last ↦
                      (s, k, e, last, found, omega (arith, b, over_budget-lt incoming s full), v, w)
                ]))
        ]
      ]

  -- Eviction in a store in order, for a body within the limit of one: afterwards the incoming
  -- bytes fit in the budget, or no entry is left; the fuel, one round for each entry, is enough
  -- for that. Of the entries that have not run out it drops none, or the last one to go was the
  -- oldest of a store in which the incoming bytes still did not fit, one in order without entries
  -- that were not there.
  pub evict_until_room_for_lem :
      (now incoming : ℕ) (s : BlobStore)
      → IsValid digest s
      → incoming ≤ s.max_blob_bytes
      → let t = evict_until_room_for now incoming s in
        let live = remove_all (expired_keys now s) s in
        ((t.total_bytes + incoming ≤ s.budget_bytes) ⊎ (t.inner ≡ []))
        × ((t ≡ live) ⊎ IsNeeded s.budget_bytes incoming live t)
  unfolding evict_until_room_for
  evict_until_room_for_lem now incoming s v small =
      let t = evict_until_room_for now incoming s in
      let live = remove_all (expired_keys now s) s in
      let w = evict-IsValid digest now incoming s v in
      let same = evict-SameSettings now incoming s in
      (
        elim (evict-ends now incoming s v.distinct) [
          | inl fits ↦ inl (room incoming s t small fits w.wide w.bounded same.0 same.2)
          | inr empty ↦ inr empty
        ],
        evict_loop-IsNeeded (length live.inner) s.budget_bytes incoming live live
            (remove_all_keeps (IsValid digest) (remove-IsValid digest) (expired_keys now s) s v)
            (λ k e h. h)
            (remove_all_keeps (λ u. u.budget_bytes ≡ s.budget_bytes)
              (λ k u h. budget-remove k u ∙ h) (expired_keys now s) s refl),
      )
