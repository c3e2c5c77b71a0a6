-- ===== src/Relay/Blob/Order.antt =====
-- Whom the eviction loop drops: the oldest entries first.
use clip_bridge.Prelude.Assoc
use clip_bridge.Prelude.Assoc.{Assoc, IsMap, lookup-remove}
use clip_bridge.Prelude.{
  ℕ, zero, suc, ◌≤◌, ◌≡◌, none, some, [], ◌∷◌, arith, eq_iff, ◌==◌, Option-cases, Bool-cases, inl,
  inr,
}
use clip_bridge.Relay.Blob.{
  BlobKey, key_eq, Entry, BlobStore, remove, evict_loop, oldest, over_budget,
}
use clip_bridge.Relay.Blob.Eviction.{
  IsOldest, oldest-IsOldest, lookup-oldest, inner-remove, inner-remove-IsMap, evict_loop-IsWithin,
}

IsOldest-lookup :
    (t : ℕ) (k : BlobKey) (e : Entry) (m : Assoc BlobKey Entry)
    → IsOldest t m
    → Assoc.lookup k m ≡ some e
    → t ≤ e.inserted_at
unfolding Assoc.lookup
IsOldest-lookup t k e [] o h = absurd (ground arith)
IsOldest-lookup t k e ((j, d) ∷ m) o h = ground (arith, IsOldest-lookup t k e m o.1, eq_iff j k)

oldest_step :
    (fuel incoming : ℕ) (s : BlobStore) (i : BlobKey) (c : Entry) (j k : BlobKey) (d e : Entry)
    → IsMap s.inner
    → Assoc.lookup j s.inner ≡ some d
    → oldest s.inner ≡ some (i, c)
    → Assoc.lookup k (evict_loop fuel incoming (remove i s)).inner ≡ some e
    → (Assoc.lookup j (remove i s).inner ≡ some d → d.inserted_at ≤ e.inserted_at)
    → d.inserted_at ≤ e.inserted_at
oldest_step fuel incoming s i c j k d e v was n kept rest =
    let below : Assoc.lookup k (remove i s).inner ≡ some e =
      evict_loop-IsWithin fuel incoming (remove i s) k e kept in
    let still : Assoc.lookup k s.inner ≡ some e =
      ground (arith, below, inner-remove i s, lookup-remove i k s.inner) in
    elim (Bool-cases (i == j)) [
      | inl same ↦ ground (
        arith,
        same,
        eq_iff i j,
        lookup-oldest s.inner i c v n,
        IsOldest-lookup c.inserted_at k e s.inner (oldest-IsOldest s.inner i c n) still,
      )
      | inr other ↦ rest (ground (arith, other, inner-remove i s, lookup-remove i j s.inner))
    ]

-- Under pressure the oldest go first: no entry that the loop drops is younger than one it keeps.
pub evict_loop-oldest_first :
    (fuel incoming : ℕ) (s : BlobStore) (j k : BlobKey) (d e : Entry)
    → IsMap s.inner
    → Assoc.lookup j s.inner ≡ some d
    → Assoc.lookup j (evict_loop fuel incoming s).inner ≡ none
    → Assoc.lookup k (evict_loop fuel incoming s).inner ≡ some e
    → d.inserted_at ≤ e.inserted_at
unfolding evict_loop
evict_loop-oldest_first zero incoming s j k d e v was gone kept = absurd (ground arith)
evict_loop-oldest_first (suc fuel) incoming s j k d e v was gone kept =
    elim (Bool-cases (over_budget incoming s)) [
      | inr fits ↦ absurd (ground (arith, fits))
      | inl full ↦ elim (Option-cases (oldest s.inner)) [
        | inl n ↦ absurd (ground (arith, full, n))
        | inr ((i, c), n) ↦
            let kept' : Assoc.lookup k (evict_loop fuel incoming (remove i s)).inner ≡ some e =
              ground (arith, full, n, kept) in
            let gone' : Assoc.lookup j (evict_loop fuel incoming (remove i s)).inner ≡ none =
              ground (arith, full, n, gone) in
            oldest_step fuel incoming s i c j k d e v was n kept' (λ h.
              evict_loop-oldest_first fuel incoming (remove i s) j k d e (inner-remove-IsMap i s v)
                h gone' kept')
      ]
    ]
