-- ===== src/Prelude/Assoc.antt =====
-- A hash map as an association list. The order of the list stands for the order, unspecified, in
-- which the map iterates; no key occurs twice in a map that `IsMap` holds of.
use clip_bridge.Prelude.Tests.{if◌then◌else◌, Bool-cases}
use clip_bridge.Prelude.Equality.{Eq, ◌==◌, eq_refl}
use clip_bridge.Prelude.Lists.{length, All}
use Prim.Native.Nat.{◌+◌, ◌≤◌}
use mathlib.Core.Path.{◌≡◌, refl, subst, ap₂}
use mathlib.Core.Logic.{inl, inr}
use mathlib.Core.Bool.{Bool, true, false}
use mathlib.Core.Option.{Option, none, some}
use mathlib.Core.List.{List, [], ◌∷◌}
use native.Mathlib.Omega.{arith}

abbrev pub Assoc {ℓ κ} : Type ℓ → Type κ → Type (ℓ ⊔ κ)
Assoc K V = List (K × V)

abbrev pub is_some {ℓ} : {A : Type ℓ} → Option A → Bool
is_some none = false
is_some (some a) = true

module _ {ℓ κ} {K : Type ℓ} {V : Type κ} ⦃e : Eq K⦄ where
  unfoldable pub lookup : K → Assoc K V → Option V
  lookup k [] = none
  lookup k ((j, v) ∷ m) = if j == k then some v else lookup k m

  unfoldable pub remove : K → Assoc K V → Assoc K V
  remove k [] = []
  remove k ((j, v) ∷ m) = let rest = remove k m in if j == k then rest else (j, v) ∷ rest

  unfoldable pub insert : K → V → Assoc K V → Assoc K V
  insert k v m = (k, v) ∷ remove k m

  pub lookup-remove :
      (k j : K) (m : Assoc K V) → lookup j (remove k m) ≡ (if k == j then none else lookup j m)
  unfolding lookup remove
  lookup-remove k j [] = ground arith
  lookup-remove k j ((i, v) ∷ m) =
      ground (arith, lookup-remove k j m, e.beq_iff i k, e.beq_iff i j, e.beq_iff k j)

  pub lookup-insert :
      (k j : K) (v : V) (m : Assoc K V)
      → lookup j (insert k v m) ≡ (if k == j then some v else lookup j m)
  unfolding lookup insert
  lookup-insert k j v m = ground (arith, lookup-remove k j m)

  pub lookup-insert_self : (k : K) (v : V) (m : Assoc K V) → lookup k (insert k v m) ≡ some v
  lookup-insert_self k v m = ground (arith, lookup-insert k k v m, eq_refl k)

  abbrev pub IsMap : Assoc K V → Type κ
  IsMap [] = Unit
  IsMap ((k, v) ∷ m) = (lookup k m ≡ none) × IsMap m

  pub remove-IsMap : (k : K) (m : Assoc K V) → IsMap m → IsMap (remove k m)
  unfolding remove
  remove-IsMap k [] h = tt
  remove-IsMap k ((j, v) ∷ m) h = ground (arith, lookup-remove k j m, remove-IsMap k m h.1)

  pub insert-IsMap : (k : K) (v : V) (m : Assoc K V) → IsMap m → IsMap (insert k v m)
  unfolding insert
  insert-IsMap k v m h = ground (arith, lookup-remove k k m, eq_refl k, remove-IsMap k m h)

  pub length-remove : (k : K) (m : Assoc K V) → length (remove k m) ≤ length m
  unfolding remove
  length-remove k [] = omega arith
  length-remove k ((j, v) ∷ m) = ground (arith, length-remove k m)

  pub remove_missing : (k : K) (m : Assoc K V) → lookup k m ≡ none → remove k m ≡ m
  unfolding remove lookup
  remove_missing k [] h = refl
  remove_missing k ((j, v) ∷ m) h = ground (arith, remove_missing k m)

  pub length-remove_found :
      (k : K) (v : V) (m : Assoc K V)
      → IsMap m
      → lookup k m ≡ some v
      → length (remove k m) + 1 ≡ length m
  unfolding remove lookup
  length-remove_found k v [] d h = absurd (ground arith)
  length-remove_found k v ((j, w) ∷ m) d h =
      ground (arith, length-remove_found k v m d.1, remove_missing k m, e.beq_iff j k)

  pub All-remove {μ} : (P : K × V → Type μ) (k : K) (m : Assoc K V) → All P m → All P (remove k m)
  unfolding remove
  All-remove P k [] h = tt
  All-remove P k ((j, v) ∷ m) h = ground (arith, All-remove P k m h.1)

  pub All-lookup {μ} :
      (P : K × V → Type μ) (k : K) (v : V) (m : Assoc K V)
      → All P m
      → lookup k m ≡ some v
      → P (k, v)
  unfolding lookup
  All-lookup P k v [] h found = absurd (ground arith)
  All-lookup P k v ((j, w) ∷ m) h found = elim (Bool-cases (j == k)) [
    | inl same ↦
        let key : j ≡ k = (e.beq_iff j k).0 same in
        let value : w ≡ v = ground arith in subst P (ap₂ (λ (a : K) (b : V). (a, b)) key value) h.0
    | inr other ↦ All-lookup P k v m h.1 (ground arith)
  ]

  -- What removing a key leaves has other keys.
  pub All-remove_other {μ} :
      (P : K × V → Type μ) (k : K) (m : Assoc K V)
      → All P m
      → All (λ e. P e × ((e.0 == k) ≡ false)) (remove k m)
  unfolding remove
  All-remove_other P k [] all = tt
  All-remove_other P k ((j, v) ∷ m) all = elim (Bool-cases (j == k)) [
    | inl same ↦ rw same (All-remove_other P k m all.1)
    | inr other ↦ rw other ((all.0, other), All-remove_other P k m all.1)
  ]
