-- ===== src/Prelude/Retain.antt =====
-- Rust's `retain`, `any`, `contains`, and what it says that a list holds no item twice.
use Prim.Native.Nat.{◌≤◌}
use mathlib.Core.Path.{◌≡◌, refl}
use mathlib.Core.Bool.{Bool, true, false, ◌||◌}
use mathlib.Core.List.{List, [], ◌∷◌, ◌++◌}
use native.Mathlib.Omega.{arith}
use clip_bridge.Prelude.Tests.{if◌then◌else◌}
use clip_bridge.Prelude.Equality.{Eq, ◌==◌}
use clip_bridge.Prelude.Lists.{length, All}

module _ {ℓ} {A : Type ℓ} where
  unfoldable pub retain : (A → Bool) → List A → List A
  retain p [] = []
  retain p (x ∷ xs) = let rest = retain p xs in if p x then x ∷ rest else rest

  unfoldable pub any : (A → Bool) → List A → Bool
  any p [] = false
  any p (x ∷ xs) = p x || any p xs

  pub length-retain : (p : A → Bool) (xs : List A) → length (retain p xs) ≤ length xs
  unfolding retain
  length-retain p [] = omega arith
  length-retain p (x ∷ xs) = ground (arith, length-retain p xs)

  pub retain-append :
      (p : A → Bool) (xs ys : List A) → retain p (xs ++ ys) ≡ retain p xs ++ retain p ys
  unfolding retain
  retain-append p [] ys = refl
  retain-append p (x ∷ xs) ys = ground (arith, retain-append p xs ys)

  pub retain_all : (p : A → Bool) (xs : List A) → All (λ x. p x ≡ true) (retain p xs)
  unfolding retain
  retain_all p [] = tt
  retain_all p (x ∷ xs) = ground (arith, retain_all p xs)

  pub All-retain {κ} :
      (P : A → Type κ) (p : A → Bool) (xs : List A) → All P xs → All P (retain p xs)
  unfolding retain
  All-retain P p [] h = tt
  All-retain P p (x ∷ xs) h = ground (arith, All-retain P p xs h.1)

module _ {ℓ} {A : Type ℓ} ⦃e : Eq A⦄ where
  unfoldable pub contains : List A → A → Bool
  contains [] a = false
  contains (x ∷ xs) a = x == a || contains xs a

  abbrev pub Distinct : List A → Type 0
  Distinct [] = Unit
  Distinct (x ∷ xs) = (contains xs x ≡ false) × Distinct xs

  pub contains-append :
      (xs ys : List A) (a : A) → contains (xs ++ ys) a ≡ (contains xs a || contains ys a)
  unfolding contains
  contains-append [] ys a = refl
  contains-append (x ∷ xs) ys a = ground (arith, contains-append xs ys a)

  pub Distinct-append_one :
      (xs : List A) (a : A) → Distinct xs → contains xs a ≡ false → Distinct (xs ++ a ∷ [])
  unfolding contains
  Distinct-append_one [] a d h = (refl, tt)
  Distinct-append_one (x ∷ xs) a d h = ground (
    arith,
    Distinct-append_one xs a d.1,
    contains-append xs (a ∷ []) x,
    e.beq_iff x a,
    e.beq_iff a x,
  )
