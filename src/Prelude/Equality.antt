-- ===== src/Prelude/Equality.antt =====
-- Rust's `PartialEq` as an interface: a Boolean test that decides equality.
use Prim.Native.Nat.{ℕ}
use mathlib.Core.Path.{◌≡◌, refl}
use mathlib.Core.Logic.{◌↔◌, ◌≢◌}
use mathlib.Core.Bool.{Bool, true, false, ◌&&◌}
use mathlib.Core.Option.{Option, none, some}
use mathlib.Core.List.{List, [], ◌∷◌}
use native.Mathlib.Omega.{arith}
use clip_bridge.Prelude.Tests.{nat_beq, nat_beq_iff}

pub record Eq {κ} (T : Type κ) : Type κ where
  pub beq : T → T → Bool
  pub beq_iff : (x y : T) → (beq x y ≡ true) ↔ (x ≡ y)

-- `abbrev`, so that the test computes to `compare`, which the tactics read.
instance abbrev pub nat_eq : Eq ℕ
nat_eq = record { beq = nat_beq; beq_iff = nat_beq_iff }

-- `PartialEq::eq` as an operator.
infix 50 ◌==◌
abbrev pub ◌==◌ {κ} : {T : Type κ} ⦃d : Eq T⦄ → T → T → Bool
◌==◌ ⦃d⦄ = d.beq

module _ {ℓ} {A : Type ℓ} ⦃e : Eq A⦄ where
  pub eq_iff : (a b : A) → ((a == b) ≡ true) ↔ (a ≡ b)
  eq_iff = e.beq_iff

  pub eq_refl : (a : A) → (a == a) ≡ true
  eq_refl a = (e.beq_iff a a).1 refl

  pub ne-eq : (a b : A) → a ≢ b → (a == b) ≡ false
  ne-eq a b h = ground (arith, e.beq_iff a b)

  pub eq_symm : (a b : A) → (a == b) ≡ (b == a)
  eq_symm a b = ground (arith, e.beq_iff a b, e.beq_iff b a)

  -- Equality of lists and of options, item by item.
  unfoldable pub list_beq : List A → List A → Bool
  list_beq [] [] = true
  list_beq (x ∷ xs) (y ∷ ys) = x == y && list_beq xs ys
  list_beq _ _ = false

  pub list_beq_iff : (xs ys : List A) → (list_beq xs ys ≡ true) ↔ (xs ≡ ys)
  unfolding list_beq
  list_beq_iff [] [] = ground arith
  list_beq_iff [] (y ∷ ys) = ground arith
  list_beq_iff (x ∷ xs) [] = ground arith
  list_beq_iff (x ∷ xs) (y ∷ ys) = ground (arith, e.beq_iff x y, list_beq_iff xs ys)

  unfoldable pub option_beq : Option A → Option A → Bool
  option_beq none none = true
  option_beq (some a) (some b) = a == b
  option_beq _ _ = false

  pub option_beq_iff : (x y : Option A) → (option_beq x y ≡ true) ↔ (x ≡ y)
  unfolding option_beq
  option_beq_iff none none = ground arith
  option_beq_iff none (some b) = ground arith
  option_beq_iff (some a) none = ground arith
  option_beq_iff (some a) (some b) = ground (arith, e.beq_iff a b)

instance abbrev pub list_eq {ℓ} : {A : Type ℓ} ⦃e : Eq A⦄ → Eq (List A)
list_eq = record { beq = list_beq; beq_iff = list_beq_iff }

instance abbrev pub option_eq {ℓ} : {A : Type ℓ} ⦃e : Eq A⦄ → Eq (Option A)
option_eq = record { beq = option_beq; beq_iff = option_beq_iff }
