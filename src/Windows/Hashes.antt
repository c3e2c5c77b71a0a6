-- ===== src/Windows/Hashes.antt =====
-- The set of recent image hashes of clients/windows/src/bridge.rs: `remember_hash`.
use clip_bridge.Windows.{hash_cap, remove_hash, remember_hash}
use clip_bridge.Prelude.{
  ℕ, zero, suc, ◌+◌, ◌-◌, ◌≤◌, ◌≡◌, refl, sym, subst, Bool, true, false, List, [], ◌∷◌, ◌++◌, arith,
  ◌==◌, eq_iff, eq_refl, list_eq, nat_eq, option_eq, length, drop, length-append, contains,
  Distinct, Text, if_both, if_given, length-drop, contains-append, Distinct-append_one,
}

-- No hash twice, and no more than the cap.
pub record IsLru (q : List Text) : Type 0 where
  pub distinct : Distinct q
  pub bounded : length q ≤ hash_cap

remove_hash-absent :
    (hash k : Text) (q : List Text) → contains q k ≡ false → contains (remove_hash hash q) k ≡ false
unfolding remove_hash contains
remove_hash-absent hash k [] h = refl
remove_hash-absent hash k (x ∷ q) h =
    if_both (λ (l : List Text). contains l k ≡ false) (x == hash) _ _ (ground (arith, h))
      (ground (arith, h, remove_hash-absent hash k q (ground (arith, h))))

remove_hash-Distinct : (hash : Text) (q : List Text) → Distinct q → Distinct (remove_hash hash q)
unfolding remove_hash
remove_hash-Distinct hash [] d = tt
remove_hash-Distinct hash (x ∷ q) d =
    if_both (λ (l : List Text). Distinct l) (x == hash) _ _ d.1
      (remove_hash-absent hash x q d.0, remove_hash-Distinct hash q d.1)

remove_hash-gone :
    (hash : Text) (q : List Text) → Distinct q → contains (remove_hash hash q) hash ≡ false
unfolding remove_hash contains
remove_hash-gone hash [] d = refl
remove_hash-gone hash (x ∷ q) d =
    if_given (λ (l : List Text). contains l hash ≡ false) (x == hash) _ _
      (λ same. subst (λ y. contains q y ≡ false) ((eq_iff x hash).0 same) d.0)
      (λ other. ground (arith, other, remove_hash-gone hash q d.1))

length-remove_hash :
    (hash : Text) (q : List Text)
    → contains q hash ≡ true
    → length (remove_hash hash q) + 1 ≡ length q
unfolding remove_hash contains
length-remove_hash hash [] h = absurd (ground (arith, h))
length-remove_hash hash (x ∷ q) h =
    if_given (λ (l : List Text). length l + 1 ≡ suc (length q)) (x == hash) _ _
      (λ same. omega arith)
      (λ other. omega (arith, length-remove_hash hash q (ground (arith, h, other))))

drop-absent :
    (n : ℕ) (k : Text) (q : List Text) → contains q k ≡ false → contains (drop n q) k ≡ false
unfolding contains
drop-absent zero k q h = h
drop-absent (suc n) k [] h = refl
drop-absent (suc n) k (x ∷ q) h = drop-absent n k q (ground (arith, h))

drop-Distinct : (n : ℕ) (q : List Text) → Distinct q → Distinct (drop n q)
drop-Distinct zero q d = d
drop-Distinct (suc n) [] d = tt
drop-Distinct (suc n) (x ∷ q) d = drop-Distinct n q d.1

drop-keeps_last :
    (n : ℕ) (k : Text) (q : List Text) → n ≤ length q → contains (drop n (q ++ k ∷ [])) k ≡ true
unfolding contains
drop-keeps_last zero k q h = ground (arith, contains-append q (k ∷ []) k, eq_refl k)
drop-keeps_last (suc n) k [] h = absurd (omega arith)
drop-keeps_last (suc n) k (x ∷ q) h = drop-keeps_last n k q (omega arith)

-- Remembering a hash keeps the set within its cap and without a double, leaves the hash in it, and
-- answers whether it was there before.
pub remember_hash-IsLru :
    (hash : Text) (q : List Text)
    → IsLru q
    → IsLru (remember_hash hash q).1
      × (contains (remember_hash hash q).1 hash ≡ true)
      × ((remember_hash hash q).0 ≡ contains q hash)
unfolding remember_hash
remember_hash-IsLru hash q v =
    if_given
      (λ (r : Bool × List Text). IsLru r.1 × (contains r.1 hash ≡ true) × (r.0 ≡ contains q hash))
      (contains q hash) _ _
      (λ known. (
        record {
          distinct =
              Distinct-append_one (remove_hash hash q) hash (remove_hash-Distinct hash q v.distinct)
                (remove_hash-gone hash q v.distinct);
          bounded = omega (
            arith,
            length-append (remove_hash hash q) (hash ∷ []),
            length-remove_hash hash q known,
            v.bounded,
          );
        },
        drop-keeps_last 0 hash (remove_hash hash q) (omega arith),
        sym known,
      ))
      (λ new. (
        record {
          distinct =
              drop-Distinct (length (q ++ hash ∷ []) - hash_cap) (q ++ hash ∷ [])
                (Distinct-append_one q hash v.distinct new);
          bounded =
              omega (arith, length-drop (length (q ++ hash ∷ []) - hash_cap) (q ++ hash ∷ []));
        },
        drop-keeps_last (length (q ++ hash ∷ []) - hash_cap) hash q
            (omega (arith, length-append q (hash ∷ []))),
        sym new,
      ))

-- Without the invariant: the hash is there, and a second time it is known.
pub remember_hash-contains :
    (hash : Text) (q : List Text) → contains (remember_hash hash q).1 hash ≡ true
unfolding remember_hash
remember_hash-contains hash q =
    if_both (λ (r : Bool × List Text). contains r.1 hash ≡ true) (contains q hash) _ _
      (drop-keeps_last 0 hash (remove_hash hash q) (omega arith))
      (drop-keeps_last (length (q ++ hash ∷ []) - hash_cap) hash q
        (omega (arith, length-append q (hash ∷ []))))

pub remember_hash-known :
    (hash : Text) (q : List Text) → contains q hash ≡ true → (remember_hash hash q).0 ≡ true
unfolding remember_hash
remember_hash-known hash q h = rw h refl
