-- ===== src/Core/Lan/Node/DialKeys.antt =====
-- The names of the outbound tasks of a LAN node (core/src/lan.rs), as its tasks come and go.
use clip_bridge.Core.Lan.Node.{PeerTask, Keys, contains_key}
use clip_bridge.Prelude.Assoc
use clip_bridge.Prelude.Assoc.{
  Assoc, IsMap, is_some, lookup-remove, lookup-insert, lookup-insert_self, remove-IsMap,
  insert-IsMap, All-remove, All-lookup, length-remove, remove_missing, length-remove_found,
}
use clip_bridge.Prelude.{
  ℕ, ◌≡◌, inl, inr, refl, subst, Bool, true, false, not, ◌&&◌, ◌||◌, none, some, List, [], ◌∷◌,
  arith, ◌==◌, eq_iff, eq_refl, eq_symm, list_eq, nat_eq, option_eq, All, contains, Distinct, Text,
  Bool-cases, if_both,
}

unfoldable pub add_if : Bool → Text → List Text → List Text
add_if true k ks = k ∷ ks
add_if false k ks = ks

-- The names of the outbound tasks.
unfoldable pub dial_keys : Assoc ℕ PeerTask → List Text
dial_keys [] = []
dial_keys ((i, t) ∷ tasks) = add_if (is_some t.dial) t.registry_key (dial_keys tasks)

pub All-contains :
    (p : Text → Bool) (k : Text) (ks : List Text)
    → All (λ j. p j ≡ true) ks
    → p k ≡ false
    → contains ks k ≡ false
unfolding contains
All-contains p k [] all h = refl
All-contains p k (j ∷ ks) all h = elim (Bool-cases (j == k)) [
  | inl same ↦ absurd (ground (arith, subst (λ i. p i ≡ true) ((eq_iff j k).0 same) all.0, h))
  | inr other ↦ ground (arith, other, All-contains p k ks all.1 h)
]

-- What holds of the items holds of them together with the fact that none is `k`.
pub All-absent :
    (p : Text → Bool) (k : Text) (ks : List Text)
    → All (λ j. p j ≡ true) ks
    → contains ks k ≡ false
    → All (λ j. (p j ≡ true) × ((j == k) ≡ false)) ks
unfolding contains
All-absent p k [] all h = tt
All-absent p k (j ∷ ks) all h =
    ((all.0, ground (arith, h)), All-absent p k ks all.1 (ground (arith, h)))

pub contains_key-remove :
    (k j : Text) (m : Keys)
    → contains_key j m ≡ true
    → (j == k) ≡ false
    → contains_key j (Assoc.remove k m) ≡ true
unfolding contains_key
contains_key-remove k j m h ne = ground (arith, lookup-remove k j m, h, ne, eq_symm j k)

pub contains_key-insert :
    (k j : Text) (m : Keys) → contains_key j m ≡ true → contains_key j (Assoc.insert k tt m) ≡ true
unfolding contains_key
contains_key-insert k j m h = ground (arith, lookup-insert k j tt m, h)

-- What holds of an item of the list.
pub All-has :
    (p : Text → Bool) (k : Text) (ks : List Text)
    → All (λ j. p j ≡ true) ks
    → contains ks k ≡ true
    → p k ≡ true
All-has p k ks all h = elim (Bool-cases (p k)) [
  | inl holds ↦ holds
  | inr fails ↦ absurd (ground (arith, All-contains p k ks all fails, h))
]

pub All-intro {κ} :
    (P : Text → Type κ) (b : Bool) (k : Text) (ks : List Text)
    → (b ≡ true → P k)
    → All P ks
    → All P (add_if b k ks)
unfolding add_if
All-intro P true k ks h all = (h refl, all)
All-intro P false k ks h all = all

pub Distinct-intro :
    (b : Bool) (k : Text) (ks : List Text)
    → (b ≡ true → contains ks k ≡ false)
    → Distinct ks
    → Distinct (add_if b k ks)
unfolding add_if
Distinct-intro true k ks h d = (h refl, d)
Distinct-intro false k ks h d = d

add_if-tail {κ} :
    (P : Text → Type κ) (b : Bool) (k : Text) (ks : List Text) → All P (add_if b k ks) → All P ks
unfolding add_if
add_if-tail P true k ks all = all.1
add_if-tail P false k ks all = all

add_if-swap {κ} :
    (P : Text → Type κ) (b : Bool) (k : Text) (ks js : List Text)
    → All P (add_if b k ks)
    → All P js
    → All P (add_if b k js)
unfolding add_if
add_if-swap P true k ks js all new = (all.0, new)
add_if-swap P false k ks js all new = new

contains-add_if :
    (b : Bool) (k j : Text) (ks : List Text)
    → contains (add_if b k ks) j ≡ (b && k == j || contains ks j)
unfolding add_if contains
contains-add_if true k j ks = refl
contains-add_if false k j ks = refl

Distinct-add_if :
    (b : Bool) (k : Text) (ks js : List Text)
    → Distinct (add_if b k ks)
    → (contains ks k ≡ false → contains js k ≡ false)
    → Distinct js
    → Distinct (add_if b k js)
unfolding add_if
Distinct-add_if true k ks js d less new = (less d.0, new)
Distinct-add_if false k ks js d less new = new

Distinct-tail : (b : Bool) (k : Text) (ks : List Text) → Distinct (add_if b k ks) → Distinct ks
unfolding add_if
Distinct-tail true k ks d = d.1
Distinct-tail false k ks d = d

Distinct-head :
    (b : Bool) (k : Text) (ks : List Text)
    → b ≡ true
    → Distinct (add_if b k ks)
    → contains ks k ≡ false
unfolding add_if
Distinct-head true k ks h d = d.0
Distinct-head false k ks h d = absurd (ground (arith, h))

pub dial_keys-remove-All {κ} :
    (P : Text → Type κ) (id : ℕ) (tasks : Assoc ℕ PeerTask)
    → All P (dial_keys tasks)
    → All P (dial_keys (Assoc.remove id tasks))
unfolding dial_keys Assoc.remove
dial_keys-remove-All P id [] all = tt
dial_keys-remove-All P id ((i, t) ∷ tasks) all =
    let rest =
      dial_keys-remove-All P id tasks
        (add_if-tail P (is_some t.dial) t.registry_key (dial_keys tasks) all) in
    if_both (λ (m : Assoc ℕ PeerTask). All P (dial_keys m)) (i == id) _ _ rest
      (add_if-swap P (is_some t.dial) t.registry_key (dial_keys tasks)
        (dial_keys (Assoc.remove id tasks)) all rest)

pub absent-All :
    (k : Text) (ks : List Text) → contains ks k ≡ false → All (λ j. not (j == k) ≡ true) ks
unfolding contains
absent-All k [] h = tt
absent-All k (j ∷ ks) h = (ground (arith, h), absent-All k ks (ground (arith, h)))

dial_keys-remove_absent :
    (k : Text) (id : ℕ) (tasks : Assoc ℕ PeerTask)
    → contains (dial_keys tasks) k ≡ false
    → contains (dial_keys (Assoc.remove id tasks)) k ≡ false
dial_keys-remove_absent k id tasks h =
    All-contains (λ j. not (j == k)) k (dial_keys (Assoc.remove id tasks))
      (dial_keys-remove-All (λ j. not (j == k) ≡ true) id tasks (absent-All k (dial_keys tasks) h))
      (ground (arith, eq_refl k))

pub dial_keys-remove-Distinct :
    (id : ℕ) (tasks : Assoc ℕ PeerTask)
    → Distinct (dial_keys tasks)
    → Distinct (dial_keys (Assoc.remove id tasks))
unfolding dial_keys Assoc.remove
dial_keys-remove-Distinct id [] d = tt
dial_keys-remove-Distinct id ((i, t) ∷ tasks) d =
    let rest =
      dial_keys-remove-Distinct id tasks
        (Distinct-tail (is_some t.dial) t.registry_key (dial_keys tasks) d) in
    if_both (λ (m : Assoc ℕ PeerTask). Distinct (dial_keys m)) (i == id) _ _ rest
      (Distinct-add_if (is_some t.dial) t.registry_key (dial_keys tasks)
        (dial_keys (Assoc.remove id tasks)) d (dial_keys-remove_absent t.registry_key id tasks)
        rest)

pub dial_keys-lookup :
    (id : ℕ) (u : PeerTask) (tasks : Assoc ℕ PeerTask)
    → Assoc.lookup id tasks ≡ some u
    → is_some u.dial ≡ true
    → contains (dial_keys tasks) u.registry_key ≡ true
unfolding dial_keys Assoc.lookup
dial_keys-lookup id u [] h out = absurd (ground (arith, h))
dial_keys-lookup id u ((i, t) ∷ tasks) h out = elim (Bool-cases (i == id)) [
  | inl same ↦
      let v : t ≡ u = ground (arith, h, same) in
      rw v (
        ground (
          arith,
          contains-add_if (is_some u.dial) u.registry_key u.registry_key (dial_keys tasks),
          out,
          eq_refl u.registry_key,
        ))
  | inr other ↦ ground (
    arith,
    contains-add_if (is_some t.dial) t.registry_key u.registry_key (dial_keys tasks),
    dial_keys-lookup id u tasks (ground (arith, h, other)) out,
  )
]

other_key :
    (t u : PeerTask) (ks : List Text)
    → Distinct (add_if (is_some t.dial) t.registry_key ks)
    → contains ks u.registry_key ≡ true
    → (is_some t.dial && t.registry_key == u.registry_key) ≡ false
other_key t u ks d h = elim (Bool-cases (is_some t.dial && t.registry_key == u.registry_key)) [
  | inr other ↦ other
  | inl both ↦
      let same : t.registry_key ≡ u.registry_key =
        (eq_iff t.registry_key u.registry_key).0 (ground (arith, both)) in
      let absent = Distinct-head (is_some t.dial) t.registry_key ks (ground (arith, both)) d in
      absurd (ground (arith, subst (λ k. contains ks k ≡ false) same absent, h))
]

pub dial_keys-removed :
    (id : ℕ) (u : PeerTask) (tasks : Assoc ℕ PeerTask)
    → IsMap tasks
    → Assoc.lookup id tasks ≡ some u
    → is_some u.dial ≡ true
    → Distinct (dial_keys tasks)
    → contains (dial_keys (Assoc.remove id tasks)) u.registry_key ≡ false
unfolding dial_keys Assoc.lookup Assoc.remove
dial_keys-removed id u [] m h out d = absurd (ground (arith, h))
dial_keys-removed id u ((i, t) ∷ tasks) m h out d = elim (Bool-cases (i == id)) [
  | inl same ↦
      let e : i ≡ id = (eq_iff i id).0 same in
      let gone : Assoc.remove id tasks ≡ tasks =
        remove_missing id tasks (subst (λ j. Assoc.lookup j tasks ≡ none) e m.0) in
      let v : t ≡ u = ground (arith, h, same) in
      rw (same, gone)
        (Distinct-head (is_some u.dial) u.registry_key (dial_keys tasks) out (
          subst
            (λ (w : PeerTask). Distinct (add_if (is_some w.dial) w.registry_key (dial_keys tasks)))
            v d))
  | inr other ↦
      let found : Assoc.lookup id tasks ≡ some u = ground (arith, h, other) in
      rw other (
        ground (
          arith,
          contains-add_if (is_some t.dial) t.registry_key u.registry_key
              (dial_keys (Assoc.remove id tasks)),
          dial_keys-removed id u tasks m.1 found out
              (Distinct-tail (is_some t.dial) t.registry_key (dial_keys tasks) d),
          other_key t u (dial_keys tasks) d (dial_keys-lookup id u tasks found out),
        ))
]
