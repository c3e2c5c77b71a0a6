-- ===== src/Relay/Hub/Snapshots.antt =====
-- `push_egress`: what each connection of an egress address is told about the others.
use clip_bridge.Core.Net.{AddrText}
use clip_bridge.Core.Protocol.{LanPeer}
use clip_bridge.Relay.Candidates.{candidates_for_receiver}
use clip_bridge.Prelude.Assoc
use clip_bridge.Prelude.Assoc.{
  Assoc, IsMap, is_some, lookup-remove, lookup-insert, lookup-insert_self, remove-IsMap,
  insert-IsMap, All-remove, All-lookup, length-remove, remove_missing, length-remove_found,
}
use clip_bridge.Prelude.{
  ℕ, ◌≤◌, ◌≡◌, ◌≢◌, inl, inr, refl, true, false, none, some, List, [], ◌∷◌, map, arith, ltb,
  if◌then◌else◌, ◌==◌, eq_iff, eq_refl, list_eq, nat_eq, option_eq, is_empty, All, contains,
  Distinct, Text, Bool-cases, Option-cases,
}
use clip_bridge.Relay.Hub.{RvConn, Conns, note_latest, latest_by_device, peer_entry, peer_entries}

abbrev pub Latest : Type 0
Latest = Assoc Text (ℕ × RvConn)

-- The entry of a device is at least as new as `j`.
abbrev AtLeast : ℕ → Text → Latest → Type 0
AtLeast j did m = (n : ℕ) × (c : RvConn) × (Assoc.lookup did m ≡ some (n, c)) × (j ≤ n)

note_latest-AtLeast_self :
    (oid : ℕ) (oc : RvConn) (m : Latest) → AtLeast oid oc.device_id (note_latest oid oc m)
unfolding note_latest
note_latest-AtLeast_self oid oc m = elim (Option-cases (Assoc.lookup oc.device_id m)) [
  | inl e ↦
      (oid, oc, rw (e, note_latest) (lookup-insert_self oc.device_id (oid, oc) m), omega arith)
  | inr ((n, c), e) ↦ elim (Bool-cases (ltb n oid)) [
    | inl newer ↦ (
      oid,
      oc,
      rw (e, note_latest) (rw newer (lookup-insert_self oc.device_id (oid, oc) m)),
      omega arith,
    )
    | inr older ↦ (n, c, rw (e, note_latest) (rw older e), ground (arith, older))
  ]
]

note_latest-AtLeast :
    (j oid : ℕ) (did : Text) (oc : RvConn) (m : Latest)
    → AtLeast j did m
    → AtLeast j did (note_latest oid oc m)
unfolding note_latest
note_latest-AtLeast j oid did oc m (n, c, found, le) =
    elim (Option-cases (Assoc.lookup oc.device_id m)) [
      | inl e ↦ (
        n,
        c,
        rw (e, note_latest)
            (ground
              (arith, found, lookup-insert oc.device_id did (oid, oc) m, eq_iff oc.device_id did)),
        le,
      )
      | inr ((k, x), e) ↦ elim (Bool-cases (ltb k oid)) [
        | inr older ↦ (n, c, rw (e, note_latest) (rw older found), le)
        | inl newer ↦ elim (Bool-cases (oc.device_id == did)) [
          | inl same ↦ (
            oid,
            oc,
            rw (e, note_latest)
                (rw newer (ground (arith, lookup-insert oc.device_id did (oid, oc) m))),
            ground (arith, newer, e, found, eq_iff oc.device_id did),
          )
          | inr other ↦ (
            n,
            c,
            rw (e, note_latest)
                (rw newer (ground (arith, found, lookup-insert oc.device_id did (oid, oc) m))),
            le,
          )
        ]
      ]
    ]

latest-AtLeast :
    (j cid : ℕ) (did : Text) (conns : Conns) (m : Latest)
    → AtLeast j did m
    → AtLeast j did (latest_by_device cid conns m)
unfolding latest_by_device
latest-AtLeast j cid did [] m h = h
latest-AtLeast j cid did ((oid, oc) ∷ conns) m h = elim (Bool-cases (oid == cid)) [
  | inl self ↦ rw self (latest-AtLeast j cid did conns m h)
  | inr other ↦
      rw other (
        latest-AtLeast j cid did conns (note_latest oid oc m)
          (note_latest-AtLeast j oid did oc m h))
]

latest_complete :
    (j cid : ℕ) (x : RvConn) (conns : Conns) (m : Latest)
    → Assoc.lookup j conns ≡ some x
    → j ≢ cid
    → AtLeast j x.device_id (latest_by_device cid conns m)
unfolding latest_by_device Assoc.lookup
latest_complete j cid x [] m found ne = absurd (ground arith)
latest_complete j cid x ((oid, oc) ∷ conns) m found ne = elim (Bool-cases (oid == j)) [
  | inr other ↦
      latest_complete j cid x conns (if oid == cid then m else note_latest oid oc m)
        (ground (arith, found, other)) ne
  | inl same ↦
      let id : oid ≡ j = (eq_iff oid j).0 same in
      let conn : oc ≡ x = ground (arith, found, same) in
      let not_self : (oid == cid) ≡ false = ground (arith, ne) in
      rw (not_self, ← id, ← conn)
        (latest-AtLeast oid cid oc.device_id conns (note_latest oid oc m)
          (note_latest-AtLeast_self oid oc m))
]

-- An entry stands for a connection, not the receiver's own, of the device that it is filed under.
abbrev pub IsEntry : ℕ → Conns → Text × (ℕ × RvConn) → Type 0
IsEntry cid all (did, (n, c)) = (Assoc.lookup n all ≡ some c) × (n ≢ cid) × (c.device_id ≡ did)

note_latest-IsEntry :
    (cid oid : ℕ) (all : Conns) (oc : RvConn) (m : Latest)
    → Assoc.lookup oid all ≡ some oc
    → (oid == cid) ≡ false
    → All (IsEntry cid all) m
    → All (IsEntry cid all) (note_latest oid oc m)
unfolding note_latest Assoc.insert
note_latest-IsEntry cid oid all oc m here ne h =
    let entry : IsEntry cid all (oc.device_id, (oid, oc)) = (here, ground (arith, ne), refl) in
    let added : All (IsEntry cid all) (Assoc.insert oc.device_id (oid, oc) m) =
      (entry, All-remove (IsEntry cid all) oc.device_id m h) in
    elim (Option-cases (Assoc.lookup oc.device_id m)) [
      | inl e ↦ rw (e, note_latest) added
      | inr ((n, c), e) ↦ elim (Bool-cases (ltb n oid)) [
        | inl newer ↦ rw (e, note_latest) (rw newer added)
        | inr older ↦ rw (e, note_latest) (rw older h)
      ]
    ]

pub note_latest-IsMap :
    (oid : ℕ) (oc : RvConn) (m : Latest) → IsMap m → IsMap (note_latest oid oc m)
unfolding note_latest
note_latest-IsMap oid oc m h = ground (arith, insert-IsMap oc.device_id (oid, oc) m h)

-- `rest` is what the loop has still to visit of `all`.
abbrev IsPart : Conns → Conns → Type 0
IsPart all [] = Unit
IsPart all ((n, c) ∷ rest) = (Assoc.lookup n all ≡ some c) × IsPart all rest

latest-IsEntry :
    (cid : ℕ) (all rest : Conns) (m : Latest)
    → IsPart all rest
    → IsMap m
    → All (IsEntry cid all) m
    → IsMap (latest_by_device cid rest m) × All (IsEntry cid all) (latest_by_device cid rest m)
unfolding latest_by_device
latest-IsEntry cid all [] m part keyed h = (keyed, h)
latest-IsEntry cid all ((oid, oc) ∷ rest) m part keyed h = elim (Bool-cases (oid == cid)) [
  | inl self ↦ rw self (latest-IsEntry cid all rest m part.1 keyed h)
  | inr other ↦ rw other (
      latest-IsEntry cid all rest (note_latest oid oc m) part.1 (note_latest-IsMap oid oc m keyed)
        (note_latest-IsEntry cid oid all oc m part.0 other h))
]

IsPart-of_self :
    (all seen : Conns)
    → IsMap all
    → ((n : ℕ) (c : RvConn) → Assoc.lookup n all ≡ some c → Assoc.lookup n seen ≡ some c)
    → IsPart seen all
unfolding Assoc.lookup
IsPart-of_self [] seen d h = tt
IsPart-of_self ((n, c) ∷ all) seen d h = (
  h n c (ground (arith, eq_refl n)),
  IsPart-of_self all seen d.1 (λ j x found. h j x (ground (arith, d.0, found, eq_iff n j))),
)

-- For each other connection of the receiver's egress address the scan files under its device the
-- connection of that device, other than the receiver's own, that has the highest number.
pub latest_by_device-highest :
    (cid j : ℕ) (conns : Conns) (x : RvConn)
    → IsMap conns
    → Assoc.lookup j conns ≡ some x
    → j ≢ cid
    → (n : ℕ) × (c : RvConn) × (Assoc.lookup x.device_id (latest_by_device cid conns [])
        ≡ some (n, c))
      × (j ≤ n)
      × (Assoc.lookup n conns ≡ some c)
      × (n ≢ cid)
      × (c.device_id ≡ x.device_id)
latest_by_device-highest cid j conns x d found ne =
    let (n, c, filed, le) = latest_complete j cid x conns [] found ne in
    let part = IsPart-of_self conns conns d (λ k y f. f) in
    let entries = (latest-IsEntry cid conns conns [] part tt tt).1 in
    let entry =
      All-lookup (IsEntry cid conns) x.device_id (n, c) (latest_by_device cid conns []) entries
        filed in
    (n, c, filed, le, entry.0, entry.1, entry.2)

abbrev pub device_ids : List LanPeer → List Text
device_ids = map λ p. p.device_id

module _ (t : AddrText) where
  -- The candidates that a receiver is told of, and the entry that tells of them.
  abbrev pub sent : RvConn → RvConn → List Text
  sent c peer =
      candidates_for_receiver t c.candidate_networks peer.candidates peer.candidate_networks

  abbrev pub told : RvConn → Text → RvConn → LanPeer
  told c did peer = record {
    device_id = did;
    device_name = peer.device_name;
    candidates = sent c peer;
  }

  pub peer_entries_silent :
      (c : RvConn) (did : Text) (n : ℕ) (peer : RvConn) (m : Latest)
      → is_empty (sent c peer) ≡ true
      → peer_entries t c ((did, (n, peer)) ∷ m) ≡ peer_entries t c m
  unfolding peer_entries peer_entry
  peer_entries_silent c did n peer m h = ground (arith, h)

  pub peer_entries-told :
      (c : RvConn) (did : Text) (n : ℕ) (peer : RvConn) (m : Latest)
      → is_empty (sent c peer) ≡ false
      → peer_entries t c ((did, (n, peer)) ∷ m) ≡ told c did peer ∷ peer_entries t c m
  unfolding peer_entries peer_entry
  peer_entries-told c did n peer m h = ground (arith, h)

  peer_entries-contains :
      (c : RvConn) (did : Text) (m : Latest)
      → Assoc.lookup did m ≡ none
      → contains (device_ids (peer_entries t c m)) did ≡ false
  unfolding peer_entries peer_entry Assoc.lookup contains
  peer_entries-contains c did [] h = refl
  peer_entries-contains c did ((d, (n, peer)) ∷ m) h = elim (Bool-cases (d == did)) [
    | inl same ↦ absurd (ground (arith, same, h))
    | inr other ↦
        let rest = peer_entries-contains c did m (ground (arith, other, h)) in
        elim (Bool-cases (is_empty (sent c peer))) [
          | inl none_left ↦ rw (peer_entries_silent c d n peer m none_left) rest
          | inr some_left ↦ rw (peer_entries-told c d n peer m some_left, contains) (rw other rest)
        ]
  ]

  pub peer_entries-Distinct :
      (c : RvConn) (m : Latest) → IsMap m → Distinct (device_ids (peer_entries t c m))
  unfolding peer_entries peer_entry
  peer_entries-Distinct c [] h = tt
  peer_entries-Distinct c ((d, (n, peer)) ∷ m) h = elim (Bool-cases (is_empty (sent c peer))) [
    | inl none_left ↦
        rw (peer_entries_silent c d n peer m none_left) (peer_entries-Distinct c m h.1)
    | inr some_left ↦
        rw (peer_entries-told c d n peer m some_left)
          (peer_entries-contains c d m h.0, peer_entries-Distinct c m h.1)
  ]
