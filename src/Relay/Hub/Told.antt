-- ===== src/Relay/Hub/Told.antt =====
-- `push_egress` of relay/src/hub.rs device by device: what a connection is told of each.
use clip_bridge.Core.Net.{AddrText}
use clip_bridge.Core.Protocol.{LanPeer}
use clip_bridge.Prelude.Assoc
use clip_bridge.Prelude.Assoc.{Assoc, IsMap, lookup-insert}
use clip_bridge.Prelude.{
  ℕ, ◌≡◌, inl, inr, refl, ap, ◌∙◌, not, ◌||◌, Option, none, some, List, [], ◌∷◌, arith, ltb,
  if◌then◌else◌, ◌==◌, eq_iff, list_eq, nat_eq, option_eq, is_empty, Distinct, Text, Bool-cases,
  if_both,
}
use clip_bridge.Relay.Hub.{RvConn, Conns, note_latest, latest_by_device, peer_entries, snapshot}
use clip_bridge.Relay.Hub.Snapshots.{
  Latest, note_latest-IsMap, device_ids, sent, told, peer_entries_silent, peer_entries-told,
  peer_entries-Distinct,
}

-- Of two connections the one with the higher number.
unfoldable pub newer : Option (ℕ × RvConn) → Option (ℕ × RvConn) → Option (ℕ × RvConn)
newer none b = b
newer (some a) none = some a
newer (some a) (some b) = if ltb a.0 b.0 then some b else some a

-- The connection of a device, other than the receiver's own, that has the highest number.
unfoldable pub newest : ℕ → Text → Conns → Option (ℕ × RvConn)
newest cid did [] = none
newest cid did ((n, c) ∷ conns) =
    let rest = newest cid did conns in
    if n == cid || not (c.device_id == did) then rest else newer (some (n, c)) rest

newer_assoc : (a b c : Option (ℕ × RvConn)) → newer (newer a b) c ≡ newer a (newer b c)
unfolding newer
newer_assoc none b c = refl
newer_assoc (some a) none c = refl
newer_assoc (some a) (some b) none = ground arith
newer_assoc (some a) (some b) (some c) = ground arith

lookup-note_latest :
    (did : Text) (oid : ℕ) (oc : RvConn) (m : Latest)
    → Assoc.lookup did (note_latest oid oc m) ≡ (
        if oc.device_id == did
        then newer (Assoc.lookup did m) (some (oid, oc))
        else Assoc.lookup did m)
unfolding note_latest newer
lookup-note_latest did oid oc m =
    ground (arith, lookup-insert oc.device_id did (oid, oc) m, eq_iff oc.device_id did)

lookup-latest_by_device :
    (cid : ℕ) (did : Text) (conns : Conns) (m : Latest)
    → Assoc.lookup did (latest_by_device cid conns m)
      ≡ newer (Assoc.lookup did m) (newest cid did conns)
unfolding latest_by_device newest newer
lookup-latest_by_device cid did [] m = ground arith
lookup-latest_by_device cid did ((n, c) ∷ conns) m = elim (Bool-cases (n == cid)) [
  | inl own ↦ rw own (lookup-latest_by_device cid did conns m)
  | inr other ↦ rw other (
      lookup-latest_by_device cid did conns (note_latest n c m)
      ∙ ap (λ x. newer x (newest cid did conns)) (lookup-note_latest did n c m)
      ∙ elim (Bool-cases (c.device_id == did)) [
        | inl mine ↦ rw mine (newer_assoc (Assoc.lookup did m) (some (n, c)) (newest cid did conns))
        | inr theirs ↦ rw theirs refl
      ])
]

latest_by_device-IsMap :
    (cid : ℕ) (conns : Conns) (m : Latest) → IsMap m → IsMap (latest_by_device cid conns m)
unfolding latest_by_device
latest_by_device-IsMap cid [] m h = h
latest_by_device-IsMap cid ((n, c) ∷ conns) m h =
    latest_by_device-IsMap cid conns (if n == cid then m else note_latest n c m)
      (if_both IsMap (n == cid) _ _ h (note_latest-IsMap n c m h))

-- The entry of a device in a snapshot.
unfoldable pub entry_of : Text → List LanPeer → Option LanPeer
entry_of did [] = none
entry_of did (p ∷ peers) =
    let rest = entry_of did peers in if p.device_id == did then some p else rest

module _ (t : AddrText) where
  -- What is told of a connection that was chosen: nothing if no candidate may be forwarded.
  unfoldable pub telling : RvConn → Text → Option (ℕ × RvConn) → Option LanPeer
  telling c did chosen = elim chosen [
    | none ↦ none
    | some x ↦ if is_empty (sent t c x.1) then none else some (told t c did x.1)
  ]

  entry_of-peer_entries :
      (c : RvConn) (did : Text) (m : Latest)
      → IsMap m
      → entry_of did (peer_entries t c m) ≡ telling c did (Assoc.lookup did m)
  unfolding entry_of peer_entries telling Assoc.lookup
  entry_of-peer_entries c did [] h = refl
  entry_of-peer_entries c did ((d, (n, peer)) ∷ m) h =
      let rest = entry_of-peer_entries c did m h.1 in
      elim (Bool-cases (is_empty (sent t c peer))) [
        | inl none_left ↦
            ap (entry_of did) (peer_entries_silent t c d n peer m none_left)
            ∙ ground (arith, rest, none_left, h.0, eq_iff d did)
        | inr some_left ↦
            ap (entry_of did) (peer_entries-told t c d n peer m some_left)
            ∙ ground (arith, rest, some_left, eq_iff d did)
      ]

  entry_of-snapshot :
      (cid : ℕ) (c : RvConn) (conns : Conns) (did : Text)
      → entry_of did (snapshot t cid c conns)
        ≡ telling c did (Assoc.lookup did (latest_by_device cid conns []))
  unfolding snapshot
  entry_of-snapshot cid c conns did =
      entry_of-peer_entries c did (latest_by_device cid conns [])
        (latest_by_device-IsMap cid conns [] tt)

  -- A snapshot tells of a device exactly if there is a connection of it other than the receiver's,
  -- and a candidate of the one with the highest number may be forwarded; it tells the name and these
  -- candidates of that connection. It names no device twice.
  pub snapshot-newest :
      (cid : ℕ) (c : RvConn) (conns : Conns) (did : Text)
      → (entry_of did (snapshot t cid c conns) ≡ telling c did (newest cid did conns))
        × Distinct (device_ids (snapshot t cid c conns))
  unfolding snapshot newer Assoc.lookup
  snapshot-newest cid c conns did = (
    entry_of-snapshot cid c conns did
        ∙ ap (telling c did) (lookup-latest_by_device cid did conns []),
    peer_entries-Distinct t c (latest_by_device cid conns [])
        (latest_by_device-IsMap cid conns [] tt),
  )
