-- ===== src/Relay/Hub/Slots.antt =====
-- Which connections a hub presents, as a map from group, egress address and connection number:
-- the specification that `rendezvous_upsert` and `rendezvous_remove` refine.
use clip_bridge.Core.Net.{IpAddr, ip_eq, AddrText}
use clip_bridge.Prelude.Assoc
use clip_bridge.Prelude.Assoc.{
  Assoc, IsMap, is_some, lookup-remove, lookup-insert, lookup-insert_self, remove-IsMap,
  insert-IsMap, All-remove, All-lookup, length-remove, remove_missing, length-remove_found,
}
use clip_bridge.Prelude.{
  ℕ, ◌≡◌, inl, inr, refl, ap, true, ◌&&◌, Option, none, some, List, [], ◌∷◌, map, arith,
  if◌then◌else◌, ◌==◌, eq_iff, eq_refl, list_eq, nat_eq, option_eq, is_empty, Text, Bool-cases,
  Option-cases,
}
use clip_bridge.Relay.Hub.{
  RvConn, Conns, Presence, Hub, group_of, with_group, or_default, upsert_presence, remove_presence,
  rendezvous_upsert, rendezvous_remove, push_egress, snapshots,
}
use clip_bridge.Relay.Hub.Recent.{group_of-with_group}

abbrev pub conns_at : IpAddr → Presence → Conns
conns_at egress p = or_default (Assoc.lookup egress p)

abbrev pub slot_in : IpAddr → ℕ → Presence → Option RvConn
slot_in egress conn_id p = Assoc.lookup conn_id (conns_at egress p)

abbrev pub slot : Text → IpAddr → ℕ → Hub → Option RvConn
slot g egress conn_id h = slot_in egress conn_id (group_of g h).presence

slot_in-upsert :
    (egress e : IpAddr) (conn_id n : ℕ) (c : RvConn) (p : Presence)
    → slot_in e n (upsert_presence egress conn_id c p)
      ≡ (if egress == e && conn_id == n then some c else slot_in e n p)
unfolding upsert_presence
slot_in-upsert egress e conn_id n c p = ground (
  arith,
  lookup-insert egress e (Assoc.insert conn_id c (conns_at egress p)) p,
  lookup-insert conn_id n c (conns_at egress p),
  eq_iff egress e,
)

upsert_here :
    (egress : IpAddr) (conn_id : ℕ) (c : RvConn) (p : Presence)
    → Assoc.lookup egress (upsert_presence egress conn_id c p)
      ≡ some (Assoc.insert conn_id c (conns_at egress p))
unfolding upsert_presence
upsert_here egress conn_id c p =
    lookup-insert_self egress (Assoc.insert conn_id c (conns_at egress p)) p

nothing_in_empty : (n : ℕ) (conns : Conns) → is_empty conns ≡ true → Assoc.lookup n conns ≡ none
unfolding Assoc.lookup
nothing_in_empty n [] h = refl
nothing_in_empty n (c ∷ conns) h = absurd (ground arith)

slot_in-remove :
    (egress e : IpAddr) (conn_id n : ℕ) (p : Presence)
    → slot_in e n (remove_presence egress conn_id p)
      ≡ (if egress == e && conn_id == n then none else slot_in e n p)
unfolding remove_presence Assoc.lookup
slot_in-remove egress e conn_id n p = elim (Option-cases (Assoc.lookup egress p)) [
  | inl missing ↦ ground (arith, missing, eq_iff egress e)
  | inr (conns, found) ↦
      let left = Assoc.remove conn_id conns in
      elim (Bool-cases (is_empty left)) [
        | inl gone ↦ ground (
          arith,
          found,
          gone,
          lookup-remove egress e p,
          eq_iff egress e,
          nothing_in_empty n left gone,
          lookup-remove conn_id n conns,
        )
        | inr stays ↦ ground (
          arith,
          found,
          stays,
          lookup-insert egress e left p,
          eq_iff egress e,
          lookup-remove conn_id n conns,
        )
      ]
]

module _ (t : AddrText) where
  -- Advertising sets the connection's own slot and leaves every other slot of the hub as it was:
  -- those of other groups, of other egress addresses and of other connections.
  pub slot-rendezvous_upsert :
      (g j : Text) (egress e : IpAddr) (conn_id n : ℕ) (c : RvConn) (h : Hub)
      → slot j e n (rendezvous_upsert t g egress conn_id c h).0
        ≡ (if g == j && (egress == e && conn_id == n) then some c else slot j e n h)
  unfolding rendezvous_upsert
  slot-rendezvous_upsert g j egress e conn_id n c h =
      let p = upsert_presence egress conn_id c (group_of g h).presence in
      ground (
        arith,
        group_of-with_group g j (record (group_of g h) { presence = p }) h,
        slot_in-upsert egress e conn_id n c (group_of g h).presence,
        eq_iff g j,
      )

  -- Closing empties the connection's slot in the group it names and leaves every other slot of the
  -- hub as it was.
  pub slot-rendezvous_remove :
      (g j : Text) (egress e : IpAddr) (conn_id n : ℕ) (h : Hub)
      → slot j e n (rendezvous_remove t g egress conn_id h).0
        ≡ (if g == j && (egress == e && conn_id == n) then none else slot j e n h)
  unfolding rendezvous_remove
  slot-rendezvous_remove g j egress e conn_id n h =
      let p = remove_presence egress conn_id (group_of g h).presence in
      ground (
        arith,
        group_of-with_group g j (record (group_of g h) { presence = p }) h,
        slot_in-remove egress e conn_id n (group_of g h).presence,
        eq_iff g j,
      )

  mailboxes-snapshots :
      (all conns : Conns) → map (λ r. r.0) (snapshots t all conns) ≡ map (λ r. (r.1).tx) conns
  unfolding snapshots
  mailboxes-snapshots all [] = refl
  mailboxes-snapshots all ((cid, c) ∷ conns) =
      ap (λ (l : List ℕ). c.tx ∷ l) (mailboxes-snapshots all conns)

  push_egress_found :
      (p : Presence) (egress : IpAddr) (conns : Conns)
      → Assoc.lookup egress p ≡ some conns
      → push_egress t p egress ≡ snapshots t conns conns
  unfolding push_egress
  push_egress_found p egress conns h = rw (h, push_egress)

  -- An advertisement sends one snapshot to each connection of the advertiser's group and egress
  -- address, itself among them, and to no other mailbox.
  pub mailboxes-rendezvous_upsert :
      (g : Text) (egress : IpAddr) (conn_id : ℕ) (c : RvConn) (h : Hub)
      → let (after, pushed) = rendezvous_upsert t g egress conn_id c h in
        map (λ r. r.0) pushed ≡ map (λ r. (r.1).tx) (conns_at egress (group_of g after).presence)
  unfolding rendezvous_upsert
  mailboxes-rendezvous_upsert g egress conn_id c h =
      let old = (group_of g h).presence in
      let conns = Assoc.insert conn_id c (conns_at egress old) in
      let p = upsert_presence egress conn_id c old in
      let here : Assoc.lookup egress p ≡ some conns = upsert_here egress conn_id c old in
      let group : group_of g (with_group g (record (group_of g h) { presence = p }) h)
          ≡ record (group_of g h) { presence = p } =
        ground
          (arith, group_of-with_group g g (record (group_of g h) { presence = p }) h, eq_refl g) in
      rw (group, push_egress_found p egress conns here, here) (mailboxes-snapshots conns conns)
