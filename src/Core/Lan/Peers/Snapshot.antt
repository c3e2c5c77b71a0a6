-- ===== src/Core/Lan/Peers/Snapshot.antt =====
-- A snapshot of the relay replaces the relay's entries and leaves those of the local network alone.
use clip_bridge.Core.Net.{SocketAddr, socket_eq}
use clip_bridge.Core.Protocol.{LanPeer}
use clip_bridge.Core.Lan.Peers.{
  LocalNetwork, PeerAddrEntry, KnownPeer, relay_key, is_relay_key, desired_peers, insert_addrs,
  register, insert_known, drop_relay, apply_relay_snapshot,
}
use clip_bridge.Prelude.Assoc
use clip_bridge.Prelude.Assoc.{
  Assoc, IsMap, is_some, lookup-remove, lookup-insert, lookup-insert_self, remove-IsMap,
  insert-IsMap, All-remove, All-lookup, length-remove, remove_missing, length-remove_found,
}
use clip_bridge.Prelude.{
  ◌≡◌, ◌⊎◌, inl, inr, refl, sym, subst, ◌∙◌, true, false, not, Option, List, [], ◌∷◌, map, arith,
  ◌==◌, eq_iff, list_eq, nat_eq, option_eq, is_empty, All, All-map, retain, contains, Text, text_lt,
  starts_with, Bool-cases, retain_all,
}
use clip_bridge.Core.Lan.Peers.Dialable.{IsDialable, IsDesired, desired_peers-IsDesired}

-- A key of the local network is none of the relay's.
relay_key-other : (k did : Text) → is_relay_key k ≡ false → (relay_key did == k) ≡ false
unfolding is_relay_key relay_key starts_with
relay_key-other k did h = elim (Bool-cases (relay_key did == k)) [
  | inr other ↦ other
  | inl same ↦
      let e : relay_key did ≡ k = (eq_iff (relay_key did) k).0 same in
      absurd (ground (arith, subst (λ (j : Text). is_relay_key j ≡ false) (sym e) h))
]

lookup-drop_relay {ℓ} :
    {V : Type ℓ} (k : Text) (m : Assoc Text V)
    → is_relay_key k ≡ false
    → Assoc.lookup k (drop_relay m) ≡ Assoc.lookup k m
unfolding drop_relay retain Assoc.lookup
lookup-drop_relay k [] h = refl
lookup-drop_relay k ((j, v) ∷ m) h = elim (Bool-cases (j == k)) [
  | inl same ↦
      let keeps : is_relay_key j ≡ false =
        subst (λ (i : Text). is_relay_key i ≡ false) (sym ((eq_iff j k).0 same)) h in
      rw (keeps, same) refl
  | inr other ↦ ground (arith, other, lookup-drop_relay k m h)
]

insert_addrs-other :
    (k : Text) (desired : List PeerAddrEntry) (addrs : Assoc Text PeerAddrEntry)
    → is_relay_key k ≡ false
    → Assoc.lookup k (insert_addrs desired addrs) ≡ Assoc.lookup k addrs
unfolding insert_addrs
insert_addrs-other k [] addrs h = refl
insert_addrs-other k (d ∷ desired) addrs h =
    insert_addrs-other k desired (Assoc.insert (relay_key d.device_id) d addrs) h
    ∙ (lookup-insert (relay_key d.device_id) k d addrs ∙ rw (relay_key-other k d.device_id h) refl)

-- The body of the loop does nothing, or it enters the peer under its key.
register-cases :
    (self : Text) (dids : List Text) (d : PeerAddrEntry) (known : Assoc Text KnownPeer)
    → (register self dids d known ≡ known)
      ⊎ ((text_lt d.device_id self ≡ true)
          × (contains dids d.device_id ≡ false)
          × (register self dids d known
              ≡ Assoc.insert
                  (relay_key d.device_id)
                  (let p : KnownPeer = record {
                    peer_did = d.device_id;
                    candidates = d.candidates;
                  } in
                    p)
                  known))
unfolding register
register-cases self dids d known = elim (Bool-cases (text_lt d.device_id self)) [
  | inr less ↦ inl (rw less refl)
  | inl wins ↦ elim (Bool-cases (contains dids d.device_id)) [
    | inl covered ↦ inl (rw (wins, covered) refl)
    | inr free ↦ inr (wins, free, rw (wins, free) refl)
  ]
]

register-other :
    (self : Text) (dids : List Text) (k : Text) (d : PeerAddrEntry) (known : Assoc Text KnownPeer)
    → is_relay_key k ≡ false
    → Assoc.lookup k (register self dids d known) ≡ Assoc.lookup k known
register-other self dids k d known h = elim (register-cases self dids d known) [
  | inl same ↦ rw same refl
  | inr (wins, free, entered) ↦
      let peer : KnownPeer = record { peer_did = d.device_id; candidates = d.candidates } in
      rw entered (
        lookup-insert (relay_key d.device_id) k peer known
        ∙ rw (relay_key-other k d.device_id h) refl)
]

insert_known-other :
    (self : Text) (dids : List Text) (k : Text) (desired : List PeerAddrEntry)
    (known : Assoc Text KnownPeer)
    → is_relay_key k ≡ false
    → Assoc.lookup k (insert_known self dids desired known) ≡ Assoc.lookup k known
unfolding insert_known
insert_known-other self dids k [] known h = refl
insert_known-other self dids k (d ∷ desired) known h =
    insert_known-other self dids k desired (register self dids d known) h
    ∙ register-other self dids k d known h

-- What multicast found is untouched by a snapshot of the relay, in both maps.
pub apply_relay_snapshot-mdns :
    (parse : Text → Option SocketAddr) (local_networks : List LocalNetwork) (self : Text)
    (peers : List LanPeer) (addrs : Assoc Text PeerAddrEntry) (known : Assoc Text KnownPeer)
    (k : Text)
    → is_relay_key k ≡ false
    → let (addrs_after, known_after) =
        apply_relay_snapshot parse local_networks self peers addrs known in
      (Assoc.lookup k addrs_after ≡ Assoc.lookup k addrs)
      × (Assoc.lookup k known_after ≡ Assoc.lookup k known)
unfolding apply_relay_snapshot
apply_relay_snapshot-mdns parse local_networks self peers addrs known k h =
    let desired = desired_peers parse local_networks self peers in
    let dids = map (λ e. e.1.peer_did) (drop_relay known) in
    (
      insert_addrs-other k desired (drop_relay addrs) h ∙ lookup-drop_relay k addrs h,
      insert_known-other self dids k desired (drop_relay known) h ∙ lookup-drop_relay k known h,
    )

-- An entry of the local network's, or one of the relay's that this host is to dial: it is the
-- greater of the two devices, multicast does not know the peer, and there are addresses to dial.
pub IsRegistered : List LocalNetwork → Text → List Text → Text × KnownPeer → Type 0
IsRegistered local_networks self dids e =
    (is_relay_key e.0 ≡ false)
    ⊎ ((e.0 ≡ relay_key e.1.peer_did)
        × (text_lt e.1.peer_did self ≡ true)
        × (contains dids e.1.peer_did ≡ false)
        × (is_empty e.1.candidates ≡ false)
        × All (IsDialable local_networks) e.1.candidates)

module _ (local_networks : List LocalNetwork) (self : Text) (dids : List Text) where
  register-IsRegistered :
      (d : PeerAddrEntry) (known : Assoc Text KnownPeer)
      → IsDesired local_networks self d
      → All (IsRegistered local_networks self dids) known
      → All (IsRegistered local_networks self dids) (register self dids d known)
  unfolding IsDesired IsRegistered Assoc.insert
  register-IsRegistered d known i all = elim (register-cases self dids d known) [
    | inl same ↦ rw same all
    | inr (wins, free, entered) ↦ rw entered (
      inr (refl, wins, free, i.1, i.2),
      All-remove (IsRegistered local_networks self dids) (relay_key d.device_id) known all,
    )
  ]

  insert_known-IsRegistered :
      (desired : List PeerAddrEntry) (known : Assoc Text KnownPeer)
      → All (IsDesired local_networks self) desired
      → All (IsRegistered local_networks self dids) known
      → All (IsRegistered local_networks self dids) (insert_known self dids desired known)
  unfolding insert_known
  insert_known-IsRegistered [] known i all = all
  insert_known-IsRegistered (d ∷ desired) known i all =
      insert_known-IsRegistered desired (register self dids d known) i.1
        (register-IsRegistered d known i.0 all)

-- After a snapshot every peer that this host is to dial is one of the local network's or meets the
-- rules for the relay's: this host's id is the greater one, so that one of the two dials, no entry
-- of the local network is for the same device, and all of its addresses can be dialled.
pub apply_relay_snapshot-IsRegistered :
    (parse : Text → Option SocketAddr) (local_networks : List LocalNetwork) (self : Text)
    (peers : List LanPeer) (addrs : Assoc Text PeerAddrEntry) (known : Assoc Text KnownPeer)
    → All
        (IsRegistered local_networks self (map (λ e. e.1.peer_did) (drop_relay known)))
        (apply_relay_snapshot parse local_networks self peers addrs known).1
unfolding apply_relay_snapshot drop_relay IsRegistered
apply_relay_snapshot-IsRegistered parse local_networks self peers addrs known =
    let kept = drop_relay known in
    let dids = map (λ e. e.1.peer_did) kept in
    insert_known-IsRegistered local_networks self dids
      (desired_peers parse local_networks self peers) kept
      (desired_peers-IsDesired parse local_networks self peers)
      (All-map (λ e. not (is_relay_key e.0) ≡ true) (IsRegistered local_networks self dids) kept
        (λ e h. inl (ground (arith, h))) (retain_all (λ e. not (is_relay_key e.0)) known))
