-- ===== src/Core/Lan/Peers.antt =====
-- The registry of LAN peers of core/src/lan.rs: `apply_relay_snapshot_with_local_networks`, the
-- choice of the addresses to dial, `candidates_for_peer`. Parsing an address is the standard
-- library's.
pub mod Dialable
pub mod Snapshot
use Prim.Native.Nat.{bit_and}
use clip_bridge.Core.Net.{IpAddr, v4, v6, ip_eq, SocketAddr, socket_eq, AddrText, is_unroutable}
use clip_bridge.Core.Protocol.{LanPeer}
use clip_bridge.Prelude.Assoc
use clip_bridge.Prelude.Assoc.{
  Assoc, IsMap, is_some, lookup-remove, lookup-insert, lookup-insert_self, remove-IsMap,
  insert-IsMap, All-remove, All-lookup, length-remove, remove_missing, length-remove_found,
}
use clip_bridge.Prelude.{
  String, ℕ, zero, suc, ◌+◌, ◌-◌, ◌*◌, ◌/◌, ◌%◌, ◌^◌, ◌≤◌, ◌<◌, ◌≡◌, ◌≢◌, ◌↔◌, ◌⊎◌, inl, inr, refl,
  sym, ap, subst, ◌∙◌, Bool, true, false, not, ◌&&◌, ◌||◌, Option, none, some, List, [], ◌∷◌, ◌++◌,
  map, append-nil, append_assoc, arith, ltb, leb, if◌then◌else◌, Eq, ◌==◌, eq_iff, eq_refl, ne-eq,
  eq_symm, list_eq, nat_eq, option_eq, list_beq, option_beq, length, is_empty, take, drop, All,
  All-append, All-map, length-append, retain, any, contains, Distinct, length-retain, retain-append,
  Text, codes, text_lt, starts_with, Bool-cases, Option-cases, ltb→lt, leb→le, leb→gt, le→leb,
  length-take, length-drop, take-append-drop, append-take-drop, drop-all, contains-append,
  Distinct-append_one, retain_all, All-retain, nat_beq,
}
use clip_bridge.Prelude.Chars.{is_whitespace, trim_matches}

pub record LocalNetwork : Type 0 where
  pub ip : IpAddr
  pub netmask : IpAddr
  pub prefix_len : ℕ

pub record PeerAddrEntry : Type 0 where
  pub device_id : Text
  pub display_name : Option Text
  pub candidates : List SocketAddr

pub record KnownPeer : Type 0 where
  pub peer_did : Text
  pub candidates : List SocketAddr

unfoldable pub same_subnet : IpAddr → LocalNetwork → Bool
same_subnet (v4 a) local = elim local.ip [
  | v4 b ↦ elim local.netmask [ v4 mask ↦ bit_and a mask == bit_and b mask | v6 mask ↦ false ]
  | v6 b ↦ false
]
same_subnet (v6 a) local = elim local.ip [
  | v6 b ↦ elim local.netmask [ v6 mask ↦ bit_and a mask == bit_and b mask | v4 mask ↦ false ]
  | v4 b ↦ false
]

-- The key `(same_subnet_rank, family_rank)` as one number, in the same order.
unfoldable pub dial_rank : List LocalNetwork → SocketAddr → ℕ
dial_rank local_networks sa =
    (if any (same_subnet sa.ip) local_networks then 0 else 2) + elim sa.ip [ v4 a ↦ 0 | v6 a ↦ 1 ]

-- `sort_by_key`, which is stable.
unfoldable pub insert_sorted : (SocketAddr → ℕ) → SocketAddr → List SocketAddr → List SocketAddr
insert_sorted rank a [] = a ∷ []
insert_sorted rank a (b ∷ sorted) =
    let rest = insert_sorted rank a sorted in
    if leb (rank a) (rank b) then a ∷ b ∷ sorted else b ∷ rest

unfoldable pub sort_by_key : (SocketAddr → ℕ) → List SocketAddr → List SocketAddr
sort_by_key rank [] = []
sort_by_key rank (a ∷ rest) = insert_sorted rank a (sort_by_key rank rest)

unfoldable pub sort_candidates_for_dial : List LocalNetwork → List SocketAddr → List SocketAddr
sort_candidates_for_dial local_networks candidates =
    sort_by_key (dial_rank local_networks) candidates

unfoldable pub is_local_interface_candidate : List LocalNetwork → SocketAddr → Bool
is_local_interface_candidate local_networks candidate =
    any (λ local. candidate.ip == local.ip) local_networks

unfoldable pub drop_local_interface_candidates :
    List LocalNetwork → List SocketAddr → List SocketAddr
drop_local_interface_candidates local_networks candidates =
    retain (λ c. not (is_local_interface_candidate local_networks c)) candidates

unfoldable pub non_empty_display_name : Text → Option Text
non_empty_display_name value =
    let trimmed = trim_matches is_whitespace value in
    if is_empty trimmed then none else some trimmed

-- `format!("relay:{did}")`
unfoldable pub relay_key : Text → Text
relay_key did = b'r' ∷ b'e' ∷ b'l' ∷ b'a' ∷ b'y' ∷ b':' ∷ did

unfoldable pub is_relay_key : Text → Bool
is_relay_key k = starts_with k (codes "relay:")

-- The loop over the texts of a peer's candidates.
unfoldable pub parse_candidates :
    (Text → Option SocketAddr) → List Text → List SocketAddr → List SocketAddr
parse_candidates parse [] cands = cands
parse_candidates parse (s ∷ texts) cands = elim (parse s) [
  | none ↦ parse_candidates parse texts cands
  | some sa ↦
      parse_candidates parse texts
        (if not (is_unroutable sa.ip) && not (contains cands sa) then cands ++ sa ∷ [] else cands)
]

unfoldable pub dialable :
    (Text → Option SocketAddr) → List LocalNetwork → List Text → List SocketAddr
dialable parse local_networks texts =
    sort_candidates_for_dial local_networks
      (drop_local_interface_candidates local_networks (parse_candidates parse texts []))

-- The loop over the peers of a snapshot.
unfoldable pub desired_peers :
    (Text → Option SocketAddr) → List LocalNetwork → Text → List LanPeer → List PeerAddrEntry
desired_peers parse local_networks self_device_id [] = []
desired_peers parse local_networks self_device_id (p ∷ peers) =
    let rest = desired_peers parse local_networks self_device_id peers in
    let cands = dialable parse local_networks p.candidates in
    if p.device_id == self_device_id
    then rest
    else if is_empty cands
    then rest
    else record {
      device_id = p.device_id;
      display_name = non_empty_display_name p.device_name;
      candidates = cands;
    }
      ∷ rest

unfoldable pub insert_addrs :
    List PeerAddrEntry → Assoc Text PeerAddrEntry → Assoc Text PeerAddrEntry
insert_addrs [] addrs = addrs
insert_addrs (d ∷ desired) addrs =
    insert_addrs desired (Assoc.insert (relay_key d.device_id) d addrs)

-- The body of the loop over the peers whose control link this host may have to start.
unfoldable pub register :
    Text → List Text → PeerAddrEntry → Assoc Text KnownPeer → Assoc Text KnownPeer
register self_device_id mdns_dids d known =
    let peer : KnownPeer = record { peer_did = d.device_id; candidates = d.candidates } in
    if not (text_lt d.device_id self_device_id)
    then known
    else if contains mdns_dids d.device_id
    then known
    else Assoc.insert (relay_key d.device_id) peer known

unfoldable pub insert_known :
    Text → List Text → List PeerAddrEntry → Assoc Text KnownPeer → Assoc Text KnownPeer
insert_known self_device_id mdns_dids [] known = known
insert_known self_device_id mdns_dids (d ∷ desired) known =
    insert_known self_device_id mdns_dids desired (register self_device_id mdns_dids d known)

-- `retain(|k, _| !k.starts_with("relay:"))`
unfoldable pub drop_relay {ℓ} : {V : Type ℓ} → Assoc Text V → Assoc Text V
drop_relay m = retain (λ e. not (is_relay_key e.0)) m

unfoldable pub apply_relay_snapshot :
    (Text → Option SocketAddr)
    → List LocalNetwork
    → Text
    → List LanPeer
    → Assoc Text PeerAddrEntry
    → Assoc Text KnownPeer
    → Assoc Text PeerAddrEntry × Assoc Text KnownPeer
apply_relay_snapshot parse local_networks self_device_id peers peer_addrs known_peers =
    let desired = desired_peers parse local_networks self_device_id peers in
    let kept = drop_relay known_peers in
    let mdns_dids = map (λ e. e.1.peer_did) kept in
    (
      insert_addrs desired (drop_relay peer_addrs),
      insert_known self_device_id mdns_dids desired kept,
    )

unfoldable pub add_new : List SocketAddr → List SocketAddr → List SocketAddr
add_new [] out = out
add_new (c ∷ cands) out = add_new cands (if contains out c then out else out ++ c ∷ [])

-- The loop of `candidates_for_peer` over the entries, in the order the map has them.
unfoldable pub collect_candidates :
    Text → Assoc Text PeerAddrEntry → List SocketAddr → List SocketAddr
collect_candidates device_id [] out = out
collect_candidates device_id ((k, e) ∷ addrs) out =
    collect_candidates device_id addrs
      (if e.device_id == device_id then add_new e.candidates out else out)

unfoldable pub candidates_for_peer : Assoc Text PeerAddrEntry → Text → List SocketAddr
candidates_for_peer addrs device_id = collect_candidates device_id addrs []
