-- ===== src/Core/Lan/Node.antt =====
-- The LAN node of core/src/lan.rs: the shared maps that discovery, the relay's snapshots, the
-- reconciler, the accept loop, the peer tasks and the lifecycle task change, an event at a time.
-- What a peer task does on its connection is in Session. A number of 64 bits holds the count.
pub mod Steps
pub mod Guards
pub mod Counting
pub mod Targets
pub mod Dialing
pub mod DialKeys
pub mod Outbound
pub mod Lifecycle
mod Tests
use clip_bridge.Core.Net.{IpAddr, SocketAddr, is_unroutable}
use clip_bridge.Core.Protocol.{LanPeer, LanCandidate}
use clip_bridge.Core.Lan.Interfaces.{Interface, local_private_candidate_networks}
use clip_bridge.Core.Lan.Peers.{
  LocalNetwork, PeerAddrEntry, KnownPeer, sort_candidates_for_dial, drop_local_interface_candidates,
  apply_relay_snapshot,
}
use clip_bridge.Prelude.Assoc
use clip_bridge.Prelude.Assoc.{
  Assoc, IsMap, is_some, lookup-remove, lookup-insert, lookup-insert_self, remove-IsMap,
  insert-IsMap, All-remove, All-lookup, length-remove, remove_missing, length-remove_found,
}
use clip_bridge.Prelude.{
  String, ℕ, zero, suc, ◌+◌, ◌-◌, ◌*◌, ◌/◌, ◌%◌, ◌^◌, ◌≤◌, ◌<◌, ◌≡◌, ◌≢◌, ◌↔◌, ◌⊎◌, inl, inr, refl,
  sym, ap, subst, ◌∙◌, Bool, true, false, not, ◌&&◌, ◌||◌, Option, none, some, List, [], ◌∷◌, ◌++◌,
  map, append-nil, append_assoc, arith, ltb, leb, if◌then◌else◌, Eq, ◌==◌, eq_iff, eq_refl, ne-eq,
  eq_symm, list_eq, nat_eq, option_eq, list_beq, option_beq, length, is_empty, take, drop, All,
  All-append, All-map, length-append, retain, any, contains, Distinct, length-retain, retain-append,
  Text, codes, text_lt, starts_with, Bool-cases, Option-cases, ltb→lt, leb→le, leb→gt, le→leb,
  length-take, length-drop, take-append-drop, append-take-drop, drop-all, contains-append,
  Distinct-append_one, retain_all, All-retain, nat_beq,
}

-- A task that was spawned for a connection: the key it registers under, the peer it dials if it is
-- outbound, and whether its `PeerSessionGuard` is alive.
pub record PeerTask : Type 0 where
  pub registry_key : Text
  pub dial : Option KnownPeer
  pub guard : Bool

-- `HashMap<String, ()>`
abbrev pub Keys : Type 0
Keys = Assoc {0, 0} Text Unit

pub record LanNode : Type 0 where
  pub self_device_id : Text
  pub fingerprint : Text
  pub known_peers : Assoc Text KnownPeer
  pub peer_addrs : Assoc Text PeerAddrEntry
  pub outbound_peers : Keys
  pub peer_count : ℕ
  pub peers : Assoc Text (Text × Text)
  pub lan_active : Bool
  -- `transport.is_some()` of the lifecycle task.
  pub transport : Bool
  pub port : ℕ
  -- The tasks that have not ended, under the numbers they were spawned with.
  pub tasks : Assoc ℕ PeerTask
  pub next_task : ℕ

-- `TransportStart` fails before the listener is bound, or after, or gives the bound port.
pub data Start : Type 0 where
  bind_failed : Start
  mdns_failed started : ℕ → Start

unfoldable pub port_after : ℕ → Start → ℕ
port_after port bind_failed = port
port_after port (mdns_failed bound_port) = bound_port
port_after port (started bound_port) = bound_port

unfoldable pub is_started : Start → Bool
is_started (started bound_port) = true
is_started other = false

unfoldable pub new_node : Text → Text → Bool → Start → LanNode
new_node self_device_id fingerprint lan_active start = record {
  self_device_id = self_device_id;
  fingerprint = fingerprint;
  known_peers = [];
  peer_addrs = [];
  outbound_peers = [];
  peer_count = 0;
  peers = [];
  lan_active = lan_active;
  transport = lan_active;
  port = if lan_active then port_after 0 start else 0;
  tasks = [];
  next_task = 0;
}

-- The node that `LanNode::spawn` leaves, before its tasks run: `none` is that it fails.
unfoldable pub spawn : Text → Text → Bool → Start → Option LanNode
spawn self_device_id fingerprint lan_active start =
    if lan_active && not (is_started start)
    then none
    else some (new_node self_device_id fingerprint lan_active start)

-- What the TXT record and the addresses of a resolved service say.
pub record ServiceInfo : Type 0 where
  pub fullname : Text
  pub gid : Option Text
  pub did : Option Text
  pub addresses : List IpAddr
  pub svc_port : ℕ

unfoldable pub unwrap_or_empty : Option Text → Text
unwrap_or_empty none = []
unwrap_or_empty (some t) = t

unfoldable pub service_candidates : List LocalNetwork → ServiceInfo → List SocketAddr
service_candidates local_networks info = sort_candidates_for_dial local_networks (
    drop_local_interface_candidates local_networks (
      map (λ a. record { ip = a; port = info.svc_port })
        (retain (λ a. not (is_unroutable a)) info.addresses)))

-- `ServiceEvent::ServiceResolved`
unfoldable pub service_resolved : List LocalNetwork → ServiceInfo → LanNode → LanNode
service_resolved local_networks info n =
    let peer_did = unwrap_or_empty info.did in
    let candidates = service_candidates local_networks info in
    let entry : PeerAddrEntry = record {
      device_id = peer_did;
      display_name = none;
      candidates = candidates;
    } in
    let cached : LanNode = record n {
      peer_addrs = Assoc.insert info.fullname entry n.peer_addrs;
    } in
    let known : KnownPeer = record { peer_did = peer_did; candidates = candidates } in
    if not (unwrap_or_empty info.gid == n.fingerprint)
    then n
    else if is_empty peer_did
    then n
    else if is_empty candidates
    then n
    else if not (text_lt peer_did n.self_device_id)
    then cached
    else record cached { known_peers = Assoc.insert info.fullname known n.known_peers }

-- `ServiceEvent::ServiceRemoved`
unfoldable pub service_removed : Text → LanNode → LanNode
service_removed fullname n = record n {
  known_peers = Assoc.remove fullname n.known_peers;
  peer_addrs = Assoc.remove fullname n.peer_addrs;
}

unfoldable pub ingest_relay_peers :
    (Text → Option SocketAddr) → List LocalNetwork → List LanPeer → LanNode → LanNode
ingest_relay_peers parse local_networks peers n =
    let (addrs, known) =
      apply_relay_snapshot parse local_networks n.self_device_id peers n.peer_addrs n.known_peers in
    record n { peer_addrs = addrs; known_peers = known }

unfoldable pub contains_key {ℓ} : {V : Type ℓ} → Text → Assoc Text V → Bool
contains_key k m = is_some (Assoc.lookup k m)

unfoldable pub spawn_task : Text → Option KnownPeer → LanNode → LanNode
spawn_task registry_key dial n = record n {
  tasks =
      Assoc.insert n.next_task (record { registry_key = registry_key; dial = dial; guard = false })
        n.tasks;
  next_task = n.next_task + 1;
}

-- The body of the reconciler's loop.
unfoldable pub reconcile_one : Text → KnownPeer → LanNode → LanNode
reconcile_one fullname kp n =
    if contains_key fullname n.outbound_peers
    then n
    else spawn_task fullname (some kp)
        (record n { outbound_peers = Assoc.insert fullname tt n.outbound_peers })

-- The loop over the snapshot of `known_peers`.
unfoldable pub reconcile_loop : List (Text × KnownPeer) → LanNode → LanNode
reconcile_loop [] n = n
reconcile_loop ((fullname, kp) ∷ snapshot) n = reconcile_loop snapshot (reconcile_one fullname kp n)

-- A turn of the reconciler, whatever woke it.
unfoldable pub reconcile : LanNode → LanNode
reconcile n = if not n.lan_active then n else reconcile_loop n.known_peers n

-- `format!("inbound:{addr}")`
unfoldable pub inbound_key : Text → Text
inbound_key addr = codes "inbound:" ++ addr

-- A connection that the accept loop took.
unfoldable pub accepted : Text → LanNode → LanNode
accepted addr n = if not n.lan_active then n else spawn_task (inbound_key addr) none n

abbrev pub usize : ℕ
usize = 2 ^ 64

-- `PeerSessionGuard::new`
unfoldable pub new_guard : Text → Text → Text → LanNode → LanNode
new_guard key peer_did name n = record n {
  peer_count = (n.peer_count + 1) % usize;
  peers = Assoc.insert key (peer_did, name) n.peers;
}

-- `Drop for PeerSessionGuard`
unfoldable pub drop_guard : Text → LanNode → LanNode
drop_guard key n = record n {
  peer_count = (n.peer_count + (usize - 1)) % usize;
  peers = Assoc.remove key n.peers;
}

-- A task whose handshake made its connection a control link.
unfoldable pub session_up : ℕ → Text → Text → LanNode → LanNode
session_up id peer_did name n = elim (Assoc.lookup id n.tasks) [
  | none ↦ n
  | some t ↦ if t.guard then n else record (new_guard t.registry_key peer_did name n) {
    tasks = Assoc.insert id (record t { guard = true }) n.tasks;
  }
]

unfoldable pub leave_outbound : PeerTask → Keys → Keys
leave_outbound t outbound = elim t.dial [
  | none ↦ outbound
  | some kp ↦ Assoc.remove t.registry_key outbound
]

-- The end of a task: its guard is dropped, and an outbound one leaves `outbound_peers`.
unfoldable pub task_ended : ℕ → LanNode → LanNode
task_ended id n = elim (Assoc.lookup id n.tasks) [
  | none ↦ n
  | some t ↦ record (if t.guard then drop_guard t.registry_key n else n) {
    tasks = Assoc.remove id n.tasks;
    outbound_peers = leave_outbound t n.outbound_peers;
  }
]

unfoldable pub set_lan_active : Bool → LanNode → LanNode
set_lan_active active n = record n { lan_active = active }

-- A turn of the lifecycle task once the flag is what it waits for.
unfoldable pub suspend : LanNode → LanNode
suspend n = record n {
  transport = false;
  port = 0;
  known_peers = [];
  outbound_peers = [];
  peer_addrs = [];
}

unfoldable pub resume : Start → LanNode → LanNode
resume start n = record n { transport = is_started start; port = port_after n.port start }

unfoldable pub lifecycle : Start → LanNode → LanNode
lifecycle start n =
    if n.transport
    then (if n.lan_active then n else suspend n)
    else (if n.lan_active then resume start n else n)

unfoldable pub advertise_candidate_networks :
    (SocketAddr → Text) → Option (List Interface) → LanNode → List LanCandidate
advertise_candidate_networks to_string ifaces n =
    if n.port == 0 then [] else local_private_candidate_networks to_string ifaces n.port
