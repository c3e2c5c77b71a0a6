-- ===== src/Core/Lan/Node/Targets.antt =====
-- The peers that a LAN node of core/src/lan.rs knows and dials have a smaller id and an address.
use clip_bridge.Core.Net.{SocketAddr}
use clip_bridge.Core.Protocol.{LanPeer}
use clip_bridge.Core.Lan.Peers.{
  KnownPeer, LocalNetwork, PeerAddrEntry, register, insert_known, apply_relay_snapshot,
  desired_peers, drop_relay, is_relay_key, relay_key,
}
use clip_bridge.Core.Lan.Peers.Dialable.{IsDesired, desired_peers-IsDesired}
use clip_bridge.Core.Lan.Node.{
  PeerTask, LanNode, Start, new_node, service_resolved, ingest_relay_peers, service_removed,
  contains_key, spawn_task, reconcile_one, reconcile_loop, reconcile, accepted, new_guard,
  drop_guard, leave_outbound, session_up, task_ended, set_lan_active, suspend, resume, lifecycle,
  ServiceInfo, unwrap_or_empty, service_candidates, inbound_key,
}
use clip_bridge.Core.Lan.Node.Steps.{
  Step, resolved, removed, snapshot, reconciled, connected, up, ended, switched, turned,
  spawn-new_node, Reach, spawned, next,
}
use clip_bridge.Prelude.Assoc
use clip_bridge.Prelude.Assoc.{
  Assoc, IsMap, is_some, lookup-remove, lookup-insert, lookup-insert_self, remove-IsMap,
  insert-IsMap, All-remove, All-lookup, length-remove, remove_missing, length-remove_found,
}
use clip_bridge.Prelude.{
  ℕ, ◌≡◌, inl, inr, subst, Bool, true, false, not, Option, none, some, List, [], ◌∷◌, map, arith,
  ◌==◌, list_eq, nat_eq, option_eq, is_empty, All, contains, Text, text_lt, Bool-cases,
  Option-cases, if_both, if_given, All-retain,
}

-- This host's id is the greater one, and there is an address to dial.
abbrev pub IsTarget : Text → KnownPeer → Type 0
IsTarget self kp = (text_lt kp.peer_did self ≡ true) × (is_empty kp.candidates ≡ false)

abbrev pub DialsTarget : Text → PeerTask → Type 0
DialsTarget self t = elim t.dial as (λ x. Type 0) [ none ↦ Unit | some kp ↦ IsTarget self kp ]

pub record IsPolite (n : LanNode) : Type 0 where
  pub known : All (λ e. IsTarget n.self_device_id e.1) n.known_peers
  pub dialled : All (λ e. DialsTarget n.self_device_id e.1) n.tasks

module _ (self : Text) where
  register-target :
      (dids : List Text) (d : PeerAddrEntry) (known : Assoc Text KnownPeer)
      → is_empty d.candidates ≡ false
      → All (λ e. IsTarget self e.1) known
      → All (λ e. IsTarget self e.1) (register self dids d known)
  unfolding register Assoc.insert
  register-target dids d known full all = elim (Bool-cases (text_lt d.device_id self)) [
    | inr loses ↦ rw loses all
    | inl wins ↦ rw wins (
        if_both (λ (m : Assoc Text KnownPeer). All (λ e. IsTarget self e.1) m)
          (contains dids d.device_id) _ _ all
          ((wins, full), All-remove (λ e. IsTarget self e.1) (relay_key d.device_id) known all))
  ]

  insert_known-target :
      (nets : List LocalNetwork) (dids : List Text) (desired : List PeerAddrEntry)
      (known : Assoc Text KnownPeer)
      → All (IsDesired nets self) desired
      → All (λ e. IsTarget self e.1) known
      → All (λ e. IsTarget self e.1) (insert_known self dids desired known)
  unfolding insert_known IsDesired
  insert_known-target nets dids [] known i all = all
  insert_known-target nets dids (d ∷ desired) known i all =
      insert_known-target nets dids desired (register self dids d known) i.1
        (register-target dids d known i.0.1 all)

  apply_relay_snapshot-target :
      (parse : Text → Option SocketAddr) (nets : List LocalNetwork) (peers : List LanPeer)
      (addrs : Assoc Text PeerAddrEntry) (known : Assoc Text KnownPeer)
      → All (λ e. IsTarget self e.1) known
      → All (λ e. IsTarget self e.1) (apply_relay_snapshot parse nets self peers addrs known).1
  unfolding apply_relay_snapshot drop_relay
  apply_relay_snapshot-target parse nets peers addrs known all =
      insert_known-target nets (map (λ e. e.1.peer_did) (drop_relay known))
        (desired_peers parse nets self peers) (drop_relay known)
        (desired_peers-IsDesired parse nets self peers)
        (All-retain (λ e. IsTarget self e.1) (λ e. not (is_relay_key e.0)) known all)

spawn_task-IsPolite :
    (key : Text) (dial : Option KnownPeer) (n : LanNode)
    → DialsTarget n.self_device_id (record { registry_key = key; dial = dial; guard = false })
    → IsPolite n
    → IsPolite (spawn_task key dial n)
unfolding spawn_task Assoc.insert
spawn_task-IsPolite key dial n target p = record {
  known = p.known;
  dialled =
      (target, All-remove (λ e. DialsTarget n.self_device_id e.1) n.next_task n.tasks p.dialled);
}

reconcile_one-IsPolite :
    (fullname : Text) (kp : KnownPeer) (n : LanNode)
    → IsTarget n.self_device_id kp
    → IsPolite n
    → IsPolite (reconcile_one fullname kp n)
unfolding reconcile_one
reconcile_one-IsPolite fullname kp n target p =
    if_both IsPolite (contains_key fullname n.outbound_peers) _ _ p (
      spawn_task-IsPolite fullname (some kp) _ target
        (record { known = p.known; dialled = p.dialled }))

reconcile_one_self :
    (fullname : Text) (kp : KnownPeer) (n : LanNode)
    → (reconcile_one fullname kp n).self_device_id ≡ n.self_device_id
unfolding reconcile_one spawn_task
reconcile_one_self fullname kp n = ground arith

reconcile_loop-IsPolite :
    (known : List (Text × KnownPeer)) (n : LanNode)
    → All (λ e. IsTarget n.self_device_id e.1) known
    → IsPolite n
    → IsPolite (reconcile_loop known n)
unfolding reconcile_loop
reconcile_loop-IsPolite [] n targets p = p
reconcile_loop-IsPolite ((fullname, kp) ∷ known) n targets p =
    reconcile_loop-IsPolite known (reconcile_one fullname kp n)
      (rw (reconcile_one_self fullname kp n) targets.1)
      (reconcile_one-IsPolite fullname kp n targets.0 p)

service_resolved-IsPolite :
    (local_networks : List LocalNetwork) (info : ServiceInfo) (n : LanNode)
    → IsPolite n
    → IsPolite (service_resolved local_networks info n)
unfolding service_resolved Assoc.insert
service_resolved-IsPolite local_networks info n p =
    if_both IsPolite (not (unwrap_or_empty info.gid == n.fingerprint)) _ _ p (
      if_both IsPolite (is_empty (unwrap_or_empty info.did)) _ _ p (
        if_given IsPolite (is_empty (service_candidates local_networks info)) _ _ (λ none_left. p)
          (λ full.
            if_given IsPolite (not (text_lt (unwrap_or_empty info.did) n.self_device_id)) _ _
              (λ loses. record { known = p.known; dialled = p.dialled })
              (λ wins. record {
                known = (
                  (ground (arith, wins), full),
                  All-remove (λ e. IsTarget n.self_device_id e.1) info.fullname n.known_peers
                      p.known,
                );
                dialled = p.dialled;
              }))))

session_up-IsPolite :
    (id : ℕ) (peer_did name : Text) (n : LanNode)
    → IsPolite n
    → IsPolite (session_up id peer_did name n)
unfolding session_up new_guard Assoc.insert
session_up-IsPolite id peer_did name n p = elim (Option-cases (Assoc.lookup id n.tasks)) [
  | inl missing ↦ rw (missing, session_up) p
  | inr (t, found) ↦
      rw (found, session_up)
        (if_both IsPolite t.guard _ _ p (record {
          known = p.known;
          dialled = (
            All-lookup (λ e. DialsTarget n.self_device_id e.1) id t n.tasks p.dialled found,
            All-remove (λ e. DialsTarget n.self_device_id e.1) id n.tasks p.dialled,
          );
        }))
]

ended-IsPolite :
    (id : ℕ) (t : PeerTask) (count : ℕ) (registry : Assoc Text (Text × Text)) (n : LanNode)
    → IsPolite n
    → IsPolite (record n {
      peer_count = count;
      peers = registry;
      tasks = Assoc.remove id n.tasks;
      outbound_peers = leave_outbound t n.outbound_peers;
    })
ended-IsPolite id t count registry n p = record {
  known = p.known;
  dialled = All-remove (λ e. DialsTarget n.self_device_id e.1) id n.tasks p.dialled;
}

task_ended-IsPolite : (id : ℕ) (n : LanNode) → IsPolite n → IsPolite (task_ended id n)
unfolding task_ended drop_guard
task_ended-IsPolite id n p = elim (Option-cases (Assoc.lookup id n.tasks)) [
  | inl missing ↦ rw (missing, task_ended) p
  | inr (t, found) ↦
      rw (found, task_ended)
        (if_both
          (λ (m : LanNode). IsPolite (record m {
            tasks = Assoc.remove id n.tasks;
            outbound_peers = leave_outbound t n.outbound_peers;
          }))
          t.guard _ _ (ended-IsPolite id t _ _ n p) (ended-IsPolite id t _ _ n p))
]

Step-IsPolite : {n m : LanNode} → Step n m → IsPolite n → IsPolite m
unfolding service_removed ingest_relay_peers reconcile accepted set_lan_active lifecycle suspend
    resume
Step-IsPolite {n} (resolved local_networks info) p =
    service_resolved-IsPolite local_networks info n p
Step-IsPolite {n} (removed fullname) p = record {
  known = All-remove (λ e. IsTarget n.self_device_id e.1) fullname n.known_peers p.known;
  dialled = p.dialled;
}
Step-IsPolite {n} (snapshot parse local_networks peers) p = record {
  known =
      apply_relay_snapshot-target n.self_device_id parse local_networks peers n.peer_addrs
        n.known_peers p.known;
  dialled = p.dialled;
}
Step-IsPolite {n} reconciled p =
    if_both IsPolite (not n.lan_active) _ _ p (reconcile_loop-IsPolite n.known_peers n p.known p)
Step-IsPolite {n} (connected addr) p =
    if_both IsPolite (not n.lan_active) _ _ p (spawn_task-IsPolite (inbound_key addr) none n tt p)
Step-IsPolite {n} (up id peer_did name) p = session_up-IsPolite id peer_did name n p
Step-IsPolite {n} (ended id) p = task_ended-IsPolite id n p
Step-IsPolite {n} (switched active) p = record { known = p.known; dialled = p.dialled }
Step-IsPolite {n} (turned start) p =
    if_both IsPolite n.transport _ _
      (if_both IsPolite n.lan_active _ _ p (record { known = tt; dialled = p.dialled }))
      (if_both IsPolite n.lan_active _ _ (record { known = p.known; dialled = p.dialled }) p)

new_node-IsPolite :
    (self_device_id fingerprint : Text) (lan_active : Bool) (start : Start)
    → IsPolite (new_node self_device_id fingerprint lan_active start)
unfolding new_node
new_node-IsPolite self_device_id fingerprint lan_active start = record { known = tt; dialled = tt }

pub Reach-IsPolite : {n : LanNode} → Reach n → IsPolite n
Reach-IsPolite {n} (spawned self_device_id fingerprint lan_active start h) =
    subst IsPolite (spawn-new_node self_device_id fingerprint lan_active start n h)
      (new_node-IsPolite self_device_id fingerprint lan_active start)
Reach-IsPolite (next r st) = Step-IsPolite st (Reach-IsPolite r)
