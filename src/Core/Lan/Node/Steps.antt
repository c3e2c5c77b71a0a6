-- ===== src/Core/Lan/Node/Steps.antt =====
-- The events of a LAN node of core/src/lan.rs in any order, and the states they lead to.
use clip_bridge.Core.Net.{SocketAddr}
use clip_bridge.Core.Protocol.{LanPeer}
use clip_bridge.Core.Lan.Peers.{LocalNetwork}
use clip_bridge.Core.Lan.Node.{
  Start, LanNode, is_started, new_node, spawn, ServiceInfo, service_resolved, service_removed,
  ingest_relay_peers, reconcile, accepted, session_up, task_ended, set_lan_active, lifecycle,
}
use clip_bridge.Prelude.{
  ℕ, ◌≡◌, inl, inr, Bool, not, ◌&&◌, Option, some, List, arith, list_eq, nat_eq, option_eq, Text,
  Bool-cases,
}

-- The interfaces may change between two events, so each brings the networks it sees.
pub data Step (n : LanNode) : LanNode → Type 0 where
  resolved :
      (local_networks : List LocalNetwork) (info : ServiceInfo)
      → Step n (service_resolved local_networks info n)
  removed : (fullname : Text) → Step n (service_removed fullname n)
  snapshot :
      (parse : Text → Option SocketAddr) (local_networks : List LocalNetwork) (peers : List LanPeer)
      → Step n (ingest_relay_peers parse local_networks peers n)
  reconciled : Step n (reconcile n)
  connected : (addr : Text) → Step n (accepted addr n)
  up : (id : ℕ) (peer_did name : Text) → Step n (session_up id peer_did name n)
  ended : (id : ℕ) → Step n (task_ended id n)
  switched : (active : Bool) → Step n (set_lan_active active n)
  turned : (start : Start) → Step n (lifecycle start n)

pub data Reach : LanNode → Type 0 where
  spawned :
      (self_device_id fingerprint : Text) (lan_active : Bool) (start : Start) {n : LanNode}
      → spawn self_device_id fingerprint lan_active start ≡ some n
      → Reach n
  next : {n m : LanNode} → Reach n → Step n m → Reach m

pub spawn-new_node :
    (self_device_id fingerprint : Text) (lan_active : Bool) (start : Start) (n : LanNode)
    → spawn self_device_id fingerprint lan_active start ≡ some n
    → new_node self_device_id fingerprint lan_active start ≡ n
unfolding spawn
spawn-new_node self_device_id fingerprint lan_active start n h =
    elim (Bool-cases (lan_active && not (is_started start))) [
      | inl fails ↦ absurd (ground (arith, h, fails))
      | inr works ↦ ground (arith, h, works)
    ]
