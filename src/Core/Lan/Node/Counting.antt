-- ===== src/Core/Lan/Node/Counting.antt =====
-- The number and the registry of the sessions of a LAN node (core/src/lan.rs), in every state that
-- its events lead to.
use clip_bridge.Core.Lan.Node.{
  LanNode, Start, new_node, ingest_relay_peers, service_removed, reconcile, accepted,
  set_lan_active, suspend, resume, lifecycle, inbound_key,
}
use clip_bridge.Core.Lan.Node.Steps.{
  Step, resolved, removed, snapshot, reconciled, connected, up, ended, switched, turned,
  spawn-new_node, Reach, spawned, next,
}
use clip_bridge.Prelude.{
  refl, subst, Bool, not, none, arith, list_eq, nat_eq, option_eq, Text, if_both,
}
use clip_bridge.Core.Lan.Node.Guards.{
  guards, IsCounted, spawn_task-IsCounted, reconcile_loop-IsCounted, same_tasks,
  service_resolved-IsCounted, session_up-IsCounted, task_ended-IsCounted,
}

-- Every event of the node keeps the invariant.
pub Step-IsCounted : {n m : LanNode} → Step n m → IsCounted n → IsCounted m
unfolding service_removed ingest_relay_peers reconcile accepted set_lan_active lifecycle suspend
    resume
Step-IsCounted {n} (resolved local_networks info) c =
    service_resolved-IsCounted local_networks info n c
Step-IsCounted {n} (removed fullname) c = same_tasks n _ refl refl refl refl c
Step-IsCounted {n} (snapshot parse local_networks peers) c = same_tasks n _ refl refl refl refl c
Step-IsCounted {n} reconciled c =
    if_both IsCounted (not n.lan_active) _ _ c (reconcile_loop-IsCounted n.known_peers n c)
Step-IsCounted {n} (connected addr) c =
    if_both IsCounted (not n.lan_active) _ _ c (spawn_task-IsCounted (inbound_key addr) none n c)
Step-IsCounted {n} (up id peer_did name) c = session_up-IsCounted id peer_did name n c
Step-IsCounted {n} (ended id) c = task_ended-IsCounted id n c
Step-IsCounted {n} (switched active) c = same_tasks n _ refl refl refl refl c
Step-IsCounted {n} (turned start) c =
    if_both IsCounted n.transport _ _
      (if_both IsCounted n.lan_active _ _ c (same_tasks n _ refl refl refl refl c))
      (if_both IsCounted n.lan_active _ _ (same_tasks n _ refl refl refl refl c) c)

pub new_node-IsCounted :
    (self_device_id fingerprint : Text) (lan_active : Bool) (start : Start)
    → IsCounted (new_node self_device_id fingerprint lan_active start)
unfolding new_node guards
new_node-IsCounted self_device_id fingerprint lan_active start = record {
  is_map = tt;
  fresh = tt;
  count = omega arith;
  registered = tt;
}

-- In every state that the events of a node lead to, in whatever order they come, the number of
-- peers is the number of tasks whose guard is alive, modulo 2^64, and every entry of the registry
-- is that of a task whose guard is alive.
pub Reach-IsCounted : {n : LanNode} → Reach n → IsCounted n
Reach-IsCounted {n} (spawned self_device_id fingerprint lan_active start h) =
    subst IsCounted (spawn-new_node self_device_id fingerprint lan_active start n h)
      (new_node-IsCounted self_device_id fingerprint lan_active start)
Reach-IsCounted (next r st) = Step-IsCounted st (Reach-IsCounted r)
