-- ===== src/Core/Lan/Node/Outbound.antt =====
-- The outbound tasks of a LAN node of core/src/lan.rs: one at most for a name, as long as the
-- transport is not taken down while one of them is alive, and what happens when it is.
use clip_bridge.Core.Lan.Peers.{KnownPeer, LocalNetwork}
use clip_bridge.Core.Lan.Node.{
  PeerTask, Keys, LanNode, Start, spawn, new_node, service_resolved, ingest_relay_peers,
  service_removed, contains_key, spawn_task, reconcile_one, reconcile_loop, reconcile, accepted,
  new_guard, drop_guard, leave_outbound, session_up, task_ended, set_lan_active, suspend, resume,
  lifecycle, ServiceInfo, unwrap_or_empty, service_candidates, inbound_key,
}
use clip_bridge.Core.Lan.Node.Guards.{IsCounted, free_id}
use clip_bridge.Core.Lan.Node.Counting.{Step-IsCounted, new_node-IsCounted}
use clip_bridge.Core.Lan.Node.Steps.{
  Step, resolved, removed, snapshot, reconciled, connected, up, ended, switched, turned,
  spawn-new_node,
}
use clip_bridge.Prelude.Assoc
use clip_bridge.Prelude.Assoc.{
  Assoc, IsMap, is_some, lookup-remove, lookup-insert, lookup-insert_self, remove-IsMap,
  insert-IsMap, All-remove, All-lookup, length-remove, remove_missing, length-remove_found,
}
use clip_bridge.Prelude.{
  ℕ, ◌≡◌, ◌⊎◌, inl, inr, refl, subst, Bool, true, false, not, ◌&&◌, none, some, List, [], ◌∷◌,
  arith, ◌==◌, list_eq, nat_eq, option_eq, is_empty, All, All-map, Distinct, Text, text_lt,
  Option-cases, if_both, if_given,
}
use clip_bridge.Core.Lan.Node.DialKeys.{
  add_if, dial_keys, All-contains, All-absent, All-has, All-intro, Distinct-intro,
  contains_key-remove, contains_key-insert, dial_keys-remove-All, dial_keys-remove-Distinct,
  dial_keys-lookup, dial_keys-removed,
}
use clip_bridge.Core.Lan.Node.Guards.{reconcile_one-IsCounted}

pub record IsSingle (n : LanNode) : Type 0 where
  pub distinct : Distinct (dial_keys n.tasks)
  pub held : All (λ k. contains_key k n.outbound_peers ≡ true) (dial_keys n.tasks)

-- Only the tasks and the names matter.
same_dials :
    (n m : LanNode)
    → m.tasks ≡ n.tasks
    → m.outbound_peers ≡ n.outbound_peers
    → IsSingle n
    → IsSingle m
same_dials n m tasks outbound s = record {
  distinct = rw tasks s.distinct;
  held = rw (tasks, outbound) s.held;
}

spawn_outbound-IsSingle :
    (key : Text) (kp : KnownPeer) (n : LanNode)
    → IsCounted n
    → contains_key key n.outbound_peers ≡ false
    → IsSingle n
    → IsSingle (
        spawn_task key
          (some kp)
          (record n { outbound_peers = Assoc.insert key tt n.outbound_peers }))
unfolding spawn_task Assoc.insert dial_keys add_if contains_key
spawn_outbound-IsSingle key kp n c free s =
    let gone : Assoc.remove n.next_task n.tasks ≡ n.tasks =
      remove_missing n.next_task n.tasks (free_id n.next_task n.tasks c.fresh) in
    record {
      distinct = rw gone (
        All-contains (λ k. contains_key k n.outbound_peers) key (dial_keys n.tasks) s.held free,
        s.distinct,
      );
      held = rw gone (
        ground (arith, lookup-insert_self key tt n.outbound_peers),
        All-map (λ k. contains_key k n.outbound_peers ≡ true)
            (λ k. contains_key k (Assoc.insert key tt n.outbound_peers) ≡ true) (dial_keys n.tasks)
            (λ k h. contains_key-insert key k n.outbound_peers h) s.held,
      );
    }

spawn_inbound-IsSingle :
    (key : Text) (n : LanNode) → IsCounted n → IsSingle n → IsSingle (spawn_task key none n)
unfolding spawn_task Assoc.insert dial_keys add_if
spawn_inbound-IsSingle key n c s =
    let gone : Assoc.remove n.next_task n.tasks ≡ n.tasks =
      remove_missing n.next_task n.tasks (free_id n.next_task n.tasks c.fresh) in
    record { distinct = rw gone s.distinct; held = rw gone s.held }

up-IsSingle :
    (id : ℕ) (t : PeerTask) (count : ℕ) (registry : Assoc Text (Text × Text)) (n : LanNode)
    → IsCounted n
    → Assoc.lookup id n.tasks ≡ some t
    → IsSingle n
    → IsSingle (record n {
      peer_count = count;
      peers = registry;
      tasks = Assoc.insert id (record t { guard = true }) n.tasks;
    })
unfolding Assoc.insert dial_keys
up-IsSingle id t count registry n c found s = record {
  distinct =
      Distinct-intro (is_some t.dial) t.registry_key (dial_keys (Assoc.remove id n.tasks))
        (λ out. dial_keys-removed id t n.tasks c.is_map found out s.distinct)
        (dial_keys-remove-Distinct id n.tasks s.distinct);
  held =
      All-intro (λ k. contains_key k n.outbound_peers ≡ true) (is_some t.dial) t.registry_key
        (dial_keys (Assoc.remove id n.tasks))
        (λ out.
          All-has (λ k. contains_key k n.outbound_peers) t.registry_key (dial_keys n.tasks) s.held
            (dial_keys-lookup id t n.tasks found out))
        (dial_keys-remove-All (λ k. contains_key k n.outbound_peers ≡ true) id n.tasks s.held);
}

left_held :
    (id : ℕ) (t : PeerTask) (tasks : Assoc ℕ PeerTask) (outbound : Keys)
    → (t.dial ≡ none) ⊎ ((kp : KnownPeer) × (t.dial ≡ some kp))
    → IsMap tasks
    → Assoc.lookup id tasks ≡ some t
    → Distinct (dial_keys tasks)
    → All (λ k. contains_key k outbound ≡ true) (dial_keys tasks)
    → All
        (λ k. contains_key k (leave_outbound t outbound) ≡ true)
        (dial_keys (Assoc.remove id tasks))
unfolding leave_outbound
left_held id t tasks outbound (inl inbound) m found d held =
    rw (inbound, leave_outbound)
      (dial_keys-remove-All (λ k. contains_key k outbound ≡ true) id tasks held)
left_held id t tasks outbound (inr (kp, out)) m found d held =
    rw (out, leave_outbound)
      (All-map (λ j. (contains_key j outbound ≡ true) × ((j == t.registry_key) ≡ false))
        (λ j. contains_key j (Assoc.remove t.registry_key outbound) ≡ true)
        (dial_keys (Assoc.remove id tasks))
        (λ j h. contains_key-remove t.registry_key j outbound h.0 h.1)
        (All-absent (λ k. contains_key k outbound) t.registry_key
          (dial_keys (Assoc.remove id tasks))
          (dial_keys-remove-All (λ k. contains_key k outbound ≡ true) id tasks held)
          (dial_keys-removed id t tasks m found (ground (arith, out)) d)))

ended-IsSingle :
    (id : ℕ) (t : PeerTask) (count : ℕ) (registry : Assoc Text (Text × Text)) (n : LanNode)
    → IsCounted n
    → Assoc.lookup id n.tasks ≡ some t
    → IsSingle n
    → IsSingle (record n {
      peer_count = count;
      peers = registry;
      tasks = Assoc.remove id n.tasks;
      outbound_peers = leave_outbound t n.outbound_peers;
    })
unfolding leave_outbound
ended-IsSingle id t count registry n c found s = record {
  distinct = dial_keys-remove-Distinct id n.tasks s.distinct;
  held =
      left_held id t n.tasks n.outbound_peers (Option-cases t.dial) c.is_map found s.distinct
        s.held;
}

session_up-IsSingle :
    (id : ℕ) (peer_did name : Text) (n : LanNode)
    → IsCounted n
    → IsSingle n
    → IsSingle (session_up id peer_did name n)
unfolding session_up new_guard
session_up-IsSingle id peer_did name n c s = elim (Option-cases (Assoc.lookup id n.tasks)) [
  | inl missing ↦ rw (missing, session_up) s
  | inr (t, found) ↦
      rw (found, session_up) (if_both IsSingle t.guard _ _ s (up-IsSingle id t _ _ n c found s))
]

task_ended-IsSingle : (id : ℕ) (n : LanNode) → IsCounted n → IsSingle n → IsSingle (task_ended id n)
unfolding task_ended drop_guard
task_ended-IsSingle id n c s = elim (Option-cases (Assoc.lookup id n.tasks)) [
  | inl missing ↦ rw (missing, task_ended) s
  | inr (t, found) ↦
      rw (found, task_ended)
        (if_both
          (λ (m : LanNode). IsSingle (record m {
            tasks = Assoc.remove id n.tasks;
            outbound_peers = leave_outbound t n.outbound_peers;
          }))
          t.guard _ _ (ended-IsSingle id t _ _ n c found s) (ended-IsSingle id t _ _ n c found s))
]

reconcile_one-IsSingle :
    (fullname : Text) (kp : KnownPeer) (n : LanNode)
    → IsCounted n
    → IsSingle n
    → IsSingle (reconcile_one fullname kp n)
unfolding reconcile_one
reconcile_one-IsSingle fullname kp n c s =
    if_given IsSingle (contains_key fullname n.outbound_peers) _ _ (λ busy. s)
      (λ free. spawn_outbound-IsSingle fullname kp n c free s)

reconcile_loop-IsSingle :
    (known : List (Text × KnownPeer)) (n : LanNode)
    → IsCounted n
    → IsSingle n
    → IsSingle (reconcile_loop known n)
unfolding reconcile_loop
reconcile_loop-IsSingle [] n c s = s
reconcile_loop-IsSingle ((fullname, kp) ∷ known) n c s =
    reconcile_loop-IsSingle known (reconcile_one fullname kp n)
      (reconcile_one-IsCounted fullname kp n c) (reconcile_one-IsSingle fullname kp n c s)

service_resolved-IsSingle :
    (local_networks : List LocalNetwork) (info : ServiceInfo) (n : LanNode)
    → IsSingle n
    → IsSingle (service_resolved local_networks info n)
unfolding service_resolved
service_resolved-IsSingle local_networks info n s =
    if_both IsSingle (not (unwrap_or_empty info.gid == n.fingerprint)) _ _ s (
      if_both IsSingle (is_empty (unwrap_or_empty info.did)) _ _ s (
        if_both IsSingle (is_empty (service_candidates local_networks info)) _ _ s (
          if_both IsSingle (not (text_lt (unwrap_or_empty info.did) n.self_device_id)) _ _
            (same_dials n _ refl refl s) (same_dials n _ refl refl s))))

-- The transport is not taken down by the step, or no outbound task is alive.
unfoldable pub IsQuiet : LanNode → LanNode → Type 0
IsQuiet n m = ((n.transport && not m.transport) ≡ false) ⊎ (dial_keys n.tasks ≡ [])

suspend-IsSingle :
    (n : LanNode) → IsQuiet n (suspend n) → n.transport ≡ true → IsSingle n → IsSingle (suspend n)
unfolding IsQuiet suspend
suspend-IsSingle n (inl stays) on s = absurd (ground (arith, stays, on))
suspend-IsSingle n (inr idle) on s = record { distinct = s.distinct; held = rw idle tt }

lifecycle-IsSingle :
    (start : Start) (n : LanNode)
    → IsQuiet n (lifecycle start n)
    → IsSingle n
    → IsSingle (lifecycle start n)
unfolding lifecycle resume
lifecycle-IsSingle start n q s =
    if_given (λ m. IsQuiet n m → IsSingle m) n.transport _ _
      (λ on.
        if_both (λ m. IsQuiet n m → IsSingle m) n.lan_active _ _ (λ k. s)
          (λ k. suspend-IsSingle n k on s))
      (λ off.
        if_both (λ m. IsQuiet n m → IsSingle m) n.lan_active _ _ (λ k. same_dials n _ refl refl s)
          (λ k. s))
      q

-- Every event keeps the invariant but the suspension while an outbound task is alive.
pub Step-IsSingle : {n m : LanNode} → Step n m → IsQuiet n m → IsCounted n → IsSingle n → IsSingle m
unfolding service_removed ingest_relay_peers reconcile accepted set_lan_active resume
Step-IsSingle {n} (resolved local_networks info) q c s =
    service_resolved-IsSingle local_networks info n s
Step-IsSingle {n} (removed fullname) q c s = same_dials n _ refl refl s
Step-IsSingle {n} (snapshot parse local_networks peers) q c s = same_dials n _ refl refl s
Step-IsSingle {n} reconciled q c s =
    if_both IsSingle (not n.lan_active) _ _ s (reconcile_loop-IsSingle n.known_peers n c s)
Step-IsSingle {n} (connected addr) q c s =
    if_both IsSingle (not n.lan_active) _ _ s (spawn_inbound-IsSingle (inbound_key addr) n c s)
Step-IsSingle {n} (up id peer_did name) q c s = session_up-IsSingle id peer_did name n c s
Step-IsSingle {n} (ended id) q c s = task_ended-IsSingle id n c s
Step-IsSingle {n} (switched active) q c s = same_dials n _ refl refl s
Step-IsSingle {n} (turned start) q c s = lifecycle-IsSingle start n q s

-- The states that a node comes to when no suspension finds an outbound task alive.
pub data CalmReach : LanNode → Type 0 where
  calm_start :
      (self_device_id fingerprint : Text) (lan_active : Bool) (start : Start) {n : LanNode}
      → spawn self_device_id fingerprint lan_active start ≡ some n
      → CalmReach n
  calm_next : {n m : LanNode} → CalmReach n → Step n m → IsQuiet n m → CalmReach m

new_node-IsSingle :
    (self_device_id fingerprint : Text) (lan_active : Bool) (start : Start)
    → IsSingle (new_node self_device_id fingerprint lan_active start)
unfolding new_node dial_keys
new_node-IsSingle self_device_id fingerprint lan_active start = record { distinct = tt; held = tt }

calm-invariants : {n : LanNode} → CalmReach n → IsCounted n × IsSingle n
calm-invariants {n} (calm_start self_device_id fingerprint lan_active start h) =
    subst (λ m. IsCounted m × IsSingle m)
      (spawn-new_node self_device_id fingerprint lan_active start n h)
      (
        new_node-IsCounted self_device_id fingerprint lan_active start,
        new_node-IsSingle self_device_id fingerprint lan_active start,
      )
calm-invariants (calm_next r st q) =
    let before = calm-invariants r in
    (Step-IsCounted st before.0, Step-IsSingle st q before.0 before.1)

-- As long as no suspension finds an outbound task alive, no two outbound tasks of a node have the
-- same name, and each of the names is in the set that keeps the reconciler from dialling it again.
pub CalmReach-IsSingle : {n : LanNode} → CalmReach n → IsSingle n
CalmReach-IsSingle r = (calm-invariants r).1
