-- ===== src/Core/Lan/Node/Lifecycle.antt =====
-- Suspending and resuming a LAN node of core/src/lan.rs.
use clip_bridge.Core.Net.{SocketAddr}
use clip_bridge.Core.Lan.Interfaces.{Interface, local_private_candidate_networks}
use clip_bridge.Core.Lan.Peers.{KnownPeer}
use clip_bridge.Core.Lan.Node.{
  PeerTask, Keys, LanNode, Start, mdns_failed, port_after, is_started, contains_key, spawn_task,
  reconcile_one, reconcile_loop, reconcile, drop_guard, leave_outbound, task_ended, suspend, resume,
  lifecycle, advertise_candidate_networks,
}
use clip_bridge.Core.Lan.Node.Guards.{IsCounted}
use clip_bridge.Core.Lan.Node.Counting.{Reach-IsCounted}
use clip_bridge.Core.Lan.Node.Steps.{Reach}
use clip_bridge.Prelude.Assoc
use clip_bridge.Prelude.Assoc.{
  Assoc, IsMap, is_some, lookup-remove, lookup-insert, lookup-insert_self, remove-IsMap,
  insert-IsMap, All-remove, All-lookup, length-remove, remove_missing, length-remove_found,
}
use clip_bridge.Prelude.{
  ℕ, ◌+◌, ◌<◌, ◌≡◌, inl, inr, refl, sym, ap, subst, ◌∙◌, true, false, Option, some, List, [], ◌∷◌,
  arith, if◌then◌else◌, ◌==◌, eq_refl, list_eq, nat_eq, option_eq, Text, Option-cases, if_both,
}

reconcile_new :
    (k : Text) (kp : KnownPeer) (n : LanNode)
    → n.lan_active ≡ true
    → n.known_peers ≡ (k, kp) ∷ []
    → contains_key k n.outbound_peers ≡ false
    → reconcile n
      ≡ spawn_task k (some kp) (record n { outbound_peers = Assoc.insert k tt n.outbound_peers })
unfolding reconcile reconcile_loop reconcile_one
reconcile_new k kp n active known free = rw (active, known, reconcile_loop, free) refl

-- What the end of a task leaves.
record IsEnded (id : ℕ) (t : PeerTask) (n m : LanNode) : Type 0 where
  tasks : m.tasks ≡ Assoc.remove id n.tasks
  outbound : m.outbound_peers ≡ leave_outbound t n.outbound_peers
  known : m.known_peers ≡ n.known_peers
  active : m.lan_active ≡ n.lan_active
  next_task : m.next_task ≡ n.next_task

task_ended-IsEnded :
    (id : ℕ) (t : PeerTask) (n : LanNode)
    → Assoc.lookup id n.tasks ≡ some t
    → IsEnded id t n (task_ended id n)
unfolding task_ended drop_guard
task_ended-IsEnded id t n found =
    rw (found, task_ended)
      (if_both
        (λ (m : LanNode). IsEnded id t n (record m {
          tasks = Assoc.remove id n.tasks;
          outbound_peers = leave_outbound t n.outbound_peers;
        }))
        t.guard _ _
        (record { tasks = refl; outbound = refl; known = refl; active = refl; next_task = refl })
        (record { tasks = refl; outbound = refl; known = refl; active = refl; next_task = refl }))

abbrev pub fresh_dial : Text → KnownPeer → PeerTask
fresh_dial k kp = record { registry_key = k; dial = some kp; guard = false }

-- The node after the reconciler dialled `k`.
abbrev redialled : Text → KnownPeer → LanNode → LanNode
redialled k kp n =
    spawn_task k (some kp) (record n { outbound_peers = Assoc.insert k tt n.outbound_peers })

lookup-redialled :
    (j : ℕ) (k : Text) (kp : KnownPeer) (n : LanNode)
    → Assoc.lookup j (redialled k kp n).tasks
      ≡ (if n.next_task == j then some (fresh_dial k kp) else Assoc.lookup j n.tasks)
unfolding spawn_task
lookup-redialled j k kp n = lookup-insert n.next_task j (fresh_dial k kp) n.tasks

left_free :
    (t : PeerTask) (k : Text) (m : Keys)
    → t.registry_key ≡ k
    → is_some t.dial ≡ true
    → contains_key k (leave_outbound t m) ≡ false
unfolding contains_key leave_outbound
left_free t k m key dial = elim (Option-cases t.dial) [
  | inl inbound ↦ absurd (ground (arith, inbound, dial))
  | inr (kp, out) ↦ rw (out, leave_outbound, key) (ground (arith, lookup-remove k k m, eq_refl k))
]

-- A task of the name `k` ends while the one that was spawned last is alive: `k` is dialled again.
ended_redialled :
    (n : LanNode) (id : ℕ) (t : PeerTask) (k : Text) (kp : KnownPeer)
    → n.lan_active ≡ true
    → n.known_peers ≡ (k, kp) ∷ []
    → Assoc.lookup id n.tasks ≡ some t
    → t.registry_key ≡ k
    → is_some t.dial ≡ true
    → reconcile (task_ended id n) ≡ redialled k kp (task_ended id n)
ended_redialled n id t k kp active known found key dial =
    let e = task_ended-IsEnded id t n found in
    reconcile_new k kp (task_ended id n) (e.active ∙ active) (e.known ∙ known) (
      subst (λ m. contains_key k m ≡ false) (sym e.outbound)
        (left_free t k n.outbound_peers key dial))

doubled :
    (n : LanNode) (id : ℕ) (t : PeerTask) (k : Text) (kp : KnownPeer)
    → IsCounted n
    → n.lan_active ≡ true
    → n.known_peers ≡ (k, kp) ∷ []
    → Assoc.lookup id n.tasks ≡ some t
    → t.registry_key ≡ k
    → is_some t.dial ≡ true
    → (Assoc.lookup n.next_task (reconcile (task_ended id (redialled k kp n))).tasks
        ≡ some (fresh_dial k kp))
      × (Assoc.lookup (n.next_task + 1) (reconcile (task_ended id (redialled k kp n))).tasks
          ≡ some (fresh_dial k kp))
unfolding spawn_task
doubled n id t k kp c active known found key dial =
    let lt : id < n.next_task = All-lookup (λ e. e.0 < n.next_task) id t n.tasks c.fresh found in
    let here : Assoc.lookup id (redialled k kp n).tasks ≡ some t =
      ground (arith, lookup-redialled id k kp n, found, lt) in
    let e = task_ended-IsEnded id t (redialled k kp n) here in
    let m = task_ended id (redialled k kp n) in
    let old : Assoc.lookup n.next_task m.tasks ≡ some (fresh_dial k kp) =
      ap (λ ts. Assoc.lookup n.next_task ts) e.tasks
      ∙ ground (
        arith,
        lookup-remove id n.next_task (redialled k kp n).tasks,
        lookup-redialled n.next_task k kp n,
        lt,
      ) in
    rw (ended_redialled (redialled k kp n) id t k kp active known here key dial) (
      ground (arith, lookup-redialled n.next_task k kp m, e.next_task, old),
      ground (arith, lookup-redialled (n.next_task + 1) k kp m, e.next_task),
    )

-- An outbound task that outlived a suspension ends after the node is active again, has found its
-- peer, and no other, again and, with no peer in its set, dials it: then the peer is dialled once more, so that two tasks
-- that no suspension outlived dial it at the same time.
pub stale_dial_doubles :
    (n : LanNode) (id : ℕ) (t : PeerTask) (k : Text) (kp : KnownPeer)
    → Reach n
    → n.lan_active ≡ true
    → n.known_peers ≡ (k, kp) ∷ []
    → n.outbound_peers ≡ []
    → Assoc.lookup id n.tasks ≡ some t
    → t.registry_key ≡ k
    → is_some t.dial ≡ true
    → (Assoc.lookup n.next_task (reconcile (task_ended id (reconcile n))).tasks
        ≡ some (fresh_dial k kp))
      × (Assoc.lookup (n.next_task + 1) (reconcile (task_ended id (reconcile n))).tasks
          ≡ some (fresh_dial k kp))
unfolding contains_key Assoc.lookup
stale_dial_doubles n id t k kp r active known out found key dial =
    rw (reconcile_new k kp n active known (rw out refl))
      (doubled n id t k kp (Reach-IsCounted r) active known found key dial)

-- A suspended node keeps no peer to dial or to fetch from, and advertises nothing.
pub lifecycle-suspended :
    (to_string : SocketAddr → Text) (ifaces : Option (List Interface)) (start : Start) (n : LanNode)
    → n.transport ≡ true
    → n.lan_active ≡ false
    → ((lifecycle start n).known_peers ≡ [])
      × ((lifecycle start n).peer_addrs ≡ [])
      × (advertise_candidate_networks to_string ifaces (lifecycle start n) ≡ [])
unfolding lifecycle suspend advertise_candidate_networks
lifecycle-suspended to_string ifaces start n on idle = rw (on, idle) (refl, refl, refl)

-- A resumption that fails after the listener was bound leaves the transport down, and the node
-- advertises the addresses of the port whose listener is gone, as long as the port is not 0.
pub lifecycle-half_started :
    (to_string : SocketAddr → Text) (ifaces : Option (List Interface)) (bound_port : ℕ)
    (n : LanNode)
    → n.transport ≡ false
    → n.lan_active ≡ true
    → (bound_port == 0) ≡ false
    → ((lifecycle (mdns_failed bound_port) n).transport ≡ false)
      × (advertise_candidate_networks to_string ifaces (lifecycle (mdns_failed bound_port) n)
          ≡ local_private_candidate_networks to_string ifaces bound_port)
unfolding lifecycle resume is_started port_after advertise_candidate_networks
lifecycle-half_started to_string ifaces bound_port n off active bound =
    rw (off, active) (refl, rw bound refl)
