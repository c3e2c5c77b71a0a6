-- ===== src/Core/Lan/Node/Guards.antt =====
-- What a task that comes, whose guard is made or that ends does to the number and the registry of
-- the sessions of a LAN node (core/src/lan.rs).
use clip_bridge.Core.Lan.Peers.{KnownPeer, LocalNetwork}
use clip_bridge.Core.Lan.Node.{
  PeerTask, LanNode, service_resolved, contains_key, spawn_task, reconcile_one, reconcile_loop,
  usize, new_guard, drop_guard, leave_outbound, session_up, task_ended, ServiceInfo,
  unwrap_or_empty, service_candidates,
}
use clip_bridge.Prelude.Assoc
use clip_bridge.Prelude.Assoc.{
  Assoc, IsMap, is_some, lookup-remove, lookup-insert, lookup-insert_self, remove-IsMap,
  insert-IsMap, All-remove, All-remove_other, All-lookup, length-remove, remove_missing,
  length-remove_found,
}
use clip_bridge.Prelude.{
  ℕ, ◌+◌, ◌%◌, ◌<◌, ◌≡◌, inl, inr, refl, ap, subst, Bool, true, false, not, ◌&&◌, Option, none,
  some, List, [], ◌∷◌, arith, if◌then◌else◌, ◌==◌, eq_iff, eq_refl, eq_symm, list_eq, nat_eq,
  option_eq, is_empty, All, All-map, any, Text, text_lt, Bool-cases, Option-cases, if_both,
}

-- The tasks with a live guard.
unfoldable pub guards : Assoc ℕ PeerTask → ℕ
guards [] = 0
guards ((i, t) ∷ tasks) = (if t.guard then 1 else 0) + guards tasks

unfoldable pub is_session_of : Text → PeerTask → Bool
is_session_of k t = t.guard && t.registry_key == k

unfoldable pub has_session : Text → Assoc ℕ PeerTask → Bool
has_session k tasks = any (λ e. is_session_of k e.1) tasks

guards-remove :
    (id : ℕ) (t : PeerTask) (tasks : Assoc ℕ PeerTask)
    → IsMap tasks
    → Assoc.lookup id tasks ≡ some t
    → guards (Assoc.remove id tasks) + (if t.guard then 1 else 0) ≡ guards tasks
unfolding guards Assoc.remove Assoc.lookup
guards-remove id t [] m h = absurd (ground arith)
guards-remove id t ((i, u) ∷ tasks) m h = elim (Bool-cases (i == id)) [
  | inl same ↦
      let e : i ≡ id = (eq_iff i id).0 same in
      let gone : Assoc.remove id tasks ≡ tasks =
        remove_missing id tasks (subst (λ j. Assoc.lookup j tasks ≡ none) e m.0) in
      let v : u ≡ t = ground (arith, h, same) in rw (same, gone, v) (omega arith)
  | inr other ↦
      let rest = guards-remove id t tasks m.1 (ground (arith, h, other)) in
      rw other (omega (arith, rest))
]

less_idle :
    (id : ℕ) (t : PeerTask) (tasks : Assoc ℕ PeerTask)
    → IsMap tasks
    → Assoc.lookup id tasks ≡ some t
    → t.guard ≡ false
    → guards (Assoc.remove id tasks) ≡ guards tasks
less_idle id t tasks m found idle = ground (arith, guards-remove id t tasks m found, idle)

less_live :
    (id : ℕ) (t : PeerTask) (tasks : Assoc ℕ PeerTask)
    → IsMap tasks
    → Assoc.lookup id tasks ≡ some t
    → t.guard ≡ true
    → guards (Assoc.remove id tasks) + 1 ≡ guards tasks
less_live id t tasks m found live = ground (arith, guards-remove id t tasks m found, live)

has_session-remove :
    (k : Text) (id : ℕ) (t : PeerTask) (tasks : Assoc ℕ PeerTask)
    → IsMap tasks
    → Assoc.lookup id tasks ≡ some t
    → is_session_of k t ≡ false
    → has_session k tasks ≡ true
    → has_session k (Assoc.remove id tasks) ≡ true
unfolding has_session any Assoc.remove Assoc.lookup
has_session-remove k id t [] m h f s = absurd (ground arith)
has_session-remove k id t ((i, u) ∷ tasks) m h f s = elim (Bool-cases (i == id)) [
  | inl same ↦
      let e : i ≡ id = (eq_iff i id).0 same in
      let gone : Assoc.remove id tasks ≡ tasks =
        remove_missing id tasks (subst (λ j. Assoc.lookup j tasks ≡ none) e m.0) in
      let v : u ≡ t = ground (arith, h, same) in
      rw (same, gone) (ground (arith, s, f, ap (is_session_of k) v))
  | inr other ↦
      let rest = has_session-remove k id t tasks m.1 (ground (arith, h, other)) f in
      rw other (ground (arith, rest, s))
]

pub record IsCounted (n : LanNode) : Type 0 where
  pub is_map : IsMap n.tasks
  pub fresh : All (λ e. e.0 < n.next_task) n.tasks
  pub count : n.peer_count ≡ guards n.tasks % usize
  pub registered : All (λ e. has_session e.0 n.tasks ≡ true) n.peers

pub free_id :
    (id : ℕ) (tasks : Assoc ℕ PeerTask) → All (λ e. e.0 < id) tasks → Assoc.lookup id tasks ≡ none
free_id id tasks all = elim (Option-cases (Assoc.lookup id tasks)) [
  | inl free ↦ free
  | inr (t, taken) ↦ absurd (omega (arith, All-lookup (λ e. e.0 < id) id t tasks all taken))
]

pub spawn_task-IsCounted :
    (key : Text) (dial : Option KnownPeer) (n : LanNode)
    → IsCounted n
    → IsCounted (spawn_task key dial n)
unfolding spawn_task Assoc.insert guards has_session any is_session_of
spawn_task-IsCounted key dial n c =
    let gone : Assoc.remove n.next_task n.tasks ≡ n.tasks =
      remove_missing n.next_task n.tasks (free_id n.next_task n.tasks c.fresh) in
    record {
      is_map = (rw gone (free_id n.next_task n.tasks c.fresh), rw gone c.is_map);
      fresh = (
        omega arith,
        rw gone (
            All-map (λ e. e.0 < n.next_task) (λ e. e.0 < n.next_task + 1) n.tasks
              (λ e h. omega (arith, h)) c.fresh),
      );
      count = rw gone (omega (arith, c.count));
      registered = rw gone c.registered;
    }

pub reconcile_one-IsCounted :
    (fullname : Text) (kp : KnownPeer) (n : LanNode)
    → IsCounted n
    → IsCounted (reconcile_one fullname kp n)
unfolding reconcile_one
reconcile_one-IsCounted fullname kp n c =
    elim (Bool-cases (contains_key fullname n.outbound_peers)) [
      | inl busy ↦ rw busy c
      | inr idle ↦ rw idle (
          spawn_task-IsCounted fullname (some kp)
            (record n { outbound_peers = Assoc.insert fullname tt n.outbound_peers })
            (record {
              is_map = c.is_map;
              fresh = c.fresh;
              count = c.count;
              registered = c.registered;
            }))
    ]

pub reconcile_loop-IsCounted :
    (peers : List (Text × KnownPeer)) (n : LanNode)
    → IsCounted n
    → IsCounted (reconcile_loop peers n)
unfolding reconcile_loop
reconcile_loop-IsCounted [] n c = c
reconcile_loop-IsCounted ((fullname, kp) ∷ peers) n c =
    reconcile_loop-IsCounted peers (reconcile_one fullname kp n)
      (reconcile_one-IsCounted fullname kp n c)

-- Only the tasks, their number and the registry matter.
pub same_tasks :
    (n m : LanNode)
    → m.tasks ≡ n.tasks
    → m.next_task ≡ n.next_task
    → m.peer_count ≡ n.peer_count
    → m.peers ≡ n.peers
    → IsCounted n
    → IsCounted m
same_tasks n m tasks id count peers c = record {
  is_map = rw tasks c.is_map;
  fresh = rw (tasks, id) c.fresh;
  count = rw (tasks, count) c.count;
  registered = rw (tasks, peers) c.registered;
}

pub service_resolved-IsCounted :
    (local_networks : List LocalNetwork) (info : ServiceInfo) (n : LanNode)
    → IsCounted n
    → IsCounted (service_resolved local_networks info n)
unfolding service_resolved
service_resolved-IsCounted local_networks info n c =
    if_both IsCounted (not (unwrap_or_empty info.gid == n.fingerprint)) _ _ c (
      if_both IsCounted (is_empty (unwrap_or_empty info.did)) _ _ c (
        if_both IsCounted (is_empty (service_candidates local_networks info)) _ _ c (
          if_both IsCounted (not (text_lt (unwrap_or_empty info.did) n.self_device_id)) _ _
            (same_tasks n _ refl refl refl refl c) (same_tasks n _ refl refl refl refl c))))

-- A registered session that is not the one of the task at hand is still one.
still_registered :
    (peers : Assoc Text (Text × Text)) (tasks left : Assoc ℕ PeerTask)
    → ((k : Text) → has_session k tasks ≡ true → has_session k left ≡ true)
    → All (λ e. has_session e.0 tasks ≡ true) peers
    → All (λ e. has_session e.0 left ≡ true) peers
still_registered peers tasks left keeps all =
    All-map (λ e. has_session e.0 tasks ≡ true) (λ e. has_session e.0 left ≡ true) peers
      (λ e h. keeps e.0 h) all

no_guard : (k : Text) (t : PeerTask) → t.guard ≡ false → is_session_of k t ≡ false
unfolding is_session_of
no_guard k t h = ground (arith, h)

has_session-up :
    (k : Text) (id : ℕ) (t : PeerTask) (tasks : Assoc ℕ PeerTask)
    → IsMap tasks
    → Assoc.lookup id tasks ≡ some t
    → t.guard ≡ false
    → has_session k tasks ≡ true
    → has_session k (Assoc.insert id (record t { guard = true }) tasks) ≡ true
unfolding has_session any Assoc.insert
has_session-up k id t tasks m found new h =
    let rest = has_session-remove k id t tasks m found (no_guard k t new) h in ground (arith, rest)

up-IsCounted :
    (id : ℕ) (t : PeerTask) (peer_did name : Text) (n : LanNode)
    → Assoc.lookup id n.tasks ≡ some t
    → t.guard ≡ false
    → IsCounted n
    → IsCounted (record (new_guard t.registry_key peer_did name n) {
      tasks = Assoc.insert id (record t { guard = true }) n.tasks;
    })
unfolding new_guard Assoc.insert guards has_session any is_session_of
up-IsCounted id t peer_did name n found new c = record {
  is_map = insert-IsMap id (record t { guard = true }) n.tasks c.is_map;
  fresh = (
    All-lookup (λ e. e.0 < n.next_task) id t n.tasks c.fresh found,
    All-remove (λ e. e.0 < n.next_task) id n.tasks c.fresh,
  );
  count = omega (arith, c.count, less_idle id t n.tasks c.is_map found new);
  registered = (
    ground (arith, eq_refl t.registry_key),
    All-remove (λ e. has_session e.0 (Assoc.insert id (record t { guard = true }) n.tasks) ≡ true)
        t.registry_key n.peers
        (still_registered n.peers n.tasks (Assoc.insert id (record t { guard = true }) n.tasks)
          (λ k h. has_session-up k id t n.tasks c.is_map found new h) c.registered),
  );
}

ended-IsCounted :
    (id : ℕ) (t : PeerTask) (n : LanNode)
    → Assoc.lookup id n.tasks ≡ some t
    → t.guard ≡ true
    → IsCounted n
    → IsCounted (record (drop_guard t.registry_key n) {
      tasks = Assoc.remove id n.tasks;
      outbound_peers = leave_outbound t n.outbound_peers;
    })
unfolding drop_guard is_session_of
ended-IsCounted id t n found live c = record {
  is_map = remove-IsMap id n.tasks c.is_map;
  fresh = All-remove (λ e. e.0 < n.next_task) id n.tasks c.fresh;
  count = omega (arith, c.count, less_live id t n.tasks c.is_map found live);
  registered =
      All-map (λ e. (has_session e.0 n.tasks ≡ true) × ((e.0 == t.registry_key) ≡ false))
        (λ e. has_session e.0 (Assoc.remove id n.tasks) ≡ true)
        (Assoc.remove t.registry_key n.peers)
        (λ e h.
          has_session-remove e.0 id t n.tasks c.is_map found
            (ground (arith, h.1, eq_symm e.0 t.registry_key)) h.0)
        (All-remove_other (λ e. has_session e.0 n.tasks ≡ true) t.registry_key n.peers
          c.registered);
}

pub session_up-IsCounted :
    (id : ℕ) (peer_did name : Text) (n : LanNode)
    → IsCounted n
    → IsCounted (session_up id peer_did name n)
unfolding session_up new_guard
session_up-IsCounted id peer_did name n c = elim (Option-cases (Assoc.lookup id n.tasks)) [
  | inl missing ↦ rw (missing, session_up) c
  | inr (t, found) ↦ elim (Bool-cases t.guard) [
    | inl already ↦ rw (found, session_up, already) c
    | inr new ↦ rw (found, session_up, new) (up-IsCounted id t peer_did name n found new c)
  ]
]

pub task_ended-IsCounted : (id : ℕ) (n : LanNode) → IsCounted n → IsCounted (task_ended id n)
unfolding task_ended leave_outbound
task_ended-IsCounted id n c = elim (Option-cases (Assoc.lookup id n.tasks)) [
  | inl missing ↦ rw (missing, task_ended) c
  | inr (t, found) ↦ elim (Bool-cases t.guard) [
    | inl live ↦ rw (found, task_ended, live) (ended-IsCounted id t n found live c)
    | inr idle ↦
        rw (found, task_ended, idle)
          (record {
            is_map = remove-IsMap id n.tasks c.is_map;
            fresh = All-remove (λ e. e.0 < n.next_task) id n.tasks c.fresh;
            count = omega (arith, c.count, less_idle id t n.tasks c.is_map found idle);
            registered =
                still_registered n.peers n.tasks (Assoc.remove id n.tasks)
                  (λ k h. has_session-remove k id t n.tasks c.is_map found (no_guard k t idle) h)
                  c.registered;
          })
  ]
]
