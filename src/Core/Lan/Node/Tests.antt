-- ===== src/Core/Lan/Node/Tests.antt =====
-- Runs of a LAN node (core/src/lan.rs) that the theorems about it are applied to.
use clip_bridge.Core.Net.{v4}
use clip_bridge.Core.Lan.Peers.{
  KnownPeer, same_subnet, dial_rank, insert_sorted, sort_by_key, sort_candidates_for_dial,
  is_local_interface_candidate, drop_local_interface_candidates,
}
use clip_bridge.Core.Net.{is_unroutable}
use clip_bridge.Core.Lan.Node.{
  LanNode, started, is_started, port_after, new_node, spawn, ServiceInfo, unwrap_or_empty,
  service_candidates, service_resolved, contains_key, spawn_task, reconcile_one, reconcile_loop,
  reconcile, session_up, task_ended, set_lan_active, suspend, resume, lifecycle,
}
use clip_bridge.Core.Lan.Node.Steps.{
  Reach, resolved, reconciled, up, switched, turned, spawned, next,
}
use clip_bridge.Core.Lan.Node.Guards.{IsCounted}
use clip_bridge.Core.Lan.Node.Counting.{Reach-IsCounted}
use clip_bridge.Core.Lan.Node.Dialing.{dials, dials_device, dials_device-one_side}
use clip_bridge.Core.Lan.Node.Outbound.{
  IsSingle, IsQuiet, calm_start, calm_next, CalmReach-IsSingle,
}
use clip_bridge.Core.Lan.Node.Lifecycle.{fresh_dial, stale_dial_doubles}
use clip_bridge.Prelude.Assoc
use clip_bridge.Prelude.Assoc.{
  Assoc, IsMap, is_some, lookup-remove, lookup-insert, lookup-insert_self, remove-IsMap,
  insert-IsMap, All-remove, All-remove_other, All-lookup, length-remove, remove_missing,
  length-remove_found,
}
use clip_bridge.Prelude.{
  ◌+◌, ◌≡◌, inl, refl, true, false, some, [], ◌∷◌, arith, list_eq, nat_eq, option_eq, list_beq,
  retain, any, Text, codes, text_lt,
}

abbrev fp : Text
fp = codes "f"

-- The service of the device `did`.
abbrev service_of : Text → ServiceInfo
service_of did = record {
  fullname = codes "s";
  gid = some fp;
  did = some did;
  addresses = v4 7 ∷ [];
  svc_port = 9;
}

abbrev ann : Text
ann = codes "a"

abbrev bob : Text
bob = codes "b"

abbrev peer_ann : KnownPeer
peer_ann = record { peer_did = ann; candidates = record { ip = v4 7; port = 9 } ∷ [] }

abbrev fresh_node : Text → LanNode
fresh_node did = new_node did fp true (started 4)

-- Bob's node has found Ann's device and dials it.
abbrev dialling : LanNode
dialling = reconcile (service_resolved [] (service_of ann) (fresh_node bob))

dialling-Reach : Reach dialling
unfolding spawn is_started
dialling-Reach =
    next (next (spawned bob fp true (started 4) refl) (resolved [] (service_of ann))) reconciled

Reach-IsCounted_example : IsCounted (session_up 0 ann (codes "Ann") dialling)
Reach-IsCounted_example = Reach-IsCounted (next dialling-Reach (up 0 ann (codes "Ann")))

-- Ann's node has found Bob's device.
abbrev told : LanNode
told = reconcile (service_resolved [] (service_of bob) (fresh_node ann))

told-Reach : Reach told
unfolding spawn is_started
told-Reach =
    next (next (spawned ann fp true (started 4) refl) (resolved [] (service_of bob))) reconciled

bob_dials : dials_device told.self_device_id dialling.tasks ≡ true
unfolding new_node port_after service_resolved unwrap_or_empty service_candidates
    sort_candidates_for_dial drop_local_interface_candidates is_local_interface_candidate
    sort_by_key insert_sorted dial_rank same_subnet is_unroutable retain any text_lt reconcile
    reconcile_loop reconcile_one contains_key spawn_task Assoc.insert Assoc.remove Assoc.lookup
    list_beq dials_device dials
bob_dials = refl

dials_device-one_side_example : dials_device dialling.self_device_id told.tasks ≡ false
dials_device-one_side_example = dials_device-one_side dialling-Reach told-Reach bob_dials

-- The transport is up before and after a step of discovery.
stays_up : (n m : LanNode) → m.transport ≡ true → IsQuiet n m
unfolding IsQuiet
stays_up n m h = inl (ground (arith, h))

found_stays : (service_resolved [] (service_of ann) (fresh_node bob)).transport ≡ true
unfolding new_node port_after service_resolved unwrap_or_empty service_candidates
    sort_candidates_for_dial drop_local_interface_candidates is_local_interface_candidate
    sort_by_key insert_sorted dial_rank same_subnet is_unroutable retain any text_lt reconcile
    reconcile_loop reconcile_one contains_key spawn_task Assoc.insert Assoc.remove Assoc.lookup
    list_beq
found_stays = refl

dialling_stays : dialling.transport ≡ true
unfolding new_node port_after service_resolved unwrap_or_empty service_candidates
    sort_candidates_for_dial drop_local_interface_candidates is_local_interface_candidate
    sort_by_key insert_sorted dial_rank same_subnet is_unroutable retain any text_lt reconcile
    reconcile_loop reconcile_one contains_key spawn_task Assoc.insert Assoc.remove Assoc.lookup
    list_beq
dialling_stays = refl

CalmReach-IsSingle_example : IsSingle dialling
unfolding spawn is_started
CalmReach-IsSingle_example = CalmReach-IsSingle (
    calm_next
      (calm_next (calm_start bob fp true (started 4) refl) (resolved [] (service_of ann)) (
        stays_up (fresh_node bob) (service_resolved [] (service_of ann) (fresh_node bob))
          found_stays))
      reconciled
      (stays_up (service_resolved [] (service_of ann) (fresh_node bob)) dialling dialling_stays))

-- Bob's node is suspended while it dials, is active again, and finds Ann's device again.
abbrev found_again : LanNode
found_again = service_resolved [] (service_of ann) (
    lifecycle (started 5)
      (set_lan_active true (lifecycle (started 5) (set_lan_active false dialling))))

found_again-Reach : Reach found_again
found_again-Reach =
    next
      (next
        (next (next (next dialling-Reach (switched false)) (turned (started 5))) (switched true))
        (turned (started 5)))
      (resolved [] (service_of ann))

found_again_state :
    (found_again.lan_active ≡ true)
    × (found_again.known_peers ≡ (codes "s", peer_ann) ∷ [])
    × (found_again.outbound_peers ≡ [])
    × (Assoc.lookup 0 found_again.tasks ≡ some (fresh_dial (codes "s") peer_ann))
unfolding new_node port_after service_resolved unwrap_or_empty service_candidates
    sort_candidates_for_dial drop_local_interface_candidates is_local_interface_candidate
    sort_by_key insert_sorted dial_rank same_subnet is_unroutable retain any text_lt reconcile
    reconcile_loop reconcile_one contains_key spawn_task Assoc.insert Assoc.remove Assoc.lookup
    list_beq set_lan_active lifecycle suspend resume is_started
found_again_state = (refl, refl, refl, refl)

stale_dial_doubles_example :
    (Assoc.lookup found_again.next_task (reconcile (task_ended 0 (reconcile found_again))).tasks
      ≡ some (fresh_dial (codes "s") peer_ann))
    × (Assoc.lookup
          (found_again.next_task + 1)
          (reconcile (task_ended 0 (reconcile found_again))).tasks
        ≡ some (fresh_dial (codes "s") peer_ann))
stale_dial_doubles_example =
    stale_dial_doubles found_again 0 (fresh_dial (codes "s") peer_ann) (codes "s") peer_ann
      found_again-Reach found_again_state.0 found_again_state.1 found_again_state.2
      found_again_state.3 refl refl
