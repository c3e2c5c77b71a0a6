-- ===== src/Core/Lan/Node/Dialing.antt =====
-- Which peers a LAN node of core/src/lan.rs dials, in every state that its events lead to.
use clip_bridge.Core.Lan.Node.Targets.{IsTarget, DialsTarget, Reach-IsPolite}
use clip_bridge.Core.Lan.Peers.{KnownPeer}
use clip_bridge.Core.Lan.Node.{PeerTask, LanNode}
use clip_bridge.Core.Lan.Node.Steps.{Reach}
use clip_bridge.Prelude.Assoc.{Assoc}
use clip_bridge.Prelude.{
  ℕ, ◌≡◌, inl, inr, refl, subst, Bool, true, false, Option, none, some, [], ◌∷◌, arith, ◌==◌,
  eq_iff, list_eq, nat_eq, option_eq, All, any, Text, text_lt, Bool-cases,
}

-- Whether a task of the node dials this device.
unfoldable pub dials : Text → PeerTask → Bool
dials did t = elim t.dial [ none ↦ false | some kp ↦ kp.peer_did == did ]

unfoldable pub dials_device : Text → Assoc ℕ PeerTask → Bool
dials_device did tasks = any (λ e. dials did e.1) tasks

text_lt-asymm : (a b : Text) → text_lt a b ≡ true → text_lt b a ≡ false
unfolding text_lt
text_lt-asymm [] [] h = refl
text_lt-asymm [] (y ∷ ys) h = refl
text_lt-asymm (x ∷ xs) [] h = absurd (ground (arith, h))
text_lt-asymm (x ∷ xs) (y ∷ ys) h = ground (arith, text_lt-asymm xs ys)

dialled-smaller :
    (self did : Text) (dial : Option KnownPeer)
    → elim dial as (λ x. Type 0) [ none ↦ Unit | some kp ↦ IsTarget self kp ]
    → elim dial as (λ x. Bool) [ none ↦ false | some kp ↦ kp.peer_did == did ] ≡ true
    → text_lt did self ≡ true
dialled-smaller self did none target h = absurd (ground (arith, h))
dialled-smaller self did (some kp) target h =
    subst (λ d. text_lt d self ≡ true) ((eq_iff kp.peer_did did).0 h) target.0

dials_device-smaller :
    (self did : Text) (tasks : Assoc ℕ PeerTask)
    → All (λ e. DialsTarget self e.1) tasks
    → dials_device did tasks ≡ true
    → text_lt did self ≡ true
unfolding dials_device dials any
dials_device-smaller self did [] all h = absurd (ground arith)
dials_device-smaller self did ((i, t) ∷ tasks) all h = elim (Bool-cases (dials did t)) [
  | inl this ↦ dialled-smaller self did t.dial all.0 this
  | inr other ↦ dials_device-smaller self did tasks all.1 (ground (arith, h, other))
]

-- Of two hosts at most one dials the other: whatever the two have been told by multicast and by
-- the relay, when a task of the first dials the device of the second, none of the second dials the
-- device of the first.
pub dials_device-one_side :
    {n m : LanNode}
    → Reach n
    → Reach m
    → dials_device m.self_device_id n.tasks ≡ true
    → dials_device n.self_device_id m.tasks ≡ false
dials_device-one_side {n} {m} rn rm h = elim (Bool-cases (dials_device n.self_device_id m.tasks)) [
  | inr quiet ↦ quiet
  | inl both ↦
      let ab =
        dials_device-smaller n.self_device_id m.self_device_id n.tasks (Reach-IsPolite rn).dialled
          h in
      let ba =
        dials_device-smaller m.self_device_id n.self_device_id m.tasks (Reach-IsPolite rm).dialled
          both in
      absurd (ground (arith, ab, ba, text_lt-asymm m.self_device_id n.self_device_id ab))
]
