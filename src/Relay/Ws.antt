-- ===== src/Relay/Ws.antt =====
-- relay/src/ws.rs: one WebSocket connection. The arms of its `select!` are events; between two of
-- them nothing awaits but sends to the client, so each event is one step of the hub. What a step
-- sends is returned as a list.
pub mod Access
pub mod Closing
use clip_bridge.Core.Crypto.{Bytes}
use clip_bridge.Core.Net.{IpAddr, AddrText}
use clip_bridge.Core.Protocol.{
  LanCandidate, LanPeer, RecentClip, ClientMessage, join, publish, fetch_recent, lan_advertise,
  ServerMessage, joined, clip, recent, error, lan_peers,
}
use clip_bridge.Prelude.Chars.{is_control, is_whitespace, trim_matches}
use clip_bridge.Prelude.Assoc
use clip_bridge.Prelude.Assoc.{
  Assoc, IsMap, is_some, lookup-remove, lookup-insert, lookup-insert_self, remove-IsMap,
  insert-IsMap, All-remove, All-lookup, length-remove, remove_missing, length-remove_found,
}
use clip_bridge.Prelude.{
  String, ℕ, zero, suc, ◌+◌, ◌-◌, ◌*◌, ◌/◌, ◌%◌, ◌^◌, ◌≤◌, ◌<◌, ◌≡◌, ◌≢◌, ◌↔◌, ◌⊎◌, inl, inr, refl,
  sym, ap, subst, ◌∙◌, Bool, true, false, not, ◌&&◌, ◌||◌, Option, none, some, List, [], ◌∷◌, ◌++◌,
  map, append-nil, append_assoc, arith, ltb, leb, if◌then◌else◌, Eq, ◌==◌, eq_iff, eq_refl, ne-eq,
  eq_symm, list_eq, nat_eq, option_eq, length, is_empty, take, drop, All, All-append, All-map,
  length-append, retain, any, contains, Distinct, length-retain, retain-append, Text, codes,
  text_lt, starts_with, Bool-cases, Option-cases, ltb→lt, leb→le, leb→gt, le→leb, length-take,
  length-drop, take-append-drop, drop-all, contains-append, Distinct-append_one, retain_all,
  All-retain, nat_beq,
}
use clip_bridge.Relay.Candidates.{sanitize_lan_advertise}
use clip_bridge.Relay.Hub
use clip_bridge.Relay.Hub.{Hub, RvConn}

unfoldable pub sanitize_device_name : Text → Text
sanitize_device_name name =
    trim_matches is_whitespace (take 80 (retain (λ ch. not (is_control ch)) name))

-- The variables of `handle_socket`; `mailbox` is the channel behind `rv_tx`, and `rx` is the group
-- that the connection is subscribed to.
pub record Session : Type 0 where
  pub egress : IpAddr
  pub conn_id : ℕ
  pub mailbox : ℕ
  pub group : Option Text
  pub device_id : Option Text
  pub rx : Option Text
  pub rv_group : Option Text
  pub last_seen : ℕ

-- What `serde_json` makes of a text frame.
pub data Parsed : Type 0 where
  message : ClientMessage → Parsed
  malformed : Text → Parsed

pub data Frame : Type 0 where
  text : Parsed → Frame
  ping : Bytes → Frame
  binary pong close ended : Frame

pub data Output : Type 0 where
  reply : ServerMessage → Output
  send_pong : Bytes → Output
  send_ping : Output
  broadcast : Text → RecentClip → Output
  push : ℕ → List LanPeer → Output

abbrev pub refuse : String → List Output
refuse reason = reply (error (codes reason)) ∷ []

abbrev pub pushes : List (ℕ × List LanPeer) → List Output
pushes = map λ r. push r.0 r.1

abbrev pub Step : Type 0
Step = record { session : Session; hub : Hub; out : List Output }

abbrev pub stay : Session → Hub → List Output → Step
stay s h out = record { session = s; hub = h; out = out }

-- `group.as_deref() != Some(group_id.as_str())`
unfoldable pub in_group : Session → Text → Bool
in_group s g = elim s.group [ none ↦ false | some joined_group ↦ joined_group == g ]

-- The arms of `select!`: what has become ready, with the time of an inbound frame. A ping carries
-- whether its send succeeded, and a channel the value that it delivered.
pub data Event : Type 0 where
  idle : Event
  ping_due : Bool → Event
  incoming : ℕ → Frame → Event
  delivered : Option RecentClip → Event
  snapshot : Option (List LanPeer) → Event

unfoldable pub deliver : RecentClip → Session → List Output
deliver c s =
    if some c.sender_device_id == s.device_id
    then []
    else reply (clip c.ciphertext c.nonce c.ts c.sender_device_id) ∷ []

module _ (t : AddrText) where
  -- What an advertisement registers for the connection.
  unfoldable pub advertised_conn : Session → Text → Text → List Text → List LanCandidate → RvConn
  advertised_conn s joined_device name candidates networks =
      let (kept, kept_networks) = sanitize_lan_advertise t candidates networks in
      record {
        device_id = joined_device;
        device_name = sanitize_device_name name;
        candidates = kept;
        candidate_networks = kept_networks;
        tx = s.mailbox;
      }

  unfoldable pub advertise :
      Session → Hub → Text → Text → Text → Text → List Text → List LanCandidate → Step
  advertise s h joined_device g did name candidates networks =
      if in_group s g
      then (if did == joined_device
          then (let (h', pushed) =
                Hub.rendezvous_upsert t g s.egress s.conn_id
                  (advertised_conn s joined_device name candidates networks) h in
              stay (record s { rv_group = some g }) h' (pushes pushed))
          else stay s h (refuse "device mismatch"))
      else stay s h (refuse "group mismatch")

  -- The `match parsed` of the inbound arm.
  unfoldable pub handle_text : ℕ → Parsed → Session → Hub → Step
  handle_text now (message (join group_id did)) s h =
      stay (record s { rx = some group_id; device_id = some did; group = some group_id })
        (Hub.subscribe group_id h) (reply (joined group_id) ∷ [])
  handle_text now (message (publish group_id ciphertext nonce ts)) s h = elim s.device_id [
    | none ↦ stay s h (refuse "join first")
    | some did ↦
        if in_group s group_id
        then (let (h', sent) =
              Hub.publish now group_id
                (record { ciphertext = ciphertext; nonce = nonce; ts = ts; sender_device_id = did })
                h in
            stay s h' (broadcast group_id sent ∷ []))
        else stay s h (refuse "group mismatch")
  ]
  handle_text now (message (fetch_recent group_id)) s h =
      if in_group s group_id
      then (let (clips, h') = Hub.recent now group_id h in stay s h' (reply (recent clips) ∷ []))
      else stay s h (refuse "group mismatch")
  handle_text now (message (lan_advertise group_id did name candidates networks)) s h =
      elim s.device_id [
        | none ↦ stay s h (refuse "join first")
        | some joined_device ↦ advertise s h joined_device group_id did name candidates networks
      ]
  handle_text now (malformed e) s h = stay s h (reply (error (codes "bad message: " ++ e)) ∷ [])

  -- `none` is `break`.
  unfoldable pub handle_frame : ℕ → Frame → Session → Hub → Option Step
  handle_frame now (text parsed) s h = some (handle_text now parsed s h)
  handle_frame now binary s h = some (stay s h [])
  handle_frame now (ping p) s h = some (stay s h (send_pong p ∷ []))
  handle_frame now pong s h = some (stay s h [])
  handle_frame now close s h = none
  handle_frame now ended s h = none

  unfoldable pub step : Event → Session → Hub → Option Step
  unfolding handle_frame
  step idle s h = none
  step (ping_due sent) s h = if sent then some (stay s h (send_ping ∷ [])) else none
  step (incoming now frame) s h = handle_frame now frame (record s { last_seen = now }) h
  step (delivered none) s h = some (stay s h [])
  step (delivered (some c)) s h = some (stay s h (deliver c s))
  step (snapshot none) s h = some (stay s h [])
  step (snapshot (some peers)) s h = some (stay s h (reply (lan_peers peers) ∷ []))

  -- Behind the loop: the socket is closed.
  unfoldable pub finish : Session → Hub → Hub × List Output
  finish s h = elim s.rv_group [
    | none ↦ (h, [])
    | some g ↦
        let (h', pushed) = Hub.rendezvous_remove t g s.egress s.conn_id h in (h', pushes pushed)
  ]

-- A connection as `handle_socket` sets it up.
unfoldable pub open_session : IpAddr → ℕ → ℕ → Hub → Session × Hub
open_session egress mailbox now h =
    let (conn_id, h') = Hub.next_conn_id h in
    (
      record {
        egress = egress;
        conn_id = conn_id;
        mailbox = mailbox;
        group = none;
        device_id = none;
        rx = none;
        rv_group = none;
        last_seen = now;
      },
      h',
    )
