-- ===== src/Core/Client.antt =====
-- The command loop of core/src/client.rs: waiting while the relay is suspended, and what a session
-- does with a command. JSON, the cipher and the socket are parameters: `encode` and `encrypt` are
-- `none` where they fail, `writable` says whether the socket takes a frame.
pub mod Commands
pub mod Reconnect
pub mod Relay
pub mod Images
mod Tests
use clip_bridge.Core.Crypto.{Bytes}
use clip_bridge.Core.Protocol.{
  LanCandidate, candidate_eq, ClientMessage, publish, fetch_recent, lan_advertise, ClipPayload,
}
use clip_bridge.Prelude.Assoc
use clip_bridge.Prelude.Assoc.{
  Assoc, IsMap, is_some, lookup-remove, lookup-insert, lookup-insert_self, remove-IsMap,
  insert-IsMap, All-remove, All-lookup, length-remove, remove_missing, length-remove_found,
}
use clip_bridge.Prelude.{
  String, ℕ, zero, suc, ◌+◌, ◌-◌, ◌*◌, ◌/◌, ◌%◌, ◌^◌, ◌≤◌, ◌<◌, ◌≡◌, ◌≢◌, ◌↔◌, ◌⊎◌, inl, inr, refl,
  sym, ap, subst, ◌∙◌, Bool, true, false, not, ◌&&◌, ◌||◌, Option, none, some, List, [], ◌∷◌, ◌++◌,
  map, append-nil, append_assoc, arith, ltb, leb, if◌then◌else◌, Eq, ◌==◌, eq_iff, eq_refl, ne-eq,
  eq_symm, list_eq, nat_eq, option_eq, list_beq, option_beq, length, is_empty, take, drop, All,
  All-append, All-map, length-append, retain, any, contains, Distinct, length-retain, retain-append,
  Text, codes, text_lt, starts_with, Bool-cases, Option-cases, ltb→lt, leb→le, leb→gt, le→leb,
  length-take, length-drop, take-append-drop, append-take-drop, drop-all, contains-append,
  Distinct-append_one, retain_all, All-retain, nat_beq,
}

pub data Cmd : Type 0 where
  send_clip_cmd : ClipPayload → Cmd
  fetch_recent_cmd refresh_lan_cmd stop_cmd : Cmd

pub data SuspendWait : Type 0 where
  stop resume : SuspendWait

-- What the `select!` of a turn saw; a notification comes with the flag as it is read then.
pub data Woken : Type 0 where
  received : Cmd → Woken
  channel_closed : Woken
  notified : Bool → Woken

-- One turn: the flag as the turn begins, and what woke it. The outcome leaves the turns that were
-- not taken; `none` is that the wait goes on.
unfoldable pub wait_while_relay_suspended :
    List (Bool × Woken) → List Cmd → Option (SuspendWait × List Cmd × List (Bool × Woken))
wait_while_relay_suspended [] pending = none
wait_while_relay_suspended ((idle, received stop_cmd) ∷ turns) pending =
    if idle
    then some (stop, pending, turns)
    else some (resume, pending, (idle, received stop_cmd) ∷ turns)
wait_while_relay_suspended ((idle, received other) ∷ turns) pending =
    let rest = wait_while_relay_suspended turns (pending ++ other ∷ []) in
    if idle then rest else some (resume, pending, (idle, received other) ∷ turns)
wait_while_relay_suspended ((idle, channel_closed) ∷ turns) pending =
    if idle
    then some (stop, pending, turns)
    else some (resume, pending, (idle, channel_closed) ∷ turns)
wait_while_relay_suspended ((idle, notified still_idle) ∷ turns) pending =
    let rest = wait_while_relay_suspended turns pending in
    if not idle
    then some (resume, pending, (idle, notified still_idle) ∷ turns)
    else if not still_idle
    then some (resume, pending, turns)
    else rest

unfoldable pub candidate_le : LanCandidate → LanCandidate → Bool
candidate_le a b = text_lt a.addr b.addr || (a.addr == b.addr && leb a.prefix_len b.prefix_len)

unfoldable pub insert_candidate : LanCandidate → List LanCandidate → List LanCandidate
insert_candidate a [] = a ∷ []
insert_candidate a (b ∷ sorted) =
    let rest = insert_candidate a sorted in if candidate_le a b then a ∷ b ∷ sorted else b ∷ rest

unfoldable pub sort_candidates : List LanCandidate → List LanCandidate
sort_candidates [] = []
sort_candidates (a ∷ rest) = insert_candidate a (sort_candidates rest)

-- `dedup_by`: an item goes that is equal to the last one kept.
unfoldable pub dedup_after : LanCandidate → List LanCandidate → List LanCandidate
dedup_after last [] = []
dedup_after last (a ∷ rest) =
    let dropped = dedup_after last rest in
    let kept = dedup_after a rest in if a == last then dropped else a ∷ kept

unfoldable pub dedup : List LanCandidate → List LanCandidate
dedup [] = []
dedup (a ∷ rest) = a ∷ dedup_after a rest

unfoldable pub normalize_lan_candidate_networks : List LanCandidate → List LanCandidate
normalize_lan_candidate_networks candidates = dedup (sort_candidates candidates)

unfoldable pub lan_advertise_refresh_needed :
    Option (List LanCandidate) → List LanCandidate → Bool → Bool
lan_advertise_refresh_needed last current force =
    if force
    then not (is_empty current)
    else elim last [ some l ↦ not (l == current) | none ↦ not (is_empty current) ]

pub data Frame : Type 0 where
  text : ClientMessage → Frame
  close : Frame

-- What a session keeps of its advertising.
pub record Advertising : Type 0 where
  pub lan_advertise_disabled : Bool
  pub lan_advertise_error_pending : Bool
  pub last_lan_advertise : Option (List LanCandidate)

pub data Applied : Type 0 where
  stopped continued broken : Applied

-- The result, the frames sent, the clips broadcast to the LAN, and the advertising.
abbrev pub Effect : Type 0
Effect = Applied × List Frame × List ClipPayload × Advertising

pub record Session : Type 0 where
  pub group_id : Text
  pub device_id : Text
  pub device_name : Text
  pub writable : Bool
  -- The addresses of the LAN node, if there is one, and `lan_active`.
  pub lan : Option (List LanCandidate)
  pub lan_active : Bool
  pub encode : ClipPayload → Option Bytes
  pub encrypt : Bytes → Option (Bytes × Bytes)

-- `ws.send(...).await?`, with the advertising that follows it.
unfoldable pub send_text :
    Session → ClientMessage → List ClipPayload → Advertising → Advertising → Effect
send_text s m lan_clips before after =
    if s.writable
    then (continued, text m ∷ [], lan_clips, after)
    else (broken, [], lan_clips, before)

unfoldable pub advertisement : Session → List LanCandidate → ClientMessage
advertisement s candidate_networks =
    lan_advertise s.group_id s.device_id s.device_name (map (λ c. c.addr) candidate_networks)
      candidate_networks

unfoldable pub refresh_lan : Session → Advertising → List LanCandidate → Effect
refresh_lan s a advertised =
    let candidate_networks = normalize_lan_candidate_networks advertised in
    if not a.lan_advertise_disabled && s.lan_active
    then (if lan_advertise_refresh_needed a.last_lan_advertise candidate_networks true
        then send_text s (advertisement s candidate_networks) [] a (record a {
          lan_advertise_error_pending = true;
          last_lan_advertise = some candidate_networks;
        })
        else (continued, [], [], a))
    else (continued, [], [], a)

unfoldable pub send_clip : Session → ClipPayload → Advertising → Effect
send_clip s payload a =
    let broadcast = elim s.lan as (λ x. List ClipPayload) [ none ↦ [] | some l ↦ payload ∷ [] ] in
    elim (s.encode payload) [
      | none ↦ (broken, [], broadcast, a)
      | some plaintext ↦ elim (s.encrypt plaintext) [
        | none ↦ (broken, [], broadcast, a)
        | some sealed ↦ send_text s (publish s.group_id sealed.0 sealed.1 payload.ts) broadcast a a
      ]
    ]

unfoldable pub apply_session_cmd : Session → Cmd → Advertising → Effect
apply_session_cmd s stop_cmd a = (stopped, (if s.writable then close ∷ [] else []), [], a)
apply_session_cmd s (send_clip_cmd payload) a = send_clip s payload a
apply_session_cmd s fetch_recent_cmd a = send_text s (fetch_recent s.group_id) [] a a
apply_session_cmd s refresh_lan_cmd a = elim s.lan [
  | none ↦ (continued, [], [], a)
  | some advertised ↦ refresh_lan s a advertised
]
