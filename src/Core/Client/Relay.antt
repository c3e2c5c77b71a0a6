-- ===== src/Core/Client/Relay.antt =====
-- A session with the relay: `session` of core/src/client.rs, from the URL over the opening frames and
-- the commands that waited to its event loop. Times are in seconds. Dialling, the socket, the timers
-- and the channels are the runtime's: what they give is a list of turns.
pub mod Deadline
pub mod Pending
use clip_bridge.Core.Crypto.{Bytes}
use clip_bridge.Core.Dedup.{DedupCache}
use clip_bridge.Core.Delivery.{Receiver, Heard, Codec, handle_server}
use clip_bridge.Core.Protocol.{
  LanPeer, LanCandidate, ClientMessage, join, fetch_recent, ServerMessage, lan_peers, ClipPayload,
}
use clip_bridge.Core.Client.{
  Cmd, Frame, text, close, Advertising, Applied, stopped, continued, broken, Session,
  normalize_lan_candidate_networks, lan_advertise_refresh_needed, advertisement, apply_session_cmd,
}
use clip_bridge.Core.Client.Reconnect.{SessionExit, exit_stop, exit_reconnect}
use clip_bridge.Prelude.Assoc
use clip_bridge.Prelude.Assoc.{
  Assoc, IsMap, is_some, lookup-remove, lookup-insert, lookup-insert_self, remove-IsMap,
  insert-IsMap, All-remove, All-remove_other, All-lookup, length-remove, remove_missing,
  length-remove_found,
}
use clip_bridge.Prelude.{
  String, ℕ, zero, suc, ◌+◌, ◌-◌, ◌*◌, ◌/◌, ◌%◌, ◌^◌, ◌≤◌, ◌<◌, ◌≡◌, ◌≢◌, ◌↔◌, ◌⊎◌, inl, inr, refl,
  sym, ap, subst, ◌∙◌, Bool, true, false, not, ◌&&◌, ◌||◌, Option, none, some, List, [], ◌∷◌, ◌++◌,
  map, append-nil, append_assoc, arith, ltb, leb, if◌then◌else◌, Eq, ◌==◌, eq_iff, eq_refl, ne-eq,
  eq_symm, list_eq, nat_eq, option_eq, list_beq, option_beq, length, is_empty, take, drop, All,
  All-append, All-map, length-append, retain, any, contains, Distinct, length-retain, retain-append,
  Text, codes, text_lt, starts_with, Bool-cases, Option-cases, if_both, if_given, ltb→lt, leb→le,
  leb→gt, le→leb, length-take, length-drop, take-append-drop, append-take-drop, drop-all,
  contains-append, Distinct-append_one, retain_all, All-retain, nat_beq,
}
use clip_bridge.Prelude.Chars.{is_control, is_whitespace, trim_start, trim_end, trim_matches}

-- `strip_prefix` with the prefix put in its place.
unfoldable pub with_scheme : Text → Text → Text → Text
with_scheme old new url = new ++ drop (length old) url

unfoldable pub session_url : Text → Text
session_url relay_url =
    let u = trim_end (λ c. nat_beq c b'/') relay_url in
    let normalized =
      if starts_with u (codes "https://")
      then with_scheme (codes "https://") (codes "wss://") u
      else if starts_with u (codes "http://")
      then with_scheme (codes "http://") (codes "ws://") u
      else u in
    normalized ++ codes "/ws"

-- What a session does that can be seen.
pub data Act : Type 0 where
  sent : Frame → Act
  pinged : Act
  ponged : Bytes → Act
  broadcast : ClipPayload → Act
  heard : Heard → Act
  ingested : List LanPeer → Act
  told_connected : Act

-- How a session stands.
pub data Standing : Type 0 where
  running fails : Standing
  exits : SessionExit → Standing

pub record Link : Type 0 where
  pub advertising : Advertising
  pub dedup : DedupCache
  pub last_seen : ℕ
  pub probe_deadline : Option ℕ

abbrev pub idle_timeout : ℕ
idle_timeout = 60

abbrev pub liveness_probe_timeout : ℕ
liveness_probe_timeout = 8

-- The frames of a session on a socket that takes them, up to the announcement of the connection.
unfoldable pub opening : Session → List Act × Advertising
opening s =
    let quiet : Advertising = record {
      lan_advertise_disabled = false;
      lan_advertise_error_pending = false;
      last_lan_advertise = none;
    } in
    let first =
      sent (text (join s.group_id s.device_id)) ∷ sent (text (fetch_recent s.group_id)) ∷ [] in
    elim (if s.lan_active then s.lan else none) [
      | none ↦ (first ++ told_connected ∷ [], quiet)
      | some advertised ↦
          let candidate_networks = normalize_lan_candidate_networks advertised in
          if is_empty candidate_networks then (first ++ told_connected ∷ [], quiet) else (
            first ++ sent (text (advertisement s candidate_networks)) ∷ told_connected ∷ [],
            record quiet {
              lan_advertise_error_pending = true;
              last_lan_advertise = some candidate_networks;
            },
          )
    ]

-- What applying a command comes to.
unfoldable pub acts_of : List Frame → List ClipPayload → List Act
acts_of frames clips = map broadcast clips ++ map sent frames

unfoldable pub standing_of : Applied → Standing
standing_of stopped = exits exit_stop
standing_of continued = running
standing_of broken = fails

unfoldable pub is_running : Standing → Bool
is_running running = true
is_running other = false

-- The commands that waited, with the ones that are left when the loop ends early.
unfoldable pub flush :
    Session → List Cmd → Advertising → Standing × List Act × Advertising × List Cmd
flush s [] a = (running, [], a, [])
flush s (cmd ∷ pending) a =
    let (applied, frames, clips, after) = apply_session_cmd s cmd a in
    let standing = standing_of applied in
    let (last, acts, end, rest) = flush s pending after in
    if is_running standing
    then (last, acts_of frames clips ++ acts, end, rest)
    else (standing, acts_of frames clips, after, pending)

-- A frame of the relay: a text that parses to a message or not, or what tungstenite reads.
pub data Incoming : Type 0 where
  server_message : Option ServerMessage → Incoming
  ws_ping : Bytes → Incoming
  ws_close other_frame : Incoming

pub data Event : Type 0 where
  -- A timer that is not the deadline, or a notification of nothing.
  woke ping_due mode_notified reconnect_wake lan_tick stream_ended frame_error : Event
  command : Option Cmd → Event
  frame : Incoming → Event

-- A turn of the loop: the idle mode as it begins and as its event is handled, when it wakes, whether
-- the socket takes a frame, the node's addresses and the flag of the LAN.
pub record Turn : Type 0 where
  pub idle_mode : Bool
  pub idle_then : Bool
  pub now : ℕ
  pub writable : Bool
  pub lan : Option (List LanCandidate)
  pub lan_active : Bool
  pub event : Event

unfoldable pub session_at : Session → Turn → Session
session_at s t = record s { writable = t.writable; lan = t.lan; lan_active = t.lan_active }

-- What handling an event comes to: how the session stands, what it did, the state after.
abbrev pub Handled : Type 0
Handled = Standing × List Act × Link

unfoldable pub send_ping : Turn → Link → Link → Handled
send_ping t before after = if t.writable then (running, pinged ∷ [], after) else (fails, [], before)

unfoldable pub wake_probe : Turn → Link → Option ℕ → Handled
wake_probe t l (some probe) = (running, [], l)
wake_probe t l none =
    send_ping t l (record l { probe_deadline = some (t.now + liveness_probe_timeout) })

unfoldable pub on_wake : Turn → Link → Handled
on_wake t l = wake_probe t l l.probe_deadline

unfoldable pub on_lan_tick : Session → Turn → Link → Handled
on_lan_tick s t l = elim t.lan [
  | none ↦ (running, [], l)
  | some advertised ↦
      let candidate_networks = normalize_lan_candidate_networks advertised in
      if l.advertising.lan_advertise_disabled || not t.lan_active
      then (running, [], l)
      else if not
          (lan_advertise_refresh_needed l.advertising.last_lan_advertise candidate_networks false)
      then (running, [], l)
      else if t.writable
      then (
        running,
        sent (text (advertisement (session_at s t) candidate_networks)) ∷ [],
        record l {
          advertising = record l.advertising {
            lan_advertise_error_pending = true;
            last_lan_advertise = some candidate_networks;
          };
        },
      )
      else (fails, [], l)
]

unfoldable pub on_command : Session → Turn → Cmd → Link → Handled
on_command s t cmd l =
    let (applied, frames, clips, after) = apply_session_cmd (session_at s t) cmd l.advertising in
    (standing_of applied, acts_of frames clips, record l { advertising = after })

-- `handle_server`, whose receiver has the flags of the advertising.
unfoldable pub on_server : Codec → Session → (ℕ → ℕ) → ServerMessage → Link → Handled
on_server k s clock m l =
    let r : Receiver = record {
      device_id = s.device_id;
      dedup = l.dedup;
      lan_advertise_error_pending = l.advertising.lan_advertise_error_pending;
      lan_advertise_disabled = l.advertising.lan_advertise_disabled;
    } in
    let (after, told) = handle_server k clock m r in
    (
      running,
      map heard told,
      record l {
        dedup = after.dedup;
        advertising = record l.advertising {
          lan_advertise_error_pending = after.lan_advertise_error_pending;
          lan_advertise_disabled = after.lan_advertise_disabled;
        };
      },
    )

unfoldable pub on_lan_peers : Turn → List LanPeer → Link → Handled
on_lan_peers t peers l =
    let told = record l {
      advertising = record l.advertising { lan_advertise_error_pending = false };
    } in
    elim t.lan [
      | none ↦ (running, [], told)
      | some advertised ↦ (running, (if t.lan_active then ingested peers ∷ [] else []), told)
    ]

unfoldable pub on_incoming : Codec → Session → (ℕ → ℕ) → Turn → Incoming → Link → Handled
on_incoming k s clock t (server_message none) l = (fails, [], l)
on_incoming k s clock t (server_message (some (lan_peers peers))) l = on_lan_peers t peers l
on_incoming k s clock t (server_message (some other)) l = on_server k s clock other l
on_incoming k s clock t (ws_ping p) l =
    if t.writable then (running, ponged p ∷ [], l) else (fails, [], l)
on_incoming k s clock t ws_close l = (exits exit_reconnect, [], l)
on_incoming k s clock t other_frame l = (running, [], l)

-- Anything inbound proves the link alive.
unfoldable pub alive_at : ℕ → Link → Link
alive_at now l = record l { last_seen = now; probe_deadline = none }

-- `ws.close(None).await`, whose result is ignored.
unfoldable pub closing : Turn → List Act
closing t = if t.writable then sent close ∷ [] else []

unfoldable pub on_event : Codec → Session → (ℕ → ℕ) → Turn → Event → Link → Handled
on_event k s clock t woke l = (running, [], l)
on_event k s clock t ping_due l = send_ping t l l
on_event k s clock t mode_notified l =
    if t.idle_then then (exits exit_reconnect, closing t, l) else (running, [], l)
on_event k s clock t reconnect_wake l = on_wake t l
on_event k s clock t lan_tick l = on_lan_tick s t l
on_event k s clock t (command none) l = (exits exit_stop, [], l)
on_event k s clock t (command (some cmd)) l = on_command s t cmd l
on_event k s clock t stream_ended l = (exits exit_reconnect, [], alive_at t.now l)
on_event k s clock t frame_error l = (fails, [], alive_at t.now l)
on_event k s clock t (frame m) l = on_incoming k s clock t m (alive_at t.now l)

-- `last_seen + IDLE_TIMEOUT`, or the probe's deadline where that is earlier.
unfoldable pub deadline_at : ℕ → Option ℕ → ℕ
deadline_at last_seen none = last_seen + idle_timeout
deadline_at last_seen (some probe) =
    if leb probe (last_seen + idle_timeout) then probe else last_seen + idle_timeout

unfoldable pub deadline : Link → ℕ
deadline l = deadline_at l.last_seen l.probe_deadline

unfoldable pub turn : Codec → Session → (ℕ → ℕ) → Turn → Link → Handled
turn k s clock t l =
    let handled = on_event k s clock t t.event l in
    if t.idle_mode
    then (exits exit_reconnect, closing t, l)
    else if leb (deadline l) t.now
    then (exits exit_reconnect, [], l)
    else handled

-- What a turn did, and what the rest of the turns do if the session goes on.
unfoldable pub then_on : Handled → Handled → Handled
then_on h rest = if is_running h.0 then (rest.0, h.1 ++ rest.1, rest.2) else h

unfoldable pub event_loop : Codec → Session → (ℕ → ℕ) → List Turn → Link → Handled
event_loop k s clock [] l = (running, [], l)
event_loop k s clock (t ∷ turns) l =
    let h = turn k s clock t l in then_on h (event_loop k s clock turns h.2)

-- A session on a socket that takes the opening frames: what it does from them on, how it stands
-- after the turns, and the commands still waiting.
unfoldable pub session :
    Codec
    → Session
    → (ℕ → ℕ)
    → List Cmd
    → ℕ
    → DedupCache
    → List Turn
    → Standing × List Act × List Cmd
session k s clock pending up_at dedup turns =
    let (opened, a) = opening s in
    let (flushed, acts, after, rest) = flush s pending a in
    let link : Link = record {
      advertising = after;
      dedup = dedup;
      last_seen = up_at;
      probe_deadline = none;
    } in
    let (standing, more, end) = event_loop k s clock turns link in
    if is_running flushed
    then (standing, (opened ++ acts) ++ more, rest)
    else (flushed, opened ++ acts, rest)
