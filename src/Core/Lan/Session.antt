-- ===== src/Core/Lan/Session.antt =====
-- A connection of a LAN node: `run_peer` of core/src/lan.rs, from the handshake over the sorting of
-- the connection by its first frame to the loop of a control link. Times are in seconds. Reading and
-- writing a frame is in Frames; what the sockets, the timers and the channels give is a list of
-- turns.
pub mod Laws
pub mod Sorting
mod Tests
use clip_bridge.Core.Crypto.{Bytes}
use clip_bridge.Core.Delivery.{LanClip}
use clip_bridge.Core.FileTransfer.{FileOffer, FileTransferError, ReceivedFile, default_config}
use clip_bridge.Core.FileTransfer.Incoming.{Files, Disk}
use clip_bridge.Core.FileTransfer.Names.{is_ascii_alphanumeric}
use clip_bridge.Core.Lan.{
  LanMessage, hello, clip, ping, blob_request, file_offer, file_reject, LanError, io_error,
  LanResult, done, failed, Stream,
}
use clip_bridge.Core.Lan.BlobCache.{BlobCache}
use clip_bridge.Core.Lan.Blobs.{serve_blob}
use clip_bridge.Core.Lan.Receive.{receive_offered_file}
use clip_bridge.Prelude.Assoc
use clip_bridge.Prelude.Assoc.{
  Assoc, IsMap, is_some, lookup-remove, lookup-insert, lookup-insert_self, remove-IsMap,
  insert-IsMap, All-remove, All-lookup, length-remove, remove_missing, length-remove_found,
}
use clip_bridge.Prelude.{
  String, ℕ, zero, suc, ◌+◌, ◌-◌, ◌*◌, ◌/◌, ◌%◌, ◌^◌, ◌≤◌, ◌<◌, ◌≡◌, ◌≢◌, ◌↔◌, ◌⊎◌, inl, inr, refl,
  sym, ap, subst, ◌∙◌, Bool, true, false, not, ◌&&◌, ◌||◌, Option, none, some, List, [], ◌∷◌, ◌++◌,
  map, append-nil, append_assoc, arith, ltb, leb, if◌then◌else◌, Eq, ◌==◌, eq_iff, eq_refl, ne-eq,
  eq_symm, list_eq, nat_eq, option_eq, list_beq, option_beq, length, is_empty, take, drop, All,
  All-append, All-map, length-append, retain, any, contains, Distinct, length-retain, retain-append,
  Text, codes, text_lt, starts_with, Bool-cases, Option-cases, if_both, if_given, ltb→lt, leb→le,
  leb→gt, le→leb, length-take, length-drop, take-append-drop, append-take-drop, drop-all,
  contains-append, Distinct-append_one, retain_all, All-retain, nat_beq,
}
use clip_bridge.Prelude.Chars.{is_control, is_whitespace, trim_start, trim_end, trim_matches}

unfoldable pub to_ascii_lowercase : ℕ → ℕ
to_ascii_lowercase c = if leb 65 c && leb c 90 then c + 32 else c

unfoldable pub short_id : Text → Text
short_id device_id = map to_ascii_lowercase (take 12 (retain is_ascii_alphanumeric device_id))

abbrev pub proto_version : ℕ
proto_version = 1

abbrev pub idle_timeout : ℕ
idle_timeout = 45

-- What waiting for a frame gives: `got none` is the end of the stream.
pub data Read : Type 0 where
  got : Option LanMessage → Read
  read_failed timed_out : Read

pub data Handshake : Type 0 where
  refused self_connect : Handshake
  shaken : Text → Text → Handshake

unfoldable pub expects : Option Text → Text → Bool
expects none peer_did = true
expects (some expected) peer_did = short_id peer_did == short_id expected

-- The check of the peer's first frame.
unfoldable pub handshake : Text → Option Text → Read → Handshake
handshake self_device_id expected_peer (got (some (hello peer_did v name))) =
    if not (expects expected_peer peer_did)
    then refused
    else if peer_did == self_device_id
    then self_connect
    else shaken peer_did name
handshake self_device_id expected_peer other = refused

-- How a connection stands: the loop goes on, or `run_peer` returned.
pub data Standing : Type 0 where
  alive returned : Standing
  returned_err : LanError → Standing

pub data Event : Type 0 where
  -- A timer, or a notification of nothing.
  woke ping_due mode_notified lagged channel_closed frame_failed : Event
  outgoing : LanClip → Event
  frame : Option LanMessage → Event

-- A turn of the `select!`: when it wakes, the flag then, whether the socket takes a frame.
pub record Turn : Type 0 where
  pub now : ℕ
  pub lan_active : Bool
  pub writable : Bool
  pub event : Event

-- What a loop comes to: how it stands, the frames written, the clips forwarded.
abbrev pub Run : Type 0
Run = Standing × List LanMessage × List LanClip

unfoldable pub write_then : Bool → LanMessage → Run → Run
write_then writable m rest =
    if writable then (rest.0, m ∷ rest.1, rest.2) else (returned_err io_error, [], [])

unfoldable pub clip_of : LanMessage → List LanClip
clip_of (clip sender_device_id ts payload) =
    record { sender_device_id = sender_device_id; ts = ts; payload = payload } ∷ []
clip_of other = []

-- An arm of the `select!`. An arm whose guard is off is not taken.
unfoldable pub on_event : Text → Turn → Event → Run → Run
on_event peer_did t woke rest = rest
on_event peer_did t ping_due rest = if t.lan_active then write_then t.writable ping rest else rest
on_event peer_did t mode_notified rest = if t.lan_active then rest else (returned, [], [])
on_event peer_did t lagged rest = rest
on_event peer_did t channel_closed rest = if t.lan_active then (returned, [], []) else rest
on_event peer_did t frame_failed rest = (returned_err io_error, [], [])
on_event peer_did t (outgoing c) rest =
    if not t.lan_active
    then rest
    else if c.sender_device_id == peer_did
    then rest
    else write_then t.writable (clip c.sender_device_id c.ts c.payload) rest
on_event peer_did t (frame none) rest = (returned, [], [])
on_event peer_did t (frame (some m)) rest = (rest.0, rest.1, clip_of m ++ rest.2)

unfoldable pub is_frame : Event → Bool
is_frame (frame m) = true
is_frame other = false

unfoldable pub session_loop : Text → ℕ → List Turn → Run
session_loop peer_did last_seen [] = (alive, [], [])
session_loop peer_did last_seen (t ∷ turns) =
    let rest = session_loop peer_did (if is_frame t.event then t.now else last_seen) turns in
    if leb (last_seen + idle_timeout) t.now
    then (returned_err io_error, [], [])
    else on_event peer_did t t.event rest

unfoldable pub display_name : Text → Text → Text
display_name peer_did peer_name =
    if is_empty (trim_matches is_whitespace peer_name) then short_id peer_did else peer_name

-- What a connection leaves: the guard that was made, if one was, and the file received.
pub record Report : Type 0 where
  pub standing : Standing
  pub written : List LanMessage
  pub inbound : List LanClip
  pub registered : Option (Text × Text)
  pub received : Option ReceivedFile
  pub files : Files

pub record PeerRunContext : Type 0 where
  pub self_device_id : Text
  pub self_device_name : Text
  pub expected_peer : Option Text
  pub blob_cache : BlobCache
  -- `file_receive_dir` is set.
  pub receives_files : Bool

-- What the connection brings: the two frames waited for, the time of the handshake and the flag
-- then, the stream that follows an offer, the turns of a control link.
pub record Connection : Type 0 where
  -- Whether the socket takes the hello, the first ping, and the frames of an answer.
  pub hello_written : Bool
  pub ping_written : Bool
  pub writable : Bool
  pub hello_read : Read
  pub first_read : Read
  pub up_at : ℕ
  pub lan_active : Bool
  pub stream : Stream
  pub turns : List Turn

unfoldable pub quiet : Standing → List LanMessage → Files → Report
quiet standing written files = record {
  standing = standing;
  written = written;
  inbound = [];
  registered = none;
  received = none;
  files = files;
}

unfoldable pub outcome {ℓ} : {A : Type ℓ} → LanResult A → Standing
outcome (done a) = returned
outcome (failed e) = returned_err e

unfoldable pub result {ℓ} : {A : Type ℓ} → LanResult A → Option A
result (done a) = some a
result (failed e) = none

unfoldable pub own_hello : PeerRunContext → LanMessage
own_hello ctx = hello ctx.self_device_id proto_version ctx.self_device_name

-- The link of a peer that is neither a blob requester nor offers a file.
unfoldable pub control_link :
    PeerRunContext → Connection → Text → Text → Option LanMessage → Files → Report
control_link ctx c peer_did peer_name pending files =
    let first = elim pending as (λ x. List LanClip) [ none ↦ [] | some m ↦ clip_of m ] in
    let run = session_loop peer_did c.up_at c.turns in
    let ran : Run = if c.lan_active then run else (returned, [], []) in
    record {
      standing = ran.0;
      written = own_hello ctx ∷ ping ∷ ran.1;
      inbound = first ++ ran.2;
      registered = some (peer_did, display_name peer_did peer_name);
      received = none;
      files = files;
    }

module _ (digest : Bytes → Bytes) (describe : FileTransferError → Text) (disk : Disk) where
  -- The connection of a peer that offers a file.
  unfoldable pub offered : PeerRunContext → Connection → Text → FileOffer → Files → Report
  offered ctx c peer_did offer files =
      let (ended, replies, after) =
        receive_offered_file digest describe disk c.writable default_config ctx.self_device_id
          peer_did offer c.stream files in
      if ctx.receives_files
      then record (quiet (outcome ended) (own_hello ctx ∷ ping ∷ replies) after) {
        received = result ended;
      }
      else if c.writable
      then quiet returned
          (own_hello ctx
            ∷ ping
            ∷ file_reject offer.transfer_id (codes "file receiving is not enabled")
            ∷ [])
          files
      else quiet (returned_err io_error) (own_hello ctx ∷ ping ∷ []) files

  unfoldable pub sort_connection : PeerRunContext → Connection → Text → Text → Read → Files → Report
  sort_connection ctx c peer_did name (got (some (blob_request sha256_hex))) files =
      if c.writable
      then quiet returned (own_hello ctx ∷ ping ∷ serve_blob ctx.blob_cache sha256_hex) files
      else quiet (returned_err io_error) (own_hello ctx ∷ ping ∷ []) files
  sort_connection ctx c peer_did name (got (some (file_offer offer))) files =
      offered ctx c peer_did offer files
  sort_connection ctx c peer_did name (got (some other)) files =
      control_link ctx c peer_did name (some other) files
  sort_connection ctx c peer_did name (got none) files =
      quiet returned (own_hello ctx ∷ ping ∷ []) files
  sort_connection ctx c peer_did name read_failed files =
      quiet (returned_err io_error) (own_hello ctx ∷ ping ∷ []) files
  sort_connection ctx c peer_did name timed_out files = control_link ctx c peer_did name none files

  unfoldable pub run_peer : PeerRunContext → Connection → Files → Report
  run_peer ctx c files =
      if not c.hello_written
      then quiet (returned_err io_error) [] files
      else elim (handshake ctx.self_device_id ctx.expected_peer c.hello_read) [
        | refused ↦ quiet (returned_err io_error) (own_hello ctx ∷ []) files
        | self_connect ↦ quiet returned (own_hello ctx ∷ []) files
        | shaken peer_did name ↦
            if c.ping_written
            then sort_connection ctx c peer_did name c.first_read files
            else quiet (returned_err io_error) (own_hello ctx ∷ []) files
      ]
