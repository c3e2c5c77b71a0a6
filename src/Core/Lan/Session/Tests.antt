-- ===== src/Core/Lan/Session/Tests.antt =====
-- A connection and a frame of the LAN socket (core/src/lan.rs) at small inputs.
use clip_bridge.Core.Crypto.{Bytes}
use clip_bridge.Core.Lan.{LanMessage, hello, ping, blob_request}
use clip_bridge.Core.Lan.BlobCache
use clip_bridge.Core.Lan.BlobCache.{BlobCache}
use clip_bridge.Core.Lan.Blobs.{fetch_loop}
use clip_bridge.Core.Lan.Frames.{
  Wire, IsWire, message, read_frame, write_frame, seal_frame, be32, read_frame-write_frame,
}
use clip_bridge.Core.Crypto.{encrypt}
use clip_bridge.Core.FileTransfer.Incoming.{Disk}
use clip_bridge.Core.FileTransfer.Names.{is_ascii_alphanumeric}
use clip_bridge.Core.Lan.Session.{
  got, Turn, woke, frame, session_loop, PeerRunContext, Connection, run_peer, handshake, expects,
  shaken, short_id, to_ascii_lowercase, is_frame,
}
use clip_bridge.Core.Lan.Session.Laws.{
  IsPipe, is_alive, must_end, is_suspension, session_loop-IsPipe, session_loop-must_end,
}
use clip_bridge.Core.Lan.Session.Sorting.{IsSound, run_peer-IsSound, fetch_loop-run_peer}
use clip_bridge.Prelude.{
  ℕ, ◌<◌, ◌≡◌, refl, true, false, Option, none, some, [], ◌∷◌, ◌++◌, arith, ltb, if◌then◌else◌,
  list_eq, nat_eq, option_eq, list_beq, length, retain, codes,
}

-- A ping is read at second 10, and at second 60 nothing was heard for 45 seconds.
abbrev heard_once : Turn
heard_once = record { now = 10; lan_active = true; writable = true; event = frame (some ping) }

abbrev too_late : Turn
too_late = record { now = 60; lan_active = true; writable = true; event = woke }

session_loop-IsPipe_example :
    (k : ℕ) × IsPipe (codes "p") (heard_once ∷ []) (session_loop (codes "p") 0 (heard_once ∷ [])) k
session_loop-IsPipe_example = session_loop-IsPipe (codes "p") 0 (heard_once ∷ [])

session_loop-must_end_example :
    is_alive (session_loop (codes "p") 0 (heard_once ∷ too_late ∷ [])).0 ≡ false
unfolding must_end is_suspension is_frame
session_loop-must_end_example =
    session_loop-must_end (codes "p") 0 (heard_once ∷ too_late ∷ []) refl

abbrev some_cache : BlobCache
some_cache = record { map = (codes "x", 1 ∷ 2 ∷ []) ∷ []; order = codes "x" ∷ []; bytes = 2 }

abbrev me : PeerRunContext
me = record {
  self_device_id = codes "me";
  self_device_name = codes "Me";
  expected_peer = some (codes "YOU");
  blob_cache = some_cache;
  receives_files = true;
}

-- The peer says hello and asks for a blob.
abbrev asked : Connection
asked = record {
  hello_written = true;
  ping_written = true;
  writable = true;
  hello_read = got (some (hello (codes "you") 1 []));
  first_read = got (some (blob_request (codes "x")));
  up_at = 0;
  lan_active = true;
  stream = record { frames = []; broken = false };
  turns = [];
}

abbrev all_well : Disk
all_well = record {
  create_dir = false;
  create = false;
  write = none;
  sync = false;
  rename = false;
  remove_file = false;
  join = λ name. name;
}

run_peer-IsSound_example :
    IsSound me []
      (run_peer (λ b. b) (λ e. []) all_well me (record asked { first_read = got (some ping) }) [])
run_peer-IsSound_example =
    run_peer-IsSound (λ b. b) (λ e. []) all_well me (record asked { first_read = got (some ping) })
      []

asked_shaken :
    handshake me.self_device_id me.expected_peer asked.hello_read ≡ shaken (codes "you") []
unfolding handshake expects short_id retain is_ascii_alphanumeric to_ascii_lowercase list_beq
asked_shaken = refl

fetch_loop-run_peer_example :
    fetch_loop 10 [] (run_peer (λ b. b) (λ e. []) all_well me asked []).written
    ≡ elim (BlobCache.get (codes "x") some_cache) as (λ x. Option Bytes) [
      | none ↦ none
      | some bytes ↦ if ltb 10 (length bytes) then none else some bytes
    ]
fetch_loop-run_peer_example =
    fetch_loop-run_peer (λ b. b) (λ e. []) all_well me asked [] 10 (codes "you") [] (codes "x") refl
      refl refl asked_shaken refl

-- A cipher that puts a byte in front, and a printer that knows the ping only.
abbrev open_byte : Bytes → Option Bytes
open_byte [] = none
open_byte (b ∷ p) = some p

abbrev print_ping : LanMessage → Option Bytes
print_ping ping = some (7 ∷ [])
print_ping other = none

abbrev toy_wire : Wire
toy_wire = record {
  cipher = record { seal = λ k n p. some (0 ∷ p); open_sealed = λ k n c. open_byte c };
  key = [];
  to_vec = print_ping;
  from_slice = λ p. some ping;
}

cons_tail : (p c : Bytes) → ◌≡◌ {A = Option Bytes} (some (0 ∷ p)) (some c) → open_byte c ≡ some p
cons_tail p [] h = absurd (ground (arith, h))
cons_tail p (b ∷ c) h = ground (arith, h)

cons_long : (p c : Bytes) → ◌≡◌ {A = Option Bytes} (some (0 ∷ p)) (some c) → 0 < length c
cons_long p [] h = absurd (ground (arith, h))
cons_long p (b ∷ c) h = omega arith

ping_back :
    (m : LanMessage) (p : Bytes)
    → print_ping m ≡ some p
    → ◌≡◌ {A = Option LanMessage} (some ping) (some m)
ping_back ping p h = refl
ping_back other p h = absurd (ground (arith, h))

toy_wire-IsWire : IsWire toy_wire
toy_wire-IsWire = record {
  opens = λ n p c h. cons_tail p c h;
  tagged = λ n p c h. cons_long p c h;
  reads_back = ping_back;
}

abbrev twelve : Bytes
twelve = 1 ∷ 2 ∷ 3 ∷ 4 ∷ 5 ∷ 6 ∷ 7 ∷ 8 ∷ 9 ∷ 10 ∷ 11 ∷ 12 ∷ []

abbrev ping_frame : Bytes
ping_frame = 0 ∷ 0 ∷ 0 ∷ 14 ∷ (twelve ++ 0 ∷ 7 ∷ [])

ping_written : write_frame toy_wire twelve ping ≡ some ping_frame
unfolding write_frame encrypt seal_frame be32
ping_written = refl

read_frame-write_frame_example : read_frame toy_wire (ping_frame ++ 9 ∷ []) ≡ message ping (9 ∷ [])
read_frame-write_frame_example =
    read_frame-write_frame toy_wire twelve (9 ∷ []) ping_frame ping toy_wire-IsWire refl
      ping_written
