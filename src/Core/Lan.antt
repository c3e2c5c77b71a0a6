-- ===== src/Core/Lan.antt =====
-- core/src/lan.rs: the messages of the LAN socket, and what a stream gives to read. The children
-- have the sending and receiving of files, the blobs, the registry of peers, the node with its tasks,
-- and the connection of a peer with its frames.
pub mod Receive
pub mod Send
pub mod Transfer
pub mod BlobCache
pub mod Blobs
pub mod Peers
pub mod Interfaces
pub mod Node
pub mod Session
pub mod Frames
pub mod Records
mod Tests
use clip_bridge.Core.Crypto.{Bytes}
use clip_bridge.Core.FileTransfer.{FileOffer, FileTransferError}
use clip_bridge.Core.Protocol.{ClipPayload}
use clip_bridge.Prelude.{ℕ, Bool, List, Text, codes}

pub data LanMessage : Type 0 where
  hello : Text → ℕ → Text → LanMessage
  clip : Text → ℕ → ClipPayload → LanMessage
  ping : LanMessage
  blob_request : Text → LanMessage
  blob_chunk : Bytes → Bool → LanMessage
  blob_miss : Text → LanMessage
  file_offer : FileOffer → LanMessage
  file_accept : Text → LanMessage
  file_reject : Text → Text → LanMessage
  file_chunk : Text → ℕ → Bytes → LanMessage
  file_complete : Text → LanMessage
  file_cancel : Text → Text → LanMessage

unfoldable pub frame_label : LanMessage → Text
frame_label (hello d v n) = codes "hello"
frame_label (clip d t p) = codes "clip"
frame_label ping = codes "ping"
frame_label (blob_request s) = codes "blob_request"
frame_label (blob_chunk b l) = codes "blob_chunk"
frame_label (blob_miss s) = codes "blob_miss"
frame_label (file_offer o) = codes "file_offer"
frame_label (file_accept t) = codes "file_accept"
frame_label (file_reject t r) = codes "file_reject"
frame_label (file_chunk t o d) = codes "file_chunk"
frame_label (file_complete t) = codes "file_complete"
frame_label (file_cancel t r) = codes "file_cancel"

-- The reason of an I/O error is the operating system's.
pub data LanError : Type 0 where
  io_error : LanError
  file_transfer : FileTransferError → LanError

pub data LanResult {ℓ} (A : Type ℓ) : Type ℓ where
  done : A → LanResult A
  failed : LanError → LanResult A

-- What `read_frame` will give: these frames in turn, and then a failure or the end of the stream.
pub record Stream : Type 0 where
  pub frames : List LanMessage
  pub broken : Bool
