-- ===== src/Core/Lan/Send.antt =====
-- `send_file_to_stream` of core/src/lan.rs, on a socket that takes every frame written.
use clip_bridge.Core.FileTransfer.{rejected, peer_mismatch}
use clip_bridge.Core.FileTransfer.Outgoing.{OutgoingFile, read_chunk}
use clip_bridge.Core.Lan.{
  LanMessage, hello, ping, file_offer, file_accept, file_reject, file_chunk, file_complete,
  LanError, io_error, file_transfer, LanResult, done, failed, Stream,
}
use clip_bridge.Core.Lan.Receive.{unexpected, no_frame}
use clip_bridge.Prelude.{
  ℕ, zero, suc, ◌+◌, ◌≡◌, refl, Bool, true, false, not, Option, none, some, List, [], ◌∷◌, ◌++◌,
  if◌then◌else◌, ◌==◌, list_eq, nat_eq, option_eq, length, is_empty, take, Text, codes,
}

pub record SentFile : Type 0 where
  pub transfer_id : Text
  pub file_name : Text
  pub bytes_sent : ℕ
  pub sha256_hex : Text

-- The loop that waits for the peer's answer to the offer: `none` where it was accepted.
unfoldable pub await_accept : Text → Bool → List LanMessage → Option LanError
await_accept transfer_id broken [] =
    some (no_frame broken (codes "peer closed before accepting file offer"))
await_accept transfer_id broken (file_accept t ∷ frames) =
    if t == transfer_id then none else some (unexpected (file_accept t))
await_accept transfer_id broken (file_reject t reason ∷ frames) =
    some (file_transfer (rejected reason))
await_accept transfer_id broken (ping ∷ frames) = await_accept transfer_id broken frames
await_accept transfer_id broken (hello d v n ∷ frames) = await_accept transfer_id broken frames
await_accept transfer_id broken (other ∷ frames) = some (unexpected other)

-- The loop over the chunks with the offset it ends at; `none` where the fuel ran out.
unfoldable pub send_chunks : ℕ → Text → OutgoingFile → ℕ → Option (List LanMessage × ℕ)
send_chunks zero transfer_id f offset = none
send_chunks (suc fuel) transfer_id f offset =
    let (chunk, g) = read_chunk f in
    let rest = send_chunks fuel transfer_id g (offset + length chunk) in
    if is_empty chunk then some ([], offset) else elim rest [
      | none ↦ none
      | some (frames, end) ↦ some (file_chunk transfer_id offset chunk ∷ frames, end)
    ]

unfoldable pub sent_file : OutgoingFile → ℕ → SentFile
sent_file f bytes_sent = record {
  transfer_id = f.offer.transfer_id;
  file_name = f.offer.file_name;
  bytes_sent = bytes_sent;
  sha256_hex = f.offer.sha256_hex;
}

-- What follows the acceptance: the chunks and the last frame.
unfoldable pub send_accepted : OutgoingFile → LanResult SentFile × List LanMessage
send_accepted f = elim (send_chunks (suc (length f.unread)) f.offer.transfer_id f 0) [
  | none ↦ (failed io_error, [])
  | some (frames, end) ↦ (done (sent_file f end), frames ++ file_complete f.offer.transfer_id ∷ [])
]

-- From the peer's hello on: the result and the frames that are written.
unfoldable pub send_file : Text → OutgoingFile → Stream → LanResult SentFile × List LanMessage
send_file peer_device_id f stream =
    if not (peer_device_id == f.offer.target_device_id)
    then (failed (file_transfer (peer_mismatch f.offer.target_device_id peer_device_id)), [])
    else let (result, frames) = send_accepted f in
      elim (await_accept f.offer.transfer_id stream.broken stream.frames) [
        | some e ↦ (failed e, file_offer f.offer ∷ [])
        | none ↦ (result, file_offer f.offer ∷ frames)
      ]

-- One turn of the loop: nothing is left to read, or a chunk is.
pub send_chunks_over :
    (fuel : ℕ) (transfer_id : Text) (f : OutgoingFile) (offset : ℕ)
    → is_empty (take f.chunk_bytes f.unread) ≡ true
    → send_chunks (suc fuel) transfer_id f offset ≡ some ([], offset)
unfolding send_chunks read_chunk
send_chunks_over fuel transfer_id f offset h = rw h refl

pub send_chunks_more :
    (fuel : ℕ) (transfer_id : Text) (f : OutgoingFile) (offset : ℕ) (frames : List LanMessage)
    (end : ℕ)
    → is_empty (take f.chunk_bytes f.unread) ≡ false
    → send_chunks fuel transfer_id (read_chunk f).1 (offset + length (take f.chunk_bytes f.unread))
      ≡ some (frames, end)
    → send_chunks (suc fuel) transfer_id f offset
      ≡ some (file_chunk transfer_id offset (take f.chunk_bytes f.unread) ∷ frames, end)
unfolding send_chunks read_chunk
send_chunks_more fuel transfer_id f offset frames end h rest = rw (h, rest) refl
