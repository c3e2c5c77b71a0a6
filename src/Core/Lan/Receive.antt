-- ===== src/Core/Lan/Receive.antt =====
-- `receive_offered_file` and `receive_file_from_stream` of core/src/lan.rs. `writable` says whether
-- the peer still takes frames; `describe` is the text of an error.
use clip_bridge.Core.Crypto.{Bytes}
use clip_bridge.Core.FileTransfer.{
  FileTransferConfig, FileOffer, ReceivedFile, FileTransferError, canceled, unexpected_frame,
  peer_mismatch, ok, err,
}
use clip_bridge.Core.FileTransfer.Incoming.{
  Files, Disk, IncomingFileWriter, accept, write_chunk, drop_writer, finish,
}
use clip_bridge.Core.Lan.{
  LanMessage, file_offer, file_accept, file_reject, file_chunk, file_complete, file_cancel,
  frame_label, LanError, io_error, file_transfer, LanResult, done, failed, Stream,
}
use clip_bridge.Prelude.{
  Bool, not, none, some, List, [], ◌∷◌, if◌then◌else◌, ◌==◌, list_eq, nat_eq, option_eq, Text,
  codes,
}

-- How a receiving ends: its result, the frames sent, and the files.
abbrev pub Ending : Type 0
Ending = LanResult ReceivedFile × List LanMessage × Files

unfoldable pub unexpected : LanMessage → LanError
unexpected m = file_transfer (unexpected_frame (frame_label m))

-- What reading past the last frame gives.
unfoldable pub no_frame : Bool → Text → LanError
no_frame broken reason = if broken then io_error else file_transfer (canceled reason)

module _ (digest : Bytes → Bytes) (describe : FileTransferError → Text) (disk : Disk) where
  unfoldable pub complete : IncomingFileWriter → Files → Ending
  complete w files =
      let (result, after) = finish digest disk w files in
      (elim result [ ok r ↦ done r | err e ↦ failed (file_transfer e) ], [], after)

  -- A function that returns drops the writer.
  unfoldable pub abort : LanError → List LanMessage → IncomingFileWriter → Files → Ending
  abort e replies w files = (failed e, replies, drop_writer disk w files)

  unfoldable pub receive_chunks : Bool → List LanMessage → IncomingFileWriter → Files → Ending
  receive_chunks broken [] w files =
      abort (no_frame broken (codes "peer closed before file transfer completed")) [] w files
  receive_chunks broken (file_chunk transfer_id offset chunk ∷ frames) w files =
      let (refusal, v, after) = write_chunk disk offset chunk w files in
      let rest = receive_chunks broken frames v after in
      if transfer_id == w.offer.transfer_id
      then elim refusal [
        | none ↦ rest
        | some e ↦ abort (file_transfer e) (file_cancel transfer_id (describe e) ∷ []) v after
      ]
      else abort (unexpected (file_chunk transfer_id offset chunk)) [] w files
  receive_chunks broken (file_complete transfer_id ∷ frames) w files =
      if transfer_id == w.offer.transfer_id
      then complete w files
      else abort (unexpected (file_complete transfer_id)) [] w files
  receive_chunks broken (file_cancel transfer_id reason ∷ frames) w files =
      abort (file_transfer (canceled reason)) [] w files
  receive_chunks broken (other ∷ frames) w files = abort (unexpected other) [] w files

  module _ (writable : Bool) (config : FileTransferConfig) where
    -- `reject_file_offer(...).await?` and the error that follows it.
    unfoldable pub reject_file_offer : Text → Text → FileTransferError → Files → Ending
    reject_file_offer transfer_id reason e files =
        if writable
        then (failed (file_transfer e), file_reject transfer_id reason ∷ [], files)
        else (failed io_error, [], files)

    unfoldable pub receive_accepted : FileOffer → Stream → IncomingFileWriter → Files → Ending
    receive_accepted offer stream w files =
        let (result, replies, after) = receive_chunks stream.broken stream.frames w files in
        if writable
        then (result, file_accept offer.transfer_id ∷ replies, after)
        else abort io_error [] w files

    unfoldable pub receive_offered_file : Text → Text → FileOffer → Stream → Files → Ending
    receive_offered_file self_device_id peer_device_id offer stream files =
        let (incoming, opened) = accept disk offer config files in
        if not (offer.target_device_id == self_device_id)
        then reject_file_offer offer.transfer_id (codes "file offer targeted a different device")
            (peer_mismatch self_device_id offer.target_device_id) files
        else if not (offer.source_device_id == peer_device_id)
        then reject_file_offer offer.transfer_id (codes "file offer source did not match handshake")
            (peer_mismatch peer_device_id offer.source_device_id) files
        else elim incoming [
          | err e ↦ reject_file_offer offer.transfer_id (describe e) e opened
          | ok w ↦ receive_accepted offer stream w opened
        ]

    -- After the hello of the peer the first frame must be an offer.
    unfoldable pub receive_first : Text → Text → List LanMessage → Bool → Files → Ending
    receive_first self peer [] broken files =
        (failed (no_frame broken (codes "peer closed before sending file offer")), [], files)
    receive_first self peer (file_offer offer ∷ frames) broken files =
        receive_offered_file self peer offer (record { frames = frames; broken = broken }) files
    receive_first self peer (other ∷ frames) broken files = (failed (unexpected other), [], files)
