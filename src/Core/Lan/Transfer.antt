-- ===== src/Core/Lan/Transfer.antt =====
-- A file sent is the file received.
use clip_bridge.Core.Crypto.{Bytes, sha256_hex}
use clip_bridge.Core.FileTransfer.{FileOffer, ReceivedFile, FileTransferError}
use clip_bridge.Core.FileTransfer.Outgoing.{OutgoingFile, read_chunk}
use clip_bridge.Core.FileTransfer.Incoming.{Files, Disk, IncomingFileWriter, taken_by, append_to}
use clip_bridge.Core.FileTransfer.Incoming.Writing.{IsWriting, taken_by_next, write_chunk_next}
use clip_bridge.Core.FileTransfer.Incoming.Finish.{finish_done}
use clip_bridge.Core.Lan.{LanMessage, file_chunk, file_complete, file_cancel, file_transfer, done}
use clip_bridge.Core.Lan.Receive.{receive_chunks, complete, abort}
use clip_bridge.Core.Lan.Send.{
  SentFile, sent_file, send_accepted, send_chunks, send_chunks_over, send_chunks_more,
}
use clip_bridge.Prelude.Assoc
use clip_bridge.Prelude.Assoc.{
  Assoc, IsMap, is_some, lookup-remove, lookup-insert, lookup-insert_self, remove-IsMap,
  insert-IsMap, All-remove, All-lookup, length-remove, remove_missing, length-remove_found,
}
use clip_bridge.Prelude.{
  ℕ, zero, suc, ◌+◌, ◌≤◌, ◌<◌, ◌≡◌, inl, inr, refl, sym, ap, ◌∙◌, Bool, true, false, Option, none,
  some, List, [], ◌∷◌, ◌++◌, append-nil, arith, eq_refl, list_eq, nat_eq, option_eq, length,
  is_empty, take, Text, Bool-cases, length-take, length-drop, append-take-drop,
}

length_of_empty : (xs : Bytes) → is_empty xs ≡ true → length xs ≡ 0
length_of_empty [] h = refl
length_of_empty (x ∷ xs) h = absurd (ground arith)

length_of_more : (xs : Bytes) → is_empty xs ≡ false → 0 < length xs
length_of_more [] h = absurd (ground arith)
length_of_more (x ∷ xs) h = omega arith

no_length : (xs : Bytes) → length xs ≡ 0 → xs ≡ []
no_length [] h = refl
no_length (x ∷ xs) h = absurd (omega arith)

-- What the sender writes after the acceptance, from the run of its loop.
sent_all :
    (f : OutgoingFile) (w : IncomingFileWriter) (frames : List LanMessage)
    → w.offer ≡ f.offer
    → w.written ≡ 0
    → send_chunks (suc (length f.unread)) w.offer.transfer_id f w.written
      ≡ some (frames, w.written + length f.unread)
    → send_accepted f
      ≡ (done (sent_file f (length f.unread)), frames ++ file_complete f.offer.transfer_id ∷ [])
unfolding send_accepted
sent_all f w frames same start sent =
    let id = ap (λ (o : FileOffer). o.transfer_id) same in
    let end : w.written + length f.unread ≡ length f.unread = omega arith in
    let loop : send_chunks (suc (length f.unread)) f.offer.transfer_id f 0
        ≡ some (frames, length f.unread) =
      ap (λ (t : Text). send_chunks (suc (length f.unread)) t f 0) (sym id)
      ∙ ap (λ (n : ℕ). send_chunks (suc (length f.unread)) w.offer.transfer_id f n) (sym start)
      ∙ sent
      ∙ ap (λ (n : ℕ). some (frames, n)) end in
    rw (loop, send_accepted) refl

module _ (digest : Bytes → Bytes) (describe : FileTransferError → Text) (disk : Disk) where
  receive_next :
      (broken : Bool) (chunk : Bytes) (frames : List LanMessage) (w : IncomingFileWriter)
      (files : Files)
      → IsWriting w files
      → disk.write ≡ none
      → w.written + length chunk ≤ w.offer.size_bytes
      → receive_chunks digest describe disk broken
          (file_chunk w.offer.transfer_id w.written chunk ∷ frames)
          w
          files
        ≡ receive_chunks digest describe disk broken frames
            (taken_by w chunk)
            (append_to w.part_path chunk files)
  unfolding receive_chunks
  receive_next broken chunk frames w files i sound fits =
      let id = w.offer.transfer_id in
      rw (eq_refl id) (
        ap
          (λ (q : Option FileTransferError × IncomingFileWriter × Files). elim q.0 [
            | none ↦ receive_chunks digest describe disk broken frames q.1 q.2
            | some e ↦
                abort digest describe disk (file_transfer e) (file_cancel id (describe e) ∷ []) q.1
                  q.2
          ])
          (write_chunk_next disk chunk w files i sound fits))

  -- What the chunks of a file do to the writer that receives them in their order.
  Delivered : Bool → List LanMessage → ℕ → OutgoingFile → IncomingFileWriter → Files → Type 0
  Delivered broken tail fuel f w files =
      (frames : List LanMessage) × (v : IncomingFileWriter) × (after : Files) × (send_chunks fuel
          w.offer.transfer_id f w.written
        ≡ some (frames, w.written + length f.unread))
      × (receive_chunks digest describe disk broken (frames ++ tail) w files
          ≡ receive_chunks digest describe disk broken tail v after)
      × IsWriting v after
      × (v.hashed ≡ w.hashed ++ f.unread)
      × (v.offer ≡ w.offer)
      × (v.final_path ≡ w.final_path)

  send_chunks-receive_chunks :
      (broken : Bool) (tail : List LanMessage) (fuel : ℕ) (f : OutgoingFile)
      (w : IncomingFileWriter) (files : Files)
      → IsWriting w files
      → disk.write ≡ none
      → 0 < f.chunk_bytes
      → length f.unread < fuel
      → w.written + length f.unread ≤ w.offer.size_bytes
      → Delivered broken tail fuel f w files
  unfolding Delivered read_chunk taken_by
  send_chunks-receive_chunks broken tail zero f w files i sound room h fits = absurd (omega arith)
  send_chunks-receive_chunks broken tail (suc fuel) f w files i sound room h fits =
      let chunk = take f.chunk_bytes f.unread in
      let taken = length-take f.chunk_bytes f.unread in
      let left = length-drop f.chunk_bytes f.unread in
      let id = w.offer.transfer_id in
      elim (Bool-cases (is_empty chunk)) [
        | inl over ↦
            let none_left : f.unread ≡ [] =
              no_length f.unread (omega (arith, length_of_empty chunk over, taken)) in
            (
              [],
              w,
              files,
              send_chunks_over fuel id f w.written over
                  ∙ rw none_left (ap (λ (n : ℕ). some ([], n)) (omega arith)),
              refl,
              i,
              rw none_left (sym (append-nil w.hashed)),
              refl,
              refl,
            )
        | inr more ↦
            let some_left = length_of_more chunk more in
            let now : w.written + length chunk ≤ w.offer.size_bytes = omega (arith, taken) in
            let (writing, count) = taken_by_next chunk w files i now in
            let (frames, v, after, sent, heard, still, bytes, offer, path) =
              send_chunks-receive_chunks broken tail fuel (read_chunk f).1 (taken_by w chunk)
                (append_to w.part_path chunk files) writing sound room (omega (arith, taken, left))
                (omega (arith, taken, left, count)) in
            (
              file_chunk id w.written chunk ∷ frames,
              v,
              after,
              send_chunks_more fuel id f w.written frames (w.written + length f.unread) more (
                  ap (λ (n : ℕ). send_chunks fuel id (read_chunk f).1 n) (sym count)
                  ∙ sent
                  ∙ ap (λ (n : ℕ). some (frames, n)) (omega (arith, count, taken, left))),
              receive_next broken chunk (frames ++ tail) w files i sound now ∙ heard,
              still,
              bytes ∙ append-take-drop f.chunk_bytes w.hashed f.unread,
              offer,
              path,
            )
      ]

  receive_complete :
      (broken : Bool) (w : IncomingFileWriter) (files : Files)
      → receive_chunks digest describe disk broken (file_complete w.offer.transfer_id ∷ []) w files
        ≡ complete digest describe disk w files
  unfolding receive_chunks
  receive_complete broken w files = rw (eq_refl w.offer.transfer_id) refl

  -- A writer that has what was offered completes on a disk that does not fail.
  complete_lem :
      (w : IncomingFileWriter) (files : Files)
      → IsWriting w files
      → disk.sync ≡ false
      → disk.rename ≡ false
      → length w.hashed ≡ w.offer.size_bytes
      → sha256_hex digest w.hashed ≡ w.offer.sha256_hex
      → (r : ReceivedFile) × ((complete digest describe disk w files).0 ≡ done r)
        × (Assoc.lookup w.final_path (complete digest describe disk w files).2 ≡ some w.hashed)
  unfolding complete
  complete_lem w files i sync renames size hash =
      let (r, finished, path, held) = finish_done digest disk w files i sync renames size hash in
      (r, rw (finished, complete) refl, held)

  -- A receiver that has just accepted the offer and reads all that the sender writes has the file:
  -- both sides succeed, and at the path it chose stands the content that the sender read, if the
  -- receiver's disk does not fail and the content has the offered size and hash.
  pub send_accepted-receive_chunks :
      (broken : Bool) (f : OutgoingFile) (w : IncomingFileWriter) (files : Files)
      → IsWriting w files
      → w.hashed ≡ []
      → w.offer ≡ f.offer
      → disk.write ≡ none
      → disk.sync ≡ false
      → disk.rename ≡ false
      → 0 < f.chunk_bytes
      → length f.unread ≡ f.offer.size_bytes
      → sha256_hex digest f.unread ≡ f.offer.sha256_hex
      → (s : SentFile) × (r : ReceivedFile) × ((send_accepted f).0 ≡ done s)
        × (s.bytes_sent ≡ length f.unread)
        × ((receive_chunks digest describe disk broken (send_accepted f).1 w files).0 ≡ done r)
        × (Assoc.lookup w.final_path
              (receive_chunks digest describe disk broken (send_accepted f).1 w files).2
            ≡ some f.unread)
  unfolding Delivered sent_file
  send_accepted-receive_chunks broken f w files i empty same sound sync renames room size hash =
      let id = f.offer.transfer_id in
      let start : w.written ≡ 0 = sym i.counted ∙ ap (λ (l : Bytes). length l) empty in
      let offered = ap (λ (o : FileOffer). o.size_bytes) same in
      let (frames, v, after, sent, heard, still, bytes, offer, path) =
        send_chunks-receive_chunks broken (file_complete id ∷ []) (suc (length f.unread)) f w files
          i sound room (omega arith) (omega (arith, start, offered, size)) in
      let ours : v.offer ≡ f.offer = offer ∙ same in
      let content : v.hashed ≡ f.unread = bytes ∙ ap (λ (l : Bytes). l ++ f.unread) empty in
      let all_sent = sent_all f w frames same start sent in
      let all_heard =
        heard
        ∙ ap
            (λ (t : Text).
              receive_chunks digest describe disk broken (file_complete t ∷ []) v after)
            (sym (ap (λ (o : FileOffer). o.transfer_id) ours))
        ∙ receive_complete broken v after in
      let (r, ended, held) =
        complete_lem v after still sync renames
          (ap (λ (l : Bytes). length l) content
            ∙ size
            ∙ sym (ap (λ (o : FileOffer). o.size_bytes) ours))
          (ap (λ (l : Bytes). sha256_hex digest l) content
            ∙ hash
            ∙ sym (ap (λ (o : FileOffer). o.sha256_hex) ours)) in
      (
        sent_file f (length f.unread),
        r,
        rw all_sent refl,
        refl,
        rw (all_sent, all_heard) ended,
        rw (all_sent, all_heard, sym path, held) (ap (λ (l : Bytes). some l) content),
      )
