-- ===== src/Core/FileTransfer/Incoming/Finish.antt =====
-- How a transfer ends: with the file that was offered, or without a trace.
use clip_bridge.Core.Crypto.{Bytes, sha256_hex}
use clip_bridge.Core.FileTransfer.{
  ReceivedFile, FileTransferError, io, size_mismatch, hash_mismatch, ok, err,
}
use clip_bridge.Core.FileTransfer.Incoming.{
  Files, Disk, IncomingFileWriter, drop_writer, rename, try_finish, finish,
}
use clip_bridge.Prelude.Assoc
use clip_bridge.Prelude.Assoc.{
  Assoc, IsMap, is_some, lookup-remove, lookup-insert, lookup-insert_self, remove-IsMap,
  insert-IsMap, All-remove, All-lookup, length-remove, remove_missing, length-remove_found,
}
use clip_bridge.Prelude.{
  if◌then◌else◌, ◌≡◌, ◌⊎◌, inl, inr, refl, ◌∙◌, false, not, ◌&&◌, some, arith, ◌==◌, eq_iff,
  list_eq, nat_eq, option_eq, length, Text, Bool-cases, nat_beq,
}
use clip_bridge.Core.FileTransfer.Incoming.Writing.{IsWriting}

received : IncomingFileWriter → ReceivedFile
received w = record {
  transfer_id = w.offer.transfer_id;
  file_name = w.offer.file_name;
  path = w.final_path;
  size_bytes = w.written;
  sha256_hex = w.offer.sha256_hex;
}

module _ (digest : Bytes → Bytes) where
  finish_cases :
      (disk : Disk) (w : IncomingFileWriter) (files : Files)
      → w.finished ≡ false
      → ((e : FileTransferError) × (finish digest disk w files
            ≡ (err e, (if disk.remove_file then files else Assoc.remove w.part_path files))))
        ⊎ ((r : ReceivedFile) × (r.path ≡ w.final_path)
            × (w.written ≡ w.offer.size_bytes)
            × (sha256_hex digest w.hashed ≡ w.offer.sha256_hex)
            × (finish digest disk w files ≡ (ok r, rename w.part_path w.final_path files)))
  unfolding finish try_finish drop_writer received
  finish_cases disk w files unfinished =
      elim (Bool-cases (not (nat_beq w.written w.offer.size_bytes))) [
        | inl short ↦ inl (size_mismatch w.offer.size_bytes w.written, rw (short, unfinished) refl)
        | inr all ↦ elim (Bool-cases (w.is_open && disk.sync)) [
          | inl fails ↦ inl (io, rw (all, fails, unfinished) refl)
          | inr synced ↦
              elim (Bool-cases (not (sha256_hex digest w.hashed == w.offer.sha256_hex))) [
                | inl differs ↦ inl (
                  hash_mismatch w.offer.sha256_hex (sha256_hex digest w.hashed),
                  rw (all, synced, differs, unfinished) refl,
                )
                | inr same ↦ elim (Bool-cases disk.rename) [
                  | inl fails ↦ inl (io, rw (all, synced, same, fails, unfinished) refl)
                  | inr renames ↦ inr (
                    received w,
                    refl,
                    ground (arith, all),
                    ground (arith, same, eq_iff (sha256_hex digest w.hashed) w.offer.sha256_hex),
                    rw (all, synced, same, renames) refl,
                  )
                ]
              ]
        ]
      ]

  lookup-rename :
      (old new : Text) (held : Bytes) (files : Files)
      → Assoc.lookup old files ≡ some held
      → rename old new files ≡ Assoc.insert new held (Assoc.remove old files)
  unfolding rename
  lookup-rename old new held files h = rw (h, rename) refl

  -- Of a writer at work, a transfer that ends well leaves, at the path it reports, a file of the offered size and the
  -- offered hash, which holds the bytes received; one that ends in an error removes the
  -- partial file, if the operating system lets it, and leaves every other file as it was.
  pub finish_lem :
      (disk : Disk) (w : IncomingFileWriter) (files : Files)
      → IsWriting w files
      → ((e : FileTransferError) × (finish digest disk w files
            ≡ (err e, (if disk.remove_file then files else Assoc.remove w.part_path files))))
        ⊎ ((r : ReceivedFile) × ((finish digest disk w files).0 ≡ ok r)
            × (Assoc.lookup r.path (finish digest disk w files).1 ≡ some w.hashed)
            × (length w.hashed ≡ w.offer.size_bytes)
            × (sha256_hex digest w.hashed ≡ w.offer.sha256_hex))
  finish_lem disk w files i = elim (finish_cases disk w files i.unfinished) [
    | inl failed ↦ inl failed
    | inr (r, path, size, hash, finished) ↦ inr (
      r,
      rw finished refl,
      rw (finished, path, lookup-rename w.part_path w.final_path w.hashed files i.partial)
          (lookup-insert_self w.final_path w.hashed (Assoc.remove w.part_path files)),
      i.counted ∙ size,
      hash,
    )
  ]

  -- A writer that holds what was offered finishes on a disk that does not fail.
  pub finish_done :
      (disk : Disk) (w : IncomingFileWriter) (files : Files)
      → IsWriting w files
      → disk.sync ≡ false
      → disk.rename ≡ false
      → length w.hashed ≡ w.offer.size_bytes
      → sha256_hex digest w.hashed ≡ w.offer.sha256_hex
      → (r : ReceivedFile) × ((finish digest disk w files).0 ≡ ok r)
        × (r.path ≡ w.final_path)
        × (Assoc.lookup w.final_path (finish digest disk w files).1 ≡ some w.hashed)
  unfolding finish try_finish drop_writer received
  finish_done disk w files i sync renames size hash =
      let all : not (nat_beq w.written w.offer.size_bytes) ≡ false =
        ground (arith, i.counted, size) in
      let synced : (w.is_open && disk.sync) ≡ false = ground (arith, sync) in
      let same : not (sha256_hex digest w.hashed == w.offer.sha256_hex) ≡ false =
        ground (arith, eq_iff (sha256_hex digest w.hashed) w.offer.sha256_hex, hash) in
      (
        received w,
        rw (all, synced, same, renames) refl,
        refl,
        rw
            (
              all,
              synced,
              same,
              renames,
              lookup-rename w.part_path w.final_path w.hashed files i.partial,
            )
            (lookup-insert_self w.final_path w.hashed (Assoc.remove w.part_path files)),
      )
