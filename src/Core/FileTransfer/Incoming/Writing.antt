-- ===== src/Core/FileTransfer/Incoming/Writing.antt =====
-- A received file is written chunk by chunk: its partial file holds what was counted and hashed.
use clip_bridge.Core.Crypto.{Bytes}
use clip_bridge.Core.FileTransfer.{
  FileTransferConfig, FileOffer, FileTransferError, offset_mismatch, size_mismatch, canceled, ok,
  Result-cases,
}
use clip_bridge.Core.FileTransfer.Names.{unique_destination_path, part_path_for}
use clip_bridge.Core.FileTransfer.Names.Safe.{IsPlaced, unique_destination_path-is_plain}
use clip_bridge.Core.FileTransfer.Incoming.{
  Files, Disk, IncomingFileWriter, validate_offer, exists, new_writer, open_part, accept, append_to,
  saturating_add, taken_by, write_chunk,
}
use clip_bridge.Prelude.Assoc
use clip_bridge.Prelude.Assoc.{
  Assoc, IsMap, is_some, lookup-remove, lookup-insert, lookup-insert_self, remove-IsMap,
  insert-IsMap, All-remove, All-lookup, length-remove, remove_missing, length-remove_found,
}
use clip_bridge.Prelude.{
  ℕ, ◌+◌, ◌^◌, ◌≤◌, ◌<◌, ◌≡◌, ◌⊎◌, inl, inr, refl, true, false, not, ◌||◌, none, some, [], ◌++◌,
  arith, ltb, if◌then◌else◌, list_eq, nat_eq, option_eq, length, length-append, Text, codes,
  Bool-cases, Option-cases, nat_beq,
}

-- A writer at work: its partial file holds exactly the bytes that were hashed, and they are
-- counted. The size of the offer is such that the count does not saturate.
pub record IsWriting (w : IncomingFileWriter) (files : Files) : Type 0 where
  pub is_open : w.is_open ≡ true
  pub unfinished : w.finished ≡ false
  pub partial : Assoc.lookup w.part_path files ≡ some w.hashed
  pub counted : length w.hashed ≡ w.written
  pub within : w.written ≤ w.offer.size_bytes
  pub fits : w.offer.size_bytes + 1 < 2 ^ 64

size_bounded :
    (offer : FileOffer) (config : FileTransferConfig)
    → validate_offer offer config ≡ none
    → offer.size_bytes ≤ config.max_file_bytes
unfolding validate_offer
size_bounded offer config h = elim (Bool-cases (ltb config.max_file_bytes offer.size_bytes)) [
  | inl large ↦ absurd (ground (arith, large))
  | inr fits ↦ ground (arith, fits)
]

ok-injective : {A : Type 0} {a b : A} → ok a ≡ ok b → a ≡ b
ok-injective h = ground arith

pub new_writer-IsWriting :
    (offer : FileOffer) (path : Text) (files : Files)
    → offer.size_bytes + 1 < 2 ^ 64
    → IsWriting
        (new_writer offer path)
        (Assoc.insert (part_path_for path offer.transfer_id) [] files)
unfolding new_writer
new_writer-IsWriting offer path files fits = record {
  is_open = refl;
  unfinished = refl;
  partial = lookup-insert_self (part_path_for path offer.transfer_id) [] files;
  counted = refl;
  within = omega arith;
  fits = fits;
}

accepted :
    (disk : Disk) (offer : FileOffer) (config : FileTransferConfig) (files : Files)
    (w : IncomingFileWriter)
    → (accept disk offer config files).0 ≡ ok w
    → (path : Text) × (unique_destination_path disk.join (exists files) offer.file_name ≡ ok path)
      × (w ≡ new_writer offer path)
      × ((accept disk offer config files).1
          ≡ Assoc.insert (part_path_for path offer.transfer_id) [] files)
      × (exists files (part_path_for path offer.transfer_id) ≡ false)
      × (offer.size_bytes ≤ config.max_file_bytes)
unfolding accept open_part
accepted disk offer config files w h = elim (Option-cases (validate_offer offer config)) [
  | inr (e, bad) ↦ absurd (ground (arith, bad))
  | inl valid ↦ elim (Bool-cases disk.create_dir) [
    | inl no_dir ↦ absurd (ground (arith, valid, no_dir))
    | inr dir ↦
        elim (Result-cases (unique_destination_path disk.join (exists files) offer.file_name)) [
          | inr (e, bad) ↦ absurd (ground (arith, valid, dir, bad))
          | inl (path, found) ↦
              let taken = disk.create || exists files (part_path_for path offer.transfer_id) in
              elim (Bool-cases taken) [
                | inl fails ↦ absurd (ground (arith, valid, dir, found, fails))
                | inr opens ↦
                    let size = size_bounded offer config valid in
                    (
                      path,
                      found,
                      ground (arith, valid, dir, found, opens),
                      ground (arith, valid, dir, found, opens),
                      ground (arith, opens),
                      size,
                    )
              ]
        ]
  ]
]

-- What a receiver that accepts an offer begins with: an empty partial file of its own, and a
-- path for the complete one that no file has yet, the directory joined with a plain name.
pub accept-IsWriting :
    (disk : Disk) (offer : FileOffer) (config : FileTransferConfig) (files : Files)
    (w : IncomingFileWriter)
    → config.max_file_bytes + 1 < 2 ^ 64
    → (accept disk offer config files).0 ≡ ok w
    → IsWriting w (accept disk offer config files).1
      × (w.offer ≡ offer)
      × (w.hashed ≡ [])
      × (exists files w.final_path ≡ false)
      × IsPlaced disk.join w.final_path
      × (exists files w.part_path ≡ false)
unfolding new_writer
accept-IsWriting disk offer config files w small h =
    let (path, found, writer, after, fresh, size) = accepted disk offer config files w h in
    let free =
      unique_destination_path-is_plain disk.join (exists files) offer.file_name path found in
    rw (writer, after)
      (new_writer-IsWriting offer path files (omega arith), refl, refl, free.0, free.1, fresh)

saturating_add_exact :
    (a b n : ℕ) → saturating_add a b ≤ n → n + 1 < 2 ^ 64 → saturating_add a b ≡ a + b
unfolding saturating_add
saturating_add_exact a b n h small = ground arith

saturating_add_small : (a b n : ℕ) → a + b ≤ n → n + 1 < 2 ^ 64 → saturating_add a b ≡ a + b
unfolding saturating_add
saturating_add_small a b n h small = ground arith

lookup-append_to :
    (path : Text) (chunk held : Bytes) (files : Files)
    → Assoc.lookup path files ≡ some held
    → Assoc.lookup path (append_to path chunk files) ≡ some (held ++ chunk)
unfolding append_to
lookup-append_to path chunk held files h =
    rw (h, append_to) (lookup-insert_self path (held ++ chunk) files)

refused_or_taken :
    (disk : Disk) (offset : ℕ) (chunk : Bytes) (w : IncomingFileWriter) (files : Files)
    → disk.write ≡ none
    → ((e : FileTransferError) × (write_chunk disk offset chunk w files ≡ (some e, w, files)))
      ⊎ ((saturating_add w.written (length chunk) ≤ w.offer.size_bytes)
          × (write_chunk disk offset chunk w files
              ≡ (none, taken_by w chunk, append_to w.part_path chunk files)))
unfolding write_chunk taken_by
refused_or_taken disk offset chunk w files sound =
    let next = saturating_add w.written (length chunk) in
    elim (Bool-cases (not (nat_beq offset w.written))) [
      | inl gap ↦ inl (offset_mismatch w.written offset, rw gap refl)
      | inr there ↦ elim (Bool-cases (ltb w.offer.size_bytes next)) [
        | inl over ↦ inl (size_mismatch w.offer.size_bytes next, rw (there, over) refl)
        | inr fits ↦ elim (Bool-cases (not w.is_open)) [
          | inl shut ↦ inl (canceled (codes "writer already closed"), rw (there, fits, shut) refl)
          | inr opened ↦ inr (ground (arith, fits), rw (there, fits, opened, sound) refl)
        ]
      ]
    ]

taken_by-IsWriting :
    (chunk : Bytes) (w : IncomingFileWriter) (files : Files)
    → IsWriting w files
    → saturating_add w.written (length chunk) ≤ w.offer.size_bytes
    → IsWriting (taken_by w chunk) (append_to w.part_path chunk files)
unfolding taken_by
taken_by-IsWriting chunk w files i fits =
    let exact = saturating_add_exact w.written (length chunk) w.offer.size_bytes fits i.fits in
    let added = length-append w.hashed chunk in
    record {
      is_open = i.is_open;
      unfinished = i.unfinished;
      partial = lookup-append_to w.part_path chunk w.hashed files i.partial;
      counted = rw exact (rw added (omega (arith, i.counted)));
      within = fits;
      fits = i.fits;
    }

-- Whatever chunk comes, a writer goes on being one, unless the disk fails: it takes the chunk,
-- or it refuses it and leaves everything as it was.
pub write_chunk-IsWriting :
    (disk : Disk) (offset : ℕ) (chunk : Bytes) (w : IncomingFileWriter) (files : Files)
    → IsWriting w files
    → disk.write ≡ none
    → let (e, v, after) = write_chunk disk offset chunk w files in
      IsWriting v after × (v.hashed ≡ (if is_some e then w.hashed else w.hashed ++ chunk))
unfolding taken_by
write_chunk-IsWriting disk offset chunk w files i sound =
    elim (refused_or_taken disk offset chunk w files sound) [
      | inl (e, refused) ↦ rw refused (i, refl)
      | inr (fits, taken) ↦ rw taken (taken_by-IsWriting chunk w files i fits, refl)
    ]

-- A chunk at the right offset that does not go over the offered size is taken.
pub write_chunk_next :
    (disk : Disk) (chunk : Bytes) (w : IncomingFileWriter) (files : Files)
    → IsWriting w files
    → disk.write ≡ none
    → w.written + length chunk ≤ w.offer.size_bytes
    → write_chunk disk w.written chunk w files
      ≡ (none, taken_by w chunk, append_to w.part_path chunk files)
unfolding write_chunk taken_by
write_chunk_next disk chunk w files i sound fits =
    let there : not (nat_beq w.written w.written) ≡ false = ground arith in
    let small : ltb w.offer.size_bytes (saturating_add w.written (length chunk)) ≡ false =
      ground
        (arith, saturating_add_small w.written (length chunk) w.offer.size_bytes fits i.fits) in
    let opened : not w.is_open ≡ false = ground (arith, i.is_open) in
    rw (there, small, opened, sound) refl

-- Such a chunk leaves a writer at work, with the count that the sender has.
pub taken_by_next :
    (chunk : Bytes) (w : IncomingFileWriter) (files : Files)
    → IsWriting w files
    → w.written + length chunk ≤ w.offer.size_bytes
    → IsWriting (taken_by w chunk) (append_to w.part_path chunk files)
      × ((taken_by w chunk).written ≡ w.written + length chunk)
unfolding taken_by
taken_by_next chunk w files i fits =
    let exact = saturating_add_small w.written (length chunk) w.offer.size_bytes fits i.fits in
    (taken_by-IsWriting chunk w files i (omega (arith, exact, fits)), exact)
