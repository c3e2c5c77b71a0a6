-- ===== src/Core/FileTransfer/Incoming.antt =====
-- `IncomingFileWriter` and `validate_offer` of core/src/file_transfer.rs over the files of the
-- destination directory. The hasher's state is what it was fed; the operating system's failures
-- are arguments.
pub mod Writing
pub mod Finish
use clip_bridge.Core.Crypto.{Bytes, sha256_hex, sha256_len}
use clip_bridge.Core.FileTransfer.{
  FileTransferConfig, FileOffer, ReceivedFile, FileTransferError, io, file_too_large,
  invalid_file_name, invalid_sha256, offset_mismatch, size_mismatch, hash_mismatch, canceled,
  Result, ok, err,
}
use clip_bridge.Core.FileTransfer.Names.{sanitize_file_name, unique_destination_path, part_path_for}
use clip_bridge.Prelude.Assoc
use clip_bridge.Prelude.Assoc.{
  Assoc, IsMap, is_some, lookup-remove, lookup-insert, lookup-insert_self, remove-IsMap,
  insert-IsMap, All-remove, All-lookup, length-remove, remove_missing, length-remove_found,
}
use clip_bridge.Prelude.{
  String, ℕ, zero, suc, ◌+◌, ◌-◌, ◌*◌, ◌/◌, ◌%◌, ◌^◌, ◌≤◌, ◌<◌, ◌≡◌, ◌≢◌, ◌↔◌, ◌⊎◌, inl, inr, refl,
  sym, ap, subst, ◌∙◌, Bool, true, false, not, ◌&&◌, ◌||◌, Option, none, some, List, [], ◌∷◌, ◌++◌,
  map, append-nil, append_assoc, arith, ltb, leb, if◌then◌else◌, Eq, ◌==◌, eq_iff, eq_refl, ne-eq,
  eq_symm, list_eq, nat_eq, option_eq, list_beq, option_beq, length, is_empty, take, drop, All,
  All-append, All-map, length-append, retain, any, contains, Distinct, length-retain, retain-append,
  Text, codes, text_lt, starts_with, Bool-cases, Option-cases, ltb→lt, leb→le, leb→gt, le→leb,
  length-take, length-drop, take-append-drop, drop-all, contains-append, Distinct-append_one,
  retain_all, All-retain, nat_beq,
}
use clip_bridge.Prelude.Chars.{is_control, is_whitespace, trim_start, trim_end, trim_matches}

-- The regular files by path.
abbrev pub Files : Type 0
Files = Assoc Text Bytes

-- The destination directory's `join`, and which calls of the operating system fail; a failing write
-- may leave a part of the data.
pub record Disk : Type 0 where
  pub join : Text → Text
  pub create_dir : Bool
  pub create : Bool
  pub write : Option ℕ
  pub sync : Bool
  pub rename : Bool
  pub remove_file : Bool

pub record IncomingFileWriter : Type 0 where
  pub offer : FileOffer
  pub is_open : Bool
  pub final_path : Text
  pub part_path : Text
  pub written : ℕ
  pub hashed : Bytes
  pub finished : Bool

unfoldable pub is_ascii_hexdigit : ℕ → Bool
is_ascii_hexdigit c =
    (leb b'0' c && leb c b'9') || (leb b'A' c && leb c b'F') || (leb b'a' c && leb c b'f')

unfoldable pub is_valid_sha256_hex : Text → Bool
is_valid_sha256_hex s =
    nat_beq (length s) (sha256_len * 2) && not (any (λ c. not (is_ascii_hexdigit c)) s)

-- `none` where the offer is in order.
unfoldable pub validate_offer : FileOffer → FileTransferConfig → Option FileTransferError
validate_offer offer config =
    if ltb config.max_file_bytes offer.size_bytes
    then some (file_too_large offer.size_bytes config.max_file_bytes)
    else elim (sanitize_file_name offer.file_name) [
      | err e ↦ some e
      | ok name ↦
          if not (is_valid_sha256_hex offer.sha256_hex)
          then some (invalid_sha256 offer.sha256_hex)
          else if is_empty (trim_matches is_whitespace offer.transfer_id)
          then some (invalid_file_name (codes "empty transfer id"))
          else none
    ]

-- `candidate.exists()`
unfoldable pub exists : Files → Text → Bool
exists files path = is_some (Assoc.lookup path files)

unfoldable pub new_writer : FileOffer → Text → IncomingFileWriter
new_writer offer final_path = record {
  offer = offer;
  is_open = true;
  final_path = final_path;
  part_path = part_path_for final_path offer.transfer_id;
  written = 0;
  hashed = [];
  finished = false;
}

unfoldable pub open_part : Disk → FileOffer → Text → Files → Result IncomingFileWriter × Files
open_part disk offer final_path files =
    let part_path = part_path_for final_path offer.transfer_id in
    if disk.create || exists files part_path
    then (err io, files)
    else (ok (new_writer offer final_path), Assoc.insert part_path [] files)

unfoldable pub accept :
    Disk → FileOffer → FileTransferConfig → Files → Result IncomingFileWriter × Files
accept disk offer config files = elim (validate_offer offer config) [
  | some e ↦ (err e, files)
  | none ↦
      if disk.create_dir
      then (err io, files)
      else elim (unique_destination_path disk.join (exists files) offer.file_name) [
        | err e ↦ (err e, files)
        | ok final_path ↦ open_part disk offer final_path files
      ]
]

-- What a file holds after `chunk` was written at its end.
unfoldable pub append_to : Text → Bytes → Files → Files
append_to path chunk files = elim (Assoc.lookup path files) [
  | none ↦ files
  | some held ↦ Assoc.insert path (held ++ chunk) files
]

-- `self.written.saturating_add(data.len() as u64)`
unfoldable pub saturating_add : ℕ → ℕ → ℕ
saturating_add a b = if leb (2 ^ 64) (a + b) then 2 ^ 64 - 1 else a + b

unfoldable pub taken_by : IncomingFileWriter → Bytes → IncomingFileWriter
taken_by w chunk = record w {
  hashed = w.hashed ++ chunk;
  written = saturating_add w.written (length chunk);
}

-- `none` where the chunk was taken.
unfoldable pub write_chunk :
    Disk
    → ℕ
    → Bytes
    → IncomingFileWriter
    → Files
    → Option FileTransferError × IncomingFileWriter × Files
write_chunk disk offset chunk w files =
    let next = saturating_add w.written (length chunk) in
    if not (nat_beq offset w.written)
    then (some (offset_mismatch w.written offset), w, files)
    else if ltb w.offer.size_bytes next
    then (some (size_mismatch w.offer.size_bytes next), w, files)
    else if not w.is_open
    then (some (canceled (codes "writer already closed")), w, files)
    else elim disk.write [
      | some n ↦ (some io, w, append_to w.part_path (take n chunk) files)
      | none ↦ (none, taken_by w chunk, append_to w.part_path chunk files)
    ]

-- `Drop`: a writer that did not finish takes its partial file along, unless that fails.
unfoldable pub drop_writer : Disk → IncomingFileWriter → Files → Files
drop_writer disk w files =
    if w.finished then files else if disk.remove_file then files else Assoc.remove w.part_path files

-- `fs::rename` over the files of the directory.
unfoldable pub rename : Text → Text → Files → Files
rename old new files = elim (Assoc.lookup old files) [
  | none ↦ files
  | some held ↦ Assoc.insert new held (Assoc.remove old files)
]

module _ (digest : Bytes → Bytes) where
  -- The body of `finish`, which may close the file and mark the writer finished.
  unfoldable pub try_finish :
      Disk → IncomingFileWriter → Files → Result ReceivedFile × IncomingFileWriter × Files
  try_finish disk w files =
      let closed : IncomingFileWriter = record w { is_open = false } in
      let got = sha256_hex digest w.hashed in
      if not (nat_beq w.written w.offer.size_bytes)
      then (err (size_mismatch w.offer.size_bytes w.written), w, files)
      else if w.is_open && disk.sync
      then (err io, closed, files)
      else if not (got == w.offer.sha256_hex)
      then (err (hash_mismatch w.offer.sha256_hex got), closed, files)
      else if disk.rename
      then (err io, closed, files)
      else (
        ok (record {
          transfer_id = w.offer.transfer_id;
          file_name = w.offer.file_name;
          path = w.final_path;
          size_bytes = w.written;
          sha256_hex = w.offer.sha256_hex;
        }),
        record closed { finished = true },
        rename w.part_path w.final_path files,
      )

  -- `finish` consumes the writer, which is dropped as it returns.
  unfoldable pub finish : Disk → IncomingFileWriter → Files → Result ReceivedFile × Files
  finish disk w files =
      let (result, v, after) = try_finish disk w files in (result, drop_writer disk v after)
