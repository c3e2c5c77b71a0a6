-- ===== src/Core/FileTransfer/Outgoing.antt =====
-- `OutgoingFile` of core/src/file_transfer.rs: the offer of a file and the reading of its chunks.
-- A file is read to its end without failing; `open` is told what the file system says of it.
use clip_bridge.Core.Crypto.{Bytes, sha256_hex}
use clip_bridge.Core.FileTransfer.{
  FileTransferConfig, bounded_chunk_bytes, default_chunk_bytes, FileOffer, io, not_regular_file,
  file_too_large, invalid_file_name, Result, ok, err,
}
use clip_bridge.Core.FileTransfer.Names.{sanitize_file_name}
use clip_bridge.Prelude.{
  ℕ, zero, suc, ◌-◌, ◌^◌, ◌<◌, ◌≡◌, refl, ap, ◌∙◌, Bool, not, Option, none, some, [], ◌∷◌, ◌++◌,
  append-nil, arith, ltb, if◌then◌else◌, list_eq, nat_eq, option_eq, length, is_empty, take, drop,
  Text, length-drop, append-take-drop,
}

-- A path that leads to something: what `fs::metadata` says, the name if it is UTF-8, and the
-- bytes that are there to read. `shown` is `path.display()`.
pub record Source : Type 0 where
  pub is_file : Bool
  pub len : ℕ
  pub modified_unix_millis : Option ℕ
  pub file_name : Option Text
  pub shown : Text
  pub content : Bytes

pub record OutgoingFile : Type 0 where
  pub unread : Bytes
  pub offer : FileOffer
  pub chunk_bytes : ℕ

module _ (digest : Bytes → Bytes) where
  -- The loop of `sha256_file_hex`: a buffer at a time until nothing is read.
  unfoldable pub hash_loop : ℕ → Bytes → Bytes → Option Text
  hash_loop zero hashed unread = none
  hash_loop (suc fuel) hashed unread =
      let read = take default_chunk_bytes unread in
      let rest = hash_loop fuel (hashed ++ read) (drop default_chunk_bytes unread) in
      if is_empty read then some (sha256_hex digest hashed) else rest

  unfoldable pub sha256_file_hex : Bytes → Option Text
  sha256_file_hex content = hash_loop (suc (length content)) [] content

  unfoldable pub outgoing :
      Text → Text → Text → Source → Text → Option Text → Text → FileTransferConfig → OutgoingFile
  outgoing uuid source_device_id target_device_id source file_name mime_type hash config = record {
    unread = source.content;
    offer = record {
      transfer_id = uuid;
      source_device_id = source_device_id;
      target_device_id = target_device_id;
      file_name = file_name;
      size_bytes = source.len;
      modified_unix_millis = elim source.modified_unix_millis [
        | none ↦ none
        | some millis ↦ some (if ltb (2 ^ 63 - 1) millis then 2 ^ 63 - 1 else millis)
      ];
      mime_type = mime_type;
      sha256_hex = hash;
    };
    chunk_bytes = bounded_chunk_bytes config;
  }

  -- `none` stands for a path that leads to nothing readable.
  unfoldable pub open_source :
      Text → Text → Text → Option Source → Option Text → FileTransferConfig → Result OutgoingFile
  open_source uuid source_device_id target_device_id none mime_type config = err io
  open_source uuid source_device_id target_device_id (some source) mime_type config =
      if not source.is_file
      then err not_regular_file
      else if ltb config.max_file_bytes source.len
      then err (file_too_large source.len config.max_file_bytes)
      else elim source.file_name [
        | none ↦ err (invalid_file_name source.shown)
        | some name ↦ elim (sanitize_file_name name) [
          | err e ↦ err e
          | ok file_name ↦ elim (sha256_file_hex source.content) [
            | none ↦ err io
            | some hash ↦ ok (
                outgoing uuid source_device_id target_device_id source file_name mime_type hash
                  config)
          ]
        ]
      ]

  -- Hashing a file in buffers is hashing its content, and the loop ends.
  hash_loop_lem :
      (fuel : ℕ) (hashed unread : Bytes)
      → length unread < fuel
      → hash_loop fuel hashed unread ≡ some (sha256_hex digest (hashed ++ unread))
  unfolding hash_loop
  hash_loop_lem zero hashed unread h = absurd (omega arith)
  hash_loop_lem (suc fuel) hashed [] h = rw (append-nil hashed) refl
  hash_loop_lem (suc fuel) hashed (b ∷ unread) h =
      let shorter = length-drop default_chunk_bytes (b ∷ unread) in
      hash_loop_lem fuel (hashed ++ take default_chunk_bytes (b ∷ unread))
        (drop default_chunk_bytes (b ∷ unread)) (omega (arith, shorter))
      ∙ ap (λ (b : Bytes). some (sha256_hex digest b))
          (append-take-drop default_chunk_bytes hashed (b ∷ unread))

  pub sha256_file_hex_lem :
      (content : Bytes) → sha256_file_hex content ≡ some (sha256_hex digest content)
  unfolding sha256_file_hex
  sha256_file_hex_lem content = hash_loop_lem (suc (length content)) [] content (omega arith)

unfoldable pub read_chunk : OutgoingFile → Bytes × OutgoingFile
read_chunk f = (take f.chunk_bytes f.unread, record f { unread = drop f.chunk_bytes f.unread })
