-- ===== src/Core/FileTransfer.antt =====
-- core/src/file_transfer.rs: the data of a file transfer. `Names` has the file names, `Incoming`
-- the receiving writer and `Outgoing` the sender's side. A path is the name of a file in the
-- directory at hand: every path the code builds joins that directory with one plain name.
pub mod Names
pub mod Outgoing
pub mod Incoming
use clip_bridge.Prelude.Assoc
use clip_bridge.Prelude.Assoc.{
  Assoc, IsMap, is_some, lookup-remove, lookup-insert, lookup-insert_self, remove-IsMap,
  insert-IsMap, All-remove, All-lookup, length-remove, remove_missing, length-remove_found,
}
use clip_bridge.Prelude.{
  String, ℕ, zero, suc, ◌+◌, ◌-◌, ◌*◌, ◌/◌, ◌%◌, ◌^◌, ◌≤◌, ◌<◌, ◌≡◌, ◌≢◌, ◌↔◌, ◌⊎◌, inl, inr, refl,
  sym, ap, subst, ◌∙◌, Bool, true, false, not, ◌&&◌, ◌||◌, Option, none, some, List, [], ◌∷◌, ◌++◌,
  map, append-nil, append_assoc, arith, ltb, leb, if◌then◌else◌, Eq, ◌==◌, eq_iff, eq_refl, ne-eq,
  eq_symm, list_eq, nat_eq, option_eq, list_beq, option_beq, length, is_empty, take, drop, All,
  All-append, All-map, length-append, retain, any, contains, Distinct, length-retain, retain-append,
  Text, codes, text_lt, starts_with, Bool-cases, Option-cases, ltb→lt, leb→le, leb→gt, le→leb,
  length-take, length-drop, take-append-drop, drop-all, contains-append, Distinct-append_one,
  retain_all, All-retain, nat_beq,
}
use clip_bridge.Prelude.Chars.{is_control, is_whitespace, trim_start, trim_end, trim_matches}

abbrev pub default_max_file_bytes : ℕ
default_max_file_bytes = 2 * 1024 * 1024 * 1024

abbrev pub default_chunk_bytes : ℕ
default_chunk_bytes = 512 * 1024

-- `lan::MAX_FILE_CHUNK_BYTES`
abbrev pub max_file_chunk_bytes : ℕ
max_file_chunk_bytes = 512 * 1024

pub record FileTransferConfig : Type 0 where
  pub max_file_bytes : ℕ
  pub chunk_bytes : ℕ

unfoldable pub default_config : FileTransferConfig
default_config = record {
  max_file_bytes = default_max_file_bytes;
  chunk_bytes = default_chunk_bytes;
}

-- `clamp(1, MAX_FILE_CHUNK_BYTES)`
unfoldable pub bounded_chunk_bytes : FileTransferConfig → ℕ
bounded_chunk_bytes c =
    if ltb c.chunk_bytes 1
    then 1
    else if ltb max_file_chunk_bytes c.chunk_bytes
    then max_file_chunk_bytes
    else c.chunk_bytes

-- The modification time is an `i64` that is never negative where this code writes it.
pub record FileOffer : Type 0 where
  pub transfer_id : Text
  pub source_device_id : Text
  pub target_device_id : Text
  pub file_name : Text
  pub size_bytes : ℕ
  pub modified_unix_millis : Option ℕ
  pub mime_type : Option Text
  pub sha256_hex : Text

pub record ReceivedFile : Type 0 where
  pub transfer_id : Text
  pub file_name : Text
  pub path : Text
  pub size_bytes : ℕ
  pub sha256_hex : Text

-- An I/O error carries no more than its kind: any of them is `io`.
pub data FileTransferError : Type 0 where
  io not_regular_file : FileTransferError
  file_too_large : ℕ → ℕ → FileTransferError
  invalid_file_name reserved_file_name invalid_sha256 : Text → FileTransferError
  offset_mismatch size_mismatch : ℕ → ℕ → FileTransferError
  hash_mismatch : Text → Text → FileTransferError
  rejected canceled unexpected_frame : Text → FileTransferError
  peer_mismatch : Text → Text → FileTransferError

pub data Result {ℓ} (A : Type ℓ) : Type ℓ where
  ok : A → Result A
  err : FileTransferError → Result A

pub Result-cases {ℓ} :
    {A : Type ℓ} (r : Result A) → ((a : A) × (r ≡ ok a)) ⊎ ((e : FileTransferError) × (r ≡ err e))
Result-cases (ok a) = inl (a, refl)
Result-cases (err e) = inr (e, refl)
