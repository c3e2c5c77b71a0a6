-- ===== src/Core/Lan/Tests.antt =====
-- The theorems on files, blobs and peers (core/src/file_transfer.rs, core/src/lan.rs) at small
-- inputs.
use clip_bridge.Core.Crypto.{Bytes, sha256_hex}
use clip_bridge.Core.Net.{v4, SocketAddr}
use clip_bridge.Core.Protocol.{LanPeer}
use clip_bridge.Core.FileTransfer.{FileOffer, ReceivedFile, FileTransferError, ok, err}
use clip_bridge.Core.FileTransfer.Names
use clip_bridge.Core.FileTransfer.Names.{sanitize_file_name, unique_destination_path, part_path_for}
use clip_bridge.Core.FileTransfer.Names.Safe.{is_plain_name, unique_destination_path-is_plain}
use clip_bridge.Core.FileTransfer.Outgoing.{OutgoingFile}
use clip_bridge.Core.FileTransfer.Incoming.{
  Files, Disk, IncomingFileWriter, new_writer, append_to, taken_by, finish,
}
use clip_bridge.Core.FileTransfer.Incoming.Writing.{IsWriting, new_writer-IsWriting, taken_by_next}
use clip_bridge.Core.FileTransfer.Incoming.Finish.{finish_lem}
use clip_bridge.Core.Lan.{done}
use clip_bridge.Core.Lan.Receive.{receive_chunks}
use clip_bridge.Core.Lan.Send.{SentFile, send_accepted}
use clip_bridge.Core.Lan.Transfer.{send_accepted-receive_chunks}
use clip_bridge.Core.Lan.BlobCache
use clip_bridge.Core.Lan.BlobCache.{BlobCache, IsValid}
use clip_bridge.Core.Lan.BlobCache.Caps.{insert-within_caps}
use clip_bridge.Core.Lan.Peers.{KnownPeer, drop_relay, is_relay_key, apply_relay_snapshot}
use clip_bridge.Core.Lan.Peers.Snapshot.{
  IsRegistered, apply_relay_snapshot-mdns, apply_relay_snapshot-IsRegistered,
}
use clip_bridge.Prelude.Assoc
use clip_bridge.Prelude.Assoc.{
  Assoc, IsMap, is_some, lookup-remove, lookup-insert, lookup-insert_self, remove-IsMap,
  insert-IsMap, All-remove, All-lookup, length-remove, remove_missing, length-remove_found,
}
use clip_bridge.Prelude.{
  if◌then◌else◌, ◌≡◌, ◌⊎◌, refl, Bool, true, false, ◌||◌, Option, none, some, List, [], ◌∷◌, map,
  arith, ◌==◌, list_eq, nat_eq, option_eq, list_beq, length, All, any, contains, Text, codes,
  starts_with,
}
use clip_bridge.Prelude.Chars.{is_control, trim_start, trim_end, trim_matches}

abbrev there : Text → Bool
there name = name == codes "a.txt" || name == codes "a (1).txt"

unique_destination_path-is_plain_example :
    (there (codes "a (2).txt") ≡ false)
    × ((name : Text) × (codes "a (2).txt" ≡ name) × (is_plain_name name ≡ true))
unfolding unique_destination_path Names.first_free Names.numbered_name Names.split_name_ext
    Names.rsplit_once Names.digits sanitize_file_name list_beq any Names.is_separator_or_control
    is_control trim_matches trim_end trim_start Names.is_space_or_dot Names.is_windows_reserved_name
    contains Names.device_stem Names.to_ascii_uppercase Names.split_once
unique_destination_path-is_plain_example =
    unique_destination_path-is_plain (λ name. name) there (codes "a.txt") (codes "a (2).txt") refl

-- A name with a drive of Windows passes as it is.
drive_name : sanitize_file_name (codes "C:x.txt") ≡ ok (codes "C:x.txt")
unfolding Names.rsplit_once sanitize_file_name list_beq any Names.is_separator_or_control is_control
    trim_matches trim_end trim_start Names.is_space_or_dot Names.is_windows_reserved_name contains
    Names.device_stem Names.to_ascii_uppercase Names.split_once
drive_name = refl

-- A stand-in for the hash: the bytes themselves, 32 of them in these tests.
abbrev digest : Bytes → Bytes
digest b = b

abbrev content : Bytes
content =
    1 ∷ 2 ∷ 3 ∷ 4 ∷ 5 ∷ 6 ∷ 7 ∷ 8 ∷ 1 ∷ 2 ∷ 3 ∷ 4 ∷ 5 ∷ 6 ∷ 7 ∷ 8 ∷ 1 ∷ 2 ∷ 3 ∷ 4 ∷ 5 ∷ 6 ∷ 7 ∷ 8
    ∷ 1 ∷ 2 ∷ 3 ∷ 4 ∷ 5 ∷ 6 ∷ 7 ∷ 8 ∷ []

abbrev offer : FileOffer
offer = record {
  transfer_id = codes "t-1";
  source_device_id = codes "phone";
  target_device_id = codes "mac";
  file_name = codes "a.txt";
  size_bytes = 32;
  modified_unix_millis = none;
  mime_type = none;
  sha256_hex = sha256_hex digest content;
}

abbrev sound_disk : Disk
sound_disk = record {
  create_dir = false;
  create = false;
  write = none;
  sync = false;
  rename = false;
  remove_file = false;
  join = λ name. name;
}

abbrev held : Files
held = (codes "a.txt", 9 ∷ []) ∷ []

abbrev writer : IncomingFileWriter
writer = new_writer offer (codes "a (1).txt")

abbrev files : Files
files = Assoc.insert (part_path_for (codes "a (1).txt") (codes "t-1")) [] held

writing : IsWriting writer files
writing = new_writer-IsWriting offer (codes "a (1).txt") held (omega arith)

full : IsWriting (taken_by writer content) (append_to writer.part_path content files)
unfolding new_writer
full = (taken_by_next content writer files writing (omega arith)).0

finish_lem_example :
    let w = taken_by writer content in
    let before = append_to writer.part_path content files in
    ((e : FileTransferError) × (finish digest sound_disk w before
        ≡ (err e, (if sound_disk.remove_file then before else Assoc.remove w.part_path before))))
    ⊎ ((r : ReceivedFile) × ((finish digest sound_disk w before).0 ≡ ok r)
        × (Assoc.lookup r.path (finish digest sound_disk w before).1 ≡ some w.hashed)
        × (length w.hashed ≡ w.offer.size_bytes)
        × (sha256_hex digest w.hashed ≡ w.offer.sha256_hex))
finish_lem_example =
    finish_lem digest sound_disk (taken_by writer content)
      (append_to writer.part_path content files) full

abbrev outgoing : OutgoingFile
outgoing = record { unread = content; offer = offer; chunk_bytes = 20 }

send_accepted-receive_chunks_example :
    (s : SentFile) × (r : ReceivedFile) × ((send_accepted outgoing).0 ≡ done s)
    × (s.bytes_sent ≡ 32)
    × ((receive_chunks digest (λ e. []) sound_disk false (send_accepted outgoing).1 writer files).0
        ≡ done r)
    × (Assoc.lookup writer.final_path
          (receive_chunks digest
            (λ e. [])
            sound_disk
            false
            (send_accepted outgoing).1
            writer
            files).2
        ≡ some content)
unfolding new_writer
send_accepted-receive_chunks_example =
    send_accepted-receive_chunks digest (λ e. []) sound_disk false outgoing writer files writing
      refl refl refl refl refl (omega arith) refl refl

abbrev empty : BlobCache
empty = record { map = []; order = []; bytes = 0 }

empty-IsValid : IsValid empty
unfolding BlobCache.weigh
empty-IsValid = record {
  counted = record { is_map = tt; distinct = tt; present = tt; count = refl; sum = refl };
  within_bytes = omega arith;
  within_entries = omega arith;
}

insert-within_caps_example : IsValid (BlobCache.insert (codes "k") content empty)
insert-within_caps_example = insert-within_caps (codes "k") content empty empty-IsValid

abbrev read : Text → Option SocketAddr
read [] = none
read (c ∷ s) = some (record { ip = v4 c; port = 1 })

abbrev peers : List LanPeer
peers =
    record { device_id = codes "a"; device_name = codes "A"; candidates = (5 ∷ []) ∷ (5 ∷ []) ∷ [] }
    ∷ record { device_id = codes "mac"; device_name = codes "Mac"; candidates = (6 ∷ []) ∷ [] }
    ∷ []

abbrev known : Assoc Text KnownPeer
known =
    (codes "tv._clip", record { peer_did = codes "b"; candidates = [] })
    ∷ (codes "relay:old", record { peer_did = codes "old"; candidates = [] })
    ∷ []

apply_relay_snapshot-mdns_example :
    let (addrs_after, known_after) = apply_relay_snapshot read [] (codes "mac") peers [] known in
    (Assoc.lookup (codes "tv._clip") addrs_after ≡ none)
    × (Assoc.lookup (codes "tv._clip") known_after
        ≡ some (record { peer_did = codes "b"; candidates = [] }))
unfolding Assoc.lookup list_beq is_relay_key starts_with
apply_relay_snapshot-mdns_example =
    apply_relay_snapshot-mdns read [] (codes "mac") peers [] known (codes "tv._clip") refl

apply_relay_snapshot-IsRegistered_example :
    All
      (IsRegistered [] (codes "mac") (map (λ e. e.1.peer_did) (drop_relay known)))
      (apply_relay_snapshot read [] (codes "mac") peers [] known).1
apply_relay_snapshot-IsRegistered_example =
    apply_relay_snapshot-IsRegistered read [] (codes "mac") peers [] known
