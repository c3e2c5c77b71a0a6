-- ===== src/Windows/Sending.antt =====
-- What a user sends by hand from the Windows client, and the files it received
-- (clients/windows/src/bridge.rs). A result `none` is an error, whose text is left out.
use clip_bridge.Core.Crypto.{Bytes}
use clip_bridge.Core.FileTransfer.{ReceivedFile}
use clip_bridge.Windows.{
  was_sent, was_received, ImageHistoryEntry, sent, received, failed, FileTransferHistoryEntry,
  pending, max_image_bytes, FileStore, store_file_history, remember_hash,
}
use clip_bridge.Windows.Encoding.{
  NormalizedPng, FileSystem, encode_for_wire, pixel_hash_hex, normalize_image_file_at_path,
  supported_drag_image_paths,
}
use clip_bridge.Windows.Clipboard.{Bridge, Host, build_history_entry, publish_image, keep_image}
use clip_bridge.Prelude.{
  ℕ, ◌+◌, ◌⊎◌, inl, inr, Bool, not, ◌||◌, Option, none, some, List, [], ◌∷◌, ◌++◌, map, ltb,
  if◌then◌else◌, list_eq, nat_eq, option_eq, length, is_empty, take, retain, Text, codes, nat_beq,
}
use clip_bridge.Prelude.Chars.{is_whitespace, trim_matches}

-- `if let Some(h) = pixel_hash_hex(..)`, with the answer of `remember_hash` ignored.
unfoldable pub note_pixels : Host → Bytes → Bridge → Bridge
note_pixels host bytes b = elim (pixel_hash_hex host.crate host.digest bytes) [
  | none ↦ b
  | some h ↦ record b { recent_image_hashes = (remember_hash h b.recent_image_hashes).1 }
]

-- Noting, publishing and keeping an image that is to be sent, whether its hash is known or not.
unfoldable pub send_normalized :
    Host → ℕ → NormalizedPng → Bridge → Option ImageHistoryEntry × Bridge
send_normalized host now png b =
    let noted = note_pixels host png.bytes b in
    let entry = build_history_entry host now png was_sent in
    elim (publish_image host png entry.ts noted) [
      | none ↦ (none, noted)
      | some after ↦ (some entry, keep_image entry png.bytes after)
    ]

unfoldable pub send_image_bytes : Host → ℕ → Bytes → Bridge → Option ImageHistoryEntry × Bridge
send_image_bytes host now bytes b = elim (encode_for_wire host.crate bytes) [
  | none ↦ (none, b)
  | some png ↦
      if ltb max_image_bytes (length png.bytes) then (none, b) else send_normalized host now png b
]

-- The loop over the paths; a failure to publish ends it.
unfoldable pub send_paths :
    Host
    → FileSystem
    → ℕ
    → List Text
    → List ImageHistoryEntry
    → Bridge
    → Option (List ImageHistoryEntry) × Bridge
send_paths host fs now [] entries b = (some entries, b)
send_paths host fs now (path ∷ paths) entries b =
    elim (normalize_image_file_at_path host.crate fs path) [
      | none ↦ send_paths host fs now paths entries b
      | some png ↦
          let (result, after) = send_normalized host now png b in
          elim result [
            | none ↦ (none, after)
            | some entry ↦ send_paths host fs now paths (entries ++ entry ∷ []) after
          ]
    ]

unfoldable pub non_empty : Option (List ImageHistoryEntry) → Option (List ImageHistoryEntry)
non_empty none = none
non_empty (some entries) = if is_empty entries then none else some entries

unfoldable pub send_image_paths :
    Host → FileSystem → ℕ → List Text → Bridge → Option (List ImageHistoryEntry) × Bridge
send_image_paths host fs now paths b =
    let image_paths = supported_drag_image_paths fs paths in
    let (result, after) = send_paths host fs now image_paths [] b in
    if is_empty image_paths then (none, b) else (non_empty result, after)

-- What sending files uses: the client's `send_file_to_peer`, with the name and the bytes sent or the
-- text of an error; the file system; the names of the peers; fresh ids, and the times of an entry.
pub record Transfers : Type 0 where
  pub send_file : Text → Text → (Text × ℕ) ⊎ Text
  pub metadata : Text → (Bool × ℕ) ⊎ Text
  pub peer_name : Text → Option Text
  pub new_id : ℕ → Text
  pub started_at : ℕ → ℕ
  pub ended_at : ℕ → ℕ

unfoldable pub is_separator : ℕ → Bool
is_separator c = nat_beq c b'\\' || nat_beq c b'/'

-- `rsplit(['\\', '/']).next()`
unfoldable pub last_part : Text → Text → Text
last_part part [] = part
last_part part (c ∷ s) =
    let fresh = last_part [] s in
    let longer = last_part (part ++ c ∷ []) s in if is_separator c then fresh else longer

unfoldable pub file_display_name : Text → Text
file_display_name path =
    let name = last_part [] path in
    if is_empty (trim_matches is_whitespace name) then codes "file" else name

unfoldable pub target_name : Transfers → Text → Text
target_name env target = elim (env.peer_name target) [ some name ↦ name | none ↦ take 12 target ]

unfoldable pub failed_entry : FileTransferHistoryEntry → ℕ → ℕ → Text → FileTransferHistoryEntry
failed_entry e ts size message = record e {
  ts = ts;
  size_bytes = size;
  status = failed;
  message = some message;
}

-- The answer of the client, or its error.
unfoldable pub answered_entry :
    ℕ → ℕ → FileTransferHistoryEntry → (Text × ℕ) ⊎ Text → FileTransferHistoryEntry
answered_entry ts len shown (inl (file_name, bytes_sent)) = record shown {
  file_name = file_name;
  size_bytes = bytes_sent;
  ts = ts;
  status = sent;
}
answered_entry ts len shown (inr e) = failed_entry shown ts len e

-- The entry that ends a transfer, from the one that is shown while it runs.
unfoldable pub final_entry :
    Transfers
    → ℕ
    → Text
    → Text
    → FileTransferHistoryEntry
    → (Bool × ℕ) ⊎ Text
    → FileTransferHistoryEntry
final_entry env ts path target shown (inr e) = failed_entry shown ts 0 (codes "读取失败:" ++ e)
final_entry env ts path target shown (inl (is_file, len)) =
    let answered = answered_entry ts len shown (env.send_file target path) in
    if is_file then answered else failed_entry shown ts 0 (codes "只能发送普通文件")

unfoldable pub file_size : Transfers → Text → ℕ
file_size env path = elim (env.metadata path) [ inl (is_file, len) ↦ len | inr e ↦ 0 ]

-- The inner loop; the number counts the transfers.
unfoldable pub send_to :
    Transfers → Text → List Text → ℕ → FileStore → List FileTransferHistoryEntry × FileStore
send_to env path [] n s = ([], s)
send_to env path (target ∷ targets) n s =
    let shown =
      pending (env.started_at n) (env.new_id n) (file_display_name path) (target_name env target)
        (file_size env path) in
    let final = final_entry env (env.ended_at n) path target shown (env.metadata path) in
    let (rest, after) =
      send_to env path targets (n + 1) (store_file_history final (store_file_history shown s)) in
    (final ∷ rest, after)

unfoldable pub send_each :
    Transfers → List Text → List Text → ℕ → FileStore → List FileTransferHistoryEntry × FileStore
send_each env [] targets n s = ([], s)
send_each env (path ∷ paths) targets n s =
    let (entries, after) = send_to env path targets n s in
    let (rest, last) = send_each env paths targets (n + length targets) after in
    (entries ++ rest, last)

unfoldable pub send_files_to_peers :
    Option Transfers
    → List Text
    → List Text
    → FileStore
    → Option (List FileTransferHistoryEntry) × FileStore
send_files_to_peers none paths target_device_ids s = (none, s)
send_files_to_peers (some env) paths target_device_ids s =
    let targets = retain (λ id. not (is_empty (trim_matches is_whitespace id))) target_device_ids in
    let (entries, after) = send_each env paths targets 0 s in
    if is_empty targets then (none, s) else (some entries, after)

unfoldable pub received_file : ℕ → ReceivedFile → FileTransferHistoryEntry
received_file now file = record {
  id = file.transfer_id;
  file_name = file.file_name;
  device_name = codes "LAN 设备";
  size_bytes = file.size_bytes;
  ts = now;
  direction = was_received;
  status = received;
  path = some file.path;
  message = none;
}

unfoldable pub store_all : List FileTransferHistoryEntry → FileStore → FileStore
store_all [] s = s
store_all (e ∷ entries) s = store_all entries (store_file_history e s)

-- `taken` is what `take_received_files` gives, and `none` that the client is not started.
unfoldable pub drain_received_files :
    ℕ → Option (List ReceivedFile) → FileStore → List FileTransferHistoryEntry × FileStore
drain_received_files now none s = ([], s)
drain_received_files now (some taken) s =
    let entries = map (received_file now) taken in (entries, store_all entries s)
