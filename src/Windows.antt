-- ===== src/Windows.antt =====
-- The bridge of the Windows client, clients/windows/src/bridge.rs: what it keeps, and the three
-- stores with a bound. A channel is the list of what was sent on it, the oldest first; a deque is a
-- list from its front.
pub mod Encoding
pub mod Clipboard
pub mod Sending
pub mod Eviction
pub mod History
pub mod Hashes
pub mod Echo
pub mod Files
mod Tests
use clip_bridge.Core.Crypto.{Bytes}
use clip_bridge.Core.Protocol.{ClipPayload}
use clip_bridge.Prelude.Assoc
use clip_bridge.Prelude.Assoc.{
  Assoc, IsMap, is_some, lookup-remove, lookup-insert, lookup-insert_self, remove-IsMap,
  insert-IsMap, All-remove, All-lookup, length-remove, remove_missing, length-remove_found,
}
use clip_bridge.Prelude.{
  String, ℕ, zero, suc, ◌+◌, ◌-◌, ◌*◌, ◌/◌, ◌%◌, ◌^◌, ◌≤◌, ◌<◌, ◌≡◌, ◌≢◌, ◌↔◌, ◌⊎◌, inl, inr, refl,
  sym, ap, subst, ◌∙◌, Bool, true, false, not, ◌&&◌, ◌||◌, Option, none, some, List, [], ◌∷◌, ◌++◌,
  map, append-nil, append_assoc, arith, ltb, leb, if◌then◌else◌, Eq, ◌==◌, eq_iff, eq_refl, ne-eq,
  eq_symm, list_eq, nat_eq, option_eq, list_beq, option_beq, length, is_empty, take, drop, All,
  All-append, All-map, length-append, retain, any, contains, Distinct, length-retain, retain-append,
  Text, codes, text_lt, starts_with, Bool-cases, Option-cases, if_both, if_given, ltb→lt, leb→le,
  leb→gt, le→leb, length-take, length-drop, take-append-drop, append-take-drop, drop-all,
  contains-append, Distinct-append_one, retain_all, All-retain, nat_beq,
}

pub data Direction : Type 0 where
  was_sent was_received : Direction

pub record ImageHistoryEntry : Type 0 where
  pub id : Text
  pub mime : Text
  pub width : ℕ
  pub height : ℕ
  pub size_bytes : ℕ
  pub device_name : Text
  pub ts : ℕ
  pub direction : Direction
  pub thumbnail : Text

pub data FileStatus : Type 0 where
  sending sent received failed : FileStatus

pub record FileTransferHistoryEntry : Type 0 where
  pub id : Text
  pub file_name : Text
  pub device_name : Text
  pub size_bytes : ℕ
  pub ts : ℕ
  pub direction : Direction
  pub status : FileStatus
  pub path : Option Text
  pub message : Option Text

unfoldable pub pending : ℕ → Text → Text → Text → ℕ → FileTransferHistoryEntry
pending ts id file_name device_name size_bytes = record {
  id = id;
  file_name = file_name;
  device_name = device_name;
  size_bytes = size_bytes;
  ts = ts;
  direction = was_sent;
  status = sending;
  path = none;
  message = none;
}

abbrev pub echo_window : ℕ
echo_window = 10 * 1000

abbrev pub max_image_bytes : ℕ
max_image_bytes = 32 * 1024 * 1024

abbrev pub history_limit : ℕ
history_limit = 24

abbrev pub hash_cap : ℕ
hash_cap = 32

-- The images whose entries the UI may ask for.
pub record ImageStore : Type 0 where
  pub image_history : List ImageHistoryEntry
  pub image_bytes : Assoc Text Bytes
  pub image_tx : List ImageHistoryEntry

unfoldable pub pop_back {ℓ} : {A : Type ℓ} → List A → Option (List A × A)
pop_back [] = none
pop_back (x ∷ xs) = elim (pop_back xs) [
  | none ↦ some ([], x)
  | some (front, last) ↦ some (x ∷ front, last)
]

-- `while h.len() > HISTORY_LIMIT`, with the bytes of each entry that goes.
unfoldable pub evict_images :
    ℕ → List ImageHistoryEntry → Assoc Text Bytes → List ImageHistoryEntry × Assoc Text Bytes
evict_images zero h bs = (h, bs)
evict_images (suc fuel) h bs =
    let (front, left) = elim (pop_back h) as (λ x. List ImageHistoryEntry × Assoc Text Bytes) [
      | none ↦ (h, bs)
      | some (front, evicted) ↦ (front, Assoc.remove evicted.id bs)
    ] in
    let rest = evict_images fuel front left in
    if ltb history_limit (length h) then rest else (h, bs)

unfoldable pub store_history : ImageHistoryEntry → Bytes → ImageStore → ImageStore
store_history entry bytes s =
    let pushed = entry ∷ s.image_history in
    let (h, bs) = evict_images (length pushed) pushed s.image_bytes in
    record {
      image_history = h;
      image_bytes = Assoc.insert entry.id bytes bs;
      image_tx = s.image_tx ++ entry ∷ [];
    }

unfoldable pub image_bytes_for : Text → ImageStore → Option Bytes
image_bytes_for id s = Assoc.lookup id s.image_bytes

-- `position` and `remove`: the first entry of the id goes.
unfoldable pub remove_entry : Text → List FileTransferHistoryEntry → List FileTransferHistoryEntry
remove_entry id [] = []
remove_entry id (e ∷ h) = let rest = remove_entry id h in if e.id == id then h else e ∷ rest

pub record FileStore : Type 0 where
  pub file_history : List FileTransferHistoryEntry
  pub file_tx : List FileTransferHistoryEntry

-- Dropping from the back until the limit holds leaves the front.
unfoldable pub store_file_history : FileTransferHistoryEntry → FileStore → FileStore
store_file_history entry s = record {
  file_history = take history_limit (entry ∷ remove_entry entry.id s.file_history);
  file_tx = s.file_tx ++ entry ∷ [];
}

unfoldable pub remove_hash : Text → List Text → List Text
remove_hash hash [] = []
remove_hash hash (h ∷ q) = let rest = remove_hash hash q in if h == hash then q else h ∷ rest

-- Popping from the front until the cap holds leaves the back. The flag says that the hash was there.
unfoldable pub remember_hash : Text → List Text → Bool × List Text
remember_hash hash q =
    let pushed = q ++ hash ∷ [] in
    if contains q hash
    then (true, remove_hash hash q ++ hash ∷ [])
    else (false, drop (length pushed - hash_cap) pushed)
