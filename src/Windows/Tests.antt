-- ===== src/Windows/Tests.antt =====
-- The Windows client (clients/windows/src/bridge.rs) at small inputs.
use clip_bridge.Core.Crypto.{Bytes}
use clip_bridge.Core.Protocol.{ClipPayload, ClipKind, image, ImageMeta}
use clip_bridge.Windows.{
  was_sent, ImageHistoryEntry, ImageStore, store_history, image_bytes_for, remember_hash,
}
use clip_bridge.Windows.Encoding.{ImageCrate, NormalizedPng, pixel_hash_hex}
use clip_bridge.Windows.Clipboard.{
  Bridge, Host, try_publish_image, handle_remote_image, receive_bytes, keep_remote,
}
use clip_bridge.Windows.Eviction.{ids, has_bytes, IsStore}
use clip_bridge.Windows.History.{store_history-IsStore, store_history-drops_shared}
use clip_bridge.Windows.Echo.{try_publish_image-handle_remote_image}
use clip_bridge.Prelude.Assoc
use clip_bridge.Prelude.Assoc.{
  Assoc, IsMap, is_some, lookup-remove, lookup-insert, lookup-insert_self, remove-IsMap,
  insert-IsMap, All-remove, All-remove_other, All-lookup, length-remove, remove_missing,
  length-remove_found,
}
use clip_bridge.Prelude.{
  ℕ, zero, suc, ◌≡◌, refl, true, none, some, List, [], ◌∷◌, ◌++◌, arith, list_eq, nat_eq, option_eq,
  list_beq, contains, Text, codes,
}

abbrev entry_of : Text → ImageHistoryEntry
entry_of id = record {
  id = id;
  mime = [];
  width = 1;
  height = 1;
  size_bytes = 1;
  device_name = [];
  ts = 0;
  direction = was_sent;
  thumbnail = [];
}

abbrev one_image : ImageStore
one_image = record {
  image_history = entry_of (codes "a") ∷ [];
  image_bytes = (codes "a", 1 ∷ []) ∷ [];
  image_tx = [];
}

one_image-IsStore : IsStore one_image
unfolding ids has_bytes contains Assoc.lookup list_beq
one_image-IsStore = record {
  limited = omega arith;
  no_leak = (refl, tt);
  distinct = (refl, tt);
  kept = (refl, tt);
}

store_history-IsStore_example :
    IsStore (store_history (entry_of (codes "b")) (2 ∷ []) one_image)
    × (image_bytes_for (codes "b") (store_history (entry_of (codes "b")) (2 ∷ []) one_image)
        ≡ some (2 ∷ []))
unfolding ids contains list_beq
store_history-IsStore_example =
    store_history-IsStore (entry_of (codes "b")) (2 ∷ []) one_image one_image-IsStore refl

-- 23 entries of which the first has the id of the image that was sent first.
abbrev many : ℕ → List ImageHistoryEntry
many zero = []
many (suc n) = entry_of (n ∷ []) ∷ many n

abbrev full_front : List ImageHistoryEntry
full_front = entry_of (codes "a") ∷ many 22

abbrev full_store : ImageStore
full_store = record {
  image_history = full_front ++ entry_of (codes "a") ∷ [];
  image_bytes = (codes "a", 1 ∷ []) ∷ [];
  image_tx = [];
}

store_history-drops_shared_example :
    (contains
        (ids (store_history (entry_of (codes "b")) (2 ∷ []) full_store).image_history)
        (codes "a")
      ≡ true)
    × (image_bytes_for (codes "a") (store_history (entry_of (codes "b")) (2 ∷ []) full_store)
        ≡ none)
unfolding ids contains list_beq
store_history-drops_shared_example =
    store_history-drops_shared (entry_of (codes "b")) (entry_of (codes "a")) (2 ∷ []) full_front
      full_store refl refl refl refl

-- A crate in which an image is its bytes.
abbrev toy_crate : ImageCrate
toy_crate = record {
  Image = Bytes;
  load_from_memory = λ b. some b;
  dimensions = λ i. (1, 1);
  write_png = λ i. some i;
  encode_jpeg = λ i q. some i;
  rgba = λ i. i;
  thumbnail = λ b. [];
}

abbrev host : Host
host = record {
  crate = toy_crate;
  digest = λ b. b;
  device_name = codes "pc";
  client = some (λ png. true);
}

abbrev bridge : Bridge
bridge = record {
  expected_echo = none;
  recent_image_hashes = [];
  images = record { image_history = []; image_bytes = []; image_tx = [] };
  files = record { file_history = []; file_tx = [] };
  published = [];
}

abbrev meta : ImageMeta
meta = record {
  mime_type = [];
  width = 1;
  height = 1;
  size_bytes = 1;
  sha256_hex = [];
  nonce_b64 = [];
}

abbrev clip_of : ClipKind → ClipPayload
clip_of kind = record {
  kind = kind;
  content = codes "hi";
  device_name = [];
  ts = 0;
  image = some meta;
}

abbrev a_png : NormalizedPng
a_png = record { bytes = 5 ∷ []; mime = []; width = 1; height = 1 }

pasted : (handle_remote_image host (λ m. some (5 ∷ [])) (clip_of image) bridge).0 ≡ some (5 ∷ [])
unfolding handle_remote_image receive_bytes pixel_hash_hex keep_remote remember_hash contains
pasted = refl

try_publish_image-handle_remote_image_example :
    (try_publish_image host 3 a_png
      (handle_remote_image host (λ m. some (5 ∷ [])) (clip_of image) bridge).1).published
    ≡ []
try_publish_image-handle_remote_image_example =
    try_publish_image-handle_remote_image host (λ m. some (5 ∷ [])) (clip_of image) bridge 3
      (5 ∷ []) a_png pasted refl
