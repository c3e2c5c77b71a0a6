-- ===== src/Windows/Clipboard.antt =====
-- A change of the clipboard, and a clip that arrives, in clients/windows/src/bridge.rs. Reading and
-- writing the clipboard is the operating system's: what it holds is an argument. Times are in
-- milliseconds.
use clip_bridge.Core.Crypto.{Bytes, sha256_hex}
use clip_bridge.Core.Protocol.{ClipPayload, text, image, ImageMeta}
use clip_bridge.Windows.{
  Direction, was_sent, was_received, ImageHistoryEntry, echo_window, max_image_bytes, ImageStore,
  store_history, FileStore, remember_hash,
}
use clip_bridge.Windows.Encoding.{ImageCrate, NormalizedPng, pixel_hash_hex}
use clip_bridge.Prelude.{
  ℕ, ◌-◌, Bool, false, not, ◌&&◌, Option, none, some, List, [], ◌∷◌, ◌++◌, ltb, if◌then◌else◌, ◌==◌,
  list_eq, nat_eq, option_eq, length, is_empty, Text,
}

-- What reached the client.
pub data Published : Type 0 where
  text_clip : ClipPayload → Published
  image_clip : NormalizedPng → Text → ℕ → Published

pub record Bridge : Type 0 where
  pub expected_echo : Option (Text × ℕ)
  pub recent_image_hashes : List Text
  pub images : ImageStore
  pub files : FileStore
  pub published : List Published

-- What the bridge uses: the image crate, the hash function, the name of the device, and the client
-- if it is started, with whether its `send_image` succeeds.
pub record Host : Type 1 where
  pub crate : ImageCrate
  pub digest : Bytes → Bytes
  pub device_name : Text
  pub client : Option (NormalizedPng → Bool)

unfoldable pub is_echo : ℕ → Text → Option (Text × ℕ) → Bool
is_echo now s none = false
is_echo now s (some (expected, at)) = expected == s && ltb (now - at) echo_window

unfoldable pub try_publish_text : Host → ℕ → Text → Bridge → Bridge
try_publish_text host now s b =
    let payload : ClipPayload = record {
      kind = text;
      content = s;
      device_name = host.device_name;
      ts = now;
      image = none;
    } in
    if is_echo now s b.expected_echo then b else elim host.client [
      | none ↦ b
      | some send_image ↦ record b { published = b.published ++ text_clip payload ∷ [] }
    ]

unfoldable pub build_history_entry : Host → ℕ → NormalizedPng → Direction → ImageHistoryEntry
build_history_entry host now png direction = record {
  id = sha256_hex host.digest png.bytes;
  mime = png.mime;
  width = png.width;
  height = png.height;
  size_bytes = length png.bytes;
  device_name = host.device_name;
  ts = now;
  direction = direction;
  thumbnail = host.crate.thumbnail png.bytes;
}

-- `none` is that the client is not started or its `send_image` fails.
unfoldable pub publish_image : Host → NormalizedPng → ℕ → Bridge → Option Bridge
publish_image host png ts b = elim host.client [
  | none ↦ none
  | some send_image ↦
      if send_image png
      then some (record b { published = b.published ++ image_clip png host.device_name ts ∷ [] })
      else none
]

unfoldable pub keep_image : ImageHistoryEntry → Bytes → Bridge → Bridge
keep_image entry bytes b = record b { images = store_history entry bytes b.images }

-- What is done with an image whose hash is new.
unfoldable pub publish_new : Host → ℕ → NormalizedPng → Bridge → Bridge
publish_new host now png b =
    let entry = build_history_entry host now png was_sent in
    elim (publish_image host png entry.ts b) [
      | none ↦ b
      | some after ↦ keep_image entry png.bytes after
    ]

unfoldable pub try_publish_image : Host → ℕ → NormalizedPng → Bridge → Bridge
try_publish_image host now png b =
    if ltb max_image_bytes (length png.bytes)
    then b
    else elim (pixel_hash_hex host.crate host.digest png.bytes) [
      | none ↦ b
      | some h ↦
          let (known, hashes) = remember_hash h b.recent_image_hashes in
          let remembered : Bridge = record b { recent_image_hashes = hashes } in
          if known then remembered else publish_new host now png remembered
    ]

-- What reading the clipboard gives for an image and for a text.
unfoldable pub handle_clipboard_change :
    Host → ℕ → Option NormalizedPng → Option Text → Bridge → Bridge
handle_clipboard_change host now (some png) read_text b = try_publish_image host now png b
handle_clipboard_change host now none none b = b
handle_clipboard_change host now none (some s) b =
    if not (is_empty s) then try_publish_text host now s b else b

-- What the polling loop remembers.
pub record Poller : Type 0 where
  pub last_text : Option Text
  pub last_image_hash : Option Text

unfoldable pub poll_text : Host → ℕ → Option Text → Poller × Bridge → Poller × Bridge
poll_text host now none (p, b) = (p, b)
poll_text host now (some s) (p, b) =
    if not (is_empty s) && not (p.last_text == some s)
    then (record { last_text = some s; last_image_hash = none }, try_publish_text host now s b)
    else (p, b)

-- A turn of the polling loop.
unfoldable pub poll :
    Host → ℕ → Option NormalizedPng → Option Text → Poller × Bridge → Poller × Bridge
poll host now read_image read_text (p, b) =
    let texts = poll_text host now read_text (p, b) in
    elim read_image [
      | none ↦ texts
      | some png ↦ elim (pixel_hash_hex host.crate host.digest png.bytes) [
        | none ↦ texts
        | some h ↦ if p.last_image_hash == some h then texts else (
          record { last_text = none; last_image_hash = some h },
          try_publish_image host now png b,
        )
      ]
    ]

-- The entry of an image that was received, under the hash of its pixels.
unfoldable pub received_entry : Host → Text → Text → ℕ → ImageMeta → Bytes → ImageHistoryEntry
received_entry host h device_name ts meta bytes = record {
  id = h;
  mime = meta.mime_type;
  width = meta.width;
  height = meta.height;
  size_bytes = length bytes;
  device_name = device_name;
  ts = ts;
  direction = was_received;
  thumbnail = host.crate.thumbnail bytes;
}

-- An image whose pixels have the hash `h`: it is kept and pasted unless the hash is known.
unfoldable pub keep_remote :
    Host → ClipPayload → ImageMeta → Bytes → Text → Bridge → Option Bytes × Bridge
keep_remote host payload meta bytes h b =
    let (known, hashes) = remember_hash h b.recent_image_hashes in
    let remembered : Bridge = record b { recent_image_hashes = hashes } in
    if known then (none, remembered) else (
      some bytes,
      keep_image (received_entry host h payload.device_name payload.ts meta bytes) bytes remembered,
    )

unfoldable pub receive_bytes :
    Host → ClipPayload → ImageMeta → Option Bytes → Bridge → Option Bytes × Bridge
receive_bytes host payload meta none b = (none, b)
receive_bytes host payload meta (some bytes) b =
    elim (pixel_hash_hex host.crate host.digest bytes) [
      | none ↦ (none, b)
      | some h ↦ keep_remote host payload meta bytes h b
    ]

-- `fetched` is what `fetch_image` gives; the image that is then written to the clipboard, if one is,
-- comes with the bridge.
unfoldable pub handle_remote_image :
    Host → (ImageMeta → Option Bytes) → ClipPayload → Bridge → Option Bytes × Bridge
handle_remote_image host fetched payload b = elim payload.image [
  | none ↦ (none, b)
  | some meta ↦ elim host.client [
    | none ↦ (none, b)
    | some send_image ↦ receive_bytes host payload meta (fetched meta) b
  ]
]

-- What is written to the clipboard.
pub data Pasted : Type 0 where
  nothing : Pasted
  text_pasted : Text → Pasted
  image_pasted : Bytes → Pasted

unfoldable pub on_clip :
    Host → (ImageMeta → Option Bytes) → ℕ → ClipPayload → Bridge → Pasted × Bridge
on_clip host fetched now payload b = elim payload.kind [
  | text ↦ (text_pasted payload.content, record b { expected_echo = some (payload.content, now) })
  | image ↦
      let (pasted, after) = handle_remote_image host fetched payload b in
      (elim pasted [ none ↦ nothing | some bytes ↦ image_pasted bytes ], after)
]
