-- ===== src/Windows/Echo.antt =====
-- What the Windows client wrote to the clipboard itself is not published again
-- (clients/windows/src/bridge.rs).
use clip_bridge.Core.Crypto.{Bytes}
use clip_bridge.Core.Protocol.{ClipPayload, text, ImageMeta}
use clip_bridge.Windows.{echo_window, max_image_bytes, remember_hash}
use clip_bridge.Windows.Encoding.{NormalizedPng, pixel_hash_hex}
use clip_bridge.Windows.Clipboard.{
  Bridge, Host, text_clip, is_echo, try_publish_text, try_publish_image, keep_remote, receive_bytes,
  handle_remote_image, keep_image, on_clip,
}
use clip_bridge.Windows.Hashes.{remember_hash-contains, remember_hash-known}
use clip_bridge.Prelude.{
  ℕ, ◌-◌, ◌≡◌, ap, inl, inr, refl, subst, ◌∙◌, Bool, true, ◌&&◌, Option, none, some, [], ◌∷◌, ◌++◌,
  arith, ltb, if◌then◌else◌, ◌==◌, list_eq, nat_eq, option_eq, length, contains, Text, Bool-cases,
  Option-cases, if_both,
}

known_publishes_nothing :
    (host : Host) (now : ℕ) (png : NormalizedPng) (h : Text) (b : Bridge)
    → pixel_hash_hex host.crate host.digest png.bytes ≡ some h
    → contains b.recent_image_hashes h ≡ true
    → (try_publish_image host now png b).published ≡ b.published
unfolding try_publish_image
known_publishes_nothing host now png h b hashed known =
    if_both (λ (c : Bridge). c.published ≡ b.published) (ltb max_image_bytes (length png.bytes)) _ _
      refl (rw (hashed, remember_hash-known h b.recent_image_hashes known) refl)

-- A bridge that has the hash of the image that it pasted, if it pasted one, and has published
-- nothing.
abbrev IsGuarded : Host → Bridge → Option Bytes × Bridge → Type 0
IsGuarded host b r =
    (r.1.published ≡ b.published)
    × ((bytes : Bytes)
        → r.0 ≡ some bytes
        → (h : Text) × (pixel_hash_hex host.crate host.digest bytes ≡ some h)
          × (contains r.1.recent_image_hashes h ≡ true))

unguarded : (host : Host) (b c : Bridge) → c.published ≡ b.published → IsGuarded host b (none, c)
unguarded host b c same = (same, λ bytes e. absurd (ground (arith, e)))

keep_remote-IsGuarded :
    (host : Host) (payload : ClipPayload) (meta : ImageMeta) (bytes : Bytes) (h : Text) (b : Bridge)
    → pixel_hash_hex host.crate host.digest bytes ≡ some h
    → IsGuarded host b (keep_remote host payload meta bytes h b)
unfolding keep_remote keep_image
keep_remote-IsGuarded host payload meta bytes h b hashed =
    if_both (IsGuarded host b) (remember_hash h b.recent_image_hashes).0 _ _
      (unguarded host b
        (record b { recent_image_hashes = (remember_hash h b.recent_image_hashes).1 }) refl)
      (
        refl,
        λ pasted e. (
          h,
          subst (λ x. pixel_hash_hex host.crate host.digest x ≡ some h) (ground (arith, e)) hashed,
          remember_hash-contains h b.recent_image_hashes,
        ),
      )

receive_bytes-IsGuarded :
    (host : Host) (payload : ClipPayload) (meta : ImageMeta) (fetched : Option Bytes) (b : Bridge)
    → IsGuarded host b (receive_bytes host payload meta fetched b)
unfolding receive_bytes
receive_bytes-IsGuarded host payload meta none b = unguarded host b b refl
receive_bytes-IsGuarded host payload meta (some bytes) b =
    elim (Option-cases (pixel_hash_hex host.crate host.digest bytes)) [
      | inl bad ↦ rw (bad, receive_bytes) (unguarded host b b refl)
      | inr (h, hashed) ↦
          rw (hashed, receive_bytes) (keep_remote-IsGuarded host payload meta bytes h b hashed)
    ]

handle_remote_image-IsGuarded :
    (host : Host) (fetched : ImageMeta → Option Bytes) (payload : ClipPayload) (b : Bridge)
    → IsGuarded host b (handle_remote_image host fetched payload b)
unfolding handle_remote_image
handle_remote_image-IsGuarded host fetched payload b = elim (Option-cases payload.image) [
  | inl plain ↦ rw (plain, handle_remote_image) (unguarded host b b refl)
  | inr (meta, has) ↦ elim (Option-cases host.client) [
    | inl stopped ↦ rw (has, handle_remote_image, stopped) (unguarded host b b refl)
    | inr (c, started) ↦
        rw (has, handle_remote_image, started)
          (receive_bytes-IsGuarded host payload meta (fetched meta) b)
  ]
]

-- An image that the bridge pasted for another device is not published when the clipboard then
-- shows it, whatever encoding it comes in, if its pixels have the same hash.
pub try_publish_image-handle_remote_image :
    (host : Host) (fetched : ImageMeta → Option Bytes) (payload : ClipPayload) (b : Bridge)
    (now : ℕ) (bytes : Bytes) (png : NormalizedPng)
    → (handle_remote_image host fetched payload b).0 ≡ some bytes
    → pixel_hash_hex host.crate host.digest png.bytes ≡ pixel_hash_hex host.crate host.digest bytes
    → (try_publish_image host now png (handle_remote_image host fetched payload b).1).published
      ≡ b.published
try_publish_image-handle_remote_image host fetched payload b now bytes png pasted same =
    let (quiet, guard) = handle_remote_image-IsGuarded host fetched payload b in
    let (h, hashed, known) = guard bytes pasted in
    known_publishes_nothing host now png h (handle_remote_image host fetched payload b).1
      (same ∙ hashed) known
    ∙ quiet

expected_text :
    (host : Host) (now later : ℕ) (expected s : Text) (send_image : NormalizedPng → Bool)
    (b : Bridge)
    → host.client ≡ some send_image
    → (try_publish_text host later s (record b { expected_echo = some (expected, now) })).published
      ≡ (if expected == s && ltb (later - now) echo_window
          then b.published
          else b.published
            ++ text_clip (record {
              kind = text;
              content = s;
              device_name = host.device_name;
              ts = later;
              image = none;
            })
              ∷ [])
unfolding try_publish_text is_echo
expected_text host now later expected s send_image b started =
    elim (Bool-cases (expected == s && ltb (later - now) echo_window)) [
      | inl echo ↦ rw echo refl
      | inr other ↦ rw (other, started) refl
    ]

on_clip-text :
    (host : Host) (fetched : ImageMeta → Option Bytes) (now : ℕ) (payload : ClipPayload)
    (b : Bridge)
    → payload.kind ≡ text
    → (on_clip host fetched now payload b).1
      ≡ record b { expected_echo = some (payload.content, now) }
unfolding on_clip
on_clip-text host fetched now payload b kind = rw (kind, on_clip) refl

-- A text that the bridge pasted for another device is published when the clipboard then shows it
-- only 10 seconds later or more, and any other text at once, if the client is started.
pub try_publish_text-on_clip :
    (host : Host) (fetched : ImageMeta → Option Bytes) (now later : ℕ) (payload : ClipPayload)
    (s : Text) (send_image : NormalizedPng → Bool) (b : Bridge)
    → payload.kind ≡ text
    → host.client ≡ some send_image
    → (try_publish_text host later s (on_clip host fetched now payload b).1).published ≡ (
        if payload.content == s && ltb (later - now) echo_window
        then b.published
        else b.published
          ++ text_clip (record {
            kind = text;
            content = s;
            device_name = host.device_name;
            ts = later;
            image = none;
          })
            ∷ [])
try_publish_text-on_clip host fetched now later payload s send_image b kind started =
    ap (λ c. (try_publish_text host later s c).published)
      (on_clip-text host fetched now payload b kind)
    ∙ expected_text host now later payload.content s send_image b started
