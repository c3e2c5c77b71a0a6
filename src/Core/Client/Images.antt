-- ===== src/Core/Client/Images.antt =====
-- `send_image` and `fetch_image` of core/src/client.rs. The cipher, the hash function and base64 are
-- parameters; what the relay and the LAN peers answer are arguments. A result `none` is an error.
use clip_bridge.Core.Crypto.{
  Bytes, sha256_hex, Cipher, encrypt, decrypt, Decrypted, plain, failed, nonce_len,
}
use clip_bridge.Core.BlobClient.{BlobError, BlobResult, ok, err}
use clip_bridge.Core.Protocol.{ClipPayload, image, ImageMeta}
use clip_bridge.Core.Lan.BlobCache.{BlobCache, insert}
use clip_bridge.Prelude.{
  ℕ, ◌≡◌, inl, inr, refl, sym, ap, ◌∙◌, not, Option, none, some, List, [], ◌∷◌, arith, ltb,
  if◌then◌else◌, ◌==◌, eq_iff, list_eq, nat_eq, option_eq, length, Text, Bool-cases, Option-cases,
  if_both, nat_beq,
}

pub record ImageEnv : Type 0 where
  pub digest : Bytes → Bytes
  pub cipher : Cipher
  pub key : Bytes
  pub b64_encode : Bytes → Text
  pub b64_decode : Text → Option Bytes

-- What the caller says of an image.
pub record ImageInfo : Type 0 where
  pub mime_type : Text
  pub width : ℕ
  pub height : ℕ
  pub device_name : Text
  pub ts : ℕ

unfoldable pub meta_of : ImageEnv → ImageInfo → Bytes → Bytes → Bytes → ImageMeta
meta_of env info image_bytes nonce ciphertext = record {
  mime_type = info.mime_type;
  width = info.width;
  height = info.height;
  size_bytes = length image_bytes;
  sha256_hex = sha256_hex env.digest ciphertext;
  nonce_b64 = env.b64_encode nonce;
}

unfoldable pub image_payload : ImageInfo → ImageMeta → ClipPayload
image_payload info meta = record {
  kind = image;
  content = [];
  device_name = info.device_name;
  ts = info.ts;
  image = some meta;
}

-- `uploaded` is the error of uploading the ciphertext under its hash, if there is one. The clip is what is queued.
unfoldable pub send_image :
    ImageEnv
    → Bytes
    → (Text → Bytes → Option BlobError)
    → ImageInfo
    → Bytes
    → BlobCache
    → Option ClipPayload × BlobCache
send_image env nonce uploaded info image_bytes cache =
    elim (encrypt env.cipher nonce env.key image_bytes) [
      | none ↦ (none, cache)
      | some (ciphertext, sealed_with) ↦
          let sha = sha256_hex env.digest ciphertext in
          let seeded = insert sha ciphertext cache in
          let payload = image_payload info (meta_of env info image_bytes sealed_with ciphertext) in
          elim (uploaded sha ciphertext) [ some e ↦ (none, seeded) | none ↦ (some payload, seeded) ]
    ]

-- An answer is used if it has the hash and opens.
unfoldable pub opened_blob : Decrypted → Option Bytes
opened_blob (failed e) = none
opened_blob (plain p) = some p

unfoldable pub use_blob : ImageEnv → Bytes → Text → Bytes → Option Bytes
use_blob env nonce sha ciphertext =
    if not (sha256_hex env.digest ciphertext == sha)
    then none
    else opened_blob (decrypt env.cipher env.key nonce ciphertext)

-- The loop over what the LAN peers give, with the ciphertext that was used.
unfoldable pub lan_loop : ImageEnv → Bytes → Text → List (Option Bytes) → Option (Bytes × Bytes)
lan_loop env nonce sha [] = none
lan_loop env nonce sha (none ∷ answers) = lan_loop env nonce sha answers
lan_loop env nonce sha (some ciphertext ∷ answers) =
    let rest = lan_loop env nonce sha answers in
    elim (use_blob env nonce sha ciphertext) [ none ↦ rest | some p ↦ some (p, ciphertext) ]

unfoldable pub from_relay :
    ImageEnv → Bytes → Text → BlobResult Bytes → BlobCache → Option Bytes × BlobCache
from_relay env nonce sha (err e) cache = (none, cache)
from_relay env nonce sha (ok ciphertext) cache =
    elim (decrypt env.cipher env.key nonce ciphertext) [
      | failed e ↦ (none, cache)
      | plain p ↦ (some p, insert sha ciphertext cache)
    ]

-- `lan_peers` is the number of live sessions.
unfoldable pub fetch_image :
    ImageEnv
    → ℕ
    → List (Option Bytes)
    → (Text → BlobResult Bytes)
    → ImageMeta
    → BlobCache
    → Option Bytes × BlobCache
fetch_image env lan_peers answers downloaded meta cache = elim (env.b64_decode meta.nonce_b64) [
  | none ↦ (none, cache)
  | some nonce ↦
      let relayed = from_relay env nonce meta.sha256_hex (downloaded meta.sha256_hex) cache in
      if not (nat_beq (length nonce) nonce_len)
      then (none, cache)
      else elim (if ltb 0 lan_peers then lan_loop env nonce meta.sha256_hex answers else none) [
        | none ↦ relayed
        | some (p, ciphertext) ↦ (some p, insert meta.sha256_hex ciphertext cache)
      ]
]

-- What the code relies on: base64 reads back, a sealed text opens with its nonce, and no other text
-- has its hash.
pub record IsFaithful (env : ImageEnv) (nonce image_bytes ciphertext : Bytes) : Type 0 where
  pub reads_back : env.b64_decode (env.b64_encode nonce) ≡ some nonce
  pub nonce_length : length nonce ≡ nonce_len
  pub opens : env.cipher.open_sealed env.key nonce ciphertext ≡ some image_bytes
  pub no_collision :
      (c : Bytes) → sha256_hex env.digest c ≡ sha256_hex env.digest ciphertext → c ≡ ciphertext

module _ (env : ImageEnv) (nonce image_bytes ciphertext : Bytes)
    (good : IsFaithful env nonce image_bytes ciphertext) where
  opened : decrypt env.cipher env.key nonce ciphertext ≡ plain image_bytes
  unfolding decrypt
  opened = rw (good.nonce_length, good.opens) refl

  -- Whatever the peers answer, what is used is the image.
  use_blob-image :
      (c p : Bytes)
      → use_blob env nonce (sha256_hex env.digest ciphertext) c ≡ some p
      → p ≡ image_bytes
  unfolding use_blob opened_blob
  use_blob-image c p h =
      elim (Bool-cases (sha256_hex env.digest c == sha256_hex env.digest ciphertext)) [
        | inr other ↦ absurd (ground (arith, h, other))
        | inl same ↦
            let it : c ≡ ciphertext =
              good.no_collision c
                ((eq_iff (sha256_hex env.digest c) (sha256_hex env.digest ciphertext)).0 same) in
            let found : opened_blob (decrypt env.cipher env.key nonce c) ≡ some p =
              ground (arith, h, same) in
            let mine : opened_blob (decrypt env.cipher env.key nonce c) ≡ some image_bytes =
              ap (λ d. opened_blob (decrypt env.cipher env.key nonce d)) it
              ∙ ap opened_blob opened in
            ground (arith, found, mine)
      ]

  lan_loop-image :
      (answers : List (Option Bytes)) (p c : Bytes)
      → lan_loop env nonce (sha256_hex env.digest ciphertext) answers ≡ some (p, c)
      → p ≡ image_bytes
  unfolding lan_loop
  lan_loop-image [] p c h = absurd (ground (arith, h))
  lan_loop-image (none ∷ answers) p c h = lan_loop-image answers p c h
  lan_loop-image (some d ∷ answers) p c h =
      elim (Option-cases (use_blob env nonce (sha256_hex env.digest ciphertext) d)) [
        | inl refused ↦ lan_loop-image answers p c (ground (arith, h, refused))
        | inr (q, used) ↦
            let same : q ≡ p = ground (arith, h, used) in sym same ∙ use_blob-image d q used
      ]

  relayed :
      (cache : BlobCache)
      → (from_relay env nonce (sha256_hex env.digest ciphertext) (ok ciphertext) cache).0
        ≡ some image_bytes
  unfolding from_relay
  relayed cache = rw (opened, from_relay) refl

  -- The choice between the answer of a peer and that of the relay.
  chosen :
      (found : Option (Bytes × Bytes)) (cache : BlobCache) (sha : Text)
      (fallback : Option Bytes × BlobCache)
      → ((p c : Bytes) → found ≡ some (p, c) → p ≡ image_bytes)
      → fallback.0 ≡ some image_bytes
      → (elim found as (λ x. Option Bytes × BlobCache) [
        | none ↦ fallback
        | some (p, c) ↦ (some p, insert sha c cache)
      ]).0
        ≡ some image_bytes
  chosen none cache sha fallback all back = back
  chosen (some (p, c)) cache sha fallback all back = ap (λ (q : Bytes). some q) (all p c refl)

  fetched :
      (info : ImageInfo) (lan_peers : ℕ) (answers : List (Option Bytes))
      (downloaded : Text → BlobResult Bytes) (cache : BlobCache)
      → downloaded (sha256_hex env.digest ciphertext) ≡ ok ciphertext
      → (fetch_image env lan_peers answers downloaded
          (meta_of env info image_bytes nonce ciphertext)
          cache).0
        ≡ some image_bytes
  unfolding fetch_image meta_of
  fetched info lan_peers answers downloaded cache there =
      let sha = sha256_hex env.digest ciphertext in
      rw (good.reads_back, fetch_image, good.nonce_length)
        (chosen (if ltb 0 lan_peers then lan_loop env nonce sha answers else none) cache sha
          (from_relay env nonce sha (downloaded sha) cache)
          (if_both
            (λ (f : Option (Bytes × Bytes)). (p c : Bytes) → f ≡ some (p, c) → p ≡ image_bytes)
            (ltb 0 lan_peers) _ _ (lan_loop-image answers) (λ p c e. absurd (ground (arith, e))))
          (ap (λ r. (from_relay env nonce sha r cache).0) there ∙ relayed cache))

-- An image that one client sent is what another client of the group fetches, whatever its LAN peers
-- answer, if the relay takes the upload and gives the same bytes for their hash, the cipher opens
-- what it sealed and base64 reads back the nonce of 12 bytes, and no other bytes have the hash of
-- the ciphertext.
pub fetch_image-send_image :
    (env : ImageEnv) (nonce image_bytes ciphertext : Bytes) (info : ImageInfo)
    (uploaded : Text → Bytes → Option BlobError) (downloaded : Text → BlobResult Bytes)
    (lan_peers : ℕ) (answers : List (Option Bytes)) (sender receiver : BlobCache)
    → IsFaithful env nonce image_bytes ciphertext
    → env.cipher.seal env.key nonce image_bytes ≡ some ciphertext
    → uploaded (sha256_hex env.digest ciphertext) ciphertext ≡ none
    → downloaded (sha256_hex env.digest ciphertext) ≡ ok ciphertext
    → (payload : ClipPayload) × (meta : ImageMeta) × ((send_image env nonce uploaded info
          image_bytes sender).0
        ≡ some payload)
      × (payload.image ≡ some meta)
      × ((fetch_image env lan_peers answers downloaded meta receiver).0 ≡ some image_bytes)
unfolding send_image encrypt image_payload
fetch_image-send_image env nonce image_bytes ciphertext info uploaded downloaded lan_peers answers
      sender receiver good sealed taken there =
    (
      image_payload info (meta_of env info image_bytes nonce ciphertext),
      meta_of env info image_bytes nonce ciphertext,
      rw (sealed, send_image, taken) refl,
      refl,
      fetched env nonce image_bytes ciphertext good info lan_peers answers downloaded receiver
          there,
    )
