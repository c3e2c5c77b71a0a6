-- ===== src/Core/BlobClient.antt =====
-- core/src/blob.rs: the HTTP client of the relay's blob store. The request is the HTTP library's: its
-- answer, a status with a body, or none where the transport fails, is an argument.
use clip_bridge.Core.Crypto.{Bytes}
use clip_bridge.Prelude.{
  ℕ, ◌||◌, Option, none, some, ◌++◌, if◌then◌else◌, list_eq, nat_eq, option_eq, length, drop, Text,
  codes, starts_with, nat_beq,
}
use clip_bridge.Prelude.Chars.{trim_end}

pub data BlobError : Type 0 where
  http not_found too_large : BlobError
  rejected : ℕ → BlobError

pub data BlobResult {ℓ} (A : Type ℓ) : Type ℓ where
  ok : A → BlobResult A
  err : BlobError → BlobResult A

pub record HttpResponse : Type 0 where
  pub status : ℕ
  pub body : Bytes

unfoldable pub strip_prefix : Text → Text → Option Text
strip_prefix prefix s = if starts_with s prefix then some (drop (length prefix) s) else none

unfoldable pub http_base : Text → Text
http_base relay_url =
    let trimmed = trim_end (λ c. nat_beq c b'/') relay_url in
    elim (strip_prefix (codes "wss://") trimmed) [
      | some rest ↦ codes "https://" ++ rest
      | none ↦ elim (strip_prefix (codes "ws://") trimmed) [
        | some rest ↦ codes "http://" ++ rest
        | none ↦
            if starts_with trimmed (codes "https://") || starts_with trimmed (codes "http://")
            then trimmed
            else codes "http://" ++ trimmed
      ]
    ]

-- `{base}/blob/{group_id}/{sha256_hex}`
unfoldable pub blob_url : Text → Text → Text → Text
blob_url base group_id sha256_hex =
    base ++ (codes "/blob/" ++ (group_id ++ (codes "/" ++ sha256_hex)))

-- The match on the status of an upload, `none` for `Ok(())`, and of a download.
unfoldable pub upload : Option HttpResponse → Option BlobError
upload none = some http
upload (some r) =
    if nat_beq r.status 204 || nat_beq r.status 200
    then none
    else if nat_beq r.status 413
    then some too_large
    else some (rejected r.status)

unfoldable pub download : Option HttpResponse → BlobResult Bytes
download none = err http
download (some r) =
    if nat_beq r.status 200
    then ok r.body
    else if nat_beq r.status 404
    then err not_found
    else err (rejected r.status)
