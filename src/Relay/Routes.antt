-- ===== src/Relay/Routes.antt =====
-- relay/src/blob_routes.rs: the HTTP handlers over the blob store, and the settings that
-- relay/src/lib.rs reads from the environment.
use clip_bridge.Core.Crypto.{Bytes, sha256_hex, hex_digest, hex_nibble, length-hex_digest, IsByte}
use clip_bridge.Prelude.Assoc
use clip_bridge.Prelude.Assoc.{
  Assoc, IsMap, is_some, lookup-remove, lookup-insert, lookup-insert_self, remove-IsMap,
  insert-IsMap, All-remove, All-lookup, length-remove, remove_missing, length-remove_found,
}
use clip_bridge.Prelude.{
  ℕ, ◌-◌, ◌/◌, ◌%◌, ◌≤◌, ◌<◌, ◌≡◌, refl, ap, ◌∙◌, inl, inr, Bool-cases, List, Bool, true, ◌&&◌,
  ◌||◌, Option, none, some, [], ◌∷◌, arith, ltb, leb, if◌then◌else◌, eq_iff, list_eq, nat_eq,
  option_eq, length, All, Text, nat_beq,
}
use clip_bridge.Prelude.{String}
use clip_bridge.Relay.Blob.{
  BlobKey, key_eq, BlobStore, PutResult, ok, err, too_large, hash_mismatch, put, get,
}
use clip_bridge.Relay.Blob.Invariant.{IsValid}
use clip_bridge.Relay.Blob.Reads.{get-put, get-get}

pub data Response : Type 0 where
  bad_request : String → Response
  no_content not_found : Response
  payload_too_large : ℕ → Response
  octets : Bytes → Response

-- `b'0'..=b'9' | b'a'..=b'f'`
unfoldable pub is_lower_hex : ℕ → Bool
is_lower_hex c = (leb b'0' c && leb c b'9') || (leb b'a' c && leb c b'f')

unfoldable pub all : (ℕ → Bool) → Text → Bool
all p [] = true
all p (c ∷ s) = p c && all p s

-- A text whose bytes are all hex digits is ASCII, so that its bytes are its characters.
unfoldable pub is_valid_sha256_hex : Text → Bool
is_valid_sha256_hex s = nat_beq (length s) 64 && all is_lower_hex s

unfoldable pub put_response : PutResult → Response
put_response ok = no_content
put_response (err (too_large max)) = payload_too_large max
put_response (err hash_mismatch) = bad_request "body sha256 mismatch"

module _ (digest : Bytes → Bytes) where
  unfoldable pub put_blob : ℕ → ℕ → Text → Text → Bytes → BlobStore → Response × BlobStore
  unfolding put_response
  put_blob now inserted group_id sha256_hex body s =
      if is_valid_sha256_hex sha256_hex
      then (let (r, t) =
            put digest now inserted (record { group_id = group_id; sha256_hex = sha256_hex }) body
              s in
          (put_response r, t))
      else (bad_request "invalid sha256", s)

unfoldable pub get_response : Option Bytes → Response
get_response none = not_found
get_response (some bytes) = octets bytes

unfoldable pub get_blob : ℕ → Text → Text → BlobStore → Response × BlobStore
unfolding get_response
get_blob now group_id sha256_hex s =
    if is_valid_sha256_hex sha256_hex
    then (let (r, t) = get now (record { group_id = group_id; sha256_hex = sha256_hex }) s in
        (get_response r, t))
    else (bad_request "invalid sha256", s)

hex_nibble-is_lower_hex : (n : ℕ) → n < 16 → is_lower_hex (hex_nibble n) ≡ true
unfolding hex_nibble is_lower_hex
hex_nibble-is_lower_hex n h = ground arith

hex_digest-all : (bytes : Bytes) → All IsByte bytes → all is_lower_hex (hex_digest bytes) ≡ true
unfolding hex_digest all
hex_digest-all [] h = refl
hex_digest-all (b ∷ bytes) h =
    rw
      (
        hex_nibble-is_lower_hex (b / 16) (omega arith),
        hex_nibble-is_lower_hex (b % 16) (omega arith),
      )
      (hex_digest-all bytes h.1)

-- The relay accepts as a blob's name whatever the clients' `sha256_hex` prints, if the hash
-- function returns 32 bytes.
pub sha256_hex-is_valid :
    (digest : Bytes → Bytes) (body : Bytes)
    → length (digest body) ≡ 32
    → All IsByte (digest body)
    → is_valid_sha256_hex (sha256_hex digest body) ≡ true
unfolding is_valid_sha256_hex sha256_hex
sha256_hex-is_valid digest body len bytes =
    ground (arith, length-hex_digest (digest body), hex_digest-all (digest body) bytes)

put_ok :
    (digest : Bytes → Bytes) (now inserted : ℕ) (key : BlobKey) (body : Bytes) (s : BlobStore)
    → length body ≤ s.max_blob_bytes
    → sha256_hex digest body ≡ key.sha256_hex
    → (put digest now inserted key body s).0 ≡ ok
unfolding put
put_ok digest now inserted key body s fits hash =
    ground (arith, eq_iff (sha256_hex digest body) key.sha256_hex)

-- The store after a list of GETs: the time, the group and the name of each.
unfoldable pub get_blobs : List (ℕ × Text × Text) → BlobStore → BlobStore
get_blobs [] s = s
get_blobs ((t, group_id, name) ∷ reads) s = get_blobs reads (get_blob t group_id name s).1

get-get_blob :
    (t later : ℕ) (group_id name : Text) (key : BlobKey) (s : BlobStore)
    → t ≤ later
    → (get later key (get_blob t group_id name s).1).0 ≡ (get later key s).0
unfolding get_blob
get-get_blob t later group_id name key s order = elim (Bool-cases (is_valid_sha256_hex name)) [
  | inl valid ↦
      rw valid (get-get t later (record { group_id = group_id; sha256_hex = name }) key s order)
  | inr bad ↦ rw bad refl
]

get-get_blobs :
    (later : ℕ) (key : BlobKey) (reads : List (ℕ × Text × Text)) (s : BlobStore)
    → All (λ r. r.0 ≤ later) reads
    → (get later key (get_blobs reads s)).0 ≡ (get later key s).0
unfolding get_blobs
get-get_blobs later key [] s h = refl
get-get_blobs later key ((t, group_id, name) ∷ reads) s h =
    get-get_blobs later key reads (get_blob t group_id name s).1 h.1
    ∙ get-get_blob t later group_id name key s h.0

-- A PUT of a new blob under the name that the clients compute, no larger than the limit, is
-- answered 204. After any GETs that follow it, a GET of that name in that group is answered with
-- the body until the time-to-live is over, and 404 from then on; no GET in between is later, and no
-- other PUT comes in between.
pub get_blob-put_blob :
    (digest : Bytes → Bytes) (now inserted later : ℕ) (reads : List (ℕ × Text × Text))
    (group_id : Text) (body : Bytes) (s : BlobStore)
    → IsValid digest s
    → length (digest body) ≡ 32
    → All IsByte (digest body)
    → length body ≤ s.max_blob_bytes
    → Assoc.lookup
        (let k : BlobKey = record { group_id = group_id; sha256_hex = sha256_hex digest body } in k)
        s.inner
      ≡ none
    → All (λ r. r.0 ≤ later) reads
    → let name = sha256_hex digest body in
      let (reply, t) = put_blob digest now inserted group_id name body s in
      (reply ≡ no_content)
      × ((get_blob later group_id name (get_blobs reads t)).0
          ≡ (if ltb (later - inserted) s.ttl then octets body else not_found))
unfolding put_blob get_blob
get_blob-put_blob digest now inserted later reads group_id body s v len bytes fits new before =
    let name = sha256_hex digest body in
    let key : BlobKey = record { group_id = group_id; sha256_hex = name } in
    let accepted = sha256_hex-is_valid digest body len bytes in
    let done : (put digest now inserted key body s).0 ≡ ok =
      put_ok digest now inserted key body s fits refl in
    let stored = (put digest now inserted key body s).1 in
    (
      ground (arith, accepted, done),
      rw accepted (
          ap get_response (get-get_blobs later key reads stored before)
          ∙ ground (arith, get-put digest now inserted later key body s v new done)),
    )
