-- ===== src/Core/Lan/Blobs.antt =====
-- `serve_blob` and the reading loop of `fetch_blob` of core/src/lan.rs.
use clip_bridge.Core.Crypto.{Bytes}
use clip_bridge.Core.Lan.{
  LanMessage, hello, clip, ping, blob_request, blob_chunk, blob_miss, file_offer, file_accept,
  file_reject, file_chunk, file_complete, file_cancel,
}
use clip_bridge.Core.Lan.BlobCache.{BlobCache, get}
use clip_bridge.Prelude.{
  ℕ, zero, suc, ◌+◌, ◌*◌, ◌≤◌, ◌≡◌, inl, inr, refl, sym, ap, ◌∙◌, Bool, true, false, not, Option,
  none, some, List, [], ◌∷◌, ◌++◌, append-nil, arith, ltb, if◌then◌else◌, list_eq, nat_eq,
  option_eq, length, is_empty, take, drop, length-append, retain, Text, Bool-cases, Option-cases,
  length-drop, append-take-drop,
}

abbrev pub blob_chunk_bytes : ℕ
blob_chunk_bytes = 512 * 1024

-- The loop of `serve_blob`; `rest` is `bytes[off..]`, so that `end == total` is that nothing is
-- left behind the chunk.
unfoldable pub serve_loop : ℕ → Bytes → List LanMessage
serve_loop zero rest = []
serve_loop (suc fuel) rest =
    let more = serve_loop fuel (drop blob_chunk_bytes rest) in
    if is_empty rest
    then []
    else blob_chunk (take blob_chunk_bytes rest) (is_empty (drop blob_chunk_bytes rest)) ∷ more

unfoldable pub serve_blob : BlobCache → Text → List LanMessage
serve_blob cache sha256_hex = elim (get sha256_hex cache) [
  | none ↦ blob_miss sha256_hex ∷ []
  | some bytes ↦ if is_empty bytes then blob_chunk [] true ∷ [] else serve_loop (length bytes) bytes
]

-- The loop that collects the answer in `buf`, over the frames that come before the stream ends,
-- fails or stays silent for too long.
unfoldable pub fetch_loop : ℕ → Bytes → List LanMessage → Option Bytes
fetch_loop max_bytes buf [] = none
fetch_loop max_bytes buf (blob_chunk chunk last ∷ frames) =
    let more = fetch_loop max_bytes (buf ++ chunk) frames in
    if ltb max_bytes (length (buf ++ chunk))
    then none
    else if last
    then some (buf ++ chunk)
    else more
fetch_loop max_bytes buf (ping ∷ frames) = fetch_loop max_bytes buf frames
fetch_loop max_bytes buf (hello d v n ∷ frames) = fetch_loop max_bytes buf frames
fetch_loop max_bytes buf (clip d t p ∷ frames) = fetch_loop max_bytes buf frames
fetch_loop max_bytes buf (other ∷ frames) = none

-- The frames that a serving peer may put between the others.
unfoldable pub is_noise : LanMessage → Bool
is_noise ping = true
is_noise (hello d v n) = true
is_noise (clip d t p) = true
is_noise other = false

-- One turn of either loop.
fetch_turn :
    (max_bytes : ℕ) (buf chunk : Bytes) (last : Bool) (frames : List LanMessage)
    → fetch_loop max_bytes buf (blob_chunk chunk last ∷ frames) ≡ (
        if ltb max_bytes (length (buf ++ chunk))
        then none
        else if last
        then some (buf ++ chunk)
        else fetch_loop max_bytes (buf ++ chunk) frames)
unfolding fetch_loop
fetch_turn max_bytes buf chunk last frames = refl

over_still : (m a l t : ℕ) → a + l ≡ t → ltb m a ≡ true → ltb m t ≡ true
over_still m a l t e h = ground arith

not_over : (m a : ℕ) → ltb m a ≡ false → a ≤ m
not_over m a h = ground arith

-- The verdict on what was collected and what is left.
fetched :
    (max_bytes : ℕ) (buf chunk left rest : Bytes)
    → (buf ++ chunk) ++ left ≡ buf ++ rest
    → length (buf ++ chunk) + length left ≡ length buf + length rest
    → (if ltb max_bytes (length (buf ++ chunk) + length left)
        then none
        else some ((buf ++ chunk) ++ left))
      ≡ (if ltb max_bytes (length buf + length rest) then none else some (buf ++ rest))
fetched max_bytes buf chunk left rest whole all = rw (whole, all) refl

last_turn :
    (max_bytes : ℕ) (buf chunk left : Bytes) (more : Option Bytes)
    → is_empty left ≡ true
    → (if ltb max_bytes (length (buf ++ chunk))
        then none
        else if is_empty left
        then some (buf ++ chunk)
        else more)
      ≡ (if ltb max_bytes (length (buf ++ chunk) + length left)
          then none
          else some ((buf ++ chunk) ++ left))
last_turn max_bytes buf chunk [] more last = rw (append-nil (buf ++ chunk)) (ground arith)
last_turn max_bytes buf chunk (x ∷ left) more last = absurd (ground arith)

-- What a fetch makes of the rest of a blob.
fetch-serve_loop :
    (max_bytes fuel : ℕ) (buf rest : Bytes)
    → is_empty rest ≡ false
    → length rest ≤ fuel
    → length buf ≤ max_bytes
    → fetch_loop max_bytes buf (serve_loop fuel rest)
      ≡ (if ltb max_bytes (length buf + length rest) then none else some (buf ++ rest))
unfolding serve_loop
fetch-serve_loop max_bytes zero buf [] h enough small = absurd (ground arith)
fetch-serve_loop max_bytes zero buf (x ∷ rest) h enough small = absurd (omega arith)
fetch-serve_loop max_bytes (suc fuel) buf rest h enough small =
    let chunk = take blob_chunk_bytes rest in
    let left = drop blob_chunk_bytes rest in
    let whole = append-take-drop blob_chunk_bytes buf rest in
    let shorter = length-drop blob_chunk_bytes rest in
    let fewer : length left ≤ fuel = omega arith in
    let all : length (buf ++ chunk) + length left ≡ length buf + length rest =
      sym (length-append (buf ++ chunk) left)
      ∙ ap (λ (l : Bytes). length l) whole
      ∙ length-append buf rest in
    rw h (
      fetch_turn max_bytes buf chunk (is_empty left) (serve_loop fuel left)
      ∙ elim (Bool-cases (is_empty left)) [
        | inl last ↦
            last_turn max_bytes buf chunk left
              (fetch_loop max_bytes (buf ++ chunk) (serve_loop fuel left)) last
            ∙ fetched max_bytes buf chunk left rest whole all
        | inr more ↦ elim (Bool-cases (ltb max_bytes (length (buf ++ chunk)))) [
          | inl over ↦
              let beyond : ltb max_bytes (length buf + length rest) ≡ true =
                over_still max_bytes (length (buf ++ chunk)) (length left)
                  (length buf + length rest) all over in
              rw (over, beyond) refl
          | inr small_still ↦
              rw (small_still, more)
                (fetch-serve_loop max_bytes fuel (buf ++ chunk) left more fewer
                    (not_over max_bytes (length (buf ++ chunk)) small_still)
                  ∙ fetched max_bytes buf chunk left rest whole all)
        ]
      ])

served :
    (max_bytes : ℕ) (bytes : Bytes)
    → fetch_loop max_bytes []
        (if is_empty bytes then blob_chunk [] true ∷ [] else serve_loop (length bytes) bytes)
      ≡ (if ltb max_bytes (length bytes) then none else some bytes)
unfolding fetch_loop
served max_bytes [] = refl
served max_bytes (b ∷ bytes) =
    fetch-serve_loop max_bytes (length (b ∷ bytes)) [] (b ∷ bytes) refl (omega arith) (omega arith)
    ∙ ap (λ (n : ℕ). if ltb max_bytes n then none else some (b ∷ bytes)) (omega arith)

-- A fetch from a peer returns exactly the blob that the peer holds under the name, in however many
-- chunks it is sent, unless the peer holds none or the blob is larger than the fetcher takes.
pub fetch_loop-serve_blob :
    (max_bytes : ℕ) (cache : BlobCache) (sha256_hex : Text)
    → fetch_loop max_bytes [] (serve_blob cache sha256_hex)
      ≡ elim (get sha256_hex cache) as (λ x. Option Bytes) [
        | none ↦ none
        | some bytes ↦ if ltb max_bytes (length bytes) then none else some bytes
      ]
unfolding serve_blob fetch_loop
fetch_loop-serve_blob max_bytes cache sha256_hex = elim (Option-cases (get sha256_hex cache)) [
  | inl missing ↦ rw (missing, serve_blob) refl
  | inr (bytes, found) ↦ rw (found, serve_blob) (served max_bytes bytes)
]

-- Pings, hellos and clips between the frames of the answer do not change what is fetched.
pub fetch_loop-retain :
    (max_bytes : ℕ) (buf : Bytes) (frames : List LanMessage)
    → fetch_loop max_bytes buf frames
      ≡ fetch_loop max_bytes buf (retain (λ m. not (is_noise m)) frames)
unfolding fetch_loop retain is_noise
fetch_loop-retain max_bytes buf [] = refl
fetch_loop-retain max_bytes buf (blob_chunk chunk last ∷ frames) =
    rw (fetch_loop-retain max_bytes (buf ++ chunk) frames) refl
fetch_loop-retain max_bytes buf (ping ∷ frames) = fetch_loop-retain max_bytes buf frames
fetch_loop-retain max_bytes buf (hello d v n ∷ frames) = fetch_loop-retain max_bytes buf frames
fetch_loop-retain max_bytes buf (clip d t p ∷ frames) = fetch_loop-retain max_bytes buf frames
fetch_loop-retain max_bytes buf (blob_request s ∷ frames) = refl
fetch_loop-retain max_bytes buf (blob_miss s ∷ frames) = refl
fetch_loop-retain max_bytes buf (file_offer o ∷ frames) = refl
fetch_loop-retain max_bytes buf (file_accept t ∷ frames) = refl
fetch_loop-retain max_bytes buf (file_reject t r ∷ frames) = refl
fetch_loop-retain max_bytes buf (file_chunk t o d ∷ frames) = refl
fetch_loop-retain max_bytes buf (file_complete t ∷ frames) = refl
fetch_loop-retain max_bytes buf (file_cancel t r ∷ frames) = refl
