-- ===== src/Core/Lan/Frames.antt =====
-- The frames of the LAN socket: `write_frame` and `read_frame` of core/src/lan.rs. JSON and the cipher
-- are parameters; the nonce, which is random, is an argument.
use clip_bridge.Core.Crypto.{Bytes, Cipher, encrypt, decrypt, plain, failed, nonce_len}
use clip_bridge.Core.Lan.{LanMessage}
use clip_bridge.Prelude.{
  ℕ, ◌+◌, ◌*◌, ◌/◌, ◌%◌, ◌^◌, ◌≤◌, ◌<◌, ◌≡◌, inl, inr, refl, ap, subst, ◌∙◌, false, ◌||◌, Option,
  none, some, [], ◌∷◌, ◌++◌, arith, ltb, leb, if◌then◌else◌, list_eq, nat_eq, option_eq, length,
  take, drop, length-append, Bool-cases, Option-cases,
}

abbrev pub frame_max : ℕ
frame_max = 1024 * 1024

pub record Wire : Type 0 where
  pub cipher : Cipher
  pub key : Bytes
  pub to_vec : LanMessage → Option Bytes
  pub from_slice : Bytes → Option LanMessage

-- `write_u32`, most significant byte first.
unfoldable pub be32 : ℕ → Bytes
be32 n = n / 2 ^ 24 % 256 ∷ n / 2 ^ 16 % 256 ∷ n / 2 ^ 8 % 256 ∷ n % 256 ∷ []

unfoldable pub seal_frame : Bytes → Bytes → Option Bytes
seal_frame ciphertext nonce =
    let total = nonce_len + length ciphertext in
    if ltb frame_max total then none else some (be32 total ++ (nonce ++ ciphertext))

-- The bytes written, on a socket that takes them; `none` is an error before any is.
unfoldable pub write_frame : Wire → Bytes → LanMessage → Option Bytes
write_frame w nonce m = elim (w.to_vec m) [
  | none ↦ none
  | some p ↦ elim (encrypt w.cipher nonce w.key p) [
    | none ↦ none
    | some sealed ↦ seal_frame sealed.0 sealed.1
  ]
]

-- What reading a frame gives: the end of the stream, an error, or a message and what is left.
pub data FrameRead : Type 0 where
  at_end invalid : FrameRead
  message : LanMessage → Bytes → FrameRead

unfoldable pub read_u32 : Bytes → Option (ℕ × Bytes)
read_u32 (a ∷ b ∷ c ∷ d ∷ rest) = some (a * 2 ^ 24 + b * 2 ^ 16 + c * 2 ^ 8 + d, rest)
read_u32 short = none

unfoldable pub open_frame : Wire → Bytes → Bytes → Bytes → FrameRead
open_frame w nonce ciphertext rest = elim (decrypt w.cipher w.key nonce ciphertext) [
  | failed e ↦ invalid
  | plain p ↦ elim (w.from_slice p) [ none ↦ invalid | some m ↦ message m rest ]
]

-- `read_exact` of the length that was read, if it is in range.
unfoldable pub read_body : Wire → ℕ → Bytes → FrameRead
read_body w len rest =
    if ltb frame_max len || leb len nonce_len
    then invalid
    else if ltb (length rest) len
    then invalid
    else (let buf = take len rest in
        open_frame w (take nonce_len buf) (drop nonce_len buf) (drop len rest))

unfoldable pub read_frame : Wire → Bytes → FrameRead
read_frame w stream = elim (read_u32 stream) [
  | none ↦ at_end
  | some header ↦ read_body w header.0 header.1
]

-- What the code relies on: opening what was sealed gives it back, and the sealed text has the tag
-- on it; JSON that was printed reads back.
pub record IsWire (w : Wire) : Type 0 where
  pub opens :
      (nonce p c : Bytes)
      → w.cipher.seal w.key nonce p ≡ some c
      → w.cipher.open_sealed w.key nonce c ≡ some p
  pub tagged : (nonce p c : Bytes) → w.cipher.seal w.key nonce p ≡ some c → 0 < length c
  pub reads_back : (m : LanMessage) (p : Bytes) → w.to_vec m ≡ some p → w.from_slice p ≡ some m

be32-value :
    (n : ℕ)
    → n < 2 ^ 32
    → n / 2 ^ 24 % 256 * 2 ^ 24 + n / 2 ^ 16 % 256 * 2 ^ 16 + n / 2 ^ 8 % 256 * 2 ^ 8 + n % 256 ≡ n
be32-value n h = omega arith

length_prefix :
    (n : ℕ) → n ≤ frame_max → (rest : Bytes) → read_u32 (be32 n ++ rest) ≡ some (n, rest)
unfolding read_u32 be32
length_prefix n h rest = ap (λ (k : ℕ). some (k, rest)) (be32-value n (omega (arith, h)))

take-all_append : (xs ys : Bytes) → take (length xs) (xs ++ ys) ≡ xs
take-all_append [] ys = refl
take-all_append (x ∷ xs) ys = ap (λ (l : Bytes). x ∷ l) (take-all_append xs ys)

drop-all_append : (xs ys : Bytes) → drop (length xs) (xs ++ ys) ≡ ys
drop-all_append [] ys = refl
drop-all_append (x ∷ xs) ys = drop-all_append xs ys

part-opens :
    (w : Wire) (m : LanMessage) (nonce c p rest : Bytes)
    → IsWire w
    → length nonce ≡ nonce_len
    → w.cipher.seal w.key nonce p ≡ some c
    → w.to_vec m ≡ some p
    → open_frame w nonce c rest ≡ message m rest
unfolding open_frame decrypt
part-opens w m nonce c p rest good len sealed printed =
    rw (len, decrypt, good.opens nonce p c sealed, open_frame, good.reads_back m p printed) refl

body-opens :
    (w : Wire) (m : LanMessage) (nonce c p rest : Bytes)
    → IsWire w
    → length nonce ≡ nonce_len
    → w.cipher.seal w.key nonce p ≡ some c
    → w.to_vec m ≡ some p
    → open_frame w (take nonce_len (nonce ++ c)) (drop nonce_len (nonce ++ c)) rest ≡ message m rest
body-opens w m nonce c p rest good len sealed printed =
    subst (λ k. open_frame w (take k (nonce ++ c)) (drop k (nonce ++ c)) rest ≡ message m rest) len
      (rw (take-all_append nonce c, drop-all_append nonce c)
        (part-opens w m nonce c p rest good len sealed printed))

-- The frame of a body in range is read as that body.
framed :
    (w : Wire) (buf rest : Bytes)
    → nonce_len < length buf
    → length buf ≤ frame_max
    → read_frame w ((be32 (length buf) ++ buf) ++ rest)
      ≡ open_frame w (take nonce_len buf) (drop nonce_len buf) rest
unfolding read_frame read_body be32
framed w buf rest low high =
    let in_range : (ltb frame_max (length buf) || leb (length buf) nonce_len) ≡ false =
      ground (arith, low, high) in
    let enough : ltb (length (buf ++ rest)) (length buf) ≡ false =
      ground (arith, length-append buf rest) in
    rw (length_prefix (length buf) high (buf ++ rest), read_frame, read_body, in_range, enough)
      (rw (take-all_append buf rest, drop-all_append buf rest) refl)

-- What a frame that was written is made of.
written-parts :
    (w : Wire) (nonce bytes : Bytes) (m : LanMessage)
    → write_frame w nonce m ≡ some bytes
    → (p : Bytes) × (c : Bytes) × (w.to_vec m ≡ some p)
      × (w.cipher.seal w.key nonce p ≡ some c)
      × (seal_frame c nonce ≡ some bytes)
unfolding write_frame encrypt
written-parts w nonce bytes m h = elim (Option-cases (w.to_vec m)) [
  | inl bad ↦ absurd (ground (arith, h, bad))
  | inr (p, printed) ↦ elim (Option-cases (w.cipher.seal w.key nonce p)) [
    | inl bad ↦ absurd (ground (arith, h, printed, bad))
    | inr (c, sealed) ↦ (p, c, printed, sealed, ground (arith, h, printed, sealed))
  ]
]

-- A message that was written as a frame is read back from the front of the stream, and the reader
-- stands at what follows it, for a nonce of 12 bytes, if the cipher opens what it sealed and adds to
-- it, and the JSON text of a message is read back as that message.
pub read_frame-write_frame :
    (w : Wire) (nonce rest bytes : Bytes) (m : LanMessage)
    → IsWire w
    → length nonce ≡ nonce_len
    → write_frame w nonce m ≡ some bytes
    → read_frame w (bytes ++ rest) ≡ message m rest
unfolding seal_frame
read_frame-write_frame w nonce rest bytes m good len h =
    let (p, c, printed, sealed, whole) = written-parts w nonce bytes m h in
    let size : length (nonce ++ c) ≡ nonce_len + length c =
      omega (arith, length-append nonce c, len) in
    elim (Bool-cases (ltb frame_max (nonce_len + length c))) [
      | inl over ↦ absurd (ground (arith, whole, over))
      | inr fits ↦
          let is : be32 (nonce_len + length c) ++ (nonce ++ c) ≡ bytes =
            ground (arith, whole, fits) in
          subst (λ b. read_frame w (b ++ rest) ≡ message m rest) is
            (subst (λ k. read_frame w ((be32 k ++ (nonce ++ c)) ++ rest) ≡ message m rest) size
              (framed w (nonce ++ c) rest (omega (arith, size, good.tagged nonce p c sealed))
                  (ground (arith, size, fits))
                ∙ body-opens w m nonce c p rest good len sealed printed))
    ]
