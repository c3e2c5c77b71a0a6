-- ===== src/Core/Crypto.antt =====
-- core/src/crypto.rs and the digest printer of core/src/file_transfer.rs. The hash function and
-- the cipher come from crates, so they are parameters; the hex printing and the length check of
-- the nonce are the repository's.
use clip_bridge.Prelude.{
  ℕ, ◌+◌, ◌-◌, ◌*◌, ◌/◌, ◌%◌, ◌<◌, ◌≡◌, refl, Option, none, some, List, [], ◌∷◌, arith, leb,
  nat_beq, if◌then◌else◌, length, All, Text,
}

abbrev pub Bytes : Type 0
Bytes = List ℕ

abbrev pub nonce_len : ℕ
nonce_len = 12

abbrev pub sha256_len : ℕ
sha256_len = 32

-- The character of a digit; the caller's nibbles are below 16.
unfoldable pub hex_nibble : ℕ → ℕ
hex_nibble n = if leb n 9 then b'0' + n else b'a' + (n - 10)

-- `b >> 4` and `b & 0x0f` on a byte.
unfoldable pub hex_digest : Bytes → Text
hex_digest [] = []
hex_digest (b ∷ bytes) = hex_nibble (b / 16) ∷ hex_nibble (b % 16) ∷ hex_digest bytes

abbrev pub IsByte : ℕ → Type 0
IsByte b = b < 256

module _ (digest : Bytes → Bytes) where
  unfoldable pub sha256_hex : Bytes → Text
  sha256_hex bytes = hex_digest (digest bytes)

pub data CryptoError : Type 0 where
  encrypt_failed decrypt_failed : CryptoError
  nonce_length : ℕ → CryptoError

pub data Decrypted : Type 0 where
  plain : Bytes → Decrypted
  failed : CryptoError → Decrypted

-- The cipher of the crate: sealing may fail, and opening answers `none` on a wrong tag.
pub record Cipher : Type 0 where
  pub seal : Bytes → Bytes → Bytes → Option Bytes
  pub open_sealed : Bytes → Bytes → Bytes → Option Bytes

-- The ciphertext with the nonce, which the caller of the cipher draws at random.
unfoldable pub encrypt : Cipher → Bytes → Bytes → Bytes → Option (Bytes × Bytes)
encrypt c nonce key plaintext = elim (c.seal key nonce plaintext) [
  | none ↦ none
  | some ciphertext ↦ some (ciphertext, nonce)
]

unfoldable pub decrypt : Cipher → Bytes → Bytes → Bytes → Decrypted
decrypt c key nonce ciphertext =
    if nat_beq (length nonce) nonce_len
    then elim (c.open_sealed key nonce ciphertext) [
      | none ↦ failed decrypt_failed
      | some p ↦ plain p
    ]
    else failed (nonce_length (length nonce))

pub length-hex_digest : (bytes : Bytes) → length (hex_digest bytes) ≡ 2 * length bytes
unfolding hex_digest
length-hex_digest [] = refl
length-hex_digest (b ∷ bytes) = omega (arith, length-hex_digest bytes)

-- Distinct digits print distinct characters.
hex_nibble-injective : (a b : ℕ) → a < 16 → b < 16 → hex_nibble a ≡ hex_nibble b → a ≡ b
unfolding hex_nibble
hex_nibble-injective a b ha hb e = ground arith

cons_head : {x y : ℕ} {xs ys : Bytes} → x ∷ xs ≡ y ∷ ys → x ≡ y
cons_head e = ground arith

cons_tail : {x y : ℕ} {xs ys : Bytes} → x ∷ xs ≡ y ∷ ys → xs ≡ ys
cons_tail e = ground arith

-- Two digests that print alike are equal, byte for byte.
pub hex_digest-injective :
    (xs ys : Bytes) → All IsByte xs → All IsByte ys → hex_digest xs ≡ hex_digest ys → xs ≡ ys
unfolding hex_digest
hex_digest-injective [] [] hx hy e = refl
hex_digest-injective [] (y ∷ ys) hx hy e = ground arith
hex_digest-injective (x ∷ xs) [] hx hy e = ground arith
hex_digest-injective (x ∷ xs) (y ∷ ys) hx hy e =
    let hi : x / 16 ≡ y / 16 =
      hex_nibble-injective (x / 16) (y / 16) (omega arith) (omega arith) (cons_head e) in
    let lo : x % 16 ≡ y % 16 =
      hex_nibble-injective (x % 16) (y % 16) (omega arith) (omega arith)
        (cons_head (cons_tail e)) in
    let rest : xs ≡ ys = hex_digest-injective xs ys hx.1 hy.1 (cons_tail (cons_tail e)) in
    let head : x ≡ y = omega arith in cc
