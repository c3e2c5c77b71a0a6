-- ===== src/Core/Protocol.antt =====
-- core/src/protocol.rs: the wire messages and the payload of a clip. Their JSON and base64 texts
-- are the work of crates and are not modelled.
use clip_bridge.Core.Crypto.{Bytes}
use clip_bridge.Prelude.{
  ℕ, ◌≡◌, ◌↔◌, Bool, true, ◌&&◌, List, Option, arith, Eq, ◌==◌, eq_iff, list_eq, nat_eq, Text,
}

pub record LanPeer : Type 0 where
  pub device_id : Text
  pub device_name : Text
  pub candidates : List Text

pub record LanCandidate : Type 0 where
  pub addr : Text
  pub prefix_len : ℕ

unfoldable pub candidate_beq : LanCandidate → LanCandidate → Bool
candidate_beq a b = a.addr == b.addr && a.prefix_len == b.prefix_len

pub candidate_beq_iff : (a b : LanCandidate) → (candidate_beq a b ≡ true) ↔ (a ≡ b)
unfolding candidate_beq
candidate_beq_iff a b = ground (arith, eq_iff a.addr b.addr, eq_iff a.prefix_len b.prefix_len)

instance abbrev pub candidate_eq : Eq LanCandidate
candidate_eq = record { beq = candidate_beq; beq_iff = candidate_beq_iff }

pub record RecentClip : Type 0 where
  pub ciphertext : Bytes
  pub nonce : Bytes
  pub ts : ℕ
  pub sender_device_id : Text

pub data ClientMessage : Type 0 where
  join : Text → Text → ClientMessage
  publish : Text → Bytes → Bytes → ℕ → ClientMessage
  fetch_recent : Text → ClientMessage
  lan_advertise : Text → Text → Text → List Text → List LanCandidate → ClientMessage

pub data ServerMessage : Type 0 where
  joined : Text → ServerMessage
  clip : Bytes → Bytes → ℕ → Text → ServerMessage
  recent : List RecentClip → ServerMessage
  error : Text → ServerMessage
  lan_peers : List LanPeer → ServerMessage

pub data ClipKind : Type 0 where
  text image : ClipKind

pub record ImageMeta : Type 0 where
  pub mime_type : Text
  pub width : ℕ
  pub height : ℕ
  pub size_bytes : ℕ
  pub sha256_hex : Text
  pub nonce_b64 : Text

pub record ClipPayload : Type 0 where
  pub kind : ClipKind
  pub content : Text
  pub device_name : Text
  pub ts : ℕ
  pub image : Option ImageMeta
