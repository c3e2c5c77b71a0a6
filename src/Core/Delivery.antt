-- ===== src/Core/Delivery.antt =====
-- `handle_server` and the LAN inbound task of core/src/client.rs: what reaches the host's listener.
-- The JSON decoding of a payload and the cipher are parameters. `clock i` is the i-th reading of
-- the clock by `DedupCache::insert` within one call.
pub mod Laws
use clip_bridge.Core.Crypto.{Bytes, Cipher, Decrypted, plain, failed, decrypt}
use clip_bridge.Core.Protocol.{
  ClipPayload, RecentClip, ServerMessage, joined, clip, recent, error, lan_peers,
}
use clip_bridge.Core.Dedup
use clip_bridge.Core.Dedup.{DedupCache}
use clip_bridge.Prelude.Assoc
use clip_bridge.Prelude.Assoc.{
  Assoc, IsMap, is_some, lookup-remove, lookup-insert, lookup-insert_self, remove-IsMap,
  insert-IsMap, All-remove, All-lookup, length-remove, remove_missing, length-remove_found,
}
use clip_bridge.Prelude.{
  String, ℕ, zero, suc, ◌+◌, ◌-◌, ◌*◌, ◌/◌, ◌%◌, ◌^◌, ◌≤◌, ◌<◌, ◌≡◌, ◌≢◌, ◌↔◌, ◌⊎◌, inl, inr, refl,
  sym, ap, subst, ◌∙◌, Bool, true, false, not, ◌&&◌, ◌||◌, Option, none, some, List, [], ◌∷◌, ◌++◌,
  map, append-nil, append_assoc, arith, ltb, leb, if◌then◌else◌, Eq, ◌==◌, eq_iff, eq_refl, ne-eq,
  eq_symm, list_eq, nat_eq, option_eq, list_beq, option_beq, length, is_empty, take, drop, All,
  All-append, All-map, length-append, retain, any, contains, Distinct, length-retain, retain-append,
  Text, codes, text_lt, starts_with, Bool-cases, Option-cases, ltb→lt, leb→le, leb→gt, le→leb,
  length-take, length-drop, take-append-drop, drop-all, contains-append, Distinct-append_one,
  retain_all, All-retain, nat_beq,
}

-- `IncomingLanClip`
pub record LanClip : Type 0 where
  pub sender_device_id : Text
  pub ts : ℕ
  pub payload : ClipPayload

pub record Receiver : Type 0 where
  pub device_id : Text
  pub dedup : DedupCache
  pub lan_advertise_error_pending : Bool
  pub lan_advertise_disabled : Bool

-- The calls of the listener.
pub data Heard : Type 0 where
  on_clip : ClipPayload → Heard
  on_error : Text → Heard

pub record Codec : Type 0 where
  pub cipher : Cipher
  pub key : Bytes
  pub parse_payload : Bytes → Option ClipPayload

unfoldable pub open_clip : Codec → Bytes → Bytes → List Heard
open_clip k nonce ciphertext = elim (decrypt k.cipher k.key nonce ciphertext) [
  | failed e ↦ []
  | plain p ↦ elim (k.parse_payload p) [ none ↦ [] | some payload ↦ on_clip payload ∷ [] ]
]

-- One clip from anywhere: not one's own, and not seen a moment ago.
unfoldable pub accept : ℕ → Text → ℕ → List Heard → Receiver → Receiver × List Heard
accept now sender ts heard r =
    if sender == r.device_id
    then (r, [])
    else let (new, dedup) = Dedup.insert now sender ts r.dedup in
      (record r { dedup = dedup }, (if new then heard else []))

-- The task that drains the LAN node's clips.
unfoldable pub receive_lan : ℕ → LanClip → Receiver → Receiver × List Heard
receive_lan now c r = accept now c.sender_device_id c.ts (on_clip c.payload ∷ []) r

-- `haystack.contains(needle)`
unfoldable pub has_text : Text → Text → Bool
has_text [] needle = starts_with [] needle
has_text (c ∷ s) needle = starts_with (c ∷ s) needle || has_text s needle

unfoldable pub is_lan_advertise_compat_error : Text → Bool
is_lan_advertise_compat_error reason =
    has_text reason (codes "bad message:")
    && has_text reason (codes "unknown variant")
    && has_text reason (codes "lan_advertise")

unfoldable pub handle_error : Text → Receiver → Receiver × List Heard
handle_error reason r =
    if r.lan_advertise_error_pending
    then (if is_lan_advertise_compat_error reason
        then (record r { lan_advertise_error_pending = false; lan_advertise_disabled = true }, [])
        else (record r { lan_advertise_error_pending = false }, on_error reason ∷ []))
    else (r, on_error reason ∷ [])

module _ (k : Codec) where
  unfoldable pub receive_clip : ℕ → RecentClip → Receiver → Receiver × List Heard
  receive_clip now c r = accept now c.sender_device_id c.ts (open_clip k c.nonce c.ciphertext) r

  -- The loop over `clips`: the clock is read where a clip is not one's own.
  unfoldable pub handle_recent : (ℕ → ℕ) → ℕ → List RecentClip → Receiver → Receiver × List Heard
  handle_recent clock i [] r = (r, [])
  handle_recent clock i (c ∷ cs) r =
      let j = if c.sender_device_id == r.device_id then i else i + 1 in
      let first = receive_clip (clock i) c r in
      let rest = handle_recent clock j cs first.0 in (rest.0, first.1 ++ rest.1)

  unfoldable pub handle_server : (ℕ → ℕ) → ServerMessage → Receiver → Receiver × List Heard
  handle_server clock (joined g) r = (r, [])
  handle_server clock (clip ciphertext nonce ts sender) r =
      receive_clip (clock 0)
        (record { ciphertext = ciphertext; nonce = nonce; ts = ts; sender_device_id = sender }) r
  handle_server clock (recent clips) r = handle_recent clock 0 clips r
  handle_server clock (error reason) r = handle_error reason r
  handle_server clock (lan_peers peers) r = (r, [])
