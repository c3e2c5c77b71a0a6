-- ===== src/Core/Client/Relay/Pending.antt =====
-- The commands that waited for a session with the relay (`session` of core/src/client.rs).
use clip_bridge.Core.Crypto.{Bytes}
use clip_bridge.Core.Protocol.{ClipPayload, publish}
use clip_bridge.Core.Client.{
  send_clip_cmd, text, Advertising, continued, Session, send_text, send_clip, apply_session_cmd,
}
use clip_bridge.Core.Client.Relay.{
  Act, sent, broadcast, running, acts_of, standing_of, is_running, flush,
}
use clip_bridge.Prelude.Assoc.{is_some}
use clip_bridge.Prelude.{
  ◌≡◌, inl, inr, refl, true, some, List, [], ◌∷◌, ◌++◌, map, arith, if◌then◌else◌, list_eq, nat_eq,
  option_eq, All, Option-cases,
}

-- A clip that can be printed and sealed, as `sealed` says.
abbrev pub IsSealed : Session → (ClipPayload → Bytes × Bytes) → ClipPayload → Type 0
IsSealed s sealed payload =
    (plaintext : Bytes) × (s.encode payload ≡ some plaintext)
    × (s.encrypt plaintext ≡ some (sealed payload))

-- What sending a clip does: the local network hears of it, if there is a node, then the relay.
unfoldable pub clip_acts : Session → (ClipPayload → Bytes × Bytes) → ClipPayload → List Act
clip_acts s sealed payload =
    (if is_some s.lan then broadcast payload ∷ [] else [])
    ++ sent (text (publish s.group_id (sealed payload).0 (sealed payload).1 payload.ts)) ∷ []

unfoldable pub all_clip_acts : Session → (ClipPayload → Bytes × Bytes) → List ClipPayload → List Act
all_clip_acts s sealed [] = []
all_clip_acts s sealed (c ∷ clips) = clip_acts s sealed c ++ all_clip_acts s sealed clips

one_clip :
    (s : Session) (sealed : ClipPayload → Bytes × Bytes) (payload : ClipPayload) (a : Advertising)
    → s.writable ≡ true
    → IsSealed s sealed payload
    → apply_session_cmd s (send_clip_cmd payload) a ≡ (
      continued,
      text (publish s.group_id (sealed payload).0 (sealed payload).1 payload.ts) ∷ [],
      (if is_some s.lan then payload ∷ [] else []),
      a,
    )
unfolding apply_session_cmd send_clip send_text
one_clip s sealed payload a up (plaintext, printed, closed) = elim (Option-cases s.lan) [
  | inl off ↦ rw (printed, send_clip, closed, up, off) refl
  | inr (addresses, on) ↦ rw (printed, send_clip, closed, up, on) refl
]

one_clip_acts :
    (s : Session) (sealed : ClipPayload → Bytes × Bytes) (payload : ClipPayload)
    → acts_of
        (text (publish s.group_id (sealed payload).0 (sealed payload).1 payload.ts) ∷ [])
        (if is_some s.lan then payload ∷ [] else [])
      ≡ clip_acts s sealed payload
unfolding acts_of clip_acts
one_clip_acts s sealed payload = ground arith

-- The clips that waited are sent at the start of the next session, each once and in their order,
-- and none is left, on a socket that takes frames and if each can be printed and sealed.
pub flush-clips :
    (s : Session) (sealed : ClipPayload → Bytes × Bytes) (clips : List ClipPayload)
    (a : Advertising)
    → s.writable ≡ true
    → All (IsSealed s sealed) clips
    → flush s (map send_clip_cmd clips) a ≡ (running, all_clip_acts s sealed clips, a, [])
unfolding flush all_clip_acts standing_of is_running
flush-clips s sealed [] a up all = refl
flush-clips s sealed (c ∷ clips) a up all =
    rw
      (
        one_clip s sealed c a up all.0,
        one_clip_acts s sealed c,
        flush-clips s sealed clips a up all.1,
      )
      refl
