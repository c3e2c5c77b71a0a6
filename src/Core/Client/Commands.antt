-- ===== src/Core/Client/Commands.antt =====
-- No command is lost while the relay is suspended, and a session's advertising keeps its books.
use clip_bridge.Core.Protocol.{
  LanCandidate, candidate_eq, ClientMessage, publish, fetch_recent, lan_advertise, ClipPayload,
}
use clip_bridge.Core.Client.{
  Cmd, send_clip_cmd, fetch_recent_cmd, refresh_lan_cmd, stop_cmd, SuspendWait, Woken, received,
  channel_closed, notified, wait_while_relay_suspended, normalize_lan_candidate_networks,
  lan_advertise_refresh_needed, Frame, text, Advertising, Session, send_text, advertisement,
  refresh_lan, send_clip, apply_session_cmd,
}
use clip_bridge.Prelude.{
  ◌≡◌, ◌⊎◌, inl, inr, refl, ◌∙◌, Bool, true, false, not, ◌&&◌, some, List, [], ◌∷◌, ◌++◌,
  append_assoc, arith, list_eq, nat_eq, option_eq, is_empty, any, Bool-cases, Option-cases,
}

-- The commands that turns bring, without the one that stops.
unfoldable pub commands : List (Bool × Woken) → List Cmd
commands [] = []
commands ((idle, received stop_cmd) ∷ turns) = commands turns
commands ((idle, received (send_clip_cmd p)) ∷ turns) = send_clip_cmd p ∷ commands turns
commands ((idle, received fetch_recent_cmd) ∷ turns) = fetch_recent_cmd ∷ commands turns
commands ((idle, received refresh_lan_cmd) ∷ turns) = refresh_lan_cmd ∷ commands turns
commands ((idle, channel_closed) ∷ turns) = commands turns
commands ((idle, notified b) ∷ turns) = commands turns

-- However a wait for the relay ends, the commands that came are kept in their order behind those
-- that were pending: those taken in the wait, and then those that it left.
pub wait_while_relay_suspended-commands :
    (turns : List (Bool × Woken)) (pending : List Cmd)
    (r : SuspendWait × List Cmd × List (Bool × Woken))
    → wait_while_relay_suspended turns pending ≡ some r
    → r.1 ++ commands r.2 ≡ pending ++ commands turns
unfolding wait_while_relay_suspended commands
wait_while_relay_suspended-commands [] pending r h = absurd (ground arith)
wait_while_relay_suspended-commands ((true, received stop_cmd) ∷ turns) pending r h = ground arith
wait_while_relay_suspended-commands ((false, received stop_cmd) ∷ turns) pending r h = ground arith
wait_while_relay_suspended-commands ((true, channel_closed) ∷ turns) pending r h = ground arith
wait_while_relay_suspended-commands ((false, channel_closed) ∷ turns) pending r h = ground arith
wait_while_relay_suspended-commands ((false, notified b) ∷ turns) pending r h = ground arith
wait_while_relay_suspended-commands ((true, notified true) ∷ turns) pending r h =
    wait_while_relay_suspended-commands turns pending r h
wait_while_relay_suspended-commands ((true, notified false) ∷ turns) pending r h = ground arith
wait_while_relay_suspended-commands ((false, received (send_clip_cmd p)) ∷ turns) pending r h =
    ground arith
wait_while_relay_suspended-commands ((false, received fetch_recent_cmd) ∷ turns) pending r h =
    ground arith
wait_while_relay_suspended-commands ((false, received refresh_lan_cmd) ∷ turns) pending r h =
    ground arith
wait_while_relay_suspended-commands ((true, received (send_clip_cmd p)) ∷ turns) pending r h =
    wait_while_relay_suspended-commands turns (pending ++ send_clip_cmd p ∷ []) r h
    ∙ append_assoc pending (send_clip_cmd p ∷ []) (commands turns)
wait_while_relay_suspended-commands ((true, received fetch_recent_cmd) ∷ turns) pending r h =
    wait_while_relay_suspended-commands turns (pending ++ fetch_recent_cmd ∷ []) r h
    ∙ append_assoc pending (fetch_recent_cmd ∷ []) (commands turns)
wait_while_relay_suspended-commands ((true, received refresh_lan_cmd) ∷ turns) pending r h =
    wait_while_relay_suspended-commands turns (pending ++ refresh_lan_cmd ∷ []) r h
    ∙ append_assoc pending (refresh_lan_cmd ∷ []) (commands turns)

-- Whether a frame is an advertisement.
pub advertises : Frame → Bool
advertises (text (lan_advertise g d n c ns)) = true
advertises other = false

-- What a command did about advertising: nothing, or it sent one advertisement of some addresses,
-- which it was allowed to, noted them, and expects that the relay may not know the message.
pub Advertised : Session → Advertising → List Frame → Advertising → Type 0
Advertised s a frames b =
    ((any advertises frames ≡ false) × (b ≡ a))
    ⊎ ((c : List LanCandidate) × (frames ≡ text (advertisement s c) ∷ [])
        × (is_empty c ≡ false)
        × (a.lan_advertise_disabled ≡ false)
        × (s.lan_active ≡ true)
        × (b ≡ record a { lan_advertise_error_pending = true; last_lan_advertise = some c }))

sent_plain :
    (s : Session) (m : ClientMessage) (clips : List ClipPayload) (a : Advertising)
    → advertises (text m) ≡ false
    → Advertised s a (send_text s m clips a a).1 (send_text s m clips a a).3
unfolding send_text Advertised any
sent_plain s m clips a h = elim (Bool-cases s.writable) [
  | inl open_still ↦ rw open_still (inl (ground (arith, h), refl))
  | inr shut ↦ rw shut (inl (refl, refl))
]

refresh_lan-Advertised :
    (s : Session) (a : Advertising) (advertised : List LanCandidate)
    → Advertised s a (refresh_lan s a advertised).1 (refresh_lan s a advertised).3
unfolding refresh_lan send_text Advertised any lan_advertise_refresh_needed
refresh_lan-Advertised s a advertised =
    let c = normalize_lan_candidate_networks advertised in
    elim (Bool-cases (not a.lan_advertise_disabled && s.lan_active)) [
      | inr off ↦ rw off (inl (refl, refl))
      | inl on ↦ elim (Bool-cases (not (is_empty c))) [
        | inr none_left ↦ rw (on, none_left) (inl (refl, refl))
        | inl some_left ↦ elim (Bool-cases s.writable) [
          | inr shut ↦ rw (on, some_left, shut) (inl (refl, refl))
          | inl open_still ↦
              rw (on, some_left, open_still)
                (inr (
                  c,
                  refl,
                  ground (arith, some_left),
                  ground (arith, on),
                  ground (arith, on),
                  refl,
                ))
        ]
      ]
    ]

send_clip-Advertised :
    (s : Session) (payload : ClipPayload) (a : Advertising)
    → Advertised s a (send_clip s payload a).1 (send_clip s payload a).3
unfolding send_clip advertises Advertised any
send_clip-Advertised s payload a =
    let unsent : Advertised s a [] a = inl (refl, refl) in
    elim (Option-cases (s.encode payload)) [
      | inl bad ↦ rw (bad, send_clip) unsent
      | inr (plaintext, encoded) ↦ elim (Option-cases (s.encrypt plaintext)) [
        | inl bad ↦ rw (encoded, send_clip, bad) unsent
        | inr (sealed, good) ↦
            rw (encoded, send_clip, good)
              (sent_plain s (publish s.group_id sealed.0 sealed.1 payload.ts) _ a refl)
      ]
    ]

-- Whatever command a session takes, the relay is sent an advertisement only if advertising is on
-- and there are addresses; then, and only then, the addresses are noted and an answer that
-- complains is expected.
pub apply_session_cmd-Advertised :
    (s : Session) (cmd : Cmd) (a : Advertising)
    → let e = apply_session_cmd s cmd a in Advertised s a e.1 e.3
unfolding apply_session_cmd Advertised any advertises advertisement
apply_session_cmd-Advertised s (send_clip_cmd payload) a = send_clip-Advertised s payload a
apply_session_cmd-Advertised s fetch_recent_cmd a = sent_plain s (fetch_recent s.group_id) [] a refl
apply_session_cmd-Advertised s stop_cmd a = elim (Bool-cases s.writable) [
  | inl open_still ↦ rw open_still (inl (refl, refl))
  | inr shut ↦ rw shut (inl (refl, refl))
]
apply_session_cmd-Advertised s refresh_lan_cmd a = elim (Option-cases s.lan) [
  | inl none_there ↦ rw (none_there, apply_session_cmd) (inl (refl, refl))
  | inr (advertised, there) ↦ rw (there, apply_session_cmd) (refresh_lan-Advertised s a advertised)
]
