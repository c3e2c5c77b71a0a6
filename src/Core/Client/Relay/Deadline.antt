-- ===== src/Core/Client/Relay/Deadline.antt =====
-- The deadlines of a session with the relay (`session` of core/src/client.rs).
use clip_bridge.Core.Delivery.{Codec}
use clip_bridge.Core.Client.{
  Session, normalize_lan_candidate_networks, lan_advertise_refresh_needed,
}
use clip_bridge.Core.Client.Reconnect.{exit_reconnect}
use clip_bridge.Core.Client.Relay.{
  running, fails, exits, Link, liveness_probe_timeout, is_running, Event, woke, ping_due,
  mode_notified, reconnect_wake, lan_tick, stream_ended, frame_error, command, frame, Turn, Handled,
  send_ping, wake_probe, pinged, on_wake, on_lan_tick, on_command, on_event, deadline_at, deadline,
  then_on, turn, event_loop, closing,
}
use clip_bridge.Prelude.{
  ℕ, ◌+◌, ◌≤◌, ◌≡◌, inl, inr, refl, Bool, true, false, not, ◌||◌, Option, none, some, List, [], ◌∷◌,
  arith, leb, list_eq, nat_eq, option_eq, any, Option-cases, if_both, if_given,
}

-- What comes from the relay.
unfoldable pub is_inbound : Event → Bool
is_inbound (frame m) = true
is_inbound stream_ended = true
is_inbound frame_error = true
is_inbound other = false

-- The deadline is not put off.
abbrev IsNoLater : Link → Handled → Type 0
IsNoLater l r = deadline r.2 ≤ deadline l

no_later :
    (l m : Link)
    → m.last_seen ≡ l.last_seen
    → m.probe_deadline ≡ l.probe_deadline
    → deadline m ≤ deadline l
unfolding deadline
no_later l m seen probe = rw (seen, probe) (omega arith)

probe-IsNoLater :
    (l : Link) (probe : ℕ)
    → l.probe_deadline ≡ none
    → deadline (record l { probe_deadline = some probe }) ≤ deadline l
unfolding deadline deadline_at
probe-IsNoLater l probe idle = rw idle (ground arith)

probe-within : (l : Link) (probe : ℕ) → deadline (record l { probe_deadline = some probe }) ≤ probe
unfolding deadline deadline_at
probe-within l probe = ground arith

wake_probe-IsNoLater :
    (t : Turn) (l : Link) (probe : Option ℕ)
    → l.probe_deadline ≡ probe
    → IsNoLater l (wake_probe t l probe)
unfolding wake_probe send_ping
wake_probe-IsNoLater t l (some probe) has = omega arith
wake_probe-IsNoLater t l none idle =
    if_both (IsNoLater l) t.writable _ _ (probe-IsNoLater l (t.now + liveness_probe_timeout) idle)
      (omega arith)

on_lan_tick-IsNoLater : (s : Session) (t : Turn) (l : Link) → IsNoLater l (on_lan_tick s t l)
unfolding on_lan_tick
on_lan_tick-IsNoLater s t l = elim (Option-cases t.lan) [
  | inl off ↦ rw (off, on_lan_tick) (omega arith)
  | inr (advertised, on) ↦
      rw (on, on_lan_tick)
        (if_both (IsNoLater l) (l.advertising.lan_advertise_disabled || not t.lan_active) _ _
          (omega arith)
          (if_both (IsNoLater l)
            (not (
              lan_advertise_refresh_needed l.advertising.last_lan_advertise
                (normalize_lan_candidate_networks advertised) false))
            _ _ (omega arith)
            (if_both (IsNoLater l) t.writable _ _ (no_later l _ refl refl) (omega arith))))
]

on_event-IsNoLater :
    (k : Codec) (s : Session) (clock : ℕ → ℕ) (t : Turn) (e : Event) (l : Link)
    → is_inbound e ≡ false
    → IsNoLater l (on_event k s clock t e l)
unfolding on_event is_inbound send_ping on_command on_wake
on_event-IsNoLater k s clock t woke l h = omega arith
on_event-IsNoLater k s clock t ping_due l h =
    if_both (IsNoLater l) t.writable _ _ (omega arith) (omega arith)
on_event-IsNoLater k s clock t mode_notified l h =
    if_both (IsNoLater l) t.idle_then _ _ (omega arith) (omega arith)
on_event-IsNoLater k s clock t reconnect_wake l h = wake_probe-IsNoLater t l l.probe_deadline refl
on_event-IsNoLater k s clock t lan_tick l h = on_lan_tick-IsNoLater s t l
on_event-IsNoLater k s clock t (command none) l h = omega arith
on_event-IsNoLater k s clock t (command (some cmd)) l h = no_later l _ refl refl
on_event-IsNoLater k s clock t stream_ended l h = absurd (ground (arith, h))
on_event-IsNoLater k s clock t frame_error l h = absurd (ground (arith, h))
on_event-IsNoLater k s clock t (frame m) l h = absurd (ground (arith, h))

unfoldable pub is_late : ℕ → Turn → Bool
is_late limit t = leb limit t.now

late_earlier :
    (a b : ℕ) (turns : List Turn)
    → a ≤ b
    → any (is_late b) turns ≡ true
    → any (is_late a) turns ≡ true
unfolding any is_late
late_earlier a b [] le h = h
late_earlier a b (t ∷ turns) le h = ground (arith, le, h, late_earlier a b turns le)

ended : (h rest : Handled) → is_running h.0 ≡ false → is_running (then_on h rest).0 ≡ false
unfolding then_on
ended h rest over = rw over over

ended_later : (h rest : Handled) → is_running rest.0 ≡ false → is_running (then_on h rest).0 ≡ false
unfolding then_on
ended_later h rest over =
    if_given (λ (r : Handled). is_running r.0 ≡ false) (is_running h.0) _ _ (λ on. over)
      (λ stopped. stopped)

-- A session in which nothing comes from the relay has ended by the turn that finds its deadline
-- reached: 60 seconds after the last frame, or earlier where the answer to a probe is due.
pub event_loop-silent :
    (k : Codec) (s : Session) (clock : ℕ → ℕ) (turns : List Turn) (l : Link)
    → any (λ t. is_inbound t.event) turns ≡ false
    → any (is_late (deadline l)) turns ≡ true
    → is_running (event_loop k s clock turns l).0 ≡ false
unfolding event_loop any is_running turn is_late
event_loop-silent k s clock [] l silent late = absurd (ground (arith, late))
event_loop-silent k s clock (t ∷ turns) l silent late =
    let rest = event_loop k s clock turns in
    if_both (λ (h : Handled). is_running (then_on h (rest h.2)).0 ≡ false) t.idle_mode _ _
      (ended (exits exit_reconnect, closing t, l) (rest l) refl)
      (if_given (λ (h : Handled). is_running (then_on h (rest h.2)).0 ≡ false)
        (leb (deadline l) t.now) _ _ (λ due. ended (exits exit_reconnect, [], l) (rest l) refl)
        (λ early.
          let h = on_event k s clock t t.event l in
          let later = on_event-IsNoLater k s clock t t.event l (ground (arith, silent)) in
          ended_later h (rest h.2) (
            event_loop-silent k s clock turns h.2 (ground (arith, silent)) (
              late_earlier (deadline h.2) (deadline l) turns later (ground (arith, late, early))))))

-- Once the host asks a session whether its link is alive, and no such question is open, it ends
-- unless something comes from the relay: by the turn that comes 8 seconds later or more.
pub event_loop-probe :
    (k : Codec) (s : Session) (clock : ℕ → ℕ) (t : Turn) (turns : List Turn) (l : Link)
    → t.event ≡ reconnect_wake
    → l.probe_deadline ≡ none
    → any (λ u. is_inbound u.event) turns ≡ false
    → any (is_late (t.now + liveness_probe_timeout)) turns ≡ true
    → is_running (event_loop k s clock (t ∷ turns) l).0 ≡ false
unfolding event_loop turn on_event is_running on_wake wake_probe send_ping
event_loop-probe k s clock t turns l wake idle silent late =
    let due = t.now + liveness_probe_timeout in
    let probed : Link = record l { probe_deadline = some due } in
    let rest = event_loop k s clock turns in
    if_both (λ (h : Handled). is_running (then_on h (rest h.2)).0 ≡ false) t.idle_mode _ _
      (ended (exits exit_reconnect, closing t, l) (rest l) refl)
      (if_both (λ (h : Handled). is_running (then_on h (rest h.2)).0 ≡ false)
        (leb (deadline l) t.now) _ _ (ended (exits exit_reconnect, [], l) (rest l) refl)
        (rw (wake, on_event, idle, wake_probe)
          (if_both (λ (h : Handled). is_running (then_on h (rest h.2)).0 ≡ false) t.writable _ _
            (ended_later (running, pinged ∷ [], probed) (rest probed)
              (event_loop-silent k s clock turns probed silent
                (late_earlier (deadline probed) due turns (probe-within l due) late)))
            (ended (fails, [], l) (rest l) refl))))
