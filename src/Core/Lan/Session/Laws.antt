-- ===== src/Core/Lan/Session/Laws.antt =====
-- The loop of a control link (`run_peer` of core/src/lan.rs) against what it is for: to pass clips on.
use clip_bridge.Core.Delivery.{LanClip}
use clip_bridge.Core.Lan.{LanMessage, clip, ping, io_error}
use clip_bridge.Core.Lan.Session.{
  idle_timeout, Standing, alive, returned, returned_err, Event, woke, ping_due, mode_notified,
  lagged, channel_closed, frame_failed, outgoing, frame, Turn, Run, write_then, clip_of, on_event,
  is_frame, session_loop,
}
use clip_bridge.Prelude.{
  ℕ, suc, ◌+◌, ◌≡◌, inl, inr, refl, ap, Bool, true, false, not, ◌&&◌, ◌||◌, none, some, List, [],
  ◌∷◌, ◌++◌, arith, leb, if◌then◌else◌, ◌==◌, list_eq, nat_eq, option_eq, length, take, Text,
  Bool-cases, if_both, if_given,
}

unfoldable pub is_alive : Standing → Bool
is_alive alive = true
is_alive other = false

-- What a link is for, a turn at a time and without a state: the frames that a turn is to write, and
-- the clips that it is to forward.
unfoldable pub to_write_at : Text → Bool → Event → List LanMessage
to_write_at peer_did active ping_due = if active then ping ∷ [] else []
to_write_at peer_did active (outgoing c) =
    if active && not (c.sender_device_id == peer_did)
    then clip c.sender_device_id c.ts c.payload ∷ []
    else []
to_write_at peer_did active other = []

unfoldable pub to_forward_at : Event → List LanClip
to_forward_at (frame (some m)) = clip_of m
to_forward_at other = []

unfoldable pub to_write : Text → List Turn → List LanMessage
to_write peer_did [] = []
to_write peer_did (t ∷ turns) = to_write_at peer_did t.lan_active t.event ++ to_write peer_did turns

unfoldable pub to_forward : List Turn → List LanClip
to_forward [] = []
to_forward (t ∷ turns) = to_forward_at t.event ++ to_forward turns

-- The run does the work of the first `k` of the turns, in order, and of all of them if it goes on.
unfoldable pub IsPipe : Text → List Turn → Run → ℕ → Type 0
IsPipe peer_did turns run k =
    (run.1 ≡ to_write peer_did (take k turns))
    × (run.2 ≡ to_forward (take k turns))
    × (is_alive run.0 ≡ true → k ≡ length turns)

stop_now :
    (peer_did : Text) (turns : List Turn) (s : Standing)
    → is_alive s ≡ false
    → IsPipe peer_did turns (s, [], []) 0
unfolding IsPipe to_write to_forward
stop_now peer_did turns s h = (refl, refl, λ a. absurd (ground (arith, a, h)))

module _ (peer_did : Text) (t : Turn) (turns : List Turn) (run : Run) (k : ℕ) where
  -- One more turn, whose arm writes and forwards what it is to.
  go_on :
      (e : Event) (ws : List LanMessage) (cs : List LanClip)
      → t.event ≡ e
      → to_write_at peer_did t.lan_active e ≡ ws
      → to_forward_at e ≡ cs
      → IsPipe peer_did turns run k
      → (j : ℕ) × IsPipe peer_did (t ∷ turns) (run.0, ws ++ run.1, cs ++ run.2) j
  unfolding IsPipe to_write to_forward
  go_on e ws cs h hw hc p = (
    suc k,
    (
      rw (h, hw) (ap (λ ms. ws ++ ms) p.0),
      rw (h, hc) (ap (λ ds. cs ++ ds) p.1),
      λ a. omega (arith, p.2 a),
    ),
  )

  ends : (s : Standing) → is_alive s ≡ false → (j : ℕ) × IsPipe peer_did (t ∷ turns) (s, [], []) j
  unfolding is_alive
  ends s h = (0, stop_now peer_did (t ∷ turns) s h)

  write_then-IsPipe :
      (e : Event) (m : LanMessage)
      → t.event ≡ e
      → to_write_at peer_did t.lan_active e ≡ m ∷ []
      → to_forward_at e ≡ []
      → IsPipe peer_did turns run k
      → (j : ℕ) × IsPipe peer_did (t ∷ turns) (write_then t.writable m run) j
  unfolding write_then is_alive
  write_then-IsPipe e m h hw hc p =
      if_both (λ (r : Run). (j : ℕ) × IsPipe peer_did (t ∷ turns) r j) t.writable _ _
        (go_on e (m ∷ []) [] h hw hc p) (ends (returned_err io_error) refl)

  on_event-IsPipe :
      (e : Event)
      → t.event ≡ e
      → IsPipe peer_did turns run k
      → (j : ℕ) × IsPipe peer_did (t ∷ turns) (on_event peer_did t e run) j
  unfolding on_event to_write_at to_forward_at is_alive
  on_event-IsPipe woke h p = go_on woke [] [] h refl refl p
  on_event-IsPipe lagged h p = go_on lagged [] [] h refl refl p
  on_event-IsPipe ping_due h p =
      if_given (λ (r : Run). (j : ℕ) × IsPipe peer_did (t ∷ turns) r j) t.lan_active _ _
        (λ active. write_then-IsPipe ping_due ping h (rw active refl) refl p)
        (λ idle. go_on ping_due [] [] h (rw idle refl) refl p)
  on_event-IsPipe mode_notified h p =
      if_both (λ (r : Run). (j : ℕ) × IsPipe peer_did (t ∷ turns) r j) t.lan_active _ _
        (go_on mode_notified [] [] h refl refl p) (ends returned refl)
  on_event-IsPipe channel_closed h p =
      if_both (λ (r : Run). (j : ℕ) × IsPipe peer_did (t ∷ turns) r j) t.lan_active _ _
        (ends returned refl) (go_on channel_closed [] [] h refl refl p)
  on_event-IsPipe frame_failed h p = ends (returned_err io_error) refl
  on_event-IsPipe (outgoing c) h p =
      if_given (λ (r : Run). (j : ℕ) × IsPipe peer_did (t ∷ turns) r j) (not t.lan_active) _ _
        (λ idle. go_on (outgoing c) [] [] h (ground (arith, idle)) refl p)
        (λ active.
          if_given (λ (r : Run). (j : ℕ) × IsPipe peer_did (t ∷ turns) r j)
            (c.sender_device_id == peer_did) _ _
            (λ own. go_on (outgoing c) [] [] h (ground (arith, own)) refl p)
            (λ other.
              write_then-IsPipe (outgoing c) (clip c.sender_device_id c.ts c.payload) h
                (ground (arith, active, other)) refl p))
  on_event-IsPipe (frame none) h p = ends returned refl
  on_event-IsPipe (frame (some m)) h p = go_on (frame (some m)) [] (clip_of m) h refl refl p

-- Whatever the turns of a control link are, its loop does exactly what the first `k` of them are
-- for, in their order: it writes a ping when one is due and the clips of other devices than the
-- peer's, and forwards the clips that it reads; `k` is all of them if the loop goes on.
pub session_loop-IsPipe :
    (peer_did : Text) (last_seen : ℕ) (turns : List Turn)
    → (k : ℕ) × IsPipe peer_did turns (session_loop peer_did last_seen turns) k
unfolding session_loop is_alive IsPipe to_write to_forward
session_loop-IsPipe peer_did last_seen [] = (0, (refl, refl, λ a. refl))
session_loop-IsPipe peer_did last_seen (t ∷ turns) =
    let seen = if is_frame t.event then t.now else last_seen in
    let (k, p) = session_loop-IsPipe peer_did seen turns in
    let run = session_loop peer_did seen turns in
    if_both (λ (r : Run). (j : ℕ) × IsPipe peer_did (t ∷ turns) r j)
      (leb (last_seen + idle_timeout) t.now) _ _
      (ends peer_did t turns run k (returned_err io_error) refl)
      (on_event-IsPipe peer_did t turns run k t.event refl p)

unfoldable pub is_suspension : Event → Bool → Bool
is_suspension mode_notified active = not active
is_suspension other active = false

-- Whether the turns have one at which a link must end: the suspension is notified, or the peer has
-- sent no frame for the idle time.
unfoldable pub must_end : ℕ → List Turn → Bool
must_end last_seen [] = false
must_end last_seen (t ∷ turns) =
    let rest = must_end (if is_frame t.event then t.now else last_seen) turns in
    leb (last_seen + idle_timeout) t.now || is_suspension t.event t.lan_active || rest

module _ (peer_did : Text) (t : Turn) (run : Run) where
  write_then-ended :
      (m : LanMessage) → is_alive run.0 ≡ false → is_alive (write_then t.writable m run).0 ≡ false
  unfolding write_then is_alive
  write_then-ended m h = if_both (λ (r : Run). is_alive r.0 ≡ false) t.writable _ _ h refl

  on_event-ended :
      (e : Event) → is_alive run.0 ≡ false → is_alive (on_event peer_did t e run).0 ≡ false
  unfolding on_event is_alive
  on_event-ended woke h = h
  on_event-ended lagged h = h
  on_event-ended ping_due h =
      if_both (λ (r : Run). is_alive r.0 ≡ false) t.lan_active _ _ (write_then-ended ping h) h
  on_event-ended mode_notified h =
      if_both (λ (r : Run). is_alive r.0 ≡ false) t.lan_active _ _ h refl
  on_event-ended channel_closed h =
      if_both (λ (r : Run). is_alive r.0 ≡ false) t.lan_active _ _ refl h
  on_event-ended frame_failed h = refl
  on_event-ended (outgoing c) h =
      if_both (λ (r : Run). is_alive r.0 ≡ false) (not t.lan_active) _ _ h
        (if_both (λ (r : Run). is_alive r.0 ≡ false) (c.sender_device_id == peer_did) _ _ h
          (write_then-ended (clip c.sender_device_id c.ts c.payload) h))
  on_event-ended (frame none) h = refl
  on_event-ended (frame (some m)) h = h

  suspended-ended :
      (e : Event)
      → is_suspension e t.lan_active ≡ true
      → is_alive (on_event peer_did t e run).0 ≡ false
  unfolding on_event is_alive is_suspension
  suspended-ended mode_notified h =
      if_given (λ (r : Run). is_alive r.0 ≡ false) t.lan_active _ _
        (λ active. absurd (ground (arith, active, h))) (λ idle. refl)
  suspended-ended woke h = absurd (ground (arith, h))
  suspended-ended lagged h = absurd (ground (arith, h))
  suspended-ended ping_due h = absurd (ground (arith, h))
  suspended-ended channel_closed h = absurd (ground (arith, h))
  suspended-ended frame_failed h = absurd (ground (arith, h))
  suspended-ended (outgoing c) h = absurd (ground (arith, h))
  suspended-ended (frame m) h = absurd (ground (arith, h))

-- A control link does not outlive a suspension that it is notified of, nor a peer that sends no
-- frame for 45 seconds: its loop has returned by the turn that finds it so.
pub session_loop-must_end :
    (peer_did : Text) (last_seen : ℕ) (turns : List Turn)
    → must_end last_seen turns ≡ true
    → is_alive (session_loop peer_did last_seen turns).0 ≡ false
unfolding session_loop must_end is_alive
session_loop-must_end peer_did last_seen [] h = absurd (ground (arith, h))
session_loop-must_end peer_did last_seen (t ∷ turns) h =
    let seen = if is_frame t.event then t.now else last_seen in
    let run = session_loop peer_did seen turns in
    if_given (λ (r : Run). is_alive r.0 ≡ false) (leb (last_seen + idle_timeout) t.now) _ _
      (λ late. refl)
      (λ early. elim (Bool-cases (is_suspension t.event t.lan_active)) [
        | inl suspended ↦ suspended-ended peer_did t run t.event suspended
        | inr other ↦
            on_event-ended peer_did t run t.event
              (session_loop-must_end peer_did seen turns (ground (arith, h, early, other)))
      ])
