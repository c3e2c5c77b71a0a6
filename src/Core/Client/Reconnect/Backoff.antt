-- ===== src/Core/Client/Reconnect/Backoff.antt =====
-- The backoff of `run` of core/src/client.rs.
use clip_bridge.Core.Client.{Cmd, SuspendWait, stop, resume, wait_while_relay_suspended}
use clip_bridge.Core.Client.Reconnect.{
  exit_stop, exit_reconnect, SessionResult, exited, session_error, disconnected, Act, told, dialled,
  backs_off, max_backoff, stable_session, wait_backoff, Round, min_backoff, backed_off, Ended, left,
  waits, goes_on, after_wait, after_session, connect, gate, round, run,
}
use clip_bridge.Core.Client.Reconnect.Pacing.{IsPaced, run-IsPaced}
use clip_bridge.Prelude.{
  refl, ℕ, ◌*◌, ◌≤◌, inl, inr, Bool, none, some, List, [], ◌∷◌, ◌++◌, arith, leb, if◌then◌else◌,
  list_eq, nat_eq, option_eq, All, All-append, Option-cases, if_both, if_given, leb→le,
}

-- A backoff that is at least a second and at most the maximum.
abbrev pub IsBackoff : ℕ → Type 0
IsBackoff b = (1 ≤ b) × (b ≤ max_backoff)

abbrev pub IsPatient : Act → Type 0
IsPatient a = elim a as (λ x. Type 0) [
  | told s ↦ Unit
  | dialled ↦ Unit
  | backs_off b cut ↦ IsBackoff b
]

abbrev KeepsBackoff : Ended → Type 0
KeepsBackoff e = elim e as (λ x. Type 0) [ left ↦ Unit | waits ↦ Unit | goes_on b ↦ IsBackoff b ]

abbrev IsPatientEnd : List Act × Ended → Type 0
IsPatientEnd r = All IsPatient r.0 × KeepsBackoff r.1

backed_off-IsBackoff :
    (backoff : ℕ) (turns : List (Bool × Bool))
    → IsBackoff backoff
    → KeepsBackoff
        (elim (backed_off backoff turns) as (λ x. Ended) [ none ↦ waits | some b ↦ goes_on b ])
unfolding backed_off min_backoff
backed_off-IsBackoff backoff turns h = elim (Option-cases (wait_backoff turns)) [
  | inl on ↦ rw (on, backed_off) tt
  | inr (cut_short, over) ↦
      rw (over, backed_off)
        (if_both IsBackoff cut_short _ _ (omega arith, omega arith)
          (if_given IsBackoff (leb (backoff * 2) max_backoff) _ _
            (λ small. (omega (arith, h.0), leb→le _ _ small)) (λ big. (omega arith, omega arith))))
]

after_wait-patient :
    (backoff : ℕ) (turns : List (Bool × Bool))
    → IsBackoff backoff
    → IsPatientEnd (after_wait backoff turns)
unfolding after_wait
after_wait-patient backoff turns h = ((h, tt), backed_off-IsBackoff backoff turns h)

after_session-patient :
    (backoff : ℕ) (r : Round) (result : SessionResult)
    → IsBackoff backoff
    → IsPatientEnd (after_session backoff r result)
unfolding after_session
after_session-patient backoff r (exited exit_stop) h = ((tt, tt), tt)
after_session-patient backoff r (exited exit_reconnect) h =
    let waited = after_wait-patient backoff r.waiting h in
    if_both IsPatientEnd r.idle_after _ _ ((tt, tt), h)
      (if_both IsPatientEnd (leb stable_session r.elapsed) _ _
        ((tt, tt), (omega arith, omega arith)) ((tt, waited.0), waited.1))
after_session-patient backoff r session_error h =
    let waited =
      after_wait-patient (if leb stable_session r.elapsed then 1 else backoff) r.waiting
        (if_both IsBackoff (leb stable_session r.elapsed) _ _ (omega arith, omega arith) h) in
    if_both IsPatientEnd r.idle_after _ _ ((tt, tt), h) ((tt, waited.0), waited.1)

connect-patient : (backoff : ℕ) (r : Round) → IsBackoff backoff → IsPatientEnd (connect backoff r)
unfolding connect
connect-patient backoff r h =
    let rest = after_session-patient backoff r r.result h in ((tt, (tt, rest.0)), rest.1)

waited-patient :
    (w : SuspendWait) (r : List Act × Ended)
    → IsPatientEnd r
    → IsPatientEnd (elim w as (λ x. List Act × Ended) [
      | stop ↦ (told disconnected ∷ told disconnected ∷ [], left)
      | resume ↦ (told disconnected ∷ r.0, r.1)
    ])
waited-patient stop r h = ((tt, (tt, tt)), tt)
waited-patient resume r h = ((tt, h.0), h.1)

gate-patient :
    (backoff : ℕ) (r : Round) (pending : List Cmd) → IsPatientEnd (gate backoff r pending)
unfolding gate
gate-patient backoff r pending =
    elim (Option-cases (wait_while_relay_suspended r.suspended pending)) [
      | inl on ↦ rw (on, gate) ((tt, tt), tt)
      | inr ((w, cmds, turns), over) ↦
          rw (over, gate)
            (waited-patient w (connect 1 r) (connect-patient 1 r (omega arith, omega arith)))
    ]

round-patient :
    (backoff : ℕ) (r : Round) (pending : List Cmd)
    → IsBackoff backoff
    → IsPatientEnd (round backoff r pending)
unfolding round
round-patient backoff r pending h =
    if_both IsPatientEnd r.idle_mode _ _ (gate-patient backoff r pending)
      (connect-patient backoff r h)

ended-patient :
    (acts : List Act) (ended : Ended) (rest : ℕ → List Act × Ended)
    → IsPatientEnd (acts, ended)
    → ((b : ℕ) → IsBackoff b → IsPatientEnd (rest b))
    → IsPatientEnd (elim ended as (λ x. List Act × Ended) [
      | left ↦ (acts, left)
      | waits ↦ (acts, waits)
      | goes_on b ↦ (acts ++ (rest b).0, (rest b).1)
    ])
ended-patient acts left rest h k = h
ended-patient acts waits rest h k = h
ended-patient acts (goes_on b) rest h k =
    let more = k b h.1 in (All-append IsPatient acts (rest b).0 h.0 more.0, more.1)

run-IsPatientEnd :
    (backoff : ℕ) (rounds : List (Round × List Cmd))
    → IsBackoff backoff
    → IsPatientEnd (run backoff rounds)
unfolding run
run-IsPatientEnd backoff [] h = (tt, h)
run-IsPatientEnd backoff ((r, pending) ∷ rounds) h =
    ended-patient (round backoff r pending).0 (round backoff r pending).1 (λ b. run b rounds)
      (round-patient backoff r pending h) (λ b k. run-IsPatientEnd b rounds k)

-- However the sessions end and whatever the flags are, each delay that the client asks
-- `wait_backoff` for is at least a second and at most 30, when the backoff was so at the start. The
-- first is that backoff or a second; each later one is a second, or else the double of the one
-- before, at most 30. After a wait that `reconnect_now` cut short it is a second.
pub run-IsPatient :
    (backoff : ℕ) (rounds : List (Round × List Cmd))
    → IsBackoff backoff
    → All IsPatient (run backoff rounds).0 × IsPaced backoff (run backoff rounds).0
run-IsPatient backoff rounds h =
    ((run-IsPatientEnd backoff rounds h).0, run-IsPaced backoff backoff rounds (inl refl))
