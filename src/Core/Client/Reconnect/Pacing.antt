-- ===== src/Core/Client/Reconnect/Pacing.antt =====
-- How the delays of `run` of core/src/client.rs follow each other.
use clip_bridge.Core.Client.{Cmd, SuspendWait, stop, resume, wait_while_relay_suspended}
use clip_bridge.Core.Client.Reconnect.{
  exit_stop, exit_reconnect, SessionResult, exited, session_error, ConnectionState, connecting,
  disconnected, error_state, Act, told, dialled, backs_off, max_backoff, stable_session,
  wait_backoff, Round, min_backoff, backed_off, Ended, left, waits, goes_on, after_wait,
  after_session, connect, gate, round, run,
}
use clip_bridge.Prelude.{
  ℕ, ◌*◌, ◌≡◌, ◌⊎◌, inl, inr, refl, Bool, true, false, Option, none, some, List, [], ◌∷◌, ◌++◌, leb,
  if◌then◌else◌, Option-cases, if_both,
}

-- The delay after a wait: a second if it was cut short, else the double, at most the maximum.
abbrev pub next_delay : ℕ → Option Bool → ℕ
next_delay d (some true) = 1
next_delay d other = if leb (d * 2) max_backoff then d * 2 else max_backoff

abbrev pub Follows : ℕ → ℕ → Type 0
Follows d b = (d ≡ b) ⊎ (d ≡ 1)

-- Each delay is the one that follows the delay before it, or a second again.
abbrev pub IsPaced : ℕ → List Act → Type 0
IsPaced b [] = Unit
IsPaced b (told s ∷ acts) = IsPaced b acts
IsPaced b (dialled ∷ acts) = IsPaced b acts
IsPaced b (backs_off d cut ∷ acts) = Follows d b × IsPaced (next_delay d cut) acts

-- What a part of the loop does is paced, and so is what comes after it, if that is paced for every
-- delay which the backoff that it goes on with follows.
abbrev Leads : ℕ → List Act × Ended → Type 0
Leads b r = elim r.1 as (λ x. Type 0) [
  | left ↦ IsPaced b r.0
  | waits ↦ IsPaced b r.0
  | goes_on v ↦
      (more : List Act) → ((c : ℕ) → Follows v c → IsPaced c more) → IsPaced b (r.0 ++ more)
]

Leads-told :
    (s : ConnectionState) (b : ℕ) (acts : List Act) (e : Ended)
    → Leads b (acts, e)
    → Leads b (told s ∷ acts, e)
Leads-told s b acts left h = h
Leads-told s b acts waits h = h
Leads-told s b acts (goes_on v) h = h

Leads-dialled :
    (b : ℕ) (acts : List Act) (e : Ended) → Leads b (acts, e) → Leads b (dialled ∷ acts, e)
Leads-dialled b acts left h = h
Leads-dialled b acts waits h = h
Leads-dialled b acts (goes_on v) h = h

Leads-wait :
    (u b : ℕ) (w : Option Bool)
    → Follows u b
    → Leads b (
      backs_off u w ∷ [],
      elim (elim w as (λ x. Option ℕ) [
        | none ↦ none
        | some cut_short ↦ some (if cut_short then 1 else min_backoff (u * 2))
      ])
          as (λ x. Ended) [ none ↦ waits | some v ↦ goes_on v ],
    )
unfolding min_backoff
Leads-wait u b none f = (f, tt)
Leads-wait u b (some true) f = λ more k. (f, k 1 (inl refl))
Leads-wait u b (some false) f = λ more k. (f, k (next_delay u (some false)) (inl refl))

after_wait-Leads :
    (u b : ℕ) (turns : List (Bool × Bool)) → Follows u b → Leads b (after_wait u turns)
unfolding after_wait backed_off
after_wait-Leads u b turns f = Leads-wait u b (wait_backoff turns) f

after_session-Leads :
    (u b : ℕ) (r : Round) (result : SessionResult)
    → Follows u b
    → Leads b (after_session u r result)
unfolding after_session
after_session-Leads u b r (exited exit_stop) f = tt
after_session-Leads u b r (exited exit_reconnect) f =
    let waited = after_wait-Leads u b r.waiting f in
    if_both (Leads b) r.idle_after _ _ (λ more k. k b f)
      (if_both (Leads b) (leb stable_session r.elapsed) _ _ (λ more k. k b (inr refl))
        (Leads-told disconnected b (after_wait u r.waiting).0 (after_wait u r.waiting).1 waited))
after_session-Leads u b r session_error f =
    let v = if leb stable_session r.elapsed then 1 else u in
    let waited =
      after_wait-Leads v b r.waiting
        (if_both (λ (d : ℕ). Follows d b) (leb stable_session r.elapsed) _ _ (inr refl) f) in
    if_both (Leads b) r.idle_after _ _ (λ more k. k b f)
      (Leads-told error_state b (after_wait v r.waiting).0 (after_wait v r.waiting).1 waited)

connect-Leads : (u b : ℕ) (r : Round) → Follows u b → Leads b (connect u r)
unfolding connect
connect-Leads u b r f =
    let s = after_session u r r.result in
    Leads-told connecting b (dialled ∷ s.0) s.1
      (Leads-dialled b s.0 s.1 (after_session-Leads u b r r.result f))

waited-Leads :
    (b : ℕ) (w : SuspendWait) (r : List Act × Ended)
    → Leads b r
    → Leads b (elim w as (λ x. List Act × Ended) [
      | stop ↦ (told disconnected ∷ told disconnected ∷ [], left)
      | resume ↦ (told disconnected ∷ r.0, r.1)
    ])
waited-Leads b stop r h = tt
waited-Leads b resume r h = Leads-told disconnected b r.0 r.1 h

gate-Leads : (u b : ℕ) (r : Round) (pending : List Cmd) → Leads b (gate u r pending)
unfolding gate
gate-Leads u b r pending = elim (Option-cases (wait_while_relay_suspended r.suspended pending)) [
  | inl on ↦ rw (on, gate) tt
  | inr ((w, cmds, turns), over) ↦
      rw (over, gate) (waited-Leads b w (connect 1 r) (connect-Leads 1 b r (inr refl)))
]

round-Leads : (u b : ℕ) (r : Round) (pending : List Cmd) → Follows u b → Leads b (round u r pending)
unfolding round
round-Leads u b r pending f =
    if_both (Leads b) r.idle_mode _ _ (gate-Leads u b r pending) (connect-Leads u b r f)

Leads-on :
    (b : ℕ) (acts : List Act) (ended : Ended) (rest : ℕ → List Act × Ended)
    → Leads b (acts, ended)
    → ((v c : ℕ) → Follows v c → IsPaced c (rest v).0)
    → IsPaced b
        (elim ended as (λ x. List Act × Ended) [
          | left ↦ (acts, left)
          | waits ↦ (acts, waits)
          | goes_on v ↦ (acts ++ (rest v).0, (rest v).1)
        ]).0
Leads-on b acts left rest h k = h
Leads-on b acts waits rest h k = h
Leads-on b acts (goes_on v) rest h k = h (rest v).0 (k v)

-- The delays of the rounds follow each other, from the backoff at the start.
pub run-IsPaced :
    (u b : ℕ) (rounds : List (Round × List Cmd)) → Follows u b → IsPaced b (run u rounds).0
unfolding run
run-IsPaced u b [] f = tt
run-IsPaced u b ((r, pending) ∷ rounds) f =
    Leads-on b (round u r pending).0 (round u r pending).1 (λ v. run v rounds)
      (round-Leads u b r pending f) (λ v c. run-IsPaced v c rounds)
