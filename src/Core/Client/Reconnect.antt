-- ===== src/Core/Client/Reconnect.antt =====
-- The outer loop of core/src/client.rs: `run` from its first session on, and `wait_backoff`. Times are
-- in seconds. What the session, the flags and the timers give is an argument, round by round.
pub mod Pacing
pub mod Backoff
use clip_bridge.Core.Client.{Cmd, SuspendWait, stop, resume, Woken, wait_while_relay_suspended}
use clip_bridge.Prelude.Assoc
use clip_bridge.Prelude.Assoc.{
  Assoc, IsMap, is_some, lookup-remove, lookup-insert, lookup-insert_self, remove-IsMap,
  insert-IsMap, All-remove, All-remove_other, All-lookup, length-remove, remove_missing,
  length-remove_found,
}
use clip_bridge.Prelude.{
  String, ℕ, zero, suc, ◌+◌, ◌-◌, ◌*◌, ◌/◌, ◌%◌, ◌^◌, ◌≤◌, ◌<◌, ◌≡◌, ◌≢◌, ◌↔◌, ◌⊎◌, inl, inr, refl,
  sym, ap, subst, ◌∙◌, Bool, true, false, not, ◌&&◌, ◌||◌, Option, none, some, List, [], ◌∷◌, ◌++◌,
  map, append-nil, append_assoc, arith, ltb, leb, if◌then◌else◌, Eq, ◌==◌, eq_iff, eq_refl, ne-eq,
  eq_symm, list_eq, nat_eq, option_eq, list_beq, option_beq, length, is_empty, take, drop, All,
  All-append, All-map, length-append, retain, any, contains, Distinct, length-retain, retain-append,
  Text, codes, text_lt, starts_with, Bool-cases, Option-cases, if_both, if_given, ltb→lt, leb→le,
  leb→gt, le→leb, length-take, length-drop, take-append-drop, append-take-drop, drop-all,
  contains-append, Distinct-append_one, retain_all, All-retain, nat_beq,
}

pub data SessionExit : Type 0 where
  exit_stop exit_reconnect : SessionExit

pub data SessionResult : Type 0 where
  exited : SessionExit → SessionResult
  session_error : SessionResult

pub data ConnectionState : Type 0 where
  connecting disconnected error_state : ConnectionState

-- What the loop does that can be seen: a state reported, a session begun, and a
-- call of `wait_backoff`: its delay, and its answer, which is `none` as long as the wait goes on and
-- `true` where `reconnect_now` cut it short.
pub data Act : Type 0 where
  told : ConnectionState → Act
  dialled : Act
  backs_off : ℕ → Option Bool → Act

abbrev pub max_backoff : ℕ
max_backoff = 30

abbrev pub stable_session : ℕ
stable_session = 30

-- A turn of `wait_backoff`: the request flag as the turn begins, and whether the timer was what woke
-- it. `none` is that the wait goes on.
unfoldable pub wait_backoff : List (Bool × Bool) → Option Bool
wait_backoff [] = none
wait_backoff ((requested, timer) ∷ turns) =
    let rest = wait_backoff turns in
    if requested then some true else if timer then some false else rest

-- A round: the idle mode as it begins with the turns of the suspended wait, how the session ends and
-- how long it was, the idle mode then, and the turns of the backoff.
pub record Round : Type 0 where
  pub idle_mode : Bool
  pub suspended : List (Bool × Woken)
  pub result : SessionResult
  pub elapsed : ℕ
  pub idle_after : Bool
  pub waiting : List (Bool × Bool)

unfoldable pub min_backoff : ℕ → ℕ
min_backoff b = if leb b max_backoff then b else max_backoff

-- `none` is that the wait does not end.
unfoldable pub backed_off : ℕ → List (Bool × Bool) → Option ℕ
backed_off backoff turns = elim (wait_backoff turns) [
  | none ↦ none
  | some cut_short ↦ some (if cut_short then 1 else min_backoff (backoff * 2))
]

-- How a round ends: the loop is left, stands still, or goes on with a backoff.
pub data Ended : Type 0 where
  left waits : Ended
  goes_on : ℕ → Ended

unfoldable pub after_wait : ℕ → List (Bool × Bool) → List Act × Ended
after_wait backoff turns = (
  backs_off backoff (wait_backoff turns) ∷ [],
  elim (backed_off backoff turns) [ none ↦ waits | some b ↦ goes_on b ],
)

unfoldable pub after_session : ℕ → Round → SessionResult → List Act × Ended
after_session backoff r (exited exit_stop) = (told disconnected ∷ [], left)
after_session backoff r (exited exit_reconnect) =
    let (acts, ended) = after_wait backoff r.waiting in
    if r.idle_after
    then (told disconnected ∷ [], goes_on backoff)
    else if leb stable_session r.elapsed
    then (told disconnected ∷ [], goes_on 1)
    else (told disconnected ∷ acts, ended)
after_session backoff r session_error =
    let (acts, ended) =
      after_wait (if leb stable_session r.elapsed then 1 else backoff) r.waiting in
    if r.idle_after
    then (told error_state ∷ [], goes_on backoff)
    else (told error_state ∷ acts, ended)

unfoldable pub connect : ℕ → Round → List Act × Ended
connect backoff r =
    let (acts, ended) = after_session backoff r r.result in
    (told connecting ∷ dialled ∷ acts, ended)

-- The gate of the hard suspend before the session.
unfoldable pub gate : ℕ → Round → List Cmd → List Act × Ended
gate backoff r pending =
    let (acts, ended) = connect 1 r in
    elim (wait_while_relay_suspended r.suspended pending) [
      | none ↦ (told disconnected ∷ [], waits)
      | some (w, cmds, turns) ↦ elim w [
        | stop ↦ (told disconnected ∷ told disconnected ∷ [], left)
        | resume ↦ (told disconnected ∷ acts, ended)
      ]
    ]

unfoldable pub round : ℕ → Round → List Cmd → List Act × Ended
round backoff r pending =
    let gated = gate backoff r pending in
    let straight = connect backoff r in if r.idle_mode then gated else straight

-- The rounds, each with the commands that are pending as it begins.
unfoldable pub run : ℕ → List (Round × List Cmd) → List Act × Ended
run backoff [] = ([], goes_on backoff)
run backoff ((r, pending) ∷ rounds) =
    let (acts, ended) = round backoff r pending in
    elim ended [
      | left ↦ (acts, left)
      | waits ↦ (acts, waits)
      | goes_on b ↦ let (more, last) = run b rounds in (acts ++ more, last)
    ]
