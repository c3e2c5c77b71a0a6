-- ===== src/Core/Delivery/Laws.antt =====
-- Each clip is heard once, and never one's own; an old relay's complaint is heard of not at all.
use clip_bridge.Core.Crypto.{Bytes}
use clip_bridge.Core.Protocol.{RecentClip, clip}
use clip_bridge.Core.Dedup
use clip_bridge.Core.Dedup.{DedupCache, Seen, NotAfter}
use clip_bridge.Core.Dedup.Window.{inserts, insert-inserts}
use clip_bridge.Prelude.{
  subst, if_given, ℕ, ◌+◌, ◌-◌, ◌≤◌, ◌≡◌, inl, inr, refl, sym, ap, ◌∙◌, true, false, not, ◌&&◌,
  ◌||◌, List, [], ◌∷◌, ◌++◌, arith, if◌then◌else◌, ◌==◌, list_eq, nat_eq, option_eq, retain, Text,
  Bool-cases, length, All, if_both, ◌<◌,
}
use clip_bridge.Core.Delivery.{
  LanClip, Receiver, Heard, on_clip, on_error, Codec, open_clip, accept, receive_lan,
  is_lan_advertise_compat_error, handle_error, receive_clip, handle_recent, handle_server,
}

-- A clip that comes at a time: over the LAN, or from the relay, one of a replay or not.
pub data Arrival : Type 0 where
  over_lan : ℕ → LanClip → Arrival
  relayed : ℕ → RecentClip → Arrival

abbrev pub time_of : Arrival → ℕ
time_of (over_lan now c) = now
time_of (relayed now c) = now

-- What the deduplication cache is asked of an arrival.
call_of : Arrival → Seen
call_of (over_lan now c) = record { sender = c.sender_device_id; ts = c.ts; at = now }
call_of (relayed now c) = record { sender = c.sender_device_id; ts = c.ts; at = now }

calls_of : Text → List Arrival → List Seen
calls_of self [] = []
calls_of self (a ∷ more) =
    let rest = calls_of self more in if (call_of a).sender == self then rest else call_of a ∷ rest

length-calls_of :
    (self : Text) (between : List Arrival) → length (calls_of self between) ≤ length between
unfolding calls_of
length-calls_of self [] = omega arith
length-calls_of self (a ∷ more) = ground (arith, length-calls_of self more)

calls_of-young :
    (self : Text) (now ttl : ℕ) (between : List Arrival)
    → All (λ a. time_of a - now ≤ ttl) between
    → All (λ d. d.at - now ≤ ttl) (calls_of self between)
unfolding calls_of call_of
calls_of-young self now ttl [] h = tt
calls_of-young self now ttl (over_lan t c ∷ more) h =
    if_both (λ l. All (λ (d : Seen). d.at - now ≤ ttl) l) (c.sender_device_id == self) _ _
      (calls_of-young self now ttl more h.1) (h.0, calls_of-young self now ttl more h.1)
calls_of-young self now ttl (relayed t c ∷ more) h =
    if_both (λ l. All (λ (d : Seen). d.at - now ≤ ttl) l) (c.sender_device_id == self) _ _
      (calls_of-young self now ttl more h.1) (h.0, calls_of-young self now ttl more h.1)

accept_own :
    (now : ℕ) (sender : Text) (ts : ℕ) (heard : List Heard) (r : Receiver)
    → (sender == r.device_id) ≡ true
    → accept now sender ts heard r ≡ (r, [])
unfolding accept
accept_own now sender ts heard r own = rw own refl

accept_other :
    (now : ℕ) (sender : Text) (ts : ℕ) (heard : List Heard) (r : Receiver)
    → (sender == r.device_id) ≡ false
    → let (new, dedup) = Dedup.insert now sender ts r.dedup in
      accept now sender ts heard r ≡ (record r { dedup = dedup }, (if new then heard else []))
unfolding accept
accept_other now sender ts heard r other = rw other refl

module _ (k : Codec) where
  -- The receiver after one arrival, and after a list of them.
  unfoldable pub arrival : Arrival → Receiver → Receiver
  arrival (over_lan now c) r = (receive_lan now c r).0
  arrival (relayed now c) r = (receive_clip k now c r).0

  unfoldable pub arrivals : List Arrival → Receiver → Receiver
  arrivals [] r = r
  arrivals (a ∷ more) r = arrivals more (arrival a r)

  arrival_own :
      (a : Arrival) (r : Receiver) → ((call_of a).sender == r.device_id) ≡ true → arrival a r ≡ r
  unfolding arrival call_of receive_lan receive_clip
  arrival_own (over_lan now c) r own =
      ap (λ q. q.0) (accept_own now c.sender_device_id c.ts (on_clip c.payload ∷ []) r own)
  arrival_own (relayed now c) r own =
      ap (λ q. q.0)
        (accept_own now c.sender_device_id c.ts (open_clip k c.nonce c.ciphertext) r own)

  arrival_other :
      (a : Arrival) (r : Receiver)
      → ((call_of a).sender == r.device_id) ≡ false
      → arrival a r ≡ record r {
        dedup = (Dedup.insert (call_of a).at (call_of a).sender (call_of a).ts r.dedup).1;
      }
  unfolding arrival call_of receive_lan receive_clip
  arrival_other (over_lan now c) r other =
      ap (λ q. q.0) (accept_other now c.sender_device_id c.ts (on_clip c.payload ∷ []) r other)
  arrival_other (relayed now c) r other =
      ap (λ q. q.0)
        (accept_other now c.sender_device_id c.ts (open_clip k c.nonce c.ciphertext) r other)

  -- The receiver's cache after arrivals, and its device.
  abbrev IsRun : List Arrival → Receiver → Receiver → List Seen → Type 0
  IsRun between r from calls =
      ((arrivals between from).dedup ≡ inserts calls r.dedup)
      × ((arrivals between from).device_id ≡ r.device_id)

  arrivals-inserts :
      (between : List Arrival) (r : Receiver) → IsRun between r r (calls_of r.device_id between)
  unfolding arrivals inserts calls_of
  arrivals-inserts [] r = (refl, refl)
  arrivals-inserts (a ∷ more) r =
      if_given (IsRun (a ∷ more) r r) ((call_of a).sender == r.device_id) _ _
        (λ own.
          subst (λ q. IsRun more r q (calls_of r.device_id more)) (sym (arrival_own a r own))
            (arrivals-inserts more r))
        (λ other.
          let next : Receiver = record r {
            dedup = (Dedup.insert (call_of a).at (call_of a).sender (call_of a).ts r.dedup).1;
          } in
          subst (λ q. IsRun more next q (calls_of r.device_id more)) (sym (arrival_other a r other))
            (arrivals-inserts more next))

  -- Whichever way the second copy of a clip comes, it is not heard within the time-to-live.
  accept_again :
      (now later : ℕ) (sender : Text) (ts : ℕ) (x : Heard) (heard : List Heard)
      (between : List Arrival) (r : Receiver)
      → NotAfter now r.dedup.entries
      → (accept now sender ts (x ∷ []) r).1 ≡ x ∷ []
      → length between < r.dedup.capacity
      → All (λ a. time_of a - now ≤ r.dedup.ttl) between
      → later - now ≤ r.dedup.ttl
      → (accept later sender ts heard (arrivals between (accept now sender ts (x ∷ []) r).0)).1 ≡ []
  accept_again now later sender ts x heard between r n first room young soon =
      elim (Bool-cases (sender == r.device_id)) [
        | inl own ↦
            absurd (ground (arith, ap (λ q. q.1) (accept_own now sender ts (x ∷ []) r own), first))
        | inr other ↦
            let r1 : Receiver = record r { dedup = (Dedup.insert now sender ts r.dedup).1 } in
            let was_new : (Dedup.insert now sender ts r.dedup).0 ≡ true =
              ground (arith, ap (λ q. q.1) (accept_other now sender ts (x ∷ []) r other), first) in
            let calls = calls_of r.device_id between in
            let (cache, self) = arrivals-inserts between r1 in
            let again =
              insert-inserts now later sender ts calls r.dedup n was_new
                (omega (arith, length-calls_of r.device_id between, room))
                (calls_of-young r.device_id now r.dedup.ttl between young) in
            let dup : (Dedup.insert later sender ts (arrivals between r1).dedup).0 ≡ false =
              ap (λ d. (Dedup.insert later sender ts d).0) cache ∙ again ∙ ground (arith, soon) in
            rw (ap (λ q. q.0) (accept_other now sender ts (x ∷ []) r other)) (
              ap (λ q. q.1)
                (accept_other later sender ts heard (arrivals between r1)
                  (ap (λ d. sender == d) self ∙ other))
              ∙ ap (λ b. if b then heard else []) dup)
      ]

  -- A clip that was heard over the LAN is not heard again when the relay delivers it within the
  -- time-to-live of the deduplication cache, whose entries are not of the future, whatever clips
  -- arrived in between by either way: fewer than the cache has room for, each within the
  -- time-to-live.
  pub handle_server-receive_lan :
      (now : ℕ) (clock : ℕ → ℕ) (c : LanClip) (ciphertext nonce : Bytes) (between : List Arrival)
      (r : Receiver)
      → NotAfter now r.dedup.entries
      → (receive_lan now c r).1 ≡ on_clip c.payload ∷ []
      → length between < r.dedup.capacity
      → All (λ a. time_of a - now ≤ r.dedup.ttl) between
      → clock 0 - now ≤ r.dedup.ttl
      → (handle_server k clock
          (clip ciphertext nonce c.ts c.sender_device_id)
          (arrivals between (receive_lan now c r).0)).1
        ≡ []
  unfolding receive_lan handle_server receive_clip
  handle_server-receive_lan now clock c ciphertext nonce between r n heard room young soon =
      accept_again now (clock 0) c.sender_device_id c.ts (on_clip c.payload)
        (open_clip k nonce ciphertext) between r n heard room young soon

  device-receive_clip :
      (now : ℕ) (c : RecentClip) (r : Receiver) → (receive_clip k now c r).0.device_id ≡ r.device_id
  unfolding receive_clip accept
  device-receive_clip now c r = ground arith

  handle_recent_other :
      (clock : ℕ → ℕ) (i : ℕ) (c : RecentClip) (cs : List RecentClip) (r : Receiver)
      → (c.sender_device_id == r.device_id) ≡ false
      → let first = receive_clip k (clock i) c r in
        let rest = handle_recent k clock (i + 1) cs first.0 in
        handle_recent k clock i (c ∷ cs) r ≡ (rest.0, first.1 ++ rest.1)
  unfolding handle_recent
  handle_recent_other clock i c cs r other = rw other

  handle_recent_own :
      (clock : ℕ → ℕ) (i : ℕ) (c : RecentClip) (cs : List RecentClip) (r : Receiver)
      → (c.sender_device_id == r.device_id) ≡ true
      → handle_recent k clock i (c ∷ cs) r ≡ handle_recent k clock i cs r
  unfolding handle_recent receive_clip accept
  handle_recent_own clock i c cs r own = rw own refl

  -- Replayed clips of one's own are skipped: the answer to a fetch has the effect that it has
  -- without them.
  pub handle_recent-retain :
      (clock : ℕ → ℕ) (i : ℕ) (clips : List RecentClip) (r : Receiver)
      → handle_recent k clock i clips r
        ≡ handle_recent k clock i (retain (λ c. not (c.sender_device_id == r.device_id)) clips) r
  unfolding retain
  handle_recent-retain clock i [] r = refl
  handle_recent-retain clock i (c ∷ cs) r = elim (Bool-cases (c.sender_device_id == r.device_id)) [
    | inl own ↦ rw own (handle_recent_own clock i c cs r own ∙ handle_recent-retain clock i cs r)
    | inr other ↦
        let first = receive_clip k (clock i) c r in
        let ours : (first.0).device_id ≡ r.device_id = device-receive_clip (clock i) c r in
        let rest : handle_recent k clock (i + 1) cs first.0
            ≡ handle_recent k clock (i + 1)
                (retain (λ x. not (x.sender_device_id == r.device_id)) cs) first.0 =
          handle_recent-retain clock (i + 1) cs first.0
          ∙ ap
              (λ (d : Text).
                handle_recent k clock (i + 1) (retain (λ x. not (x.sender_device_id == d)) cs)
                  first.0)
              ours in
        rw other (
          handle_recent_other clock i c cs r other
          ∙ ap (λ (q : Receiver × List Heard). (q.0, first.1 ++ q.1)) rest
          ∙ sym (
              handle_recent_other clock i c
                (retain (λ x. not (x.sender_device_id == r.device_id)) cs) r other))
  ]

-- An error is held back from the host exactly if it answers an advertisement in the words of a
-- relay that does not know the message; then advertising is switched off. Any error uses up the
-- expectation of one.
pub handle_error_lem :
    (reason : Text) (r : Receiver)
    → let compat = r.lan_advertise_error_pending && is_lan_advertise_compat_error reason in
      let (q, heard) = handle_error reason r in
      (heard ≡ (if compat then [] else on_error reason ∷ []))
      × (q.lan_advertise_disabled ≡ (compat || r.lan_advertise_disabled))
      × (q.lan_advertise_error_pending ≡ false)
      × (q.dedup ≡ r.dedup)
unfolding handle_error
handle_error_lem reason r = ground arith
