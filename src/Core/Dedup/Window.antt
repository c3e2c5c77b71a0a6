-- ===== src/Core/Dedup/Window.antt =====
-- How long `DedupCache` of core/src/client.rs remembers a delivery.
use clip_bridge.Prelude.{
  ℕ, suc, ◌+◌, ◌-◌, ◌≤◌, ◌<◌, ◌≡◌, inl, inr, refl, sym, ap, ◌∙◌, Bool, true, false, List, [], ◌∷◌,
  ◌++◌, append_assoc, arith, ltb, ◌==◌, eq_iff, list_eq, nat_eq, option_eq, length, length-append,
  any, All, Text, subst, not, if_both, if_given, Bool-cases, ltb→lt,
}
use clip_bridge.Core.Dedup.{
  Seen, DedupCache, drop_expired, is_key, make_room, insert, NotAfter, any-append, drop_expired-any,
  drop_expired-NotAfter, make_room-NotAfter, entries-insert,
}

-- The cache after a list of deliveries, each with its time.
unfoldable pub inserts : List Seen → DedupCache → DedupCache
inserts [] c = c
inserts (d ∷ calls) c = inserts calls (insert d.at d.sender d.ts c).1

-- The entry of a delivery is there, with no later one of its key, and at most `n` behind it; those
-- before it are not younger.
pub record IsHeld (e : Seen) (n : ℕ) (es : List Seen) : Type 0 where
  pub before : List Seen
  pub after : List Seen
  pub whole : es ≡ before ++ e ∷ after
  pub few : length after ≤ n
  pub older : NotAfter e.at before
  pub last : any (is_key e.sender e.ts) after ≡ false

-- Dropping what has run out stops before an entry that has not.
drop_expired-append :
    (now ttl : ℕ) (before after : List Seen) (e : Seen)
    → now - e.at ≤ ttl
    → drop_expired now ttl (before ++ e ∷ after) ≡ drop_expired now ttl before ++ e ∷ after
unfolding drop_expired
drop_expired-append now ttl [] after e young = ground (arith, young)
drop_expired-append now ttl (x ∷ before) after e young =
    ground (arith, drop_expired-append now ttl before after e young)

drop_expired_past :
    (now ttl : ℕ) (before after : List Seen) (e : Seen)
    → ttl < now - e.at
    → NotAfter e.at before
    → drop_expired now ttl (before ++ e ∷ after) ≡ drop_expired now ttl after
unfolding drop_expired
drop_expired_past now ttl [] after e old older = ground (arith, old)
drop_expired_past now ttl (x ∷ before) after e old older =
    ground (arith, drop_expired_past now ttl before after e old older.1, older.0)

drop_expired-IsHeld :
    (now ttl n : ℕ) (e : Seen) (es : List Seen)
    → now - e.at ≤ ttl
    → IsHeld e n es
    → IsHeld e n (drop_expired now ttl es)
drop_expired-IsHeld now ttl n e es young h = record {
  before = drop_expired now ttl h.before;
  after = h.after;
  whole = ap (drop_expired now ttl) h.whole ∙ drop_expired-append now ttl h.before h.after e young;
  few = h.few;
  older = drop_expired-NotAfter now ttl e.at h.before h.older;
  last = h.last;
}

room-IsHeld :
    (capacity n : ℕ) (e : Seen) (before after : List Seen)
    → suc n < capacity
    → length after ≤ n
    → NotAfter e.at before
    → any (is_key e.sender e.ts) after ≡ false
    → IsHeld e n (make_room capacity (before ++ e ∷ after))
unfolding make_room
room-IsHeld capacity n e [] after room few older last = record {
  before = [];
  after = after;
  whole = ground (arith, room, few);
  few = few;
  older = tt;
  last = last;
}
room-IsHeld capacity n e (x ∷ before) after room few older last =
    if_both (IsHeld e n) (length (x ∷ before ++ e ∷ after) == capacity) _ _
      (record {
        before = before;
        after = after;
        whole = ground arith;
        few = few;
        older = older.1;
        last = last;
      })
      (record {
        before = x ∷ before;
        after = after;
        whole = refl;
        few = few;
        older = older;
        last = last;
      })

append-IsHeld :
    (n : ℕ) (e x : Seen) (es : List Seen)
    → is_key e.sender e.ts x ≡ false
    → IsHeld e n es
    → IsHeld e (suc n) (es ++ x ∷ [])
unfolding any
append-IsHeld n e x es other h = record {
  before = h.before;
  after = h.after ++ x ∷ [];
  whole =
      ap (λ (l : List Seen). l ++ x ∷ []) h.whole ∙ append_assoc h.before (e ∷ h.after) (x ∷ []);
  few = omega (arith, h.few, length-append h.after (x ∷ []));
  older = h.older;
  last = ground (arith, any-append (is_key e.sender e.ts) h.after (x ∷ []), h.last, other);
}

more-IsHeld : (n : ℕ) (e : Seen) (es : List Seen) → IsHeld e n es → IsHeld e (suc n) es
more-IsHeld n e es h = record {
  before = h.before;
  after = h.after;
  whole = h.whole;
  few = omega (arith, h.few);
  older = h.older;
  last = h.last;
}

-- An entry that is held is a duplicate's.
held_key :
    (sender : Text) (ts n : ℕ) (e : Seen) (es : List Seen)
    → is_key sender ts e ≡ true
    → IsHeld e n es
    → any (is_key sender ts) es ≡ true
unfolding any
held_key sender ts n e es mine h =
    ap (any (is_key sender ts)) h.whole
    ∙ ground (arith, any-append (is_key sender ts) h.before (e ∷ h.after), mine)

insert-IsHeld :
    (n : ℕ) (e d : Seen) (c : DedupCache)
    → suc n < c.capacity
    → d.at - e.at ≤ c.ttl
    → IsHeld e n c.entries
    → IsHeld e (suc n) (insert d.at d.sender d.ts c).1.entries
unfolding insert
insert-IsHeld n e d c room young h =
    let live = drop_expired d.at c.ttl c.entries in
    let held = drop_expired-IsHeld d.at c.ttl n e c.entries young h in
    if_given (λ (r : Bool × DedupCache). IsHeld e (suc n) r.1.entries)
      (any (is_key d.sender d.ts) live) _ _ (λ dup. more-IsHeld n e live held)
      (λ new_key.
        let other : is_key e.sender e.ts d ≡ false = elim (Bool-cases (is_key d.sender d.ts e)) [
          | inl mine ↦ absurd (ground (arith, held_key d.sender d.ts n e live mine held, new_key))
          | inr theirs ↦ ground (arith, theirs, eq_iff d.sender e.sender, eq_iff e.sender d.sender)
        ] in
        append-IsHeld n e d (make_room c.capacity live) other (
          subst (λ es. IsHeld e n (make_room c.capacity es)) (sym held.whole)
            (room-IsHeld c.capacity n e held.before held.after room held.few held.older held.last)))

settings-insert :
    (now : ℕ) (sender : Text) (ts : ℕ) (c : DedupCache)
    → ((insert now sender ts c).1.capacity ≡ c.capacity) × ((insert now sender ts c).1.ttl ≡ c.ttl)
unfolding insert
settings-insert now sender ts c = ground arith

inserts-IsHeld :
    (calls : List Seen) (n ttl : ℕ) (e : Seen) (c : DedupCache)
    → n + length calls < c.capacity
    → c.ttl ≡ ttl
    → All (λ d. d.at - e.at ≤ ttl) calls
    → IsHeld e n c.entries
    → IsHeld e (n + length calls) (inserts calls c).entries × ((inserts calls c).ttl ≡ ttl)
unfolding inserts
inserts-IsHeld [] n ttl e c room same young h =
    (subst (λ k. IsHeld e k c.entries) (omega arith) h, same)
inserts-IsHeld (d ∷ calls) n ttl e c room same young h =
    let next = (insert d.at d.sender d.ts c).1 in
    let settings = settings-insert d.at d.sender d.ts c in
    let rest =
      inserts-IsHeld calls (suc n) ttl e next (omega (arith, room, settings.0)) (settings.1 ∙ same)
        young.1 (insert-IsHeld n e d c (omega (arith, room)) (omega (arith, young.0, same)) h) in
    (subst (λ k. IsHeld e k (inserts calls next).entries) (omega arith) rest.0, rest.1)

new-IsHeld :
    (now : ℕ) (sender : Text) (ts : ℕ) (c : DedupCache)
    → NotAfter now c.entries
    → (insert now sender ts c).0 ≡ true
    → IsHeld (record { sender = sender; ts = ts; at = now }) 0 (insert now sender ts c).1.entries
unfolding any
new-IsHeld now sender ts c n first = record {
  before = make_room c.capacity (drop_expired now c.ttl c.entries);
  after = [];
  whole = ap (λ (x : DedupCache). x.entries) (entries-insert now sender ts c first);
  few = omega arith;
  older =
      make_room-NotAfter c.capacity now (drop_expired now c.ttl c.entries)
        (drop_expired-NotAfter now c.ttl now c.entries n);
  last = refl;
}

answer-insert :
    (now : ℕ) (sender : Text) (ts : ℕ) (c : DedupCache)
    → (insert now sender ts c).0 ≡ not (any (is_key sender ts) (drop_expired now c.ttl c.entries))
unfolding insert
answer-insert now sender ts c = ground arith

insert-held :
    (later sender_ts n : ℕ) (sender : Text) (e : Seen) (c : DedupCache)
    → e.sender ≡ sender
    → e.ts ≡ sender_ts
    → IsHeld e n c.entries
    → (insert later sender sender_ts c).0 ≡ ltb c.ttl (later - e.at)
insert-held later ts n sender e c same_sender same_ts h =
    answer-insert later sender ts c ∙ elim (Bool-cases (ltb c.ttl (later - e.at))) [
      | inl over ↦
          ap (λ es. not (any (is_key sender ts) es))
            (ap (drop_expired later c.ttl) h.whole
              ∙ drop_expired_past later c.ttl h.before h.after e (ltb→lt _ _ over) h.older)
          ∙ ground (
            arith,
            over,
            drop_expired-any (is_key sender ts) later c.ttl h.after (
                subst (λ k. any (is_key sender k) h.after ≡ false) same_ts
                  (subst (λ k. any (is_key k e.ts) h.after ≡ false) same_sender h.last)),
          )
      | inr within ↦
          let live = drop_expired-IsHeld later c.ttl n e c.entries (ground (arith, within)) h in
          let mine : is_key sender ts e ≡ true =
            ground (arith, eq_iff e.sender sender, same_sender, same_ts) in
          ground
            (arith, within, held_key sender ts n e (drop_expired later c.ttl c.entries) mine live)
    ]

-- A key that was taken for new, into a cache whose entries are not of the future, is a duplicate
-- until the time-to-live of that delivery is over, and counts as new from then on, whatever was
-- delivered in between: fewer deliveries than the cache has room for, each within the time-to-live.
pub insert-inserts :
    (now later : ℕ) (sender : Text) (ts : ℕ) (calls : List Seen) (c : DedupCache)
    → NotAfter now c.entries
    → (insert now sender ts c).0 ≡ true
    → length calls < c.capacity
    → All (λ d. d.at - now ≤ c.ttl) calls
    → (insert later sender ts (inserts calls (insert now sender ts c).1)).0
      ≡ ltb c.ttl (later - now)
insert-inserts now later sender ts calls c n first room young =
    let e : Seen = record { sender = sender; ts = ts; at = now } in
    let after = (insert now sender ts c).1 in
    let settings = settings-insert now sender ts c in
    let (held, ttl) =
      inserts-IsHeld calls 0 c.ttl e after (omega (arith, room, settings.0)) settings.1 young
        (new-IsHeld now sender ts c n first) in
    insert-held later ts (0 + length calls) sender e (inserts calls after) refl refl held
    ∙ ap (λ k. ltb k (later - now)) ttl
