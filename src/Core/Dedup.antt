-- ===== src/Core/Dedup.antt =====
-- `DedupCache` of core/src/client.rs: the last deliveries, oldest first. Times are milliseconds.
pub mod Window
use clip_bridge.Prelude.{
  ℕ, ◌+◌, ◌-◌, ◌≤◌, ◌<◌, ◌≡◌, inl, inr, refl, Bool, true, false, ◌&&◌, ◌||◌, List, [], ◌∷◌, ◌++◌,
  arith, ltb, if◌then◌else◌, ◌==◌, eq_iff, eq_refl, list_eq, nat_eq, option_eq, length, drop,
  length-append, any, Text, Bool-cases, ltb→lt, length-drop,
}

pub record Seen : Type 0 where
  pub sender : Text
  pub ts : ℕ
  pub at : ℕ

pub record DedupCache : Type 0 where
  pub entries : List Seen
  pub capacity : ℕ
  pub ttl : ℕ

unfoldable pub new : ℕ → ℕ → DedupCache
new capacity ttl = record { entries = []; capacity = capacity; ttl = ttl }

-- The `while let` loop: expired entries leave at the front, up to the first that is not.
unfoldable pub drop_expired : ℕ → ℕ → List Seen → List Seen
drop_expired now ttl [] = []
drop_expired now ttl (e ∷ es) =
    let rest = drop_expired now ttl es in if ltb ttl (now - e.at) then rest else e ∷ es

abbrev pub is_key : Text → ℕ → Seen → Bool
is_key sender ts e = e.sender == sender && (e.ts == ts)

unfoldable pub make_room : ℕ → List Seen → List Seen
make_room capacity es = if length es == capacity then drop 1 es else es

-- `true`: the key was inserted, and is no recent duplicate.
unfoldable pub insert : ℕ → Text → ℕ → DedupCache → Bool × DedupCache
insert now sender ts c =
    let live = drop_expired now c.ttl c.entries in
    if any (is_key sender ts) live then (false, record c { entries = live }) else (
      true,
      record c {
        entries = make_room c.capacity live ++ record { sender = sender; ts = ts; at = now } ∷ [];
      },
    )

-- No key twice.
abbrev pub DistinctKeys : List Seen → Type 0
DistinctKeys [] = Unit
DistinctKeys (e ∷ es) = (any (is_key e.sender e.ts) es ≡ false) × DistinctKeys es

pub record IsValid (c : DedupCache) : Type 0 where
  pub bounded : length c.entries ≤ c.capacity
  pub room : 0 < c.capacity
  pub distinct : DistinctKeys c.entries

pub drop_expired-any :
    (p : Seen → Bool) (now ttl : ℕ) (es : List Seen)
    → any p es ≡ false
    → any p (drop_expired now ttl es) ≡ false
unfolding any drop_expired
drop_expired-any p now ttl [] h = h
drop_expired-any p now ttl (e ∷ es) h = ground (arith, drop_expired-any p now ttl es)

drop_expired-DistinctKeys :
    (now ttl : ℕ) (es : List Seen) → DistinctKeys es → DistinctKeys (drop_expired now ttl es)
unfolding drop_expired
drop_expired-DistinctKeys now ttl [] h = tt
drop_expired-DistinctKeys now ttl (e ∷ es) h =
    ground (arith, drop_expired-DistinctKeys now ttl es h.1)

length-drop_expired : (now ttl : ℕ) (es : List Seen) → length (drop_expired now ttl es) ≤ length es
unfolding drop_expired
length-drop_expired now ttl [] = omega arith
length-drop_expired now ttl (e ∷ es) = ground (arith, length-drop_expired now ttl es)

pub any-append : (p : Seen → Bool) (es fs : List Seen) → any p (es ++ fs) ≡ (any p es || any p fs)
unfolding any
any-append p [] fs = refl
any-append p (e ∷ es) fs = ground (arith, any-append p es fs)

any-drop : (p : Seen → Bool) (es : List Seen) → any p es ≡ false → any p (drop 1 es) ≡ false
unfolding any
any-drop p [] h = refl
any-drop p (e ∷ es) h = ground arith

make_room-DistinctKeys : (n : ℕ) (es : List Seen) → DistinctKeys es → DistinctKeys (make_room n es)
unfolding make_room
make_room-DistinctKeys n [] h = ground arith
make_room-DistinctKeys n (e ∷ es) h = ground arith

make_room-any :
    (p : Seen → Bool) (n : ℕ) (es : List Seen) → any p es ≡ false → any p (make_room n es) ≡ false
unfolding make_room
make_room-any p n es h = ground (arith, any-drop p es)

DistinctKeys-append_one :
    (es : List Seen) (e : Seen)
    → DistinctKeys es
    → any (is_key e.sender e.ts) es ≡ false
    → DistinctKeys (es ++ e ∷ [])
unfolding any
DistinctKeys-append_one [] e d h = (refl, tt)
DistinctKeys-append_one (x ∷ es) e d h = ground (
  arith,
  DistinctKeys-append_one es e d.1,
  any-append (is_key x.sender x.ts) es (e ∷ []),
  eq_iff e.sender x.sender,
  eq_iff x.sender e.sender,
)

length-make_room :
    (n : ℕ) (es : List Seen) → length es ≤ n → 0 < n → length (make_room n es) + 1 ≤ n
unfolding make_room
length-make_room n es h room = ground (arith, length-drop 1 es)

-- A delivery, new or not, keeps the cache within its capacity and with no key twice.
pub insert-IsValid :
    (now : ℕ) (sender : Text) (ts : ℕ) (c : DedupCache)
    → IsValid c
    → IsValid (insert now sender ts c).1
unfolding insert
insert-IsValid now sender ts c v =
    let live = drop_expired now c.ttl c.entries in
    let few : length live ≤ c.capacity =
      omega (arith, length-drop_expired now c.ttl c.entries, v.bounded) in
    let distinct = drop_expired-DistinctKeys now c.ttl c.entries v.distinct in
    elim (Bool-cases (any (is_key sender ts) live)) [
      | inl old ↦ rw (old, insert) (record { bounded = few; room = v.room; distinct = distinct })
      | inr new_key ↦
          rw (new_key, insert)
            (record {
              bounded = omega (
                arith,
                length-append (make_room c.capacity live)
                    (record { sender = sender; ts = ts; at = now } ∷ []),
                length-make_room c.capacity live few v.room,
              );
              room = v.room;
              distinct =
                  DistinctKeys-append_one (make_room c.capacity live)
                    (record { sender = sender; ts = ts; at = now })
                    (make_room-DistinctKeys c.capacity live distinct)
                    (make_room-any (is_key sender ts) c.capacity live new_key);
            })
    ]

-- No entry was made after `now`.
abbrev pub NotAfter : ℕ → List Seen → Type 0
NotAfter now [] = Unit
NotAfter now (e ∷ es) = (e.at ≤ now) × NotAfter now es

pub drop_expired-all :
    (later ttl now : ℕ) (es : List Seen)
    → NotAfter now es
    → ttl < later - now
    → drop_expired later ttl es ≡ []
unfolding drop_expired
drop_expired-all later ttl now [] n old = refl
drop_expired-all later ttl now (e ∷ es) n old =
    ground (arith, drop_expired-all later ttl now es n.1 old)

pub drop_expired-NotAfter :
    (t ttl now : ℕ) (es : List Seen) → NotAfter now es → NotAfter now (drop_expired t ttl es)
unfolding drop_expired
drop_expired-NotAfter t ttl now [] n = tt
drop_expired-NotAfter t ttl now (e ∷ es) n = ground (arith, drop_expired-NotAfter t ttl now es n.1)

pub make_room-NotAfter :
    (k now : ℕ) (es : List Seen) → NotAfter now es → NotAfter now (make_room k es)
unfolding make_room
make_room-NotAfter k now [] n = ground arith
make_room-NotAfter k now (e ∷ es) n = ground arith

-- What a new delivery leaves in the cache.
pub entries-insert :
    (now : ℕ) (sender : Text) (ts : ℕ) (c : DedupCache)
    → (insert now sender ts c).0 ≡ true
    → (insert now sender ts c).1 ≡ record c {
      entries =
          make_room c.capacity (drop_expired now c.ttl c.entries)
          ++ record { sender = sender; ts = ts; at = now } ∷ [];
    }
unfolding insert
entries-insert now sender ts c h = ground arith
