-- ===== src/Relay/Hub/History.antt =====
-- Histories of calls on the clip caches, and caches in the order of their times.
use clip_bridge.Core.Protocol.{RecentClip}
use native.Mathlib.Nat.{le_trans}
use clip_bridge.Prelude.{
  ℕ, ◌-◌, ◌≤◌, ◌<◌, ◌≡◌, inl, inr, refl, List, [], ◌∷◌, ◌++◌, arith, leb, if◌then◌else◌, ◌==◌,
  list_eq, nat_eq, option_eq, length, drop, retain, Text, Bool-cases, leb→le,
}
use clip_bridge.Relay.Hub.{
  Cache, Hub, recent_cap, recent_ttl, is_fresh, make_room, cache_clip, publish, recent,
}

-- The last `n` items.
abbrev pub last {ℓ} : {A : Type ℓ} → ℕ → List A → List A
last n [] = []
last n (x ∷ xs) = if leb n (length xs) then last n xs else x ∷ xs

-- What reaches a hub's caches, with the time of the call.
pub data Call : Type 0 where
  publishes : ℕ → RecentClip → Call
  fetches : ℕ → Call

abbrev pub time_of : Call → ℕ
time_of (publishes t clip) = t
time_of (fetches t) = t

unfoldable pub serve : List (Text × Call) → Hub → Hub
serve [] h = h
serve ((g, publishes t clip) ∷ calls) h = serve calls (publish t g clip h).0
serve ((g, fetches t) ∷ calls) h = serve calls (recent t g h).1

-- The calls of one group, and the clips published by them.
abbrev pub calls_of : Text → List (Text × Call) → List Call
calls_of g [] = []
calls_of g ((j, c) ∷ calls) = if j == g then c ∷ calls_of g calls else calls_of g calls

abbrev pub clips : List Call → Cache
clips [] = []
clips (publishes t clip ∷ calls) = (t, clip) ∷ clips calls
clips (fetches t ∷ calls) = clips calls

-- Times that do not fall, from `lo` on and up to `now`.
abbrev pub InOrder : ℕ → List Call → ℕ → Type 0
InOrder lo [] now = lo ≤ now
InOrder lo (c ∷ calls) now = (lo ≤ time_of c) × InOrder (time_of c) calls now

unfoldable pub run : Cache → List Call → Cache
run c [] = c
run c (publishes t clip ∷ calls) = run (cache_clip t clip c) calls
run c (fetches t ∷ calls) = run (retain (is_fresh t) c) calls

abbrev pub Ordered : ℕ → Cache → Type 0
Ordered lo [] = Unit
Ordered lo ((t, clip) ∷ c) = (lo ≤ t) × Ordered t c

abbrev pub NotAfter : ℕ → Cache → Type 0
NotAfter hi [] = Unit
NotAfter hi ((t, clip) ∷ c) = (t ≤ hi) × NotAfter hi c

pub Ordered-mono : (a b : ℕ) (c : Cache) → a ≤ b → Ordered b c → Ordered a c
Ordered-mono a b [] h o = tt
Ordered-mono a b ((t, x) ∷ c) h o = (omega arith, o.1)

pub Ordered-retain : (now lo : ℕ) (c : Cache) → Ordered lo c → Ordered lo (retain (is_fresh now) c)
unfolding retain
Ordered-retain now lo [] o = tt
Ordered-retain now lo ((t, x) ∷ c) o =
    let rest = Ordered-retain now t c o.1 in
    ground (arith, rest, Ordered-mono lo t (retain (is_fresh now) c) o.0 rest)

pub NotAfter-mono : (a b : ℕ) (c : Cache) → a ≤ b → NotAfter a c → NotAfter b c
NotAfter-mono a b [] h o = tt
NotAfter-mono a b ((t, x) ∷ c) h o = (omega arith, NotAfter-mono a b c h o.1)

pub NotAfter-retain :
    (now hi : ℕ) (c : Cache) → NotAfter hi c → NotAfter hi (retain (is_fresh now) c)
unfolding retain
NotAfter-retain now hi [] o = tt
NotAfter-retain now hi ((t, x) ∷ c) o = ground (arith, NotAfter-retain now hi c o.1)

pub Ordered-drop : (lo : ℕ) (c : Cache) → Ordered lo c → Ordered lo (drop 1 c)
Ordered-drop lo [] o = tt
Ordered-drop lo ((t, x) ∷ c) o = Ordered-mono lo t c o.0 o.1

pub NotAfter-drop : (hi : ℕ) (c : Cache) → NotAfter hi c → NotAfter hi (drop 1 c)
NotAfter-drop hi [] o = tt
NotAfter-drop hi ((t, x) ∷ c) o = o.1

pub Ordered-append_one :
    (lo t : ℕ) (x : RecentClip) (c : Cache)
    → lo ≤ t
    → Ordered lo c
    → NotAfter t c
    → Ordered lo (c ++ (t, x) ∷ [])
Ordered-append_one lo t x [] h o n = (h, tt)
Ordered-append_one lo t x ((u, y) ∷ c) h o n = (o.0, Ordered-append_one u t x c n.0 o.1 n.1)

pub NotAfter-append_one :
    (t : ℕ) (x : RecentClip) (c : Cache) → NotAfter t c → NotAfter t (c ++ (t, x) ∷ [])
NotAfter-append_one t x [] n = (omega arith, tt)
NotAfter-append_one t x ((u, y) ∷ c) n = (n.0, NotAfter-append_one t x c n.1)

-- Behind a fresh clip all are fresh.
pub retain-fresh :
    (now t : ℕ) (c : Cache) → now - t < recent_ttl → Ordered t c → retain (is_fresh now) c ≡ c
unfolding retain
retain-fresh now t [] h o = refl
retain-fresh now t ((u, x) ∷ c) h o =
    let younger : now - u < recent_ttl = omega arith in
    ground (arith, retain-fresh now u c younger o.1)

pub last_all {ℓ} : {A : Type ℓ} (n : ℕ) (xs : List A) → length xs ≤ n → last n xs ≡ xs
last_all n [] h = refl
last_all n (x ∷ xs) h = elim (Bool-cases (leb n (length xs))) [
  | inl long ↦ absurd (omega (arith, leb→le n (length xs) long))
  | inr short ↦ rw short
]

pub le_of_lt : (a b : ℕ) → a < b → a ≤ b
le_of_lt a b h = omega arith

pub InOrder-le : (lo : ℕ) (calls : List Call) (now : ℕ) → InOrder lo calls now → lo ≤ now
InOrder-le lo [] now h = h
InOrder-le lo (c ∷ calls) now h = le_trans h.0 (InOrder-le (time_of c) calls now h.1)

pub Ordered-clip :
    (t : ℕ) (x : RecentClip) (c : Cache)
    → Ordered 0 c
    → NotAfter t c
    → Ordered 0 (make_room c ++ (t, x) ∷ [])
unfolding make_room
Ordered-clip t x c o n = elim (Bool-cases (length c == recent_cap)) [
  | inl full ↦
      rw full (
        Ordered-append_one 0 t x (drop 1 c) (omega arith) (Ordered-drop 0 c o)
          (NotAfter-drop t c n))
  | inr room ↦ rw room (Ordered-append_one 0 t x c (omega arith) o n)
]

pub late_clip :
    (t : ℕ) (x : RecentClip) (c : Cache) → NotAfter t c → NotAfter t (make_room c ++ (t, x) ∷ [])
unfolding make_room
late_clip t x c n = elim (Bool-cases (length c == recent_cap)) [
  | inl full ↦ rw full (NotAfter-append_one t x (drop 1 c) (NotAfter-drop t c n))
  | inr room ↦ rw room (NotAfter-append_one t x c n)
]
