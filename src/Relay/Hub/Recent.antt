-- ===== src/Relay/Hub/Recent.antt =====
-- The clip cache against the history of a group: `recent` answers with the last three clips that
-- were published to the group, less those older than twelve hours.
use clip_bridge.Core.Protocol.{RecentClip}
use clip_bridge.Prelude.Assoc
use clip_bridge.Prelude.Assoc.{
  Assoc, IsMap, is_some, lookup-remove, lookup-insert, lookup-insert_self, remove-IsMap,
  insert-IsMap, All-remove, All-lookup, length-remove, remove_missing, length-remove_found,
}
use clip_bridge.Prelude.{
  ℕ, ◌-◌, ◌≤◌, ◌<◌, ◌≡◌, inl, inr, refl, sym, ap, ◌∙◌, List, [], ◌∷◌, ◌++◌, map, append-nil,
  append_assoc, arith, leb, if◌then◌else◌, ◌==◌, eq_iff, list_eq, nat_eq, option_eq, length,
  length-append, retain, length-retain, Text, Bool-cases, ltb→lt, leb→gt, le→leb, length-drop,
}
use clip_bridge.Relay.Hub.{
  Cache, Group, Hub, new, recent_cap, recent_ttl, group_of, with_group, is_fresh, make_room,
  cache_clip, publish, recent,
}
use clip_bridge.Relay.Hub.History.{
  last, Call, serve, calls_of, clips, InOrder, run, Ordered, NotAfter, Ordered-retain,
  NotAfter-mono, NotAfter-retain, retain-fresh, last_all, le_of_lt, InOrder-le, Ordered-clip,
  late_clip, publishes, fetches,
}

module _ (now : ℕ) where
  abbrev visible : Cache → Cache
  visible c = retain (is_fresh now) (last recent_cap c)

  visible_stale :
      (t : ℕ) (x : RecentClip) (c : Cache) → recent_ttl ≤ now - t → visible ((t, x) ∷ c) ≡ visible c
  unfolding retain
  visible_stale t x c h = elim (Bool-cases (leb recent_cap (length c))) [
    | inl long ↦ rw long
    | inr short ↦ rw (short, last_all recent_cap c (le_of_lt _ _ (leb→gt _ _ short))) (ground arith)
  ]

  -- Dropping what is stale at an earlier time changes nothing that is visible now.
  visible-retain :
      (t lo : ℕ) (c r : Cache)
      → t ≤ now
      → Ordered lo c
      → visible (retain (is_fresh t) c ++ r) ≡ visible (c ++ r)
  unfolding retain
  visible-retain t lo [] r h o = refl
  visible-retain t lo ((u, x) ∷ c) r h o = elim (Bool-cases (is_fresh t (u, x))) [
    | inr stale ↦
        rw stale
          (visible-retain t u c r h o.1 ∙ sym (visible_stale u x (c ++ r) (ground (arith, stale))))
    | inl fresh ↦ rw fresh (rw (retain-fresh t u c (ltb→lt _ _ fresh) o.1))
  ]

  -- Making room drops a clip that is not among the last three.
  visible-make_room :
      (c r : Cache) (e : ℕ × RecentClip)
      → length c ≤ recent_cap
      → visible (make_room c ++ e ∷ r) ≡ visible (c ++ e ∷ r)
  unfolding make_room
  visible-make_room [] r e h = refl
  visible-make_room (x ∷ c) r e h = elim (Bool-cases (length (x ∷ c) == recent_cap)) [
    | inr room ↦ rw room
    | inl full ↦ rw full (
        rw (
          le→leb recent_cap (length (c ++ e ∷ r))
            (omega (arith, length-append c (e ∷ r), (eq_iff (length (x ∷ c)) recent_cap).0 full))))
  ]

  length-make_room : (c : Cache) → length c ≤ recent_cap → length (make_room c) < recent_cap
  unfolding make_room
  length-make_room c h = ground (arith, length-drop 1 c)

  cache-bounded :
      (t : ℕ) (x : RecentClip) (c : Cache)
      → length c ≤ recent_cap
      → length (cache_clip t x c) ≤ recent_cap
  unfolding cache_clip
  cache-bounded t x c h = omega (
    arith,
    length-append (make_room (retain (is_fresh t) c)) ((t, x) ∷ []),
    length-make_room (retain (is_fresh t) c),
    length-retain (is_fresh t) c,
  )

  visible-run :
      (lo : ℕ) (c : Cache) (calls : List Call)
      → length c ≤ recent_cap
      → Ordered 0 c
      → NotAfter lo c
      → InOrder lo calls now
      → visible (run c calls) ≡ visible (c ++ clips calls)
  unfolding run cache_clip
  visible-run lo c [] len o n h = ap visible (sym (append-nil c))
  visible-run lo c (fetches t ∷ calls) len o n h =
      visible-run t (retain (is_fresh t) c) calls (omega (arith, length-retain (is_fresh t) c))
        (Ordered-retain t 0 c o) (NotAfter-retain t t c (NotAfter-mono lo t c h.0 n)) h.1
      ∙ visible-retain t 0 c (clips calls) (InOrder-le t calls now h.1) o
  visible-run lo c (publishes t x ∷ calls) len o n h =
      let kept = retain (is_fresh t) c in
      let late = NotAfter-retain t t c (NotAfter-mono lo t c h.0 n) in
      let few : length kept ≤ recent_cap = omega (arith, length-retain (is_fresh t) c) in
      visible-run t (cache_clip t x c) calls (cache-bounded t x c len)
        (Ordered-clip t x kept (Ordered-retain t 0 c o) late) (late_clip t x kept late) h.1
      ∙ (ap visible (append_assoc (make_room kept) ((t, x) ∷ []) (clips calls))
          ∙ (visible-make_room kept (clips calls) (t, x) few
              ∙ visible-retain t 0 c ((t, x) ∷ clips calls) (InOrder-le t calls now h.1) o))

run-bounded :
    (c : Cache) (calls : List Call) → length c ≤ recent_cap → length (run c calls) ≤ recent_cap
unfolding run
run-bounded c [] h = h
run-bounded c (publishes t x ∷ calls) h =
    run-bounded (cache_clip t x c) calls (cache-bounded 0 t x c h)
run-bounded c (fetches t ∷ calls) h =
    run-bounded (retain (is_fresh t) c) calls (omega (arith, length-retain (is_fresh t) c))

cache_of : Text → Hub → Cache
cache_of g h = (group_of g h).cache

start : (g : Text) (calls : List Call) → run (cache_of g new) calls ≡ run [] calls
unfolding cache_of group_of new Assoc.lookup
start g calls = refl

pub group_of-with_group :
    (g j : Text) (x : Group) (h : Hub)
    → group_of j (with_group g x h) ≡ (if g == j then x else group_of j h)
unfolding group_of with_group
group_of-with_group g j x h = ground (arith, lookup-insert g j x h.inner)

-- One call moves the cache of its own group, and that of no other.
cache_of-publish :
    (g j : Text) (t : ℕ) (clip : RecentClip) (h : Hub)
    → cache_of g (publish t j clip h).0
      ≡ (if j == g then cache_clip t clip (cache_of g h) else cache_of g h)
unfolding cache_of publish
cache_of-publish g j t clip h = ground (
  arith,
  group_of-with_group j g (record (group_of j h) { cache = cache_clip t clip (group_of j h).cache })
      h,
  eq_iff j g,
)

cache_of-recent :
    (g j : Text) (t : ℕ) (h : Hub)
    → cache_of g (recent t j h).1
      ≡ (if j == g then retain (is_fresh t) (cache_of g h) else cache_of g h)
unfolding cache_of recent
cache_of-recent g j t h = ground (
  arith,
  group_of-with_group j g
      (record (group_of j h) { cache = retain (is_fresh t) (group_of j h).cache }) h,
  eq_iff j g,
)

cache_of-serve :
    (g : Text) (calls : List (Text × Call)) (h : Hub)
    → cache_of g (serve calls h) ≡ run (cache_of g h) (calls_of g calls)
unfolding serve run
cache_of-serve g [] h = refl
cache_of-serve g ((j, publishes t clip) ∷ calls) h =
    cache_of-serve g calls (publish t j clip h).0 ∙ elim (Bool-cases (j == g)) [
      | inl same ↦ rw (cache_of-publish g j t clip h, same)
      | inr other ↦ rw (cache_of-publish g j t clip h, other)
    ]
cache_of-serve g ((j, fetches t) ∷ calls) h =
    cache_of-serve g calls (recent t j h).1 ∙ elim (Bool-cases (j == g)) [
      | inl same ↦ rw (cache_of-recent g j t h, same)
      | inr other ↦ rw (cache_of-recent g j t h, other)
    ]

-- After any calls, publishes and fetches of any groups at times that do not fall, `recent` answers
-- for a group with the last three clips published to it, oldest first, less those that are
-- twelve hours old or older.
pub recent-serve :
    (g : Text) (calls : List (Text × Call)) (now : ℕ)
    → InOrder 0 (calls_of g calls) now
    → (recent now g (serve calls new)).0
      ≡ map (λ r. r.1) (retain (is_fresh now) (last recent_cap (clips (calls_of g calls))))
unfolding recent group_of cache_of
recent-serve g calls now h = ap (map λ (r : ℕ × RecentClip). r.1) (
    ap (retain (is_fresh now)) (cache_of-serve g calls new ∙ start g (calls_of g calls))
    ∙ (ap (retain (is_fresh now)) (
          sym (
            last_all recent_cap (run [] (calls_of g calls))
              (run-bounded [] (calls_of g calls) (omega arith))))
        ∙ visible-run now 0 [] (calls_of g calls) (omega arith) tt tt h))
