-- ===== src/Relay/Hub.antt =====
-- relay/src/hub.rs: groups, their clip cache, and the rendezvous presence. A method locks what it
-- changes and does not await, so each call is one step. What a call sends is returned: the clip
-- for the group's broadcast channel, and a snapshot for each mailbox (named by a number).
pub mod History
pub mod Recent
pub mod Snapshots
pub mod Told
pub mod Slots
use clip_bridge.Core.Net.{IpAddr, ip_eq, AddrText}
use clip_bridge.Core.Protocol.{LanCandidate, LanPeer, RecentClip}
use clip_bridge.Relay.Candidates.{candidates_for_receiver}
use clip_bridge.Prelude.Assoc
use clip_bridge.Prelude.Assoc.{
  Assoc, IsMap, is_some, lookup-remove, lookup-insert, lookup-insert_self, remove-IsMap,
  insert-IsMap, All-remove, All-lookup, length-remove, remove_missing, length-remove_found,
}
use clip_bridge.Prelude.{
  ℕ, zero, suc, ◌+◌, ◌-◌, ◌*◌, ◌/◌, ◌%◌, ◌^◌, ◌≤◌, ◌<◌, ◌≡◌, ◌≢◌, ◌↔◌, ◌⊎◌, inl, inr, refl, sym, ap,
  subst, ◌∙◌, Bool, true, false, not, ◌&&◌, ◌||◌, Option, none, some, List, [], ◌∷◌, ◌++◌, map,
  append-nil, append_assoc, arith, ltb, leb, if◌then◌else◌, Eq, ◌==◌, eq_iff, eq_refl, ne-eq,
  eq_symm, list_eq, nat_eq, option_eq, length, is_empty, take, drop, All, All-append, All-map,
  length-append, retain, any, contains, Distinct, length-retain, retain-append, Text, codes,
  text_lt, starts_with, Bool-cases, Option-cases, ltb→lt, leb→le, leb→gt, le→leb, length-take,
  length-drop, take-append-drop, drop-all, contains-append, Distinct-append_one, retain_all,
  All-retain, nat_beq,
}

abbrev pub recent_cap : ℕ
recent_cap = 3

-- Milliseconds: twelve hours.
abbrev pub recent_ttl : ℕ
recent_ttl = 12 * 60 * 60 * 1000

pub record RvConn : Type 0 where
  pub device_id : Text
  pub device_name : Text
  pub candidates : List Text
  pub candidate_networks : List LanCandidate
  pub tx : ℕ

abbrev pub Conns : Type 0
Conns = Assoc ℕ RvConn

abbrev pub Presence : Type 0
Presence = Assoc IpAddr Conns

abbrev pub Cache : Type 0
Cache = List (ℕ × RecentClip)

pub record Group : Type 0 where
  pub cache : Cache
  pub presence : Presence

pub record Hub : Type 0 where
  pub inner : Assoc Text Group
  pub conn_seq : ℕ

unfoldable pub new : Hub
new = record { inner = []; conn_seq = 1 }

-- `fetch_add` wraps at 64 bits.
unfoldable pub next_conn_id : Hub → ℕ × Hub
next_conn_id h = (h.conn_seq, record h { conn_seq = (h.conn_seq + 1) % 2 ^ 64 })

abbrev pub empty_group : Group
empty_group = record { cache = []; presence = [] }

-- The group that `entry` gives, made on first touch.
unfoldable pub group_of : Text → Hub → Group
group_of g h = elim (Assoc.lookup g h.inner) [ none ↦ empty_group | some x ↦ x ]

-- The hub in which `entry`'s group has become `x`.
unfoldable pub with_group : Text → Group → Hub → Hub
with_group g x h = record h { inner = Assoc.insert g x h.inner }

unfoldable pub subscribe : Text → Hub → Hub
subscribe g h = with_group g (group_of g h) h

-- `now.duration_since(*t) < RECENT_TTL`
abbrev pub is_fresh : ℕ → ℕ × RecentClip → Bool
is_fresh now (t, clip) = ltb (now - t) recent_ttl

unfoldable pub make_room : Cache → Cache
make_room cache = if length cache == recent_cap then drop 1 cache else cache

unfoldable pub cache_clip : ℕ → RecentClip → Cache → Cache
cache_clip now clip cache = make_room (retain (is_fresh now) cache) ++ (now, clip) ∷ []

-- The second part is the clip that goes out on the group's broadcast channel.
unfoldable pub publish : ℕ → Text → RecentClip → Hub → Hub × RecentClip
publish now g clip h =
    let group = group_of g h in
    (with_group g (record group { cache = cache_clip now clip group.cache }) h, clip)

unfoldable pub recent : ℕ → Text → Hub → List RecentClip × Hub
recent now g h =
    let group = group_of g h in
    let kept = retain (is_fresh now) group.cache in
    (map (λ r. r.1) kept, with_group g (record group { cache = kept }) h)

-- `by_did.entry(..).and_modify(..).or_insert(..)`
unfoldable pub note_latest : ℕ → RvConn → Assoc Text (ℕ × RvConn) → Assoc Text (ℕ × RvConn)
note_latest oid oc m = elim (Assoc.lookup oc.device_id m) [
  | none ↦ Assoc.insert oc.device_id (oid, oc) m
  | some (latest, c) ↦ if ltb latest oid then Assoc.insert oc.device_id (oid, oc) m else m
]

-- The inner loop of `push_egress` for the receiver `cid`.
unfoldable pub latest_by_device : ℕ → Conns → Assoc Text (ℕ × RvConn) → Assoc Text (ℕ × RvConn)
latest_by_device cid [] m = m
latest_by_device cid ((oid, oc) ∷ conns) m =
    latest_by_device cid conns (if oid == cid then m else note_latest oid oc m)

abbrev pub or_default : Option Conns → Conns
or_default none = []
or_default (some conns) = conns

unfoldable pub upsert_presence : IpAddr → ℕ → RvConn → Presence → Presence
upsert_presence egress conn_id c p =
    Assoc.insert egress (Assoc.insert conn_id c (or_default (Assoc.lookup egress p))) p

unfoldable pub remove_presence : IpAddr → ℕ → Presence → Presence
remove_presence egress conn_id p = elim (Assoc.lookup egress p) [
  | none ↦ p
  | some conns ↦
      let left = Assoc.remove conn_id conns in
      if is_empty left then Assoc.remove egress p else Assoc.insert egress left p
]

module _ (t : AddrText) where
  unfoldable pub peer_entry : RvConn → Text × ℕ × RvConn → Option LanPeer
  peer_entry c (did, oid, peer) =
      let candidates =
        candidates_for_receiver t c.candidate_networks peer.candidates peer.candidate_networks in
      if is_empty candidates
      then none
      else some
          (record { device_id = did; device_name = peer.device_name; candidates = candidates })

  unfoldable pub peer_entries : RvConn → Assoc Text (ℕ × RvConn) → List LanPeer
  peer_entries c [] = []
  peer_entries c ((did, latest) ∷ m) =
      let rest = peer_entries c m in
      elim (peer_entry c (did, latest.0, latest.1)) [ none ↦ rest | some p ↦ p ∷ rest ]

  unfoldable pub snapshot : ℕ → RvConn → Conns → List LanPeer
  snapshot cid c conns = peer_entries c (latest_by_device cid conns [])

  -- The outer loop: each connection's mailbox with what is sent to it.
  unfoldable pub snapshots : Conns → Conns → List (ℕ × List LanPeer)
  snapshots all [] = []
  snapshots all ((cid, c) ∷ conns) = (c.tx, snapshot cid c all) ∷ snapshots all conns

  unfoldable pub push_egress : Presence → IpAddr → List (ℕ × List LanPeer)
  push_egress p egress = elim (Assoc.lookup egress p) [
    | none ↦ []
    | some conns ↦ snapshots conns conns
  ]

  unfoldable pub rendezvous_upsert :
      Text → IpAddr → ℕ → RvConn → Hub → Hub × List (ℕ × List LanPeer)
  rendezvous_upsert g egress conn_id c h =
      let group = group_of g h in
      let p = upsert_presence egress conn_id c group.presence in
      (with_group g (record group { presence = p }) h, push_egress p egress)

  unfoldable pub rendezvous_remove : Text → IpAddr → ℕ → Hub → Hub × List (ℕ × List LanPeer)
  rendezvous_remove g egress conn_id h =
      let group = group_of g h in
      let p = remove_presence egress conn_id group.presence in
      (with_group g (record group { presence = p }) h, push_egress p egress)
