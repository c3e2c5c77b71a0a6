-- ===== src/Relay/Ws/Closing.antt =====
-- What a connection leaves behind in the hub's presence when its socket closes.
use clip_bridge.Core.Crypto.{Bytes}
use clip_bridge.Core.Net.{IpAddr, ip_eq, AddrText}
use clip_bridge.Core.Protocol.{LanCandidate, join, publish, fetch_recent, lan_advertise}
use clip_bridge.Prelude.{
  ℕ, ◌≡◌, ◌≢◌, ◌⊎◌, inl, inr, refl, sym, ◌∙◌, Bool, true, false, ◌&&◌, Option, none, some, List,
  arith, if◌then◌else◌, ◌==◌, eq_iff, eq_refl, list_eq, nat_eq, option_eq, retain, Text, Bool-cases,
  Option-cases,
}
use clip_bridge.Relay.Hub
use clip_bridge.Relay.Hub.{Hub, Group, RvConn, group_of, with_group}
use clip_bridge.Relay.Hub.Recent.{group_of-with_group}
use clip_bridge.Relay.Hub.Slots.{slot, slot-rendezvous_upsert, slot-rendezvous_remove}
use clip_bridge.Relay.Ws.{
  Session, Parsed, message, malformed, stay, in_group, advertise, advertised_conn, handle_text,
  finish, pushes,
}

-- The only slot under the connection's number is the one that closing will empty.
abbrev pub OwnSlots : Session → Hub → Type 0
OwnSlots s h =
    (g : Text) (e : IpAddr) → (s.rv_group ≢ some g) ⊎ (s.egress ≢ e) → slot g e s.conn_id h ≡ none

-- The message does not move the rendezvous to another group.
abbrev pub StaysPut : Session → Parsed → Type 0
StaysPut s (message (lan_advertise g did name candidates networks)) =
    (s.rv_group ≡ none) ⊎ (s.rv_group ≡ some g)
StaysPut s _ = Unit

slot-with_cache :
    (g j : Text) (e : IpAddr) (n : ℕ) (cache : Hub.Cache) (h : Hub)
    → slot j e n (with_group g (record (group_of g h) { cache = cache }) h) ≡ slot j e n h
slot-with_cache g j e n cache h = elim (Bool-cases (g == j)) [
  | inl same ↦ rw (
    group_of-with_group g j (record (group_of g h) { cache = cache }) h,
    same,
    (eq_iff g j).0 same,
  )
  | inr other ↦ rw (group_of-with_group g j (record (group_of g h) { cache = cache }) h, other)
]

elsewhere :
    (s : Session) (r g : Text) (e : IpAddr)
    → s.rv_group ≡ some r
    → (r == g && s.egress == e) ≡ false
    → (s.rv_group ≢ some g) ⊎ (s.egress ≢ e)
elsewhere s r g e at apart = elim (Bool-cases (r == g)) [
  | inr other ↦ inl (λ q. ground (arith, q, eq_iff r g, other, at))
  | inl same ↦ inr (λ q. ground (arith, q, eq_iff s.egress e, same, apart))
]

still :
    (g j : Text) (e : IpAddr) (s : Session)
    → (s.rv_group ≡ none) ⊎ (s.rv_group ≡ some g)
    → (some g ≢ some j) ⊎ (s.egress ≢ e)
    → (s.rv_group ≢ some j) ⊎ (s.egress ≢ e)
still g j e s (inl out) apart = inl (λ q. cc (out, q))
still g j e s (inr at) (inl q) = inl (λ r. q (sym at ∙ r))
still g j e s (inr at) (inr q) = inr q

in_own_group : (s : Session) (g : Text) → s.group ≡ some g → in_group s g ≡ true
unfolding in_group
in_own_group s g e = ground (arith, e, eq_refl g)

elsewhere_set :
    (a b : Text) (x y : Option RvConn) (same : Bool) → a ≢ b → (if b == a && same then y else x) ≡ x
elsewhere_set a b x y same ne = ground (arith, ne, eq_iff b a)

slot-subscribe :
    (g j : Text) (e : IpAddr) (n : ℕ) (h : Hub) → slot j e n (Hub.subscribe g h) ≡ slot j e n h
unfolding Hub.subscribe
slot-subscribe g j e n h = slot-with_cache g j e n (group_of g h).cache h

module _ (t : AddrText) where
  -- Closing the socket of a connection whose number stands in no other slot than the one it
  -- remembers leaves no slot of the hub under that number.
  pub finish-OwnSlots :
      (s : Session) (h : Hub)
      → OwnSlots s h
      → (g : Text) (e : IpAddr) → slot g e s.conn_id (finish t s h).0 ≡ none
  unfolding finish
  finish-OwnSlots s h own g e = elim (Option-cases s.rv_group) [
    | inl out ↦ rw (out, finish) (own g e (inl (λ q. cc (out, q))))
    | inr (r, at) ↦
        rw (at, finish)
          (rw (slot-rendezvous_remove t r g s.egress e s.conn_id s.conn_id h)
            (elim (Bool-cases (r == g && s.egress == e)) [
              | inl both ↦ ground (arith, both)
              | inr apart ↦ ground (arith, own g e (elsewhere s r g e at apart))
            ]))
  ]

  own_join :
      (now : ℕ) (g did : Text) (s : Session) (h : Hub)
      → OwnSlots s h
      → let r = handle_text t now (message (join g did)) s h in OwnSlots r.session r.hub
  unfolding handle_text Hub.subscribe
  own_join now g did s h own j e apart =
      slot-with_cache g j e s.conn_id (group_of g h).cache h ∙ own j e apart

  own_publish :
      (now : ℕ) (g : Text) (ciphertext nonce : Bytes) (ts : ℕ) (s : Session) (h : Hub)
      → OwnSlots s h
      → let r = handle_text t now (message (publish g ciphertext nonce ts)) s h in
        OwnSlots r.session r.hub
  unfolding handle_text Hub.publish
  own_publish now g ciphertext nonce ts s h own = elim (Option-cases s.device_id) [
    | inl e ↦ rw (e, handle_text) own
    | inr (did, e) ↦ elim (Bool-cases (in_group s g)) [
      | inr out ↦ rw (e, handle_text) (rw out own)
      | inl member ↦
          rw (e, handle_text)
            (rw member (λ j a apart.
              slot-with_cache g j a s.conn_id
                (Hub.cache_clip now
                  (record {
                    ciphertext = ciphertext;
                    nonce = nonce;
                    ts = ts;
                    sender_device_id = did;
                  })
                  (group_of g h).cache)
                h
              ∙ own j a apart))
    ]
  ]

  own_fetch :
      (now : ℕ) (g : Text) (s : Session) (h : Hub)
      → OwnSlots s h
      → let r = handle_text t now (message (fetch_recent g)) s h in OwnSlots r.session r.hub
  unfolding handle_text Hub.recent
  own_fetch now g s h own = elim (Bool-cases (in_group s g)) [
    | inr out ↦ rw (out, handle_text) own
    | inl member ↦
        rw (member, handle_text)
          (λ j a apart.
            slot-with_cache g j a s.conn_id (retain (Hub.is_fresh now) (group_of g h).cache) h
            ∙ own j a apart)
  ]

  -- The session and the presence that an accepted advertisement leaves.
  own_accepted :
      (g : Text) (c : RvConn) (s : Session) (h : Hub)
      → (s.rv_group ≡ none) ⊎ (s.rv_group ≡ some g)
      → OwnSlots s h
      → OwnSlots
          (record s { rv_group = some g })
          (Hub.rendezvous_upsert t g s.egress s.conn_id c h).0
  own_accepted g c s h put own j e apart =
      rw (slot-rendezvous_upsert t g j s.egress e s.conn_id s.conn_id c h)
        (elim (Bool-cases (g == j && (s.egress == e))) [
          | inl both ↦ absurd (elim apart [
            | inl q ↦ q (ground (arith, both, eq_iff g j))
            | inr q ↦ q (ground (arith, both, eq_iff s.egress e))
          ])
          | inr other ↦ ground (arith, other, own j e (still g j e s put apart))
        ])

  own_advertise :
      (now : ℕ) (g did name : Text) (candidates : List Text) (networks : List LanCandidate)
      (s : Session) (h : Hub)
      → (s.rv_group ≡ none) ⊎ (s.rv_group ≡ some g)
      → OwnSlots s h
      → let r = handle_text t now (message (lan_advertise g did name candidates networks)) s h in
        OwnSlots r.session r.hub
  unfolding handle_text advertise
  own_advertise now g did name candidates networks s h put own = elim (Option-cases s.device_id) [
    | inl e ↦ rw (e, handle_text) own
    | inr (d, e) ↦ elim (Bool-cases (in_group s g)) [
      | inr out ↦ rw (e, handle_text) (rw out own)
      | inl member ↦ elim (Bool-cases (did == d)) [
        | inr other ↦ rw (e, handle_text) (rw member (rw other own))
        | inl same ↦
            rw (e, handle_text)
              (rw member (
                rw same
                  (own_accepted g (advertised_conn t s d name candidates networks) s h put own)))
      ]
    ]
  ]

  -- A message that does not advertise in another group than the last advertisement did keeps a
  -- connection's number to at most one slot of the hub, the one that closing empties.
  pub handle_text-OwnSlots :
      (now : ℕ) (m : Parsed) (s : Session) (h : Hub)
      → StaysPut s m
      → OwnSlots s h
      → let r = handle_text t now m s h in OwnSlots r.session r.hub
  unfolding handle_text
  handle_text-OwnSlots now (message (join g did)) s h put own = own_join now g did s h own
  handle_text-OwnSlots now (message (publish g ciphertext nonce ts)) s h put own =
      own_publish now g ciphertext nonce ts s h own
  handle_text-OwnSlots now (message (fetch_recent g)) s h put own = own_fetch now g s h own
  handle_text-OwnSlots now (message (lan_advertise g did name candidates networks)) s h put own =
      own_advertise now g did name candidates networks s h put own
  handle_text-OwnSlots now (malformed reason) s h put own = own

  advertise_accepted :
      (s : Session) (h : Hub) (g did name : Text) (candidates : List Text)
      (networks : List LanCandidate)
      → in_group s g ≡ true
      → let (h', pushed) =
          Hub.rendezvous_upsert t g s.egress s.conn_id
            (advertised_conn t s did name candidates networks)
            h in
        advertise t s h did g did name candidates networks
        ≡ stay (record s { rv_group = some g }) h' (pushes pushed)
  unfolding advertise
  advertise_accepted s h g did name candidates networks member = ground (arith, member, eq_refl did)

  -- A connection that advertised in group `a`, then joined another group `b` and advertised there,
  -- leaves its slot in `a` behind when it closes.
  pub finish_leaves_slot :
      (now later : ℕ) (a b did name : Text) (candidates : List Text) (networks : List LanCandidate)
      (s : Session) (h : Hub) (c : RvConn)
      → slot a s.egress s.conn_id h ≡ some c
      → a ≢ b
      → let r = handle_text t now (message (join b did)) s h in
        let q =
          handle_text t later
            (message (lan_advertise b did name candidates networks))
            r.session
            r.hub in
        slot a s.egress s.conn_id (finish t q.session q.hub).0 ≡ some c
  unfolding handle_text finish
  finish_leaves_slot now later a b did name candidates networks s h c here ne =
      let s' : Session = record s { rx = some b; device_id = some did; group = some b } in
      let h' = Hub.subscribe b h in
      let conn = advertised_conn t s' did name candidates networks in
      let e = advertise_accepted s' h' b did name candidates networks (in_own_group s' b refl) in
      let g' = Hub.rendezvous_upsert t b s.egress s.conn_id conn h' in
      rw e (
        slot-rendezvous_remove t b a s.egress s.egress s.conn_id s.conn_id g'.0
        ∙ (elsewhere_set a b (slot a s.egress s.conn_id g'.0) none
              (s.egress == s.egress && (s.conn_id == s.conn_id)) ne
            ∙ (slot-rendezvous_upsert t b a s.egress s.egress s.conn_id s.conn_id conn h'
                ∙ (elsewhere_set a b (slot a s.egress s.conn_id h') (some conn)
                      (s.egress == s.egress && (s.conn_id == s.conn_id)) ne
                    ∙ (slot-subscribe b a s.egress s.conn_id h ∙ here)))))
