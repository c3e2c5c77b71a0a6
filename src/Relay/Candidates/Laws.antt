-- ===== src/Relay/Candidates/Laws.antt =====
-- The bounds that `sanitize_lan_advertise` puts on an advertisement, and what is forwarded of it.
use clip_bridge.Core.Net.{
  ip_in_prefix, SocketAddr, AddrText, is_advertisable_private, valid_prefix_len,
}
use clip_bridge.Core.Protocol.{LanCandidate, candidate_eq}
use mathlib.Core.List.{map-append}
use clip_bridge.Prelude.{
  some, eq_refl, append_assoc, contains-append, ◌∙◌, ◌==◌, eq_iff, any, ℕ, ◌≤◌, ◌<◌, ◌≡◌, inl, inr,
  refl, Bool, true, false, not, ◌&&◌, ◌||◌, List, [], ◌∷◌, ◌++◌, arith, leb, list_eq, nat_eq,
  option_eq, length, is_empty, drop, All, All-append, length-append, contains, Distinct, Text,
  Bool-cases, Option-cases, leb→gt, Distinct-append_one,
}
use clip_bridge.Relay.Candidates.{
  max_lan_candidates, accept_candidate, sanitize_candidates, addrs, accept_network,
  sanitize_networks, sanitize_lan_advertise, mutual_subnet, forward_candidate, forward_candidates,
  candidates_for_receiver,
}

forwarded_by_tests :
    (a b c : Bool) → (a && b && not c) ≡ true → (a ≡ true) × (b ≡ true) × (c ≡ false)
forwarded_by_tests a b c h = ground arith

module _ (t : AddrText) where
  -- A text that the relay may hand on: an address in private space, in its normal form.
  abbrev pub IsPrivateText : Text → Type 0
  IsPrivateText s = (a : SocketAddr) × (s ≡ t.to_string a) × (is_advertisable_private a.ip ≡ true)

  pub record IsSanitized (kept : List Text) : Type 0 where
    pub few : length kept ≤ max_lan_candidates
    pub distinct : Distinct kept
    pub private_space : All IsPrivateText kept

  accept_candidate-IsSanitized :
      (c : Text) (kept : List Text)
      → length kept < max_lan_candidates
      → IsSanitized kept
      → IsSanitized (accept_candidate t c kept)
  unfolding accept_candidate
  accept_candidate-IsSanitized c kept room h = elim (Option-cases (t.parse c)) [
    | inl e ↦ rw (e, accept_candidate) h
    | inr (a, e) ↦ elim (Bool-cases (is_advertisable_private a.ip)) [
      | inr public_space ↦ rw (e, accept_candidate) (rw public_space h)
      | inl private ↦ elim (Bool-cases (contains kept (t.to_string a))) [
        | inl seen ↦ rw (e, accept_candidate) (rw private (rw seen h))
        | inr new ↦
            rw (e, accept_candidate)
              (rw private (
                rw new (record {
                  few = omega (arith, length-append kept (t.to_string a ∷ []));
                  distinct = Distinct-append_one kept (t.to_string a) h.distinct new;
                  private_space =
                      All-append IsPrivateText kept (t.to_string a ∷ []) h.private_space
                        ((a, refl, private), tt);
                })))
      ]
    ]
  ]

  sanitize_candidates-IsSanitized :
      (cs kept : List Text) → IsSanitized kept → IsSanitized (sanitize_candidates t cs kept)
  unfolding sanitize_candidates
  sanitize_candidates-IsSanitized [] kept h = h
  sanitize_candidates-IsSanitized (c ∷ cs) kept h =
      elim (Bool-cases (leb max_lan_candidates (length kept))) [
        | inl full ↦ rw full h
        | inr room ↦ rw room (
            sanitize_candidates-IsSanitized cs (accept_candidate t c kept)
              (accept_candidate-IsSanitized c kept (leb→gt _ _ room) h))
      ]

  -- A network entry that the relay keeps names a kept candidate and has a prefix in range.
  abbrev pub IsKeptNetwork : List Text → LanCandidate → Type 0
  IsKeptNetwork accepted n =
      (contains accepted n.addr ≡ true)
      × ((a : SocketAddr) × (n.addr ≡ t.to_string a) × (valid_prefix_len a.ip n.prefix_len ≡ true))

  pub record IsSanitizedNetworks (accepted : List Text) (kept : List LanCandidate) : Type 0 where
    pub few : length kept ≤ max_lan_candidates
    pub distinct : Distinct (addrs kept)
    pub known : All (IsKeptNetwork accepted) kept

  -- What the three tests of the second loop let through.
  kept_by_tests :
      (accepted : List Text) (a : SocketAddr) (prefix : ℕ) (kept : List LanCandidate)
      → (not (contains accepted (t.to_string a))
          || not (valid_prefix_len a.ip prefix)
          || contains (addrs kept) (t.to_string a))
        ≡ false
      → (contains accepted (t.to_string a) ≡ true)
        × (valid_prefix_len a.ip prefix ≡ true)
        × (contains (addrs kept) (t.to_string a) ≡ false)
  kept_by_tests accepted a prefix kept h = ground arith

  accept_network-IsSanitizedNetworks :
      (accepted : List Text) (c : LanCandidate) (kept : List LanCandidate)
      → length kept < max_lan_candidates
      → IsSanitizedNetworks accepted kept
      → IsSanitizedNetworks accepted (accept_network t accepted c kept)
  unfolding accept_network
  accept_network-IsSanitizedNetworks accepted c kept room h = elim (Option-cases (t.parse c.addr)) [
    | inl e ↦ rw (e, accept_network) h
    | inr (a, e) ↦
        elim (Bool-cases (
          not (contains accepted (t.to_string a))
          || not (valid_prefix_len a.ip c.prefix_len)
          || contains (addrs kept) (t.to_string a))) [
            | inl drop ↦ rw (e, accept_network) (rw drop h)
            | inr keep ↦
                let n : LanCandidate = record { addr = t.to_string a; prefix_len = c.prefix_len } in
                let (known, valid, new) = kept_by_tests accepted a c.prefix_len kept keep in
                rw (e, accept_network)
                  (rw keep (record {
                    few = omega (arith, length-append kept (n ∷ []));
                    distinct =
                        rw (map-append (λ (x : LanCandidate). x.addr) kept (n ∷ []))
                          (Distinct-append_one (addrs kept) n.addr h.distinct new);
                    known =
                        All-append (IsKeptNetwork accepted) kept (n ∷ []) h.known
                          ((known, (a, refl, valid)), tt);
                  }))
          ]
  ]

  sanitize_networks-IsSanitizedNetworks :
      (accepted : List Text) (cs kept : List LanCandidate)
      → IsSanitizedNetworks accepted kept
      → IsSanitizedNetworks accepted (sanitize_networks t accepted cs kept)
  unfolding sanitize_networks
  sanitize_networks-IsSanitizedNetworks accepted [] kept h = h
  sanitize_networks-IsSanitizedNetworks accepted (c ∷ cs) kept h =
      elim (Bool-cases (leb max_lan_candidates (length kept))) [
        | inl full ↦ rw full h
        | inr room ↦ rw room (
            sanitize_networks-IsSanitizedNetworks accepted cs (accept_network t accepted c kept)
              (accept_network-IsSanitizedNetworks accepted c kept (leb→gt _ _ room) h))
      ]

  -- Whatever a client advertises, the relay keeps at most 32 candidates and 32 network entries of
  -- it, none twice; each candidate is a private address in normal form, and each network entry
  -- names a kept candidate and has a prefix length that its address family allows.
  pub sanitize_lan_advertise-IsSanitized :
      (candidates : List Text) (candidate_networks : List LanCandidate)
      → let (kept, networks) = sanitize_lan_advertise t candidates candidate_networks in
        IsSanitized kept × IsSanitizedNetworks kept networks
  unfolding sanitize_lan_advertise
  sanitize_lan_advertise-IsSanitized candidates candidate_networks = (
    sanitize_candidates-IsSanitized candidates []
        (record { few = omega arith; distinct = tt; private_space = tt }),
    sanitize_networks-IsSanitizedNetworks (sanitize_candidates t candidates []) candidate_networks
        [] (record { few = omega arith; distinct = tt; known = tt }),
  )

  -- Subnets are shared both ways or not at all.
  pub mutual_subnet_symm : (a b : LanCandidate) → mutual_subnet t a b ≡ mutual_subnet t b a
  unfolding mutual_subnet
  mutual_subnet_symm a b = elim (Option-cases (t.parse a.addr)) [
    | inl e ↦ elim (Option-cases (t.parse b.addr)) [
      | inl f ↦ ground (arith, e, f)
      | inr (y, f) ↦ ground (arith, e, f)
    ]
    | inr (x, e) ↦ elim (Option-cases (t.parse b.addr)) [
      | inl f ↦ ground (arith, e, f)
      | inr (y, f) ↦ ground (arith, e, f)
    ]
  ]

  -- Each of the two addresses is within the other's network, by the prefix that came with it.
  abbrev pub SharesSubnet : LanCandidate → LanCandidate → Type 0
  SharesSubnet own n =
      (a : SocketAddr) × (b : SocketAddr) × (t.parse own.addr ≡ some a)
      × (t.parse n.addr ≡ some b)
      × (ip_in_prefix b.ip a.ip own.prefix_len ≡ true)
      × (ip_in_prefix a.ip b.ip n.prefix_len ≡ true)

  mutual_subnet-SharesSubnet :
      (own n : LanCandidate) → mutual_subnet t own n ≡ true → SharesSubnet own n
  unfolding mutual_subnet
  mutual_subnet-SharesSubnet own n h = elim (Option-cases (t.parse own.addr)) [
    | inl e ↦ absurd (ground (arith, h, e))
    | inr (a, e) ↦ elim (Option-cases (t.parse n.addr)) [
      | inl f ↦ absurd (ground (arith, h, e, f))
      | inr (b, f) ↦ (a, b, e, f, ground (arith, h, e, f), ground (arith, h, e, f))
    ]
  ]

  shared_network :
      (n : LanCandidate) (rs : List LanCandidate)
      → any (λ own. mutual_subnet t own n) rs ≡ true
      → (own : LanCandidate) × (contains rs own ≡ true) × SharesSubnet own n
  unfolding any contains
  shared_network n [] h = absurd (ground (arith, h))
  shared_network n (r ∷ rs) h = elim (Bool-cases (mutual_subnet t r n)) [
    | inl this ↦ (r, ground (arith, eq_refl r), mutual_subnet-SharesSubnet r n this)
    | inr other ↦
        let (own, there, shares) = shared_network n rs (ground (arith, h, other)) in
        (own, ground (arith, there), shares)
  ]

  -- What a candidate must be for the relay to forward it: an address that the peer advertised, also
  -- with a network entry, which shares its subnet with a network of the receiver.
  abbrev pub IsForwarded : List LanCandidate → List Text → List LanCandidate → Text → Type 0
  IsForwarded receiver_networks peer_candidates peer_networks s =
      (contains peer_candidates s ≡ true)
      × ((n : LanCandidate) × (contains peer_networks n ≡ true)
          × (n.addr ≡ s)
          × ((own : LanCandidate) × (contains receiver_networks own ≡ true) × SharesSubnet own n))

  module _ (rs : List LanCandidate) (ps : List Text) (ns : List LanCandidate) where
    forward_candidates-IsForwarded :
        (seen cs : List LanCandidate) (out : List Text)
        → seen ++ cs ≡ ns
        → All (IsForwarded rs ps ns) out
        → Distinct out
        → All (IsForwarded rs ps ns) (forward_candidates t rs ps cs out)
          × Distinct (forward_candidates t rs ps cs out)
    unfolding forward_candidates forward_candidate contains
    forward_candidates-IsForwarded seen [] out whole h d = (h, d)
    forward_candidates-IsForwarded seen (c ∷ cs) out whole h d =
        let next : (seen ++ c ∷ []) ++ cs ≡ ns = append_assoc seen (c ∷ []) cs ∙ whole in
        let here : contains ns c ≡ true =
          rw (← whole) (ground (arith, contains-append seen (c ∷ cs) c, eq_refl c)) in
        elim (Bool-cases (
          contains ps c.addr
          && any (λ own. mutual_subnet t own c) rs
          && not (contains out c.addr))) [
            | inr drop ↦ rw drop (forward_candidates-IsForwarded (seen ++ c ∷ []) cs out next h d)
            | inl keep ↦
                let (known, shared, new) = forwarded_by_tests (contains ps c.addr) _ _ keep in
                rw keep (
                  forward_candidates-IsForwarded (seen ++ c ∷ []) cs (out ++ c.addr ∷ []) next
                    (All-append (IsForwarded rs ps ns) out (c.addr ∷ []) h
                      ((known, (c, here, refl, shared_network c rs shared)), tt))
                    (Distinct-append_one out c.addr d new))
          ]

    contains-forward_candidates :
        (s : Text) (cs : List LanCandidate) (out : List Text)
        → contains (forward_candidates t rs ps cs out) s ≡ (
            contains out s
            || any
                (λ n. n.addr == s && (contains ps n.addr && any (λ own. mutual_subnet t own n) rs))
                cs)
    unfolding forward_candidates forward_candidate contains any
    contains-forward_candidates s [] out = ground arith
    contains-forward_candidates s (c ∷ cs) out = ground (
      arith,
      contains-forward_candidates s cs (out ++ c.addr ∷ []),
      contains-forward_candidates s cs out,
      contains-append out (c.addr ∷ []) s,
      eq_iff c.addr s,
    )

  -- Where both ends sent network entries, each candidate that the relay forwards is one that the
  -- peer advertised, also with a network entry that shares its subnet, each by its own prefix, with
  -- a network of the receiver; every such candidate is forwarded, and none twice.
  pub candidates_for_receiver-IsForwarded :
      (receiver_networks : List LanCandidate) (peer_candidates : List Text)
      (peer_networks : List LanCandidate)
      → is_empty receiver_networks ≡ false
      → is_empty peer_networks ≡ false
      → let out = candidates_for_receiver t receiver_networks peer_candidates peer_networks in
        All (IsForwarded receiver_networks peer_candidates peer_networks) out
        × Distinct out
        × ((s : Text)
            → contains out s
              ≡ any
                  (λ n.
                    n.addr == s
                    && (contains peer_candidates n.addr
                        && any (λ own. mutual_subnet t own n) receiver_networks))
                  peer_networks)
  unfolding candidates_for_receiver contains
  candidates_for_receiver-IsForwarded rs ps ns hr hn =
      rw (hr, hn)
        (let (forwarded, once) = forward_candidates-IsForwarded rs ps ns [] ns [] refl tt tt in
          (forwarded, once, λ s. contains-forward_candidates rs ps ns s ns []))
