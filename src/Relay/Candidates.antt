-- ===== src/Relay/Candidates.antt =====
-- relay/src/hub.rs: what the relay keeps of the addresses that a client advertises
-- (`sanitize_lan_advertise`), and which of them it forwards (`candidates_for_receiver`).
pub mod Laws
use clip_bridge.Core.Net.{
  IpAddr, SocketAddr, AddrText, is_advertisable_private, ip_in_prefix, valid_prefix_len,
}
use clip_bridge.Core.Protocol.{LanCandidate}
use clip_bridge.Prelude.Assoc
use clip_bridge.Prelude.Assoc.{
  Assoc, IsMap, is_some, lookup-remove, lookup-insert, lookup-insert_self, remove-IsMap,
  insert-IsMap, All-remove, All-lookup, length-remove, remove_missing, length-remove_found,
}
use clip_bridge.Prelude.{
  ℕ, zero, suc, ◌+◌, ◌-◌, ◌*◌, ◌/◌, ◌%◌, ◌^◌, ◌≤◌, ◌<◌, ◌≡◌, ◌≢◌, ◌↔◌, ◌⊎◌, inl, inr, refl, sym, ap,
  subst, ◌∙◌, Bool, true, false, not, ◌&&◌, ◌||◌, Option, none, some, List, [], ◌∷◌, ◌++◌, map,
  append-nil, append_assoc, arith, ltb, leb, if◌then◌else◌, Eq, ◌==◌, eq_iff, eq_refl, ne-eq,
  eq_symm, list_eq, nat_eq, option_eq, length, is_empty, take, drop, All, All-append, All-map,
  length-append, retain, any, contains, Distinct, length-retain, retain-append, Text, codes,
  text_lt, starts_with, Bool-cases, Option-cases, ltb→lt, leb→le, leb→gt, le→leb, length-take,
  length-drop, take-append-drop, drop-all, contains-append, Distinct-append_one, retain_all,
  All-retain, nat_beq,
}

abbrev pub max_lan_candidates : ℕ
max_lan_candidates = 32

-- `is_relay_lan_candidate_ip`: the clients' test, written out a second time.
abbrev pub is_relay_lan_candidate_ip : IpAddr → Bool
is_relay_lan_candidate_ip = is_advertisable_private

abbrev pub addrs : List LanCandidate → List Text
addrs = map λ c. c.addr

module _ (t : AddrText) where
  -- The first loop: the candidate as it is kept, if it is.
  unfoldable pub accept_candidate : Text → List Text → List Text
  accept_candidate candidate kept = elim (t.parse candidate) [
    | none ↦ kept
    | some addr ↦
        if is_relay_lan_candidate_ip addr.ip
        then (let normalized = t.to_string addr in
            if contains kept normalized then kept else kept ++ normalized ∷ [])
        else kept
  ]

  -- `kept` is both the list that grows and the set of what was seen: they hold the same texts.
  unfoldable pub sanitize_candidates : List Text → List Text → List Text
  sanitize_candidates [] kept = kept
  sanitize_candidates (c ∷ cs) kept =
      let rest = sanitize_candidates cs (accept_candidate c kept) in
      if leb max_lan_candidates (length kept) then kept else rest

  -- The second loop. An address is marked as seen only where it is also kept, since the test for
  -- it is the last of the three.
  unfoldable pub accept_network : List Text → LanCandidate → List LanCandidate → List LanCandidate
  accept_network accepted candidate kept = elim (t.parse candidate.addr) [
    | none ↦ kept
    | some addr ↦
        let normalized = t.to_string addr in
        if not (contains accepted normalized)
          || not (valid_prefix_len addr.ip candidate.prefix_len)
          || contains (addrs kept) normalized
        then kept
        else kept ++ record { addr = normalized; prefix_len = candidate.prefix_len } ∷ []
  ]

  unfoldable pub sanitize_networks :
      List Text → List LanCandidate → List LanCandidate → List LanCandidate
  sanitize_networks accepted [] kept = kept
  sanitize_networks accepted (c ∷ cs) kept =
      let rest = sanitize_networks accepted cs (accept_network accepted c kept) in
      if leb max_lan_candidates (length kept) then kept else rest

  unfoldable pub sanitize_lan_advertise :
      List Text → List LanCandidate → List Text × List LanCandidate
  sanitize_lan_advertise candidates candidate_networks =
      let kept = sanitize_candidates candidates [] in
      (kept, sanitize_networks kept candidate_networks [])

  unfoldable pub mutual_subnet : LanCandidate → LanCandidate → Bool
  mutual_subnet a b = elim (t.parse a.addr) [
    | none ↦ false
    | some a_addr ↦ elim (t.parse b.addr) [
      | none ↦ false
      | some b_addr ↦
          ip_in_prefix b_addr.ip a_addr.ip a.prefix_len
          && ip_in_prefix a_addr.ip b_addr.ip b.prefix_len
    ]
  ]

  -- The body of the loop of `candidates_for_receiver`.
  unfoldable pub forward_candidate :
      List LanCandidate → List Text → LanCandidate → List Text → List Text
  forward_candidate receiver_networks peer_candidates candidate out =
      if contains peer_candidates candidate.addr
        && any (λ own. mutual_subnet own candidate) receiver_networks
        && not (contains out candidate.addr)
      then out ++ candidate.addr ∷ []
      else out

  unfoldable pub forward_candidates :
      List LanCandidate → List Text → List LanCandidate → List Text → List Text
  forward_candidates receiver_networks peer_candidates [] out = out
  forward_candidates receiver_networks peer_candidates (c ∷ cs) out =
      forward_candidates receiver_networks peer_candidates cs
        (forward_candidate receiver_networks peer_candidates c out)

  -- Takes the fields of the two connections that it reads.
  unfoldable pub candidates_for_receiver :
      List LanCandidate → List Text → List LanCandidate → List Text
  candidates_for_receiver receiver_networks peer_candidates peer_networks =
      if is_empty receiver_networks || is_empty peer_networks
      then peer_candidates
      else forward_candidates receiver_networks peer_candidates peer_networks []
