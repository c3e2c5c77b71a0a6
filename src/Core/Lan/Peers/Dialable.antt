-- ===== src/Core/Lan/Peers/Dialable.antt =====
-- The addresses that a snapshot gives a host to dial.
use clip_bridge.Core.Net.{SocketAddr, socket_eq, is_unroutable}
use clip_bridge.Core.Protocol.{LanPeer}
use clip_bridge.Core.Lan.Peers.{
  LocalNetwork, PeerAddrEntry, insert_sorted, sort_by_key, dial_rank, sort_candidates_for_dial,
  is_local_interface_candidate, drop_local_interface_candidates, parse_candidates, dialable,
  desired_peers,
}
use clip_bridge.Prelude.{
  ℕ, ◌≡◌, inl, inr, true, false, not, ◌&&◌, Option, List, [], ◌∷◌, ◌++◌, arith, leb, ◌==◌, list_eq,
  nat_eq, option_eq, is_empty, All, All-append, All-map, retain, contains, Text, Bool-cases,
  Option-cases, retain_all, All-retain,
}

-- An address worth dialling: it can be routed to and is none of this host's.
pub IsDialable : List LocalNetwork → SocketAddr → Type 0
IsDialable local_networks a =
    (is_unroutable a.ip ≡ false) × (is_local_interface_candidate local_networks a ≡ false)

module _ (parse : Text → Option SocketAddr) where
  parse_candidates-routable :
      (texts : List Text) (cands : List SocketAddr)
      → All (λ a. is_unroutable a.ip ≡ false) cands
      → All (λ a. is_unroutable a.ip ≡ false) (parse_candidates parse texts cands)
  unfolding parse_candidates
  parse_candidates-routable [] cands all = all
  parse_candidates-routable (s ∷ texts) cands all = elim (Option-cases (parse s)) [
    | inl bad ↦ rw (bad, parse_candidates) (parse_candidates-routable texts cands all)
    | inr (sa, good) ↦ elim (Bool-cases (not (is_unroutable sa.ip) && not (contains cands sa))) [
      | inr skip ↦ rw (good, parse_candidates, skip) (parse_candidates-routable texts cands all)
      | inl take_it ↦
          rw (good, parse_candidates, take_it)
            (parse_candidates-routable texts (cands ++ sa ∷ []) (
              All-append (λ a. is_unroutable a.ip ≡ false) cands (sa ∷ []) all
                (ground (arith, take_it))))
    ]
  ]

insert_sorted-All {κ} :
    (P : SocketAddr → Type κ) (rank : SocketAddr → ℕ) (a : SocketAddr) (sorted : List SocketAddr)
    → P a
    → All P sorted
    → All P (insert_sorted rank a sorted)
unfolding insert_sorted
insert_sorted-All P rank a [] p all = (p, tt)
insert_sorted-All P rank a (b ∷ sorted) p all = elim (Bool-cases (leb (rank a) (rank b))) [
  | inl le ↦ rw le (p, all)
  | inr gt ↦ rw gt (all.0, insert_sorted-All P rank a sorted p all.1)
]

sort_by_key-All {κ} :
    (P : SocketAddr → Type κ) (rank : SocketAddr → ℕ) (cands : List SocketAddr)
    → All P cands
    → All P (sort_by_key rank cands)
unfolding sort_by_key
sort_by_key-All P rank [] all = tt
sort_by_key-All P rank (a ∷ cands) all =
    insert_sorted-All P rank a (sort_by_key rank cands) all.0 (sort_by_key-All P rank cands all.1)

All-both {κ} :
    (P Q : SocketAddr → Type κ) (cands : List SocketAddr)
    → All P cands
    → All Q cands
    → All (λ a. P a × Q a) cands
All-both P Q [] p q = tt
All-both P Q (a ∷ cands) p q = ((p.0, q.0), All-both P Q cands p.1 q.1)

pub dialable-IsDialable :
    (parse : Text → Option SocketAddr) (local_networks : List LocalNetwork) (texts : List Text)
    → All (IsDialable local_networks) (dialable parse local_networks texts)
unfolding dialable sort_candidates_for_dial drop_local_interface_candidates IsDialable
dialable-IsDialable parse local_networks texts =
    let cands = parse_candidates parse texts [] in
    let ours = is_local_interface_candidate local_networks in
    sort_by_key-All (IsDialable local_networks) (dial_rank local_networks)
      (retain (λ c. not (ours c)) cands)
      (All-both (λ a. is_unroutable a.ip ≡ false) (λ a. ours a ≡ false)
        (retain (λ c. not (ours c)) cands)
        (All-retain (λ a. is_unroutable a.ip ≡ false) (λ c. not (ours c)) cands
          (parse_candidates-routable parse texts [] tt))
        (All-map (λ c. not (ours c) ≡ true) (λ a. ours a ≡ false) (retain (λ c. not (ours c)) cands)
          (λ a h. ground (arith, h)) (retain_all (λ c. not (ours c)) cands)))

-- What a desired peer is: another device with addresses to dial.
unfoldable pub IsDesired : List LocalNetwork → Text → PeerAddrEntry → Type 0
IsDesired local_networks self d =
    ((d.device_id == self) ≡ false)
    × (is_empty d.candidates ≡ false)
    × All (IsDialable local_networks) d.candidates

pub desired_peers-IsDesired :
    (parse : Text → Option SocketAddr) (local_networks : List LocalNetwork) (self : Text)
    (peers : List LanPeer)
    → All (IsDesired local_networks self) (desired_peers parse local_networks self peers)
unfolding desired_peers IsDesired
desired_peers-IsDesired parse local_networks self [] = tt
desired_peers-IsDesired parse local_networks self (p ∷ peers) =
    let rest = desired_peers-IsDesired parse local_networks self peers in
    elim (Bool-cases (p.device_id == self)) [
      | inl own ↦ rw own rest
      | inr other ↦ elim (Bool-cases (is_empty (dialable parse local_networks p.candidates))) [
        | inl none_left ↦ rw (other, none_left) rest
        | inr some_left ↦
            rw (other, some_left)
              ((other, some_left, dialable-IsDialable parse local_networks p.candidates), rest)
      ]
    ]
