-- ===== src/Core/Lan/Interfaces.antt =====
-- The interfaces of this host that core/src/lan.rs advertises. Listing them (`if_addrs`) and
-- printing an address are parameters.
use clip_bridge.Core.Net.{IpAddr, SocketAddr, is_advertisable_private}
use clip_bridge.Core.Protocol.{LanCandidate}
use clip_bridge.Core.Lan.Peers.{LocalNetwork}
use clip_bridge.Prelude.{
  ℕ, Bool, Option, none, some, List, [], ◌∷◌, ◌++◌, map, if◌then◌else◌, list_eq, nat_eq, option_eq,
  contains, Text,
}

-- `if_addrs::Interface`
pub record Interface : Type 0 where
  pub is_loopback : Bool
  pub ip : IpAddr
  pub netmask : IpAddr
  pub prefix_len : ℕ

-- The loop over the interfaces.
unfoldable pub private_networks : List Interface → List LocalNetwork → List LocalNetwork
private_networks [] out = out
private_networks (iface ∷ ifaces) out = private_networks ifaces (
    if iface.is_loopback
    then out
    else if is_advertisable_private iface.ip
    then out
      ++ record { ip = iface.ip; netmask = iface.netmask; prefix_len = iface.prefix_len } ∷ []
    else out)

-- `none` is that the interfaces cannot be listed.
unfoldable pub local_private_networks : Option (List Interface) → List LocalNetwork
local_private_networks none = []
local_private_networks (some ifaces) = private_networks ifaces []

-- The loop over the networks, with the texts of `out` in the candidates.
unfoldable pub candidate_loop :
    (SocketAddr → Text) → ℕ → List LocalNetwork → List LanCandidate → List LanCandidate
candidate_loop to_string port [] candidates = candidates
candidate_loop to_string port (local ∷ networks) candidates =
    let s = to_string (record { ip = local.ip; port = port }) in
    candidate_loop to_string port networks (
      if contains (map (λ c. c.addr) candidates) s
      then candidates
      else candidates ++ record { addr = s; prefix_len = local.prefix_len } ∷ [])

unfoldable pub local_private_candidate_networks :
    (SocketAddr → Text) → Option (List Interface) → ℕ → List LanCandidate
local_private_candidate_networks to_string ifaces port =
    candidate_loop to_string port (local_private_networks ifaces) []
