-- ===== src/Core/Net.antt =====
-- What the program uses of Rust's `std::net`: addresses as numbers of 32 and 128 bits, the tests on
-- address ranges (shared by core/src/lan.rs and relay/src/hub.rs), and the comparison of prefixes.
-- Parsing and printing a socket address are the standard library's and stay parameters.
use Prim.Native.Nat.{bit_and}
use clip_bridge.Prelude.{
  ℕ, ◌+◌, ◌-◌, ◌*◌, ◌/◌, ◌%◌, ◌^◌, ◌≡◌, ◌↔◌, refl, Bool, true, false, ◌&&◌, ◌||◌, Option, some,
  arith, leb, if◌then◌else◌, Eq, ◌==◌, eq_iff, eq_symm, list_eq, nat_eq, option_eq, Text,
}

pub data IpAddr : Type 0 where
  v4 : ℕ → IpAddr
  v6 : ℕ → IpAddr

unfoldable pub ip_beq : IpAddr → IpAddr → Bool
ip_beq (v4 a) (v4 b) = a == b
ip_beq (v6 a) (v6 b) = a == b
ip_beq _ _ = false

pub ip_beq_iff : (a b : IpAddr) → (ip_beq a b ≡ true) ↔ (a ≡ b)
unfolding ip_beq
ip_beq_iff (v4 a) (v4 b) = ground arith
ip_beq_iff (v4 a) (v6 b) = ground arith
ip_beq_iff (v6 a) (v4 b) = ground arith
ip_beq_iff (v6 a) (v6 b) = ground arith

instance abbrev pub ip_eq : Eq IpAddr
ip_eq = record { beq = ip_beq; beq_iff = ip_beq_iff }

pub record SocketAddr : Type 0 where
  pub ip : IpAddr
  pub port : ℕ

unfoldable pub socket_beq : SocketAddr → SocketAddr → Bool
socket_beq a b = a.ip == b.ip && a.port == b.port

pub socket_beq_iff : (a b : SocketAddr) → (socket_beq a b ≡ true) ↔ (a ≡ b)
unfolding socket_beq
socket_beq_iff a b = ground (arith, eq_iff a.ip b.ip, eq_iff a.port b.port)

instance abbrev pub socket_eq : Eq SocketAddr
socket_eq = record { beq = socket_beq; beq_iff = socket_beq_iff }

-- `str::parse::<SocketAddr>` and `to_string`.
pub record AddrText : Type 0 where
  pub parse : Text → Option SocketAddr
  pub to_string : SocketAddr → Text

-- Printing an address and reading it back gives the address.
abbrev pub ReadsBack : AddrText → Type 0
ReadsBack t = (a : SocketAddr) → t.parse (t.to_string a) ≡ some a

-- `Ipv4Addr::is_private`, `is_link_local`, from the octets of the number.
unfoldable pub is_private : ℕ → Bool
is_private a = a / 2 ^ 24 == 10 || (a / 2 ^ 20 == 172 * 16 + 1) || (a / 2 ^ 16 == 192 * 256 + 168)

unfoldable pub is_link_local : ℕ → Bool
is_link_local a = a / 2 ^ 16 == 169 * 256 + 254

-- `(v6.octets()[0] & 0xfe) == 0xfc`
unfoldable pub is_unique_local : ℕ → Bool
is_unique_local a = bit_and (a / 2 ^ 120) 0xfe == 0xfc

-- `is_advertisable_private` of core/src/lan.rs.
unfoldable pub is_advertisable_private : IpAddr → Bool
is_advertisable_private (v4 a) = is_private a || is_link_local a
is_advertisable_private (v6 a) = is_unique_local a

-- `fe80::/10`
unfoldable pub is_v6_link_local : ℕ → Bool
is_v6_link_local a = a / 2 ^ 120 == 0xfe && bit_and (a / 2 ^ 112 % 256) 0xc0 == 0x80

unfoldable pub is_unroutable : IpAddr → Bool
is_unroutable (v6 a) = is_v6_link_local a
is_unroutable (v4 a) = false

-- `MAX << (width - prefix_len)`, and no bit at all for prefix 0.
unfoldable pub prefix_mask : ℕ → ℕ → ℕ
prefix_mask width prefix_len =
    if prefix_len == 0 then 0 else ((2 ^ width - 1) * 2 ^ (width - prefix_len)) % 2 ^ width

-- `(target & mask) == (network & mask)`
unfoldable pub same_prefix : ℕ → ℕ → ℕ → Bool
same_prefix target network mask = bit_and target mask == bit_and network mask

-- `ip_in_prefix` of relay/src/hub.rs.
unfoldable pub ip_in_prefix : IpAddr → IpAddr → ℕ → Bool
ip_in_prefix (v4 target) (v4 network) prefix_len =
    leb prefix_len 32 && same_prefix target network (prefix_mask 32 prefix_len)
ip_in_prefix (v6 target) (v6 network) prefix_len =
    leb prefix_len 128 && same_prefix target network (prefix_mask 128 prefix_len)
ip_in_prefix _ _ prefix_len = false

-- `valid_prefix_len` of relay/src/hub.rs.
unfoldable pub valid_prefix_len : IpAddr → ℕ → Bool
valid_prefix_len (v4 a) prefix_len = leb prefix_len 32
valid_prefix_len (v6 a) prefix_len = leb prefix_len 128

-- Sharing a prefix does not depend on which of the two addresses is the network's.
pub ip_in_prefix_symm :
    (a b : IpAddr) (prefix_len : ℕ) → ip_in_prefix a b prefix_len ≡ ip_in_prefix b a prefix_len
unfolding ip_in_prefix same_prefix
ip_in_prefix_symm (v4 a) (v4 b) p = rw (eq_symm (bit_and a (prefix_mask 32 p)))
ip_in_prefix_symm (v4 a) (v6 b) p = refl
ip_in_prefix_symm (v6 a) (v4 b) p = refl
ip_in_prefix_symm (v6 a) (v6 b) p = rw (eq_symm (bit_and a (prefix_mask 128 p)))
