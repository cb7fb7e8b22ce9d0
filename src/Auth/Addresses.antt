-- ===== src/Auth/Addresses.antt =====
-- src/auth/safe_fetch.rs: which resolved addresses the pod may contact. An octet is a number below
-- 2 ^ 8 and a segment one below 2 ^ 16; `x & mask` for a mask of the bits from `k` up is
-- `high_bits k x`.
pub mod Ranges
use quadpod.Prelude.{
  ℕ, ◌+◌, ◌*◌, ◌/◌, ◌%◌, Bool, true, false, not, ◌&&◌, ◌||◌, Option, none, some, List, [], ◌∷◌, any,
  is_empty, if◌then◌else◌, leb, ◌==◌, nat_eq, Text, codes, Result, ok, err,
}
use quadpod.Auth.{AuthError, fetch_blocked}

-- `std::net::Ipv4Addr`, by its octets.
pub record Ipv4Addr : Type 0 where
  pub a : ℕ
  pub b : ℕ
  pub c : ℕ
  pub d : ℕ

-- `std::net::Ipv6Addr`, by its segments.
pub record Ipv6Addr : Type 0 where
  pub s0 : ℕ
  pub s1 : ℕ
  pub s2 : ℕ
  pub s3 : ℕ
  pub s4 : ℕ
  pub s5 : ℕ
  pub s6 : ℕ
  pub s7 : ℕ

pub data IpAddr : Type 0 where
  v4 : Ipv4Addr → IpAddr
  v6 : Ipv6Addr → IpAddr

-- `is_loopback`, `is_unspecified`, `is_private` and `is_link_local` of the standard library.
abbrev pub is_loopback : Ipv4Addr → Bool
is_loopback ip = ip.a == 127

abbrev pub is_unspecified : Ipv4Addr → Bool
is_unspecified ip = ip.a == 0 && (ip.b == 0 && (ip.c == 0 && ip.d == 0))

abbrev pub is_private : Ipv4Addr → Bool
is_private ip =
    ip.a == 10 || ((ip.a == 172 && (leb 16 ip.b && leb ip.b 31)) || (ip.a == 192 && ip.b == 168))

abbrev pub is_link_local : Ipv4Addr → Bool
is_link_local ip = ip.a == 169 && ip.b == 254

-- `x & !(size - 1)` for a power of two.
abbrev pub high_bits : ℕ → ℕ → ℕ
high_bits size x = (x / size) * size

unfoldable pub is_cgnat : Ipv4Addr → Bool
is_cgnat ip = ip.a == 100 && high_bits 64 ip.b == 64

unfoldable pub is_unique_local : Ipv6Addr → Bool
is_unique_local ip = high_bits 512 ip.s0 == 64512

unfoldable pub is_link_local_v6 : Ipv6Addr → Bool
is_link_local_v6 ip = high_bits 64 ip.s0 == 65152

unfoldable pub is_forbidden_v4 : Ipv4Addr → Bool
is_forbidden_v4 ip =
    is_loopback ip || (is_unspecified ip || (is_private ip || (is_link_local ip || is_cgnat ip)))

abbrev pub leading_zeros : Ipv6Addr → Bool
leading_zeros ip = ip.s0 == 0 && (ip.s1 == 0 && (ip.s2 == 0 && (ip.s3 == 0 && ip.s4 == 0)))

-- The address that the last two segments hold; `as u8` keeps the low byte.
abbrev pub embedded : Ipv6Addr → Ipv4Addr
embedded ip = record {
  a = (ip.s6 / 256) % 256;
  b = ip.s6 % 256;
  c = (ip.s7 / 256) % 256;
  d = ip.s7 % 256;
}

abbrev pub to_ipv4_mapped : Ipv6Addr → Option Ipv4Addr
to_ipv4_mapped ip = if leading_zeros ip && ip.s5 == 65535 then some (embedded ip) else none

abbrev pub is_loopback_v6 : Ipv6Addr → Bool
is_loopback_v6 ip = leading_zeros ip && (ip.s5 == 0 && (ip.s6 == 0 && ip.s7 == 1))

abbrev pub is_unspecified_v6 : Ipv6Addr → Bool
is_unspecified_v6 ip = leading_zeros ip && (ip.s5 == 0 && (ip.s6 == 0 && ip.s7 == 0))

unfoldable pub is_forbidden_v6 : Ipv6Addr → Bool
is_forbidden_v6 ip = elim (to_ipv4_mapped ip) [
  | some mapped ↦ is_forbidden_v4 mapped
  | none ↦
      if (leading_zeros ip && ip.s5 == 0) && not (is_loopback_v6 ip || is_unspecified_v6 ip)
      then is_forbidden_v4 (embedded ip)
      else is_loopback_v6 ip
        || (is_unspecified_v6 ip || (is_unique_local ip || is_link_local_v6 ip))
]

unfoldable pub is_forbidden_ip : IpAddr → Bool
is_forbidden_ip (v4 ip) = is_forbidden_v4 ip
is_forbidden_ip (v6 ip) = is_forbidden_v6 ip

-- `SocketAddr`
abbrev pub SocketAddr : Type 0
SocketAddr = IpAddr × ℕ

abbrev pub resolved_to_nothing : AuthError
resolved_to_nothing = fetch_blocked (codes "host resolved to no addresses")

abbrev pub forbidden_target : AuthError
forbidden_target =
    fetch_blocked (codes "target resolves to a forbidden (private/loopback/link-local) IP")

unfoldable pub screen_addresses : List SocketAddr → Bool → Result AuthError (List SocketAddr)
screen_addresses resolved allow_private =
    if is_empty resolved
    then err resolved_to_nothing
    else if not allow_private && any (λ addr. is_forbidden_ip addr.0) resolved
    then err forbidden_target
    else ok resolved
