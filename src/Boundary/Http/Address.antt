-- ===== src/Boundary/Http/Address.antt =====
-- operation/http.rs: `is_dangerous_ipv4`, `is_dangerous_ipv6`, `validate_ip_safety`. An address is
-- its octets, or its segments of 16 bits.
use Prim.Native.Nat.{bit_and}
use project_black_monolith.Prelude.{
  ℕ, ◌/◌, ◌%◌, Bool, true, not, ◌&&◌, ◌||◌, [], ◌∷◌, refuse_if, ◌==◌, leb, if◌then◌else◌,
}
use project_black_monolith.Boundary.Error
use project_black_monolith.Boundary.Error.{BoundaryError, Checked, ssrf_blocked}

pub record Ipv4 : Type 0 where
  pub a : ℕ
  pub b : ℕ
  pub c : ℕ
  pub d : ℕ

pub record Ipv6 : Type 0 where
  pub s0 : ℕ
  pub s1 : ℕ
  pub s2 : ℕ
  pub s3 : ℕ
  pub s4 : ℕ
  pub s5 : ℕ
  pub s6 : ℕ
  pub s7 : ℕ

pub data IpAddr : Type 0 where
  v4 : Ipv4 → IpAddr
  v6 : Ipv6 → IpAddr

-- The classes of the standard library.
abbrev is_loopback : Ipv4 → Bool
is_loopback ip = ip.a == 127

abbrev is_link_local : Ipv4 → Bool
is_link_local ip = ip.a == 169 && ip.b == 254

abbrev is_broadcast : Ipv4 → Bool
is_broadcast ip = ip.a == 255 && ip.b == 255 && ip.c == 255 && ip.d == 255

abbrev is_private : Ipv4 → Bool
is_private ip =
    ip.a == 10 || (ip.a == 172 && leb 16 ip.b && leb ip.b 31) || (ip.a == 192 && ip.b == 168)

-- The last test is made only where private addresses are forbidden.
unfoldable pub is_dangerous_ipv4 : Bool → Ipv4 → Bool
is_dangerous_ipv4 allow_private_ips ip =
    if is_loopback ip || ip.a == 127
    then true
    else if ip.a == 0
    then true
    else if is_link_local ip || (ip.a == 169 && ip.b == 254)
    then true
    else if is_broadcast ip
    then true
    else if leb 224 ip.a && leb ip.a 239
    then true
    else if leb 240 ip.a
    then true
    else if (ip.a == 192 && ip.b == 0 && ip.c == 2)
        || (ip.a == 198 && ip.b == 51 && ip.c == 100)
        || (ip.a == 203 && ip.b == 0 && ip.c == 113)
    then true
    else if ip.a == 198 && bit_and ip.b 0xFE == 18
    then true
    else not allow_private_ips && (is_private ip || (ip.a == 100 && bit_and ip.b 0xC0 == 64))

abbrev pub high_zero : Ipv6 → Bool
high_zero ip = ip.s0 == 0 && ip.s1 == 0 && ip.s2 == 0 && ip.s3 == 0 && ip.s4 == 0

-- The last four octets of an address.
abbrev pub embedded : Ipv6 → Ipv4
embedded ip = record { a = ip.s6 / 256; b = ip.s6 % 256; c = ip.s7 / 256; d = ip.s7 % 256 }

-- `to_ipv4_mapped` answers where the first eighty bits are zero and the next sixteen are one.
unfoldable pub is_dangerous_ipv6 : Bool → Ipv6 → Bool
is_dangerous_ipv6 allow_private_ips ip =
    if high_zero ip && ip.s5 == 0 && ip.s6 == 0 && (ip.s7 == 1 || ip.s7 == 0)
    then true
    else if high_zero ip && ip.s5 == 0xFFFF
    then is_dangerous_ipv4 allow_private_ips (embedded ip)
    else if high_zero ip && ip.s5 == 0
    then is_dangerous_ipv4 allow_private_ips (embedded ip)
    else if bit_and ip.s0 0xFFC0 == 0xFE80
    then true
    else if bit_and ip.s0 0xFF00 == 0xFF00
    then true
    else if ip.s0 == 0xFD00 && ip.s1 == 0x0EC2
    then true
    else if not allow_private_ips && bit_and ip.s0 0xFE00 == 0xFC00
    then true
    else ip.s0 == 0x2001 && ip.s1 == 0x0DB8

unfoldable pub validate_ip_safety : Bool → IpAddr → Checked
unfolding is_dangerous_ipv4 is_dangerous_ipv6
validate_ip_safety allow_private_ips (v4 ip) =
    refuse_if (is_dangerous_ipv4 allow_private_ips ip)
      (ssrf_blocked (Error.blocked_ipv4 (ip.a ∷ ip.b ∷ ip.c ∷ ip.d ∷ [])))
validate_ip_safety allow_private_ips (v6 ip) = refuse_if (is_dangerous_ipv6 allow_private_ips ip) (
    ssrf_blocked
      (Error.blocked_ipv6 (ip.s0 ∷ ip.s1 ∷ ip.s2 ∷ ip.s3 ∷ ip.s4 ∷ ip.s5 ∷ ip.s6 ∷ ip.s7 ∷ [])))
