-- ===== src/Boundary/Http/Blocks6.antt =====
-- operation/http.rs: the IPv6 addresses that the adapter refuses, those that carry an IPv4 address
-- included.
use Prim.Native.Nat.{bit_and}
use project_black_monolith.Prelude.{
  ℕ, ◌+◌, ◌-◌, ◌*◌, ◌/◌, ◌^◌, ◌<◌, ◌≡◌, Bool, true, not, ◌&&◌, ◌||◌, List, [], ◌∷◌, arith, ◌==◌,
  if◌then◌else◌,
}
use project_black_monolith.Prelude.Words.{and_ffc0, and_ff00, and_fe00}
use project_black_monolith.Text.{any}
use project_black_monolith.Boundary.Http.Address.{
  Ipv4, Ipv6, is_dangerous_ipv4, is_dangerous_ipv6, high_zero, embedded,
}
use project_black_monolith.Boundary.Http.Blocks.{
  IsIpv4, in_block, always_blocked, private_blocks, is_dangerous_ipv4-blocks,
}

pub record IsIpv6 (ip : Ipv6) : Type 0 where
  pub s0 : ip.s0 < 65536
  pub s1 : ip.s1 < 65536
  pub s2 : ip.s2 < 65536
  pub s3 : ip.s3 < 65536
  pub s4 : ip.s4 < 65536
  pub s5 : ip.s5 < 65536
  pub s6 : ip.s6 < 65536
  pub s7 : ip.s7 < 65536

-- The address as a number of 128 bits.
abbrev pub value : Ipv6 → ℕ
value ip =
    ip.s7
    + 65536
      * (ip.s6
          + 65536
            * (ip.s5
                + 65536
                  * (ip.s4 + 65536 * (ip.s3 + 65536 * (ip.s2 + 65536 * (ip.s1 + 65536 * ip.s0))))))

-- The numbers whose first `length` bits are those of `base`.
pub record Block6 : Type 0 where
  pub base : ℕ
  pub length : ℕ

pub in_block6 : Ipv6 → Block6 → Bool
in_block6 ip k = value ip / 2 ^ (128 - k.length) == k.base / 2 ^ (128 - k.length)

-- a block that its first two segments begin
abbrev block6 : (s0 s1 length : ℕ) → Block6
block6 s0 s1 length = record { base = (s0 * 65536 + s1) * 2 ^ 96; length = length }

-- Link-local, multicast, cloud metadata, documentation.
abbrev pub always_blocked6 : List Block6
always_blocked6 =
    block6 0xFE80 0 10 ∷ block6 0xFF00 0 8 ∷ block6 0xFD00 0x0EC2 32 ∷ block6 0x2001 0x0DB8 32 ∷ []

-- Unique local addresses.
abbrev pub private_blocks6 : List Block6
private_blocks6 = block6 0xFC00 0 7 ∷ []

-- The addresses that stand for an IPv4 address: ::ffff:a.b.c.d and ::a.b.c.d.
abbrev pub carriers : List Block6
carriers = record { base = 0xFFFF * 2 ^ 32; length = 96 } ∷ record { base = 0; length = 96 } ∷ []

module _ (ip : Ipv6) (r : IsIpv6 ip) where
  mapped :
      in_block6 ip (record { base = 0xFFFF * 2 ^ 32; length = 96 })
      ≡ high_zero ip && ip.s5 == 0xFFFF
  unfolding in_block6
  mapped = ground arith

  compatible : in_block6 ip (record { base = 0; length = 96 }) ≡ high_zero ip && ip.s5 == 0
  unfolding in_block6
  compatible = ground arith

  first_two :
      (j k : ℕ) → j < 65536 → k < 65536 → in_block6 ip (block6 j k 32) ≡ (ip.s0 == j && ip.s1 == k)
  unfolding in_block6
  first_two j k h h' = ground arith

  link_local : in_block6 ip (block6 0xFE80 0 10) ≡ (bit_and ip.s0 0xFFC0 == 0xFE80)
  unfolding in_block6
  link_local = rw (and_ffc0 ip.s0 r.s0) (ground arith)

  multicast : in_block6 ip (block6 0xFF00 0 8) ≡ (bit_and ip.s0 0xFF00 == 0xFF00)
  unfolding in_block6
  multicast = rw (and_ff00 ip.s0 r.s0) (ground arith)

  unique_local : in_block6 ip (block6 0xFC00 0 7) ≡ (bit_and ip.s0 0xFE00 == 0xFC00)
  unfolding in_block6
  unique_local = rw (and_fe00 ip.s0 r.s0) (ground arith)

  embedded-IsIpv4 : IsIpv4 (embedded ip)
  embedded-IsIpv4 = omega (arith, r.s6, r.s7)

  this_network : (allow : Bool) (ip4 : Ipv4) → ip4.a ≡ 0 → is_dangerous_ipv4 allow ip4 ≡ true
  unfolding is_dangerous_ipv4
  this_network allow ip4 h = ground arith

  ladder :
      (allow : Bool)
      → is_dangerous_ipv6 allow ip ≡ (
          if any (in_block6 ip) carriers
          then is_dangerous_ipv4 allow (embedded ip)
          else any (in_block6 ip) always_blocked6
            || (not allow && any (in_block6 ip) private_blocks6))
  unfolding is_dangerous_ipv6 any
  ladder allow =
      rw
        (
          mapped,
          compatible,
          link_local,
          multicast,
          first_two 0xFD00 0x0EC2 (omega arith) (omega arith),
          first_two 0x2001 0x0DB8 (omega arith) (omega arith),
          unique_local,
        )
        (ground (arith, this_network allow (embedded ip)))

  -- For every IPv6 address with segments below 65,536: if it carries an IPv4 address, it is refused
  -- exactly if that lies in an IPv4 block, and else exactly if it lies in an IPv6 block; where private
  -- addresses are allowed, only the blocks that are always blocked count.
  pub is_dangerous_ipv6-blocks :
      (allow_private_ips : Bool)
      → is_dangerous_ipv6 allow_private_ips ip ≡ (
          if any (in_block6 ip) carriers
          then any (in_block (embedded ip)) always_blocked
            || (not allow_private_ips && any (in_block (embedded ip)) private_blocks)
          else any (in_block6 ip) always_blocked6
            || (not allow_private_ips && any (in_block6 ip) private_blocks6))
  is_dangerous_ipv6-blocks allow =
      rw (← is_dangerous_ipv4-blocks (embedded ip) embedded-IsIpv4 allow) (ladder allow)
