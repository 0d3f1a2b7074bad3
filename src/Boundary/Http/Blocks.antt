-- ===== src/Boundary/Http/Blocks.antt =====
-- operation/http.rs: the addresses that the adapter refuses are those of a table of blocks.
use Prim.Native.Nat.{bit_and}
use project_black_monolith.Prelude.{
  ℕ, ◌+◌, ◌-◌, ◌*◌, ◌/◌, ◌^◌, ◌<◌, ◌≡◌, Bool, not, ◌&&◌, ◌||◌, List, [], ◌∷◌, arith, ◌==◌, leb,
}
use project_black_monolith.Prelude.Words.{and_fe, and_c0}
use project_black_monolith.Text.{any}
use project_black_monolith.Boundary.Http.Address.{Ipv4, is_dangerous_ipv4}

-- Octets and segments in range
pub record IsIpv4 (ip : Ipv4) : Type 0 where
  pub a : ip.a < 256
  pub b : ip.b < 256
  pub c : ip.c < 256
  pub d : ip.d < 256

abbrev pub value : Ipv4 → ℕ
value ip = ((ip.a * 256 + ip.b) * 256 + ip.c) * 256 + ip.d

-- A block in the notation a.b.c.d/length: the addresses with the same first bits.
pub record Block : Type 0 where
  pub base : Ipv4
  pub length : ℕ

abbrev block : (a b c d length : ℕ) → Block
block a b c d length = record { base = record { a = a; b = b; c = c; d = d }; length = length }

pub in_block : Ipv4 → Block → Bool
in_block ip k = value ip / 2 ^ (32 - k.length) == value k.base / 2 ^ (32 - k.length)

-- Loopback, this network, link-local, multicast, reserved, documentation, benchmarking.
abbrev pub always_blocked : List Block
always_blocked =
    block 127 0 0 0 8
    ∷ block 0 0 0 0 8
    ∷ block 169 254 0 0 16
    ∷ block 224 0 0 0 4
    ∷ block 240 0 0 0 4
    ∷ block 192 0 2 0 24
    ∷ block 198 51 100 0 24
    ∷ block 203 0 113 0 24
    ∷ block 198 18 0 0 15
    ∷ []

-- RFC 1918 and carrier-grade NAT.
abbrev pub private_blocks : List Block
private_blocks =
    block 10 0 0 0 8 ∷ block 172 16 0 0 12 ∷ block 192 168 0 0 16 ∷ block 100 64 0 0 10 ∷ []

module _ (ip : Ipv4) (r : IsIpv4 ip) where
  block_8 : (k : ℕ) → k < 256 → in_block ip (block k 0 0 0 8) ≡ (ip.a == k)
  unfolding in_block
  block_8 k h = ground arith

  block_16 :
      (j k : ℕ) → j < 256 → k < 256 → in_block ip (block j k 0 0 16) ≡ (ip.a == j && ip.b == k)
  unfolding in_block
  block_16 j k h h' = ground arith

  block_24 :
      (i j k : ℕ)
      → i < 256
      → j < 256
      → k < 256
      → in_block ip (block i j k 0 24) ≡ (ip.a == i && ip.b == j && ip.c == k)
  unfolding in_block
  block_24 i j k h h' h'' = ground arith

  multicast : in_block ip (block 224 0 0 0 4) ≡ leb 224 ip.a && leb ip.a 239
  unfolding in_block
  multicast = ground arith

  reserved : in_block ip (block 240 0 0 0 4) ≡ leb 240 ip.a
  unfolding in_block
  reserved = ground arith

  -- The masks of the source, as tests of whole octets.
  benchmarking : in_block ip (block 198 18 0 0 15) ≡ (ip.a == 198 && bit_and ip.b 0xFE == 18)
  unfolding in_block
  benchmarking = rw (and_fe ip.b r.b) (ground arith)

  shared : in_block ip (block 100 64 0 0 10) ≡ (ip.a == 100 && bit_and ip.b 0xC0 == 64)
  unfolding in_block
  shared = rw (and_c0 ip.b r.b) (ground arith)

  private_12 : in_block ip (block 172 16 0 0 12) ≡ (ip.a == 172 && leb 16 ip.b && leb ip.b 31)
  unfolding in_block
  private_12 = ground arith

  -- For every IPv4 address with octets below 256: it is refused exactly if it lies in one of the
  -- blocks; where private addresses are allowed, only those that are always blocked count.
  pub is_dangerous_ipv4-blocks :
      (allow_private_ips : Bool)
      → is_dangerous_ipv4 allow_private_ips ip
        ≡ any (in_block ip) always_blocked
          || (not allow_private_ips && any (in_block ip) private_blocks)
  unfolding is_dangerous_ipv4 any
  is_dangerous_ipv4-blocks allow_private_ips =
      rw
        (
          block_8 127 (omega arith),
          block_8 0 (omega arith),
          block_16 169 254 (omega arith) (omega arith),
          multicast,
          reserved,
          block_24 192 0 2 (omega arith) (omega arith) (omega arith),
          block_24 198 51 100 (omega arith) (omega arith) (omega arith),
          block_24 203 0 113 (omega arith) (omega arith) (omega arith),
          benchmarking,
          block_8 10 (omega arith),
          private_12,
          block_16 192 168 (omega arith) (omega arith),
          shared,
        )
        (ground arith)
