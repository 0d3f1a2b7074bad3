-- ===== src/Prelude/Words.antt =====
-- Masks of high bits on octets and on 16-bit words, by tables over all values; and the integers.
use Prim.Native.Nat.{ℕ, zero, suc, ◌*◌, ◌/◌, ◌<◌, bit_and}
use mathlib.Core.Path.{◌≡◌, refl}
use mathlib.Core.Bool.{Bool, true, false}
use native.Mathlib.Omega.{arith}
use project_black_monolith.Prelude.Tests.{◌==◌, if◌then◌else◌}

-- Below `n`, the mask keeps the multiple of `unit` and drops the rest.
keeps_multiples : (mask unit n : ℕ) → Bool
keeps_multiples mask unit zero = true
keeps_multiples mask unit (suc n) =
    let rest = keeps_multiples mask unit n in
    if bit_and n mask == n / unit * unit then rest else false

masked :
    (mask unit n : ℕ) (x : ℕ)
    → keeps_multiples mask unit n ≡ true
    → x < n
    → bit_and x mask ≡ x / unit * unit
unfolding keeps_multiples
masked mask unit zero x table small = absurd (omega arith)
masked mask unit (suc n) x table small = ground (arith, masked mask unit n x)

octet_fe : keeps_multiples 0xFE 2 256 ≡ true
unfolding keeps_multiples
octet_fe = refl

octet_c0 : keeps_multiples 0xC0 64 256 ≡ true
unfolding keeps_multiples
octet_c0 = refl

word_ffc0 : keeps_multiples 0xFFC0 64 65536 ≡ true
unfolding keeps_multiples
word_ffc0 = refl

word_ff00 : keeps_multiples 0xFF00 256 65536 ≡ true
unfolding keeps_multiples
word_ff00 = refl

word_fe00 : keeps_multiples 0xFE00 512 65536 ≡ true
unfolding keeps_multiples
word_fe00 = refl

pub and_fe : (x : ℕ) → x < 256 → bit_and x 0xFE ≡ x / 2 * 2
and_fe x h = masked 0xFE 2 256 x octet_fe h

pub and_c0 : (x : ℕ) → x < 256 → bit_and x 0xC0 ≡ x / 64 * 64
and_c0 x h = masked 0xC0 64 256 x octet_c0 h

pub and_ffc0 : (x : ℕ) → x < 65536 → bit_and x 0xFFC0 ≡ x / 64 * 64
and_ffc0 x h = masked 0xFFC0 64 65536 x word_ffc0 h

pub and_ff00 : (x : ℕ) → x < 65536 → bit_and x 0xFF00 ≡ x / 256 * 256
and_ff00 x h = masked 0xFF00 256 65536 x word_ff00 h

pub and_fe00 : (x : ℕ) → x < 65536 → bit_and x 0xFE00 ≡ x / 512 * 512
and_fe00 x h = masked 0xFE00 512 65536 x word_fe00 h

-- The integers, for values that may be negative
pub data ℤ : Type 0 where
  pos negsuc : ℕ → ℤ
