-- ===== src/Base/Pointer.antt =====
-- The bit tricks on pointers of threadscan.c, as arithmetic.
use Prim.Native.Nat.{ℕ, ◌+◌, ◌-◌, ◌/◌, ◌%◌, ◌^◌, ◌<◌, bit_and}
use mathlib.Core.Path.{◌≡◌}
use native.Mathlib.Omega.{arith}
use thread_scan.Base.Tests.{◌==◌, if◌then◌else◌}
use thread_scan.Base.Bits.{bit_and-low_mask, bit_and-digit}

-- `PTR_MASK(v)`: `~3` is sign-extended to 64 bits.
pub ptr_mask : ℕ → ℕ
ptr_mask v = bit_and v (2 ^ 64 - 4)

-- `v & 1`
pub low_bit : ℕ → ℕ
low_bit v = bit_and v 1

-- What `SET_LOW_BIT` leaves in the word.
pub with_low_bit : ℕ → ℕ
with_low_bit v = if low_bit v == 0 then v + 1 else v

pub low_bit-eq-mod : (v : ℕ) → low_bit v ≡ v % 2
unfolding low_bit
low_bit-eq-mod v = bit_and-low_mask 1 v

pub ptr_mask-eq-sub : (v : ℕ) → v < 2 ^ 64 → ptr_mask v ≡ v - v % 4
unfolding ptr_mask
ptr_mask-eq-sub v h = omega (
  arith,
  bit_and-digit v (2 ^ 64 - 4),
  bit_and-digit (v / 2) (2 ^ 63 - 2),
  bit_and-low_mask 62 (v / 2 / 2),
)

pub ptr_mask-aligned : (v : ℕ) → v < 2 ^ 64 → ptr_mask v % 4 ≡ 0
ptr_mask-aligned v h = omega (arith, ptr_mask-eq-sub v h)

pub with_low_bit-aligned : (v : ℕ) → v % 4 ≡ 0 → with_low_bit v ≡ v + 1
unfolding with_low_bit
with_low_bit-aligned v h = ground (arith, low_bit-eq-mod v)

pub with_low_bit-odd : (v : ℕ) → v % 2 ≡ 1 → with_low_bit v ≡ v
unfolding with_low_bit
with_low_bit-odd v h = ground (arith, low_bit-eq-mod v)
