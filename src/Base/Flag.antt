-- ===== src/Base/Flag.antt =====
-- The highest bit of a word: `&` and `|` with a single bit above the others.
use Prim.Native.Nat.{ℕ, zero, suc, ◌+◌, ◌/◌, ◌^◌, ◌≤◌, ◌<◌, bit_and, bit_or}
use mathlib.Core.Path.{◌≡◌}
use native.Mathlib.Nat.{pow-suc}
use native.Mathlib.Omega.{arith}
use thread_scan.Base.Bits.{bit_and-digit, bit_or-digit, bit_and-zero}

bit_or-zero : (n a : ℕ) → a ≤ n → bit_or a 0 ≡ a
bit_or-zero n zero h = omega (arith, bit_or-digit 0 0)
bit_or-zero zero (suc a) h = absurd (omega arith)
bit_or-zero (suc n) (suc a) h =
    omega (arith, bit_or-digit (suc a) 0, bit_or-zero n (suc a / 2) (omega arith))

pub bit_and_flag_clear : (k x : ℕ) → x < 2 ^ k → bit_and x (2 ^ k) ≡ 0
bit_and_flag_clear zero x h = omega (arith, bit_and-digit x 1, bit_and-zero x (x / 2) (omega arith))
bit_and_flag_clear (suc k) x h = ground (
  arith,
  bit_and-digit x (2 ^ suc k),
  bit_and_flag_clear k (x / 2) (omega (arith, pow-suc 2 k)),
  pow-suc 2 k,
)

pub bit_and_flag_set : (k x : ℕ) → 2 ^ k ≤ x → x < 2 ^ suc k → bit_and x (2 ^ k) ≡ 2 ^ k
bit_and_flag_set zero x h l =
    omega (arith, bit_and-digit x 1, bit_and-zero (x / 2) (x / 2) (omega arith), pow-suc 2 0)
bit_and_flag_set (suc k) x h l = ground (
  arith,
  bit_and-digit x (2 ^ suc k),
  bit_and_flag_set k (x / 2) (omega (arith, pow-suc 2 k)) (omega (arith, pow-suc 2 (suc k))),
  pow-suc 2 k,
  pow-suc 2 (suc k),
)

pub bit_or_flag_clear : (k x : ℕ) → x < 2 ^ k → bit_or x (2 ^ k) ≡ x + 2 ^ k
bit_or_flag_clear zero x h =
    omega (arith, bit_or-digit x 1, bit_or-zero (x / 2) (x / 2) (omega arith), pow-suc 2 0)
bit_or_flag_clear (suc k) x h = ground (
  arith,
  bit_or-digit x (2 ^ suc k),
  bit_or_flag_clear k (x / 2) (omega (arith, pow-suc 2 k)),
  pow-suc 2 k,
  pow-suc 2 (suc k),
)

pub bit_or_flag_set : (k x : ℕ) → 2 ^ k ≤ x → x < 2 ^ suc k → bit_or x (2 ^ k) ≡ x
bit_or_flag_set zero x h l =
    omega (arith, bit_or-digit x 1, bit_or-zero (x / 2) (x / 2) (omega arith), pow-suc 2 0)
bit_or_flag_set (suc k) x h l = ground (
  arith,
  bit_or-digit x (2 ^ suc k),
  bit_or_flag_set k (x / 2) (omega (arith, pow-suc 2 k)) (omega (arith, pow-suc 2 (suc k))),
  pow-suc 2 k,
  pow-suc 2 (suc k),
)
