-- ===== src/Cleanup/Stamp.antt =====
-- What the timestamp macros do, as arithmetic.
use thread_scan.Base.{ℕ, ◌+◌, ◌%◌, ◌^◌, ◌≤◌, ◌<◌, ◌≡◌, arith, true, false, dec_lt, ap, bit_or}
use thread_scan.Base.Bits.{bit_and-low_mask}
use thread_scan.Base.Flag.{bit_and_flag_clear, bit_and_flag_set, bit_or_flag_clear, bit_or_flag_set}
use thread_scan.Cleanup.{timestamp, raise_flag, is_active, attempt}

pub timestamp-eq-mod : (x : ℕ) → timestamp x ≡ x % 2 ^ 63
unfolding timestamp
timestamp-eq-mod x = bit_and-low_mask 63 x

pub is_active-clear : (x : ℕ) → x < 2 ^ 63 → is_active x ≡ false
unfolding is_active
is_active-clear x h = ground (arith, bit_and_flag_clear 63 x h)

pub is_active-set : (x : ℕ) → 2 ^ 63 ≤ x → x < 2 ^ 64 → is_active x ≡ true
unfolding is_active
is_active-set x h l = ground (arith, bit_and_flag_set 63 x h l)

pub raise_flag_bounds : (x : ℕ) → x < 2 ^ 64 → (2 ^ 63 ≤ raise_flag x) × (raise_flag x < 2 ^ 64)
unfolding raise_flag
raise_flag_bounds x h = elim (dec_lt x (2 ^ 63)) [
  | yes clear ↦ omega (arith, bit_or_flag_clear 63 x clear)
  | no set ↦ omega (arith, bit_or_flag_set 63 x (omega arith) h)
]

pub is_active-raise_flag : (x : ℕ) → x < 2 ^ 64 → is_active (raise_flag x) ≡ true
is_active-raise_flag x h = let (l, u) = raise_flag_bounds x h in is_active-set (raise_flag x) l u

pub is_active-timestamp : (x : ℕ) → is_active (timestamp x) ≡ false
is_active-timestamp x = is_active-clear (timestamp x) (omega (arith, timestamp-eq-mod x))

pub is_active-attempt : (old : ℕ) → is_active (attempt old) ≡ true
unfolding attempt
is_active-attempt old = is_active-raise_flag ((old + 1) % 2 ^ 64) (omega arith)

pub timestamp-raise_flag : (x : ℕ) → x < 2 ^ 64 → timestamp (raise_flag x) ≡ timestamp x
unfolding raise_flag
timestamp-raise_flag x h = elim (dec_lt x (2 ^ 63)) [
  | yes clear ↦ omega (
    arith,
    bit_or_flag_clear 63 x clear,
    timestamp-eq-mod x,
    timestamp-eq-mod (bit_or x (2 ^ 63)),
  )
  | no set ↦ ap timestamp (bit_or_flag_set 63 x (omega arith) h)
]

pub timestamp-timestamp : (x : ℕ) → timestamp (timestamp x) ≡ timestamp x
timestamp-timestamp x = omega (arith, timestamp-eq-mod x, timestamp-eq-mod (timestamp x))

-- The timestamp that the lock is taken with.
pub timestamp-attempt :
    (old : ℕ)
    → old < 2 ^ 64
    → is_active old ≡ false
    → timestamp old + 1 < 2 ^ 63
    → timestamp (attempt old) ≡ timestamp old + 1
unfolding attempt
timestamp-attempt old h clear room =
    let low : old < 2 ^ 63 = elim (dec_lt old (2 ^ 63)) [
      | yes lt ↦ lt
      | no ge ↦ absurd (cc (clear, is_active-set old (omega arith) h))
    ] in
    omega (
      arith,
      timestamp-raise_flag ((old + 1) % 2 ^ 64) (omega arith),
      timestamp-eq-mod ((old + 1) % 2 ^ 64),
      timestamp-eq-mod old,
    )

pub attempt_in_word : (old : ℕ) → attempt old < 2 ^ 64
unfolding attempt
attempt_in_word old = (raise_flag_bounds ((old + 1) % 2 ^ 64) (omega arith)).1
