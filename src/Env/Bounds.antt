-- ===== src/Env/Bounds.antt =====
-- The setting is a power of two within its bounds, and the working buffer fits it.
use thread_scan.Base.{
  ℕ, zero, suc, ◌+◌, ◌-◌, ◌*◌, ◌/◌, ◌%◌, ◌^◌, ◌≤◌, ◌<◌, ◌≡◌, refl, ap, ◌∙◌, Option, none, some,
  if◌then◌else◌, false, sym, ◌∙◌, ◌==◌, bit_or, arith, Bool, true, ◌||◌, dec_lt, inl, inr,
  Bool-cases, ℕ_discrete, ◌⊎◌,
}
use native.Mathlib.Nat.{pow-suc}
use thread_scan.Base.Bits.{bit_or-digit}
use thread_scan.Env.{
  get_int, shift_right, spread, round_up, clamp, env_init, round_to_page, register_layout,
}

le-bit_or : (n x y : ℕ) → x ≤ n → x ≤ bit_or x y
le-bit_or n zero y h = omega arith
le-bit_or zero (suc x) y h = absurd (omega arith)
le-bit_or (suc n) (suc x) y h =
    omega (arith, bit_or-digit (suc x) y, le-bit_or n (suc x / 2) (y / 2) (omega arith))

bit_or-lt : (k x y : ℕ) → x < 2 ^ k → y < 2 ^ k → bit_or x y < 2 ^ k
bit_or-lt zero x y h l =
    let e : x ≡ 0 = omega arith in let e' : y ≡ 0 = omega arith in rw (e, e') (omega arith)
bit_or-lt (suc k) x y h l = omega (
  arith,
  bit_or-digit x y,
  bit_or-lt k (x / 2) (y / 2) (omega (arith, pow-suc 2 k)) (omega (arith, pow-suc 2 k)),
  pow-suc 2 k,
)

-- Each step of the trick only adds bits of a 32-bit word.
spread_bounds :
    (k x : ℕ) → shift_right x k < 2 ^ 32 → x < 2 ^ 32 → (x ≤ spread k x) × (spread k x < 2 ^ 32)
unfolding spread
spread_bounds k x s h =
    (le-bit_or x x (shift_right x k) (omega arith), bit_or-lt 32 x (shift_right x k) h s)

spread_all :
    (x : ℕ)
    → x < 2 ^ 32
    → (y : ℕ) × (y ≡ spread 16 (spread 8 (spread 4 (spread 2 (spread 1 x)))))
      × (x ≤ y)
      × (y < 2 ^ 32)
spread_all x h =
    let a = spread_bounds 1 x (ground arith) h in
    let x1 : ℕ = spread 1 x in
    let b = spread_bounds 2 x1 (ground arith) a.1 in
    let x2 : ℕ = spread 2 x1 in
    let c = spread_bounds 4 x2 (ground arith) b.1 in
    let x3 : ℕ = spread 4 x2 in
    let d = spread_bounds 8 x3 (ground arith) c.1 in
    let x4 : ℕ = spread 8 x3 in
    let e = spread_bounds 16 x4 (ground arith) d.1 in (spread 16 x4, refl, omega arith, e.1)

-- The trick at the multiples of 1024 that are not clamped, by evaluation.
abbrev is_power : ℕ → Bool
is_power r = r == 1024 || r == 2048 || r == 4096 || r == 8192 || r == 16384 || r == 32768

-- Whether the multiples `(q + 1) * 1024`, `(q + 2) * 1024` and so on, `left` of them, are rounded to
-- powers.
rounds_up : ℕ → ℕ → Bool
rounds_up q zero = true
rounds_up q (suc left) =
    let rest = rounds_up (q + 1) left in
    if is_power (round_up ((q + 1) * 1024)) then rest else false

rounds_up-bad :
    (q left : ℕ) → is_power (round_up ((q + 1) * 1024)) ≡ false → rounds_up q (suc left) ≡ true → ⊥
unfolding rounds_up
rounds_up-bad q left bad h = absurd (ground (arith, bad, h))

rounds_up-good :
    (q left : ℕ)
    → is_power (round_up ((q + 1) * 1024)) ≡ true
    → rounds_up q (suc left) ≡ rounds_up (q + 1) left
unfolding rounds_up
rounds_up-good q left good = rw good refl

rounds_up_sound :
    (left q m : ℕ)
    → rounds_up q left ≡ true
    → q < m
    → m ≤ q + left
    → is_power (round_up (m * 1024)) ≡ true
unfolding rounds_up
rounds_up_sound zero q m h lo hi = absurd (omega arith)
rounds_up_sound (suc left) q m h lo hi = elim (Bool-cases (is_power (round_up ((q + 1) * 1024)))) [
  | inl good ↦ elim (ℕ_discrete m (q + 1)) [
    | yes here ↦ ap (λ (k : ℕ). is_power (round_up (k * 1024))) here ∙ good
    | no later ↦
        rounds_up_sound left (q + 1) m (sym (rounds_up-good q left good) ∙ h) (omega arith)
          (omega arith)
  ]
  | inr bad ↦ absurd (rounds_up-bad q left bad h)
]

round_up_table : rounds_up 0 32 ≡ true
unfolding rounds_up round_up spread
round_up_table = refl

round_up_power : (q : ℕ) → 0 < q → q ≤ 32 → is_power (round_up (q * 1024)) ≡ true
round_up_power q pos h = rounds_up_sound 32 0 q round_up_table pos h

-- A power of two from 2 ^ 10 to 2 ^ 15.
abbrev pub IsSetting : ℕ → Type 0
IsSetting r = (e : ℕ) × (10 ≤ e) × (e ≤ 15) × (r ≡ 2 ^ e)

IsSetting-of_power : (r : ℕ) → is_power r ≡ true → IsSetting r
IsSetting-of_power r h = elim (dec_lt r 2048) [
  | yes a ↦ (10, omega arith, omega arith, ground arith)
  | no a ↦ elim (dec_lt r 4096) [
    | yes b ↦ (11, omega arith, omega arith, ground arith)
    | no b ↦ elim (dec_lt r 8192) [
      | yes c ↦ (12, omega arith, omega arith, ground arith)
      | no c ↦ elim (dec_lt r 16384) [
        | yes d ↦ (13, omega arith, omega arith, ground arith)
        | no d ↦ elim (dec_lt r 32768) [
          | yes e ↦ (14, omega arith, omega arith, ground arith)
          | no e ↦ (15, omega arith, omega arith, ground arith)
        ]
      ]
    ]
  ]
]

clamp_power : (r : ℕ) → is_power r ≡ true → clamp r ≡ r
unfolding clamp
clamp_power r h = ground arith

-- Above the bound, the trick gives a larger number, or wraps to 0.
clamp_large : (r : ℕ) → r < 2 ^ 32 → (r ≡ 0) ⊎ (2 ^ 15 ≤ r) → is_power (clamp r) ≡ true
unfolding clamp
clamp_large r l (inl e) = rw e refl
clamp_large r l (inr h) = elim (dec_lt r (2 ^ 31)) [ yes a ↦ ground arith | no a ↦ ground arith ]

round_up_large : (p : ℕ) → 2 ^ 15 < p → p < 2 ^ 32 → (round_up p ≡ 0) ⊎ (2 ^ 15 ≤ round_up p)
unfolding round_up
round_up_large p lo hi =
    let x : ℕ = (p + 2 ^ 32 - 1) % 2 ^ 32 in
    let (y, e, le, lt) = spread_all x (omega arith) in
    elim (dec_lt (y + 1) (2 ^ 32)) [
      | yes a ↦ inr (rw (← e) (omega arith))
      | no a ↦ inl (rw (← e) (omega arith))
    ]

round_up-lt : (p : ℕ) → round_up p < 2 ^ 32
unfolding round_up
round_up-lt p = omega arith

clamp_zero : is_power (clamp (round_up 0)) ≡ true
unfolding clamp round_up spread
clamp_zero = refl

clamp-round_up : (q : ℕ) → q < 2 ^ 22 → is_power (clamp (round_up (q * 1024))) ≡ true
clamp-round_up q l = elim (dec_lt 32 q) [
  | yes large ↦
      clamp_large (round_up (q * 1024)) (round_up-lt (q * 1024))
        (round_up_large (q * 1024) (omega arith) (omega arith))
  | no small ↦ elim (dec_lt 0 q) [
    | yes pos ↦
        let h = round_up_power q pos (omega arith) in
        ap is_power (clamp_power (round_up (q * 1024)) h) ∙ h
    | no nil ↦ rw (zero_of q (omega arith)) clamp_zero
  ]
]
  where
    zero_of : (n : ℕ) → n ≤ 0 → n ≡ 0
    zero_of n h = omega arith

env_init_power : (val : Option ℕ) → is_power (env_init val) ≡ true
unfolding env_init get_int
env_init_power none = clamp-round_up 4 (omega arith)
env_init_power (some v) =
    let e : v * 1024 % 2 ^ 32 ≡ v % 2 ^ 22 * 1024 = omega arith in
    ap (λ (p : ℕ). is_power (clamp (round_up p))) e ∙ clamp-round_up (v % 2 ^ 22) (omega arith)

-- Whatever the variable holds, or when it is not set, `g_threadscan_ptrs_per_thread` is a power of two
-- from 1024 to 32768, although the product, the rounding trick and the comparisons are those of a
-- wrapping signed `int`.
pub env_init-IsSetting : (val : Option ℕ) → IsSetting (env_init val)
env_init-IsSetting val = IsSetting-of_power (env_init val) (env_init_power val)

power_multiple : (r : ℕ) → is_power r ≡ true → (k : ℕ) × (0 < k) × (k ≤ 32) × (r ≡ 1024 * k)
power_multiple r h = (r / 1024, ground arith, ground arith, ground arith)

-- The scan map of such a setting is whole pages without rounding.
scan_map_pages : (r : ℕ) → is_power r ≡ true → (register_layout r).scan_map_sz ≡ r * 8
unfolding register_layout round_to_page
scan_map_pages r h =
    let (k, pos, le, e) = power_multiple r h in
    let raw : 2 * (r * 256) * 8 * 8 / 0x1000 ≡ r * 8 = omega arith in
    let whole : (r * 8) % 0x1000 ≡ 0 = omega arith in rw (raw, whole) refl

-- Whatever the variable holds, the working buffer is whole pages, of a size that an `int` holds; the
-- scan map begins on a page behind room for two addresses per tracked pointer, and has a word for
-- each page of them.
pub register_layout_fits :
    (val : Option ℕ)
    → let l = register_layout (env_init val) in
      (l.working_buffer_sz % 0x1000 ≡ 0)
      × (l.working_buffer_sz < 2 ^ 31)
      × (l.scan_map_offset % 0x1000 ≡ 0)
      × (l.max_ptrs * 2 ≤ l.scan_map_offset / 8)
      × (l.scan_map_offset + l.scan_map_sz ≡ l.working_buffer_sz)
      × (l.max_ptrs * 2 ≤ l.scan_map_sz / 8 * 512)
unfolding register_layout
register_layout_fits val =
    let r : ℕ = env_init val in
    let (k, pos, le, e) = power_multiple r (env_init_power val) in
    let sz = scan_map_pages r (env_init_power val) in
    (omega arith, omega arith, omega arith, omega arith, omega arith, omega arith)
