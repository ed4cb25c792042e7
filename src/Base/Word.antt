-- ===== src/Base/Word.antt =====
-- 64-bit unsigned arithmetic (`size_t`, `unsigned long long`) and memcpy of words.
use Prim.Native.Nat.{ℕ, zero, suc, ◌+◌, ◌-◌, ◌%◌, ◌^◌, ◌<◌, ◌≤◌}
use mathlib.Core.Path.{◌≡◌, refl}
use mathlib.Core.List.{List}
use mathlib.Core.Option.{Option, some}
use native.Mathlib.Omega.{arith}
use thread_scan.Base.Monad.{◌>>=◌}
use thread_scan.Base.Array.{
  length, set, get_elem?, store, cell, cell-set, length-set, get_elem?-eq-cell,
}

abbrev pub add64 : ℕ → ℕ → ℕ
add64 a b = (a + b) % 2 ^ 64

abbrev pub sub64 : ℕ → ℕ → ℕ
sub64 a b = (a + 2 ^ 64 - b) % 2 ^ 64

-- `memcpy(&dst[d], &src[s], n * sizeof(size_t))` between arrays that do not overlap.
unfoldable pub memcpy : List ℕ → ℕ → List ℕ → ℕ → ℕ → Option (List ℕ)
memcpy dst d src s zero = some dst
memcpy dst d src s (suc n) = do
  x ← get_elem? src s
  dst' ← store dst d x
  memcpy dst' (d + 1) src (s + 1) n

-- `out` is `dst` with `n` words of `src` from `s` on written from `d` on.
pub record IsCopied (dst : List ℕ) (d : ℕ) (src : List ℕ) (s n : ℕ) (out : List ℕ) : Type 0 where
  pub same_length : length out ≡ length dst
  pub inside : (j : ℕ) → j < n → cell out (d + j) ≡ cell src (s + j)
  pub before : (j : ℕ) → j < d → cell out j ≡ cell dst j
  pub after : (j : ℕ) → d + n ≤ j → cell out j ≡ cell dst j

pub memcpy-IsCopied :
    (dst : List ℕ) (d : ℕ) (src : List ℕ) (s n : ℕ)
    → d + n ≤ length dst
    → s + n ≤ length src
    → (out : List ℕ) × (memcpy dst d src s n ≡ some out) × IsCopied dst d src s n out
unfolding memcpy
memcpy-IsCopied dst d src s zero hd hs = (
  dst,
  refl,
  record {
    same_length = refl;
    inside = λ j h. absurd (omega arith);
    before = λ j h. refl;
    after = λ j h. refl;
  },
)
memcpy-IsCopied dst d src s (suc n) hd hs =
    let x : ℕ = cell src s in
    let (out, e, c) =
      memcpy-IsCopied (set dst d x) (d + 1) src (s + 1) n (omega (arith, length-set dst d x))
        (omega arith) in
    (
      out,
      ground (arith, get_elem?-eq-cell src s, e),
      record {
        same_length = omega (arith, c.same_length, length-set dst d x);
        inside = λ j h.
            elim j as (λ k. k < suc n → cell out (d + k) ≡ cell src (s + k)) [
              | zero ↦ λ h'. ground (arith, c.before d, cell-set dst d d x)
              | suc k ↦ λ h'. ground (arith, c.inside k)
            ]
              h;
        before = λ j h. ground (arith, c.before j, cell-set dst d j x);
        after = λ j h. ground (arith, c.after j, cell-set dst d j x);
      },
    )
