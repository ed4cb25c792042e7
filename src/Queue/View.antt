-- ===== src/Queue/View.antt =====
-- The queue as the list of its elements, oldest first, and its invariant.
use thread_scan.Base.{
  ℕ, zero, suc, ◌+◌, ◌-◌, ◌%◌, ◌^◌, ◌≤◌, ◌<◌, ◌≡◌, refl, ap, ap₂, ◌∙◌, List, [], ◌∷◌, ◌++◌, arith,
  length, cell, set, cell-set, take, drop, sub64, dec_lt, segment,
}
use thread_scan.Base.Bits.{bit_and-low_mask, mod_advance, mod_wrap}
use thread_scan.Queue.{Queue, indexify, size}
use native.Mathlib.Nat.{one-le-pow, mod-lt}

-- The `n` elements from the absolute index `t` on.
abbrev pub window : List ℕ → ℕ → ℕ → ℕ → List ℕ
window e capacity t zero = []
window e capacity t (suc n) = cell e (t % capacity) ∷ window e capacity (t + 1) n

-- The absolute index of the oldest element.
abbrev pub first : Queue → ℕ
first q = q.idx_tail - q.capacity

abbrev pub contents : Queue → List ℕ
contents q = window q.e q.capacity (first q) (q.idx_head - first q)

-- The capacity is a power of two, the buffer holds it, and the indices are in order and in 64 bits:
-- at most `capacity - 1` elements wait.
pub record IsValid (q : Queue) : Type 0 where
  pub exponent : ℕ
  pub power : q.capacity ≡ 2 ^ exponent
  pub storage : q.capacity ≤ length q.e
  pub from_start : q.capacity ≤ q.idx_tail
  pub ordered : q.idx_tail ≤ q.idx_head + q.capacity
  pub head_below : q.idx_head < q.idx_tail
  pub in_word : q.idx_tail < 2 ^ 64

pub capacity_pos : {q : Queue} → IsValid q → 0 < q.capacity
capacity_pos v = omega (arith, v.power, one-le-pow v.exponent 2)

-- `INDEXIFY` is the remainder by the capacity.
pub indexify-eq-mod : {q : Queue} (i : ℕ) → IsValid q → indexify i q.capacity ≡ i % q.capacity
indexify-eq-mod {q} i v =
    let pos = one-le-pow v.exponent 2 (omega arith) in
    let mask : sub64 q.capacity 1 ≡ 2 ^ v.exponent - 1 =
      omega (arith, v.power, v.from_start, v.in_word) in
    rw mask (rw v.power (bit_and-low_mask v.exponent i))

-- The size that the code computes is the number of elements.
pub size-eq-length : {q : Queue} → IsValid q → size q ≡ q.idx_head - first q
size-eq-length v = omega arith

pub length-window : (e : List ℕ) (c t n : ℕ) → length (window e c t n) ≡ n
length-window e c t zero = refl
length-window e c t (suc n) = ap suc (length-window e c (t + 1) n)

pub length-contents : (q : Queue) → length (contents q) ≡ q.idx_head - first q
length-contents q = length-window q.e q.capacity (first q) (q.idx_head - first q)

-- A write at the index behind the window puts that word at its end.
pub window-set :
    (e : List ℕ) (c t n v i : ℕ)
    → c ≤ length e
    → n < c
    → i ≡ (t + n) % c
    → window (set e i v) c t (suc n) ≡ window e c t n ++ v ∷ []
window-set e c t zero v i fits h w =
    let in_e : i < length e = omega (arith, mod-lt (t + 0) {m = c} (omega arith)) in
    let here : i ≡ t % c = w ∙ ap (λ k. k % c) (omega arith) in
    ap (λ x. x ∷ []) (ground (arith, cell-set e i (t % c) v in_e, here))
window-set e c t (suc n) v i fits h w =
    let in_e : i < length e = omega (arith, mod-lt (t + suc n) {m = c} (omega arith)) in
    ap₂ ◌∷◌ (ground (arith, cell-set e i (t % c) v in_e, apart))
      (window-set e c (t + 1) n v i fits (omega arith) (w ∙ ap (λ k. k % c) (omega arith)))
  where
    apart : i ≡ t % c → ⊥
    apart same = elim (dec_lt (t % c + suc n) c) [
      | yes fit ↦ omega (arith, w, same, mod_advance t (suc n) c fit)
      | no over ↦
          omega
            (arith, w, same, mod_wrap t (suc n) c h (omega arith), mod-lt t {m = c} (omega arith))
    ]

pub take-window : (e : List ℕ) (c t n k : ℕ) → k ≤ n → take k (window e c t n) ≡ window e c t k
take-window e c t n zero h = refl
take-window e c t zero (suc k) h = absurd (omega arith)
take-window e c t (suc n) (suc k) h =
    ap (◌∷◌ (cell e (t % c))) (take-window e c (t + 1) n k (omega arith))

pub drop-window :
    (e : List ℕ) (c t n k : ℕ) → k ≤ n → drop k (window e c t n) ≡ window e c (t + k) (n - k)
drop-window e c t n zero h = ap₂ (λ (s m : ℕ). window e c s m) (omega arith) (omega arith)
drop-window e c t zero (suc k) h = absurd (omega arith)
drop-window e c t (suc n) (suc k) h =
    drop-window e c (t + 1) n k (omega arith)
    ∙ ap₂ (λ (s m : ℕ). window e c s m) (omega arith) (omega arith)

-- A segment that agrees with the buffer word by word is the window.
pub segment-eq-window :
    (a e : List ℕ) (i c t n : ℕ)
    → ((j : ℕ) → j < n → cell a (i + j) ≡ cell e ((t + j) % c))
    → segment a i n ≡ window e c t n
segment-eq-window a e i c t zero h = refl
segment-eq-window a e i c t (suc n) h =
    ap₂ ◌∷◌ first_word
      (segment-eq-window a e (i + 1) c (t + 1) n (λ j p. later j (h (suc j) (omega arith))))
  where
    first_word : cell a i ≡ cell e (t % c)
    first_word =
        ap (cell a) (omega arith) ∙ h 0 (omega arith) ∙ ap (λ k. cell e (k % c)) (omega arith)

    later :
        (j : ℕ)
        → cell a (i + suc j) ≡ cell e ((t + suc j) % c)
        → cell a (i + 1 + j) ≡ cell e ((t + 1 + j) % c)
    later j p = ap (cell a) (omega arith) ∙ p ∙ ap (λ k. cell e (k % c)) (omega arith)
