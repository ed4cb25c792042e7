-- ===== src/Reclaim/Round/Order.antt =====
-- After the sort the addresses are in the order that the search needs.
use thread_scan.Base.{
  ℕ, zero, suc, ◌+◌, ◌-◌, ◌%◌, ◌≤◌, ◌<◌, ◌≡◌, inl, inr, refl, ap, ◌∙◌, sym, List, [], ◌∷◌, arith,
  length, cell, segment, segment-agree, segment-add, count, count-append, dec_lt, ℕ_discrete,
}
use thread_scan.Sort.Rearranged.{Rearranged, IsSorted}
use thread_scan.Search.Marking.{IsTracked}

-- Aligned addresses, of which each but 0 stands once.
pub record ArePointers (xs : List ℕ) : Type 0 where
  pub aligned : (i : ℕ) → i < length xs → cell xs i % 4 ≡ 0
  pub once : (v : ℕ) → 0 < v → count v xs ≤ 1

cell-segment : (a : List ℕ) (i n j : ℕ) → j < n → cell (segment a i n) j ≡ cell a (i + j)
cell-segment a i zero j h = absurd (omega arith)
cell-segment a i (suc n) zero h = ap (cell a) (omega arith)
cell-segment a i (suc n) (suc j) h =
    cell-segment a (i + 1) n j (omega arith) ∙ ap (cell a) (omega arith)

count-segment_pos :
    (v : ℕ) (a : List ℕ) (i n j : ℕ)
    → i ≤ j
    → j < i + n
    → cell a j ≡ v
    → 0 < count v (segment a i n)
count-segment_pos v a i zero j l h e = absurd (omega arith)
count-segment_pos v a i (suc n) j l h e = elim (ℕ_discrete i j) [
  | yes here ↦ ground (arith, ap (cell a) here)
  | no later ↦ omega (arith, count-segment_pos v a (i + 1) n j (omega arith) (omega arith) e)
]

-- A word at two places counts twice.
count-segment_twice :
    (v : ℕ) (a : List ℕ) (i n j k : ℕ)
    → i ≤ j
    → j < k
    → k < i + n
    → cell a j ≡ v
    → cell a k ≡ v
    → 1 < count v (segment a i n)
count-segment_twice v a i zero j k l jk h e e' = absurd (omega arith)
count-segment_twice v a i (suc n) j k l jk h e e' = elim (ℕ_discrete i j) [
  | yes here ↦
      ground
        (arith, ap (cell a) here, count-segment_pos v a (i + 1) n k (omega arith) (omega arith) e')
  | no later ↦
      omega (arith, count-segment_twice v a (i + 1) n j k (omega arith) jk (omega arith) e e')
]

segment_all : (a : List ℕ) (i : ℕ) (x : ℕ) (n : ℕ) → segment (x ∷ a) (suc i) n ≡ segment a i n
segment_all a i x zero = refl
segment_all a i x (suc n) =
    ap (λ xs. cell a i ∷ xs)
      (ap (λ k. segment (x ∷ a) k n) {y = suc (i + 1)} (omega arith) ∙ segment_all a (i + 1) x n)

segment-length : (a : List ℕ) → segment a 0 (length a) ≡ a
segment-length [] = refl
segment-length (x ∷ a) = ap (λ xs. x ∷ xs) (segment_all a 0 x (length a) ∙ segment-length a)

count-split :
    (v n : ℕ) (a : List ℕ)
    → n ≤ length a
    → count v a ≡ count v (segment a 0 n) + count v (segment a n (length a - n))
count-split v n a h =
    ap (count v) (sym (segment-length a))
    ∙ (ap (λ k. count v (segment a 0 k)) {y = n + (length a - n)} (omega arith)
        ∙ (ap (count v) (segment-add a 0 n (length a - n))
            ∙ (count-append v (segment a 0 n) (segment a (0 + n) (length a - n))
                ∙ ap (λ k. count v (segment a 0 n) + count v (segment a k (length a - n)))
                    (omega arith))))

-- What only moves the first `n` words keeps their counts.
pub count-Rearranged :
    (v n : ℕ) (a b : List ℕ)
    → n ≤ length a
    → Rearranged 0 n a b
    → count v (segment b 0 n) ≡ count v (segment a 0 n)
count-Rearranged v n a b h r = omega (
  arith,
  r.same_length,
  r.same_count v,
  count-split v n a h,
  count-split v n b (omega (arith, r.same_length)),
  ap (count v) (segment-agree b a n (length b - n) (λ j p q. r.outside j (inr p))),
  ap (λ k. count v (segment a n (k - n))) r.same_length,
)

pub sorted-IsTracked :
    (n : ℕ) (a b xs : List ℕ)
    → 0 < n
    → n ≤ length a
    → length xs ≡ n
    → segment a 0 n ≡ xs
    → ArePointers xs
    → Rearranged 0 n a b
    → IsSorted 0 n b
    → IsTracked n b
sorted-IsTracked n a b xs pos fits len e ps r s = record {
  some_addr = pos;
  aligned = λ i h.
      let (k, lk, kn, e') = r.inside i (omega arith) h in
      omega (arith, e', here k kn, ps.aligned k (omega arith));
  ordered = λ i j ij h. elim (dec_lt (cell b i) (cell b j)) [
    | yes lt ↦ inl lt
    | no ge ↦ inr (same i j ij h (omega (arith, s i j (omega arith) ij h)))
  ];
}
  where
    here : (k : ℕ) → k < n → cell a k ≡ cell xs k
    here k h = ap (cell a) (omega arith) ∙ (sym (cell-segment a 0 n k h) ∙ ap (λ ys. cell ys k) e)

    counts : (v : ℕ) → count v (segment b 0 n) ≡ count v xs
    counts v = count-Rearranged v n a b fits r ∙ ap (count v) e

    same : (i j : ℕ) → i < j → j < n → cell b i ≡ cell b j → (cell b i ≡ 0) × (cell b j ≡ 0)
    same i j ij h eq = elim (ℕ_discrete (cell b i) 0) [
      | yes z ↦ (z, omega arith)
      | no ne ↦ absurd (
          omega (
            arith,
            counts (cell b i),
            ps.once (cell b i) (omega arith),
            count-segment_twice (cell b i) b 0 n i j (omega arith) ij (omega arith) refl (sym eq),
          ))
    ]
