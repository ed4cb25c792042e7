-- ===== src/Sort/Quick.antt =====
-- `quicksort` and `threadscan_util_sort` return, without a read out of range, and sort.
use thread_scan.Base.{
  ℕ, zero, suc, ◌+◌, ◌-◌, ◌≤◌, ◌<◌, ◌≡◌, inl, inr, refl, List, Option, some, arith, length, cell,
  ltb, true, false, Bool-cases, ltb→lt, dec_lt, ap, ℕ_discrete,
}
use native.Mathlib.Nat.{mod-lt}
use thread_scan.Sort.{
  sort_threshold, partition, insertion_sort, quicksort, util_sort, shuffle_target, shuffle_round,
  shuffle_loop, util_randomize,
}
use thread_scan.Sort.Rearranged.{
  Rearranged, Rearranged-refl, Rearranged-trans, Rearranged-widen, IsSorted, swapped,
  swap-eq-swapped, swapped-Rearranged,
}
use thread_scan.Sort.Partition.{Partitioned, partition-Partitioned}
use thread_scan.Sort.Insertion.{Sorts, IsAbove, Rearranged-IsAbove, insertion_sort-Sorts}

-- Both sides of the pivot sorted, the range is.
join-IsSorted :
    (lo mid hi : ℕ) (a : List ℕ)
    → lo ≤ mid
    → mid < hi
    → IsSorted lo mid a
    → IsSorted (mid + 1) hi a
    → ((j : ℕ) → lo ≤ j → j < mid → cell a j ≤ cell a mid)
    → ((j : ℕ) → mid < j → j < hi → cell a mid ≤ cell a j)
    → IsSorted lo hi a
join-IsSorted lo mid hi a l h below above b c i j li ij jh =
    ground (arith, below i j, above i j, b i, c j)

-- `quicksort(addrs, min, mid - 1)`, with nothing to do at `mid = 0`.
lower_half : ℕ → ℕ → ℕ → List ℕ → Option (List ℕ)
lower_half fuel min mid split = elim mid [
  | zero ↦ some split
  | suc below ↦ quicksort fuel split min below
]

quicksort_splits :
    (fuel min max mid : ℕ) (a split lower : List ℕ) {result : Option (List ℕ)}
    → ltb sort_threshold (max - min) ≡ true
    → partition a min max ≡ some (mid, split)
    → lower_half fuel min mid split ≡ some lower
    → quicksort fuel lower (mid + 1) max ≡ result
    → quicksort (suc fuel) a min max ≡ result
unfolding quicksort lower_half
quicksort_splits fuel min max mid a split lower big p l u = rw (big, quicksort) (rw p (rw l u))

quicksort_small :
    (fuel min max : ℕ) (a : List ℕ)
    → ltb sort_threshold (max - min) ≡ false
    → quicksort (suc fuel) a min max ≡ insertion_sort a min max
unfolding quicksort
quicksort_small fuel min max a e = rw (e, quicksort)

module _ (fuel min max : ℕ) (a : List ℕ) where
  -- The two recursive calls sort what `partition` has split.
  sorted_halves :
      max - min ≤ suc fuel
      → min ≤ max
      → max < length a
      → IsAbove min (suc max) a
      → (p : Partitioned min max a (partition a min max))
      → (lower : Sorts min p.mid p.out (lower_half fuel min p.mid p.out))
      → Sorts (p.mid + 1) (suc max) lower.out (quicksort fuel lower.out (p.mid + 1) max)
      → ltb sort_threshold (max - min) ≡ true
      → Sorts min (suc max) a (quicksort (suc fuel) a min max)
  sorted_halves enough le fits above p lower upper big = record {
    out = upper.out;
    returns =
        quicksort_splits fuel min max p.mid a p.out lower.out big p.returns lower.returns
          upper.returns;
    rearranged = Rearranged-trans p.rearranged (
        Rearranged-trans (Rearranged-widen (omega arith) (omega (arith, p.to_max)) lower.rearranged)
          (Rearranged-widen (omega (arith, p.from_min)) (omega arith) upper.rearranged));
    sorted =
        join-IsSorted min p.mid (suc max) upper.out p.from_min (omega (arith, p.to_max))
          (λ i j li ij jh. omega (
            arith,
            lower.sorted i j li ij jh,
            upper.rearranged.outside i (inl (omega arith)),
            upper.rearranged.outside j (inl (omega arith)),
          ))
          upper.sorted
          (λ j lj jm.
            let (k, lk, km, e) = lower.rearranged.inside j lj jm in
            omega (
              arith,
              e,
              p.below k lk km,
              upper.rearranged.outside j (inl (omega arith)),
              upper.rearranged.outside p.mid (inl (omega arith)),
              lower.rearranged.outside p.mid (inr (omega arith)),
            ))
          (λ j mj jh.
            let (k, lk, km, e) = upper.rearranged.inside j (omega arith) jh in
            omega (
              arith,
              e,
              p.above k (omega arith) (omega arith),
              upper.rearranged.outside p.mid (inl (omega arith)),
              lower.rearranged.outside p.mid (inr (omega arith)),
              lower.rearranged.outside k (inr (omega arith)),
            ));
  }

-- The words before the pivot are not larger than those behind it.
IsAbove-upper :
    (min mid max : ℕ) (a b : List ℕ)
    → min ≤ mid
    → mid ≤ max
    → IsAbove min (suc max) a
    → Rearranged min mid a b
    → ((j : ℕ) → min ≤ j → j < mid → cell a j ≤ cell a mid)
    → ((j : ℕ) → mid < j → j ≤ max → cell a mid < cell a j)
    → IsAbove (mid + 1) (suc max) b
IsAbove-upper min mid max a b l h above r below over k j p q s = elim (dec_lt k min) [
  | yes out ↦
      omega (
        arith,
        above k j out (omega arith) s,
        r.outside k (inl out),
        r.outside j (inr (omega arith)),
      )
  | no into ↦ elim (dec_lt k mid) [
    | yes left ↦
        let (i, li, im, e) = r.inside k (omega arith) left in
        omega (
          arith,
          e,
          below i li im,
          over j (omega arith) (omega arith),
          r.outside j (inr (omega arith)),
        )
    | no at_mid ↦
        let same : k ≡ mid = omega arith in
        omega (
          arith,
          ap (cell b) same,
          over j (omega arith) (omega arith),
          r.outside j (inr (omega arith)),
          r.outside mid (inr (omega arith)),
        )
  ]
]

lower_half-Sorts :
    (fuel min mid : ℕ) (a : List ℕ)
    → ((m : ℕ) (b : List ℕ)
        → m - min < fuel
        → min ≤ suc m
        → m < length b
        → IsAbove min (suc m) b
        → Sorts min (suc m) b (quicksort fuel b min m))
    → mid ≤ min + fuel
    → 0 < fuel
    → min ≤ mid
    → mid < length a
    → IsAbove min mid a
    → Sorts min mid a (lower_half fuel min mid a)
unfolding lower_half
lower_half-Sorts fuel min zero a sorts enough pos le fits above = record {
  out = a;
  returns = refl;
  rearranged = Rearranged-refl min 0 a;
  sorted = λ i j li ij jh. absurd (omega arith);
}
lower_half-Sorts fuel min (suc below) a sorts enough pos le fits above =
    sorts below a (omega arith) le (omega arith) above

pub quicksort-Sorts :
    (fuel min max : ℕ) (a : List ℕ)
    → max - min < fuel
    → min ≤ suc max
    → max < length a
    → IsAbove min (suc max) a
    → Sorts min (suc max) a (quicksort fuel a min max)
quicksort-Sorts zero min max a enough le fits above = absurd (omega arith)
quicksort-Sorts (suc fuel) min max a enough le fits above =
    elim (Bool-cases (ltb sort_threshold (max - min))) [
      | inr small ↦
          rw (quicksort_small fuel min max a small) (insertion_sort-Sorts a min max le fits above)
      | inl big ↦
          let wide : 16 < max - min = ltb→lt 16 (max - min) big in
          let p = partition-Partitioned a min max (omega arith) fits in
          let len : length p.out ≡ length a = p.rearranged.same_length in
          let above' = Rearranged-IsAbove min (suc max) a p.out p.rearranged above in
          let lower : Sorts min p.mid p.out (lower_half fuel min p.mid p.out) =
            lower_half-Sorts fuel min p.mid p.out (λ m b. quicksort-Sorts fuel min m b)
              (omega (arith, p.to_max)) (omega arith) p.from_min (omega (arith, p.to_max, len))
              (λ k j q r u. above' k j q r (omega (arith, p.to_max))) in
          let upper =
            quicksort-Sorts fuel (p.mid + 1) max lower.out (omega (arith, p.from_min))
              (omega (arith, p.to_max)) (omega (arith, len, lower.rearranged.same_length))
              (IsAbove-upper min p.mid max p.out lower.out p.from_min p.to_max above'
                lower.rearranged p.below p.above) in
          sorted_halves fuel min max a (omega arith) (omega arith) fits above p lower upper big
    ]

-- `threadscan_util_sort(a, n)` on an array of at least `n` words returns, reads nothing out of range,
-- and only moves the first `n` words among themselves, after which they stand in ascending order.
pub util_sort-Sorts : (a : List ℕ) (n : ℕ) → n ≤ length a → Sorts 0 n a (util_sort a n)
unfolding util_sort
util_sort-Sorts a zero h = record {
  out = a;
  returns = refl;
  rearranged = Rearranged-refl 0 0 a;
  sorted = λ i j l ij jn. absurd (omega arith);
}
util_sort-Sorts a (suc n) h =
    quicksort-Sorts (suc n) 0 n a (omega arith) (omega arith) h (λ k j p. absurd (omega arith))

shuffle_round-Rearranged :
    (n i : ℕ) (a : List ℕ)
    → i < n
    → n ≤ length a
    → (b : List ℕ) × (shuffle_round n i a ≡ some b) × Rearranged 0 n a b
unfolding shuffle_round shuffle_target
shuffle_round-Rearranged n i a h fits = elim (ℕ_discrete i t) [
  | yes e ↦ (a, ground arith, Rearranged-refl 0 n a)
  | no ne ↦ (
    swapped a i t,
    ground (arith, swap-eq-swapped a i t (omega arith) (omega (arith, in_range))),
    swapped-Rearranged 0 n a i t (omega arith) h (omega arith) in_range fits,
  )
]
  where
    t : ℕ
    t = shuffle_target n i

    in_range : t < n
    in_range = mod-lt _ (omega arith)

shuffle_loop-Rearranged :
    (n left i : ℕ) (a : List ℕ)
    → i + left ≡ n
    → n ≤ length a
    → (b : List ℕ) × (shuffle_loop n left i a ≡ some b) × Rearranged 0 n a b
unfolding shuffle_loop
shuffle_loop-Rearranged n zero i a e fits = (a, refl, Rearranged-refl 0 n a)
shuffle_loop-Rearranged n (suc left) i a e fits =
    let (b, eb, rb) = shuffle_round-Rearranged n i a (omega arith) fits in
    let (c, ec, rc) =
      shuffle_loop-Rearranged n left (i + 1) b (omega arith) (omega (arith, rb.same_length)) in
    (c, rw eb ec, Rearranged-trans rb rc)

-- `threadscan_util_randomize(addrs, n)` on an array of at least `n` words returns, reads nothing out
-- of range, and moves the first `n` words among themselves: every word stands in the result as
-- often as before, and the words from `n` on stay.
pub util_randomize_permutes :
    (a : List ℕ) (n : ℕ)
    → n ≤ length a
    → (b : List ℕ) × (util_randomize a n ≡ some b) × Rearranged 0 n a b
unfolding util_randomize
util_randomize_permutes a n h = shuffle_loop-Rearranged n n 0 a (omega arith) h
