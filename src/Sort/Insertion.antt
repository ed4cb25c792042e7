-- ===== src/Sort/Insertion.antt =====
-- `insertion_sort` sorts its range, if no word before the range is larger than one in it. The inner
-- loop stops at index 0, not at `min`, so it relies on that.
use thread_scan.Base.{
  ℕ, zero, suc, ◌+◌, ◌-◌, ◌≤◌, ◌<◌, ◌≡◌, inl, refl, List, Option, some, arith, length, cell,
  get_elem?-eq-cell, dec_lt, dec_le, ◌∙◌,
}
use thread_scan.Sort.{sink, insertion_loop, insertion_sort}
use thread_scan.Sort.Rearranged.{
  Rearranged, Rearranged-refl, Rearranged-trans, Rearranged-widen, IsSorted, swapped,
  swap-eq-swapped, cell-swapped, length-swapped, swapped-Rearranged,
}

-- No word before `lo` is larger than a word at `[lo, hi)`.
abbrev pub IsAbove : ℕ → ℕ → List ℕ → Type 0
IsAbove lo hi a = (k j : ℕ) → k < lo → lo ≤ j → j < hi → cell a k ≤ cell a j

pub Rearranged-IsAbove :
    (lo hi : ℕ) (a b : List ℕ) → Rearranged lo hi a b → IsAbove lo hi a → IsAbove lo hi b
Rearranged-IsAbove lo hi a b r h k j p q s =
    let (i, q', s', e) = r.inside j q s in omega (arith, r.outside k (inl p), e, h k i p q' s')

-- `[lo, hi)` is sorted but for the word at `x`, which may be too far right.
abbrev IsSortedBut : ℕ → ℕ → ℕ → List ℕ → Type 0
IsSortedBut lo hi x a = (i j : ℕ) → lo ≤ i → i < j → j < hi → (j ≡ x → ⊥) → cell a i ≤ cell a j

-- A loop returned, with `[lo, hi)` sorted.
pub record Sorts (lo hi : ℕ) (a : List ℕ) (result : Option (List ℕ)) : Type 0 where
  pub out : List ℕ
  pub returns : result ≡ some out
  pub rearranged : Rearranged lo hi a out
  pub sorted : IsSorted lo hi out

-- The two ways of a round of the inner loop.
sink_swaps :
    (j : ℕ) (a : List ℕ)
    → suc j < length a
    → cell a (suc j) < cell a j
    → sink (suc j) a ≡ sink j (swapped a (suc j) j)
unfolding sink
sink_swaps j a h lt =
    ground (arith, get_elem?-eq-cell a j, get_elem?-eq-cell a (suc j), swap-eq-swapped a (suc j) j)

sink_stops :
    (j : ℕ) (a : List ℕ) → suc j < length a → cell a j ≤ cell a (suc j) → sink (suc j) a ≡ some a
unfolding sink
sink_stops j a h le = ground (arith, get_elem?-eq-cell a j, get_elem?-eq-cell a (suc j))

module _ (lo : ℕ) where
  IsSortedBut-swapped :
      (hi j : ℕ) (a : List ℕ)
      → lo ≤ j
      → suc j < hi
      → hi ≤ length a
      → cell a (suc j) < cell a j
      → IsSortedBut lo hi (suc j) a
      → IsSortedBut lo hi j (swapped a (suc j) j)
  IsSortedBut-swapped hi j a l h fits lt s p q lp pq hq ne = ground (
    arith,
    cell-swapped a (suc j) j p,
    cell-swapped a (suc j) j q,
    s p q,
    s p j,
    s j q,
    s (suc j) q,
  )

  -- The word at `x` is in place: the order test holds, or nothing of the range is before it.
  IsSortedBut-IsSorted :
      (hi x : ℕ) (a : List ℕ)
      → ((k : ℕ) → suc k ≡ x → lo ≤ k → cell a k ≤ cell a x)
      → x < hi
      → IsSortedBut lo hi x a
      → IsSorted lo hi a
  IsSortedBut-IsSorted hi zero a place h s i j l p q = s i j l p q (λ e. omega arith)
  IsSortedBut-IsSorted hi (suc k) a place h s i j l p q = ground (arith, s i j, s i k, place k refl)

  sink-Sorts :
      (j hi : ℕ) (a : List ℕ)
      → lo ≤ j
      → j < hi
      → hi ≤ length a
      → IsAbove lo hi a
      → IsSortedBut lo hi j a
      → Sorts lo hi a (sink j a)
  unfolding sink
  sink-Sorts zero hi a l h fits above s = record {
    out = a;
    returns = refl;
    rearranged = Rearranged-refl lo hi a;
    sorted = IsSortedBut-IsSorted hi zero a (λ k e. absurd (omega arith)) h s;
  }
  sink-Sorts (suc j) hi a l h fits above s = elim (dec_lt (cell a (suc j)) (cell a j)) [
    | yes lt ↦
        let lj : lo ≤ j = ground (arith, above j (suc j)) in
        let moved = swapped-Rearranged lo hi a (suc j) j l h lj (omega arith) fits in
        let rest =
          sink-Sorts j hi (swapped a (suc j) j) lj (omega arith)
            (omega (arith, length-swapped a (suc j) j))
            (Rearranged-IsAbove lo hi a (swapped a (suc j) j) moved above)
            (IsSortedBut-swapped hi j a lj h fits lt s) in
        record {
          out = rest.out;
          returns = sink_swaps j a (omega arith) lt ∙ rest.returns;
          rearranged = Rearranged-trans moved rest.rearranged;
          sorted = rest.sorted;
        }
    | no ge ↦ record {
      out = a;
      returns = sink_stops j a (omega arith) (omega arith);
      rearranged = Rearranged-refl lo hi a;
      sorted = IsSortedBut-IsSorted hi (suc j) a (λ k e lk. ground arith) h s;
    }
  ]

  insertion_loop-Sorts :
      (left i hi : ℕ) (a : List ℕ)
      → i + left ≡ hi
      → lo < i
      → hi ≤ length a
      → IsAbove lo hi a
      → IsSorted lo i a
      → Sorts lo hi a (insertion_loop left i a)
  unfolding insertion_loop
  insertion_loop-Sorts zero i hi a e l fits above s = record {
    out = a;
    returns = refl;
    rearranged = Rearranged-refl lo hi a;
    sorted = λ p q lp pq hq. s p q lp pq (omega arith);
  }
  insertion_loop-Sorts (suc left) i hi a e l fits above s =
      let one =
        sink-Sorts i (suc i) a (omega arith) (omega arith) (omega arith)
          (λ k j p q r. above k j p q (omega arith))
          (λ p q lp pq hq ne. s p q lp pq (omega arith)) in
      let moved : Rearranged lo hi a one.out =
        Rearranged-widen (omega arith) (omega arith) one.rearranged in
      let rest =
        insertion_loop-Sorts left (i + 1) hi one.out (omega arith) (omega arith)
          (omega (arith, one.rearranged.same_length))
          (Rearranged-IsAbove lo hi a one.out moved above)
          (λ p q lp pq hq. one.sorted p q lp pq (omega arith)) in
      record {
        out = rest.out;
        returns = rw one.returns rest.returns;
        rearranged = Rearranged-trans moved rest.rearranged;
        sorted = rest.sorted;
      }

pub insertion_sort-Sorts :
    (a : List ℕ) (min max : ℕ)
    → min ≤ suc max
    → max < length a
    → IsAbove min (suc max) a
    → Sorts min (suc max) a (insertion_sort a min max)
unfolding insertion_sort
insertion_sort-Sorts a min max h fits above = elim (dec_le min max) [
  | yes le ↦
      insertion_loop-Sorts min (max - min) (min + 1) (suc max) a (omega arith) (omega arith)
        (omega arith) above (λ p q lp pq hq. absurd (omega arith))
  | no empty ↦ record {
    out = a;
    returns = no_rounds (max - min) (min + 1) (omega arith);
    rearranged = Rearranged-refl min (suc max) a;
    sorted = λ p q lp pq hq. absurd (omega arith);
  }
]
  where
    no_rounds : (left i : ℕ) → left ≡ 0 → insertion_loop left i a ≡ some a
    no_rounds zero i e = unfold insertion_loop in refl
    no_rounds (suc left) i e = absurd (omega arith)
