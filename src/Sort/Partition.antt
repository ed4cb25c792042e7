-- ===== src/Sort/Partition.antt =====
-- `partition` splits its range by the pivot.
use thread_scan.Base.{
  ℕ, zero, suc, ◌+◌, ◌-◌, ◌/◌, ◌≤◌, ◌<◌, ◌≡◌, inl, inr, refl, List, Option, some, arith, length,
  cell, get_elem?-eq-cell, leb, Bool-cases,
}
use thread_scan.Sort.{partition_round, partition_loop, partition}
use thread_scan.Sort.Rearranged.{
  Rearranged, Rearranged-refl, Rearranged-trans, Rearranged-widen, swapped, swap-eq-swapped,
  cell-swapped, length-swapped, swapped-Rearranged,
}

-- The words at `[lo, mid)` are at most the pivot, those at `[mid, hi)` are above it.
pub record IsSplit (pivot_val lo mid hi : ℕ) (a : List ℕ) : Type 0 where
  pub below : (j : ℕ) → lo ≤ j → j < mid → cell a j ≤ pivot_val
  pub above : (j : ℕ) → mid ≤ j → j < hi → pivot_val < cell a j

-- The loop, or a round of it, returned and split `[lo, hi)`.
record Splits (pivot_val lo i hi top : ℕ) (a : List ℕ) (result : Option (ℕ × List ℕ)) : Type 0 where
  mid : ℕ
  out : List ℕ
  returns : result ≡ some (mid, out)
  rearranged : Rearranged lo top a out
  from_lo : lo ≤ mid
  to_hi : mid ≤ hi
  split : IsSplit pivot_val lo mid hi out

module _ (pv lo hi : ℕ) where
  partition_round-Splits :
      (i mid : ℕ) (a : List ℕ)
      → lo ≤ mid
      → mid ≤ i
      → i < hi
      → hi ≤ length a
      → IsSplit pv lo mid i a
      → Splits pv lo i (i + 1) hi a (partition_round pv i mid a)
  unfolding partition_round
  partition_round-Splits i mid a l m h fits s = elim (Bool-cases (leb (cell a i) pv)) [
    | inl small ↦ record {
      mid = mid + 1;
      out = swapped a i mid;
      returns = ground (arith, get_elem?-eq-cell a i, swap-eq-swapped a i mid);
      rearranged = swapped-Rearranged lo hi a i mid (omega arith) h l (omega arith) fits;
      from_lo = omega arith;
      to_hi = omega arith;
      split = record {
        below = λ j p q. ground (arith, cell-swapped a i mid j, s.below j);
        above = λ j p q. ground (arith, cell-swapped a i mid j, s.above j, s.above mid);
      };
    }
    | inr big ↦ record {
      mid = mid;
      out = a;
      returns = ground (arith, get_elem?-eq-cell a i);
      rearranged = Rearranged-refl lo hi a;
      from_lo = l;
      to_hi = omega arith;
      split = record { below = s.below; above = λ j p q. ground (arith, s.above j) };
    }
  ]

  partition_loop-Splits :
      (left i mid : ℕ) (a : List ℕ)
      → i + left ≡ hi
      → lo ≤ mid
      → mid ≤ i
      → hi ≤ length a
      → IsSplit pv lo mid i a
      → Splits pv lo hi hi hi a (partition_loop pv left i mid a)
  unfolding partition_loop
  partition_loop-Splits zero i mid a e l m fits s = record {
    mid = mid;
    out = a;
    returns = refl;
    rearranged = Rearranged-refl lo hi a;
    from_lo = l;
    to_hi = omega arith;
    split = record { below = s.below; above = λ j p q. s.above j p (omega arith) };
  }
  partition_loop-Splits (suc left) i mid a e l m fits s =
      let one = partition_round-Splits i mid a l m (omega arith) fits s in
      let rest =
        partition_loop-Splits left (i + 1) one.mid one.out (omega arith) one.from_lo one.to_hi
          (omega (arith, one.rearranged.same_length)) one.split in
      record {
        mid = rest.mid;
        out = rest.out;
        returns = rw one.returns rest.returns;
        rearranged = Rearranged-trans one.rearranged rest.rearranged;
        from_lo = rest.from_lo;
        to_hi = rest.to_hi;
        split = rest.split;
      }

-- What `partition` returns: the pivot stands at `mid`, smaller words before it in the range and
-- larger ones behind it.
pub record Partitioned (min max : ℕ) (a : List ℕ) (result : Option (ℕ × List ℕ)) : Type 0 where
  pub mid : ℕ
  pub out : List ℕ
  pub returns : result ≡ some (mid, out)
  pub rearranged : Rearranged min (suc max) a out
  pub from_min : min ≤ mid
  pub to_max : mid ≤ max
  pub below : (j : ℕ) → min ≤ j → j < mid → cell out j ≤ cell out mid
  pub above : (j : ℕ) → mid < j → j ≤ max → cell out mid < cell out j

pub partition-Partitioned :
    (a : List ℕ) (min max : ℕ)
    → min ≤ max
    → max < length a
    → Partitioned min max a (partition a min max)
unfolding partition
partition-Partitioned a min max h fits =
    let pivot : ℕ = (max + min) / 2 in
    let p_lo : min ≤ pivot = omega arith in
    let p_hi : pivot ≤ max = omega arith in
    let pv : ℕ = cell a pivot in
    let moved = swapped a pivot max in
    let loop =
      partition_loop-Splits pv min max (max - min) min min moved (omega arith) (omega arith)
        (omega arith) (omega (arith, length-swapped a pivot max))
        (record { below = λ j p q. absurd (omega arith); above = λ j p q. absurd (omega arith) }) in
    let len : length loop.out ≡ length a =
      omega (arith, loop.rearranged.same_length, length-swapped a pivot max) in
    let at_max : cell loop.out max ≡ pv =
      ground
        (arith, loop.rearranged.outside max (inr (omega arith)), cell-swapped a pivot max max) in
    record {
      mid = loop.mid;
      out = swapped loop.out loop.mid max;
      returns = rw (
        get_elem?-eq-cell a pivot (omega arith),
        swap-eq-swapped a pivot max (omega arith) (omega arith),
        loop.returns,
        swap-eq-swapped loop.out loop.mid max (omega (arith, loop.to_hi, len)) (omega (arith, len)),
      );
      rearranged =
          Rearranged-trans
            (swapped-Rearranged min (suc max) a pivot max p_lo (omega arith) h (omega arith) fits)
            (Rearranged-trans (Rearranged-widen (omega arith) (omega arith) loop.rearranged) (
              swapped-Rearranged min (suc max) loop.out loop.mid max loop.from_lo
                (omega (arith, loop.to_hi)) h (omega arith) (omega (arith, len))));
      from_min = loop.from_lo;
      to_max = loop.to_hi;
      below = λ j p q. ground (
        arith,
        loop.to_hi,
        len,
        at_max,
        loop.split.below j,
        cell-swapped loop.out loop.mid max j,
        cell-swapped loop.out loop.mid max loop.mid,
      );
      above = λ j p q. ground (
        arith,
        loop.to_hi,
        len,
        at_max,
        loop.split.above j,
        loop.split.above loop.mid,
        cell-swapped loop.out loop.mid max j,
        cell-swapped loop.out loop.mid max loop.mid,
      );
    }
