-- ===== src/Sort/Rearranged.antt =====
-- What swaps inside a range do to an array, and order on a range.
use thread_scan.Base.{
  ℕ, ◌≤◌, ◌<◌, ◌≡◌, ◌⊎◌, inl, inr, refl, ◌∙◌, List, some, arith, length, set, cell, count, cell-set,
  count-set, length-set, get_elem?-eq-cell, ◌==◌, if◌then◌else◌, ℕ_discrete,
}
use thread_scan.Sort.{swap}

-- `b` is `a` with the words at `[lo, hi)` moved among themselves.
pub record Rearranged (lo hi : ℕ) (a b : List ℕ) : Type 0 where
  pub same_length : length b ≡ length a
  pub same_count : (v : ℕ) → count v b ≡ count v a
  pub outside : (j : ℕ) → (j < lo) ⊎ (hi ≤ j) → cell b j ≡ cell a j
  pub inside : (j : ℕ) → lo ≤ j → j < hi → (i : ℕ) × (lo ≤ i) × (i < hi) × (cell b j ≡ cell a i)

abbrev pub IsSorted : ℕ → ℕ → List ℕ → Type 0
IsSorted lo hi a = (i j : ℕ) → lo ≤ i → i < j → j < hi → cell a i ≤ cell a j

pub Rearranged-refl : (lo hi : ℕ) (a : List ℕ) → Rearranged lo hi a a
Rearranged-refl lo hi a = record {
  same_length = refl;
  same_count = λ v. refl;
  outside = λ j h. refl;
  inside = λ j p q. (j, p, q, refl);
}

pub Rearranged-trans :
    {lo hi : ℕ} {a b c : List ℕ}
    → Rearranged lo hi a b
    → Rearranged lo hi b c
    → Rearranged lo hi a c
Rearranged-trans r s = record {
  same_length = s.same_length ∙ r.same_length;
  same_count = λ v. s.same_count v ∙ r.same_count v;
  outside = λ j h. s.outside j h ∙ r.outside j h;
  inside = λ j p q.
      let (i, p', q', e) = s.inside j p q in
      let (k, p'', q'', e') = r.inside i p' q' in (k, p'', q'', e ∙ e');
}

-- A change inside a range is one inside a larger range.
pub Rearranged-widen :
    {lo hi lo' hi' : ℕ} {a b : List ℕ}
    → lo' ≤ lo
    → hi ≤ hi'
    → Rearranged lo hi a b
    → Rearranged lo' hi' a b
Rearranged-widen {lo} {hi} {lo'} {hi'} {a} {b} l h r = record {
  same_length = r.same_length;
  same_count = r.same_count;
  outside = λ j p. r.outside j (ground arith);
  inside = λ j p q. within j p q (range_cases lo hi j);
}
  where
    range_cases : (lo hi j : ℕ) → (lo ≤ j) × (j < hi) ⊎ ((j < lo) ⊎ (hi ≤ j))
    range_cases lo hi j = grind arith

    within :
        (j : ℕ)
        → lo' ≤ j
        → j < hi'
        → (lo ≤ j) × (j < hi) ⊎ ((j < lo) ⊎ (hi ≤ j))
        → (i : ℕ) × (lo' ≤ i) × (i < hi') × (cell b j ≡ cell a i)
    within j p q (inl (p', q')) =
        let (i, p'', q'', e) = r.inside j p' q' in (i, omega arith, omega arith, e)
    within j p q (inr out) = (j, p, q, r.outside j out)

abbrev pub swapped : List ℕ → ℕ → ℕ → List ℕ
swapped a n m = set (set a n (cell a m)) m (cell a n)

pub swap-eq-swapped :
    (a : List ℕ) (n m : ℕ) → n < length a → m < length a → swap a n m ≡ some (swapped a n m)
unfolding swap
swap-eq-swapped a n m h k = ground (arith, get_elem?-eq-cell a n, get_elem?-eq-cell a m)

pub cell-swapped :
    (a : List ℕ) (n m j : ℕ)
    → n < length a
    → m < length a
    → cell (swapped a n m) j ≡ (if j == n then cell a m else if j == m then cell a n else cell a j)
cell-swapped a n m j h k = ground (
  arith,
  length-set a n (cell a m),
  cell-set (set a n (cell a m)) m j (cell a n),
  cell-set a n j (cell a m),
)

pub length-swapped : (a : List ℕ) (n m : ℕ) → length (swapped a n m) ≡ length a
length-swapped a n m = length-set (set a n (cell a m)) m (cell a n) ∙ length-set a n (cell a m)

pub count-swapped :
    (v : ℕ) (a : List ℕ) (n m : ℕ)
    → n < length a
    → m < length a
    → count v (swapped a n m) ≡ count v a
count-swapped v a n m h k = ground (
  arith,
  length-set a n (cell a m),
  cell-set a n m (cell a m),
  count-set v (set a n (cell a m)) m (cell a n),
  count-set v a n (cell a m),
)

pub swapped-Rearranged :
    (lo hi : ℕ) (a : List ℕ) (n m : ℕ)
    → lo ≤ n
    → n < hi
    → lo ≤ m
    → m < hi
    → hi ≤ length a
    → Rearranged lo hi a (swapped a n m)
swapped-Rearranged lo hi a n m ln hn lm hm fits = record {
  same_length = length-swapped a n m;
  same_count = λ v. count-swapped v a n m (omega arith) (omega arith);
  outside = λ j out. ground (arith, cell-swapped a n m j);
  inside = λ j p q. from j p q (ℕ_discrete j n) (ℕ_discrete j m);
}
  where
    from :
        (j : ℕ)
        → lo ≤ j
        → j < hi
        → Dec (j ≡ n)
        → Dec (j ≡ m)
        → (i : ℕ) × (lo ≤ i) × (i < hi) × (cell (swapped a n m) j ≡ cell a i)
    from j p q (yes e) d = (m, lm, hm, ground (arith, cell-swapped a n m j))
    from j p q (no ne) (yes e) = (n, ln, hn, ground (arith, cell-swapped a n m j))
    from j p q (no ne) (no ne') = (j, p, q, ground (arith, cell-swapped a n m j))
