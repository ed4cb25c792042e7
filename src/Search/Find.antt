-- ===== src/Search/Find.antt =====
-- `iterative_search` and `binary_search` return a place of the value, or where it would stand.
use thread_scan.Base.{
  ℕ, zero, suc, ◌+◌, ◌-◌, ◌/◌, ◌≤◌, ◌<◌, ◌≡◌, ◌⊎◌, inl, inr, refl, List, Option, some, arith,
  length, cell, get_elem?-eq-cell, dec_lt, ℕ_discrete, ◌∙◌, ap,
}
use thread_scan.Search.{iterative_loop, iterative_search, binary_loop, binary_search}

-- All that the search needs of the order of `[lo, hi)`: the words above `val` stand last.
abbrev pub IsSortedAt : ℕ → ℕ → ℕ → List ℕ → Type 0
IsSortedAt val lo hi a = (i j : ℕ) → lo ≤ i → i < j → j < hi → val < cell a i → val < cell a j

-- `r` is a place of `val` in `[lo, hi)`, or the last word below it, or `lo` if all are above it.
pub record IsFound (val lo hi : ℕ) (a : List ℕ) (r : ℕ) : Type 0 where
  pub from_lo : lo ≤ r
  pub below_hi : r < hi
  pub place :
      (cell a r ≡ val)
      ⊎ ((cell a r < val) × ((j : ℕ) → r < j → j < hi → val < cell a j))
      ⊎ ((r ≡ lo) × (val < cell a lo))

-- A search returns such a place.
pub record Finds (val lo hi : ℕ) (a : List ℕ) (result : Option ℕ) : Type 0 where
  pub r : ℕ
  pub returns : result ≡ some r
  pub found : IsFound val lo hi a r

IsFound-here :
    (val lo hi : ℕ) (a : List ℕ) (r : ℕ) → lo ≤ r → r < hi → cell a r ≡ val → IsFound val lo hi a r
IsFound-here val lo hi a r l h e = record { from_lo = l; below_hi = h; place = inl e }

IsFound-before :
    (val lo hi : ℕ) (a : List ℕ) (r : ℕ)
    → lo ≤ r
    → r < hi
    → cell a r < val
    → ((j : ℕ) → r < j → j < hi → val < cell a j)
    → IsFound val lo hi a r
IsFound-before val lo hi a r l h below above = record {
  from_lo = l;
  below_hi = h;
  place = inr (inl (below, above));
}

-- One round of the loop of `iterative_search`, on each branch.
module _ (val : ℕ) (a : List ℕ) (left i : ℕ) (fits : i < length a) where
  iterative_hit : cell a i ≡ val → iterative_loop val a (suc left) i ≡ some i
  unfolding iterative_loop
  iterative_hit e = ground (arith, get_elem?-eq-cell a i)

  iterative_past : val < cell a i → iterative_loop val a (suc left) i ≡ some (i - 1)
  unfolding iterative_loop
  iterative_past lt = ground (arith, get_elem?-eq-cell a i)

  iterative_next :
      cell a i < val → iterative_loop val a (suc left) i ≡ iterative_loop val a left (i + 1)
  unfolding iterative_loop
  iterative_next lt = ground (arith, get_elem?-eq-cell a i)

iterative_loop-Finds :
    (val lo hi : ℕ) (a : List ℕ) (left i : ℕ)
    → i + left ≡ hi
    → lo < i
    → hi ≤ length a
    → IsSortedAt val lo hi a
    → cell a (i - 1) < val
    → Finds val lo hi a (iterative_loop val a left i)
iterative_loop-Finds val lo hi a zero i e l fits s before = record {
  r = i - 1;
  returns = unfold iterative_loop in refl;
  found =
      IsFound-before val lo hi a (i - 1) (omega arith) (omega arith) before
        (λ j p q. absurd (omega arith));
}
iterative_loop-Finds val lo hi a (suc left) i e l fits s before =
    let in_a : i < length a = omega arith in
    elim (ℕ_discrete (cell a i) val) [
      | yes same ↦ record {
        r = i;
        returns = iterative_hit val a left i in_a same;
        found = IsFound-here val lo hi a i (omega arith) (omega arith) same;
      }
      | no ne ↦ elim (dec_lt val (cell a i)) [
        | yes past ↦ record {
          r = i - 1;
          returns = iterative_past val a left i in_a past;
          found = IsFound-before val lo hi a (i - 1) (omega arith) (omega arith) before (λ j p q.
              elim (ℕ_discrete j i) [
                | yes at_i ↦ omega (arith, ap (cell a) at_i)
                | no later ↦ s i j (omega arith) (omega arith) q past
              ]);
        }
        | no below ↦
            let rest =
              iterative_loop-Finds val lo hi a left (i + 1) (omega arith) (omega arith) fits s
                (omega (arith, ap (cell a) {x = i + 1 - 1} {y = i} (omega arith))) in
            record {
              r = rest.r;
              returns = iterative_next val a left i in_a (omega arith) ∙ rest.returns;
              found = rest.found;
            }
      ]
    ]

pub iterative_search-Finds :
    (val lo hi : ℕ) (a : List ℕ)
    → lo < hi
    → hi ≤ length a
    → IsSortedAt val lo hi a
    → Finds val lo hi a (iterative_search val a lo hi)
iterative_search-Finds val lo hi a l fits s = elim (dec_lt val (cell a lo)) [
  | yes above ↦ record {
    r = lo;
    returns = unfold iterative_search in ground (arith, get_elem?-eq-cell a lo);
    found = record { from_lo = omega arith; below_hi = l; place = inr (inr (refl, above)) };
  }
  | no ge ↦ at_least (ℕ_discrete (cell a lo) val) (omega arith)
]
  where
    enters :
        cell a lo ≤ val → iterative_search val a lo hi ≡ iterative_loop val a (suc (hi - lo - 1)) lo
    enters le = unfold iterative_search in ground (arith, get_elem?-eq-cell a lo)

    at_least :
        Dec (cell a lo ≡ val) → cell a lo ≤ val → Finds val lo hi a (iterative_search val a lo hi)
    at_least (yes same) le = record {
      r = lo;
      returns = enters le ∙ iterative_hit val a (hi - lo - 1) lo (omega arith) same;
      found = IsFound-here val lo hi a lo (omega arith) l same;
    }
    at_least (no ne) le =
        let rest =
          iterative_loop-Finds val lo hi a (hi - lo - 1) (lo + 1) (omega arith) (omega arith) fits s
            (omega (arith, ap (cell a) {x = lo + 1 - 1} {y = lo} (omega arith))) in
        record {
          r = rest.r;
          returns =
              enters le
              ∙ (iterative_next val a (hi - lo - 1) lo (omega arith) (omega arith) ∙ rest.returns);
          found = rest.found;
        }

-- One round of the loop of `binary_search`, on each branch.
module _ (val : ℕ) (a : List ℕ) (fuel lo hi : ℕ) (fits : hi ≤ length a) where
  abbrev mid : ℕ
  mid = (hi + lo) / 2

  binary_small : hi - lo < 32 → binary_loop (suc fuel) val a lo hi ≡ iterative_search val a lo hi
  unfolding binary_loop
  binary_small h = ground arith

  binary_hit : 32 ≤ hi - lo → cell a mid ≡ val → binary_loop (suc fuel) val a lo hi ≡ some mid
  unfolding binary_loop
  binary_hit h e = ground (arith, get_elem?-eq-cell a mid)

  binary_left :
      32 ≤ hi - lo
      → val < cell a mid
      → binary_loop (suc fuel) val a lo hi ≡ binary_loop fuel val a lo mid
  unfolding binary_loop
  binary_left h lt = ground (arith, get_elem?-eq-cell a mid)

  binary_right :
      32 ≤ hi - lo
      → cell a mid < val
      → binary_loop (suc fuel) val a lo hi ≡ binary_loop fuel val a mid hi
  unfolding binary_loop
  binary_right h lt = ground (arith, get_elem?-eq-cell a mid)

  widen_left :
      32 ≤ hi - lo
      → val < cell a mid
      → IsSortedAt val lo hi a
      → (result : Option ℕ) → Finds val lo mid a result
      → Finds val lo hi a result
  widen_left h lt s result f = record {
    r = f.r;
    returns = f.returns;
    found = record {
      from_lo = f.found.from_lo;
      below_hi = omega (arith, f.found.below_hi);
      place = elim f.found.place [
        | inl same ↦ inl same
        | inr (inl (below, above)) ↦ inr (
            inl (
              below,
              λ j p q. elim (dec_lt j mid) [
                | yes left ↦ above j p left
                | no right ↦ elim (ℕ_discrete j mid) [
                  | yes at_mid ↦ omega (arith, ap (cell a) at_mid)
                  | no beyond ↦ s mid j (omega arith) (omega arith) q lt
                ]
              ],
            ))
        | inr (inr first) ↦ inr (inr first)
      ];
    };
  }

  widen_right :
      32 ≤ hi - lo
      → cell a mid < val
      → (result : Option ℕ) → Finds val mid hi a result
      → Finds val lo hi a result
  widen_right h lt result f = record {
    r = f.r;
    returns = f.returns;
    found = record {
      from_lo = omega (arith, f.found.from_lo);
      below_hi = f.found.below_hi;
      place = elim f.found.place [
        | inl same ↦ inl same
        | inr (inl below) ↦ inr (inl below)
        | inr (inr first) ↦ absurd (omega (arith, first.1))
      ];
    };
  }

binary_loop-Finds :
    (fuel val lo hi : ℕ) (a : List ℕ)
    → hi - lo < fuel
    → lo < hi
    → hi ≤ length a
    → IsSortedAt val lo hi a
    → Finds val lo hi a (binary_loop fuel val a lo hi)
binary_loop-Finds zero val lo hi a enough l fits s = absurd (omega arith)
binary_loop-Finds (suc fuel) val lo hi a enough l fits s = elim (dec_lt (hi - lo) 32) [
  | yes small ↦
      rw (binary_small val a fuel lo hi fits small) (iterative_search-Finds val lo hi a l fits s)
  | no large ↦
      let m : ℕ = (hi + lo) / 2 in
      elim (ℕ_discrete (cell a m) val) [
        | yes same ↦ record {
          r = m;
          returns = binary_hit val a fuel lo hi fits (omega arith) same;
          found = IsFound-here val lo hi a m (omega arith) (omega arith) same;
        }
        | no ne ↦ elim (dec_lt val (cell a m)) [
          | yes lt ↦ rw (binary_left val a fuel lo hi fits (omega arith) lt) (
              widen_left val a fuel lo hi fits (omega arith) lt s (binary_loop fuel val a lo m) (
                binary_loop-Finds fuel val lo m a (omega arith) (omega arith) (omega arith)
                  (λ i j p q r. s i j p q (omega arith))))
          | no ge ↦ rw (binary_right val a fuel lo hi fits (omega arith) (omega arith)) (
              widen_right val a fuel lo hi fits (omega arith) (omega arith)
                (binary_loop fuel val a m hi)
                (binary_loop-Finds fuel val m hi a (omega arith) (omega arith) fits
                  (λ i j p q r. s i j (omega arith) q r)))
        ]
      ]
]

-- On a range `[lo, hi)` of the array that is not empty and in which the words above `val` stand
-- last, `binary_search` returns, reads nothing out of range, and gives a place of `val`, or the last
-- word below it with only words above it behind, or `lo` if the first word is above it.
pub binary_search-Finds :
    (val lo hi : ℕ) (a : List ℕ)
    → lo < hi
    → hi ≤ length a
    → IsSortedAt val lo hi a
    → Finds val lo hi a (binary_search val a lo hi)
unfolding binary_search
binary_search-Finds val lo hi a l fits s =
    binary_loop-Finds (hi - lo + 1) val lo hi a (omega arith) l fits s
