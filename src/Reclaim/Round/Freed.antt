-- ===== src/Reclaim/Round/Freed.antt =====
-- The words that stay unmarked are the addresses that nothing refers to.
use thread_scan.Base.{
  ℕ, zero, suc, ◌+◌, ◌≤◌, ◌<◌, ◌≡◌, inl, inr, refl, List, arith, cell, segment, count, hit, ◌==◌,
  if◌then◌else◌, ℕ_discrete,
}
use thread_scan.Base.Pointer.{low_bit, low_bit-eq-mod}
use thread_scan.Search.Marking.{IsTracked, Refers, Searched}
use thread_scan.Reclaim.Handle.{unmarked, unmarked-free, unmarked-busy}

module _ (n : ℕ) (base mem after : List ℕ) (tr : IsTracked n base)
    (s : Searched n base mem base after) (v : ℕ) (pos : 0 < v) where
  -- A word of the searched array is its address, or odd.
  count-unmarked_next :
      (i m : ℕ)
      → i < n
      → count v (unmarked (segment after i (suc m)))
        ≡ (if low_bit (cell after i) == 0 then hit v (cell base i) else 0)
          + count v (unmarked (segment after (i + 1) m))
  count-unmarked_next i m h = elim (ℕ_discrete (low_bit (cell after i)) 0) [
    | yes free ↦
        ground (arith, unmarked-free (cell after i) (segment after (i + 1) m) free, plain free)
    | no busy ↦ ground (arith, unmarked-busy (cell after i) (segment after (i + 1) m) busy)
  ]
    where
      plain : low_bit (cell after i) ≡ 0 → cell after i ≡ cell base i
      plain free = omega (arith, s.marking.each i h, tr.aligned i h, low_bit-eq-mod (cell after i))

  -- An address that is referred to is not among the unmarked words.
  pub count-unmarked_referred :
      (i m : ℕ) → i + m ≤ n → Refers v mem → count v (unmarked (segment after i m)) ≡ 0
  count-unmarked_referred i zero h ref = unfold unmarked in refl
  count-unmarked_referred i (suc m) h ref = elim (ℕ_discrete v (cell base i)) [
    | yes here ↦ ground (
      arith,
      count-unmarked_next i m (omega arith),
      count-unmarked_referred (i + 1) m (omega arith) ref,
      marked here,
      low_bit-eq-mod (cell after i),
      tr.aligned i (omega arith),
    )
    | no other ↦ ground (
      arith,
      count-unmarked_next i m (omega arith),
      count-unmarked_referred (i + 1) m (omega arith) ref,
    )
  ]
    where
      marked : v ≡ cell base i → cell after i ≡ cell base i + 1
      marked e = s.marked i (omega arith) (omega arith) (rw (← e) ref)

  -- One that is not is there as often as it is tracked.
  pub count-unmarked_free :
      (i m : ℕ)
      → i + m ≤ n
      → (Refers v mem → ⊥)
      → count v (unmarked (segment after i m)) ≡ count v (segment base i m)
  count-unmarked_free i zero h free = unfold unmarked in refl
  count-unmarked_free i (suc m) h free = elim (ℕ_discrete v (cell base i)) [
    | yes here ↦ ground (
      arith,
      count-unmarked_next i m (omega arith),
      count-unmarked_free (i + 1) m (omega arith) free,
      plain here,
      low_bit-eq-mod (cell after i),
      tr.aligned i (omega arith),
    )
    | no other ↦ ground (
      arith,
      count-unmarked_next i m (omega arith),
      count-unmarked_free (i + 1) m (omega arith) free,
    )
  ]
    where
      plain : v ≡ cell base i → cell after i ≡ cell base i
      plain e = elim (s.marking.each i (omega arith)) [
        | inl same ↦ same
        | inr marked ↦ absurd (elim (s.only i (omega arith) marked) [
          | inl old ↦ omega (arith, old)
          | inr ref ↦ free (rw e ref)
        ])
      ]
