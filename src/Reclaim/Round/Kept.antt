-- ===== src/Reclaim/Round/Kept.antt =====
-- Which addresses that something refers to are kept for the next round.
use thread_scan.Base.{
  ℕ, zero, suc, ◌+◌, ◌-◌, ◌^◌, ◌≤◌, ◌<◌, ◌≡◌, refl, ap, ◌∙◌, List, ◌∷◌, some, arith, length, cell,
  segment, count, ℕ_discrete, subst,
}
use thread_scan.Base.Pointer.{low_bit, low_bit-eq-mod, ptr_mask, ptr_mask-eq-sub}
use thread_scan.Search.Marking.{IsTracked, Refers, Searched}
use thread_scan.Reclaim.{handle_unreferenced_ptrs}
use thread_scan.Reclaim.Handle.{unmarked, marked, marked_cleared, handle_unreferenced_ptrs-Handles}
use thread_scan.Reclaim.Round.Freed.{count-unmarked_referred}

-- The addresses are far from the end of 64 bits.
abbrev pub AreAddresses : ℕ → List ℕ → Type 0
AreAddresses n base = (i : ℕ) → i < n → cell base i + 1 < 2 ^ 64

module _ (n : ℕ) (base mem after : List ℕ) (tr : IsTracked n base) (small : AreAddresses n base)
    (s : Searched n base mem base after) (v : ℕ) (pos : 0 < v) where
  -- Without its mark a marked word is its address.
  mask_of_marked :
      (i : ℕ) → i < n → (low_bit (cell after i) ≡ 0 → ⊥) → ptr_mask (cell after i) ≡ cell base i
  mask_of_marked i h busy = omega (
    arith,
    s.marking.each i h,
    tr.aligned i h,
    low_bit-eq-mod (cell after i),
    ptr_mask-eq-sub (cell after i),
    small i h,
  )

  -- A word with no mark is an address that nothing refers to.
  referred_busy : (i : ℕ) → i < n → v ≡ cell base i → Refers v mem → low_bit (cell after i) ≡ 0 → ⊥
  referred_busy i h here ref free = omega (
    arith,
    s.marked i h (omega arith) (subst (λ k. Refers k mem) here ref),
    tr.aligned i h,
    low_bit-eq-mod (cell after i),
  )

  count-marked :
      (i m : ℕ)
      → i + m ≤ n
      → Refers v mem
      → count v (marked (segment after i m)) ≡ count v (segment base i m)
  unfolding marked
  count-marked i zero h ref = refl
  count-marked i (suc m) h ref = elim (ℕ_discrete v (cell base i)) [
    | yes here ↦ ground (
      arith,
      referred_busy i (omega arith) here ref,
      mask_of_marked i (omega arith),
      count-marked (i + 1) m (omega arith) ref,
    )
    | no other ↦
        ground (arith, mask_of_marked i (omega arith), count-marked (i + 1) m (omega arith) ref)
  ]

  -- From the second address on, the least one does not come again.
  count-marked_least :
      (i m : ℕ) → 0 < i → i + m ≤ n → v ≡ cell base 0 → count v (marked (segment after i m)) ≡ 0
  unfolding marked
  count-marked_least i zero p h e = refl
  count-marked_least i (suc m) p h e = ground (
    arith,
    mask_of_marked i (omega arith),
    tr.ordered 0 i p (omega arith),
    count-marked_least (i + 1) m (omega arith) (omega arith) e,
  )

  count-cleared_least :
      (i m : ℕ)
      → 0 < i
      → i + m ≤ n
      → v ≡ cell base 0
      → count v (marked_cleared (segment after i m)) ≡ 0
  unfolding marked_cleared
  count-cleared_least i zero p h e = refl
  count-cleared_least i (suc m) p h e = ground (
    arith,
    count-marked_least (i + 1) m (omega arith) (omega arith) e,
    count-cleared_least (i + 1) m (omega arith) (omega arith) e,
  )

-- Splits the count of addresses: the search started from the addresses with no mark.
marked_cleared-first :
    (x : ℕ) (xs : List ℕ) → low_bit x ≡ 0 → marked_cleared (x ∷ xs) ≡ marked (x ∷ xs)
unfolding marked_cleared marked
marked_cleared-first x xs h = ground arith

marked_cleared-busy :
    (x : ℕ) (xs : List ℕ) → (low_bit x ≡ 0 → ⊥) → marked_cleared (x ∷ xs) ≡ 0 ∷ marked_cleared xs
unfolding marked_cleared
marked_cleared-busy x xs h = ground arith

segment-first : (a : List ℕ) (n : ℕ) → 0 < n → segment a 0 n ≡ cell a 0 ∷ segment a (0 + 1) (n - 1)
segment-first a n h = ap (segment a 0) {y = suc (n - 1)} (omega arith)

-- After a search of the sorted addresses `base`, if nothing refers to the least address, then
-- `handle_unreferenced_ptrs` keeps, at the front of the array, every address other than 0 that a
-- word of the memory refers to, as often as it is tracked.
pub handle_unreferenced_ptrs_keeps :
    (n : ℕ) (base mem after : List ℕ)
    → IsTracked n base
    → AreAddresses n base
    → Searched n base mem base after
    → low_bit (cell after 0) ≡ 0
    → (left : ℕ) × (out : List ℕ) × (freed : List ℕ) × (handle_unreferenced_ptrs after n
        ≡ some (left, out, freed))
      × ((v : ℕ) → 0 < v → Refers v mem → count v (segment out 0 left) ≡ count v (segment base 0 n))
handle_unreferenced_ptrs_keeps n base mem after tr small s first =
    let h = handle_unreferenced_ptrs-Handles after n s.marking.fits in
    (
      length (marked_cleared (segment after 0 n)),
      h.out,
      unmarked (segment after 0 n),
      h.returns ∙ ap (λ (k : ℕ). some (k, h.out, unmarked (segment after 0 n))) (omega arith),
      λ v pos ref.
          ap (count v) (h.written ∙ all_marked)
          ∙ count-marked n base mem after tr small s v pos 0 n (omega arith) ref,
    )
  where
    all_marked : marked_cleared (segment after 0 n) ≡ marked (segment after 0 n)
    all_marked =
        rw (segment-first after n tr.some_addr)
          (marked_cleared-first (cell after 0) (segment after 1 (n - 1)) first)

-- After a search of the sorted addresses `base`, if a word of the memory refers to the least address
-- and that is not 0, then `handle_unreferenced_ptrs` neither frees this address nor keeps it among
-- the words that it leaves at the front of the array: the address is lost.
pub handle_unreferenced_ptrs_loses :
    (n : ℕ) (base mem after : List ℕ)
    → IsTracked n base
    → AreAddresses n base
    → Searched n base mem base after
    → 0 < cell base 0
    → Refers (cell base 0) mem
    → (left : ℕ) × (out : List ℕ) × (freed : List ℕ) × (handle_unreferenced_ptrs after n
        ≡ some (left, out, freed))
      × (count (cell base 0) freed ≡ 0)
      × (count (cell base 0) (segment out 0 left) ≡ 0)
handle_unreferenced_ptrs_loses n base mem after tr small s pos ref =
    let h = handle_unreferenced_ptrs-Handles after n s.marking.fits in
    let v : ℕ = cell base 0 in
    (
      length (marked_cleared (segment after 0 n)),
      h.out,
      unmarked (segment after 0 n),
      h.returns ∙ ap (λ (k : ℕ). some (k, h.out, unmarked (segment after 0 n))) (omega arith),
      count-unmarked_referred n base mem after tr s v pos 0 n (omega arith) ref,
      ap (count v) h.written ∙ lost,
    )
  where
    busy : low_bit (cell after 0) ≡ 0 → ⊥
    busy = referred_busy n base mem after tr small s (cell base 0) pos 0 tr.some_addr refl ref

    lost : count (cell base 0) (marked_cleared (segment after 0 n)) ≡ 0
    lost = rw (segment-first after n tr.some_addr) (
        ap (count (cell base 0)) (marked_cleared-busy (cell after 0) (segment after 1 (n - 1)) busy)
        ∙ ground (
          arith,
          count-cleared_least n base mem after tr small s (cell base 0) pos 1 (n - 1) (omega arith)
              (omega arith) refl,
        ))
