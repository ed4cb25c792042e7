-- ===== src/Reclaim/Round/Once.antt =====
-- No address is both freed and kept for the next round.
use thread_scan.Base.{
  ℕ, zero, suc, ◌+◌, ◌^◌, ◌≤◌, ◌<◌, ◌≡◌, inl, inr, refl, List, [], ◌∷◌, arith, length, cell,
  segment, count,
}
use thread_scan.Base.Pointer.{low_bit, low_bit-eq-mod, ptr_mask, ptr_mask-eq-sub}
use thread_scan.Search.Marking.{IsTracked, Refers, Searched}
use thread_scan.Search.Scan.{AreWords}
use thread_scan.Reclaim.Handle.{unmarked, marked, marked_cleared}

-- An address that a word of memory refers to is a word.
Refers-in_word : (p : ℕ) (mem : List ℕ) → AreWords mem → Refers p mem → p < 2 ^ 64
Refers-in_word p [] ws ref = absurd ref
Refers-in_word p (w ∷ mem) ws (inl e) = omega (arith, ptr_mask-eq-sub w ws.0, ws.0, e)
Refers-in_word p (w ∷ mem) ws (inr later) = Refers-in_word p mem ws.1 later

-- Each word is kept or freed.
length-marked : (xs : List ℕ) → length (marked xs) + length (unmarked xs) ≡ length xs
unfolding marked unmarked
length-marked [] = refl
length-marked (x ∷ xs) = ground (arith, length-marked xs)

pub length-marked_cleared :
    (xs : List ℕ) → length (marked_cleared xs) + length (unmarked xs) ≡ length xs
unfolding marked_cleared unmarked
length-marked_cleared [] = refl
length-marked_cleared (x ∷ xs) = ground (arith, length-marked_cleared xs, length-marked xs)

count-cleared : (v : ℕ) (xs : List ℕ) → 0 < v → count v (marked_cleared xs) ≤ count v (marked xs)
unfolding marked_cleared marked
count-cleared v [] pos = omega arith
count-cleared v (x ∷ xs) pos = ground (arith, count-cleared v xs pos)

module _ (n : ℕ) (base mem after : List ℕ) (tr : IsTracked n base) (ws : AreWords mem)
    (s : Searched n base mem base after) where
  plain_of_unmarked : (i : ℕ) → i < n → low_bit (cell after i) ≡ 0 → cell after i ≡ cell base i
  plain_of_unmarked i h free =
      omega (arith, s.marking.each i h, tr.aligned i h, low_bit-eq-mod (cell after i))

  mask_of_busy :
      (i : ℕ) → i < n → (low_bit (cell after i) ≡ 0 → ⊥) → ptr_mask (cell after i) ≡ cell base i
  mask_of_busy i h busy =
      let m : cell after i ≡ cell base i + 1 =
        omega (arith, s.marking.each i h, tr.aligned i h, low_bit-eq-mod (cell after i), busy) in
      elim (s.only i h m) [
        | inl old ↦ absurd (omega (arith, old))
        | inr ref ↦ omega (
          arith,
          m,
          tr.aligned i h,
          Refers-in_word (cell base i) mem ws ref,
          ptr_mask-eq-sub (cell after i),
        )
      ]

  -- Every address of the array is marked or not.
  count-marked_or_not :
      (v i m : ℕ)
      → i + m ≤ n
      → count v (marked (segment after i m)) + count v (unmarked (segment after i m))
        ≡ count v (segment base i m)
  unfolding marked unmarked
  count-marked_or_not v i zero h = refl
  count-marked_or_not v i (suc m) h = ground (
    arith,
    plain_of_unmarked i (omega arith),
    mask_of_busy i (omega arith),
    count-marked_or_not v (i + 1) m (omega arith),
  )

  -- `kept` times the address is kept, and it is tracked `all` times.
  pub count-kept_or_freed :
      (v kept all : ℕ)
      → 0 < v
      → kept ≡ count v (marked_cleared (segment after 0 n))
      → count v (segment base 0 n) ≡ all
      → kept + count v (unmarked (segment after 0 n)) ≤ all
  count-kept_or_freed v kept all pos same counts = omega (
    arith,
    same,
    counts,
    count-cleared v (segment after 0 n) pos,
    count-marked_or_not v 0 n (omega arith),
  )
