-- ===== src/Reclaim/Handle.antt =====
-- `handle_unreferenced_ptrs` frees the unmarked addresses, and keeps the marked ones but for those that
-- stand before the first unmarked one.
use thread_scan.Base.{
  ℕ, zero, suc, ◌+◌, ◌≤◌, ◌<◌, ◌≡◌, refl, ap, ap₂, ◌∙◌, List, [], ◌∷◌, Option, some, arith, length,
  length-set, cell, cell-set, set, get_elem?-eq-cell, ◌==◌, ltb, if◌then◌else◌, Bool, true, false,
  ℕ_discrete, lt→ltb, subst, segment, segment-agree,
}
use thread_scan.Base.Pointer.{ptr_mask, low_bit}
use thread_scan.Reclaim.{handle_loop, handle_unreferenced_ptrs}

-- The words of an array whose low bit is not set, in order.
unfoldable pub unmarked : List ℕ → List ℕ
unmarked [] = []
unmarked (x ∷ xs) = if low_bit x == 0 then x ∷ unmarked xs else unmarked xs

-- The marked addresses in order, without their marks.
unfoldable pub marked : List ℕ → List ℕ
marked [] = []
marked (x ∷ xs) = if low_bit x == 0 then marked xs else ptr_mask x ∷ marked xs

-- The same, with 0 in place of those before the first unmarked word.
unfoldable pub marked_cleared : List ℕ → List ℕ
marked_cleared [] = []
marked_cleared (x ∷ xs) = if low_bit x == 0 then marked xs else 0 ∷ marked_cleared xs

-- What is kept from here on, `moved` once an unmarked word was met.
kept_from : Bool → List ℕ → List ℕ
kept_from true xs = marked xs
kept_from false xs = marked_cleared xs

-- The loop from `i` on, over the words `xs`, returned: it freed `freed`, wrote `kept` from `w` on and
-- left 0 behind, up to `top`.
pub record Handles (w top : ℕ) (a kept freed : List ℕ) (result : Option (ℕ × List ℕ × List ℕ))
    : Type 0 where
  pub out : List ℕ
  pub returns : result ≡ some (w + length kept, out, freed)
  pub same_length : length out ≡ length a
  pub before : (j : ℕ) → j < w → cell out j ≡ cell a j
  pub written : segment out w (length kept) ≡ kept
  pub cleared : (j : ℕ) → w + length kept ≤ j → j < top → cell out j ≡ 0
  pub after : (j : ℕ) → top ≤ j → cell out j ≡ cell a j
  pub in_range : w + length kept ≤ top

module _ (left i w : ℕ) (a : List ℕ) (room : i < length a) (le : w ≤ i) where
  -- One round, on each branch.
  round_free :
      {end : ℕ} {out freed : List ℕ}
      → low_bit (cell a i) ≡ 0
      → handle_loop left (i + 1) w (set a i 0) ≡ some (end, out, freed)
      → handle_loop (suc left) i w a ≡ some (end, out, cell a i ∷ freed)
  unfolding handle_loop
  round_free free e = ground (arith, get_elem?-eq-cell a i, e)

  abbrev moved : List ℕ
  moved = set (set a w (ptr_mask (cell a i))) i 0

  round_keep :
      (low_bit (cell a i) ≡ 0 → ⊥)
      → handle_loop (suc left) i w a ≡ handle_loop left (i + 1) (w + 1) moved
  unfolding handle_loop
  round_keep busy = ground (arith, get_elem?-eq-cell a i, length-set a w (ptr_mask (cell a i)))

  length-moved : length moved ≡ length a
  length-moved =
      length-set (set a w (ptr_mask (cell a i))) i 0 ∙ length-set a w (ptr_mask (cell a i))

  cell-moved :
      (j : ℕ)
      → cell moved j ≡ (if j == i then 0 else if j == w then ptr_mask (cell a i) else cell a j)
  cell-moved j = ground (
    arith,
    length-set a w (ptr_mask (cell a i)),
    cell-set (set a w (ptr_mask (cell a i))) i j 0,
    cell-set a w j (ptr_mask (cell a i)),
  )

-- Whether an unmarked word was met: the write position lags behind.
abbrev lags : ℕ → ℕ → Bool
lags w i = ltb w i

kept_from-free :
    (b : Bool) (x : ℕ) (xs : List ℕ) → low_bit x ≡ 0 → kept_from b (x ∷ xs) ≡ kept_from true xs
unfolding kept_from marked marked_cleared
kept_from-free true x xs h = ground arith
kept_from-free false x xs h = ground arith

kept_from-busy :
    (b : Bool) (x : ℕ) (xs : List ℕ)
    → (low_bit x ≡ 0 → ⊥)
    → kept_from b (x ∷ xs) ≡ (if b then ptr_mask x else 0) ∷ kept_from b xs
unfolding kept_from marked marked_cleared
kept_from-busy true x xs h = ground arith
kept_from-busy false x xs h = ground arith

pub unmarked-free : (x : ℕ) (xs : List ℕ) → low_bit x ≡ 0 → unmarked (x ∷ xs) ≡ x ∷ unmarked xs
unfolding unmarked
unmarked-free x xs h = ground arith

pub unmarked-busy : (x : ℕ) (xs : List ℕ) → (low_bit x ≡ 0 → ⊥) → unmarked (x ∷ xs) ≡ unmarked xs
unfolding unmarked
unmarked-busy x xs h = ground arith

module _ (left i w : ℕ) (a kept freed : List ℕ) (room : i < length a) (le : w ≤ i) where
  Handles-free :
      low_bit (cell a i) ≡ 0
      → Handles w (i + 1 + left) (set a i 0) kept freed (handle_loop left (i + 1) w (set a i 0))
      → Handles w (i + suc left) a kept (cell a i ∷ freed) (handle_loop (suc left) i w a)
  Handles-free free c = record {
    out = c.out;
    returns = round_free left i w a room le free c.returns;
    same_length = c.same_length ∙ length-set a i 0;
    before = λ j p. ground (arith, c.before j p, cell-set a i j 0);
    written = c.written;
    cleared = λ j p q. c.cleared j p (omega arith);
    after = λ j p. ground (arith, c.after j, cell-set a i j 0);
    in_range = omega (arith, c.in_range);
  }

  Handles-busy :
      (low_bit (cell a i) ≡ 0 → ⊥)
      → Handles
          (w + 1)
          (i + 1 + left)
          (moved left i w a room le)
          kept
          freed
          (handle_loop left (i + 1) (w + 1) (moved left i w a room le))
      → Handles w
          (i + suc left)
          a
          ((if lags w i then ptr_mask (cell a i) else 0) ∷ kept)
          freed
          (handle_loop (suc left) i w a)
  Handles-busy busy c = record {
    out = c.out;
    returns =
        round_keep left i w a room le busy
        ∙ (c.returns ∙ ap (λ (n : ℕ). some (n, c.out, freed)) (omega arith));
    same_length = c.same_length ∙ length-moved left i w a room le;
    before = λ j p. ground (arith, c.before j (omega arith), cell-moved left i w a room le j);
    written =
        ap₂ ◌∷◌ (ground (arith, c.before w (omega arith), cell-moved left i w a room le w))
          c.written;
    cleared = λ j p q. c.cleared j (omega arith) (omega arith);
    after = λ j p. ground (arith, c.after j (omega arith), cell-moved left i w a room le j);
    in_range = omega (arith, c.in_range);
  }

handle_loop-Handles :
    (left i w : ℕ) (a : List ℕ)
    → i + left ≤ length a
    → w ≤ i
    → ((j : ℕ) → w ≤ j → j < i → cell a j ≡ 0)
    → Handles w
        (i + left)
        a
        (kept_from (lags w i) (segment a i left))
        (unmarked (segment a i left))
        (handle_loop left i w a)
handle_loop-Handles zero i w a fits le zeros =
    subst (λ ks. Handles w (i + 0) a ks (unmarked []) (handle_loop 0 i w a)) (nothing (lags w i))
      none_left
  where
    nothing : (b : Bool) → [] ≡ kept_from b []
    nothing true = unfold kept_from marked in refl
    nothing false = unfold kept_from marked_cleared in refl

    none_left : Handles w (i + 0) a [] (unmarked []) (handle_loop 0 i w a)
    none_left = record {
      out = a;
      returns = unfold handle_loop unmarked in ap (λ (n : ℕ). some (n, a, [])) (omega arith);
      same_length = refl;
      before = λ j p. refl;
      written = refl;
      cleared = λ j p q. zeros j (omega arith) (omega arith);
      after = λ j p. refl;
      in_range = omega arith;
    }
handle_loop-Handles (suc left) i w a fits le zeros = elim (ℕ_discrete (low_bit (cell a i)) 0) [
  | yes free ↦
      let rest =
        handle_loop-Handles left (i + 1) w (set a i 0) (omega (arith, length-set a i 0))
          (omega arith) (λ j p q. ground (arith, cell-set a i j 0, zeros j)) in
      let same =
        segment-agree (set a i 0) a (i + 1) left (λ j p q. ground (arith, cell-set a i j 0)) in
      rw
        (
          kept_from-free (lags w i) (cell a i) (segment a (i + 1) left) free,
          unmarked-free (cell a i) (segment a (i + 1) left) free,
        )
        (Handles-free left i w a (kept_from true (segment a (i + 1) left))
          (unmarked (segment a (i + 1) left)) (omega arith) le free
          (rw (same, lt→ltb w (i + 1) (omega arith)) at rest))
  | no busy ↦
      let in_a : i < length a = omega arith in
      let m : List ℕ = moved left i w a in_a le in
      let rest =
        handle_loop-Handles left (i + 1) (w + 1) m (omega (arith, length-moved left i w a in_a le))
          (omega arith) (λ j p q. ground (arith, cell-moved left i w a in_a le j, zeros j)) in
      let same =
        segment-agree m a (i + 1) left (λ j p q. ground (arith, cell-moved left i w a in_a le j)) in
      let lag : ltb (w + 1) (i + 1) ≡ ltb w i = ground arith in
      rw
        (
          kept_from-busy (lags w i) (cell a i) (segment a (i + 1) left) busy,
          unmarked-busy (cell a i) (segment a (i + 1) left) busy,
        )
        (Handles-busy left i w a (kept_from (lags w i) (segment a (i + 1) left))
          (unmarked (segment a (i + 1) left)) in_a le busy (rw (same, lag) at rest))
]

-- On the first `count` words of an array, `handle_unreferenced_ptrs` returns and accesses nothing out of
-- range; it frees exactly the words whose low bit is not set, each once and in order; it returns how
-- many the others are, and leaves them in order, without their marks, at the front of the array, but
-- with 0 in place of each that stands before the first freed one; the rest of the first
-- `count` words is 0, and the words behind are not touched.
pub handle_unreferenced_ptrs-Handles :
    (a : List ℕ) (count : ℕ)
    → count ≤ length a
    → Handles 0 count a
        (marked_cleared (segment a 0 count))
        (unmarked (segment a 0 count))
        (handle_unreferenced_ptrs a count)
unfolding handle_unreferenced_ptrs
handle_unreferenced_ptrs-Handles a count h =
    unfold kept_from in
    subst
      (λ top.
        Handles 0 top a (marked_cleared (segment a 0 count)) (unmarked (segment a 0 count))
          (handle_loop count 0 0 a))
      (omega arith)
      (handle_loop-Handles count 0 0 a (omega arith) (omega arith) (λ j p q. absurd (omega arith)))
