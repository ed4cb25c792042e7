-- ===== src/Base/Segment.antt =====
-- Consecutive words of an array, as a list.
use Prim.Native.Nat.{ℕ, zero, suc, ◌+◌, ◌≤◌, ◌<◌}
use mathlib.Core.Path.{◌≡◌, refl, ap, ap₂, ◌∙◌}
use mathlib.Core.List.{List, [], ◌∷◌, ◌++◌}
use native.Mathlib.Omega.{arith}
use thread_scan.Base.Array.{length, cell, count, drop}

-- The `n` words of an array from index `i` on.
abbrev pub segment : List ℕ → ℕ → ℕ → List ℕ
segment a i zero = []
segment a i (suc n) = cell a i ∷ segment a (i + 1) n

pub segment-agree :
    (a b : List ℕ) (i n : ℕ)
    → ((j : ℕ) → i ≤ j → j < i + n → cell a j ≡ cell b j)
    → segment a i n ≡ segment b i n
segment-agree a b i zero h = refl
segment-agree a b i (suc n) h =
    ap₂ ◌∷◌ (h i (omega arith) (omega arith))
      (segment-agree a b (i + 1) n (λ j p q. h j (omega arith) (omega arith)))

pub length-segment : (a : List ℕ) (i n : ℕ) → length (segment a i n) ≡ n
length-segment a i zero = refl
length-segment a i (suc n) = ap suc (length-segment a (i + 1) n)

pub segment-add :
    (a : List ℕ) (i m n : ℕ) → segment a i (m + n) ≡ segment a i m ++ segment a (i + m) n
segment-add a i zero n = ap₂ (segment a) (omega arith) (omega arith)
segment-add a i (suc m) n =
    ap (segment a i) {y = suc (m + n)} (omega arith)
    ∙ ap (λ xs. cell a i ∷ xs)
        (segment-add a (i + 1) m n
          ∙ ap (λ k. segment a (i + 1) m ++ segment a k n) {y = i + suc m} (omega arith))

cell-drop_two : (a : List ℕ) (j : ℕ) → cell (drop 2 a) j ≡ cell a (suc (suc j))
cell-drop_two [] j = refl
cell-drop_two (x ∷ []) j = refl
cell-drop_two (x ∷ y ∷ a) j = refl

pub segment-drop_two : (a : List ℕ) (i n : ℕ) → segment (drop 2 a) i n ≡ segment a (i + 2) n
segment-drop_two a i zero = refl
segment-drop_two a i (suc n) =
    ap₂ ◌∷◌ (cell-drop_two a i ∙ ap (cell a) (omega arith))
      (segment-drop_two a (i + 1) n ∙ ap (λ k. segment a k n) {y = i + 2 + 1} (omega arith))

pub count-append : (v : ℕ) (xs ys : List ℕ) → count v (xs ++ ys) ≡ count v xs + count v ys
count-append v [] ys = omega arith
count-append v (x ∷ xs) ys = omega (arith, count-append v xs ys)
