-- ===== src/Base/Family.antt =====
-- Families indexed by thread: a write at one index, and how many of the first satisfy a test.
use Prim.Native.Nat.{ℕ, zero, suc, ◌+◌, ◌≤◌, ◌<◌}
use mathlib.Core.Path.{◌≡◌, refl, sym, ap}
use mathlib.Core.Logic.{◌≢◌}
use mathlib.Core.Bool.{Bool, true, false}
use native.Mathlib.Decide.{ℕ_discrete}
use native.Mathlib.Omega.{arith}
use thread_scan.Base.Tests.{◌==◌, if◌then◌else◌}

abbrev pub update {ℓ} : {A : Type ℓ} → (ℕ → A) → ℕ → A → ℕ → A
update f i v j = if i == j then v else f j

module _ {ℓ} {A : Type ℓ} (f : ℕ → A) (i : ℕ) (v : A) (j : ℕ) where
  pub update-at : i ≡ j → update f i v j ≡ v
  update-at here = ground (arith, here)

  pub update-off : i ≢ j → update f i v j ≡ f j
  update-off other = ground (arith, other)

abbrev bit : Bool → ℕ
bit true = 1
bit false = 0

module _ {ℓ} {A : Type ℓ} (test : A → Bool) where
  -- How many of `f 1`, ..., `f n` satisfy the test.
  abbrev pub total : ℕ → (ℕ → A) → ℕ
  total zero f = 0
  total (suc n) f = total n f + bit (test (f (suc n)))

  pub total-le : (n : ℕ) (f : ℕ → A) → total n f ≤ n
  total-le zero f = omega arith
  total-le (suc n) f = ground (arith, total-le n f)

  -- A write with the same outcome of the test, or outside of the range.
  pub total-same :
      (n : ℕ) (f g : ℕ → A)
      → ((j : ℕ) → 0 < j → j ≤ n → test (g j) ≡ test (f j))
      → total n g ≡ total n f
  total-same zero f g same = refl
  total-same (suc n) f g same = omega (
    arith,
    total-same n f g (λ j pos le. same j pos (omega arith)),
    ap bit (same (suc n) (omega arith) (omega arith)),
  )

  pub total-none : (n : ℕ) (f : ℕ → A) → ((j : ℕ) → j ≤ n → test (f j) ≡ false) → total n f ≡ 0
  total-none zero f none_yet = refl
  total-none (suc n) f none_yet = omega (
    arith,
    total-none n f (λ j le. none_yet j (omega arith)),
    ap bit (none_yet (suc n) (omega arith)),
  )

  pub total-full :
      (n : ℕ) (f : ℕ → A) → ((j : ℕ) → 0 < j → j ≤ n → test (f j) ≡ true) → total n f ≡ n
  total-full zero f done = refl
  total-full (suc n) f done = omega (
    arith,
    total-full n f (λ j pos le. done j pos (omega arith)),
    ap bit (done (suc n) (omega arith) (omega arith)),
  )

  -- A write by which the test comes to hold.
  pub total-add :
      (n i : ℕ) (f g : ℕ → A)
      → 0 < i
      → i ≤ n
      → test (f i) ≡ false
      → test (g i) ≡ true
      → ((j : ℕ) → j ≢ i → g j ≡ f j)
      → total n g ≡ total n f + 1
  total-add zero i f g pos le no_before then_after other = absurd (omega arith)
  total-add (suc n) i f g pos le no_before then_after other = elim (ℕ_discrete i (suc n)) [
    | yes here ↦ omega (
      arith,
      total-same n f g (λ j p l. ap test (other j (λ e. absurd (omega (arith, e, here, l))))),
      ap bit no_before,
      ap bit then_after,
      ap (λ j. bit (test (f j))) here,
      ap (λ j. bit (test (g j))) here,
    )
    | no below ↦ omega (
      arith,
      total-add n i f g pos (omega arith) no_before then_after other,
      ap (λ (x : A). bit (test x)) (other (suc n) (λ e. below (sym e))),
    )
  ]

  -- All satisfy the test, if as many do.
  pub total-all : (n i : ℕ) (f : ℕ → A) → n ≤ total n f → 0 < i → i ≤ n → test (f i) ≡ true
  total-all zero i f all pos le = absurd (omega arith)
  total-all (suc n) i f all pos le = elim (ℕ_discrete i (suc n)) [
    | yes here ↦ ground (arith, total-le n f, all, ap (λ j. test (f j)) here)
    | no below ↦ total-all n i f (ground (arith, total-le n f, all)) pos (omega arith)
  ]
