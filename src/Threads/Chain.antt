-- ===== src/Threads/Chain.antt =====
-- Which threads a linked list holds, and what writes to the store leave of it.
use thread_scan.Base.{ℕ, ◌<◌, ◌≡◌, ap, sym, subst, List, [], ◌∷◌, arith, count, ℕ_discrete}
use thread_scan.Threads.{ThreadData, Memory, write}

-- From the address `p` the links lead through the addresses of the list to NULL.
abbrev pub IsChain : Memory → ℕ → List ℕ → Type 0
IsChain m p [] = p ≡ 0
IsChain m p (td ∷ tds) = (p ≡ td) × (0 < td) × IsChain m (m td).next tds

-- A store that has the same links on the list.
pub IsChain-frame :
    (m n : Memory) (p : ℕ) (tds : List ℕ)
    → ((td : ℕ) → 0 < count td tds → (n td).next ≡ (m td).next)
    → IsChain m p tds
    → IsChain n p tds
IsChain-frame m n p [] same c = c
IsChain-frame m n p (td ∷ tds) same (e, pos, rest) = (
  e,
  pos,
  IsChain-frame m n (n td).next tds (λ x h. same x (ground (arith, h)))
      (subst (λ q. IsChain m q tds) (sym (same td (ground arith))) rest),
)

-- A write to metadata that is not on the list.
pub IsChain-write :
    (m : Memory) (p td : ℕ) (d : ThreadData) (tds : List ℕ)
    → count td tds ≡ 0
    → IsChain m p tds
    → IsChain (write m td d) p tds
IsChain-write m p td d tds out c =
    IsChain-frame m (write m td d) p tds
      (λ x h. elim (ℕ_discrete td x) [
        | yes here ↦ absurd (omega (arith, ap (λ k. count k tds) here))
        | no other ↦ ground arith
      ])
      c

-- A write that keeps the link.
pub IsChain-keep :
    (m : Memory) (p td : ℕ) (d : ThreadData) (tds : List ℕ)
    → d.next ≡ (m td).next
    → IsChain m p tds
    → IsChain (write m td d) p tds
IsChain-keep m p td d tds same c =
    IsChain-frame m (write m td d) p tds
      (λ x h. elim (ℕ_discrete td x) [
        | yes here ↦ ground (arith, ap (λ k. (m k).next) here)
        | no other ↦ ground arith
      ])
      c
