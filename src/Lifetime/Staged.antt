-- ===== src/Lifetime/Staged.antt =====
-- The walk along the threads that are staged to free, and the unlinking.
use thread_scan.Base.{
  ℕ, zero, suc, ◌≤◌, ◌<◌, ◌≡◌, ◌≢◌, refl, ap, sym, ◌∙◌, subst, List, [], ◌∷◌, some, arith, ◌==◌,
  true, false, Bool-cases, inl, inr, count, length, if◌then◌else◌,
}
use thread_scan.Threads.{ThreadData, Memory, link}
use thread_scan.Threads.Chain.{IsChain, IsChain-write}
use thread_scan.Threads.Lists.{erase, erase-head, erase-tail}
use thread_scan.Lifetime.{cleanup_loop}

-- The first thread of a list with the identifier, or NULL.
abbrev pub first_self : Memory → ℕ → List ℕ → ℕ
first_self m tid [] = 0
first_self m tid (td ∷ tds) = if (m td).self == tid then td else first_self m tid tds

pub first_self-here :
    (m : Memory) (tid td : ℕ) (tds : List ℕ)
    → ((m td).self == tid) ≡ true
    → first_self m tid (td ∷ tds) ≡ td
first_self-here m tid td tds e = rw e refl

pub first_self-on :
    (m : Memory) (tid td : ℕ) (tds : List ℕ)
    → ((m td).self == tid) ≡ false
    → first_self m tid (td ∷ tds) ≡ first_self m tid tds
first_self-on m tid td tds e = rw e refl

pub count-first_self :
    (m : Memory) (tid : ℕ) (tds : List ℕ)
    → 0 < first_self m tid tds
    → 0 < count (first_self m tid tds) tds
count-first_self m tid [] h = absurd (omega arith)
count-first_self m tid (td ∷ tds) h = elim (Bool-cases ((m td).self == tid)) [
  | inl e ↦ rw e (ground arith)
  | inr e ↦
      subst (λ (k : ℕ). 0 < count k (td ∷ tds)) (sym (first_self-on m tid td tds e))
        (omega (
          arith,
          count-first_self m tid tds (subst (λ (k : ℕ). 0 < k) (first_self-on m tid td tds e) h),
        ))
]

pub cleanup_loop-here :
    (fuel : ℕ) (m : Memory) (last td tid : ℕ)
    → 0 < td
    → ((m td).self == tid) ≡ true
    → cleanup_loop (suc fuel) m last td tid ≡ some (last, td)
unfolding cleanup_loop
cleanup_loop-here fuel m last td tid pos e = ground (arith, e)

pub cleanup_loop-on :
    (fuel : ℕ) (m : Memory) (last td tid : ℕ)
    → 0 < td
    → ((m td).self == tid) ≡ false
    → cleanup_loop (suc fuel) m last td tid ≡ cleanup_loop fuel m td (m td).next tid
unfolding cleanup_loop
cleanup_loop-on fuel m last td tid pos e = ground (arith, e)

link-other : (m : Memory) (td p x : ℕ) → td ≢ x → (link m td p x).next ≡ (m x).next
link-other m td p x other = ground (arith, other)

-- The walk behind a thread `last` of the list.
pub cleanup_loop_unlinks :
    (fuel : ℕ) (m : Memory) (last tid : ℕ) (tds : List ℕ)
    → length tds ≤ fuel
    → IsChain m last (last ∷ tds)
    → ((x : ℕ) → count x (last ∷ tds) ≤ 1)
    → 0 < first_self m tid tds
    → let td = first_self m tid tds in
      (l : ℕ) × (cleanup_loop fuel m last (m last).next tid ≡ some (l, td))
      × (0 < l)
      × (0 < count l (last ∷ tds))
      × IsChain (link m l (m td).next) last (last ∷ erase td tds)
cleanup_loop_unlinks fuel m last tid [] enough c once on = absurd (omega arith)
cleanup_loop_unlinks zero m last tid (y ∷ ys) enough c once on = absurd (omega arith)
cleanup_loop_unlinks (suc fuel) m last tid (y ∷ ys) enough (_, pos, (e, pos', c)) once on =
    let single : count last (y ∷ ys) ≡ 0 = ground (arith, once last) in
    elim (Bool-cases ((m y).self == tid)) [
      | inl here ↦
          let d : ThreadData = record (m last) { next = (m y).next } in
          subst
            (λ (td : ℕ).
              (l : ℕ) × (cleanup_loop (suc fuel) m last (m last).next tid ≡ some (l, td))
              × (0 < l)
              × (0 < count l (last ∷ y ∷ ys))
              × IsChain (link m l (m td).next) last (last ∷ erase td (y ∷ ys)))
            (sym (first_self-here m tid y ys here))
            (
              last,
              ap (λ (k : ℕ). cleanup_loop (suc fuel) m last k tid) e
                  ∙ cleanup_loop-here fuel m last y tid pos' here,
              pos,
              ground arith,
              subst (λ xs. IsChain (link m last (m y).next) last (last ∷ xs))
                  (sym (erase-head y y ys refl))
                  (
                    refl,
                    pos,
                    subst (λ p. IsChain (link m last (m y).next) p ys) (ground arith)
                        (IsChain-write m (m y).next last d ys (omega arith) c),
                  ),
            )
      | inr later ↦
          let t : ℕ = first_self m tid ys in
          let there : 0 < t = subst (λ (k : ℕ). 0 < k) (first_self-on m tid y ys later) on in
          let (l, ret, l_pos, l_on, (_, _, c')) =
            cleanup_loop_unlinks fuel m y tid ys (omega arith) (refl, pos', c)
              (λ x. omega (arith, once x)) there in
          let differs : y ≢ t = λ same. ground (
            arith,
            once y,
            subst (λ (k : ℕ). 0 < count k ys) (sym same) (count-first_self m tid ys there),
          ) in
          let other : l ≢ last =
            λ same. omega (arith, l_on, ap (λ (k : ℕ). count k (y ∷ ys)) same, single) in
          subst
            (λ (td : ℕ).
              (l : ℕ) × (cleanup_loop (suc fuel) m last (m last).next tid ≡ some (l, td))
              × (0 < l)
              × (0 < count l (last ∷ y ∷ ys))
              × IsChain (link m l (m td).next) last (last ∷ erase td (y ∷ ys)))
            (sym (first_self-on m tid y ys later))
            (
              l,
              ap (λ (k : ℕ). cleanup_loop (suc fuel) m last k tid) e
                  ∙ (cleanup_loop-on fuel m last y tid pos' later ∙ ret),
              l_pos,
              omega arith,
              subst (λ xs. IsChain (link m l (m t).next) last (last ∷ xs))
                  (sym (erase-tail t y ys differs))
                  (refl, pos, (link-other m l (m t).next last other ∙ e, pos', c')),
            )
    ]
