-- ===== src/Threads/Find.antt =====
-- The search of the thread list for the stack that holds an address.
use thread_scan.Base.{
  ℕ, zero, suc, ◌+◌, ◌%◌, ◌^◌, ◌<◌, ◌≡◌, refl, ap, sym, ◌∙◌, List, [], ◌∷◌, Option, some, arith,
  ◌==◌, ltb, ◌&&◌, true, false, Bool-cases, inl, inr, length, if◌then◌else◌, ℕ_discrete,
}
use thread_scan.Threads.{Memory, Registry, on_stack, add_ref, find_loop, list_find}
use thread_scan.Threads.Chain.{IsChain}
use thread_scan.Threads.Lists.{IsRegistry, IsRegistry-keep}

-- The first thread of the list whose stack holds the address, or NULL.
abbrev pub first_on : Memory → List ℕ → ℕ → ℕ
first_on m [] addr = 0
first_on m (td ∷ tds) addr = if on_stack (m td) addr then td else first_on m tds addr

-- The store after a reference is taken to what is found.
abbrev pub taken : Memory → ℕ → Memory
taken m zero = m
taken m (suc td) = add_ref m (suc td)

taken-positive : (m : Memory) (td : ℕ) → 0 < td → add_ref m td ≡ taken m td
taken-positive m zero pos = absurd (omega arith)
taken-positive m (suc td) pos = refl

-- One round of the loop, and its end.
find_loop-end : (fuel : ℕ) (m : Memory) (addr : ℕ) → find_loop (suc fuel) m 0 addr ≡ some (0, m)
unfolding find_loop
find_loop-end fuel m addr = refl

find_loop-here :
    (fuel : ℕ) (m : Memory) (td addr : ℕ)
    → 0 < td
    → on_stack (m td) addr ≡ true
    → find_loop (suc fuel) m td addr ≡ some (td, taken m td)
unfolding find_loop
find_loop-here fuel m td addr pos on =
    reads fuel m td addr pos on ∙ ap (λ (n : Memory). some (td, n)) (taken-positive m td pos)
  where
    reads :
        (fuel : ℕ) (m : Memory) (td addr : ℕ)
        → 0 < td
        → on_stack (m td) addr ≡ true
        → find_loop (suc fuel) m td addr ≡ some (td, add_ref m td)
    reads fuel m td addr pos on = ground (arith, on)

find_loop-on :
    (fuel : ℕ) (m : Memory) (td addr : ℕ)
    → 0 < td
    → on_stack (m td) addr ≡ false
    → find_loop (suc fuel) m td addr ≡ find_loop fuel m (m td).next addr
unfolding find_loop
find_loop-on fuel m td addr pos off = ground (arith, off)

first_on-here :
    (m : Memory) (td : ℕ) (tds : List ℕ) (addr : ℕ)
    → on_stack (m td) addr ≡ true
    → first_on m (td ∷ tds) addr ≡ td
first_on-here m td tds addr on = rw on refl

first_on-on :
    (m : Memory) (td : ℕ) (tds : List ℕ) (addr : ℕ)
    → on_stack (m td) addr ≡ false
    → first_on m (td ∷ tds) addr ≡ first_on m tds addr
first_on-on m td tds addr off = rw off refl

find_loop_finds :
    (fuel : ℕ) (m : Memory) (ret addr : ℕ) (tds : List ℕ)
    → length tds < fuel
    → IsChain m ret tds
    → find_loop fuel m ret addr ≡ some (first_on m tds addr, taken m (first_on m tds addr))
find_loop_finds zero m ret addr tds enough c = absurd (omega arith)
find_loop_finds (suc fuel) m ret addr [] enough c = rw c (find_loop-end fuel m addr)
find_loop_finds (suc fuel) m ret addr (td ∷ tds) enough (e, pos, c) =
    let result : ℕ → Option (ℕ × Memory) = λ found. some (found, taken m found) in
    elim (Bool-cases (on_stack (m td) addr)) [
      | inl on ↦
          ap (λ (k : ℕ). find_loop (suc fuel) m k addr) e
          ∙ (find_loop-here fuel m td addr pos on
              ∙ ap result (sym (first_on-here m td tds addr on)))
      | inr off ↦
          ap (λ (k : ℕ). find_loop (suc fuel) m k addr) e
          ∙ (find_loop-on fuel m td addr pos off
              ∙ (find_loop_finds fuel m (m td).next addr tds (omega arith) c
                  ∙ ap result (sym (first_on-on m td tds addr off))))
    ]

-- With a valid registry, `threadscan_util_thread_list_find` ends within one round more than the list
-- is long; it returns the first thread whose stack holds the address, or NULL, takes one reference to
-- it and to no other thread, and leaves both lists as they are.
pub list_find_finds :
    (fuel : ℕ) (r : Registry) (addr : ℕ) (listed staged : List ℕ)
    → length listed < fuel
    → IsRegistry r listed staged
    → let td = first_on r.memory listed addr in
      (s : Registry) × (list_find fuel r addr ≡ some (td, s))
      × IsRegistry s listed staged
      × ((x : ℕ)
          → (s.memory x).ref_count ≡ (
              if ltb 0 x && x == td
              then ((r.memory x).ref_count + 1) % 2 ^ 32
              else (r.memory x).ref_count))
unfolding list_find
list_find_finds fuel r addr listed staged enough v =
    let td : ℕ = first_on r.memory listed addr in
    let found = find_loop_finds fuel r.memory r.head addr listed enough v.in_list in
    (
      record r { memory = taken r.memory td },
      rw found refl,
      taken-IsRegistry td,
      λ x. taken-ref_count td x,
    )
  where
    taken-IsRegistry : (td : ℕ) → IsRegistry (record r { memory = taken r.memory td }) listed staged
    taken-IsRegistry zero = v
    taken-IsRegistry (suc td) =
        IsRegistry-keep r (suc td)
          (record (r.memory (suc td)) { ref_count = ((r.memory (suc td)).ref_count + 1) % 2 ^ 32 })
          listed staged refl v

    taken-ref_count :
        (td x : ℕ)
        → (taken r.memory td x).ref_count ≡ (
            if ltb 0 x && x == td
            then ((r.memory x).ref_count + 1) % 2 ^ 32
            else (r.memory x).ref_count)
    taken-ref_count zero zero = refl
    taken-ref_count zero (suc x) = ground arith
    taken-ref_count (suc td) zero = ground arith
    taken-ref_count (suc td) (suc x) = elim (ℕ_discrete td x) [
      | yes here ↦ ground (arith, ap (λ k. (r.memory (suc k)).ref_count) here)
      | no other ↦ ground arith
    ]
