-- ===== src/Helping/Found.antt =====
-- What the reclaimer finds when it returns.
use thread_scan.Base.{
  ℕ, zero, suc, ◌+◌, ◌^◌, ◌≤◌, ◌<◌, ◌≡◌, ◌↔◌, inl, inr, refl, ap, sym, ◌∙◌, subst, List, [], ◌∷◌,
  arith, cell, length, ltb, sub64, ◌/◌, if◌then◌else◌, true, false, total-all, ℕ_discrete, dec_le,
}
use thread_scan.Maps.{MemRange}
use thread_scan.Search.Marking.{IsTracked, Refers}
use thread_scan.Search.Level.{IsScanMap}
use thread_scan.Search.Ranges.{words_of}
use thread_scan.Search.Scan.{AreWords, append-AreWords}
use thread_scan.Helping.{
  Searcher, resting, scanning, finished, Round, Setting, begin_round, Run, own_ranges, load_words,
  search_range,
}
use thread_scan.Helping.Cover.{left, is_finished, IsRound}
use thread_scan.Helping.Keeps.{words_in, begin-IsRound, Run-IsRound}

-- The words of memory are of 64 bits.
load_words-AreWords :
    (memory : ℕ → ℕ)
    → ((a : ℕ) → memory a < 2 ^ 64)
    → (addr count : ℕ) → AreWords (load_words memory addr count)
unfolding load_words
load_words-AreWords memory ws addr zero = tt
load_words-AreWords memory ws addr (suc count) =
    (ws addr, load_words-AreWords memory ws (addr + 8) count)

pub own_ranges-AreWords :
    (memory : ℕ → ℕ)
    → ((a : ℕ) → memory a < 2 ^ 64)
    → (stack block : MemRange) → AreWords (words_of (own_ranges memory stack block))
unfolding own_ranges search_range
own_ranges-AreWords memory ws stack block =
    elim (ltb 0 block.low)
      as (λ b. AreWords (
        words_of (
          if b
          then search_range memory stack ∷ search_range memory block ∷ []
          else search_range memory stack ∷ []))) [
            | true ↦
                append-AreWords (search_range memory stack) _ (one stack)
                  (append-AreWords (search_range memory block) [] (one block) tt)
            | false ↦ append-AreWords (search_range memory stack) [] (one stack) tt
          ]
  where
    one : (range : MemRange) → AreWords (search_range memory range)
    one range = load_words-AreWords memory ws range.low (sub64 range.high range.low / 8)

-- In whatever order the threads take their steps: when the reclaimer has left its waiting loop, each of the
-- `sig_count` helpers has marked itself done, and an address other than 0 is marked exactly if one of the
-- threads, the reclaimer included, has a word in its stack range or its local block that is the address
-- up to its two low bits. The addresses are sorted and aligned (0 may repeat) with the scan map of their
-- pages, and the memory, of 64-bit words, stays as it is in the round.
pub returned_marks :
    (g : Setting) (base : List ℕ) (memory : ℕ → ℕ) (stack block : ℕ → MemRange) (r : Round)
    → IsTracked g.n_addrs base
    → IsScanMap g.n_addrs base g.n_scan_map g.scan_map
    → g.n_addrs ≤ length base
    → ((a : ℕ) → memory a < 2 ^ 64)
    → Run g (begin_round g base (λ i. own_ranges memory (stack i) (block i))) r
    → r.searcher 0 ≡ finished
    → ((i : ℕ) → i ≤ g.sig_count → r.searcher i ≡ finished)
      × ((k : ℕ)
          → k < g.n_addrs
          → 0 < cell base k
          → (cell r.addrs k ≡ cell base k + 1) ↔ (
              (i : ℕ) × (i ≤ g.sig_count)
              × Refers (cell base k) (words_of (own_ranges memory (stack i) (block i)))))
returned_marks g base memory stack block r tr sm fits ws run done =
    let ranges : ℕ → List (List ℕ) = λ i. own_ranges memory (stack i) (block i) in
    let v : IsRound g base (words_in g ranges) r =
      Run-IsRound g base tr sm (words_in g ranges) (begin_round g base ranges) r run (
        begin-IsRound g base tr sm ranges fits
          (λ i. own_ranges-AreWords memory ws (stack i) (block i))) in
    let all_done : (i : ℕ) → i ≤ g.sig_count → r.searcher i ≡ finished = λ i le.
      elim (ℕ_discrete i 0) [
        | yes first ↦ ap (λ j. r.searcher j) first ∙ done
        | no helper ↦ is_finished-eq (r.searcher i) (
            total-all is_finished g.sig_count i r.searcher
              (omega (arith, v.waited (ap is_finished done), v.counted)) (omega arith) le)
      ] in
    (
      all_done,
      λ k h pos. (
        (λ e. let (i, ref) = v.only k h e in reached i (cell base k) ref),
        λ (i, le, ref).
            elim (v.covered i k h pos (subst (Refers (cell base k)) (sym (words_in-eq i le)) ref)) [
              | inl e ↦ e
              | inr later ↦
                  absurd (subst (λ q. Refers (cell base k) (left q)) (all_done i le) later)
            ],
      ),
    )
  where
    ranges' : ℕ → List (List ℕ)
    ranges' i = own_ranges memory (stack i) (block i)

    words_in-eq : (i : ℕ) → i ≤ g.sig_count → words_in g ranges' i ≡ words_of (ranges' i)
    words_in-eq i le = ground (arith, le)

    words_in-none : (i : ℕ) → ¬ i ≤ g.sig_count → words_in g ranges' i ≡ []
    words_in-none i gt = ground (arith, gt)

    reached :
        (i p : ℕ)
        → Refers p (words_in g ranges' i)
        → (j : ℕ) × (j ≤ g.sig_count) × Refers p (words_of (ranges' j))
    reached i p ref = elim (dec_le i g.sig_count) [
      | yes le ↦ (i, le, subst (Refers p) (words_in-eq i le) ref)
      | no gt ↦ absurd (subst (Refers p) (words_in-none i gt) ref)
    ]

    is_finished-eq : (s : Searcher) → is_finished s ≡ true → s ≡ finished
    is_finished-eq (resting ranges) e = absurd (cc e)
    is_finished-eq (scanning lo hi mem rest) e = absurd (cc e)
    is_finished-eq finished e = refl
