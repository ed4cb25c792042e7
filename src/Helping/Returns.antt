-- ===== src/Helping/Returns.antt =====
-- The searches of a round come to their end: from any state of it, the threads can go on until the reclaimer
-- returns.
use thread_scan.Base.{
  ℕ, zero, suc, ◌-◌, ◌^◌, ◌≤◌, ◌<◌, ◌≡◌, ◌≢◌, ◌⊎◌, inl, inr, refl, ap, sym, ◌∙◌, subst, List, [],
  ◌∷◌, arith, cell, length, update, update-at, update-off, total, total-full, ℕ_discrete,
  get_elem?-eq-cell,
}
use thread_scan.Maps.{MemRange}
use thread_scan.Search.Marking.{IsTracked}
use thread_scan.Search.Level.{IsScanMap}
use thread_scan.Search.Scan.{AreWords, search_word-Searched}
use thread_scan.Helping.{
  Searcher, resting, scanning, finished, Round, Setting, tracked, Step, begins, scans, ends, counts,
  returns, begin_round, Run, started, stepped, own_ranges,
}
use thread_scan.Helping.Cover.{left, is_finished, HasEnds, IsRound}
use thread_scan.Helping.Keeps.{words_in, begin-IsRound, Run-IsRound}
use thread_scan.Helping.Found.{own_ranges-AreWords}

-- Steps of thread `i` alone, which take it to `target`.
record LeadsTo (g : Setting) (r : Round) (i : ℕ) (target : Searcher) : Type 0 where
  after : Round
  run : Run g r after
  there : after.searcher i ≡ target
  others : (j : ℕ) → j ≢ i → after.searcher j ≡ r.searcher j

finished_or_busy : (s : Searcher) → (s ≡ finished) ⊎ (s ≢ finished)
finished_or_busy (resting ranges) = inr (λ e. absurd (cc e))
finished_or_busy (scanning lo hi mem rest) = inr (λ e. absurd (cc e))
finished_or_busy finished = inl refl

module _ (g : Setting) where
  gets_none : (r : Round) (i : ℕ) (s : Searcher) → r.searcher i ≡ s → LeadsTo g r i s
  gets_none r i s at = record { after = r; run = started; there = at; others = λ j ne. refl }

  run_trans : (r s t : Round) → Run g r s → Run g s t → Run g r t
  run_trans r s _ first started = first
  run_trans r s _ first (stepped {s = u} before step) = stepped (run_trans r s u first before) step

  takes :
      (r s : Round) (i : ℕ) (target : Searcher)
      → Step g r s
      → ((j : ℕ) → s.searcher j ≡ update r.searcher i target j)
      → LeadsTo g r i target
  takes r s i target step same = record {
    after = s;
    run = stepped started step;
    there = same i ∙ update-at r.searcher i target i refl;
    others = λ j ne. same j ∙ update-off r.searcher i target j (λ e. ne (sym e));
  }

  gets_trans :
      (r : Round) (i : ℕ) (mid target : Searcher) (first : LeadsTo g r i mid)
      → LeadsTo g first.after i target
      → LeadsTo g r i target
  gets_trans r i mid target first later = record {
    after = later.after;
    run = run_trans r first.after later.after first.run later.run;
    there = later.there;
    others = λ j ne. later.others j ne ∙ first.others j ne;
  }

module _ (g : Setting) (base : List ℕ) (words : ℕ → List ℕ) (tr : IsTracked g.n_addrs base)
    (sm : IsScanMap g.n_addrs base g.n_scan_map g.scan_map) where
  keeps :
      (r : Round) (i : ℕ) (s : Searcher)
      → IsRound g base words r
      → (got : LeadsTo g r i s) → IsRound g base words got.after
  keeps r i s v got = Run-IsRound g base tr sm words r got.after got.run v

  -- A thread searches the words that are left of a range,
  gets_scanned :
      (lo hi : ℕ) (mem : List ℕ) (rest : List (List ℕ)) (r : Round) (i : ℕ)
      → IsRound g base words r
      → r.searcher i ≡ scanning lo hi mem rest
      → LeadsTo g r i (resting rest)
  gets_scanned lo hi [] rest r i v at =
      takes g r _ i (resting rest) (ends r i lo hi rest at) (λ j. refl)
  gets_scanned lo hi (w ∷ mem) rest r i v at =
      let ws = subst (λ (k : Searcher). AreWords (left k)) at (v.in_words i) in
      let (e, e') = subst (HasEnds g.n_addrs base r.addrs) at (v.read_ends i) in
      let (after, ret, sd) =
        search_word-Searched base (tracked g lo hi) tr sm w r.addrs ws.0 v.marking e e' in
      let first : LeadsTo g r i (scanning lo hi mem rest) =
        takes g r _ i (scanning lo hi mem rest) (scans r i lo hi w mem rest after at ret)
          (λ j. refl) in
      gets_trans g r i (scanning lo hi mem rest) (resting rest) first (
        gets_scanned lo hi mem rest first.after i (keeps r i (scanning lo hi mem rest) v first)
          first.there)

  -- and the ranges that are left.
  gets_searched :
      (ranges : List (List ℕ)) (r : Round) (i : ℕ)
      → IsRound g base words r
      → r.searcher i ≡ resting ranges
      → LeadsTo g r i (resting [])
  gets_searched [] r i v at = gets_none g r i (resting []) at
  gets_searched (mem ∷ rest) r i v at =
      let in_array : (k : ℕ) → k < g.n_addrs → _ =
        λ k h. get_elem?-eq-cell r.addrs k (omega (arith, v.marking.fits)) in
      let last : ℕ = g.n_addrs - 1 in
      let lo : ℕ = cell r.addrs 0 in
      let hi : ℕ = cell r.addrs last in
      let first : LeadsTo g r i (scanning lo hi mem rest) =
        takes g r _ i (scanning lo hi mem rest)
          (begins r i lo hi mem rest at (in_array 0 tr.some_addr)
            (in_array last (omega (arith, tr.some_addr))))
          (λ j. refl) in
      let v' = keeps r i (scanning lo hi mem rest) v first in
      let second = gets_scanned lo hi mem rest first.after i v' first.there in
      let both = gets_trans g r i (scanning lo hi mem rest) (resting rest) first second in
      gets_trans g r i (resting rest) (resting []) both
        (gets_searched rest both.after i (keeps r i (resting rest) v both) both.there)

  gets_rested :
      (r : Round) (i : ℕ) (s : Searcher)
      → IsRound g base words r
      → r.searcher i ≡ s
      → s ≢ finished
      → LeadsTo g r i (resting [])
  gets_rested r i (resting ranges) v at busy = gets_searched ranges r i v at
  gets_rested r i (scanning lo hi mem rest) v at busy =
      let first = gets_scanned lo hi mem rest r i v at in
      gets_trans g r i (resting rest) (resting []) first
        (gets_searched rest first.after i (keeps r i (resting rest) v first) first.there)
  gets_rested r i finished v at busy = absurd (busy refl)

  gets_counted :
      (r : Round) (i : ℕ)
      → IsRound g base words r
      → 0 < i
      → i ≤ g.sig_count
      → LeadsTo g r i finished
  gets_counted r i v pos le = elim (finished_or_busy (r.searcher i)) [
    | inl at ↦ gets_none g r i finished at
    | inr busy ↦
        let rested = gets_rested r i (r.searcher i) v refl busy in
        gets_trans g r i (resting []) finished rested (
          takes g rested.after _ i finished (counts rested.after i pos le rested.there) (λ j. refl))
  ]

  -- The first `n` helpers are done.
  abbrev AreCounted : ℕ → Round → Type 0
  AreCounted n r = (j : ℕ) → 0 < j → j ≤ n → r.searcher j ≡ finished

  all_counted :
      (n : ℕ) (r : Round)
      → n ≤ g.sig_count
      → IsRound g base words r
      → (s : Round) × Run g r s × AreCounted n s × (s.searcher 0 ≡ r.searcher 0)
  all_counted zero r le v = (r, started, (λ j pos l. absurd (omega arith)), refl)
  all_counted (suc n) r le v =
      let (s, run, counted, same) = all_counted n r (omega arith) v in
      let last =
        gets_counted s (suc n) (Run-IsRound g base tr sm words r s run v) (omega arith) le in
      (
        last.after,
        run_trans g r s last.after run last.run,
        (λ j pos l. elim (ℕ_discrete j (suc n)) [
          | yes here ↦ ap (λ m. last.after.searcher m) here ∙ last.there
          | no below ↦ last.others j below ∙ counted j pos (omega arith)
        ]),
        last.others 0 (λ e. absurd (omega (arith, e))) ∙ same,
      )

  -- The reclaimer returns once all helpers are done.
  gets_returned :
      (r : Round) → IsRound g base words r → AreCounted g.sig_count r → LeadsTo g r 0 finished
  gets_returned r v counted = elim (finished_or_busy (r.searcher 0)) [
    | inl at ↦ gets_none g r 0 finished at
    | inr busy ↦
        let rested = gets_rested r 0 (r.searcher 0) v refl busy in
        let all_done : total is_finished g.sig_count rested.after.searcher ≡ g.sig_count =
          total-full is_finished g.sig_count rested.after.searcher λ j pos le.
            ap is_finished
              (rested.others j (λ e. absurd (omega (arith, e, pos))) ∙ counted j pos le) in
        let v' = keeps r 0 (resting []) v rested in
        gets_trans g r 0 (resting []) finished rested (
          takes g rested.after _ 0 finished
            (returns rested.after rested.there (omega (arith, v'.counted, all_done))) (λ j. refl))
  ]

-- From every state of a round, however the threads came to it, there are steps after which the reclaimer has left
-- its waiting loop: no search gets stuck and the count reaches `sig_count`. The addresses are sorted and
-- aligned (0 may repeat) with the scan map of their pages, and the memory is of 64-bit words.
pub round_returns :
    (g : Setting) (base : List ℕ) (memory : ℕ → ℕ) (stack block : ℕ → MemRange) (r : Round)
    → IsTracked g.n_addrs base
    → IsScanMap g.n_addrs base g.n_scan_map g.scan_map
    → g.n_addrs ≤ length base
    → ((a : ℕ) → memory a < 2 ^ 64)
    → Run g (begin_round g base (λ i. own_ranges memory (stack i) (block i))) r
    → (s : Round) × Run g r s × (s.searcher 0 ≡ finished)
round_returns g base memory stack block r tr sm fits ws run =
    let ranges : ℕ → List (List ℕ) = λ i. own_ranges memory (stack i) (block i) in
    let words : ℕ → List ℕ = words_in g ranges in
    let v : IsRound g base words r =
      Run-IsRound g base tr sm words (begin_round g base ranges) r run (
        begin-IsRound g base tr sm ranges fits
          (λ i. own_ranges-AreWords memory ws (stack i) (block i))) in
    let (s, run', counted, same) = all_counted g base words tr sm g.sig_count r (omega arith) v in
    let last =
      gets_returned g base words tr sm s (Run-IsRound g base tr sm words r s run' v) counted in
    (last.after, run_trans g r s last.after run' last.run, last.there)
