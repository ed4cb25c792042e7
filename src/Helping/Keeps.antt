-- ===== src/Helping/Keeps.antt =====
-- Every step of a round keeps its invariant, and the start has it.
use thread_scan.Base.{
  ℕ, ◌+◌, ◌-◌, ◌≤◌, ◌≡◌, inl, inr, refl, ap, sym, ◌∙◌, subst, List, [], arith, cell, length, leb,
  if◌then◌else◌, true, false, update, update-at, update-off, total-same, total-add, total-none,
  dec_le,
}
use thread_scan.Search.Marking.{IsTracked, Refers}
use thread_scan.Search.Level.{IsScanMap}
use thread_scan.Search.Ranges.{words_of}
use thread_scan.Search.Scan.{AreWords}
use thread_scan.Helping.{
  Searcher, resting, scanning, finished, Round, Setting, Step, begins, scans, ends, counts, returns,
  begin_round, Run, started, stepped,
}
use thread_scan.Helping.Cover.{left, is_finished, HasEnds, IsRound, move-IsRound, quiet-IsRound}
use thread_scan.Helping.Steps.{IsEnd-get_elem, scans-IsRound}

-- The words that each thread has to search in the round.
abbrev pub words_in : Setting → (ℕ → List (List ℕ)) → ℕ → List ℕ
words_in g ranges i = if leb i g.sig_count then words_of (ranges i) else []

module _ (g : Setting) (base : List ℕ) (tr : IsTracked g.n_addrs base)
    (sm : IsScanMap g.n_addrs base g.n_scan_map g.scan_map) where
  Step-IsRound :
      (words : ℕ → List ℕ) (r s : Round)
      → Step g r s
      → IsRound g base words r
      → IsRound g base words s
  Step-IsRound words _ _ (begins r i lo hi mem rest at got_lo got_hi) v =
      quiet-IsRound g base words r v i (scanning lo hi mem rest) (sym (ap left at))
        (
          IsEnd-get_elem g base words tr sm r.addrs 0 lo tr.some_addr v.marking got_lo,
          IsEnd-get_elem g base words tr sm r.addrs (g.n_addrs - 1) hi (omega (arith, tr.some_addr))
              v.marking got_hi,
        )
        (ap is_finished at) refl
  Step-IsRound words _ _ (scans r i lo hi w mem rest addrs at got) v =
      scans-IsRound g base words tr sm r i lo hi w mem rest addrs at got v
  Step-IsRound words _ _ (ends r i lo hi rest at) v =
      quiet-IsRound g base words r v i (resting rest) (sym (ap left at)) tt (ap is_finished at) refl
  Step-IsRound words _ _ (counts r i pos le at) v =
      move-IsRound g base words r v i finished (sym (ap left at)) tt (r.self_stacks_searched + 1)
        (ap (λ c. c + 1) v.counted
          ∙ sym (
              total-add is_finished g.sig_count i r.searcher (update r.searcher i finished) pos le
                (ap is_finished at) (ap is_finished (update-at r.searcher i finished i refl))
                (λ j ne. update-off r.searcher i finished j (λ e. ne (sym e)))))
        (λ h. omega (
          arith,
          v.waited (
              sym (
                ap is_finished
                  (update-off r.searcher i finished 0 (λ e. absurd (omega (arith, e, pos)))))
              ∙ h),
        ))
  Step-IsRound words _ _ (returns r at le) v =
      move-IsRound g base words r v 0 finished (sym (ap left at)) tt r.self_stacks_searched
        (v.counted
          ∙ sym (
              total-same is_finished g.sig_count r.searcher (update r.searcher 0 finished)
                (λ j pos l.
                  ap is_finished
                    (update-off r.searcher 0 finished j (λ e. absurd (omega (arith, e, pos)))))))
        (λ h. le)

  -- The start of a round, if the memory has words of 64 bits.
  pub begin-IsRound :
      (ranges : ℕ → List (List ℕ))
      → g.n_addrs ≤ length base
      → ((i : ℕ) → AreWords (words_of (ranges i)))
      → IsRound g base (words_in g ranges) (begin_round g base ranges)
  begin-IsRound ranges fits ws = record {
    marking = record { fits = fits; each = λ i h. inl refl };
    in_words = λ i. subst AreWords (sym (same_left i)) (are_words i);
    own_words = λ i p h. subst (Refers p) (same_left i) h;
    read_ends = has_ends;
    covered = λ i k h pos ref. inr (subst (Refers (cell base k)) (sym (same_left i)) ref);
    only = λ k h e. absurd (omega (arith, e));
    counted = sym (total-none is_finished g.sig_count start not_done);
    waited = λ h. absurd (cc (h, not_done 0 (omega arith)));
  }
    where
      start : ℕ → Searcher
      start i = if leb i g.sig_count then resting (ranges i) else finished

      same_left : (i : ℕ) → left (start i) ≡ words_in g ranges i
      same_left i = elim (dec_le i g.sig_count) [
        | yes le ↦ ground (arith, le)
        | no gt ↦ ground (arith, gt)
      ]

      are_words : (i : ℕ) → AreWords (words_in g ranges i)
      are_words i =
          elim (leb i g.sig_count) as (λ b. AreWords (if b then words_of (ranges i) else [])) [
            | true ↦ ws i
            | false ↦ tt
          ]

      has_ends : (i : ℕ) → HasEnds g.n_addrs base base (start i)
      has_ends i =
          elim (leb i g.sig_count)
            as (λ b. HasEnds g.n_addrs base base (if b then resting (ranges i) else finished)) [
              | true ↦ tt
              | false ↦ tt
            ]

      not_done : (i : ℕ) → i ≤ g.sig_count → is_finished (start i) ≡ false
      not_done i le = ground (arith, le)

  pub Run-IsRound :
      (words : ℕ → List ℕ) (r s : Round)
      → Run g r s
      → IsRound g base words r
      → IsRound g base words s
  Run-IsRound words r _ started v = v
  Run-IsRound words r _ (stepped {s} {t} before step) v =
      Step-IsRound words s t step (Run-IsRound words r s before v)
