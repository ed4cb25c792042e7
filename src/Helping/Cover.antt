-- ===== src/Helping/Cover.antt =====
-- The invariant of a round: what the threads have searched is marked, and nothing else.
use thread_scan.Base.{
  ℕ, ◌+◌, ◌-◌, ◌≤◌, ◌<◌, ◌≡◌, ◌⊎◌, ap, sym, ◌∙◌, subst, List, [], ◌++◌, cell, Bool, true, false,
  update, update-at, update-off, total, total-same, ℕ_discrete,
}
use thread_scan.Search.Marking.{IsMarking, Refers}
use thread_scan.Search.Ranges.{words_of}
use thread_scan.Search.Scan.{AreWords, IsEnd}
use thread_scan.Helping.{Searcher, resting, scanning, finished, Round, move, Setting}

-- The words that a thread has still to search.
abbrev pub left : Searcher → List ℕ
left (resting ranges) = words_of ranges
left (scanning min_ptr max_ptr mem rest) = mem ++ words_of rest
left finished = []

abbrev pub is_finished : Searcher → Bool
is_finished (resting ranges) = false
is_finished (scanning min_ptr max_ptr mem rest) = false
is_finished finished = true

-- The ends that a thread has read.
abbrev pub HasEnds : ℕ → List ℕ → List ℕ → Searcher → Type 0
HasEnds n base addrs (resting ranges) = Unit {0}
HasEnds n base addrs (scanning min_ptr max_ptr mem rest) =
    IsEnd base addrs 0 min_ptr × IsEnd base addrs (n - 1) max_ptr
HasEnds n base addrs finished = Unit {0}

-- `words i` is what thread `i` has to search in the round.
pub record IsRound (g : Setting) (base : List ℕ) (words : ℕ → List ℕ) (r : Round) : Type 0 where
  pub marking : IsMarking g.n_addrs base r.addrs
  pub in_words : (i : ℕ) → AreWords (left (r.searcher i))
  pub own_words : (i p : ℕ) → Refers p (left (r.searcher i)) → Refers p (words i)
  pub read_ends : (i : ℕ) → HasEnds g.n_addrs base r.addrs (r.searcher i)
  pub covered :
      (i k : ℕ)
      → k < g.n_addrs
      → 0 < cell base k
      → Refers (cell base k) (words i)
      → (cell r.addrs k ≡ cell base k + 1) ⊎ Refers (cell base k) (left (r.searcher i))
  pub only :
      (k : ℕ)
      → k < g.n_addrs
      → cell r.addrs k ≡ cell base k + 1
      → (i : ℕ) × Refers (cell base k) (words i)
  pub counted : r.self_stacks_searched ≡ total is_finished g.sig_count r.searcher
  pub waited : is_finished (r.searcher 0) ≡ true → g.sig_count ≤ r.self_stacks_searched

-- A step of thread `i` that leaves the array and the words that are left to search.
module _ (g : Setting) (base : List ℕ) (words : ℕ → List ℕ) (r : Round) (v : IsRound g base words r)
    (i : ℕ) (s : Searcher) (same_left : left s ≡ left (r.searcher i))
    (has_ends : HasEnds g.n_addrs base r.addrs s) where
  at_left : (j : ℕ) → left (update r.searcher i s j) ≡ left (r.searcher j)
  at_left j = elim (ℕ_discrete i j) [
    | yes here ↦
        ap left (update-at r.searcher i s j here) ∙ (same_left ∙ ap (λ k. left (r.searcher k)) here)
    | no other ↦ ap left (update-off r.searcher i s j other)
  ]

  at_ends : (j : ℕ) → HasEnds g.n_addrs base r.addrs (update r.searcher i s j)
  at_ends j = elim (ℕ_discrete i j) [
    | yes here ↦
        subst (HasEnds g.n_addrs base r.addrs) (sym (update-at r.searcher i s j here)) has_ends
    | no other ↦
        subst (HasEnds g.n_addrs base r.addrs) (sym (update-off r.searcher i s j other))
          (v.read_ends j)
  ]

  pub move-IsRound :
      (count : ℕ)
      → count ≡ total is_finished g.sig_count (update r.searcher i s)
      → (is_finished (update r.searcher i s 0) ≡ true → g.sig_count ≤ count)
      → IsRound g base words (record (move r i s) { self_stacks_searched = count })
  move-IsRound count counted waited = record {
    marking = v.marking;
    in_words = λ j. subst AreWords (sym (at_left j)) (v.in_words j);
    own_words = λ j p h. v.own_words j p (subst (Refers p) (at_left j) h);
    read_ends = at_ends;
    covered = λ j k h pos ref.
        subst (λ xs. (cell r.addrs k ≡ cell base k + 1) ⊎ Refers (cell base k) xs) (sym (at_left j))
          (v.covered j k h pos ref);
    only = v.only;
    counted = counted;
    waited = waited;
  }

  -- The same, where the thread is not done before or after.
  module _ (before : is_finished (r.searcher i) ≡ false) (after : is_finished s ≡ false) where
    at_done : (j : ℕ) → is_finished (update r.searcher i s j) ≡ is_finished (r.searcher j)
    at_done j = elim (ℕ_discrete i j) [
      | yes here ↦
          ap is_finished (update-at r.searcher i s j here)
          ∙ (after ∙ (sym before ∙ ap (λ k. is_finished (r.searcher k)) here))
      | no other ↦ ap is_finished (update-off r.searcher i s j other)
    ]

    pub quiet-IsRound : IsRound g base words (move r i s)
    quiet-IsRound =
        move-IsRound r.self_stacks_searched
          (v.counted
            ∙ sym (
                total-same is_finished g.sig_count r.searcher (update r.searcher i s)
                  (λ j pos le. at_done j)))
          (λ h. v.waited (sym (at_done 0) ∙ h))
