-- ===== src/Helping/Steps.antt =====
-- A searched word keeps the invariant of a round.
use thread_scan.Base.{
  ℕ, ◌-◌, ◌<◌, ◌≡◌, inl, inr, ap, sym, ◌∙◌, subst, List, [], ◌∷◌, ◌++◌, some, arith, cell, update,
  update-at, update-off, total-same, ℕ_discrete, get_elem?, get_elem?-eq-cell,
}
use thread_scan.Search.{Tracked, search_word}
use thread_scan.Search.Marking.{IsTracked, IsMarking, Refers, Searched}
use thread_scan.Search.Level.{IsScanMap}
use thread_scan.Search.Ranges.{words_of}
use thread_scan.Search.Scan.{AreWords, IsEnd, search_word-Searched, IsEnd-Searched}
use thread_scan.Helping.{Searcher, resting, scanning, finished, Round, move, Setting, tracked}
use thread_scan.Helping.Cover.{left, is_finished, HasEnds, IsRound}

module _ (g : Setting) (base : List ℕ) (words : ℕ → List ℕ) (tr : IsTracked g.n_addrs base)
    (sm : IsScanMap g.n_addrs base g.n_scan_map g.scan_map) where
  -- An end that is read from the array.
  pub IsEnd-get_elem :
      (addrs : List ℕ) (i end : ℕ)
      → i < g.n_addrs
      → IsMarking g.n_addrs base addrs
      → get_elem? addrs i ≡ some end
      → IsEnd base addrs i end
  IsEnd-get_elem addrs i end h m got =
      let e : cell addrs i ≡ end =
        inj (sym (get_elem?-eq-cell addrs i (omega (arith, m.fits, h))) ∙ got) in
      subst (IsEnd base addrs i) e (ground (arith, m.each i h))
    where
      inj : {a b : ℕ} → some a ≡ some b → a ≡ b
      inj e = cc

  -- A searched word keeps the ends that any thread has read.
  HasEnds-Searched :
      (s : Searcher) (mem addrs after : List ℕ)
      → Searched g.n_addrs base mem addrs after
      → HasEnds g.n_addrs base addrs s
      → HasEnds g.n_addrs base after s
  HasEnds-Searched (resting ranges) mem addrs after r h = tt
  HasEnds-Searched (scanning lo hi ws rest) mem addrs after r (e, e') =
      let t : Tracked = tracked g lo hi in
      (
        IsEnd-Searched base t tr sm 0 lo mem addrs after tr.some_addr r e,
        IsEnd-Searched base t tr sm (g.n_addrs - 1) hi mem addrs after (omega (arith, tr.some_addr))
            r e',
      )
  HasEnds-Searched finished mem addrs after r h = tt

  pub scans-IsRound :
      (r : Round) (i lo hi w : ℕ) (mem : List ℕ) (rest : List (List ℕ)) (addrs : List ℕ)
      → r.searcher i ≡ scanning lo hi (w ∷ mem) rest
      → search_word (tracked g lo hi) w r.addrs ≡ some addrs
      → IsRound g base words r
      → IsRound g base words (record (move r i (scanning lo hi mem rest)) { addrs = addrs })
  scans-IsRound r i lo hi w mem rest addrs at got v =
      let s : Searcher = scanning lo hi mem rest in
      let ws : AreWords (w ∷ (mem ++ words_of rest)) =
        subst (λ (k : Searcher). AreWords (left k)) at (v.in_words i) in
      let (e, e') = subst (HasEnds g.n_addrs base r.addrs) at (v.read_ends i) in
      let (after, ret, sd) =
        search_word-Searched base (tracked g lo hi) tr sm w r.addrs ws.0 v.marking e e' in
      let same : after ≡ addrs = inj (sym ret ∙ got) in
      let searched : Searched g.n_addrs base (w ∷ []) r.addrs addrs =
        subst (Searched g.n_addrs base (w ∷ []) r.addrs) same sd in
      let at_left : left (r.searcher i) ≡ w ∷ (mem ++ words_of rest) = ap left at in
      record {
        marking = searched.marking;
        in_words = λ j. elim (ℕ_discrete i j) [
          | yes here ↦
              subst (λ (k : Searcher). AreWords (left k)) (sym (update-at r.searcher i s j here))
                ws.1
          | no other ↦
              subst (λ (k : Searcher). AreWords (left k)) (sym (update-off r.searcher i s j other))
                (v.in_words j)
        ];
        own_words = λ j p h. elim (ℕ_discrete i j) [
          | yes here ↦
              subst (λ (k : ℕ). Refers p (words k)) here
                (v.own_words i p (
                  subst (Refers p) (sym at_left) (
                    inr (
                      subst (λ (k : Searcher). Refers p (left k)) (update-at r.searcher i s j here)
                        h))))
          | no other ↦
              v.own_words j p
                (subst (λ (k : Searcher). Refers p (left k)) (update-off r.searcher i s j other) h)
        ];
        read_ends = λ j. elim (ℕ_discrete i j) [
          | yes here ↦
              subst (HasEnds g.n_addrs base addrs) (sym (update-at r.searcher i s j here))
                (HasEnds-Searched s (w ∷ []) r.addrs addrs searched (e, e'))
          | no other ↦
              subst (HasEnds g.n_addrs base addrs) (sym (update-off r.searcher i s j other))
                (HasEnds-Searched (r.searcher j) (w ∷ []) r.addrs addrs searched (v.read_ends j))
        ];
        covered = λ j k h pos ref. elim (v.covered j k h pos ref) [
          | inl marked ↦ inl (searched.kept k h marked)
          | inr later ↦ elim (ℕ_discrete i j) [
            | yes here ↦
                elim (subst (Refers (cell base k)) at_left (
                  subst (λ (m : ℕ). Refers (cell base k) (left (r.searcher m))) (sym here) later)) [
                    | inl first ↦ inl (searched.marked k h pos (inl first))
                    | inr rest_later ↦ inr (
                        subst (λ (q : Searcher). Refers (cell base k) (left q))
                          (sym (update-at r.searcher i s j here)) rest_later)
                  ]
            | no other ↦ inr (
                subst (λ (q : Searcher). Refers (cell base k) (left q))
                  (sym (update-off r.searcher i s j other)) later)
          ]
        ];
        only = λ k h marked. elim (searched.only k h marked) [
          | inl before ↦ v.only k h before
          | inr ref ↦ (
            i,
            v.own_words i (cell base k) (
                subst (Refers (cell base k)) (sym at_left)
                  (first_word k w (mem ++ words_of rest) ref)),
          )
        ];
        counted =
            v.counted
            ∙ sym (
                total-same is_finished g.sig_count r.searcher (update r.searcher i s)
                  (λ j pos le. at_done j));
        waited = λ h. v.waited (sym (at_done 0) ∙ h);
      }
    where
      inj : {a b : List ℕ} → some a ≡ some b → a ≡ b
      inj e = cc

      first_word :
          (k w : ℕ) (xs : List ℕ) → Refers (cell base k) (w ∷ []) → Refers (cell base k) (w ∷ xs)
      first_word k w xs (inl e) = inl e
      first_word k w xs (inr no_more) = absurd no_more

      at_done :
          (j : ℕ)
          → is_finished (update r.searcher i (scanning lo hi mem rest) j)
            ≡ is_finished (r.searcher j)
      at_done j = elim (ℕ_discrete i j) [
        | yes here ↦
            ap is_finished (update-at r.searcher i (scanning lo hi mem rest) j here)
            ∙ sym (ap is_finished (ap (λ (m : ℕ). r.searcher m) (sym here) ∙ at))
        | no other ↦ ap is_finished (update-off r.searcher i (scanning lo hi mem rest) j other)
      ]
