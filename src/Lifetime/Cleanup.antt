-- ===== src/Lifetime/Cleanup.antt =====
-- `threadscan_util_thread_data_cleanup` as a whole.
use thread_scan.Base.{
  ℕ, zero, suc, ◌+◌, ◌≤◌, ◌<◌, ◌≡◌, ◌≢◌, refl, ap, sym, ◌∙◌, subst, List, [], ◌∷◌, ◌++◌, some,
  arith, ◌==◌, false, Bool-cases, inl, inr, count, length, if◌then◌else◌, ℕ_discrete,
}
use thread_scan.Threads.{ThreadData, Memory, Registry, link}
use thread_scan.Threads.Chain.{IsChain, IsChain-write}
use thread_scan.Threads.Lists.{IsRegistry, erase, erase-once, erase-head, erase-tail}
use thread_scan.Lifetime.{cleanup_loop, unlink_staged, data_free, data_cleanup}
use thread_scan.Lifetime.Staged.{
  first_self, first_self-here, first_self-on, count-first_self, cleanup_loop-here, cleanup_loop-on,
  cleanup_loop_unlinks,
}

-- What a link leaves of the metadata.
pub record IsRelinked (d d' : ThreadData) : Type 0 where
  pub same_count : d'.ref_count ≡ d.ref_count
  pub same_elements : d'.elements ≡ d.elements
  pub same_low : d'.user_stack_low ≡ d.user_stack_low
  pub same_ours : d'.stack_is_ours ≡ d.stack_is_ours

IsRelinked-refl : (d : ThreadData) → IsRelinked d d
IsRelinked-refl d = record {
  same_count = refl;
  same_elements = refl;
  same_low = refl;
  same_ours = refl;
}

link-IsRelinked : (m : Memory) (td p x : ℕ) → IsRelinked (m x) (link m td p x)
link-IsRelinked m td p x = elim (ℕ_discrete td x) [
  | yes here ↦ record {
    same_count = ground (arith, ap (λ k. (m k).ref_count) here);
    same_elements = ground (arith, ap (λ k. (m k).elements) here);
    same_low = ground (arith, ap (λ k. (m k).user_stack_low) here);
    same_ours = ground (arith, ap (λ k. (m k).stack_is_ours) here);
  }
  | no other ↦ record {
    same_count = ground arith;
    same_elements = ground arith;
    same_low = ground arith;
    same_ours = ground arith;
  }
]

unlink_staged-behind :
    (r : Registry) (last td : ℕ)
    → 0 < last
    → unlink_staged r last td ≡ record r { memory = link r.memory last (r.memory td).next }
unfolding unlink_staged
unlink_staged-behind r last td pos = let z : (last == 0) ≡ false = ground arith in rw z refl

unlink_staged-first :
    (r : Registry) (td : ℕ) → unlink_staged r 0 td ≡ record r { staged = (r.memory td).next }
unfolding unlink_staged
unlink_staged-first r td = refl

-- The loop and the unlinking: a registry `s` in which the thread is on no list.
cleanup_unlinks :
    (fuel : ℕ) (r : Registry) (tid : ℕ) (listed staged : List ℕ)
    → length staged ≤ fuel
    → IsRegistry r listed staged
    → 0 < first_self r.memory tid staged
    → let td = first_self r.memory tid staged in
      (last : ℕ) × (cleanup_loop fuel r.memory 0 r.staged tid ≡ some (last, td))
      × IsRegistry (unlink_staged r last td) listed (erase td staged)
      × IsRelinked (r.memory td) ((unlink_staged r last td).memory td)
      × ((unlink_staged r last td).unmapped ≡ r.unmapped)
cleanup_unlinks fuel r tid listed [] enough v on = absurd (omega arith)
cleanup_unlinks zero r tid listed (y ∷ ys) enough v on = absurd (omega arith)
cleanup_unlinks (suc fuel) r tid listed (y ∷ ys) enough v on =
    let t : ℕ = first_self r.memory tid (y ∷ ys) in
    let (e, pos, c) = v.in_staged in
    let once : (k : ℕ) → count k listed + count k (erase t (y ∷ ys)) ≤ 1 = λ k.
      omega
        (arith, v.once k, erase-once t (y ∷ ys) (count-first_self r.memory tid (y ∷ ys) on) k) in
    elim (Bool-cases ((r.memory y).self == tid)) [
      | inl here ↦
          let same : t ≡ y = first_self-here r.memory tid y ys here in
          let gone : erase t (y ∷ ys) ≡ ys = erase-head t y ys (sym same) in
          (
            0,
            ap (λ (k : ℕ). cleanup_loop (suc fuel) r.memory 0 k tid) e
                ∙ (cleanup_loop-here fuel r.memory 0 y tid pos here
                    ∙ ap (λ (k : ℕ). some (0, k)) (sym same)),
            subst (λ s. IsRegistry s listed (erase t (y ∷ ys))) (sym (unlink_staged-first r t))
                (record {
                  in_list = v.in_list;
                  in_staged =
                      subst (λ xs. IsChain r.memory (r.memory t).next xs) (sym gone)
                        (subst (λ (k : ℕ). IsChain r.memory (r.memory k).next ys) (sym same) c);
                  once = once;
                }),
            subst (λ (s : Registry). IsRelinked (r.memory t) (s.memory t))
                (sym (unlink_staged-first r t)) (IsRelinked-refl (r.memory t)),
            ap (λ (s : Registry). s.unmapped) (unlink_staged-first r t),
          )
      | inr later ↦
          let there : t ≡ first_self r.memory tid ys = first_self-on r.memory tid y ys later in
          let on' : 0 < first_self r.memory tid ys = subst (λ (k : ℕ). 0 < k) there on in
          let (l, ret, l_pos, l_on, chain) =
            cleanup_loop_unlinks fuel r.memory y tid ys (omega arith) (refl, pos, c)
              (λ x. omega (arith, v.once x)) on' in
          let differs : y ≢ first_self r.memory tid ys = λ same. ground (
            arith,
            v.once y,
            subst (λ (k : ℕ). 0 < count k ys) (sym same) (count-first_self r.memory tid ys on'),
          ) in
          let step : unlink_staged r l (first_self r.memory tid ys)
              ≡ record r { memory = link r.memory l (r.memory (first_self r.memory tid ys)).next } =
            unlink_staged-behind r l (first_self r.memory tid ys) l_pos in
          let d : ThreadData = record (r.memory l) {
            next = (r.memory (first_self r.memory tid ys)).next;
          } in
          subst
            (λ (td : ℕ).
              (last : ℕ) × (cleanup_loop (suc fuel) r.memory 0 r.staged tid ≡ some (last, td))
              × IsRegistry (unlink_staged r last td) listed (erase td (y ∷ ys))
              × IsRelinked (r.memory td) ((unlink_staged r last td).memory td)
              × ((unlink_staged r last td).unmapped ≡ r.unmapped))
            (sym there)
            (
              l,
              ap (λ (k : ℕ). cleanup_loop (suc fuel) r.memory 0 k tid) e
                  ∙ (cleanup_loop-on fuel r.memory 0 y tid pos later ∙ ret),
              subst (λ s. IsRegistry s listed (erase (first_self r.memory tid ys) (y ∷ ys)))
                  (sym step)
                  (record {
                    in_list =
                        IsChain-write r.memory r.head l d listed (omega (arith, v.once l, l_on))
                          v.in_list;
                    in_staged =
                        subst
                          (λ xs.
                            IsChain (link r.memory l (r.memory (first_self r.memory tid ys)).next)
                              r.staged xs)
                          (sym (erase-tail (first_self r.memory tid ys) y ys differs))
                          (e, chain.1, chain.2);
                    once =
                        subst
                          (λ (td : ℕ). (k : ℕ) → count k listed + count k (erase td (y ∷ ys)) ≤ 1)
                          there once;
                  }),
              subst
                  (λ (s : Registry).
                    IsRelinked (r.memory (first_self r.memory tid ys))
                      (s.memory (first_self r.memory tid ys)))
                  (sym step)
                  (link-IsRelinked r.memory l (r.memory (first_self r.memory tid ys)).next
                    (first_self r.memory tid ys)),
              ap (λ (s : Registry). s.unmapped) step,
            )
    ]

-- What is unmapped: the stack, where it is ours, the array of the queue, and the metadata itself.
abbrev pub unmaps : ThreadData → ℕ → List ℕ
unmaps d td =
    if d.stack_is_ours == 0 then d.elements ∷ td ∷ [] else d.user_stack_low ∷ d.elements ∷ td ∷ []

append-snoc : (us : List ℕ) (x : ℕ) (ys : List ℕ) → (us ++ (x ∷ [])) ++ ys ≡ us ++ (x ∷ ys)
append-snoc [] x ys = refl
append-snoc (u ∷ us) x ys = ap (λ zs. u ∷ zs) (append-snoc us x ys)

pub append_unmaps :
    (us : List ℕ) (low ours e td : ℕ)
    → (if ours == 0 then us else us ++ (low ∷ [])) ++ (e ∷ td ∷ [])
      ≡ us ++ (if ours == 0 then e ∷ td ∷ [] else low ∷ e ∷ td ∷ [])
append_unmaps us low ours e td = elim (Bool-cases (ours == 0)) [
  | inl user ↦ rw user refl
  | inr own ↦ rw own (append-snoc us low (e ∷ td ∷ []))
]

-- With a valid registry in which a thread with the identifier `tid` is staged to free and has no
-- reference left, `threadscan_util_thread_data_cleanup` ends within as many rounds as the staged list
-- is long; it takes the first such thread, and no other, out of the staged list, leaves the thread
-- list, and unmaps its own stack if it has one, then its queue's array and its metadata.
pub data_cleanup-unmaps :
    (fuel : ℕ) (r : Registry) (tid : ℕ) (listed staged : List ℕ)
    → length staged ≤ fuel
    → IsRegistry r listed staged
    → 0 < first_self r.memory tid staged
    → (r.memory (first_self r.memory tid staged)).ref_count ≡ 0
    → let td = first_self r.memory tid staged in
      (s : Registry) × (data_cleanup fuel r tid ≡ some s)
      × IsRegistry s listed (erase td staged)
      × (s.unmapped ≡ r.unmapped ++ unmaps (r.memory td) td)
unfolding data_cleanup data_free
data_cleanup-unmaps fuel r tid listed staged enough v on zero_refs =
    let td : ℕ = first_self r.memory tid staged in
    let (last, ret, w, same, mapped) = cleanup_unlinks fuel r tid listed staged enough v on in
    let s : Registry = unlink_staged r last td in
    let d : ThreadData = s.memory td in
    let no_refs : d.ref_count ≡ 0 = same.same_count ∙ zero_refs in
    (
      data_free
          (record s {
            unmapped =
                if d.stack_is_ours == 0 then s.unmapped else s.unmapped ++ (d.user_stack_low ∷ []);
          })
          td,
      rw (ret, no_refs) refl,
      record { in_list = w.in_list; in_staged = w.in_staged; once = w.once },
      append_unmaps s.unmapped d.user_stack_low d.stack_is_ours d.elements td
          ∙ rw (mapped, same.same_ours, same.same_low, same.same_elements) refl,
    )
