-- ===== src/Threads/Exit.antt =====
-- The exit of a thread: `threadscan_util_thread_data_decr_ref` and `threadscan_thread_cleanup`.
use thread_scan.Base.{
  ℕ, ◌+◌, ◌-◌, ◌%◌, ◌^◌, ◌≤◌, ◌<◌, ◌≡◌, ◌≢◌, refl, ap, ◌∙◌, subst, List, ◌∷◌, some, arith, ◌==◌,
  true, false, Bool-cases, inl, inr, count, hit, length, if◌then◌else◌, ℕ_discrete, ==_iff,
}
use thread_scan.Threads.{
  ThreadData, Memory, write, link, Registry, sub_ref, decr_ref, thread_cleanup,
}
use thread_scan.Threads.Chain.{IsChain, IsChain-write}
use thread_scan.Threads.Lists.{
  IsRegistry, IsRegistry-keep, erase, erase-once, list_remove-IsRegistry,
}

-- A thread that is on no list becomes the first of the staged ones.
IsRegistry-stage :
    (r : Registry) (td : ℕ) (listed staged : List ℕ)
    → IsRegistry r listed staged
    → 0 < td
    → count td listed + count td staged ≡ 0
    → IsRegistry (record r { memory = link r.memory td r.staged; staged = td }) listed (td ∷ staged)
IsRegistry-stage r td listed staged v pos new =
    let d : ThreadData = record (r.memory td) { next = r.staged } in
    record {
      in_list = IsChain-write r.memory r.head td d listed (omega arith) v.in_list;
      in_staged = (
        refl,
        pos,
        subst (λ p. IsChain (link r.memory td r.staged) p staged) (ground arith)
            (IsChain-write r.memory r.staged td d staged (omega arith) v.in_staged),
      );
      once = λ x. elim (ℕ_discrete x td) [
        | yes here ↦ ground (arith, v.once x, ap (λ k. count k listed + count k staged) here)
        | no other ↦ ground (arith, v.once x)
      ];
    }

-- The count that is left.
sub_ref-here :
    (m : Memory) (td : ℕ) → (sub_ref m td td).ref_count ≡ ((m td).ref_count + 2 ^ 32 - 1) % 2 ^ 32
sub_ref-here m td = ground arith

pub decr_ref-last :
    (r : Registry) (td : ℕ)
    → (r.memory td).ref_count ≡ 1
    → decr_ref r td ≡ record r { memory = link (sub_ref r.memory td) td r.staged; staged = td }
unfolding decr_ref
decr_ref-last r td e =
    let z : ((sub_ref r.memory td td).ref_count == 0) ≡ true =
      (==_iff (sub_ref r.memory td td).ref_count 0).1 (sub_ref-here r.memory td ∙ omega arith) in
    rw z refl

decr_ref-shared :
    (r : Registry) (td : ℕ)
    → (r.memory td).ref_count < 2 ^ 32
    → (r.memory td).ref_count ≢ 1
    → decr_ref r td ≡ record r { memory = sub_ref r.memory td }
unfolding decr_ref
decr_ref-shared r td word e = elim (Bool-cases ((sub_ref r.memory td td).ref_count == 0)) [
  | inl z ↦ absurd (
      omega (arith, e, sub_ref-here r.memory td, (==_iff (sub_ref r.memory td td).ref_count 0).0 z))
  | inr z ↦ rw z refl
]

-- The last reference stages the thread.
decr_ref-IsRegistry :
    (r : Registry) (td : ℕ) (listed staged : List ℕ)
    → IsRegistry r listed staged
    → 0 < td
    → count td listed + count td staged ≡ 0
    → (r.memory td).ref_count < 2 ^ 32
    → IsRegistry
        (decr_ref r td)
        listed
        (if (r.memory td).ref_count == 1 then td ∷ staged else staged)
decr_ref-IsRegistry r td listed staged v pos new word =
    let d : ThreadData = record (r.memory td) {
      ref_count = ((r.memory td).ref_count + 2 ^ 32 - 1) % 2 ^ 32;
    } in
    let kept = IsRegistry-keep r td d listed staged refl v in
    elim (ℕ_discrete (r.memory td).ref_count 1) [
      | yes last ↦
          rw (decr_ref-last r td last, (==_iff (r.memory td).ref_count 1).1 last)
            (IsRegistry-stage (record r { memory = sub_ref r.memory td }) td listed staged kept pos
              new)
      | no shared ↦
          let b : ((r.memory td).ref_count == 1) ≡ false = ground (arith, shared) in
          rw (decr_ref-shared r td word shared, b) kept
    ]

-- `threadscan_thread_cleanup` of a thread on the thread list: it ends, and takes the thread out of the
-- thread list; the thread is staged to free if its own reference was the last one, and otherwise is
-- on no list, so that the two lists never share a link.
pub thread_cleanup-IsRegistry :
    (fuel : ℕ) (r : Registry) (td : ℕ) (listed staged : List ℕ)
    → length listed ≤ fuel
    → IsRegistry r listed staged
    → 0 < td
    → 0 < count td listed
    → (r.memory td).ref_count < 2 ^ 32
    → (s : Registry) × (thread_cleanup fuel r td ≡ some s)
      × IsRegistry s
          (erase td listed)
          (if (r.memory td).ref_count == 1 then td ∷ staged else staged)
unfolding thread_cleanup
thread_cleanup-IsRegistry fuel r td listed staged enough v pos on word =
    let d : ThreadData = record (r.memory td) { is_active = 0 } in
    let idle : Registry = record r { memory = write r.memory td d } in
    let (s, ret, w, refs) =
      list_remove-IsRegistry fuel idle td listed staged enough
        (IsRegistry-keep r td d listed staged refl v) on in
    let same : (s.memory td).ref_count ≡ (r.memory td).ref_count = refs td ∙ ground arith in
    (
      decr_ref s td,
      rw ret refl,
      subst
          (λ (k : ℕ).
            IsRegistry (decr_ref s td) (erase td listed) (if k == 1 then td ∷ staged else staged))
          same
          (decr_ref-IsRegistry s td (erase td listed) staged w pos
            (omega (arith, v.once td, erase-once td listed on td, hit-self td))
            (omega (arith, same))),
    )
  where
    hit-self : (x : ℕ) → hit x x ≡ 1
    hit-self x = ground arith
