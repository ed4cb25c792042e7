-- ===== src/Wrappers/Life.antt =====
-- The life of a thread: `pthread_create`, `threadscan_thread_base`, `pthread_exit`, `pthread_join`.
use thread_scan.Base.{
  ℕ, ◌+◌, ◌-◌, ◌≤◌, ◌<◌, ◌≡◌, refl, ap, ap₂, sym, ◌∙◌, subst, List, ◌∷◌, ◌++◌, some, arith, ◌==◌,
  count, length, if◌then◌else◌, Bool, true, ==_iff, sub64, bit_and,
}
use thread_scan.Env.{max_thread_count}
use thread_scan.Threads.{
  ThreadData, Memory, Registry, write, link, sub_ref, list_remove, thread_cleanup,
}
use thread_scan.Threads.Lists.{IsRegistry, IsRegistry-keep, erase, erase-head}
use thread_scan.Threads.Exit.{thread_cleanup-IsRegistry, decr_ref-last}
use thread_scan.Lifetime.{data_cleanup}
use thread_scan.Lifetime.Staged.{first_self, first_self-here}
use thread_scan.Lifetime.Cleanup.{unmaps, data_cleanup-unmaps}
use thread_scan.Wrappers.{Process, Calls, pthread_create, thread_base, pthread_exit, pthread_join}
use thread_scan.Wrappers.Create.{
  AreReady, chosen, listed_process, listed-IsRegistry, listed-IsChosen, listed-unmapped,
  create-succeeds,
}

-- The metadata after `threadscan_thread_base`, and the lists, which it leaves.
pub base-IsRegistry :
    (td tid sp : ℕ) (r : Registry) (listed staged : List ℕ)
    → IsRegistry r listed staged
    → IsRegistry (thread_base td tid sp r) listed staged
unfolding thread_base
base-IsRegistry td tid sp r listed staged v =
    IsRegistry-keep r td
      (record (r.memory td) {
        user_stack_high = sub64 sp (bit_and sp 0xFFF);
        self = tid;
        is_active = 1;
      })
      listed staged refl v

-- The store when the first thread of the list has exited, its reference the last.
abbrev exited : Registry → ℕ → Memory
exited r td =
    let m : Memory = write r.memory td (record (r.memory td) { is_active = 0 }) in
    link (sub_ref m td) td r.staged

cleanup-head :
    (fuel : ℕ) (r : Registry) (td : ℕ)
    → r.head ≡ td
    → (r.memory td).ref_count ≡ 1
    → thread_cleanup fuel r td
      ≡ some (record r { memory = exited r td; head = (r.memory td).next; staged = td })
unfolding thread_cleanup list_remove
cleanup-head fuel r td head refs =
    let m : Memory = write r.memory td (record (r.memory td) { is_active = 0 }) in
    let t : (r.head == td) ≡ true = (==_iff r.head td).1 head in
    let one : (m td).ref_count ≡ 1 = ground (arith, refs) in
    let next : (m td).next ≡ (r.memory td).next = ground arith in
    rw t (
      ap some (
        decr_ref-last (record r { memory = m; head = (m td).next }) td one
        ∙ ap (λ (h : ℕ). record r { memory = exited r td; head = h; staged = td }) next))

-- What an exit leaves of the metadata.
record IsExited (m : Memory) (d : ThreadData) (td : ℕ) : Type 0 where
  no_refs : (m td).ref_count ≡ 0
  same_self : (m td).self ≡ d.self
  same_low : (m td).user_stack_low ≡ d.user_stack_low
  same_ours : (m td).stack_is_ours ≡ d.stack_is_ours
  same_elements : (m td).elements ≡ d.elements

exited-IsExited :
    (r : Registry) (td : ℕ) → (r.memory td).ref_count ≡ 1 → IsExited (exited r td) (r.memory td) td
exited-IsExited r td refs = record {
  no_refs = ground (arith, refs);
  same_self = ground arith;
  same_low = ground arith;
  same_ours = ground arith;
  same_elements = ground arith;
}

-- The metadata after `threadscan_thread_base`.
record IsBased (m n : ThreadData) (tid : ℕ) : Type 0 where
  base_self : n.self ≡ tid
  base_low : n.user_stack_low ≡ m.user_stack_low
  base_ours : n.stack_is_ours ≡ m.stack_is_ours
  base_elements : n.elements ≡ m.elements
  base_count : n.ref_count ≡ m.ref_count

base-IsBased :
    (td tid sp : ℕ) (r : Registry) → IsBased (r.memory td) ((thread_base td tid sp r).memory td) tid
unfolding thread_base
base-IsBased td tid sp r = record {
  base_self = ground arith;
  base_low = ground arith;
  base_ours = ground arith;
  base_elements = ground arith;
  base_count = ground arith;
}

base-same :
    (td tid sp : ℕ) (r : Registry)
    → ((thread_base td tid sp r).head ≡ r.head) × ((thread_base td tid sp r).unmapped ≡ r.unmapped)
unfolding thread_base
base-same td tid sp r = (refl, refl)

inj : (a b : Registry) → some a ≡ some b → a ≡ b
inj a b e = cc

-- The exit of the first thread of the list, its reference the last.
exit-head :
    (fuel : ℕ) (r : Registry) (td : ℕ) (listed staged : List ℕ)
    → length (td ∷ listed) ≤ fuel
    → IsRegistry r (td ∷ listed) staged
    → (r.memory td).ref_count ≡ 1
    → (s : Registry) × (thread_cleanup fuel r td ≡ some s)
      × IsRegistry s listed (td ∷ staged)
      × IsExited s.memory (r.memory td) td
      × (s.unmapped ≡ r.unmapped)
exit-head fuel r td listed staged enough v refs =
    let (head, pos, _) = v.in_list in
    let s : Registry = record r { memory = exited r td; head = (r.memory td).next; staged = td } in
    let ret = cleanup-head fuel r td head refs in
    let (s', ret', w) =
      thread_cleanup-IsRegistry fuel r td (td ∷ listed) staged enough v pos (ground arith)
        (omega (arith, refs)) in
    let t : ((r.memory td).ref_count == 1) ≡ true = (==_iff (r.memory td).ref_count 1).1 refs in
    let staged_td : (if (r.memory td).ref_count == 1 then td ∷ staged else staged) ≡ td ∷ staged =
      rw t refl in
    (
      s,
      ret,
      subst (λ xs. IsRegistry s listed xs) staged_td
          (subst
            (λ xs. IsRegistry s xs (if (r.memory td).ref_count == 1 then td ∷ staged else staged))
            (erase-head td td listed refl)
            (subst
              (λ (k : Registry).
                IsRegistry k (erase td (td ∷ listed))
                  (if (r.memory td).ref_count == 1 then td ∷ staged else staged))
              (inj s' s (sym ret' ∙ ret)) w)),
      exited-IsExited r td refs,
      refl,
    )

-- The join of a thread whose metadata is the first that is staged.
join-head :
    (fuel : ℕ) (s : Registry) (d : ThreadData) (td tid : ℕ) (listed staged : List ℕ)
    → length (td ∷ staged) ≤ fuel
    → IsRegistry s listed (td ∷ staged)
    → IsExited s.memory d td
    → d.self ≡ tid
    → (f : Registry) × (data_cleanup fuel s tid ≡ some f)
      × IsRegistry f listed staged
      × (f.unmapped ≡ s.unmapped ++ unmaps d td)
join-head fuel s d td tid listed staged enough w x at =
    let first : first_self s.memory tid (td ∷ staged) ≡ td =
      first_self-here s.memory tid td staged
        ((==_iff (s.memory td).self tid).1 (x.same_self ∙ at)) in
    let (f, ret, v, unmapped) =
      data_cleanup-unmaps fuel s tid listed (td ∷ staged) enough w
        (omega (arith, first, w.in_staged.1))
        (ap (λ (k : ℕ). (s.memory k).ref_count) first ∙ x.no_refs) in
    (
      f,
      ret,
      subst (λ xs. IsRegistry f listed xs)
          (ap (λ (k : ℕ). erase k (td ∷ staged)) first ∙ erase-head td td staged refl) v,
      unmapped
          ∙ (ap (λ (k : ℕ). s.unmapped ++ unmaps (s.memory k) k) first
              ∙ same_unmaps (s.memory td) d s.unmapped td x.same_low x.same_ours x.same_elements),
    )
  where
    same_unmaps :
        (e d : ThreadData) (us : List ℕ) (td : ℕ)
        → e.user_stack_low ≡ d.user_stack_low
        → e.stack_is_ours ≡ d.stack_is_ours
        → e.elements ≡ d.elements
        → us ++ unmaps e td ≡ us ++ unmaps d td
    same_unmaps e d us td low ours elements = rw (low, ours, elements) refl

-- A thread that is created, starts, exits and is joined, with nothing else in between: the lists and the number of
-- threads are as before, and what was mapped for the thread, its stack if it was given none, its
-- queue's array and its metadata, is unmapped, each once.
pub thread_life :
    (attr_is_null : Bool) (c : Calls) (p : Process) (listed staged : List ℕ) (fuel tid sp ret : ℕ)
    → AreReady c
    → c.create_result ≡ 0
    → p.thread_count ≤ max_thread_count
    → IsRegistry p.registry listed staged
    → 0 < c.td
    → count c.td listed + count c.td staged ≡ 0
    → length listed < fuel
    → length staged < fuel
    → (q : Process) × (e : Process) × (f : Process) × (pthread_create attr_is_null c p
        ≡ some (0, q))
      × (pthread_exit fuel c.td (record q { registry = thread_base c.td tid sp q.registry })
          ≡ some e)
      × (pthread_join fuel tid ret e ≡ some (ret, f))
      × IsRegistry f.registry listed staged
      × (f.thread_count ≡ p.thread_count)
      × (f.registry.unmapped ≡ p.registry.unmapped ++ unmaps (chosen c) c.td)
unfolding pthread_exit pthread_join
thread_life attr_is_null c p listed staged fuel tid sp ret ok created room v pos new enough
      enough' =
    let q : Process = listed_process c p in
    let r : Registry = thread_base c.td tid sp q.registry in
    let same = listed-IsChosen c p in
    let based = base-IsBased c.td tid sp q.registry in
    let w =
      base-IsRegistry c.td tid sp q.registry (c.td ∷ listed) staged
        (listed-IsRegistry c p listed staged v pos new) in
    let (s, cleaned, w', x, kept) =
      exit-head fuel r c.td listed staged (omega (arith, enough)) w
        (based.base_count ∙ same.same_count) in
    let (f, joined, w'', unmapped) =
      join-head fuel s (r.memory c.td) c.td tid listed staged (omega (arith, enough')) w' x
        based.base_self in
    (
      q,
      record { registry = s; thread_count = p.thread_count + 1 - 1 },
      record { registry = f; thread_count = p.thread_count + 1 - 1 },
      create-succeeds attr_is_null c p ok created room,
      rw cleaned refl,
      rw joined refl,
      w'',
      omega arith,
      unmapped
          ∙ (ap₂ (λ us vs. us ++ vs)
              (kept ∙ ((base-same c.td tid sp q.registry).1 ∙ listed-unmapped c p))
              (same_unmaps (r.memory c.td) (chosen c) c.td (based.base_low ∙ same.same_low)
                (based.base_ours ∙ same.same_ours) (based.base_elements ∙ same.same_elements))),
    )
  where
    same_unmaps :
        (e d : ThreadData) (td : ℕ)
        → e.user_stack_low ≡ d.user_stack_low
        → e.stack_is_ours ≡ d.stack_is_ours
        → e.elements ≡ d.elements
        → unmaps e td ≡ unmaps d td
    same_unmaps e d td low ours elements = rw (low, ours, elements) refl
