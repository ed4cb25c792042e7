-- ===== src/Threads/Lists.antt =====
-- What the functions make of the thread list and of the list that is staged to free.
use thread_scan.Base.{
  ℕ, zero, suc, ◌+◌, ◌≤◌, ◌<◌, ◌≡◌, ◌≢◌, refl, ap, sym, ◌∙◌, subst, List, [], ◌∷◌, some, arith,
  ◌==◌, Bool-cases, inl, inr, count, hit, length, if◌then◌else◌, ℕ_discrete, ==_iff,
}
use thread_scan.Threads.{
  ThreadData, Memory, write, link, Registry, list_add, remove_loop, list_remove,
}
use thread_scan.Threads.Chain.{IsChain, IsChain-frame, IsChain-write, IsChain-keep}

-- The list without the first `td` in it.
abbrev pub erase : ℕ → List ℕ → List ℕ
erase td [] = []
erase td (x ∷ xs) = if x == td then xs else x ∷ erase td xs

-- The thread list holds `listed` and the staged list `staged`, no thread twice or on both.
pub record IsRegistry (r : Registry) (listed staged : List ℕ) : Type 0 where
  pub in_list : IsChain r.memory r.head listed
  pub in_staged : IsChain r.memory r.staged staged
  pub once : (td : ℕ) → count td listed + count td staged ≤ 1

-- Adding a thread that is on neither list puts it first in the thread list, keeps the others in their
-- order, and leaves the list of the threads that are staged to free.
pub list_add-IsRegistry :
    (r : Registry) (td : ℕ) (listed staged : List ℕ)
    → IsRegistry r listed staged
    → 0 < td
    → count td listed + count td staged ≡ 0
    → IsRegistry (list_add r td) (td ∷ listed) staged
unfolding list_add
list_add-IsRegistry r td listed staged v pos new = record {
  in_list = (
    refl,
    pos,
    subst (λ p. IsChain (link r.memory td r.head) p listed) (ground arith)
        (IsChain-write r.memory r.head td (record (r.memory td) { next = r.head }) listed
          (omega arith) v.in_list),
  );
  in_staged =
      IsChain-write r.memory r.staged td (record (r.memory td) { next = r.head }) staged
        (omega arith) v.in_staged;
  once = λ x. elim (ℕ_discrete x td) [
    | yes here ↦ ground (arith, v.once x, ap (λ k. count k listed + count k staged) here)
    | no other ↦ ground (arith, v.once x)
  ];
}

pub erase-head : (td x : ℕ) (xs : List ℕ) → x ≡ td → erase td (x ∷ xs) ≡ xs
erase-head td x xs e = rw ((==_iff x td).1 e) refl

pub erase-tail : (td x : ℕ) (xs : List ℕ) → x ≢ td → erase td (x ∷ xs) ≡ x ∷ erase td xs
erase-tail td x xs e = ground (arith, e)

-- One round of the walk.
remove_loop-here :
    (fuel : ℕ) (m : Memory) (tmp td : ℕ)
    → 0 < tmp
    → (m tmp).next ≡ td
    → remove_loop (suc fuel) m tmp td ≡ some (link m tmp (m td).next)
unfolding remove_loop
remove_loop-here fuel m tmp td pos e = ground (arith, e)

remove_loop-on :
    (fuel : ℕ) (m : Memory) (tmp td y : ℕ)
    → 0 < tmp
    → (m tmp).next ≡ y
    → y ≢ td
    → remove_loop (suc fuel) m tmp td ≡ remove_loop fuel m y td
unfolding remove_loop
remove_loop-on fuel m tmp td y pos e other = ground (arith, e)

link-ref_count : (m : Memory) (td p x : ℕ) → (link m td p x).ref_count ≡ (m x).ref_count
link-ref_count m td p x = elim (ℕ_discrete td x) [
  | yes here ↦ ground (arith, ap (λ k. (m k).ref_count) here)
  | no other ↦ ground arith
]

-- The walk from a thread `tmp` before the one to unlink: fuel for the list is enough.
remove_loop_erases :
    (fuel : ℕ) (m : Memory) (tmp td : ℕ) (rest : List ℕ)
    → length rest ≤ fuel
    → IsChain m tmp (tmp ∷ rest)
    → ((x : ℕ) → count x (tmp ∷ rest) ≤ 1)
    → 0 < count td rest
    → (n : Memory) × (remove_loop fuel m tmp td ≡ some n)
      × IsChain n tmp (tmp ∷ erase td rest)
      × ((x : ℕ) → count x (tmp ∷ rest) ≡ 0 → n x ≡ m x)
      × ((x : ℕ) → (n x).ref_count ≡ (m x).ref_count)
remove_loop_erases fuel m tmp td [] enough c once on = absurd (omega arith)
remove_loop_erases zero m tmp td (y ∷ ys) enough c once on = absurd (omega arith)
remove_loop_erases (suc fuel) m tmp td (y ∷ ys) enough (_, pos, (e, pos', c)) once on =
    let single : count tmp (y ∷ ys) ≡ 0 = ground (arith, once tmp) in
    elim (ℕ_discrete y td) [
      | yes here ↦
          let d : ThreadData = record (m tmp) { next = (m td).next } in
          let c' : IsChain m (m td).next ys = subst (λ k. IsChain m (m k).next ys) here c in
          (
            link m tmp (m td).next,
            remove_loop-here fuel m tmp td pos (e ∙ here),
            subst (λ xs. IsChain (link m tmp (m td).next) tmp (tmp ∷ xs))
                (sym (erase-head td y ys here))
                (
                  refl,
                  pos,
                  subst (λ p. IsChain (link m tmp (m td).next) p ys) (ground arith)
                      (IsChain-write m (m td).next tmp d ys (omega arith) c'),
                ),
            λ x h. ground (arith, h),
            λ x. link-ref_count m tmp (m td).next x,
          )
      | no other ↦
          let (n, r, (_, _, c'), same, refs) =
            remove_loop_erases fuel m y td ys (omega arith) (refl, pos', c)
              (λ x. omega (arith, once x)) (ground arith) in
          (
            n,
            remove_loop-on fuel m tmp td y pos e other ∙ r,
            subst (λ xs. IsChain n tmp (tmp ∷ xs)) (sym (erase-tail td y ys other))
                (
                  refl,
                  pos,
                  subst (λ (k : ThreadData). IsChain n k.next (y ∷ erase td ys))
                      (sym (same tmp single)) (e, pos', c'),
                ),
            λ x h. same x (omega arith),
            refs,
          )
    ]

-- The lists after a thread of the thread list is unlinked.
pub erase-once :
    (td : ℕ) (xs : List ℕ)
    → 0 < count td xs
    → (x : ℕ) → count x (erase td xs) + hit x td ≡ count x xs
erase-once td [] on x = absurd (omega arith)
erase-once td (y ∷ ys) on x = elim (ℕ_discrete y td) [
  | yes here ↦
      ap (λ zs. count x zs + hit x td) (erase-head td y ys here) ∙ ground (arith, ap (hit x) here)
  | no other ↦
      ap (λ zs. count x zs + hit x td) (erase-tail td y ys other)
      ∙ omega (arith, erase-once td ys (ground arith) x)
]

not_head :
    (r : Registry) (x td : ℕ) (n : Memory) (fuel : ℕ)
    → r.head ≡ x
    → x ≢ td
    → remove_loop fuel r.memory x td ≡ some n
    → list_remove fuel r td ≡ some (record r { memory = n })
unfolding list_remove
not_head r x td n fuel e other ret = elim (Bool-cases (r.head == td)) [
  | inl same ↦ absurd (other (sym e ∙ (==_iff r.head td).0 same))
  | inr differs ↦ rw (differs, e, ret) refl
]

-- With a valid registry whose thread list holds `td`, `threadscan_util_thread_list_remove` ends within
-- as many rounds as the list is long, takes exactly `td` out of the thread list and keeps the order of
-- the others, and leaves the list of the threads that are staged to free.
pub list_remove-IsRegistry :
    (fuel : ℕ) (r : Registry) (td : ℕ) (listed staged : List ℕ)
    → length listed ≤ fuel
    → IsRegistry r listed staged
    → 0 < count td listed
    → (s : Registry) × (list_remove fuel r td ≡ some s)
      × IsRegistry s (erase td listed) staged
      × ((x : ℕ) → (s.memory x).ref_count ≡ (r.memory x).ref_count)
unfolding list_remove
list_remove-IsRegistry fuel r td [] staged enough v on = absurd (omega arith)
list_remove-IsRegistry fuel r td (x ∷ xs) staged enough v on =
    let (e, pos, c) = v.in_list in
    let once : (k : ℕ) → count k (erase td (x ∷ xs)) + count k staged ≤ 1 =
      λ k. omega (arith, v.once k, erase-once td (x ∷ xs) on k) in
    elim (ℕ_discrete x td) [
      | yes here ↦ (
        record r { head = (r.memory td).next },
        ground arith,
        record {
          in_list =
              subst (λ zs. IsChain r.memory (r.memory td).next zs) (sym (erase-head td x xs here))
                (subst (λ k. IsChain r.memory (r.memory k).next xs) here c);
          in_staged = v.in_staged;
          once = once;
        },
        λ k. refl,
      )
      | no other ↦
          let (n, ret, c', same, refs) =
            remove_loop_erases fuel r.memory x td xs (omega arith) (refl, pos, c)
              (λ k. omega (arith, v.once k)) (ground arith) in
          (
            record r { memory = n },
            not_head r x td n fuel e other ret,
            record {
              in_list =
                  subst (λ zs. IsChain n r.head zs) (sym (erase-tail td x xs other))
                    (subst (λ p. IsChain n p (x ∷ erase td xs)) (sym e) c');
              in_staged =
                  IsChain-frame r.memory n r.staged staged
                    (λ k h. ap (λ (d : ThreadData). d.next) (same k (omega (arith, v.once k))))
                    v.in_staged;
              once = once;
            },
            refs,
          )
    ]

-- A write to a thread that keeps its link.
pub IsRegistry-keep :
    (r : Registry) (td : ℕ) (d : ThreadData) (listed staged : List ℕ)
    → d.next ≡ (r.memory td).next
    → IsRegistry r listed staged
    → IsRegistry (record r { memory = write r.memory td d }) listed staged
IsRegistry-keep r td d listed staged same v = record {
  in_list = IsChain-keep r.memory r.head td d listed same v.in_list;
  in_staged = IsChain-keep r.memory r.staged td d staged same v.in_staged;
  once = v.once;
}
