-- ===== src/Wrappers/Create.antt =====
-- Both ends of `pthread_create`: with the thread, and without it.
use thread_scan.Base.{
  ℕ, ◌+◌, ◌^◌, ◌≤◌, ◌<◌, ◌≡◌, ◌≢◌, refl, ap₂, ◌∙◌, List, [], ◌∷◌, ◌++◌, some, arith, ◌==◌, ltb,
  ◌&&◌, count, if◌then◌else◌, Bool, true, false, add64, inl, inr, Bool-cases,
}
use thread_scan.Env.{max_thread_count}
use thread_scan.Threads.{ThreadData, Memory, Registry, write, list_add, on_stack}
use thread_scan.Threads.Lists.{IsRegistry, list_add-IsRegistry}
use thread_scan.Threads.Chain.{IsChain-write}
use thread_scan.Threads.Find.{first_on}
use thread_scan.Lifetime.{data_free}
use thread_scan.Lifetime.Cleanup.{unmaps, append_unmaps}
use thread_scan.Wrappers.{
  Process, Calls, fresh_data, own_stacksize, choose_stack, create_end, pthread_create,
}

-- A store with new metadata at an address that is on no list.
pub fresh-IsRegistry :
    (r : Registry) (td : ℕ) (d : ThreadData) (listed staged : List ℕ)
    → IsRegistry r listed staged
    → count td listed + count td staged ≡ 0
    → IsRegistry (record r { memory = write r.memory td d }) listed staged
fresh-IsRegistry r td d listed staged v new = record {
  in_list = IsChain-write r.memory r.head td d listed (omega (arith, new)) v.in_list;
  in_staged = IsChain-write r.memory r.staged td d staged (omega (arith, new)) v.in_staged;
  once = v.once;
}

-- Where the stack lies, and its size.
abbrev pub stack_of : Calls → ℕ
stack_of c = if c.attr_stack == 0 then c.mapped_stack else c.attr_stack

abbrev pub size_of : Calls → ℕ
size_of c = if c.attr_stack == 0 then own_stacksize else c.attr_stacksize

abbrev pub chosen : Calls → ThreadData
chosen c = record (fresh_data c.elements) {
  user_stack_low = stack_of c;
  user_stack_high = add64 (stack_of c) (size_of c);
  stack_is_ours = if c.attr_stack == 0 then 1 else 0;
}

-- The calls before the thread is created succeed.
pub record AreReady (c : Calls) : Type 0 where
  pub init_ok : c.init_result ≡ 0
  pub getstack_ok : c.getstack_result ≡ 0
  pub setstack_ok : c.setstack_result ≡ 0

choose_stack-chosen : (c : Calls) → c.setstack_result ≡ 0 → choose_stack c ≡ some (chosen c)
unfolding choose_stack
choose_stack-chosen c ok = elim (Bool-cases (c.attr_stack == 0)) [
  | inl own ↦ let t : (c.setstack_result == 0) ≡ true = ground arith in rw (own, t) refl
  | inr given ↦ rw given refl
]

-- The process when the original `pthread_create` is called.
abbrev pub listed_process : Calls → Process → Process
listed_process c p = record {
  registry = list_add (record p.registry { memory = write p.registry.memory c.td (chosen c) }) c.td;
  thread_count = p.thread_count + 1;
}

create-returns :
    (attr_is_null : Bool) (c : Calls) (p : Process)
    → AreReady c
    → p.thread_count ≤ max_thread_count
    → pthread_create attr_is_null c p
      ≡ some (
        c.create_result,
        record (listed_process c p) {
          registry = create_end c.td (chosen c) c.create_result (listed_process c p).registry;
        },
      )
unfolding pthread_create
create-returns attr_is_null c p ok room =
    let t : ltb max_thread_count p.thread_count ≡ false = ground arith in
    let t1 : (c.init_result == 0) ≡ true = ground (arith, ok.init_ok) in
    let t2 : (c.getstack_result == 0) ≡ true = ground (arith, ok.getstack_ok) in
    let t3 : (attr_is_null && false) ≡ false = and_false attr_is_null in
    rw (t, t1, t2, t3, choose_stack-chosen c ok.setstack_ok) refl
  where
    and_false : (b : Bool) → (b && false) ≡ false
    and_false true = refl
    and_false false = refl

pub listed-IsRegistry :
    (c : Calls) (p : Process) (listed staged : List ℕ)
    → IsRegistry p.registry listed staged
    → 0 < c.td
    → count c.td listed + count c.td staged ≡ 0
    → IsRegistry (listed_process c p).registry (c.td ∷ listed) staged
listed-IsRegistry c p listed staged v pos new =
    list_add-IsRegistry (record p.registry { memory = write p.registry.memory c.td (chosen c) })
      c.td listed staged (fresh-IsRegistry p.registry c.td (chosen c) listed staged v new) pos new

-- What the new metadata holds.
pub record IsChosen (d e : ThreadData) : Type 0 where
  pub same_low : d.user_stack_low ≡ e.user_stack_low
  pub same_high : d.user_stack_high ≡ e.user_stack_high
  pub same_ours : d.stack_is_ours ≡ e.stack_is_ours
  pub same_elements : d.elements ≡ e.elements
  pub same_count : d.ref_count ≡ e.ref_count

pub listed-IsChosen :
    (c : Calls) (p : Process) → IsChosen ((listed_process c p).registry.memory c.td) (chosen c)
unfolding list_add
listed-IsChosen c p = record {
  same_low = ground arith;
  same_high = ground arith;
  same_ours = ground arith;
  same_elements = ground arith;
  same_count = ground arith;
}

listed-other :
    (c : Calls) (p : Process) (x : ℕ)
    → x ≢ c.td
    → (listed_process c p).registry.memory x ≡ p.registry.memory x
unfolding list_add
listed-other c p x other = ground (arith, other)

pub listed-unmapped :
    (c : Calls) (p : Process) → (listed_process c p).registry.unmapped ≡ p.registry.unmapped
unfolding list_add
listed-unmapped c p = refl

first_on-head :
    (m : Memory) (td : ℕ) (tds : List ℕ) (addr : ℕ) (e : ThreadData)
    → IsChosen (m td) e
    → e.user_stack_low ≤ addr
    → addr < e.user_stack_high
    → first_on m (td ∷ tds) addr ≡ td
first_on-head m td tds addr e same lo hi =
    let t : on_stack (m td) addr ≡ true = ground (arith, same.same_low, same.same_high) in rw t refl

pub create-succeeds :
    (attr_is_null : Bool) (c : Calls) (p : Process)
    → AreReady c
    → c.create_result ≡ 0
    → p.thread_count ≤ max_thread_count
    → pthread_create attr_is_null c p ≡ some (0, listed_process c p)
unfolding create_end
create-succeeds attr_is_null c p ok created room =
    let t : (c.create_result == 0) ≡ true = ground (arith, created) in
    create-returns attr_is_null c p ok room ∙ rw (t, created) refl

-- `pthread_create` where no call fails and at most `MAX_THREAD_COUNT` threads are counted: it returns 0 and
-- counts one thread more; the new metadata is the first of the thread list, with one reference, and the others stay as
-- they were. An address on the stack that the attributes give, or on a mapped one of 2 MB where they
-- give none, leads to the new metadata.
pub pthread_create_lists :
    (attr_is_null : Bool) (c : Calls) (p : Process) (listed staged : List ℕ)
    → AreReady c
    → c.create_result ≡ 0
    → p.thread_count ≤ max_thread_count
    → IsRegistry p.registry listed staged
    → 0 < c.td
    → count c.td listed + count c.td staged ≡ 0
    → stack_of c + size_of c < 2 ^ 64
    → (q : Process) × (pthread_create attr_is_null c p ≡ some (0, q))
      × (q.thread_count ≡ p.thread_count + 1)
      × IsRegistry q.registry (c.td ∷ listed) staged
      × ((q.registry.memory c.td).ref_count ≡ 1)
      × ((x : ℕ) → x ≢ c.td → q.registry.memory x ≡ p.registry.memory x)
      × ((addr : ℕ)
          → stack_of c ≤ addr
          → addr < stack_of c + size_of c
          → first_on q.registry.memory (c.td ∷ listed) addr ≡ c.td)
pthread_create_lists attr_is_null c p listed staged ok created room v pos new small =
    let q : Process = listed_process c p in
    let same = listed-IsChosen c p in
    (
      q,
      create-succeeds attr_is_null c p ok created room,
      refl,
      listed-IsRegistry c p listed staged v pos new,
      same.same_count,
      listed-other c p,
      λ addr lo hi.
          first_on-head q.registry.memory c.td listed addr (chosen c) same lo
            (below addr (stack_of c) (size_of c) small hi),
    )
  where
    below :
        (addr base size : ℕ) → base + size < 2 ^ 64 → addr < base + size → addr < add64 base size
    below addr base size small hi = omega (arith, small, hi)

-- Where the original `pthread_create` fails, the metadata of the thread is unmapped, with its array, and still is the first of the
-- thread list; and the thread is counted.
pub pthread_create_fails :
    (attr_is_null : Bool) (c : Calls) (p : Process) (listed staged : List ℕ)
    → AreReady c
    → c.create_result ≢ 0
    → p.thread_count ≤ max_thread_count
    → IsRegistry p.registry listed staged
    → 0 < c.td
    → count c.td listed + count c.td staged ≡ 0
    → (q : Process) × (pthread_create attr_is_null c p ≡ some (c.create_result, q))
      × (q.thread_count ≡ p.thread_count + 1)
      × IsRegistry q.registry (c.td ∷ listed) staged
      × (q.registry.unmapped ≡ p.registry.unmapped ++ unmaps (chosen c) c.td)
unfolding create_end data_free
pthread_create_fails attr_is_null c p listed staged ok failed room v pos new =
    let t : (c.create_result == 0) ≡ false = ground (arith, failed) in
    let l : Process = listed_process c p in
    let w = listed-IsRegistry c p listed staged v pos new in
    let same = listed-IsChosen c p in
    (
      record l { registry = create_end c.td (chosen c) c.create_result l.registry },
      create-returns attr_is_null c p ok room,
      refl,
      rw t (record { in_list = w.in_list; in_staged = w.in_staged; once = w.once }),
      rw t (
          unmaps_listed c p l.registry (chosen c).user_stack_low (chosen c).stack_is_ours
            same.same_elements (listed-unmapped c p)),
    )
  where
    unmaps_listed :
        (c : Calls) (p : Process) (r : Registry) (low ours : ℕ)
        → (r.memory c.td).elements ≡ c.elements
        → r.unmapped ≡ p.registry.unmapped
        → (if ours == 0 then r.unmapped else r.unmapped ++ (low ∷ []))
            ++ ((r.memory c.td).elements ∷ c.td ∷ [])
          ≡ p.registry.unmapped
            ++ (if ours == 0 then c.elements ∷ c.td ∷ [] else low ∷ c.elements ∷ c.td ∷ [])
    unmaps_listed c p r low ours e e' =
        append_unmaps r.unmapped low ours (r.memory c.td).elements c.td
        ∙ ap₂ (λ us (k : ℕ). us ++ (if ours == 0 then k ∷ c.td ∷ [] else low ∷ k ∷ c.td ∷ [])) e' e
