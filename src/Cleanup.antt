-- ===== src/Cleanup.antt =====
-- The cleanup lock and the helping flags of thread.c, with `threadscan_proc_wait_for_timestamp` of
-- proc.c: `global_timestamp` and each thread's `local_timestamp`, whose highest bit is a flag.
-- The functions are cut at their accesses to shared memory, and a step of a thread is one piece.
-- A thread runs its own code and, on a signal, the handler, each with a place of its own.
pub mod Stamp
pub mod Exclusion
pub mod Known
pub mod Round
pub mod Answer
pub mod Informed
pub mod Progress
mod Examples
use thread_scan.Base.{
  ℕ, ◌+◌, ◌-◌, ◌%◌, ◌^◌, ◌≡◌, List, [], ◌∷◌, ltb, ◌==◌, if◌then◌else◌, update, Bool, true, false,
  bit_and, bit_or, ◌&&◌,
}

-- `TIMESTAMP`, `TIMESTAMP_RAISE_FLAG`, `TIMESTAMP_SET_ACTIVE`, `TIMESTAMP_IS_ACTIVE`
pub timestamp : ℕ → ℕ
timestamp field = bit_and field (2 ^ 63 - 1)

pub raise_flag : ℕ → ℕ
raise_flag field = bit_or field (2 ^ 63)

pub is_active : ℕ → Bool
is_active field = if bit_and field (2 ^ 63) == 0 then false else true

-- Where a thread is in `threadscan_thread_cleanup_try_acquire`: it has read the timestamp `old`; it has
-- the lock, and waits for the threads of the list to learn of the timestamp `curr`; it is done
-- waiting and cleans up.
pub data Place : Type 0 where
  outside : Place
  seen : ℕ → Place
  waiting : ℕ → List ℕ → Place
  cleaning : Place

-- Where its signal handler is: between the writes of `threadscan_thread_cleanup_raise_flag`, where it
-- keeps the old timestamp and the one that it read, or in the search of the stack.
pub data Handler : Type 0 where
  away : Handler
  raised : ℕ → Handler
  informed : ℕ → ℕ → Handler
  searching : Handler

pub record State : Type 0 where
  pub global_timestamp : ℕ
  pub local_timestamp : ℕ → ℕ
  pub times_without_update : ℕ → ℕ
  pub place : ℕ → Place
  pub handler : ℕ → Handler

abbrev pub go : State → ℕ → Place → State
go s i p = record s { place = update s.place i p }

-- The read of the timestamp, and the first `return 0`.
pub read_timestamp : State → ℕ → State
read_timestamp s i =
    if is_active s.global_timestamp then go s i outside else go s i (seen s.global_timestamp)

-- `TIMESTAMP_SET_ACTIVE(old_timestamp + 1)`
pub attempt : ℕ → ℕ
attempt old = raise_flag ((old + 1) % 2 ^ 64)

-- The compare-and-swap: the lock is taken, or the second `return 0`. `threads` is the thread list.
pub swap_timestamp : List ℕ → State → ℕ → ℕ → State
swap_timestamp threads s i old =
    if s.global_timestamp == old
    then record s {
      global_timestamp = attempt old;
      place = update s.place i (waiting (timestamp (attempt old)) threads);
    }
    else go s i outside

-- One read in `threadscan_proc_wait_for_timestamp`: thread `j` still helps the previous round, or the
-- loop goes on to the next thread.
pub wait_round : State → ℕ → ℕ → ℕ → List ℕ → State
wait_round s i curr j rest =
    let stamp = s.local_timestamp j in
    if is_active stamp && (if timestamp stamp == curr then false else true)
    then s
    else go s i (waiting curr rest)

-- `threadscan_thread_cleanup_release`
pub release : State → ℕ → State
release s i = record s {
  global_timestamp = timestamp s.global_timestamp;
  place = update s.place i outside;
}

-- The first write of `threadscan_thread_cleanup_raise_flag`.
pub raise_first : State → ℕ → State
raise_first s i =
    let old = s.local_timestamp i in
    record s {
      local_timestamp = update s.local_timestamp i (raise_flag old);
      handler = update s.handler i (raised old);
    }

-- Its read of the global timestamp.
pub raise_read : State → ℕ → ℕ → State
raise_read s i old = record s { handler = update s.handler i (informed old s.global_timestamp) }

-- The counter that it leaves.
pub next_times : ℕ → ℕ → ℕ → ℕ
next_times old curr times =
    if timestamp curr == old
    then (if is_active curr then times else if ltb times 2 then times + 1 else times)
    else 0

-- Its second write, and the update of the counter.
pub raise_second : State → ℕ → ℕ → ℕ → State
raise_second s i old curr = record s {
  local_timestamp = update s.local_timestamp i (raise_flag curr);
  times_without_update =
      update s.times_without_update i (next_times old curr (s.times_without_update i));
  handler = update s.handler i searching;
}

-- `threadscan_thread_cleanup_lower_flag`
pub lower : State → ℕ → State
lower s i = record s {
  local_timestamp = update s.local_timestamp i (timestamp (s.local_timestamp i));
  handler = update s.handler i away;
}

-- The steps of any thread `i`, in any order.
pub data Step (threads : List ℕ) : State → State → Type 0 where
  reads : (s : State) (i : ℕ) → s.place i ≡ outside → Step threads s (read_timestamp s i)
  swaps :
      (s : State) (i old : ℕ)
      → s.place i ≡ seen old
      → Step threads s (swap_timestamp threads s i old)
  waits :
      (s : State) (i curr j : ℕ) (rest : List ℕ)
      → s.place i ≡ waiting curr (j ∷ rest)
      → Step threads s (wait_round s i curr j rest)
  acquires :
      (s : State) (i curr : ℕ) → s.place i ≡ waiting curr [] → Step threads s (go s i cleaning)
  releases : (s : State) (i : ℕ) → s.place i ≡ cleaning → Step threads s (release s i)
  raises : (s : State) (i : ℕ) → s.handler i ≡ away → Step threads s (raise_first s i)
  learns : (s : State) (i old : ℕ) → s.handler i ≡ raised old → Step threads s (raise_read s i old)
  confirms :
      (s : State) (i old curr : ℕ)
      → s.handler i ≡ informed old curr
      → Step threads s (raise_second s i old curr)
  lowers : (s : State) (i : ℕ) → s.handler i ≡ searching → Step threads s (lower s i)

-- At the start the lock is free, at timestamp 1.
abbrev pub start : State
start = record {
  global_timestamp = 1;
  local_timestamp = λ i. 0;
  times_without_update = λ i. 0;
  place = λ i. outside;
  handler = λ i. away;
}

-- Any number of steps.
pub data Run (threads : List ℕ) (s : State) : State → Type 0 where
  started : Run threads s s
  stepped : {t u : State} → Run threads s t → Step threads t u → Run threads s u

abbrev pub Reach : List ℕ → State → Type 0
Reach threads s = Run threads start s
