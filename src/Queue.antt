-- ===== src/Queue.antt =====
-- queue.c, queue.h: the circular buffer of pointers of a thread.
-- Built as the Makefile builds it by default, with NDEBUG, so that an `assert` runs no code; what
-- the assertions claim is proved. `none` is an access out of range.
pub mod View
pub mod Push
pub mod Pop
mod Examples
use thread_scan.Base.{
  ℕ, zero, ◌+◌, ◌-◌, ◌%◌, ◌^◌, bit_and, List, Option, none, some, ◌>>=◌, length, store, ltb, leb,
  ◌==◌, if◌then◌else◌, true, false, add64, sub64, memcpy,
}

-- `queue_t`
pub record Queue : Type 0 where
  pub e : List ℕ
  pub capacity : ℕ
  pub idx_head : ℕ
  pub idx_tail : ℕ

-- `INDEXIFY(abs_idx, capacity)`
abbrev pub indexify : ℕ → ℕ → ℕ
indexify abs_idx capacity = bit_and abs_idx (sub64 capacity 1)

pub init : List ℕ → ℕ → Queue
init buf capacity = record { e = buf; capacity = capacity; idx_head = 0; idx_tail = capacity }

pub is_full : Queue → ℕ
is_full q = if leb q.idx_tail (add64 q.idx_head 1) then 1 else 0

pub push : Queue → ℕ → Option Queue
push q value = do
  e' ← store q.e (indexify q.idx_head q.capacity) value
  some (record q { e = e'; idx_head = add64 q.idx_head 1 })

-- How many elements wait in the queue.
abbrev pub size : Queue → ℕ
size q = sub64 q.idx_head (sub64 q.idx_tail q.capacity)

-- The last memcpy, of the elements from index `start` up to index `head`.
pub drain_rest : Queue → ℕ → ℕ → List ℕ → ℕ → Option (List ℕ)
drain_rest q head start values at =
    let elements = sub64 head start in
    if ltb 0 elements then memcpy values at q.e start elements else some values

-- The copy out of the buffer from index `start` up to index `head` into `values[at..]`; where the
-- elements go round the end of the buffer, a first memcpy drains to the end.
pub drain : Queue → ℕ → ℕ → List ℕ → ℕ → Option (List ℕ)
drain q head start values at = elim (ltb head start) [
  | true ↦ do
    let elements = sub64 q.capacity start
    values' ← memcpy values at q.e start elements
    drain_rest q head 0 values' (at + elements)
  | false ↦ drain_rest q head start values at
]

-- The head index and the size that `pop_bulk` goes by: the "fake" head where more elements wait
-- than the output buffer takes.
pub pop_head : Queue → ℕ → ℕ
pop_head q len = if ltb len (size q) then sub64 q.idx_head (sub64 (size q) len) else q.idx_head

pub pop_size : Queue → ℕ → ℕ
pop_size q len = if ltb len (size q) then len else size q

-- `values` is the array that holds the output buffer, which begins at index `at`. The result is
-- the number popped, that array, and the queue.
pub pop_bulk : List ℕ → ℕ → ℕ → Queue → Option (ℕ × List ℕ × Queue)
pop_bulk values at len q =
    let idx_head = pop_head q len in
    let popped = pop_size q len in
    if size q == 0 then some (0, values, q) else do
      values' ← drain q (indexify idx_head q.capacity) (indexify q.idx_tail q.capacity) values at
      some (popped, values', record q { idx_tail = add64 idx_head q.capacity })
