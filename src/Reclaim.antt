-- ===== src/Reclaim.antt =====
-- The reclamation of threadscan.c: `handle_unreferenced_ptrs`, `store_remaining_addrs`,
-- `add_to_buf_addrs`, `generate_working_pointers_list`, `do_reclaim` and `threadscan_reclaim`.
pub mod Handle
pub mod Store
pub mod Gather
pub mod Round
mod Examples
use thread_scan.Base.{
  ℕ, zero, suc, ◌+◌, ◌-◌, ◌*◌, ◌/◌, List, [], ◌∷◌, Option, none, some, ◌>>=◌, get_elem?, store,
  length, ltb, ◌==◌, if◌then◌else◌, true, false, drop, memcpy, Bool,
}
use thread_scan.Base.Pointer.{ptr_mask, low_bit}
use thread_scan.Queue.{Queue, pop_bulk}
use thread_scan.Sort.{util_sort, util_randomize}
use thread_scan.Search.{generate_scan_map, do_search}

-- The loop of `handle_unreferenced_ptrs` at index `i`, with `count - i` rounds left. The result is the
-- write position, the array, and the pointers that went to `free`, in order.
pub handle_loop : ℕ → ℕ → ℕ → List ℕ → Option (ℕ × List ℕ × List ℕ)
handle_loop zero i write_position addrs = some (write_position, addrs, [])
handle_loop (suc left) i write_position addrs = get_elem? addrs i >>= λ x. elim (low_bit x == 0) [
  | false ↦ do
    moved ← store addrs write_position (ptr_mask x)
    cleared ← store moved i 0
    handle_loop left (i + 1) (write_position + 1) cleared
  | true ↦ do
    cleared ← store addrs i 0
    (end, out, freed) ← handle_loop left (i + 1) write_position cleared
    some (end, out, x ∷ freed)
]

pub handle_unreferenced_ptrs : List ℕ → ℕ → Option (ℕ × List ℕ × List ℕ)
handle_unreferenced_ptrs addrs count = handle_loop count 0 0 addrs

-- `addr_storage_t`: the addresses behind the two words of its header. The link to the next block is
-- the place in the list of blocks.
pub record AddrStorage : Type 0 where
  pub length : ℕ
  pub addrs : List ℕ

-- What becomes of the buffer: it is unmapped, or kept as a block of `storage`.
pub data Remaining : Type 0 where
  unmapped : Remaining
  stored : List AddrStorage → Remaining

-- `store_remaining_addrs(addrs, n)`: the two first addresses move to the end, and the words that they
-- used become the header. The compare-and-swap loop is one push. `none` is also the fatal exit.
pub store_remaining_addrs : ℕ → List AddrStorage → List ℕ → ℕ → Option Remaining
store_remaining_addrs max_ptrs storage addrs n =
    if n == 0 then some unmapped else if ltb (max_ptrs * 2) (n + 2) then none else do
      first ← get_elem? addrs 0
      moved ← store addrs n first
      second ← get_elem? moved 1
      block ← store moved (n + 1) second
      some (stored (record { length = n; addrs = drop 2 block } ∷ storage))

-- `add_to_buf_addrs(&n, buf, max)`: the new `n` and `buf_addrs`. `none` is also the fatal exit.
pub add_to_buf_addrs : ℕ → ℕ → List ℕ → List ℕ → ℕ → Option (ℕ × List ℕ)
add_to_buf_addrs max_ptrs n buf_addrs buf max =
    if ltb (max_ptrs * 2) (n + max)
    then none
    else do buf_addrs' ← memcpy buf_addrs n buf 0 max; some (n + max, buf_addrs')

-- The loop over the leftovers, the newest block first; the last part of the result is the blocks that went to
-- `threadscan_alloc_munmap`, in order.
pub add_leftovers : ℕ → List AddrStorage → ℕ → List ℕ → Option (ℕ × List ℕ × List AddrStorage)
add_leftovers max_ptrs [] n buf_addrs = some (n, buf_addrs, [])
add_leftovers max_ptrs (b ∷ storage) n buf_addrs = do
  (n', filled) ← add_to_buf_addrs max_ptrs n buf_addrs b.addrs b.length
  (n'', filled', released) ← add_leftovers max_ptrs storage n' filled
  some (n'', filled', b ∷ released)

-- The loop over the threads: `ptr_list` of each.
pub pop_threads : ℕ → List Queue → ℕ → List ℕ → Option (ℕ × List ℕ × List Queue)
pop_threads max_ptrs [] n buf_addrs = some (n, buf_addrs, [])
pop_threads max_ptrs (q ∷ queues) n buf_addrs = do
  (popped, filled, q') ← pop_bulk buf_addrs n (max_ptrs * 2 - n) q
  (n', filled', queues') ← pop_threads max_ptrs queues (n + popped) filled
  some (n', filled', q' ∷ queues')

-- The storage is taken whole, so it is empty afterwards. The result ends with the blocks that were unmapped.
pub generate_working_pointers_list :
    ℕ → List AddrStorage → List Queue → List ℕ → Option (ℕ × List ℕ × List Queue × List AddrStorage)
generate_working_pointers_list max_ptrs storage queues buf_addrs = do
  (n, filled, released) ← add_leftovers max_ptrs storage 0 buf_addrs
  (n', filled', queues') ← pop_threads max_ptrs queues n filled
  some (n', filled', queues', released)

-- The searches of one round, each over a stack or a local block, in the order in which they are made.
pub search_ranges : ℕ → ℕ → List ℕ → List (List ℕ) → List ℕ → Option (List ℕ)
search_ranges n_addrs n_scan_map map [] addrs = some addrs
search_ranges n_addrs n_scan_map map (mem ∷ ranges) addrs = do
  addrs' ← do_search n_addrs n_scan_map map mem addrs
  search_ranges n_addrs n_scan_map map ranges addrs'

-- What a round leaves: the pointers freed, what became of the buffer, the queues, and the blocks that it
-- unmapped.
pub record Reclaimed : Type 0 where
  pub freed : List ℕ
  pub remaining : Remaining
  pub queues : List Queue
  pub released : List AddrStorage

-- `threadscan_reclaim`, given the leftovers, the queues of the threads, the memory that is searched,
-- and the fresh working memory, split into `buf_addrs` and the scan map.
pub reclaim : ℕ → List AddrStorage → List Queue → List (List ℕ) → List ℕ → List ℕ → Option Reclaimed
reclaim max_ptrs storage queues ranges buf_addrs buf_scan_map = do
  (n_addrs, gathered, queues', released) ←
      generate_working_pointers_list max_ptrs storage queues buf_addrs
  sorted ← util_sort gathered n_addrs
  (n_scan_map, map) ← generate_scan_map sorted n_addrs buf_scan_map
  searched ← search_ranges n_addrs n_scan_map map ranges sorted
  (remaining, handled, freed) ← handle_unreferenced_ptrs searched n_addrs
  shuffled ← util_randomize handled remaining
  rest ← store_remaining_addrs max_ptrs [] shuffled remaining
  some (record { freed = freed; remaining = rest; queues = queues'; released = released })
