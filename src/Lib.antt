-- ===== src/Lib.antt =====
-- ThreadScan, a library that reclaims the memory of concurrent data structures: a thread hands a
-- removed node to `threadscan_collect` instead of `free`, and a reclamation round frees the nodes that
-- no thread's stack or registered block refers to.
--
-- How the parts interact. Each thread has a circular buffer of the pointers that it collected
-- (queue.c). When it is full, the thread tries to take the cleanup lock, a flag in a global timestamp
-- (thread.c), and then runs a round (threadscan.c): it pops the pointers of all buffers and the ones
-- left over into one array, sorts it (util.c), makes a map of its pages, and has each thread search
-- its stack in a signal handler; a word found in the array marks its pointer in the lowest bit. It
-- frees the pointers without a mark and stores the others for the next round. The metadata of the
-- threads is in linked lists (util.c); env.c chooses the capacity of the buffers, and threadscan.c
-- lays out the working memory by it.
--
-- Which file models which part, by the paths from the repository's root:
--   Base       numbers, lists as C arrays, `Option` for undefined behaviour, words and their bits
--   Queue      queue.c, queue.h: `Queue` is `queue_t`; `init`, `push`, `is_full`, `pop_bulk`
--   Sort       util.c: `swap`, `partition`, `insertion_sort`, `quicksort`, `util_sort` and
--              `util_randomize` are the functions of these names, behind `threadscan_` for the last two
--   Search     threadscan.c: `iterative_search`, `binary_search`, `generate_scan_map`, `do_search`
--   Reclaim    threadscan.c: `generate_working_pointers_list`, `handle_unreferenced_ptrs`,
--              `store_remaining_addrs`, and `reclaim`, which is `threadscan_reclaim`
--   Helping    threadscan.c: `do_reclaim` and `search_self_stack`, the searches of all threads as steps in
--              any order, over one array of pointers; `threadscan_register_local_block`
--   Cleanup    thread.c, proc.c, util.h: the lock, the helping flags and the wait for the helpers, as
--              steps of any number of threads and handlers in any order
--   Env        env.c, env.h: `env_init`; threadscan.c: the layout of the working memory
--   Threads    util.c, util.h, thread.c: the thread list and the list of threads that are staged to
--              free, in one store with their shared links; proc.c: whom a round signals
--   Alloc      alloc.c: the ring of mapped ranges and the pool of its nodes; `alloc_mmap`, `alloc_munmap`
--   Lifetime   util.c: the metadata of a new thread; that of a joined one is found, unlinked, unmapped
--   Maps       proc.c: `read_mapline` and `stack_from_addr`, from what `fscanf` reads of each line
--   Wrappers   wrappers.c, thread.c: `pthread_create`, `pthread_exit`, `pthread_join`, `main_replacement` and
--              `thread_base`, over the registry of Threads and Lifetime
-- Below a part, a module states what it proves: Sort/Quick, Queue/Pop, Reclaim/Round. The modules
-- named Examples hold runs at concrete inputs.
--
-- Conventions. The C array is a list with the access in range or `none`, and a pointer to memory that
-- a function walks over is the list of its words. `none` is undefined behaviour or
-- `threadscan_fatal`, whose exit has no state after it. A `size_t` is a natural number with its
-- wrap-around written out where the source may wrap: the queue's indices, the timestamps, the masks,
-- the reference counts. An `int` is its bit pattern in env.c; elsewhere an index is a natural number.
-- The midpoints `(max + min) / 2` of `partition` and `binary_search` are so not bounded by an `int`;
-- they agree with the code up to 2 ^ 30 addresses, and the program has at most 2 ^ 24. The program is
-- built with NDEBUG, so an `assert` runs no code.
--
-- Bounds and fuel. Loops with a count are recursions on the rounds that are left: `max - i` in
-- `partition`, `i` to `length` in `insertion_sort`, one round per word in `do_search`. The quicksort
-- takes the length of its range as fuel, since each part is shorter than the whole; the binary search
-- takes the width of its range, which each round at least halves; the loop over the scan map takes one
-- round per page and one to stop; the walks along the lists of threads and ranges take their lengths. The
-- theorems give the result outright, so that enough fuel is part of each.
--
-- Not modelled: `threadscan_collect`. The wrapped pthread functions, reading /proc/self/maps, printing,
-- `mmap`, `free` and signals are outside of the models: what is freed or unmapped is a list in the
-- result, and the memory that a round searches is an argument that stays as it is in the round. In Reclaim
-- the searchers of a round run one after the other, in the order of that argument; in Helping they
-- take turns word by word: looking a word up and marking its pointer is one step, though the code takes
-- several reads and one read and write for it. The steps of Cleanup are single accesses, in one global order.
pub mod Alloc
pub mod Base
pub mod Cleanup
pub mod Env
pub mod Helping
pub mod Lifetime
pub mod Maps
pub mod Queue
pub mod Reclaim
pub mod Search
pub mod Sort
pub mod Threads
pub mod Wrappers
