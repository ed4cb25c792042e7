-- ===== src/Sort.antt =====
-- The sort of util.c (the "Sort utility" part): `swap`, `partition`, `insertion_sort`,
-- `quicksort`, `threadscan_util_sort` and `threadscan_util_randomize`.
-- The `size_t` array is a list; `none` is a read out of range (or fuel that ran out).
-- An `int` index is a natural number: where the source passes `mid - 1` or `length - 1` at 0,
-- that is an empty range from 0 to -1, for which `quicksort` returns at once.
pub mod Rearranged
pub mod Partition
pub mod Insertion
pub mod Quick
mod Examples
use thread_scan.Base.{
  ℕ, zero, suc, ◌+◌, ◌-◌, ◌*◌, ◌/◌, ◌%◌, ◌^◌, List, Option, none, some, ◌>>=◌, get_elem?, set, ltb,
  leb, ◌==◌, true, false,
}

pub swap : List ℕ → ℕ → ℕ → Option (List ℕ)
swap addrs n m = do
  addr ← get_elem? addrs n
  other ← get_elem? addrs m
  some (set (set addrs n other) m addr)

-- One round of the loop in `partition`: `mid` and the array.
pub partition_round : ℕ → ℕ → ℕ → List ℕ → Option (ℕ × List ℕ)
partition_round pivot_val i mid addrs = do
  x ← get_elem? addrs i
  elim (leb x pivot_val) [
    | true ↦ do addrs' ← swap addrs i mid; some (mid + 1, addrs')
    | false ↦ some (mid, addrs)
  ]

-- The loop at index `i`, with `max - i` rounds left.
pub partition_loop : ℕ → ℕ → ℕ → ℕ → List ℕ → Option (ℕ × List ℕ)
partition_loop pivot_val zero i mid addrs = some (mid, addrs)
partition_loop pivot_val (suc left) i mid addrs =
    partition_round pivot_val i mid addrs >>= λ (mid', addrs').
    partition_loop pivot_val left (i + 1) mid' addrs'

pub partition : List ℕ → ℕ → ℕ → Option (ℕ × List ℕ)
partition addrs min max = do
  let pivot = (max + min) / 2
  pivot_val ← get_elem? addrs pivot
  moved ← swap addrs pivot max
  (mid, split) ← partition_loop pivot_val (max - min) min min moved
  placed ← swap split mid max
  some (mid, placed)

-- The inner loop of `insertion_sort`, `for (j = i; j > 0 && addrs[j - 1] > addrs[j]; --j)`.
pub sink : ℕ → List ℕ → Option (List ℕ)
sink zero addrs = some addrs
sink (suc j) addrs = do
  before ← get_elem? addrs j
  here ← get_elem? addrs (suc j)
  elim (ltb here before) [
    | true ↦ do swapped ← swap addrs (suc j) j; sink j swapped
    | false ↦ some addrs
  ]

-- The outer loop at `i`, with `max + 1 - i` rounds left.
pub insertion_loop : ℕ → ℕ → List ℕ → Option (List ℕ)
insertion_loop zero i addrs = some addrs
insertion_loop (suc left) i addrs = do addrs' ← sink i addrs; insertion_loop left (i + 1) addrs'

pub insertion_sort : List ℕ → ℕ → ℕ → Option (List ℕ)
insertion_sort addrs min max = insertion_loop (max - min) (min + 1) addrs

abbrev pub sort_threshold : ℕ
sort_threshold = 16

-- The fuel bounds the depth of the recursion.
pub quicksort : ℕ → List ℕ → ℕ → ℕ → Option (List ℕ)
quicksort zero addrs min max = none
quicksort (suc fuel) addrs min max = elim (ltb sort_threshold (max - min)) [
  | true ↦ partition addrs min max >>= λ (mid, split).
      elim mid [ zero ↦ some split | suc below ↦ quicksort fuel split min below ] >>= λ lower.
      quicksort fuel lower (mid + 1) max
  | false ↦ insertion_sort addrs min max
]

-- `quicksort(a, 0, length - 1)`.
pub util_sort : List ℕ → ℕ → Option (List ℕ)
util_sort a zero = some a
util_sort a (suc n) = quicksort (suc n) a 0 n

-- `unsigned int tmp = (i * 2147483647) % n`, the product in 32 bits.
pub shuffle_target : ℕ → ℕ → ℕ
shuffle_target n i = i * 2147483647 % 2 ^ 32 % n

pub shuffle_round : ℕ → ℕ → List ℕ → Option (List ℕ)
shuffle_round n i addrs =
    let tmp = shuffle_target n i in elim (i == tmp) [ true ↦ some addrs | false ↦ swap addrs i tmp ]

pub shuffle_loop : ℕ → ℕ → ℕ → List ℕ → Option (List ℕ)
shuffle_loop n zero i addrs = some addrs
shuffle_loop n (suc left) i addrs = do
  addrs' ← shuffle_round n i addrs
  shuffle_loop n left (i + 1) addrs'

pub util_randomize : List ℕ → ℕ → Option (List ℕ)
util_randomize addrs n = shuffle_loop n n 0 addrs
