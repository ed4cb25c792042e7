-- ===== src/Search.antt =====
-- The search of threadscan.c: `iterative_search`, `binary_search`, `generate_scan_map` and
-- `do_search`. `none` is a read out of range (or fuel that ran out).
pub mod Find
pub mod Marking
pub mod Level
pub mod Scan
pub mod Map
pub mod Ranges
mod Examples
use thread_scan.Base.{
  ℕ, zero, suc, ◌+◌, ◌-◌, ◌*◌, ◌/◌, List, [], ◌∷◌, Option, none, some, ◌>>=◌, get_elem?, set, store,
  length, ltb, leb, ◌==◌, ◌||◌, if◌then◌else◌, true, false,
}
use thread_scan.Base.Pointer.{ptr_mask, with_low_bit}

-- The loop of `iterative_search` at index `min`, with `max - min` rounds left.
pub iterative_loop : ℕ → List ℕ → ℕ → ℕ → Option ℕ
iterative_loop val a zero min = some (min - 1)
iterative_loop val a (suc left) min = get_elem? a min >>= λ cmp. elim (cmp == val) [
  | true ↦ some min
  | false ↦ elim (ltb val cmp) [
    | true ↦ some (min - 1)
    | false ↦ iterative_loop val a left (min + 1)
  ]
]

pub iterative_search : ℕ → List ℕ → ℕ → ℕ → Option ℕ
iterative_search val a min max = do
  x ← get_elem? a min
  if ltb val x || min == max then some min else iterative_loop val a (max - min) min

abbrev pub binary_threshold : ℕ
binary_threshold = 32

-- The loop of `binary_search`; the fuel bounds its rounds.
pub binary_loop : ℕ → ℕ → List ℕ → ℕ → ℕ → Option ℕ
binary_loop zero val a min max = none
binary_loop (suc fuel) val a min max = elim (leb binary_threshold (max - min)) [
  | true ↦ get_elem? a ((max + min) / 2) >>= λ cmp. elim (cmp == val) [
    | true ↦ some ((max + min) / 2)
    | false ↦ elim (ltb val cmp) [
      | true ↦ binary_loop fuel val a min ((max + min) / 2)
      | false ↦ binary_loop fuel val a ((max + min) / 2) max
    ]
  ]
  | false ↦ iterative_search val a min max
]

pub binary_search : ℕ → List ℕ → ℕ → ℕ → Option ℕ
binary_search val a min max = binary_loop (max - min + 1) val a min max

-- `PAGESIZE / sizeof(size_t)`: the addresses on a page.
abbrev pub page_words : ℕ
page_words = 0x1000 / 8

-- The loop of `generate_scan_map` at address `i` and map entry `k`; the fuel bounds its rounds. The
-- result is `n_scan_map` and the map.
pub scan_map_loop : ℕ → List ℕ → ℕ → ℕ → ℕ → List ℕ → Option (ℕ × List ℕ)
scan_map_loop zero addrs n_addrs i k map = none
scan_map_loop (suc fuel) addrs n_addrs i k map = elim (ltb i n_addrs) [
  | true ↦ do
    x ← get_elem? addrs i
    map' ← store map k x
    scan_map_loop fuel addrs n_addrs (i + page_words) (k + 1) map'
  | false ↦ some (k, map)
]

pub generate_scan_map : List ℕ → ℕ → List ℕ → Option (ℕ × List ℕ)
generate_scan_map addrs n_addrs map = scan_map_loop (n_addrs + 1) addrs n_addrs 0 0 map

-- `SET_LOW_BIT(&addrs[i])`
pub set_low_bit : List ℕ → ℕ → Option (List ℕ)
set_low_bit addrs i = do v ← get_elem? addrs i; some (set addrs i (with_low_bit v))

-- What `do_search` reads of `g_tsdata`, and the two ends that it reads once, before its loop.
pub record Tracked : Type 0 where
  pub n_addrs : ℕ
  pub n_scan_map : ℕ
  pub scan_map : List ℕ
  pub min_ptr : ℕ
  pub max_ptr : ℕ

-- The two-level search for an address, which marks it where it is found.
pub mark_found : Tracked → ℕ → List ℕ → Option (List ℕ)
mark_found t cmp addrs = do
  v ← binary_search cmp t.scan_map 0 t.n_scan_map
  let top = if v == t.n_scan_map - 1 then t.n_addrs else (v + 1) * page_words
  loc ← binary_search cmp addrs (v * page_words) top
  x ← get_elem? addrs loc
  if x == cmp then set_low_bit addrs loc else some addrs

-- One round of the loop in `do_search`, for the word `w` of memory.
pub search_word : Tracked → ℕ → List ℕ → Option (List ℕ)
search_word t w addrs =
    let cmp = ptr_mask w in
    if ltb cmp t.min_ptr || ltb t.max_ptr cmp
    then some addrs
    else if t.min_ptr == cmp
    then set_low_bit addrs 0
    else if t.max_ptr == cmp
    then set_low_bit addrs (t.n_addrs - 1)
    else mark_found t cmp addrs

-- The loop over the words of the range.
pub search_words : Tracked → List ℕ → List ℕ → Option (List ℕ)
search_words t [] addrs = some addrs
search_words t (w ∷ mem) addrs = do addrs' ← search_word t w addrs; search_words t mem addrs'

-- `do_search` over the memory `mem`, given `buf_addrs`, `n_addrs`, and the scan map.
pub do_search : ℕ → ℕ → List ℕ → List ℕ → List ℕ → Option (List ℕ)
do_search n_addrs n_scan_map map mem addrs = do
  min_ptr ← get_elem? addrs 0
  max_ptr ← get_elem? addrs (n_addrs - 1)
  search_words
      (record {
        n_addrs = n_addrs;
        n_scan_map = n_scan_map;
        scan_map = map;
        min_ptr = min_ptr;
        max_ptr = max_ptr;
      })
      mem addrs
