-- ===== src/Helping.antt =====
-- The searches of one round in threadscan.c, interleaved: `do_reclaim` in the reclaimer, which is thread 0, and
-- `search_self_stack` in the signal handlers of the threads 1 to `sig_count`. The threads share the
-- array of tracked addresses and the counter `self_stacks_searched`. A step of a thread reads the ends of
-- the array, searches one word, or changes the counter or reads it. The memory that is searched stays as it is.
pub mod Block
pub mod Cover
pub mod Steps
pub mod Keeps
pub mod Found
pub mod Returns
mod Examples
use thread_scan.Base.{
  ℕ, zero, suc, ◌+◌, ◌-◌, ◌/◌, ◌≤◌, ◌<◌, ◌≡◌, List, [], ◌∷◌, ◌++◌, Option, some, get_elem?, ltb,
  leb, if◌then◌else◌, true, false, update, sub64,
}
use thread_scan.Maps.{MemRange}
use thread_scan.Search.{Tracked, search_word}

-- The words of memory from an address on.
pub load_words : (ℕ → ℕ) → ℕ → ℕ → List ℕ
load_words memory addr zero = []
load_words memory addr (suc count) = memory addr ∷ load_words memory (addr + 8) count

-- `search_range`: the words that it hands to `do_search`.
pub search_range : (ℕ → ℕ) → MemRange → List ℕ
search_range memory range = load_words memory range.low (sub64 range.high range.low / 8)

-- The searches of a thread, in their order: its stack, and its local block where one is set.
pub own_ranges : (ℕ → ℕ) → MemRange → MemRange → List (List ℕ)
own_ranges memory stack_search_range local_block =
    if ltb 0 local_block.low
    then search_range memory stack_search_range ∷ search_range memory local_block ∷ []
    else search_range memory stack_search_range ∷ []

-- Where a thread is: between searches, with the ranges that are left; in `do_search`, with the ends that it
-- read, the words that are left and the ranges; or done.
pub data Searcher : Type 0 where
  resting : List (List ℕ) → Searcher
  scanning : (min_ptr max_ptr : ℕ) → List ℕ → List (List ℕ) → Searcher
  finished : Searcher

pub record Round : Type 0 where
  pub addrs : List ℕ
  pub self_stacks_searched : ℕ
  pub searcher : ℕ → Searcher

abbrev pub move : Round → ℕ → Searcher → Round
move r i s = record r { searcher = update r.searcher i s }

-- What the steps read besides: the number of helpers, and the ends of the arrays.
pub record Setting : Type 0 where
  pub sig_count : ℕ
  pub n_addrs : ℕ
  pub n_scan_map : ℕ
  pub scan_map : List ℕ

abbrev pub tracked : Setting → ℕ → ℕ → Tracked
tracked g min_ptr max_ptr = record {
  n_addrs = g.n_addrs;
  n_scan_map = g.n_scan_map;
  scan_map = g.scan_map;
  min_ptr = min_ptr;
  max_ptr = max_ptr;
}

pub data Step (g : Setting) : Round → Round → Type 0 where
  begins :
      (r : Round) (i min_ptr max_ptr : ℕ) (mem : List ℕ) (rest : List (List ℕ))
      → r.searcher i ≡ resting (mem ∷ rest)
      → get_elem? r.addrs 0 ≡ some min_ptr
      → get_elem? r.addrs (g.n_addrs - 1) ≡ some max_ptr
      → Step g r (move r i (scanning min_ptr max_ptr mem rest))
  scans :
      (r : Round) (i min_ptr max_ptr w : ℕ) (mem : List ℕ) (rest : List (List ℕ)) (addrs : List ℕ)
      → r.searcher i ≡ scanning min_ptr max_ptr (w ∷ mem) rest
      → search_word (tracked g min_ptr max_ptr) w r.addrs ≡ some addrs
      → Step g r (record (move r i (scanning min_ptr max_ptr mem rest)) { addrs = addrs })
  ends :
      (r : Round) (i min_ptr max_ptr : ℕ) (rest : List (List ℕ))
      → r.searcher i ≡ scanning min_ptr max_ptr [] rest
      → Step g r (move r i (resting rest))
  -- A helper marks itself done.
  counts :
      (r : Round) (i : ℕ)
      → 0 < i
      → i ≤ g.sig_count
      → r.searcher i ≡ resting []
      → Step g r (record (move r i finished) { self_stacks_searched = r.self_stacks_searched + 1 })
  -- The reclaimer leaves its waiting loop.
  returns :
      (r : Round)
      → r.searcher 0 ≡ resting []
      → g.sig_count ≤ r.self_stacks_searched
      → Step g r (move r 0 finished)

-- The round begins with the sorted array, and with the ranges of each thread to search.
abbrev pub begin_round : Setting → List ℕ → (ℕ → List (List ℕ)) → Round
begin_round g base ranges = record {
  addrs = base;
  self_stacks_searched = 0;
  searcher = λ i. if leb i g.sig_count then resting (ranges i) else finished;
}

-- Any number of steps.
pub data Run (g : Setting) (r : Round) : Round → Type 0 where
  started : Run g r r
  stepped : {s t : Round} → Run g r s → Step g s t → Run g r t
