-- ===== src/Reclaim/Round.antt =====
-- A whole round of `threadscan_reclaim`: which pointers it frees.
pub mod Order
pub mod Freed
pub mod Kept
pub mod Once
pub mod Rest
use thread_scan.Base.{
  ℕ, zero, suc, ◌+◌, ◌-◌, ◌*◌, ◌%◌, ◌^◌, ◌≤◌, ◌<◌, ◌≡◌, ◌⊎◌, inl, inr, refl, ap, ◌∙◌, sym, List, [],
  ◌∷◌, ◌++◌, Option, some, arith, length, cell, ◌>>=◌, segment, length-segment, count, dec_lt,
  subst,
}
use Order.{ArePointers, sorted-IsTracked, count-Rearranged}
use Rest.{kept_words, store_returns_some, counts_of_kept}
use Once.{length-marked_cleared, count-kept_or_freed}
use Freed.{count-unmarked_referred, count-unmarked_free}
use thread_scan.Queue.{Queue}
use thread_scan.Sort.Quick.{util_sort-Sorts, util_randomize_permutes}
use thread_scan.Search.Marking.{IsTracked, IsMarking, Refers, Searched, Searched-nothing}
use thread_scan.Search.Scan.{AreWords, append-AreWords, do_search-Searched}
use thread_scan.Search.Level.{IsScanMap}
use thread_scan.Search.Map.{generate_scan_map-IsScanMap}
use thread_scan.Search.Ranges.{words_of, Searched-append}
use thread_scan.Reclaim.{
  AddrStorage, Remaining, unmapped, stored, Reclaimed, store_remaining_addrs, search_ranges,
  reclaim, generate_working_pointers_list, handle_unreferenced_ptrs,
}
use thread_scan.Sort.{util_sort, util_randomize}
use thread_scan.Search.{generate_scan_map}
use thread_scan.Reclaim.Handle.{unmarked, marked_cleared, Handles, handle_unreferenced_ptrs-Handles}
use thread_scan.Reclaim.Store.{store_remaining_addrs_keeps, store_remaining_addrs_none}
use thread_scan.Reclaim.Gather.{
  leftovers, waiting, AreBlocks, AreQueues, AreEmpty, generate_working_pointers_list_gathers,
}

-- The words of every range are of 64 bits.
abbrev pub AreRanges : List (List ℕ) → Type 0
AreRanges [] = Unit {0}
AreRanges (mem ∷ ranges) = AreWords mem × AreRanges ranges

pub search_ranges-Searched :
    (n pages : ℕ) (base map : List ℕ) (ranges : List (List ℕ)) (addrs : List ℕ)
    → IsTracked n base
    → IsScanMap n base pages map
    → IsMarking n base addrs
    → AreRanges ranges
    → (after : List ℕ) × (search_ranges n pages map ranges addrs ≡ some after)
      × Searched n base (words_of ranges) addrs after
unfolding search_ranges
search_ranges-Searched n pages base map [] addrs tr sm m hw =
    (addrs, refl, Searched-nothing n base tr addrs m)
search_ranges-Searched n pages base map (mem ∷ ranges) addrs tr sm m hw =
    let (mid, e, s) = do_search-Searched n pages base map mem addrs tr sm m hw.0 in
    let (after, e', r) = search_ranges-Searched n pages base map ranges mid tr sm s.marking hw.1 in
    (after, rw e e', Searched-append n base mem (words_of ranges) addrs mid after s r)

words_of-AreWords : (ranges : List (List ℕ)) → AreRanges ranges → AreWords (words_of ranges)
words_of-AreWords [] h = tt
words_of-AreWords (mem ∷ ranges) h =
    append-AreWords mem (words_of ranges) h.0 (words_of-AreWords ranges h.1)

-- A word with no mark is no marking of its own.
pub IsMarking-self : (n : ℕ) (base : List ℕ) → n ≤ length base → IsMarking n base base
IsMarking-self n base h = record { fits = h; each = λ i p. inl refl }

-- The calls of a round, one after the other.
reclaim_returns :
    (max_ptrs : ℕ) (storage : List AddrStorage) (queues queues' : List Queue)
    (ranges : List (List ℕ)) (buf gathered base searched handled shuffled map map' freed : List ℕ)
    (n pages left : ℕ) (rest : Remaining) (released : List AddrStorage)
    → generate_working_pointers_list max_ptrs storage queues buf
      ≡ some (n, gathered, queues', released)
    → util_sort gathered n ≡ some base
    → generate_scan_map base n map ≡ some (pages, map')
    → search_ranges n pages map' ranges base ≡ some searched
    → handle_unreferenced_ptrs searched n ≡ some (left, handled, freed)
    → util_randomize handled left ≡ some shuffled
    → store_remaining_addrs max_ptrs [] shuffled left ≡ some rest
    → reclaim max_ptrs storage queues ranges buf map
      ≡ some (record { freed = freed; remaining = rest; queues = queues'; released = released })
unfolding reclaim
reclaim_returns max_ptrs storage queues queues' ranges buf gathered base searched handled shuffled
      map map' freed n pages left rest released e1 e2 e3 e4 e5 e6 e7 =
    rw e1 (rw e2 (rw e3 (rw e4 (rw e5 (rw e6 (rw e7 refl))))))

-- A round over the addresses `all` that are left over or wait in the queues, at least one of them and
-- at most `max_ptrs * 2 - 2`, each aligned and, but for 0, there once, over memory of 64-bit words,
-- returns, without a fatal exit, and accesses nothing out of range. It frees an address other than 0 exactly once if it is
-- among `all` and no searched word is that address up to its two low bits, and frees no other
-- address. The words that it keeps for the next round are as many as those that it did not free, and an
-- address other than 0 is kept and freed together at most as often as it is among `all`, so that none
-- that is freed is kept; every block that was left over is unmapped once, and every queue is valid and empty.
pub reclaim_frees :
    (max_ptrs : ℕ) (storage : List AddrStorage) (queues : List Queue) (ranges : List (List ℕ))
    (buf map : List ℕ)
    → AreBlocks storage
    → AreQueues queues
    → AreRanges ranges
    → max_ptrs * 2 ≤ length buf
    → 0 < length (leftovers storage ++ waiting queues)
    → length (leftovers storage ++ waiting queues) + 2 ≤ max_ptrs * 2
    → length (leftovers storage ++ waiting queues) ≤ length map * 512
    → ArePointers (leftovers storage ++ waiting queues)
    → let all = leftovers storage ++ waiting queues in
      (r : Reclaimed) × (reclaim max_ptrs storage queues ranges buf map ≡ some r)
      × ((v : ℕ) → 0 < v → Refers v (words_of ranges) → count v r.freed ≡ 0)
      × ((v : ℕ) → 0 < v → (Refers v (words_of ranges) → ⊥) → count v r.freed ≡ count v all)
      × (length (kept_words r.remaining) + length r.freed ≡ length all)
      × ((v : ℕ) → 0 < v → count v (kept_words r.remaining) + count v r.freed ≤ count v all)
      × AreEmpty r.queues
      × (r.released ≡ storage)
reclaim_frees max_ptrs storage queues ranges buf map blocks ok hw room pos fits pages_fit ps =
    let all = leftovers storage ++ waiting queues in
    let n : ℕ = length all in
    let (gathered, queues', e1, seg, len1, empty) =
      generate_working_pointers_list_gathers max_ptrs storage queues buf blocks ok room
        (omega arith) in
    let sort = util_sort-Sorts gathered n (omega arith) in
    let base = sort.out in
    let len2 : length base ≡ length gathered = sort.rearranged.same_length in
    let tr =
      sorted-IsTracked n gathered base all pos (omega arith) refl seg ps sort.rearranged
        sort.sorted in
    let (map', pages, e3, sm, len3) =
      generate_scan_map-IsScanMap base n map pos (omega arith) pages_fit in
    let (searched, e4, s) =
      search_ranges-Searched n pages base map' ranges base tr sm
        (IsMarking-self n base (omega arith)) hw in
    let len4 = s.same_length in
    let handled = handle_unreferenced_ptrs-Handles searched n (omega arith) in
    let left : ℕ = 0 + length (marked_cleared (segment searched 0 n)) in
    let (shuffled, e6, r6) =
      util_randomize_permutes handled.out left
        (omega (arith, handled.in_range, handled.same_length)) in
    let (rest, e7, kept_length, same_kept) =
      store_returns_some max_ptrs shuffled left
        (omega (arith, handled.in_range, handled.same_length, r6.same_length))
        (omega (arith, handled.in_range)) in
    let kept : List ℕ = marked_cleared (segment searched 0 n) in
    let counts_kept : (v : ℕ) → count v (kept_words rest) ≡ count v kept = λ v.
      counts_of_kept v left kept handled.out shuffled (kept_words rest) (omega arith)
        (omega (arith, handled.in_range, handled.same_length)) handled.written r6 (same_kept v) in
    let counts : (v : ℕ) → count v (segment base 0 n) ≡ count v all =
      λ v. count-Rearranged v n gathered base (omega arith) sort.rearranged ∙ ap (count v) seg in
    (
      record {
        freed = unmarked (segment searched 0 n);
        remaining = rest;
        queues = queues';
        released = storage;
      },
      reclaim_returns max_ptrs storage queues queues' ranges buf gathered base searched handled.out
          shuffled map map' (unmarked (segment searched 0 n)) n pages left rest storage e1
          sort.returns e3 e4 handled.returns e6 e7,
      λ v p ref.
          count-unmarked_referred n base (words_of ranges) searched tr s v p 0 n (omega arith) ref,
      λ v p free.
          count-unmarked_free n base (words_of ranges) searched tr s v p 0 n (omega arith) free
          ∙ counts v,
      omega (
        arith,
        kept_length,
        length-marked_cleared (segment searched 0 n),
        length-segment searched 0 n,
      ),
      λ v p.
          count-kept_or_freed n base (words_of ranges) searched tr (words_of-AreWords ranges hw) s v
            (count v (kept_words rest)) (count v all) p (counts_kept v) (counts v),
      empty,
      refl,
    )
