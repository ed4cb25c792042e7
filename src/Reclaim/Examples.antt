-- ===== src/Reclaim/Examples.antt =====
-- Tests of a round, and its theorems at concrete addresses.
use thread_scan.Base.{
  ℕ, zero, suc, ◌+◌, ◌%◌, ◌≤◌, ◌<◌, ◌≡◌, ◌⊎◌, inl, refl, List, [], ◌∷◌, some, arith, cell, length,
  count, segment,
}
use thread_scan.Base.Pointer.{low_bit-eq-mod, ptr_mask-eq-sub}
use thread_scan.Queue.{Queue}
use thread_scan.Queue.View.{IsValid}
use thread_scan.Search.Marking.{IsTracked, Refers, Searched, Searched-set}
use thread_scan.Reclaim.{
  AddrStorage, stored, Reclaimed, store_remaining_addrs, handle_unreferenced_ptrs,
  generate_working_pointers_list, reclaim,
}
use thread_scan.Reclaim.Handle.{marked_cleared, unmarked, Handles, handle_unreferenced_ptrs-Handles}
use thread_scan.Reclaim.Store.{store_remaining_addrs_keeps}
use thread_scan.Reclaim.Gather.{AreEmpty, generate_working_pointers_list_gathers}
use thread_scan.Reclaim.Round.{IsMarking-self, reclaim_frees}
use thread_scan.Reclaim.Round.Rest.{kept_words}
use thread_scan.Reclaim.Round.Order.{ArePointers}
use thread_scan.Reclaim.Round.Kept.{
  AreAddresses, handle_unreferenced_ptrs_keeps, handle_unreferenced_ptrs_loses,
}

abbrev two_addrs : List ℕ
two_addrs = 8 ∷ 16 ∷ []

two-IsTracked : IsTracked 2 two_addrs
two-IsTracked = record { some_addr = omega arith; aligned = aligned; ordered = ordered }
  where
    aligned : (i : ℕ) → i < 2 → cell two_addrs i % 4 ≡ 0
    aligned zero h = refl
    aligned (suc zero) h = refl
    aligned (suc (suc i)) h = absurd (omega arith)

    ordered :
        (i j : ℕ)
        → i < j
        → j < 2
        → (cell two_addrs i < cell two_addrs j) ⊎ ((cell two_addrs i ≡ 0) × (cell two_addrs j ≡ 0))
    ordered zero (suc zero) ij h = inl (omega arith)
    ordered _ _ ij h = absurd (omega arith)

two-AreAddresses : AreAddresses 2 two_addrs
two-AreAddresses zero h = omega arith
two-AreAddresses (suc zero) h = omega arith
two-AreAddresses (suc (suc i)) h = absurd (omega arith)

-- A word of memory refers to the second address, or to the first.
second-Searched : Searched 2 two_addrs (16 ∷ []) two_addrs (8 ∷ 17 ∷ [])
second-Searched =
    Searched-set 2 two_addrs two-IsTracked 16 two_addrs 1 (IsMarking-self 2 two_addrs (omega arith))
      (omega arith) (omega (arith, ptr_mask-eq-sub 16 (omega arith)))

first-Searched : Searched 2 two_addrs (8 ∷ []) two_addrs (9 ∷ 16 ∷ [])
first-Searched =
    Searched-set 2 two_addrs two-IsTracked 8 two_addrs 0 (IsMarking-self 2 two_addrs (omega arith))
      (omega arith) (omega (arith, ptr_mask-eq-sub 8 (omega arith)))

handle_unreferenced_ptrs-Handles_example :
    Handles 0 2
      (8 ∷ 17 ∷ [])
      (marked_cleared (8 ∷ 17 ∷ []))
      (unmarked (8 ∷ 17 ∷ []))
      (handle_unreferenced_ptrs (8 ∷ 17 ∷ []) 2)
handle_unreferenced_ptrs-Handles_example =
    handle_unreferenced_ptrs-Handles (8 ∷ 17 ∷ []) 2 (omega arith)

handle_unreferenced_ptrs_keeps_example :
    (left : ℕ) × (out : List ℕ) × (freed : List ℕ) × (handle_unreferenced_ptrs (8 ∷ 17 ∷ []) 2
      ≡ some (left, out, freed))
    × ((v : ℕ)
        → 0 < v
        → Refers v (16 ∷ [])
        → count v (segment out 0 left) ≡ count v (segment two_addrs 0 2))
handle_unreferenced_ptrs_keeps_example =
    handle_unreferenced_ptrs_keeps 2 two_addrs (16 ∷ []) (8 ∷ 17 ∷ []) two-IsTracked
      two-AreAddresses second-Searched (low_bit-eq-mod 8)

handle_unreferenced_ptrs_loses_example :
    (left : ℕ) × (out : List ℕ) × (freed : List ℕ) × (handle_unreferenced_ptrs (9 ∷ 16 ∷ []) 2
      ≡ some (left, out, freed))
    × (count 8 freed ≡ 0)
    × (count 8 (segment out 0 left) ≡ 0)
handle_unreferenced_ptrs_loses_example =
    handle_unreferenced_ptrs_loses 2 two_addrs (8 ∷ []) (9 ∷ 16 ∷ []) two-IsTracked two-AreAddresses
      first-Searched (omega arith) (inl (omega (arith, ptr_mask-eq-sub 8 (omega arith))))

abbrev one_kept : List ℕ
one_kept = 8 ∷ 0 ∷ 0 ∷ []

store_remaining_addrs_keeps_example :
    (b : AddrStorage) × (store_remaining_addrs 4 [] one_kept 1 ≡ some (stored (b ∷ [])))
    × (b.length ≡ 1)
    × ((v : ℕ) → count v (segment b.addrs 0 1) ≡ count v (segment one_kept 0 1))
store_remaining_addrs_keeps_example =
    store_remaining_addrs_keeps 4 [] one_kept 1 (omega arith) (omega arith) (omega arith)

-- 24 is left over, and 8 waits in a queue.
abbrev block : AddrStorage
block = record { length = 1; addrs = 24 ∷ 0 ∷ [] }

abbrev queue : Queue
queue = record { e = 8 ∷ 0 ∷ []; capacity = 2; idx_head = 1; idx_tail = 2 }

queue-IsValid : IsValid queue
queue-IsValid = record {
  exponent = 1;
  power = refl;
  storage = omega arith;
  from_start = omega arith;
  ordered = omega arith;
  head_below = omega arith;
  in_word = omega arith;
}

abbrev working : List ℕ
working = 0 ∷ 0 ∷ 0 ∷ 0 ∷ []

pointers-ArePointers : ArePointers (24 ∷ 8 ∷ [])
pointers-ArePointers = record { aligned = aligned; once = λ v h. ground arith }
  where
    aligned : (i : ℕ) → i < 2 → cell (24 ∷ 8 ∷ []) i % 4 ≡ 0
    aligned zero h = refl
    aligned (suc zero) h = refl
    aligned (suc (suc i)) h = absurd (omega arith)

generate_working_pointers_list_gathers_example :
    (b : List ℕ) × (queues' : List Queue) × (generate_working_pointers_list 2
        (block ∷ [])
        (queue ∷ [])
        working
      ≡ some (2, b, queues', block ∷ []))
    × (segment b 0 2 ≡ 24 ∷ 8 ∷ [])
    × (length b ≡ 4)
    × AreEmpty queues'
generate_working_pointers_list_gathers_example =
    generate_working_pointers_list_gathers 2 (block ∷ []) (queue ∷ []) working (omega arith, tt)
      (queue-IsValid, omega arith, tt) (omega arith) (omega arith)

-- A stack word refers to 24, with a flag in its low bits; nothing refers to 8.
reclaim_frees_example :
    (r : Reclaimed) × (reclaim 2 (block ∷ []) (queue ∷ []) ((26 ∷ 5 ∷ []) ∷ []) working (0 ∷ [])
      ≡ some r)
    × ((v : ℕ) → 0 < v → Refers v (26 ∷ 5 ∷ []) → count v r.freed ≡ 0)
    × ((v : ℕ) → 0 < v → (Refers v (26 ∷ 5 ∷ []) → ⊥) → count v r.freed ≡ count v (24 ∷ 8 ∷ []))
    × (length (kept_words r.remaining) + length r.freed ≡ 2)
    × ((v : ℕ) → 0 < v → count v (kept_words r.remaining) + count v r.freed ≤ count v (24 ∷ 8 ∷ []))
    × AreEmpty r.queues
    × (r.released ≡ block ∷ [])
reclaim_frees_example =
    reclaim_frees 2 (block ∷ []) (queue ∷ []) ((26 ∷ 5 ∷ []) ∷ []) working (0 ∷ [])
      (omega arith, tt) (queue-IsValid, omega arith, tt) ((omega arith, (omega arith, tt)), tt)
      (omega arith) (omega arith) (omega arith) (omega arith) pointers-ArePointers
