-- ===== src/Cleanup/Examples.antt =====
-- The cleanup lock at concrete states: a thread that takes the lock, and one that comes too late.
use thread_scan.Base.{ℕ, false, arith, inl, ◌∷◌, [], ◌≡◌, refl, true}
use thread_scan.Cleanup.{
  State, is_active, Run, timestamp, raise_flag, attempt, cleaning, raise_first, raise_read,
  raise_second, wait_round, go, waits, acquires, raises, learns, confirms, read_timestamp,
  swap_timestamp, reads, swaps, start, Reach, started, stepped,
}
use thread_scan.Cleanup.Exclusion.{Owns, Reach-IsLocked}
use thread_scan.Cleanup.Known.{Knows, HasStamps}
use thread_scan.Cleanup.Informed.{cleaning_is_known}
use thread_scan.Cleanup.Progress.{lock_comes_free}

abbrev both_seen : State
both_seen = read_timestamp (read_timestamp start 4) 7

abbrev taken : State
taken = swap_timestamp (4 ∷ 7 ∷ []) both_seen 4 1

abbrev both_tried : State
both_tried = swap_timestamp (4 ∷ 7 ∷ []) taken 7 1

both_tried_run : Reach (4 ∷ 7 ∷ []) both_tried
unfolding read_timestamp swap_timestamp is_active
both_tried_run =
    stepped
      (stepped
        (stepped (stepped started (reads start 4 refl)) (reads (read_timestamp start 4) 7 refl))
        (swaps both_seen 4 1 refl))
      (swaps taken 7 1 refl)

Reach-IsLocked_example :
    ((i j : ℕ) → Owns both_tried i → Owns both_tried j → i ≡ j)
    × ((i : ℕ) → Owns both_tried i → is_active both_tried.global_timestamp ≡ true)
    × (is_active both_tried.global_timestamp ≡ true → (i : ℕ) × Owns both_tried i)
Reach-IsLocked_example = Reach-IsLocked both_tried_run

-- The second thread waits in vain for the lock, and the first one for the handlers.
lock_comes_free_example :
    (t : State) × Run (4 ∷ 7 ∷ []) both_tried t × (is_active t.global_timestamp ≡ false)
unfolding both_tried_run
lock_comes_free_example = lock_comes_free both_tried_run (omega arith)

-- The handler of thread 7 raises its flag and reads the timestamp while thread 4 waits for it.
abbrev answered : State
answered = raise_read (raise_first (swap_timestamp (7 ∷ []) (read_timestamp start 4) 4 1) 7) 7 0

abbrev confirmed : State
confirmed = raise_second answered 7 0 (attempt 1)

abbrev waited : State
waited = wait_round confirmed 4 2 7 []

abbrev cleaned : State
cleaned = go waited 4 cleaning

cleaned_run : Reach (7 ∷ []) cleaned
unfolding read_timestamp swap_timestamp is_active raise_first raise_read raise_second wait_round
    attempt timestamp raise_flag
cleaned_run =
    stepped
      (stepped
        (stepped
          (stepped
            (stepped
              (stepped (stepped started (reads start 4 refl))
                (swaps (read_timestamp start 4) 4 1 refl))
              (raises (swap_timestamp (7 ∷ []) (read_timestamp start 4) 4 1) 7 refl))
            (learns (raise_first (swap_timestamp (7 ∷ []) (read_timestamp start 4) 4 1) 7) 7 0
              refl))
          (confirms answered 7 0 (attempt 1) refl))
        (waits confirmed 4 2 7 [] refl))
      (acquires waited 4 2 refl)

cleaning_is_known_example :
    Knows (timestamp cleaned.global_timestamp) (cleaned.local_timestamp 7) (cleaned.handler 7)
    × HasStamps (timestamp cleaned.global_timestamp) (cleaned.local_timestamp 7) (cleaned.handler 7)
unfolding cleaned_run
cleaning_is_known_example = cleaning_is_known cleaned_run 4 7 (omega arith) refl (inl refl)
