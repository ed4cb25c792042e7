-- ===== src/Helping/Examples.antt =====
-- Tests of a round with one helper, and its theorems at concrete addresses.
use thread_scan.Base.{
  ℕ, zero, suc, ◌+◌, ◌*◌, ◌%◌, ◌^◌, ◌≤◌, ◌<◌, ◌≡◌, ◌⊎◌, ◌↔◌, inl, refl, List, [], ◌∷◌, arith, cell,
  ◌==◌, if◌then◌else◌,
}
use thread_scan.Maps.{MemRange}
use thread_scan.Search.Marking.{IsTracked, Refers}
use thread_scan.Search.Level.{IsScanMap}
use thread_scan.Search.Ranges.{words_of}
use thread_scan.Helping.{
  finished, Round, Setting, Run, started, begin_round, own_ranges, load_words, search_range,
}
use thread_scan.Helping.Block.{register_high, register_local_block, register_local_block_searched}
use thread_scan.Helping.Found.{returned_marks}
use thread_scan.Helping.Returns.{round_returns}

abbrev two_addrs : List ℕ
two_addrs = 8 ∷ 16 ∷ []

two-IsTracked : IsTracked 2 two_addrs
two-IsTracked = record { some_addr = omega arith; aligned = aligned; ordered = ordered }
  where
    aligned : (i : ℕ) → i < 2 → cell two_addrs i % 4 ≡ 0
    aligned zero h = refl
    aligned (suc zero) h = refl
    aligned (suc (suc i)) h = absurd (omega arith)

    ordered :
        (i j : ℕ)
        → i < j
        → j < 2
        → (cell two_addrs i < cell two_addrs j) ⊎ ((cell two_addrs i ≡ 0) × (cell two_addrs j ≡ 0))
    ordered zero (suc zero) ij h = inl (omega arith)
    ordered _ _ ij h = absurd (omega arith)

two-IsScanMap : IsScanMap 2 two_addrs 1 (8 ∷ [])
two-IsScanMap = record {
  some_page = omega arith;
  fits = omega arith;
  last_page = omega arith;
  all_pages = omega arith;
  entry = entry;
}
  where
    entry : (k : ℕ) → k < 1 → cell (8 ∷ []) k ≡ cell two_addrs (k * 512)
    entry zero h = refl
    entry (suc k) h = absurd (omega arith)

-- The word at 1000 refers to the second address.
abbrev memory : ℕ → ℕ
memory addr = if addr == 1000 then 18 else 5

memory-words : (a : ℕ) → memory a < 2 ^ 64
memory-words a = ground arith

-- The stacks stand next to each other, and no local block is set.
abbrev stack : ℕ → MemRange
stack i = record { low = 1000 + 16 * i; high = 1016 + 16 * i }

abbrev block : ℕ → MemRange
block i = record { low = 0; high = 0 }

abbrev setting : Setting
setting = record { sig_count = 1; n_addrs = 2; n_scan_map = 1; scan_map = 8 ∷ [] }

own_ranges_first : own_ranges memory (stack 0) (block 0) ≡ (18 ∷ 5 ∷ []) ∷ []
unfolding own_ranges search_range load_words
own_ranges_first = refl

abbrev opening : Round
opening = begin_round setting two_addrs (λ i. own_ranges memory (stack i) (block i))

round_returns_example : (s : Round) × Run setting opening s × (s.searcher 0 ≡ finished)
round_returns_example =
    round_returns setting two_addrs memory stack block opening two-IsTracked two-IsScanMap
      (omega arith) memory-words started

-- The helpers and the reclaimer run to their end.
abbrev completed : (s : Round) × Run setting opening s × (s.searcher 0 ≡ finished)
completed =
    round_returns setting two_addrs memory stack block opening two-IsTracked two-IsScanMap
      (omega arith) memory-words started

abbrev closing : Round
closing = completed.0

returned_marks_example :
    ((i : ℕ) → i ≤ 1 → closing.searcher i ≡ finished)
    × ((k : ℕ)
        → k < 2
        → 0 < cell two_addrs k
        → (cell closing.addrs k ≡ cell two_addrs k + 1) ↔ (
            (i : ℕ) × (i ≤ 1)
            × Refers (cell two_addrs k) (words_of (own_ranges memory (stack i) (block i)))))
returned_marks_example =
    returned_marks setting two_addrs memory stack block closing two-IsTracked two-IsScanMap
      (omega arith) memory-words completed.1 completed.2

-- A block of three words at 4096.
register_local_block_searched_example :
    (own_ranges memory (stack 0) (register_high (block 0) 4096 24)
      ≡ own_ranges memory (stack 0) (block 0))
    × (own_ranges memory (stack 0) (register_local_block (block 0) 4096 24)
        ≡ search_range memory (stack 0) ∷ load_words memory 4096 3 ∷ [])
register_local_block_searched_example =
    register_local_block_searched memory (stack 0) (block 0) 4096 24 refl (omega arith)
      (omega arith)
