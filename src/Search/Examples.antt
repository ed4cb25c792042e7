-- ===== src/Search/Examples.antt =====
-- Tests of the search, and its theorems at concrete arrays.
use thread_scan.Base.{
  ℕ, zero, suc, ◌*◌, ◌%◌, ◌<◌, ◌≡◌, ◌⊎◌, inl, refl, List, [], ◌∷◌, some, arith, cell, length,
}
use thread_scan.Search.{
  iterative_loop, iterative_search, binary_loop, binary_search, scan_map_loop, generate_scan_map,
  do_search,
}
use thread_scan.Search.Find.{IsSortedAt, Finds, binary_search-Finds}
use thread_scan.Search.Marking.{IsTracked, IsMarking, Searched}
use thread_scan.Search.Level.{IsScanMap}
use thread_scan.Search.Scan.{do_search-Searched}
use thread_scan.Search.Map.{generate_scan_map-IsScanMap}

abbrev two_addrs : List ℕ
two_addrs = 8 ∷ 16 ∷ []

binary_search_second : binary_search 16 two_addrs 0 2 ≡ some 1
unfolding binary_search binary_loop iterative_search iterative_loop
binary_search_second = refl

-- A value between two words: the place of the lower one.
binary_search_between : binary_search 12 two_addrs 0 2 ≡ some 0
unfolding binary_search binary_loop iterative_search iterative_loop
binary_search_between = refl

generate_scan_map_two : generate_scan_map two_addrs 2 (0 ∷ 0 ∷ []) ≡ some (1, 8 ∷ 0 ∷ [])
unfolding generate_scan_map scan_map_loop
generate_scan_map_two = refl

two-IsSortedAt : IsSortedAt 16 0 2 two_addrs
two-IsSortedAt zero (suc zero) l ij h lt = omega arith
two-IsSortedAt _ _ l ij h lt = absurd (omega arith)

two-IsTracked : IsTracked 2 two_addrs
two-IsTracked = record { some_addr = omega arith; aligned = aligned; ordered = ordered }
  where
    aligned : (i : ℕ) → i < 2 → cell two_addrs i % 4 ≡ 0
    aligned zero h = refl
    aligned (suc zero) h = refl
    aligned (suc (suc i)) h = absurd (omega arith)

    ordered :
        (i j : ℕ)
        → i < j
        → j < 2
        → (cell two_addrs i < cell two_addrs j) ⊎ ((cell two_addrs i ≡ 0) × (cell two_addrs j ≡ 0))
    ordered zero (suc zero) ij h = inl (omega arith)
    ordered _ _ ij h = absurd (omega arith)

two-IsScanMap : IsScanMap 2 two_addrs 1 (8 ∷ [])
two-IsScanMap = record {
  some_page = omega arith;
  fits = omega arith;
  last_page = omega arith;
  all_pages = omega arith;
  entry = entry;
}
  where
    entry : (k : ℕ) → k < 1 → cell (8 ∷ []) k ≡ cell two_addrs (k * 512)
    entry zero h = refl
    entry (suc k) h = absurd (omega arith)

two-IsMarking : IsMarking 2 two_addrs two_addrs
two-IsMarking = record { fits = omega arith; each = λ i h. inl refl }

binary_search-Finds_example : Finds 16 0 2 two_addrs (binary_search 16 two_addrs 0 2)
binary_search-Finds_example =
    binary_search-Finds 16 0 2 two_addrs (omega arith) (omega arith) two-IsSortedAt

do_search-Searched_example :
    (after : List ℕ) × (do_search 2 1 (8 ∷ []) (18 ∷ 5 ∷ []) two_addrs ≡ some after)
    × Searched 2 two_addrs (18 ∷ 5 ∷ []) two_addrs after
do_search-Searched_example =
    do_search-Searched 2 1 two_addrs (8 ∷ []) (18 ∷ 5 ∷ []) two_addrs two-IsTracked two-IsScanMap
      two-IsMarking (omega arith, (omega arith, tt))

generate_scan_map-IsScanMap_example :
    (map' : List ℕ) × (pages : ℕ) × (generate_scan_map two_addrs 2 (0 ∷ 0 ∷ [])
      ≡ some (pages, map'))
    × IsScanMap 2 two_addrs pages map'
    × (length map' ≡ 2)
generate_scan_map-IsScanMap_example =
    generate_scan_map-IsScanMap two_addrs 2 (0 ∷ 0 ∷ []) (omega arith) (omega arith) (omega arith)
