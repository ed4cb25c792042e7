-- ===== src/Sort/Examples.antt =====
-- Tests of the sort, and its theorems at concrete arrays.
use thread_scan.Base.{ℕ, ◌≡◌, refl, List, [], ◌∷◌, some, arith}
use thread_scan.Sort.{
  swap, partition_round, partition_loop, partition, sink, insertion_loop, insertion_sort, quicksort,
  util_sort, shuffle_target, shuffle_round, shuffle_loop, util_randomize,
}
use thread_scan.Sort.Rearranged.{Rearranged}
use thread_scan.Sort.Insertion.{Sorts}
use thread_scan.Sort.Quick.{util_sort-Sorts, util_randomize_permutes}

abbrev mixed : List ℕ
mixed = 30 ∷ 10 ∷ 20 ∷ 7 ∷ []

-- Longer than the threshold: `partition` runs, too.
abbrev long : List ℕ
long = 9 ∷ 18 ∷ 3 ∷ 12 ∷ 7 ∷ 1 ∷ 16 ∷ 5 ∷ 14 ∷ 2 ∷ 11 ∷ 8 ∷ 17 ∷ 4 ∷ 13 ∷ 6 ∷ 15 ∷ 10 ∷ []

util_sort-mixed : util_sort mixed 3 ≡ some (10 ∷ 20 ∷ 30 ∷ 7 ∷ [])
unfolding util_sort quicksort insertion_sort insertion_loop sink swap
util_sort-mixed = refl

util_sort-long :
    util_sort long 18
    ≡ some (1 ∷ 2 ∷ 3 ∷ 4 ∷ 5 ∷ 6 ∷ 7 ∷ 8 ∷ 9 ∷ 10 ∷ 11 ∷ 12 ∷ 13 ∷ 14 ∷ 15 ∷ 16 ∷ 17 ∷ 18 ∷ [])
unfolding util_sort quicksort partition partition_loop partition_round insertion_sort insertion_loop
    sink swap
util_sort-long = refl

-- On four words the swaps of the second and the fourth word undo one another.
util_randomize-mixed : util_randomize mixed 4 ≡ some mixed
unfolding util_randomize shuffle_loop shuffle_round shuffle_target swap
util_randomize-mixed = refl

util_sort-Sorts_example : Sorts 0 18 long (util_sort long 18)
util_sort-Sorts_example = util_sort-Sorts long 18 (omega arith)

util_randomize_permutes_example :
    (b : List ℕ) × (util_randomize mixed 4 ≡ some b) × Rearranged 0 4 mixed b
util_randomize_permutes_example = util_randomize_permutes mixed 4 (omega arith)
