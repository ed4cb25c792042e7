-- ===== src/Alloc/Examples.antt =====
-- The allocator at concrete states: with nothing in use, with a block, and with a block and a range.
use thread_scan.Base.{
  ℕ, ◌<◌, ◌≡◌, ◌⊎◌, refl, List, [], ◌∷◌, some, arith, count, ◌==◌, if◌then◌else◌, ℕ_discrete, inl,
  inr,
}
use thread_scan.Alloc.{Metadata, Allocator, alloc_mmap, alloc_munmap}
use thread_scan.Alloc.Insert.{IsInserted, do_insert-IsInserted}
use thread_scan.Alloc.Pool.{IsAllocator}
use thread_scan.Alloc.New.{IsKept, IsFreeBlock}
use thread_scan.Alloc.Map.{IsFreeRange, IsMapped, alloc_mmap-IsMapped}
use thread_scan.Alloc.Unmap.{IsUnmapped, alloc_munmap-IsUnmapped, mmap_munmap}

abbrev blank : Metadata
blank = record { addr = 0; length = 0; next = 0; prev = 0 }

abbrev nothing : Allocator
nothing = record { nodes = λ k. blank; free_list = 0; alloc_list = 0 }

nothing-IsAllocator : IsAllocator nothing [] []
nothing-IsAllocator = record {
  in_use = refl;
  ordered = tt;
  room = λ k on. absurd (omega (arith, on));
  pool = refl;
  once = λ k. omega arith;
}

alloc_mmap-IsMapped_example : IsMapped 1 nothing 65536 131072 8192 []
alloc_mmap-IsMapped_example =
    alloc_mmap-IsMapped 1 nothing 65536 131072 8192 [] [] (omega arith) nothing-IsAllocator
      (record {
        block_pos = omega arith;
        block_end = omega arith;
        block_clear = λ k on. absurd (omega (arith, on));
        block_off = λ k lo hi. refl;
      })
      (record {
        size_pos = omega arith;
        range_end = omega arith;
        range_clear = λ k on. absurd (omega (arith, on));
        off_block = inl (omega arith);
      })

abbrev block : ℕ → ℕ → Metadata
block next prev = record { addr = 65536; length = 4096; next = next; prev = prev }

-- The block, and one free node in it.
abbrev one_block : Allocator
one_block = record {
  nodes = λ k. if k == 65536 then block 65536 65536 else blank;
  free_list = 65568;
  alloc_list = 65536;
}

only_block : (k : ℕ) → 0 < count k (65536 ∷ []) → k ≡ 65536
only_block k on = ground (arith, on)

one_block-IsAllocator : IsAllocator one_block (65536 ∷ []) (65568 ∷ [])
one_block-IsAllocator = record {
  in_use = (refl, omega arith, 65536, (refl, omega arith, refl, (refl, refl)));
  ordered = (omega arith, tt);
  room = λ k on. rw (only_block k on) (omega arith);
  pool = (refl, omega arith, refl);
  once = λ k. ground arith;
}

one_block_range : IsFreeRange one_block 262144 131072 8192 (65536 ∷ [])
one_block_range = record {
  size_pos = omega arith;
  range_end = omega arith;
  range_clear = λ k on. rw (only_block k on) (inl (omega arith));
  off_block = inr (omega arith);
}

one_block_block : IsFreeBlock one_block 262144 (65536 ∷ [])
one_block_block = record {
  block_pos = omega arith;
  block_end = omega arith;
  block_clear = λ k on. rw (only_block k on) (inl (omega arith));
  block_off = λ k lo hi. ground (arith, lo);
}

mmap_munmap_example :
    (b : Allocator) × (c : Allocator) × (used' : List ℕ) × (free' : List ℕ) × (alloc_mmap 3
        one_block 262144 131072 8192
      ≡ some b)
    × (alloc_munmap (λ addr len. 0) 3 b 131072 ≡ some ((131072, 8192), c))
    × IsAllocator c used' free'
    × IsKept one_block.nodes c.nodes (65536 ∷ []) used'
    × ((k : ℕ) → 0 < count k used' → (0 < count k (65536 ∷ [])) ⊎ (k ≡ 262144))
mmap_munmap_example =
    mmap_munmap (λ addr len. 0) 3 one_block 262144 131072 8192 (65536 ∷ []) (65568 ∷ [])
      (omega arith) (omega arith) one_block-IsAllocator one_block_block one_block_range
      (λ addr len. refl)

-- The block, and a range of two pages.
abbrev two_ranges : Allocator
two_ranges = record {
  nodes = λ k.
      if k == 65536
      then block 65568 65568
      else if k == 65568
      then record { addr = 131072; length = 8192; next = 65536; prev = 65536 }
      else blank;
  free_list = 0;
  alloc_list = 65536;
}

two_ranges-IsAllocator : IsAllocator two_ranges (65536 ∷ 65568 ∷ []) []
two_ranges-IsAllocator = record {
  in_use = (
    refl,
    omega arith,
    65568,
    (refl, omega arith, refl, (refl, omega arith, refl, (refl, refl))),
  );
  ordered = (omega arith, (omega arith, tt));
  room = λ k on. elim (ℕ_discrete k 65536) [
    | yes here ↦ rw here (omega arith)
    | no other ↦ rw (second k on other) (omega arith)
  ];
  pool = refl;
  once = λ k. ground arith;
}
  where
    second : (k : ℕ) → 0 < count k (65536 ∷ 65568 ∷ []) → (k ≡ 65536 → ⊥) → k ≡ 65568
    second k on other = ground (arith, on, other)

alloc_munmap-IsUnmapped_example :
    IsUnmapped (λ addr len. 0) 2 two_ranges 131072 (65536 ∷ 65568 ∷ []) []
alloc_munmap-IsUnmapped_example =
    alloc_munmap-IsUnmapped (λ addr len. 0) 2 two_ranges 131072 65568 (65536 ∷ 65568 ∷ []) []
      (omega arith) (omega arith) two_ranges-IsAllocator (omega arith) refl (λ addr len. refl)

-- A range before the block, for a free node of it.
abbrev before_block : Allocator
before_block = record {
  nodes = λ k.
      if k == 65536
      then block 65536 65536
      else if k == 65568
      then record { addr = 16384; length = 4096; next = 0; prev = 0 }
      else blank;
  free_list = 0;
  alloc_list = 65536;
}

do_insert-IsInserted_example : IsInserted 1 before_block 65568 (65536 ∷ [])
do_insert-IsInserted_example =
    do_insert-IsInserted 1 before_block 65568 (65536 ∷ []) (omega arith)
      (refl, omega arith, 65536, (refl, omega arith, refl, (refl, refl))) (omega arith, tt)
      (omega arith) (λ k. ground arith) (λ k on. rw (only_block k on) (inr (omega arith)))
      (omega arith)
