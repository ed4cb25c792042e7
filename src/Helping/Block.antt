-- ===== src/Helping/Block.antt =====
-- `threadscan_register_local_block` of threadscan.c: two writes, and a signal may come between them.
use thread_scan.Base.{ℕ, ◌+◌, ◌/◌, ◌^◌, ◌<◌, ◌≡◌, refl, [], ◌∷◌, arith, sub64, add64}
use thread_scan.Maps.{MemRange}
use thread_scan.Helping.{load_words, search_range, own_ranges}

-- The first write.
abbrev pub register_high : MemRange → ℕ → ℕ → MemRange
register_high local_block addr size = record local_block { high = add64 addr size }

pub register_local_block : MemRange → ℕ → ℕ → MemRange
register_local_block local_block addr size = record (register_high local_block addr size) {
  low = addr;
}

-- A block in the address space that is registered where none was: a handler that runs after the first of the two
-- writes searches the stack only, as before the call; one that runs after both searches the stack and
-- then all the words of the block.
pub register_local_block_searched :
    (memory : ℕ → ℕ) (stack local_block : MemRange) (addr size : ℕ)
    → local_block.low ≡ 0
    → 0 < addr
    → addr + size < 2 ^ 64
    → (own_ranges memory stack (register_high local_block addr size)
        ≡ own_ranges memory stack local_block)
      × (own_ranges memory stack (register_local_block local_block addr size)
          ≡ search_range memory stack ∷ load_words memory addr (size / 8) ∷ [])
unfolding own_ranges search_range register_local_block
register_local_block_searched memory stack local_block addr size unset pos fits =
    (rw unset refl, ground (arith, pos, count))
  where
    count : sub64 (add64 addr size) addr ≡ size
    count = omega (arith, fits)
