-- ===== src/Maps/Stack.antt =====
-- The range of the maps file that an address lies in.
use thread_scan.Base.{ℕ, ◌≤◌, ◌<◌, ◌≡◌, ◌∙◌, List, [], ◌∷◌, some, arith, true, ◌⊎◌, inl, inr}
use thread_scan.Maps.{Scanned, MemRange, is_complete, read_mapline, stack_loop, stack_from_addr}

-- The lines are complete, and their ranges in order from `bound` on, as the kernel lists them.
abbrev pub IsMaps : ℕ → List Scanned → Type 0
IsMaps bound [] = Unit
IsMaps bound (s ∷ lines) =
    (is_complete s ≡ true)
    × (bound ≤ s.range_begin)
    × (s.range_begin ≤ s.range_end)
    × IsMaps s.range_end lines

-- The address lies inside of the range of one of the lines.
abbrev pub IsInside : List Scanned → ℕ → MemRange → Type 0
IsInside [] addr range = ⊥
IsInside (s ∷ lines) addr range =
    ((range.low ≡ s.range_begin)
      × (range.high ≡ s.range_end)
      × (s.range_begin < addr)
      × (addr < s.range_end))
    ⊎ IsInside lines addr range

-- Later ranges lie above.
IsInside-above :
    (bound addr : ℕ) (range : MemRange) (lines : List Scanned)
    → IsMaps bound lines
    → IsInside lines addr range
    → bound ≤ addr
IsInside-above bound addr range [] m h = absurd h
IsInside-above bound addr range (s ∷ lines) (ok, le, le', rest) (inl (_, _, lo, hi)) =
    omega (arith, le, lo)
IsInside-above bound addr range (s ∷ lines) (ok, le, le', rest) (inr h) =
    omega (arith, le, le', IsInside-above s.range_end addr range lines rest h)

stack_loop-here :
    (s : Scanned) (lines : List Scanned) (addr : ℕ)
    → is_complete s ≡ true
    → s.range_begin < addr
    → addr < s.range_end
    → stack_loop (s ∷ lines) addr ≡ some (record { low = s.range_begin; high = s.range_end })
unfolding stack_loop read_mapline
stack_loop-here s lines addr ok lo hi = rw ok (ground arith)

stack_loop-on :
    (s : Scanned) (lines : List Scanned) (addr : ℕ)
    → is_complete s ≡ true
    → s.range_end ≤ addr
    → stack_loop (s ∷ lines) addr ≡ stack_loop lines addr
unfolding stack_loop read_mapline
stack_loop-on s lines addr ok le = rw ok (ground arith)

stack_loop_finds :
    (bound addr : ℕ) (range : MemRange) (lines : List Scanned)
    → IsMaps bound lines
    → IsInside lines addr range
    → stack_loop lines addr ≡ some range
stack_loop_finds bound addr range [] m h = absurd h
stack_loop_finds bound addr range (s ∷ lines) (ok, le, le', rest) (inl (e, e', lo, hi)) =
    stack_loop-here s lines addr ok lo hi ∙ ground (arith, e, e')
stack_loop_finds bound addr range (s ∷ lines) (ok, le, le', rest) (inr h) =
    stack_loop-on s lines addr ok (IsInside-above s.range_end addr range lines rest h)
    ∙ stack_loop_finds s.range_end addr range lines rest h

-- With complete lines of ranges in order, `threadscan_proc_stack_from_addr` gives the bounds of the range that
-- the address lies inside of, past its first byte.
pub stack_from_addr_finds :
    (addr : ℕ) (range : MemRange) (lines : List Scanned)
    → IsMaps 0 lines
    → IsInside lines addr range
    → stack_from_addr (some lines) addr ≡ some range
unfolding stack_from_addr
stack_from_addr_finds addr range lines = stack_loop_finds 0 addr range lines
