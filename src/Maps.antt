-- ===== src/Maps.antt =====
-- `read_mapline` and `threadscan_proc_stack_from_addr` of proc.c. What `fscanf` and `fgetc` read of a line
-- of /proc/self/maps is an argument; `feof` holds where no line is left. `none` is the fatal exit.
pub mod Stack
mod Examples
use thread_scan.Base.{
  ℕ, List, [], ◌∷◌, Option, none, some, ◌>>=◌, ltb, ◌==◌, if◌then◌else◌, Bool, true, false, ◌&&◌,
  ◌||◌,
}

-- What the calls read of a line: the number of fields of the first `fscanf`, the two that are used
-- later, the first character behind them that is no space, and the result of the second `fscanf`.
pub record Scanned : Type 0 where
  pub fields : ℕ
  pub range_begin : ℕ
  pub range_end : ℕ
  pub next_char : ℕ
  pub location_fields : ℕ

-- '\n', and EOF as the `char` c that it becomes
abbrev pub newline : ℕ
newline = 10

abbrev pub end_of_file : ℕ
end_of_file = 255

-- `mem_range_t`
pub record MemRange : Type 0 where
  pub low : ℕ
  pub high : ℕ

-- Whether `read_mapline` gets past its two tests of what `fscanf` returned.
unfoldable pub is_complete : Scanned → Bool
is_complete s =
    (s.fields == 7)
    && (s.next_char == newline || s.next_char == end_of_file || s.location_fields == 1)

-- `read_mapline` where the file has not ended: the range of the line.
pub read_mapline : Scanned → Option MemRange
read_mapline s =
    if is_complete s then some (record { low = s.range_begin; high = s.range_end }) else none

-- The loop of `threadscan_proc_stack_from_addr`, and the range that it leaves.
pub stack_loop : List Scanned → ℕ → Option MemRange
stack_loop [] addr = some (record { low = 0; high = 0 })
stack_loop (s ∷ lines) addr = read_mapline s >>= λ line.
    elim (ltb line.low addr && ltb addr line.high) [
      | true ↦ some line
      | false ↦ stack_loop lines addr
    ]

-- `file` is what `fopen` gives.
pub stack_from_addr : Option (List Scanned) → ℕ → Option MemRange
stack_from_addr file addr = file >>= λ lines. stack_loop lines addr
