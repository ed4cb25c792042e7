-- ===== src/Env.antt =====
-- env.c, and the layout of the working buffer that `register_signal_handlers` of threadscan.c makes
-- from its setting. A C `int` is its bit pattern of 32 bits, and its arithmetic wraps.
pub mod Bounds
mod Examples
use thread_scan.Base.{
  ℕ, ◌+◌, ◌-◌, ◌*◌, ◌/◌, ◌%◌, ◌^◌, Option, none, some, ltb, ◌==◌, if◌then◌else◌, bit_and, bit_or,
  Bool,
}

-- `get_int`: `val` is what `getenv` gives, as `atoi` reads it.
pub get_int : Option ℕ → ℕ → ℕ
get_int none default_val = default_val
get_int (some number) default_val = number

-- `x >> k` on an `int`, for `k` from 1 to 31: the sign fills in.
abbrev pub shift_right : ℕ → ℕ → ℕ
shift_right x k = if ltb x (2 ^ 31) then x / 2 ^ k else x / 2 ^ k + (2 ^ 32 - 2 ^ (32 - k))

-- `a < b` on `int`s.
abbrev pub int_lt : ℕ → ℕ → Bool
int_lt a b = ltb ((a + 2 ^ 31) % 2 ^ 32) ((b + 2 ^ 31) % 2 ^ 32)

-- `x |= x >> k`
pub spread : ℕ → ℕ → ℕ
spread k x = bit_or x (shift_right x k)

-- The "Round up to power of 2 bit trick".
pub round_up : ℕ → ℕ
round_up ptrs =
    let x = (ptrs + 2 ^ 32 - 1) % 2 ^ 32 in
    (spread 16 (spread 8 (spread 4 (spread 2 (spread 1 x)))) + 1) % 2 ^ 32

abbrev pub max_ptrs_per_thread : ℕ
max_ptrs_per_thread = 32 * 1024

abbrev pub min_ptrs_per_thread : ℕ
min_ptrs_per_thread = 1024

pub clamp : ℕ → ℕ
clamp ptrs =
    if int_lt ptrs min_ptrs_per_thread
    then min_ptrs_per_thread
    else if int_lt max_ptrs_per_thread ptrs
    then max_ptrs_per_thread
    else ptrs

-- `env_init`: the value of `g_threadscan_ptrs_per_thread`.
pub env_init : Option ℕ → ℕ
env_init val = clamp (round_up (get_int val 4 * 1024 % 2 ^ 32))

abbrev pub max_thread_count : ℕ
max_thread_count = 256

-- What `register_signal_handlers` stores in `g_tsdata`, sizes in bytes.
pub record Layout : Type 0 where
  pub max_ptrs : ℕ
  pub scan_map_sz : ℕ
  pub scan_map_offset : ℕ
  pub working_buffer_sz : ℕ

-- The size of the scan map, rounded up to whole pages.
pub round_to_page : ℕ → ℕ
round_to_page sz = if sz % 0x1000 == 0 then sz else bit_and (sz + 0x1000) (2 ^ 64 - 0x1000)

pub register_layout : ℕ → Layout
register_layout ptrs_per_thread =
    let max_ptrs = ptrs_per_thread * max_thread_count in
    let scan_map_sz = round_to_page (2 * max_ptrs * 8 * 8 / 0x1000) in
    record {
      max_ptrs = max_ptrs;
      scan_map_sz = scan_map_sz;
      scan_map_offset = max_ptrs * 8 * 2;
      working_buffer_sz = max_ptrs * 8 * 2 + scan_map_sz;
    }
