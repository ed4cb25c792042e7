-- ===== src/Lifetime.antt =====
-- The start and the end of a thread's metadata in util.c: `threadscan_util_thread_data_new` sets it up,
-- and `threadscan_util_thread_data_cleanup` takes the metadata of
-- a thread that was joined out of the list that is staged to free, and unmaps it.
pub mod New
pub mod Staged
pub mod Cleanup
mod Examples
use thread_scan.Base.{
  ℕ, zero, suc, ◌^◌, List, [], ◌∷◌, ◌++◌, Option, none, some, ◌>>=◌, ltb, ◌==◌, if◌then◌else◌, Bool,
  true, false, ◌&&◌,
}
use thread_scan.Queue.{Queue, init}
use thread_scan.Threads.{Memory, Registry, link}

-- The loop that finds the metadata: `last` and `td`.
pub cleanup_loop : ℕ → Memory → ℕ → ℕ → ℕ → Option (ℕ × ℕ)
cleanup_loop zero m last td tid = none
cleanup_loop (suc fuel) m last td tid = elim (td == 0) [
  | true ↦ none
  | false ↦ elim ((m td).self == tid) [
    | true ↦ some (last, td)
    | false ↦ cleanup_loop fuel m td (m td).next tid
  ]
]

pub unlink_staged : Registry → ℕ → ℕ → Registry
unlink_staged r last td =
    if last == 0
    then record r { staged = (r.memory td).next }
    else record r { memory = link r.memory last (r.memory td).next }

-- What `threadscan_util_thread_data_free` unmaps, in order.
unfoldable pub data_free : Registry → ℕ → Registry
data_free r td = record r { unmapped = r.unmapped ++ ((r.memory td).elements ∷ td ∷ []) }

-- A reference that is left is a fatal exit, `none`.
pub data_cleanup : ℕ → Registry → ℕ → Option Registry
data_cleanup fuel r tid = do
  (last, td) ← cleanup_loop fuel r.memory 0 r.staged tid
  let s = unlink_staged r last td
  let d = s.memory td
  if ltb 0 d.ref_count && ltb d.ref_count (2 ^ 31)
      then none
      else some (
          data_free
            (record s {
              unmapped =
                  if d.stack_is_ours == 0
                  then s.unmapped
                  else s.unmapped ++ (d.user_stack_low ∷ []);
            })
            td)

-- The fields of a fresh `thread_data_t` that are set.
pub record NewData : Type 0 where
  pub ptr_list : Queue
  pub local_block_low : ℕ
  pub local_block_high : ℕ
  pub ref_count : ℕ

-- `threadscan_util_thread_data_new`; `local_list` is the memory that `mmap` gives for the queue.
pub data_new : ℕ → List ℕ → NewData
data_new ptrs_per_thread local_list = record {
  ptr_list = init local_list ptrs_per_thread;
  local_block_low = 0;
  local_block_high = 0;
  ref_count = 1;
}
