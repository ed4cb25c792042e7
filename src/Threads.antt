-- ===== src/Threads.antt =====
-- The thread metadata of util.c and `threadscan_proc_signal_all_except` of proc.c: `threadscan_util_thread_list_add`, `_remove` and `_find`,
-- `threadscan_util_thread_data_decr_ref` and `_cleanup`. The metadata lies in a store by address,
-- and one field `next` links it in the thread list and in the list that is staged to free.
-- Each function holds the lock of its list from end to end. `none` is a read through NULL, the fatal
-- exit, or a walk that is out of fuel.
pub mod Chain
pub mod Lists
pub mod Exit
pub mod Find
pub mod Signal
mod Examples
use thread_scan.Base.{
  ℕ, zero, suc, ◌+◌, ◌-◌, ◌%◌, ◌^◌, List, [], ◌∷◌, ◌++◌, Option, none, some, ◌>>=◌, ltb, leb, ◌==◌,
  if◌then◌else◌, Bool, true, false, ◌&&◌,
}

-- `thread_data_t`, with the fields that these functions use; `elements` is `ptr_list.e`.
pub record ThreadData : Type 0 where
  pub next : ℕ
  pub self : ℕ
  pub user_stack_low : ℕ
  pub user_stack_high : ℕ
  pub stack_is_ours : ℕ
  pub is_active : ℕ
  pub elements : ℕ
  pub ref_count : ℕ

abbrev pub Memory : Type 0
Memory = ℕ → ThreadData

abbrev pub write : Memory → ℕ → ThreadData → Memory
write m td d p = if td == p then d else m p

-- `td->next = p`
abbrev pub link : Memory → ℕ → ℕ → Memory
link m td p = write m td (record (m td) { next = p })

-- The store, the head of the thread list, `g_td_staged_to_free`, and what was unmapped.
pub record Registry : Type 0 where
  pub memory : Memory
  pub head : ℕ
  pub staged : ℕ
  pub unmapped : List ℕ

unfoldable pub list_add : Registry → ℕ → Registry
list_add r td = record r { memory = link r.memory td r.head; head = td }

-- The loop of `threadscan_util_thread_list_remove` at `tmp`, and the unlinking.
pub remove_loop : ℕ → Memory → ℕ → ℕ → Option Memory
remove_loop zero m tmp td = none
remove_loop (suc fuel) m tmp td = elim (tmp == 0) [
  | true ↦ none
  | false ↦ elim ((m tmp).next == td) [
    | true ↦ some (link m tmp (m td).next)
    | false ↦ remove_loop fuel m (m tmp).next td
  ]
]

unfoldable pub list_remove : ℕ → Registry → ℕ → Option Registry
list_remove fuel r td =
    if r.head == td
    then some (record r { head = (r.memory td).next })
    else do m ← remove_loop fuel r.memory r.head td; some (record r { memory = m })

abbrev pub on_stack : ThreadData → ℕ → Bool
on_stack d addr = leb d.user_stack_low addr && ltb addr d.user_stack_high

-- `__sync_fetch_and_add(&td->ref_count, 1)` and `..._sub`, in 32 bits.
abbrev pub add_ref : Memory → ℕ → Memory
add_ref m td = write m td (record (m td) { ref_count = ((m td).ref_count + 1) % 2 ^ 32 })

abbrev pub sub_ref : Memory → ℕ → Memory
sub_ref m td = write m td (record (m td) { ref_count = ((m td).ref_count + 2 ^ 32 - 1) % 2 ^ 32 })

-- The loop of `threadscan_util_thread_list_find` at `ret`.
pub find_loop : ℕ → Memory → ℕ → ℕ → Option (ℕ × Memory)
find_loop zero m ret addr = none
find_loop (suc fuel) m ret addr = elim (ret == 0) [
  | true ↦ some (0, m)
  | false ↦ elim (on_stack (m ret) addr) [
    | true ↦ some (ret, add_ref m ret)
    | false ↦ find_loop fuel m (m ret).next addr
  ]
]

pub list_find : ℕ → Registry → ℕ → Option (ℕ × Registry)
list_find fuel r addr = do
  (ret, m) ← find_loop fuel r.memory r.head addr
  some (ret, record r { memory = m })

pub decr_ref : Registry → ℕ → Registry
decr_ref r td =
    let m = sub_ref r.memory td in
    if (m td).ref_count == 0
    then record r { memory = link m td r.staged; staged = td }
    else record r { memory = m }

-- `threadscan_thread_cleanup` of thread.c, as the thread `td` exits.
unfoldable pub thread_cleanup : ℕ → Registry → ℕ → Option Registry
thread_cleanup fuel r td = do
  let idle = record r { memory = write r.memory td (record (r.memory td) { is_active = 0 }) }
  s ← list_remove fuel idle td
  some (decr_ref s td)

-- `EINVAL` and `ESRCH`
abbrev pub einval : ℕ
einval = 22

abbrev pub esrch : ℕ
esrch = 3

-- One more signal, sent to `self`.
abbrev pub sent_to : ℕ → ℕ → ℕ × List ℕ → ℕ × List ℕ
sent_to self ret (signal_count, calls) =
    (if ret == esrch then signal_count else signal_count + 1, self ∷ calls)

-- The loop of `threadscan_proc_signal_all_except` at `td`: the number of signals, and the threads for
-- which it calls `pthread_kill`, whose results are `kill`.
pub signal_loop : (ℕ → ℕ) → ℕ → Memory → ℕ → ℕ → Option (ℕ × List ℕ)
signal_loop kill zero m td except = none
signal_loop kill (suc fuel) m td except = elim (td == 0) [
  | true ↦ some (0, [])
  | false ↦
      elim ((if td == except then false else true)
        && (if (m td).is_active == 0 then false else true)) [
          | true ↦ elim (kill (m td).self == einval) [
            | true ↦ none
            | false ↦ do
              rest ← signal_loop kill fuel m (m td).next except
              some (sent_to (m td).self (kill (m td).self) rest)
          ]
          | false ↦ signal_loop kill fuel m (m td).next except
        ]
]

pub signal_all_except : (ℕ → ℕ) → ℕ → Registry → ℕ → Option (ℕ × List ℕ)
signal_all_except kill fuel r except = signal_loop kill fuel r.memory r.head except
