-- ===== src/Wrappers.antt =====
-- wrappers.c: `pthread_create`, `pthread_exit`, `pthread_join` and `main_replacement`, and
-- `threadscan_thread_base` of thread.c. What the pthread functions and `mmap` give is an argument; `none` is the fatal
-- exit. Mapped memory is zero before it is written.
pub mod Create
pub mod Life
pub mod Main
mod Examples
use thread_scan.Base.{
  ℕ, ◌+◌, ◌-◌, ◌*◌, ◌%◌, ◌^◌, List, [], ◌∷◌, ◌++◌, Option, none, some, ◌>>=◌, ltb, ◌==◌,
  if◌then◌else◌, Bool, true, false, ◌&&◌, bit_and, add64, sub64,
}
use thread_scan.Env.{max_thread_count}
use thread_scan.Threads.{ThreadData, Memory, Registry, write, list_add, thread_cleanup}
use thread_scan.Lifetime.{data_free, data_cleanup}
use thread_scan.Maps.{MemRange, Scanned, stack_from_addr}

-- `g_thread_count`, with the metadata of the threads.
pub record Process : Type 0 where
  pub registry : Registry
  pub thread_count : ℕ

-- What the calls of `pthread_create` return: the addresses of the metadata, of the array of its queue, and of
-- a stack; and the results of the pthread functions.
pub record Calls : Type 0 where
  pub td : ℕ
  pub elements : ℕ
  pub mapped_stack : ℕ
  pub init_result : ℕ
  pub getstack_result : ℕ
  pub attr_stack : ℕ
  pub attr_stacksize : ℕ
  pub setstack_result : ℕ
  pub create_result : ℕ

-- The metadata that `threadscan_util_thread_data_new` gives.
abbrev pub fresh_data : ℕ → ThreadData
fresh_data elements = record {
  next = 0;
  self = 0;
  user_stack_low = 0;
  user_stack_high = 0;
  stack_is_ours = 0;
  is_active = 0;
  elements = elements;
  ref_count = 1;
}

-- `2 * 1024 * 1024`
abbrev pub own_stacksize : ℕ
own_stacksize = 2 * 1024 * 1024

-- The stack that the thread gets: the one of the attributes, or one of our own.
pub choose_stack : Calls → Option ThreadData
choose_stack c =
    if c.attr_stack == 0
    then (if c.setstack_result == 0
        then some (record (fresh_data c.elements) {
          user_stack_low = c.mapped_stack;
          user_stack_high = add64 c.mapped_stack own_stacksize;
          stack_is_ours = 1;
        })
        else none)
    else some (record (fresh_data c.elements) {
      user_stack_low = c.attr_stack;
      user_stack_high = add64 c.attr_stack c.attr_stacksize;
    })

-- After the call of the original `pthread_create`.
pub create_end : ℕ → ThreadData → ℕ → Registry → Registry
create_end td d ret r =
    if ret == 0
    then r
    else data_free
        (record r {
          unmapped =
              if d.stack_is_ours == 0 then r.unmapped else r.unmapped ++ (d.user_stack_low ∷ []);
        })
        td

-- `pthread_create`; `attr_is_null` is `NULL == attr`.
pub pthread_create : Bool → Calls → Process → Option (ℕ × Process)
pthread_create attr_is_null c p =
    if ltb max_thread_count p.thread_count
    then none
    else if attr_is_null && (if c.init_result == 0 then false else true)
    then none
    else if (if c.getstack_result == 0 then false else true)
    then none
    else do
      d ← choose_stack c
      let r = list_add (record p.registry { memory = write p.registry.memory c.td d }) c.td
      some (
        c.create_result,
        record {
          registry = create_end c.td d c.create_result r;
          thread_count = p.thread_count + 1;
        },
      )

-- `threadscan_thread_base` up to the call of the user's routine, in the thread `tid` with the stack pointer `sp`.
pub thread_base : ℕ → ℕ → ℕ → Registry → Registry
thread_base td tid sp r = record r {
  memory = write r.memory td (record (r.memory td) {
    user_stack_high = sub64 sp (bit_and sp 0xFFF);
    self = tid;
    is_active = 1;
  });
}

-- `pthread_exit` in the thread `td`.
pub pthread_exit : ℕ → ℕ → Process → Option Process
pthread_exit fuel td p = do
  r ← thread_cleanup fuel p.registry td
  some (record { registry = r; thread_count = p.thread_count - 1 })

-- `pthread_join` of `tid`, where the original gives `ret`.
pub pthread_join : ℕ → ℕ → ℕ → Process → Option (ℕ × Process)
pthread_join fuel tid ret p = do
  r ← data_cleanup fuel p.registry tid
  some (ret, record p { registry = r })

-- `main_replacement` up to the program's `main`; `stack_data` is the address of a variable on the stack.
pub main_replacement : ℕ → ℕ → ℕ → ℕ → Option (List Scanned) → ℕ → Process → Option Process
main_replacement td elements tid sp file stack_data p = do
  range ← stack_from_addr file stack_data
  let d : ThreadData = record (fresh_data elements) { user_stack_low = range.low }
  let r = list_add (record p.registry { memory = write p.registry.memory td d }) td
  some (record p { registry = thread_base td tid sp r })
