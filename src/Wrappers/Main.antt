-- ===== src/Wrappers/Main.antt =====
-- The metadata of the main thread.
use thread_scan.Base.{ℕ, ◌+◌, ◌<◌, ◌≡◌, refl, List, ◌∷◌, Option, some, arith, count, sub64, bit_and}
use thread_scan.Threads.{Registry, write, list_add}
use thread_scan.Threads.Lists.{IsRegistry, list_add-IsRegistry}
use thread_scan.Maps.{MemRange, Scanned, stack_from_addr}
use thread_scan.Maps.Stack.{IsMaps, IsInside, stack_from_addr_finds}
use thread_scan.Wrappers.{Process, fresh_data, main_replacement, thread_base}
use thread_scan.Wrappers.Create.{fresh-IsRegistry}
use thread_scan.Wrappers.Life.{base-IsRegistry}

-- The registry once the main thread is listed.
abbrev main_listed : ℕ → ℕ → ℕ → Registry → Registry
main_listed td elements low r =
    list_add
      (record r {
        memory = write r.memory td (record (fresh_data elements) { user_stack_low = low });
      })
      td

main_replacement-eq :
    (td elements tid sp : ℕ) (file : Option (List Scanned)) (stack_data : ℕ) (p : Process)
    (range : MemRange)
    → stack_from_addr file stack_data ≡ some range
    → main_replacement td elements tid sp file stack_data p
      ≡ some (record p {
        registry = thread_base td tid sp (main_listed td elements range.low p.registry);
      })
unfolding main_replacement
main_replacement-eq td elements tid sp file stack_data p range found = rw found refl

main_data :
    (td elements tid sp low : ℕ) (r : Registry)
    → let d = (thread_base td tid sp (main_listed td elements low r)).memory td in
      (d.self ≡ tid)
      × (d.user_stack_low ≡ low)
      × (d.user_stack_high ≡ sub64 sp (bit_and sp 0xFFF))
      × (d.ref_count ≡ 1)
      × (d.is_active ≡ 1)
unfolding thread_base list_add
main_data td elements tid sp low r =
    (ground arith, ground arith, ground arith, ground arith, ground arith)

-- `main_replacement`, where /proc/self/maps lists ranges in order and `stack_data` lies inside of one: the main
-- thread's metadata is the first of the thread list and is active, with the low end of that range as the low end
-- of its stack, the page of its stack pointer as the high one, and one reference; no thread more is counted.
pub main_replacement_lists :
    (td elements tid sp stack_data : ℕ) (lines : List Scanned) (range : MemRange) (p : Process)
    (listed staged : List ℕ)
    → IsMaps 0 lines
    → IsInside lines stack_data range
    → IsRegistry p.registry listed staged
    → 0 < td
    → count td listed + count td staged ≡ 0
    → (q : Process) × (main_replacement td elements tid sp (some lines) stack_data p ≡ some q)
      × IsRegistry q.registry (td ∷ listed) staged
      × (q.thread_count ≡ p.thread_count)
      × let d = q.registry.memory td in
        (d.self ≡ tid)
        × (d.user_stack_low ≡ range.low)
        × (d.user_stack_high ≡ sub64 sp (bit_and sp 0xFFF))
        × (d.ref_count ≡ 1)
        × (d.is_active ≡ 1)
main_replacement_lists td elements tid sp stack_data lines range p listed staged maps inside v pos
      new =
    (
      record p { registry = thread_base td tid sp (main_listed td elements range.low p.registry) },
      main_replacement-eq td elements tid sp (some lines) stack_data p range
          (stack_from_addr_finds stack_data range lines maps inside),
      base-IsRegistry td tid sp (main_listed td elements range.low p.registry) (td ∷ listed) staged
          (list_add-IsRegistry
            (record p.registry {
              memory =
                  write p.registry.memory td
                    (record (fresh_data elements) { user_stack_low = range.low });
            })
            td listed staged
            (fresh-IsRegistry p.registry td
              (record (fresh_data elements) { user_stack_low = range.low }) listed staged v new)
            pos new),
      refl,
      main_data td elements tid sp range.low p.registry,
    )
