-- ===== src/Wrappers/Examples.antt =====
-- A process with one thread, and another that has exited.
use thread_scan.Base.{ℕ, ◌+◌, ◌*◌, ◌≤◌, ◌<◌, ◌≡◌, ◌≢◌, refl, List, [], ◌∷◌, some, arith, true, inl}
use thread_scan.Threads.Lists.{IsRegistry}
use thread_scan.Threads.Find.{first_on}
use thread_scan.Maps.{Scanned, is_complete}
use thread_scan.Maps.Stack.{IsMaps}
use thread_scan.Wrappers.{
  Process, Calls, fresh_data, pthread_create, pthread_exit, pthread_join, thread_base,
  main_replacement,
}
use thread_scan.Wrappers.Create.{AreReady, pthread_create_lists, pthread_create_fails}
use thread_scan.Wrappers.Life.{thread_life}
use thread_scan.Wrappers.Main.{main_replacement_lists}

abbrev running : Process
running = record {
  registry = record {
    memory = λ td. fresh_data (td + 1);
    head = 10;
    staged = 30;
    unmapped = 7 ∷ [];
  };
  thread_count = 256;
}

running-IsRegistry : IsRegistry running.registry (10 ∷ []) (30 ∷ [])
running-IsRegistry = record {
  in_list = (refl, omega arith, refl);
  in_staged = (refl, omega arith, refl);
  once = λ td. ground arith;
}

-- No stack is given.
abbrev calls : ℕ → Calls
calls result = record {
  td = 20;
  elements = 21;
  mapped_stack = 4096;
  init_result = 0;
  getstack_result = 0;
  attr_stack = 0;
  attr_stacksize = 0;
  setstack_result = 0;
  create_result = result;
}

calls-AreReady : (result : ℕ) → AreReady (calls result)
calls-AreReady result = record { init_ok = refl; getstack_ok = refl; setstack_ok = refl }

pthread_create_lists_example :
    (q : Process) × (pthread_create true (calls 0) running ≡ some (0, q))
    × (q.thread_count ≡ 257)
    × IsRegistry q.registry (20 ∷ 10 ∷ []) (30 ∷ [])
    × ((q.registry.memory 20).ref_count ≡ 1)
    × ((x : ℕ) → x ≢ 20 → q.registry.memory x ≡ running.registry.memory x)
    × ((addr : ℕ)
        → 4096 ≤ addr
        → addr < 4096 + 2 * 1024 * 1024
        → first_on q.registry.memory (20 ∷ 10 ∷ []) addr ≡ 20)
pthread_create_lists_example =
    pthread_create_lists true (calls 0) running (10 ∷ []) (30 ∷ []) (calls-AreReady 0) refl
      (omega arith) running-IsRegistry (omega arith) refl (omega arith)

pthread_create_fails_example :
    (q : Process) × (pthread_create true (calls 11) running ≡ some (11, q))
    × (q.thread_count ≡ 257)
    × IsRegistry q.registry (20 ∷ 10 ∷ []) (30 ∷ [])
    × (q.registry.unmapped ≡ 7 ∷ 4096 ∷ 21 ∷ 20 ∷ [])
pthread_create_fails_example =
    pthread_create_fails true (calls 11) running (10 ∷ []) (30 ∷ []) (calls-AreReady 11)
      (λ e. omega (arith, e)) (omega arith) running-IsRegistry (omega arith) refl

thread_life_example :
    (q : Process) × (e : Process) × (f : Process) × (pthread_create true (calls 0) running
      ≡ some (0, q))
    × (pthread_exit 2 20 (record q { registry = thread_base 20 99 5000 q.registry }) ≡ some e)
    × (pthread_join 2 99 0 e ≡ some (0, f))
    × IsRegistry f.registry (10 ∷ []) (30 ∷ [])
    × (f.thread_count ≡ 256)
    × (f.registry.unmapped ≡ 7 ∷ 4096 ∷ 21 ∷ 20 ∷ [])
thread_life_example =
    thread_life true (calls 0) running (10 ∷ []) (30 ∷ []) 2 99 5000 0 (calls-AreReady 0) refl
      (omega arith) running-IsRegistry (omega arith) refl (omega arith) (omega arith)

abbrev maps : List Scanned
maps =
    record {
      fields = 7;
      range_begin = 4096;
      range_end = 131072;
      next_char = 10;
      location_fields = 0;
    }
    ∷ []

maps-IsMaps : IsMaps 0 maps
unfolding is_complete
maps-IsMaps = (refl, omega arith, omega arith, tt)

main_replacement_lists_example :
    (q : Process) × (main_replacement 20 21 99 100000 (some maps) 100008 running ≡ some q)
    × IsRegistry q.registry (20 ∷ 10 ∷ []) (30 ∷ [])
    × (q.thread_count ≡ 256)
    × let d = q.registry.memory 20 in
      (d.self ≡ 99)
      × (d.user_stack_low ≡ 4096)
      × (d.user_stack_high ≡ 98304)
      × (d.ref_count ≡ 1)
      × (d.is_active ≡ 1)
main_replacement_lists_example =
    main_replacement_lists 20 21 99 100000 100008 maps (record { low = 4096; high = 131072 })
      running (10 ∷ []) (30 ∷ []) maps-IsMaps (inl (refl, refl, omega arith, omega arith))
      running-IsRegistry (omega arith) refl
