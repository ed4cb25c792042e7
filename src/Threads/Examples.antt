-- ===== src/Threads/Examples.antt =====
-- Three threads, at the addresses 10, 20 and 30, of which 30 has left the thread list.
use thread_scan.Base.{
  ℕ, ◌+◌, ◌*◌, ◌%◌, ◌^◌, ◌≡◌, ◌≢◌, refl, [], ◌∷◌, some, arith, ltb, ◌==◌, ◌&&◌, if◌then◌else◌,
}
use thread_scan.Threads.{
  ThreadData, Registry, list_add, list_remove, list_find, thread_cleanup, einval, signal_all_except,
}
use thread_scan.Threads.Signal.{signal_all_except_sends}
use thread_scan.Threads.Lists.{IsRegistry, list_add-IsRegistry, list_remove-IsRegistry}
use thread_scan.Threads.Exit.{thread_cleanup-IsRegistry}
use thread_scan.Threads.Find.{list_find_finds}

abbrev metadata : ℕ → ℕ → ThreadData
metadata td next = record {
  next = next;
  self = td;
  user_stack_low = td * 100;
  user_stack_high = td * 100 + 50;
  stack_is_ours = 1;
  is_active = 1;
  elements = td + 1;
  ref_count = 1;
}

abbrev three : Registry
three = record {
  memory = λ td. metadata td (if td == 10 then 20 else 0);
  head = 10;
  staged = 30;
  unmapped = [];
}

three-IsRegistry : IsRegistry three (10 ∷ 20 ∷ []) (30 ∷ [])
three-IsRegistry = record {
  in_list = (refl, omega arith, (refl, omega arith, refl));
  in_staged = (refl, omega arith, refl);
  once = λ td. ground arith;
}

list_add-IsRegistry_example : IsRegistry (list_add three 40) (40 ∷ 10 ∷ 20 ∷ []) (30 ∷ [])
list_add-IsRegistry_example =
    list_add-IsRegistry three 40 (10 ∷ 20 ∷ []) (30 ∷ []) three-IsRegistry (omega arith) refl

list_remove-IsRegistry_example :
    (s : Registry) × (list_remove 2 three 20 ≡ some s)
    × IsRegistry s (10 ∷ []) (30 ∷ [])
    × ((x : ℕ) → (s.memory x).ref_count ≡ (three.memory x).ref_count)
list_remove-IsRegistry_example =
    list_remove-IsRegistry 2 three 20 (10 ∷ 20 ∷ []) (30 ∷ []) (omega arith) three-IsRegistry
      (omega arith)

thread_cleanup-IsRegistry_example :
    (s : Registry) × (thread_cleanup 2 three 20 ≡ some s) × IsRegistry s (10 ∷ []) (20 ∷ 30 ∷ [])
thread_cleanup-IsRegistry_example =
    thread_cleanup-IsRegistry 2 three 20 (10 ∷ 20 ∷ []) (30 ∷ []) (omega arith) three-IsRegistry
      (omega arith) (omega arith) (omega arith)

list_find_finds_example :
    (s : Registry) × (list_find 3 three 2049 ≡ some (20, s))
    × IsRegistry s (10 ∷ 20 ∷ []) (30 ∷ [])
    × ((x : ℕ)
        → (s.memory x).ref_count ≡ (
            if ltb 0 x && x == 20
            then ((three.memory x).ref_count + 1) % 2 ^ 32
            else (three.memory x).ref_count))
list_find_finds_example =
    list_find_finds 3 three 2049 (10 ∷ 20 ∷ []) (30 ∷ []) (omega arith) three-IsRegistry

-- The thread 20 exits while it is signalled.
abbrev one_gone : ℕ → ℕ
one_gone self = if self == 20 then 3 else 0

accepted : (self : ℕ) → one_gone self ≢ einval
accepted self e = ground (arith, e)

signal_all_except_sends_example :
    signal_all_except one_gone 4 (list_add three 40) 10 ≡ some (1, 40 ∷ 20 ∷ [])
unfolding list_add
signal_all_except_sends_example =
    signal_all_except_sends one_gone 4 (list_add three 40) 10 (40 ∷ 10 ∷ 20 ∷ []) (30 ∷ []) accepted
      (omega arith) list_add-IsRegistry_example
