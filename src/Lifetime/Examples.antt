-- ===== src/Lifetime/Examples.antt =====
-- The threads 40 and 50 wait to be joined, and 50 is.
use thread_scan.Base.{
  ℕ, List, zero, suc, ap, length, ◌+◌, ◌*◌, ◌≡◌, refl, [], ◌∷◌, some, arith, ◌==◌, if◌then◌else◌,
}
use thread_scan.Threads.{ThreadData, Registry}
use thread_scan.Threads.Lists.{IsRegistry}
use thread_scan.Lifetime.{data_cleanup, data_new}
use thread_scan.Lifetime.New.{data_new-IsValid}
use thread_scan.Env.{env_init}
use thread_scan.Queue.View.{IsValid, contents}
use thread_scan.Lifetime.Cleanup.{data_cleanup-unmaps}

abbrev exited : ℕ → ℕ → ThreadData
exited td next = record {
  next = next;
  self = td + 1;
  user_stack_low = td * 100;
  user_stack_high = td * 100 + 50;
  stack_is_ours = 1;
  is_active = 0;
  elements = td + 2;
  ref_count = 0;
}

abbrev two_exited : Registry
two_exited = record {
  memory = λ td. exited td (if td == 40 then 50 else 0);
  head = 10;
  staged = 40;
  unmapped = 7 ∷ [];
}

two_exited-IsRegistry : IsRegistry two_exited (10 ∷ []) (40 ∷ 50 ∷ [])
two_exited-IsRegistry = record {
  in_list = (refl, omega arith, refl);
  in_staged = (refl, omega arith, (refl, omega arith, refl));
  once = λ td. ground arith;
}

data_cleanup-unmaps_example :
    (s : Registry) × (data_cleanup 2 two_exited 51 ≡ some s)
    × IsRegistry s (10 ∷ []) (40 ∷ [])
    × (s.unmapped ≡ 7 ∷ 5000 ∷ 52 ∷ 50 ∷ [])
data_cleanup-unmaps_example =
    data_cleanup-unmaps 2 two_exited 51 (10 ∷ []) (40 ∷ 50 ∷ []) (omega arith) two_exited-IsRegistry
      (omega arith) refl

abbrev zeros : ℕ → List ℕ
zeros zero = []
zeros (suc n) = 0 ∷ zeros n

length-zeros : (n : ℕ) → length (zeros n) ≡ n
length-zeros zero = refl
length-zeros (suc n) = ap suc (length-zeros n)

data_new-IsValid_example :
    let td = data_new (env_init (some 1)) (zeros (env_init (some 1))) in
    IsValid td.ptr_list × (contents td.ptr_list ≡ [])
data_new-IsValid_example =
    data_new-IsValid (some 1) (zeros (env_init (some 1))) (length-zeros (env_init (some 1)))
