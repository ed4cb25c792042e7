-- ===== src/Lifetime/New.antt =====
-- The metadata of a new thread, at the setting of the environment.
use thread_scan.Base.{ℕ, ◌^◌, ◌≤◌, ◌≡◌, sym, subst, List, [], Option, arith, length}
use thread_scan.Queue.{init}
use thread_scan.Queue.View.{IsValid, contents}
use thread_scan.Queue.Push.{init-IsValid}
use thread_scan.Env.{env_init}
use thread_scan.Env.Bounds.{env_init-IsSetting}
use thread_scan.Lifetime.{data_new}
use native.Mathlib.Nat.{pow-le-pow_right}

init_setting :
    (buf : List ℕ) (r e : ℕ)
    → e ≤ 15
    → r ≡ 2 ^ e
    → r ≤ length buf
    → IsValid (init buf r) × (contents (init buf r) ≡ [])
init_setting buf r e hi same room =
    let small : 2 ^ e ≤ 2 ^ 15 = pow-le-pow_right {n = 2} (omega arith) hi in
    subst (λ (c : ℕ). IsValid (init buf c) × (contents (init buf c) ≡ [])) (sym same)
      (init-IsValid buf e (omega arith) (omega arith))

-- Whatever the environment variable holds, `threadscan_util_thread_data_new` gives a new thread a
-- valid queue with no pointers in it, over memory of the number of words that it asks for.
pub data_new-IsValid :
    (val : Option ℕ) (local_list : List ℕ)
    → length local_list ≡ env_init val
    → let td = data_new (env_init val) local_list in
      IsValid td.ptr_list × (contents td.ptr_list ≡ [])
unfolding data_new
data_new-IsValid val local_list size =
    let (e, lo, hi, same) = env_init-IsSetting val in
    init_setting local_list (env_init val) e hi same (omega arith)
