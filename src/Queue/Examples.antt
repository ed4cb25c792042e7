-- ===== src/Queue/Examples.antt =====
-- Tests of the queue, and its theorems at concrete queues.
use thread_scan.Base.{ℕ, ◌<◌, ◌≡◌, ◌↔◌, refl, List, [], ◌∷◌, ◌++◌, some, arith, length, memcpy}
use thread_scan.Queue.{Queue, init, is_full, push, drain_rest, drain, pop_head, pop_size, pop_bulk}
use thread_scan.Queue.View.{IsValid, contents}
use thread_scan.Queue.Push.{init-IsValid, is_full_iff, push-IsValid}
use thread_scan.Queue.Pop.{IsPopped, pop_bulk-IsPopped}

abbrev storage : List ℕ
storage = 0 ∷ 0 ∷ 0 ∷ 0 ∷ []

-- 24, then 32, round the end of the buffer.
abbrev wrapped : Queue
wrapped = record { e = 32 ∷ 8 ∷ 16 ∷ 24 ∷ []; capacity = 4; idx_head = 5; idx_tail = 7 }

wrapped-IsValid : IsValid wrapped
wrapped-IsValid = record {
  exponent = 2;
  power = refl;
  storage = omega arith;
  from_start = omega arith;
  ordered = omega arith;
  head_below = omega arith;
  in_word = omega arith;
}

push-wrapped : push wrapped 40 ≡ some (record wrapped { e = 32 ∷ 40 ∷ 16 ∷ 24 ∷ []; idx_head = 6 })
unfolding push
push-wrapped = refl

is_full-wrapped : (is_full wrapped ≡ 0) × (is_full (record wrapped { idx_head = 6 }) ≡ 1)
unfolding is_full
is_full-wrapped = (refl, refl)

pop_bulk-wrapped :
    pop_bulk storage 1 9 wrapped ≡ some (2, 0 ∷ 24 ∷ 32 ∷ 0 ∷ [], record wrapped { idx_tail = 9 })
unfolding pop_bulk pop_head pop_size drain drain_rest memcpy
pop_bulk-wrapped = refl

wrapped_not_full : is_full wrapped ≡ 0
wrapped_not_full = is_full-wrapped.0

init-IsValid_example : (v : IsValid (init storage 4)) × (contents (init storage 4) ≡ [])
init-IsValid_example = init-IsValid storage 2 (omega arith) (omega arith)

is_full_iff_example :
    ((is_full wrapped ≡ 1) ↔ (length (contents wrapped) ≡ 3))
    × ((is_full wrapped ≡ 0) ↔ (length (contents wrapped) < 3))
is_full_iff_example = is_full_iff wrapped-IsValid

push-IsValid_example :
    (q' : Queue) × (push wrapped 40 ≡ some q')
    × IsValid q'
    × (contents q' ≡ contents wrapped ++ 40 ∷ [])
    × (q'.capacity ≡ 4)
push-IsValid_example = push-IsValid wrapped 40 wrapped-IsValid wrapped_not_full

pop_bulk-IsPopped_example : IsPopped wrapped 2 storage 1 (pop_bulk storage 1 9 wrapped)
pop_bulk-IsPopped_example =
    pop_bulk-IsPopped wrapped 9 storage 1 wrapped-IsValid (omega arith) (omega arith)
