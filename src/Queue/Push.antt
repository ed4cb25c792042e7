-- ===== src/Queue/Push.antt =====
-- `threadscan_queue_init`, `threadscan_queue_is_full`, `threadscan_queue_push`: a bounded FIFO's.
use thread_scan.Base.{
  ℕ, suc, ◌+◌, ◌-◌, ◌%◌, ◌^◌, ◌≤◌, ◌<◌, ◌≡◌, ◌↔◌, refl, ap, ◌∙◌, List, [], ◌∷◌, ◌++◌, arith, length,
  length-set, set, some, add64,
}
use thread_scan.Queue.{Queue, indexify, init, is_full, push}
use thread_scan.Queue.View.{
  IsValid, capacity_pos, indexify-eq-mod, contents, first, window, window-set, length-contents,
}
use native.Mathlib.Nat.{mod-lt, one-le-pow}

-- Over a buffer of `2 ^ k` words, `threadscan_queue_init` gives a valid queue with no elements.
pub init-IsValid :
    (buf : List ℕ) (k : ℕ)
    → 2 ^ k ≤ length buf
    → 2 ^ k < 2 ^ 64
    → (q : IsValid (init buf (2 ^ k))) × (contents (init buf (2 ^ k)) ≡ [])
unfolding init
init-IsValid buf k h w = (
  record {
    exponent = k;
    power = refl;
    storage = h;
    from_start = omega arith;
    ordered = omega arith;
    head_below = omega (arith, one-le-pow k 2 (omega arith));
    in_word = w;
  },
  ap (window buf (2 ^ k) (2 ^ k - 2 ^ k)) {y = 0} (omega arith),
)

-- On a valid queue `threadscan_queue_is_full` is 1 exactly when `capacity - 1` elements wait, and
-- otherwise 0.
pub is_full_iff :
    {q : Queue}
    → IsValid q
    → ((is_full q ≡ 1) ↔ (length (contents q) ≡ q.capacity - 1))
      × ((is_full q ≡ 0) ↔ (length (contents q) < q.capacity - 1))
unfolding is_full
is_full_iff {q} v = ground (arith, length-contents q, capacity_pos v)

head_index : {q : Queue} → IsValid q → indexify q.idx_head q.capacity < length q.e
head_index {q} v =
    omega (arith, indexify-eq-mod q.idx_head v, v.storage, mod-lt q.idx_head (capacity_pos v))

-- On a valid queue that is not full, `threadscan_queue_push` writes inside the buffer, appends the
-- value to the elements that wait, and leaves a valid queue of the same capacity, for which its
-- closing assertion holds.
pub push-IsValid :
    (q : Queue) (value : ℕ)
    → IsValid q
    → is_full q ≡ 0
    → (q' : Queue) × (push q value ≡ some q')
      × IsValid q'
      × (contents q' ≡ contents q ++ value ∷ [])
      × (q'.capacity ≡ q.capacity)
unfolding push is_full
push-IsValid q value v room =
    let next : q.idx_head + 1 < q.idx_tail = ground arith in
    let i : ℕ = indexify q.idx_head q.capacity in
    let no_wrap : add64 q.idx_head 1 ≡ q.idx_head + 1 = omega (arith, v.in_word) in
    let pos : 0 < q.capacity = capacity_pos v in
    (
      record q { e = set q.e i value; idx_head = q.idx_head + 1 },
      ground (arith, head_index v, no_wrap),
      record {
        exponent = v.exponent;
        power = v.power;
        storage = omega (arith, v.storage, length-set q.e i value);
        from_start = v.from_start;
        ordered = omega (arith, v.ordered);
        head_below = next;
        in_word = v.in_word;
      },
      ap (window (set q.e i value) q.capacity (first q)) {y = suc (q.idx_head - first q)}
            (omega (arith, v.ordered, v.from_start))
          ∙ window-set q.e q.capacity (first q) (q.idx_head - first q) value i v.storage
              (omega (arith, v.ordered, v.from_start, v.head_below))
              (indexify-eq-mod q.idx_head v
                ∙ ap (λ (k : ℕ). k % q.capacity) (omega (arith, v.ordered, v.from_start))),
      refl,
    )
