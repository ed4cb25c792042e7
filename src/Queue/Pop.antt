-- ===== src/Queue/Pop.antt =====
-- `threadscan_queue_pop_bulk`: the oldest elements, in order, across the end of the buffer.
use thread_scan.Base.{
  ℕ, ◌+◌, ◌-◌, ◌%◌, ◌^◌, ◌≤◌, ◌<◌, ◌≡◌, refl, ap, ◌∙◌, sym, List, arith, length, cell, some, add64,
  sub64, ◌==◌, min, take, drop, IsCopied, memcpy-IsCopied, Option, dec_lt, lt→ltb, le→ltb, subst,
  false, segment, ◌⊎◌, inl, inr, ap₂,
}
use thread_scan.Base.Bits.{mod_advance, mod_wrap}
use thread_scan.Queue.{Queue, indexify, size, drain_rest, drain, pop_head, pop_size, pop_bulk}
use thread_scan.Queue.View.{
  IsValid, capacity_pos, indexify-eq-mod, contents, first, window, segment-eq-window, take-window,
  drop-window, size-eq-length, length-contents,
}
use native.Mathlib.Nat.{mod-lt, mod-eq-sub-mod}

-- `out` is `dst` with `n` elements from the absolute index `t` on written from `at` on.
pub record IsDrained (q : Queue) (t n at : ℕ) (dst out : List ℕ) : Type 0 where
  pub same_length : length out ≡ length dst
  pub inside : (j : ℕ) → j < n → cell out (at + j) ≡ cell q.e ((t + j) % q.capacity)
  pub before : (j : ℕ) → j < at → cell out j ≡ cell dst j
  pub after : (j : ℕ) → at + n ≤ j → cell out j ≡ cell dst j

-- The last copy, from index `start` up to `start + n`.
drain_rest-IsCopied :
    (q : Queue) (head start n : ℕ) (dst : List ℕ) (at : ℕ)
    → head ≡ start + n
    → head < 2 ^ 64
    → at + n ≤ length dst
    → head ≤ length q.e
    → (out : List ℕ) × (drain_rest q head start dst at ≡ some out) × IsCopied dst at q.e start n out
unfolding drain_rest
drain_rest-IsCopied q head start n dst at e w room inside =
    let (out, returns, copied) = memcpy-IsCopied dst at q.e start n room (omega arith) in
    let same : sub64 head start ≡ n = omega arith in
    elim (dec_lt 0 n) [
      | yes pos ↦ (out, rw (same, lt→ltb 0 n pos) returns, copied)
      | no none_left ↦ (
        dst,
        rw (same, le→ltb 0 n (omega arith)),
        record {
          same_length = refl;
          inside = λ j h. absurd (omega arith);
          before = λ j h. refl;
          after = λ j h. refl;
        },
      )
    ]

module _ (q : Queue) (t n : ℕ) (v : IsValid q) (short : n < q.capacity) where
  abbrev start : ℕ
  start = t % q.capacity

  abbrev head : ℕ
  head = (t + n) % q.capacity

  -- The elements do not go round the end of the buffer: one copy.
  drain_straight :
      (dst : List ℕ) (at : ℕ)
      → q.capacity < 2 ^ 64
      → at + n ≤ length dst
      → start + n < q.capacity
      → (out : List ℕ) × (drain q head start dst at ≡ some out) × IsDrained q t n at dst out
  unfolding drain
  drain_straight dst at w room fit =
      let h : head ≡ start + n = mod_advance t n q.capacity fit in
      let (out, returns, c) =
        drain_rest-IsCopied q head start n dst at h (omega arith) room (omega (arith, v.storage)) in
      (
        out,
        rw (le→ltb head start (omega arith), drain) returns,
        record {
          same_length = c.same_length;
          inside =
              λ j p. c.inside j p ∙ ap (cell q.e) (sym (mod_advance t j q.capacity (omega arith)));
          before = c.before;
          after = c.after;
        },
      )

  -- They do: a copy up to the end, and one from index 0 on.
  drain_round :
      (dst : List ℕ) (at : ℕ)
      → q.capacity < 2 ^ 64
      → at + n ≤ length dst
      → q.capacity ≤ start + n
      → (out : List ℕ) × (drain q head start dst at ≡ some out) × IsDrained q t n at dst out
  unfolding drain
  drain_round dst at w room over =
      let in_buf : start < q.capacity = mod-lt t (capacity_pos v) in
      let h : head ≡ start + n - q.capacity = mod_wrap t n q.capacity short over in
      let k : ℕ = q.capacity - start in
      let (mid, returns, c) =
        memcpy-IsCopied dst at q.e start k (omega arith) (omega (arith, v.storage)) in
      let (out, returns', d) =
        drain_rest-IsCopied q head 0 (n - k) mid (at + k) (omega arith) (omega arith)
          (omega (arith, c.same_length)) (omega (arith, v.storage)) in
      let same : sub64 q.capacity start ≡ k = omega arith in
      (
        out,
        rw (lt→ltb head start (omega arith), drain) (rw same (rw returns returns')),
        record {
          same_length = d.same_length ∙ c.same_length;
          inside = λ j p. elim (dec_lt j k) [
            | yes early ↦
                d.before (at + j) (omega arith)
                ∙ c.inside j early
                ∙ ap (cell q.e) (sym (mod_advance t j q.capacity (omega arith)))
            | no late ↦
                ap (cell out) (omega arith)
                ∙ d.inside (j - k) (omega arith)
                ∙ ap (cell q.e) (omega (arith, mod_wrap t j q.capacity (omega arith) (omega arith)))
          ];
          before = λ j p. d.before j (omega arith) ∙ c.before j p;
          after = λ j p. d.after j (omega arith) ∙ c.after j (omega arith);
        },
      )

  pub drain-IsDrained :
      (dst : List ℕ) (at : ℕ)
      → q.capacity < 2 ^ 64
      → at + n ≤ length dst
      → (out : List ℕ) × (drain q head start dst at ≡ some out) × IsDrained q t n at dst out
  drain-IsDrained dst at w room = elim (dec_lt (start + n) q.capacity) [
    | yes fit ↦ drain_straight dst at w room fit
    | no over ↦ drain_round dst at w room (omega arith)
  ]

-- The queue after `n` of its elements were taken.
abbrev advanced : Queue → ℕ → Queue
advanced q n = record q { idx_tail = q.idx_tail + n }

advanced-IsValid :
    {q : Queue} (n : ℕ)
    → IsValid q
    → n ≤ q.idx_head - first q
    → q.idx_head + q.capacity < 2 ^ 64
    → IsValid (advanced q n)
advanced-IsValid n v h w = record {
  exponent = v.exponent;
  power = v.power;
  storage = v.storage;
  from_start = omega (arith, v.from_start);
  ordered = omega (arith, v.ordered, v.from_start);
  head_below = omega (arith, v.head_below);
  in_word = omega (arith, v.ordered, v.from_start);
}

module _ (q : Queue) (v : IsValid q) (len : ℕ) where
  -- How many elements the call takes.
  abbrev pub share : ℕ
  share = min len (length (contents q))

  pop_size-eq-share : pop_size q len ≡ share
  unfolding pop_size
  pop_size-eq-share = ground (arith, size-eq-length v, length-contents q)

  pop_head-eq-add : pop_head q len ≡ first q + share
  unfolding pop_head
  pop_head-eq-add =
      ground (arith, size-eq-length v, length-contents q, v.ordered, v.from_start, v.in_word)

  first_index : indexify q.idx_tail q.capacity ≡ first q % q.capacity
  first_index = indexify-eq-mod q.idx_tail v ∙ mod-eq-sub-mod v.from_start

  -- Once the copy is known, the call is.
  pop_bulk_returns :
      (values out : List ℕ) (at : ℕ)
      → q.idx_head + q.capacity < 2 ^ 64
      → 0 < length (contents q)
      → drain q ((first q + share) % q.capacity) (first q % q.capacity) values at ≡ some out
      → pop_bulk values at len q ≡ some (share, out, advanced q share)
  unfolding pop_bulk
  pop_bulk_returns values out at w waiting returns =
      let busy : size q == 0 ≡ false = ground (arith, size-eq-length v, length-contents q) in
      let tail : add64 (first q + share) q.capacity ≡ q.idx_tail + share =
        omega (arith, length-contents q, v.ordered, v.from_start) in
      rw
        (busy, pop_size-eq-share, pop_head-eq-add, indexify-eq-mod (first q + share) v, first_index)
        (rw returns (rw tail refl))

  pop_bulk_empty :
      (values : List ℕ) (at : ℕ)
      → length (contents q) ≡ 0
      → pop_bulk values at len q ≡ some (0, values, q)
  unfolding pop_bulk
  pop_bulk_empty values at none_wait = ground (arith, size-eq-length v, length-contents q)

-- The result of a call that takes `n` elements, the window's first ones.
pub record IsPopped (q : Queue) (n : ℕ) (values : List ℕ) (at : ℕ)
    (result : Option (ℕ × List ℕ × Queue)) : Type 0 where
  pub out : List ℕ
  pub q' : Queue
  pub returns : result ≡ some (n, out, q')
  pub popped : segment out at n ≡ take n (contents q)
  pub untouched : (j : ℕ) → (j < at) ⊎ (at + n ≤ j) → cell out j ≡ cell values j
  pub same_length : length out ≡ length values
  pub remaining : contents q' ≡ drop n (contents q)
  pub valid : IsValid q'
  pub same_capacity : q'.capacity ≡ q.capacity

contents-advanced :
    {q : Queue} (n : ℕ)
    → IsValid q
    → n ≤ q.idx_head - first q
    → contents (advanced q n) ≡ drop n (contents q)
contents-advanced {q} n v h =
    ap₂ (window q.e q.capacity) {y = first q + n} {v = q.idx_head - first q - n}
      (omega (arith, v.from_start)) (omega (arith, v.from_start))
    ∙ sym (drop-window q.e q.capacity (first q) (q.idx_head - first q) n h)

pop_bulk_takes :
    (q : Queue) (len : ℕ) (values : List ℕ) (at : ℕ) (v : IsValid q)
    → q.idx_head + q.capacity < 2 ^ 64
    → at + share q v len ≤ length values
    → 0 < length (contents q)
    → IsPopped q (share q v len) values at (pop_bulk values at len q)
pop_bulk_takes q len values at v w room waiting =
    let n = share q v len in
    let fits : n ≤ q.idx_head - first q = omega (arith, length-contents q) in
    let (out, returns, d) =
      drain-IsDrained q (first q) n v (omega (arith, v.head_below, v.from_start)) values at
        (omega arith) room in
    record {
      out = out;
      q' = advanced q n;
      returns = pop_bulk_returns q v len values out at w waiting returns;
      popped =
          segment-eq-window out q.e at q.capacity (first q) n d.inside
          ∙ sym (take-window q.e q.capacity (first q) (q.idx_head - first q) n fits);
      untouched = λ j out_of. elim out_of [ inl p ↦ d.before j p | inr p ↦ d.after j p ];
      same_length = d.same_length;
      remaining = contents-advanced n v fits;
      valid = advanced-IsValid n v fits w;
      same_capacity = refl;
    }

pop_bulk_takes_none :
    (q : Queue) (len : ℕ) (values : List ℕ) (at : ℕ) (v : IsValid q)
    → length (contents q) ≡ 0
    → IsPopped q 0 values at (pop_bulk values at len q)
pop_bulk_takes_none q len values at v none_wait = record {
  out = values;
  q' = q;
  returns = pop_bulk_empty q v len values at none_wait;
  popped = refl;
  untouched = λ j p. refl;
  same_length = refl;
  remaining = refl;
  valid = v;
  same_capacity = refl;
}

-- On a valid queue whose indices stay in 64 bits, with room for what is taken in the output buffer
-- `values[at..]`, `threadscan_queue_pop_bulk` accesses nothing out of range and returns
-- `min len n` for the `n` elements that wait; it writes the oldest that many, in order, to the output
-- buffer and changes no other word of the array; the others, in order, still wait, and the queue
-- stays valid with its capacity.
pub pop_bulk-IsPopped :
    (q : Queue) (len : ℕ) (values : List ℕ) (at : ℕ) (v : IsValid q)
    → q.idx_head + q.capacity < 2 ^ 64
    → at + min len (length (contents q)) ≤ length values
    → IsPopped q (min len (length (contents q))) values at (pop_bulk values at len q)
pop_bulk-IsPopped q len values at v w room = elim (dec_lt 0 (length (contents q))) [
  | yes waiting ↦ pop_bulk_takes q len values at v w room waiting
  | no empty ↦
      let none_wait : length (contents q) ≡ 0 = omega arith in
      let e : 0 ≡ min len (length (contents q)) = omega arith in
      subst (λ n. IsPopped q n values at (pop_bulk values at len q)) e
        (pop_bulk_takes_none q len values at v none_wait)
]
