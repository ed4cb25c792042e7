-- ===== src/Reclaim/Gather.antt =====
-- `generate_working_pointers_list` takes over every address that is left or waits in a queue.
use thread_scan.Base.{
  ℕ, zero, suc, ◌+◌, ◌-◌, ◌*◌, ◌^◌, ◌≤◌, ◌<◌, ◌≡◌, inl, refl, ap, ap₂, ◌∙◌, sym, List, [], ◌∷◌,
  ◌++◌, some, arith, length, cell, le→ltb, segment, segment-agree, segment-add, length-segment,
  memcpy, memcpy-IsCopied, take, drop, subst,
}
use thread_scan.Queue.{Queue, pop_bulk}
use thread_scan.Queue.View.{IsValid, contents}
use thread_scan.Queue.Pop.{IsPopped, pop_bulk-IsPopped}
use thread_scan.Reclaim.{
  AddrStorage, add_to_buf_addrs, add_leftovers, pop_threads, generate_working_pointers_list,
}

-- The addresses in the blocks of the storage, and those in the queues.
abbrev pub leftovers : List AddrStorage → List ℕ
leftovers [] = []
leftovers (b ∷ storage) = segment b.addrs 0 b.length ++ leftovers storage

abbrev pub waiting : List Queue → List ℕ
waiting [] = []
waiting (q ∷ queues) = contents q ++ waiting queues

abbrev pub AreBlocks : List AddrStorage → Type 0
AreBlocks [] = Unit {0}
AreBlocks (b ∷ storage) = (b.length ≤ length b.addrs) × AreBlocks storage

-- The queues are valid, and their indices far from the end of 64 bits.
abbrev pub AreQueues : List Queue → Type 0
AreQueues [] = Unit {0}
AreQueues (q ∷ queues) = IsValid q × (q.idx_head + q.capacity < 2 ^ 64) × AreQueues queues

abbrev pub AreEmpty : List Queue → Type 0
AreEmpty [] = Unit {0}
AreEmpty (q ∷ queues) = IsValid q × (contents q ≡ []) × AreEmpty queues

-- `xs` was written from `n` on, and the words before stand.
record IsAdded (n : ℕ) (a xs b : List ℕ) : Type 0 where
  same_length : length b ≡ length a
  before : (j : ℕ) → j < n → cell b j ≡ cell a j
  written : segment b n (length xs) ≡ xs

length-append : (xs ys : List ℕ) → length (xs ++ ys) ≡ length xs + length ys
length-append [] ys = omega arith
length-append (x ∷ xs) ys = omega (arith, length-append xs ys)

IsAdded-append :
    (n : ℕ) (a xs b ys c : List ℕ)
    → IsAdded n a xs b
    → IsAdded (n + length xs) b ys c
    → IsAdded n a (xs ++ ys) c
IsAdded-append n a xs b ys c f g = record {
  same_length = g.same_length ∙ f.same_length;
  before = λ j p. g.before j (omega arith) ∙ f.before j p;
  written =
      ap (segment c n) (length-append xs ys)
      ∙ (segment-add c n (length xs) (length ys)
          ∙ ap₂ ◌++◌ (segment-agree c b n (length xs) (λ j p q. g.before j q) ∙ f.written)
              g.written);
}

segment-memcpy :
    (dst src out : List ℕ) (d s n : ℕ)
    → ((j : ℕ) → j < n → cell out (d + j) ≡ cell src (s + j))
    → segment out d n ≡ segment src s n
segment-memcpy dst src out d s zero h = refl
segment-memcpy dst src out d s (suc n) h =
    ap₂ ◌∷◌
      (ap (cell out) (omega arith) ∙ (h 0 (omega arith) ∙ ap (cell src) {y = s} (omega arith)))
      (segment-memcpy dst src out (d + 1) (s + 1) n λ j p.
        ap (cell out) (omega arith) ∙ (h (suc j) (omega arith) ∙ ap (cell src) (omega arith)))

module _ (max_ptrs : ℕ) where
  add_leftovers-IsAdded :
      (storage : List AddrStorage) (n : ℕ) (a : List ℕ)
      → AreBlocks storage
      → max_ptrs * 2 ≤ length a
      → n + length (leftovers storage) ≤ max_ptrs * 2
      → (b : List ℕ) × (add_leftovers max_ptrs storage n a
          ≡ some (n + length (leftovers storage), b, storage))
        × IsAdded n a (leftovers storage) b
  unfolding add_leftovers
  add_leftovers-IsAdded [] n a ok room fits = (
    a,
    ap (λ (k : ℕ). some (k, a, [])) (omega arith),
    record { same_length = refl; before = λ j p. refl; written = refl },
  )
  add_leftovers-IsAdded (b ∷ storage) n a ok room fits =
      let xs : List ℕ = segment b.addrs 0 b.length in
      let len : length xs ≡ b.length = length-segment b.addrs 0 b.length in
      let all = length-append xs (leftovers storage) in
      let (mid, e, c) =
        memcpy-IsCopied a n b.addrs 0 b.length (omega arith) (omega (arith, ok.0)) in
      let (out, e', added) =
        add_leftovers-IsAdded storage (n + b.length) mid ok.1 (omega (arith, c.same_length))
          (omega arith) in
      let first : IsAdded n a xs mid = record {
        same_length = c.same_length;
        before = c.before;
        written = ap (segment mid n) len ∙ segment-memcpy a b.addrs mid n 0 b.length c.inside;
      } in
      (
        out,
        rw (one_block b n a mid e (omega arith), e')
            (ap (λ (k : ℕ). some (k, out, b ∷ storage)) (omega arith)),
        IsAdded-append n a xs mid (leftovers storage) out first
            (subst (λ k. IsAdded (n + k) mid (leftovers storage) out) (sym len) added),
      )
    where
      one_block :
          (b : AddrStorage) (n : ℕ) (a mid : List ℕ)
          → memcpy a n b.addrs 0 b.length ≡ some mid
          → n + b.length ≤ max_ptrs * 2
          → add_to_buf_addrs max_ptrs n a b.addrs b.length ≡ some (n + b.length, mid)
      one_block b n a mid e h =
          unfold add_to_buf_addrs in rw (le→ltb (max_ptrs * 2) (n + b.length) h, e)

  take_all : (xs : List ℕ) → take (length xs) xs ≡ xs
  take_all [] = refl
  take_all (x ∷ xs) = ap (λ r. x ∷ r) (take_all xs)

  drop_all : (xs : List ℕ) → drop (length xs) xs ≡ []
  drop_all [] = refl
  drop_all (x ∷ xs) = drop_all xs

  -- A queue whose elements all fit is emptied.
  pop_all :
      (q : Queue) (n : ℕ) (a : List ℕ)
      → IsValid q
      → q.idx_head + q.capacity < 2 ^ 64
      → max_ptrs * 2 ≤ length a
      → n + length (contents q) ≤ max_ptrs * 2
      → IsPopped q (length (contents q)) a n (pop_bulk a n (max_ptrs * 2 - n) q)
  pop_all q n a v w room fits =
      subst (λ k. IsPopped q k a n (pop_bulk a n (max_ptrs * 2 - n) q)) (omega arith)
        (pop_bulk-IsPopped q (max_ptrs * 2 - n) a n v w (omega arith))

  pop_threads-IsAdded :
      (queues : List Queue) (n : ℕ) (a : List ℕ)
      → AreQueues queues
      → max_ptrs * 2 ≤ length a
      → n + length (waiting queues) ≤ max_ptrs * 2
      → (b : List ℕ) × (queues' : List Queue) × (pop_threads max_ptrs queues n a
          ≡ some (n + length (waiting queues), b, queues'))
        × IsAdded n a (waiting queues) b
        × AreEmpty queues'
  unfolding pop_threads
  pop_threads-IsAdded [] n a ok room fits = (
    a,
    [],
    ap (λ (k : ℕ). some (k, a, [])) (omega arith),
    record { same_length = refl; before = λ j p. refl; written = refl },
    tt,
  )
  pop_threads-IsAdded (q ∷ queues) n a ok room fits =
      let xs : List ℕ = contents q in
      let all = length-append xs (waiting queues) in
      let p = pop_all q n a ok.0 ok.1 room (omega arith) in
      let (out, queues', e, added, empty) =
        pop_threads-IsAdded queues (n + length xs) p.out ok.2 (omega (arith, p.same_length))
          (omega arith) in
      let first : IsAdded n a xs p.out = record {
        same_length = p.same_length;
        before = λ j h. p.untouched j (inl h);
        written = p.popped ∙ take_all xs;
      } in
      (
        out,
        p.q' ∷ queues',
        rw (p.returns, e) (ap (λ (k : ℕ). some (k, out, p.q' ∷ queues')) (omega arith)),
        IsAdded-append n a xs p.out (waiting queues) out first added,
        (p.valid, p.remaining ∙ drop_all xs, empty),
      )

-- If all addresses fit the limit of `max_ptrs * 2` and `buf_addrs` has that many words,
-- `generate_working_pointers_list` returns and accesses nothing out of range; `buf_addrs` then begins
-- with the addresses of every block of the storage and of every queue, in order, `n` is their
-- number, every queue is valid and empty, and the blocks of the storage are unmapped, each once.
pub generate_working_pointers_list_gathers :
    (max_ptrs : ℕ) (storage : List AddrStorage) (queues : List Queue) (a : List ℕ)
    → AreBlocks storage
    → AreQueues queues
    → max_ptrs * 2 ≤ length a
    → length (leftovers storage ++ waiting queues) ≤ max_ptrs * 2
    → let all = leftovers storage ++ waiting queues in
      (b : List ℕ) × (queues' : List Queue) × (generate_working_pointers_list max_ptrs storage
          queues a
        ≡ some (length all, b, queues', storage))
      × (segment b 0 (length all) ≡ all)
      × (length b ≡ length a)
      × AreEmpty queues'
unfolding generate_working_pointers_list
generate_working_pointers_list_gathers max_ptrs storage queues a blocks ok room fits =
    let all = length-append (leftovers storage) (waiting queues) in
    let (mid, e, f) = add_leftovers-IsAdded max_ptrs storage 0 a blocks room (omega arith) in
    let (out, queues', e', g, empty) =
      pop_threads-IsAdded max_ptrs queues (0 + length (leftovers storage)) mid ok
        (omega (arith, f.same_length)) (omega arith) in
    let both = IsAdded-append 0 a (leftovers storage) mid (waiting queues) out f g in
    (
      out,
      queues',
      rw (e, e') (ap (λ (k : ℕ). some (k, out, queues', storage)) (omega arith)),
      both.written,
      both.same_length,
      empty,
    )
