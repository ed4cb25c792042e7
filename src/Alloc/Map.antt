-- ===== src/Alloc/Map.antt =====
-- `threadscan_alloc_mmap` and `threadscan_alloc_munmap`.
use thread_scan.Base.{
  ℕ, suc, ◌+◌, ◌^◌, ◌⊎◌, ◌≤◌, ◌<◌, ◌≡◌, refl, ap, ap₂, ◌∙◌, List, ◌∷◌, ◌++◌, some, arith, count,
  hit, length, ℕ_discrete, dec_lt, inl, inr, add64,
}
use thread_scan.Alloc.{
  Metadata, Nodes, write, low_addr, high_addr, Allocator, do_insert, alloc_blocksize, metadata_new,
  alloc_mmap,
}
use thread_scan.Alloc.Insert.{IsClear, do_insert-IsInserted, count-middle}
use thread_scan.Alloc.Remove.{length-middle}
use thread_scan.Alloc.Pool.{IsAllocator, IsAllocator-write, write-off}
use thread_scan.Alloc.New.{
  IsKept, IsKept-trans, inserted-IsAllocator, IsFreeBlock, metadata_new-IsFetched, once-cons,
}

-- The range that `mmap` gives is free: it overlaps no range in use and not the block.
pub record IsFreeRange (a : Allocator) (p addr size : ℕ) (used : List ℕ) : Type 0 where
  pub size_pos : 0 < size
  pub range_end : addr + size < 2 ^ 64
  pub range_clear : IsClear a.nodes addr (addr + size) used
  pub off_block : (p + alloc_blocksize ≤ addr) ⊎ (addr + size ≤ p)

-- The range is in use, with all that was, and at most the block besides.
pub record IsMapped (fuel : ℕ) (a : Allocator) (p addr size : ℕ) (used : List ℕ) : Type 0 where
  pub out : Allocator
  pub meta : ℕ
  pub used' : List ℕ
  pub free' : List ℕ
  pub returns : alloc_mmap fuel a p addr size ≡ some out
  pub valid : IsAllocator out used' free'
  pub kept : IsKept a.nodes out.nodes used used'
  pub on : 0 < count meta used'
  pub at_addr : (out.nodes meta).addr ≡ addr
  pub at_length : (out.nodes meta).length ≡ size
  pub only : (k : ℕ) → 0 < count k used' → (0 < count k used) ⊎ ((k ≡ p) ⊎ (k ≡ meta))
  pub few : length used' ≤ length used + 2
  pub more : suc (length used) ≤ length used'
  pub fresh : count meta used ≡ 0

alloc_mmap-eq :
    (fuel : ℕ) (a b c : Allocator) (p addr size meta : ℕ)
    → metadata_new fuel a p ≡ some (meta, b)
    → do_insert fuel
        (record b {
          nodes = write b.nodes meta (record (b.nodes meta) { length = size; addr = addr });
        })
        meta
      ≡ some c
    → alloc_mmap fuel a p addr size ≡ some c
unfolding alloc_mmap
alloc_mmap-eq fuel a b c p addr size meta new ins = rw (new, ins) refl

write-IsKept :
    (m : Nodes) (y : ℕ) (d : Metadata) (used : List ℕ)
    → count y used ≡ 0
    → IsKept m (write m y d) used used
write-IsKept m y d used out = record {
  still = λ k on. on;
  same_addr = λ k on. ap (λ (e : Metadata). e.addr) (write-off m y k d used out on);
  same_length = λ k on. ap (λ (e : Metadata). e.length) (write-off m y k d used out on);
}

-- Whether one range lies clear of another, by its first and last address.
IsClear-moved :
    (low high low' high' : ℕ) (e e' : Metadata)
    → e'.addr ≡ e.addr
    → e'.length ≡ e.length
    → low' ≡ low
    → high' ≡ high
    → (high_addr e ≤ low) ⊎ (high ≤ low_addr e)
    → (high_addr e' ≤ low') ⊎ (high' ≤ low_addr e')
IsClear-moved low high low' high' e e' same same' l h (inl le) =
    inl (omega (arith, le, l, ap₂ add64 same same'))
IsClear-moved low high low' high' e e' same same' l h (inr le) = inr (omega (arith, le, h, same))

-- The ranges in use after `metadata_new` leave the range free.
IsClear-new :
    (a b : Allocator) (p addr size meta : ℕ) (d : Metadata) (used used' : List ℕ)
    → count meta used' ≡ 0
    → p + alloc_blocksize < 2 ^ 64
    → IsFreeRange a p addr size used
    → IsKept a.nodes b.nodes used used'
    → ((k : ℕ)
        → 0 < count k used'
        → (0 < count k used)
          ⊎ ((k ≡ p) × ((b.nodes k).addr ≡ p) × ((b.nodes k).length ≡ alloc_blocksize)))
    → low_addr (write b.nodes meta d meta) ≡ addr
    → high_addr (write b.nodes meta d meta) ≡ addr + size
    → IsClear
        (write b.nodes meta d)
        (low_addr (write b.nodes meta d meta))
        (high_addr (write b.nodes meta d meta))
        used'
IsClear-new a b p addr size meta d used used' out small range kept only low high k on =
    let same = write-off b.nodes meta k d used' out on in
    elim (only k on) [
      | inl old ↦
          IsClear-moved addr (addr + size) (low_addr (write b.nodes meta d meta))
            (high_addr (write b.nodes meta d meta)) (a.nodes k) (write b.nodes meta d k)
            (ap (λ (e : Metadata). e.addr) same ∙ kept.same_addr k old)
            (ap (λ (e : Metadata). e.length) same ∙ kept.same_length k old) low high
            (range.range_clear k old)
      | inr (_, at, len) ↦
          IsClear-moved addr (addr + size) (low_addr (write b.nodes meta d meta))
            (high_addr (write b.nodes meta d meta))
            (record { addr = p; length = alloc_blocksize; next = 0; prev = 0 })
            (write b.nodes meta d k) (ap (λ (e : Metadata). e.addr) same ∙ at)
            (ap (λ (e : Metadata). e.length) same ∙ len) low high
            (block_clear p addr size small range.off_block)
    ]
  where
    block_clear :
        (p addr size : ℕ)
        → p + alloc_blocksize < 2 ^ 64
        → (p + alloc_blocksize ≤ addr) ⊎ (addr + size ≤ p)
        → (add64 p alloc_blocksize ≤ addr) ⊎ (addr + size ≤ p)
    block_clear p addr size small (inl le) = inl (omega (arith, small, le))
    block_clear p addr size small (inr le) = inr le

-- `threadscan_alloc_mmap` with a free range and, if the pool is empty, a free block for more nodes: it
-- returns, the range is in use, every other range in use stays as it was, and only the block may be in
-- use besides; the ranges are in a ring in their order, without overlaps, and no node is both in use and free.
pub alloc_mmap-IsMapped :
    (fuel : ℕ) (a : Allocator) (p addr size : ℕ) (used free : List ℕ)
    → suc (length used) ≤ fuel
    → IsAllocator a used free
    → IsFreeBlock a p used
    → IsFreeRange a p addr size used
    → IsMapped fuel a p addr size used
alloc_mmap-IsMapped fuel a p addr size used free enough v block range =
    let new = metadata_new-IsFetched fuel a p used free (omega (arith, enough)) v block in
    let b : Allocator = new.out in
    let meta : ℕ = new.meta in
    let d : Metadata = record (b.nodes meta) { length = size; addr = addr } in
    let b1 : Allocator = record b { nodes = write b.nodes meta d } in
    let v1 = IsAllocator-write b meta d new.used' new.free' new.valid new.off_lists in
    let at : b1.nodes meta ≡ d = ground arith in
    let high : high_addr (b1.nodes meta) ≡ addr + size = rw at (omega (arith, range.range_end)) in
    let low : low_addr (b1.nodes meta) ≡ addr = ap (λ (e : Metadata). e.addr) at in
    let out : count meta new.used' ≡ 0 = omega (arith, new.off_lists) in
    let clear =
      IsClear-new a b p addr size meta d used new.used' out block.block_end range new.kept new.only
        low high in
    let i =
      do_insert-IsInserted fuel b1 meta new.used' (omega (arith, new.few, enough)) v1.in_use
        v1.ordered new.meta_pos
        (λ k. once-cons k meta new.used' out (omega (arith, new.valid.once k))) clear
        (omega (arith, high, low, range.size_pos)) in
    let (v2, kept) =
      inserted-IsAllocator fuel b1 meta new.used' new.free' v1 new.off_lists
        (omega (arith, high, low, range.size_pos)) i in
    let used'' : List ℕ = i.pre ++ (meta ∷ i.post) in
    let same : (k : ℕ) → count k used'' ≡ hit k meta + count k new.used' =
      λ k. omega (arith, count-middle k meta i.pre i.post, ap (λ zs. count k zs) i.split) in
    record {
      out = i.out;
      meta = meta;
      used' = used'';
      free' = new.free';
      returns = alloc_mmap-eq fuel a b i.out p addr size meta new.returns i.returns;
      valid = v2;
      kept = IsKept-trans a.nodes b.nodes i.out.nodes used new.used' used'' new.kept (
          IsKept-trans b.nodes b1.nodes i.out.nodes new.used' new.used' used''
            (write-IsKept b.nodes meta d new.used' out) kept);
      on = omega (arith, same meta, hit_self meta);
      at_addr = i.relinked.same_addr meta ∙ low;
      at_length = i.relinked.same_length meta ∙ ap (λ (e : Metadata). e.length) at;
      only = λ k on. elim (ℕ_discrete k meta) [
        | yes here ↦ inr (inr here)
        | no other ↦ elim (new.only k (ground (arith, same k, on, other))) [
          | inl old ↦ inl old
          | inr at_p ↦ inr (inl at_p.0)
        ]
      ];
      few = omega (arith, length-middle meta i.pre i.post, ap length i.split, new.few);
      more = omega (arith, length-middle meta i.pre i.post, ap length i.split, new.grown);
      fresh = elim (dec_lt 0 (count meta used)) [
        | yes old ↦ absurd (omega (arith, out, new.kept.still meta old))
        | no none_old ↦ omega arith
      ];
    }
  where
    hit_self : (k : ℕ) → hit k k ≡ 1
    hit_self k = ground arith
