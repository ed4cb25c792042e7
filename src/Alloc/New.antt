-- ===== src/Alloc/New.antt =====
-- `metadata_new` gives a node that is on no list, from the pool or from a block that it maps.
use thread_scan.Base.{
  ℕ, suc, ◌+◌, ◌^◌, ◌⊎◌, ◌≤◌, ◌<◌, ◌≡◌, refl, ap, sym, ◌∙◌, subst, List, [], ◌∷◌, ◌++◌, some, arith,
  ◌==◌, count, hit, length, if◌then◌else◌, ℕ_discrete, true, false, inl, inr, ==_iff,
}
use thread_scan.Alloc.{
  Metadata, Nodes, write, low_addr, high_addr, Allocator, do_insert, carve_loop, alloc_blocksize,
  node_size, new_block, metadata_new,
}
use thread_scan.Alloc.Insert.{IsClear, IsInserted, do_insert-IsInserted, count-middle}
use thread_scan.Alloc.Remove.{length-middle}
use thread_scan.Alloc.Pool.{
  IsPool, IsPool-frame, HasRoom, IsAllocator, IsAllocator-write, carve_block-IsCarved, write-off,
}

-- The ranges in use are still in use, and the same.
pub record IsKept (m n : Nodes) (used used' : List ℕ) : Type 0 where
  pub still : (k : ℕ) → 0 < count k used → 0 < count k used'
  pub same_addr : (k : ℕ) → 0 < count k used → (n k).addr ≡ (m k).addr
  pub same_length : (k : ℕ) → 0 < count k used → (n k).length ≡ (m k).length

pub IsKept-trans :
    (m n o : Nodes) (xs ys zs : List ℕ) → IsKept m n xs ys → IsKept n o ys zs → IsKept m o xs zs
IsKept-trans m n o xs ys zs r s = record {
  still = λ k on. s.still k (r.still k on);
  same_addr = λ k on. s.same_addr k (r.still k on) ∙ r.same_addr k on;
  same_length = λ k on. s.same_length k (r.still k on) ∙ r.same_length k on;
}

-- The invariant after an insertion.
pub inserted-IsAllocator :
    (fuel : ℕ) (a : Allocator) (meta : ℕ) (used free : List ℕ)
    → IsAllocator a used free
    → count meta used + count meta free ≡ 0
    → HasRoom (a.nodes meta)
    → (i : IsInserted fuel a meta used)
    → IsAllocator i.out (i.pre ++ (meta ∷ i.post)) free
      × IsKept a.nodes i.out.nodes used (i.pre ++ (meta ∷ i.post))
inserted-IsAllocator fuel a meta used free v out room i =
    let same : (k : ℕ) → count k (i.pre ++ (meta ∷ i.post)) ≡ hit k meta + count k used =
      λ k. omega (arith, count-middle k meta i.pre i.post, ap (λ zs. count k zs) i.split) in
    let roomy : (k : ℕ) → HasRoom (a.nodes k) → HasRoom (i.out.nodes k) =
      λ k h. rw (i.relinked.same_addr k, i.relinked.same_length k) h in
    (
      record {
        in_use = i.used;
        ordered = i.ordered;
        room = λ k on. elim (ℕ_discrete k meta) [
          | yes here ↦ roomy k (subst (λ (j : ℕ). HasRoom (a.nodes j)) (sym here) room)
          | no other ↦ roomy k (v.room k (ground (arith, on, same k, other)))
        ];
        pool =
            subst (λ (p : ℕ). IsPool i.out.nodes p free) (sym i.same_free)
              (IsPool-frame a.nodes i.out.nodes a.free_list free
                (λ x on. ap (λ (e : Metadata). e.next) (i.relinked.same_node x (off x on))) v.pool);
        once = λ k. elim (ℕ_discrete k meta) [
          | yes here ↦ ground (arith, same k, out, ap (λ (j : ℕ). count j used + count j free) here)
          | no other ↦ ground (arith, same k, v.once k, other)
        ];
      },
      record {
        still = λ k on. omega (arith, same k, on);
        same_addr = λ k on. i.relinked.same_addr k;
        same_length = λ k on. i.relinked.same_length k;
      },
    )
  where
    off : (x : ℕ) → 0 < count x free → count x (meta ∷ used) ≡ 0
    off x on = elim (ℕ_discrete x meta) [
      | yes here ↦ absurd (omega (arith, on, out, ap (λ (j : ℕ). count j free) here))
      | no other ↦ ground (arith, v.once x, on, other)
    ]

-- What `metadata_new` gives: a node that is on no list.
pub record IsFetched (fuel : ℕ) (a : Allocator) (p : ℕ) (used : List ℕ) : Type 0 where
  pub out : Allocator
  pub meta : ℕ
  pub used' : List ℕ
  pub free' : List ℕ
  pub returns : metadata_new fuel a p ≡ some (meta, out)
  pub valid : IsAllocator out used' free'
  pub meta_pos : 0 < meta
  pub off_lists : count meta used' + count meta free' ≡ 0
  pub kept : IsKept a.nodes out.nodes used used'
  pub few : length used' ≤ suc (length used)
  pub grown : length used ≤ length used'
  pub only :
      (k : ℕ)
      → 0 < count k used'
      → (0 < count k used)
        ⊎ ((k ≡ p) × ((out.nodes k).addr ≡ p) × ((out.nodes k).length ≡ alloc_blocksize))

-- The head of the pool, taken.
taken-IsFetched :
    (fuel : ℕ) (a b : Allocator) (p : ℕ) (used used' : List ℕ) (x : ℕ) (xs : List ℕ)
    → ((if a.free_list == 0 then new_block fuel a p else some a) ≡ some b)
    → IsAllocator b used' (x ∷ xs)
    → IsKept a.nodes b.nodes used used'
    → ((k : ℕ)
        → 0 < count k used'
        → (0 < count k used)
          ⊎ ((k ≡ p) × ((b.nodes k).addr ≡ p) × ((b.nodes k).length ≡ alloc_blocksize)))
    → length used' ≤ suc (length used)
    → length used ≤ length used'
    → IsFetched fuel a p used
unfolding metadata_new
taken-IsFetched fuel a b p used used' x xs got v kept only few grown =
    let (e, pos, rest) = v.pool in
    let t : (b.free_list == 0) ≡ false = ground (arith, e) in
    record {
      out = record b { free_list = (b.nodes b.free_list).next };
      meta = b.free_list;
      used' = used';
      free' = xs;
      returns = rw (got, t) refl;
      valid = record {
        in_use = v.in_use;
        ordered = v.ordered;
        room = v.room;
        pool = subst (λ (k : ℕ). IsPool b.nodes (b.nodes k).next xs) (sym e) rest;
        once = λ k. omega (arith, v.once k);
      };
      meta_pos = omega (arith, e, pos);
      off_lists =
          subst (λ (k : ℕ). count k used' + count k xs ≡ 0) (sym e) (ground (arith, v.once x));
      kept = kept;
      few = few;
      grown = grown;
      only = only;
    }

-- The block that a call may have to map, and the range that it maps, are free.
pub record IsFreeBlock (a : Allocator) (p : ℕ) (used : List ℕ) : Type 0 where
  pub block_pos : 0 < p
  pub block_end : p + alloc_blocksize < 2 ^ 64
  pub block_clear : IsClear a.nodes p (p + alloc_blocksize) used
  pub block_off : (k : ℕ) → p ≤ k → k < p + alloc_blocksize → count k used ≡ 0

pub once-cons :
    (k p : ℕ) (used : List ℕ) → count p used ≡ 0 → count k used + 0 ≤ 1 → count k (p ∷ used) ≤ 1
once-cons k p used out once = elim (ℕ_discrete k p) [
  | yes here ↦ ground (arith, out, ap (λ (j : ℕ). count j used) here)
  | no other ↦ ground (arith, once, other)
]

mapped :
    (fuel : ℕ) (a b : Allocator) (p : ℕ)
    → a.free_list ≡ 0
    → do_insert fuel
        (record a {
          nodes =
              write a.nodes p (record { addr = p; length = alloc_blocksize; next = 0; prev = 0 });
        })
        p
      ≡ some b
    → (if a.free_list == 0 then new_block fuel a p else some a)
      ≡ some (carve_loop 128 p node_size b)
unfolding new_block
mapped fuel a b p e ret =
    let t : (a.free_list == 0) ≡ true = (==_iff a.free_list 0).1 e in rw (t, ret) refl

pooled-IsFetched :
    (fuel : ℕ) (a b : Allocator) (p : ℕ) (used used' : List ℕ) (t : ℕ) (pooled : List ℕ)
    → 0 < count t pooled
    → ((if a.free_list == 0 then new_block fuel a p else some a) ≡ some b)
    → IsAllocator b used' pooled
    → IsKept a.nodes b.nodes used used'
    → ((k : ℕ)
        → 0 < count k used'
        → (0 < count k used)
          ⊎ ((k ≡ p) × ((b.nodes k).addr ≡ p) × ((b.nodes k).length ≡ alloc_blocksize)))
    → length used' ≤ suc (length used)
    → length used ≤ length used'
    → IsFetched fuel a p used
pooled-IsFetched fuel a b p used used' t [] on = absurd (omega (arith, on))
pooled-IsFetched fuel a b p used used' t (x ∷ xs) on = taken-IsFetched fuel a b p used used' x xs

pub metadata_new-IsFetched :
    (fuel : ℕ) (a : Allocator) (p : ℕ) (used free : List ℕ)
    → length used ≤ fuel
    → IsAllocator a used free
    → IsFreeBlock a p used
    → IsFetched fuel a p used
metadata_new-IsFetched fuel a p used (x ∷ xs) enough v block =
    let (e, pos, _) = v.pool in
    let t : (a.free_list == 0) ≡ false = ground (arith, e) in
    taken-IsFetched fuel a a p used used x xs (rw t refl) v
      (record { still = λ k on. on; same_addr = λ k on. refl; same_length = λ k on. refl })
      (λ k on. inl on) (omega arith) (omega arith)
metadata_new-IsFetched fuel a p used [] enough v block =
    let d : Metadata = record { addr = p; length = alloc_blocksize; next = 0; prev = 0 } in
    let a1 : Allocator = record a { nodes = write a.nodes p d } in
    let out : count p used ≡ 0 = block.block_off p (omega arith) (omega arith) in
    let v1 = IsAllocator-write a p d used [] v (omega (arith, out)) in
    let at : a1.nodes p ≡ d = ground arith in
    let high : high_addr (a1.nodes p) ≡ p + alloc_blocksize =
      rw at (omega (arith, block.block_end)) in
    let low : low_addr (a1.nodes p) ≡ p = ap (λ (e : Metadata). e.addr) at in
    let room : HasRoom (a1.nodes p) = omega (arith, high, low) in
    let clear : IsClear a1.nodes (low_addr (a1.nodes p)) (high_addr (a1.nodes p)) used = λ k on.
      let same = write-off a.nodes p k d used out on in
      subst
        (λ (e : Metadata).
          (high_addr e ≤ low_addr (a1.nodes p)) ⊎ (high_addr (a1.nodes p) ≤ low_addr e))
        (sym same)
        (elim (block.block_clear k on) [
          | inl le ↦ inl (omega (arith, le, low))
          | inr le ↦ inr (omega (arith, le, high))
        ]) in
    let i =
      do_insert-IsInserted fuel a1 p used enough v1.in_use v1.ordered block.block_pos
        (λ k. once-cons k p used out (v.once k)) clear room in
    let used' : List ℕ = i.pre ++ (p ∷ i.post) in
    let (v2, kept) = inserted-IsAllocator fuel a1 p used [] v1 (omega (arith, out)) room i in
    let same : (k : ℕ) → count k used' ≡ hit k p + count k used =
      λ k. omega (arith, count-middle k p i.pre i.post, ap (λ zs. count k zs) i.split) in
    let (c, on_pool) =
      carve_block-IsCarved 127 p i.out used' [] v2 block.block_pos
        (λ k lo hi. ground (arith, same k, block.block_off k (omega (arith, lo)) hi, lo)) in
    let b : Allocator = carve_loop 128 p node_size i.out in
    pooled-IsFetched fuel a b p used used' (p + node_size) c.pooled on_pool
      (mapped fuel a i.out p v.pool i.returns) c.valid
      (record {
        still = kept.still;
        same_addr = λ k on.
            ap (λ (e : Metadata). e.addr) (c.same_node k (kept.still k on))
            ∙ (kept.same_addr k on
                ∙ ap (λ (e : Metadata). e.addr) (write-off a.nodes p k d used out on));
        same_length = λ k on.
            ap (λ (e : Metadata). e.length) (c.same_node k (kept.still k on))
            ∙ (kept.same_length k on
                ∙ ap (λ (e : Metadata). e.length) (write-off a.nodes p k d used out on));
      })
      (λ k on. elim (ℕ_discrete k p) [
        | yes here ↦ inr (
          here,
          ap (λ (e : Metadata). e.addr) (c.same_node k on)
              ∙ (i.relinked.same_addr k
                  ∙ ap (λ (j : ℕ). (a1.nodes j).addr) here
                  ∙ ap (λ (e : Metadata). e.addr) at),
          ap (λ (e : Metadata). e.length) (c.same_node k on)
              ∙ (i.relinked.same_length k
                  ∙ ap (λ (j : ℕ). (a1.nodes j).length) here
                  ∙ ap (λ (e : Metadata). e.length) at),
        )
        | no other ↦ inl (ground (arith, on, same k, other))
      ])
      (omega (arith, length-middle p i.pre i.post, ap length i.split))
      (omega (arith, length-middle p i.pre i.post, ap length i.split))
