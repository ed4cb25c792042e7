-- ===== src/Alloc/Pool.antt =====
-- The allocator's invariant, and the pool of free nodes: `metadata_free` and the loop that carves a
-- block.
use thread_scan.Base.{
  ℕ, zero, suc, ◌+◌, ◌-◌, ◌≤◌, ◌<◌, ◌≡◌, ◌≢◌, refl, ap, sym, ◌∙◌, subst, List, [], ◌∷◌, arith, ltb,
  count, hit, ℕ_discrete, true, false, inl, inr, Bool-cases, ltb→lt,
}
use thread_scan.Alloc.{
  Metadata, Nodes, write, low_addr, high_addr, Allocator, metadata_free, carve_loop,
  alloc_blocksize, node_size,
}
use thread_scan.Alloc.Ring.{IsSegment-write}
use thread_scan.Alloc.Walk.{IsOrdered}
use thread_scan.Alloc.Insert.{IsUsed}

-- From `p`, the links lead through the free nodes to NULL.
abbrev pub IsPool : Nodes → ℕ → List ℕ → Type 0
IsPool m p [] = p ≡ 0
IsPool m p (x ∷ xs) = (p ≡ x) × (0 < x) × IsPool m (m x).next xs

pub IsPool-frame :
    (m n : Nodes) (p : ℕ) (xs : List ℕ)
    → ((x : ℕ) → 0 < count x xs → (n x).next ≡ (m x).next)
    → IsPool m p xs
    → IsPool n p xs
IsPool-frame m n p [] same c = c
IsPool-frame m n p (x ∷ xs) same (e, pos, rest) = (
  e,
  pos,
  subst (λ (k : ℕ). IsPool n k xs) (sym (same x (ground arith)))
      (IsPool-frame m n (m x).next xs (λ y h. same y (omega (arith, h))) rest),
)

-- A range of at least one byte that does not wrap.
abbrev pub HasRoom : Metadata → Type 0
HasRoom d = low_addr d < high_addr d

-- The ring holds `used`, in the order of their ranges, and the pool holds `free`; no node is on both.
pub record IsAllocator (a : Allocator) (used free : List ℕ) : Type 0 where
  pub in_use : IsUsed a.nodes a.alloc_list used
  pub ordered : IsOrdered a.nodes 0 used
  pub room : (k : ℕ) → 0 < count k used → HasRoom (a.nodes k)
  pub pool : IsPool a.nodes a.free_list free
  pub once : (k : ℕ) → count k used + count k free ≤ 1

pub IsUsed-write :
    (m : Nodes) (h y : ℕ) (d : Metadata) (xs : List ℕ)
    → count y xs ≡ 0
    → IsUsed m h xs
    → IsUsed (write m y d) h xs
IsUsed-write m h y d [] out u = u
IsUsed-write m h y d (x ∷ xs) out (e, pos, l, ring) =
    (e, pos, l, IsSegment-write m l x x l y d (x ∷ xs) out ring)

write-other : (m : Nodes) (y x : ℕ) (d : Metadata) → y ≢ x → write m y d x ≡ m x
write-other m y x d other = ground (arith, other)

pub write-off :
    (m : Nodes) (y x : ℕ) (d : Metadata) (xs : List ℕ)
    → count y xs ≡ 0
    → 0 < count x xs
    → write m y d x ≡ m x
write-off m y x d xs out on =
    write-other m y x d (λ e. omega (arith, out, on, ap (λ (k : ℕ). count k xs) e))

pub IsOrdered-write :
    (m : Nodes) (y bound : ℕ) (d : Metadata) (xs : List ℕ)
    → count y xs ≡ 0
    → IsOrdered m bound xs
    → IsOrdered (write m y d) bound xs
IsOrdered-write m y bound d [] out o = tt
IsOrdered-write m y bound d (x ∷ xs) out (le, rest) =
    let same : write m y d x ≡ m x = write-off m y x d (x ∷ xs) out (ground arith) in
    (
      subst (λ (e : Metadata). bound ≤ low_addr e) (sym same) le,
      subst (λ (e : Metadata). IsOrdered (write m y d) (high_addr e) xs) (sym same)
          (IsOrdered-write m y (high_addr (m x)) d xs (omega (arith, out)) rest),
    )

-- A node that is on neither list may be written, ...
pub IsAllocator-write :
    (a : Allocator) (y : ℕ) (d : Metadata) (used free : List ℕ)
    → IsAllocator a used free
    → count y used + count y free ≡ 0
    → IsAllocator (record a { nodes = write a.nodes y d }) used free
IsAllocator-write a y d used free v out =
    let no_use : count y used ≡ 0 = omega (arith, out) in
    record {
      in_use = IsUsed-write a.nodes a.alloc_list y d used no_use v.in_use;
      ordered = IsOrdered-write a.nodes y 0 d used no_use v.ordered;
      room = λ k on.
          subst (λ (e : Metadata). HasRoom e) (sym (write-off a.nodes y k d used no_use on))
            (v.room k on);
      pool =
          IsPool-frame a.nodes (write a.nodes y d) a.free_list free
            (λ x on.
              ap (λ (e : Metadata). e.next) (write-off a.nodes y x d free (omega (arith, out)) on))
            v.pool;
      once = v.once;
    }

-- ... and put in the pool.
pub metadata_free-IsAllocator :
    (a : Allocator) (meta : ℕ) (used free : List ℕ)
    → IsAllocator a used free
    → 0 < meta
    → count meta used + count meta free ≡ 0
    → IsAllocator (metadata_free a meta) used (meta ∷ free)
unfolding metadata_free
metadata_free-IsAllocator a meta used free v pos out =
    let d : Metadata = record (a.nodes meta) { next = a.free_list } in
    let w = IsAllocator-write a meta d used free v out in
    record {
      in_use = w.in_use;
      ordered = w.ordered;
      room = w.room;
      pool = (
        refl,
        pos,
        subst (λ (p : ℕ). IsPool (write a.nodes meta d) p free) (ground arith) w.pool,
      );
      once = λ k. elim (ℕ_discrete k meta) [
        | yes here ↦ ground (arith, v.once k, out, ap (λ (j : ℕ). count j used + count j free) here)
        | no other ↦ ground (arith, v.once k, other)
      ];
    }

carve_loop-on :
    (left p offset : ℕ) (a : Allocator)
    → ltb offset (alloc_blocksize - node_size) ≡ true
    → carve_loop (suc left) p offset a
      ≡ carve_loop left p (offset + node_size) (metadata_free a (p + offset))
unfolding carve_loop
carve_loop-on left p offset a more = rw (more, carve_loop) refl

carve_loop-end :
    (left p offset : ℕ) (a : Allocator)
    → ltb offset (alloc_blocksize - node_size) ≡ false
    → carve_loop (suc left) p offset a ≡ a
unfolding carve_loop
carve_loop-end left p offset a done = rw (done, carve_loop) refl

pub freed-node :
    (a : Allocator) (y k : ℕ) (used : List ℕ)
    → count y used ≡ 0
    → 0 < count k used
    → (metadata_free a y).nodes k ≡ a.nodes k
unfolding metadata_free
freed-node a y k used out on =
    write-off a.nodes y k (record (a.nodes y) { next = a.free_list }) used out on

-- What carving a block gives: more free nodes, and the nodes in use as they were.
pub record IsCarved (a b : Allocator) (used free : List ℕ) : Type 0 where
  pub pooled : List ℕ
  pub valid : IsAllocator b used pooled
  pub more : (k : ℕ) → count k free ≤ count k pooled
  pub same_node : (k : ℕ) → 0 < count k used → b.nodes k ≡ a.nodes k

carve_loop-IsCarved :
    (left p offset : ℕ) (a : Allocator) (used free : List ℕ)
    → IsAllocator a used free
    → 0 < p
    → ((k : ℕ) → p + offset ≤ k → k < p + alloc_blocksize → count k used + count k free ≡ 0)
    → IsCarved a (carve_loop left p offset a) used free
unfolding carve_loop
carve_loop-IsCarved zero p offset a used free v pos fresh = record {
  pooled = free;
  valid = v;
  more = λ k. omega arith;
  same_node = λ k on. refl;
}
carve_loop-IsCarved (suc left) p offset a used free v pos fresh =
    elim (Bool-cases (ltb offset (alloc_blocksize - node_size))) [
      | inl here ↦
          let lt = ltb→lt offset (alloc_blocksize - node_size) here in
          let node : ℕ = p + offset in
          let out = fresh node (omega arith) (omega (arith, lt)) in
          let v' = metadata_free-IsAllocator a node used free v (omega arith) out in
          let rest =
            carve_loop-IsCarved left p (offset + node_size) (metadata_free a node) used
              (node ∷ free) v' pos
              (λ k lo hi. ground (arith, fresh k (omega (arith, lo)) hi, lo)) in
          rw (carve_loop-on left p offset a here) (record {
            pooled = rest.pooled;
            valid = rest.valid;
            more = λ k. omega (arith, rest.more k);
            same_node =
                λ k on. rest.same_node k on ∙ freed-node a node k used (omega (arith, out)) on;
          })
      | inr done ↦
          rw (carve_loop-end left p offset a done)
            (record { pooled = free; valid = v; more = λ k. omega arith; same_node = λ k on. refl })
    ]

-- The first node of the block is in the pool afterwards.
pub carve_block-IsCarved :
    (left p : ℕ) (a : Allocator) (used free : List ℕ)
    → IsAllocator a used free
    → 0 < p
    → ((k : ℕ) → p + node_size ≤ k → k < p + alloc_blocksize → count k used + count k free ≡ 0)
    → (c : IsCarved a (carve_loop (suc left) p node_size a) used free) × (0
        < count (p + node_size) c.pooled)
carve_block-IsCarved left p a used free v pos fresh =
    let node : ℕ = p + node_size in
    let out = fresh node (omega arith) (omega arith) in
    let v' = metadata_free-IsAllocator a node used free v (omega arith) out in
    let c =
      carve_loop-IsCarved left p (node_size + node_size) (metadata_free a node) used (node ∷ free)
        v' pos (λ k lo hi. ground (arith, fresh k (omega (arith, lo)) hi, lo)) in
    rw (carve_loop-on left p node_size a refl) (
      record {
        pooled = c.pooled;
        valid = c.valid;
        more = λ k. omega (arith, c.more k);
        same_node = λ k on. c.same_node k on ∙ freed-node a node k used (omega (arith, out)) on;
      },
      omega (arith, c.more node, hit_self node),
    )
  where
    hit_self : (k : ℕ) → hit k k ≡ 1
    hit_self k = ground arith
