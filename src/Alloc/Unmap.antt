-- ===== src/Alloc/Unmap.antt =====
-- `threadscan_alloc_munmap`, and that it undoes `threadscan_alloc_mmap`.
use thread_scan.Base.{
  ℕ, ◌+◌, ◌⊎◌, ◌≤◌, ◌<◌, ◌≡◌, ◌≢◌, ap, ap₂, sym, ◌∙◌, subst, List, [], ◌∷◌, ◌++◌, some, arith, ◌==◌,
  count, hit, length, ℕ_discrete, true, inl, inr, ==_iff,
}
use thread_scan.Alloc.{
  Metadata, Nodes, low_addr, high_addr, Allocator, metadata_free, metadata_remove, alloc_mmap,
  alloc_munmap,
}
use thread_scan.Alloc.Walk.{IsOrdered}
use thread_scan.Alloc.Insert.{IsUsed, count-middle}
use thread_scan.Alloc.Ring.{IsSegment}
use thread_scan.Alloc.Remove.{metadata_remove-IsRemoved}
use thread_scan.Alloc.Pool.{IsPool, IsPool-frame, HasRoom, IsAllocator, metadata_free-IsAllocator}
use thread_scan.Alloc.New.{IsKept, IsFreeBlock}
use thread_scan.Alloc.Map.{IsFreeRange, alloc_mmap-IsMapped}

-- The range at `ptr` is out of use, all others stay, and its node is free.
pub record IsUnmapped (munmap : ℕ → ℕ → ℕ) (fuel : ℕ) (a : Allocator) (ptr : ℕ) (used free : List ℕ)
    : Type 0 where
  pub out : Allocator
  pub meta : ℕ
  pub used' : List ℕ
  pub on : 0 < count meta used
  pub at : (a.nodes meta).addr ≡ ptr
  pub returns : alloc_munmap munmap fuel a ptr ≡ some ((ptr, (a.nodes meta).length), out)
  pub valid : IsAllocator out used' (meta ∷ free)
  pub left : (k : ℕ) → count k used ≡ hit k meta + count k used'
  pub same_addr : (k : ℕ) → (out.nodes k).addr ≡ (a.nodes k).addr
  pub same_length : (k : ℕ) → (out.nodes k).length ≡ (a.nodes k).length

alloc_munmap-eq :
    (munmap : ℕ → ℕ → ℕ) (fuel : ℕ) (a b : Allocator) (ptr meta addr len : ℕ)
    → metadata_remove fuel a ptr ≡ some (meta, b)
    → (b.nodes meta).addr ≡ addr
    → (b.nodes meta).length ≡ len
    → munmap addr len ≡ 0
    → alloc_munmap munmap fuel a ptr ≡ some ((addr, len), metadata_free b meta)
unfolding alloc_munmap
alloc_munmap-eq munmap fuel a b ptr meta addr len ret at len_at ok =
    let t : (munmap (b.nodes meta).addr (b.nodes meta).length == 0) ≡ true =
      (==_iff (munmap (b.nodes meta).addr (b.nodes meta).length) 0).1 (ap₂ munmap at len_at ∙ ok) in
    rw (ret, t) (ap₂ (λ (x y : ℕ). some ((x, y), metadata_free b meta)) at len_at)

IsSegment-pos :
    (m : Nodes) (b p q l k : ℕ) (xs : List ℕ) → IsSegment m b p xs q l → 0 < count k xs → 0 < k
IsSegment-pos m b p q l k [] s on = absurd (omega (arith, on))
IsSegment-pos m b p q l k (x ∷ xs) (_, pos, _, rest) on = elim (ℕ_discrete k x) [
  | yes here ↦ omega (arith, pos, here)
  | no other ↦ IsSegment-pos m x (m x).next q l k xs rest (ground (arith, on, other))
]

IsUsed-pos : (m : Nodes) (h k : ℕ) (xs : List ℕ) → IsUsed m h xs → 0 < count k xs → 0 < k
IsUsed-pos m h k [] u on = absurd (omega (arith, on))
IsUsed-pos m h k (x ∷ xs) (_, _, l, ring) on = IsSegment-pos m l x x l k (x ∷ xs) ring on

freed-addr : (a : Allocator) (y k : ℕ) → ((metadata_free a y).nodes k).addr ≡ (a.nodes k).addr
unfolding metadata_free
freed-addr a y k = elim (ℕ_discrete y k) [
  | yes here ↦ ground (arith, ap (λ (j : ℕ). (a.nodes j).addr) here)
  | no other ↦ ground arith
]

freed-length : (a : Allocator) (y k : ℕ) → ((metadata_free a y).nodes k).length ≡ (a.nodes k).length
unfolding metadata_free
freed-length a y k = elim (ℕ_discrete y k) [
  | yes here ↦ ground (arith, ap (λ (j : ℕ). (a.nodes j).length) here)
  | no other ↦ ground arith
]

-- With a range in use at `ptr` that is not the only one, and where `munmap` succeeds,
-- `threadscan_alloc_munmap` ends within as many rounds as there are ranges; it unmaps exactly the range at `ptr`,
-- its node goes to the pool, and every other range stays as it was.
pub alloc_munmap-IsUnmapped :
    (munmap : ℕ → ℕ → ℕ) (fuel : ℕ) (a : Allocator) (ptr t : ℕ) (used free : List ℕ)
    → length used ≤ fuel
    → 2 ≤ length used
    → IsAllocator a used free
    → 0 < count t used
    → (a.nodes t).addr ≡ ptr
    → ((addr len : ℕ) → munmap addr len ≡ 0)
    → IsUnmapped munmap fuel a ptr used free
alloc_munmap-IsUnmapped munmap fuel a ptr t used free enough two v on at ok =
    let r =
      metadata_remove-IsRemoved fuel a ptr t used enough two v.in_use v.ordered
        (λ k. omega (arith, v.once k)) (λ k h. omega (arith, v.room k h)) on at in
    let b : Allocator = r.out in
    let used' : List ℕ = r.pre ++ r.post in
    let left : (k : ℕ) → count k used ≡ hit k r.curr + count k used' =
      λ k. ap (λ zs. count k zs) r.split ∙ count-middle k r.curr r.pre r.post in
    let c_on : 0 < count r.curr used = omega (arith, left r.curr, hit_self r.curr) in
    let off : (k : ℕ) → 0 < count k free → count k used ≡ 0 = λ k h. omega (arith, v.once k, h) in
    let v1 : IsAllocator b used' free = record {
      in_use = r.used;
      ordered = r.ordered;
      room = λ k h.
          roomy a.nodes b.nodes k (r.relinked.same_addr k) (r.relinked.same_length k)
            (v.room k (omega (arith, left k, h)));
      pool =
          subst (λ (p : ℕ). IsPool b.nodes p free) (sym r.same_free)
            (IsPool-frame a.nodes b.nodes a.free_list free
              (λ x h. ap (λ (e : Metadata). e.next) (r.relinked.same_node x (off x h))) v.pool);
      once = λ k. omega (arith, v.once k, left k);
    } in
    let c_pos : 0 < r.curr = IsUsed-pos a.nodes a.alloc_list r.curr used v.in_use c_on in
    let freed =
      metadata_free-IsAllocator b r.curr used' free v1 c_pos
        (omega (arith, v.once r.curr, left r.curr, hit_self r.curr)) in
    let ret =
      alloc_munmap-eq munmap fuel a b ptr r.curr ptr (a.nodes r.curr).length r.returns
        (r.relinked.same_addr r.curr ∙ r.at) (r.relinked.same_length r.curr)
        (ok ptr (a.nodes r.curr).length) in
    record {
      out = metadata_free b r.curr;
      meta = r.curr;
      used' = used';
      on = c_on;
      at = r.at;
      returns = ret;
      valid = freed;
      left = left;
      same_addr = λ k. freed-addr b r.curr k ∙ r.relinked.same_addr k;
      same_length = λ k. freed-length b r.curr k ∙ r.relinked.same_length k;
    }
  where
    hit_self : (k : ℕ) → hit k k ≡ 1
    hit_self k = ground arith

    roomy :
        (m n : Nodes) (k : ℕ)
        → (n k).addr ≡ (m k).addr
        → (n k).length ≡ (m k).length
        → HasRoom (m k)
        → HasRoom (n k)
    roomy m n k same same' h = rw (same, same') h

-- Ranges in order begin at different addresses.
IsOrdered-above :
    (m : Nodes) (bound k : ℕ) (xs : List ℕ)
    → IsOrdered m bound xs
    → ((j : ℕ) → 0 < count j xs → HasRoom (m j))
    → 0 < count k xs
    → bound ≤ low_addr (m k)
IsOrdered-above m bound k [] o room on = absurd (omega (arith, on))
IsOrdered-above m bound k (x ∷ xs) (le, rest) room on = elim (ℕ_discrete k x) [
  | yes here ↦ omega (arith, le, ap (λ (j : ℕ). (m j).addr) here)
  | no other ↦ omega (
    arith,
    le,
    room x (ground arith),
    IsOrdered-above m (high_addr (m x)) k xs rest (λ j h. room j (omega (arith, h)))
        (ground (arith, on, other)),
  )
]

IsOrdered-unique :
    (m : Nodes) (bound j k : ℕ) (xs : List ℕ)
    → IsOrdered m bound xs
    → ((i : ℕ) → 0 < count i xs → HasRoom (m i))
    → 0 < count j xs
    → 0 < count k xs
    → (m j).addr ≡ (m k).addr
    → j ≡ k
IsOrdered-unique m bound j k [] o room on on' same = absurd (omega (arith, on))
IsOrdered-unique m bound j k (x ∷ xs) (le, rest) room on on' same =
    let above = λ (i : ℕ) (h : 0 < count i xs).
      IsOrdered-above m (high_addr (m x)) i xs rest (λ n q. room n (omega (arith, q))) h in
    let here = room x (ground arith) in
    elim (ℕ_discrete j x) [
      | yes e ↦ elim (ℕ_discrete k x) [
        | yes e' ↦ e ∙ sym e'
        | no other' ↦ absurd (
            omega (
              arith,
              above k (ground (arith, on', other')),
              here,
              same,
              ap (λ (i : ℕ). (m i).addr) e,
            ))
      ]
      | no other ↦ elim (ℕ_discrete k x) [
        | yes e' ↦ absurd (
            omega (
              arith,
              above j (ground (arith, on, other)),
              here,
              same,
              ap (λ (i : ℕ). (m i).addr) e',
            ))
        | no other' ↦
            IsOrdered-unique m (high_addr (m x)) j k xs rest (λ i h. room i (omega (arith, h)))
              (ground (arith, on, other)) (ground (arith, on', other')) same
      ]
    ]

-- `threadscan_alloc_munmap` of what `threadscan_alloc_mmap` gave, with ranges in use before, and where
-- `munmap` succeeds: both return, and `munmap` gets exactly the range that was asked for; afterwards it is out of use, every range that was in use is
-- so still and the same, and only the block may be in use besides.
pub mmap_munmap :
    (munmap : ℕ → ℕ → ℕ) (fuel : ℕ) (a : Allocator) (p addr size : ℕ) (used free : List ℕ)
    → length used + 2 ≤ fuel
    → 0 < length used
    → IsAllocator a used free
    → IsFreeBlock a p used
    → IsFreeRange a p addr size used
    → ((addr len : ℕ) → munmap addr len ≡ 0)
    → (b : Allocator) × (c : Allocator) × (used' : List ℕ) × (free' : List ℕ) × (alloc_mmap fuel a p
          addr size
        ≡ some b)
      × (alloc_munmap munmap fuel b addr ≡ some ((addr, size), c))
      × IsAllocator c used' free'
      × IsKept a.nodes c.nodes used used'
      × ((k : ℕ) → 0 < count k used' → (0 < count k used) ⊎ (k ≡ p))
mmap_munmap munmap fuel a p addr size used free enough some_used v block range ok =
    let m =
      alloc_mmap-IsMapped fuel a p addr size used free (omega (arith, enough)) v block range in
    let u =
      alloc_munmap-IsUnmapped munmap fuel m.out addr m.meta m.used' m.free'
        (omega (arith, m.few, enough)) (omega (arith, m.more, some_used)) m.valid m.on m.at_addr
        ok in
    let same : u.meta ≡ m.meta =
      IsOrdered-unique m.out.nodes 0 u.meta m.meta m.used' m.valid.ordered m.valid.room u.on m.on
        (u.at ∙ sym m.at_addr) in
    let len : (m.out.nodes u.meta).length ≡ size =
      ap (λ (k : ℕ). (m.out.nodes k).length) same ∙ m.at_length in
    let gone : count u.meta used ≡ 0 = ap (λ (k : ℕ). count k used) same ∙ m.fresh in
    (
      m.out,
      u.out,
      u.used',
      u.meta ∷ m.free',
      m.returns,
      u.returns ∙ ap (λ (n : ℕ). some ((addr, n), u.out)) len,
      u.valid,
      record {
        still =
            λ k on. ground (arith, m.kept.still k on, u.left k, other_node k u.meta used gone on);
        same_addr = λ k on. u.same_addr k ∙ m.kept.same_addr k on;
        same_length = λ k on. u.same_length k ∙ m.kept.same_length k on;
      },
      λ k on. elim (m.only k (omega (arith, on, u.left k))) [
        | inl old ↦ inl old
        | inr (inl at_p) ↦ inr at_p
        | inr (inr at_meta) ↦ absurd (ground (arith, m.valid.once k, u.left k, on, at_meta, same))
      ],
    )
  where
    other_node : (k c : ℕ) (xs : List ℕ) → count c xs ≡ 0 → 0 < count k xs → k ≢ c
    other_node k c xs out on e = omega (arith, out, on, ap (λ (j : ℕ). count j xs) e)
