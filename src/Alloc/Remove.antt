-- ===== src/Alloc/Remove.antt =====
-- `metadata_remove` takes one node out of the ring.
use thread_scan.Base.{
  ℕ, suc, ◌≤◌, ◌<◌, ◌≡◌, ◌≢◌, refl, ap, sym, ◌∙◌, subst, List, [], ◌∷◌, ◌++◌, some, arith, ◌==◌,
  count, hit, length, count-append, append-nil, if◌then◌else◌, true, false, ==_iff,
}
use thread_scan.Alloc.{Nodes, low_addr, high_addr, Allocator, remove_walk, unlink, metadata_remove}
use thread_scan.Alloc.Ring.{IsRing, IsRing-turn, IsRelinked}
use thread_scan.Alloc.Link.{unlink-IsRing}
use thread_scan.Alloc.Walk.{IsOrdered, IsOrdered-relinked, IsOrdered-remove, remove_walk_finds}
use thread_scan.Alloc.Insert.{IsUsed, IsRing-at, count-middle}

-- The head after `c` is taken out: the node behind it, if `c` was the head.
head_removed :
    (n : Nodes) (al c l1 y : ℕ) (pre post ys : List ℕ)
    → (r : ℕ) × (l' : ℕ) × IsRing n l' r (pre ++ post)
    → IsRing n l1 y (post ++ pre)
    → ((k : ℕ) → count k (pre ++ (c ∷ post)) ≤ 1)
    → post ++ pre ≡ y ∷ ys
    → (z : ℕ) (zs : List ℕ) → pre ++ (c ∷ post) ≡ z ∷ zs
    → al ≡ z
    → IsUsed n (if c == al then y else al) (pre ++ post)
head_removed n al c l1 y [] [] ys turned ring once others z zs split head =
    absurd (ground (arith, others))
head_removed n al c l1 y [] (w ∷ post) ys turned ring once others z zs split head =
    let t : (c == al) ≡ true = (==_iff c al).1 (ground (arith, split, head)) in
    let e : y ≡ w = ground (arith, others) in
    rw t (
      e,
      ring.1,
      l1,
      subst (λ ws. IsRing n l1 w (w ∷ ws)) (append-nil post)
          (subst (λ (k : ℕ). IsRing n l1 k (w ∷ (post ++ []))) e ring),
    )
head_removed n al c l1 y (x ∷ pre) post ys (r, l', ring') ring once others z zs split head =
    let here : al ≡ x = ground (arith, split, head) in
    let apart : c ≢ x = λ e. ground (arith, once x, count-middle x c pre post, e) in
    let t : (c == al) ≡ false = ground (arith, apart, here) in
    rw t (here, ring'.1, l', subst (λ (k : ℕ). IsRing n l' k (x ∷ (pre ++ post))) ring'.0 ring')

-- A ring and its head, after the node `c` is unlinked.
unlink_middle :
    (a : Allocator) (l h c : ℕ) (pre post : List ℕ)
    → IsRing a.nodes l h (pre ++ (c ∷ post))
    → ((k : ℕ) → count k (pre ++ (c ∷ post)) ≤ 1)
    → (y : ℕ) (ys : List ℕ) → post ++ pre ≡ y ∷ ys
    → (z : ℕ) (zs : List ℕ) → pre ++ (c ∷ post) ≡ z ∷ zs
    → a.alloc_list ≡ z
    → IsUsed (unlink a c).nodes (unlink a c).alloc_list (pre ++ post)
      × IsRelinked a.nodes (unlink a c).nodes (pre ++ (c ∷ post))
      × ((unlink a c).free_list ≡ a.free_list)
unlink_middle a l h c pre post ring once y ys others z zs split head =
    let (l1, ring1) = IsRing-at a.nodes l h c pre post ring in
    let same : (k : ℕ) → count k (c ∷ y ∷ ys) ≡ count k (pre ++ (c ∷ post)) = λ k. omega (
      arith,
      count-middle k c pre post,
      count-append k pre post,
      count-append k post pre,
      ap (λ zs. count k zs) others,
    ) in
    let (ring2, kept, first, free) =
      unlink-IsRing a l1 c y ys (subst (λ zs. IsRing a.nodes l1 c (c ∷ zs)) others ring1)
        (λ k. omega (arith, once k, same k)) in
    let ring3 : IsRing (unlink a c).nodes l1 y (post ++ pre) =
      subst (λ zs. IsRing (unlink a c).nodes l1 y zs) (sym others) ring2 in
    (
      subst (λ (k : ℕ). IsUsed (unlink a c).nodes k (pre ++ post)) (sym first)
          (head_removed (unlink a c).nodes a.alloc_list c l1 y pre post ys
            (IsRing-turn (unlink a c).nodes l1 y post pre ring3) ring3 once others z zs split head),
      record {
        same_addr = kept.same_addr;
        same_length = kept.same_length;
        same_node = λ x h. kept.same_node x (omega (arith, h, same x));
      },
      free,
    )

-- What a removal gives: the same nodes in their order, but for the one whose range begins at `addr`.
pub record IsRemoved (fuel : ℕ) (a : Allocator) (addr : ℕ) (xs : List ℕ) : Type 0 where
  pub out : Allocator
  pub curr : ℕ
  pub pre : List ℕ
  pub post : List ℕ
  pub split : xs ≡ pre ++ (curr ∷ post)
  pub at : (a.nodes curr).addr ≡ addr
  pub returns : metadata_remove fuel a addr ≡ some (curr, out)
  pub used : IsUsed out.nodes out.alloc_list (pre ++ post)
  pub ordered : IsOrdered out.nodes 0 (pre ++ post)
  pub relinked : IsRelinked a.nodes out.nodes xs
  pub same_free : out.free_list ≡ a.free_list

two_left :
    (pre post : List ℕ)
    → 1 ≤ length (pre ++ post)
    → (y : ℕ) × (ys : List ℕ) × (post ++ pre ≡ y ∷ ys)
two_left [] [] h = absurd (omega (arith, h))
two_left (x ∷ pre) [] h = (x, pre, refl)
two_left pre (y ∷ post) h = (y, post ++ pre, refl)

pub length-middle :
    (c : ℕ) (pre post : List ℕ) → length (pre ++ (c ∷ post)) ≡ suc (length (pre ++ post))
length-middle c [] post = refl
length-middle c (x ∷ pre) post = ap suc (length-middle c pre post)

metadata_remove-eq :
    (fuel : ℕ) (a : Allocator) (addr c : ℕ)
    → remove_walk fuel a.nodes addr a.alloc_list ≡ some c
    → metadata_remove fuel a addr ≡ some (c, unlink a c)
unfolding metadata_remove
metadata_remove-eq fuel a addr c found = rw found refl

-- `metadata_remove` of a range in use that is not the only one.
pub metadata_remove-IsRemoved :
    (fuel : ℕ) (a : Allocator) (addr t : ℕ) (xs : List ℕ)
    → length xs ≤ fuel
    → 2 ≤ length xs
    → IsUsed a.nodes a.alloc_list xs
    → IsOrdered a.nodes 0 xs
    → ((k : ℕ) → count k xs ≤ 1)
    → ((k : ℕ) → 0 < count k xs → low_addr (a.nodes k) ≤ high_addr (a.nodes k))
    → 0 < count t xs
    → (a.nodes t).addr ≡ addr
    → IsRemoved fuel a addr xs
metadata_remove-IsRemoved fuel a addr t [] enough two used ordered once room on at =
    absurd (omega (arith, on))
metadata_remove-IsRemoved fuel a addr t (x ∷ xs) enough two (e, pos, l, ring) ordered once room on
      at =
    let (c, pre, post, split, found, at') =
      remove_walk_finds fuel a.nodes addr l x x l t (x ∷ xs) enough ring on at in
    let once' : (k : ℕ) → count k (pre ++ (c ∷ post)) ≤ 1 =
      λ k. subst (λ zs. count k zs ≤ 1) split (once k) in
    let (y, ys, others) =
      two_left pre post (omega (arith, two, length-middle c pre post, ap length split)) in
    let (used', kept, free) =
      unlink_middle a l x c pre post (subst (λ zs. IsRing a.nodes l x zs) split ring) once' y ys
        others x xs (sym split) e in
    let kept' : IsRelinked a.nodes (unlink a c).nodes (x ∷ xs) =
      subst (λ zs. IsRelinked a.nodes (unlink a c).nodes zs) (sym split) kept in
    let c_on : 0 < count c (x ∷ xs) =
      subst (λ zs. 0 < count c zs) (sym split)
        (omega (arith, count-middle c c pre post, hit_self c)) in
    record {
      out = unlink a c;
      curr = c;
      pre = pre;
      post = post;
      split = split;
      at = at';
      returns = metadata_remove-eq fuel a addr c (ap (remove_walk fuel a.nodes addr) e ∙ found);
      used = used';
      ordered = IsOrdered-relinked a.nodes (unlink a c).nodes (x ∷ xs) 0 (pre ++ post) kept' (
          IsOrdered-remove a.nodes 0 c pre post (subst (λ zs. IsOrdered a.nodes 0 zs) split ordered)
            (room c c_on));
      relinked = kept';
      same_free = free;
    }
  where
    hit_self : (k : ℕ) → hit k k ≡ 1
    hit_self k = ground arith
