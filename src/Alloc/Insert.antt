-- ===== src/Alloc/Insert.antt =====
-- `metadata_do_insert` keeps the nodes in use in a ring, in the order of their ranges.
use thread_scan.Base.{
  ℕ, ◌+◌, ◌≤◌, ◌<◌, ◌≡◌, ◌≢◌, refl, ap, sym, ◌∙◌, subst, List, [], ◌∷◌, ◌++◌, some, arith, ◌==◌,
  leb, count, hit, length, count-append, append-nil, append_assoc, if◌then◌else◌, true, false, ◌⊎◌,
  inl, inr, Bool-cases, ==_iff,
}
use thread_scan.Alloc.{
  Nodes, set_next, set_prev, low_addr, high_addr, Allocator, link_before, insert_walk, do_insert,
}
use thread_scan.Alloc.Ring.{
  IsRing, IsRing-turn, IsSegment-last, IsRelinked, IsRelinked-trans, IsRelinked-write,
}
use thread_scan.Alloc.Link.{link_before-IsRing}
use thread_scan.Alloc.Walk.{
  IsOrdered, IsOrdered-relinked, IsOrdered-insert, IsOrdered-snoc, insert_walk_finds,
}

-- The nodes that `alloc_list` leads to.
abbrev pub IsUsed : Nodes → ℕ → List ℕ → Type 0
IsUsed m h [] = h ≡ 0
IsUsed m h (x ∷ xs) = (h ≡ x) × (0 < x) × (l : ℕ) × IsRing m l x (x ∷ xs)

-- Each range of the list lies below `low` or at or above `high`.
abbrev pub IsClear : Nodes → ℕ → ℕ → List ℕ → Type 0
IsClear m low high xs = (k : ℕ) → 0 < count k xs → (high_addr (m k) ≤ low) ⊎ (high ≤ low_addr (m k))

pub count-middle :
    (k c : ℕ) (pre post : List ℕ) → count k (pre ++ (c ∷ post)) ≡ hit k c + count k (pre ++ post)
count-middle k c pre post = omega (arith, count-append k pre (c ∷ post), count-append k pre post)

-- A ring entered at a node in the middle.
pub IsRing-at :
    (m : Nodes) (l h c : ℕ) (pre post : List ℕ)
    → IsRing m l h (pre ++ (c ∷ post))
    → (l' : ℕ) × IsRing m l' c (c ∷ (post ++ pre))
IsRing-at m l h c pre post ring =
    let (r, l', turned) = IsRing-turn m l h pre (c ∷ post) ring in
    (l', subst (λ (k : ℕ). IsRing m l' k (c ∷ (post ++ pre))) turned.0 turned)

-- A new node linked in front of a node in the middle.
link_middle :
    (m : Nodes) (l h c meta : ℕ) (pre post : List ℕ)
    → IsRing m l h (pre ++ (c ∷ post))
    → 0 < meta
    → ((k : ℕ) → count k (meta ∷ (pre ++ (c ∷ post))) ≤ 1)
    → (n : Nodes) × (r : ℕ) × (l' : ℕ) × (link_before m c meta ≡ some n)
      × IsRing n l' r (pre ++ (meta ∷ c ∷ post))
      × IsRelinked m n (meta ∷ (pre ++ (c ∷ post)))
link_middle m l h c meta pre post ring pos once =
    let (l1, ring1) = IsRing-at m l h c pre post ring in
    let same : (k : ℕ) → count k (c ∷ (post ++ pre)) ≡ count k (pre ++ (c ∷ post)) =
      λ k. omega (arith, count-append k post pre, count-append k pre (c ∷ post)) in
    let (n, ret, ring2, kept) =
      link_before-IsRing m l1 c meta (post ++ pre) ring1 pos (λ k. omega (arith, once k, same k)) in
    let (r, l', ring3) =
      IsRing-turn n meta c (c ∷ post) (pre ++ (meta ∷ []))
        (subst (λ ws. IsRing n meta c (c ∷ ws)) (append_assoc post pre (meta ∷ [])) ring2) in
    (
      n,
      r,
      l',
      ret,
      subst (λ ws. IsRing n l' r ws) (append_assoc pre (meta ∷ []) (c ∷ post)) ring3,
      record {
        same_addr = kept.same_addr;
        same_length = kept.same_length;
        same_node = λ x h. kept.same_node x (omega (arith, h, same x));
      },
    )

-- The head after the insertion.
IsUsed-middle :
    (n : Nodes) (l r h c meta : ℕ) (pre post : List ℕ)
    → IsRing n l r (pre ++ (meta ∷ c ∷ post))
    → ((k : ℕ) → count k (meta ∷ (pre ++ (c ∷ post))) ≤ 1)
    → (z : ℕ) (zs : List ℕ) → pre ++ (c ∷ post) ≡ z ∷ zs
    → h ≡ z
    → IsUsed n (if c == h then meta else h) (pre ++ (meta ∷ c ∷ post))
IsUsed-middle n l r h c meta [] post ring once z zs split same =
    let e : (c == h) ≡ true = (==_iff c h).1 (ground (arith, split, same)) in
    rw e (refl, ring.1, l, subst (λ (k : ℕ). IsRing n l k (meta ∷ c ∷ post)) ring.0 ring)
IsUsed-middle n l r h c meta (y ∷ pre) post ring once z zs split same =
    let here : h ≡ y = ground (arith, split, same) in
    let other : c ≢ y = λ e. ground (arith, once y, count-middle y c pre post, e) in
    let e : (c == h) ≡ false = ground (arith, other, here) in
    rw e (
      here,
      ring.1,
      l,
      subst (λ (k : ℕ). IsRing n l k (y ∷ (pre ++ (meta ∷ c ∷ post)))) ring.0 ring,
    )

-- The three branches of `metadata_do_insert`.
do_insert-empty :
    (fuel : ℕ) (a : Allocator) (meta : ℕ)
    → a.alloc_list ≡ 0
    → do_insert fuel a meta
      ≡ some
          (record a { nodes = set_next (set_prev a.nodes meta meta) meta meta; alloc_list = meta })
unfolding do_insert
do_insert-empty fuel a meta e = rw ((==_iff a.alloc_list 0).1 e) refl

module _ (fuel : ℕ) (a : Allocator) (meta : ℕ) (some_used : (a.alloc_list == 0) ≡ false)
    (some_last : ((a.nodes a.alloc_list).prev == 0) ≡ false) where
  do_insert-last :
      (n : Nodes)
      → leb (high_addr (a.nodes (a.nodes a.alloc_list).prev)) (low_addr (a.nodes meta)) ≡ true
      → link_before a.nodes a.alloc_list meta ≡ some n
      → do_insert fuel a meta ≡ some (record a { nodes = n })
  unfolding do_insert
  do_insert-last n behind linked = rw (some_used, some_last, behind, linked) refl

  do_insert-walk :
      (n : Nodes) (c : ℕ)
      → leb (high_addr (a.nodes (a.nodes a.alloc_list).prev)) (low_addr (a.nodes meta)) ≡ false
      → insert_walk fuel a.nodes (high_addr (a.nodes meta)) a.alloc_list ≡ some c
      → link_before a.nodes c meta ≡ some n
      → do_insert fuel a meta
        ≡ some
            (record a { nodes = n; alloc_list = if c == a.alloc_list then meta else a.alloc_list })
  unfolding do_insert
  do_insert-walk n c before found linked = rw (some_used, some_last, before, found, linked) refl

-- What an insertion gives: the same nodes in their order, with the new one among them.
pub record IsInserted (fuel : ℕ) (a : Allocator) (meta : ℕ) (xs : List ℕ) : Type 0 where
  pub out : Allocator
  pub pre : List ℕ
  pub post : List ℕ
  pub split : xs ≡ pre ++ post
  pub returns : do_insert fuel a meta ≡ some out
  pub used : IsUsed out.nodes out.alloc_list (pre ++ (meta ∷ post))
  pub ordered : IsOrdered out.nodes 0 (pre ++ (meta ∷ post))
  pub relinked : IsRelinked a.nodes out.nodes (meta ∷ xs)
  pub same_free : out.free_list ≡ a.free_list

-- With the ranges in use in a ring, in ascending order and without overlaps, and a node that is not NULL, not on
-- the ring, and whose range is not empty, does not wrap around and overlaps no range in use:
-- `metadata_do_insert` returns within as many rounds as there are ranges. The ring then holds the same nodes
-- in the same order and the new one between two of them, in ascending order without overlaps, from the
-- head that the allocator keeps. No node but these has a link changed, no node has its range changed, and
-- the pool of free nodes is as before.
pub do_insert-IsInserted :
    (fuel : ℕ) (a : Allocator) (meta : ℕ) (xs : List ℕ)
    → length xs ≤ fuel
    → IsUsed a.nodes a.alloc_list xs
    → IsOrdered a.nodes 0 xs
    → 0 < meta
    → ((k : ℕ) → count k (meta ∷ xs) ≤ 1)
    → IsClear a.nodes (low_addr (a.nodes meta)) (high_addr (a.nodes meta)) xs
    → low_addr (a.nodes meta) < high_addr (a.nodes meta)
    → IsInserted fuel a meta xs
do_insert-IsInserted fuel a meta [] enough used ordered pos once clear room =
    let m1 : Nodes = set_prev a.nodes meta meta in
    record {
      out = record a { nodes = set_next m1 meta meta; alloc_list = meta };
      pre = [];
      post = [];
      split = refl;
      returns = do_insert-empty fuel a meta used;
      used = (refl, pos, meta, (refl, pos, ground arith, (ground arith, refl)));
      ordered = (omega arith, tt);
      relinked =
          IsRelinked-trans a.nodes m1 (set_next m1 meta meta) (meta ∷ [])
            (IsRelinked-write a.nodes meta (record (a.nodes meta) { prev = meta }) (meta ∷ [])
              (ground arith) refl refl)
            (IsRelinked-write m1 meta (record (m1 meta) { next = meta }) (meta ∷ []) (ground arith)
              refl refl);
      same_free = refl;
    }
do_insert-IsInserted fuel a meta (x ∷ xs) enough (e, x_pos, l, ring) ordered pos once clear room =
    let h : ℕ = a.alloc_list in
    let (l_pos, l_on, _) = IsSegment-last a.nodes l x x l x xs ring in
    let back : (a.nodes h).prev ≡ l = ap (λ (k : ℕ). (a.nodes k).prev) e ∙ ring.2 in
    let z : (h == 0) ≡ false = ground (arith, e) in
    let z' : ((a.nodes h).prev == 0) ≡ false = ground (arith, back) in
    elim (Bool-cases (leb (high_addr (a.nodes (a.nodes h).prev)) (low_addr (a.nodes meta)))) [
      | inl behind ↦
          let (n, linked, ring', kept) = link_before-IsRing a.nodes l x meta xs ring pos once in
          let le : high_addr (a.nodes l) ≤ low_addr (a.nodes meta) =
            leb→le (high_addr (a.nodes l)) (low_addr (a.nodes meta)) (
              ap (λ (k : ℕ). leb (high_addr (a.nodes k)) (low_addr (a.nodes meta))) (sym back)
              ∙ behind) in
          record {
            out = record a { nodes = n };
            pre = x ∷ xs;
            post = [];
            split = sym (append-nil (x ∷ xs));
            returns =
                do_insert-last fuel a meta z z' n behind
                  (ap (λ (k : ℕ). link_before a.nodes k meta) e ∙ linked);
            used = (e, x_pos, meta, ring');
            ordered =
                IsOrdered-relinked a.nodes n (meta ∷ x ∷ xs) 0 ((x ∷ xs) ++ (meta ∷ [])) kept
                  (IsOrdered-snoc a.nodes meta 0 l x x l x xs ring ordered le);
            relinked = kept;
            same_free = refl;
          }
      | inr before ↦
          let lt : low_addr (a.nodes meta) < high_addr (a.nodes l) =
            leb→lt (high_addr (a.nodes l)) (low_addr (a.nodes meta)) (
              ap (λ (k : ℕ). leb (high_addr (a.nodes k)) (low_addr (a.nodes meta))) (sym back)
              ∙ before) in
          let last : high_addr (a.nodes meta) ≤ low_addr (a.nodes l) = elim (clear l l_on) [
            | inl le ↦ absurd (omega (arith, le, lt))
            | inr le ↦ le
          ] in
          let (c, pre, post, split, found, below, above) =
            insert_walk_finds fuel a.nodes (high_addr (a.nodes meta)) l x x l x xs enough ring
              last in
          let once' : (k : ℕ) → count k (meta ∷ (pre ++ (c ∷ post))) ≤ 1 =
            λ k. subst (λ zs. count k (meta ∷ zs) ≤ 1) split (once k) in
          let (n, r, l', linked, ring', kept) =
            link_middle a.nodes l x c meta pre post (subst (λ zs. IsRing a.nodes l x zs) split ring)
              pos once' in
          let kept' : IsRelinked a.nodes n (meta ∷ x ∷ xs) =
            subst (λ zs. IsRelinked a.nodes n (meta ∷ zs)) (sym split) kept in
          record {
            out = record a { nodes = n; alloc_list = if c == h then meta else h };
            pre = pre;
            post = c ∷ post;
            split = split;
            returns =
                do_insert-walk fuel a meta z z' n c before
                  (ap (insert_walk fuel a.nodes (high_addr (a.nodes meta))) e ∙ found) linked;
            used = IsUsed-middle n l' r h c meta pre post ring' once' x xs (sym split) e;
            ordered =
                IsOrdered-relinked a.nodes n (meta ∷ x ∷ xs) 0 (pre ++ (meta ∷ c ∷ post)) kept' (
                  IsOrdered-insert a.nodes meta 0 c pre post
                    (subst (λ zs. IsOrdered a.nodes 0 zs) split ordered) (omega arith)
                    (λ k on.
                      elim (clear k
                        (subst (λ zs. 0 < count k zs) (sym split) (on_front k c pre post on))) [
                          | inl le ↦ le
                          | inr le ↦ absurd (omega (arith, le, below k on, room))
                        ])
                    above);
            relinked = kept';
            same_free = refl;
          }
    ]
  where
    on_front : (k c : ℕ) (pre post : List ℕ) → 0 < count k pre → 0 < count k (pre ++ (c ∷ post))
    on_front k c pre post on = omega (arith, count-append k pre (c ∷ post))

    leb→le : (u v : ℕ) → leb u v ≡ true → u ≤ v
    leb→le u v h = ground arith

    leb→lt : (u v : ℕ) → leb u v ≡ false → v < u
    leb→lt u v h = ground arith
