-- ===== src/Alloc/Link.antt =====
-- What `link_before` and `unlink` make of a ring.
use thread_scan.Base.{
  ℕ, ◌≤◌, ◌<◌, ◌≡◌, ◌≢◌, refl, ap, ap₂, sym, ◌∙◌, subst, List, [], ◌∷◌, ◌++◌, some, arith, ◌==◌,
  count, if◌then◌else◌,
}
use thread_scan.Alloc.{Nodes, set_next, set_prev, link_before, Allocator, unlink}
use thread_scan.Alloc.Ring.{
  IsSegment, IsRing, IsSegment-append, IsSegment-last, IsSegment-write, IsSegment-set_next,
  IsSegment-set_prev, IsRelinked, IsRelinked-trans, IsRelinked-write,
}

-- The four writes, where the node in front is known.
link_before-eq :
    (m : Nodes) (h meta l : ℕ)
    → (m h).prev ≡ l
    → 0 < l
    → meta ≢ h
    → link_before m h meta
      ≡ some (set_prev (set_next (set_next (set_prev m meta l) meta h) l meta) h meta)
unfolding link_before
link_before-eq m h meta l back pos other = rw back (ground (arith, other, back))

-- Linking in front of the first node of a ring puts the new one last.
pub link_before-IsRing :
    (m : Nodes) (l h meta : ℕ) (ys : List ℕ)
    → IsRing m l h (h ∷ ys)
    → 0 < meta
    → ((k : ℕ) → count k (meta ∷ h ∷ ys) ≤ 1)
    → (n : Nodes) × (link_before m h meta ≡ some n)
      × IsRing n meta h ((h ∷ ys) ++ (meta ∷ []))
      × IsRelinked m n (meta ∷ h ∷ ys)
link_before-IsRing m l h meta ys ring meta_pos once =
    let xs : List ℕ = h ∷ ys in
    let (l_pos, l_on, _) = IsSegment-last m l h h l h ys ring in
    let new : count meta xs ≡ 0 = ground (arith, once meta) in
    let apart : meta ≢ h = ground (arith, new) in
    let apart_l : meta ≢ l = λ e. omega (arith, new, l_on, ap (λ (k : ℕ). count k xs) e) in
    let m1 : Nodes = set_prev m meta l in
    let m2 : Nodes = set_next m1 meta h in
    let m3 : Nodes = set_next m2 l meta in
    let s2 =
      IsSegment-write m1 l h h l meta (record (m1 meta) { next = h }) xs new
        (IsSegment-write m l h h l meta (record (m meta) { prev = l }) xs new ring) in
    let s3 = IsSegment-set_next m2 l h h l meta h ys (λ k. omega (arith, once k)) s2 in
    let s4 = IsSegment-set_prev m3 l h meta l meta h ys (λ k. omega (arith, once k)) s3 in
    let on_meta : 0 < count meta (meta ∷ xs) = ground arith in
    let on_h : 0 < count h (meta ∷ xs) = ground arith in
    (
      set_prev m3 h meta,
      link_before-eq m h meta l ring.2 l_pos apart,
      IsSegment-append (set_prev m3 h meta) meta h l meta h meta xs (meta ∷ []) s4
          (refl, meta_pos, ground (arith, apart, apart_l), (ground (arith, apart, apart_l), refl)),
      IsRelinked-trans m m1 (set_prev m3 h meta) (meta ∷ xs)
          (IsRelinked-write m meta (record (m meta) { prev = l }) (meta ∷ xs) on_meta refl refl)
          (IsRelinked-trans m1 m2 (set_prev m3 h meta) (meta ∷ xs)
            (IsRelinked-write m1 meta (record (m1 meta) { next = h }) (meta ∷ xs) on_meta refl refl)
            (IsRelinked-trans m2 m3 (set_prev m3 h meta) (meta ∷ xs)
              (IsRelinked-write m2 l (record (m2 l) { next = meta }) (meta ∷ xs)
                (omega (arith, l_on)) refl refl)
              (IsRelinked-write m3 h (record (m3 h) { prev = meta }) (meta ∷ xs) on_h refl refl))),
    )

-- The writes that take the first node `h` out, where its neighbours are known.
unlink-eq :
    (a : Allocator) (h y l : ℕ)
    → (a.nodes h).next ≡ y
    → (a.nodes h).prev ≡ l
    → h ≢ y
    → h ≢ l
    → unlink a h ≡ record a {
      nodes = set_next (set_prev (set_next (set_prev a.nodes y l) l y) h 0) h 0;
      alloc_list = if h == a.alloc_list then y else a.alloc_list;
    }
unfolding unlink
unlink-eq a h y l next back other other' =
    let m1 : Nodes = set_prev a.nodes y l in
    let e1 : (m1 h).prev ≡ l = ground (arith, other, back) in
    let e2 : (m1 h).next ≡ y = ground (arith, other, next) in
    let e3 : (set_next m1 l y h).next ≡ y = ground (arith, other', e2) in
    let finish : Nodes → ℕ → Allocator = λ m2 z. record a {
      nodes = set_next (set_prev m2 h 0) h 0;
      alloc_list = if h == a.alloc_list then z else a.alloc_list;
    } in
    let second : Nodes → ℕ → ℕ → Allocator =
      λ n before after. finish (set_next n before after) (set_next n before after h).next in
    let first : ℕ → ℕ → Allocator = λ before after.
      second (set_prev a.nodes after before) (set_prev a.nodes after before h).prev
        (set_prev a.nodes after before h).next in
    ap₂ first back next ∙ (ap₂ (second m1) e1 e2 ∙ ap (finish (set_next m1 l y)) e3)

-- Taking out the first node of a ring of two or more.
pub unlink-IsRing :
    (a : Allocator) (l h y : ℕ) (ys : List ℕ)
    → IsRing a.nodes l h (h ∷ y ∷ ys)
    → ((k : ℕ) → count k (h ∷ y ∷ ys) ≤ 1)
    → IsRing (unlink a h).nodes l y (y ∷ ys)
      × IsRelinked a.nodes (unlink a h).nodes (h ∷ y ∷ ys)
      × ((unlink a h).alloc_list ≡ (if h == a.alloc_list then y else a.alloc_list))
      × ((unlink a h).free_list ≡ a.free_list)
unlink-IsRing a l h y ys ring once =
    let m : Nodes = a.nodes in
    let xs : List ℕ = y ∷ ys in
    let rest : IsSegment m h (m h).next xs h l = ring.3 in
    let next : (m h).next ≡ y = rest.0 in
    let (l_pos, l_on, _) = IsSegment-last m h (m h).next h l y ys rest in
    let single : count h xs ≡ 0 = ground (arith, once h) in
    let apart : h ≢ y = ground (arith, single) in
    let apart_l : h ≢ l = λ e. omega (arith, single, l_on, ap (λ (k : ℕ). count k xs) e) in
    let m1 : Nodes = set_prev m y l in
    let m2 : Nodes = set_next m1 l y in
    let m3 : Nodes = set_prev m2 h 0 in
    let m4 : Nodes = set_next m3 h 0 in
    let s1 = IsSegment-set_prev m h (m h).next h l l y ys (λ k. omega (arith, once k)) rest in
    let s2 = IsSegment-set_next m1 l (m h).next h l y y ys (λ k. omega (arith, once k)) s1 in
    let s4 =
      IsSegment-write m3 l (m h).next y l h (record (m3 h) { next = 0 }) xs single
        (IsSegment-write m2 l (m h).next y l h (record (m2 h) { prev = 0 }) xs single s2) in
    let step = unlink-eq a h y l next ring.2 apart apart_l in
    let on_h : 0 < count h (h ∷ xs) = ground arith in
    (
      subst (λ (b : Allocator). IsRing b.nodes l y xs) (sym step)
          (subst (λ (k : ℕ). IsSegment m4 l k xs y l) next s4),
      subst (λ (b : Allocator). IsRelinked m b.nodes (h ∷ xs)) (sym step)
          (IsRelinked-trans m m1 m4 (h ∷ xs)
            (IsRelinked-write m y (record (m y) { prev = l }) (h ∷ xs) (ground arith) refl refl)
            (IsRelinked-trans m1 m2 m4 (h ∷ xs)
              (IsRelinked-write m1 l (record (m1 l) { next = y }) (h ∷ xs) (omega (arith, l_on))
                refl refl)
              (IsRelinked-trans m2 m3 m4 (h ∷ xs)
                (IsRelinked-write m2 h (record (m2 h) { prev = 0 }) (h ∷ xs) on_h refl refl)
                (IsRelinked-write m3 h (record (m3 h) { next = 0 }) (h ∷ xs) on_h refl refl)))),
      ap (λ (b : Allocator). b.alloc_list) step,
      ap (λ (b : Allocator). b.free_list) step,
    )
