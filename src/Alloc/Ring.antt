-- ===== src/Alloc/Ring.antt =====
-- Doubly linked segments and rings: joining, splitting, turning, and the writes that link and unlink.
use thread_scan.Base.{
  ℕ, ◌≤◌, ◌<◌, ◌≡◌, ◌≢◌, refl, ap, sym, ◌∙◌, subst, List, [], ◌∷◌, ◌++◌, arith, count, ℕ_discrete,
}
use thread_scan.Alloc.{Metadata, Nodes, write, set_next, set_prev}

-- From `p`, the links lead through `xs` to `q`; the node before `p` is `b`, the last one is `l`.
abbrev pub IsSegment : Nodes → ℕ → ℕ → List ℕ → ℕ → ℕ → Type 0
IsSegment m b p [] q l = (p ≡ q) × (b ≡ l)
IsSegment m b p (x ∷ xs) q l =
    (p ≡ x) × (0 < x) × ((m x).prev ≡ b) × IsSegment m x (m x).next xs q l

pub IsSegment-append :
    (m : Nodes) (b p c r q l : ℕ) (xs ys : List ℕ)
    → IsSegment m b p xs r c
    → IsSegment m c r ys q l
    → IsSegment m b p (xs ++ ys) q l
IsSegment-append m b p c r q l [] ys (e, e') s = rw (e, e') s
IsSegment-append m b p c r q l (x ∷ xs) ys (e, pos, back, rest) s =
    (e, pos, back, IsSegment-append m x (m x).next c r q l xs ys rest s)

pub IsSegment-split :
    (m : Nodes) (b p q l : ℕ) (xs ys : List ℕ)
    → IsSegment m b p (xs ++ ys) q l
    → (r : ℕ) × (c : ℕ) × IsSegment m b p xs r c × IsSegment m c r ys q l
IsSegment-split m b p q l [] ys s = (p, b, (refl, refl), s)
IsSegment-split m b p q l (x ∷ xs) ys (e, pos, back, rest) =
    let (r, c, s, t) = IsSegment-split m x (m x).next q l xs ys rest in (r, c, (e, pos, back, s), t)

-- A ring: the segment leads back to its own first node, behind its last.
abbrev pub IsRing : Nodes → ℕ → ℕ → List ℕ → Type 0
IsRing m l h xs = IsSegment m l h xs h l

-- A ring can be entered at any of its nodes.
pub IsRing-turn :
    (m : Nodes) (l h : ℕ) (xs ys : List ℕ)
    → IsRing m l h (xs ++ ys)
    → (r : ℕ) × (c : ℕ) × IsRing m c r (ys ++ xs)
IsRing-turn m l h xs ys s =
    let (r, c, front, back) = IsSegment-split m l h h l xs ys s in
    (r, c, IsSegment-append m c r l h r c ys xs back front)

-- Stores that agree on the links of a segment's nodes.
pub IsSegment-frame :
    (m n : Nodes) (b p q l : ℕ) (xs : List ℕ)
    → ((x : ℕ) → 0 < count x xs → ((n x).next ≡ (m x).next) × ((n x).prev ≡ (m x).prev))
    → IsSegment m b p xs q l
    → IsSegment n b p xs q l
IsSegment-frame m n b p q l [] same s = s
IsSegment-frame m n b p q l (x ∷ xs) same (e, pos, back, rest) =
    let (here, here') = same x (ground arith) in
    (
      e,
      pos,
      here' ∙ back,
      subst (λ (k : ℕ). IsSegment n x k xs q l) (sym here)
          (IsSegment-frame m n x (m x).next q l xs (λ y h. same y (omega arith)) rest),
    )

-- The last node of a segment.
pub IsSegment-last :
    (m : Nodes) (b p q l x : ℕ) (xs : List ℕ)
    → IsSegment m b p (x ∷ xs) q l
    → (0 < l) × (0 < count l (x ∷ xs)) × ((m l).next ≡ q)
IsSegment-last m b p q l x [] (_, pos, _, (e, e')) =
    (omega arith, ground (arith, e'), ap (λ (k : ℕ). (m k).next) (sym e') ∙ e)
IsSegment-last m b p q l x (y ∷ ys) (_, _, _, rest) =
    let (pos, on, link) = IsSegment-last m x (m x).next q l y ys rest in (pos, omega arith, link)

-- Where nothing of a segment is written.
pub IsSegment-write :
    (m : Nodes) (b p q l y : ℕ) (d : Metadata) (xs : List ℕ)
    → count y xs ≡ 0
    → IsSegment m b p xs q l
    → IsSegment (write m y d) b p xs q l
IsSegment-write m b p q l y d xs out s =
    IsSegment-frame m (write m y d) b p q l xs
      (λ x h. elim (ℕ_discrete y x) [
        | yes here ↦ absurd (omega (arith, ap (λ (k : ℕ). count k xs) here))
        | no other ↦ (ground arith, ground arith)
      ])
      s

-- The link of the last node, written.
pub IsSegment-set_next :
    (m : Nodes) (b p q l y x : ℕ) (xs : List ℕ)
    → ((k : ℕ) → count k (x ∷ xs) ≤ 1)
    → IsSegment m b p (x ∷ xs) q l
    → IsSegment (set_next m l y) b p (x ∷ xs) y l
IsSegment-set_next m b p q l y x [] once (e, pos, back, (e', same)) =
    (e, pos, ground (arith, back, same), (ground (arith, same), same))
IsSegment-set_next m b p q l y x (z ∷ zs) once (e, pos, back, rest) =
    let (l_pos, l_on, _) = IsSegment-last m x (m x).next q l z zs rest in
    let single : count x (z ∷ zs) ≡ 0 = ground (arith, once x) in
    let other : l ≢ x =
      λ here. omega (arith, single, l_on, ap (λ (k : ℕ). count k (z ∷ zs)) here) in
    let next : (set_next m l y x).next ≡ (m x).next = ground (arith, other) in
    (
      e,
      pos,
      ground (arith, other, back),
      subst (λ (k : ℕ). IsSegment (set_next m l y) x k (z ∷ zs) y l) (sym next)
          (IsSegment-set_next m x (m x).next q l y z zs (λ k. omega (arith, once k)) rest),
    )

-- The link back of the first node, written.
pub IsSegment-set_prev :
    (m : Nodes) (b p q l y x : ℕ) (xs : List ℕ)
    → ((k : ℕ) → count k (x ∷ xs) ≤ 1)
    → IsSegment m b p (x ∷ xs) q l
    → IsSegment (set_prev m x y) y p (x ∷ xs) q l
IsSegment-set_prev m b p q l y x xs once (e, pos, back, rest) =
    let next : (set_prev m x y x).next ≡ (m x).next = ground arith in
    (
      e,
      pos,
      ground arith,
      subst (λ (k : ℕ). IsSegment (set_prev m x y) x k xs q l) (sym next)
          (IsSegment-write m x (m x).next q l x (record (m x) { prev = y }) xs
            (ground (arith, once x)) rest),
    )

-- What links leave alone: the ranges of all nodes, and whatever is not on the list.
pub record IsRelinked (m n : Nodes) (xs : List ℕ) : Type 0 where
  pub same_addr : (x : ℕ) → (n x).addr ≡ (m x).addr
  pub same_length : (x : ℕ) → (n x).length ≡ (m x).length
  pub same_node : (x : ℕ) → count x xs ≡ 0 → n x ≡ m x

pub IsRelinked-trans :
    (m n o : Nodes) (xs : List ℕ) → IsRelinked m n xs → IsRelinked n o xs → IsRelinked m o xs
IsRelinked-trans m n o xs r s = record {
  same_addr = λ x. s.same_addr x ∙ r.same_addr x;
  same_length = λ x. s.same_length x ∙ r.same_length x;
  same_node = λ x h. s.same_node x h ∙ r.same_node x h;
}

pub IsRelinked-write :
    (m : Nodes) (y : ℕ) (d : Metadata) (xs : List ℕ)
    → 0 < count y xs
    → d.addr ≡ (m y).addr
    → d.length ≡ (m y).length
    → IsRelinked m (write m y d) xs
IsRelinked-write m y d xs on e e' = record {
  same_addr = λ x. elim (ℕ_discrete y x) [
    | yes here ↦ ground (arith, e, ap (λ (k : ℕ). (m k).addr) here)
    | no other ↦ ground arith
  ];
  same_length = λ x. elim (ℕ_discrete y x) [
    | yes here ↦ ground (arith, e', ap (λ (k : ℕ). (m k).length) here)
    | no other ↦ ground arith
  ];
  same_node = λ x h. elim (ℕ_discrete y x) [
    | yes here ↦ absurd (omega (arith, h, on, ap (λ (k : ℕ). count k xs) here))
    | no other ↦ ground arith
  ];
}
