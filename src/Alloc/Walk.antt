-- ===== src/Alloc/Walk.antt =====
-- The order of the ranges, and the walks along the nodes in use.
use thread_scan.Base.{
  ℕ, zero, suc, ◌≤◌, ◌<◌, ◌≡◌, ◌≢◌, refl, ap, sym, ◌∙◌, subst, List, [], ◌∷◌, ◌++◌, some, arith,
  ◌==◌, count, length, ℕ_discrete, dec_lt, true, false, inl, inr, Bool-cases, ==_iff,
}
use thread_scan.Alloc.{Nodes, low_addr, high_addr, insert_walk, remove_walk}
use thread_scan.Alloc.Ring.{IsSegment, IsRelinked}

-- The ranges lie one after the other, from `bound` on.
abbrev pub IsOrdered : Nodes → ℕ → List ℕ → Type 0
IsOrdered m bound [] = Unit
IsOrdered m bound (x ∷ xs) = (bound ≤ low_addr (m x)) × IsOrdered m (high_addr (m x)) xs

pub IsOrdered-relinked :
    (m n : Nodes) (ys : List ℕ) (bound : ℕ) (xs : List ℕ)
    → IsRelinked m n ys
    → IsOrdered m bound xs
    → IsOrdered n bound xs
IsOrdered-relinked m n ys bound [] same o = o
IsOrdered-relinked m n ys bound (x ∷ xs) same (le, rest) =
    rw (same.same_addr x, same.same_length x)
      (le, IsOrdered-relinked m n ys (high_addr (m x)) xs same rest)

-- A range that fits between two.
pub IsOrdered-insert :
    (m : Nodes) (meta bound c : ℕ) (pre post : List ℕ)
    → IsOrdered m bound (pre ++ (c ∷ post))
    → bound ≤ low_addr (m meta)
    → ((k : ℕ) → 0 < count k pre → high_addr (m k) ≤ low_addr (m meta))
    → high_addr (m meta) ≤ low_addr (m c)
    → IsOrdered m bound (pre ++ (meta ∷ c ∷ post))
IsOrdered-insert m meta bound c [] post (le, rest) fits below above = (fits, (above, rest))
IsOrdered-insert m meta bound c (x ∷ pre) post (le, rest) fits below above = (
  le,
  IsOrdered-insert m meta (high_addr (m x)) c pre post rest (below x (ground arith))
      (λ k h. below k (omega arith)) above,
)

-- A range behind the last.
pub IsOrdered-snoc :
    (m : Nodes) (meta bound b p q l x : ℕ) (xs : List ℕ)
    → IsSegment m b p (x ∷ xs) q l
    → IsOrdered m bound (x ∷ xs)
    → high_addr (m l) ≤ low_addr (m meta)
    → IsOrdered m bound ((x ∷ xs) ++ (meta ∷ []))
IsOrdered-snoc m meta bound b p q l x [] (_, _, _, (_, e)) (le, rest) behind =
    (le, (subst (λ (k : ℕ). high_addr (m k) ≤ low_addr (m meta)) (sym e) behind, tt))
IsOrdered-snoc m meta bound b p q l x (y ∷ ys) (_, _, _, s) (le, rest) behind =
    (le, IsOrdered-snoc m meta (high_addr (m x)) x (m x).next q l y ys s rest behind)

-- Without one of the ranges, if none is empty or wraps.
pub IsOrdered-remove :
    (m : Nodes) (bound c : ℕ) (pre post : List ℕ)
    → IsOrdered m bound (pre ++ (c ∷ post))
    → low_addr (m c) ≤ high_addr (m c)
    → IsOrdered m bound (pre ++ post)
IsOrdered-remove m bound c [] [] o room = tt
IsOrdered-remove m bound c [] (y ∷ ys) (le, (le', rest)) room = (omega (arith, le, le', room), rest)
IsOrdered-remove m bound c (x ∷ pre) post (le, rest) room =
    (le, IsOrdered-remove m (high_addr (m x)) c pre post rest room)

-- One round of the walk for an insertion.
insert_walk-stop :
    (fuel : ℕ) (m : Nodes) (high curr : ℕ)
    → 0 < curr
    → high ≤ low_addr (m curr)
    → insert_walk (suc fuel) m high curr ≡ some curr
unfolding insert_walk
insert_walk-stop fuel m high curr pos le = ground arith

insert_walk-on :
    (fuel : ℕ) (m : Nodes) (high curr : ℕ)
    → 0 < curr
    → low_addr (m curr) < high
    → insert_walk (suc fuel) m high curr ≡ insert_walk fuel m high (m curr).next
unfolding insert_walk
insert_walk-on fuel m high curr pos lt = ground arith

-- The walk stops at the first range that begins at or behind `high`; the last one does.
pub insert_walk_finds :
    (fuel : ℕ) (m : Nodes) (high b p q l x : ℕ) (xs : List ℕ)
    → length (x ∷ xs) ≤ fuel
    → IsSegment m b p (x ∷ xs) q l
    → high ≤ low_addr (m l)
    → (c : ℕ) × (pre : List ℕ) × (post : List ℕ) × (x ∷ xs ≡ pre ++ (c ∷ post))
      × (insert_walk fuel m high p ≡ some c)
      × ((k : ℕ) → 0 < count k pre → low_addr (m k) < high)
      × (high ≤ low_addr (m c))
insert_walk_finds zero m high b p q l x xs enough s last = absurd (omega arith)
insert_walk_finds (suc fuel) m high b p q l x [] enough (e, pos, _, (_, e')) last =
    let le : high ≤ low_addr (m x) = subst (λ (k : ℕ). high ≤ low_addr (m k)) (sym e') last in
    (
      x,
      [],
      [],
      refl,
      ap (insert_walk (suc fuel) m high) e ∙ insert_walk-stop fuel m high x pos le,
      λ k h. absurd (omega (arith, h)),
      le,
    )
insert_walk_finds (suc fuel) m high b p q l x (y ∷ ys) enough (e, pos, back, rest) last =
    elim (dec_lt (low_addr (m x)) high) [
      | yes lt ↦
          let (c, pre, post, split, found, below, above) =
            insert_walk_finds fuel m high x (m x).next q l y ys (omega arith) rest last in
          (
            c,
            x ∷ pre,
            post,
            ap (λ zs. x ∷ zs) split,
            ap (insert_walk (suc fuel) m high) e ∙ (insert_walk-on fuel m high x pos lt ∙ found),
            λ k h. elim (ℕ_discrete k x) [
              | yes here ↦ subst (λ (z : ℕ). low_addr (m z) < high) (sym here) lt
              | no other ↦ below k (ground (arith, h))
            ],
            above,
          )
      | no ge ↦
          let le : high ≤ low_addr (m x) = omega arith in
          (
            x,
            [],
            y ∷ ys,
            refl,
            ap (insert_walk (suc fuel) m high) e ∙ insert_walk-stop fuel m high x pos le,
            λ k h. absurd (omega (arith, h)),
            le,
          )
    ]

-- One round of the walk for a removal.
remove_walk-stop :
    (fuel : ℕ) (m : Nodes) (addr curr : ℕ)
    → 0 < curr
    → ((m curr).addr == addr) ≡ true
    → remove_walk (suc fuel) m addr curr ≡ some curr
unfolding remove_walk
remove_walk-stop fuel m addr curr pos e = ground (arith, e)

remove_walk-on :
    (fuel : ℕ) (m : Nodes) (addr curr : ℕ)
    → 0 < curr
    → ((m curr).addr == addr) ≡ false
    → remove_walk (suc fuel) m addr curr ≡ remove_walk fuel m addr (m curr).next
unfolding remove_walk
remove_walk-on fuel m addr curr pos e = ground (arith, e)

-- The walk stops at the first node whose range begins at `addr`, if there is one.
pub remove_walk_finds :
    (fuel : ℕ) (m : Nodes) (addr b p q l t : ℕ) (xs : List ℕ)
    → length xs ≤ fuel
    → IsSegment m b p xs q l
    → 0 < count t xs
    → (m t).addr ≡ addr
    → (c : ℕ) × (pre : List ℕ) × (post : List ℕ) × (xs ≡ pre ++ (c ∷ post))
      × (remove_walk fuel m addr p ≡ some c)
      × ((m c).addr ≡ addr)
remove_walk_finds fuel m addr b p q l t [] enough s on at = absurd (omega (arith, on))
remove_walk_finds zero m addr b p q l t (x ∷ xs) enough s on at = absurd (omega arith)
remove_walk_finds (suc fuel) m addr b p q l t (x ∷ xs) enough (e, pos, back, rest) on at =
    elim (Bool-cases ((m x).addr == addr)) [
      | inl here ↦ (
        x,
        [],
        xs,
        refl,
        ap (remove_walk (suc fuel) m addr) e ∙ remove_walk-stop fuel m addr x pos here,
        (==_iff (m x).addr addr).0 here,
      )
      | inr later ↦
          let other : t ≢ x = λ same. ground (arith, later, at, ap (λ (k : ℕ). (m k).addr) same) in
          let (c, pre, post, split, found, at') =
            remove_walk_finds fuel m addr x (m x).next q l t xs (omega arith) rest
              (ground (arith, on, other)) at in
          (
            c,
            x ∷ pre,
            post,
            ap (λ zs. x ∷ zs) split,
            ap (remove_walk (suc fuel) m addr) e ∙ (remove_walk-on fuel m addr x pos later ∙ found),
            at',
          )
    ]
