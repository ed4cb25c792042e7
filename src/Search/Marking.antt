-- ===== src/Search/Marking.antt =====
-- The array of tracked addresses while it is searched: each word is an address, or the address with
-- its low bit set.
use thread_scan.Base.{
  ℕ, ◌+◌, ◌%◌, ◌≤◌, ◌<◌, ◌≡◌, ◌⊎◌, inl, inr, refl, ap, List, [], ◌∷◌, some, arith, length,
  length-set, cell, cell-set, set, get_elem?-eq-cell, ◌∙◌, ℕ_discrete,
}
use thread_scan.Base.Pointer.{ptr_mask, with_low_bit, with_low_bit-aligned, with_low_bit-odd}
use thread_scan.Search.{set_low_bit}

-- The `n` addresses of `base` are aligned and in strictly ascending order, but that 0 may stand more
-- than once.
pub record IsTracked (n : ℕ) (base : List ℕ) : Type 0 where
  pub some_addr : 0 < n
  pub aligned : (i : ℕ) → i < n → cell base i % 4 ≡ 0
  pub ordered :
      (i j : ℕ)
      → i < j
      → j < n
      → (cell base i < cell base j) ⊎ ((cell base i ≡ 0) × (cell base j ≡ 0))

-- `addrs` holds the addresses of `base`, some of them marked.
pub record IsMarking (n : ℕ) (base addrs : List ℕ) : Type 0 where
  pub fits : n ≤ length addrs
  pub each : (i : ℕ) → i < n → (cell addrs i ≡ cell base i) ⊎ (cell addrs i ≡ cell base i + 1)

-- Whether a word of memory refers to the address: it is the address, up to its two low bits.
abbrev pub Refers : ℕ → List ℕ → Type 0
Refers p [] = ⊥
Refers p (w ∷ mem) = (ptr_mask w ≡ p) ⊎ Refers p mem

-- A search of `mem` turned `before` into `after`: an address other than 0 is marked exactly if it was
-- marked or `mem` refers to it; marks are kept, and words behind the addresses are not touched.
pub record Searched (n : ℕ) (base mem before after : List ℕ) : Type 0 where
  pub marking : IsMarking n base after
  pub same_length : length after ≡ length before
  pub untouched : (i : ℕ) → n ≤ i → cell after i ≡ cell before i
  pub kept : (i : ℕ) → i < n → cell before i ≡ cell base i + 1 → cell after i ≡ cell base i + 1
  pub marked :
      (i : ℕ) → i < n → 0 < cell base i → Refers (cell base i) mem → cell after i ≡ cell base i + 1
  pub only :
      (i : ℕ)
      → i < n
      → cell after i ≡ cell base i + 1
      → (cell before i ≡ cell base i + 1) ⊎ Refers (cell base i) mem

module _ (n : ℕ) (base : List ℕ) (tr : IsTracked n base) where
  pub ordered_le : (i j : ℕ) → i ≤ j → j < n → cell base i ≤ cell base j
  ordered_le i j le h = elim (ℕ_discrete i j) [
    | yes same ↦ omega (arith, ap (cell base) same)
    | no ne ↦ omega (arith, tr.ordered i j (omega arith) h)
  ]

  -- An address other than 0 stands once.
  pub distinct : (i j : ℕ) → i < n → j < n → cell base i ≡ cell base j → 0 < cell base i → i ≡ j
  distinct i j hi hj e pos = ground (arith, tr.ordered i j, tr.ordered j i)

  -- A mark is no aligned address.
  pub address_of_aligned :
      (addrs : List ℕ) (i cmp : ℕ)
      → IsMarking n base addrs
      → i < n
      → cmp % 4 ≡ 0
      → cell addrs i ≡ cmp
      → cell base i ≡ cmp
  address_of_aligned addrs i cmp m h al e = omega (arith, m.each i h, tr.aligned i h, e)

  pub Searched-nothing : (addrs : List ℕ) → IsMarking n base addrs → Searched n base [] addrs addrs
  Searched-nothing addrs m = record {
    marking = m;
    same_length = refl;
    untouched = λ i h. refl;
    kept = λ i h e. e;
    marked = λ i h p r. absurd r;
    only = λ i h e. inl e;
  }

  -- A word changes nothing, if the addresses that it refers to are marked.
  pub Searched-same :
      (w : ℕ) (addrs : List ℕ)
      → IsMarking n base addrs
      → ((i : ℕ)
          → i < n
          → 0 < cell base i
          → ptr_mask w ≡ cell base i
          → cell addrs i ≡ cell base i + 1)
      → Searched n base (w ∷ []) addrs addrs
  Searched-same w addrs m h = record {
    marking = m;
    same_length = refl;
    untouched = λ i p. refl;
    kept = λ i p e. e;
    marked = λ i p pos r. elim r [ inl e ↦ h i p pos e | inr no_more ↦ absurd no_more ];
    only = λ i p e. inl e;
  }

  pub set_low_bit-eq-set :
      (addrs : List ℕ) (k : ℕ)
      → IsMarking n base addrs
      → k < n
      → set_low_bit addrs k ≡ some (set addrs k (cell base k + 1))
  unfolding set_low_bit
  set_low_bit-eq-set addrs k m h =
      rw (get_elem?-eq-cell addrs k (omega (arith, m.fits))) (ap (λ v. some (set addrs k v)) bit)
    where
      bit : with_low_bit (cell addrs k) ≡ cell base k + 1
      bit = elim (m.each k h) [
        | inl e ↦ ap with_low_bit e ∙ with_low_bit-aligned (cell base k) (tr.aligned k h)
        | inr e ↦
            ap with_low_bit e ∙ with_low_bit-odd (cell base k + 1) (omega (arith, tr.aligned k h))
      ]

  -- Setting the low bit of the address that the word refers to is the search of that word.
  pub Searched-set :
      (w : ℕ) (addrs : List ℕ) (k : ℕ)
      → IsMarking n base addrs
      → k < n
      → ptr_mask w ≡ cell base k
      → Searched n base (w ∷ []) addrs (set addrs k (cell base k + 1))
  Searched-set w addrs k m h same =
      let in_a : k < length addrs = omega (arith, m.fits) in
      let v : ℕ = cell base k + 1 in
      record {
        marking = record {
          fits = omega (arith, m.fits, length-set addrs k v);
          each = λ i p. elim (ℕ_discrete k i) [
            | yes here ↦ inr (ground (arith, cell-set addrs k i v))
            | no other ↦ ground (arith, cell-set addrs k i v, m.each i p)
          ];
        };
        same_length = length-set addrs k v;
        untouched = λ i p. ground (arith, cell-set addrs k i v);
        kept = λ i p e. ground (arith, cell-set addrs k i v);
        marked = λ i p pos r. elim r [
          | inl e ↦ ground (arith, cell-set addrs k i v, distinct i k p h)
          | inr no_more ↦ absurd no_more
        ];
        only = λ i p e. elim (ℕ_discrete k i) [
          | yes here ↦ inr (inl (same ∙ ap (cell base) here))
          | no other ↦ inl (ground (arith, cell-set addrs k i v))
        ];
      }

  -- Searches one after the other.
  pub Searched-cons :
      (w : ℕ) (mem a b c : List ℕ)
      → Searched n base (w ∷ []) a b
      → Searched n base mem b c
      → Searched n base (w ∷ mem) a c
  Searched-cons w mem a b c s r = record {
    marking = r.marking;
    same_length = r.same_length ∙ s.same_length;
    untouched = λ i p. r.untouched i p ∙ s.untouched i p;
    kept = λ i p e. r.kept i p (s.kept i p e);
    marked = λ i p pos ref. elim ref [
      | inl e ↦ r.kept i p (s.marked i p pos (inl e))
      | inr later ↦ r.marked i p pos later
    ];
    only = λ i p e. elim (r.only i p e) [
      | inl before ↦ elim (s.only i p before) [
        | inl old ↦ inl old
        | inr (inl now) ↦ inr (inl now)
        | inr (inr no_more) ↦ absurd no_more
      ]
      | inr later ↦ inr (inr later)
    ];
  }
