-- ===== src/Search/Scan.antt =====
-- `do_search` marks exactly the tracked addresses that the memory refers to.
use thread_scan.Base.{
  ℕ, ◌+◌, ◌-◌, ◌%◌, ◌^◌, ◌<◌, ◌≡◌, ◌⊎◌, refl, ap, List, [], ◌∷◌, ◌++◌, some, arith, cell, set,
  get_elem?-eq-cell, ℕ_discrete, dec_lt,
}
use thread_scan.Base.Pointer.{ptr_mask, ptr_mask-aligned}
use thread_scan.Search.{Tracked, search_word, search_words, do_search}
use thread_scan.Search.Marking.{
  IsTracked, IsMarking, Searched, Searched-nothing, Searched-same, Searched-set, Searched-cons,
  set_low_bit-eq-set, ordered_le,
}
use thread_scan.Search.Level.{IsScanMap, mark_found-Searched}

-- Every word is one of 64 bits.
abbrev pub AreWords : List ℕ → Type 0
AreWords [] = Unit {0}
AreWords (w ∷ mem) = (w < 2 ^ 64) × AreWords mem

pub append-AreWords : (xs ys : List ℕ) → AreWords xs → AreWords ys → AreWords (xs ++ ys)
append-AreWords [] ys h h' = h'
append-AreWords (x ∷ xs) ys h h' = (h.0, append-AreWords xs ys h.1 h')

-- An end that was read before the loop: the address, or its mark, which then stays.
abbrev pub IsEnd : List ℕ → List ℕ → ℕ → ℕ → Type 0
IsEnd base addrs i end =
    (end ≡ cell base i) ⊎ ((end ≡ cell base i + 1) × (cell addrs i ≡ cell base i + 1))

module _ (base : List ℕ) (t : Tracked) (tr : IsTracked t.n_addrs base)
    (sm : IsScanMap t.n_addrs base t.n_scan_map t.scan_map) where
  abbrev pub last : ℕ
  last = t.n_addrs - 1

  -- What one word does, on each branch of the loop's body.
  pub search_word-Searched :
      (w : ℕ) (addrs : List ℕ)
      → w < 2 ^ 64
      → IsMarking t.n_addrs base addrs
      → IsEnd base addrs 0 t.min_ptr
      → IsEnd base addrs last t.max_ptr
      → (after : List ℕ) × (search_word t w addrs ≡ some after)
        × Searched t.n_addrs base (w ∷ []) addrs after
  unfolding search_word
  search_word-Searched w addrs hw m lo hi = elim (dec_lt cmp t.min_ptr) [
    | yes below ↦ (
      addrs,
      ground arith,
      Searched-same n base tr w addrs m λ i p pos e.
          let first : i ≡ 0 = is_first i p pos e below in
          ground (arith, first, ap (cell addrs) first, ap (cell base) first),
    )
    | no ge ↦ elim (dec_lt t.max_ptr cmp) [
      | yes above ↦ (
        addrs,
        ground arith,
        Searched-same n base tr w addrs m λ i p pos e.
            absurd (omega (arith, ordered_le n base tr i last (omega arith) (omega arith))),
      )
      | no le ↦ elim (ℕ_discrete t.min_ptr cmp) [
        | yes at_min ↦
            let e : cmp ≡ cell base 0 = omega (arith, tr.aligned 0 tr.some_addr, al) in
            (
              set addrs 0 (cell base 0 + 1),
              ground (arith, set_low_bit-eq-set n base tr addrs 0 m tr.some_addr),
              Searched-set n base tr w addrs 0 m tr.some_addr e,
            )
        | no not_min ↦ elim (ℕ_discrete t.max_ptr cmp) [
          | yes at_max ↦
              let e : cmp ≡ cell base last = omega (arith, tr.aligned last last_in, al) in
              (
                set addrs last (cell base last + 1),
                ground (arith, set_low_bit-eq-set n base tr addrs last m last_in),
                Searched-set n base tr w addrs last m last_in e,
              )
          | no not_max ↦
              let (after, returns, s) =
                mark_found-Searched base t tr sm w addrs m al (omega arith) in
              (after, ground (arith, returns), s)
        ]
      ]
    ]
  ]
    where
      n : ℕ
      n = t.n_addrs

      cmp : ℕ
      cmp = ptr_mask w

      al : cmp % 4 ≡ 0
      al = ptr_mask-aligned w hw

      last_in : last < n
      last_in = omega (arith, tr.some_addr)

      -- An address below an end that was read marked is the first one.
      is_first : (i : ℕ) → i < n → 0 < cell base i → cmp ≡ cell base i → cmp < t.min_ptr → i ≡ 0
      is_first i p pos e below = elim (ℕ_discrete i 0) [
        | yes z ↦ z
        | no ne ↦
            absurd (omega (arith, tr.ordered 0 i (omega arith) p, al, tr.aligned 0 tr.some_addr))
      ]

  -- An end stays an end, since marks stay.
  pub IsEnd-Searched :
      (i end : ℕ) (mem addrs after : List ℕ)
      → i < t.n_addrs
      → Searched t.n_addrs base mem addrs after
      → IsEnd base addrs i end
      → IsEnd base after i end
  IsEnd-Searched i end mem addrs after h s e = ground (arith, s.kept i h)

  search_words-Searched :
      (mem addrs : List ℕ)
      → AreWords mem
      → IsMarking t.n_addrs base addrs
      → IsEnd base addrs 0 t.min_ptr
      → IsEnd base addrs last t.max_ptr
      → (after : List ℕ) × (search_words t mem addrs ≡ some after)
        × Searched t.n_addrs base mem addrs after
  unfolding search_words
  search_words-Searched [] addrs hw m lo hi =
      (addrs, refl, Searched-nothing t.n_addrs base tr addrs m)
  search_words-Searched (w ∷ mem) addrs hw m lo hi =
      let (mid, e, s) = search_word-Searched w addrs hw.0 m lo hi in
      let (after, e', r) =
        search_words-Searched mem mid hw.1 s.marking
          (IsEnd-Searched 0 t.min_ptr (w ∷ []) addrs mid tr.some_addr s lo)
          (IsEnd-Searched last t.max_ptr (w ∷ []) addrs mid (omega (arith, tr.some_addr)) s hi) in
      (after, rw e e', Searched-cons t.n_addrs base tr w mem addrs mid after s r)

-- With aligned addresses in ascending order (0 may repeat), some of them marked, and the scan map of
-- their pages, `do_search` over 64-bit words returns, reads nothing out of range, and leaves an
-- address other than 0 marked exactly if it was marked before or some word of the memory is that
-- address up to its two low bits; no mark is lost, and nothing behind the addresses changes.
pub do_search-Searched :
    (n pages : ℕ) (base map mem addrs : List ℕ)
    → IsTracked n base
    → IsScanMap n base pages map
    → IsMarking n base addrs
    → AreWords mem
    → (after : List ℕ) × (do_search n pages map mem addrs ≡ some after)
      × Searched n base mem addrs after
unfolding do_search
do_search-Searched n pages base map mem addrs tr sm m hw =
    let last_in : n - 1 < n = omega (arith, tr.some_addr) in
    let t : Tracked = record {
      n_addrs = n;
      n_scan_map = pages;
      scan_map = map;
      min_ptr = cell addrs 0;
      max_ptr = cell addrs (n - 1);
    } in
    let (after, e, s) =
      search_words-Searched base t tr sm mem addrs hw m (end 0 tr.some_addr)
        (end (n - 1) last_in) in
    (
      after,
      rw
          (
            get_elem?-eq-cell addrs 0 (omega (arith, m.fits, tr.some_addr)),
            get_elem?-eq-cell addrs (n - 1) (omega (arith, m.fits)),
          )
          e,
      s,
    )
  where
    end : (i : ℕ) → i < n → IsEnd base addrs i (cell addrs i)
    end i h = ground (arith, m.each i h)
