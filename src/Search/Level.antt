-- ===== src/Search/Level.antt =====
-- The two-level search of `do_search`: the page in the scan map, then the address on the page.
use thread_scan.Base.{
  ℕ, ◌+◌, ◌-◌, ◌*◌, ◌%◌, ◌≤◌, ◌<◌, ◌≡◌, ◌≢◌, inl, inr, ap, sym, ◌∙◌, List, [], ◌∷◌, some, arith,
  length, cell, set, get_elem?-eq-cell, ◌==◌, if◌then◌else◌, ℕ_discrete, dec_lt,
}
use thread_scan.Base.Pointer.{ptr_mask}
use thread_scan.Search.{page_words, Tracked, mark_found}
use thread_scan.Search.Find.{IsSortedAt, IsFound, binary_search-Finds}
use thread_scan.Search.Marking.{
  IsTracked, IsMarking, Searched, Searched-same, Searched-set, set_low_bit-eq-set, ordered_le,
  address_of_aligned,
}

-- The scan map has the first address of each page of `base`.
pub record IsScanMap (n : ℕ) (base : List ℕ) (pages : ℕ) (map : List ℕ) : Type 0 where
  pub some_page : 0 < pages
  pub fits : pages ≤ length map
  pub last_page : (pages - 1) * 512 < n
  pub all_pages : n ≤ pages * 512
  pub entry : (k : ℕ) → k < pages → cell map k ≡ cell base (k * 512)

-- The first index behind page `v`.
abbrev pub page_top : Tracked → ℕ → ℕ
page_top t v = if v == t.n_scan_map - 1 then t.n_addrs else (v + 1) * page_words

module _ (base : List ℕ) (t : Tracked) (tr : IsTracked t.n_addrs base)
    (sm : IsScanMap t.n_addrs base t.n_scan_map t.scan_map) where
  abbrev n : ℕ
  n = t.n_addrs

  page_start : (k : ℕ) → k < t.n_scan_map → k * 512 < n
  page_start k h = omega (arith, sm.last_page)

  map-IsSortedAt : (cmp : ℕ) → IsSortedAt cmp 0 t.n_scan_map t.scan_map
  map-IsSortedAt cmp i j l ij h lt = omega (
    arith,
    sm.entry i (omega arith),
    sm.entry j h,
    ordered_le n base tr (i * 512) (j * 512) (omega arith) (page_start j h),
  )

  addrs-IsSortedAt :
      (cmp lo hi : ℕ) (addrs : List ℕ)
      → IsMarking n base addrs
      → 0 < cmp
      → hi ≤ n
      → IsSortedAt cmp lo hi addrs
  addrs-IsSortedAt cmp lo hi addrs m pos fits i j l ij h lt =
      omega (arith, m.each i (omega arith), m.each j (omega arith), tr.ordered i j ij (omega arith))

  page_top_bounds : (v : ℕ) → v < t.n_scan_map → (v * 512 < page_top t v) × (page_top t v ≤ n)
  page_top_bounds v h = ground (arith, sm.last_page)

  -- The address is on the page that the search of the map gives.
  on_page :
      (cmp v i : ℕ)
      → cell base 0 < cmp
      → IsFound cmp 0 t.n_scan_map t.scan_map v
      → i < n
      → cell base i ≡ cmp
      → (v * 512 ≤ i) × (i < page_top t v)
  on_page cmp v i above f h e = (
    elim (dec_lt i (v * 512)) [
      | yes early ↦ absurd (omega (arith, tr.ordered i (v * 512) early start, at_start))
      | no ok ↦ omega arith
    ],
    elim (ℕ_discrete v (t.n_scan_map - 1)) [
      | yes is_last ↦ ground (arith, is_last)
      | no not_last ↦ elim (dec_lt i ((v + 1) * 512)) [
        | yes ok ↦ ground arith
        | no late ↦
            let next : v + 1 < t.n_scan_map = omega (arith, f.below_hi) in
            absurd (
              omega (arith, ordered_le n base tr ((v + 1) * 512) i (omega arith) h, next_page next))
      ]
    ],
  )
    where
      start : v * 512 < n
      start = page_start v f.below_hi

      at_start : cell base (v * 512) ≤ cmp
      at_start = elim f.place [
        | inl same ↦ omega (arith, sm.entry v f.below_hi)
        | inr (inl (below, later)) ↦ omega (arith, sm.entry v f.below_hi)
        | inr (inr (first, lt)) ↦ omega (arith, sm.entry 0 sm.some_page)
      ]

      next_page : v + 1 < t.n_scan_map → cmp < cell base ((v + 1) * 512)
      next_page next = elim f.place [
        | inl same ↦ omega (
          arith,
          sm.entry v f.below_hi,
          tr.ordered (v * 512) ((v + 1) * 512) (omega arith) (page_start (v + 1) next),
        )
        | inr (inl (below, later)) ↦
            omega (arith, sm.entry (v + 1) next, later (v + 1) (omega arith) next)
        | inr (inr (first, lt)) ↦ absurd (omega (arith, sm.entry 0 sm.some_page))
      ]

  -- What the search of the page does not give is not there unmarked.
  not_at_place :
      (cmp lo hi r i : ℕ) (addrs : List ℕ)
      → IsMarking n base addrs
      → 0 < cmp
      → cmp % 4 ≡ 0
      → hi ≤ n
      → IsFound cmp lo hi addrs r
      → cell addrs r ≢ cmp
      → lo ≤ i
      → i < hi
      → cell base i ≡ cmp
      → cell addrs i ≡ cell base i + 1
  not_at_place cmp lo hi r i addrs m pos al fits f ne li ih e = elim (m.each i (omega arith)) [
    | inr marked ↦ marked
    | inl plain ↦ absurd (elim f.place [
      | inl same ↦ ne same
      | inr (inl (below, later)) ↦ elim (dec_lt r i) [
        | yes behind ↦ omega (arith, later i behind ih)
        | no before ↦ elim (ℕ_discrete i r) [
          | yes here ↦ ne (ap (cell addrs) (sym here) ∙ (plain ∙ e))
          | no other ↦ omega (
            arith,
            f.below_hi,
            tr.ordered i r (omega arith) (omega (arith, f.below_hi)),
            m.each r (omega (arith, f.below_hi)),
          )
        ]
      ]
      | inr (inr (first, lt)) ↦ elim (ℕ_discrete i lo) [
        | yes here ↦ omega (arith, ap (cell addrs) here)
        | no other ↦ omega (
          arith,
          addrs-IsSortedAt cmp lo hi addrs m pos fits lo i (omega arith) (omega arith) ih lt,
        )
      ]
    ])
  ]

  -- An address strictly between the ends is marked, if it is tracked, and nothing else is.
  pub mark_found-Searched :
      (w : ℕ) (addrs : List ℕ)
      → IsMarking n base addrs
      → ptr_mask w % 4 ≡ 0
      → cell base 0 < ptr_mask w
      → (after : List ℕ) × (mark_found t (ptr_mask w) addrs ≡ some after)
        × Searched n base (w ∷ []) addrs after
  unfolding mark_found
  mark_found-Searched w addrs m al above =
      let cmp : ℕ = ptr_mask w in
      let level1 =
        binary_search-Finds cmp 0 t.n_scan_map t.scan_map sm.some_page sm.fits
          (map-IsSortedAt cmp) in
      let v : ℕ = level1.r in
      let page = page_top_bounds v level1.found.below_hi in
      let level2 =
        binary_search-Finds cmp (v * 512) (page_top t v) addrs page.0
          (omega (arith, page.1, m.fits))
          (addrs-IsSortedAt cmp (v * 512) (page_top t v) addrs m (omega arith) page.1) in
      let loc : ℕ = level2.r in
      let h : loc < n = omega (arith, level2.found.below_hi, page.1) in
      elim (ℕ_discrete (cell addrs loc) cmp) [
        | yes same ↦
            let e : cmp ≡ cell base loc =
              sym (address_of_aligned n base tr addrs loc cmp m h al same) in
            (
              set addrs loc (cell base loc + 1),
              rw level1.returns (
                  rw level2.returns (
                    ground (
                      arith,
                      get_elem?-eq-cell addrs loc (omega (arith, m.fits)),
                      set_low_bit-eq-set n base tr addrs loc m h,
                    ))),
              Searched-set n base tr w addrs loc m h e,
            )
        | no ne ↦ (
          addrs,
          rw level1.returns (
              rw level2.returns
                (ground (arith, get_elem?-eq-cell addrs loc (omega (arith, m.fits))))),
          Searched-same n base tr w addrs m λ i p pos e.
              let place = on_page cmp v i above level1.found p (sym e) in
              not_at_place cmp (v * 512) (page_top t v) loc i addrs m (omega arith) al page.1
                level2.found ne place.0 place.1 (sym e),
        )
      ]
