-- ===== src/Search/Map.antt =====
-- `generate_scan_map` builds the scan map of the addresses.
use thread_scan.Base.{
  ℕ, zero, suc, ◌+◌, ◌-◌, ◌*◌, ◌≤◌, ◌<◌, ◌≡◌, refl, ap, ◌∙◌, List, some, arith, length, length-set,
  cell, cell-set, set, get_elem?-eq-cell, dec_lt, ℕ_discrete, lt→ltb, le→ltb,
}
use thread_scan.Search.{scan_map_loop, generate_scan_map}
use thread_scan.Search.Level.{IsScanMap}

module _ (addrs : List ℕ) (n : ℕ) (fits : n ≤ length addrs) where
  scan_map_done :
      (fuel i k : ℕ) (map : List ℕ)
      → n ≤ i
      → scan_map_loop (suc fuel) addrs n i k map ≡ some (k, map)
  unfolding scan_map_loop
  scan_map_done fuel i k map h = rw (le→ltb i n h, scan_map_loop)

  scan_map_round :
      (fuel i k : ℕ) (map : List ℕ)
      → i < n
      → k < length map
      → scan_map_loop (suc fuel) addrs n i k map
        ≡ scan_map_loop fuel addrs n (i + 512) (k + 1) (set map k (cell addrs i))
  unfolding scan_map_loop
  scan_map_round fuel i k map h room =
      rw (lt→ltb i n h, scan_map_loop)
        (rw (get_elem?-eq-cell addrs i (omega arith)) (rw (lt→ltb k (length map) room) refl))

  -- Room for all pages is there, and the entries before `k` are made.
  record IsFilling (k : ℕ) (map : List ℕ) : Type 0 where
    room : n ≤ length map * 512
    not_past : (k - 1) * 512 < n
    entry : (j : ℕ) → j < k → cell map j ≡ cell addrs (j * 512)

  scan_map_loop-IsScanMap :
      (fuel k : ℕ) (map : List ℕ)
      → n - k * 512 < fuel
      → IsFilling k map
      → (map' : List ℕ) × (pages : ℕ) × (scan_map_loop fuel addrs n (k * 512) k map
          ≡ some (pages, map'))
        × IsScanMap n addrs pages map'
        × (length map' ≡ length map)
  scan_map_loop-IsScanMap zero k map enough f = absurd (omega arith)
  scan_map_loop-IsScanMap (suc fuel) k map enough f = elim (dec_lt (k * 512) n) [
    | yes more ↦
        let room : k < length map = omega (arith, f.room) in
        let x : ℕ = cell addrs (k * 512) in
        let next : k * 512 + 512 ≡ (k + 1) * 512 = omega arith in
        let (map', pages, e, sm, len) =
          scan_map_loop-IsScanMap fuel (k + 1) (set map k x) (omega arith) (record {
            room = omega (arith, f.room, length-set map k x);
            not_past = omega arith;
            entry = λ j h. elim (ℕ_discrete k j) [
              | yes here ↦
                  ground (arith, cell-set map k j x, ap (λ (i : ℕ). cell addrs (i * 512)) here)
              | no other ↦ ground (arith, cell-set map k j x, f.entry j)
            ];
          }) in
        (
          map',
          pages,
          scan_map_round fuel (k * 512) k map more room
              ∙ (ap (λ i. scan_map_loop fuel addrs n i (k + 1) (set map k x)) next ∙ e),
          sm,
          len ∙ length-set map k x,
        )
    | no done ↦ (
      map,
      k,
      scan_map_done fuel (k * 512) k map (omega arith),
      record {
        some_page = omega (arith, f.not_past);
        fits = filled f;
        last_page = f.not_past;
        all_pages = omega arith;
        entry = f.entry;
      },
      refl,
    )
  ]
    where
      filled : IsFilling k map → k ≤ length map
      filled g = omega (arith, g.room, g.not_past)

-- For `n > 0` addresses and a map buffer with an entry for each of their pages,
-- `generate_scan_map` returns, accesses nothing out of range, and fills in the first address of
-- every page, the last, partial page included.
pub generate_scan_map-IsScanMap :
    (addrs : List ℕ) (n : ℕ) (map : List ℕ)
    → 0 < n
    → n ≤ length addrs
    → n ≤ length map * 512
    → (map' : List ℕ) × (pages : ℕ) × (generate_scan_map addrs n map ≡ some (pages, map'))
      × IsScanMap n addrs pages map'
      × (length map' ≡ length map)
unfolding generate_scan_map
generate_scan_map-IsScanMap addrs n map pos fits room =
    scan_map_loop-IsScanMap addrs n fits (n + 1) 0 map (omega arith)
      (record { room = room; not_past = omega arith; entry = λ j h. absurd (omega arith) })
