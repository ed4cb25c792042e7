-- ===== src/Reclaim/Store.antt =====
-- `store_remaining_addrs` loses no address.
use thread_scan.Base.{
  ℕ, suc, ◌+◌, ◌-◌, ◌*◌, ◌≤◌, ◌<◌, ◌≡◌, refl, ap, ◌∙◌, List, ◌∷◌, some, arith, length, length-set,
  cell, cell-set, set, get_elem?-eq-cell, ◌==◌, if◌then◌else◌, ℕ_discrete, count, hit, drop,
  segment, segment-agree, segment-add, segment-drop_two, count-append,
}
use thread_scan.Reclaim.{AddrStorage, unmapped, stored, store_remaining_addrs}

module _ (addrs : List ℕ) (n : ℕ) (pos : 0 < n) (room : n + 2 ≤ length addrs) where
  -- The word that becomes the last one: `addrs[1]`, which the first move has set if `n` is 1.
  second : ℕ
  second = if n == 1 then cell addrs 0 else cell addrs 1

  block : List ℕ
  unfolding second
  block = set (set addrs n (cell addrs 0)) (n + 1) second

  cell-block :
      (j : ℕ)
      → cell block j
        ≡ (if j == n + 1 then second else if j == n then cell addrs 0 else cell addrs j)
  unfolding block
  cell-block j = ground (
    arith,
    length-set addrs n (cell addrs 0),
    cell-set (set addrs n (cell addrs 0)) (n + 1) j second,
    cell-set addrs n j (cell addrs 0),
  )

  count-block : (v : ℕ) → count v (segment block 2 n) ≡ count v (segment addrs 0 n)
  count-block v = elim (ℕ_discrete n 1) [
    | yes one ↦ rw one (ground (arith, cell-block 2, one, second_one one))
    | no more ↦
        let split : n ≡ suc (suc (n - 2)) = omega arith in
        let split' : n ≡ n - 2 + 2 = omega arith in
        omega (
          arith,
          ap (λ k. count v (segment addrs 0 k)) split,
          ap (λ k. count v (segment block 2 k)) split',
          ap (count v) (segment-add block 2 (n - 2) 2),
          count-append v (segment block 2 (n - 2)) (segment block (2 + (n - 2)) 2),
          ap (count v)
              (segment-agree block addrs 2 (n - 2) (λ j p q. ground (arith, cell-block j))),
          ap (hit v) (at_n more),
          ap (hit v) (behind_n more),
        )
  ]
    where
      second_one : n ≡ 1 → second ≡ cell addrs 0
      second_one e = unfold second in ground arith

      at_n : (n ≡ 1 → ⊥) → cell block (2 + (n - 2)) ≡ cell addrs 0
      at_n more = ground (arith, cell-block (2 + (n - 2)))

      behind_n : (n ≡ 1 → ⊥) → cell block (2 + (n - 2) + 1) ≡ cell addrs 1
      behind_n more = ground (arith, cell-block (2 + (n - 2) + 1), plain more)
        where
          plain : (n ≡ 1 → ⊥) → second ≡ cell addrs 1
          plain ne = unfold second in ground arith

  store_returns :
      (max_ptrs : ℕ) (storage : List AddrStorage)
      → n + 2 ≤ max_ptrs * 2
      → store_remaining_addrs max_ptrs storage addrs n
        ≡ some (stored (record { length = n; addrs = drop 2 block } ∷ storage))
  unfolding store_remaining_addrs block second
  store_returns max_ptrs storage fits = ground (
    arith,
    get_elem?-eq-cell addrs 0,
    get_elem?-eq-cell (set addrs n (cell addrs 0)) 1,
    length-set addrs n (cell addrs 0),
    cell-set addrs n 1 (cell addrs 0),
  )

-- With `n > 0` addresses at the front of a buffer that has two words more, within the limit
-- `max_ptrs * 2`, `store_remaining_addrs` accesses nothing out of range and pushes one block of length
-- `n` on the storage, in which every address stands as often as among the `n`, also for `n = 1`,
-- where the two moves overlap.
pub store_remaining_addrs_keeps :
    (max_ptrs : ℕ) (storage : List AddrStorage) (addrs : List ℕ) (n : ℕ)
    → 0 < n
    → n + 2 ≤ length addrs
    → n + 2 ≤ max_ptrs * 2
    → (b : AddrStorage) × (store_remaining_addrs max_ptrs storage addrs n
        ≡ some (stored (b ∷ storage)))
      × (b.length ≡ n)
      × ((v : ℕ) → count v (segment b.addrs 0 n) ≡ count v (segment addrs 0 n))
store_remaining_addrs_keeps max_ptrs storage addrs n pos room fits = (
  record { length = n; addrs = drop 2 (block addrs n pos room) },
  store_returns addrs n pos room max_ptrs storage fits,
  refl,
  λ v.
      ap (count v) (segment-drop_two (block addrs n pos room) 0 n) ∙ count-block addrs n pos room v,
)

pub store_remaining_addrs_none :
    (max_ptrs : ℕ) (storage : List AddrStorage) (addrs : List ℕ) (n : ℕ)
    → n ≡ 0
    → store_remaining_addrs max_ptrs storage addrs n ≡ some unmapped
unfolding store_remaining_addrs
store_remaining_addrs_none max_ptrs storage addrs n e = ground arith
