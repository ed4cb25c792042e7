-- ===== src/Reclaim/Round/Rest.antt =====
-- What a round keeps for the next one, from the front of its array.
use thread_scan.Base.{
  ℕ, ◌+◌, ◌*◌, ◌≤◌, ◌≡◌, ap, ◌∙◌, sym, List, [], ◌∷◌, some, arith, length, segment, length-segment,
  count, dec_lt, append-nil,
}
use thread_scan.Sort.Rearranged.{Rearranged}
use thread_scan.Reclaim.{Remaining, unmapped, stored, store_remaining_addrs}
use thread_scan.Reclaim.Store.{store_remaining_addrs_keeps, store_remaining_addrs_none}
use thread_scan.Reclaim.Gather.{leftovers}
use thread_scan.Reclaim.Round.Order.{count-Rearranged}

-- The words that are kept for the next round, after a round that began by taking the storage.
abbrev pub kept_words : Remaining → List ℕ
kept_words unmapped = []
kept_words (stored storage) = leftovers storage

pub store_returns_some :
    (max_ptrs : ℕ) (addrs : List ℕ) (n : ℕ)
    → n + 2 ≤ length addrs
    → n + 2 ≤ max_ptrs * 2
    → (r : Remaining) × (store_remaining_addrs max_ptrs [] addrs n ≡ some r)
      × (length (kept_words r) ≡ n)
      × ((v : ℕ) → count v (kept_words r) ≡ count v (segment addrs 0 n))
store_returns_some max_ptrs addrs n room fits = elim (dec_lt 0 n) [
  | yes pos ↦
      let (b, e, len, same) = store_remaining_addrs_keeps max_ptrs [] addrs n pos room fits in
      let block : segment b.addrs 0 n ≡ leftovers (b ∷ []) =
        ap (segment b.addrs 0) (sym len) ∙ sym (append-nil (segment b.addrs 0 b.length)) in
      (
        stored (b ∷ []),
        e,
        ap length (sym block) ∙ length-segment b.addrs 0 n,
        λ v. ap (count v) (sym block) ∙ same v,
      )
  | no none_left ↦
      let z : n ≡ 0 = omega arith in
      (
        unmapped,
        store_remaining_addrs_none max_ptrs [] addrs n z,
        sym z,
        λ v. ap (λ k. count v (segment addrs 0 k)) (sym z),
      )
]

-- The shuffle of the words in between keeps their counts.
pub counts_of_kept :
    (v left : ℕ) (kept out shuffled words : List ℕ)
    → left ≡ length kept
    → left ≤ length out
    → segment out 0 (length kept) ≡ kept
    → Rearranged 0 left out shuffled
    → count v words ≡ count v (segment shuffled 0 left)
    → count v words ≡ count v kept
counts_of_kept v left kept out shuffled words same le written moved counts =
    counts
    ∙ (count-Rearranged v left out shuffled le moved
        ∙ (ap (λ k. count v (segment out 0 k)) same ∙ ap (count v) written))
