-- ===== src/Db/Migration/Coverage.antt =====
-- The merged range of the migrations covers the range of each of them.
use stellar_stellar_rpc.Base.{
  ℕ, ◌<◌, ◌≡◌, refl, ap, sym, Option, ◌∙◌, inl, inr, List, [], ◌∷◌, Bool, true, false, arith,
  Bool-cases,
}
use stellar_stellar_rpc.Base.Weights.{All}
use stellar_stellar_rpc.Db.Trim.{keep}
use stellar_stellar_rpc.Db.Migration.{
  LedgerSeqRange, is_ledger_included, is_empty, merge, Migration, merge_ranges, applicable_range,
  apply_all, go_on, apply_ledgers, apply_migrations,
}

merge-left :
    (r other : LedgerSeqRange) (n : ℕ)
    → 0 < n
    → is_ledger_included r n ≡ true
    → is_ledger_included (merge r other) n ≡ true
unfolding is_ledger_included merge is_empty
merge-left r other n p h = ground arith

merge-right :
    (r other : LedgerSeqRange) (n : ℕ)
    → 0 < n
    → is_ledger_included other n ≡ true
    → is_ledger_included (merge r other) n ≡ true
unfolding is_ledger_included merge is_empty
merge-right r other n p h = ground arith

module _ {S : Type 0} (n : ℕ) (pos : 0 < n) where
  merge_ranges_mono :
      (ms : List (Migration S)) (r : LedgerSeqRange)
      → is_ledger_included r n ≡ true
      → is_ledger_included (merge_ranges ms r) n ≡ true
  unfolding merge_ranges
  merge_ranges_mono [] r h = h
  merge_ranges_mono (m ∷ ms) r h = merge_ranges_mono ms _ (merge-right m.applicable_range r n pos h)

  merge_ranges-outside :
      (ms : List (Migration S)) (r : LedgerSeqRange)
      → is_ledger_included (merge_ranges ms r) n ≡ false
      → All (λ m. is_ledger_included m.applicable_range n ≡ false) ms
  unfolding merge_ranges
  merge_ranges-outside [] r h = tt
  merge_ranges-outside (m ∷ ms) r h = (
    elim (Bool-cases (is_ledger_included m.applicable_range n)) [
      | inl k ↦
          absurd
            (ground (arith, h, merge_ranges_mono ms _ (merge-left m.applicable_range r n pos k)))
      | inr k ↦ k
    ],
    merge_ranges-outside ms _ h,
  )

module _ {S : Type 0} (rollback : S → S) where
  apply_all-outside :
      (ms : List (Migration S)) (n : ℕ) (s : S)
      → All (λ m. is_ledger_included m.applicable_range n ≡ false) ms
      → apply_all rollback ms n s ≡ (s, false)
  unfolding apply_all
  apply_all-outside [] n s h = refl
  apply_all-outside (m ∷ ms) n s h = rw h.0 (apply_all-outside ms n s h.1)

  go_on-ext : (f g : S → Option S) → ((s : S) → f s ≡ g s) → (r : S × Bool) → go_on f r ≡ go_on g r
  go_on-ext f g h (s, true) = refl
  go_on-ext f g h (s, false) = h s

  apply_ledgers-keep :
      (ms : List (Migration S)) (ns : List ℕ) (s : S)
      → All (λ n. 0 < n) ns
      → apply_ledgers rollback ms (keep (is_ledger_included (applicable_range ms)) ns) s
        ≡ apply_ledgers rollback ms ns s
  unfolding apply_ledgers keep applicable_range
  apply_ledgers-keep ms [] s h = refl
  apply_ledgers-keep ms (n ∷ ns) s h =
      elim (Bool-cases (is_ledger_included (applicable_range ms) n)) [
        | inl k ↦
            rw k (go_on-ext _ _ (λ s'. apply_ledgers-keep ms ns s' h.1) (apply_all rollback ms n s))
        | inr k ↦ rw k (
            apply_ledgers-keep ms ns s h.1
            ∙ sym (
                ap (go_on (apply_ledgers rollback ms ns))
                  (apply_all-outside ms n s (merge_ranges-outside n h.0 ms _ k))))
      ]

  -- Streaming only the ledgers of the merged range changes nothing: the migrations do to the state,
  -- errors included, what they would do if all ledgers of the table were streamed. Sequences are
  -- positive.
  pub apply_migrations-apply_ledgers :
      (ms : List (Migration S)) (table : List ℕ) (s : S)
      → All (λ n. 0 < n) table
      → apply_migrations rollback ms table s ≡ apply_ledgers rollback ms table s
  unfolding apply_migrations
  apply_migrations-apply_ledgers ms table s h = apply_ledgers-keep ms table s h
