-- ===== src/Methods/Transactions/NextLedger.antt =====
-- What reading one more ledger does to a page of getTransactions.
use stellar_stellar_rpc.Base.{
  take_nil, take-append_left, take-append, ℕ, suc, ◌+◌, ◌-◌, ◌<◌, ◌≡◌, refl, sym, ap, ◌∙◌, inl, inr,
  List, [], ◌++◌, Bool, arith, Bool-cases, leb, length, length-append, take, Outcome, ok,
}
use mathlib.Core.List.{append_assoc, append-nil}
use stellar_stellar_rpc.Protocol.Pagination.{Format}
use stellar_stellar_rpc.Methods.GetLedgers.{Code}
use stellar_stellar_rpc.Methods.Transactions.Page.{
  LedgerTable, TransactionsHandler, TxId, TransactionInfo, fetch_ledger_data, process_fetched,
  go_on, read_ledgers,
}

-- One more ledger gives what is left of the page.
pub read_ledgers-step :
    (h : TransactionsHandler) (table : LedgerTable) (start : TxId) (limit : ℕ) (format : Format)
    (k n : ℕ) (cursor id : TxId) (txns xs zs : List TransactionInfo)
    → length txns < limit
    → process_fetched h start txns limit format (fetch_ledger_data table n)
      ≡ ok (id, leb limit (length txns + length xs), txns ++ take (limit - length txns) xs)
    → ((txns' : List TransactionInfo)
        → length txns' < limit
        → (c : TxId) × (read_ledgers h table start limit format k (n + 1) id txns'
            ≡ ok (c, txns' ++ take (limit - length txns') zs)))
    → (c : TxId) × (read_ledgers h table start limit format (suc k) n cursor txns
        ≡ ok (c, txns ++ take (limit - length txns) (xs ++ zs)))
unfolding read_ledgers
read_ledgers-step h table start limit format k n cursor id txns xs zs lt e rest =
    elim (Bool-cases (leb limit (length txns + length xs))) [
      | inl full ↦ (
        id,
        ap next (e ∙ ap (λ b. ok (id, b, txns ++ take (limit - length txns) xs)) full)
            ∙ ap (λ l. ok (id, txns ++ l))
                (sym (take-append_left (limit - length txns) xs zs (ground (arith, full)))),
      )
      | inr room ↦
          let len = length-append txns xs in
          let all : take (limit - length txns) xs ≡ xs =
            ap (take (limit - length txns)) (sym (append-nil xs))
            ∙ take-append (limit - length txns) xs [] (ground (arith, room))
            ∙ ap (xs ++◌) (take_nil (limit - length txns - length xs) refl)
            ∙ append-nil xs in
          let (c, r) = rest (txns ++ xs) (ground (arith, room, len)) in
          (
            c,
            ap next (e ∙ ap (λ b. ok (id, b, txns ++ take (limit - length txns) xs)) room)
                ∙ ap (λ l. read_ledgers h table start limit format k (n + 1) id (txns ++ l)) all
                ∙ r
                ∙ ap (λ l. ok (c, l))
                    (append_assoc txns xs (take (limit - length (txns ++ xs)) zs)
                      ∙ ap (λ m. txns ++ (xs ++ take m zs)) (omega (arith, len))
                      ∙ ap (txns ++◌)
                          (sym (take-append (limit - length txns) xs zs (ground (arith, room))))),
          )
    ]
  where
    next :
        Outcome Code (TxId × Bool × List TransactionInfo)
        → Outcome Code (TxId × List TransactionInfo)
    next = go_on (read_ledgers h table start limit format k (n + 1))
