-- ===== src/Db/Trim.antt =====
-- The three trims of `Commit`: trimLedgers, trimTransactions and trimEvents of
-- cmd/stellar-rpc/internal/db.
use stellar_stellar_rpc.Base.{
  ℕ, ◌+◌, ◌-◌, ◌^◌, Option, none, some, List, [], ◌∷◌, Bool, true, false, not, u32, ltb, leb,
  if◌then◌else◌, ℤ, pos, negsuc,
}
use stellar_stellar_rpc.Base.Decimal.{Bytes}
use stellar_stellar_rpc.Protocol.Cursor.{Toid, to_string}
use stellar_stellar_rpc.Protocol.Cursor.Text.{compare_bytes}
use stellar_stellar_rpc.Db.Store.{Ledger, seq, TransactionRow}

-- keep what passes a test
unfoldable pub keep {ℓ} : {A : Type ℓ} → (A → Bool) → List A → List A
keep p [] = []
keep p (x ∷ xs) = let rest = keep p xs in if p x then x ∷ rest else rest

-- the cutoff of the three trims, `none` when they return at once; uint32 arithmetic
unfoldable pub cutoff : ℕ → ℕ → Option ℕ
cutoff latest_ledger_seq retention_window =
    if leb (u32 (latest_ledger_seq + 1)) retention_window
    then none
    else some (u32 (u32 (latest_ledger_seq + 1) + 2 ^ 32 - retention_window))

-- delete the rows before a cutoff, if there is one
unfoldable pub delete_before {ℓ} : {A : Type ℓ} → (ℕ → A → Bool) → Option ℕ → List A → List A
unfolding keep
delete_before before none rows = rows
delete_before before (some c) rows = keep (λ row. not (before c row)) rows

unfoldable pub trim_ledgers : ℕ → ℕ → List Ledger → List Ledger
unfolding cutoff delete_before
trim_ledgers latest retention rows =
    delete_before (λ c l. ltb (seq l) c) (cutoff latest retention) rows

unfoldable pub trim_transactions : ℕ → ℕ → List TransactionRow → List TransactionRow
unfolding cutoff delete_before
trim_transactions latest retention rows =
    delete_before (λ c r. ltb r.ledger_sequence c) (cutoff latest retention) rows

abbrev pub is_negative : ℤ → Bool
is_negative (pos n) = false
is_negative (negsuc n) = true

-- is the first text before the second one, as SQLite compares
abbrev pub text_lt : Bytes → Bytes → Bool
text_lt s t = is_negative (compare_bytes s t)

abbrev pub event_id : Toid → ℕ → ℕ → ℕ → Bytes
event_id toid l t e = to_string toid (record { ledger = l; tx = t; op = 0; event = e })

-- compares ids, which are texts
unfoldable pub trim_events : Toid → ℕ → ℕ → List Bytes → List Bytes
unfolding cutoff delete_before
trim_events toid latest retention rows =
    delete_before (λ c row. text_lt row (event_id toid c 0 0)) (cutoff latest retention) rows
