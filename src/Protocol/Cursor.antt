-- ===== src/Protocol/Cursor.antt =====
-- protocol/cursor.go: the position of an event, its order and its text. The package toid of the
-- Stellar Go SDK, which packs a ledger, a transaction and an operation into one int64, is the
-- parameter `Toid`; the code only forms and reads identifiers that are not negative.
pub mod Order
pub mod Text
pub mod Packing
mod Tests
use stellar_stellar_rpc.Base.{
  ℕ, zero, suc, ◌+◌, ◌-◌, ◌^◌, ◌<◌, ◌≡◌, Option, none, some, List, [], ◌∷◌, ◌++◌, u32, ltb, ◌==◌,
  if◌then◌else◌, ℤ, pos, negsuc, ◌⊎◌,
}
use stellar_stellar_rpc.Base.Maybe.{◌>>=◌}
use stellar_stellar_rpc.Base.Decimal.{Bytes, fixed, parse_uint, parse_int}

pub record Cursor : Type 0 where
  pub ledger : ℕ
  pub tx : ℕ
  pub op : ℕ
  pub event : ℕ

pub record CursorRange : Type 0 where
  pub start : Cursor
  pub finish : Cursor

unfoldable pub cmp : ℕ → ℕ → ℤ
cmp a b = if ltb a b then negsuc 0 else if ltb b a then pos 1 else pos 0

-- `Cursor.Cmp`
unfoldable pub cmp_cursor : Cursor → Cursor → ℤ
unfolding cmp
cmp_cursor c other =
    if c.ledger == other.ledger
    then if c.tx == other.tx
      then if c.op == other.op then cmp c.event other.event else cmp c.op other.op
      else cmp c.tx other.tx
    else cmp c.ledger other.ledger

-- The limits of the documentation of toid: 31, 20 and 12 bits.
pub record IsInRange (ledger tx op : ℕ) : Type 0 where
  pub ledger_lt : ledger < 2 ^ 31
  pub tx_lt : tx < 2 ^ 20
  pub op_lt : op < 2 ^ 12

-- `toid.New(l, t, o).ToInt64()` and `toid.Parse`, with what its documentation says of identifiers in
-- range: they are not negative, they are read back, and they sort in the order of the ledger, then
-- of the transaction, then of the operation.
pub record Toid : Type 0 where
  pub to_int64 : ℕ → ℕ → ℕ → ℕ
  pub parse : ℕ → ℕ × ℕ × ℕ
  pub to_int64_lt : (l t o : ℕ) → IsInRange l t o → to_int64 l t o < 2 ^ 63
  pub parse_to_int64 : (l t o : ℕ) → IsInRange l t o → parse (to_int64 l t o) ≡ (l, t, o)
  pub to_int64_ordered :
      (l t o l' t' o' : ℕ)
      → IsInRange l t o
      → IsInRange l' t' o'
      → (l < l') ⊎ ((l ≡ l') × (t < t')) ⊎ ((l ≡ l') × (t ≡ t') × (o < o'))
      → to_int64 l t o < to_int64 l' t' o'

module _ (toid : Toid) where
  -- `Cursor.String`: `%019d` prints an int64 that is not negative in 19 digits, and `%010d` a uint32
  -- in 10.
  unfoldable pub to_string : Cursor → Bytes
  to_string c =
      fixed 19 (toid.to_int64 (u32 c.ledger) (u32 c.tx) (u32 c.op)) ++ (b'-' ∷ fixed 10 c.event)

  -- `strings.SplitN(input, "-", 2)`: the text before and behind the first minus sign, if any
  split_dash : Bytes → Option (Bytes × Bytes)
  split_dash [] = none
  split_dash (c ∷ s) =
      let rest = split_dash s in
      if c == b'-' then some ([], s) else rest >>= λ p. some (c ∷ p.0, p.1)

  -- `ParseCursor`; `none` stands for the error for an invalid event id
  unfoldable pub parse_cursor : Bytes → Option Cursor
  unfolding split_dash
  parse_cursor input = do
    parts ← split_dash input
    id ← parse_int parts.0
    event_order ← parse_uint (2 ^ 32) parts.1
    some (record {
      ledger = (toid.parse id).0;
      tx = (toid.parse id).1;
      op = (toid.parse id).2;
      event = event_order;
    })

abbrev pub min_cursor : Cursor
min_cursor = record { ledger = 0; tx = 0; op = 0; event = 0 }

-- `toid.TransactionMask` and `toid.OperationMask` are the greatest numbers of 20 and of 12 bits.
abbrev pub max_cursor : Cursor
max_cursor = record { ledger = 2 ^ 31 - 1; tx = 2 ^ 20 - 1; op = 2 ^ 12 - 1; event = 2 ^ 32 - 1 }
