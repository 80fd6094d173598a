-- ===== src/Protocol/Cursor/Order.antt =====
-- `Cmp` is the lexicographic order of the four numbers.
use stellar_stellar_rpc.Base.{◌<◌, ◌≡◌, ◌↔◌, ◌⊎◌, arith, pos, negsuc}
use stellar_stellar_rpc.Protocol.Cursor.{Cursor, cmp_cursor}

-- one cursor stands before another
abbrev pub Precedes : Cursor → Cursor → Type 0
Precedes a b =
    (a.ledger < b.ledger)
    ⊎ ((a.ledger ≡ b.ledger) × (a.tx < b.tx))
    ⊎ ((a.ledger ≡ b.ledger) × (a.tx ≡ b.tx) × (a.op < b.op))
    ⊎ ((a.ledger ≡ b.ledger) × (a.tx ≡ b.tx) × (a.op ≡ b.op) × (a.event < b.event))

Precedes-of_cmp : (a b : Cursor) → cmp_cursor a b ≡ negsuc 0 → Precedes a b
unfolding cmp_cursor
Precedes-of_cmp a b h = ground arith

cmp_of_Precedes : (a b : Cursor) → Precedes a b → cmp_cursor a b ≡ negsuc 0
unfolding cmp_cursor
cmp_of_Precedes a b h = ground arith

follows_of_cmp : (a b : Cursor) → cmp_cursor a b ≡ pos 1 → Precedes b a
unfolding cmp_cursor
follows_of_cmp a b h = ground arith

cmp_of_follows : (a b : Cursor) → Precedes b a → cmp_cursor a b ≡ pos 1
unfolding cmp_cursor
cmp_of_follows a b h = ground arith

eq_of_cmp : (a b : Cursor) → cmp_cursor a b ≡ pos 0 → a ≡ b
unfolding cmp_cursor
eq_of_cmp a b h = ground arith

cmp_of_eq : (a b : Cursor) → a ≡ b → cmp_cursor a b ≡ pos 0
unfolding cmp_cursor
cmp_of_eq a b h = ground arith

-- `Cmp` returns -1 just for a cursor that stands before the other in the order of the ledger, the
-- transaction, the operation and the event, 1 just for one that stands behind it, and 0 just for
-- the same cursor.
pub cmp_cursor_lem :
    (a b : Cursor)
    → ((cmp_cursor a b ≡ negsuc 0) ↔ Precedes a b)
      × ((cmp_cursor a b ≡ pos 1) ↔ Precedes b a)
      × ((cmp_cursor a b ≡ pos 0) ↔ (a ≡ b))
cmp_cursor_lem a b = (
  (Precedes-of_cmp a b, cmp_of_Precedes a b),
  (follows_of_cmp a b, cmp_of_follows a b),
  (eq_of_cmp a b, cmp_of_eq a b),
)
