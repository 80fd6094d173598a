-- ===== src/Protocol/Cursor/Packing.antt =====
-- A concrete instance of the packing of toid, as its documentation describes it, for the tests.
use stellar_stellar_rpc.Base.{ℕ, ◌+◌, ◌*◌, ◌/◌, ◌%◌, ◌^◌, ◌<◌, ◌≡◌, arith, ◌⊎◌}
use stellar_stellar_rpc.Protocol.Cursor.{IsInRange, Toid}

abbrev pub pack : ℕ → ℕ → ℕ → ℕ
pack l t o = l * 2 ^ 32 + t * 2 ^ 12 + o

abbrev pub unpack : ℕ → ℕ × ℕ × ℕ
unpack n = (n / 2 ^ 32, n / 2 ^ 12 % 2 ^ 20, n % 2 ^ 12)

pub unpack-pack : (l t o : ℕ) → IsInRange l t o → unpack (pack l t o) ≡ (l, t, o)
unpack-pack l t o r = ground (arith, high, middle, low)
  where
    high : pack l t o / 2 ^ 32 ≡ l
    high = omega (arith, r.tx_lt, r.op_lt)

    middle : pack l t o / 2 ^ 12 % 2 ^ 20 ≡ t
    middle = omega (arith, r.tx_lt, r.op_lt)

    low : pack l t o % 2 ^ 12 ≡ o
    low = omega (arith, r.op_lt)

pub pack_ordered :
    (l t o l' t' o' : ℕ)
    → IsInRange l t o
    → IsInRange l' t' o'
    → (l < l') ⊎ ((l ≡ l') × (t < t')) ⊎ ((l ≡ l') × (t ≡ t') × (o < o'))
    → pack l t o < pack l' t' o'
pack_ordered l t o l' t' o' r s h = omega (arith, r.tx_lt, r.op_lt)

abbrev pub sdk : Toid
sdk = record {
  to_int64 = pack;
  parse = unpack;
  to_int64_lt = λ l t o r. omega (arith, r.ledger_lt, r.tx_lt, r.op_lt);
  parse_to_int64 = unpack-pack;
  to_int64_ordered = pack_ordered;
}
