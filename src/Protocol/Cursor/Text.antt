-- ===== src/Protocol/Cursor/Text.antt =====
-- The text of a cursor: it is read back, and texts sort as the cursors do. The database compares
-- event ids as texts.
use stellar_stellar_rpc.Base.{
  ℕ, zero, suc, ◌+◌, ◌/◌, ◌%◌, ◌^◌, ◌<◌, ◌≡◌, refl, sym, ◌∙◌, ◌⊎◌, inl, inr, some, [], ◌∷◌, ◌++◌,
  arith, u32, ltb, ◌==◌, if◌then◌else◌, ℤ, pos, negsuc,
}
use mathlib.Core.Path.{ap₂}
use mathlib.Core.List.{append_assoc, append-nil}
use stellar_stellar_rpc.Base.Weights.{All}
use stellar_stellar_rpc.Base.Decimal.{
  Bytes, fixed, parse_uint, parse_int, IsDigit, fixed-IsDigit, parse_uint-fixed, parse_int-fixed,
  ten_times,
}
use stellar_stellar_rpc.Protocol.Cursor.{
  Cursor, cmp, cmp_cursor, IsInRange, Toid, to_string, split_dash, parse_cursor,
}

-- a cursor that toid can represent, and a uint32 event index
pub record IsPrintable (c : Cursor) : Type 0 where
  pub in_range : IsInRange c.ledger c.tx c.op
  pub event_lt : c.event < 2 ^ 32

-- `memcmp` on texts, then the shorter first
unfoldable pub compare_bytes : Bytes → Bytes → ℤ
compare_bytes [] [] = pos 0
compare_bytes [] (d ∷ t) = negsuc 0
compare_bytes (c ∷ s) [] = pos 1
compare_bytes (c ∷ s) (d ∷ t) =
    if c == d then compare_bytes s t else if ltb c d then negsuc 0 else pos 1

compare-fixed :
    (w n m : ℕ) (s t : Bytes)
    → n < 10 ^ w
    → m < 10 ^ w
    → compare_bytes (fixed w n ++ s) (fixed w m ++ t)
      ≡ (if n == m then compare_bytes s t else if ltb n m then negsuc 0 else pos 1)
unfolding fixed compare_bytes
compare-fixed zero n m s t h k = ground arith
compare-fixed (suc w) n m s t h k =
    rw
      (
        append_assoc,
        append_assoc,
        compare-fixed w (n / 10) (m / 10) ((b'0' + n % 10) ∷ s) ((b'0' + m % 10) ∷ t)
            (omega (arith, ten_times w)) (omega (arith, ten_times w)),
      )
      (ground arith)

compare_events :
    (e f : ℕ)
    → e < 10 ^ 10
    → f < 10 ^ 10
    → compare_bytes (b'-' ∷ fixed 10 e) (b'-' ∷ fixed 10 f) ≡ cmp e f
unfolding compare_bytes cmp
compare_events e f h k =
    ap₂ compare_bytes (sym (append-nil (fixed 10 e))) (sym (append-nil (fixed 10 f)))
    ∙ compare-fixed 10 e f [] [] h k
    ∙ ground arith

-- of two triples one stands before the other, or they are the same
three_ways :
    (l t o l' t' o' : ℕ)
    → ((l < l') ⊎ ((l ≡ l') × (t < t')) ⊎ ((l ≡ l') × (t ≡ t') × (o < o')))
      ⊎ ((l' < l) ⊎ ((l' ≡ l) × (t' < t)) ⊎ ((l' ≡ l) × (t' ≡ t) × (o' < o)))
      ⊎ ((l ≡ l') × (t ≡ t') × (o ≡ o'))
three_ways l t o l' t' o' = omega arith

module _ (toid : Toid) where
  split_dash-digits :
      (s t : Bytes) → All IsDigit s → split_dash toid (s ++ (b'-' ∷ t)) ≡ some (s, t)
  unfolding split_dash
  split_dash-digits [] t h = refl
  split_dash-digits (c ∷ s) t h = ground (arith, split_dash-digits s t h.1, h.0)

  abbrev id : Cursor → ℕ
  id c = toid.to_int64 (u32 c.ledger) (u32 c.tx) (u32 c.op)

  abbrev plain_id : Cursor → ℕ
  plain_id c = toid.to_int64 c.ledger c.tx c.op

  id-eq : (c : Cursor) → IsPrintable c → id c ≡ plain_id c
  id-eq c p =
      let l : u32 c.ledger ≡ c.ledger = omega (arith, p.in_range.ledger_lt) in
      let t : u32 c.tx ≡ c.tx = omega (arith, p.in_range.tx_lt) in
      let o : u32 c.op ≡ c.op = omega (arith, p.in_range.op_lt) in cc

  id-lt : (c : Cursor) → IsPrintable c → plain_id c < 2 ^ 63
  id-lt c p = toid.to_int64_lt c.ledger c.tx c.op p.in_range

  parse_cursor-by :
      (input s t : Bytes) (n e : ℕ)
      → split_dash toid input ≡ some (s, t)
      → parse_int s ≡ some n
      → parse_uint (2 ^ 32) t ≡ some e
      → parse_cursor toid input
        ≡ some (record {
          ledger = (toid.parse n).0;
          tx = (toid.parse n).1;
          op = (toid.parse n).2;
          event = e;
        })
  unfolding parse_cursor
  parse_cursor-by input s t n e a b c = rw (a, b, c)

  -- `ParseCursor` reads back what `String` prints, for a cursor in the range of toid.
  pub parse_cursor-to_string :
      (c : Cursor) → IsPrintable c → parse_cursor toid (to_string toid c) ≡ some c
  unfolding to_string
  parse_cursor-to_string c p =
      parse_cursor-by (to_string toid c) (fixed 19 (id c)) (fixed 10 c.event) (id c) c.event
        (split_dash-digits (fixed 19 (id c)) (fixed 10 c.event) (fixed-IsDigit 19 (id c)))
        (parse_int-fixed 18 (id c) (omega (arith, id-eq c p, id-lt c p))
          (omega (arith, id-eq c p, id-lt c p)))
        (parse_uint-fixed (2 ^ 32) 9 c.event (omega (arith, p.event_lt)) p.event_lt)
      ∙ rw (id-eq c p, toid.parse_to_int64 c.ledger c.tx c.op p.in_range)

  -- how two identifiers compare
  compare_text :
      (a b : Cursor)
      → IsPrintable a
      → IsPrintable b
      → compare_bytes (to_string toid a) (to_string toid b) ≡ (
          if plain_id a == plain_id b
          then cmp a.event b.event
          else if ltb (plain_id a) (plain_id b)
          then negsuc 0
          else pos 1)
  unfolding to_string
  compare_text a b p q = rw (
    id-eq a p,
    id-eq b q,
    compare-fixed 19 (plain_id a) (plain_id b) (b'-' ∷ fixed 10 a.event) (b'-' ∷ fixed 10 b.event)
        (omega (arith, id-lt a p)) (omega (arith, id-lt b q)),
    compare_events a.event b.event (omega (arith, p.event_lt)) (omega (arith, q.event_lt)),
  )

  -- The texts of cursors in range, compared as bytes, sort as the cursors do.
  pub compare_bytes-to_string :
      (a b : Cursor)
      → IsPrintable a
      → IsPrintable b
      → compare_bytes (to_string toid a) (to_string toid b) ≡ cmp_cursor a b
  unfolding cmp_cursor
  compare_bytes-to_string a b p q = elim (three_ways a.ledger a.tx a.op b.ledger b.tx b.op) [
    | inl before ↦
        let lt =
          toid.to_int64_ordered a.ledger a.tx a.op b.ledger b.tx b.op p.in_range q.in_range
            before in
        rw (compare_text a b p q) (ground arith)
    | inr (inl behind) ↦
        let lt =
          toid.to_int64_ordered b.ledger b.tx b.op a.ledger a.tx a.op q.in_range p.in_range
            behind in
        rw (compare_text a b p q) (ground arith)
    | inr (inr same) ↦ rw (compare_text a b p q) (same_ids same)
  ]
    where
      same_ids :
          (a.ledger ≡ b.ledger) × (a.tx ≡ b.tx) × (a.op ≡ b.op)
          → (if plain_id a == plain_id b
              then cmp a.event b.event
              else if ltb (plain_id a) (plain_id b)
              then negsuc 0
              else pos 1)
            ≡ cmp_cursor a b
      same_ids (l, t, o) = let ids : plain_id a ≡ plain_id b = cc in ground arith
