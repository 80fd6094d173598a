-- ===== src/Config/Widths.antt =====
-- What the parsers of unsigned numbers store in keys of the several widths.
use native.Mathlib.Nat.{pow-suc, mod-lt, mod-eq_of_lt}
use native.Mathlib.Decide.{dec_lt}
use stellar_stellar_rpc.Base.{
  zero, suc, ap, ◌∙◌, ◌⊎◌, inl, inr, Option, ℕ, ◌^◌, ◌%◌, ◌≤◌, ◌<◌, ◌≡◌, some, ok, err, arith,
  ◌>>=◌,
}
use stellar_stellar_rpc.Base.Decimal.{Bytes, parse_uint}
use stellar_stellar_rpc.Config.Parse.{
  Texts, text, uint_key, uint_value, overflows_uint32, or_invalid, checked_uint32, parse,
}

pow_pos : (b : ℕ) → 0 < 2 ^ b
pow_pos zero = omega arith
pow_pos (suc b) = rw pow-suc (omega (arith, pow_pos b))

module _ (t : Texts) (bits : ℕ) (v : Bytes) {n : ℕ} where
  read : parse_uint (2 ^ 64) v ≡ some n → parse t (uint_key bits) (text v) ≡ checked_uint32 bits n
  unfolding parse
  read h = ap (λ (o : Option ℕ). or_invalid o >>= λ m. checked_uint32 bits m) h

  checked_high : 2 ^ 32 ≤ n → checked_uint32 bits n ≡ err overflows_uint32
  unfolding checked_uint32
  checked_high h = ground arith

  checked_low : n < 2 ^ 32 → checked_uint32 bits n ≡ ok (uint_value (n % 2 ^ bits))
  unfolding checked_uint32
  checked_low h = ground arith

  -- What becomes of a text that reads as a number, for an unsigned key of some bits other than uint64:
  -- a number from 2^32 on is refused; one below 2^32 and 2^bits is stored as it is; but one below 2^32
  -- that the key cannot hold is accepted too, and another number is stored, its remainder.
  pub uint_key_lem :
      parse_uint (2 ^ 64) v ≡ some n
      → ((2 ^ 32 ≤ n) × (parse t (uint_key bits) (text v) ≡ err overflows_uint32))
        ⊎ ((n < 2 ^ 32) × (n < 2 ^ bits) × (parse t (uint_key bits) (text v) ≡ ok (uint_value n)))
        ⊎ ((n < 2 ^ 32)
            × (2 ^ bits ≤ n)
            × (parse t (uint_key bits) (text v) ≡ ok (uint_value (n % 2 ^ bits)))
            × (n % 2 ^ bits < n))
  uint_key_lem h = elim (dec_lt n (2 ^ 32)) [
    | no high ↦ inl (omega arith, read h ∙ checked_high (omega arith))
    | yes low ↦ elim (dec_lt n (2 ^ bits)) [
      | yes fits ↦ inr (
          inl
            (low, fits, read h ∙ checked_low low ∙ ap (λ m. ok (uint_value m)) (mod-eq_of_lt fits)))
      | no wide ↦
          inr (
            inr
              (low, omega arith, read h ∙ checked_low low, omega (arith, mod-lt n (pow_pos bits))))
    ]
  ]
