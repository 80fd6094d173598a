-- ===== src/Base/Words.antt =====
-- Unsigned words as numbers with the wrap-around written out, and signed integers, which the
-- modelled code mostly moves and seldom computes with.
use Prim.Native.Nat.{ℕ, ◌%◌, ◌^◌}

-- uint32
abbrev pub u32 : ℕ → ℕ
u32 n = n % 2 ^ 32

-- uint64, and uint on the 64-bit platforms that the program is built for
abbrev pub u64 : ℕ → ℕ
u64 n = n % 2 ^ 64

-- `negsuc n` is -(n + 1).
pub data ℤ : Type 0 where
  pos : ℕ → ℤ
  negsuc : ℕ → ℤ
