-- ===== src/Base/Decimal.antt =====
-- Decimal text as bytes: what the code uses of `fmt` and `strconv`.
use Prim.Native.Char.{code}
use Prim.Native.String.{String}
use Prim.Native.Nat.{ℕ, zero, suc, ◌+◌, ◌-◌, ◌*◌, ◌/◌, ◌%◌, ◌^◌, ◌<◌}
use mathlib.Core.Path.{◌≡◌, refl, sym, ap, ◌∙◌}
use mathlib.Core.Logic.{◌↔◌}
use mathlib.Core.Bool.{Bool, true, false, ◌&&◌}
use mathlib.Core.List.{List, [], ◌∷◌, ◌++◌, append_assoc, append-nil}
use mathlib.Core.Option.{Option, none, some}
use native.Mathlib.Omega.{arith}
use native.Mathlib.Nat.{pow-suc}
use stellar_stellar_rpc.Base.Tests.{ltb, leb, ◌==◌, if◌then◌else◌}
use stellar_stellar_rpc.Base.Lists.{length, length-append}
use stellar_stellar_rpc.Base.Weights.{All}

abbrev pub Bytes : Type 0
Bytes = List ℕ

-- the bytes of an ASCII text
abbrev pub codes : String → Bytes
codes String.[] = []
codes (String.◌∷◌ c s) = code c ∷ codes s

-- `==` of two texts
unfoldable pub bytes_eq : Bytes → Bytes → Bool
bytes_eq [] [] = true
bytes_eq [] (b ∷ t) = false
bytes_eq (a ∷ s) [] = false
bytes_eq (a ∷ s) (b ∷ t) = let rest = bytes_eq s t in (a == b) && rest

pub bytes_eq_iff : (s t : Bytes) → (bytes_eq s t ≡ true) ↔ (s ≡ t)
unfolding bytes_eq
bytes_eq_iff [] [] = (λ h. refl, λ h. refl)
bytes_eq_iff [] (b ∷ t) = (λ h. cc, λ h. cc)
bytes_eq_iff (a ∷ s) [] = (λ h. cc, λ h. cc)
bytes_eq_iff (a ∷ s) (b ∷ t) =
    (λ h. ground (arith, bytes_eq_iff s t), λ h. ground (arith, bytes_eq_iff s t))

-- `slices.Contains`
unfoldable pub contains : List Bytes → Bytes → Bool
contains [] v = false
contains (x ∷ xs) v = let rest = contains xs v in if bytes_eq v x then true else rest

-- the last `w` decimal digits of a number: what the verb `%0wd` prints of one with at most `w`
unfoldable pub fixed : ℕ → ℕ → Bytes
fixed zero n = []
fixed (suc w) n = fixed w (n / 10) ++ ((b'0' + n % 10) ∷ [])

abbrev pub is_digit : ℕ → Bool
is_digit c = leb b'0' c && leb c b'9'

-- the number that digits spell behind `n`
unfoldable pub digits_value : ℕ → Bytes → Option ℕ
digits_value n [] = some n
digits_value n (c ∷ s) = if is_digit c then digits_value (n * 10 + (c - b'0')) s else none

below : ℕ → Option ℕ → Option ℕ
below limit none = none
below limit (some n) = if ltb n limit then some n else none

-- `strconv.ParseUint(s, 10, bits)` with `limit` for 2^bits
unfoldable pub parse_uint : ℕ → Bytes → Option ℕ
unfolding digits_value below
parse_uint limit [] = none
parse_uint limit (c ∷ s) = below limit (digits_value 0 (c ∷ s))

-- `strconv.ParseInt(s, 10, 64)` of a text with no minus sign
unfoldable pub parse_int : Bytes → Option ℕ
unfolding parse_uint
parse_int [] = none
parse_int (c ∷ s) = if c == b'+' then parse_uint (2 ^ 63) s else parse_uint (2 ^ 63) (c ∷ s)

pub length-fixed : (w n : ℕ) → length (fixed w n) ≡ w
unfolding fixed
length-fixed zero n = refl
length-fixed (suc w) n =
    omega (arith, length-append (fixed w (n / 10)) ((b'0' + n % 10) ∷ []), length-fixed w (n / 10))

abbrev pub IsDigit : ℕ → Type 0
IsDigit c = is_digit c ≡ true

All-append : (xs ys : Bytes) → All IsDigit xs → All IsDigit ys → All IsDigit (xs ++ ys)
All-append [] ys h k = k
All-append (x ∷ xs) ys h k = (h.0, All-append xs ys h.1 k)

pub fixed-IsDigit : (w n : ℕ) → All IsDigit (fixed w n)
unfolding fixed
fixed-IsDigit zero n = tt
fixed-IsDigit (suc w) n =
    All-append (fixed w (n / 10)) ((b'0' + n % 10) ∷ []) (fixed-IsDigit w (n / 10)) (last n, tt)
  where
    last : (n : ℕ) → IsDigit (b'0' + n % 10)
    last n = ground arith

pub ten_times : (w : ℕ) → 10 ^ suc w ≡ 10 * 10 ^ w
ten_times w = rw pow-suc (omega arith)

digits_value-last :
    (n m : ℕ) (rest : Bytes)
    → digits_value m ((b'0' + n % 10) ∷ rest) ≡ digits_value (m * 10 + n % 10) rest
unfolding digits_value
digits_value-last n m rest = ground arith

-- Reading a printed number gives it back, and goes on with what follows.
pub digits_value-fixed :
    (w n acc : ℕ) (rest : Bytes)
    → n < 10 ^ w
    → digits_value acc (fixed w n ++ rest) ≡ digits_value (acc * 10 ^ w + n) rest
unfolding fixed
digits_value-fixed zero n acc rest h = ap (λ (k : ℕ). digits_value k rest) (omega arith)
digits_value-fixed (suc w) n acc rest h = rw append_assoc (
    digits_value-fixed w (n / 10) acc ((b'0' + n % 10) ∷ rest) (omega (arith, ten_times w))
    ∙ digits_value-last n (acc * 10 ^ w + n / 10) rest
    ∙ ap (λ (k : ℕ). digits_value k rest) (omega (arith, ap (λ (t : ℕ). acc * t) (ten_times w))))

digits_value-end : (m n : ℕ) → m ≡ n → digits_value m [] ≡ some n
unfolding digits_value
digits_value-end m n e = ap some e

parse_uint-nonempty :
    (limit : ℕ) (s : Bytes) → 0 < length s → parse_uint limit s ≡ below limit (digits_value 0 s)
unfolding parse_uint
parse_uint-nonempty limit [] h = absurd (omega arith)
parse_uint-nonempty limit (c ∷ s) h = refl

parse_int-digits : (s : Bytes) → All IsDigit s → parse_int s ≡ parse_uint (2 ^ 63) s
unfolding parse_int
parse_int-digits [] h = refl
parse_int-digits (c ∷ s) h = ground (arith, h.0)

below-some : (limit n : ℕ) → n < limit → below limit (some n) ≡ some n
unfolding below
below-some limit n h = ground arith

-- `ParseUint` reads a printed number below its limit.
pub parse_uint-fixed :
    (limit w n : ℕ) → n < 10 ^ suc w → n < limit → parse_uint limit (fixed (suc w) n) ≡ some n
parse_uint-fixed limit w n h k =
    parse_uint-nonempty limit (fixed (suc w) n) (omega (arith, length-fixed (suc w) n))
    ∙ ap (below limit) value
    ∙ below-some limit n k
  where
    value : digits_value 0 (fixed (suc w) n) ≡ some n
    value =
        ap (digits_value 0) (sym (append-nil (fixed (suc w) n)))
        ∙ digits_value-fixed (suc w) n 0 [] h
        ∙ digits_value-end (0 * 10 ^ suc w + n) n (omega arith)

-- So does `ParseInt`, below 2^63.
pub parse_int-fixed : (w n : ℕ) → n < 10 ^ suc w → n < 2 ^ 63 → parse_int (fixed (suc w) n) ≡ some n
parse_int-fixed w n h k =
    parse_int-digits (fixed (suc w) n) (fixed-IsDigit (suc w) n) ∙ parse_uint-fixed (2 ^ 63) w n h k

-- `ParseUint` returns only numbers below its limit.
pub parse_uint-lt : (limit : ℕ) (s : Bytes) {n : ℕ} → parse_uint limit s ≡ some n → n < limit
unfolding parse_uint
parse_uint-lt limit [] h = cc
parse_uint-lt limit (c ∷ s) h = below-lt limit (digits_value 0 (c ∷ s)) h
  where
    below-lt : (limit : ℕ) (o : Option ℕ) {n : ℕ} → below limit o ≡ some n → n < limit
    below-lt limit none h = cc
    below-lt limit (some m) h = ground arith

pub bytes_eq_refl : (s : Bytes) → bytes_eq s s ≡ true
bytes_eq_refl s = (bytes_eq_iff s s).1 refl

pub contains-append_left :
    (xs ys : List Bytes) (v : Bytes) → contains xs v ≡ true → contains (xs ++ ys) v ≡ true
unfolding contains
contains-append_left [] ys v h = cc
contains-append_left (x ∷ xs) ys v h = ground (arith, contains-append_left xs ys v)

pub contains-append_end : (xs : List Bytes) (v : Bytes) → contains (xs ++ (v ∷ [])) v ≡ true
unfolding contains
contains-append_end [] v = ground (arith, bytes_eq_refl v)
contains-append_end (x ∷ xs) v = ground (arith, contains-append_end xs v)
