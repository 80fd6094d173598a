-- ===== src/Methods/GetLedgers/Segments.antt =====
-- Ledgers of successive sequences, what a range of sequences keeps of them, and their infos.
use stellar_stellar_rpc.Base.{
  ℕ, zero, suc, ◌+◌, ◌≤◌, ◌<◌, ◌≡◌, refl, ap, ◌∙◌, ◌⊎◌, inl, inr, List, [], ◌∷◌, map, ok, Bool,
  true, ltb, leb, ◌&&◌, arith, Bool-cases, length,
}
use stellar_stellar_rpc.Base.Permutations.{fails, fails_not, fails_once}
use stellar_stellar_rpc.Base.Weights.{sum_by}
use stellar_stellar_rpc.Db.Store.{Ledger, seq}
use stellar_stellar_rpc.Db.Trim.{keep}
use stellar_stellar_rpc.Db.Reader.{info_of}
use stellar_stellar_rpc.Methods.GetLedgers.{parse_ledger_infos}

-- the ledgers of `n` sequences from `a` on
abbrev pub seg : (ℕ → Ledger) → ℕ → ℕ → List Ledger
seg at a zero = []
seg at a (suc n) = at a ∷ seg at (a + 1) n

abbrev pub within : ℕ → ℕ → Ledger → Bool
within start end l = leb start (seq l) && leb (seq l) end

module _ (at : ℕ → Ledger) (at_seq : (n : ℕ) → seq (at n) ≡ n) where
  keep-beyond : (start end a n : ℕ) → end < a → keep (within start end) (seg at a n) ≡ []
  unfolding keep
  keep-beyond start end a zero h = refl
  keep-beyond start end a (suc n) h =
      ground (arith, at_seq a, keep-beyond start end (a + 1) n (omega arith))

  -- from the start of the page on
  keep-from :
      (start end a n k : ℕ)
      → start ≤ a
      → ((a + k ≡ end + 1) × (end + 1 ≤ a + n)) ⊎ ((k ≡ n) × (a + n ≤ end + 1))
      → keep (within start end) (seg at a n) ≡ seg at a k
  unfolding keep
  keep-from start end a zero zero h c = refl
  keep-from start end a zero (suc k) h c = absurd (omega arith)
  keep-from start end a (suc n) zero h c = keep-beyond start end a (suc n) (omega arith)
  keep-from start end a (suc n) (suc k) h c =
      ground (arith, at_seq a, keep-from start end (a + 1) n k (omega arith) (omega arith))

  -- from the first ledger of the table on
  pub keep-seg :
      (start end a n k : ℕ)
      → a ≤ start
      → start ≤ a + n
      → start ≤ end + 1
      → ((start + k ≡ end + 1) × (end + 1 ≤ a + n)) ⊎ ((start + k ≡ a + n) × (a + n ≤ end + 1))
      → keep (within start end) (seg at a n) ≡ seg at start k
  unfolding keep
  keep-seg start end a zero zero h h' g c = refl
  keep-seg start end a zero (suc k) h h' g c = absurd (omega arith)
  keep-seg start end a (suc n) k h h' g c = elim (Bool-cases (ltb a start)) [
    | inl l ↦ ground (
      arith,
      at_seq a,
      keep-seg start end (a + 1) n k (ground arith) (omega arith) g (omega arith),
    )
    | inr l ↦
        keep-from start end a (suc n) k (ground arith) (ground arith)
        ∙ ap (λ x. seg at x k) (ground arith)
  ]

  pub seg_eq : {a b m n : ℕ} → a ≡ b → m ≡ n → seg at a m ≡ seg at b n
  seg_eq e f i = seg at (e i) (f i)

  pub seg-fails :
      (encodes : Ledger → Bool) (a n : ℕ)
      → ((s : ℕ) → encodes (at s) ≡ true)
      → sum_by (fails encodes) (seg at a n) ≡ 0
  unfolding sum_by
  seg-fails encodes a zero e = refl
  seg-fails encodes a (suc n) e =
      omega (arith, fails_not encodes (at a) (e a), seg-fails encodes (a + 1) n e)

  pub length-seg : (a n : ℕ) → length (seg at a n) ≡ n
  length-seg a zero = refl
  length-seg a (suc n) = ap suc (length-seg (a + 1) n)

pub parse_infos :
    (encodes : Ledger → Bool) (limit : ℕ) (ls : List Ledger)
    → length ls ≤ limit
    → sum_by (fails encodes) ls ≡ 0
    → parse_ledger_infos encodes limit ls ≡ ok (map info_of ls)
unfolding parse_ledger_infos sum_by
parse_infos encodes zero [] h e = refl
parse_infos encodes zero (l ∷ ls) h e = absurd (omega arith)
parse_infos encodes (suc limit) [] h e = refl
parse_infos encodes (suc limit) (l ∷ ls) h e = elim (Bool-cases (encodes l)) [
  | inl can ↦ rw (can, parse_infos encodes limit ls (omega arith) (omega (arith, e))) refl
  | inr cannot ↦ absurd (omega (arith, e, fails_once encodes l cannot))
]
