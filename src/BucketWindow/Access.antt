-- ===== src/BucketWindow/Access.antt =====
-- Reading a valid window: `Get` and `GetLedgerRange` against the list of its ledgers.
use stellar_stellar_rpc.Base.{
  ℕ, suc, ◌+◌, ◌-◌, ◌%◌, ◌<◌, ◌≡◌, refl, sym, ap, ◌∙◌, Option, none, some, List, [], ◌∷◌, Outcome,
  ok, panic, arith, length, get_elem?, take, last?, u32, inl, inr, ◌⊎◌,
}
use native.Mathlib.Decide.{dec_lt}
use native.Mathlib.Nat.{mod-eq_of_lt, mod-eq-sub-mod}
use stellar_stellar_rpc.Base.Rotation.{get_elem?-rotate_low, get_elem?-rotate_high, get_elem?-none}
use stellar_stellar_rpc.BucketWindow.{
  LedgerBucket, LedgerBucketWindow, AppendError, len, get, info, LedgerRange, zero_range,
  get_ledger_range,
}
use stellar_stellar_rpc.BucketWindow.History.{head?}
use stellar_stellar_rpc.BucketWindow.Inv.{contents, IsValid}
use stellar_stellar_rpc.BucketWindow.Refine.{len-eq, length-contents, start-lt-len}

module _ {A : Type 0} where
  -- the result of an access that panics out of range
  abbrev pub checked : Option (LedgerBucket A) → Outcome AppendError (LedgerBucket A)
  checked none = panic
  checked (some b) = ok b

  module _ (w : LedgerBucketWindow A) (v : IsValid w) where
    open w use {buckets, cap, start}

    get_index :
        (i : ℕ)
        → i < length buckets
        → get_elem? (contents w) i ≡ get_elem? buckets (u32 (start + i) % len w)
    get_index i h = elim (dec_lt (start + i) (length buckets)) [
      | yes p ↦
          get_elem?-rotate_low buckets (take start buckets) start i p
          ∙ ap (get_elem? buckets) (sym (index_low p))
      | no p ↦
          get_elem?-rotate_high buckets start i (omega (arith, in_range)) (omega arith) h
          ∙ ap (get_elem? buckets) (sym (index_high p))
    ]
      where
        in_range : start < length buckets
        in_range = start-lt-len w v (omega arith)

        no_wrap : u32 (start + i) % len w ≡ (start + i) % length buckets
        no_wrap =
            rw (len-eq w v) (
              ap (λ (k : ℕ). k % length buckets) (omega (arith, v.start_in, v.cap_small, v.len_in)))

        index_low : start + i < length buckets → u32 (start + i) % len w ≡ start + i
        index_low p = no_wrap ∙ mod-eq_of_lt p

        index_high :
            ¬ (start + i < length buckets) → u32 (start + i) % len w ≡ start + i - length buckets
        index_high p =
            no_wrap
            ∙ mod-eq-sub-mod {n = start + i} {m = length buckets} (omega arith)
            ∙ mod-eq_of_lt {n = start + i - length buckets} {m = length buckets}
                (omega (arith, in_range))

    -- `Get` returns the ledger at that place of the list, and panics just when there is none.
    pub get_refines : (i : ℕ) → get w i ≡ checked (get_elem? (contents w) i)
    unfolding get
    get_refines i = elim (dec_lt i (length buckets)) [
      | yes h ↦ rw (get_index i h) (ground (arith, len-eq w v))
      | no h ↦
          rw (get_elem?-none (contents w) i (omega (arith, length-contents w)))
            (ground (arith, len-eq w v))
    ]

  last?-eq : (xs : List (LedgerBucket A)) → get_elem? xs (length xs - 1) ≡ last? xs
  last?-eq [] = refl
  last?-eq (x ∷ []) = ap (get_elem? (x ∷ [])) (one_less 0)
    where
      one_less : (n : ℕ) → suc n - 1 ≡ n
      one_less n = omega arith
  last?-eq (x ∷ y ∷ xs) = ap (get_elem? (x ∷ y ∷ xs)) (one_less (length xs)) ∙ last?-eq (y ∷ xs)
    where
      one_less : (n : ℕ) → suc (suc n) - 1 ≡ suc (suc n - 1)
      one_less n = omega arith

  last?-cons :
      (x : LedgerBucket A) (xs : List (LedgerBucket A))
      → (y : LedgerBucket A) × (last? (x ∷ xs) ≡ some y)
  last?-cons x [] = (x, refl)
  last?-cons x (z ∷ xs) = last?-cons z xs

  ends :
      (xs : List (LedgerBucket A))
      → (xs ≡ [])
        ⊎ ((x : LedgerBucket A) × (y : LedgerBucket A) × (head? xs ≡ some x)
            × (last? xs ≡ some y)
            × (0 < length xs))
  ends [] = inl refl
  ends (x ∷ xs) = let (y, e) = last?-cons x xs in inr (x, y, refl, e, omega arith)

  -- the range that a list of ledgers spans: the zero range when it is empty
  abbrev pub range_of : Option (LedgerBucket A) → Option (LedgerBucket A) → LedgerRange
  range_of (some a) (some b) = record { first_ledger = info a; last_ledger = info b }
  range_of _ _ = zero_range

  -- `GetLedgerRange` returns the oldest and the newest ledger of the window, the zero range when
  -- it is empty, and never panics.
  pub get_ledger_range_refines :
      (w : LedgerBucketWindow A)
      → IsValid w
      → get_ledger_range w ≡ ok (range_of (head? (contents w)) (last? (contents w)))
  unfolding get_ledger_range
  get_ledger_range_refines w v = elim (ends (contents w)) [
    | inl e ↦ rw e (ground (arith, len-eq w v, length-contents w, ap length e))
    | inr (x, y, some_head, some_last, pos) ↦
        rw (some_head, some_last)
          (ground (
            arith,
            len-eq w v,
            length-contents w,
            get_refines w v 0,
            get_refines w v (len w - 1),
            some_first (contents w) some_head,
            last?-eq (contents w),
          ))
  ]
    where
      some_first :
          (xs : List (LedgerBucket A)) {x : LedgerBucket A}
          → head? xs ≡ some x
          → get_elem? xs 0 ≡ some x
      some_first [] e = cc
      some_first (z ∷ zs) e = e
