-- ===== src/BucketWindow/Appends.antt =====
-- A run of appends: the window keeps its invariant and holds the newest ledgers.
use stellar_stellar_rpc.Base.{
  ℕ, zero, suc, ◌-◌, ◌^◌, ◌≤◌, ◌<◌, ◌≡◌, refl, sym, ap, ◌∙◌, Option, none, some, List, [], ◌∷◌,
  ◌++◌, Outcome, ok, arith, length, drop, ltb, inl, inr, ◌⊎◌, length-append, lt→ltb, false,
}
use mathlib.Core.List.{append-nil, append_assoc}
use native.Mathlib.Decide.{dec_lt}
use stellar_stellar_rpc.BucketWindow.{LedgerBucket, LedgerBucketWindow, AppendError, append, place}
use stellar_stellar_rpc.BucketWindow.History.{
  IsContiguous, IsContiguous-drop, IsContiguous-Succeeds, Succeeds-lt, append-Succeeds, kept,
  append-IsContiguous,
}
use stellar_stellar_rpc.BucketWindow.Inv.{contents, IsValid}
use stellar_stellar_rpc.BucketWindow.Refine.{length-contents, place-shape, append_refines}

module _ {A : Type 0} where
  append-cases :
      (w : LedgerBucketWindow A) (b : LedgerBucket A)
      → ((append w b).0 ≡ (place w b).0) ⊎ ((append w b).0 ≡ w)
  unfolding append
  append-cases w b = ground arith

  -- `Append` keeps the invariant, the contiguity of the ledgers included, whether it takes the
  -- ledger or refuses it.
  pub append-IsValid :
      (w : LedgerBucketWindow A) (b : LedgerBucket A)
      → b.ledger_seq < 2 ^ 32
      → IsValid w
      → IsValid (append w b).0 × ((append w b).0.cap ≡ w.cap)
  append-IsValid w b h v = elim (append-cases w b) [
    | inl e ↦
        let (cap_eq, len_in, start_in, unwrapped) = rw (← e) at (place-shape w v b) in
        (
          record {
            cap_pos = rw cap_eq v.cap_pos;
            cap_small = rw cap_eq v.cap_small;
            len_in = rw cap_eq len_in;
            start_in = rw cap_eq start_in;
            unwrapped = rw cap_eq unwrapped;
            contiguous = contig;
          },
          cap_eq,
        )
    | inr e ↦ rw e (v, refl)
  ]
    where
      contig : IsContiguous (contents (append w b).0)
      contig =
          rw
            (ap (λ (p : List (LedgerBucket A) × Outcome AppendError (Option (LedgerBucket A))). p.0)
              (append_refines w v b))
            (append-IsContiguous w.cap (contents w) b h v.contiguous)

  -- append the ledgers one by one, and stop at the first that is refused
  pub append_all : LedgerBucketWindow A → List (LedgerBucket A) → Option (LedgerBucketWindow A)
  append_all w [] = some w
  append_all w (b ∷ bs) =
      let (w', r) = append w b in let rest = append_all w' bs in elim r [ ok _ ↦ rest | _ ↦ none ]

  -- the last `n` of a list
  abbrev pub newest : ℕ → List (LedgerBucket A) → List (LedgerBucket A)
  newest n xs = drop (length xs - n) xs

  drop-drop_one : (k : ℕ) (xs : List (LedgerBucket A)) → drop k (drop 1 xs) ≡ drop (suc k) xs
  drop-drop_one zero [] = refl
  drop-drop_one (suc k) [] = refl
  drop-drop_one k (x ∷ xs) = refl

  drop_one-append :
      (xs ys : List (LedgerBucket A)) → 0 < length xs → drop 1 xs ++ ys ≡ drop 1 (xs ++ ys)
  drop_one-append [] ys h = absurd (omega arith)
  drop_one-append (x ∷ xs) ys h = refl

  -- Giving up the oldest ledger of a full window changes neither which ledgers are the newest
  -- nor that they are contiguous.
  newest-drop_one :
      (n : ℕ) (xs : List (LedgerBucket A)) → n < length xs → newest n (drop 1 xs) ≡ newest n xs
  newest-drop_one n [] h = absurd (omega arith)
  newest-drop_one n (x ∷ xs) h = ap (λ (k : ℕ). drop k (x ∷ xs)) (count h)
    where
      count : n < suc (length xs) → suc (length xs - n) ≡ suc (length xs) - n
      count h = omega arith

  newest-all : (n : ℕ) (xs : List (LedgerBucket A)) → length xs ≤ n → newest n xs ≡ xs
  newest-all n xs h = ap (λ (k : ℕ). drop k xs) (none_over h)
    where
      none_over : length xs ≤ n → length xs - n ≡ 0
      none_over h = omega arith

  kept-newest :
      (cap : ℕ) (xs : List (LedgerBucket A)) (b : LedgerBucket A) (bs : List (LedgerBucket A))
      → 0 < cap
      → length xs ≤ cap
      → IsContiguous (xs ++ (b ∷ bs))
      → (newest cap (kept cap xs ++ (b ∷ []) ++ bs) ≡ newest cap (xs ++ (b ∷ bs)))
        × IsContiguous (kept cap xs ++ (b ∷ []) ++ bs)
  kept-newest cap xs b bs p h c = elim (dec_lt (length xs) cap) [
    | yes q ↦ rw (lt→ltb _ _ q, append_assoc) (refl, c)
    | no q ↦
        rw (not_lt q, append_assoc, drop_one-append xs (b ∷ bs) (omega arith))
          (
            newest-drop_one cap (xs ++ (b ∷ bs)) (omega (arith, length-append xs (b ∷ bs))),
            IsContiguous-drop (xs ++ (b ∷ bs)) c,
          )
  ]
    where
      not_lt : ¬ (length xs < cap) → ltb (length xs) cap ≡ false
      not_lt q = ground arith

  append_all-cons :
      (w : LedgerBucketWindow A) (b : LedgerBucket A) (bs : List (LedgerBucket A))
      {o : Option (LedgerBucket A)}
      → (append w b).1 ≡ ok o
      → append_all w (b ∷ bs) ≡ append_all (append w b).0 bs
  unfolding append_all
  append_all-cons w b bs e = ground arith

  -- Appending ledgers that continue those of a valid window succeeds for each of them, keeps the
  -- invariant and the capacity, and leaves the newest ledgers, as many as the capacity allows.
  pub append_all-newest :
      (bs : List (LedgerBucket A)) (w : LedgerBucketWindow A)
      → IsValid w
      → IsContiguous (contents w ++ bs)
      → (w' : LedgerBucketWindow A) × (append_all w bs ≡ some w')
        × IsValid w'
        × (w'.cap ≡ w.cap)
        × (contents w' ≡ newest w.cap (contents w ++ bs))
  unfolding append_all
  append_all-newest [] w v c = (
    w,
    refl,
    v,
    refl,
    rw append-nil
        (sym (newest-all w.cap (contents w) (omega (arith, v.len_in, length-contents w)))),
  )
  append_all-newest (b ∷ bs) w v c =
      let succ = IsContiguous-Succeeds (contents w) b bs c in
      let taken = append_refines w v b ∙ append-Succeeds w.cap (contents w) b succ in
      let (v', cap_eq) = append-IsValid w b (Succeeds-lt (contents w) b succ) v in
      let held =
        ap (λ (p : List (LedgerBucket A) × Outcome AppendError (Option (LedgerBucket A))). p.0)
          taken in
      let (same, c') =
        kept-newest w.cap (contents w) b bs v.cap_pos (omega (arith, v.len_in, length-contents w))
          c in
      let (w', run, valid, cap', holds) = append_all-newest bs (append w b).0 v' (rw held c') in
      (
        w',
        append_all-cons w b bs (
              ap
                (λ (p : List (LedgerBucket A) × Outcome AppendError (Option (LedgerBucket A))). p.1)
                taken)
            ∙ run,
        valid,
        cap' ∙ cap_eq,
        holds ∙ rw (held, cap_eq) same,
      )
