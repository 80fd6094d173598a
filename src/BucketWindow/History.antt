-- ===== src/BucketWindow/History.antt =====
-- The abstract view of a bucket window: the retained ledgers, oldest first, and what an append does
-- to them. The sequence numbers are uint32 values, so the successor of a ledger wraps around.
use stellar_stellar_rpc.Base.{
  ℕ, ◌+◌, ◌^◌, ◌<◌, ◌≡◌, refl, Option, none, some, List, [], ◌∷◌, ◌++◌, Outcome, ok, err, arith,
  length, drop, u32, ltb, ◌==◌, if◌then◌else◌,
}
use stellar_stellar_rpc.BucketWindow.{LedgerBucket, AppendError, not_contiguous}

module _ {A : Type 0} where
  abbrev pub head? : List (LedgerBucket A) → Option (LedgerBucket A)
  head? [] = none
  head? (x ∷ xs) = some x

  -- the sequence of the newest ledger behind a ledger of sequence `s`
  abbrev pub last_seq : ℕ → List (LedgerBucket A) → ℕ
  last_seq s [] = s
  last_seq s (x ∷ xs) = last_seq x.ledger_seq xs

  -- each ledger is the successor of the one before it, and the first that of `s`
  abbrev pub Follows : ℕ → List (LedgerBucket A) → Type 0
  Follows s [] = Unit
  Follows s (x ∷ xs) = (x.ledger_seq ≡ u32 (s + 1)) × Follows x.ledger_seq xs

  abbrev pub IsContiguous : List (LedgerBucket A) → Type 0
  IsContiguous [] = Unit
  IsContiguous (x ∷ xs) = (x.ledger_seq < 2 ^ 32) × Follows x.ledger_seq xs

  -- what a window of `cap` ledgers keeps when one more comes, and what it gives up
  abbrev pub kept : ℕ → List (LedgerBucket A) → List (LedgerBucket A)
  kept cap xs = if ltb (length xs) cap then xs else drop 1 xs

  abbrev pub evicted : ℕ → List (LedgerBucket A) → Option (LedgerBucket A)
  evicted cap xs = if ltb (length xs) cap then none else head? xs

  abbrev push :
      ℕ
      → List (LedgerBucket A)
      → LedgerBucket A
      → List (LedgerBucket A) × Outcome AppendError (Option (LedgerBucket A))
  push cap xs b = (kept cap xs ++ (b ∷ []), ok (evicted cap xs))

  -- A ledger is taken when there is none yet, or when it is the successor of the newest one.
  abbrev pub append :
      ℕ
      → List (LedgerBucket A)
      → LedgerBucket A
      → List (LedgerBucket A) × Outcome AppendError (Option (LedgerBucket A))
  append cap [] b = push cap [] b
  append cap (x ∷ xs) b =
      let expected = u32 (last_seq x.ledger_seq xs + 1) in
      if expected == b.ledger_seq
      then push cap (x ∷ xs) b
      else (x ∷ xs, err (not_contiguous expected b.ledger_seq))

  pub last_seq-lt :
      (s : ℕ) (xs : List (LedgerBucket A)) → s < 2 ^ 32 → Follows s xs → last_seq s xs < 2 ^ 32
  last_seq-lt s [] h f = h
  last_seq-lt s (x ∷ xs) h f = last_seq-lt x.ledger_seq xs (omega arith) f.1

  -- the newest sequence is the oldest one plus the number of ledgers behind it
  pub last_seq-eq :
      (s : ℕ) (xs : List (LedgerBucket A))
      → s < 2 ^ 32
      → Follows s xs
      → last_seq s xs ≡ u32 (s + length xs)
  last_seq-eq s [] h f = omega arith
  last_seq-eq s (x ∷ xs) h f = omega (arith, last_seq-eq x.ledger_seq xs (omega arith) f.1)

  pub Follows-append :
      (s : ℕ) (xs : List (LedgerBucket A)) (b : LedgerBucket A)
      → Follows s xs
      → b.ledger_seq ≡ u32 (last_seq s xs + 1)
      → Follows s (xs ++ (b ∷ []))
  Follows-append s [] b f e = (e, tt)
  Follows-append s (x ∷ xs) b f e = (f.0, Follows-append x.ledger_seq xs b f.1 e)

  Follows-IsContiguous : (s : ℕ) (xs : List (LedgerBucket A)) → Follows s xs → IsContiguous xs
  Follows-IsContiguous s [] f = tt
  Follows-IsContiguous s (x ∷ xs) f = (omega arith, f.1)

  pub IsContiguous-drop : (xs : List (LedgerBucket A)) → IsContiguous xs → IsContiguous (drop 1 xs)
  IsContiguous-drop [] c = tt
  IsContiguous-drop (x ∷ xs) c = Follows-IsContiguous x.ledger_seq xs c.1

  -- `last_seq` of a nonempty list, as the check of an append sees it
  abbrev pub Succeeds : List (LedgerBucket A) → LedgerBucket A → Type 0
  Succeeds [] b = b.ledger_seq < 2 ^ 32
  Succeeds (x ∷ xs) b = b.ledger_seq ≡ u32 (last_seq x.ledger_seq xs + 1)

  IsContiguous-append :
      (xs : List (LedgerBucket A)) (b : LedgerBucket A)
      → IsContiguous xs
      → Succeeds xs b
      → IsContiguous (xs ++ (b ∷ []))
  IsContiguous-append [] b c e = (e, tt)
  IsContiguous-append (x ∷ xs) b c e = (c.0, Follows-append x.ledger_seq xs b c.1 e)

  Succeeds-drop :
      (xs : List (LedgerBucket A)) (b : LedgerBucket A) → Succeeds xs b → Succeeds (drop 1 xs) b
  Succeeds-drop [] b e = e
  Succeeds-drop (x ∷ []) b e = omega arith
  Succeeds-drop (x ∷ y ∷ xs) b e = e

  pub IsContiguous-kept :
      (cap : ℕ) (xs : List (LedgerBucket A)) (b : LedgerBucket A)
      → IsContiguous xs
      → Succeeds xs b
      → IsContiguous (kept cap xs ++ (b ∷ []))
  IsContiguous-kept cap xs b c e = ground (
    arith,
    IsContiguous-append xs b c e,
    IsContiguous-append (drop 1 xs) b (IsContiguous-drop xs c) (Succeeds-drop xs b e),
  )

  -- An append keeps the ledgers contiguous.
  pub append-IsContiguous :
      (cap : ℕ) (xs : List (LedgerBucket A)) (b : LedgerBucket A)
      → b.ledger_seq < 2 ^ 32
      → IsContiguous xs
      → IsContiguous (append cap xs b).0
  append-IsContiguous cap [] b h c = IsContiguous-kept cap [] b c h
  append-IsContiguous cap (x ∷ xs) b h c = ground (arith, IsContiguous-kept cap (x ∷ xs) b c)

  Follows-split :
      (s : ℕ) (xs : List (LedgerBucket A)) (b : LedgerBucket A) (bs : List (LedgerBucket A))
      → Follows s (xs ++ (b ∷ bs))
      → b.ledger_seq ≡ u32 (last_seq s xs + 1)
  Follows-split s [] b bs f = f.0
  Follows-split s (x ∷ xs) b bs f = Follows-split x.ledger_seq xs b bs f.1

  -- In a contiguous list each ledger succeeds those before it.
  pub IsContiguous-Succeeds :
      (xs : List (LedgerBucket A)) (b : LedgerBucket A) (bs : List (LedgerBucket A))
      → IsContiguous (xs ++ (b ∷ bs))
      → Succeeds xs b
  IsContiguous-Succeeds [] b bs c = c.0
  IsContiguous-Succeeds (x ∷ xs) b bs c = Follows-split x.ledger_seq xs b bs c.1

  pub Succeeds-lt :
      (xs : List (LedgerBucket A)) (b : LedgerBucket A) → Succeeds xs b → b.ledger_seq < 2 ^ 32
  Succeeds-lt [] b e = e
  Succeeds-lt (x ∷ xs) b e = omega arith

  -- A successor is taken.
  pub append-Succeeds :
      (cap : ℕ) (xs : List (LedgerBucket A)) (b : LedgerBucket A)
      → Succeeds xs b
      → append cap xs b ≡ (kept cap xs ++ (b ∷ []), ok (evicted cap xs))
  append-Succeeds cap [] b e = refl
  append-Succeeds cap (x ∷ xs) b e = ground arith
