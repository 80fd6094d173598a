-- ===== src/BucketWindow/Refine.antt =====
-- A valid window behaves as the list of its ledgers: the methods of LedgerBucketWindow against
-- `History`.
use stellar_stellar_rpc.Base.{
  ℕ, suc, ◌+◌, ◌-◌, ◌%◌, ◌≤◌, ◌<◌, ◌≡◌, refl, ap, ◌∙◌, Option, none, some, List, [], ◌∷◌, ◌++◌,
  Outcome, ok, err, arith, length, get_elem?, set, take, drop, u32, ◌==◌, if◌then◌else◌,
  length-append, length-set, get_elem?-some_of_lt, lt→ltb,
}
use mathlib.Core.List.{append-nil, append_assoc}
use native.Mathlib.Decide.{dec_lt}
use native.Mathlib.Nat.{mod-eq_of_lt, mod-eq-sub-mod, mod-lt}
use stellar_stellar_rpc.Base.Rotation.{
  rotate, length-rotate, set-eq-take-drop, drop-eq-cons, drop-all, drop-set, take-set,
}
use stellar_stellar_rpc.BucketWindow.{
  LedgerBucket, LedgerBucketWindow, AppendError, not_contiguous, len, place, append,
}
use stellar_stellar_rpc.BucketWindow.History
use stellar_stellar_rpc.BucketWindow.History.{
  IsContiguous, kept, evicted, head?, last_seq, Follows, last_seq-eq, append-IsContiguous,
}
use stellar_stellar_rpc.BucketWindow.Inv.{contents, IsValid}

module _ {A : Type 0} where
  -- The sizes that the methods compute do not wrap around.
  pub len-eq : (w : LedgerBucketWindow A) → IsValid w → len w ≡ length w.buckets
  len-eq w v = omega arith

  pub length-contents : (w : LedgerBucketWindow A) → length (contents w) ≡ length w.buckets
  length-contents w = length-rotate w.start w.buckets

  -- Overwriting the oldest bucket and moving the start is dropping it and adding at the end.
  rotate-overwrite :
      (xs : List (LedgerBucket A)) (s : ℕ) (x b : LedgerBucket A)
      → s < length xs
      → get_elem? xs s ≡ some x
      → rotate ((s + 1) % length xs) (set xs s b) ≡ drop 1 (rotate s xs) ++ (b ∷ [])
  rotate-overwrite xs s x b h e = elim (dec_lt (s + 1) (length xs)) [
    | yes p ↦ rw (mod-eq_of_lt p, drop-eq-cons xs s x e, one) (inner p)
    | no p ↦ rw (wrapped p, drop-eq-cons xs s x e) (outer p)
  ]
    where
      one : s + 1 ≡ suc s
      one = omega arith

      wrapped : ¬ (s + 1 < length xs) → (s + 1) % length xs ≡ 0
      wrapped p =
          rw (mod-eq-sub-mod {n = s + 1} {m = length xs} (omega arith))
            (mod-eq_of_lt {n = s + 1 - length xs} {m = length xs} (omega arith) ∙ omega arith)

      inner :
          s + 1 < length xs
          → rotate (suc s) (set xs s b) ≡ (drop (suc s) xs ++ take s xs) ++ (b ∷ [])
      inner p = rw (drop-set, take-set xs s b h, append_assoc)

      outer :
          ¬ (s + 1 < length xs) → rotate 0 (set xs s b) ≡ (drop (suc s) xs ++ take s xs) ++ (b ∷ [])
      outer p = rw (append-nil, set-eq-take-drop xs s b h, drop-all xs (suc s) (omega arith))

  head?-rotate :
      (xs : List (LedgerBucket A)) (s : ℕ) (x : LedgerBucket A)
      → get_elem? xs s ≡ some x
      → rotate s xs ≡ x ∷ drop 1 (rotate s xs)
  head?-rotate xs s x e = rw (drop-eq-cons xs s x e)

  -- the new window and the result of a method, with the window as the list of its ledgers
  abbrev pub view :
      LedgerBucketWindow A × Outcome AppendError (Option (LedgerBucket A))
      → List (LedgerBucket A) × Outcome AppendError (Option (LedgerBucket A))
  view p = (contents p.0, p.1)

  module _ (w : LedgerBucketWindow A) (v : IsValid w) where
    open w use {buckets, cap, start}

    full_start : ¬ (length buckets < cap) → start < length buckets
    full_start h = omega (arith, v.start_in, v.len_in)

    next_start : u32 (start + 1) % len w ≡ (start + 1) % length buckets
    next_start =
        rw (len-eq w v)
          (ap (λ (k : ℕ). k % length buckets) (omega (arith, v.start_in, v.cap_small)))

    -- what `place` leaves, by the two cases
    place-room :
        (b : LedgerBucket A)
        → length buckets < cap
        → place w b ≡ (record w { buckets = buckets ++ (b ∷ []) }, ok none)
    unfolding place
    place-room b h = ground (arith, v.cap_small)

    place-full :
        (b x : LedgerBucket A)
        → ¬ (length buckets < cap)
        → get_elem? buckets start ≡ some x
        → place w b ≡ (
          record w { buckets = set buckets start b; start = (start + 1) % length buckets },
          ok (some x),
        )
    unfolding place
    place-full b x h e = ground (arith, next_start, v.cap_small, v.len_in)

    room_start : length buckets < cap → contents w ≡ buckets
    room_start h = rw (v.unwrapped h, append-nil)

    contents-room :
        (b : LedgerBucket A)
        → length buckets < cap
        → contents (record w { buckets = buckets ++ (b ∷ []) }) ≡ contents w ++ (b ∷ [])
    contents-room b h = rw (room_start h, v.unwrapped h, append-nil)

    -- `place` is the append of the abstract view, whatever the sequence of the ledger is.
    place_refines :
        (b : LedgerBucket A)
        → view (place w b) ≡ (kept cap (contents w) ++ (b ∷ []), ok (evicted cap (contents w)))
    place_refines b = elim (dec_lt (length buckets) cap) [
      | yes h ↦ rw (place-room b h, contents-room b h) (ground (arith, length-contents w))
      | no h ↦
          let (x, e) = get_elem?-some_of_lt buckets start (full_start h) in
          rw (place-full b x h e, rotate-overwrite buckets start x b (full_start h) e)
            (ground (arith, length-contents w, head?-rotate buckets start x e))
    ]

    -- The fields of the invariant that do not speak of the ledgers.
    pub place-shape :
        (b : LedgerBucket A)
        → let w' = (place w b).0 in
          (w'.cap ≡ cap)
          × (length w'.buckets ≤ cap)
          × (w'.start < cap)
          × (length w'.buckets < cap → w'.start ≡ 0)
    place-shape b = elim (dec_lt (length buckets) cap) [
      | yes h ↦
          rw (place-room b h)
            (refl, omega (arith, length-append buckets (b ∷ [])), v.start_in, λ _. v.unwrapped h)
      | no h ↦
          let (x, e) = get_elem?-some_of_lt buckets start (full_start h) in
          rw (place-full b x h e) (
            refl,
            omega (arith, length-set buckets start b, v.len_in),
            omega (
              arith,
              mod-lt (start + 1) {m = length buckets} (omega (arith, full_start h)),
              v.len_in,
            ),
            λ q. absurd (omega (arith, length-set buckets start b)),
          )
    ]

    empty_contents : length buckets ≡ 0 → contents w ≡ []
    empty_contents h = empty_list (contents w) (length-contents w ∙ h)
      where
        empty_list : (xs : List (LedgerBucket A)) → length xs ≡ 0 → xs ≡ []
        empty_list [] e = refl
        empty_list (x ∷ xs) e = absurd (omega arith)

    pub start-lt-len : 0 < length buckets → start < length buckets
    start-lt-len h = elim (dec_lt (length buckets) cap) [
      | yes p ↦ omega (arith, v.unwrapped p)
      | no p ↦ full_start p
    ]

    -- The sequence that the check of `Append` expects is the successor of the newest ledger's.
    expected-eq :
        (x : LedgerBucket A)
        → get_elem? buckets start ≡ some x
        → u32 (x.ledger_seq + len w) ≡ u32 (last_seq x.ledger_seq (drop 1 (contents w)) + 1)
    expected-eq x e = omega (
      arith,
      len-eq w v,
      length-contents w,
      ap length (head?-rotate buckets start x e),
      last_seq-eq x.ledger_seq (drop 1 (contents w)) contig.0 contig.1,
    )
      where
        contig : IsContiguous (x ∷ drop 1 (contents w))
        contig = rw (head?-rotate buckets start x e) at v.contiguous

    append_refines_nonempty :
        (b x : LedgerBucket A)
        → get_elem? buckets start ≡ some x
        → 0 < length buckets
        → view (append w b) ≡ History.append cap (contents w) b
    unfolding append
    append_refines_nonempty b x e h =
        let head = head?-rotate buckets start x e in
        rw (append_step, abstract_step head) (ground (arith, place_refines b, expected-eq x e))
      where
        append_step : append w b ≡ (
            if u32 (x.ledger_seq + len w) == b.ledger_seq
            then place w b
            else (w, err (not_contiguous (u32 (x.ledger_seq + len w)) b.ledger_seq)))
        append_step = rw (lt→ltb 0 (len w) (omega (arith, len-eq w v)), e)

        abstract_step :
            {xs tl : List (LedgerBucket A)}
            → xs ≡ x ∷ tl
            → History.append cap xs b ≡ (
                if u32 (last_seq x.ledger_seq (drop 1 xs) + 1) == b.ledger_seq
                then (kept cap xs ++ (b ∷ []), ok (evicted cap xs))
                else (
                  xs,
                  err (not_contiguous (u32 (last_seq x.ledger_seq (drop 1 xs) + 1)) b.ledger_seq),
                ))
        abstract_step q = rw q

    append_empty : (b : LedgerBucket A) → length buckets ≡ 0 → append w b ≡ place w b
    unfolding append
    append_empty b h = ground (arith, len-eq w v)

    -- `Append` returns the result of the abstract append and leaves the window with its ledgers.
    pub append_refines :
        (b : LedgerBucket A) → view (append w b) ≡ History.append cap (contents w) b
    unfolding append
    append_refines b = elim (dec_lt 0 (length buckets)) [
      | yes h ↦
          let (x, e) = get_elem?-some_of_lt buckets start (start-lt-len h) in
          append_refines_nonempty b x e h
      | no h ↦
          let none_yet = empty_contents (omega arith) in
          rw (append_empty b (omega arith), place_refines b, none_yet)
    ]
