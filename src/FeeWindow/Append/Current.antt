-- ===== src/FeeWindow/Append/Current.antt =====
-- The distribution of a fee window is always that of the ledgers it holds.
use stellar_stellar_rpc.Base.{
  ℕ, zero, suc, ◌+◌, ◌^◌, ◌≤◌, ◌<◌, ◌≡◌, refl, sym, ap, ◌∙◌, List, [], ◌∷◌, ◌++◌, Option, some,
  length, drop, Outcome, ok, err, arith, u32, get_elem?-some_of_lt,
}
use mathlib.Core.List.{append-nil, append_assoc}
use stellar_stellar_rpc.Base.Rotation.{drop-eq-cons, drop-all}
use stellar_stellar_rpc.BucketWindow
use stellar_stellar_rpc.BucketWindow.{
  LedgerBucket, LedgerBucketWindow, AppendError, not_contiguous, len, get,
}
use stellar_stellar_rpc.BucketWindow.History
use stellar_stellar_rpc.BucketWindow.History.{
  Succeeds, Succeeds-lt, append-Succeeds, kept, evicted, last_seq,
}
use stellar_stellar_rpc.BucketWindow.Inv.{IsValid, contents, new_ledger_bucket_window-IsValid}
use stellar_stellar_rpc.BucketWindow.Refine.{len-eq, length-contents, append_refines}
use stellar_stellar_rpc.BucketWindow.Access.{checked, get_refines}
use stellar_stellar_rpc.BucketWindow.Appends.{append-IsValid}
use stellar_stellar_rpc.FeeWindow.Distribution.{FeeDistribution, compute_fee_distribution}
use stellar_stellar_rpc.FeeWindow.Distribution.Summary.{
  compute_fee_distribution_lem, compute_fee_distribution-nil,
}
use stellar_stellar_rpc.FeeWindow.Append.{
  FeeWindow, new_fee_window, gather, refresh, append_ledger_fees,
}

-- the fees of some ledgers, oldest first
abbrev pub fees_of : List (LedgerBucket (List ℕ)) → List ℕ
fees_of [] = []
fees_of (b ∷ bs) = b.bucket_content ++ fees_of bs

abbrev pub held : FeeWindow → List (LedgerBucket (List ℕ))
held fw = contents fw.fees_per_ledger

pub record IsCurrent (fw : FeeWindow) : Type 0 where
  pub valid : IsValid fw.fees_per_ledger
  pub current :
      compute_fee_distribution (fees_of (held fw)) (length (held fw)) ≡ some fw.distribution

gather-suc :
    (w : LedgerBucketWindow (List ℕ)) (rounds i : ℕ) (acc : List ℕ) {b : LedgerBucket (List ℕ)}
    → get w i ≡ ok b
    → gather w (suc rounds) i acc ≡ gather w rounds (i + 1) (acc ++ b.bucket_content)
unfolding gather
gather-suc w rounds i acc e = ground arith

refresh-ok :
    (w : LedgerBucketWindow (List ℕ)) (fw : FeeWindow) {fees : List ℕ} {d : FeeDistribution}
    → gather w (len w) 0 [] ≡ some fees
    → compute_fee_distribution fees (len w) ≡ some d
    → refresh w fw ≡ (record { fees_per_ledger = w; distribution = d }, ok tt)
unfolding refresh
refresh-ok w fw e h = ground arith

-- The loop of `AppendLedgerFees` collects the fees of all ledgers of the window.
gather_from :
    (w : LedgerBucketWindow (List ℕ)) (rounds i : ℕ) (acc : List ℕ)
    → IsValid w
    → i + rounds ≡ length (contents w)
    → gather w rounds i acc ≡ some (acc ++ fees_of (drop i (contents w)))
unfolding gather
gather_from w zero i acc v h = rw (drop-all (contents w) i (omega arith), append-nil)
gather_from w (suc rounds) i acc v h =
    let (b, e) = get_elem?-some_of_lt (contents w) i (omega arith) in
    rw
      (
        gather-suc w rounds i acc (get_refines w v i ∙ ap checked e),
        drop-eq-cons (contents w) i b e,
      )
      (gather_from w rounds (i + 1) (acc ++ b.bucket_content) v (omega arith)
        ∙ rw (one i, append_assoc))
  where
    one : (i : ℕ) → i + 1 ≡ suc i
    one i = omega arith

gather_all :
    (w : LedgerBucketWindow (List ℕ))
    → IsValid w
    → gather w (len w) 0 [] ≡ some (fees_of (contents w))
gather_all w v = gather_from w (len w) 0 [] v (omega (arith, len-eq w v, length-contents w))

compute_total :
    (fees : List ℕ) (n : ℕ)
    → length fees < 2 ^ 57
    → (d : FeeDistribution) × (compute_fee_distribution fees n ≡ some d)
compute_total [] n h = (_, compute_fee_distribution-nil n)
compute_total (x ∷ xs) n h =
    let (d, e, _) = compute_fee_distribution_lem (x ∷ xs) n (omega arith) h in (d, e)

-- After a ledger is taken, the distribution is that of the new contents.
refresh-IsCurrent :
    (w : LedgerBucketWindow (List ℕ)) (fw : FeeWindow)
    → IsValid w
    → length (fees_of (contents w)) < 2 ^ 57
    → let (fw', r) = refresh w fw in (r ≡ ok tt) × (fw'.fees_per_ledger ≡ w) × IsCurrent fw'
refresh-IsCurrent w fw v h =
    let (d, e) = compute_total (fees_of (contents w)) (len w) h in
    rw (refresh-ok w fw (gather_all w v) e)
      (refl, refl, record { valid = v; current = rw (length-contents w ∙ sym (len-eq w v)) e })

-- A new fee window holds no ledger and the zero distribution.
pub new_fee_window-IsCurrent :
    (n : ℕ) → 0 < n → n ≤ 2 ^ 31 → IsCurrent (new_fee_window n) × (held (new_fee_window n) ≡ [])
unfolding new_fee_window
new_fee_window-IsCurrent n h k =
    let (v, e) = new_ledger_bucket_window-IsValid {A = List ℕ} n h k in
    (record { valid = v; current = rw e (compute_fee_distribution-nil 0) }, e)

append-refused_unchanged :
    {A : Type 0} (w : LedgerBucketWindow A) (b : LedgerBucket A) {e : AppendError}
    → (BucketWindow.append w b).1 ≡ err e
    → (BucketWindow.append w b).0 ≡ w
unfolding BucketWindow.append BucketWindow.place
append-refused_unchanged w b h = ground arith

append_ledger_fees-ok :
    (fw : FeeWindow) (b : LedgerBucket (List ℕ)) {o : Option (LedgerBucket (List ℕ))}
    → (BucketWindow.append fw.fees_per_ledger b).1 ≡ ok o
    → append_ledger_fees fw b ≡ refresh (BucketWindow.append fw.fees_per_ledger b).0 fw
unfolding append_ledger_fees
append_ledger_fees-ok fw b h = ground arith

append_ledger_fees-err :
    (fw : FeeWindow) (b : LedgerBucket (List ℕ)) {e : AppendError}
    → (BucketWindow.append fw.fees_per_ledger b).1 ≡ err e
    → append_ledger_fees fw b ≡ (fw, err e)
unfolding append_ledger_fees
append_ledger_fees-err fw b h = ground (arith, append-refused_unchanged fw.fees_per_ledger b h)

-- the error with which the abstract append refuses a ledger
refusal :
    (cap : ℕ) (xs : List (LedgerBucket (List ℕ))) (b : LedgerBucket (List ℕ))
    → ¬ Succeeds xs b
    → b.ledger_seq < 2 ^ 32
    → (e : AppendError) × ((History.append cap xs b).1 ≡ err e)
refusal cap [] b n h = absurd (n h)
refusal cap (x ∷ xs) b n h =
    (not_contiguous (u32 (last_seq x.ledger_seq xs + 1)) b.ledger_seq, ground arith)

-- what a fee window keeps when the fees of one more ledger come
abbrev pub kept_with : FeeWindow → LedgerBucket (List ℕ) → List (LedgerBucket (List ℕ))
kept_with fw b = kept fw.fees_per_ledger.cap (held fw) ++ (b ∷ [])

-- the outcome of an append that takes its ledger
pub record Taken (fw : FeeWindow) (b : LedgerBucket (List ℕ))
    (p : FeeWindow × Outcome AppendError (Unit {0})) : Type 0 where
  pub succeeded : p.1 ≡ ok tt
  pub is_current : IsCurrent p.0
  pub holds : held p.0 ≡ kept_with fw b
  pub cap_kept : p.0.fees_per_ledger.cap ≡ fw.fees_per_ledger.cap

module _ (fw : FeeWindow) (b : LedgerBucket (List ℕ)) (c : IsCurrent fw) where
  abbrev window : LedgerBucketWindow (List ℕ)
  window = fw.fees_per_ledger

  abbrev next : LedgerBucketWindow (List ℕ)
  next = (BucketWindow.append window b).0

  -- The successor of the newest ledger is taken: its fees are held with those of the retained
  -- ledgers, and the distribution is theirs, if they are fewer than 2^57.
  pub append_ledger_fees-Taken :
      Succeeds (held fw) b
      → length (fees_of (kept_with fw b)) < 2 ^ 57
      → Taken fw b (append_ledger_fees fw b)
  append_ledger_fees-Taken s h =
      let taken = append_refines window c.valid b ∙ append-Succeeds window.cap (held fw) b s in
      let (valid, cap_eq) = append-IsValid window b (Succeeds-lt (held fw) b s) c.valid in
      let holds =
        ap
          (λ (p : List (LedgerBucket (List ℕ))
              × Outcome AppendError (Option (LedgerBucket (List ℕ)))).
            p.0)
          taken in
      let (done, same, is) = refresh-IsCurrent next fw valid (rw holds h) in
      rw
        (append_ledger_fees-ok fw b (
          ap
            (λ (p : List (LedgerBucket (List ℕ))
                × Outcome AppendError (Option (LedgerBucket (List ℕ)))).
              p.1)
            taken))
        (record {
          succeeded = done;
          is_current = is;
          holds = ap contents same ∙ holds;
          cap_kept = ap (λ (w : LedgerBucketWindow (List ℕ)). w.cap) same ∙ cap_eq;
        })

  -- Any other ledger is refused, and nothing changes.
  pub append_ledger_fees-refused :
      ¬ Succeeds (held fw) b
      → b.ledger_seq < 2 ^ 32
      → (e : AppendError) × (append_ledger_fees fw b ≡ (fw, err e))
  append_ledger_fees-refused n h =
      let (e, refused) = refusal window.cap (held fw) b n h in
      (
        e,
        append_ledger_fees-err fw b (
            ap
              (λ (p : List (LedgerBucket (List ℕ))
                  × Outcome AppendError (Option (LedgerBucket (List ℕ)))).
                p.1)
              (append_refines window c.valid b)
            ∙ refused),
      )
