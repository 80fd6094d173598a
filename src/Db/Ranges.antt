-- ===== src/Db/Ranges.antt =====
-- The cached range of ledgers agrees with the one that is queried.
use stellar_stellar_rpc.Base.{
  ℕ, ◌+◌, ◌^◌, ◌<◌, ◌≡◌, refl, ap, ◌∙◌, inl, inr, some, List, [], ◌∷◌, arith, ok, Bool, true, false,
  ltb, if◌then◌else◌, last?, Bool-cases,
}
use stellar_stellar_rpc.FeeWindow.Ingest.{LedgerCloseMeta}
use stellar_stellar_rpc.Protocol.Cursor.{Toid}
use stellar_stellar_rpc.Db.Store.{Ledger, seq, Tables, Db, Faults}
use stellar_stellar_rpc.Db.Trim.{keep, trim_ledgers}
use stellar_stellar_rpc.Db.Commit.{commit, trimmed}
use stellar_stellar_rpc.Db.Reader.{
  get_ledger_range, get_ledger_range_with_cache, get_ledger_range_without_cache,
}
use stellar_stellar_rpc.Db.Retention.{delete_before-keep, All-intro, is_retained}

last?-cons {ℓ} :
    {A : Type ℓ} (x : A) (ys : List A) {l : A} → last? ys ≡ some l → last? (x ∷ ys) ≡ some l
last?-cons x [] e = cc
last?-cons x (y ∷ ys) e = e

last?-keep {ℓ} :
    {A : Type ℓ} (p : A → Bool) (xs : List A) {l : A}
    → last? xs ≡ some l
    → p l ≡ true
    → last? (keep p xs) ≡ some l
unfolding keep
last?-keep p [] e h = cc
last?-keep {A} p (x ∷ []) {l} e h = only (p x) refl
  where
    only : (b : Bool) → p x ≡ b → last? (if b then x ∷ [] else []) ≡ some l
    only true k = e
    only false k = ground (arith, e, h, k)
last?-keep p (x ∷ y ∷ xs) e h = elim (Bool-cases (p x)) [
  | inl k ↦ rw k (last?-cons x (keep p (y ∷ xs)) (last?-keep p (y ∷ xs) e h))
  | inr k ↦ rw k (last?-keep p (y ∷ xs) e h)
]

-- the state behind a commit
abbrev pub committed : Toid → ℕ → LedgerCloseMeta → Tables → Db
committed toid retention lcm tx = record {
  tables = trimmed toid lcm.ledger_sequence retention tx;
  cache = record {
    latest_ledger_seq = lcm.ledger_sequence;
    latest_ledger_close_time = lcm.ledger_close_time;
  };
}

commit-ok :
    (toid : Toid) (retention : ℕ) (f : Faults) (lcm : LedgerCloseMeta) (tx : Tables) (db db' : Db)
    → commit toid retention f lcm tx db ≡ (db', ok tt)
    → db' ≡ committed toid retention lcm tx
unfolding commit
commit-ok toid retention f lcm tx db db' e = ground (arith, e)

-- With the cache at the last row of the table, the cached range is the queried one.
range-last :
    (rows : List Ledger) (l : Ledger)
    → last? rows ≡ some l
    → get_ledger_range_with_cache rows
        (record { latest_ledger_seq = seq l; latest_ledger_close_time = l.lcm.ledger_close_time })
      ≡ get_ledger_range_without_cache rows
unfolding get_ledger_range_with_cache get_ledger_range_without_cache
range-last [] l e = cc
range-last (x ∷ xs) l e = rw (get_ledger_range_without_cache, e) refl

get_ledger_range-cached :
    (db : Db)
    → 0 < db.cache.latest_ledger_seq
    → get_ledger_range db ≡ get_ledger_range_with_cache db.tables.ledgers db.cache
unfolding get_ledger_range
get_ledger_range-cached db h = ground arith

-- Behind a commit of the ledger that is the last of the table of the transaction, the range that
-- GetLedgerRange reads with the cache is the range of the table. (The retention window is not
-- empty, and the sequence is positive and below 2^32 - 1.)
pub commit-get_ledger_range :
    (toid : Toid) (retention : ℕ) (f : Faults) (l : Ledger) (tx : Tables) (db db' : Db)
    → commit toid retention f l.lcm tx db ≡ (db', ok tt)
    → last? tx.ledgers ≡ some l
    → 0 < retention
    → 0 < seq l
    → seq l + 1 < 2 ^ 32
    → get_ledger_range db' ≡ get_ledger_range_without_cache db'.tables.ledgers
unfolding trim_ledgers
commit-get_ledger_range toid retention f l tx db db' e last some_kept positive narrow =
    rw (commit-ok toid retention f l.lcm tx db db' e) (
      get_ledger_range-cached (committed toid retention l.lcm tx) positive
      ∙ range-last (trim_ledgers (seq l) retention tx.ledgers) l kept)
  where
    kept : last? (trim_ledgers (seq l) retention tx.ledgers) ≡ some l
    kept =
        ap last? (
          delete_before-keep (seq l) retention narrow some_kept (λ c x. ltb (seq x) c) seq
            tx.ledgers (λ c le. All-intro _ tx.ledgers (λ x. refl)))
        ∙ last?-keep (λ x. is_retained (seq l) retention (seq x)) tx.ledgers last (ground arith)
