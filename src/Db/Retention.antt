-- ===== src/Db/Retention.antt =====
-- What the trims of a commit keep: in all three tables, the rows of the ledgers in the retention
-- window.
use stellar_stellar_rpc.Base.{
  ℕ, ◌+◌, ◌-◌, ◌^◌, ◌≤◌, ◌<◌, ◌≡◌, refl, sym, ap, ◌∙◌, ◌⊎◌, inl, inr, Option, none, some, List, [],
  ◌∷◌, map, arith, Bool, true, not, u32, ltb, leb, Bool-cases,
}
use stellar_stellar_rpc.Base.Decimal.{Bytes}
use stellar_stellar_rpc.Base.Weights.{All}
use stellar_stellar_rpc.Protocol.Cursor.{Cursor, Toid, to_string, cmp_cursor}
use stellar_stellar_rpc.Protocol.Cursor.Text.{IsPrintable, compare_bytes-to_string}
use stellar_stellar_rpc.Db.Store.{Ledger, TransactionRow, seq, Tables}
use stellar_stellar_rpc.Db.Trim.{
  keep, cutoff, delete_before, event_id, trim_ledgers, trim_transactions, trim_events, text_lt,
  is_negative,
}
use stellar_stellar_rpc.Db.Commit.{trimmed}

-- the ledgers that are less than `retention` behind the latest one
abbrev pub is_retained : ℕ → ℕ → ℕ → Bool
is_retained latest retention s = ltb latest (s + retention)

pub keep-ext {ℓ} :
    {A : Type ℓ} (p q : A → Bool) (xs : List A) → All (λ x. p x ≡ q x) xs → keep p xs ≡ keep q xs
unfolding keep
keep-ext p q [] h = refl
keep-ext p q (x ∷ xs) h = rw (h.0, keep-ext p q xs h.1)

pub All-intro {ℓ κ} : {A : Type ℓ} (P : A → Type κ) (xs : List A) → ((x : A) → P x) → All P xs
All-intro P [] h = tt
All-intro P (x ∷ xs) h = (h x, All-intro P xs h)

pub keep-true {ℓ} :
    {A : Type ℓ} (p : A → Bool) (xs : List A) → All (λ x. p x ≡ true) xs → keep p xs ≡ xs
unfolding keep
keep-true p [] h = refl
keep-true p (x ∷ xs) h = rw (h.0, keep-true p xs h.1)

-- The cutoff of the trims: either every row is retained, or the rows from it on are.
CutoffCases : ℕ → ℕ → Type 0
CutoffCases latest retention =
    ((cutoff latest retention ≡ none) × ((s : ℕ) → is_retained latest retention s ≡ true))
    ⊎ ((c : ℕ) × (cutoff latest retention ≡ some c)
        × (c ≤ latest)
        × ((s : ℕ) → not (ltb s c) ≡ is_retained latest retention s))

module _ (latest retention : ℕ) (wide : latest + 1 < 2 ^ 32) (some_kept : 0 < retention) where
  cutoff-cases : CutoffCases latest retention
  unfolding CutoffCases cutoff
  cutoff-cases = elim (Bool-cases (leb (u32 (latest + 1)) retention)) [
    | inl h ↦ inl (rw h, λ s. ground arith)
    | inr h ↦
        inr (u32 (u32 (latest + 1) + 2 ^ 32 - retention), rw h, ground arith, λ s. ground arith)
  ]

  -- Deleting by a test that agrees with the order of the ledgers keeps the retained rows.
  pub delete_before-keep {ℓ} :
      {A : Type ℓ} (before : ℕ → A → Bool) (ledger_of : A → ℕ) (rows : List A)
      → ((c : ℕ) → c ≤ latest → All (λ row. before c row ≡ ltb (ledger_of row) c) rows)
      → delete_before before (cutoff latest retention) rows
        ≡ keep (λ row. is_retained latest retention (ledger_of row)) rows
  unfolding CutoffCases delete_before
  delete_before-keep {A} before ledger_of rows h = by_cases cutoff-cases
    where
      tests :
          (c : ℕ) (xs : List A)
          → ((s : ℕ) → not (ltb s c) ≡ is_retained latest retention s)
          → All (λ row. before c row ≡ ltb (ledger_of row) c) xs
          → All (λ row. not (before c row) ≡ is_retained latest retention (ledger_of row)) xs
      tests c [] k a = tt
      tests c (x ∷ xs) k a = (ap not a.0 ∙ k (ledger_of x), tests c xs k a.1)

      by_cases :
          CutoffCases latest retention
          → delete_before before (cutoff latest retention) rows
            ≡ keep (λ row. is_retained latest retention (ledger_of row)) rows
      by_cases (inl (e, all)) =
          rw e (sym (keep-true _ rows (All-intro _ rows (λ x. all (ledger_of x)))))
      by_cases (inr (c, e, le, same)) = rw e (keep-ext _ _ rows (tests c rows same (h c le)))

-- the position of an event, as its row id spells it
abbrev pub position : ℕ × ℕ × ℕ → Cursor
position (l, t, e) = record { ledger = l; tx = t; op = 0; event = e }

abbrev pub row_id : Toid → ℕ × ℕ × ℕ → Bytes
row_id toid p = to_string toid (position p)

keep-map {ℓ κ} :
    {A : Type ℓ} {B : Type κ} (f : A → B) (p : B → Bool) (xs : List A)
    → keep p (map f xs) ≡ map f (keep (λ x. p (f x)) xs)
unfolding keep
keep-map f p [] = refl
keep-map f p (x ∷ xs) = elim (Bool-cases (p (f x))) [
  | inl h ↦ rw (h, keep-map f p xs)
  | inr h ↦ rw (h, keep-map f p xs)
]

delete_before-map {ℓ κ} :
    {A : Type ℓ} {B : Type κ} (f : A → B) (before : ℕ → B → Bool) (o : Option ℕ) (xs : List A)
    → delete_before before o (map f xs) ≡ map f (delete_before (λ c x. before c (f x)) o xs)
unfolding delete_before
delete_before-map f before none xs = refl
delete_before-map f before (some c) xs = keep-map f _ xs

-- An id stands before that of the first event of a ledger just when its ledger does.
text_lt-event_id :
    (toid : Toid) (c : ℕ) (p : ℕ × ℕ × ℕ)
    → c < 2 ^ 31
    → IsPrintable (position p)
    → text_lt (row_id toid p) (event_id toid c 0 0) ≡ ltb p.0 c
unfolding cmp_cursor
text_lt-event_id toid c (l, t, e) h k =
    ap is_negative
      (compare_bytes-to_string toid (position (l, t, e)) (position (c, 0, 0)) k (omega arith))
    ∙ ground arith

-- what the trims of a commit leave: the rows of the retained ledgers, in each table
abbrev pub retained_tables :
    Toid → ℕ → ℕ → List Ledger → List TransactionRow → List (ℕ × ℕ × ℕ) → Tables
retained_tables toid latest retention ledgers transactions events = record {
  ledgers = keep (λ l. is_retained latest retention (seq l)) ledgers;
  transactions = keep (λ r. is_retained latest retention r.ledger_sequence) transactions;
  events = map (row_id toid) (keep (λ p. is_retained latest retention p.0) events);
}

-- Behind the trims of a commit of ledger `latest`, exactly the rows of the ledgers less than the
-- retention window behind it are left, in all three tables. Ids of events are compared as texts,
-- which agrees with the order of their ledgers. (The window is not empty, `latest` is below
-- 2^31 - 1, and the positions of the events are in the range of toid.)
pub trimmed_lem :
    (toid : Toid) (latest retention : ℕ) (ledgers : List Ledger)
    (transactions : List TransactionRow) (events : List (ℕ × ℕ × ℕ))
    → latest + 1 < 2 ^ 31
    → 0 < retention
    → All (λ p. IsPrintable (position p)) events
    → trimmed toid latest retention (record {
      ledgers = ledgers;
      transactions = transactions;
      events = map (row_id toid) events;
    })
      ≡ retained_tables toid latest retention ledgers transactions events
unfolding trim_ledgers trim_transactions trim_events
trimmed_lem toid latest retention ledgers transactions events h k printable = λ i. record {
  ledgers =
      delete_before-keep latest retention wide k (λ c l. ltb (seq l) c) seq ledgers
        (λ c le. All-intro _ ledgers (λ l. refl)) i;
  transactions =
      delete_before-keep latest retention wide k (λ c r. ltb r.ledger_sequence c)
        (λ r. r.ledger_sequence) transactions (λ c le. All-intro _ transactions (λ s. refl)) i;
  events =
      (delete_before-map (row_id toid) (λ c row. text_lt row (event_id toid c 0 0))
            (cutoff latest retention) events
          ∙ ap (map (row_id toid)) (
              delete_before-keep latest retention wide k
                (λ c p. text_lt (row_id toid p) (event_id toid c 0 0)) (λ p. p.0) events
                (λ c le. ids c le events printable)))
        i;
}
  where
    wide : latest + 1 < 2 ^ 32
    wide = omega arith

    ids :
        (c : ℕ)
        → c ≤ latest
        → (ps : List (ℕ × ℕ × ℕ)) → All (λ p. IsPrintable (position p)) ps
        → All (λ p. text_lt (row_id toid p) (event_id toid c 0 0) ≡ ltb p.0 c) ps
    ids c le [] a = tt
    ids c le (p ∷ ps) a = (text_lt-event_id toid c p (omega arith) a.0, ids c le ps a.1)
