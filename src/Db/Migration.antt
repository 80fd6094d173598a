-- ===== src/Db/Migration.antt =====
-- cmd/stellar-rpc/internal/db/migration.go, and the loop of the daemon that applies the migrations to
-- the ledgers of their range. `S` is the state that the migrations change, with the rollback of the
-- session; true stands for an error. A migration is its range and its two methods.
pub mod Coverage
pub mod Guard
mod Tests
use stellar_stellar_rpc.Base.{
  ℕ, ◌-◌, List, [], ◌∷◌, Option, none, some, Bool, true, false, not, ◌&&◌, leb, ltb, ◌==◌, min, max,
  if◌then◌else◌,
}
use stellar_stellar_rpc.Base.Decimal.{Bytes, contains}
use stellar_stellar_rpc.Db.Trim.{keep}

pub record LedgerSeqRange : Type 0 where
  pub first : ℕ
  pub last : ℕ

unfoldable pub is_ledger_included : LedgerSeqRange → ℕ → Bool
is_ledger_included r ledger_seq = leb r.first ledger_seq && leb ledger_seq r.last

-- `Empty`
unfoldable pub is_empty : LedgerSeqRange → Bool
is_empty r = (r.first == 0) && (r.last == 0)

unfoldable pub merge : LedgerSeqRange → LedgerSeqRange → LedgerSeqRange
unfolding is_empty
merge r other =
    if is_empty r
    then other
    else if is_empty other
    then r
    else record { first = min r.first other.first; last = max r.last other.last }

pub record Migration (S : Type 0) : Type 0 where
  pub applicable_range : LedgerSeqRange
  pub apply : ℕ → S → S × Bool
  pub commit : S → S × Bool

abbrev no_range : LedgerSeqRange
no_range = record { first = 0; last = 0 }

module _ {S : Type 0} where
  -- `MultiMigration.Append`
  unfoldable pub append : List (Migration S) → Migration S → List (Migration S)
  unfolding is_empty
  append [] m = if is_empty m.applicable_range then [] else m ∷ []
  append (k ∷ ms) m = k ∷ append ms m

  -- the loop of `MultiMigration.ApplicableRange`
  unfoldable pub merge_ranges : List (Migration S) → LedgerSeqRange → LedgerSeqRange
  unfolding merge
  merge_ranges [] result = result
  merge_ranges (m ∷ ms) result = merge_ranges ms (merge m.applicable_range result)

  -- `MultiMigration.ApplicableRange`
  unfoldable pub applicable_range : List (Migration S) → LedgerSeqRange
  unfolding merge_ranges
  applicable_range ms = merge_ranges ms no_range

  abbrev after_apply : (S → S) → (S → S × Bool) → S × Bool → S × Bool
  after_apply rollback rest (s, true) = ((rest (rollback s)).0, true)
  after_apply rollback rest (s, false) = rest s

  -- `MultiMigration.Apply`: behind an error the rest is still applied
  unfoldable pub apply_all : (S → S) → List (Migration S) → ℕ → S → S × Bool
  unfolding is_ledger_included
  apply_all rollback [] ledger_seq s = (s, false)
  apply_all rollback (m ∷ ms) ledger_seq s =
      let rest = apply_all rollback ms ledger_seq in
      if not (is_ledger_included m.applicable_range ledger_seq)
      then rest s
      else after_apply rollback rest (m.apply ledger_seq s)

  abbrev pub go_on : (S → Option S) → S × Bool → Option S
  go_on rest (s, true) = none
  go_on rest (s, false) = rest s

  -- the callback of StreamLedgerRange over the ledgers that it streams; an error ends the program
  unfoldable pub apply_ledgers : (S → S) → List (Migration S) → List ℕ → S → Option S
  unfolding apply_all
  apply_ledgers rollback ms [] s = some s
  apply_ledgers rollback ms (n ∷ ns) s =
      go_on (apply_ledgers rollback ms ns) (apply_all rollback ms n s)

  -- The step of the daemon that applies all migrations: the stream of the ledgers of the table, whose
  -- sequences are given, in the merged range.
  unfoldable pub apply_migrations : (S → S) → List (Migration S) → List ℕ → S → Option S
  unfolding apply_ledgers applicable_range keep
  apply_migrations rollback ms table s =
      apply_ledgers rollback ms (keep (is_ledger_included (applicable_range ms)) table) s

  unfoldable pub after_commit : (S → S) → (S → S) → S × Bool → S
  after_commit rollback rest (s, true) = rest (rollback s)
  after_commit rollback rest (s, false) = rest s

  unfoldable pub commit_each : (S → S) → List (Migration S) → S → S
  unfolding after_commit
  commit_each rollback [] s = s
  commit_each rollback (m ∷ ms) s =
      let rest = commit_each rollback ms in after_commit rollback rest (m.commit s)

  -- `MultiMigration.Commit`: the result is that of the commit of the session
  unfoldable pub commit_all : (S → S) → (S → S × Bool) → List (Migration S) → S → S × Bool
  unfolding commit_each
  commit_all rollback commit ms s = commit (commit_each rollback ms s)

-- the keys of the meta table that are set to true, with what else the state is
pub record Guarded (S : Type 0) : Type 0 where
  pub done : List Bytes
  pub rest : S

-- what `migrationFunc` makes: a name with the range and the application of the migration
pub record Applier (S : Type 0) : Type 0 where
  pub key : Bytes
  pub range : LedgerSeqRange
  pub apply : ℕ → S → S × Bool

module _ {S : Type 0} where
  -- `guardedMigration` with its methods, where `alreadyMigrated` is false; the writes to the meta table
  -- succeed
  unfoldable pub guarded_migration : Applier S → Migration (Guarded S)
  guarded_migration a = record {
    applicable_range = a.range;
    apply = λ n s. let r = a.apply n s.rest in (record s { rest = r.0 }, r.1);
    commit = λ s. (record s { done = a.key ∷ s.done }, false);
  }

  unfoldable pub unless_done : Bool → Applier S → Option (Migration (Guarded S))
  unfolding guarded_migration
  unless_done true a = none
  unless_done false a = some (guarded_migration a)

  -- `newGuardedDataMigration`: none once it is done
  unfoldable pub new_guarded_data_migration : Guarded S → Applier S → Option (Migration (Guarded S))
  unfolding unless_done
  new_guarded_data_migration s a = unless_done (contains s.done a.key) a

  abbrev pub add_built :
      Option (Migration (Guarded S)) → List (Migration (Guarded S)) → List (Migration (Guarded S))
  add_built none ms = ms
  add_built (some m) ms = m ∷ ms

  -- the loop of `BuildMigrations`
  unfoldable pub build_migrations : Guarded S → List (Applier S) → List (Migration (Guarded S))
  unfolding new_guarded_data_migration
  build_migrations s [] = []
  build_migrations s (a ∷ more) =
      add_built (new_guarded_data_migration s a) (build_migrations s more)

-- `GetMigrationLedgerRange`, once the latest ledger is read, 0 for an empty database
unfoldable pub get_migration_ledger_range :
    (first_ledger latest_ledger retention_window : ℕ) → LedgerSeqRange
get_migration_ledger_range first_ledger latest_ledger retention_window = record {
  first =
      if ltb retention_window latest_ledger then latest_ledger - retention_window else first_ledger;
  last = latest_ledger;
}
