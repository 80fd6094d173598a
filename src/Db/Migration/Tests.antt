-- ===== src/Db/Migration/Tests.antt =====
-- Two migrations with ranges 3 to 4 and 6 to 7 that count ledgers, and their guards.
use stellar_stellar_rpc.Base.{ℕ, ◌+◌, ◌≡◌, [], ◌∷◌, false, arith}
use stellar_stellar_rpc.Db.Migration.{
  Migration, Guarded, Applier, apply_migrations, apply_ledgers, build_migrations, commit_each,
}
use stellar_stellar_rpc.Db.Migration.Coverage.{apply_migrations-apply_ledgers}
use stellar_stellar_rpc.Db.Migration.Guard.{build_migrations-commit_each}

abbrev counting : ℕ → ℕ → Migration ℕ
counting first last = record {
  applicable_range = record { first = first; last = last };
  apply = λ n s. (s + n, false);
  commit = λ s. (s, false);
}

apply_migrations-apply_ledgers_example :
    apply_migrations (λ s. 0) (counting 3 4 ∷ counting 6 7 ∷ []) (2 ∷ 3 ∷ 5 ∷ 7 ∷ 8 ∷ []) 0
    ≡ apply_ledgers (λ s. 0) (counting 3 4 ∷ counting 6 7 ∷ []) (2 ∷ 3 ∷ 5 ∷ 7 ∷ 8 ∷ []) 0
apply_migrations-apply_ledgers_example =
    apply_migrations-apply_ledgers (λ s. 0) (counting 3 4 ∷ counting 6 7 ∷ [])
      (2 ∷ 3 ∷ 5 ∷ 7 ∷ 8 ∷ []) 0
      (omega arith, (omega arith, (omega arith, (omega arith, (omega arith, tt)))))

abbrev applier : ℕ → Applier ℕ
applier k = record {
  key = k ∷ [];
  range = record { first = 3; last = 4 };
  apply = λ n s. (s + n, false);
}

abbrev state : Guarded ℕ
state = record { done = (1 ∷ []) ∷ []; rest = 0 }

build_migrations-commit_each_example :
    build_migrations
      (commit_each (λ s. s) (build_migrations state (applier 1 ∷ applier 2 ∷ [])) state)
      (applier 1 ∷ applier 2 ∷ [])
    ≡ []
build_migrations-commit_each_example =
    build_migrations-commit_each (λ s. s) state (applier 1 ∷ applier 2 ∷ [])
