-- ===== src/Db/Migration/Guard.antt =====
-- A guarded migration that was committed is not built again.
use stellar_stellar_rpc.Base.{
  ◌≡◌, refl, ap, sym, ◌∙◌, inl, inr, List, [], ◌∷◌, true, false, arith, Bool-cases,
}
use stellar_stellar_rpc.Base.Decimal.{Bytes, bytes_eq_refl, contains}
use stellar_stellar_rpc.Base.Weights.{All}
use mathlib.Core.Path.{subst}
use stellar_stellar_rpc.Db.Migration.{
  Guarded, Applier, guarded_migration, unless_done, add_built, new_guarded_data_migration,
  build_migrations, commit_each, after_commit,
}

contains-cons : (x : Bytes) (xs : List Bytes) → contains (x ∷ xs) x ≡ true
unfolding contains
contains-cons x xs = ground (arith, bytes_eq_refl x)

contains-cons_mono :
    (x y : Bytes) (xs : List Bytes) → contains xs x ≡ true → contains (y ∷ xs) x ≡ true
unfolding contains
contains-cons_mono x y xs h = ground (arith, h)

module _ {S : Type 0} (s : Guarded S) (a : Applier S) (apps : List (Applier S)) where
  build_migrations-skip :
      contains s.done a.key ≡ true → build_migrations s (a ∷ apps) ≡ build_migrations s apps
  unfolding build_migrations new_guarded_data_migration unless_done
  build_migrations-skip e = ap (λ b. add_built (unless_done b a) (build_migrations s apps)) e

  build_migrations-cons :
      contains s.done a.key ≡ false
      → build_migrations s (a ∷ apps) ≡ guarded_migration a ∷ build_migrations s apps
  unfolding build_migrations new_guarded_data_migration unless_done
  build_migrations-cons e = ap (λ b. add_built (unless_done b a) (build_migrations s apps)) e

module _ {S : Type 0} (rollback : Guarded S → Guarded S) (s : Guarded S) where
  committed : List (Applier S) → Guarded S → Guarded S
  committed apps t = commit_each rollback (build_migrations s apps) t

  committed-skip :
      (a : Applier S) (apps : List (Applier S)) (t : Guarded S)
      → contains s.done a.key ≡ true
      → committed (a ∷ apps) t ≡ committed apps t
  unfolding committed
  committed-skip a apps t e =
      ap (λ ms. commit_each rollback ms t) (build_migrations-skip s a apps e)

  committed-cons :
      (a : Applier S) (apps : List (Applier S)) (t : Guarded S)
      → contains s.done a.key ≡ false
      → committed (a ∷ apps) t ≡ committed apps (record t { done = a.key ∷ t.done })
  unfolding committed commit_each guarded_migration after_commit
  committed-cons a apps t e =
      ap (λ ms. commit_each rollback ms t) (build_migrations-cons s a apps e)

  committed_mono :
      (apps : List (Applier S)) (t : Guarded S) (k : Bytes)
      → contains t.done k ≡ true
      → contains (committed apps t).done k ≡ true
  unfolding committed commit_each build_migrations
  committed_mono [] t k h = h
  committed_mono (a ∷ apps) t k h = elim (Bool-cases (contains s.done a.key)) [
    | inl e ↦
        subst (λ u. contains u.done k ≡ true) (sym (committed-skip a apps t e))
          (committed_mono apps t k h)
    | inr e ↦
        subst (λ u. contains u.done k ≡ true) (sym (committed-cons a apps t e))
          (committed_mono apps (record t { done = a.key ∷ t.done }) k
            (contains-cons_mono k a.key t.done h))
  ]

  committed-All :
      (apps : List (Applier S)) (t : Guarded S)
      → ((k : Bytes) → contains s.done k ≡ true → contains t.done k ≡ true)
      → All (λ a. contains (committed apps t).done a.key ≡ true) apps
  committed-All [] t h = tt
  committed-All (a ∷ apps) t h = elim (Bool-cases (contains s.done a.key)) [
    | inl e ↦
        subst (λ u. All (λ b. contains u.done b.key ≡ true) (a ∷ apps))
          (sym (committed-skip a apps t e))
          (committed_mono apps t a.key (h a.key e), committed-All apps t h)
    | inr e ↦
        subst (λ u. All (λ b. contains u.done b.key ≡ true) (a ∷ apps))
          (sym (committed-cons a apps t e))
          (
            committed_mono apps (record t { done = a.key ∷ t.done }) a.key
                (contains-cons a.key t.done),
            committed-All apps (record t { done = a.key ∷ t.done })
                (λ k i. contains-cons_mono k a.key t.done (h k i)),
          )
  ]

build_migrations-none :
    {S : Type 0} (t : Guarded S) (apps : List (Applier S))
    → All (λ a. contains t.done a.key ≡ true) apps
    → build_migrations t apps ≡ []
unfolding build_migrations
build_migrations-none t [] h = refl
build_migrations-none t (a ∷ apps) h =
    build_migrations-skip t a apps h.0 ∙ build_migrations-none t apps h.1

-- Once the migrations that a start builds are committed, the next start builds none of them again.
pub build_migrations-commit_each :
    {S : Type 0} (rollback : Guarded S → Guarded S) (s : Guarded S) (apps : List (Applier S))
    → build_migrations (commit_each rollback (build_migrations s apps) s) apps ≡ []
unfolding committed
build_migrations-commit_each rollback s apps =
    build_migrations-none _ apps (committed-All rollback s apps s (λ k h. h))
