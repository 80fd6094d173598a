-- ===== src/Db/TransactionalCache/Tests.antt =====
-- A transaction that writes one key twice and deletes another, committed in the other order.
use stellar_stellar_rpc.Base.{◌≡◌, refl, none, some, List, [], ◌∷◌, arith}
use stellar_stellar_rpc.Base.Decimal.{Bytes, bytes_eq}
use stellar_stellar_rpc.Db.TransactionalCache.{
  Entries, Updates, set_pending, write_upsert, write_delete, commit,
}
use stellar_stellar_rpc.Db.TransactionalCache.Writes.{
  Call, upsert, delete, call, pending, direct, update_of, KeysDiffer, commit-pending,
}

abbrev calls : List Call
calls = upsert (1 ∷ []) (5 ∷ []) ∷ delete (2 ∷ []) ∷ upsert (1 ∷ []) (6 ∷ []) ∷ []

abbrev order : Updates
order = (2 ∷ [], none) ∷ (1 ∷ [], some (6 ∷ [])) ∷ []

abbrev entries : Entries
entries k = some (7 ∷ [])

order-KeysDiffer : KeysDiffer order
unfolding update_of bytes_eq
order-KeysDiffer = (refl, (refl, tt))

same_updates : (k : Bytes) → update_of order k ≡ update_of (pending [] calls) k
unfolding update_of call write_upsert write_delete set_pending bytes_eq
same_updates [] = refl
same_updates (b ∷ bs) = ground arith

commit-pending_example : commit order entries (2 ∷ []) ≡ direct entries calls (2 ∷ [])
commit-pending_example = commit-pending calls entries order order-KeysDiffer same_updates (2 ∷ [])
