-- ===== src/Db/TransactionalCache.antt =====
-- cmd/stellar-rpc/internal/db/transactionalcache.go. The entries of the cache are a map from a text to
-- a text; the pending updates of a transaction are a list of keys with their new values, none for a
-- deletion, in which a key stands once. Go iterates over them in any order.
pub mod Writes
mod Tests
use stellar_stellar_rpc.Base.{Option, none, some, List, [], ◌∷◌, Bool, true, false, if◌then◌else◌}
use stellar_stellar_rpc.Base.Decimal.{Bytes, bytes_eq}
use mathlib.Core.Option

abbrev pub Entries : Type 0
Entries = Bytes → Option Bytes

abbrev pub Updates : Type 0
Updates = List (Bytes × Option Bytes)

-- `entries[key] = value`, `delete(entries, key)`
abbrev pub put : Entries → Bytes → Option Bytes → Entries
put entries key value k = if bytes_eq key k then value else entries k

-- `newReadTx`: a copy of the entries; `get` and `upsert` of a read transaction, where the inner none
-- is a key that the storage does not have
unfoldable pub new_read_tx : Entries → Bytes → Option (Option Bytes)
new_read_tx entries k = Option.map some (entries k)

unfoldable pub read_upsert :
    (Bytes → Option (Option Bytes)) → Bytes → Option Bytes → Bytes → Option (Option Bytes)
read_upsert entries key value k = if bytes_eq key k then some value else entries k

-- `pendingUpdates[key] = value`
unfoldable pub set_pending : Updates → Bytes → Option Bytes → Updates
set_pending [] key value = (key, value) ∷ []
set_pending ((k, v) ∷ us) key value =
    let rest = set_pending us key value in if bytes_eq k key then (k, value) ∷ us else (k, v) ∷ rest

-- `upsert` and `delete` of a write transaction
unfoldable pub write_upsert : Updates → Bytes → Bytes → Updates
unfolding set_pending
write_upsert us key val = set_pending us key (some val)

unfoldable pub write_delete : Updates → Bytes → Updates
unfolding set_pending
write_delete us key = set_pending us key none

-- `commit`, over the updates in the order of the iteration
unfoldable pub commit : Updates → Entries → Entries
commit [] entries = entries
commit ((k, v) ∷ us) entries = commit us (put entries k v)
