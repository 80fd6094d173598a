-- ===== src/Db/TransactionalCache/Writes.antt =====
-- A committed write transaction does what its calls say, in their order.
use stellar_stellar_rpc.Base.{
  ◌≡◌, refl, sym, ap, ◌∙◌, inl, inr, Option, none, some, List, [], ◌∷◌, Bool, true, false, arith,
  Bool-cases, if◌then◌else◌,
}
use stellar_stellar_rpc.Base.Decimal.{Bytes, bytes_eq, bytes_eq_iff}
use stellar_stellar_rpc.Db.TransactionalCache.{
  Entries, Updates, put, set_pending, write_upsert, write_delete, commit,
}

-- a call of a write transaction
pub data Call : Type 0 where
  upsert : (key val : Bytes) → Call
  delete : (key : Bytes) → Call

unfoldable pub call : Updates → Call → Updates
unfolding write_upsert write_delete
call us (upsert key val) = write_upsert us key val
call us (delete key) = write_delete us key

abbrev pub pending : Updates → List Call → Updates
pending us [] = us
pending us (c ∷ cs) = pending (call us c) cs

-- the calls made on a map at once
abbrev pub direct : Entries → List Call → Entries
direct entries [] = entries
direct entries (upsert key val ∷ cs) = direct (put entries key (some val)) cs
direct entries (delete key ∷ cs) = direct (put entries key none) cs

-- the update of a key
unfoldable pub update_of : Updates → Bytes → Option (Option Bytes)
update_of [] k = none
update_of ((key, v) ∷ us) k = let rest = update_of us k in if bytes_eq key k then some v else rest

abbrev over : Option (Option Bytes) → Option Bytes → Option Bytes
over none old = old
over (some v) old = v

-- each key stands once
abbrev pub KeysDiffer : Updates → Type 0
KeysDiffer [] = Unit
KeysDiffer ((k, v) ∷ us) = (update_of us k ≡ none) × KeysDiffer us

commit-over :
    (us : Updates) (entries : Entries) (k : Bytes)
    → KeysDiffer us
    → commit us entries k ≡ over (update_of us k) (entries k)
unfolding commit update_of
commit-over [] entries k d = refl
commit-over ((key, v) ∷ us) entries k (new, d) = elim (Bool-cases (bytes_eq key k)) [
  | inr e ↦
      commit-over us (put entries key v) k d
      ∙ ap (λ b. over (update_of us k) (if b then v else entries k)) e
      ∙ ap (λ b. over (if b then some v else update_of us k) (entries k)) (sym e)
  | inl e ↦
      let none_left : update_of us k ≡ none =
        ap (update_of us) (sym ((bytes_eq_iff key k).0 e)) ∙ new in
      commit-over us (put entries key v) k d
      ∙ ap (λ o. over o (put entries key v k)) none_left
      ∙ ap (λ b. if b then v else entries k) e
      ∙ ap (λ b. over (if b then some v else update_of us k) (entries k)) (sym e)
]

update_of-set_pending :
    (us : Updates) (key : Bytes) (v : Option Bytes) (k : Bytes)
    → update_of (set_pending us key v) k ≡ (if bytes_eq key k then some v else update_of us k)
unfolding update_of set_pending
update_of-set_pending [] key v k = refl
update_of-set_pending ((key', w) ∷ us) key v k = elim (Bool-cases (bytes_eq key' key)) [
  | inl e ↦
      let same : key' ≡ key = (bytes_eq_iff key' key).0 e in
      rw e (at_key same (bytes_eq key k) refl)
  | inr e ↦ rw e (by_first e (bytes_eq key' k) refl (update_of-set_pending us key v k))
]
  where
    at_key :
        key' ≡ key
        → (b : Bool) → bytes_eq key k ≡ b
        → (if bytes_eq key' k then some v else update_of us k)
          ≡ (if b then some v else (if bytes_eq key' k then some w else update_of us k))
    at_key same true e =
        ap (λ x. if bytes_eq x k then some v else update_of us k) same
        ∙ ap (λ b. if b then some v else update_of us k) e
    at_key same false e =
        let f : bytes_eq key' k ≡ false = ap (λ x. bytes_eq x k) same ∙ e in
        ap (λ b. if b then some v else update_of us k) f
        ∙ sym (ap (λ b. if b then some w else update_of us k) f)

    by_first :
        bytes_eq key' key ≡ false
        → (b : Bool) → bytes_eq key' k ≡ b
        → update_of (set_pending us key v) k ≡ (if bytes_eq key k then some v else update_of us k)
        → (if b then some w else update_of (set_pending us key v) k)
          ≡ (if bytes_eq key k then some v else (if b then some w else update_of us k))
    by_first d true e ih = elim (Bool-cases (bytes_eq key k)) [
      | inl t ↦
          let same : key' ≡ key = (bytes_eq_iff key' k).0 e ∙ sym ((bytes_eq_iff key k).0 t) in
          absurd (ground (arith, d, (bytes_eq_iff key' key).1 same))
      | inr f ↦ ap (λ b. if b then some v else some w) (sym f)
    ]
    by_first d false e ih = ih

direct-ext :
    (cs : List Call) (e e' : Entries) (k : Bytes)
    → ((k : Bytes) → e k ≡ e' k)
    → direct e cs k ≡ direct e' cs k
direct-ext [] e e' k h = h k
direct-ext (upsert key val ∷ cs) e e' k h =
    direct-ext cs _ _ k (λ k'. ap (λ o. if bytes_eq key k' then some val else o) (h k'))
direct-ext (delete key ∷ cs) e e' k h =
    direct-ext cs _ _ k (λ k'. ap (λ o. if bytes_eq key k' then none else o) (h k'))

over-set_pending :
    (us : Updates) (entries : Entries) (key : Bytes) (v : Option Bytes) (k : Bytes)
    → over (update_of (set_pending us key v) k) (entries k)
      ≡ put (λ k. over (update_of us k) (entries k)) key v k
over-set_pending us entries key v k =
    ap (λ o. over o (entries k)) (update_of-set_pending us key v k) ∙ by_key (bytes_eq key k)
  where
    by_key :
        (b : Bool)
        → over (if b then some v else update_of us k) (entries k)
          ≡ (if b then v else over (update_of us k) (entries k))
    by_key true = refl
    by_key false = refl

pending-direct :
    (cs : List Call) (us : Updates) (entries : Entries) (k : Bytes)
    → over (update_of (pending us cs) k) (entries k)
      ≡ direct (λ k. over (update_of us k) (entries k)) cs k
unfolding call write_upsert write_delete
pending-direct [] us entries k = refl
pending-direct (upsert key val ∷ cs) us entries k =
    pending-direct cs _ entries k ∙ direct-ext cs _ _ k (over-set_pending us entries key (some val))
pending-direct (delete key ∷ cs) us entries k =
    pending-direct cs _ entries k ∙ direct-ext cs _ _ k (over-set_pending us entries key none)

-- Committing a write transaction after any calls leaves the entries that the calls would leave if
-- each was made on the entries at once, in whatever order the commit iterates over the pending
-- updates.
pub commit-pending :
    (cs : List Call) (entries : Entries) (order : Updates)
    → KeysDiffer order
    → ((k : Bytes) → update_of order k ≡ update_of (pending [] cs) k)
    → (k : Bytes) → commit order entries k ≡ direct entries cs k
unfolding update_of
commit-pending cs entries order d same k =
    commit-over order entries k d
    ∙ ap (λ o. over o (entries k)) (same k)
    ∙ pending-direct cs [] entries k
