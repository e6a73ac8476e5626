-- ===== src/OpLog/Lives.antt =====
-- What a key's row in the table makes of its life, and what an update does to the lives of the keys.
use astrea.Prelude.{
  ◌≡◌, refl, sym, ap, ◌∙◌, ◌⊎◌, inl, inr, true, false, Option, none, some, List, [], ◌∷◌, ◌++◌,
  Text, ◌===◌, ok, find, arith, Bool-cases, if◌then◌else◌,
}
use astrea.Schema.Table.{update_where}
use astrea.OpLog.{
  OpStatus, pending, succeeded, failed, StoredResult, OpRow, op_record, go_on, already_succeeded,
  decide_prepare, decide_submit, has_key,
}
use astrea.OpLog.Spec.{Life, ready, Ledger, put, landed_life, life}

-- An update of one key leaves the rows of the others, and those of its own with the update.
find_other :
    (key k : Text) (f : OpRow → OpRow) (rows : List OpRow)
    → ((r : OpRow) → (f r).idempotency_key ≡ r.idempotency_key)
    → k === key ≡ false
    → find (has_key k) (update_where (has_key key) f rows) ≡ find (has_key k) rows
find_other key k f [] same h = refl
find_other key k f (r ∷ rows) same h = ground (arith, find_other key k f rows same h, same r)

find_own :
    (key : Text) (f : OpRow → OpRow) (rows : List OpRow) (row : OpRow)
    → ((r : OpRow) → (f r).idempotency_key ≡ r.idempotency_key)
    → find (has_key key) rows ≡ some row
    → find (has_key key) (update_where (has_key key) f rows) ≡ some (f row)
find_own key f [] row same h = cc
find_own key f (r ∷ rows) row same h = ground (arith, find_own key f rows row same, same r)

pub find_appended :
    (k : Text) (rows : List OpRow) (row : OpRow)
    → find (has_key k) rows ≡ none
    → find (has_key k) (rows ++ row ∷ []) ≡ (if has_key k row then some row else none)
find_appended k [] row h = refl
find_appended k (r ∷ rows) row h = ground (arith, find_appended k rows row)

pub find_before :
    (k : Text) (rows : List OpRow) (row other : OpRow)
    → find (has_key k) rows ≡ some row
    → find (has_key k) (rows ++ other ∷ []) ≡ some row
find_before k [] row other h = cc
find_before k (r ∷ rows) row other h = ground (arith, find_before k rows row other)

-- Either a record has landed with a hash, or the pipeline goes on; the ledger says which.
abbrev pub Standing : OpStatus → Option StoredResult → Type 0
Standing s o =
    ((r : StoredResult) × (landed_life s o ≡ Life.finished r)
      × (decide_prepare (some (op_record s o)) ≡ already_succeeded r.tx_hash r.contract_id)
      × (decide_submit (some (op_record s o)) ≡ ok (already_succeeded r.tx_hash r.contract_id)))
    ⊎ ((landed_life s o ≡ ready)
        × (decide_prepare (some (op_record s o)) ≡ go_on)
        × (decide_submit (some (op_record s o)) ≡ ok go_on))

Standing-succeeded : (r : StoredResult) (h : Text) → r.tx_hash ≡ h → Standing succeeded (some r)
unfolding decide_prepare decide_submit
Standing-succeeded r [] q = inr (ground arith, ground arith, ground arith)
Standing-succeeded r (c ∷ h) q = inl (r, ground arith, ground arith, ground arith)

pub standing : (s : OpStatus) (o : Option StoredResult) → Standing s o
unfolding decide_prepare decide_submit
standing succeeded (some r) = Standing-succeeded r r.tx_hash refl
standing succeeded none = inr (refl, refl, refl)
standing pending (some r) = inr (refl, refl, refl)
standing pending none = inr (refl, refl, refl)
standing failed (some r) = inr (refl, refl, refl)
standing failed none = inr (refl, refl, refl)

pub ===-eq : (s t : Text) → s === t ≡ true → s ≡ t
===-eq s t e = ground arith

pub put_same : (key k : Text) (l : Life) (m : Ledger) → m key ≡ l → put key l m k ≡ m k
put_same key k l m h = elim (Bool-cases (k === key)) [
  | inl e ↦ rw e (sym h ∙ ap m (sym (===-eq k key e)))
  | inr e ↦ rw e refl
]

abbrev pub life_in : List OpRow → Ledger
life_in rows k = life (find (has_key k) rows)

-- An update of a key's row moves its life on, and no other.
pub life-update_where :
    (key k : Text) (f : OpRow → OpRow) (rows : List OpRow) (row : OpRow)
    → ((r : OpRow) → (f r).idempotency_key ≡ r.idempotency_key)
    → find (has_key key) rows ≡ some row
    → life_in (update_where (has_key key) f rows) k ≡ put key (life (some (f row))) (life_in rows) k
life-update_where key k f rows row same h = elim (Bool-cases (k === key)) [
  | inl e ↦
      let eq = ===-eq k key e in
      rw e (
        ap (λ x. life_in (update_where (has_key key) f rows) x) eq
        ∙ ap life (find_own key f rows row same h))
  | inr e ↦ rw e (ap life (find_other key k f rows same e))
]
