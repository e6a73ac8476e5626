-- ===== src/OpLog.antt =====
-- The build, sign and submit pipeline: apps/web/src/lib/escrow/pipeline.ts and idempotency.ts.
-- A store is the table `op_log` and the envelopes handed to the network so far. What `build` and
-- `submit` answer is an argument; so is what other callers do to the table between the read and the
-- write of an operation, and whether the database refuses a write.
pub mod Laws
pub mod Spec
pub mod Lives
pub mod Refines
mod Tests
use astrea.Prelude.{
  Bool, true, false, Option, none, some, List, [], ◌∷◌, ◌++◌, Text, ◌===◌, Result, ok, err, Action,
  ◌>>=◌, ◌>>◌, pure, throw, gets, modify, from_result, find,
}
use astrea.Prelude.Json.{Json}
use astrea.Schema.Table.{update_where}

pub data OpStatus : Type 0 where
  pending succeeded failed : OpStatus

pub record StoredResult : Type 0 where
  pub tx_hash : Text
  pub contract_id : Option Text

-- `result?: StoredResult | { error: string }`
pub data Outcome : Type 0 where
  landed : StoredResult → Outcome
  error : Text → Outcome

pub record StoredPayload : Type 0 where
  pub request : Option Json
  pub result : Option Outcome

pub record OpRow : Type 0 where
  pub idempotency_key : Text
  pub operation : Text
  pub status : OpStatus
  pub payload : StoredPayload

pub record OpRecord : Type 0 where
  pub status : OpStatus
  pub tx_hash : Option Text
  pub contract_id : Option Text

pub record Store : Type 0 where
  pub op_log : List OpRow
  pub sent : List Text

-- `payload.result && "txHash" in payload.result ? payload.result : undefined`
abbrev pub landed_result : Option Outcome → Option StoredResult
landed_result (some (landed r)) = some r
landed_result (some (error _)) = none
landed_result none = none

abbrev op_record : OpStatus → Option StoredResult → OpRecord
op_record s none = record { status = s; tx_hash = none; contract_id = none }
op_record s (some r) = record { status = s; tx_hash = some r.tx_hash; contract_id = r.contract_id }

unfoldable pub to_op_record : Option OpRow → Option OpRecord
to_op_record none = none
to_op_record (some row) = some (op_record row.status (landed_result row.payload.result))

-- The decisions of `decidePrepare` and `decideSubmit`: to go on, or that the operation is done.
pub data Decision : Type 0 where
  go_on : Decision
  already_succeeded : Text → Option Text → Decision

-- `status === "SUCCEEDED" && txHash`; an empty hash is falsy.
abbrev decide : OpStatus → Option Text → Option Text → Decision
decide succeeded (some (c ∷ cs)) contract = already_succeeded (c ∷ cs) contract
decide _ _ _ = go_on

unfoldable pub decide_prepare : Option OpRecord → Decision
decide_prepare none = go_on
decide_prepare (some r) = decide r.status r.tx_hash r.contract_id

-- What the pipeline throws: no record of the key, or the message of an error of a callback.
pub data OpError : Type 0 where
  no_operation_record : OpError
  thrown : Text → OpError

unfoldable pub decide_submit : Option OpRecord → Result OpError Decision
decide_submit none = err no_operation_record
decide_submit (some r) = ok (decide r.status r.tx_hash r.contract_id)

abbrev pub has_key : Text → OpRow → Bool
has_key key row = row.idempotency_key === key

pub data PrepareResult : Type 0 where
  done : Text → Option Text → PrepareResult
  built : Text → PrepareResult

-- A row as prepared: PENDING, with the request and no result.
abbrev pub prepared : Json → OpRow → OpRow
prepared request row = record row {
  status = pending;
  payload = record { request = some request; result = none };
}

-- A write to the table: what others do to the table since the handler last used it, the message with
-- which the database refuses it, and the message of a row that is gone (P2025).
pub record Update : Type 0 where
  pub meanwhile : List OpRow → List OpRow
  pub refused : Option Text
  pub missing : Text

-- `db.opLog.update({ where: { idempotencyKey }, data })`: what it throws, if anything, and the table.
unfoldable pub update_row : Update → Text → (OpRow → OpRow) → List OpRow → Option Text × List OpRow
update_row u key f table =
    let rows = u.meanwhile table in
    elim u.refused [
      | some e ↦ (some e, rows)
      | none ↦ elim (find (has_key key) rows) [
        | none ↦ (some u.missing, rows)
        | some _ ↦ (none, update_where (has_key key) f rows)
      ]
    ]

-- `create`; that the key is there already (P2002) is caught and ignored.
abbrev create_row : Text → Text → Json → List OpRow → List OpRow
create_row key operation request rows = elim (find (has_key key) rows) [
  | some _ ↦ rows
  | none ↦
      rows
      ++ record {
        idempotency_key = key;
        operation = operation;
        status = pending;
        payload = record { request = some request; result = none };
      }
        ∷ []
]

-- The write after the read of `prepareOperation`: what it throws, if anything, and the table.
unfoldable pub write_prepared :
    Update → Option OpRow → Text → Text → Json → List OpRow → Option Text × List OpRow
unfolding update_row
write_prepared u (some _) key operation request table = update_row u key (prepared request) table
write_prepared u none key operation request table =
    let rows = u.meanwhile table in
    elim u.refused [
      | some e ↦ (some e, rows)
      | none ↦ (none, create_row key operation request rows)
    ]

unfoldable pub prepare_operation :
    Update → Text → Text → Json → Result Text Text → Action Store OpError PrepareResult
unfolding decide_prepare to_op_record write_prepared
prepare_operation u key operation request build store =
    let existing = find (has_key key) store.op_log in
    elim (decide_prepare (to_op_record existing)) [
      | already_succeeded hash contract ↦ (ok (done hash contract), store)
      | go_on ↦
          let (refused, rows) = write_prepared u existing key operation request store.op_log in
          let store' = record store { op_log = rows } in
          elim refused [
            | some e ↦ (err (thrown e), store')
            | none ↦ elim build [
              | ok xdr ↦ (ok (built xdr), store')
              | err e ↦ (err (thrown e), store')
            ]
          ]
    ]

pub record SubmitResult : Type 0 where
  pub tx_hash : Text
  pub contract_id : Option Text
  pub already : Bool

abbrev pub finished : OpStatus → Option Json → Outcome → OpRow → OpRow
finished status request result row = record row {
  status = status;
  payload = record { request = request; result = some result };
}

abbrev prior_request : Option OpRow → Option Json
prior_request none = none
prior_request (some row) = row.payload.request

-- The `catch`: the error is recorded and thrown on, or that of the record is.
unfoldable pub mark_failed : Update → Text → Option Json → Text → Action Store OpError SubmitResult
unfolding update_row
mark_failed failure key request e store =
    let (refused, rows) = update_row failure key (finished failed request (error e)) store.op_log in
    let store' = record store { op_log = rows } in
    elim refused [ none ↦ (err (thrown e), store') | some e' ↦ (err (thrown e'), store') ]

-- The `try`: the network is given the envelope and answers with a result, which is recorded, or throws.
unfoldable pub send :
    Update
    → Update
    → Text
    → Text
    → Option Json
    → Result Text StoredResult
    → Action Store OpError SubmitResult
unfolding update_row mark_failed
send success failure key signed_xdr request (ok r) store =
    let (refused, rows) =
      update_row success key (finished succeeded request (landed r)) store.op_log in
    let store' : Store = record { op_log = rows; sent = signed_xdr ∷ store.sent } in
    elim refused [
      | none ↦ (
        ok (record { tx_hash = r.tx_hash; contract_id = r.contract_id; already = false }),
        store',
      )
      | some e ↦ mark_failed failure key request e store'
    ]
send success failure key signed_xdr request (err e) store =
    mark_failed failure key request e (record store { sent = signed_xdr ∷ store.sent })

unfoldable pub submit_operation :
    Update → Update → Text → Text → Result Text StoredResult → Action Store OpError SubmitResult
unfolding decide_submit to_op_record send
submit_operation success failure key signed_xdr answer store =
    let existing = find (has_key key) store.op_log in
    elim (decide_submit (to_op_record existing)) [
      | err e ↦ (err e, store)
      | ok (already_succeeded hash contract) ↦
          (ok (record { tx_hash = hash; contract_id = contract; already = true }), store)
      | ok go_on ↦ send success failure key signed_xdr (prior_request existing) answer store
    ]
