-- ===== src/OpLog/Laws.antt =====
-- Idempotency of the pipeline.
use astrea.Prelude.{
  true, false, ◌≡◌, ◌≢◌, refl, ap, inl, inr, Option, none, some, List, [], ◌∷◌, Text, Result, ok,
  err, arith, find, Option-cases,
}
use astrea.Prelude.Json.{Json}
use astrea.Schema.Table.{update_where}
use astrea.OpLog.{
  pending, succeeded, failed, StoredResult, landed, error, OpRow, Store, has_key, prepared,
  to_op_record, decide_prepare, decide_submit, prepare_operation, write_prepared, done,
  SubmitResult, Update, update_row, mark_failed, finished, send, submit_operation,
  no_operation_record,
}

-- An update that keeps the key changes the row that is found by the key, and no other.
find-update_where :
    (key : Text) (f : OpRow → OpRow) (rows : List OpRow) (row : OpRow)
    → ((r : OpRow) → has_key key (f r) ≡ has_key key r)
    → find (has_key key) rows ≡ some row
    → find (has_key key) (update_where (has_key key) f rows) ≡ some (f row)
find-update_where key f [] row keeps h = cc
find-update_where key f (r ∷ rows) row keeps h =
    ground (arith, keeps r, find-update_where key f rows row keeps)

-- A row that was updated is found as it was made.
update_row-found :
    (u : Update) (key : Text) (f : OpRow → OpRow) (table rows : List OpRow)
    → ((r : OpRow) → has_key key (f r) ≡ has_key key r)
    → update_row u key f table ≡ (none, rows)
    → (row : OpRow) × (find (has_key key) rows ≡ some (f row))
unfolding update_row
update_row-found u key f table rows keeps h = elim (Option-cases u.refused) [
  | inr (e, q) ↦ absurd (ground arith)
  | inl q ↦ elim (Option-cases (find (has_key key) (u.meanwhile table))) [
    | inl missing ↦ absurd (ground arith)
    | inr (row, found) ↦
        (row, ground (arith, find-update_where key f (u.meanwhile table) row keeps found))
  ]
]

mark_failed-throws :
    (failure : Update) (key e : Text) (request : Option Json) (store store' : Store)
    (res : SubmitResult)
    → mark_failed failure key request e store ≢ (ok res, store')
unfolding mark_failed
mark_failed-throws failure key e request store store' res h =
    elim (Option-cases
      (update_row failure key (finished failed request (error e)) store.op_log).0) [
        | inl q ↦ ground arith
        | inr (x, q) ↦ ground arith
      ]

-- What is found under the key once the network has answered and the answer was recorded.
send-found :
    (success failure : Update) (key xdr : Text) (request : Option Json) (r : StoredResult)
    (store store' : Store) (res : SubmitResult)
    → send success failure key xdr request (ok r) store ≡ (ok res, store')
    → (row : OpRow) × (find (has_key key) store'.op_log
        ≡ some (finished succeeded request (landed r) row))
unfolding send
send-found success failure key xdr request r store store' res h =
    let written = update_row success key (finished succeeded request (landed r)) store.op_log in
    elim (Option-cases written.0) [
      | inl q ↦
          let (row, found) =
            update_row-found success key (finished succeeded request (landed r)) store.op_log
              written.1 (λ _. refl) (ap (λ x. (x, written.1)) q) in
          (row, ground arith)
      | inr (e, q) ↦ absurd (
          mark_failed-throws failure key e request
            (record { op_log = written.1; sent = xdr ∷ store.sent }) store' res (ground arith))
    ]

-- A submission that went to the network and came back found a record to write to.
submit_operation_sent :
    (success failure : Update) (key xdr : Text) (r : StoredResult) (store store' : Store)
    (res : SubmitResult)
    → submit_operation success failure key xdr (ok r) store ≡ (ok res, store')
    → res.already ≡ false
    → (row : OpRow) × (request : Option Json) × (find (has_key key) store'.op_log
        ≡ some (finished succeeded request (landed r) row))
unfolding submit_operation decide_submit to_op_record
submit_operation_sent success failure key xdr r store store' res h fresh =
    elim (Option-cases (find (has_key key) store.op_log)) [
      | inl missing ↦ absurd (ground arith)
      | inr (row, e) ↦
          let request = row.payload.request in
          let (row', found) =
            send-found success failure key xdr request r store store' res (ground arith) in
          (row', request, found)
    ]

-- A record that has landed with a hash answers for every later submission.
submit_operation_landed :
    (success failure : Update) (key xdr : Text) (r : StoredResult)
    (answer : Result Text StoredResult) (store : Store) (row : OpRow) (request : Option Json)
    → r.tx_hash ≢ []
    → find (has_key key) store.op_log ≡ some (finished succeeded request (landed r) row)
    → submit_operation success failure key xdr answer store
      ≡ (ok (record { tx_hash = r.tx_hash; contract_id = r.contract_id; already = true }), store)
unfolding submit_operation decide_submit to_op_record
submit_operation_landed success failure key xdr r answer store row request hash h = ground arith

-- Once a submission has landed with a hash and returned, so that the database recorded it, whatever
-- others wrote meanwhile, submitting under its key again hands nothing to the network, changes nothing,
-- and returns the hash and contract of the first.
pub submit_operation_replay :
    (success failure success' failure' : Update) (key xdr xdr' : Text) (r : StoredResult)
    (answer : Result Text StoredResult) (store store' : Store) (res : SubmitResult)
    → r.tx_hash ≢ []
    → submit_operation success failure key xdr (ok r) store ≡ (ok res, store')
    → res.already ≡ false
    → submit_operation success' failure' key xdr' answer store'
      ≡ (ok (record { tx_hash = r.tx_hash; contract_id = r.contract_id; already = true }), store')
submit_operation_replay success failure success' failure' key xdr xdr' r answer store store' res
      hash h fresh =
    let (row, request, found) =
      submit_operation_sent success failure key xdr r store store' res h fresh in
    submit_operation_landed success' failure' key xdr' r answer store' row request hash found

-- Once a submission has landed with a hash, preparing its key again builds nothing and writes nothing,
-- whatever others do meanwhile, and returns the hash and contract of the submission.
pub prepare_operation_replay :
    (success failure : Update) (key xdr operation : Text) (r : StoredResult) (u : Update)
    (request : Json) (build : Result Text Text) (store store' : Store) (res : SubmitResult)
    → r.tx_hash ≢ []
    → submit_operation success failure key xdr (ok r) store ≡ (ok res, store')
    → res.already ≡ false
    → prepare_operation u key operation request build store'
      ≡ (ok (done r.tx_hash r.contract_id), store')
unfolding prepare_operation decide_prepare to_op_record
prepare_operation_replay success failure key xdr operation r u request build store store' res hash h
      fresh =
    let (row, prior, found) =
      submit_operation_sent success failure key xdr r store store' res h fresh in
    ground arith

-- Without a prepared record nothing is sent and nothing is written.
pub submit_operation_unprepared :
    (success failure : Update) (key xdr : Text) (answer : Result Text StoredResult) (store : Store)
    → find (has_key key) store.op_log ≡ none
    → submit_operation success failure key xdr answer store ≡ (err no_operation_record, store)
unfolding submit_operation decide_submit to_op_record
submit_operation_unprepared success failure key xdr answer store h = rw (h, submit_operation)

-- A preparation that read the record as PENDING before a submission landed, and writes after it
-- without being refused by the database, takes the record back to PENDING and drops the hash.
pub prepare_operation_erases :
    (key operation : Text) (meanwhile : List OpRow → List OpRow) (missing : Text) (request : Json)
    (build : Result Text Text) (store : Store) (row row' : OpRow)
    → find (has_key key) store.op_log ≡ some row
    → row.status ≡ pending
    → find (has_key key) (meanwhile store.op_log) ≡ some row'
    → row'.status ≡ succeeded
    → let u : Update = record { meanwhile = meanwhile; refused = none; missing = missing } in
      find (has_key key) (prepare_operation u key operation request build store).1.op_log
      ≡ some (prepared request row')
unfolding prepare_operation decide_prepare to_op_record write_prepared update_row
prepare_operation_erases key operation meanwhile missing request build store row row' h p h' s =
    ground
      (arith, find-update_where key (prepared request) (meanwhile store.op_log) row' (λ _. refl) h')
