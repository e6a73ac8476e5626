-- ===== src/OpLog/Tests.antt =====
-- One operation prepared, submitted and submitted again.
use astrea.Prelude.{
  List, true, false, ◌≡◌, refl, none, some, [], ◌∷◌, ◌++◌, codes, Text, Text-discrete, ok, err,
  find,
}
use astrea.Prelude.Json.{Json}
use astrea.OpLog.{
  thrown, pending, succeeded, StoredResult, landed, OpRow, Store, built, SubmitResult, to_op_record,
  decide_prepare, decide_submit, prepare_operation, write_prepared, Update, update_row, send,
  submit_operation, has_key,
}
use astrea.OpLog.Spec.{quiet, Life, Call, Response, submit_result, run_spec, run_code, ledger}
use astrea.OpLog.Refines.{run_code-run_spec}
use astrea.OpLog.Laws.{submit_operation_replay, prepare_operation_erases}

abbrev key : Text
key = codes "release:e1"

abbrev row : OpRow
row = record {
  idempotency_key = key;
  operation = codes "release";
  status = pending;
  payload = record { request = some Json.null; result = none };
}

abbrev answer : StoredResult
answer = record { tx_hash = codes "ab"; contract_id = none }

abbrev ready : Store
ready = record { op_log = row ∷ []; sent = [] }

abbrev sent_row : OpRow
sent_row = record row {
  status = succeeded;
  payload = record { request = some Json.null; result = some (landed answer) };
}

abbrev sent : Store
sent = record {
  op_log = sent_row ∷ record row { idempotency_key = codes "other" } ∷ [];
  sent = codes "x1" ∷ [];
}

abbrev fresh : SubmitResult
fresh = record { tx_hash = codes "ab"; contract_id = none; already = false }

-- An update that another caller's row precedes, and one that the database refuses.
abbrev done_update : Update
done_update = record {
  meanwhile = λ rows. rows ++ record row { idempotency_key = codes "other" } ∷ [];
  refused = none;
  missing = codes "P2025";
}

abbrev refused_update : Update
refused_update = record done_update { refused = some (codes "closed") }

prepares :
    prepare_operation
      (quiet none)
      key
      (codes "release")
      Json.null
      (ok (codes "u1"))
      (record { op_log = []; sent = [] })
    ≡ (ok (built (codes "u1")), ready)
unfolding prepare_operation decide_prepare to_op_record write_prepared Text-discrete
prepares = refl

submits :
    submit_operation done_update done_update key (codes "x1") (ok answer) ready ≡ (ok fresh, sent)
unfolding submit_operation decide_submit to_op_record send update_row Text-discrete
submits = refl

submit_operation_replay_example :
    submit_operation refused_update refused_update key (codes "x2") (err []) sent
    ≡ (ok (record fresh { already = true }), sent)
submit_operation_replay_example =
    submit_operation_replay done_update done_update refused_update refused_update key (codes "x1")
      (codes "x2") answer (err []) ready sent fresh (λ e. cc) submits refl

prepare_operation_erases_example :
    find
      (has_key key)
      (prepare_operation
        (record { meanwhile = λ _. sent_row ∷ []; refused = none; missing = [] })
        key
        (codes "release")
        Json.null
        (ok (codes "u2"))
        ready).1.op_log
    ≡ some row
unfolding Text-discrete
prepare_operation_erases_example =
    prepare_operation_erases key (codes "release") (λ _. sent_row ∷ []) [] Json.null
      (ok (codes "u2")) ready row sent_row refl refl refl refl

-- Prepared, submitted in vain, landed without a record, submitted, submitted again.
abbrev calls : List Call
calls =
    Call.prepare key (codes "release") Json.null none (ok (codes "u1"))
    ∷ Call.submit key (codes "x1") (err (codes "timeout")) none none
    ∷ Call.submit key (codes "x1") (ok answer) (some (codes "closed")) none
    ∷ Call.submit key (codes "x1") (ok answer) none none
    ∷ Call.submit key (codes "x2") (err (codes "timeout")) none none
    ∷ []

abbrev empty : Store
empty = record { op_log = []; sent = [] }

told :
    run_spec calls (λ _. Life.fresh)
    ≡ Response.prepared (ok (built (codes "u1")))
      ∷ Response.submitted (err (thrown (codes "timeout")))
      ∷ Response.submitted (err (thrown (codes "closed")))
      ∷ Response.submitted (ok (submit_result answer false))
      ∷ Response.submitted (ok (submit_result answer true))
      ∷ []
unfolding run_spec Text-discrete
told = refl

run_code-run_spec_example : run_code calls empty ≡ run_spec calls (ledger empty)
run_code-run_spec_example = run_code-run_spec calls empty
