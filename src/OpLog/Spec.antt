-- ===== src/OpLog/Spec.antt =====
-- What the pipeline promises, without the table: each key is fresh, ready to be submitted, or finished
-- for good with its result. Calls come one after the other; those whose read and write are
-- interleaved with others' are in Laws.
use astrea.Prelude.{
  Bool, true, false, Option, none, some, List, [], ◌∷◌, Text, ◌===◌, Result, ok, err, find,
  if◌then◌else◌,
}
use astrea.Prelude.Json.{Json}
use astrea.OpLog.{
  OpStatus, succeeded, StoredResult, OpRow, Store, landed_result, OpError, no_operation_record,
  thrown, PrepareResult, done, built, SubmitResult, Update, has_key, prepare_operation,
  submit_operation,
}

pub data Life : Type 0 where
  fresh ready : Life
  finished : StoredResult → Life

abbrev pub Ledger : Type 0
Ledger = Text → Life

abbrev pub put : Text → Life → Ledger → Ledger
put key l m k = if k === key then l else m k

-- A call of the pipeline, with what the network or the build answers, and the messages with which the
-- database refuses the write of the preparation, or those that record a success and a failure.
pub data Call : Type 0 where
  prepare : Text → Text → Json → Option Text → Result Text Text → Call
  submit : Text → Text → Result Text StoredResult → Option Text → Option Text → Call

pub data Response : Type 0 where
  prepared : Result OpError PrepareResult → Response
  submitted : Result OpError SubmitResult → Response

abbrev pub built_or_thrown : Result Text Text → Result OpError PrepareResult
built_or_thrown (ok xdr) = ok (built xdr)
built_or_thrown (err e) = err (thrown e)

-- A result without a hash leaves its key ready.
abbrev pub finish : StoredResult → Text → Life
finish r [] = ready
finish r (c ∷ s) = finished r

abbrev pub spec_prepare :
    Life → Option Text → Result Text Text → Result OpError PrepareResult × Life
spec_prepare (finished r) refused build = (ok (done r.tx_hash r.contract_id), finished r)
spec_prepare fresh none build = (built_or_thrown build, ready)
spec_prepare ready none build = (built_or_thrown build, ready)
spec_prepare fresh (some e) build = (err (thrown e), fresh)
spec_prepare ready (some e) build = (err (thrown e), ready)

abbrev pub submit_result : StoredResult → Bool → SubmitResult
submit_result r already = record {
  tx_hash = r.tx_hash;
  contract_id = r.contract_id;
  already = already;
}

-- The error that a caller sees: that of the record of the failure, when it was refused.
abbrev pub raised : Text → Option Text → Result OpError SubmitResult
raised e none = err (thrown e)
raised e (some e') = err (thrown e')

-- A result that could not be recorded leaves its key ready.
abbrev pub spec_submit :
    Life → Result Text StoredResult → Option Text → Option Text → Result OpError SubmitResult × Life
spec_submit fresh answer success failure = (err no_operation_record, fresh)
spec_submit (finished r) answer success failure = (ok (submit_result r true), finished r)
spec_submit ready (ok r) none failure = (ok (submit_result r false), finish r r.tx_hash)
spec_submit ready (ok r) (some e) failure = (raised e failure, ready)
spec_submit ready (err e) success failure = (raised e failure, ready)

abbrev pub spec_step : Call → Ledger → Response × Ledger
spec_step (prepare key operation request refused build) m =
    let (r, l) = spec_prepare (m key) refused build in (prepared r, put key l m)
spec_step (submit key xdr answer success failure) m =
    let (r, l) = spec_submit (m key) answer success failure in (submitted r, put key l m)

-- A write with none of others before it.
abbrev pub quiet : Option Text → Update
quiet refused = record { meanwhile = λ rows. rows; refused = refused; missing = [] }

abbrev pub code_step : Call → Store → Response × Store
code_step (prepare key operation request refused build) s =
    let (r, t) = prepare_operation (quiet refused) key operation request build s in (prepared r, t)
code_step (submit key xdr answer success failure) s =
    let (r, t) = submit_operation (quiet success) (quiet failure) key xdr answer s in
    (submitted r, t)

-- What the callers are told, call by call.
unfoldable pub run_spec : List Call → Ledger → List Response
run_spec [] m = []
run_spec (c ∷ cs) m = let (r, m') = spec_step c m in r ∷ run_spec cs m'

unfoldable pub run_code : List Call → Store → List Response
run_code [] s = []
run_code (c ∷ cs) s = let (r, t) = code_step c s in r ∷ run_code cs t

-- The life of a key that the table records.
abbrev pub landed_life : OpStatus → Option StoredResult → Life
landed_life succeeded (some r) = finish r r.tx_hash
landed_life _ _ = ready

abbrev pub life : Option OpRow → Life
life none = fresh
life (some row) = landed_life row.status (landed_result row.payload.result)

abbrev pub ledger : Store → Ledger
ledger s key = life (find (has_key key) s.op_log)
