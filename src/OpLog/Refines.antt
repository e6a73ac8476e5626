-- ===== src/OpLog/Refines.antt =====
-- The pipeline over its table does what its specification says.
use mathlib.Core.Path.{fun_ext}
use astrea.Prelude.{
  ◌≡◌, refl, sym, ap, ◌∙◌, inl, inr, true, Option, none, some, List, [], ◌∷◌, ◌++◌, Text, ◌===◌,
  Result, ok, err, find, arith, Bool-cases, Option-cases, Result-cases,
}
use astrea.Prelude.Json.{Json}
use astrea.Schema.Table.{update_where}
use astrea.OpLog.{
  pending, succeeded, failed, StoredResult, OpRow, Store, landed_result, to_op_record, OpError,
  no_operation_record, thrown, PrepareResult, done, SubmitResult, has_key, error, landed, finished,
  update_row, mark_failed, write_prepared, decide_prepare, go_on, send, prepared, prepare_operation,
  submit_operation,
}
use astrea.OpLog.Spec.{
  Life, fresh, ready, put, Call, prepare, submit, built_or_thrown, spec_prepare, submit_result,
  spec_submit, spec_step, raised, quiet, code_step, Response, submitted, run_spec, run_code, ledger,
}
use astrea.OpLog.Lives.{
  find_appended, find_before, standing, ===-eq, put_same, life_in, life-update_where,
}

-- A call is answered as its key's life says, and moves that life on, and no other.
record Refines (c : Call) (s : Store) : Type 0 where
  answer : (code_step c s).0 ≡ (spec_step c (ledger s)).0
  after : (k : Text) → ledger (code_step c s).1 k ≡ (spec_step c (ledger s)).1 k

-- What the code and the specification make of a call, when both are known.
submit-outcome :
    (key xdr : Text) (answer : Result Text StoredResult) (success failure : Option Text)
    (s t : Store) (r : Result OpError SubmitResult) (l : Life)
    → submit_operation (quiet success) (quiet failure) key xdr answer s ≡ (r, t)
    → spec_submit (ledger s key) answer success failure ≡ (r, l)
    → ((k : Text) → ledger t k ≡ put key l (ledger s) k)
    → Refines (submit key xdr answer success failure) s
submit-outcome key xdr answer success failure s t r l code spec moves = record {
  answer = ap (λ p. submitted p.0) code ∙ ap (λ p. submitted p.0) (sym spec);
  after =
      λ k. ap (λ p. ledger p.1 k) code ∙ moves k ∙ ap (λ p. put key p.1 (ledger s) k) (sym spec);
}

update_row-quiet :
    (key : Text) (f : OpRow → OpRow) (rows : List OpRow) (row : OpRow)
    → find (has_key key) rows ≡ some row
    → update_row (quiet none) key f rows ≡ (none, update_where (has_key key) f rows)
unfolding update_row
update_row-quiet key f rows row e = rw e refl

-- A failure, recorded or not, is thrown, and the key stays ready.
mark_failed-ready :
    (key e : Text) (request : Option Json) (failure : Option Text) (s : Store) (row : OpRow)
    → find (has_key key) s.op_log ≡ some row
    → ledger s key ≡ ready
    → (t : Store) × (mark_failed (quiet failure) key request e s ≡ (raised e failure, t))
      × ((k : Text) → ledger t k ≡ put key ready (ledger s) k)
unfolding mark_failed update_row
mark_failed-ready key e request (some e') s row found l =
    (s, refl, λ k. sym (put_same key k ready (ledger s) l))
mark_failed-ready key e request none s row found l =
    let mark = finished failed request (error e) in
    (
      record s { op_log = update_where (has_key key) mark s.op_log },
      ground (arith, update_row-quiet key mark s.op_log row found),
      λ k. life-update_where key k mark s.op_log row (λ _. refl) found,
    )

-- The envelope goes to the network.
send-moves :
    (key xdr : Text) (answer : Result Text StoredResult) (success failure : Option Text)
    (request : Option Json) (s : Store) (row : OpRow)
    → find (has_key key) s.op_log ≡ some row
    → ledger s key ≡ ready
    → let outcome = spec_submit ready answer success failure in
      (t : Store) × (send (quiet success) (quiet failure) key xdr request answer s ≡ (outcome.0, t))
      × ((k : Text) → ledger t k ≡ put key outcome.1 (ledger s) k)
unfolding send update_row
send-moves key xdr (err x) success failure request s row e l =
    mark_failed-ready key x request failure (record s { sent = xdr ∷ s.sent }) row e l
send-moves key xdr (ok r) (some x) failure request s row e l =
    mark_failed-ready key x request failure (record s { sent = xdr ∷ s.sent }) row e l
send-moves key xdr (ok r) none failure request s row e l =
    let mark = finished succeeded request (landed r) in
    (
      record { op_log = update_where (has_key key) mark s.op_log; sent = xdr ∷ s.sent },
      ground (arith, update_row-quiet key mark s.op_log row e),
      λ k. life-update_where key k mark s.op_log row (λ _. refl) e,
    )

submit-Refines :
    (key xdr : Text) (answer : Result Text StoredResult) (success failure : Option Text) (s : Store)
    → Refines (submit key xdr answer success failure) s
unfolding submit_operation to_op_record
submit-Refines key xdr answer success failure s =
    elim (Option-cases (find (has_key key) s.op_log)) [
      | inl e ↦
          let l : ledger s key ≡ fresh = rw e refl in
          submit-outcome key xdr answer success failure s s (err no_operation_record) fresh
            (ground arith) (rw l refl) (λ k. sym (put_same key k fresh (ledger s) l))
      | inr (row, e) ↦ elim (standing row.status (landed_result row.payload.result)) [
        | inl (r, q, _, d) ↦
            let l : ledger s key ≡ Life.finished r = rw e q in
            submit-outcome key xdr answer success failure s s (ok (submit_result r true))
              (Life.finished r) (ground arith) (rw l refl)
              (λ k. sym (put_same key k (Life.finished r) (ledger s) l))
        | inr (q, _, d) ↦
            let l : ledger s key ≡ ready = rw e q in
            let (t, code, moves) =
              send-moves key xdr answer success failure row.payload.request s row e l in
            let outcome = spec_submit ready answer success failure in
            submit-outcome key xdr answer success failure s t outcome.0 outcome.1 (ground arith)
              (rw l refl) moves
      ]
    ]

prepare-outcome :
    (key operation : Text) (request : Json) (refused : Option Text) (build : Result Text Text)
    (s t : Store) (r : Result OpError PrepareResult) (l : Life)
    → prepare_operation (quiet refused) key operation request build s ≡ (r, t)
    → spec_prepare (ledger s key) refused build ≡ (r, l)
    → ((k : Text) → ledger t k ≡ put key l (ledger s) k)
    → Refines (prepare key operation request refused build) s
prepare-outcome key operation request refused build s t r l code spec moves = record {
  answer = ap (λ p. Response.prepared p.0) code ∙ ap (λ p. Response.prepared p.0) (sym spec);
  after =
      λ k. ap (λ p. ledger p.1 k) code ∙ moves k ∙ ap (λ p. put key p.1 (ledger s) k) (sym spec);
}

-- The store once a key was prepared.
abbrev written : Option OpRow → Text → Text → Json → Store → Store
written existing key operation request s = record s {
  op_log = (write_prepared (quiet none) existing key operation request s.op_log).1;
}

prepare-written :
    (key operation : Text) (request : Json) (build : Result Text Text) (s : Store)
    (o : Option OpRow) (l : Life)
    → ledger s key ≡ l
    → spec_prepare l none build ≡ (built_or_thrown build, ready)
    → prepare_operation (quiet none) key operation request build s
      ≡ (built_or_thrown build, written o key operation request s)
    → ((k : Text) → ledger (written o key operation request s) k ≡ put key ready (ledger s) k)
    → Refines (prepare key operation request none build) s
prepare-written key operation request build s o l same spec code moves =
    prepare-outcome key operation request none build s _ _ ready code
      (ap (λ x. spec_prepare x none build) same ∙ spec) moves

life-created :
    (key operation k : Text) (request : Json) (s : Store)
    → find (has_key key) s.op_log ≡ none
    → ledger (written none key operation request s) k ≡ put key ready (ledger s) k
unfolding write_prepared
life-created key operation k request s e =
    let row : OpRow = record {
      idempotency_key = key;
      operation = operation;
      status = pending;
      payload = record { request = some request; result = none };
    } in
    let same : (write_prepared (quiet none) none key operation request s.op_log).1
        ≡ s.op_log ++ row ∷ [] =
      ground arith in
    elim (Bool-cases (k === key)) [
      | inl q ↦
          let eq = ===-eq k key q in
          rw q (
            ap (ledger (written none key operation request s)) eq
            ∙ ap (λ rows. life_in rows key) same
            ∙ ground (arith, find_appended key s.op_log row e))
      | inr q ↦ elim (Option-cases (find (has_key k) s.op_log)) [
        | inl missing ↦ rw q (
            ap (λ rows. life_in rows k) same
            ∙ ground (arith, find_appended k s.op_log row missing, ===-eq key k))
        | inr (other, found) ↦ rw q (
            ap (λ rows. life_in rows k) same
            ∙ ground (arith, find_before k s.op_log other row found))
      ]
    ]

-- A write that the database refuses leaves the key as it was.
prepare-refused :
    (key operation e : Text) (request : Json) (build : Result Text Text) (s : Store) (l : Life)
    → ledger s key ≡ l
    → spec_prepare l (some e) build ≡ (err (thrown e), l)
    → prepare_operation (quiet (some e)) key operation request build s ≡ (err (thrown e), s)
    → Refines (prepare key operation request (some e) build) s
prepare-refused key operation e request build s l same spec code =
    prepare-outcome key operation request (some e) build s s _ l code
      (ap (λ x. spec_prepare x (some e) build) same ∙ spec)
      (λ k. sym (put_same key k l (ledger s) same))

prepare-fresh :
    (key operation : Text) (request : Json) (refused : Option Text) (build : Result Text Text)
    (s : Store)
    → find (has_key key) s.op_log ≡ none
    → Refines (prepare key operation request refused build) s
unfolding prepare_operation to_op_record write_prepared
prepare-fresh key operation request (some x) build s e =
    prepare-refused key operation x request build s fresh (rw e refl) refl (ground arith)
prepare-fresh key operation request none build s e =
    prepare-written key operation request build s none fresh (rw e refl) refl
      (elim (Result-cases build) [ inl (x, b) ↦ ground arith | inr (x, b) ↦ ground arith ])
      (λ k. life-created key operation k request s e)

prepare-ready :
    (key operation : Text) (request : Json) (refused : Option Text) (build : Result Text Text)
    (s : Store) (row : OpRow)
    → find (has_key key) s.op_log ≡ some row
    → ledger s key ≡ ready
    → decide_prepare (to_op_record (some row)) ≡ go_on
    → Refines (prepare key operation request refused build) s
unfolding prepare_operation to_op_record write_prepared update_row
prepare-ready key operation request (some x) build s row e l d =
    prepare-refused key operation x request build s ready l refl (ground arith)
prepare-ready key operation request none build s row e l d =
    let write = update_row-quiet key (prepared request) s.op_log row e in
    prepare-written key operation request build s (some row) ready l refl
      (elim (Result-cases build) [ inl (x, b) ↦ ground arith | inr (x, b) ↦ ground arith ])
      (λ k.
        ap (λ w. life_in w.1 k) write
        ∙ life-update_where key k (prepared request) s.op_log row (λ _. refl) e)

prepare-Refines :
    (key operation : Text) (request : Json) (refused : Option Text) (build : Result Text Text)
    (s : Store)
    → Refines (prepare key operation request refused build) s
unfolding prepare_operation to_op_record
prepare-Refines key operation request refused build s =
    elim (Option-cases (find (has_key key) s.op_log)) [
      | inl e ↦ prepare-fresh key operation request refused build s e
      | inr (row, e) ↦ elim (standing row.status (landed_result row.payload.result)) [
        | inl (r, q, d, _) ↦
            let l : ledger s key ≡ Life.finished r = rw e q in
            prepare-outcome key operation request refused build s s
              (ok (done r.tx_hash r.contract_id)) (Life.finished r) (ground arith) (rw l refl)
              (λ k. sym (put_same key k (Life.finished r) (ledger s) l))
        | inr (q, d, _) ↦ prepare-ready key operation request refused build s row e (rw e q) d
      ]
    ]

step-Refines : (c : Call) (s : Store) → Refines c s
step-Refines (prepare key operation request refused build) s =
    prepare-Refines key operation request refused build s
step-Refines (submit key xdr answer success failure) s =
    submit-Refines key xdr answer success failure s

-- Whatever calls are made, one after the other, each is answered as the specification says: once a
-- submission has finished its key, that key's later calls all get its result, however the network,
-- the builds, the database's answers and the calls for other keys turn out.
pub run_code-run_spec : (cs : List Call) (s : Store) → run_code cs s ≡ run_spec cs (ledger s)
unfolding run_code run_spec
run_code-run_spec [] s = refl
run_code-run_spec (c ∷ cs) s =
    let step = step-Refines c s in
    let rest = run_code-run_spec cs (code_step c s).1 in
    ap (λ r. r ∷ run_code cs (code_step c s).1) step.answer
    ∙ ap (λ rs. (spec_step c (ledger s)).0 ∷ rs) (rest ∙ ap (run_spec cs) (fun_ext step.after))
