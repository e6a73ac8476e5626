-- ===== src/CoreGo/Authority.antt =====
-- On whose behalf the organizer's actions call services/core-go.
use astrea.Prelude.{
  ◌≡◌, refl, inl, inr, none, List, Text, codes, Action, arith, Option-cases, Bool-cases, ◌>>=◌,
  ◌>>◌, from_result, pure, ◌===◌,
}
use astrea.Prelude.Json.{Json}
use astrea.Auth.Session.{get_session_wallet}
use astrea.CoreGo.Client.{
  get, post, HttpRequest, Platform, CoreGoThrown, empty_body, wallet_balance, deposit_build,
  deposit_submit, create_build, create_submit, start_quote, start_build, start_submit, property_of,
}
use astrea.CoreGo.Failure.{failure, own_address}
use astrea.CoreGo.Organizer.{
  World, OrganizerAction, find_event, is_awaited, spread, balance, create_built, start_built,
  revalidate, event_page, fund_page, start_page, Reply, replaced, build_deposit, submit_deposit,
  read_balance, build_create, submit_create, read_quote, build_start, submit_start,
  read_event_status,
}
use astrea.CoreGo.Steps.{IsOwn, Keeps, request-Sent, request_then, call_then-IsOwn, last_call-IsOwn}

-- The calls that a browser can make, with arguments of its choice.
pub data Call : Type 0 where
  build_deposit_call : Text → Text → Call
  submit_deposit_call : Text → Text → Text → Call
  read_balance_call : Text → Call
  build_create_call : Text → Call
  submit_create_call : Text → Text → Call
  read_quote_call : Text → Call
  build_start_call : Text → Call
  submit_start_call : Text → Text → Call
  read_event_status_call : Text → Call

abbrev pub run : Platform → Call → OrganizerAction Reply
run p (build_deposit_call address amount) = build_deposit p address amount
run p (submit_deposit_call address op_id xdr) = submit_deposit p address op_id xdr
run p (read_balance_call address) = read_balance p address
run p (build_create_call event_id) = build_create p event_id
run p (submit_create_call event_id xdr) = submit_create p event_id xdr
run p (read_quote_call event_id) = read_quote p event_id
run p (build_start_call event_id) = build_start p event_id
run p (submit_start_call event_id xdr) = submit_start p event_id xdr
run p (read_event_status_call event_id) = read_event_status event_id

module _ (p : Platform) where
  -- What is read of a build's answer.
  abbrev built_create : Json → Action (List HttpRequest) CoreGoThrown Reply
  built_create res = do
    xdr ← from_result (property_of p (codes "unsignedTransactionXdr") res)
    reward ← from_result (property_of p (codes "reward") res)
    escrow ← from_result (property_of p (codes "escrowEventId") res)
    pure (create_built xdr (p.to_string reward) escrow)

  abbrev built_start : Json → Action (List HttpRequest) CoreGoThrown Reply
  built_start res = do
    xdr ← from_result (property_of p (codes "unsignedTransactionXdr") res)
    deadline ← from_result (property_of p (codes "judgingDeadline") res)
    fee ← from_result (property_of p (codes "fee") res)
    pure (start_built xdr deadline (p.to_string fee))

  built_create_keeps : (res : Json) (u : List HttpRequest) → (built_create res u).1 ≡ u
  unfolding property_of
  built_create_keeps Json.null u = refl
  built_create_keeps res u = refl

  built_start_keeps : (res : Json) (u : List HttpRequest) → (built_start res u).1 ≡ u
  unfolding property_of
  built_start_keeps Json.null u = refl
  built_start_keeps res u = refl

  read_event_status-Keeps : (event_id : Text) → Keeps p (read_event_status event_id)
  unfolding read_event_status
  read_event_status-Keeps event_id w = elim (Option-cases (get_session_wallet w.req)) [
    | inl missing ↦ ground arith
    | inr (s, session) ↦ elim (Option-cases (find_event event_id w.req.db.events)) [
      | inl missing ↦ ground arith
      | inr (event, found) ↦ elim (Bool-cases (event.organizer_wallet_id === s.id)) [
        | inr other ↦ ground arith
        | inl own ↦ elim (Bool-cases (is_awaited event.status)) [
          | inr quiet ↦ ground arith
          | inl awaited ↦ ground arith
        ]
      ]
    ]
  ]

  -- Whatever the organizer's browser asks for, the tables and the cookie stay as they are, and at most
  -- one request is sent to services/core-go. It carries the address of the session's wallet, whatever
  -- address the browser named, and goes out under the configured URL and token; without a session
  -- nothing is sent.
  pub run-IsOwn : (c : Call) (w : World) → IsOwn p w (run p c w).1
  unfolding build_deposit submit_deposit read_balance build_create submit_create read_quote
      build_start submit_start read_event_status deposit_build deposit_submit wallet_balance
      create_build create_submit start_quote start_build start_submit
  run-IsOwn (build_deposit_call address amount) w =
      call_then-IsOwn p (λ s. own_address s.address address) failure
        (λ s. deposit_build p s.address s.address amount)
        (λ s u. request-Sent p post _ s.address _ u) (λ s res. pure (spread res))
        (λ s a u. (refl, refl)) w
  run-IsOwn (submit_deposit_call address op_id xdr) w =
      call_then-IsOwn p (λ s. own_address s.address address) failure
        (λ s. deposit_submit p s.address s.address op_id xdr)
        (λ s u. request-Sent p post _ s.address _ u) (λ s res. pure (spread res))
        (λ s a u. (refl, refl)) w
  run-IsOwn (submit_create_call event_id xdr) w =
      call_then-IsOwn p (λ s. none) (replaced p (codes "create_build_replaced") xdr)
        (λ s. create_submit p event_id s.address xdr) (λ s u. request-Sent p post _ s.address _ u)
        (λ s res.
          revalidate (event_page event_id)
          >> (revalidate (fund_page event_id) >> pure (spread res)))
        (λ s a u. (refl, refl)) w
  run-IsOwn (submit_start_call event_id xdr) w =
      call_then-IsOwn p (λ s. none) (replaced p (codes "start_build_replaced") xdr)
        (λ s. start_submit p event_id s.address xdr) (λ s u. request-Sent p post _ s.address _ u)
        (λ s res.
          revalidate (event_page event_id)
          >> (revalidate (start_page event_id) >> pure (spread res)))
        (λ s a u. (refl, refl)) w
  run-IsOwn (read_quote_call event_id) w =
      call_then-IsOwn p (λ s. none) failure (λ s. start_quote p event_id s.address)
        (λ s u. request-Sent p get _ s.address empty_body u) (λ s res. pure (spread res))
        (λ s a u. (refl, refl)) w
  run-IsOwn (read_balance_call address) w =
      call_then-IsOwn p (λ s. own_address s.address address) failure
        (λ s. wallet_balance p s.address s.address >>= λ res.
          from_result (property_of p (codes "balance") res))
        (λ s u.
          request_then p (wallet_balance p s.address s.address)
            (λ res. from_result (property_of p (codes "balance") res)) s.address u
            (request-Sent p get _ s.address empty_body u) (λ a v. refl))
        (λ s value. pure (balance value)) (λ s a u. (refl, refl)) w
  run-IsOwn (build_create_call event_id) w =
      last_call-IsOwn p (λ s. none) failure
        (λ s. create_build p event_id s.address >>= built_create)
        (λ s u.
          request_then p (create_build p event_id s.address) built_create s.address u
            (request-Sent p post _ s.address _ u) built_create_keeps)
        w
  run-IsOwn (build_start_call event_id) w =
      last_call-IsOwn p (λ s. none) failure (λ s. start_build p event_id s.address >>= built_start)
        (λ s u.
          request_then p (start_build p event_id s.address) built_start s.address u
            (request-Sent p post _ s.address _ u) built_start_keeps)
        w
  run-IsOwn (read_event_status_call event_id) w =
      let (same, quiet) = read_event_status-Keeps event_id w in (same, inl quiet)
