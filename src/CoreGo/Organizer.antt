-- ===== src/CoreGo/Organizer.antt =====
-- The organizer's server actions: actions.ts, fund/actions.ts and start/actions.ts.
use astrea.Prelude.{
  Bool, true, false, not, Option, none, some, List, [], ◌∷◌, Text, ◌===◌, codes, Action, ok, err,
  ◌>>=◌, ◌>>◌, pure, gets, modify, throw_if, from_result, or_throw, if◌then◌else◌, find, is_uuid,
}
use astrea.Prelude.Json.{Json}
use astrea.Schema.{EventStatus, created, live, Event, Wallet}
use astrea.Auth.Session.{Request, get_session_wallet}
use astrea.CoreGo.Client.{
  Platform, HttpRequest, CoreGoThrown, property_of, wallet_balance, deposit_build, deposit_submit,
  create_build, create_submit, start_quote, start_build, start_submit,
}
use astrea.CoreGo.Failure.{ActionFailure, not_connected, failure, own_address, hash_of}

-- The pages that `revalidatePath` names, each for one event.
pub data Page : Type 0 where
  event_page fund_page start_page : Text → Page

pub record World : Type 0 where
  pub req : Request
  pub sent : List HttpRequest
  pub revalidated : List Page

abbrev pub OrganizerAction : Type 0 → Type 0
OrganizerAction A = Action World ActionFailure A

-- `{ ok: true, … }`; `spread` is `{ ok: true, ...res }`, and `reward` and `fee` pass through `String`.
pub data Reply : Type 0 where
  spread : Json → Reply
  balance : Option Json → Reply
  create_built : Option Json → Text → Option Json → Reply
  start_built : Option Json → Option Json → Text → Reply
  event_status : EventStatus → Option Text → Reply

abbrev pub session_wallet : OrganizerAction Wallet
session_wallet w = or_throw (get_session_wallet w.req) not_connected w

abbrev pub refuse : Option ActionFailure → OrganizerAction (Unit {0})
refuse none w = (ok tt, w)
refuse (some f) w = (err f, w)

-- A call in a `try` whose `catch` answers `on_error`.
abbrev pub call_with :
    {A : Type 0}
    → (CoreGoThrown → ActionFailure)
    → Action (List HttpRequest) CoreGoThrown A
    → OrganizerAction A
call_with on_error m w =
    let (r, sent') = m w.sent in
    let w' : World = record w { sent = sent' } in
    elim r [ ok a ↦ (ok a, w') | err e ↦ (err (on_error e), w') ]

abbrev pub call : {A : Type 0} → Action (List HttpRequest) CoreGoThrown A → OrganizerAction A
call = call_with failure

abbrev pub revalidate : Page → OrganizerAction (Unit {0})
revalidate page = modify λ w. record w { revalidated = page ∷ w.revalidated }

-- The hash of what confirmed, added to a failure that says that Go's build row was replaced.
unfoldable pub replaced : Platform → Text → Text → CoreGoThrown → ActionFailure
replaced p code xdr e =
    let f = failure e in if f.code === code then record f { tx_hash = hash_of p xdr } else f

module _ (p : Platform) where
  unfoldable pub build_deposit : Text → Text → OrganizerAction Reply
  build_deposit address amount = do
    session ← session_wallet
    refuse (own_address session.address address)
    res ← call (deposit_build p session.address session.address amount)
    pure (spread res)

  unfoldable pub submit_deposit : Text → Text → Text → OrganizerAction Reply
  submit_deposit address op_id xdr = do
    session ← session_wallet
    refuse (own_address session.address address)
    res ← call (deposit_submit p session.address session.address op_id xdr)
    pure (spread res)

  unfoldable pub read_balance : Text → OrganizerAction Reply
  read_balance address = do
    session ← session_wallet
    refuse (own_address session.address address)
    value ← call (do
      res ← wallet_balance p session.address session.address
      from_result (property_of p (codes "balance") res))
    pure (balance value)

  unfoldable pub build_create : Text → OrganizerAction Reply
  build_create event_id = do
    session ← session_wallet
    call (do
      res ← create_build p event_id session.address
      xdr ← from_result (property_of p (codes "unsignedTransactionXdr") res)
      reward ← from_result (property_of p (codes "reward") res)
      escrow ← from_result (property_of p (codes "escrowEventId") res)
      pure (create_built xdr (p.to_string reward) escrow))

  unfoldable pub submit_create : Text → Text → OrganizerAction Reply
  submit_create event_id xdr = do
    session ← session_wallet
    res ←
        call_with (replaced p (codes "create_build_replaced") xdr)
          (create_submit p event_id session.address xdr)
    revalidate (event_page event_id)
    revalidate (fund_page event_id)
    pure (spread res)

  unfoldable pub read_quote : Text → OrganizerAction Reply
  read_quote event_id = do
    session ← session_wallet
    res ← call (start_quote p event_id session.address)
    pure (spread res)

  unfoldable pub build_start : Text → OrganizerAction Reply
  build_start event_id = do
    session ← session_wallet
    call (do
      res ← start_build p event_id session.address
      xdr ← from_result (property_of p (codes "unsignedTransactionXdr") res)
      deadline ← from_result (property_of p (codes "judgingDeadline") res)
      fee ← from_result (property_of p (codes "fee") res)
      pure (start_built xdr deadline (p.to_string fee)))

  unfoldable pub submit_start : Text → Text → OrganizerAction Reply
  submit_start event_id xdr = do
    session ← session_wallet
    res ←
        call_with (replaced p (codes "start_build_replaced") xdr)
          (start_submit p event_id session.address xdr)
    revalidate (event_page event_id)
    revalidate (start_page event_id)
    pure (spread res)

abbrev pub has_event_id : Text → Event → Bool
has_event_id id e = e.id === id

abbrev pub not_found : ActionFailure
not_found = record { status = 404; code = codes "event_not_found"; message = []; tx_hash = none }

abbrev pub not_organizer : ActionFailure
not_organizer = record { status = 403; code = codes "not_organizer"; message = []; tx_hash = none }

-- The two states that a submit-then-check screen waits for.
abbrev pub is_awaited : EventStatus → Bool
is_awaited created = true
is_awaited live = true
is_awaited _ = false

abbrev pub find_event : Text → List Event → Option Event
find_event id events = if is_uuid id then find (has_event_id id) events else none

abbrev pub revalidate_if : Bool → Page → OrganizerAction (Unit {0})
revalidate_if false page w = (ok tt, w)
revalidate_if true page w = revalidate page w

unfoldable pub read_event_status : Text → OrganizerAction Reply
read_event_status event_id = do
  session ← session_wallet
  found ← gets (λ w. find_event event_id w.req.db.events)
  event ← or_throw found not_found
  throw_if (not (event.organizer_wallet_id === session.id)) not_organizer
  revalidate_if (is_awaited event.status) (event_page event_id)
  pure (event_status event.status event.escrow_event_id)
