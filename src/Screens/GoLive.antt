-- ===== src/Screens/GoLive.antt =====
-- The go-live screen, apps/web/src/app/[locale]/organizer/events/[id]/start/go-live.tsx.
use astrea.Prelude.{
  ℕ, Bool, false, not, ◌&&◌, ◌||◌, Option, none, some, is_some, List, [], ◌∷◌, Text, codes, ◌===◌,
  Result, ok, err, value, ltb, if◌then◌else◌,
}
use astrea.Schema.{EventStatus, live}
use astrea.CoreGo.Failure.{ActionFailure}
use astrea.Screens.Sign.{
  SubmitStatus, succeeded, pending, SignStepResult, Thrown, Copy, Flight, SignStep, new_step, sign,
  wallet_answers, waiting, waits_next, settle, unmount_if,
}
use astrea.Screens.Deposit.{rethrown}
use astrea.Screens.Fund.{event_path}

pub record Quote : Type 0 where
  pub fee : Text
  pub balance : Text
  pub shortfall : Text

pub record StartBuilt : Type 0 where
  pub unsigned_transaction_xdr : Text
  pub judging_deadline : ℕ
  pub fee : Text

-- Where `handleFailure` waits: for a new quote, or for the event's status.
pub data FailureWait : Type 0 where
  quoting reading : ActionFailure → FailureWait

pub data GoLiveTransition : Type 0 where
  building checking : GoLiveTransition
  refused : FailureWait → GoLiveTransition

pub data StartWait : Type 0 where
  submitting : StartWait
  refused : FailureWait → StartWait
  confirming : SignStepResult → StartWait

pub record GoLive : Type 0 where
  pub quote : Quote
  pub built : Option StartBuilt
  pub failure : Option ActionFailure
  pub submitted : Option SignStepResult
  pub transition : Option GoLiveTransition
  pub sign_step : SignStep StartBuilt StartWait
  pub pushed : List Text

-- An answer that a press of the sign button waits for names it; `none` is the transition's.
pub data GoLiveEvent : Type 0 where
  press_start press_sign press_discard press_check : GoLiveEvent
  build_answers : Result ActionFailure StartBuilt → GoLiveEvent
  wallet : ℕ → Result Thrown Text → GoLiveEvent
  submit_answers : ℕ → Result ActionFailure SignStepResult → GoLiveEvent
  quote_answers : Option ℕ → Result ActionFailure Quote → GoLiveEvent
  status_answers : Option ℕ → Result ActionFailure EventStatus → GoLiveEvent
  -- `refreshQuote`, which the deposit step calls, read a quote.
  quote_read : Quote → GoLiveEvent

unfoldable pub go_live_screen : Quote → GoLive
go_live_screen initial_quote = record {
  quote = initial_quote;
  built = none;
  failure = none;
  submitted = none;
  transition = none;
  sign_step = new_step;
  pushed = [];
}

abbrev pub needs_deposit : GoLive → Bool
needs_deposit s = ltb 0 (value s.quote.shortfall)

-- `DEADLINE_CODES`
abbrev pub is_deadline_code : Text → Bool
is_deadline_code code = code === codes "deadline_missing" || code === codes "deadline_past"

abbrev pub blocks : Option ActionFailure → Bool
blocks none = false
blocks (some f) = is_deadline_code f.code

abbrev pub deadline_blocked : GoLive → Bool
deadline_blocked s = blocks s.failure

abbrev pub shows_start : GoLive → Bool
shows_start s =
    not (needs_deposit s)
    && (not (is_some s.built) && (not (is_some s.submitted) && not (deadline_blocked s)))

abbrev pub shows_sign : GoLive → Bool
shows_sign s = not (needs_deposit s) && (is_some s.built && not (is_some s.submitted))

abbrev pub shows_check : GoLive → Bool
shows_check s = not (needs_deposit s) && is_some s.submitted

-- `handleFailure` up to its `await`, if it has one.
abbrev pub wait_of : ActionFailure → Option FailureWait
wait_of f =
    if f.code === codes "insufficient_balance"
    then some (quoting f)
    else if f.code === codes "event_not_created" || f.code === codes "start_already_succeeded"
    then some (reading f)
    else none

abbrev pub keeps_built : ActionFailure → Bool
keeps_built f =
    not (is_some (wait_of f))
    && not (f.code === codes "no_pending_start" || f.code === codes "start_build_replaced")

-- The build is dropped if a fresh one is needed; without an `await` the failure shows at once.
abbrev pub show_failure : Option FailureWait → ActionFailure → GoLive → GoLive
show_failure none f s = record s { failure = some f }
show_failure (some w) f s = s

abbrev pub drop_built : ActionFailure → GoLive → GoLive
drop_built f s = if keeps_built f then s else record s { built = none }

abbrev pub handle_failure : ActionFailure → GoLive → GoLive
handle_failure f s = show_failure (wait_of f) f (drop_built f s)

abbrev pub start : GoLive → GoLive
start s =
    if shows_start s && not (is_some s.transition)
    then record s { failure = none; built = none; submitted = none; transition = some building }
    else s

abbrev pub after_build : Option FailureWait → Option GoLiveTransition
after_build none = none
after_build (some w) = some (GoLiveTransition.refused w)

abbrev pub on_built : Option GoLiveTransition → Result ActionFailure StartBuilt → GoLive → GoLive
on_built (some building) (ok b) s = record s { transition = none; built = some b }
on_built (some building) (err f) s =
    handle_failure f (record s { transition = after_build (wait_of f) })
on_built _ r s = s

-- `refreshQuote` in `handleFailure`, and its end.
abbrev pub on_quote : ActionFailure → Result ActionFailure Quote → GoLive → GoLive
on_quote f (ok q) s = record s { quote = q; failure = some f }
on_quote f (err g) s = record s { failure = some g }

abbrev pub press : Option StartBuilt → GoLive → GoLive
press none s = s
press (some b) s = if shows_sign s then record s { sign_step = sign b s.sign_step } else s

module _ (event_id : Text) where
  -- `checkLive`; the failure is what the screen shows if the status is not LIVE.
  abbrev pub check_live : Option ActionFailure → Result ActionFailure EventStatus → GoLive → GoLive
  check_live f (ok live) s = record s { pushed = event_path event_id ∷ s.pushed }
  check_live (some f) _ s = record s { failure = some f }
  check_live none (err g) s = record s { failure = some g }
  check_live none _ s = s

  -- What the transition waits for.
  abbrev pub on_transition_quote :
      Option GoLiveTransition → Result ActionFailure Quote → GoLive → GoLive
  on_transition_quote (some (GoLiveTransition.refused (quoting f))) r s =
      on_quote f r (record s { transition = none })
  on_transition_quote _ r s = s

  abbrev pub on_transition_status :
      Option GoLiveTransition → Result ActionFailure EventStatus → GoLive → GoLive
  on_transition_status (some checking) r s = check_live none r (record s { transition = none })
  on_transition_status (some (GoLiveTransition.refused (reading f))) r s =
      check_live (some f) r (record s { transition = none })
  on_transition_status _ r s = s

  module _ (copy : Copy) where
    -- `throw new Error(res.message || res.code)`, after `handleFailure`
    abbrev pub throws : ℕ → Flight StartBuilt StartWait → ActionFailure → GoLive → GoLive
    throws i f e s = record s { sign_step = settle copy i f (err (rethrown e)) s.sign_step }

    abbrev pub returns : ℕ → Flight StartBuilt StartWait → SignStepResult → GoLive → GoLive
    returns i f res s = record s { sign_step = settle copy i f (ok res) s.sign_step }

    abbrev pub waits : ℕ → Flight StartBuilt StartWait → StartWait → GoLive → GoLive
    waits i f w s = record s { sign_step = waits_next i f w s.sign_step }

    abbrev pub on_refused :
        ℕ → Flight StartBuilt StartWait → Option FailureWait → ActionFailure → GoLive → GoLive
    on_refused i f none e s = throws i f e (handle_failure e s)
    on_refused i f (some w) e s = waits i f (StartWait.refused w) (handle_failure e s)

    abbrev pub on_sent :
        ℕ → Flight StartBuilt StartWait → SubmitStatus → SignStepResult → GoLive → GoLive
    on_sent i f succeeded res s =
        waits i f (confirming res) (record s { failure = none; submitted = some res })
    on_sent i f pending res s = returns i f res (record s { failure = none; submitted = some res })

    abbrev pub on_submitted :
        ℕ
        → Option (Flight StartBuilt StartWait × StartWait)
        → Result ActionFailure SignStepResult
        → GoLive
        → GoLive
    on_submitted i (some (f, submitting)) (err e) s = on_refused i f (wait_of e) e s
    on_submitted i (some (f, submitting)) (ok res) s = on_sent i f res.status res s
    on_submitted i _ r s = s

    abbrev pub on_flight_quote :
        ℕ
        → Option (Flight StartBuilt StartWait × StartWait)
        → Result ActionFailure Quote
        → GoLive
        → GoLive
    on_flight_quote i (some (f, StartWait.refused (quoting e))) r s = throws i f e (on_quote e r s)
    on_flight_quote i _ r s = s

    abbrev pub on_flight_status :
        ℕ
        → Option (Flight StartBuilt StartWait × StartWait)
        → Result ActionFailure EventStatus
        → GoLive
        → GoLive
    on_flight_status i (some (f, StartWait.refused (reading e))) r s =
        throws i f e (check_live (some e) r s)
    on_flight_status i (some (f, confirming res)) r s = returns i f res (check_live none r s)
    on_flight_status i _ r s = s

    abbrev pub handle : GoLiveEvent → GoLive → GoLive
    handle press_start s = start s
    handle press_sign s = press s.built s
    handle press_discard s = if shows_sign s then record s { built = none } else s
    handle press_check s =
        if shows_check s && not (is_some s.transition)
        then record s { transition = some checking }
        else s
    handle (build_answers r) s = on_built s.transition r s
    handle (wallet i r) s = record s { sign_step = wallet_answers copy submitting i r s.sign_step }
    handle (submit_answers i r) s = on_submitted i (waiting i s.sign_step) r s
    handle (quote_answers none r) s = on_transition_quote s.transition r s
    handle (quote_answers (some i) r) s = on_flight_quote i (waiting i s.sign_step) r s
    handle (status_answers none r) s = on_transition_status s.transition r s
    handle (status_answers (some i) r) s = on_flight_status i (waiting i s.sign_step) r s
    handle (quote_read q) s = record s { quote = q }

    -- The render after an event.
    unfoldable pub go_live_step : GoLiveEvent → GoLive → GoLive
    go_live_step e s =
        let t = handle e s in
        record t { sign_step = unmount_if (shows_sign s && not (shows_sign t)) t.sign_step }

    unfoldable pub run_go_live : List GoLiveEvent → GoLive → GoLive
    run_go_live [] s = s
    run_go_live (e ∷ es) s = run_go_live es (go_live_step e s)
