-- ===== src/Screens/Fund.antt =====
-- The screen that creates an event on the chain,
-- apps/web/src/app/[locale]/organizer/events/[id]/fund/fund-and-create.tsx.
use astrea.Prelude.{
  ℕ, Bool, false, not, ◌&&◌, Option, none, some, is_some, List, [], ◌∷◌, ◌++◌, Text, codes, ◌===◌,
  Result, ok, err, value, ltb, if◌then◌else◌,
}
use astrea.Schema.{EventStatus, created}
use astrea.CoreGo.Failure.{ActionFailure}
use astrea.Screens.Sign.{
  SubmitStatus, succeeded, pending, SignStepResult, Thrown, Copy, Flight, SignStep, new_step, sign,
  wallet_answers, waiting, settle, unmount_if,
}
use astrea.Screens.Deposit.{rethrown}

pub record CreateBuilt : Type 0 where
  pub unsigned_transaction_xdr : Text
  pub reward : Text
  pub escrow_event_id : Text

pub data FundTransition : Type 0 where
  building checking : FundTransition

-- `onCreateSigned` has one `await`, for `submitCreate`.
pub data CreateWait : Type 0 where
  submitting : CreateWait

-- `pushed` is each path that the router was sent to, the last first.
pub record FundAndCreate : Type 0 where
  pub balance : Text
  pub create_built : Option CreateBuilt
  pub create_failure : Option ActionFailure
  pub create_pending : Option Text
  pub transition : Option FundTransition
  pub sign_step : SignStep CreateBuilt CreateWait
  pub pushed : List Text

pub data FundEvent : Type 0 where
  press_build press_sign press_discard press_check : FundEvent
  build_answers : Result ActionFailure CreateBuilt → FundEvent
  wallet : ℕ → Result Thrown Text → FundEvent
  submit_answers : ℕ → Result ActionFailure SignStepResult → FundEvent
  status_answers : Result ActionFailure EventStatus → FundEvent
  -- `refreshBalance`, which the deposit step calls, read a balance.
  balance_read : Text → FundEvent

unfoldable pub fund_screen : Text → FundAndCreate
fund_screen initial_balance = record {
  balance = initial_balance;
  create_built = none;
  create_failure = none;
  create_pending = none;
  transition = none;
  sign_step = new_step;
  pushed = [];
}

abbrev pub event_path : Text → Text
event_path event_id = codes "/events/" ++ event_id

module _ (required : Text) where
  abbrev pub needs_deposit : FundAndCreate → Bool
  needs_deposit s = ltb (value s.balance) (value required)

  -- A build is up for signing only if Go's reward is the page's own sum.
  abbrev pub same_reward : Option CreateBuilt → Bool
  same_reward none = false
  same_reward (some b) = b.reward === required

  abbrev pub shows_build : FundAndCreate → Bool
  shows_build s =
      not (needs_deposit s) && (not (is_some s.create_built) && not (is_some s.create_pending))

  abbrev pub shows_built : FundAndCreate → Bool
  shows_built s =
      not (needs_deposit s) && (is_some s.create_built && not (is_some s.create_pending))

  abbrev pub shows_sign : FundAndCreate → Bool
  shows_sign s = shows_built s && same_reward s.create_built

  abbrev pub shows_check : FundAndCreate → Bool
  shows_check s = not (needs_deposit s) && is_some s.create_pending

  abbrev pub start_create : FundAndCreate → FundAndCreate
  start_create s =
      if shows_build s && not (is_some s.transition)
      then record s {
        create_failure = none;
        create_built = none;
        create_pending = none;
        transition = some building;
      }
      else s

  abbrev pub press : Option CreateBuilt → FundAndCreate → FundAndCreate
  press none s = s
  press (some b) s = if shows_sign s then record s { sign_step = sign b s.sign_step } else s

abbrev pub on_built :
    Option FundTransition → Result ActionFailure CreateBuilt → FundAndCreate → FundAndCreate
on_built (some building) (ok b) s = record s { transition = none; create_built = some b }
on_built (some building) (err f) s = record s { transition = none; create_failure = some f }
on_built _ r s = s

module _ (event_id : Text) where
  abbrev pub on_read : EventStatus → FundAndCreate → FundAndCreate
  on_read created s = record s { transition = none; pushed = event_path event_id ∷ s.pushed }
  on_read _ s = record s { transition = none }

  abbrev pub on_status :
      Option FundTransition → Result ActionFailure EventStatus → FundAndCreate → FundAndCreate
  on_status (some checking) (ok status) s = on_read status s
  on_status (some checking) (err f) s = record s { transition = none; create_failure = some f }
  on_status _ r s = s

  module _ (copy : Copy) where
    abbrev pub on_sent :
        ℕ
        → Flight CreateBuilt CreateWait
        → SubmitStatus
        → SignStepResult
        → FundAndCreate
        → FundAndCreate
    on_sent i f succeeded res s = record s {
      create_failure = none;
      pushed = event_path event_id ∷ s.pushed;
      sign_step = settle copy i f (ok res) s.sign_step;
    }
    on_sent i f pending res s = record s {
      create_failure = none;
      create_pending = some res.tx_hash;
      sign_step = settle copy i f (ok res) s.sign_step;
    }

    abbrev pub on_submitted :
        ℕ
        → Option (Flight CreateBuilt CreateWait × CreateWait)
        → Result ActionFailure SignStepResult
        → FundAndCreate
        → FundAndCreate
    on_submitted i none r s = s
    on_submitted i (some (f, submitting)) (err e) s = record s {
      create_failure = some e;
      sign_step = settle copy i f (err (rethrown e)) s.sign_step;
    }
    on_submitted i (some (f, submitting)) (ok res) s = on_sent i f res.status res s

    module _ (required : Text) where
      abbrev pub handle : FundEvent → FundAndCreate → FundAndCreate
      handle press_build s = start_create required s
      handle press_sign s = press required s.create_built s
      handle press_discard s =
          if shows_built required s then record s { create_built = none } else s
      handle press_check s =
          if shows_check required s && not (is_some s.transition)
          then record s { transition = some checking }
          else s
      handle (build_answers r) s = on_built s.transition r s
      handle (wallet i r) s = record s {
        sign_step = wallet_answers copy submitting i r s.sign_step;
      }
      handle (submit_answers i r) s = on_submitted i (waiting i s.sign_step) r s
      handle (status_answers r) s = on_status s.transition r s
      handle (balance_read b) s = record s { balance = b }

      -- The render after an event.
      unfoldable pub fund_step : FundEvent → FundAndCreate → FundAndCreate
      fund_step e s =
          let t = handle e s in
          record t {
            sign_step =
                unmount_if (shows_sign required s && not (shows_sign required t)) t.sign_step;
          }

      unfoldable pub run_fund : List FundEvent → FundAndCreate → FundAndCreate
      run_fund [] s = s
      run_fund (e ∷ es) s = run_fund es (fund_step e s)
