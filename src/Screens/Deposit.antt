-- ===== src/Screens/Deposit.antt =====
-- The organizer's deposit, apps/web/src/app/[locale]/organizer/events/[id]/deposit-step.tsx, a step of
-- the funding and of the go-live screen.
use astrea.Prelude.{
  ℕ, Bool, false, not, ◌&&◌, Option, none, some, is_some, List, [], ◌∷◌, Text, Result, ok, err,
  value, leb, if◌then◌else◌,
}
use astrea.Amount.{parse_usdc_amount, format_smallest_units}
use astrea.CoreGo.Failure.{ActionFailure}
use astrea.Screens.Sign.{
  SubmitStatus, succeeded, pending, SignStepResult, Thrown, error, text_or, Copy, Flight, SignStep,
  new_step, sign, wallet_answers, waiting, waits_next, settle, unmount_if,
}

pub record DepositBuilt : Type 0 where
  pub op_id : Text
  pub unsigned_transaction_xdr : Text

-- What the `useTransition` of the step waits for.
pub data DepositTransition : Type 0 where
  building checking : DepositTransition

-- Where `onSigned` waits: for `submitDeposit`, then for the screen's own read.
pub data DepositWait : Type 0 where
  submitting : DepositWait
  depositing : SignStepResult → DepositWait

-- `asked` is each call of `buildDeposit` with the shortfall at the time.
pub record DepositStep : Type 0 where
  pub shortfall : Text
  pub amount : Text
  pub built : Option DepositBuilt
  pub failure : Option ActionFailure
  pub pending_hash : Option Text
  pub transition : Option DepositTransition
  pub sign_step : SignStep DepositBuilt DepositWait
  pub asked : List (Text × Text)

pub data DepositEvent : Type 0 where
  type_amount : Text → DepositEvent
  press_build press_sign press_change_amount press_check : DepositEvent
  build_answers : Result ActionFailure DepositBuilt → DepositEvent
  wallet : ℕ → Result Thrown Text → DepositEvent
  submit_answers : ℕ → Result ActionFailure SignStepResult → DepositEvent
  -- The screen's `onDeposited` came back, in a press of the sign button or in a check.
  deposited : ℕ → Option ActionFailure → DepositEvent
  checked : Option ActionFailure → DepositEvent
  shortfall_changes : Text → DepositEvent

unfoldable pub mount : Text → DepositStep
mount shortfall = record {
  shortfall = shortfall;
  amount = format_smallest_units shortfall 7;
  built = none;
  failure = none;
  pending_hash = none;
  transition = none;
  sign_step = new_step;
  asked = [];
}

abbrev pub at_least : ℕ → Option ℕ → Bool
at_least m none = false
at_least m (some n) = leb m n

-- `amountOk`
abbrev pub amount_ok : DepositStep → Bool
amount_ok s = at_least (value s.shortfall) (parse_usdc_amount s.amount)

abbrev pub shows_amount : DepositStep → Bool
shows_amount s = not (is_some s.built) && not (is_some s.pending_hash)

abbrev pub shows_sign : DepositStep → Bool
shows_sign s = is_some s.built && not (is_some s.pending_hash)

-- `new Error(res.message || res.code)`
unfoldable pub rethrown : ActionFailure → Thrown
rethrown f = error (text_or f.code f.message)

abbrev pub start : DepositStep → DepositStep
start s =
    if shows_amount s && (amount_ok s && not (is_some s.transition))
    then record s {
      failure = none;
      built = none;
      pending_hash = none;
      transition = some building;
      asked = (s.amount, s.shortfall) ∷ s.asked;
    }
    else s

abbrev pub on_built :
    Option DepositTransition → Result ActionFailure DepositBuilt → DepositStep → DepositStep
on_built (some building) (ok b) s = record s { transition = none; built = some b }
on_built (some building) (err f) s = record s { transition = none; failure = some f }
on_built _ r s = s

abbrev pub on_checked : Option DepositTransition → Option ActionFailure → DepositStep → DepositStep
on_checked (some checking) f s = record s { transition = none; failure = f }
on_checked _ f s = s

abbrev pub press : Option DepositBuilt → DepositStep → DepositStep
press none s = s
press (some b) s = if shows_sign s then record s { sign_step = sign b s.sign_step } else s

module _ (copy : Copy) where
  abbrev pub on_sent :
      ℕ
      → Flight DepositBuilt DepositWait
      → SubmitStatus
      → SignStepResult
      → DepositStep
      → DepositStep
  on_sent i f succeeded res s = record s {
    failure = none;
    sign_step = waits_next i f (depositing res) s.sign_step;
  }
  on_sent i f pending res s = record s {
    failure = none;
    pending_hash = some res.tx_hash;
    sign_step = settle copy i f (ok res) s.sign_step;
  }

  abbrev pub on_submitted :
      ℕ
      → Option (Flight DepositBuilt DepositWait × DepositWait)
      → Result ActionFailure SignStepResult
      → DepositStep
      → DepositStep
  on_submitted i (some (f, submitting)) (err e) s = record s {
    failure = some e;
    sign_step = settle copy i f (err (rethrown e)) s.sign_step;
  }
  on_submitted i (some (f, submitting)) (ok res) s = on_sent i f res.status res s
  on_submitted i _ r s = s

  abbrev pub on_deposited :
      ℕ
      → Option (Flight DepositBuilt DepositWait × DepositWait)
      → Option ActionFailure
      → DepositStep
      → DepositStep
  on_deposited i (some (f, depositing res)) e s = record s {
    failure = e;
    built = none;
    sign_step = settle copy i f (ok res) s.sign_step;
  }
  on_deposited i _ e s = s

  abbrev pub handle : DepositEvent → DepositStep → DepositStep
  handle (type_amount t) s = if shows_amount s then record s { amount = t } else s
  handle press_build s = start s
  handle press_sign s = press s.built s
  handle press_change_amount s = if shows_sign s then record s { built = none } else s
  handle press_check s =
      if is_some s.pending_hash && not (is_some s.transition)
      then record s { transition = some checking }
      else s
  handle (build_answers r) s = on_built s.transition r s
  handle (wallet i r) s = record s { sign_step = wallet_answers copy submitting i r s.sign_step }
  handle (submit_answers i r) s = on_submitted i (waiting i s.sign_step) r s
  handle (deposited i e) s = on_deposited i (waiting i s.sign_step) e s
  handle (checked e) s = on_checked s.transition e s
  handle (shortfall_changes n) s = record s { shortfall = n }

  -- The render after an event: a sign button that is gone takes its step's phase with it.
  unfoldable pub deposit_step : DepositEvent → DepositStep → DepositStep
  deposit_step e s =
      let t = handle e s in
      record t { sign_step = unmount_if (shows_sign s && not (shows_sign t)) t.sign_step }

  unfoldable pub run_deposit : List DepositEvent → DepositStep → DepositStep
  run_deposit [] s = s
  run_deposit (e ∷ es) s = run_deposit es (deposit_step e s)
