-- ===== src/Screens/Tests.antt =====
-- Each screen from its first press to its last answer.
use astrea.Prelude.{
  ◌≡◌, refl, none, some, List, [], ◌∷◌, Text, codes, Text-discrete, ok, err, value,
}
use astrea.Schema.{created, live}
use astrea.CoreGo.Failure.{ActionFailure}
use astrea.Screens.Sign.{
  succeeded, pending, SignStepResult, error, Copy, to_sign, to_submit, sign, wallet_answers, settle,
  describe,
}
use astrea.Screens.Deposit.{DepositBuilt, DepositEvent}
use astrea.Screens.Fund.{CreateBuilt, FundEvent, fund_screen, fund_step, run_fund}
use astrea.Screens.Funded.{Funds, confirmations, run_fund-Funds}
use astrea.Screens.GoLive.{
  Quote, StartBuilt, GoLive, GoLiveEvent, go_live_screen, go_live_step, run_go_live,
}
use astrea.Screens.WentLive.{Lives, live_answers, run_go_live-Lives}
use astrea.Screens.Refused.{Refused}
use astrea.Screens.Release.{
  FormPrize, FormTeam, ReleaseBuilt, ReleaseEvent, release_form, release_step, run_release,
}
use astrea.Screens.Locked.{Locked, run_release-Locked}

abbrev copy : Copy
copy = record { sign_rejected = codes "rejected"; submit_failed = codes "failed" }

abbrev went_through : SignStepResult
went_through = record { tx_hash = codes "ab"; status = succeeded }

abbrev timed_out : SignStepResult
timed_out = record { tx_hash = codes "cd"; status = pending }

abbrev refusal : Text → ActionFailure
refusal code = record { status = 409; code = code; message = []; tx_hash = none }

abbrev deposit_built : DepositBuilt
deposit_built = record { op_id = codes "o1"; unsigned_transaction_xdr = codes "u1" }

-- A deposit of the whole shortfall, signed and pending.
abbrev deposit_events : List DepositEvent
deposit_events =
    DepositEvent.press_build
    ∷ DepositEvent.build_answers (ok deposit_built)
    ∷ DepositEvent.press_sign
    ∷ DepositEvent.wallet 0 (ok (codes "s1"))
    ∷ DepositEvent.submit_answers 0 (ok timed_out)
    ∷ []

abbrev IsO1 : DepositBuilt → Type 0
IsO1 b = b.op_id ≡ codes "o1"

abbrev create_built : CreateBuilt
create_built = record {
  unsigned_transaction_xdr = codes "u1";
  reward = codes "500";
  escrow_event_id = codes "ee";
}

-- The first envelope times out; a check finds the event created.
abbrev fund_events : List FundEvent
fund_events =
    FundEvent.press_build
    ∷ FundEvent.build_answers (ok create_built)
    ∷ FundEvent.press_sign
    ∷ FundEvent.wallet 0 (ok (codes "s1"))
    ∷ FundEvent.submit_answers 0 (ok timed_out)
    ∷ FundEvent.press_check
    ∷ FundEvent.status_answers (ok created)
    ∷ []

funds :
    (run_fund
      (codes "e1")
      copy
      (codes "500")
      fund_events
      (fund_screen (codes "500"))).sign_step.asked
    ≡ to_submit create_built (codes "s1") ∷ to_sign create_built ∷ []
unfolding run_fund fund_step fund_screen sign wallet_answers settle Text-discrete value
funds = refl

fund_moves_on :
    (run_fund (codes "e1") copy (codes "500") fund_events (fund_screen (codes "500"))).pushed
    ≡ codes "/events/e1" ∷ []
unfolding run_fund fund_step fund_screen sign wallet_answers settle Text-discrete value
fund_moves_on = refl

-- With another reward the press is lost: there is no button.
fund_mismatch :
    (run_fund
      (codes "e1")
      copy
      (codes "501")
      fund_events
      (fund_screen (codes "501"))).sign_step.asked
    ≡ []
unfolding run_fund fund_step fund_screen sign wallet_answers settle Text-discrete value
fund_mismatch = refl

run_fund-Funds_example :
    Funds
      (codes "500")
      (confirmations fund_events)
      (run_fund (codes "e1") copy (codes "500") fund_events (fund_screen (codes "500")))
run_fund-Funds_example = run_fund-Funds (codes "500") (codes "e1") copy (codes "500") fund_events

abbrev covered : Quote
covered = record { fee = codes "10"; balance = codes "90"; shortfall = codes "0" }

abbrev start_built : StartBuilt
start_built = record {
  unsigned_transaction_xdr = codes "u1";
  judging_deadline = 1700000000;
  fee = codes "10";
}

-- The wallet is dismissed once, then signs; the submission succeeds and the event reads LIVE.
abbrev live_events : List GoLiveEvent
live_events =
    GoLiveEvent.press_start
    ∷ GoLiveEvent.build_answers (ok start_built)
    ∷ GoLiveEvent.press_sign
    ∷ GoLiveEvent.wallet 0 (err (error (codes "closed")))
    ∷ GoLiveEvent.press_sign
    ∷ GoLiveEvent.wallet 0 (ok (codes "s1"))
    ∷ GoLiveEvent.submit_answers 0 (ok went_through)
    ∷ GoLiveEvent.status_answers (some 0) (ok live)
    ∷ []

abbrev HasFee : StartBuilt → Type 0
HasFee b = b.fee ≡ codes "10"

goes_live :
    (run_go_live (codes "e1") copy live_events (go_live_screen covered)).pushed
    ≡ codes "/events/e1" ∷ []
unfolding run_go_live go_live_step go_live_screen sign wallet_answers settle describe value
goes_live = refl

run_go_live-Lives_example :
    Lives HasFee
      (live_answers live_events)
      (run_go_live (codes "e1") copy live_events (go_live_screen covered))
run_go_live-Lives_example =
    run_go_live-Lives HasFee (codes "e1") copy covered live_events
      (tt, (refl, (tt, (tt, (tt, (tt, (tt, (tt, tt))))))))

-- The build is awaited.
abbrev going_live : GoLive
going_live = go_live_step (codes "e1") copy GoLiveEvent.press_start (go_live_screen covered)

abbrev prizes : List FormPrize
prizes = record { rank = 1; amount = codes "500" } ∷ []

abbrev teams : List FormTeam
teams =
    record { id = codes "t1"; name = codes "T" } ∷ record { id = codes "t2"; name = codes "U" } ∷ []

abbrev built : ReleaseBuilt
built = record { unsigned_transaction_xdr = codes "u1"; winners = [] }

-- The judge tries to change the pick while the build is up for signing.
abbrev release_events : List ReleaseEvent
release_events =
    ReleaseEvent.pick 1 (codes "t1")
    ∷ ReleaseEvent.press_build
    ∷ ReleaseEvent.build_answers (ok built)
    ∷ ReleaseEvent.pick 1 (codes "t2")
    ∷ ReleaseEvent.press_sign
    ∷ ReleaseEvent.wallet 0 (ok (codes "s1"))
    ∷ []

keeps_pick :
    (run_release prizes teams copy release_events release_form).assignments 1 ≡ some (codes "t1")
unfolding run_release release_step release_form sign wallet_answers
keeps_pick = refl

abbrev IsU1 : ReleaseBuilt → Type 0
IsU1 b = b.unsigned_transaction_xdr ≡ codes "u1"

run_release-Locked_example :
    Locked IsU1 prizes teams (run_release prizes teams copy release_events release_form)
run_release-Locked_example =
    run_release-Locked IsU1 prizes teams copy release_events
      (tt, (tt, (refl, (tt, (tt, (tt, tt))))))
