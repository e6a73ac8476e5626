-- ===== src/Screens/Funded.antt =====
-- What the funding screen signs over, and when it says that the event is created.
use astrea.Prelude.{
  ℕ, ◌+◌, ◌≤◌, ◌≡◌, refl, not, ◌&&◌, Option, none, some, is_some, List, [], ◌∷◌, Text, Result, ok,
  err, arith, length, Bool-cases, inl, inr,
}
use astrea.Schema.{EventStatus, created}
use astrea.CoreGo.Failure.{ActionFailure}
use astrea.Screens.Sign.{SubmitStatus, succeeded, pending, SignStepResult, Copy, Flight, waiting}
use astrea.Screens.Signing.{
  Signs, Signs-new_step, Signs-sign, Signs-unmount_if, Signs-wallet_answers, Signs-settle,
}
use astrea.Screens.Fund.{
  CreateBuilt, FundTransition, building, checking, CreateWait, submitting, FundAndCreate, FundEvent,
  press_build, press_sign, press_discard, press_check, build_answers, wallet, submit_answers,
  status_answers, balance_read, fund_screen, shows_build, shows_built, shows_sign, shows_check,
  start_create, press, on_built, on_read, on_status, on_sent, on_submitted, handle, fund_step,
  run_fund,
}

-- The server's word that the event is created.
abbrev confirmed_by : SubmitStatus → ℕ
confirmed_by succeeded = 1
confirmed_by pending = 0

abbrev created_by : EventStatus → ℕ
created_by created = 1
created_by _ = 0

abbrev confirms : FundEvent → ℕ
confirms (submit_answers i (ok res)) = confirmed_by res.status
confirms (status_answers (ok status)) = created_by status
confirms _ = 0

abbrev pub confirmations : List FundEvent → ℕ
confirmations [] = 0
confirmations (e ∷ es) = confirms e + confirmations es

-- Every build that the wallet was asked to sign has the reward `required`; the router was sent away
-- at most `n` times.
pub record Funds (required : Text) (n : ℕ) (s : FundAndCreate) : Type 0 where
  pub exact : Signs CreateWait (λ b. b.reward ≡ required) s.sign_step
  pub redirected : length s.pushed ≤ n

module _ (required : Text) where
  start_create-Funds :
      (n : ℕ) (s : FundAndCreate) → Funds required n s → Funds required n (start_create required s)
  start_create-Funds n s h =
      elim (Bool-cases (shows_build required s && not (is_some s.transition))) [
        | inl e ↦ rw e (record { exact = h.exact; redirected = h.redirected })
        | inr e ↦ rw e h
      ]

  press-Funds :
      (n : ℕ) (o : Option CreateBuilt) (s : FundAndCreate)
      → s.create_built ≡ o
      → Funds required n s
      → Funds required n (press required o s)
  press-Funds n none s e h = h
  press-Funds n (some b) s e h = elim (Bool-cases (shows_sign required s)) [
    | inl k ↦
        let same : b.reward ≡ required = ground arith in
        rw k (record {
          exact = Signs-sign (λ (c : CreateBuilt). c.reward ≡ required) b s.sign_step same h.exact;
          redirected = h.redirected;
        })
    | inr k ↦ rw k h
  ]

  on_built-Funds :
      (n : ℕ) (t : Option FundTransition) (r : Result ActionFailure CreateBuilt) (s : FundAndCreate)
      → Funds required n s
      → Funds required n (on_built t r s)
  on_built-Funds n (some building) (ok b) s h = record {
    exact = h.exact;
    redirected = h.redirected;
  }
  on_built-Funds n (some building) (err f) s h = record {
    exact = h.exact;
    redirected = h.redirected;
  }
  on_built-Funds n (some checking) r s h = h
  on_built-Funds n none r s h = h

  weaken : (m n : ℕ) (s : FundAndCreate) → m ≤ n → Funds required m s → Funds required n s
  weaken m n s le h = record { exact = h.exact; redirected = omega (arith, h.redirected) }

  pass : (n : ℕ) (s : FundAndCreate) → Funds required n s → Funds required (0 + n) s
  pass n s h = weaken n (0 + n) s (omega arith) h

  module _ (event_id : Text) where
    on_read-Funds :
        (n : ℕ) (status : EventStatus) (s : FundAndCreate)
        → Funds required n s
        → Funds required (created_by status + n) (on_read event_id status s)
    on_read-Funds n created s h = record {
      exact = h.exact;
      redirected = omega (arith, h.redirected);
    }
    on_read-Funds n _ s h = record { exact = h.exact; redirected = omega (arith, h.redirected) }

    on_status-Funds :
        (n : ℕ) (t : Option FundTransition) (r : Result ActionFailure EventStatus)
        (s : FundAndCreate)
        → Funds required n s
        → Funds required (confirms (status_answers r) + n) (on_status event_id t r s)
    on_status-Funds n (some checking) (ok status) s h = on_read-Funds n status s h
    on_status-Funds n (some checking) (err f) s h = record {
      exact = h.exact;
      redirected = omega (arith, h.redirected);
    }
    on_status-Funds n (some building) r s h = weaken n _ s (omega arith) h
    on_status-Funds n none r s h = weaken n _ s (omega arith) h

    module _ (copy : Copy) where
      on_sent-Funds :
          (n i : ℕ) (f : Flight CreateBuilt CreateWait) (t : SubmitStatus) (res : SignStepResult)
          (s : FundAndCreate)
          → Funds required n s
          → Funds required (confirmed_by t + n) (on_sent event_id copy i f t res s)
      on_sent-Funds n i f succeeded res s h = record {
        exact = Signs-settle _ copy i f _ s.sign_step h.exact;
        redirected = omega (arith, h.redirected);
      }
      on_sent-Funds n i f pending res s h = record {
        exact = Signs-settle _ copy i f _ s.sign_step h.exact;
        redirected = omega (arith, h.redirected);
      }

      on_submitted-Funds :
          (n i : ℕ) (o : Option (Flight CreateBuilt CreateWait × CreateWait))
          (r : Result ActionFailure SignStepResult) (s : FundAndCreate)
          → Funds required n s
          → Funds required (confirms (submit_answers i r) + n) (on_submitted event_id copy i o r s)
      on_submitted-Funds n i none r s h = weaken n _ s (omega arith) h
      on_submitted-Funds n i (some (f, submitting)) (err e) s h = record {
        exact = Signs-settle _ copy i f _ s.sign_step h.exact;
        redirected = omega (arith, h.redirected);
      }
      on_submitted-Funds n i (some (f, submitting)) (ok res) s h =
          on_sent-Funds n i f res.status res s h

      handle-Funds :
          (n : ℕ) (e : FundEvent) (s : FundAndCreate)
          → Funds required n s
          → Funds required (confirms e + n) (handle event_id copy required e s)
      handle-Funds n press_build s h = pass _ _ (start_create-Funds n s h)
      handle-Funds n press_sign s h = pass _ _ (press-Funds n s.create_built s refl h)
      handle-Funds n press_discard s h = elim (Bool-cases (shows_built required s)) [
        | inl e ↦ rw e (record { exact = h.exact; redirected = omega (arith, h.redirected) })
        | inr e ↦ rw e (pass n s h)
      ]
      handle-Funds n press_check s h =
          elim (Bool-cases (shows_check required s && not (is_some s.transition))) [
            | inl e ↦ rw e (record { exact = h.exact; redirected = omega (arith, h.redirected) })
            | inr e ↦ rw e (pass n s h)
          ]
      handle-Funds n (build_answers r) s h = pass _ _ (on_built-Funds n s.transition r s h)
      handle-Funds n (wallet i r) s h = record {
        exact = Signs-wallet_answers _ copy submitting i r s.sign_step h.exact;
        redirected = omega (arith, h.redirected);
      }
      handle-Funds n (submit_answers i r) s h = on_submitted-Funds n i (waiting i s.sign_step) r s h
      handle-Funds n (status_answers r) s h = on_status-Funds n s.transition r s h
      handle-Funds n (balance_read b) s h = record {
        exact = h.exact;
        redirected = omega (arith, h.redirected);
      }

      run_fund-Funds_from :
          (es : List FundEvent) (n : ℕ) (s : FundAndCreate)
          → Funds required n s
          → Funds required (confirmations es + n) (run_fund event_id copy required es s)
      unfolding run_fund fund_step
      run_fund-Funds_from [] n s h = pass n s h
      run_fund-Funds_from (e ∷ es) n s h =
          let t = handle event_id copy required e s in
          let g = handle-Funds n e s h in
          let rest = run_fund-Funds_from es (confirms e + n) _ (record {
            exact =
                Signs-unmount_if (λ (b : CreateBuilt). b.reward ≡ required)
                  (shows_sign required s && not (shows_sign required t)) t.sign_step g.exact;
            redirected = g.redirected;
          }) in
          weaken _ _ _ (omega arith) rest

      -- In whatever order the organizer presses, the wallet answers and the server answers, and
      -- whatever reward Go builds: the wallet is asked to sign, and an envelope is submitted, only
      -- for a build whose reward is the page's own sum, to the digit; each submission answers a
      -- press of its own; and the screen moves on to the event at most once for each answer by
      -- which the submission succeeded or the event is CREATED.
      pub run_fund-Funds :
          (initial_balance : Text) (es : List FundEvent)
          → Funds required
              (confirmations es)
              (run_fund event_id copy required es (fund_screen initial_balance))
      unfolding fund_screen
      run_fund-Funds initial_balance es =
          let rest =
            run_fund-Funds_from es 0 (fund_screen initial_balance)
              (record { exact = Signs-new_step _; redirected = omega arith }) in
          weaken _ _ _ (omega arith) rest
