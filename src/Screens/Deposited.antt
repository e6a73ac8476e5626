-- ===== src/Screens/Deposited.antt =====
-- What the deposit step asks of the server and of the wallet, in whatever order presses and answers
-- come.
use astrea.Prelude.{
  ℕ, ◌≤◌, ◌<◌, ◌≡◌, refl, true, not, ◌&&◌, Option, none, some, is_some, List, [], ◌∷◌, Text, Result,
  ok, err, arith, All, value, digits, value-digits, inl, inr, Option-cases, Bool-cases, le→leb,
}
use astrea.Amount.{parse_usdc_amount}
use astrea.Amount.RoundTrip.{parse_usdc_amount-format_smallest_units}
use astrea.CoreGo.Failure.{ActionFailure}
use astrea.Screens.Sign.{SubmitStatus, succeeded, pending, SignStepResult, Copy, Flight, waiting}
use astrea.Screens.Signing.{
  Holds, HoldsOk, Signs, Signs-new_step, Signs-sign, Signs-unmount_if, Signs-wallet_answers,
  Signs-waits_next, Signs-settle,
}
use astrea.Screens.Deposit.{
  DepositBuilt, DepositTransition, building, checking, DepositWait, submitting, depositing,
  DepositStep, DepositEvent, type_amount, press_build, press_sign, press_change_amount, press_check,
  build_answers, wallet, submit_answers, deposited, checked, shortfall_changes, mount, at_least,
  amount_ok, shows_amount, shows_sign, start, on_built, on_checked, press, on_submitted, on_sent,
  on_deposited, handle, deposit_step, run_deposit,
}

-- An amount that reads as at least the shortfall it was asked under.
abbrev Covers : Text × Text → Type 0
Covers (amount, shortfall) = (n : ℕ) × (parse_usdc_amount amount ≡ some n) × (value shortfall ≤ n)

-- `P` of what Go built in this event.
abbrev pub Builds : (DepositBuilt → Type 0) → DepositEvent → Type 0
Builds P (build_answers r) = HoldsOk P r
Builds P _ = Unit

pub record Deposits (P : DepositBuilt → Type 0) (s : DepositStep) : Type 0 where
  pub built_holds : Holds P s.built
  pub signs : Signs DepositWait P s.sign_step
  pub covers : All Covers s.asked

at_least-Covers :
    (amount shortfall : Text)
    → at_least (value shortfall) (parse_usdc_amount amount) ≡ true
    → Covers (amount, shortfall)
at_least-Covers amount shortfall h = elim (Option-cases (parse_usdc_amount amount)) [
  | inl e ↦ absurd (ground arith)
  | inr (n, e) ↦ (n, e, ground arith)
]

module _ (P : DepositBuilt → Type 0) where
  mount-Deposits : (shortfall : Text) → Deposits P (mount shortfall)
  unfolding mount
  mount-Deposits shortfall = record { built_holds = tt; signs = Signs-new_step P; covers = tt }

  start-Deposits : (s : DepositStep) → Deposits P s → Deposits P (start s)
  start-Deposits s h =
      elim (Bool-cases (shows_amount s && (amount_ok s && not (is_some s.transition)))) [
        | inr e ↦ rw e h
        | inl e ↦ rw e (record {
          built_holds = tt;
          signs = h.signs;
          covers = (at_least-Covers s.amount s.shortfall (ground arith), h.covers);
        })
      ]

  on_built-Deposits :
      (t : Option DepositTransition) (r : Result ActionFailure DepositBuilt) (s : DepositStep)
      → HoldsOk P r
      → Deposits P s
      → Deposits P (on_built t r s)
  on_built-Deposits (some building) (ok b) s k h = record {
    built_holds = k;
    signs = h.signs;
    covers = h.covers;
  }
  on_built-Deposits (some building) (err f) s k h = record {
    built_holds = h.built_holds;
    signs = h.signs;
    covers = h.covers;
  }
  on_built-Deposits (some checking) r s k h = h
  on_built-Deposits none r s k h = h

  on_checked-Deposits :
      (t : Option DepositTransition) (e : Option ActionFailure) (s : DepositStep)
      → Deposits P s
      → Deposits P (on_checked t e s)
  on_checked-Deposits (some checking) e s h = record {
    built_holds = h.built_holds;
    signs = h.signs;
    covers = h.covers;
  }
  on_checked-Deposits (some building) e s h = h
  on_checked-Deposits none e s h = h

  press-Deposits :
      (o : Option DepositBuilt) (s : DepositStep)
      → Holds P o
      → Deposits P s
      → Deposits P (press o s)
  press-Deposits none s k h = h
  press-Deposits (some b) s k h = elim (Bool-cases (shows_sign s)) [
    | inl e ↦ rw e (record {
      built_holds = h.built_holds;
      signs = Signs-sign P b s.sign_step k h.signs;
      covers = h.covers;
    })
    | inr e ↦ rw e h
  ]

  module _ (copy : Copy) where
    on_sent-Deposits :
        (i : ℕ) (f : Flight DepositBuilt DepositWait) (t : SubmitStatus) (res : SignStepResult)
        (s : DepositStep)
        → waiting i s.sign_step ≡ some (f, submitting)
        → Deposits P s
        → Deposits P (on_sent copy i f t res s)
    on_sent-Deposits i f succeeded res s e h = record {
      built_holds = h.built_holds;
      signs = Signs-waits_next P i f submitting _ s.sign_step e h.signs;
      covers = h.covers;
    }
    on_sent-Deposits i f pending res s e h = record {
      built_holds = h.built_holds;
      signs = Signs-settle P copy i f _ s.sign_step h.signs;
      covers = h.covers;
    }

    on_submitted-Deposits :
        (i : ℕ) (o : Option (Flight DepositBuilt DepositWait × DepositWait))
        (r : Result ActionFailure SignStepResult) (s : DepositStep)
        → waiting i s.sign_step ≡ o
        → Deposits P s
        → Deposits P (on_submitted copy i o r s)
    on_submitted-Deposits i none r s e h = h
    on_submitted-Deposits i (some (f, depositing res)) r s e h = h
    on_submitted-Deposits i (some (f, submitting)) (err x) s e h = record {
      built_holds = h.built_holds;
      signs = Signs-settle P copy i f _ s.sign_step h.signs;
      covers = h.covers;
    }
    on_submitted-Deposits i (some (f, submitting)) (ok res) s e h =
        on_sent-Deposits i f res.status res s e h

    on_deposited-Deposits :
        (i : ℕ) (o : Option (Flight DepositBuilt DepositWait × DepositWait))
        (e : Option ActionFailure) (s : DepositStep)
        → Deposits P s
        → Deposits P (on_deposited copy i o e s)
    on_deposited-Deposits i none e s h = h
    on_deposited-Deposits i (some (f, submitting)) e s h = h
    on_deposited-Deposits i (some (f, depositing res)) e s h = record {
      built_holds = tt;
      signs = Signs-settle P copy i f _ s.sign_step h.signs;
      covers = h.covers;
    }

    handle-Deposits :
        (e : DepositEvent) (s : DepositStep)
        → Builds P e
        → Deposits P s
        → Deposits P (handle copy e s)
    handle-Deposits (type_amount t) s k h = elim (Bool-cases (shows_amount s)) [
      | inl e ↦ rw e (record { built_holds = h.built_holds; signs = h.signs; covers = h.covers })
      | inr e ↦ rw e h
    ]
    handle-Deposits press_build s k h = start-Deposits s h
    handle-Deposits press_sign s k h = press-Deposits s.built s h.built_holds h
    handle-Deposits press_change_amount s k h = elim (Bool-cases (shows_sign s)) [
      | inl e ↦ rw e (record { built_holds = tt; signs = h.signs; covers = h.covers })
      | inr e ↦ rw e h
    ]
    handle-Deposits press_check s k h =
        elim (Bool-cases (is_some s.pending_hash && not (is_some s.transition))) [
          | inl e ↦
              rw e (record { built_holds = h.built_holds; signs = h.signs; covers = h.covers })
          | inr e ↦ rw e h
        ]
    handle-Deposits (build_answers r) s k h = on_built-Deposits s.transition r s k h
    handle-Deposits (wallet i r) s k h = record {
      built_holds = h.built_holds;
      signs = Signs-wallet_answers P copy submitting i r s.sign_step h.signs;
      covers = h.covers;
    }
    handle-Deposits (submit_answers i r) s k h = on_submitted-Deposits i _ r s refl h
    handle-Deposits (deposited i e) s k h = on_deposited-Deposits i (waiting i s.sign_step) e s h
    handle-Deposits (checked e) s k h = on_checked-Deposits s.transition e s h
    handle-Deposits (shortfall_changes n) s k h = record {
      built_holds = h.built_holds;
      signs = h.signs;
      covers = h.covers;
    }

    run_deposit-Deposits_from :
        (es : List DepositEvent) (s : DepositStep)
        → All (Builds P) es
        → Deposits P s
        → Deposits P (run_deposit copy es s)
    unfolding run_deposit deposit_step
    run_deposit-Deposits_from [] s k h = h
    run_deposit-Deposits_from (e ∷ es) s k h =
        let t = handle copy e s in
        let g = handle-Deposits e s k.0 h in
        run_deposit-Deposits_from es _ k.1 (record {
          built_holds = g.built_holds;
          signs = Signs-unmount_if P (shows_sign s && not (shows_sign t)) t.sign_step g.signs;
          covers = g.covers;
        })

    -- In whatever order the organizer presses, the wallet answers and the server answers: what holds
    -- of every deposit that Go built holds of each that the wallet is asked to sign or whose
    -- envelope is submitted, each submission answers a press of its own, and Go is asked only for
    -- amounts of at least the shortfall that was shown.
    pub run_deposit-Deposits :
        (shortfall : Text) (es : List DepositEvent)
        → All (Builds P) es
        → Deposits P (run_deposit copy es (mount shortfall))
    run_deposit-Deposits shortfall es k =
        run_deposit-Deposits_from es (mount shortfall) k (mount-Deposits shortfall)

-- The amount that the step starts with is the shortfall, and can be built at once.
pub mount-amount_ok : (n : ℕ) → 0 < n → amount_ok (mount (digits n)) ≡ true
unfolding mount
mount-amount_ok n pos =
    rw (parse_usdc_amount-format_smallest_units n pos)
      (rw (value-digits n) (le→leb n n (omega arith)))
