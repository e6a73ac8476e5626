-- ===== src/Screens/WentLive.antt =====
-- What the go-live screen has signed, when it says that the event is LIVE, and what a refusal leaves.
use astrea.Prelude.{
  ℕ, ◌+◌, ◌≤◌, ◌≡◌, refl, ap, ◌∙◌, ◌⊎◌, inl, inr, true, false, not, ◌&&◌, Option, none, some,
  is_some, List, [], ◌∷◌, Text, Result, ok, err, arith, length, All, Bool-cases,
}
use astrea.Schema.{EventStatus, live}
use astrea.CoreGo.Failure.{ActionFailure}
use astrea.Screens.Sign.{SubmitStatus, succeeded, pending, SignStepResult, Copy, Flight, waiting}
use astrea.Screens.Signing.{
  Holds, HoldsOk, Signs, Signs-new_step, Signs-sign, Signs-unmount_if, Signs-wallet_answers,
  Signs-waits_next, Signs-settle,
}
use astrea.Screens.GoLive.{
  Quote, StartBuilt, FailureWait, quoting, reading, GoLiveTransition, building, checking, StartWait,
  submitting, confirming, GoLive, GoLiveEvent, press_start, press_sign, press_discard, press_check,
  build_answers, wallet, submit_answers, quote_answers, status_answers, quote_read, go_live_screen,
  shows_start, shows_sign, shows_check, wait_of, keeps_built, show_failure, drop_built,
  handle_failure, start, on_built, on_quote, press, check_live, on_transition_quote,
  on_transition_status, throws, returns, waits, on_refused, on_sent, on_submitted, on_flight_quote,
  on_flight_status, handle, go_live_step, run_go_live,
}

-- The answers by which the event is LIVE.
abbrev live_by : EventStatus → ℕ
live_by live = 1
live_by _ = 0

abbrev live_answer : Result ActionFailure EventStatus → ℕ
live_answer (ok status) = live_by status
live_answer (err f) = 0

abbrev lives_in : GoLiveEvent → ℕ
lives_in (status_answers who r) = live_answer r
lives_in _ = 0

abbrev pub live_answers : List GoLiveEvent → ℕ
live_answers [] = 0
live_answers (e ∷ es) = lives_in e + live_answers es

-- `P` of what Go built in this event.
abbrev Builds : (StartBuilt → Type 0) → GoLiveEvent → Type 0
Builds P (build_answers r) = HoldsOk P r
Builds P _ = Unit

pub record Lives (P : StartBuilt → Type 0) (n : ℕ) (s : GoLive) : Type 0 where
  pub built_holds : Holds P s.built
  pub signs : Signs StartWait P s.sign_step
  pub redirected : length s.pushed ≤ n

module _ (P : StartBuilt → Type 0) where
  weaken : (m n : ℕ) (s : GoLive) → m ≤ n → Lives P m s → Lives P n s
  weaken m n s le h = record {
    built_holds = h.built_holds;
    signs = h.signs;
    redirected = omega (arith, h.redirected);
  }

  pass : (n : ℕ) (s : GoLive) → Lives P n s → Lives P (0 + n) s
  pass n s h = weaken n (0 + n) s (omega arith) h

  -- A state that differs in nothing that the invariant reads.
  same :
      (n : ℕ) (s : GoLive) (q : Quote) (f : Option ActionFailure) (r : Option SignStepResult)
      (t : Option GoLiveTransition)
      → Lives P n s
      → Lives P n (record s { quote = q; failure = f; submitted = r; transition = t })
  same n s q f r t h = record {
    built_holds = h.built_holds;
    signs = h.signs;
    redirected = h.redirected;
  }

  start-Lives : (n : ℕ) (s : GoLive) → Lives P n s → Lives P n (start s)
  start-Lives n s h = elim (Bool-cases (shows_start s && not (is_some s.transition))) [
    | inl e ↦ rw e (record { built_holds = tt; signs = h.signs; redirected = h.redirected })
    | inr e ↦ rw e h
  ]

  show_failure-Lives :
      (n : ℕ) (w : Option FailureWait) (f : ActionFailure) (s : GoLive)
      → Lives P n s
      → Lives P n (show_failure w f s)
  show_failure-Lives n none f s h = same n s _ _ _ _ h
  show_failure-Lives n (some w) f s h = h

  -- `handleFailure` leaves the presses alone.
  handle_failure_sign_step :
      (w : Option FailureWait) (f : ActionFailure) (s : GoLive)
      → (show_failure w f (drop_built f s)).sign_step ≡ s.sign_step
  handle_failure_sign_step w f s = dropped w (Bool-cases (keeps_built f))
    where
      dropped :
          (w : Option FailureWait)
          → (keeps_built f ≡ true) ⊎ (keeps_built f ≡ false)
          → (show_failure w f (drop_built f s)).sign_step ≡ s.sign_step
      dropped none (inl e) = rw e refl
      dropped none (inr e) = rw e refl
      dropped (some v) (inl e) = rw e refl
      dropped (some v) (inr e) = rw e refl

  handle_failure-Lives :
      (n : ℕ) (f : ActionFailure) (s : GoLive) → Lives P n s → Lives P n (handle_failure f s)
  handle_failure-Lives n f s h = show_failure-Lives n (wait_of f) f (drop_built f s) dropped
    where
      dropped : Lives P n (drop_built f s)
      dropped = elim (Bool-cases (keeps_built f)) [
        | inl e ↦ rw e h
        | inr e ↦ rw e (record { built_holds = tt; signs = h.signs; redirected = h.redirected })
      ]

  on_built-Lives :
      (n : ℕ) (t : Option GoLiveTransition) (r : Result ActionFailure StartBuilt) (s : GoLive)
      → HoldsOk P r
      → Lives P n s
      → Lives P n (on_built t r s)
  on_built-Lives n (some building) (ok b) s k h = record {
    built_holds = k;
    signs = h.signs;
    redirected = h.redirected;
  }
  on_built-Lives n (some building) (err f) s k h = handle_failure-Lives n f _ (same n s _ _ _ _ h)
  on_built-Lives n (some checking) r s k h = h
  on_built-Lives n (some (GoLiveTransition.refused w)) r s k h = h
  on_built-Lives n none r s k h = h

  on_quote-Lives :
      (n : ℕ) (f : ActionFailure) (r : Result ActionFailure Quote) (s : GoLive)
      → Lives P n s
      → Lives P n (on_quote f r s)
  on_quote-Lives n f (ok q) s h = same n s _ _ _ _ h
  on_quote-Lives n f (err g) s h = same n s _ _ _ _ h

  press-Lives :
      (n : ℕ) (o : Option StartBuilt) (s : GoLive) → Holds P o → Lives P n s → Lives P n (press o s)
  press-Lives n none s k h = h
  press-Lives n (some b) s k h = elim (Bool-cases (shows_sign s)) [
    | inl e ↦ rw e (record {
      built_holds = h.built_holds;
      signs = Signs-sign P b s.sign_step k h.signs;
      redirected = h.redirected;
    })
    | inr e ↦ rw e h
  ]

  on_transition_quote-Lives :
      (n : ℕ) (event_id : Text) (t : Option GoLiveTransition) (r : Result ActionFailure Quote)
      (s : GoLive)
      → Lives P n s
      → Lives P n (on_transition_quote event_id t r s)
  on_transition_quote-Lives n id (some (GoLiveTransition.refused (quoting f))) r s h =
      on_quote-Lives n f r _ (same n s _ _ _ _ h)
  on_transition_quote-Lives n id (some (GoLiveTransition.refused (reading f))) r s h = h
  on_transition_quote-Lives n id (some building) r s h = h
  on_transition_quote-Lives n id (some checking) r s h = h
  on_transition_quote-Lives n id none r s h = h

  module _ (event_id : Text) where
    check_live-Lives :
        (n : ℕ) (o : Option ActionFailure) (r : Result ActionFailure EventStatus) (s : GoLive)
        → Lives P n s
        → Lives P (live_answer r + n) (check_live event_id o r s)
    check_live-Lives n o (ok live) s h = record {
      built_holds = h.built_holds;
      signs = h.signs;
      redirected = omega (arith, h.redirected);
    }
    check_live-Lives n (some f) (err g) s h = pass n _ (same n s _ _ _ _ h)
    check_live-Lives n none (err g) s h = pass n _ (same n s _ _ _ _ h)
    check_live-Lives n (some f) (ok _) s h = pass n _ (same n s _ _ _ _ h)
    check_live-Lives n none (ok _) s h = pass n s h

    on_transition_status-Lives :
        (n : ℕ) (t : Option GoLiveTransition) (r : Result ActionFailure EventStatus) (s : GoLive)
        → Lives P n s
        → Lives P (live_answer r + n) (on_transition_status event_id t r s)
    on_transition_status-Lives n (some checking) r s h =
        check_live-Lives n none r _ (same n s _ _ _ _ h)
    on_transition_status-Lives n (some (GoLiveTransition.refused (reading f))) r s h =
        check_live-Lives n (some f) r _ (same n s _ _ _ _ h)
    on_transition_status-Lives n (some (GoLiveTransition.refused (quoting f))) r s h =
        weaken n _ s (omega arith) h
    on_transition_status-Lives n (some building) r s h = weaken n _ s (omega arith) h
    on_transition_status-Lives n none r s h = weaken n _ s (omega arith) h

    module _ (copy : Copy) where
      settle-Lives :
          (n i : ℕ) (f : Flight StartBuilt StartWait) (s : GoLive)
          → Lives P n s
          → ((e : ActionFailure) → Lives P n (throws event_id copy i f e s))
            × ((res : SignStepResult) → Lives P n (returns event_id copy i f res s))
      settle-Lives n i f s h = (
        λ e. record {
          built_holds = h.built_holds;
          signs = Signs-settle P copy i f _ s.sign_step h.signs;
          redirected = h.redirected;
        },
        λ res. record {
          built_holds = h.built_holds;
          signs = Signs-settle P copy i f _ s.sign_step h.signs;
          redirected = h.redirected;
        },
      )

      waits-Lives :
          (n i : ℕ) (f : Flight StartBuilt StartWait) (v w : StartWait) (s : GoLive)
          → waiting i s.sign_step ≡ some (f, v)
          → Lives P n s
          → Lives P n (waits event_id copy i f w s)
      waits-Lives n i f v w s e h = record {
        built_holds = h.built_holds;
        signs = Signs-waits_next P i f v w s.sign_step e h.signs;
        redirected = h.redirected;
      }

      on_refused-Lives :
          (n i : ℕ) (f : Flight StartBuilt StartWait) (w : Option FailureWait) (e : ActionFailure)
          (s : GoLive)
          → waiting i s.sign_step ≡ some (f, submitting)
          → Lives P n s
          → Lives P n (on_refused event_id copy i f w e s)
      on_refused-Lives n i f none e s q h =
          (settle-Lives n i f _ (handle_failure-Lives n e s h)).0 e
      on_refused-Lives n i f (some w) e s q h =
          waits-Lives n i f submitting _ _
            (ap (waiting i) (handle_failure_sign_step (wait_of e) e s) ∙ q)
            (handle_failure-Lives n e s h)

      on_sent-Lives :
          (n i : ℕ) (f : Flight StartBuilt StartWait) (t : SubmitStatus) (res : SignStepResult)
          (s : GoLive)
          → waiting i s.sign_step ≡ some (f, submitting)
          → Lives P n s
          → Lives P n (on_sent event_id copy i f t res s)
      on_sent-Lives n i f succeeded res s q h =
          waits-Lives n i f submitting _ _ q (same n s _ _ _ _ h)
      on_sent-Lives n i f pending res s q h = (settle-Lives n i f _ (same n s _ _ _ _ h)).1 res

      on_submitted-Lives :
          (n i : ℕ) (o : Option (Flight StartBuilt StartWait × StartWait))
          (r : Result ActionFailure SignStepResult) (s : GoLive)
          → waiting i s.sign_step ≡ o
          → Lives P n s
          → Lives P n (on_submitted event_id copy i o r s)
      on_submitted-Lives n i none r s q h = h
      on_submitted-Lives n i (some (f, submitting)) (err e) s q h =
          on_refused-Lives n i f (wait_of e) e s q h
      on_submitted-Lives n i (some (f, submitting)) (ok res) s q h =
          on_sent-Lives n i f res.status res s q h
      on_submitted-Lives n i (some (f, StartWait.refused w)) r s q h = h
      on_submitted-Lives n i (some (f, confirming res)) r s q h = h

      on_flight_quote-Lives :
          (n i : ℕ) (o : Option (Flight StartBuilt StartWait × StartWait))
          (r : Result ActionFailure Quote) (s : GoLive)
          → Lives P n s
          → Lives P n (on_flight_quote event_id copy i o r s)
      on_flight_quote-Lives n i none r s h = h
      on_flight_quote-Lives n i (some (f, submitting)) r s h = h
      on_flight_quote-Lives n i (some (f, confirming res)) r s h = h
      on_flight_quote-Lives n i (some (f, StartWait.refused (reading e))) r s h = h
      on_flight_quote-Lives n i (some (f, StartWait.refused (quoting e))) r s h =
          (settle-Lives n i f _ (on_quote-Lives n e r s h)).0 e

      on_flight_status-Lives :
          (n i : ℕ) (o : Option (Flight StartBuilt StartWait × StartWait))
          (r : Result ActionFailure EventStatus) (s : GoLive)
          → Lives P n s
          → Lives P (live_answer r + n) (on_flight_status event_id copy i o r s)
      on_flight_status-Lives n i none r s h = weaken n _ s (omega arith) h
      on_flight_status-Lives n i (some (f, submitting)) r s h = weaken n _ s (omega arith) h
      on_flight_status-Lives n i (some (f, confirming res)) r s h =
          (settle-Lives _ i f _ (check_live-Lives n none r s h)).1 res
      on_flight_status-Lives n i (some (f, StartWait.refused (quoting e))) r s h =
          weaken n _ s (omega arith) h
      on_flight_status-Lives n i (some (f, StartWait.refused (reading e))) r s h =
          (settle-Lives _ i f _ (check_live-Lives n (some e) r s h)).0 e

      handle-Lives :
          (n : ℕ) (e : GoLiveEvent) (s : GoLive)
          → Builds P e
          → Lives P n s
          → Lives P (lives_in e + n) (handle event_id copy e s)
      handle-Lives n press_start s k h = pass n _ (start-Lives n s h)
      handle-Lives n press_sign s k h = pass n _ (press-Lives n s.built s h.built_holds h)
      handle-Lives n press_discard s k h = pass n _ (elim (Bool-cases (shows_sign s)) [
        | inl e ↦ rw e (record { built_holds = tt; signs = h.signs; redirected = h.redirected })
        | inr e ↦ rw e h
      ])
      handle-Lives n press_check s k h =
          pass n _ (elim (Bool-cases (shows_check s && not (is_some s.transition))) [
            | inl e ↦ rw e (same n s _ _ _ _ h)
            | inr e ↦ rw e h
          ])
      handle-Lives n (build_answers r) s k h = pass n _ (on_built-Lives n s.transition r s k h)
      handle-Lives n (wallet i r) s k h = pass n _ (record {
        built_holds = h.built_holds;
        signs = Signs-wallet_answers P copy submitting i r s.sign_step h.signs;
        redirected = h.redirected;
      })
      handle-Lives n (submit_answers i r) s k h = pass n _ (on_submitted-Lives n i _ r s refl h)
      handle-Lives n (quote_answers none r) s k h =
          pass n _ (on_transition_quote-Lives n event_id s.transition r s h)
      handle-Lives n (quote_answers (some i) r) s k h =
          pass n _ (on_flight_quote-Lives n i (waiting i s.sign_step) r s h)
      handle-Lives n (status_answers none r) s k h = on_transition_status-Lives n s.transition r s h
      handle-Lives n (status_answers (some i) r) s k h =
          on_flight_status-Lives n i (waiting i s.sign_step) r s h
      handle-Lives n (quote_read q) s k h = pass n _ (same n s _ _ _ _ h)

      run_go_live-Lives_from :
          (es : List GoLiveEvent) (n : ℕ) (s : GoLive)
          → All (Builds P) es
          → Lives P n s
          → Lives P (live_answers es + n) (run_go_live event_id copy es s)
      unfolding run_go_live go_live_step
      run_go_live-Lives_from [] n s k h = pass n s h
      run_go_live-Lives_from (e ∷ es) n s k h =
          let t = handle event_id copy e s in
          let g = handle-Lives n e s k.0 h in
          let rest = run_go_live-Lives_from es (lives_in e + n) _ k.1 (record {
            built_holds = g.built_holds;
            signs = Signs-unmount_if P (shows_sign s && not (shows_sign t)) t.sign_step g.signs;
            redirected = g.redirected;
          }) in
          weaken _ _ _ (omega arith) rest

      -- In whatever order the organizer presses, the wallet answers and the server answers: what
      -- holds of every go-live that Go built holds of each that the wallet is asked to sign or
      -- whose envelope is submitted, each submission answers a press of its own, and the screen
      -- moves on to the event at most once for each answer by which the event's status is LIVE.
      pub run_go_live-Lives :
          (initial_quote : Quote) (es : List GoLiveEvent)
          → All (Builds P) es
          → Lives P (live_answers es) (run_go_live event_id copy es (go_live_screen initial_quote))
      unfolding go_live_screen
      run_go_live-Lives initial_quote es k =
          let rest =
            run_go_live-Lives_from es 0 (go_live_screen initial_quote) k
              (record { built_holds = tt; signs = Signs-new_step P; redirected = omega arith }) in
          weaken _ _ _ (omega arith) rest
