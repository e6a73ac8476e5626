-- ===== src/Screens/Locked.antt =====
-- The judge's selection while a release is built and signed, and what is signed.
use astrea.Prelude.{
  ℕ, ◌≡◌, refl, inl, inr, Bool, true, false, not, ◌&&◌, ◌||◌, Option, none, some, is_some, List, [],
  ◌∷◌, Text, Result, ok, err, arith, All, map, Bool-cases,
}
use astrea.CoreGo.Failure.{ReleaseFailure}
use astrea.CoreGo.Judge.{JudgeFailure}
use astrea.Screens.Sign.{SignStepResult, Copy, Flight, waiting}
use astrea.Screens.Signing.{
  Holds, HoldsOk, Signs, Signs-new_step, Signs-sign, Signs-unmount_if, Signs-wallet_answers,
  Signs-settle,
}
use astrea.Screens.Release.{
  FormPrize, FormTeam, ReleaseBuilt, ReleaseWait, submitting, ReleaseForm, ReleaseEvent, pick,
  press_build, press_sign, press_rebuild, build_answers, wallet, submit_answers, release_form,
  assign, selection, locked, shows_sign, on_built, press, all_assigned, shows_build, build_enabled,
  build, on_submitted, handle, release_step, run_release,
}

-- A build is awaited, or stands on the screen.
abbrev pub active : ReleaseForm → Bool
active s = s.pending || is_some s.built

-- `P` of what Go built in this event.
abbrev Builds : (ReleaseBuilt → Type 0) → ReleaseEvent → Type 0
Builds P (build_answers r) = HoldsOk P r
Builds P _ = Unit

pub record Locked (P : ReleaseBuilt → Type 0) (prizes : List FormPrize) (teams : List FormTeam)
    (s : ReleaseForm) : Type 0 where
  pub same_selection : active s ≡ true → s.requested ≡ map (selection s.assignments) prizes
  pub complete : active s ≡ true → all_assigned prizes teams s ≡ true
  pub built_holds : Holds P s.built
  pub signs : Signs ReleaseWait P s.sign_step

module _ (P : ReleaseBuilt → Type 0) (prizes : List FormPrize) (teams : List FormTeam) where
  abbrev Inv : ReleaseForm → Type 0
  Inv s = Locked P prizes teams s

  build-Locked : (s : ReleaseForm) → Inv s → Inv (build prizes teams s)
  build-Locked s h =
      elim (Bool-cases (shows_build prizes teams s && build_enabled prizes teams s)) [
        | inl e ↦ rw e (record {
          same_selection = λ _. refl;
          complete = λ _. ground arith;
          built_holds = tt;
          signs = h.signs;
        })
        | inr e ↦ rw e h
      ]

  on_built-Locked :
      (p : Bool) (r : Result JudgeFailure ReleaseBuilt) (s : ReleaseForm)
      → s.pending ≡ p
      → HoldsOk P r
      → Inv s
      → Inv (on_built p r s)
  on_built-Locked true (ok b) s e k h = record {
    same_selection = λ _. h.same_selection (rw e refl);
    complete = λ _. h.complete (rw e refl);
    built_holds = k;
    signs = h.signs;
  }
  on_built-Locked true (err f) s e k h = record {
    same_selection = λ _. h.same_selection (rw e refl);
    complete = λ _. h.complete (rw e refl);
    built_holds = h.built_holds;
    signs = h.signs;
  }
  on_built-Locked false r s e k h = h

  press-Locked : (o : Option ReleaseBuilt) (s : ReleaseForm) → Holds P o → Inv s → Inv (press o s)
  press-Locked none s k h = h
  press-Locked (some b) s k h = elim (Bool-cases (shows_sign s)) [
    | inl e ↦ rw e (record {
      same_selection = h.same_selection;
      complete = h.complete;
      built_holds = h.built_holds;
      signs = Signs-sign P b s.sign_step k h.signs;
    })
    | inr e ↦ rw e h
  ]

  pick-Locked :
      (rank : ℕ) (team : Text) (s : ReleaseForm)
      → locked s ≡ false
      → Inv s
      → Inv (record s { failure = none; assignments = assign rank team s.assignments })
  pick-Locked rank team s free h = record {
    same_selection = λ a. absurd (ground arith);
    complete = λ a. absurd (ground arith);
    built_holds = h.built_holds;
    signs = h.signs;
  }

  module _ (copy : Copy) where
    on_submitted-Locked :
        (i : ℕ) (o : Option (Flight ReleaseBuilt ReleaseWait × ReleaseWait))
        (r : Result ReleaseFailure SignStepResult) (s : ReleaseForm)
        → Inv s
        → Inv (on_submitted prizes teams copy i o r s)
    on_submitted-Locked i none r s h = h
    on_submitted-Locked i (some (f, submitting)) (err e) s h = record {
      same_selection = h.same_selection;
      complete = h.complete;
      built_holds = h.built_holds;
      signs = Signs-settle P copy i f _ s.sign_step h.signs;
    }
    on_submitted-Locked i (some (f, submitting)) (ok res) s h = record {
      same_selection = h.same_selection;
      complete = h.complete;
      built_holds = h.built_holds;
      signs = Signs-settle P copy i f _ s.sign_step h.signs;
    }

    handle-Locked :
        (e : ReleaseEvent) (s : ReleaseForm)
        → Builds P e
        → Inv s
        → Inv (handle prizes teams copy e s)
    handle-Locked (pick rank team) s k h = elim (Bool-cases (locked s)) [
      | inl e ↦ rw e h
      | inr e ↦ rw e (pick-Locked rank team s e h)
    ]
    handle-Locked press_build s k h = build-Locked s h
    handle-Locked press_sign s k h = press-Locked s.built s h.built_holds h
    handle-Locked press_rebuild s k h = elim (Bool-cases (shows_sign s)) [
      | inl e ↦ rw e (record {
        same_selection = λ a. h.same_selection (ground arith);
        complete = λ a. h.complete (ground arith);
        built_holds = tt;
        signs = h.signs;
      })
      | inr e ↦ rw e h
    ]
    handle-Locked (build_answers r) s k h = on_built-Locked s.pending r s refl k h
    handle-Locked (wallet i r) s k h = record {
      same_selection = h.same_selection;
      complete = h.complete;
      built_holds = h.built_holds;
      signs = Signs-wallet_answers P copy submitting i r s.sign_step h.signs;
    }
    handle-Locked (submit_answers i r) s k h = on_submitted-Locked i (waiting i s.sign_step) r s h

    run_release-Locked_from :
        (es : List ReleaseEvent) (s : ReleaseForm)
        → All (Builds P) es
        → Inv s
        → Inv (run_release prizes teams copy es s)
    unfolding run_release release_step
    run_release-Locked_from [] s k h = h
    run_release-Locked_from (e ∷ es) s k h =
        let t = handle prizes teams copy e s in
        let g = handle-Locked e s k.0 h in
        run_release-Locked_from es _ k.1 (record {
          same_selection = g.same_selection;
          complete = g.complete;
          built_holds = g.built_holds;
          signs = Signs-unmount_if P (shows_sign s && not (shows_sign t)) t.sign_step g.signs;
        })

    -- In whatever order the judge picks and presses, the wallet answers and the server answers:
    -- while a release is built or up for signing, the teams on the screen are those that the build
    -- was asked for, one for every prize; what holds of every release that Go built holds of each
    -- that the wallet is asked to sign or whose envelope is submitted; and each submission answers a
    -- press of its own.
    pub run_release-Locked :
        (es : List ReleaseEvent)
        → All (Builds P) es
        → Locked P prizes teams (run_release prizes teams copy es release_form)
    unfolding release_form
    run_release-Locked es k = run_release-Locked_from es release_form k (record {
      same_selection = λ a. cc;
      complete = λ a. cc;
      built_holds = tt;
      signs = Signs-new_step P;
    })
