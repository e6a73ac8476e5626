-- ===== src/Screens/Release.antt =====
-- The judge's screen, apps/web/src/app/[locale]/events/[id]/judge/release-form.tsx.
use astrea.Prelude.{
  ℕ, Bool, true, false, not, ◌&&◌, ◌||◌, Option, none, some, is_some, List, [], ◌∷◌, Text, Result,
  ok, err, ◌==◌, map, all, if◌then◌else◌,
}
use astrea.CoreGo.Failure.{ReleaseFailure}
use astrea.CoreGo.Judge.{JudgeFailure, release}
use astrea.CoreGo.Winners.{ReleaseAssignment}
use astrea.Screens.Sign.{
  SignStepResult, Thrown, error, text_or, Copy, Flight, SignStep, new_step, sign, wallet_answers,
  waiting, settle, unmount_if,
}

pub record FormPrize : Type 0 where
  pub rank : ℕ
  pub amount : Text

pub record FormTeam : Type 0 where
  pub id : Text
  pub name : Text

-- Winners as Go lists them: the rank and the team's id, with the member who is paid.
pub record ReleaseWinner : Type 0 where
  pub rank : ℕ
  pub team_id : Text
  pub team_member_id : Text
  pub address : Text

pub record ReleaseBuilt : Type 0 where
  pub unsigned_transaction_xdr : Text
  pub winners : List ReleaseWinner

pub data ReleaseWait : Type 0 where
  submitting : ReleaseWait

-- The one transition of the screen is the build. `requested` is what `buildRelease` was called with
-- last; `assignments` maps a rank to a team, `none` where nothing was picked.
pub record ReleaseForm : Type 0 where
  pub assignments : ℕ → Option Text
  pub built : Option ReleaseBuilt
  pub failure : Option JudgeFailure
  pub submitted : Option SignStepResult
  pub pending : Bool
  pub sign_step : SignStep ReleaseBuilt ReleaseWait
  pub requested : List ReleaseAssignment

pub data ReleaseEvent : Type 0 where
  pick : ℕ → Text → ReleaseEvent
  press_build press_sign press_rebuild : ReleaseEvent
  build_answers : Result JudgeFailure ReleaseBuilt → ReleaseEvent
  wallet : ℕ → Result Thrown Text → ReleaseEvent
  submit_answers : ℕ → Result ReleaseFailure SignStepResult → ReleaseEvent

unfoldable pub release_form : ReleaseForm
release_form = record {
  assignments = λ _. none;
  built = none;
  failure = none;
  submitted = none;
  pending = false;
  sign_step = new_step;
  requested = [];
}

-- Picking the first option, "", leaves the rank without a team.
abbrev pub assign : ℕ → Text → (ℕ → Option Text) → ℕ → Option Text
assign rank team assignments r = if r == rank then some team else assignments r

abbrev pub truthy : Option Text → Bool
truthy none = false
truthy (some []) = false
truthy (some (c ∷ s)) = true

abbrev pub text_of : Option Text → Text
text_of none = []
text_of (some t) = t

abbrev pub is_nil {ℓ} : {A : Type ℓ} → List A → Bool
is_nil [] = true
is_nil (x ∷ xs) = false

-- `prizes.map((p) => ({ rank: p.rank, teamId: assignments[p.rank] }))`
abbrev pub selection : (ℕ → Option Text) → FormPrize → ReleaseAssignment
selection assignments p = record { rank = p.rank; team_id = text_of (assignments p.rank) }

-- `new Error(res.message || res.code)`
unfoldable pub rethrown_release : ReleaseFailure → Thrown
rethrown_release f = error (text_or f.code f.message)

-- The selects are off while a build is awaited, up for signing or submitted.
abbrev pub locked : ReleaseForm → Bool
locked s = s.pending || (is_some s.built || is_some s.submitted)

abbrev pub shows_sign : ReleaseForm → Bool
shows_sign s = is_some s.built && not (is_some s.submitted)

abbrev pub on_built : Bool → Result JudgeFailure ReleaseBuilt → ReleaseForm → ReleaseForm
on_built true (ok b) s = record s { pending = false; built = some b }
on_built true (err f) s = record s { pending = false; failure = some f }
on_built false r s = s

abbrev pub press : Option ReleaseBuilt → ReleaseForm → ReleaseForm
press none s = s
press (some b) s = if shows_sign s then record s { sign_step = sign b s.sign_step } else s

module _ (prizes : List FormPrize) (teams : List FormTeam) where
  abbrev pub assigned : (ℕ → Option Text) → FormPrize → Bool
  assigned assignments p = truthy (assignments p.rank)

  abbrev pub all_assigned : ReleaseForm → Bool
  all_assigned s = all (assigned s.assignments) prizes

  abbrev pub shows_build : ReleaseForm → Bool
  shows_build s = not (is_some s.built) && not (is_some s.submitted)

  abbrev pub build_enabled : ReleaseForm → Bool
  build_enabled s = all_assigned s && (not s.pending && not (is_nil teams))

  abbrev pub build : ReleaseForm → ReleaseForm
  build s =
      if shows_build s && build_enabled s
      then record s {
        failure = none;
        built = none;
        submitted = none;
        pending = true;
        requested = map (selection s.assignments) prizes;
      }
      else s

  module _ (copy : Copy) where
    abbrev pub on_submitted :
        ℕ
        → Option (Flight ReleaseBuilt ReleaseWait × ReleaseWait)
        → Result ReleaseFailure SignStepResult
        → ReleaseForm
        → ReleaseForm
    on_submitted i none r s = s
    on_submitted i (some (f, submitting)) (err e) s = record s {
      failure = some (release e);
      sign_step = settle copy i f (err (rethrown_release e)) s.sign_step;
    }
    on_submitted i (some (f, submitting)) (ok res) s = record s {
      failure = none;
      submitted = some res;
      sign_step = settle copy i f (ok res) s.sign_step;
    }

    abbrev pub handle : ReleaseEvent → ReleaseForm → ReleaseForm
    handle (pick rank team) s =
        if locked s
        then s
        else record s { failure = none; assignments = assign rank team s.assignments }
    handle press_build s = build s
    handle press_sign s = press s.built s
    handle press_rebuild s = if shows_sign s then record s { built = none } else s
    handle (build_answers r) s = on_built s.pending r s
    handle (wallet i r) s = record s { sign_step = wallet_answers copy submitting i r s.sign_step }
    handle (submit_answers i r) s = on_submitted i (waiting i s.sign_step) r s

    -- The render after an event.
    unfoldable pub release_step : ReleaseEvent → ReleaseForm → ReleaseForm
    release_step e s =
        let t = handle e s in
        record t { sign_step = unmount_if (shows_sign s && not (shows_sign t)) t.sign_step }

    unfoldable pub run_release : List ReleaseEvent → ReleaseForm → ReleaseForm
    run_release [] s = s
    run_release (e ∷ es) s = run_release es (release_step e s)
