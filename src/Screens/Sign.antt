-- ===== src/Screens/Sign.antt =====
-- The signing step that every screen shares, apps/web/src/components/events/sign-step.tsx.
use astrea.Prelude.{
  ℕ, zero, suc, Bool, true, false, ◌||◌, Option, none, some, List, [], ◌∷◌, Text, Result, ok, err,
  ◌==◌, if◌then◌else◌,
}

pub data SubmitStatus : Type 0 where
  succeeded pending : SubmitStatus

pub record SignStepResult : Type 0 where
  pub tx_hash : Text
  pub status : SubmitStatus

pub data Phase : Type 0 where
  idle signing submitting : Phase
  confirmed : SignStepResult → Phase
  failed : Text → Phase

-- What was thrown: an `Error`, a string, another object with its `message` where that is a string,
-- or anything else.
pub data Thrown : Type 0 where
  error string : Text → Thrown
  object : Option Text → Thrown
  other : Thrown

abbrev pub text_or : Text → Text → Text
text_or fallback [] = fallback
text_or fallback (c ∷ s) = c ∷ s

unfoldable pub describe : Thrown → Text → Text
describe (error message) fallback = text_or fallback message
describe (string s) fallback = text_or fallback s
describe (object none) fallback = fallback
describe (object (some m)) fallback = text_or fallback m
describe other fallback = fallback

-- The translations that the step falls back on.
pub record Copy : Type 0 where
  pub sign_rejected : Text
  pub submit_failed : Text

-- A press of the button that has not come back. Its closure keeps what was built when it was
-- pressed, and the instance of the step it was pressed in; `waits_at` is `none` while the wallet is
-- open, then where the screen's `onSigned` waits.
pub record Flight (B W : Type 0) : Type 0 where
  pub mount : ℕ
  pub built : B
  pub waits_at : Option W

-- The step on a screen: the instance mounted last with its phase, the presses that have not come
-- back, those of instances that were unmounted too, and all that was asked of the wallet and of the
-- server so far, the last first.
pub data Asked (B : Type 0) : Type 0 where
  to_sign : B → Asked B
  to_submit : B → Text → Asked B

pub record SignStep (B W : Type 0) : Type 0 where
  pub mount : ℕ
  pub phase : Phase
  pub flights : List (Flight B W)
  pub asked : List (Asked B)

abbrev pub busy : Phase → Bool
busy signing = true
busy submitting = true
busy _ = false

abbrev pub is_confirmed : Phase → Bool
is_confirmed (confirmed _) = true
is_confirmed _ = false

module _ {A : Type 0} where
  abbrev pub nth : ℕ → List A → Option A
  nth i [] = none
  nth zero (x ∷ xs) = some x
  nth (suc i) (x ∷ xs) = nth i xs

  abbrev pub set_at : ℕ → A → List A → List A
  set_at i a [] = []
  set_at zero a (x ∷ xs) = a ∷ xs
  set_at (suc i) a (x ∷ xs) = x ∷ set_at i a xs

  abbrev pub remove_at : ℕ → List A → List A
  remove_at i [] = []
  remove_at zero (x ∷ xs) = xs
  remove_at (suc i) (x ∷ xs) = x ∷ remove_at i xs

module _ {B W : Type 0} where
  abbrev pub new_step : SignStep B W
  new_step = record { mount = 0; phase = idle; flights = []; asked = [] }

  -- `setPhase` of an instance; of one that was unmounted it is lost.
  abbrev pub set_phase : ℕ → Phase → SignStep B W → SignStep B W
  set_phase mount phase s = if mount == s.mount then record s { phase = phase } else s

  -- The step leaves the screen; the next one starts idle.
  abbrev pub unmount : SignStep B W → SignStep B W
  unmount s = record s { mount = suc s.mount; phase = idle }

  abbrev pub unmount_if : Bool → SignStep B W → SignStep B W
  unmount_if c s = if c then unmount s else s

  -- `sign`, up to the wallet. There is no button once it is confirmed, and it is off while busy.
  unfoldable pub sign : B → SignStep B W → SignStep B W
  sign built s = if busy s.phase || is_confirmed s.phase then s else record s {
    phase = signing;
    flights = record { mount = s.mount; built = built; waits_at = none } ∷ s.flights;
    asked = to_sign built ∷ s.asked;
  }

  abbrev pub open_flight : ℕ → SignStep B W → Option (Flight B W)
  open_flight i s = elim (nth i s.flights) [
    | none ↦ none
    | some f ↦ elim f.waits_at [ none ↦ some f | some _ ↦ none ]
  ]

  -- The wallet answers a press: its failure is shown, its envelope goes to `onSigned`.
  unfoldable pub wallet_answers : Copy → W → ℕ → Result Thrown Text → SignStep B W → SignStep B W
  wallet_answers copy start i r s = elim (open_flight i s) [
    | none ↦ s
    | some f ↦ elim r [
      | err e ↦
          set_phase f.mount (failed (describe e copy.sign_rejected))
            (record s { flights = remove_at i s.flights })
      | ok signed ↦ set_phase f.mount submitting (record s {
        flights = set_at i (record f { waits_at = some start }) s.flights;
        asked = to_submit f.built signed ∷ s.asked;
      })
    ]
  ]

  -- The press whose `onSigned` waits, with where.
  abbrev pub waiting : ℕ → SignStep B W → Option (Flight B W × W)
  waiting i s = elim (nth i s.flights) [
    | none ↦ none
    | some f ↦ elim f.waits_at [ none ↦ none | some w ↦ some (f, w) ]
  ]

  -- `onSigned` goes on to its next `await`.
  abbrev pub waits_next : ℕ → Flight B W → W → SignStep B W → SignStep B W
  waits_next i f w s = record s { flights = set_at i (record f { waits_at = some w }) s.flights }

  -- `onSigned` returned, or threw.
  unfoldable pub settle :
      Copy → ℕ → Flight B W → Result Thrown SignStepResult → SignStep B W → SignStep B W
  settle copy i f (ok result) s =
      set_phase f.mount (confirmed result) (record s { flights = remove_at i s.flights })
  settle copy i f (err e) s =
      set_phase f.mount (failed (describe e copy.submit_failed))
        (record s { flights = remove_at i s.flights })
