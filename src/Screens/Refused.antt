-- ===== src/Screens/Refused.antt =====
-- What a refused go-live leaves on the screen, when no earlier submission is shown there.
use astrea.Prelude.{◌≡◌, ◌⊎◌, true, ◌||◌, Option, none, some, is_some, ◌∷◌, Text}
use astrea.Screens.Fund.{event_path}
use astrea.Screens.GoLive.{
  FailureWait, quoting, GoLive, needs_deposit, deadline_blocked, shows_start, after_build,
}

-- Nothing is awaited and nothing is up for signing; the screen moved on to the event, or shows a
-- failure; and the organizer may deposit or build again, unless the failure is the deadline's.
pub record Refused (event_id : Text) (s t : GoLive) : Type 0 where
  pub settled : t.transition ≡ none
  pub discarded : t.built ≡ none
  pub told : (t.pushed ≡ event_path event_id ∷ s.pushed) ⊎ (is_some t.failure ≡ true)
  pub way_on : needs_deposit t || (shows_start t || deadline_blocked t) ≡ true

-- Between two answers: `w` is still awaited, and if nothing is, a failure shows.
record Between (w : Option FailureWait) (s t : GoLive) : Type 0 where
  awaited : t.transition ≡ after_build w
  discarded : t.built ≡ none
  unsubmitted : t.submitted ≡ none
  unmoved : t.pushed ≡ s.pushed
  told : w ≡ none → is_some t.failure ≡ true

-- What `w` becomes once a quote was answered.
abbrev quoted : Option FailureWait → Option FailureWait
quoted (some (quoting f)) = none
quoted w = w
