-- ===== src/StateMachine/Transitions.antt =====
-- event.ts, prize.ts and errors.ts.
use astrea.Prelude.{Bool, true, false, List, [], ◌∷◌, Text, Result, ok, err, if◌then◌else◌}
use astrea.Schema.{
  EventStatus, draft, created, live, judging, completed, cancelled, PrizeStatus, pending, assigned,
  released, paid_out,
}
use astrea.Schema.{EventStatus-discrete, PrizeStatus-discrete}

unfoldable pub event_transitions : EventStatus → List EventStatus
event_transitions draft = created ∷ []
event_transitions created = live ∷ EventStatus.disputed ∷ cancelled ∷ []
event_transitions live = judging ∷ EventStatus.disputed ∷ cancelled ∷ []
event_transitions judging = completed ∷ EventStatus.disputed ∷ cancelled ∷ []
event_transitions completed = []
event_transitions EventStatus.disputed = completed ∷ cancelled ∷ []
event_transitions cancelled = []

unfoldable pub prize_transitions : PrizeStatus → List PrizeStatus
prize_transitions pending = assigned ∷ []
prize_transitions assigned = released ∷ PrizeStatus.disputed ∷ []
prize_transitions released = paid_out ∷ []
prize_transitions paid_out = []
prize_transitions PrizeStatus.disputed = paid_out ∷ []

-- `list.includes(x)`
abbrev includes : {A : Type 0} → Discrete A → A → List A → Bool
includes dec x [] = false
includes dec x (y ∷ ys) =
    let rest = includes dec x ys in elim (dec x y) [ yes _ ↦ true | no _ ↦ rest ]

unfoldable pub can_transition_event : EventStatus → EventStatus → Bool
unfolding event_transitions EventStatus-discrete
can_transition_event from to = includes EventStatus-discrete to (event_transitions from)

unfoldable pub can_transition_prize : PrizeStatus → PrizeStatus → Bool
unfolding prize_transitions PrizeStatus-discrete
can_transition_prize from to = includes PrizeStatus-discrete to (prize_transitions from)

-- What a guard or a guarded update throws: an `InvalidTransitionError`, or the plain `Error` about a
-- stale read.
pub data TransitionError (S : Type 0) : Type 0 where
  invalid_transition : S → S → TransitionError S
  not_in_status : Text → S → TransitionError S

unfoldable pub assert_event_transition :
    EventStatus → EventStatus → Result (TransitionError EventStatus) (Unit {0})
assert_event_transition from to =
    if can_transition_event from to then ok tt else err (invalid_transition from to)

unfoldable pub assert_prize_transition :
    PrizeStatus → PrizeStatus → Result (TransitionError PrizeStatus) (Unit {0})
assert_prize_transition from to =
    if can_transition_prize from to then ok tt else err (invalid_transition from to)
