-- ===== src/StateMachine/Apply.antt =====
-- apply.ts: a transition is checked against the table of transitions, then written by one update
-- that names the status expected.
use astrea.Prelude.{
  ℕ, Bool, true, false, ◌&&◌, Option, some, ◌∷◌, Text, ◌===◌, ◌==◌, Action, ◌>>=◌, ◌>>◌, gets,
  modify, throw_if, from_result,
}
use astrea.Schema.{EventStatus, Event, PrizeStatus, released, Prize, Db}
use astrea.Schema.{EventStatus-discrete, PrizeStatus-discrete}
use astrea.Schema.Table.{count_where, update_where}
use astrea.StateMachine.Transitions.{
  TransitionError, not_in_status, assert_event_transition, assert_prize_transition,
}

-- `where: { id, status: from }`
abbrev pub event_in : Text → EventStatus → Event → Bool
event_in id from e =
    e.id === id && elim (EventStatus-discrete e.status from) [ yes _ ↦ true | no _ ↦ false ]

abbrev pub prize_in : Text → PrizeStatus → Prize → Bool
prize_in id from p =
    p.id === id && elim (PrizeStatus-discrete p.status from) [ yes _ ↦ true | no _ ↦ false ]

unfoldable pub transition_event :
    Text → EventStatus → EventStatus → Action Db (TransitionError EventStatus) (Unit {0})
transition_event id from to = do
  from_result (assert_event_transition from to)
  count ← gets (λ db. count_where (event_in id from) db.events)
  modify λ db. record db {
    events = update_where (event_in id from) (λ e. record e { status = to }) db.events;
  }
  throw_if (count == 0) (not_in_status id from)

-- The columns that `data` sets. An empty `releaseTxHash` is falsy, and is not written.
unfoldable pub prize_data : ℕ → PrizeStatus → Option Text → Prize → Prize
prize_data now released (some (c ∷ cs)) p = record p {
  status = released;
  released_at = some now;
  release_tx_hash = some (c ∷ cs);
}
prize_data now released _ p = record p { status = released; released_at = some now }
prize_data now to extra p = record p { status = to }

-- `now` is the clock's reading at `new Date()`.
unfoldable pub transition_prize :
    ℕ
    → Text
    → PrizeStatus
    → PrizeStatus
    → Option Text
    → Action Db (TransitionError PrizeStatus) (Unit {0})
transition_prize now id from to extra = do
  from_result (assert_prize_transition from to)
  count ← gets (λ db. count_where (prize_in id from) db.prizes)
  modify λ db. record db {
    prizes = update_where (prize_in id from) (prize_data now to extra) db.prizes;
  }
  throw_if (count == 0) (not_in_status id from)
