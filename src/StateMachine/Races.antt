-- ===== src/StateMachine/Races.antt =====
-- What the guarded updates of apply.ts do on each branch, and two callers that race.
use astrea.Prelude.{
  ℕ, ◌≡◌, ◌≢◌, refl, sym, true, false, Option, none, some, [], ◌∷◌, Text, ok, err, arith, All,
  if◌then◌else◌, ◌==◌,
}
use astrea.Schema.{EventStatus, Event, PrizeStatus, released, Prize, Db}
use astrea.Schema.Table.{
  count_where, update_where, update_where_none, count_where-update_where, All-update_where,
}
use astrea.StateMachine.Transitions.{
  TransitionError, invalid_transition, not_in_status, can_transition_event, can_transition_prize,
  assert_event_transition, assert_prize_transition,
}
use astrea.StateMachine.Apply.{event_in, prize_in, transition_event, prize_data, transition_prize}

abbrev pub set_status : EventStatus → Event → Event
set_status to e = record e { status = to }

-- The three outcomes of `transition_event`, with the test that leads to each.
pub transition_event_lem :
    (id : Text) (from to : EventStatus) (db : Db)
    → transition_event id from to db ≡ (
        if can_transition_event from to
        then if count_where (event_in id from) db.events == 0
          then (err (not_in_status id from), db)
          else (
            ok tt,
            record db { events = update_where (event_in id from) (set_status to) db.events },
          )
        else (err (invalid_transition from to), db))
unfolding transition_event assert_event_transition
transition_event_lem id from to db =
    ground (arith, update_where_none (event_in id from) (set_status to) db.events)

-- A failed transition writes nothing.
pub transition_event_err :
    (id : Text) (from to : EventStatus) (db db' : Db) (e : TransitionError EventStatus)
    → transition_event id from to db ≡ (err e, db')
    → db' ≡ db
transition_event_err id from to db db' e h = ground (arith, transition_event_lem id from to db)

can_transition_event_irrefl : (s : EventStatus) → can_transition_event s s ≡ false
unfolding can_transition_event
can_transition_event_irrefl EventStatus.draft = refl
can_transition_event_irrefl s = ground arith

event_in-set_status :
    (id : Text) (from to : EventStatus) (e : Event)
    → from ≢ to
    → event_in id from (set_status to e) ≡ false
event_in-set_status id from to e ne = ground arith

from_ne_to : (from to : EventStatus) → can_transition_event from to ≡ true → from ≢ to
from_ne_to from to allowed same =
    let stuck : can_transition_event from from ≡ true = rw (sym same) at allowed in
    cc (can_transition_event_irrefl from)

none_left :
    (id : Text) (from to : EventStatus) (db : Db)
    → can_transition_event from to ≡ true
    → count_where (event_in id from) (update_where (event_in id from) (set_status to) db.events) ≡ 0
none_left id from to db allowed =
    count_where-update_where (event_in id from) (event_in id from) (set_status to) db.events
      (λ e. event_in-set_status id from to e (from_ne_to from to allowed)) (λ e h. h)

-- Two callers that read the same status: once one has moved the event, the other is refused, and
-- writes nothing.
pub transition_event_race :
    (id : Text) (from to other : EventStatus) (db db' : Db)
    → transition_event id from to db ≡ (ok tt, db')
    → can_transition_event from other ≡ true
    → transition_event id from other db' ≡ (err (not_in_status id from), db')
transition_event_race id from to other db db' h allowed = ground (
  arith,
  transition_event_lem id from to db,
  transition_event_lem id from other db',
  none_left id from to db,
)

-- The three outcomes of `transition_prize`, with the test that leads to each.
pub transition_prize_lem :
    (now : ℕ) (id : Text) (from to : PrizeStatus) (extra : Option Text) (db : Db)
    → transition_prize now id from to extra db ≡ (
        if can_transition_prize from to
        then if count_where (prize_in id from) db.prizes == 0
          then (err (not_in_status id from), db)
          else (
            ok tt,
            record db {
              prizes = update_where (prize_in id from) (prize_data now to extra) db.prizes;
            },
          )
        else (err (invalid_transition from to), db))
unfolding transition_prize assert_prize_transition
transition_prize_lem now id from to extra db =
    ground (arith, update_where_none (prize_in id from) (prize_data now to extra) db.prizes)

-- A prize that was paid carries the time of its release.
abbrev pub IsStamped : Prize → Type 0
IsStamped p = p.status ≡ released → p.released_at ≢ none

prize_data-IsStamped :
    (now : ℕ) (to : PrizeStatus) (extra : Option Text) (p : Prize)
    → IsStamped (prize_data now to extra p)
unfolding prize_data
prize_data-IsStamped now released none p = ground arith
prize_data-IsStamped now released (some []) p = ground arith
prize_data-IsStamped now released (some (c ∷ cs)) p = ground arith
prize_data-IsStamped now _ extra p = ground arith

-- Every transition of a prize keeps: a prize that is RELEASED has its `releasedAt`.
pub transition_prize-IsStamped :
    (now : ℕ) (id : Text) (from to : PrizeStatus) (extra : Option Text) (db : Db)
    → All IsStamped db.prizes
    → All IsStamped (transition_prize now id from to extra db).1.prizes
transition_prize-IsStamped now id from to extra db h = ground (
  arith,
  transition_prize_lem now id from to extra db,
  All-update_where IsStamped (prize_in id from) (prize_data now to extra) db.prizes
      (λ p _ _. prize_data-IsStamped now to extra p) h,
)
