-- ===== src/StateMachine/Graph.antt =====
-- The diagrams of docs/product-flows.md that event.ts and prize.ts carry: every life of an event or a
-- prize ends, and money is out only after a release or a dispute.
use astrea.Prelude.{
  ℕ, ◌+◌, ◌*◌, ◌≤◌, ◌<◌, ◌≡◌, ◌↔◌, ◌⊎◌, refl, inl, inr, true, false, List, [], ◌∷◌, Text, Result,
  ok, err, arith, length,
}
use astrea.Schema.{
  EventStatus, draft, created, live, judging, completed, cancelled, Event, PrizeStatus, pending,
  assigned, released, paid_out, Db,
}
use astrea.Schema.Table.{count_where, update_where}
use astrea.StateMachine.Transitions.{can_transition_event, can_transition_prize}
use astrea.StateMachine.Apply.{event_in, transition_event}
use astrea.StateMachine.Races.{set_status, transition_event_lem}

-- How far along its life an event is.
abbrev pub stage : EventStatus → ℕ
stage draft = 0
stage created = 1
stage live = 2
stage judging = 3
stage EventStatus.disputed = 4
stage completed = 5
stage cancelled = 5

stage-lt : (s t : EventStatus) → can_transition_event s t ≡ true → stage s < stage t
unfolding can_transition_event
stage-lt draft t h = ground arith
stage-lt s t h = ground arith

stage_le : (s : EventStatus) → stage s ≤ 5
stage_le draft = omega arith
stage_le s = ground arith

abbrev total_stage : List Event → ℕ
total_stage [] = 0
total_stage (e ∷ es) = stage e.status + total_stage es

total_stage_le : (es : List Event) → total_stage es ≤ 5 * length es
total_stage_le [] = omega arith
total_stage_le (e ∷ es) = omega (arith, stage_le e.status, total_stage_le es)

total_stage-update_where :
    (id : Text) (from to : EventStatus) (es : List Event)
    → stage from < stage to
    → total_stage es + count_where (event_in id from) es
      ≤ total_stage (update_where (event_in id from) (set_status to) es)
total_stage-update_where id from to [] h = omega arith
total_stage-update_where id from to (e ∷ es) h =
    ground (arith, total_stage-update_where id from to es h)

length-update_where :
    (id : Text) (from to : EventStatus) (es : List Event)
    → length (update_where (event_in id from) (set_status to) es) ≡ length es
length-update_where id from to [] = refl
length-update_where id from to (e ∷ es) = ground (arith, length-update_where id from to es)

-- One call of `transitionEvent`, with its three arguments.
pub record Call : Type 0 where
  pub id : Text
  pub from : EventStatus
  pub to : EventStatus

abbrev succeeded : {E A : Type 0} → Result E A → ℕ
succeeded (ok _) = 1
succeeded (err _) = 0

-- Any sequence of calls, and how many of them went through.
unfoldable pub run : List Call → Db → ℕ × Db
run [] db = (0, db)
run (c ∷ cs) db =
    let (r, db') = transition_event c.id c.from c.to db in
    let (n, last) = run cs db' in (succeeded r + n, last)

transition_event-total_stage :
    (id : Text) (from to : EventStatus) (db : Db)
    → (total_stage db.events + succeeded (transition_event id from to db).0
        ≤ total_stage (transition_event id from to db).1.events)
      × (length (transition_event id from to db).1.events ≡ length db.events)
transition_event-total_stage id from to db = ground (
  arith,
  transition_event_lem id from to db,
  stage-lt from to,
  total_stage-update_where id from to db.events,
  length-update_where id from to db.events,
)

run_le :
    (cs : List Call) (db : Db)
    → (total_stage db.events + (run cs db).0 ≤ total_stage (run cs db).1.events)
      × (length (run cs db).1.events ≡ length db.events)
unfolding run
run_le [] db = ground arith
run_le (c ∷ cs) db =
    let db' = (transition_event c.id c.from c.to db).1 in
    omega (arith, run_le cs db', transition_event-total_stage c.id c.from c.to db)

-- However callers interleave their transitions, at most five of them per event go through.
pub run_bounded : (cs : List Call) (db : Db) → (run cs db).0 ≤ 5 * length db.events
run_bounded cs db = omega (arith, run_le cs db, total_stage_le (run cs db).1.events)

-- The only ends of an event's life are COMPLETED and CANCELLED.
pub event_stuck_iff :
    (s : EventStatus)
    → ((t : EventStatus) → can_transition_event s t ≡ false) ↔ ((s ≡ completed) ⊎ (s ≡ cancelled))
unfolding can_transition_event
event_stuck_iff s = (stuck s, ends s)
  where
    stuck :
        (s : EventStatus)
        → ((t : EventStatus) → can_transition_event s t ≡ false)
        → (s ≡ completed) ⊎ (s ≡ cancelled)
    stuck completed h = inl refl
    stuck cancelled h = inr refl
    stuck draft h = cc (h created)
    stuck _ h = cc (h cancelled)

    ends :
        (s : EventStatus)
        → (s ≡ completed) ⊎ (s ≡ cancelled)
        → (t : EventStatus) → can_transition_event s t ≡ false
    ends s h t = ground arith

-- The statuses that a prize goes through after `s`, each step allowed by prize.ts.
abbrev pub IsPrizePath : PrizeStatus → List PrizeStatus → Type 0
IsPrizePath s [] = Unit
IsPrizePath s (t ∷ via) = (can_transition_prize s t ≡ true) × IsPrizePath t via

abbrev pub end_of : PrizeStatus → List PrizeStatus → PrizeStatus
end_of s [] = s
end_of s (t ∷ via) = end_of t via

after_pending : (t : PrizeStatus) → can_transition_prize pending t ≡ true → t ≡ assigned
unfolding can_transition_prize
after_pending t h = ground arith

after_assigned :
    (t : PrizeStatus)
    → can_transition_prize assigned t ≡ true
    → (t ≡ released) ⊎ (t ≡ PrizeStatus.disputed)
unfolding can_transition_prize
after_assigned t h = ground arith

after_payment :
    (s t : PrizeStatus)
    → (s ≡ released) ⊎ (s ≡ PrizeStatus.disputed)
    → can_transition_prize s t ≡ true
    → t ≡ paid_out
unfolding can_transition_prize
after_payment s t p h = ground arith

after_paid_out : (s t : PrizeStatus) → s ≡ paid_out → can_transition_prize s t ≡ false
unfolding can_transition_prize
after_paid_out s t p = ground arith

-- A prize that starts PENDING is PAID_OUT at the end of its path exactly along one of two: assigned,
-- then released or disputed, then paid out.
pub prize_payout_paths :
    (via : List PrizeStatus)
    → IsPrizePath pending via
    → end_of pending via ≡ paid_out
    → (via ≡ assigned ∷ released ∷ paid_out ∷ [])
      ⊎ (via ≡ assigned ∷ PrizeStatus.disputed ∷ paid_out ∷ [])
prize_payout_paths [] h e = ground arith
prize_payout_paths (t ∷ []) h e = ground (arith, after_pending t)
prize_payout_paths (t ∷ u ∷ []) h e = ground (arith, after_pending t, after_assigned u)
prize_payout_paths (t ∷ u ∷ v ∷ []) h e =
    ground (arith, after_pending t, after_assigned u, after_payment u v)
prize_payout_paths (t ∷ u ∷ v ∷ w ∷ via) h e =
    ground (arith, after_pending t, after_assigned u, after_payment u v, after_paid_out v w)
