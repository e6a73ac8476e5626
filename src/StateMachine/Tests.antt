-- ===== src/StateMachine/Tests.antt =====
-- Transitions at concrete rows.
use astrea.Prelude.{
  ◌*◌, ◌≤◌, ◌≡◌, refl, false, none, some, List, [], ◌∷◌, codes, Text-discrete, ok, err, length,
}
use astrea.Schema.{
  created, live, judging, cancelled, Event, assigned, released, Prize, Db, testnet,
  EventStatus-discrete, PrizeStatus-discrete,
}
use astrea.StateMachine.Transitions.{
  invalid_transition, not_in_status, can_transition_event, can_transition_prize,
  assert_event_transition, assert_prize_transition,
}
use astrea.StateMachine.Apply.{transition_event, transition_prize, prize_data}
use astrea.StateMachine.Races.{transition_event_race}
use astrea.StateMachine.Graph.{Call, run, run_bounded}

abbrev event_one : Event
event_one = record {
  id = codes "e1";
  organizer_id = codes "u1";
  organizer_wallet_id = codes "w1";
  name = codes "Hack";
  description = none;
  timezone = codes "UTC";
  judging_deadline_at = some 900;
  status = live;
  require_github = false;
  network = testnet;
  escrow_event_id = none;
}

abbrev prize_one : Prize
prize_one = record {
  id = codes "p1";
  event_id = codes "e1";
  rank = 1;
  amount = codes "2.5";
  status = assigned;
  winner_team_id = none;
  release_tx_hash = none;
  released_at = none;
}

abbrev sample : Db
sample = record {
  users = [];
  events = event_one ∷ [];
  prizes = prize_one ∷ [];
  judges = [];
  teams = [];
  team_members = [];
  wallets = [];
  linked_accounts = [];
  auth_nonces = [];
}

abbrev judged : Db
judged = record sample { events = record event_one { status = judging } ∷ [] }

judging_starts : transition_event (codes "e1") live judging sample ≡ (ok tt, judged)
unfolding transition_event assert_event_transition can_transition_event Text-discrete
    EventStatus-discrete
judging_starts = refl

cannot_skip :
    transition_event (codes "e1") live created sample
    ≡ (err (invalid_transition live created), sample)
unfolding transition_event assert_event_transition can_transition_event
cannot_skip = refl

released_once : transition_prize 77 (codes "p1") assigned released (some (codes "ab")) sample ≡ (
  ok tt,
  record sample {
    prizes =
        record prize_one {
          status = released;
          released_at = some 77;
          release_tx_hash = some (codes "ab");
        }
        ∷ [];
  },
)
unfolding transition_prize assert_prize_transition can_transition_prize prize_data Text-discrete
    PrizeStatus-discrete
released_once = refl

transition_event_race_example :
    transition_event (codes "e1") live cancelled judged
    ≡ (err (not_in_status (codes "e1") live), judged)
unfolding can_transition_event
transition_event_race_example =
    transition_event_race (codes "e1") live judging cancelled sample judged judging_starts refl

abbrev calls : List Call
calls =
    record { id = codes "e1"; from = live; to = judging }
    ∷ record { id = codes "e1"; from = live; to = cancelled }
    ∷ record { id = codes "e1"; from = judging; to = cancelled }
    ∷ []

two_of_three : (run calls sample).0 ≡ 2
unfolding run transition_event assert_event_transition can_transition_event Text-discrete
    EventStatus-discrete
two_of_three = refl

run_bounded_example : (run calls sample).0 ≤ 5 * length sample.events
run_bounded_example = run_bounded calls sample
