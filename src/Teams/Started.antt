-- ===== src/Teams/Started.antt =====
-- Who may start the judging, and what that does to the event's row.
use astrea.Prelude.{◌≡◌, ◌≢◌, some, Text, ok, arith, Option-cases, Bool-cases, ◌===◌, inl, inr}
use astrea.Schema.{live, judging, Event, Wallet, Db}
use astrea.Schema.Table.{count_where, update_where}
use astrea.StateMachine.Apply.{event_in}
use astrea.StateMachine.Races.{set_status, transition_event_lem}
use astrea.Auth.Session.{get_session_wallet}
use astrea.CoreGo.Organizer.{find_event}
use astrea.Teams.Registration.{Site, is_live, start_judging}

-- The caller is the organizer of a live event, which was still live when its row was written.
pub record Started (others : Db → Db) (event_id : Text) (w w' : Site) : Type 0 where
  pub wallet : Wallet
  pub session : get_session_wallet w.req ≡ some wallet
  pub event : Event
  pub found : find_event event_id w.req.db.events ≡ some event
  pub owns : event.organizer_wallet_id ≡ wallet.id
  pub still_live : count_where (event_in event_id live) (others w.req.db).events ≢ 0
  pub moved :
      w'.req.db.events
      ≡ update_where (event_in event_id live) (set_status judging) (others w.req.db).events

-- If the judging of an event was started, the caller is its organizer, its row was still LIVE after
-- whatever other requests wrote meanwhile, and exactly the LIVE row of that id was moved to JUDGING.
pub start_judging-Started :
    (others : Db → Db) (event_id : Text) (w w' : Site)
    → start_judging others event_id w ≡ (ok tt, w')
    → Started others event_id w w'
unfolding start_judging
start_judging-Started others event_id w w' h = elim (Option-cases (get_session_wallet w.req)) [
  | inl missing ↦ absurd (ground arith)
  | inr (s, session) ↦ elim (Option-cases (find_event event_id w.req.db.events)) [
    | inl missing ↦ absurd (ground arith)
    | inr (event, found) ↦ elim (Bool-cases (event.organizer_wallet_id === s.id)) [
      | inr other ↦ absurd (ground arith)
      | inl own ↦ elim (Bool-cases (is_live event.status)) [
        | inr closed ↦ absurd (ground arith)
        | inl open' ↦
            let moves = transition_event_lem event_id live judging (others w.req.db) in
            record {
              wallet = s;
              session = session;
              event = event;
              found = found;
              owns = ground arith;
              still_live = λ z. ground arith;
              moved = ground arith;
            }
      ]
    ]
  ]
]
