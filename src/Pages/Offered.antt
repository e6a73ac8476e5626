-- ===== src/Pages/Offered.antt =====
-- The controls that the event's page shows, against the actions behind them.
use astrea.Prelude.{
  ◌≡◌, ◌≢◌, ◌↔◌, inl, inr, Bool, true, false, Option, none, some, List, [], ◌∷◌, Text, ◌===◌, ◌==◌,
  Result, ok, arith, Option-cases, Bool-cases, find,
}
use astrea.Schema.{EventStatus, live, judging, Event, Wallet}
use astrea.Schema.Table.{count_where}
use astrea.StateMachine.Transitions.{can_transition_event}
use astrea.StateMachine.Apply.{event_in}
use astrea.StateMachine.Races.{transition_event_lem}
use astrea.Auth.Session.{Request, get_session_wallet}
use astrea.CoreGo.Organizer.{find_event, has_event_id}
use astrea.Network.{Env}
use astrea.Network.Reading.{Simulation, Simulated}
use astrea.Teams.Registration.{Site, is_live, start_judging}
use astrea.Pages.Offers.{Controls, EventReply, shown, controls_of, event_page}

abbrev pub toggle_of : Option Controls → Bool
toggle_of none = false
toggle_of (some c) = c.judging_toggle

abbrev pub shows_toggle : EventReply → Bool
shows_toggle (shown page) = toggle_of page.controls
shows_toggle _ = false

is_live-live : (s : EventStatus) → is_live s ≡ true → s ≡ live
is_live-live s h = ground arith

event_in-live :
    (id : Text) (e : Event)
    → (e.id === id) ≡ true
    → is_live e.status ≡ true
    → event_in id live e ≡ true
event_in-live id e here l = ground (arith, is_live-live e.status l)

live_rows :
    (id : Text) (events : List Event) (event : Event)
    → find (has_event_id id) events ≡ some event
    → is_live event.status ≡ true
    → count_where (event_in id live) events ≢ 0
live_rows id [] event e l z = cc
live_rows id (x ∷ events) event e l z = elim (Bool-cases (x.id === id)) [
  | inr other ↦ live_rows id events event (ground arith) l (ground arith)
  | inl here ↦
      let same : x ≡ event = ground arith in
      let hit : event_in id live x ≡ true = event_in-live id x here (rw same l) in ground arith
]

found_by_id :
    (id : Text) (events : List Event) (event : Event)
    → find_event id events ≡ some event
    → find (has_event_id id) events ≡ some event
found_by_id id events event e = ground arith

starts_if :
    (id : Text) (w : Site) (s : Wallet) (event : Event)
    → get_session_wallet w.req ≡ some s
    → find_event id w.req.db.events ≡ some event
    → (event.organizer_wallet_id === s.id) ≡ true
    → is_live event.status ≡ true
    → (w' : Site) × (start_judging (λ db. db) id w ≡ (ok tt, w'))
unfolding start_judging can_transition_event
starts_if id w s event k e o l =
    let moves = transition_event_lem id live judging w.req.db in
    let rows = live_rows id w.req.db.events event (found_by_id id w.req.db.events event e) l in
    let some_row : (count_where (event_in id live) w.req.db.events == 0) ≡ false = ground arith in
    ((start_judging (λ db. db) id w).1, ground arith)

-- What the toggle is shown by, and what the action asks: the organizer's session and a LIVE event.
record MayStart (id : Text) (req : Request) : Type 0 where
  session : Wallet
  signed_in : get_session_wallet req ≡ some session
  event : Event
  found : find_event id req.db.events ≡ some event
  own : (event.organizer_wallet_id === session.id) ≡ true
  is_open : is_live event.status ≡ true

started-MayStart :
    (id : Text) (w w' : Site) → start_judging (λ db. db) id w ≡ (ok tt, w') → MayStart id w.req
unfolding start_judging
started-MayStart id w w' h = elim (Option-cases (get_session_wallet w.req)) [
  | inl k ↦ absurd (ground arith)
  | inr (s, k) ↦ elim (Option-cases (find_event id w.req.db.events)) [
    | inl e ↦ absurd (ground arith)
    | inr (event, e) ↦ elim (Bool-cases (event.organizer_wallet_id === s.id)) [
      | inr o ↦ absurd (ground arith)
      | inl o ↦ elim (Bool-cases (is_live event.status)) [
        | inr l ↦ absurd (ground arith)
        | inl l ↦ record {
          session = s;
          signed_in = k;
          event = event;
          found = e;
          own = o;
          is_open = l;
        }
      ]
    ]
  ]
]

module _ (to_number : Text → Text) (simulate : Simulated → Result Text Simulation)
    (unavailable_label default_label : Text) where
  shown-MayStart :
      (env : Env) (site locale id : Text) (req : Request)
      → shows_toggle (
          event_page to_number simulate unavailable_label default_label (ok env) site locale id req)
        ≡ true
      → MayStart id req
  unfolding event_page controls_of
  shown-MayStart env site locale id req h = elim (Option-cases (find_event id req.db.events)) [
    | inl e ↦ absurd (ground arith)
    | inr (event, e) ↦ elim (Option-cases (get_session_wallet req)) [
      | inl k ↦ absurd (ground arith)
      | inr (s, k) ↦ record {
        session = s;
        signed_in = k;
        event = event;
        found = e;
        own = ground arith;
        is_open = ground arith;
      }
    ]
  ]

  MayStart-shown :
      (env : Env) (site locale id : Text) (req : Request)
      → MayStart id req
      → shows_toggle (
          event_page to_number simulate unavailable_label default_label (ok env) site locale id req)
        ≡ true
  unfolding event_page controls_of
  MayStart-shown env site locale id req m =
      let k = m.signed_in in let e = m.found in let o = m.own in let l = m.is_open in ground arith

  -- The event's page shows the judging toggle exactly when the action behind it would start the
  -- judging then and there: to the organizer of a LIVE event.
  pub event_page-start_judging_iff :
      (env : Env) (site locale id : Text) (w : Site)
      → (shows_toggle (
            event_page to_number simulate unavailable_label default_label
              (ok env)
              site
              locale
              id
              w.req)
          ≡ true)
        ↔ ((w' : Site) × (start_judging (λ db. db) id w ≡ (ok tt, w')))
  event_page-start_judging_iff env site locale id w = (
    λ h.
        let m = shown-MayStart env site locale id w.req h in
        starts_if id w m.session m.event m.signed_in m.found m.own m.is_open,
    λ (w', h). MayStart-shown env site locale id w.req (started-MayStart id w w' h),
  )
