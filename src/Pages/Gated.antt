-- ===== src/Pages/Gated.antt =====
-- Whom the pages show their forms, and what is signed on the funding screen that they show.
use mathlib.Core.Path.{subst}
use astrea.Prelude.{
  ℕ, ◌≡◌, refl, sym, ap, ◌∙◌, ◌↔◌, inl, inr, Bool, true, false, ◌&&◌, Option, none, some, List, [],
  ◌∷◌, Text, codes, ok, arith, Option-cases, Result-cases, Bool-cases, digits,
}
use astrea.Prelude.Json.{Json}
use astrea.Schema.{Event, Wallet, Db}
use astrea.Amount.{sum_usdc_amounts}
use astrea.Amount.Units.{Reads, sum, sum_usdc_amounts_iff}
use astrea.Auth.Session.{get_session_wallet}
use astrea.CoreGo.Client.{Platform, wallet_balance, property_of}
use astrea.CoreGo.Organizer.{World, find_event}
use astrea.CoreGo.Winners.{active_judges, is_judging, is_only, is_active_judge}
use astrea.Screens.Sign.{Copy}
use astrea.Screens.Fund.{FundEvent, fund_screen, run_fund}
use astrea.Screens.Funded.{Funds, confirmations, run_fund-Funds}
use astrea.Pages.Gates.{
  View, fund_and_create, release_form, view_of, is_draft, is_completed, is_organizer, event_prizes,
  amounts_of, only_judge, is_judge, judge_view, fund_page, judge_page,
}

abbrev pub shows_form : View → Bool
shows_form (release_form id address prizes teams) = true
shows_form _ = false

-- Both gates ask for one active judge, who is the caller.
is_only-is_judge :
    (judges : List _) (address : Text)
    → is_only judges address ≡ is_judge (only_judge judges) address
is_only-is_judge [] address = refl
is_only-is_judge (j ∷ []) address = refl
is_only-is_judge (j ∷ k ∷ js) address = refl

judge_view_form :
    (db : Db) (event : Event) (session : Wallet)
    → shows_form (judge_view db event session)
      ≡ is_judging event.status && is_only (active_judges event.id db.judges) session.address
judge_view_form db event session =
    rw (is_only-is_judge (active_judges event.id db.judges) session.address) (ground arith)

active_of_event :
    (id address : Text) (db : Db) (event : Event)
    → find_event id db.events ≡ some event
    → is_active_judge db id address
      ≡ is_judging event.status && is_only (active_judges event.id db.judges) address
unfolding is_active_judge
active_of_event id address db event e = ground arith

judge_page_absent :
    (id : Text) (w : World)
    → find_event id w.req.db.events ≡ none
    → shows_form (view_of (judge_page id w).0) ≡ false
unfolding judge_page
judge_page_absent id w e = ground arith

judge_page_completed :
    (id : Text) (w : World) (event : Event)
    → find_event id w.req.db.events ≡ some event
    → is_completed event.status ≡ true
    → shows_form (view_of (judge_page id w).0) ≡ false
unfolding judge_page
judge_page_completed id w event e c = ground arith

judge_page_connect :
    (id : Text) (w : World) (event : Event)
    → find_event id w.req.db.events ≡ some event
    → get_session_wallet w.req ≡ none
    → shows_form (view_of (judge_page id w).0) ≡ false
unfolding judge_page
judge_page_connect id w event e k = ground arith

judge_page_view :
    (id : Text) (w : World) (event : Event) (s : Wallet)
    → find_event id w.req.db.events ≡ some event
    → is_completed event.status ≡ false
    → get_session_wallet w.req ≡ some s
    → view_of (judge_page id w).0 ≡ judge_view w.req.db event s
unfolding judge_page
judge_page_view id w event s e c k = ground arith

-- With a session, the form is what the gate of the action says.
judge_page_session :
    (id : Text) (w : World) (event : Event) (s : Wallet)
    → find_event id w.req.db.events ≡ some event
    → get_session_wallet w.req ≡ some s
    → shows_form (view_of (judge_page id w).0) ≡ is_active_judge w.req.db id s.address
judge_page_session id w event s e k = elim (Bool-cases (is_completed event.status)) [
  | inl c ↦
      let over : is_judging event.status ≡ false = ground arith in
      judge_page_completed id w event e c
      ∙ sym (active_of_event id s.address w.req.db event e ∙ rw over refl)
  | inr c ↦
      ap shows_form (judge_page_view id w event s e c k)
      ∙ judge_view_form w.req.db event s
      ∙ sym (active_of_event id s.address w.req.db event e)
]

no_active_judge :
    (id address : Text) (db : Db)
    → find_event id db.events ≡ none
    → is_active_judge db id address ≡ false
unfolding is_active_judge
no_active_judge id address db e = ground arith

-- The judge's page shows its form exactly to a session for whose wallet the judge's action checks
-- the winners' trustlines: that of the only active judge, while the event is in judging.
pub judge_page_iff :
    (id : Text) (w : World)
    → (shows_form (view_of (judge_page id w).0) ≡ true) ↔ (
        (s : Wallet) × (get_session_wallet w.req ≡ some s)
        × (is_active_judge w.req.db id s.address ≡ true))
judge_page_iff id w = elim (Option-cases (find_event id w.req.db.events)) [
  | inl e ↦
      let absent = judge_page_absent id w e in
      (
        λ h. absurd (ground arith),
        λ (s, k, h).
            let none_active = no_active_judge id s.address w.req.db e in absurd (ground arith),
      )
  | inr (event, e) ↦ elim (Option-cases (get_session_wallet w.req)) [
    | inl k ↦
        let connect = judge_page_connect id w event e k in
        (λ h. absurd (ground arith), λ (s, q, h). absurd (ground arith))
    | inr (s, k) ↦
        let same = judge_page_session id w event s e k in
        (λ h. (s, k, sym same ∙ h), λ (t, q, h). judge_page_session id w event t e q ∙ h)
  ]
]

-- Who is shown the funding screen: the organizer of a draft, with the exact sum of its prizes.
pub record Funding (id : Text) (w : World) (event_id address required : Text) : Type 0 where
  pub event : Event
  pub found : find_event id w.req.db.events ≡ some event
  pub same_event : event_id ≡ event.id
  pub is_drafted : is_draft event.status ≡ true
  pub session : Wallet
  pub signed_in : get_session_wallet w.req ≡ some session
  pub same_address : address ≡ session.address
  pub organizer : is_organizer w.req.db event address ≡ true
  pub stroops : List ℕ
  pub reads : Reads (amounts_of (event_prizes w.req.db event.id)) stroops
  pub exact : required ≡ digits (sum stroops)

module _ (p : Platform) where
  -- The stages of the page that can go on, each with what it has found.
  fund_page_inv :
      (id : Text) (w : World) (event_id address required : Text) (balance : Option Json)
      → view_of (fund_page p id w).0 ≡ fund_and_create event_id address balance required
      → (event : Event) × (find_event id w.req.db.events ≡ some event)
        × (is_draft event.status ≡ true)
        × (session : Wallet) × (get_session_wallet w.req ≡ some session)
        × (is_organizer w.req.db event session.address ≡ true)
        × (n : ℕ) × (sum_usdc_amounts (amounts_of (event_prizes w.req.db event.id)) ≡ ok n)
        × (event_id ≡ event.id)
        × (address ≡ session.address)
        × (required ≡ digits n)
  unfolding fund_page
  fund_page_inv id w event_id address required balance h =
      elim (Option-cases (find_event id w.req.db.events)) [
        | inl e ↦ absurd (ground arith)
        | inr (event, e) ↦ elim (Bool-cases (is_draft event.status)) [
          | inr d ↦ absurd (ground arith)
          | inl d ↦ elim (Option-cases (get_session_wallet w.req)) [
            | inl k ↦ absurd (ground arith)
            | inr (s, k) ↦ elim (Bool-cases (is_organizer w.req.db event s.address)) [
              | inr o ↦ absurd (ground arith)
              | inl o ↦
                  elim (Result-cases
                    (sum_usdc_amounts (amounts_of (event_prizes w.req.db event.id)))) [
                      | inr (x, q) ↦ absurd (ground arith)
                      | inl (n, q) ↦
                          elim (Result-cases (wallet_balance p s.address s.address w.sent).0) [
                            | inr (x, b) ↦ absurd (ground arith)
                            | inl (json, b) ↦
                                elim (Result-cases (property_of p (codes "balance") json)) [
                                  | inr (x, c) ↦ absurd (ground arith)
                                  | inl (v, c) ↦ (
                                    event,
                                    e,
                                    d,
                                    s,
                                    k,
                                    o,
                                    n,
                                    q,
                                    ground arith,
                                    ground arith,
                                    ground arith,
                                  )
                                ]
                          ]
                    ]
            ]
          ]
        ]
      ]

  -- The funding page shows its screen only to the organizer of a draft, with the sum of the event's
  -- prizes, each read exactly; and however that screen is used from there on, the wallet is asked to
  -- sign the event's creation, and an envelope is submitted, only where Go's reward is that sum.
  pub fund_page-Funding :
      (copy : Copy) (id : Text) (w : World) (event_id address required initial_balance : Text)
      (balance : Option Json) (es : List FundEvent)
      → view_of (fund_page p id w).0 ≡ fund_and_create event_id address balance required
      → (f : Funding id w event_id address required) × Funds
          (digits (sum f.stroops))
          (confirmations es)
          (run_fund event_id copy required es (fund_screen initial_balance))
  fund_page-Funding copy id w event_id address required initial_balance balance es h =
      let (event, e, d, s, k, o, n, q, same_event, same_address, same_required) =
        fund_page_inv id w event_id address required balance h in
      let (stroops, reads, same) =
        (sum_usdc_amounts_iff (amounts_of (event_prizes w.req.db event.id)) n).0 q in
      let exact = same_required ∙ ap digits same in
      (
        record {
          event = event;
          found = e;
          same_event = same_event;
          is_drafted = d;
          session = s;
          signed_in = k;
          same_address = same_address;
          organizer = subst (λ a. is_organizer w.req.db event a ≡ true) (sym same_address) o;
          stroops = stroops;
          reads = reads;
          exact = exact;
        },
        subst
            (λ r.
              Funds r (confirmations es)
                (run_fund event_id copy required es (fund_screen initial_balance)))
            exact (run_fund-Funds required event_id copy initial_balance es),
      )
