-- ===== src/Pages/Gates.antt =====
-- The funding and the go-live page of the organizer, fund/page.tsx and start/page.tsx under
-- apps/web/src/app/[locale]/organizer/events/[id], and the judge's page,
-- apps/web/src/app/[locale]/events/[id]/judge/page.tsx.
use astrea.Prelude.{
  ℕ, Bool, true, false, not, Option, none, some, List, [], ◌∷◌, Text, codes, ◌===◌, Result, ok, err,
  Action, ◌>>=◌, ◌>>◌, pure, throw_if, gets, or_throw, find, keep, map, digits, ltb, if◌then◌else◌,
}
use astrea.Prelude.Json.{Json}
use astrea.Schema.{EventStatus, draft, created, completed, Event, Prize, Judge, Team, Wallet, Db}
use astrea.Amount.{AmountError, sum_usdc_amounts}
use astrea.Auth.Session.{get_session_wallet, has_id}
use astrea.CoreGo.Client.{
  Platform, HttpRequest, CoreGoThrown, property_of, wallet_balance, start_quote,
}
use astrea.CoreGo.Failure.{ActionFailure, failure}
use astrea.CoreGo.Organizer.{World, find_event}
use astrea.CoreGo.Winners.{active_judges, is_judging}
use astrea.Earnings.{sort}
use astrea.Screens.Fund.{event_path}
use astrea.Screens.Release.{FormPrize, FormTeam}

-- Why a page could not be rendered: amounts that do not sum up, or a throw of the client.
pub data Broken : Type 0 where
  amounts : AmountError → Broken
  client : CoreGoThrown → Broken

pub data View : Type 0 where
  not_found connect : View
  -- 403, with the translation's key.
  forbidden : Text → View
  redirect : Text → View
  service_failure : ActionFailure → View
  broken : Broken → View
  -- FundAndCreate with its event, its address, its initial balance and what is required.
  fund_and_create : Text → Text → Option Json → Text → View
  -- GoLive with its event, its address, and the quote as Go answered it.
  go_live : Text → Text → Json → View
  -- ReleaseForm with its event and its judge's address.
  release_form : Text → Text → List FormPrize → List FormTeam → View
  -- A released event with the hash of its release.
  released : Option Text → View

-- An early view is a throw.
abbrev pub Rendering : Type 0 → Type 0
Rendering A = Action World View A

abbrev pub view_of : Result View View → View
view_of (ok v) = v
view_of (err v) = v

abbrev pub is_draft : EventStatus → Bool
is_draft draft = true
is_draft _ = false

abbrev pub is_created : EventStatus → Bool
is_created created = true
is_created _ = false

abbrev pub is_completed : EventStatus → Bool
is_completed completed = true
is_completed _ = false

-- `loadEvent`
abbrev pub load_event : Text → Rendering Event
load_event id w = or_throw (find_event id w.req.db.events) not_found w

abbrev pub session_or_connect : Rendering Wallet
session_or_connect w = or_throw (get_session_wallet w.req) connect w

-- `session.address !== event.organizerWallet.address`; the wallet is there by its foreign key.
abbrev pub is_organizer : Db → Event → Text → Bool
is_organizer db event address = elim (find (has_id event.organizer_wallet_id) db.wallets) [
  | none ↦ false
  | some wallet ↦ wallet.address === address
]

abbrev pub of_event : Text → Prize → Bool
of_event id p = p.event_id === id

abbrev pub rank_before : Prize → Prize → Bool
rank_before p q = ltb p.rank q.rank

abbrev pub event_prizes : Db → Text → List Prize
event_prizes db id = sort rank_before (keep (of_event id) db.prizes)

abbrev pub amounts_of : List Prize → List Text
amounts_of ps = map (λ p. p.amount) ps

-- The sum as the page prints it; a malformed amount throws.
abbrev pub required_of : Result AmountError ℕ → Rendering Text
required_of (ok n) w = (ok (digits n), w)
required_of (err e) w = (err (broken (amounts e)), w)

-- `read.then((res) => …, (err) => failure(err))`: the first function may throw.
abbrev pub read_go :
    {A : Type 0}
    → Action (List HttpRequest) CoreGoThrown Json
    → (Json → Result CoreGoThrown A)
    → Rendering A
read_go m f w =
    let (r, sent') = m w.sent in
    let w' : World = record w { sent = sent' } in
    elim r [
      | err e ↦ (err (service_failure (failure e)), w')
      | ok json ↦ elim (f json) [ ok a ↦ (ok a, w') | err e ↦ (err (broken (client e)), w') ]
    ]

abbrev pub returned_object : Json → Result CoreGoThrown Json
returned_object json = ok json

module _ (p : Platform) where
  unfoldable pub fund_page : Text → Rendering View
  fund_page id = do
    event ← load_event id
    throw_if (not (is_draft event.status)) (redirect (event_path event.id))
    session ← session_or_connect
    organizer ← gets (λ w. is_organizer w.req.db event session.address)
    throw_if (not organizer) (forbidden (codes "notOrganizer"))
    prizes ← gets (λ w. event_prizes w.req.db event.id)
    required ← required_of (sum_usdc_amounts (amounts_of prizes))
    balance ←
        read_go (wallet_balance p session.address session.address) (property_of p (codes "balance"))
    pure (fund_and_create event.id session.address balance required)

  unfoldable pub start_page : Text → Rendering View
  start_page id = do
    event ← load_event id
    throw_if (not (is_created event.status)) (redirect (event_path event.id))
    session ← session_or_connect
    organizer ← gets (λ w. is_organizer w.req.db event session.address)
    throw_if (not organizer) (redirect (event_path event.id))
    quote ← read_go (start_quote p event.id session.address) returned_object
    pure (go_live event.id session.address quote)

abbrev pub form_prizes : List Prize → List FormPrize
form_prizes ps = map (λ p. record { rank = p.rank; amount = p.amount }) ps

abbrev pub team_of : Text → Team → Bool
team_of id t = t.event_id === id

abbrev pub form_teams : List Team → List FormTeam
form_teams ts = map (λ t. record { id = t.id; name = t.name }) ts

-- `judges.length === 1 ? judges[0] : null`
abbrev pub only_judge : List Judge → Option Judge
only_judge (j ∷ []) = some j
only_judge _ = none

abbrev pub is_judge : Option Judge → Text → Bool
is_judge none address = false
is_judge (some j) address = j.wallet_address === address

-- `prizes.find((p) => p.releaseTxHash)?.releaseTxHash ?? null`
abbrev pub release_hash : List Prize → Option Text
release_hash [] = none
release_hash (p ∷ ps) =
    let rest = release_hash ps in
    elim p.release_tx_hash [ none ↦ rest | some h ↦ elim h [ [] ↦ rest | c ∷ s ↦ some (c ∷ s) ] ]

abbrev pub judge_view : Db → Event → Wallet → View
judge_view db event session =
    if not (is_judge (only_judge (active_judges event.id db.judges)) session.address)
    then forbidden (codes "notJudge")
    else if not (is_judging event.status)
    then forbidden (codes "notJudging")
    else release_form event.id session.address (form_prizes (event_prizes db event.id))
        (form_teams (keep (team_of event.id) db.teams))

unfoldable pub judge_page : Text → Rendering View
judge_page id = do
  event ← load_event id
  prizes ← gets (λ w. event_prizes w.req.db event.id)
  throw_if (is_completed event.status) (released (release_hash prizes))
  session ← session_or_connect
  view ← gets (λ w. judge_view w.req.db event session)
  pure view
