-- ===== src/Pages/Cards.antt =====
-- The routes that draw an event's card: apps/web/src/app/[locale]/events/[id]/display.png/route.ts and
-- opengraph-image.tsx beside it, with apps/web/src/lib/site-url.ts.
use astrea.Prelude.{
  ℕ, zero, suc, Bool, true, false, ◌&&◌, Option, none, some, [], ◌∷◌, ◌++◌, Text, codes, ◌===◌,
  ◌==◌, Result, ok, err, find, keep, map, ltb, value, all, is_digit, trim, drop_end, if◌then◌else◌,
}
use astrea.Prelude.Int.{ℤ, pos, negsuc}
use astrea.Schema.{
  EventStatus, live, judging, Event, Prize, Judge, Team, TeamMember, Wallet, LinkedAccount, Db,
}
use astrea.Auth.Session.{has_id}
use astrea.CoreGo.Organizer.{has_event_id}
use astrea.CoreGo.Winners.{active_judges}
use astrea.Earnings.{sort}
use astrea.Network.{Env, EnvError}
use astrea.Network.Reading.{EscrowEvent, ReadError, Simulation, Simulated, read_escrow_event}
use astrea.Views.Card.{
  CardMemberWallet, CardTeam, CardPrize, CardJudge, BuildCardModelInput, EventCardModel,
  build_event_card_model,
}
use astrea.Pages.Gates.{event_prizes, team_of}

abbrev pub fallback_site_url : Text
fallback_site_url = codes "https://astrea-payouts.vercel.app"

abbrev pub is_slash : ℕ → Bool
is_slash c = c == b'/'

abbrev pub trimmed : Option Text → Text
trimmed none = []
trimmed (some s) = trim s

-- An empty text is falsy.
abbrev pub first_of : Text → Text → Text
first_of [] b = b
first_of (c ∷ s) b = c ∷ s

abbrev pub https : Text → Text
https [] = []
https (c ∷ s) = codes "https://" ++ c ∷ s

-- `getSiteUrl`, of NEXT_PUBLIC_APP_URL and VERCEL_PROJECT_PRODUCTION_URL.
unfoldable pub get_site_url : Option Text → Option Text → Text
get_site_url app_url vercel_host =
    drop_end is_slash
      (first_of (trimmed app_url) (first_of (https (trimmed vercel_host)) fallback_site_url))

-- `BigInt(text)` of a number that the SDK printed; `none` is a throw.
abbrev pub negated : ℕ → ℤ
negated zero = pos 0
negated (suc n) = negsuc n

abbrev pub big_int : Text → Option ℤ
big_int [] = some (pos 0)
big_int (c ∷ s) =
    if c == b'-'
    then if all is_digit s then some (negated (value s)) else none
    else if all is_digit (c ∷ s)
    then some (pos (value (c ∷ s)))
    else none

-- The accounts that the query of the card asks for.
abbrev pub is_shown_account : Text → LinkedAccount → Bool
is_shown_account wallet_id a = a.wallet_id === wallet_id && a.provider === codes "github"

abbrev pub address_of : Option Wallet → Text
address_of none = []
address_of (some w) = w.address

abbrev pub member_wallet : Db → TeamMember → CardMemberWallet
member_wallet db m = record {
  address = address_of (find (has_id m.wallet_id) db.wallets);
  linked_accounts =
      map (λ a. record { provider = a.provider; username = a.username })
        (keep (is_shown_account m.wallet_id) db.linked_accounts);
}

abbrev pub ordinal_before : TeamMember → TeamMember → Bool
ordinal_before m n = ltb m.ordinal n.ordinal

abbrev pub member_of : Text → TeamMember → Bool
member_of id m = m.team_id === id

abbrev pub card_team : Db → Team → CardTeam
card_team db t = record {
  id = t.id;
  name = t.name;
  members = map (member_wallet db) (sort ordinal_before (keep (member_of t.id) db.team_members));
}

abbrev pub card_prize : Prize → CardPrize
card_prize p = record {
  rank = p.rank;
  amount = p.amount;
  winner_team_id = p.winner_team_id;
  release_tx_hash = p.release_tx_hash;
}

abbrev pub card_judge : Judge → CardJudge
card_judge j = record { display_name = j.display_name; wallet_address = j.wallet_address }

-- A read that failed shows as no escrow at all.
abbrev pub read_or_null : Result ReadError EscrowEvent → Option EscrowEvent
read_or_null (ok e) = some e
read_or_null (err x) = none

abbrev pub reward_for_card : Option EscrowEvent → Option (Option ℤ)
reward_for_card none = none
reward_for_card (some e) = some (big_int e.reward)

pub data CardReply : Type 0 where
  -- 404, with whether it must not be stored.
  not_found : Bool → CardReply
  -- The picture of a card, with the link that it carries.
  picture : EventCardModel → Text → CardReply
  -- The card of no event.
  generic : CardReply
  -- A throw of `env`.
  failed : EnvError → CardReply

abbrev pub is_displayed : EventStatus → Bool
is_displayed live = true
is_displayed judging = true
is_displayed _ = false

abbrev pub if_verifiable : Bool → CardReply → CardReply
if_verifiable true reply = reply
if_verifiable false reply = not_found true

abbrev pub canonical_url : Text → Text → Text → Text
canonical_url site locale id = site ++ (codes "/" ++ (locale ++ (codes "/events/" ++ id)))

-- `closes_at` is the column registrationClosesAt, by the event's id.
module _ (to_lower_case : Text → Text) (format_card_date : Text → ℕ → Text)
    (to_number : Text → Text) (simulate : Simulated → Result Text Simulation)
    (closes_at : Text → Option ℕ) where
  -- `if (event.escrowEventId)`
  abbrev pub escrow_of : Result EnvError Env → Option Text → Option EscrowEvent
  escrow_of env none = none
  escrow_of env (some []) = none
  escrow_of env (some (c ∷ s)) = read_or_null (read_escrow_event to_number simulate env (c ∷ s))

  abbrev pub card_input : Db → Event → Option EscrowEvent → Text → Text → ℕ → BuildCardModelInput
  card_input db event escrow locale symbol now = record {
    id = event.id;
    name = event.name;
    status = event.status;
    organizer_address = address_of (find (has_id event.organizer_wallet_id) db.wallets);
    judges = map card_judge (active_judges event.id db.judges);
    teams = map (card_team db) (keep (team_of event.id) db.teams);
    prizes = map card_prize (event_prizes db event.id);
    judging_deadline_at = event.judging_deadline_at;
    registration_closes_at = closes_at event.id;
    escrow = reward_for_card escrow;
    locale = locale;
    asset_symbol = symbol;
    now = now;
  }

  abbrev pub card_model : Result EnvError Env → Db → Event → Text → Text → ℕ → EventCardModel
  card_model env db event locale symbol now =
      build_event_card_model to_lower_case format_card_date
        (card_input db event (escrow_of env event.escrow_event_id) locale symbol now)

  abbrev pub displayed : Result EnvError Env → Text → Db → Event → Text → ℕ → CardReply
  displayed (err e) url db event locale now = failed e
  displayed (ok env) url db event locale now =
      let model = card_model (ok env) db event locale env.data_of.usdc_symbol now in
      if_verifiable model.has_verifiable_money (picture model url)

  -- `GET` of display.png.
  unfoldable pub display_route : Result EnvError Env → Text → Db → Text → Text → ℕ → CardReply
  display_route env site db id locale now = elim (find (has_event_id id) db.events) [
    | none ↦ not_found false
    | some event ↦
        if is_displayed event.status
        then displayed env (canonical_url site locale id) db event locale now
        else not_found false
  ]

  abbrev pub shared : Result EnvError Env → Db → Event → Text → ℕ → CardReply
  shared (err e) db event locale now = failed e
  shared (ok env) db event locale now =
      picture (card_model (ok env) db event locale env.data_of.usdc_symbol now) []

  -- `Image` of opengraph-image.tsx, which links nowhere.
  unfoldable pub open_graph_image : Result EnvError Env → Db → Text → Text → ℕ → CardReply
  open_graph_image env db id locale now = elim (find (has_event_id id) db.events) [
    | none ↦ generic
    | some event ↦ shared env db event locale now
  ]
