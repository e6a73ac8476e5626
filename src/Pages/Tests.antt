-- ===== src/Pages/Tests.antt =====
-- The pages of the organizer, of the judge and of the public.
use astrea.Prelude.{
  ◌≡◌, ◌↔◌, ◌⊎◌, refl, true, none, is_uuid, is_groups, trim, some, [], ◌∷◌, codes, Text-discrete,
  ok, digits, value,
}
use astrea.Prelude.Json.{Json, member}
use astrea.Schema.{draft, live, judging, Event, Wallet}
use astrea.Amount.Units.{sum}
use astrea.Amount.{parse_usdc_amount, to_stroops, sum_usdc_amounts}
use astrea.Auth.Session.{get_session_wallet}
use astrea.CoreGo.Client.{request, config, wallet_balance, property_of}
use astrea.CoreGo.Winners.{is_active_judge}
use astrea.Network.Reading.{read_escrow_event, to_reward, to_state, to_address, state_of}
use astrea.Screens.Fund.{FundEvent, fund_screen, run_fund}
use astrea.Screens.Funded.{Funds, confirmations}
use astrea.Screens.Sign.{Copy}
use astrea.Views.Public.{resolve_dispute_resolver}
use astrea.Pages.Gates.{fund_and_create, view_of, fund_page, judge_page}
use astrea.Pages.Gated.{Funding, shows_form, judge_page_iff, fund_page-Funding}
use astrea.Earnings.Query.{Payout}
use astrea.Prelude.{◌===◌, is_space}
use astrea.Schema.{completed, Db}
use astrea.Pages.Profile.{Profile, normalize_login, participations, profile_of, public_profile_page}
use astrea.Pages.Shown.{Public, public_profile_page-Public}
use astrea.Pages.Badge.{ExplorerNetwork, Locked, onchain_badge, page_badge, page_badge_iff}
use astrea.Pages.Sample.{linked, event_id, server, wallet, event, db, world, env, simulate, url}
use astrea.Pages.Offers.{EventPage, shown, event_page, controls_of}
use astrea.Pages.Offered.{shows_toggle, event_page-start_judging_iff}
use astrea.Pages.Told.{Empty, ReadBlank, event_page-resolver_iff}
use astrea.Teams.Registration.{Site, start_judging}
use astrea.CoreGo.Organizer.{find_event}

judge_page_iff_example : (shows_form (view_of (judge_page (event_id) (world judging)).0) ≡ true) ↔ (
    (s : Wallet) × (get_session_wallet (world judging).req ≡ some s)
    × (is_active_judge (world judging).req.db (event_id) s.address ≡ true))
judge_page_iff_example = judge_page_iff (event_id) (world judging)

judge_sees_form : shows_form (view_of (judge_page (event_id) (world judging)).0) ≡ true
unfolding judge_page get_session_wallet is_uuid is_groups is_active_judge Text-discrete
judge_sees_form = refl

abbrev copy : Copy
copy = record { sign_rejected = codes "rejected"; submit_failed = codes "failed" }

shows_funding :
    view_of (fund_page server (event_id) (world draft)).0
    ≡ fund_and_create (event_id) (codes "GA") (some (Json.str (codes "900"))) (codes "255000000")
unfolding fund_page sum_usdc_amounts to_stroops parse_usdc_amount trim get_session_wallet is_uuid
    is_groups request config wallet_balance property_of member Text-discrete value digits
shows_funding = refl

fund_page-Funding_example :
    (f : Funding (event_id) (world draft) (event_id) (codes "GA") (codes "255000000")) × Funds
      (digits (sum f.stroops))
      (confirmations (FundEvent.press_build ∷ []))
      (run_fund
        (event_id)
        copy
        (codes "255000000")
        (FundEvent.press_build ∷ [])
        (fund_screen (codes "900")))
fund_page-Funding_example =
    fund_page-Funding server copy (event_id) (world draft) (event_id) (codes "GA")
      (codes "255000000") (codes "900") (some (Json.str (codes "900"))) (FundEvent.press_build ∷ [])
      shows_funding

abbrev site : Site
site = record { req = (world live).req; revalidated = [] }

abbrev live_page : EventPage
live_page = record {
  event_id = event_id;
  controls = some (controls_of (db live) (event live) wallet);
  resolver = record { is_default = true; label = codes "Astrea"; address = none };
  share_url = url;
}

shows_live :
    event_page
      (λ n. n)
      simulate
      (codes "unread")
      (codes "Astrea")
      (ok env)
      (codes "https://astrea")
      (codes "en")
      event_id
      site.req
    ≡ shown live_page
unfolding event_page read_escrow_event to_reward to_state to_address state_of
    resolve_dispute_resolver get_session_wallet is_uuid is_groups Text-discrete
shows_live = refl

event_page-resolver_iff_example :
    (e : Event) × (find_event event_id site.req.db.events ≡ some e)
    × ((true ≡ true) ↔ (
        Empty e.escrow_event_id
        ⊎ ReadBlank (λ n. n) simulate (codes "unread") (codes "Astrea") (ok env) e.escrow_event_id))
event_page-resolver_iff_example =
    event_page-resolver_iff (λ n. n) simulate (codes "unread") (codes "Astrea") (ok env)
      (codes "https://astrea") (codes "en") event_id site.req live_page shows_live

event_page-start_judging_iff_example :
    (shows_toggle (
        event_page
          (λ n. n)
          simulate
          (codes "unread")
          (codes "Astrea")
          (ok env)
          (codes "https://astrea")
          (codes "en")
          event_id
          site.req)
      ≡ true)
    ↔ ((w' : Site) × (start_judging (λ d. d) event_id site ≡ (ok tt, w')))
event_page-start_judging_iff_example =
    event_page-start_judging_iff (λ n. n) simulate (codes "unread") (codes "Astrea") env
      (codes "https://astrea") (codes "en") event_id site

abbrev public_db : Db
public_db = record (db completed) { wallets = record wallet { profile_public = true } ∷ [] }

abbrev paid : Payout
paid = record {
  id = codes "y1";
  prize_id = codes "p1";
  team_member = record {
    team_id = codes "t1";
    event_id = event_id;
    wallet_id = codes "w1";
    share_basis_points = 10000;
    ordinal = 0;
  };
  tx_hash = codes "ab";
  amount = codes "25.5";
  confirmed_at = 1;
}

abbrev profile : Profile
profile = profile_of public_db (paid ∷ []) linked (record wallet { profile_public = true })

shows_profile :
    public_profile_page some (λ a b. a === b) public_db (paid ∷ []) (codes " @octocat")
    ≡ some profile
unfolding public_profile_page normalize_login participations trim is_space Text-discrete
shows_profile = refl

public_profile_page-Public_example :
    Public some (λ a b. a === b) public_db (paid ∷ []) (codes " @octocat") profile
public_profile_page-Public_example =
    public_profile_page-Public some (λ a b. a === b) public_db (paid ∷ []) (codes " @octocat")
      profile shows_profile

page_badge_iff_example :
    ((page_badge
        (λ n. n)
        simulate
        env
        ExplorerNetwork.testnet
        (event live).escrow_event_id).is_verified
      ≡ true)
    ↔ Locked
        (λ n. n)
        simulate
        env
        ExplorerNetwork.testnet
        (event live).escrow_event_id
        (page_badge (λ n. n) simulate env ExplorerNetwork.testnet (event live).escrow_event_id)
page_badge_iff_example =
    page_badge_iff (λ n. n) simulate env ExplorerNetwork.testnet (event live).escrow_event_id

verified_badge :
    (page_badge
      (λ n. n)
      simulate
      env
      ExplorerNetwork.testnet
      (event live).escrow_event_id).is_verified
    ≡ true
unfolding page_badge onchain_badge read_escrow_event to_reward to_state to_address state_of
    Text-discrete
verified_badge = refl
