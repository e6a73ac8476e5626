-- ===== src/Pages/Profile.antt =====
-- The public profile of a builder, apps/web/src/app/[locale]/p/[login]/page.tsx.
use astrea.Prelude.{
  Bool, false, ◌&&◌, Option, none, some, is_some, List, [], ◌∷◌, ◌++◌, Text, codes, ◌===◌, find,
  keep, trim, if◌then◌else◌,
}
use astrea.Schema.{StellarNetwork, Event, Prize, Team, TeamMember, Wallet, LinkedAccount, Db}
use astrea.Auth.Session.{has_id}
use astrea.Earnings.Query.{Payout}
use astrea.Github.Callback.{git_hub}
use astrea.CoreGo.Organizer.{has_event_id}
use astrea.Views.Card.{without_at}

-- `decodeURIComponent` throws on a malformed escape.
unfoldable pub normalize_login : (Text → Option Text) → Text → Text
normalize_login decode_uri_component raw = elim (decode_uri_component raw) [
  | some decoded ↦ without_at (trim decoded)
  | none ↦ without_at (trim raw)
]

-- A membership with what is shown of it: payouts are listed below prizes only.
pub record Participation : Type 0 where
  pub event_id : Text
  pub event_name : Text
  pub network : StellarNetwork
  pub team_name : Text
  pub is_verified : Bool
  pub submission_url : Option Text
  pub prizes : List Prize
  pub payouts : List Payout

pub record Profile : Type 0 where
  pub username : Text
  pub avatar_url : Option Text
  pub profile_url : Text
  pub address : Text
  pub participations : List Participation

-- `x && …` of a text.
abbrev pub shown_text : Option Text → Option Text
shown_text (some (c ∷ s)) = some (c ∷ s)
shown_text _ = none

abbrev pub profile_url_of : LinkedAccount → Text
profile_url_of a = elim a.profile_url [
  | some url ↦ url
  | none ↦ codes "https://github.com/" ++ a.username
]

abbrev pub won_by : Text → Prize → Bool
won_by team_id p = elim p.winner_team_id [ none ↦ false | some id ↦ id === team_id ]

abbrev pub paid_to : TeamMember → Payout → Bool
paid_to m p = p.team_member.team_id === m.team_id && p.team_member.wallet_id === m.wallet_id

abbrev pub has_team_id : Text → Team → Bool
has_team_id id t = t.id === id

abbrev pub below_prizes : List Prize → List Payout → List Payout
below_prizes [] payouts = []
below_prizes (p ∷ ps) payouts = payouts

abbrev pub participation : Db → List Payout → TeamMember → Team → Event → Participation
participation db payouts m t e =
    let prizes = keep (won_by t.id) db.prizes in
    record {
      event_id = e.id;
      event_name = e.name;
      network = e.network;
      team_name = t.name;
      is_verified = is_some t.submission_verified_at;
      submission_url = shown_text (some t.submission_url);
      prizes = prizes;
      payouts = below_prizes prizes (keep (paid_to m) payouts);
    }

-- The team and the event of a membership are there by their foreign keys.
unfoldable pub participations : Db → List Payout → List TeamMember → List Participation
participations db payouts [] = []
participations db payouts (m ∷ ms) =
    let rest = participations db payouts ms in
    elim (find (has_team_id m.team_id) db.teams) [
      | none ↦ rest
      | some t ↦ elim (find (has_event_id t.event_id) db.events) [
        | none ↦ rest
        | some e ↦ participation db payouts m t e ∷ rest
      ]
    ]

abbrev pub of_member : Text → TeamMember → Bool
of_member wallet_id m = m.wallet_id === wallet_id

-- `same_name` is the comparison that ignores case.
abbrev pub is_account : (Text → Text → Bool) → Text → LinkedAccount → Bool
is_account same_name login a = a.provider === git_hub && same_name a.username login

abbrev pub profile_of : Db → List Payout → LinkedAccount → Wallet → Profile
profile_of db payouts a w = record {
  username = a.username;
  avatar_url = shown_text a.avatar_url;
  profile_url = profile_url_of a;
  address = w.address;
  participations = participations db payouts (keep (of_member w.id) db.team_members);
}

-- `PublicProfilePage`; `none` is `notFound()`.
unfoldable pub public_profile_page :
    (Text → Option Text) → (Text → Text → Bool) → Db → List Payout → Text → Option Profile
public_profile_page decode_uri_component same_name db payouts raw =
    elim (find (is_account same_name (normalize_login decode_uri_component raw))
      db.linked_accounts) [
        | none ↦ none
        | some account ↦ elim (find (has_id account.wallet_id) db.wallets) [
          | none ↦ none
          | some wallet ↦
              if wallet.profile_public then some (profile_of db payouts account wallet) else none
        ]
      ]
