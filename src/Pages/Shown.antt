-- ===== src/Pages/Shown.antt =====
-- Whose profile is public, and what it shows.
use mathlib.Core.Path.{subst}
use astrea.Prelude.{
  ◌≡◌, ◌≢◌, ◌⊎◌, refl, sym, ap, ◌∙◌, inl, inr, Bool, true, Option, none, some, List, [], ◌∷◌, Text,
  arith, Selects, keep-Selects, is_some, Option-cases, Bool-cases, find, keep,
}
use astrea.Schema.{Event, Prize, Team, TeamMember, Wallet, LinkedAccount, Db}
use astrea.Auth.Session.{has_id}
use astrea.Earnings.Query.{Payout}
use astrea.Github.Callback.{git_hub}
use astrea.CoreGo.Organizer.{has_event_id}
use astrea.Pages.Profile.{
  normalize_login, Participation, Profile, shown_text, won_by, paid_to, has_team_id, below_prizes,
  participation, participations, of_member, is_account, profile_of, public_profile_page,
}

-- What is shown of a membership: its team and its event as they are stored, the prizes that the team
-- won and, below prizes, the payouts to the member.
pub record Own (db : Db) (payouts : List Payout) (m : TeamMember) (p : Participation) : Type 0 where
  pub team : Team
  pub found : find (has_team_id m.team_id) db.teams ≡ some team
  pub its_team : team.id ≡ m.team_id
  pub event : Event
  pub held : find (has_event_id team.event_id) db.events ≡ some event
  pub its_event : event.id ≡ team.event_id
  pub same_event : (p.event_id ≡ event.id) × (p.event_name ≡ event.name)
  pub same_network : p.network ≡ event.network
  pub same_team : p.team_name ≡ team.name
  pub link :
      ((team.submission_url ≡ []) × (p.submission_url ≡ none))
      ⊎ ((team.submission_url ≢ []) × (p.submission_url ≡ some team.submission_url))
  pub verified : p.is_verified ≡ is_some team.submission_verified_at
  pub won : Selects (λ (q : Prize). q.winner_team_id ≡ some team.id) db.prizes p.prizes
  pub paid :
      ((p.prizes ≡ []) × (p.payouts ≡ []))
      ⊎ ((p.prizes ≢ [])
          × Selects
              (λ (q : Payout).
                (q.team_member.team_id ≡ m.team_id) × (q.team_member.wallet_id ≡ m.wallet_id))
              payouts
              p.payouts)

-- Of each membership, in order, what is shown; none of one without its team or its event.
pub data Lists (db : Db) (payouts : List Payout)
    : List TeamMember → List Participation → Type 0 where
  over : Lists db payouts [] []
  shown_one :
      {m : TeamMember} {p : Participation} {ms : List TeamMember} {ps : List Participation}
      → Own db payouts m p
      → Lists db payouts ms ps
      → Lists db payouts (m ∷ ms) (p ∷ ps)
  teamless :
      {m : TeamMember} {ms : List TeamMember} {ps : List Participation}
      → find (has_team_id m.team_id) db.teams ≡ none
      → Lists db payouts ms ps
      → Lists db payouts (m ∷ ms) ps
  eventless :
      {m : TeamMember} {ms : List TeamMember} {ps : List Participation} (t : Team)
      → find (has_team_id m.team_id) db.teams ≡ some t
      → find (has_event_id t.event_id) db.events ≡ none
      → Lists db payouts ms ps
      → Lists db payouts (m ∷ ms) ps

found-holds : {A : Type 0} (p : A → Bool) (xs : List A) (x : A) → find p xs ≡ some x → p x ≡ true
found-holds p [] x e = cc
found-holds p (y ∷ xs) x e = elim (Bool-cases (p y)) [
  | inl hit ↦ let same : y ≡ x = ground arith in ap p (sym same) ∙ hit
  | inr miss ↦ found-holds p xs x (ground arith)
]

won_by-winner :
    (team_id : Text) (q : Prize) → won_by team_id q ≡ true → q.winner_team_id ≡ some team_id
won_by-winner team_id q h = elim (Option-cases q.winner_team_id) [
  | inl e ↦ absurd (ground arith)
  | inr (id, e) ↦ let same : id ≡ team_id = ground arith in e ∙ ap some same
]

winner-won_by :
    (team_id : Text) (q : Prize) → q.winner_team_id ≡ some team_id → won_by team_id q ≡ true
winner-won_by team_id q e = ground arith

paid_to-member :
    (m : TeamMember) (q : Payout)
    → paid_to m q ≡ true
    → (q.team_member.team_id ≡ m.team_id) × (q.team_member.wallet_id ≡ m.wallet_id)
paid_to-member m q h = (ground arith, ground arith)

member-paid_to :
    (m : TeamMember) (q : Payout)
    → (q.team_member.team_id ≡ m.team_id) × (q.team_member.wallet_id ≡ m.wallet_id)
    → paid_to m q ≡ true
member-paid_to m q (t, w) = ground arith

below_prizes-paid :
    (P : Payout → Type 0) (prizes : List Prize) (all_payouts payouts : List Payout)
    → Selects P all_payouts payouts
    → ((prizes ≡ []) × (below_prizes prizes payouts ≡ []))
      ⊎ ((prizes ≢ []) × Selects P all_payouts (below_prizes prizes payouts))
below_prizes-paid P [] all_payouts payouts h = inl (refl, refl)
below_prizes-paid P (q ∷ qs) all_payouts payouts h = inr (λ e. cc, h)

shown_text-link :
    (t : Text)
    → ((t ≡ []) × (shown_text (some t) ≡ none)) ⊎ ((t ≢ []) × (shown_text (some t) ≡ some t))
shown_text-link [] = inl (refl, refl)
shown_text-link (c ∷ s) = inr (λ e. cc, refl)

participation-Own :
    (db : Db) (payouts : List Payout) (m : TeamMember) (t : Team) (e : Event)
    → find (has_team_id m.team_id) db.teams ≡ some t
    → find (has_event_id t.event_id) db.events ≡ some e
    → Own db payouts m (participation db payouts m t e)
participation-Own db payouts m t e found held = record {
  team = t;
  found = found;
  its_team = let hit = found-holds (has_team_id m.team_id) db.teams t found in ground arith;
  event = e;
  held = held;
  its_event = let hit = found-holds (has_event_id t.event_id) db.events e held in ground arith;
  same_event = (refl, refl);
  same_network = refl;
  same_team = refl;
  link = shown_text-link t.submission_url;
  verified = refl;
  won = keep-Selects _ (won_by t.id) (won_by-winner t.id) (winner-won_by t.id) db.prizes;
  paid =
      below_prizes-paid _ (keep (won_by t.id) db.prizes) payouts (keep (paid_to m) payouts)
        (keep-Selects _ (paid_to m) (paid_to-member m) (member-paid_to m) payouts);
}

participations-Lists :
    (db : Db) (payouts : List Payout) (ms : List TeamMember)
    → Lists db payouts ms (participations db payouts ms)
unfolding participations
participations-Lists db payouts [] = over
participations-Lists db payouts (m ∷ ms) =
    let rest = participations-Lists db payouts ms in
    elim (Option-cases (find (has_team_id m.team_id) db.teams)) [
      | inl e ↦ rw (participations, e) (teamless e rest)
      | inr (t, found) ↦ elim (Option-cases (find (has_event_id t.event_id) db.events)) [
        | inl e ↦ rw (participations, found, e) (eventless t found e rest)
        | inr (event, e) ↦
            rw (participations, found, e)
              (shown_one (participation-Own db payouts m t event found e) rest)
      ]
    ]

-- The profile that a page shows: of a wallet that chose to be public, under the GitHub account
-- linked to it.
pub record Public (decode_uri_component : Text → Option Text) (same_name : Text → Text → Bool)
    (db : Db) (payouts : List Payout) (login : Text) (profile : Profile) : Type 0 where
  pub account : LinkedAccount
  pub linked :
      find (is_account same_name (normalize_login decode_uri_component login)) db.linked_accounts
      ≡ some account
  pub from_git_hub : account.provider ≡ git_hub
  pub named : same_name account.username (normalize_login decode_uri_component login) ≡ true
  pub same_username : profile.username ≡ account.username
  pub wallet : Wallet
  pub found : find (has_id account.wallet_id) db.wallets ≡ some wallet
  pub its_wallet : wallet.id ≡ account.wallet_id
  pub is_public : wallet.profile_public ≡ true
  pub same_address : profile.address ≡ wallet.address
  pub memberships : List TeamMember
  pub owned : Selects (λ (m : TeamMember). m.wallet_id ≡ wallet.id) db.team_members memberships
  pub listed : Lists db payouts memberships profile.participations

-- A profile is shown only under an account of GitHub that is linked under the name asked for, whatever
-- its case, of a wallet that chose to be public, with the account's name and the wallet's address; it
-- lists the memberships of that wallet, each with its team, its event, the prizes that the team won
-- and, below prizes, the payouts to the member, and nothing else.
pub public_profile_page-Public :
    (decode_uri_component : Text → Option Text) (same_name : Text → Text → Bool) (db : Db)
    (payouts : List Payout) (login : Text) (profile : Profile)
    → public_profile_page decode_uri_component same_name db payouts login ≡ some profile
    → Public decode_uri_component same_name db payouts login profile
unfolding public_profile_page
public_profile_page-Public decode_uri_component same_name db payouts login profile h =
    let is_it = is_account same_name (normalize_login decode_uri_component login) in
    elim (Option-cases (find is_it db.linked_accounts)) [
      | inl e ↦ absurd (ground arith)
      | inr (a, e) ↦ elim (Option-cases (find (has_id a.wallet_id) db.wallets)) [
        | inl k ↦ absurd (ground arith)
        | inr (w, k) ↦ elim (Bool-cases w.profile_public) [
          | inr hidden ↦ absurd (ground arith)
          | inl open' ↦
              let same : profile ≡ profile_of db payouts a w = ground arith in
              let hit = found-holds is_it db.linked_accounts a e in
              let mine = keep (of_member w.id) db.team_members in
              record {
                account = a;
                linked = e;
                from_git_hub = ground arith;
                named = ground arith;
                same_username = ap (λ p. p.username) same;
                wallet = w;
                found = k;
                its_wallet =
                    let own = found-holds (has_id a.wallet_id) db.wallets w k in ground arith;
                is_public = open';
                same_address = ap (λ p. p.address) same;
                memberships = mine;
                owned =
                    keep-Selects _ (of_member w.id) (λ m own. ground arith) (λ m own. ground arith)
                      db.team_members;
                listed =
                    subst (λ p. Lists db payouts mine p.participations) (sym same)
                      (participations-Lists db payouts mine);
              }
        ]
      ]
    ]
