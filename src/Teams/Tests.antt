-- ===== src/Teams/Tests.antt =====
-- A team registers with its repository, and the organizer starts the judging.
use astrea.Prelude.{
  ◌≡◌, refl, true, false, none, some, List, [], ◌∷◌, codes, Text, Text-discrete, ok, is_uuid,
  is_groups, trim, is_space, value,
}
use astrea.Prelude.Int.{pos, negsuc, ◌-ℤ◌}
use astrea.Schema.{Db, Wallet, Event, live, testnet, EventStatus-discrete}
use astrea.Amount.{to_stroops}
use astrea.Auth.Session.{get_session_wallet, get_wallet_linked_account}
use astrea.StateMachine.Transitions.{
  assert_event_transition, can_transition_event, event_transitions,
}
use astrea.StateMachine.Apply.{transition_event}
use astrea.Trustline.{
  Balance, Asset, has_usdc_trustline, check_line, trustline_headroom, verify_and_record_trustline,
}
use astrea.Teams.Shares.{Number, whole, other, validate_team_shares, first_bad, is_share, total}
use astrea.Teams.Repo.{
  Web, RepoOwnershipInput, parse_git_hub_repo_url, owner_and_repo, is_name_unit,
  check_repo_ownership,
}
use astrea.Teams.Registration.{
  Site, RegisterTeamInput, parse_submission_url, verified_at, check_github, create_team,
  register_team, start_judging,
}
use astrea.Teams.Registered.{Registered, register_team-Registered}

abbrev halves : List Number
halves = whole (pos 5000) ∷ whole (pos 5000) ∷ []

checks :
    ((validate_team_shares halves).valid ≡ true)
    × ((validate_team_shares (whole (pos 10000) ∷ whole (pos 0) ∷ [])).valid ≡ false)
    × ((validate_team_shares (whole (negsuc 0) ∷ whole (pos 10001) ∷ [])).valid ≡ false)
    × ((validate_team_shares (other (codes "0.5") ∷ [])).valid ≡ false)
    × ((validate_team_shares []).valid ≡ false)
unfolding validate_team_shares first_bad is_share total
checks = (refl, refl, refl, refl, refl)

abbrev link : Text
link = codes "https://github.com/ann/jam.git"

abbrev web : Web
web = record {
  parse_url = λ s. some (record {
    href = s;
    protocol = codes "https:";
    hostname = codes "github.com";
    pathname = codes "/ann/jam.git";
  });
  to_lower_case = λ s. s;
}

ssh_and_paths :
    (parse_git_hub_repo_url web (codes "git@GitHub.com:ann/jam.GIT/")
      ≡ some (codes "ann", codes "jam"))
    × (parse_git_hub_repo_url web (codes "git@github.com:ann/.git")
        ≡ some (codes "ann", codes ".git"))
unfolding parse_git_hub_repo_url owner_and_repo is_name_unit trim is_space Text-discrete
ssh_and_paths = (refl, refl)

parsed : parse_git_hub_repo_url web link ≡ some (codes "ann", codes "jam")
unfolding parse_git_hub_repo_url owner_and_repo is_name_unit trim is_space Text-discrete
parsed = refl

abbrev asking : RepoOwnershipInput
asking = record {
  user_login = codes "ann";
  repo_owner = codes "ann";
  permissions = none;
  is_collaborator = none;
}

abbrev wallet : Wallet
wallet = record {
  id = codes "w1";
  user_id = codes "u1";
  address = codes "GA";
  email = none;
  profile_public = false;
  usdc_trustline_verified_at = none;
}

abbrev event_id : Text
event_id = codes "00000000-0000-0000-0000-00000000000e"

abbrev event : Event
event = record {
  id = event_id;
  organizer_id = codes "u1";
  organizer_wallet_id = codes "w1";
  name = codes "Jam";
  description = none;
  timezone = codes "UTC";
  judging_deadline_at = none;
  status = live;
  require_github = true;
  network = testnet;
  escrow_event_id = none;
}

abbrev db : Db
db = record {
  users = [];
  events = event ∷ [];
  prizes = [];
  judges = [];
  teams = [];
  team_members = [];
  wallets = wallet ∷ [];
  linked_accounts =
      record {
        wallet_id = codes "w1";
        provider = codes "GITHUB";
        provider_id = codes "7";
        username = codes "ann";
        avatar_url = none;
        profile_url = none;
      }
      ∷ [];
  auth_nonces = [];
}

abbrev site : Site
site = record { req = record { db = db; cookie = some (codes "w1") }; revalidated = [] }

abbrev usdc : Asset
usdc = record { symbol = codes "USDC"; issuer = codes "GI" }

abbrev line : Balance
line = record {
  asset_code = some (codes "USDC");
  asset_issuer = some (codes "GI");
  is_authorized = some true;
  limit = some (codes "9");
  balance = some (codes "1");
  buying_liabilities = none;
}

abbrev team_input : RegisterTeamInput
team_input = record { team_name = codes " Ann "; submission_url = link }

abbrev after_registration : Site
unfolding register_team
after_registration =
    (register_team web usdc (λ _. ok (line ∷ [])) 5 (λ d. d) (codes "t1") event_id team_input
      site).1

registers :
    register_team web usdc (λ _. ok (line ∷ [])) 5 (λ d. d) (codes "t1") event_id team_input site
    ≡ (ok tt, after_registration)
unfolding after_registration register_team parse_submission_url verified_at check_github create_team
    get_session_wallet get_wallet_linked_account verify_and_record_trustline has_usdc_trustline
    check_line trustline_headroom to_stroops value ◌-ℤ◌ is_uuid is_groups parse_git_hub_repo_url
    check_repo_ownership owner_and_repo is_name_unit trim is_space Text-discrete
registers = refl

register_team-Registered_example :
    Registered web usdc
      (λ _. ok (line ∷ []))
      5
      (λ d. d)
      (codes "t1")
      event_id
      team_input
      site
      after_registration
register_team-Registered_example =
    register_team-Registered web usdc (λ _. ok (line ∷ [])) 5 (λ d. d) (codes "t1") event_id
      team_input site after_registration registers

abbrev after_start : Site
unfolding start_judging
after_start = (start_judging (λ d. d) event_id site).1

starts : start_judging (λ d. d) event_id site ≡ (ok tt, after_start)
unfolding after_start start_judging get_session_wallet is_uuid is_groups transition_event
    assert_event_transition can_transition_event event_transitions EventStatus-discrete
    Text-discrete
starts = refl
