-- ===== src/Teams/Registered.antt =====
-- What a registration presupposes, and what it writes.
use astrea.Prelude.{
  ℕ, ◌≤◌, ◌≡◌, ◌⊎◌, refl, inl, inr, Bool, true, false, Option, none, some, List, [], ◌∷◌, Text,
  codes, Result, ok, arith, Option-cases, Result-cases, Bool-cases, length, find, trim,
}
use astrea.Schema.{EventStatus, live, Event, Wallet, LinkedAccount, Db}
use astrea.Auth.Session.{get_session_wallet, get_wallet_linked_account}
use astrea.Trustline.{Balance, HorizonError, Asset, stamp_wallet, verify_and_record_trustline}
use astrea.Trustline.Laws.{CanReceive, verify_and_record_trustline_lem}
use astrea.CoreGo.Organizer.{find_event}
use astrea.Teams.Repo.{Web, parse_git_hub_repo_url, RepoOwnershipInput, check_repo_ownership}
use astrea.Teams.Owners.{IsRepo, parse_git_hub_repo_url_lem, check_repo_ownership_iff}
use astrea.Teams.Registration.{
  Site, RegisterTeamInput, parse_submission_url, check_github, verified_at, is_bad_name, is_live,
  truthy, is_member, create_team, new_team, new_member, register_team,
}

-- The linked account owns the repository that the URL names.
pub record Owns (web : Web) (wallet_id url : Text) (db : Db) : Type 0 where
  pub account : LinkedAccount
  pub linked : get_wallet_linked_account wallet_id (codes "GITHUB") db ≡ some account
  pub owner : Text
  pub repo : Text
  pub names : IsRepo web (trim url) owner repo
  pub same : web.to_lower_case (trim account.username) ≡ web.to_lower_case (trim owner)

check_github_lem :
    (web : Web) (now : ℕ) (wallet_id url : Text) (db : Db) (v : Option ℕ)
    → check_github web now wallet_id url db ≡ ok v
    → (v ≡ some now) × Owns web wallet_id url db
unfolding check_github
check_github_lem web now wallet_id url db v h =
    elim (Option-cases (get_wallet_linked_account wallet_id (codes "GITHUB") db)) [
      | inl missing ↦ absurd (ground arith)
      | inr (account, linked) ↦ elim (Option-cases (parse_git_hub_repo_url web url)) [
        | inl missing ↦ absurd (ground arith)
        | inr ((owner, repo), parsed) ↦
            let input : RepoOwnershipInput = record {
              user_login = account.username;
              repo_owner = owner;
              permissions = none;
              is_collaborator = none;
            } in
            elim (Bool-cases (check_repo_ownership web input).is_owner) [
              | inr other ↦ absurd (ground arith)
              | inl own ↦
                  let facts = (check_repo_ownership_iff web input).0 own in
                  (
                    ground arith,
                    record {
                      account = account;
                      linked = linked;
                      owner = owner;
                      repo = repo;
                      names = parse_git_hub_repo_url_lem web url owner repo parsed;
                      same = ground arith;
                    },
                  )
            ]
      ]
    ]

verified_at_lem :
    (web : Web) (now : ℕ) (required : Bool) (wallet_id url : Text) (db : Db) (v : Option ℕ)
    → verified_at web now required wallet_id url db ≡ ok v
    → ((required ≡ false) × (v ≡ none))
      ⊎ ((required ≡ true) × (v ≡ some now) × Owns web wallet_id url db)
unfolding verified_at
verified_at_lem web now false wallet_id url db v h = inl (refl, ground arith)
verified_at_lem web now true wallet_id url db v h =
    let (is_now, owns) = check_github_lem web now wallet_id url db v h in inr (refl, is_now, owns)

is_live_lem : (status : EventStatus) → is_live status ≡ true → status ≡ live
is_live_lem live h = refl
is_live_lem status h = absurd (ground arith)

good_name : (name : Text) → is_bad_name name ≡ false → (1 ≤ length name) × (length name ≤ 80)
good_name name h = (ground arith, ground arith)

truthy_lem : (o : Option Text) (url : Text) → truthy o ≡ some url → o ≡ some url
truthy_lem (some (c ∷ s)) url h = h
truthy_lem (some []) url h = absurd (ground arith)
truthy_lem none url h = absurd (ground arith)

module _ (web : Web) (asset : Asset) (horizon : Text → Result HorizonError (List Balance)) (now : ℕ)
    (others : Db → Db) (team_id event_id : Text) (input : RegisterTeamInput) where
  -- What a registration that went through rests on, and the two rows that it wrote.
  pub record Registered (w w' : Site) : Type 0 where
    pub wallet : Wallet
    pub session : get_session_wallet w.req ≡ some wallet
    pub event : Event
    pub found : find_event event_id w.req.db.events ≡ some event
    pub is_open : event.status ≡ live
    pub named : (1 ≤ length (trim input.team_name)) × (length (trim input.team_name) ≤ 80)
    pub url : Text
    pub parsed : parse_submission_url web input.submission_url ≡ some url
    pub verified : Option ℕ
    pub github :
        ((event.require_github ≡ false) × (verified ≡ none))
        ⊎ ((event.require_github ≡ true) × (verified ≡ some now) × Owns web wallet.id url w.req.db)
    pub balances : List Balance
    pub answered : horizon wallet.address ≡ ok balances
    pub can_receive : CanReceive asset balances
    pub before : Db
    pub before_is : before ≡ others (stamp_wallet now wallet.id w.req.db)
    pub was_new : find (is_member event_id wallet.id) before.team_members ≡ none
    pub team_row :
        w'.req.db.teams
        ≡ new_team team_id event_id (trim input.team_name) url verified ∷ before.teams
    pub member_row :
        w'.req.db.team_members ≡ new_member team_id event_id wallet.id ∷ before.team_members

  -- If a registration goes through, a signed-in wallet registered for a LIVE event, under a name of 1 to 80
  -- units and with an http(s) URL; its account can receive USDC; where the event requires GitHub, the URL
  -- names a repository whose owner is the wallet's linked account; the wallet was no member at that event
  -- when its row was inserted, and one team with that wallet as its one member was added.
  pub register_team-Registered :
      (w w' : Site)
      → register_team web asset horizon now others team_id event_id input w ≡ (ok tt, w')
      → Registered w w'
  unfolding register_team create_team
  register_team-Registered w w' h = elim (Option-cases (get_session_wallet w.req)) [
    | inl missing ↦ absurd (ground arith)
    | inr (s, session) ↦ elim (Bool-cases (is_bad_name (trim input.team_name))) [
      | inl bad ↦ absurd (ground arith)
      | inr named ↦ elim (Option-cases (truthy (parse_submission_url web input.submission_url))) [
        | inl bad ↦ absurd (ground arith)
        | inr (url, parsed) ↦ elim (Option-cases (find_event event_id w.req.db.events)) [
          | inl missing ↦ absurd (ground arith)
          | inr (event, found) ↦ elim (Bool-cases (is_live event.status)) [
            | inr closed ↦ absurd (ground arith)
            | inl is_open ↦
                elim (Result-cases (verified_at web now event.require_github s.id url w.req.db)) [
                  | inr (e, bad) ↦ absurd (ground arith)
                  | inl (verified, v) ↦
                      elim (verify_and_record_trustline_lem asset horizon now s.id s.address
                        w.req.db) [
                          | inr (bad, same) ↦
                              elim (Result-cases
                                (verify_and_record_trustline asset horizon now s.id s.address
                                  w.req.db).0) [
                                    | inr (e, thrown) ↦ absurd (ground arith)
                                    | inl (true, t) ↦ absurd (bad t)
                                    | inl (false, f) ↦ absurd (ground arith)
                                  ]
                          | inl (good, db_is, balances, answered, can_receive) ↦
                              elim (Option-cases (
                                find (is_member event_id s.id)
                                  (stamp_wallet now s.id w.req.db).team_members)) [
                                    | inr (m, old) ↦ absurd (ground arith)
                                    | inl unseen ↦
                                        let before = others (stamp_wallet now s.id w.req.db) in
                                        elim (Option-cases
                                          (find (is_member event_id s.id) before.team_members)) [
                                            | inr (m, raced) ↦ absurd (ground arith)
                                            | inl was_new ↦ record {
                                              wallet = s;
                                              session = session;
                                              event = event;
                                              found = found;
                                              is_open = is_live_lem event.status is_open;
                                              named = good_name (trim input.team_name) named;
                                              url = url;
                                              parsed =
                                                  truthy_lem
                                                    (parse_submission_url web input.submission_url)
                                                    url parsed;
                                              verified = verified;
                                              github =
                                                  verified_at_lem web now event.require_github s.id
                                                    url w.req.db verified v;
                                              balances = balances;
                                              answered = answered;
                                              can_receive = can_receive;
                                              before = before;
                                              before_is = refl;
                                              was_new = was_new;
                                              team_row = ground arith;
                                              member_row = ground arith;
                                            }
                                          ]
                                  ]
                        ]
                ]
          ]
        ]
      ]
    ]
  ]
