-- ===== src/Teams/Registration.antt =====
-- actions.ts of the public event page: registering a team of one, and starting the judging.
use astrea.Prelude.{
  ℕ, Bool, true, false, ◌&&◌, ◌||◌, not, Option, none, some, List, ◌∷◌, ◌++◌, Text, ◌===◌, codes,
  Action, Result, ok, err, ◌>>=◌, ◌>>◌, gets, or_throw, modify, throw_if, if◌then◌else◌, find,
  length, ltb, trim, is_some, ◌==◌,
}
use astrea.Schema.{EventStatus, live, judging, Wallet, Team, TeamMember, Db}
use astrea.StateMachine.Transitions.{TransitionError}
use astrea.StateMachine.Apply.{transition_event}
use astrea.Auth.Session.{Request, get_session_wallet, get_wallet_linked_account}
use astrea.Trustline.{Balance, HorizonError, Asset, verify_and_record_trustline}
use astrea.CoreGo.Organizer.{Page, event_page, find_event}
use astrea.Teams.Repo.{Web, parse_git_hub_repo_url, check_repo_ownership}

-- A server action's world: its request, and the pages that it had rendered afresh.
pub record Site : Type 0 where
  pub req : Request
  pub revalidated : List Page

-- The codes of `ActionResult`, with the `detail` of those that have one; the last two are what is
-- thrown: by the trustline's check, and by the unique constraint on members.
pub data ActionError : Type 0 where
  not_connected event_not_found not_live already_registered invalid_team_name : ActionError
  invalid_submission_url not_organizer github_required invalid_github_url : ActionError
  missing_trustline : Text → ActionError
  not_repo_owner : Option Text → ActionError
  transition : TransitionError EventStatus → ActionError
  thrown : Text → ActionError
  unique_constraint : ActionError

abbrev pub SiteAction : Type 0 → Type 0
SiteAction A = Action Site ActionError A

pub record RegisterTeamInput : Type 0 where
  pub team_name : Text
  pub submission_url : Text

-- `https:` or `http:`; anything else, and what `new URL` rejects, is refused.
unfoldable pub parse_submission_url : Web → Text → Option Text
parse_submission_url web raw = elim (web.parse_url (trim raw)) [
  | none ↦ none
  | some url ↦
      if url.protocol === codes "https:" || url.protocol === codes "http:"
      then some url.href
      else none
]

-- `length === 0 || length > TEAM_NAME_MAX`
abbrev pub is_bad_name : Text → Bool
is_bad_name name = length name == 0 || ltb 80 (length name)

abbrev pub is_live : EventStatus → Bool
is_live live = true
is_live _ = false

-- An empty string is as good as `null`.
abbrev pub truthy : Option Text → Option Text
truthy (some (c ∷ s)) = some (c ∷ s)
truthy _ = none

abbrev pub session_wallet : SiteAction Wallet
session_wallet w = or_throw (get_session_wallet w.req) not_connected w

abbrev pub set_db : Db → Site → Site
set_db db w = record w { req = record (w.req) { db = db } }

-- A call that may throw, outside any `try`.
abbrev pub on_tables : {A : Type 0} → Action Db Text A → SiteAction A
on_tables m w =
    let (r, db') = m w.req.db in
    elim r [ ok a ↦ (ok a, set_db db' w) | err e ↦ (err (thrown e), set_db db' w) ]

-- When the event requires GitHub: the linked account's name must own the repository submitted.
unfoldable pub check_github : Web → ℕ → Text → Text → Db → Result ActionError (Option ℕ)
check_github web now wallet_id url db =
    elim (get_wallet_linked_account wallet_id (codes "GITHUB") db) [
      | none ↦ err github_required
      | some account ↦ elim (parse_git_hub_repo_url web url) [
        | none ↦ err invalid_github_url
        | some (owner, repo) ↦
            let r = check_repo_ownership web (record {
              user_login = account.username;
              repo_owner = owner;
              permissions = none;
              is_collaborator = none;
            }) in
            if r.is_owner then ok (some now) else err (not_repo_owner r.reason)
      ]
    ]

unfoldable pub verified_at : Web → ℕ → Bool → Text → Text → Db → Result ActionError (Option ℕ)
unfolding check_github
verified_at web now false wallet_id url db = ok none
verified_at web now true wallet_id url db = check_github web now wallet_id url db

abbrev pub is_member : Text → Text → TeamMember → Bool
is_member event_id wallet_id m = m.event_id === event_id && m.wallet_id === wallet_id

-- One transaction: the team and its member, unless the wallet is a member at this event by now.
unfoldable pub create_team : Team → TeamMember → SiteAction (Unit {0})
create_team team member w =
    if is_some (find (is_member member.event_id member.wallet_id) w.req.db.team_members)
    then (err unique_constraint, w)
    else (
      ok tt,
      set_db
          (record (w.req.db) {
            teams = team ∷ w.req.db.teams;
            team_members = member ∷ w.req.db.team_members;
          })
          w,
    )

abbrev pub revalidate : Page → SiteAction (Unit {0})
revalidate page w = (ok tt, record w { revalidated = page ∷ w.revalidated })

abbrev pub new_team : Text → Text → Text → Text → Option ℕ → Team
new_team id event_id name url verified = record {
  id = id;
  event_id = event_id;
  name = name;
  submission_url = url;
  submission_verified_at = verified;
}

abbrev pub new_member : Text → Text → Text → TeamMember
new_member team_id event_id wallet_id = record {
  team_id = team_id;
  event_id = event_id;
  wallet_id = wallet_id;
  share_basis_points = 10000;
  ordinal = 0;
}

module _ (web : Web) (asset : Asset) (horizon : Text → Result HorizonError (List Balance))
    (now : ℕ) where
  -- `others` is what other requests write between the check for a member and the insert; `team_id` is
  -- the new row's.
  unfoldable pub register_team : (Db → Db) → Text → Text → RegisterTeamInput → SiteAction (Unit {0})
  unfolding parse_submission_url verified_at create_team
  register_team others team_id event_id input = do
    session ← session_wallet
    throw_if (is_bad_name (trim input.team_name)) invalid_team_name
    url ← or_throw (truthy (parse_submission_url web input.submission_url)) invalid_submission_url
    found ← gets (λ w. find_event event_id w.req.db.events)
    event ← or_throw found event_not_found
    throw_if (not (is_live event.status)) not_live
    verified ← (λ w. (verified_at web now event.require_github session.id url w.req.db, w))
    has_trustline ←
        on_tables (verify_and_record_trustline asset horizon now session.id session.address)
    throw_if (not has_trustline) (missing_trustline (asset.symbol ++ (codes ":" ++ asset.issuer)))
    existing ← gets (λ w. find (is_member event_id session.id) w.req.db.team_members)
    throw_if (is_some existing) already_registered
    modify (λ w. set_db (others w.req.db) w)
    create_team (new_team team_id event_id (trim input.team_name) url verified)
        (new_member team_id event_id session.id)
    revalidate (event_page event_id)

-- `try { await transitionEvent(…) } catch`
abbrev pub try_transition : Text → SiteAction (Unit {0})
try_transition event_id w =
    let (r, db') = transition_event event_id live judging w.req.db in
    elim r [ ok a ↦ (ok a, set_db db' w) | err e ↦ (err (transition e), set_db db' w) ]

-- `others` is what other requests write between the reading and the transition.
unfoldable pub start_judging : (Db → Db) → Text → SiteAction (Unit {0})
start_judging others event_id = do
  session ← session_wallet
  found ← gets (λ w. find_event event_id w.req.db.events)
  event ← or_throw found event_not_found
  throw_if (not (event.organizer_wallet_id === session.id)) not_organizer
  throw_if (not (is_live event.status)) not_live
  modify (λ w. set_db (others w.req.db) w)
  try_transition event_id
  revalidate (event_page event_id)
