-- ===== src/Github/Callback.antt =====
-- callback/route.ts: GitHub sends the browser back, and its account is bound to the session's wallet.
use astrea.Prelude.{
  starts_with, ℕ, Bool, ◌&&◌, not, Option, none, some, List, [], ◌∷◌, Text, ◌===◌, codes, Result,
  ok, err, if◌then◌else◌,
}
use astrea.Schema.{LinkedAccount}
use astrea.Schema.Table.{delete_where}
use astrea.Auth.Session.{Request, get_session_wallet}
use astrea.Github.State.{Codec, Verified, verify_oauth_state}

-- `getGitHubUser`, with the id as the text that `String` makes of it.
pub record GitHubUserProfile : Type 0 where
  pub id : Text
  pub login : Text
  pub avatar_url : Text
  pub html_url : Text

-- The query of the URL called.
pub record Query : Type 0 where
  pub code : Option Text
  pub state : Option Text
  pub error : Option Text
  pub error_description : Option Text

-- A redirect within the app's origin: the path, and the parameters set on it in order.
pub record Redirect : Type 0 where
  pub path : Text
  pub params : List (Text × Text)

abbrev pub git_hub : Text
git_hub = codes "GITHUB"

abbrev pub of_wallet : Text → LinkedAccount → Bool
of_wallet wallet_id a = a.wallet_id === wallet_id && a.provider === git_hub

abbrev pub of_account : Text → LinkedAccount → Bool
of_account provider_id a = a.provider === git_hub && a.provider_id === provider_id

abbrev pub link_row : Text → GitHubUserProfile → LinkedAccount
link_row wallet_id user = record {
  wallet_id = wallet_id;
  provider = git_hub;
  provider_id = user.id;
  username = user.login;
  avatar_url = some user.avatar_url;
  profile_url = some user.html_url;
}

-- The transaction: the wallet's old link and the account's old link go, then the new row is inserted.
unfoldable pub link_account : Text → GitHubUserProfile → List LinkedAccount → List LinkedAccount
link_account wallet_id user rows =
    link_row wallet_id user
    ∷ delete_where (of_account user.id) (delete_where (of_wallet wallet_id) rows)

-- `returnTo?.startsWith("/") && !returnTo.startsWith("//") ? returnTo : "/"`
unfoldable pub target_path : Option Text → Text
target_path none = codes "/"
target_path (some t) =
    if starts_with (codes "/") t && not (starts_with (codes "//") t) then t else codes "/"

-- A parameter or a cookie as a condition: the empty text is as good as none.
abbrev pub truthy : Option Text → Option Text
truthy (some (c ∷ s)) = some (c ∷ s)
truthy _ = none

-- The state, if the query and the cookie have the same one.
abbrev pub same_state : Option Text → Option Text → Option Text
same_state (some a) (some b) = if a === b then some a else none
same_state _ _ = none

abbrev pub matching_state : Query → Option Text → Option Text
matching_state q cookie = same_state (truthy q.state) (truthy cookie)

abbrev pub return_of : Option Verified → Option Text
return_of none = none
return_of (some v) = v.return_to

-- What a visit finds and leaves: the tables with the session, and the cookie of the state.
pub record Visit : Type 0 where
  pub req : Request
  pub oauth_cookie : Option Text

abbrev pub home : Text → Redirect
home error = record { path = codes "/"; params = (codes "error", error) ∷ [] }

abbrev pub detail : Option Text → List (Text × Text)
detail none = []
detail (some d) = (codes "detail", d) ∷ []

abbrev pub github_error : Text → Text
github_error e =
    if e === codes "access_denied" then codes "github_cancelled" else codes "github_error"

abbrev pub set_links : List LinkedAccount → Request → Request
set_links rows req = record req { db = record (req.db) { linked_accounts = rows } }

module _ (codec : Codec) (now : ℕ) where
  abbrev pub checked : Option Text → Text → Result Text (Option Verified)
  checked none wallet_id = ok none
  checked (some state) wallet_id = verify_oauth_state codec now state wallet_id

  -- `getGitHubUser(await exchangeCodeForToken(…))` for a code is `exchange`; `refused` is what the
  -- database answers to the transaction, which then writes nothing.
  abbrev pub link :
      (Text → Result Text GitHubUserProfile)
      → Option Text
      → Text
      → Text
      → Verified
      → Request
      → Redirect × Request
  link exchange refused wallet_id code v req = elim (exchange code) [
    | err message ↦ (
      record {
        path = target_path v.return_to;
        params = (codes "error", codes "github_link_failed") ∷ detail (some message);
      },
      req,
    )
    | ok user ↦ elim refused [
      | some message ↦ (
        record {
          path = target_path v.return_to;
          params = (codes "error", codes "github_link_failed") ∷ detail (some message);
        },
        req,
      )
      | none ↦ (
        record { path = target_path v.return_to; params = (codes "github", codes "linked") ∷ [] },
        set_links (link_account wallet_id user req.db.linked_accounts) req,
      )
    ]
  ]

  abbrev pub cancelled : Text → Option Text → Option Text → Text → Result Text Redirect
  cancelled e description state wallet_id = elim (checked state wallet_id) [
    | err message ↦ err message
    | ok v ↦ ok (record {
      path = target_path (return_of v);
      params = (codes "error", github_error e) ∷ detail (truthy description);
    })
  ]

  abbrev pub completed :
      (Text → Result Text GitHubUserProfile)
      → Option Text
      → Option Text
      → Option Text
      → Text
      → Request
      → Result Text Redirect × Request
  completed exchange refused (some code) (some state) wallet_id req =
      elim (verify_oauth_state codec now state wallet_id) [
        | err message ↦ (err message, req)
        | ok none ↦ (ok (home (codes "invalid_oauth_state")), req)
        | ok (some v) ↦
            let (redirect, req') = link exchange refused wallet_id code v req in (ok redirect, req')
      ]
  completed exchange refused _ _ wallet_id req = (ok (home (codes "invalid_oauth_state")), req)

  -- `GET`; a throw of the verification is not caught.
  unfoldable pub callback :
      (Text → Result Text GitHubUserProfile)
      → Option Text
      → Query
      → Visit
      → Result Text Redirect × Visit
  unfolding target_path link_account
  callback exchange refused q visit = elim (get_session_wallet visit.req) [
    | none ↦ (ok (home (codes "not_connected")), visit)
    | some s ↦ elim (truthy q.error) [
      | some e ↦ (
        cancelled e q.error_description (matching_state q visit.oauth_cookie) s.id,
        record { req = visit.req; oauth_cookie = none },
      )
      | none ↦
          let (r, req') =
            completed exchange refused (truthy q.code) (matching_state q visit.oauth_cookie) s.id
              visit.req in
          (r, record { req = req'; oauth_cookie = none })
    ]
  ]
