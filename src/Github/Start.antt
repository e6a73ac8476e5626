-- ===== src/Github/Start.antt =====
-- start/route.ts, and the calls of GitHub in oauth.ts: the authorization URL, the token and the profile.
use astrea.Prelude.{
  ℕ, Bool, Option, none, some, ◌∷◌, ◌++◌, Text, codes, Result, ok, err, digits, if◌then◌else◌, leb,
  ◌&&◌,
}
use astrea.Prelude.Json.{Json, JsonFields, member}
use astrea.Auth.Session.{get_session_wallet}
use astrea.Github.State.{Codec, sign_oauth_state}
use astrea.Github.Callback.{GitHubUserProfile, Redirect, Visit, home, truthy}

-- GITHUB_CLIENT_ID and GITHUB_CLIENT_SECRET.
pub record Credentials : Type 0 where
  pub client_id : Option Text
  pub client_secret : Option Text

-- The page of GitHub that the browser is sent to, by the parameters that are set on its URL.
pub record AuthUrl : Type 0 where
  pub client_id : Text
  pub state : Text
  pub scope : Text
  pub redirect_uri : Option Text

-- `clientId || env.GITHUB_CLIENT_ID`
abbrev pub active_client_id : Option Text → Option Text → Option Text
active_client_id (some (c ∷ s)) configured = some (c ∷ s)
active_client_id _ configured = truthy configured

unfoldable pub get_git_hub_auth_url :
    Credentials → Text → Option Text → Option Text → Result Text AuthUrl
get_git_hub_auth_url credentials state redirect_uri client_id =
    elim (active_client_id client_id credentials.client_id) [
      | none ↦ err (codes "GITHUB_CLIENT_ID is not configured")
      | some id ↦ ok (record {
        client_id = id;
        state = state;
        scope = codes "read:user user:email";
        redirect_uri = truthy redirect_uri;
      })
    ]

-- What `fetch` answers GitHub's two calls with; `json` is `none` if reading the body throws.
pub record GitHubResponse : Type 0 where
  pub status : ℕ
  pub json : Option Json

pub record TokenRequest : Type 0 where
  pub client_id : Text
  pub client_secret : Text
  pub code : Text
  pub redirect_uri : Option Text

abbrev pub is_fine : ℕ → Bool
is_fine status = leb 200 status && leb status 299

-- A text that is a condition: a member that is a nonempty text.
abbrev pub text_member : Text → JsonFields → Option Text
text_member name fs = elim (member name fs) [
  | none ↦ none
  | some (Json.str (c ∷ s)) ↦ some (c ∷ s)
  | some _ ↦ none
]

-- `data.error_description || data.error || …`
abbrev pub failure_text : Option Text → Option Text → Text
failure_text (some d) e = d
failure_text none (some e) = e
failure_text none none = codes "Failed to obtain access token"

abbrev pub token_of : Option Text → Option Text → Option Text → Result Text Text
token_of none (some token) description = ok token
token_of e token description = err (failure_text description e)

abbrev pub token_of_json : Option Json → Result Text Text
token_of_json (some (Json.obj fs)) =
    token_of (text_member (codes "error") fs) (text_member (codes "access_token") fs)
      (text_member (codes "error_description") fs)
token_of_json (some _) = err (codes "Failed to obtain access token")
token_of_json none = err (codes "Unexpected end of JSON input")

-- GitHub's members are texts or missing.
unfoldable pub exchange_code_for_token :
    Credentials
    → (TokenRequest → Result Text GitHubResponse)
    → Text
    → Option Text
    → Result Text Text
exchange_code_for_token credentials fetch code redirect_uri = elim (truthy credentials.client_id) [
  | none ↦ err (codes "GitHub OAuth credentials are not configured")
  | some id ↦ elim (truthy credentials.client_secret) [
    | none ↦ err (codes "GitHub OAuth credentials are not configured")
    | some secret ↦
        elim (fetch (record {
          client_id = id;
          client_secret = secret;
          code = code;
          redirect_uri = truthy redirect_uri;
        })) [
          | err message ↦ err message
          | ok res ↦
              if is_fine res.status
              then token_of_json res.json
              else err (codes "GitHub token exchange failed: HTTP " ++ digits res.status)
        ]
  ]
]

-- `profile` reads GitHub's user off the body.
unfoldable pub get_git_hub_user :
    (Text → Result Text GitHubResponse)
    → (Option Json → Result Text GitHubUserProfile)
    → Text
    → Result Text GitHubUserProfile
get_git_hub_user fetch profile token = elim (fetch token) [
  | err message ↦ err message
  | ok res ↦
      if is_fine res.status
      then profile res.json
      else err (codes "Failed to fetch GitHub user: HTTP " ++ digits res.status)
]

-- Where the start sends the browser: back home with an error, or to GitHub.
pub data StartReply : Type 0 where
  back_home : Redirect → StartReply
  to_git_hub : AuthUrl → StartReply

abbrev pub is_configured : Credentials → Option Text
is_configured credentials = elim (truthy credentials.client_id) [
  | none ↦ none
  | some id ↦ truthy credentials.client_secret
]

-- The state that is signed for the session's wallet.
abbrev pub start_state : Codec → ℕ → Text → Option Text → Text → Text
start_state codec now nonce return_to wallet_id =
    sign_oauth_state codec (record {
      wallet_id = wallet_id;
      nonce = nonce;
      timestamp = now;
      return_to = truthy return_to;
    })

-- `GET`; `nonce` is the fresh UUID and `callback_url` the absolute URL of the callback.
unfoldable pub start :
    Codec → Credentials → Text → ℕ → Text → Option Text → Visit → Result Text StartReply × Visit
unfolding get_git_hub_auth_url
start codec credentials callback_url now nonce return_to visit =
    elim (get_session_wallet visit.req) [
      | none ↦ (ok (back_home (home (codes "not_connected"))), visit)
      | some s ↦ elim (is_configured credentials) [
        | none ↦ (ok (back_home (home (codes "github_not_configured"))), visit)
        | some secret ↦
            elim (get_git_hub_auth_url credentials (start_state codec now nonce return_to s.id)
              (some callback_url) none) [
                | err message ↦ (err message, visit)
                | ok url ↦ (
                  ok (to_git_hub url),
                  record {
                    req = visit.req;
                    oauth_cookie = some (start_state codec now nonce return_to s.id);
                  },
                )
              ]
      ]
    ]
