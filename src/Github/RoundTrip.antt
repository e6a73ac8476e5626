-- ===== src/Github/RoundTrip.antt =====
-- A round trip to GitHub that comes back in time ends with the account linked.
use astrea.Prelude.{
  ℕ, ◌+◌, ◌≤◌, ◌≡◌, ◌≢◌, refl, ap, ◌∙◌, Option, none, some, [], ◌∷◌, ◌++◌, Text, codes, Result, ok,
  arith,
}
use astrea.Schema.{Wallet}
use astrea.Auth.Session.{Request, get_session_wallet}
use astrea.Github.State.{
  Codec, OAuthStatePayload, payload_json, state_ttl_ms, sign_oauth_state, verify_oauth_state,
}
use astrea.Github.States.{IsCodec, verify_oauth_state-sign_oauth_state}
use astrea.Github.Callback.{
  GitHubUserProfile, Query, Redirect, Visit, truthy, link_account, target_path, set_links, callback,
  matching_state,
}
use astrea.Github.Start.{Credentials, AuthUrl, to_git_hub, start_state, start, get_git_hub_auth_url}

-- The payload that the start signs.
abbrev pub started : Text → Text → ℕ → Option Text → OAuthStatePayload
started wallet_id nonce now return_to = record {
  wallet_id = wallet_id;
  nonce = nonce;
  timestamp = now;
  return_to = truthy return_to;
}

accepted :
    (codec : Codec) (now later : ℕ) (nonce wallet_id : Text) (return_to : Option Text)
    → IsCodec codec (started wallet_id nonce now return_to)
    → wallet_id ≢ []
    → nonce ≢ []
    → later ≤ now + state_ttl_ms
    → verify_oauth_state codec later (start_state codec now nonce return_to wallet_id) wallet_id
      ≡ ok (some (record { wallet = wallet_id; return_to = truthy return_to }))
accepted codec now later nonce wallet_id return_to c named fresh in_time =
    let step =
      verify_oauth_state-sign_oauth_state codec later (started wallet_id nonce now return_to)
        wallet_id c named fresh in
    ground arith

truthy_lem : (a b : Text) → truthy (some (a ++ b'.' ∷ b)) ≡ some (a ++ b'.' ∷ b)
truthy_lem [] b = refl
truthy_lem (c ∷ a) b = refl

state_nonempty :
    (codec : Codec) (p : OAuthStatePayload)
    → truthy (some (sign_oauth_state codec p)) ≡ some (sign_oauth_state codec p)
unfolding sign_oauth_state
state_nonempty codec p =
    truthy_lem (codec.encode (payload_json p)) (codec.hmac (codec.encode (payload_json p)))

start_lem :
    (codec : Codec) (credentials : Credentials) (callback_url : Text) (now : ℕ) (nonce : Text)
    (return_to : Option Text) (visit visit' : Visit) (s : Wallet) (url : AuthUrl)
    → get_session_wallet visit.req ≡ some s
    → start codec credentials callback_url now nonce return_to visit ≡ (ok (to_git_hub url), visit')
    → (url.state ≡ start_state codec now nonce return_to s.id)
      × (visit'.req ≡ visit.req)
      × (visit'.oauth_cookie ≡ some (start_state codec now nonce return_to s.id))
unfolding start get_git_hub_auth_url
start_lem codec credentials callback_url now nonce return_to visit visit' s url session h =
    ground arith

-- The query with which GitHub answers: a code, and the state that it was given.
abbrev pub answer : Text → Text → Query
answer code state = record {
  code = some code;
  state = some state;
  error = none;
  error_description = none;
}

-- What a visit that was completed answers and leaves.
abbrev linked_visit :
    Wallet → GitHubUserProfile → Option Text → Request → Result Text Redirect × Visit
linked_visit s user return_to req = (
  ok (record { path = target_path return_to; params = (codes "github", codes "linked") ∷ [] }),
  record {
    req = set_links (link_account s.id user req.db.linked_accounts) req;
    oauth_cookie = none;
  },
)

completes :
    (codec : Codec) (later : ℕ) (code state : Text)
    (exchange : Text → Result Text GitHubUserProfile) (user : GitHubUserProfile) (visit : Visit)
    (s : Wallet) (return_to : Option Text)
    → get_session_wallet visit.req ≡ some s
    → code ≢ []
    → matching_state (answer code state) visit.oauth_cookie ≡ some state
    → verify_oauth_state codec later state s.id
      ≡ ok (some (record { wallet = s.id; return_to = return_to }))
    → exchange code ≡ ok user
    → callback codec later exchange none (answer code state) visit
      ≡ linked_visit s user return_to visit.req
unfolding callback
completes codec later [] state exchange user visit s return_to session coded matching checked
      exchanged =
    absurd (coded refl)
completes codec later (c ∷ code) state exchange user visit s return_to session coded matching
      checked exchanged =
    ground arith

-- If the start sent the browser to GitHub, and GitHub sends it back within ten minutes with the state and a
-- code for which it then gives an account, the account is linked to the session's wallet, the cookie is
-- gone, and the browser goes to the path that the start was given, if it is one within the app.
pub callback-start :
    (codec : Codec) (credentials : Credentials) (callback_url : Text) (now later : ℕ)
    (nonce code : Text) (return_to : Option Text) (visit visit' : Visit) (s : Wallet)
    (url : AuthUrl) (exchange : Text → Result Text GitHubUserProfile) (user : GitHubUserProfile)
    → get_session_wallet visit.req ≡ some s
    → IsCodec codec (started s.id nonce now return_to)
    → s.id ≢ []
    → nonce ≢ []
    → code ≢ []
    → later ≤ now + state_ttl_ms
    → start codec credentials callback_url now nonce return_to visit ≡ (ok (to_git_hub url), visit')
    → exchange code ≡ ok user
    → callback codec later exchange none (answer code url.state) visit' ≡ (
      ok (record {
        path = target_path (truthy return_to);
        params = (codes "github", codes "linked") ∷ [];
      }),
      record {
        req = set_links (link_account s.id user visit.req.db.linked_accounts) visit.req;
        oauth_cookie = none;
      },
    )
callback-start codec credentials callback_url now later nonce code return_to visit visit' s url
      exchange user session c named fresh coded in_time h exchanged =
    let (state_is, same, cookie) =
      start_lem codec credentials callback_url now nonce return_to visit visit' s url session h in
    let good = accepted codec now later nonce s.id return_to c named fresh in_time in
    let shown = state_nonempty codec (started s.id nonce now return_to) in
    let there : get_session_wallet visit'.req ≡ some s = ap get_session_wallet same ∙ session in
    let matching : matching_state (answer code url.state) visit'.oauth_cookie ≡ some url.state =
      ground arith in
    let checked : verify_oauth_state codec later url.state s.id
        ≡ ok (some (record { wallet = s.id; return_to = truthy return_to })) =
      ap (λ t. verify_oauth_state codec later t s.id) state_is ∙ good in
    completes codec later code url.state exchange user visit' s (truthy return_to) there coded
      matching checked exchanged
    ∙ ap (linked_visit s user (truthy return_to)) same
