-- ===== src/Github/Tests.antt =====
-- A round trip to GitHub with a toy codec, which knows one payload.
use astrea.Prelude.{
  digits, ◌≡◌, ◌⊎◌, refl, false, none, some, List, [], ◌∷◌, codes, Text, Text-discrete, ok, err,
  arith,
}
use astrea.Prelude.Int.{pos, ◌-ℤ◌}
use astrea.Prelude.Json.{Json, JsonFields, member}
use astrea.Schema.{Wallet, LinkedAccount}
use astrea.Auth.Session.{get_session_wallet}
use astrea.Github.State.{
  Codec, OAuthStatePayload, payload_json, sign_oauth_state, verify_oauth_state,
}
use astrea.Github.States.{IsCodec}
use astrea.Github.Callback.{
  GitHubUserProfile, Query, Visit, link_row, link_account, target_path, callback, set_links,
}
use astrea.Github.Start.{
  Credentials, AuthUrl, to_git_hub, start, get_git_hub_auth_url, exchange_code_for_token,
  get_git_hub_user,
}
use astrea.Github.RoundTrip.{answer, callback-start}
use astrea.Github.Links.{OneToOne, link_account-OneToOne, Linked, callback_lem}

abbrev payload : OAuthStatePayload
payload = record {
  wallet_id = codes "w1";
  nonce = codes "n";
  timestamp = 1000;
  return_to = some (codes "/profile");
}

abbrev toy : Codec
toy = record {
  hmac = λ _. codes "sig";
  encode = λ _. codes "abc";
  decode = λ _. some (payload_json payload);
  number = λ _. pos 1000;
  is_zero = λ _. false;
}

abbrev signed : Text
signed = codes "abc.sig"

verified :
    verify_oauth_state toy 2000 signed (codes "w1")
    ≡ ok (some (record { wallet = codes "w1"; return_to = some (codes "/profile") }))
unfolding verify_oauth_state payload_json member ◌-ℤ◌ Text-discrete
verified = refl

paths :
    (sign_oauth_state toy payload ≡ signed)
    × (verify_oauth_state toy 601001 signed (codes "w1") ≡ ok none)
    × (verify_oauth_state toy 2000 signed (codes "w2") ≡ ok none)
    × (target_path (some (codes "//evil.example")) ≡ codes "/")
    × (target_path (some (codes "/\\evil.example")) ≡ codes "/\\evil.example")
unfolding verify_oauth_state sign_oauth_state payload_json member ◌-ℤ◌ target_path Text-discrete
paths = (refl, refl, refl, refl, refl)

is_codec : IsCodec toy payload
is_codec = record {
  decodes = refl;
  encode_pointless = refl;
  hmac_pointless = λ t. refl;
  hmac_ascii = λ t. refl;
  number_digits = refl;
}

abbrev user : GitHubUserProfile
user = record { id = codes "7"; login = codes "ann"; avatar_url = []; html_url = [] }

abbrev rows : List LinkedAccount
rows = link_row (codes "w2") user ∷ []

one_to_one : OneToOne rows
one_to_one = record { per_wallet = λ v. ground arith; per_account = λ v. ground arith }

link_account-OneToOne_example : OneToOne (link_account (codes "w1") user rows)
link_account-OneToOne_example = link_account-OneToOne (codes "w1") user rows one_to_one

abbrev wallet : Wallet
wallet = record {
  id = codes "w1";
  user_id = codes "u1";
  address = codes "GA";
  email = none;
  profile_public = false;
  usdc_trustline_verified_at = none;
}

abbrev visit : Visit
visit = record {
  req = record {
    db = record {
      users = [];
      events = [];
      prizes = [];
      judges = [];
      teams = [];
      team_members = [];
      wallets = wallet ∷ [];
      linked_accounts = rows;
      auth_nonces = [];
    };
    cookie = some (codes "w1");
  };
  oauth_cookie = some signed;
}

session : get_session_wallet visit.req ≡ some wallet
unfolding get_session_wallet Text-discrete
session = refl

abbrev query : Query
query = record {
  code = some (codes "c");
  state = some signed;
  error = none;
  error_description = none;
}

links :
    (callback toy 2000 (λ _. ok user) none query visit).1.req
    ≡ set_links (link_row (codes "w1") user ∷ []) visit.req
unfolding callback get_session_wallet link_account verify_oauth_state payload_json member ◌-ℤ◌
    Text-discrete
links = refl

callback_lem_example :
    let (r, visit') = callback toy 2000 (λ _. ok user) none query visit in
    (visit'.req ≡ visit.req) ⊎ Linked toy 2000 (λ _. ok user) none query visit visit'
callback_lem_example = callback_lem toy 2000 (λ _. ok user) none query visit

abbrev credentials : Credentials
credentials = record { client_id = some (codes "id"); client_secret = some (codes "key") }

abbrev sent_off : Visit
sent_off = record visit { oauth_cookie = none }

abbrev url : AuthUrl
url = record {
  client_id = codes "id";
  state = signed;
  scope = codes "read:user user:email";
  redirect_uri = some (codes "https://app/cb");
}

starts :
    start toy credentials
      (codes "https://app/cb")
      1000
      (codes "n")
      (some (codes "/profile"))
      sent_off
    ≡ (ok (to_git_hub url), visit)
unfolding start get_git_hub_auth_url sign_oauth_state payload_json get_session_wallet Text-discrete
starts = refl

tokens :
    (exchange_code_for_token credentials
        (λ _. ok (record {
          status = 200;
          json = some (
              Json.obj
                (JsonFields.field (codes "access_token") (Json.str (codes "tok")) JsonFields.end));
        }))
        (codes "c")
        none
      ≡ ok (codes "tok"))
    × (exchange_code_for_token credentials
          (λ _. ok (record { status = 502; json = none }))
          (codes "c")
          none
        ≡ err (codes "GitHub token exchange failed: HTTP 502"))
    × (get_git_hub_user
          (λ _. ok (record { status = 200; json = none }))
          (λ _. ok user)
          (codes "tok")
        ≡ ok user)
unfolding exchange_code_for_token get_git_hub_user member Text-discrete digits
tokens = (refl, refl, refl)

callback-start_example : callback toy 2000 (λ _. ok user) none (answer (codes "c") signed) visit ≡ (
  ok (record {
    path = target_path (some (codes "/profile"));
    params = (codes "github", codes "linked") ∷ [];
  }),
  record { req = set_links (link_account (codes "w1") user rows) visit.req; oauth_cookie = none },
)
callback-start_example =
    callback-start toy credentials (codes "https://app/cb") 1000 2000 (codes "n") (codes "c")
      (some (codes "/profile")) sent_off visit wallet url (λ _. ok user) user session is_codec
      (λ e. ground arith) (λ e. ground arith) (λ e. ground arith) (omega arith) starts refl
