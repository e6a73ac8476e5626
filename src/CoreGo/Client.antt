-- ===== src/CoreGo/Client.antt =====
-- client.ts: one authenticated request, and how its answer becomes a value or a throw.
use astrea.Prelude.{
  ℕ, Bool, ◌&&◌, Option, none, some, List, [], ◌∷◌, ◌++◌, Text, codes, Action, Result, ok, err,
  if◌then◌else◌, leb, take,
}
use astrea.Prelude.Json.{Json, JsonFields, member}

pub data Method : Type 0 where
  get post : Method

-- What `fetch` is given. The token travels in the Authorization header, the wallet in X-Astrea-Wallet.
pub record HttpRequest : Type 0 where
  pub method : Method
  pub url : Text
  pub path : Text
  pub token : Text
  pub wallet : Text
  pub body : Option Json

-- What it answers; `json` is what `JSON.parse` makes of the text, `none` if that throws.
pub record HttpResponse : Type 0 where
  pub status : ℕ
  pub text : Text
  pub json : Option Json

-- The environment's two variables (env.ts), and what the code takes from its platform: `fetch`, which
-- may throw, `encodeURIComponent`, `String`, the message of the TypeError for reading a property of
-- `null`, and the Stellar SDK's hash of an envelope on the app's network, if it can be read.
pub record Platform : Type 0 where
  pub core_go_url : Option Text
  pub core_go_service_token : Option Text
  pub fetch : HttpRequest → Result Text HttpResponse
  pub encode_uri_component : Text → Text
  pub to_string : Option Json → Text
  pub type_error_message : Text → Text
  pub hash_of_envelope : Text → Option Text

-- The errors that a call may throw; `unknown` is any other error, with its message.
pub data CoreGoThrown : Type 0 where
  core_go_error : ℕ → Text → Text → CoreGoThrown
  transport_error : ℕ → Text → CoreGoThrown
  config_error : Text → CoreGoThrown
  unknown : Text → CoreGoThrown

-- `res.ok`
abbrev pub is_ok : ℕ → Bool
is_ok status = leb 200 status && leb status 299

-- A missing variable and an empty one are both falsy.
abbrev pub check_config : Option Text → Option Text → Result CoreGoThrown (Text × Text)
check_config none token = err (config_error (codes "CORE_GO_URL is not configured"))
check_config (some []) token = err (config_error (codes "CORE_GO_URL is not configured"))
check_config (some (c ∷ u)) none =
    err (config_error (codes "CORE_GO_SERVICE_TOKEN is not configured"))
check_config (some (c ∷ u)) (some []) =
    err (config_error (codes "CORE_GO_SERVICE_TOKEN is not configured"))
check_config (some (c ∷ u)) (some (d ∷ t)) = ok (c ∷ u, d ∷ t)

unfoldable pub config : Platform → Result CoreGoThrown (Text × Text)
config p = check_config p.core_go_url p.core_go_service_token

abbrev pub code_and_message : Option Json → Option Json → Option (Text × Text)
code_and_message (some (Json.str code)) (some (Json.str message)) = some (code, message)
code_and_message _ _ = none

abbrev pub inner_error : Option Json → Option (Text × Text)
inner_error (some (Json.obj fs)) =
    code_and_message (member (codes "code") fs) (member (codes "message") fs)
inner_error _ = none

-- `isErrorBody`, with the code and the message that it vouches for.
unfoldable pub error_body : Json → Option (Text × Text)
error_body (Json.obj fs) = inner_error (member (codes "error") fs)
error_body _ = none

-- From the answer to the value returned or the error thrown.
unfoldable pub read_response : HttpResponse → Result CoreGoThrown Json
unfolding error_body
read_response res = elim res.json [
  | none ↦ err (transport_error res.status (take 200 res.text))
  | some json ↦ if is_ok res.status then ok json else elim (error_body json) [
    | none ↦ err (transport_error res.status (take 200 res.text))
    | some (code, message) ↦ err (core_go_error res.status code message)
  ]
]

-- `body ?? {}` of a POST; a GET has no body.
abbrev pub body_of : Method → Json → Option Json
body_of get body = none
body_of post body = some body

-- `res.name` on a parsed answer; only `null` has no properties at all.
unfoldable pub property_of : Platform → Text → Json → Result CoreGoThrown (Option Json)
property_of p name Json.null = err (unknown (p.type_error_message name))
property_of p name (Json.obj fs) = ok (member name fs)
property_of p name _ = ok none

-- The requests made so far are the state.
unfoldable pub request :
    Platform → Method → Text → Text → Json → Action (List HttpRequest) CoreGoThrown Json
unfolding config read_response
request p method path wallet body sent = elim (config p) [
  | err e ↦ (err e, sent)
  | ok (url, token) ↦
      let req : HttpRequest = record {
        method = method;
        url = url;
        path = path;
        token = token;
        wallet = wallet;
        body = body_of method body;
      } in
      elim (p.fetch req) [
        | err message ↦ (err (unknown message), req ∷ sent)
        | ok res ↦ (read_response res, req ∷ sent)
      ]
]

abbrev pub empty_body : Json
empty_body = Json.obj JsonFields.end

abbrev pub text_field : Text → Text → Json
text_field name value = Json.obj (JsonFields.field name (Json.str value) JsonFields.end)

module _ (p : Platform) where
  -- `/events/${encodeURIComponent(eventId)}/…`
  abbrev pub event_path : Text → Text → Text
  event_path event_id rest = codes "/events/" ++ (p.encode_uri_component event_id ++ rest)

  abbrev pub wallet_path : Text → Text → Text
  wallet_path address rest = codes "/wallets/" ++ (p.encode_uri_component address ++ rest)

  unfoldable pub release_build : Text → Text → Json → Action (List HttpRequest) CoreGoThrown Json
  unfolding request
  release_build event_id wallet assignments =
      request p post (event_path event_id (codes "/release/build")) wallet
        (Json.obj (JsonFields.field (codes "assignments") assignments JsonFields.end))

  unfoldable pub release_submit : Text → Text → Text → Action (List HttpRequest) CoreGoThrown Json
  unfolding request
  release_submit event_id wallet xdr =
      request p post (event_path event_id (codes "/release/submit")) wallet
        (text_field (codes "signedTransactionXdr") xdr)

  unfoldable pub wallet_balance : Text → Text → Action (List HttpRequest) CoreGoThrown Json
  unfolding request
  wallet_balance address wallet =
      request p get (wallet_path address (codes "/balance")) wallet empty_body

  unfoldable pub deposit_build : Text → Text → Text → Action (List HttpRequest) CoreGoThrown Json
  unfolding request
  deposit_build address wallet amount =
      request p post (wallet_path address (codes "/deposit/build")) wallet
        (text_field (codes "amount") amount)

  unfoldable pub deposit_submit :
      Text → Text → Text → Text → Action (List HttpRequest) CoreGoThrown Json
  unfolding request
  deposit_submit address wallet op_id xdr =
      request p post (wallet_path address (codes "/deposit/submit")) wallet (
        Json.obj (
          JsonFields.field (codes "opId") (Json.str op_id)
            (JsonFields.field (codes "signedTransactionXdr") (Json.str xdr) JsonFields.end)))

  unfoldable pub create_build : Text → Text → Action (List HttpRequest) CoreGoThrown Json
  unfolding request
  create_build event_id wallet =
      request p post (event_path event_id (codes "/create/build")) wallet empty_body

  unfoldable pub create_submit : Text → Text → Text → Action (List HttpRequest) CoreGoThrown Json
  unfolding request
  create_submit event_id wallet xdr =
      request p post (event_path event_id (codes "/create/submit")) wallet
        (text_field (codes "signedTransactionXdr") xdr)

  unfoldable pub start_quote : Text → Text → Action (List HttpRequest) CoreGoThrown Json
  unfolding request
  start_quote event_id wallet =
      request p get (event_path event_id (codes "/start/quote")) wallet empty_body

  unfoldable pub start_build : Text → Text → Action (List HttpRequest) CoreGoThrown Json
  unfolding request
  start_build event_id wallet =
      request p post (event_path event_id (codes "/start/build")) wallet empty_body

  unfoldable pub start_submit : Text → Text → Text → Action (List HttpRequest) CoreGoThrown Json
  unfolding request
  start_submit event_id wallet xdr =
      request p post (event_path event_id (codes "/start/submit")) wallet
        (text_field (codes "signedTransactionXdr") xdr)
