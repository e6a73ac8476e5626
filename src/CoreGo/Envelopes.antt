-- ===== src/CoreGo/Envelopes.antt =====
-- What a request to services/core-go comes to: the answer's value, or Go's refusal word for word.
use astrea.Prelude.{
  ℕ, ◌≡◌, ◌≢◌, ◌↔◌, refl, sym, ap, inl, inr, false, Option, none, some, List, [], ◌∷◌, Text, codes,
  Result, ok, err, arith, Option-cases, Result-cases, Bool-cases,
}
use astrea.Prelude.Json.{Json, JsonFields, member}
use astrea.CoreGo.Client.{
  Method, HttpRequest, HttpResponse, Platform, CoreGoThrown, core_go_error, config_error, is_ok,
  config, error_body, check_config, read_response, body_of, request, code_and_message, inner_error,
}

-- `{ "error": { "code": …, "message": … } }`, both strings.
pub record IsEnvelope (json : Json) (code message : Text) : Type 0 where
  pub fields : JsonFields
  pub inner : JsonFields
  pub is_object : json ≡ Json.obj fields
  pub has_error : member (codes "error") fields ≡ some (Json.obj inner)
  pub has_code : member (codes "code") inner ≡ some (Json.str code)
  pub has_message : member (codes "message") inner ≡ some (Json.str message)

-- The request that is sent under a configuration.
abbrev pub request_of : Text × Text → Method → Text → Text → Json → HttpRequest
request_of (url, token) method path wallet body = record {
  method = method;
  url = url;
  path = path;
  token = token;
  wallet = wallet;
  body = body_of method body;
}

code_and_message_inv :
    (c m : Option Json) (code message : Text)
    → code_and_message c m ≡ some (code, message)
    → (c ≡ some (Json.str code)) × (m ≡ some (Json.str message))
code_and_message_inv (some (Json.str c)) (some (Json.str m)) code message h = ground arith
code_and_message_inv c m code message h = absurd (ground arith)

inner_error_inv :
    (e : Option Json) (code message : Text)
    → inner_error e ≡ some (code, message)
    → (gs : JsonFields) × (e ≡ some (Json.obj gs))
      × (code_and_message (member (codes "code") gs) (member (codes "message") gs)
          ≡ some (code, message))
inner_error_inv (some (Json.obj gs)) code message h = (gs, refl, h)
inner_error_inv e code message h = absurd (ground arith)

error_body_sound :
    (json : Json) (code message : Text)
    → error_body json ≡ some (code, message)
    → IsEnvelope json code message
unfolding error_body
error_body_sound (Json.obj fs) code message h =
    let (gs, has_error, h') = inner_error_inv (member (codes "error") fs) code message h in
    let (has_code, has_message) =
      code_and_message_inv (member (codes "code") gs) (member (codes "message") gs) code message
        h' in
    record {
      fields = fs;
      inner = gs;
      is_object = refl;
      has_error = has_error;
      has_code = has_code;
      has_message = has_message;
    }
error_body_sound json code message h = absurd (ground arith)

error_body_complete :
    (json : Json) (code message : Text)
    → IsEnvelope json code message
    → error_body json ≡ some (code, message)
unfolding error_body
error_body_complete json code message e =
    rw (e.is_object, e.has_error, e.has_code, e.has_message) refl

-- Go refused: the request was sent, and its answer is not 2xx and parses to the envelope.
pub record IsRefused (p : Platform) (req : Text × Text → HttpRequest) (status : ℕ)
    (code message : Text) : Type 0 where
  pub settings : Text × Text
  pub configured : config p ≡ ok settings
  pub res : HttpResponse
  pub answered : p.fetch (req settings) ≡ ok res
  pub same_status : res.status ≡ status
  pub not_ok : is_ok status ≡ false
  pub json : Json
  pub parsed : res.json ≡ some json
  pub envelope : IsEnvelope json code message

err_injective :
    {A : Type 0} {a b : CoreGoThrown} → Path (Result CoreGoThrown A) (err a) (err b) → a ≡ b
err_injective h = ground arith

check_config_err :
    (u t : Option Text) (e : CoreGoThrown)
    → check_config u t ≡ err e
    → (m : Text) × (e ≡ config_error m)
check_config_err none t e h = (_, sym (err_injective h))
check_config_err (some []) t e h = (_, sym (err_injective h))
check_config_err (some (c ∷ u)) none e h = (_, sym (err_injective h))
check_config_err (some (c ∷ u)) (some []) e h = (_, sym (err_injective h))
check_config_err (some (c ∷ u)) (some (d ∷ t)) e h = absurd (ground arith)

config_err :
    (p : Platform) (e : CoreGoThrown) (s : ℕ) (c m : Text)
    → config p ≡ err e
    → e ≢ core_go_error s c m
unfolding config
config_err p e s c m h same =
    let (text, is_config) = check_config_err p.core_go_url p.core_go_service_token e h in
    ground arith

read_response_sound :
    (res : HttpResponse) (status : ℕ) (code message : Text)
    → read_response res ≡ err (core_go_error status code message)
    → (json : Json) × (res.json ≡ some json)
      × (res.status ≡ status)
      × (is_ok status ≡ false)
      × IsEnvelope json code message
unfolding read_response
read_response_sound res status code message h = elim (Option-cases res.json) [
  | inl missing ↦ absurd (ground arith)
  | inr (json, parsed) ↦ elim (Bool-cases (is_ok res.status)) [
    | inl fine ↦ absurd (ground arith)
    | inr bad ↦ elim (Option-cases (error_body json)) [
      | inl other ↦ absurd (ground arith)
      | inr ((c, m), body) ↦ (
        json,
        parsed,
        ground arith,
        ground arith,
        error_body_sound json code message (ground arith),
      )
    ]
  ]
]

module _ (p : Platform) (method : Method) (path wallet : Text) (body : Json)
    (sent : List HttpRequest) where
  abbrev Refused : ℕ → Text → Text → Type 0
  Refused = IsRefused p (λ s. request_of s method path wallet body)

  request_sound :
      (status : ℕ) (code message : Text)
      → (request p method path wallet body sent).0 ≡ err (core_go_error status code message)
      → Refused status code message
  unfolding request
  request_sound status code message h = elim (Result-cases (config p)) [
    | inr (e, bad) ↦ absurd (config_err p e status code message bad (ground arith))
    | inl (settings, configured) ↦
        elim (Result-cases (p.fetch (request_of settings method path wallet body))) [
          | inr (e, failed) ↦ absurd (ground arith)
          | inl (res, answered) ↦
              let (json, parsed, same_status, not_ok, envelope) =
                read_response_sound res status code message (ground arith) in
              record {
                settings = settings;
                configured = configured;
                res = res;
                answered = answered;
                same_status = same_status;
                not_ok = not_ok;
                json = json;
                parsed = parsed;
                envelope = envelope;
              }
        ]
  ]

  pub request_complete :
      (status : ℕ) (code message : Text)
      → (r : Refused status code message)
      → request p method path wallet body sent ≡ (
        err (core_go_error status code message),
        request_of r.settings method path wallet body ∷ sent,
      )
  unfolding request read_response
  request_complete status code message r =
      let configured = r.configured in
      let answered = r.answered in
      let parsed = r.parsed in
      let body' = error_body_complete r.json code message r.envelope in
      let same_status = r.same_status in let not_ok = r.not_ok in ground arith

-- A request throws Go's refusal exactly if it was sent, under the two variables, and its answer is not
-- 2xx and parses to the error envelope; the refusal has the answer's status and the envelope's code and
-- message.
pub request_err_iff :
    (p : Platform) (method : Method) (path wallet : Text) (body : Json) (sent : List HttpRequest)
    (status : ℕ) (code message : Text)
    → ((request p method path wallet body sent).0 ≡ err (core_go_error status code message))
      ↔ IsRefused p (λ s. request_of s method path wallet body) status code message
request_err_iff p method path wallet body sent status code message = (
  request_sound p method path wallet body sent status code message,
  λ r. ap (λ t. t.0) (request_complete p method path wallet body sent status code message r),
)
