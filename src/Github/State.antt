-- ===== src/Github/State.antt =====
-- oauth.ts: the state that travels to GitHub and back, signed for one wallet.
use astrea.Prelude.{
  ℕ, ◌*◌, Bool, true, false, ◌&&◌, not, Option, none, some, [], ◌∷◌, ◌++◌, Text, ◌===◌, codes,
  Result, ok, err, if◌then◌else◌, length, ltb, ◌==◌, all, digits,
}
use astrea.Prelude.Int.{ℤ, pos, ◌-ℤ◌, is_positive}
use astrea.Prelude.Json.{Json, JsonFields, member}

-- What the code takes from its platform: the secret, HMAC-SHA256 under it as base64url, JSON as base64url
-- and back, `none` when that throws, and what a numeric literal of JSON means, its whole part.
pub record Codec : Type 0 where
  pub hmac : Text → Text
  pub encode : Json → Text
  pub decode : Text → Option Json
  pub number : Text → ℤ
  pub is_zero : Text → Bool

-- The server signs a text or nothing as `returnTo`.
pub record OAuthStatePayload : Type 0 where
  pub wallet_id : Text
  pub nonce : Text
  pub timestamp : ℕ
  pub return_to : Option Text

-- OAUTH_STATE_TTL_MS
abbrev pub state_ttl_ms : ℕ
state_ttl_ms = 10 * 60 * 1000

-- `JSON.stringify` leaves out what is undefined.
abbrev pub return_field : Option Text → JsonFields
return_field none = JsonFields.end
return_field (some t) = JsonFields.field (codes "returnTo") (Json.str t) JsonFields.end

unfoldable pub payload_json : OAuthStatePayload → Json
payload_json payload = Json.obj (
    JsonFields.field (codes "walletId") (Json.str payload.wallet_id) (
      JsonFields.field (codes "nonce") (Json.str payload.nonce) (
        JsonFields.field (codes "timestamp") (Json.num (digits payload.timestamp))
          (return_field payload.return_to))))

-- What is read of a payload that was verified.
pub record Verified : Type 0 where
  pub wallet : Text
  pub return_to : Option Text

-- `x` as a condition.
abbrev pub is_truthy : Codec → Option Json → Bool
is_truthy codec none = false
is_truthy codec (some Json.null) = false
is_truthy codec (some (Json.bool b)) = b
is_truthy codec (some (Json.num t)) = not (codec.is_zero t)
is_truthy codec (some (Json.str [])) = false
is_truthy codec (some _) = true

-- `Date.now() - timestamp > OAUTH_STATE_TTL_MS`, for a number.
abbrev pub is_fresh : Codec → ℕ → Option Json → Bool
is_fresh codec now (some (Json.num t)) =
    not (is_positive (pos now -ℤ codec.number t -ℤ pos state_ttl_ms))
is_fresh codec now _ = false

abbrev pub text_of : Option Json → Option Text
text_of (some (Json.str t)) = some t
text_of _ = none

-- The wallet's id, if it is the one expected; the routes always expect one.
abbrev pub is_wallet : Text → Option Json → Bool
is_wallet expected (some (Json.str t)) = t === expected
is_wallet expected _ = false

abbrev pub accept : Codec → ℕ → Text → JsonFields → Option Verified
accept codec now expected fs =
    if is_truthy codec (member (codes "walletId") fs)
      && is_truthy codec (member (codes "nonce") fs)
      && is_fresh codec now (member (codes "timestamp") fs)
      && is_wallet expected (member (codes "walletId") fs)
    then some (record { wallet = expected; return_to = text_of (member (codes "returnTo") fs) })
    else none

abbrev pub read_payload : Codec → ℕ → Text → Option Json → Option Verified
read_payload codec now expected (some (Json.obj fs)) = accept codec now expected fs
read_payload codec now expected _ = none

-- The two parts of a text that has one point.
abbrev pub split_point : Text → Option (Text × Text)
split_point [] = none
split_point (c ∷ s) =
    let rest = split_point s in
    if c == b'.'
    then if all (λ d. not (d == b'.')) s then some ([], s) else none
    else elim rest [ none ↦ none | some (a, b) ↦ some (c ∷ a, b) ]

-- Whether the text is as long in UTF-8 as in UTF-16; if not, it is longer.
abbrev pub is_ascii : Text → Bool
is_ascii = all (λ c. ltb c 128)

-- The comparison with the digest, which is ASCII: `timingSafeEqual` throws for buffers of different
-- lengths, so for a text of as many units that is longer in UTF-8.
abbrev pub same_signature : Text → Text → Result Text Bool
same_signature signature expected =
    if length signature == length expected
    then if is_ascii signature
      then ok (signature === expected)
      else err (codes "Input buffers must have the same byte length")
    else ok false

unfoldable pub sign_oauth_state : Codec → OAuthStatePayload → Text
unfolding payload_json
sign_oauth_state codec payload =
    let encoded = codec.encode (payload_json payload) in
    encoded ++ (codes "." ++ codec.hmac encoded)

-- `null` is `none`; the comparison stands outside the `try`.
unfoldable pub verify_oauth_state : Codec → ℕ → Text → Text → Result Text (Option Verified)
verify_oauth_state codec now state expected = elim (split_point state) [
  | none ↦ ok none
  | some (encoded, signature) ↦ elim (same_signature signature (codec.hmac encoded)) [
    | err e ↦ err e
    | ok false ↦ ok none
    | ok true ↦ ok (read_payload codec now expected (codec.decode encoded))
  ]
]
