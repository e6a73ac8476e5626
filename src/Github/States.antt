-- ===== src/Github/States.antt =====
-- What a signed state is worth when it comes back.
use astrea.Prelude.{
  ℕ, ◌+◌, ◌≡◌, ◌≢◌, refl, ap, ◌∙◌, inl, inr, true, false, ◌&&◌, not, Option, none, some, [], ◌∷◌,
  ◌++◌, Text, Text-discrete, ◌===◌, codes, ok, err, arith, Option-cases, Result-cases, Bool-cases,
  if◌then◌else◌, length, ltb, ◌==◌, all, digits,
}
use astrea.Prelude.Int.{pos, ◌-ℤ◌, is_positive}
use astrea.Prelude.Json.{Json, JsonFields, member}
use astrea.Github.State.{
  Codec, OAuthStatePayload, state_ttl_ms, payload_json, Verified, is_fresh, is_wallet, read_payload,
  split_point, is_ascii, same_signature, sign_oauth_state, verify_oauth_state,
}

-- A text without a point.
abbrev pub Pointless : Text → Type 0
Pointless s = all (λ d. not (d == b'.')) s ≡ true

-- Base64url and JSON as they are documented, for one payload: what was encoded is decoded, the alphabet has
-- no point, and a whole number's literal is its digits.
pub record IsCodec (codec : Codec) (p : OAuthStatePayload) : Type 0 where
  pub decodes : codec.decode (codec.encode (payload_json p)) ≡ some (payload_json p)
  pub encode_pointless : Pointless (codec.encode (payload_json p))
  pub hmac_pointless : (t : Text) → Pointless (codec.hmac t)
  pub hmac_ascii : (t : Text) → is_ascii (codec.hmac t) ≡ true
  pub number_digits : codec.number (digits p.timestamp) ≡ pos p.timestamp

split_point_lem :
    (a b : Text) → Pointless a → Pointless b → split_point (a ++ b'.' ∷ b) ≡ some (a, b)
split_point_lem [] b ha hb = ground arith
split_point_lem (c ∷ a) b ha hb = ground (arith, split_point_lem a b)

split_point_inv : (s a b : Text) → split_point s ≡ some (a, b) → s ≡ a ++ b'.' ∷ b
split_point_inv [] a b h = absurd (ground arith)
split_point_inv (c ∷ s) a b h = elim (Bool-cases (c == b'.')) [
  | inl point ↦ elim (Bool-cases (all (λ d. not (d == b'.')) s)) [
    | inl clean ↦ ground arith
    | inr more ↦ absurd (ground arith)
  ]
  | inr other ↦ elim (Option-cases (split_point s)) [
    | inl missing ↦ absurd (ground arith)
    | inr ((a', b'), found) ↦
        let split = split_point_inv s a' b' found in
        let longer : c ∷ a' ≡ a = ground arith in
        let same : b' ≡ b = ground arith in
        ap (λ x. c ∷ x) split ∙ (ap (λ x. x ++ b'.' ∷ b') longer ∙ ap (λ x. a ++ b'.' ∷ x) same)
  ]
]

same_signature_refl : (s : Text) → is_ascii s ≡ true → same_signature s s ≡ ok true
same_signature_refl s h = ground arith

fresh_lem :
    (now t : ℕ) → is_positive (pos now -ℤ pos t -ℤ pos state_ttl_ms) ≡ ltb (t + state_ttl_ms) now
unfolding ◌-ℤ◌
fresh_lem now t = ground arith

read_payload_lem :
    (codec : Codec) (now : ℕ) (p : OAuthStatePayload) (expected : Text)
    → IsCodec codec p
    → p.wallet_id ≢ []
    → p.nonce ≢ []
    → read_payload codec now expected (some (payload_json p)) ≡ (
        if p.wallet_id === expected && not (ltb (p.timestamp + state_ttl_ms) now)
        then some (record { wallet = expected; return_to = p.return_to })
        else none)
unfolding payload_json member Text-discrete
read_payload_lem codec now p expected c named fresh =
    let value = c.number_digits in let age = fresh_lem now p.timestamp in ground arith

verified :
    (codec : Codec) (now : ℕ) (state expected a b : Text) (j : Json)
    → split_point state ≡ some (a, b)
    → same_signature b (codec.hmac a) ≡ ok true
    → codec.decode a ≡ some j
    → verify_oauth_state codec now state expected ≡ ok (read_payload codec now expected (some j))
unfolding verify_oauth_state
verified codec now state expected a b j split signed decoded =
    rw (verify_oauth_state, split, signed, decoded) refl

signature_lem : (s t : Text) → same_signature s t ≡ ok true → s ≡ t
signature_lem s t h = ground arith

fresh_inv :
    (codec : Codec) (now : ℕ) (j : Option Json)
    → is_fresh codec now j ≡ true
    → (t : Text) × (j ≡ some (Json.num t))
      × (is_positive (pos now -ℤ codec.number t -ℤ pos state_ttl_ms) ≡ false)
fresh_inv codec now (some (Json.num t)) h = (t, refl, ground arith)
fresh_inv codec now j h = absurd (ground arith)

wallet_inv :
    (expected : Text) (j : Option Json) → is_wallet expected j ≡ true → j ≡ some (Json.str expected)
wallet_inv expected (some (Json.str t)) h =
    let same : t ≡ expected = ground arith in ap (λ x. some (Json.str x)) same
wallet_inv expected j h = absurd (ground arith)

-- A text with the server's digest of it, which decodes to the payload of the wallet, made ten minutes
-- ago at most.
pub record Signed (codec : Codec) (now : ℕ) (wallet_id state : Text) : Type 0 where
  pub encoded : Text
  pub joined : state ≡ encoded ++ b'.' ∷ codec.hmac encoded
  pub payload : JsonFields
  pub decoded : codec.decode encoded ≡ some (Json.obj payload)
  pub names : member (codes "walletId") payload ≡ some (Json.str wallet_id)
  pub timestamp : Text
  pub stamped : member (codes "timestamp") payload ≡ some (Json.num timestamp)
  pub fresh : is_positive (pos now -ℤ codec.number timestamp -ℤ pos state_ttl_ms) ≡ false

accept_lem :
    (codec : Codec) (now : ℕ) (expected : Text) (j : Option Json) (v : Verified)
    → read_payload codec now expected j ≡ some v
    → (v.wallet ≡ expected)
      × ((fs : JsonFields) × (j ≡ some (Json.obj fs))
          × (is_wallet expected (member (codes "walletId") fs) ≡ true)
          × (is_fresh codec now (member (codes "timestamp") fs) ≡ true))
accept_lem codec now expected none v h = absurd (ground arith)
accept_lem codec now expected (some (Json.obj fs)) v h =
    (ground arith, (fs, refl, ground arith, ground arith))
accept_lem codec now expected (some j) v h = absurd (ground arith)

-- A state that the server signed for a wallet is accepted for that wallet, with its `returnTo`, until ten
-- minutes have passed since it was signed, and for no other wallet.
pub verify_oauth_state-sign_oauth_state :
    (codec : Codec) (now : ℕ) (p : OAuthStatePayload) (expected : Text)
    → IsCodec codec p
    → p.wallet_id ≢ []
    → p.nonce ≢ []
    → verify_oauth_state codec now (sign_oauth_state codec p) expected
      ≡ ok (
          if p.wallet_id === expected && not (ltb (p.timestamp + state_ttl_ms) now)
          then some (record { wallet = expected; return_to = p.return_to })
          else none)
unfolding verify_oauth_state sign_oauth_state
verify_oauth_state-sign_oauth_state codec now p expected c named fresh =
    let e = codec.encode (payload_json p) in
    let split = split_point_lem e (codec.hmac e) c.encode_pointless (c.hmac_pointless e) in
    let signed = same_signature_refl (codec.hmac e) (c.hmac_ascii e) in
    let decoded = c.decodes in
    verified codec now (sign_oauth_state codec p) expected e (codec.hmac e) (payload_json p) split
      signed decoded
    ∙ ap ok (read_payload_lem codec now p expected c named fresh)

-- What is accepted was signed for the wallet expected, within the last ten minutes.
pub verify_oauth_state_lem :
    (codec : Codec) (now : ℕ) (state expected : Text) (v : Verified)
    → verify_oauth_state codec now state expected ≡ ok (some v)
    → (v.wallet ≡ expected) × Signed codec now expected state
unfolding verify_oauth_state
verify_oauth_state_lem codec now state expected v h = elim (Option-cases (split_point state)) [
  | inl missing ↦ absurd (ground arith)
  | inr ((encoded, signature), found) ↦
      let split = split_point_inv state encoded signature found in
      elim (Result-cases (same_signature signature (codec.hmac encoded))) [
        | inr (e, thrown) ↦ absurd (ground arith)
        | inl (false, other) ↦ absurd (ground arith)
        | inl (true, same) ↦
            let signed = signature_lem signature (codec.hmac encoded) same in
            let (mine, (fs, decoded, named, made)) =
              accept_lem codec now expected (codec.decode encoded) v (ground arith) in
            let (t, stamped, fresh) = fresh_inv codec now (member (codes "timestamp") fs) made in
            (
              mine,
              record {
                encoded = encoded;
                joined = split ∙ ap (λ x. encoded ++ b'.' ∷ x) signed;
                payload = fs;
                decoded = decoded;
                names = wallet_inv expected (member (codes "walletId") fs) named;
                timestamp = t;
                stamped = stamped;
                fresh = fresh;
              },
            )
      ]
]

-- A signature that has the digest's number of UTF-16 units, but not its bytes in UTF-8, makes the
-- verification throw, whatever the payload.
pub verify_oauth_state_err :
    (codec : Codec) (now : ℕ) (encoded signature expected : Text)
    → Pointless encoded
    → Pointless signature
    → length signature ≡ length (codec.hmac encoded)
    → is_ascii signature ≡ false
    → verify_oauth_state codec now (encoded ++ b'.' ∷ signature) expected
      ≡ err (codes "Input buffers must have the same byte length")
unfolding verify_oauth_state
verify_oauth_state_err codec now encoded signature expected he hs long wide =
    let split = split_point_lem encoded signature he hs in
    let thrown : same_signature signature (codec.hmac encoded)
        ≡ err (codes "Input buffers must have the same byte length") =
      ground arith in
    rw (verify_oauth_state, split, thrown) refl
