-- ===== src/Auth/Crypto.antt =====
-- Addresses and signatures. The Stellar SDK, `node:crypto` and `Buffer` are a parameter.
use astrea.Prelude.{
  ℕ, Bool, true, false, ◌&&◌, ◌||◌, Option, none, some, List, [], ◌∷◌, ◌++◌, Text, codes, leb, ◌==◌,
  if◌then◌else◌, all, length,
}

-- What the code uses of packages that it imports; a Keypair whose `verify` throws is `none`.
pub record Crypto : Type 0 where
  pub is_valid_public_key : Text → Bool
  pub verify : Text → List ℕ → List ℕ → Option Bool
  pub sha256 : List ℕ → List ℕ
  pub utf8 : Text → List ℕ
  pub from_hex : Text → List ℕ
  pub from_base64 : Text → List ℕ

-- `[A-Z2-7]`
abbrev is_base32 : ℕ → Bool
is_base32 c = leb b'A' c && leb c b'Z' || leb b'2' c && leb c b'7'

-- `/^G[A-Z2-7]{55}$/.test(s)`
unfoldable pub is_account_id : Text → Bool
is_account_id [] = false
is_account_id (c ∷ s) = c == b'G' && length s == 55 && all is_base32 s

-- `[0-9a-fA-F]`
abbrev is_hex : ℕ → Bool
is_hex c = leb b'0' c && leb c b'9' || leb b'a' c && leb c b'f' || leb b'A' c && leb c b'F'

abbrev pub auth_message_prefix : Text
auth_message_prefix = codes "Astrea Authentication"

unfoldable pub format_auth_message : Text → Text → Text
format_auth_message address nonce =
    auth_message_prefix ++ (codes "\nAddress: " ++ (address ++ (codes "\nNonce: " ++ nonce)))

module _ (crypto : Crypto) where
  open crypto use {is_valid_public_key, verify, sha256, utf8, from_hex, from_base64}

  unfoldable pub is_address : Text → Bool
  unfolding is_account_id
  is_address address = is_account_id address && is_valid_public_key address

  unfoldable pub sep53_digest : List ℕ → List ℕ
  sep53_digest message = sha256 (utf8 (codes "Stellar Signed Message:\n") ++ message)

  unfoldable pub signature_bytes : Text → List ℕ
  signature_bytes signature =
      if all is_hex signature && length signature == 128
      then from_hex signature
      else from_base64 signature

  -- `verify(a) || verify(b)` in a `try` whose `catch` answers false.
  abbrev pub either : Option Bool → Option Bool → Bool
  either none second = false
  either (some true) second = true
  either (some false) none = false
  either (some false) (some b) = b

  unfoldable pub verify_stellar_signature : Text → Text → Text → Bool
  unfolding is_address signature_bytes sep53_digest
  verify_stellar_signature address message signature =
      let raw = utf8 message in
      let sig = signature_bytes signature in
      is_address address
      && length sig == 64
      && either (verify address (sep53_digest raw) sig) (verify address raw sig)
