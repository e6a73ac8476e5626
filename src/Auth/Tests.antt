-- ===== src/Auth/Tests.antt =====
-- A sign-in with a toy signature scheme: the signature of a message is its bytes in base64, which the
-- toy decoder leaves alone.
use astrea.Prelude.{
  arith, ◌≡◌, refl, true, false, none, some, [], ◌∷◌, ◌===◌, codes, Text, Text-discrete, ok, err,
  replicate, trim, is_space,
}
use astrea.Schema.{Db, Wallet}
use astrea.Auth.Crypto.{
  Crypto, is_account_id, is_address, verify_stellar_signature, format_auth_message,
}
use astrea.Auth.Nonce.{
  invalid_signature, Issued, issue_auth_nonce, consume_auth_nonce, delete_nonce,
}
use astrea.Auth.Nonces.{consume_auth_nonce_once}
use astrea.Auth.Email.{undefined, given, is_email, validate_optional_email}
use astrea.Auth.Session.{Request, upsert_wallet, associate_verified_wallet}
use astrea.Auth.Route.{nonce_route}
use astrea.Auth.Route
use astrea.Auth.RoundTrip.{associate_verified_wallet-nonce_route}
use astrea.Auth.SignIn.{Proved, associate_verified_wallet-Proved}

-- Accepts one fixed signature of 64 bytes, whatever is signed.
abbrev toy : Crypto
toy = record {
  is_valid_public_key = λ _. true;
  verify = λ _ _ sig. some (sig === replicate 64 b'A');
  sha256 = λ m. m;
  utf8 = λ s. s;
  from_hex = λ s. s;
  from_base64 = λ s. s;
}

abbrev alice : Text
alice = b'G' ∷ replicate 55 b'A'

abbrev empty : Db
empty = record {
  users = [];
  events = [];
  prizes = [];
  judges = [];
  teams = [];
  team_members = [];
  wallets = [];
  linked_accounts = [];
  auth_nonces = [];
}

abbrev issued_db : Db
issued_db = (issue_auth_nonce toy 1000 (codes "n1") alice empty).1

abbrev issued : Issued
issued = record {
  nonce = codes "n1";
  message = format_auth_message alice (codes "n1");
  expires_at = 301000;
}

issues : issue_auth_nonce toy 1000 (codes "n1") alice empty ≡ (ok issued, issued_db)
unfolding issue_auth_nonce is_address is_account_id Text-discrete
issues = refl

emails :
    (validate_optional_email (given (codes " a@b.co ")) ≡ ok (some (codes "a@b.co")))
    × (is_email (codes "a@b@c.co") ≡ false)
    × (is_email (codes "a@.c") ≡ false)
    × (validate_optional_email undefined ≡ ok none)
unfolding validate_optional_email is_email trim is_space
emails = (refl, refl, refl, refl)

consumed : consume_auth_nonce (λ d. d) 2000 (codes "n1") alice issued_db ≡ (ok true, empty)
unfolding consume_auth_nonce delete_nonce issue_auth_nonce is_address is_account_id Text-discrete
consumed = refl

consume_auth_nonce_once_example :
    consume_auth_nonce (λ d. d) 2001 (codes "n1") alice empty ≡ (ok false, empty)
consume_auth_nonce_once_example =
    consume_auth_nonce_once (λ d. d) 2000 2001 (codes "n1") alice alice issued_db empty consumed

abbrev visitor : Request
visitor = record { db = issued_db; cookie = none }

abbrev wallet : Wallet
wallet = record {
  id = codes "w1";
  user_id = codes "u1";
  address = alice;
  email = none;
  profile_public = false;
  usdc_trustline_verified_at = none;
}

abbrev signed_in : Request
signed_in = record {
  db = record empty { users = codes "u1" ∷ []; wallets = wallet ∷ [] };
  cookie = some (codes "w1");
}

signs_in :
    associate_verified_wallet toy
      (λ d. d)
      2000
      (codes "u1")
      (codes "w1")
      alice
      (replicate 64 b'A')
      (codes "n1")
      undefined
      visitor
    ≡ (ok wallet, signed_in)
unfolding associate_verified_wallet validate_optional_email consume_auth_nonce delete_nonce
    verify_stellar_signature upsert_wallet issue_auth_nonce Text-discrete
signs_in = refl

associate_verified_wallet-Proved_example :
    Proved toy 2000 alice (replicate 64 b'A') (codes "n1") visitor signed_in wallet
associate_verified_wallet-Proved_example =
    associate_verified_wallet-Proved toy (λ d. d) 2000 (codes "u1") (codes "w1") alice
      (replicate 64 b'A') (codes "n1") undefined visitor signed_in wallet signs_in

abbrev refused : Request
refused = record { db = empty; cookie = none }

forged :
    associate_verified_wallet toy
      (λ d. d)
      2000
      (codes "u1")
      (codes "w1")
      alice
      (replicate 64 b'B')
      (codes "n1")
      undefined
      visitor
    ≡ (err invalid_signature, refused)
unfolding associate_verified_wallet validate_optional_email consume_auth_nonce delete_nonce
    verify_stellar_signature upsert_wallet issue_auth_nonce Text-discrete
forged = refl

abbrev toy_signature : Text
toy_signature = replicate 64 b'A'

answers : nonce_route toy 1000 (codes "n1") (some alice) empty ≡ (Route.issued issued, issued_db)
unfolding nonce_route issue_auth_nonce is_address is_account_id Text-discrete
answers = refl

no_address :
    nonce_route toy 1000 (codes "n1") (some []) empty
    ≡ (Route.refused 400 (codes "Missing address parameter"), empty)
unfolding nonce_route
no_address = refl

verifies : verify_stellar_signature toy alice issued.message toy_signature ≡ true
unfolding verify_stellar_signature is_account_id Text-discrete
verifies = refl

no_email : validate_optional_email undefined ≡ ok none
unfolding validate_optional_email
no_email = refl

associate_verified_wallet-nonce_route_example :
    (w : Wallet) × (w.address ≡ alice)
    × ((associate_verified_wallet toy
          (λ d. d)
          2000
          (codes "u1")
          (codes "w1")
          alice
          toy_signature
          (codes "n1")
          undefined
          (record { db = issued_db; cookie = none })).0
        ≡ ok w)
    × ((associate_verified_wallet toy
          (λ d. d)
          2000
          (codes "u1")
          (codes "w1")
          alice
          toy_signature
          (codes "n1")
          undefined
          (record { db = issued_db; cookie = none })).1.cookie
        ≡ some w.id)
associate_verified_wallet-nonce_route_example =
    associate_verified_wallet-nonce_route toy 1000 2000 (codes "n1") alice toy_signature
      (codes "u1") (codes "w1") undefined none none empty issued_db issued answers verifies
      (omega arith) no_email
