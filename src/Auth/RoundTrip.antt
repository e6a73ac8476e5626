-- ===== src/Auth/RoundTrip.antt =====
-- A wallet that asks for a nonce and signs it in time is signed in.
use astrea.Prelude.{
  ℕ, ◌+◌, ◌<◌, ◌≡◌, refl, true, false, Option, none, some, [], ◌∷◌, Text, ok, arith, Option-cases,
  Result-cases, Bool-cases, find, find-eq-some, inl, inr,
}
use astrea.Schema.{Db, Wallet}
use astrea.Auth.Crypto.{Crypto, is_address, verify_stellar_signature, format_auth_message}
use astrea.Auth.Nonce.{Issued, nonce_ttl_ms, issue_auth_nonce, consume_auth_nonce}
use astrea.Auth.Nonces.{consume_auth_nonce-issue_auth_nonce}
use astrea.Auth.Email.{EmailInput, validate_optional_email}
use astrea.Auth.Session.{has_address, is_given, upsert_wallet, associate_verified_wallet}
use astrea.Auth.Route.{issued, nonce_route}

upsert_wallet_lem :
    (user_id wallet_id address : Text) (email : EmailInput) (clean : Option Text) (db : Db)
    → (w : Wallet) × ((upsert_wallet user_id wallet_id address email clean db).0 ≡ ok w)
      × (w.address ≡ address)
unfolding upsert_wallet
upsert_wallet_lem user_id wallet_id address email clean db =
    elim (Option-cases (find (has_address address) db.wallets)) [
      | inl missing ↦
          let wallet : Wallet = record {
            id = wallet_id;
            user_id = user_id;
            address = address;
            email = clean;
            profile_public = false;
            usdc_trustline_verified_at = none;
          } in
          (wallet, ground arith, refl)
      | inr (w, found) ↦
          let same = find-eq-some (has_address address) db.wallets w found in
          elim (Bool-cases (is_given email)) [
            | inl given ↦ (record w { email = clean }, ground arith, ground arith)
            | inr missing ↦ (w, ground arith, ground arith)
          ]
    ]

issue_lem :
    (crypto : Crypto) (now : ℕ) (nonce address : Text) (db db' : Db) (i : Issued)
    → issue_auth_nonce crypto now nonce address db ≡ (ok i, db')
    → (is_address crypto address ≡ true)
      × (i.nonce ≡ nonce)
      × (i.message ≡ format_auth_message address nonce)
unfolding issue_auth_nonce
issue_lem crypto now nonce address db db' i h = ground arith

route_lem :
    (crypto : Crypto) (now : ℕ) (nonce address : Text) (db db' : Db) (i : Issued)
    → nonce_route crypto now nonce (some address) db ≡ (issued i, db')
    → issue_auth_nonce crypto now nonce address db ≡ (ok i, db')
unfolding nonce_route
route_lem crypto now nonce [] db db' i h = absurd (ground arith)
route_lem crypto now nonce (c ∷ s) db db' i h =
    elim (Result-cases (issue_auth_nonce crypto now nonce (c ∷ s) db).0) [
      | inl (j, e) ↦ ground arith
      | inr (e, bad) ↦ absurd (ground arith)
    ]

-- An address that the nonce route answered with a nonce is signed in with it, from any browser, when its
-- signature over the message of the answer verifies, less than five minutes have passed, and the e-mail
-- given is absent or well formed: the wallet found or made has that address, and the session is its.
pub associate_verified_wallet-nonce_route :
    (crypto : Crypto) (now later : ℕ) (nonce address signature user_id wallet_id : Text)
    (email : EmailInput) (clean cookie : Option Text) (db db' : Db) (i : Issued)
    → nonce_route crypto now nonce (some address) db ≡ (issued i, db')
    → verify_stellar_signature crypto address i.message signature ≡ true
    → later < now + nonce_ttl_ms
    → validate_optional_email email ≡ ok clean
    → (w : Wallet) × (w.address ≡ address)
      × ((associate_verified_wallet crypto
            (λ d. d)
            later
            user_id
            wallet_id
            address
            signature
            i.nonce
            email
            (record { db = db'; cookie = cookie })).0
          ≡ ok w)
      × ((associate_verified_wallet crypto
            (λ d. d)
            later
            user_id
            wallet_id
            address
            signature
            i.nonce
            email
            (record { db = db'; cookie = cookie })).1.cookie
          ≡ some w.id)
unfolding associate_verified_wallet
associate_verified_wallet-nonce_route crypto now later nonce address signature user_id wallet_id
      email clean cookie db db' i h signed in_time mail =
    let issue = route_lem crypto now nonce address db db' i h in
    let (good, nonce_is, message_is) = issue_lem crypto now nonce address db db' i issue in
    let fresh =
      consume_auth_nonce-issue_auth_nonce crypto now later nonce address address db db' i issue in
    let used : Db = (consume_auth_nonce (λ d. d) later i.nonce address db').1 in
    let (w, made, same) = upsert_wallet_lem user_id wallet_id address email clean used in
    (w, same, ground arith, ground arith)
