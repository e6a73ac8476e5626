-- ===== src/Auth/SignIn.antt =====
-- Who is signed in after `associateVerifiedWallet`.
use astrea.Prelude.{
  ℕ, ◌<◌, ◌≡◌, refl, inl, inr, true, false, Option, none, some, Text, ok, err, find, find-eq-some,
  Bool-cases, Option-cases, arith, Result-cases, Result,
}
use astrea.Schema.{AuthNonce, Db, Wallet}
use astrea.Auth.Crypto.{Crypto, is_address, format_auth_message, verify_stellar_signature}
use astrea.Auth.Nonce.{AuthError, has_nonce, consume_auth_nonce, delete_nonce}
use astrea.Auth.Nonces.{consume_auth_nonce_lem}
use astrea.Auth.Email.{EmailInput, validate_optional_email}
use astrea.Auth.Session.{is_given, Request, has_address, upsert_wallet, associate_verified_wallet}

-- The wallet that is signed in has the address that was proved, whether it was there before or not;
-- no other table changes.
upsert_wallet_lem :
    (user_id wallet_id address : Text) (email : EmailInput) (clean : Option Text) (db db' : Db)
    (r : Result AuthError Wallet)
    → upsert_wallet user_id wallet_id address email clean db ≡ (r, db')
    → (w : Wallet) × (r ≡ ok w) × (w.address ≡ address) × (db'.auth_nonces ≡ db.auth_nonces)
unfolding upsert_wallet
upsert_wallet_lem user_id wallet_id address email clean db db' r h =
    elim (Option-cases (find (has_address address) db.wallets)) [
      | inl new ↦ (
        record {
          id = wallet_id;
          user_id = user_id;
          address = address;
          email = clean;
          profile_public = false;
          usdc_trustline_verified_at = none;
        },
        ground arith,
        refl,
        ground arith,
      )
      | inr (w, e) ↦
          let same = find-eq-some (has_address address) db.wallets w e in
          elim (Bool-cases (is_given email)) [
            | inl set_email ↦ (record w { email = clean }, ground arith, ground arith, ground arith)
            | inr kept ↦ (w, ground arith, ground arith, ground arith)
          ]
    ]

-- What a sign-in that succeeded rests on.
pub record Proved (crypto : Crypto) (now : ℕ) (address signature nonce : Text) (req req' : Request)
    (w : Wallet) : Type 0 where
  pub well_formed : is_address crypto address ≡ true
  pub entry : AuthNonce
  pub issued : find (has_nonce nonce) req.db.auth_nonces ≡ some entry
  pub for_address : entry.address ≡ address
  pub in_time : now < entry.expires_at
  pub signed :
      verify_stellar_signature crypto address (format_auth_message address nonce) signature ≡ true
  pub used_up : find (has_nonce nonce) req'.db.auth_nonces ≡ none
  pub wallet_address : w.address ≡ address
  pub cookie : req'.cookie ≡ some w.id

-- A sign-in succeeds only for a well-formed address, with a nonce that was issued for that address
-- and has not expired, and a valid signature over both; it uses the nonce up and sets the session
-- to a wallet with that address.
pub associate_verified_wallet-Proved :
    (crypto : Crypto) (meanwhile : Db → Db) (now : ℕ)
    (user_id wallet_id address signature nonce : Text) (email : EmailInput) (req req' : Request)
    (w : Wallet)
    → associate_verified_wallet crypto meanwhile now user_id wallet_id address signature nonce email
        req
      ≡ (ok w, req')
    → Proved crypto now address signature nonce req req' w
unfolding associate_verified_wallet
associate_verified_wallet-Proved crypto meanwhile now user_id wallet_id address signature nonce
      email req req' w h =
    elim (Result-cases (validate_optional_email email)) [
      | inr (e, bad) ↦ absurd (ground arith)
      | inl (clean, valid) ↦
          let db₁ = (consume_auth_nonce meanwhile now nonce address req.db).1 in
          let out = upsert_wallet user_id wallet_id address email clean db₁ in
          let consumed : consume_auth_nonce meanwhile now nonce address req.db ≡ (ok true, db₁) =
            ground arith in
          let (entry, issued, for_address, in_time, used) =
            consume_auth_nonce_lem meanwhile now nonce address req.db db₁ consumed in
          let (w', returned, same, kept) =
            upsert_wallet_lem user_id wallet_id address email clean db₁ out.1 out.0 refl in
          record {
            well_formed = ground arith;
            entry = entry;
            issued = issued;
            for_address = for_address;
            in_time = in_time;
            signed = ground arith;
            used_up = ground arith;
            wallet_address = ground arith;
            cookie = ground arith;
          }
    ]

consume_keeps_wallets :
    (now : ℕ) (nonce address : Text) (db : Db)
    → (consume_auth_nonce (λ d. d) now nonce address db).1.wallets ≡ db.wallets
unfolding consume_auth_nonce delete_nonce
consume_keeps_wallets now nonce address db = ground arith

-- A sign-in that fails, at whichever check, changes neither the session nor any wallet.
pub associate_verified_wallet_err :
    (crypto : Crypto) (now : ℕ) (user_id wallet_id address signature nonce : Text)
    (email : EmailInput) (req req' : Request) (e : AuthError)
    → associate_verified_wallet crypto
        (λ d. d)
        now
        user_id
        wallet_id
        address
        signature
        nonce
        email
        req
      ≡ (err e, req')
    → (req'.cookie ≡ req.cookie) × (req'.db.wallets ≡ req.db.wallets)
unfolding associate_verified_wallet
associate_verified_wallet_err crypto now user_id wallet_id address signature nonce email req req' e
      h =
    elim (Result-cases (validate_optional_email email)) [
      | inr (bad, invalid) ↦ ground arith
      | inl (clean, valid) ↦
          let db₁ = (consume_auth_nonce (λ d. d) now nonce address req.db).1 in
          let out = upsert_wallet user_id wallet_id address email clean db₁ in
          let (w, returned, same, kept) =
            upsert_wallet_lem user_id wallet_id address email clean db₁ out.1 out.0 refl in
          ground (arith, consume_keeps_wallets now nonce address req.db)
    ]
