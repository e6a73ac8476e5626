-- ===== src/Auth/Session.antt =====
-- session.ts. The tables and the session cookie are the state of a request.
use astrea.Prelude.{
  ℕ, Bool, true, false, not, ◌&&◌, Option, none, some, List, [], ◌∷◌, Text, ◌===◌, Action, ok, err,
  ◌>>=◌, ◌>>◌, pure, modify, throw_if, from_result, find,
}
use astrea.Schema.{Db, Wallet, LinkedAccount}
use astrea.Schema.Table.{update_where}
use astrea.Auth.Crypto.{Crypto, is_address, format_auth_message, verify_stellar_signature}
use astrea.Auth.Nonce.{
  AuthError, invalid_address, invalid_nonce, invalid_signature, not_authenticated,
  consume_auth_nonce,
}
use astrea.Auth.Email.{EmailInput, undefined, validate_optional_email}

pub record Request : Type 0 where
  pub db : Db
  pub cookie : Option Text

-- An action on the tables alone.
abbrev pub on_db : {E A : Type 0} → Action Db E A → Action Request E A
on_db m req = let (r, db') = m req.db in (r, record req { db = db' })

abbrev pub has_address : Text → Wallet → Bool
has_address address w = w.address === address

abbrev pub has_id : Text → Wallet → Bool
has_id id w = w.id === id

abbrev pub set_wallets : List Wallet → Db → Db
set_wallets ws db = record db { wallets = ws }

abbrev pub is_given : EmailInput → Bool
is_given undefined = false
is_given _ = true

-- The wallet of an address: a new row with a new user, or the row there is, with its e-mail set when
-- one was passed. The ids of new rows are arguments.
unfoldable pub upsert_wallet :
    Text → Text → Text → EmailInput → Option Text → Action Db AuthError Wallet
upsert_wallet user_id wallet_id address email clean db =
    elim (find (has_address address) db.wallets) [
      | none ↦
          let wallet : Wallet = record {
            id = wallet_id;
            user_id = user_id;
            address = address;
            email = clean;
            profile_public = false;
            usdc_trustline_verified_at = none;
          } in
          (ok wallet, record db { users = user_id ∷ db.users; wallets = wallet ∷ db.wallets })
      | some wallet ↦ elim (is_given email) [
        | true ↦ (
          ok (record wallet { email = clean }),
          set_wallets (update_where (has_id wallet.id) (λ w. record w { email = clean }) db.wallets)
              db,
        )
        | false ↦ (ok wallet, db)
      ]
    ]

unfoldable pub associate_verified_wallet :
    Crypto
    → (Db → Db)
    → ℕ
    → Text
    → Text
    → Text
    → Text
    → Text
    → EmailInput
    → Action Request AuthError Wallet
unfolding is_address
associate_verified_wallet crypto meanwhile now user_id wallet_id address signature nonce email = do
  throw_if (not (is_address crypto address)) invalid_address
  clean ← from_result (validate_optional_email email)
  nonce_valid ← on_db (consume_auth_nonce meanwhile now nonce address)
  throw_if (not nonce_valid) invalid_nonce
  let message = format_auth_message address nonce
  throw_if (not (verify_stellar_signature crypto address message signature)) invalid_signature
  wallet ← on_db (upsert_wallet user_id wallet_id address email clean)
  modify λ req. record req { cookie = some wallet.id }
  pure wallet

-- `if (!walletId) return null`; an empty cookie is falsy.
unfoldable pub get_session_wallet : Request → Option Wallet
get_session_wallet req = elim req.cookie [
  | none ↦ none
  | some [] ↦ none
  | some (c ∷ cs) ↦ find (has_id (c ∷ cs)) req.db.wallets
]

abbrev session_or_throw : Action Request AuthError Wallet
session_or_throw req = elim (get_session_wallet req) [
  | none ↦ (err not_authenticated, req)
  | some w ↦ (ok w, req)
]

abbrev on_wallet : Text → (Wallet → Wallet) → Request → Request
on_wallet id f req = record req {
  db = set_wallets (update_where (has_id id) f req.db.wallets) req.db;
}

unfoldable pub update_wallet_email : EmailInput → Action Request AuthError (Option Text)
unfolding get_session_wallet
update_wallet_email email = do
  session ← session_or_throw
  clean ← from_result (validate_optional_email email)
  modify (on_wallet session.id (λ w. record w { email = clean }))
  pure clean

unfoldable pub clear_wallet_session : Request → Request
clear_wallet_session req = record req { cookie = none }

unfoldable pub update_profile_visibility : Bool → Action Request AuthError Bool
unfolding get_session_wallet
update_profile_visibility profile_public = do
  session ← session_or_throw
  modify (on_wallet session.id (λ w. record w { profile_public = profile_public }))
  pure profile_public

unfoldable pub get_wallet_linked_account : Text → Text → Db → Option LinkedAccount
get_wallet_linked_account wallet_id provider db =
    find (λ (a : LinkedAccount). a.wallet_id === wallet_id && a.provider === provider)
      db.linked_accounts
