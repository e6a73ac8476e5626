-- ===== src/Auth/Nonce.antt =====
-- `issueAuthNonce` and `consumeAuthNonce`. The time and the random nonce are arguments, and so is what
-- other requests do to the tables between a read and the write that follows it.
use astrea.Prelude.{
  ℕ, ◌+◌, ◌*◌, Bool, false, ◌&&◌, not, none, some, ◌∷◌, Text, ◌===◌, Action, ok, err, ◌>>=◌, ◌>>◌,
  pure, gets, modify, throw_if, find, is_some, leb, ltb,
}
use astrea.Schema.{AuthNonce, Db}
use astrea.Schema.Table.{delete_where}
use astrea.Auth.Crypto.{Crypto, is_address, format_auth_message}

-- Five minutes.
abbrev pub nonce_ttl_ms : ℕ
nonce_ttl_ms = 5 * 60 * 1000

-- What the functions of this component throw; the last two are Prisma's for a key that is taken or
-- that is gone.
pub data AuthError : Type 0 where
  invalid_address invalid_nonce invalid_signature invalid_email not_authenticated : AuthError
  key_taken record_gone : AuthError

pub record Issued : Type 0 where
  pub nonce : Text
  pub message : Text
  pub expires_at : ℕ

abbrev pub has_nonce : Text → AuthNonce → Bool
has_nonce nonce row = row.nonce === nonce

abbrev pub is_expired : ℕ → AuthNonce → Bool
is_expired now row = leb row.expires_at now

unfoldable pub issue_auth_nonce : Crypto → ℕ → Text → Text → Action Db AuthError Issued
unfolding is_address
issue_auth_nonce crypto now nonce address = do
  throw_if (not (is_address crypto address)) invalid_address
  modify λ db. record db { auth_nonces = delete_where (is_expired now) db.auth_nonces }
  taken ← gets (λ db. is_some (find (has_nonce nonce) db.auth_nonces))
  throw_if taken key_taken
  modify λ db. record db {
    auth_nonces =
        record { nonce = nonce; address = address; expires_at = now + nonce_ttl_ms }
        ∷ db.auth_nonces;
  }
  pure (record {
    nonce = nonce;
    message = format_auth_message address nonce;
    expires_at = now + nonce_ttl_ms;
  })

-- `delete` throws if the row is gone.
unfoldable pub delete_nonce : Text → Action Db AuthError (Unit {0})
delete_nonce nonce db = elim (find (has_nonce nonce) db.auth_nonces) [
  | none ↦ (err record_gone, db)
  | some _ ↦ (ok tt, record db { auth_nonces = delete_where (has_nonce nonce) db.auth_nonces })
]

-- The entry's own checks, once it has been deleted.
abbrev pub is_good : ℕ → Text → AuthNonce → Bool
is_good now address entry = entry.address === address && ltb now entry.expires_at

unfoldable pub consume_auth_nonce : (Db → Db) → ℕ → Text → Text → Action Db AuthError Bool
unfolding delete_nonce
consume_auth_nonce meanwhile now nonce address db = elim (find (has_nonce nonce) db.auth_nonces) [
  | none ↦ (ok false, db)
  | some entry ↦ (do delete_nonce nonce; pure (is_good now address entry)) (meanwhile db)
]
