-- ===== src/Auth/Route.antt =====
-- nonce/route.ts: the nonce that a wallet signs, over HTTP.
use astrea.Prelude.{ℕ, Option, none, some, [], ◌∷◌, Text, codes, ok, err}
use astrea.Schema.{Db}
use astrea.Auth.Crypto.{Crypto}
use astrea.Auth.Nonce.{
  AuthError, invalid_address, invalid_nonce, invalid_signature, invalid_email, not_authenticated,
  key_taken, record_gone, Issued, issue_auth_nonce,
}

-- The JSON that is answered: what was issued, or an error, each with its status.
pub data NonceReply : Type 0 where
  issued : Issued → NonceReply
  refused : ℕ → Text → NonceReply

-- The messages of the errors; Prisma's own are given by what they say of the row.
unfoldable pub auth_message : AuthError → Text
auth_message invalid_address = codes "Invalid Stellar address"
auth_message invalid_nonce = codes "Invalid or expired authentication nonce"
auth_message invalid_signature = codes "Invalid cryptographic signature for address"
auth_message invalid_email = codes "Invalid email address format"
auth_message not_authenticated = codes "Not authenticated"
auth_message key_taken = codes "Unique constraint failed on the fields: (`nonce`)"
auth_message record_gone = codes "No record was found for a delete."

unfoldable pub nonce_route : Crypto → ℕ → Text → Option Text → Db → NonceReply × Db
unfolding auth_message
nonce_route crypto now nonce none db = (refused 400 (codes "Missing address parameter"), db)
nonce_route crypto now nonce (some []) db = (refused 400 (codes "Missing address parameter"), db)
nonce_route crypto now nonce (some (c ∷ s)) db =
    let (r, db') = issue_auth_nonce crypto now nonce (c ∷ s) db in
    (elim r [ ok i ↦ issued i | err e ↦ refused 400 (auth_message e) ], db')
