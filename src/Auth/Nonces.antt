-- ===== src/Auth/Nonces.antt =====
-- A nonce is good once, for its address, until it expires.
use astrea.Prelude.{
  ℕ, ◌+◌, ◌<◌, ◌≡◌, ◌∙◌, ◌*◌, ap, inl, inr, true, false, ◌&&◌, none, some, List, [], ◌∷◌, Text,
  ◌===◌, ok, err, find, Option-cases, arith, ltb, All,
}
use astrea.Schema.{AuthNonce, Db}
use astrea.Schema.Table.{delete_where, find-delete_where}
use astrea.Auth.Crypto.{Crypto}
use astrea.Auth.Nonce.{
  record_gone, Issued, has_nonce, is_expired, issue_auth_nonce, delete_nonce, consume_auth_nonce,
}

-- No row is left under a nonce that has been deleted.
gone :
    (nonce : Text) (rows : List AuthNonce)
    → find (has_nonce nonce) (delete_where (has_nonce nonce) rows) ≡ none
gone nonce rows = find-delete_where (has_nonce nonce) (has_nonce nonce) rows (λ r h. h)

-- What a consumption that did not throw has done, whatever others did in between.
pub consume_auth_nonce_lem :
    (meanwhile : Db → Db) (now : ℕ) (nonce address : Text) (db db' : Db)
    → consume_auth_nonce meanwhile now nonce address db ≡ (ok true, db')
    → (entry : AuthNonce) × (find (has_nonce nonce) db.auth_nonces ≡ some entry)
      × (entry.address ≡ address)
      × (now < entry.expires_at)
      × (find (has_nonce nonce) db'.auth_nonces ≡ none)
unfolding consume_auth_nonce delete_nonce
consume_auth_nonce_lem meanwhile now nonce address db db' h =
    elim (Option-cases (find (has_nonce nonce) db.auth_nonces)) [
      | inl missing ↦ absurd (ground arith)
      | inr (entry, e) ↦ (
        entry,
        e,
        ground arith,
        ground arith,
        ground (arith, gone nonce (meanwhile db).auth_nonces),
      )
    ]

-- A nonce that was consumed with success is refused to every later request, for any address.
pub consume_auth_nonce_once :
    (meanwhile : Db → Db) (now now' : ℕ) (nonce address address' : Text) (db db' : Db)
    → consume_auth_nonce meanwhile now nonce address db ≡ (ok true, db')
    → consume_auth_nonce (λ d. d) now' nonce address' db' ≡ (ok false, db')
unfolding consume_auth_nonce
consume_auth_nonce_once meanwhile now now' nonce address address' db db' h =
    let (_, _, _, _, left) = consume_auth_nonce_lem meanwhile now nonce address db db' h in
    rw (left, consume_auth_nonce)

consume_auth_nonce_late :
    (meanwhile : Db → Db) (now : ℕ) (nonce address : Text) (db : Db) (entry : AuthNonce)
    → find (has_nonce nonce) db.auth_nonces ≡ some entry
    → find (has_nonce nonce) (meanwhile db).auth_nonces ≡ none
    → consume_auth_nonce meanwhile now nonce address db ≡ (err record_gone, meanwhile db)
unfolding consume_auth_nonce delete_nonce
consume_auth_nonce_late meanwhile now nonce address db entry e left = ground arith

-- Two requests that both read the nonce before either deletes it: if one succeeds first, the other
-- throws.
pub consume_auth_nonce_race :
    (now now' : ℕ) (nonce address address' : Text) (db db' : Db)
    → consume_auth_nonce (λ d. d) now nonce address db ≡ (ok true, db')
    → consume_auth_nonce
        (λ d. (consume_auth_nonce (λ d'. d') now nonce address d).1)
        now'
        nonce
        address'
        db
      ≡ (err record_gone, db')
consume_auth_nonce_race now now' nonce address address' db db' h =
    let (entry, found, _, _, left) = consume_auth_nonce_lem (λ d. d) now nonce address db db' h in
    let after : (consume_auth_nonce (λ d. d) now nonce address db).1 ≡ db' = ap (λ r. r.1) h in
    let missing = ap (λ (d : Db). find (has_nonce nonce) d.auth_nonces) after ∙ left in
    let late =
      consume_auth_nonce_late (λ d. (consume_auth_nonce (λ d'. d') now nonce address d).1) now'
        nonce address' db entry found missing in
    late ∙ ap (λ d. (err record_gone, d)) after

-- A nonce that was issued is accepted for its address alone, until five minutes have passed.
pub consume_auth_nonce-issue_auth_nonce :
    (crypto : Crypto) (now later : ℕ) (nonce address other : Text) (db db' : Db) (issued : Issued)
    → issue_auth_nonce crypto now nonce address db ≡ (ok issued, db')
    → (consume_auth_nonce (λ d. d) later nonce other db').0
      ≡ ok (address === other && ltb later (now + 5 * 60 * 1000))
unfolding issue_auth_nonce consume_auth_nonce delete_nonce
consume_auth_nonce-issue_auth_nonce crypto now later nonce address other db db' issued h =
    ground arith

fresh_rows :
    (now : ℕ) (rows : List AuthNonce)
    → All (λ row. now < row.expires_at) (delete_where (is_expired now) rows)
fresh_rows now [] = tt
fresh_rows now (r ∷ rows) = ground (arith, fresh_rows now rows)

-- Issuing leaves no expired row behind.
pub issue_auth_nonce-All :
    (crypto : Crypto) (now : ℕ) (nonce address : Text) (db db' : Db) (issued : Issued)
    → issue_auth_nonce crypto now nonce address db ≡ (ok issued, db')
    → All (λ row. now < row.expires_at) db'.auth_nonces
unfolding issue_auth_nonce
issue_auth_nonce-All crypto now nonce address db db' issued h =
    ground (arith, fresh_rows now db.auth_nonces)
