-- ===== src/Trustline/Laws.antt =====
-- When an account counts as able to receive USDC.
use astrea.Prelude.{
  ℕ, ◌+◌, ◌<◌, ◌≡◌, ◌↔◌, ◌⊎◌, ◌≢◌, inl, inr, true, false, some, List, Text, Result, ok, arith, find,
  Option-cases, Result-cases, ltb,
}
use astrea.Prelude.Int.{pos, ◌-ℤ◌, is_positive}
use astrea.Schema.{Db}
use astrea.Amount.{to_stroops}
use astrea.Trustline.{
  Balance, HorizonError, not_found, Asset, is_line_of, trustline_headroom, check_line,
  has_usdc_trustline, stamp_wallet, verify_and_record_trustline,
}

-- The balance and the liabilities leave room under the limit.
pub record HasRoom (b : Balance) : Type 0 where
  pub limit : ℕ
  pub held : ℕ
  pub promised : ℕ
  pub limit_read : to_stroops b.limit ≡ ok limit
  pub held_read : to_stroops b.balance ≡ ok held
  pub promised_read : to_stroops b.buying_liabilities ≡ ok promised
  pub room : held + promised < limit

positive_difference : (a b l : ℕ) → is_positive (pos a -ℤ pos b -ℤ pos l) ≡ ltb (b + l) a
unfolding ◌-ℤ◌
positive_difference a b l = ground arith

check_line_sound :
    (b : Balance) → check_line b ≡ ok true → (b.is_authorized ≡ some true) × HasRoom b
unfolding check_line trustline_headroom
check_line_sound b h = elim (Result-cases (to_stroops b.limit)) [
  | inr (e, bad) ↦ absurd (ground arith)
  | inl (a, limit_read) ↦ elim (Result-cases (to_stroops b.balance)) [
    | inr (e, bad) ↦ absurd (ground arith)
    | inl (c, held_read) ↦ elim (Result-cases (to_stroops b.buying_liabilities)) [
      | inr (e, bad) ↦ absurd (ground arith)
      | inl (l, promised_read) ↦ (
        ground arith,
        record {
          limit = a;
          held = c;
          promised = l;
          limit_read = limit_read;
          held_read = held_read;
          promised_read = promised_read;
          room = ground (arith, positive_difference a c l);
        },
      )
    ]
  ]
]

check_line_complete :
    (b : Balance) → b.is_authorized ≡ some true → HasRoom b → check_line b ≡ ok true
unfolding check_line trustline_headroom
check_line_complete b authorized r =
    let limit_read = r.limit_read in
    let held_read = r.held_read in
    let promised_read = r.promised_read in
    let room = r.room in ground (arith, positive_difference r.limit r.held r.promised)

-- The line in the app's asset, authorized and with room for at least one stroop.
pub record CanReceive (asset : Asset) (balances : List Balance) : Type 0 where
  pub line : Balance
  pub found : find (is_line_of asset) balances ≡ some line
  pub authorized : line.is_authorized ≡ some true
  pub room : HasRoom line

has_usdc_trustline_sound :
    (asset : Asset) (balances : List Balance)
    → has_usdc_trustline asset (ok balances) ≡ ok true
    → CanReceive asset balances
unfolding has_usdc_trustline
has_usdc_trustline_sound asset balances h = elim (Option-cases (find (is_line_of asset) balances)) [
  | inl missing ↦ absurd (ground arith)
  | inr (line, found) ↦
      let (authorized, room) = check_line_sound line (ground arith) in
      record { line = line; found = found; authorized = authorized; room = room }
]

has_usdc_trustline_complete :
    (asset : Asset) (balances : List Balance)
    → CanReceive asset balances
    → has_usdc_trustline asset (ok balances) ≡ ok true
unfolding has_usdc_trustline
has_usdc_trustline_complete asset balances r =
    rw (r.found, has_usdc_trustline) (check_line_complete r.line r.authorized r.room)

-- An account can receive USDC exactly if the first of its lines in the app's asset is authorized by
-- the issuer and its balance and liabilities leave room for at least one stroop under its limit.
pub has_usdc_trustline_iff :
    (asset : Asset) (balances : List Balance)
    → (has_usdc_trustline asset (ok balances) ≡ ok true) ↔ CanReceive asset balances
has_usdc_trustline_iff asset balances =
    (has_usdc_trustline_sound asset balances, has_usdc_trustline_complete asset balances)

-- A check that answers true found such a line and stamps the wallet; one that answers false, or
-- throws, writes nothing.
pub verify_and_record_trustline_lem :
    (asset : Asset) (horizon : Text → Result HorizonError (List Balance)) (now : ℕ)
    (wallet_id address : Text) (db : Db)
    → let (r, db') = verify_and_record_trustline asset horizon now wallet_id address db in
      ((r ≡ ok true)
        × (db' ≡ stamp_wallet now wallet_id db)
        × (balances : List Balance) × (horizon address ≡ ok balances)
        × CanReceive asset balances)
      ⊎ ((r ≢ ok true) × (db' ≡ db))
unfolding verify_and_record_trustline has_usdc_trustline
verify_and_record_trustline_lem asset horizon now wallet_id address db =
    elim (Result-cases (horizon address)) [
      | inr (not_found, e) ↦ inr (ground arith, ground arith)
      | inr (HorizonError.other m, e) ↦ inr (ground arith, ground arith)
      | inl (balances, e) ↦ elim (Result-cases (has_usdc_trustline asset (ok balances))) [
        | inr (m, thrown) ↦ inr (ground arith, ground arith)
        | inl (false, answered) ↦ inr (ground arith, ground arith)
        | inl (true, answered) ↦ inl (
          ground arith,
          ground arith,
          balances,
          e,
          has_usdc_trustline_sound asset balances answered,
        )
      ]
    ]
