-- ===== src/Trustline.antt =====
-- Whether an account can receive USDC: apps/web/src/lib/trustline/verify-trustline.ts and
-- verify-and-record.ts. Horizon's answer about an account is an argument.
pub mod Laws
mod Tests
use astrea.Prelude.{
  ℕ, Bool, true, false, ◌&&◌, Option, none, some, List, [], ◌∷◌, ◌++◌, Text, ◌===◌, codes, Action,
  Result, ok, err, ◌>>=◌, ◌>>◌, pure, modify, from_result, find,
}
use astrea.Prelude.Int.{ℤ, pos, ◌-ℤ◌, is_positive}
use astrea.Schema.{Wallet, Db}
use astrea.Schema.Table.{update_where}
use astrea.Auth.Session.{has_id, set_wallets}
use astrea.Amount.{AmountError, not_an_amount, malformed, to_stroops}

-- One of an account's balances; a liquidity pool share has no asset.
pub record Balance : Type 0 where
  pub asset_code : Option Text
  pub asset_issuer : Option Text
  pub is_authorized : Option Bool
  pub limit : Option Text
  pub balance : Option Text
  pub buying_liabilities : Option Text

-- What `loadAccount` throws: an answer 404, or another error with its message.
pub data HorizonError : Type 0 where
  not_found : HorizonError
  other : Text → HorizonError

-- The asset that the app pays in, from env.ts.
pub record Asset : Type 0 where
  pub symbol : Text
  pub issuer : Text

abbrev pub equals : Option Text → Text → Bool
equals none t = false
equals (some s) t = s === t

abbrev pub is_line_of : Asset → Balance → Bool
is_line_of asset b = equals b.asset_code asset.symbol && equals b.asset_issuer asset.issuer

-- The message of what is thrown for an amount that cannot be read.
abbrev pub amount_message : AmountError → Text
amount_message (not_an_amount s) = codes "not a USDC amount: " ++ s
amount_message (malformed s) = codes "horizon: malformed amount \"" ++ (s ++ codes "\"")

-- The difference of three readings, the first that fails deciding the throw.
abbrev difference :
    Result AmountError ℕ → Result AmountError ℕ → Result AmountError ℕ → Result AmountError ℤ
difference (err e) b l = err e
difference (ok a) (err e) l = err e
difference (ok a) (ok b) (err e) = err e
difference (ok a) (ok b) (ok l) = ok (pos a -ℤ pos b -ℤ pos l)

unfoldable pub trustline_headroom : Option Text → Option Text → Option Text → Result AmountError ℤ
trustline_headroom limit balance buying_liabilities =
    difference (to_stroops limit) (to_stroops balance) (to_stroops buying_liabilities)

-- A missing `is_authorized` reads as false.
abbrev pub authorized : Option Bool → Bool
authorized (some true) = true
authorized _ = false

-- The line found, checked.
unfoldable pub check_line : Balance → Result Text Bool
unfolding trustline_headroom
check_line b = elim (authorized b.is_authorized) [
  | false ↦ ok false
  | true ↦ elim (trustline_headroom b.limit b.balance b.buying_liabilities) [
    | ok room ↦ ok (is_positive room)
    | err e ↦ err (amount_message e)
  ]
]

-- An account that does not exist yet has no trustline.
unfoldable pub has_usdc_trustline : Asset → Result HorizonError (List Balance) → Result Text Bool
unfolding check_line
has_usdc_trustline asset (err not_found) = ok false
has_usdc_trustline asset (err (other message)) = err message
has_usdc_trustline asset (ok balances) = elim (find (is_line_of asset) balances) [
  | none ↦ ok false
  | some line ↦ check_line line
]

abbrev pub record_if : Bool → (Db → Db) → Db → Db
record_if true f db = f db
record_if false f db = db

abbrev pub stamp_wallet : ℕ → Text → Db → Db
stamp_wallet now id db =
    set_wallets
      (update_where (has_id id) (λ w. record w { usdc_trustline_verified_at = some now })
        db.wallets)
      db

-- `horizon` answers for each address.
unfoldable pub verify_and_record_trustline :
    Asset → (Text → Result HorizonError (List Balance)) → ℕ → Text → Text → Action Db Text Bool
unfolding has_usdc_trustline
verify_and_record_trustline asset horizon now wallet_id address = do
  verified ← from_result (has_usdc_trustline asset (horizon address))
  modify (record_if verified (stamp_wallet now wallet_id))
  pure verified
