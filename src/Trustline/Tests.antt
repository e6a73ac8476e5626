-- ===== src/Trustline/Tests.antt =====
-- Accounts at Horizon.
use astrea.Prelude.{
  ◌≡◌, ◌↔◌, refl, true, false, none, some, [], ◌∷◌, codes, Text-discrete, ok, err, value,
}
use astrea.Prelude.Int.{◌-ℤ◌}
use astrea.Amount.{to_stroops}
use astrea.Trustline.{
  Balance, HorizonError, Asset, trustline_headroom, check_line, has_usdc_trustline,
}
use astrea.Schema.{Db}
use astrea.Trustline.Laws.{CanReceive, has_usdc_trustline_iff}

abbrev usdc : Asset
usdc = record { symbol = codes "USDC"; issuer = codes "GA" }

abbrev line : Balance
line = record {
  asset_code = some (codes "USDC");
  asset_issuer = some (codes "GA");
  is_authorized = some true;
  limit = some (codes "922337203685.4775807");
  balance = some (codes "10.5");
  buying_liabilities = none;
}

abbrev native : Balance
native = record {
  asset_code = none;
  asset_issuer = none;
  is_authorized = none;
  limit = none;
  balance = some (codes "3");
  buying_liabilities = none;
}

checks :
    (has_usdc_trustline usdc (ok (native ∷ line ∷ [])) ≡ ok true)
    × (has_usdc_trustline usdc (ok (record line { is_authorized = none } ∷ [])) ≡ ok false)
    × (has_usdc_trustline usdc (ok (record line { limit = some (codes "10.5") } ∷ [])) ≡ ok false)
    × (has_usdc_trustline usdc (err HorizonError.not_found) ≡ ok false)
unfolding has_usdc_trustline check_line trustline_headroom to_stroops value Text-discrete ◌-ℤ◌
checks = (refl, refl, refl, refl)

has_usdc_trustline_iff_example :
    (has_usdc_trustline usdc (ok (native ∷ line ∷ [])) ≡ ok true)
    ↔ CanReceive usdc (native ∷ line ∷ [])
has_usdc_trustline_iff_example = has_usdc_trustline_iff usdc (native ∷ line ∷ [])

abbrev empty : Db
empty = record {
  users = [];
  events = [];
  prizes = [];
  judges = [];
  teams = [];
  team_members = [];
  wallets = [];
  linked_accounts = [];
  auth_nonces = [];
}
