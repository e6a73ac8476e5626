-- ===== src/Earnings/Query.antt =====
-- The payouts of a wallet, apps/web/src/lib/earnings/query.ts.
use astrea.Prelude.{
  ℕ, Bool, true, false, ◌&&◌, ◌||◌, Option, none, some, List, [], ◌∷◌, Text, codes, ◌===◌, Result,
  ok, err, ltb, leb, length, find, keep, trim, if◌then◌else◌,
}
use astrea.Schema.{testnet, Event, Prize, TeamMember, Wallet, Db}
use astrea.Earnings.{Numbers, EarningsItem, sort}

-- A row of `payouts`, with the team member that it names by a foreign key.
pub record Payout : Type 0 where
  pub id : Text
  pub prize_id : Text
  pub team_member : TeamMember
  pub tx_hash : Text
  pub amount : Text
  pub confirmed_at : ℕ

abbrev pub max_wallet_ref_length : ℕ
max_wallet_ref_length = 128

-- `none` is null, undefined or no string.
unfoldable pub is_valid_wallet_ref : Option Text → Bool
is_valid_wallet_ref none = false
is_valid_wallet_ref (some value) =
    ltb 0 (length (trim value)) && leb (length value) max_wallet_ref_length

abbrev pub has_address : Text → Text → Wallet → Bool
has_address id address w = (w.id === id) && (w.address === address)

abbrev pub is_found : {A : Type 0} → Option A → Bool
is_found none = false
is_found (some _) = true

-- The `where` of the query: the member's wallet by its id, or by its address.
abbrev pub belongs_to : List Wallet → Text → Payout → Bool
belongs_to wallets ref p =
    (p.team_member.wallet_id === ref)
    || is_found (find (has_address p.team_member.wallet_id ref) wallets)

abbrev pub later : Payout → Payout → Bool
later p q = ltb q.confirmed_at p.confirmed_at

abbrev pub find_payouts : List Wallet → Text → List Payout → List Payout
find_payouts wallets ref payouts = sort later (keep (belongs_to wallets ref) payouts)

abbrev pub is_prize : Text → Prize → Bool
is_prize id p = p.id === id

abbrev pub is_event : Text → Event → Bool
is_event id e = e.id === id

abbrev pub name_of : Option Event → Text
name_of none = codes "Astrea Competition"
name_of (some e) = e.name

module _ {N : Type 0} (numbers : Numbers N) (to_number : Text → Option N)
    (to_iso_string : ℕ → Text) where
  abbrev pub sanitized : Option N → N
  sanitized none = numbers.zero_number
  sanitized (some n) = n

  abbrev pub to_item : List Event → Payout → Prize → EarningsItem N
  to_item events p prize =
      let amount = sanitized (to_number p.amount) in
      record {
        id = p.id;
        event_id = prize.event_id;
        event_name = name_of (find (is_event prize.event_id) events);
        prize_rank = prize.rank;
        amount_usdc = numbers.to_locale_string amount;
        amount_usdc_num = amount;
        tx_hash = p.tx_hash;
        confirmed_at = to_iso_string p.confirmed_at;
        network = testnet;
      }

  -- A payout without its prize is a throw, of which the `catch` makes an empty array.
  abbrev pub to_items : Db → List Payout → Option (List (EarningsItem N))
  to_items db [] = some []
  to_items db (p ∷ ps) = elim (find (is_prize p.prize_id) db.prizes) [
    | none ↦ none
    | some prize ↦ elim (to_items db ps) [
      | none ↦ none
      | some items ↦ some (to_item db.events p prize ∷ items)
    ]
  ]

  abbrev pub or_empty : Option (List (EarningsItem N)) → List (EarningsItem N)
  or_empty none = []
  or_empty (some items) = items

  abbrev pub answer :
      Option Text → Db → List Payout → Result Text (Unit {0}) → List (EarningsItem N)
  answer none db payouts outcome = []
  answer (some ref) db payouts (err message) = []
  answer (some ref) db payouts (ok _) = or_empty (to_items db (find_payouts db.wallets ref payouts))

  -- `has_url` is that DATABASE_URL is set; `outcome` is what the query threw, if it did.
  unfoldable pub get_participant_earnings :
      Bool → Option Text → Db → List Payout → Result Text (Unit {0}) → List (EarningsItem N)
  get_participant_earnings has_url ref db payouts outcome =
      if is_valid_wallet_ref ref && has_url then answer ref db payouts outcome else []
