-- ===== src/Views/Card.antt =====
-- card-model.ts, with truncateHash of explorer.ts: what a share card says of an event.
use astrea.Prelude.{
  ℕ, ◌+◌, ◌-◌, Bool, true, false, Option, none, some, List, [], ◌∷◌, ◌++◌, map, Text, ◌===◌, codes,
  if◌then◌else◌, trim, trim_end, length, take, drop, find, leb, ltb, ◌==◌, digits,
}
use astrea.Prelude.Int.{ℤ, pos, negsuc, is_positive}
use astrea.Schema.{EventStatus, live, judging, completed}
use astrea.Amount.{format_smallest_units}

-- "…"
abbrev pub ellipsis : Text
ellipsis = 8230 ∷ []

-- `text.slice(0, Math.max(0, maxLength - 1)).trimEnd()` and an ellipsis, when the text is longer.
unfoldable pub truncate_text : Text → ℕ → Text
truncate_text text max =
    if leb (length text) max then text else trim_end (take (max - 1) text) ++ ellipsis

-- `hash.slice(-trailing)` counts from the end; `-0` is 0, and takes the whole.
abbrev pub last_units : ℕ → Text → Text
last_units n s = if n == 0 then s else drop (length s - n) s

unfoldable pub truncate_hash : Text → ℕ → ℕ → Text
truncate_hash hash leading trailing =
    if leb (length hash) (leading + trailing)
    then hash
    else take leading hash ++ (ellipsis ++ last_units trailing hash)

abbrev pub truncate_wallet : Text → Text
truncate_wallet address = truncate_hash address 6 6

pub record CardAccount : Type 0 where
  pub provider : Text
  pub username : Text

pub record CardMemberWallet : Type 0 where
  pub address : Text
  pub linked_accounts : List CardAccount

pub record CardTeam : Type 0 where
  pub id : Text
  pub name : Text
  pub members : List CardMemberWallet

-- The amount is the text that `toString` makes of it.
pub record CardPrize : Type 0 where
  pub rank : ℕ
  pub amount : Text
  pub winner_team_id : Option Text
  pub release_tx_hash : Option Text

pub record CardJudge : Type 0 where
  pub display_name : Text
  pub wallet_address : Text

-- The dates are instants; `reward` of the escrow is the integer that BigInt makes of it, `none` if it is
-- missing or BigInt throws.
pub record BuildCardModelInput : Type 0 where
  pub id : Text
  pub name : Text
  pub status : EventStatus
  pub organizer_address : Text
  pub judges : List CardJudge
  pub teams : List CardTeam
  pub prizes : List CardPrize
  pub judging_deadline_at : Option ℕ
  pub registration_closes_at : Option ℕ
  pub escrow : Option (Option ℤ)
  pub locale : Text
  pub asset_symbol : Text
  pub now : ℕ

pub data CardTemplateType : Type 0 where
  open_card winners_card generic_card : CardTemplateType

pub record CardWinner : Type 0 where
  pub rank : ℕ
  pub team_name : Text
  pub members : List Text
  pub amount : Text
  pub asset : Text
  pub tx_hash : Option Text

pub record EventCardModel : Type 0 where
  pub id : Text
  pub name : Text
  pub locale : Text
  pub status : EventStatus
  pub organizer : Text
  pub judges : List Text
  pub prize_pool_amount : Text
  pub prize_pool_asset : Text
  pub judging_deadline_at : Option ℕ
  pub formatted_deadline : Option Text
  pub registration_closes_at : Option ℕ
  pub is_registration_closed : Bool
  pub teams_registered : ℕ
  pub winners : List CardWinner
  pub has_verifiable_money : Bool
  pub template_type : CardTemplateType

-- `replace(/^@/, "")`
abbrev pub without_at : Text → Text
without_at [] = []
without_at (c ∷ s) = if c == b'@' then s else c ∷ s

abbrev pub handle_or : Text → Text → Text
handle_or wallet [] = wallet
handle_or wallet (c ∷ s) = b'@' ∷ c ∷ s

abbrev pub reward_of : Option (Option ℤ) → ℤ
reward_of (some (some r)) = r
reward_of _ = pos 0

abbrev pub template_of : Bool → EventStatus → CardTemplateType
template_of true live = open_card
template_of true judging = open_card
template_of true completed = winners_card
template_of _ _ = generic_card

-- The text of a positive integer.
abbrev pub pool_amount : ℤ → Text
pool_amount (pos n) = if 0 == n then codes "0" else format_smallest_units (digits n) 7
pool_amount (negsuc n) = codes "0"

-- The sort by rank, which keeps the order of equal ranks.
abbrev pub insert_prize : CardPrize → List CardPrize → List CardPrize
insert_prize p [] = p ∷ []
insert_prize p (q ∷ qs) =
    let rest = insert_prize p qs in if leb p.rank q.rank then p ∷ q ∷ qs else q ∷ rest

abbrev pub sort_prizes : List CardPrize → List CardPrize
sort_prizes [] = []
sort_prizes (p ∷ ps) = insert_prize p (sort_prizes ps)

abbrev pub judge_name : CardJudge → Text
judge_name j = elim (trim j.display_name) [ [] ↦ truncate_wallet j.wallet_address | c ∷ s ↦ c ∷ s ]

-- An empty id is falsy.
abbrev pub winner_team : List CardTeam → Option Text → Option CardTeam
winner_team teams (some (c ∷ s)) = find (λ t. t.id === c ∷ s) teams
winner_team teams _ = none

abbrev pub is_before : Option ℕ → ℕ → Bool
is_before none now = false
is_before (some t) now = ltb t now

module _ (to_lower_case : Text → Text) (format_card_date : Text → ℕ → Text) where
  unfoldable pub format_member_handle : CardMemberWallet → Text
  format_member_handle wallet =
      elim (find (λ a. to_lower_case a.provider === codes "github") wallet.linked_accounts) [
        | none ↦ truncate_wallet wallet.address
        | some account ↦
            handle_or (truncate_wallet wallet.address) (trim (without_at account.username))
      ]

  abbrev pub winner_row : Text → CardPrize → CardTeam → CardWinner
  winner_row asset prize team = record {
    rank = prize.rank;
    team_name = truncate_text team.name 28;
    members = map format_member_handle team.members;
    amount = prize.amount;
    asset = asset;
    tx_hash = prize.release_tx_hash;
  }

  unfoldable pub winners_of : Text → List CardTeam → List CardPrize → List CardWinner
  winners_of asset teams [] = []
  winners_of asset teams (p ∷ ps) =
      let rest = winners_of asset teams ps in
      elim (winner_team teams p.winner_team_id) [
        | none ↦ rest
        | some team ↦ winner_row asset p team ∷ rest
      ]

  unfoldable pub build_event_card_model : BuildCardModelInput → EventCardModel
  unfolding winners_of
  build_event_card_model input =
      let reward = reward_of input.escrow in
      record {
        id = input.id;
        name = truncate_text input.name 64;
        locale = input.locale;
        status = input.status;
        organizer = truncate_wallet input.organizer_address;
        judges = map judge_name input.judges;
        prize_pool_amount = pool_amount reward;
        prize_pool_asset = input.asset_symbol;
        judging_deadline_at = input.judging_deadline_at;
        formatted_deadline = elim input.judging_deadline_at [
          | none ↦ none
          | some t ↦ some (format_card_date input.locale t)
        ];
        registration_closes_at = input.registration_closes_at;
        is_registration_closed = is_before input.registration_closes_at input.now;
        teams_registered = length input.teams;
        winners = winners_of input.asset_symbol input.teams (sort_prizes input.prizes);
        has_verifiable_money = is_positive reward;
        template_type = template_of (is_positive reward) input.status;
      }
