-- ===== src/Schema.antt =====
-- The tables of apps/web/prisma/schema.prisma, with the columns that the web app reads or writes.
-- A table is the list of its rows; an instant is in milliseconds since the epoch.
pub mod Table
use astrea.Prelude.{ℕ, Bool, Option, List, Text}

pub data EventStatus : Type 0 where
  draft created live judging completed disputed cancelled : EventStatus

pub data PrizeStatus : Type 0 where
  pending assigned released paid_out disputed : PrizeStatus

pub data JudgeStatus : Type 0 where
  active removed : JudgeStatus

pub data StellarNetwork : Type 0 where
  testnet mainnet : StellarNetwork

unfoldable pub EventStatus-discrete : Discrete EventStatus
EventStatus-discrete = hlevel

unfoldable pub PrizeStatus-discrete : Discrete PrizeStatus
PrizeStatus-discrete = hlevel

unfoldable pub JudgeStatus-discrete : Discrete JudgeStatus
JudgeStatus-discrete = hlevel

pub record Event : Type 0 where
  pub id : Text
  pub organizer_id : Text
  pub organizer_wallet_id : Text
  pub name : Text
  pub description : Option Text
  pub timezone : Text
  pub judging_deadline_at : Option ℕ
  pub status : EventStatus
  pub require_github : Bool
  pub network : StellarNetwork
  pub escrow_event_id : Option Text

-- `amount` is the text that `toString` makes of the column's Decimal.
pub record Prize : Type 0 where
  pub id : Text
  pub event_id : Text
  pub rank : ℕ
  pub amount : Text
  pub status : PrizeStatus
  pub winner_team_id : Option Text
  pub release_tx_hash : Option Text
  pub released_at : Option ℕ

pub record Judge : Type 0 where
  pub event_id : Text
  pub wallet_address : Text
  pub display_name : Text
  pub status : JudgeStatus

pub record Team : Type 0 where
  pub id : Text
  pub event_id : Text
  pub name : Text
  pub submission_url : Text
  pub submission_verified_at : Option ℕ

pub record TeamMember : Type 0 where
  pub team_id : Text
  pub event_id : Text
  pub wallet_id : Text
  pub share_basis_points : ℕ
  pub ordinal : ℕ

pub record Wallet : Type 0 where
  pub id : Text
  pub user_id : Text
  pub address : Text
  pub email : Option Text
  pub profile_public : Bool
  pub usdc_trustline_verified_at : Option ℕ

pub record LinkedAccount : Type 0 where
  pub wallet_id : Text
  pub provider : Text
  pub provider_id : Text
  pub username : Text
  pub avatar_url : Option Text
  pub profile_url : Option Text

pub record AuthNonce : Type 0 where
  pub nonce : Text
  pub address : Text
  pub expires_at : ℕ

-- `users` holds the ids of the rows of `users`.
pub record Db : Type 0 where
  pub users : List Text
  pub events : List Event
  pub prizes : List Prize
  pub judges : List Judge
  pub teams : List Team
  pub team_members : List TeamMember
  pub wallets : List Wallet
  pub linked_accounts : List LinkedAccount
  pub auth_nonces : List AuthNonce
