-- ===== src/Views/Public.antt =====
-- public-view.ts: the fields of a raw event that are passed on, and nothing else. A raw value is a JSON
-- value. Reading a field of null or undefined throws, which is `none`; a value of another kind that is
-- no object has no such field.
use mathlib.Core.Option
use astrea.Prelude.{Bool, true, false, Option, none, some, List, [], ◌∷◌, Text, ◌===◌, codes, trim}
use astrea.Prelude.Json.{Json, JsonItems, JsonFields, member}

-- `String(x)`, `Number(x)` by the number's text, and `Boolean(x)`; `none` is undefined.
pub record Coercions : Type 0 where
  pub to_string : Option Json → Text
  pub to_number : Option Json → Text
  pub to_boolean : Option Json → Bool

pub record PublicPrizeView : Type 0 where
  pub id : Text
  pub rank : Text
  pub amount : Option Json
  pub status : Text
  pub winner_team_id : Option Text
  pub release_tx_hash : Option Text
  pub released_at : Option Json

pub record PublicJudgeView : Type 0 where
  pub id : Text
  pub wallet_address : Text
  pub display_name : Text
  pub status : Text

pub record PublicTeamMemberView : Type 0 where
  pub wallet_id : Text
  pub ordinal : Text
  pub share_basis_points : Option Text
  pub id : Text
  pub address : Text

pub record PublicTeamView : Type 0 where
  pub id : Text
  pub name : Text
  pub submission_url : Option Text
  pub submission_verified_at : Option Json
  pub members : List PublicTeamMemberView

pub record PublicEventView : Type 0 where
  pub id : Text
  pub name : Text
  pub description : Option Text
  pub logo_url : Option Text
  pub tagline : Option Text
  pub location : Option Text
  pub timezone : Text
  pub registration_opens_at : Option Json
  pub registration_closes_at : Option Json
  pub starts_at : Option Json
  pub ends_at : Option Json
  pub judging_deadline_at : Option Json
  pub status : Option Json
  pub require_github : Bool
  pub is_mainnet : Bool
  pub escrow_event_id : Option Text
  pub organizer_wallet_id : Text
  pub organizer_id : Text
  pub organizer_address : Text
  pub prizes : List PublicPrizeView
  pub judges : List PublicJudgeView
  pub teams : List PublicTeamView

abbrev pub fields_of : Option Json → JsonFields
fields_of (some (Json.obj fs)) = fs
fields_of _ = JsonFields.end

-- `typeof x === "string" ? x : null`
abbrev pub text_or_null : Option Json → Option Text
text_or_null (some (Json.str t)) = some t
text_or_null _ = none

abbrev pub text_or : Text → Option Json → Text
text_or default (some (Json.str t)) = t
text_or default _ = default

-- `typeof x === "number" ? x : undefined`
abbrev pub number_or_undefined : Option Json → Option Text
number_or_undefined (some (Json.num t)) = some t
number_or_undefined _ = none

-- `x ?? null`
abbrev pub nullish : Option Json → Option Json
nullish (some Json.null) = none
nullish x = x

-- `x ?? y`
abbrev pub or_else : Option Json → Option Json → Option Json
or_else none y = y
or_else (some Json.null) y = y
or_else (some v) y = some v

-- What a field is read of: `none` is null or undefined, of which it cannot be.
abbrev pub readable : Option Json → Option JsonFields
readable none = none
readable (some Json.null) = none
readable (some v) = some (fields_of (some v))

abbrev pub rows : JsonItems → List (Option JsonFields)
rows JsonItems.nil = []
rows (JsonItems.cons v items) = readable (some v) ∷ rows items

-- `Array.isArray(x) ? x : []`
abbrev pub array_of : Option Json → List (Option JsonFields)
array_of (some (Json.arr items)) = rows items
array_of _ = []

abbrev pub cons_both : {V : Type 0} → Option V → Option (List V) → Option (List V)
cons_both (some v) (some vs) = some (v ∷ vs)
cons_both _ _ = none

-- `rows.map(...)` of a function that reads the row.
abbrev pub view_rows :
    {V : Type 0} → (JsonFields → Option V) → List (Option JsonFields) → Option (List V)
view_rows f [] = some []
view_rows f (none ∷ rs) = none
view_rows f (some r ∷ rs) = cons_both (f r) (view_rows f rs)

abbrev pub is_mainnet_text : Option Json → Bool
is_mainnet_text (some (Json.str t)) = t === codes "MAINNET"
is_mainnet_text _ = false

module _ (c : Coercions) where
  unfoldable pub prize_view : JsonFields → PublicPrizeView
  prize_view p = record {
    id = c.to_string (member (codes "id") p);
    rank = c.to_number (member (codes "rank") p);
    amount = member (codes "amount") p;
    status = text_or (codes "PENDING") (member (codes "status") p);
    winner_team_id = text_or_null (member (codes "winnerTeamId") p);
    release_tx_hash = text_or_null (member (codes "releaseTxHash") p);
    released_at = nullish (member (codes "releasedAt") p);
  }

  unfoldable pub judge_view : JsonFields → PublicJudgeView
  judge_view j = record {
    id = c.to_string (member (codes "id") j);
    wallet_address = c.to_string (member (codes "walletAddress") j);
    display_name = c.to_string (member (codes "displayName") j);
    status = text_or (codes "ACTIVE") (member (codes "status") j);
  }

  -- The fields of the member's wallet are read out of `m.wallet ?? {}`.
  unfoldable pub member_view : JsonFields → PublicTeamMemberView
  member_view m = record {
    wallet_id = c.to_string (member (codes "walletId") m);
    ordinal = c.to_number (or_else (member (codes "ordinal") m) (some (Json.num (codes "1"))));
    share_basis_points = number_or_undefined (member (codes "shareBasisPoints") m);
    id = c.to_string (
        or_else (member (codes "id") (fields_of (member (codes "wallet") m)))
          (member (codes "walletId") m));
    address = c.to_string (
        or_else (member (codes "address") (fields_of (member (codes "wallet") m)))
          (some (Json.str [])));
  }

  abbrev pub team_with : JsonFields → List PublicTeamMemberView → PublicTeamView
  team_with t members = record {
    id = c.to_string (member (codes "id") t);
    name = c.to_string (member (codes "name") t);
    submission_url = text_or_null (member (codes "submissionUrl") t);
    submission_verified_at = nullish (member (codes "submissionVerifiedAt") t);
    members = members;
  }

  unfoldable pub team_view : JsonFields → Option PublicTeamView
  team_view t =
      Option.map (team_with t)
        (view_rows (λ m. some (member_view m)) (array_of (member (codes "members") t)))

  abbrev pub event_view :
      JsonFields
      → Option JsonFields
      → Option (List PublicPrizeView)
      → Option (List PublicJudgeView)
      → Option (List PublicTeamView)
      → Option PublicEventView
  event_view raw (some organizer) (some prizes) (some judges) (some teams) = some record {
    id = c.to_string (member (codes "id") raw);
    name = c.to_string (member (codes "name") raw);
    description = text_or_null (member (codes "description") raw);
    logo_url = text_or_null (member (codes "logoUrl") raw);
    tagline = text_or_null (member (codes "tagline") raw);
    location = text_or_null (member (codes "location") raw);
    timezone = text_or (codes "UTC") (member (codes "timezone") raw);
    registration_opens_at = nullish (member (codes "registrationOpensAt") raw);
    registration_closes_at = nullish (member (codes "registrationClosesAt") raw);
    starts_at = nullish (member (codes "startsAt") raw);
    ends_at = nullish (member (codes "endsAt") raw);
    judging_deadline_at = nullish (member (codes "judgingDeadlineAt") raw);
    status = member (codes "status") raw;
    require_github = c.to_boolean (member (codes "requireGithub") raw);
    is_mainnet = is_mainnet_text (member (codes "network") raw);
    escrow_event_id = text_or_null (member (codes "escrowEventId") raw);
    organizer_wallet_id = c.to_string (member (codes "organizerWalletId") raw);
    organizer_id = c.to_string (member (codes "id") organizer);
    organizer_address = c.to_string (member (codes "address") organizer);
    prizes = prizes;
    judges = judges;
    teams = teams;
  }
  event_view _ _ _ _ _ = none

  -- `none` is the TypeError of an organizer, a row or a member that is null or missing.
  unfoldable pub sanitize_public_event_view : JsonFields → Option PublicEventView
  sanitize_public_event_view raw =
      event_view raw (readable (member (codes "organizerWallet") raw))
        (view_rows (λ p. some (prize_view p)) (array_of (member (codes "prizes") raw)))
        (view_rows (λ j. some (judge_view j)) (array_of (member (codes "judges") raw)))
        (view_rows team_view (array_of (member (codes "teams") raw)))

pub record DisputeResolver : Type 0 where
  pub is_default : Bool
  pub label : Text
  pub address : Option Text

abbrev default_resolver : Text → DisputeResolver
default_resolver label = record { is_default = true; label = label; address = none }

abbrev pub trimmed_resolver : Text → Text → DisputeResolver
trimmed_resolver label [] = default_resolver label
trimmed_resolver label (c ∷ s) = record {
  is_default = false;
  label = c ∷ s;
  address = some (c ∷ s);
}

unfoldable pub resolve_dispute_resolver : Option Text → Text → DisputeResolver
resolve_dispute_resolver none label = default_resolver label
resolve_dispute_resolver (some address) label = trimmed_resolver label (trim address)
