-- ===== src/Events/Draft.antt =====
-- createDraftEvent: every field is checked, then the event, its prizes and its judge are written at once.
use astrea.Prelude.{
  ℕ, suc, Bool, false, ◌||◌, not, Option, none, some, List, [], ◌∷◌, ◌++◌, Text, ◌===◌, codes,
  Action, Result, ok, err, ◌>>=◌, ◌>>◌, or_throw, throw_if, from_result, if◌then◌else◌, length, leb,
  ltb, take, trim, ◌==◌, digits,
}
use astrea.Prelude.Int.{ℤ, pos, negsuc}
use astrea.Schema.{draft, testnet, pending, active, Event, Prize, Judge, Wallet}
use astrea.Amount.{parse_usdc_amount}
use astrea.Auth.Crypto.{Crypto, is_address}
use astrea.Auth.Session.{Request, get_session_wallet}

-- The codes of `CreateDraftResult`; `invalid_prize` has the row and `write_failed` the message.
pub data DraftError : Type 0 where
  not_connected invalid_name no_prizes invalid_judge_address judge_is_organizer : DraftError
  invalid_judge_name invalid_deadline deadline_past : DraftError
  invalid_prize : Text → DraftError
  write_failed : Text → DraftError

pub record CreateDraftEventInput : Type 0 where
  pub name : Text
  pub description : Text
  pub prizes : List Text
  pub judge_address : Text
  pub judge_name : Text
  pub judging_deadline_at : Text
  pub timezone : Text

-- What the code takes from its platform: `Date.parse`, `none` for NaN, in milliseconds, and whether
-- `Intl.DateTimeFormat` knows a time zone.
pub record Calendar : Type 0 where
  pub date_parse : Text → Option ℤ
  pub is_time_zone : Text → Bool

pub record NewPrize : Type 0 where
  pub rank : ℕ
  pub amount : Text

-- The loop over the prizes; `n` is the rank of the next one.
unfoldable pub check_prizes : ℕ → List Text → Result DraftError (List NewPrize)
check_prizes n [] = ok []
check_prizes n (raw ∷ rest) =
    let later = check_prizes (suc n) rest in
    elim (parse_usdc_amount (trim raw)) [
      | none ↦ err (invalid_prize (codes "#" ++ digits n))
      | some v ↦ elim later [
        | err e ↦ err e
        | ok prizes ↦ ok (record { rank = n; amount = trim raw } ∷ prizes)
      ]
    ]

abbrev pub check_some_prizes : List Text → Result DraftError (List NewPrize)
check_some_prizes [] = err no_prizes
check_some_prizes (p ∷ ps) = check_prizes 1 (p ∷ ps)

abbrev pub is_bad_length : ℕ → Text → Bool
is_bad_length max s = length s == 0 || ltb max (length s)

-- `description || null`
abbrev pub or_null : Text → Option Text
or_null [] = none
or_null (c ∷ s) = some (c ∷ s)

-- `deadlineMs <= Date.now()` throws; the instant left is a natural number.
abbrev pub check_deadline : ℕ → Option ℤ → Result DraftError ℕ
check_deadline now none = err invalid_deadline
check_deadline now (some (negsuc _)) = err deadline_past
check_deadline now (some (pos t)) = if leb t now then err deadline_past else ok t

-- `column` is what a stored amount reads back as.
abbrev pub prize_rows : (Text → Text) → (ℕ → Text) → Text → List NewPrize → List Prize
prize_rows column new_id event_id [] = []
prize_rows column new_id event_id (p ∷ ps) =
    record {
      id = new_id p.rank;
      event_id = event_id;
      rank = p.rank;
      amount = column p.amount;
      status = pending;
      winner_team_id = none;
      release_tx_hash = none;
      released_at = none;
    }
    ∷ prize_rows column new_id event_id ps

abbrev pub event_row : Text → Wallet → Text → Text → ℕ → Text → Event
event_row id session name description deadline timezone = record {
  id = id;
  organizer_id = session.user_id;
  organizer_wallet_id = session.id;
  name = name;
  description = or_null description;
  timezone = timezone;
  judging_deadline_at = some deadline;
  status = draft;
  require_github = false;
  network = testnet;
  escrow_event_id = none;
}

abbrev pub judge_row : Text → Text → Text → Judge
judge_row event_id address name = record {
  event_id = event_id;
  wallet_address = address;
  display_name = name;
  status = active;
}

abbrev pub DraftAction : Type 0 → Type 0
DraftAction A = Action Request DraftError A

abbrev pub session_wallet : DraftAction Wallet
session_wallet req = or_throw (get_session_wallet req) not_connected req

-- One nested create; `refused` is the database's message if it rejects the rows, which then writes none.
abbrev pub create_rows : Option Text → Event → List Prize → Judge → DraftAction Text
create_rows (some message) event prizes judge req = (err (write_failed message), req)
create_rows none event prizes judge req = (
  ok event.id,
  record req {
    db = record (req.db) {
      events = event ∷ req.db.events;
      prizes = prizes ++ req.db.prizes;
      judges = judge ∷ req.db.judges;
    };
  },
)

module _ (crypto : Crypto) (calendar : Calendar) (column : Text → Text) (now : ℕ) where
  -- `refused` is what the database answers; `event_id` and `new_id` name the new rows.
  unfoldable pub create_draft_event :
      Option Text → Text → (ℕ → Text) → CreateDraftEventInput → DraftAction Text
  create_draft_event refused event_id new_id input = do
    session ← session_wallet
    throw_if (is_bad_length 120 (trim input.name)) invalid_name
    prizes ← from_result (check_some_prizes input.prizes)
    throw_if (not (is_address crypto (trim input.judge_address))) invalid_judge_address
    throw_if (trim input.judge_address === session.address) judge_is_organizer
    throw_if (is_bad_length 80 (trim input.judge_name)) invalid_judge_name
    deadline ← from_result (check_deadline now (calendar.date_parse input.judging_deadline_at))
    create_rows refused
        (event_row event_id session (trim input.name) (take 2000 (trim input.description)) deadline
          (if calendar.is_time_zone input.timezone then input.timezone else codes "UTC"))
        (prize_rows column new_id event_id prizes)
        (judge_row event_id (trim input.judge_address) (trim input.judge_name))
