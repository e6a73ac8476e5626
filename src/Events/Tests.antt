-- ===== src/Events/Tests.antt =====
-- A draft with two prizes.
use astrea.Prelude.{
  ◌≡◌, refl, arith, true, false, none, some, [], ◌∷◌, replicate, digits, codes, Text, Text-discrete,
  ok, err, trim, is_space, value,
}
use astrea.Prelude.Int.{pos}
use astrea.Schema.{Wallet}
use astrea.Amount.{parse_usdc_amount}
use astrea.Amount.Column.{decimal_text, IsColumn}
use astrea.Auth.Crypto.{Crypto, is_account_id, is_address}
use astrea.Auth.Session.{Request, get_session_wallet}
use astrea.Events.Draft.{
  CreateDraftEventInput, Calendar, judge_is_organizer, check_prizes, create_draft_event,
}
use astrea.Events.Drafted.{Drafted, create_draft_event-Drafted}

abbrev toy : Crypto
toy = record {
  is_valid_public_key = λ _. true;
  verify = λ _ _ _. none;
  sha256 = λ m. m;
  utf8 = λ s. s;
  from_hex = λ s. s;
  from_base64 = λ s. s;
}

abbrev calendar : Calendar
calendar = record { date_parse = λ _. some (pos 2000); is_time_zone = λ _. true }

abbrev column : Text → Text
column t = elim (parse_usdc_amount t) [ none ↦ t | some n ↦ decimal_text n ]

is_column : IsColumn column
is_column t n e = ground arith

abbrev alice : Text
alice = b'G' ∷ replicate 55 b'A'

abbrev bob : Text
bob = b'G' ∷ replicate 55 b'B'

abbrev wallet : Wallet
wallet = record {
  id = codes "w1";
  user_id = codes "u1";
  address = alice;
  email = none;
  profile_public = false;
  usdc_trustline_verified_at = none;
}

abbrev req : Request
req = record {
  db = record {
    users = [];
    events = [];
    prizes = [];
    judges = [];
    teams = [];
    team_members = [];
    wallets = wallet ∷ [];
    linked_accounts = [];
    auth_nonces = [];
  };
  cookie = some (codes "w1");
}

abbrev form : CreateDraftEventInput
form = record {
  name = codes "Jam ";
  description = [];
  prizes = codes "10" ∷ codes " 0.5" ∷ [];
  judge_address = bob;
  judge_name = codes "Bob";
  judging_deadline_at = codes "2030-01-01T00:00Z";
  timezone = codes "UTC";
}

abbrev drafted : Request
unfolding create_draft_event
drafted = (create_draft_event toy calendar column 1000 none (codes "e1") digits form req).1

drafts :
    create_draft_event toy calendar column 1000 none (codes "e1") digits form req
    ≡ (ok (codes "e1"), drafted)
unfolding drafted create_draft_event get_session_wallet check_prizes parse_usdc_amount value
    is_address is_account_id trim is_space Text-discrete
drafts = refl

create_draft_event-Drafted_example :
    Drafted toy calendar column 1000 none (codes "e1") digits form req drafted
create_draft_event-Drafted_example =
    create_draft_event-Drafted toy calendar column 1000 none (codes "e1") digits form is_column req
      drafted (codes "e1") drafts

abbrev own_judge : CreateDraftEventInput
own_judge = record form { judge_address = alice }

refuses :
    (create_draft_event toy calendar column 1000 none (codes "e1") digits own_judge req).0
    ≡ err judge_is_organizer
unfolding create_draft_event get_session_wallet check_prizes parse_usdc_amount value is_address
    is_account_id trim is_space Text-discrete
refuses = refl
