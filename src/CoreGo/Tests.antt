-- ===== src/CoreGo/Tests.antt =====
-- An organizer and a judge before a toy server.
use astrea.Prelude.{
  ◌≡◌, ◌≢◌, refl, true, false, none, some, List, [], ◌∷◌, ◌++◌, codes, Text, Text-discrete, ok, err,
  arith, is_uuid, is_groups, All, value,
}
use astrea.Prelude.Int.{◌-ℤ◌}
use astrea.Prelude.Json.{Json, JsonFields, member}
use astrea.Schema.{Db, Wallet, Event, judging, testnet, active}
use astrea.Auth.Session.{get_session_wallet}
use astrea.Amount.{to_stroops}
use astrea.Trustline.{
  Balance, Asset, has_usdc_trustline, check_line, trustline_headroom, verify_and_record_trustline,
}
use astrea.CoreGo.Client.{HttpResponse, Platform, request, config, release_build}
use astrea.CoreGo.Organizer.{World, submit_create}
use astrea.CoreGo.Envelopes.{IsRefused}
use astrea.CoreGo.Steps.{IsOwn}
use astrea.CoreGo.Authority.{build_deposit_call, run, run-IsOwn}
use astrea.CoreGo.Refusals.{submission, told, submit_create_refused}
use astrea.CoreGo.Winners.{
  ReleaseAssignment, is_active_judge, winning_members, wallets_of, check_wallets,
  winners_without_trustline,
}
use astrea.CoreGo.Judge.{missing_trustline, build_release}
use astrea.CoreGo.Release.{Ready, build_release-Ready}

abbrev field : Text → Json → Json
field name v = Json.obj (JsonFields.field name v JsonFields.end)

abbrev inner : JsonFields
inner =
    JsonFields.field (codes "code") (Json.str (codes "create_build_replaced"))
      (JsonFields.field (codes "message") (Json.str (codes "again")) JsonFields.end)

abbrev envelope : Json
envelope = field (codes "error") (Json.obj inner)

abbrev refusal : HttpResponse
refusal = record { status = 409; text = []; json = some envelope }

-- Refuses every request.
abbrev server : Platform
server = record {
  core_go_url = some (codes "http://go");
  core_go_service_token = some (codes "t");
  fetch = λ _. ok refusal;
  encode_uri_component = λ s. s;
  to_string = λ _. codes "undefined";
  type_error_message = λ s. s;
  hash_of_envelope = λ xdr. some (codes "h" ++ xdr);
}

abbrev wallet : Wallet
wallet = record {
  id = codes "w1";
  user_id = codes "u1";
  address = codes "GA";
  email = none;
  profile_public = false;
  usdc_trustline_verified_at = none;
}

abbrev winner : Wallet
winner = record wallet { id = codes "w2"; address = codes "GB" }

abbrev event_id : Text
event_id = codes "00000000-0000-0000-0000-00000000000e"

abbrev event : Event
event = record {
  id = event_id;
  organizer_id = codes "u0";
  organizer_wallet_id = codes "w0";
  name = codes "Jam";
  description = none;
  timezone = codes "UTC";
  judging_deadline_at = none;
  status = judging;
  require_github = false;
  network = testnet;
  escrow_event_id = none;
}

abbrev db : Db
db = record {
  users = [];
  events = event ∷ [];
  prizes = [];
  judges =
      record {
        event_id = event_id;
        wallet_address = codes "GA";
        display_name = [];
        status = active;
      }
      ∷ [];
  teams = [];
  team_members =
      record {
        team_id = codes "t";
        event_id = event_id;
        wallet_id = codes "w2";
        share_basis_points = 10000;
        ordinal = 0;
      }
      ∷ [];
  wallets = wallet ∷ winner ∷ [];
  linked_accounts = [];
  auth_nonces = [];
}

abbrev world : World
world = record { req = record { db = db; cookie = some (codes "w1") }; sent = []; revalidated = [] }

signed_in : get_session_wallet world.req ≡ some wallet
unfolding get_session_wallet Text-discrete
signed_in = refl

refused :
    (rest : Text)
    → IsRefused server
        (submission server (codes "e") (codes "x") (codes "GA") rest)
        409
        (codes "create_build_replaced")
        (codes "again")
unfolding config member Text-discrete
refused rest = record {
  settings = (codes "http://go", codes "t");
  configured = refl;
  res = refusal;
  answered = refl;
  same_status = refl;
  not_ok = refl;
  json = envelope;
  parsed = refl;
  envelope = record {
    fields = JsonFields.field (codes "error") (Json.obj inner) JsonFields.end;
    inner = inner;
    is_object = refl;
    has_error = refl;
    has_code = refl;
    has_message = refl;
  };
}

run-IsOwn_example :
    IsOwn server world (run server (build_deposit_call (codes "GA") (codes "1")) world).1
run-IsOwn_example = run-IsOwn server (build_deposit_call (codes "GA") (codes "1")) world

submit_create_refused_example : submit_create server (codes "e") (codes "x") world ≡ (
  err (
      told server
        (codes "e")
        (codes "x")
        (codes "create_build_replaced")
        409
        (codes "create_build_replaced")
        (codes "again")),
  record world {
    sent =
        submission server
          (codes "e")
          (codes "x")
          (codes "GA")
          (codes "/create/submit")
          (refused (codes "/create/submit")).settings
        ∷ [];
  },
)
submit_create_refused_example =
    submit_create_refused server (codes "e") (codes "x") world wallet 409
      (codes "create_build_replaced") (codes "again") signed_in (refused (codes "/create/submit"))

abbrev usdc : Asset
usdc = record { symbol = codes "USDC"; issuer = codes "GI" }

abbrev line : Balance
line = record {
  asset_code = some (codes "USDC");
  asset_issuer = some (codes "GI");
  is_authorized = some true;
  limit = some (codes "9");
  balance = some (codes "1");
  buying_liabilities = none;
}

abbrev assignments : List ReleaseAssignment
assignments = record { rank = 1; team_id = codes "t" } ∷ []

is_judge : is_active_judge db event_id (codes "GA") ≡ true
unfolding is_active_judge is_uuid is_groups Text-discrete
is_judge = refl

asked : (build_release server usdc (λ _. ok (line ∷ [])) 5 event_id assignments world).1.sent ≢ []
unfolding build_release winners_without_trustline check_wallets verify_and_record_trustline
    has_usdc_trustline check_line trustline_headroom to_stroops value ◌-ℤ◌ release_build request
    config is_active_judge get_session_wallet is_uuid is_groups Text-discrete
asked h = ground arith

build_release-Ready_example :
    All
      (Ready usdc (λ _. ok (line ∷ [])) 5)
      (wallets_of (winning_members event_id assignments db.team_members) db.wallets)
build_release-Ready_example =
    build_release-Ready usdc (λ _. ok (line ∷ [])) 5 server event_id assignments world wallet
      signed_in is_judge asked

no_line :
    (build_release server usdc (λ _. ok []) 5 event_id assignments world).0
    ≡ err (missing_trustline (codes "USDC:GI") (codes "GB" ∷ []))
unfolding build_release winners_without_trustline check_wallets verify_and_record_trustline
    has_usdc_trustline is_active_judge get_session_wallet is_uuid is_groups Text-discrete
no_line = refl
