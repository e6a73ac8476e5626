-- ===== src/Pages/Sample.antt =====
-- One event with its organizer, who is also its judge, and a contract to read.
use astrea.Prelude.{
  false, none, replicate, some, [], ◌∷◌, ◌++◌, codes, Text, ◌===◌, Result, ok, if◌then◌else◌,
}
use astrea.Prelude.Json.{Json, JsonFields}
use astrea.Schema.{EventStatus, testnet, active, Db, Event, PrizeStatus, Wallet, LinkedAccount}
use astrea.CoreGo.Client.{HttpResponse, Platform}
use astrea.CoreGo.Organizer.{World}
use astrea.Github.Callback.{git_hub}
use astrea.Network.{Env}
use astrea.Network.Reading.{Native, bigint, number, other, string, Simulation, Simulated, returned}

abbrev pub field : Text → Json → Json
field name v = Json.obj (JsonFields.field name v JsonFields.end)

abbrev pub answer : HttpResponse
answer = record {
  status = 200;
  text = [];
  json = some (field (codes "balance") (Json.str (codes "900")));
}

abbrev pub server : Platform
server = record {
  core_go_url = some (codes "http://go");
  core_go_service_token = some (codes "t");
  fetch = λ _. ok answer;
  encode_uri_component = λ s. s;
  to_string = λ _. codes "undefined";
  type_error_message = λ s. s;
  hash_of_envelope = λ xdr. some (codes "h" ++ xdr);
}

abbrev pub wallet : Wallet
wallet = record {
  id = codes "w1";
  user_id = codes "u1";
  address = codes "GA";
  email = none;
  profile_public = false;
  usdc_trustline_verified_at = none;
}

abbrev pub event_id : Text
event_id = codes "00000000-0000-0000-0000-00000000000e"

abbrev pub event : EventStatus → Event
event status = record {
  id = event_id;
  organizer_id = codes "u1";
  organizer_wallet_id = codes "w1";
  name = codes "Jam";
  description = none;
  timezone = codes "UTC";
  judging_deadline_at = none;
  status = status;
  require_github = false;
  network = testnet;
  escrow_event_id = some (replicate 32 b'a');
}

abbrev pub linked : LinkedAccount
linked = record {
  wallet_id = codes "w1";
  provider = git_hub;
  provider_id = codes "7";
  username = codes "octocat";
  avatar_url = none;
  profile_url = none;
}

abbrev pub db : EventStatus → Db
db status = record {
  users = [];
  events = event status ∷ [];
  prizes =
      record {
        id = codes "p1";
        event_id = event_id;
        rank = 1;
        amount = codes "25.5";
        status = PrizeStatus.pending;
        released_at = none;
        winner_team_id = some (codes "t1");
        release_tx_hash = none;
      }
      ∷ [];
  judges =
      record {
        event_id = event_id;
        wallet_address = codes "GA";
        display_name = [];
        status = active;
      }
      ∷ [];
  teams =
      record {
        id = codes "t1";
        event_id = event_id;
        name = codes "Red";
        submission_url = [];
        submission_verified_at = none;
      }
      ∷ [];
  team_members =
      record {
        team_id = codes "t1";
        event_id = event_id;
        wallet_id = codes "w1";
        share_basis_points = 10000;
        ordinal = 0;
      }
      ∷ [];
  wallets = wallet ∷ [];
  linked_accounts = linked ∷ [];
  auth_nonces = [];
}

abbrev pub world : EventStatus → World
world status = record {
  req = record { db = db status; cookie = some (codes "w1") };
  sent = [];
  revalidated = [];
}

abbrev pub env : Env
env = record {
  data_of = record {
    stellar_network = testnet;
    allow_mainnet = false;
    escrow_contract_id = codes "C";
    soroban_rpc_url = some (codes "https://rpc");
    usdc_issuer = codes "G";
    usdc_symbol = codes "USDC";
    core_go_url = none;
    core_go_service_token = none;
    github_client_id = none;
    github_client_secret = none;
  };
  network_passphrase = codes "Test";
  horizon_url = codes "https://horizon-testnet.stellar.org";
  soroban_rpc_url = some (codes "https://rpc");
}

-- A contract with a reward of 25.5 USDC.
abbrev pub native : Text → Native
native name =
    if name === codes "reward"
    then bigint (codes "255000000")
    else if name === codes "state"
    then number (codes "2")
    else if name === codes "resolver"
    then other (codes "undefined")
    else string name

abbrev pub simulate : Simulated → Result Text Simulation
simulate r = ok (returned native)

abbrev pub url : Text
url = codes "https://astrea/en/events/" ++ event_id
