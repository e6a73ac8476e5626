-- ===== src/Network/Tests.antt =====
-- An environment on mainnet, and an event read under it.
use astrea.Prelude.{
  ◌≡◌, refl, true, not, Option, none, some, ◌∷◌, Text, codes, Text-discrete, ◌===◌, Result, ok, err,
  replicate, if◌then◌else◌,
}
use astrea.Network.{Vars, Zod, Passphrases, Env, mainnet_not_allowed, parse_env}
use astrea.Network.Guarded.{Guarded, parse_env-Guarded}
use astrea.Network.Reading.{
  Native, bigint, number, string, other, EscrowEvent, in_progress, Simulation, returned, Simulated,
  on_simulation, request, to_reward, to_state, to_address, state_of, read_escrow_event,
}
use astrea.Network.Read.{ReadOff, read_escrow_event_lem}
use astrea.Schema.{mainnet}

abbrev zod : Zod
zod = record { is_url = λ s. not (s === codes "x"); message = λ name. codes "Invalid input" }

abbrev passphrases : Passphrases
passphrases = record { test_net = codes "Test"; public_net = codes "Public" }

abbrev contract : Text
contract = b'C' ∷ replicate 55 b'A'

abbrev issuer : Text
issuer = b'G' ∷ replicate 55 b'7'

-- Mainnet, with what `allow` says.
abbrev vars : Option Text → Vars
vars allow name =
    if name === codes "NEXT_PUBLIC_STELLAR_NETWORK"
    then some (codes "mainnet")
    else if name === codes "ALLOW_MAINNET"
    then allow
    else if name === codes "NEXT_PUBLIC_ESCROW_CONTRACT_ID"
    then some contract
    else if name === codes "SOROBAN_RPC_URL"
    then some (codes "https://rpc")
    else if name === codes "USDC_ISSUER"
    then some issuer
    else none

abbrev allowed : Vars
allowed = vars (some (codes "true"))

abbrev env : Env
env = record {
  data_of = record {
    stellar_network = mainnet;
    allow_mainnet = true;
    escrow_contract_id = contract;
    soroban_rpc_url = some (codes "https://rpc");
    usdc_issuer = issuer;
    usdc_symbol = codes "USDC";
    core_go_url = none;
    core_go_service_token = none;
    github_client_id = none;
    github_client_secret = none;
  };
  network_passphrase = codes "Public";
  horizon_url = codes "https://horizon.stellar.org";
  soroban_rpc_url = some (codes "https://rpc");
}

parses : parse_env zod passphrases allowed allowed ≡ ok env
unfolding parse_env Text-discrete
parses = refl

refuses : parse_env zod passphrases allowed (vars none) ≡ err mainnet_not_allowed
unfolding parse_env Text-discrete
refuses = refl

parse_env-Guarded_example : Guarded passphrases allowed env
parse_env-Guarded_example = parse_env-Guarded zod passphrases allowed env parses

abbrev event_id : Text
event_id = replicate 32 b'a'

abbrev native : Text → Native
native name =
    if name === codes "reward"
    then bigint (codes "500")
    else if name === codes "state"
    then number (codes "2")
    else if name === codes "resolver"
    then other (codes "undefined")
    else string name

abbrev simulate : Simulated → Result Text Simulation
simulate r = ok (returned native)

abbrev same_number : Text → Text
same_number n = n

abbrev event : EscrowEvent
event = record {
  reward = codes "500";
  state = in_progress;
  token = codes "token";
  admin = codes "admin";
  judge = codes "judge";
  resolver = none;
}

reads : read_escrow_event same_number simulate (ok env) event_id ≡ ok event
unfolding read_escrow_event to_reward to_state to_address state_of Text-discrete
reads = refl

read_escrow_event_lem_example :
    (read_escrow_event same_number simulate (ok env) event_id
      ≡ on_simulation same_number (simulate (request same_number env event_id)))
    × ((e : EscrowEvent)
        → read_escrow_event same_number simulate (ok env) event_id ≡ ok e
        → ReadOff same_number simulate env event_id e)
read_escrow_event_lem_example =
    read_escrow_event_lem same_number simulate zod passphrases allowed env event_id parses refl
