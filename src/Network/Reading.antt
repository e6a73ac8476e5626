-- ===== src/Network/Reading.antt =====
-- The escrow's event read off the contract, apps/web/src/lib/escrow/read-event.ts.
use astrea.Prelude.{
  starts_with, ℕ, Bool, true, false, ◌&&◌, ◌||◌, Option, none, some, [], ◌∷◌, ◌++◌, Text, codes,
  ◌===◌, ◌==◌, Result, ok, err, leb, length, all, if◌then◌else◌,
}
use astrea.Network.{Env, EnvError, is_unset}

-- A value that the SDK made of the contract's: a bigint or a number by its text, a string, or
-- anything else by its `typeof`; undefined is one of these.
pub data Native : Type 0 where
  bigint number string other : Text → Native

abbrev pub type_of : Native → Text
type_of (bigint n) = codes "bigint"
type_of (number n) = codes "number"
type_of (string s) = codes "string"
type_of (other t) = t

pub data EscrowEventState : Type 0 where
  created waiting_for_start in_progress ended compensated cancelled : EscrowEventState
  unknown : Text → EscrowEventState

pub record EscrowEvent : Type 0 where
  pub reward : Text
  pub state : EscrowEventState
  pub token : Text
  pub admin : Text
  pub judge : Text
  pub resolver : Option Text

-- `EscrowReadError`, a throw of `env`, or one of the RPC client.
pub data ReadError : Type 0 where
  escrow_read_error : Text → ReadError
  env_error : EnvError → ReadError
  rpc_error : Text → ReadError

pub data Simulation : Type 0 where
  simulation_error : Text → Simulation
  no_result : Simulation
  returned : (Text → Native) → Simulation

-- The contract's call that is simulated.
pub record Simulated : Type 0 where
  pub rpc_url : Text
  pub allow_http : Bool
  pub contract_id : Text
  pub event_id : Text
  pub network_passphrase : Text

abbrev pub is_lower_hex : ℕ → Bool
is_lower_hex c = (leb b'0' c && leb c b'9') || (leb b'a' c && leb c b'f')

-- `EVENT_ID_HEX`
abbrev pub is_event_id : Text → Bool
is_event_id s = (length s == 32) && all is_lower_hex s

unfoldable pub to_reward : Native → Result ReadError Text
to_reward (bigint n) = ok n
to_reward (number n) = ok n
to_reward (string s) =
    err (escrow_read_error (codes "get_event returned a non-numeric reward: string"))
to_reward (other t) =
    err (escrow_read_error (codes "get_event returned a non-numeric reward: " ++ t))

-- `ESCROW_EVENT_STATES[n] ?? Unknown(n)`, by the number's text.
unfoldable pub state_of : Text → EscrowEventState
state_of n =
    if n === codes "0"
    then created
    else if n === codes "1"
    then waiting_for_start
    else if n === codes "2"
    then in_progress
    else if n === codes "3"
    then ended
    else if n === codes "4"
    then compensated
    else if n === codes "99"
    then cancelled
    else unknown n

abbrev pub is_nonempty : Text → Bool
is_nonempty [] = false
is_nonempty (c ∷ s) = true

unfoldable pub to_address : Native → Text → Result ReadError Text
to_address (string (c ∷ s)) field = ok (c ∷ s)
to_address _ field = err (escrow_read_error (codes "get_event returned a non-address " ++ field))

-- `Number(n)` of a bigint, by its text.
module _ (to_number : Text → Text) where
  unfoldable pub to_state : Native → Result ReadError EscrowEventState
  to_state (bigint n) = ok (state_of (to_number n))
  to_state (number n) = ok (state_of n)
  to_state (string s) =
      err (escrow_read_error (codes "get_event returned a non-numeric state: string"))
  to_state (other t) =
      err (escrow_read_error (codes "get_event returned a non-numeric state: " ++ t))

  abbrev pub resolver_of : Native → Option Text
  resolver_of (string (c ∷ s)) = some (c ∷ s)
  resolver_of _ = none

  -- A throw of one field leaves out those after it.
  infixl 5 ◌>=>◌
  abbrev pub ◌>=>◌ :
      {A B : Type 0} → Result ReadError A → (A → Result ReadError B) → Result ReadError B
  ok a >=> f = f a
  err e >=> f = err e

  abbrev pub to_event : (Text → Native) → Result ReadError EscrowEvent
  to_event native = to_reward (native (codes "reward")) >=> λ reward.
      to_state (native (codes "state")) >=> λ state.
      to_address (native (codes "token")) (codes "token") >=> λ token.
      to_address (native (codes "admin")) (codes "admin") >=> λ admin.
      to_address (native (codes "judge")) (codes "judge") >=> λ judge. ok (record {
        reward = reward;
        state = state;
        token = token;
        admin = admin;
        judge = judge;
        resolver = resolver_of (native (codes "resolver"));
      })

  abbrev pub on_simulation : Result Text Simulation → Result ReadError EscrowEvent
  on_simulation (err message) = err (rpc_error message)
  on_simulation (ok (simulation_error message)) =
      err (escrow_read_error (codes "get_event simulation failed: " ++ message))
  on_simulation (ok no_result) =
      err (escrow_read_error (codes "get_event simulation returned no result"))
  on_simulation (ok (returned native)) = to_event native

  abbrev pub text_of : Option Text → Text
  text_of none = []
  text_of (some s) = s

  abbrev pub request : Env → Text → Simulated
  request env id = record {
    rpc_url = text_of env.soroban_rpc_url;
    allow_http = starts_with (codes "http://") (text_of env.soroban_rpc_url);
    contract_id = env.data_of.escrow_contract_id;
    event_id = id;
    network_passphrase = env.network_passphrase;
  }

  module _ (simulate : Simulated → Result Text Simulation) where
    abbrev pub read_with : Result EnvError Env → Text → Result ReadError EscrowEvent
    read_with (err e) id = err (env_error e)
    read_with (ok env) id =
        if is_unset env.soroban_rpc_url
        then err (escrow_read_error (codes "SOROBAN_RPC_URL is not configured"))
        else on_simulation (simulate (request env id))

    -- `env` is what reading a property of `env` gives.
    unfoldable pub read_escrow_event : Result EnvError Env → Text → Result ReadError EscrowEvent
    read_escrow_event env id =
        if is_event_id id
        then read_with env id
        else err (
            escrow_read_error (
              codes
                "escrowEventId must be 32 lowercase hex characters (the contract's BytesN<16>)"))
