-- ===== src/Network.antt =====
-- The server's environment, apps/web/src/lib/env.ts, and the network it names,
-- apps/web/src/lib/stellar-network.ts.
pub mod Guarded
pub mod Reading
pub mod Read
mod Tests
use astrea.Prelude.{
  starts_with, ℕ, Bool, true, false, not, ◌&&◌, ◌||◌, Option, none, some, List, [], ◌∷◌, ◌++◌, Text,
  codes, ◌===◌, ◌==◌, Result, ok, err, leb, length, all, if◌then◌else◌,
}
use astrea.Schema.{StellarNetwork, testnet, mainnet}

-- `process.env`
abbrev pub Vars : Type 0
Vars = Text → Option Text

-- `[A-Z2-7]`
abbrev pub is_base32 : ℕ → Bool
is_base32 c = (leb b'A' c && leb c b'Z') || (leb b'2' c && leb c b'7')

-- `/^C[A-Z2-7]{55}$/`, and with G that of an account.
abbrev pub is_strkey : ℕ → Text → Bool
is_strkey prefix [] = false
is_strkey prefix (c ∷ s) = (c == prefix) && ((length s == 55) && all is_base32 s)

-- STELLAR_NETWORK, from the environment as the module was loaded.
abbrev pub network_of : Option Text → StellarNetwork
network_of none = testnet
network_of (some s) = if s === codes "mainnet" then mainnet else testnet

-- NETWORK_CONFIG; the passphrases are the SDK's.
pub record Passphrases : Type 0 where
  pub test_net : Text
  pub public_net : Text

abbrev pub passphrase_of : Passphrases → StellarNetwork → Text
passphrase_of p testnet = p.test_net
passphrase_of p mainnet = p.public_net

abbrev pub horizon_url_of : StellarNetwork → Text
horizon_url_of testnet = codes "https://horizon-testnet.stellar.org"
horizon_url_of mainnet = codes "https://horizon.stellar.org"

abbrev pub default_rpc_url_of : StellarNetwork → Option Text
default_rpc_url_of testnet = some (codes "https://soroban-testnet.stellar.org")
default_rpc_url_of mainnet = none

-- The path of an issue with its message.
abbrev pub Issue : Type 0
Issue = Text × Text

-- What the schema makes of the variables.
pub record EnvData : Type 0 where
  pub stellar_network : StellarNetwork
  pub allow_mainnet : Bool
  pub escrow_contract_id : Text
  pub soroban_rpc_url : Option Text
  pub usdc_issuer : Text
  pub usdc_symbol : Text
  pub core_go_url : Option Text
  pub core_go_service_token : Option Text
  pub github_client_id : Option Text
  pub github_client_secret : Option Text

pub record Env : Type 0 where
  pub data_of : EnvData
  pub network_passphrase : Text
  pub horizon_url : Text
  pub soroban_rpc_url : Option Text

-- Zod: whether a text is a URL, and the message where a variable is missing or not as its check
-- wants it, by the variable's name.
pub record Zod : Type 0 where
  pub is_url : Text → Bool
  pub message : Text → Text

-- The fields of an object are all checked, and the issues listed in their order.
infixl 5 ◌<*>◌
abbrev pub ◌<*>◌ :
    {A B : Type 0} → Result (List Issue) (A → B) → Result (List Issue) A → Result (List Issue) B
ok f <*> ok a = ok (f a)
ok f <*> err js = err js
err is <*> ok a = err is
err is <*> err js = err (is ++ js)

abbrev pub Parsed : Type 0 → Type 0
Parsed A = Result (List Issue) A

-- A blank line means unset.
abbrev pub blank_to_unset : Option Text → Option Text
blank_to_unset none = none
blank_to_unset (some []) = none
blank_to_unset (some (c ∷ s)) = some (c ∷ s)

abbrev pub check : {A : Type 0} → Bool → Issue → A → Parsed A
check true issue a = ok a
check false issue a = err (issue ∷ [])

module _ (zod : Zod) where
  abbrev pub issue : Text → Issue
  issue name = (name, zod.message name)

  abbrev pub network_field : Text → Option Text → Parsed StellarNetwork
  network_field name none = ok testnet
  network_field name (some s) =
      check ((s === codes "testnet") || (s === codes "mainnet")) (issue name) (network_of (some s))

  abbrev pub flag_field : Text → Option Text → Parsed Bool
  flag_field name none = ok false
  flag_field name (some s) =
      check ((s === codes "true") || (s === codes "false")) (issue name) (s === codes "true")

  -- A text that a regular expression matches, with the schema's own message if not.
  abbrev pub strkey_field : ℕ → Text → Text → Option Text → Parsed Text
  strkey_field prefix message name none = err (issue name ∷ [])
  strkey_field prefix message name (some s) = check (is_strkey prefix s) (name, message) s

  abbrev pub symbol_field : Text → Option Text → Parsed Text
  symbol_field name none = ok (codes "USDC")
  symbol_field name (some s) = check (leb 1 (length s)) (issue name) s

  abbrev pub url_field : Text → Option Text → Parsed (Option Text)
  url_field name none = ok none
  url_field name (some s) = check (zod.is_url s) (issue name) (some s)

  abbrev pub min_field : ℕ → Text → Option Text → Parsed (Option Text)
  min_field n name none = ok none
  min_field n name (some s) = check (leb n (length s)) (issue name) (some s)

  abbrev pub contract_message : Text
  contract_message =
      codes
        "NEXT_PUBLIC_ESCROW_CONTRACT_ID must be a Soroban contract ID: starts with C, 56 characters total, base32 (A-Z, 2-7) after that"

  abbrev pub issuer_message : Text
  issuer_message = codes "USDC_ISSUER must be a Stellar account ID (starts with G, 56 chars)"

  abbrev pub to_data :
      StellarNetwork
      → Bool
      → Text
      → Option Text
      → Text
      → Text
      → Option Text
      → Option Text
      → Option Text
      → Option Text
      → EnvData
  to_data network allow contract rpc issuer symbol go token client secret = record {
    stellar_network = network;
    allow_mainnet = allow;
    escrow_contract_id = contract;
    soroban_rpc_url = rpc;
    usdc_issuer = issuer;
    usdc_symbol = symbol;
    core_go_url = go;
    core_go_service_token = token;
    github_client_id = client;
    github_client_secret = secret;
  }

  -- `serverSchema.safeParse`
  abbrev pub server_schema : Vars → Parsed EnvData
  server_schema vars =
      ok to_data
      <*> network_field (codes "NEXT_PUBLIC_STELLAR_NETWORK")
          (vars (codes "NEXT_PUBLIC_STELLAR_NETWORK"))
      <*> flag_field (codes "ALLOW_MAINNET") (vars (codes "ALLOW_MAINNET"))
      <*> strkey_field b'C' contract_message (codes "NEXT_PUBLIC_ESCROW_CONTRACT_ID")
          (vars (codes "NEXT_PUBLIC_ESCROW_CONTRACT_ID"))
      <*> url_field (codes "SOROBAN_RPC_URL") (blank_to_unset (vars (codes "SOROBAN_RPC_URL")))
      <*> strkey_field b'G' issuer_message (codes "USDC_ISSUER") (vars (codes "USDC_ISSUER"))
      <*> symbol_field (codes "USDC_SYMBOL") (vars (codes "USDC_SYMBOL"))
      <*> url_field (codes "CORE_GO_URL") (blank_to_unset (vars (codes "CORE_GO_URL")))
      <*> min_field 32 (codes "CORE_GO_SERVICE_TOKEN")
          (blank_to_unset (vars (codes "CORE_GO_SERVICE_TOKEN")))
      <*> min_field 1 (codes "GITHUB_CLIENT_ID") (blank_to_unset (vars (codes "GITHUB_CLIENT_ID")))
      <*> min_field 1 (codes "GITHUB_CLIENT_SECRET")
          (blank_to_unset (vars (codes "GITHUB_CLIENT_SECRET")))

-- Why `parseEnv` threw.
pub data EnvError : Type 0 where
  invalid : List Issue → EnvError
  mainnet_not_allowed mainnet_without_rpc : EnvError

abbrev pub is_mainnet : StellarNetwork → Bool
is_mainnet mainnet = true
is_mainnet testnet = false

abbrev pub is_unset : Option Text → Bool
is_unset none = true
is_unset (some []) = true
is_unset (some (c ∷ s)) = false

-- `a ?? b`
abbrev pub coalesce : Option Text → Option Text → Option Text
coalesce none b = b
coalesce (some a) b = some a

module _ (zod : Zod) (passphrases : Passphrases) (loaded : Vars) where
  abbrev pub stellar_network : StellarNetwork
  stellar_network = network_of (loaded (codes "NEXT_PUBLIC_STELLAR_NETWORK"))

  abbrev pub guard : Parsed EnvData → Result EnvError Env
  guard (err issues) = err (invalid issues)
  guard (ok data_of) =
      if is_mainnet data_of.stellar_network && not data_of.allow_mainnet
      then err mainnet_not_allowed
      else if is_mainnet data_of.stellar_network && is_unset data_of.soroban_rpc_url
      then err mainnet_without_rpc
      else ok (record {
        data_of = data_of;
        network_passphrase = passphrase_of passphrases stellar_network;
        horizon_url = horizon_url_of stellar_network;
        soroban_rpc_url = coalesce data_of.soroban_rpc_url (default_rpc_url_of stellar_network);
      })

  -- `loaded` is the environment when the module was loaded, `vars` when it is parsed.
  unfoldable pub parse_env : Vars → Result EnvError Env
  parse_env vars = guard (server_schema zod vars)

  -- A property of `env` is read: what was parsed is kept in `parsed`, a throw is not.
  abbrev pub keep_parsed : Result EnvError Env → Result EnvError Env × Option Env
  keep_parsed (ok e) = (ok e, some e)
  keep_parsed (err x) = (err x, none)

  unfoldable pub get_env : Vars → Option Env → Result EnvError Env × Option Env
  get_env vars none = keep_parsed (parse_env vars)
  get_env vars (some e) = (ok e, some e)

  -- Reads in turn, each with the environment at its time.
  unfoldable pub run_reads : List Vars → Option Env → List (Result EnvError Env)
  run_reads [] parsed = []
  run_reads (vars ∷ rest) parsed =
      let (r, parsed') = get_env vars parsed in r ∷ run_reads rest parsed'
