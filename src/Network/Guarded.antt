-- ===== src/Network/Guarded.antt =====
-- What an environment that was parsed promises to the code that reads it.
use mathlib.Core.Path.{subst}
use astrea.Prelude.{
  ℕ, ◌≡◌, refl, sym, ap, ◌∙◌, ◌⊎◌, inl, inr, Bool, true, false, not, ◌&&◌, Option, none, some, List,
  [], ◌∷◌, Text, codes, ◌===◌, Result, ok, err, Result-cases, Bool-cases, All, arith,
}
use astrea.Schema.{StellarNetwork, testnet, mainnet}
use astrea.Network.{
  Vars, is_strkey, network_of, Passphrases, passphrase_of, horizon_url_of, default_rpc_url_of,
  EnvData, to_data, Env, Zod, Parsed, ◌<*>◌, check, blank_to_unset, network_field, flag_field,
  strkey_field, url_field, contract_message, server_schema, EnvError, is_mainnet, is_unset,
  coalesce, stellar_network, guard, parse_env, get_env, run_reads,
}

-- Inversion of one field of an object that parsed.
<*>-ok :
    {A B : Type 0} (f : Parsed (A → B)) (a : Parsed A) {b : B}
    → (f <*> a) ≡ ok b
    → (g : A → B) × (x : A) × (f ≡ ok g) × (a ≡ ok x) × (g x ≡ b)
<*>-ok (ok g) (ok x) e = (g, x, refl, refl, ground arith)
<*>-ok (ok g) (err i) e = cc
<*>-ok (err i) (ok x) e = cc
<*>-ok (err i) (err j) e = cc

ok-eq : {A : Type 0} (a b : A) → Path (Parsed A) (ok a) (ok b) → a ≡ b
ok-eq a b e = ap (λ r. elim r [ ok x ↦ x | err _ ↦ a ]) e

-- A blank URL means unset, so one that is set is not blank.
abbrev pub IsFilled : Option Text → Type 0
IsFilled o = (o ≡ none) ⊎ (is_unset o ≡ false)

check-ok :
    {A : Type 0} (c : Bool) (i : Text × Text) (a b : A) → check c i a ≡ ok b → (c ≡ true) × (a ≡ b)
check-ok true i a b e = (refl, ground arith)
check-ok false i a b e = cc

===-eq : (s t : Text) → s === t ≡ true → s ≡ t
===-eq s t e = ground arith

module _ (zod : Zod) where
  url_field-IsFilled :
      (name : Text) (o u : Option Text) → url_field zod name (blank_to_unset o) ≡ ok u → IsFilled u
  url_field-IsFilled name none u e = ground arith
  url_field-IsFilled name (some []) u e = ground arith
  url_field-IsFilled name (some (c ∷ s)) u e = ground arith

  flag_field_lem :
      (name : Text) (o : Option Text) → flag_field zod name o ≡ ok true → o ≡ some (codes "true")
  flag_field_lem name none e = cc
  flag_field_lem name (some s) e = ap some (===-eq s (codes "true") (check-ok _ _ _ _ e).1)

  network_field_lem :
      (name : Text) (o : Option Text) (n : StellarNetwork)
      → network_field zod name o ≡ ok n
      → network_of o ≡ n
  network_field_lem name none n e = ground arith
  network_field_lem name (some s) n e = (check-ok _ _ _ _ e).1

  strkey_field_lem :
      (prefix : ℕ) (message name : Text) (o : Option Text) (t : Text)
      → strkey_field zod prefix message name o ≡ ok t
      → (o ≡ some t) × (is_strkey prefix t ≡ true)
  strkey_field_lem prefix message name none t e = cc
  strkey_field_lem prefix message name (some s) t e =
      let (holds, same) = check-ok (is_strkey prefix s) (name, message) s t e in
      (ap some same, subst (λ x. is_strkey prefix x ≡ true) same holds)

  -- What the schema says of the fields that the guards and the readers of the contract use.
  record Fields (vars : Vars) (d : EnvData) : Type 0 where
    network : network_of (vars (codes "NEXT_PUBLIC_STELLAR_NETWORK")) ≡ d.stellar_network
    allowed : d.allow_mainnet ≡ true → vars (codes "ALLOW_MAINNET") ≡ some (codes "true")
    contract : is_strkey b'C' d.escrow_contract_id ≡ true
    rpc_set : IsFilled d.soroban_rpc_url

  -- The fields of an object that parsed, each off its own variable.
  fields-ok :
      (r1 : Parsed StellarNetwork) (r2 : Parsed Bool) (r3 : Parsed Text) (r4 : Parsed (Option Text))
      (r5 r6 : Parsed Text) (r7 r8 r9 r10 : Parsed (Option Text)) (d : EnvData)
      → (ok (to_data zod) <*> r1 <*> r2 <*> r3 <*> r4 <*> r5 <*> r6 <*> r7 <*> r8 <*> r9 <*> r10)
        ≡ ok d
      → (r1 ≡ ok d.stellar_network)
        × (r2 ≡ ok d.allow_mainnet)
        × (r3 ≡ ok d.escrow_contract_id)
        × (r4 ≡ ok d.soroban_rpc_url)
  fields-ok r1 r2 r3 r4 r5 r6 r7 r8 r9 r10 d e =
      let p1 = ok (to_data zod) <*> r1 in
      let p2 = p1 <*> r2 in
      let p3 = p2 <*> r3 in
      let p4 = p3 <*> r4 in
      let p5 = p4 <*> r5 in
      let p6 = p5 <*> r6 in
      let p7 = p6 <*> r7 in
      let p8 = p7 <*> r8 in
      let p9 = p8 <*> r9 in
      let (f9, x10, e9, _, q10) = <*>-ok p9 r10 e in
      let (f8, x9, e8, _, q9) = <*>-ok p8 r9 e9 in
      let (f7, x8, e7, _, q8) = <*>-ok p7 r8 e8 in
      let (f6, x7, e6, _, q7) = <*>-ok p6 r7 e7 in
      let (f5, x6, e5, _, q6) = <*>-ok p5 r6 e6 in
      let (f4, x5, e4, _, q5) = <*>-ok p4 r5 e5 in
      let (f3, x4, e3, rpc, q4) = <*>-ok p3 r4 e4 in
      let (f2, x3, e2, contract, q3) = <*>-ok p2 r3 e3 in
      let (f1, x2, e1, flag, q2) = <*>-ok p1 r2 e2 in
      let (f0, x1, e0, network, q1) = <*>-ok (ok (to_data zod)) r1 e1 in
      let same : to_data zod x1 x2 x3 x4 x5 x6 x7 x8 x9 x10 ≡ d =
        ap (λ f. f x1 x2 x3 x4 x5 x6 x7 x8 x9 x10) (ok-eq (to_data zod) _ e0)
        ∙ ap (λ f. f x2 x3 x4 x5 x6 x7 x8 x9 x10) q1
        ∙ ap (λ f. f x3 x4 x5 x6 x7 x8 x9 x10) q2
        ∙ ap (λ f. f x4 x5 x6 x7 x8 x9 x10) q3
        ∙ ap (λ f. f x5 x6 x7 x8 x9 x10) q4
        ∙ ap (λ f. f x6 x7 x8 x9 x10) q5
        ∙ ap (λ f. f x7 x8 x9 x10) q6
        ∙ ap (λ f. f x8 x9 x10) q7
        ∙ ap (λ f. f x9 x10) q8
        ∙ ap (λ f. f x10) q9
        ∙ q10 in
      (
        network ∙ ap (λ (v : EnvData). ok v.stellar_network) same,
        flag ∙ ap (λ (v : EnvData). ok v.allow_mainnet) same,
        contract ∙ ap (λ (v : EnvData). ok v.escrow_contract_id) same,
        rpc ∙ ap (λ (v : EnvData). ok v.soroban_rpc_url) same,
      )

  server_schema_lem : (vars : Vars) (d : EnvData) → server_schema zod vars ≡ ok d → Fields vars d
  server_schema_lem vars d e =
      let (network, flag, contract, rpc) = fields-ok _ _ _ _ _ _ _ _ _ _ d e in
      record {
        network = network_field_lem _ _ _ network;
        allowed = λ t. flag_field_lem _ _ (flag ∙ ap ok t);
        contract =
            (strkey_field_lem b'C' (contract_message zod) (codes "NEXT_PUBLIC_ESCROW_CONTRACT_ID")
              (vars (codes "NEXT_PUBLIC_ESCROW_CONTRACT_ID")) _ contract).1;
        rpc_set = url_field-IsFilled _ _ _ rpc;
      }

is_mainnet-eq : (n : StellarNetwork) → is_mainnet n ≡ true → n ≡ mainnet
is_mainnet-eq mainnet e = refl
is_mainnet-eq testnet e = cc

-- The app runs on mainnet only where it was allowed to, and with an RPC server of its own; the RPC
-- server is never missing; and the passphrase, Horizon and the network go together.
pub record Guarded (passphrases : Passphrases) (vars : Vars) (env : Env) : Type 0 where
  pub allowed :
      env.data_of.stellar_network ≡ mainnet → vars (codes "ALLOW_MAINNET") ≡ some (codes "true")
  pub own_rpc : env.data_of.stellar_network ≡ mainnet → is_unset env.data_of.soroban_rpc_url ≡ false
  pub has_rpc : is_unset env.soroban_rpc_url ≡ false
  pub passphrase : env.network_passphrase ≡ passphrase_of passphrases env.data_of.stellar_network
  pub horizon : env.horizon_url ≡ horizon_url_of env.data_of.stellar_network
  pub contract : is_strkey b'C' env.data_of.escrow_contract_id ≡ true

coalesce_set :
    (n : StellarNetwork) (o : Option Text)
    → IsFilled o
    → is_mainnet n && is_unset o ≡ false
    → is_unset (coalesce o (default_rpc_url_of n)) ≡ false
coalesce_set testnet none h e = refl
coalesce_set mainnet none h e = cc
coalesce_set testnet (some []) h e = ground arith
coalesce_set mainnet (some []) h e = cc
coalesce_set n (some (c ∷ s)) h e = refl

module _ (zod : Zod) (passphrases : Passphrases) (vars : Vars) where
  guard-Guarded :
      (d : EnvData) (env : Env)
      → Fields zod vars d
      → guard zod passphrases vars (ok d) ≡ ok env
      → Guarded passphrases vars env
  guard-Guarded d env h e =
      elim (Bool-cases (is_mainnet d.stellar_network && not d.allow_mainnet)) [
        | inl k ↦ absurd (ground arith)
        | inr k ↦ elim (Bool-cases (is_mainnet d.stellar_network && is_unset d.soroban_rpc_url)) [
          | inl m ↦ absurd (ground arith)
          | inr m ↦
              let env' : Env = record {
                data_of = d;
                network_passphrase =
                    passphrase_of passphrases (stellar_network zod passphrases vars);
                horizon_url = horizon_url_of (stellar_network zod passphrases vars);
                soroban_rpc_url =
                    coalesce d.soroban_rpc_url
                      (default_rpc_url_of (stellar_network zod passphrases vars));
              } in
              let same : env' ≡ env = ground arith in
              subst (Guarded passphrases vars) same (record {
                allowed = λ q. h.allowed (ground arith);
                own_rpc = λ q. ground arith;
                has_rpc =
                    subst
                      (λ n. is_unset (coalesce d.soroban_rpc_url (default_rpc_url_of n)) ≡ false)
                      (sym h.network)
                      (coalesce_set d.stellar_network d.soroban_rpc_url h.rpc_set m);
                passphrase = ap (passphrase_of passphrases) h.network;
                horizon = ap horizon_url_of h.network;
                contract = h.contract;
              })
        ]
      ]

  -- An environment that parses, and that is the one the app was loaded with: mainnet only behind
  -- ALLOW_MAINNET=true and with SOROBAN_RPC_URL set; there is always a Soroban RPC URL, which is not
  -- blank; the passphrase and Horizon are those of the network; and the contract is a contract id.
  pub parse_env-Guarded :
      (env : Env) → parse_env zod passphrases vars vars ≡ ok env → Guarded passphrases vars env
  unfolding parse_env
  parse_env-Guarded env e = elim (Result-cases (server_schema zod vars)) [
    | inr (issues, k) ↦ absurd (ground arith)
    | inl (d, k) ↦
        guard-Guarded d env (server_schema_lem zod vars d k)
          (ap (guard zod passphrases vars) (sym k) ∙ e)
  ]

module _ (zod : Zod) (passphrases : Passphrases) (loaded : Vars) where
  abbrev pub Gives : Env → Result EnvError Env → Type 0
  Gives env r = r ≡ ok env

  run_reads_kept :
      (env : Env) (reads : List Vars)
      → All (Gives env) (run_reads zod passphrases loaded reads (some env))
  unfolding run_reads get_env
  run_reads_kept env [] = tt
  run_reads_kept env (vars ∷ reads) = (refl, run_reads_kept env reads)

  -- Once the environment was parsed, every later read has that one, whatever becomes of the
  -- variables; and after a read that threw, the next one parses again.
  pub run_reads_lem :
      (vars : Vars) (reads : List Vars)
      → ((env : Env) × (parse_env zod passphrases loaded vars ≡ ok env)
          × All (Gives env) (run_reads zod passphrases loaded (vars ∷ reads) none))
        ⊎ ((x : EnvError) × (parse_env zod passphrases loaded vars ≡ err x)
            × (run_reads zod passphrases loaded (vars ∷ reads) none
                ≡ err x ∷ run_reads zod passphrases loaded reads none))
  unfolding run_reads get_env
  run_reads_lem vars reads = elim (Result-cases (parse_env zod passphrases loaded vars)) [
    | inl (env, e) ↦ inl (env, e, rw e (refl, run_reads_kept env reads))
    | inr (x, e) ↦ inr (x, e, rw e refl)
  ]
