-- ===== src/Network/Read.antt =====
-- When a read of the contract's event succeeds.
use mathlib.Core.Path.{subst}
use astrea.Prelude.{
  ◌≡◌, refl, ◌⊎◌, inl, inr, true, [], ◌∷◌, Text, codes, Result, ok, err, Result-cases, Bool-cases,
  arith,
}
use astrea.Network.{Vars, Zod, Passphrases, Env, is_unset, parse_env}
use astrea.Network.Guarded.{parse_env-Guarded}
use astrea.Network.Reading.{
  Native, bigint, number, string, other, EscrowEvent, EscrowEventState, Simulation,
  simulation_error, no_result, returned, Simulated, is_event_id, to_reward, to_state, to_address,
  state_of, resolver_of, to_event, on_simulation, request, read_escrow_event,
}

module _ (to_number : Text → Text) where
  -- The contract's values, of the kinds that the page shows, are the event's fields.
  pub record Fields (native : Text → Native) (e : EscrowEvent) : Type 0 where
    pub reward :
        (native (codes "reward") ≡ bigint e.reward) ⊎ (native (codes "reward") ≡ number e.reward)
    pub state :
        ((n : Text) × (native (codes "state") ≡ bigint n) × (e.state ≡ state_of (to_number n)))
        ⊎ ((n : Text) × (native (codes "state") ≡ number n) × (e.state ≡ state_of n))
    pub token : native (codes "token") ≡ string e.token
    pub admin : native (codes "admin") ≡ string e.admin
    pub judge : native (codes "judge") ≡ string e.judge
    pub resolver : e.resolver ≡ resolver_of to_number (native (codes "resolver"))

  to_reward-ok : (v : Native) (t : Text) → to_reward v ≡ ok t → (v ≡ bigint t) ⊎ (v ≡ number t)
  unfolding to_reward
  to_reward-ok (bigint n) t e = ground arith
  to_reward-ok (number n) t e = ground arith
  to_reward-ok (string n) t e = cc
  to_reward-ok (other n) t e = cc

  to_address-ok : (v : Native) (field t : Text) → to_address v field ≡ ok t → v ≡ string t
  unfolding to_address
  to_address-ok (bigint n) field t e = cc
  to_address-ok (number n) field t e = cc
  to_address-ok (string []) field t e = cc
  to_address-ok (string (c ∷ s)) field t e = ground arith
  to_address-ok (other n) field t e = cc

  to_state-ok :
      (v : Native) (s : EscrowEventState)
      → to_state to_number v ≡ ok s
      → ((n : Text) × (v ≡ bigint n) × (s ≡ state_of (to_number n)))
        ⊎ ((n : Text) × (v ≡ number n) × (s ≡ state_of n))
  unfolding to_state
  to_state-ok (bigint n) s e = inl (n, refl, ground arith)
  to_state-ok (number n) s e = inr (n, refl, ground arith)
  to_state-ok (string n) s e = cc
  to_state-ok (other n) s e = cc

  to_event-Fields :
      (native : Text → Native) (e : EscrowEvent)
      → to_event to_number native ≡ ok e
      → Fields native e
  to_event-Fields native e h = elim (Result-cases (to_reward (native (codes "reward")))) [
    | inr (x, k) ↦ absurd (ground arith)
    | inl (reward, k1) ↦ elim (Result-cases (to_state to_number (native (codes "state")))) [
      | inr (x, k) ↦ absurd (ground arith)
      | inl (state, k2) ↦
          elim (Result-cases (to_address (native (codes "token")) (codes "token"))) [
            | inr (x, k) ↦ absurd (ground arith)
            | inl (token, k3) ↦
                elim (Result-cases (to_address (native (codes "admin")) (codes "admin"))) [
                  | inr (x, k) ↦ absurd (ground arith)
                  | inl (admin, k4) ↦
                      elim (Result-cases (to_address (native (codes "judge")) (codes "judge"))) [
                        | inr (x, k) ↦ absurd (ground arith)
                        | inl (judge, k5) ↦
                            let e' : EscrowEvent = record {
                              reward = reward;
                              state = state;
                              token = token;
                              admin = admin;
                              judge = judge;
                              resolver = resolver_of to_number (native (codes "resolver"));
                            } in
                            let same : e' ≡ e = ground arith in
                            subst (Fields native) same (record {
                              reward = to_reward-ok _ reward k1;
                              state = to_state-ok _ state k2;
                              token = to_address-ok _ _ token k3;
                              admin = to_address-ok _ _ admin k4;
                              judge = to_address-ok _ _ judge k5;
                              resolver = refl;
                            })
                      ]
                ]
          ]
    ]
  ]

  -- How an event was read: under its id, off the contract and the network of the environment.
  pub record ReadOff (simulate : Simulated → Result Text Simulation) (env : Env) (id : Text)
      (e : EscrowEvent) : Type 0 where
    pub well_formed : is_event_id id ≡ true
    pub native : Text → Native
    pub answered : simulate (request to_number env id) ≡ ok (returned native)
    pub fields : Fields native e

  module _ (simulate : Simulated → Result Text Simulation) where
    on_simulation-ok :
        (r : Result Text Simulation) (e : EscrowEvent)
        → on_simulation to_number r ≡ ok e
        → (native : Text → Native) × (r ≡ ok (returned native)) × (to_event to_number native ≡ ok e)
    on_simulation-ok (err message) e h = cc
    on_simulation-ok (ok (simulation_error message)) e h = cc
    on_simulation-ok (ok no_result) e h = cc
    on_simulation-ok (ok (returned native)) e h = (native, refl, h)

    read_escrow_event-ReadOff :
        (env : Env) (id : Text) (e : EscrowEvent)
        → read_escrow_event to_number simulate (ok env) id ≡ ok e
        → ReadOff simulate env id e
    unfolding read_escrow_event
    read_escrow_event-ReadOff env id e h = elim (Bool-cases (is_event_id id)) [
      | inr k ↦ absurd (ground arith)
      | inl k ↦ elim (Bool-cases (is_unset env.soroban_rpc_url)) [
        | inl m ↦ absurd (ground arith)
        | inr m ↦
            let (native, answered, fields) =
              on_simulation-ok (simulate (request to_number env id)) e (ground arith) in
            record {
              well_formed = k;
              native = native;
              answered = answered;
              fields = to_event-Fields native e fields;
            }
      ]
    ]

    -- For an id of 32 lowercase hexadecimal digits, under an environment that parses, the answer is
    -- made of what the RPC server says of the configured contract, and is never that its URL is not
    -- configured; and an event that is returned has the contract's own reward, state and addresses.
    pub read_escrow_event_lem :
        (zod : Zod) (passphrases : Passphrases) (vars : Vars) (env : Env) (id : Text)
        → parse_env zod passphrases vars vars ≡ ok env
        → is_event_id id ≡ true
        → let r = read_escrow_event to_number simulate (ok env) id in
          (r ≡ on_simulation to_number (simulate (request to_number env id)))
          × ((e : EscrowEvent) → r ≡ ok e → ReadOff simulate env id e)
    unfolding read_escrow_event
    read_escrow_event_lem zod passphrases vars env id parsed h =
        let has_rpc = (parse_env-Guarded zod passphrases vars env parsed).has_rpc in
        (rw h (rw has_rpc refl), read_escrow_event-ReadOff env id)
