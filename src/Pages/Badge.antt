-- ===== src/Pages/Badge.antt =====
-- The badge on the event's page, apps/web/src/components/event/onchain-badge.tsx, with the links of
-- apps/web/src/lib/explorer.ts.
use astrea.Prelude.{
  ◌≡◌, refl, ap, ◌≢◌, ◌↔◌, inl, inr, Bool, true, false, Option, none, some, [], ◌∷◌, ◌++◌, Text,
  codes, Result, ok, arith, Result-cases,
}
use astrea.Amount.{format_smallest_units}
use astrea.Network.{Env, EnvError}
use astrea.Network.Reading.{
  EscrowEvent, EscrowEventState, created, waiting_for_start, in_progress, ended, Simulation,
  Simulated, read_escrow_event, compensated, cancelled, unknown, on_simulation, request,
}
use astrea.Pages.Cards.{read_or_null}

pub data ExplorerNetwork : Type 0 where
  testnet mainnet public_net : ExplorerNetwork

abbrev pub explorer_network : ExplorerNetwork → Text
explorer_network ExplorerNetwork.testnet = codes "testnet"
explorer_network _ = codes "public"

abbrev pub explorer_url : ExplorerNetwork → Text → Text → Text
explorer_url network kind id =
    codes "https://stellar.expert/explorer/" ++ (explorer_network network ++ (kind ++ id))

abbrev pub get_explorer_tx_url : Text → ExplorerNetwork → Text
get_explorer_tx_url hash network = explorer_url network (codes "/tx/") hash

abbrev pub get_explorer_contract_url : Text → ExplorerNetwork → Text
get_explorer_contract_url contract_id network =
    explorer_url network (codes "/contract/") contract_id

abbrev pub get_explorer_account_url : Text → ExplorerNetwork → Text
get_explorer_account_url address network = explorer_url network (codes "/account/") address

-- LOCKED_ESCROW_STATES
abbrev pub is_locked : EscrowEventState → Bool
is_locked created = true
is_locked waiting_for_start = true
is_locked in_progress = true
is_locked ended = true
is_locked _ = false

-- What the section says of an event on the chain: what was read, or that the read failed.
pub data ChainLine : Type 0 where
  not_on_chain : ChainLine
  read_failed : Text → ChainLine
  -- The event's id there, with the reward as it is printed.
  reward : Text → Text → ChainLine

pub record OnchainBadge : Type 0 where
  pub is_verified : Bool
  pub line : ChainLine
  pub contract_url : Option Text

abbrev pub link_if : Bool → Text → Option Text
link_if false url = none
link_if true url = some url

abbrev pub line_of : Text → Option EscrowEvent → ChainLine
line_of id none = read_failed id
line_of id (some e) = reward id (format_smallest_units e.reward 7)

abbrev pub is_confirmed_on_chain : Option EscrowEvent → Bool
is_confirmed_on_chain none = false
is_confirmed_on_chain (some e) = is_locked e.state

abbrev pub badge_on_chain : Text → ExplorerNetwork → Text → Option EscrowEvent → OnchainBadge
badge_on_chain contract_id network id escrow = record {
  is_verified = is_confirmed_on_chain escrow;
  line = line_of id escrow;
  contract_url =
      link_if (is_confirmed_on_chain escrow) (get_explorer_contract_url contract_id network);
}

-- An empty id is falsy.
unfoldable pub onchain_badge :
    Text → ExplorerNetwork → Option Text → Option EscrowEvent → OnchainBadge
onchain_badge contract_id network (some (c ∷ s)) escrow =
    badge_on_chain contract_id network (c ∷ s) escrow
onchain_badge contract_id network _ escrow = record {
  is_verified = false;
  line = not_on_chain;
  contract_url = none;
}

module _ (to_number : Text → Text) (simulate : Simulated → Result Text Simulation) where
  -- The page's read, as the page hands it to the badge.
  abbrev pub escrow_read : Result EnvError Env → Option Text → Option EscrowEvent
  escrow_read env (some (c ∷ s)) = read_or_null (read_escrow_event to_number simulate env (c ∷ s))
  escrow_read env _ = none

  -- The badge as the page asks for it, with the contract and the read of one environment.
  unfoldable pub page_badge : Env → ExplorerNetwork → Option Text → OnchainBadge
  page_badge env network o =
      onchain_badge env.data_of.escrow_contract_id network o (escrow_read (ok env) o)

  -- The simulation was asked for the event of a contract and its answer is an event that is not over,
  -- nor in a state that the app does not know; its reward is printed, with the link to that contract.
  pub record Locked (env : Env) (network : ExplorerNetwork) (o : Option Text) (badge : OnchainBadge)
      : Type 0 where
    pub id : Text
    pub on_chain : o ≡ some id
    pub asked : Simulated
    pub asked_id : asked.event_id ≡ id
    pub escrow : EscrowEvent
    pub answered : on_simulation to_number (simulate asked) ≡ ok escrow
    pub read : read_escrow_event to_number simulate (ok env) id ≡ ok escrow
    pub not_compensated : escrow.state ≢ compensated
    pub not_cancelled : escrow.state ≢ cancelled
    pub known : (t : Text) → escrow.state ≢ unknown t
    pub printed : badge.line ≡ reward id (format_smallest_units escrow.reward 7)
    pub linked :
        badge.contract_url
        ≡ some (
            codes "https://stellar.expert/explorer/"
            ++ (explorer_network network ++ (codes "/contract/" ++ asked.contract_id)))

  state_held :
      (s : EscrowEventState)
      → is_locked s ≡ true
      → (s ≢ compensated) × (s ≢ cancelled) × ((t : Text) → s ≢ unknown t)
  state_held s h = (λ e. ground arith, λ e. ground arith, λ t e. ground arith)

  held_state :
      (s : EscrowEventState)
      → s ≢ compensated
      → s ≢ cancelled
      → ((t : Text) → s ≢ unknown t)
      → is_locked s ≡ true
  held_state created c d u = refl
  held_state waiting_for_start c d u = refl
  held_state in_progress c d u = refl
  held_state ended c d u = refl
  held_state compensated c d u = absurd (c refl)
  held_state cancelled c d u = absurd (d refl)
  held_state (unknown t) c d u = absurd (u t refl)

  -- A read that succeeded is the simulation's answer about the configured contract.
  read-answered :
      (env : Env) (id : Text) (e : EscrowEvent)
      → read_escrow_event to_number simulate (ok env) id ≡ ok e
      → on_simulation to_number (simulate (request to_number env id)) ≡ ok e
  unfolding read_escrow_event
  read-answered env id e h = ground arith

  verified-Locked :
      (env : Env) (network : ExplorerNetwork) (o : Option Text)
      → (page_badge env network o).is_verified ≡ true
      → Locked env network o (page_badge env network o)
  unfolding page_badge onchain_badge
  verified-Locked env network none h = cc
  verified-Locked env network (some []) h = cc
  verified-Locked env network (some (c ∷ s)) h =
      elim (Result-cases (read_escrow_event to_number simulate (ok env) (c ∷ s))) [
        | inr (x, k) ↦ absurd (ground arith)
        | inl (e, k) ↦
            let (c1, c2, c3) = state_held e.state (ground arith) in
            record {
              id = c ∷ s;
              on_chain = refl;
              asked = request to_number env (c ∷ s);
              asked_id = refl;
              escrow = e;
              answered = read-answered env (c ∷ s) e k;
              read = k;
              not_compensated = c1;
              not_cancelled = c2;
              known = c3;
              printed = rw k refl;
              linked =
                  ap
                    (λ b.
                      link_if b (get_explorer_contract_url env.data_of.escrow_contract_id network))
                    h;
            }
      ]

  Locked-verified :
      (env : Env) (network : ExplorerNetwork) (o : Option Text)
      → Locked env network o (page_badge env network o)
      → (page_badge env network o).is_verified ≡ true
  unfolding page_badge onchain_badge
  Locked-verified env network none l = let e = l.on_chain in cc
  Locked-verified env network (some []) l = let e = l.printed in cc
  Locked-verified env network (some (c ∷ s)) l =
      let same : c ∷ s ≡ l.id = ground arith in
      let k : read_escrow_event to_number simulate (ok env) (c ∷ s) ≡ ok l.escrow =
        rw same l.read in
      let locked = held_state l.escrow.state l.not_compensated l.not_cancelled l.known in
      ground arith

  -- The page says that the prizes are verified on the chain exactly when a contract was asked for the
  -- event, and answered with a state that is known and neither compensated nor cancelled; it then
  -- prints the reward of that answer and links to the contract that was asked.
  pub page_badge_iff :
      (env : Env) (network : ExplorerNetwork) (o : Option Text)
      → ((page_badge env network o).is_verified ≡ true)
        ↔ Locked env network o (page_badge env network o)
  page_badge_iff env network o = (verified-Locked env network o, Locked-verified env network o)
