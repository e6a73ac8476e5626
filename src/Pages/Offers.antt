-- ===== src/Pages/Offers.antt =====
-- What the public page of an event offers its visitor, apps/web/src/app/[locale]/events/[id]/page.tsx.
use astrea.Prelude.{
  Bool, false, not, ◌&&◌, ◌||◌, Option, none, some, List, [], ◌∷◌, Text, ◌===◌, Result, ok, err,
  keep,
}
use astrea.Schema.{Event, Team, TeamMember, Wallet, Db}
use astrea.Auth.Session.{Request, get_session_wallet}
use astrea.CoreGo.Organizer.{find_event}
use astrea.CoreGo.Winners.{active_judges}
use astrea.Network.{Env, EnvError}
use astrea.Network.Reading.{EscrowEvent, Simulation, Simulated, read_escrow_event}
use astrea.Teams.Registration.{is_live}
use astrea.Views.Public.{DisputeResolver, resolve_dispute_resolver}
use astrea.Pages.Gates.{is_created, only_judge, is_judge, team_of}
use astrea.Pages.Cards.{member_of, read_or_null, canonical_url}

-- The controls that a visitor with a session is shown.
pub record Controls : Type 0 where
  pub judging_toggle : Bool
  pub go_live_link : Bool
  pub judge_link : Bool
  pub registration_form : Bool
  pub registered_note : Bool
  pub closed_note : Bool

-- No controls: the button that connects a wallet.
pub record EventPage : Type 0 where
  pub event_id : Text
  pub controls : Option Controls
  pub resolver : DisputeResolver
  pub share_url : Text

pub data EventReply : Type 0 where
  not_found : EventReply
  -- A throw of `env`.
  thrown : EnvError → EventReply
  shown : EventPage → EventReply

abbrev pub has_wallet : Text → List TeamMember → Bool
has_wallet wallet_id [] = false
has_wallet wallet_id (m ∷ ms) =
    let rest = has_wallet wallet_id ms in m.wallet_id === wallet_id || rest

abbrev pub on_a_team : Text → List TeamMember → List Team → Bool
on_a_team wallet_id members [] = false
on_a_team wallet_id members (t ∷ ts) =
    let rest = on_a_team wallet_id members ts in
    has_wallet wallet_id (keep (member_of t.id) members) || rest

-- `event.teams.some((team) => team.members.some(…))`
abbrev pub is_registered : Db → Event → Text → Bool
is_registered db event wallet_id =
    on_a_team wallet_id db.team_members (keep (team_of event.id) db.teams)

unfoldable pub controls_of : Db → Event → Wallet → Controls
controls_of db event session =
    let organizer = session.id === event.organizer_wallet_id in
    let judge = is_judge (only_judge (active_judges event.id db.judges)) session.address in
    let registered = is_registered db event session.id in
    record {
      judging_toggle = organizer && is_live event.status;
      go_live_link = organizer && is_created event.status;
      judge_link = judge;
      registration_form = is_live event.status && (not registered && not organizer);
      registered_note = registered;
      closed_note = not organizer && (not judge && (not registered && not (is_live event.status)));
    }

abbrev pub controls_for : Db → Event → Option Wallet → Option Controls
controls_for db event none = none
controls_for db event (some session) = some (controls_of db event session)

abbrev pub unavailable : Text → DisputeResolver
unavailable label = record { is_default = false; label = label; address = none }

-- The labels are translations: of a resolver that could not be read, and of the default one.
module _ (to_number : Text → Text) (simulate : Simulated → Result Text Simulation)
    (unavailable_label default_label : Text) where
  abbrev pub unless_read : Option EscrowEvent → DisputeResolver
  unless_read none = unavailable unavailable_label
  unless_read (some e) = resolve_dispute_resolver e.resolver default_label

  -- `event.escrowEventId && !escrow ? … : resolveDisputeResolver(escrow?.resolver, …)`
  abbrev pub resolver_view : Result EnvError Env → Option Text → DisputeResolver
  resolver_view env none = resolve_dispute_resolver none default_label
  resolver_view env (some []) = resolve_dispute_resolver none default_label
  resolver_view env (some (c ∷ s)) =
      unless_read (read_or_null (read_escrow_event to_number simulate env (c ∷ s)))

  abbrev pub page_of : Result EnvError Env → EventPage → EventReply
  page_of (err e) page = thrown e
  page_of (ok env) page = shown page

  -- `EventPage`
  unfoldable pub event_page : Result EnvError Env → Text → Text → Text → Request → EventReply
  event_page env site locale id req = elim (find_event id req.db.events) [
    | none ↦ not_found
    | some event ↦ page_of env (record {
      event_id = event.id;
      controls = controls_for req.db event (get_session_wallet req);
      resolver = resolver_view env event.escrow_event_id;
      share_url = canonical_url site locale event.id;
    })
  ]
