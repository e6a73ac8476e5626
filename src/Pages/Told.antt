-- ===== src/Pages/Told.antt =====
-- When the event's page tells that the default resolver decides its disputes.
use astrea.Prelude.{
  ◌≡◌, refl, sym, ap, ◌∙◌, ◌⊎◌, ◌↔◌, inl, inr, true, Option, none, some, [], ◌∷◌, Text, Result, ok,
  err, arith, trim, Option-cases, Result-cases,
}
use astrea.Schema.{Event}
use astrea.Auth.Session.{Request}
use astrea.CoreGo.Organizer.{find_event}
use astrea.Network.{Env, EnvError}
use astrea.Network.Reading.{EscrowEvent, Simulation, Simulated, read_escrow_event}
use astrea.Views.Public.{resolve_dispute_resolver, trimmed_resolver}
use astrea.Pages.Offers.{EventPage, shown, event_page, resolver_view}
use astrea.Pages.Cards.{trimmed}

-- No text, or one of spaces only.
abbrev pub Blank : Option Text → Type 0
Blank o = trimmed o ≡ []

abbrev pub content : Option Text → Text
content none = []
content (some t) = t

abbrev pub Empty : Option Text → Type 0
Empty o = content o ≡ []

trimmed_default : (label t : Text) → (trimmed_resolver label t).is_default ≡ true → t ≡ []
trimmed_default label [] h = refl
trimmed_default label (c ∷ s) h = cc

default-Blank :
    (o : Option Text) (label : Text)
    → (resolve_dispute_resolver o label).is_default ≡ true
    → Blank o
unfolding resolve_dispute_resolver
default-Blank none label h = refl
default-Blank (some t) label h = trimmed_default label (trim t) h

Blank-default :
    (o : Option Text) (label : Text)
    → Blank o
    → (resolve_dispute_resolver o label).is_default ≡ true
unfolding resolve_dispute_resolver
Blank-default none label h = refl
Blank-default (some t) label e = rw e refl

module _ (to_number : Text → Text) (simulate : Simulated → Result Text Simulation)
    (unavailable_label default_label : Text) where
  -- The contract was read, and names no resolver.
  pub record ReadBlank (env : Result EnvError Env) (o : Option Text) : Type 0 where
    pub id : Text
    pub on_chain : o ≡ some id
    pub escrow : EscrowEvent
    pub read : read_escrow_event to_number simulate env id ≡ ok escrow
    pub blank : Blank escrow.resolver

  view-told :
      (env : Result EnvError Env) (o : Option Text)
      → (resolver_view to_number simulate unavailable_label default_label env o).is_default ≡ true
      → Empty o ⊎ ReadBlank env o
  view-told env none h = inl refl
  view-told env (some []) h = inl refl
  view-told env (some (c ∷ s)) h =
      elim (Result-cases (read_escrow_event to_number simulate env (c ∷ s))) [
        | inr (x, k) ↦ absurd (ground arith)
        | inl (e, k) ↦ inr (record {
          id = c ∷ s;
          on_chain = refl;
          escrow = e;
          read = k;
          blank = default-Blank e.resolver default_label (ground arith);
        })
      ]

  told-view :
      (env : Result EnvError Env) (o : Option Text)
      → Empty o ⊎ ReadBlank env o
      → (resolver_view to_number simulate unavailable_label default_label env o).is_default ≡ true
  told-view env none h = Blank-default none default_label refl
  told-view env (some []) h = Blank-default none default_label refl
  told-view env (some (c ∷ s)) (inl e) = cc
  told-view env (some (c ∷ s)) (inr r) =
      let same : c ∷ s ≡ r.id = ground arith in
      let k : read_escrow_event to_number simulate env (c ∷ s) ≡ ok r.escrow = rw same r.read in
      let d = Blank-default r.escrow.resolver default_label r.blank in ground arith

  -- The event's page says that the default resolver decides exactly when the event is not on the
  -- chain, or its contract was read and names no resolver; a read that failed never says so.
  pub event_page-resolver_iff :
      (env : Result EnvError Env) (site locale id : Text) (req : Request) (page : EventPage)
      → event_page to_number simulate unavailable_label default_label env site locale id req
        ≡ shown page
      → (event : Event) × (find_event id req.db.events ≡ some event)
        × ((page.resolver.is_default ≡ true)
            ↔ (Empty event.escrow_event_id ⊎ ReadBlank env event.escrow_event_id))
  unfolding event_page
  event_page-resolver_iff (err x) site locale id req page h = ground arith
  event_page-resolver_iff (ok v) site locale id req page h =
      elim (Option-cases (find_event id req.db.events)) [
        | inl e ↦ absurd (ground arith)
        | inr (event, e) ↦
            let same : page.resolver
                ≡ resolver_view to_number simulate unavailable_label default_label (ok v)
                    event.escrow_event_id =
              ground arith in
            let same_default = ap (λ d. d.is_default) same in
            (
              event,
              e,
              (
                λ d. view-told (ok v) event.escrow_event_id (sym same_default ∙ d),
                λ t. same_default ∙ told-view (ok v) event.escrow_event_id t,
              ),
            )
      ]
