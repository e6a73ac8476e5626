-- ===== src/Pages/Drawn.antt =====
-- When a card is drawn, and whom it names.
use astrea.Prelude.{
  ℕ, zero, suc, ◌≡◌, refl, sym, ap, ◌∙◌, inl, inr, Bool, true, false, Option, none, some, [], ◌∷◌,
  Text, Result, ok, err, arith, Option-cases, Result-cases, Bool-cases, find, digits,
}
use astrea.Prelude.Int.{ℤ, pos, negsuc, is_positive}
use astrea.Schema.{EventStatus, Event, Db}
use astrea.Amount.{format_smallest_units}
use astrea.CoreGo.Organizer.{has_event_id}
use astrea.Network.{Env, EnvError}
use astrea.Network.Reading.{EscrowEvent, Simulation, Simulated, read_escrow_event}
use astrea.Views.Card.{EventCardModel, reward_of, pool_amount, build_event_card_model}
use astrea.Pages.Cards.{
  big_int, reward_for_card, picture, is_displayed, canonical_url, escrow_of, if_verifiable,
  displayed, display_route,
}

is_positive-pos : (z : ℤ) → is_positive z ≡ true → (r : ℕ) × (z ≡ pos (suc r))
is_positive-pos (pos zero) h = cc
is_positive-pos (pos (suc n)) h = (n, refl)
is_positive-pos (negsuc n) h = cc

if_verifiable-picture :
    (b : Bool) (m model : EventCardModel) (u url : Text)
    → if_verifiable b (picture m u) ≡ picture model url
    → (b ≡ true) × (m ≡ model)
if_verifiable-picture true m model u url h = (refl, ground arith)
if_verifiable-picture false m model u url h = cc

module _ (to_lower_case : Text → Text) (format_card_date : Text → ℕ → Text)
    (to_number : Text → Text) (simulate : Simulated → Result Text Simulation)
    (closes_at : Text → Option ℕ) where
  -- A drawn card: of an event whose status is shown, and whose contract was read with a positive
  -- reward, which is the prize pool that is printed.
  pub record Verified (env : Result EnvError Env) (shows : EventStatus → Bool) (db : Db) (id : Text)
      (model : EventCardModel) : Type 0 where
    pub event : Event
    pub found : find (has_event_id id) db.events ≡ some event
    pub is_shown : shows event.status ≡ true
    pub escrow_id : Text
    pub on_chain : event.escrow_event_id ≡ some escrow_id
    pub escrow : EscrowEvent
    pub read : read_escrow_event to_number simulate env escrow_id ≡ ok escrow
    pub reward : ℕ
    pub positive : big_int escrow.reward ≡ some (pos (suc reward))
    pub printed : model.prize_pool_amount ≡ format_smallest_units (digits (suc reward)) 7

  -- What a positive reward came of.
  positive-read :
      (env : Result EnvError Env) (o : Option Text)
      → is_positive (
          reward_of (
            reward_for_card
              (escrow_of to_lower_case format_card_date to_number simulate closes_at env o)))
        ≡ true
      → (id : Text) × (o ≡ some id)
        × (e : EscrowEvent) × (read_escrow_event to_number simulate env id ≡ ok e)
        × (r : ℕ) × (big_int e.reward ≡ some (pos (suc r)))
        × (pool_amount (
              reward_of (
                reward_for_card
                  (escrow_of to_lower_case format_card_date to_number simulate closes_at env o)))
            ≡ format_smallest_units (digits (suc r)) 7)
  positive-read env none h = cc
  positive-read env (some []) h = cc
  positive-read env (some (c ∷ s)) h =
      elim (Result-cases (read_escrow_event to_number simulate env (c ∷ s))) [
        | inr (x, k) ↦ absurd (ground arith)
        | inl (e, k) ↦ elim (Option-cases (big_int e.reward)) [
          | inl q ↦ absurd (ground arith)
          | inr (z, q) ↦
              let (r, zr) = is_positive-pos z (ground arith) in
              (_, refl, e, k, r, q ∙ ap some zr, ground arith)
        ]
      ]

  pub displayed-Verified :
      (env : Result EnvError Env) (shows : EventStatus → Bool) (link : Text) (db : Db)
      (event : Event) (id locale : Text) (now : ℕ) (model : EventCardModel) (url : Text)
      → find (has_event_id id) db.events ≡ some event
      → shows event.status ≡ true
      → displayed to_lower_case format_card_date to_number simulate closes_at env link db event
          locale now
        ≡ picture model url
      → Verified env shows db id model
  unfolding build_event_card_model
  displayed-Verified (err x) shows link db event id locale now model url e d h = cc
  displayed-Verified (ok v) shows link db event id locale now model url e d h =
      let (verifiable, same) = if_verifiable-picture _ _ model _ url h in
      let (escrow_id, on_chain, escrow, read, reward, positive, printed) =
        positive-read (ok v) event.escrow_event_id verifiable in
      record {
        event = event;
        found = e;
        is_shown = d;
        escrow_id = escrow_id;
        on_chain = on_chain;
        escrow = escrow;
        read = read;
        reward = reward;
        positive = positive;
        printed = sym (ap (λ m. m.prize_pool_amount) same) ∙ printed;
      }

  -- A picture is given only of an event that is LIVE or in JUDGING, when its contract was read and
  -- holds a positive reward, and the prize pool on the picture is that reward, to the stroop.
  pub display_route-Verified :
      (env : Result EnvError Env) (site : Text) (db : Db) (id locale : Text) (now : ℕ)
      (model : EventCardModel) (url : Text)
      → display_route to_lower_case format_card_date to_number simulate closes_at env site db id
          locale now
        ≡ picture model url
      → Verified env is_displayed db id model
  unfolding display_route build_event_card_model
  display_route-Verified env site db id locale now model url h =
      elim (Option-cases (find (has_event_id id) db.events)) [
        | inl e ↦ absurd (ground arith)
        | inr (event, e) ↦ elim (Bool-cases (is_displayed event.status)) [
          | inr d ↦ absurd (ground arith)
          | inl d ↦
              displayed-Verified env is_displayed (canonical_url site locale id) db event id locale
                now model url e d (ground arith)
        ]
      ]
