-- ===== src/Pages/Receipt.antt =====
-- The printed receipt of an event, apps/web/src/app/[locale]/events/[id]/print/page.tsx.
use mathlib.Core.Path.{subst}
use astrea.Prelude.{
  ℕ, ◌≡◌, refl, sym, ap, ◌∙◌, ◌↔◌, inl, inr, Bool, true, false, ◌&&◌, Option, none, some, List, [],
  ◌∷◌, Text, Result, arith, All, Option-cases, Bool-cases, find, ltb, length, if◌then◌else◌,
}
use astrea.Schema.{Prize, Db}
use astrea.CoreGo.Organizer.{has_event_id}
use astrea.Network.{Env, EnvError}
use astrea.Network.Reading.{Simulation, Simulated}
use astrea.Views.Card.{EventCardModel}
use astrea.Pages.Gates.{event_prizes, is_completed}
use astrea.Pages.Cards.{
  CardReply, picture, generic, not_found, failed, canonical_url, displayed, open_graph_image,
  display_route,
}
use astrea.Pages.Drawn.{Verified, displayed-Verified}
use astrea.Pages.Unlinked.{
  LinkedByApp, unlinked, displayed-unlinked, open_graph_image-unlinked, display_route-unlinked,
}

-- `Boolean(x)` of a column.
abbrev pub is_present : Option Text → Bool
is_present none = false
is_present (some []) = false
is_present (some (c ∷ s)) = true

abbrev pub is_paid : Prize → Bool
is_paid p = is_present p.winner_team_id && is_present p.release_tx_hash

abbrev pub every_paid : List Prize → Bool
every_paid [] = true
every_paid (p ∷ ps) = let rest = every_paid ps in is_paid p && rest

-- `event.prizes.length > 0 && event.prizes.every(…)`
abbrev pub all_payouts_confirmed : List Prize → Bool
all_payouts_confirmed [] = false
all_payouts_confirmed (p ∷ ps) = every_paid (p ∷ ps)

pub data PrintView : Type 0 where
  absent unavailable : PrintView
  -- The card's model, whether all payouts are confirmed, and the link in the QR code.
  receipt : EventCardModel → Bool → Text → PrintView
  -- A throw of `env`.
  thrown : EnvError → PrintView

-- What the model's page shows.
abbrev pub print_view : List Prize → CardReply → PrintView
print_view prizes (picture model url) = receipt model (all_payouts_confirmed prizes) url
print_view prizes (failed e) = thrown e
print_view prizes (not_found stored) = unavailable
print_view prizes generic = absent

-- A winner and the hash of a release, neither of which is empty.
pub record Paid (p : Prize) : Type 0 where
  pub team_head : ℕ
  pub team_tail : Text
  pub hash_head : ℕ
  pub hash_tail : Text
  pub won : p.winner_team_id ≡ some (team_head ∷ team_tail)
  pub released : p.release_tx_hash ≡ some (hash_head ∷ hash_tail)

is_present_iff : (o : Option Text) → is_present o ≡ true → (c : ℕ) × (s : Text) × (o ≡ some (c ∷ s))
is_present_iff none h = cc
is_present_iff (some []) h = cc
is_present_iff (some (c ∷ s)) h = (c, s, refl)

every_paid-Paid : (ps : List Prize) → every_paid ps ≡ true → All Paid ps
every_paid-Paid [] h = tt
every_paid-Paid (p ∷ ps) h =
    let (team_head, team_tail, won) = is_present_iff p.winner_team_id (ground arith) in
    let (hash_head, hash_tail, released) = is_present_iff p.release_tx_hash (ground arith) in
    (
      record {
        team_head = team_head;
        hash_head = hash_head;
        team_tail = team_tail;
        hash_tail = hash_tail;
        won = won;
        released = released;
      },
      every_paid-Paid ps (ground arith),
    )

Paid-every_paid : (ps : List Prize) → All Paid ps → every_paid ps ≡ true
Paid-every_paid [] h = refl
Paid-every_paid (p ∷ ps) (paid, h) =
    let rest = Paid-every_paid ps h in
    let won = paid.won in let released = paid.released in ground arith

-- All payouts are confirmed when there is a prize and each is paid.
abbrev pub AllPaid : List Prize → Type 0
AllPaid ps = (ltb 0 (length ps) ≡ true) × All Paid ps

all_payouts_confirmed_iff : (ps : List Prize) → (all_payouts_confirmed ps ≡ true) ↔ AllPaid ps
all_payouts_confirmed_iff [] = (λ h. cc, λ h. absurd (ground arith))
all_payouts_confirmed_iff (p ∷ ps) =
    (λ h. (ground arith, every_paid-Paid (p ∷ ps) h), λ (some_prize, h). Paid-every_paid (p ∷ ps) h)

module _ (to_lower_case : Text → Text) (format_card_date : Text → ℕ → Text)
    (to_number : Text → Text) (simulate : Simulated → Result Text Simulation)
    (closes_at : Text → Option ℕ) where
  -- `EventPrintPage`, which builds its model as the picture does.
  unfoldable pub print_page : Result EnvError Env → Text → Db → Text → Text → ℕ → PrintView
  print_page env site db id locale now = elim (find (has_event_id id) db.events) [
    | none ↦ absent
    | some event ↦
        if is_completed event.status
        then print_view (event_prizes db event.id) (
            displayed to_lower_case format_card_date to_number simulate closes_at env
              (canonical_url site locale id) db event locale now)
        else absent
  ]

  print_view-receipt :
      (prizes : List Prize) (reply : CardReply) (model : EventCardModel) (b : Bool) (url : Text)
      → print_view prizes reply ≡ receipt model b url
      → (reply ≡ picture model url) × (b ≡ all_payouts_confirmed prizes)
  print_view-receipt prizes (picture m u) model b url h = (ground arith, ground arith)
  print_view-receipt prizes (failed e) model b url h = cc
  print_view-receipt prizes (not_found s) model b url h = cc
  print_view-receipt prizes generic model b url h = cc

  -- A receipt is printed only of a COMPLETED event whose contract was read and holds a positive
  -- reward, which is the amount on the receipt, to the stroop; it says that all payouts are confirmed
  -- exactly when the event has prizes and each has a winner and the hash of its release.
  pub print_page-Verified :
      (env : Result EnvError Env) (site : Text) (db : Db) (id locale : Text) (now : ℕ)
      (model : EventCardModel) (confirmed : Bool) (url : Text)
      → print_page env site db id locale now ≡ receipt model confirmed url
      → (v : Verified to_lower_case format_card_date to_number simulate closes_at env is_completed
          db id model)
        × ((confirmed ≡ true) ↔ AllPaid (event_prizes db v.event.id))
  unfolding print_page
  print_page-Verified env site db id locale now model confirmed url h =
      elim (Option-cases (find (has_event_id id) db.events)) [
        | inl e ↦ absurd (ground arith)
        | inr (event, e) ↦ elim (Bool-cases (is_completed event.status)) [
          | inr d ↦ absurd (ground arith)
          | inl d ↦
              let link = canonical_url site locale id in
              let prizes = event_prizes db event.id in
              let reply =
                displayed to_lower_case format_card_date to_number simulate closes_at env link db
                  event locale now in
              let (drawn, same) =
                print_view-receipt prizes reply model confirmed url (ground arith) in
              let v : Verified to_lower_case format_card_date to_number simulate closes_at env
                  is_completed db id model =
                displayed-Verified to_lower_case format_card_date to_number simulate closes_at env
                  is_completed link db event id locale now model url e d drawn in
              let same_found : some event ≡ some v.event = sym e ∙ v.found in
              let same_event : event ≡ v.event = ground arith in
              let (there, back) = all_payouts_confirmed_iff prizes in
              (
                v,
                subst (λ x. (confirmed ≡ true) ↔ AllPaid (event_prizes db x.id)) same_event
                    (λ c. there (sym same ∙ c), λ a. same ∙ back a),
              )
        ]
      ]

  print_page-unlinked :
      (env : Result EnvError Env) (site : Text) (db : Db) (id locale : Text) (now : ℕ)
      → All LinkedByApp db.linked_accounts
      → print_page env site db id locale now ≡ print_page env site (unlinked db) id locale now
  unfolding print_page
  print_page-unlinked env site db id locale now h =
      elim (Option-cases (find (has_event_id id) db.events)) [
        | inl e ↦ rw (print_page, e) refl
        | inr (event, e) ↦
            rw (print_page, e)
              (ap
                (λ r.
                  if is_completed event.status
                  then print_view (event_prizes db event.id) r
                  else absent)
                (displayed-unlinked to_lower_case format_card_date to_number simulate closes_at env
                  (canonical_url site locale id) db event locale now h))
      ]

  -- While every linked account was stored by the callback of GitHub, the shared picture, the
  -- projected picture and the receipt of an event are what they would be with no account linked: no
  -- member is ever named by a GitHub handle.
  pub cards_unlinked :
      (env : Result EnvError Env) (site : Text) (db : Db) (id locale : Text) (now : ℕ)
      → All LinkedByApp db.linked_accounts
      → (open_graph_image to_lower_case format_card_date to_number simulate closes_at env db id
            locale now
          ≡ open_graph_image to_lower_case format_card_date to_number simulate closes_at env
              (unlinked db)
              id
              locale
              now)
        × (display_route to_lower_case format_card_date to_number simulate closes_at env site db id
              locale now
            ≡ display_route to_lower_case format_card_date to_number simulate closes_at env site
                (unlinked db)
                id
                locale
                now)
        × (print_page env site db id locale now ≡ print_page env site (unlinked db) id locale now)
  cards_unlinked env site db id locale now h = (
    open_graph_image-unlinked to_lower_case format_card_date to_number simulate closes_at env db id
        locale now h,
    display_route-unlinked to_lower_case format_card_date to_number simulate closes_at env site db
        id locale now h,
    print_page-unlinked env site db id locale now h,
  )
