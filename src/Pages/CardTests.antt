-- ===== src/Pages/CardTests.antt =====
-- A live event's picture and a completed one's receipt.
use astrea.Prelude.{
  ◌≡◌, ◌↔◌, refl, true, false, none, is_uuid, is_groups, [], codes, Text-discrete, ok, digits,
  value,
}
use astrea.Schema.{live, completed}
use astrea.Amount.{format_smallest_units}
use astrea.Network.Reading.{read_escrow_event, to_reward, to_state, to_address, state_of}
use astrea.Views.Card.{
  EventCardModel, build_event_card_model, format_member_handle, winners_of, truncate_hash,
  truncate_text,
}
use astrea.Pages.Cards.{is_displayed, picture, card_model, display_route, open_graph_image}
use astrea.Pages.Drawn.{Verified, display_route-Verified}
use astrea.Pages.Unlinked.{unlinked}
use astrea.Pages.Gates.{is_completed, event_prizes}
use astrea.Pages.Receipt.{print_page, receipt, AllPaid, print_page-Verified, cards_unlinked}
use astrea.Pages.Sample.{event_id, event, db, env, simulate, url}

abbrev drawn : EventCardModel
drawn =
    card_model (λ s. s) (λ _ _. []) (λ n. n) simulate (λ _. none) (ok env) (db live) (event live)
      (codes "en") (codes "USDC") 0

draws :
    display_route
      (λ s. s)
      (λ _ _. [])
      (λ n. n)
      simulate
      (λ _. none)
      (ok env)
      (codes "https://astrea")
      (db live)
      event_id
      (codes "en")
      0
    ≡ picture drawn url
unfolding display_route read_escrow_event to_reward to_state to_address state_of
    build_event_card_model format_smallest_units winners_of format_member_handle truncate_hash
    truncate_text is_uuid is_groups Text-discrete value digits
draws = refl

display_route-Verified_example :
    Verified
      (λ s. s)
      (λ _ _. [])
      (λ n. n)
      simulate
      (λ _. none)
      (ok env)
      is_displayed
      (db live)
      event_id
      drawn
display_route-Verified_example =
    display_route-Verified (λ s. s) (λ _ _. []) (λ n. n) simulate (λ _. none) (ok env)
      (codes "https://astrea") (db live) event_id (codes "en") 0 drawn url draws

abbrev receipt_of : EventCardModel
receipt_of =
    card_model (λ s. s) (λ _ _. []) (λ n. n) simulate (λ _. none) (ok env) (db completed)
      (event completed) (codes "en") (codes "USDC") 0

prints :
    print_page
      (λ s. s)
      (λ _ _. [])
      (λ n. n)
      simulate
      (λ _. none)
      (ok env)
      (codes "https://astrea")
      (db completed)
      event_id
      (codes "en")
      0
    ≡ receipt receipt_of false url
unfolding print_page read_escrow_event to_reward to_state to_address state_of build_event_card_model
    format_smallest_units winners_of format_member_handle truncate_hash truncate_text is_uuid
    is_groups Text-discrete value digits
prints = refl

print_page-Verified_example :
    (v : Verified
      (λ s. s)
      (λ _ _. [])
      (λ n. n)
      simulate
      (λ _. none)
      (ok env)
      is_completed
      (db completed)
      event_id
      receipt_of)
    × ((false ≡ true) ↔ AllPaid (event_prizes (db completed) v.event.id))
print_page-Verified_example =
    print_page-Verified (λ s. s) (λ _ _. []) (λ n. n) simulate (λ _. none) (ok env)
      (codes "https://astrea") (db completed) event_id (codes "en") 0 receipt_of false url prints

cards_unlinked_example :
    (open_graph_image
        (λ s. s)
        (λ _ _. [])
        (λ n. n)
        simulate
        (λ _. none)
        (ok env)
        (db live)
        event_id
        (codes "en")
        0
      ≡ open_graph_image
          (λ s. s)
          (λ _ _. [])
          (λ n. n)
          simulate
          (λ _. none)
          (ok env)
          (unlinked (db live))
          event_id
          (codes "en")
          0)
    × (display_route
          (λ s. s)
          (λ _ _. [])
          (λ n. n)
          simulate
          (λ _. none)
          (ok env)
          (codes "https://astrea")
          (db live)
          event_id
          (codes "en")
          0
        ≡ display_route
            (λ s. s)
            (λ _ _. [])
            (λ n. n)
            simulate
            (λ _. none)
            (ok env)
            (codes "https://astrea")
            (unlinked (db live))
            event_id
            (codes "en")
            0)
    × (print_page
          (λ s. s)
          (λ _ _. [])
          (λ n. n)
          simulate
          (λ _. none)
          (ok env)
          (codes "https://astrea")
          (db live)
          event_id
          (codes "en")
          0
        ≡ print_page
            (λ s. s)
            (λ _ _. [])
            (λ n. n)
            simulate
            (λ _. none)
            (ok env)
            (codes "https://astrea")
            (unlinked (db live))
            event_id
            (codes "en")
            0)
cards_unlinked_example =
    cards_unlinked (λ s. s) (λ _ _. []) (λ n. n) simulate (λ _. none) (ok env)
      (codes "https://astrea") (db live) event_id (codes "en") 0 (refl, tt)
