-- ===== src/Views/Tests.antt =====
-- A raw event with a private field, and a card with two winners.
use mathlib.Core.Option
use astrea.Prelude.{
  ◌++◌, ◌≤◌, ◌≡◌, refl, true, false, none, some, [], ◌∷◌, map, replicate, Text-discrete, codes, All,
  length, trim, is_space, trim_end, arith,
}
use astrea.Prelude.Int.{pos}
use astrea.Prelude.Json.{Json, JsonItems, JsonFields, member}
use astrea.Schema.{completed}
use astrea.Views.Public.{
  Coercions, prize_view, sanitize_public_event_view, resolve_dispute_resolver,
}
use astrea.Views.Privacy.{SamePublic, sanitize_public_event_view_lem}
use astrea.Views.Card.{
  BuildCardModelInput, CardPrize, CardTeam, truncate_text, truncate_hash, winners_of,
  build_event_card_model,
}
use astrea.Views.Cards.{Rising, build_event_card_model-Rising}

abbrev coercions : Coercions
coercions = record { to_string = λ _. []; to_number = λ _. codes "NaN"; to_boolean = λ _. false }

abbrev organizer : Json
organizer = Json.obj (JsonFields.field (codes "address") (Json.str (codes "GABC")) JsonFields.end)

abbrev without_organizer : JsonFields
without_organizer = JsonFields.field (codes "name") (Json.str (codes "Jam")) (
    JsonFields.field (codes "prizes")
      (Json.arr (
        JsonItems.cons
          (Json.obj
            (JsonFields.field (codes "status") (Json.str (codes "RELEASED")) JsonFields.end))
          JsonItems.nil))
      JsonFields.end)

abbrev public_fields : JsonFields
public_fields = JsonFields.field (codes "organizerWallet") organizer without_organizer

abbrev with_email : JsonFields
with_email = JsonFields.field (codes "email") (Json.str (codes "a@b.co")) public_fields

same_public : SamePublic with_email public_fields
unfolding member Text-discrete
same_public = record {
  fields = ground arith;
  organizer = ground arith;
  prizes = ground arith;
  judges = tt;
  teams = tt;
}

sanitize_public_event_view_lem_example :
    sanitize_public_event_view coercions with_email
    ≡ sanitize_public_event_view coercions public_fields
sanitize_public_event_view_lem_example =
    sanitize_public_event_view_lem coercions with_email public_fields same_public

-- Without an organizer the sanitizer throws; with one it answers.
throws :
    (sanitize_public_event_view coercions without_organizer ≡ none)
    × (Option.map
          (λ v. map (λ p. p.status) v.prizes)
          (sanitize_public_event_view coercions public_fields)
        ≡ some (codes "RELEASED" ∷ []))
unfolding sanitize_public_event_view prize_view member Text-discrete
throws = (refl, refl)

resolvers :
    ((resolve_dispute_resolver (some (codes " GA ")) (codes "Astrea")).address ≡ some (codes "GA"))
    × ((resolve_dispute_resolver (some (codes "  ")) (codes "Astrea")).is_default ≡ true)
unfolding resolve_dispute_resolver trim is_space
resolvers = (refl, refl)

abbrev team : CardTeam
team = record { id = codes "t"; name = replicate 40 b'T'; members = [] }

abbrev prize : CardPrize
prize = record {
  rank = 2;
  amount = codes "5";
  winner_team_id = some (codes "t");
  release_tx_hash = none;
}

abbrev card_input : BuildCardModelInput
card_input = record {
  id = codes "e";
  name = codes "Jam";
  status = completed;
  organizer_address = codes "GABC";
  judges = [];
  teams = team ∷ [];
  prizes =
      prize ∷ record prize { rank = 1 } ∷ record prize { rank = 3; winner_team_id = none } ∷ [];
  judging_deadline_at = none;
  registration_closes_at = none;
  escrow = some (some (pos 70000000));
  locale = codes "en";
  asset_symbol = codes "USDC";
  now = 5;
}

texts :
    (truncate_text (codes "one two") 5 ≡ codes "one" ++ (8230 ∷ []))
    × (truncate_hash (codes "abcdefghij") 4 4 ≡ codes "abcd" ++ (8230 ∷ codes "ghij"))
    × (map (λ w. w.rank) (build_event_card_model (λ s. s) (λ _ _. []) card_input).winners
        ≡ 1 ∷ 2 ∷ [])
unfolding truncate_text truncate_hash trim_end is_space build_event_card_model winners_of
    Text-discrete
texts = (refl, refl, refl)

build_event_card_model-Rising_example :
    let card = build_event_card_model (λ s. s) (λ _ _. []) card_input in
    Rising (map (λ w. w.rank) card.winners)
    × (length card.name ≤ 64)
    × All (λ w. length w.team_name ≤ 28) card.winners
build_event_card_model-Rising_example =
    build_event_card_model-Rising (λ s. s) (λ _ _. []) card_input
