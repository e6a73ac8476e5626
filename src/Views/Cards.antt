-- ===== src/Views/Cards.antt =====
-- What a card may claim, and how long its texts are.
use astrea.Prelude.{
  ℕ, zero, suc, ◌-◌, ◌≤◌, ◌≡◌, ◌↔◌, ◌⊎◌, refl, inl, inr, Bool, true, false, List, [], ◌∷◌, map,
  Text, codes, All, arith, length, take, length-take, length-append, trim_end, is_space, drop_end,
  leb, Option-cases, Bool-cases,
}
use astrea.Prelude.Int.{ℤ, pos, negsuc, is_positive}
use astrea.Schema.{EventStatus, live, judging, completed}
use astrea.Views.Card.{
  truncate_text, CardTeam, CardPrize, CardWinner, BuildCardModelInput, open_card, winners_card,
  reward_of, template_of, pool_amount, insert_prize, sort_prizes, winner_team, winners_of,
  build_event_card_model,
}

drop_end_le : (p : ℕ → Bool) (s : Text) → length (drop_end p s) ≤ length s
unfolding drop_end
drop_end_le p [] = omega arith
drop_end_le p (c ∷ s) = ground (arith, drop_end_le p s)

length-trim_end : (s : Text) → length (trim_end s) ≤ length s
unfolding trim_end
length-trim_end s = drop_end_le is_space s

-- A truncated text has at most as many units as asked for, if that is one at least.
length-truncate_text : (text : Text) (max : ℕ) → 1 ≤ max → length (truncate_text text max) ≤ max
unfolding truncate_text
length-truncate_text text max h = ground (
  arith,
  length-trim_end (take (max - 1) text),
  length-take (max - 1) text,
  length-append (trim_end (take (max - 1) text)) (8230 ∷ []),
)

-- No smaller than `n`, and so on down the list.
abbrev pub AtLeast : ℕ → List ℕ → Type 0
AtLeast n = All (λ m. n ≤ m)

abbrev pub Rising : List ℕ → Type 0
Rising [] = Unit
Rising (n ∷ ns) = AtLeast n ns × Rising ns

abbrev ranks : List CardPrize → List ℕ
ranks = map (λ p. p.rank)

insert_prize-AtLeast :
    (n : ℕ) (p : CardPrize) (ps : List CardPrize)
    → n ≤ p.rank
    → AtLeast n (ranks ps)
    → AtLeast n (ranks (insert_prize p ps))
insert_prize-AtLeast n p [] h hs = (h, tt)
insert_prize-AtLeast n p (q ∷ qs) h hs = elim (Bool-cases (leb p.rank q.rank)) [
  | inl first ↦ ground arith
  | inr later ↦ ground (arith, insert_prize-AtLeast n p qs)
]

AtLeast-weaken : (n m : ℕ) (ns : List ℕ) → n ≤ m → AtLeast m ns → AtLeast n ns
AtLeast-weaken n m [] h hs = tt
AtLeast-weaken n m (k ∷ ns) h hs = (omega (arith, hs.0), AtLeast-weaken n m ns h hs.1)

insert_prize-Rising :
    (p : CardPrize) (ps : List CardPrize) → Rising (ranks ps) → Rising (ranks (insert_prize p ps))
insert_prize-Rising p [] h = (tt, tt)
insert_prize-Rising p (q ∷ qs) h = elim (Bool-cases (leb p.rank q.rank)) [
  | inl first ↦
      let small : p.rank ≤ q.rank = ground arith in
      let rest = AtLeast-weaken p.rank q.rank (ranks qs) small h.0 in ground arith
  | inr later ↦
      let small : q.rank ≤ p.rank = ground arith in
      let below = insert_prize-AtLeast q.rank p qs small h.0 in
      let rest = insert_prize-Rising p qs h.1 in ground arith
]

sort_prizes-Rising : (ps : List CardPrize) → Rising (ranks (sort_prizes ps))
sort_prizes-Rising [] = tt
sort_prizes-Rising (p ∷ ps) = insert_prize-Rising p (sort_prizes ps) (sort_prizes-Rising ps)

template_lem :
    (held : Bool) (status : EventStatus)
    → ((template_of held status ≡ winners_card) ↔ ((held ≡ true) × (status ≡ completed)))
      × ((template_of held status ≡ open_card)
          ↔ ((held ≡ true) × ((status ≡ live) ⊎ (status ≡ judging))))
template_lem false status = (
  (λ h. absurd (ground arith), λ h. ground arith),
  (λ h. absurd (ground arith), λ h. ground arith),
)
template_lem true status =
    ((λ h. ground arith, λ h. ground arith), (λ h. ground arith, λ h. ground arith))

pool_lem : (r : ℤ) → (is_positive r ≡ true) ⊎ (pool_amount r ≡ codes "0")
pool_lem (pos zero) = inr refl
pool_lem (pos (suc n)) = inl refl
pool_lem (negsuc n) = inr refl

module _ (to_lower_case : Text → Text) (format_card_date : Text → ℕ → Text) where
  abbrev rows : Text → List CardTeam → List CardPrize → List CardWinner
  rows = winners_of to_lower_case format_card_date

  winners_of-AtLeast :
      (n : ℕ) (asset : Text) (teams : List CardTeam) (ps : List CardPrize)
      → AtLeast n (ranks ps)
      → AtLeast n (map (λ w. w.rank) (rows asset teams ps))
  unfolding winners_of
  winners_of-AtLeast n asset teams [] h = tt
  winners_of-AtLeast n asset teams (p ∷ ps) h =
      let rest = winners_of-AtLeast n asset teams ps h.1 in
      elim (Option-cases (winner_team teams p.winner_team_id)) [
        | inl missing ↦ ground arith
        | inr (team, found) ↦ ground arith
      ]

  winners_of-Rising :
      (asset : Text) (teams : List CardTeam) (ps : List CardPrize)
      → Rising (ranks ps)
      → Rising (map (λ w. w.rank) (rows asset teams ps))
  unfolding winners_of
  winners_of-Rising asset teams [] h = tt
  winners_of-Rising asset teams (p ∷ ps) h =
      let rest = winners_of-Rising asset teams ps h.1 in
      let low = winners_of-AtLeast p.rank asset teams ps h.0 in
      elim (Option-cases (winner_team teams p.winner_team_id)) [
        | inl missing ↦ ground arith
        | inr (team, found) ↦ ground arith
      ]

  short_names :
      (asset : Text) (teams : List CardTeam) (ps : List CardPrize)
      → All (λ w. length w.team_name ≤ 28) (rows asset teams ps)
  unfolding winners_of
  short_names asset teams [] = tt
  short_names asset teams (p ∷ ps) =
      let rest = short_names asset teams ps in
      elim (Option-cases (winner_team teams p.winner_team_id)) [
        | inl missing ↦ ground arith
        | inr (team, found) ↦ ground (arith, length-truncate_text team.name 28)
      ]

  -- A card names its winners in the order of their ranks, whatever the order of the prizes; its title has
  -- at most 64 units and each team's name at most 28.
  pub build_event_card_model-Rising :
      (input : BuildCardModelInput)
      → let card = build_event_card_model to_lower_case format_card_date input in
        Rising (map (λ w. w.rank) card.winners)
        × (length card.name ≤ 64)
        × All (λ w. length w.team_name ≤ 28) card.winners
  unfolding build_event_card_model
  build_event_card_model-Rising input = (
    winners_of-Rising input.asset_symbol input.teams (sort_prizes input.prizes)
        (sort_prizes-Rising input.prizes),
    length-truncate_text input.name 64 (omega arith),
    short_names input.asset_symbol input.teams (sort_prizes input.prizes),
  )

  -- A card announces winners exactly for a completed event whose escrow holds a positive reward, and is an
  -- open call exactly for a live or judging one; without such a reward its pool reads "0".
  pub build_event_card_model_iff :
      (input : BuildCardModelInput)
      → let card = build_event_card_model to_lower_case format_card_date input in
        let held = is_positive (reward_of input.escrow) in
        ((card.template_type ≡ winners_card) ↔ ((held ≡ true) × (input.status ≡ completed)))
        × ((card.template_type ≡ open_card)
            ↔ ((held ≡ true) × ((input.status ≡ live) ⊎ (input.status ≡ judging))))
        × ((held ≡ true) ⊎ (card.prize_pool_amount ≡ codes "0"))
  unfolding build_event_card_model
  build_event_card_model_iff input =
      let reward = reward_of input.escrow in
      let (announced, open_call) = template_lem (is_positive reward) input.status in
      (announced, open_call, pool_lem reward)
