-- ===== src/Earnings/Owned.antt =====
-- Whose payouts the query returns.
use mathlib.Core.List.{Perm}
use mathlib.Core.Path.{subst}
use astrea.Prelude.{
  ℕ, ◌≡◌, refl, sym, ◌∙◌, ◌⊎◌, inl, inr, Bool, true, ◌&&◌, Option, none, some, List, [], ◌∷◌, Text,
  Result, ok, err, find, keep, All, arith, Bool-cases, Option-cases,
}
use astrea.Schema.{Prize, Db}
use astrea.Earnings.{Numbers, EarningsItem}
use astrea.Earnings.Sorting.{Ranks, IsSorted, All-keep, All-sort, sort-perm, sort-IsSorted}
use astrea.Earnings.Query.{
  Payout, is_valid_wallet_ref, belongs_to, later, find_payouts, is_prize, to_item, to_items, answer,
  get_participant_earnings,
}

-- The payouts whose team member's wallet has the id or the address `ref`, and no others, the latest
-- first.
pub record Owned (db : Db) (payouts : List Payout) (ref : Text) (found : List Payout) : Type 0 where
  pub theirs : Perm found (keep (belongs_to db.wallets ref) payouts)
  pub newest_first : IsSorted later found

later-Ranks : Ranks later (λ (_ : Payout). Unit {0})
later-Ranks = record { asym = λ a b p q e. ground arith; through = λ a b c p q r e k. ground arith }

All-unit : (ps : List Payout) → All (λ (_ : Payout). Unit {0}) ps
All-unit [] = tt
All-unit (p ∷ ps) = (tt, All-unit ps)

find_payouts-Owned :
    (db : Db) (payouts : List Payout) (ref : Text)
    → Owned db payouts ref (find_payouts db.wallets ref payouts)
find_payouts-Owned db payouts ref = record {
  theirs = sort-perm later (keep (belongs_to db.wallets ref) payouts);
  newest_first =
      sort-IsSorted later later-Ranks (keep (belongs_to db.wallets ref) payouts)
        (All-unit (keep (belongs_to db.wallets ref) payouts));
}

module _ {N : Type 0} (numbers : Numbers N) (to_number : Text → Option N)
    (to_iso_string : ℕ → Text) where
  -- Each item shows its payout, under the prize that the payout names.
  abbrev pub Shows : Db → List Payout → List (EarningsItem N) → Type 0
  Shows db [] [] = Unit
  Shows db [] (i ∷ is) = ⊥
  Shows db (p ∷ ps) [] = ⊥
  Shows db (p ∷ ps) (i ∷ is) =
      ((prize : Prize) × (find (is_prize p.prize_id) db.prizes ≡ some prize)
        × (i ≡ to_item numbers to_number to_iso_string db.events p prize))
      × Shows db ps is

  to_items-Shows :
      (db : Db) (ps : List Payout) (items : List (EarningsItem N))
      → to_items numbers to_number to_iso_string db ps ≡ some items
      → Shows db ps items
  to_items-Shows db [] [] e = tt
  to_items-Shows db [] (i ∷ is) e = cc
  to_items-Shows db (p ∷ ps) items e = elim (Option-cases (find (is_prize p.prize_id) db.prizes)) [
    | inl k ↦ absurd (ground arith)
    | inr (prize, k) ↦ elim (Option-cases (to_items numbers to_number to_iso_string db ps)) [
      | inl r ↦ absurd (ground arith)
      | inr (rest, r) ↦
          let item = to_item numbers to_number to_iso_string db.events p prize in
          let same : item ∷ rest ≡ items = ground arith in
          subst (Shows db (p ∷ ps)) same ((prize, k, refl), to_items-Shows db ps rest r)
    ]
  ]

  -- What is returned under `ref`: nothing, or an item for each of the wallet's payouts.
  pub record Private (has_url : Bool) (ref : Option Text) (db : Db) (payouts : List Payout)
      (items : List (EarningsItem N)) : Type 0 where
    pub wallet : Text
    pub is_ref : ref ≡ some wallet
    pub is_valid : is_valid_wallet_ref ref && has_url ≡ true
    pub found : List Payout
    pub owned : Owned db payouts wallet found
    pub shown : Shows db found items

  answer-Private :
      (has_url : Bool) (ref : Option Text) (db : Db) (payouts : List Payout)
      (outcome : Result Text (Unit {0}))
      → is_valid_wallet_ref ref && has_url ≡ true
      → let items = answer numbers to_number to_iso_string ref db payouts outcome in
        (items ≡ []) ⊎ Private has_url ref db payouts items
  answer-Private url none db payouts outcome v = inl refl
  answer-Private url (some ref) db payouts (err message) v = inl refl
  answer-Private url (some ref) db payouts (ok _) v =
      let found = find_payouts db.wallets ref payouts in
      elim (Option-cases (to_items numbers to_number to_iso_string db found)) [
        | inl e ↦ inl (rw e refl)
        | inr (items, e) ↦ inr (record {
          wallet = ref;
          is_ref = refl;
          is_valid = v;
          found = found;
          owned = find_payouts-Owned db payouts ref;
          shown = rw e (to_items-Shows db found items e);
        })
      ]

  abbrev pub HasPrize : Db → Payout → Type 0
  HasPrize db p = (prize : Prize) × (find (is_prize p.prize_id) db.prizes ≡ some prize)

  to_items_all :
      (db : Db) (ps : List Payout)
      → All (HasPrize db) ps
      → (items : List (EarningsItem N)) × (to_items numbers to_number to_iso_string db ps
          ≡ some items)
  to_items_all db [] h = ([], refl)
  to_items_all db (p ∷ ps) ((prize, e), h) =
      let (items, k) = to_items_all db ps h in
      (
        to_item numbers to_number to_iso_string db.events p prize ∷ items,
        rw (to_items, e) (rw k refl),
      )

  get-answer :
      (has_url : Bool) (ref : Option Text) (db : Db) (payouts : List Payout)
      (outcome : Result Text (Unit {0}))
      → is_valid_wallet_ref ref && has_url ≡ true
      → get_participant_earnings numbers to_number to_iso_string has_url ref db payouts outcome
        ≡ answer numbers to_number to_iso_string ref db payouts outcome
  unfolding get_participant_earnings
  get-answer url ref db payouts outcome e = rw e refl

  -- A participant sees nothing, or an item for each payout of a team member whose wallet has the id
  -- or the address that was given and for no other payout, the latest first. They see nothing without
  -- such a reference, if it is blank or longer than 128 units, or without a database.
  pub get_participant_earnings-Private :
      (has_url : Bool) (ref : Option Text) (db : Db) (payouts : List Payout)
      (outcome : Result Text (Unit {0}))
      → let items =
          get_participant_earnings numbers to_number to_iso_string has_url ref db payouts outcome in
        (items ≡ []) ⊎ Private has_url ref db payouts items
  unfolding get_participant_earnings
  get_participant_earnings-Private url ref db payouts outcome =
      elim (Bool-cases (is_valid_wallet_ref ref && url)) [
        | inr e ↦ inl (rw e refl)
        | inl e ↦
            subst (λ items. (items ≡ []) ⊎ Private url ref db payouts items)
              (sym (get-answer url ref db payouts outcome e))
              (answer-Private url ref db payouts outcome e)
      ]

  -- If the reference is valid, there is a database, the query does not throw and every payout has its
  -- prize, the participant sees all of the wallet's payouts.
  pub get_participant_earnings_complete :
      (has_url : Bool) (ref : Text) (db : Db) (payouts : List Payout)
      → is_valid_wallet_ref (some ref) && has_url ≡ true
      → All (HasPrize db) payouts
      → Private has_url (some ref) db payouts (
          get_participant_earnings numbers to_number to_iso_string has_url
            (some ref)
            db
            payouts
            (ok tt))
  get_participant_earnings_complete url ref db payouts v h =
      let theirs = All-keep (HasPrize db) (belongs_to db.wallets ref) payouts h in
      let found = find_payouts db.wallets ref payouts in
      let (items, e) = to_items_all db found (All-sort later (HasPrize db) _ theirs) in
      subst (λ is. Private url (some ref) db payouts is)
        (sym (get-answer url (some ref) db payouts (ok tt) v ∙ rw e refl))
        (record {
          wallet = ref;
          is_ref = refl;
          is_valid = v;
          found = found;
          owned = find_payouts-Owned db payouts ref;
          shown = to_items-Shows db found items e;
        })
