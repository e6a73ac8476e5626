-- ===== src/Earnings/Summed.antt =====
-- What the summary of a participant's payouts counts.
use mathlib.Core.Path.{subst}
use astrea.Prelude.{
  ℕ, ◌≤◌, ◌≡◌, refl, ◌⊎◌, inl, inr, false, ◌||◌, Option, none, some, List, [], ◌∷◌, Text, ◌===◌,
  ltb, length, map, All, arith, Bool-cases, Option-cases,
}
use astrea.Earnings.{
  Numbers, EarningsItem, EarningsSummary, has, add, is_after, Totals, add_item, totals, no_totals,
  calculate_earnings_summary,
}

has-add : (y x : Text) (l : List Text) → has y (add l x) ≡ has y l || (x === y)
has-add y x [] = ground arith
has-add y x (z ∷ zs) = ground (arith, has-add y x zs)

-- No text twice.
abbrev Distinct : List Text → Type 0
Distinct [] = Unit
Distinct (x ∷ xs) = (has x xs ≡ false) × Distinct xs

add-Distinct : (x : Text) (l : List Text) → Distinct l → Distinct (add l x)
add-Distinct x [] h = ground arith
add-Distinct x (z ∷ zs) h = ground (arith, has-add z x zs, add-Distinct x zs)

module _ {N : Type 0} (numbers : Numbers N) (get_time : Text → Option ℕ) where
  abbrev event_ids : List (EarningsItem N) → List Text
  event_ids items = map (λ i. i.event_id) items

  events-totals :
      (items : List (EarningsItem N)) (t : Totals N) (y : Text)
      → has y (totals numbers get_time items t).events ≡ has y t.events || has y (event_ids items)
  events-totals [] t y = ground arith
  events-totals (i ∷ is) t y =
      ground
        (arith, events-totals is (add_item numbers get_time i t) y, has-add y i.event_id t.events)

  Distinct-totals :
      (items : List (EarningsItem N)) (t : Totals N)
      → Distinct t.events
      → Distinct (totals numbers get_time items t).events
  Distinct-totals [] t h = h
  Distinct-totals (i ∷ is) t h =
      Distinct-totals is (add_item numbers get_time i t)
        (ground (arith, add-Distinct i.event_id t.events))

  -- An item is dated `date`, at `time`.
  abbrev pub Dated : ℕ → Option Text → List (EarningsItem N) → Type 0
  Dated time date [] = ⊥
  Dated time date (i ∷ is) =
      ((get_time i.confirmed_at ≡ some time) × (date ≡ some i.confirmed_at)) ⊎ Dated time date is

  -- No item is later than `time`.
  abbrev pub NoneAfter : ℕ → List (EarningsItem N) → Type 0
  NoneAfter time items = All (λ i. is_after (get_time i.confirmed_at) time ≡ false) items

  latest-totals :
      (items : List (EarningsItem N)) (t : Totals N)
      → let u = totals numbers get_time items t in
        (t.latest_time ≤ u.latest_time)
        × NoneAfter u.latest_time items
        × (((u.latest_time ≡ t.latest_time) × (u.latest_date ≡ t.latest_date))
            ⊎ Dated u.latest_time u.latest_date items)
  latest-totals [] t = (omega arith, tt, inl (refl, refl))
  latest-totals (i ∷ is) t =
      let (later, none_after, from) = latest-totals is (add_item numbers get_time i t) in
      elim (Option-cases (get_time i.confirmed_at)) [
        | inl e ↦ (ground arith, (ground arith, none_after), ground arith)
        | inr (n, e) ↦ elim (Bool-cases (ltb t.latest_time n)) [
          | inl k ↦ (ground arith, (ground arith, none_after), ground arith)
          | inr k ↦ (ground arith, (ground arith, none_after), ground arith)
        ]
      ]

  -- `ids` are the events of the items, each once.
  pub record Events (items : List (EarningsItem N)) (ids : List Text) : Type 0 where
    pub distinct : Distinct ids
    pub same : (id : Text) → has id ids ≡ has id (event_ids items)

  pub record Summarises (items : List (EarningsItem N)) (s : EarningsSummary N) : Type 0 where
    pub prizes : s.total_prizes_count ≡ length items
    pub events : (ids : List Text) × (s.total_events_count ≡ length ids) × Events items ids
    pub latest :
        ((s.latest_payout_date ≡ none) × NoneAfter 0 items)
        ⊎ ((time : ℕ) × Dated time s.latest_payout_date items × NoneAfter time items)

  -- The summary counts every payout, and every event once, and its date is that of a payout that no
  -- other is later than; there is none if no payout is dated after the epoch.
  pub calculate_earnings_summary-Summarises :
      (items : List (EarningsItem N))
      → Summarises items (calculate_earnings_summary numbers get_time items)
  unfolding calculate_earnings_summary
  calculate_earnings_summary-Summarises [] = record {
    prizes = refl;
    events = ([], refl, record { distinct = tt; same = λ id. refl });
    latest = inl (refl, tt);
  }
  calculate_earnings_summary-Summarises (i ∷ is) =
      let t = no_totals numbers get_time in
      let (_, none_after, from) = latest-totals (i ∷ is) t in
      record {
        prizes = refl;
        events = (
          _,
          refl,
          record {
            distinct = Distinct-totals (i ∷ is) t tt;
            same = λ id. events-totals (i ∷ is) t id;
          },
        );
        latest = elim from [
          | inl (same, undated) ↦ inl (undated, subst (λ n. NoneAfter n (i ∷ is)) same none_after)
          | inr dated ↦ inr (_, dated, none_after)
        ];
      }
