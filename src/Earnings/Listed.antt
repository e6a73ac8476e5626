-- ===== src/Earnings/Listed.antt =====
-- What the list and the summary of a participant's payouts show.
use mathlib.Core.List.{Perm}
use astrea.Prelude.{
  ℕ, ◌≤◌, ◌≡◌, ◌≢◌, ◌⊎◌, refl, inl, inr, true, false, ◌∷◌, some, Option-cases, Bool-cases, contains,
  contains_iff, Within, Selects, nothing, selects, keep-Selects, Option, is_some, List, [], Text,
  keep, All, arith, trim,
}
use astrea.Earnings.{
  Numbers, EarningsItem, EarningsSortOption, date_desc, date_asc, amount_desc, amount_asc,
  EarningsFilter, before, found_in, filter_by, filter_and_sort_earnings,
}
use astrea.Earnings.Sorting.{
  Ranks, IsSorted, ties, All-keep, sort-perm, All-sort, sort-IsSorted, keep-sort,
}

module _ {N : Type 0} (numbers : Numbers N) (get_time : Text → Option ℕ) where
  -- The dates are instants, where the list is sorted by date.
  abbrev pub Ranked : EarningsSortOption → EarningsItem N → Type 0
  Ranked date_desc item = is_some (get_time item.confirmed_at) ≡ true
  Ranked date_asc item = is_some (get_time item.confirmed_at) ≡ true
  Ranked amount_desc item = Unit
  Ranked amount_asc item = Unit

  abbrev Any : N → Type 0
  Any n = Unit

  before-Ranks :
      Ranks numbers.less Any
      → (o : EarningsSortOption) → Ranks (before numbers get_time o) (Ranked o)
  before-Ranks less date_desc = record {
    asym = λ a b p q e. ground arith;
    through = λ a b c p q r e k. ground arith;
  }
  before-Ranks less date_asc = record {
    asym = λ a b p q e. ground arith;
    through = λ a b c p q r e k. ground arith;
  }
  before-Ranks less amount_desc = record {
    asym = λ a b p q e. less.asym b.amount_usdc_num a.amount_usdc_num tt tt e;
    through = λ a b c p q r e k.
        less.through c.amount_usdc_num b.amount_usdc_num a.amount_usdc_num tt tt tt k e;
  }
  before-Ranks less amount_asc = record {
    asym = λ a b p q e. less.asym a.amount_usdc_num b.amount_usdc_num tt tt e;
    through = λ a b c p q r e k.
        less.through a.amount_usdc_num b.amount_usdc_num c.amount_usdc_num tt tt tt e k;
  }

  module _ (to_lower_case : Text → Text) where
    All-filter_by :
        (P : EarningsItem N → Type 0) (query : Text) (items : List (EarningsItem N))
        → All P items
        → All P (filter_by numbers get_time to_lower_case query items)
    All-filter_by P query items h = go (trim query)
      where
        go :
            (t : Text)
            → All P (elim t [
              | [] ↦ items
              | c ∷ s ↦
                  keep (found_in numbers get_time to_lower_case (trim (to_lower_case query))) items
            ])
        go [] = h
        go (c ∷ s) =
            All-keep P (found_in numbers get_time to_lower_case (trim (to_lower_case query))) items
              h

    -- What a search finds: any item if nothing is searched, else one with the text searched, without
    -- the spaces around it, in the event's name, the hash or the amount, whatever the case.
    abbrev pub Matches : Text → EarningsItem N → Type 0
    Matches query item =
        (trim query ≡ [])
        ⊎ (Within (trim (to_lower_case query)) (to_lower_case item.event_name)
            ⊎ (Within (trim (to_lower_case query)) (to_lower_case item.tx_hash)
                ⊎ Within (trim (to_lower_case query)) (to_lower_case item.amount_usdc)))

    found_in_sound :
        (query : Text) (item : EarningsItem N)
        → found_in numbers get_time to_lower_case (trim (to_lower_case query)) item ≡ true
        → Matches query item
    found_in_sound query item h =
        let q = trim (to_lower_case query) in
        elim (Bool-cases (contains (to_lower_case item.event_name) q)) [
          | inl e ↦ inr (inl ((contains_iff _ q).0 e))
          | inr no_name ↦ elim (Bool-cases (contains (to_lower_case item.tx_hash) q)) [
            | inl e ↦ inr (inr (inl ((contains_iff _ q).0 e)))
            | inr no_hash ↦
                let e : contains (to_lower_case item.amount_usdc) q ≡ true = ground arith in
                inr (inr (inr ((contains_iff _ q).0 e)))
          ]
        ]

    found_in_complete :
        (query : Text) (item : EarningsItem N)
        → trim query ≢ []
        → Matches query item
        → found_in numbers get_time to_lower_case (trim (to_lower_case query)) item ≡ true
    found_in_complete query item some_query (inl e) = absurd (some_query e)
    found_in_complete query item some_query (inr (inl m)) =
        let e = (contains_iff (to_lower_case item.event_name) (trim (to_lower_case query))).1 m in
        ground arith
    found_in_complete query item some_query (inr (inr (inl m))) =
        let e = (contains_iff (to_lower_case item.tx_hash) (trim (to_lower_case query))).1 m in
        ground arith
    found_in_complete query item some_query (inr (inr (inr m))) =
        let e = (contains_iff (to_lower_case item.amount_usdc) (trim (to_lower_case query))).1 m in
        ground arith

    all-Selects :
        (query : Text) (items : List (EarningsItem N))
        → trim query ≡ []
        → Selects (Matches query) items items
    all-Selects query [] e = nothing
    all-Selects query (x ∷ xs) e = selects (inl e) (all-Selects query xs e)

    filter_by-Selects :
        (query : Text) (items : List (EarningsItem N))
        → Selects (Matches query) items (filter_by numbers get_time to_lower_case query items)
    filter_by-Selects query items = go (trim query) refl
      where
        go :
            (t : Text)
            → trim query ≡ t
            → Selects (Matches query) items (elim t [
              | [] ↦ items
              | c ∷ s ↦
                  keep (found_in numbers get_time to_lower_case (trim (to_lower_case query))) items
            ])
        go [] e = all-Selects query items e
        go (c ∷ s) e =
            keep-Selects (Matches query)
              (found_in numbers get_time to_lower_case (trim (to_lower_case query)))
              (found_in_sound query) (λ x. found_in_complete query x (λ z. ground arith)) items

    -- Where one item may stand above another.
    abbrev pub MayPrecede : EarningsSortOption → EarningsItem N → EarningsItem N → Type 0
    MayPrecede date_asc a b =
        (s : ℕ) × (t : ℕ) × (get_time a.confirmed_at ≡ some s)
        × (get_time b.confirmed_at ≡ some t)
        × (s ≤ t)
    MayPrecede date_desc a b =
        (s : ℕ) × (t : ℕ) × (get_time a.confirmed_at ≡ some s)
        × (get_time b.confirmed_at ≡ some t)
        × (t ≤ s)
    MayPrecede amount_asc a b = numbers.less b.amount_usdc_num a.amount_usdc_num ≡ false
    MayPrecede amount_desc a b = numbers.less a.amount_usdc_num b.amount_usdc_num ≡ false

    abbrev pub InOrder : EarningsSortOption → List (EarningsItem N) → Type 0
    InOrder o [] = Unit
    InOrder o (x ∷ xs) = All (MayPrecede o x) xs × InOrder o xs

    may_precede :
        (o : EarningsSortOption) (a b : EarningsItem N)
        → Ranked o a
        → Ranked o b
        → before numbers get_time o b a ≡ false
        → MayPrecede o a b
    may_precede amount_asc a b p q h = h
    may_precede amount_desc a b p q h = h
    may_precede date_asc a b p q h = elim (Option-cases (get_time a.confirmed_at)) [
      | inl e ↦ absurd (ground arith)
      | inr (s, e) ↦ elim (Option-cases (get_time b.confirmed_at)) [
        | inl k ↦ absurd (ground arith)
        | inr (t, k) ↦ (s, t, e, k, ground arith)
      ]
    ]
    may_precede date_desc a b p q h = elim (Option-cases (get_time a.confirmed_at)) [
      | inl e ↦ absurd (ground arith)
      | inr (s, e) ↦ elim (Option-cases (get_time b.confirmed_at)) [
        | inl k ↦ absurd (ground arith)
        | inr (t, k) ↦ (s, t, e, k, ground arith)
      ]
    ]

    all_after :
        (o : EarningsSortOption) (x : EarningsItem N) (xs : List (EarningsItem N))
        → Ranked o x
        → All (Ranked o) xs
        → All (λ y. before numbers get_time o y x ≡ false) xs
        → All (MayPrecede o x) xs
    all_after o x [] p q h = tt
    all_after o x (y ∷ ys) p q h = (may_precede o x y p q.0 h.0, all_after o x ys p q.1 h.1)

    sorted-InOrder :
        (o : EarningsSortOption) (xs : List (EarningsItem N))
        → All (Ranked o) xs
        → IsSorted (before numbers get_time o) xs
        → InOrder o xs
    sorted-InOrder o [] q h = tt
    sorted-InOrder o (x ∷ xs) q h = (all_after o x xs q.0 q.1 h.0, sorted-InOrder o xs q.1 h.1)

    -- The items that match the query, rearranged: each may stand above those below it, and those
    -- that tie stand as they stood.
    pub record Arranges (filter : EarningsFilter) (items result : List (EarningsItem N))
        : Type 0 where
      pub matching : List (EarningsItem N)
      pub selected : Selects (Matches filter.search_query) items matching
      pub same_items : Perm result matching
      pub in_order : InOrder filter.sort_by result
      pub stable :
          (w : EarningsItem N)
          → Ranked filter.sort_by w
          → keep (ties (before numbers get_time filter.sort_by) w) result
            ≡ keep (ties (before numbers get_time filter.sort_by) w) matching

    -- The list that is shown has the items whose event's name, hash or amount has the text searched,
    -- whatever the case, and no others; by date or by amount, up or down as chosen, none stands
    -- above one that belongs before it, and items that tie keep their order, given that numbers are
    -- compared by a weak order, and that the dates are instants where they are compared.
    pub filter_and_sort_earnings-Arranges :
        (items : List (EarningsItem N)) (filter : EarningsFilter)
        → Ranks numbers.less Any
        → All (Ranked filter.sort_by) items
        → Arranges filter items
            (filter_and_sort_earnings numbers get_time to_lower_case items filter)
    unfolding filter_and_sort_earnings
    filter_and_sort_earnings-Arranges items filter less h =
        let ranks = before-Ranks less filter.sort_by in
        let found = filter_by numbers get_time to_lower_case filter.search_query items in
        let ranked = All-filter_by (Ranked filter.sort_by) filter.search_query items h in
        record {
          matching = found;
          selected = filter_by-Selects filter.search_query items;
          same_items = sort-perm _ _;
          in_order =
              sorted-InOrder filter.sort_by _
                (All-sort (before numbers get_time filter.sort_by) (Ranked filter.sort_by) found
                  ranked)
                (sort-IsSorted _ ranks _ ranked);
          stable = λ w r. keep-sort _ ranks w _ r ranked;
        }
