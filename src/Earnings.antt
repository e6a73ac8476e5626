-- ===== src/Earnings.antt =====
-- A participant's payouts, apps/web/src/lib/earnings: types.ts and summary.ts here, query.ts in Query.
use astrea.Prelude.{
  starts_with, contains, ℕ, zero, suc, Bool, true, false, not, ◌&&◌, ◌||◌, Option, none, some, List,
  [], ◌∷◌, Text, codes, ◌===◌, ◌==◌, ltb, length, keep, trim, if◌then◌else◌,
}
use astrea.Schema.{StellarNetwork}
pub mod Query
pub mod Sorting
pub mod Listed
pub mod Summed
pub mod Owned
mod Tests

-- JavaScript's numbers, and how they are written: `toLocaleString` without decimals.
pub record Numbers (N : Type 0) : Type 0 where
  pub zero_number : N
  pub plus : N → N → N
  pub divide : N → ℕ → N
  pub less : N → N → Bool
  pub to_locale_string : N → Text

pub record EarningsItem (N : Type 0) : Type 0 where
  pub id : Text
  pub event_id : Text
  pub event_name : Text
  pub prize_rank : ℕ
  pub amount_usdc : Text
  pub amount_usdc_num : N
  pub tx_hash : Text
  pub confirmed_at : Text
  pub network : StellarNetwork

pub record EarningsSummary (N : Type 0) : Type 0 where
  pub total_usdc : Text
  pub total_usdc_num : N
  pub total_prizes_count : ℕ
  pub total_events_count : ℕ
  pub average_usdc : Text
  pub latest_payout_date : Option Text

pub data EarningsSortOption : Type 0 where
  date_desc date_asc amount_desc amount_asc : EarningsSortOption

pub record EarningsFilter : Type 0 where
  pub search_query : Text
  pub sort_by : EarningsSortOption

-- A `Set` of texts, in the order in which they were added.
abbrev pub has : Text → List Text → Bool
has x [] = false
has x (y ∷ ys) = (y === x) || has x ys

abbrev pub add : List Text → Text → List Text
add [] x = x ∷ []
add (y ∷ ys) x = let rest = add ys x in if y === x then y ∷ ys else y ∷ rest

-- `new Date(text).getTime()` of an instant from 1970 on; `none` is NaN, which no comparison holds of.
abbrev pub is_after : Option ℕ → ℕ → Bool
is_after none t = false
is_after (some time) t = ltb t time

abbrev pub is_before : Option ℕ → Option ℕ → Bool
is_before none t = false
is_before (some s) none = false
is_before (some s) (some t) = ltb s t

-- The variables of the loop of `calculateEarningsSummary`.
pub record Totals (N : Type 0) : Type 0 where
  pub total : N
  pub events : List Text
  pub latest_time : ℕ
  pub latest_date : Option Text

-- `xs.sort(cmp)`, where `before a b` is `cmp(a, b) < 0`: stable.
module _ {A : Type 0} (before : A → A → Bool) where
  abbrev pub insert : A → List A → List A
  insert x [] = x ∷ []
  insert x (y ∷ ys) = let rest = insert x ys in if before y x then y ∷ rest else x ∷ y ∷ ys

  abbrev pub sort : List A → List A
  sort [] = []
  sort (x ∷ xs) = insert x (sort xs)

module _ {N : Type 0} (numbers : Numbers N) (get_time : Text → Option ℕ) where
  abbrev pub add_item : EarningsItem N → Totals N → Totals N
  add_item item t =
      let time = get_time item.confirmed_at in
      let total = numbers.plus t.total item.amount_usdc_num in
      let events = add t.events item.event_id in
      elim time [
        | none ↦ record t { total = total; events = events }
        | some n ↦
            if ltb t.latest_time n
            then record {
              total = total;
              events = events;
              latest_time = n;
              latest_date = some item.confirmed_at;
            }
            else record t { total = total; events = events }
      ]

  abbrev pub totals : List (EarningsItem N) → Totals N → Totals N
  totals [] t = t
  totals (item ∷ items) t = totals items (add_item item t)

  abbrev pub no_totals : Totals N
  no_totals = record {
    total = numbers.zero_number;
    events = [];
    latest_time = 0;
    latest_date = none;
  }

  unfoldable pub calculate_earnings_summary : List (EarningsItem N) → EarningsSummary N
  calculate_earnings_summary [] = record {
    total_usdc = codes "0";
    total_usdc_num = numbers.zero_number;
    total_prizes_count = 0;
    total_events_count = 0;
    average_usdc = codes "0";
    latest_payout_date = none;
  }
  calculate_earnings_summary (item ∷ items) =
      let t = totals (item ∷ items) no_totals in
      let count = length (item ∷ items) in
      record {
        total_usdc = numbers.to_locale_string t.total;
        total_usdc_num = t.total;
        total_prizes_count = count;
        total_events_count = length t.events;
        average_usdc = numbers.to_locale_string (numbers.divide t.total count);
        latest_payout_date = t.latest_date;
      }

  abbrev pub before : EarningsSortOption → EarningsItem N → EarningsItem N → Bool
  before date_asc a b = is_before (get_time a.confirmed_at) (get_time b.confirmed_at)
  before date_desc a b = is_before (get_time b.confirmed_at) (get_time a.confirmed_at)
  before amount_desc a b = numbers.less b.amount_usdc_num a.amount_usdc_num
  before amount_asc a b = numbers.less a.amount_usdc_num b.amount_usdc_num

  module _ (to_lower_case : Text → Text) where
    -- Without a query, all match.
    abbrev pub found_in : Text → EarningsItem N → Bool
    found_in q item =
        contains (to_lower_case item.event_name) q
        || (contains (to_lower_case item.tx_hash) q || contains (to_lower_case item.amount_usdc) q)

    abbrev pub filter_by : Text → List (EarningsItem N) → List (EarningsItem N)
    filter_by query items = elim (trim query) [
      | [] ↦ items
      | c ∷ s ↦ keep (found_in (trim (to_lower_case query))) items
    ]

    unfoldable pub filter_and_sort_earnings :
        List (EarningsItem N) → EarningsFilter → List (EarningsItem N)
    filter_and_sort_earnings items filter =
        sort (before filter.sort_by) (filter_by filter.search_query items)

  -- `formatPayoutDate`, over `toLocaleDateString` in English.
  unfoldable pub format_payout_date : (ℕ → Text) → Text → Text
  format_payout_date to_locale_date iso_date = elim (get_time iso_date) [
    | none ↦ codes "TBD"
    | some t ↦ to_locale_date t
  ]
