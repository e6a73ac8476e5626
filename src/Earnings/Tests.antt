-- ===== src/Earnings/Tests.antt =====
-- Three payouts listed, summed up and asked for.
use astrea.Prelude.{
  Option, ℕ, ◌+◌, ◌/◌, ◌≡◌, refl, ◌⊎◌, true, none, some, List, [], ◌∷◌, Text, codes, Text-discrete,
  ok, arith, ltb, digits, map, trim, drop_while, drop_end, trim_end, is_space,
}
use astrea.Schema.{testnet, draft, Event, Prize, TeamMember, Wallet, Db}
use astrea.Earnings.{
  Numbers, EarningsItem, EarningsFilter, amount_desc, date_asc, calculate_earnings_summary,
  filter_and_sort_earnings,
}
use astrea.Earnings.Sorting.{Ranks}
use astrea.Earnings.Query.{Payout, is_valid_wallet_ref, get_participant_earnings}
use astrea.Earnings.Listed.{Arranges, filter_and_sort_earnings-Arranges}
use astrea.Earnings.Owned.{Private, get_participant_earnings-Private}

abbrev numbers : Numbers ℕ
numbers = record {
  zero_number = 0;
  plus = λ a b. a + b;
  divide = λ a n. a / n;
  less = ltb;
  to_locale_string = digits;
}

-- A date of one unit.
abbrev get_time : Text → Option ℕ
get_time [] = none
get_time (c ∷ s) = some c

less_ranks : Ranks numbers.less (λ (_ : ℕ). Unit {0})
less_ranks = record { asym = λ a b p q e. ground arith; through = λ a b c p q r e k. ground arith }

abbrev item : Text → Text → ℕ → Text → EarningsItem ℕ
item id event amount date = record {
  id = id;
  event_id = event;
  event_name = event;
  prize_rank = 1;
  amount_usdc = digits amount;
  amount_usdc_num = amount;
  tx_hash = codes "ab";
  confirmed_at = date;
  network = testnet;
}

abbrev items : List (EarningsItem ℕ)
items =
    item (codes "p1") (codes "e1") 50 (codes "b")
    ∷ item (codes "p2") (codes "e2") 70 (codes "c")
    ∷ item (codes "p3") (codes "e1") 50 (codes "a")
    ∷ []

abbrev by_amount : EarningsFilter
by_amount = record { search_query = []; sort_by = amount_desc }

sorts :
    map
      (λ (i : EarningsItem ℕ). i.id)
      (filter_and_sort_earnings numbers get_time (λ s. s) items by_amount)
    ≡ codes "p2" ∷ codes "p1" ∷ codes "p3" ∷ []
unfolding filter_and_sort_earnings trim drop_while drop_end trim_end
sorts = refl

abbrev for_e1 : EarningsFilter
for_e1 = record { search_query = codes " e1"; sort_by = date_asc }

searches :
    map
      (λ (i : EarningsItem ℕ). i.id)
      (filter_and_sort_earnings numbers get_time (λ s. s) items for_e1)
    ≡ codes "p3" ∷ codes "p1" ∷ []
unfolding filter_and_sort_earnings trim drop_while drop_end trim_end is_space digits
searches = refl

filter_and_sort_earnings-Arranges_example :
    Arranges numbers get_time
      (λ s. s)
      for_e1
      items
      (filter_and_sort_earnings numbers get_time (λ s. s) items for_e1)
filter_and_sort_earnings-Arranges_example =
    filter_and_sort_earnings-Arranges numbers get_time (λ s. s) items for_e1 less_ranks
      (refl, (refl, (refl, tt)))

sums : (calculate_earnings_summary numbers get_time items).total_events_count ≡ 2
unfolding calculate_earnings_summary Text-discrete
sums = refl

abbrev member : Text → TeamMember
member wallet = record {
  team_id = codes "t1";
  event_id = codes "e1";
  wallet_id = wallet;
  share_basis_points = 5000;
  ordinal = 0;
}

abbrev payout : Text → Text → ℕ → Payout
payout id wallet time = record {
  id = id;
  prize_id = codes "p1";
  team_member = member wallet;
  tx_hash = codes "ab";
  amount = codes "50";
  confirmed_at = time;
}

abbrev payouts : List Payout
payouts =
    payout (codes "a") (codes "w1") 1
    ∷ payout (codes "b") (codes "w2") 2
    ∷ payout (codes "c") (codes "w1") 3
    ∷ []

abbrev db : Db
db = record {
  users = [];
  events = [];
  prizes =
      record {
        id = codes "p1";
        event_id = codes "e1";
        rank = 1;
        amount = codes "100";
        status = astrea.Schema.PrizeStatus.paid_out;
        winner_team_id = some (codes "t1");
        release_tx_hash = some (codes "ab");
        released_at = some 1;
      }
      ∷ [];
  judges = [];
  teams = [];
  team_members = [];
  wallets = [];
  linked_accounts = [];
  auth_nonces = [];
}

abbrev to_number : Text → Option ℕ
to_number s = some 50

abbrev mine : List (EarningsItem ℕ)
mine = get_participant_earnings numbers to_number digits true (some (codes "w1")) db payouts (ok tt)

asks : map (λ (i : EarningsItem ℕ). i.id) mine ≡ codes "c" ∷ codes "a" ∷ []
unfolding get_participant_earnings is_valid_wallet_ref Text-discrete trim drop_while drop_end
    trim_end is_space
asks = refl

get_participant_earnings-Private_example :
    (mine ≡ []) ⊎ Private numbers to_number digits true (some (codes "w1")) db payouts mine
get_participant_earnings-Private_example =
    get_participant_earnings-Private numbers to_number digits true (some (codes "w1")) db payouts
      (ok tt)
