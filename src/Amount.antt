-- ===== src/Amount.antt =====
-- Decimal USDC amounts and stroops, seven decimals: apps/web/src/lib/escrow/amount.ts,
-- `formatSmallestUnits` of apps/web/src/lib/explorer.ts, and `toStroops` and `trustlineHeadroom` of
-- apps/web/src/lib/trustline/verify-trustline.ts.
pub mod Grammar
pub mod Units
pub mod RoundTrip
pub mod Column
mod Tests
use astrea.Prelude.{
  ℕ, zero, suc, ◌+◌, ◌-◌, ◌*◌, ◌^◌, Bool, true, false, Option, none, some, List, [], ◌∷◌, ◌++◌,
  Text, Result, ok, err, ◌&&◌, ltb, leb, ◌==◌, if◌then◌else◌, length, take, drop, replicate,
  is_digit, value, trim, drop_end,
}

abbrev pub usdc_decimals : ℕ
usdc_decimals = 7

-- `SCALE`, and `STROOPS_PER_UNIT`.
abbrev pub scale : ℕ
scale = 10 ^ usdc_decimals

-- The longest run of digits at the front, and what follows it.
pub span_digits : Text → Text × Text
span_digits [] = ([], [])
span_digits (c ∷ s) =
    let (run, rest) = span_digits s in if is_digit c then (c ∷ run, rest) else ([], c ∷ s)

-- The fraction behind the whole part: `(?:\.(\d{1,7}))?$`. The inner option is the second capture.
pub fraction : Text → Option (Option Text)
unfolding span_digits
fraction [] = some none
fraction (c ∷ s) =
    let (run, rest) = span_digits s in
    if c == b'.' && length rest == 0 && leb 1 (length run) && leb (length run) 7
    then some (some run)
    else none

-- `/^(\d+)(?:\.(\d{1,7}))?$/.exec(s)`, with its two captures.
unfoldable pub decimal : Text → Option (Text × Option Text)
unfolding span_digits fraction
decimal s =
    let (whole, rest) = span_digits s in
    elim (fraction rest) [
      | none ↦ none
      | some frac ↦ if length whole == 0 then none else some (whole, frac)
    ]

-- `s.padEnd(n, "0")`
unfoldable pub pad_end : ℕ → Text → Text
pad_end n s = s ++ replicate (n - length s) b'0'

-- `s.padStart(n, "0")`
unfoldable pub pad_start : ℕ → Text → Text
pad_start n s = replicate (n - length s) b'0' ++ s

abbrev fraction_value : Option Text → ℕ
fraction_value none = 0
fraction_value (some f) = value (pad_end usdc_decimals f)

-- `null` stands for what is not a positive USDC amount.
unfoldable pub parse_usdc_amount : Text → Option ℕ
unfolding decimal pad_end value
parse_usdc_amount raw = elim (decimal (trim raw)) [
  | none ↦ none
  | some (whole, frac) ↦
      let stroops = value whole * scale + fraction_value frac in
      if ltb 0 stroops then some stroops else none
]

-- "not a USDC amount: …" or "horizon: malformed amount …", with the text.
pub data AmountError : Type 0 where
  not_an_amount malformed : Text → AmountError

-- The `reduce` of `sumUsdcAmounts`.
pub sum_from : ℕ → List Text → Result AmountError ℕ
sum_from acc [] = ok acc
sum_from acc (a ∷ as') = elim (parse_usdc_amount a) [
  | none ↦ err (not_an_amount a)
  | some v ↦ sum_from (acc + v) as'
]

unfoldable pub sum_usdc_amounts : List Text → Result AmountError ℕ
unfolding sum_from
sum_usdc_amounts amounts = sum_from 0 amounts

-- `undefined` and "" are no stroops.
unfoldable pub to_stroops : Option Text → Result AmountError ℕ
unfolding decimal pad_end value
to_stroops none = ok 0
to_stroops (some []) = ok 0
to_stroops (some (c ∷ s)) = elim (decimal (c ∷ s)) [
  | none ↦ err (malformed (c ∷ s))
  | some (whole, frac) ↦ ok (value whole * scale + fraction_value frac)
]

abbrev is_zero_digit : ℕ → Bool
is_zero_digit c = c == b'0'

format_digits : ℕ → Text → Text
unfolding drop_end pad_start
format_digits decimals amount =
    let digits = pad_start (decimals + 1) amount in
    let frac = drop_end is_zero_digit (drop (length digits - decimals) digits) in
    take (length digits - decimals) digits ++ elim frac [ [] ↦ [] | c ∷ f ↦ b'.' ∷ c ∷ f ]

abbrev is_minus : ℕ → Bool
is_minus c = c == b'-'

unfoldable pub format_smallest_units : Text → ℕ → Text
unfolding format_digits
format_smallest_units [] decimals = format_digits decimals []
format_smallest_units (c ∷ s) decimals =
    if is_minus c then b'-' ∷ format_digits decimals s else format_digits decimals (c ∷ s)
