-- ===== src/Amount/Tests.antt =====
-- Amounts at concrete inputs.
use astrea.Prelude.{arith, ◌≡◌, ◌↔◌, refl, none, some, codes, digits, trim}
use astrea.Amount.Grammar.{IsWhole, IsFraction, spell, decimal_iff}
use astrea.Amount.Units.{Amounts, parse_usdc_amount_iff}
use astrea.Amount.RoundTrip.{parse_usdc_amount-format_smallest_units}
use astrea.Amount.{decimal, parse_usdc_amount, format_smallest_units}

parse_tests :
    (parse_usdc_amount (codes " 2.5 ") ≡ some 25000000)
    × (parse_usdc_amount (codes "0.0000000") ≡ none)
    × (parse_usdc_amount (codes "1.12345678") ≡ none)
    × (parse_usdc_amount (codes ".5") ≡ none)
    × (parse_usdc_amount (codes "5.") ≡ none)
unfolding parse_usdc_amount trim
parse_tests = (refl, refl, refl, refl, refl)

format_tests :
    (format_smallest_units (codes "25000000") 7 ≡ codes "2.5")
    × (format_smallest_units (codes "-1") 7 ≡ codes "-0.0000001")
    × (format_smallest_units (digits 922337203685) 7 ≡ codes "92233.7203685")
unfolding format_smallest_units digits
format_tests = (refl, refl, refl)

parse_usdc_amount-format_smallest_units_example :
    parse_usdc_amount (format_smallest_units (digits 25000000) 7) ≡ some 25000000
parse_usdc_amount-format_smallest_units_example =
    parse_usdc_amount-format_smallest_units 25000000 (omega arith)

decimal_iff_example : (decimal (codes "2.5") ≡ some (codes "2", some (codes "5"))) ↔ (
    (codes "2.5" ≡ spell (codes "2") (some (codes "5")))
    × IsWhole (codes "2")
    × IsFraction (some (codes "5")))
decimal_iff_example = decimal_iff (codes "2.5") (codes "2") (some (codes "5"))

parse_usdc_amount_iff_example :
    (parse_usdc_amount (codes " 2.5 ") ≡ some 25000000) ↔ Amounts (codes " 2.5 ") 25000000
parse_usdc_amount_iff_example = parse_usdc_amount_iff (codes " 2.5 ") 25000000
