-- ===== src/Prelude/Digits.antt =====
-- Decimal digits of a natural number as JavaScript prints and reads them: `BigInt.prototype.toString`
-- and `BigInt(s)` on a run of digits.
use Prim.Native.Nat.{ℕ, zero, suc, ◌+◌, ◌-◌, ◌*◌, ◌/◌, ◌%◌, ◌^◌, ◌≤◌, ◌<◌}
use mathlib.Core.Path.{◌≡◌, refl, ◌∙◌}
use mathlib.Core.Logic.{inl, inr}
use mathlib.Core.Bool.{Bool, ◌&&◌}
use mathlib.Core.List.{[], ◌∷◌, ◌++◌}
use native.Mathlib.Omega.{arith}
use native.Mathlib.Nat.{pow-suc, zero-add}
use astrea.Prelude.Tests.{ltb, leb, if◌then◌else◌, Bool-cases}
use astrea.Prelude.Lists.{length, replicate, All, All-append}
use astrea.Prelude.Texts.{Text}

-- `\d`
abbrev pub is_digit : ℕ → Bool
is_digit c = leb b'0' c && leb c b'9'

abbrev pub IsDigit : ℕ → Type 0
IsDigit c = (b'0' ≤ c) × (c ≤ b'9')

-- The value of a run of digits, read from the left.
pub value_from : ℕ → Text → ℕ
value_from acc [] = acc
value_from acc (c ∷ s) = value_from (acc * 10 + (c - b'0')) s

unfoldable pub value : Text → ℕ
unfolding value_from
value s = value_from 0 s

-- `n.toString()`, on fuel; a number has fewer digits than its successor has units.
digits_fuel : ℕ → ℕ → Text
digits_fuel zero n = []
digits_fuel (suc f) n =
    let rest = digits_fuel f (n / 10) ++ (b'0' + n % 10) ∷ [] in
    if ltb n 10 then (b'0' + n) ∷ [] else rest

unfoldable pub digits : ℕ → Text
unfolding digits_fuel
digits n = digits_fuel (suc n) n

pub value_from-append :
    (acc : ℕ) (s t : Text) → value_from acc (s ++ t) ≡ value_from (value_from acc s) t
unfolding value_from
value_from-append acc [] t = refl
value_from-append acc (c ∷ s) t = value_from-append (acc * 10 + (c - b'0')) s t

value_from-digits_fuel : (f n : ℕ) → n < f → value_from 0 (digits_fuel f n) ≡ n
unfolding value_from digits_fuel
value_from-digits_fuel zero n h = absurd (omega arith)
value_from-digits_fuel (suc f) n h = elim (Bool-cases (ltb n 10)) [
  | inl small ↦ rw small (omega arith)
  | inr big ↦ rw big (
      value_from-append 0 (digits_fuel f (n / 10)) ((b'0' + n % 10) ∷ [])
      ∙ rw (value_from-digits_fuel f (n / 10) (ground arith)) (omega arith))
]

-- The digits printed for a number read back as that number, and enough fuel was given.
pub value-digits : (n : ℕ) → value (digits n) ≡ n
unfolding value digits
value-digits n = value_from-digits_fuel (suc n) n (omega arith)

All-digits_fuel : (f n : ℕ) → All IsDigit (digits_fuel f n)
unfolding digits_fuel
All-digits_fuel zero n = tt
All-digits_fuel (suc f) n = elim (Bool-cases (ltb n 10)) [
  | inl small ↦ rw small (ground arith)
  | inr big ↦ rw big (
      All-append IsDigit (digits_fuel f (n / 10)) ((b'0' + n % 10) ∷ [])
        (All-digits_fuel f (n / 10)) (ground arith))
]

pub digits-All : (n : ℕ) → All IsDigit (digits n)
unfolding digits
digits-All n = All-digits_fuel (suc n) n

-- Writing zeros in front of a number changes nothing.
pub value-zeros : (k : ℕ) (s : Text) → value (replicate k b'0' ++ s) ≡ value s
unfolding value value_from
value-zeros zero s = refl
value-zeros (suc k) s = value-zeros k s

value_from_lem : (acc : ℕ) (s : Text) → value_from acc s ≡ acc * 10 ^ length s + value_from 0 s
unfolding value_from
value_from_lem acc [] = grind arith
value_from_lem acc (c ∷ s) =
    let shifted = value_from_lem (acc * 10 + (c - b'0')) s in
    let head = value_from_lem (c - b'0') s in rw (pow-suc, zero-add, shifted, head) (omega arith)

-- Place value: what stands in front of `k` digits counts `10 ^ k` times.
pub value-append : (s t : Text) → value (s ++ t) ≡ value s * 10 ^ length t + value t
unfolding value
value-append s t = value_from-append 0 s t ∙ value_from_lem (value_from 0 s) t
