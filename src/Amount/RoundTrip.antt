-- ===== src/Amount/RoundTrip.antt =====
-- `formatSmallestUnits` prints what `parseUsdcAmount` reads: the amount that the deposit step of
-- apps/web/src/app/[locale]/organizer/events/[id]/deposit-step.tsx prefills is the shortfall.
use mathlib.Core.Path.{subst}
use astrea.Prelude.{
  ℕ, zero, suc, ◌+◌, ◌-◌, ◌≤◌, ◌<◌, ◌≡◌, refl, ap, sym, ◌∙◌, true, false, Option, none, some, [],
  ◌∷◌, ◌++◌, Text, arith, append-nil, length, take, drop, replicate, All, All-append,
  All-append_left, All-append_right, IsDigit, digits, digits-All, value-digits, value, value-append,
  value-zeros, trim, trim_id, is_space, drop_end, drop_end-append, length-append, length-replicate,
  take-append-drop, length-take, length-drop,
}
use astrea.Amount.{
  is_zero_digit, pad_start, format_digits, format_smallest_units, parse_usdc_amount,
}
use astrea.Amount.Grammar.{IsWhole, IsFraction, spell, stroops}
use astrea.Amount.Units.{Amounts, parse_usdc_amount_iff}

abbrev AllZero : Text → Type 0
AllZero = All (λ c. is_zero_digit c ≡ true)

zeros_lem : (t : Text) → AllZero t → t ≡ replicate (length t) b'0'
zeros_lem [] h = refl
zeros_lem (c ∷ t) h =
    let zero_ : c ≡ b'0' = ground arith in rw zero_ (ap (λ r. b'0' ∷ r) (zeros_lem t h.1))

value-AllZero : (t : Text) → AllZero t → value t ≡ 0
value-AllZero t h =
    ap value (zeros_lem t h ∙ sym (append-nil _)) ∙ value-zeros (length t) [] ∙ unfold value in refl

-- The fraction that is printed: none if its digits were all zeros.
abbrev frac_of : Text → Option Text
frac_of [] = none
frac_of (c ∷ f) = some (c ∷ f)

-- Cutting the zeros off the seven places loses nothing.
frac_worth :
    (w r f t : Text)
    → length r ≡ 7
    → r ≡ f ++ t
    → AllZero t
    → All IsDigit r
    → (stroops w (frac_of f) ≡ value (w ++ r)) × IsFraction (frac_of f)
frac_worth w r [] t len cut z d =
    let nothing = value-AllZero r (subst AllZero (sym cut) z) in
    (sym (value-append w r ∙ rw (len, nothing) (omega arith)), tt)
frac_worth w r (c ∷ f) t len cut z d =
    let tail = value-append (c ∷ f) t in
    let nothing = value-AllZero t z in
    let counted = ap length cut ∙ length-append (c ∷ f) t in
    let places : length t ≡ 7 - suc (length f) = omega arith in
    (
      sym (value-append w r ∙ rw (len, cut, tail, nothing, places) (omega arith)),
      (omega arith, omega arith, All-append_left IsDigit (c ∷ f) t (subst (All IsDigit) cut d)),
    )

digit_not_space : (c : ℕ) → IsDigit c → is_space c ≡ false
unfolding is_space
digit_not_space c h = ground arith

digits_not_space : (s : Text) → All IsDigit s → All (λ c. is_space c ≡ false) s
digits_not_space [] h = tt
digits_not_space (c ∷ s) h = (digit_not_space c h.0, digits_not_space s h.1)

spell_not_space :
    (w : Text) (f : Option Text)
    → All IsDigit w
    → IsFraction f
    → All (λ c. is_space c ≡ false) (spell w f)
unfolding is_space
spell_not_space w none h k = digits_not_space w h
spell_not_space w (some f) h k =
    All-append (λ c. is_space c ≡ false) w (b'.' ∷ f) (digits_not_space w h)
      (refl, digits_not_space f k.2)

spell-frac_of : (w f : Text) → w ++ elim f [ [] ↦ [] | c ∷ g ↦ b'.' ∷ c ∷ g ] ≡ spell w (frac_of f)
spell-frac_of w [] = append-nil w
spell-frac_of w (c ∷ f) = refl

format_smallest_units-digits :
    (s : Text) → All IsDigit s → format_smallest_units s 7 ≡ format_digits 7 s
unfolding format_smallest_units
format_smallest_units-digits [] h = refl
format_smallest_units-digits (c ∷ s) h = ground arith

All-replicate : (k : ℕ) → All IsDigit (replicate k b'0')
All-replicate zero = tt
All-replicate (suc k) = (omega arith, All-replicate k)

-- Padding keeps the value, and leaves room for the seven decimals.
pad_start_lem :
    (s : Text)
    → All IsDigit s
    → All IsDigit (pad_start 8 s) × (8 ≤ length (pad_start 8 s)) × (value (pad_start 8 s) ≡ value s)
unfolding pad_start
pad_start_lem s h =
    let counted =
      length-append (replicate (8 - length s) b'0') s
      ∙ ap (λ k. k + length s) (length-replicate _ _) in
    (
      All-append IsDigit (replicate (8 - length s) b'0') s (All-replicate (8 - length s)) h,
      omega arith,
      value-zeros (8 - length s) s,
    )

-- Any number of at least eight digits, cut seven from the right.
cut_Amounts :
    (d : Text)
    → All IsDigit d
    → 8 ≤ length d
    → 0 < value d
    → let r = drop (length d - 7) d in
      (value d ≡ stroops (take (length d - 7) d) (frac_of (drop_end is_zero_digit r)))
      × IsWhole (take (length d - 7) d)
      × IsFraction (frac_of (drop_end is_zero_digit r))
cut_Amounts d h long pos =
    let k = length d - 7 in
    let whole = subst (All IsDigit) (sym (take-append-drop k d)) h in
    let (t, cut, z) = drop_end-append is_zero_digit (drop k d) in
    let seven : length (drop k d) ≡ 7 = omega (arith, length-drop k d) in
    let (worth, valid) =
      frac_worth (take k d) (drop k d) (drop_end is_zero_digit (drop k d)) t seven cut z
        (All-append_right IsDigit (take k d) (drop k d) whole) in
    (
      sym (worth ∙ ap value (take-append-drop k d)),
      (omega (arith, length-take k d), All-append_left IsDigit (take k d) (drop k d) whole),
      valid,
    )

-- What is printed for a run of digits is an amount of its value.
format_digits-Amounts :
    (s : Text) → All IsDigit s → 0 < value s → Amounts (format_digits 7 s) (value s)
unfolding format_digits
format_digits-Amounts s h pos =
    let (all_digits, long, same) = pad_start_lem s h in
    let d = pad_start 8 s in
    let (worth, whole, valid) = cut_Amounts d all_digits long (omega arith) in
    let w = take (length d - 7) d in
    let f = drop_end is_zero_digit (drop (length d - 7) d) in
    let spelled = spell-frac_of w f in
    record {
      whole = w;
      frac = frac_of f;
      spelled =
          ap trim spelled
          ∙ trim_id (spell w (frac_of f)) (spell_not_space w (frac_of f) whole.1 valid);
      is_whole = whole;
      is_fraction = valid;
      worth = sym same ∙ worth;
      positive = pos;
    }

-- Every positive number of stroops, printed in units, reads back as itself.
pub parse_usdc_amount-format_smallest_units :
    (n : ℕ) → 0 < n → parse_usdc_amount (format_smallest_units (digits n) 7) ≡ some n
parse_usdc_amount-format_smallest_units n pos =
    let same = value-digits n in
    let amounts = format_digits-Amounts (digits n) (digits-All n) (omega arith) in
    ap parse_usdc_amount (format_smallest_units-digits (digits n) (digits-All n))
    ∙ (parse_usdc_amount_iff (format_digits 7 (digits n)) n).1
        (subst (Amounts (format_digits 7 (digits n))) same amounts)
