-- ===== src/Amount/Column.antt =====
-- What an amount reads back as from a column of type Decimal(18,7), apps/web/prisma/schema.prisma: the
-- `toString` of the Decimal, which turns to exponents below a millionth.
use astrea.Prelude.{
  ℕ, zero, suc, ◌≤◌, ◌<◌, ◌≡◌, ◌↔◌, refl, ap, ◌∙◌, inl, inr, true, false, none, some, List, ◌∷◌,
  ◌++◌, map, Text, codes, ok, arith, All, Bool-cases, ltb, digits, value, trim, is_space,
  if◌then◌else◌,
}
use astrea.Amount.{parse_usdc_amount, format_smallest_units, sum_usdc_amounts}
use astrea.Amount.Units.{Reads, none_left, one_more, sum, sum_usdc_amounts_iff}
use astrea.Amount.RoundTrip.{parse_usdc_amount-format_smallest_units}

-- The text that decimal.js prints for a number of stroops.
abbrev pub decimal_text : ℕ → Text
decimal_text n = if ltb n 10 then digits n ++ codes "e-7" else format_smallest_units (digits n) 7

-- `column t` is what a text that was stored reads back as. Of an amount it is the Decimal's text.
abbrev pub IsColumn : (Text → Text) → Type 0
IsColumn column = (t : Text) (n : ℕ) → parse_usdc_amount t ≡ some n → column t ≡ decimal_text n

exponent_unread : (n : ℕ) → n < 10 → parse_usdc_amount (digits n ++ codes "e-7") ≡ none
unfolding parse_usdc_amount trim is_space digits value
exponent_unread zero h = refl
exponent_unread (suc zero) h = refl
exponent_unread (suc (suc zero)) h = refl
exponent_unread (suc (suc (suc zero))) h = refl
exponent_unread (suc (suc (suc (suc zero)))) h = refl
exponent_unread (suc (suc (suc (suc (suc zero))))) h = refl
exponent_unread (suc (suc (suc (suc (suc (suc zero)))))) h = refl
exponent_unread (suc (suc (suc (suc (suc (suc (suc zero))))))) h = refl
exponent_unread (suc (suc (suc (suc (suc (suc (suc (suc zero)))))))) h = refl
exponent_unread (suc (suc (suc (suc (suc (suc (suc (suc (suc zero))))))))) h = refl
exponent_unread (suc (suc (suc (suc (suc (suc (suc (suc (suc (suc n)))))))))) h =
    absurd (omega arith)

decimal_text-small : (n : ℕ) → n < 10 → parse_usdc_amount (decimal_text n) ≡ none
decimal_text-small n h =
    let small : ltb n 10 ≡ true = ground arith in rw small (exponent_unread n h)

decimal_text-plain : (n : ℕ) → 10 ≤ n → parse_usdc_amount (decimal_text n) ≡ some n
decimal_text-plain n h =
    let plain : ltb n 10 ≡ false = ground arith in
    rw plain (parse_usdc_amount-format_smallest_units n (omega arith))

module _ (column : Text → Text) (is_column : IsColumn column) where
  reads_back :
      {as' : List Text} {vs : List ℕ}
      → Reads as' vs
      → All (λ v. 10 ≤ v) vs
      → Reads (map column as') vs
  reads_back none_left h = none_left
  reads_back (one_more {a} {v} e r) h =
      one_more (ap parse_usdc_amount (is_column a v e) ∙ decimal_text-plain v h.0)
        (reads_back r h.1)

  not_small :
      (a : Text) (v w : ℕ)
      → parse_usdc_amount a ≡ some v
      → parse_usdc_amount (column a) ≡ some w
      → 10 ≤ v
  not_small a v w e found = elim (Bool-cases (ltb v 10)) [
    | inr plain ↦ ground arith
    | inl small ↦
        let unread = ap parse_usdc_amount (is_column a v e) ∙ decimal_text-small v (ground arith) in
        absurd (ground arith)
  ]

  first_read :
      {a : Text} {as' : List Text} {ws : List ℕ}
      → Reads (a ∷ as') ws
      → ((w : ℕ) × (parse_usdc_amount a ≡ some w)) × ((vs : List ℕ) × Reads as' vs)
  first_read (one_more {v} {vs} e r) = ((v, e), (vs, r))

  reads_back_only :
      {as' : List Text} {vs : List ℕ} (ws : List ℕ)
      → Reads as' vs
      → Reads (map column as') ws
      → All (λ v. 10 ≤ v) vs
  reads_back_only ws none_left k = tt
  reads_back_only ws (one_more {a} {v} e r) k =
      let ((w, found), (rest, k')) = first_read k in
      (not_small a v w e found, reads_back_only rest r k')

  -- Amounts that were stored can be summed up exactly when none is below a millionth.
  pub column-sum_iff :
      (as' : List Text) (vs : List ℕ)
      → Reads as' vs
      → ((n : ℕ) × (sum_usdc_amounts (map column as') ≡ ok n)) ↔ All (λ v. 10 ≤ v) vs
  column-sum_iff as' vs r = (
    λ (n, e).
        let (ws, k, same) = (sum_usdc_amounts_iff (map column as') n).0 e in reads_back_only ws r k,
    λ h. (sum vs, (sum_usdc_amounts_iff (map column as') (sum vs)).1 (vs, reads_back r h, refl)),
  )
