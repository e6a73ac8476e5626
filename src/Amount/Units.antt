-- ===== src/Amount/Units.antt =====
-- The amounts that amount.ts accepts, and how their sums and Horizon's amounts agree with them.
use astrea.Prelude.{
  if◌then◌else◌, ℕ, ◌+◌, ◌-◌, ◌*◌, ◌^◌, ◌<◌, ◌≡◌, ◌↔◌, refl, ap, sym, ◌∙◌, inl, inr, Option, none,
  some, List, [], ◌∷◌, Text, arith, append-nil, Option-cases, length, replicate, value,
  value-append, value-zeros, trim, ltb, length-replicate, ok,
}
use astrea.Amount.{
  scale, decimal, pad_end, parse_usdc_amount, to_stroops, sum_from, sum_usdc_amounts,
  fraction_value,
}
use astrea.Amount.Grammar.{IsWhole, IsFraction, spell, stroops, decimal_iff}

value-replicate : (k : ℕ) → value (replicate k b'0') ≡ 0
value-replicate k =
    ap value (sym (append-nil (replicate k b'0'))) ∙ value-zeros k [] ∙ unfold value in refl

-- Padding to seven digits shifts by the places that were missing.
value-pad_end : (f : Text) → value (pad_end 7 f) ≡ value f * 10 ^ (7 - length f)
unfolding pad_end
value-pad_end f =
    value-append f (replicate (7 - length f) b'0')
    ∙ rw (length-replicate, value-replicate) (omega arith)

parts_value : (w : Text) (f : Option Text) → value w * scale + fraction_value f ≡ stroops w f
parts_value w none = omega arith
parts_value w (some f) = omega (arith, value-pad_end f)

-- What `parseUsdcAmount` returns when the expression matches.
parse_usdc_amount_lem :
    (raw w : Text) (f : Option Text)
    → decimal (trim raw) ≡ some (w, f)
    → parse_usdc_amount raw ≡ (if ltb 0 (stroops w f) then some (stroops w f) else none)
unfolding parse_usdc_amount
parse_usdc_amount_lem raw w f e = rw (e, parse_usdc_amount) (rw (parts_value w f))

parse_usdc_amount-none : (raw : Text) → decimal (trim raw) ≡ none → parse_usdc_amount raw ≡ none
unfolding parse_usdc_amount
parse_usdc_amount-none raw e = rw (e, parse_usdc_amount)

-- Trimmed, the text spells a whole part and a fraction of at most seven digits, whose value by place
-- is `n`, and `n` is positive.
pub record Amounts (raw : Text) (n : ℕ) : Type 0 where
  pub whole : Text
  pub frac : Option Text
  pub spelled : trim raw ≡ spell whole frac
  pub is_whole : IsWhole whole
  pub is_fraction : IsFraction frac
  pub worth : n ≡ stroops whole frac
  pub positive : 0 < n

parse_usdc_amount_sound : (raw : Text) (n : ℕ) → parse_usdc_amount raw ≡ some n → Amounts raw n
parse_usdc_amount_sound raw n h = elim (Option-cases (decimal (trim raw))) [
  | inl missed ↦ absurd (cc (parse_usdc_amount-none raw missed))
  | inr (p, e) ↦
      let e' : decimal (trim raw) ≡ some (p.0, p.1) = e in
      let (spelled, is_whole, valid) = (decimal_iff (trim raw) p.0 p.1).0 e' in
      record {
        whole = p.0;
        frac = p.1;
        spelled = spelled;
        is_whole = is_whole;
        is_fraction = valid;
        worth = ground (arith, parse_usdc_amount_lem raw p.0 p.1 e');
        positive = ground (arith, parse_usdc_amount_lem raw p.0 p.1 e');
      }
]

parse_usdc_amount_complete : (raw : Text) (n : ℕ) → Amounts raw n → parse_usdc_amount raw ≡ some n
parse_usdc_amount_complete raw n a =
    let e = (decimal_iff (trim raw) a.whole a.frac).1 (a.spelled, a.is_whole, a.is_fraction) in
    ground (arith, parse_usdc_amount_lem raw a.whole a.frac e)

-- A text is read as `n` stroops exactly if it is a decimal amount of `n` stroops.
pub parse_usdc_amount_iff : (raw : Text) (n : ℕ) → (parse_usdc_amount raw ≡ some n) ↔ Amounts raw n
parse_usdc_amount_iff raw n = (parse_usdc_amount_sound raw n, parse_usdc_amount_complete raw n)

to_stroops-decimal :
    (s w : Text) (f : Option Text)
    → decimal s ≡ some (w, f)
    → to_stroops (some s) ≡ ok (stroops w f)
unfolding to_stroops
to_stroops-decimal [] w f e =
    let whole = ((decimal_iff [] w f).0 e).1 in absurd (unfold decimal in cc)
to_stroops-decimal (c ∷ s) w f e = rw (e, to_stroops) (rw (parts_value w f))

-- Horizon's reading of a trimmed amount agrees with the form's.
pub to_stroops-parse_usdc_amount :
    (raw : Text) (n : ℕ) → parse_usdc_amount raw ≡ some n → to_stroops (some (trim raw)) ≡ ok n
to_stroops-parse_usdc_amount raw n h =
    let a = parse_usdc_amount_sound raw n h in
    let e = (decimal_iff (trim raw) a.whole a.frac).1 (a.spelled, a.is_whole, a.is_fraction) in
    to_stroops-decimal (trim raw) a.whole a.frac e ∙ ap ok (sym a.worth)

-- The amounts in a list, read one by one.
pub data Reads : List Text → List ℕ → Type 0 where
  none_left : Reads [] []
  one_more :
      {a : Text} {v : ℕ} {as' : List Text} {vs : List ℕ}
      → parse_usdc_amount a ≡ some v
      → Reads as' vs
      → Reads (a ∷ as') (v ∷ vs)

abbrev pub sum : List ℕ → ℕ
sum [] = 0
sum (v ∷ vs) = v + sum vs

sum_from_complete :
    (acc : ℕ) {as' : List Text} {vs : List ℕ} → Reads as' vs → sum_from acc as' ≡ ok (acc + sum vs)
unfolding sum_from
sum_from_complete acc none_left = ap ok (omega arith)
sum_from_complete acc (one_more {v} {vs} e r) =
    rw (e, sum_from) (sum_from_complete (acc + v) r ∙ ap ok (omega arith))

sum_from_sound :
    (acc n : ℕ) (as' : List Text)
    → sum_from acc as' ≡ ok n
    → (vs : List ℕ) × Reads as' vs × (n ≡ acc + sum vs)
unfolding sum_from
sum_from_sound acc n [] h = ([], none_left, ground arith)
sum_from_sound acc n (a ∷ as') h = elim (Option-cases (parse_usdc_amount a)) [
  | inl missed ↦ absurd (ground arith)
  | inr (v, e) ↦
      let (vs, r, same) = sum_from_sound (acc + v) n as' (ground arith) in
      (v ∷ vs, one_more e r, omega arith)
]

-- The sum of a list of amounts is returned exactly if each is an amount, and is exact.
pub sum_usdc_amounts_iff :
    (amounts : List Text) (n : ℕ)
    → (sum_usdc_amounts amounts ≡ ok n) ↔ ((vs : List ℕ) × Reads amounts vs × (n ≡ sum vs))
unfolding sum_usdc_amounts
sum_usdc_amounts_iff amounts n = (
  λ h. let (vs, r, same) = sum_from_sound 0 n amounts h in (vs, r, omega arith),
  λ (vs, r, same). sum_from_complete 0 r ∙ ap ok (omega arith),
)
