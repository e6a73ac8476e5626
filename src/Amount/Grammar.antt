-- ===== src/Amount/Grammar.antt =====
-- The regular expression of amount.ts against a description of the texts that it accepts.
use mathlib.Core.Path.{ap₂, subst}
use astrea.Prelude.{
  ℕ, ◌+◌, ◌-◌, ◌*◌, ◌^◌, ◌≤◌, ◌≡◌, ◌↔◌, refl, ap, ◌∙◌, inl, inr, true, false, Option, none, some,
  [], ◌∷◌, ◌++◌, Text, arith, append-nil, Bool-cases, length, All, is_digit, IsDigit, value,
}
use astrea.Amount.{span_digits, fraction, decimal}

-- A whole part, and a fraction of at most seven digits behind a point.
abbrev pub IsWhole : Text → Type 0
IsWhole w = (1 ≤ length w) × All IsDigit w

abbrev pub IsFraction : Option Text → Type 0
IsFraction none = Unit
IsFraction (some f) = (1 ≤ length f) × (length f ≤ 7) × All IsDigit f

abbrev pub spell : Text → Option Text → Text
spell w none = w
spell w (some f) = w ++ b'.' ∷ f

-- The stroops that the two parts stand for, by place value.
abbrev pub stroops : Text → Option Text → ℕ
stroops w none = value w * 10 ^ 7
stroops w (some f) = value w * 10 ^ 7 + value f * 10 ^ (7 - length f)

-- The units that cannot go on a run of digits.
abbrev pub Stops : Text → Type 0
Stops [] = Unit
Stops (c ∷ s) = is_digit c ≡ false

pub span_digits_lem :
    (s : Text) → let (run, rest) = span_digits s in (s ≡ run ++ rest) × All IsDigit run × Stops rest
unfolding span_digits
span_digits_lem [] = (refl, tt, tt)
span_digits_lem (c ∷ s) =
    let (same, run, stop) = span_digits_lem s in
    elim (Bool-cases (is_digit c)) [
      | inl digit ↦ rw digit (ap (λ t. c ∷ t) same, (ground arith, run), stop)
      | inr other ↦ rw other (refl, tt, other)
    ]

pub span_digits-append :
    (w rest : Text) → All IsDigit w → Stops rest → span_digits (w ++ rest) ≡ (w, rest)
unfolding span_digits
span_digits-append [] [] h k = refl
span_digits-append [] (c ∷ s) h k = rw k
span_digits-append (c ∷ w) rest h k =
    let digit : is_digit c ≡ true = ground arith in rw (span_digits-append w rest h.1 k, digit)

length_zero : (s : Text) → length s ≡ 0 → s ≡ []
length_zero [] h = refl
length_zero (c ∷ s) h = absurd (omega arith)

fraction_lem :
    (s : Text) (f : Option Text)
    → fraction s ≡ some f
    → ((w : Text) → w ++ s ≡ spell w f) × IsFraction f
unfolding fraction
fraction_lem [] f h = let same : f ≡ none = ground arith in rw same (λ w. append-nil w, tt)
fraction_lem (c ∷ s) f h =
    let (same, run, stop) = span_digits_lem s in
    let spelled : f ≡ some (span_digits s).0 = ground arith in
    let point : c ≡ b'.' = ground arith in
    let empty : (span_digits s).1 ≡ [] = ground (arith, length_zero (span_digits s).1) in
    let whole : s ≡ (span_digits s).0 = same ∙ rw empty (append-nil _) in
    rw spelled (λ w. ap₂ (λ (d : ℕ) t. w ++ d ∷ t) point whole, (ground arith, ground arith, run))

fraction-spell : (f : Option Text) → IsFraction f → fraction (spell [] f) ≡ some f
unfolding fraction
fraction-spell none h = refl
fraction-spell (some f) h =
    let spanned : span_digits f ≡ (f, []) = rw (append-nil f) at (span_digits-append f [] h.2 tt) in
    ground arith

Stops-spell : (f : Option Text) → Stops (spell [] f)
Stops-spell none = tt
Stops-spell (some f) = refl

span_digits-spell :
    (w : Text) (f : Option Text) → All IsDigit w → span_digits (spell w f) ≡ (w, spell [] f)
span_digits-spell w none h =
    let spanned : span_digits (w ++ []) ≡ (w, []) = span_digits-append w [] h tt in
    rw (append-nil w) at spanned
span_digits-spell w (some f) h = span_digits-append w (b'.' ∷ f) h refl

decimal_sound :
    (s w : Text) (f : Option Text)
    → decimal s ≡ some (w, f)
    → (s ≡ spell w f) × IsWhole w × IsFraction f
unfolding decimal
decimal_sound s w f h =
    let (same, run, stop) = span_digits_lem s in
    let captured : fraction (span_digits s).1 ≡ some f = ground arith in
    let (spelled, valid) = fraction_lem (span_digits s).1 f captured in
    let whole : (span_digits s).0 ≡ w = ground arith in
    let counted : 1 ≤ length w = ground arith in
    (
      same ∙ spelled (span_digits s).0 ∙ ap (λ t. spell t f) whole,
      (counted, subst (All IsDigit) whole run),
      valid,
    )

decimal_complete :
    (s w : Text) (f : Option Text)
    → (s ≡ spell w f) × IsWhole w × IsFraction f
    → decimal s ≡ some (w, f)
unfolding decimal
decimal_complete s w f (spelled, whole, valid) =
    let spanned : span_digits s ≡ (w, spell [] f) =
      ap span_digits spelled ∙ span_digits-spell w f whole.1 in
    let captured : fraction (span_digits s).1 ≡ some f =
      ap (λ (r : Text × Text). fraction r.1) spanned ∙ fraction-spell f valid in
    let run : (span_digits s).0 ≡ w = ap (λ (r : Text × Text). r.0) spanned in ground arith

-- The expression accepts exactly the spellings of a whole part and a fraction, and captures the two.
pub decimal_iff :
    (s w : Text) (f : Option Text)
    → (decimal s ≡ some (w, f)) ↔ ((s ≡ spell w f) × IsWhole w × IsFraction f)
decimal_iff s w f = (decimal_sound s w f, decimal_complete s w f)
