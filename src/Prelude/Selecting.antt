-- ===== src/Prelude/Selecting.antt =====
-- What a filter leaves of a list, and what a search finds in a text, each by a predicate of its own.
use mathlib.Core.Path.{◌≡◌, refl, sym, ap, ◌∙◌, subst}
use mathlib.Core.Logic.{inl, inr, ◌↔◌}
use mathlib.Core.Bool.{Bool, true}
use mathlib.Core.List.{List, [], ◌∷◌, ◌++◌}
use native.Mathlib.Omega.{arith}
use astrea.Prelude.Texts.{Text}
use astrea.Prelude.Search.{starts_with, contains}
use astrea.Prelude.Tests.{Bool-cases}
use astrea.Prelude.Lists.{keep}

-- Of the first list, the second has each element with the property, in its place, and no other.
pub data Selects {ℓ κ} {A : Type ℓ} (P : A → Type κ) : List A → List A → Type (ℓ ⊔ κ) where
  nothing : Selects P [] []
  selects : {x : A} {xs ys : List A} → P x → Selects P xs ys → Selects P (x ∷ xs) (x ∷ ys)
  leaves : {x : A} {xs ys : List A} → ¬ P x → Selects P xs ys → Selects P (x ∷ xs) ys

module _ {ℓ κ} {A : Type ℓ} (P : A → Type κ) (p : A → Bool) (sound : (x : A) → p x ≡ true → P x)
    (complete : (x : A) → P x → p x ≡ true) where
  pub keep-Selects : (xs : List A) → Selects P xs (keep p xs)
  keep-Selects [] = nothing
  keep-Selects (x ∷ xs) = elim (Bool-cases (p x)) [
    | inl hit ↦ rw (keep, hit) (selects (sound x hit) (keep-Selects xs))
    | inr miss ↦
        rw (keep, miss)
          (leaves (λ h. let hit = complete x h in absurd (ground arith)) (keep-Selects xs))
  ]

-- The part stands somewhere in the text.
abbrev pub Within : Text → Text → Type 0
Within part text = (front : Text) × (back : Text) × (text ≡ front ++ (part ++ back))

starts_with_sound :
    (part text : Text) → starts_with part text ≡ true → (back : Text) × (text ≡ part ++ back)
starts_with_sound [] text h = (text, refl)
starts_with_sound (p ∷ ps) [] h = cc
starts_with_sound (p ∷ ps) (c ∷ s) h =
    let (back, e) = starts_with_sound ps s (ground arith) in
    let same : c ≡ p = ground arith in (back, ap (λ t. c ∷ t) e ∙ ap (λ d. d ∷ (ps ++ back)) same)

starts_with_complete : (part back : Text) → starts_with part (part ++ back) ≡ true
starts_with_complete [] back = refl
starts_with_complete (p ∷ ps) back = let rest = starts_with_complete ps back in ground arith

contains_sound : (text part : Text) → contains text part ≡ true → Within part text
contains_sound [] part h = let (back, e) = starts_with_sound part [] h in ([], back, e)
contains_sound (c ∷ s) part h = elim (Bool-cases (starts_with part (c ∷ s))) [
  | inl here ↦ let (back, e) = starts_with_sound part (c ∷ s) here in ([], back, e)
  | inr later ↦
      let (front, back, e) = contains_sound s part (ground arith) in
      (c ∷ front, back, ap (λ t. c ∷ t) e)
]

contains_complete : (front part back : Text) → contains (front ++ (part ++ back)) part ≡ true
contains_complete [] part back = go (part ++ back) (starts_with_complete part back)
  where
    go : (t : Text) → starts_with part t ≡ true → contains t part ≡ true
    go [] h = h
    go (c ∷ s) h = ground arith
contains_complete (c ∷ front) part back =
    let rest = contains_complete front part back in ground arith

-- `includes` finds exactly what stands in the text.
pub contains_iff : (text part : Text) → (contains text part ≡ true) ↔ Within part text
contains_iff text part = (
  contains_sound text part,
  λ (front, back, e).
      subst (λ t. contains t part ≡ true) (sym e) (contains_complete front part back),
)
