-- ===== src/Prelude/Trim.antt =====
-- `String.prototype.trim`, and the ends of a text in general.
use mathlib.Core.Path.{◌≡◌, refl, ap, ◌∙◌}
use mathlib.Core.Logic.{inl, inr}
use mathlib.Core.Bool.{Bool, true, false, ◌||◌, ◌&&◌}
use mathlib.Core.List.{[], ◌∷◌, ◌++◌}
use Prim.Native.Nat.{ℕ}
use native.Mathlib.Omega.{arith}
use astrea.Prelude.Tests.{leb, ◌==◌, if◌then◌else◌, Bool-cases}
use astrea.Prelude.Lists.{All}
use astrea.Prelude.Texts.{Text}

-- Without the units at the front for which the test holds.
unfoldable pub drop_while : (ℕ → Bool) → Text → Text
drop_while p [] = []
drop_while p (c ∷ s) = let rest = drop_while p s in if p c then rest else c ∷ s

-- Without those at the end.
unfoldable pub drop_end : (ℕ → Bool) → Text → Text
drop_end p [] = []
drop_end p (c ∷ s) = elim (drop_end p s) [ [] ↦ if p c then [] else c ∷ [] | d ∷ r ↦ c ∷ d ∷ r ]

-- The code units of ECMAScript's WhiteSpace and LineTerminator.
unfoldable pub is_space : ℕ → Bool
is_space c =
    leb 9 c && leb c 13
    || c == 0x20
    || c == 0xa0
    || c == 0x1680
    || leb 0x2000 c && leb c 0x200a
    || c == 0x2028
    || c == 0x2029
    || c == 0x202f
    || c == 0x205f
    || c == 0x3000
    || c == 0xfeff

unfoldable pub trim_end : Text → Text
unfolding drop_end is_space
trim_end s = drop_end is_space s

unfoldable pub trim : Text → Text
unfolding drop_while drop_end is_space
trim s = drop_end is_space (drop_while is_space s)

module _ (p : ℕ → Bool) where
  drop_while_id : (s : Text) → All (λ c. p c ≡ false) s → drop_while p s ≡ s
  unfolding drop_while
  drop_while_id [] h = refl
  drop_while_id (c ∷ s) h = ground arith

  pub drop_end_id : (s : Text) → All (λ c. p c ≡ false) s → drop_end p s ≡ s
  unfolding drop_end
  drop_end_id [] h = refl
  drop_end_id (c ∷ s) h = ground (arith, drop_end_id s h.1)

  -- What was dropped from the end.
  pub drop_end-append : (s : Text) → (t : Text) × (s ≡ drop_end p s ++ t) × All (λ c. p c ≡ true) t
  unfolding drop_end
  drop_end-append [] = ([], refl, tt)
  drop_end-append (c ∷ s) = cut (drop_end p s) refl (drop_end-append s)
    where
      cut :
          (r : Text)
          → drop_end p s ≡ r
          → (t : Text) × (s ≡ drop_end p s ++ t) × All (λ c. p c ≡ true) t
          → (t : Text) × (c ∷ s ≡ drop_end p (c ∷ s) ++ t) × All (λ c. p c ≡ true) t
      cut [] e (t, same, dropped) = elim (Bool-cases (p c)) [
        | inl hit ↦ (c ∷ t, ground arith, (hit, dropped))
        | inr miss ↦ (t, ground arith, dropped)
      ]
      cut (d ∷ r) e (t, same, dropped) = (t, ground arith, dropped)

  drop_end_cons : (c : ℕ) (s : Text) → p c ≡ false → drop_end p (c ∷ s) ≡ c ∷ drop_end p s
  unfolding drop_end
  drop_end_cons c s h = ground arith

  drop_end_idem : (s : Text) → drop_end p (drop_end p s) ≡ drop_end p s
  unfolding drop_end
  drop_end_idem [] = refl
  drop_end_idem (c ∷ s) = ground (arith, drop_end_idem s)

  drop_while-drop_end :
      (s : Text) → drop_while p (drop_end p (drop_while p s)) ≡ drop_end p (drop_while p s)
  unfolding drop_while
  drop_while-drop_end [] = unfold drop_end in refl
  drop_while-drop_end (c ∷ s) = elim (Bool-cases (p c)) [
    | inl hit ↦ rw hit (drop_while-drop_end s)
    | inr miss ↦ rw (miss, drop_end_cons c s miss) (rw miss)
  ]

-- Trimming twice is trimming once.
pub trim_idem : (s : Text) → trim (trim s) ≡ trim s
unfolding trim
trim_idem s =
    ap (drop_end is_space) (drop_while-drop_end is_space s)
    ∙ drop_end_idem is_space (drop_while is_space s)

-- A text without white space is its own trim.
pub trim_id : (s : Text) → All (λ c. is_space c ≡ false) s → trim s ≡ s
unfolding trim
trim_id s h = ap (drop_end is_space) (drop_while_id is_space s h) ∙ drop_end_id is_space s h
