-- ===== src/Earnings/Sorting.antt =====
-- The stable sort of Earnings: what it returns for an order in which "neither is before" is transitive.
use mathlib.Core.List.{Perm}
use mathlib.Core.List.Perm
use astrea.Prelude.{
  ◌≡◌, refl, ap, ◌∙◌, Bool, true, false, not, ◌&&◌, List, [], ◌∷◌, arith, All, keep, Bool-cases,
  inl, inr, if◌then◌else◌,
}
use astrea.Earnings.{insert, sort}

pub All-keep :
    {A : Type 0} (P : A → Type 0) (p : A → Bool) (xs : List A) → All P xs → All P (keep p xs)
All-keep P p [] h = tt
All-keep P p (x ∷ xs) h = elim (Bool-cases (p x)) [
  | inl e ↦ rw e (h.0, All-keep P p xs h.1)
  | inr e ↦ rw e (All-keep P p xs h.1)
]

module _ {A : Type 0} (before : A → A → Bool) where
  -- Of two elements neither may be before the other; of three, `before` is a weak order.
  pub record Ranks (P : A → Type 0) : Type 0 where
    pub asym : (a b : A) → P a → P b → before a b ≡ true → before b a ≡ false
    pub through :
        (a b c : A) → P a → P b → P c → before a b ≡ false → before b c ≡ false → before a c ≡ false

  -- No element is before an earlier one.
  abbrev pub IsSorted : List A → Type 0
  IsSorted [] = Unit
  IsSorted (x ∷ xs) = All (λ y. before y x ≡ false) xs × IsSorted xs

  abbrev pub ties : A → A → Bool
  ties w a = not (before a w) && not (before w a)

  module _ (P : A → Type 0) where
    All-insert : (x : A) (l : List A) → P x → All P l → All P (insert before x l)
    All-insert x [] p h = (p, tt)
    All-insert x (y ∷ ys) p h = elim (Bool-cases (before y x)) [
      | inl e ↦ rw e (h.0, All-insert x ys p h.1)
      | inr e ↦ rw e (p, h)
    ]

    pub All-sort : (l : List A) → All P l → All P (sort before l)
    All-sort [] h = tt
    All-sort (x ∷ xs) h = All-insert x (sort before xs) h.0 (All-sort xs h.1)

  insert-perm : (x : A) (l : List A) → Perm (insert before x l) (x ∷ l)
  insert-perm x [] = Perm.rfl
  insert-perm x (y ∷ ys) = elim (Bool-cases (before y x)) [
    | inl e ↦ rw e (Perm.trans (Perm.cons y (insert-perm x ys)) (Perm.swap x y ys))
    | inr e ↦ rw e Perm.rfl
  ]

  pub sort-perm : (l : List A) → Perm (sort before l) l
  sort-perm [] = Perm.rfl
  sort-perm (x ∷ xs) = Perm.trans (insert-perm x (sort before xs)) (Perm.cons x (sort-perm xs))

  module _ {P : A → Type 0} (ranks : Ranks P) where
    above :
        (y x : A) (l : List A)
        → P y
        → P x
        → before y x ≡ false
        → All P l
        → All (λ z. before z y ≡ false) l
        → All (λ z. before z x ≡ false) l
    above y x [] q p e h k = tt
    above y x (z ∷ l) q p e h k = (ranks.through z y x h.0 q p k.0 e, above y x l q p e h.1 k.1)

    insert-IsSorted :
        (x : A) (l : List A) → P x → All P l → IsSorted l → IsSorted (insert before x l)
    insert-IsSorted x [] p h s = (tt, tt)
    insert-IsSorted x (y ∷ ys) p h s = elim (Bool-cases (before y x)) [
      | inl e ↦ rw e (
        All-insert (λ z. before z y ≡ false) x ys (ranks.asym y x h.0 p e) s.0,
        insert-IsSorted x ys p h.1 s.1,
      )
      | inr e ↦ rw e ((e, above y x ys h.0 p e h.1 s.0), s)
    ]

    pub sort-IsSorted : (l : List A) → All P l → IsSorted (sort before l)
    sort-IsSorted [] h = tt
    sort-IsSorted (x ∷ xs) h =
        insert-IsSorted x (sort before xs) h.0 (All-sort P xs h.1) (sort-IsSorted xs h.1)

    keep-insert :
        (w x : A) (l : List A)
        → P w
        → P x
        → All P l
        → keep (ties w) (insert before x l) ≡ keep (ties w) (x ∷ l)
    keep-insert w x [] q p h = refl
    keep-insert w x (y ∷ ys) q p h = elim (Bool-cases (before y x)) [
      | inr e ↦ rw e refl
      | inl e ↦
          let rest = keep-insert w x ys q p h.1 in
          let apart = ranks.through y w x h.0 q p in rw e (ground (arith, apart, rest))
    ]

    -- Elements that tie keep their order.
    pub keep-sort :
        (w : A) (l : List A) → P w → All P l → keep (ties w) (sort before l) ≡ keep (ties w) l
    keep-sort w [] q h = refl
    keep-sort w (x ∷ xs) q h =
        keep-insert w x (sort before xs) q h.0 (All-sort P xs h.1)
        ∙ ap (λ rest. if ties w x then x ∷ rest else rest) (keep-sort w xs q h.1)
