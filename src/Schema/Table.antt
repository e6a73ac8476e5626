-- ===== src/Schema/Table.antt =====
-- What the queries on one table do to its rows: Prisma's `findUnique`, `updateMany`, `deleteMany`.
use astrea.Prelude.{
  ℕ, suc, ◌≡◌, refl, ap, inl, inr, Bool, true, false, not, none, List, [], ◌∷◌, arith,
  if◌then◌else◌, Bool-cases, find, keep, All,
}

module _ {R : Type 0} where
  -- The `count` of an `updateMany`.
  abbrev pub count_where : (R → Bool) → List R → ℕ
  count_where p [] = 0
  count_where p (r ∷ rs) = let n = count_where p rs in if p r then suc n else n

  -- The rows after `updateMany({ where: p, data: f })`.
  abbrev pub update_where : (R → Bool) → (R → R) → List R → List R
  update_where p f [] = []
  update_where p f (r ∷ rs) = let rest = update_where p f rs in if p r then f r ∷ rest else r ∷ rest

  -- The rows after `deleteMany({ where: p })`.
  abbrev pub delete_where : (R → Bool) → List R → List R
  delete_where p = keep (λ r. not (p r))

  pub update_where_none :
      (p : R → Bool) (f : R → R) (rs : List R) → count_where p rs ≡ 0 → update_where p f rs ≡ rs
  update_where_none p f [] h = refl
  update_where_none p f (r ∷ rs) h = elim (Bool-cases (p r)) [
    | inl hit ↦ ground arith
    | inr miss ↦
        let rest = update_where_none p f rs (ground arith) in rw miss (ap (λ t. r ∷ t) rest)
  ]

  -- When an update moves each row that it touches out of `q`, where `p` covers `q`, none is left.
  pub count_where-update_where :
      (p q : R → Bool) (f : R → R) (rs : List R)
      → ((r : R) → q (f r) ≡ false)
      → ((r : R) → q r ≡ true → p r ≡ true)
      → count_where q (update_where p f rs) ≡ 0
  count_where-update_where p q f [] moved covers = refl
  count_where-update_where p q f (r ∷ rs) moved covers =
      ground (arith, moved r, covers r, count_where-update_where p q f rs moved covers)

  -- What holds of the rows before, and of each row that the update writes, holds after it.
  pub All-update_where :
      (P : R → Type 0) (p : R → Bool) (f : R → R) (rs : List R)
      → ((r : R) → p r ≡ true → P r → P (f r))
      → All P rs
      → All P (update_where p f rs)
  All-update_where P p f [] keeps h = tt
  All-update_where P p f (r ∷ rs) keeps h = elim (Bool-cases (p r)) [
    | inl hit ↦ rw hit (keeps r hit h.0, All-update_where P p f rs keeps h.1)
    | inr miss ↦ rw miss (h.0, All-update_where P p f rs keeps h.1)
  ]

  pub All-delete_where :
      (P : R → Type 0) (p : R → Bool) (rs : List R) → All P rs → All P (delete_where p rs)
  All-delete_where P p [] h = tt
  All-delete_where P p (r ∷ rs) h = elim (Bool-cases (p r)) [
    | inl hit ↦ rw hit (All-delete_where P p rs h.1)
    | inr miss ↦ rw miss (h.0, All-delete_where P p rs h.1)
  ]

  pub find-delete_where :
      (p q : R → Bool) (rs : List R)
      → ((r : R) → q r ≡ true → p r ≡ true)
      → find q (delete_where p rs) ≡ none
  find-delete_where p q [] covers = refl
  find-delete_where p q (r ∷ rs) covers = ground (arith, covers r, find-delete_where p q rs covers)
