-- ===== src/Teams/Shares.antt =====
-- shares.ts: whether the shares of a team's members add up to the whole prize.
use astrea.Prelude.{
  ℕ, suc, ◌+◌, ◌≤◌, ◌≡◌, ◌↔◌, refl, ap, inl, inr, Bool, true, false, ◌&&◌, Option, none, some, List,
  [], ◌∷◌, ◌++◌, Text, codes, map, arith, leb, ltb, ◌==◌, digits, All, if◌then◌else◌, Bool-cases,
  Option-cases, sym, ◌∙◌,
}
use astrea.Prelude.Int.{ℤ, pos, negsuc}
use astrea.Amount.Units.{sum}

-- A JavaScript number: an integer, or one that is none (NaN and the infinities too), by its text.
pub data Number : Type 0 where
  whole : ℤ → Number
  other : Text → Number

abbrev pub full_unit : ℕ
full_unit = 10000

-- `Number.isInteger(share) && share > 0 && share <= FULL_UNIT_BASIS_POINTS`
unfoldable pub is_share : Number → Bool
is_share (whole (pos n)) = ltb 0 n && leb n full_unit
is_share _ = false

unfoldable pub show : Number → Text
show (whole (pos n)) = digits n
show (whole (negsuc n)) = codes "-" ++ digits (suc n)
show (other s) = s

-- The loop: the first share that is none.
unfoldable pub first_bad : List Number → Option Number
unfolding is_share
first_bad [] = none
first_bad (s ∷ rest) = let later = first_bad rest in if is_share s then later else some s

-- `reduce`, which the code reaches only with positive shares.
unfoldable pub total : List Number → ℕ
total [] = 0
total (whole (pos n) ∷ rest) = n + total rest
total (_ ∷ rest) = total rest

pub record ShareResult : Type 0 where
  pub valid : Bool
  pub reason : Option Text

unfoldable pub validate_team_shares : List Number → ShareResult
unfolding first_bad total show
validate_team_shares [] = record {
  valid = false;
  reason = some (codes "a team must have at least one member");
}
validate_team_shares (s ∷ rest) = elim (first_bad (s ∷ rest)) [
  | some bad ↦ record {
    valid = false;
    reason =
        some
          (codes "each member's share must be an integer between 1 and 10000 bp, got " ++ show bad);
  }
  | none ↦
      if total (s ∷ rest) == full_unit then record { valid = true; reason = none } else record {
        valid = false;
        reason = some (
            codes "member shares sum to "
            ++ (digits (total (s ∷ rest)) ++ codes " bp, must sum to exactly 10000"));
      }
]

-- A share's value when there is one.
abbrev InRange : ℕ → Type 0
InRange n = (1 ≤ n) × (n ≤ full_unit)

-- The members' shares as basis points.
pub record Shares (shares : List Number) : Type 0 where
  pub points : List ℕ
  pub are : shares ≡ map (λ n. whole (pos n)) points
  pub in_range : All InRange points
  pub add_up : sum points ≡ full_unit

share_inv : (s : Number) → is_share s ≡ true → (n : ℕ) × (s ≡ whole (pos n)) × InRange n
unfolding is_share
share_inv (whole (pos n)) h = (n, refl, ground arith)
share_inv (whole (negsuc n)) h = absurd (ground arith)
share_inv (other t) h = absurd (ground arith)

points_of :
    (shares : List Number)
    → first_bad shares ≡ none
    → (ns : List ℕ) × (shares ≡ map (λ n. whole (pos n)) ns) × All InRange ns
unfolding first_bad
points_of [] h = ([], refl, tt)
points_of (s ∷ rest) h = elim (Bool-cases (is_share s)) [
  | inr bad ↦ absurd (ground arith)
  | inl good ↦
      let (n, is, range) = share_inv s good in
      let (ns, are, ranges) = points_of rest (ground arith) in
      (n ∷ ns, ground arith, (range, ranges))
]

total-map : (ns : List ℕ) → total (map (λ n. whole (pos n)) ns) ≡ sum ns
unfolding total
total-map [] = refl
total-map (n ∷ ns) = ap (λ t. n + t) (total-map ns)

first_bad-map : (ns : List ℕ) → All InRange ns → first_bad (map (λ n. whole (pos n)) ns) ≡ none
unfolding first_bad is_share
first_bad-map [] h = refl
first_bad-map (n ∷ ns) (h, hs) = let later = first_bad-map ns hs in ground arith

valid_sound : (shares : List Number) → (validate_team_shares shares).valid ≡ true → Shares shares
unfolding validate_team_shares
valid_sound [] h = absurd (ground arith)
valid_sound (s ∷ rest) h = elim (Option-cases (first_bad (s ∷ rest))) [
  | inr (bad, found) ↦ absurd (ground arith)
  | inl none_bad ↦
      let (ns, are, ranges) = points_of (s ∷ rest) none_bad in
      record {
        points = ns;
        are = are;
        in_range = ranges;
        add_up = sym (total-map ns) ∙ (ap total (sym are) ∙ ground arith);
      }
]

validated :
    (shares : List Number)
    → total shares ≡ full_unit
    → first_bad shares ≡ none
    → (validate_team_shares shares).valid ≡ true
unfolding validate_team_shares total
validated [] counted clean = absurd (ground arith)
validated (s ∷ rest) counted clean = ground arith

valid_complete : (shares : List Number) → Shares shares → (validate_team_shares shares).valid ≡ true
unfolding validate_team_shares
valid_complete shares r =
    let counted : total shares ≡ full_unit = ap total r.are ∙ (total-map r.points ∙ r.add_up) in
    let clean : first_bad shares ≡ none = ap first_bad r.are ∙ first_bad-map r.points r.in_range in
    validated shares counted clean

-- A team's shares are valid exactly if they are integers from 1 to 10000 that add up to 10000; in
-- particular a team without members is not.
pub validate_team_shares_iff :
    (shares : List Number) → ((validate_team_shares shares).valid ≡ true) ↔ Shares shares
validate_team_shares_iff shares = (valid_sound shares, valid_complete shares)
