-- ===== src/Screens/Signing.antt =====
-- What holds of the signing step, whatever the wallet and the server answer: what a screen demands
-- of a build that it puts up for signing holds of all that was asked, and nothing is submitted that
-- the wallet was not asked for.
use astrea.Prelude.{
  ℕ, zero, suc, ◌+◌, ◌≤◌, ◌≡◌, refl, Bool, Option, none, some, List, [], ◌∷◌, Text, Result, ok, err,
  arith, All, inl, inr, Option-cases, Result-cases, Bool-cases, true, false, ◌||◌, ◌==◌,
}
use mathlib.Core.Path.{subst}
use astrea.Screens.Sign.{
  Phase, busy, is_confirmed, set_phase, Thrown, Copy, Flight, Asked, to_sign, to_submit, SignStep,
  SignStepResult, new_step, nth, set_at, remove_at, sign, wallet_answers, waiting, waits_next,
  settle, unmount_if,
}

abbrev pub asked_for : {B : Type 0} → Asked B → B
asked_for (to_sign b) = b
asked_for (to_submit b _) = b

abbrev is_open : {W : Type 0} → Option W → ℕ
is_open none = 1
is_open (some _) = 0

-- `P` of what is there, if anything is.
abbrev pub Holds : {B : Type 0} → (B → Type 0) → Option B → Type 0
Holds P none = Unit
Holds P (some b) = P b

-- `P` of what an answer of the server carries, if it is no failure.
abbrev pub HoldsOk : {E B : Type 0} → (B → Type 0) → Result E B → Type 0
HoldsOk P (ok b) = P b
HoldsOk P (err e) = Unit

-- The presses whose wallet is open.
abbrev pub open_wallets : {B W : Type 0} → List (Flight B W) → ℕ
open_wallets [] = 0
open_wallets (f ∷ fs) = is_open f.waits_at + open_wallets fs

abbrev pub prompts : {B : Type 0} → List (Asked B) → ℕ
prompts [] = 0
prompts (to_sign _ ∷ log) = suc (prompts log)
prompts (to_submit _ _ ∷ log) = prompts log

abbrev pub submissions : {B : Type 0} → List (Asked B) → ℕ
submissions [] = 0
submissions (to_sign _ ∷ log) = submissions log
submissions (to_submit _ _ ∷ log) = suc (submissions log)

-- `P` of every build that was put up, and each submission answers a press of its own.
pub record Signs {B : Type 0} (W : Type 0) (P : B → Type 0) (s : SignStep B W) : Type 0 where
  pub flying : All (λ (f : Flight B W). P f.built) s.flights
  pub asking : All (λ (a : Asked B). P (asked_for a)) s.asked
  pub answered : submissions s.asked + open_wallets s.flights ≤ prompts s.asked

module _ {A : Type 0} (P : A → Type 0) where
  pub All-nth : (i : ℕ) (xs : List A) (x : A) → nth i xs ≡ some x → All P xs → P x
  All-nth i [] x e h = cc
  All-nth zero (y ∷ xs) x e h = let same : y ≡ x = ground arith in subst P same h.0
  All-nth (suc i) (y ∷ xs) x e h = All-nth i xs x e h.1

  pub All-set_at : (i : ℕ) (a : A) (xs : List A) → P a → All P xs → All P (set_at i a xs)
  All-set_at i a [] p h = tt
  All-set_at zero a (x ∷ xs) p h = (p, h.1)
  All-set_at (suc i) a (x ∷ xs) p h = (h.0, All-set_at i a xs p h.1)

  pub All-remove_at : (i : ℕ) (xs : List A) → All P xs → All P (remove_at i xs)
  All-remove_at i [] h = tt
  All-remove_at zero (x ∷ xs) h = h.1
  All-remove_at (suc i) (x ∷ xs) h = (h.0, All-remove_at i xs h.1)

module _ {B W : Type 0} where
  open_wallets-set_at :
      (i : ℕ) (f g : Flight B W) (fs : List (Flight B W)) (w : W)
      → nth i fs ≡ some f
      → g.waits_at ≡ some w
      → open_wallets (set_at i g fs) + is_open f.waits_at ≡ open_wallets fs
  open_wallets-set_at i f g [] w e k = cc
  open_wallets-set_at zero f g (x ∷ fs) w e k = ground arith
  open_wallets-set_at (suc i) f g (x ∷ fs) w e k = omega (arith, open_wallets-set_at i f g fs w e k)

  open_wallets-remove_at :
      (i : ℕ) (fs : List (Flight B W)) → open_wallets (remove_at i fs) ≤ open_wallets fs
  open_wallets-remove_at i [] = omega arith
  open_wallets-remove_at zero (x ∷ fs) = omega arith
  open_wallets-remove_at (suc i) (x ∷ fs) = omega (arith, open_wallets-remove_at i fs)

  module _ (P : B → Type 0) where
    pub Signs-new_step : Signs W P new_step
    Signs-new_step = record { flying = tt; asking = tt; answered = omega arith }

    Signs-set_phase :
        (m : ℕ) (phase : Phase) (s : SignStep B W) → Signs W P s → Signs W P (set_phase m phase s)
    Signs-set_phase m phase s h = elim (Bool-cases (m == s.mount)) [
      | inl e ↦ rw e (record { flying = h.flying; asking = h.asking; answered = h.answered })
      | inr e ↦ rw e h
    ]

    pub Signs-sign : (b : B) (s : SignStep B W) → P b → Signs W P s → Signs W P (sign b s)
    unfolding sign
    Signs-sign b s p h = elim (Bool-cases (busy s.phase || is_confirmed s.phase)) [
      | inl e ↦ rw e h
      | inr e ↦ rw e (record {
        flying = (p, h.flying);
        asking = (p, h.asking);
        answered = omega (arith, h.answered);
      })
    ]

    pub Signs-unmount_if : (c : Bool) (s : SignStep B W) → Signs W P s → Signs W P (unmount_if c s)
    Signs-unmount_if true s h = record {
      flying = h.flying;
      asking = h.asking;
      answered = h.answered;
    }
    Signs-unmount_if false s h = h

    Signs-remove_at :
        (i : ℕ) (s : SignStep B W)
        → Signs W P s
        → Signs W P (record s { flights = remove_at i s.flights })
    Signs-remove_at i s h = record {
      flying = All-remove_at (λ (f : Flight B W). P f.built) i s.flights h.flying;
      asking = h.asking;
      answered = omega (arith, h.answered, open_wallets-remove_at i s.flights);
    }

    -- The wallet signed: the press that was open waits for the server.
    Signs-signed :
        (i : ℕ) (f : Flight B W) (w : W) (signed : Text) (s : SignStep B W)
        → nth i s.flights ≡ some f
        → f.waits_at ≡ none
        → Signs W P s
        → Signs W P (record s {
          flights = set_at i (record f { waits_at = some w }) s.flights;
          asked = to_submit f.built signed ∷ s.asked;
        })
    Signs-signed i f w signed s e k h =
        let p = All-nth (λ (g : Flight B W). P g.built) i s.flights f e h.flying in
        record {
          flying =
              All-set_at (λ (g : Flight B W). P g.built) i (record f { waits_at = some w })
                s.flights p h.flying;
          asking = (p, h.asking);
          answered =
              let one : is_open f.waits_at ≡ 1 = rw k refl in
              omega (
                arith,
                one,
                h.answered,
                open_wallets-set_at i f (record f { waits_at = some w }) s.flights w e refl,
              );
        }

    pub Signs-wallet_answers :
        (copy : Copy) (w : W) (i : ℕ) (r : Result Thrown Text) (s : SignStep B W)
        → Signs W P s
        → Signs W P (wallet_answers copy w i r s)
    unfolding wallet_answers
    Signs-wallet_answers copy w i r s h = elim (Option-cases (nth i s.flights)) [
      | inl e ↦ rw (wallet_answers, e) h
      | inr (f, e) ↦ elim (Option-cases f.waits_at) [
        | inr (v, k) ↦ rw (wallet_answers, e) (rw k h)
        | inl k ↦ elim (Result-cases r) [
          | inl (signed, q) ↦
              rw (wallet_answers, e)
                (rw k (rw q (Signs-set_phase _ _ _ (Signs-signed i f w signed s e k h))))
          | inr (x, q) ↦
              rw (wallet_answers, e) (rw k (rw q (Signs-set_phase _ _ _ (Signs-remove_at i s h))))
        ]
      ]
    ]

    pub Signs-waits_next :
        (i : ℕ) (f : Flight B W) (v w : W) (s : SignStep B W)
        → waiting i s ≡ some (f, v)
        → Signs W P s
        → Signs W P (waits_next i f w s)
    Signs-waits_next i f v w s e h =
        let at : nth i s.flights ≡ some f = ground arith in
        let p = All-nth (λ (g : Flight B W). P g.built) i s.flights f at h.flying in
        record {
          flying =
              All-set_at (λ (g : Flight B W). P g.built) i (record f { waits_at = some w })
                s.flights p h.flying;
          asking = h.asking;
          answered = omega (
            arith,
            h.answered,
            open_wallets-set_at i f (record f { waits_at = some w }) s.flights w at refl,
          );
        }

    pub Signs-settle :
        (copy : Copy) (i : ℕ) (f : Flight B W) (r : Result Thrown SignStepResult) (s : SignStep B W)
        → Signs W P s
        → Signs W P (settle copy i f r s)
    unfolding settle
    Signs-settle copy i f (ok x) s h = Signs-set_phase _ _ _ (Signs-remove_at i s h)
    Signs-settle copy i f (err x) s h = Signs-set_phase _ _ _ (Signs-remove_at i s h)
