-- ===== src/Views/Privacy.antt =====
-- A field that the public view does not name leaves no trace in it.
use mathlib.Core.Path.{ap₂}
use mathlib.Core.Option
use astrea.Prelude.{◌≡◌, refl, ap, Option, none, some, List, [], ◌∷◌, Text, codes, All, arith}
use astrea.Prelude.Json.{JsonFields, member}
use astrea.Views.Public.{
  Coercions, PublicPrizeView, PublicJudgeView, PublicTeamView, fields_of, readable, array_of,
  cons_both, view_rows, prize_view, judge_view, member_view, team_with, team_view, event_view,
  sanitize_public_event_view,
}

-- Two rows that agree on every field with one of the names.
abbrev pub Agree : List Text → JsonFields → JsonFields → Type 0
Agree names fs gs = All (λ k. member k fs ≡ member k gs) names

-- Neither can be read, or both can and are related.
abbrev pub SameRow :
    (JsonFields → JsonFields → Type 0) → Option JsonFields → Option JsonFields → Type 0
SameRow R none none = Unit
SameRow R (some x) (some y) = R x y
SameRow R _ _ = ⊥

-- As many rows, related in their order.
abbrev pub Rows :
    (JsonFields → JsonFields → Type 0)
    → List (Option JsonFields)
    → List (Option JsonFields)
    → Type 0
Rows R [] [] = Unit
Rows R (x ∷ xs) (y ∷ ys) = SameRow R x y × Rows R xs ys
Rows R _ _ = ⊥

abbrev pub SamePrize : JsonFields → JsonFields → Type 0
SamePrize = Agree (
    codes "id"
    ∷ codes "rank"
    ∷ codes "amount"
    ∷ codes "status"
    ∷ codes "winnerTeamId"
    ∷ codes "releaseTxHash"
    ∷ codes "releasedAt"
    ∷ [])

abbrev pub SameJudge : JsonFields → JsonFields → Type 0
SameJudge = Agree (codes "id" ∷ codes "walletAddress" ∷ codes "displayName" ∷ codes "status" ∷ [])

-- Of a wallet, its id and its address.
abbrev pub SameWallet : JsonFields → JsonFields → Type 0
SameWallet = Agree (codes "id" ∷ codes "address" ∷ [])

abbrev pub SameMember : JsonFields → JsonFields → Type 0
SameMember m n =
    Agree (codes "walletId" ∷ codes "ordinal" ∷ codes "shareBasisPoints" ∷ []) m n
    × SameWallet (fields_of (member (codes "wallet") m)) (fields_of (member (codes "wallet") n))

abbrev pub SameTeam : JsonFields → JsonFields → Type 0
SameTeam t u =
    Agree (codes "id" ∷ codes "name" ∷ codes "submissionUrl" ∷ codes "submissionVerifiedAt" ∷ []) t
      u
    × Rows SameMember (array_of (member (codes "members") t))
        (array_of (member (codes "members") u))

abbrev pub SameFields : JsonFields → JsonFields → Type 0
SameFields = Agree (
    codes "id"
    ∷ codes "name"
    ∷ codes "description"
    ∷ codes "logoUrl"
    ∷ codes "tagline"
    ∷ codes "location"
    ∷ codes "timezone"
    ∷ codes "registrationOpensAt"
    ∷ codes "registrationClosesAt"
    ∷ codes "startsAt"
    ∷ codes "endsAt"
    ∷ codes "judgingDeadlineAt"
    ∷ codes "status"
    ∷ codes "requireGithub"
    ∷ codes "network"
    ∷ codes "escrowEventId"
    ∷ codes "organizerWalletId"
    ∷ [])

-- Two raw events that agree on what is public, down to the wallets of the members, and on which rows
-- are null.
pub record SamePublic (fs gs : JsonFields) : Type 0 where
  pub fields : SameFields fs gs
  pub organizer :
      SameRow SameWallet
        (readable (member (codes "organizerWallet") fs))
        (readable (member (codes "organizerWallet") gs))
  pub prizes :
      Rows SamePrize (array_of (member (codes "prizes") fs)) (array_of (member (codes "prizes") gs))
  pub judges :
      Rows SameJudge (array_of (member (codes "judges") fs)) (array_of (member (codes "judges") gs))
  pub teams :
      Rows SameTeam (array_of (member (codes "teams") fs)) (array_of (member (codes "teams") gs))

view_rows-Rows :
    {V : Type 0} (R : JsonFields → JsonFields → Type 0) (f : JsonFields → Option V)
    → ((x y : JsonFields) → R x y → f x ≡ f y)
    → (xs ys : List (Option JsonFields)) → Rows R xs ys
    → view_rows f xs ≡ view_rows f ys
view_rows-Rows R f same [] [] h = refl
view_rows-Rows R f same [] (y ∷ ys) h = absurd h
view_rows-Rows R f same (x ∷ xs) [] h = absurd h
view_rows-Rows R f same (none ∷ xs) (none ∷ ys) h = refl
view_rows-Rows R f same (none ∷ xs) (some y ∷ ys) (h, hs) = absurd h
view_rows-Rows R f same (some x ∷ xs) (none ∷ ys) (h, hs) = absurd h
view_rows-Rows R f same (some x ∷ xs) (some y ∷ ys) (h, hs) =
    ap₂ cons_both (same x y h) (view_rows-Rows R f same xs ys hs)

module _ (c : Coercions) where
  prize_view_lem : (x y : JsonFields) → SamePrize x y → prize_view c x ≡ prize_view c y
  unfolding prize_view
  prize_view_lem x y h = ground arith

  judge_view_lem : (x y : JsonFields) → SameJudge x y → judge_view c x ≡ judge_view c y
  unfolding judge_view
  judge_view_lem x y h = ground arith

  member_view_lem : (x y : JsonFields) → SameMember x y → member_view c x ≡ member_view c y
  unfolding member_view
  member_view_lem x y h = ground arith

  team_view_lem : (x y : JsonFields) → SameTeam x y → team_view c x ≡ team_view c y
  unfolding team_view
  team_view_lem x y (h, hs) =
      let members =
        view_rows-Rows SameMember (λ m. some (member_view c m))
          (λ m n s. ap some (member_view_lem m n s)) (array_of (member (codes "members") x))
          (array_of (member (codes "members") y)) hs in
      let team : team_with c x ≡ team_with c y = ground arith in ap₂ Option.map team members

  event_view_lem :
      (fs gs : JsonFields) (o q : Option JsonFields) (prizes : Option (List PublicPrizeView))
      (judges : Option (List PublicJudgeView)) (teams : Option (List PublicTeamView))
      → SameFields fs gs
      → SameRow SameWallet o q
      → event_view c fs o prizes judges teams ≡ event_view c gs q prizes judges teams
  event_view_lem fs gs none none prizes judges teams fields h = refl
  event_view_lem fs gs none (some q) prizes judges teams fields h = absurd h
  event_view_lem fs gs (some o) none prizes judges teams fields h = absurd h
  event_view_lem fs gs (some o) (some q) (some prizes) (some judges) (some teams) fields h =
      ground arith
  event_view_lem fs gs (some o) (some q) none judges teams fields h = refl
  event_view_lem fs gs (some o) (some q) (some prizes) none teams fields h = refl
  event_view_lem fs gs (some o) (some q) (some prizes) (some judges) none fields h = refl

  -- Two raw events that agree on which of their rows are null and on the public fields, down to the id
  -- and address of each member's wallet, have the same view, or both have none, whatever else their
  -- rows hold.
  pub sanitize_public_event_view_lem :
      (fs gs : JsonFields)
      → SamePublic fs gs
      → sanitize_public_event_view c fs ≡ sanitize_public_event_view c gs
  unfolding sanitize_public_event_view
  sanitize_public_event_view_lem fs gs h =
      let prizes =
        view_rows-Rows SamePrize (λ p. some (prize_view c p))
          (λ x y s. ap some (prize_view_lem x y s)) _ _ h.prizes in
      let judges =
        view_rows-Rows SameJudge (λ j. some (judge_view c j))
          (λ x y s. ap some (judge_view_lem x y s)) _ _ h.judges in
      let teams = view_rows-Rows SameTeam (team_view c) team_view_lem _ _ h.teams in
      rw (prizes, judges, teams) (event_view_lem fs gs _ _ _ _ _ h.fields h.organizer)
