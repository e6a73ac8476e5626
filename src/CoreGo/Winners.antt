-- ===== src/CoreGo/Winners.antt =====
-- The check of the winners' trustlines in the judge's actions.ts: whose form it is, and which of the
-- winning members cannot be paid.
use astrea.Prelude.{
  ℕ, Bool, true, false, ◌&&◌, ◌||◌, not, none, some, List, [], ◌∷◌, Text, ◌===◌, Action, Result, ok,
  err, if◌then◌else◌, find, keep, ltb,
}
use astrea.Schema.{EventStatus, judging, JudgeStatus, active, Judge, TeamMember, Wallet, Db}
use astrea.Auth.Session.{has_id}
use astrea.CoreGo.Organizer.{find_event}
use astrea.Trustline.{Balance, HorizonError, Asset, verify_and_record_trustline}

pub record ReleaseAssignment : Type 0 where
  pub rank : ℕ
  pub team_id : Text

abbrev pub is_judging : EventStatus → Bool
is_judging judging = true
is_judging _ = false

abbrev pub is_active : JudgeStatus → Bool
is_active active = true
is_active _ = false

-- The event's rows of judges that are ACTIVE.
abbrev pub active_judges : Text → List Judge → List Judge
active_judges event_id = keep (λ j. j.event_id === event_id && is_active j.status)

-- `judges.length === 1 && judges[0].walletAddress === address`
abbrev pub is_only : List Judge → Text → Bool
is_only (j ∷ []) address = j.wallet_address === address
is_only _ address = false

unfoldable pub is_active_judge : Db → Text → Text → Bool
is_active_judge db event_id address = elim (find_event event_id db.events) [
  | none ↦ false
  | some event ↦ is_judging event.status && is_only (active_judges event.id db.judges) address
]

-- The order of texts by code unit, in which the ids are sorted.
abbrev pub text_ltb : Text → Text → Bool
text_ltb [] [] = false
text_ltb [] (y ∷ ys) = true
text_ltb (x ∷ xs) [] = false
text_ltb (x ∷ xs) (y ∷ ys) = let rest = text_ltb xs ys in ltb x y || (not (ltb y x) && rest)

-- `orderBy: [{ teamId: "asc" }, { ordinal: "asc" }]`
abbrev pub before : TeamMember → TeamMember → Bool
before m n =
    text_ltb m.team_id n.team_id || (not (text_ltb n.team_id m.team_id) && ltb m.ordinal n.ordinal)

abbrev pub insert : TeamMember → List TeamMember → List TeamMember
insert m [] = m ∷ []
insert m (n ∷ ns) = let rest = insert m ns in if before n m then n ∷ rest else m ∷ n ∷ ns

abbrev pub sort_members : List TeamMember → List TeamMember
sort_members [] = []
sort_members (m ∷ ms) = insert m (sort_members ms)

-- `teamId: { in: teamIds }`; the ids' repetitions, which the source removes, do not change the answer.
abbrev pub is_assigned : List ReleaseAssignment → Text → Bool
is_assigned [] team_id = false
is_assigned (a ∷ rest) team_id = a.team_id === team_id || is_assigned rest team_id

abbrev pub winning_members : Text → List ReleaseAssignment → List TeamMember → List TeamMember
winning_members event_id assignments members =
    sort_members (keep (λ m. m.event_id === event_id && is_assigned assignments m.team_id) members)

-- The member's wallet; a foreign key has it that there is one.
abbrev pub wallets_of : List TeamMember → List Wallet → List Wallet
wallets_of [] wallets = []
wallets_of (m ∷ ms) wallets =
    let rest = wallets_of ms wallets in
    elim (find (has_id m.wallet_id) wallets) [ none ↦ rest | some w ↦ w ∷ rest ]

-- What the checks came to; a check that throws makes the whole throw, with the first message in the
-- members' order.
abbrev pub collect : Text → Result Text Bool → Result Text (List Text) → Result Text (List Text)
collect address (err e) rest = err e
collect address (ok _) (err e) = err e
collect address (ok true) (ok missing) = ok missing
collect address (ok false) (ok missing) = ok (address ∷ missing)

module _ (asset : Asset) (horizon : Text → Result HorizonError (List Balance)) (now : ℕ) where
  -- Every check is started, so the writes of all of them stand even when one throws.
  unfoldable pub check_wallets : List Wallet → Action Db Text (List Text)
  check_wallets [] db = (ok [], db)
  check_wallets (w ∷ ws) db =
      let (r, db') = verify_and_record_trustline asset horizon now w.id w.address db in
      let (rs, db'') = check_wallets ws db' in (collect w.address r rs, db'')

  unfoldable pub winners_without_trustline :
      Text → List ReleaseAssignment → Action Db Text (List Text)
  unfolding check_wallets
  winners_without_trustline event_id assignments db =
      check_wallets (wallets_of (winning_members event_id assignments db.team_members) db.wallets)
        db
