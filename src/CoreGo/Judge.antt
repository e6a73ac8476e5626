-- ===== src/CoreGo/Judge.antt =====
-- The judge's server actions, apps/web/src/app/[locale]/events/[id]/judge/actions.ts.
use astrea.Prelude.{
  ℕ, Bool, true, false, Option, List, [], ◌∷◌, ◌++◌, Text, codes, Action, Result, ok, err, ◌>>=◌,
  ◌>>◌, pure, from_result, or_throw, modify, digits,
}
use astrea.Prelude.Json.{Json, JsonItems, JsonFields}
use astrea.Schema.{Wallet, Db}
use astrea.Auth.Session.{get_session_wallet}
use astrea.Trustline.{Balance, HorizonError, Asset}
use astrea.CoreGo.Client.{
  Platform, HttpRequest, CoreGoThrown, unknown, property_of, release_build, release_submit,
}
use astrea.CoreGo.Failure.{ReleaseFailure, release_failure}
use astrea.CoreGo.Organizer.{event_page, World}
use astrea.CoreGo.Winners.{ReleaseAssignment, is_active_judge, winners_without_trustline}

-- What a call is refused with: Go's failure, or the winners' addresses that lack the asset's trustline.
pub data JudgeFailure : Type 0 where
  release : ReleaseFailure → JudgeFailure
  missing_trustline : Text → List Text → JudgeFailure

pub data JudgeReply : Type 0 where
  release_built : Option Json → Option Json → JudgeReply
  released : Json → JudgeReply

abbrev pub JudgeAction : Type 0 → Type 0
JudgeAction A = Action World JudgeFailure A

unfoldable pub not_connected_judge : ReleaseFailure
not_connected_judge = record { status = 401; code = codes "not_connected"; message = [] }

abbrev pub judge_session : JudgeAction Wallet
judge_session w = or_throw (get_session_wallet w.req) (release not_connected_judge) w

-- Calls of Go and of the tables in the `try`, whose `catch` answers `failure(err)`.
abbrev pub try_go : {A : Type 0} → Action (List HttpRequest) CoreGoThrown A → JudgeAction A
try_go m w =
    let (r, sent') = m w.sent in
    let w' : World = record w { sent = sent' } in
    elim r [ ok a ↦ (ok a, w') | err e ↦ (err (release (release_failure e)), w') ]

abbrev pub try_db : {A : Type 0} → Action Db Text A → JudgeAction A
try_db m w =
    let (r, db') = m w.req.db in
    let w' : World = record w { req = record (w.req) { db = db' } } in
    elim r [ ok a ↦ (ok a, w') | err e ↦ (err (release (release_failure (unknown e))), w') ]

abbrev pub encode_assignments : List ReleaseAssignment → JsonItems
encode_assignments [] = JsonItems.nil
encode_assignments (a ∷ rest) =
    JsonItems.cons
      (Json.obj (
        JsonFields.field (codes "rank") (Json.num (digits a.rank))
          (JsonFields.field (codes "teamId") (Json.str a.team_id) JsonFields.end)))
      (encode_assignments rest)

-- `${env.USDC_SYMBOL}:${env.USDC_ISSUER}`
abbrev pub asset_name : Asset → Text
asset_name asset = asset.symbol ++ (codes ":" ++ asset.issuer)

abbrev pub refuse_missing : Asset → List Text → JudgeAction (Unit {0})
refuse_missing asset [] w = (ok tt, w)
refuse_missing asset (a ∷ missing) w = (err (missing_trustline (asset_name asset) (a ∷ missing)), w)

module _ (p : Platform) where
  abbrev pub build :
      Text → List ReleaseAssignment → Wallet → Action (List HttpRequest) CoreGoThrown JudgeReply
  build event_id assignments session = do
    res ← release_build p event_id session.address (Json.arr (encode_assignments assignments))
    xdr ← from_result (property_of p (codes "unsignedTransactionXdr") res)
    winners ← from_result (property_of p (codes "winners") res)
    pure (release_built xdr winners)

  module _ (asset : Asset) (horizon : Text → Result HorizonError (List Balance)) (now : ℕ) where
    -- Only for the caller to whom the judge's page shows the form.
    abbrev pub check_winners : Bool → Text → List ReleaseAssignment → JudgeAction (Unit {0})
    check_winners false event_id assignments = pure tt
    check_winners true event_id assignments =
        try_db (winners_without_trustline asset horizon now event_id assignments) >>= λ missing.
        refuse_missing asset missing

    unfoldable pub build_release : Text → List ReleaseAssignment → JudgeAction JudgeReply
    build_release event_id assignments = do
      session ← judge_session
      is_judge ← (λ w. (ok (is_active_judge w.req.db event_id session.address), w))
      check_winners is_judge event_id assignments
      try_go (build event_id assignments session)

  unfoldable pub submit_release : Text → Text → JudgeAction JudgeReply
  submit_release event_id xdr = do
    session ← judge_session
    res ← try_go (release_submit p event_id session.address xdr)
    modify (λ w. record w { revalidated = event_page event_id ∷ w.revalidated })
    pure (released res)
