-- ===== src/CoreGo/Release.antt =====
-- Before a release is built: which winners are refused, and what a request that goes out presupposes.
use astrea.Prelude.{
  ℕ, ◌≡◌, ◌≢◌, refl, sym, ap, ◌∙◌, inl, inr, Bool, true, false, not, some, List, [], ◌∷◌, map, keep,
  Text, Result, ok, err, arith, Option-cases, Result-cases, Bool-cases, All,
}
use astrea.Schema.{Wallet, Db}
use astrea.Auth.Session.{get_session_wallet}
use astrea.CoreGo.Client.{Platform}
use astrea.CoreGo.Organizer.{World}
use astrea.CoreGo.Winners.{
  ReleaseAssignment, is_active_judge, winning_members, wallets_of, collect, check_wallets,
  winners_without_trustline,
}
use astrea.CoreGo.Judge.{missing_trustline, build, build_release}
use astrea.Trustline.{Balance, HorizonError, Asset, has_usdc_trustline, verify_and_record_trustline}
use astrea.Trustline.Laws.{CanReceive, verify_and_record_trustline_lem}

collect_nil :
    (address : Text) (r : Result Text Bool) (rs : Result Text (List Text))
    → collect address r rs ≡ ok []
    → (r ≡ ok true) × (rs ≡ ok [])
collect_nil address (ok true) (ok rest) h = (refl, h)
collect_nil address (ok true) (err e) h = absurd (ground arith)
collect_nil address (ok false) (ok rest) h = absurd (ground arith)
collect_nil address (ok false) (err e) h = absurd (ground arith)
collect_nil address (err e) rs h = absurd (ground arith)

module _ (asset : Asset) (horizon : Text → Result HorizonError (List Balance)) (now : ℕ) where
  -- The address has an account that can receive USDC.
  abbrev pub Ready : Wallet → Type 0
  Ready v =
      (balances : List Balance) × (horizon v.address ≡ ok balances) × CanReceive asset balances

  check_wallets-Ready :
      (ws : List Wallet) (db : Db)
      → (check_wallets asset horizon now ws db).0 ≡ ok []
      → All Ready ws
  unfolding check_wallets
  check_wallets-Ready [] db h = tt
  check_wallets-Ready (v ∷ vs) db h =
      let db' : Db = (verify_and_record_trustline asset horizon now v.id v.address db).1 in
      let (r_true, rs_nil) =
        collect_nil v.address (verify_and_record_trustline asset horizon now v.id v.address db).0
          (check_wallets asset horizon now vs db').0 h in
      elim (verify_and_record_trustline_lem asset horizon now v.id v.address db) [
        | inl (_, _, balances, answered, receives) ↦
            ((balances, answered, receives), check_wallets-Ready vs db' rs_nil)
        | inr (bad, _) ↦ absurd (bad r_true)
      ]

  -- Whether Horizon's answer lets the address receive USDC.
  abbrev pub can_be_paid : Wallet → Bool
  can_be_paid v = elim (has_usdc_trustline asset (horizon v.address)) [ ok b ↦ b | err e ↦ false ]

  verify_result :
      (v : Wallet) (db : Db)
      → (verify_and_record_trustline asset horizon now v.id v.address db).0
        ≡ has_usdc_trustline asset (horizon v.address)
  unfolding verify_and_record_trustline
  verify_result v db = elim (Result-cases (has_usdc_trustline asset (horizon v.address))) [
    | inr (e, thrown) ↦ ground arith
    | inl (b, answered) ↦ ground arith
  ]

  collected :
      (v : Wallet) (vs : List Wallet) (rs : Result Text (List Text)) (missing : List Text)
      → collect v.address (has_usdc_trustline asset (horizon v.address)) rs ≡ ok missing
      → ((rest : List Text)
          → rs ≡ ok rest
          → rest ≡ map (λ u. u.address) (keep (λ u. not (can_be_paid u)) vs))
      → missing ≡ map (λ u. u.address) (keep (λ u. not (can_be_paid u)) (v ∷ vs))
  collected v vs (err e) missing h ih =
      elim (Result-cases (has_usdc_trustline asset (horizon v.address))) [
        | inr (e, thrown) ↦ absurd (ground arith)
        | inl (true, answered) ↦ absurd (ground arith)
        | inl (false, answered) ↦ absurd (ground arith)
      ]
  collected v vs (ok rest) missing h ih =
      elim (Result-cases (has_usdc_trustline asset (horizon v.address))) [
        | inr (e, thrown) ↦ absurd (ground arith)
        | inl (true, answered) ↦ ground (arith, ih rest refl)
        | inl (false, answered) ↦ ground (arith, ih rest refl)
      ]

  pub check_wallets-eq :
      (ws : List Wallet) (db : Db) (missing : List Text)
      → (check_wallets asset horizon now ws db).0 ≡ ok missing
      → missing ≡ map (λ v. v.address) (keep (λ v. not (can_be_paid v)) ws)
  unfolding check_wallets
  check_wallets-eq [] db missing h = ground arith
  check_wallets-eq (v ∷ vs) db missing h =
      let db' : Db = (verify_and_record_trustline asset horizon now v.id v.address db).1 in
      let rs = (check_wallets asset horizon now vs db').0 in
      collected v vs rs missing (ap (λ r. collect v.address r rs) (sym (verify_result v db)) ∙ h)
        (λ rest r. check_wallets-eq vs db' rest r)

  -- If the event's only active judge asks for a release while the event is in judging, and a request goes
  -- out to services/core-go, then the account of every member of an assigned team can receive USDC.
  pub build_release-Ready :
      (p : Platform) (event_id : Text) (assignments : List ReleaseAssignment) (w : World)
      (s : Wallet)
      → get_session_wallet w.req ≡ some s
      → is_active_judge w.req.db event_id s.address ≡ true
      → (build_release p asset horizon now event_id assignments w).1.sent ≢ w.sent
      → All Ready
          (wallets_of (winning_members event_id assignments w.req.db.team_members) w.req.db.wallets)
  unfolding build_release winners_without_trustline
  build_release-Ready p event_id assignments w s session judge went =
      let ws =
        wallets_of (winning_members event_id assignments w.req.db.team_members) w.req.db.wallets in
      elim (Result-cases (check_wallets asset horizon now ws w.req.db).0) [
        | inl ([], clear) ↦ check_wallets-Ready ws w.req.db clear
        | inl (a ∷ missing, some_missing) ↦ absurd (went (ground arith))
        | inr (e, thrown) ↦ absurd (went (ground arith))
      ]

  -- If the form's judge is refused for missing trustlines, nothing is sent, and the addresses listed are
  -- those of exactly the assigned teams' members that cannot be paid, in the order of team and ordinal.
  pub build_release_missing :
      (p : Platform) (event_id : Text) (assignments : List ReleaseAssignment) (w : World)
      (name : Text) (missing : List Text)
      → (build_release p asset horizon now event_id assignments w).0
        ≡ err (missing_trustline name missing)
      → (missing
          ≡ map
              (λ v. v.address)
              (keep
                (λ v. not (can_be_paid v))
                (wallets_of
                  (winning_members event_id assignments w.req.db.team_members)
                  w.req.db.wallets)))
        × ((build_release p asset horizon now event_id assignments w).1.sent ≡ w.sent)
  unfolding build_release winners_without_trustline
  build_release_missing p event_id assignments w name missing h =
      let ws =
        wallets_of (winning_members event_id assignments w.req.db.team_members) w.req.db.wallets in
      elim (Option-cases (get_session_wallet w.req)) [
        | inl stranger ↦ absurd (ground arith)
        | inr (s, session) ↦ elim (Bool-cases (is_active_judge w.req.db event_id s.address)) [
          | inr other ↦ elim (Result-cases (build p event_id assignments s w.sent).0) [
            | inl (a, e) ↦ absurd (ground arith)
            | inr (a, e) ↦ absurd (ground arith)
          ]
          | inl judge ↦ elim (Result-cases (check_wallets asset horizon now ws w.req.db).0) [
            | inr (e, thrown) ↦ absurd (ground arith)
            | inl ([], clear) ↦ elim (Result-cases (build p event_id assignments s w.sent).0) [
              | inl (a, e) ↦ absurd (ground arith)
              | inr (a, e) ↦ absurd (ground arith)
            ]
            | inl (a ∷ rest, found) ↦
                (ground (arith, check_wallets-eq ws w.req.db (a ∷ rest) found), ground arith)
          ]
        ]
      ]
