-- ===== src/Github/Links.antt =====
-- Linked accounts stay one to one, and are written only for a state that came back to its wallet.
use astrea.Prelude.{
  ℕ, ◌≤◌, ◌≡◌, ◌⊎◌, refl, inl, inr, Bool, Option, none, some, List, [], ◌∷◌, Text, ◌===◌, Result,
  ok, arith, Option-cases, Result-cases, Bool-cases,
}
use mathlib.Core.Path.{subst}
use astrea.Schema.{Wallet, LinkedAccount}
use astrea.Schema.Table.{count_where, delete_where}
use astrea.Auth.Session.{get_session_wallet}
use astrea.Github.State.{Codec, verify_oauth_state}
use astrea.Github.States.{Signed, verify_oauth_state_lem}
use astrea.Github.Callback.{
  GitHubUserProfile, Query, Visit, of_wallet, of_account, link_account, matching_state, truthy,
  callback, set_links,
}

module _ {R : Type 0} where
  count_deleted : (p : R → Bool) (rs : List R) → count_where p (delete_where p rs) ≡ 0
  count_deleted p [] = refl
  count_deleted p (r ∷ rs) = ground (arith, count_deleted p rs)

  count_fewer :
      (p q : R → Bool) (rs : List R) → count_where p (delete_where q rs) ≤ count_where p rs
  count_fewer p q [] = omega arith
  count_fewer p q (r ∷ rs) = ground (arith, count_fewer p q rs)

-- Each wallet has one GitHub account at most, and each GitHub account one wallet.
pub record OneToOne (rows : List LinkedAccount) : Type 0 where
  pub per_wallet : (wallet_id : Text) → count_where (of_wallet wallet_id) rows ≤ 1
  pub per_account : (provider_id : Text) → count_where (of_account provider_id) rows ≤ 1

per_wallet_lem :
    (w : Text) (user : GitHubUserProfile) (rows : List LinkedAccount) (v : Text)
    → count_where (of_wallet v) rows ≤ 1
    → count_where (of_wallet v) (link_account w user rows) ≤ 1
unfolding link_account
per_wallet_lem w user rows v h =
    let mid = delete_where (of_wallet w) rows in
    let fewer = count_fewer (of_wallet v) (of_account user.id) mid in
    let fewer' = count_fewer (of_wallet v) (of_wallet w) rows in
    elim (Bool-cases (w === v)) [
      | inr other ↦ ground arith
      | inl same ↦
          let equal : w ≡ v = ground arith in
          let gone : count_where (of_wallet v) mid ≡ 0 =
            subst (λ x. count_where (of_wallet x) mid ≡ 0) equal
              (count_deleted (of_wallet w) rows) in
          ground arith
    ]

per_account_lem :
    (w : Text) (user : GitHubUserProfile) (rows : List LinkedAccount) (v : Text)
    → count_where (of_account v) rows ≤ 1
    → count_where (of_account v) (link_account w user rows) ≤ 1
unfolding link_account
per_account_lem w user rows v h =
    let mid = delete_where (of_wallet w) rows in
    let fewer = count_fewer (of_account v) (of_account user.id) mid in
    let fewer' = count_fewer (of_account v) (of_wallet w) rows in
    elim (Bool-cases (user.id === v)) [
      | inr other ↦ ground arith
      | inl same ↦
          let equal : user.id ≡ v = ground arith in
          let gone : count_where (of_account v) (delete_where (of_account user.id) mid) ≡ 0 =
            subst (λ x. count_where (of_account x) (delete_where (of_account user.id) mid) ≡ 0)
              equal (count_deleted (of_account user.id) mid) in
          ground arith
    ]

-- Linking keeps it that a wallet has one GitHub account at most and a GitHub account one wallet.
pub link_account-OneToOne :
    (wallet_id : Text) (user : GitHubUserProfile) (rows : List LinkedAccount)
    → OneToOne rows
    → OneToOne (link_account wallet_id user rows)
link_account-OneToOne wallet_id user rows h = record {
  per_wallet = λ v. per_wallet_lem wallet_id user rows v (h.per_wallet v);
  per_account = λ v. per_account_lem wallet_id user rows v (h.per_account v);
}

module _ (codec : Codec) (now : ℕ) (exchange : Text → Result Text GitHubUserProfile)
    (refused : Option Text) (q : Query) (visit : Visit) where
  -- The state of the query is the cookie's, and was signed for the session's wallet in the last ten
  -- minutes.
  pub record Linked (visit' : Visit) : Type 0 where
    pub wallet : Wallet
    pub session : get_session_wallet visit.req ≡ some wallet
    pub state : Text
    pub same_state : matching_state q visit.oauth_cookie ≡ some state
    pub signed : Signed codec now wallet.id state
    pub code : Text
    pub from_query : truthy q.code ≡ some code
    pub user : GitHubUserProfile
    pub exchanged : exchange code ≡ ok user
    pub written :
        visit'.req ≡ set_links (link_account wallet.id user visit.req.db.linked_accounts) visit.req

  -- A call back either leaves the tables and the session as they were, or it links the account that
  -- GitHub gave for its code to the session's wallet; then the query's state is the cookie's, and it is a
  -- text with the server's digest of it, whose payload names that wallet and is ten minutes old at most.
  pub callback_lem :
      let (r, visit') = callback codec now exchange refused q visit in
      (visit'.req ≡ visit.req) ⊎ Linked visit'
  unfolding callback
  callback_lem = elim (Option-cases (get_session_wallet visit.req)) [
    | inl missing ↦ inl (ground arith)
    | inr (s, session) ↦ elim (Option-cases (truthy q.error)) [
      | inr (e, failed) ↦ inl (ground arith)
      | inl fine ↦ elim (Option-cases (truthy q.code)) [
        | inl missing ↦ inl (ground arith)
        | inr (code, has_code) ↦ elim (Option-cases (matching_state q visit.oauth_cookie)) [
          | inl missing ↦ inl (ground arith)
          | inr (state, has_state) ↦ elim (Result-cases (verify_oauth_state codec now state s.id)) [
            | inr (e, thrown) ↦ inl (ground arith)
            | inl (none, bad) ↦ inl (ground arith)
            | inl (some v, good) ↦ elim (Result-cases (exchange code)) [
              | inr (e, failed) ↦ inl (ground arith)
              | inl (user, exchanged) ↦ elim (Option-cases refused) [
                | inr (m, no_write) ↦ inl (ground arith)
                | inl writes ↦
                    let (mine, signed) = verify_oauth_state_lem codec now state s.id v good in
                    inr (record {
                      wallet = s;
                      session = session;
                      state = state;
                      same_state = has_state;
                      signed = signed;
                      code = code;
                      from_query = has_code;
                      user = user;
                      exchanged = exchanged;
                      written = ground arith;
                    })
              ]
            ]
          ]
        ]
      ]
    ]
  ]
