-- ===== src/Pages/Unlinked.antt =====
-- What the accounts that the callback of GitHub linked are to the cards.
use mathlib.Core.Path.{subst, ap₂}
use astrea.Prelude.{
  ℕ, ◌≡◌, refl, sym, ap, inl, inr, false, Option, List, [], ◌∷◌, Text, Text-discrete, codes, ◌===◌,
  Result, ok, err, arith, All, Option-cases, find, keep, map, if◌then◌else◌,
}
use astrea.Schema.{Event, LinkedAccount, TeamMember, Team, Db}
use astrea.Auth.Session.{has_id}
use astrea.Earnings.{sort}
use astrea.Pages.Gates.{team_of}
use astrea.CoreGo.Organizer.{has_event_id}
use astrea.Github.Callback.{git_hub, of_wallet, of_account, link_account}
use astrea.Github.Callback.{GitHubUserProfile}
use astrea.Schema.Table.{All-delete_where, delete_where}
use astrea.Network.{Env, EnvError}
use astrea.Network.Reading.{Simulation, Simulated}
use astrea.Views.Card.{build_event_card_model}
use astrea.Pages.Cards.{
  is_shown_account, ordinal_before, member_of, address_of, member_wallet, card_input, card_team,
  open_graph_image, shared, not_found, picture, is_displayed, canonical_url, escrow_of, card_model,
  if_verifiable, displayed, display_route,
}

-- What the callback of GitHub stores as the provider.
abbrev pub LinkedByApp : LinkedAccount → Type 0
LinkedByApp a = a.provider ≡ git_hub

-- The callback's transaction keeps it so.
pub link_account-LinkedByApp :
    (wallet_id : Text) (user : GitHubUserProfile) (rows : List LinkedAccount)
    → All LinkedByApp rows
    → All LinkedByApp (link_account wallet_id user rows)
unfolding link_account
link_account-LinkedByApp wallet_id user rows h = (
  refl,
  All-delete_where LinkedByApp (of_account user.id) (delete_where (of_wallet wallet_id) rows)
      (All-delete_where LinkedByApp (of_wallet wallet_id) rows h),
)

is_shown_account-git_hub :
    (wallet_id : Text) (a : LinkedAccount) → LinkedByApp a → is_shown_account wallet_id a ≡ false
unfolding Text-discrete
is_shown_account-git_hub wallet_id a h =
    let differs : (a.provider === codes "github") ≡ false =
      subst (λ p. (p === codes "github") ≡ false) (sym h) refl in
    ground arith

none_shown :
    (wallet_id : Text) (as' : List LinkedAccount)
    → All LinkedByApp as'
    → keep (is_shown_account wallet_id) as' ≡ []
none_shown wallet_id [] h = refl
none_shown wallet_id (a ∷ as') h =
    let rest = none_shown wallet_id as' h.1 in
    rw (keep, is_shown_account-git_hub wallet_id a h.0) rest

-- The same rows with no account linked.
abbrev pub unlinked : Db → Db
unlinked db = record db { linked_accounts = [] }

member_wallet-unlinked :
    (db : Db) (m : TeamMember)
    → All LinkedByApp db.linked_accounts
    → member_wallet db m ≡ member_wallet (unlinked db) m
member_wallet-unlinked db m h =
    ap
      (λ as'. record {
        address = address_of (find (has_id m.wallet_id) db.wallets);
        linked_accounts = map (λ a. record { provider = a.provider; username = a.username }) as';
      })
      (none_shown m.wallet_id db.linked_accounts h)

map_members :
    (db : Db) (ms : List TeamMember)
    → All LinkedByApp db.linked_accounts
    → map (member_wallet db) ms ≡ map (member_wallet (unlinked db)) ms
map_members db [] h = refl
map_members db (m ∷ ms) h =
    ap₂ (λ w ws. w ∷ ws) (member_wallet-unlinked db m h) (map_members db ms h)

map_teams :
    (db : Db) (ts : List Team)
    → All LinkedByApp db.linked_accounts
    → map (card_team db) ts ≡ map (card_team (unlinked db)) ts
map_teams db [] h = refl
map_teams db (t ∷ ts) h =
    let members = map_members db (sort ordinal_before (keep (member_of t.id) db.team_members)) h in
    ap₂ (λ ms us. record { id = t.id; name = t.name; members = ms } ∷ us) members
      (map_teams db ts h)

module _ (to_lower_case : Text → Text) (format_card_date : Text → ℕ → Text)
    (to_number : Text → Text) (simulate : Simulated → Result Text Simulation)
    (closes_at : Text → Option ℕ) where
  card_model-unlinked :
      (env : Result EnvError Env) (db : Db) (event : Event) (locale symbol : Text) (now : ℕ)
      → All LinkedByApp db.linked_accounts
      → card_model to_lower_case format_card_date to_number simulate closes_at env db event locale
          symbol now
        ≡ card_model to_lower_case format_card_date to_number simulate closes_at env
            (unlinked db)
            event
            locale
            symbol
            now
  card_model-unlinked env db event locale symbol now h =
      let input =
        card_input to_lower_case format_card_date to_number simulate closes_at db event
          (escrow_of to_lower_case format_card_date to_number simulate closes_at env
            event.escrow_event_id)
          locale symbol now in
      ap (λ ts. build_event_card_model to_lower_case format_card_date (record input { teams = ts }))
        (map_teams db (keep (team_of event.id) db.teams) h)

  shared-unlinked :
      (env : Result EnvError Env) (db : Db) (event : Event) (locale : Text) (now : ℕ)
      → All LinkedByApp db.linked_accounts
      → shared to_lower_case format_card_date to_number simulate closes_at env db event locale now
        ≡ shared to_lower_case format_card_date to_number simulate closes_at env
            (unlinked db)
            event
            locale
            now
  shared-unlinked (err x) db event locale now h = refl
  shared-unlinked (ok v) db event locale now h =
      ap (λ m. picture m [])
        (card_model-unlinked (ok v) db event locale v.data_of.usdc_symbol now h)

  pub displayed-unlinked :
      (env : Result EnvError Env) (link : Text) (db : Db) (event : Event) (locale : Text) (now : ℕ)
      → All LinkedByApp db.linked_accounts
      → displayed to_lower_case format_card_date to_number simulate closes_at env link db event
          locale now
        ≡ displayed to_lower_case format_card_date to_number simulate closes_at env link
            (unlinked db)
            event
            locale
            now
  displayed-unlinked (err x) link db event locale now h = refl
  displayed-unlinked (ok v) link db event locale now h =
      ap (λ m. if_verifiable m.has_verifiable_money (picture m link))
        (card_model-unlinked (ok v) db event locale v.data_of.usdc_symbol now h)

  pub open_graph_image-unlinked :
      (env : Result EnvError Env) (db : Db) (id locale : Text) (now : ℕ)
      → All LinkedByApp db.linked_accounts
      → open_graph_image to_lower_case format_card_date to_number simulate closes_at env db id
          locale now
        ≡ open_graph_image to_lower_case format_card_date to_number simulate closes_at env
            (unlinked db)
            id
            locale
            now
  unfolding open_graph_image
  open_graph_image-unlinked env db id locale now h =
      elim (Option-cases (find (has_event_id id) db.events)) [
        | inl e ↦ rw (open_graph_image, e) refl
        | inr (event, e) ↦ rw (open_graph_image, e) (shared-unlinked env db event locale now h)
      ]

  pub display_route-unlinked :
      (env : Result EnvError Env) (site : Text) (db : Db) (id locale : Text) (now : ℕ)
      → All LinkedByApp db.linked_accounts
      → display_route to_lower_case format_card_date to_number simulate closes_at env site db id
          locale now
        ≡ display_route to_lower_case format_card_date to_number simulate closes_at env site
            (unlinked db)
            id
            locale
            now
  unfolding display_route
  display_route-unlinked env site db id locale now h =
      elim (Option-cases (find (has_event_id id) db.events)) [
        | inl e ↦ rw (display_route, e) refl
        | inr (event, e) ↦
            rw (display_route, e)
              (ap (λ r. if is_displayed event.status then r else not_found false)
                (displayed-unlinked env (canonical_url site locale id) db event locale now h))
      ]
