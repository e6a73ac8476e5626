-- ===== src/CoreGo/Refusals.antt =====
-- A refusal of services/core-go on its way to the organizer's screen.
use astrea.Prelude.{
  ℕ, ◌≡◌, inl, inr, none, some, ◌∷◌, Text, ◌===◌, codes, err, arith, if◌then◌else◌, Bool-cases,
}
use astrea.Schema.{Wallet}
use astrea.Auth.Session.{get_session_wallet}
use astrea.CoreGo.Client.{
  post, HttpRequest, Platform, text_field, event_path, core_go_error, create_submit, start_submit,
}
use astrea.CoreGo.Envelopes.{IsRefused, request_of, request_complete}
use astrea.CoreGo.Failure.{ActionFailure, failure, hash_of}
use astrea.CoreGo.Organizer.{World, replaced, submit_create, submit_start}

module _ (p : Platform) (event_id xdr : Text) where
  -- The POST of a signed envelope, for one of the two submissions.
  abbrev pub submission : Text → Text → Text × Text → HttpRequest
  submission wallet rest settings =
      request_of settings post (event_path p event_id rest) wallet
        (text_field (codes "signedTransactionXdr") xdr)

  -- What the screen is told: Go's words, and what confirmed if Go replaced its build.
  abbrev pub told : Text → ℕ → Text → Text → ActionFailure
  told replaced_code status code message = record {
    status = status;
    code = code;
    message = message;
    tx_hash = if code === replaced_code then hash_of p xdr else none;
  }

  told_lem :
      (c : Text) (status : ℕ) (code message : Text)
      → replaced p c xdr (core_go_error status code message) ≡ told c status code message
  unfolding replaced failure
  told_lem c status code message = elim (Bool-cases (code === c)) [
    | inl same ↦ ground arith
    | inr other ↦ ground arith
  ]

  -- When Go refuses a signed creation, the organizer's screen gets the status of its answer and the envelope's
  -- code and message, with the transaction's hash exactly if the code says that Go's build was replaced;
  -- no page is revalidated and the tables stay as they are.
  pub submit_create_refused :
      (w : World) (s : Wallet) (status : ℕ) (code message : Text)
      → get_session_wallet w.req ≡ some s
      → (r : IsRefused p (submission s.address (codes "/create/submit")) status code message)
      → submit_create p event_id xdr w ≡ (
        err (told (codes "create_build_replaced") status code message),
        record w { sent = submission s.address (codes "/create/submit") r.settings ∷ w.sent },
      )
  unfolding submit_create create_submit
  submit_create_refused w s status code message session r =
      let refusal =
        request_complete p post (event_path p event_id (codes "/create/submit")) s.address
          (text_field (codes "signedTransactionXdr") xdr) w.sent status code message r in
      let screen = told_lem (codes "create_build_replaced") status code message in ground arith

  -- When Go refuses a signed start, the organizer's screen gets the status of its answer and the envelope's
  -- code and message, with the transaction's hash exactly if the code says that Go's build was replaced;
  -- no page is revalidated and the tables stay as they are.
  pub submit_start_refused :
      (w : World) (s : Wallet) (status : ℕ) (code message : Text)
      → get_session_wallet w.req ≡ some s
      → (r : IsRefused p (submission s.address (codes "/start/submit")) status code message)
      → submit_start p event_id xdr w ≡ (
        err (told (codes "start_build_replaced") status code message),
        record w { sent = submission s.address (codes "/start/submit") r.settings ∷ w.sent },
      )
  unfolding submit_start start_submit
  submit_start_refused w s status code message session r =
      let refusal =
        request_complete p post (event_path p event_id (codes "/start/submit")) s.address
          (text_field (codes "signedTransactionXdr") xdr) w.sent status code message r in
      let screen = told_lem (codes "start_build_replaced") status code message in ground arith
