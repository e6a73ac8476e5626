-- ===== src/CoreGo/Steps.antt =====
-- Steps of an action that send at most one request, for one wallet.
use astrea.Prelude.{
  ◌≡◌, ◌⊎◌, refl, inl, inr, Option, none, some, List, ◌∷◌, Text, Action, ok, arith, Option-cases,
  Result-cases, ◌>>=◌, ◌>>◌,
}
use astrea.Prelude.Json.{Json}
use astrea.Schema.{Wallet}
use astrea.Auth.Session.{get_session_wallet}
use astrea.CoreGo.Client.{Method, HttpRequest, Platform, CoreGoThrown, config, body_of, request}
use astrea.CoreGo.Failure.{ActionFailure}
use astrea.CoreGo.Organizer.{World, OrganizerAction, call_with, refuse, session_wallet}

-- At most one request more, in the wallet's name, under the configured address and token.
abbrev pub Sent : Platform → Text → List HttpRequest → List HttpRequest → Type 0
Sent p wallet sent sent' =
    (sent' ≡ sent)
    ⊎ ((r : HttpRequest) × (config p ≡ ok (r.url, r.token))
        × (r.wallet ≡ wallet)
        × (sent' ≡ r ∷ sent))

pub request-Sent :
    (p : Platform) (method : Method) (path wallet : Text) (body : Json) (sent : List HttpRequest)
    → Sent p wallet sent (request p method path wallet body sent).1
unfolding request
request-Sent p method path wallet body sent = elim (Result-cases (config p)) [
  | inr (e, bad) ↦ inl (ground arith)
  | inl ((url, token), configured) ↦
      let req : HttpRequest = record {
        method = method;
        url = url;
        path = path;
        token = token;
        wallet = wallet;
        body = body_of method body;
      } in
      elim (Result-cases (p.fetch req)) [
        | inl (res, answered) ↦ inr (req, configured, refl, ground arith)
        | inr (m, failed) ↦ inr (req, configured, refl, ground arith)
      ]
]

-- What an action may do to the world: nothing, or one request for the session's wallet.
abbrev pub IsOwn : Platform → World → World → Type 0
IsOwn p w w' =
    (w'.req ≡ w.req)
    × ((w'.sent ≡ w.sent)
        ⊎ ((s : Wallet) × (get_session_wallet w.req ≡ some s) × Sent p s.address w.sent w'.sent))

module _ (p : Platform) where
  abbrev pub OwnFor : Text → World → World → Type 0
  OwnFor address w w' = (w'.req ≡ w.req) × Sent p address w.sent w'.sent

  -- Steps that send nothing.
  abbrev pub Keeps : {A : Type 0} → OrganizerAction A → Type 0
  Keeps f = (u : World) → ((f u).1.req ≡ u.req) × ((f u).1.sent ≡ u.sent)

  pub request_then :
      {A B : Type 0} (m : Action (List HttpRequest) CoreGoThrown A)
      (f : A → Action (List HttpRequest) CoreGoThrown B) (address : Text) (sent : List HttpRequest)
      → Sent p address sent (m sent).1
      → ((a : A) (u : List HttpRequest) → (f a u).1 ≡ u)
      → Sent p address sent ((m >>= f) sent).1
  request_then m f address sent h keeps = elim (Result-cases (m sent).0) [
    | inl (a, e) ↦ ground (arith, keeps a (m sent).1)
    | inr (e, bad) ↦ ground arith
  ]

  action_then :
      {A B : Type 0} (m : OrganizerAction A) (f : A → OrganizerAction B) (address : Text)
      (w : World)
      → OwnFor address w (m w).1
      → ((a : A) → Keeps (f a))
      → OwnFor address w ((m >>= f) w).1
  action_then m f address w h keeps = elim (Result-cases (m w).0) [
    | inl (a, e) ↦ ground (arith, keeps a (m w).1)
    | inr (e, bad) ↦ ground arith
  ]

  call_with-OwnFor :
      {A : Type 0} (on_error : CoreGoThrown → ActionFailure)
      (m : Action (List HttpRequest) CoreGoThrown A) (address : Text) (w : World)
      → Sent p address w.sent (m w.sent).1
      → OwnFor address w (call_with on_error m w).1
  call_with-OwnFor on_error m address w h = elim (Result-cases (m w.sent).0) [
    | inl (a, e) ↦ ground arith
    | inr (e, bad) ↦ ground arith
  ]

  refuse-OwnFor :
      {A : Type 0} (o : Option ActionFailure) (m : OrganizerAction A) (address : Text) (w : World)
      → OwnFor address w (m w).1
      → OwnFor address w ((refuse o >> m) w).1
  refuse-OwnFor none m address w h = h
  refuse-OwnFor (some f) m address w h = (refl, inl refl)

  session-IsOwn :
      {A : Type 0} (f : Wallet → OrganizerAction A) (w : World)
      → ((s : Wallet) (u : World) → OwnFor s.address u (f s u).1)
      → IsOwn p w ((session_wallet >>= f) w).1
  session-IsOwn f w own = elim (Option-cases (get_session_wallet w.req)) [
    | inl missing ↦ ground arith
    | inr (s, session) ↦
        let kept = own s w in
        let (same, sent) = kept in (ground arith, inr (s, session, ground arith))
  ]

  -- The shape of every action: the session, a refusal, one call, and steps that send nothing.
  module _ {A : Type 0} (o : Wallet → Option ActionFailure)
      (on_error : CoreGoThrown → ActionFailure)
      (m : Wallet → Action (List HttpRequest) CoreGoThrown A)
      (own : (s : Wallet) (u : List HttpRequest) → Sent p s.address u (m s u).1) where
    pub last_call-IsOwn :
        (w : World)
        → IsOwn p w ((session_wallet >>= λ s. refuse (o s) >> call_with on_error (m s)) w).1
    last_call-IsOwn w =
        session-IsOwn (λ s. refuse (o s) >> call_with on_error (m s)) w
          λ s u.
            refuse-OwnFor (o s) (call_with on_error (m s)) s.address u
              (call_with-OwnFor on_error (m s) s.address u (own s u.sent))

    pub call_then-IsOwn :
        {B : Type 0} (f : Wallet → A → OrganizerAction B)
        → ((s : Wallet) (a : A) → Keeps (f s a))
        → (w : World)
        → IsOwn p w
            ((session_wallet >>= λ s. refuse (o s) >> (call_with on_error (m s) >>= f s)) w).1
    call_then-IsOwn f keeps w =
        session-IsOwn (λ s. refuse (o s) >> (call_with on_error (m s) >>= f s)) w
          λ s u. refuse-OwnFor (o s) (call_with on_error (m s) >>= f s) s.address u (
            action_then (call_with on_error (m s)) (f s) s.address u
              (call_with-OwnFor on_error (m s) s.address u (own s u.sent)) (keeps s))
