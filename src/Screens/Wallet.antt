-- ===== src/Screens/Wallet.antt =====
-- The wallet of the visitor on every screen, apps/web/src/lib/wallet/provider.tsx.
use astrea.Prelude.{
  contains, ℕ, Bool, true, false, ◌||◌, Option, none, some, List, [], ◌∷◌, Text, codes, ◌===◌,
  Result, ok, err, if◌then◌else◌,
}
use astrea.Screens.Sign.{nth, set_at, remove_at}

abbrev pub unsupported_albedo_message : Text
unsupported_albedo_message =
    codes
      "Albedo does not support SEP-0043 message signing required for verified authentication. Please connect using Freighter, xBull, or Lobstr."

-- What was thrown: an `Error`, another object with what String makes of its message, or anything else.
pub data KitThrown : Type 0 where
  error : Text → KitThrown
  carrying : Text → KitThrown
  other : KitThrown

-- A call of `connect` or of `disconnect` that has not come back, by the `await` where it stands.
pub data WalletFlight : Type 0 where
  choosing : WalletFlight
  leaving_albedo : WalletFlight
  asking_nonce : Text → WalletFlight
  -- The address with the nonce and the message.
  signing : Text → Text → Text → WalletFlight
  associating : Text → WalletFlight
  -- The kit is left, then the session is cleared, after a failure.
  leaving : KitThrown → WalletFlight
  clearing : KitThrown → WalletFlight
  -- `disconnect`.
  disconnecting : WalletFlight
  forgetting : WalletFlight

-- What was asked of the server and of the wallet.
pub data WalletCall : Type 0 where
  get_nonce : Text → WalletCall
  sign_message : Text → Text → WalletCall
  -- The address, the signature and the nonce.
  associate : Text → Text → Text → WalletCall
  kit_disconnect : WalletCall
  clear_session : WalletCall

pub record WalletProvider : Type 0 where
  pub address : Option Text
  pub is_connecting : Bool
  pub auth_error : Option Text
  pub rehydrating : Bool
  pub flights : List WalletFlight
  pub asked : List WalletCall

abbrev pub wallet_provider : WalletProvider
wallet_provider = record {
  address = none;
  is_connecting = false;
  auth_error = none;
  rehydrating = true;
  flights = [];
  asked = [];
}

-- Answers name the call that they are for, the latest first.
pub data WalletEvent : Type 0 where
  -- The session's address, if there is one; a failure is swallowed.
  rehydrated : Option Text → WalletEvent
  -- The kit tells of a change, with its address.
  state_updated : Option Text → WalletEvent
  connect : WalletEvent
  disconnect : WalletEvent
  -- The address, and the product that `selectedModule` names then.
  chosen : ℕ → Result KitThrown (Text × Option Text) → WalletEvent
  nonce_answers : ℕ → Result KitThrown (Text × Text) → WalletEvent
  signed : ℕ → Result KitThrown Text → WalletEvent
  associated : ℕ → Result KitThrown (Unit {0}) → WalletEvent
  -- `disconnect` of the kit, or `clearWalletSession`: whether it failed makes no difference.
  left : ℕ → WalletEvent

abbrev pub error_text : KitThrown → Text
error_text (error message) = message
error_text (carrying message) = message
error_text other = codes "Session verification failed"

unfoldable pub auth_error_of : Text → Text
auth_error_of message =
    if contains message (codes "Albedo does not support the \"signMessage\"")
      || contains message (codes "signMessage")
    then unsupported_albedo_message
    else message

abbrev pub is_albedo : Option Text → Bool
is_albedo none = false
is_albedo (some product) = product === codes "albedo"

abbrev pub move : ℕ → WalletFlight → WalletProvider → WalletProvider
move i f s = record s { flights = set_at i f s.flights }

-- The end of `connect`, with its `finally`.
abbrev pub finish : ℕ → WalletProvider → WalletProvider
finish i s = record s { is_connecting = false; flights = remove_at i s.flights }

abbrev pub fail : ℕ → KitThrown → WalletProvider → WalletProvider
fail i e s = record s { flights = set_at i (leaving e) s.flights; asked = kit_disconnect ∷ s.asked }

-- `if (wallet?.address)`
abbrev pub rehydrate : Option Text → WalletProvider → WalletProvider
rehydrate none s = record s { rehydrating = false }
rehydrate (some []) s = record s { rehydrating = false }
rehydrate (some (c ∷ a)) s = record s { rehydrating = false; address = some (c ∷ a) }

abbrev pub update_state : Option Text → WalletProvider → WalletProvider
update_state none s = record s { address = none }
update_state (some []) s = record s { address = none }
update_state (some (c ∷ a)) s = s

abbrev pub on_chosen : ℕ → Result KitThrown (Text × Option Text) → WalletProvider → WalletProvider
on_chosen i (err e) s = finish i s
on_chosen i (ok (a, product)) s =
    if is_albedo product
    then record s { flights = set_at i leaving_albedo s.flights; asked = kit_disconnect ∷ s.asked }
    else record s { flights = set_at i (asking_nonce a) s.flights; asked = get_nonce a ∷ s.asked }

abbrev pub on_nonce : ℕ → Text → Result KitThrown (Text × Text) → WalletProvider → WalletProvider
on_nonce i a (err e) s = fail i e s
on_nonce i a (ok (nonce, message)) s = record s {
  flights = set_at i (signing a nonce message) s.flights;
  asked = sign_message a message ∷ s.asked;
}

abbrev pub on_signed : ℕ → Text → Text → Result KitThrown Text → WalletProvider → WalletProvider
on_signed i a nonce (err e) s = fail i e s
on_signed i a nonce (ok signature) s = record s {
  flights = set_at i (associating a) s.flights;
  asked = associate a signature nonce ∷ s.asked;
}

abbrev pub on_associated : ℕ → Text → Result KitThrown (Unit {0}) → WalletProvider → WalletProvider
on_associated i a (err e) s = fail i e s
on_associated i a (ok u) s = finish i (record s { address = some a })

abbrev pub on_left : ℕ → WalletFlight → WalletProvider → WalletProvider
on_left i leaving_albedo s =
    finish i (record s { address = none; auth_error = some unsupported_albedo_message })
on_left i (leaving e) s = record s {
  flights = set_at i (clearing e) s.flights;
  asked = clear_session ∷ s.asked;
}
on_left i (clearing e) s =
    finish i (record s { address = none; auth_error = some (auth_error_of (error_text e)) })
on_left i disconnecting s = record s {
  address = none;
  auth_error = none;
  flights = set_at i forgetting s.flights;
  asked = clear_session ∷ s.asked;
}
on_left i forgetting s = record s { flights = remove_at i s.flights }
on_left i _ s = s

-- An answer is taken by a call that waits for it.
abbrev pub nonce_for :
    ℕ → Option WalletFlight → Result KitThrown (Text × Text) → WalletProvider → WalletProvider
nonce_for i (some (asking_nonce a)) r s = on_nonce i a r s
nonce_for i _ r s = s

abbrev pub chosen_for :
    ℕ
    → Option WalletFlight
    → Result KitThrown (Text × Option Text)
    → WalletProvider
    → WalletProvider
chosen_for i (some choosing) r s = on_chosen i r s
chosen_for i _ r s = s

abbrev pub signed_for :
    ℕ → Option WalletFlight → Result KitThrown Text → WalletProvider → WalletProvider
signed_for i (some (signing a nonce message)) r s = on_signed i a nonce r s
signed_for i _ r s = s

abbrev pub associated_for :
    ℕ → Option WalletFlight → Result KitThrown (Unit {0}) → WalletProvider → WalletProvider
associated_for i (some (associating a)) r s = on_associated i a r s
associated_for i _ r s = s

abbrev pub left_for : ℕ → Option WalletFlight → WalletProvider → WalletProvider
left_for i none s = s
left_for i (some f) s = on_left i f s

unfoldable pub wallet_step : WalletEvent → WalletProvider → WalletProvider
wallet_step (rehydrated r) s = if s.rehydrating then rehydrate r s else s
wallet_step (state_updated a) s = update_state a s
wallet_step connect s = record s {
  is_connecting = true;
  auth_error = none;
  flights = choosing ∷ s.flights;
}
wallet_step disconnect s = record s {
  flights = disconnecting ∷ s.flights;
  asked = kit_disconnect ∷ s.asked;
}
wallet_step (chosen i r) s = chosen_for i (nth i s.flights) r s
wallet_step (nonce_answers i r) s = nonce_for i (nth i s.flights) r s
wallet_step (signed i r) s = signed_for i (nth i s.flights) r s
wallet_step (associated i r) s = associated_for i (nth i s.flights) r s
wallet_step (left i) s = left_for i (nth i s.flights) s

unfoldable pub run_wallet : List WalletEvent → WalletProvider → WalletProvider
run_wallet [] s = s
run_wallet (e ∷ es) s = run_wallet es (wallet_step e s)
