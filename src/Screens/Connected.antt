-- ===== src/Screens/Connected.antt =====
-- Whose address the screens show, and what is sent to have it verified.
use astrea.Prelude.{
  ℕ, Bool, true, false, Option, none, some, List, [], ◌∷◌, Text, Result, ok, err, All, inl, inr,
  Option-cases, Bool-cases, if◌then◌else◌,
}
use astrea.Screens.Sign.{nth, set_at}
use astrea.Screens.Signing.{All-nth, All-set_at, All-remove_at, Holds}
use astrea.Screens.Wallet.{
  KitThrown, WalletFlight, choosing, leaving_albedo, asking_nonce, signing, associating, leaving,
  clearing, disconnecting, forgetting, WalletCall, get_nonce, sign_message, associate,
  kit_disconnect, clear_session, WalletProvider, wallet_provider, WalletEvent, rehydrated,
  state_updated, connect, disconnect, chosen, nonce_answers, signed, associated, left, is_albedo,
  rehydrate, update_state, nonce_for, chosen_for, signed_for, associated_for, left_for, wallet_step,
  run_wallet,
}

-- What others vouch for: the server verified the address; the server issued the nonce and its message
-- for the address; the wallet signed the message for the address.
module _ (Verified : Text → Type 0) (Issued : Text → Text → Text → Type 0)
    (Signed : Text → Text → Text → Type 0) where
  abbrev pub Vouched : Text → Text → Text → Type 0
  Vouched a signature nonce = (message : Text) × Issued a nonce message × Signed a message signature

  abbrev pub CallVouched : WalletCall → Type 0
  CallVouched (associate a signature nonce) = Vouched a signature nonce
  CallVouched _ = Unit

  abbrev pub FlightVouched : WalletFlight → Type 0
  FlightVouched (signing a nonce message) = Issued a nonce message
  FlightVouched _ = Unit

  -- What an answer vouches for, by the call that takes it.
  abbrev pub NonceTold : Option WalletFlight → Result KitThrown (Text × Text) → Type 0
  NonceTold (some (asking_nonce a)) (ok (nonce, message)) = Issued a nonce message
  NonceTold _ _ = Unit

  abbrev pub SignatureTold : Option WalletFlight → Result KitThrown Text → Type 0
  SignatureTold (some (signing a nonce message)) (ok signature) = Signed a message signature
  SignatureTold _ _ = Unit

  abbrev pub VerifiedTold : Option WalletFlight → Result KitThrown (Unit {0}) → Type 0
  VerifiedTold (some (associating a)) (ok u) = Verified a
  VerifiedTold _ _ = Unit

  abbrev pub Told : WalletProvider → WalletEvent → Type 0
  Told s (rehydrated (some a)) = Verified a
  Told s (nonce_answers i r) = NonceTold (nth i s.flights) r
  Told s (signed i r) = SignatureTold (nth i s.flights) r
  Told s (associated i r) = VerifiedTold (nth i s.flights) r
  Told s _ = Unit

  abbrev pub AllTold : WalletProvider → List WalletEvent → Type 0
  AllTold s [] = Unit
  AllTold s (e ∷ es) = Told s e × AllTold (wallet_step e s) es

  -- The address shown was verified, and every signature sent was the wallet's over the server's
  -- message.
  pub record Trusted (s : WalletProvider) : Type 0 where
    pub showing : Holds Verified s.address
    pub flying : All FlightVouched s.flights
    pub asking : All CallVouched s.asked

  fail-Trusted :
      (i : ℕ) (f : WalletFlight) (a : Option Text) (c : WalletCall) (s : WalletProvider)
      → Holds Verified a
      → FlightVouched f
      → CallVouched c
      → Trusted s
      → Trusted (record s { address = a; flights = set_at i f s.flights; asked = c ∷ s.asked })
  fail-Trusted i f a c s shown vouched called t = record {
    showing = shown;
    flying = All-set_at FlightVouched i f s.flights vouched t.flying;
    asking = (called, t.asking);
  }

  nonce_for-Trusted :
      (i : ℕ) (f : Option WalletFlight) (r : Result KitThrown (Text × Text)) (s : WalletProvider)
      → NonceTold f r
      → Trusted s
      → Trusted (nonce_for i f r s)
  nonce_for-Trusted i (some (asking_nonce a)) (err e) s told t =
      fail-Trusted i (leaving e) s.address kit_disconnect s t.showing tt tt t
  nonce_for-Trusted i (some (asking_nonce a)) (ok (nonce, message)) s told t =
      fail-Trusted i (signing a nonce message) s.address (sign_message a message) s t.showing told
        tt t
  nonce_for-Trusted i f r s told t = t

  chosen_for-Trusted :
      (i : ℕ) (f : Option WalletFlight) (r : Result KitThrown (Text × Option Text))
      (s : WalletProvider)
      → Trusted s
      → Trusted (chosen_for i f r s)
  chosen_for-Trusted i (some choosing) (err e) s t = record {
    showing = t.showing;
    flying = All-remove_at FlightVouched i s.flights t.flying;
    asking = t.asking;
  }
  chosen_for-Trusted i (some choosing) (ok (a, product)) s t =
      elim (Bool-cases (is_albedo product)) [
        | inl albedo ↦
            rw albedo (fail-Trusted i leaving_albedo s.address kit_disconnect s t.showing tt tt t)
        | inr fine ↦
            rw fine (fail-Trusted i (asking_nonce a) s.address (get_nonce a) s t.showing tt tt t)
      ]
  chosen_for-Trusted i f r s t = t

  signed_for-Trusted :
      (i : ℕ) (f : Option WalletFlight) (r : Result KitThrown Text) (s : WalletProvider)
      → Holds FlightVouched f
      → SignatureTold f r
      → Trusted s
      → Trusted (signed_for i f r s)
  signed_for-Trusted i (some (signing a nonce message)) (err e) s issued told t =
      fail-Trusted i (leaving e) s.address kit_disconnect s t.showing tt tt t
  signed_for-Trusted i (some (signing a nonce message)) (ok signature) s issued told t =
      fail-Trusted i (associating a) s.address (associate a signature nonce) s t.showing tt
        (message, issued, told) t
  signed_for-Trusted i f r s issued told t = t

  associated_for-Trusted :
      (i : ℕ) (f : Option WalletFlight) (r : Result KitThrown (Unit {0})) (s : WalletProvider)
      → VerifiedTold f r
      → Trusted s
      → Trusted (associated_for i f r s)
  associated_for-Trusted i (some (associating a)) (err e) s told t =
      fail-Trusted i (leaving e) s.address kit_disconnect s t.showing tt tt t
  associated_for-Trusted i (some (associating a)) (ok u) s told t = record {
    showing = told;
    flying = All-remove_at FlightVouched i s.flights t.flying;
    asking = t.asking;
  }
  associated_for-Trusted i f r s told t = t

  left_for-Trusted :
      (i : ℕ) (f : Option WalletFlight) (s : WalletProvider) → Trusted s → Trusted (left_for i f s)
  left_for-Trusted i (some leaving_albedo) s t = record {
    showing = tt;
    flying = All-remove_at FlightVouched i s.flights t.flying;
    asking = t.asking;
  }
  left_for-Trusted i (some (leaving e)) s t =
      fail-Trusted i (clearing e) s.address clear_session s t.showing tt tt t
  left_for-Trusted i (some (clearing e)) s t = record {
    showing = tt;
    flying = All-remove_at FlightVouched i s.flights t.flying;
    asking = t.asking;
  }
  left_for-Trusted i (some disconnecting) s t = record {
    showing = tt;
    flying = All-set_at FlightVouched i forgetting s.flights tt t.flying;
    asking = (tt, t.asking);
  }
  left_for-Trusted i (some forgetting) s t = record {
    showing = t.showing;
    flying = All-remove_at FlightVouched i s.flights t.flying;
    asking = t.asking;
  }
  left_for-Trusted i f s t = t

  shows-Trusted :
      (a : Option Text) (s : WalletProvider)
      → Holds Verified a
      → Trusted s
      → Trusted (record s { address = a })
  shows-Trusted a s shown t = record { showing = shown; flying = t.flying; asking = t.asking }

  rehydrate-Trusted :
      (a : Option Text) (s : WalletProvider)
      → Holds Verified a
      → Trusted s
      → Trusted (rehydrate a s)
  rehydrate-Trusted none s told t = record {
    showing = t.showing;
    flying = t.flying;
    asking = t.asking;
  }
  rehydrate-Trusted (some []) s told t = record {
    showing = t.showing;
    flying = t.flying;
    asking = t.asking;
  }
  rehydrate-Trusted (some (c ∷ x)) s told t = record {
    showing = told;
    flying = t.flying;
    asking = t.asking;
  }

  either-Trusted :
      (b : Bool) (r s : WalletProvider) → Trusted r → Trusted s → Trusted (if b then r else s)
  either-Trusted true r s t u = t
  either-Trusted false r s t u = u

  update_state-Trusted :
      (a : Option Text) (s : WalletProvider) → Trusted s → Trusted (update_state a s)
  update_state-Trusted none s t = shows-Trusted none s tt t
  update_state-Trusted (some []) s t = shows-Trusted none s tt t
  update_state-Trusted (some (c ∷ x)) s t = t

  waiting-Holds : (i : ℕ) (s : WalletProvider) → Trusted s → Holds FlightVouched (nth i s.flights)
  waiting-Holds i s t = elim (Option-cases (nth i s.flights)) [
    | inl none_there ↦ rw none_there tt
    | inr (f, there) ↦ rw there (All-nth FlightVouched i s.flights f there t.flying)
  ]

  wallet_step-Trusted :
      (e : WalletEvent) (s : WalletProvider) → Told s e → Trusted s → Trusted (wallet_step e s)
  unfolding wallet_step
  wallet_step-Trusted (rehydrated none) s told t =
      either-Trusted s.rehydrating (rehydrate none s) s (rehydrate-Trusted none s tt t) t
  wallet_step-Trusted (rehydrated (some a)) s told t =
      either-Trusted s.rehydrating (rehydrate (some a) s) s (rehydrate-Trusted (some a) s told t) t
  wallet_step-Trusted (state_updated a) s told t = update_state-Trusted a s t
  wallet_step-Trusted connect s told t = record {
    showing = t.showing;
    flying = (tt, t.flying);
    asking = t.asking;
  }
  wallet_step-Trusted disconnect s told t = record {
    showing = t.showing;
    flying = (tt, t.flying);
    asking = (tt, t.asking);
  }
  wallet_step-Trusted (chosen i r) s told t = chosen_for-Trusted i (nth i s.flights) r s t
  wallet_step-Trusted (nonce_answers i r) s told t =
      nonce_for-Trusted i (nth i s.flights) r s told t
  wallet_step-Trusted (signed i r) s told t =
      signed_for-Trusted i (nth i s.flights) r s (waiting-Holds i s t) told t
  wallet_step-Trusted (associated i r) s told t =
      associated_for-Trusted i (nth i s.flights) r s told t
  wallet_step-Trusted (left i) s told t = left_for-Trusted i (nth i s.flights) s t

  run-Trusted :
      (es : List WalletEvent) (s : WalletProvider)
      → AllTold s es
      → Trusted s
      → Trusted (run_wallet es s)
  unfolding run_wallet
  run-Trusted [] s told t = t
  run-Trusted (e ∷ es) s (first, rest) t =
      run-Trusted es (wallet_step e s) rest (wallet_step-Trusted e s first t)

  -- Whatever is pressed and answered, in any order, the address that the screens show is one that the
  -- server verified, and a signature is sent to be verified only with a nonce that the server issued
  -- for that address, when the wallet made it for the message issued with the nonce.
  pub run_wallet-Trusted :
      (es : List WalletEvent) → AllTold wallet_provider es → Trusted (run_wallet es wallet_provider)
  run_wallet-Trusted es told =
      run-Trusted es wallet_provider told (record { showing = tt; flying = tt; asking = tt })
