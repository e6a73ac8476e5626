-- ===== src/Screens/WalletTests.antt =====
-- A wallet that connects at the second attempt.
use astrea.Prelude.{
  ◌≡◌, refl, none, some, List, [], ◌∷◌, Text, codes, Text-discrete, ok, err, map, ◌==◌,
  if◌then◌else◌,
}
use astrea.Screens.Wallet.{
  error, WalletEvent, rehydrated, connect, chosen, nonce_answers, signed, associated, left,
  wallet_provider, auth_error_of, wallet_step, run_wallet,
}
use astrea.Screens.Connected.{Trusted, run_wallet-Trusted}

-- The first wallet cannot sign messages.
abbrev wallet_events : List WalletEvent
wallet_events =
    rehydrated none
    ∷ connect
    ∷ chosen 0 (ok (codes "GA", none))
    ∷ nonce_answers 0 (ok (codes "n1", codes "m1"))
    ∷ signed 0 (err (error (codes "no signMessage")))
    ∷ left 0
    ∷ left 0
    ∷ connect
    ∷ chosen 0 (ok (codes "GB", some (codes "freighter")))
    ∷ nonce_answers 0 (ok (codes "n2", codes "m2"))
    ∷ signed 0 (ok (codes "s2"))
    ∷ associated 0 (ok tt)
    ∷ []

connects : (run_wallet wallet_events wallet_provider).address ≡ some (codes "GB")
unfolding run_wallet wallet_step auth_error_of Text-discrete
connects = refl

abbrev IsGb : Text → Type 0
IsGb a = a ≡ codes "GB"

-- The server's nonces are numbered, as are its messages.
abbrev IsIssued : Text → Text → Text → Type 0
IsIssued a nonce message = map (λ c. if c == b'n' then b'm' else c) nonce ≡ message

abbrev IsSigned : Text → Text → Text → Type 0
IsSigned a message signature = map (λ c. if c == b'm' then b's' else c) message ≡ signature

run_wallet-Trusted_example :
    Trusted IsGb IsIssued IsSigned (run_wallet wallet_events wallet_provider)
unfolding wallet_step auth_error_of Text-discrete
run_wallet-Trusted_example =
    run_wallet-Trusted IsGb IsIssued IsSigned wallet_events
      (tt, (tt, (tt, (refl, (tt, (tt, (tt, (tt, (tt, (refl, (refl, (refl, tt))))))))))))
