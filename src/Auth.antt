-- ===== src/Auth.antt =====
-- Sign-in with a Stellar wallet: apps/web/src/lib/wallet/auth-utils.ts, validation.ts and session.ts,
-- and the route apps/web/src/app/api/auth/nonce/route.ts.
pub mod Crypto
pub mod Nonce
pub mod Email
pub mod Session
pub mod Nonces
pub mod SignIn
pub mod Route
pub mod RoundTrip
mod Tests
