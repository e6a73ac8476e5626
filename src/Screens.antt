-- ===== src/Screens.antt =====
-- The organizer's and the judge's screens, and the wallet that all screens share: each as its React
-- state, a handler for every press, every answer of the wallet and every answer of the server, and a
-- run over a list of these.
pub mod Sign
pub mod Signing
pub mod Deposit
pub mod Deposited
pub mod Fund
pub mod Funded
pub mod GoLive
pub mod WentLive
pub mod Refused
pub mod Release
pub mod Locked
pub mod Wallet
pub mod Connected
mod Tests
mod WalletTests
