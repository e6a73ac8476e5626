-- ===== src/Pages.antt =====
-- The server-rendered pages of an event, its pictures, and a builder's profile: whom each shows what,
-- apps/web/src/app/[locale].
pub mod Gates
pub mod Gated
pub mod Cards
pub mod Drawn
pub mod Unlinked
pub mod Receipt
pub mod Offers
pub mod Offered
pub mod Told
pub mod Badge
pub mod Profile
pub mod Shown
mod Sample
mod Tests
mod CardTests
