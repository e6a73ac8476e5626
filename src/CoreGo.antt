-- ===== src/CoreGo.antt =====
-- The client of services/core-go, apps/web/src/lib/core-go/client.ts, and the server actions that call
-- it for the organizer (apps/web/src/app/[locale]/organizer/events/[id]) and for the judge
-- (apps/web/src/app/[locale]/events/[id]/judge/actions.ts).
pub mod Client
pub mod Failure
pub mod Organizer
pub mod Judge
pub mod Envelopes
pub mod Steps
pub mod Authority
pub mod Refusals
pub mod Winners
pub mod Release
mod Tests
