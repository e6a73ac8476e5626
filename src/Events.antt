-- ===== src/Events.antt =====
-- The organizer's form for a new event, apps/web/src/app/[locale]/organizer/new/actions.ts.
pub mod Draft
pub mod Drafted
mod Tests
