-- ===== src/Views.antt =====
-- What anyone may see of an event: apps/web/src/lib/events/public-view.ts and card-model.ts.
pub mod Public
pub mod Privacy
pub mod Card
pub mod Cards
mod Tests
