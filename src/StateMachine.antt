-- ===== src/StateMachine.antt =====
-- apps/web/src/lib/state-machines: which status changes an event or a prize may make, and the guarded
-- updates that carry them out.
pub mod Transitions
pub mod Apply
pub mod Graph
pub mod Races
mod Tests
