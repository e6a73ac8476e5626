-- ===== src/Github.antt =====
-- Linking a GitHub account: apps/web/src/lib/github/oauth.ts and the route that GitHub calls back,
-- apps/web/src/app/api/auth/github, with the route that starts it.
pub mod State
pub mod States
pub mod Callback
pub mod Links
pub mod Start
pub mod RoundTrip
mod Tests
