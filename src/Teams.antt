-- ===== src/Teams.antt =====
-- Teams: apps/web/src/lib/teams/shares.ts, apps/web/src/lib/github/repo-ownership.ts, and the public
-- page's server actions, apps/web/src/app/[locale]/events/[id]/actions.ts.
pub mod Shares
pub mod Repo
pub mod Slugs
pub mod Owners
pub mod Registration
pub mod Registered
pub mod Started
mod Tests
