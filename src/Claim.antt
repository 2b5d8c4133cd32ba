-- ===== src/Claim.antt =====
-- The CNClaim controller: pkg/controllers/cnclaim.
pub mod State
pub mod Trace
pub mod Labels
pub mod Index
pub mod Select
pub mod Store
pub mod Bind
pub mod Reclaim
pub mod Migrate
pub mod Sync
pub mod Finalize
pub mod Requests
mod Tests
