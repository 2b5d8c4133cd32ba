-- ===== src/Common.antt =====
-- What the controllers share: pkg/controllers/common.
pub mod Owner
pub mod Resolve
pub mod Score
pub mod Failover
mod Tests
