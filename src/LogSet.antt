-- ===== src/LogSet.antt =====
-- The log service: pkg/controllers/logset.
pub mod Bootstrap
pub mod Ordinals
pub mod State
pub mod Failover
pub mod Observe
pub mod Finalize
mod Tests
mod Scenarios
