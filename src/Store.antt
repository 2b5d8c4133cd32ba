-- ===== src/Store.antt =====
-- The CN store controller, which reconciles the pods of CNSets: pkg/controllers/cnstore.
pub mod State
pub mod Client
pub mod Stats
pub mod Readiness
pub mod Drain
pub mod Pooling
pub mod Reconcile
mod Tests
