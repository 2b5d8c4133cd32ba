-- ===== src/Pool.antt =====
-- The CNPool controller: pkg/controllers/cnpool. Build makes the set that a pool wants, Legacy deals with
-- the sets and pods of former revisions, Scale with the current set, and Sync puts them together.
pub mod State
pub mod Build
pub mod Order
pub mod Legacy
pub mod Scale
pub mod Sync
mod Tests
