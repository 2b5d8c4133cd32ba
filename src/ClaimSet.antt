-- ===== src/ClaimSet.antt =====
-- The CNClaimSet controller: pkg/controllers/cnclaimset/controller.go.
pub mod Order
pub mod State
pub mod Ids
pub mod Scale
pub mod Sync
mod Tests
