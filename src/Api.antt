-- ===== src/Api.antt =====
-- The Kubernetes objects as the operator reads and writes them, and the label and annotation keys.
pub mod Keys
pub mod Pod
pub mod Claim
pub mod LogSet
pub mod Sets
pub mod Version
