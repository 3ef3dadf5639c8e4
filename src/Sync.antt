-- ===== src/Sync.antt =====
-- Merging and moving the forge (crates/kernel/ents-sync/src).
pub mod Types
pub mod Objects
pub mod Preflight
pub mod Transfer
pub mod Merge
pub mod Resolve
pub mod Sample
mod Examples
