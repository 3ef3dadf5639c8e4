-- ===== src/Rules.antt =====
-- The gate as Datalog rules (crates/kernel/ents-gate-rules/src/lib.rs).
pub mod Facts
pub mod Derive
pub mod Gate
pub mod Accepted
mod Examples
