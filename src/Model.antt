-- ===== src/Model.antt =====
-- The forge's vocabulary (crates/kernel/ents-model): member entities and the refname namespaces.
pub mod Member
pub mod Namespace
mod Examples
