-- ===== src/Anchor.antt =====
-- Anchors to lines of a file (crates/kernel/ents-anchor): capture and projection.
pub mod Types
pub mod Capture
pub mod Range
pub mod Project
mod Sample
mod Examples
