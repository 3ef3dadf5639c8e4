-- ===== src/Gate.antt =====
-- The gate (crates/kernel/ents-gate): the admission judgment over one proposed ref update.
pub mod Errors
pub mod Object
pub mod Signature
pub mod Verdict
pub mod Policy
pub mod Binding
pub mod Authority
pub mod Verify
pub mod Total
pub mod Sample
mod Examples
