-- ===== src/Gate/Total.antt =====
-- The fuel of the model: with fuel for every parent in the store, no function of the gate runs out
-- of it (crates/kernel/ents-gate/src/verify.rs).
pub mod Reads
pub mod Bindings
pub mod Verdicts
