-- ===== src/Receive.antt =====
-- `receive` (crates/kernel/ents-receive/src): a batch of proposed updates is scanned for redacted
-- objects, judged one by one, written in one transaction, and announced to the event sink.
pub mod Types
pub mod Scan
pub mod Batch
pub mod Judgments
pub mod Atomic
pub mod Redaction
pub mod Sample
mod Examples
