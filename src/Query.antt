-- ===== src/Query.antt =====
-- The commit query language (crates/kernel/ents-query): refname patterns, revision terms and the
-- footprint of a query.
pub mod Errors
pub mod Space
pub mod Pattern
pub mod Rev
pub mod Ast
pub mod Eval
pub mod Atom
pub mod Parse
mod Examples
