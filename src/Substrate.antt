-- ===== src/Substrate.antt =====
-- The storage seams: the ref store (crates/substrate/gix-ref-store) and, as parameters, what the
-- kernel takes from gitoxide, facet and ssh-key.
pub mod Refs
pub mod Objects
