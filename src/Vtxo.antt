-- ===== src/Vtxo.antt =====
-- internal/policy/vtxo.go: one Spending operation, its states, its canonical bytes and digests.
pub mod State
pub mod Record
pub mod Canonical
pub mod Injective
pub mod Encoding
pub mod Separation
pub mod Seal
pub mod Bundle
pub mod Digest
pub mod Binding
