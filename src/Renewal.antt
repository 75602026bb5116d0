-- ===== src/Renewal.antt =====
-- internal/policy/spending_renewal.go: the journal of Bitcoin payment batches.
pub mod Journal
pub mod Evidence
pub mod Phases
pub mod Append
pub mod Allowance
pub mod Exclusion
pub mod Histories
