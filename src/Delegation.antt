-- ===== src/Delegation.antt =====
-- Delegated renewals: internal/policy/spending_delegation.go, and the tables of both batch journals
-- under the payment ledger.
pub mod Journal
pub mod Validate
pub mod Guards
