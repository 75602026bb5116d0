-- ===== src/Lanes.antt =====
-- The payment ledger together with both batch journals: internal/policy/spending_renewal.go and
-- internal/policy/spending_delegation.go on the tables of internal/policy/ledger.go.
pub mod Tables
pub mod Advance
pub mod Chains
pub mod Order
pub mod Renewals
pub mod Overlap
pub mod Schedule
pub mod Lawful
pub mod Counts
pub mod Quiet
pub mod Guarded
pub mod Cost
pub mod Claim
pub mod Single
pub mod Members
pub mod Passed
pub mod Apart
pub mod Valid
pub mod Spared
pub mod Scheduled
pub mod Sets
pub mod Whole
pub mod Complete
pub mod Reach
pub mod Lives
