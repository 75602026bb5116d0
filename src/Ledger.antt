-- ===== src/Ledger.antt =====
-- internal/policy/ledger.go and internal/policy/vtxo_ledger.go: the authenticated policy store.
pub mod Store
pub mod Allowance
pub mod Guards
pub mod Reserve
pub mod SignCounts
pub mod Transition
pub mod Replay
pub mod Stages
pub mod Exclusive
pub mod Locks
pub mod Cap
pub mod Within
pub mod Granted
pub mod Swap
pub mod Commit
pub mod Signed
pub mod Lifecycle
pub mod Reach
pub mod Outflows
pub mod Durable
