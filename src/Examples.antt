-- ===== src/Examples.antt =====
-- The theorems at concrete inputs.
mod Setting
mod Rows
mod Reservations
mod Commits
mod Sequences
mod Batches
mod Delegations
mod Passkeys
