-- ===== src/Sequence.antt =====
-- The policy sequence: internal/policy/monotonic.go and internal/policy/sequence_base.go.
pub mod Text
pub mod RoundTrip
pub mod Observe
pub mod Base
pub mod Laws
