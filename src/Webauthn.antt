-- ===== src/Webauthn.antt =====
-- Passkey ceremonies: internal/webauthn.
pub mod Cbor
pub mod Total
pub mod Encoding
pub mod Header
pub mod RoundTrip
pub mod Signature
pub mod LowS
pub mod Assertion
pub mod Accepted
pub mod Create
pub mod Cose
pub mod Attested
pub mod Registered
pub mod Attestation
