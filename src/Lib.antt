-- ===== src/Lib.antt =====
-- The Guardian's policy store.
--
-- The Guardian co-signs payments of a Bitcoin and Ark wallet. What it may sign is decided by the
-- policy store of internal/policy: an SQLite ledger whose rows carry MACs, a rolling allowance
-- for each vault, a counter for each authenticator, and a file beside the database that holds how
-- many economic rows there have been, so that an old backup is noticed. This library models that
-- store.
--
-- Vtxo models internal/policy/vtxo.go: the states of a payment (Vtxo.State), its rows
-- (Vtxo.Record), the bytes under a MAC (Vtxo.Canonical, canonicalVtxoOperation), the MACs
-- (Vtxo.Seal), the inputs of a bundle (Vtxo.Bundle) and the digests that a phone signs
-- (Vtxo.Digest). Vtxo.Encoding, Injective, Separation and Binding hold the proofs.
--
-- Sequence models internal/policy/monotonic.go and internal/policy/sequence_base.go: the text of
-- the file (Sequence.Text, parseMonotonic), Observe with a disk that may fail (Sequence.Observe),
-- and the sequence of a database (Sequence.Base, currentEconomicSequence).
--
-- Ledger models internal/policy/ledger.go, internal/policy/vtxo_ledger.go and
-- internal/policy/signcount.go. The tables are lists of rows (Ledger.Store), with the primary and
-- foreign keys at the INSERTs. Ledger.Allowance is spentInWindow, Ledger.Guards what a
-- reservation checks, Ledger.Reserve ReserveVtxoOperation from its guards to its COMMIT,
-- Ledger.SignCounts the counters, Ledger.Transition the moves of a reserved row, its signed
-- commit and the readers, and Ledger.Outflows AttachMonotonic. The other modules of Ledger hold
-- the proofs; Ledger.Reach is the store as a relation of steps.
--
-- Renewal models internal/policy/spending_renewal.go, internal/policy/bitcoin_conflict.go and
-- internal/policy/bitcoin_ended_batch.go: the journal of payment batches (Renewal.Journal), the
-- evidence that releases one (Renewal.Evidence), its state machine (Renewal.Phases,
-- validateRenewalTransition), AppendSpendingRenewalEvent (Renewal.Append) and what batches take
-- of the allowance (Renewal.Allowance).
--
-- Delegation models internal/policy/spending_delegation.go as far as it concerns delegations
-- alone: the journal of presigned renewals (Delegation.Journal), its validators
-- (Delegation.Validate), and what delegations ask of payments and take of the allowance
-- (Delegation.Guards).
--
-- Lanes puts payments, payment batches and delegations together as one store: Lanes.Tables fills
-- the interface of the ledger with both journals, Lanes.Renewals is ReserveSpendingRenewal,
-- Lanes.Schedule and Lanes.Overlap are ScheduleVtxoDelegationSet, Lanes.Advance is
-- AdvanceSpendingDelegation, and Lanes.Sets is validateDelegationSets. Lanes.Reach is the whole
-- store as a relation of steps; the other modules hold the proofs.
--
-- Webauthn models internal/webauthn: the CBOR subset of cbor.go (Webauthn.Cbor), signatures in
-- their lower half and their checks in der.go and p256.go (Webauthn.Signature), Validate of
-- assert.go (Webauthn.Assertion) and ValidateCreate, ParseAttestationObject and the encoders of
-- create.go (Webauthn.Create). The counter that Validate returns is the one that the ledger
-- advances (Ledger.SignCounts). Webauthn.Encoding, Header, Total, RoundTrip, LowS, Accepted,
-- Cose, Attested, Registered and Attestation hold the proofs.
--
-- Strings and byte slices are lists of bytes as numbers, an int64 is an integer whose sums wrap
-- around at 2^64 (Base.Int64), and an `error` is a value of Base.Result. HMAC-SHA-256, SHA-256,
-- RFC 3339 times and encoding/json are arguments, and so is, for the payment ledger alone, what
-- it asks of the renewal and delegation tables: the records Platform and Codec. A transaction
-- that fails leaves the database as it was. How far a write of the file and a COMMIT get is an
-- argument too, so that the theorems hold for every such outcome; the clock is read through
-- arguments. The only fuel is the twenty digits of a printed uint64, and ten for a uint32, which
-- are enough for every such number, and that of the CBOR decoder, one more than the bytes of its
-- input, which Webauthn.Total shows to be enough. The curve, ECDSA, ASN.1, base64 and the reading
-- of client data are arguments too: the records Crypto and Formats; a public key is its 65 bytes.
--
-- Not modelled: the SQL schema and its migrations, the CHECK of a payload's length in
-- internal/policy/spending_delegation_schema.go among it (an INSERT that this CHECK refuses
-- succeeds in the model), locks (a call is one step), the layers above the store
-- (internal/application), key derivation (internal/authorizer), scripts and PSBTs, boarding,
-- savings recovery, and the loaders of both journals: the model starts from the snapshots that
-- they have authenticated. The credential that a vault has enrolled is an argument of
-- ScheduleVtxoDelegationSet. Of internal/webauthn, the functions that draw random keys and those
-- that are calls of encoding/json and base64 alone.
pub mod Base
pub mod Vtxo
pub mod Sequence
pub mod Ledger
pub mod Renewal
pub mod Delegation
pub mod Lanes
pub mod Webauthn
pub mod Examples
