-- ===== src/Renewal/Evidence.antt =====
-- The evidence that releases a dispatched payment: internal/policy/bitcoin_conflict.go and
-- internal/policy/bitcoin_ended_batch.go.
use arkade_runtime.Base.{ℕ, ◌/◌, Bool, true, ◌&&◌, ◌||◌, not, Option, none, some, List, [], ◌∷◌}
use arkade_runtime.Base.Tests.{ltb, ◌==◌, if◌then◌else◌}
use arkade_runtime.Base.Lists.{length}
use arkade_runtime.Base.Int64.{ℤ, pos, is_neg, ltb_ℤ, int64_add, int64_sub, to_u64}
use arkade_runtime.Base.Result.{Result, Error, ok, err, ◌>>=◌, ◌>>◌, refuse}
use arkade_runtime.Base.Bytes.{Bytes, codes, bytes_eq, is_empty}
use arkade_runtime.Renewal.Journal.{
  final_dispatched, final_result, SpendingRenewalEvent, SpendingRenewalSnapshot, has_phase,
  digest_of, created_at_of, canonical_renewal_hex, is_bitcoin_batch,
}

pub record BitcoinConflictEvidence : Type 0 where
  pub kind : Bytes
  pub commitment_txid : Bytes
  pub funding_txid : Bytes
  pub funding_vout : ℕ
  pub conflicting_txid : Bytes
  pub conflicting_vin : ℕ
  pub block_hash : Bytes
  pub block_height : ℤ
  pub tip_hash : Bytes
  pub tip_height : ℤ
  pub raw_transaction : Bytes

pub record BitcoinEndedBatchEvidence : Type 0 where
  pub kind : Bytes
  pub commitment_txid : Bytes
  pub batch_ended_at : ℤ
  pub final_dispatched_at : Bytes
  pub input_txid : Bytes
  pub input_vout : ℕ
  pub input_value_sats : ℕ
  pub input_expires_at : ℤ
  pub input_commitment_txids : List Bytes

-- encoding/json on the types of the journal, RFC 3339 times in nanoseconds, and the test that a
-- vault id is trimmed UTF-8.
pub record Codec : Type 0 where
  pub parse_time : Bytes → Option ℕ
  pub json_valid : Bytes → Bool
  pub is_trimmed_utf8 : Bytes → Bool
  pub read_kind : Bytes → Option Bytes
  pub read_change : Bytes → Option ℤ
  pub read_conflict : Bytes → Option BitcoinConflictEvidence
  pub print_conflict : BitcoinConflictEvidence → Bytes
  pub read_ended : Bytes → Option BitcoinEndedBatchEvidence
  pub print_ended : BitcoinEndedBatchEvidence → Bytes

abbrev pub bitcoin_conflict_kind : Bytes
bitcoin_conflict_kind = codes "bitcoin-commitment-conflict-v1"

abbrev pub bitcoin_ended_batch_kind : Bytes
bitcoin_ended_batch_kind = codes "operator-ended-before-dispatch-v1"

-- 21 000 000 bitcoin
abbrev pub max_sats : ℕ
max_sats = 2100000000000000

unfoldable pub conflict_evidence_bad : BitcoinConflictEvidence → Bool
conflict_evidence_bad p =
    not (bytes_eq p.kind bitcoin_conflict_kind)
    || not (canonical_renewal_hex p.commitment_txid 32)
    || not (canonical_renewal_hex p.funding_txid 32)
    || not (canonical_renewal_hex p.conflicting_txid 32)
    || bytes_eq p.commitment_txid p.conflicting_txid
    || not (canonical_renewal_hex p.block_hash 32)
    || not (canonical_renewal_hex p.tip_hash 32)
    || not (ltb_ℤ (pos 0) p.block_height)
    || ltb_ℤ p.tip_height p.block_height
    || ltb_ℤ (pos 9007199254740991) p.tip_height
    || ltb_ℤ (int64_sub p.tip_height p.block_height) (pos 5)
    || is_empty p.raw_transaction
    || ltb 524288 (length p.raw_transaction)
    || not (canonical_renewal_hex p.raw_transaction (length p.raw_transaction / 2))

unfoldable pub all_txids : List Bytes → Bool
all_txids [] = true
all_txids (t ∷ ts) = canonical_renewal_hex t 32 && all_txids ts

-- `time.Parse`, and Unix() of what it returns.
abbrev pub seconds : ℕ → ℤ
seconds t = pos (t / 1000000000)

abbrev pub ended_times_bad : Option ℕ → BitcoinEndedBatchEvidence → Bool
ended_times_bad none p = true
ended_times_bad (some dispatched) p =
    not (ltb_ℤ p.batch_ended_at (seconds dispatched))
    || not (ltb_ℤ (seconds dispatched) p.input_expires_at)

module _ (c : Codec) where
  unfoldable pub ended_evidence_bad : BitcoinEndedBatchEvidence → Bool
  unfolding all_txids
  ended_evidence_bad p =
      ended_times_bad (c.parse_time p.final_dispatched_at) p
      || not (bytes_eq p.kind bitcoin_ended_batch_kind)
      || not (canonical_renewal_hex p.commitment_txid 32)
      || not (canonical_renewal_hex p.input_txid 32)
      || not (ltb_ℤ (pos 0) p.batch_ended_at)
      || ltb p.input_value_sats 330
      || ltb max_sats p.input_value_sats
      || (length p.input_commitment_txids == 0)
      || ltb 128 (length p.input_commitment_txids)
      || not (all_txids p.input_commitment_txids)

  abbrev pub or_corrupt {ℓ} : {A : Type ℓ} → Option A → Result A
  or_corrupt none = err Error.bad_policy
  or_corrupt (some a) = ok a

  unfoldable pub validate_bitcoin_conflict_release :
      SpendingRenewalSnapshot → SpendingRenewalEvent → Result (Unit {0})
  validate_bitcoin_conflict_release s e = do
    refuse
        (not (is_bitcoin_batch s.operation.kind)
          || not (has_phase final_dispatched s.events)
          || not (bytes_eq e.request_digest (digest_of final_dispatched s.events)))
        Error.bad_transition
    p ← or_corrupt (c.read_conflict e.evidence)
    refuse (not (bytes_eq (c.print_conflict p) e.evidence)) Error.bad_transition
    refuse (conflict_evidence_bad p) Error.bad_transition

  unfoldable pub bitcoin_plan_change : Bytes → Result ℤ
  bitcoin_plan_change raw = do
    change ← or_corrupt (c.read_change raw)
    refuse (is_neg change) Error.bad_policy
    ok change

  unfoldable pub validate_bitcoin_ended_batch_release :
      SpendingRenewalSnapshot → SpendingRenewalEvent → Result (Unit {0})
  validate_bitcoin_ended_batch_release s e = do
    refuse
        (not (is_bitcoin_batch s.operation.kind)
          || not (has_phase final_dispatched s.events)
          || has_phase final_result s.events
          || not (bytes_eq e.request_digest (digest_of final_dispatched s.events)))
        Error.bad_transition
    p ← or_corrupt (c.read_ended e.evidence)
    change ← bitcoin_plan_change s.operation.plan
    refuse
        (not (bytes_eq (c.print_ended p) e.evidence)
          || not (bytes_eq p.final_dispatched_at (created_at_of final_dispatched s.events))
          || not (bytes_eq p.input_txid s.operation.input_txid)
          || not (p.input_vout == s.operation.input_vout)
          || not (
              p.input_value_sats
              == to_u64
                  (int64_add (int64_add s.operation.amount_sats s.operation.fee_sats) change)))
        Error.bad_transition
    refuse (ended_evidence_bad p) Error.bad_transition

  unfoldable pub validate_bitcoin_dispatched_release :
      SpendingRenewalSnapshot → SpendingRenewalEvent → Result (Unit {0})
  validate_bitcoin_dispatched_release s e = do
    kind ← or_corrupt (c.read_kind e.evidence)
    if bytes_eq kind bitcoin_conflict_kind
        then validate_bitcoin_conflict_release s e
        else if bytes_eq kind bitcoin_ended_batch_kind
        then validate_bitcoin_ended_batch_release s e
        else err Error.bad_transition
