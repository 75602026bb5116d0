-- ===== src/Renewal/Journal.antt =====
-- The rows of the payment batch journal, as internal/policy/spending_renewal.go declares them, and
-- the reading of its events.
use arkade_runtime.Base.{ℕ, ◌*◌, Bool, true, false, ◌&&◌, ◌||◌, Option, none, some, List, [], ◌∷◌}
use arkade_runtime.Base.Tests.{leb, ◌==◌, if◌then◌else◌}
use arkade_runtime.Base.Lists.{length}
use arkade_runtime.Base.Int64.{ℤ}
use arkade_runtime.Base.Bytes.{Bytes, codes, bytes_eq}

-- Event.Phase, a string in the source.
pub data Phase : Type 0 where
  register_authorized register_dispatched register_result : Phase
  final_authorized final_dispatched final_result : Phase
  delete_authorized delete_dispatched delete_result : Phase
  confirmed released cancelled : Phase
  other_phase : Bytes → Phase

-- Event.Outcome, a string in the source.
pub data Outcome : Type 0 where
  no_outcome outcome_registered outcome_rejected outcome_submitted outcome_released : Outcome
  outcome_confirmed : Outcome
  other_outcome : Bytes → Outcome

pub record SpendingRenewalOperation : Type 0 where
  pub operation_id : Bytes
  pub vault_id : Bytes
  pub input_txid : Bytes
  pub input_vout : ℕ
  pub fee_sats : ℤ
  pub plan_digest : Bytes
  pub plan : Bytes
  pub expires_at : Bytes
  pub created_at : Bytes
  pub kind : Bytes
  pub amount_sats : ℤ

pub record SpendingRenewalEvent : Type 0 where
  pub operation_id : Bytes
  pub phase : Phase
  pub request_digest : Bytes
  pub outcome : Outcome
  pub operator_ref : Bytes
  pub evidence : Bytes
  pub created_at : Bytes

-- The map of events as a list, one event for a phase.
pub record SpendingRenewalSnapshot : Type 0 where
  pub operation : SpendingRenewalOperation
  pub events : List SpendingRenewalEvent

unfoldable pub phase_eq : Phase → Phase → Bool
phase_eq register_authorized register_authorized = true
phase_eq register_dispatched register_dispatched = true
phase_eq register_result register_result = true
phase_eq final_authorized final_authorized = true
phase_eq final_dispatched final_dispatched = true
phase_eq final_result final_result = true
phase_eq delete_authorized delete_authorized = true
phase_eq delete_dispatched delete_dispatched = true
phase_eq delete_result delete_result = true
phase_eq confirmed confirmed = true
phase_eq released released = true
phase_eq cancelled cancelled = true
phase_eq (other_phase s) (other_phase t) = bytes_eq s t
phase_eq _ _ = false

unfoldable pub outcome_eq : Outcome → Outcome → Bool
outcome_eq no_outcome no_outcome = true
outcome_eq outcome_registered outcome_registered = true
outcome_eq outcome_rejected outcome_rejected = true
outcome_eq outcome_submitted outcome_submitted = true
outcome_eq outcome_released outcome_released = true
outcome_eq outcome_confirmed outcome_confirmed = true
outcome_eq (other_outcome s) (other_outcome t) = bytes_eq s t
outcome_eq _ _ = false

-- `_, ok := s.Events[phase]`, and `s.Events[phase].Phase != ""` on events of known phases.
unfoldable pub has_phase : Phase → List SpendingRenewalEvent → Bool
has_phase ph [] = false
has_phase ph (e ∷ es) = phase_eq e.phase ph || has_phase ph es

-- `s.Events[phase].RequestDigest`, empty where there is no event.
unfoldable pub digest_of : Phase → List SpendingRenewalEvent → Bytes
digest_of ph [] = []
digest_of ph (e ∷ es) = if phase_eq e.phase ph then e.request_digest else digest_of ph es

unfoldable pub outcome_of : Phase → List SpendingRenewalEvent → Outcome
outcome_of ph [] = no_outcome
outcome_of ph (e ∷ es) = if phase_eq e.phase ph then e.outcome else outcome_of ph es

unfoldable pub created_at_of : Phase → List SpendingRenewalEvent → Bytes
created_at_of ph [] = []
created_at_of ph (e ∷ es) = if phase_eq e.phase ph then e.created_at else created_at_of ph es

unfoldable pub event_of : Phase → List SpendingRenewalEvent → Option SpendingRenewalEvent
event_of ph [] = none
event_of ph (e ∷ es) = if phase_eq e.phase ph then some e else event_of ph es

-- `compare != old`, where `compare` is `e` with the time of `old`.
unfoldable pub same_event : SpendingRenewalEvent → SpendingRenewalEvent → Bool
same_event e old =
    bytes_eq e.operation_id old.operation_id
    && phase_eq e.phase old.phase
    && bytes_eq e.request_digest old.request_digest
    && outcome_eq e.outcome old.outcome
    && bytes_eq e.operator_ref old.operator_ref
    && bytes_eq e.evidence old.evidence

-- renewalTerminal
unfoldable pub renewal_terminal : List SpendingRenewalEvent → Bool
renewal_terminal es =
    has_phase confirmed es
    || has_phase released es
    || has_phase cancelled es
    || outcome_eq (outcome_of register_result es) outcome_rejected

abbrev is_lower_hex : ℕ → Bool
is_lower_hex c = (leb 48 c && leb c 57) || (leb 97 c && leb c 102)

unfoldable pub all_lower_hex : Bytes → Bool
all_lower_hex [] = true
all_lower_hex (c ∷ cs) = is_lower_hex c && all_lower_hex cs

-- canonicalRenewalHex: what decodes to `n` bytes and encodes back to itself is `2n` digits in lower
-- case.
unfoldable pub canonical_renewal_hex : Bytes → ℕ → Bool
unfolding all_lower_hex
canonical_renewal_hex value n = (length value == n * 2) && all_lower_hex value

abbrev pub spending_bitcoin_batch_kind : Bytes
spending_bitcoin_batch_kind = codes "spending-bitcoin-v1"

unfoldable pub is_bitcoin_batch : Bytes → Bool
is_bitcoin_batch kind = bytes_eq kind spending_bitcoin_batch_kind
