-- ===== src/Renewal/Phases.antt =====
-- The state machine of a payment batch: validateSpendingRenewalOperation,
-- validateSpendingRenewalEvent and validateRenewalTransition of
-- internal/policy/spending_renewal.go.
use arkade_runtime.Base.{
  ℕ, ◌+◌, Bool, true, false, ◌&&◌, ◌||◌, not, Option, none, some, List, [], ◌∷◌,
}
use arkade_runtime.Base.Tests.{ltb, if◌then◌else◌}
use arkade_runtime.Base.Lists.{length}
use arkade_runtime.Base.Int64.{pos, is_neg, ltb_ℤ}
use arkade_runtime.Base.Result.{Result, Error, err, ◌>>◌, refuse}
use arkade_runtime.Base.Bytes.{Bytes, bytes_eq, is_empty}
use arkade_runtime.Renewal.Journal.{
  Phase, register_authorized, register_dispatched, register_result, final_authorized,
  final_dispatched, final_result, delete_authorized, delete_dispatched, delete_result, confirmed,
  released, cancelled, other_phase, Outcome, no_outcome, outcome_registered, outcome_rejected,
  outcome_submitted, outcome_released, outcome_confirmed, outcome_eq, SpendingRenewalOperation,
  SpendingRenewalEvent, SpendingRenewalSnapshot, has_phase, digest_of, outcome_of, renewal_terminal,
  canonical_renewal_hex, is_bitcoin_batch,
}
use arkade_runtime.Renewal.Evidence.{Codec, max_sats, validate_bitcoin_dispatched_release}

-- 10 minutes and 15 seconds in nanoseconds.
abbrev pub ten_minutes : ℕ
ten_minutes = 600000000000

abbrev pub grace : ℕ
grace = 15000000000

abbrev is_nil_events : List SpendingRenewalEvent → Bool
is_nil_events [] = true
is_nil_events (e ∷ es) = false

-- The zero time of Go, before every other, where parsing fails.
abbrev pub time_or_zero : Option ℕ → ℕ
time_or_zero none = 0
time_or_zero (some t) = t

-- `e1 != nil || e2 != nil || !expiry.After(created) || expiry.After(created.Add(10*time.Minute))`
abbrev pub times_bad : Option ℕ → Option ℕ → Bool
times_bad none _ = true
times_bad (some expiry) none = true
times_bad (some expiry) (some created) =
    not (ltb created expiry) || ltb (created + ten_minutes) expiry

abbrev pub is_unparsed : Option ℕ → Bool
is_unparsed none = true
is_unparsed (some t) = false

module _ (c : Codec) where
  -- With the one program that delegation accepts.
  unfoldable pub valid_delegation_vault_id : Bytes → Bool
  valid_delegation_vault_id vault = not (is_empty vault) && c.is_trimmed_utf8 vault

  unfoldable pub validate_spending_renewal_operation : SpendingRenewalOperation → Result (Unit {0})
  validate_spending_renewal_operation r = do
    refuse
        (not (is_bitcoin_batch r.kind)
          || ltb_ℤ r.amount_sats (pos 330)
          || ltb_ℤ (pos max_sats) r.amount_sats)
        Error.bad_policy
    refuse
        (not (canonical_renewal_hex r.operation_id 16)
          || not (valid_delegation_vault_id r.vault_id)
          || ltb 256 (length r.vault_id)
          || not (canonical_renewal_hex r.input_txid 32)
          || not (canonical_renewal_hex r.plan_digest 32)
          || is_neg r.fee_sats
          || ltb_ℤ (pos 5000) r.fee_sats
          || is_empty r.plan
          || ltb 8192 (length r.plan)
          || not (c.json_valid r.plan))
        Error.bad_policy
    refuse (times_bad (c.parse_time r.expires_at) (c.parse_time r.created_at)) Error.bad_time

  -- The cases of validateSpendingRenewalEvent, with evidence, and without anything.
  abbrev authorization_bad : SpendingRenewalEvent → Bool
  authorization_bad e =
      is_empty e.evidence
      || not (c.json_valid e.evidence)
      || not (outcome_eq e.outcome no_outcome)
      || not (is_empty e.operator_ref)

  abbrev bare_bad : Outcome → SpendingRenewalEvent → Bool
  bare_bad o e =
      not (outcome_eq e.outcome o) || not (is_empty e.operator_ref) || not (is_empty e.evidence)

  unfoldable pub event_shape_bad : SpendingRenewalEvent → Phase → Bool
  event_shape_bad e register_authorized = authorization_bad e
  event_shape_bad e final_authorized = authorization_bad e
  event_shape_bad e delete_authorized = authorization_bad e
  event_shape_bad e released = authorization_bad e
  event_shape_bad e register_dispatched = bare_bad no_outcome e
  event_shape_bad e final_dispatched = bare_bad no_outcome e
  event_shape_bad e delete_dispatched = bare_bad no_outcome e
  event_shape_bad e cancelled = bare_bad no_outcome e
  event_shape_bad e register_result =
      not (is_empty e.evidence)
      || not (
          (outcome_eq e.outcome outcome_registered && not (is_empty e.operator_ref))
          || (outcome_eq e.outcome outcome_rejected && is_empty e.operator_ref))
  event_shape_bad e final_result = bare_bad outcome_submitted e
  event_shape_bad e delete_result = bare_bad outcome_released e
  event_shape_bad e confirmed =
      not (outcome_eq e.outcome outcome_confirmed)
      || not (canonical_renewal_hex e.operator_ref 32)
      || is_empty e.evidence
      || not (c.json_valid e.evidence)
  event_shape_bad e (other_phase s) = true

  unfoldable pub validate_spending_renewal_event : SpendingRenewalEvent → Result (Unit {0})
  unfolding event_shape_bad
  validate_spending_renewal_event e = do
    refuse
        (not (canonical_renewal_hex e.operation_id 16)
          || not (canonical_renewal_hex e.request_digest 32)
          || ltb 900000 (length e.evidence)
          || ltb 256 (length e.operator_ref))
        Error.bad_policy
    refuse (is_unparsed (c.parse_time e.created_at)) Error.bad_time
    refuse (event_shape_bad e e.phase) Error.bad_policy

  abbrev require : Phase → List SpendingRenewalEvent → Result (Unit {0})
  require ph es = refuse (not (has_phase ph es)) Error.bad_transition

  -- `require(prior)`, then the digests have to agree.
  abbrev follows : Phase → SpendingRenewalEvent → List SpendingRenewalEvent → Result (Unit {0})
  follows prior e es = do
    require prior es
    refuse (not (bytes_eq e.request_digest (digest_of prior es))) Error.bad_transition

  -- The `switch` over the phase; `expiry` is the operation's.
  unfoldable pub check_phase :
      SpendingRenewalSnapshot → SpendingRenewalEvent → ℕ → ℕ → Phase → Result (Unit {0})
  check_phase s e now expiry register_authorized =
      refuse (not (is_nil_events s.events) || not (ltb now expiry)) Error.bad_transition
  check_phase s e now expiry register_dispatched = do
    require register_authorized s.events
    refuse
        (not (ltb now expiry)
          || not (bytes_eq e.request_digest (digest_of register_authorized s.events)))
        Error.bad_transition
  check_phase s e now expiry register_result = do
    require register_dispatched s.events
    refuse
        (not (bytes_eq e.request_digest (digest_of register_dispatched s.events))
          || has_phase delete_authorized s.events
          || has_phase final_authorized s.events)
        Error.bad_transition
  check_phase s e now expiry final_authorized =
      refuse
        (not (outcome_eq (outcome_of register_result s.events) outcome_registered)
          || has_phase delete_authorized s.events
          || not (ltb now expiry))
        Error.bad_transition
  check_phase s e now expiry final_dispatched = do
    refuse (not (ltb now expiry) || has_phase delete_authorized s.events) Error.bad_transition
    follows final_authorized e s.events
  check_phase s e now expiry final_result = follows final_dispatched e s.events
  check_phase s e now expiry confirmed = follows final_dispatched e s.events
  check_phase s e now expiry delete_authorized = do
    require register_dispatched s.events
    refuse
        (has_phase final_authorized s.events
          && (ltb now (expiry + grace) || has_phase final_dispatched s.events))
        Error.bad_transition
    refuse (ltb now (expiry + grace)) Error.bad_transition
  check_phase s e now expiry delete_dispatched = follows delete_authorized e s.events
  check_phase s e now expiry delete_result = follows delete_dispatched e s.events
  check_phase s e now expiry released =
      if has_phase final_dispatched s.events then validate_bitcoin_dispatched_release c s e else (do
        refuse (not (outcome_eq (outcome_of delete_result s.events) outcome_released))
            Error.bad_transition
        refuse
            (not (has_phase register_dispatched s.events)
              || has_phase final_dispatched s.events
              || ltb now (expiry + grace)
              || not (bytes_eq e.request_digest (digest_of register_dispatched s.events)))
            Error.bad_transition)
  check_phase s e now expiry cancelled = do
    refuse (has_phase register_dispatched s.events) Error.bad_transition
    refuse (not (bytes_eq e.request_digest s.operation.plan_digest)) Error.bad_transition
  check_phase s e now expiry (other_phase t) = err Error.bad_transition

  unfoldable pub validate_renewal_transition :
      SpendingRenewalSnapshot → SpendingRenewalEvent → ℕ → Result (Unit {0})
  unfolding check_phase
  validate_renewal_transition s e now = do
    refuse (renewal_terminal s.events) Error.bad_transition
    check_phase s e now (time_or_zero (c.parse_time s.operation.expires_at)) e.phase
