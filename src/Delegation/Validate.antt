-- ===== src/Delegation/Validate.antt =====
-- The validators of internal/policy/spending_delegation.go: validateDelegation,
-- validateDelegationSetFields and validateDelegationEvent.
use arkade_runtime.Base.{ℕ, ◌+◌, Bool, true, ◌&&◌, ◌||◌, not, Option, none, some}
use arkade_runtime.Base.Tests.{ltb, if◌then◌else◌}
use arkade_runtime.Base.Lists.{length}
use arkade_runtime.Base.Int64.{ℤ, pos, is_neg, ltb_ℤ, int64_add}
use arkade_runtime.Base.Result.{Result, Error, ◌>>◌, refuse}
use arkade_runtime.Base.Bytes.{Bytes, codes, bytes_eq, is_empty}
use arkade_runtime.Renewal.Journal.{canonical_renewal_hex}
use arkade_runtime.Renewal.Evidence.{Codec, seconds}
use arkade_runtime.Renewal.Phases.{valid_delegation_vault_id, is_unparsed}
use arkade_runtime.Delegation.Journal.{
  SpendingDelegation, SpendingDelegationEvent, delegation_phases, known_phase,
  valid_delegation_stream_phase,
}

abbrev pub delegation_set_vault_program : Bytes
delegation_set_vault_program = codes "vault-policy-v1"

-- 30 days in nanoseconds.
abbrev pub thirty_days : ℕ
thirty_days = 2592000000000000

-- `err != nil || o.ValidAt < created.Unix() || o.ValidAt > created.Add(30*24*time.Hour).Unix()`
abbrev pub window_bad : Option ℕ → ℤ → Bool
window_bad none valid_at = true
window_bad (some created) valid_at =
    ltb_ℤ valid_at (seconds created) || ltb_ℤ (seconds (created + thirty_days)) valid_at

unfoldable pub validate_delegation_set_fields : SpendingDelegation → Result (Unit {0})
validate_delegation_set_fields o = do
  refuse (not (bytes_eq o.program delegation_set_vault_program)) Error.bad_policy
  refuse
      (not (canonical_renewal_hex o.descriptor_hash 32)
        || not (canonical_renewal_hex o.set_id 16)
        || not (canonical_renewal_hex o.set_digest 32))
      Error.bad_policy
  refuse
      (ltb_ℤ o.set_size (pos 1)
        || ltb_ℤ (pos 50) o.set_size
        || is_neg o.set_index
        || not (ltb_ℤ o.set_index o.set_size))
      Error.bad_policy

module _ (c : Codec) where
  unfoldable pub validate_delegation : SpendingDelegation → Result (Unit {0})
  validate_delegation o = do
    refuse
        (window_bad (c.parse_time o.created_at) o.valid_at
          || not (canonical_renewal_hex o.operation_id 16)
          || not (
              bytes_eq o.program delegation_set_vault_program
              && valid_delegation_vault_id c o.vault_id)
          || not (canonical_renewal_hex o.input_txid 32)
          || not (canonical_renewal_hex o.plan_digest 32)
          || is_neg o.fee_sats
          || ltb_ℤ (pos 20000) o.fee_sats
          || not (ltb_ℤ o.valid_at o.expires_at)
          || ltb_ℤ (int64_add o.valid_at (pos 86400)) o.expires_at
          || is_empty o.plan
          || ltb 65536 (length o.plan)
          || not (c.json_valid o.plan))
        Error.bad_policy
    validate_delegation_set_fields o

  unfoldable pub validate_delegation_event : SpendingDelegationEvent → Result (Unit {0})
  validate_delegation_event e = do
    refuse
        (not (canonical_renewal_hex e.operation_id 16)
          || ltb 4000000 (length e.evidence)
          || not (c.json_valid e.evidence))
        Error.bad_policy
    refuse (is_unparsed (c.parse_time e.created_at)) Error.bad_time
    if valid_delegation_stream_phase e.phase
        then refuse (ltb 131072 (length e.evidence)) Error.bad_policy
        else refuse (not (known_phase e.phase delegation_phases)) Error.bad_policy
