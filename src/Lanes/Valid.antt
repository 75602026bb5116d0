-- ===== src/Lanes/Valid.antt =====
-- What validateDelegation of internal/policy/spending_delegation.go asks of a delegation.
use arkade_runtime.Base.{ℕ, ◌<◌, ◌≤◌, ◌≡◌, true, false, ◌&&◌, ◌||◌, not, [], ◌∷◌, arith}
use arkade_runtime.Base.Tests.{ltb}
use arkade_runtime.Base.Lists.{length}
use arkade_runtime.Base.Int64.{pos, is_neg, ltb_ℤ, int64_add}
use arkade_runtime.Base.Result.{Error, ok, refuse, from_ok}
use arkade_runtime.Base.Bytes.{Bytes, bytes_eq, bytes_eq_sound, is_empty}
use arkade_runtime.Renewal.Journal.{canonical_renewal_hex}
use arkade_runtime.Renewal.Evidence.{Codec}
use arkade_runtime.Renewal.Phases.{valid_delegation_vault_id}
use arkade_runtime.Delegation.Journal.{SpendingDelegation}
use arkade_runtime.Delegation.Validate.{
  window_bad, delegation_set_vault_program, validate_delegation,
}
use arkade_runtime.Lanes.Cost.{valid_fee}

filled : (b : Bytes) → is_empty b ≡ false → 0 < length b
filled [] h = cc
filled (x ∷ b) h = omega arith

module _ (c : Codec) where
  pub record Sound (o : SpendingDelegation) : Type 0 where
    pub fee : (f : ℕ) × (o.fee_sats ≡ pos f) × (f ≤ 20000)
    pub program : o.program ≡ delegation_set_vault_program
    pub named : valid_delegation_vault_id c o.vault_id ≡ true
    pub id : canonical_renewal_hex o.operation_id 16 ≡ true
    pub input : canonical_renewal_hex o.input_txid 32 ≡ true
    pub digest : canonical_renewal_hex o.plan_digest 32 ≡ true
    pub timely : window_bad (c.parse_time o.created_at) o.valid_at ≡ false
    pub lasts : ltb_ℤ o.valid_at o.expires_at ≡ true
    pub within_a_day : ltb_ℤ (int64_add o.valid_at (pos 86400)) o.expires_at ≡ false
    pub planned : (0 < length o.plan) × (length o.plan ≤ 65536)
    pub json : c.json_valid o.plan ≡ true

  pub validate_delegation-Sound :
      (o : SpendingDelegation) → validate_delegation c o ≡ ok tt → Sound o
  unfolding validate_delegation
  validate_delegation-Sound o h =
      from_ok
        (refuse
          (window_bad (c.parse_time o.created_at) o.valid_at
            || not (canonical_renewal_hex o.operation_id 16)
            || not (
                bytes_eq o.program delegation_set_vault_program
                && valid_delegation_vault_id c o.vault_id)
            || not (canonical_renewal_hex o.input_txid 32)
            || not (canonical_renewal_hex o.plan_digest 32)
            || is_neg o.fee_sats
            || ltb_ℤ (pos 20000) o.fee_sats
            || not (ltb_ℤ o.valid_at o.expires_at)
            || ltb_ℤ (int64_add o.valid_at (pos 86400)) o.expires_at
            || is_empty o.plan
            || ltb 65536 (length o.plan)
            || not (c.json_valid o.plan))
          Error.bad_policy)
        _ h
        λ _ fine _. record {
          fee = valid_fee c o h;
          program = bytes_eq_sound o.program delegation_set_vault_program (ground arith);
          named = ground arith;
          id = ground arith;
          input = ground arith;
          digest = ground arith;
          timely = ground arith;
          lasts = ground arith;
          within_a_day = ground arith;
          planned = (filled o.plan (ground arith), ground arith);
          json = ground arith;
        }
