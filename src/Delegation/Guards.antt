-- ===== src/Delegation/Guards.antt =====
-- What delegations ask of a payment, and a payment of delegations, in
-- internal/policy/spending_delegation.go: insertDelegationEvent, invalidateArmedDelegations,
-- rejectDispatchedDelegation and delegationAllowance, on the snapshots that
-- loadSpendingDelegations has authenticated.
use arkade_runtime.Base.{
  ℕ, ◌+◌, ◌/◌, ◌%◌, Bool, true, false, ◌&&◌, ◌||◌, not, Option, none, some, List, [], ◌∷◌,
}
use arkade_runtime.Base.Tests.{ltb, ◌==◌, if◌then◌else◌}
use arkade_runtime.Base.Int64.{ℤ, pos, negsuc, ltb_ℤ, max_int64, int64_add, int64_sub, uint32_mod}
use arkade_runtime.Base.Result.{Result, Error, ok, ◌>>=◌, ◌>>◌, refuse}
use arkade_runtime.Base.Bytes.{Bytes, codes, bytes_eq}
use arkade_runtime.Vtxo.Record.{VtxoOperationInput}
use arkade_runtime.Ledger.Allowance.{allowance_window}
use arkade_runtime.Renewal.Evidence.{Codec}
use arkade_runtime.Renewal.Phases.{time_or_zero}
use arkade_runtime.Delegation.Journal.{
  confirmed, invalidated, SpendingDelegation, SpendingDelegationEvent, SpendingDelegationSnapshot,
  find_event, delegation_terminal,
}
use arkade_runtime.Delegation.Validate.{validate_delegation_event}

abbrev pub is_nil {ℓ} : {A : Type ℓ} → List A → Bool
is_nil [] = true
is_nil (e ∷ es) = false

abbrev pub hex_digit : ℕ → ℕ
hex_digit n = if ltb n 10 then 48 + n else 87 + n

-- hex.EncodeToString
unfoldable pub hex_encode : Bytes → Bytes
hex_encode [] = []
hex_encode (b ∷ bs) = hex_digit (b / 16) ∷ hex_digit (b % 16) ∷ hex_encode bs

-- `in.Vout >= 0 && uint32(in.Vout) == s.Operation.InputVout`
abbrev pub same_vout : ℤ → ℕ → Bool
same_vout (pos v) w = v % uint32_mod == w
same_vout (negsuc v) w = false

unfoldable pub takes_input : SpendingDelegation → List VtxoOperationInput → Bool
takes_input o [] = false
takes_input o (i ∷ is) =
    (bytes_eq (hex_encode i.txid) o.input_txid && same_vout i.vout o.input_vout) || takes_input o is

-- Open, and no longer only armed.
abbrev pub owns_inputs : SpendingDelegationSnapshot → Bool
owns_inputs s = not (is_nil s.events) && not (delegation_terminal s.events)

-- INSERT INTO light_delegation_event, on the snapshot that the event belongs to.
abbrev pub with_event :
    SpendingDelegationEvent → SpendingDelegationSnapshot → SpendingDelegationSnapshot
with_event e s = record s { events = e ∷ s.events }

-- rejectDispatchedDelegation
unfoldable pub reject_dispatched_delegation :
    Bytes → List SpendingDelegationSnapshot → Result (Unit {0})
reject_dispatched_delegation vault [] = ok tt
reject_dispatched_delegation vault (s ∷ ss) = do
  refuse (bytes_eq s.operation.vault_id vault && owns_inputs s) Error.operation_active
  reject_dispatched_delegation vault ss

abbrev pub invalidation : SpendingDelegation → Bytes → SpendingDelegationEvent
invalidation o stamp = record {
  operation_id = o.operation_id;
  phase = invalidated;
  evidence = codes "{\"reason\":\"payment reservation\"}";
  created_at = stamp;
}

module _ (c : Codec) where
  -- One round of the loop of invalidateArmedDelegations.
  unfoldable pub invalidate_one :
      Bytes
      → List VtxoOperationInput
      → Bytes
      → SpendingDelegationSnapshot
      → Result SpendingDelegationSnapshot
  invalidate_one vault inputs stamp s =
      if not (bytes_eq s.operation.vault_id vault) || delegation_terminal s.events
      then ok s
      else (do
        refuse (not (is_nil s.events)) Error.operation_active
        if takes_input s.operation inputs
            then (validate_delegation_event c (invalidation s.operation stamp)
                >> ok (with_event (invalidation s.operation stamp) s))
            else ok s)

  unfoldable pub invalidate_armed_delegations :
      Bytes
      → List VtxoOperationInput
      → Bytes
      → List SpendingDelegationSnapshot
      → Result (List SpendingDelegationSnapshot)
  unfolding invalidate_one
  invalidate_armed_delegations vault inputs stamp [] = ok []
  invalidate_armed_delegations vault inputs stamp (s ∷ ss) = do
    s' ← invalidate_one vault inputs stamp s
    ss' ← invalidate_armed_delegations vault inputs stamp ss
    ok (s' ∷ ss')

  abbrev pub confirmed_long_ago : ℕ → Option SpendingDelegationEvent → Bool
  confirmed_long_ago now none = true
  confirmed_long_ago now (some e) =
      ltb (time_or_zero (c.parse_time e.created_at) + allowance_window) now

  -- Whether the loop says `continue`.
  unfoldable pub costs_nothing : Bytes → ℕ → SpendingDelegationSnapshot → Bool
  costs_nothing vault now s =
      not (bytes_eq s.operation.vault_id vault)
      || is_nil s.events
      || (delegation_terminal s.events && confirmed_long_ago now (find_event confirmed s.events))

  unfoldable pub add_fee : ℤ → ℤ → Result ℤ
  add_fee total fee = do
    refuse (ltb_ℤ (int64_sub max_int64 fee) total) Error.period_overflow
    ok (int64_add total fee)

  unfoldable pub sum_delegations : Bytes → ℕ → ℤ → List SpendingDelegationSnapshot → Result ℤ
  sum_delegations vault now total [] = ok total
  sum_delegations vault now total (s ∷ ss) = do
    total' ← (if costs_nothing vault now s then ok total else add_fee total s.operation.fee_sats)
    sum_delegations vault now total' ss

  -- delegationAllowance
  unfoldable pub delegation_allowance : Bytes → ℕ → List SpendingDelegationSnapshot → Result ℤ
  unfolding sum_delegations
  delegation_allowance vault now all = sum_delegations vault now (pos 0) all
