-- ===== src/Lanes/Overlap.antt =====
-- rejectDelegationPaymentOverlap of internal/policy/spending_delegation.go, on the rows of the payment
-- ledger.
use arkade_runtime.Base.{Bool, false, ◌&&◌, ◌||◌, not, List, [], ◌∷◌}
use arkade_runtime.Base.Tests.{◌==◌, if◌then◌else◌}
use arkade_runtime.Base.Lists.{length}
use arkade_runtime.Base.Int64.{pos}
use arkade_runtime.Base.Result.{Result, Error, ok, ◌>>=◌, ◌>>◌, refuse}
use arkade_runtime.Base.Bytes.{Bytes, bytes_eq}
use arkade_runtime.Vtxo.State.{vtxo_state_blocks_new_operation}
use arkade_runtime.Vtxo.Record.{VtxoOperation, VtxoOperationInput}
use arkade_runtime.Vtxo.Seal.{verify_vtxo_operation, verify_vtxo_operation_input}
use arkade_runtime.Ledger.Guards.{int_eq}
use arkade_runtime.Delegation.Journal.{SpendingDelegation}
use arkade_runtime.Delegation.Guards.{hex_encode}

-- A map from ids to `true`, as the list of its keys.
unfoldable pub has_id : Bytes → List Bytes → Bool
has_id id [] = false
has_id id (x ∷ xs) = bytes_eq x id || has_id id xs

unfoldable pub add_id : Bytes → List Bytes → List Bytes
add_id id ids = if has_id id ids then ids else id ∷ ids

unfoldable pub takes_outpoint : SpendingDelegation → VtxoOperationInput → Bool
takes_outpoint o i = bytes_eq (hex_encode i.txid) o.input_txid && int_eq (pos o.input_vout) i.vout

module _ (hmac : Bytes → Bytes → Bytes) where
  -- The loop over the rows: the ids of the vault's active payments.
  unfoldable pub active_payments :
      Bytes → Bytes → List Bytes → List VtxoOperation → Result (List Bytes)
  unfolding add_id
  active_payments key vault ids [] = ok ids
  active_payments key vault ids (r ∷ rs) = do
    verify_vtxo_operation hmac r key
    active_payments key vault
        (if bytes_eq r.vault_id vault && vtxo_state_blocks_new_operation r.state
          then add_id r.operation_id ids
          else ids)
        rs

  -- The loop over the inputs: `found` and `overlap`.
  unfoldable pub scan_inputs :
      Bytes
      → SpendingDelegation
      → List Bytes
      → List Bytes
      → Bool
      → List VtxoOperationInput
      → Result (List Bytes × Bool)
  unfolding add_id
  scan_inputs key o active found overlap [] = ok (found, overlap)
  scan_inputs key o active found overlap (i ∷ is) = do
    verify_vtxo_operation_input hmac i key
    scan_inputs key o active
        (if has_id i.operation_id active then add_id i.operation_id found else found)
        (overlap || (has_id i.operation_id active && takes_outpoint o i)) is

  unfoldable pub reject_delegation_payment_overlap :
      Bytes → SpendingDelegation → List VtxoOperation → List VtxoOperationInput → Result (Unit {0})
  unfolding active_payments scan_inputs
  reject_delegation_payment_overlap key o operations inputs = do
    active ← active_payments key o.vault_id [] operations
    (found, overlap) ← scan_inputs key o active [] false inputs
    refuse (overlap || not (length found == length active)) Error.operation_active
