-- ===== src/Ledger/Guards.antt =====
-- The checks that come before a reservation, of internal/policy/vtxo_ledger.go:
-- abortExpiredVtxoLocked, rejectOverlappingVtxoInputs and rejectConcurrentVtxoOperationLocked.
use arkade_runtime.Base.{ℕ, Bool, false, ◌&&◌, ◌||◌, not, List, [], ◌∷◌, ◌++◌}
use arkade_runtime.Base.Tests.{ltb, ◌==◌, if◌then◌else◌}
use arkade_runtime.Base.Lists.{length}
use arkade_runtime.Base.Int64.{ℤ, pos, negsuc}
use arkade_runtime.Base.Result.{Result, Error, ok, ◌>>=◌, ◌>>◌, refuse}
use arkade_runtime.Base.Bytes.{Bytes, bytes_eq, bytes_lt, is_empty}
use arkade_runtime.Vtxo.State.{
  VtxoState, aborted, is_reserved, vtxo_state_locks_inputs, vtxo_state_blocks_new_operation,
}
use arkade_runtime.Vtxo.Record.{VtxoOperation, VtxoOperationInput}
use arkade_runtime.Vtxo.Seal.{
  seal_vtxo_operation, verify_vtxo_operation, verify_vtxo_operation_input,
}
use arkade_runtime.Ledger.Store.{Platform, Db}
use arkade_runtime.Ledger.Allowance.{integrity_key_copy, operations_of, or_fail}

abbrev pub max_reserved_vtxo_inputs : ℕ
max_reserved_vtxo_inputs = 50

abbrev pub int_eq : ℤ → ℤ → Bool
int_eq (pos m) (pos n) = m == n
int_eq (negsuc m) (negsuc n) = m == n
int_eq _ _ = false

-- txid = ? AND vout = ?
unfoldable pub same_outpoint : VtxoOperationInput → VtxoOperationInput → Bool
same_outpoint i j = bytes_eq i.txid j.txid && int_eq i.vout j.vout

-- The disjunction of the WHERE clause.
unfoldable pub names_outpoint : List VtxoOperationInput → VtxoOperationInput → Bool
names_outpoint [] i = false
names_outpoint (x ∷ xs) i = same_outpoint i x || names_outpoint xs i

-- JOIN vtxo_operation AS o ON o.operation_id = i.operation_id, for one input row.
unfoldable pub parents_of : VtxoOperationInput → List VtxoOperation → List VtxoOperation
parents_of i [] = []
parents_of i (o ∷ os) =
    if bytes_eq o.operation_id i.operation_id then o ∷ parents_of i os else parents_of i os

-- UPDATE vtxo_operation SET state = ?, integrity_mac = ? WHERE operation_id = ? AND state = 'reserved'
unfoldable pub update_state : VtxoOperation → List VtxoOperation → List VtxoOperation
update_state r [] = []
update_state r (o ∷ os) =
    (if bytes_eq o.operation_id r.operation_id && is_reserved o.state
      then record o { state = r.state; integrity_mac = r.integrity_mac }
      else o)
    ∷ update_state r os

module _ (p : Platform) where
  open p use {hmac, parse_time, format_time}

  -- state = 'reserved' AND expires_at != '' AND expires_at <= ?, for a row of the vault.
  unfoldable pub looks_expired : ℕ → VtxoOperation → Bool
  looks_expired now r =
      is_reserved r.state
      && not (is_empty r.expires_at)
      && not (bytes_lt (format_time now) r.expires_at)

  -- The rows that the loop collects in `expired`.
  unfoldable pub collect_expired : Bytes → ℕ → List VtxoOperation → Result (List VtxoOperation)
  collect_expired key now [] = ok []
  collect_expired key now (r ∷ rs) =
      let others = collect_expired key now rs in
      if looks_expired now r
      then (do
        verify_vtxo_operation hmac r key
        exp ← or_fail (parse_time r.expires_at) Error.bad_time
        rest ← others
        ok (if ltb now exp then rest else r ∷ rest))
      else others

  -- The loop that seals each expired row as aborted and writes it back.
  unfoldable pub abort_rows :
      Bytes → List VtxoOperation → List VtxoOperation → Result (List VtxoOperation)
  abort_rows key [] rows = ok rows
  abort_rows key (r ∷ rs) rows = do
    sealed ← seal_vtxo_operation hmac (record r { state = aborted }) key
    abort_rows key rs (update_state sealed rows)

  unfoldable pub abort_expired : Bytes → Bytes → ℕ → Db p.Lanes → Result (Db p.Lanes)
  abort_expired integrity_key vault now db = do
    key ← integrity_key_copy integrity_key
    expired ← collect_expired key now (operations_of vault db.operations)
    rows ← abort_rows key expired db.operations
    ok (record db { operations = rows })

  -- Verifies the joined rows of one input, and refuses on a state that locks it.
  unfoldable pub check_parents :
      Bytes → VtxoOperationInput → List VtxoOperation → Result (List (Bytes × VtxoState))
  check_parents key i [] = ok []
  check_parents key i (o ∷ os) = do
    verify_vtxo_operation hmac o key
    verify_vtxo_operation_input hmac i key
    refuse (not (bytes_eq i.operation_id o.operation_id)) Error.parent_mismatch
    rest ← check_parents key i os
    ok ((o.operation_id, o.state) ∷ rest)

  -- The authenticated matches of the JOIN.
  unfoldable pub matches :
      Bytes
      → List VtxoOperation
      → List VtxoOperationInput
      → List VtxoOperationInput
      → Result (List (Bytes × VtxoState))
  matches key ops wanted [] = ok []
  matches key ops wanted (i ∷ is) =
      let others = matches key ops wanted is in
      if names_outpoint wanted i
      then (do here ← check_parents key i (parents_of i ops); rest ← others; ok (here ++ rest))
      else others

  -- `for _, match := range matches`
  unfoldable pub refuse_locked : Bytes → List (Bytes × VtxoState) → Result (Unit {0})
  refuse_locked operation_id [] = ok tt
  refuse_locked operation_id ((id, s) ∷ ms) = do
    refuse (not (bytes_eq id operation_id) && vtxo_state_locks_inputs s) Error.outpoint_reserved
    refuse_locked operation_id ms

  unfoldable pub reject_overlapping :
      Bytes → Bytes → List VtxoOperationInput → Db p.Lanes → Result (Unit {0})
  reject_overlapping integrity_key operation_id wanted db = do
    refuse (length wanted == 0 || ltb max_reserved_vtxo_inputs (length wanted)) Error.input_count
    key ← integrity_key_copy integrity_key
    found ← matches key db.operations wanted db.inputs
    refuse_locked operation_id found

  -- The loop that sets `blocked`.
  unfoldable pub any_blocking : Bytes → Bytes → Bool → List VtxoOperation → Result Bool
  any_blocking key operation_id blocked [] = ok blocked
  any_blocking key operation_id blocked (r ∷ rs) = do
    verify_vtxo_operation hmac r key
    any_blocking key operation_id
        (blocked
          || (not (bytes_eq r.operation_id operation_id)
              && vtxo_state_blocks_new_operation r.state))
        rs

  unfoldable pub reject_concurrent : Bytes → Bytes → Bytes → Db p.Lanes → Result (Unit {0})
  reject_concurrent integrity_key vault operation_id db = do
    key ← integrity_key_copy integrity_key
    blocked ← any_blocking key operation_id false (operations_of vault db.operations)
    refuse blocked Error.operation_active
