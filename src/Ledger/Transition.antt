-- ===== src/Ledger/Transition.antt =====
-- The life of a reserved operation: TransitionVtxoOperation, CommitSignedVtxoOperation,
-- VerifySignedVtxoReplay, updateVtxoOperation and the readers of internal/policy/vtxo_ledger.go.
use arkade_runtime.Base.{ℕ, suc, Bool, true, false, ◌&&◌, ◌||◌, not, List, [], ◌∷◌}
use arkade_runtime.Base.Tests.{◌==◌, if◌then◌else◌}
use arkade_runtime.Base.Lists.{length}
use arkade_runtime.Base.Result.{Result, Error, ok, err, ◌>>=◌, ◌>>◌, refuse}
use arkade_runtime.Base.Bytes.{Bytes, bytes_eq, is_empty}
use arkade_runtime.Vtxo.State.{VtxoState, reserved, is_signed, state_eq, valid_vtxo_transition}
use arkade_runtime.Vtxo.Record.{VtxoOperation, VtxoOperationInput}
use arkade_runtime.Vtxo.Seal.{
  seal_vtxo_operation, verify_vtxo_operation, verify_vtxo_operation_input,
}
use arkade_runtime.Ledger.Store.{Platform, Db}
use arkade_runtime.Ledger.Allowance.{integrity_key_copy, operations_of}
use arkade_runtime.Ledger.SignCounts.{advance_sign_count_locked, verify_sign_count_replay_locked}

-- WHERE operation_id = ? AND vault_id = ? AND state = ?
unfoldable pub is_expected : VtxoState → VtxoOperation → VtxoOperation → Bool
is_expected expected rec o =
    bytes_eq o.operation_id rec.operation_id
    && bytes_eq o.vault_id rec.vault_id
    && state_eq o.state expected

-- updateVtxoOperation: the rows after the UPDATE, and RowsAffected.
unfoldable pub update_vtxo_operation :
    VtxoState → VtxoOperation → List VtxoOperation → List VtxoOperation × ℕ
update_vtxo_operation expected rec [] = ([], 0)
update_vtxo_operation expected rec (o ∷ os) =
    let (rest, n) = update_vtxo_operation expected rec os in
    if is_expected expected rec o then (rec ∷ rest, suc n) else (o ∷ rest, n)

unfoldable pub find_operation : Bytes → List VtxoOperation → Result VtxoOperation
find_operation id [] = err Error.no_rows
find_operation id (o ∷ os) = if bytes_eq o.operation_id id then ok o else find_operation id os

unfoldable pub inputs_of : Bytes → List VtxoOperationInput → List VtxoOperationInput
inputs_of id [] = []
inputs_of id (i ∷ is) = if bytes_eq i.operation_id id then i ∷ inputs_of id is else inputs_of id is

module _ (p : Platform) where
  open p use {hmac}

  unfoldable pub load_vtxo_operation : Bytes → Bytes → Db p.Lanes → Result VtxoOperation
  load_vtxo_operation integrity_key id db = do
    key ← integrity_key_copy integrity_key
    rec ← find_operation id db.operations
    verify_vtxo_operation hmac rec key
    ok rec

  unfoldable pub get_vtxo_operation : Bytes → Bytes → Db p.Lanes → Result VtxoOperation
  get_vtxo_operation integrity_key id db = do
    refuse (is_empty id) Error.identity_required
    load_vtxo_operation integrity_key id db

  unfoldable pub verify_inputs : Bytes → List VtxoOperationInput → Result (List VtxoOperationInput)
  verify_inputs key [] = ok []
  verify_inputs key (i ∷ is) = do
    verify_vtxo_operation_input hmac i key
    rest ← verify_inputs key is
    ok (i ∷ rest)

  -- Less the ORDER BY.
  unfoldable pub load_vtxo_operation_inputs :
      Bytes → Bytes → Db p.Lanes → Result (List VtxoOperationInput)
  load_vtxo_operation_inputs integrity_key id db = do
    key ← integrity_key_copy integrity_key
    verify_inputs key (inputs_of id db.inputs)

  unfoldable pub verify_operations : Bytes → List VtxoOperation → Result (List VtxoOperation)
  verify_operations key [] = ok []
  verify_operations key (o ∷ os) = do
    verify_vtxo_operation hmac o key
    rest ← verify_operations key os
    ok (o ∷ rest)

  unfoldable pub list_vtxo_operations : Bytes → Bytes → Db p.Lanes → Result (List VtxoOperation)
  list_vtxo_operations integrity_key vault db = do
    refuse (is_empty vault) Error.identity_required
    key ← integrity_key_copy integrity_key
    verify_operations key (operations_of vault db.operations)

  -- The outcome of a compare-and-swap: the current row, and whether it was swapped.
  abbrev pub Swap : Type 0
  Swap = Db p.Lanes × VtxoOperation × Bool

  abbrev pub report : Bytes → VtxoOperation → Db p.Lanes → List VtxoOperation × ℕ → Result Swap
  report integrity_key rec db (rows, n) =
      if n == 1
      then ok (record db { operations = rows }, rec, true)
      else (load_vtxo_operation integrity_key rec.operation_id (record db { operations = rows })
          >>= λ current. ok (record db { operations = rows }, current, false))

  unfoldable pub transition_vtxo_operation :
      Bytes → VtxoState → VtxoOperation → Db p.Lanes → Result Swap
  transition_vtxo_operation integrity_key expected rec db = do
    refuse (is_empty rec.operation_id || is_empty rec.vault_id) Error.identity_required
    refuse (not (valid_vtxo_transition expected rec.state)) Error.bad_transition
    key ← integrity_key_copy integrity_key
    sealed ← seal_vtxo_operation hmac rec key
    report integrity_key sealed db (update_vtxo_operation expected sealed db.operations)

  -- What a lost swap returns; the transaction is rolled back.
  abbrev pub report_replay : Bytes → Bytes → Bytes → ℕ → Db p.Lanes → VtxoOperation → Result Swap
  report_replay integrity_key vault credential count db current =
      if is_signed current.state
      then (verify_sign_count_replay_locked hmac integrity_key vault credential count db.sign_counts
          >> ok (db, current, false))
      else ok (db, current, false)

  abbrev pub commit_swap :
      Bytes → VtxoOperation → Bytes → ℕ → Db p.Lanes → List VtxoOperation × ℕ → Result Swap
  commit_swap integrity_key rec credential count db (rows, n) =
      if n == 1
      then (advance_sign_count_locked hmac integrity_key db.vaults rec.vault_id credential count
            db.sign_counts
          >>= λ counts. ok (record db { operations = rows; sign_counts = counts }, rec, true))
      else (load_vtxo_operation integrity_key rec.operation_id (record db { operations = rows })
          >>= report_replay integrity_key rec.vault_id credential count db)

  unfoldable pub commit_signed_vtxo_operation :
      Bytes → VtxoOperation → Bytes → ℕ → Db p.Lanes → Result Swap
  commit_signed_vtxo_operation integrity_key rec credential count db = do
    refuse
        (is_empty rec.operation_id
          || is_empty rec.vault_id
          || is_empty credential
          || not (is_signed rec.state))
        Error.identity_required
    key ← integrity_key_copy integrity_key
    sealed ← seal_vtxo_operation hmac rec key
    commit_swap integrity_key sealed credential count db
        (update_vtxo_operation reserved sealed db.operations)

  unfoldable pub verify_signed_vtxo_replay :
      Bytes → Bytes → Bytes → Bytes → ℕ → Db p.Lanes → Result (Unit {0})
  verify_signed_vtxo_replay integrity_key id vault credential count db = do
    refuse (is_empty id || is_empty vault || is_empty credential) Error.identity_required
    refuse (not (length integrity_key == 32)) Error.key_required
    rec ← load_vtxo_operation integrity_key id db
    refuse (not (bytes_eq rec.vault_id vault) || not (is_signed rec.state)) Error.replay_mismatch
    verify_sign_count_replay_locked hmac integrity_key vault credential count db.sign_counts
