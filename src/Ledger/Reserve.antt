-- ===== src/Ledger/Reserve.antt =====
-- ReserveVtxoOperation of internal/policy/vtxo_ledger.go, and observeEconomicOutflowsLocked of
-- internal/policy/ledger.go. The file of the external sequence stands beside the database, and the
-- environment decides how far the disk and the final COMMIT get.
use arkade_runtime.Base.{ℕ, Bool, true, false, ◌&&◌, ◌||◌, not, Option, none, some, List, [], ◌∷◌}
use arkade_runtime.Base.Tests.{ltb, ◌==◌}
use arkade_runtime.Base.Lists.{length}
use arkade_runtime.Base.Int64.{ℤ, is_neg, ltb_ℤ, int64_sub}
use arkade_runtime.Base.Result.{Result, Error, ok, err, ◌>>=◌, ◌>>◌, refuse}
use arkade_runtime.Base.Bytes.{Bytes, bytes_eq, is_empty}
use arkade_runtime.Vtxo.State.{is_reserved}
use arkade_runtime.Vtxo.Record.{VtxoOperation, VtxoOperationInput}
use arkade_runtime.Vtxo.Seal.{seal_vtxo_operation, seal_vtxo_operation_input}
use arkade_runtime.Sequence.Observe.{Disk, Monotonic, observe}
use arkade_runtime.Sequence.Base.{current_economic_sequence}
use arkade_runtime.Ledger.Store.{Platform, Db}
use arkade_runtime.Ledger.Allowance.{add_outflow, integrity_key_copy, spent_in_window}
use arkade_runtime.Ledger.SignCounts.{has_vault}
use arkade_runtime.Ledger.Guards.{
  max_reserved_vtxo_inputs, same_outpoint, abort_expired, reject_overlapping, reject_concurrent,
}

-- The fields of the Ledger object that do not change while it runs.
pub record Ledger : Type 0 where
  pub network : Bytes
  pub integrity_key : Bytes
  pub monotonic : Option Monotonic

-- The database and the file beside it.
pub record State (T : Type 0) : Type 0 where
  pub db : Db T
  pub file : Option Bytes

-- The readings of the clock in one reservation: for expiry, and one that stands for all those of the
-- allowance.
pub record Clock : Type 0 where
  pub expiry : ℕ
  pub allowance : ℕ

-- Whether a row has the primary key.
unfoldable pub has_operation : Bytes → List VtxoOperation → Bool
has_operation id [] = false
has_operation id (o ∷ os) = bytes_eq o.operation_id id || has_operation id os

unfoldable pub has_input : VtxoOperationInput → List VtxoOperationInput → Bool
has_input i [] = false
has_input i (x ∷ xs) =
    (bytes_eq x.operation_id i.operation_id && same_outpoint x i) || has_input i xs

-- INSERT INTO vtxo_operation, with the table's primary and foreign key.
unfoldable pub insert_operation : {T : Type 0} → VtxoOperation → Db T → Result (Db T)
insert_operation r db = do
  refuse (has_operation r.operation_id db.operations) Error.row_exists
  refuse (not (has_vault r.vault_id db.vaults)) Error.no_rows
  ok (record db { operations = r ∷ db.operations })

module _ (p : Platform) where
  open p use {hmac, reject_active_renewal, invalidate_armed}

  -- The loop that seals and inserts the inputs.
  unfoldable pub insert_inputs :
      Bytes
      → Bytes
      → List VtxoOperationInput
      → List VtxoOperationInput
      → Result (List VtxoOperationInput)
  insert_inputs key id [] rows = ok rows
  insert_inputs key id (i ∷ is) rows = do
    sealed ← seal_vtxo_operation_input hmac (record i { operation_id = id }) key
    refuse (has_input sealed rows) Error.row_exists
    insert_inputs key id is (sealed ∷ rows)

  -- `if usedAmt > remainingCap`, `if need > remainingCap-usedAmt`
  unfoldable pub check_cap : ℤ → ℤ → ℤ → Result (Unit {0})
  check_cap cap used need = do
    refuse (ltb_ℤ cap used) Error.allowance_exceeded
    refuse (ltb_ℤ (int64_sub cap used) need) Error.allowance_exceeded

  unfoldable pub check_request : VtxoOperation → List VtxoOperationInput → ℤ → Result (Unit {0})
  check_request rec inputs cap = do
    refuse (is_empty rec.operation_id || is_empty rec.vault_id) Error.identity_required
    refuse (not (is_reserved rec.state)) Error.bad_state
    refuse (is_neg cap) Error.negative_allowance
    refuse (length inputs == 0 || ltb max_reserved_vtxo_inputs (length inputs)) Error.input_count

  -- From the first guard to the last INSERT; an error rolls all of it back.
  unfoldable pub reserve_rows :
      Bytes → Clock → VtxoOperation → List VtxoOperationInput → ℤ → Db p.Lanes → Result (Db p.Lanes)
  reserve_rows integrity_key clock rec inputs cap db = do
    check_request rec inputs cap
    db1 ← abort_expired p integrity_key rec.vault_id clock.expiry db
    reject_overlapping p integrity_key rec.operation_id inputs db1
    reject_concurrent p integrity_key rec.vault_id rec.operation_id db1
    reject_active_renewal db1.lanes integrity_key rec.vault_id
    lanes ← invalidate_armed db1.lanes integrity_key rec.vault_id inputs clock.allowance
    used ←
        spent_in_window p integrity_key clock.allowance (record db1 { lanes = lanes }) rec.vault_id
    need ← add_outflow rec.amount_sats rec.fee_sats
    check_cap cap used need
    key ← integrity_key_copy integrity_key
    sealed ← seal_vtxo_operation hmac rec key
    db2 ← insert_operation sealed (record db1 { lanes = lanes })
    rows ← insert_inputs key rec.operation_id inputs db2.inputs
    ok (record db2 { inputs = rows })

  -- observeEconomicOutflowsLocked
  unfoldable pub observe_counted :
      Option Monotonic → Disk → Option Bytes → Result ℕ → Option Bytes × Result (Unit {0})
  observe_counted none disk file count = (file, ok tt)
  observe_counted (some m) disk file (err e) = (file, err e)
  observe_counted (some m) disk file (ok n) = observe hmac (some m) disk file n

  unfoldable pub observe_economic_outflows :
      Ledger → Disk → Option Bytes → Db p.Lanes → Option Bytes × Result (Unit {0})
  unfolding observe_counted
  observe_economic_outflows l disk file db =
      observe_counted l.monotonic disk file
        (current_economic_sequence p l.network l.integrity_key db)

  -- COMMIT after the observation, and ROLLBACK on every other way out.
  unfoldable pub settle :
      Bool
      → State p.Lanes
      → Db p.Lanes
      → Option Bytes × Result (Unit {0})
      → State p.Lanes × Result (Unit {0})
  settle commits s db (file, err e) = (record s { file = file }, err e)
  settle true s db (file, ok _) = (record { db = db; file = file }, ok tt)
  settle false s db (file, ok _) = (record s { file = file }, err Error.io_failure)

  abbrev pub finish :
      Ledger → Disk → Bool → State p.Lanes → Result (Db p.Lanes) → State p.Lanes × Result (Unit {0})
  finish l disk commits s (err e) = (s, err e)
  finish l disk commits s (ok db) = settle commits s db (observe_economic_outflows l disk s.file db)

  unfoldable pub reserve_vtxo_operation :
      Ledger
      → Clock
      → Disk
      → Bool
      → VtxoOperation
      → List VtxoOperationInput
      → ℤ
      → State p.Lanes
      → State p.Lanes × Result (Unit {0})
  unfolding settle observe_economic_outflows
  reserve_vtxo_operation l clock disk commits rec inputs cap s =
      finish l disk commits s (reserve_rows l.integrity_key clock rec inputs cap s.db)
