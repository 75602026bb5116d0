-- ===== src/Examples/Reservations.antt =====
-- A payment that is reserved, signed and backed up.
use arkade_runtime.Base.{ℕ, ◌≡◌, ◌+◌, ◌%◌, ◌<◌, ◌≤◌, refl, true, false, ◌||◌, [], ◌∷◌, ◌⊎◌, arith}
use arkade_runtime.Base.Lists.{length}
use arkade_runtime.Base.Int64.{pos, is_neg, int64_half}
use arkade_runtime.Base.Result.{Error, ok, err}
use arkade_runtime.Base.Bytes.{codes, Bytes, bytes_eq}
use arkade_runtime.Vtxo.State.{state_bytes, require_vtxo_state}
use arkade_runtime.Vtxo.Canonical.{
  append_credential_field, append_fields, change_shape_bad, check_vtxo_operation, operation_fields,
  vout_bytes, operation_numbers, canonical_vtxo_operation, check_vtxo_operation_input,
  canonical_vtxo_operation_input,
}
use arkade_runtime.Vtxo.Seal.{
  vtxo_operation_mac, seal_vtxo_operation, vtxo_operation_input_mac, seal_vtxo_operation_input,
}
use arkade_runtime.Ledger.Store.{Db}
use arkade_runtime.Ledger.Allowance.{
  add_outflow, integrity_key_copy, operations_of, sum_operations, spent_in_window,
}
use arkade_runtime.Ledger.Guards.{
  collect_expired, abort_rows, abort_expired, matches, refuse_locked, reject_overlapping,
  any_blocking, reject_concurrent,
}
use arkade_runtime.Ledger.SignCounts.{has_vault}
use arkade_runtime.Ledger.Reserve.{
  Clock, has_operation, has_input, insert_operation, insert_inputs, check_cap, check_request,
  reserve_rows,
}
use arkade_runtime.Ledger.Exclusive.{active_count, reserve_rows_exclusive}
use arkade_runtime.Ledger.Cap.{add_outflow_exact}
use arkade_runtime.Ledger.Locks.{overlaps, reserve_rows-overlaps}
use arkade_runtime.Ledger.Granted.{Grant, reserve_rows_within_cap}
use arkade_runtime.Ledger.Lifecycle.{WellFormed}
use arkade_runtime.Ledger.Reach.{reserving, start, step, Reachable-WellFormed}
use arkade_runtime.Examples.Setting.{
  toy, toy_lawful, length-fill, key, vault, payment, payment-IsTyped, coin, empty, value_or,
}

abbrev pub clock : Clock
clock = record { expiry = 5; allowance = 4 }

unfoldable pub reserved_db : Db (Unit {0})
unfolding reserve_rows check_request abort_expired integrity_key_copy collect_expired operations_of
    abort_rows reject_overlapping reject_concurrent any_blocking spent_in_window sum_operations
    add_outflow check_cap seal_vtxo_operation vtxo_operation_mac canonical_vtxo_operation
    check_vtxo_operation append_fields append_credential_field operation_fields operation_numbers
    vout_bytes change_shape_bad require_vtxo_state state_bytes bytes_eq insert_operation
    has_operation has_vault insert_inputs has_input seal_vtxo_operation_input
    vtxo_operation_input_mac canonical_vtxo_operation_input check_vtxo_operation_input refuse_locked
    matches
reserved_db = value_or empty (reserve_rows toy key clock payment (coin ∷ []) (pos 2000) empty)

pub reserved_db_lem :
    reserve_rows toy key clock payment (coin ∷ []) (pos 2000) empty ≡ ok reserved_db
unfolding reserved_db reserve_rows check_request abort_expired integrity_key_copy collect_expired
    operations_of abort_rows reject_overlapping reject_concurrent any_blocking spent_in_window
    sum_operations add_outflow check_cap seal_vtxo_operation vtxo_operation_mac
    canonical_vtxo_operation check_vtxo_operation append_fields append_credential_field
    operation_fields operation_numbers vout_bytes change_shape_bad require_vtxo_state state_bytes
    bytes_eq insert_operation has_operation has_vault insert_inputs has_input
    seal_vtxo_operation_input vtxo_operation_input_mac canonical_vtxo_operation_input
    check_vtxo_operation_input refuse_locked matches
reserved_db_lem = refl

reserve_rows_within_cap_example :
    Grant toy key clock payment (coin ∷ []) (pos 2000) empty reserved_db
reserve_rows_within_cap_example =
    reserve_rows_within_cap toy toy_lawful key clock payment (coin ∷ []) (pos 2000) 3 empty
      reserved_db (λ k m. length-fill 32 (length m % 256)) tt payment-IsTyped (omega arith) refl
      (omega arith) reserved_db_lem

reserve_rows_exclusive_example :
    (active_count vault reserved_db.operations ≡ 1)
    × ((other : Bytes)
        → bytes_eq vault other ≡ false
        → active_count other reserved_db.operations ≤ active_count other empty.operations)
reserve_rows_exclusive_example =
    reserve_rows_exclusive toy key clock payment (coin ∷ []) (pos 2000) empty reserved_db
      reserved_db_lem

Reachable-WellFormed_example : WellFormed reserved_db.operations
Reachable-WellFormed_example = Reachable-WellFormed toy reserved_db (
    step empty reserved_db (start empty refl)
      (reserving key clock payment (coin ∷ []) (pos 2000) empty reserved_db reserved_db_lem))

add_outflow_exact_example :
    ((m : ℕ) × (n : ℕ) × (pos 1000 ≡ pos m)
      × (pos 10 ≡ pos n)
      × (m + n < int64_half)
      × (add_outflow (pos 1000) (pos 10) ≡ ok (pos (m + n))))
    ⊎ ((m : ℕ) × (n : ℕ) × (pos 1000 ≡ pos m)
        × (pos 10 ≡ pos n)
        × (int64_half ≤ m + n)
        × (add_outflow (pos 1000) (pos 10) ≡ err Error.outflow_overflow))
    ⊎ ((is_neg (pos 1000) || is_neg (pos 10) ≡ true)
        × (add_outflow (pos 1000) (pos 10) ≡ err Error.negative_outflow))
add_outflow_exact_example = add_outflow_exact (pos 1000) (pos 10) (omega arith) (omega arith)

reserve_rows-overlaps_example :
    (swept : Db (Unit {0})) × (abort_expired toy key vault 5 empty ≡ ok swept)
    × (overlaps (codes "op") (coin ∷ []) swept.operations swept.inputs ≡ false)
reserve_rows-overlaps_example =
    reserve_rows-overlaps toy key clock payment (coin ∷ []) (pos 2000) empty reserved_db
      reserved_db_lem
