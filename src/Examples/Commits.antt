-- ===== src/Examples/Commits.antt =====
-- The reserved payment is aborted, or signed.
use arkade_runtime.Base.{◌≡◌, ◌≤◌, refl, Bool, true, false, some, [], ◌∷◌, ◌⊎◌, arith}
use arkade_runtime.Base.Result.{Error, ok, err}
use arkade_runtime.Base.Bytes.{Bytes, codes, bytes_eq}
use arkade_runtime.Vtxo.State.{
  reserved, signed, aborted, state_eq, state_bytes, require_vtxo_state, valid_vtxo_transition,
}
use arkade_runtime.Vtxo.Record.{VtxoOperation}
use arkade_runtime.Vtxo.Canonical.{
  append_credential_field, append_fields, change_shape_bad, check_vtxo_operation, operation_fields,
  vout_bytes, operation_numbers, canonical_vtxo_operation,
}
use arkade_runtime.Vtxo.Seal.{vtxo_operation_mac, seal_vtxo_operation}
use arkade_runtime.Ledger.Store.{Db}
use arkade_runtime.Ledger.Allowance.{integrity_key_copy}
use arkade_runtime.Ledger.SignCounts.{
  has_vault, find_counter, put_counter, sign_count_mac, store_counter, advance_sign_count_locked,
}
use arkade_runtime.Ledger.Transition.{
  is_expected, update_vtxo_operation, transition_vtxo_operation, commit_signed_vtxo_operation,
}
use arkade_runtime.Ledger.Swap.{key_count}
use arkade_runtime.Ledger.Commit.{Swapped, Lost, transition_outcomes}
use arkade_runtime.Ledger.Signed.{CommitOutcome, commit_outcomes}
use arkade_runtime.Ledger.Replay.{
  Accepted, advance-Accepted, advance_stores, advance_refuses_replay, counter,
}
use arkade_runtime.Examples.Setting.{toy, toy_hmac, key, vault, payment, empty, value_or, fill}

-- The payment as it stands in the table.
abbrev row : VtxoOperation
row = record payment { integrity_mac = fill 32 1 }

abbrev before : Db (Unit {0})
before = record empty { operations = row ∷ [] }

abbrev nothing : Db (Unit {0}) × VtxoOperation × Bool
nothing = (empty, payment, false)

abbrev swap : Db (Unit {0}) × VtxoOperation × Bool
unfolding transition_vtxo_operation valid_vtxo_transition integrity_key_copy seal_vtxo_operation
    vtxo_operation_mac canonical_vtxo_operation check_vtxo_operation append_fields
    append_credential_field operation_fields operation_numbers vout_bytes change_shape_bad
    require_vtxo_state state_bytes bytes_eq update_vtxo_operation is_expected state_eq
swap =
    value_or nothing
      (transition_vtxo_operation toy key reserved (record payment { state = aborted }) before)

swap_lem :
    transition_vtxo_operation toy key reserved (record payment { state = aborted }) before ≡ ok swap
unfolding swap transition_vtxo_operation valid_vtxo_transition integrity_key_copy
    seal_vtxo_operation vtxo_operation_mac canonical_vtxo_operation check_vtxo_operation
    append_fields append_credential_field operation_fields operation_numbers vout_bytes
    change_shape_bad require_vtxo_state state_bytes bytes_eq update_vtxo_operation is_expected
    state_eq
swap_lem = refl

one_row : key_count (codes "op") before.operations ≤ 1
unfolding key_count bytes_eq
one_row = omega arith

transition_outcomes_example :
    ((swap.2 ≡ true)
      × Swapped toy reserved (record payment { state = aborted }) before swap.0.operations swap.1
      × (swap.0.sign_counts ≡ before.sign_counts))
    ⊎ ((swap.2 ≡ false)
        × Lost toy reserved (record payment { state = aborted }) before swap.0 swap.1)
transition_outcomes_example =
    transition_outcomes toy key reserved (record payment { state = aborted }) before swap.0 swap.1
      swap.2 one_row swap_lem

abbrev credential : Bytes
credential = codes "passkey"

abbrev commit : Db (Unit {0}) × VtxoOperation × Bool
unfolding commit_signed_vtxo_operation integrity_key_copy seal_vtxo_operation vtxo_operation_mac
    canonical_vtxo_operation check_vtxo_operation append_fields append_credential_field
    operation_fields operation_numbers vout_bytes change_shape_bad require_vtxo_state state_bytes
    bytes_eq update_vtxo_operation is_expected state_eq advance_sign_count_locked find_counter
    store_counter has_vault put_counter sign_count_mac
commit =
    value_or nothing
      (commit_signed_vtxo_operation toy key (record payment { state = signed }) credential 1 before)

commit_lem :
    commit_signed_vtxo_operation toy key (record payment { state = signed }) credential 1 before
    ≡ ok commit
unfolding commit commit_signed_vtxo_operation integrity_key_copy seal_vtxo_operation
    vtxo_operation_mac canonical_vtxo_operation check_vtxo_operation append_fields
    append_credential_field operation_fields operation_numbers vout_bytes change_shape_bad
    require_vtxo_state state_bytes bytes_eq update_vtxo_operation is_expected state_eq
    advance_sign_count_locked find_counter store_counter has_vault put_counter sign_count_mac
commit_lem = refl

commit_outcomes_example :
    CommitOutcome toy key credential 1
      (record payment { state = signed })
      before
      commit.0
      commit.1
      commit.2
commit_outcomes_example =
    commit_outcomes toy key credential 1 (record payment { state = signed }) before commit.0
      commit.1 commit.2 one_row commit_lem

counted :
    advance_sign_count_locked toy_hmac key (vault ∷ []) vault credential 3 []
    ≡ ok (counter toy_hmac key vault credential 3 ∷ [])
unfolding advance_sign_count_locked find_counter store_counter has_vault put_counter bytes_eq
counted = refl

advance-Accepted_example :
    Accepted toy_hmac key vault credential 3 [] (counter toy_hmac key vault credential 3 ∷ [])
advance-Accepted_example =
    advance-Accepted toy_hmac key (vault ∷ []) vault credential 3 []
      (counter toy_hmac key vault credential 3 ∷ []) counted

advance_stores_example :
    find_counter vault credential (counter toy_hmac key vault credential 3 ∷ [])
    ≡ some (counter toy_hmac key vault credential 3)
advance_stores_example =
    advance_stores toy_hmac key (vault ∷ []) vault credential 3 []
      (counter toy_hmac key vault credential 3 ∷ []) (omega arith) counted

advance_refuses_replay_example :
    advance_sign_count_locked toy_hmac key
      (vault ∷ [])
      vault
      credential
      2
      (counter toy_hmac key vault credential 3 ∷ [])
    ≡ err Error.count_backwards
advance_refuses_replay_example =
    advance_refuses_replay toy_hmac key (vault ∷ []) vault credential 3 2 []
      (counter toy_hmac key vault credential 3 ∷ []) (omega arith) (omega arith) counted
