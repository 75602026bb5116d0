-- ===== src/Lanes/Advance.antt =====
-- AdvanceSpendingDelegation of internal/policy/spending_delegation.go. One reading of the clock,
-- `now`, stands for all those of a call, and `stamp` is the same time as text.
use arkade_runtime.Base.{ℕ, Bool, true, false, ◌&&◌, ◌||◌, not, Option, none, some, List, [], ◌∷◌}
use arkade_runtime.Base.Tests.{leb, ◌==◌, if◌then◌else◌}
use arkade_runtime.Base.Lists.{length}
use arkade_runtime.Base.Int64.{ℤ, pos, is_neg, ltb_ℤ, int64_sub}
use arkade_runtime.Base.Result.{Result, Error, ok, err, ◌>>=◌, ◌>>◌, refuse}
use arkade_runtime.Base.Bytes.{Bytes, bytes_eq}
use arkade_runtime.Sequence.Observe.{Disk}
use arkade_runtime.Ledger.Store.{Db}
use arkade_runtime.Ledger.Allowance.{spent_in_window, or_fail}
use arkade_runtime.Ledger.Guards.{reject_concurrent}
use arkade_runtime.Ledger.Reserve.{Ledger, State, observe_economic_outflows}
use arkade_runtime.Renewal.Evidence.{Codec, seconds}
use arkade_runtime.Renewal.Allowance.{reject_active_spending_renewal}
use arkade_runtime.Delegation.Journal.{
  DelegationPhase, claimed, register_authorized, register_dispatched, register_result,
  batch_started, tree_prepared, nonces_committed, tree_signed, final_authorized, final_dispatched,
  final_result, cleanup_pending, cleanup_authorized, cleanup_dispatched, cleanup_result, confirmed,
  invalidated, cancelled, expired, needs_authorization, rejected, stream_nonce, stream_signature,
  stream_finalization, delegation_phase_eq, SpendingDelegationEvent, SpendingDelegationSnapshot,
  has_event, find_event, delegation_terminal, delegation_state, is_cleanup,
  valid_delegation_stream_phase,
}
use arkade_runtime.Delegation.Validate.{validate_delegation_event}
use arkade_runtime.Delegation.Guards.{is_nil, with_event, reject_dispatched_delegation}
use arkade_runtime.Lanes.Tables.{Journal, tables, with_spending_renewal_tx, then_apply}

-- VaultBoardRegisterCanSupersede
unfoldable pub vault_board_register_can_supersede : ℤ → ℕ → Bool
vault_board_register_can_supersede expire_at now =
    ltb_ℤ (pos 0) expire_at
    && not (ltb_ℤ (seconds now) (pos 30))
    && not (ltb_ℤ (int64_sub (seconds now) (pos 30)) expire_at)

-- `all[e.OperationID]`
unfoldable pub find_delegation :
    Bytes → List SpendingDelegationSnapshot → Result SpendingDelegationSnapshot
find_delegation id [] = err Error.no_rows
find_delegation id (s ∷ ss) =
    if bytes_eq s.operation.operation_id id then ok s else find_delegation id ss

-- INSERT INTO light_delegation_event
unfoldable pub insert_delegation_event :
    SpendingDelegationEvent → List SpendingDelegationSnapshot → List SpendingDelegationSnapshot
insert_delegation_event e [] = []
insert_delegation_event e (s ∷ ss) =
    if bytes_eq s.operation.operation_id e.operation_id
    then with_event e s ∷ ss
    else s ∷ insert_delegation_event e ss

-- `copy != old`, where `copy` is `e` with the time of `old`.
unfoldable pub same_delegation_event : SpendingDelegationEvent → SpendingDelegationEvent → Bool
same_delegation_event e old =
    bytes_eq e.operation_id old.operation_id
    && delegation_phase_eq e.phase old.phase
    && bytes_eq e.evidence old.evidence

abbrev pub is_phase : DelegationPhase → Option DelegationPhase → Bool
is_phase ph none = false
is_phase ph (some state) = delegation_phase_eq ph state

-- The table of predecessors.
unfoldable pub predecessor : DelegationPhase → Option DelegationPhase
predecessor register_authorized = some claimed
predecessor register_dispatched = some register_authorized
predecessor register_result = some register_dispatched
predecessor batch_started = some register_result
predecessor tree_prepared = some batch_started
predecessor nonces_committed = some tree_prepared
predecessor tree_signed = some nonces_committed
predecessor final_authorized = some tree_signed
predecessor final_dispatched = some final_authorized
predecessor final_result = some final_dispatched
predecessor confirmed = some final_authorized
predecessor cleanup_authorized = some cleanup_pending
predecessor cleanup_dispatched = some cleanup_authorized
predecessor cleanup_result = some cleanup_dispatched
predecessor _ = none

unfoldable pub stream_predecessor : DelegationPhase → DelegationPhase
stream_predecessor (stream_nonce s) = tree_prepared
stream_predecessor (stream_signature s) = tree_signed
stream_predecessor stream_finalization = tree_signed
stream_predecessor _ = batch_started

abbrev pub is_final_authorized : DelegationPhase → Bool
is_final_authorized final_authorized = true
is_final_authorized _ = false

abbrev pub require_event : DelegationPhase → List SpendingDelegationEvent → Result (Unit {0})
require_event ph es = refuse (not (has_event ph es)) Error.bad_transition

-- The `default` of the switch.
unfoldable pub check_default : SpendingDelegationSnapshot → ℕ → DelegationPhase → Result (Unit {0})
check_default s now ph = do
  refuse (is_final_authorized ph && not (ltb_ℤ (seconds now) s.operation.expires_at))
      Error.bad_transition
  if valid_delegation_stream_phase ph
      then (do
        refuse (leb 2064 (length s.events)) Error.bad_transition
        require_event (stream_predecessor ph) s.events)
      else (do prior ← or_fail (predecessor ph) Error.bad_transition; require_event prior s.events)

unfoldable pub check_lapse : SpendingDelegationSnapshot → ℕ → Result (Unit {0})
check_lapse s now = do
  refuse (has_event final_authorized s.events) Error.bad_transition
  refuse (not (vault_board_register_can_supersede s.operation.expires_at now)) Error.bad_transition

-- The `switch` over the phase; `claim` is its case "claimed".
unfoldable pub check_delegation_phase :
    SpendingDelegationSnapshot → ℕ → Result (Unit {0}) → DelegationPhase → Result (Unit {0})
unfolding check_default check_lapse
check_delegation_phase s now claim expired = do
  check_lapse s now
  refuse (has_event register_dispatched s.events && not (has_event cleanup_result s.events))
      Error.bad_transition
check_delegation_phase s now claim cleanup_pending = check_lapse s now
check_delegation_phase s now claim cancelled = refuse (not (is_nil s.events)) Error.bad_transition
check_delegation_phase s now claim invalidated = refuse (not (is_nil s.events)) Error.bad_transition
check_delegation_phase s now claim needs_authorization =
    refuse (not (is_nil s.events) && not ((length s.events == 1) && has_event claimed s.events))
      Error.bad_transition
check_delegation_phase s now claim claimed = claim
check_delegation_phase s now claim rejected = do
  require_event register_dispatched s.events
  refuse (has_event register_result s.events) Error.bad_transition
check_delegation_phase s now claim ph = check_default s now ph

module _ (hmac : Bytes → Bytes → Bytes) (c : Codec) (format_time : ℕ → Bytes) where
  -- `allowance < 0 || used > allowance || fee > allowance-used`
  abbrev pub over_allowance : ℤ → ℤ → ℤ → Bool
  over_allowance allowance used need =
      is_neg allowance || ltb_ℤ allowance used || ltb_ℤ (int64_sub allowance used) need

  -- The case "claimed".
  unfoldable pub check_claim :
      Bytes → ℕ → SpendingDelegationSnapshot → ℤ → Db Journal → Result (Unit {0})
  check_claim key now s allowance db = do
    refuse
        (not (is_nil s.events)
          || ltb_ℤ (seconds now) s.operation.valid_at
          || not (ltb_ℤ (seconds now) s.operation.expires_at))
        Error.bad_transition
    reject_dispatched_delegation s.operation.vault_id db.lanes.delegations
    reject_concurrent (tables hmac c format_time) key s.operation.vault_id [] db
    reject_active_spending_renewal c s.operation.vault_id db.lanes.renewals
    used ← spent_in_window (tables hmac c format_time) key now db s.operation.vault_id
    refuse (over_allowance allowance used s.operation.fee_sats) Error.allowance_exceeded

  abbrev pub advance_found :
      Bytes
      → ℕ
      → SpendingDelegationEvent
      → SpendingDelegationSnapshot
      → ℤ
      → Db Journal
      → Option SpendingDelegationEvent
      → Result (Db Journal × SpendingDelegationSnapshot)
  advance_found key now e s allowance db (some old) = do
    refuse (not (same_delegation_event e old)) Error.replay_mismatch
    ok (db, s)
  advance_found key now e s allowance db none = do
    refuse (delegation_terminal s.events) Error.bad_transition
    check_delegation_phase s now (check_claim key now s allowance db) e.phase
    validate_delegation_event c e
    ok (
      record db {
        lanes = record db.lanes { delegations = insert_delegation_event e db.lanes.delegations };
      },
      with_event e s,
    )

  -- What follows the first observation of the sequence.
  unfoldable pub advance_rows :
      Bytes
      → ℕ
      → SpendingDelegationEvent
      → ℤ
      → Db Journal
      → Result (Db Journal × SpendingDelegationSnapshot)
  unfolding check_claim
  advance_rows key now e allowance db = do
    s ← find_delegation e.operation_id db.lanes.delegations
    refuse (delegation_terminal s.events && not (is_phase e.phase (delegation_state s.events)))
        Error.bad_transition
    refuse
        (has_event cleanup_pending s.events
          && not (is_cleanup e.phase)
          && not (delegation_phase_eq e.phase expired))
        Error.bad_transition
    advance_found key now e s allowance db (find_event e.phase s.events)

  unfoldable pub advance_spending_delegation :
      Ledger
      → ℕ
      → Disk
      → Disk
      → Bool
      → SpendingDelegationEvent
      → ℤ
      → State Journal
      → State Journal × Result SpendingDelegationSnapshot
  unfolding advance_rows with_spending_renewal_tx observe_economic_outflows
  advance_spending_delegation l now first last commits e0 allowance s =
      let e : SpendingDelegationEvent = record e0 { created_at = format_time now } in
      with_spending_renewal_tx hmac c format_time l last commits s (λ key.
        then_apply hmac c format_time
          (observe_economic_outflows (tables hmac c format_time) l first s.file s.db)
          (advance_rows key now e allowance s.db))
