-- ===== src/Lanes/Renewals.antt =====
-- ReserveSpendingRenewal of internal/policy/spending_renewal.go on the ledger's tables. One reading
-- of the clock, `now`, stands for all those of a call, and `stamp` is the same time as text.
use arkade_runtime.Base.{ℕ, Bool, ◌&&◌, not, Option, none, some, List, [], ◌∷◌}
use arkade_runtime.Base.Tests.{◌==◌, if◌then◌else◌}
use arkade_runtime.Base.Int64.{ℤ, int64_add}
use arkade_runtime.Base.Result.{Result, Error, ok, ◌>>=◌, ◌>>◌, refuse}
use arkade_runtime.Base.Bytes.{Bytes, bytes_eq}
use arkade_runtime.Sequence.Observe.{Disk}
use arkade_runtime.Ledger.Store.{Db}
use arkade_runtime.Ledger.Allowance.{spent_in_window}
use arkade_runtime.Ledger.Guards.{int_eq, reject_concurrent}
use arkade_runtime.Ledger.Reserve.{Ledger, State}
use arkade_runtime.Renewal.Journal.{SpendingRenewalOperation, SpendingRenewalSnapshot}
use arkade_runtime.Renewal.Evidence.{Codec}
use arkade_runtime.Renewal.Phases.{validate_spending_renewal_operation}
use arkade_runtime.Renewal.Allowance.{reject_active_spending_renewal}
use arkade_runtime.Delegation.Guards.{reject_dispatched_delegation}
use arkade_runtime.Lanes.Tables.{Journal, tables, with_spending_renewal_tx}
use arkade_runtime.Lanes.Advance.{over_allowance}

-- `all[r.OperationID]`
unfoldable pub prior_renewal : Bytes → List SpendingRenewalSnapshot → Option SpendingRenewalSnapshot
prior_renewal id [] = none
prior_renewal id (s ∷ ss) =
    if bytes_eq s.operation.operation_id id then some s else prior_renewal id ss

-- `compare == prior.Operation`, where `compare` is `r` with the time of `prior`.
unfoldable pub same_renewal : SpendingRenewalOperation → SpendingRenewalOperation → Bool
same_renewal r prior =
    bytes_eq r.operation_id prior.operation_id
    && bytes_eq r.vault_id prior.vault_id
    && bytes_eq r.input_txid prior.input_txid
    && (r.input_vout == prior.input_vout)
    && int_eq r.fee_sats prior.fee_sats
    && bytes_eq r.plan_digest prior.plan_digest
    && bytes_eq r.plan prior.plan
    && bytes_eq r.expires_at prior.expires_at
    && bytes_eq r.kind prior.kind
    && int_eq r.amount_sats prior.amount_sats

abbrev pub new_renewal : SpendingRenewalOperation → SpendingRenewalSnapshot
new_renewal r = record { operation = r; events = [] }

module _ (hmac : Bytes → Bytes → Bytes) (c : Codec) (format_time : ℕ → Bytes) where
  -- The checks on a reservation that is not stored yet.
  unfoldable pub check_renewal :
      Bytes → ℕ → SpendingRenewalOperation → ℤ → Db Journal → Result (Unit {0})
  check_renewal key now r allowance db = do
    validate_spending_renewal_operation c r
    reject_active_spending_renewal c r.vault_id db.lanes.renewals
    reject_concurrent (tables hmac c format_time) key r.vault_id [] db
    reject_dispatched_delegation r.vault_id db.lanes.delegations
    used ← spent_in_window (tables hmac c format_time) key now db r.vault_id
    refuse (over_allowance hmac c format_time allowance used (int64_add r.fee_sats r.amount_sats))
        Error.allowance_exceeded

  abbrev pub reserve_found :
      Bytes
      → ℕ
      → SpendingRenewalOperation
      → ℤ
      → Db Journal
      → Option SpendingRenewalSnapshot
      → Result (Db Journal × SpendingRenewalSnapshot)
  reserve_found key now r allowance db (some prior) = do
    refuse (not (same_renewal r prior.operation)) Error.replay_mismatch
    ok (db, prior)
  reserve_found key now r allowance db none = do
    check_renewal key now r allowance db
    ok (
      record db { lanes = record db.lanes { renewals = new_renewal r ∷ db.lanes.renewals } },
      new_renewal r,
    )

  -- What runs between BEGIN and the observation of the sequence.
  unfoldable pub reserve_renewal_rows :
      Bytes
      → ℕ
      → SpendingRenewalOperation
      → ℤ
      → Db Journal
      → Result (Db Journal × SpendingRenewalSnapshot)
  unfolding check_renewal
  reserve_renewal_rows key now r allowance db =
      reserve_found key now r allowance db (prior_renewal r.operation_id db.lanes.renewals)

  unfoldable pub reserve_spending_renewal :
      Ledger
      → ℕ
      → Disk
      → Bool
      → SpendingRenewalOperation
      → ℤ
      → State Journal
      → State Journal × Result SpendingRenewalSnapshot
  unfolding reserve_renewal_rows with_spending_renewal_tx
  reserve_spending_renewal l now disk commits r0 allowance s =
      let r : SpendingRenewalOperation = record r0 { created_at = format_time now } in
      with_spending_renewal_tx hmac c format_time l disk commits s
        (λ key. (s.file, reserve_renewal_rows key now r allowance s.db))
