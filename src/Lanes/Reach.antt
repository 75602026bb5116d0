-- ===== src/Lanes/Reach.antt =====
-- The life of the whole policy store as a relation: payments, payment batches and delegations of
-- internal/policy in any order, by any vaults.
use arkade_runtime.Base.{ℕ, ◌+◌, ◌≤◌, ◌≡◌, List, [], arith, inl, inr}
use mathlib.Core.Path.{subst}
use arkade_runtime.Base.Int64.{ℤ}
use arkade_runtime.Base.Result.{Result, ok}
use arkade_runtime.Base.Bytes.{Bytes}
use arkade_runtime.Vtxo.State.{VtxoState}
use arkade_runtime.Vtxo.Record.{VtxoOperation, VtxoOperationInput}
use arkade_runtime.Ledger.Store.{Db}
use arkade_runtime.Ledger.Reserve.{Clock, reserve_rows}
use arkade_runtime.Ledger.Exclusive.{active_count}
use arkade_runtime.Ledger.Transition.{transition_vtxo_operation, commit_signed_vtxo_operation, Swap}
use arkade_runtime.Renewal.Journal.{
  SpendingRenewalOperation, SpendingRenewalEvent, SpendingRenewalSnapshot,
}
use arkade_runtime.Renewal.Evidence.{Codec}
use arkade_runtime.Renewal.Append.{append_spending_renewal_event}
use arkade_runtime.Renewal.Histories.{Appended}
use arkade_runtime.Delegation.Journal.{
  SpendingDelegation, SpendingDelegationEvent, SpendingDelegationSnapshot,
}
use arkade_runtime.Lanes.Tables.{Journal, tables}
use arkade_runtime.Lanes.Advance.{advance_rows}
use arkade_runtime.Lanes.Renewals.{reserve_renewal_rows}
use arkade_runtime.Lanes.Schedule.{schedule_rows}
use arkade_runtime.Lanes.Passed.{schedule_rows-Passed}
use arkade_runtime.Lanes.Counts.{open_renewals, running_delegations}
use arkade_runtime.Lanes.Quiet.{Calmer, transition-Calmer, commit-Calmer}
use arkade_runtime.Lanes.Guarded.{busy, Alone, reserve-Alone}
use arkade_runtime.Lanes.Single.{advance-Alone, reserve_renewal-Alone, append-quiet, armed-quiet}

-- The database after an event of a payment batch.
abbrev pub with_journals : Db Journal → Appended → Db Journal
with_journals db out = record db {
  sign_counts = out.0.sign_counts;
  lanes = record db.lanes { renewals = out.0.snapshots };
}

-- A step that starts nothing.
calm :
    (v : Bytes) (db db' : Db Journal)
    → active_count v db'.operations ≤ active_count v db.operations
    → open_renewals v db'.lanes.renewals ≤ open_renewals v db.lanes.renewals
    → running_delegations v db'.lanes.delegations ≤ running_delegations v db.lanes.delegations
    → busy v db ≤ 1
    → busy v db' ≤ 1
unfolding busy
calm v db db' a b d h = omega arith

module _ (hmac : Bytes → Bytes → Bytes) (c : Codec) (format_time : ℕ → Bytes)
    (enrolled : Bytes → Result Bytes) where
  -- What may happen to the store: an accepted reservation, transition or signed commit of a payment,
  -- a reservation or an event of a payment batch, a scheduled set or an event of delegations, and a
  -- change in the number of rows of boarding and recovery.
  pub data LaneStep : Db Journal → Db Journal → Type 0 where
    paying :
        (k : Bytes) (clock : Clock) (rec : VtxoOperation) (inputs : List VtxoOperationInput)
        (limit : ℤ) (db db' : Db Journal)
        → reserve_rows (tables hmac c format_time) k clock rec inputs limit db ≡ ok db'
        → LaneStep db db'
    moving :
        (k : Bytes) (expected : VtxoState) (rec : VtxoOperation) (db : Db Journal)
        (out : Swap (tables hmac c format_time))
        → transition_vtxo_operation (tables hmac c format_time) k expected rec db ≡ ok out
        → LaneStep db out.0
    signing :
        (k credential : Bytes) (count : ℕ) (rec : VtxoOperation) (db : Db Journal)
        (out : Swap (tables hmac c format_time))
        → commit_signed_vtxo_operation (tables hmac c format_time) k rec credential count db
          ≡ ok out
        → LaneStep db out.0
    batching :
        (key : Bytes) (now : ℕ) (r : SpendingRenewalOperation) (allowance : ℤ) (db db' : Db Journal)
        (out : SpendingRenewalSnapshot)
        → reserve_renewal_rows hmac c format_time key now r allowance db ≡ ok (db', out)
        → LaneStep db db'
    recording :
        (key : Bytes) (now : ℕ) (stamp : Bytes) (e : SpendingRenewalEvent) (credential : Bytes)
        (count : ℕ) (db : Db Journal) (out : Appended)
        → append_spending_renewal_event c hmac key db.vaults now stamp e credential count
            (record { snapshots = db.lanes.renewals; sign_counts = db.sign_counts })
          ≡ ok out
        → LaneStep db (with_journals db out)
    scheduling :
        (key credential : Bytes) (count : ℕ) (head : SpendingDelegation)
        (members : List SpendingDelegation) (db db' : Db Journal)
        (out : List SpendingDelegationSnapshot)
        → schedule_rows hmac c format_time enrolled key credential count head members db
          ≡ ok (db', out)
        → LaneStep db db'
    advancing :
        (key : Bytes) (now : ℕ) (e : SpendingDelegationEvent) (allowance : ℤ) (db db' : Db Journal)
        (out : SpendingDelegationSnapshot)
        → advance_rows hmac c format_time key now e allowance db ≡ ok (db', out)
        → LaneStep db db'
    elsewhere :
        (db : Db Journal) (n : ℕ)
        → LaneStep db (record db { lanes = record db.lanes { other_rows = n } })

  -- The stores that steps reach from one without operations.
  pub data LaneReachable : Db Journal → Type 0 where
    start :
        (db : Db Journal)
        → db.operations ≡ []
        → db.lanes.renewals ≡ []
        → db.lanes.delegations ≡ []
        → LaneReachable db
    step : (db db' : Db Journal) → LaneReachable db → LaneStep db db' → LaneReachable db'

  Alone-busy :
      (vault v : Bytes) (db db' : Db Journal)
      → Alone hmac c format_time vault db db'
      → busy v db ≤ 1
      → busy v db' ≤ 1
  Alone-busy vault v db db' a h = elim (a v) [ inl low ↦ omega arith | inr (_, one) ↦ one ]

  Calmer-busy :
      (v : Bytes) (db db' : Db Journal)
      → Calmer (tables hmac c format_time) db db'
      → busy v db ≤ 1
      → busy v db' ≤ 1
  Calmer-busy v db db' (fewer, same) h =
      calm v db db' (fewer v)
        (subst (λ (x : Journal). open_renewals v x.renewals ≤ open_renewals v db.lanes.renewals)
          same (omega arith))
        (subst
          (λ (x : Journal).
            running_delegations v x.delegations ≤ running_delegations v db.lanes.delegations)
          same (omega arith))
        h

  schedule-busy :
      (v key credential : Bytes) (count : ℕ) (head : SpendingDelegation)
      (members : List SpendingDelegation) (db db' : Db Journal)
      (out : List SpendingDelegationSnapshot)
      → schedule_rows hmac c format_time enrolled key credential count head members db
        ≡ ok (db', out)
      → busy v db ≤ 1
      → busy v db' ≤ 1
  schedule-busy v key credential count head members db db' out h b =
      elim (schedule_rows-Passed hmac c format_time enrolled key credential count head members db
        db' out h) [
          | inl (same, _, _) ↦ rw same b
          | inr s ↦
              let quiet = armed-quiet hmac c format_time v members db.lanes.delegations in
              rw s.stored (calm v db _ (omega arith) (omega arith) (omega arith) b)
        ]

  LaneStep-busy :
      (v : Bytes) (db db' : Db Journal) → LaneStep db db' → busy v db ≤ 1 → busy v db' ≤ 1
  LaneStep-busy v _ _ (paying k clock rec inputs limit db db' h) b =
      Alone-busy rec.vault_id v db db'
        (reserve-Alone hmac c format_time k clock rec inputs limit db db' h) b
  LaneStep-busy v _ _ (moving k expected rec db out h) b =
      Calmer-busy v db out.0 (transition-Calmer (tables hmac c format_time) k expected rec db out h)
        b
  LaneStep-busy v _ _ (signing k credential count rec db out h) b =
      Calmer-busy v db out.0
        (commit-Calmer (tables hmac c format_time) k credential count rec db out h) b
  LaneStep-busy v _ _ (batching key now r allowance db db' out h) b =
      Alone-busy r.vault_id v db db'
        (reserve_renewal-Alone hmac c format_time key now r allowance db db' out h) b
  LaneStep-busy v _ _ (recording key now stamp e credential count db out h) b =
      calm v db (with_journals db out) (omega arith)
        (append-quiet hmac c format_time key db.vaults now stamp e credential count _ out v h)
        (omega arith) b
  LaneStep-busy v _ _ (scheduling key credential count head members db db' out h) b =
      schedule-busy v key credential count head members db db' out h b
  LaneStep-busy v _ _ (advancing key now e allowance db db' out h) b =
      let (vault, alone) = advance-Alone hmac c format_time key now e allowance db db' out h in
      Alone-busy vault v db db' alone b
  LaneStep-busy v _ _ (elsewhere db n) b = calm v db _ (omega arith) (omega arith) (omega arith) b

  -- In every store that payments, payment batches and delegations reach from one without
  -- operations, whatever the order of the operations, their times, vaults and outcomes, every
  -- vault has at most one of all these under way: an active payment, a payment batch that has
  -- not ended, or a claimed delegation that has not ended.
  pub LaneReachable-busy :
      (db : Db Journal) (v : Bytes)
      → LaneReachable db
      → active_count v db.operations
          + open_renewals v db.lanes.renewals
          + running_delegations v db.lanes.delegations
        ≤ 1
  unfolding busy active_count open_renewals running_delegations
  LaneReachable-busy _ v (start db a b d) = rw (a, b, d) (omega arith)
  LaneReachable-busy _ v (step db db' r s) = LaneStep-busy v db db' s (LaneReachable-busy db v r)
