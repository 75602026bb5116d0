-- ===== src/Lanes/Schedule.antt =====
-- ScheduleVtxoDelegationSet of internal/policy/spending_delegation.go. One reading of the clock,
-- `now`, stands for all those of a call. `enrolled` is what delegationEnrolledCredentialID returns
-- for a vault, from the credential table, which is not part of this model.
use arkade_runtime.Base.{ℕ, suc, ◌+◌, Bool, false, ◌&&◌, ◌||◌, not, List, [], ◌∷◌, ◌++◌, map}
use arkade_runtime.Base.Tests.{ltb, ◌==◌, if◌then◌else◌}
use arkade_runtime.Base.Lists.{length}
use arkade_runtime.Base.Int64.{pos}
use arkade_runtime.Base.Result.{Result, Error, ok, err, ◌>>=◌, ◌>>◌, refuse}
use arkade_runtime.Base.Bytes.{Bytes, bytes_eq, is_empty}
use arkade_runtime.Sequence.Observe.{Disk}
use arkade_runtime.Ledger.Store.{Db}
use arkade_runtime.Ledger.Guards.{int_eq}
use arkade_runtime.Ledger.Reserve.{Ledger, State, observe_economic_outflows}
use arkade_runtime.Ledger.SignCounts.{advance_sign_count_locked}
use arkade_runtime.Renewal.Evidence.{Codec}
use arkade_runtime.Renewal.Allowance.{reject_active_spending_renewal}
use arkade_runtime.Delegation.Journal.{
  SpendingDelegation, SpendingDelegationSnapshot, delegation_terminal,
}
use arkade_runtime.Delegation.Validate.{validate_delegation}
use arkade_runtime.Delegation.Guards.{is_nil}
use arkade_runtime.Lanes.Tables.{Journal, tables, with_spending_renewal_tx, then_apply}
use arkade_runtime.Lanes.Advance.{find_delegation}
use arkade_runtime.Lanes.Overlap.{has_id, reject_delegation_payment_overlap}

-- `o.VaultID != first.VaultID || … || o.SetDigest != first.SetDigest`
unfoldable pub other_set : SpendingDelegation → SpendingDelegation → Bool
other_set first o =
    not (bytes_eq o.vault_id first.vault_id)
    || not (bytes_eq o.program first.program)
    || not (bytes_eq o.descriptor_hash first.descriptor_hash)
    || not (bytes_eq o.set_id first.set_id)
    || not (bytes_eq o.set_digest first.set_digest)

-- The loop over the members from index `i` on.
unfoldable pub check_members :
    SpendingDelegation → ℕ → ℕ → List SpendingDelegation → Result (Unit {0})
check_members first n i [] = ok tt
check_members first n i (o ∷ os) = do
  refuse (other_set first o || not (int_eq o.set_size (pos n)) || not (int_eq o.set_index (pos i)))
      Error.bad_policy
  check_members first n (suc i) os

abbrev pub same_input : SpendingDelegation → SpendingDelegation → Bool
same_input o p = bytes_eq o.input_txid p.input_txid && (o.input_vout == p.input_vout)

unfoldable pub names_input : SpendingDelegation → List SpendingDelegation → Bool
names_input o [] = false
names_input o (p ∷ ps) = same_input o p || names_input o ps

-- seenOp and seenOutpoint.
unfoldable pub check_distinct :
    List Bytes → List SpendingDelegation → List SpendingDelegation → Result (Unit {0})
check_distinct ids seen [] = ok tt
check_distinct ids seen (o ∷ os) = do
  refuse (has_id o.operation_id ids) Error.row_exists
  refuse (names_input o seen) Error.duplicate_outpoint
  check_distinct (o.operation_id ∷ ids) (o ∷ seen) os

-- `grouped`
unfoldable pub members_of :
    Bytes → List SpendingDelegationSnapshot → List SpendingDelegationSnapshot
members_of set [] = []
members_of set (s ∷ ss) =
    if bytes_eq s.operation.set_id set then s ∷ members_of set ss else members_of set ss

-- `want == s.Operation`, where `want` has the time of `s.Operation`.
unfoldable pub same_delegation : SpendingDelegation → SpendingDelegation → Bool
same_delegation want o =
    bytes_eq want.operation_id o.operation_id
    && bytes_eq want.vault_id o.vault_id
    && bytes_eq want.input_txid o.input_txid
    && (want.input_vout == o.input_vout)
    && int_eq want.valid_at o.valid_at
    && int_eq want.expires_at o.expires_at
    && int_eq want.fee_sats o.fee_sats
    && bytes_eq want.plan_digest o.plan_digest
    && bytes_eq want.plan o.plan
    && bytes_eq want.program o.program
    && bytes_eq want.descriptor_hash o.descriptor_hash
    && bytes_eq want.set_id o.set_id
    && bytes_eq want.set_digest o.set_digest
    && int_eq want.set_size o.set_size
    && int_eq want.set_index o.set_index

-- `if old := all[id]; old != nil`, for each member.
unfoldable pub any_bound : List SpendingDelegation → List SpendingDelegationSnapshot → Bool
any_bound os [] = false
any_bound os (s ∷ ss) =
    has_id s.operation.operation_id (map (λ o. o.operation_id) os) || any_bound os ss

-- The loop that counts the open delegations of the vault.
unfoldable pub count_open :
    Bytes → List SpendingDelegation → ℕ → List SpendingDelegationSnapshot → Result ℕ
count_open vault os n [] = ok n
count_open vault os n (s ∷ ss) =
    if not (bytes_eq s.operation.vault_id vault) || delegation_terminal s.events
    then count_open vault os n ss
    else (do
      refuse (names_input s.operation os) Error.operation_active
      count_open vault os (suc n) ss)

abbrev pub armed_snapshot : SpendingDelegation → SpendingDelegationSnapshot
armed_snapshot o = record { operation = o; events = [] }

abbrev pub stamped : Bytes → SpendingDelegation → SpendingDelegation
stamped stamp o = record o { created_at = stamp }

module _ (hmac : Bytes → Bytes → Bytes) (c : Codec) (format_time : ℕ → Bytes)
    (enrolled : Bytes → Result Bytes) where
  -- An exact retry returns the stored members in the order of the request.
  unfoldable pub retry_members :
      List SpendingDelegationSnapshot
      → List SpendingDelegation
      → Result (List SpendingDelegationSnapshot)
  retry_members grouped [] = ok []
  retry_members grouped (o ∷ os) = do
    s ← find_delegation o.operation_id grouped
    validate_delegation c (record o { created_at = s.operation.created_at })
    refuse (not (same_delegation o s.operation)) Error.bad_policy
    rest ← retry_members grouped os
    ok (s ∷ rest)

  unfoldable pub validate_members : List SpendingDelegation → Result (Unit {0})
  validate_members [] = ok tt
  validate_members (o ∷ os) = do validate_delegation c o; validate_members os

  unfoldable pub reject_overlaps : Bytes → Db Journal → List SpendingDelegation → Result (Unit {0})
  reject_overlaps key db [] = ok tt
  reject_overlaps key db (o ∷ os) = do
    reject_delegation_payment_overlap hmac key o db.operations db.inputs
    reject_overlaps key db os

  -- The tail for a set that is not stored yet.
  unfoldable pub schedule_new :
      Bytes
      → Bytes
      → ℕ
      → SpendingDelegation
      → List SpendingDelegation
      → Db Journal
      → Result (Db Journal × List SpendingDelegationSnapshot)
  schedule_new key credential count first members db = do
    refuse (any_bound members db.lanes.delegations) Error.row_exists
    validate_members members
    holder ← enrolled first.vault_id
    refuse (is_empty credential || not (bytes_eq credential holder)) Error.identity_required
    counts ←
        advance_sign_count_locked hmac key db.vaults first.vault_id credential count db.sign_counts
    active ← count_open first.vault_id members 0 db.lanes.delegations
    refuse (ltb 256 (active + length members)) Error.out_of_bounds
    reject_overlaps key db members
    reject_active_spending_renewal c first.vault_id db.lanes.renewals
    ok (
      record db {
        sign_counts = counts;
        lanes = record db.lanes {
          delegations = map armed_snapshot members ++ db.lanes.delegations;
        };
      },
      map armed_snapshot members,
    )

  -- From the checks of the members on, where the first of them is known.
  unfoldable pub schedule_rows :
      Bytes
      → Bytes
      → ℕ
      → SpendingDelegation
      → List SpendingDelegation
      → Db Journal
      → Result (Db Journal × List SpendingDelegationSnapshot)
  unfolding retry_members schedule_new
  schedule_rows key credential count first members db = do
    check_members first (length members) 0 members
    check_distinct [] [] members
    if is_nil (members_of first.set_id db.lanes.delegations)
        then schedule_new key credential count first members db
        else (do
          refuse (not (length (members_of first.set_id db.lanes.delegations) == length members))
              Error.bad_policy
          out ← retry_members (members_of first.set_id db.lanes.delegations) members
          ok (db, out))

  unfoldable pub schedule_vtxo_delegation_set :
      Ledger
      → ℕ
      → Disk
      → Disk
      → Bool
      → List SpendingDelegation
      → Bytes
      → ℕ
      → State Journal
      → State Journal × Result (List SpendingDelegationSnapshot)
  unfolding schedule_rows with_spending_renewal_tx observe_economic_outflows
  schedule_vtxo_delegation_set l now before last commits [] credential count s =
      (s, err Error.out_of_bounds)
  schedule_vtxo_delegation_set l now before last commits (o ∷ os) credential count s =
      if ltb 50 (length (o ∷ os))
      then (s, err Error.out_of_bounds)
      else with_spending_renewal_tx hmac c format_time l last commits s (λ key.
        then_apply hmac c format_time
          (observe_economic_outflows (tables hmac c format_time) l before s.file s.db)
          (schedule_rows key credential count (stamped (format_time now) o)
            (map (stamped (format_time now)) (o ∷ os)) s.db))
