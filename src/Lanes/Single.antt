-- ===== src/Lanes/Single.antt =====
-- One operation at a time: payments, payment batches and delegations of a vault under every operation
-- of internal/policy that starts, advances or ends one.
use arkade_runtime.Base.{
  ℕ, ◌≤◌, ◌≡◌, refl, ap, Bool, true, false, not, List, [], ◌∷◌, ◌++◌, map, arith, inl, inr,
}
use mathlib.Core.Path.{subst}
use arkade_runtime.Base.Tests.{Bool-cases, Option-cases}
use arkade_runtime.Base.Int64.{ℤ}
use arkade_runtime.Base.Result.{Error, ok, refuse, from_ok, ok_injective, refuse_passed}
use arkade_runtime.Base.Bytes.{Bytes, bytes_eq, bytes_eq_sound}
use arkade_runtime.Ledger.Store.{Db}
use arkade_runtime.Ledger.Guards.{reject_concurrent}
use arkade_runtime.Ledger.Exclusive.{active_count}
use arkade_runtime.Renewal.Journal.{
  SpendingRenewalOperation, SpendingRenewalEvent, SpendingRenewalSnapshot, renewal_terminal,
  event_of,
}
use arkade_runtime.Renewal.Evidence.{Codec}
use arkade_runtime.Renewal.Phases.{
  validate_spending_renewal_operation, validate_spending_renewal_event, validate_renewal_transition,
}
use arkade_runtime.Renewal.Append.{Journals, find_renewal, append_spending_renewal_event}
use arkade_runtime.Renewal.Allowance.{reject_active_spending_renewal}
use arkade_runtime.Renewal.Histories.{Appended, record_event-Appended, replay_event-Appended}
use arkade_runtime.Delegation.Journal.{
  claimed, SpendingDelegation, SpendingDelegationEvent, SpendingDelegationSnapshot, has_event,
  delegation_terminal, delegation_phase_eq, delegation_phase_eq_sound,
}
use arkade_runtime.Delegation.Guards.{with_event, reject_dispatched_delegation}
use arkade_runtime.Lanes.Tables.{Journal, tables}
use arkade_runtime.Lanes.Advance.{check_delegation_phase, advance_rows}
use arkade_runtime.Lanes.Renewals.{
  check_renewal, new_renewal, prior_renewal, reserve_renewal_rows, same_renewal,
}
use arkade_runtime.Lanes.Schedule.{armed_snapshot}
use arkade_runtime.Lanes.Counts.{
  bit, is_running, is_open_renewal, open_renewals, running_delegations, reject_active-open,
  reject_dispatched-running, insert_delegation-running, insert_event-open,
}
use arkade_runtime.Lanes.Quiet.{reject_concurrent-quiet}
use arkade_runtime.Lanes.Guarded.{busy, Alone, check_claim-Claimable, advance_rows-cases}

bit_le : (b : Bool) → bit b ≤ 1
bit_le true = omega arith
bit_le false = omega arith

module _ (hmac : Bytes → Bytes → Bytes) (c : Codec) (format_time : ℕ → Bytes) where
  -- A recorded event that is no claim starts nothing.
  unclaimed_quiet :
      (v : Bytes) (e : SpendingDelegationEvent) (s : SpendingDelegationSnapshot)
      → delegation_phase_eq e.phase claimed ≡ false
      → delegation_terminal s.events ≡ false
      → bit (is_running v (with_event e s)) ≤ bit (is_running v s)
  unfolding has_event
  unclaimed_quiet v e s other live = ground arith

  pub advance-Alone :
      (key : Bytes) (now : ℕ) (e : SpendingDelegationEvent) (allowance : ℤ) (db db' : Db Journal)
      (out : SpendingDelegationSnapshot)
      → advance_rows hmac c format_time key now e allowance db ≡ ok (db', out)
      → (vault : Bytes) × Alone hmac c format_time vault db db'
  unfolding busy check_delegation_phase
  advance-Alone key now e allowance db db' out h =
      let (s, found, how) =
        advance_rows-cases hmac c format_time key now e allowance db db' out h in
      elim how [
        | inl (same, _, _) ↦ (s.operation.vault_id, λ v. inl (rw same (omega arith)))
        | inr a ↦ (
          s.operation.vault_id,
          λ v.
              let count = insert_delegation-running v e s db.lanes.delegations found in
              let small = bit_le (is_running v (with_event e s)) in
              elim (Bool-cases (delegation_phase_eq e.phase claimed)) [
                | inl claims ↦
                    let is = delegation_phase_eq_sound e.phase claimed claims in
                    let free =
                      check_claim-Claimable hmac c format_time key now s allowance db
                        (rw is at a.checked) in
                    elim (Bool-cases (bytes_eq s.operation.vault_id v)) [
                      | inl mine ↦
                          let is_v = bytes_eq_sound s.operation.vault_id v mine in
                          let quiet : running_delegations v db.lanes.delegations ≡ 0 =
                            rw (← is_v) free.undispatched in
                          let unpaid : active_count v db.operations ≡ 0 = rw (← is_v) free.unpaid in
                          let unbatched : open_renewals v db.lanes.renewals ≡ 0 =
                            rw (← is_v) free.unbatched in
                          inr (mine, rw a.rows (omega arith))
                      | inr other ↦
                          let none : bit (is_running v (with_event e s)) ≡ 0 = rw other refl in
                          inl (rw a.rows (omega arith))
                    ]
                | inr other ↦
                    let low = unclaimed_quiet v e s other a.live in inl (rw a.rows (omega arith))
              ],
        )
      ]

  -- What the checks of a new payment batch find under way in its vault.
  check_renewal-quiet :
      (key : Bytes) (now : ℕ) (r : SpendingRenewalOperation) (allowance : ℤ) (db : Db Journal)
      → check_renewal hmac c format_time key now r allowance db ≡ ok tt
      → busy r.vault_id db ≡ 0
  unfolding busy check_renewal
  check_renewal-quiet key now r allowance db h =
      let p = tables hmac c format_time in
      from_ok (validate_spending_renewal_operation c r) _ h λ _ _ h1.
        from_ok (reject_active_spending_renewal c r.vault_id db.lanes.renewals) _ h1
          λ _ unbatched h2. from_ok (reject_concurrent p key r.vault_id [] db) _ h2 λ _ unpaid h3.
            from_ok (reject_dispatched_delegation r.vault_id db.lanes.delegations) _ h3
              λ _ undispatched _.
                let none = reject_active-open c r.vault_id db.lanes.renewals unbatched in
                let quiet = reject_concurrent-quiet p key r.vault_id db unpaid in
                let still =
                  reject_dispatched-running r.vault_id db.lanes.delegations undispatched in
                omega arith

  new_renewal-Alone :
      (r : SpendingRenewalOperation) (db : Db Journal)
      → busy r.vault_id db ≡ 0
      → Alone hmac c format_time r.vault_id db
          (record db { lanes = record db.lanes { renewals = new_renewal r ∷ db.lanes.renewals } })
  unfolding busy open_renewals
  new_renewal-Alone r db quiet v =
      let small = bit_le (is_open_renewal v (new_renewal r)) in
      elim (Bool-cases (bytes_eq r.vault_id v)) [
        | inl mine ↦
            let none : busy v db ≡ 0 = rw (← (bytes_eq_sound r.vault_id v mine)) quiet in
            inr (mine, omega arith)
        | inr other ↦
            let none : bit (is_open_renewal v (new_renewal r)) ≡ 0 = rw other refl in
            inl (omega arith)
      ]

  pub reserve_renewal-Alone :
      (key : Bytes) (now : ℕ) (r : SpendingRenewalOperation) (allowance : ℤ) (db db' : Db Journal)
      (out : SpendingRenewalSnapshot)
      → reserve_renewal_rows hmac c format_time key now r allowance db ≡ ok (db', out)
      → Alone hmac c format_time r.vault_id db db'
  unfolding reserve_renewal_rows
  reserve_renewal-Alone key now r allowance db db' out h =
      let alone =
        λ (x : Db Journal × SpendingRenewalSnapshot). Alone hmac c format_time r.vault_id db x.0 in
      elim (Option-cases (prior_renewal r.operation_id db.lanes.renewals)) [
        | inl new ↦
            from_ok (check_renewal hmac c format_time key now r allowance db) _ (rw new at h)
              λ _ checked h1.
                subst alone (ok_injective h1)
                  (new_renewal-Alone r db (check_renewal-quiet key now r allowance db checked))
        | inr (prior, seen) ↦
            from_ok (refuse (not (same_renewal r prior.operation)) Error.replay_mismatch) _
              (rw seen at h) λ _ _ h1. subst alone (ok_injective h1) (λ v. inl (omega arith))
      ]

  -- A new event of a payment batch starts nothing.
  pub append-quiet :
      (key : Bytes) (vaults : List Bytes) (now : ℕ) (stamp : Bytes) (e : SpendingRenewalEvent)
      (credential : Bytes) (count : ℕ) (j : Journals) (out : Appended) (v : Bytes)
      → append_spending_renewal_event c hmac key vaults now stamp e credential count j ≡ ok out
      → open_renewals v out.0.snapshots ≤ open_renewals v j.snapshots
  unfolding append_spending_renewal_event validate_renewal_transition
  append-quiet key vaults now stamp e0 credential count j out v h =
      let e : SpendingRenewalEvent = record e0 { created_at = stamp } in
      from_ok (validate_spending_renewal_event c e) _ h λ _ _ h1.
        from_ok (find_renewal e.operation_id j.snapshots) _ h1 λ s found h2.
          elim (Option-cases (event_of e.phase s.events)) [
            | inl new ↦
                let (valid, snaps, _, _, _, _) =
                  record_event-Appended c hmac key vaults now credential count e s j out
                    (rw new at h2) in
                from_ok (refuse (renewal_terminal s.events) Error.bad_transition) _ valid
                  λ _ live _. rw (← snaps) (
                    insert_event-open v e s j.snapshots found
                      (refuse_passed (renewal_terminal s.events) _ live))
            | inr (old, seen) ↦
                let same =
                  replay_event-Appended c hmac key credential count e s old j out (rw seen at h2) in
                rw (← (ap (λ (x : Appended). x.0.snapshots) same)) (omega arith)
          ]

  pub armed-quiet :
      (v : Bytes) (os : List SpendingDelegation) (ds : List SpendingDelegationSnapshot)
      → running_delegations v (map armed_snapshot os ++ ds) ≡ running_delegations v ds
  unfolding running_delegations has_event
  armed-quiet v [] ds = refl
  armed-quiet v (o ∷ os) ds =
      let rest = armed-quiet v os ds in
      let none : bit (is_running v (armed_snapshot o)) ≡ 0 = ground arith in omega arith

  pub reserve_renewal_delegations :
      (key : Bytes) (now : ℕ) (r : SpendingRenewalOperation) (allowance : ℤ) (db db' : Db Journal)
      (out : SpendingRenewalSnapshot)
      → reserve_renewal_rows hmac c format_time key now r allowance db ≡ ok (db', out)
      → db.lanes.delegations ≡ db'.lanes.delegations
  unfolding reserve_renewal_rows
  reserve_renewal_delegations key now r allowance db db' out h =
      let stored = λ (x : Db Journal × SpendingRenewalSnapshot). x.0.lanes.delegations in
      elim (Option-cases (prior_renewal r.operation_id db.lanes.renewals)) [
        | inl new ↦
            from_ok (check_renewal hmac c format_time key now r allowance db) _ (rw new at h)
              λ _ _ h1. ap stored (ok_injective h1)
        | inr (prior, seen) ↦
            from_ok (refuse (not (same_renewal r prior.operation)) Error.replay_mismatch) _
              (rw seen at h) λ _ _ h1. ap stored (ok_injective h1)
      ]
