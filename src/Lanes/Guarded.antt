-- ===== src/Lanes/Guarded.antt =====
-- What each operation that starts or ends something leaves under way in a vault: payments, payment
-- batches and delegations.
use arkade_runtime.Base.{
  ℕ, ◌+◌, ◌≤◌, ◌≡◌, sym, ap, ◌∙◌, true, false, ◌&&◌, ◌||◌, not, none, some, List, [], arith, ◌⊎◌,
  inl, inr,
}
use arkade_runtime.Base.Tests.{Bool-cases, Option-cases}
use arkade_runtime.Base.Int64.{ℤ, ltb_ℤ}
use arkade_runtime.Base.Result.{Error, ok, refuse, from_ok, ok_injective, refuse_passed}
use arkade_runtime.Base.Bytes.{Bytes, bytes_eq, bytes_eq_sound}
use arkade_runtime.Vtxo.Record.{VtxoOperation, VtxoOperationInput}
use arkade_runtime.Ledger.Store.{Db}
use arkade_runtime.Ledger.Allowance.{integrity_key_copy, spent_in_window}
use arkade_runtime.Ledger.Guards.{reject_concurrent}
use arkade_runtime.Ledger.Reserve.{Clock, reserve_rows}
use arkade_runtime.Ledger.Stages.{reserve_rows-Stages}
use arkade_runtime.Ledger.Exclusive.{active_count, reserve_rows_exclusive, insert_operation_lem}
use arkade_runtime.Renewal.Evidence.{Codec, seconds}
use arkade_runtime.Renewal.Allowance.{reject_active_spending_renewal}
use arkade_runtime.Delegation.Journal.{
  SpendingDelegationEvent, SpendingDelegationSnapshot, has_event, find_event, delegation_terminal,
  delegation_state, delegation_phase_eq, is_cleanup, expired, cleanup_pending,
}
use arkade_runtime.Delegation.Validate.{validate_delegation_event}
use arkade_runtime.Delegation.Guards.{
  is_nil, with_event, invalidate_armed_delegations, reject_dispatched_delegation,
}
use arkade_runtime.Lanes.Tables.{Journal, tables}
use arkade_runtime.Lanes.Advance.{
  find_delegation, check_delegation_phase, check_claim, advance_rows, is_phase,
  same_delegation_event, insert_delegation_event, over_allowance,
}
use arkade_runtime.Lanes.Counts.{
  open_renewals, running_delegations, reject_active-open, reject_dispatched-running,
  invalidate_armed-running,
}
use arkade_runtime.Lanes.Quiet.{reject_concurrent-quiet, abort_expired-lanes}

-- What is under way in a vault: active payments, open payment batches, claimed delegations.
unfoldable pub busy : Bytes → Db Journal → ℕ
busy vault db =
    active_count vault db.operations
    + open_renewals vault db.lanes.renewals
    + running_delegations vault db.lanes.delegations

module _ (hmac : Bytes → Bytes → Bytes) (c : Codec) (format_time : ℕ → Bytes) where
  -- A step of one vault: nothing else is under way there, and elsewhere no more than before.
  abbrev pub Alone : Bytes → Db Journal → Db Journal → Type 0
  Alone vault db db' =
      (v : Bytes) → (busy v db' ≤ busy v db) ⊎ ((bytes_eq vault v ≡ true) × (busy v db' ≤ 1))

  pub reserve-Alone :
      (k : Bytes) (clock : Clock) (rec : VtxoOperation) (inputs : List VtxoOperationInput)
      (limit : ℤ) (db db' : Db Journal)
      → reserve_rows (tables hmac c format_time) k clock rec inputs limit db ≡ ok db'
      → Alone rec.vault_id db db'
  unfolding busy
  reserve-Alone k clock rec inputs limit db db' h v =
      let p = tables hmac c format_time in
      let s = reserve_rows-Stages p k clock rec inputs limit db db' h in
      let (own, others) = reserve_rows_exclusive p k clock rec inputs limit db db' h in
      let (_, filled) = insert_operation_lem p s.sealed _ s.filled s.inserts in
      let lanes : db'.lanes ≡ s.lanes =
        ap (λ (x : Db Journal). x.lanes) s.result ∙ ap (λ (x : Db Journal). x.lanes) filled in
      let before = abort_expired-lanes p k rec.vault_id clock.expiry db s.swept s.sweep in
      from_ok (integrity_key_copy k) _ s.idle λ _ _ idle.
        from_ok (integrity_key_copy k) _ s.freed λ _ _ freed.
          from_ok
            (invalidate_armed_delegations c rec.vault_id inputs (format_time clock.allowance)
              s.swept.lanes.delegations)
            _ freed
            λ ds e made.
              let after : db'.lanes ≡ record s.swept.lanes { delegations = ds } =
                lanes ∙ sym (ok_injective made) in
              let none = reject_active-open c rec.vault_id s.swept.lanes.renewals idle in
              let (low, gone) =
                invalidate_armed-running c rec.vault_id inputs (format_time clock.allowance) v
                  s.swept.lanes.delegations ds e in
              elim (Bool-cases (bytes_eq rec.vault_id v)) [
                | inl mine ↦
                    let is_v = bytes_eq_sound rec.vault_id v mine in
                    inr (mine, rw after (rw (← is_v) (omega arith)))
                | inr other ↦ let fewer = others v other in inl (rw (after, before) (omega arith))
              ]

  -- Every guard that an accepted claim has passed.
  pub record Claimable (key : Bytes) (now : ℕ) (s : SpendingDelegationSnapshot) (allowance : ℤ)
      (db : Db Journal) : Type 0 where
    pub used : ℤ
    pub first : is_nil s.events ≡ true
    pub in_window :
        (ltb_ℤ (seconds now) s.operation.valid_at ≡ false)
        × (ltb_ℤ (seconds now) s.operation.expires_at ≡ true)
    pub undispatched : running_delegations s.operation.vault_id db.lanes.delegations ≡ 0
    pub unpaid : active_count s.operation.vault_id db.operations ≡ 0
    pub unbatched : open_renewals s.operation.vault_id db.lanes.renewals ≡ 0
    pub counted :
        spent_in_window (tables hmac c format_time) key now db s.operation.vault_id ≡ ok used
    pub granted : over_allowance hmac c format_time allowance used s.operation.fee_sats ≡ false

  pub check_claim-Claimable :
      (key : Bytes) (now : ℕ) (s : SpendingDelegationSnapshot) (allowance : ℤ) (db : Db Journal)
      → check_claim hmac c format_time key now s allowance db ≡ ok tt
      → Claimable key now s allowance db
  unfolding check_claim
  check_claim-Claimable key now s allowance db h =
      let p = tables hmac c format_time in
      from_ok
        (refuse
          (not (is_nil s.events)
            || ltb_ℤ (seconds now) s.operation.valid_at
            || not (ltb_ℤ (seconds now) s.operation.expires_at))
          Error.bad_transition)
        _ h
        λ _ first h1.
          from_ok (reject_dispatched_delegation s.operation.vault_id db.lanes.delegations) _ h1
            λ _ undispatched h2.
              from_ok (reject_concurrent p key s.operation.vault_id [] db) _ h2 λ _ unpaid h3.
                from_ok (reject_active_spending_renewal c s.operation.vault_id db.lanes.renewals) _
                  h3
                  λ _ unbatched h4.
                    from_ok (spent_in_window p key now db s.operation.vault_id) _ h4
                      λ used counted h5. record {
                        used = used;
                        first = ground arith;
                        in_window = (ground arith, ground arith);
                        undispatched =
                            reject_dispatched-running s.operation.vault_id db.lanes.delegations
                              undispatched;
                        unpaid = reject_concurrent-quiet p key s.operation.vault_id db unpaid;
                        unbatched =
                            reject_active-open c s.operation.vault_id db.lanes.renewals unbatched;
                        counted = counted;
                        granted = refuse_passed _ Error.allowance_exceeded h5;
                      }

  -- What an accepted advance did.
  pub record Advanced (key : Bytes) (now : ℕ) (e : SpendingDelegationEvent) (allowance : ℤ)
      (db db' : Db Journal) (s out : SpendingDelegationSnapshot) : Type 0 where
    pub unseen : find_event e.phase s.events ≡ none
    pub live : delegation_terminal s.events ≡ false
    pub not_abandoned :
        has_event cleanup_pending s.events
          && not (is_cleanup e.phase)
          && not (delegation_phase_eq e.phase expired)
        ≡ false
    pub checked :
        check_delegation_phase s now (check_claim hmac c format_time key now s allowance db) e.phase
        ≡ ok tt
    pub rows : db' ≡ record db {
      lanes = record db.lanes { delegations = insert_delegation_event e db.lanes.delegations };
    }
    pub returned : out ≡ with_event e s

  -- AdvanceSpendingDelegation that returns no error has found its delegation, and either recorded
  -- the event after every check, or found the same event recorded already and changed nothing.
  pub advance_rows-cases :
      (key : Bytes) (now : ℕ) (e : SpendingDelegationEvent) (allowance : ℤ) (db db' : Db Journal)
      (out : SpendingDelegationSnapshot)
      → advance_rows hmac c format_time key now e allowance db ≡ ok (db', out)
      → (s : SpendingDelegationSnapshot) × (find_delegation e.operation_id db.lanes.delegations
          ≡ ok s)
        × (((db' ≡ db)
              × (out ≡ s)
              × ((old : SpendingDelegationEvent) × (find_event e.phase s.events ≡ some old)
                  × (same_delegation_event e old ≡ true)))
            ⊎ Advanced key now e allowance db db' s out)
  unfolding advance_rows
  advance_rows-cases key now e allowance db db' out h =
      from_ok (find_delegation e.operation_id db.lanes.delegations) _ h λ s found h1.
        from_ok
          (refuse
            (delegation_terminal s.events && not (is_phase e.phase (delegation_state s.events)))
            Error.bad_transition)
          _ h1
          λ _ _ h2.
            from_ok
              (refuse
                (has_event cleanup_pending s.events
                  && not (is_cleanup e.phase)
                  && not (delegation_phase_eq e.phase expired))
                Error.bad_transition)
              _ h2
              λ _ kept h3. elim (Option-cases (find_event e.phase s.events)) [
                | inl unseen ↦
                    from_ok (refuse (delegation_terminal s.events) Error.bad_transition) _
                      (rw unseen at h3)
                      λ _ live h4.
                        from_ok
                          (check_delegation_phase s now
                            (check_claim hmac c format_time key now s allowance db) e.phase)
                          _ h4
                          λ _ checked h5. from_ok (validate_delegation_event c e) _ h5 λ _ _ h6.
                            let done = ok_injective h6 in
                            (
                              s,
                              found,
                              inr (record {
                                unseen = unseen;
                                live = refuse_passed _ Error.bad_transition live;
                                not_abandoned = refuse_passed _ Error.bad_transition kept;
                                checked = checked;
                                rows = sym (
                                    ap (λ (x : Db Journal × SpendingDelegationSnapshot). x.0) done);
                                returned = sym (
                                    ap (λ (x : Db Journal × SpendingDelegationSnapshot). x.1) done);
                              }),
                            )
                | inr (old, seen) ↦
                    from_ok (refuse (not (same_delegation_event e old)) Error.replay_mismatch) _
                      (rw seen at h3)
                      λ _ same h4.
                        let done = ok_injective h4 in
                        (
                          s,
                          found,
                          inl (
                            sym (ap (λ (x : Db Journal × SpendingDelegationSnapshot). x.0) done),
                            sym (ap (λ (x : Db Journal × SpendingDelegationSnapshot). x.1) done),
                            (old, seen, ground arith),
                          ),
                        )
              ]
