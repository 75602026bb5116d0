-- ===== src/Lanes/Passed.antt =====
-- The guards that ScheduleVtxoDelegationSet of internal/policy/spending_delegation.go has passed when it
-- returns no error.
use arkade_runtime.Base.{
  ℕ, ◌+◌, ◌≤◌, ◌≡◌, refl, sym, ap, ◌∙◌, not, List, [], ◌++◌, map, arith, ◌⊎◌, inl, inr, ◌||◌, true,
  false,
}
use arkade_runtime.Base.Tests.{◌==◌, ltb, Bool-cases}
use arkade_runtime.Base.Lists.{length}
use arkade_runtime.Base.Result.{Result, Error, ok, refuse, from_ok, ok_injective}
use arkade_runtime.Base.Bytes.{Bytes, bytes_eq, bytes_eq_sound, is_empty}
use arkade_runtime.Ledger.Store.{Db}
use arkade_runtime.Ledger.SignCounts.{advance_sign_count_locked}
use arkade_runtime.Renewal.Evidence.{Codec}
use arkade_runtime.Renewal.Allowance.{reject_active_spending_renewal}
use arkade_runtime.Delegation.Journal.{SpendingDelegation, SpendingDelegationSnapshot}
use arkade_runtime.Delegation.Guards.{is_nil}
use arkade_runtime.Lanes.Tables.{Journal}
use arkade_runtime.Lanes.Schedule.{
  check_members, check_distinct, members_of, any_bound, count_open, armed_snapshot, retry_members,
  validate_members, reject_overlaps, schedule_new, schedule_rows,
}

same_holder : (a b : Bytes) → (is_empty a || not (bytes_eq a b)) ≡ false → a ≡ b
same_holder a b h = bytes_eq_sound a b (ground arith)

module _ (hmac : Bytes → Bytes → Bytes) (c : Codec) (format_time : ℕ → Bytes)
    (enrolled : Bytes → Result Bytes) where
  pub record Passed (key credential : Bytes) (count : ℕ) (head : SpendingDelegation)
      (members : List SpendingDelegation) (db db' : Db Journal)
      (out : List SpendingDelegationSnapshot) : Type 0 where
    pub holder : enrolled head.vault_id ≡ ok credential
    pub open_before : ℕ
    pub complete : check_members head (length members) 0 members ≡ ok tt
    pub distinct : check_distinct [] [] members ≡ ok tt
    pub absent : is_nil (members_of head.set_id db.lanes.delegations) ≡ true
    pub unbound : any_bound members db.lanes.delegations ≡ false
    pub valid : validate_members hmac c format_time enrolled members ≡ ok tt
    pub advanced :
        advance_sign_count_locked hmac key db.vaults head.vault_id credential count db.sign_counts
        ≡ ok db'.sign_counts
    pub apart : count_open head.vault_id members 0 db.lanes.delegations ≡ ok open_before
    pub room : open_before + length members ≤ 256
    pub unreserved : reject_overlaps hmac c format_time enrolled key db members ≡ ok tt
    pub unbatched : reject_active_spending_renewal c head.vault_id db.lanes.renewals ≡ ok tt
    pub stored : db' ≡ record db {
      sign_counts = db'.sign_counts;
      lanes = record db.lanes { delegations = map armed_snapshot members ++ db.lanes.delegations };
    }
    pub returned : out ≡ map armed_snapshot members

  abbrev Outcome : Type 0
  Outcome = Db Journal × List SpendingDelegationSnapshot

  -- The two ways to return no error, by the guards that were passed.
  pub schedule_rows-Passed :
      (key credential : Bytes) (count : ℕ) (head : SpendingDelegation)
      (members : List SpendingDelegation) (db db' : Db Journal)
      (out : List SpendingDelegationSnapshot)
      → schedule_rows hmac c format_time enrolled key credential count head members db
        ≡ ok (db', out)
      → ((db' ≡ db)
          × (length (members_of head.set_id db.lanes.delegations) ≡ length members)
          × (retry_members hmac c format_time enrolled
                (members_of head.set_id db.lanes.delegations)
                members
              ≡ ok out))
        ⊎ Passed key credential count head members db db' out
  unfolding schedule_rows schedule_new
  schedule_rows-Passed key credential count head members db db' out h =
      from_ok (check_members head (length members) 0 members) _ h λ _ complete h1.
        from_ok (check_distinct [] [] members) _ h1 λ _ distinct h2.
          elim (Bool-cases (is_nil (members_of head.set_id db.lanes.delegations))) [
            | inl absent ↦
                from_ok (refuse (any_bound members db.lanes.delegations) Error.row_exists) _
                  (rw absent at h2)
                  λ _ unbound k1.
                    from_ok (validate_members hmac c format_time enrolled members) _ k1
                      λ _ valid k2. from_ok (enrolled head.vault_id) _ k2 λ holder known k3.
                        from_ok
                          (refuse (is_empty credential || not (bytes_eq credential holder))
                            Error.identity_required)
                          _ k3
                          λ _ right k4.
                            from_ok
                              (advance_sign_count_locked hmac key db.vaults head.vault_id credential
                                count db.sign_counts)
                              _ k4
                              λ counts advanced k5.
                                from_ok (count_open head.vault_id members 0 db.lanes.delegations) _
                                  k5
                                  λ n apart k6.
                                    from_ok
                                      (refuse (ltb 256 (n + length members)) Error.out_of_bounds) _
                                      k6
                                      λ _ room k7.
                                        from_ok
                                          (reject_overlaps hmac c format_time enrolled key db
                                            members)
                                          _ k7
                                          λ _ unreserved k8.
                                            from_ok
                                              (reject_active_spending_renewal c head.vault_id
                                                db.lanes.renewals)
                                              _ k8
                                              λ _ unbatched k9.
                                                let done = ok_injective k9 in
                                                let rows = ap (λ (x : Outcome). x.0) done in
                                                let counter =
                                                  ap (λ (x : Outcome). x.0.sign_counts) done in
                                                inr (record {
                                                  holder =
                                                      known
                                                      ∙ ap ok (
                                                          sym (
                                                            same_holder credential holder
                                                            (ground arith)));
                                                  open_before = n;
                                                  complete = complete;
                                                  distinct = distinct;
                                                  absent = absent;
                                                  unbound = ground arith;
                                                  valid = valid;
                                                  advanced = rw (← counter) advanced;
                                                  apart = apart;
                                                  room = ground arith;
                                                  unreserved = unreserved;
                                                  unbatched = unbatched;
                                                  stored = rw (← rows) refl;
                                                  returned = sym (ap (λ (x : Outcome). x.1) done);
                                                })
            | inr present ↦
                from_ok
                  (refuse
                    (not (length (members_of head.set_id db.lanes.delegations) == length members))
                    Error.bad_policy)
                  _ (rw present at h2)
                  λ _ same k1.
                    from_ok
                      (retry_members hmac c format_time enrolled
                        (members_of head.set_id db.lanes.delegations) members)
                      _ k1
                      λ found made k2.
                        let done = ok_injective k2 in
                        inl (
                          sym (ap (λ (x : Outcome). x.0) done),
                          ground arith,
                          made ∙ ap ok (ap (λ (x : Outcome). x.1) done),
                        )
          ]
