-- ===== src/Lanes/Scheduled.antt =====
-- What ScheduleVtxoDelegationSet of internal/policy/spending_delegation.go does by its result.
use arkade_runtime.Base.{
  ℕ, ◌+◌, ◌≤◌, ◌≡◌, ◌≢◌, Bool, true, false, ◌&&◌, not, List, [], ◌∷◌, ◌++◌, map, arith, ◌⊎◌, inl,
  inr,
}
use mathlib.Core.Path.{subst}
use mathlib.Core.List.{Mem, mem-cons_self, mem-cons_of_mem}
use arkade_runtime.Base.Tests.{==_iff, Bool-cases}
use arkade_runtime.Base.Lists.{length, All}
use arkade_runtime.Base.Result.{Result, Error, ok, refuse, refuse_passed, from_ok, ok_injective}
use arkade_runtime.Base.Bytes.{Bytes, bytes_eq, bytes_eq_sound}
use arkade_runtime.Renewal.Evidence.{Codec}
use arkade_runtime.Delegation.Journal.{SpendingDelegation, SpendingDelegationSnapshot}
use arkade_runtime.Ledger.Store.{Db}
use arkade_runtime.Ledger.SignCounts.{advance_sign_count_locked}
use arkade_runtime.Delegation.Validate.{validate_delegation}
use arkade_runtime.Lanes.Tables.{Journal}
use arkade_runtime.Lanes.Advance.{find_delegation}
use arkade_runtime.Lanes.Counts.{open_renewals, reject_active-open}
use arkade_runtime.Lanes.Members.{
  Members, AllDiffer, check_members-Members, check_distinct-AllDiffer, int_eq_sound,
}
use arkade_runtime.Lanes.Apart.{
  members_of-absent, Unbound, any_bound-Unbound, open_delegations, Free, count_open-Free,
}
use arkade_runtime.Lanes.Spared.{AllSpare, reject_overlaps-AllSpare, validate_members-All}
use arkade_runtime.Lanes.Valid.{Sound, validate_delegation-Sound}
use arkade_runtime.Lanes.Passed.{Passed, schedule_rows-Passed}
use arkade_runtime.Lanes.Schedule.{
  members_of, armed_snapshot, same_delegation, retry_members, schedule_rows,
}

find_member :
    (id set : Bytes) (ds : List SpendingDelegationSnapshot) (s : SpendingDelegationSnapshot)
    → find_delegation id (members_of set ds) ≡ ok s
    → Mem s ds
unfolding find_delegation members_of
find_member id set [] s h = cc
find_member id set (d ∷ ds) s h = elim (Bool-cases (bytes_eq d.operation.set_id set)) [
  | inl mine ↦ elim (Bool-cases (bytes_eq d.operation.operation_id id)) [
    | inl here ↦
        subst (λ (x : SpendingDelegationSnapshot). Mem x (d ∷ ds))
          (ok_injective (rw (mine, here) at h)) mem-cons_self
    | inr later ↦ mem-cons_of_mem d (find_member id set ds s (rw (mine, later) at h))
  ]
  | inr other ↦ mem-cons_of_mem d (find_member id set ds s (rw other at h))
]

both_true : (a b : Bool) → (a && b) ≡ true → (a ≡ true) × (b ≡ true)
both_true a b h = (ground arith, ground arith)

-- The request of `o`, as it was stored.
same_delegation-same :
    (o p : SpendingDelegation)
    → same_delegation o p ≡ true
    → p ≡ record o { created_at = p.created_at }
unfolding same_delegation
same_delegation-same o p h =
    let (k14, h15) = both_true _ _ h in
    let (k13, h14) = both_true _ _ k14 in
    let (k12, h13) = both_true _ _ k13 in
    let (k11, h12) = both_true _ _ k12 in
    let (k10, h11) = both_true _ _ k11 in
    let (k9, h10) = both_true _ _ k10 in
    let (k8, h9) = both_true _ _ k9 in
    let (k7, h8) = both_true _ _ k8 in
    let (k6, h7) = both_true _ _ k7 in
    let (k5, h6) = both_true _ _ k6 in
    let (k4, h5) = both_true _ _ k5 in
    let (k3, h4) = both_true _ _ k4 in
    let (k2, h3) = both_true _ _ k3 in
    let (h1, h2) = both_true _ _ k2 in
    let e1 = bytes_eq_sound o.operation_id p.operation_id h1 in
    let e2 = bytes_eq_sound o.vault_id p.vault_id h2 in
    let e3 = bytes_eq_sound o.input_txid p.input_txid h3 in
    let e4 = (==_iff o.input_vout p.input_vout).0 h4 in
    let e5 = int_eq_sound o.valid_at p.valid_at h5 in
    let e6 = int_eq_sound o.expires_at p.expires_at h6 in
    let e7 = int_eq_sound o.fee_sats p.fee_sats h7 in
    let e8 = bytes_eq_sound o.plan_digest p.plan_digest h8 in
    let e9 = bytes_eq_sound o.plan p.plan h9 in
    let e10 = bytes_eq_sound o.program p.program h10 in
    let e11 = bytes_eq_sound o.descriptor_hash p.descriptor_hash h11 in
    let e12 = bytes_eq_sound o.set_id p.set_id h12 in
    let e13 = bytes_eq_sound o.set_digest p.set_digest h13 in
    let e14 = int_eq_sound o.set_size p.set_size h14 in
    let e15 = int_eq_sound o.set_index p.set_index h15 in cc

-- What an exact retry returns: for each member the stored delegation, which agrees with it in every
-- column but the time.
abbrev pub Kept :
    List SpendingDelegationSnapshot
    → List SpendingDelegation
    → List SpendingDelegationSnapshot
    → Type 0
Kept ds [] [] = Unit
Kept ds (o ∷ os) (s ∷ ss) =
    Mem s ds × (s.operation ≡ record o { created_at = s.operation.created_at }) × Kept ds os ss
Kept ds [] (s ∷ ss) = ⊥
Kept ds (o ∷ os) [] = ⊥

truly : (b : Bool) → not b ≡ false → b ≡ true
truly b h = ground arith

module _ (hmac : Bytes → Bytes → Bytes) (c : Codec) (format_time : ℕ → Bytes)
    (enrolled : Bytes → Result Bytes) where
  retry_members-Kept :
      (set : Bytes) (ds : List SpendingDelegationSnapshot) (os : List SpendingDelegation)
      (out : List SpendingDelegationSnapshot)
      → retry_members hmac c format_time enrolled (members_of set ds) os ≡ ok out
      → Kept ds os out
  unfolding retry_members
  retry_members-Kept set ds [] out h = subst (Kept ds []) (ok_injective h) tt
  retry_members-Kept set ds (o ∷ os) out h =
      from_ok (find_delegation o.operation_id (members_of set ds)) _ h λ s found h1.
        from_ok (validate_delegation c (record o { created_at = s.operation.created_at })) _ h1
          λ _ _ h2.
            from_ok (refuse (not (same_delegation o s.operation)) Error.bad_policy) _ h2
              λ _ same h3.
                from_ok (retry_members hmac c format_time enrolled (members_of set ds) os) _ h3
                  λ rest more h4.
                    let agree = truly _ (refuse_passed _ Error.bad_policy same) in
                    subst (Kept ds (o ∷ os)) (ok_injective h4) (
                      find_member o.operation_id set ds s found,
                      same_delegation-same o s.operation agree,
                      retry_members-Kept set ds os rest more,
                    )

  -- A set that was not stored before, and is stored now.
  pub record Scheduled (key credential : Bytes) (count : ℕ) (head : SpendingDelegation)
      (members : List SpendingDelegation) (db db' : Db Journal)
      (out : List SpendingDelegationSnapshot) : Type 0 where
    pub ordered : Members head (length members) 0 members
    pub distinct : AllDiffer [] members
    pub absent :
        All
          (λ (s : SpendingDelegationSnapshot). s.operation.set_id ≢ head.set_id)
          db.lanes.delegations
    pub unbound : All (Unbound members) db.lanes.delegations
    pub valid : All (λ (o : SpendingDelegation). validate_delegation c o ≡ ok tt) members
    pub sound : All (Sound c) members
    pub holder : enrolled head.vault_id ≡ ok credential
    pub advanced :
        advance_sign_count_locked hmac key db.vaults head.vault_id credential count db.sign_counts
        ≡ ok db'.sign_counts
    pub room : open_delegations head.vault_id db.lanes.delegations + length members ≤ 256
    pub free : All (Free head.vault_id members) db.lanes.delegations
    pub unpaid : All (AllSpare db.operations db.inputs) members
    pub unbatched : open_renewals head.vault_id db.lanes.renewals ≡ 0
    pub stored : db' ≡ record db {
      sign_counts = db'.sign_counts;
      lanes = record db.lanes { delegations = map armed_snapshot members ++ db.lanes.delegations };
    }
    pub returned : out ≡ map armed_snapshot members

  all_Sound :
      (os : List SpendingDelegation)
      → All (λ (o : SpendingDelegation). validate_delegation c o ≡ ok tt) os
      → All (Sound c) os
  all_Sound [] valid = tt
  all_Sound (o ∷ os) valid = (validate_delegation-Sound c o valid.0, all_Sound os valid.1)

  Passed-Scheduled :
      (key credential : Bytes) (count : ℕ) (head : SpendingDelegation)
      (members : List SpendingDelegation) (db db' : Db Journal)
      (out : List SpendingDelegationSnapshot)
      → Passed hmac c format_time enrolled key credential count head members db db' out
      → Scheduled key credential count head members db db' out
  Passed-Scheduled key credential count head members db db' out p =
      let (counted, free) =
        count_open-Free head.vault_id members 0 p.open_before db.lanes.delegations p.apart in
      let room = p.room in
      record {
        ordered = check_members-Members head (length members) 0 members p.complete;
        distinct = check_distinct-AllDiffer [] members p.distinct;
        absent = members_of-absent head.set_id db.lanes.delegations p.absent;
        unbound = any_bound-Unbound members db.lanes.delegations p.unbound;
        valid = validate_members-All hmac c format_time enrolled members p.valid;
        sound =
            all_Sound members (validate_members-All hmac c format_time enrolled members p.valid);
        holder = p.holder;
        advanced = p.advanced;
        room = omega arith;
        free = free;
        unpaid = reject_overlaps-AllSpare hmac c format_time enrolled key db members p.unreserved;
        unbatched = reject_active-open c head.vault_id db.lanes.renewals p.unbatched;
        stored = p.stored;
        returned = p.returned;
      }

  -- ScheduleVtxoDelegationSet that returns no error, in its two cases. Either the set was
  -- stored before, with as many members as are asked for; then nothing changes, and it returns
  -- for each member a stored delegation that agrees with it in every column but the time. Or no
  -- stored delegation is of the set; its members agree with the one given as first on vault,
  -- program, descriptor, set and digest, carry its number of members as size and the indices 0
  -- to n-1 in order, have ids that differ from each other and from all that are stored, and
  -- spend outputs that differ from each other, from those of the vault's delegations that have
  -- not ended, and from the inputs of the vault's active payments; each has a fee of 0 to
  -- 20000, starts within 30 days of its creation, expires after it starts and within a day, and
  -- has a plan of JSON of 1 to 65536 bytes; the credential is the one enrolled for the vault;
  -- the vault has no open payment batch, and at most 256 delegations that have not ended
  -- afterwards. Then the counter of the credential is advanced, the members are stored, all of
  -- them armed, and nothing else changes.
  pub schedule_rows-cases :
      (key credential : Bytes) (count : ℕ) (head : SpendingDelegation)
      (members : List SpendingDelegation) (db db' : Db Journal)
      (out : List SpendingDelegationSnapshot)
      → schedule_rows hmac c format_time enrolled key credential count head members db
        ≡ ok (db', out)
      → ((db' ≡ db)
          × (length (members_of head.set_id db.lanes.delegations) ≡ length members)
          × Kept db.lanes.delegations members out)
        ⊎ Scheduled key credential count head members db db' out
  schedule_rows-cases key credential count head members db db' out h =
      elim (schedule_rows-Passed hmac c format_time enrolled key credential count head members db
        db' out h) [
          | inl (same, size, found) ↦
              inl
                (same, size, retry_members-Kept head.set_id db.lanes.delegations members out found)
          | inr p ↦ inr (Passed-Scheduled key credential count head members db db' out p)
        ]
