-- ===== src/Lanes/Claim.antt =====
-- A claimed delegation stays within the allowance: the case "claimed" of AdvanceSpendingDelegation in
-- internal/policy/spending_delegation.go, with spentInWindow of internal/policy/ledger.go.
use arkade_runtime.Base.{
  ℕ, ◌+◌, ◌-◌, ◌<◌, ◌≤◌, ◌≡◌, refl, sym, ap, ◌∙◌, true, false, ◌&&◌, ◌||◌, Option, none, some, List,
  [], ◌∷◌, arith, ◌⊎◌, inl, inr,
}
use mathlib.Core.Path.{subst}
use arkade_runtime.Base.Tests.{ltb, ◌==◌, Bool-cases}
use arkade_runtime.Base.Lists.{All, length}
use arkade_runtime.Base.Int64.{
  ℤ, pos, negsuc, InInt64, is_neg, ltb_ℤ, int64_half, int64_sub, int64_sub_le, max_int64,
}
use arkade_runtime.Base.Result.{Error, ok, refuse, from_ok, ok_injective}
use arkade_runtime.Base.Bytes.{Bytes}
use arkade_runtime.Vtxo.Record.{VtxoOperation}
use arkade_runtime.Vtxo.Seal.{verify_vtxo_operation}
use arkade_runtime.Ledger.Store.{Platform, IsLawful, Db}
use arkade_runtime.Ledger.Allowance.{
  add_outflow, add_charge, charge, sum_operations, spent_in_window, operations_of,
  integrity_key_copy,
}
use arkade_runtime.Ledger.Cap.{add_outflow-eq-ok, add_outflow_fits, pos_injective}
use arkade_runtime.Renewal.Evidence.{Codec}
use arkade_runtime.Delegation.Journal.{claimed, SpendingDelegationEvent, SpendingDelegationSnapshot}
use arkade_runtime.Delegation.Guards.{delegation_allowance}
use arkade_runtime.Lanes.Tables.{Journal, tables}
use arkade_runtime.Lanes.Advance.{
  find_delegation, insert_delegation_event, over_allowance, check_delegation_phase, advance_rows,
}
use arkade_runtime.Lanes.Lawful.{int64_add_typed, tables-IsLawful}
use arkade_runtime.Lanes.Cost.{
  IsValidDelegation, valid_fee, delegation_outflow, delegation_allowance_exact,
  insert_delegation-outflow, insert_delegation-valid, find-valid, claim-cost,
}
use arkade_runtime.Lanes.Guarded.{check_claim-Claimable, Advanced, advance_rows-cases}

module _ (p : Platform) where
  add_charge_int64 :
      (total t : ℤ) (need : Option ℤ) → InInt64 total → add_charge p total need ≡ ok t → InInt64 t
  unfolding add_charge
  add_charge_int64 total t none w h = subst InInt64 (ok_injective h) w
  add_charge_int64 total t (some need) w h =
      from_ok (refuse (ltb_ℤ (int64_sub max_int64 need) total) Error.period_overflow) _ h
        λ _ _ h1. subst InInt64 (ok_injective h1) (int64_add_typed total need)

  sum_operations_int64 :
      (key : Bytes) (now : ℕ) (total t : ℤ) (rows : List VtxoOperation)
      → InInt64 total
      → sum_operations p key now total rows ≡ ok t
      → InInt64 t
  unfolding sum_operations
  sum_operations_int64 key now total t [] w h = subst InInt64 (ok_injective h) w
  sum_operations_int64 key now total t (r ∷ rs) w h =
      from_ok (verify_vtxo_operation p.hmac r key) _ h λ _ _ h1.
        from_ok (charge p now r) _ h1 λ need _ h2.
          from_ok (add_charge p total need) _ h2
            λ t' e h3. sum_operations_int64 key now t' t rs (add_charge_int64 total t' need w e) h3

  add_outflow_int64 : (a b t : ℤ) → add_outflow a b ≡ ok t → InInt64 t
  unfolding add_outflow
  add_outflow_int64 a b t h =
      from_ok (refuse (is_neg a || is_neg b) Error.negative_outflow) _ h λ _ _ h1.
        from_ok (refuse (ltb_ℤ (pos 0) b && ltb_ℤ (int64_sub max_int64 b) a) Error.outflow_overflow)
          _ h1 λ _ _ h2. subst InInt64 (ok_injective h2) (int64_add_typed a b)

  -- The period's total is what all else counts, and what delegations count.
  pub record Parts (k : Bytes) (now : ℕ) (db : Db p.Lanes) (vault : Bytes) (used : ℤ) : Type 0 where
    pub rest : ℕ
    pub delegated : ℕ
    pub total : used ≡ pos (rest + delegated)
    pub fits : rest + delegated < int64_half
    pub allowance : p.delegation_allowance db.lanes k vault now ≡ ok (pos delegated)
    pub moved :
        (db' : Db p.Lanes) (d : ℕ)
        → db'.operations ≡ db.operations
        → p.renewal_allowance db'.lanes k vault now ≡ p.renewal_allowance db.lanes k vault now
        → p.delegation_allowance db'.lanes k vault now ≡ ok (pos d)
        → rest + d < int64_half
        → spent_in_window p k now db' vault ≡ ok (pos (rest + d))

  keyed_same : (k key : Bytes) → integrity_key_copy k ≡ ok key → key ≡ k
  unfolding integrity_key_copy
  keyed_same k key h = elim (Bool-cases (length k == 32)) [
    | inl fits ↦ sym (ok_injective (rw fits at h))
    | inr bad ↦ absurd (ground arith)
  ]

  recount :
      (k : Bytes) (now : ℕ) (db : Db p.Lanes) (vault : Bytes) (total renewal : ℤ) (m d : ℕ)
      → integrity_key_copy k ≡ ok k
      → sum_operations p k now (pos 0) (operations_of vault db.operations) ≡ ok total
      → p.renewal_allowance db.lanes k vault now ≡ ok renewal
      → add_outflow total renewal ≡ ok (pos m)
      → p.delegation_allowance db.lanes k vault now ≡ ok (pos d)
      → m + d < int64_half
      → spent_in_window p k now db vault ≡ ok (pos (m + d))
  unfolding spent_in_window
  recount k now db vault total renewal m d keyed summed batches added delegations room =
      rw (keyed, summed, batches, added, delegations) (add_outflow_fits m d room)

  spent_in_window-Parts :
      (k : Bytes) (now : ℕ) (db : Db p.Lanes) (vault : Bytes) (used : ℤ)
      → IsLawful p
      → spent_in_window p k now db vault ≡ ok used
      → Parts k now db vault used
  unfolding spent_in_window
  spent_in_window-Parts k now db vault used law h =
      from_ok (integrity_key_copy k) _ h λ key keyed h1.
        from_ok (sum_operations p key now (pos 0) (operations_of vault db.operations)) _ h1
          λ total summed h2.
            from_ok (p.renewal_allowance db.lanes key vault now) _ h2 λ renewal batches h3.
              from_ok (add_outflow total renewal) _ h3 λ total' added h4.
                from_ok (p.delegation_allowance db.lanes key vault now) _ h4
                  λ delegation delegations h5.
                    let small = add_outflow_int64 total renewal total' added in
                    let typed =
                      law.delegation_typed db.lanes key vault now delegation delegations in
                    let (m, n, is_m, is_n, sum, room) =
                      add_outflow-eq-ok total' delegation used small typed h5 in
                    let same = keyed_same k key keyed in
                    record {
                      rest = m;
                      delegated = n;
                      total = sum;
                      fits = room;
                      allowance = rw (← same) (delegations ∙ ap ok is_n);
                      moved = λ db' d ops renewals ds room'.
                          recount k now db' vault total renewal m d (keyed ∙ ap ok same)
                            (rw ops (rw (← same) summed)) (renewals ∙ rw (← same) batches)
                            (added ∙ ap ok is_m) ds room';
                    }

pub granted_parts :
    (allowance used fee : ℤ) (u f : ℕ) (hmac : Bytes → Bytes → Bytes) (c : Codec)
    (format_time : ℕ → Bytes)
    → InInt64 allowance
    → used ≡ pos u
    → fee ≡ pos f
    → over_allowance hmac c format_time allowance used fee ≡ false
    → (a : ℕ) × (allowance ≡ pos a) × (a < int64_half) × (u + f ≤ a)
granted_parts (pos a) used fee u f hmac c format_time w is_u is_f h0 =
    let h : over_allowance hmac c format_time (pos a) (pos u) (pos f) ≡ false =
      rw (is_u, is_f) at h0 in
    let room : u ≤ a = ground arith in
    let left = int64_sub_le a u w room in
    let least : ltb_ℤ (int64_sub (pos a) (pos u)) (pos f) ≡ false = ground arith in
    let least' : ltb_ℤ (pos (a - u)) (pos f) ≡ false = rw left at least in
    (a, refl, w, ground arith)
granted_parts (negsuc a) used fee u f hmac c format_time w is_u is_f h = absurd (ground arith)

module _ (hmac : Bytes → Bytes → Bytes) (c : Codec) (format_time : ℕ → Bytes) where
  outflow_is :
      (vault : Bytes) (now d : ℕ) (ds : List SpendingDelegationSnapshot)
      → All (IsValidDelegation c) ds
      → delegation_allowance c vault now ds ≡ ok (pos d)
      → delegation_outflow c vault now ds ≡ d
  outflow_is vault now d ds valid h =
      let exact = sym (delegation_allowance_exact c vault now ds valid) ∙ h in
      elim (Bool-cases (ltb (delegation_outflow c vault now ds) int64_half)) [
        | inl fits ↦ pos_injective (ok_injective (rw fits at exact))
        | inr over ↦ absurd (ground arith)
      ]

  outflow_fits :
      (vault : Bytes) (now d : ℕ) (ds : List SpendingDelegationSnapshot)
      → All (IsValidDelegation c) ds
      → delegation_outflow c vault now ds ≡ d
      → d < int64_half
      → delegation_allowance c vault now ds ≡ ok (pos d)
  outflow_fits vault now d ds valid h room =
      let exact = delegation_allowance_exact c vault now ds valid in
      let fits : ltb d int64_half ≡ true = ground arith in exact ∙ rw h (rw fits refl)

  -- What a claim leaves of the period, for the delegation that it found.
  claim-spent :
      (key : Bytes) (now : ℕ) (e : SpendingDelegationEvent) (allowance : ℤ) (db db' : Db Journal)
      (s out : SpendingDelegationSnapshot)
      → All (IsValidDelegation c) db.lanes.delegations
      → InInt64 allowance
      → e.phase ≡ claimed
      → find_delegation e.operation_id db.lanes.delegations ≡ ok s
      → Advanced hmac c format_time key now e allowance db db' s out
      → (u : ℕ) × (f : ℕ) × (a : ℕ) × (s.operation.fee_sats ≡ pos f)
        × (allowance ≡ pos a)
        × (spent_in_window (tables hmac c format_time) key now db s.operation.vault_id ≡ ok (pos u))
        × (spent_in_window (tables hmac c format_time) key now db' s.operation.vault_id
            ≡ ok (pos (u + f)))
        × (u + f ≤ a)
  unfolding check_delegation_phase
  claim-spent key now e allowance db db' s out valid typed is found done =
      let p = tables hmac c format_time in
      let vault = s.operation.vault_id in
      let ds = db.lanes.delegations in
      let free =
        check_claim-Claimable hmac c format_time key now s allowance db (rw is at done.checked) in
      let (f, fee, _) = valid_fee c s.operation (find-valid c e.operation_id s ds found valid) in
      let parts =
        spent_in_window-Parts p key now db vault free.used (tables-IsLawful hmac c format_time)
          free.counted in
      let u = parts.rest + parts.delegated in
      let (a, is_a, small, within) =
        granted_parts allowance free.used s.operation.fee_sats u f hmac c format_time typed
          parts.total fee free.granted in
      let (nothing, cost) = claim-cost c now e s f is free.first fee in
      let before = outflow_is vault now parts.delegated ds valid parts.allowance in
      let moved = insert_delegation-outflow c vault now e s ds found in
      let after : delegation_outflow c vault now (insert_delegation_event e ds)
          ≡ parts.delegated + f =
        omega arith in
      let later =
        outflow_fits vault now (parts.delegated + f) (insert_delegation_event e ds)
          (insert_delegation-valid c e ds valid) after (omega arith) in
      (
        u,
        f,
        a,
        fee,
        is_a,
        free.counted ∙ ap ok parts.total,
        rw done.rows (
            parts.moved _ (parts.delegated + f) refl refl later (omega arith)
            ∙ ap ok (ap pos (omega arith))),
        within,
      )

  -- AdvanceSpendingDelegation that accepts the phase "claimed", on authenticated delegations
  -- and an allowance that is an int64: either the claim was recorded before and nothing
  -- changes, or the delegation's fee is added to what its vault has spent in the period,
  -- exactly, and the sum does not exceed the allowance.
  pub claim-within :
      (key : Bytes) (now : ℕ) (e : SpendingDelegationEvent) (allowance : ℤ) (db db' : Db Journal)
      (out : SpendingDelegationSnapshot)
      → All (IsValidDelegation c) db.lanes.delegations
      → InInt64 allowance
      → e.phase ≡ claimed
      → advance_rows hmac c format_time key now e allowance db ≡ ok (db', out)
      → (s : SpendingDelegationSnapshot) × (find_delegation e.operation_id db.lanes.delegations
          ≡ ok s)
        × ((db' ≡ db)
            ⊎ ((u : ℕ) × (f : ℕ) × (a : ℕ) × (s.operation.fee_sats ≡ pos f)
                × (allowance ≡ pos a)
                × (spent_in_window (tables hmac c format_time) key now db s.operation.vault_id
                    ≡ ok (pos u))
                × (spent_in_window (tables hmac c format_time) key now db' s.operation.vault_id
                    ≡ ok (pos (u + f)))
                × (u + f ≤ a)))
  claim-within key now e allowance db db' out valid typed is h =
      let (s, found, how) =
        advance_rows-cases hmac c format_time key now e allowance db db' out h in
      (
        s,
        found,
        elim how [
          | inl (same, _, _) ↦ inl same
          | inr done ↦ inr (claim-spent key now e allowance db db' s out valid typed is found done)
        ],
      )
