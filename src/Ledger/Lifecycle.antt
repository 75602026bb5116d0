-- ===== src/Ledger/Lifecycle.antt =====
-- The life of the policy store of internal/policy/vtxo_ledger.go as a relation: reservations,
-- transitions and signed commits in any order, by any vaults.
use arkade_runtime.Base.{
  ℕ, ◌≤◌, ◌≡◌, refl, sym, ap, ◌∙◌, true, false, not, ◌&&◌, ◌||◌, List, [], ◌∷◌, arith, inl, inr,
}
use mathlib.Core.Path.{subst}
use arkade_runtime.Base.Tests.{◌==◌, Bool-cases}
use arkade_runtime.Base.Int64.{ℤ}
use arkade_runtime.Base.Result.{Error, ok, refuse, from_ok, ok_injective}
use arkade_runtime.Base.Bytes.{Bytes, bytes_eq, bytes_eq_sound, is_empty}
use arkade_runtime.Vtxo.State.{
  VtxoState, reserved, aborted, signed, is_reserved, is_signed, valid_vtxo_transition,
}
use arkade_runtime.Vtxo.Record.{VtxoOperation, VtxoOperationInput}
use arkade_runtime.Vtxo.Seal.{seal_vtxo_operation, seal_shape}
use arkade_runtime.Ledger.Store.{Platform, Db}
use arkade_runtime.Ledger.Allowance.{integrity_key_copy, operations_of}
use arkade_runtime.Ledger.Guards.{update_state, abort_rows, abort_expired, collect_expired}
use arkade_runtime.Ledger.Reserve.{Clock, reserve_rows, has_operation}
use arkade_runtime.Ledger.SignCounts.{advance_sign_count_locked}
use arkade_runtime.Ledger.Stages.{reserve_rows-Stages}
use arkade_runtime.Ledger.Exclusive.{active_count, reserve_rows-operations, reserve_rows_exclusive}
use arkade_runtime.Ledger.Transition.{
  update_vtxo_operation, transition_vtxo_operation, commit_signed_vtxo_operation,
  load_vtxo_operation, Swap, report, commit_swap,
}
use arkade_runtime.Ledger.Swap.{key_count, update-key_count, update-active_count}
use arkade_runtime.Ledger.Signed.{report_replay_lem}

-- Primary keys are unique, and no vault has two active operations.
pub record WellFormed (ops : List VtxoOperation) : Type 0 where
  pub keyed : (id : Bytes) → key_count id ops ≤ 1
  pub alone : (vault : Bytes) → active_count vault ops ≤ 1

update_state-key_count :
    (id : Bytes) (r : VtxoOperation) (ops : List VtxoOperation)
    → key_count id (update_state r ops) ≡ key_count id ops
unfolding update_state key_count
update_state-key_count id r [] = refl
update_state-key_count id r (o ∷ os) =
    elim (Bool-cases (bytes_eq o.operation_id r.operation_id && is_reserved o.state)) [
      | inl e ↦ rw e (ground (arith, update_state-key_count id r os))
      | inr e ↦ rw e (ground (arith, update_state-key_count id r os))
    ]

absent-key_count :
    (id : Bytes) (ops : List VtxoOperation) → has_operation id ops ≡ false → key_count id ops ≡ 0
unfolding has_operation key_count
absent-key_count id [] h = refl
absent-key_count id (o ∷ os) h = let rest = absent-key_count id os (ground arith) in ground arith

module _ (p : Platform) where
  abort_rows-key_count :
      (key id : Bytes) (expired rows rows' : List VtxoOperation)
      → abort_rows p key expired rows ≡ ok rows'
      → key_count id rows' ≡ key_count id rows
  unfolding abort_rows
  abort_rows-key_count key id [] rows rows' h = ap (key_count id) (sym (ok_injective h))
  abort_rows-key_count key id (r ∷ rs) rows rows' h =
      from_ok (seal_vtxo_operation p.hmac (record r { state = aborted }) key) _ h λ sealed _ h1.
        abort_rows-key_count key id rs (update_state sealed rows) rows' h1
        ∙ update_state-key_count id sealed rows

  abort_expired-key_count :
      (k id who : Bytes) (now : ℕ) (db db' : Db p.Lanes)
      → abort_expired p k who now db ≡ ok db'
      → key_count id db'.operations ≡ key_count id db.operations
  unfolding abort_expired
  abort_expired-key_count k id who now db db' h = from_ok (integrity_key_copy k) _ h λ key _ h1.
      from_ok (collect_expired p key now (operations_of who db.operations)) _ h1 λ expired _ h2.
        from_ok (abort_rows p key expired db.operations) _ h2 λ rows e h3.
          ap (λ (x : Db p.Lanes). key_count id x.operations) (sym (ok_injective h3))
          ∙ abort_rows-key_count key id expired db.operations rows e

  fresh_key :
      (id : Bytes) (r : VtxoOperation) (ops : List VtxoOperation)
      → has_operation r.operation_id ops ≡ false
      → key_count id ops ≤ 1
      → key_count id (r ∷ ops) ≤ 1
  unfolding key_count
  fresh_key id r ops free small = elim (Bool-cases (bytes_eq r.operation_id id)) [
    | inl e ↦
        let none = absent-key_count id ops (rw (bytes_eq_sound r.operation_id id e) at free) in
        ground arith
    | inr e ↦ rw e small
  ]

  pub reserve-WellFormed :
      (k : Bytes) (clock : Clock) (rec : VtxoOperation) (inputs : List VtxoOperationInput)
      (limit : ℤ) (db db' : Db p.Lanes)
      → WellFormed db.operations
      → reserve_rows p k clock rec inputs limit db ≡ ok db'
      → WellFormed db'.operations
  reserve-WellFormed k clock rec inputs limit db db' w h =
      let s = reserve_rows-Stages p k clock rec inputs limit db db' h in
      let (rows, free, shape, fresh) =
        reserve_rows-operations p k clock rec inputs limit db db' s in
      let (own, others) = reserve_rows_exclusive p k clock rec inputs limit db db' h in
      let id : s.sealed.operation_id ≡ rec.operation_id =
        ap (λ (x : VtxoOperation). x.operation_id) shape in
      record {
        keyed = λ i. rw rows (
            fresh_key i s.sealed s.swept.operations (rw id free) (
              rw (abort_expired-key_count k i rec.vault_id clock.expiry db s.swept s.sweep)
                (w.keyed i)));
        alone = λ v. elim (Bool-cases (bytes_eq rec.vault_id v)) [
          | inl e ↦ let same = bytes_eq_sound rec.vault_id v e in ground arith
          | inr e ↦ let low = others v e in let before = w.alone v in omega arith
        ];
      }

  update-WellFormed :
      (expected : VtxoState) (rec : VtxoOperation) (ops : List VtxoOperation)
      → valid_vtxo_transition expected rec.state ≡ true
      → WellFormed ops
      → WellFormed (update_vtxo_operation expected rec ops).0
  update-WellFormed expected rec ops v w = record {
    keyed = λ i. rw (update-key_count expected rec i ops) (w.keyed i);
    alone = λ a.
        let low = update-active_count expected rec a ops v in let before = w.alone a in omega arith;
  }

  report-WellFormed :
      (k : Bytes) (expected : VtxoState) (sealed : VtxoOperation) (db : Db p.Lanes) (out : Swap p)
      → valid_vtxo_transition expected sealed.state ≡ true
      → WellFormed db.operations
      → report p k sealed db (update_vtxo_operation expected sealed db.operations) ≡ ok out
      → WellFormed out.0.operations
  report-WellFormed k expected sealed db out v w h =
      let next = update-WellFormed expected sealed db.operations v w in
      let is_fine = λ (x : Swap p). WellFormed x.0.operations in
      elim (Bool-cases ((update_vtxo_operation expected sealed db.operations).1 == 1)) [
        | inl hit ↦ subst is_fine (ok_injective (rw hit at h)) next
        | inr miss ↦
            from_ok
              (load_vtxo_operation p k sealed.operation_id (record db {
                operations = (update_vtxo_operation expected sealed db.operations).0;
              }))
              _ (rw miss at h) λ c loaded h1. subst is_fine (ok_injective h1) next
      ]

  commit_swap-WellFormed :
      (k credential : Bytes) (count : ℕ) (sealed : VtxoOperation) (db : Db p.Lanes) (out : Swap p)
      → sealed.state ≡ signed
      → WellFormed db.operations
      → commit_swap p k sealed credential count db
          (update_vtxo_operation reserved sealed db.operations)
        ≡ ok out
      → WellFormed out.0.operations
  unfolding valid_vtxo_transition
  commit_swap-WellFormed k credential count sealed db out st w h =
      let valid : valid_vtxo_transition reserved sealed.state ≡ true = rw st refl in
      let next = update-WellFormed reserved sealed db.operations valid w in
      let is_fine = λ (x : Swap p). WellFormed x.0.operations in
      elim (Bool-cases ((update_vtxo_operation reserved sealed db.operations).1 == 1)) [
        | inl hit ↦
            from_ok
              (advance_sign_count_locked p.hmac k db.vaults sealed.vault_id credential count
                db.sign_counts)
              _ (rw hit at h) λ counts e h1. subst is_fine (ok_injective h1) next
        | inr miss ↦
            from_ok
              (load_vtxo_operation p k sealed.operation_id (record db {
                operations = (update_vtxo_operation reserved sealed db.operations).0;
              }))
              _ (rw miss at h)
              λ c loaded h1.
                let (same, _) =
                  report_replay_lem p k sealed.vault_id credential count db c out.0 out.1 out.2
                    h1 in
                rw (same.0) w
      ]

  pub transition-WellFormed :
      (k : Bytes) (expected : VtxoState) (rec : VtxoOperation) (db : Db p.Lanes) (out : Swap p)
      → WellFormed db.operations
      → transition_vtxo_operation p k expected rec db ≡ ok out
      → WellFormed out.0.operations
  unfolding transition_vtxo_operation
  transition-WellFormed k expected rec db out w h =
      from_ok (refuse (is_empty rec.operation_id || is_empty rec.vault_id) Error.identity_required)
        _ h
        λ _ _ h1.
          from_ok (refuse (not (valid_vtxo_transition expected rec.state)) Error.bad_transition) _
            h1
            λ _ v h2. from_ok (integrity_key_copy k) _ h2 λ key _ h3.
              from_ok (seal_vtxo_operation p.hmac rec key) _ h3 λ sealed seals h4.
                let state : sealed.state ≡ rec.state =
                  ap (λ (x : VtxoOperation). x.state) (seal_shape p.hmac rec sealed key seals) in
                let valid : valid_vtxo_transition expected rec.state ≡ true = ground arith in
                report-WellFormed k expected sealed db out (rw state valid) w h4

  pub commit-WellFormed :
      (k credential : Bytes) (count : ℕ) (rec : VtxoOperation) (db : Db p.Lanes) (out : Swap p)
      → WellFormed db.operations
      → commit_signed_vtxo_operation p k rec credential count db ≡ ok out
      → WellFormed out.0.operations
  unfolding commit_signed_vtxo_operation
  commit-WellFormed k credential count rec db out w h =
      from_ok
        (refuse
          (is_empty rec.operation_id
            || is_empty rec.vault_id
            || is_empty credential
            || not (is_signed rec.state))
          Error.identity_required)
        _ h
        λ _ asked h1. from_ok (integrity_key_copy k) _ h1 λ key _ h2.
          from_ok (seal_vtxo_operation p.hmac rec key) _ h2 λ sealed seals h3.
            let state : sealed.state ≡ rec.state =
              ap (λ (x : VtxoOperation). x.state) (seal_shape p.hmac rec sealed key seals) in
            let is_new : rec.state ≡ signed = ground arith in
            commit_swap-WellFormed k credential count sealed db out (state ∙ is_new) w h3
