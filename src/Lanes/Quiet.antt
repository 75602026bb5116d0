-- ===== src/Lanes/Quiet.antt =====
-- What the guards of a vault's one active operation leave of its payments: rejectConcurrent…, the
-- transitions and the commits of internal/policy/vtxo_ledger.go beside the batch journals.
use arkade_runtime.Base.{
  ℕ, ◌≤◌, ◌≡◌, refl, sym, ap, ◌∙◌, Bool, true, false, ◌&&◌, ◌||◌, not, List, [], ◌∷◌, arith, inl,
  inr,
}
use mathlib.Core.Path.{subst}
use arkade_runtime.Base.Tests.{◌==◌, Bool-cases}
use arkade_runtime.Base.Lists.{length}
use arkade_runtime.Base.Result.{Error, ok, refuse, from_ok, ok_injective, refuse_passed}
use arkade_runtime.Base.Bytes.{Bytes, bytes_eq, is_empty}
use arkade_runtime.Vtxo.State.{
  VtxoState, reserved, signed, is_signed, valid_vtxo_transition, vtxo_state_blocks_new_operation,
}
use arkade_runtime.Vtxo.Record.{VtxoOperation}
use arkade_runtime.Vtxo.Canonical.{check_vtxo_operation, canonical_vtxo_operation}
use arkade_runtime.Vtxo.Seal.{
  verify_vtxo_operation, vtxo_operation_mac, seal_vtxo_operation, seal_shape,
}
use arkade_runtime.Ledger.Store.{Platform, Db}
use arkade_runtime.Ledger.Allowance.{operations_of, integrity_key_copy}
use arkade_runtime.Ledger.Guards.{
  any_blocking, reject_concurrent, abort_expired, collect_expired, abort_rows,
}
use arkade_runtime.Ledger.SignCounts.{advance_sign_count_locked}
use arkade_runtime.Ledger.Exclusive.{active_count, blocks}
use arkade_runtime.Ledger.Transition.{
  update_vtxo_operation, transition_vtxo_operation, commit_signed_vtxo_operation,
  load_vtxo_operation, Swap, report, commit_swap,
}
use arkade_runtime.Ledger.Swap.{update-active_count}
use arkade_runtime.Ledger.Signed.{report_replay_lem}

module _ (p : Platform) where
  -- A row that verifies has an id.
  verified_id :
      (o : VtxoOperation) (key : Bytes)
      → verify_vtxo_operation p.hmac o key ≡ ok tt
      → is_empty o.operation_id ≡ false
  unfolding verify_vtxo_operation vtxo_operation_mac canonical_vtxo_operation check_vtxo_operation
  verified_id o key h =
      from_ok (refuse (not (length o.integrity_mac == 32)) Error.mac_missing) _ h λ _ _ h1.
        from_ok (vtxo_operation_mac p.hmac o key) _ h1 λ want m _.
          from_ok (refuse (not (length key == 32)) Error.key_size) _ m λ _ _ m1.
            from_ok (canonical_vtxo_operation o) _ m1 λ payload cn _.
              from_ok (check_vtxo_operation o) _ cn λ _ ch _.
                from_ok
                  (refuse (is_empty o.operation_id || is_empty o.vault_id) Error.identity_required)
                  _ ch λ _ named _. ground arith

  not_nil_id : (id : Bytes) → is_empty id ≡ false → bytes_eq id [] ≡ false
  unfolding bytes_eq
  not_nil_id [] h = cc
  not_nil_id (x ∷ xs) h = refl

  any_blocking-none :
      (key vault : Bytes) (b : Bool) (ops : List VtxoOperation)
      → any_blocking p key [] b (operations_of vault ops) ≡ ok false
      → (b ≡ false) × (active_count vault ops ≡ 0)
  unfolding any_blocking operations_of active_count blocks
  any_blocking-none key vault b [] h = (cc, refl)
  any_blocking-none key vault b (o ∷ os) h = elim (Bool-cases (bytes_eq o.vault_id vault)) [
    | inl mine ↦ from_ok (verify_vtxo_operation p.hmac o key) _ (rw mine at h) λ _ v next.
        let named = not_nil_id o.operation_id (verified_id o key v) in
        let rest =
          any_blocking-none key vault
            (b || (not (bytes_eq o.operation_id []) && vtxo_state_blocks_new_operation o.state)) os
            next in
        ground (arith, rest)
    | inr other ↦
        let rest = any_blocking-none key vault b os (rw other at h) in (rest.0, rw other rest.1)
  ]

  -- After the guard with no operation excepted, no payment of the vault is active.
  pub reject_concurrent-quiet :
      (k vault : Bytes) (db : Db p.Lanes)
      → reject_concurrent p k vault [] db ≡ ok tt
      → active_count vault db.operations ≡ 0
  unfolding reject_concurrent
  reject_concurrent-quiet k vault db h = from_ok (integrity_key_copy k) _ h λ key _ h1.
      from_ok (any_blocking p key [] false (operations_of vault db.operations)) _ h1 λ b e h2.
        (any_blocking-none key vault false db.operations (rw (refuse_passed b _ h2) at e)).1

  pub abort_expired-lanes :
      (k who : Bytes) (now : ℕ) (db db' : Db p.Lanes)
      → abort_expired p k who now db ≡ ok db'
      → db.lanes ≡ db'.lanes
  unfolding abort_expired
  abort_expired-lanes k who now db db' h = from_ok (integrity_key_copy k) _ h λ key _ h1.
      from_ok (collect_expired p key now (operations_of who db.operations)) _ h1 λ expired _ h2.
        from_ok (abort_rows p key expired db.operations) _ h2
          λ rows e h3. ap (λ (x : Db p.Lanes). x.lanes) (ok_injective h3)

  -- No payment becomes active, and the other tables stay.
  abbrev pub Calmer : Db p.Lanes → Db p.Lanes → Type 0
  Calmer db db' =
      ((v : Bytes) → active_count v db'.operations ≤ active_count v db.operations)
      × (db.lanes ≡ db'.lanes)

  report-Calmer :
      (k : Bytes) (expected : VtxoState) (sealed : VtxoOperation) (db : Db p.Lanes) (out : Swap p)
      → valid_vtxo_transition expected sealed.state ≡ true
      → report p k sealed db (update_vtxo_operation expected sealed db.operations) ≡ ok out
      → Calmer db out.0
  report-Calmer k expected sealed db out valid h =
      let next = λ (v : Bytes). update-active_count expected sealed v db.operations valid in
      elim (Bool-cases ((update_vtxo_operation expected sealed db.operations).1 == 1)) [
        | inl hit ↦ subst (λ (x : Swap p). Calmer db x.0) (ok_injective (rw hit at h)) (next, refl)
        | inr miss ↦
            from_ok
              (load_vtxo_operation p k sealed.operation_id (record db {
                operations = (update_vtxo_operation expected sealed db.operations).0;
              }))
              _ (rw miss at h)
              λ c _ h1. subst (λ (x : Swap p). Calmer db x.0) (ok_injective h1) (next, refl)
      ]

  pub transition-Calmer :
      (k : Bytes) (expected : VtxoState) (rec : VtxoOperation) (db : Db p.Lanes) (out : Swap p)
      → transition_vtxo_operation p k expected rec db ≡ ok out
      → Calmer db out.0
  unfolding transition_vtxo_operation
  transition-Calmer k expected rec db out h =
      from_ok (refuse (is_empty rec.operation_id || is_empty rec.vault_id) Error.identity_required)
        _ h
        λ _ _ h1.
          from_ok (refuse (not (valid_vtxo_transition expected rec.state)) Error.bad_transition) _
            h1
            λ _ v h2. from_ok (integrity_key_copy k) _ h2 λ key _ h3.
              from_ok (seal_vtxo_operation p.hmac rec key) _ h3 λ sealed seals h4.
                let state : sealed.state ≡ rec.state =
                  ap (λ (x : VtxoOperation). x.state) (seal_shape p.hmac rec sealed key seals) in
                let valid : valid_vtxo_transition expected rec.state ≡ true = ground arith in
                report-Calmer k expected sealed db out (rw state valid) h4

  commit_swap-Calmer :
      (k credential : Bytes) (count : ℕ) (sealed : VtxoOperation) (db : Db p.Lanes) (out : Swap p)
      → sealed.state ≡ signed
      → commit_swap p k sealed credential count db
          (update_vtxo_operation reserved sealed db.operations)
        ≡ ok out
      → Calmer db out.0
  unfolding valid_vtxo_transition
  commit_swap-Calmer k credential count sealed db out st h =
      let valid : valid_vtxo_transition reserved sealed.state ≡ true = rw st refl in
      let next = λ (v : Bytes). update-active_count reserved sealed v db.operations valid in
      elim (Bool-cases ((update_vtxo_operation reserved sealed db.operations).1 == 1)) [
        | inl hit ↦
            from_ok
              (advance_sign_count_locked p.hmac k db.vaults sealed.vault_id credential count
                db.sign_counts)
              _ (rw hit at h)
              λ counts _ h1. subst (λ (x : Swap p). Calmer db x.0) (ok_injective h1) (next, refl)
        | inr miss ↦
            from_ok
              (load_vtxo_operation p k sealed.operation_id (record db {
                operations = (update_vtxo_operation reserved sealed db.operations).0;
              }))
              _ (rw miss at h)
              λ c _ h1.
                let (same, _) =
                  report_replay_lem p k sealed.vault_id credential count db c out.0 out.1 out.2
                    h1 in
                subst (Calmer db) (sym same.0) (λ v. omega arith, refl)
      ]

  pub commit-Calmer :
      (k credential : Bytes) (count : ℕ) (rec : VtxoOperation) (db : Db p.Lanes) (out : Swap p)
      → commit_signed_vtxo_operation p k rec credential count db ≡ ok out
      → Calmer db out.0
  unfolding commit_signed_vtxo_operation
  commit-Calmer k credential count rec db out h =
      from_ok
        (refuse
          (is_empty rec.operation_id
            || is_empty rec.vault_id
            || is_empty credential
            || not (is_signed rec.state))
          Error.identity_required)
        _ h
        λ _ asked h1. from_ok (integrity_key_copy k) _ h1 λ key _ h2.
          from_ok (seal_vtxo_operation p.hmac rec key) _ h2 λ sealed seals h3.
            let state : sealed.state ≡ rec.state =
              ap (λ (x : VtxoOperation). x.state) (seal_shape p.hmac rec sealed key seals) in
            let is_new : rec.state ≡ signed = ground arith in
            commit_swap-Calmer k credential count sealed db out (state ∙ is_new) h3
