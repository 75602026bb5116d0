-- ===== src/Ledger/Locks.antt =====
-- Reserved outpoints are locked: rejectOverlappingVtxoInputs of internal/policy/vtxo_ledger.go.
use mathlib.Core.Path.{subst}
use arkade_runtime.Base.{
  ◌≡◌, refl, sym, Bool, false, ◌&&◌, ◌||◌, not, List, [], ◌∷◌, ◌++◌, inl, inr,
}
use arkade_runtime.Base.Tests.{ltb, ◌==◌, Bool-cases}
use arkade_runtime.Base.Lists.{length}
use arkade_runtime.Base.Int64.{ℤ}
use arkade_runtime.Base.Result.{Error, ok, refuse, from_ok, ok_injective, refuse_passed}
use arkade_runtime.Base.Bytes.{Bytes, bytes_eq}
use arkade_runtime.Vtxo.State.{VtxoState, vtxo_state_locks_inputs}
use arkade_runtime.Vtxo.Record.{VtxoOperation, VtxoOperationInput}
use arkade_runtime.Vtxo.Seal.{verify_vtxo_operation, verify_vtxo_operation_input}
use arkade_runtime.Ledger.Store.{Platform, Db}
use arkade_runtime.Ledger.Allowance.{integrity_key_copy}
use arkade_runtime.Ledger.Guards.{
  max_reserved_vtxo_inputs, names_outpoint, parents_of, check_parents, matches, refuse_locked,
  reject_overlapping, abort_expired,
}
use arkade_runtime.Ledger.Reserve.{Clock, reserve_rows}
use arkade_runtime.Ledger.Stages.{reserve_rows-Stages}

-- Whether an operation other than `id` holds the input row in a state that locks it.
unfoldable pub is_held : Bytes → VtxoOperationInput → List VtxoOperation → Bool
is_held id i [] = false
is_held id i (o ∷ os) =
    (bytes_eq o.operation_id i.operation_id
      && (not (bytes_eq o.operation_id id) && vtxo_state_locks_inputs o.state))
    || is_held id i os

-- Whether one of the input rows is a wanted outpoint that another operation holds.
unfoldable pub overlaps :
    Bytes → List VtxoOperationInput → List VtxoOperation → List VtxoOperationInput → Bool
overlaps id wanted ops [] = false
overlaps id wanted ops (i ∷ is) =
    (names_outpoint wanted i && is_held id i ops) || overlaps id wanted ops is

module _ (p : Platform) where
  check_parents-is_held :
      (key id : Bytes) (i : VtxoOperationInput) (ops : List VtxoOperation)
      (here rest : List (Bytes × VtxoState))
      → check_parents p key i (parents_of i ops) ≡ ok here
      → refuse_locked p id (here ++ rest) ≡ ok tt
      → (is_held id i ops ≡ false) × (refuse_locked p id rest ≡ ok tt)
  unfolding check_parents parents_of refuse_locked is_held
  check_parents-is_held key id i [] here rest h free = (
    refl,
    subst (λ (x : List (Bytes × VtxoState)). refuse_locked p id (x ++ rest) ≡ ok tt)
        (sym (ok_injective h)) free,
  )
  check_parents-is_held key id i (o ∷ os) here rest h free =
      elim (Bool-cases (bytes_eq o.operation_id i.operation_id)) [
        | inl mine ↦ from_ok (verify_vtxo_operation p.hmac o key) _ (rw mine at h) λ _ _ h1.
            from_ok (verify_vtxo_operation_input p.hmac i key) _ h1 λ _ _ h2.
              from_ok (refuse (not (bytes_eq i.operation_id o.operation_id)) Error.parent_mismatch)
                _ h2
                λ _ _ h3. from_ok (check_parents p key i (parents_of i os)) _ h3 λ more e h4.
                  let shape = sym (ok_injective h4) in
                  let free' =
                    subst (λ (x : List (Bytes × VtxoState)). refuse_locked p id (x ++ rest) ≡ ok tt)
                      shape free in
                  from_ok
                    (refuse (not (bytes_eq o.operation_id id) && vtxo_state_locks_inputs o.state)
                      Error.outpoint_reserved)
                    _ free'
                    λ _ t free''.
                      let (later, left) = check_parents-is_held key id i os more rest e free'' in
                      (rw (mine, refuse_passed _ _ t) later, left)
        | inr other ↦
            let (later, left) = check_parents-is_held key id i os here rest (rw other at h) free in
            (rw other later, left)
      ]

  matches-overlaps :
      (key id : Bytes) (wanted : List VtxoOperationInput) (ops : List VtxoOperation)
      (rows : List VtxoOperationInput) (found : List (Bytes × VtxoState))
      → matches p key ops wanted rows ≡ ok found
      → refuse_locked p id found ≡ ok tt
      → overlaps id wanted ops rows ≡ false
  unfolding matches overlaps
  matches-overlaps key id wanted ops [] found h free = refl
  matches-overlaps key id wanted ops (i ∷ is) found h free =
      elim (Bool-cases (names_outpoint wanted i)) [
        | inl named ↦
            from_ok (check_parents p key i (parents_of i ops)) _ (rw named at h) λ here e h1.
              from_ok (matches p key ops wanted is) _ h1 λ rest m h2.
                let free' =
                  subst (λ (x : List (Bytes × VtxoState)). refuse_locked p id x ≡ ok tt)
                    (sym (ok_injective h2)) free in
                let (unheld, left) = check_parents-is_held key id i ops here rest e free' in
                rw (named, unheld) (matches-overlaps key id wanted ops is rest m left)
        | inr unnamed ↦
            rw unnamed (matches-overlaps key id wanted ops is found (rw unnamed at h) free)
      ]

  reject_overlapping-overlaps :
      (k id : Bytes) (wanted : List VtxoOperationInput) (db : Db p.Lanes)
      → reject_overlapping p k id wanted db ≡ ok tt
      → overlaps id wanted db.operations db.inputs ≡ false
  unfolding reject_overlapping
  reject_overlapping-overlaps k id wanted db h =
      from_ok
        (refuse (length wanted == 0 || ltb max_reserved_vtxo_inputs (length wanted))
          Error.input_count)
        _ h
        λ _ _ h1. from_ok (integrity_key_copy k) _ h1 λ key _ h2.
          from_ok (matches p key db.operations wanted db.inputs) _ h2
            λ found m h3. matches-overlaps key id wanted db.operations db.inputs found m h3

  -- A reservation is accepted only if, on the tables as they are once expired reservations of
  -- its vault were swept, no other operation holds one of its outpoints in a state that locks
  -- it.
  pub reserve_rows-overlaps :
      (k : Bytes) (clock : Clock) (rec : VtxoOperation) (inputs : List VtxoOperationInput)
      (limit : ℤ) (db db' : Db p.Lanes)
      → reserve_rows p k clock rec inputs limit db ≡ ok db'
      → (swept : Db p.Lanes) × (abort_expired p k rec.vault_id clock.expiry db ≡ ok swept)
        × (overlaps rec.operation_id inputs swept.operations swept.inputs ≡ false)
  reserve_rows-overlaps k clock rec inputs limit db db' h =
      let s = reserve_rows-Stages p k clock rec inputs limit db db' h in
      (s.swept, s.sweep, reject_overlapping-overlaps k rec.operation_id inputs s.swept s.apart)
