-- ===== src/Ledger/Exclusive.antt =====
-- One active operation per vault: what rejectConcurrentVtxoOperationLocked of
-- internal/policy/vtxo_ledger.go buys.
use arkade_runtime.Base.{
  ℕ, suc, ◌≤◌, ◌≡◌, refl, sym, ap, ◌∙◌, Bool, false, ◌&&◌, ◌||◌, not, List, [], ◌∷◌, arith, inl,
  inr,
}
use arkade_runtime.Base.Tests.{if◌then◌else◌, Bool-cases}
use arkade_runtime.Base.Int64.{ℤ}
use arkade_runtime.Base.Result.{ok, >>=-eq-ok, refuse-eq-ok, refuse_passed, ok_injective, from_ok}
use arkade_runtime.Base.Bytes.{Bytes, bytes_eq, bytes_eq_refl}
use arkade_runtime.Vtxo.State.{reserved, aborted, is_reserved, vtxo_state_blocks_new_operation}
use arkade_runtime.Vtxo.Record.{VtxoOperation, VtxoOperationInput}
use arkade_runtime.Vtxo.Seal.{verify_vtxo_operation, seal_vtxo_operation, seal_shape}
use arkade_runtime.Ledger.Store.{Platform, Db}
use arkade_runtime.Ledger.Allowance.{operations_of, integrity_key_copy}
use arkade_runtime.Ledger.Guards.{
  any_blocking, reject_concurrent, update_state, abort_rows, abort_expired, collect_expired,
}
use arkade_runtime.Ledger.SignCounts.{has_vault}
use arkade_runtime.Ledger.Reserve.{
  Clock, has_operation, insert_operation, check_request, reserve_rows,
}
use arkade_runtime.Ledger.Stages.{Stages, reserve_rows-Stages}

-- Whether a row is an operation of the vault that blocks a new one.
unfoldable pub blocks : Bytes → VtxoOperation → Bool
blocks vault r = bytes_eq r.vault_id vault && vtxo_state_blocks_new_operation r.state

-- How many operations of the vault are active.
unfoldable pub active_count : Bytes → List VtxoOperation → ℕ
active_count vault [] = 0
active_count vault (r ∷ rs) =
    let rest = active_count vault rs in if blocks vault r then suc rest else rest

active_count-update_state :
    (vault : Bytes) (r : VtxoOperation) (ops : List VtxoOperation)
    → r.state ≡ aborted
    → active_count vault (update_state r ops) ≤ active_count vault ops
unfolding active_count update_state blocks vtxo_state_blocks_new_operation
active_count-update_state vault r [] a = omega arith
active_count-update_state vault r (o ∷ os) a =
    elim (Bool-cases (bytes_eq o.operation_id r.operation_id && is_reserved o.state)) [
      | inl hit ↦ rw hit (ground (arith, active_count-update_state vault r os a))
      | inr miss ↦ rw miss (ground (arith, active_count-update_state vault r os a))
    ]

module _ (p : Platform) where
  any_blocking_quiet :
      (key id vault : Bytes) (b : Bool) (ops : List VtxoOperation)
      → any_blocking p key id b (operations_of vault ops) ≡ ok false
      → has_operation id ops ≡ false
      → (b ≡ false) × (active_count vault ops ≡ 0)
  unfolding any_blocking operations_of has_operation active_count blocks
  any_blocking_quiet key id vault b [] h free = (cc, refl)
  any_blocking_quiet key id vault b (o ∷ os) h free =
      elim (Bool-cases (bytes_eq o.vault_id vault)) [
        | inl mine ↦
            let h' : any_blocking p key id b (o ∷ operations_of vault os) ≡ ok false =
              rw mine at h in
            let (_, _, next) = >>=-eq-ok (verify_vtxo_operation p.hmac o key) _ h' in
            let rest =
              any_blocking_quiet key id vault
                (b || (not (bytes_eq o.operation_id id) && vtxo_state_blocks_new_operation o.state))
                os next (ground arith) in
            ground (arith, rest)
        | inr other ↦
            let rest = any_blocking_quiet key id vault b os (rw other at h) (ground arith) in
            (rest.0, rw other rest.1)
      ]

  abort_rows-active_count :
      (key vault : Bytes) (expired rows rows' : List VtxoOperation)
      → abort_rows p key expired rows ≡ ok rows'
      → active_count vault rows' ≤ active_count vault rows
  unfolding abort_rows
  abort_rows-active_count key vault [] rows rows' h = rw (ok_injective h) (omega arith)
  abort_rows-active_count key vault (r ∷ rs) rows rows' h =
      let (sealed, e, h1) =
        >>=-eq-ok (seal_vtxo_operation p.hmac (record r { state = aborted }) key) _ h in
      let shape = seal_shape p.hmac (record r { state = aborted }) sealed key e in
      let aborts : sealed.state ≡ aborted = ap (λ (x : VtxoOperation). x.state) shape in
      let less = active_count-update_state vault sealed rows aborts in
      omega (arith, abort_rows-active_count key vault rs (update_state sealed rows) rows' h1)

  pub abort_expired-active_count :
      (k vault who : Bytes) (now : ℕ) (db db' : Db p.Lanes)
      → abort_expired p k who now db ≡ ok db'
      → active_count vault db'.operations ≤ active_count vault db.operations
  unfolding abort_expired
  abort_expired-active_count k vault who now db db' h =
      from_ok (integrity_key_copy k) _ h λ key _ h1.
        from_ok (collect_expired p key now (operations_of who db.operations)) _ h1 λ expired _ h2.
          from_ok (abort_rows p key expired db.operations) _ h2 λ rows e h3.
            let shape = ok_injective h3 in
            rw (← shape) (abort_rows-active_count key vault expired db.operations rows e)

  -- After `reject_concurrent` no other operation of the vault is active.
  alone_quiet :
      (k vault id : Bytes) (db : Db p.Lanes)
      → reject_concurrent p k vault id db ≡ ok tt
      → has_operation id db.operations ≡ false
      → active_count vault db.operations ≡ 0
  unfolding reject_concurrent
  alone_quiet k vault id db h free = from_ok (integrity_key_copy k) _ h λ key _ h1.
      from_ok (any_blocking p key id false (operations_of vault db.operations)) _ h1 λ b e h2.
        let quiet = refuse_passed b _ h2 in
        (any_blocking_quiet key id vault false db.operations (rw quiet at e) free).1

  pub insert_operation_lem :
      (r : VtxoOperation) (db db' : Db p.Lanes)
      → insert_operation r db ≡ ok db'
      → (has_operation r.operation_id db.operations ≡ false)
        × (db' ≡ record db { operations = r ∷ db.operations })
  unfolding insert_operation
  insert_operation_lem r db db' h =
      let (free, h1) = refuse-eq-ok (has_operation r.operation_id db.operations) _ _ h in
      let (_, h2) = refuse-eq-ok (not (has_vault r.vault_id db.vaults)) _ _ h1 in
      (free, sym (ok_injective h2))

  pub check_request-reserved :
      (rec : VtxoOperation) (inputs : List VtxoOperationInput) (limit : ℤ)
      → check_request p rec inputs limit ≡ ok tt
      → rec.state ≡ reserved
  unfolding check_request
  check_request-reserved rec inputs limit h = ground arith

  -- What a reservation does to the operations: one row in front of those that the sweep left.
  pub reserve_rows-operations :
      (k : Bytes) (clock : Clock) (rec : VtxoOperation) (inputs : List VtxoOperationInput)
      (limit : ℤ) (db db' : Db p.Lanes) (s : Stages p k clock rec inputs limit db db')
      → (db'.operations ≡ s.sealed ∷ s.swept.operations)
        × (has_operation rec.operation_id s.swept.operations ≡ false)
        × (s.sealed ≡ record rec { integrity_mac = s.sealed.integrity_mac })
        × (rec.state ≡ reserved)
  reserve_rows-operations k clock rec inputs limit db db' s =
      let shape = seal_shape p.hmac rec s.sealed s.key s.seals in
      let (free, filled) = insert_operation_lem s.sealed _ s.filled s.inserts in
      let id : s.sealed.operation_id ≡ rec.operation_id =
        ap (λ (x : VtxoOperation). x.operation_id) shape in
      (
        ap (λ (x : Db p.Lanes). x.operations) s.result
            ∙ ap (λ (x : Db p.Lanes). x.operations) filled,
        rw id at free,
        shape,
        check_request-reserved rec inputs limit s.requested,
      )

  -- After a reservation that is accepted its vault has exactly one active operation, whatever
  -- the ledger held before; and no other vault has more active operations than before.
  pub reserve_rows_exclusive :
      (k : Bytes) (clock : Clock) (rec : VtxoOperation) (inputs : List VtxoOperationInput)
      (limit : ℤ) (db db' : Db p.Lanes)
      → reserve_rows p k clock rec inputs limit db ≡ ok db'
      → (active_count rec.vault_id db'.operations ≡ 1)
        × ((vault : Bytes)
            → bytes_eq rec.vault_id vault ≡ false
            → active_count vault db'.operations ≤ active_count vault db.operations)
  unfolding active_count blocks vtxo_state_blocks_new_operation
  reserve_rows_exclusive k clock rec inputs limit db db' h =
      let s = reserve_rows-Stages p k clock rec inputs limit db db' h in
      let (rows, free, shape, fresh) = reserve_rows-operations k clock rec inputs limit db db' s in
      let quiet = alone_quiet k rec.vault_id rec.operation_id s.swept s.alone free in
      let owner : s.sealed.vault_id ≡ rec.vault_id = ap (λ (x : VtxoOperation). x.vault_id) shape in
      let state : s.sealed.state ≡ reserved = ap (λ (x : VtxoOperation). x.state) shape ∙ fresh in
      (
        rw (rows, owner, bytes_eq_refl rec.vault_id, state, quiet),
        λ vault ne.
            rw (rows, owner, ne)
              (abort_expired-active_count k vault rec.vault_id clock.expiry db s.swept s.sweep),
      )
