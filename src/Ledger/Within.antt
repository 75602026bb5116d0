-- ===== src/Ledger/Within.antt =====
-- A reservation stays within the allowance (ReserveVtxoOperation of internal/policy/vtxo_ledger.go
-- and spentInWindow of internal/policy/ledger.go).
use arkade_runtime.Base.{
  ℕ, ◌+◌, ◌<◌, ◌≤◌, ◌≡◌, sym, ap, ◌∙◌, Bool, true, false, ◌&&◌, some, List, [], ◌∷◌, arith, inl,
  inr,
}
use arkade_runtime.Base.Tests.{ltb, if◌then◌else◌, Bool-cases}
use arkade_runtime.Base.Lists.{All}
use arkade_runtime.Base.Int64.{ℤ, pos, negsuc, is_neg, InInt64, int64_half, ◌≤ℤ◌}
use arkade_runtime.Base.Result.{ok, from_ok, ok_injective}
use arkade_runtime.Base.Bytes.{Bytes, bytes_eq, bytes_eq_refl}
use arkade_runtime.Vtxo.State.{aborted, is_reserved}
use arkade_runtime.Vtxo.Record.{VtxoOperation, IsTyped}
use arkade_runtime.Vtxo.Seal.{verify_vtxo_operation, seal_vtxo_operation}
use arkade_runtime.Ledger.Store.{Platform, Db, IsLawful}
use arkade_runtime.Ledger.Allowance.{
  add_outflow, charge, sum_operations, spent_in_window, operations_of, integrity_key_copy,
}
use arkade_runtime.Ledger.Guards.{update_state, abort_rows, abort_expired, collect_expired}
use arkade_runtime.Ledger.Cap.{
  add_outflow-eq-ok, add_outflow_fits, sum_operations-eq-ok, sum_operations_cons, pos_injective,
}
use arkade_runtime.Ledger.Reserve.{check_cap}

pub ltb-false : (a b : ℕ) → b ≤ a → ltb a b ≡ false
ltb-false a b h = ground arith

retyped :
    (b : Bool) (r o : VtxoOperation)
    → IsTyped o
    → IsTyped (if b then record o { state = r.state; integrity_mac = r.integrity_mac } else o)
retyped true r o t = record { amount = t.amount; fee = t.fee; change = t.change; vout = t.vout }
retyped false r o t = t

update_state-IsTyped :
    (r : VtxoOperation) (ops : List VtxoOperation)
    → All IsTyped ops
    → All IsTyped (update_state r ops)
unfolding update_state
update_state-IsTyped r [] t = tt
update_state-IsTyped r (o ∷ os) t = (
  retyped (bytes_eq o.operation_id r.operation_id && is_reserved o.state) r o t.0,
  update_state-IsTyped r os t.1,
)

operations_of-IsTyped :
    (vault : Bytes) (ops : List VtxoOperation)
    → All IsTyped ops
    → All IsTyped (operations_of vault ops)
unfolding operations_of
operations_of-IsTyped vault [] t = tt
operations_of-IsTyped vault (o ∷ os) t = elim (Bool-cases (bytes_eq o.vault_id vault)) [
  | inl mine ↦ rw mine (t.0, operations_of-IsTyped vault os t.1)
  | inr other ↦ rw other (operations_of-IsTyped vault os t.1)
]

module _ (p : Platform) where
  abort_rows-IsTyped :
      (key : Bytes) (expired rows rows' : List VtxoOperation)
      → All IsTyped rows
      → abort_rows p key expired rows ≡ ok rows'
      → All IsTyped rows'
  unfolding abort_rows
  abort_rows-IsTyped key [] rows rows' t h = rw (← ok_injective h) t
  abort_rows-IsTyped key (r ∷ rs) rows rows' t h =
      from_ok (seal_vtxo_operation p.hmac (record r { state = aborted }) key) _ h λ sealed _ h1.
        abort_rows-IsTyped key rs (update_state sealed rows) rows'
          (update_state-IsTyped sealed rows t) h1

  pub abort_expired-IsTyped :
      (k who : Bytes) (now : ℕ) (db db' : Db p.Lanes)
      → All IsTyped db.operations
      → abort_expired p k who now db ≡ ok db'
      → All IsTyped db'.operations
  unfolding abort_expired
  abort_expired-IsTyped k who now db db' t h = from_ok (integrity_key_copy k) _ h λ key _ h1.
      from_ok (collect_expired p key now (operations_of who db.operations)) _ h1 λ expired _ h2.
        from_ok (abort_rows p key expired db.operations) _ h2 λ rows e h3.
          rw (← ok_injective h3) (abort_rows-IsTyped key expired db.operations rows t e)

  pub check_cap_lem :
      (limit : ℤ) (u n : ℕ)
      → InInt64 limit
      → is_neg limit ≡ false
      → u < int64_half
      → n < int64_half
      → check_cap p limit (pos u) (pos n) ≡ ok tt
      → (pos (n + u) ≤ℤ limit) × (n + u < int64_half)
  unfolding check_cap
  check_cap_lem (pos c) u n t s hu hn h = (ground arith, ground arith)
  check_cap_lem (negsuc c) u n t s hu hn h = cc

  -- The window of a vault from its three parts, with one more row in front.
  spent_in_window_run :
      (k key : Bytes) (now n b m d : ℕ) (r : VtxoOperation) (db : Db p.Lanes)
      → All IsTyped (operations_of r.vault_id db.operations)
      → verify_vtxo_operation p.hmac r key ≡ ok tt
      → charge p now r ≡ ok (some (pos n))
      → n + (b + m + d) < int64_half
      → integrity_key_copy k ≡ ok key
      → sum_operations p key now (pos 0) (operations_of r.vault_id db.operations) ≡ ok (pos b)
      → p.renewal_allowance db.lanes key r.vault_id now ≡ ok (pos m)
      → p.delegation_allowance db.lanes key r.vault_id now ≡ ok (pos d)
      → spent_in_window p k now (record db { operations = r ∷ db.operations }) r.vault_id
        ≡ ok (pos (n + (b + m + d)))
  unfolding spent_in_window operations_of
  spent_in_window_run k key now n b m d r db typed v c room ek es er ed =
      let sum =
        sum_operations_cons p key now n b r (operations_of r.vault_id db.operations) v typed c
          (omega arith) es (omega arith) in
      rw (bytes_eq_refl r.vault_id, ek)
        (rw (sum, er, add_outflow_fits (n + b) m (omega arith), ed)
          (add_outflow_fits (n + b + m) d (omega arith) ∙ ap ok (ap pos (omega arith))))

  -- The window of a vault with one more row of its own, which is charged `n`.
  pub spent_cons :
      (law : IsLawful p) (k : Bytes) (now n : ℕ) (used : ℤ) (r : VtxoOperation) (db : Db p.Lanes)
      → All IsTyped db.operations
      → ((key : Bytes) → integrity_key_copy k ≡ ok key → verify_vtxo_operation p.hmac r key ≡ ok tt)
      → charge p now r ≡ ok (some (pos n))
      → n < int64_half
      → spent_in_window p k now db r.vault_id ≡ ok used
      → (u : ℕ) × (used ≡ pos u)
        × (u < int64_half)
        × (n + u < int64_half
            → spent_in_window p k now (record db { operations = r ∷ db.operations }) r.vault_id
              ≡ ok (pos (n + u)))
  unfolding spent_in_window
  spent_cons law k now n used r db typed v c small h =
      let mine = operations_of-IsTyped r.vault_id db.operations typed in
      from_ok (integrity_key_copy k) _ h λ key ek h1.
        from_ok (sum_operations p key now (pos 0) (operations_of r.vault_id db.operations)) _ h1
          λ total et h2.
            from_ok (p.renewal_allowance db.lanes key r.vault_id now) _ h2 λ renewal er h3.
              from_ok (add_outflow total renewal) _ h3 λ total' et' h4.
                from_ok (p.delegation_allowance db.lanes key r.vault_id now) _ h4
                  λ delegation ed h5.
                    let (b, tb, fb) =
                      sum_operations-eq-ok p key now 0 total
                        (operations_of r.vault_id db.operations) mine (omega arith) et in
                    let (m1, m, t1, rm, s1, f1) =
                      add_outflow-eq-ok total renewal total' (rw tb fb)
                        (law.renewal_typed db.lanes key r.vault_id now renewal er) et' in
                    let (m2, d, t2, rd, s2, f2) =
                      add_outflow-eq-ok total' delegation used (rw s1 f1)
                        (law.delegation_typed db.lanes key r.vault_id now delegation ed) h5 in
                    let b1 : m1 ≡ b = pos_injective (sym t1 ∙ tb ∙ ap pos (omega arith)) in
                    let b2 : m2 ≡ b + m = pos_injective (sym t2 ∙ s1 ∙ ap pos (omega arith)) in
                    (
                      b + m + d,
                      s2 ∙ ap pos (omega arith),
                      omega arith,
                      λ room.
                          spent_in_window_run k key now n b m d r db mine (v key ek) c room ek
                            (et ∙ ap ok (tb ∙ ap pos (omega arith))) (er ∙ ap ok rm)
                            (ed ∙ ap ok rd),
                    )
