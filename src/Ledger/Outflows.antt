-- ===== src/Ledger/Outflows.antt =====
-- The database beside the external sequence: AttachMonotonic of internal/policy/ledger.go, and what
-- ReserveVtxoOperation leaves behind when the disk or the COMMIT fails.
use arkade_runtime.Base.{
  ℕ, suc, ◌+◌, ◌<◌, ◌≡◌, refl, sym, ap, ◌∙◌, not, ◌||◌, Option, none, some, List, [], ◌∷◌, arith,
}
use arkade_runtime.Base.Tests.{◌==◌}
use arkade_runtime.Base.Lists.{length}
use arkade_runtime.Base.Int64.{ℤ, pos, negsuc, is_neg, to_u64, uint64_mod}
use arkade_runtime.Base.Result.{Result, Error, ok, refuse, from_ok, ok_injective}
use arkade_runtime.Base.Bytes.{Bytes, bytes_eq}
use arkade_runtime.Vtxo.State.{aborted}
use arkade_runtime.Vtxo.Record.{VtxoOperation, VtxoOperationInput}
use arkade_runtime.Vtxo.Seal.{seal_vtxo_operation}
use arkade_runtime.Sequence.Observe.{Disk, Monotonic}
use arkade_runtime.Sequence.Base.{
  current_economic_sequence, economic_outflow_count, read_policy_sequence_base, add_base,
  policy_sequence_base_mac, is_nil_list,
}
use arkade_runtime.Ledger.Store.{Platform, Db, IsLawful, SequenceBase}
use arkade_runtime.Ledger.Allowance.{integrity_key_copy, operations_of}
use arkade_runtime.Ledger.Guards.{update_state, abort_rows, abort_expired, collect_expired}
use arkade_runtime.Ledger.Reserve.{Ledger, Clock, observe_economic_outflows, reserve_rows}
use arkade_runtime.Ledger.Stages.{reserve_rows-Stages}
use arkade_runtime.Ledger.Exclusive.{insert_operation_lem}

length-update_state :
    (r : VtxoOperation) (ops : List VtxoOperation) → length (update_state r ops) ≡ length ops
unfolding update_state
length-update_state r [] = refl
length-update_state r (o ∷ os) = ap suc (length-update_state r os)

module _ (p : Platform) where
  -- AttachMonotonic
  unfoldable pub attach_monotonic :
      Ledger → Monotonic → Disk → Option Bytes → Db p.Lanes → Option Bytes × Result (Unit {0})
  attach_monotonic l m disk file db =
      observe_economic_outflows p (record l { monotonic = some m }) disk file db

  length-abort_rows :
      (key : Bytes) (expired rows rows' : List VtxoOperation)
      → abort_rows p key expired rows ≡ ok rows'
      → length rows' ≡ length rows
  unfolding abort_rows
  length-abort_rows key [] rows rows' h =
      ap (λ (x : List VtxoOperation). length x) (sym (ok_injective h))
  length-abort_rows key (r ∷ rs) rows rows' h =
      from_ok (seal_vtxo_operation p.hmac (record r { state = aborted }) key) _ h λ sealed _ h1.
        length-abort_rows key rs (update_state sealed rows) rows' h1
        ∙ length-update_state sealed rows

  -- The sweep moves states only.
  abort_expired_frame :
      (k who : Bytes) (now : ℕ) (db db' : Db p.Lanes)
      → abort_expired p k who now db ≡ ok db'
      → (length db'.operations ≡ length db.operations)
        × (db'.bases ≡ db.bases)
        × (db'.lanes ≡ db.lanes)
  unfolding abort_expired
  abort_expired_frame k who now db db' h = from_ok (integrity_key_copy k) _ h λ key _ h1.
      from_ok (collect_expired p key now (operations_of who db.operations)) _ h1 λ expired _ h2.
        from_ok (abort_rows p key expired db.operations) _ h2 λ rows e h3.
          let out = sym (ok_injective h3) in
          (
            ap (λ (x : Db p.Lanes). length x.operations) out
                ∙ length-abort_rows key expired db.operations rows e,
            ap (λ (x : Db p.Lanes). x.bases) out,
            ap (λ (x : Db p.Lanes). x.lanes) out,
          )

  -- A reservation adds an economic row and touches no base.
  pub reserve_rows_counts :
      (law : IsLawful p) (k : Bytes) (clock : Clock) (rec : VtxoOperation)
      (inputs : List VtxoOperationInput) (limit : ℤ) (db db' : Db p.Lanes)
      → reserve_rows p k clock rec inputs limit db ≡ ok db'
      → (db'.bases ≡ db.bases) × (economic_outflow_count p db < economic_outflow_count p db')
  unfolding economic_outflow_count
  reserve_rows_counts law k clock rec inputs limit db db' h =
      let s = reserve_rows-Stages p k clock rec inputs limit db db' h in
      let (_, filled) = insert_operation_lem p s.sealed _ s.filled s.inserts in
      let (rows, bases, lanes) =
        abort_expired_frame k rec.vault_id clock.expiry db s.swept s.sweep in
      let grown =
        law.rows-invalidate s.swept.lanes s.lanes k rec.vault_id inputs clock.allowance s.freed in
      let out = s.result ∙ ap (λ (x : Db p.Lanes). record x { inputs = s.rows }) filled in
      (
        ap (λ (x : Db p.Lanes). x.bases) out ∙ bases,
        rw out (rw (← lanes, ← rows) (omega (arith, grown))),
      )

  add_base_bound :
      (count n : ℕ) (base : Option ℕ)
      → ((b : ℕ) → base ≡ some b → b < uint64_mod)
      → add_base p count base ≡ ok n
      → n < uint64_mod
  add_base_bound count n none small h = cc
  add_base_bound count n (some b) small h = let room = small b refl in ground arith

  to_u64_bound : (z : ℤ) → to_u64 z < uint64_mod
  to_u64_bound (pos n) = omega arith
  to_u64_bound (negsuc n) = omega arith

  read_base_bound :
      (network k : Bytes) (bases : List SequenceBase) (b : ℕ)
      → read_policy_sequence_base p network k bases ≡ ok (some b)
      → b < uint64_mod
  unfolding read_policy_sequence_base
  read_base_bound network k [] b h = absurd (ground arith)
  read_base_bound network k (x ∷ xs) b h =
      from_ok (refuse (not (length k == 32)) Error.key_required) _ h λ _ _ h1.
        from_ok
          (refuse
            (not (bytes_eq x.integrity_mac (policy_sequence_base_mac p network (to_u64 x.base) k)))
            Error.mac_mismatch)
          _ h1
          λ _ _ h2.
            from_ok (refuse (is_neg x.base || not (is_nil_list xs)) Error.sequence_corrupt) _ h2
              λ _ _ h3.
                let here : some (to_u64 x.base) ≡ some b = ok_injective h3 in
                let value : to_u64 x.base ≡ b = cc in rw (← value) (to_u64_bound x.base)

  add_base_lower :
      (count count' n : ℕ) (base : Option ℕ)
      → count < count'
      → add_base p count' base ≡ ok n
      → (j : ℕ) × (add_base p count base ≡ ok j) × (j < n)
  add_base_lower count count' n none fewer h = absurd (ground arith)
  add_base_lower count count' n (some b) fewer h = (b + count, ground arith, ground arith)

  pub current_economic_sequence_bound :
      (network k : Bytes) (db : Db p.Lanes) (n : ℕ)
      → current_economic_sequence p network k db ≡ ok n
      → n < uint64_mod
  unfolding current_economic_sequence
  current_economic_sequence_bound network k db n h =
      from_ok (read_policy_sequence_base p network k db.bases) _ h λ base e h1.
        add_base_bound (economic_outflow_count p db) n base
          (λ b is. read_base_bound network k db.bases b (e ∙ ap ok is)) h1

  -- With the same base and fewer rows the sequence is lower.
  pub sequence_lower :
      (network k : Bytes) (db db' : Db p.Lanes) (n : ℕ)
      → db'.bases ≡ db.bases
      → economic_outflow_count p db < economic_outflow_count p db'
      → current_economic_sequence p network k db' ≡ ok n
      → (j : ℕ) × (current_economic_sequence p network k db ≡ ok j) × (j < n)
  unfolding current_economic_sequence
  sequence_lower network k db db' n same fewer h =
      from_ok (read_policy_sequence_base p network k db'.bases) _ h λ base e h1.
        let (j, sum, less) =
          add_base_lower (economic_outflow_count p db) (economic_outflow_count p db') n base fewer
            h1 in
        (j, rw (rw same at e) sum, less)
