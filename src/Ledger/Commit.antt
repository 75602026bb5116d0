-- ===== src/Ledger/Commit.antt =====
-- What TransitionVtxoOperation and CommitSignedVtxoOperation of internal/policy/vtxo_ledger.go
-- leave in the ledger, by their result.
use arkade_runtime.Base.{
  ◌≤◌, ◌≡◌, sym, ap, ◌∙◌, Bool, true, false, not, ◌||◌, List, arith, ◌⊎◌, inl, inr,
}
use mathlib.Core.Path.{subst}
use arkade_runtime.Base.Tests.{◌==◌, ==_iff, Bool-cases}
use arkade_runtime.Base.Result.{Error, ok, refuse, from_ok, ok_injective}
use arkade_runtime.Base.Bytes.{Bytes, bytes_eq, is_empty}
use arkade_runtime.Vtxo.State.{VtxoState, valid_vtxo_transition}
use arkade_runtime.Vtxo.Record.{VtxoOperation}
use arkade_runtime.Vtxo.Seal.{seal_vtxo_operation, verify_vtxo_operation, seal_shape}
use arkade_runtime.Ledger.Store.{Platform, Db}
use arkade_runtime.Ledger.Allowance.{integrity_key_copy}
use arkade_runtime.Ledger.Transition.{
  is_expected, update_vtxo_operation, find_operation, load_vtxo_operation, report,
  transition_vtxo_operation, Swap,
}
use arkade_runtime.Ledger.Swap.{key_count, update_count, update_none, update_hit, update_else}

module _ (p : Platform) where
  -- A swap that was made: what stood there, what stands there, and that nothing else changed.
  pub record Swapped (expected : VtxoState) (rec : VtxoOperation) (db : Db p.Lanes)
      (rows : List VtxoOperation) (current : VtxoOperation) : Type 0 where
    pub old : VtxoOperation
    pub permitted : valid_vtxo_transition expected rec.state ≡ true
    pub found : find_operation rec.operation_id db.operations ≡ ok old
    pub was : old.state ≡ expected
    pub owner : old.vault_id ≡ rec.vault_id
    pub stands : find_operation rec.operation_id rows ≡ ok current
    pub fields : current ≡ record rec { integrity_mac = current.integrity_mac }
    pub others :
        (id : Bytes)
        → bytes_eq rec.operation_id id ≡ false
        → find_operation id rows ≡ find_operation id db.operations

  pub update-Swapped :
      (expected : VtxoState) (rec sealed : VtxoOperation) (db : Db p.Lanes)
      → key_count rec.operation_id db.operations ≤ 1
      → valid_vtxo_transition expected rec.state ≡ true
      → sealed ≡ record rec { integrity_mac = sealed.integrity_mac }
      → (update_vtxo_operation expected sealed db.operations).1 ≡ 1
      → Swapped expected rec db (update_vtxo_operation expected sealed db.operations).0 sealed
  update-Swapped expected rec sealed db keyed v shape one =
      let id : sealed.operation_id ≡ rec.operation_id =
        ap (λ (x : VtxoOperation). x.operation_id) shape in
      let owner : sealed.vault_id ≡ rec.vault_id = ap (λ (x : VtxoOperation). x.vault_id) shape in
      let (old, found, vault, state, stands) =
        update_hit expected sealed db.operations (rw id keyed) one in
      record {
        old = old;
        permitted = v;
        found = ap (λ (i : Bytes). find_operation i db.operations) (sym id) ∙ found;
        was = state;
        owner = vault ∙ owner;
        stands =
            ap
              (λ (i : Bytes).
                find_operation i (update_vtxo_operation expected sealed db.operations).0)
              (sym id)
            ∙ stands;
        fields = shape;
        others = λ i ne. update_else expected sealed i db.operations (rw id ne);
      }

  update-lost :
      (expected : VtxoState) (sealed : VtxoOperation) (ops : List VtxoOperation)
      → key_count sealed.operation_id ops ≤ 1
      → ((update_vtxo_operation expected sealed ops).1 == 1) ≡ false
      → (update_vtxo_operation expected sealed ops).1 ≡ 0
  update-lost expected sealed ops keyed h =
      let bound = update_count expected sealed ops in ground arith

  load-find :
      (k id : Bytes) (db : Db p.Lanes) (r : VtxoOperation)
      → load_vtxo_operation p k id db ≡ ok r
      → find_operation id db.operations ≡ ok r
  unfolding load_vtxo_operation
  load-find k id db r h = from_ok (integrity_key_copy k) _ h λ key _ h1.
      from_ok (find_operation id db.operations) _ h1
        λ o found h2. from_ok (verify_vtxo_operation p.hmac o key) _ h2 λ _ _ h3. found ∙ h3

  -- A swap that was lost: the tables are as they were, and the row that stands is another one.
  abbrev pub Lost : VtxoState → VtxoOperation → Db p.Lanes → Db p.Lanes → VtxoOperation → Type 0
  Lost expected rec db db' current =
      (db'.operations ≡ db.operations)
      × (db'.sign_counts ≡ db.sign_counts)
      × (find_operation rec.operation_id db.operations ≡ ok current)
      × (is_expected expected rec current ≡ false)

  pub lost_report :
      (k : Bytes) (expected : VtxoState) (rec sealed : VtxoOperation) (db : Db p.Lanes)
      (current : VtxoOperation)
      → key_count rec.operation_id db.operations ≤ 1
      → sealed ≡ record rec { integrity_mac = sealed.integrity_mac }
      → ((update_vtxo_operation expected sealed db.operations).1 == 1) ≡ false
      → load_vtxo_operation p k sealed.operation_id
          (record db { operations = (update_vtxo_operation expected sealed db.operations).0 })
        ≡ ok current
      → ((update_vtxo_operation expected sealed db.operations).0 ≡ db.operations)
        × (find_operation rec.operation_id db.operations ≡ ok current)
        × (is_expected expected rec current ≡ false)
  unfolding is_expected
  lost_report k expected rec sealed db current keyed shape miss h =
      let id : sealed.operation_id ≡ rec.operation_id =
        ap (λ (x : VtxoOperation). x.operation_id) shape in
      let (same, refused) =
        update_none expected sealed db.operations
          (update-lost expected sealed db.operations (rw id keyed) miss) in
      let found =
        ap (find_operation sealed.operation_id) (sym same)
        ∙ load-find k sealed.operation_id _ current h in
      (
        same,
        ap (λ (i : Bytes). find_operation i db.operations) (sym id) ∙ found,
        ap (λ (x : VtxoOperation). is_expected expected x current) (sym shape)
            ∙ refused current found,
      )

  report_outcomes :
      (k : Bytes) (expected : VtxoState) (rec sealed : VtxoOperation) (db db' : Db p.Lanes)
      (current : VtxoOperation) (swapped : Bool)
      → key_count rec.operation_id db.operations ≤ 1
      → valid_vtxo_transition expected rec.state ≡ true
      → sealed ≡ record rec { integrity_mac = sealed.integrity_mac }
      → report p k sealed db (update_vtxo_operation expected sealed db.operations)
        ≡ ok (db', current, swapped)
      → ((swapped ≡ true)
          × Swapped expected rec db db'.operations current
          × (db'.sign_counts ≡ db.sign_counts))
        ⊎ ((swapped ≡ false) × Lost expected rec db db' current)
  report_outcomes k expected rec sealed db db' current swapped keyed v shape h =
      elim (Bool-cases ((update_vtxo_operation expected sealed db.operations).1 == 1)) [
        | inl hit ↦
            let out = ok_injective (rw hit at h) in
            let done =
              update-Swapped expected rec sealed db keyed v shape
                ((==_iff (update_vtxo_operation expected sealed db.operations).1 1).0 hit) in
            inl (
              sym (ap (λ (x : Swap p). x.2) out),
              subst (λ (x : Swap p). Swapped expected rec db x.0.operations x.1) out done,
              sym (ap (λ (x : Swap p). x.0.sign_counts) out),
            )
        | inr miss ↦
            from_ok
              (load_vtxo_operation p k sealed.operation_id (record db {
                operations = (update_vtxo_operation expected sealed db.operations).0;
              }))
              _ (rw miss at h)
              λ c loaded h1.
                let out = ok_injective h1 in
                let (same, found, refused) =
                  lost_report k expected rec sealed db c keyed shape miss loaded in
                let here : c ≡ current = ap (λ (x : Swap p). x.1) out in
                inr (
                  sym (ap (λ (x : Swap p). x.2) out),
                  (
                    sym (ap (λ (x : Swap p). x.0.operations) out) ∙ same,
                    sym (ap (λ (x : Swap p). x.0.sign_counts) out),
                    found ∙ ap ok here,
                    ap (is_expected expected rec) (sym here) ∙ refused,
                  ),
                )
      ]

  -- TransitionVtxoOperation that returns no error, where at most one row has the operation id.
  -- A swap that it reports was permitted by the state machine, moved the row with that id from
  -- the expected state to the new fields, kept its vault, and left every other row; one that it
  -- does not report left the rows and the counters as they were, and the row that it returns
  -- was not in the expected state of that vault.
  pub transition_outcomes :
      (k : Bytes) (expected : VtxoState) (rec : VtxoOperation) (db db' : Db p.Lanes)
      (current : VtxoOperation) (swapped : Bool)
      → key_count rec.operation_id db.operations ≤ 1
      → transition_vtxo_operation p k expected rec db ≡ ok (db', current, swapped)
      → ((swapped ≡ true)
          × Swapped expected rec db db'.operations current
          × (db'.sign_counts ≡ db.sign_counts))
        ⊎ ((swapped ≡ false) × Lost expected rec db db' current)
  unfolding transition_vtxo_operation
  transition_outcomes k expected rec db db' current swapped keyed h =
      from_ok (refuse (is_empty rec.operation_id || is_empty rec.vault_id) Error.identity_required)
        _ h
        λ _ _ h1.
          from_ok (refuse (not (valid_vtxo_transition expected rec.state)) Error.bad_transition) _
            h1
            λ _ v h2. from_ok (integrity_key_copy k) _ h2 λ key _ h3.
              from_ok (seal_vtxo_operation p.hmac rec key) _ h3 λ sealed seals h4.
                report_outcomes k expected rec sealed db db' current swapped keyed (ground arith)
                  (seal_shape p.hmac rec sealed key seals) h4
