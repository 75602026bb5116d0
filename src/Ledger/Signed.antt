-- ===== src/Ledger/Signed.antt =====
-- What CommitSignedVtxoOperation of internal/policy/vtxo_ledger.go leaves in the ledger: the row and
-- the authenticator counter, together or not at all.
use arkade_runtime.Base.{
  ℕ, ◌≤◌, ◌≡◌, refl, sym, ap, ◌∙◌, Bool, true, false, not, ◌||◌, arith, ◌⊎◌, inl, inr,
}
use mathlib.Core.Path.{subst}
use arkade_runtime.Base.Tests.{◌==◌, ==_iff, Bool-cases}
use arkade_runtime.Base.Result.{Error, ok, refuse, from_ok, ok_injective}
use arkade_runtime.Base.Bytes.{Bytes, is_empty}
use arkade_runtime.Vtxo.State.{reserved, signed, is_signed, valid_vtxo_transition}
use arkade_runtime.Vtxo.Record.{VtxoOperation}
use arkade_runtime.Vtxo.Seal.{seal_vtxo_operation, seal_shape}
use arkade_runtime.Ledger.Store.{Platform, Db}
use arkade_runtime.Ledger.Allowance.{integrity_key_copy}
use arkade_runtime.Ledger.SignCounts.{advance_sign_count_locked, verify_sign_count_replay_locked}
use arkade_runtime.Ledger.Transition.{
  is_expected, update_vtxo_operation, find_operation, load_vtxo_operation, commit_swap,
  report_replay, commit_signed_vtxo_operation, Swap,
}
use arkade_runtime.Ledger.Swap.{key_count}
use arkade_runtime.Ledger.Commit.{Swapped, update-Swapped, lost_report}

module _ (p : Platform) where
  -- The two ways in which a commit returns without an error.
  abbrev pub CommitOutcome :
      Bytes → Bytes → ℕ → VtxoOperation → Db p.Lanes → Db p.Lanes → VtxoOperation → Bool → Type 0
  CommitOutcome k credential count rec db db' current swapped =
      ((swapped ≡ true)
        × (current.state ≡ signed)
        × Swapped p reserved rec db db'.operations current
        × (advance_sign_count_locked p.hmac k db.vaults rec.vault_id credential count db.sign_counts
            ≡ ok db'.sign_counts))
      ⊎ ((swapped ≡ false)
          × (db' ≡ db)
          × (find_operation rec.operation_id db.operations ≡ ok current)
          × (is_expected reserved rec current ≡ false)
          × (is_signed current.state ≡ true
              → verify_sign_count_replay_locked p.hmac k rec.vault_id credential count
                  db.sign_counts
                ≡ ok tt))

  pub report_replay_lem :
      (k vault credential : Bytes) (count : ℕ) (db : Db p.Lanes) (c : VtxoOperation)
      (db' : Db p.Lanes) (current : VtxoOperation) (swapped : Bool)
      → report_replay p k vault credential count db c ≡ ok (db', current, swapped)
      → ((db' ≡ db) × (current ≡ c) × (swapped ≡ false))
        × (is_signed current.state ≡ true
            → verify_sign_count_replay_locked p.hmac k vault credential count db.sign_counts
              ≡ ok tt)
  report_replay_lem k vault credential count db c db' current swapped h =
      elim (Bool-cases (is_signed c.state)) [
        | inl s ↦
            from_ok (verify_sign_count_replay_locked p.hmac k vault credential count db.sign_counts)
              _ (rw s at h)
              λ _ e h1.
                let out = ok_injective h1 in
                (
                  (
                    sym (ap (λ (x : Swap p). x.0) out),
                    sym (ap (λ (x : Swap p). x.1) out),
                    sym (ap (λ (x : Swap p). x.2) out),
                  ),
                  λ _. e,
                )
        | inr n ↦
            let out = ok_injective (rw n at h) in
            let here : c ≡ current = ap (λ (x : Swap p). x.1) out in
            (
              (sym (ap (λ (x : Swap p). x.0) out), sym here, sym (ap (λ (x : Swap p). x.2) out)),
              λ y. cc,
            )
      ]

  commit_swapped :
      (k credential : Bytes) (count : ℕ) (rec sealed : VtxoOperation) (db db' : Db p.Lanes)
      (current : VtxoOperation) (swapped : Bool)
      → key_count rec.operation_id db.operations ≤ 1
      → rec.state ≡ signed
      → sealed ≡ record rec { integrity_mac = sealed.integrity_mac }
      → commit_swap p k sealed credential count db
          (update_vtxo_operation reserved sealed db.operations)
        ≡ ok (db', current, swapped)
      → CommitOutcome k credential count rec db db' current swapped
  unfolding valid_vtxo_transition
  commit_swapped k credential count rec sealed db db' current swapped keyed st shape h =
      let owner : sealed.vault_id ≡ rec.vault_id = ap (λ (x : VtxoOperation). x.vault_id) shape in
      elim (Bool-cases ((update_vtxo_operation reserved sealed db.operations).1 == 1)) [
        | inl hit ↦
            from_ok
              (advance_sign_count_locked p.hmac k db.vaults sealed.vault_id credential count
                db.sign_counts)
              _ (rw hit at h)
              λ counts e h1.
                let out = ok_injective h1 in
                let done =
                  update-Swapped p reserved rec sealed db keyed (rw st refl) shape
                    ((==_iff (update_vtxo_operation reserved sealed db.operations).1 1).0 hit) in
                inl (
                  sym (ap (λ (x : Swap p). x.2) out),
                  subst (λ (x : Swap p). x.1.state ≡ signed) out
                      (ap (λ (x : VtxoOperation). x.state) shape ∙ st),
                  subst (λ (x : Swap p). Swapped p reserved rec db x.0.operations x.1) out done,
                  (rw owner at e) ∙ ap ok (ap (λ (x : Swap p). x.0.sign_counts) out),
                )
        | inr miss ↦
            from_ok
              (load_vtxo_operation p k sealed.operation_id (record db {
                operations = (update_vtxo_operation reserved sealed db.operations).0;
              }))
              _ (rw miss at h)
              λ c loaded h1.
                let (same, found, refused) =
                  lost_report p k reserved rec sealed db c keyed shape miss loaded in
                let (out, replay) =
                  report_replay_lem k sealed.vault_id credential count db c db' current swapped
                    h1 in
                inr (
                  out.2,
                  out.0,
                  found ∙ ap ok (sym out.1),
                  ap (is_expected reserved rec) out.1 ∙ refused,
                  rw owner at replay,
                )
      ]

  -- CommitSignedVtxoOperation that returns no error, where at most one row has the operation
  -- id. It moves the row from reserved to signed, to the fields of the request, and advances
  -- the authenticator counter together, or it changes nothing; in the second case the row that
  -- it returns did not match the reserved one, and where that row is signed, the request
  -- carried the counter that is stored for it.
  pub commit_outcomes :
      (k credential : Bytes) (count : ℕ) (rec : VtxoOperation) (db db' : Db p.Lanes)
      (current : VtxoOperation) (swapped : Bool)
      → key_count rec.operation_id db.operations ≤ 1
      → commit_signed_vtxo_operation p k rec credential count db ≡ ok (db', current, swapped)
      → CommitOutcome k credential count rec db db' current swapped
  unfolding commit_signed_vtxo_operation
  commit_outcomes k credential count rec db db' current swapped keyed h =
      from_ok
        (refuse
          (is_empty rec.operation_id
            || is_empty rec.vault_id
            || is_empty credential
            || not (is_signed rec.state))
          Error.identity_required)
        _ h
        λ _ asked h1. from_ok (integrity_key_copy k) _ h1 λ key _ h2.
          from_ok (seal_vtxo_operation p.hmac rec key) _ h2 λ sealed seals h3.
            commit_swapped k credential count rec sealed db db' current swapped keyed (ground arith)
              (seal_shape p.hmac rec sealed key seals) h3
