-- ===== src/Ledger/Swap.antt =====
-- What the compare-and-swap of TransitionVtxoOperation does to the rows (updateVtxoOperation of
-- internal/policy/vtxo_ledger.go).
use arkade_runtime.Base.{ℕ, suc, ◌≤◌, ◌≡◌, refl, ap, true, false, List, [], ◌∷◌, arith, inl, inr}
use arkade_runtime.Base.Tests.{if◌then◌else◌, Bool-cases}
use arkade_runtime.Base.Result.{ok, ok_injective}
use arkade_runtime.Base.Bytes.{Bytes, bytes_eq, bytes_eq_sound, bytes_eq_refl}
use arkade_runtime.Vtxo.State.{
  VtxoState, state_eq_sound, valid_vtxo_transition, vtxo_state_blocks_new_operation,
}
use arkade_runtime.Vtxo.Record.{VtxoOperation}
use arkade_runtime.Ledger.Exclusive.{active_count, blocks}
use arkade_runtime.Ledger.Transition.{is_expected, update_vtxo_operation, find_operation}

-- How many rows have the primary key.
unfoldable pub key_count : Bytes → List VtxoOperation → ℕ
key_count id [] = 0
key_count id (o ∷ os) =
    let rest = key_count id os in if bytes_eq o.operation_id id then suc rest else rest

expected_parts :
    (expected : VtxoState) (rec o : VtxoOperation)
    → is_expected expected rec o ≡ true
    → (bytes_eq o.operation_id rec.operation_id ≡ true)
      × (o.vault_id ≡ rec.vault_id)
      × (o.state ≡ expected)
unfolding is_expected
expected_parts expected rec o h = (
  ground arith,
  bytes_eq_sound o.vault_id rec.vault_id (ground arith),
  state_eq_sound o.state expected (ground arith),
)

-- Never more rows than have the key.
pub update_count :
    (expected : VtxoState) (rec : VtxoOperation) (ops : List VtxoOperation)
    → (update_vtxo_operation expected rec ops).1 ≤ key_count rec.operation_id ops
unfolding update_vtxo_operation key_count is_expected
update_count expected rec [] = omega arith
update_count expected rec (o ∷ os) = elim (Bool-cases (is_expected expected rec o)) [
  | inl e ↦
      rw (e, (expected_parts expected rec o e).0) (ground (arith, update_count expected rec os))
  | inr e ↦ rw e (ground (arith, update_count expected rec os))
]

-- A swap that hits nothing changes nothing.
pub update_none :
    (expected : VtxoState) (rec : VtxoOperation) (ops : List VtxoOperation)
    → (update_vtxo_operation expected rec ops).1 ≡ 0
    → ((update_vtxo_operation expected rec ops).0 ≡ ops)
      × ((c : VtxoOperation)
          → find_operation rec.operation_id ops ≡ ok c
          → is_expected expected rec c ≡ false)
unfolding update_vtxo_operation find_operation
update_none expected rec [] h = (refl, λ c e. cc)
update_none expected rec (o ∷ os) h = elim (Bool-cases (is_expected expected rec o)) [
  | inl e ↦ absurd (ground arith)
  | inr e ↦
      let rest = update_none expected rec os (rw e at h) in
      (
        rw e (ap (◌∷◌ o) rest.0),
        λ c f. elim (Bool-cases (bytes_eq o.operation_id rec.operation_id)) [
          | inl same ↦ rw (ok_injective (rw same at f)) at e
          | inr ne ↦ rest.1 c (rw ne at f)
        ],
      )
]

-- The row that a swap hits, where the key is one row's.
pub update_hit :
    (expected : VtxoState) (rec : VtxoOperation) (ops : List VtxoOperation)
    → key_count rec.operation_id ops ≤ 1
    → (update_vtxo_operation expected rec ops).1 ≡ 1
    → (old : VtxoOperation) × (find_operation rec.operation_id ops ≡ ok old)
      × (old.vault_id ≡ rec.vault_id)
      × (old.state ≡ expected)
      × (find_operation rec.operation_id (update_vtxo_operation expected rec ops).0 ≡ ok rec)
unfolding update_vtxo_operation key_count find_operation
update_hit expected rec [] k h = absurd (omega arith)
update_hit expected rec (o ∷ os) k h = elim (Bool-cases (is_expected expected rec o)) [
  | inl e ↦
      let (id, vault, state) = expected_parts expected rec o e in
      (o, rw id, vault, state, rw (e, bytes_eq_refl rec.operation_id))
  | inr e ↦ elim (Bool-cases (bytes_eq o.operation_id rec.operation_id)) [
    | inl same ↦ absurd (ground (arith, update_count expected rec os))
    | inr ne ↦ let rest = update_hit expected rec os (rw ne at k) (rw e at h) in rw (e, ne) rest
  ]
]

-- No other row is touched.
pub update_else :
    (expected : VtxoState) (rec : VtxoOperation) (id : Bytes) (ops : List VtxoOperation)
    → bytes_eq rec.operation_id id ≡ false
    → find_operation id (update_vtxo_operation expected rec ops).0 ≡ find_operation id ops
unfolding update_vtxo_operation find_operation
update_else expected rec id [] ne = refl
update_else expected rec id (o ∷ os) ne = elim (Bool-cases (is_expected expected rec o)) [
  | inl e ↦
      let same =
        bytes_eq_sound o.operation_id rec.operation_id (expected_parts expected rec o e).0 in
      rw (e, same, ne) (update_else expected rec id os ne)
  | inr e ↦ rw e (ground (arith, update_else expected rec id os ne))
]

pub update-key_count :
    (expected : VtxoState) (rec : VtxoOperation) (id : Bytes) (ops : List VtxoOperation)
    → key_count id (update_vtxo_operation expected rec ops).0 ≡ key_count id ops
unfolding update_vtxo_operation key_count
update-key_count expected rec id [] = refl
update-key_count expected rec id (o ∷ os) = elim (Bool-cases (is_expected expected rec o)) [
  | inl e ↦
      let same =
        bytes_eq_sound o.operation_id rec.operation_id (expected_parts expected rec o e).0 in
      rw (e, same) (ground (arith, update-key_count expected rec id os))
  | inr e ↦ rw e (ground (arith, update-key_count expected rec id os))
]

transition_from_blocking :
    (s t : VtxoState) → valid_vtxo_transition s t ≡ true → vtxo_state_blocks_new_operation s ≡ true
unfolding valid_vtxo_transition vtxo_state_blocks_new_operation
transition_from_blocking s t h = ground arith

-- A permitted move activates no operation.
pub update-active_count :
    (expected : VtxoState) (rec : VtxoOperation) (vault : Bytes) (ops : List VtxoOperation)
    → valid_vtxo_transition expected rec.state ≡ true
    → active_count vault (update_vtxo_operation expected rec ops).0 ≤ active_count vault ops
unfolding update_vtxo_operation active_count blocks
update-active_count expected rec vault [] v = omega arith
update-active_count expected rec vault (o ∷ os) v = elim (Bool-cases (is_expected expected rec o)) [
  | inl e ↦
      let (_, owner, state) = expected_parts expected rec o e in
      let active = transition_from_blocking expected rec.state v in
      rw (e, owner, state, active) (ground (arith, update-active_count expected rec vault os v))
  | inr e ↦ rw e (ground (arith, update-active_count expected rec vault os v))
]
