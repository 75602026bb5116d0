-- ===== src/Vtxo/Canonical.antt =====
-- The bytes under a row's MAC: canonicalVtxoOperation and canonicalVtxoOperationInput of
-- internal/policy/vtxo.go, appendCredentialField of internal/policy/ledger.go.
use arkade_runtime.Base.{
  ℕ, ◌-◌, ◌%◌, Option, none, some, List, [], ◌∷◌, ◌++◌, Bool, true, false, ◌||◌, ◌&&◌, not,
}
use arkade_runtime.Base.Tests.{ltb, ◌==◌, if◌then◌else◌}
use arkade_runtime.Base.Lists.{length}
use arkade_runtime.Base.Int64.{ℤ, pos, negsuc, is_neg, ltb_ℤ, to_u64, uint32_mod}
use arkade_runtime.Base.Result.{Result, Error, ok, err, ◌>>=◌, ◌>>◌, refuse}
use arkade_runtime.Base.Bytes.{Bytes, codes, bytes_eq, is_empty, le32, le64}
use arkade_runtime.Vtxo.State.{state_bytes, require_vtxo_state}
use arkade_runtime.Vtxo.Record.{VtxoOperation, VtxoOperationInput}

abbrev pub vtxo_purpose_spend : Bytes
vtxo_purpose_spend = codes "spend"

abbrev pub vtxo_operation_mac_domain : Bytes
vtxo_operation_mac_domain = codes "arkade-2fa-vault/vtxo-operation/v1"

abbrev pub vtxo_operation_input_kind : Bytes
vtxo_operation_input_kind = codes "input"

abbrev pub vtxo_operation_canonical_ver : ℕ
vtxo_operation_canonical_ver = 2

-- program.DustSats
abbrev pub dust_sats : ℕ
dust_sats = 330

unfoldable pub append_credential_field : Bytes → Bytes → Result Bytes
append_credential_field dst field =
    if ltb (uint32_mod - 1) (length field)
    then err Error.field_too_large
    else ok (dst ++ (le32 (length field) ++ field))

-- The loop `for _, field := range fields`.
unfoldable pub append_fields : Bytes → List Bytes → Result Bytes
append_fields dst [] = ok dst
append_fields dst (f ∷ fs) = append_credential_field dst f >>= λ d. append_fields d fs

abbrev pub is_some_one : Option ℕ → Bool
is_some_one none = false
is_some_one (some v) = v == 1

abbrev pub is_nil : Option ℕ → Bool
is_nil none = true
is_nil (some v) = false

abbrev pub is_zero : ℤ → Bool
is_zero (pos n) = n == 0
is_zero (negsuc n) = false

-- Whether `ChangeSats`, `ChangeVout` and `ChangeScript` do not fit each other.
unfoldable pub change_shape_bad : ℤ → Option ℕ → Bytes → Bool
change_shape_bad sats vout script =
    if is_zero sats
    then not (is_nil vout) || not (is_empty script)
    else ltb_ℤ sats (pos dust_sats) || not (is_some_one vout) || is_empty script

-- The guards of canonicalVtxoOperation, in order.
unfoldable pub check_vtxo_operation : VtxoOperation → Result (Unit {0})
check_vtxo_operation r = do
  refuse (is_empty r.operation_id || is_empty r.vault_id) Error.identity_required
  refuse (not (bytes_eq r.purpose vtxo_purpose_spend)) Error.bad_purpose
  require_vtxo_state r.state
  refuse (not (length r.bundle_digest == 32)) Error.bad_digest
  refuse (is_neg r.amount_sats || is_neg r.fee_sats || is_neg r.change_sats) Error.negative_outflow
  refuse (not (length r.fee_policy_digest == 32)) Error.bad_digest
  refuse
      (if is_empty r.pending_proof_digest
        then not (is_empty r.authorized_pending_proof)
        else is_empty r.authorized_pending_proof)
      Error.bad_pending_proof
  refuse (not (is_empty r.pending_proof_digest) && not (length r.pending_proof_digest == 32))
      Error.bad_pending_proof
  refuse (change_shape_bad r.change_sats r.change_vout r.change_script) Error.bad_change_shape

unfoldable pub operation_fields : VtxoOperation → List Bytes
operation_fields r =
    r.operation_id
    ∷ r.vault_id
    ∷ r.purpose
    ∷ r.bundle_digest
    ∷ state_bytes r.state
    ∷ r.fee_policy_digest
    ∷ r.dest_script
    ∷ r.change_script
    ∷ r.unsigned_psbt
    ∷ r.authorized_psbt
    ∷ r.pending_proof_digest
    ∷ r.authorized_pending_proof
    ∷ r.checkpoint_psbts
    ∷ r.checkpoint_request_psbts
    ∷ r.checkpoint_tapscript
    ∷ r.ark_txid
    ∷ r.expires_at
    ∷ r.created_at
    ∷ r.last_dest_script
    ∷ []

unfoldable pub vout_bytes : Option ℕ → Bytes
vout_bytes none = 0 ∷ []
vout_bytes (some v) = 1 ∷ le32 v

unfoldable pub operation_numbers : VtxoOperation → Bytes
unfolding vout_bytes
operation_numbers r =
    le64 (to_u64 r.amount_sats)
    ++ (le64 (to_u64 r.fee_sats) ++ (le64 (to_u64 r.change_sats) ++ vout_bytes r.change_vout))

unfoldable pub canonical_vtxo_operation : VtxoOperation → Result Bytes
canonical_vtxo_operation r = do
  check_vtxo_operation r
  out ← append_credential_field [] vtxo_operation_mac_domain
  body ← append_fields (out ++ le32 vtxo_operation_canonical_ver) (operation_fields r)
  ok (body ++ operation_numbers r)

-- The guards of canonicalVtxoOperationInput, in order.
unfoldable pub check_vtxo_operation_input : VtxoOperationInput → Result (Unit {0})
check_vtxo_operation_input r = do
  refuse (is_empty r.operation_id) Error.identity_required
  refuse (not (length r.txid == 32)) Error.bad_txid
  refuse (is_neg r.vout) Error.bad_vout
  refuse (is_neg r.value_sats) Error.negative_outflow

unfoldable pub canonical_vtxo_operation_input : VtxoOperationInput → Result Bytes
canonical_vtxo_operation_input r = do
  check_vtxo_operation_input r
  out ← append_credential_field [] vtxo_operation_mac_domain
  body ←
      append_fields (out ++ le32 vtxo_operation_canonical_ver)
        (vtxo_operation_input_kind ∷ r.operation_id ∷ r.txid ∷ [])
  append_credential_field
      (body ++ (le32 (to_u64 r.vout % uint32_mod) ++ le64 (to_u64 r.value_sats))) r.script
