-- ===== src/Vtxo/Digest.antt =====
-- The digests that a phone signs and the server computes: taggedSHA256 and the Compute…Digest
-- functions of internal/policy/vtxo.go. SHA-256 is an argument.
use arkade_runtime.Base.{ℕ, ◌%◌, Option, List, [], ◌∷◌, ◌++◌, Bool, ◌||◌, not}
use arkade_runtime.Base.Tests.{ltb, ◌==◌, if◌then◌else◌}
use arkade_runtime.Base.Lists.{length}
use arkade_runtime.Base.Int64.{uint32_mod}
use arkade_runtime.Base.Result.{Result, Error, ok, err, ◌>>=◌, ◌>>◌, refuse}
use arkade_runtime.Base.Bytes.{Bytes, bytes_eq, is_empty, le16, le32, le64}
use arkade_runtime.Sequence.Text.{unhex_pairs}
use arkade_runtime.Vtxo.Canonical.{
  append_credential_field, append_fields, vtxo_purpose_spend, dust_sats, is_some_one, is_nil,
  vout_bytes,
}
use arkade_runtime.Vtxo.Bundle.{
  VtxoBundleInput, canonical_vtxo_bundle_inputs, max_vtxo_operation_inputs, vtxo_bundle_digest_tag,
  vtxo_reserve_digest_tag, vtxo_abort_digest_tag, vtxo_fee_policy_digest_tag,
}

-- hex.DecodeString and the two tests behind it: sixteen bytes in lower case.
abbrev pub sixteen : Result Bytes → Result Bytes
sixteen (err e) = err Error.bad_operation_id
sixteen (ok raw) = if length raw == 16 then ok raw else err Error.bad_operation_id

unfoldable pub operation_raw : Bytes → Result Bytes
operation_raw id = sixteen (unhex_pairs id)

-- `for _, in := range ordered`
unfoldable pub input_bytes : List VtxoBundleInput → Bytes
input_bytes [] = []
input_bytes (i ∷ is) = i.txid ++ (le32 i.vout ++ (le64 i.value_sats ++ input_bytes is))

abbrev pub digest_change_bad : ℕ → Option ℕ → Bytes → Bool
digest_change_bad sats vout script =
    if sats == 0
    then not (is_nil vout) || not (is_empty script)
    else ltb sats dust_sats || not (is_some_one vout) || is_empty script

unfoldable pub program_bytes : List Bytes → Bytes
program_bytes [] = []
program_bytes (t ∷ ts) = le32 (length t % uint32_mod) ++ (t ++ program_bytes ts)

module _ (sha : Bytes → Bytes) where
  unfoldable pub tagged_sha256 : Bytes → Bytes → Bytes
  tagged_sha256 tag msg = sha (sha tag ++ (sha tag ++ msg))

  unfoldable pub compute_vtxo_bundle_digest :
      (purpose vault dest_script change_script : Bytes) (amount fee change : ℕ)
      → Option ℕ
      → Bytes
      → List VtxoBundleInput
      → Bytes
      → Result Bytes
  compute_vtxo_bundle_digest purpose vault dest_script change_script amount fee change change_vout
        fee_policy inputs created_at =
      do
        refuse (not (bytes_eq purpose vtxo_purpose_spend)) Error.bad_purpose
        refuse (is_empty vault) Error.identity_required
        refuse (not (length fee_policy == 32)) Error.bad_digest
        refuse (digest_change_bad change change_vout change_script) Error.bad_change_shape
        ordered ← canonical_vtxo_bundle_inputs inputs
        refuse (length ordered == 0 || ltb max_vtxo_operation_inputs (length ordered))
            Error.input_count
        p1 ← append_fields [] (purpose ∷ vault ∷ dest_script ∷ [])
        p2 ← append_credential_field (p1 ++ le64 amount) change_script
        p3 ←
            append_credential_field (p2 ++ (le64 fee ++ (le64 change ++ vout_bytes change_vout)))
              fee_policy
        p4 ←
            append_credential_field (p3 ++ (le16 (length ordered) ++ input_bytes ordered))
              created_at
        ok (tagged_sha256 vtxo_bundle_digest_tag p4)

  unfoldable pub compute_intent_fee_policy_digest : Bytes → Bytes → Bytes → Bytes → Bytes
  unfolding program_bytes
  compute_intent_fee_policy_digest off_in off_out on_in on_out =
      tagged_sha256 vtxo_fee_policy_digest_tag
        (program_bytes (off_in ∷ off_out ∷ on_in ∷ on_out ∷ []))

  unfoldable pub compute_vtxo_reserve_digest :
      (id vault purpose dest_script : Bytes) (amount : ℕ) → Result Bytes
  compute_vtxo_reserve_digest id vault purpose dest_script amount = do
    raw ← operation_raw id
    refuse (is_empty vault) Error.identity_required
    refuse (not (bytes_eq purpose vtxo_purpose_spend)) Error.bad_purpose
    refuse (is_empty dest_script) Error.destination_required
    refuse (amount == 0) Error.amount_required
    payload ← append_fields (le32 1) (raw ∷ vault ∷ purpose ∷ dest_script ∷ [])
    ok (tagged_sha256 vtxo_reserve_digest_tag (payload ++ le64 amount))

  unfoldable pub compute_vtxo_abort_digest : (id vault purpose : Bytes) → Result Bytes
  compute_vtxo_abort_digest id vault purpose = do
    raw ← operation_raw id
    refuse (is_empty vault) Error.identity_required
    refuse (not (bytes_eq purpose vtxo_purpose_spend)) Error.bad_purpose
    payload ← append_fields (le32 1) (raw ∷ vault ∷ purpose ∷ [])
    ok (tagged_sha256 vtxo_abort_digest_tag payload)
