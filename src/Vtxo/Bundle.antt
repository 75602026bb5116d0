-- ===== src/Vtxo/Bundle.antt =====
-- The ordered inputs of a bundle and the digests of internal/policy/vtxo.go:
-- CanonicalVtxoBundleInputs, canonicalVtxoTxid, taggedSHA256 and the Compute…Digest functions.
use arkade_runtime.Base.{ℕ, ◌+◌, List, [], ◌∷◌, ◌++◌, Bool, false, ◌||◌, ◌&&◌}
use arkade_runtime.Base.Tests.{ltb, leb, ◌==◌, if◌then◌else◌}
use arkade_runtime.Base.Lists.{length}
use arkade_runtime.Base.Result.{Result, Error, ok, err, ◌>>=◌, ◌>>◌, refuse}
use arkade_runtime.Base.Bytes.{Bytes, codes, bytes_eq, bytes_lt}
use arkade_runtime.Sequence.Text.{hex, decimal, unhex_pairs}

abbrev pub max_vtxo_operation_inputs : ℕ
max_vtxo_operation_inputs = 50

abbrev pub vtxo_bundle_digest_tag : Bytes
vtxo_bundle_digest_tag = codes "arkade-2fa-vault/vtxo-bundle/v1"

abbrev pub vtxo_reserve_digest_tag : Bytes
vtxo_reserve_digest_tag = codes "arkade-vault/vtxo-reserve/v1"

abbrev pub vtxo_abort_digest_tag : Bytes
vtxo_abort_digest_tag = codes "arkade-vault/vtxo-abort/v1"

abbrev pub vtxo_fee_policy_digest_tag : Bytes
vtxo_fee_policy_digest_tag = codes "arkade-vault/arkade-intent-fee-policy/v1"

pub record VtxoBundleInput : Type 0 where
  pub txid : Bytes
  pub vout : ℕ
  pub value_sats : ℕ

-- `keyed` of CanonicalVtxoBundleInputs.
pub record Keyed : Type 0 where
  pub input : VtxoBundleInput
  pub hex_txid : Bytes

-- strings.ToLower on the characters that matter to hex.DecodeString.
unfoldable pub to_lower : Bytes → Bytes
to_lower [] = []
to_lower (c ∷ cs) = (if leb 65 c && leb c 90 then c + 32 else c) ∷ to_lower cs

abbrev pub bad_txid_of : Result Bytes → Result Bytes
bad_txid_of (err e) = err Error.bad_txid
bad_txid_of (ok raw) = if length raw == 32 then ok raw else err Error.bad_txid

-- The hex form and the bytes.
unfoldable pub canonical_vtxo_txid : Bytes → Result (Bytes × Bytes)
unfolding to_lower
canonical_vtxo_txid txid = do
  raw ←
      (if length txid == 32
        then ok txid
        else if length txid == 64
        then bad_txid_of (unhex_pairs (to_lower txid))
        else err Error.bad_txid)
  ok (hex raw, raw)

unfoldable pub is_seen : Bytes → List Bytes → Bool
is_seen key [] = false
is_seen key (k ∷ ks) = bytes_eq k key || is_seen key ks

-- The loop that normalizes and rejects duplicates.
unfoldable pub key_inputs : List Bytes → List VtxoBundleInput → Result (List Keyed)
unfolding canonical_vtxo_txid is_seen
key_inputs seen [] = ok []
key_inputs seen (i ∷ is) = do
  canon ← canonical_vtxo_txid i.txid
  refuse (is_seen (canon.0 ++ (58 ∷ decimal 10 i.vout)) seen) Error.duplicate_outpoint
  rest ← key_inputs ((canon.0 ++ (58 ∷ decimal 10 i.vout)) ∷ seen) is
  ok (record { input = record i { txid = canon.1 }; hex_txid = canon.0 } ∷ rest)

-- The comparison given to sort.SliceStable.
unfoldable pub keyed_less : Keyed → Keyed → Bool
keyed_less a b =
    if bytes_eq a.hex_txid b.hex_txid
    then ltb a.input.vout b.input.vout
    else bytes_lt a.hex_txid b.hex_txid

-- A stable sort, by insertion from the right.
unfoldable pub insert_keyed : Keyed → List Keyed → List Keyed
insert_keyed k [] = k ∷ []
insert_keyed k (x ∷ xs) =
    let rest = insert_keyed k xs in if keyed_less x k then x ∷ rest else k ∷ x ∷ xs

unfoldable pub sort_keyed : List Keyed → List Keyed
sort_keyed [] = []
sort_keyed (k ∷ ks) = insert_keyed k (sort_keyed ks)

unfoldable pub inputs_of_keyed : List Keyed → List VtxoBundleInput
inputs_of_keyed [] = []
inputs_of_keyed (k ∷ ks) = k.input ∷ inputs_of_keyed ks

unfoldable pub canonical_vtxo_bundle_inputs : List VtxoBundleInput → Result (List VtxoBundleInput)
unfolding key_inputs sort_keyed inputs_of_keyed
canonical_vtxo_bundle_inputs inputs = do
  refuse (ltb 65535 (length inputs)) Error.too_many_inputs
  ordered ← key_inputs [] inputs
  ok (inputs_of_keyed (sort_keyed ordered))
