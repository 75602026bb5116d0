-- ===== src/Webauthn/Create.antt =====
-- internal/webauthn/create.go: the checks of a create ceremony, and the encoders beside them.
use arkade_runtime.Base.{
  ℕ, zero, suc, ◌+◌, ◌*◌, ◌-◌, ◌/◌, ◌%◌, Bool, true, false, ◌||◌, not, Option, none, some, List, [],
  ◌∷◌, ◌++◌,
}
use arkade_runtime.Base.Tests.{ltb, leb, ◌==◌, if◌then◌else◌}
use arkade_runtime.Base.Lists.{length, take, drop}
use arkade_runtime.Base.Int64.{ℤ, pos, negsuc}
use arkade_runtime.Base.Result.{Result, Error, ok, err, ◌>>=◌, ◌>>◌, refuse}
use arkade_runtime.Base.Bytes.{Bytes, codes, bytes_eq, is_empty}
use arkade_runtime.Ledger.Guards.{int_eq}
use arkade_runtime.Webauthn.Cbor.{
  CborValue, cbor_int, cbor_bytes, cbor_text, cbor_map, end_pairs, pair, Decoded, decode_cbor,
  map_int, map_text, encode_cbor_unsigned, encode_cbor_negative, encode_cbor_bytes,
  encode_cbor_text, encode_cbor_map,
}
use arkade_runtime.Webauthn.Signature.{Crypto, parse_compressed_p256}
use arkade_runtime.Webauthn.Assertion.{
  Formats, byte_at, flag_at, flag_ed, check_ceremony, max_client_data_json,
}

-- CreateResult
pub record CreateResult : Type 0 where
  pub credential_id : Bytes
  pub webauthn_p256 : Bytes

-- The answer of the decoder; the last case does not occur, since the fuel below is enough.
abbrev pub answered : Decoded CborValue → Result (CborValue × Bytes)
answered (some r) = r
answered none = err Error.truncated

-- A call of decodeCBOR.
unfoldable pub run_cbor : Bytes → Result (CborValue × Bytes)
unfolding decode_cbor
run_cbor raw = answered (decode_cbor (suc (length raw)) raw)

-- `!ok || val.kind != cborInt`, and so on.
abbrev pub int_field : Option CborValue → Result ℤ
int_field (some (cbor_int z)) = ok z
int_field _ = err Error.unsupported

abbrev pub bytes_field : Option CborValue → Result Bytes
bytes_field (some (cbor_bytes b)) = ok b
bytes_field _ = err Error.unsupported

abbrev pub text_field : Option CborValue → Result Bytes
text_field (some (cbor_text s)) = ok s
text_field _ = err Error.unsupported

-- ParseAttestationObject
unfoldable pub parse_attestation_object : Bytes → Result Bytes
unfolding run_cbor map_text
parse_attestation_object raw = do
  (v, rest) ← run_cbor raw
  refuse (not (is_empty rest)) Error.unsupported
  format ← text_field (map_text v (codes "fmt"))
  refuse (not (bytes_eq format (codes "none"))) Error.unsupported
  auth ← bytes_field (map_text v (codes "authData"))
  refuse (ltb (length auth) 37) Error.truncated
  ok auth

-- EncodeNoneAttestationObject
unfoldable pub encode_none_attestation_object : Bytes → Bytes
unfolding encode_cbor_text encode_cbor_bytes encode_cbor_map
encode_none_attestation_object auth = encode_cbor_map (
    (encode_cbor_text (codes "fmt") ++ encode_cbor_text (codes "none"))
    ∷ (encode_cbor_text (codes "authData") ++ encode_cbor_bytes auth)
    ∷ (encode_cbor_text (codes "attStmt") ++ encode_cbor_map [])
    ∷ [])

-- `ext.kind != cborMap || len(ext.mapVal) == 0`
abbrev pub is_extension_map : CborValue → Bool
is_extension_map (cbor_map end_pairs) = false
is_extension_map (cbor_map (pair k v ps)) = true
is_extension_map _ = false

-- The `if auth[32]&flagED != 0` of extractAttestedCredential.
unfoldable pub check_extensions : Bool → Bytes → Result (Unit {0})
unfolding run_cbor
check_extensions false rest = refuse (not (is_empty rest)) Error.unsupported
check_extensions true rest = do
  refuse (is_empty rest) Error.truncated
  (ext, after) ← run_cbor rest
  refuse (not (is_extension_map ext)) Error.unsupported
  refuse (not (is_empty after)) Error.unsupported

-- Sixteen zeros for the authenticator, and four for its count.
abbrev pub zeros : ℕ → Bytes
zeros zero = []
zeros (suc n) = 0 ∷ zeros n

-- The pairs of EncodeCOSEES256.
unfoldable pub cose_pairs : Bytes → Bytes → List Bytes
unfolding encode_cbor_unsigned encode_cbor_negative encode_cbor_bytes
cose_pairs x y =
    (encode_cbor_unsigned 1 ++ encode_cbor_unsigned 2)
    ∷ (encode_cbor_unsigned 3 ++ encode_cbor_negative 6)
    ∷ (encode_cbor_negative 0 ++ encode_cbor_unsigned 1)
    ∷ (encode_cbor_negative 1 ++ encode_cbor_bytes x)
    ∷ (encode_cbor_negative 2 ++ encode_cbor_bytes y)
    ∷ []

module _ (crypto : Crypto) where
  open crypto use {is_point, sha256}

  -- compressedP256XY
  unfoldable pub compressed_p256_xy : Bytes → Bytes → Result Bytes
  unfolding parse_compressed_p256 byte_at
  compressed_p256_xy x y = do
    refuse (not (length x == 32) || not (length y == 32)) Error.key_size
    refuse (not (is_point (4 ∷ x ++ y))) Error.bad_signature
    let out = (if byte_at (length y - 1) y % 2 == 1 then 3 else 2) ∷ x
    parse_compressed_p256 crypto out >>= λ key. ok out

  -- parseCOSEES256, after decodeCBOR.
  unfoldable pub cose_key : CborValue → Result Bytes
  unfolding compressed_p256_xy map_int
  cose_key v = do
    kty ← int_field (map_int v (pos 1))
    refuse (not (int_eq kty (pos 2))) Error.unsupported
    alg ← int_field (map_int v (pos 3))
    refuse (not (int_eq alg (negsuc 6))) Error.unsupported
    crv ← int_field (map_int v (negsuc 0))
    refuse (not (int_eq crv (pos 1))) Error.unsupported
    x ← bytes_field (map_int v (negsuc 1))
    refuse (not (length x == 32)) Error.key_size
    y ← bytes_field (map_int v (negsuc 2))
    refuse (not (length y == 32)) Error.key_size
    compressed_p256_xy x y

  -- parseCOSEES256
  unfoldable pub parse_cose_es256 : Bytes → Result (Bytes × Bytes)
  unfolding run_cbor cose_key
  parse_cose_es256 raw = do (v, rest) ← run_cbor raw; compressed ← cose_key v; ok (compressed, rest)

  -- extractAttestedCredential, with `credLen`.
  unfoldable pub credential_at : Bytes → ℕ → Result CreateResult
  unfolding parse_cose_es256 check_extensions byte_at
  credential_at auth cred_len = do
    refuse ((cred_len == 0) || leb (length auth) (55 + cred_len)) Error.truncated
    (compressed, rest) ← parse_cose_es256 (drop (55 + cred_len) auth)
    check_extensions (flag_ed (byte_at 32 auth)) rest
    ok (record { credential_id = take cred_len (drop 55 auth); webauthn_p256 = compressed })

  -- extractAttestedCredential
  unfoldable pub extract_attested_credential : Bytes → Result CreateResult
  unfolding credential_at byte_at
  extract_attested_credential auth = do
    refuse (ltb (length auth) 55) Error.truncated
    credential_at auth (byte_at 53 auth * 256 + byte_at 54 auth)

  -- ValidateCreate
  unfoldable pub validate_create :
      Formats → Bytes → Bytes → Bytes → Bytes → Bytes → Result CreateResult
  unfolding check_ceremony extract_attested_credential byte_at
  validate_create formats json auth challenge origin rp_id = do
    refuse (not (length challenge == 32)) Error.bad_digest
    refuse (ltb (length auth) 37) Error.truncated
    refuse (is_empty json || ltb max_client_data_json (length json)) Error.out_of_bounds
    cd ← check_ceremony crypto formats (codes "webauthn.create") challenge origin rp_id auth json
    refuse (not (flag_at (byte_at 32 auth))) Error.unsupported
    extract_attested_credential auth

  -- EncodeCOSEES256
  unfoldable pub encode_cose_es256 : Bytes → Result Bytes
  unfolding parse_compressed_p256 byte_at encode_cbor_map cose_pairs
  encode_cose_es256 compressed = do
    key ← parse_compressed_p256 crypto compressed
    refuse (not (length key == 65) || not (byte_at 0 key == 4)) Error.bad_signature
    ok (encode_cbor_map (cose_pairs (take 32 (drop 1 key)) (take 32 (drop 33 key))))

  -- attestedAuthenticatorData
  unfoldable pub attested_authenticator_data : Bytes → Bytes → Bytes → Bytes → Result Bytes
  unfolding encode_cose_es256
  attested_authenticator_data rp_id cred_id compressed extensions = do
    cose ← encode_cose_es256 compressed
    refuse (is_empty cred_id || ltb 1024 (length cred_id)) Error.identity_required
    ok (
        sha256 rp_id
        ++ ((if is_empty extensions then 69 else 197)
            ∷ (zeros 4
                ++ (zeros 16
                    ++ (length cred_id / 256 % 256
                        ∷ (length cred_id % 256 ∷ (cred_id ++ (cose ++ extensions))))))))
