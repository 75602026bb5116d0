-- ===== src/Webauthn/Encoding.antt =====
-- Values in the terms of the encoders of internal/webauthn/cbor.go.
use arkade_runtime.Base.{ℕ, suc, ◌<◌, ◌≤◌, ◌≡◌, true, false, List, [], ◌∷◌, ◌++◌}
use arkade_runtime.Base.Lists.{length}
use arkade_runtime.Base.Int64.{pos, negsuc}
use arkade_runtime.Base.Bytes.{Bytes}
use arkade_runtime.Webauthn.Cbor.{
  CborValue, CborPairs, cbor_int, cbor_bytes, cbor_text, cbor_map, cbor_bool, end_pairs, pair,
  is_map_key, has_key, append_pair, encode_cbor_unsigned, encode_cbor_negative, encode_cbor_bytes,
  encode_cbor_text, encode_cbor_map, encode_cbor_bool,
}

-- A value in the encoders' terms, the way EncodeCOSEES256 and EncodeNoneAttestationObject call them.
unfoldable mutual
  unfolding encode_cbor_unsigned encode_cbor_negative encode_cbor_bytes encode_cbor_text
      encode_cbor_map encode_cbor_bool

  pub encode_value : CborValue → Bytes
  encode_value (cbor_int (pos n)) = encode_cbor_unsigned n
  encode_value (cbor_int (negsuc m)) = encode_cbor_negative m
  encode_value (cbor_bytes b) = encode_cbor_bytes b
  encode_value (cbor_text s) = encode_cbor_text s
  encode_value (cbor_map ps) = encode_cbor_map (encode_pairs ps)
  encode_value (cbor_bool b) = encode_cbor_bool b

  pub encode_pairs : CborPairs → List Bytes
  encode_pairs end_pairs = []
  encode_pairs (pair k v ps) = (encode_value k ++ encode_value v) ∷ encode_pairs ps

unfoldable pub pair_count : CborPairs → ℕ
pair_count end_pairs = 0
pair_count (pair k v ps) = suc (pair_count ps)

-- Keys are numbers or texts, and none of them occurs twice.
abbrev pub Distinct : CborPairs → CborPairs → Type 0
Distinct before end_pairs = Unit
Distinct before (pair k v ps) =
    (is_map_key k ≡ true) × (has_key k before ≡ false) × Distinct (append_pair before k v) ps

-- What the encoders can write: numbers and lengths of 16 bits, maps of at most 16 pairs.
abbrev mutual
  pub Encodable : CborValue → Type 0
  Encodable (cbor_int (pos n)) = n < 65536
  Encodable (cbor_int (negsuc m)) = m < 65536
  Encodable (cbor_bytes b) = length b < 65536
  Encodable (cbor_text s) = length s < 65536
  Encodable (cbor_map ps) = (pair_count ps ≤ 16) × Distinct end_pairs ps × EncodablePairs ps
  Encodable (cbor_bool b) = Unit

  pub EncodablePairs : CborPairs → Type 0
  EncodablePairs end_pairs = Unit
  EncodablePairs (pair k v ps) = Encodable k × Encodable v × EncodablePairs ps
