-- ===== src/Examples/Passkeys.antt =====
-- Ceremonies on a toy curve with one key.
use arkade_runtime.Base.{
  ℕ, suc, ◌+◌, ◌/◌, ◌%◌, ◌<◌, ◌≤◌, ◌≡◌, refl, ap, true, false, not, ◌&&◌, Option, none, some, [],
  ◌∷◌, ◌++◌, arith, ◌⊎◌, inl, inr,
}
use arkade_runtime.Base.Tests.{◌==◌, if◌then◌else◌, Bool-cases}
use arkade_runtime.Base.Lists.{length, take, drop}
use arkade_runtime.Base.Int64.{ℤ, pos, negsuc}
use arkade_runtime.Base.Result.{Result, Error, ok, refuse}
use arkade_runtime.Base.Bytes.{Bytes, codes, bytes_eq, bytes_eq_sound}
use arkade_runtime.Examples.Setting.{value_or}
use arkade_runtime.Webauthn.Cbor.{
  CborValue, cbor_int, cbor_bytes, cbor_text, cbor_map, end_pairs, pair, has_key, append_pair,
  same_cbor_map_key, cbor_bool, decode_cbor,
}
use arkade_runtime.Webauthn.Total.{decode_cbor_total}
use arkade_runtime.Webauthn.Encoding.{encode_value, pair_count}
use arkade_runtime.Webauthn.RoundTrip.{decode_cbor-encode}
use arkade_runtime.Webauthn.Signature.{
  Crypto, set_bytes, fill_bytes, canonical_scalar, compact_low_s, parse_compressed_p256,
  verify_compact, verify_es256,
}
use arkade_runtime.Webauthn.LowS.{pow256, compact_low_s-verify, length-fill_bytes}
use arkade_runtime.Webauthn.Assertion.{
  Assertion, ClientData, Expected, Verified, Formats, validate_assertion,
}
use arkade_runtime.Webauthn.Accepted.{Accepted, validate_assertion-Accepted}
use arkade_runtime.Webauthn.Create.{
  parse_attestation_object, encode_none_attestation_object, validate_create,
  attested_authenticator_data,
}
use arkade_runtime.Webauthn.Registered.{validate_create-attested}
use arkade_runtime.Webauthn.Attestation.{
  parse_attestation_object-encode, Created, validate_create-Created,
}

abbrev toy_key : Bytes
toy_key = 3 ∷ fill_bytes 32 5

abbrev toy_pair : Bytes → Option (Option ℤ × Option ℤ × Bytes)
toy_pair (r ∷ s ∷ rest) = some (some (pos r), some (pos s), rest)
toy_pair _ = none

abbrev toy_curve : Crypto
toy_curve = record {
  order = 11;
  read_signature = toy_pair;
  unmarshal_compressed = λ b. if bytes_eq b toy_key then some (5, 7) else none;
  is_point = λ b. length b == 65;
  verify = λ key digest r s. (r == 3) && (s == 2);
  sha256 = λ b. fill_bytes 32 (length b);
}

abbrev client_data : Bytes → ClientData
client_data kind = record {
  kind = kind;
  challenge = fill_bytes 32 9;
  origin = codes "https://a";
  cross_origin = some false;
}

abbrev toy_formats : Formats
toy_formats = record {
  read_client_data = λ json. some (client_data json);
  read_base64 = λ s. some s;
}

abbrev nested : CborValue
nested = cbor_map (
    pair (cbor_int (negsuc 6)) (cbor_bytes (1 ∷ 2 ∷ []))
      (pair (cbor_text (codes "prf")) (cbor_map end_pairs) end_pairs))

decode_cbor_total_example :
    (r : Result (CborValue × Bytes)) × (decode_cbor 9 (161 ∷ 1 ∷ 161 ∷ 2 ∷ 3 ∷ 4 ∷ []) ≡ some r)
    × ((v : CborValue) (rest : Bytes) → r ≡ ok (v, rest) → length rest < 6)
decode_cbor_total_example = decode_cbor_total 9 (161 ∷ 1 ∷ 161 ∷ 2 ∷ 3 ∷ 4 ∷ []) (omega arith)

decode_cbor-encode_example :
    decode_cbor (suc (length (encode_value nested ++ (7 ∷ [])))) (encode_value nested ++ (7 ∷ []))
    ≡ some (ok (nested, 7 ∷ []))
unfolding encode_value pair_count has_key append_pair same_cbor_map_key
decode_cbor-encode_example =
    decode_cbor-encode nested (7 ∷ [])
      (
        omega arith,
        (refl, refl, (refl, refl, tt)),
        (omega arith, omega arith, (omega arith, (omega arith, tt, tt), tt)),
      )
      (omega arith)

-- The second half, 9, is above 11 / 2, so that 11 - 9 is returned.
compact_low_s-verify_example :
    (r : ℕ) × (s : ℕ) × (low : ℕ) × (toy_curve.read_signature (3 ∷ 9 ∷ [])
      ≡ some (some (pos r), some (pos s), []))
    × (r < 11)
    × (low ≤ 11 / 2)
    × ((low ≡ s) ⊎ (low + s ≡ 11))
    × (length (fill_bytes 32 3 ++ fill_bytes 32 2) ≡ 64)
    × (set_bytes (take 32 (fill_bytes 32 3 ++ fill_bytes 32 2)) ≡ r)
    × (set_bytes (drop 32 (fill_bytes 32 3 ++ fill_bytes 32 2)) ≡ low)
    × ((key digest : Bytes)
        → verify_compact toy_curve key digest (fill_bytes 32 3 ++ fill_bytes 32 2)
          ≡ refuse (not (toy_curve.verify key digest r low)) Error.bad_signature)
unfolding pow256 compact_low_s canonical_scalar
compact_low_s-verify_example =
    compact_low_s-verify toy_curve (3 ∷ 9 ∷ []) (fill_bytes 32 3 ++ fill_bytes 32 2) (omega arith)
      refl

parse_attestation_object-encode_example :
    parse_attestation_object (encode_none_attestation_object (fill_bytes 40 1))
    ≡ ok (fill_bytes 40 1)
unfolding fill_bytes encode_none_attestation_object
parse_attestation_object-encode_example =
    parse_attestation_object-encode (fill_bytes 40 1) (omega arith) (omega arith)

abbrev present : Bytes
present = fill_bytes 32 6 ++ (5 ∷ 0 ∷ 0 ∷ 1 ∷ 4 ∷ [])

abbrev assertion : Assertion
assertion = record {
  credential_id = codes "passkey";
  client_data_json = codes "webauthn.get";
  authenticator_data = present;
  der_signature = 3 ∷ 9 ∷ [];
}

abbrev expected : Expected
expected = record {
  credential_id = codes "passkey";
  webauthn_p256 = toy_key;
  challenge = fill_bytes 32 9;
  origin = codes "https://a";
  rp_id = codes "a.test";
}

abbrev verified : Verified
verified = record {
  assertion = assertion;
  compact_sig = fill_bytes 32 3 ++ fill_bytes 32 2;
  client_data = client_data (codes "webauthn.get");
  sign_count = 260;
}

validate_assertion-Accepted_example :
    Accepted toy_curve toy_formats assertion expected verified
    × (37 ≤ length assertion.authenticator_data)
unfolding validate_assertion bytes_eq fill_bytes compact_low_s canonical_scalar
    parse_compressed_p256 verify_es256
validate_assertion-Accepted_example =
    validate_assertion-Accepted toy_curve toy_formats assertion expected verified refl

first_of : Option (ℕ × ℕ) → ℕ
first_of none = 0
first_of (some p) = p.0

second_of : Option (ℕ × ℕ) → ℕ
second_of none = 0
second_of (some p) = p.1

nothing_there : {p : ℕ × ℕ} → none ≡ some p → ⊥
nothing_there h = cc

compressed :
    (b : Bytes) (x y : ℕ)
    → toy_curve.unmarshal_compressed b ≡ some (x, y)
    → b ≡ (2 + y % 2) ∷ fill_bytes 32 x
unfolding first_of second_of
compressed b x y h = elim (Bool-cases (bytes_eq b toy_key)) [
  | inl same ↦
      let is : b ≡ toy_key = bytes_eq_sound b toy_key same in
      let read : some (5, 7) ≡ some (x, y) = rw same at h in
      let at_x : 5 ≡ x = ap (λ (o : Option (ℕ × ℕ)). first_of o) read in
      let at_y : 7 ≡ y = ap (λ (o : Option (ℕ × ℕ)). second_of o) read in
      rw (is, ← at_x, ← at_y) refl
  | inr other ↦ absurd (nothing_there (rw other at h))
]

abbrev extensions : CborValue
extensions = cbor_map (pair (cbor_text (codes "prf")) (cbor_bool true) end_pairs)

abbrev registered : Bytes
registered = value_or [] (
    attested_authenticator_data toy_curve (codes "a.test") (codes "passkey") toy_key
      (encode_value extensions))

validate_create-attested_example :
    validate_create toy_curve toy_formats
      (codes "webauthn.create")
      registered
      (fill_bytes 32 9)
      (codes "https://a")
      (codes "a.test")
    ≡ ok (record { credential_id = codes "passkey"; webauthn_p256 = toy_key })
unfolding attested_authenticator_data bytes_eq pair_count has_key encode_value
validate_create-attested_example =
    validate_create-attested toy_curve toy_formats (codes "a.test") (codes "passkey") toy_key
      (encode_value extensions) registered (codes "webauthn.create") (fill_bytes 32 9)
      (codes "https://a") (client_data (codes "webauthn.create"))
      (λ b. length-fill_bytes 32 (length b)) compressed refl
      (inr (extensions, refl, (omega arith, (refl, refl, tt), (omega arith, tt, tt)), refl))
      (omega arith) refl refl (omega arith) refl refl refl refl refl

validate_create-Created_example :
    Created toy_curve toy_formats
      (codes "webauthn.create")
      registered
      (fill_bytes 32 9)
      (codes "https://a")
      (codes "a.test")
      (record { credential_id = codes "passkey"; webauthn_p256 = toy_key })
unfolding validate_create attested_authenticator_data bytes_eq encode_value has_key append_pair
    same_cbor_map_key
validate_create-Created_example =
    validate_create-Created toy_curve toy_formats (codes "webauthn.create") registered
      (fill_bytes 32 9) (codes "https://a") (codes "a.test")
      (record { credential_id = codes "passkey"; webauthn_p256 = toy_key }) refl
