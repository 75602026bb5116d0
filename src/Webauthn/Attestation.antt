-- ===== src/Webauthn/Attestation.antt =====
-- Attestation objects of internal/webauthn/create.go, and what a create ceremony that is accepted says.
use mathlib.Core.Path.{subst}
use mathlib.Core.List.{append-nil}
use arkade_runtime.Base.{
  ℕ, ◌+◌, ◌*◌, ◌<◌, ◌≤◌, ◌≡◌, refl, Bool, true, false, not, ◌||◌, [], ◌∷◌, ◌++◌, ap, ◌∙◌, arith,
  ◌⊎◌, inl, inr,
}
use arkade_runtime.Base.Tests.{ltb, leb, ◌==◌}
use arkade_runtime.Base.Lists.{length, take, drop, length-append}
use arkade_runtime.Base.Result.{Error, ok, refuse, refuse_passed, from_ok, ok_injective}
use arkade_runtime.Base.Bytes.{Bytes, codes, bytes_eq, is_empty}
use arkade_runtime.Webauthn.Cbor.{
  CborValue, CborPairs, cbor_int, cbor_bool, cbor_bytes, cbor_text, cbor_map, end_pairs, pair,
  max_cbor_bytes, has_key, append_pair, same_cbor_map_key, with_major, encode_cbor_unsigned,
}
use arkade_runtime.Webauthn.Encoding.{encode_value, Encodable, pair_count}
use arkade_runtime.Webauthn.Signature.{Crypto}
use arkade_runtime.Webauthn.Assertion.{
  ClientData, Formats, byte_at, flag_at, flag_ed, check_ceremony, Ceremony, check_ceremony-Ceremony,
  max_client_data_json,
}
use arkade_runtime.Webauthn.Cose.{run_cbor-encode}
use arkade_runtime.Webauthn.Create.{
  CreateResult, run_cbor, is_extension_map, parse_attestation_object,
  encode_none_attestation_object, check_extensions, parse_cose_es256, credential_at,
  extract_attested_credential, validate_create,
}

none_value : Bytes → CborValue
none_value auth = cbor_map (
    pair (cbor_text (codes "fmt")) (cbor_text (codes "none")) (
      pair (cbor_text (codes "authData")) (cbor_bytes auth)
        (pair (cbor_text (codes "attStmt")) (cbor_map end_pairs) end_pairs)))

encode-none_value :
    (auth : Bytes) → encode_value (none_value auth) ≡ encode_none_attestation_object auth
unfolding none_value encode_value encode_none_attestation_object
encode-none_value auth = refl

none_value-Encodable : (auth : Bytes) → length auth < 65536 → Encodable (none_value auth)
unfolding none_value has_key append_pair pair_count same_cbor_map_key bytes_eq
none_value-Encodable auth h = (
  omega arith,
  (refl, refl, (refl, refl, (refl, refl, tt))),
  (omega arith, omega arith, (omega arith, h, (omega arith, (omega arith, tt, tt), tt))),
)

parsed_from :
    (raw auth : Bytes)
    → run_cbor raw ≡ ok (none_value auth, [])
    → 37 ≤ length auth
    → parse_attestation_object raw ≡ ok auth
unfolding parse_attestation_object none_value same_cbor_map_key bytes_eq
parsed_from raw auth read long =
    let fine : ltb (length auth) 37 ≡ false = ground arith in rw (read, fine) refl

inside : (a b c : Bytes) → length b ≤ length ((a ++ b) ++ c)
inside a b c = let one = length-append (a ++ b) c in let two = length-append a b in omega arith

smaller : (auth : Bytes) → length auth ≤ length (encode_none_attestation_object auth)
unfolding encode_none_attestation_object
smaller auth =
    let part =
      inside (with_major 2 (encode_cbor_unsigned (length auth))) auth
        (103 ∷ 97 ∷ 116 ∷ 116 ∷ 83 ∷ 116 ∷ 109 ∷ 116 ∷ 160 ∷ []) in
    omega arith

-- An attestation object that EncodeNoneAttestationObject makes of at least 37 bytes, and that has
-- at most 4096 bytes itself, ParseAttestationObject reads back as those bytes.
pub parse_attestation_object-encode :
    (auth : Bytes)
    → 37 ≤ length auth
    → length (encode_none_attestation_object auth) ≤ max_cbor_bytes
    → parse_attestation_object (encode_none_attestation_object auth) ≡ ok auth
parse_attestation_object-encode auth long fits =
    let v = encode-none_value auth in
    let small = smaller auth in
    let bare = append-nil (encode_none_attestation_object auth) in
    let room : length (encode_value (none_value auth) ++ []) ≤ max_cbor_bytes = rw (v, bare) fits in
    let read =
      run_cbor-encode (none_value auth) [] (none_value-Encodable auth (omega arith)) room in
    parsed_from (encode_none_attestation_object auth) auth (rw (v, bare) at read) long

id_bounds : (n m : ℕ) → ((n == 0) || leb m (55 + n)) ≡ false → (0 < n) × (55 + n < m)
id_bounds n m h = (ground arith, ground arith)

full_size : (n : ℕ) → not (n == 32) ≡ false → n ≡ 32
full_size n h = ground arith

set_from : (b : Bool) → not b ≡ false → b ≡ true
set_from b h = ground arith

no_bytes : (b : Bytes) → is_empty b ≡ true → b ≡ []
no_bytes [] h = refl
no_bytes (x ∷ b) h = cc

whole_map :
    (m : CborValue × Bytes) (raw : Bytes)
    → run_cbor raw ≡ ok m
    → is_extension_map m.0 ≡ true
    → is_empty m.1 ≡ true
    → (k : CborValue) × (v : CborValue) × (more : CborPairs) × (run_cbor raw
        ≡ ok (cbor_map (pair k v more), []))
whole_map (cbor_map (pair k v more), rest) raw read map none_left = (
  k,
  v,
  more,
  read ∙ ap (λ (b : Bytes). ok (cbor_map (pair k v more), b)) (no_bytes rest none_left),
)
whole_map (cbor_map end_pairs, rest) raw read map none_left = cc
whole_map (cbor_int z, rest) raw read map none_left = cc
whole_map (cbor_bytes b, rest) raw read map none_left = cc
whole_map (cbor_text b, rest) raw read map none_left = cc
whole_map (cbor_bool b, rest) raw read map none_left = cc

-- Nothing follows the key, or one map with a pair in it and nothing after.
extensions_cases :
    (flag : Bool) (rest : Bytes)
    → check_extensions flag rest ≡ ok tt
    → ((flag ≡ false) × (rest ≡ []))
      ⊎ ((flag ≡ true)
          × (k : CborValue) × (v : CborValue) × (more : CborPairs) × (run_cbor rest
              ≡ ok (cbor_map (pair k v more), [])))
unfolding check_extensions
extensions_cases false rest h =
    inl (refl, no_bytes rest (set_from _ (refuse_passed _ Error.unsupported h)))
extensions_cases true rest h = from_ok (refuse (is_empty rest) Error.truncated) _ h λ _ _ h1.
    from_ok (run_cbor rest) _ h1 λ m read h2.
      from_ok (refuse (not (is_extension_map m.0)) Error.unsupported) _ h2 λ _ is_map h3.
        let (k, v, more, whole) =
          whole_map m rest read (set_from _ (refuse_passed _ Error.unsupported is_map))
            (set_from _ (refuse_passed _ Error.unsupported h3)) in
        inr (refl, k, v, more, whole)

module _ (crypto : Crypto) (formats : Formats) where
  -- What ValidateCreate has checked.
  pub record Created (json auth challenge origin rp_id : Bytes) (out : CreateResult) : Type 0 where
    pub whole_challenge : length challenge ≡ 32
    pub client_data : ClientData
    pub ceremony :
        Ceremony crypto formats
          (codes "webauthn.create")
          challenge
          origin
          rp_id
          auth
          json
          client_data
    pub attested : flag_at (byte_at 32 auth) ≡ true
    pub cred_len : ℕ
    pub read_len : byte_at 53 auth * 256 + byte_at 54 auth ≡ cred_len
    pub within : (0 < cred_len) × (55 + cred_len < length auth)
    pub credential : out.credential_id ≡ take cred_len (drop 55 auth)
    pub rest : Bytes
    pub key : parse_cose_es256 crypto (drop (55 + cred_len) auth) ≡ ok (out.webauthn_p256, rest)
    pub nothing_else :
        ((flag_ed (byte_at 32 auth) ≡ false) × (rest ≡ []))
        ⊎ ((flag_ed (byte_at 32 auth) ≡ true)
            × (k : CborValue) × (v : CborValue) × (more : CborPairs) × (run_cbor rest
                ≡ ok (cbor_map (pair k v more), [])))

  created :
      (json auth challenge origin rp_id : Bytes) (cd : ClientData) (out : CreateResult) (n : ℕ)
      → length challenge ≡ 32
      → Ceremony crypto formats (codes "webauthn.create") challenge origin rp_id auth json cd
      → flag_at (byte_at 32 auth) ≡ true
      → byte_at 53 auth * 256 + byte_at 54 auth ≡ n
      → credential_at crypto auth n ≡ ok out
      → Created json auth challenge origin rp_id out
  unfolding credential_at
  created json auth challenge origin rp_id cd out n c32 c at len h =
      from_ok (refuse ((n == 0) || leb (length auth) (55 + n)) Error.truncated) _ h λ _ sized h1.
        from_ok (parse_cose_es256 crypto (drop (55 + n) auth)) _ h1 λ key parsed h2.
          from_ok (check_extensions (flag_ed (byte_at 32 auth)) key.1) _ h2 λ _ checked h3.
            let bounds = refuse_passed _ Error.truncated sized in
            subst (Created json auth challenge origin rp_id) (ok_injective h3) (record {
              whole_challenge = c32;
              client_data = cd;
              ceremony = c;
              attested = at;
              cred_len = n;
              read_len = len;
              within = id_bounds n (length auth) bounds;
              credential = refl;
              rest = key.1;
              key = parsed;
              nothing_else = extensions_cases (flag_ed (byte_at 32 auth)) key.1 checked;
            })

  -- A create ceremony that ValidateCreate accepts is "webauthn.create" for the challenge of 32
  -- bytes, the origin and the party expected, not from another origin, with the user present
  -- and verified and credential data attested; the credential returned is that many bytes of
  -- the authenticator data from byte 55 on as bytes 53 and 54 say, at least one, with bytes
  -- left behind it; the key returned is the COSE key read there; and nothing follows it but, if
  -- the flag ED is set, a map of extensions with a pair in it.
  pub validate_create-Created :
      (json auth challenge origin rp_id : Bytes) (out : CreateResult)
      → validate_create crypto formats json auth challenge origin rp_id ≡ ok out
      → Created json auth challenge origin rp_id out
  unfolding validate_create extract_attested_credential
  validate_create-Created json auth challenge origin rp_id out h =
      from_ok (refuse (not (length challenge == 32)) Error.bad_digest) _ h λ _ whole h1.
        from_ok (refuse (ltb (length auth) 37) Error.truncated) _ h1 λ _ _ h2.
          from_ok
            (refuse (is_empty json || ltb max_client_data_json (length json)) Error.out_of_bounds) _
            h2
            λ _ _ h3.
              from_ok
                (check_ceremony crypto formats (codes "webauthn.create") challenge origin rp_id auth
                  json)
                _ h3
                λ cd checked h4.
                  from_ok (refuse (not (flag_at (byte_at 32 auth))) Error.unsupported) _ h4
                    λ _ at h5.
                      from_ok (refuse (ltb (length auth) 55) Error.truncated) _ h5 λ _ _ h6.
                        created json auth challenge origin rp_id cd out
                          (byte_at 53 auth * 256 + byte_at 54 auth)
                          (full_size (length challenge) (refuse_passed _ Error.bad_digest whole))
                          (check_ceremony-Ceremony crypto formats (codes "webauthn.create")
                            challenge origin rp_id auth json cd checked)
                          (set_from _ (refuse_passed _ Error.unsupported at)) refl h6
