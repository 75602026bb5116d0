-- ===== src/Webauthn/Accepted.antt =====
-- What Validate of internal/webauthn/assert.go has checked when it accepts an assertion.
use mathlib.Core.Path.{subst}
use arkade_runtime.Base.{◌+◌, ◌*◌, ◌<◌, ◌≤◌, ◌≡◌, refl, false, not, ◌||◌, [], ◌∷◌, arith}
use arkade_runtime.Base.Tests.{ltb, ◌==◌}
use arkade_runtime.Base.Lists.{length}
use arkade_runtime.Base.Result.{Error, ok, refuse, from_ok, ok_injective}
use arkade_runtime.Base.Bytes.{Bytes, codes, bytes_eq, bytes_eq_sound, is_empty}
use arkade_runtime.Webauthn.Signature.{
  Crypto, compact_low_s, parse_compressed_p256, verify_compact, assertion_digest, verify_es256,
}
use arkade_runtime.Webauthn.Assertion.{
  Assertion, Expected, Verified, Formats, byte_at, max_client_data_json, authenticator_sign_count,
  check_ceremony, validate_assertion, Ceremony, check_ceremony-Ceremony,
}

module _ (crypto : Crypto) (formats : Formats) where
  pub record Accepted (a : Assertion) (exp : Expected) (v : Verified) : Type 0 where
    pub same_credential : a.credential_id ≡ exp.credential_id
    pub whole_challenge : length exp.challenge ≡ 32
    pub bounded :
        (0 < length a.client_data_json) × (length a.client_data_json ≤ max_client_data_json)
    pub ceremony :
        Ceremony crypto formats
          (codes "webauthn.get")
          exp.challenge
          exp.origin
          exp.rp_id
          a.authenticator_data
          a.client_data_json
          v.client_data
    pub compacted : compact_low_s crypto a.der_signature ≡ ok v.compact_sig
    pub key : Bytes
    pub key_read : parse_compressed_p256 crypto exp.webauthn_p256 ≡ ok key
    pub signed :
        verify_compact crypto key
          (assertion_digest crypto a.authenticator_data a.client_data_json)
          v.compact_sig
        ≡ ok tt
    pub unchanged : v.assertion ≡ a
    pub counted :
        v.sign_count
        ≡ byte_at 33 a.authenticator_data * 16777216
          + byte_at 34 a.authenticator_data * 65536
          + byte_at 35 a.authenticator_data * 256
          + byte_at 36 a.authenticator_data

  nonempty : (b : Bytes) → is_empty b ≡ false → 0 < length b
  nonempty [] h = absurd (ground arith)
  nonempty (x ∷ b) h = omega arith

  -- An assertion that Validate accepts names the credential expected, over client data of 1 to
  -- 4096 bytes and authenticator data of at least 37; its ceremony is "webauthn.get" for the 32
  -- bytes expected as challenge, the origin and the party expected, not from another origin,
  -- with the user present and verified; its signature, in its lower-half form, passes for the
  -- key expected on the digest of exactly these authenticator and client data; and the count
  -- returned is bytes 33 to 36, the highest first.
  pub validate_assertion-Accepted :
      (a : Assertion) (exp : Expected) (v : Verified)
      → validate_assertion crypto formats a exp ≡ ok v
      → Accepted a exp v × (37 ≤ length a.authenticator_data)
  unfolding validate_assertion authenticator_sign_count verify_es256
  validate_assertion-Accepted a exp v h =
      from_ok (refuse (not (bytes_eq a.credential_id exp.credential_id)) Error.identity_required) _
        h
        λ _ same h1.
          from_ok (refuse (not (length exp.webauthn_p256 == 33)) Error.key_size) _ h1 λ _ _ h2.
            from_ok (refuse (not (length exp.challenge == 32)) Error.bad_digest) _ h2 λ _ whole h3.
              from_ok (refuse (ltb (length a.authenticator_data) 37) Error.truncated) _ h3
                λ _ long h4.
                  from_ok
                    (refuse
                      (is_empty a.client_data_json
                        || ltb max_client_data_json (length a.client_data_json))
                      Error.out_of_bounds)
                    _ h4
                    λ _ fits h5.
                      from_ok
                        (check_ceremony crypto formats (codes "webauthn.get") exp.challenge
                          exp.origin exp.rp_id a.authenticator_data a.client_data_json)
                        _ h5
                        λ cd checked h6.
                          from_ok (compact_low_s crypto a.der_signature) _ h6
                            λ compact compacted h7.
                              from_ok (parse_compressed_p256 crypto exp.webauthn_p256) _ h7
                                λ key read h8.
                                  from_ok
                                    (verify_es256 crypto key a.authenticator_data a.client_data_json
                                      compact)
                                    _ h8
                                    λ _ passed h9.
                                      let short : ltb (length a.authenticator_data) 37 ≡ false =
                                        ground arith in
                                      let size : 37 ≤ length a.authenticator_data = ground arith in
                                      let full : is_empty a.client_data_json ≡ false =
                                        ground arith in
                                      (
                                        subst (Accepted a exp) (ok_injective h9) (record {
                                          same_credential =
                                              bytes_eq_sound a.credential_id exp.credential_id
                                                (ground arith);
                                          whole_challenge = ground arith;
                                          bounded =
                                              (nonempty a.client_data_json full, ground arith);
                                          ceremony =
                                              check_ceremony-Ceremony crypto formats
                                                (codes "webauthn.get") exp.challenge exp.origin
                                                exp.rp_id a.authenticator_data a.client_data_json cd
                                                checked;
                                          compacted = compacted;
                                          key = key;
                                          key_read = read;
                                          signed = passed;
                                          unchanged = refl;
                                          counted = rw short refl;
                                        }),
                                        size,
                                      )
