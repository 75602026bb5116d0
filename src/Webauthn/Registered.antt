-- ===== src/Webauthn/Registered.antt =====
-- ValidateCreate of internal/webauthn/create.go accepts what attestedAuthenticatorData builds.
use mathlib.Core.Path.{subst}
use arkade_runtime.Base.{
  ℕ, ◌+◌, ◌/◌, ◌%◌, ◌<◌, ◌≤◌, ◌≡◌, refl, ap, true, false, not, ◌||◌, some, [], ◌∷◌, ◌++◌, arith,
}
use arkade_runtime.Base.Tests.{ltb, ◌==◌, if◌then◌else◌}
use arkade_runtime.Base.Lists.{length, take, take-append_self}
use arkade_runtime.Base.Result.{Error, ok, refuse, refuse_passed, from_ok, ok_injective}
use arkade_runtime.Base.Bytes.{Bytes, codes, bytes_eq, bytes_eq_refl, is_empty}
use arkade_runtime.Webauthn.Cbor.{max_cbor_bytes}
use arkade_runtime.Webauthn.Signature.{Crypto, fill_bytes}
use arkade_runtime.Webauthn.Assertion.{
  ClientData, Formats, byte_at, flag_up, flag_uv, flag_at, is_cross, check_ceremony, Ceremony,
  max_client_data_json,
}
use arkade_runtime.Webauthn.Attested.{
  Extensions, check_extensions-built, encode_cose_back, layout, credential_back, extract_back,
}
use arkade_runtime.Webauthn.Create.{
  CreateResult, parse_cose_es256, extract_attested_credential, validate_create, encode_cose_es256,
  zeros, attested_authenticator_data,
}

bytes_eq-same : {a b : Bytes} → a ≡ b → bytes_eq a b ≡ true
bytes_eq-same {a} {b} h = subst (λ (c : Bytes). bytes_eq a c ≡ true) h (bytes_eq_refl a)

same_size : (n m : ℕ) → n ≡ m → not (n == m) ≡ false
same_size n m h = ground arith

long_enough : (n m : ℕ) → m ≤ n → ltb n m ≡ false
long_enough n m h = ground arith

in_bounds :
    (b : Bytes) (most : ℕ)
    → is_empty b ≡ false
    → length b ≤ most
    → (is_empty b || ltb most (length b)) ≡ false
in_bounds b most h k = ground arith

id_size :
    (b : Bytes) (most : ℕ)
    → (is_empty b || ltb most (length b)) ≡ false
    → (0 < length b) × (length b ≤ most)
id_size [] most h = absurd (ground arith)
id_size (x ∷ b) most h = (omega arith, ground arith)

first_part : (n : ℕ) (a t whole : Bytes) → length a ≡ n → (a ++ t) ≡ whole → take n whole ≡ a
first_part n a t whole h k = rw (← h, ← k) (take-append_self a t)

parse_nonempty :
    (crypto : Crypto) (raw : Bytes) (out : Bytes × Bytes)
    → parse_cose_es256 crypto raw ≡ ok out
    → 0 < length raw
unfolding parse_cose_es256
parse_nonempty crypto [] out h = ground arith
parse_nonempty crypto (b ∷ raw) out h = omega arith

module _ (crypto : Crypto) (formats : Formats) where
  open crypto use {sha256, unmarshal_compressed}
  open formats use {read_client_data, read_base64}

  check_ceremony_complete :
      (kind challenge origin rp_id auth json : Bytes) (cd : ClientData)
      → Ceremony crypto formats kind challenge origin rp_id auth json cd
      → check_ceremony crypto formats kind challenge origin rp_id auth json ≡ ok cd
  unfolding check_ceremony
  check_ceremony_complete kind challenge origin rp_id auth json cd c =
      let k = bytes_eq-same c.right_kind in
      let o = bytes_eq-same c.right_origin in
      let x : is_cross cd.cross_origin ≡ false = ap is_cross c.same_origin in
      let s = bytes_eq_refl challenge in
      let r = bytes_eq-same c.right_party in
      rw (c.parsed, k, o, x, c.fresh, s, r, c.present, c.verified) refl

  flags_set :
      (ext : Bytes) (flags : ℕ)
      → flags ≡ (if is_empty ext then 69 else 197)
      → (flag_up flags ≡ true) × (flag_uv flags ≡ true) × (flag_at flags ≡ true)
  flags_set [] flags h = rw h (refl, refl, refl)
  flags_set (b ∷ ext) flags h = rw h (refl, refl, refl)

  accept :
      (json auth challenge origin rp_id : Bytes) (cd : ClientData) (out : CreateResult)
      → length challenge ≡ 32
      → 37 ≤ length auth
      → is_empty json ≡ false
      → length json ≤ max_client_data_json
      → check_ceremony crypto formats (codes "webauthn.create") challenge origin rp_id auth json
        ≡ ok cd
      → flag_at (byte_at 32 auth) ≡ true
      → extract_attested_credential crypto auth ≡ ok out
      → validate_create crypto formats json auth challenge origin rp_id ≡ ok out
  unfolding validate_create
  accept json auth challenge origin rp_id cd out c32 long full fits checked at out_is =
      let whole = same_size (length challenge) 32 c32 in
      let enough = long_enough (length auth) 37 long in
      let bounded = in_bounds json max_client_data_json full fits in
      rw (whole, enough, bounded, checked, at, out_is) refl

  finish :
      (rp_id cred k ext auth json challenge origin : Bytes) (cd : ClientData) (cose : Bytes)
      → length (sha256 rp_id) ≡ 32
      → 0 < length cred
      → length cred ≤ 1024
      → (sha256 rp_id
          ++ ((if is_empty ext then 69 else 197)
              ∷ (zeros 4
                  ++ (zeros 16
                      ++ (length cred / 256 % 256
                          ∷ (length cred % 256 ∷ (cred ++ (cose ++ ext))))))))
        ≡ auth
      → parse_cose_es256 crypto (cose ++ ext) ≡ ok (k, ext)
      → Extensions ext
      → length ext ≤ max_cbor_bytes
      → length challenge ≡ 32
      → is_empty json ≡ false
      → length json ≤ max_client_data_json
      → read_client_data json ≡ some cd
      → cd.kind ≡ codes "webauthn.create"
      → cd.origin ≡ origin
      → cd.cross_origin ≡ some false
      → read_base64 cd.challenge ≡ some challenge
      → validate_create crypto formats json auth challenge origin rp_id
        ≡ ok (record { credential_id = cred; webauthn_p256 = k })
  finish rp_id cred k ext auth json challenge origin cd cose d32 some_id most built key e fits c32
        full bounded parsed kind from same fresh =
      let flags : ℕ = if is_empty ext then 69 else 197 in
      let (at32, len, is_body, is_id, total) =
        layout (sha256 rp_id) cred (cose ++ ext) flags d32 (omega arith) auth built in
      let (up, uv, at) = flags_set ext (byte_at 32 auth) at32 in
      let body = parse_nonempty crypto (cose ++ ext) (k, ext) key in
      let credential =
        credential_back crypto auth cred k (cose ++ ext) ext flags some_id (omega arith) at32
          is_body is_id key (check_extensions-built ext e fits) in
      accept json auth challenge origin rp_id cd _ c32 (omega arith) full bounded
        (check_ceremony_complete (codes "webauthn.create") challenge origin rp_id auth json cd
          (record {
            parsed = parsed;
            right_kind = kind;
            right_origin = from;
            same_origin = same;
            fresh = fresh;
            right_party = first_part 32 (sha256 rp_id) _ auth d32 built;
            present = up;
            verified = uv;
          }))
        at (extract_back crypto auth cred _ (omega arith) len credential)

  -- Where SHA-256 gives 32 bytes and a compressed key that the curve reads is its x coordinate
  -- behind its parity: authenticator data that attestedAuthenticatorData builds, with no
  -- extensions or a map of extensions such that it and the key of 77 bytes have at most 4096,
  -- passes ValidateCreate with client data of 1 to 4096 bytes that names "webauthn.create", the
  -- origin, the challenge of 32 bytes and no other origin, and gives back the credential and
  -- the key that it was built from.
  pub validate_create-attested :
      (rp_id cred k ext auth json challenge origin : Bytes) (cd : ClientData)
      → ((b : Bytes) → length (sha256 b) ≡ 32)
      → ((b : Bytes) (x y : ℕ)
          → unmarshal_compressed b ≡ some (x, y)
          → b ≡ (2 + y % 2) ∷ fill_bytes 32 x)
      → attested_authenticator_data crypto rp_id cred k ext ≡ ok auth
      → Extensions ext
      → 77 + length ext ≤ max_cbor_bytes
      → length challenge ≡ 32
      → is_empty json ≡ false
      → length json ≤ max_client_data_json
      → read_client_data json ≡ some cd
      → cd.kind ≡ codes "webauthn.create"
      → cd.origin ≡ origin
      → cd.cross_origin ≡ some false
      → read_base64 cd.challenge ≡ some challenge
      → validate_create crypto formats json auth challenge origin rp_id
        ≡ ok (record { credential_id = cred; webauthn_p256 = k })
  unfolding attested_authenticator_data
  validate_create-attested rp_id cred k ext auth json challenge origin cd digest compressed built e
        fits c32 full bounded parsed kind from same fresh =
      from_ok (encode_cose_es256 crypto k) _ built λ cose encoded h1.
        from_ok (refuse (is_empty cred || ltb 1024 (length cred)) Error.identity_required) _ h1
          λ _ sized h2.
            let (some_id, most) =
              id_size cred 1024 (refuse_passed _ Error.identity_required sized) in
            finish rp_id cred k ext auth json challenge origin cd cose (digest rp_id) some_id most
              (ok_injective h2) (encode_cose_back crypto k cose ext compressed encoded fits) e
              (omega arith) c32 full bounded parsed kind from same fresh
