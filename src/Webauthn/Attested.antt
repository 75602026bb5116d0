-- ===== src/Webauthn/Attested.antt =====
-- ValidateCreate of internal/webauthn/create.go on what attestedAuthenticatorData builds.
use mathlib.Core.Path.{subst}
use mathlib.Core.List.{append-nil}
use arkade_runtime.Base.{
  ℕ, suc, ◌+◌, ◌*◌, ◌/◌, ◌%◌, ◌<◌, ◌≤◌, ◌≡◌, refl, sym, ap, ◌∙◌, true, false, not, ◌||◌, some, [],
  ◌∷◌, ◌++◌, arith, ◌⊎◌, inl, inr,
}
use arkade_runtime.Base.Tests.{ltb, leb, ◌==◌, if◌then◌else◌}
use arkade_runtime.Base.Lists.{
  length, take, drop, length-append, take-append_self, drop-append_self,
}
use arkade_runtime.Base.Result.{Error, ok, refuse, from_ok, ok_injective}
use arkade_runtime.Base.Bytes.{Bytes, is_empty}
use arkade_runtime.Webauthn.Cbor.{CborValue, max_cbor_bytes, encode_cbor_map}
use arkade_runtime.Webauthn.Encoding.{encode_value, Encodable}
use arkade_runtime.Webauthn.Signature.{Crypto, fill_bytes, parse_compressed_p256}
use arkade_runtime.Webauthn.LowS.{length-fill_bytes}
use arkade_runtime.Webauthn.Assertion.{byte_at, flag_ed}
use arkade_runtime.Webauthn.Cose.{run_cbor-encode, cose_back, parts, last_bit}
use arkade_runtime.Webauthn.Create.{
  run_cbor, is_extension_map, check_extensions, parse_cose_es256, CreateResult, credential_at,
  extract_attested_credential, cose_pairs, encode_cose_es256, zeros,
}

byte_at-past : (n i : ℕ) (a t : Bytes) → length a ≡ n → byte_at (n + i) (a ++ t) ≡ byte_at i t
unfolding byte_at
byte_at-past n i [] t h = let same : n + i ≡ i = omega arith in ap (λ (j : ℕ). byte_at j t) same
byte_at-past n i (x ∷ a) t h =
    let same : n + i ≡ suc (length a + i) = omega arith in
    ap (λ (j : ℕ). byte_at j (x ∷ (a ++ t))) same ∙ byte_at-past (length a) i a t refl

drop-past : (n i : ℕ) (a t : Bytes) → length a ≡ n → drop (n + i) (a ++ t) ≡ drop i t
drop-past n i [] t h = let same : n + i ≡ i = omega arith in ap (λ (j : ℕ). drop j t) same
drop-past n i (x ∷ a) t h =
    let same : n + i ≡ suc (length a + i) = omega arith in
    ap (λ (j : ℕ). drop j (x ∷ (a ++ t))) same ∙ drop-past (length a) i a t refl

-- Nothing, or a map with a pair, the way the callers of attestedAuthenticatorData give extensions.
abbrev pub Extensions : Bytes → Type 0
Extensions ext =
    (ext ≡ [])
    ⊎ ((v : CborValue) × (ext ≡ encode_value v) × Encodable v × (is_extension_map v ≡ true))

check_map :
    (v : CborValue) (e : Bytes)
    → run_cbor e ≡ ok (v, [])
    → is_extension_map v ≡ true
    → check_extensions (flag_ed (if is_empty e then 69 else 197)) e ≡ ok tt
unfolding check_extensions
check_map v [] h k = ground arith
check_map v (b ∷ e) h k = rw (h, k) refl

pub check_extensions-built :
    (ext : Bytes)
    → Extensions ext
    → length ext ≤ max_cbor_bytes
    → check_extensions (flag_ed (if is_empty ext then 69 else 197)) ext ≡ ok tt
unfolding check_extensions
check_extensions-built ext (inl nothing) fits =
    subst (λ (e : Bytes). check_extensions (flag_ed (if is_empty e then 69 else 197)) e ≡ ok tt)
      (sym nothing) refl
check_extensions-built ext (inr (v, same, w, k)) fits =
    let bare = append-nil (encode_value v) in
    let read : run_cbor (encode_value v) ≡ ok (v, []) =
      ap run_cbor (sym bare) ∙ run_cbor-encode v [] w (rw (bare, ← same) fits) in
    check_map v ext (rw same read) k

module _ (crypto : Crypto) where
  pub credential_back :
      (auth cred k body rest : Bytes) (flags : ℕ)
      → 0 < length cred
      → 55 + length cred < length auth
      → byte_at 32 auth ≡ flags
      → drop (55 + length cred) auth ≡ body
      → take (length cred) (drop 55 auth) ≡ cred
      → parse_cose_es256 crypto body ≡ ok (k, rest)
      → check_extensions (flag_ed flags) rest ≡ ok tt
      → credential_at crypto auth (length cred)
        ≡ ok (record { credential_id = cred; webauthn_p256 = k })
  unfolding credential_at
  credential_back auth cred k body rest flags some_id long is_flags is_body is_id parsed checked =
      let fine : ((length cred == 0) || leb (length auth) (55 + length cred)) ≡ false =
        ground arith in
      rw (fine, is_body, parsed, is_flags, checked, is_id) refl

  pub extract_back :
      (auth cred : Bytes) (out : CreateResult)
      → 55 ≤ length auth
      → byte_at 53 auth * 256 + byte_at 54 auth ≡ length cred
      → credential_at crypto auth (length cred) ≡ ok out
      → extract_attested_credential crypto auth ≡ ok out
  unfolding extract_attested_credential
  extract_back auth cred out long len at =
      let fine : ltb (length auth) 55 ≡ false = ground arith in
      rw fine (ap (credential_at crypto auth) len ∙ at)

  halves :
      (key : Bytes) (x y : ℕ)
      → key ≡ (4 ∷ fill_bytes 32 x ++ fill_bytes 32 y)
      → (take 32 (drop 1 key) ≡ fill_bytes 32 x) × (take 32 (drop 33 key) ≡ fill_bytes 32 y)
  unfolding fill_bytes
  halves key x y h = rw h (refl, refl)

  cose_same :
      {a b x y : Bytes}
      → a ≡ x
      → b ≡ y
      → encode_cbor_map (cose_pairs x y) ≡ encode_cbor_map (cose_pairs a b)
  cose_same h k = rw (h, k) refl

  -- What EncodeCOSEES256 wrote is read back as the key, if keys are in the form of their coordinates.
  pub encode_cose_back :
      (k cose tail : Bytes)
      → ((b : Bytes) (x y : ℕ)
          → crypto.unmarshal_compressed b ≡ some (x, y)
          → b ≡ (2 + y % 2) ∷ fill_bytes 32 x)
      → encode_cose_es256 crypto k ≡ ok cose
      → 77 + length tail ≤ max_cbor_bytes
      → parse_cose_es256 crypto (cose ++ tail) ≡ ok (k, tail)
  unfolding encode_cose_es256
  encode_cose_back k cose tail compressed h fits =
      from_ok (parse_compressed_p256 crypto k) _ h λ key parsed h1.
        from_ok (refuse (not (length key == 65) || not (byte_at 0 key == 4)) Error.bad_signature) _
          h1
          λ _ _ h2.
            let (x, y, read, point, shape) = parts crypto k key parsed in
            let (left, right) = halves key x y shape in
            let back =
              cose_back crypto k key (fill_bytes 32 x) (fill_bytes 32 y) tail (y % 2)
                (length-fill_bytes 32 x) (length-fill_bytes 32 y) (last_bit y) (omega arith)
                (compressed k x y read) point parsed fits in
            let same : encode_cbor_map (cose_pairs (fill_bytes 32 x) (fill_bytes 32 y)) ≡ cose =
              cose_same left right ∙ ok_injective h2 in
            subst (λ (c : Bytes). parse_cose_es256 crypto (c ++ tail) ≡ ok (k, tail)) same back

hi_lo : {a b x y n : ℕ} → a ≡ x → b ≡ y → x * 256 + y ≡ n → a * 256 + b ≡ n
hi_lo h k w = rw (h, k) w

-- The 55 bytes before the credential, and where its parts stand.
pub layout :
    (hash cred body : Bytes) (flags : ℕ)
    → length hash ≡ 32
    → length cred < 65536
    → (auth : Bytes)
    → (hash
        ++ (flags
            ∷ (zeros 4
                ++ (zeros 16 ++ (length cred / 256 % 256 ∷ (length cred % 256 ∷ (cred ++ body)))))))
      ≡ auth
    → (byte_at 32 auth ≡ flags)
      × (byte_at 53 auth * 256 + byte_at 54 auth ≡ length cred)
      × (drop (55 + length cred) auth ≡ body)
      × (take (length cred) (drop 55 auth) ≡ cred)
      × (length auth ≡ 55 + length cred + length body)
unfolding byte_at
layout hash cred body flags h32 small auth same =
    let pre =
      flags ∷ (zeros 4 ++ (zeros 16 ++ (length cred / 256 % 256 ∷ (length cred % 256 ∷ [])))) in
    let t = pre ++ (cred ++ body) in
    let sum = length-append hash t in
    let sum' = length-append cred body in
    let far : 55 + length cred ≡ 32 + (23 + length cred) = omega arith in
    let hi = byte_at-past 32 21 hash t h32 in
    let lo = byte_at-past 32 22 hash t h32 in
    let whole : length cred / 256 % 256 * 256 + length cred % 256 ≡ length cred = omega arith in
    rw (← same) (
      byte_at-past 32 0 hash t h32,
      hi_lo hi lo whole,
      ap (λ (j : ℕ). drop j (hash ++ t)) far
          ∙ drop-past 32 (23 + length cred) hash t h32
          ∙ drop-past 23 (length cred) pre (cred ++ body) refl
          ∙ drop-append_self cred body,
      ap (take (length cred)) (drop-past 32 23 hash t h32) ∙ take-append_self cred body,
      omega arith,
    )
