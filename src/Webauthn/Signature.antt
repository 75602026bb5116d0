-- ===== src/Webauthn/Signature.antt =====
-- P-256 signatures in internal/webauthn/der.go and internal/webauthn/p256.go. The curve, ECDSA, ASN.1
-- and SHA-256 are those of Go's library, and arguments here.
use arkade_runtime.Base.{
  ℕ, zero, suc, ◌+◌, ◌*◌, ◌-◌, ◌/◌, ◌%◌, Bool, ◌&&◌, ◌||◌, not, Option, none, some, [], ◌∷◌, ◌++◌,
}
use arkade_runtime.Base.Tests.{ltb, ◌==◌, if◌then◌else◌}
use arkade_runtime.Base.Lists.{length, take, drop}
use arkade_runtime.Base.Int64.{ℤ, pos, negsuc}
use arkade_runtime.Base.Result.{Result, Error, ok, err, ◌>>=◌, ◌>>◌, refuse}
use arkade_runtime.Base.Bytes.{Bytes, is_empty}

-- What the code takes from crypto/elliptic, crypto/ecdsa, crypto/sha256 and encoding/asn1.
pub record Crypto : Type 0 where
  -- elliptic.P256().Params().N
  pub order : ℕ
  -- asn1.Unmarshal of a pair of integers, with the bytes behind it.
  pub read_signature : Bytes → Option (Option ℤ × Option ℤ × Bytes)
  -- elliptic.UnmarshalCompressed, and whether ecdsa.ParseUncompressedPublicKey accepts 65 bytes.
  pub unmarshal_compressed : Bytes → Option (ℕ × ℕ)
  pub is_point : Bytes → Bool
  -- ecdsa.Verify of a key, as its 65 bytes, on a digest.
  pub verify : Bytes → Bytes → ℕ → ℕ → Bool
  pub sha256 : Bytes → Bytes

-- big.Int.FillBytes into `k` bytes, and SetBytes.
unfoldable pub fill_bytes : ℕ → ℕ → Bytes
fill_bytes zero v = []
fill_bytes (suc k) v = fill_bytes k (v / 256) ++ (v % 256 ∷ [])

unfoldable pub set_bytes_from : ℕ → Bytes → ℕ
set_bytes_from acc [] = acc
set_bytes_from acc (b ∷ bs) = set_bytes_from (acc * 256 + b) bs

unfoldable pub set_bytes : Bytes → ℕ
unfolding set_bytes_from
set_bytes bs = set_bytes_from 0 bs

-- canonicalScalar, with the number that it accepts.
unfoldable pub canonical_scalar : Option ℤ → Result ℕ
canonical_scalar none = err Error.bad_signature
canonical_scalar (some (negsuc n)) = err Error.bad_signature
canonical_scalar (some (pos n)) = if n == 0 then err Error.bad_signature else ok n

abbrev pub or_refused : {A : Type 0} → Option A → Error → Result A
or_refused none e = err e
or_refused (some a) e = ok a

module _ (crypto : Crypto) where
  open crypto use {order, read_signature, unmarshal_compressed, is_point, verify, sha256}

  -- `if parsed.S.Cmp(half) > 0 { parsed.S.Sub(n, parsed.S) }`
  unfoldable pub lower_s : ℕ → ℕ
  lower_s s = if ltb (order / 2) s then order - s else s

  -- CompactLowS
  unfoldable pub compact_low_s : Bytes → Result Bytes
  unfolding lower_s fill_bytes
  compact_low_s der = do
    (r0, s0, rest) ← or_refused (read_signature der) Error.bad_signature
    refuse (not (is_empty rest)) Error.bad_signature
    r ← canonical_scalar r0
    s ← canonical_scalar s0
    refuse (not (ltb r order)) Error.bad_signature
    refuse (not (ltb s order)) Error.bad_signature
    ok (fill_bytes 32 r ++ fill_bytes 32 (lower_s s))

  -- ParseCompressedP256, where a key is its uncompressed form.
  unfoldable pub parse_compressed_p256 : Bytes → Result Bytes
  unfolding fill_bytes
  parse_compressed_p256 [] = err Error.key_size
  parse_compressed_p256 (b ∷ bs) = do
    refuse (not (length (b ∷ bs) == 33)) Error.key_size
    refuse (not (b == 2) && not (b == 3)) Error.bad_signature
    (x, y) ← or_refused (unmarshal_compressed (b ∷ bs)) Error.bad_signature
    refuse (not (is_point (4 ∷ fill_bytes 32 x ++ fill_bytes 32 y))) Error.bad_signature
    ok (4 ∷ fill_bytes 32 x ++ fill_bytes 32 y)

  -- The checks of a compact signature over a digest, which VerifyES256 and VerifyDigestLowS share.
  unfoldable pub verify_compact : Bytes → Bytes → Bytes → Result (Unit {0})
  unfolding set_bytes
  verify_compact key digest compact = do
    refuse (not (length compact == 64)) Error.bad_signature
    refuse
        (not (ltb 0 (set_bytes (take 32 compact)))
          || not (ltb 0 (set_bytes (drop 32 compact)))
          || not (ltb (set_bytes (take 32 compact)) order)
          || not (ltb (set_bytes (drop 32 compact)) order))
        Error.bad_signature
    refuse (ltb (order / 2) (set_bytes (drop 32 compact))) Error.bad_signature
    refuse (not (verify key digest (set_bytes (take 32 compact)) (set_bytes (drop 32 compact))))
        Error.bad_signature

  -- SignedMessage and Digest
  unfoldable pub signed_message : Bytes → Bytes → Bytes
  signed_message authenticator_data client_data_json = authenticator_data ++ sha256 client_data_json

  unfoldable pub assertion_digest : Bytes → Bytes → Bytes
  unfolding signed_message
  assertion_digest authenticator_data client_data_json =
      sha256 (signed_message authenticator_data client_data_json)

  -- VerifyES256, with a key.
  unfoldable pub verify_es256 : Bytes → Bytes → Bytes → Bytes → Result (Unit {0})
  unfolding verify_compact assertion_digest
  verify_es256 key authenticator_data client_data_json compact =
      verify_compact key (assertion_digest authenticator_data client_data_json) compact

  -- VerifyDigestLowS, with a key.
  unfoldable pub verify_digest_low_s : Bytes → Bytes → Bytes → Result (Unit {0})
  unfolding verify_compact
  verify_digest_low_s key digest compact = do
    refuse (not (length digest == 32)) Error.bad_digest
    verify_compact key digest compact
