-- ===== src/Webauthn/Cose.antt =====
-- parseCOSEES256 of internal/webauthn/create.go reads what EncodeCOSEES256 writes.
use arkade_runtime.Base.{
  ℕ, ◌+◌, ◌-◌, ◌%◌, ◌<◌, ◌≤◌, ◌≡◌, refl, sym, ap, ◌∙◌, Bool, true, false, not, ◌||◌, ◌&&◌, some, [],
  ◌∷◌, ◌++◌, arith,
}
use arkade_runtime.Base.Tests.{◌==◌, if◌then◌else◌}
use arkade_runtime.Base.Lists.{length, length-append}
use arkade_runtime.Base.Int64.{pos, negsuc}
use arkade_runtime.Base.Result.{Result, Error, ok, ◌>>=◌, ◌>>◌, refuse, from_ok, ok_injective}
use arkade_runtime.Base.Bytes.{Bytes}
use arkade_runtime.Webauthn.Cbor.{
  CborValue, cbor_int, cbor_bytes, cbor_map, end_pairs, pair, has_key, append_pair,
  same_cbor_map_key, encode_cbor_map, max_cbor_bytes,
}
use arkade_runtime.Webauthn.Encoding.{encode_value, Encodable, pair_count}
use arkade_runtime.Webauthn.RoundTrip.{decode_cbor-encode}
use arkade_runtime.Webauthn.Signature.{Crypto, fill_bytes, or_refused, parse_compressed_p256}
use arkade_runtime.Webauthn.LowS.{or_refused-some}
use arkade_runtime.Webauthn.Assertion.{byte_at}
use arkade_runtime.Webauthn.Create.{
  answered, run_cbor, compressed_p256_xy, cose_key, parse_cose_es256, cose_pairs,
}

-- What a call of the decoder gives on an encoding.
pub run_cbor-encode :
    (v : CborValue) (tail : Bytes)
    → Encodable v
    → length (encode_value v ++ tail) ≤ max_cbor_bytes
    → run_cbor (encode_value v ++ tail) ≡ ok (v, tail)
unfolding run_cbor
run_cbor-encode v tail w fits = ap answered (decode_cbor-encode v tail w fits)

cose_value : Bytes → Bytes → CborValue
cose_value x y = cbor_map (
    pair (cbor_int (pos 1)) (cbor_int (pos 2)) (
      pair (cbor_int (pos 3)) (cbor_int (negsuc 6)) (
        pair (cbor_int (negsuc 0)) (cbor_int (pos 1)) (
          pair (cbor_int (negsuc 1)) (cbor_bytes x)
            (pair (cbor_int (negsuc 2)) (cbor_bytes y) end_pairs)))))

encode-cose_value : (x y : Bytes) → encode_value (cose_value x y) ≡ encode_cbor_map (cose_pairs x y)
unfolding cose_value encode_value cose_pairs
encode-cose_value x y = refl

cose_value-Encodable : (x y : Bytes) → length x ≡ 32 → length y ≡ 32 → Encodable (cose_value x y)
unfolding cose_value has_key append_pair pair_count same_cbor_map_key
cose_value-Encodable x y lx ly = (
  omega arith,
  (refl, refl, (refl, refl, (refl, refl, (refl, refl, (refl, refl, tt))))),
  (
    omega arith,
    omega arith,
    (
      omega arith,
      omega arith,
      (omega arith, omega arith, (omega arith, omega arith, (omega arith, omega arith, tt))),
    ),
  ),
)

-- The last byte of a number tells whether it is odd.
pub last_bit : (v : ℕ) → byte_at (length (fill_bytes 32 v) - 1) (fill_bytes 32 v) % 2 ≡ v % 2
unfolding fill_bytes byte_at
last_bit v = omega arith

cose_length :
    (x y : Bytes) → length x ≡ 32 → length y ≡ 32 → length (encode_cbor_map (cose_pairs x y)) ≡ 77
unfolding encode_cbor_map cose_pairs
cose_length x y lx ly =
    let one = length-append x (34 ∷ 88 ∷ 32 ∷ (y ++ [])) in
    let two = length-append y [] in rw (lx, ly) (omega arith)

passes : {A : Type 0} (p : Bool) (m : Result A) (e : Error) → p ≡ false → (refuse p e >> m) ≡ m
passes p m e h = rw h refl

module _ (crypto : Crypto) where
  -- A key that is accepted is its uncompressed form, and its coordinates make it up.
  pub parts :
      (k key : Bytes)
      → parse_compressed_p256 crypto k ≡ ok key
      → (x : ℕ) × (y : ℕ) × (crypto.unmarshal_compressed k ≡ some (x, y))
        × (crypto.is_point (4 ∷ fill_bytes 32 x ++ fill_bytes 32 y) ≡ true)
        × (key ≡ (4 ∷ fill_bytes 32 x ++ fill_bytes 32 y))
  unfolding parse_compressed_p256
  parts [] key h = absurd (ground arith)
  parts (b ∷ bs) key h = from_ok (refuse (not (length (b ∷ bs) == 33)) Error.key_size) _ h λ _ _ h1.
      from_ok (refuse (not (b == 2) && not (b == 3)) Error.bad_signature) _ h1 λ _ _ h2.
        from_ok (or_refused (crypto.unmarshal_compressed (b ∷ bs)) Error.bad_signature) _ h2
          λ xy read h3.
            let p = 4 ∷ fill_bytes 32 xy.0 ++ fill_bytes 32 xy.1 in
            from_ok (refuse (not (crypto.is_point p)) Error.bad_signature) _ h3 λ _ on h4. (
              xy.0,
              xy.1,
              or_refused-some (crypto.unmarshal_compressed (b ∷ bs)) xy _ read,
              ground arith,
              sym (ok_injective h4),
            )

  compressed_back :
      (k key xs ys : Bytes) (bit : ℕ)
      → length xs ≡ 32
      → length ys ≡ 32
      → byte_at (length ys - 1) ys % 2 ≡ bit
      → bit < 2
      → k ≡ (2 + bit) ∷ xs
      → crypto.is_point (4 ∷ xs ++ ys) ≡ true
      → parse_compressed_p256 crypto k ≡ ok key
      → compressed_p256_xy crypto xs ys ≡ ok k
  unfolding compressed_p256_xy
  compressed_back k key xs ys bit lx ly odd small shape point parsed =
      let sized : (not (length xs == 32) || not (length ys == 32)) ≡ false = ground arith in
      let sign : (if bit == 1 then 3 else 2) ≡ 2 + bit = ground arith in
      let same : (if byte_at (length ys - 1) ys % 2 == 1 then 3 else 2) ∷ xs ≡ k =
        rw (odd, sign) (sym shape) in
      rw (sized, point)
        (ap (λ (o : Bytes). parse_compressed_p256 crypto o >>= λ key'. ok o) same
          ∙ ap (λ (m : Result Bytes). m >>= λ key'. ok k) parsed)

  parse_from :
      (raw rest : Bytes) (v : CborValue) (k : Bytes)
      → run_cbor raw ≡ ok (v, rest)
      → cose_key crypto v ≡ ok k
      → parse_cose_es256 crypto raw ≡ ok (k, rest)
  unfolding parse_cose_es256
  parse_from raw rest v k read key = rw (read, key) refl

  cose_value_key :
      (k xs ys : Bytes)
      → length xs ≡ 32
      → length ys ≡ 32
      → compressed_p256_xy crypto xs ys ≡ ok k
      → cose_key crypto (cose_value xs ys) ≡ ok k
  unfolding cose_key cose_value same_cbor_map_key
  cose_value_key k xs ys lx ly key =
      let sx : (not (length xs == 32)) ≡ false = ground arith in
      let sy : (not (length ys == 32)) ≡ false = ground arith in
      passes (not (length xs == 32)) _ Error.key_size sx
      ∙ passes (not (length ys == 32)) _ Error.key_size sy
      ∙ key

  -- The map that EncodeCOSEES256 writes is read back.
  pub cose_back :
      (k key xs ys tail : Bytes) (bit : ℕ)
      → length xs ≡ 32
      → length ys ≡ 32
      → byte_at (length ys - 1) ys % 2 ≡ bit
      → bit < 2
      → k ≡ (2 + bit) ∷ xs
      → crypto.is_point (4 ∷ xs ++ ys) ≡ true
      → parse_compressed_p256 crypto k ≡ ok key
      → 77 + length tail ≤ max_cbor_bytes
      → parse_cose_es256 crypto (encode_cbor_map (cose_pairs xs ys) ++ tail) ≡ ok (k, tail)
  unfolding parse_cose_es256 cose_value
  cose_back k key xs ys tail bit lx ly odd small shape point parsed fits =
      let enc = encode-cose_value xs ys in
      let sum = length-append (encode_cbor_map (cose_pairs xs ys)) tail in
      let len = cose_length xs ys lx ly in
      let room : length (encode_value (cose_value xs ys) ++ tail) ≤ max_cbor_bytes =
        rw enc (omega arith) in
      let back = run_cbor-encode (cose_value xs ys) tail (cose_value-Encodable xs ys lx ly) room in
      let back' : run_cbor (encode_cbor_map (cose_pairs xs ys) ++ tail)
          ≡ ok (cose_value xs ys, tail) =
        rw enc at back in
      let key_back = compressed_back k key xs ys bit lx ly odd small shape point parsed in
      parse_from (encode_cbor_map (cose_pairs xs ys) ++ tail) tail (cose_value xs ys) k back'
        (cose_value_key k xs ys lx ly key_back)
