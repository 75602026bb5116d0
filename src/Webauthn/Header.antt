-- ===== src/Webauthn/Header.antt =====
-- The headers of internal/webauthn/cbor.go, which hold a number of 16 bits.
use arkade_runtime.Base.{
  ℕ, suc, ◌+◌, ◌*◌, ◌/◌, ◌%◌, ◌<◌, ◌≤◌, ◌≡◌, refl, ap, false, [], ◌∷◌, ◌++◌, arith, inl, inr,
}
use arkade_runtime.Base.Tests.{ltb, leb, Bool-cases}
use arkade_runtime.Base.Lists.{length, length-append}
use arkade_runtime.Base.Result.{ok}
use arkade_runtime.Base.Bytes.{Bytes}
use arkade_runtime.Webauthn.Cbor.{
  decode_cbor_len, decode_major, decode_cbor, max_cbor_bytes, encode_cbor_unsigned, with_major,
}

-- The header that stands for a number of 16 bits.
record Header (n : ℕ) : Type 0 where
  head : ℕ
  more : Bytes
  shape : encode_cbor_unsigned n ≡ head ∷ more
  low : head < 32
  reads : (rest : Bytes) → decode_cbor_len head (more ++ rest) ≡ ok (n, rest)

-- The three forms of a header.
pub short_reads : (n : ℕ) (rest : Bytes) → n < 24 → decode_cbor_len n rest ≡ ok (n, rest)
unfolding decode_cbor_len
short_reads n [] h = ground arith
short_reads n (a ∷ []) h = ground arith
short_reads n (a ∷ b ∷ rest) h = ground arith

byte_reads : (n : ℕ) (rest : Bytes) → 24 ≤ n → decode_cbor_len 24 (n ∷ rest) ≡ ok (n, rest)
unfolding decode_cbor_len
byte_reads n [] h = ground arith
byte_reads n (b ∷ rest) h = ground arith

word_reads :
    (n : ℕ) (rest : Bytes)
    → 256 ≤ n
    → n < 65536
    → decode_cbor_len 25 (n / 256 % 256 ∷ n % 256 ∷ rest) ≡ ok (n, rest)
unfolding decode_cbor_len
word_reads n rest h k =
    let whole : n / 256 % 256 * 256 + n % 256 ≡ n = omega arith in
    let big : leb n 255 ≡ false = ground arith in rw (whole, big) refl

header : (n : ℕ) → n < 65536 → Header n
unfolding encode_cbor_unsigned
header n h = elim (Bool-cases (ltb n 24)) [
  | inl short ↦ record {
    head = n;
    more = [];
    shape = rw short refl;
    low = ground arith;
    reads = λ rest. short_reads n rest (ground arith);
  }
  | inr long ↦ elim (Bool-cases (ltb n 256)) [
    | inl byte ↦ record {
      head = 24;
      more = n ∷ [];
      shape = rw (long, byte) refl;
      low = omega arith;
      reads = λ rest. byte_reads n rest (ground arith);
    }
    | inr word ↦ record {
      head = 25;
      more = n / 256 % 256 ∷ n % 256 ∷ [];
      shape = rw (long, word) refl;
      low = omega arith;
      reads = λ rest. word_reads n rest (ground arith) h;
    }
  ]
]

-- A header of a major type leads to the case of that type.
pub after_header :
    (major n fuel : ℕ) (body : Bytes)
    → n < 65536
    → length (with_major major (encode_cbor_unsigned n) ++ body) ≤ max_cbor_bytes
    → (ai : ℕ) × (decode_cbor (suc fuel) (with_major major (encode_cbor_unsigned n) ++ body)
        ≡ decode_major (decode_cbor fuel) major ai n body)
      × (length body < length (with_major major (encode_cbor_unsigned n) ++ body))
unfolding with_major decode_cbor
after_header major n fuel body small fits =
    let h = header n small in
    let fits' : length ((h.head + major * 32) ∷ (h.more ++ body)) ≤ max_cbor_bytes =
      rw h.shape at fits in
    let room : ltb max_cbor_bytes (length ((h.head + major * 32) ∷ (h.more ++ body))) ≡ false =
      ground arith in
    let low = h.low in
    let quotient : (h.head + major * 32) / 32 ≡ major = omega arith in
    let remainder : (h.head + major * 32) % 32 ≡ h.head = omega arith in
    let sum = length-append h.more body in
    (
      h.head,
      rw h.shape (rw (room, quotient, remainder, h.reads body) refl),
      rw h.shape (omega arith),
    )

pub unsigned_major :
    (n : ℕ) → n < 65536 → with_major 0 (encode_cbor_unsigned n) ≡ encode_cbor_unsigned n
unfolding with_major
unsigned_major n small =
    let h = header n small in
    let same : h.head + 0 * 32 ≡ h.head = omega arith in
    rw h.shape (ap (λ (b : ℕ). b ∷ h.more) same)
