-- ===== src/Webauthn/RoundTrip.antt =====
-- decodeCBOR of internal/webauthn/cbor.go reads what its encoders write.
use mathlib.Core.List.{append_assoc}
use arkade_runtime.Base.{
  ℕ, zero, suc, ◌<◌, ◌≤◌, ◌≡◌, refl, sym, ap, ◌∙◌, Bool, true, false, some, ◌++◌, arith,
}
use arkade_runtime.Base.Tests.{ltb}
use arkade_runtime.Base.Lists.{length, length-append, take-append_self, drop-append_self}
use arkade_runtime.Base.Int64.{pos, negsuc}
use arkade_runtime.Base.Result.{ok}
use arkade_runtime.Base.Bytes.{Bytes}
use arkade_runtime.Webauthn.Cbor.{
  CborValue, CborPairs, cbor_int, cbor_bytes, cbor_text, cbor_map, cbor_bool, end_pairs, pair,
  append_pair, Decoded, ◌and_then◌, decode_pairs, decode_string, decode_major, decode_cbor,
  max_cbor_bytes, as_map, guard_size, encode_cbor_unsigned, with_major, encode_cbor_negative,
  encode_cbor_bytes, encode_cbor_text, concat_pairs, encode_cbor_map, encode_cbor_bool,
}
use arkade_runtime.Webauthn.Encoding.{
  encode_value, encode_pairs, pair_count, Distinct, Encodable, EncodablePairs,
}
use arkade_runtime.Webauthn.Header.{short_reads, after_header, unsigned_major}

-- The pairs that a map has after those of `ps` were appended.
extend : CborPairs → CborPairs → CborPairs
extend before end_pairs = before
extend before (pair k v ps) = extend (append_pair before k v) ps

join : CborPairs → CborPairs → CborPairs
join end_pairs ps = ps
join (pair k v before) ps = pair k v (join before ps)

join-append_pair :
    (before : CborPairs) (k v : CborValue) (ps : CborPairs)
    → join (append_pair before k v) ps ≡ join before (pair k v ps)
unfolding join append_pair
join-append_pair end_pairs k v ps = refl
join-append_pair (pair a b before) k v ps = ap (pair a b) (join-append_pair before k v ps)

join-nil : (before : CborPairs) → join before end_pairs ≡ before
unfolding join
join-nil end_pairs = refl
join-nil (pair a b before) = ap (pair a b) (join-nil before)

extend-join : (before ps : CborPairs) → extend before ps ≡ join before ps
unfolding extend
extend-join before end_pairs = sym (join-nil before)
extend-join before (pair k v ps) =
    extend-join (append_pair before k v) ps ∙ join-append_pair before k v ps

extend_all : (ps : CborPairs) → extend end_pairs ps ≡ ps
unfolding join
extend_all ps = extend-join end_pairs ps

length-encode_pairs : (ps : CborPairs) → length (encode_pairs ps) ≡ pair_count ps
unfolding encode_value pair_count
length-encode_pairs end_pairs = refl
length-encode_pairs (pair k v ps) = omega (arith, length-encode_pairs ps)

string_reads :
    (make : Bytes → CborValue) (b tail : Bytes)
    → decode_string make (length b) (b ++ tail) ≡ some (ok (make b, tail))
string_reads make b tail =
    let total = length-append b tail in
    let enough : ltb (length (b ++ tail)) (length b) ≡ false = ground arith in
    rw (enough, take-append_self b tail, drop-append_self b tail) refl

-- A string of bytes under its header.
string_back :
    (make : Bytes → CborValue) (major fuel : ℕ) (b tail : Bytes)
    → ((dec : Bytes → Decoded CborValue) (ai n : ℕ) (rest : Bytes)
        → decode_major dec major ai n rest ≡ decode_string make n rest)
    → length b < 65536
    → length ((with_major major (encode_cbor_unsigned (length b)) ++ b) ++ tail) ≤ max_cbor_bytes
    → decode_cbor (suc fuel) ((with_major major (encode_cbor_unsigned (length b)) ++ b) ++ tail)
      ≡ some (ok (make b, tail))
string_back make major fuel b tail is small fits =
    let assoc = append_assoc (with_major major (encode_cbor_unsigned (length b))) b tail in
    let (ai, reads, _) = after_header major (length b) fuel (b ++ tail) small (rw assoc at fits) in
    ap (decode_cbor (suc fuel)) assoc
    ∙ reads
    ∙ is (decode_cbor fuel) ai (length b) (b ++ tail)
    ∙ string_reads make b tail

bool_reads :
    (b : Bool) (fuel : ℕ) (tail : Bytes)
    → length (encode_cbor_bool b ++ tail) ≤ max_cbor_bytes
    → decode_cbor (suc fuel) (encode_cbor_bool b ++ tail) ≡ some (ok (cbor_bool b, tail))
unfolding encode_cbor_bool decode_cbor decode_major
bool_reads true fuel tail fits =
    let room : ltb max_cbor_bytes (suc (length tail)) ≡ false = ground arith in
    rw (room, short_reads 21 tail (omega arith)) refl
bool_reads false fuel tail fits =
    let room : ltb max_cbor_bytes (suc (length tail)) ≡ false = ground arith in
    rw (room, short_reads 20 tail (omega arith)) refl

map_reads :
    (dec : Bytes → Decoded CborValue) (n : ℕ) (body tail : Bytes) (ps : CborPairs)
    → ltb 16 n ≡ false
    → decode_pairs dec n body end_pairs ≡ some (ok (extend end_pairs ps, tail))
    → guard_size (ltb 16 n) (decode_pairs dec n body end_pairs and_then as_map)
      ≡ some (ok (cbor_map ps, tail))
map_reads dec n body tail ps small pairs = rw (small, pairs, extend_all ps) refl

concat_assoc : (k v c tail : Bytes) → (((k ++ v) ++ c) ++ tail) ≡ (k ++ (v ++ (c ++ tail)))
concat_assoc k v c tail = append_assoc (k ++ v) c tail ∙ append_assoc k v (c ++ tail)

mutual
  unfolding encode_value decode_major decode_pairs concat_pairs encode_cbor_negative
      encode_cbor_bytes encode_cbor_text encode_cbor_map encode_cbor_bool pair_count extend

  read_back :
      (fuel : ℕ) (v : CborValue) (tail : Bytes)
      → Encodable v
      → length (encode_value v ++ tail) < fuel
      → length (encode_value v ++ tail) ≤ max_cbor_bytes
      → decode_cbor fuel (encode_value v ++ tail) ≡ some (ok (v, tail))
  read_back zero v tail w l fits = absurd (omega arith)
  read_back (suc fuel) (cbor_int (pos n)) tail w l fits =
      let plain = unsigned_major n w in
      let (ai, reads, _) = after_header 0 n fuel tail w (rw plain fits) in
      ap (λ (h : Bytes). decode_cbor (suc fuel) (h ++ tail)) (sym plain) ∙ reads
  read_back (suc fuel) (cbor_int (negsuc m)) tail w l fits =
      let (ai, reads, _) = after_header 1 m fuel tail w fits in reads
  read_back (suc fuel) (cbor_bytes b) tail w l fits =
      string_back cbor_bytes 2 fuel b tail (λ dec ai n rest. refl) w fits
  read_back (suc fuel) (cbor_text s) tail w l fits =
      string_back cbor_text 3 fuel s tail (λ dec ai n rest. refl) w fits
  read_back (suc fuel) (cbor_bool true) tail w l fits = bool_reads true fuel tail fits
  read_back (suc fuel) (cbor_bool false) tail w l fits = bool_reads false fuel tail fits
  read_back (suc fuel) (cbor_map ps) tail (few, distinct, parts) l fits =
      let n = length (encode_pairs ps) in
      let count = length-encode_pairs ps in
      let c = concat_pairs (encode_pairs ps) in
      let assoc = append_assoc (with_major 5 (encode_cbor_unsigned n)) c tail in
      let (ai, reads, less) = after_header 5 n fuel (c ++ tail) (omega arith) (rw assoc at fits) in
      let l' : length (with_major 5 (encode_cbor_unsigned n) ++ (c ++ tail)) < suc fuel =
        rw assoc at l in
      let fits' : length (with_major 5 (encode_cbor_unsigned n) ++ (c ++ tail)) ≤ max_cbor_bytes =
        rw assoc at fits in
      let small : ltb 16 n ≡ false = ground arith in
      let pairs = read_pairs fuel ps end_pairs tail distinct parts (omega arith) (omega arith) in
      ap (decode_cbor (suc fuel)) assoc
      ∙ reads
      ∙ map_reads (decode_cbor fuel) n (c ++ tail) tail ps small (rw count pairs)

  read_pairs :
      (fuel : ℕ) (ps before : CborPairs) (tail : Bytes)
      → Distinct before ps
      → EncodablePairs ps
      → length (concat_pairs (encode_pairs ps) ++ tail) < fuel
      → length (concat_pairs (encode_pairs ps) ++ tail) ≤ max_cbor_bytes
      → decode_pairs
          (decode_cbor fuel)
          (pair_count ps)
          (concat_pairs (encode_pairs ps) ++ tail)
          before
        ≡ some (ok (extend before ps, tail))
  read_pairs fuel end_pairs before tail d w l fits = refl
  read_pairs fuel (pair k v ps) before tail (key, fresh, d) (wk, wv, ws) l fits =
      let c = concat_pairs (encode_pairs ps) in
      let assoc = concat_assoc (encode_value k) (encode_value v) c tail in
      let l' : length (encode_value k ++ (encode_value v ++ (c ++ tail))) < fuel = rw assoc at l in
      let fits' : length (encode_value k ++ (encode_value v ++ (c ++ tail))) ≤ max_cbor_bytes =
        rw assoc at fits in
      let sum = length-append (encode_value k) (encode_value v ++ (c ++ tail)) in
      let sum' = length-append (encode_value v) (c ++ tail) in
      let one = read_back fuel k (encode_value v ++ (c ++ tail)) wk l' fits' in
      let two = read_back fuel v (c ++ tail) wv (omega arith) (omega arith) in
      let rest =
        read_pairs fuel ps (append_pair before k v) tail d ws (omega arith) (omega arith) in
      rw (assoc, one, key, fresh, two) rest

-- What the encoders of internal/webauthn write for a value (numbers and lengths of 16 bits, maps
-- of at most 16 pairs with distinct keys that are numbers or texts), decodeCBOR reads back, in
-- front of any further bytes, where all of it has at most 4096 bytes.
pub decode_cbor-encode :
    (v : CborValue) (tail : Bytes)
    → Encodable v
    → length (encode_value v ++ tail) ≤ max_cbor_bytes
    → decode_cbor (suc (length (encode_value v ++ tail))) (encode_value v ++ tail)
      ≡ some (ok (v, tail))
decode_cbor-encode v tail w fits =
    read_back (suc (length (encode_value v ++ tail))) v tail w (omega arith) fits
