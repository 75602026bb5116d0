-- ===== src/Webauthn/Cbor.antt =====
-- The subset of CBOR in internal/webauthn/cbor.go: the decoder, with fuel for its recursion, the
-- readers of maps and the encoders. A byte is a number below 256.
use arkade_runtime.Base.{
  ℕ, zero, suc, ◌+◌, ◌*◌, ◌/◌, ◌%◌, Bool, true, false, ◌||◌, Option, none, some, List, [], ◌∷◌,
  ◌++◌,
}
use arkade_runtime.Base.Tests.{ltb, leb, ◌==◌, if◌then◌else◌}
use arkade_runtime.Base.Lists.{length, take, drop}
use arkade_runtime.Base.Int64.{ℤ, pos, negsuc}
use arkade_runtime.Base.Result.{Result, Error, ok, err}
use arkade_runtime.Base.Bytes.{Bytes, bytes_eq}
use arkade_runtime.Ledger.Guards.{int_eq}

abbrev pub max_cbor_bytes : ℕ
max_cbor_bytes = 4096

mutual
  pub data CborValue : Type 0 where
    cbor_int : ℤ → CborValue
    cbor_bytes : Bytes → CborValue
    cbor_text : Bytes → CborValue
    cbor_map : CborPairs → CborValue
    cbor_bool : Bool → CborValue

  -- `mapVal`, in the order of the pairs.
  pub data CborPairs : Type 0 where
    end_pairs : CborPairs
    pair : CborValue → CborValue → CborPairs → CborPairs

-- decodeCBORLen
unfoldable pub decode_cbor_len : ℕ → Bytes → Result (ℕ × Bytes)
decode_cbor_len ai [] =
    if ltb ai 24
    then ok (ai, [])
    else if (ai == 24) || (ai == 25)
    then err Error.truncated
    else err Error.unsupported
decode_cbor_len ai (a ∷ []) =
    if ltb ai 24
    then ok (ai, a ∷ [])
    else if ai == 24
    then if ltb a 24 then err Error.unsupported else ok (a, [])
    else if ai == 25
    then err Error.truncated
    else err Error.unsupported
decode_cbor_len ai (a ∷ b ∷ rest) =
    if ltb ai 24
    then ok (ai, a ∷ b ∷ rest)
    else if ai == 24
    then if ltb a 24 then err Error.unsupported else ok (a, b ∷ rest)
    else if ai == 25
    then if leb (a * 256 + b) 255 then err Error.unsupported else ok (a * 256 + b, rest)
    else err Error.unsupported

-- sameCBORMapKey
unfoldable pub same_cbor_map_key : CborValue → CborValue → Bool
same_cbor_map_key (cbor_int a) (cbor_int b) = int_eq a b
same_cbor_map_key (cbor_text a) (cbor_text b) = bytes_eq a b
same_cbor_map_key _ _ = false

abbrev pub is_map_key : CborValue → Bool
is_map_key (cbor_int a) = true
is_map_key (cbor_text a) = true
is_map_key _ = false

unfoldable pub has_key : CborValue → CborPairs → Bool
has_key k end_pairs = false
has_key k (pair a v ps) = same_cbor_map_key a k || has_key k ps

-- `pairs = append(pairs, …)`
unfoldable pub append_pair : CborPairs → CborValue → CborValue → CborPairs
append_pair end_pairs k v = pair k v end_pairs
append_pair (pair a b ps) k v = pair a b (append_pair ps k v)

-- What the decoder returns: a value with the bytes that follow it, an error, or, where the fuel did
-- not suffice, nothing.
abbrev pub Decoded : Type 0 → Type 0
Decoded A = Option (Result (A × Bytes))

infixl 5 ◌and_then◌
abbrev pub ◌and_then◌ : {A : Type 0} {B : Type 0} → Decoded A → (A → Bytes → Decoded B) → Decoded B
none and_then next = none
some (err e) and_then next = some (err e)
some (ok (a, rest)) and_then next = next a rest

-- The two tests of a key, before what follows it.
abbrev pub guard_key : {B : Type 0} → Bool → Bool → Decoded B → Decoded B
guard_key false seen rest = some (err Error.unsupported)
guard_key true true rest = some (err Error.duplicate_key)
guard_key true false rest = rest

-- "too large"
abbrev pub guard_size : {B : Type 0} → Bool → Decoded B → Decoded B
guard_size true rest = some (err Error.out_of_bounds)
guard_size false rest = rest

-- The loop over the pairs of a map, with the decoder that it calls.
unfoldable pub decode_pairs :
    (Bytes → Decoded CborValue) → ℕ → Bytes → CborPairs → Decoded CborPairs
decode_pairs dec zero rest pairs = some (ok (pairs, rest))
decode_pairs dec (suc n) rest pairs = dec rest and_then λ k next.
    guard_key (is_map_key k) (has_key k pairs)
      (dec next and_then λ v rest'. decode_pairs dec n rest' (append_pair pairs k v))

abbrev pub decode_string : (Bytes → CborValue) → ℕ → Bytes → Decoded CborValue
decode_string make n rest =
    if ltb (length rest) n
    then some (err Error.truncated)
    else some (ok (make (take n rest), drop n rest))

abbrev pub as_map : CborPairs → Bytes → Decoded CborValue
as_map pairs rest = some (ok (cbor_map pairs, rest))

-- The `switch` over the major type, with the decoder for the parts of a map.
unfoldable pub decode_major : (Bytes → Decoded CborValue) → ℕ → ℕ → ℕ → Bytes → Decoded CborValue
decode_major dec zero ai n rest = some (ok (cbor_int (pos n), rest))
decode_major dec (suc zero) ai n rest = some (ok (cbor_int (negsuc n), rest))
decode_major dec (suc (suc zero)) ai n rest = decode_string cbor_bytes n rest
decode_major dec (suc (suc (suc zero))) ai n rest = decode_string cbor_text n rest
decode_major dec (suc (suc (suc (suc (suc zero))))) ai n rest =
    guard_size (ltb 16 n) (decode_pairs dec n rest end_pairs and_then as_map)
decode_major dec (suc (suc (suc (suc (suc (suc (suc zero))))))) ai n rest =
    if ai == 20
    then some (ok (cbor_bool false, rest))
    else if ai == 21
    then some (ok (cbor_bool true, rest))
    else some (err Error.unsupported)
decode_major dec _ ai n rest = some (err Error.unsupported)

abbrev pub decode_after :
    (Bytes → Decoded CborValue) → ℕ → ℕ → Result (ℕ × Bytes) → Decoded CborValue
decode_after dec major ai (err e) = some (err e)
decode_after dec major ai (ok (n, rest)) = decode_major dec major ai n rest

-- decodeCBOR
unfoldable pub decode_cbor : ℕ → Bytes → Decoded CborValue
unfolding decode_major decode_pairs decode_cbor_len
decode_cbor zero input = none
decode_cbor (suc fuel) [] = some (err Error.truncated)
decode_cbor (suc fuel) (b ∷ rest) =
    guard_size (ltb max_cbor_bytes (length (b ∷ rest)))
      (decode_after (decode_cbor fuel) (b / 32) (b % 32) (decode_cbor_len (b % 32) rest))

-- mapInt and mapText
unfoldable pub find_pair : CborValue → CborPairs → Option CborValue
find_pair k end_pairs = none
find_pair k (pair a v ps) = if same_cbor_map_key a k then some v else find_pair k ps

unfoldable pub map_int : CborValue → ℤ → Option CborValue
unfolding find_pair
map_int (cbor_map ps) key = find_pair (cbor_int key) ps
map_int _ key = none

unfoldable pub map_text : CborValue → Bytes → Option CborValue
unfolding find_pair
map_text (cbor_map ps) key = find_pair (cbor_text key) ps
map_text _ key = none

-- encodeCBORUnsigned
unfoldable pub encode_cbor_unsigned : ℕ → Bytes
encode_cbor_unsigned n =
    if ltb n 24
    then n ∷ []
    else if ltb n 256
    then 24 ∷ n ∷ []
    else 25 ∷ n / 256 % 256 ∷ n % 256 ∷ []

-- `hdr[0] |= major << 5`: the low five bits of the header are below 26, so the disjunction adds.
unfoldable pub with_major : ℕ → Bytes → Bytes
with_major major [] = []
with_major major (b ∷ bs) = (b + major * 32) ∷ bs

-- encodeCBORNegative, for the value -(m+1).
unfoldable pub encode_cbor_negative : ℕ → Bytes
unfolding encode_cbor_unsigned with_major
encode_cbor_negative m = with_major 1 (encode_cbor_unsigned m)

unfoldable pub encode_cbor_bytes : Bytes → Bytes
unfolding encode_cbor_unsigned with_major
encode_cbor_bytes b = with_major 2 (encode_cbor_unsigned (length b)) ++ b

unfoldable pub encode_cbor_text : Bytes → Bytes
unfolding encode_cbor_unsigned with_major
encode_cbor_text s = with_major 3 (encode_cbor_unsigned (length s)) ++ s

unfoldable pub concat_pairs : List Bytes → Bytes
concat_pairs [] = []
concat_pairs (p ∷ ps) = p ++ concat_pairs ps

unfoldable pub encode_cbor_map : List Bytes → Bytes
unfolding encode_cbor_unsigned with_major concat_pairs
encode_cbor_map pairs = with_major 5 (encode_cbor_unsigned (length pairs)) ++ concat_pairs pairs

unfoldable pub encode_cbor_bool : Bool → Bytes
encode_cbor_bool true = 245 ∷ []
encode_cbor_bool false = 244 ∷ []
