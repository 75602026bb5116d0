-- ===== src/Webauthn/Total.antt =====
-- decodeCBOR of internal/webauthn/cbor.go ends on every input.
use arkade_runtime.Base.{
  ℕ, zero, suc, ◌/◌, ◌%◌, ◌<◌, ◌≤◌, ◌≡◌, refl, Bool, true, false, none, some, [], ◌∷◌, arith, inl,
  inr,
}
use mathlib.Core.Path.{subst}
use arkade_runtime.Base.Tests.{ltb, ◌==◌, Bool-cases}
use arkade_runtime.Base.Lists.{length, length-drop}
use arkade_runtime.Base.Result.{Result, ok, err, ok_injective}
use arkade_runtime.Base.Bytes.{Bytes}
use arkade_runtime.Webauthn.Cbor.{
  CborValue, CborPairs, end_pairs, cbor_bytes, cbor_text, guard_key, guard_size, decode_cbor_len,
  is_map_key, has_key, append_pair, Decoded, ◌and_then◌, decode_pairs, decode_string, decode_major,
  decode_after, decode_cbor, max_cbor_bytes, as_map,
}

-- An answer that leaves fewer than `n` bytes, or an error.
abbrev pub Ends : {A : Type 0} → ℕ → Decoded A → Type 0
Ends n none = ⊥
Ends n (some (err e)) = Unit
Ends n (some (ok (a, rest))) = length rest < n

Ends-and_then :
    {A B : Type 0} (n k : ℕ) (m : Decoded A) (next : A → Bytes → Decoded B)
    → Ends n m
    → ((a : A) (rest : Bytes) → length rest < n → Ends k (next a rest))
    → Ends k (m and_then next)
Ends-and_then n k none next h g = absurd h
Ends-and_then n k (some (err e)) next h g = tt
Ends-and_then n k (some (ok (a, rest))) next h g = g a rest h

Ends-weaken : {A : Type 0} (n k : ℕ) (m : Decoded A) → n ≤ k → Ends n m → Ends k m
Ends-weaken n k none l h = absurd h
Ends-weaken n k (some (err e)) l h = tt
Ends-weaken n k (some (ok (a, rest))) l h = omega arith

decode_cbor_len-shrinks :
    (ai n : ℕ) (input rest : Bytes)
    → decode_cbor_len ai input ≡ ok (n, rest)
    → length rest ≤ length input
unfolding decode_cbor_len
decode_cbor_len-shrinks ai n [] rest h = ground arith
decode_cbor_len-shrinks ai n (a ∷ []) rest h = ground arith
decode_cbor_len-shrinks ai n (a ∷ b ∷ xs) rest h = ground arith

-- A decoder that ends on inputs of up to `l` bytes, and takes one at least.
abbrev Eats : ℕ → (Bytes → Decoded CborValue) → Type 0
Eats l dec = (input : Bytes) → length input ≤ l → Ends (length input) (dec input)

Ends-guard : {B : Type 0} (k : ℕ) (a b : Bool) (m : Decoded B) → Ends k m → Ends k (guard_key a b m)
Ends-guard k false b m h = tt
Ends-guard k true true m h = tt
Ends-guard k true false m h = h

Ends-size : {B : Type 0} (k : ℕ) (a : Bool) (m : Decoded B) → Ends k m → Ends k (guard_size a m)
Ends-size k true m h = tt
Ends-size k false m h = h

decode_pairs-Ends :
    (dec : Bytes → Decoded CborValue) (l n : ℕ) (rest : Bytes) (ps : CborPairs)
    → Eats l dec
    → length rest ≤ l
    → Ends (suc (length rest)) (decode_pairs dec n rest ps)
unfolding decode_pairs
decode_pairs-Ends dec l zero rest ps eats small = omega arith
decode_pairs-Ends dec l (suc n) rest ps eats small =
    Ends-and_then (length rest) (suc (length rest)) (dec rest) _ (eats rest small) λ k next less.
      Ends-guard (suc (length rest)) (is_map_key k) (has_key k ps) _ (
        Ends-and_then (length next) (suc (length rest)) (dec next) _ (eats next (omega arith))
          λ v rest' less'.
            Ends-weaken (suc (length rest')) (suc (length rest)) _ (omega arith)
              (decode_pairs-Ends dec l n rest' (append_pair ps k v) eats (omega arith)))

decode_string-Ends :
    (make : Bytes → CborValue) (n : ℕ) (rest : Bytes)
    → Ends (suc (length rest)) (decode_string make n rest)
decode_string-Ends make n rest = elim (Bool-cases (ltb (length rest) n)) [
  | inl short ↦ rw short tt
  | inr enough ↦ let left = length-drop n rest in rw enough (omega arith)
]

decode_major-Ends :
    (dec : Bytes → Decoded CborValue) (l major ai n : ℕ) (rest : Bytes)
    → Eats l dec
    → length rest ≤ l
    → Ends (suc (length rest)) (decode_major dec major ai n rest)
unfolding decode_major
decode_major-Ends dec l zero ai n rest eats small = omega arith
decode_major-Ends dec l (suc zero) ai n rest eats small = omega arith
decode_major-Ends dec l (suc (suc zero)) ai n rest eats small = decode_string-Ends cbor_bytes n rest
decode_major-Ends dec l (suc (suc (suc zero))) ai n rest eats small =
    decode_string-Ends cbor_text n rest
decode_major-Ends dec l (suc (suc (suc (suc zero)))) ai n rest eats small = tt
decode_major-Ends dec l (suc (suc (suc (suc (suc zero))))) ai n rest eats small =
    Ends-size (suc (length rest)) (ltb 16 n) _ (
      Ends-and_then (suc (length rest)) (suc (length rest)) _ as_map
        (decode_pairs-Ends dec l n rest end_pairs eats small) λ ps rest' less. less)
decode_major-Ends dec l (suc (suc (suc (suc (suc (suc zero)))))) ai n rest eats small = tt
decode_major-Ends dec l (suc (suc (suc (suc (suc (suc (suc zero))))))) ai n rest eats small =
    elim (Bool-cases (ai == 20)) [
      | inl no_bit ↦ rw no_bit (omega arith)
      | inr other ↦ rw other (elim (Bool-cases (ai == 21)) [
        | inl one_bit ↦ rw one_bit (omega arith)
        | inr neither ↦ rw neither tt
      ])
    ]
decode_major-Ends dec l (suc (suc (suc (suc (suc (suc (suc (suc m)))))))) ai n rest eats small = tt

decode_after-Ends :
    (dec : Bytes → Decoded CborValue) (l major ai : ℕ) (r : Result (ℕ × Bytes))
    → Eats l dec
    → ((n : ℕ) (rest : Bytes) → r ≡ ok (n, rest) → length rest ≤ l)
    → Ends (suc l) (decode_after dec major ai r)
decode_after-Ends dec l major ai (err e) eats small = tt
decode_after-Ends dec l major ai (ok (n, rest)) eats small =
    let fits = small n rest refl in
    Ends-weaken (suc (length rest)) (suc l) _ (omega arith)
      (decode_major-Ends dec l major ai n rest eats fits)

decode_cbor-Ends :
    (fuel : ℕ) (input : Bytes) → length input < fuel → Ends (length input) (decode_cbor fuel input)
unfolding decode_cbor
decode_cbor-Ends zero input h = absurd (omega arith)
decode_cbor-Ends (suc fuel) [] h = tt
decode_cbor-Ends (suc fuel) (b ∷ rest) h =
    Ends-size (length (b ∷ rest)) (ltb max_cbor_bytes (length (b ∷ rest))) _ (
      decode_after-Ends (decode_cbor fuel) (length rest) (b / 32) (b % 32)
        (decode_cbor_len (b % 32) rest) (λ input small. decode_cbor-Ends fuel input (omega arith))
        (λ n rest' e. decode_cbor_len-shrinks (b % 32) n rest rest' e))

answer :
    {A : Type 0} (n : ℕ) (m : Decoded A)
    → Ends n m
    → (r : Result (A × Bytes)) × (m ≡ some r)
      × ((a : A) (rest : Bytes) → r ≡ ok (a, rest) → length rest < n)
answer {A = A} n none h = absurd h
answer {A = A} n (some (err e)) h = (err e, refl, λ a rest q. absurd (ground arith))
answer {A = A} n (some (ok (a, rest))) h =
    (ok (a, rest), refl, λ b rest' q. subst (λ (x : A × Bytes). length x.1 < n) (ok_injective q) h)

-- decodeCBOR ends on every input: fuel for one call more than the input has bytes is enough for
-- all nested maps, and the answer is an error or a value in front of fewer bytes than the input
-- has.
pub decode_cbor_total :
    (fuel : ℕ) (input : Bytes)
    → length input < fuel
    → (r : Result (CborValue × Bytes)) × (decode_cbor fuel input ≡ some r)
      × ((v : CborValue) (rest : Bytes) → r ≡ ok (v, rest) → length rest < length input)
decode_cbor_total fuel input h =
    answer (length input) (decode_cbor fuel input) (decode_cbor-Ends fuel input h)
