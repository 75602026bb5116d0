-- ===== src/Vtxo/Encoding.antt =====
-- Length-prefixed fields: appendCredentialField of internal/policy/ledger.go and the loops over it.
use mathlib.Core.List.{append-nil, append_assoc}
use arkade_runtime.Base.{◌-◌, ◌<◌, ◌≡◌, refl, sym, ap, ◌∙◌, inl, inr, List, [], ◌∷◌, ◌++◌, arith}
use arkade_runtime.Base.Tests.{ltb, Bool-cases}
use arkade_runtime.Base.Lists.{length, All}
use arkade_runtime.Base.Int64.{uint32_mod}
use arkade_runtime.Base.Result.{ok, >>=-eq-ok}
use arkade_runtime.Base.Bytes.{Bytes, le32, le32-injective, append-injective}
use arkade_runtime.Vtxo.Canonical.{append_credential_field, append_fields}

-- The fields, each behind its length.
abbrev pub encode : List Bytes → Bytes
encode [] = []
encode (f ∷ fs) = le32 (length f) ++ (f ++ encode fs)

abbrev pub IsShort : Bytes → Type 0
IsShort f = length f < uint32_mod

pub append_credential_field-eq-ok :
    (dst f : Bytes) {out : Bytes}
    → append_credential_field dst f ≡ ok out
    → (out ≡ dst ++ (le32 (length f) ++ f)) × IsShort f
unfolding append_credential_field
append_credential_field-eq-ok dst f h = elim (Bool-cases (ltb (uint32_mod - 1) (length f))) [
  | inl e ↦ absurd (ground arith)
  | inr e ↦ (ground arith, ground arith)
]

pub append_fields-eq-ok :
    (dst : Bytes) (fs : List Bytes) {out : Bytes}
    → append_fields dst fs ≡ ok out
    → (out ≡ dst ++ encode fs) × All IsShort fs
unfolding append_fields
append_fields-eq-ok dst [] h = (cc (append-nil dst), tt)
append_fields-eq-ok dst (f ∷ fs) h =
    let (d, e, rest) = >>=-eq-ok (append_credential_field dst f) _ h in
    let (shape, short) = append_credential_field-eq-ok dst f e in
    let (tail, shorts) = append_fields-eq-ok d fs rest in
    (rw (tail, shape) (append_assoc dst (le32 (length f) ++ f) (encode fs)), (short, shorts))

pub encode-injective :
    (fs gs : List Bytes) (xs ys : Bytes)
    → length fs ≡ length gs
    → All IsShort fs
    → All IsShort gs
    → (encode fs ++ xs) ≡ (encode gs ++ ys)
    → (fs ≡ gs) × (xs ≡ ys)
encode-injective [] [] xs ys l a b h = (refl, h)
encode-injective [] (g ∷ gs) xs ys l a b h = absurd (omega arith)
encode-injective (f ∷ fs) [] xs ys l a b h = absurd (omega arith)
encode-injective (f ∷ fs) (g ∷ gs) xs ys l a b h =
    let (len, h1) =
      le32-injective (length f) (length g) ((f ++ encode fs) ++ xs) ((g ++ encode gs) ++ ys) a.0 b.0
        h in
    let (same, h2) =
      append-injective f g (encode fs ++ xs) (encode gs ++ ys) len
        (sym (append_assoc f (encode fs) xs) ∙ h1 ∙ append_assoc g (encode gs) ys) in
    let (rest, tail) = encode-injective fs gs xs ys (omega arith) a.1 b.1 h2 in (cc, tail)

pub encode-append :
    (fs gs : List Bytes) (xs : Bytes) → (encode (fs ++ gs) ++ xs) ≡ (encode fs ++ (encode gs ++ xs))
encode-append [] gs xs = refl
encode-append (f ∷ fs) gs xs = ap (◌++◌ (le32 (length f))) (
    append_assoc f (encode (fs ++ gs)) xs
    ∙ ap (◌++◌ f) (encode-append fs gs xs)
    ∙ sym (append_assoc f (encode fs) (encode gs ++ xs)))
