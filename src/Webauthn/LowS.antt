-- ===== src/Webauthn/LowS.antt =====
-- CompactLowS of internal/webauthn/der.go returns what VerifyES256 of internal/webauthn/p256.go takes.
use arkade_runtime.Base.{
  ℕ, zero, suc, ◌+◌, ◌*◌, ◌/◌, ◌%◌, ◌<◌, ◌≤◌, ◌≡◌, refl, sym, ap, ◌∙◌, true, false, not, ◌||◌,
  Option, none, some, [], ◌∷◌, ◌++◌, arith, ◌⊎◌, inl, inr,
}
use arkade_runtime.Base.Tests.{ltb, ◌==◌, Bool-cases}
use arkade_runtime.Base.Lists.{
  length, take, drop, length-append, take-append_self, drop-append_self,
}
use arkade_runtime.Base.Int64.{ℤ, pos, negsuc}
use arkade_runtime.Base.Result.{Error, ok, refuse, from_ok, ok_injective}
use arkade_runtime.Base.Bytes.{Bytes, is_empty}
use arkade_runtime.Webauthn.Signature.{
  Crypto, fill_bytes, set_bytes_from, set_bytes, canonical_scalar, or_refused, lower_s,
  compact_low_s, verify_compact,
}

-- 256^k
unfoldable pub pow256 : ℕ → ℕ
pow256 zero = 1
pow256 (suc k) = 256 * pow256 k

pub length-fill_bytes : (k v : ℕ) → length (fill_bytes k v) ≡ k
unfolding fill_bytes
length-fill_bytes zero v = refl
length-fill_bytes (suc k) v =
    let sum = length-append (fill_bytes k (v / 256)) (v % 256 ∷ []) in
    omega (arith, length-fill_bytes k (v / 256))

set_bytes_from-append :
    (acc b : ℕ) (bs : Bytes) → set_bytes_from acc (bs ++ (b ∷ [])) ≡ set_bytes_from acc bs * 256 + b
unfolding set_bytes_from
set_bytes_from-append acc b [] = refl
set_bytes_from-append acc b (x ∷ xs) = set_bytes_from-append (acc * 256 + x) b xs

set_bytes-fill_bytes : (k v : ℕ) → v < pow256 k → set_bytes (fill_bytes k v) ≡ v
unfolding set_bytes fill_bytes pow256
set_bytes-fill_bytes zero v h = omega arith
set_bytes-fill_bytes (suc k) v h =
    let rest = set_bytes-fill_bytes k (v / 256) (omega arith) in
    set_bytes_from-append 0 (v % 256) (fill_bytes k (v / 256)) ∙ rw rest (omega arith)

scalar_parts : (z : Option ℤ) (n : ℕ) → canonical_scalar z ≡ ok n → (z ≡ some (pos n)) × (0 < n)
unfolding canonical_scalar
scalar_parts none n h = absurd (ground arith)
scalar_parts (some (negsuc m)) n h = absurd (ground arith)
scalar_parts (some (pos m)) n h = elim (Bool-cases (m == 0)) [
  | inl nothing ↦ absurd (ground arith)
  | inr positive ↦
      let same : m ≡ n = ok_injective (rw positive at h) in (ap some (ap pos same), ground arith)
]

pub or_refused-some :
    {A : Type 0} (m : Option A) (a : A) (e : Error) → or_refused m e ≡ ok a → m ≡ some a
or_refused-some none a e h = absurd (ground arith)
or_refused-some (some b) a e h = ap some (ok_injective h)

triple :
    (p : Option ℤ × Option ℤ × Bytes) (x y : Option ℤ)
    → p.0 ≡ x
    → p.1 ≡ y
    → is_empty p.2 ≡ true
    → p ≡ (x, y, [])
triple (a, b, []) x y h k e = rw (h, k) refl
triple (a, b, c ∷ cs) x y h k e = cc

-- 32 bytes and 32 bytes, read back.
two_halves :
    (r s : ℕ)
    → r < pow256 32
    → s < pow256 32
    → (length (fill_bytes 32 r ++ fill_bytes 32 s) ≡ 64)
      × (set_bytes (take 32 (fill_bytes 32 r ++ fill_bytes 32 s)) ≡ r)
      × (set_bytes (drop 32 (fill_bytes 32 r ++ fill_bytes 32 s)) ≡ s)
two_halves r s hr hs =
    let x = fill_bytes 32 r in
    let y = fill_bytes 32 s in
    let lx = length-fill_bytes 32 r in
    let ly = length-fill_bytes 32 s in
    let sum = length-append x y in
    let left : take 32 (x ++ y) ≡ x =
      ap (λ (n : ℕ). take n (x ++ y)) (sym lx) ∙ take-append_self x y in
    let right : drop 32 (x ++ y) ≡ y =
      ap (λ (n : ℕ). drop n (x ++ y)) (sym lx) ∙ drop-append_self x y in
    (
      omega arith,
      ap set_bytes left ∙ set_bytes-fill_bytes 32 r hr,
      ap set_bytes right ∙ set_bytes-fill_bytes 32 s hs,
    )

module _ (crypto : Crypto) where
  lower_s_bounds :
      (s : ℕ)
      → 0 < s
      → s < crypto.order
      → (0 < lower_s crypto s)
        × (lower_s crypto s ≤ crypto.order / 2)
        × ((lower_s crypto s ≡ s) ⊎ (lower_s crypto s + s ≡ crypto.order))
  unfolding lower_s
  lower_s_bounds s h k = elim (Bool-cases (ltb (crypto.order / 2) s)) [
    | inl high ↦
        let above : crypto.order / 2 < s = ground arith in
        rw high (omega arith, omega arith, inr (omega arith))
    | inr low ↦ let below : s ≤ crypto.order / 2 = ground arith in rw low (h, below, inl refl)
  ]

  -- Two numbers in range, in 32 bytes each, pass every check but the one of the curve.
  verify_halves :
      (key digest : Bytes) (r s : ℕ)
      → crypto.order ≤ pow256 32
      → 0 < r
      → r < crypto.order
      → 0 < s
      → s ≤ crypto.order / 2
      → verify_compact crypto key digest (fill_bytes 32 r ++ fill_bytes 32 s)
        ≡ refuse (not (crypto.verify key digest r s)) Error.bad_signature
  unfolding verify_compact
  verify_halves key digest r s big r0 r1 s0 s1 =
      let (size, left, right) = two_halves r s (omega arith) (omega arith) in
      let fine : (not (ltb 0 r)
            || not (ltb 0 s)
            || not (ltb r crypto.order)
            || not (ltb s crypto.order))
          ≡ false =
        ground arith in
      let low : ltb (crypto.order / 2) s ≡ false = ground arith in
      rw (size, left, right) (rw (fine, low) refl)

  -- Where the order of the curve fits 32 bytes, a DER signature that CompactLowS accepts is a
  -- pair of numbers between 1 and the order, with nothing behind it; the 64 bytes that it
  -- returns hold the first of them, and the second or its complement to the order, whichever is
  -- in the lower half; and the check that VerifyES256 and VerifyDigestLowS make on 64 bytes
  -- refuses them only if the curve does.
  pub compact_low_s-verify :
      (der out : Bytes)
      → crypto.order ≤ pow256 32
      → compact_low_s crypto der ≡ ok out
      → (r : ℕ) × (s : ℕ) × (low : ℕ) × (crypto.read_signature der
          ≡ some (some (pos r), some (pos s), []))
        × (r < crypto.order)
        × (low ≤ crypto.order / 2)
        × ((low ≡ s) ⊎ (low + s ≡ crypto.order))
        × (length out ≡ 64)
        × (set_bytes (take 32 out) ≡ r)
        × (set_bytes (drop 32 out) ≡ low)
        × ((key digest : Bytes)
            → verify_compact crypto key digest out
              ≡ refuse (not (crypto.verify key digest r low)) Error.bad_signature)
  unfolding compact_low_s
  compact_low_s-verify der out big h =
      from_ok (or_refused (crypto.read_signature der) Error.bad_signature) _ h λ parsed read h1.
        from_ok (refuse (not (is_empty parsed.2)) Error.bad_signature) _ h1 λ _ bare h2.
          from_ok (canonical_scalar parsed.0) _ h2 λ r is_r h3.
            from_ok (canonical_scalar parsed.1) _ h3 λ s is_s h4.
              from_ok (refuse (not (ltb r crypto.order)) Error.bad_signature) _ h4 λ _ r_in h5.
                from_ok (refuse (not (ltb s crypto.order)) Error.bad_signature) _ h5 λ _ s_in h6.
                  let done = ok_injective h6 in
                  let (r_shape, r0) = scalar_parts parsed.0 r is_r in
                  let (s_shape, s0) = scalar_parts parsed.1 s is_s in
                  let r1 : r < crypto.order = ground arith in
                  let s1 : s < crypto.order = ground arith in
                  let (l0, l1, which) = lower_s_bounds s s0 s1 in
                  let low = lower_s crypto s in
                  let (size, left, right) = two_halves r low (omega arith) (omega arith) in
                  (
                    r,
                    s,
                    low,
                    or_refused-some (crypto.read_signature der) parsed _ read
                        ∙ ap some (
                            triple parsed (some (pos r)) (some (pos s)) r_shape s_shape
                              (ground arith)),
                    r1,
                    l1,
                    which,
                    rw (← done) size,
                    rw (← done) left,
                    rw (← done) right,
                    λ key digest. rw (← done) (verify_halves key digest r low big r0 r1 l0 l1),
                  )
