-- ===== src/Vtxo/Binding.antt =====
-- What the digests of internal/policy/vtxo.go bind.
use mathlib.Core.List.{append_assoc}
use arkade_runtime.Base.{
  ℕ, ◌+◌, ◌*◌, ◌/◌, ◌%◌, ◌<◌, ◌≡◌, ◌≢◌, refl, sym, ap, ◌∙◌, some, [], ◌∷◌, ◌++◌, not, arith, ◌⊎◌,
  inl, inr,
}
use arkade_runtime.Base.Tests.{◌==◌, Bool-cases, Option-cases}
use arkade_runtime.Base.Lists.{length, All}
use arkade_runtime.Base.Int64.{uint64_mod}
use arkade_runtime.Base.Result.{Result, Error, ok, err, refuse, from_ok, ok_injective}
use arkade_runtime.Base.Bytes.{
  bytes_eq_refl, bytes_eq_sound, Bytes, bytes_eq, is_empty, le32, le64, le64-injective,
  append-injective, ∷-injective,
}
use arkade_runtime.Sequence.Text.{hex, hex_digit, unhex, unhex_pairs}
use arkade_runtime.Vtxo.Canonical.{append_fields, vtxo_purpose_spend}
use arkade_runtime.Vtxo.Encoding.{encode, IsShort, append_fields-eq-ok, encode-injective}
use arkade_runtime.Vtxo.Bundle.{vtxo_reserve_digest_tag}
use arkade_runtime.Vtxo.Digest.{sixteen, operation_raw, tagged_sha256, compute_vtxo_reserve_digest}

-- Decoding loses nothing: the digits are those of the bytes.
unhex_digit : (c d : ℕ) → unhex c ≡ some d → (hex_digit d ≡ c) × (d < 16)
unfolding unhex hex_digit
unhex_digit c d h = ground arith

err_ok {ℓ} : {A : Type ℓ} {e : Error} {a : A} → err e ≢ ok a
err_ok h = cc

hex-unhex_pairs : (s raw : Bytes) → unhex_pairs s ≡ ok raw → hex raw ≡ s
unfolding unhex_pairs hex
hex-unhex_pairs [] raw h = rw (← ok_injective h) refl
hex-unhex_pairs (c ∷ []) raw h = absurd (ground arith)
hex-unhex_pairs (c ∷ d ∷ cs) raw h = elim (Option-cases (unhex c)) [
  | inl bad ↦ absurd (err_ok (rw (bad, unhex_pairs) at h))
  | inr (a, high) ↦ elim (Option-cases (unhex d)) [
    | inl bad ↦ absurd (err_ok (rw (high, bad, unhex_pairs) at h))
    | inr (b, low) ↦ from_ok (unhex_pairs cs) _ (rw (high, low, unhex_pairs) at h) λ bs e h1.
        let (c_is, small_a) = unhex_digit c a high in
        let (d_is, small_b) = unhex_digit d b low in
        let upper : (a * 16 + b) % 256 / 16 ≡ a = omega arith in
        let lower : (a * 16 + b) % 256 % 16 ≡ b = omega arith in
        rw (← ok_injective h1)
          (rw (upper, lower, c_is, d_is) (ap (λ (x : Bytes). c ∷ d ∷ x) (hex-unhex_pairs cs bs e)))
  ]
]

sixteen-eq-ok : (r : Result Bytes) (raw : Bytes) → sixteen r ≡ ok raw → r ≡ ok raw
sixteen-eq-ok (err e) raw h = absurd (err_ok h)
sixteen-eq-ok (ok x) raw h = elim (Bool-cases (length x == 16)) [
  | inl fits ↦ rw fits at h
  | inr other ↦ absurd (err_ok (rw other at h))
]

operation_raw-eq-ok : (id raw : Bytes) → operation_raw id ≡ ok raw → hex raw ≡ id
unfolding operation_raw
operation_raw-eq-ok id raw h = hex-unhex_pairs id raw (sixteen-eq-ok (unhex_pairs id) raw h)

-- The bytes under a reservation's digest.
abbrev pub reserve_message : Bytes → Bytes → Bytes → Bytes → ℕ → Bytes
reserve_message raw vault purpose dest_script amount =
    le32 1 ++ (encode (raw ∷ vault ∷ purpose ∷ dest_script ∷ []) ++ le64 amount)

module _ (sha : Bytes → Bytes) where
  reserve_digest-eq-ok :
      (id vault purpose dest_script digest : Bytes) (amount : ℕ)
      → compute_vtxo_reserve_digest sha id vault purpose dest_script amount ≡ ok digest
      → (raw : Bytes) × (hex raw ≡ id)
        × All IsShort (raw ∷ vault ∷ purpose ∷ dest_script ∷ [])
        × (tagged_sha256 sha vtxo_reserve_digest_tag
              (reserve_message raw vault purpose dest_script amount)
            ≡ digest)
  unfolding compute_vtxo_reserve_digest
  reserve_digest-eq-ok id vault purpose dest_script digest amount h =
      from_ok (operation_raw id) _ h λ raw is_id h1.
        from_ok (refuse (is_empty vault) Error.identity_required) _ h1 λ _ _ h2.
          from_ok (refuse (not (bytes_eq purpose vtxo_purpose_spend)) Error.bad_purpose) _ h2
            λ _ _ h3.
              from_ok (refuse (is_empty dest_script) Error.destination_required) _ h3 λ _ _ h4.
                from_ok (refuse (amount == 0) Error.amount_required) _ h4 λ _ _ h5.
                  from_ok (append_fields (le32 1) (raw ∷ vault ∷ purpose ∷ dest_script ∷ [])) _ h5
                    λ payload e h6.
                      let (shape, short) =
                        append_fields-eq-ok (le32 1) (raw ∷ vault ∷ purpose ∷ dest_script ∷ []) e in
                      (
                        raw,
                        operation_raw-eq-ok id raw is_id,
                        short,
                        ap (tagged_sha256 sha vtxo_reserve_digest_tag) (
                              sym (
                                ap (λ (x : Bytes). x ++ le64 amount) shape
                                ∙ append_assoc (le32 1)
                                    (encode (raw ∷ vault ∷ purpose ∷ dest_script ∷ []))
                                    (le64 amount)))
                            ∙ ok_injective h6,
                      )

  -- The messages of two requests differ, and have one tagged hash.
  abbrev pub ReserveCollision :
      Bytes → Bytes → Bytes → Bytes → ℕ → Bytes → Bytes → Bytes → Bytes → ℕ → Type 0
  ReserveCollision id vault purpose dest amount id' vault' purpose' dest' amount' =
      (raw : Bytes) × (raw' : Bytes) × (hex raw ≡ id)
      × (hex raw' ≡ id')
      × (reserve_message raw vault purpose dest amount
          ≢ reserve_message raw' vault' purpose' dest' amount')
      × (tagged_sha256 sha vtxo_reserve_digest_tag (reserve_message raw vault purpose dest amount)
          ≡ tagged_sha256 sha vtxo_reserve_digest_tag
              (reserve_message raw' vault' purpose' dest' amount'))

  -- Two reservation requests with 64-bit amounts and one digest are the same request, or else
  -- their messages differ and SHA-256 hashes those two, behind the tag, to the same digest: the
  -- signature of a phone is for one operation id, vault, purpose, destination and amount.
  pub compute_vtxo_reserve_digest_binds :
      (id vault purpose dest id' vault' purpose' dest' digest : Bytes) (amount amount' : ℕ)
      → amount < uint64_mod
      → amount' < uint64_mod
      → compute_vtxo_reserve_digest sha id vault purpose dest amount ≡ ok digest
      → compute_vtxo_reserve_digest sha id' vault' purpose' dest' amount' ≡ ok digest
      → ((id ≡ id') × (vault ≡ vault') × (purpose ≡ purpose') × (dest ≡ dest') × (amount ≡ amount'))
        ⊎ ReserveCollision id vault purpose dest amount id' vault' purpose' dest' amount'
  compute_vtxo_reserve_digest_binds id vault purpose dest id' vault' purpose' dest' digest amount
        amount' small small' h h' =
      let (raw, is_id, short, hash) = reserve_digest-eq-ok id vault purpose dest digest amount h in
      let (raw', is_id', short', hash') =
        reserve_digest-eq-ok id' vault' purpose' dest' digest amount' h' in
      let one = reserve_message raw vault purpose dest amount in
      let two = reserve_message raw' vault' purpose' dest' amount' in
      elim (Bool-cases (bytes_eq one two)) [
        | inr differ ↦ inr (
          raw,
          raw',
          is_id,
          is_id',
          λ p. cc (ap (bytes_eq one) (sym p), bytes_eq_refl one),
          hash ∙ sym hash',
        )
        | inl equal ↦
            let same = bytes_eq_sound one two equal in
            let (_, body) = append-injective (le32 1) (le32 1) _ _ refl same in
            let (fields, rest) =
              encode-injective (raw ∷ vault ∷ purpose ∷ dest ∷ [])
                (raw' ∷ vault' ∷ purpose' ∷ dest' ∷ []) (le64 amount) (le64 amount') refl short
                short' body in
            let (amounts, _) = le64-injective amount amount' [] [] small small' rest in
            let (raws, f1) = ∷-injective fields in
            let (vaults, f2) = ∷-injective f1 in
            let (purposes, f3) = ∷-injective f2 in
            let (dests, _) = ∷-injective f3 in
            inl (sym is_id ∙ ap hex raws ∙ is_id', vaults, purposes, dests, amounts)
      ]
