-- ===== src/Examples/Rows.antt =====
-- Sealed and encoded rows.
use arkade_runtime.Base.{ℕ, ◌%◌, ◌+◌, ◌≡◌, ◌≢◌, refl, [], ◌⊎◌, arith}
use arkade_runtime.Base.Result.{ok}
use arkade_runtime.Base.Bytes.{Bytes, codes, bytes_eq}
use arkade_runtime.Base.Lists.{length}
use arkade_runtime.Vtxo.State.{require_vtxo_state, state_bytes}
use arkade_runtime.Vtxo.Record.{VtxoOperation, VtxoOperationInput, SameFields}
use arkade_runtime.Vtxo.Canonical.{
  append_credential_field, append_fields, change_shape_bad, check_vtxo_operation, operation_fields,
  vout_bytes, operation_numbers, canonical_vtxo_operation, check_vtxo_operation_input,
  canonical_vtxo_operation_input,
}
use arkade_runtime.Vtxo.Seal.{
  vtxo_operation_mac, seal_vtxo_operation, verify_vtxo_operation, verify-seal, verify_binds,
  Collision, vtxo_operation_input_mac, seal_vtxo_operation_input, verify_vtxo_operation_input,
  verify_input_truncates, verify_separates,
}
use arkade_runtime.Vtxo.Injective.{canonical_vtxo_operation-injective}
use arkade_runtime.Vtxo.Separation.{IsRanged, canonical_vtxo_operation_input-injective}
use arkade_runtime.Vtxo.Digest.{operation_raw, tagged_sha256, compute_vtxo_reserve_digest}
use arkade_runtime.Vtxo.Binding.{ReserveCollision, compute_vtxo_reserve_digest_binds}
use arkade_runtime.Sequence.Text.{unhex, unhex_pairs}
use arkade_runtime.Base.Int64.{pos, uint32_mod}
use arkade_runtime.Examples.Setting.{
  toy_hmac, length-fill, key, payment, payment-IsTyped, coin, value_or, vault, fill,
}

abbrev sealed_payment : VtxoOperation
unfolding seal_vtxo_operation vtxo_operation_mac canonical_vtxo_operation check_vtxo_operation
    append_fields append_credential_field operation_fields operation_numbers vout_bytes
    change_shape_bad require_vtxo_state state_bytes bytes_eq
sealed_payment = value_or payment (seal_vtxo_operation toy_hmac payment key)

sealed_payment_lem : seal_vtxo_operation toy_hmac payment key ≡ ok sealed_payment
unfolding seal_vtxo_operation vtxo_operation_mac canonical_vtxo_operation check_vtxo_operation
    append_fields append_credential_field operation_fields operation_numbers vout_bytes
    change_shape_bad require_vtxo_state state_bytes bytes_eq sealed_payment
sealed_payment_lem = refl

verify-seal_example :
    (verify_vtxo_operation toy_hmac sealed_payment key ≡ ok tt) × SameFields sealed_payment payment
verify-seal_example =
    verify-seal toy_hmac payment sealed_payment key (λ m. length-fill 32 (length m % 256))
      sealed_payment_lem

verify_binds_example :
    (sealed_payment ≡ sealed_payment) ⊎ Collision toy_hmac sealed_payment sealed_payment key
unfolding sealed_payment
verify_binds_example =
    verify_binds toy_hmac sealed_payment sealed_payment key
      (record { amount = omega arith; fee = omega arith; change = omega arith; vout = tt })
      (record { amount = omega arith; fee = omega arith; change = omega arith; vout = tt })
      verify-seal_example.0 verify-seal_example.0 refl

abbrev payment_bytes : Bytes
unfolding canonical_vtxo_operation check_vtxo_operation append_fields append_credential_field
    operation_fields operation_numbers vout_bytes change_shape_bad require_vtxo_state state_bytes
    bytes_eq
payment_bytes = value_or [] (canonical_vtxo_operation payment)

payment_bytes_lem : canonical_vtxo_operation payment ≡ ok payment_bytes
unfolding canonical_vtxo_operation check_vtxo_operation append_fields append_credential_field
    operation_fields operation_numbers vout_bytes change_shape_bad require_vtxo_state state_bytes
    bytes_eq payment_bytes
payment_bytes_lem = refl

canonical_vtxo_operation-injective_example :
    payment ≡ record payment { integrity_mac = payment.integrity_mac }
canonical_vtxo_operation-injective_example =
    canonical_vtxo_operation-injective payment payment payment-IsTyped payment-IsTyped
      payment_bytes_lem payment_bytes_lem

abbrev coin_bytes : Bytes
unfolding canonical_vtxo_operation_input check_vtxo_operation_input append_fields
    append_credential_field
coin_bytes = value_or [] (canonical_vtxo_operation_input coin)

coin_bytes_lem : canonical_vtxo_operation_input coin ≡ ok coin_bytes
unfolding canonical_vtxo_operation_input check_vtxo_operation_input append_fields
    append_credential_field coin_bytes
coin_bytes_lem = refl

coin-IsRanged : IsRanged coin
coin-IsRanged = record { vout = (1, refl, omega arith); value = omega arith }

canonical_vtxo_operation_input-injective_example :
    coin ≡ record coin { integrity_mac = coin.integrity_mac }
canonical_vtxo_operation_input-injective_example =
    canonical_vtxo_operation_input-injective coin coin coin-IsRanged coin-IsRanged coin_bytes_lem
      coin_bytes_lem

abbrev sealed_coin : VtxoOperationInput
unfolding seal_vtxo_operation_input vtxo_operation_input_mac canonical_vtxo_operation_input
    check_vtxo_operation_input append_fields append_credential_field
sealed_coin = value_or coin (seal_vtxo_operation_input toy_hmac coin key)

sealed_coin_verifies : verify_vtxo_operation_input toy_hmac sealed_coin key ≡ ok tt
unfolding verify_vtxo_operation_input seal_vtxo_operation_input vtxo_operation_input_mac
    canonical_vtxo_operation_input check_vtxo_operation_input append_fields append_credential_field
    sealed_coin bytes_eq
sealed_coin_verifies = refl

verify_input_truncates_example :
    verify_vtxo_operation_input toy_hmac (record sealed_coin { vout = pos (1 + uint32_mod) }) key
    ≡ ok tt
unfolding sealed_coin
verify_input_truncates_example =
    verify_input_truncates toy_hmac sealed_coin 1 key refl (omega arith) sealed_coin_verifies

-- A hash that collides on everything.
abbrev flat : Bytes → Bytes → Bytes
flat k m = fill 32 7

abbrev flat_payment : VtxoOperation
flat_payment = record payment { integrity_mac = fill 32 7 }

abbrev flat_coin : VtxoOperationInput
flat_coin = record coin { integrity_mac = fill 32 7 }

flat_payment_verifies : verify_vtxo_operation flat flat_payment key ≡ ok tt
unfolding verify_vtxo_operation vtxo_operation_mac canonical_vtxo_operation check_vtxo_operation
    append_fields append_credential_field operation_fields operation_numbers vout_bytes
    change_shape_bad require_vtxo_state state_bytes bytes_eq
flat_payment_verifies = refl

flat_coin_verifies : verify_vtxo_operation_input flat flat_coin key ≡ ok tt
unfolding verify_vtxo_operation_input vtxo_operation_input_mac canonical_vtxo_operation_input
    check_vtxo_operation_input append_fields append_credential_field bytes_eq
flat_coin_verifies = refl

verify_separates_example :
    (m : Bytes) × (n : Bytes) × (canonical_vtxo_operation flat_payment ≡ ok m)
    × (canonical_vtxo_operation_input flat_coin ≡ ok n)
    × (m ≢ n)
    × (flat key m ≡ fill 32 7)
    × (flat key n ≡ fill 32 7)
verify_separates_example =
    verify_separates flat flat_payment flat_coin key flat_payment_verifies flat_coin_verifies refl

abbrev operation_id : Bytes
operation_id = codes "000102030405060708090a0b0c0d0e0f"

abbrev amount : ℕ
amount = 1000

abbrev reserve_digest : Bytes
unfolding compute_vtxo_reserve_digest operation_raw unhex_pairs unhex append_fields
    append_credential_field tagged_sha256 bytes_eq
reserve_digest =
    value_or [] (
      compute_vtxo_reserve_digest (toy_hmac []) operation_id vault (codes "spend") (fill 4 3)
        amount)

reserve_digest_lem :
    compute_vtxo_reserve_digest (toy_hmac []) operation_id vault (codes "spend") (fill 4 3) amount
    ≡ ok reserve_digest
unfolding compute_vtxo_reserve_digest operation_raw unhex_pairs unhex append_fields
    append_credential_field tagged_sha256 bytes_eq reserve_digest
reserve_digest_lem = refl

compute_vtxo_reserve_digest_binds_example :
    ((operation_id ≡ operation_id)
      × (vault ≡ vault)
      × (codes "spend" ≡ codes "spend")
      × (fill 4 3 ≡ fill 4 3)
      × (amount ≡ amount))
    ⊎ ReserveCollision
        (toy_hmac [])
        operation_id
        vault
        (codes "spend")
        (fill 4 3)
        amount
        operation_id
        vault
        (codes "spend")
        (fill 4 3)
        amount
compute_vtxo_reserve_digest_binds_example =
    compute_vtxo_reserve_digest_binds (toy_hmac []) operation_id vault (codes "spend") (fill 4 3)
      operation_id vault (codes "spend") (fill 4 3) reserve_digest amount amount (omega arith)
      (omega arith) reserve_digest_lem reserve_digest_lem
