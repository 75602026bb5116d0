-- ===== src/Base/Result.antt =====
-- Fallible code: Go's `(value, error)` as a value or an error, with `do`.
use mathlib.Core.Path.{◌≡◌, refl}
use mathlib.Core.Bool.{Bool, true, false}
use native.Mathlib.Omega.{arith}

-- The errors the modelled code returns, one for each message that tells cases apart.
pub data Error : Type 0 where
  field_too_large : Error
  negative_outflow : Error
  outflow_overflow : Error
  key_required : Error
  key_size : Error
  identity_required : Error
  bad_purpose : Error
  bad_state : Error
  bad_digest : Error
  bad_pending_proof : Error
  bad_change_shape : Error
  bad_txid : Error
  bad_vout : Error
  mac_missing : Error
  mac_mismatch : Error
  too_many_inputs : Error
  duplicate_outpoint : Error
  input_count : Error
  bad_operation_id : Error
  destination_required : Error
  amount_required : Error
  bad_time : Error
  period_overflow : Error
  allowance_exceeded : Error
  operation_active : Error
  outpoint_reserved : Error
  bad_transition : Error
  negative_allowance : Error
  row_exists : Error
  no_rows : Error
  parent_mismatch : Error
  replay_mismatch : Error
  count_backwards : Error
  sequence_missing : Error
  sequence_behind : Error
  sequence_corrupt : Error
  sequence_overflow : Error
  io_failure : Error
  lane_failure : Error
  unsupported_network : Error
  bad_policy : Error
  out_of_bounds : Error
  truncated : Error
  unsupported : Error
  duplicate_key : Error
  bad_signature : Error
  bad_client_data : Error

-- `(value, nil)` and `(_, error)`.
pub data Result {ℓ} (A : Type ℓ) : Type ℓ where
  err : (why : Error) → Result A
  ok : (value : A) → Result A

-- `if bad { return why }`
abbrev pub refuse : Bool → Error → Result (Unit {0})
refuse false why = ok tt
refuse true why = err why

-- `if err != nil { return err }` between two calls, with and without a value.
infixl 5 ◌>>=◌
abbrev pub ◌>>=◌ {ℓ κ} : {A : Type ℓ} {B : Type κ} → Result A → (A → Result B) → Result B
err why >>= next = err why
ok value >>= next = next value

infixl 5 ◌>>◌
abbrev pub ◌>>◌ {ℓ} : {B : Type ℓ} → Result (Unit {0}) → Result B → Result B
first >> second = first >>= λ done. second

pub >>=-eq-ok {κ ℓ} :
    {B : Type κ} {A : Type ℓ} (call : Result A) (next : A → Result B) {b : B}
    → (call >>= next) ≡ ok b
    → (a : A) × (call ≡ ok a) × (next a ≡ ok b)
>>=-eq-ok (err why) next h = cc
>>=-eq-ok (ok a) next h = (a, refl, h)

pub refuse-eq-ok {ℓ} :
    {B : Type ℓ} (t : Bool) (e : Error) (k : Result B) {b : B}
    → (refuse t e >> k) ≡ ok b
    → (t ≡ false) × (k ≡ ok b)
refuse-eq-ok true e k h = cc
refuse-eq-ok false e k h = (refl, h)

pub refuse_passed : (t : Bool) (e : Error) → refuse t e ≡ ok tt → t ≡ false
refuse_passed true e h = cc
refuse_passed false e h = refl

pub ok_injective {ℓ} : {A : Type ℓ} {a b : A} → ok a ≡ ok b → a ≡ b
ok_injective h = cc

-- The same, for a proof in which the parts stay variables.
pub from_ok {ℓ κ μ} :
    {A : Type ℓ} {B : Type κ} {P : Type μ} (m : Result A) (f : A → Result B) {b : B}
    → (m >>= f) ≡ ok b
    → ((a : A) → m ≡ ok a → f a ≡ ok b → P)
    → P
from_ok (ok a) f h k = k a refl h
from_ok (err e) f h k = absurd (ground arith)
