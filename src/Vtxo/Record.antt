-- ===== src/Vtxo/Record.antt =====
-- The rows of internal/policy/vtxo.go. Strings and byte slices are byte lists; an `int64` is a ℤ
-- and a `*uint32` an optional number.
use arkade_runtime.Base.{ℕ, ◌<◌, ◌≡◌, Option, none, some}
use arkade_runtime.Base.Int64.{ℤ, InInt64, uint32_mod}
use arkade_runtime.Base.Bytes.{Bytes}
use arkade_runtime.Vtxo.State.{VtxoState}

pub record VtxoOperation : Type 0 where
  pub operation_id : Bytes
  pub vault_id : Bytes
  pub purpose : Bytes
  pub bundle_digest : Bytes
  pub state : VtxoState
  pub amount_sats : ℤ
  pub fee_sats : ℤ
  pub fee_policy_digest : Bytes
  pub dest_script : Bytes
  pub change_script : Bytes
  pub change_sats : ℤ
  pub change_vout : Option ℕ
  pub unsigned_psbt : Bytes
  pub authorized_psbt : Bytes
  pub pending_proof_digest : Bytes
  pub authorized_pending_proof : Bytes
  pub checkpoint_psbts : Bytes
  pub checkpoint_request_psbts : Bytes
  pub checkpoint_tapscript : Bytes
  pub ark_txid : Bytes
  pub expires_at : Bytes
  pub created_at : Bytes
  pub last_dest_script : Bytes
  pub integrity_mac : Bytes

pub record VtxoOperationInput : Type 0 where
  pub operation_id : Bytes
  pub txid : Bytes
  pub vout : ℤ
  pub value_sats : ℤ
  pub script : Bytes
  pub integrity_mac : Bytes

abbrev pub InUint32 : Option ℕ → Type 0
InUint32 none = Unit
InUint32 (some v) = v < uint32_mod

-- What the Go types say of the numbers in a row.
pub record IsTyped (r : VtxoOperation) : Type 0 where
  pub amount : InInt64 r.amount_sats
  pub fee : InInt64 r.fee_sats
  pub change : InInt64 r.change_sats
  pub vout : InUint32 r.change_vout

-- The fields that an operation shares with another but for the MAC column.
abbrev pub SameFields : VtxoOperation → VtxoOperation → Type 0
SameFields r s = r ≡ record s { integrity_mac = r.integrity_mac }
