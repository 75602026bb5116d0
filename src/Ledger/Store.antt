-- ===== src/Ledger/Store.antt =====
-- What the ledger of internal/policy/ledger.go stands on: its SQLite tables as lists of rows, and
-- the code outside this part as a record of operations.
use arkade_runtime.Base.{ℕ, ◌≤◌, ◌≡◌, List, Option}
use arkade_runtime.Base.Int64.{ℤ, InInt64}
use arkade_runtime.Base.Result.{Result, ok}
use arkade_runtime.Base.Bytes.{Bytes}
use arkade_runtime.Vtxo.Record.{VtxoOperation, VtxoOperationInput}

-- A row of webauthn_sign_count.
pub record SignCount : Type 0 where
  pub vault_id : Bytes
  pub credential_id : Bytes
  pub sign_count : ℕ
  pub integrity_mac : Bytes

-- A row of policy_sequence_base.
pub record SequenceBase : Type 0 where
  pub base : ℤ
  pub integrity_mac : Bytes

-- The tables. `T` holds those of boarding, renewal, delegation and recovery.
pub record Db (T : Type 0) : Type 0 where
  pub vaults : List Bytes
  pub operations : List VtxoOperation
  pub inputs : List VtxoOperationInput
  pub sign_counts : List SignCount
  pub bases : List SequenceBase
  pub lanes : T

-- HMAC-SHA-256, RFC 3339 times in nanoseconds, and what the payment ledger asks of the renewal and
-- delegation tables (spending_renewal.go and spending_delegation.go).
pub record Platform : Type 1 where
  pub hmac : Bytes → Bytes → Bytes
  pub parse_time : Bytes → Option ℕ
  pub format_time : ℕ → Bytes
  pub Lanes : Type 0
  pub lane_rows : Lanes → ℕ
  pub reject_active_renewal : Lanes → Bytes → Bytes → Result (Unit {0})
  pub invalidate_armed : Lanes → Bytes → Bytes → List VtxoOperationInput → ℕ → Result Lanes
  pub renewal_allowance : Lanes → Bytes → Bytes → ℕ → Result ℤ
  pub delegation_allowance : Lanes → Bytes → Bytes → ℕ → Result ℤ

-- The promises of those tables: events are only appended, and an allowance is an int64.
pub record IsLawful (p : Platform) : Type 0 where
  pub rows-invalidate :
      (t u : p.Lanes) (key vault : Bytes) (ins : List VtxoOperationInput) (now : ℕ)
      → p.invalidate_armed t key vault ins now ≡ ok u
      → p.lane_rows t ≤ p.lane_rows u
  pub renewal_typed :
      (t : p.Lanes) (key vault : Bytes) (now : ℕ) (a : ℤ)
      → p.renewal_allowance t key vault now ≡ ok a
      → InInt64 a
  pub delegation_typed :
      (t : p.Lanes) (key vault : Bytes) (now : ℕ) (a : ℤ)
      → p.delegation_allowance t key vault now ≡ ok a
      → InInt64 a
