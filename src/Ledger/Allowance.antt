-- ===== src/Ledger/Allowance.antt =====
-- The rolling allowance: addOutflow, integrityKeyCopy and spentInWindow of
-- internal/policy/ledger.go.
use arkade_runtime.Base.{ℕ, ◌+◌, ◌&&◌, ◌||◌, not, Option, none, some, List, [], ◌∷◌}
use arkade_runtime.Base.Tests.{ltb, ◌==◌, if◌then◌else◌}
use arkade_runtime.Base.Lists.{length}
use arkade_runtime.Base.Int64.{ℤ, pos, is_neg, ltb_ℤ, max_int64, int64_add, int64_sub}
use arkade_runtime.Base.Result.{Result, Error, ok, err, ◌>>=◌, ◌>>◌, refuse}
use arkade_runtime.Base.Bytes.{Bytes, bytes_eq}
use arkade_runtime.Vtxo.State.{vtxo_state_counts_toward_allowance, vtxo_state_awaiting_settlement}
use arkade_runtime.Vtxo.Record.{VtxoOperation}
use arkade_runtime.Vtxo.Seal.{verify_vtxo_operation}
use arkade_runtime.Ledger.Store.{Platform, Db}

-- 24 hours in nanoseconds.
abbrev pub allowance_window : ℕ
allowance_window = 86400000000000

unfoldable pub add_outflow : ℤ → ℤ → Result ℤ
add_outflow amount fee = do
  refuse (is_neg amount || is_neg fee) Error.negative_outflow
  refuse (ltb_ℤ (pos 0) fee && ltb_ℤ (int64_sub max_int64 fee) amount) Error.outflow_overflow
  ok (int64_add amount fee)

unfoldable pub integrity_key_copy : Bytes → Result Bytes
integrity_key_copy key = if length key == 32 then ok key else err Error.key_required

abbrev pub or_fail {ℓ} : {A : Type ℓ} → Option A → Error → Result A
or_fail none e = err e
or_fail (some a) e = ok a

-- SELECT … FROM vtxo_operation WHERE vault_id = ?
unfoldable pub operations_of : Bytes → List VtxoOperation → List VtxoOperation
operations_of vault [] = []
operations_of vault (r ∷ rs) =
    if bytes_eq r.vault_id vault then r ∷ operations_of vault rs else operations_of vault rs

module _ (p : Platform) where
  open p use {hmac, parse_time, renewal_allowance, delegation_allowance}

  -- What one verified row adds to the period: nothing where the loop says `continue`.
  unfoldable pub charge : ℕ → VtxoOperation → Result (Option ℤ)
  charge now r =
      if vtxo_state_counts_toward_allowance r.state
      then (do
        created ← or_fail (parse_time r.created_at) Error.bad_time
        if not (vtxo_state_awaiting_settlement r.state) && ltb (created + allowance_window) now
            then ok none
            else (do need ← add_outflow r.amount_sats r.fee_sats; ok (some need)))
      else ok none

  -- `if total > (1<<63-1)-need { … }; total += need`
  unfoldable pub add_charge : ℤ → Option ℤ → Result ℤ
  add_charge total none = ok total
  add_charge total (some need) = do
    refuse (ltb_ℤ (int64_sub max_int64 need) total) Error.period_overflow
    ok (int64_add total need)

  -- The loop over the rows.
  unfoldable pub sum_operations : Bytes → ℕ → ℤ → List VtxoOperation → Result ℤ
  sum_operations key now total [] = ok total
  sum_operations key now total (r ∷ rs) = do
    verify_vtxo_operation hmac r key
    need ← charge now r
    total' ← add_charge total need
    sum_operations key now total' rs

  unfoldable pub spent_in_window : Bytes → ℕ → Db p.Lanes → Bytes → Result ℤ
  spent_in_window integrity_key now db vault = do
    key ← integrity_key_copy integrity_key
    total ← sum_operations key now (pos 0) (operations_of vault db.operations)
    renewal ← renewal_allowance db.lanes key vault now
    total' ← add_outflow total renewal
    delegation ← delegation_allowance db.lanes key vault now
    add_outflow total' delegation

  -- SpentInPeriod
  unfoldable pub spent_in_period : Bytes → ℕ → Db p.Lanes → Bytes → Result ℤ
  spent_in_period integrity_key now db [] = err Error.identity_required
  spent_in_period integrity_key now db (c ∷ vault) =
      spent_in_window integrity_key now db (c ∷ vault)
