-- ===== src/Renewal/Append.antt =====
-- AppendSpendingRenewalEvent of internal/policy/spending_renewal.go, on the snapshots that
-- loadSpendingRenewals has authenticated and the counters of webauthn_sign_count.
use arkade_runtime.Base.{ℕ, Bool, true, false, ◌&&◌, ◌||◌, not, Option, none, some, List, [], ◌∷◌}
use arkade_runtime.Base.Tests.{◌==◌, if◌then◌else◌}
use arkade_runtime.Base.Result.{Result, Error, ok, err, ◌>>=◌, ◌>>◌, refuse}
use arkade_runtime.Base.Bytes.{Bytes, bytes_eq, is_empty}
use arkade_runtime.Ledger.Store.{SignCount}
use arkade_runtime.Ledger.SignCounts.{advance_sign_count_locked, verify_sign_count_replay_locked}
use arkade_runtime.Renewal.Journal.{
  Phase, register_authorized, SpendingRenewalEvent, SpendingRenewalSnapshot, event_of, same_event,
}
use arkade_runtime.Renewal.Evidence.{Codec}
use arkade_runtime.Renewal.Phases.{validate_spending_renewal_event, validate_renewal_transition}

-- The journal and the counters.
pub record Journals : Type 0 where
  pub snapshots : List SpendingRenewalSnapshot
  pub sign_counts : List SignCount

-- `all[e.OperationID]`
unfoldable pub find_renewal : Bytes → List SpendingRenewalSnapshot → Result SpendingRenewalSnapshot
find_renewal id [] = err Error.no_rows
find_renewal id (s ∷ ss) = if bytes_eq s.operation.operation_id id then ok s else find_renewal id ss

-- INSERT INTO light_renewal_event
unfoldable pub insert_event :
    SpendingRenewalEvent → List SpendingRenewalSnapshot → List SpendingRenewalSnapshot
insert_event e [] = []
insert_event e (s ∷ ss) =
    if bytes_eq s.operation.operation_id e.operation_id
    then record s { events = e ∷ s.events } ∷ ss
    else s ∷ insert_event e ss

abbrev pub is_registration : Phase → Bool
is_registration register_authorized = true
is_registration _ = false

module _ (c : Codec) (hmac : Bytes → Bytes → Bytes) where
  -- The tail for a phase that is recorded already.
  unfoldable pub replay_event :
      Bytes
      → Bytes
      → ℕ
      → SpendingRenewalEvent
      → SpendingRenewalSnapshot
      → SpendingRenewalEvent
      → Journals
      → Result (Journals × SpendingRenewalEvent × Bool)
  replay_event key credential count e s old j = do
    refuse (not (same_event e old)) Error.replay_mismatch
    if is_registration e.phase
        then (verify_sign_count_replay_locked hmac key s.operation.vault_id credential count
              j.sign_counts
            >> ok (j, old, false))
        else ok (j, old, false)

  -- The tail for a new phase.
  unfoldable pub record_event :
      Bytes
      → List Bytes
      → ℕ
      → Bytes
      → ℕ
      → SpendingRenewalEvent
      → SpendingRenewalSnapshot
      → Journals
      → Result (Journals × SpendingRenewalEvent × Bool)
  record_event key vaults now credential count e s j = do
    validate_renewal_transition c s e now
    refuse (is_registration e.phase && is_empty credential) Error.identity_required
    refuse (not (is_registration e.phase) && (not (is_empty credential) || not (count == 0)))
        Error.identity_required
    counts ←
        (if is_registration e.phase
          then advance_sign_count_locked hmac key vaults s.operation.vault_id credential count
              j.sign_counts
          else ok j.sign_counts)
    ok (record { snapshots = insert_event e j.snapshots; sign_counts = counts }, e, true)

  abbrev pub append_found :
      Bytes
      → List Bytes
      → ℕ
      → Bytes
      → ℕ
      → SpendingRenewalEvent
      → SpendingRenewalSnapshot
      → Journals
      → Option SpendingRenewalEvent
      → Result (Journals × SpendingRenewalEvent × Bool)
  append_found key vaults now credential count e s j none =
      record_event key vaults now credential count e s j
  append_found key vaults now credential count e s j (some old) =
      replay_event key credential count e s old j

  -- `now` is the clock, and `stamp` the same time as text.
  unfoldable pub append_spending_renewal_event :
      Bytes
      → List Bytes
      → ℕ
      → Bytes
      → SpendingRenewalEvent
      → Bytes
      → ℕ
      → Journals
      → Result (Journals × SpendingRenewalEvent × Bool)
  unfolding replay_event record_event
  append_spending_renewal_event key vaults now stamp e0 credential count j =
      let e : SpendingRenewalEvent = record e0 { created_at = stamp } in
      (do
        validate_spending_renewal_event c e
        s ← find_renewal e.operation_id j.snapshots
        append_found key vaults now credential count e s j (event_of e.phase s.events))
