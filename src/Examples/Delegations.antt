-- ===== src/Examples/Delegations.antt =====
-- A delegation from its scheduling to its claim.
use arkade_runtime.Base.{ℕ, ◌≡◌, ◌≤◌, ◌+◌, ◌⊎◌, refl, [], ◌∷◌, arith}
use arkade_runtime.Base.Tests.{ltb, if◌then◌else◌}
use arkade_runtime.Base.Lists.{length, All}
use arkade_runtime.Base.Int64.{pos, int64_half}
use arkade_runtime.Base.Result.{Result, Error, ok, err}
use arkade_runtime.Base.Bytes.{Bytes, codes, bytes_eq}
use arkade_runtime.Ledger.Store.{Db}
use arkade_runtime.Ledger.Allowance.{
  integrity_key_copy, sum_operations, operations_of, add_outflow, spent_in_window,
}
use arkade_runtime.Ledger.Guards.{reject_concurrent, any_blocking}
use arkade_runtime.Ledger.SignCounts.{
  has_vault, find_counter, put_counter, sign_count_mac, store_counter, advance_sign_count_locked,
}
use arkade_runtime.Ledger.Exclusive.{active_count}
use arkade_runtime.Renewal.Journal.{canonical_renewal_hex, all_lower_hex}
use arkade_runtime.Renewal.Phases.{valid_delegation_vault_id}
use arkade_runtime.Renewal.Allowance.{
  reject_active_spending_renewal, spending_renewal_allowance, sum_renewals,
}
use arkade_runtime.Delegation.Journal.{
  claimed, SpendingDelegation, SpendingDelegationEvent, SpendingDelegationSnapshot, has_event,
  find_event, delegation_terminal, delegation_state, state_from, delegation_phase_eq, known_phase,
  valid_delegation_stream_phase,
}
use arkade_runtime.Delegation.Validate.{
  validate_delegation, validate_delegation_set_fields, validate_delegation_event,
}
use arkade_runtime.Delegation.Guards.{
  reject_dispatched_delegation, delegation_allowance, sum_delegations, costs_nothing,
}
use arkade_runtime.Lanes.Tables.{Journal, tables}
use arkade_runtime.Lanes.Advance.{
  find_delegation, insert_delegation_event, check_delegation_phase, check_claim, advance_rows,
}
use arkade_runtime.Lanes.Overlap.{
  has_id, active_payments, scan_inputs, reject_delegation_payment_overlap,
}
use arkade_runtime.Lanes.Schedule.{
  other_set, check_members, names_input, check_distinct, members_of, any_bound, count_open,
  armed_snapshot, validate_members, reject_overlaps, schedule_new, schedule_rows,
}
use arkade_runtime.Lanes.Sets.{validate_delegation_sets, check_sets}
use arkade_runtime.Lanes.Cost.{delegation_outflow, delegation_allowance_exact}
use arkade_runtime.Lanes.Claim.{claim-within}
use arkade_runtime.Lanes.Counts.{open_renewals, running_delegations}
use arkade_runtime.Lanes.Scheduled.{Kept, Scheduled, schedule_rows-cases}
use arkade_runtime.Lanes.Whole.{HasWholeSet}
use arkade_runtime.Lanes.Complete.{schedule-validate}
use arkade_runtime.Lanes.Reach.{
  LaneReachable, start, step, scheduling, advancing, LaneReachable-busy,
}
use arkade_runtime.Lanes.Lives.{InOrder, LaneReachable-InOrder}
use arkade_runtime.Examples.Setting.{toy_hmac, key, vault, fill, value_or, base_row}
use arkade_runtime.Examples.Batches.{toy_codec}

abbrev stamp : ℕ → Bytes
stamp n = fill n 48

abbrev holder : Bytes → Result Bytes
holder v = ok (codes "passkey")

abbrev plan_a : SpendingDelegation
plan_a = record {
  operation_id = fill 32 48;
  vault_id = vault;
  input_txid = fill 64 49;
  input_vout = 0;
  valid_at = pos 0;
  expires_at = pos 100;
  fee_sats = pos 250;
  plan_digest = fill 64 50;
  plan = codes "{}";
  created_at = fill 3 48;
  program = codes "vault-policy-v1";
  descriptor_hash = fill 64 51;
  set_id = fill 32 52;
  set_digest = fill 64 53;
  set_size = pos 1;
  set_index = pos 0;
}

abbrev claim : SpendingDelegationEvent
claim = record {
  operation_id = fill 32 48;
  phase = claimed;
  evidence = codes "{}";
  created_at = fill 4 48;
}

abbrev blank : Db Journal
blank = record {
  vaults = vault ∷ [];
  operations = [];
  inputs = [];
  sign_counts = [];
  bases = base_row ∷ [];
  lanes = record { renewals = []; delegations = []; other_rows = 0 };
}

abbrev scheduled_db : Db Journal
unfolding schedule_rows check_members other_set check_distinct has_id names_input members_of
    schedule_new any_bound validate_members validate_delegation validate_delegation_set_fields
    canonical_renewal_hex all_lower_hex valid_delegation_vault_id advance_sign_count_locked
    find_counter store_counter has_vault put_counter sign_count_mac count_open reject_overlaps
    reject_delegation_payment_overlap active_payments scan_inputs reject_active_spending_renewal
    bytes_eq
scheduled_db =
    (value_or (blank, [])
      (schedule_rows toy_hmac toy_codec stamp holder key (codes "passkey") 1 plan_a (plan_a ∷ [])
        blank)).0

scheduled_lem :
    schedule_rows toy_hmac toy_codec stamp holder key (codes "passkey") 1 plan_a (plan_a ∷ []) blank
    ≡ ok (scheduled_db, armed_snapshot plan_a ∷ [])
unfolding scheduled_db schedule_rows check_members other_set check_distinct has_id names_input
    members_of schedule_new any_bound validate_members validate_delegation
    validate_delegation_set_fields canonical_renewal_hex all_lower_hex valid_delegation_vault_id
    advance_sign_count_locked find_counter store_counter has_vault put_counter sign_count_mac
    count_open reject_overlaps reject_delegation_payment_overlap active_payments scan_inputs
    reject_active_spending_renewal bytes_eq
scheduled_lem = refl

abbrev claimed_db : Db Journal
unfolding scheduled_db insert_delegation_event bytes_eq
claimed_db = record scheduled_db {
  lanes = record scheduled_db.lanes {
    delegations = insert_delegation_event claim scheduled_db.lanes.delegations;
  };
}

claimed_lem :
    advance_rows toy_hmac toy_codec stamp key 4 claim (pos 1000) scheduled_db
    ≡ ok (claimed_db, record { operation = plan_a; events = claim ∷ [] })
unfolding scheduled_db claimed_db advance_rows find_delegation delegation_terminal has_event
    delegation_state state_from find_event check_delegation_phase check_claim
    reject_dispatched_delegation reject_concurrent any_blocking operations_of
    reject_active_spending_renewal spent_in_window integrity_key_copy sum_operations
    spending_renewal_allowance sum_renewals add_outflow delegation_allowance sum_delegations
    insert_delegation_event validate_delegation_event canonical_renewal_hex all_lower_hex
    known_phase valid_delegation_stream_phase delegation_phase_eq bytes_eq costs_nothing
claimed_lem = refl

scheduled_reachable : LaneReachable toy_hmac toy_codec stamp holder scheduled_db
scheduled_reachable = step blank scheduled_db (start blank refl refl refl) (
    scheduling key (codes "passkey") 1 plan_a (plan_a ∷ []) blank scheduled_db
      (armed_snapshot plan_a ∷ []) scheduled_lem)

claimed_reachable : LaneReachable toy_hmac toy_codec stamp holder claimed_db
claimed_reachable = step scheduled_db claimed_db scheduled_reachable (
    advancing key 4 claim (pos 1000) scheduled_db claimed_db
      (record { operation = plan_a; events = claim ∷ [] }) claimed_lem)

LaneReachable-busy_example :
    active_count vault claimed_db.operations
      + open_renewals vault claimed_db.lanes.renewals
      + running_delegations vault claimed_db.lanes.delegations
    ≤ 1
LaneReachable-busy_example =
    LaneReachable-busy toy_hmac toy_codec stamp holder claimed_db vault claimed_reachable

LaneReachable-InOrder_example : All (InOrder toy_hmac toy_codec stamp) claimed_db.lanes.delegations
LaneReachable-InOrder_example =
    LaneReachable-InOrder toy_hmac toy_codec stamp holder claimed_db claimed_reachable

plan_a_valid : validate_delegation toy_codec plan_a ≡ ok tt
unfolding validate_delegation validate_delegation_set_fields canonical_renewal_hex all_lower_hex
    valid_delegation_vault_id bytes_eq
plan_a_valid = refl

delegation_allowance_exact_example :
    delegation_allowance toy_codec vault 4 (armed_snapshot plan_a ∷ []) ≡ (
      if ltb (delegation_outflow toy_codec vault 4 (armed_snapshot plan_a ∷ [])) int64_half
      then ok (pos (delegation_outflow toy_codec vault 4 (armed_snapshot plan_a ∷ [])))
      else err Error.period_overflow)
delegation_allowance_exact_example =
    delegation_allowance_exact toy_codec vault 4 (armed_snapshot plan_a ∷ []) (plan_a_valid, tt)

claim-within_example :
    (s : SpendingDelegationSnapshot) × (find_delegation claim.operation_id
        scheduled_db.lanes.delegations
      ≡ ok s)
    × ((claimed_db ≡ scheduled_db)
        ⊎ ((u : ℕ) × (f : ℕ) × (a : ℕ) × (s.operation.fee_sats ≡ pos f)
            × (pos 1000 ≡ pos a)
            × (spent_in_window
                  (tables toy_hmac toy_codec stamp)
                  key
                  4
                  scheduled_db
                  s.operation.vault_id
                ≡ ok (pos u))
            × (spent_in_window
                  (tables toy_hmac toy_codec stamp)
                  key
                  4
                  claimed_db
                  s.operation.vault_id
                ≡ ok (pos (u + f)))
            × (u + f ≤ a)))
unfolding scheduled_db
claim-within_example =
    claim-within toy_hmac toy_codec stamp key 4 claim (pos 1000) scheduled_db claimed_db
      (record { operation = plan_a; events = claim ∷ [] }) (plan_a_valid, tt) (omega arith) refl
      claimed_lem

schedule_rows-cases_example :
    ((scheduled_db ≡ blank)
      × (length (members_of plan_a.set_id blank.lanes.delegations) ≡ 1)
      × Kept blank.lanes.delegations (plan_a ∷ []) (armed_snapshot plan_a ∷ []))
    ⊎ Scheduled toy_hmac toy_codec stamp holder key
        (codes "passkey")
        1
        plan_a
        (plan_a ∷ [])
        blank
        scheduled_db
        (armed_snapshot plan_a ∷ [])
schedule_rows-cases_example =
    schedule_rows-cases toy_hmac toy_codec stamp holder key (codes "passkey") 1 plan_a (plan_a ∷ [])
      blank scheduled_db (armed_snapshot plan_a ∷ []) scheduled_lem

blank_complete : validate_delegation_sets blank.lanes.delegations ≡ ok tt
unfolding validate_delegation_sets check_sets
blank_complete = refl

schedule-validate_example :
    (validate_delegation_sets scheduled_db.lanes.delegations ≡ ok tt)
    × All (HasWholeSet scheduled_db.lanes.delegations) scheduled_db.lanes.delegations
schedule-validate_example =
    schedule-validate toy_hmac toy_codec stamp holder key (codes "passkey") 1 plan_a [] blank
      scheduled_db (armed_snapshot plan_a ∷ []) (omega arith) blank_complete scheduled_lem
