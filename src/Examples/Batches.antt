-- ===== src/Examples/Batches.antt =====
-- A payment batch from its registration on.
use arkade_runtime.Base.{◌≡◌, refl, true, false, none, some, [], ◌∷◌}
use arkade_runtime.Base.Tests.{ltb, if◌then◌else◌}
use arkade_runtime.Base.Lists.{length, All}
use arkade_runtime.Base.Int64.{pos, int64_half}
use arkade_runtime.Base.Result.{Error, ok, err}
use arkade_runtime.Base.Bytes.{codes, bytes_eq}
use arkade_runtime.Ledger.SignCounts.{
  has_vault, find_counter, put_counter, sign_count_mac, store_counter, advance_sign_count_locked,
}
use arkade_runtime.Renewal.Journal.{
  register_authorized, no_outcome, outcome_eq, SpendingRenewalOperation, SpendingRenewalEvent,
  SpendingRenewalSnapshot, has_phase, outcome_of, renewal_terminal, canonical_renewal_hex,
  all_lower_hex, is_bitcoin_batch, event_of,
}
use arkade_runtime.Renewal.Evidence.{Codec}
use arkade_runtime.Renewal.Phases.{
  valid_delegation_vault_id, validate_spending_renewal_operation, event_shape_bad,
  validate_spending_renewal_event, check_phase, validate_renewal_transition,
}
use arkade_runtime.Renewal.Append.{
  Journals, find_renewal, insert_event, is_registration, append_spending_renewal_event,
  record_event,
}
use arkade_runtime.Renewal.Allowance.{
  spending_renewal_allowance, renewal_outflow, spending_renewal_allowance_exact,
}
use arkade_runtime.Renewal.Exclusion.{History, fresh, grown, Consistent, History-Consistent}
use arkade_runtime.Renewal.Histories.{Appended, IsHistory, append-IsHistory}
use arkade_runtime.Examples.Setting.{toy_hmac, key, vault, fill, value_or}

abbrev pub toy_codec : Codec
toy_codec = record {
  parse_time = λ t. some (length t);
  json_valid = λ t. true;
  is_trimmed_utf8 = λ t. true;
  read_kind = λ t. none;
  read_change = λ t. none;
  read_conflict = λ t. none;
  print_conflict = λ t. [];
  read_ended = λ t. none;
  print_ended = λ t. [];
}

abbrev batch : SpendingRenewalOperation
batch = record {
  operation_id = fill 32 48;
  vault_id = vault;
  input_txid = fill 64 49;
  input_vout = 0;
  fee_sats = pos 100;
  plan_digest = fill 64 50;
  plan = codes "{}";
  expires_at = fill 9 48;
  created_at = fill 3 48;
  kind = codes "spending-bitcoin-v1";
  amount_sats = pos 5000;
}

abbrev registration : SpendingRenewalEvent
registration = record {
  operation_id = fill 32 48;
  phase = register_authorized;
  request_digest = fill 64 51;
  outcome = no_outcome;
  operator_ref = [];
  evidence = codes "{}";
  created_at = fill 4 48;
}

abbrev new_batch : SpendingRenewalSnapshot
new_batch = record { operation = batch; events = [] }

batch_valid : validate_spending_renewal_operation toy_codec batch ≡ ok tt
unfolding validate_spending_renewal_operation is_bitcoin_batch canonical_renewal_hex all_lower_hex
    valid_delegation_vault_id bytes_eq
batch_valid = refl

spending_renewal_allowance_exact_example :
    spending_renewal_allowance toy_codec vault 4 (new_batch ∷ []) ≡ (
      if ltb (renewal_outflow toy_codec vault 4 (new_batch ∷ [])) int64_half
      then ok (pos (renewal_outflow toy_codec vault 4 (new_batch ∷ [])))
      else err Error.period_overflow)
spending_renewal_allowance_exact_example =
    spending_renewal_allowance_exact toy_codec vault 4 (new_batch ∷ []) (batch_valid, tt)

registered : History toy_codec batch (registration ∷ [])
unfolding has_phase validate_renewal_transition check_phase renewal_terminal outcome_of outcome_eq
registered = grown registration [] 4 fresh refl refl

History-Consistent_example : Consistent toy_codec batch (registration ∷ [])
History-Consistent_example = History-Consistent toy_codec batch (registration ∷ []) registered

abbrev journals : Journals
journals = record { snapshots = new_batch ∷ []; sign_counts = [] }

abbrev appended : Appended
unfolding append_spending_renewal_event validate_spending_renewal_event canonical_renewal_hex
    all_lower_hex event_shape_bad find_renewal event_of record_event validate_renewal_transition
    check_phase renewal_terminal outcome_of outcome_eq has_phase advance_sign_count_locked
    find_counter store_counter has_vault put_counter sign_count_mac insert_event bytes_eq
appended =
    value_or (journals, registration, false)
      (append_spending_renewal_event toy_codec toy_hmac key (vault ∷ []) 4 (fill 4 48) registration
        (codes "passkey") 1 journals)

appended_lem :
    append_spending_renewal_event toy_codec toy_hmac key
      (vault ∷ [])
      4
      (fill 4 48)
      registration
      (codes "passkey")
      1
      journals
    ≡ ok appended
unfolding appended append_spending_renewal_event validate_spending_renewal_event
    canonical_renewal_hex all_lower_hex event_shape_bad find_renewal event_of record_event
    validate_renewal_transition check_phase renewal_terminal outcome_of outcome_eq has_phase
    advance_sign_count_locked find_counter store_counter has_vault put_counter sign_count_mac
    insert_event bytes_eq
appended_lem = refl

append-IsHistory_example :
    All (IsHistory toy_codec toy_hmac) appended.0.snapshots
    × (appended.2 ≡ false → journals ≡ appended.0)
    × (appended.2 ≡ true
        → (s : SpendingRenewalSnapshot) × (find_renewal registration.operation_id journals.snapshots
            ≡ ok s)
          × (insert_event (record registration { created_at = fill 4 48 }) journals.snapshots
              ≡ appended.0.snapshots)
          × (is_registration registration.phase ≡ true
              → advance_sign_count_locked toy_hmac key
                  (vault ∷ [])
                  s.operation.vault_id
                  (codes "passkey")
                  1
                  journals.sign_counts
                ≡ ok appended.0.sign_counts)
          × (is_registration registration.phase ≡ false
              → journals.sign_counts ≡ appended.0.sign_counts))
append-IsHistory_example =
    append-IsHistory toy_codec toy_hmac key (vault ∷ []) 4 (fill 4 48) registration
      (codes "passkey") 1 journals appended (fresh, tt) appended_lem
