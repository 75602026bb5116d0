-- ===== src/Examples/Sequences.antt =====
-- The file of the external sequence, and a backup that is brought back.
use arkade_runtime.Base.{ℕ, ◌≡◌, ◌≤◌, refl, true, Option, some, [], ◌∷◌, arith}
use arkade_runtime.Base.Int64.{pos}
use arkade_runtime.Base.Result.{Error, ok, err}
use arkade_runtime.Base.Bytes.{Bytes, codes, bytes_eq}
use arkade_runtime.Sequence.Text.{payload, parse_monotonic}
use arkade_runtime.Sequence.RoundTrip.{parse_monotonic-payload}
use arkade_runtime.Sequence.Observe.{Disk, Monotonic, written, count_mac, write, advance, observe}
use arkade_runtime.Sequence.Laws.{Holds, observe_accepts, observe_never_falls, read-payload}
use arkade_runtime.Sequence.Base.{
  policy_sequence_base_mac, read_policy_sequence_base, economic_outflow_count,
  current_economic_sequence,
}
use arkade_runtime.Ledger.Reserve.{
  Ledger, State, observe_counted, observe_economic_outflows, settle, reserve_vtxo_operation,
  reserve_rows,
}
use arkade_runtime.Ledger.Outflows.{attach_monotonic}
use arkade_runtime.Ledger.Durable.{Outcome, reserve_vtxo_operation-Outcome, attach_refuses_backup}
use arkade_runtime.Examples.Setting.{
  toy, toy_lawful, toy_hmac, toy-IsTag, fill-IsByte, key, payment, coin, empty, fill,
}
use arkade_runtime.Examples.Reservations.{clock, reserved_db, reserved_db_lem}

parse_monotonic-payload_example : parse_monotonic (payload 42 (fill 32 9)) ≡ ok (42, fill 32 9)
parse_monotonic-payload_example =
    parse_monotonic-payload 42 (fill 32 9) (omega arith) refl (fill-IsByte 32 9 (omega arith))

abbrev sequence : Monotonic
sequence = record { path = codes "sequence"; key = key }

abbrev working : Disk
working = record { readable = true; outcome = written }

-- The file that holds a count.
abbrev file_of : ℕ → Option Bytes
file_of n = some (payload n (count_mac toy_hmac key n))

five_held : Holds toy_hmac key (file_of 5) 5
five_held = read-payload toy_hmac toy-IsTag key working 5 refl (omega arith)

six_observed : (observe toy_hmac (some sequence) working (file_of 5) 6).1 ≡ ok tt
unfolding observe advance write
six_observed = rw five_held refl

observe_accepts_example :
    Holds toy_hmac key (observe toy_hmac (some sequence) working (file_of 5) 6).0 6
observe_accepts_example =
    observe_accepts toy_hmac toy-IsTag sequence working (file_of 5) 6 (omega arith) six_observed

observe_never_falls_example :
    (j : ℕ) × Holds toy_hmac key (observe toy_hmac (some sequence) working (file_of 5) 6).0 j
    × (5 ≤ j)
observe_never_falls_example =
    observe_never_falls toy_hmac toy-IsTag sequence working (file_of 5) 6 5 (omega arith) five_held

abbrev ledger : Ledger
ledger = record { network = codes "test"; integrity_key = key; monotonic = some sequence }

abbrev start_state : State (Unit {0})
start_state = record { db = empty; file = file_of 0 }

reserve_vtxo_operation-Outcome_example :
    Outcome toy ledger sequence start_state
      (reserve_vtxo_operation toy ledger clock working true payment
        (coin ∷ [])
        (pos 2000)
        start_state).0
      (reserve_vtxo_operation toy ledger clock working true payment
        (coin ∷ [])
        (pos 2000)
        start_state).1
      (reserve_rows toy key clock payment (coin ∷ []) (pos 2000) start_state.db)
reserve_vtxo_operation-Outcome_example =
    reserve_vtxo_operation-Outcome toy ledger sequence clock working true payment (coin ∷ [])
      (pos 2000) start_state toy-IsTag refl

zero_held : Holds toy_hmac key (file_of 0) 0
zero_held = read-payload toy_hmac toy-IsTag key working 0 refl (omega arith)

one_row : current_economic_sequence toy (codes "test") key reserved_db ≡ ok 1
unfolding reserved_db current_economic_sequence read_policy_sequence_base economic_outflow_count
    policy_sequence_base_mac bytes_eq
one_row = refl

accepted :
    (reserve_vtxo_operation toy ledger clock working true payment
      (coin ∷ [])
      (pos 2000)
      start_state).1
    ≡ ok tt
unfolding reserve_vtxo_operation observe_economic_outflows settle observe_counted observe advance
    write
accepted = rw (reserved_db_lem, one_row, zero_held) refl

attach_refuses_backup_example :
    attach_monotonic toy ledger sequence working
      (reserve_vtxo_operation toy ledger clock working true payment
        (coin ∷ [])
        (pos 2000)
        start_state).0.file
      start_state.db
    ≡ (
      (reserve_vtxo_operation toy ledger clock working true payment
          (coin ∷ [])
          (pos 2000)
          start_state).0.file,
      err Error.sequence_behind,
    )
attach_refuses_backup_example =
    attach_refuses_backup toy toy_lawful ledger sequence clock working working true payment
      (coin ∷ []) (pos 2000) start_state toy-IsTag refl refl accepted
