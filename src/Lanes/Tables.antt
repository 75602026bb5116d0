-- ===== src/Lanes/Tables.antt =====
-- The tables of the batch journals as the payment ledger sees them, and withSpendingRenewalTx of
-- internal/policy/spending_renewal.go.
use arkade_runtime.Base.{ℕ, ◌+◌, Bool, Option, List, [], ◌∷◌}
use arkade_runtime.Base.Lists.{length}
use arkade_runtime.Base.Result.{Result, ok, err, ◌>>=◌}
use arkade_runtime.Base.Bytes.{Bytes}
use arkade_runtime.Sequence.Observe.{Disk}
use arkade_runtime.Ledger.Store.{Platform, Db}
use arkade_runtime.Ledger.Allowance.{integrity_key_copy}
use arkade_runtime.Ledger.Reserve.{Ledger, State, settle, observe_economic_outflows}
use arkade_runtime.Renewal.Journal.{SpendingRenewalSnapshot}
use arkade_runtime.Renewal.Evidence.{Codec}
use arkade_runtime.Renewal.Allowance.{spending_renewal_allowance, reject_active_spending_renewal}
use arkade_runtime.Delegation.Journal.{SpendingDelegationSnapshot}
use arkade_runtime.Delegation.Guards.{invalidate_armed_delegations, delegation_allowance}

-- What loadSpendingRenewals and loadSpendingDelegations return, and the count of the rows of boarding
-- and recovery.
pub record Journal : Type 0 where
  pub renewals : List SpendingRenewalSnapshot
  pub delegations : List SpendingDelegationSnapshot
  pub other_rows : ℕ

unfoldable pub renewal_rows : List SpendingRenewalSnapshot → ℕ
renewal_rows [] = 0
renewal_rows (s ∷ ss) = 1 + length s.events + renewal_rows ss

unfoldable pub delegation_rows : List SpendingDelegationSnapshot → ℕ
delegation_rows [] = 0
delegation_rows (s ∷ ss) = 1 + length s.events + delegation_rows ss

-- The rows of the operation and event tables in economicOutflowCount.
unfoldable pub journal_rows : Journal → ℕ
unfolding renewal_rows delegation_rows
journal_rows j = renewal_rows j.renewals + delegation_rows j.delegations + j.other_rows

-- HMAC-SHA-256, the JSON and time codec, and the printing of times.
module _ (hmac : Bytes → Bytes → Bytes) (c : Codec) (format_time : ℕ → Bytes) where
  abbrev pub tables : Platform
  tables = record {
    hmac = hmac;
    parse_time = c.parse_time;
    format_time = format_time;
    Lanes = Journal;
    lane_rows = journal_rows;
    reject_active_renewal = λ j key vault.
        integrity_key_copy key >>= λ _. reject_active_spending_renewal c vault j.renewals;
    invalidate_armed = λ j key vault inputs now. integrity_key_copy key >>= λ _.
        invalidate_armed_delegations c vault inputs (format_time now) j.delegations >>= λ ds.
        ok (record j { delegations = ds });
    renewal_allowance = λ j key vault now. spending_renewal_allowance c vault now j.renewals;
    delegation_allowance = λ j key vault now. delegation_allowance c vault now j.delegations;
  }

  abbrev pub Outcome : Type 0 → Type 0
  Outcome A = Option Bytes × Result (Db Journal × A)

  abbrev attach : {A : Type 0} → A → State Journal × Result (Unit {0}) → State Journal × Result A
  attach a (s, err e) = (s, err e)
  attach a (s, ok _) = (s, ok a)

  abbrev finish_transaction :
      {A : Type 0} → Ledger → Disk → Bool → State Journal → Outcome A → State Journal × Result A
  finish_transaction l disk commits s (file, err e) = (record s { file = file }, err e)
  finish_transaction l disk commits s (file, ok (db, a)) = attach a (
      settle tables commits (record s { file = file }) db
        (observe_economic_outflows tables l disk file db))

  abbrev with_key :
      {A : Type 0}
      → Ledger
      → Disk
      → Bool
      → State Journal
      → (Bytes → Outcome A)
      → Result Bytes
      → State Journal × Result A
  with_key l disk commits s apply (err e) = (s, err e)
  with_key l disk commits s apply (ok key) = finish_transaction l disk commits s (apply key)

  -- `apply` may have written the file of the sequence before it fails.
  unfoldable pub with_spending_renewal_tx :
      {A : Type 0}
      → Ledger
      → Disk
      → Bool
      → State Journal
      → (Bytes → Outcome A)
      → State Journal × Result A
  unfolding settle observe_economic_outflows
  with_spending_renewal_tx l disk commits s apply =
      with_key l disk commits s apply (integrity_key_copy l.integrity_key)

  -- An `apply` that observes the sequence before it looks at a row.
  abbrev pub then_apply :
      {A : Type 0} → Option Bytes × Result (Unit {0}) → Result (Db Journal × A) → Outcome A
  then_apply (file, err e) rest = (file, err e)
  then_apply (file, ok _) rest = (file, rest)
