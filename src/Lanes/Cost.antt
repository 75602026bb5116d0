-- ===== src/Lanes/Cost.antt =====
-- What delegations count against a vault's allowance: delegationAllowance of
-- internal/policy/spending_delegation.go.
use arkade_runtime.Base.{
  ℕ, ◌+◌, ◌<◌, ◌≤◌, ◌≡◌, refl, true, false, ◌&&◌, ◌||◌, not, List, [], ◌∷◌, arith, inl, inr,
}
use mathlib.Core.Path.{subst}
use arkade_runtime.Base.Tests.{ltb, if◌then◌else◌, Bool-cases}
use arkade_runtime.Base.Lists.{length, All}
use arkade_runtime.Base.Int64.{ℤ, pos, negsuc, is_neg, ltb_ℤ, int64_add, int64_half, pos_part}
use arkade_runtime.Base.Result.{Error, ok, err, refuse, from_ok, ok_injective}
use arkade_runtime.Base.Bytes.{Bytes, bytes_eq, bytes_eq_refl, is_empty}
use arkade_runtime.Renewal.Journal.{canonical_renewal_hex}
use arkade_runtime.Renewal.Evidence.{Codec}
use arkade_runtime.Renewal.Phases.{valid_delegation_vault_id}
use arkade_runtime.Delegation.Journal.{
  claimed, delegation_phase_eq, SpendingDelegation, SpendingDelegationEvent,
  SpendingDelegationSnapshot, has_event, delegation_terminal,
}
use arkade_runtime.Delegation.Validate.{
  window_bad, delegation_set_vault_program, validate_delegation,
}
use arkade_runtime.Delegation.Guards.{
  is_nil, with_event, costs_nothing, add_fee, sum_delegations, delegation_allowance,
}
use arkade_runtime.Lanes.Advance.{find_delegation, insert_delegation_event}

fee_size :
    (z : ℤ) → is_neg z ≡ false → ltb_ℤ (pos 20000) z ≡ false → (f : ℕ) × (z ≡ pos f) × (f ≤ 20000)
fee_size (pos m) l h = (m, refl, ground arith)
fee_size (negsuc m) l h = absurd (ground arith)

zero_add : (n : ℕ) → 0 + n ≡ n
zero_add n = omega arith

module _ (c : Codec) where
  -- A delegation that passed validation, as every row does that loadSpendingDelegations returns.
  abbrev pub IsValidDelegation : SpendingDelegationSnapshot → Type 0
  IsValidDelegation s = validate_delegation c s.operation ≡ ok tt

  pub valid_fee :
      (o : SpendingDelegation)
      → validate_delegation c o ≡ ok tt
      → (f : ℕ) × (o.fee_sats ≡ pos f) × (f ≤ 20000)
  unfolding validate_delegation
  valid_fee o h =
      from_ok
        (refuse
          (window_bad (c.parse_time o.created_at) o.valid_at
            || not (canonical_renewal_hex o.operation_id 16)
            || not (
                bytes_eq o.program delegation_set_vault_program
                && valid_delegation_vault_id c o.vault_id)
            || not (canonical_renewal_hex o.input_txid 32)
            || not (canonical_renewal_hex o.plan_digest 32)
            || is_neg o.fee_sats
            || ltb_ℤ (pos 20000) o.fee_sats
            || not (ltb_ℤ o.valid_at o.expires_at)
            || ltb_ℤ (int64_add o.valid_at (pos 86400)) o.expires_at
            || is_empty o.plan
            || ltb 65536 (length o.plan)
            || not (c.json_valid o.plan))
          Error.bad_policy)
        _ h λ _ fine _. fee_size o.fee_sats (ground arith) (ground arith)

  -- What a delegation costs its vault, as a number.
  unfoldable pub delegation_cost : Bytes → ℕ → SpendingDelegationSnapshot → ℕ
  delegation_cost vault now s =
      if costs_nothing c vault now s then 0 else pos_part s.operation.fee_sats

  unfoldable pub delegation_outflow : Bytes → ℕ → List SpendingDelegationSnapshot → ℕ
  unfolding delegation_cost
  delegation_outflow vault now [] = 0
  delegation_outflow vault now (s ∷ ss) =
      delegation_cost vault now s + delegation_outflow vault now ss

  add_fee_sums :
      (n f : ℕ)
      → f ≤ 20000
      → n < int64_half
      → add_fee c (pos n) (pos f)
        ≡ (if ltb (n + f) int64_half then ok (pos (n + f)) else err Error.period_overflow)
  unfolding add_fee
  add_fee_sums n f small room = ground arith

  sum_delegations_exact :
      (vault : Bytes) (now n : ℕ) (all : List SpendingDelegationSnapshot)
      → All IsValidDelegation all
      → n < int64_half
      → sum_delegations c vault now (pos n) all ≡ (
          if ltb (n + delegation_outflow vault now all) int64_half
          then ok (pos (n + delegation_outflow vault now all))
          else err Error.period_overflow)
  unfolding sum_delegations delegation_outflow delegation_cost
  sum_delegations_exact vault now n [] valid small = ground arith
  sum_delegations_exact vault now n (s ∷ ss) valid small =
      elim (Bool-cases (costs_nothing c vault now s)) [
        | inl skip ↦
            rw (skip, zero_add (delegation_outflow vault now ss))
              (sum_delegations_exact vault now n ss valid.1 small)
        | inr paid ↦
            let (f, is_f, low) = valid_fee s.operation valid.0 in
            let sum = add_fee_sums n f low small in
            elim (Bool-cases (ltb (n + f) int64_half)) [
              | inl fits ↦
                  let same : n + f + delegation_outflow vault now ss
                      ≡ n + (f + delegation_outflow vault now ss) =
                    omega arith in
                  rw (paid, is_f, sum, fits)
                    (rw (← same)
                      (sum_delegations_exact vault now (n + f) ss valid.1 (ground arith)))
              | inr over ↦
                  let above : ltb (n + (f + delegation_outflow vault now ss)) int64_half ≡ false =
                    ground arith in
                  rw (paid, is_f, sum, over) (rw above refl)
            ]
      ]

  -- On validated delegations the allowance that delegations take is the exact sum of the fees
  -- of those of the vault that have an event and are open, or were confirmed within the window:
  -- an armed delegation costs nothing; where that sum is no int64, it is an error, and it never
  -- wraps.
  pub delegation_allowance_exact :
      (vault : Bytes) (now : ℕ) (all : List SpendingDelegationSnapshot)
      → All IsValidDelegation all
      → delegation_allowance c vault now all ≡ (
          if ltb (delegation_outflow vault now all) int64_half
          then ok (pos (delegation_outflow vault now all))
          else err Error.period_overflow)
  unfolding delegation_allowance
  delegation_allowance_exact vault now all valid =
      rw (zero_add (delegation_outflow vault now all)) at
        (sum_delegations_exact vault now 0 all valid (omega arith))

  -- A new event changes the sum by what it does to its own delegation.
  pub insert_delegation-outflow :
      (vault : Bytes) (now : ℕ) (e : SpendingDelegationEvent) (s : SpendingDelegationSnapshot)
      (ds : List SpendingDelegationSnapshot)
      → find_delegation e.operation_id ds ≡ ok s
      → delegation_outflow vault now (insert_delegation_event e ds) + delegation_cost vault now s
        ≡ delegation_outflow vault now ds + delegation_cost vault now (with_event e s)
  unfolding find_delegation insert_delegation_event delegation_outflow
  insert_delegation-outflow vault now e s [] h = cc
  insert_delegation-outflow vault now e s (x ∷ xs) h =
      elim (Bool-cases (bytes_eq x.operation.operation_id e.operation_id)) [
        | inl here ↦
            let is_s : x ≡ s = ok_injective (rw here at h) in
            rw here (
              subst
                (λ (y : SpendingDelegationSnapshot).
                  delegation_cost vault now (with_event e x)
                    + delegation_outflow vault now xs
                    + delegation_cost vault now y
                  ≡ delegation_cost vault now x
                    + delegation_outflow vault now xs
                    + delegation_cost vault now (with_event e y))
                is_s (omega arith))
        | inr elsewhere ↦
            let rest = insert_delegation-outflow vault now e s xs (rw elsewhere at h) in
            rw elsewhere (omega arith)
      ]

  pub insert_delegation-valid :
      (e : SpendingDelegationEvent) (ds : List SpendingDelegationSnapshot)
      → All IsValidDelegation ds
      → All IsValidDelegation (insert_delegation_event e ds)
  unfolding insert_delegation_event
  insert_delegation-valid e [] w = tt
  insert_delegation-valid e (x ∷ xs) w =
      elim (Bool-cases (bytes_eq x.operation.operation_id e.operation_id)) [
        | inl here ↦ rw here (w.0, w.1)
        | inr elsewhere ↦ rw elsewhere (w.0, insert_delegation-valid e xs w.1)
      ]

  pub find-valid :
      (id : Bytes) (s : SpendingDelegationSnapshot) (ds : List SpendingDelegationSnapshot)
      → find_delegation id ds ≡ ok s
      → All IsValidDelegation ds
      → IsValidDelegation s
  unfolding find_delegation
  find-valid id s [] h w = cc
  find-valid id s (x ∷ xs) h w = elim (Bool-cases (bytes_eq x.operation.operation_id id)) [
    | inl here ↦ subst IsValidDelegation (ok_injective (rw here at h)) w.0
    | inr elsewhere ↦ find-valid id s xs (rw elsewhere at h) w.1
  ]

  claimed_live :
      (e : SpendingDelegationEvent) (es : List SpendingDelegationEvent)
      → e.phase ≡ claimed
      → is_nil es ≡ true
      → delegation_terminal (e ∷ es) ≡ false
  unfolding delegation_terminal has_event delegation_phase_eq
  claimed_live e [] is first = rw is refl
  claimed_live e (x ∷ xs) is first = cc

  -- A claim costs its vault the fee.
  pub claim-cost :
      (now : ℕ) (e : SpendingDelegationEvent) (s : SpendingDelegationSnapshot) (f : ℕ)
      → e.phase ≡ claimed
      → is_nil s.events ≡ true
      → s.operation.fee_sats ≡ pos f
      → (delegation_cost s.operation.vault_id now s ≡ 0)
        × (delegation_cost s.operation.vault_id now (with_event e s) ≡ f)
  unfolding delegation_cost costs_nothing
  claim-cost now e s f is first fee = (
    rw (bytes_eq_refl s.operation.vault_id, first) refl,
    rw (bytes_eq_refl s.operation.vault_id, claimed_live e s.events is first, fee) refl,
  )
