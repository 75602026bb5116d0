-- ===== src/Renewal/Allowance.antt =====
-- What payment batches count against a vault's allowance: spendingRenewalAllowance and
-- rejectActiveSpendingRenewal of internal/policy/spending_renewal.go.
use arkade_runtime.Base.{
  ℕ, ◌+◌, ◌<◌, ◌≤◌, ◌≡◌, refl, Bool, false, ◌&&◌, ◌||◌, not, List, [], ◌∷◌, arith, inl, inr,
}
use arkade_runtime.Base.Tests.{ltb, if◌then◌else◌, Bool-cases}
use arkade_runtime.Base.Lists.{length, All}
use arkade_runtime.Base.Int64.{
  ℤ, pos, negsuc, is_neg, ltb_ℤ, int64_add, int64_sub, max_int64, int64_half, pos_part,
}
use arkade_runtime.Base.Result.{Result, Error, ok, err, ◌>>=◌, ◌>>◌, refuse, from_ok}
use arkade_runtime.Base.Bytes.{Bytes, bytes_eq, is_empty}
use arkade_runtime.Ledger.Allowance.{allowance_window}
use arkade_runtime.Renewal.Journal.{
  confirmed, SpendingRenewalOperation, SpendingRenewalSnapshot, has_phase, created_at_of,
  renewal_terminal, canonical_renewal_hex, is_bitcoin_batch,
}
use arkade_runtime.Renewal.Evidence.{Codec, max_sats}
use arkade_runtime.Renewal.Phases.{
  time_or_zero, validate_spending_renewal_operation, valid_delegation_vault_id,
}

zero_add : (n : ℕ) → 0 + n ≡ n
zero_add n = omega arith

amount_size :
    (z : ℤ)
    → ltb_ℤ z (pos 330) ≡ false
    → ltb_ℤ (pos max_sats) z ≡ false
    → (m : ℕ) × (z ≡ pos m) × (330 ≤ m) × (m ≤ max_sats)
amount_size (pos m) l h = (m, refl, ground arith, ground arith)
amount_size (negsuc m) l h = absurd (ground arith)

fee_size :
    (z : ℤ) → is_neg z ≡ false → ltb_ℤ (pos 5000) z ≡ false → (m : ℕ) × (z ≡ pos m) × (m ≤ 5000)
fee_size (pos m) l h = (m, refl, ground arith)
fee_size (negsuc m) l h = absurd (ground arith)

module _ (c : Codec) where
  -- Whether the loop says `continue` after the test of the vault.
  unfoldable pub is_spent_out : ℕ → SpendingRenewalSnapshot → Bool
  is_spent_out now s =
      renewal_terminal s.events
      && (not (has_phase confirmed s.events)
          || ltb (time_or_zero (c.parse_time (created_at_of confirmed s.events)) + allowance_window)
              now)

  unfoldable pub add_renewal : ℤ → SpendingRenewalOperation → Result ℤ
  add_renewal total o = do
    refuse (ltb_ℤ (int64_sub (int64_sub max_int64 o.fee_sats) o.amount_sats) total)
        Error.period_overflow
    ok (int64_add total (int64_add o.fee_sats o.amount_sats))

  -- The loop over the snapshots.
  unfoldable pub sum_renewals : Bytes → ℕ → ℤ → List SpendingRenewalSnapshot → Result ℤ
  sum_renewals vault now total [] = ok total
  sum_renewals vault now total (s ∷ ss) = do
    total' ←
        (if not (bytes_eq s.operation.vault_id vault) || is_spent_out now s
          then ok total
          else add_renewal total s.operation)
    sum_renewals vault now total' ss

  unfoldable pub spending_renewal_allowance : Bytes → ℕ → List SpendingRenewalSnapshot → Result ℤ
  unfolding sum_renewals
  spending_renewal_allowance vault now all = sum_renewals vault now (pos 0) all

  unfoldable pub reject_active_spending_renewal :
      Bytes → List SpendingRenewalSnapshot → Result (Unit {0})
  reject_active_spending_renewal vault [] = ok tt
  reject_active_spending_renewal vault (s ∷ ss) = do
    refuse (bytes_eq s.operation.vault_id vault && not (renewal_terminal s.events))
        Error.operation_active
    reject_active_spending_renewal vault ss

  -- What a validated snapshot is worth to its vault, as a number.
  unfoldable pub worth : Bytes → ℕ → SpendingRenewalSnapshot → ℕ
  worth vault now s =
      if not (bytes_eq s.operation.vault_id vault) || is_spent_out now s
      then 0
      else pos_part s.operation.fee_sats + pos_part s.operation.amount_sats

  unfoldable pub renewal_outflow : Bytes → ℕ → List SpendingRenewalSnapshot → ℕ
  unfolding worth
  renewal_outflow vault now [] = 0
  renewal_outflow vault now (s ∷ ss) = worth vault now s + renewal_outflow vault now ss

  -- The amount and the fee of an operation that passed validation.
  valid_sizes :
      (o : SpendingRenewalOperation)
      → validate_spending_renewal_operation c o ≡ ok tt
      → (f : ℕ) × (a : ℕ) × (o.fee_sats ≡ pos f)
        × (o.amount_sats ≡ pos a)
        × (f ≤ 5000)
        × (330 ≤ a)
        × (a ≤ max_sats)
  unfolding validate_spending_renewal_operation
  valid_sizes o h =
      from_ok
        (refuse
          (not (is_bitcoin_batch o.kind)
            || ltb_ℤ o.amount_sats (pos 330)
            || ltb_ℤ (pos max_sats) o.amount_sats)
          Error.bad_policy)
        _ h
        λ _ amounts h1.
          from_ok
            (refuse
              (not (canonical_renewal_hex o.operation_id 16)
                || not (valid_delegation_vault_id c o.vault_id)
                || ltb 256 (length o.vault_id)
                || not (canonical_renewal_hex o.input_txid 32)
                || not (canonical_renewal_hex o.plan_digest 32)
                || is_neg o.fee_sats
                || ltb_ℤ (pos 5000) o.fee_sats
                || is_empty o.plan
                || ltb 8192 (length o.plan)
                || not (c.json_valid o.plan))
              Error.bad_policy)
            _ h1
            λ _ fees _.
              let (a, is_a, low, high) = amount_size o.amount_sats (ground arith) (ground arith) in
              let (f, is_f, small) = fee_size o.fee_sats (ground arith) (ground arith) in
              (f, a, is_f, is_a, small, low, high)

  add_renewal_fits :
      (n f a : ℕ) (o : SpendingRenewalOperation)
      → o.fee_sats ≡ pos f
      → o.amount_sats ≡ pos a
      → f ≤ 5000
      → a ≤ max_sats
      → n + (f + a) < int64_half
      → add_renewal (pos n) o ≡ ok (pos (n + (f + a)))
  unfolding add_renewal
  add_renewal_fits n f a o ef ea hf ha room = rw (ef, ea) (ground arith)

  add_renewal_over :
      (n f a : ℕ) (o : SpendingRenewalOperation)
      → o.fee_sats ≡ pos f
      → o.amount_sats ≡ pos a
      → f ≤ 5000
      → a ≤ max_sats
      → n < int64_half
      → int64_half ≤ n + (f + a)
      → add_renewal (pos n) o ≡ err Error.period_overflow
  unfolding add_renewal
  add_renewal_over n f a o ef ea hf ha hn room = rw (ef, ea) (ground arith)

  abbrev IsValid : SpendingRenewalSnapshot → Type 0
  IsValid s = validate_spending_renewal_operation c s.operation ≡ ok tt

  sum_renewals_exact :
      (vault : Bytes) (now n : ℕ) (all : List SpendingRenewalSnapshot)
      → All IsValid all
      → n < int64_half
      → sum_renewals vault now (pos n) all ≡ (
          if ltb (n + renewal_outflow vault now all) int64_half
          then ok (pos (n + renewal_outflow vault now all))
          else err Error.period_overflow)
  unfolding sum_renewals renewal_outflow worth
  sum_renewals_exact vault now n [] valid small = ground arith
  sum_renewals_exact vault now n (s ∷ ss) valid small =
      elim (Bool-cases (not (bytes_eq s.operation.vault_id vault) || is_spent_out now s)) [
        | inl skip ↦
            rw (skip, zero_add (renewal_outflow vault now ss))
              (sum_renewals_exact vault now n ss valid.1 small)
        | inr paid ↦
            let (f, a, ef, ea, hf, low, ha) = valid_sizes s.operation valid.0 in
            let sizes : pos_part s.operation.fee_sats + pos_part s.operation.amount_sats ≡ f + a =
              rw (ef, ea) refl in
            elim (Bool-cases (ltb (n + (f + a)) int64_half)) [
              | inl fits ↦
                  let sum = add_renewal_fits n f a s.operation ef ea hf ha (ground arith) in
                  let same : n + (f + a) + renewal_outflow vault now ss
                      ≡ n + (f + a + renewal_outflow vault now ss) =
                    omega arith in
                  rw (paid, sum, sizes)
                    (rw (← same)
                      (sum_renewals_exact vault now (n + (f + a)) ss valid.1 (ground arith)))
              | inr over ↦
                  let sum = add_renewal_over n f a s.operation ef ea hf ha small (ground arith) in
                  let above : ltb (n + (f + a + renewal_outflow vault now ss)) int64_half ≡ false =
                    ground arith in
                  rw (paid, sum, sizes) (rw above refl)
            ]
      ]

  -- On validated operations the allowance that payment batches take is the exact sum of amount
  -- and fee over those of the vault that are open, or that were confirmed within the window;
  -- where that sum is no int64, it is an error, and it never wraps.
  pub spending_renewal_allowance_exact :
      (vault : Bytes) (now : ℕ) (all : List SpendingRenewalSnapshot)
      → All IsValid all
      → spending_renewal_allowance vault now all ≡ (
          if ltb (renewal_outflow vault now all) int64_half
          then ok (pos (renewal_outflow vault now all))
          else err Error.period_overflow)
  unfolding spending_renewal_allowance
  spending_renewal_allowance_exact vault now all valid =
      rw (zero_add (renewal_outflow vault now all)) at
        (sum_renewals_exact vault now 0 all valid (omega arith))
