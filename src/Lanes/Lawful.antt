-- ===== src/Lanes/Lawful.antt =====
-- The batch journals keep what the payment ledger relies on: the allowances and the invalidation of
-- internal/policy/spending_renewal.go and internal/policy/spending_delegation.go as an
-- implementation of the interface in Ledger/Store.
use arkade_runtime.Base.{
  ℕ, ◌+◌, ◌≤◌, ◌<◌, ◌%◌, ◌≡◌, true, false, ◌||◌, not, List, [], ◌∷◌, ◌⊎◌, arith, inl, inr,
}
use mathlib.Core.Path.{subst}
use arkade_runtime.Base.Tests.{Bool-cases}
use arkade_runtime.Base.Lists.{length}
use arkade_runtime.Base.Int64.{
  ℤ, pos, InInt64, ltb_ℤ, int64_add, int64_sub, max_int64, of_u64, to_u64, uint64_mod,
}
use arkade_runtime.Base.Result.{Error, ok, refuse, from_ok, ok_injective}
use arkade_runtime.Base.Bytes.{Bytes, bytes_eq}
use arkade_runtime.Vtxo.Record.{VtxoOperationInput}
use arkade_runtime.Ledger.Store.{IsLawful}
use arkade_runtime.Ledger.Allowance.{integrity_key_copy}
use arkade_runtime.Renewal.Journal.{SpendingRenewalOperation, SpendingRenewalSnapshot}
use arkade_runtime.Renewal.Evidence.{Codec}
use arkade_runtime.Renewal.Allowance.{
  is_spent_out, add_renewal, sum_renewals, spending_renewal_allowance,
}
use arkade_runtime.Delegation.Journal.{SpendingDelegationSnapshot, delegation_terminal}
use arkade_runtime.Delegation.Validate.{validate_delegation_event}
use arkade_runtime.Delegation.Guards.{
  is_nil, takes_input, invalidation, with_event, invalidate_one, invalidate_armed_delegations,
  costs_nothing, add_fee, sum_delegations, delegation_allowance,
}
use arkade_runtime.Lanes.Tables.{Journal, tables, delegation_rows, journal_rows}

of_u64_typed : (n : ℕ) → n < uint64_mod → InInt64 (of_u64 n)
of_u64_typed n h = ground arith

pub int64_add_typed : (a b : ℤ) → InInt64 (int64_add a b)
int64_add_typed a b = of_u64_typed ((to_u64 a + to_u64 b) % uint64_mod) (omega arith)

module _ (c : Codec) where
  add_renewal_typed :
      (total t : ℤ) (o : SpendingRenewalOperation) → add_renewal c total o ≡ ok t → InInt64 t
  unfolding add_renewal
  add_renewal_typed total t o h =
      from_ok
        (refuse (ltb_ℤ (int64_sub (int64_sub max_int64 o.fee_sats) o.amount_sats) total)
          Error.period_overflow)
        _ h
        λ _ _ h1.
          subst InInt64 (ok_injective h1)
            (int64_add_typed total (int64_add o.fee_sats o.amount_sats))

  pub sum_renewals_typed :
      (vault : Bytes) (now : ℕ) (total t : ℤ) (all : List SpendingRenewalSnapshot)
      → InInt64 total
      → sum_renewals c vault now total all ≡ ok t
      → InInt64 t
  unfolding sum_renewals
  sum_renewals_typed vault now total t [] w h = subst InInt64 (ok_injective h) w
  sum_renewals_typed vault now total t (s ∷ ss) w h =
      elim (Bool-cases (not (bytes_eq s.operation.vault_id vault) || is_spent_out c now s)) [
        | inl skip ↦ sum_renewals_typed vault now total t ss w (rw skip at h)
        | inr paid ↦ from_ok (add_renewal c total s.operation) _ (rw paid at h) λ t' e h1.
            sum_renewals_typed vault now t' t ss (add_renewal_typed total t' s.operation e) h1
      ]

  add_fee_typed : (total fee t : ℤ) → add_fee c total fee ≡ ok t → InInt64 t
  unfolding add_fee
  add_fee_typed total fee t h =
      from_ok (refuse (ltb_ℤ (int64_sub max_int64 fee) total) Error.period_overflow) _ h
        λ _ _ h1. subst InInt64 (ok_injective h1) (int64_add_typed total fee)

  pub sum_delegations_typed :
      (vault : Bytes) (now : ℕ) (total t : ℤ) (all : List SpendingDelegationSnapshot)
      → InInt64 total
      → sum_delegations c vault now total all ≡ ok t
      → InInt64 t
  unfolding sum_delegations
  sum_delegations_typed vault now total t [] w h = subst InInt64 (ok_injective h) w
  sum_delegations_typed vault now total t (s ∷ ss) w h =
      elim (Bool-cases (costs_nothing c vault now s)) [
        | inl skip ↦ sum_delegations_typed vault now total t ss w (rw skip at h)
        | inr paid ↦ from_ok (add_fee c total s.operation.fee_sats) _ (rw paid at h) λ t' e h1.
            sum_delegations_typed vault now t' t ss (add_fee_typed total s.operation.fee_sats t' e)
              h1
      ]

  -- One round adds an event or nothing.
  pub invalidate_one-cases :
      (vault : Bytes) (inputs : List VtxoOperationInput) (stamp : Bytes)
      (s s' : SpendingDelegationSnapshot)
      → invalidate_one c vault inputs stamp s ≡ ok s'
      → ((s ≡ s')
          × ((bytes_eq s.operation.vault_id vault ≡ false)
              ⊎ ((delegation_terminal s.events ≡ true)
                  ⊎ ((is_nil s.events ≡ true) × (takes_input s.operation inputs ≡ false)))))
        ⊎ ((with_event (invalidation s.operation stamp) s ≡ s')
            × (is_nil s.events ≡ true)
            × (takes_input s.operation inputs ≡ true))
  unfolding invalidate_one
  invalidate_one-cases vault inputs stamp s s' h =
      elim (Bool-cases
        (not (bytes_eq s.operation.vault_id vault) || delegation_terminal s.events)) [
          | inl skip ↦ inl (ok_injective (rw skip at h), ground arith)
          | inr live ↦
              from_ok (refuse (not (is_nil s.events)) Error.operation_active) _ (rw live at h)
                λ _ free h1. elim (Bool-cases (takes_input s.operation inputs)) [
                  | inl hit ↦
                      from_ok (validate_delegation_event c (invalidation s.operation stamp)) _
                        (rw hit at h1) λ _ _ h2. inr (ok_injective h2, ground arith, hit)
                  | inr miss ↦ inl (ok_injective (rw miss at h1), inr (inr (ground arith, miss)))
                ]
        ]

  invalidate_armed-rows :
      (vault : Bytes) (inputs : List VtxoOperationInput) (stamp : Bytes)
      (ds ds' : List SpendingDelegationSnapshot)
      → invalidate_armed_delegations c vault inputs stamp ds ≡ ok ds'
      → delegation_rows ds ≤ delegation_rows ds'
  unfolding invalidate_armed_delegations delegation_rows
  invalidate_armed-rows vault inputs stamp [] ds' h =
      subst (λ (x : List SpendingDelegationSnapshot). 0 ≤ delegation_rows x) (ok_injective h)
        (omega arith)
  invalidate_armed-rows vault inputs stamp (s ∷ ss) ds' h =
      from_ok (invalidate_one c vault inputs stamp s) _ h λ s' e h1.
        from_ok (invalidate_armed_delegations c vault inputs stamp ss) _ h1 λ ss' e2 h2.
          let rest = invalidate_armed-rows vault inputs stamp ss ss' e2 in
          subst
            (λ (x : List SpendingDelegationSnapshot).
              1 + length s.events + delegation_rows ss ≤ delegation_rows x)
            (ok_injective h2)
            (elim (invalidate_one-cases vault inputs stamp s s' e) [
              | inl (same, _) ↦ rw (← same) (omega arith)
              | inr (more, _, _) ↦ rw (← more) (omega arith)
            ])

-- The batch journals implement what the payment ledger asks of them: invalidating armed
-- delegations removes no row that the outflow count includes, and the allowances of payment
-- batches and of delegations are values of int64 wherever they are no error.
pub tables-IsLawful :
    (hmac : Bytes → Bytes → Bytes) (c : Codec) (format_time : ℕ → Bytes)
    → IsLawful (tables hmac c format_time)
unfolding journal_rows spending_renewal_allowance delegation_allowance
tables-IsLawful hmac c format_time = record {
  rows-invalidate = λ t u key vault inputs now h. from_ok (integrity_key_copy key) _ h λ _ _ h1.
      from_ok (invalidate_armed_delegations c vault inputs (format_time now) t.delegations) _ h1
        λ ds e h2.
          let more = invalidate_armed-rows c vault inputs (format_time now) t.delegations ds e in
          subst (λ (x : Journal). journal_rows t ≤ journal_rows x) (ok_injective h2) (omega arith);
  renewal_typed =
      λ t key vault now a h. sum_renewals_typed c vault now (pos 0) a t.renewals (omega arith) h;
  delegation_typed = λ t key vault now a h.
      sum_delegations_typed c vault now (pos 0) a t.delegations (omega arith) h;
}
