-- ===== src/Lanes/Counts.antt =====
-- How much of a vault is under way: open payment batches and claimed delegations, beside the active
-- payments that Ledger/Exclusive counts.
use arkade_runtime.Base.{
  ℕ, ◌+◌, ◌≤◌, ◌≡◌, refl, Bool, true, false, ◌&&◌, not, List, [], ◌∷◌, arith, inl, inr,
}
use mathlib.Core.Path.{subst}
use arkade_runtime.Base.Tests.{Bool-cases}
use arkade_runtime.Base.Result.{Error, ok, refuse, from_ok, ok_injective}
use arkade_runtime.Base.Bytes.{Bytes, bytes_eq}
use arkade_runtime.Vtxo.Record.{VtxoOperationInput}
use arkade_runtime.Renewal.Journal.{SpendingRenewalEvent, SpendingRenewalSnapshot, renewal_terminal}
use arkade_runtime.Renewal.Evidence.{Codec}
use arkade_runtime.Renewal.Append.{find_renewal, insert_event}
use arkade_runtime.Renewal.Allowance.{reject_active_spending_renewal}
use arkade_runtime.Delegation.Journal.{
  claimed, SpendingDelegationEvent, SpendingDelegationSnapshot, has_event, delegation_terminal,
  delegation_phase_eq,
}
use arkade_runtime.Delegation.Guards.{
  is_nil, with_event, invalidation, invalidate_one, invalidate_armed_delegations,
  reject_dispatched_delegation,
}
use arkade_runtime.Lanes.Advance.{find_delegation, insert_delegation_event}
use arkade_runtime.Lanes.Lawful.{invalidate_one-cases}

abbrev pub bit : Bool → ℕ
bit true = 1
bit false = 0

-- A payment batch of the vault that has not ended.
abbrev pub is_open_renewal : Bytes → SpendingRenewalSnapshot → Bool
is_open_renewal vault s = bytes_eq s.operation.vault_id vault && not (renewal_terminal s.events)

-- A delegation of the vault that was claimed and has not ended.
abbrev pub is_running : Bytes → SpendingDelegationSnapshot → Bool
is_running vault s =
    bytes_eq s.operation.vault_id vault
    && has_event claimed s.events
    && not (delegation_terminal s.events)

unfoldable pub open_renewals : Bytes → List SpendingRenewalSnapshot → ℕ
open_renewals vault [] = 0
open_renewals vault (s ∷ ss) = bit (is_open_renewal vault s) + open_renewals vault ss

unfoldable pub running_delegations : Bytes → List SpendingDelegationSnapshot → ℕ
running_delegations vault [] = 0
running_delegations vault (s ∷ ss) = bit (is_running vault s) + running_delegations vault ss

pub reject_active-open :
    (c : Codec) (vault : Bytes) (rs : List SpendingRenewalSnapshot)
    → reject_active_spending_renewal c vault rs ≡ ok tt
    → open_renewals vault rs ≡ 0
unfolding reject_active_spending_renewal open_renewals
reject_active-open c vault [] h = refl
reject_active-open c vault (s ∷ ss) h =
    from_ok
      (refuse (bytes_eq s.operation.vault_id vault && not (renewal_terminal s.events))
        Error.operation_active)
      _ h λ _ _ h1. let rest = reject_active-open c vault ss h1 in ground arith

claimed_not_nil :
    (es : List SpendingDelegationEvent) → has_event claimed es ≡ true → is_nil es ≡ false
unfolding has_event
claimed_not_nil [] h = cc
claimed_not_nil (e ∷ es) h = refl

pub reject_dispatched-running :
    (vault : Bytes) (ds : List SpendingDelegationSnapshot)
    → reject_dispatched_delegation vault ds ≡ ok tt
    → running_delegations vault ds ≡ 0
unfolding reject_dispatched_delegation running_delegations
reject_dispatched-running vault [] h = refl
reject_dispatched-running vault (s ∷ ss) h =
    from_ok
      (refuse
        (bytes_eq s.operation.vault_id vault
          && (not (is_nil s.events) && not (delegation_terminal s.events)))
        Error.operation_active)
      _ h
      λ _ _ h1.
        let rest = reject_dispatched-running vault ss h1 in
        elim (Bool-cases (has_event claimed s.events)) [
          | inl was ↦ let some_event = claimed_not_nil s.events was in ground arith
          | inr fresh ↦ ground arith
        ]

-- An invalidated delegation has ended.
invalidated_ended :
    (s : SpendingDelegationSnapshot) (stamp : Bytes)
    → delegation_terminal (invalidation s.operation stamp ∷ s.events) ≡ true
unfolding delegation_terminal has_event delegation_phase_eq bytes_eq
invalidated_ended s stamp = ground arith

nil_unclaimed :
    (es : List SpendingDelegationEvent) → is_nil es ≡ true → has_event claimed es ≡ false
unfolding has_event
nil_unclaimed [] h = refl
nil_unclaimed (e ∷ es) h = cc

module _ (c : Codec) (vault : Bytes) (inputs : List VtxoOperationInput) (stamp : Bytes) where
  -- After one round nothing of the vault is running, and elsewhere nothing more than before.
  one-running :
      (v : Bytes) (s s' : SpendingDelegationSnapshot)
      → invalidate_one c vault inputs stamp s ≡ ok s'
      → (bit (is_running v s') ≤ bit (is_running v s)) × (bit (is_running vault s') ≡ 0)
  one-running v s s' h = elim (invalidate_one-cases c vault inputs stamp s s' h) [
    | inl (same, inl other) ↦ rw (← same) (omega arith, ground arith)
    | inl (same, inr (inl ended)) ↦ rw (← same) (omega arith, ground arith)
    | inl (same, inr (inr (fresh, _))) ↦
        let un = nil_unclaimed s.events fresh in rw (← same) (omega arith, ground arith)
    | inr (more, fresh, _) ↦
        let ended = invalidated_ended s stamp in rw (← more) (ground arith, ground arith)
  ]

  pub invalidate_armed-running :
      (v : Bytes) (ds ds' : List SpendingDelegationSnapshot)
      → invalidate_armed_delegations c vault inputs stamp ds ≡ ok ds'
      → (running_delegations v ds' ≤ running_delegations v ds) × (running_delegations vault ds' ≡ 0)
  unfolding invalidate_armed_delegations running_delegations
  invalidate_armed-running v [] ds' h =
      subst
        (λ (x : List SpendingDelegationSnapshot).
          (running_delegations v x ≤ 0) × (running_delegations vault x ≡ 0))
        (ok_injective h) (omega arith, refl)
  invalidate_armed-running v (s ∷ ss) ds' h =
      from_ok (invalidate_one c vault inputs stamp s) _ h λ s' e h1.
        from_ok (invalidate_armed_delegations c vault inputs stamp ss) _ h1 λ ss' e2 h2.
          let (low, none) = invalidate_armed-running v ss ss' e2 in
          let (low1, none1) = one-running v s s' e in
          subst
            (λ (x : List SpendingDelegationSnapshot).
              (running_delegations v x ≤ running_delegations v (s ∷ ss))
              × (running_delegations vault x ≡ 0))
            (ok_injective h2) (omega arith, omega arith)

-- A new event changes the count by what it does to its own delegation.
pub insert_delegation-running :
    (v : Bytes) (e : SpendingDelegationEvent) (s : SpendingDelegationSnapshot)
    (ds : List SpendingDelegationSnapshot)
    → find_delegation e.operation_id ds ≡ ok s
    → running_delegations v (insert_delegation_event e ds) + bit (is_running v s)
      ≡ running_delegations v ds + bit (is_running v (with_event e s))
unfolding find_delegation insert_delegation_event running_delegations
insert_delegation-running v e s [] h = cc
insert_delegation-running v e s (x ∷ xs) h =
    elim (Bool-cases (bytes_eq x.operation.operation_id e.operation_id)) [
      | inl here ↦
          let is_s : x ≡ s = ok_injective (rw here at h) in
          rw here (
            subst
              (λ (y : SpendingDelegationSnapshot).
                bit (is_running v (with_event e x))
                  + running_delegations v xs
                  + bit (is_running v y)
                ≡ bit (is_running v x)
                  + running_delegations v xs
                  + bit (is_running v (with_event e y)))
              is_s (omega arith))
      | inr elsewhere ↦
          let rest = insert_delegation-running v e s xs (rw elsewhere at h) in
          rw elsewhere (omega arith)
    ]

-- A batch that is open where an event comes is the only one that the event can end.
pub insert_event-open :
    (v : Bytes) (e : SpendingRenewalEvent) (s : SpendingRenewalSnapshot)
    (rs : List SpendingRenewalSnapshot)
    → find_renewal e.operation_id rs ≡ ok s
    → renewal_terminal s.events ≡ false
    → open_renewals v (insert_event e rs) ≤ open_renewals v rs
unfolding find_renewal insert_event open_renewals
insert_event-open v e s [] h t = cc
insert_event-open v e s (x ∷ xs) h t =
    elim (Bool-cases (bytes_eq x.operation.operation_id e.operation_id)) [
      | inl here ↦
          let is_s : x ≡ s = ok_injective (rw here at h) in
          let live : renewal_terminal x.events ≡ false = rw is_s t in rw here (ground arith)
      | inr elsewhere ↦
          let rest = insert_event-open v e s xs (rw elsewhere at h) t in rw elsewhere (omega arith)
    ]
