-- ===== src/Lanes/Apart.antt =====
-- A set that ScheduleVtxoDelegationSet of internal/policy/spending_delegation.go accepts, beside the
-- delegations that are stored.
use arkade_runtime.Base.{
  ℕ, suc, ◌+◌, ◌≡◌, ◌≢◌, Bool, true, false, ◌&&◌, ◌||◌, not, List, [], ◌∷◌, arith, inl, inr,
}
use arkade_runtime.Base.Tests.{if◌then◌else◌, Bool-cases}
use arkade_runtime.Base.Lists.{All}
use arkade_runtime.Base.Result.{Error, ok, refuse, refuse_passed, from_ok}
use arkade_runtime.Base.Bytes.{Bytes, bytes_eq, bytes_eq_refl}
use arkade_runtime.Delegation.Journal.{
  SpendingDelegation, SpendingDelegationSnapshot, delegation_terminal,
}
use arkade_runtime.Delegation.Guards.{is_nil}
use arkade_runtime.Lanes.Members.{SharesInput, differs_bytes, names_input-All, has_id-All}
use arkade_runtime.Lanes.Schedule.{members_of, any_bound, count_open, names_input}

pub members_of-absent :
    (set : Bytes) (ds : List SpendingDelegationSnapshot)
    → is_nil (members_of set ds) ≡ true
    → All (λ (s : SpendingDelegationSnapshot). s.operation.set_id ≢ set) ds
unfolding members_of
members_of-absent set [] h = tt
members_of-absent set (s ∷ ss) h = elim (Bool-cases (bytes_eq s.operation.set_id set)) [
  | inl mine ↦ absurd (ground arith)
  | inr other ↦
      (differs_bytes s.operation.set_id set other, members_of-absent set ss (rw other at h))
]

-- No delegation stored has the id of a member.
abbrev pub Unbound : List SpendingDelegation → SpendingDelegationSnapshot → Type 0
Unbound os s = All (λ (o : SpendingDelegation). o.operation_id ≢ s.operation.operation_id) os

pub any_bound-Unbound :
    (os : List SpendingDelegation) (ds : List SpendingDelegationSnapshot)
    → any_bound os ds ≡ false
    → All (Unbound os) ds
unfolding any_bound
any_bound-Unbound os [] h = tt
any_bound-Unbound os (s ∷ ss) h =
    (has_id-All s.operation.operation_id os (ground arith), any_bound-Unbound os ss (ground arith))

-- The delegations of the vault that have not ended.
unfoldable pub open_delegations : Bytes → List SpendingDelegationSnapshot → ℕ
open_delegations vault [] = 0
open_delegations vault (s ∷ ss) =
    let rest = open_delegations vault ss in
    if bytes_eq s.operation.vault_id vault && not (delegation_terminal s.events)
    then suc rest
    else rest

-- No member spends the input of a delegation of the vault that has not ended.
abbrev pub Free : Bytes → List SpendingDelegation → SpendingDelegationSnapshot → Type 0
Free vault os s =
    s.operation.vault_id ≡ vault
    → delegation_terminal s.events ≡ false
    → All (λ o. ¬ (SharesInput s.operation o)) os

pub count_open-Free :
    (vault : Bytes) (os : List SpendingDelegation) (n m : ℕ) (ds : List SpendingDelegationSnapshot)
    → count_open vault os n ds ≡ ok m
    → (m ≡ n + open_delegations vault ds) × All (Free vault os) ds
unfolding count_open open_delegations
count_open-Free vault os n m [] h = (ground arith, tt)
count_open-Free vault os n m (s ∷ ss) h =
    elim (Bool-cases (not (bytes_eq s.operation.vault_id vault) || delegation_terminal s.events)) [
      | inl skip ↦
          let (count, rest) = count_open-Free vault os n m ss (rw skip at h) in
          (
            ground (arith, count),
            (
              (λ mine live.
                  let is = bytes_eq_refl vault in
                  absurd (
                    excluded s.operation.vault_id vault (delegation_terminal s.events) mine live
                      skip)),
              rest,
            ),
          )
      | inr live ↦
          from_ok (refuse (names_input s.operation os) Error.operation_active) _ (rw live at h)
            λ _ free h1.
              let (count, rest) = count_open-Free vault os (suc n) m ss h1 in
              (
                ground (arith, count),
                (
                  (λ _ _.
                      names_input-All s.operation os (refuse_passed _ Error.operation_active free)),
                  rest,
                ),
              )
    ]
  where
    excluded : (a b : Bytes) (t : Bool) → a ≡ b → t ≡ false → (not (bytes_eq a b) || t) ≡ true → ⊥
    excluded a b t h k e = let same : bytes_eq a b ≡ true = rw h (bytes_eq_refl b) in ground arith
