-- ===== src/Lanes/Sets.antt =====
-- validateDelegationSets of internal/policy/spending_delegation.go. The source visits every set once;
-- here the check of a set runs once for each of its members.
use arkade_runtime.Base.{ℕ, zero, suc, Bool, false, ◌||◌, not, List, [], ◌∷◌}
use arkade_runtime.Base.Lists.{length}
use arkade_runtime.Base.Int64.{ℤ, pos, ltb_ℤ, pos_part}
use arkade_runtime.Base.Result.{Result, Error, ok, ◌>>=◌, ◌>>◌, refuse}
use arkade_runtime.Ledger.Guards.{int_eq}
use arkade_runtime.Delegation.Journal.{SpendingDelegation, SpendingDelegationSnapshot}
use arkade_runtime.Lanes.Schedule.{other_set, members_of}

-- `seen[i]`
unfoldable pub has_index : ℤ → List ℤ → Bool
has_index i [] = false
has_index i (x ∷ xs) = int_eq x i || has_index i xs

-- The loop over the members of a set, which returns `seen`.
unfoldable pub check_positions :
    SpendingDelegation → ℤ → List ℤ → List SpendingDelegationSnapshot → Result (List ℤ)
check_positions head n seen [] = ok seen
check_positions head n seen (s ∷ ss) = do
  refuse (other_set head s.operation || not (int_eq s.operation.set_size n)) Error.bad_policy
  refuse (has_index s.operation.set_index seen) Error.bad_policy
  check_positions head n (s.operation.set_index ∷ seen) ss

-- `for i := 0; i < n; i++`, downwards.
unfoldable pub check_seen : ℕ → List ℤ → Result (Unit {0})
check_seen zero seen = ok tt
check_seen (suc n) seen = do
  refuse (not (has_index (pos n) seen)) Error.bad_policy
  check_seen n seen

-- The check of one set.
unfoldable pub check_set : List SpendingDelegationSnapshot → Result (Unit {0})
unfolding check_positions check_seen
check_set [] = ok tt
check_set (s ∷ ss) = do
  refuse
      (ltb_ℤ s.operation.set_size (pos 1)
        || ltb_ℤ (pos 50) s.operation.set_size
        || not (int_eq (pos (length (s ∷ ss))) s.operation.set_size))
      Error.bad_policy
  seen ← check_positions s.operation s.operation.set_size [] (s ∷ ss)
  check_seen (pos_part s.operation.set_size) seen

unfoldable pub check_sets :
    List SpendingDelegationSnapshot → List SpendingDelegationSnapshot → Result (Unit {0})
check_sets all [] = ok tt
check_sets all (s ∷ ss) = do check_set (members_of s.operation.set_id all); check_sets all ss

unfoldable pub validate_delegation_sets : List SpendingDelegationSnapshot → Result (Unit {0})
unfolding check_sets
validate_delegation_sets all = check_sets all all
