-- ===== src/Lanes/Members.antt =====
-- The members of a set that ScheduleVtxoDelegationSet of internal/policy/spending_delegation.go accepts,
-- among themselves.
use arkade_runtime.Base.{
  ℕ, suc, ◌≡◌, ◌≢◌, sym, ap, true, false, ◌||◌, not, List, [], ◌∷◌, map, arith,
}
use arkade_runtime.Base.Tests.{==_iff}
use arkade_runtime.Base.Lists.{All}
use arkade_runtime.Base.Int64.{ℤ, pos, negsuc}
use arkade_runtime.Base.Result.{Error, ok, refuse, refuse_passed, from_ok}
use arkade_runtime.Base.Bytes.{Bytes, bytes_eq, bytes_eq_sound, bytes_eq_refl}
use arkade_runtime.Ledger.Guards.{int_eq}
use arkade_runtime.Delegation.Journal.{SpendingDelegation}
use arkade_runtime.Lanes.Overlap.{has_id}
use arkade_runtime.Lanes.Schedule.{
  other_set, check_members, same_input, names_input, check_distinct,
}

pub int_eq_sound : (a b : ℤ) → int_eq a b ≡ true → a ≡ b
int_eq_sound (pos m) (pos n) h = ap pos (ground arith)
int_eq_sound (negsuc m) (negsuc n) h = ap negsuc (ground arith)
int_eq_sound (pos m) (negsuc n) h = cc
int_eq_sound (negsuc m) (pos n) h = cc

-- What the check of the members asks of each.
pub member_parts :
    (head : SpendingDelegation) (n i : ℕ) (o : SpendingDelegation) (os : List SpendingDelegation)
    → check_members head n i (o ∷ os) ≡ ok tt
    → (other_set head o ≡ false)
      × (o.set_size ≡ pos n)
      × (o.set_index ≡ pos i)
      × (check_members head n (suc i) os ≡ ok tt)
unfolding check_members
member_parts head n i o os h =
    from_ok
      (refuse
        (other_set head o || not (int_eq o.set_size (pos n)) || not (int_eq o.set_index (pos i)))
        Error.bad_policy)
      _ h
      λ _ _ h1. (
        ground arith,
        int_eq_sound o.set_size (pos n) (ground arith),
        int_eq_sound o.set_index (pos i) (ground arith),
        h1,
      )

-- A delegation that stands at index `i` in the set of `head`, which has `n` members.
pub record Member (head : SpendingDelegation) (n i : ℕ) (o : SpendingDelegation) : Type 0 where
  pub vault : o.vault_id ≡ head.vault_id
  pub program : o.program ≡ head.program
  pub descriptor : o.descriptor_hash ≡ head.descriptor_hash
  pub set : o.set_id ≡ head.set_id
  pub digest : o.set_digest ≡ head.set_digest
  pub size : o.set_size ≡ pos n
  pub index : o.set_index ≡ pos i

abbrev pub Members : SpendingDelegation → ℕ → ℕ → List SpendingDelegation → Type 0
Members head n i [] = Unit
Members head n i (o ∷ os) = Member head n i o × Members head n (suc i) os

pub agrees :
    (head o : SpendingDelegation)
    → other_set head o ≡ false
    → (o.vault_id ≡ head.vault_id)
      × (o.program ≡ head.program)
      × (o.descriptor_hash ≡ head.descriptor_hash)
      × (o.set_id ≡ head.set_id)
      × (o.set_digest ≡ head.set_digest)
unfolding other_set
agrees head o h = (
  bytes_eq_sound o.vault_id head.vault_id (ground arith),
  bytes_eq_sound o.program head.program (ground arith),
  bytes_eq_sound o.descriptor_hash head.descriptor_hash (ground arith),
  bytes_eq_sound o.set_id head.set_id (ground arith),
  bytes_eq_sound o.set_digest head.set_digest (ground arith),
)

pub check_members-Members :
    (head : SpendingDelegation) (n i : ℕ) (os : List SpendingDelegation)
    → check_members head n i os ≡ ok tt
    → Members head n i os
check_members-Members head n i [] h = tt
check_members-Members head n i (o ∷ os) h =
    let (same, size, index, rest) = member_parts head n i o os h in
    let (vault, program, descriptor, set, digest) = agrees head o same in
    (
      record {
        vault = vault;
        program = program;
        descriptor = descriptor;
        set = set;
        digest = digest;
        size = size;
        index = index;
      },
      check_members-Members head n (suc i) os rest,
    )

-- Two delegations that spend one output.
abbrev pub SharesInput : SpendingDelegation → SpendingDelegation → Type 0
SharesInput o p = (o.input_txid ≡ p.input_txid) × (o.input_vout ≡ p.input_vout)

-- Two delegations that are not one, and spend different outputs.
abbrev pub Differs : SpendingDelegation → SpendingDelegation → Type 0
Differs o p = (o.operation_id ≢ p.operation_id) × ¬ (SharesInput o p)

-- Each differs from all before it.
abbrev pub AllDiffer : List SpendingDelegation → List SpendingDelegation → Type 0
AllDiffer seen [] = Unit
AllDiffer seen (o ∷ os) = All (Differs o) seen × AllDiffer (o ∷ seen) os

pub differs_bytes : (a b : Bytes) → bytes_eq a b ≡ false → a ≢ b
differs_bytes a b h = λ same. cc (ap (bytes_eq a) same, bytes_eq_refl a)

not_shared : (o p : SpendingDelegation) → same_input o p ≡ false → ¬ (SharesInput o p)
not_shared o p h (txid, vout) = cc (
  ap (bytes_eq o.input_txid) txid,
  bytes_eq_refl o.input_txid,
  (==_iff o.input_vout p.input_vout).1 vout,
)

pub names_input-All :
    (o : SpendingDelegation) (seen : List SpendingDelegation)
    → names_input o seen ≡ false
    → All (λ p. ¬ (SharesInput o p)) seen
unfolding names_input
names_input-All o [] h = tt
names_input-All o (p ∷ ps) h = (not_shared o p (ground arith), names_input-All o ps (ground arith))

pub has_id-All :
    (id : Bytes) (os : List SpendingDelegation)
    → has_id id (map (λ o. o.operation_id) os) ≡ false
    → All (λ (o : SpendingDelegation). o.operation_id ≢ id) os
unfolding has_id
has_id-All id [] h = tt
has_id-All id (o ∷ os) h =
    (differs_bytes o.operation_id id (ground arith), has_id-All id os (ground arith))

both :
    (o : SpendingDelegation) (seen : List SpendingDelegation)
    → All (λ (p : SpendingDelegation). p.operation_id ≢ o.operation_id) seen
    → All (λ p. ¬ (SharesInput o p)) seen
    → All (Differs o) seen
both o [] ids inputs = tt
both o (p ∷ ps) ids inputs = ((λ e. ids.0 (sym e), inputs.0), both o ps ids.1 inputs.1)

pub check_distinct-AllDiffer :
    (seen os : List SpendingDelegation)
    → check_distinct (map (λ o. o.operation_id) seen) seen os ≡ ok tt
    → AllDiffer seen os
unfolding check_distinct
check_distinct-AllDiffer seen [] h = tt
check_distinct-AllDiffer seen (o ∷ os) h =
    from_ok (refuse (has_id o.operation_id (map (λ p. p.operation_id) seen)) Error.row_exists) _ h
      λ _ ids h1. from_ok (refuse (names_input o seen) Error.duplicate_outpoint) _ h1 λ _ inputs h2.
        (
          both o seen (has_id-All o.operation_id seen (refuse_passed _ Error.row_exists ids))
              (names_input-All o seen (refuse_passed _ Error.duplicate_outpoint inputs)),
          check_distinct-AllDiffer (o ∷ seen) os h2,
        )
