-- ===== src/Lanes/Whole.antt =====
-- What validateDelegationSets of internal/policy/spending_delegation.go says of the sets that pass it.
use arkade_runtime.Base.{
  ℕ, zero, suc, ◌+◌, ◌<◌, ◌≤◌, ◌≡◌, refl, ap, Bool, true, false, ◌||◌, not, List, [], ◌∷◌, arith,
  inl, inr,
}
use mathlib.Core.Path.{subst}
use arkade_runtime.Base.Tests.{◌==◌, if◌then◌else◌, Bool-cases}
use arkade_runtime.Base.Lists.{length, All}
use arkade_runtime.Base.Int64.{ℤ, pos, negsuc, ltb_ℤ}
use arkade_runtime.Base.Result.{Error, ok, refuse, refuse_passed, from_ok, ok_injective}
use arkade_runtime.Base.Bytes.{Bytes, bytes_eq, bytes_eq_refl}
use arkade_runtime.Ledger.Guards.{int_eq}
use arkade_runtime.Delegation.Journal.{SpendingDelegation, SpendingDelegationSnapshot}
use arkade_runtime.Lanes.Schedule.{other_set, members_of}
use arkade_runtime.Lanes.Members.{agrees, int_eq_sound}
use arkade_runtime.Lanes.Sets.{
  has_index, check_positions, check_seen, check_set, check_sets, validate_delegation_sets,
}

-- How many members have the index.
unfoldable pub index_count : ℤ → List SpendingDelegationSnapshot → ℕ
index_count z [] = 0
index_count z (s ∷ ss) =
    let rest = index_count z ss in if int_eq s.operation.set_index z then suc rest else rest

pub record Agrees (head : SpendingDelegation) (s : SpendingDelegationSnapshot) : Type 0 where
  pub vault : s.operation.vault_id ≡ head.vault_id
  pub program : s.operation.program ≡ head.program
  pub descriptor : s.operation.descriptor_hash ≡ head.descriptor_hash
  pub set : s.operation.set_id ≡ head.set_id
  pub digest : s.operation.set_digest ≡ head.set_digest
  pub size : s.operation.set_size ≡ head.set_size

-- The members of one set.
pub record WholeSet (head : SpendingDelegation) (ms : List SpendingDelegationSnapshot)
    : Type 0 where
  pub count : ℕ
  pub sized : head.set_size ≡ pos count
  pub bounds : (1 ≤ count) × (count ≤ 50)
  pub whole : length ms ≡ count
  pub same : All (Agrees head) ms
  pub once : (j : ℕ) → j < count → index_count (pos j) ms ≡ 1

abbrev pub IsWhole : List SpendingDelegationSnapshot → Type 0
IsWhole [] = ⊥
IsWhole (m ∷ ms) = WholeSet m.operation (m ∷ ms)

pub all_Agree :
    (head : SpendingDelegation) (seen out : List ℤ) (ms : List SpendingDelegationSnapshot)
    → check_positions head head.set_size seen ms ≡ ok out
    → All (Agrees head) ms
unfolding check_positions
all_Agree head seen out [] h = tt
all_Agree head seen out (s ∷ ss) h =
    from_ok
      (refuse (other_set head s.operation || not (int_eq s.operation.set_size head.set_size))
        Error.bad_policy)
      _ h
      λ _ fine h1.
        from_ok (refuse (has_index s.operation.set_index seen) Error.bad_policy) _ h1 λ _ _ h2.
          let (vault, program, descriptor, set, digest) = agrees head s.operation (ground arith) in
          (
            record {
              vault = vault;
              program = program;
              descriptor = descriptor;
              set = set;
              digest = digest;
              size = int_eq_sound s.operation.set_size head.set_size (ground arith);
            },
            all_Agree head (s.operation.set_index ∷ seen) out ss h2,
          )

bit : Bool → ℕ
bit true = 1
bit false = 0

-- A new index is counted once.
add_index :
    (z x : ℤ) (seen : List ℤ)
    → has_index x seen ≡ false
    → bit (int_eq x z || has_index z seen) ≡ bit (int_eq x z) + bit (has_index z seen)
unfolding bit has_index
add_index z x seen fresh = elim (Bool-cases (int_eq x z)) [
  | inl here ↦
      let free : has_index z seen ≡ false =
        subst (λ (y : ℤ). has_index y seen ≡ false) (int_eq_sound x z here) fresh in
      rw (here, free) refl
  | inr other ↦ rw other (omega arith)
]

count_step :
    (t : Bool) (before both rest after : ℕ)
    → both + rest ≡ after
    → both ≡ bit t + before
    → before + (if t then suc rest else rest) ≡ after
unfolding bit
count_step true before both rest after h k = omega arith
count_step false before both rest after h k = omega arith

positions_count :
    (head : SpendingDelegation) (n : ℤ) (seen out : List ℤ) (ms : List SpendingDelegationSnapshot)
    (z : ℤ)
    → check_positions head n seen ms ≡ ok out
    → bit (has_index z seen) + index_count z ms ≡ bit (has_index z out)
unfolding check_positions index_count has_index bit
positions_count head n seen out [] z h =
    subst (λ (l : List ℤ). bit (has_index z seen) + 0 ≡ bit (has_index z l)) (ok_injective h)
      (omega arith)
positions_count head n seen out (s ∷ ss) z h =
    from_ok
      (refuse (other_set head s.operation || not (int_eq s.operation.set_size n)) Error.bad_policy)
      _ h
      λ _ _ h1.
        from_ok (refuse (has_index s.operation.set_index seen) Error.bad_policy) _ h1 λ _ new h2.
          let rest = positions_count head n (s.operation.set_index ∷ seen) out ss z h2 in
          let one = add_index z s.operation.set_index seen (refuse_passed _ Error.bad_policy new) in
          count_step (int_eq s.operation.set_index z) (bit (has_index z seen)) _ _ _ rest one

check_seen-has :
    (n : ℕ) (out : List ℤ)
    → check_seen n out ≡ ok tt
    → (j : ℕ) → j < n
    → has_index (pos j) out ≡ true
unfolding check_seen
check_seen-has zero out h j less = absurd (omega arith)
check_seen-has (suc n) out h j less =
    from_ok (refuse (not (has_index (pos n) out)) Error.bad_policy) _ h λ _ here h1.
      elim (Bool-cases (j == n)) [
        | inl last ↦
            let same : n ≡ j = ground arith in
            subst (λ (i : ℕ). has_index (pos i) out ≡ true) same (ground arith)
        | inr before ↦ check_seen-has n out h1 j (ground arith)
      ]

size_parts :
    (z : ℤ) (m : ℕ)
    → (ltb_ℤ z (pos 1) || ltb_ℤ (pos 50) z || not (int_eq (pos m) z)) ≡ false
    → (z ≡ pos m) × (1 ≤ m) × (m ≤ 50)
size_parts (pos n) m h =
    let same : n ≡ m = ground arith in (ap pos same, ground arith, ground arith)
size_parts (negsuc n) m h = absurd (ground arith)

count_one : (k : ℕ) (b : Bool) → 0 + k ≡ bit b → b ≡ true → k ≡ 1
unfolding bit
count_one k true h e = omega arith
count_one k false h e = cc

pub check_set-IsWhole :
    (ms : List SpendingDelegationSnapshot) → check_set ms ≡ ok tt → 0 < length ms → IsWhole ms
unfolding check_set has_index bit
check_set-IsWhole [] h some_member = absurd (omega arith)
check_set-IsWhole (s ∷ ss) h some_member =
    let z = s.operation.set_size in
    let n = length (s ∷ ss) in
    from_ok
      (refuse (ltb_ℤ z (pos 1) || ltb_ℤ (pos 50) z || not (int_eq (pos n) z)) Error.bad_policy) _ h
      λ _ size h1. from_ok (check_positions s.operation z [] (s ∷ ss)) _ h1 λ out made h2.
        let (sized, low, high) = size_parts z n (refuse_passed _ Error.bad_policy size) in
        let seen : check_seen n out ≡ ok tt = rw sized at h2 in
        record {
          count = n;
          sized = sized;
          bounds = (low, high);
          whole = refl;
          same = all_Agree s.operation [] out (s ∷ ss) made;
          once = λ j less.
              count_one (index_count (pos j) (s ∷ ss)) (has_index (pos j) out)
                (positions_count s.operation z [] out (s ∷ ss) (pos j) made)
                (check_seen-has n out seen j less);
        }

-- The set of a delegation, among all.
abbrev pub HasWholeSet : List SpendingDelegationSnapshot → SpendingDelegationSnapshot → Type 0
HasWholeSet all s = IsWhole (members_of s.operation.set_id all)

members_of-tail :
    (set : Bytes) (s : SpendingDelegationSnapshot) (ss : List SpendingDelegationSnapshot)
    → length (members_of set ss) ≤ length (members_of set (s ∷ ss))
unfolding members_of
members_of-tail set s ss = elim (Bool-cases (bytes_eq s.operation.set_id set)) [
  | inl mine ↦ rw mine (omega arith)
  | inr other ↦ rw other (omega arith)
]

members_of-head :
    (s : SpendingDelegationSnapshot) (ss : List SpendingDelegationSnapshot)
    → 0 < length (members_of s.operation.set_id (s ∷ ss))
unfolding members_of
members_of-head s ss = rw (bytes_eq_refl s.operation.set_id) (omega arith)

check_sets-HasWholeSet :
    (all ss : List SpendingDelegationSnapshot)
    → ((set : Bytes) → length (members_of set ss) ≤ length (members_of set all))
    → check_sets all ss ≡ ok tt
    → All (HasWholeSet all) ss
unfolding check_sets
check_sets-HasWholeSet all [] covers h = tt
check_sets-HasWholeSet all (s ∷ ss) covers h =
    from_ok (check_set (members_of s.operation.set_id all)) _ h λ _ fine h1.
      let here = members_of-head s ss in
      let there = covers s.operation.set_id in
      (
        check_set-IsWhole (members_of s.operation.set_id all) fine (omega arith),
        check_sets-HasWholeSet all ss
            (λ set. let more = members_of-tail set s ss in let most = covers set in omega arith) h1,
      )

-- Delegations that pass validateDelegationSets are in whole sets.
pub validate-HasWholeSet :
    (ds : List SpendingDelegationSnapshot)
    → validate_delegation_sets ds ≡ ok tt
    → All (HasWholeSet ds) ds
unfolding validate_delegation_sets
validate-HasWholeSet ds h = check_sets-HasWholeSet ds ds (λ set. omega arith) h
