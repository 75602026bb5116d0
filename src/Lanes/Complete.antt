-- ===== src/Lanes/Complete.antt =====
-- The sets of delegations stay complete: what ScheduleVtxoDelegationSet stores passes
-- validateDelegationSets (internal/policy/spending_delegation.go).
use arkade_runtime.Base.{
  ℕ, zero, suc, ◌+◌, ◌<◌, ◌≤◌, ◌≡◌, refl, sym, ap, ◌∙◌, true, false, ◌||◌, not, List, [], ◌∷◌, ◌++◌,
  map, arith, inl, inr,
}
use mathlib.Core.Path.{subst}
use arkade_runtime.Base.Tests.{◌==◌, Bool-cases}
use arkade_runtime.Base.Lists.{length, All}
use arkade_runtime.Base.Int64.{ℤ, pos, ltb_ℤ, pos_part}
use arkade_runtime.Base.Result.{Result, Error, ok, ◌>>=◌, ◌>>◌, refuse, from_ok}
use arkade_runtime.Base.Bytes.{Bytes, bytes_eq, bytes_eq_sound, bytes_eq_refl}
use arkade_runtime.Ledger.Store.{Db}
use arkade_runtime.Ledger.Guards.{int_eq}
use arkade_runtime.Renewal.Evidence.{Codec}
use arkade_runtime.Delegation.Journal.{SpendingDelegation, SpendingDelegationSnapshot}
use arkade_runtime.Delegation.Guards.{is_nil}
use arkade_runtime.Lanes.Tables.{Journal}
use arkade_runtime.Lanes.Schedule.{
  other_set, check_members, members_of, armed_snapshot, schedule_rows,
}
use arkade_runtime.Lanes.Whole.{HasWholeSet, validate-HasWholeSet}
use arkade_runtime.Lanes.Members.{member_parts}
use arkade_runtime.Lanes.Passed.{schedule_rows-Passed}
use arkade_runtime.Lanes.Sets.{
  has_index, check_positions, check_seen, check_set, check_sets, validate_delegation_sets,
}

-- The indices below `i`, the last first.
below : ℕ → List ℤ
below zero = []
below (suc n) = pos n ∷ below n

below_fresh : (i j : ℕ) → i ≤ j → has_index (pos j) (below i) ≡ false
unfolding below has_index
below_fresh zero j h = refl
below_fresh (suc i) j h = let rest = below_fresh i j (omega arith) in ground arith

below_has : (i j : ℕ) → j < i → has_index (pos j) (below i) ≡ true
unfolding below has_index
below_has zero j h = absurd (omega arith)
below_has (suc i) j h = elim (Bool-cases (i == j)) [
  | inl here ↦ rw here refl
  | inr miss ↦ let rest = below_has i j (ground arith) in rw (miss, rest) refl
]

check_seen_all : (n m : ℕ) → m ≤ n → check_seen m (below n) ≡ ok tt
unfolding check_seen
check_seen_all n zero h = refl
check_seen_all n (suc m) h = rw (below_has n m (omega arith)) (check_seen_all n m (omega arith))

int_eq_self : (n : ℕ) → int_eq (pos n) (pos n) ≡ true
int_eq_self n = ground arith

-- Members in order are seen at every index.
positions_of :
    (head : SpendingDelegation) (n i : ℕ) (os : List SpendingDelegation)
    → check_members head n i os ≡ ok tt
    → check_positions head (pos n) (below i) (map armed_snapshot os) ≡ ok (below (i + length os))
unfolding check_positions below
positions_of head n i [] h = ap ok (ap below (omega arith))
positions_of head n i (o ∷ os) h =
    let (same, size, index, rest) = member_parts head n i o os h in
    let next = positions_of head n (suc i) os rest in
    let there : suc i + length os ≡ i + suc (length os) = omega arith in
    rw (same, size, int_eq_self n, index, below_fresh i i (omega arith))
      (next ∙ ap ok (ap below there))

length-armed : (os : List SpendingDelegation) → length (map armed_snapshot os) ≡ length os
length-armed [] = refl
length-armed (o ∷ os) = omega (arith, length-armed os)

-- The check of one set, with its size and its members kept apart.
check_set_run :
    (o : SpendingDelegation) (z : ℤ) (ms : List SpendingDelegationSnapshot) (n : ℕ)
    → z ≡ pos n
    → 1 ≤ n
    → n ≤ 50
    → length ms ≡ n
    → check_positions o (pos n) [] ms ≡ ok (below n)
    → (refuse
          (ltb_ℤ z (pos 1) || ltb_ℤ (pos 50) z || not (int_eq (pos (length ms)) z))
          Error.bad_policy
        >> (check_positions o z [] ms >>= λ seen. check_seen (pos_part z) seen))
      ≡ ok tt
check_set_run o z ms n is some_member few size positions =
    let bounds : (ltb_ℤ (pos n) (pos 1)
          || ltb_ℤ (pos 50) (pos n)
          || not (int_eq (pos (length ms)) (pos n)))
        ≡ false =
      ground arith in
    rw is (rw (bounds, positions) (check_seen_all n n (omega arith)))

check_set_new :
    (o : SpendingDelegation) (os : List SpendingDelegation)
    → length (o ∷ os) ≤ 50
    → check_members o (length (o ∷ os)) 0 (o ∷ os) ≡ ok tt
    → check_set (map armed_snapshot (o ∷ os)) ≡ ok tt
unfolding check_set below
check_set_new o os small h =
    let n = length (o ∷ os) in
    let (_, size, _, _) = member_parts o n 0 o os h in
    let zero_n : 0 + length (o ∷ os) ≡ n = omega arith in
    check_set_run o o.set_size (map armed_snapshot (o ∷ os)) n size (omega arith) small
      (length-armed (o ∷ os)) (positions_of o n 0 (o ∷ os) h ∙ ap ok (ap below zero_n))

same_set : (head o : SpendingDelegation) → other_set head o ≡ false → o.set_id ≡ head.set_id
unfolding other_set
same_set head o h = bytes_eq_sound o.set_id head.set_id (ground arith)

same_test :
    (head o : SpendingDelegation) → other_set head o ≡ false → bytes_eq o.set_id head.set_id ≡ true
unfolding other_set
same_test head o h = ground arith

nil_right : (xs ys : List SpendingDelegationSnapshot) → is_nil ys ≡ true → (xs ++ ys) ≡ xs
nil_right [] [] h = refl
nil_right [] (y ∷ ys) h = cc
nil_right (x ∷ xs) ys h = ap (◌∷◌ x) (nil_right xs ys h)

-- The members of a set in front of other rows.
members_of_own :
    (head : SpendingDelegation) (n i : ℕ) (os : List SpendingDelegation)
    (old : List SpendingDelegationSnapshot)
    → check_members head n i os ≡ ok tt
    → members_of head.set_id (map armed_snapshot os ++ old)
      ≡ (map armed_snapshot os ++ members_of head.set_id old)
unfolding members_of
members_of_own head n i [] old h = refl
members_of_own head n i (o ∷ os) old h =
    let (same, _, _, rest) = member_parts head n i o os h in
    rw (same_test head o same)
      (ap (◌∷◌ (armed_snapshot o)) (members_of_own head n (suc i) os old rest))

members_of_other :
    (head : SpendingDelegation) (n i : ℕ) (os : List SpendingDelegation) (set : Bytes)
    (old : List SpendingDelegationSnapshot)
    → check_members head n i os ≡ ok tt
    → bytes_eq head.set_id set ≡ false
    → members_of set (map armed_snapshot os ++ old) ≡ members_of set old
unfolding members_of
members_of_other head n i [] set old h ne = refl
members_of_other head n i (o ∷ os) set old h ne =
    let (same, _, _, rest) = member_parts head n i o os h in
    rw (same_set head o same, ne) (members_of_other head n (suc i) os set old rest ne)

check_sets_old :
    (head : SpendingDelegation) (n : ℕ) (os : List SpendingDelegation)
    (old rows : List SpendingDelegationSnapshot)
    → check_members head n 0 os ≡ ok tt
    → is_nil (members_of head.set_id rows) ≡ true
    → check_sets old rows ≡ ok tt
    → check_sets (map armed_snapshot os ++ old) rows ≡ ok tt
unfolding check_sets members_of
check_sets_old head n os old [] h absent w = refl
check_sets_old head n os old (s ∷ ss) h absent w =
    elim (Bool-cases (bytes_eq s.operation.set_id head.set_id)) [
      | inl mine ↦ absurd (ground arith)
      | inr other ↦
          let ne : bytes_eq head.set_id s.operation.set_id ≡ false =
            elim (Bool-cases (bytes_eq head.set_id s.operation.set_id)) [
              | inl same ↦
                  let is = bytes_eq_sound head.set_id s.operation.set_id same in
                  let yes_too : bytes_eq s.operation.set_id head.set_id ≡ true =
                    rw is (bytes_eq_refl s.operation.set_id) in
                  absurd (ground arith)
              | inr differs ↦ differs
            ] in
          from_ok (check_set (members_of s.operation.set_id old)) _ w λ _ fine rest.
            rw (members_of_other head n 0 os s.operation.set_id old h ne, fine)
              (check_sets_old head n os old ss h (rw other at absent) rest)
    ]

check_sets_own :
    (head : SpendingDelegation) (n i : ℕ) (os : List SpendingDelegation)
    (all old : List SpendingDelegationSnapshot)
    → check_members head n i os ≡ ok tt
    → check_set (members_of head.set_id all) ≡ ok tt
    → check_sets all old ≡ ok tt
    → check_sets all (map armed_snapshot os ++ old) ≡ ok tt
unfolding check_sets
check_sets_own head n i [] all old h own w = w
check_sets_own head n i (o ∷ os) all old h own w =
    let (same, _, _, rest) = member_parts head n i o os h in
    rw (same_set head o same, own) (check_sets_own head n (suc i) os all old rest own w)

module _ (hmac : Bytes → Bytes → Bytes) (c : Codec) (format_time : ℕ → Bytes)
    (enrolled : Bytes → Result Bytes) where
  schedule_validates :
      (key credential : Bytes) (count : ℕ) (o : SpendingDelegation) (os : List SpendingDelegation)
      (db db' : Db Journal) (out : List SpendingDelegationSnapshot)
      → length (o ∷ os) ≤ 50
      → validate_delegation_sets db.lanes.delegations ≡ ok tt
      → schedule_rows hmac c format_time enrolled key credential count o (o ∷ os) db ≡ ok (db', out)
      → validate_delegation_sets db'.lanes.delegations ≡ ok tt
  unfolding validate_delegation_sets
  schedule_validates key credential count o os db db' out small w h =
      let valid = λ (x : Db Journal). validate_delegation_sets x.lanes.delegations ≡ ok tt in
      elim (schedule_rows-Passed hmac c format_time enrolled key credential count o (o ∷ os) db db'
        out h) [
          | inl (same, _, _) ↦ subst valid (sym same) w
          | inr s ↦
              let old = db.lanes.delegations in
              let n = length (o ∷ os) in
              let alone : members_of o.set_id (map armed_snapshot (o ∷ os) ++ old)
                  ≡ map armed_snapshot (o ∷ os) =
                members_of_own o n 0 (o ∷ os) old s.complete
                ∙ nil_right (map armed_snapshot (o ∷ os)) (members_of o.set_id old) s.absent in
              subst valid (sym s.stored) (
                check_sets_own o n 0 (o ∷ os) (map armed_snapshot (o ∷ os) ++ old) old s.complete
                  (ap check_set alone ∙ check_set_new o os small s.complete)
                  (check_sets_old o n (o ∷ os) old old s.complete s.absent w))
        ]

  -- A set of at most 50 delegations that ScheduleVtxoDelegationSet accepts, on delegations that
  -- pass validateDelegationSets, leaves delegations that pass it again; and each of them is
  -- then in a whole set: it has 1 to 50 members, as many as its size says, which agree on
  -- vault, program, descriptor, set, digest and size, and each index below the size is that of
  -- exactly one of them.
  pub schedule-validate :
      (key credential : Bytes) (count : ℕ) (o : SpendingDelegation) (os : List SpendingDelegation)
      (db db' : Db Journal) (out : List SpendingDelegationSnapshot)
      → length (o ∷ os) ≤ 50
      → validate_delegation_sets db.lanes.delegations ≡ ok tt
      → schedule_rows hmac c format_time enrolled key credential count o (o ∷ os) db ≡ ok (db', out)
      → (validate_delegation_sets db'.lanes.delegations ≡ ok tt)
        × All (HasWholeSet db'.lanes.delegations) db'.lanes.delegations
  schedule-validate key credential count o os db db' out small w h =
      let again = schedule_validates key credential count o os db db' out small w h in
      (again, validate-HasWholeSet db'.lanes.delegations again)
