-- ===== src/Lanes/Spared.antt =====
-- A set that ScheduleVtxoDelegationSet of internal/policy/spending_delegation.go accepts, beside the
-- payments that are stored.
use arkade_runtime.Base.{ℕ, ◌≡◌, ap, ◌∙◌, Bool, true, false, ◌&&◌, ◌||◌, List, [], ◌∷◌, arith}
use mathlib.Core.Path.{subst}
use arkade_runtime.Base.Tests.{if◌then◌else◌}
use arkade_runtime.Base.Lists.{All}
use arkade_runtime.Base.Int64.{ℤ, pos}
use arkade_runtime.Base.Result.{Result, Error, ok, refuse_passed, from_ok, ok_injective}
use arkade_runtime.Base.Bytes.{Bytes, bytes_eq, bytes_eq_refl}
use arkade_runtime.Ledger.Guards.{int_eq}
use arkade_runtime.Renewal.Evidence.{Codec}
use arkade_runtime.Delegation.Journal.{SpendingDelegation}
use arkade_runtime.Vtxo.State.{vtxo_state_blocks_new_operation}
use arkade_runtime.Vtxo.Record.{VtxoOperation, VtxoOperationInput}
use arkade_runtime.Vtxo.Seal.{verify_vtxo_operation, verify_vtxo_operation_input}
use arkade_runtime.Ledger.Store.{Db}
use arkade_runtime.Delegation.Guards.{hex_encode}
use arkade_runtime.Delegation.Validate.{validate_delegation}
use arkade_runtime.Lanes.Tables.{Journal}
use arkade_runtime.Lanes.Overlap.{
  has_id, add_id, takes_outpoint, active_payments, scan_inputs, reject_delegation_payment_overlap,
}
use arkade_runtime.Lanes.Schedule.{validate_members, reject_overlaps}

-- No active payment of the delegation's vault has an input that the delegation spends.
abbrev pub Spares : SpendingDelegation → VtxoOperation → VtxoOperationInput → Type 0
Spares o r i =
    r.vault_id ≡ o.vault_id
    → vtxo_state_blocks_new_operation r.state ≡ true
    → i.operation_id ≡ r.operation_id
    → ¬ ((hex_encode i.txid ≡ o.input_txid) × (i.vout ≡ pos o.input_vout))

abbrev pub AllSpare : List VtxoOperation → List VtxoOperationInput → SpendingDelegation → Type 0
AllSpare ops inputs o = All (λ (r : VtxoOperation). All (Spares o r) inputs) ops

has_id-add :
    (id x : Bytes) (ids : List Bytes) → has_id id ids ≡ true → has_id id (add_id x ids) ≡ true
unfolding add_id has_id
has_id-add id x ids h = ground arith

has_id-add_self : (id : Bytes) (ids : List Bytes) → has_id id (add_id id ids) ≡ true
unfolding add_id has_id
has_id-add_self id ids = let same = bytes_eq_refl id in ground arith

kept :
    (t : Bool) (id x : Bytes) (ids : List Bytes)
    → has_id id ids ≡ true
    → has_id id (if t then add_id x ids else ids) ≡ true
kept true id x ids h = has_id-add id x ids h
kept false id x ids h = h

added :
    (t : Bool) (id : Bytes) (ids : List Bytes)
    → t ≡ true
    → has_id id (if t then add_id id ids else ids) ≡ true
added true id ids h = has_id-add_self id ids
added false id ids h = cc

chosen : (a b : Bytes) (t : Bool) → a ≡ b → t ≡ true → (bytes_eq a b && t) ≡ true
chosen a b t h k = let same : bytes_eq a b ≡ true = rw h (bytes_eq_refl b) in ground arith

outpoint_test :
    (a b : Bytes) (v : ℤ) (n : ℕ) → a ≡ b → v ≡ pos n → (bytes_eq a b && int_eq (pos n) v) ≡ true
outpoint_test a b v n h k =
    let same : bytes_eq a b ≡ true = rw h (bytes_eq_refl b) in
    let index : int_eq (pos n) v ≡ true = rw k (same_number n) in ground arith
  where
    same_number : (m : ℕ) → int_eq (pos m) (pos m) ≡ true
    same_number m = ground arith

contrary : (a b : Bool) → a ≡ true → b ≡ true → (a && b) ≡ false → ⊥
contrary a b h k e = ground arith

first_false : (a b : Bool) → (a || b) ≡ false → a ≡ false
first_false a b h = ground arith

module _ (hmac : Bytes → Bytes → Bytes) where
  active_payments-has :
      (key vault : Bytes) (ids out : List Bytes) (rs : List VtxoOperation)
      → active_payments hmac key vault ids rs ≡ ok out
      → ((id : Bytes) → has_id id ids ≡ true → has_id id out ≡ true)
        × All
            (λ (r : VtxoOperation).
              r.vault_id ≡ vault
              → vtxo_state_blocks_new_operation r.state ≡ true
              → has_id r.operation_id out ≡ true)
            rs
  unfolding active_payments
  active_payments-has key vault ids out [] h =
      ((λ id k. subst (λ (l : List Bytes). has_id id l ≡ true) (ok_injective h) k), tt)
  active_payments-has key vault ids out (r ∷ rs) h =
      from_ok (verify_vtxo_operation hmac r key) _ h λ _ _ h1.
        let mine = bytes_eq r.vault_id vault && vtxo_state_blocks_new_operation r.state in
        let next = if mine then add_id r.operation_id ids else ids in
        let (more, rest) = active_payments-has key vault next out rs h1 in
        (
          (λ id k. more id (kept mine id r.operation_id ids k)),
          (
            (λ owner blocks.
                more r.operation_id
                  (added mine r.operation_id ids (chosen r.vault_id vault _ owner blocks))),
            rest,
          ),
        )

  scan_inputs-All :
      (key : Bytes) (o : SpendingDelegation) (active found : List Bytes) (overlap : Bool)
      (out : List Bytes × Bool) (is : List VtxoOperationInput)
      → scan_inputs hmac key o active found overlap is ≡ ok out
      → out.1 ≡ false
      → (overlap ≡ false)
        × All
            (λ (i : VtxoOperationInput).
              (has_id i.operation_id active && takes_outpoint o i) ≡ false)
            is
  unfolding scan_inputs
  scan_inputs-All key o active found overlap out [] h none_taken =
      (ap (λ (x : List Bytes × Bool). x.1) (ok_injective h) ∙ none_taken, tt)
  scan_inputs-All key o active found overlap out (i ∷ is) h none_taken =
      from_ok (verify_vtxo_operation_input hmac i key) _ h λ _ _ h1.
        let (before, rest) =
          scan_inputs-All key o active
            (if has_id i.operation_id active then add_id i.operation_id found else found)
            (overlap || (has_id i.operation_id active && takes_outpoint o i)) out is h1
            none_taken in
        (ground arith, (ground arith, rest))

  spares :
      (o : SpendingDelegation) (active : List Bytes) (r : VtxoOperation)
      (is : List VtxoOperationInput)
      → (r.vault_id ≡ o.vault_id
          → vtxo_state_blocks_new_operation r.state ≡ true
          → has_id r.operation_id active ≡ true)
      → All
          (λ (i : VtxoOperationInput). (has_id i.operation_id active && takes_outpoint o i) ≡ false)
          is
      → All (Spares o r) is
  unfolding takes_outpoint
  spares o active r [] known free = tt
  spares o active r (i ∷ is) known free = (
    (λ mine blocks its taken.
        let busy : has_id i.operation_id active ≡ true = rw its (known mine blocks) in
        let hit =
          outpoint_test (hex_encode i.txid) o.input_txid i.vout o.input_vout taken.0 taken.1 in
        contrary _ _ busy hit free.0),
    spares o active r is known free.1,
  )

  all_spare :
      (o : SpendingDelegation) (active : List Bytes) (ops : List VtxoOperation)
      (is : List VtxoOperationInput)
      → All
          (λ (r : VtxoOperation).
            r.vault_id ≡ o.vault_id
            → vtxo_state_blocks_new_operation r.state ≡ true
            → has_id r.operation_id active ≡ true)
          ops
      → All
          (λ (i : VtxoOperationInput). (has_id i.operation_id active && takes_outpoint o i) ≡ false)
          is
      → AllSpare ops is o
  all_spare o active [] is known free = tt
  all_spare o active (r ∷ rs) is known free =
      (spares o active r is known.0 free, all_spare o active rs is known.1 free)

  overlap-AllSpare :
      (key : Bytes) (o : SpendingDelegation) (ops : List VtxoOperation)
      (is : List VtxoOperationInput)
      → reject_delegation_payment_overlap hmac key o ops is ≡ ok tt
      → AllSpare ops is o
  unfolding reject_delegation_payment_overlap
  overlap-AllSpare key o ops is h =
      from_ok (active_payments hmac key o.vault_id [] ops) _ h λ active found h1.
        from_ok (scan_inputs hmac key o active [] false is) _ h1 λ out scanned h2.
          let clear = first_false out.1 _ (refuse_passed _ Error.operation_active h2) in
          all_spare o active ops is (active_payments-has key o.vault_id [] active ops found).1
            (scan_inputs-All key o active [] false out is scanned clear).1

  module _ (c : Codec) (format_time : ℕ → Bytes) (enrolled : Bytes → Result Bytes) where
    pub reject_overlaps-AllSpare :
        (key : Bytes) (db : Db Journal) (os : List SpendingDelegation)
        → reject_overlaps hmac c format_time enrolled key db os ≡ ok tt
        → All (AllSpare db.operations db.inputs) os
    unfolding reject_overlaps
    reject_overlaps-AllSpare key db [] h = tt
    reject_overlaps-AllSpare key db (o ∷ os) h =
        from_ok (reject_delegation_payment_overlap hmac key o db.operations db.inputs) _ h
          λ _ fine h1. (
            overlap-AllSpare key o db.operations db.inputs fine,
            reject_overlaps-AllSpare key db os h1,
          )

    pub validate_members-All :
        (os : List SpendingDelegation)
        → validate_members hmac c format_time enrolled os ≡ ok tt
        → All (λ (o : SpendingDelegation). validate_delegation c o ≡ ok tt) os
    unfolding validate_members
    validate_members-All [] h = tt
    validate_members-All (o ∷ os) h =
        from_ok (validate_delegation c o) _ h λ _ fine h1. (fine, validate_members-All os h1)
