-- ===== src/Ledger/Reach.antt =====
-- The life of the policy store of internal/policy/vtxo_ledger.go as a relation: reservations,
-- transitions and signed commits in any order, by any vaults.
use arkade_runtime.Base.{ℕ, ◌≡◌, List, [], arith}
use arkade_runtime.Base.Int64.{ℤ}
use arkade_runtime.Base.Result.{ok}
use arkade_runtime.Base.Bytes.{Bytes}
use arkade_runtime.Vtxo.State.{VtxoState}
use arkade_runtime.Vtxo.Record.{VtxoOperation, VtxoOperationInput}
use arkade_runtime.Ledger.Store.{Platform, Db}
use arkade_runtime.Ledger.Reserve.{Clock, reserve_rows}
use arkade_runtime.Ledger.Exclusive.{active_count}
use arkade_runtime.Ledger.Transition.{transition_vtxo_operation, commit_signed_vtxo_operation, Swap}
use arkade_runtime.Ledger.Swap.{key_count}
use arkade_runtime.Ledger.Lifecycle.{
  WellFormed, reserve-WellFormed, transition-WellFormed, commit-WellFormed,
}

module _ (p : Platform) where
  -- What may happen to the store: an accepted reservation, a transition or a commit, swapped or not,
  -- and any change of the other tables.
  pub data Step : Db p.Lanes → Db p.Lanes → Type 0 where
    reserving :
        (k : Bytes) (clock : Clock) (rec : VtxoOperation) (inputs : List VtxoOperationInput)
        (limit : ℤ) (db db' : Db p.Lanes)
        → reserve_rows p k clock rec inputs limit db ≡ ok db'
        → Step db db'
    transitioning :
        (k : Bytes) (expected : VtxoState) (rec : VtxoOperation) (db : Db p.Lanes) (out : Swap p)
        → transition_vtxo_operation p k expected rec db ≡ ok out
        → Step db out.0
    committing :
        (k credential : Bytes) (count : ℕ) (rec : VtxoOperation) (db : Db p.Lanes) (out : Swap p)
        → commit_signed_vtxo_operation p k rec credential count db ≡ ok out
        → Step db out.0
    elsewhere : (db : Db p.Lanes) (lanes : p.Lanes) → Step db (record db { lanes = lanes })

  -- The stores that steps reach from one without operations.
  pub data Reachable : Db p.Lanes → Type 0 where
    start : (db : Db p.Lanes) → db.operations ≡ [] → Reachable db
    step : (db db' : Db p.Lanes) → Reachable db → Step db db' → Reachable db'

  Step-WellFormed :
      (db db' : Db p.Lanes) → Step db db' → WellFormed db.operations → WellFormed db'.operations
  Step-WellFormed _ _ (reserving k clock rec inputs limit db db' h) w =
      reserve-WellFormed p k clock rec inputs limit db db' w h
  Step-WellFormed _ _ (transitioning k expected rec db out h) w =
      transition-WellFormed p k expected rec db out w h
  Step-WellFormed _ _ (committing k credential count rec db out h) w =
      commit-WellFormed p k credential count rec db out w h
  Step-WellFormed _ _ (elsewhere db lanes) w = w

  empty-WellFormed : (ops : List VtxoOperation) → ops ≡ [] → WellFormed ops
  unfolding key_count active_count
  empty-WellFormed ops e = record {
    keyed = λ id. rw e (omega arith);
    alone = λ vault. rw e (omega arith);
  }

  -- In every store that reservations, transitions and signed commits reach from one without
  -- operations, whatever their order, their vaults and their outcomes, an operation id stands
  -- for at most one row and no vault has two active payments.
  pub Reachable-WellFormed : (db : Db p.Lanes) → Reachable db → WellFormed db.operations
  Reachable-WellFormed _ (start db e) = empty-WellFormed db.operations e
  Reachable-WellFormed _ (step db db' r s) = Step-WellFormed db db' s (Reachable-WellFormed db r)
