-- ===== src/Ledger/Durable.antt =====
-- What ReserveVtxoOperation of internal/policy/vtxo_ledger.go and AttachMonotonic of
-- internal/policy/ledger.go leave behind, on any disk and with any COMMIT.
use arkade_runtime.Base.{
  ℕ, ◌<◌, ◌≤◌, ◌≡◌, ◌≢◌, refl, sym, ap, ◌∙◌, Bool, true, false, Option, some, List, arith, ◌⊎◌, inl,
  inr,
}
use arkade_runtime.Base.Int64.{ℤ, uint64_mod}
use arkade_runtime.Base.Result.{Result, Error, ok, err}
use arkade_runtime.Base.Bytes.{Bytes}
use arkade_runtime.Vtxo.Record.{VtxoOperation, VtxoOperationInput}
use arkade_runtime.Sequence.Observe.{Disk, Monotonic}
use arkade_runtime.Sequence.Laws.{
  IsTag, Holds, observe_accepts, observe_never_falls, observe_refuses_rollback,
}
use arkade_runtime.Sequence.Base.{current_economic_sequence}
use arkade_runtime.Ledger.Store.{Platform, Db, IsLawful}
use arkade_runtime.Ledger.Reserve.{
  Ledger, State, Clock, observe_counted, observe_economic_outflows, settle, finish, reserve_rows,
  reserve_vtxo_operation,
}
use arkade_runtime.Ledger.Outflows.{
  attach_monotonic, reserve_rows_counts, current_economic_sequence_bound, sequence_lower,
}

module _ (p : Platform) where
  -- What becomes of the database and of the count in the file.
  pub record Outcome (l : Ledger) (m : Monotonic) (s s' : State p.Lanes)
      (result : Result (Unit {0})) (rows : Result (Db p.Lanes)) : Type 0 where
    pub way :
        ((result ≡ ok tt)
          × (rows ≡ ok s'.db)
          × ((n : ℕ) × (current_economic_sequence p l.network l.integrity_key s'.db ≡ ok n)
              × Holds p.hmac m.key s'.file n))
        ⊎ ((result ≢ ok tt) × (s'.db ≡ s.db))
    pub never_falls :
        (k : ℕ) → Holds p.hmac m.key s.file k → (j : ℕ) × Holds p.hmac m.key s'.file j × (k ≤ j)

  settle_parts :
      (commits : Bool) (s : State p.Lanes) (db : Db p.Lanes) (file : Option Bytes)
      (r : Result (Unit {0}))
      → ((settle p commits s db (file, r)).0.file ≡ file)
        × (((settle p commits s db (file, r)).1 ≡ ok tt)
              × ((settle p commits s db (file, r)).0.db ≡ db)
              × (r ≡ ok tt)
            ⊎ ((settle p commits s db (file, r)).1 ≢ ok tt)
              × ((settle p commits s db (file, r)).0.db ≡ s.db))
  unfolding settle
  settle_parts commits s db file (err e) = (refl, inr (λ h. cc, refl))
  settle_parts true s db file (ok tt) = (refl, inl (refl, refl, refl))
  settle_parts false s db file (ok u) = (refl, inr (λ h. cc, refl))

  observed_parts :
      (m : Monotonic) (disk : Disk) (file : Option Bytes) (r : Result ℕ)
      → IsTag p.hmac
      → ((n : ℕ) → r ≡ ok n → n < uint64_mod)
      → ((observe_counted p (some m) disk file r).1 ≡ ok tt
          → (n : ℕ) × (r ≡ ok n) × Holds p.hmac m.key (observe_counted p (some m) disk file r).0 n)
        × ((k : ℕ)
            → Holds p.hmac m.key file k
            → (j : ℕ) × Holds p.hmac m.key (observe_counted p (some m) disk file r).0 j × (k ≤ j))
  unfolding observe_counted
  observed_parts m disk file (err e) tag small =
      (λ h. absurd (ground arith), λ k h. (k, h, omega arith))
  observed_parts m disk file (ok n) tag small = (
    λ h. (n, refl, observe_accepts p.hmac tag m disk file n (small n refl) h),
    λ k h. observe_never_falls p.hmac tag m disk file n k (small n refl) h,
  )

  observe_economic_outflows_eq :
      (l : Ledger) (m : Monotonic) (disk : Disk) (file : Option Bytes) (db : Db p.Lanes)
      → l.monotonic ≡ some m
      → observe_economic_outflows p l disk file db
        ≡ observe_counted p
            (some m)
            disk
            file
            (current_economic_sequence p l.network l.integrity_key db)
  unfolding observe_economic_outflows
  observe_economic_outflows_eq l m disk file db e = rw e refl

  settle-Outcome :
      (commits : Bool) (l : Ledger) (m : Monotonic) (disk : Disk) (s : State p.Lanes)
      (db : Db p.Lanes)
      → IsTag p.hmac
      → Outcome l m s
          (settle p commits s db (
            observe_counted p
              (some m)
              disk
              s.file
              (current_economic_sequence p l.network l.integrity_key db))).0
          (settle p commits s db (
            observe_counted p
              (some m)
              disk
              s.file
              (current_economic_sequence p l.network l.integrity_key db))).1
          (ok db)
  settle-Outcome commits l m disk s db tag =
      let seen =
        observe_counted p (some m) disk s.file
          (current_economic_sequence p l.network l.integrity_key db) in
      let (file, way) = settle_parts commits s db seen.0 seen.1 in
      let (counts, falls) =
        observed_parts m disk s.file (current_economic_sequence p l.network l.integrity_key db) tag
          (current_economic_sequence_bound p l.network l.integrity_key db) in
      record {
        way = elim way [
          | inl (good, here, passed) ↦
              let (n, is, holds) = counts passed in
              inl (
                good,
                ap ok (sym here),
                (
                  n,
                  ap (current_economic_sequence p l.network l.integrity_key) here ∙ is,
                  rw file holds,
                ),
              )
          | inr (bad, kept) ↦ inr (bad, kept)
        ];
        never_falls = λ k holds. rw file (falls k holds);
      }

  finish-Outcome :
      (l : Ledger) (m : Monotonic) (disk : Disk) (commits : Bool) (s : State p.Lanes)
      (rows : Result (Db p.Lanes))
      → IsTag p.hmac
      → l.monotonic ≡ some m
      → Outcome l m s (finish p l disk commits s rows).0 (finish p l disk commits s rows).1 rows
  finish-Outcome l m disk commits s (err e) tag attached = record {
    way = inr (λ h. cc, refl);
    never_falls = λ k h. (k, h, omega arith);
  }
  finish-Outcome l m disk commits s (ok db) tag attached =
      rw (observe_economic_outflows_eq l m disk s.file db attached)
        (settle-Outcome commits l m disk s db tag)

  -- ReserveVtxoOperation of a ledger with an external sequence and a hash of 32 bytes, on any
  -- disk, whether or not COMMIT succeeds. If it returns no error, the database is the one that
  -- its checks and inserts made, and the file holds the sequence of exactly that database; if
  -- it returns an error, the database is unchanged; and a count that the file held never falls.
  pub reserve_vtxo_operation-Outcome :
      (l : Ledger) (m : Monotonic) (clock : Clock) (disk : Disk) (commits : Bool)
      (rec : VtxoOperation) (inputs : List VtxoOperationInput) (limit : ℤ) (s : State p.Lanes)
      → IsTag p.hmac
      → l.monotonic ≡ some m
      → Outcome l m s
          (reserve_vtxo_operation p l clock disk commits rec inputs limit s).0
          (reserve_vtxo_operation p l clock disk commits rec inputs limit s).1
          (reserve_rows p l.integrity_key clock rec inputs limit s.db)
  unfolding reserve_vtxo_operation
  reserve_vtxo_operation-Outcome l m clock disk commits rec inputs limit s tag attached =
      finish-Outcome l m disk commits s (reserve_rows p l.integrity_key clock rec inputs limit s.db)
        tag attached

  -- A backup that was taken just before a reservation that returned no error is refused when it
  -- is brought back, where the hash has 32 bytes, the tables of the other parts are append-only
  -- and the file can be read: AttachMonotonic on the earlier database, beside the file as it is
  -- now, returns the error for a sequence that is behind, and leaves the file alone.
  pub attach_refuses_backup :
      (law : IsLawful p) (l : Ledger) (m : Monotonic) (clock : Clock) (disk disk' : Disk)
      (commits : Bool) (rec : VtxoOperation) (inputs : List VtxoOperationInput) (limit : ℤ)
      (s : State p.Lanes)
      → IsTag p.hmac
      → l.monotonic ≡ some m
      → disk'.readable ≡ true
      → (reserve_vtxo_operation p l clock disk commits rec inputs limit s).1 ≡ ok tt
      → attach_monotonic p l m disk'
          (reserve_vtxo_operation p l clock disk commits rec inputs limit s).0.file
          s.db
        ≡ (
          (reserve_vtxo_operation p l clock disk commits rec inputs limit s).0.file,
          err Error.sequence_behind,
        )
  unfolding attach_monotonic observe_economic_outflows observe_counted
  attach_refuses_backup law l m clock disk disk' commits rec inputs limit s tag attached readable
        h =
      let out =
        reserve_vtxo_operation-Outcome l m clock disk commits rec inputs limit s tag attached in
      elim out.way [
        | inr (bad, _) ↦ absurd (bad h)
        | inl (_, rows, (n, now, holds)) ↦
            let (bases, fewer) =
              reserve_rows_counts p law l.integrity_key clock rec inputs limit s.db _ rows in
            let (j, before, less) =
              sequence_lower p l.network l.integrity_key s.db _ n bases fewer now in
            rw before (
              observe_refuses_rollback p.hmac tag m disk'
                (reserve_vtxo_operation p l clock disk commits rec inputs limit s).0.file j n
                readable holds less)
      ]
