-- ===== src/Lanes/Lives.antt =====
-- Every delegation of a reachable store lived by the rules of AdvanceSpendingDelegation in
-- internal/policy/spending_delegation.go.
use arkade_runtime.Base.{
  ℕ, ◌≡◌, ◌≢◌, refl, sym, ap, ◌∙◌, true, false, none, some, List, [], ◌∷◌, ◌++◌, map, inl, inr,
}
use mathlib.Core.Path.{subst}
use arkade_runtime.Base.Tests.{Bool-cases}
use arkade_runtime.Base.Lists.{All}
use arkade_runtime.Base.Int64.{ℤ, pos}
use arkade_runtime.Base.Result.{Result, ok, from_ok, ok_injective}
use arkade_runtime.Base.Bytes.{Bytes, bytes_eq}
use arkade_runtime.Vtxo.Record.{VtxoOperation, VtxoOperationInput}
use arkade_runtime.Ledger.Store.{Db}
use arkade_runtime.Ledger.Allowance.{integrity_key_copy}
use arkade_runtime.Ledger.Reserve.{Clock, reserve_rows}
use arkade_runtime.Ledger.Stages.{reserve_rows-Stages}
use arkade_runtime.Ledger.Exclusive.{insert_operation_lem}
use arkade_runtime.Renewal.Evidence.{Codec}
use arkade_runtime.Delegation.Journal.{
  DelegationPhase, cleanup_pending, delegation_phase_eq, SpendingDelegation,
  SpendingDelegationEvent, SpendingDelegationSnapshot, has_event, find_event, delegation_terminal,
}
use arkade_runtime.Delegation.Guards.{
  is_nil, with_event, invalidation, invalidate_one, invalidate_armed_delegations,
}
use arkade_runtime.Lanes.Tables.{Journal, tables}
use arkade_runtime.Lanes.Advance.{
  find_delegation, insert_delegation_event, check_delegation_phase, advance_rows,
}
use arkade_runtime.Lanes.Schedule.{armed_snapshot, schedule_rows}
use arkade_runtime.Lanes.Chains.{DelegationHistory, armed, advanced, Chained}
use arkade_runtime.Lanes.Order.{DelegationHistory-Chained}
use arkade_runtime.Lanes.Lawful.{invalidate_one-cases}
use arkade_runtime.Lanes.Quiet.{abort_expired-lanes, transition-Calmer, commit-Calmer}
use arkade_runtime.Lanes.Guarded.{advance_rows-cases}
use arkade_runtime.Lanes.Passed.{schedule_rows-Passed}
use arkade_runtime.Lanes.Single.{reserve_renewal_delegations}
use arkade_runtime.Lanes.Reach.{
  LaneStep, paying, moving, signing, batching, recording, scheduling, advancing, elsewhere,
  LaneReachable, start, step,
}

some-none {ℓ} : {A : Type ℓ} {a : A} → some a ≢ none
some-none h = cc

unseen_event :
    (ph : DelegationPhase) (es : List SpendingDelegationEvent)
    → find_event ph es ≡ none
    → has_event ph es ≡ false
unfolding find_event has_event
unseen_event ph [] h = refl
unseen_event ph (e ∷ es) h = elim (Bool-cases (delegation_phase_eq e.phase ph)) [
  | inl here ↦ absurd (some-none (rw here at h))
  | inr miss ↦ rw miss (unseen_event ph es (rw miss at h))
]

module _ (hmac : Bytes → Bytes → Bytes) (c : Codec) (format_time : ℕ → Bytes) where
  abbrev pub Lived : SpendingDelegationSnapshot → Type 0
  Lived s = DelegationHistory hmac c format_time s.operation s.events

  abbrev pub InOrder : SpendingDelegationSnapshot → Type 0
  InOrder s = Chained hmac c format_time s.operation s.events

  insert-Lived :
      (e : SpendingDelegationEvent) (s : SpendingDelegationSnapshot)
      (ds : List SpendingDelegationSnapshot)
      → All Lived ds
      → find_delegation e.operation_id ds ≡ ok s
      → (Lived s → Lived (with_event e s))
      → All Lived (insert_delegation_event e ds)
  unfolding find_delegation insert_delegation_event
  insert-Lived e s [] w h next = tt
  insert-Lived e s (x ∷ xs) w h next =
      elim (Bool-cases (bytes_eq x.operation.operation_id e.operation_id)) [
        | inl here ↦
            let is_s : x ≡ s = ok_injective (rw here at h) in
            rw here (
              subst (λ (y : SpendingDelegationSnapshot). Lived (with_event e y)) (sym is_s)
                  (next (subst Lived is_s w.0)),
              w.1,
            )
        | inr miss ↦ rw miss (w.0, insert-Lived e s xs w.1 (rw miss at h) next)
      ]

  advance-Lived :
      (key : Bytes) (now : ℕ) (e : SpendingDelegationEvent) (allowance : ℤ) (db db' : Db Journal)
      (out : SpendingDelegationSnapshot)
      → All Lived db.lanes.delegations
      → advance_rows hmac c format_time key now e allowance db ≡ ok (db', out)
      → All Lived db'.lanes.delegations
  advance-Lived key now e allowance db db' out w h =
      let (s, found, how) =
        advance_rows-cases hmac c format_time key now e allowance db db' out h in
      elim how [
        | inl (same, _, _) ↦ subst (λ (x : Db Journal). All Lived x.lanes.delegations) (sym same) w
        | inr a ↦
            subst (λ (x : Db Journal). All Lived x.lanes.delegations) (sym a.rows)
              (insert-Lived e s db.lanes.delegations w found (λ lived.
                advanced e s.events key now allowance db lived
                  (unseen_event e.phase s.events a.unseen) a.live a.not_abandoned a.checked))
      ]

  nil_lives :
      (es : List SpendingDelegationEvent)
      → is_nil es ≡ true
      → (delegation_terminal es ≡ false) × ((ph : DelegationPhase) → has_event ph es ≡ false)
  unfolding delegation_terminal has_event
  nil_lives [] h = (refl, λ ph. refl)
  nil_lives (e ∷ es) h = cc

  -- A payment's invalidation is an event that the state machine allows.
  invalidation-Lived :
      (s : SpendingDelegationSnapshot) (stamp : Bytes) (db : Db Journal)
      → is_nil s.events ≡ true
      → Lived s
      → Lived (with_event (invalidation s.operation stamp) s)
  unfolding check_delegation_phase
  invalidation-Lived s stamp db fresh w =
      let (live, silent) = nil_lives s.events fresh in
      advanced (invalidation s.operation stamp) s.events [] 0 (pos 0) db w (silent _) live
        (rw (silent cleanup_pending) refl) (rw fresh refl)

  invalidate_one-Lived :
      (vault : Bytes) (inputs : List VtxoOperationInput) (stamp : Bytes) (db : Db Journal)
      (s s' : SpendingDelegationSnapshot)
      → invalidate_one c vault inputs stamp s ≡ ok s'
      → Lived s
      → Lived s'
  invalidate_one-Lived vault inputs stamp db s s' h w =
      elim (invalidate_one-cases c vault inputs stamp s s' h) [
        | inl (same, _) ↦ subst Lived same w
        | inr (more, fresh, _) ↦ subst Lived more (invalidation-Lived s stamp db fresh w)
      ]

  invalidate_armed-Lived :
      (vault : Bytes) (inputs : List VtxoOperationInput) (stamp : Bytes) (db : Db Journal)
      (ds ds' : List SpendingDelegationSnapshot)
      → invalidate_armed_delegations c vault inputs stamp ds ≡ ok ds'
      → All Lived ds
      → All Lived ds'
  unfolding invalidate_armed_delegations
  invalidate_armed-Lived vault inputs stamp db [] ds' h w = subst (All Lived) (ok_injective h) tt
  invalidate_armed-Lived vault inputs stamp db (s ∷ ss) ds' h w =
      from_ok (invalidate_one c vault inputs stamp s) _ h λ s' e h1.
        from_ok (invalidate_armed_delegations c vault inputs stamp ss) _ h1 λ ss' e2 h2.
          subst (All Lived) (ok_injective h2) (
            invalidate_one-Lived vault inputs stamp db s s' e w.0,
            invalidate_armed-Lived vault inputs stamp db ss ss' e2 w.1,
          )

  reserve-Lived :
      (k : Bytes) (clock : Clock) (rec : VtxoOperation) (inputs : List VtxoOperationInput)
      (limit : ℤ) (db db' : Db Journal)
      → reserve_rows (tables hmac c format_time) k clock rec inputs limit db ≡ ok db'
      → All Lived db.lanes.delegations
      → All Lived db'.lanes.delegations
  reserve-Lived k clock rec inputs limit db db' h w =
      let p = tables hmac c format_time in
      let s = reserve_rows-Stages p k clock rec inputs limit db db' h in
      let (_, filled) = insert_operation_lem p s.sealed _ s.filled s.inserts in
      let lanes : s.lanes ≡ db'.lanes =
        sym (ap (λ (x : Db Journal). x.lanes) s.result ∙ ap (λ (x : Db Journal). x.lanes) filled) in
      let before = abort_expired-lanes p k rec.vault_id clock.expiry db s.swept s.sweep in
      from_ok (integrity_key_copy k) _ s.freed λ _ _ freed.
        from_ok
          (invalidate_armed_delegations c rec.vault_id inputs (format_time clock.allowance)
            s.swept.lanes.delegations)
          _ freed
          λ ds e made.
            subst (λ (x : Journal). All Lived x.delegations) (ok_injective made ∙ lanes)
              (invalidate_armed-Lived rec.vault_id inputs (format_time clock.allowance) db
                s.swept.lanes.delegations ds e
                (subst (λ (x : Journal). All Lived x.delegations) before w))

  armed-Lived :
      (os : List SpendingDelegation) (ds : List SpendingDelegationSnapshot)
      → All Lived ds
      → All Lived (map armed_snapshot os ++ ds)
  armed-Lived [] ds w = w
  armed-Lived (o ∷ os) ds w = (armed, armed-Lived os ds w)

  All-InOrder : (ds : List SpendingDelegationSnapshot) → All Lived ds → All InOrder ds
  All-InOrder [] w = tt
  All-InOrder (s ∷ ss) w =
      (DelegationHistory-Chained hmac c format_time s.operation s.events w.0, All-InOrder ss w.1)

  module _ (enrolled : Bytes → Result Bytes) where
    schedule-Lived :
        (key credential : Bytes) (count : ℕ) (head : SpendingDelegation)
        (members : List SpendingDelegation) (db db' : Db Journal)
        (out : List SpendingDelegationSnapshot)
        → schedule_rows hmac c format_time enrolled key credential count head members db
          ≡ ok (db', out)
        → All Lived db.lanes.delegations
        → All Lived db'.lanes.delegations
    schedule-Lived key credential count head members db db' out h w =
        elim (schedule_rows-Passed hmac c format_time enrolled key credential count head members db
          db' out h) [
            | inl (same, _, _) ↦
                subst (λ (x : Db Journal). All Lived x.lanes.delegations) (sym same) w
            | inr s ↦
                subst (λ (x : Db Journal). All Lived x.lanes.delegations) (sym s.stored)
                  (armed-Lived members db.lanes.delegations w)
          ]

    LaneStep-Lived :
        (db db' : Db Journal)
        → LaneStep hmac c format_time enrolled db db'
        → All Lived db.lanes.delegations
        → All Lived db'.lanes.delegations
    LaneStep-Lived _ _ (paying k clock rec inputs limit db db' h) w =
        reserve-Lived k clock rec inputs limit db db' h w
    LaneStep-Lived _ _ (moving k expected rec db out h) w =
        subst (λ (x : Journal). All Lived x.delegations)
          (transition-Calmer (tables hmac c format_time) k expected rec db out h).1 w
    LaneStep-Lived _ _ (signing k credential count rec db out h) w =
        subst (λ (x : Journal). All Lived x.delegations)
          (commit-Calmer (tables hmac c format_time) k credential count rec db out h).1 w
    LaneStep-Lived _ _ (batching key now r allowance db db' out h) w =
        subst (All Lived)
          (reserve_renewal_delegations hmac c format_time key now r allowance db db' out h) w
    LaneStep-Lived _ _ (recording key now stamp e credential count db out h) w = w
    LaneStep-Lived _ _ (scheduling key credential count head members db db' out h) w =
        schedule-Lived key credential count head members db db' out h w
    LaneStep-Lived _ _ (advancing key now e allowance db db' out h) w =
        advance-Lived key now e allowance db db' out w h
    LaneStep-Lived _ _ (elsewhere db n) w = w

    LaneReachable-Lived :
        (db : Db Journal)
        → LaneReachable hmac c format_time enrolled db
        → All Lived db.lanes.delegations
    LaneReachable-Lived _ (start db a b d) = subst (All Lived) (sym d) tt
    LaneReachable-Lived _ (step db db' r s) = LaneStep-Lived db db' s (LaneReachable-Lived db r)

    -- In every store that payments, payment batches and delegations reach from one without
    -- operations, the events of every delegation are in order: each phase of the table of
    -- predecessors is recorded together with its predecessor; a final authorization occurs
    -- together neither with a pending cleanup nor with expiry; an expired delegation that was
    -- dispatched has a cleanup result; a rejected one was dispatched and has no registration
    -- result; a cancelled one, and one that a payment invalidated, was never claimed.
    pub LaneReachable-InOrder :
        (db : Db Journal)
        → LaneReachable hmac c format_time enrolled db
        → All InOrder db.lanes.delegations
    LaneReachable-InOrder db r = All-InOrder db.lanes.delegations (LaneReachable-Lived db r)
