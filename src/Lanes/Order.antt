-- ===== src/Lanes/Order.antt =====
-- The order of a delegation's events under AdvanceSpendingDelegation of
-- internal/policy/spending_delegation.go.
use arkade_runtime.Base.{
  ℕ, ◌≡◌, refl, sym, ◌∙◌, true, false, ◌||◌, ◌&&◌, not, List, [], ◌∷◌, arith, inl, inr,
}
use arkade_runtime.Base.Tests.{Bool-cases}
use arkade_runtime.Base.Int64.{ℤ, ltb_ℤ}
use arkade_runtime.Base.Result.{Result, ok, refuse-eq-ok}
use arkade_runtime.Base.Bytes.{Bytes}
use arkade_runtime.Ledger.Store.{Db}
use arkade_runtime.Renewal.Evidence.{Codec, seconds}
use arkade_runtime.Delegation.Journal.{
  DelegationPhase, claimed, register_dispatched, register_result, final_authorized, cleanup_pending,
  cleanup_result, invalidated, cancelled, expired, rejected, delegation_phase_eq,
  delegation_phase_eq_sound, SpendingDelegation, SpendingDelegationEvent,
  SpendingDelegationSnapshot, has_event, delegation_terminal, is_cleanup,
}
use arkade_runtime.Delegation.Guards.{is_nil}
use arkade_runtime.Lanes.Tables.{Journal}
use arkade_runtime.Lanes.Advance.{check_delegation_phase, check_claim}
use arkade_runtime.Lanes.Chains.{
  Needs-cons, Bars-cons, no_events, false-true, or_right, chain_needs, cleanup_needs, expired_needs,
  rejected_needs, unclaimed_needs, open_parts, is_abandoned, delegation_with, DelegationHistory,
  advanced, Chained,
}

-- An abandoned delegation takes no final authorization.
abandoned_needs :
    (e : SpendingDelegationEvent) (es : List SpendingDelegationEvent)
    → is_abandoned e es ≡ false
    → e.phase ≡ final_authorized
    → has_event cleanup_pending es ≡ false
unfolding is_cleanup delegation_phase_eq
abandoned_needs e es h is =
    let h' : (has_event cleanup_pending es && true && true) ≡ false = rw is at h in ground arith

unheard :
    (ph : DelegationPhase) (e : SpendingDelegationEvent) (es : List SpendingDelegationEvent)
    → has_event ph es ≡ false
    → delegation_phase_eq e.phase ph ≡ false
    → has_event ph (e ∷ es) ≡ false
unfolding has_event
unheard ph e es old new = rw new old

module _ (hmac : Bytes → Bytes → Bytes) (c : Codec) (format_time : ℕ → Bytes)
    (o : SpendingDelegation) where
  Chained-nil : Chained hmac c format_time o []
  unfolding has_event
  Chained-nil = record {
    in_order = λ p q prior h. cc;
    final_or_cleanup = λ h. cc;
    final_or_expired = λ h. cc;
    expired_cleared = λ h. cc;
    rejected_dispatched = λ h. cc;
    rejected_or_registered = λ h. cc;
    cancelled_or_claimed = λ h. cc;
    invalidated_or_claimed = λ h. cc;
  }

  -- An expired delegation that was dispatched has been cleaned up: with one more event.
  expired_cleared-cons :
      (e : SpendingDelegationEvent) (es : List SpendingDelegationEvent)
      → has_event expired es ≡ false
      → (e.phase ≡ expired
          → has_event register_dispatched es ≡ true
          → has_event cleanup_result es ≡ true)
      → has_event expired (e ∷ es) ≡ true
      → has_event register_dispatched (e ∷ es) ≡ true
      → has_event cleanup_result (e ∷ es) ≡ true
  unfolding has_event delegation_phase_eq
  expired_cleared-cons e es unexpired new x d =
      elim (Bool-cases (delegation_phase_eq e.phase expired)) [
        | inl here ↦
            let is = delegation_phase_eq_sound e.phase expired here in
            or_right (delegation_phase_eq e.phase cleanup_result) (new is (rw is at d))
        | inr miss ↦ absurd (false-true (sym unexpired ∙ rw miss at x))
      ]

  check-Chained :
      (e : SpendingDelegationEvent) (es : List SpendingDelegationEvent) (now : ℕ)
      (claim : Result (Unit {0}))
      → Chained hmac c format_time o es
      → (e.phase ≡ claimed → is_nil es ≡ true)
      → delegation_terminal es ≡ false
      → is_abandoned e es ≡ false
      → check_delegation_phase (delegation_with hmac c format_time o es) now claim e.phase ≡ ok tt
      → Chained hmac c format_time o (e ∷ es)
  unfolding delegation_phase_eq
  check-Chained e es now claim w first t a h =
      let s : SpendingDelegationSnapshot = delegation_with hmac c format_time o es in
      let (unconfirmed, valid, kept, unexpired, able, accepted) = open_parts es t in
      record {
        in_order = λ p q prior.
            Needs-cons p q e es (λ is. chain_needs s now claim p q prior (rw is at h))
              (w.in_order p q prior);
        final_or_cleanup =
            Bars-cons final_authorized cleanup_pending e es refl (λ is. abandoned_needs e es a is)
              (λ is. cleanup_needs s now claim (rw is at h)) w.final_or_cleanup;
        final_or_expired =
            Bars-cons final_authorized expired e es refl (λ is. unexpired)
              (λ is. (expired_needs s now claim (rw is at h)).0) w.final_or_expired;
        expired_cleared =
            expired_cleared-cons e es unexpired (λ is. (expired_needs s now claim (rw is at h)).1);
        rejected_dispatched =
            Needs-cons rejected register_dispatched e es
              (λ is. (rejected_needs s now claim (rw is at h)).0) w.rejected_dispatched;
        rejected_or_registered =
            Bars-cons rejected register_result e es refl
              (λ is. (rejected_needs s now claim (rw is at h)).1) (λ is. accepted)
              w.rejected_or_registered;
        cancelled_or_claimed =
            Bars-cons cancelled claimed e es refl
              (λ is. no_events claimed es (unclaimed_needs s now claim e.phase (inl is) h))
              (λ is. kept) w.cancelled_or_claimed;
        invalidated_or_claimed =
            Bars-cons invalidated claimed e es refl
              (λ is. no_events claimed es (unclaimed_needs s now claim e.phase (inr is) h))
              (λ is. valid) w.invalidated_or_claimed;
      }

  claim_first :
      (key : Bytes) (now : ℕ) (s : SpendingDelegationSnapshot) (allowance : ℤ) (db : Db Journal)
      → check_claim hmac c format_time key now s allowance db ≡ ok tt
      → is_nil s.events ≡ true
  unfolding check_claim
  claim_first key now s allowance db h =
      let (first, _) =
        refuse-eq-ok
          (not (is_nil s.events)
            || ltb_ℤ (seconds now) s.operation.valid_at
            || not (ltb_ℤ (seconds now) s.operation.expires_at))
          _ _ h in
      ground arith

  -- In every history of a delegation that AdvanceSpendingDelegation accepts event by event,
  -- whatever the times and databases: each phase of the table of predecessors is recorded only
  -- after its predecessor; a final authorization occurs together neither with a pending cleanup
  -- nor with expiry; an expired delegation that was dispatched has a cleanup result; a rejected
  -- one was dispatched and has no registration result; a cancelled or invalidated one was never
  -- claimed.
  pub DelegationHistory-Chained :
      (es : List SpendingDelegationEvent)
      → DelegationHistory hmac c format_time o es
      → Chained hmac c format_time o es
  unfolding check_delegation_phase
  DelegationHistory-Chained [] _ = Chained-nil
  DelegationHistory-Chained _ (advanced e es key now allowance db hist new t a h) =
      check-Chained e es now _ (DelegationHistory-Chained es hist)
        (λ is.
          claim_first key now (delegation_with hmac c format_time o es) allowance db (rw is at h))
        t a h
