-- ===== src/Lanes/Chains.antt =====
-- What the events of a delegation say of one another: the transitions of AdvanceSpendingDelegation in
-- internal/policy/spending_delegation.go.
use arkade_runtime.Base.{
  ℕ, ◌≡◌, ◌≢◌, ◌⊎◌, refl, sym, ◌∙◌, Bool, true, false, ◌&&◌, ◌||◌, not, some, List, [], ◌∷◌, arith,
  inl, inr,
}
use arkade_runtime.Base.Tests.{Bool-cases}
use arkade_runtime.Base.Int64.{ℤ}
use arkade_runtime.Base.Result.{Result, ok}
use arkade_runtime.Base.Bytes.{Bytes}
use arkade_runtime.Ledger.Store.{Db}
use arkade_runtime.Renewal.Evidence.{Codec}
use arkade_runtime.Delegation.Journal.{
  DelegationPhase, claimed, register_dispatched, register_result, final_authorized, cleanup_pending,
  cleanup_result, confirmed, invalidated, cancelled, expired, needs_authorization, rejected,
  delegation_phase_eq, delegation_phase_eq_sound, SpendingDelegation, SpendingDelegationEvent,
  SpendingDelegationSnapshot, has_event, delegation_terminal, is_cleanup,
  valid_delegation_stream_phase,
}
use arkade_runtime.Delegation.Guards.{is_nil}
use arkade_runtime.Lanes.Tables.{Journal}
use arkade_runtime.Lanes.Advance.{
  predecessor, check_delegation_phase, check_default, check_lapse, check_claim,
}

pub or_right : (a : Bool) {b : Bool} → b ≡ true → (a || b) ≡ true
or_right true h = refl
or_right false h = h

pub false-true : false ≢ true
false-true h = cc

-- The phases that a recorded phase needs or rules out.
abbrev pub Needs : DelegationPhase → DelegationPhase → List SpendingDelegationEvent → Type 0
Needs a b es = has_event a es ≡ true → has_event b es ≡ true

abbrev pub Bars : DelegationPhase → DelegationPhase → List SpendingDelegationEvent → Type 0
Bars a b es = has_event a es ≡ true → has_event b es ≡ false

pub Needs-cons :
    (a b : DelegationPhase) (e : SpendingDelegationEvent) (es : List SpendingDelegationEvent)
    → (e.phase ≡ a → has_event b es ≡ true)
    → Needs a b es
    → Needs a b (e ∷ es)
unfolding has_event
Needs-cons a b e es new old h = elim (Bool-cases (delegation_phase_eq e.phase a)) [
  | inl now ↦
      or_right (delegation_phase_eq e.phase b) (new (delegation_phase_eq_sound e.phase a now))
  | inr before ↦ or_right (delegation_phase_eq e.phase b) (old (rw before at h))
]

pub Bars-cons :
    (a b : DelegationPhase) (e : SpendingDelegationEvent) (es : List SpendingDelegationEvent)
    → delegation_phase_eq a b ≡ false
    → (e.phase ≡ a → has_event b es ≡ false)
    → (e.phase ≡ b → has_event a es ≡ false)
    → Bars a b es
    → Bars a b (e ∷ es)
unfolding has_event
Bars-cons a b e es apart left right old h = elim (Bool-cases (delegation_phase_eq e.phase a)) [
  | inl here ↦ let is_a = delegation_phase_eq_sound e.phase a here in rw (is_a, apart) (left is_a)
  | inr elsewhere ↦
      let was : has_event a es ≡ true = rw elsewhere at h in
      elim (Bool-cases (delegation_phase_eq e.phase b)) [
        | inl here ↦
            absurd (false-true (sym (right (delegation_phase_eq_sound e.phase b here)) ∙ was))
        | inr miss ↦ rw miss (old was)
      ]
]

pub no_events :
    (ph : DelegationPhase) (es : List SpendingDelegationEvent)
    → is_nil es ≡ true
    → has_event ph es ≡ false
unfolding has_event
no_events ph [] h = refl
no_events ph (e ∷ es) h = absurd (false-true h)

some_injective {ℓ} : {A : Type ℓ} {a b : A} → some a ≡ some b → a ≡ b
some_injective h = cc

module _ (s : SpendingDelegationSnapshot) (now : ℕ) (claim : Result (Unit {0})) where
  -- Where a phase has a predecessor, the switch asks for it.
  pub chain_needs :
      (p q : DelegationPhase)
      → predecessor p ≡ some q
      → check_delegation_phase s now claim p ≡ ok tt
      → has_event q s.events ≡ true
  unfolding predecessor check_delegation_phase check_default valid_delegation_stream_phase
  chain_needs p q h k = ground arith

  pub cleanup_needs :
      check_delegation_phase s now claim cleanup_pending ≡ ok tt
      → has_event final_authorized s.events ≡ false
  unfolding check_delegation_phase check_lapse
  cleanup_needs k = ground arith

  pub expired_needs :
      check_delegation_phase s now claim expired ≡ ok tt
      → (has_event final_authorized s.events ≡ false)
        × (has_event register_dispatched s.events ≡ true → has_event cleanup_result s.events ≡ true)
  unfolding check_delegation_phase check_lapse
  expired_needs k = (ground arith, λ h. ground arith)

  pub rejected_needs :
      check_delegation_phase s now claim rejected ≡ ok tt
      → (has_event register_dispatched s.events ≡ true)
        × (has_event register_result s.events ≡ false)
  unfolding check_delegation_phase
  rejected_needs k = (ground arith, ground arith)

  pub unclaimed_needs :
      (p : DelegationPhase)
      → (p ≡ cancelled) ⊎ (p ≡ invalidated)
      → check_delegation_phase s now claim p ≡ ok tt
      → is_nil s.events ≡ true
  unfolding check_delegation_phase
  unclaimed_needs p which k = ground arith

pub open_parts :
    (es : List SpendingDelegationEvent)
    → delegation_terminal es ≡ false
    → (has_event confirmed es ≡ false)
      × (has_event invalidated es ≡ false)
      × (has_event cancelled es ≡ false)
      × (has_event expired es ≡ false)
      × (has_event needs_authorization es ≡ false)
      × (has_event rejected es ≡ false)
unfolding delegation_terminal
open_parts es t =
    (ground arith, ground arith, ground arith, ground arith, ground arith, ground arith)

-- The guard of an abandoned delegation.
abbrev pub is_abandoned : SpendingDelegationEvent → List SpendingDelegationEvent → Bool
is_abandoned e es =
    has_event cleanup_pending es
    && not (is_cleanup e.phase)
    && not (delegation_phase_eq e.phase expired)

module _ (hmac : Bytes → Bytes → Bytes) (c : Codec) (format_time : ℕ → Bytes)
    (o : SpendingDelegation) where
  abbrev pub delegation_with : List SpendingDelegationEvent → SpendingDelegationSnapshot
  delegation_with es = record { operation = o; events = es }

  -- The histories of a delegation: each phase is new, came while the delegation was open, and passed
  -- the switch at some time on some database.
  pub data DelegationHistory : List SpendingDelegationEvent → Type 0 where
    armed : DelegationHistory []
    advanced :
        (e : SpendingDelegationEvent) (es : List SpendingDelegationEvent) (key : Bytes) (now : ℕ)
        (allowance : ℤ) (db : Db Journal)
        → DelegationHistory es
        → has_event e.phase es ≡ false
        → delegation_terminal es ≡ false
        → is_abandoned e es ≡ false
        → check_delegation_phase
            (delegation_with es)
            now
            (check_claim hmac c format_time key now (delegation_with es) allowance db)
            e.phase
          ≡ ok tt
        → DelegationHistory (e ∷ es)

  pub record Chained (es : List SpendingDelegationEvent) : Type 0 where
    pub in_order : (p q : DelegationPhase) → predecessor p ≡ some q → Needs p q es
    pub final_or_cleanup : Bars final_authorized cleanup_pending es
    pub final_or_expired : Bars final_authorized expired es
    pub expired_cleared :
        has_event expired es ≡ true
        → has_event register_dispatched es ≡ true
        → has_event cleanup_result es ≡ true
    pub rejected_dispatched : Needs rejected register_dispatched es
    pub rejected_or_registered : Bars rejected register_result es
    pub cancelled_or_claimed : Bars cancelled claimed es
    pub invalidated_or_claimed : Bars invalidated claimed es
