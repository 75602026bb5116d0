-- ===== src/Renewal/Exclusion.antt =====
-- What the state machine of internal/policy/spending_renewal.go excludes: a payment that was sent to
-- the Operator and the deletion of its intent.
use arkade_runtime.Base.{
  ℕ, ◌≡◌, ◌≢◌, refl, sym, ap, ◌∙◌, Bool, true, false, ◌||◌, List, [], ◌∷◌, arith, inl, inr,
}
use arkade_runtime.Base.Tests.{Bool-cases}
use arkade_runtime.Base.Result.{Error, ok, refuse, from_ok, refuse_passed}
use arkade_runtime.Base.Bytes.{bytes_eq_sound}
use arkade_runtime.Renewal.Journal.{
  Phase, final_authorized, final_dispatched, delete_authorized, delete_dispatched, delete_result,
  confirmed, released, cancelled, other_phase, phase_eq, SpendingRenewalOperation,
  SpendingRenewalEvent, SpendingRenewalSnapshot, has_phase, digest_of, renewal_terminal,
}
use arkade_runtime.Renewal.Evidence.{Codec}
use arkade_runtime.Renewal.Phases.{check_phase, validate_renewal_transition, time_or_zero}

phase_eq_sound : (a b : Phase) → phase_eq a b ≡ true → a ≡ b
unfolding phase_eq
phase_eq_sound (other_phase s) (other_phase t) h = ap other_phase (bytes_eq_sound s t h)
phase_eq_sound a b h = ground arith

or_right : (a : Bool) {b : Bool} → b ≡ true → (a || b) ≡ true
or_right true h = refl
or_right false h = h

false-true : false ≢ true
false-true h = cc

module _ (c : Codec) (o : SpendingRenewalOperation) where
  abbrev snapshot : List SpendingRenewalEvent → SpendingRenewalSnapshot
  snapshot es = record { operation = o; events = es }

  -- The histories of an operation: each phase is new, and passed validateRenewalTransition at some
  -- time.
  pub data History : List SpendingRenewalEvent → Type 0 where
    fresh : History []
    grown :
        (e : SpendingRenewalEvent) (es : List SpendingRenewalEvent) (now : ℕ)
        → History es
        → has_phase e.phase es ≡ false
        → validate_renewal_transition c (snapshot es) e now ≡ ok tt
        → History (e ∷ es)

  -- The phases that a recorded phase implies or rules out.
  abbrev pub Implies : Phase → Phase → List SpendingRenewalEvent → Type 0
  Implies a b es = has_phase a es ≡ true → has_phase b es ≡ true

  abbrev pub Excludes : Phase → Phase → List SpendingRenewalEvent → Type 0
  Excludes a b es = has_phase a es ≡ true → has_phase b es ≡ false

  pub record Consistent (es : List SpendingRenewalEvent) : Type 0 where
    pub dispatch_authorized : Implies final_dispatched final_authorized es
    pub dispatch_or_delete : Excludes final_dispatched delete_authorized es
    pub confirmed_dispatched : Implies confirmed final_dispatched es
    pub deletion_authorized : Implies delete_dispatched delete_authorized es
    pub deletion_dispatched : Implies delete_result delete_dispatched es
    pub confirmed_or_released : Excludes confirmed released es
    pub confirmed_or_cancelled : Excludes confirmed cancelled es

  Consistent-nil : Consistent []
  unfolding has_phase
  Consistent-nil = record {
    dispatch_authorized = λ h. cc;
    dispatch_or_delete = λ h. cc;
    confirmed_dispatched = λ h. cc;
    deletion_authorized = λ h. cc;
    deletion_dispatched = λ h. cc;
    confirmed_or_released = λ h. cc;
    confirmed_or_cancelled = λ h. cc;
  }

  open_parts :
      (es : List SpendingRenewalEvent)
      → renewal_terminal es ≡ false
      → (has_phase confirmed es ≡ false)
        × (has_phase released es ≡ false)
        × (has_phase cancelled es ≡ false)
  unfolding renewal_terminal
  open_parts es t = (ground arith, ground arith, ground arith)

  -- What the `switch` asks for, phase by phase.
  final_dispatched_needs :
      (es : List SpendingRenewalEvent) (e : SpendingRenewalEvent) (now expiry : ℕ)
      → check_phase c (snapshot es) e now expiry final_dispatched ≡ ok tt
      → (has_phase final_authorized es ≡ true)
        × (has_phase delete_authorized es ≡ false)
        × (e.request_digest ≡ digest_of final_authorized es)
  unfolding check_phase
  final_dispatched_needs es e now expiry h = (
    ground arith,
    ground arith,
    bytes_eq_sound e.request_digest (digest_of final_authorized es) (ground arith),
  )

  delete_authorized_needs :
      (es : List SpendingRenewalEvent) (e : SpendingRenewalEvent) (now expiry : ℕ)
      → Implies final_dispatched final_authorized es
      → check_phase c (snapshot es) e now expiry delete_authorized ≡ ok tt
      → has_phase final_dispatched es ≡ false
  unfolding check_phase
  delete_authorized_needs es e now expiry w h = elim (Bool-cases (has_phase final_dispatched es)) [
    | inl sent ↦ let signed = w sent in absurd (ground arith)
    | inr unsent ↦ unsent
  ]

  confirmed_needs :
      (es : List SpendingRenewalEvent) (e : SpendingRenewalEvent) (now expiry : ℕ)
      → check_phase c (snapshot es) e now expiry confirmed ≡ ok tt
      → has_phase final_dispatched es ≡ true
  unfolding check_phase
  confirmed_needs es e now expiry h = ground arith

  delete_dispatched_needs :
      (es : List SpendingRenewalEvent) (e : SpendingRenewalEvent) (now expiry : ℕ)
      → check_phase c (snapshot es) e now expiry delete_dispatched ≡ ok tt
      → has_phase delete_authorized es ≡ true
  unfolding check_phase
  delete_dispatched_needs es e now expiry h = ground arith

  delete_result_needs :
      (es : List SpendingRenewalEvent) (e : SpendingRenewalEvent) (now expiry : ℕ)
      → check_phase c (snapshot es) e now expiry delete_result ≡ ok tt
      → has_phase delete_dispatched es ≡ true
  unfolding check_phase
  delete_result_needs es e now expiry h = ground arith

  -- How a relation between two phases survives a new event.
  Implies-cons :
      (a b : Phase) (e : SpendingRenewalEvent) (es : List SpendingRenewalEvent)
      → (e.phase ≡ a → has_phase b es ≡ true)
      → Implies a b es
      → Implies a b (e ∷ es)
  unfolding has_phase
  Implies-cons a b e es new old h = elim (Bool-cases (phase_eq e.phase a)) [
    | inl now ↦ or_right (phase_eq e.phase b) (new (phase_eq_sound e.phase a now))
    | inr before ↦ or_right (phase_eq e.phase b) (old (rw before at h))
  ]

  Excludes-cons :
      (a b : Phase) (e : SpendingRenewalEvent) (es : List SpendingRenewalEvent)
      → phase_eq a b ≡ false
      → (e.phase ≡ a → has_phase b es ≡ false)
      → (e.phase ≡ b → has_phase a es ≡ false)
      → Excludes a b es
      → Excludes a b (e ∷ es)
  unfolding has_phase
  Excludes-cons a b e es apart left right old h = elim (Bool-cases (phase_eq e.phase a)) [
    | inl here ↦ let is_a = phase_eq_sound e.phase a here in rw (is_a, apart) (left is_a)
    | inr elsewhere ↦
        let was : has_phase a es ≡ true = rw elsewhere at h in
        elim (Bool-cases (phase_eq e.phase b)) [
          | inl here ↦ absurd (false-true (sym (right (phase_eq_sound e.phase b here)) ∙ was))
          | inr none ↦ rw none (old was)
        ]
  ]

  check_phase-Consistent :
      (e : SpendingRenewalEvent) (es : List SpendingRenewalEvent) (now expiry : ℕ)
      → Consistent es
      → renewal_terminal es ≡ false
      → check_phase c (snapshot es) e now expiry e.phase ≡ ok tt
      → Consistent (e ∷ es)
  unfolding phase_eq check_phase
  check_phase-Consistent e es now expiry w t h =
      let (unconfirmed, unreleased, uncancelled) = open_parts es t in
      record {
        dispatch_authorized =
            Implies-cons final_dispatched final_authorized e es
              (λ is. (final_dispatched_needs es e now expiry (rw is at h)).0) w.dispatch_authorized;
        dispatch_or_delete =
            Excludes-cons final_dispatched delete_authorized e es refl
              (λ is. (final_dispatched_needs es e now expiry (rw is at h)).1)
              (λ is. delete_authorized_needs es e now expiry w.dispatch_authorized (rw is at h))
              w.dispatch_or_delete;
        confirmed_dispatched =
            Implies-cons confirmed final_dispatched e es
              (λ is. confirmed_needs es e now expiry (rw is at h)) w.confirmed_dispatched;
        deletion_authorized =
            Implies-cons delete_dispatched delete_authorized e es
              (λ is. delete_dispatched_needs es e now expiry (rw is at h)) w.deletion_authorized;
        deletion_dispatched =
            Implies-cons delete_result delete_dispatched e es
              (λ is. delete_result_needs es e now expiry (rw is at h)) w.deletion_dispatched;
        confirmed_or_released =
            Excludes-cons confirmed released e es refl (λ is. unreleased) (λ is. unconfirmed)
              w.confirmed_or_released;
        confirmed_or_cancelled =
            Excludes-cons confirmed cancelled e es refl (λ is. uncancelled) (λ is. unconfirmed)
              w.confirmed_or_cancelled;
      }

  -- In every history of a payment batch that passed validateRenewalTransition step by step,
  -- whatever the times of its events: a forfeit is dispatched only after it was authorized, a
  -- dispatched forfeit and an authorized deletion never occur together, a deletion is
  -- dispatched only after its authorization and has a result only after its dispatch, and a
  -- confirmed payment was dispatched and is neither released nor cancelled.
  pub History-Consistent : (es : List SpendingRenewalEvent) → History es → Consistent es
  unfolding validate_renewal_transition
  History-Consistent [] _ = Consistent-nil
  History-Consistent _ (grown e es now hist new h) =
      from_ok (refuse (renewal_terminal es) Error.bad_transition) _ h λ _ t h1.
        check_phase-Consistent e es now (time_or_zero (c.parse_time o.expires_at))
          (History-Consistent es hist) (refuse_passed (renewal_terminal es) _ t) h1
