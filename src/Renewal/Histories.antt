-- ===== src/Renewal/Histories.antt =====
-- AppendSpendingRenewalEvent of internal/policy/spending_renewal.go keeps every journal a history of
-- the state machine.
use arkade_runtime.Base.{
  ℕ, ◌≡◌, ◌≢◌, refl, sym, ap, ◌∙◌, Bool, true, false, ◌&&◌, ◌||◌, not, none, some, List, [], ◌∷◌,
  inl, inr,
}
use mathlib.Core.Path.{subst}
use arkade_runtime.Base.Tests.{◌==◌, if◌then◌else◌, Bool-cases, Option-cases}
use arkade_runtime.Base.Lists.{All}
use arkade_runtime.Base.Result.{Error, ok, refuse, from_ok, ok_injective}
use arkade_runtime.Base.Bytes.{Bytes, bytes_eq, is_empty}
use arkade_runtime.Ledger.SignCounts.{advance_sign_count_locked, verify_sign_count_replay_locked}
use arkade_runtime.Renewal.Journal.{
  Phase, phase_eq, SpendingRenewalEvent, SpendingRenewalSnapshot, event_of, same_event, has_phase,
}
use arkade_runtime.Renewal.Evidence.{Codec}
use arkade_runtime.Renewal.Phases.{validate_spending_renewal_event, validate_renewal_transition}
use arkade_runtime.Renewal.Append.{
  Journals, find_renewal, insert_event, is_registration, replay_event, record_event,
  append_spending_renewal_event,
}
use arkade_runtime.Renewal.Exclusion.{History, grown}

some-none {ℓ} : {A : Type ℓ} {a : A} → some a ≢ none
some-none h = cc

true-false : true ≢ false
true-false h = cc

pub unseen_phase :
    (ph : Phase) (es : List SpendingRenewalEvent) → event_of ph es ≡ none → has_phase ph es ≡ false
unfolding event_of has_phase
unseen_phase ph [] h = refl
unseen_phase ph (e ∷ es) h = elim (Bool-cases (phase_eq e.phase ph)) [
  | inl here ↦ absurd (some-none (rw here at h))
  | inr elsewhere ↦ rw elsewhere (unseen_phase ph es (rw elsewhere at h))
]

-- What an append returns with.
abbrev pub Appended : Type 0
Appended = Journals × SpendingRenewalEvent × Bool

module _ (c : Codec) (hmac : Bytes → Bytes → Bytes) where
  abbrev pub IsHistory : SpendingRenewalSnapshot → Type 0
  IsHistory s = History c s.operation s.events

  insert_event-IsHistory :
      (e : SpendingRenewalEvent) (s : SpendingRenewalSnapshot) (now : ℕ)
      (all : List SpendingRenewalSnapshot)
      → All IsHistory all
      → find_renewal e.operation_id all ≡ ok s
      → has_phase e.phase s.events ≡ false
      → validate_renewal_transition c s e now ≡ ok tt
      → All IsHistory (insert_event e all)
  unfolding find_renewal insert_event
  insert_event-IsHistory e s now [] hist found new valid = tt
  insert_event-IsHistory e s now (x ∷ xs) hist found new valid =
      elim (Bool-cases (bytes_eq x.operation.operation_id e.operation_id)) [
        | inl here ↦
            let is_s : x ≡ s = ok_injective (rw here at found) in
            let next =
              grown e x.events now hist.0
                (subst (λ (y : SpendingRenewalSnapshot). has_phase e.phase y.events ≡ false)
                  (sym is_s) new)
                (subst
                  (λ (y : SpendingRenewalSnapshot). validate_renewal_transition c y e now ≡ ok tt)
                  (sym is_s) valid) in
            rw here (next, hist.1)
        | inr elsewhere ↦
            rw elsewhere
              (hist.0, insert_event-IsHistory e s now xs hist.1 (rw elsewhere at found) new valid)
      ]

  pub replay_event-Appended :
      (key credential : Bytes) (count : ℕ) (e : SpendingRenewalEvent) (s : SpendingRenewalSnapshot)
      (old : SpendingRenewalEvent) (j : Journals) (out : Appended)
      → replay_event c hmac key credential count e s old j ≡ ok out
      → (j, old, false) ≡ out
  unfolding replay_event
  replay_event-Appended key credential count e s old j out h =
      from_ok (refuse (not (same_event e old)) Error.replay_mismatch) _ h λ _ _ h1.
        elim (Bool-cases (is_registration e.phase)) [
          | inl reg ↦
              from_ok
                (verify_sign_count_replay_locked hmac key s.operation.vault_id credential count
                  j.sign_counts)
                _ (rw reg at h1) λ _ _ h2. ok_injective h2
          | inr other ↦ ok_injective (rw other at h1)
        ]

  pub record_event-Appended :
      (key : Bytes) (vaults : List Bytes) (now : ℕ) (credential : Bytes) (count : ℕ)
      (e : SpendingRenewalEvent) (s : SpendingRenewalSnapshot) (j : Journals) (out : Appended)
      → record_event c hmac key vaults now credential count e s j ≡ ok out
      → (validate_renewal_transition c s e now ≡ ok tt)
        × (insert_event e j.snapshots ≡ out.0.snapshots)
        × (e ≡ out.1)
        × (out.2 ≡ true)
        × (is_registration e.phase ≡ true
            → advance_sign_count_locked hmac key vaults s.operation.vault_id credential count
                j.sign_counts
              ≡ ok out.0.sign_counts)
        × (is_registration e.phase ≡ false → j.sign_counts ≡ out.0.sign_counts)
  unfolding record_event
  record_event-Appended key vaults now credential count e s j out h =
      from_ok (validate_renewal_transition c s e now) _ h λ _ valid h1.
        from_ok (refuse (is_registration e.phase && is_empty credential) Error.identity_required) _
          h1
          λ _ _ h2.
            from_ok
              (refuse
                (not (is_registration e.phase) && (not (is_empty credential) || not (count == 0)))
                Error.identity_required)
              _ h2
              λ _ _ h3.
                from_ok
                  (if is_registration e.phase
                    then advance_sign_count_locked hmac key vaults s.operation.vault_id credential
                        count j.sign_counts
                    else ok j.sign_counts)
                  _ h3
                  λ counts made h4.
                    let done = ok_injective h4 in
                    let kept = ap (λ (x : Appended). x.0.sign_counts) done in
                    (
                      valid,
                      ap (λ (x : Appended). x.0.snapshots) done,
                      ap (λ (x : Appended). x.1) done,
                      sym (ap (λ (x : Appended). x.2) done),
                      λ reg. (rw reg at made) ∙ ap ok kept,
                      λ other. ok_injective (rw other at made) ∙ kept,
                    )

  -- AppendSpendingRenewalEvent that returns no error, on journals that are histories of the
  -- state machine: they are histories afterwards. Where it reports a new event, that event,
  -- with the time of the ledger, is inserted in the journal of its operation, and the
  -- authenticator counter is advanced if the event is a registration and is as it was if not;
  -- where it reports none, nothing has changed.
  pub append-IsHistory :
      (key : Bytes) (vaults : List Bytes) (now : ℕ) (stamp : Bytes) (e : SpendingRenewalEvent)
      (credential : Bytes) (count : ℕ) (j : Journals) (out : Appended)
      → All IsHistory j.snapshots
      → append_spending_renewal_event c hmac key vaults now stamp e credential count j ≡ ok out
      → All IsHistory out.0.snapshots
        × (out.2 ≡ false → j ≡ out.0)
        × (out.2 ≡ true
            → (s : SpendingRenewalSnapshot) × (find_renewal e.operation_id j.snapshots ≡ ok s)
              × (insert_event (record e { created_at = stamp }) j.snapshots ≡ out.0.snapshots)
              × (is_registration e.phase ≡ true
                  → advance_sign_count_locked hmac key vaults s.operation.vault_id credential count
                      j.sign_counts
                    ≡ ok out.0.sign_counts)
              × (is_registration e.phase ≡ false → j.sign_counts ≡ out.0.sign_counts))
  unfolding append_spending_renewal_event
  append-IsHistory key vaults now stamp e0 credential count j out hist h =
      let e : SpendingRenewalEvent = record e0 { created_at = stamp } in
      from_ok (validate_spending_renewal_event c e) _ h λ _ _ h1.
        from_ok (find_renewal e.operation_id j.snapshots) _ h1 λ s found h2.
          elim (Option-cases (event_of e.phase s.events)) [
            | inl new ↦
                let (valid, snaps, is_e, made, reg, other) =
                  record_event-Appended key vaults now credential count e s j out (rw new at h2) in
                (
                  rw (← snaps) (
                      insert_event-IsHistory e s now j.snapshots hist found
                        (unseen_phase e.phase s.events new) valid),
                  λ not_made. absurd (true-false (sym made ∙ not_made)),
                  λ _. (s, found, snaps, reg, other),
                )
            | inr (old, seen) ↦
                let same =
                  replay_event-Appended key credential count e s old j out (rw seen at h2) in
                let kept = ap (λ (x : Appended). x.0) same in
                (
                  rw (← kept) hist,
                  λ _. kept,
                  λ made. absurd (true-false (sym (ap (λ (x : Appended). x.2) same ∙ made))),
                )
          ]
