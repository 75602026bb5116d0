-- ===== src/Delegation/Journal.antt =====
-- The rows of the delegation journal, as internal/policy/spending_delegation.go declares them, and
-- the reading of its events: delegationTerminal, State and validDelegationStreamPhase.
use arkade_runtime.Base.{
  ℕ, zero, suc, ◌≡◌, refl, sym, ◌∙◌, Bool, true, false, ◌&&◌, ◌||◌, Option, none, some, List, [],
  ◌∷◌, ◌++◌,
}
use arkade_runtime.Base.Tests.{◌==◌, ==_iff, if◌then◌else◌, &&_parts}
use arkade_runtime.Base.Int64.{ℤ}
use arkade_runtime.Base.Bytes.{Bytes, codes, bytes_eq, bytes_eq_sound}
use arkade_runtime.Renewal.Journal.{canonical_renewal_hex}

-- Event.Phase, a string in the source. The four phases with a prefix carry the text behind it;
-- `other_phase` is every text that has none of these forms.
pub data DelegationPhase : Type 0 where
  claimed register_authorized register_dispatched register_result : DelegationPhase
  batch_started tree_prepared nonces_committed tree_signed : DelegationPhase
  final_authorized final_dispatched final_result : DelegationPhase
  cleanup_pending cleanup_authorized cleanup_dispatched cleanup_result : DelegationPhase
  confirmed invalidated cancelled expired needs_authorization rejected : DelegationPhase
  stream_signing_started stream_finalization : DelegationPhase
  stream_tree_0 stream_tree_1 stream_nonce stream_signature : Bytes → DelegationPhase
  other_phase : Bytes → DelegationPhase

pub record SpendingDelegation : Type 0 where
  pub operation_id : Bytes
  pub vault_id : Bytes
  pub input_txid : Bytes
  pub input_vout : ℕ
  pub valid_at : ℤ
  pub expires_at : ℤ
  pub fee_sats : ℤ
  pub plan_digest : Bytes
  pub plan : Bytes
  pub created_at : Bytes
  pub program : Bytes
  pub descriptor_hash : Bytes
  pub set_id : Bytes
  pub set_digest : Bytes
  pub set_size : ℤ
  pub set_index : ℤ

pub record SpendingDelegationEvent : Type 0 where
  pub operation_id : Bytes
  pub phase : DelegationPhase
  pub evidence : Bytes
  pub created_at : Bytes

-- The map of events as a list, one event for a phase.
pub record SpendingDelegationSnapshot : Type 0 where
  pub operation : SpendingDelegation
  pub events : List SpendingDelegationEvent

abbrev pub phase_tag : DelegationPhase → ℕ
phase_tag claimed = 0
phase_tag register_authorized = 1
phase_tag register_dispatched = 2
phase_tag register_result = 3
phase_tag batch_started = 4
phase_tag tree_prepared = 5
phase_tag nonces_committed = 6
phase_tag tree_signed = 7
phase_tag final_authorized = 8
phase_tag final_dispatched = 9
phase_tag final_result = 10
phase_tag cleanup_pending = 11
phase_tag cleanup_authorized = 12
phase_tag cleanup_dispatched = 13
phase_tag cleanup_result = 14
phase_tag confirmed = 15
phase_tag invalidated = 16
phase_tag cancelled = 17
phase_tag expired = 18
phase_tag needs_authorization = 19
phase_tag rejected = 20
phase_tag stream_signing_started = 21
phase_tag stream_finalization = 22
phase_tag (stream_tree_0 s) = 23
phase_tag (stream_tree_1 s) = 24
phase_tag (stream_nonce s) = 25
phase_tag (stream_signature s) = 26
phase_tag (other_phase s) = 27

abbrev pub phase_rest : DelegationPhase → Bytes
phase_rest (stream_tree_0 s) = s
phase_rest (stream_tree_1 s) = s
phase_rest (stream_nonce s) = s
phase_rest (stream_signature s) = s
phase_rest (other_phase s) = s
phase_rest _ = []

-- `==` on the texts.
unfoldable pub delegation_phase_eq : DelegationPhase → DelegationPhase → Bool
delegation_phase_eq a b = (phase_tag a == phase_tag b) && bytes_eq (phase_rest a) (phase_rest b)

-- delegationPhases
abbrev pub delegation_phases : List DelegationPhase
delegation_phases =
    claimed ∷ register_authorized ∷ register_dispatched ∷ register_result ∷ batch_started
    ∷ tree_prepared ∷ nonces_committed ∷ tree_signed ∷ final_authorized ∷ final_dispatched
    ∷ final_result ∷ cleanup_pending ∷ cleanup_authorized ∷ cleanup_dispatched ∷ cleanup_result
    ∷ confirmed ∷ invalidated ∷ cancelled ∷ expired ∷ needs_authorization ∷ rejected ∷ []

phase_at : ℕ → List DelegationPhase → DelegationPhase
phase_at n [] = other_phase []
phase_at zero (p ∷ ps) = p
phase_at (suc n) (p ∷ ps) = phase_at n ps

of_tag : ℕ → Bytes → DelegationPhase
of_tag n s = phase_at n (
    delegation_phases
    ++ (stream_signing_started
        ∷ stream_finalization
        ∷ stream_tree_0 s
        ∷ stream_tree_1 s
        ∷ stream_nonce s
        ∷ stream_signature s
        ∷ other_phase s
        ∷ []))

of_tag_lem : (p : DelegationPhase) → of_tag (phase_tag p) (phase_rest p) ≡ p
unfolding of_tag phase_at
of_tag_lem claimed = refl
of_tag_lem register_authorized = refl
of_tag_lem register_dispatched = refl
of_tag_lem register_result = refl
of_tag_lem batch_started = refl
of_tag_lem tree_prepared = refl
of_tag_lem nonces_committed = refl
of_tag_lem tree_signed = refl
of_tag_lem final_authorized = refl
of_tag_lem final_dispatched = refl
of_tag_lem final_result = refl
of_tag_lem cleanup_pending = refl
of_tag_lem cleanup_authorized = refl
of_tag_lem cleanup_dispatched = refl
of_tag_lem cleanup_result = refl
of_tag_lem confirmed = refl
of_tag_lem invalidated = refl
of_tag_lem cancelled = refl
of_tag_lem expired = refl
of_tag_lem needs_authorization = refl
of_tag_lem rejected = refl
of_tag_lem stream_signing_started = refl
of_tag_lem stream_finalization = refl
of_tag_lem (stream_tree_0 s) = refl
of_tag_lem (stream_tree_1 s) = refl
of_tag_lem (stream_nonce s) = refl
of_tag_lem (stream_signature s) = refl
of_tag_lem (other_phase s) = refl

pub delegation_phase_eq_sound : (a b : DelegationPhase) → delegation_phase_eq a b ≡ true → a ≡ b
unfolding delegation_phase_eq
delegation_phase_eq_sound a b h =
    let (tags, texts) = &&_parts (phase_tag a == phase_tag b) _ h in
    let tag : phase_tag a ≡ phase_tag b = (==_iff (phase_tag a) (phase_tag b)).0 tags in
    let rest = bytes_eq_sound (phase_rest a) (phase_rest b) texts in
    sym (of_tag_lem a) ∙ rw (tag, rest) (of_tag_lem b)

-- `_, ok := s.Events[phase]`
unfoldable pub has_event : DelegationPhase → List SpendingDelegationEvent → Bool
has_event ph [] = false
has_event ph (e ∷ es) = delegation_phase_eq e.phase ph || has_event ph es

-- `old, ok := s.Events[phase]`
unfoldable pub find_event :
    DelegationPhase → List SpendingDelegationEvent → Option SpendingDelegationEvent
find_event ph [] = none
find_event ph (e ∷ es) = if delegation_phase_eq e.phase ph then some e else find_event ph es

-- delegationTerminal
unfoldable pub delegation_terminal : List SpendingDelegationEvent → Bool
delegation_terminal es =
    has_event confirmed es
    || has_event invalidated es
    || has_event cancelled es
    || has_event expired es
    || has_event needs_authorization es
    || has_event rejected es

unfoldable pub has_prefix : Bytes → Bytes → Bool
has_prefix [] t = true
has_prefix (x ∷ xs) [] = false
has_prefix (x ∷ xs) (y ∷ ys) = (x == y) && has_prefix xs ys

-- strings.HasPrefix(phase, "cleanup_")
unfoldable pub is_cleanup : DelegationPhase → Bool
unfolding has_prefix
is_cleanup cleanup_pending = true
is_cleanup cleanup_authorized = true
is_cleanup cleanup_dispatched = true
is_cleanup cleanup_result = true
is_cleanup (other_phase s) = has_prefix (codes "cleanup_") s
is_cleanup _ = false

-- State(), where `none` is "armed".
unfoldable pub state_from :
    List DelegationPhase
    → Option DelegationPhase
    → List SpendingDelegationEvent
    → Option DelegationPhase
state_from [] s es = s
state_from (p ∷ ps) s es =
    state_from ps (if has_event p es then some (if is_cleanup p then cleanup_pending else p) else s)
      es

unfoldable pub delegation_state : List SpendingDelegationEvent → Option DelegationPhase
unfolding state_from
delegation_state es = state_from delegation_phases none es

-- validDelegationStreamPhase
unfoldable pub valid_delegation_stream_phase : DelegationPhase → Bool
valid_delegation_stream_phase stream_signing_started = true
valid_delegation_stream_phase stream_finalization = true
valid_delegation_stream_phase (stream_tree_0 s) = canonical_renewal_hex s 32
valid_delegation_stream_phase (stream_tree_1 s) = canonical_renewal_hex s 32
valid_delegation_stream_phase (stream_nonce s) = canonical_renewal_hex s 32
valid_delegation_stream_phase (stream_signature s) = canonical_renewal_hex s 32
valid_delegation_stream_phase _ = false

-- The loop over delegationPhases that looks for `phase`.
unfoldable pub known_phase : DelegationPhase → List DelegationPhase → Bool
known_phase ph [] = false
known_phase ph (p ∷ ps) = delegation_phase_eq ph p || known_phase ph ps
