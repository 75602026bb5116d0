-- ===== src/Vtxo/State.antt =====
-- The states of a Spending operation: internal/policy/vtxo.go (constants and the predicates at the
-- end of the file) and validVtxoTransition of internal/policy/vtxo_ledger.go. The column is a
-- string: `other` holds any text that is none of the six constants.
use arkade_runtime.Base.{ℕ, ap, arith, ◌≡◌, Bool, true, false, ◌||◌}
use arkade_runtime.Base.Tests.{◌==◌}
use arkade_runtime.Base.Result.{Result, Error, ok, err}
use arkade_runtime.Base.Bytes.{Bytes, codes, bytes_eq, bytes_eq_sound}

pub data VtxoState : Type 0 where
  reserved signed submitted finalized aborted unresolved : VtxoState
  other : Bytes → VtxoState

unfoldable pub state_bytes : VtxoState → Bytes
state_bytes reserved = codes "reserved"
state_bytes signed = codes "signed"
state_bytes submitted = codes "submitted"
state_bytes finalized = codes "finalized"
state_bytes aborted = codes "aborted"
state_bytes unresolved = codes "unresolved"
state_bytes (other s) = s

-- `==` on the column's texts.
abbrev pub state_tag : VtxoState → ℕ
state_tag reserved = 0
state_tag signed = 1
state_tag submitted = 2
state_tag finalized = 3
state_tag aborted = 4
state_tag unresolved = 5
state_tag (other s) = 6

unfoldable pub state_eq : VtxoState → VtxoState → Bool
state_eq (other s) (other t) = bytes_eq s t
state_eq s t = state_tag s == state_tag t

pub state_eq_sound : (s t : VtxoState) → state_eq s t ≡ true → s ≡ t
unfolding state_eq
state_eq_sound (other s) (other t) h = ap other (bytes_eq_sound s t h)
state_eq_sound s t h = ground arith

unfoldable pub require_vtxo_state : VtxoState → Result (Unit {0})
require_vtxo_state (other s) = err Error.bad_state
require_vtxo_state _ = ok tt

unfoldable pub vtxo_state_counts_toward_allowance : VtxoState → Bool
vtxo_state_counts_toward_allowance reserved = true
vtxo_state_counts_toward_allowance signed = true
vtxo_state_counts_toward_allowance submitted = true
vtxo_state_counts_toward_allowance finalized = true
vtxo_state_counts_toward_allowance unresolved = true
vtxo_state_counts_toward_allowance _ = false

abbrev pub is_reserved : VtxoState → Bool
is_reserved reserved = true
is_reserved _ = false

abbrev pub is_signed : VtxoState → Bool
is_signed signed = true
is_signed _ = false

abbrev pub is_submitted : VtxoState → Bool
is_submitted submitted = true
is_submitted _ = false

unfoldable pub vtxo_state_awaiting_settlement : VtxoState → Bool
vtxo_state_awaiting_settlement s = is_signed s || is_submitted s

unfoldable pub vtxo_state_blocks_new_operation : VtxoState → Bool
vtxo_state_blocks_new_operation reserved = true
vtxo_state_blocks_new_operation signed = true
vtxo_state_blocks_new_operation submitted = true
vtxo_state_blocks_new_operation unresolved = true
vtxo_state_blocks_new_operation _ = false

unfoldable pub vtxo_state_locks_inputs : VtxoState → Bool
vtxo_state_locks_inputs reserved = true
vtxo_state_locks_inputs signed = true
vtxo_state_locks_inputs submitted = true
vtxo_state_locks_inputs finalized = true
vtxo_state_locks_inputs _ = false

unfoldable pub valid_vtxo_transition : VtxoState → VtxoState → Bool
valid_vtxo_transition reserved signed = true
valid_vtxo_transition reserved aborted = true
valid_vtxo_transition signed submitted = true
valid_vtxo_transition submitted finalized = true
valid_vtxo_transition submitted unresolved = true
valid_vtxo_transition _ _ = false
