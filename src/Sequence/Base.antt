-- ===== src/Sequence/Base.antt =====
-- The row that stands for retired rows, and the sequence of the database:
-- policySequenceBaseMAC, readPolicySequenceBase and currentEconomicSequence of
-- internal/policy/sequence_base.go, economicOutflowCount of internal/policy/ledger.go.
use arkade_runtime.Base.{
  ℕ, ◌+◌, ◌-◌, Bool, true, false, not, ◌||◌, Option, none, some, List, [], ◌∷◌, ◌++◌,
}
use arkade_runtime.Base.Tests.{ltb, ◌==◌, if◌then◌else◌}
use arkade_runtime.Base.Lists.{length}
use arkade_runtime.Base.Int64.{is_neg, to_u64, uint64_mod}
use arkade_runtime.Base.Result.{Result, Error, ok, err, ◌>>=◌, ◌>>◌, refuse}
use arkade_runtime.Base.Bytes.{Bytes, codes, bytes_eq, le64}
use arkade_runtime.Ledger.Store.{Platform, Db, SequenceBase}

abbrev pub is_nil_list {ℓ} : {A : Type ℓ} → List A → Bool
is_nil_list [] = true
is_nil_list (x ∷ xs) = false

module _ (p : Platform) where
  open p use {hmac, lane_rows}

  unfoldable pub policy_sequence_base_mac : Bytes → ℕ → Bytes → Bytes
  policy_sequence_base_mac network base key =
      hmac key (codes "arkade-vault/policy-sequence-base/v1" ++ (0 ∷ (network ++ (0 ∷ le64 base))))

  -- `none` where the table is empty.
  unfoldable pub read_policy_sequence_base : Bytes → Bytes → List SequenceBase → Result (Option ℕ)
  read_policy_sequence_base network key [] = do
    refuse (not (length key == 32)) Error.key_required
    ok none
  read_policy_sequence_base network key (b ∷ bs) = do
    refuse (not (length key == 32)) Error.key_required
    refuse (not (bytes_eq b.integrity_mac (policy_sequence_base_mac network (to_u64 b.base) key)))
        Error.mac_mismatch
    refuse (is_neg b.base || not (is_nil_list bs)) Error.sequence_corrupt
    ok (some (to_u64 b.base))

  -- The rows of every table that records an economic outflow.
  unfoldable pub economic_outflow_count : Db p.Lanes → ℕ
  economic_outflow_count db = length db.operations + lane_rows db.lanes

  abbrev pub add_base : ℕ → Option ℕ → Result ℕ
  add_base count none = err Error.sequence_missing
  add_base count (some base) =
      if ltb (uint64_mod - 1 - base) count then err Error.sequence_overflow else ok (base + count)

  unfoldable pub current_economic_sequence : Bytes → Bytes → Db p.Lanes → Result ℕ
  unfolding read_policy_sequence_base economic_outflow_count
  current_economic_sequence network key db =
      read_policy_sequence_base network key db.bases >>= add_base (economic_outflow_count db)
