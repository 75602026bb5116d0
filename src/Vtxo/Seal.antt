-- ===== src/Vtxo/Seal.antt =====
-- Sealing and verifying rows: SealVtxoOperation, VerifyVtxoOperation and their counterparts for
-- inputs in internal/policy/vtxo.go. `hmac key message` stands for HMAC-SHA-256 of crypto/hmac.
use arkade_runtime.Base.{ℕ, ◌+◌, ◌<◌, ◌≡◌, ◌≢◌, refl, sym, ap, ◌∙◌, not, ◌⊎◌, inl, inr, arith}
use arkade_runtime.Base.Tests.{◌==◌, Bool-cases}
use arkade_runtime.Base.Lists.{length}
use arkade_runtime.Base.Int64.{pos, uint32_mod}
use arkade_runtime.Base.Result.{
  Result, Error, ok, ◌>>=◌, ◌>>◌, refuse, >>=-eq-ok, refuse-eq-ok, refuse_passed,
}
use arkade_runtime.Base.Bytes.{Bytes, bytes_eq, bytes_eq_sound, bytes_eq_refl}
use arkade_runtime.Vtxo.Record.{VtxoOperation, VtxoOperationInput, IsTyped, SameFields}
use arkade_runtime.Vtxo.Canonical.{
  canonical_vtxo_operation, canonical_vtxo_operation_input, check_vtxo_operation, operation_fields,
  operation_numbers,
}
use arkade_runtime.Vtxo.Injective.{canonical_vtxo_operation-injective}
use arkade_runtime.Vtxo.Separation.{
  canonical_vtxo_operation_separate, canonical_vtxo_operation_input_truncates,
}

module _ (hmac : Bytes → Bytes → Bytes) where
  unfoldable pub vtxo_operation_mac : VtxoOperation → Bytes → Result Bytes
  vtxo_operation_mac r key = do
    refuse (not (length key == 32)) Error.key_size
    payload ← canonical_vtxo_operation r
    ok (hmac key payload)

  unfoldable pub vtxo_operation_input_mac : VtxoOperationInput → Bytes → Result Bytes
  vtxo_operation_input_mac r key = do
    refuse (not (length key == 32)) Error.key_size
    payload ← canonical_vtxo_operation_input r
    ok (hmac key payload)

  unfoldable pub seal_vtxo_operation : VtxoOperation → Bytes → Result VtxoOperation
  seal_vtxo_operation r key = do
    mac ← vtxo_operation_mac r key
    ok (record r { integrity_mac = mac })

  unfoldable pub verify_vtxo_operation : VtxoOperation → Bytes → Result (Unit {0})
  verify_vtxo_operation r key = do
    refuse (not (length r.integrity_mac == 32)) Error.mac_missing
    want ← vtxo_operation_mac r key
    refuse (not (bytes_eq r.integrity_mac want)) Error.mac_mismatch

  unfoldable pub seal_vtxo_operation_input : VtxoOperationInput → Bytes → Result VtxoOperationInput
  seal_vtxo_operation_input r key = do
    mac ← vtxo_operation_input_mac r key
    ok (record r { integrity_mac = mac })

  unfoldable pub verify_vtxo_operation_input : VtxoOperationInput → Bytes → Result (Unit {0})
  verify_vtxo_operation_input r key = do
    refuse (not (length r.integrity_mac == 32)) Error.mac_missing
    want ← vtxo_operation_input_mac r key
    refuse (not (bytes_eq r.integrity_mac want)) Error.mac_mismatch

  -- The MAC does not read the MAC column.
  pub vtxo_operation_mac_ignores :
      (r : VtxoOperation) (mac key : Bytes)
      → vtxo_operation_mac (record r { integrity_mac = mac }) key ≡ vtxo_operation_mac r key
  unfolding vtxo_operation_mac canonical_vtxo_operation check_vtxo_operation operation_fields
      operation_numbers
  vtxo_operation_mac_ignores r mac key = refl

  verified_mac :
      (r : VtxoOperation) (key : Bytes)
      → verify_vtxo_operation r key ≡ ok tt
      → vtxo_operation_mac r key ≡ ok r.integrity_mac
  unfolding verify_vtxo_operation
  verified_mac r key h =
      let (_, h1) = refuse-eq-ok (not (length r.integrity_mac == 32)) _ _ h in
      let (want, e, h2) = >>=-eq-ok (vtxo_operation_mac r key) _ h1 in
      let same = refuse_passed (not (bytes_eq r.integrity_mac want)) _ h2 in
      rw e (ap ok (sym (bytes_eq_sound r.integrity_mac want (ground arith))))

  payload_of_mac :
      (r : VtxoOperation) (key : Bytes) {mac : Bytes}
      → vtxo_operation_mac r key ≡ ok mac
      → (m : Bytes) × (canonical_vtxo_operation r ≡ ok m) × (mac ≡ hmac key m)
  unfolding vtxo_operation_mac
  payload_of_mac r key h =
      let (_, h1) = refuse-eq-ok (not (length key == 32)) _ _ h in
      let (m, e, h2) = >>=-eq-ok (canonical_vtxo_operation r) _ h1 in (m, e, cc)

  -- The bytes of two rows differ, and have one tag.
  abbrev pub Collision : VtxoOperation → VtxoOperation → Bytes → Type 0
  Collision r s key =
      (m : Bytes) × (n : Bytes) × (canonical_vtxo_operation r ≡ ok m)
      × (canonical_vtxo_operation s ≡ ok n)
      × (m ≢ n)
      × (hmac key m ≡ hmac key n)

  -- Sealing changes the MAC column alone.
  pub seal_shape :
      (r s : VtxoOperation) (key : Bytes)
      → seal_vtxo_operation r key ≡ ok s
      → s ≡ record r { integrity_mac = s.integrity_mac }
  unfolding seal_vtxo_operation
  seal_shape r s key h = let (mac, e, h1) = >>=-eq-ok (vtxo_operation_mac r key) _ h in cc

  -- With a hash of 32 bytes, a row that was sealed verifies under the key that sealed it, and
  -- differs from the row before in the MAC column alone.
  pub verify-seal :
      (r s : VtxoOperation) (key : Bytes)
      → ((m : Bytes) → length (hmac key m) ≡ 32)
      → seal_vtxo_operation r key ≡ ok s
      → (verify_vtxo_operation s key ≡ ok tt) × SameFields s r
  unfolding seal_vtxo_operation verify_vtxo_operation
  verify-seal r s key size h =
      let (mac, e, h1) = >>=-eq-ok (vtxo_operation_mac r key) _ h in
      let (m, _, tag) = payload_of_mac r key e in
      let shape : s ≡ record r { integrity_mac = mac } = cc in
      let long : length mac ≡ 32 = rw tag (size m) in
      let again = vtxo_operation_mac_ignores r mac key ∙ e in
      (rw shape (ground (arith, long, again, bytes_eq_refl mac)), cc)

  -- Two rows of int64 and uint32 numbers that verify under one key with the same MAC are equal,
  -- or else their canonical bytes differ and the hash gives those two the same tag: who edits a
  -- column of an authenticated row and keeps its MAC has found a collision.
  pub verify_binds :
      (r s : VtxoOperation) (key : Bytes)
      → IsTyped r
      → IsTyped s
      → verify_vtxo_operation r key ≡ ok tt
      → verify_vtxo_operation s key ≡ ok tt
      → r.integrity_mac ≡ s.integrity_mac
      → (r ≡ s) ⊎ Collision r s key
  verify_binds r s key tr ts hr hs same =
      let (m, em, tm) = payload_of_mac r key (verified_mac r key hr) in
      let (n, en, tn) = payload_of_mac s key (verified_mac s key hs) in
      elim (Bool-cases (bytes_eq m n)) [
        | inl e ↦
            let equal = bytes_eq_sound m n e in
            let fields = canonical_vtxo_operation-injective r s tr ts em (rw equal en) in inl (cc)
        | inr e ↦ inr (m, n, em, en, (λ p. cc (ap (bytes_eq m) (sym p), bytes_eq_refl m)), cc)
      ]

  verified_input_payload :
      (s : VtxoOperationInput) (key : Bytes)
      → verify_vtxo_operation_input s key ≡ ok tt
      → (n : Bytes) × (canonical_vtxo_operation_input s ≡ ok n) × (s.integrity_mac ≡ hmac key n)
  unfolding verify_vtxo_operation_input vtxo_operation_input_mac
  verified_input_payload s key h =
      let (_, h1) = refuse-eq-ok (not (length s.integrity_mac == 32)) _ _ h in
      let (want, e, h2) = >>=-eq-ok (vtxo_operation_input_mac s key) _ h1 in
      let same = refuse_passed (not (bytes_eq s.integrity_mac want)) _ h2 in
      let is_want = bytes_eq_sound s.integrity_mac want (ground arith) in
      let (_, e1) = refuse-eq-ok (not (length key == 32)) _ _ e in
      let (n, laid, e2) = >>=-eq-ok (canonical_vtxo_operation_input s) _ e1 in (n, laid, cc)

  -- An operation row and an input row that verify under one key with the same MAC show a
  -- collision: their canonical bytes differ, whatever the two rows hold, and the hash gives
  -- both the tag that stands in the two MAC columns.
  pub verify_separates :
      (r : VtxoOperation) (s : VtxoOperationInput) (key : Bytes)
      → verify_vtxo_operation r key ≡ ok tt
      → verify_vtxo_operation_input s key ≡ ok tt
      → r.integrity_mac ≡ s.integrity_mac
      → (m : Bytes) × (n : Bytes) × (canonical_vtxo_operation r ≡ ok m)
        × (canonical_vtxo_operation_input s ≡ ok n)
        × (m ≢ n)
        × (hmac key m ≡ r.integrity_mac)
        × (hmac key n ≡ r.integrity_mac)
  verify_separates r s key hr hs same =
      let (m, em, tm) = payload_of_mac r key (verified_mac r key hr) in
      let (n, en, tn) = verified_input_payload s key hs in
      (
        m,
        n,
        em,
        en,
        λ p. canonical_vtxo_operation_separate r s em (en ∙ ap ok (sym p)),
        sym tm,
        sym (same ∙ tn),
      )

  -- An input row that verifies, with an output index that fits 32 bits, still verifies after
  -- its vout column is raised by 2^32.
  pub verify_input_truncates :
      (r : VtxoOperationInput) (n : ℕ) (key : Bytes)
      → r.vout ≡ pos n
      → n < uint32_mod
      → verify_vtxo_operation_input r key ≡ ok tt
      → verify_vtxo_operation_input (record r { vout = pos (n + uint32_mod) }) key ≡ ok tt
  unfolding verify_vtxo_operation_input vtxo_operation_input_mac
  verify_input_truncates r n key e b h = rw (canonical_vtxo_operation_input_truncates r n e b) h
