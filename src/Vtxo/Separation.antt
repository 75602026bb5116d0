-- ===== src/Vtxo/Separation.antt =====
-- The bytes of an input row (canonicalVtxoOperationInput of internal/policy/vtxo.go), and how they
-- differ from those of an operation row, which share the MAC's domain and key.
use mathlib.Core.List.{append_assoc}
use arkade_runtime.Base.{
  ℕ, ◌+◌, ◌%◌, ◌<◌, ◌≡◌, refl, sym, ap, ◌∙◌, List, [], ◌∷◌, ◌++◌, false, arith,
}
use arkade_runtime.Base.Lists.{length, drop, All}
use arkade_runtime.Base.Int64.{ℤ, pos, negsuc, is_neg, to_u64, uint32_mod, uint64_mod, InInt64}
use arkade_runtime.Base.Result.{ok, >>=-eq-ok}
use arkade_runtime.Base.Bytes.{Bytes, le32, le64, le32-injective, le64-injective, append-injective}
use arkade_runtime.Vtxo.Record.{VtxoOperation, VtxoOperationInput}
use arkade_runtime.Vtxo.Canonical.{
  append_credential_field, append_fields, operation_fields, operation_numbers,
  canonical_vtxo_operation, canonical_vtxo_operation_input, check_vtxo_operation_input,
  vtxo_operation_input_kind,
}
use arkade_runtime.Vtxo.Encoding.{
  encode, IsShort, append_credential_field-eq-ok, append_fields-eq-ok, encode-injective,
  encode-append,
}
use arkade_runtime.Vtxo.Injective.{
  header, check_vtxo_operation-IsChecked, canonical_vtxo_operation-eq-ok, to_u64-injective,
  to_u64_lt,
}

abbrev input_fields : VtxoOperationInput → List Bytes
input_fields r = vtxo_operation_input_kind ∷ r.operation_id ∷ r.txid ∷ []

abbrev input_tail : VtxoOperationInput → Bytes
input_tail r =
    le32 (to_u64 r.vout % uint32_mod)
    ++ (le64 (to_u64 r.value_sats) ++ (le32 (length r.script) ++ r.script))

canonical_vtxo_operation_input-eq-ok :
    (r : VtxoOperationInput) {out : Bytes}
    → canonical_vtxo_operation_input r ≡ ok out
    → (check_vtxo_operation_input r ≡ ok tt)
      × (out ≡ header ++ (encode (input_fields r) ++ input_tail r))
      × All IsShort (input_fields r)
      × IsShort r.script
unfolding canonical_vtxo_operation_input append_credential_field
canonical_vtxo_operation_input-eq-ok r {out} h =
    let (u, passed, h1) = >>=-eq-ok (check_vtxo_operation_input r) _ h in
    let (body, laid, h2) = >>=-eq-ok (append_fields header (input_fields r)) _ h1 in
    let (shape, short) = append_fields-eq-ok header (input_fields r) laid in
    let numbers : Bytes = le32 (to_u64 r.vout % uint32_mod) ++ le64 (to_u64 r.value_sats) in
    let (shape', short') = append_credential_field-eq-ok (body ++ numbers) r.script h2 in
    let layout : out ≡ header ++ (encode (input_fields r) ++ input_tail r) = cc (
      append_assoc header (encode (input_fields r)) (input_tail r),
      append_assoc body numbers (le32 (length r.script) ++ r.script),
    ) in
    (passed, layout, short, short')

-- The numbers of an input row as Go holds them, with an output index that fits 32 bits.
pub record IsRanged (r : VtxoOperationInput) : Type 0 where
  pub vout : (n : ℕ) × (r.vout ≡ pos n) × (n < uint32_mod)
  pub value : InInt64 r.value_sats

input_signs :
    (r : VtxoOperationInput)
    → check_vtxo_operation_input r ≡ ok tt
    → (length r.txid ≡ 32) × (is_neg r.vout ≡ false) × (is_neg r.value_sats ≡ false)
unfolding check_vtxo_operation_input
input_signs r h = ground arith

-- Two input rows whose output index fits 32 bits, whose value is an int64 and that are accepted
-- with the same bytes agree in every column but the MAC.
pub canonical_vtxo_operation_input-injective :
    (r s : VtxoOperationInput) {out : Bytes}
    → IsRanged r
    → IsRanged s
    → canonical_vtxo_operation_input r ≡ ok out
    → canonical_vtxo_operation_input s ≡ ok out
    → r ≡ record s { integrity_mac = r.integrity_mac }
canonical_vtxo_operation_input-injective r s gr gs hr hs =
    let (pr, lr, sr, tr) = canonical_vtxo_operation_input-eq-ok r hr in
    let (ps, ls, ss, ts) = canonical_vtxo_operation_input-eq-ok s hs in
    let (_, _, vr) = input_signs r pr in
    let (_, _, vs) = input_signs s ps in
    let (_, body) =
      append-injective header header (encode (input_fields r) ++ input_tail r)
        (encode (input_fields s) ++ input_tail s) refl (sym lr ∙ ls) in
    let (fields, tail) =
      encode-injective (input_fields r) (input_fields s) (input_tail r) (input_tail s) refl sr ss
        body in
    let (vout, h1) =
      le32-injective (to_u64 r.vout % uint32_mod) (to_u64 s.vout % uint32_mod) _ _ (omega arith)
        (omega arith) tail in
    let (value, h2) =
      le64-injective (to_u64 r.value_sats) (to_u64 s.value_sats) _ _ (to_u64_lt r.value_sats)
        (to_u64_lt s.value_sats) h1 in
    let (len, h3) = le32-injective (length r.script) (length s.script) _ _ tr ts h2 in
    let (m, em, bm) = gr.vout in
    let (n, en, bn) = gs.vout in
    let index : m ≡ n = same_vout r.vout s.vout m n em en bm bn vout in
    let amount = to_u64-injective r.value_sats s.value_sats vr vs gr.value gs.value value in
    cc (fields, em, en, index, amount, h3)
  where
    same_vout :
        (v w : ℤ) (m n : ℕ)
        → v ≡ pos m
        → w ≡ pos n
        → m < uint32_mod
        → n < uint32_mod
        → to_u64 v % uint32_mod ≡ to_u64 w % uint32_mod
        → m ≡ n
    same_vout (pos v) (pos w) m n em en bm bn h = ground arith
    same_vout (pos v) (negsuc w) m n em en bm bn h = cc
    same_vout (negsuc v) w m n em en bm bn h = cc

-- No bytes are those of an accepted operation row and of an accepted input row at once.
pub canonical_vtxo_operation_separate :
    (r : VtxoOperation) (s : VtxoOperationInput) {out : Bytes}
    → canonical_vtxo_operation r ≡ ok out
    → ¬ (canonical_vtxo_operation_input s ≡ ok out)
unfolding operation_fields
canonical_vtxo_operation_separate r s hr hs =
    let (pr, lr, sr) = canonical_vtxo_operation-eq-ok r hr in
    let (ps, ls, ss, _) = canonical_vtxo_operation_input-eq-ok s hs in
    let (txid, _, _) = input_signs s ps in
    let (_, body) =
      append-injective header header (encode (operation_fields r) ++ operation_numbers r)
        (encode (input_fields s) ++ input_tail s) refl (sym lr ∙ ls) in
    let first : List Bytes = r.operation_id ∷ r.vault_id ∷ r.purpose ∷ [] in
    let rest : List Bytes = drop 3 (operation_fields r) in
    let (fields, _) =
      encode-injective first (input_fields s) (encode rest ++ operation_numbers r) (input_tail s)
        refl (sr.0, (sr.1.0, (sr.1.1.0, tt))) ss
        (sym (encode-append first rest (operation_numbers r)) ∙ body) in
    let purpose : r.purpose ≡ s.txid = cc fields in
    let spends = (check_vtxo_operation-IsChecked r pr).spends in
    omega (arith, ap length purpose, ap length spends)

-- The index is cut to 32 bits under the MAC: a row whose `vout` column is raised by 2^32 has the
-- bytes of the row that was sealed.
pub canonical_vtxo_operation_input_truncates :
    (r : VtxoOperationInput) (n : ℕ)
    → r.vout ≡ pos n
    → n < uint32_mod
    → canonical_vtxo_operation_input (record r { vout = pos (n + uint32_mod) })
      ≡ canonical_vtxo_operation_input r
unfolding canonical_vtxo_operation_input check_vtxo_operation_input
canonical_vtxo_operation_input_truncates r n e b =
    let cut : (n + uint32_mod) % uint64_mod % uint32_mod ≡ n % uint64_mod % uint32_mod =
      omega arith in
    simp (e, cut)
