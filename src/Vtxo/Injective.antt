-- ===== src/Vtxo/Injective.antt =====
-- What the bytes under a MAC determine: canonicalVtxoOperation and canonicalVtxoOperationInput of
-- internal/policy/vtxo.go.
use mathlib.Core.List.{append_assoc}
use arkade_runtime.Base.{
  ℕ, ◌<◌, ◌≡◌, refl, sym, ap, ◌∙◌, Option, none, some, [], ◌++◌, false, arith, ◌||◌, not,
}
use arkade_runtime.Base.Tests.{◌==◌}
use arkade_runtime.Base.Lists.{length, All}
use arkade_runtime.Base.Int64.{ℤ, pos, negsuc, is_neg, to_u64, uint64_mod, InInt64}
use arkade_runtime.Base.Result.{ok, >>=-eq-ok, refuse-eq-ok}
use arkade_runtime.Base.Bytes.{
  Bytes, bytes_eq, bytes_eq_sound, is_empty, le32, ∷-injective, le32-injective, le64-injective,
  append-injective,
}
use arkade_runtime.Vtxo.State.{VtxoState, state_bytes, require_vtxo_state}
use arkade_runtime.Vtxo.Record.{VtxoOperation, IsTyped, SameFields, InUint32}
use arkade_runtime.Vtxo.Encoding.{encode, IsShort, append_fields-eq-ok, encode-injective}
use arkade_runtime.Vtxo.Canonical.{
  append_credential_field, append_fields, operation_fields, operation_numbers, vout_bytes,
  canonical_vtxo_operation, check_vtxo_operation, vtxo_operation_mac_domain,
  vtxo_operation_canonical_ver, vtxo_purpose_spend,
}

-- The six constants are six texts.
state_bytes-injective :
    (s t : VtxoState)
    → require_vtxo_state s ≡ ok tt
    → require_vtxo_state t ≡ ok tt
    → state_bytes s ≡ state_bytes t
    → s ≡ t
unfolding require_vtxo_state state_bytes
state_bytes-injective s t hs ht h = ground arith

abbrev pub header : Bytes
header =
    (le32 (length vtxo_operation_mac_domain) ++ vtxo_operation_mac_domain)
    ++ le32 vtxo_operation_canonical_ver

-- What an accepted operation looks like: its guards passed, and its bytes are laid out so.
pub canonical_vtxo_operation-eq-ok :
    (r : VtxoOperation) {out : Bytes}
    → canonical_vtxo_operation r ≡ ok out
    → (check_vtxo_operation r ≡ ok tt)
      × (out ≡ header ++ (encode (operation_fields r) ++ operation_numbers r))
      × All IsShort (operation_fields r)
unfolding canonical_vtxo_operation append_credential_field
canonical_vtxo_operation-eq-ok r {out} h =
    let (u, passed, h1) = >>=-eq-ok (check_vtxo_operation r) _ h in
    let (body, laid, h2) = >>=-eq-ok (append_fields header (operation_fields r)) _ h1 in
    let (shape, short) = append_fields-eq-ok header (operation_fields r) laid in
    let layout : out ≡ header ++ (encode (operation_fields r) ++ operation_numbers r) =
      cc (append_assoc header (encode (operation_fields r)) (operation_numbers r)) in
    (passed, layout, short)

pub record IsChecked (r : VtxoOperation) : Type 0 where
  pub spends : r.purpose ≡ vtxo_purpose_spend
  pub known : require_vtxo_state r.state ≡ ok tt
  pub amount : is_neg r.amount_sats ≡ false
  pub fee : is_neg r.fee_sats ≡ false
  pub change : is_neg r.change_sats ≡ false

pub check_vtxo_operation-IsChecked :
    (r : VtxoOperation) → check_vtxo_operation r ≡ ok tt → IsChecked r
unfolding check_vtxo_operation
check_vtxo_operation-IsChecked r h =
    let (_, h1) = refuse-eq-ok (is_empty r.operation_id || is_empty r.vault_id) _ _ h in
    let (purpose, h2) = refuse-eq-ok (not (bytes_eq r.purpose vtxo_purpose_spend)) _ _ h1 in
    let (_, known, h3) = >>=-eq-ok (require_vtxo_state r.state) _ h2 in
    let (_, h4) = refuse-eq-ok (not (length r.bundle_digest == 32)) _ _ h3 in
    let (signs, _) =
      refuse-eq-ok (is_neg r.amount_sats || is_neg r.fee_sats || is_neg r.change_sats) _ _ h4 in
    record {
      spends = bytes_eq_sound r.purpose vtxo_purpose_spend (ground arith);
      known = known;
      amount = ground arith;
      fee = ground arith;
      change = ground arith;
    }

pub to_u64-injective :
    (a b : ℤ)
    → is_neg a ≡ false
    → is_neg b ≡ false
    → InInt64 a
    → InInt64 b
    → to_u64 a ≡ to_u64 b
    → a ≡ b
to_u64-injective (pos m) (pos n) p q i j h = ap pos (omega arith)
to_u64-injective (pos m) (negsuc n) p q i j h = cc
to_u64-injective (negsuc m) b p q i j h = cc

vout_bytes-injective :
    (v w : Option ℕ) → InUint32 v → InUint32 w → vout_bytes v ≡ vout_bytes w → v ≡ w
unfolding vout_bytes
vout_bytes-injective none none i j h = refl
vout_bytes-injective none (some w) i j h = cc
vout_bytes-injective (some v) none i j h = cc
vout_bytes-injective (some v) (some w) i j h =
    ap some (le32-injective v w [] [] i j (∷-injective h).1).0

pub to_u64_lt : (a : ℤ) → to_u64 a < uint64_mod
to_u64_lt (pos n) = omega arith
to_u64_lt (negsuc n) = omega arith

operation_numbers-injective :
    (r s : VtxoOperation)
    → IsTyped r
    → IsTyped s
    → IsChecked r
    → IsChecked s
    → operation_numbers r ≡ operation_numbers s
    → (r.amount_sats ≡ s.amount_sats)
      × (r.fee_sats ≡ s.fee_sats)
      × (r.change_sats ≡ s.change_sats)
      × (r.change_vout ≡ s.change_vout)
unfolding operation_numbers
operation_numbers-injective r s tr ts cr cs h =
    let (a, h1) =
      le64-injective (to_u64 r.amount_sats) (to_u64 s.amount_sats) _ _ (to_u64_lt r.amount_sats)
        (to_u64_lt s.amount_sats) h in
    let (f, h2) =
      le64-injective (to_u64 r.fee_sats) (to_u64 s.fee_sats) _ _ (to_u64_lt r.fee_sats)
        (to_u64_lt s.fee_sats) h1 in
    let (c, h3) =
      le64-injective (to_u64 r.change_sats) (to_u64 s.change_sats) _ _ (to_u64_lt r.change_sats)
        (to_u64_lt s.change_sats) h2 in
    (
      to_u64-injective r.amount_sats s.amount_sats cr.amount cs.amount tr.amount ts.amount a,
      to_u64-injective r.fee_sats s.fee_sats cr.fee cs.fee tr.fee ts.fee f,
      to_u64-injective r.change_sats s.change_sats cr.change cs.change tr.change ts.change c,
      vout_bytes-injective r.change_vout s.change_vout tr.vout ts.vout h3,
    )

-- Two operations of int64 and uint32 numbers that are accepted with the same canonical bytes
-- agree in every column but the MAC.
pub canonical_vtxo_operation-injective :
    (r s : VtxoOperation) {out : Bytes}
    → IsTyped r
    → IsTyped s
    → canonical_vtxo_operation r ≡ ok out
    → canonical_vtxo_operation s ≡ ok out
    → SameFields r s
unfolding operation_fields
canonical_vtxo_operation-injective r s tr ts hr hs =
    let (pr, lr, sr) = canonical_vtxo_operation-eq-ok r hr in
    let (ps, ls, ss) = canonical_vtxo_operation-eq-ok s hs in
    let cr = check_vtxo_operation-IsChecked r pr in
    let cs = check_vtxo_operation-IsChecked s ps in
    let (_, body) =
      append-injective header header (encode (operation_fields r) ++ operation_numbers r)
        (encode (operation_fields s) ++ operation_numbers s) refl (sym lr ∙ ls) in
    let (fields, numbers) =
      encode-injective (operation_fields r) (operation_fields s) (operation_numbers r)
        (operation_numbers s) refl sr ss body in
    let (amount, fee, change, vout) = operation_numbers-injective r s tr ts cr cs numbers in
    let state = state_bytes-injective r.state s.state cr.known cs.known (cc fields) in
    cc (fields, amount, fee, change, vout, state)
