-- ===== src/Ledger/Granted.antt =====
-- A reservation that is accepted stays within the allowance (ReserveVtxoOperation of
-- internal/policy/vtxo_ledger.go and spentInWindow of internal/policy/ledger.go).
use arkade_runtime.Base.{ℕ, ◌+◌, ◌≤◌, ◌≡◌, refl, sym, ap, ◌∙◌, false, some, List, arith}
use arkade_runtime.Base.Tests.{ltb}
use arkade_runtime.Base.Lists.{length, All}
use arkade_runtime.Base.Int64.{ℤ, pos, is_neg, InInt64, ◌≤ℤ◌}
use arkade_runtime.Base.Result.{ok, ok_injective}
use arkade_runtime.Base.Bytes.{Bytes}
use arkade_runtime.Vtxo.State.{
  reserved, vtxo_state_counts_toward_allowance, vtxo_state_awaiting_settlement,
}
use arkade_runtime.Vtxo.Record.{VtxoOperation, VtxoOperationInput, IsTyped}
use arkade_runtime.Vtxo.Seal.{verify_vtxo_operation, seal_shape, verify-seal}
use arkade_runtime.Ledger.Store.{Platform, Db, IsLawful}
use arkade_runtime.Ledger.Allowance.{add_outflow, charge, spent_in_window, allowance_window}
use arkade_runtime.Ledger.Guards.{abort_expired}
use arkade_runtime.Ledger.Cap.{add_outflow-eq-ok}
use arkade_runtime.Ledger.Reserve.{Clock, check_request, reserve_rows}
use arkade_runtime.Ledger.Stages.{reserve_rows-Stages}
use arkade_runtime.Ledger.Exclusive.{insert_operation_lem, check_request-reserved}
use arkade_runtime.Ledger.Within.{ltb-false, abort_expired-IsTyped, check_cap_lem, spent_cons}

module _ (p : Platform) where
  charge_fresh :
      (now created : ℕ) (r : VtxoOperation) (n : ℤ)
      → r.state ≡ reserved
      → p.parse_time r.created_at ≡ some created
      → now ≤ created + allowance_window
      → add_outflow r.amount_sats r.fee_sats ≡ ok n
      → charge p now r ≡ ok (some n)
  unfolding charge vtxo_state_counts_toward_allowance vtxo_state_awaiting_settlement
  charge_fresh now created r n st time fresh sum =
      let inside : ltb (created + allowance_window) now ≡ false =
        ltb-false (created + allowance_window) now fresh in
      rw (st, time) (rw (inside, sum) refl)

  charge_sealed :
      (now created : ℕ) (r sealed : VtxoOperation) (n : ℕ)
      → p.parse_time r.created_at ≡ some created
      → now ≤ created + allowance_window
      → r.state ≡ reserved
      → add_outflow r.amount_sats r.fee_sats ≡ ok (pos n)
      → sealed ≡ record r { integrity_mac = sealed.integrity_mac }
      → charge p now sealed ≡ ok (some (pos n))
  charge_sealed now created r sealed n time fresh st sum shape =
      ap (charge p now) shape
      ∙ charge_fresh now created (record r { integrity_mac = sealed.integrity_mac }) (pos n) st time
          fresh sum

  check_request-limit :
      (rec : VtxoOperation) (inputs : List VtxoOperationInput) (limit : ℤ)
      → check_request p rec inputs limit ≡ ok tt
      → is_neg limit ≡ false
  unfolding check_request
  check_request-limit rec inputs limit h = ground arith

  spent_ignores_inputs :
      (k who : Bytes) (now : ℕ) (db : Db p.Lanes) (rows : List VtxoOperationInput)
      → spent_in_window p k now (record db { inputs = rows }) who ≡ spent_in_window p k now db who
  unfolding spent_in_window
  spent_ignores_inputs k who now db rows = refl

  -- What an accepted reservation says of the allowance: what the window had used once expired
  -- reservations were swept and armed delegations were disarmed, and what it has used now.
  pub record Grant (k : Bytes) (clock : Clock) (rec : VtxoOperation)
      (inputs : List VtxoOperationInput) (limit : ℤ) (db db' : Db p.Lanes) : Type 0 where
    pub swept : Db p.Lanes
    pub lanes : p.Lanes
    pub used : ℕ
    pub need : ℕ
    pub sweep : abort_expired p k rec.vault_id clock.expiry db ≡ ok swept
    pub freed : p.invalidate_armed swept.lanes k rec.vault_id inputs clock.allowance ≡ ok lanes
    pub before :
        spent_in_window p k clock.allowance (record swept { lanes = lanes }) rec.vault_id
        ≡ ok (pos used)
    pub needed : add_outflow rec.amount_sats rec.fee_sats ≡ ok (pos need)
    pub after : spent_in_window p k clock.allowance db' rec.vault_id ≡ ok (pos (need + used))
    pub within : pos (need + used) ≤ℤ limit

  -- A reservation that is accepted by a clock within 24 hours of the time in the payment, on
  -- rows of int64 numbers, with a hash of 32 bytes and with int64 allowances of the other
  -- tables, counts at once and in full: the outflow of the vault over the window, computed on
  -- the new tables, is the outflow that the old tables had after expired reservations were
  -- swept and armed delegations disarmed, plus the amount and the fee of the payment, as exact
  -- numbers, and it is within the cap.
  pub reserve_rows_within_cap :
      (law : IsLawful p) (k : Bytes) (clock : Clock) (rec : VtxoOperation)
      (inputs : List VtxoOperationInput) (limit : ℤ) (created : ℕ) (db db' : Db p.Lanes)
      → ((key m : Bytes) → length (p.hmac key m) ≡ 32)
      → All IsTyped db.operations
      → IsTyped rec
      → InInt64 limit
      → p.parse_time rec.created_at ≡ some created
      → clock.allowance ≤ created + allowance_window
      → reserve_rows p k clock rec inputs limit db ≡ ok db'
      → Grant k clock rec inputs limit db db'
  reserve_rows_within_cap law k clock rec inputs limit created db db' size typed t lt time fresh h =
      let s = reserve_rows-Stages p k clock rec inputs limit db db' h in
      let swept = abort_expired-IsTyped p k rec.vault_id clock.expiry db s.swept typed s.sweep in
      let shape = seal_shape p.hmac rec s.sealed s.key s.seals in
      let (_, filled) = insert_operation_lem p s.sealed _ s.filled s.inserts in
      let (m, n, _, _, need, fits) =
        add_outflow-eq-ok rec.amount_sats rec.fee_sats s.need t.amount t.fee s.needed in
      let paid =
        charge_sealed clock.allowance created rec s.sealed (m + n) time fresh
          (check_request-reserved p rec inputs limit s.requested) (s.needed ∙ ap ok need) shape in
      let owner : s.sealed.vault_id ≡ rec.vault_id = ap (λ (x : VtxoOperation). x.vault_id) shape in
      let before : Db p.Lanes = record s.swept { lanes = s.lanes } in
      let (u, used, small, run) =
        spent_cons p law k clock.allowance (m + n) s.used s.sealed before swept
          (λ key e.
            ap (verify_vtxo_operation p.hmac s.sealed) (ok_injective (sym e ∙ s.keyed))
            ∙ (verify-seal p.hmac rec s.sealed s.key (size s.key) s.seals).0)
          paid fits (ap (spent_in_window p k clock.allowance before) owner ∙ s.counted) in
      let (under, room) =
        check_cap_lem p limit u (m + n) lt (check_request-limit rec inputs limit s.requested) small
          fits (rw (used, need) at s.capped) in
      let of = λ (x : Db p.Lanes). spent_in_window p k clock.allowance x rec.vault_id in
      record {
        swept = s.swept;
        lanes = s.lanes;
        used = u;
        need = m + n;
        sweep = s.sweep;
        freed = s.freed;
        before = s.counted ∙ ap ok used;
        needed = s.needed ∙ ap ok need;
        after =
            ap of s.result
            ∙ spent_ignores_inputs k rec.vault_id clock.allowance s.filled s.rows
            ∙ ap of filled
            ∙ ap (spent_in_window p k clock.allowance _) (sym owner)
            ∙ run room;
        within = under;
      }
