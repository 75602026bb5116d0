-- ===== src/Ledger/Stages.antt =====
-- The stages that an accepted reservation went through (ReserveVtxoOperation of
-- internal/policy/vtxo_ledger.go).
use arkade_runtime.Base.{◌≡◌, sym, List}
use arkade_runtime.Base.Int64.{ℤ}
use arkade_runtime.Base.Result.{ok, from_ok, ok_injective}
use arkade_runtime.Base.Bytes.{Bytes}
use arkade_runtime.Vtxo.Record.{VtxoOperation, VtxoOperationInput}
use arkade_runtime.Vtxo.Seal.{seal_vtxo_operation}
use arkade_runtime.Ledger.Store.{Platform, Db}
use arkade_runtime.Ledger.Allowance.{add_outflow, integrity_key_copy, spent_in_window}
use arkade_runtime.Ledger.Guards.{abort_expired, reject_overlapping, reject_concurrent}
use arkade_runtime.Ledger.Reserve.{
  Clock, insert_operation, insert_inputs, check_cap, check_request, reserve_rows,
}

module _ (p : Platform) where
  pub record Stages (integrity_key : Bytes) (clock : Clock) (rec : VtxoOperation)
      (inputs : List VtxoOperationInput) (cap : ℤ) (db db' : Db p.Lanes) : Type 0 where
    pub swept : Db p.Lanes
    pub lanes : p.Lanes
    pub used : ℤ
    pub need : ℤ
    pub key : Bytes
    pub sealed : VtxoOperation
    pub filled : Db p.Lanes
    pub rows : List VtxoOperationInput
    pub requested : check_request p rec inputs cap ≡ ok tt
    pub sweep : abort_expired p integrity_key rec.vault_id clock.expiry db ≡ ok swept
    pub apart : reject_overlapping p integrity_key rec.operation_id inputs swept ≡ ok tt
    pub alone : reject_concurrent p integrity_key rec.vault_id rec.operation_id swept ≡ ok tt
    pub idle : p.reject_active_renewal swept.lanes integrity_key rec.vault_id ≡ ok tt
    pub freed :
        p.invalidate_armed swept.lanes integrity_key rec.vault_id inputs clock.allowance ≡ ok lanes
    pub counted :
        spent_in_window p integrity_key clock.allowance
          (record swept { lanes = lanes })
          rec.vault_id
        ≡ ok used
    pub needed : add_outflow rec.amount_sats rec.fee_sats ≡ ok need
    pub capped : check_cap p cap used need ≡ ok tt
    pub keyed : integrity_key_copy integrity_key ≡ ok key
    pub seals : seal_vtxo_operation p.hmac rec key ≡ ok sealed
    pub inserts : insert_operation sealed (record swept { lanes = lanes }) ≡ ok filled
    pub fills : insert_inputs p key rec.operation_id inputs filled.inputs ≡ ok rows
    pub result : db' ≡ record filled { inputs = rows }

  pub reserve_rows-Stages :
      (integrity_key : Bytes) (clock : Clock) (rec : VtxoOperation)
      (inputs : List VtxoOperationInput) (cap : ℤ) (db db' : Db p.Lanes)
      → reserve_rows p integrity_key clock rec inputs cap db ≡ ok db'
      → Stages integrity_key clock rec inputs cap db db'
  unfolding reserve_rows
  reserve_rows-Stages k clock rec inputs limit db db' h0 =
      from_ok (check_request p rec inputs limit) _ h0 λ _ requested h1.
        from_ok (abort_expired p k rec.vault_id clock.expiry db) _ h1 λ swept sweep h2.
          from_ok (reject_overlapping p k rec.operation_id inputs swept) _ h2 λ _ apart h3.
            from_ok (reject_concurrent p k rec.vault_id rec.operation_id swept) _ h3 λ _ alone h4.
              from_ok (p.reject_active_renewal swept.lanes k rec.vault_id) _ h4 λ _ idle h5.
                from_ok (p.invalidate_armed swept.lanes k rec.vault_id inputs clock.allowance) _ h5
                  λ lanes freed h6.
                    from_ok
                      (spent_in_window p k clock.allowance (record swept { lanes = lanes })
                        rec.vault_id)
                      _ h6
                      λ used counted h7.
                        from_ok (add_outflow rec.amount_sats rec.fee_sats) _ h7 λ need needed h8.
                          from_ok (check_cap p limit used need) _ h8 λ _ capped h9.
                            from_ok (integrity_key_copy k) _ h9 λ key keyed h10.
                              from_ok (seal_vtxo_operation p.hmac rec key) _ h10 λ sealed seals h11.
                                from_ok (insert_operation sealed (record swept { lanes = lanes })) _
                                  h11
                                  λ filled inserts h12.
                                    from_ok
                                      (insert_inputs p key rec.operation_id inputs filled.inputs) _
                                      h12
                                      λ rows fills h13. record {
                                        swept = swept;
                                        lanes = lanes;
                                        used = used;
                                        need = need;
                                        key = key;
                                        sealed = sealed;
                                        filled = filled;
                                        rows = rows;
                                        requested = requested;
                                        sweep = sweep;
                                        apart = apart;
                                        alone = alone;
                                        idle = idle;
                                        freed = freed;
                                        counted = counted;
                                        needed = needed;
                                        capped = capped;
                                        keyed = keyed;
                                        seals = seals;
                                        inserts = inserts;
                                        fills = fills;
                                        result = sym (ok_injective h13);
                                      }
