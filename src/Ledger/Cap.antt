-- ===== src/Ledger/Cap.antt =====
-- The arithmetic of the rolling allowance (addOutflow and spentInWindow of
-- internal/policy/ledger.go): int64 sums that are checked before they are made.
use arkade_runtime.Base.{
  ℕ, ◌+◌, ◌<◌, ◌≤◌, ◌≡◌, refl, sym, ap, ◌∙◌, true, ◌&&◌, ◌||◌, not, Option, none, some, List, [],
  ◌∷◌, arith, ◌⊎◌, inl, inr,
}
use arkade_runtime.Base.Tests.{ltb, Bool-cases}
use arkade_runtime.Base.Lists.{All}
use arkade_runtime.Base.Int64.{ℤ, pos, negsuc, is_neg, InInt64, int64_half}
use arkade_runtime.Base.Result.{Error, ok, err, from_ok, ok_injective}
use arkade_runtime.Base.Bytes.{Bytes}
use arkade_runtime.Vtxo.State.{vtxo_state_counts_toward_allowance, vtxo_state_awaiting_settlement}
use arkade_runtime.Vtxo.Record.{VtxoOperation, IsTyped}
use arkade_runtime.Vtxo.Seal.{verify_vtxo_operation}
use arkade_runtime.Ledger.Store.{Platform}
use arkade_runtime.Ledger.Allowance.{
  add_outflow, add_charge, charge, sum_operations, allowance_window, or_fail,
}

-- On int64 values addOutflow returns the exact sum where it is an int64, an overflow error where
-- it is not, and an error for a negative part: it never wraps.
pub add_outflow_exact :
    (a f : ℤ)
    → InInt64 a
    → InInt64 f
    → ((m : ℕ) × (n : ℕ) × (a ≡ pos m)
        × (f ≡ pos n)
        × (m + n < int64_half)
        × (add_outflow a f ≡ ok (pos (m + n))))
      ⊎ ((m : ℕ) × (n : ℕ) × (a ≡ pos m)
          × (f ≡ pos n)
          × (int64_half ≤ m + n)
          × (add_outflow a f ≡ err Error.outflow_overflow))
      ⊎ ((is_neg a || is_neg f ≡ true) × (add_outflow a f ≡ err Error.negative_outflow))
unfolding add_outflow
add_outflow_exact (pos m) (pos n) ha hf = elim (Bool-cases (ltb (m + n) int64_half)) [
  | inl fits ↦ inl (m, n, refl, refl, ground arith, ground arith)
  | inr over ↦ inr (inl (m, n, refl, refl, ground arith, ground arith))
]
add_outflow_exact (pos m) (negsuc n) ha hf = inr (inr (refl, refl))
add_outflow_exact (negsuc m) f ha hf = inr (inr (refl, refl))

pub add_outflow-eq-ok :
    (a f t : ℤ)
    → InInt64 a
    → InInt64 f
    → add_outflow a f ≡ ok t
    → (m : ℕ) × (n : ℕ) × (a ≡ pos m) × (f ≡ pos n) × (t ≡ pos (m + n)) × (m + n < int64_half)
add_outflow-eq-ok a f t ha hf h = elim (add_outflow_exact a f ha hf) [
  | inl (m, n, ea, ef, fits, e) ↦ (m, n, ea, ef, ok_injective (sym h ∙ e), fits)
  | inr (inl (m, n, ea, ef, over, e)) ↦ absurd (ground arith)
  | inr (inr (neg, e)) ↦ absurd (ground arith)
]

pub add_outflow_fits :
    (m n : ℕ) → m + n < int64_half → add_outflow (pos m) (pos n) ≡ ok (pos (m + n))
unfolding add_outflow
add_outflow_fits m n h = ground arith

pub pos_injective : {m n : ℕ} → pos m ≡ pos n → m ≡ n
pos_injective h = cc

module _ (p : Platform) where
  add_charge_fits :
      (a k : ℕ) → a + k < int64_half → add_charge p (pos a) (some (pos k)) ≡ ok (pos (a + k))
  unfolding add_charge
  add_charge_fits a k h = ground arith

  add_charge-eq-ok :
      (a k : ℕ) (t : ℤ)
      → a < int64_half
      → k < int64_half
      → add_charge p (pos a) (some (pos k)) ≡ ok t
      → (t ≡ pos (a + k)) × (a + k < int64_half)
  unfolding add_charge
  add_charge-eq-ok a k t ha hk h = (ground arith, ground arith)

  -- What a row is charged is a number that fits.
  pub charge_typed :
      (now : ℕ) (r : VtxoOperation) (c : Option ℤ)
      → IsTyped r
      → charge p now r ≡ ok c
      → (c ≡ none) ⊎ ((k : ℕ) × (c ≡ some (pos k)) × (k < int64_half))
  unfolding charge
  charge_typed now r c t h = elim (Bool-cases (vtxo_state_counts_toward_allowance r.state)) [
    | inl counts ↦
        from_ok (or_fail (p.parse_time r.created_at) Error.bad_time) _ (rw counts at h)
          λ created _ h1.
            elim (Bool-cases (
              not (vtxo_state_awaiting_settlement r.state)
              && ltb (created + allowance_window) now)) [
                | inl old ↦ inl (sym (ok_injective (rw old at h1)))
                | inr live ↦
                    from_ok (add_outflow r.amount_sats r.fee_sats) _ (rw live at h1) λ need e h2.
                      let (m, n, _, _, sum, fits) =
                        add_outflow-eq-ok r.amount_sats r.fee_sats need t.amount t.fee e in
                      inr (m + n, sym (ok_injective h2) ∙ ap some sum, fits)
              ]
    | inr free ↦ inl (sym (ok_injective (rw free at h)))
  ]

  -- The total never falls below where the loop starts, and it fits.
  pub sum_operations-eq-ok :
      (key : Bytes) (now a : ℕ) (t : ℤ) (rows : List VtxoOperation)
      → All IsTyped rows
      → a < int64_half
      → sum_operations p key now (pos a) rows ≡ ok t
      → (b : ℕ) × (t ≡ pos (a + b)) × (a + b < int64_half)
  unfolding sum_operations add_charge
  sum_operations-eq-ok key now a t [] typed ha h =
      (0, sym (ok_injective h) ∙ ap pos (omega arith), omega arith)
  sum_operations-eq-ok key now a t (r ∷ rs) typed ha h =
      from_ok (verify_vtxo_operation p.hmac r key) _ h λ _ _ h1.
        from_ok (charge p now r) _ h1 λ c e h2. elim (charge_typed now r c typed.0 e) [
          | inl free ↦ sum_operations-eq-ok key now a t rs typed.1 ha (rw free at h2)
          | inr (k, paid, small) ↦ from_ok (add_charge p (pos a) c) _ h2 λ total e2 h3.
              let (sum, fits) = add_charge-eq-ok a k total ha small (rw paid at e2) in
              let (b, shape, room) =
                sum_operations-eq-ok key now (a + k) t rs typed.1 fits (rw sum at h3) in
              (k + b, shape ∙ ap pos (omega arith), omega arith)
        ]

  -- The same rows from a higher start: the total is higher by as much, where it still fits.
  sum_operations_shift :
      (key : Bytes) (now a n b : ℕ) (rows : List VtxoOperation)
      → All IsTyped rows
      → a < int64_half
      → sum_operations p key now (pos a) rows ≡ ok (pos (a + b))
      → a + n + b < int64_half
      → sum_operations p key now (pos (a + n)) rows ≡ ok (pos (a + n + b))
  unfolding sum_operations add_charge
  sum_operations_shift key now a n b [] typed ha h room =
      let start : a ≡ a + b = pos_injective (ok_injective h) in ap ok (ap pos (omega arith))
  sum_operations_shift key now a n b (r ∷ rs) typed ha h room =
      from_ok (verify_vtxo_operation p.hmac r key) _ h λ _ v h1.
        from_ok (charge p now r) _ h1 λ c e h2. elim (charge_typed now r c typed.0 e) [
          | inl free ↦
              rw (v, e, free)
                (sum_operations_shift key now a n b rs typed.1 ha (rw free at h2) room)
          | inr (k, paid, small) ↦ from_ok (add_charge p (pos a) c) _ h2 λ total e2 h3.
              let (sum, fits) = add_charge-eq-ok a k total ha small (rw paid at e2) in
              let next = rw sum at h3 in
              let (b', shape, _) =
                sum_operations-eq-ok key now (a + k) (pos (a + b)) rs typed.1 fits next in
              let split : a + b ≡ a + k + b' = pos_injective shape in
              let here : a + n + k ≡ a + k + n = omega arith in
              let there : a + n + b ≡ a + k + n + b' = omega arith in
              let rest =
                sum_operations_shift key now (a + k) n b' rs typed.1 fits (next ∙ ap ok shape)
                  (omega arith) in
              rw (v, e, paid) (rw (add_charge_fits (a + n) k (omega arith)) (rw (here, there) rest))
        ]

  -- One more row in front: the total of the period grows by what the row is charged.
  pub sum_operations_cons :
      (key : Bytes) (now n b : ℕ) (r : VtxoOperation) (rows : List VtxoOperation)
      → verify_vtxo_operation p.hmac r key ≡ ok tt
      → All IsTyped rows
      → charge p now r ≡ ok (some (pos n))
      → n < int64_half
      → sum_operations p key now (pos 0) rows ≡ ok (pos b)
      → n + b < int64_half
      → sum_operations p key now (pos 0) (r ∷ rows) ≡ ok (pos (n + b))
  unfolding sum_operations
  sum_operations_cons key now n b r rows v typed c small h room =
      let zero_b : pos b ≡ pos (0 + b) = ap pos (omega arith) in
      let shifted =
        sum_operations_shift key now 0 n b rows typed (omega arith) (h ∙ ap ok zero_b)
          (omega arith) in
      rw (v, c) (rw (add_charge_fits 0 n (omega arith)) (shifted ∙ ap ok (ap pos (omega arith))))
