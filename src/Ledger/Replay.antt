-- ===== src/Ledger/Replay.antt =====
-- What the counters of internal/policy/signcount.go guarantee.
use arkade_runtime.Base.{
  ℕ, ◌<◌, ◌≤◌, ◌≡◌, true, false, not, ◌&&◌, none, some, List, [], ◌∷◌, arith, inl, inr,
}
use arkade_runtime.Base.Tests.{ltb, ◌==◌, Bool-cases, Option-cases}
use arkade_runtime.Base.Result.{Error, ok, err, refuse-eq-ok}
use arkade_runtime.Base.Bytes.{Bytes, bytes_eq, bytes_eq_sound, bytes_eq_refl}
use arkade_runtime.Ledger.Store.{SignCount}
use arkade_runtime.Ledger.SignCounts.{
  is_counter_of, find_counter, put_counter, sign_count_mac, verify_sign_count_mac, store_counter,
  advance_stored, advance_found, advance_sign_count_locked,
}

find_counter-put_self :
    (new : SignCount) (rows : List SignCount)
    → find_counter new.vault_id new.credential_id (put_counter new rows) ≡ some new
unfolding find_counter put_counter is_counter_of
find_counter-put_self new [] =
    ground (arith, bytes_eq_refl new.vault_id, bytes_eq_refl new.credential_id)
find_counter-put_self new (r ∷ rs) = ground (
  arith,
  bytes_eq_refl new.vault_id,
  bytes_eq_refl new.credential_id,
  find_counter-put_self new rs,
)

same_counter :
    (vault credential : Bytes) (r new : SignCount)
    → is_counter_of new.vault_id new.credential_id r ≡ true
    → is_counter_of vault credential new ≡ false
    → is_counter_of vault credential r ≡ false
unfolding is_counter_of
same_counter vault credential r new e h = ground (
  arith,
  bytes_eq_sound r.vault_id new.vault_id,
  bytes_eq_sound r.credential_id new.credential_id,
)

-- Writing one counter leaves the others.
find_counter-put_ne :
    (vault credential : Bytes) (new : SignCount) (rows : List SignCount)
    → is_counter_of vault credential new ≡ false
    → find_counter vault credential (put_counter new rows) ≡ find_counter vault credential rows
unfolding find_counter put_counter
find_counter-put_ne vault credential new [] h = rw h
find_counter-put_ne vault credential new (r ∷ rs) h =
    elim (Bool-cases (is_counter_of new.vault_id new.credential_id r)) [
      | inl e ↦ rw (e, find_counter) (rw (h, same_counter vault credential r new e h))
      | inr e ↦ rw (e, find_counter) (ground (arith, find_counter-put_ne vault credential new rs h))
    ]

module _ (hmac : Bytes → Bytes → Bytes) where
  abbrev pub counter : Bytes → Bytes → Bytes → ℕ → SignCount
  counter key vault credential n = record {
    vault_id = vault;
    credential_id = credential;
    sign_count = n;
    integrity_mac = sign_count_mac hmac vault credential n key;
  }

  store_counter_lem :
      (key : Bytes) (vaults : List Bytes) (vault credential : Bytes) (n : ℕ)
      (rows rows' : List SignCount)
      → store_counter hmac key vaults vault credential n rows ≡ ok rows'
      → rows' ≡ put_counter (counter key vault credential n) rows
  unfolding store_counter
  store_counter_lem key vaults vault credential n rows rows' h = ground arith

  -- What an accepted counter went through: it is new, or it replaced a lower one that was authentic,
  -- or both are zero and nothing is written.
  pub data Accepted (key vault credential : Bytes) (n : ℕ) (rows rows' : List SignCount)
      : Type 0 where
    fresh :
        find_counter vault credential rows ≡ none
        → rows' ≡ put_counter (counter key vault credential n) rows
        → Accepted key vault credential n rows rows'
    above :
        (r : SignCount)
        → find_counter vault credential rows ≡ some r
        → r.integrity_mac ≡ sign_count_mac hmac vault credential r.sign_count key
        → r.sign_count < n
        → rows' ≡ put_counter (counter key vault credential n) rows
        → Accepted key vault credential n rows rows'
    zero :
        (r : SignCount)
        → find_counter vault credential rows ≡ some r
        → r.sign_count ≡ 0
        → n ≡ 0
        → rows' ≡ rows
        → Accepted key vault credential n rows rows'

  -- A counter is accepted only if it is the first of its credential, or above the one on file,
  -- whose MAC is right, or both are zero; in the first two cases the counter is then written,
  -- and in the third nothing is.
  pub advance-Accepted :
      (key : Bytes) (vaults : List Bytes) (vault credential : Bytes) (n : ℕ)
      (rows rows' : List SignCount)
      → advance_sign_count_locked hmac key vaults vault credential n rows ≡ ok rows'
      → Accepted key vault credential n rows rows'
  unfolding advance_sign_count_locked verify_sign_count_mac
  advance-Accepted key vaults vault credential n rows rows' h =
      elim (Option-cases (find_counter vault credential rows)) [
        | inl e ↦ fresh e (store_counter_lem key vaults vault credential n rows rows' (rw e at h))
        | inr (r, e) ↦ stored r e (rw e at h)
      ]
    where
      stored :
          (r : SignCount)
          → find_counter vault credential rows ≡ some r
          → advance_stored hmac key vaults vault credential n r rows ≡ ok rows'
          → Accepted key vault credential n rows rows'
      stored r e k =
          let (tag, k1) =
            refuse-eq-ok
              (not
                (bytes_eq r.integrity_mac (sign_count_mac hmac vault credential r.sign_count key)))
              _ _ k in
          let (a, k2) = refuse-eq-ok (n == 0 && ltb 0 r.sign_count) _ _ k1 in
          let (b, k3) = refuse-eq-ok (ltb 0 n && ltb n r.sign_count) _ _ k2 in
          let (c, k4) = refuse-eq-ok (ltb 0 n && (n == r.sign_count)) _ _ k3 in
          let mac = bytes_eq_sound r.integrity_mac _ (ground arith) in
          elim (Bool-cases ((n == 0) && (r.sign_count == 0))) [
            | inl z ↦ zero r e (ground arith) (ground arith) (ground arith)
            | inr z ↦
                above r e mac (ground arith)
                  (store_counter_lem key vaults vault credential n rows rows' (rw z at k4))
          ]

  -- An accepted counter above zero is the one on file for its credential afterwards.
  pub advance_stores :
      (key : Bytes) (vaults : List Bytes) (vault credential : Bytes) (n : ℕ)
      (rows rows' : List SignCount)
      → 0 < n
      → advance_sign_count_locked hmac key vaults vault credential n rows ≡ ok rows'
      → find_counter vault credential rows' ≡ some (counter key vault credential n)
  advance_stores key vaults vault credential n rows rows' p h =
      go (advance-Accepted key vaults vault credential n rows rows' h)
    where
      go :
          Accepted key vault credential n rows rows'
          → find_counter vault credential rows' ≡ some (counter key vault credential n)
      go (fresh _ e) = rw e (find_counter-put_self (counter key vault credential n) rows)
      go (above _ _ _ _ e) = rw e (find_counter-put_self (counter key vault credential n) rows)
      go (zero _ _ _ z _) = absurd (omega arith)

  -- After a counter above zero has been accepted for a credential, an assertion of that
  -- credential with the same or a lower counter is refused.
  pub advance_refuses_replay :
      (key : Bytes) (vaults : List Bytes) (vault credential : Bytes) (n m : ℕ)
      (rows rows' : List SignCount)
      → 0 < n
      → m ≤ n
      → advance_sign_count_locked hmac key vaults vault credential n rows ≡ ok rows'
      → advance_sign_count_locked hmac key vaults vault credential m rows'
        ≡ err Error.count_backwards
  unfolding advance_sign_count_locked verify_sign_count_mac
  advance_refuses_replay key vaults vault credential n m rows rows' p q h =
      rw (advance_stores key vaults vault credential n rows rows' p h, advance_found)
        (rw (bytes_eq_refl (sign_count_mac hmac vault credential n key)) (ground arith))
