-- ===== src/Ledger/SignCounts.antt =====
-- The authenticator counters: internal/policy/signcount.go.
use arkade_runtime.Base.{ℕ, Bool, false, ◌&&◌, ◌||◌, not, Option, none, some, List, [], ◌∷◌, ◌++◌}
use arkade_runtime.Base.Tests.{ltb, ◌==◌, if◌then◌else◌}
use arkade_runtime.Base.Lists.{length}
use arkade_runtime.Base.Result.{Result, Error, ok, err, ◌>>◌, refuse}
use arkade_runtime.Base.Bytes.{Bytes, codes, bytes_eq, is_empty, be32}
use arkade_runtime.Ledger.Store.{SignCount}

abbrev pub sign_count_mac_domain : Bytes
sign_count_mac_domain = codes "arkade-2fa-vault/webauthn-sign-count/v1"

-- WHERE vault_id=? AND credential_id=?
unfoldable pub is_counter_of : Bytes → Bytes → SignCount → Bool
is_counter_of vault credential r = bytes_eq r.vault_id vault && bytes_eq r.credential_id credential

unfoldable pub find_counter : Bytes → Bytes → List SignCount → Option SignCount
find_counter vault credential [] = none
find_counter vault credential (r ∷ rs) =
    if is_counter_of vault credential r then some r else find_counter vault credential rs

-- INSERT … ON CONFLICT(vault_id, credential_id) DO UPDATE
unfoldable pub put_counter : SignCount → List SignCount → List SignCount
put_counter new [] = new ∷ []
put_counter new (r ∷ rs) =
    if is_counter_of new.vault_id new.credential_id r then new ∷ rs else r ∷ put_counter new rs

-- The foreign key of the table.
unfoldable pub has_vault : Bytes → List Bytes → Bool
has_vault vault [] = false
has_vault vault (v ∷ vs) = bytes_eq v vault || has_vault vault vs

module _ (hmac : Bytes → Bytes → Bytes) where
  unfoldable pub sign_count_mac : Bytes → Bytes → ℕ → Bytes → Bytes
  sign_count_mac vault credential count key =
      hmac key (sign_count_mac_domain ++ (vault ++ (credential ++ be32 count)))

  unfoldable pub verify_sign_count_mac : Bytes → Bytes → ℕ → Bytes → Bytes → Result (Unit {0})
  verify_sign_count_mac vault credential count mac key =
      refuse (not (bytes_eq mac (sign_count_mac vault credential count key))) Error.mac_mismatch

  -- The tail of advanceSignCountLocked that writes the row.
  unfoldable pub store_counter :
      Bytes → List Bytes → Bytes → Bytes → ℕ → List SignCount → Result (List SignCount)
  store_counter key vaults vault credential incoming rows =
      let new : SignCount = record {
        vault_id = vault;
        credential_id = credential;
        sign_count = incoming;
        integrity_mac = sign_count_mac vault credential incoming key;
      } in
      if has_vault vault vaults then ok (put_counter new rows) else err Error.no_rows

  -- The checks on a counter that is stored already.
  unfoldable pub advance_stored :
      Bytes → List Bytes → Bytes → Bytes → ℕ → SignCount → List SignCount → Result (List SignCount)
  unfolding store_counter
  advance_stored key vaults vault credential incoming r rows = do
    verify_sign_count_mac vault credential r.sign_count r.integrity_mac key
    refuse (incoming == 0 && ltb 0 r.sign_count) Error.count_backwards
    refuse (ltb 0 incoming && ltb incoming r.sign_count) Error.count_backwards
    refuse (ltb 0 incoming && (incoming == r.sign_count)) Error.count_backwards
    if (incoming == 0) && (r.sign_count == 0)
        then ok rows
        else store_counter key vaults vault credential incoming rows

  abbrev pub advance_found :
      Bytes
      → List Bytes
      → Bytes
      → Bytes
      → ℕ
      → List SignCount
      → Option SignCount
      → Result (List SignCount)
  advance_found key vaults vault credential incoming rows none =
      store_counter key vaults vault credential incoming rows
  advance_found key vaults vault credential incoming rows (some r) =
      advance_stored key vaults vault credential incoming r rows

  unfoldable pub advance_sign_count_locked :
      Bytes → List Bytes → Bytes → Bytes → ℕ → List SignCount → Result (List SignCount)
  unfolding advance_stored
  advance_sign_count_locked key vaults vault credential incoming rows =
      advance_found key vaults vault credential incoming rows (find_counter vault credential rows)

  unfoldable pub advance_sign_count :
      Bytes → List Bytes → Bytes → Bytes → ℕ → List SignCount → Result (List SignCount)
  advance_sign_count key vaults vault credential incoming rows = do
    refuse (is_empty vault || is_empty credential) Error.identity_required
    refuse (not (length key == 32)) Error.key_required
    advance_sign_count_locked key vaults vault credential incoming rows

  abbrev pub replay_found : Bytes → Bytes → Bytes → ℕ → Option SignCount → Result (Unit {0})
  replay_found key vault credential incoming none = err Error.no_rows
  replay_found key vault credential incoming (some r) = do
    verify_sign_count_mac vault credential r.sign_count r.integrity_mac key
    refuse (not (incoming == r.sign_count)) Error.replay_mismatch

  unfoldable pub verify_sign_count_replay_locked :
      Bytes → Bytes → Bytes → ℕ → List SignCount → Result (Unit {0})
  verify_sign_count_replay_locked key vault credential incoming rows =
      replay_found key vault credential incoming (find_counter vault credential rows)
