-- ===== src/Examples/Setting.antt =====
-- A small platform and small rows, to run the code of internal/policy on.
use arkade_runtime.Base.{ℕ, zero, suc, ◌%◌, ◌<◌, ◌≡◌, refl, none, some, [], ◌∷◌, arith}
use arkade_runtime.Base.Lists.{length, All}
use arkade_runtime.Base.Int64.{pos}
use arkade_runtime.Base.Result.{Result, ok, err}
use arkade_runtime.Base.Bytes.{Bytes, codes}
use arkade_runtime.Vtxo.State.{reserved}
use arkade_runtime.Vtxo.Record.{VtxoOperation, VtxoOperationInput, IsTyped}
use arkade_runtime.Sequence.RoundTrip.{IsByte}
use arkade_runtime.Sequence.Laws.{IsTag}
use arkade_runtime.Ledger.Store.{Platform, IsLawful, Db, SequenceBase}
use arkade_runtime.Sequence.Base.{policy_sequence_base_mac}

abbrev pub fill : ℕ → ℕ → Bytes
fill zero b = []
fill (suc n) b = b ∷ fill n b

-- A hash of 32 bytes: the length of the message, thirty-two times.
abbrev pub toy_hmac : Bytes → Bytes → Bytes
toy_hmac key message = fill 32 (length message % 256)

pub length-fill : (n b : ℕ) → length (fill n b) ≡ n
length-fill zero b = refl
length-fill (suc n) b = omega (arith, length-fill n b)

pub fill-IsByte : (n b : ℕ) → b < 256 → All IsByte (fill n b)
fill-IsByte zero b h = tt
fill-IsByte (suc n) b h = (h, fill-IsByte n b h)

pub toy-IsTag : IsTag toy_hmac
toy-IsTag = record {
  size = λ k m. length-fill 32 (length m % 256);
  bytes = λ k m. fill-IsByte 32 (length m % 256) (omega arith);
}

-- Times are texts as long as their number, and there is nothing in the other tables.
abbrev pub toy : Platform
toy = record {
  hmac = toy_hmac;
  parse_time = λ t. some (length t);
  format_time = λ n. fill n 48;
  Lanes = Unit {0};
  lane_rows = λ t. 0;
  reject_active_renewal = λ t k v. ok tt;
  invalidate_armed = λ t k v i n. ok t;
  renewal_allowance = λ t k v n. ok (pos 0);
  delegation_allowance = λ t k v n. ok (pos 0);
}

pub toy_lawful : IsLawful toy
toy_lawful = record {
  rows-invalidate = λ t u key vault ins now h. omega arith;
  renewal_typed = λ t key vault now a h. ground arith;
  delegation_typed = λ t key vault now a h. ground arith;
}

abbrev pub key : Bytes
key = fill 32 7

abbrev pub vault : Bytes
vault = codes "v"

abbrev pub payment : VtxoOperation
payment = record {
  operation_id = codes "op";
  vault_id = vault;
  purpose = codes "spend";
  bundle_digest = fill 32 1;
  state = reserved;
  amount_sats = pos 1000;
  fee_sats = pos 10;
  fee_policy_digest = fill 32 2;
  dest_script = fill 4 3;
  change_script = [];
  change_sats = pos 0;
  change_vout = none;
  unsigned_psbt = [];
  authorized_psbt = [];
  pending_proof_digest = [];
  authorized_pending_proof = [];
  checkpoint_psbts = [];
  checkpoint_request_psbts = [];
  checkpoint_tapscript = [];
  ark_txid = [];
  expires_at = fill 9 48;
  created_at = fill 3 48;
  last_dest_script = [];
  integrity_mac = [];
}

pub payment-IsTyped : IsTyped payment
payment-IsTyped = record {
  amount = omega arith;
  fee = omega arith;
  change = omega arith;
  vout = tt;
}

abbrev pub coin : VtxoOperationInput
coin = record {
  operation_id = codes "op";
  txid = fill 32 5;
  vout = pos 1;
  value_sats = pos 1010;
  script = fill 2 6;
  integrity_mac = [];
}

-- The ledger of a network without retired rows.
abbrev pub base_row : SequenceBase
base_row = record {
  base = pos 0;
  integrity_mac = policy_sequence_base_mac toy (codes "test") 0 key;
}

abbrev pub empty : Db (Unit {0})
empty = record {
  vaults = vault ∷ [];
  operations = [];
  inputs = [];
  sign_counts = [];
  bases = base_row ∷ [];
  lanes = tt;
}

abbrev pub value_or {ℓ} : {A : Type ℓ} → A → Result A → A
value_or a (ok b) = b
value_or a (err e) = a
