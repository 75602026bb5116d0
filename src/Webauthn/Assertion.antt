-- ===== src/Webauthn/Assertion.antt =====
-- The checks of an assertion in internal/webauthn/assert.go. encoding/json on client data and base64
-- are arguments.
use arkade_runtime.Base.{
  ℕ, zero, suc, ◌+◌, ◌*◌, ◌/◌, ◌%◌, ◌≡◌, ap, ◌∙◌, Bool, true, false, ◌||◌, not, Option, none, some,
  [], ◌∷◌, arith,
}
use mathlib.Core.Path.{subst}
use arkade_runtime.Base.Tests.{ltb, ◌==◌, if◌then◌else◌}
use arkade_runtime.Base.Lists.{length, take}
use arkade_runtime.Base.Result.{Result, Error, ok, ◌>>=◌, ◌>>◌, refuse, from_ok, ok_injective}
use arkade_runtime.Base.Bytes.{Bytes, codes, bytes_eq, bytes_eq_sound, is_empty}
use arkade_runtime.Webauthn.Signature.{
  Crypto, or_refused, compact_low_s, parse_compressed_p256, verify_es256,
}
use arkade_runtime.Webauthn.LowS.{or_refused-some}

-- maxClientDataJSON
abbrev pub max_client_data_json : ℕ
max_client_data_json = 4096

pub record Assertion : Type 0 where
  pub credential_id : Bytes
  pub client_data_json : Bytes
  pub authenticator_data : Bytes
  pub der_signature : Bytes

-- `cross_origin` is a pointer.
pub record ClientData : Type 0 where
  pub kind : Bytes
  pub challenge : Bytes
  pub origin : Bytes
  pub cross_origin : Option Bool

pub record Expected : Type 0 where
  pub credential_id : Bytes
  pub webauthn_p256 : Bytes
  pub challenge : Bytes
  pub origin : Bytes
  pub rp_id : Bytes

pub record Verified : Type 0 where
  pub assertion : Assertion
  pub compact_sig : Bytes
  pub client_data : ClientData
  pub sign_count : ℕ

-- json.Unmarshal of client data, and base64.RawURLEncoding.DecodeString.
pub record Formats : Type 0 where
  pub read_client_data : Bytes → Option ClientData
  pub read_base64 : Bytes → Option Bytes

-- `bytes[i]`
unfoldable pub byte_at : ℕ → Bytes → ℕ
byte_at i [] = 0
byte_at zero (b ∷ bs) = b
byte_at (suc i) (b ∷ bs) = byte_at i bs

-- `flags & flagUP`, `flags & flagUV`, `flags & flagAT` and `flags & flagED`.
abbrev pub flag_up : ℕ → Bool
flag_up flags = flags % 2 == 1

abbrev pub flag_uv : ℕ → Bool
flag_uv flags = flags / 4 % 2 == 1

abbrev pub flag_at : ℕ → Bool
flag_at flags = flags / 64 % 2 == 1

abbrev pub flag_ed : ℕ → Bool
flag_ed flags = flags / 128 % 2 == 1

-- `cd.CrossOrigin == nil || *cd.CrossOrigin`
abbrev pub is_cross : Option Bool → Bool
is_cross none = true
is_cross (some b) = b

-- SignCount
unfoldable pub authenticator_sign_count : Bytes → ℕ
unfolding byte_at
authenticator_sign_count auth =
    if ltb (length auth) 37
    then 0
    else byte_at 33 auth * 16777216
      + byte_at 34 auth * 65536
      + byte_at 35 auth * 256
      + byte_at 36 auth

module _ (crypto : Crypto) (formats : Formats) where
  open crypto use {sha256}
  open formats use {read_client_data, read_base64}

  -- From json.Unmarshal to the flag UV, which Validate and ValidateCreate share.
  unfoldable pub check_ceremony : Bytes → Bytes → Bytes → Bytes → Bytes → Bytes → Result ClientData
  unfolding byte_at
  check_ceremony kind challenge origin rp_id auth json = do
    cd ← or_refused (read_client_data json) Error.bad_client_data
    refuse (not (bytes_eq cd.kind kind)) Error.bad_client_data
    refuse (not (bytes_eq cd.origin origin)) Error.bad_client_data
    refuse (is_cross cd.cross_origin) Error.bad_client_data
    got ← or_refused (read_base64 cd.challenge) Error.bad_client_data
    refuse (not (bytes_eq got challenge)) Error.bad_client_data
    refuse (not (bytes_eq (take 32 auth) (sha256 rp_id))) Error.bad_client_data
    refuse (not (flag_up (byte_at 32 auth))) Error.bad_client_data
    refuse (not (flag_uv (byte_at 32 auth))) Error.bad_client_data
    ok cd

  -- Validate
  unfoldable pub validate_assertion : Assertion → Expected → Result Verified
  unfolding check_ceremony authenticator_sign_count
  validate_assertion a exp = do
    refuse (not (bytes_eq a.credential_id exp.credential_id)) Error.identity_required
    refuse (not (length exp.webauthn_p256 == 33)) Error.key_size
    refuse (not (length exp.challenge == 32)) Error.bad_digest
    refuse (ltb (length a.authenticator_data) 37) Error.truncated
    refuse (is_empty a.client_data_json || ltb max_client_data_json (length a.client_data_json))
        Error.out_of_bounds
    cd ←
        check_ceremony (codes "webauthn.get") exp.challenge exp.origin exp.rp_id
          a.authenticator_data a.client_data_json
    compact ← compact_low_s crypto a.der_signature
    key ← parse_compressed_p256 crypto exp.webauthn_p256
    verify_es256 crypto key a.authenticator_data a.client_data_json compact
    ok (record {
      assertion = a;
      compact_sig = compact;
      client_data = cd;
      sign_count = authenticator_sign_count a.authenticator_data;
    })

  -- What a ceremony that is accepted says.
  pub record Ceremony (kind challenge origin rp_id auth json : Bytes) (cd : ClientData)
      : Type 0 where
    pub parsed : read_client_data json ≡ some cd
    pub right_kind : cd.kind ≡ kind
    pub right_origin : cd.origin ≡ origin
    pub same_origin : cd.cross_origin ≡ some false
    pub fresh : read_base64 cd.challenge ≡ some challenge
    pub right_party : take 32 auth ≡ sha256 rp_id
    pub present : flag_up (byte_at 32 auth) ≡ true
    pub verified : flag_uv (byte_at 32 auth) ≡ true

  not_cross : (o : Option Bool) → is_cross o ≡ false → o ≡ some false
  not_cross none h = cc
  not_cross (some b) h = ap some h

  equal_after : (a b : Bytes) → not (bytes_eq a b) ≡ false → a ≡ b
  equal_after a b h = bytes_eq_sound a b (ground arith)

  pub check_ceremony-Ceremony :
      (kind challenge origin rp_id auth json : Bytes) (cd : ClientData)
      → check_ceremony kind challenge origin rp_id auth json ≡ ok cd
      → Ceremony kind challenge origin rp_id auth json cd
  unfolding check_ceremony
  check_ceremony-Ceremony kind challenge origin rp_id auth json cd h =
      from_ok (or_refused (read_client_data json) Error.bad_client_data) _ h λ d read h1.
        from_ok (refuse (not (bytes_eq d.kind kind)) Error.bad_client_data) _ h1 λ _ k h2.
          from_ok (refuse (not (bytes_eq d.origin origin)) Error.bad_client_data) _ h2 λ _ o h3.
            from_ok (refuse (is_cross d.cross_origin) Error.bad_client_data) _ h3 λ _ c h4.
              from_ok (or_refused (read_base64 d.challenge) Error.bad_client_data) _ h4 λ got g h5.
                from_ok (refuse (not (bytes_eq got challenge)) Error.bad_client_data) _ h5 λ _ s h6.
                  from_ok
                    (refuse (not (bytes_eq (take 32 auth) (sha256 rp_id))) Error.bad_client_data) _
                    h6
                    λ _ r h7.
                      from_ok (refuse (not (flag_up (byte_at 32 auth))) Error.bad_client_data) _ h7
                        λ _ up h8.
                          from_ok (refuse (not (flag_uv (byte_at 32 auth))) Error.bad_client_data) _
                            h8
                            λ _ uv h9.
                              subst (Ceremony kind challenge origin rp_id auth json)
                                (ok_injective h9)
                                (record {
                                  parsed = or_refused-some (read_client_data json) d _ read;
                                  right_kind = equal_after d.kind kind (ground arith);
                                  right_origin = equal_after d.origin origin (ground arith);
                                  same_origin = not_cross d.cross_origin (ground arith);
                                  fresh =
                                      or_refused-some (read_base64 d.challenge) got _ g
                                      ∙ ap some (equal_after got challenge (ground arith));
                                  right_party =
                                      equal_after (take 32 auth) (sha256 rp_id) (ground arith);
                                  present = ground arith;
                                  verified = ground arith;
                                })
