-- ===== src/Chain/KeyRotation.antt =====
-- pkg/chain/key_rotation.go: the signed request of a validator to change its keys. CBOR and BLAKE3
-- are third-party code, given by `Codec`.
use gleipnir.Prelude.{
  ℕ, Bool, Bytes, Option, none, some, [], codes, zero_bytes, leb, length, nat_beq, ◌&&◌, ◌==◌,
  bytes_eq,
}
use gleipnir.Prelude.Int.{ℤ}
use gleipnir.Prelude.Results.{Result, ok, guard, or_fail, ◌>>=◌, ◌>>◌}
use gleipnir.Identity.Dilithium.{Mldsa, sign_dilithium, secret_key_size, signature_size}

pub record KeyRotationEntry : Type 0 where
  pub hash : Bytes
  pub submitter : Bytes
  pub timestamp : ℤ
  pub label : Bytes
  pub new_public_key : Bytes
  pub new_vrf_public_key : Bytes
  pub effective_cycle : ℕ
  pub expiry_cycle : ℕ
  pub signature_old : Bytes
  pub signature_new : Bytes

pub record KeyRotationPayload : Type 0 where
  pub label : Bytes
  pub submitter : Bytes
  pub new_public_key : Bytes
  pub new_vrf_public_key : Bytes
  pub effective_cycle : ℕ
  pub expiry_cycle : ℕ

-- The canonical CBOR encoder (`none` is its error) and BLAKE3-256.
pub record Codec : Type 0 where
  pub marshal_payload : KeyRotationPayload → Option Bytes
  pub marshal_entry : KeyRotationEntry → Option Bytes
  pub blake3 : Bytes → Bytes

pub data BuildError : Type 0 where
  invalid_current_key invalid_new_key invalid_new_sig signing_failed encoding : BuildError

abbrev pub key_rotation_label : Bytes
key_rotation_label = codes "3cp:key-rotation:v1"

unfoldable pub payload : KeyRotationEntry → KeyRotationPayload
payload k = record {
  label = key_rotation_label;
  submitter = k.submitter;
  new_public_key = k.new_public_key;
  new_vrf_public_key = k.new_vrf_public_key;
  effective_cycle = k.effective_cycle;
  expiry_cycle = k.expiry_cycle;
}

-- cycle in [EffectiveCycle, ExpiryCycle]
unfoldable pub in_overlap : KeyRotationEntry → ℕ → Bool
in_overlap k cycle = leb k.effective_cycle cycle && leb cycle k.expiry_cycle

unfoldable pub is_effective : KeyRotationEntry → ℕ → Bool
is_effective k cycle = leb k.effective_cycle cycle

module _ (codec : Codec) where
  unfoldable pub payload_bytes : KeyRotationEntry → Option Bytes
  payload_bytes k = codec.marshal_payload (payload k)

  unfoldable pub compute_hash : KeyRotationEntry → Bytes
  compute_hash k = elim (codec.marshal_entry (record k { hash = zero_bytes 32 })) [
    | none ↦ zero_bytes 32
    | some encoded ↦ codec.blake3 encoded
  ]

  unfoldable pub verify_hash : KeyRotationEntry → Bool
  verify_hash k = k.hash == compute_hash k

-- newRotationEntryShell
unfoldable pub entry_shell : Bytes → Bytes → Bytes → ℕ → ℕ → ℤ → KeyRotationEntry
entry_shell submitter new_pk new_vrf_pk effective expiry timestamp = record {
  hash = zero_bytes 32;
  submitter = submitter;
  timestamp = timestamp;
  label = key_rotation_label;
  new_public_key = new_pk;
  new_vrf_public_key = new_vrf_pk;
  effective_cycle = effective;
  expiry_cycle = expiry;
  signature_old = [];
  signature_new = [];
}

module _ (lib : Mldsa) (codec : Codec) where
  -- signRotationWithCurrentKey
  unfoldable pub sign_with_current_key :
      KeyRotationEntry → Bytes → Result BuildError KeyRotationEntry
  sign_with_current_key entry current_sk = do
    guard (nat_beq (length current_sk) secret_key_size) invalid_current_key
    bytes ← or_fail (payload_bytes codec entry) encoding
    let sig_old = sign_dilithium lib current_sk bytes
    guard (nat_beq (length sig_old) signature_size) signing_failed
    let signed = record entry { signature_old = sig_old }
    ok (record signed { hash = compute_hash codec signed })

  -- NewKeyRotationEntry
  unfoldable pub new_entry :
      Bytes → Bytes → Bytes → Bytes → Bytes → ℕ → ℕ → ℤ → Result BuildError KeyRotationEntry
  unfolding entry_shell sign_with_current_key
  new_entry submitter current_sk new_pk new_vrf_pk new_sk effective expiry timestamp = do
    guard (nat_beq (length new_sk) secret_key_size) invalid_new_key
    let shell = entry_shell submitter new_pk new_vrf_pk effective expiry timestamp
    bytes ← or_fail (payload_bytes codec shell) encoding
    let sig_new = sign_dilithium lib new_sk bytes
    guard (nat_beq (length sig_new) signature_size) signing_failed
    sign_with_current_key (record shell { signature_new = sig_new }) current_sk

  -- NewKeyRotationEntryWithNewSignature
  unfoldable pub new_entry_with_new_signature :
      Bytes → Bytes → Bytes → Bytes → Bytes → ℕ → ℕ → ℤ → Result BuildError KeyRotationEntry
  unfolding entry_shell sign_with_current_key
  new_entry_with_new_signature submitter current_sk new_pk new_vrf_pk sig_new effective expiry ts =
      do
        let shell = entry_shell submitter new_pk new_vrf_pk effective expiry ts
        guard (nat_beq (length sig_new) signature_size) invalid_new_sig
        sign_with_current_key (record shell { signature_new = sig_new }) current_sk
