-- ===== src/Chain/Mandate.antt =====
-- MandateEntry and Rule of pkg/chain/block.go, and pkg/chain/mandate_signature.go. CBOR and BLAKE3
-- are third-party code, given by `MandateCodec`. A rule's `Fields`, which nothing here reads, are
-- left out; its severity bounds are the bit patterns of float64 values.
use gleipnir.Prelude.{
  ℕ, Bool, true, false, not, Bytes, bytes_eq, ◌==◌, zero_bytes, Option, none, some, List, [],
  length, nat_beq, if◌then◌else◌,
}
use gleipnir.Prelude.Int.{ℤ, pos, leb_ℤ, ltb_ℤ}
use gleipnir.Prelude.Results.{Result, ok, guard, or_fail, ◌>>=◌, ◌>>◌}
use gleipnir.Identity.Dilithium.{
  Mldsa, verify_dilithium, sign_dilithium, secret_key_size, signature_size,
}

pub record Rule : Type 0 where
  pub event_class : Bytes
  pub description : Bytes
  pub severity_min : ℕ
  pub severity_max : ℕ
  pub asset_criticality_min : ℕ
  pub regulatory_scope : List Bytes
  pub mandatory : Bool
  pub required_fields : List Bytes
  pub max_deferral_sec : ℕ

pub record MandateEntry : Type 0 where
  pub id : Bytes
  pub authority : Bytes
  pub version : ℕ
  pub prev_version : Bytes
  pub valid_from : ℤ
  pub valid_until : ℤ
  pub supersedes : Bytes
  pub rules : List Rule
  pub policy_hash : Bytes
  pub policy_uri : Bytes
  pub signature : Bytes

-- The canonical CBOR encoder (`none` is its error) and BLAKE3-256.
pub record MandateCodec : Type 0 where
  pub marshal : MandateEntry → Option Bytes
  pub blake3 : Bytes → Bytes

pub data SigningError : Type 0 where
  mandate_signing mandate_encoding : SigningError

abbrev is_zero : ℤ → Bool
is_zero (pos n) = nat_beq n 0
is_zero z = false

-- IsActiveAt
unfoldable pub is_active_at : MandateEntry → ℤ → Bool
is_active_at m timestamp =
    if ltb_ℤ timestamp m.valid_from
    then false
    else if is_zero m.valid_until
    then true
    else leb_ℤ timestamp m.valid_until

module _ (codec : MandateCodec) where
  -- MarshalPayloadCBOR
  unfoldable pub marshal_payload_cbor : MandateEntry → Option Bytes
  marshal_payload_cbor m = codec.marshal (record m { id = zero_bytes 32; signature = [] })

  unfoldable pub mandate_id : MandateEntry → Bytes
  mandate_id m = elim (codec.marshal (record m { id = zero_bytes 32; signature = [] })) [
    | none ↦ zero_bytes 32
    | some encoded ↦ codec.blake3 encoded
  ]

  -- VerifyHash
  unfoldable pub verify_mandate_hash : MandateEntry → Bool
  verify_mandate_hash m = m.id == mandate_id m

  module _ (lib : Mldsa) where
    unfoldable pub sign_with_authority : MandateEntry → Bytes → Result SigningError MandateEntry
    sign_with_authority m secret_key = do
      guard (nat_beq (length secret_key) secret_key_size) mandate_signing
      payload ← or_fail (marshal_payload_cbor m) mandate_encoding
      let sig = sign_dilithium lib secret_key payload
      guard (nat_beq (length sig) signature_size) mandate_signing
      let signed = record m { signature = sig }
      ok (record signed { id = mandate_id signed })

    unfoldable pub verify_authority_signature : MandateEntry → Bytes → Bool
    verify_authority_signature m public_key =
        if not (nat_beq (length m.signature) signature_size)
        then false
        else elim (marshal_payload_cbor m) [
          | none ↦ false
          | some payload ↦ verify_dilithium lib public_key payload m.signature
        ]
