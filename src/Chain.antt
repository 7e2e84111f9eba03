-- ===== src/Chain.antt =====
-- pkg/chain: the block, the entries and the quorum configuration (block.go), and the key rotation
-- entry (key_rotation.go).
pub mod KeyRotation
pub mod BlockHash
pub mod Mandate
use gleipnir.Prelude.{ℕ, Bool, Bytes, Option, List, ◌&&◌}
use gleipnir.Prelude.Int.{ℤ, pos, leb_ℤ, ltb_ℤ}
use gleipnir.Prelude.Table.{Table}

pub record QuorumConfig : Type 0 where
  pub total_validators : ℤ
  pub required_sigs : ℤ

unfoldable pub is_valid : QuorumConfig → Bool
is_valid q =
    ltb_ℤ (pos 0) q.total_validators
    && (ltb_ℤ (pos 0) q.required_sigs && leb_ℤ q.required_sigs q.total_validators)

pub record ProvenanceEntry : Type 0 where
  pub hash : Bytes
  pub submitter : Bytes
  pub timestamp : ℤ
  pub label : Bytes
  pub approver : Option Bytes
  pub reference : Option Bytes
  pub signature : Bytes
  pub mandate_ref : Option Bytes

pub record ValidatorInfo : Type 0 where
  pub validator_id : Bytes
  pub dilithium3_pk : Bytes
  pub vrf_pk : Bytes
  pub contract_hash : Bytes

-- `lambda1` is the bit pattern of a float64, which no operation here computes with. A slice or a
-- map that the code compares with nil is an `Option`.
pub record Block : Type 0 where
  pub index : ℕ
  pub prev_hash : Bytes
  pub state_root : Bytes
  pub proposer : Bytes
  pub anchored : Option (List ProvenanceEntry)
  pub lambda1 : ℕ
  pub timestamp : ℤ
  pub validators : List ValidatorInfo
  pub quorum : QuorumConfig
  pub block_hash : Bytes
  pub protocol_version : ℕ
  pub prepare_sigs_bitmap : Option Bytes
  pub prepare_sigs : Option (List Bytes)
  pub commit_sig : Bytes
  pub external_anchors : List Bytes
  pub key_rotation_epoch : ℕ
  pub legacy_anchor : Bytes
  pub metadata : Option (Table Bytes Bytes)
