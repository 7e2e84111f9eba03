-- ===== src/LightClient.antt =====
-- pkg/lightclient/service.go: what a client that runs no consensus checks of a block.
pub mod Keys
pub mod Sound
pub mod Crash
pub mod Held
pub mod Accept
use mathlib.Core.List.{foldl}
use gleipnir.Prelude.{
  or_nil, ℕ, zero, suc, ◌+◌, ◌*◌, ◌/◌, ◌-◌, Bool, true, false, not, ◌&&◌, ◌||◌, Bytes, codes,
  Option, none, some, List, [], ◌∷◌, length, get_elem?, leb, ltb, nat_beq, if◌then◌else◌, ◌==◌,
  bytes_eq, nat_eq,
}
use gleipnir.Prelude.Table.{Table, lookup, insert}
use gleipnir.Prelude.Words.{add64, sub64}
use gleipnir.Prelude.Bits.{bitmap_bit}
use gleipnir.Prelude.Results.{Result, ok, err, guard, or_fail, ◌>>=◌, ◌>>◌}
use gleipnir.Identity.Dilithium.{Mldsa, verify_dilithium}
use gleipnir.Chain.{Block, ValidatorInfo}
use gleipnir.Chain.BlockHash.{HashCodec, compute_block_hash}
use gleipnir.Chain.KeyRotation.{KeyRotationEntry, Codec, verify_hash, payload_bytes}
use gleipnir.Validation.KeyRotation.{
  Validator, RotationError, new_validator, get_active_public_key, verifies_under, record_rotation,
}
use gleipnir.Smt.{SparseMerkleTree, verify}

pub record TrustAnchor : Type 0 where
  pub block_index : ℕ
  pub block_hash : Option Bytes
  pub validators : List ValidatorInfo
  pub rotations : List (Option KeyRotationEntry)

-- `index_out_of_range` is not an error value but Go's run-time panic.
pub data LightError : Type 0 where
  block_not_found unsupported_version no_validator_set chain_break : LightError
  validator_set_mismatch block_hash_mismatch unknown_proposer bitmap_mismatch : LightError
  degraded_not_announced quorum_not_met bad_signature entry_not_anchored : LightError
  index_out_of_range : LightError

abbrev pub degraded_threshold : ℕ
degraded_threshold = 4

-- normalQuorum and requiredQuorum
unfoldable pub normal_quorum : ℕ → ℕ
normal_quorum n = (2 * n + 2) / 3

unfoldable pub required_quorum : ℕ → ℕ
unfolding normal_quorum
required_quorum n = if ltb n degraded_threshold then 1 else normal_quorum n

-- isDegradedBlock: a nil map has no entry.
unfoldable pub is_degraded_block : Block → Bool
is_degraded_block block = elim block.metadata [
  | none ↦ false
  | some m ↦ elim (lookup (codes "3cp:degraded-block") m) [
    | none ↦ false
    | some value ↦ value == codes "true"
  ]
]

-- present[v.ValidatorID], and whether indexOf finds the validator.
unfoldable pub has_validator : List ValidatorInfo → Bytes → Bool
has_validator [] id = false
has_validator (v ∷ vs) id = if v.validator_id == id then true else has_validator vs id

unfoldable pub all_present : List ValidatorInfo → List ValidatorInfo → Bool
all_present declared [] = true
all_present declared (v ∷ vs) =
    if has_validator declared v.validator_id then all_present declared vs else false

-- checkValidatorSet
unfoldable pub check_validator_set : List ValidatorInfo → List ValidatorInfo → Bool
check_validator_set declared trusted =
    nat_beq (length declared) (length trusted) && all_present declared trusted

-- The set bits of the bitmap among the `n` from number `i` on, ascending.
unfoldable pub set_bits : Bytes → ℕ → ℕ → List ℕ
set_bits bitmap i zero = []
set_bits bitmap i (suc n) =
    let rest = set_bits bitmap (i + 1) n in if bitmap_bit bitmap i then i ∷ rest else rest

unfoldable pub bitmap_signers : Block → Result LightError (List ℕ)
bitmap_signers block =
    let bitmap = or_nil block.prepare_sigs_bitmap in
    let signers = set_bits bitmap 0 (length bitmap * 8) in
    if nat_beq (length signers) (length (or_nil block.prepare_sigs))
    then ok signers
    else err bitmap_mismatch

-- rotationConfig: the default configuration's lead time and overlap.
abbrev pub rotation_lead : ℕ
rotation_lead = 10

abbrev pub rotation_overlap : ℕ
rotation_overlap = 10

abbrev kept_or : Validator → Result RotationError Validator → Validator
kept_or v (ok v') = v'
kept_or v (err e) = v

module _ (lib : Mldsa) (codec : Codec) where
  -- admitRotation, whose error leaves the validator as it was.
  unfoldable pub admit_rotation : Validator → KeyRotationEntry → Validator
  admit_rotation v r =
      if not (verify_hash codec r)
      then v
      else elim (get_active_public_key v r.submitter (sub64 r.effective_cycle 1)) [
        | err e ↦ v
        | ok outgoing ↦ elim (payload_bytes codec r) [
          | none ↦ v
          | some payload ↦
              if not (verifies_under lib outgoing payload r.signature_old)
              then v
              else if not (verify_dilithium lib r.new_public_key payload r.signature_new)
              then v
              else if ltb r.expiry_cycle (add64 r.effective_cycle rotation_overlap)
              then v
              else kept_or v (record_rotation v (some r))
        ]
      ]

  unfoldable pub admit_rotations : Validator → List (Option KeyRotationEntry) → Validator
  admit_rotations v [] = v
  admit_rotations v (none ∷ rs) = admit_rotations v rs
  admit_rotations v (some r ∷ rs) = admit_rotations (admit_rotation v r) rs

  -- newKeyResolver
  unfoldable pub new_key_resolver : TrustAnchor → Validator
  new_key_resolver anchor =
      admit_rotations
        (new_validator anchor.validators anchor.block_index rotation_lead rotation_overlap)
        anchor.rotations

-- The loop of keysForCycle over the validator's identifiers, in any order.
unfoldable pub keys_of_ids :
    Validator → ℕ → Table Bytes Bytes → Table Bytes (List Bytes) → Table Bytes (List Bytes)
keys_of_ids v cycle [] out = out
keys_of_ids v cycle ((id, registered) ∷ ids) out =
    keys_of_ids v cycle ids
      (elim (get_active_public_key v id cycle) [ ok keys ↦ insert id keys out | err e ↦ out ])

unfoldable pub keys_for_cycle : Validator → ℕ → Table Bytes (List Bytes)
keys_for_cycle v cycle = keys_of_ids v cycle v.validators []

-- credited[claimed]
abbrev pub is_credited : List ℕ → ℕ → Bool
is_credited [] i = false
is_credited (j ∷ js) i = nat_beq j i || is_credited js i

module _ (lib : Mldsa) (validators : List ValidatorInfo) (keys : Table Bytes (List Bytes))
    (block_hash : Bytes) where
  -- The loop over the signatures with the validators credited so far, the last one first. The
  -- signers are as many as the signatures.
  unfoldable pub credit : List ℕ → List ℕ → List Bytes → Result LightError (List ℕ)
  credit credited signers [] = ok credited
  credit credited [] (sig ∷ sigs) = err index_out_of_range
  credit credited (claimed ∷ signers) (sig ∷ sigs) =
      let rest = credit (claimed ∷ credited) signers sigs in
      elim (get_elem? validators claimed) [
        | none ↦ err index_out_of_range
        | some info ↦
            if not (verifies_under lib (or_nil (lookup info.validator_id keys)) block_hash sig)
            then err bad_signature
            else if is_credited credited claimed
            then err quorum_not_met
            else rest
      ]

-- 2. Chain linkage.
unfoldable pub is_linked : Block → TrustAnchor → Bool
is_linked block anchor = elim anchor.block_hash [
  | none ↦ nat_beq block.index 0
  | some hash ↦ nat_beq block.index (add64 anchor.block_index 1) && hash == block.prev_hash
]

module _ (lib : Mldsa) (codec : HashCodec) (rotation_codec : Codec) where
  -- Steps 7 and 8: the signatures.
  unfoldable pub verify_signatures : Block → TrustAnchor → List ℕ → Result LightError (Unit {0})
  verify_signatures block anchor signers = do
    let keys = keys_for_cycle (new_key_resolver lib rotation_codec anchor) block.index
    credited ←
        credit lib anchor.validators keys block.block_hash [] signers (or_nil block.prepare_sigs)
    guard (leb (required_quorum (length anchor.validators)) (length credited)) quorum_not_met
    proposer_keys ← or_fail (lookup block.proposer keys) unknown_proposer
    guard (verifies_under lib proposer_keys block.block_hash block.commit_sig) bad_signature

  unfoldable pub verify_block : Option Block → TrustAnchor → Result LightError (Unit {0})
  verify_block none anchor = err block_not_found
  verify_block (some block) anchor = do
    guard (nat_beq block.protocol_version 2) unsupported_version
    guard (not (nat_beq (length anchor.validators) 0)) no_validator_set
    guard (is_linked block anchor) chain_break
    guard (check_validator_set block.validators anchor.validators) validator_set_mismatch
    guard (compute_block_hash codec block == block.block_hash) block_hash_mismatch
    guard (has_validator anchor.validators block.proposer) unknown_proposer
    signers ← bitmap_signers block
    guard (not (ltb (length anchor.validators) degraded_threshold && not (is_degraded_block block)))
        degraded_not_announced
    guard (leb (required_quorum (length anchor.validators)) (length signers)) quorum_not_met
    verify_signatures block anchor signers

-- VerifyAnchored. The prover is an engine's tree.
unfoldable pub verify_anchored :
    (Bytes → Bytes)
    → SparseMerkleTree
    → Option Block
    → Bytes
    → List Bytes
    → Result LightError (Unit {0})
verify_anchored blake3 tree none key proof = err block_not_found
verify_anchored blake3 tree (some block) key proof = do
  guard (nat_beq (length block.state_root) 32) block_hash_mismatch
  guard (verify blake3 tree key key block.state_root proof) entry_not_anchored
