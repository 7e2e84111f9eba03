-- ===== src/LightClient/Sound.antt =====
-- What a verified block shows.
use gleipnir.Prelude.{
  or_nil, ℕ, ◌+◌, ◌≤◌, ◌≡◌, refl, subst, ap, true, false, Bytes, bytes_eq, nat_eq, bytes_beq_iff,
  some, List, [], ◌∷◌, arith, length, get_elem?, Has, All, Option-cases, inl, inr,
}
use gleipnir.Prelude.Table.{lookup}
use gleipnir.Prelude.Results.{ok, Result-cases}
use gleipnir.Identity.Dilithium.{Mldsa}
use gleipnir.Chain.{Block, ValidatorInfo}
use gleipnir.Chain.BlockHash.{HashCodec, compute_block_hash}
use gleipnir.Chain.KeyRotation.{Codec}
use gleipnir.Validation.KeyRotation.{Validator, get_active_public_key, verifies_under}
use gleipnir.LightClient.{
  TrustAnchor, required_quorum, has_validator, check_validator_set, bitmap_signers,
  new_key_resolver, keys_for_cycle, is_credited, credit, is_linked, verify_signatures, verify_block,
}
use gleipnir.LightClient.Keys.{keys_for_cycle_lem}

-- No position stands twice.
abbrev pub DistinctPositions : List ℕ → Type 0
DistinctPositions [] = Unit
DistinctPositions (i ∷ is') = (is_credited is' i ≡ false) × DistinctPositions is'

module _ (lib : Mldsa) (v : Validator) (cycle : ℕ) (validators : List ValidatorInfo)
    (block_hash : Bytes) where
  -- A signature verifies under a key that is authoritative for that validator in the cycle.
  pub record SignedBy (sigs : List Bytes) (i : ℕ) : Type 0 where
    pub info : ValidatorInfo
    pub position : get_elem? validators i ≡ some info
    pub keys : List Bytes
    pub authoritative : get_active_public_key v info.validator_id cycle ≡ ok keys
    pub sig : Bytes
    pub listed : Has sig sigs
    pub verified : verifies_under lib keys block_hash sig ≡ true

  under_lookup :
      (id sig : Bytes)
      → verifies_under lib (or_nil (lookup id (keys_for_cycle v cycle))) block_hash sig ≡ true
      → (ks : List Bytes) × (get_active_public_key v id cycle ≡ ok ks)
        × (verifies_under lib ks block_hash sig ≡ true)
  unfolding verifies_under
  under_lookup id sig h = elim (Option-cases (lookup id (keys_for_cycle v cycle))) [
    | inl missing ↦ absurd (ground arith)
    | inr (ks, found) ↦ (ks, keys_for_cycle_lem v cycle id ks found, ground arith)
  ]

  credit_lem :
      (every : List Bytes) (credited signers out : List ℕ) (sigs : List Bytes)
      → ((s : Bytes) → Has s sigs → Has s every)
      → DistinctPositions credited
      → All (SignedBy every) credited
      → credit lib validators (keys_for_cycle v cycle) block_hash credited signers sigs ≡ ok out
      → DistinctPositions out
        × All (SignedBy every) out
        × (length out ≡ length credited + length sigs)
  unfolding credit
  credit_lem every credited signers out [] among d a h =
      let same : credited ≡ out = ground arith in
      (
        subst DistinctPositions same d,
        subst (All (SignedBy every)) same a,
        omega (arith, ap length same),
      )
  credit_lem every credited [] out (sig ∷ sigs) among d a h = absurd (ground arith)
  credit_lem every credited (i ∷ signers) out (sig ∷ sigs) among d a h =
      elim (Option-cases (get_elem? validators i)) [
        | inl beyond ↦ absurd (ground arith)
        | inr (info, position) ↦
            let u = under_lookup info.validator_id sig (ground arith) in
            let new : is_credited credited i ≡ false = ground arith in
            let rest =
              credit_lem every (i ∷ credited) signers out sigs (λ s m. among s (inr m)) (new, d)
                (
                  record {
                    info = info;
                    position = position;
                    keys = u.0;
                    authoritative = u.1;
                    sig = sig;
                    listed = among sig (inl refl);
                    verified = u.2;
                  },
                  a,
                )
                (ground arith) in
            (rest.0, rest.1, omega (arith, rest.2))
      ]

module _ (lib : Mldsa) (codec : HashCodec) (rotation_codec : Codec) (block : Block)
    (anchor : TrustAnchor) where
  abbrev resolver : Validator
  resolver = new_key_resolver lib rotation_codec anchor

  -- The block is linked, whole, from a trusted proposer who signed it, and a quorum of distinct
  -- trusted validators signed its hash, each with a key that is authoritative in its cycle.
  pub record Verified : Type 0 where
    pub linked : is_linked block anchor ≡ true
    pub trusted_set : check_validator_set block.validators anchor.validators ≡ true
    pub whole : compute_block_hash codec block ≡ block.block_hash
    pub trusted_proposer : has_validator anchor.validators block.proposer ≡ true
    pub positions : List ℕ
    pub distinct : DistinctPositions positions
    pub enough : required_quorum (length anchor.validators) ≤ length positions
    pub signed :
        All
          (SignedBy lib resolver block.index anchor.validators block.block_hash
            (or_nil block.prepare_sigs))
          positions
    pub proposer_keys : List Bytes
    pub proposer_authoritative :
        get_active_public_key resolver block.proposer block.index ≡ ok proposer_keys
    pub committed : verifies_under lib proposer_keys block.block_hash block.commit_sig ≡ true

  -- A block that the light client verifies chains onto the anchor, declares the trusted set, matches
  -- its hash, comes from a trusted proposer who signed that hash, and carries signatures of it by as
  -- many distinct trusted validators as the size of the trusted set requires.
  pub verify_block_sound :
      verify_block lib codec rotation_codec (some block) anchor ≡ ok tt → Verified
  unfolding verify_block verify_signatures
  verify_block_sound h = elim (Result-cases (bitmap_signers block)) [
    | inr (x, e) ↦ absurd (ground arith)
    | inl (signers, e) ↦
        elim (Result-cases (
          credit lib anchor.validators (keys_for_cycle resolver block.index) block.block_hash []
            signers (or_nil block.prepare_sigs))) [
              | inr (x, f) ↦ absurd (ground arith)
              | inl (out, f) ↦
                  elim (Option-cases
                    (lookup block.proposer (keys_for_cycle resolver block.index))) [
                      | inl missing ↦ absurd (ground arith)
                      | inr (ks, found) ↦
                          let c =
                            credit_lem lib resolver block.index anchor.validators block.block_hash
                              (or_nil block.prepare_sigs) [] signers out (or_nil block.prepare_sigs)
                              (λ s m. m) tt tt f in
                          record {
                            linked = ground arith;
                            trusted_set = ground arith;
                            whole = ground (
                              arith,
                              bytes_beq_iff (compute_block_hash codec block) block.block_hash,
                            );
                            trusted_proposer = ground arith;
                            positions = out;
                            distinct = c.0;
                            enough = ground arith;
                            signed = c.1;
                            proposer_keys = ks;
                            proposer_authoritative =
                                keys_for_cycle_lem resolver block.index block.proposer ks found;
                            committed = ground arith;
                          }
                    ]
            ]
  ]
