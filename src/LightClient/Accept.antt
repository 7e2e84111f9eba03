-- ===== src/LightClient/Accept.antt =====
-- A block that the leader finalises, seen by a light client.
use gleipnir.Prelude.{
  or_nil, ℕ, suc, ◌+◌, ◌*◌, ◌≤◌, ◌<◌, ◌≡◌, refl, sym, ap, ◌∙◌, subst, true, false, not, ◌&&◌, Bytes,
  bytes_eq, nat_eq, ◌==◌, bytes_beq_iff, some, List, [], ◌∷◌, map, arith, length, get_elem?, count,
  ltb, leb, le→leb, nat_beq,
}
use gleipnir.Prelude.Table.{Table, lookup}
use gleipnir.Prelude.Results.{ok}
use gleipnir.Identity.Dilithium.{Mldsa, sign_dilithium}
use gleipnir.Chain.{Block, ValidatorInfo}
use gleipnir.Chain.BlockHash.{HashCodec, compute_block_hash}
use gleipnir.Chain.KeyRotation.{Codec}
use gleipnir.Validation.KeyRotation.{verifies_under}
use gleipnir.Consensus.Peer.{Peer}
use gleipnir.Consensus.Commit.{build_bitmap, compact_sigs}
use gleipnir.Consensus.Commit.Writing.{
  has_sig, build_bitmap-bit, build_bitmap-Marks, build_bitmap-room,
}
use gleipnir.Consensus.Commit.Phase.{Committer, PrepareResult, final_block}
use gleipnir.Engine.Rotations.{info_of}
use gleipnir.LightClient.Held.{
  positions, held, set_bits-positions, compact_sigs-held, length-positions, length-held,
  SignedUnder, credit-held,
}
use gleipnir.LightClient.{
  TrustAnchor, required_quorum, is_degraded_block, has_validator, check_validator_set,
  bitmap_signers, new_key_resolver, keys_for_cycle, credit, is_linked, verify_signatures,
  verify_block, degraded_threshold,
}

-- What the client reads of a bitmap that was built from the map, and of its signatures.
bitmap_signers-held :
    (sigs : Table Bytes Bytes) (peers : List Peer) (b : Block)
    → b.prepare_sigs_bitmap ≡ some (build_bitmap sigs peers)
    → b.prepare_sigs ≡ some (held sigs peers)
    → bitmap_signers b ≡ ok (positions sigs 0 peers)
unfolding bitmap_signers
bitmap_signers-held sigs peers b bitmap payload =
    let bm = build_bitmap sigs peers in
    let bits =
      set_bits-positions sigs bm 0 (length bm * 8) peers (build_bitmap-room sigs peers)
        (λ j le. build_bitmap-bit sigs peers j) in
    let same : length (positions sigs 0 peers) ≡ length (held sigs peers) =
      length-positions sigs 0 peers ∙ sym (length-held sigs peers) in
    rw (bitmap, payload, bits, same) (ground arith)

not_zero : (k : ℕ) → 0 < k → nat_beq k 0 ≡ false
not_zero k h = ground arith

zero_plus : (m : ℕ) → 0 + m ≡ m
zero_plus m = omega arith

length-infos : (ps : List Peer) → length (map info_of ps) ≡ length ps
length-infos [] = refl
length-infos (p ∷ ps) = ap suc (length-infos ps)

verify_block_accepts :
    (lib : Mldsa) (codec : HashCodec) (rotation_codec : Codec) (b : Block) (anchor : TrustAnchor)
    (signers out : List ℕ) (ks : List Bytes)
    → b.protocol_version ≡ 2
    → nat_beq (length anchor.validators) 0 ≡ false
    → is_linked b anchor ≡ true
    → check_validator_set b.validators anchor.validators ≡ true
    → compute_block_hash codec b ≡ b.block_hash
    → has_validator anchor.validators b.proposer ≡ true
    → bitmap_signers b ≡ ok signers
    → (ltb (length anchor.validators) degraded_threshold && not (is_degraded_block b)) ≡ false
    → required_quorum (length anchor.validators) ≤ length signers
    → credit lib anchor.validators
        (keys_for_cycle (new_key_resolver lib rotation_codec anchor) b.index)
        b.block_hash
        []
        signers
        (or_nil b.prepare_sigs)
      ≡ ok out
    → required_quorum (length anchor.validators) ≤ length out
    → lookup b.proposer (keys_for_cycle (new_key_resolver lib rotation_codec anchor) b.index)
      ≡ some ks
    → verifies_under lib ks b.block_hash b.commit_sig ≡ true
    → verify_block lib codec rotation_codec (some b) anchor ≡ ok tt
unfolding verify_block verify_signatures
verify_block_accepts lib codec rotation_codec b anchor signers out ks v2 some_set linked declared
      hashed known marked announced many credited enough found signs =
    let whole : (compute_block_hash codec b == b.block_hash) ≡ true =
      (bytes_beq_iff (compute_block_hash codec b) b.block_hash).1 hashed in
    let two : nat_beq b.protocol_version 2 ≡ true = ground arith in
    let quorum : leb (required_quorum (length anchor.validators)) (length signers) ≡ true =
      le→leb _ _ many in
    let quorum' : leb (required_quorum (length anchor.validators)) (length out) ≡ true =
      le→leb _ _ enough in
    rw
      (
        two, some_set, linked, declared, whole, known, marked, announced, quorum, credited, quorum',
        found, signs,
      )
      refl

module _ (lib : Mldsa) (codec : HashCodec) (rotation_codec : Codec) (e : Committer)
    (r : PrepareResult) (anchor : TrustAnchor) where
  abbrev anchored_keys : Table Bytes (List Bytes)
  anchored_keys = keys_for_cycle (new_key_resolver lib rotation_codec anchor) r.block.index

  -- What the light client's trust and the leader's block must agree on: the same validators in the
  -- same order, linkage, the candidate's hash, and keys under which leader and signers have signed.
  pub record Agrees : Type 0 where
    pub same_set : anchor.validators ≡ map info_of e.peers
    pub linked : is_linked r.block anchor ≡ true
    pub declared : check_validator_set r.block.validators anchor.validators ≡ true
    pub hashed : compute_block_hash codec r.block ≡ r.block.block_hash
    pub proposer_known : has_validator anchor.validators r.block.proposer ≡ true
    pub announced :
        (ltb (length anchor.validators) degraded_threshold && not (is_degraded_block r.block))
        ≡ false
    pub signed :
        SignedUnder r.prepare_sigs lib anchor.validators anchored_keys r.block.block_hash e.peers
    pub leader_keys : List Bytes
    pub leader_found : lookup r.block.proposer anchored_keys ≡ some leader_keys
    pub leader_signs :
        verifies_under lib leader_keys r.block.block_hash
          (sign_dilithium lib e.secret_key r.block.block_hash)
        ≡ true

  -- The light client verifies the final block that a leader makes of a prepared one, where the two
  -- agree on the validators, their keys and the chain, the bitmap is the one built from the collected
  -- signatures, and these are as many as the client asks of so many validators.
  pub final_block_accepted :
      Agrees
      → r.prepare_bitmap ≡ build_bitmap r.prepare_sigs e.peers
      → 0 < length e.peers
      → required_quorum (length e.peers) ≤ count (has_sig r.prepare_sigs) e.peers
      → verify_block lib codec rotation_codec (some (final_block lib codec e r)) anchor ≡ ok tt
  unfolding final_block compute_block_hash is_linked is_degraded_block
  final_block_accepted a bits someone enough =
      let sigs = r.prepare_sigs in
      let n : length anchor.validators ≡ length e.peers =
        ap length a.same_set ∙ length-infos e.peers in
      let bm = build_bitmap sigs e.peers in
      let written : compact_sigs sigs r.prepare_bitmap 0 e.peers ≡ held sigs e.peers = rw bits (
        compact_sigs-held sigs bm 0 e.peers
          (subst (λ k. k ≤ length bm * 8) (sym (zero_plus (length e.peers)))
            (build_bitmap-room sigs e.peers))
          (build_bitmap-Marks sigs e.peers)) in
      let c =
        credit-held sigs lib anchor.validators anchored_keys r.block.block_hash 0 e.peers []
          (λ j le. refl)
          (λ m.
            ap (get_elem? anchor.validators) (zero_plus m)
            ∙ ap (λ (vs : List ValidatorInfo). get_elem? vs m) a.same_set)
          a.signed in
      let asked = subst (λ k. required_quorum k ≤ count (has_sig sigs) e.peers) (sym n) enough in
      verify_block_accepts lib codec rotation_codec (final_block lib codec e r) anchor
        (positions sigs 0 e.peers) c.0 a.leader_keys refl
        (subst (λ k. nat_beq k 0 ≡ false) (sym n) (not_zero (length e.peers) someone)) a.linked
        a.declared refl a.proposer_known
        (bitmap_signers-held sigs e.peers (final_block lib codec e r) (ap some bits)
          (ap some written))
        a.announced
        (subst (λ k. required_quorum (length anchor.validators) ≤ k)
          (sym (length-positions sigs 0 e.peers)) asked)
        (subst
          (λ h.
            credit lib anchor.validators anchored_keys h [] (positions sigs 0 e.peers)
              (compact_sigs sigs r.prepare_bitmap 0 e.peers)
            ≡ ok c.0)
          (sym a.hashed) (rw written c.1))
        (subst (λ k. required_quorum (length anchor.validators) ≤ k) (sym c.2)
          (subst (λ k. required_quorum (length anchor.validators) ≤ k)
            (sym (zero_plus (count (has_sig sigs) e.peers))) asked))
        a.leader_found
        (subst (λ h. verifies_under lib a.leader_keys h (sign_dilithium lib e.secret_key h) ≡ true)
          (sym a.hashed) a.leader_signs)
