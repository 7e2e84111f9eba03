-- ===== src/Consensus/Commit/Accept.antt =====
-- What the leader writes, the others accept.
use Prim.Native.Nat.add
use native.Mathlib.Numerals.{add-one}
use gleipnir.Prelude.{
  leb, ◌∙◌, ℕ, suc, ◌+◌, ◌*◌, ◌≤◌, ◌≡◌, refl, sym, ap, true, false, Bytes, Option, none, some, List,
  [], ◌∷◌, arith, length, count, get_elem?, Option-cases, inl, inr, All, bytes_eq, ◌==◌,
  bytes_beq_iff, bytes_beq_refl,
}
use gleipnir.Prelude.Table.{Table, lookup}
use gleipnir.Prelude.Results.{ok}
use gleipnir.Prelude.Bits.{bitmap_bit}
use gleipnir.Identity.Dilithium.{Mldsa, sign_dilithium}
use gleipnir.Chain.{Block}
use gleipnir.Chain.BlockHash.{HashCodec, compute_block_hash, verify_block_hash}
use gleipnir.Validation.KeyRotation.{Validator, verify_signature_with_overlap}
use gleipnir.Consensus.Peer.{Peer, peer_id}
use gleipnir.Consensus.Commit.{
  build_bitmap, compact_sigs, count_bits_before, verified_count, peer_verifies,
  verify_prepare_quorum, required_by_block,
}
use gleipnir.Consensus.Commit.Writing.{has_sig, Marks, build_bitmap-Marks, build_bitmap-room}
use gleipnir.Consensus.Commit.Phase.{
  Committer, PrepareResult, run_commit_phase, final_block, check_final, find_leader,
}

count_bits_before-set :
    (bitmap : Bytes) (i : ℕ)
    → bitmap_bit bitmap i ≡ true
    → count_bits_before bitmap (i + 1) ≡ count_bits_before bitmap i + 1
unfolding count_bits_before
count_bits_before-set bitmap i h = rw add-one (ground arith)

count_bits_before-clear :
    (bitmap : Bytes) (i : ℕ)
    → bitmap_bit bitmap i ≡ false
    → count_bits_before bitmap (i + 1) ≡ count_bits_before bitmap i
unfolding count_bits_before
count_bits_before-clear bitmap i h = rw add-one (ground arith)

module _ (lib : Mldsa) (eng : Option Validator) (hash : Bytes) (cycle : ℕ)
    (sigs : Table Bytes Bytes) where
  -- Every signature that the map holds for a peer verifies.
  abbrev pub AllVerify : List Peer → Type 0
  AllVerify = All λ p.
      (sig : Bytes)
      → lookup (peer_id p) sigs ≡ some sig
      → peer_verifies lib eng hash cycle p sig ≡ true

  verified_count-compact :
      (bitmap : Bytes) (every : List Bytes) (i : ℕ) (ps : List Peer) (n : ℕ)
      → i + length ps ≤ length bitmap * 8
      → Marks sigs bitmap i ps
      → AllVerify ps
      → ((m : ℕ)
          → get_elem? every (count_bits_before bitmap i + m)
            ≡ get_elem? (compact_sigs sigs bitmap i ps) m)
      → verified_count lib eng hash cycle bitmap every i ps n ≡ some (n + count (has_sig sigs) ps)
  unfolding verified_count compact_sigs
  verified_count-compact bitmap every i [] n room marks good at = ground arith
  verified_count-compact bitmap every i (p ∷ ps) n room marks good at =
      elim (Option-cases (lookup (peer_id p) sigs)) [
        | inl e ↦
            let clear : bitmap_bit bitmap i ≡ false = ground (arith, marks.0) in
            ground (
              arith,
              verified_count-compact bitmap every (i + 1) ps n (omega arith) marks.1 good.1
                  (λ m. rw (count_bits_before-clear bitmap i clear) (ground (arith, at m))),
            )
        | inr (sig, e) ↦
            let set : bitmap_bit bitmap i ≡ true = ground (arith, marks.0) in
            ground (
              arith,
              at 0,
              good.0 sig e,
              verified_count-compact bitmap every (i + 1) ps (n + 1) (omega arith) marks.1 good.1
                  (λ m.
                    rw (count_bits_before-set bitmap i set, next m) (ground (arith, at (suc m)))),
            )
      ]
    where
      next : (m : ℕ) → count_bits_before bitmap i + 1 + m ≡ count_bits_before bitmap i + suc m
      next m = omega arith

module _ (lib : Mldsa) (codec : HashCodec) (eng : Option Validator) (cycle : ℕ) where
  -- The hash does not cover what the leader fills in.
  final_block-hash :
      (e : Committer) (r : PrepareResult)
      → verify_block_hash codec r.block ≡ true
      → (final_block lib codec e r).block_hash ≡ r.block.block_hash
  unfolding final_block verify_block_hash compute_block_hash
  final_block-hash e r h = sym ((bytes_beq_iff _ _).0 h)

  -- What the PREPARE check says of the final block: whether the collected signatures are as many as
  -- the block must show.
  pub final_block-decided :
      (e : Committer) (r : PrepareResult)
      → verify_block_hash codec r.block ≡ true
      → r.prepare_bitmap ≡ build_bitmap r.prepare_sigs e.peers
      → AllVerify lib eng r.block.block_hash cycle r.prepare_sigs e.peers
      → verify_prepare_quorum lib eng (final_block lib codec e r) e.peers cycle
        ≡ leb (required_by_block r.block e.peers) (count (has_sig r.prepare_sigs) e.peers)
  unfolding verify_prepare_quorum required_by_block
  final_block-decided e r hash bits good = rw (final_block-hash e r hash) (
      unfold final_block in
      rw bits (
        ground (
          arith,
          verified_count-compact lib eng r.block.block_hash cycle r.prepare_sigs
              (build_bitmap r.prepare_sigs e.peers)
              (compact_sigs r.prepare_sigs (build_bitmap r.prepare_sigs e.peers) 0 e.peers) 0
              e.peers 0 (omega (arith, build_bitmap-room r.prepare_sigs e.peers))
              (build_bitmap-Marks r.prepare_sigs e.peers) good
              (λ m. unfold count_bits_before in rw (add.zero m) refl),
        )))

  -- The final block that the leader builds passes the PREPARE check of the others, with or without
  -- an engine: where the candidate's hash is right, the bitmap is the one built from the collected
  -- signatures, each of these verifies for its peer, and they are as many as the block must show.
  pub final_block-verifies :
      (e : Committer) (r : PrepareResult)
      → verify_block_hash codec r.block ≡ true
      → r.prepare_bitmap ≡ build_bitmap r.prepare_sigs e.peers
      → AllVerify lib eng r.block.block_hash cycle r.prepare_sigs e.peers
      → required_by_block r.block e.peers ≤ count (has_sig r.prepare_sigs) e.peers
      → verify_prepare_quorum lib eng (final_block lib codec e r) e.peers cycle ≡ true
  final_block-verifies e r hash bits good enough =
      final_block-decided e r hash bits good ∙ ground (arith, enough)

-- The leader and the key: the leader is a peer, and what it signs verifies under a key that is
-- authoritative for it.
pub record LeaderSigns (lib : Mldsa) (leader validator : Committer) (cycle : ℕ) (hash : Bytes)
    : Type 0 where
  pub root : Bytes
  pub found : find_leader leader.my_id validator.peers ≡ some root
  pub verifies :
      verify_signature_with_overlap lib validator.rotations root hash
        (sign_dilithium lib leader.secret_key hash)
        cycle
      ≡ true

final_block-signature :
    (lib : Mldsa) (codec : HashCodec) (e : Committer) (r : PrepareResult)
    → verify_block_hash codec r.block ≡ true
    → (final_block lib codec e r).commit_sig ≡ sign_dilithium lib e.secret_key r.block.block_hash
unfolding final_block verify_block_hash compute_block_hash
final_block-signature lib codec e r h =
    ap (sign_dilithium lib e.secret_key) (sym ((bytes_beq_iff _ _).0 h))

final_block-hash_covers :
    (lib : Mldsa) (codec : HashCodec) (e : Committer) (r : PrepareResult)
    → (compute_block_hash codec (final_block lib codec e r)
        == (final_block lib codec e r).block_hash)
      ≡ true
unfolding final_block compute_block_hash
final_block-hash_covers lib codec e r = bytes_beq_refl _

-- When the leader of a prepared block finalises it, a validator with the same peers that receives the
-- final block commits that same block.
pub run_commit_phase-agree :
    (lib : Mldsa) (codec : HashCodec) (cycle : ℕ) (e e' : Committer) (r r' : PrepareResult)
    → r.quorum_reached ≡ true
    → r'.quorum_reached ≡ true
    → r.leader_id ≡ e.my_id
    → r'.leader_id ≡ e.my_id
    → (e.my_id == e'.my_id) ≡ false
    → e'.has_gossip ≡ true
    → e'.peers ≡ e.peers
    → verify_block_hash codec r.block ≡ true
    → r.prepare_bitmap ≡ build_bitmap r.prepare_sigs e.peers
    → AllVerify lib (some e'.rotations) r.block.block_hash cycle r.prepare_sigs e.peers
    → required_by_block r.block e.peers ≤ count (has_sig r.prepare_sigs) e.peers
    → LeaderSigns lib e e' cycle r.block.block_hash
    → (b : Block) × (run_commit_phase lib codec e cycle r none ≡ ok b)
      × (run_commit_phase lib codec e' cycle r' (some b) ≡ ok b)
unfolding run_commit_phase check_final
run_commit_phase-agree lib codec cycle e e' r r' q q' l l' other gossip same hash bits good enough
      signs =
    (
      final_block lib codec e r,
      ground (arith, bytes_beq_iff r.leader_id e.my_id),
      ground (
        arith,
        final_block-verifies lib codec (some e'.rotations) cycle e r hash bits good enough,
        final_block-hash lib codec none cycle e r hash,
        final_block-signature lib codec e r hash,
        final_block-hash_covers lib codec e r,
        bytes_beq_iff r'.leader_id e'.my_id,
        signs.found,
        signs.verifies,
      ),
    )
