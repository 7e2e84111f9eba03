-- ===== src/Consensus/Commit/Phase.antt =====
-- RunCommitPhase of pkg/consensus/commit.go: `run_commit_phase` is what it returns, and `publishes`
-- what it does to the gossip bus. What the gossip layer hands over within the wait is an
-- argument: `some` block, or `none` when the wait ran out.
use gleipnir.Prelude.{
  ℕ, Bool, ◌&&◌, Bytes, Option, none, some, List, [], ◌∷◌, if◌then◌else◌, ◌==◌, bytes_eq, not,
}
use gleipnir.Prelude.Table.{Table}
use gleipnir.Prelude.Results.{Result, ok, err, guard, or_fail, ◌>>=◌, ◌>>◌}
use gleipnir.Identity.Dilithium.{Mldsa, sign_dilithium}
use gleipnir.Chain.{Block}
use gleipnir.Chain.BlockHash.{HashCodec, compute_block_hash}
use gleipnir.Validation.KeyRotation.{Validator, verify_signature_with_overlap}
use gleipnir.Consensus.Peer.{Peer, peer_id}
use gleipnir.Consensus.Gossip.{MemoryBus, publish_final}
use gleipnir.Consensus.Commit.{compact_sigs, verify_prepare_quorum}

-- The fields of PrepareResult that the phase reads.
pub record PrepareResult : Type 0 where
  pub block : Block
  pub prepare_sigs : Table Bytes Bytes
  pub prepare_bitmap : Bytes
  pub leader_id : Bytes
  pub quorum_reached : Bool

pub data CommitError : Type 0 where
  quorum_not_reached no_gossip no_final quorum_failed leader_unknown : CommitError
  commit_sig_failed hash_mismatch : CommitError

-- The parts of the engine that the phase reads.
pub record Committer : Type 0 where
  pub my_id : Bytes
  pub secret_key : Bytes
  pub peers : List Peer
  pub has_gossip : Bool
  pub rotations : Validator

-- The search for the leader among the peers.
unfoldable pub find_leader : Bytes → List Peer → Option Bytes
find_leader leader [] = none
find_leader leader (p ∷ ps) = if peer_id p == leader then some p.root_id else find_leader leader ps

module _ (lib : Mldsa) (codec : HashCodec) where
  -- The leader's branch: bitmap and signatures written out, hash and COMMIT signature made anew.
  unfoldable pub final_block : Committer → PrepareResult → Block
  final_block e r =
      let filled = record r.block {
        prepare_sigs_bitmap = some r.prepare_bitmap;
        prepare_sigs = some (compact_sigs r.prepare_sigs r.prepare_bitmap 0 e.peers);
        protocol_version = 2;
      } in
      let hash = compute_block_hash codec filled in
      record filled { commit_sig = sign_dilithium lib e.secret_key hash; block_hash = hash }

  -- PublishFinal, which the leader's branch calls.
  unfoldable pub publishes : Committer → PrepareResult → MemoryBus → MemoryBus
  publishes e r bus =
      if r.quorum_reached && (r.leader_id == e.my_id && e.has_gossip)
      then publish_final bus (final_block e r)
      else bus

  unfoldable pub check_final : Committer → ℕ → Bytes → Block → Result CommitError Block
  check_final e cycle leader b = do
    guard (verify_prepare_quorum lib (some e.rotations) b e.peers cycle) quorum_failed
    root ← or_fail (find_leader leader e.peers) leader_unknown
    guard (verify_signature_with_overlap lib e.rotations root b.block_hash b.commit_sig cycle)
        commit_sig_failed
    guard (compute_block_hash codec b == b.block_hash) hash_mismatch
    ok b

  unfoldable pub run_commit_phase :
      Committer → ℕ → PrepareResult → Option Block → Result CommitError Block
  run_commit_phase e cycle r received =
      if not r.quorum_reached
      then err quorum_not_reached
      else if r.leader_id == e.my_id
      then ok (final_block e r)
      else if not e.has_gossip
      then err no_gossip
      else (do b ← or_fail received no_final; check_final e cycle r.leader_id b)
