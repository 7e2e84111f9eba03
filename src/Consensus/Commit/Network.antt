-- ===== src/Consensus/Commit/Network.antt =====
-- Leader and validator over the gossip bus.
use gleipnir.Prelude.{
  ℕ, ◌≤◌, ◌≡◌, subst, true, false, bytes_eq, ◌==◌, bytes_beq_iff, none, some, arith, count, nat_eq,
}
use gleipnir.Prelude.Table.{lookup-insert_self}
use gleipnir.Prelude.Results.{ok}
use gleipnir.Identity.Dilithium.{Mldsa}
use gleipnir.Chain.{Block}
use gleipnir.Chain.BlockHash.{HashCodec, verify_block_hash}
use gleipnir.Consensus.Gossip.{MemoryBus, publish_final, get_final}
use gleipnir.Consensus.Commit.{build_bitmap, required_by_block}
use gleipnir.Consensus.Commit.Writing.{has_sig}
use gleipnir.Consensus.Commit.Phase.{
  Committer, PrepareResult, run_commit_phase, final_block, publishes,
}
use gleipnir.Consensus.Commit.Accept.{AllVerify, LeaderSigns, run_commit_phase-agree}

module _ (lib : Mldsa) (codec : HashCodec) (cycle : ℕ) (e : Committer) (r : PrepareResult) where
  pub leader_returns :
      r.quorum_reached ≡ true
      → r.leader_id ≡ e.my_id
      → run_commit_phase lib codec e cycle r none ≡ ok (final_block lib codec e r)
  unfolding run_commit_phase
  leader_returns q l = ground (arith, bytes_beq_iff r.leader_id e.my_id)

  get_final-publishes :
      (bus : MemoryBus)
      → r.quorum_reached ≡ true
      → r.leader_id ≡ e.my_id
      → e.has_gossip ≡ true
      → get_final (publishes lib codec e r bus) r.block.index ≡ some (final_block lib codec e r)
  unfolding publishes get_final publish_final final_block
  get_final-publishes bus q l g =
      rw (q, g, (bytes_beq_iff r.leader_id e.my_id).1 l)
        (lookup-insert_self r.block.index (final_block lib codec e r) bus.finals)

  -- When the leader of a prepared block has finalised it, a validator with the same peers that reads
  -- the bus commits that same block.
  pub run_commit_phase-over_bus :
      (e' : Committer) (r' : PrepareResult) (bus : MemoryBus)
      → r.quorum_reached ≡ true
      → r'.quorum_reached ≡ true
      → r.leader_id ≡ e.my_id
      → r'.leader_id ≡ e.my_id
      → (e.my_id == e'.my_id) ≡ false
      → e.has_gossip ≡ true
      → e'.has_gossip ≡ true
      → e'.peers ≡ e.peers
      → verify_block_hash codec r.block ≡ true
      → r.prepare_bitmap ≡ build_bitmap r.prepare_sigs e.peers
      → AllVerify lib (some e'.rotations) r.block.block_hash cycle r.prepare_sigs e.peers
      → required_by_block r.block e.peers ≤ count (has_sig r.prepare_sigs) e.peers
      → LeaderSigns lib e e' cycle r.block.block_hash
      → (b : Block) × (run_commit_phase lib codec e cycle r none ≡ ok b)
        × (run_commit_phase lib codec e' cycle r'
              (get_final (publishes lib codec e r bus) r.block.index)
            ≡ ok b)
  run_commit_phase-over_bus e' r' bus q q' l l' other g g' same hash bits good enough signs =
      let a =
        run_commit_phase-agree lib codec cycle e e' r r' q q' l l' other g' same hash bits good
          enough signs in
      let b : a.0 ≡ final_block lib codec e r = ground (arith, a.1, leader_returns q l) in
      (
        a.0,
        a.1,
        rw (get_final-publishes bus q l g)
            (subst (λ x. run_commit_phase lib codec e' cycle r' (some x) ≡ ok a.0) b a.2),
      )
