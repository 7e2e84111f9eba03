-- ===== src/Tests/StartTests.antt =====
-- Engines from their start on: one with three peers, and cycles of nine seconds and of twelve.
use gleipnir.Prelude.{
  Bytes, replicate, Bool, true, false, none, ℕ, ◌*◌, ◌≡◌, refl, some, List, [], ◌∷◌,
}
use gleipnir.Prelude.Int.{ℤ, pos}
use gleipnir.Chain.BlockHash.{to_uint64}
use gleipnir.Chain.KeyRotation.{new_entry_with_new_signature, payload_bytes}
use gleipnir.Identity.Dilithium.{sign_dilithium}
use gleipnir.Consensus.Peer.{Peer}
use gleipnir.Engine.{AnchorProof, Engine, OwnNode, lookup_hash}
use gleipnir.Engine.Submission.{submitted}
use gleipnir.Engine.Operations.{perform_all}
use gleipnir.Engine.History.{ProofsInBlocks}
use gleipnir.Engine.Start
use gleipnir.Engine.Start.{new_engine, new_engine_with_peers, start_quorum}
use gleipnir.Engine.Rotations.{rotate_key, register_peer_validator_set}
use gleipnir.Engine.Pace.{
  FloatTimes, start_pace, add_int64, clamped, update_cycle_duration, update_all,
}
use gleipnir.Tests.Fixtures.{toy_lib, toy_codec, toy_key, toy_sig, toy_secret, toy_peer}
use gleipnir.Tests.EngineTests.{toy_env, shared_bus, operations, quiet, clock}
use gleipnir.Engine.Operations.{Operation, rotates_own, cycles}
use gleipnir.Prelude.{bytes_beq}
use gleipnir.Prelude.Bits.{bitmap_bit, bitmap_set, test_bit, or_bit, shr, shl_one}
use gleipnir.Prelude.Words.{le_bytes, be_bytes}
use gleipnir.Prelude.Table.{lookup, insert}
use gleipnir.Identity.Dilithium.{verify_dilithium, sign_dilithium}
use gleipnir.Chain.BlockHash.{compute_block_hash}
use gleipnir.Validation.KeyRotation.{
  set_validator_set, set_cycle, verify_signature_with_overlap, get_active_public_key, active_keys,
  rotations_of, verifies_under,
}
use gleipnir.Consensus.Peer.{peer_id, hex_encode}
use gleipnir.Consensus.Quorum.{quorum_required}
use gleipnir.Consensus.Gossip.{
  snapshot, propose, get_proposed, publish_sig, get_sigs, has_signer, publish_vrf_proof,
  get_vrf_proofs, has_prover,
}
use gleipnir.Consensus.Triad.{
  make_alpha, select_proposer, select_proposer_vrf, select_loop, candidate_of, better,
}
use gleipnir.Consensus.Commit.{build_bitmap, mark_signers, compact_sigs}
use gleipnir.Consensus.Commit.Phase.{find_leader, final_block, run_commit_phase}
use gleipnir.Smt.{insert_key, insert_at, put_leaf, leaf_hash, leaf_preimage}
use gleipnir.Engine.{knows, fresh, ingest, next_cycle}
use gleipnir.Engine.Submission.{submitted}
use gleipnir.Engine.Rotations.{
  sync_key_rotation_state, process_key_rotation_entries, process_rotations, info_of,
  key_rotation_epoch, epoch_over, epoch_of,
}
use gleipnir.Engine.Bodies.{process_mandate_entries, process_mandates}
use gleipnir.Engine.Transition.{apply, next_lambda, next_nodes}
use gleipnir.Engine.Prepare.{
  proposer_peers, add_proofs, collect_vrf_proofs, prev_hash_of, unique_entries, insert_entries,
  is_inactive, draft, first_sig, add_sigs, make_block, wait_for_vrf_proofs, propose_block,
  collected, valid_sigs, collect_valid_sigs, wait_for_signatures, gather, with_proposer,
  run_prepare_phase,
}
use gleipnir.Engine.Cycle.{
  active_validators, cycle_quorum, committer_of, degrade, waited_for_final, commit_cycle, run_batch,
  run_cycle,
}
use gleipnir.Engine.Operations.{perform}
use gleipnir.Engine.Start.{register_nodes, start_state, full_mesh}
use gleipnir.Smt.{new, prove, prove_from, path}
use gleipnir.Consensus.Degraded.{
  new_degraded_mode, apply_degraded_block, check_transition, non_negative, find_valid,
}
use gleipnir.Validation.KeyRotation.{new_validator}
use gleipnir.Engine.Cycle.{append_block, anchor_entries}
use gleipnir.Consensus.Gossip.{remove_entries, kept}
use gleipnir.Validation.Mandates.{new_mandate_resolver}
use gleipnir.Consensus.RateLimit.{new_limiter}

abbrev pub me : OwnNode
me = record { uid = toy_peer 1; secret_key = toy_secret 1 }

abbrev pub three : List Peer
three = toy_peer 1 ∷ toy_peer 2 ∷ toy_peer 3 ∷ []

abbrev pub started : Engine
started = new_engine_with_peers toy_env me (some shared_bus) (some three)

quorum_of_three : (start_quorum 3).required_sigs ≡ pos 2
unfolding start_quorum
quorum_of_three = refl

-- An engine that is its network's only validator, and finds one entry on the bus.
abbrev pub lone_hash : Bytes
lone_hash = 128 ∷ replicate 31 0

abbrev pub lone : Engine
lone =
    new_engine_with_peers toy_env me
      (some (record shared_bus { entries = submitted lone_hash (7 ∷ []) [] (pos 3) ∷ [] }))
      (some (toy_peer 1 ∷ []))

abbrev pub one_cycle : List Operation
one_cycle = cycles quiet clock 0 ∷ []

-- The proof of the entry after the cycle, in block 0.
abbrev pub lone_proof : AnchorProof
lone_proof = record {
  found = true;
  block_index = 0;
  block_time = pos 1;
  state_root = 7 ∷ [];
  smt_proof = [];
  submitter = 7 ∷ [];
  label = [];
}

pub anchors : lookup_hash (perform_all toy_env lone one_cycle) lone_hash ≡ some lone_proof
unfolding run_cycle sync_key_rotation_state ingest fresh snapshot knows bytes_beq submitted
    set_cycle set_validator_set run_batch process_mandate_entries process_mandates
    process_key_rotation_entries process_rotations next_cycle cycle_quorum active_validators
    quorum_required run_prepare_phase make_alpha le_bytes publish_vrf_proof get_vrf_proofs
    has_prover wait_for_vrf_proofs collect_vrf_proofs add_proofs proposer_peers select_proposer
    select_proposer_vrf select_loop candidate_of better peer_id hex_encode lookup insert
    with_proposer is_inactive propose_block get_proposed make_block unique_entries insert_entries
    insert_key insert_at put_leaf leaf_hash leaf_preimage be_bytes draft prev_hash_of info_of
    key_rotation_epoch epoch_over epoch_of rotations_of compute_block_hash sign_dilithium propose
    publish_sig has_signer get_sigs gather collect_valid_sigs collected first_sig add_sigs
    valid_sigs find_leader verify_signature_with_overlap get_active_public_key active_keys
    verifies_under verify_dilithium wait_for_signatures build_bitmap mark_signers bitmap_set or_bit
    test_bit shr shl_one commit_cycle waited_for_final committer_of run_commit_phase final_block
    compact_sigs bitmap_bit degrade apply next_lambda next_nodes lookup_hash perform
    new_engine_with_peers register_peer_validator_set new_engine register_nodes start_state new
    new_degraded_mode new_validator apply_degraded_block check_transition non_negative find_valid
    append_block anchor_entries remove_entries kept start_quorum full_mesh new_mandate_resolver
    new_limiter prove prove_from path
anchors = refl

started-ProofsInBlocks_example : ProofsInBlocks (perform_all toy_env lone one_cycle)
started-ProofsInBlocks_example =
    Start.started-ProofsInBlocks toy_env me
      (some (record shared_bus { entries = submitted lone_hash (7 ∷ []) [] (pos 3) ∷ [] }))
      (some (toy_peer 1 ∷ [])) one_cycle

-- A rotation to key 2, and the other operations after it.
abbrev rotated : List Operation
rotated = rotates_own (toy_key 2) (6 ∷ []) (toy_sig 2) 12 30 (pos 5) 5 ∷ operations

-- The next rotation is built.
is_built : Bool
is_built =
    elim (rotate_key toy_lib toy_codec started (toy_key 3) (6 ∷ []) (toy_sig 3) 40 60 (pos 9)
      5).1.0 [ none ↦ false | some r ↦ true ]

next_is_built : is_built ≡ true
unfolding is_built rotate_key new_entry_with_new_signature payload_bytes sign_dilithium
    new_engine_with_peers register_peer_validator_set new_engine
next_is_built = refl

-- Seconds, on the clock.
abbrev seconds : ℕ → ℤ
seconds n = pos (n * 1000000000)

abbrev times : FloatTimes
times = record { mixed = λ rtt ewma. rtt; estimate = λ ewma. ewma }

-- A cycle of nine seconds may come to 36, beyond the cap of ten.
beyond_ten_seconds :
    (update_all times (start_pace (seconds 9)) (seconds 50 ∷ [])).cycle_duration ≡ seconds 36
unfolding start_pace add_int64 to_uint64 clamped update_cycle_duration
beyond_ten_seconds = refl

abbrev measured : List ℤ
measured = seconds 1 ∷ seconds 50 ∷ []
