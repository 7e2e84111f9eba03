-- ===== src/Tests/EngineTests.antt =====
-- The engine at a small input: one validator with a bus, and a bus with an entry to anchor.
use gleipnir.Prelude.{
  ℕ, ◌-◌, ◌≡◌, refl, sym, ap, subst, false, true, bytes_beq, bytes_eq, codes, zero_bytes, none,
  some, List, [], ◌∷◌, arith, ltb,
}
use gleipnir.Prelude.Int.{pos}
use gleipnir.Prelude.Bits.{bitmap_bit, bitmap_set, test_bit, or_bit, shr, shl_one}
use gleipnir.Prelude.Words.{le_bytes, be_bytes}
use gleipnir.Prelude.Table.{lookup, insert}
use gleipnir.Prelude.Results.{Result, ok}
use gleipnir.Identity.Dilithium.{verify_dilithium, sign_dilithium}
use gleipnir.Chain.{Block, ProvenanceEntry, ValidatorInfo}
use gleipnir.Chain.BlockHash.{compute_block_hash}
use gleipnir.Validation.KeyRotation.{
  set_validator_set, set_cycle, verify_signature_with_overlap, get_active_public_key, active_keys,
  rotations_of, verifies_under,
}
use gleipnir.Consensus.Peer.{Peer, peer_id, hex_encode}
use gleipnir.Consensus.Quorum.{quorum_required}
use gleipnir.Consensus.Gossip.{
  MemoryBus, snapshot, propose, get_proposed, publish_sig, get_sigs, has_signer, publish_vrf_proof,
  get_vrf_proofs, has_prover,
}
use gleipnir.Consensus.Triad.{
  make_alpha, select_proposer, select_proposer_vrf, select_loop, candidate_of, better,
}
use gleipnir.Consensus.Commit.{build_bitmap, mark_signers, compact_sigs}
use gleipnir.Consensus.Commit.Phase.{find_leader, final_block, run_commit_phase}
use gleipnir.Smt.{insert_key, insert_at, put_leaf, leaf_hash, leaf_preimage}
use gleipnir.Engine.{
  Engine, EngineError, knows, fresh, ingest, lookup_hash, next_cycle, check_entry, is_zero_hash,
  api_limits_of, default_api_limits, get_block,
}
use gleipnir.Engine.Submission.{Ticket, submit, submitted, allows, is_full, add_pending}
use gleipnir.Engine.Rotations.{
  sync_key_rotation_state, process_key_rotation_entries, process_rotations, info_of,
  key_rotation_epoch, epoch_over, epoch_of,
}
use gleipnir.Engine.Bodies.{process_mandate_entries, process_mandates}
use gleipnir.Engine.Transition.{apply, next_lambda, next_nodes}
use gleipnir.Engine.Prepare.{
  Env, Waits, proposer_peers, add_proofs, collect_vrf_proofs, prev_hash_of, unique_entries,
  insert_entries, is_inactive, draft, first_sig, add_sigs, make_block, wait_for_vrf_proofs,
  propose_block, collected, valid_sigs, collect_valid_sigs, wait_for_signatures, gather,
  with_proposer, run_prepare_phase,
}
use gleipnir.Engine.Cycle.{
  Outcome, committed, active_validators, cycle_quorum, committer_of, degrade, waited_for_final,
  commit_cycle, run_batch, run_cycle,
}
use gleipnir.Engine.Atomic
use gleipnir.Engine.Atomic.{Ends}
use gleipnir.Engine.Pool.{holds}
use gleipnir.Engine.Lost
use gleipnir.Engine.Operations.{Operation, submits, cycles, sets_quorum, perform_all}
use gleipnir.Engine.Silent
use gleipnir.Engine.Silent.{Sinks}
use gleipnir.Prelude.Results.{err}
use gleipnir.Engine.Prepare.{proposer_inactive}
use gleipnir.Engine.History
use gleipnir.Engine.History.{ProofsInBlocks}
use gleipnir.Tests.Fixtures.{
  toy_lib, toy_hash, toy_codec, toy_key, toy_sig, toy_secret, toy_peer, candidate,
}

abbrev pub toy_env : Env
toy_env = record {
  lib = toy_lib;
  codec = toy_hash;
  blake3 = λ b. 7 ∷ [];
  vrf_prove = λ alpha. some (5 ∷ []);
  unmarshal_vrf_proof = λ b. true;
  vrf_verify = λ pk alpha proof. some proof;
  floats = record { less = λ a b. ltb a b; minus = λ a b. a - b };
  rotation_codec = toy_codec;
  mandate_codec = record { marshal = λ m. some []; blake3 = λ b. b };
  supervision_root = λ s. [];
}

abbrev pub quiet : Waits
quiet = record {
  for_proofs = λ b. b;
  for_proposal = λ b. b;
  for_signatures = λ b. b;
  for_final = λ b. b;
}

abbrev me : Peer
me = toy_peer 1

abbrev my_info : ValidatorInfo
my_info = record {
  validator_id = 1 ∷ [];
  dilithium3_pk = toy_key 1;
  vrf_pk = [];
  contract_hash = [];
}

abbrev gossiped : ProvenanceEntry
gossiped = submitted (128 ∷ []) (7 ∷ []) [] (pos 3)

abbrev pub shared_bus : MemoryBus
shared_bus = record {
  entries = gossiped ∷ [];
  proposals = [];
  finals = [];
  sigs = [];
  vrf_proofs = [];
}

abbrev pub engine : Engine
engine = record {
  node = record { uid = me; secret_key = toy_secret 1 };
  state = record {
    cycle = 0;
    nodes = [];
    edges = [];
    lambda1 = 0;
    supervision_root = [];
    active_mandates = [];
    validator_set = my_info ∷ [];
  };
  cfg = record {
    decay_rate = 0;
    min_lambda1 = 0;
    lambda_interval = 10;
    smt_depth = 2;
    skip_empty_cycles = true;
  };
  st = record { root = zero_bytes 32; depth = 2; store = []; zeroes = [] };
  blocks = [];
  pending = [];
  anchored = [];
  gossip = some shared_bus;
  peers = me ∷ [];
  api_limits = default_api_limits;
  stopped = false;
  rate_limiter = none;
  quorum_config = record { total_validators = pos 1; required_sigs = pos 1 };
  degraded = none;
  pending_entries = [];
  last_pending_change = 0;
  rotations = record {
    validators = [];
    current_cycle = 0;
    lead_time = 10;
    min_overlap = 10;
    rotations = [];
  };
  rotation_bodies = [];
  mandate_resolver = [];
  mandate_bodies = [];
}

abbrev pub clock : ℕ → ℕ
clock i = i

run_cycle-Ends_example :
    Ends toy_env 0 engine engine.st
      (ingest engine 0).pending_entries
      (run_cycle toy_env quiet clock 0 engine)
run_cycle-Ends_example = Atomic.run_cycle-Ends toy_env quiet clock 0 engine

-- Submitted: entry 9, by submitter 8.
abbrev asked : Engine
asked = record engine {
  pending = submitted (9 ∷ []) (8 ∷ []) [] (pos 4) ∷ [];
  last_pending_change = 4;
}

abbrev ticket : Ticket
ticket = record { hash = 9 ∷ []; block_index = 0 }

submits_nine : submit engine (9 ∷ []) (8 ∷ []) [] 4 ≡ (asked, ok ticket)
unfolding submit check_entry is_zero_hash api_limits_of is_full allows add_pending submitted
    next_cycle bytes_beq
submits_nine = refl

-- The block that the cycle commits: the gossiped entry is in it, entry 9 is not.
abbrev anchored_block : Block
anchored_block = record candidate {
  prev_hash = zero_bytes 32;
  state_root = 7 ∷ [];
  anchored = some (gossiped ∷ []);
  timestamp = pos 1;
  validators = my_info ∷ [];
  quorum = record { total_validators = pos 1; required_sigs = pos 1 };
  prepare_sigs_bitmap = some (1 ∷ []);
  prepare_sigs = some (toy_sig 1 ∷ []);
  commit_sig = toy_sig 1;
  metadata = some ((codes "3cp:degraded-block", codes "true") ∷ []);
}

abbrev ran : Engine × Outcome
ran = run_cycle toy_env quiet clock 0 asked

commits : ran ≡ (ran.0, committed anchored_block)
unfolding run_cycle sync_key_rotation_state ingest fresh snapshot knows bytes_beq submitted
    set_cycle set_validator_set run_batch process_mandate_entries process_mandates
    process_key_rotation_entries process_rotations next_cycle cycle_quorum active_validators
    quorum_required run_prepare_phase make_alpha le_bytes publish_vrf_proof get_vrf_proofs
    has_prover wait_for_vrf_proofs collect_vrf_proofs add_proofs proposer_peers select_proposer
    select_proposer_vrf select_loop candidate_of better peer_id hex_encode lookup insert
    with_proposer is_inactive propose_block get_proposed make_block unique_entries insert_entries
    insert_key insert_at put_leaf leaf_hash leaf_preimage be_bytes draft prev_hash_of info_of
    key_rotation_epoch epoch_over epoch_of rotations_of compute_block_hash sign_dilithium propose
    publish_sig has_signer get_sigs gather collect_valid_sigs collected first_sig add_sigs
    valid_sigs find_leader verify_signature_with_overlap get_active_public_key active_keys
    verifies_under verify_dilithium wait_for_signatures build_bitmap mark_signers bitmap_set or_bit
    test_bit shr shl_one commit_cycle waited_for_final committer_of run_commit_phase final_block
    compact_sigs bitmap_bit degrade apply next_lambda next_nodes
commits = refl

submit_lost_example :
    (holds ran.0 (9 ∷ []) ≡ false) × (lookup_hash ran.0 (9 ∷ []) ≡ lookup_hash engine (9 ∷ []))
unfolding knows snapshot bytes_beq submitted
submit_lost_example =
    Lost.submit_lost toy_env quiet clock 0 engine ran.0 (9 ∷ []) (8 ∷ []) [] 4 ticket shared_bus
      anchored_block (ap (λ (p : Engine × Result EngineError Ticket). p.1) submits_nine) refl refl
      refl
      (subst
        (λ (p : Engine × Result EngineError Ticket).
          run_cycle toy_env quiet clock 0 p.0 ≡ (ran.0, committed anchored_block))
        (sym submits_nine) commits)
      refl

abbrev pub operations : List Operation
operations =
    submits (9 ∷ []) (8 ∷ []) [] 4
    ∷ cycles quiet clock 0
    ∷ sets_quorum (record { total_validators = pos 4; required_sigs = pos 3 })
    ∷ cycles quiet clock 0
    ∷ []

-- The engine with one block.
abbrev grown : Engine
grown = record engine { blocks = anchored_block ∷ [] }

block_stays_example : get_block (perform_all toy_env grown operations) 0 ≡ some anchored_block
unfolding get_block
block_stays_example = History.block_stays toy_env operations grown 0 anchored_block refl

-- Validator 2 has status 0.
abbrev shut_out : Engine
shut_out = record engine {
  state = record engine.state {
    nodes =
        (
          b'0' ∷ b'2' ∷ [],
          record {
            uid = 2 ∷ [];
            status = 0;
            consecutive = 0;
            join_cycle = 0;
            dilithium3_pk = [];
            vrf_pk = [];
          },
        )
        ∷ [];
  };
}

toy_floats-Sinks : Sinks toy_env.floats 0
toy_floats-Sinks = (refl, (λ s low. ground arith))

inactive_for_ever_example :
    with_proposer toy_env quiet (perform_all toy_env shut_out operations) (toy_peer 2) 3 [] true 1 9
    ≡ (perform_all toy_env shut_out operations, err proposer_inactive)
unfolding is_inactive peer_id hex_encode lookup bytes_beq
inactive_for_ever_example =
    Silent.inactive_for_ever toy_env quiet operations shut_out (toy_peer 2) 3 [] true 1 9
      toy_floats-Sinks refl refl
