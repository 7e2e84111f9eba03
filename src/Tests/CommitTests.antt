-- ===== src/Tests/CommitTests.antt =====
-- The COMMIT phase at small inputs: four peers, of whom 1, 2 and 4 have signed.
use gleipnir.Prelude.{◌≤◌, ◌≡◌, refl, true, false, bytes_beq, none, some, count, [], ◌∷◌, arith}
use gleipnir.Prelude.Bits.{bitmap_bit, bitmap_set, test_bit, or_bit, shr, shl_one}
use gleipnir.Prelude.Table.{lookup}
use gleipnir.Prelude.Results.{ok}
use gleipnir.Identity.Dilithium.{verify_dilithium, sign_dilithium}
use gleipnir.Chain.{Block}
use gleipnir.Chain.BlockHash.{compute_block_hash, verify_block_hash}
use gleipnir.Validation.KeyRotation.{
  Validator, verify_signature_with_overlap, get_active_public_key, active_keys, rotations_of,
  verifies_under,
}
use gleipnir.Consensus.Peer.{peer_id, hex_encode}
use gleipnir.Consensus.Quorum.{quorum_required}
use gleipnir.Consensus.Commit.{
  is_labelled, verify_prepare_quorum, verified_count, peer_verifies, count_bits_before,
  required_by_block, build_bitmap, mark_signers,
}
use gleipnir.Consensus.Commit.Reading
use gleipnir.Consensus.Commit.Reading.{IsPrepared}
use gleipnir.Consensus.Commit.Safety
use gleipnir.Consensus.Commit.Lowered
use gleipnir.Consensus.Commit.Safety.{SignedBoth}
use gleipnir.Consensus.Commit.Phase.{
  Committer, PrepareResult, run_commit_phase, final_block, find_leader,
}
use gleipnir.Consensus.Commit.Writing.{has_sig}
use gleipnir.Consensus.Commit.Accept
use gleipnir.Consensus.Commit.Network
use gleipnir.Consensus.Commit.Phase.{publishes}
use gleipnir.Consensus.Gossip.{get_final, new_memory_bus}
use gleipnir.Consensus.Commit.Accept.{AllVerify, LeaderSigns}
use gleipnir.Tests.Fixtures.{
  toy_lib, toy_hash, toy_key, toy_sig, toy_secret, four_peers, candidate, three_sigs,
}

-- Each validator is registered with its own key.
abbrev pub registry : Validator
registry = record {
  validators =
      (1 ∷ [], toy_key 1) ∷ (2 ∷ [], toy_key 2) ∷ (3 ∷ [], toy_key 3) ∷ (4 ∷ [], toy_key 4) ∷ [];
  current_cycle = 7;
  lead_time = 10;
  min_overlap = 10;
  rotations = [];
}

-- Bits 0, 1 and 3.
abbrev finalised : Block
finalised = record candidate {
  prepare_sigs_bitmap = some (11 ∷ []);
  prepare_sigs = some (toy_sig 1 ∷ toy_sig 2 ∷ toy_sig 4 ∷ []);
}

finalised_verifies : verify_prepare_quorum toy_lib (some registry) finalised four_peers 7 ≡ true
unfolding verify_prepare_quorum verified_count peer_verifies count_bits_before required_by_block
    is_labelled quorum_required bitmap_bit test_bit shr shl_one verify_signature_with_overlap
    get_active_public_key active_keys rotations_of verifies_under verify_dilithium lookup bytes_beq
finalised_verifies = refl

verify_prepare_quorum_sound_example : IsPrepared toy_lib (some registry) 7 finalised four_peers
verify_prepare_quorum_sound_example =
    Reading.verify_prepare_quorum_sound toy_lib (some registry) finalised four_peers 7
      finalised_verifies

-- Another block of the same cycle, signed by 2, 3 and 4.
abbrev rival : Block
rival = record candidate {
  block_hash = 8 ∷ [];
  prepare_sigs_bitmap = some (14 ∷ []);
  prepare_sigs = some (toy_sig 2 ∷ toy_sig 3 ∷ toy_sig 4 ∷ []);
}

rival_verifies : verify_prepare_quorum toy_lib (some registry) rival four_peers 7 ≡ true
unfolding verify_prepare_quorum verified_count peer_verifies count_bits_before required_by_block
    is_labelled quorum_required bitmap_bit test_bit shr shl_one verify_signature_with_overlap
    get_active_public_key active_keys rotations_of verifies_under verify_dilithium lookup bytes_beq
rival_verifies = refl

unlabelled : is_labelled candidate.metadata ≡ false
unfolding is_labelled
unlabelled = refl

prepare_quorums_intersect_example : SignedBoth toy_lib (some registry) 7 finalised rival four_peers
prepare_quorums_intersect_example =
    Safety.prepare_quorums_intersect toy_lib (some registry) 7 finalised rival four_peers
      finalised_verifies rival_verifies unlabelled unlabelled

-- The leader is peer 1.
abbrev pub leader : Committer
leader = record {
  my_id = b'0' ∷ b'1' ∷ [];
  secret_key = toy_secret 1;
  peers = four_peers;
  has_gossip = true;
  rotations = registry;
}

abbrev follower : Committer
follower = record leader { my_id = b'0' ∷ b'2' ∷ []; secret_key = toy_secret 2 }

abbrev pub prepared : PrepareResult
prepared = record {
  block = candidate;
  prepare_sigs = three_sigs;
  prepare_bitmap = 11 ∷ [];
  leader_id = b'0' ∷ b'1' ∷ [];
  quorum_reached = true;
}

hash_right : verify_block_hash toy_hash candidate ≡ true
unfolding verify_block_hash compute_block_hash bytes_beq
hash_right = refl

pub bitmap_right : 11 ∷ [] ≡ build_bitmap three_sigs four_peers
unfolding build_bitmap mark_signers bitmap_set or_bit test_bit shr shl_one peer_id hex_encode lookup
    bytes_beq
bitmap_right = refl

signed_well : AllVerify toy_lib (some registry) (9 ∷ []) 7 three_sigs four_peers
unfolding peer_verifies verify_signature_with_overlap get_active_public_key active_keys rotations_of
    verifies_under verify_dilithium peer_id hex_encode lookup bytes_beq
signed_well = (
  λ sig e. ground arith,
  (λ sig e. ground arith, (λ sig e. ground arith, (λ sig e. ground arith, tt))),
)

pub enough_signed : required_by_block candidate four_peers ≤ count (has_sig three_sigs) four_peers
unfolding required_by_block is_labelled quorum_required peer_id hex_encode lookup bytes_beq
enough_signed = omega arith

final_block-verifies_example :
    verify_prepare_quorum toy_lib
      (some registry)
      (final_block toy_lib toy_hash leader prepared)
      four_peers
      7
    ≡ true
final_block-verifies_example =
    Accept.final_block-verifies toy_lib toy_hash (some registry) 7 leader prepared hash_right
      bitmap_right signed_well enough_signed

leader_signs : LeaderSigns toy_lib leader follower 7 (9 ∷ [])
unfolding find_leader peer_id hex_encode verify_signature_with_overlap get_active_public_key
    active_keys rotations_of verifies_under verify_dilithium sign_dilithium lookup bytes_beq
leader_signs = record { root = 1 ∷ []; found = refl; verifies = refl }

run_commit_phase-over_bus_example :
    (b : Block) × (run_commit_phase toy_lib toy_hash leader 7 prepared none ≡ ok b)
    × (run_commit_phase toy_lib toy_hash follower 7 prepared
          (get_final (publishes toy_lib toy_hash leader prepared new_memory_bus) 0)
        ≡ ok b)
unfolding bytes_beq
run_commit_phase-over_bus_example =
    Network.run_commit_phase-over_bus toy_lib toy_hash 7 leader prepared follower prepared
      new_memory_bus refl refl refl refl refl refl refl refl hash_right bitmap_right signed_well
      enough_signed leader_signs

-- Only peer 3 has signed.
abbrev one_sig : PrepareResult
one_sig = record prepared {
  prepare_sigs = (b'0' ∷ b'3' ∷ [], toy_sig 3) ∷ [];
  prepare_bitmap = 4 ∷ [];
}
