-- ===== src/Tests/LightTests.antt =====
-- The light client at a small input: four trusted validators, of whom 1, 2 and 4 have signed.
use gleipnir.Prelude.{◌≡◌, refl, bytes_beq, none, some, List, [], ◌∷◌, arith}
use gleipnir.Prelude.Bits.{bitmap_bit, test_bit, shr}
use gleipnir.Prelude.Table.{lookup, insert}
use gleipnir.Prelude.Results.{ok, err}
use gleipnir.Identity.Dilithium.{verify_dilithium}
use gleipnir.Chain.{Block, ValidatorInfo}
use gleipnir.Chain.BlockHash.{compute_block_hash}
use gleipnir.Validation.KeyRotation.{
  new_validator, set_validator_set, get_active_public_key, active_keys, rotations_of,
  verifies_under,
}
use gleipnir.LightClient.{
  TrustAnchor, index_out_of_range, normal_quorum, required_quorum, is_degraded_block, has_validator,
  all_present, check_validator_set, set_bits, bitmap_signers, admit_rotations, new_key_resolver,
  keys_of_ids, keys_for_cycle, credit, is_linked, verify_signatures, verify_block,
}
use gleipnir.Prelude.{◌≤◌, count}
use gleipnir.Identity.Dilithium.{sign_dilithium}
use gleipnir.Consensus.Peer.{peer_id, hex_encode}
use gleipnir.Consensus.Commit.Phase.{PrepareResult, final_block}
use gleipnir.Consensus.Commit.Writing.{has_sig}
use gleipnir.Engine.Rotations.{info_of}
use gleipnir.LightClient.Held.{SignedUnder}
use gleipnir.LightClient.Accept
use gleipnir.LightClient.Accept.{Agrees}
use gleipnir.Tests.CommitTests.{leader, prepared, bitmap_right}
use gleipnir.Tests.Fixtures.{four_peers, three_sigs}
use gleipnir.LightClient.Sound
use gleipnir.LightClient.Sound.{Verified}
use gleipnir.LightClient.Crash
use gleipnir.LightClient.Crash.{with_extra}
use gleipnir.Tests.Fixtures.{toy_lib, toy_hash, toy_codec, toy_key, toy_sig, candidate}
use gleipnir.Prelude.{ℕ}

abbrev trusted_one : ℕ → ValidatorInfo
trusted_one i = record {
  validator_id = i ∷ [];
  dilithium3_pk = toy_key i;
  vrf_pk = [];
  contract_hash = [];
}

abbrev trusted : List ValidatorInfo
trusted = trusted_one 1 ∷ trusted_one 2 ∷ trusted_one 3 ∷ trusted_one 4 ∷ []

abbrev pub anchor : TrustAnchor
anchor = record { block_index = 0; block_hash = none; validators = trusted; rotations = [] }

-- Bits 0, 1 and 3.
abbrev pub shown : Block
shown = record candidate {
  validators = trusted;
  prepare_sigs_bitmap = some (11 ∷ []);
  prepare_sigs = some (toy_sig 1 ∷ toy_sig 2 ∷ toy_sig 4 ∷ []);
  commit_sig = toy_sig 1;
}

shown_verifies : verify_block toy_lib toy_hash toy_codec (some shown) anchor ≡ ok tt
unfolding verify_block verify_signatures credit is_linked keys_for_cycle keys_of_ids
    new_key_resolver admit_rotations bitmap_signers set_bits check_validator_set all_present
    has_validator is_degraded_block required_quorum normal_quorum new_validator set_validator_set
    get_active_public_key active_keys rotations_of verifies_under verify_dilithium
    compute_block_hash bitmap_bit test_bit shr lookup insert bytes_beq
shown_verifies = refl

verify_block_sound_example : Verified toy_lib toy_hash toy_codec shown anchor
verify_block_sound_example =
    Sound.verify_block_sound toy_lib toy_hash toy_codec shown anchor shown_verifies

extra_signature_panics_example :
    verify_block toy_lib toy_hash toy_codec (some (with_extra [] shown)) anchor
    ≡ err index_out_of_range
extra_signature_panics_example =
    Crash.extra_signature_panics toy_lib toy_hash toy_codec shown anchor [] (omega arith)
      shown_verifies

-- The leader's candidate, with the trusted set declared.
abbrev seen : PrepareResult
seen = record prepared { block = record candidate { validators = trusted } }

signed_for_client :
    SignedUnder three_sigs toy_lib trusted
      (keys_for_cycle (new_key_resolver toy_lib toy_codec anchor) 0)
      (9 ∷ [])
      four_peers
unfolding keys_for_cycle keys_of_ids new_key_resolver admit_rotations new_validator
    set_validator_set get_active_public_key active_keys rotations_of verifies_under verify_dilithium
    peer_id hex_encode lookup insert bytes_beq
signed_for_client = (
  λ sig e. ground arith,
  (λ sig e. ground arith, (λ sig e. ground arith, (λ sig e. ground arith, tt))),
)

agrees : Agrees toy_lib toy_hash toy_codec leader seen anchor
unfolding is_linked check_validator_set all_present has_validator is_degraded_block info_of
    compute_block_hash keys_for_cycle keys_of_ids new_key_resolver admit_rotations new_validator
    set_validator_set get_active_public_key active_keys rotations_of verifies_under verify_dilithium
    sign_dilithium lookup insert bytes_beq
agrees = record {
  same_set = refl;
  linked = refl;
  declared = refl;
  hashed = refl;
  proposer_known = refl;
  announced = refl;
  signed = signed_for_client;
  leader_keys = toy_key 1 ∷ [];
  leader_found = refl;
  leader_signs = refl;
}

quorum_signed : required_quorum 4 ≤ count (has_sig three_sigs) four_peers
unfolding required_quorum normal_quorum peer_id hex_encode lookup bytes_beq
quorum_signed = omega arith

final_block_accepted_example :
    verify_block toy_lib toy_hash toy_codec (some (final_block toy_lib toy_hash leader seen)) anchor
    ≡ ok tt
final_block_accepted_example =
    Accept.final_block_accepted toy_lib toy_hash toy_codec leader seen anchor agrees bitmap_right
      (omega arith) quorum_signed
