-- ===== src/Tests/QuorumTests.antt =====
-- M-of-N verification at small inputs.
use gleipnir.Prelude.{
  none, ◌≡◌, refl, ◌↔◌, Bool, true, false, Bytes, bytes_beq, bytes_beq_iff, List, [], ◌∷◌, arith,
}
use gleipnir.Prelude.Int.{pos}
use gleipnir.Prelude.Results.{ok}
use gleipnir.Identity.Dilithium.{Mldsa, verify_dilithium}
use gleipnir.Chain.{QuorumConfig, is_valid}
use gleipnir.Consensus.Quorum.{verify_quorum, count_signers, find_signer, contains}
use gleipnir.Consensus.Quorum.Counting.{IsQuorum}
use gleipnir.Consensus.Quorum.Complete
use gleipnir.Consensus.Quorum.Complete.{OneKey}
use gleipnir.Tests.Fixtures.{toy_key, toy_sig}

-- A signature verifies under the one key that its first byte names.
abbrev named_key : Bytes → Bytes → Bool
named_key pk [] = false
named_key pk (i ∷ rest) = bytes_beq pk (toy_key i)

abbrev strict_lib : Mldsa
strict_lib = record {
  new_public_key = λ pk. true;
  verifies = λ pk msg sig. named_key pk sig;
  new_private_key = λ sk. true;
  sign_deterministic = λ sk msg. none;
}

abbrev digest : Bytes
digest = 9 ∷ []

strict_lib-OneKey : OneKey strict_lib digest
unfolding verify_dilithium
strict_lib-OneKey k j [] h g = absurd (ground arith)
strict_lib-OneKey k j (i ∷ s) h g =
    ground (arith, bytes_beq_iff k (toy_key i), bytes_beq_iff j (toy_key i))

abbrev two_of_three : QuorumConfig
two_of_three = record { total_validators = pos 3; required_sigs = pos 2 }

abbrev three_keys : List Bytes
three_keys = toy_key 1 ∷ toy_key 2 ∷ toy_key 3 ∷ []

accepts_two :
    verify_quorum strict_lib digest (toy_sig 3 ∷ toy_sig 3 ∷ toy_sig 1 ∷ []) three_keys two_of_three
    ≡ ok tt
unfolding verify_quorum count_signers find_signer contains verify_dilithium is_valid bytes_beq
accepts_two = refl

verify_quorum_iff_example :
    (verify_quorum strict_lib digest (toy_sig 3 ∷ toy_sig 1 ∷ []) three_keys two_of_three ≡ ok tt)
    ↔ ((is_valid two_of_three ≡ true)
        × IsQuorum strict_lib digest (toy_sig 3 ∷ toy_sig 1 ∷ []) three_keys two_of_three)
verify_quorum_iff_example =
    Complete.verify_quorum_iff strict_lib digest strict_lib-OneKey (toy_sig 3 ∷ toy_sig 1 ∷ [])
      three_keys two_of_three
