-- ===== src/Tests/DegradedTests.antt =====
-- Degraded mode at small inputs: three validators at least, grace period two.
use gleipnir.Prelude.{◌≡◌, refl, true, false, bytes_beq, some, [], ◌∷◌, arith, inl, codes}
use gleipnir.Prelude.Int.{pos}
use gleipnir.Prelude.Bits.{bitmap_bit, bitmap_set, test_bit, or_bit, shr, shl_one}
use gleipnir.Prelude.Table.{insert}
use gleipnir.Prelude.Results.{ok}
use gleipnir.Identity.Dilithium.{verify_dilithium}
use gleipnir.Chain.{Block}
use gleipnir.Consensus.Commit.{degraded_label}
use gleipnir.Consensus.Degraded.{
  DegradedMode, check_transition, non_negative, apply_degraded_block, find_valid,
}
use gleipnir.Consensus.Degraded.Mode.{Cycle, IsCounting, run}
use gleipnir.Tests.Fixtures.{toy_lib, toy_sig, four_peers, candidate}

abbrev degraded : DegradedMode
degraded = record {
  min_validators = 3;
  grace_cycles = 2;
  consecutive_normal = 0;
  in_degraded = true;
}

abbrev good : Cycle
good = (pos 4, true)

abbrev weak : Cycle
weak = (pos 2, true)

degraded-IsCounting : IsCounting degraded
degraded-IsCounting = record { idle = λ h. refl; below = inl refl; in_range = omega arith }

left_at_last : (run degraded (weak ∷ good ∷ good ∷ [])).in_degraded ≡ false
unfolding run check_transition non_negative
left_at_last = refl

-- The second of the three signatures listed verifies.
abbrev collected : Block
collected = record candidate {
  prepare_sigs_bitmap = some (14 ∷ []);
  prepare_sigs = some (toy_sig 9 ∷ toy_sig 3 ∷ toy_sig 4 ∷ []);
}

abbrev reduced : Block
reduced = record candidate {
  prepare_sigs_bitmap = some (4 ∷ []);
  prepare_sigs = some (toy_sig 3 ∷ []);
  metadata = some ((degraded_label, codes "true") ∷ []);
}

reduces : apply_degraded_block toy_lib degraded collected four_peers ≡ ok reduced
unfolding apply_degraded_block find_valid bitmap_bit bitmap_set or_bit test_bit shr shl_one
    verify_dilithium insert bytes_beq
reduces = refl
