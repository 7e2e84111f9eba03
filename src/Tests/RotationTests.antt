-- ===== src/Tests/RotationTests.antt =====
-- Key rotation at small inputs.
use gleipnir.Prelude.{◌≡◌, refl, ◌↔◌, Bytes, bytes_eq, bytes_beq, some, [], ◌∷◌, Has, arith}
use gleipnir.Prelude.Table.{lookup, insert}
use gleipnir.Prelude.Results.{ok}
use gleipnir.Identity.Dilithium.{verify_dilithium}
use gleipnir.Chain.KeyRotation.{
  KeyRotationEntry, payload_bytes, compute_hash, verify_hash, in_overlap,
}
use gleipnir.Validation.KeyRotation.{
  Validator, validate, validate_and_record, record_rotation, rotations_of, active_keys,
  get_active_public_key, verifies_under, verify_against_active_keys, authorising_cycle,
  last_rotation_cycle, last_effective,
}
use gleipnir.Validation.KeyRotation.Rules
use gleipnir.Validation.KeyRotation.Built
use gleipnir.Validation.KeyRotation.Built.{SignsFor}
use gleipnir.Prelude.Int.{pos}
use gleipnir.Prelude.{ℕ, inl}
use gleipnir.Chain.KeyRotation.{new_entry, sign_with_current_key, entry_shell, payload}
use gleipnir.Identity.Dilithium.{sign_dilithium}
use gleipnir.Tests.Fixtures.{toy_secret}
use gleipnir.Validation.KeyRotation.Rules.{Admissible}
use gleipnir.Validation.KeyRotation.History.{IsOrdered, recorded}
use gleipnir.Tests.Fixtures.{toy_lib, toy_codec, toy_key, rotation}

abbrev alice : Bytes
alice = 1 ∷ []

-- Alice is registered with key 1, in cycle 5, with lead time and overlap 10.
abbrev start : Validator
start = record {
  validators = (alice, toy_key 1) ∷ [];
  current_cycle = 5;
  lead_time = 10;
  min_overlap = 10;
  rotations = [];
}

abbrev first : KeyRotationEntry
first = rotation alice 1 2 20 40

abbrev second : KeyRotationEntry
second = rotation alice 2 3 50 60

accepts_first : validate_and_record toy_lib toy_codec start (some first) ≡ ok (recorded start first)
unfolding validate_and_record validate record_rotation verify_against_active_keys
    get_active_public_key verifies_under active_keys verify_dilithium authorising_cycle
    last_rotation_cycle last_effective rotations_of payload_bytes verify_hash compute_hash lookup
    insert in_overlap bytes_beq
accepts_first = refl

validate_iff_example :
    (validate toy_lib toy_codec start (some first) ≡ ok tt)
    ↔ Admissible toy_lib toy_codec start first
validate_iff_example = Rules.validate_iff toy_lib toy_codec start first

start-IsOrdered : IsOrdered start
unfolding rotations_of lookup
start-IsOrdered id = tt

builds_first :
    new_entry toy_lib toy_codec alice (toy_secret 1) (toy_key 2) [] (toy_secret 2) 20 40 (pos 0)
    ≡ ok first
unfolding new_entry sign_with_current_key entry_shell payload_bytes payload compute_hash
    sign_dilithium
builds_first = refl

toy_pair : (i : ℕ) → SignsFor toy_lib (toy_secret i) (toy_key i)
unfolding sign_dilithium verify_dilithium
toy_pair i msg h = ground arith

registered_alice : lookup alice start.validators ≡ some (toy_key 1)
unfolding lookup bytes_beq
registered_alice = refl

alice_active : Has (toy_key 1) (active_keys (toy_key 1) (rotations_of start alice) 19)
unfolding active_keys rotations_of lookup
alice_active = inl refl

new_entry-validate_example : validate toy_lib toy_codec start (some first) ≡ ok tt
unfolding authorising_cycle last_rotation_cycle last_effective rotations_of lookup
new_entry-validate_example =
    Built.new_entry-validate toy_lib toy_codec start alice (toy_secret 1) (toy_key 2) []
      (toy_secret 2) 20 40 (pos 0) first (toy_key 1) (toy_key 1) builds_first registered_alice
      alice_active (toy_pair 1) (toy_pair 2) (omega arith) (omega arith) tt
