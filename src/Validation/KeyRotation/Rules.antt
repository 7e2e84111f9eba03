-- ===== src/Validation/KeyRotation/Rules.antt =====
-- Admission of a rotation: what `validate` accepts.
use gleipnir.Prelude.{
  inl, inr, ℕ, ◌≤◌, ◌<◌, ◌≡◌, not, Option-cases, bytes_eq, true, Bytes, Option, none, some, ◌↔◌,
  arith, length, bytes_beq_iff,
}
use gleipnir.Prelude.Results.{ok}
use gleipnir.Prelude.Table.{lookup}
use gleipnir.Prelude.Words.{add64}
use gleipnir.Identity.Dilithium.{Mldsa, verify_dilithium, signature_size}
use gleipnir.Chain.KeyRotation.{
  KeyRotationEntry, Codec, key_rotation_label, payload_bytes, verify_hash,
}
use gleipnir.Validation.KeyRotation.{
  Validator, validate, verifies_under, active_keys, rotations_of, authorising_cycle,
  last_rotation_cycle, verify_against_active_keys, get_active_public_key, not_newer,
}

abbrev pub Newer : Option ℕ → ℕ → Type 0
Newer none effective = Unit
Newer (some last) effective = last < effective

Newer-of_test : (o : Option ℕ) (n : ℕ) → not (not_newer o n) ≡ true → Newer o n
Newer-of_test none n h = tt
Newer-of_test (some last) n h = ground arith

-- The five rules, and the structural conditions before them. Rule 1 names the keys that are
-- authoritative in the cycle before the rotation takes effect; sums wrap as uint64.
pub record Admissible (lib : Mldsa) (codec : Codec) (v : Validator) (e : KeyRotationEntry)
    : Type 0 where
  pub labelled : e.label ≡ key_rotation_label
  pub committed : verify_hash codec e ≡ true
  pub bytes : Bytes
  pub encoded : payload_bytes codec e ≡ some bytes
  pub registered : Bytes
  pub known : lookup e.submitter v.validators ≡ some registered
  pub old_size : length e.signature_old ≡ signature_size
  pub new_size : length e.signature_new ≡ signature_size
  pub authorised :
      verifies_under lib
        (active_keys registered (rotations_of v e.submitter) (authorising_cycle e))
        bytes
        e.signature_old
      ≡ true
  pub possessed : verify_dilithium lib e.new_public_key bytes e.signature_new ≡ true
  pub announced : add64 v.current_cycle v.lead_time ≤ e.effective_cycle
  pub overlapping : add64 e.effective_cycle v.min_overlap ≤ e.expiry_cycle
  pub newer : Newer (last_rotation_cycle v e.submitter) e.effective_cycle

module _ (lib : Mldsa) (codec : Codec) (v : Validator) (e : KeyRotationEntry) where
  -- Whatever `validate` accepts satisfies the structural conditions and the five rules.
  validate_sound : validate lib codec v (some e) ≡ ok tt → Admissible lib codec v e
  unfolding validate verify_against_active_keys get_active_public_key
  validate_sound h = elim (Option-cases (payload_bytes codec e)) [
    | inl p ↦ absurd (ground arith)
    | inr (bytes, p) ↦ elim (Option-cases (lookup e.submitter v.validators)) [
      | inl q ↦ absurd (ground arith)
      | inr (registered, q) ↦ record {
        labelled = ground (arith, bytes_beq_iff e.label key_rotation_label);
        committed = ground arith;
        bytes = bytes;
        encoded = p;
        registered = registered;
        known = q;
        old_size = ground arith;
        new_size = ground arith;
        authorised = ground arith;
        possessed = ground arith;
        announced = ground arith;
        overlapping = ground arith;
        newer = Newer-of_test _ _ (ground arith);
      }
    ]
  ]

  -- It accepts whatever satisfies them.
  validate_complete : Admissible lib codec v e → validate lib codec v (some e) ≡ ok tt
  unfolding validate verify_against_active_keys get_active_public_key
  validate_complete a = ground (arith, bytes_beq_iff e.label key_rotation_label)

  -- `validate` accepts exactly the rotations that satisfy the structural conditions and the five
  -- rules: label and hash, known submitter, signature sizes, the signature of a key in force just
  -- before the rotation, the signature of the incoming key, lead time, overlap, and a cycle later
  -- than that of the submitter's last rotation.
  pub validate_iff : (validate lib codec v (some e) ≡ ok tt) ↔ Admissible lib codec v e
  validate_iff = (validate_sound, validate_complete)
