-- ===== src/Validation/KeyRotation.antt =====
-- pkg/validation/key_rotation.go: the five admission rules, the history of accepted rotations, and
-- which keys are authoritative in a cycle. The lock is not modelled: each method is one step.
pub mod Rules
pub mod Built
pub mod History
pub mod Keys
use mathlib.Core.List.{foldl}
use gleipnir.Prelude.{
  ℕ, ◌-◌, Bool, true, false, not, ◌&&◌, Bytes, Option, none, some, List, [], ◌∷◌, ◌++◌, ltb, leb,
  nat_beq, length, if◌then◌else◌, ◌==◌, bytes_eq,
}
use gleipnir.Prelude.Table.{Table, lookup, insert}
use gleipnir.Prelude.Results.{Result, ok, err, guard, or_fail, ◌>>=◌, ◌>>◌}
use gleipnir.Prelude.Words.{add64}
use gleipnir.Identity.Dilithium.{Mldsa, verify_dilithium, signature_size}
use gleipnir.Chain.{ValidatorInfo}
use gleipnir.Chain.KeyRotation.{
  KeyRotationEntry, Codec, key_rotation_label, payload_bytes, verify_hash, in_overlap,
}

pub record Validator : Type 0 where
  pub validators : Table Bytes Bytes
  pub current_cycle : ℕ
  pub lead_time : ℕ
  pub min_overlap : ℕ
  pub rotations : Table Bytes (List KeyRotationEntry)

pub data RotationError : Type 0 where
  invalid_entry payload_encoding unknown_submitter invalid_old_sig invalid_new_sig : RotationError
  bad_lead_time bad_overlap duplicate : RotationError

abbrev put_validator : Table Bytes Bytes → ValidatorInfo → Table Bytes Bytes
put_validator m vi = insert vi.validator_id vi.dilithium3_pk m

unfoldable pub set_validator_set : Validator → List ValidatorInfo → Validator
set_validator_set v set = record v { validators = foldl put_validator [] set }

unfoldable pub set_cycle : Validator → ℕ → Validator
set_cycle v cycle = record v { current_cycle = cycle }

-- NewKeyRotationValidator: `lead` and `overlap` are the fields of the configuration that are read.
unfoldable pub new_validator : List ValidatorInfo → ℕ → ℕ → ℕ → Validator
unfolding set_validator_set
new_validator set cycle lead overlap =
    set_validator_set
      (record {
        validators = [];
        current_cycle = cycle;
        lead_time = lead;
        min_overlap = overlap;
        rotations = [];
      })
      set

-- v.rotations[id]: a missing key reads as the nil slice.
abbrev or_empty : Option (List KeyRotationEntry) → List KeyRotationEntry
or_empty none = []
or_empty (some entries) = entries

-- Rotations
unfoldable pub rotations_of : Validator → Bytes → List KeyRotationEntry
rotations_of v id = or_empty (lookup id v.rotations)

-- entries[len(entries)-1].EffectiveCycle, where there is one.
unfoldable pub last_effective : List KeyRotationEntry → Option ℕ
last_effective [] = none
last_effective (r ∷ []) = some r.effective_cycle
last_effective (r ∷ r' ∷ rs) = last_effective (r' ∷ rs)

unfoldable pub last_rotation_cycle : Validator → Bytes → Option ℕ
last_rotation_cycle v id = last_effective (rotations_of v id)

-- authorisingCycle
unfoldable pub authorising_cycle : KeyRotationEntry → ℕ
authorising_cycle e = if nat_beq e.effective_cycle 0 then 0 else e.effective_cycle - 1

-- The loop of GetActivePublicKey.
unfoldable pub active_keys : Bytes → List KeyRotationEntry → ℕ → List Bytes
active_keys current [] cycle = current ∷ []
active_keys current (r ∷ rs) cycle =
    let later = active_keys r.new_public_key rs cycle in
    if ltb cycle r.effective_cycle
    then current ∷ []
    else if in_overlap r cycle
    then current ∷ r.new_public_key ∷ []
    else later

unfoldable pub get_active_public_key : Validator → Bytes → ℕ → Result RotationError (List Bytes)
get_active_public_key v id cycle = do
  current ← or_fail (lookup id v.validators) unknown_submitter
  ok (active_keys current (rotations_of v id) cycle)

module _ (lib : Mldsa) where
  -- Whether some key of the list verifies the signature.
  unfoldable pub verifies_under : List Bytes → Bytes → Bytes → Bool
  verifies_under [] msg sig = false
  verifies_under (pk ∷ pks) msg sig =
      let rest = verifies_under pks msg sig in
      if verify_dilithium lib pk msg sig then true else rest

  unfoldable pub verify_against_active_keys : Validator → Bytes → Bytes → ℕ → Bytes → Bytes → Bool
  verify_against_active_keys v id registered cycle msg sig =
      elim (get_active_public_key v id cycle) [
        | ok keys ↦ verifies_under keys msg sig
        | err e ↦ verifies_under (registered ∷ []) msg sig
      ]

  -- verifySignatureWithOverlap of pkg/consensus/key_rotation.go
  unfoldable pub verify_signature_with_overlap : Validator → Bytes → Bytes → Bytes → ℕ → Bool
  verify_signature_with_overlap v id msg sig cycle = elim (get_active_public_key v id cycle) [
    | ok keys ↦ verifies_under keys msg sig
    | err e ↦ false
  ]

-- hasPrevious && entry.EffectiveCycle <= lastCycle
abbrev not_newer : Option ℕ → ℕ → Bool
not_newer none effective = false
not_newer (some last) effective = leb effective last

module _ (lib : Mldsa) (codec : Codec) where
  validate_entry : Validator → KeyRotationEntry → Result RotationError (Unit {0})
  validate_entry v e = do
    guard (e.label == key_rotation_label) invalid_entry
    guard (verify_hash codec e) invalid_entry
    bytes ← or_fail (payload_bytes codec e) payload_encoding
    registered ← or_fail (lookup e.submitter v.validators) unknown_submitter
    guard (nat_beq (length e.signature_old) signature_size) invalid_old_sig
    guard (nat_beq (length e.signature_new) signature_size) invalid_new_sig
    guard
        (verify_against_active_keys lib v e.submitter registered (authorising_cycle e) bytes
          e.signature_old)
        invalid_old_sig
    guard (verify_dilithium lib e.new_public_key bytes e.signature_new) invalid_new_sig
    guard (leb (add64 v.current_cycle v.lead_time) e.effective_cycle) bad_lead_time
    guard (leb (add64 e.effective_cycle v.min_overlap) e.expiry_cycle) bad_overlap
    guard (not (not_newer (last_rotation_cycle v e.submitter) e.effective_cycle)) duplicate
    ok tt

  unfoldable pub validate : Validator → Option KeyRotationEntry → Result RotationError (Unit {0})
  unfolding validate_entry
  validate v none = err invalid_entry
  validate v (some e) = validate_entry v e

-- sort.Search for the first entry that takes effect no earlier, and the insertion there.
insert_sorted : KeyRotationEntry → List KeyRotationEntry → List KeyRotationEntry
insert_sorted e [] = e ∷ []
insert_sorted e (r ∷ rs) =
    if leb e.effective_cycle r.effective_cycle then e ∷ r ∷ rs else r ∷ insert_sorted e rs

-- entries[idx].EffectiveCycle == entry.EffectiveCycle at that index.
taken : KeyRotationEntry → List KeyRotationEntry → Bool
taken e [] = false
taken e (r ∷ rs) =
    if leb e.effective_cycle r.effective_cycle
    then nat_beq r.effective_cycle e.effective_cycle
    else taken e rs

record_entry : Validator → KeyRotationEntry → Result RotationError Validator
unfolding insert_sorted taken
record_entry v e = do
  guard (not (not_newer (last_rotation_cycle v e.submitter) e.effective_cycle)) duplicate
  let entries = rotations_of v e.submitter
  guard (not (taken e entries)) duplicate
  ok (record v { rotations = insert e.submitter (insert_sorted e entries) v.rotations })

unfoldable pub record_rotation :
    Validator → Option KeyRotationEntry → Result RotationError Validator
unfolding record_entry
record_rotation v none = err invalid_entry
record_rotation v (some e) = record_entry v e

module _ (lib : Mldsa) (codec : Codec) where
  unfoldable pub validate_and_record :
      Validator → Option KeyRotationEntry → Result RotationError Validator
  validate_and_record v e = do validate lib codec v e; record_rotation v e
