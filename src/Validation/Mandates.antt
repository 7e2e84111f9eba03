-- ===== src/Validation/Mandates.antt =====
-- pkg/validation/mandate_resolver.go (Put and the lookup by identifier), mandate_validator.go and
-- mandate_authority.go: which mandates are known, and whether an entry keeps the one that it names.
pub mod Admission
pub mod Queries
pub mod InForce
use mathlib.Core.List.{foldl}
use gleipnir.Prelude.{
  ℕ, Bool, true, false, not, Bytes, bytes_eq, ◌==◌, codes, zero_bytes, Option, none, some, List, [],
  ◌∷◌, length, nat_beq, if◌then◌else◌,
}
use gleipnir.Prelude.Int.{ℤ}
use gleipnir.Prelude.Table.{Table, lookup, insert}
use gleipnir.Prelude.Results.{Result, ok, err, guard, or_fail, ◌>>=◌, ◌>>◌}
use gleipnir.Identity.Dilithium.{Mldsa, signature_size}
use gleipnir.Chain.{ProvenanceEntry}
use gleipnir.Chain.Mandate.{
  MandateEntry, Rule, MandateCodec, mandate_id, verify_mandate_hash, verify_authority_signature,
  is_active_at,
}

pub data MandateError : Type 0 where
  invalid_mandate_entry mandate_not_found mandate_expired missing_required_field : MandateError
  mandate_hash_mismatch mandate_signature authority_mismatch : MandateError

-- MandateResolver: its map from identifiers to bodies.
abbrev pub MandateResolver : Type 0
MandateResolver = Table Bytes MandateEntry

module _ (codec : MandateCodec) where
  unfoldable pub put : MandateResolver → MandateEntry → MandateResolver
  put r mandate = let id = mandate_id codec mandate in insert id (record mandate { id = id }) r

  unfoldable pub new_mandate_resolver : List MandateEntry → MandateResolver
  new_mandate_resolver mandates = foldl put [] mandates

unfoldable pub get_mandate_by_id : MandateResolver → Bytes → Option MandateEntry
get_mandate_by_id r id = lookup id r

-- entryMatchesRule
unfoldable pub entry_matches_rule : ProvenanceEntry → Rule → Bool
entry_matches_rule entry rule =
    if rule.event_class == [] then true else entry.label == rule.event_class

abbrev is_set {ℓ} : {A : Type ℓ} → Option A → Bool
is_set none = false
is_set (some a) = true

-- entryHasField
unfoldable pub entry_has_field : ProvenanceEntry → Bytes → Bool
entry_has_field entry field =
    if field == codes "Approver"
    then is_set entry.approver
    else if field == codes "Reference"
    then is_set entry.reference
    else if field == codes "Signature"
    then not (nat_beq (length entry.signature) 0)
    else if field == codes "MandateRef"
    then is_set entry.mandate_ref
    else if field == codes "Label"
    then not (entry.label == [])
    else if field == codes "Submitter"
    then not (entry.submitter == zero_bytes 16)
    else if field == codes "Hash"
    then not (entry.hash == zero_bytes 32)
    else true

-- validateRule, over the required fields.
unfoldable pub validate_fields : ProvenanceEntry → List Bytes → Result MandateError (Unit {0})
validate_fields entry [] = ok tt
validate_fields entry (field ∷ fields) =
    let rest = validate_fields entry fields in
    if not (entry_has_field entry field) then err missing_required_field else rest

-- The loop of ValidateEntryAgainstMandates over the rules.
unfoldable pub validate_rules : ProvenanceEntry → List Rule → Result MandateError (Unit {0})
validate_rules entry [] = ok tt
validate_rules entry (rule ∷ rules) =
    let rest = validate_rules entry rules in
    if not (entry_matches_rule entry rule)
    then rest
    else validate_fields entry rule.required_fields >> rest

unfoldable pub validate_entry_against_mandates :
    MandateResolver → Option ProvenanceEntry → ℤ → Result MandateError (Unit {0})
validate_entry_against_mandates r none timestamp = err invalid_mandate_entry
validate_entry_against_mandates r (some entry) timestamp = elim entry.mandate_ref [
  | none ↦ ok tt
  | some id ↦ elim (get_mandate_by_id r id) [
    | none ↦ err mandate_not_found
    | some mandate ↦
        if not (is_active_at mandate timestamp)
        then err mandate_expired
        else validate_rules entry mandate.rules
  ]
]

-- ValidateMandateAuthority
unfoldable pub validate_mandate_authority :
    MandateCodec
    → Mldsa
    → Option MandateEntry
    → Option (Bytes → Option Bytes)
    → Result MandateError (Unit {0})
validate_mandate_authority codec lib none keys = err invalid_mandate_entry
validate_mandate_authority codec lib (some m) none = err invalid_mandate_entry
validate_mandate_authority codec lib (some m) (some key_of) = do
  guard (verify_mandate_hash codec m) mandate_hash_mismatch
  guard (nat_beq (length m.signature) signature_size) mandate_signature
  public_key ← or_fail (key_of m.authority) authority_mismatch
  guard (verify_authority_signature codec lib m public_key) mandate_signature
  ok tt
