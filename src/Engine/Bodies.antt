-- ===== src/Engine/Bodies.antt =====
-- pkg/consensus/mandates.go: the engine's side of mandates.
use gleipnir.Prelude.{
  or_nil, ℕ, not, ◌&&◌, Bytes, codes, zero_bytes, bytes_eq, ◌==◌, Option, none, some, List, [], ◌∷◌,
  ◌++◌, ltb, if◌then◌else◌,
}
use gleipnir.Prelude.Table.{lookup, insert}
use gleipnir.Prelude.Results.{Result, ok, err}
use gleipnir.Identity.Dilithium.{Mldsa, public_key_size}
use gleipnir.Chain.{Block, ProvenanceEntry, ValidatorInfo}
use gleipnir.Chain.Mandate.{MandateEntry, MandateCodec}
use gleipnir.Validation.Mandates.{
  MandateResolver, mandate_hash_mismatch, put, validate_mandate_authority,
}
use gleipnir.Validation.Compliance.{
  ComplianceWindow, ComplianceReport, ComplianceError, check_compliance_mandate,
}
use gleipnir.Consensus.Peer.{hex_encode}
use gleipnir.Engine.{Engine, EngineError, mandate_failed, NodeState}
use gleipnir.Engine.Submission.{enqueue}

abbrev pub mandate_label : Bytes
mandate_label = codes "3cp:mandate:v1"

abbrev or_else {ℓ} : {A : Type ℓ} → Option A → Option A → Option A
or_else none o = o
or_else (some a) o = some a

-- v.ValidatorID == rootID for some validator of the set: its key.
unfoldable pub validator_key : List ValidatorInfo → Bytes → Option Bytes
validator_key [] id = none
validator_key (v ∷ vs) id =
    if v.validator_id == id then some v.dilithium3_pk else validator_key vs id

abbrev node_key : Option NodeState → Option Bytes
node_key none = none
node_key (some n) =
    if n.dilithium3_pk == zero_bytes public_key_size then none else some n.dilithium3_pk

-- mandateAuthorityLookupLocked
unfoldable pub mandate_authority_lookup : Engine → Bytes → Option Bytes
mandate_authority_lookup e id =
    or_else (validator_key e.state.validator_set id)
      (node_key (lookup (hex_encode id) e.state.nodes))

-- The entry that anchors a mandate.
unfoldable pub mandate_anchor : MandateEntry → ProvenanceEntry
mandate_anchor m = record {
  hash = m.id;
  submitter = m.authority;
  timestamp = m.valid_from;
  label = mandate_label;
  approver = none;
  reference = none;
  signature = [];
  mandate_ref = some m.id;
}

module _ (codec : MandateCodec) (lib : Mldsa) where
  unfoldable pub keep_mandate : Engine → MandateEntry → Engine
  keep_mandate e m = record e {
    mandate_resolver = put codec e.mandate_resolver m;
    mandate_bodies = insert m.id m e.mandate_bodies;
  }

  unfoldable pub submit_mandate :
      Engine → Option MandateEntry → ℕ → Engine × Result EngineError (Unit {0})
  submit_mandate e none now = (e, err (mandate_failed mandate_hash_mismatch))
  submit_mandate e (some m) now =
      elim (validate_mandate_authority codec lib (some m) (some (mandate_authority_lookup e))) [
        | err x ↦ (e, err (mandate_failed x))
        | ok u ↦ enqueue (keep_mandate e m) (mandate_anchor m) now
      ]

  unfoldable pub record_mandate_body :
      Engine → Option MandateEntry → Engine × Result EngineError (Unit {0})
  record_mandate_body e none = (e, err (mandate_failed mandate_hash_mismatch))
  record_mandate_body e (some m) =
      elim (validate_mandate_authority codec lib (some m) (some (mandate_authority_lookup e))) [
        | err x ↦ (e, err (mandate_failed x))
        | ok u ↦ (keep_mandate e m, ok tt)
      ]

  -- The loop of processMandateEntriesLocked
  unfoldable pub process_mandates :
      Engine → MandateResolver → List ProvenanceEntry → MandateResolver
  process_mandates e r [] = r
  process_mandates e r (pe ∷ pes) =
      if not (pe.label == mandate_label)
      then process_mandates e r pes
      else elim (lookup pe.hash e.mandate_bodies) [
        | none ↦ process_mandates e r pes
        | some body ↦
            elim (validate_mandate_authority codec lib (some body)
              (some (mandate_authority_lookup e))) [
                | err x ↦ process_mandates e r pes
                | ok u ↦ process_mandates e (put codec r body) pes
              ]
      ]

  unfoldable pub process_mandate_entries : Engine → List ProvenanceEntry → Engine
  process_mandate_entries e entries = record e {
    mandate_resolver = process_mandates e e.mandate_resolver entries;
  }

-- The loop of EntriesInWindow; an end of 0 is no end.
unfoldable pub entries_between : ℕ → ℕ → List Block → List ProvenanceEntry
entries_between start end [] = []
entries_between start end (b ∷ bs) =
    let rest = entries_between start end bs in
    if ltb b.index start
    then rest
    else if ltb 0 end && ltb end b.index
    then []
    else or_nil b.anchored ++ rest

unfoldable pub entries_in_window : Engine → ℕ → ℕ → List ProvenanceEntry
entries_in_window e start end = entries_between start end e.blocks

-- CheckCompliance
unfoldable pub check_compliance :
    Engine → ℕ → Bytes → ComplianceWindow → Option (Result ComplianceError ComplianceReport)
check_compliance e fuel id w =
    check_compliance_mandate fuel e.mandate_resolver id w
      (entries_in_window e w.start_cycle w.end_cycle)
