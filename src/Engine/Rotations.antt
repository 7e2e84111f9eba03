-- ===== src/Engine/Rotations.antt =====
-- pkg/consensus/key_rotation.go: the engine's side of key rotation.
use gleipnir.Prelude.{
  ℕ, Bool, true, false, not, ◌&&◌, Bytes, bytes_eq, ◌==◌, Option, none, some, List, [], ◌∷◌, ltb,
  if◌then◌else◌, map,
}
use gleipnir.Prelude.Table.{Table, lookup, insert}
use gleipnir.Prelude.Int.{ℤ}
use gleipnir.Prelude.Results.{Result, ok, err}
use gleipnir.Identity.Dilithium.{Mldsa}
use gleipnir.Chain.{ProvenanceEntry, ValidatorInfo}
use gleipnir.Chain.KeyRotation.{
  KeyRotationEntry, Codec, key_rotation_label, verify_hash, is_effective,
  new_entry_with_new_signature,
}
use gleipnir.Validation.KeyRotation.{
  Validator, RotationError, invalid_entry, set_validator_set, set_cycle, validate,
  validate_and_record, rotations_of,
}
use gleipnir.Consensus.Peer.{Peer}
use gleipnir.Engine.{Engine, EngineError, rotation_failed, rotation_not_built, hash_mismatch}
use gleipnir.Engine.Submission.{enqueue}

-- syncKeyRotationStateLocked
unfoldable pub sync_key_rotation_state : Engine → Engine
sync_key_rotation_state e = record e {
  rotations = set_cycle (set_validator_set e.rotations e.state.validator_set) e.state.cycle;
}

-- The ValidatorInfo of a peer, as registerPeerValidatorSetLocked and RunPreparePhase write it.
unfoldable pub info_of : Peer → ValidatorInfo
info_of p = record {
  validator_id = p.root_id;
  dilithium3_pk = p.public_key;
  vrf_pk = p.vrf_public_key;
  contract_hash = p.contract_hash;
}

abbrev is_nil {ℓ} : {A : Type ℓ} → List A → Bool
is_nil [] = true
is_nil (x ∷ xs) = false

-- registerPeerValidatorSetLocked
unfoldable pub register_peer_validator_set : Engine → Engine
register_peer_validator_set e =
    if is_nil e.peers
    then e
    else record e { rotations = set_validator_set e.rotations (map info_of e.peers) }

-- The entry that anchors a rotation.
unfoldable pub rotation_anchor : KeyRotationEntry → ProvenanceEntry
rotation_anchor r = record {
  hash = r.hash;
  submitter = r.submitter;
  timestamp = r.timestamp;
  label = r.label;
  approver = none;
  reference = none;
  signature = [];
  mandate_ref = none;
}

unfoldable pub keep_body : Engine → KeyRotationEntry → Engine
keep_body e r = record e { rotation_bodies = insert r.hash r e.rotation_bodies }

-- keyRotationEpochLocked: its inner and its outer loop.
unfoldable pub epoch_of : ℕ → List KeyRotationEntry → ℕ → ℕ
epoch_of cycle [] epoch = epoch
epoch_of cycle (r ∷ rs) epoch =
    epoch_of cycle rs
      (if is_effective r cycle && ltb epoch r.effective_cycle then r.effective_cycle else epoch)

unfoldable pub epoch_over : Validator → ℕ → List ValidatorInfo → ℕ → ℕ
epoch_over v cycle [] epoch = epoch
epoch_over v cycle (vi ∷ vis) epoch =
    epoch_over v cycle vis (epoch_of cycle (rotations_of v vi.validator_id) epoch)

unfoldable pub key_rotation_epoch : Engine → ℕ
key_rotation_epoch e = epoch_over e.rotations e.state.cycle e.state.validator_set 0

module _ (lib : Mldsa) (codec : Codec) where
  unfoldable pub submit_key_rotation :
      Engine → Option KeyRotationEntry → ℕ → Engine × Result EngineError (Unit {0})
  submit_key_rotation e none now = (e, err (rotation_failed invalid_entry))
  submit_key_rotation e (some r) now =
      let synced = sync_key_rotation_state e in
      elim (validate lib codec synced.rotations (some r)) [
        | err x ↦ (synced, err (rotation_failed x))
        | ok u ↦ enqueue (keep_body synced r) (rotation_anchor r) now
      ]

  -- RotateKey, with its two readings of the clock: nanoseconds since 1970 for the entry, and the time
  -- of Enqueue. An entry that is built but refused is returned with the error.
  unfoldable pub rotate_key :
      Engine
      → Bytes
      → Bytes
      → Bytes
      → ℕ
      → ℕ
      → ℤ
      → ℕ
      → Engine × (Option KeyRotationEntry × Result EngineError (Unit {0}))
  rotate_key e new_pk new_vrf_pk sig_new effective expiry timestamp now =
      elim (new_entry_with_new_signature lib codec e.node.uid.root_id e.node.secret_key new_pk
        new_vrf_pk sig_new effective expiry timestamp) [
          | err x ↦ (e, (none, err (rotation_not_built x)))
          | ok r ↦ let done = submit_key_rotation e (some r) now in (done.0, (some r, done.1))
        ]

  unfoldable pub record_rotation_body :
      Engine → Option KeyRotationEntry → Engine × Result EngineError (Unit {0})
  record_rotation_body e none = (e, err (rotation_failed invalid_entry))
  record_rotation_body e (some r) =
      if not (verify_hash codec r) then (e, err hash_mismatch) else (keep_body e r, ok tt)

  -- What is left of the history when a body is judged; a rejection is only logged.
  abbrev judged : Validator → Result RotationError Validator → Validator
  judged v (ok v') = v'
  judged v (err x) = v

  -- The loop of processKeyRotationEntriesLocked
  unfoldable pub process_rotations :
      Table Bytes KeyRotationEntry → Validator → List ProvenanceEntry → Validator
  process_rotations bodies v [] = v
  process_rotations bodies v (pe ∷ pes) =
      if not (pe.label == key_rotation_label)
      then process_rotations bodies v pes
      else elim (lookup pe.hash bodies) [
        | none ↦ process_rotations bodies v pes
        | some body ↦
            process_rotations bodies (judged v (validate_and_record lib codec v (some body))) pes
      ]

  unfoldable pub process_key_rotation_entries : Engine → List ProvenanceEntry → Engine
  process_key_rotation_entries e entries = record e {
    rotations = process_rotations e.rotation_bodies e.rotations entries;
  }
