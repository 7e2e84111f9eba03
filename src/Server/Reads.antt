-- ===== src/Server/Reads.antt =====
-- What pkg/server/lightclient.go, server.go and mandates.go answer to reads. A stream that the client
-- leaves early is left out.
pub mod Stream
pub mod Proofs
pub mod Wire
use gleipnir.Prelude.{
  or_nil, is_empty, ℕ, zero, suc, ◌+◌, ◌-◌, not, ◌||◌, Bool, true, false, Bytes, bytes_eq, Option,
  none, some, List, [], ◌∷◌, map, length, nat_beq, nat_eq, ltb, leb, if◌then◌else◌,
}
use gleipnir.Prelude.Int.{ℤ, pos, negsuc}
use gleipnir.Prelude.Words.{add64, sub64}
use gleipnir.Prelude.Table.{Table, lookup}
use gleipnir.Prelude.Results.{Result, ok, err, guard, or_fail, ◌>>=◌, ◌>>◌}
use gleipnir.Chain.{Block, ProvenanceEntry, ValidatorInfo, QuorumConfig}
use gleipnir.Chain.Mandate.{MandateEntry, MandateCodec}
use gleipnir.Validation.KeyRotation.{get_active_public_key}
use gleipnir.Validation.Mandates.{get_mandate_by_id}
use gleipnir.Validation.Mandates.Queries.{get_active_mandates}
use gleipnir.Validation.Compliance.{
  ComplianceWindow, ComplianceReport, ComplianceGap, validate_window,
}
use gleipnir.Engine.Bodies.{check_compliance}
use gleipnir.Smt.{prove}
use gleipnir.Engine.{Engine, get_block, get_health, Floats, NetworkHealth}
use gleipnir.Transport.{padded}
use gleipnir.Server.Calls.{RpcError, invalid_argument, not_found, failed_precondition, internal}

pub record PbEntry : Type 0 where
  pub hash : Bytes
  pub submitter : Bytes
  pub timestamp : ℤ
  pub label : Bytes
  pub approver : Bytes
  pub reference : Bytes
  pub signature : Bytes
  pub mandate_ref : Bytes

-- pb.Block, with its two counts of pb.QuorumConfig.
pub record PbBlock : Type 0 where
  pub index : ℕ
  pub prev_hash : Bytes
  pub state_root : Bytes
  pub proposer : Bytes
  pub anchored : List PbEntry
  pub lambda1 : ℕ
  pub timestamp : ℤ
  pub validators : List ValidatorInfo
  pub total_validators : ℕ
  pub required_sigs : ℕ
  pub block_hash : Bytes
  pub protocol_version : ℕ
  pub prepare_sigs_bitmap : Bytes
  pub prepare_sigs : List Bytes
  pub commit_sig : Bytes
  pub external_anchors : List Bytes
  pub key_rotation_epoch : ℕ
  pub legacy_anchor : Bytes
  pub metadata : Table Bytes Bytes

-- nonNegativeUint64
unfoldable pub non_negative_uint64 : ℤ → ℕ
non_negative_uint64 (pos n) = n
non_negative_uint64 (negsuc n) = 0

-- nonNegativeUint32, for a count.
unfoldable pub non_negative_uint32 : ℕ → ℕ
non_negative_uint32 n = if ltb 4294967295 n then 4294967295 else n

-- The entry of the loop of blockToProto.
unfoldable pub entry_to_proto : ProvenanceEntry → PbEntry
entry_to_proto e = record {
  hash = e.hash;
  submitter = e.submitter;
  timestamp = e.timestamp;
  label = e.label;
  approver = or_nil e.approver;
  reference = or_nil e.reference;
  signature = e.signature;
  mandate_ref = or_nil e.mandate_ref;
}

unfoldable pub block_to_proto : Block → PbBlock
block_to_proto b = record {
  index = b.index;
  prev_hash = b.prev_hash;
  state_root = b.state_root;
  proposer = b.proposer;
  anchored = map entry_to_proto (or_nil b.anchored);
  lambda1 = b.lambda1;
  timestamp = b.timestamp;
  validators = b.validators;
  total_validators = non_negative_uint64 b.quorum.total_validators;
  required_sigs = non_negative_uint64 b.quorum.required_sigs;
  block_hash = b.block_hash;
  protocol_version = b.protocol_version;
  prepare_sigs_bitmap = or_nil b.prepare_sigs_bitmap;
  prepare_sigs = or_nil b.prepare_sigs;
  commit_sig = b.commit_sig;
  external_anchors = b.external_anchors;
  key_rotation_epoch = b.key_rotation_epoch;
  legacy_anchor = b.legacy_anchor;
  metadata = or_nil b.metadata;
}

-- GetBlock; `none` is the empty message.
unfoldable pub rpc_get_block : Engine → ℕ → Option PbBlock
rpc_get_block e index = elim (get_block e index) [ none ↦ none | some b ↦ some (block_to_proto b) ]

-- GetValidatorSet. The cycle of the request is only named in the error.
unfoldable pub get_validator_set : Engine → ℕ → Result RpcError (List ValidatorInfo)
get_validator_set e cycle =
    if is_empty e.state.validator_set then err failed_precondition else ok e.state.validator_set

-- The block that the caller of GetMerkleProof names, if it names one.
unfoldable pub check_named_block : Engine → ℕ → Result RpcError (Unit {0})
check_named_block e index =
    if ltb 0 index
    then elim (get_block e index) [
      | none ↦ err not_found
      | some b ↦ guard (nat_beq (length b.state_root) 32) failed_precondition
    ]
    else ok tt

unfoldable pub get_merkle_proof : Engine → Bytes → ℕ → Result RpcError (List Bytes × Bytes)
get_merkle_proof e key index = do
  guard (nat_beq (length key) 32) invalid_argument
  check_named_block e index
  proof ← or_fail (prove e.st key) internal
  guard (nat_beq (length e.st.root) 32) failed_precondition
  ok (proof, e.st.root)

abbrev pub max_stream_blocks : ℕ
max_stream_blocks = 1024

abbrev sent : PbBlock → Option (List PbBlock) → Option (List PbBlock)
sent b none = none
sent b (some bs) = some (b ∷ bs)

-- The loop of StreamBlocks; `none` is out of fuel.
unfoldable pub stream_from : Engine → ℕ → ℕ → ℕ → Option (List PbBlock)
stream_from e zero i to = none
stream_from e (suc fuel) i to =
    let rest = stream_from e fuel (add64 i 1) to in
    if not (leb i to)
    then some []
    else elim (get_block e i) [ none ↦ some [] | some b ↦ sent (block_to_proto b) rest ]

-- The end of the range, once it has been put right.
unfoldable pub stream_end : ℕ → ℕ → ℕ
stream_end from to =
    let to' = if ltb to from then from else to in
    if leb max_stream_blocks (to' - from) then sub64 (add64 from max_stream_blocks) 1 else to'

unfoldable pub stream_blocks : ℕ → Engine → ℕ → ℕ → Option (List PbBlock)
unfolding stream_end
stream_blocks fuel e from to = stream_from e fuel from (stream_end from to)

-- GetActivePublicKey: the keys, and whether there are two.
unfoldable pub rpc_get_active_public_key : Engine → Bytes → ℕ → Result RpcError (List Bytes × Bool)
rpc_get_active_public_key e id cycle = do
  guard (is_empty id || nat_beq (length id) 16) invalid_argument
  let of_whom = if is_empty id then e.node.uid.root_id else id
  let when = if nat_beq cycle 0 then e.state.cycle else cycle
  elim (get_active_public_key e.rotations of_whom when) [
    | err x ↦ err not_found
    | ok keys ↦ ok (keys, ltb 1 (length keys))
  ]

abbrev or_else_found : Option MandateEntry → Option MandateEntry → Option MandateEntry
or_else_found none other = other
or_else_found (some m) other = some m

-- GetMandate
unfoldable pub get_mandate : MandateCodec → Engine → Bytes → Result RpcError Bytes
get_mandate codec e id = do
  guard (nat_beq (length id) 32) invalid_argument
  m ←
      or_fail (or_else_found (lookup id e.mandate_bodies) (get_mandate_by_id e.mandate_resolver id))
        not_found
  or_fail (codec.marshal m) internal

-- The loop of GetActiveMandates.
unfoldable pub marshal_all : MandateCodec → List MandateEntry → Result RpcError (List Bytes)
marshal_all codec [] = ok []
marshal_all codec (m ∷ ms) = do
  encoded ← or_fail (codec.marshal m) internal
  others ← marshal_all codec ms
  ok (encoded ∷ others)

-- GetActiveMandates at the time `now`, which stands for a timestamp of zero.
unfoldable pub rpc_get_active_mandates :
    MandateCodec → Engine → ℤ → ℤ → Result RpcError (List Bytes)
rpc_get_active_mandates codec e now (pos zero) =
    marshal_all codec (get_active_mandates e.mandate_resolver now)
rpc_get_active_mandates codec e now (pos (suc n)) =
    marshal_all codec (get_active_mandates e.mandate_resolver (pos (suc n)))
rpc_get_active_mandates codec e now (negsuc n) =
    marshal_all codec (get_active_mandates e.mandate_resolver (negsuc n))

-- complianceReportToProto, whose clampUint32 is non_negative_uint32 under another name.
unfoldable pub gap_to_proto : ComplianceGap → ComplianceGap
gap_to_proto g = record g { rule_index = non_negative_uint32 g.rule_index }

unfoldable pub compliance_report_to_proto : ComplianceReport → ComplianceReport
compliance_report_to_proto r = record r {
  total_expected = non_negative_uint32 r.total_expected;
  total_anchored = non_negative_uint32 r.total_anchored;
  gaps = map gap_to_proto r.gaps;
}

-- CheckCompliance; `none` is out of fuel.
unfoldable pub rpc_check_compliance :
    ℕ → Engine → Bytes → ComplianceWindow → Option (Result RpcError ComplianceReport)
rpc_check_compliance fuel e id w =
    if not (nat_beq (length id) 32) then some (err invalid_argument) else elim (validate_window w) [
      | err x ↦ some (err invalid_argument)
      | ok u ↦ elim (check_compliance e fuel id w) [
        | none ↦ none
        | some (err x) ↦ some (err not_found)
        | some (ok r) ↦ some (ok (compliance_report_to_proto r))
      ]
    ]

-- GetHealth, and GetCurrentStateRoot with the number of blocks.
unfoldable pub rpc_get_health : Floats → Engine → NetworkHealth × Bytes
rpc_get_health floats e =
    let h = get_health floats e in
    (
      record h {
        active_peers = non_negative_uint32 h.active_peers;
        total_peers = non_negative_uint32 h.total_peers;
      },
      e.st.root,
    )

unfoldable pub get_current_state_root : Engine → Bytes × ℕ
get_current_state_root e = (e.st.root, length e.blocks)
