-- ===== src/Server.antt =====
-- pkg/server/server.go and mandates.go: the gRPC server around one engine. A call is one step, and the
-- clock is an argument. The generated messages keep the fields that a handler reads. Contexts, logs
-- and the texts of errors are left out. `WaitForAnchor` only waits for what `verify_hash` finds.
pub mod Options
pub mod Calls
pub mod Reads
use gleipnir.Prelude.{
  is_empty, ℕ, Bool, true, false, not, ◌&&◌, Bytes, bytes_eq, Option, none, some, List, [], ◌∷◌,
  length, nat_beq, ltb, if◌then◌else◌,
}
use gleipnir.Prelude.Int.{ℤ, pos, ltb_ℤ}
use gleipnir.Prelude.Results.{Result, ok, err, guard, ◌>>=◌, ◌>>◌}
use gleipnir.Identity.Dilithium.{Mldsa, public_key_size, signature_size}
use gleipnir.Identity.Registry.{Registry, register_identity, find_key, verify_signature}
use gleipnir.Chain.{ProvenanceEntry}
use gleipnir.Chain.KeyRotation.{KeyRotationEntry}
use gleipnir.Chain.Mandate.{MandateEntry}
use gleipnir.Consensus.Peer.{Peer, peer_id, hex_encode}
use gleipnir.Consensus.Gossip.{MemoryBus}
use gleipnir.Engine.{Engine, EngineError, OwnNode, AnchorProof, lookup_hash}
use gleipnir.Engine.Submission.{enqueue}
use gleipnir.Engine.Rotations.{rotate_key}
use gleipnir.Engine.Bodies.{submit_mandate}
use gleipnir.Engine.Prepare.{Env}
use gleipnir.Engine.Start.{new_engine, new_engine_with_peers}
use gleipnir.Transport.{padded}

-- The identity that a server is given: identity.UIDZeroSoulbound.
pub record Uid : Type 0 where
  pub shown : Peer
  pub secret_key : Bytes
  pub simulated : Bool

-- The fields that the options set. The registry is not there yet when they run.
pub record Setup : Type 0 where
  pub allow_simulated : Bool
  pub cycle_interval : ℤ
  pub peers : List Peer
  pub gossip : Option MemoryBus

pub data ServerOption : Type 0 where
  with_peers : List Peer → ServerOption
  with_gossip : Option MemoryBus → ServerOption
  with_allow_simulated_identities : Bool → ServerOption
  with_key : Uid → ServerOption
  with_cycle_interval : ℤ → ServerOption

pub record Server : Type 0 where
  pub engine : Engine
  pub registry : Registry
  pub cycle_interval : ℤ

-- `nil_pointer` is not an error value but Go's run-time panic.
pub data StartError : Type 0 where
  simulated_identity no_transport no_peers nil_pointer : StartError

-- opt(s)
unfoldable pub apply_option : Setup → ServerOption → Result StartError Setup
apply_option s (with_peers peers) = ok (record s { peers = peers })
apply_option s (with_gossip gossip) = ok (record s { gossip = gossip })
apply_option s (with_allow_simulated_identities allow) = ok (record s { allow_simulated = allow })
apply_option s (with_key uid) = err nil_pointer
apply_option s (with_cycle_interval d) =
    if ltb_ℤ (pos 0) d then ok (record s { cycle_interval = d }) else ok s

unfoldable pub apply_options : Setup → List ServerOption → Result StartError Setup
apply_options s [] = ok s
apply_options s (opt ∷ opts) = do s' ← apply_option s opt; apply_options s' opts

abbrev pub default_setup : Setup
default_setup = record {
  allow_simulated = false;
  cycle_interval = pos 3000000000;
  peers = [];
  gossip = none;
}

abbrev pub is_none {ℓ} : {A : Type ℓ} → Option A → Bool
is_none none = true
is_none (some a) = false

-- The registry of NewServer: the node's own key.
unfoldable pub own_registry : Uid → Registry
own_registry uid =
    elim (register_identity (record { cache = [] }) (peer_id uid.shown) uid.shown.public_key) [
      | ok r ↦ r
      | err x ↦ record { cache = [] }
    ]

-- consensus.Node, at the address `node_id`.
unfoldable pub own_node : Bytes → Uid → OwnNode
own_node node_id uid = record {
  uid = record uid.shown { addr = node_id };
  secret_key = uid.secret_key;
}

-- NewEngine, or with peers NewEngineWithPeers.
unfoldable pub build_engine : Env → Bytes → Uid → Setup → Engine
build_engine env node_id uid s =
    if is_empty s.peers
    then new_engine env (own_node node_id uid) none none
    else new_engine_with_peers env (own_node node_id uid) s.gossip (some s.peers)

unfoldable pub new_server : Env → Bytes → Uid → List ServerOption → Result StartError Server
new_server env node_id uid opts = do
  s ← apply_options default_setup opts
  guard (not (not s.allow_simulated && uid.simulated)) simulated_identity
  guard (not (not (is_empty s.peers) && is_none s.gossip)) no_transport
  guard (not (not (is_none s.gossip) && is_empty s.peers)) no_peers
  ok (record {
    engine = build_engine env node_id uid s;
    registry = own_registry uid;
    cycle_interval = s.cycle_interval;
  })

-- pb.SubmitRequest; an optional field that is missing is empty.
pub record PbSubmitRequest : Type 0 where
  pub hash : Bytes
  pub submitter : Bytes
  pub timestamp : ℤ
  pub label : Bytes
  pub approver : Bytes
  pub reference : Bytes
  pub signature : Bytes

pub data SubmitError : Type 0 where
  unknown_submitter missing_signature signature_mismatch : SubmitError
  engine_refused : EngineError → SubmitError

pub record SubmitResponse : Type 0 where
  pub tx_id : Bytes
  pub accepted : Bool
  pub error : Option SubmitError

unfoldable pub authenticate_submit :
    Mldsa → Registry → PbSubmitRequest → Result SubmitError (Unit {0})
authenticate_submit lib registry req = elim (find_key registry (hex_encode req.submitter)) [
  | err x ↦ err unknown_submitter
  | ok pub_key ↦ do
    guard (not (is_empty req.signature)) missing_signature
    guard
        (verify_signature lib pub_key req.hash req.submitter req.timestamp req.label req.signature)
        signature_mismatch
]

abbrev if_given : ℕ → Bytes → Option Bytes
if_given n [] = none
if_given n (b ∷ bs) = some (padded n (b ∷ bs))

unfoldable pub requested_entry : PbSubmitRequest → ProvenanceEntry
requested_entry req = record {
  hash = padded 32 req.hash;
  submitter = padded 16 req.submitter;
  timestamp = req.timestamp;
  label = req.label;
  approver = if_given 16 req.approver;
  reference = if_given 32 req.reference;
  signature = req.signature;
  mandate_ref = none;
}

abbrev rejected : PbSubmitRequest → SubmitError → SubmitResponse
rejected req x = record { tx_id = req.hash; accepted = false; error = some x }

unfoldable pub submit_hash : Mldsa → Server → ℕ → PbSubmitRequest → Server × SubmitResponse
submit_hash lib s now req = elim (authenticate_submit lib s.registry req) [
  | err x ↦ (s, rejected req x)
  | ok u ↦
      let queued = enqueue s.engine (requested_entry req) now in
      let s' = record s { engine = queued.0 } in
      elim queued.1 [
        | err x ↦ (s', rejected req (engine_refused x))
        | ok u' ↦ (s', record { tx_id = req.hash; accepted = true; error = none })
      ]
]

-- VerifyHash; `none` is a proof whose Found is false.
unfoldable pub rpc_verify_hash : Server → Bytes → Option AnchorProof
rpc_verify_hash s hash = lookup_hash s.engine (padded 32 hash)
