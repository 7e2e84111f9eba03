-- ===== src/Engine/Start.antt =====
-- pkg/consensus/engine.go: NewEngine and NewEngineWithPeers. The interval of the cycles is in Pace.
use gleipnir.Prelude.{
  ℕ, ◌+◌, ◌*◌, ◌/◌, ◌≡◌, ap, true, false, Bytes, bytes_eq, zero_bytes, refl, Option, none, some,
  List, [], ◌∷◌, ◌++◌, length, nat_beq, arith, if◌then◌else◌, map,
}
use gleipnir.Prelude.Int.{pos}
use gleipnir.Prelude.Table.{Table, lookup, insert}
use gleipnir.Chain.{QuorumConfig}
use gleipnir.Validation.KeyRotation.{new_validator}
use gleipnir.Validation.Mandates.{new_mandate_resolver}
use gleipnir.Consensus.Peer.{Peer, peer_id}
use gleipnir.Consensus.Gossip.{MemoryBus}
use gleipnir.Consensus.RateLimit.{new_limiter}
use gleipnir.Consensus.Degraded.{new_degraded_mode}
use gleipnir.Smt.{new}
use gleipnir.Engine.{
  Engine, OwnNode, Config, NetworkState, NodeState, Edge, minute, float_one, lookup_hash,
}
use gleipnir.Engine.Rotations.{info_of, register_peer_validator_set}
use gleipnir.Engine.Prepare.{Env}
use gleipnir.Engine.Operations.{Operation, perform_all}
use gleipnir.Engine.History.{ProofsInBlocks, perform_all-ProofsInBlocks}

-- state.DefaultConfig: the bit patterns of 0.05 and 0.10.
abbrev pub default_config : Config
default_config = record {
  decay_rate = 4587366580439587226;
  min_lambda1 = 4591870180066957722;
  lambda_interval = 10;
  smt_depth = 256;
  skip_empty_cycles = true;
}

abbrev peers_or_self : OwnNode → Option (List Peer) → List Peer
peers_or_self node none = record node.uid { alive = true } ∷ []
peers_or_self node (some peers) = peers

unfoldable pub start_quorum : ℕ → QuorumConfig
start_quorum n =
    if nat_beq n 1
    then record { total_validators = pos 1; required_sigs = pos 1 }
    else record { total_validators = pos n; required_sigs = pos ((2 * n + 2) / 3) }

-- The node's own entry has no keys.
unfoldable pub start_state : OwnNode → NetworkState
start_state node = record {
  cycle = 0;
  nodes =
      (
        peer_id node.uid,
        record {
          uid = node.uid.root_id;
          status = float_one;
          consecutive = 0;
          join_cycle = 0;
          dilithium3_pk = zero_bytes 1952;
          vrf_pk = zero_bytes 32;
        },
      )
      ∷ [];
  edges =
      record { from_node = peer_id node.uid; to_node = peer_id node.uid; weight = float_one } ∷ [];
  lambda1 = 0;
  supervision_root = zero_bytes 32;
  active_mandates = [];
  validator_set = info_of node.uid ∷ [];
}

unfoldable pub new_engine : Env → OwnNode → Option MemoryBus → Option (List Peer) → Engine
new_engine env node gossip peers = record {
  node = node;
  state = start_state node;
  cfg = default_config;
  st = new env.blake3 256;
  blocks = [];
  pending = [];
  anchored = [];
  gossip = gossip;
  peers = peers_or_self node peers;
  api_limits = record {
    max_label_len = pos 0;
    max_total_pending = pos 0;
    max_pending_per_submitter = pos 0;
  };
  stopped = false;
  rate_limiter = some (new_limiter 5000 minute);
  quorum_config = start_quorum (length (peers_or_self node peers));
  degraded = some (new_degraded_mode 4 10);
  pending_entries = [];
  last_pending_change = 0;
  rotations = new_validator (info_of node.uid ∷ []) 0 10 10;
  rotation_bodies = [];
  mandate_resolver = new_mandate_resolver env.mandate_codec [];
  mandate_bodies = [];
}

abbrev or_no_peers : Option (List Peer) → List Peer
or_no_peers none = []
or_no_peers (some peers) = peers

-- A peer is registered once, with its keys; a node that is there already keeps what it has.
unfoldable pub register_nodes : List Peer → Table Bytes NodeState → Table Bytes NodeState
register_nodes [] nodes = nodes
register_nodes (p ∷ ps) nodes = register_nodes ps (elim (lookup (peer_id p) nodes) [
  | some n ↦ nodes
  | none ↦
      insert (peer_id p)
        (record {
          uid = p.root_id;
          status = float_one;
          consecutive = 0;
          join_cycle = 0;
          dilithium3_pk = p.public_key;
          vrf_pk = p.vrf_public_key;
        })
        nodes
])

abbrev edge_to : Peer → Peer → Edge
edge_to p q = record { from_node = peer_id p; to_node = peer_id q; weight = float_one }

-- The edges from each of the first peers to all of the second.
unfoldable pub full_mesh : List Peer → List Peer → List Edge
full_mesh [] all = []
full_mesh (p ∷ ps) all = map (edge_to p) all ++ full_mesh ps all

-- NewEngineWithPeers
unfoldable pub new_engine_with_peers :
    Env → OwnNode → Option MemoryBus → Option (List Peer) → Engine
new_engine_with_peers env node gossip peers =
    let e = new_engine env node gossip peers in
    let known = or_no_peers peers in
    register_peer_validator_set (record e {
      state = record e.state {
        nodes = register_nodes known e.state.nodes;
        edges = full_mesh known known;
        validator_set = map info_of known;
      };
    })

started-anchored :
    (env : Env) (node : OwnNode) (gossip : Option MemoryBus) (peers : Option (List Peer))
    → (new_engine_with_peers env node gossip peers).anchored ≡ []
unfolding new_engine_with_peers new_engine register_peer_validator_set
started-anchored env node gossip none = refl
started-anchored env node gossip (some []) = refl
started-anchored env node gossip (some (p ∷ ps)) = refl

-- Whatever operations are called on an engine from its start on, whatever its peers, and whatever is
-- on the bus, each proof that LookupHash gives names a block of the chain that holds the entry.
pub started-ProofsInBlocks :
    (env : Env) (node : OwnNode) (gossip : Option MemoryBus) (peers : Option (List Peer))
    (ops : List Operation)
    → ProofsInBlocks (perform_all env (new_engine_with_peers env node gossip peers) ops)
unfolding lookup_hash lookup
started-ProofsInBlocks env node gossip peers ops =
    let e = new_engine_with_peers env node gossip peers in
    perform_all-ProofsInBlocks env ops e (λ h p found.
      absurd (ground (arith, found, ap (lookup h) (started-anchored env node gossip peers))))
