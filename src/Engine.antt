-- ===== src/Engine.antt =====
-- The engine of pkg/consensus/engine.go and api.go: its state, what it is asked, and the small
-- steps that the cycle is made of. Each method holds the engine's lock and is one step; the bus that
-- the engines of a process share is the engine's field for the length of a step. The clock is an
-- argument. A float64 is its bit pattern. Of the fields, those for timing are in Pace, and those for
-- storage are left out.
pub mod Submission
pub mod Rotations
pub mod Bodies
pub mod Transition
pub mod Prepare
pub mod Cycle
pub mod Pool
pub mod Rollback
pub mod Atomic
pub mod Lost
pub mod Operations
pub mod Ledger
pub mod History
pub mod SubChains
pub mod Silent
pub mod Signer
pub mod Start
pub mod Pace
use gleipnir.Prelude.{
  ℕ, ◌+◌, ◌*◌, ◌/◌, ◌-◌, Bool, true, false, not, ◌&&◌, ◌||◌, Bytes, codes, zero_bytes, bytes_eq,
  nat_eq, ◌==◌, Option, none, some, List, [], ◌∷◌, ◌++◌, length, get_elem?, leb, ltb, nat_beq,
  if◌then◌else◌, map,
}
use gleipnir.Prelude.Int.{ℤ, pos, negsuc, ltb_ℤ, leb_ℤ}
use gleipnir.Prelude.Table.{Table, lookup, insert}
use gleipnir.Prelude.Results.{Result, ok, err, guard, ◌>>=◌, ◌>>◌}
use gleipnir.Chain.{Block, ProvenanceEntry, QuorumConfig, ValidatorInfo, is_valid}
use gleipnir.Chain.KeyRotation.{KeyRotationEntry, BuildError}
use gleipnir.Chain.Mandate.{MandateEntry}
use gleipnir.Validation.KeyRotation.{Validator, RotationError}
use gleipnir.Validation.Mandates.{MandateResolver, MandateError}
use gleipnir.Consensus.Peer.{Peer}
use gleipnir.Consensus.Gossip.{MemoryBus, snapshot}
use gleipnir.Consensus.RateLimit.{SubmitterLimiter, new_limiter}
use gleipnir.Consensus.Degraded.{DegradedMode, non_negative}
use gleipnir.Smt.{SparseMerkleTree}

-- validation.APILimits
pub record ApiLimits : Type 0 where
  pub max_label_len : ℤ
  pub max_total_pending : ℤ
  pub max_pending_per_submitter : ℤ

-- The fields of state.Config that the engine's cycle reads.
pub record Config : Type 0 where
  pub decay_rate : ℕ
  pub min_lambda1 : ℕ
  pub lambda_interval : ℕ
  pub smt_depth : ℕ
  pub skip_empty_cycles : Bool

-- state.NodeState, Edge and NetworkState
pub record NodeState : Type 0 where
  pub uid : Bytes
  pub status : ℕ
  pub consecutive : ℕ
  pub join_cycle : ℕ
  pub dilithium3_pk : Bytes
  pub vrf_pk : Bytes

pub record Edge : Type 0 where
  pub from_node : Bytes
  pub to_node : Bytes
  pub weight : ℕ

pub record NetworkState : Type 0 where
  pub cycle : ℕ
  pub nodes : Table Bytes NodeState
  pub edges : List Edge
  pub lambda1 : ℕ
  pub supervision_root : Bytes
  pub active_mandates : List MandateEntry
  pub validator_set : List ValidatorInfo

-- chain.AnchorProof
pub record AnchorProof : Type 0 where
  pub found : Bool
  pub block_index : ℕ
  pub block_time : ℤ
  pub state_root : Bytes
  pub smt_proof : Bytes
  pub submitter : Bytes
  pub label : Bytes

-- Node: the identity with its secret key.
pub record OwnNode : Type 0 where
  pub uid : Peer
  pub secret_key : Bytes

pub record Engine : Type 0 where
  pub node : OwnNode
  pub state : NetworkState
  pub cfg : Config
  pub st : SparseMerkleTree
  pub blocks : List Block
  pub pending : List ProvenanceEntry
  pub anchored : Table Bytes AnchorProof
  pub gossip : Option MemoryBus
  pub peers : List Peer
  pub api_limits : ApiLimits
  pub stopped : Bool
  pub rate_limiter : Option SubmitterLimiter
  pub quorum_config : QuorumConfig
  pub degraded : Option DegradedMode
  pub pending_entries : List ProvenanceEntry
  pub last_pending_change : ℕ
  pub rotations : Validator
  pub rotation_bodies : Table Bytes KeyRotationEntry
  pub mandate_resolver : MandateResolver
  pub mandate_bodies : Table Bytes MandateEntry

pub data EngineError : Type 0 where
  engine_stopped rate_limited hash_not_found hash_mismatch : EngineError
  invalid_hash invalid_submitter label_too_long : EngineError
  mandate_failed : MandateError → EngineError
  rotation_failed : RotationError → EngineError
  rotation_not_built : BuildError → EngineError

-- DefaultAPILimits
abbrev pub default_api_limits : ApiLimits
default_api_limits = record {
  max_label_len = pos 256;
  max_total_pending = pos 100000;
  max_pending_per_submitter = pos 5000;
}

-- apiLimitsLocked
unfoldable pub api_limits_of : Engine → ApiLimits
api_limits_of e = elim e.api_limits.max_label_len [
  | pos n ↦ if nat_beq n 0 then default_api_limits else e.api_limits
  | negsuc n ↦ e.api_limits
]

abbrev pub minute : ℕ
minute = 60000000000

-- A negative number of calls is as good as none.
abbrev renewed : Option SubmitterLimiter → ℤ → Option SubmitterLimiter
renewed none limit = none
renewed (some old) limit = some (new_limiter (non_negative limit) minute)

-- SetAPILimits
unfoldable pub set_api_limits : Engine → ApiLimits → Engine
set_api_limits e cfg = record e {
  api_limits = cfg;
  rate_limiter = renewed e.rate_limiter cfg.max_pending_per_submitter;
}

-- IsZeroHash
unfoldable pub is_zero_hash : Bytes → Bool
is_zero_hash [] = true
is_zero_hash (b ∷ bs) = if not (nat_beq b 0) then false else is_zero_hash bs

-- validateEntry of api.go, and ValidateEntry of pkg/validation/validation.go.
unfoldable pub check_entry : Bytes → Bytes → Bytes → ApiLimits → Result EngineError (Unit {0})
check_entry hash submitter label cfg = do
  guard (not (is_zero_hash hash)) invalid_hash
  guard (not (submitter == zero_bytes 16)) invalid_submitter
  guard (not (ltb_ℤ cfg.max_label_len (pos (length label)))) label_too_long

-- Stop, without a storage.
unfoldable pub stop_engine : Engine → Engine
stop_engine e = record e { stopped = true }

unfoldable pub set_quorum_config : Engine → QuorumConfig → Engine
set_quorum_config e config = if is_valid config then record e { quorum_config = config } else e

-- LookupHash, and VerifyHash, which only names the error.
unfoldable pub lookup_hash : Engine → Bytes → Option AnchorProof
lookup_hash e hash = lookup hash e.anchored

unfoldable pub get_block : Engine → ℕ → Option Block
get_block e index = if leb (length e.blocks) index then none else get_elem? e.blocks index

-- nextCycleLocked
unfoldable pub next_cycle : Engine → ℕ
next_cycle e = length e.blocks

-- known[hash] for the hashes of a list.
unfoldable pub knows : List ProvenanceEntry → Bytes → Bool
knows [] hash = false
knows (e ∷ es) hash = if e.hash == hash then true else knows es hash

-- The loop of ingestGossipedEntriesLocked: what is added, where `known` is what is held already.
unfoldable pub fresh : List ProvenanceEntry → List ProvenanceEntry → List ProvenanceEntry
fresh known [] = []
fresh known (e ∷ es) =
    let rest = fresh (e ∷ known) es in
    let skip = fresh known es in if knows known e.hash then skip else e ∷ rest

abbrev pub with_added : Engine → ℕ → List ProvenanceEntry → Engine
with_added e now [] = e
with_added e now (x ∷ xs) = record e {
  pending_entries = e.pending_entries ++ (x ∷ xs);
  last_pending_change = now;
}

-- ingestGossipedEntriesLocked
unfoldable pub ingest : Engine → ℕ → Engine
ingest e now = elim e.gossip [
  | none ↦ e
  | some bus ↦ with_added e now (fresh (e.pending_entries ++ e.pending) (snapshot bus))
]

-- uint64(s.Status > 0): float64's order, on bit patterns that are no NaN.
pub record Floats : Type 0 where
  pub less : ℕ → ℕ → Bool
  pub minus : ℕ → ℕ → ℕ

abbrev pub float_one : ℕ
float_one = 4607182418800017408

-- chain.NetworkHealth
pub record NetworkHealth : Type 0 where
  pub lambda1 : ℕ
  pub active_peers : ℕ
  pub total_peers : ℕ
  pub block_height : ℕ
  pub pending_hashes : ℕ

unfoldable pub count_active : Floats → Table Bytes NodeState → ℕ
count_active fl [] = 0
count_active fl ((id, n) ∷ rest) =
    let others = count_active fl rest in if fl.less 0 n.status then others + 1 else others

unfoldable pub get_health : Floats → Engine → NetworkHealth
get_health fl e = record {
  lambda1 = e.state.lambda1;
  active_peers = count_active fl e.state.nodes;
  total_peers = length e.state.nodes;
  block_height = length e.blocks;
  pending_hashes = length e.pending;
}
