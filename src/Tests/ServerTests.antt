-- ===== src/Tests/ServerTests.antt =====
-- A gRPC server of three validators, and one whose tree holds a single entry.
use gleipnir.Prelude.{
  ℕ, ◌≡◌, refl, true, false, Bytes, bytes_eq, bytes_beq, zero_bytes, Option, none, some, List, [],
  ◌∷◌, map, arith, replicate,
}
use gleipnir.Prelude.Int.{pos}
use gleipnir.Prelude.Words.{be_bytes}
use gleipnir.Prelude.Bits.{test_bit, shr}
use gleipnir.Prelude.Table.{lookup, insert}
use gleipnir.Prelude.Results.{ok}
use gleipnir.Chain.{Block}
use gleipnir.Chain.Mandate.{MandateEntry}
use gleipnir.Identity.Dilithium.{verify_dilithium}
use gleipnir.Identity.Registry.{register_identity, find_key, verify_signature, canonical_payload}
use gleipnir.Validation.Mandates.{validate_entry_against_mandates}
use gleipnir.Consensus.Peer.{peer_id, hex_encode}
use gleipnir.Consensus.RateLimit.{allow, new_limiter, after_cutoff, window_of}
use gleipnir.Engine.{Engine, check_entry, is_zero_hash, api_limits_of, get_block}
use gleipnir.Engine.Submission.{submitted, enqueue, is_full, allows, add_pending}
use gleipnir.Engine.Start.{new_engine_with_peers, new_engine}
use gleipnir.Engine.Rotations.{register_peer_validator_set}
use gleipnir.Transport.{padded}
use gleipnir.Server.{
  Server, Uid, ServerOption, with_peers, with_gossip, new_server, apply_options, apply_option,
  build_engine, own_registry, own_node, PbSubmitRequest, submit_hash, authenticate_submit,
  requested_entry, rpc_verify_hash,
}
use gleipnir.Server.Calls.{Event, submits_hash, engine_does, serve, serve_all}
use gleipnir.Server.Options
use gleipnir.Server.Options.{Backed}
use gleipnir.Chain.{ProvenanceEntry}
use gleipnir.Smt.{
  SparseMerkleTree, new, bulk_insert, insert_key, insert_at, insert_at_leaf, split_and_insert,
  put_leaf, put_inner, parent_hash, leaf_hash, leaf_preimage, path, prove, prove_from, verify,
}
use gleipnir.Smt.Hashed
use gleipnir.Smt.Hashed.{IsHashed}
use gleipnir.LightClient.{verify_block}
use gleipnir.Server.Reads.{
  block_to_proto, stream_blocks, check_named_block, get_merkle_proof, entry_to_proto,
  non_negative_uint64,
}
use gleipnir.Server.Reads.Stream
use gleipnir.Server.Reads.Proofs
use gleipnir.Server.Reads.Wire
use gleipnir.Server.Reads.Wire.{Formed, absent, present, counts}
use gleipnir.Tests.LightTests.{anchor, shown}
use gleipnir.Tests.Fixtures.{candidate, toy_codec, toy_hash, toy_peer, toy_secret, toy_sig, toy_lib}
use gleipnir.Tests.EngineTests.{toy_env, shared_bus, engine}
use gleipnir.Tests.StartTests.{lone, lone_proof, anchors, three, lone_hash, one_cycle}

abbrev uid : Uid
uid = record { shown = toy_peer 1; secret_key = toy_secret 1; simulated = false }

abbrev chosen : List ServerOption
chosen = with_peers three ∷ with_gossip (some shared_bus) ∷ []

abbrev server : Server
server = record {
  engine = new_engine_with_peers toy_env (own_node (1 ∷ []) uid) (some shared_bus) (some three);
  registry = own_registry uid;
  cycle_interval = pos 3000000000;
}

starts : new_server toy_env (1 ∷ []) uid chosen ≡ ok server
unfolding new_server apply_options apply_option build_engine
starts = refl

abbrev request : PbSubmitRequest
request = record {
  hash = 9 ∷ [];
  submitter = 1 ∷ [];
  timestamp = pos 4;
  label = [];
  approver = [];
  reference = [];
  signature = toy_sig 1;
}

abbrev no_mandate : Bytes → Option MandateEntry
no_mandate bs = none

abbrev events : List Event
events = submits_hash request 4 ∷ []

accepts :
    (submit_hash toy_lib (serve_all toy_env no_mandate server events) 5 request).1.accepted ≡ true
unfolding submit_hash serve authenticate_submit find_key own_registry register_identity hex_encode
    peer_id verify_signature verify_dilithium enqueue check_entry is_zero_hash api_limits_of is_full
    allows allow add_pending validate_entry_against_mandates new_engine_with_peers new_engine lookup
    insert bytes_beq requested_entry register_peer_validator_set padded new_limiter after_cutoff
    window_of
accepts = refl

accepted-is_own_example :
    (hex_encode request.submitter ≡ peer_id uid.shown)
    × (verify_dilithium toy_lib uid.shown.public_key
          (canonical_payload request.hash request.submitter request.timestamp request.label)
          request.signature
        ≡ true)
accepted-is_own_example =
    Options.accepted-is_own toy_env (1 ∷ []) uid no_mandate chosen events server 5 request starts
      accepts

-- A server that is its network's only validator, after a cycle that anchors what is on the bus.
abbrev alone : List ServerOption
alone =
    with_peers (toy_peer 1 ∷ [])
    ∷ with_gossip
        (some (record shared_bus { entries = submitted lone_hash (7 ∷ []) [] (pos 3) ∷ [] }))
    ∷ []

abbrev lone_server : Server
lone_server = record { engine = lone; registry = own_registry uid; cycle_interval = pos 3000000000 }

starts_alone : new_server toy_env [] uid alone ≡ ok lone_server
unfolding new_server apply_options apply_option build_engine own_node
starts_alone = refl

abbrev cycled : Server
cycled = serve_all toy_env no_mandate lone_server (map engine_does one_cycle)

-- VerifyHash answers with the proof.
verifies : rpc_verify_hash cycled (128 ∷ []) ≡ some lone_proof
unfolding rpc_verify_hash padded serve
verifies = anchors

rpc_verify_hash-Backed_example : Backed cycled.engine (128 ∷ []) (rpc_verify_hash cycled (128 ∷ []))
rpc_verify_hash-Backed_example =
    Options.rpc_verify_hash-Backed toy_env [] uid no_mandate alone (map engine_does one_cycle)
      lone_server (128 ∷ []) starts_alone

-- Three blocks, of which the last two are asked for.
abbrev three_blocks : Engine
three_blocks = record engine {
  blocks = candidate ∷ record candidate { index = 1 } ∷ record candidate { index = 2 } ∷ [];
}

stream_blocks-eq-slice_example :
    stream_blocks 1025 three_blocks 1 2
    ≡ some (
        block_to_proto (record candidate { index = 1 })
        ∷ block_to_proto (record candidate { index = 2 })
        ∷ [])
stream_blocks-eq-slice_example =
    Stream.stream_blocks-eq-slice three_blocks 1025 1 2 (omega arith) (omega arith) (omega arith)

-- A digest of 32 bytes, and a tree with one entry under it.
abbrev cut : Bytes → Bytes
cut b = padded 32 b

abbrev single_key : Bytes
single_key = 128 ∷ replicate 31 0

abbrev or_empty_tree : Option SparseMerkleTree → SparseMerkleTree
or_empty_tree none = new cut 8
or_empty_tree (some t) = t

abbrev single : SparseMerkleTree
single = or_empty_tree (bulk_insert cut (new cut 8) ((single_key, 7 ∷ []) ∷ []))

fills : bulk_insert cut (new cut 8) ((single_key, 7 ∷ []) ∷ []) ≡ some single
unfolding bulk_insert new insert_key insert_at insert_at_leaf split_and_insert put_leaf put_inner
    parent_hash leaf_hash leaf_preimage be_bytes path test_bit shr lookup insert bytes_beq padded
fills = refl

single-IsHashed : IsHashed cut single.store
single-IsHashed =
    Hashed.bulk_insert-IsHashed cut (new cut 8) single ((single_key, 7 ∷ []) ∷ [])
      (Hashed.new-IsHashed cut 8) fills

abbrev holding : Engine
holding = record engine {
  st = single;
  blocks = candidate ∷ record candidate { state_root = zero_bytes 32 } ∷ [];
}

abbrev no_siblings : List Bytes
no_siblings = []

Answers : (index : ℕ) → (proof : List Bytes) → (root : Bytes) → Type 0
Answers index proof root = get_merkle_proof holding single_key index ≡ ok (proof, root)

current : Answers 0 [] single.root
unfolding Answers get_merkle_proof check_named_block prove prove_from bulk_insert new insert_key
    insert_at insert_at_leaf split_and_insert put_leaf put_inner parent_hash leaf_hash leaf_preimage
    be_bytes path test_bit shr lookup insert bytes_beq padded get_block
current = refl

named : Answers 1 [] single.root
unfolding Answers get_merkle_proof check_named_block prove prove_from bulk_insert new insert_key
    insert_at insert_at_leaf split_and_insert put_leaf put_inner parent_hash leaf_hash leaf_preimage
    be_bytes path test_bit shr lookup insert bytes_beq padded get_block
named = refl

get_merkle_proof-current_example :
    ((value : Bytes) × (verify cut holding.st single_key value single.root no_siblings ≡ true))
    × ((single.root ≡ holding.st.root)
        × ((no_siblings ≡ no_siblings) × (single.root ≡ single.root)))
unfolding Answers
get_merkle_proof-current_example =
    Proofs.get_merkle_proof-current cut holding single_key 1 0 no_siblings no_siblings single.root
      single.root single-IsHashed named current

-- A block with an entry that names an approver, and the same with an empty map for a missing one.
abbrev approved : ProvenanceEntry
approved = record {
  hash = 9 ∷ [];
  submitter = 1 ∷ [];
  timestamp = pos 4;
  label = [];
  approver = some (2 ∷ []);
  reference = none;
  signature = [];
  mandate_ref = none;
}

abbrev with_entry : Block
with_entry = record shown { anchored = some (approved ∷ []); metadata = none }

abbrev with_map : Block
with_map = record shown { anchored = some (approved ∷ []); metadata = some [] }

alike : block_to_proto with_entry ≡ block_to_proto with_map
unfolding block_to_proto entry_to_proto non_negative_uint64
alike = refl

with_entry-Formed : Formed with_entry
with_entry-Formed = record {
  filled = present approved [];
  entries = ((present 2 [], (absent, absent)), tt);
  total = counts 4;
  required = counts 3;
}

with_map-Formed : Formed with_map
with_map-Formed = record {
  filled = present approved [];
  entries = ((present 2 [], (absent, absent)), tt);
  total = counts 4;
  required = counts 3;
}

verify_block-sent_alike_example :
    verify_block toy_lib toy_hash toy_codec (some with_entry) anchor
    ≡ verify_block toy_lib toy_hash toy_codec (some with_map) anchor
verify_block-sent_alike_example =
    Wire.verify_block-sent_alike toy_lib toy_hash toy_codec anchor with_entry with_map
      with_entry-Formed with_map-Formed alike
