-- ===== src/Engine/Prepare.antt =====
-- RunPreparePhase of pkg/consensus/prepare.go. While it waits, other engines write to the bus; what
-- the bus is when a wait ends is given by `Waits`. Proofs travel as bytes, and VRFProve, which rests
-- on third-party curve arithmetic, gives the local one.
use gleipnir.Prelude.{
  or_nil, ℕ, Bool, true, false, not, Bytes, codes, zero_bytes, bytes_eq, nat_eq, ◌==◌, Option, none,
  some, List, [], ◌∷◌, length, leb, ltb, nat_beq, map, if◌then◌else◌,
}
use gleipnir.Prelude.Int.{pos}
use gleipnir.Prelude.Table.{Table, lookup, insert}
use gleipnir.Prelude.Results.{Result, ok, err, guard, or_fail, ◌>>=◌, ◌>>◌}
use gleipnir.Identity.Dilithium.{Mldsa, sign_dilithium}
use gleipnir.Chain.{Block, ProvenanceEntry}
use gleipnir.Chain.BlockHash.{HashCodec, compute_block_hash}
use gleipnir.Validation.KeyRotation.{verify_signature_with_overlap}
use gleipnir.Consensus.Peer.{Peer, peer_id}
use gleipnir.Consensus.Gossip.{
  MemoryBus, BlockSig, VrfProofMsg, publish_vrf_proof, get_vrf_proofs, snapshot, propose,
  publish_sig, get_sigs, get_proposed,
}
use gleipnir.Consensus.Triad.{make_alpha, select_proposer}
use gleipnir.Consensus.Commit.{build_bitmap, degraded_label}
use gleipnir.Consensus.Commit.Phase.{PrepareResult, find_leader}
use gleipnir.Smt.{SparseMerkleTree, insert_key}
use gleipnir.Chain.KeyRotation.{Codec}
use gleipnir.Chain.Mandate.{MandateCodec}
use gleipnir.Engine.{Engine, NetworkState, Floats, knows}
use gleipnir.Engine.Rotations.{info_of, key_rotation_epoch}

-- `index_out_of_range` is Go's run-time panic at block.PrepareSigs[0], and `below_bottom` the tree in
-- which Insert goes on below the last depth.
pub data PrepareError : Type 0 where
  vrf_proof_error selection_failed proposer_inactive no_proposal no_entries : PrepareError
  no_gossip root_mismatch hash_mismatch proposer_sig_failed : PrepareError
  index_out_of_range below_bottom : PrepareError

pub record Waits : Type 0 where
  pub for_proofs : MemoryBus → MemoryBus
  pub for_proposal : MemoryBus → MemoryBus
  pub for_signatures : MemoryBus → MemoryBus
  pub for_final : MemoryBus → MemoryBus

pub record Env : Type 0 where
  pub lib : Mldsa
  pub codec : HashCodec
  pub blake3 : Bytes → Bytes
  pub vrf_prove : Bytes → Option Bytes
  pub unmarshal_vrf_proof : Bytes → Bool
  pub vrf_verify : Bytes → Bytes → Bytes → Option Bytes
  pub floats : Floats
  pub rotation_codec : Codec
  pub mandate_codec : MandateCodec
  pub supervision_root : NetworkState → Bytes

abbrev pub own_id : Engine → Bytes
own_id e = peer_id e.node.uid

-- proposerPeers
unfoldable pub proposer_peers : Engine → List Peer
proposer_peers e = elim e.gossip [
  | none ↦ record e.node.uid { alive = true } ∷ []
  | some bus ↦ e.peers
]

-- The loop of collectVRFProofs: the first proof of a signer that can be read stays.
unfoldable pub add_proofs :
    (Bytes → Bool) → Table Bytes Bytes → List VrfProofMsg → Table Bytes Bytes
add_proofs reads proofs [] = proofs
add_proofs reads proofs (m ∷ ms) =
    if not (reads m.proof) then add_proofs reads proofs ms else elim (lookup m.signer_id proofs) [
      | none ↦ add_proofs reads (insert m.signer_id m.proof proofs) ms
      | some earlier ↦ add_proofs reads proofs ms
    ]

abbrev bus_proofs : Option MemoryBus → ℕ → List VrfProofMsg
bus_proofs none cycle = []
bus_proofs (some bus) cycle = get_vrf_proofs bus cycle

unfoldable pub collect_vrf_proofs : (Bytes → Bool) → Engine → ℕ → Bytes → Table Bytes Bytes
collect_vrf_proofs reads e cycle local =
    add_proofs reads ((own_id e, local) ∷ []) (bus_proofs e.gossip cycle)

abbrev pub after {ℓ} : {A : Type ℓ} → (A → A) → Option A → Option A
after f none = none
after f (some a) = some (f a)

-- The last block's hash, or 32 zeroes.
unfoldable pub prev_hash_of : List Block → Bytes
prev_hash_of [] = zero_bytes 32
prev_hash_of (b ∷ []) = b.block_hash
prev_hash_of (b ∷ b' ∷ bs) = prev_hash_of (b' ∷ bs)

-- The loop that keeps the first entry of each hash, with the entries seen so far.
unfoldable pub unique_entries : List ProvenanceEntry → List ProvenanceEntry → List ProvenanceEntry
unique_entries seen [] = []
unique_entries seen (e ∷ es) =
    let rest = unique_entries (e ∷ seen) es in
    let skip = unique_entries seen es in if knows seen e.hash then skip else e ∷ rest

-- The insertion of the entries' hashes into the tree.
unfoldable pub insert_entries :
    (Bytes → Bytes) → SparseMerkleTree → List ProvenanceEntry → Option SparseMerkleTree
insert_entries blake3 t [] = some t
insert_entries blake3 t (e ∷ es) = elim (insert_key blake3 t e.hash e.hash) [
  | none ↦ none
  | some t' ↦ insert_entries blake3 t' es
]

-- e.state.Nodes[proposerHex] with Status <= 0
unfoldable pub is_inactive : Floats → Engine → Bytes → Bool
is_inactive fl e id = elim (lookup id e.state.nodes) [
  | none ↦ false
  | some n ↦ not (fl.less 0 n.status)
]

abbrev degraded_metadata : ℕ → Option (Table Bytes Bytes)
degraded_metadata required =
    if nat_beq required 1 then some ((degraded_label, codes "true") ∷ []) else none

-- The candidate block B before its root, hash and signature.
unfoldable pub draft : Engine → Peer → ℕ → List ProvenanceEntry → ℕ → ℕ → Block
draft e proposer cycle entries required now = record {
  index = cycle;
  prev_hash = prev_hash_of e.blocks;
  state_root = [];
  proposer = proposer.root_id;
  anchored = some entries;
  lambda1 = e.state.lambda1;
  timestamp = pos now;
  validators = map info_of e.peers;
  quorum = e.quorum_config;
  block_hash = [];
  protocol_version = 2;
  prepare_sigs_bitmap = none;
  prepare_sigs = some [];
  commit_sig = [];
  external_anchors = [];
  key_rotation_epoch = key_rotation_epoch e;
  legacy_anchor = [];
  metadata = degraded_metadata required;
}

-- Propose and PublishSig
abbrev published : Option MemoryBus → Block → BlockSig → Option MemoryBus
published none block s = none
published (some bus) block s = some (publish_sig (propose bus block) s)

-- block.PrepareSigs[0]
unfoldable pub first_sig : Block → Option Bytes
first_sig block = elim block.prepare_sigs [
  | none ↦ none
  | some sigs ↦ elim sigs [ [] ↦ none | sig ∷ rest ↦ some sig ]
]

abbrev bus_sigs : Option MemoryBus → ℕ → List BlockSig
bus_sigs none cycle = []
bus_sigs (some bus) cycle = get_sigs bus cycle

-- The first signature of the bus with this engine's name.
unfoldable pub own_sig : Bytes → List BlockSig → Table Bytes Bytes
own_sig me [] = []
own_sig me (s ∷ ss) = if s.signer_id == me then (me, s.sig) ∷ [] else own_sig me ss

unfoldable pub add_sigs : Table Bytes Bytes → List BlockSig → Table Bytes Bytes
add_sigs sigs [] = sigs
add_sigs sigs (s ∷ ss) = elim (lookup s.signer_id sigs) [
  | none ↦ add_sigs (insert s.signer_id s.sig sigs) ss
  | some earlier ↦ add_sigs sigs ss
]

module _ (env : Env) (w : Waits) where
  -- The proposer's new block, with its root, its hash and its own signature, published.
  unfoldable pub make_block :
      Engine → Peer → ℕ → List ProvenanceEntry → ℕ → ℕ → Engine × Result PrepareError Block
  make_block e proposer cycle entries required now =
      elim (insert_entries env.blake3 e.st (unique_entries [] entries)) [
        | none ↦ (e, err below_bottom)
        | some t ↦
            let rooted = record (draft e proposer cycle (unique_entries [] entries) required now) {
              state_root = t.root;
            } in
            let hash = compute_block_hash env.codec rooted in
            let sig = sign_dilithium env.lib e.node.secret_key hash in
            let block = record rooted { block_hash = hash; prepare_sigs = some (sig ∷ []) } in
            let vote : BlockSig = record { cycle = cycle; sig = sig; signer_id = own_id e } in
            (record e { st = t; gossip = published e.gossip block vote }, ok block)
      ]

  -- waitForVRFProofs, which is not called where every proof is there.
  unfoldable pub wait_for_vrf_proofs : Engine → ℕ → Bytes → Engine
  wait_for_vrf_proofs e cycle local =
      if ltb (length (collect_vrf_proofs env.unmarshal_vrf_proof e cycle local))
        (length (proposer_peers e))
      then record e { gossip = after w.for_proofs e.gossip }
      else e

  -- The proposer's branch, where `check` asks for the block that it has proposed.
  unfoldable pub propose_block :
      Engine → Peer → ℕ → List ProvenanceEntry → Bool → ℕ → ℕ → Engine × Result PrepareError Block
  propose_block e proposer cycle pending check required now = elim e.gossip [
    | none ↦
        if nat_beq (length pending) 0
        then (e, err no_entries)
        else make_block e proposer cycle pending required now
    | some bus ↦
        if check
        then elim (get_proposed bus cycle) [
          | none ↦ (e, err no_proposal)
          | some block ↦ (e, ok block)
        ]
        else if nat_beq (length (snapshot bus)) 0
        then (e, err no_entries)
        else make_block e proposer cycle (snapshot bus) required now
  ]

  -- The checks on a proposal, against the tree that holds its entries.
  unfoldable pub check_proposal :
      Engine → Peer → ℕ → SparseMerkleTree → Block → Result PrepareError (Unit {0})
  check_proposal e proposer cycle t block = do
    guard (t.root == block.state_root) root_mismatch
    guard (compute_block_hash env.codec block == block.block_hash) hash_mismatch
    sig ← or_fail (first_sig block) index_out_of_range
    guard
        (verify_signature_with_overlap env.lib e.rotations proposer.root_id block.block_hash sig
          cycle)
        proposer_sig_failed

  -- PublishSig with this engine's own signature of the block's hash.
  unfoldable pub vote : Engine → ℕ → MemoryBus → Block → MemoryBus
  vote e cycle bus block = publish_sig bus (record {
    cycle = cycle;
    sig = sign_dilithium env.lib e.node.secret_key block.block_hash;
    signer_id = own_id e;
  })

  -- The other validators' branch.
  unfoldable pub follow_proposal : Engine → Peer → ℕ → Engine × Result PrepareError Block
  follow_proposal e proposer cycle = elim e.gossip [
    | none ↦ (e, err no_gossip)
    | some before ↦
        let bus = w.for_proposal before in
        let waited = record e { gossip = some bus } in
        elim (get_proposed bus cycle) [
          | none ↦ (waited, err no_proposal)
          | some block ↦ elim (insert_entries env.blake3 e.st (or_nil block.anchored)) [
            | none ↦ (waited, err below_bottom)
            | some t ↦ elim (check_proposal e proposer cycle t block) [
              | err x ↦ (record waited { st = t }, err x)
              | ok u ↦ (record waited { st = t; gossip = some (vote e cycle bus block) }, ok block)
            ]
          ]
        ]
  ]

  -- The signatures that collectValidSigs finds: its own first, then the first of each signer.
  unfoldable pub collected : Engine → ℕ → Bool → Block → Option (Table Bytes Bytes)
  collected e cycle am_proposer block =
      let sigs = bus_sigs e.gossip cycle in
      if am_proposer
      then elim (first_sig block) [
        | none ↦ none
        | some sig ↦ some (add_sigs ((own_id e, sig) ∷ []) sigs)
      ]
      else some (add_sigs (own_sig (own_id e) sigs) sigs)

  -- Those of known validators that verify.
  unfoldable pub valid_sigs : Engine → ℕ → Block → Table Bytes Bytes → Table Bytes Bytes
  valid_sigs e cycle block [] = []
  valid_sigs e cycle block ((id, sig) ∷ rest) =
      let others = valid_sigs e cycle block rest in
      elim (find_leader id e.peers) [
        | none ↦ others
        | some root ↦
            if verify_signature_with_overlap env.lib e.rotations root block.block_hash sig cycle
            then (id, sig) ∷ others
            else others
      ]

  -- collectValidSigs; `none` is the panic.
  unfoldable pub collect_valid_sigs : Engine → ℕ → Bool → Block → Option (Table Bytes Bytes)
  collect_valid_sigs e cycle am_proposer block = elim (collected e cycle am_proposer block) [
    | none ↦ none
    | some sigs ↦ some (valid_sigs e cycle block sigs)
  ]

  -- waitForSignatures, where too few signatures are there at first.
  unfoldable pub wait_for_signatures :
      Engine → ℕ → Bool → Block → ℕ → Table Bytes Bytes → Engine × Table Bytes Bytes
  wait_for_signatures e cycle am_proposer block required sigs = elim e.gossip [
    | none ↦ (e, sigs)
    | some bus ↦
        let waited = record e { gossip = some (w.for_signatures bus) } in
        if leb required (length sigs)
        then (e, sigs)
        else elim (collect_valid_sigs waited cycle am_proposer block) [
          | none ↦ (waited, sigs)
          | some more ↦ if leb required (length more) then (waited, more) else (waited, sigs)
        ]
  ]

  abbrev prepared : Engine → Bytes → Block → Bool → Table Bytes Bytes → PrepareResult
  prepared e leader block reached sigs = record {
    block = block;
    prepare_sigs = sigs;
    prepare_bitmap = build_bitmap sigs e.peers;
    leader_id = leader;
    quorum_reached = reached;
  }

  -- From the signatures to the result.
  unfoldable pub gather :
      Engine → ℕ → Bytes → Bool → Bool → ℕ → Block → Engine × Result PrepareError PrepareResult
  gather e cycle leader am_proposer check required block =
      elim (collect_valid_sigs e cycle am_proposer block) [
        | none ↦ (e, err index_out_of_range)
        | some sigs ↦
            if not check
            then (e, ok (prepared e leader block false sigs))
            else let waited = wait_for_signatures e cycle am_proposer block required sigs in
              (waited.0, ok (prepared e leader block (leb required (length waited.1)) waited.1))
      ]

  abbrev pub then_gather :
      ℕ
      → Bytes
      → Bool
      → Bool
      → ℕ
      → Engine × Result PrepareError Block
      → Engine × Result PrepareError PrepareResult
  then_gather cycle leader am_proposer check required (e, err x) = (e, err x)
  then_gather cycle leader am_proposer check required (e, ok block) =
      gather e cycle leader am_proposer check required block

  -- The phase once the proposer is chosen.
  unfoldable pub with_proposer :
      Engine
      → Peer
      → ℕ
      → List ProvenanceEntry
      → Bool
      → ℕ
      → ℕ
      → Engine × Result PrepareError PrepareResult
  with_proposer e proposer cycle pending check required now =
      let leader = peer_id proposer in
      let am_proposer = leader == own_id e in
      if is_inactive env.floats e leader
      then (e, err proposer_inactive)
      else then_gather cycle leader am_proposer check required (
          if am_proposer
          then propose_block e proposer cycle pending check required now
          else follow_proposal e proposer cycle)

  -- PublishVRFProof
  abbrev pub show_proof : Engine → ℕ → Bytes → Engine
  show_proof e cycle local = record e {
    gossip =
        after
          (λ bus.
            publish_vrf_proof bus (record { cycle = cycle; proof = local; signer_id = own_id e }))
          e.gossip;
  }

  unfoldable pub run_prepare_phase :
      Engine
      → ℕ
      → Bytes
      → List ProvenanceEntry
      → Bool
      → ℕ
      → ℕ
      → Engine × Result PrepareError PrepareResult
  run_prepare_phase e cycle root pending check required now =
      elim (env.vrf_prove (make_alpha cycle root)) [
        | none ↦ (e, err vrf_proof_error)
        | some local ↦
            let waited = wait_for_vrf_proofs (show_proof e cycle local) cycle local in
            elim (select_proposer env.vrf_verify (proposer_peers waited) cycle root
              (collect_vrf_proofs env.unmarshal_vrf_proof waited cycle local)) [
                | err x ↦ (waited, err selection_failed)
                | ok best ↦ with_proposer waited best.peer cycle pending check required now
              ]
      ]
