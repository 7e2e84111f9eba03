-- ===== src/Engine/SubChains.antt =====
-- pkg/consensus/subchain.go and pkg/chain/subchain.go: chains of entries that are anchored in the
-- engine's by the hash of their root. The manager's lock is not modelled: Anchor and Prove, which
-- give it up before they call the engine, are one step here. BLAKE3-256 (identity.Hash) is a parameter.
pub mod Cross
use gleipnir.Prelude.{
  ℕ, ◌+◌, Bool, true, false, not, Bytes, codes, zero_bytes, bytes_eq, Option, none, some, List, [],
  ◌∷◌, ◌++◌, length, if◌then◌else◌,
}
use gleipnir.Prelude.Int.{ℤ, pos}
use gleipnir.Prelude.Words.{le_bytes}
use gleipnir.Prelude.Table.{Table, lookup, insert}
use gleipnir.Prelude.Results.{Result, ok, err, or_fail, guard, ◌>>=◌, ◌>>◌}
use gleipnir.Chain.{ProvenanceEntry}
use gleipnir.Smt.{SparseMerkleTree, new, prove, verify}
use gleipnir.Engine.{Engine, lookup_hash}
use gleipnir.Engine.Submission.{enqueue}
use gleipnir.Engine.Prepare.{insert_entries}

pub record SubChainDescriptor : Type 0 where
  pub id : Bytes
  pub name : Bytes
  pub owner : Bytes
  pub genesis : Bytes
  pub created_at : ℤ
  pub active : Bool

pub record CrossChainAnchor : Type 0 where
  pub sub_chain_id : Bytes
  pub state_root : Bytes
  pub prev_anchor_hash : Bytes
  pub sub_chain_height : ℕ
  pub timestamp : ℤ

pub record CrossChainProof : Type 0 where
  pub entry_hash : Bytes
  pub sub_chain_root : Bytes
  pub sub_chain_proof : List Bytes
  pub anchor_hash : Bytes
  pub anchor_block : ℕ
  pub parent_root : Bytes
  pub parent_proof : List Bytes

pub record SubChain : Type 0 where
  pub desc : SubChainDescriptor
  pub st : SparseMerkleTree
  pub anchors : List CrossChainAnchor
  pub pending : List ProvenanceEntry

-- SubChainManager: its map of chains. The engine that it points to is an argument.
abbrev pub SubChainManager : Type 0
SubChainManager = Table Bytes SubChain

-- `below_bottom` is the tree in which Insert goes on below the last depth.
pub data SubChainError : Type 0 where
  sub_chain_not_found sub_chain_exists not_found no_anchors not_committed : SubChainError
  below_bottom : SubChainError

module _ (blake3 : Bytes → Bytes) where
  -- The identifier of a chain that is registered at a time.
  unfoldable pub sub_chain_id_of : Bytes → Bytes → ℕ → Bytes
  sub_chain_id_of name owner now = blake3 (name ++ (owner ++ le_bytes 8 now))

  abbrev registered : Engine → Bytes → Bytes → Bytes → ℕ → SubChain
  registered e id name owner now = record {
    desc = record {
      id = id;
      name = name;
      owner = owner;
      genesis = (new blake3 e.cfg.smt_depth).root;
      created_at = pos now;
      active = true;
    };
    st = new blake3 e.cfg.smt_depth;
    anchors = [];
    pending = [];
  }

  -- Register, at a time that is not negative.
  unfoldable pub register :
      Engine → SubChainManager → Bytes → Bytes → ℕ → SubChainManager × Result SubChainError Bytes
  register e m name owner now =
      let id = sub_chain_id_of name owner now in
      elim (lookup id m) [
        | some sc ↦ (m, err sub_chain_exists)
        | none ↦ (insert id (registered e id name owner now) m, ok id)
      ]

  unfoldable pub anchor_hash_of : Bytes → Bytes → Bytes
  anchor_hash_of id root = blake3 (id ++ root)

  -- The state root of the last anchor, or zeroes.
  unfoldable pub last_root : List CrossChainAnchor → Bytes
  last_root [] = zero_bytes 32
  last_root (a ∷ []) = a.state_root
  last_root (a ∷ b ∷ as') = last_root (b ∷ as')

  -- The chain with its entries in the tree and one more anchor.
  abbrev anchored_chain : Bytes → SubChain → SparseMerkleTree → ℕ → SubChain
  anchored_chain id sc t now = record sc {
    st = t;
    pending = [];
    anchors =
        sc.anchors
        ++ (record {
          sub_chain_id = id;
          state_root = t.root;
          prev_anchor_hash = last_root sc.anchors;
          sub_chain_height = length sc.anchors;
          timestamp = pos now;
        }
            ∷ []);
  }

  abbrev anchor_entry : Bytes → SubChain → SparseMerkleTree → ℕ → ProvenanceEntry
  anchor_entry id sc t now = record {
    hash = anchor_hash_of id t.root;
    submitter = sc.desc.owner;
    timestamp = pos now;
    label = codes "subchain:anchor";
    approver = none;
    reference = none;
    signature = [];
    mandate_ref = none;
  }

  -- Anchor; an Enqueue that fails is only logged.
  unfoldable pub anchor_chain :
      Engine
      → SubChainManager
      → Bytes
      → ℕ
      → Engine × SubChainManager × Result SubChainError (Unit {0})
  anchor_chain e m id now = elim (lookup id m) [
    | none ↦ (e, m, err sub_chain_not_found)
    | some sc ↦ elim (insert_entries blake3 sc.st sc.pending) [
      | none ↦ (e, m, err below_bottom)
      | some t ↦ (
        (enqueue e (anchor_entry id sc t now) now).0,
        insert id (anchored_chain id sc t now) m,
        ok tt,
      )
    ]
  ]

  abbrev any_anchor : List CrossChainAnchor → Bool
  any_anchor [] = false
  any_anchor (a ∷ as') = true

  -- Prove
  unfoldable pub prove_cross_chain :
      Engine → SubChainManager → Bytes → Bytes → Result SubChainError CrossChainProof
  prove_cross_chain e m id entry_hash = do
    sc ← or_fail (lookup id m) sub_chain_not_found
    sub_proof ← or_fail (prove sc.st entry_hash) not_found
    guard (any_anchor sc.anchors) no_anchors
    let anchor_hash = anchor_hash_of id sc.st.root
    parent_proof ← or_fail (prove e.st anchor_hash) not_found
    ap ← or_fail (lookup_hash e anchor_hash) not_committed
    ok (record {
      entry_hash = entry_hash;
      sub_chain_root = sc.st.root;
      sub_chain_proof = sub_proof;
      anchor_hash = anchor_hash;
      anchor_block = ap.block_index;
      parent_root = e.st.root;
      parent_proof = parent_proof;
    })

  -- VerifyCrossChain
  unfoldable pub verify_cross_chain : CrossChainProof → Bytes → Bool
  verify_cross_chain p parent_root =
      let verifier = new blake3 256 in
      if not (verify blake3 verifier p.entry_hash p.entry_hash p.sub_chain_root p.sub_chain_proof)
      then false
      else if not (verify blake3 verifier p.anchor_hash p.anchor_hash parent_root p.parent_proof)
      then false
      else true

unfoldable pub descriptor : SubChainManager → Bytes → Option SubChainDescriptor
descriptor m id = elim (lookup id m) [ none ↦ none | some sc ↦ some sc.desc ]

-- Submit
unfoldable pub submit_entry :
    SubChainManager → Bytes → ProvenanceEntry → SubChainManager × Result SubChainError (Unit {0})
submit_entry m id entry = elim (lookup id m) [
  | none ↦ (m, err sub_chain_not_found)
  | some sc ↦ (insert id (record sc { pending = sc.pending ++ (entry ∷ []) }) m, ok tt)
]
