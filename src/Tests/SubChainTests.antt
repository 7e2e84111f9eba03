-- ===== src/Tests/SubChainTests.antt =====
-- Proofs across chains at a small input: one entry in a sub-chain whose root the engine has anchored.
-- The digest is a constant, which is enough for trees of one leaf.
use gleipnir.Prelude.{◌≡◌, refl, true, Bytes, bytes_beq, bytes_eq, Option, none, some, [], ◌∷◌}
use gleipnir.Prelude.Int.{pos}
use gleipnir.Prelude.Words.{be_bytes}
use gleipnir.Prelude.Table.{lookup, insert}
use gleipnir.Prelude.Results.{ok}
use gleipnir.Smt.{
  SparseMerkleTree, new, bulk_insert, insert_key, insert_at, put_leaf, leaf_hash, leaf_preimage,
  get, get_from, prove, prove_from,
}
use gleipnir.Smt.Hashed
use gleipnir.Smt.Hashed.{IsHashed}
use gleipnir.Engine.{Engine, lookup_hash}
use gleipnir.Engine.SubChains.{
  SubChain, SubChainManager, CrossChainProof, anchor_hash_of, prove_cross_chain, verify_cross_chain,
}
use gleipnir.Engine.SubChains.Cross
use gleipnir.Tests.EngineTests.{engine}

abbrev digest : Bytes → Bytes
digest b = 7 ∷ []

abbrev or_new : Option SparseMerkleTree → SparseMerkleTree
or_new none = new digest 256
or_new (some t) = t

-- The tree that holds one hash under itself.
abbrev single : Bytes → SparseMerkleTree
single h = or_new (bulk_insert digest (new digest 256) ((h, h) ∷ []))

singles : (h : Bytes) → bulk_insert digest (new digest 256) ((h, h) ∷ []) ≡ some (single h)
unfolding bulk_insert new insert_key insert_at put_leaf leaf_hash leaf_preimage be_bytes lookup
    insert
singles h = refl

single-IsHashed : (h : Bytes) → IsHashed digest (single h).store
single-IsHashed h =
    Hashed.bulk_insert-IsHashed digest (new digest 256) (single h) ((h, h) ∷ [])
      (Hashed.new-IsHashed digest 256) (singles h)

abbrev chain : SubChain
chain = record {
  desc = record {
    id = 1 ∷ [];
    name = [];
    owner = 2 ∷ [];
    genesis = [];
    created_at = pos 0;
    active = true;
  };
  st = single (5 ∷ []);
  anchors =
      record {
        sub_chain_id = 1 ∷ [];
        state_root = 7 ∷ [];
        prev_anchor_hash = [];
        sub_chain_height = 0;
        timestamp = pos 0;
      }
      ∷ [];
  pending = [];
}

abbrev manager : SubChainManager
manager = (1 ∷ [], chain) ∷ []

abbrev anchoring : Engine
anchoring = record engine {
  st = single (7 ∷ []);
  anchored =
      (
        7 ∷ [],
        record {
          found = true;
          block_index = 0;
          block_time = pos 0;
          state_root = 7 ∷ [];
          smt_proof = [];
          submitter = 2 ∷ [];
          label = [];
        },
      )
      ∷ [];
}

abbrev cross : CrossChainProof
cross = record {
  entry_hash = 5 ∷ [];
  sub_chain_root = 7 ∷ [];
  sub_chain_proof = [];
  anchor_hash = 7 ∷ [];
  anchor_block = 0;
  parent_root = 7 ∷ [];
  parent_proof = [];
}

proves_cross : prove_cross_chain digest anchoring manager (1 ∷ []) (5 ∷ []) ≡ ok cross
unfolding prove_cross_chain anchor_hash_of prove prove_from lookup_hash bulk_insert new insert_key
    insert_at put_leaf leaf_hash leaf_preimage be_bytes lookup insert bytes_beq
proves_cross = refl

finds_manager : lookup (1 ∷ []) manager ≡ some chain
unfolding lookup bytes_beq
finds_manager = refl

deep : (h : Bytes) → (single h).depth ≡ 256
unfolding bulk_insert new insert_key insert_at put_leaf leaf_hash leaf_preimage be_bytes lookup
    insert
deep h = refl

gets_five : get (single (5 ∷ [])) (5 ∷ []) ≡ some (5 ∷ [])
unfolding get get_from bulk_insert new insert_key insert_at put_leaf leaf_hash leaf_preimage
    be_bytes lookup insert bytes_beq
gets_five = refl

gets_anchor :
    get (single (7 ∷ [])) (anchor_hash_of digest (1 ∷ []) (single (5 ∷ [])).root)
    ≡ some (anchor_hash_of digest (1 ∷ []) (single (5 ∷ [])).root)
unfolding anchor_hash_of get get_from bulk_insert new insert_key insert_at put_leaf leaf_hash
    leaf_preimage be_bytes lookup insert bytes_beq
gets_anchor = refl

prove_cross_chain-verifies_example : verify_cross_chain digest cross (7 ∷ []) ≡ true
prove_cross_chain-verifies_example =
    Cross.prove_cross_chain-verifies digest anchoring manager (1 ∷ []) (5 ∷ []) chain cross
      finds_manager (deep (7 ∷ [])) (deep (5 ∷ [])) (single-IsHashed (7 ∷ []))
      (single-IsHashed (5 ∷ [])) gets_five gets_anchor proves_cross
