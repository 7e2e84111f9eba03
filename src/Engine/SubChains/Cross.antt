-- ===== src/Engine/SubChains/Cross.antt =====
-- Proofs across two chains: what Prove makes, and what VerifyCrossChain asks.
use gleipnir.Prelude.{
  ◌≡◌, refl, sym, ◌∙◌, subst, true, Bytes, bytes_eq, bytes_beq_refl, some, List, [], arith,
  Option-cases, inl, inr,
}
use gleipnir.Prelude.Table.{lookup}
use gleipnir.Prelude.Results.{ok}
use gleipnir.Smt.{SparseMerkleTree, new, get, prove, verify, fold_path, leaf_hash}
use gleipnir.Smt.Hashed.{IsHashed}
use gleipnir.Smt.Proofs.{get_provable}
use gleipnir.Engine.{Engine, lookup_hash}
use gleipnir.Engine.SubChains.{
  SubChain, SubChainManager, CrossChainProof, anchor_hash_of, prove_cross_chain, verify_cross_chain,
}

module _ (blake3 : Bytes → Bytes) where
  -- Verify reads nothing of the tree but its depth.
  verify-new :
      (t : SparseMerkleTree) (key value root : Bytes) (proof : List Bytes)
      → t.depth ≡ 256
      → verify blake3 (new blake3 256) key value root proof ≡ verify blake3 t key value root proof
  unfolding verify new
  verify-new t key value root proof deep = rw deep refl

  -- What a tree of that depth proves of a key that it holds under itself, any tree of it accepts.
  proves_self :
      (t : SparseMerkleTree) (key : Bytes) (proof : List Bytes)
      → t.depth ≡ 256
      → IsHashed blake3 t.store
      → get t key ≡ some key
      → prove t key ≡ some proof
      → verify blake3 (new blake3 256) key key t.root proof ≡ true
  proves_self t key proof deep hashed holds made =
      let g = get_provable blake3 t key key hashed holds in
      let same : some g.0 ≡ some proof = sym g.1 ∙ made in
      let e : g.0 ≡ proof = ground arith in
      verify-new t key key t.root proof deep
      ∙ subst (λ p. verify blake3 t key key t.root p ≡ true) e g.2

  -- A proof that Prove gives is accepted by VerifyCrossChain under the parent root that it names, where
  -- both trees are of depth 256, keep every node under its hash, and hold the hashes that are proved
  -- under themselves.
  pub prove_cross_chain-verifies :
      (e : Engine) (m : SubChainManager) (id entry_hash : Bytes) (sc : SubChain)
      (p : CrossChainProof)
      → lookup id m ≡ some sc
      → e.st.depth ≡ 256
      → sc.st.depth ≡ 256
      → IsHashed blake3 e.st.store
      → IsHashed blake3 sc.st.store
      → get sc.st entry_hash ≡ some entry_hash
      → get e.st (anchor_hash_of blake3 id sc.st.root) ≡ some (anchor_hash_of blake3 id sc.st.root)
      → prove_cross_chain blake3 e m id entry_hash ≡ ok p
      → verify_cross_chain blake3 p p.parent_root ≡ true
  unfolding prove_cross_chain verify_cross_chain
  prove_cross_chain-verifies e m id entry_hash sc p found deep deep' hashed hashed' held held'
        made =
      let anchor_hash = anchor_hash_of blake3 id sc.st.root in
      elim (Option-cases (prove sc.st entry_hash)) [
        | inl unproved ↦ absurd (ground arith)
        | inr (sub_proof, proved) ↦ elim (Option-cases (prove e.st anchor_hash)) [
          | inl unproved ↦ absurd (ground arith)
          | inr (parent_proof, proved') ↦ elim (Option-cases (lookup_hash e anchor_hash)) [
            | inl uncommitted ↦ absurd (ground arith)
            | inr (ap', committed) ↦
                let below = proves_self sc.st entry_hash sub_proof deep' hashed' held proved in
                let above = proves_self e.st anchor_hash parent_proof deep hashed held' proved' in
                ground arith
          ]
        ]
      ]

  -- From a proof that VerifyCrossChain accepts, anyone makes one that it accepts for any hash: with
  -- that hash alone in a tree of one leaf, and the anchor and its parent proof as they were. The anchor
  -- need not be of the root that is shown.
  pub any_entry_accepted :
      (p : CrossChainProof) (parent_root hash : Bytes)
      → verify_cross_chain blake3 p parent_root ≡ true
      → verify_cross_chain blake3
          (record p {
            entry_hash = hash;
            sub_chain_root = leaf_hash blake3 hash hash;
            sub_chain_proof = [];
          })
          parent_root
        ≡ true
  unfolding verify_cross_chain verify fold_path
  any_entry_accepted p parent_root hash accepted =
      ground (arith, bytes_beq_refl (leaf_hash blake3 hash hash))
