-- ===== src/Tests/SmtTests.antt =====
-- The sparse Merkle tree at small inputs, with digests that can be computed by hand.
use gleipnir.Prelude.{
  ℕ, zero, suc, ◌≡◌, refl, ◌⊎◌, true, Bytes, bytes_beq, zero_bytes, Option, none, some, List, [],
  ◌∷◌, arith, length,
}
use gleipnir.Prelude.Bits.{test_bit, shr}
use gleipnir.Prelude.Words.{be_bytes}
use gleipnir.Prelude.Table.{Table, lookup, insert}
use gleipnir.Smt.{
  SparseMerkleTree, new, bulk_insert, insert_key, insert_at, insert_at_leaf, split_and_insert,
  put_leaf, put_inner, parent_hash, leaf_hash, leaf_preimage, path, get, get_from, prove,
  prove_from, verify, fold_path,
}
use gleipnir.Smt.Hashed
use gleipnir.Smt.Hashed.{IsHashed}
use gleipnir.Smt.Proofs
use gleipnir.Smt.Binding
use gleipnir.Smt.Total.{Fits}
use gleipnir.Smt.Binding.{Collision}

-- A digest without collisions.
abbrev plain : Bytes → Bytes
plain b = b

abbrev or_empty_tree : Option SparseMerkleTree → SparseMerkleTree
or_empty_tree none = new plain 8
or_empty_tree (some t) = t

-- The two keys part at the top of the tree.
abbrev pairs : Table Bytes Bytes
pairs = (0 ∷ [], 7 ∷ []) ∷ (128 ∷ [], 9 ∷ []) ∷ []

abbrev filled : SparseMerkleTree
filled = or_empty_tree (bulk_insert plain (new plain 8) pairs)

fills : bulk_insert plain (new plain 8) pairs ≡ some filled
unfolding bulk_insert new insert_key insert_at insert_at_leaf split_and_insert put_leaf put_inner
    parent_hash leaf_hash leaf_preimage be_bytes path test_bit shr lookup insert bytes_beq
fills = refl

filled-IsHashed : IsHashed plain filled.store
filled-IsHashed =
    Hashed.bulk_insert-IsHashed plain (new plain 8) filled pairs (Hashed.new-IsHashed plain 8) fills

gets : get filled (128 ∷ []) ≡ some (9 ∷ [])
unfolding get get_from bulk_insert new insert_key insert_at insert_at_leaf split_and_insert put_leaf
    put_inner parent_hash leaf_hash leaf_preimage be_bytes path test_bit shr lookup insert bytes_beq
gets = refl

get_provable_example :
    (proof : List Bytes) × (prove filled (128 ∷ []) ≡ some proof)
    × (verify plain filled (128 ∷ []) (9 ∷ []) filled.root proof ≡ true)
get_provable_example = Proofs.get_provable plain filled (128 ∷ []) (9 ∷ []) filled-IsHashed gets

abbrev sibling : Bytes
sibling = leaf_hash plain (0 ∷ []) (7 ∷ [])

proves_it : prove filled (128 ∷ []) ≡ some (sibling ∷ [])
unfolding prove prove_from bulk_insert new insert_key insert_at insert_at_leaf split_and_insert
    put_leaf put_inner parent_hash leaf_hash leaf_preimage be_bytes path test_bit shr lookup insert
    bytes_beq
proves_it = refl

-- In a tree of depth 1, two keys that part at its one level are both at the bottom.
abbrev low_pairs : Table Bytes Bytes
low_pairs = (0 ∷ [], 7 ∷ []) ∷ (1 ∷ [], 9 ∷ []) ∷ []

abbrev shallow : SparseMerkleTree
shallow = or_empty_tree (bulk_insert plain (new plain 1) low_pairs)

proves_low : prove shallow (1 ∷ []) ≡ some (sibling ∷ [])
unfolding prove prove_from bulk_insert new insert_key insert_at insert_at_leaf split_and_insert
    put_leaf put_inner parent_hash leaf_hash leaf_preimage be_bytes path test_bit shr lookup insert
    bytes_beq
proves_low = refl

shallow_depth : length (sibling ∷ []) ≡ shallow.depth
unfolding bulk_insert new insert_key insert_at insert_at_leaf split_and_insert put_leaf put_inner
    parent_hash leaf_hash leaf_preimage be_bytes path test_bit shr lookup insert bytes_beq
shallow_depth = refl

-- A digest of 32 bytes.
abbrev pad : ℕ → Bytes → Bytes
pad zero b = []
pad (suc n) [] = 0 ∷ pad n []
pad (suc n) (x ∷ xs) = x ∷ pad n xs

length-pad : (n : ℕ) (b : Bytes) → length (pad n b) ≡ n
length-pad zero b = refl
length-pad (suc n) [] = omega (arith, length-pad n [])
length-pad (suc n) (x ∷ xs) = omega (arith, length-pad n xs)

abbrev short : Bytes → Bytes
short b = pad 32 b

abbrev short_root : Bytes
short_root = fold_path short (128 ∷ []) (leaf_hash short (128 ∷ []) (9 ∷ [])) 7 (zero_bytes 32 ∷ [])

verifies_short : verify short filled (128 ∷ []) (9 ∷ []) short_root (zero_bytes 32 ∷ []) ≡ true
unfolding verify fold_path bulk_insert new insert_key insert_at insert_at_leaf split_and_insert
    put_leaf put_inner parent_hash leaf_hash leaf_preimage be_bytes path test_bit shr lookup insert
    bytes_beq
verifies_short = refl

abbrev nine : Bytes
nine = 9 ∷ []

verify_binds_example : (nine ≡ nine) ⊎ Collision short
verify_binds_example =
    Binding.verify_binds short (λ b. length-pad 32 b) filled (128 ∷ []) (9 ∷ []) (9 ∷ []) short_root
      (zero_bytes 32 ∷ []) (zero_bytes 32 ∷ []) (refl, tt) (refl, tt) refl verifies_short
      verifies_short

-- One leaf, at the root.
abbrev single : SparseMerkleTree
single = or_empty_tree (bulk_insert plain (new plain 8) ((0 ∷ [], 7 ∷ []) ∷ []))

single-Fits : Fits single.store single.root 8
unfolding bulk_insert new insert_key insert_at put_leaf lookup insert bytes_beq leaf_hash
    leaf_preimage be_bytes
single-Fits n e inner = absurd (ground arith)
