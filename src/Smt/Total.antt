-- ===== src/Smt/Total.antt =====
-- Insertion always gives a tree where inner nodes end in time.
use gleipnir.Prelude.{
  ℕ, zero, suc, ◌≡◌, refl, true, false, Bytes, none, some, List, arith, Bool-cases, Option-cases,
  inl, inr, bytes_eq,
}
use gleipnir.Prelude.Table.{lookup}
use gleipnir.Smt.{Node, Store, SparseMerkleTree, path, insert_at, insert_key}

-- From the hash down, no inner node stands below depth 0.
abbrev pub Fits : Store → Bytes → ℕ → Type 0
Fits s h zero = (n : Node) → lookup h s ≡ some n → n.leaf ≡ true
Fits s h (suc d) =
    (n : Node) → lookup h s ≡ some n → n.leaf ≡ false → Fits s n.left d × Fits s n.right d

module _ (blake3 : Bytes → Bytes) where
  insert_at-some :
      (zs : List Bytes) (s : Store) (cur key value : Bytes) (d : ℕ)
      → Fits s cur d
      → insert_at blake3 zs s cur key value d ≡ none
      → ⊥
  unfolding insert_at
  insert_at-some zs s cur key value zero f e = elim (Option-cases (lookup cur s)) [
    | inl missing ↦ ground arith
    | inr (n, found) ↦ ground (arith, f n found)
  ]
  insert_at-some zs s cur key value (suc d) f e = elim (Option-cases (lookup cur s)) [
    | inl missing ↦ ground arith
    | inr (n, found) ↦ elim (Bool-cases n.leaf) [
      | inl leaf ↦ ground arith
      | inr inner ↦ elim (Bool-cases (path key d)) [
        | inl right ↦ elim (Option-cases (insert_at blake3 zs s n.right key value d)) [
          | inl failed ↦ insert_at-some zs s n.right key value d (f n found inner).1 failed
          | inr (r, below) ↦ ground arith
        ]
        | inr left ↦ elim (Option-cases (insert_at blake3 zs s n.left key value d)) [
          | inl failed ↦ insert_at-some zs s n.left key value d (f n found inner).0 failed
          | inr (r, below) ↦ ground arith
        ]
      ]
    ]
  ]

  -- Where no inner node stands below depth 0, the insertion of any key and value gives a tree.
  insert_key_total :
      (t : SparseMerkleTree) (key value : Bytes)
      → Fits t.store t.root t.depth
      → (t' : SparseMerkleTree) × (insert_key blake3 t key value ≡ some t')
  unfolding insert_key
  insert_key_total t key value f =
      elim (Option-cases (insert_at blake3 t.zeroes t.store t.root key value t.depth)) [
        | inl failed ↦ absurd (insert_at-some t.zeroes t.store t.root key value t.depth f failed)
        | inr (r, e) ↦ (record t { root = r.1; store = r.0 }, rw e refl)
      ]
