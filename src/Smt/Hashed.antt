-- ===== src/Smt/Hashed.antt =====
-- Every node of the store stands under its own hash.
use gleipnir.Prelude.{
  ℕ, zero, suc, ◌≡◌, subst, Bytes, some, List, [], ◌∷◌, arith, Bool-cases, Option-cases, inl, inr,
  if◌then◌else◌, ◌==◌, bytes_eq, bytes_beq_iff,
}
use gleipnir.Prelude.Table.{Table, lookup, insert, lookup-insert}
use gleipnir.Smt.{
  Node, Store, SparseMerkleTree, new, parent_hash, leaf_hash, put_leaf, put_inner, path,
  split_and_insert, insert_at_leaf, insert_at, insert_key, bulk_insert,
}

module _ (blake3 : Bytes → Bytes) where
  abbrev pub node_hash : Node → Bytes
  node_hash n = if n.leaf then leaf_hash blake3 n.key n.value else parent_hash blake3 n.left n.right

  -- A node is found only under the hash of what it holds.
  abbrev pub IsHashed : Store → Type 0
  IsHashed s = (h : Bytes) (n : Node) → lookup h s ≡ some n → node_hash n ≡ h

  insert-IsHashed : (s : Store) (n : Node) → IsHashed s → IsHashed (insert (node_hash n) n s)
  insert-IsHashed s n v h m found =
      let at = lookup-insert (node_hash n) h n s in
      ground (arith, at, v h m, bytes_beq_iff (node_hash n) h)

  put_leaf-IsHashed :
      (s : Store) (key value : Bytes) → IsHashed s → IsHashed (put_leaf blake3 s key value).0
  unfolding put_leaf
  put_leaf-IsHashed s key value v = insert-IsHashed s _ v

  put_inner-IsHashed :
      (s : Store) (left right : Bytes) → IsHashed s → IsHashed (put_inner blake3 s left right).0
  unfolding put_inner
  put_inner-IsHashed s left right v = insert-IsHashed s _ v

  split-IsHashed :
      (zs : List Bytes) (s : Store) (key1 h1 key2 h2 : Bytes) (d : ℕ)
      → IsHashed s
      → IsHashed (split_and_insert blake3 zs s key1 h1 key2 h2 d).0
  unfolding split_and_insert
  split-IsHashed zs s key1 h1 key2 h2 zero v = v
  split-IsHashed zs s key1 h1 key2 h2 (suc d) v =
      let below = split-IsHashed zs s key1 h1 key2 h2 d v in
      elim (Bool-cases (path key1 d)) [
        | inl a ↦ elim (Bool-cases (path key2 d)) [
          | inl b ↦ rw (a, b) (put_inner-IsHashed _ _ _ below)
          | inr b ↦ rw (a, b) (put_inner-IsHashed s h2 h1 v)
        ]
        | inr a ↦ elim (Bool-cases (path key2 d)) [
          | inl b ↦ rw (a, b) (put_inner-IsHashed s h1 h2 v)
          | inr b ↦ rw (a, b) (put_inner-IsHashed _ _ _ below)
        ]
      ]

  at_leaf-IsHashed :
      (zs : List Bytes) (s : Store) (n : Node) (key value : Bytes) (d : ℕ)
      → IsHashed s
      → IsHashed (insert_at_leaf blake3 zs s n key value d).0
  unfolding insert_at_leaf
  at_leaf-IsHashed zs s n key value zero v = elim (Bool-cases (n.key == key)) [
    | inl same ↦ rw same (put_leaf-IsHashed s key value v)
    | inr other ↦ rw other v
  ]
  at_leaf-IsHashed zs s n key value (suc d) v = elim (Bool-cases (n.key == key)) [
    | inl same ↦ rw same (put_leaf-IsHashed s key value v)
    | inr other ↦ rw other (split-IsHashed zs _ _ _ _ _ (suc d) (put_leaf-IsHashed s key value v))
  ]

  insert_at-IsHashed :
      (zs : List Bytes) (s s' : Store) (cur key value h : Bytes) (d : ℕ)
      → IsHashed s
      → insert_at blake3 zs s cur key value d ≡ some (s', h)
      → IsHashed s'
  unfolding insert_at
  insert_at-IsHashed zs s s' cur key value h zero v e = elim (Option-cases (lookup cur s)) [
    | inl missing ↦
        let out : (put_leaf blake3 s key value).0 ≡ s' = ground arith in
        subst IsHashed out (put_leaf-IsHashed s key value v)
    | inr (n, found) ↦
        let out : (insert_at_leaf blake3 zs s n key value zero).0 ≡ s' = ground arith in
        subst IsHashed out (at_leaf-IsHashed zs s n key value zero v)
  ]
  insert_at-IsHashed zs s s' cur key value h (suc d) v e = elim (Option-cases (lookup cur s)) [
    | inl missing ↦
        let out : (put_leaf blake3 s key value).0 ≡ s' = ground arith in
        subst IsHashed out (put_leaf-IsHashed s key value v)
    | inr (n, found) ↦ elim (Bool-cases n.leaf) [
      | inl leaf ↦
          let out : (insert_at_leaf blake3 zs s n key value (suc d)).0 ≡ s' = ground arith in
          subst IsHashed out (at_leaf-IsHashed zs s n key value (suc d) v)
      | inr inner ↦ elim (Bool-cases (path key d)) [
        | inl right ↦ elim (Option-cases (insert_at blake3 zs s n.right key value d)) [
          | inl failed ↦ absurd (ground arith)
          | inr ((s1, h1), below) ↦
              let out : (put_inner blake3 s1 n.left h1).0 ≡ s' = ground arith in
              subst IsHashed out (
                put_inner-IsHashed s1 n.left h1
                  (insert_at-IsHashed zs s s1 n.right key value h1 d v below))
        ]
        | inr left ↦ elim (Option-cases (insert_at blake3 zs s n.left key value d)) [
          | inl failed ↦ absurd (ground arith)
          | inr ((s1, h1), below) ↦
              let out : (put_inner blake3 s1 h1 n.right).0 ≡ s' = ground arith in
              subst IsHashed out (
                put_inner-IsHashed s1 h1 n.right
                  (insert_at-IsHashed zs s s1 n.left key value h1 d v below))
        ]
      ]
    ]
  ]

  insert_key-IsHashed :
      (t t' : SparseMerkleTree) (key value : Bytes)
      → IsHashed t.store
      → insert_key blake3 t key value ≡ some t'
      → IsHashed t'.store
  unfolding insert_key
  insert_key-IsHashed t t' key value v e =
      elim (Option-cases (insert_at blake3 t.zeroes t.store t.root key value t.depth)) [
        | inl failed ↦ absurd (ground arith)
        | inr ((s, h), below) ↦
            let out : s ≡ t'.store = ground arith in
            subst IsHashed out
              (insert_at-IsHashed t.zeroes t.store s t.root key value h t.depth v below)
      ]

  pub new-IsHashed : (depth : ℕ) → IsHashed (new blake3 depth).store
  unfolding new lookup
  new-IsHashed depth h n e = ground arith

  -- Whatever is inserted, in whatever order: a node stays under the hash of what it holds.
  pub bulk_insert-IsHashed :
      (t t' : SparseMerkleTree) (entries : Table Bytes Bytes)
      → IsHashed t.store
      → bulk_insert blake3 t entries ≡ some t'
      → IsHashed t'.store
  unfolding bulk_insert
  bulk_insert-IsHashed t t' [] v e =
      let out : t ≡ t' = ground arith in subst (λ x. IsHashed x.store) out v
  bulk_insert-IsHashed t t' ((key, value) ∷ rest) v e =
      elim (Option-cases (insert_key blake3 t key value)) [
        | inl failed ↦ absurd (ground arith)
        | inr (t1, one) ↦
            bulk_insert-IsHashed t1 t' rest (insert_key-IsHashed t t1 key value v one)
              (ground arith)
      ]
