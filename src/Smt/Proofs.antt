-- ===== src/Smt/Proofs.antt =====
-- What `get` finds, `prove` proves, and `verify` accepts.
use gleipnir.Prelude.{
  ℕ, zero, suc, ◌+◌, ◌-◌, ◌≡◌, refl, true, Bytes, none, some, List, [], ◌∷◌, arith, Bool-cases,
  Option-cases, inl, inr, bytes_eq, bytes_beq_iff, bytes_beq_refl, length,
}
use gleipnir.Prelude.Table.{lookup}
use gleipnir.Smt.{
  Store, SparseMerkleTree, leaf_hash, path, fold_path, verify, get, get_from, prove, prove_from,
}
use gleipnir.Smt.Hashed.{IsHashed}

module _ (blake3 : Bytes → Bytes) where
  -- A path that leads from a leaf of the key to `top`.
  pub record Leads (key top : Bytes) (depth : ℕ) (out : List Bytes) : Type 0 where
    pub value : Bytes
    pub start : ℕ
    pub sized : length out + start ≡ depth
    pub leads : fold_path blake3 key (leaf_hash blake3 key value) start out ≡ top

  prove_from_lem :
      (s : Store) (key cur : Bytes) (proof out : List Bytes) (d : ℕ)
      → IsHashed blake3 s
      → prove_from s key cur proof d ≡ some out
      → Leads key (fold_path blake3 key cur d proof) (length proof + d) out
  unfolding prove_from fold_path
  prove_from_lem s key cur proof out zero v e = elim (Option-cases (lookup cur s)) [
    | inl missing ↦ absurd (ground arith)
    | inr (n, found) ↦ record {
      value = n.value;
      start = zero;
      sized = ground arith;
      leads = ground (arith, v cur n found, bytes_beq_iff n.key key);
    }
  ]
  prove_from_lem s key cur proof out (suc d) v e = elim (Option-cases (lookup cur s)) [
    | inl missing ↦ absurd (ground arith)
    | inr (n, found) ↦ elim (Bool-cases n.leaf) [
      | inl leaf ↦ record {
        value = n.value;
        start = suc d;
        sized = ground arith;
        leads = ground (arith, v cur n found, bytes_beq_iff n.key key);
      }
      | inr inner ↦ elim (Bool-cases (path key d)) [
        | inl right ↦
            let below = prove_from_lem s key n.right (n.left ∷ proof) out d v (ground arith) in
            record {
              value = below.value;
              start = below.start;
              sized = omega (arith, below.sized);
              leads = ground (arith, below.leads, v cur n found);
            }
        | inr left ↦
            let below = prove_from_lem s key n.left (n.right ∷ proof) out d v (ground arith) in
            record {
              value = below.value;
              start = below.start;
              sized = omega (arith, below.sized);
              leads = ground (arith, below.leads, v cur n found);
            }
      ]
    ]
  ]

  -- Where every node is under its hash, a proof that `prove` gives for a key is accepted by `verify`
  -- for that key, some value and the tree's root.
  pub prove_verifies :
      (t : SparseMerkleTree) (key : Bytes) (proof : List Bytes)
      → IsHashed blake3 t.store
      → prove t key ≡ some proof
      → (value : Bytes) × (verify blake3 t key value t.root proof ≡ true)
  unfolding prove verify fold_path
  prove_verifies t key proof v e =
      let l = prove_from_lem t.store key t.root [] proof t.depth v e in
      let start : t.depth - length proof ≡ l.start = omega (arith, l.sized) in
      (l.value, rw start (ground (arith, l.leads, l.sized, bytes_beq_refl t.root)))

  -- The same path, for the value that `get_from` finds.
  pub record Proves (s : Store) (key cur value : Bytes) (proof : List Bytes) (d : ℕ) : Type 0 where
    pub out : List Bytes
    pub proved : prove_from s key cur proof d ≡ some out
    pub start : ℕ
    pub sized : length out + start ≡ length proof + d
    pub leads :
        fold_path blake3 key (leaf_hash blake3 key value) start out
        ≡ fold_path blake3 key cur d proof

  get_from_lem :
      (s : Store) (key cur value : Bytes) (proof : List Bytes) (d : ℕ)
      → IsHashed blake3 s
      → get_from s key cur d ≡ some value
      → Proves s key cur value proof d
  unfolding get_from prove_from fold_path
  get_from_lem s key cur value proof zero v e = absurd (ground arith)
  get_from_lem s key cur value proof (suc d) v e = elim (Option-cases (lookup cur s)) [
    | inl missing ↦ absurd (ground arith)
    | inr (n, found) ↦ elim (Bool-cases n.leaf) [
      | inl leaf ↦ record {
        out = proof;
        proved = ground arith;
        start = suc d;
        sized = refl;
        leads = ground (arith, v cur n found, bytes_beq_iff n.key key);
      }
      | inr inner ↦ elim (Bool-cases (path key d)) [
        | inl right ↦
            let below = get_from_lem s key n.right value (n.left ∷ proof) d v (ground arith) in
            record {
              out = below.out;
              proved = ground (arith, below.proved);
              start = below.start;
              sized = omega (arith, below.sized);
              leads = ground (arith, below.leads, v cur n found);
            }
        | inr left ↦
            let below = get_from_lem s key n.left value (n.right ∷ proof) d v (ground arith) in
            record {
              out = below.out;
              proved = ground (arith, below.proved);
              start = below.start;
              sized = omega (arith, below.sized);
              leads = ground (arith, below.leads, v cur n found);
            }
      ]
    ]
  ]

  -- Where every node is under its hash, whatever `get` returns can be proved: `prove` gives a path
  -- for the key, and `verify` accepts that path for the key, the value and the tree's root.
  pub get_provable :
      (t : SparseMerkleTree) (key value : Bytes)
      → IsHashed blake3 t.store
      → get t key ≡ some value
      → (proof : List Bytes) × (prove t key ≡ some proof)
        × (verify blake3 t key value t.root proof ≡ true)
  unfolding get prove verify fold_path
  get_provable t key value v e =
      let l = get_from_lem t.store key t.root value [] t.depth v e in
      let start : t.depth - length l.out ≡ l.start = omega (arith, l.sized) in
      (l.out, l.proved, rw start (ground (arith, l.leads, l.sized, bytes_beq_refl t.root)))

bottom_lem :
    (s : Store) (key cur : Bytes) (proof out : List Bytes) (d : ℕ)
    → prove_from s key cur proof d ≡ some out
    → length out ≡ length proof + d
    → get_from s key cur d ≡ none
unfolding prove_from get_from
bottom_lem s key cur proof out zero e full = refl
bottom_lem s key cur proof out (suc d) e full = elim (Option-cases (lookup cur s)) [
  | inl missing ↦ absurd (ground arith)
  | inr (n, found) ↦ ground (
    arith,
    bottom_lem s key n.right (n.left ∷ proof) out d,
    bottom_lem s key n.left (n.right ∷ proof) out d,
  )
]

-- A key whose path has as many siblings as the tree is deep can be proved, and yet `get` does not
-- find it.
pub bottom_not_found :
    (t : SparseMerkleTree) (key : Bytes) (proof : List Bytes)
    → prove t key ≡ some proof
    → length proof ≡ t.depth
    → get t key ≡ none
unfolding prove get
bottom_not_found t key proof e full =
    bottom_lem t.store key t.root [] proof t.depth e (omega (arith, full))
